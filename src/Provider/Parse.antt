-- ===== src/Provider/Parse.antt =====
-- provider/child/parse.go and provider/host/parse.go: what the bots read from the attributes of an event.
-- All functions go through the attributes once, in a switch over the key.
pub mod Host
pub mod Child
pub mod Present
use opinit_bots.Base.Bytes.{bytes_equal}
use opinit_bots.Base.{ℕ, ◌==◌, ◌&&◌, Bool, Option, none, some, List, [], ◌∷◌, if◌then◌else◌}
use opinit_bots.Base.Result.{Result, ok, err}
use opinit_bots.Db.{Bytes}

-- The keys that the switches know, whose names are constants of the chains' modules, and the others.
pub data Key : Type 0 where
  key_bridge_id key_l1_sequence key_l2_sequence key_sender key_recipient key_from key_to : Key
  key_denom key_base_denom key_l1_denom key_l2_denom key_amount key_data key_finalize_height : Key
  key_height key_batch_chain_type key_batch_submitter key_submitter key_finalized_output_index
        key_finalized_l2_block_number key_proposer :
      Key
  key_challenger key_output_index key_output_root key_l2_block_number key_oracle_enabled : Key
  other : Bytes → Key

-- A number for each key that a switch knows.
abbrev key_index : Key → ℕ
key_index key_bridge_id = 1
key_index key_l1_sequence = 2
key_index key_l2_sequence = 3
key_index key_sender = 4
key_index key_recipient = 5
key_index key_from = 6
key_index key_to = 7
key_index key_denom = 8
key_index key_base_denom = 9
key_index key_l1_denom = 10
key_index key_l2_denom = 11
key_index key_amount = 12
key_index key_data = 13
key_index key_finalize_height = 14
key_index key_height = 15
key_index key_batch_chain_type = 16
key_index key_batch_submitter = 17
key_index key_submitter = 18
key_index key_finalized_output_index = 19
key_index key_finalized_l2_block_number = 20
key_index key_proposer = 21
key_index key_challenger = 22
key_index key_output_index = 23
key_index key_output_root = 24
key_index key_l2_block_number = 25
key_index key_oracle_enabled = 26
key_index (other name) = 0

-- The name of a key that no switch knows.
abbrev key_name : Key → Bytes
key_name (other name) = name
key_name _ = []

abbrev pub key_equal : Key → Key → Bool
key_equal j k = key_index j == key_index k && bytes_equal (key_name j) (key_name k)

pub record Attribute : Type 0 where
  pub key : Key
  pub value : Bytes

pub data ParseError : Type 0 where
  missing_attributes : List Key → ParseError
  invalid_value : Key → Bytes → ParseError

-- What a case of a switch does with the values read so far: the default continues, a case returns its error
-- or changes the values, after which its key is not missing any more.
pub data Step (A : Type 0) : Type 0 where
  skip : Step A
  stop : ParseError → Step A
  set : A → Step A

-- A case that reads its value by a function that can fail.
abbrev pub reads : {A B : Type 0} → Attribute → Option B → (B → A) → Step A
reads attr none f = stop (invalid_value attr.key attr.value)
reads attr (some b) f = set (f b)

abbrev pub remove_key : Key → List Key → List Key
remove_key k [] = []
remove_key k (j ∷ js) = let rest = remove_key k js in if key_equal k j then rest else j ∷ rest

unfoldable pub missing_attrs_error : {A : Type 0} → List Key → A → Result ParseError A
missing_attrs_error [] a = ok a
missing_attrs_error (k ∷ ks) a = err (missing_attributes (k ∷ ks))

unfoldable pub parse_attributes :
    {A : Type 0} → (Attribute → A → Step A) → List Attribute → A → List Key → Result ParseError A
unfolding missing_attrs_error
parse_attributes switch [] a missing = missing_attrs_error missing a
parse_attributes switch (attr ∷ attrs) a missing = elim (switch attr a) [
  | skip ↦ parse_attributes switch attrs a missing
  | stop e ↦ err e
  | set a' ↦ parse_attributes switch attrs a' (remove_key attr.key missing)
]

-- strconv, hex and the integers of the SDK; a coin amount that has no uint64 panics.
pub record Readers : Type 0 where
  pub parse_uint : Bytes → Option ℕ
  pub parse_int : Bytes → Option ℕ
  pub parse_bool : Bytes → Option Bool
  pub decode_string : Bytes → Option Bytes
  pub coin_amount : Bytes → Option ℕ
  pub is_chain_type : Bytes → Bool
