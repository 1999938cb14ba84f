-- ===== src/Tests/Provider.antt =====
-- The attributes of a proposed output.
use opinit_bots.Base.{ℕ, ◌≡◌, refl, true, List, [], ◌∷◌, Option, none, some, All}
use opinit_bots.Base.Bytes.{bytes_equal}
use opinit_bots.Db.{Bytes}
use opinit_bots.Provider.Parse.{
  Attribute, Readers, other, key_proposer, key_bridge_id, key_output_index, key_l2_block_number,
  key_output_root, parse_attributes, missing_attrs_error,
}
use opinit_bots.Provider.Parse.Present.{has_key, parse_attributes-All}
use opinit_bots.Provider.Parse.Host.{
  ProposeOutput, parse_msg_propose_output_case, parse_msg_propose_output_keys,
  no_parse_msg_propose_output,
}

abbrev first_byte : Bytes → Option ℕ
first_byte [] = none
first_byte (b ∷ bytes) = some b

abbrev readers : Readers
readers = record {
  parse_uint = first_byte;
  parse_int = first_byte;
  parse_bool = λ bytes. some true;
  decode_string = λ bytes. some bytes;
  coin_amount = first_byte;
  is_chain_type = λ bytes. true;
}

abbrev attributes : List Attribute
attributes =
    record { key = key_bridge_id; value = 1 ∷ [] }
    ∷ record { key = other (9 ∷ []); value = [] }
    ∷ record { key = key_output_root; value = 7 ∷ 7 ∷ [] }
    ∷ record { key = key_l2_block_number; value = 30 ∷ [] }
    ∷ record { key = key_output_index; value = 3 ∷ [] }
    ∷ record { key = key_proposer; value = 5 ∷ [] }
    ∷ []

abbrev proposed : ProposeOutput
proposed = record {
  proposer = 5 ∷ [];
  bridge_id = 1;
  output_index = 3;
  l2_block_number = 30;
  output_root = 7 ∷ 7 ∷ [];
}

parse_attributes-All_example : All (λ k. has_key k attributes ≡ true) parse_msg_propose_output_keys
unfolding parse_attributes parse_msg_propose_output_case missing_attrs_error bytes_equal
parse_attributes-All_example =
    parse_attributes-All (parse_msg_propose_output_case readers) attributes
      no_parse_msg_propose_output proposed parse_msg_propose_output_keys refl
