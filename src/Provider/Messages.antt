-- ===== src/Provider/Messages.antt =====
-- provider/child/msgs.go and the accounts of child.go: the messages that the executor sends to the child.
use opinit_bots.Base.{
  ℕ, Bool, true, false, Option, none, some, List, [], ◌∷◌, if◌then◌else◌, get_elem?,
}
use opinit_bots.Base.Result.{Result, ok, err, ◌>>=◌, ◌>>◌, guard}
use opinit_bots.Db.{Bytes}

pub data MessageError : Type 0 where
  key_not_set account_not_found granter_not_set invalid any_failed : MessageError

pub record Coin : Type 0 where
  pub denom : Bytes
  pub amount : ℕ

-- ophosttypes.BridgeConfig; `rest` is what the code does not change of it.
pub record BridgeConfig : Type 0 where
  pub challenger : Bytes
  pub proposer : Bytes
  pub batch_chain_type : ℕ
  pub batch_submitter : Bytes
  pub oracle_enabled : Bool
  pub rest : Bytes

-- opchildtypes.BridgeInfo; `rest` is the address and the identifiers of the chain and the client.
pub record BridgeInfo : Type 0 where
  pub bridge_id : ℕ
  pub rest : Bytes
  pub bridge_config : BridgeConfig

-- `accounts` are the addresses of the broadcaster's accounts, when there is a broadcaster; an index that
-- is none is -1.
pub record BaseChild : Type 0 where
  pub accounts : Option (List Bytes)
  pub base_account_index : Option ℕ
  pub oracle_account_index : Option ℕ
  pub oracle_account_granter : Bytes
  pub bridge_info : BridgeInfo

-- The messages `M` of the chain, with its checks. The message of `msg_exec` holds others in the form
-- that NewAnyWithValue gives them.
pub record Messages (M : Type 0) : Type 0 where
  pub new_msg_finalize_token_deposit :
      (sender from to : Bytes) → Coin → (l1_sequence height : ℕ) → (l1_denom bytes : Bytes) → M
  pub new_msg_update_oracle : (sender : Bytes) → (height : ℕ) → (bytes : Bytes) → M
  pub new_msg_set_bridge_info : (sender : Bytes) → BridgeInfo → M
  pub msg_exec : (grantee : Bytes) → List M → M
  pub validate : M → Bool
  pub has_any : M → Bool

unfoldable pub account_address_string : Option (List Bytes) → Option ℕ → Result MessageError Bytes
account_address_string none index = err key_not_set
account_address_string (some accounts) none = err key_not_set
account_address_string (some accounts) (some index) = elim (get_elem? accounts index) [
  | none ↦ err account_not_found
  | some address ↦ ok address
]

abbrev pub base_account_address_string : BaseChild → Result MessageError Bytes
base_account_address_string b = account_address_string b.accounts b.base_account_index

abbrev pub oracle_account_address_string : BaseChild → Result MessageError Bytes
oracle_account_address_string b = account_address_string b.accounts b.oracle_account_index

unfoldable pub has_broadcaster : BaseChild → Bool
has_broadcaster b = elim b.accounts [ none ↦ false | some _ ↦ true ]

module _ {M : Type 0} (messages : Messages M) (b : BaseChild) where
  abbrev Made : Type 0
  Made = Result MessageError (Option (M × Bytes))

  -- A key that is not set gives no message; other errors are passed on.
  abbrev pub for_account :
      Result MessageError Bytes → (Bytes → Result MessageError (M × Bytes)) → Made
  for_account (ok address) make = do made ← make address; ok (some made)
  for_account (err key_not_set) make = ok none
  for_account (err e) make = err e

  unfoldable pub get_msg_finalize_token_deposit :
      (from to : Bytes) → Coin → (l1_sequence block_height : ℕ) → (l1_denom bytes : Bytes) → Made
  unfolding account_address_string
  get_msg_finalize_token_deposit from to coin l1_sequence block_height l1_denom bytes =
      for_account (base_account_address_string b) (λ sender. do
        let msg =
            messages.new_msg_finalize_token_deposit sender from to coin l1_sequence block_height
              l1_denom bytes
        guard (messages.validate msg) invalid
        ok (msg, sender))

  unfoldable pub create_authz_msg : (grantee : Bytes) → M → Result MessageError M
  create_authz_msg grantee msg =
      if messages.has_any msg then ok (messages.msg_exec grantee (msg ∷ [])) else err any_failed

  unfoldable pub get_msg_update_oracle : (height : ℕ) → (bytes : Bytes) → Made
  unfolding account_address_string create_authz_msg
  get_msg_update_oracle height bytes =
      for_account (oracle_account_address_string b) (λ oracle_address.
        elim b.oracle_account_granter [
          | [] ↦ err granter_not_set
          | byte ∷ rest ↦ do
            let msg = messages.new_msg_update_oracle (byte ∷ rest) height bytes
            guard (messages.validate msg) invalid
            authz_msg ← create_authz_msg oracle_address msg
            ok (authz_msg, oracle_address)
        ])

  unfoldable pub get_msg_set_bridge_info : (bridge_id : ℕ) → BridgeConfig → Made
  unfolding account_address_string
  get_msg_set_bridge_info bridge_id bridge_config =
      for_account (base_account_address_string b) (λ sender. do
        let new_bridge_info = record b.bridge_info { bridge_config = bridge_config }
        let msg = messages.new_msg_set_bridge_info sender new_bridge_info
        guard (messages.validate msg) invalid
        ok (msg, sender))
