-- ===== src/Provider/Parse/Child.antt =====
-- provider/child/parse.go: the events of the child.
use opinit_bots.Base.{ℕ, List, [], ◌∷◌}
use opinit_bots.Base.Result.{Result}
use opinit_bots.Db.{Bytes}
use opinit_bots.Provider.Parse.{
  Key, Attribute, ParseError, Step, skip, set, reads, parse_attributes, Readers, key_l1_sequence,
  key_sender, key_recipient, key_denom, key_base_denom, key_amount, key_finalize_height, key_height,
  key_from, key_l2_sequence, key_to,
}

pub record FinalizeDeposit : Type 0 where
  pub l1_sequence : ℕ
  pub from : Bytes
  pub to : Bytes
  pub amount_denom : Bytes
  pub base_denom : Bytes
  pub amount : ℕ
  pub finalize_height : ℕ

abbrev pub no_parse_finalize_deposit : FinalizeDeposit
no_parse_finalize_deposit = record {
  l1_sequence = 0;
  from = [];
  to = [];
  amount_denom = [];
  base_denom = [];
  amount = 0;
  finalize_height = 0;
}

abbrev pub parse_finalize_deposit_keys : List Key
parse_finalize_deposit_keys =
    key_l1_sequence ∷ key_sender ∷ key_recipient ∷ key_denom ∷ key_base_denom ∷ key_amount
    ∷ key_finalize_height ∷ []

pub record UpdateOracle : Type 0 where
  pub l1_block_height : ℕ
  pub from : Bytes

abbrev pub no_parse_update_oracle : UpdateOracle
no_parse_update_oracle = record { l1_block_height = 0; from = [] }

abbrev pub parse_update_oracle_keys : List Key
parse_update_oracle_keys = key_height ∷ key_from ∷ []

pub record InitiateWithdrawal : Type 0 where
  pub l2_sequence : ℕ
  pub from : Bytes
  pub to : Bytes
  pub denom : Bytes
  pub base_denom : Bytes
  pub amount : ℕ

abbrev pub no_parse_initiate_withdrawal : InitiateWithdrawal
no_parse_initiate_withdrawal = record {
  l2_sequence = 0;
  from = [];
  to = [];
  denom = [];
  base_denom = [];
  amount = 0;
}

abbrev pub parse_initiate_withdrawal_keys : List Key
parse_initiate_withdrawal_keys =
    key_l2_sequence ∷ key_from ∷ key_to ∷ key_denom ∷ key_base_denom ∷ key_amount ∷ []

module _ (readers : Readers) where
  unfoldable pub parse_finalize_deposit_case : Attribute → FinalizeDeposit → Step FinalizeDeposit
  parse_finalize_deposit_case attr e = elim attr.key [
    | key_l1_sequence ↦
        reads attr (readers.parse_uint attr.value) (λ v. record e { l1_sequence = v })
    | key_sender ↦ set (record e { from = attr.value })
    | key_recipient ↦ set (record e { to = attr.value })
    | key_denom ↦ set (record e { amount_denom = attr.value })
    | key_base_denom ↦ set (record e { base_denom = attr.value })
    | key_amount ↦ reads attr (readers.coin_amount attr.value) (λ v. record e { amount = v })
    | key_finalize_height ↦
        reads attr (readers.parse_int attr.value) (λ v. record e { finalize_height = v })
    | _ ↦ skip
  ]

  unfoldable pub parse_finalize_deposit : List Attribute → Result ParseError FinalizeDeposit
  unfolding parse_attributes parse_finalize_deposit_case
  parse_finalize_deposit attrs =
      parse_attributes parse_finalize_deposit_case attrs no_parse_finalize_deposit
        parse_finalize_deposit_keys

  unfoldable pub parse_update_oracle_case : Attribute → UpdateOracle → Step UpdateOracle
  parse_update_oracle_case attr e = elim attr.key [
    | key_height ↦ reads attr (readers.parse_int attr.value) (λ v. record e { l1_block_height = v })
    | key_from ↦ set (record e { from = attr.value })
    | _ ↦ skip
  ]

  unfoldable pub parse_update_oracle : List Attribute → Result ParseError UpdateOracle
  unfolding parse_attributes parse_update_oracle_case
  parse_update_oracle attrs =
      parse_attributes parse_update_oracle_case attrs no_parse_update_oracle
        parse_update_oracle_keys

  unfoldable pub parse_initiate_withdrawal_case :
      Attribute → InitiateWithdrawal → Step InitiateWithdrawal
  parse_initiate_withdrawal_case attr e = elim attr.key [
    | key_l2_sequence ↦
        reads attr (readers.parse_uint attr.value) (λ v. record e { l2_sequence = v })
    | key_from ↦ set (record e { from = attr.value })
    | key_to ↦ set (record e { to = attr.value })
    | key_denom ↦ set (record e { denom = attr.value })
    | key_base_denom ↦ set (record e { base_denom = attr.value })
    | key_amount ↦ reads attr (readers.coin_amount attr.value) (λ v. record e { amount = v })
    | _ ↦ skip
  ]

  unfoldable pub parse_initiate_withdrawal : List Attribute → Result ParseError InitiateWithdrawal
  unfolding parse_attributes parse_initiate_withdrawal_case
  parse_initiate_withdrawal attrs =
      parse_attributes parse_initiate_withdrawal_case attrs no_parse_initiate_withdrawal
        parse_initiate_withdrawal_keys
