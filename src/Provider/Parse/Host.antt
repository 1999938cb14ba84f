-- ===== src/Provider/Parse/Host.antt =====
-- provider/host/parse.go: the events of the host.
use opinit_bots.Base.{ℕ, Bool, false, List, [], ◌∷◌, none, some, if◌then◌else◌}
use opinit_bots.Base.Result.{Result}
use opinit_bots.Db.{Bytes}
use opinit_bots.Provider.Parse.{
  Key, Attribute, ParseError, Step, skip, set, reads, parse_attributes, Readers, key_submitter,
  key_bridge_id, key_batch_chain_type, key_batch_submitter, key_finalized_output_index,
  key_finalized_l2_block_number, key_l1_sequence, key_from, key_to, key_l1_denom, key_l2_denom,
  key_amount, key_data, key_proposer, key_output_index, key_l2_block_number, key_output_root,
  key_l2_sequence, key_oracle_enabled, key_challenger,
}

pub record RecordBatch : Type 0 where
  pub submitter : Bytes

abbrev pub no_parse_msg_record_batch : RecordBatch
no_parse_msg_record_batch = record { submitter = [] }

abbrev pub parse_msg_record_batch_keys : List Key
parse_msg_record_batch_keys = key_submitter ∷ []

pub record UpdateBatchInfo : Type 0 where
  pub bridge_id : ℕ
  pub chain : Bytes
  pub submitter : Bytes
  pub output_index : ℕ
  pub l2_block_number : ℕ

abbrev pub no_parse_msg_update_batch_info : UpdateBatchInfo
no_parse_msg_update_batch_info = record {
  bridge_id = 0;
  chain = [];
  submitter = [];
  output_index = 0;
  l2_block_number = 0;
}

abbrev pub parse_msg_update_batch_info_keys : List Key
parse_msg_update_batch_info_keys =
    key_bridge_id ∷ key_batch_chain_type ∷ key_batch_submitter ∷ key_finalized_output_index
    ∷ key_finalized_l2_block_number ∷ []

pub record InitiateDeposit : Type 0 where
  pub bridge_id : ℕ
  pub l1_sequence : ℕ
  pub from : Bytes
  pub to : Bytes
  pub l1_denom : Bytes
  pub l2_denom : Bytes
  pub amount : Bytes
  pub bytes : Bytes

abbrev pub no_parse_msg_initiate_deposit : InitiateDeposit
no_parse_msg_initiate_deposit = record {
  bridge_id = 0;
  l1_sequence = 0;
  from = [];
  to = [];
  l1_denom = [];
  l2_denom = [];
  amount = [];
  bytes = [];
}

abbrev pub parse_msg_initiate_deposit_keys : List Key
parse_msg_initiate_deposit_keys =
    key_bridge_id ∷ key_l1_sequence ∷ key_from ∷ key_to ∷ key_l1_denom ∷ key_l2_denom ∷ key_amount
    ∷ key_data ∷ []

pub record ProposeOutput : Type 0 where
  pub proposer : Bytes
  pub bridge_id : ℕ
  pub output_index : ℕ
  pub l2_block_number : ℕ
  pub output_root : Bytes

abbrev pub no_parse_msg_propose_output : ProposeOutput
no_parse_msg_propose_output = record {
  proposer = [];
  bridge_id = 0;
  output_index = 0;
  l2_block_number = 0;
  output_root = [];
}

abbrev pub parse_msg_propose_output_keys : List Key
parse_msg_propose_output_keys =
    key_proposer ∷ key_bridge_id ∷ key_output_index ∷ key_l2_block_number ∷ key_output_root ∷ []

pub record FinalizeWithdrawal : Type 0 where
  pub bridge_id : ℕ
  pub output_index : ℕ
  pub l2_sequence : ℕ
  pub from : Bytes
  pub to : Bytes
  pub l1_denom : Bytes
  pub l2_denom : Bytes
  pub amount : Bytes

abbrev pub no_parse_msg_finalize_withdrawal : FinalizeWithdrawal
no_parse_msg_finalize_withdrawal = record {
  bridge_id = 0;
  output_index = 0;
  l2_sequence = 0;
  from = [];
  to = [];
  l1_denom = [];
  l2_denom = [];
  amount = [];
}

abbrev pub parse_msg_finalize_withdrawal_keys : List Key
parse_msg_finalize_withdrawal_keys =
    key_bridge_id ∷ key_output_index ∷ key_l2_sequence ∷ key_from ∷ key_to ∷ key_l1_denom
    ∷ key_l2_denom ∷ key_amount ∷ []

pub record UpdateOracleConfig : Type 0 where
  pub bridge_id : ℕ
  pub oracle_enabled : Bool

abbrev pub no_parse_msg_update_oracle_config : UpdateOracleConfig
no_parse_msg_update_oracle_config = record { bridge_id = 0; oracle_enabled = false }

abbrev pub parse_msg_update_oracle_config_keys : List Key
parse_msg_update_oracle_config_keys = key_bridge_id ∷ key_oracle_enabled ∷ []

pub record UpdateProposer : Type 0 where
  pub bridge_id : ℕ
  pub proposer : Bytes
  pub finalized_output_index : ℕ
  pub finalized_l2_block_number : ℕ

abbrev pub no_parse_msg_update_proposer : UpdateProposer
no_parse_msg_update_proposer = record {
  bridge_id = 0;
  proposer = [];
  finalized_output_index = 0;
  finalized_l2_block_number = 0;
}

abbrev pub parse_msg_update_proposer_keys : List Key
parse_msg_update_proposer_keys =
    key_bridge_id ∷ key_proposer ∷ key_finalized_output_index ∷ key_finalized_l2_block_number ∷ []

pub record UpdateChallenger : Type 0 where
  pub bridge_id : ℕ
  pub challenger : Bytes
  pub finalized_output_index : ℕ
  pub finalized_l2_block_number : ℕ

abbrev pub no_parse_msg_update_challenger : UpdateChallenger
no_parse_msg_update_challenger = record {
  bridge_id = 0;
  challenger = [];
  finalized_output_index = 0;
  finalized_l2_block_number = 0;
}

abbrev pub parse_msg_update_challenger_keys : List Key
parse_msg_update_challenger_keys =
    key_bridge_id ∷ key_challenger ∷ key_finalized_output_index ∷ key_finalized_l2_block_number ∷ []

module _ (readers : Readers) where
  unfoldable pub parse_msg_record_batch_case : Attribute → RecordBatch → Step RecordBatch
  parse_msg_record_batch_case attr e = elim attr.key [
    | key_submitter ↦ set (record e { submitter = attr.value })
    | _ ↦ skip
  ]

  unfoldable pub parse_msg_record_batch : List Attribute → Result ParseError RecordBatch
  unfolding parse_attributes parse_msg_record_batch_case
  parse_msg_record_batch attrs =
      parse_attributes parse_msg_record_batch_case attrs no_parse_msg_record_batch
        parse_msg_record_batch_keys

  unfoldable pub parse_msg_update_batch_info_case :
      Attribute → UpdateBatchInfo → Step UpdateBatchInfo
  parse_msg_update_batch_info_case attr e = elim attr.key [
    | key_bridge_id ↦ reads attr (readers.parse_uint attr.value) (λ v. record e { bridge_id = v })
    | key_batch_chain_type ↦
        reads attr (if readers.is_chain_type attr.value then some attr.value else none)
          (λ v. record e { chain = v })
    | key_batch_submitter ↦ set (record e { submitter = attr.value })
    | key_finalized_output_index ↦
        reads attr (readers.parse_uint attr.value) (λ v. record e { output_index = v })
    | key_finalized_l2_block_number ↦
        reads attr (readers.parse_int attr.value) (λ v. record e { l2_block_number = v })
    | _ ↦ skip
  ]

  unfoldable pub parse_msg_update_batch_info : List Attribute → Result ParseError UpdateBatchInfo
  unfolding parse_attributes parse_msg_update_batch_info_case
  parse_msg_update_batch_info attrs =
      parse_attributes parse_msg_update_batch_info_case attrs no_parse_msg_update_batch_info
        parse_msg_update_batch_info_keys

  unfoldable pub parse_msg_initiate_deposit_case :
      Attribute → InitiateDeposit → Step InitiateDeposit
  parse_msg_initiate_deposit_case attr e = elim attr.key [
    | key_bridge_id ↦ reads attr (readers.parse_uint attr.value) (λ v. record e { bridge_id = v })
    | key_l1_sequence ↦
        reads attr (readers.parse_uint attr.value) (λ v. record e { l1_sequence = v })
    | key_from ↦ set (record e { from = attr.value })
    | key_to ↦ set (record e { to = attr.value })
    | key_l1_denom ↦ set (record e { l1_denom = attr.value })
    | key_l2_denom ↦ set (record e { l2_denom = attr.value })
    | key_amount ↦ set (record e { amount = attr.value })
    | key_data ↦ reads attr (readers.decode_string attr.value) (λ v. record e { bytes = v })
    | _ ↦ skip
  ]

  unfoldable pub parse_msg_initiate_deposit : List Attribute → Result ParseError InitiateDeposit
  unfolding parse_attributes parse_msg_initiate_deposit_case
  parse_msg_initiate_deposit attrs =
      parse_attributes parse_msg_initiate_deposit_case attrs no_parse_msg_initiate_deposit
        parse_msg_initiate_deposit_keys

  unfoldable pub parse_msg_propose_output_case : Attribute → ProposeOutput → Step ProposeOutput
  parse_msg_propose_output_case attr e = elim attr.key [
    | key_proposer ↦ set (record e { proposer = attr.value })
    | key_bridge_id ↦ reads attr (readers.parse_uint attr.value) (λ v. record e { bridge_id = v })
    | key_output_index ↦
        reads attr (readers.parse_uint attr.value) (λ v. record e { output_index = v })
    | key_l2_block_number ↦
        reads attr (readers.parse_int attr.value) (λ v. record e { l2_block_number = v })
    | key_output_root ↦
        reads attr (readers.decode_string attr.value) (λ v. record e { output_root = v })
    | _ ↦ skip
  ]

  unfoldable pub parse_msg_propose_output : List Attribute → Result ParseError ProposeOutput
  unfolding parse_attributes parse_msg_propose_output_case
  parse_msg_propose_output attrs =
      parse_attributes parse_msg_propose_output_case attrs no_parse_msg_propose_output
        parse_msg_propose_output_keys

  unfoldable pub parse_msg_finalize_withdrawal_case :
      Attribute → FinalizeWithdrawal → Step FinalizeWithdrawal
  parse_msg_finalize_withdrawal_case attr e = elim attr.key [
    | key_bridge_id ↦ reads attr (readers.parse_uint attr.value) (λ v. record e { bridge_id = v })
    | key_output_index ↦
        reads attr (readers.parse_uint attr.value) (λ v. record e { output_index = v })
    | key_l2_sequence ↦
        reads attr (readers.parse_uint attr.value) (λ v. record e { l2_sequence = v })
    | key_from ↦ set (record e { from = attr.value })
    | key_to ↦ set (record e { to = attr.value })
    | key_l1_denom ↦ set (record e { l1_denom = attr.value })
    | key_l2_denom ↦ set (record e { l2_denom = attr.value })
    | key_amount ↦ set (record e { amount = attr.value })
    | _ ↦ skip
  ]

  unfoldable pub parse_msg_finalize_withdrawal :
      List Attribute → Result ParseError FinalizeWithdrawal
  unfolding parse_attributes parse_msg_finalize_withdrawal_case
  parse_msg_finalize_withdrawal attrs =
      parse_attributes parse_msg_finalize_withdrawal_case attrs no_parse_msg_finalize_withdrawal
        parse_msg_finalize_withdrawal_keys

  unfoldable pub parse_msg_update_oracle_config_case :
      Attribute → UpdateOracleConfig → Step UpdateOracleConfig
  parse_msg_update_oracle_config_case attr e = elim attr.key [
    | key_bridge_id ↦ reads attr (readers.parse_uint attr.value) (λ v. record e { bridge_id = v })
    | key_oracle_enabled ↦
        reads attr (readers.parse_bool attr.value) (λ v. record e { oracle_enabled = v })
    | _ ↦ skip
  ]

  unfoldable pub parse_msg_update_oracle_config :
      List Attribute → Result ParseError UpdateOracleConfig
  unfolding parse_attributes parse_msg_update_oracle_config_case
  parse_msg_update_oracle_config attrs =
      parse_attributes parse_msg_update_oracle_config_case attrs no_parse_msg_update_oracle_config
        parse_msg_update_oracle_config_keys

  unfoldable pub parse_msg_update_proposer_case : Attribute → UpdateProposer → Step UpdateProposer
  parse_msg_update_proposer_case attr e = elim attr.key [
    | key_bridge_id ↦ reads attr (readers.parse_uint attr.value) (λ v. record e { bridge_id = v })
    | key_proposer ↦ set (record e { proposer = attr.value })
    | key_finalized_output_index ↦
        reads attr (readers.parse_uint attr.value) (λ v. record e { finalized_output_index = v })
    | key_finalized_l2_block_number ↦
        reads attr (readers.parse_uint attr.value) (λ v. record e { finalized_l2_block_number = v })
    | _ ↦ skip
  ]

  unfoldable pub parse_msg_update_proposer : List Attribute → Result ParseError UpdateProposer
  unfolding parse_attributes parse_msg_update_proposer_case
  parse_msg_update_proposer attrs =
      parse_attributes parse_msg_update_proposer_case attrs no_parse_msg_update_proposer
        parse_msg_update_proposer_keys

  unfoldable pub parse_msg_update_challenger_case :
      Attribute → UpdateChallenger → Step UpdateChallenger
  parse_msg_update_challenger_case attr e = elim attr.key [
    | key_bridge_id ↦ reads attr (readers.parse_uint attr.value) (λ v. record e { bridge_id = v })
    | key_challenger ↦ set (record e { challenger = attr.value })
    | key_finalized_output_index ↦
        reads attr (readers.parse_uint attr.value) (λ v. record e { finalized_output_index = v })
    | key_finalized_l2_block_number ↦
        reads attr (readers.parse_uint attr.value) (λ v. record e { finalized_l2_block_number = v })
    | _ ↦ skip
  ]

  unfoldable pub parse_msg_update_challenger : List Attribute → Result ParseError UpdateChallenger
  unfolding parse_attributes parse_msg_update_challenger_case
  parse_msg_update_challenger attrs =
      parse_attributes parse_msg_update_challenger_case attrs no_parse_msg_update_challenger
        parse_msg_update_challenger_keys
