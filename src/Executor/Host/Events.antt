-- ===== src/Executor/Host/Events.antt =====
-- executor/host: deposit.go, withdraw.go, batch.go, oracle.go and bridge_info.go: the events of the host
-- chain, and the messages to the child that follow from them.
use opinit_bots.Base.{ℕ, not, ◌==◌, ltb, Option, none, some, List, [], if◌then◌else◌, get_elem?}
use opinit_bots.Base.Bytes.{bytes_equal}
use opinit_bots.Base.Result.{Result, ok, err}
use opinit_bots.Db.{Bytes}
use opinit_bots.Batch.Info.{update_batch_info}
use opinit_bots.Provider.Parse.{Attribute}
use opinit_bots.Provider.Parse.Host.{
  parse_msg_initiate_deposit, parse_msg_propose_output, parse_msg_finalize_withdrawal,
  parse_msg_record_batch, parse_msg_update_batch_info, parse_msg_update_oracle_config,
  parse_msg_update_proposer, parse_msg_update_challenger,
}
use opinit_bots.Provider.Messages.{
  BridgeConfig, MessageError, get_msg_finalize_token_deposit, get_msg_set_bridge_info,
}
use opinit_bots.Executor.Host.{
  Environment, Handler, parse, messages, invalid_amount, panic, not_an_integer, bad_coin, coin,
  append_msg_queue,
}

-- nodetypes.EventHandlerArgs
pub record EventArgs : Type 0 where
  pub block_height : ℕ
  pub block_time : ℕ
  pub event_attributes : List Attribute

module _ {L M : Type 0} (env : Environment L M) where
  unfoldable pub queue_msg : Result MessageError (Option (M × Bytes)) → Handler env (Unit {0})
  unfolding append_msg_queue
  queue_msg (err e) h = (err (messages e), h)
  queue_msg (ok none) h = (ok tt, h)
  queue_msg (ok (some queued)) h =
      (ok tt, record h { msg_queue = append_msg_queue queued.0 queued.1 h.msg_queue })

  -- The change of the configuration, and the message with it to the child.
  unfoldable pub set_bridge_config : (bridge_id : ℕ) → BridgeConfig → Handler env (Unit {0})
  unfolding queue_msg get_msg_set_bridge_info
  set_bridge_config bridge_id config h =
      queue_msg (get_msg_set_bridge_info env.messages_of env.child bridge_id config)
        (record h { bridge_config = config })

  unfoldable pub initiate_deposit_handler : EventArgs → Handler env (Unit {0})
  unfolding queue_msg get_msg_finalize_token_deposit
  initiate_deposit_handler args h =
      elim (parse_msg_initiate_deposit env.readers args.event_attributes) [
        | err e ↦ (err (parse e), h)
        | ok e ↦
            if not (e.bridge_id == env.bridge_id)
            then (ok tt, h)
            else if ltb e.l1_sequence h.initial_l1_sequence
            then (ok tt, h)
            else elim (env.coin_of e.l2_denom e.amount) [
              | not_an_integer ↦ (err invalid_amount, h)
              | bad_coin ↦ (err panic, h)
              | coin c ↦
                  queue_msg
                    (get_msg_finalize_token_deposit env.messages_of env.child e.from e.to c
                      e.l1_sequence args.block_height e.l1_denom e.bytes)
                    h
            ]
      ]

  unfoldable pub propose_output_handler : EventArgs → Handler env (Unit {0})
  propose_output_handler args h =
      elim (parse_msg_propose_output env.readers args.event_attributes) [
        | err e ↦ (err (parse e), h)
        | ok e ↦ if not (e.bridge_id == env.bridge_id) then (ok tt, h) else (
          ok tt,
          record h {
            status = record h.status {
              last_proposed_output_index = e.output_index;
              last_proposed_output_l2_block_number = e.l2_block_number;
              last_proposed_output_time = args.block_time;
            };
          },
        )
      ]

  -- A withdrawal is logged only.
  unfoldable pub finalize_withdrawal_handler : EventArgs → Handler env (Unit {0})
  finalize_withdrawal_handler args h =
      elim (parse_msg_finalize_withdrawal env.readers args.event_attributes) [
        | err e ↦ (err (parse e), h)
        | ok e ↦ (ok tt, h)
      ]

  -- BaseAccountAddressString of the host: without a broadcaster it is the empty text.
  unfoldable pub host_address : Option Bytes
  host_address = elim env.host_accounts [ none ↦ some [] | some accounts ↦ get_elem? accounts 0 ]

  unfoldable pub record_batch_handler : EventArgs → Handler env (Unit {0})
  unfolding host_address
  record_batch_handler args h = elim host_address [
    | none ↦ (ok tt, h)
    | some address ↦ elim (parse_msg_record_batch env.readers args.event_attributes) [
      | err e ↦ (err (parse e), h)
      | ok e ↦ if not (bytes_equal e.submitter address) then (ok tt, h) else (
        ok tt,
        record h { status = record h.status { last_updated_batch_time = args.block_time } },
      )
    ]
  ]

  unfoldable pub update_batch_info_handler : EventArgs → Handler env (Unit {0})
  unfolding set_bridge_config update_batch_info
  update_batch_info_handler args h =
      elim (parse_msg_update_batch_info env.readers args.event_attributes) [
        | err e ↦ (err (parse e), h)
        | ok e ↦
            if not (e.bridge_id == env.bridge_id)
            then (ok tt, h)
            else elim (update_batch_info env.chain_type e.chain e.submitter e.l2_block_number
                h.batch_infos) [
                  | none ↦ (err panic, h)
                  | some infos ↦
                      let config : BridgeConfig = record h.bridge_config {
                        batch_chain_type = env.chain_type e.chain;
                        batch_submitter = e.submitter;
                      } in
                      set_bridge_config e.bridge_id config (record h { batch_infos = infos })
                ]
      ]

  unfoldable pub update_oracle_config_handler : EventArgs → Handler env (Unit {0})
  unfolding set_bridge_config
  update_oracle_config_handler args h =
      elim (parse_msg_update_oracle_config env.readers args.event_attributes) [
        | err e ↦ (err (parse e), h)
        | ok e ↦
            if not (e.bridge_id == env.bridge_id)
            then (ok tt, h)
            else set_bridge_config e.bridge_id
                (record h.bridge_config { oracle_enabled = e.oracle_enabled }) h
      ]

  unfoldable pub update_proposer_handler : EventArgs → Handler env (Unit {0})
  unfolding set_bridge_config
  update_proposer_handler args h =
      elim (parse_msg_update_proposer env.readers args.event_attributes) [
        | err e ↦ (err (parse e), h)
        | ok e ↦
            if not (e.bridge_id == env.bridge_id)
            then (ok tt, h)
            else set_bridge_config e.bridge_id (record h.bridge_config { proposer = e.proposer }) h
      ]

  unfoldable pub update_challenger_handler : EventArgs → Handler env (Unit {0})
  unfolding set_bridge_config
  update_challenger_handler args h =
      elim (parse_msg_update_challenger env.readers args.event_attributes) [
        | err e ↦ (err (parse e), h)
        | ok e ↦
            if not (e.bridge_id == env.bridge_id)
            then (ok tt, h)
            else set_bridge_config e.bridge_id
                (record h.bridge_config { challenger = e.challenger }) h
      ]
