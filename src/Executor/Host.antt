-- ===== src/Executor/Host.antt =====
-- executor/host: handler.go, status.go and host.go, with the queues of provider/host/host.go: what the
-- begin and the end of a block of the host chain do with the messages to the child.
pub mod Events
pub mod Published
pub mod Delivered
pub mod Steps
use opinit_bots.Base.{
  ℕ, Bool, true, false, not, ◌&&◌, ◌==◌, Option, none, some, List, [], ◌∷◌, ◌++◌, if◌then◌else◌,
}
use opinit_bots.Base.Bytes.{bytes_equal}
use opinit_bots.Base.Result.{Result, ok, err}
use opinit_bots.Base.Machine.{Machine, after, ◌>>=◌, ◌>>◌, return, fail, self, assign, try}
use opinit_bots.Clock.{Clock, current_nano_timestamp}
use opinit_bots.Db.{Bytes, DbError, not_found, failure, Json}
use opinit_bots.Db.Basic.{BasicDb, of_stage}
use opinit_bots.Db.Level.{Level, LevelDb, level_get}
use opinit_bots.Db.Stage.{Stage, commit, with_prefixed_key, reset}
use opinit_bots.Batch.Info.{BatchInfo}
use opinit_bots.Batch.Store.{synced_height_key, internal_status_key}
use opinit_bots.Broadcaster.Types.{ProcessedMsgs, Codec}
use opinit_bots.Broadcaster.Chunks.{msgs_to_processed_msgs}
use opinit_bots.Broadcaster.Store.{StoreError, save_processed_msgs_batch}
use opinit_bots.Provider.Parse.{Readers, ParseError}
use opinit_bots.Provider.Messages.{
  Coin, BaseChild, BridgeConfig, Messages, MessageError, has_broadcaster, get_msg_update_oracle,
}

pub data HostError : Type 0 where
  parse : ParseError → HostError
  messages : MessageError → HostError
  batch_failed : StoreError → HostError
  db_failed : DbError → HostError
  invalid_amount status_failed : HostError
  -- a Go panic
  panic : HostError

pub record InternalStatus : Type 0 where
  pub last_proposed_output_index : ℕ
  pub last_proposed_output_l2_block_number : ℕ
  pub last_proposed_output_time : ℕ
  pub last_updated_batch_time : ℕ

-- NewIntFromString of the amount, and NewCoin, which panics on a bad one.
pub data CoinReading : Type 0 where
  not_an_integer bad_coin : CoinReading
  coin : Coin → CoinReading

-- `L` is the state of the database, which the stage of the host writes to, `M` the messages to the
-- child. `broadcast` are the messages given to the broadcaster of the child so far, `batch_infos` the
-- queue of the batch submitter. The map of queues is the list of its entries.
pub record Host (L M : Type 0) : Type 0 where
  pub stage : Stage L
  pub processed_msgs : List (ProcessedMsgs M)
  pub msg_queue : List (Bytes × List M)
  pub bridge_config : BridgeConfig
  pub initial_l1_sequence : ℕ
  pub status : InternalStatus
  pub oracle_relay_enabled : Bool
  pub clock : Clock
  pub batch_infos : List BatchInfo
  pub broadcast : List (ProcessedMsgs M)

-- The child, and the code outside. `host_accounts` are the addresses of the accounts of the host's
-- broadcaster, when it has one, `chain_type` is the number of the name of a chain type.
pub record Environment (L M : Type 0) : Type 0 where
  pub level : Level L
  pub codec : Codec M
  pub messages_of : Messages M
  pub child : BaseChild
  pub child_db : LevelDb L
  pub format_int : ℕ → Bytes
  pub status_json : Json InternalStatus
  pub readings : ℕ → ℕ
  pub bridge_id : ℕ
  pub readers : Readers
  pub coin_of : (denom amount : Bytes) → CoinReading
  pub host_accounts : Option (List Bytes)
  pub chain_type : Bytes → ℕ

-- nodetypes.TxHandlerArgs
pub record TxArgs : Type 0 where
  pub block_height : ℕ
  pub latest_height : ℕ
  pub tx_index : ℕ
  pub tx : Bytes

module _ {M : Type 0} where
  unfoldable pub append_msg_queue :
      M → (sender : Bytes) → List (Bytes × List M) → List (Bytes × List M)
  append_msg_queue msg sender [] = (sender, msg ∷ []) ∷ []
  append_msg_queue msg sender ((other, msgs) ∷ queues) =
      let rest = append_msg_queue msg sender queues in
      if bytes_equal other sender then (other, msgs ++ msg ∷ []) ∷ queues else (other, msgs) ∷ rest

  -- The senders stay.
  unfoldable pub empty_msg_queue : List (Bytes × List M) → List (Bytes × List M)
  empty_msg_queue [] = []
  empty_msg_queue ((sender, msgs) ∷ queues) = (sender, []) ∷ empty_msg_queue queues

  abbrev pub option_cons :
      Option (ProcessedMsgs M) → List (ProcessedMsgs M) → List (ProcessedMsgs M)
  option_cons none batch = batch
  option_cons (some group) batch = group ∷ batch

  -- The loop of BroadcastProcessedMsgs, which passes over groups without messages.
  unfoldable pub with_msgs : List (ProcessedMsgs M) → List (ProcessedMsgs M)
  with_msgs [] = []
  with_msgs (group ∷ batch) =
      option_cons (elim group.msgs [ [] ↦ none | _ ∷ _ ↦ some group ]) (with_msgs batch)

module _ {L M : Type 0} (env : Environment L M) where
  abbrev pub Handler {ℓ} : Type ℓ → Type ℓ
  Handler A = Machine HostError (Host L M) A

  abbrev pub basic : BasicDb (Stage L)
  basic = of_stage env.level

  abbrev pub staging :
      {F : Type 0} → (F → HostError) → (Stage L → Result F (Stage L)) → Handler (Unit {0})
  staging wrap write = do h ← self; s ← try wrap (write h.stage); assign (record h { stage = s })

  unfoldable pub begin_block_handler : Handler (Unit {0})
  unfolding empty_msg_queue reset
  begin_block_handler h = (
    ok tt,
    record h {
      msg_queue = empty_msg_queue h.msg_queue;
      processed_msgs = [];
      stage = reset h.stage;
    },
  )

  unfoldable pub save_internal_status : Handler (Unit {0})
  unfolding of_stage
  save_internal_status h = elim (env.status_json.marshal h.status) [
    | none ↦ (err status_failed, h)
    | some bytes ↦ staging db_failed (λ s. basic.set s internal_status_key bytes) h
  ]

  unfoldable pub load_internal_status : Handler (Unit {0})
  unfolding level_get
  load_internal_status h = elim (level_get env.level h.stage.parent internal_status_key) [
    | err e ↦ elim e [ not_found ↦ (ok tt, h) | failure n ↦ (err (db_failed (failure n)), h) ]
    | ok bytes ↦ elim (env.status_json.unmarshal bytes) [
      | none ↦ (err status_failed, h)
      | some status ↦ (ok tt, record h { status = status })
    ]
  ]

  -- The messages are saved under the prefix of the child.
  unfoldable pub save_for_child : List (ProcessedMsgs M) → Stage L → Result StoreError (Stage L)
  unfolding save_processed_msgs_batch with_prefixed_key of_stage
  save_for_child batch s =
      elim (save_processed_msgs_batch env.codec basic batch (with_prefixed_key env.child_db s)) [
        | err e ↦ err e
        | ok s' ↦ ok (record s' { key_handle = s.key_handle })
      ]

  unfoldable pub add_processed_msgs : Handler (Unit {0})
  unfolding msgs_to_processed_msgs save_for_child
  add_processed_msgs h =
      let (groups, c) = msgs_to_processed_msgs env.readings h.msg_queue h.clock in
      let batch = h.processed_msgs ++ groups in
      staging batch_failed (save_for_child batch) (record h { processed_msgs = batch; clock = c })

  unfoldable pub process_msgs : Handler (Unit {0})
  unfolding has_broadcaster add_processed_msgs
  process_msgs h =
      if has_broadcaster env.child
      then add_processed_msgs h
      else (ok tt, record h { processed_msgs = [] })

  -- MustGetBroadcaster panics.
  unfoldable pub broadcast_processed_msgs : List (ProcessedMsgs M) → Handler (Unit {0})
  unfolding has_broadcaster with_msgs
  broadcast_processed_msgs [] h = (ok tt, h)
  broadcast_processed_msgs (group ∷ batch) h =
      if has_broadcaster env.child
      then (ok tt, record h { broadcast = h.broadcast ++ with_msgs (group ∷ batch) })
      else (err panic, h)

  -- The commit changes the store that the stage was made from.
  unfoldable pub commit_stage : Handler (Unit {0})
  unfolding commit
  commit_stage h = elim (commit env.level h.stage) [
    | err e ↦ (err (db_failed e), h)
    | ok l ↦
        (ok tt, record h { stage = record h.stage { parent = record h.stage.parent { db = l } } })
  ]

  unfoldable pub end_block_handler : (height : ℕ) → Handler (Unit {0})
  unfolding process_msgs save_internal_status commit_stage broadcast_processed_msgs of_stage
  end_block_handler height = do
    staging db_failed (λ s. basic.set s synced_height_key (env.format_int height))
    process_msgs
    save_internal_status
    commit_stage
    h ← self
    broadcast_processed_msgs h.processed_msgs

  -- The message of the legacy oracle.
  unfoldable pub oracle_tx_handler :
      (block_height : ℕ) → (tx : Bytes) → Host L M → Result MessageError (Option (M × Bytes))
  unfolding get_msg_update_oracle
  oracle_tx_handler block_height tx h =
      if not h.bridge_config.oracle_enabled
      then ok none
      else if h.oracle_relay_enabled
      then ok none
      else get_msg_update_oracle env.messages_of env.child block_height tx

  unfoldable pub tx_handler : TxArgs → Handler (Unit {0})
  unfolding oracle_tx_handler current_nano_timestamp
  tx_handler args h =
      if not (args.block_height == args.latest_height && args.tx_index == 0)
      then (ok tt, h)
      else elim (oracle_tx_handler args.block_height args.tx h) [
        | err e ↦ (err (messages e), h)
        | ok made ↦ elim made [
          | none ↦ (ok tt, h)
          | some queued ↦
              let (timestamp, c) = current_nano_timestamp env.readings h.clock in
              let group : ProcessedMsgs M = record {
                sender = queued.1;
                msgs = queued.0 ∷ [];
                timestamp = timestamp;
                save = false;
              } in
              (ok tt, record h { processed_msgs = h.processed_msgs ++ group ∷ []; clock = c })
        ]
      ]
