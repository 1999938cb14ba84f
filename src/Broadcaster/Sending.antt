-- ===== src/Broadcaster/Sending.antt =====
-- node/broadcaster/tx.go, handleMsgError and handleProcessedMsgs, and process.go, the retries of Start.
pub mod Handover
use opinit_bots.Base.{
  ℕ, zero, suc, Bool, true, false, not, ◌&&◌, ◌||◌, Option, none, some, List, [], ◌∷◌, ◌++◌,
  if◌then◌else◌, ltb, ◌==◌,
}
use opinit_bots.Base.Result.{Result, ok, err}
use opinit_bots.Base.Machine.{Machine, ◌>>=◌, ◌>>◌, return, fail, self, assign, try, after}
use opinit_bots.Db.{Bytes}
use opinit_bots.Db.Basic.{of_stage, of_level}
use opinit_bots.Db.Level.{Level}
use opinit_bots.Db.Stage.{Stage, new_stage, commit}
use opinit_bots.Broadcaster.Types.{PendingTxInfo, ProcessedMsgs, Codec, get_msg_types}
use opinit_bots.Broadcaster.Store.{delete_processed_msgs, save_pending_tx}
use opinit_bots.Broadcaster.Queue.{
  Broadcaster, TxError, text, simulation_failed, broadcast_failed, sequence_mismatch, store,
  parse_failed, sequence_of, update_sequence, increase_sequence, peek_last_sequence, get_height,
  enqueue_local_pending_tx, store_db, account_by_address,
}

pub data BroadcastOption : Type 0 where
  broadcast_option_sync broadcast_option_commit : BroadcastOption

-- The calls of the node, and of the building of transactions, which also asks the node. An answer
-- to a broadcast has its codes and logs.
pub record Rpc (M W : Type 0) : Type 0 where
  pub build_tx_with_msgs : Bytes → ℕ → List M → W → Result Bytes (Bytes × Bytes) × W
  pub broadcast_tx_sync : Bytes → W → Result Bytes (ℕ × Bytes) × W
  pub custom_broadcast_tx_commit : Bytes → W → Result Bytes (ℕ × ℕ × Bytes) × W

-- How the errors read, and what is read from their texts: Error(), the groups that the two regular
-- expressions find, strconv, strings.Contains, and the texts of the errors in the two lists.
pub record Texts : Type 0 where
  pub error_text : TxError → Bytes
  pub account_seq : Bytes → Option (Bytes × Bytes)
  pub output_index : Bytes → Option (Bytes × Bytes)
  pub parse_uint : Bytes → Option ℕ
  pub parse_int : Bytes → Option ℕ
  pub contains : Bytes → Bytes → Bool
  pub sentry_captured_errors : List Bytes
  pub ignoring_errors : List Bytes
  pub request_failed : Bytes
  pub post_failed : Bytes

abbrev pub parsed_pair : (Bytes → Option ℕ) → Bytes × Bytes → Result TxError (ℕ × ℕ)
parsed_pair parse (x, y) = elim (parse x) [
  | none ↦ err parse_failed
  | some a ↦ elim (parse y) [ none ↦ err parse_failed | some b ↦ ok (a, b) ]
]

module _ (texts : Texts) where
  -- An error also when nothing matches.
  unfoldable pub parse_account_sequence_mismatch : Bytes → Result TxError (ℕ × ℕ)
  parse_account_sequence_mismatch str = elim (texts.account_seq str) [
    | none ↦ err parse_failed
    | some pair ↦ parsed_pair texts.parse_uint pair
  ]

  abbrev pub contains_any : Bytes → List Bytes → Bool
  contains_any str [] = false
  contains_any str (e ∷ es) = texts.contains str e || contains_any str es

module _ {M L W : Type 0} (texts : Texts) where
  -- A nil error is `ok`.
  unfoldable pub handle_output_index :
      Bytes × Bytes → TxError → Machine TxError (Broadcaster M L W) (Unit {0})
  handle_output_index pair e = do
    (expected, got) ← try (λ parse_error. parse_error) (parsed_pair texts.parse_int pair)
    if ltb got expected then return tt else fail e

  unfoldable pub handle_msg_error : TxError → Bytes → Machine TxError (Broadcaster M L W) (Unit {0})
  handle_msg_error e address b = elim (parse_account_sequence_mismatch texts (texts.error_text e)) [
    | ok pair ↦
        let behind = ltb pair.1 pair.0 || ltb (peek_last_sequence address b) pair.0 in
        (
          err (sequence_mismatch pair.0 pair.1),
          if behind then update_sequence address pair.0 b else b,
        )
    | err unmatched ↦ elim (texts.output_index (texts.error_text e)) [
      | some pair ↦ handle_output_index pair e b
      | none ↦
          if contains_any texts (texts.error_text e) texts.sentry_captured_errors
          then (err e, b)
          else if contains_any texts (texts.error_text e) texts.ignoring_errors
          then (ok tt, b)
          else (err e, b)
    ]
  ]

abbrev pub pending_tx_of :
    {M : Type 0} → Codec M → ProcessedMsgs M → ℕ → ℕ → Bytes × Bytes → PendingTxInfo
pending_tx_of codec data' height n (tx_bytes, hash) = record {
  sender = data'.sender;
  processed_height = height;
  sequence = n;
  tx = tx_bytes;
  tx_hash = hash;
  timestamp = data'.timestamp;
  msg_types = get_msg_types codec data';
  save = data'.save;
}

module _ {M L W : Type 0} where
  -- The answer of the node, and what comes of it.
  abbrev pub sync_result :
      Result Bytes (ℕ × Bytes) × W → Machine TxError (Broadcaster M L W) (Unit {0})
  sync_result (err e, w) b = (err (text e), record b { world = w })
  sync_result (ok (code, log), w) b =
      (if code == 0 then ok tt else err (broadcast_failed log), record b { world = w })

  abbrev pub commit_result :
      Result Bytes (ℕ × ℕ × Bytes) × W → Machine TxError (Broadcaster M L W) (Unit {0})
  commit_result (err e, w) b = (err (text e), record b { world = w })
  commit_result (ok (code, check_code, logs), w) b = (
    if code == 0 && check_code == 0 then ok tt else err (broadcast_failed logs),
    record b { world = w },
  )

  unfoldable pub broadcast :
      Rpc M W → BroadcastOption → Bytes → Machine TxError (Broadcaster M L W) (Unit {0})
  broadcast rpc broadcast_option_sync tx_bytes b =
      sync_result (rpc.broadcast_tx_sync tx_bytes b.world) b
  broadcast rpc broadcast_option_commit tx_bytes b =
      commit_result (rpc.custom_broadcast_tx_commit tx_bytes b.world) b

  module _ (codec : Codec M) (level : Level L) where
    -- From the new stage on.
    unfoldable pub store_pending :
        ProcessedMsgs M → Bytes → ℕ → Bytes × Bytes → Machine TxError (Broadcaster M L W) (Unit {0})
    unfolding increase_sequence get_height enqueue_local_pending_tx
    store_pending data' address n built = do
      b ← self
      stage ← try store (delete_processed_msgs codec (of_stage level) data' (new_stage b.db))
      assign (increase_sequence address b)
      let pending_tx = pending_tx_of codec data' (get_height b) n built
      stage' ←
          if pending_tx.save
          then try store (save_pending_tx codec (of_stage level) pending_tx stage)
          else return stage
      store_db (commit level stage')
      b' ← self
      assign (enqueue_local_pending_tx pending_tx b')

    -- What is done with the transaction that has been built.
    unfoldable pub send_built :
        Rpc M W
        → BroadcastOption
        → ProcessedMsgs M
        → Bytes
        → ℕ
        → Result Bytes (Bytes × Bytes) × W
        → Machine TxError (Broadcaster M L W) (Unit {0})
    send_built rpc option data' address n (err e, w) b =
        (err (simulation_failed e), record b { world = w })
    send_built rpc option data' address n (ok built, w) b =
        after (broadcast rpc option built.0 (record b { world = w }))
          (λ _. store_pending data' address n built)

    unfoldable pub handle_processed_msgs :
        Rpc M W
        → BroadcastOption
        → ProcessedMsgs M
        → Bytes
        → Machine TxError (Broadcaster M L W) (Unit {0})
    handle_processed_msgs rpc option data' address b =
        let n = sequence_of address b in
        send_built rpc option data' address n (rpc.build_tx_with_msgs address n data'.msgs b.world)
          b
