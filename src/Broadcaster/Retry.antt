-- ===== src/Broadcaster/Retry.antt =====
-- node/broadcaster/process.go: what Start does with one batch of messages, and CheckPendingTx.
pub mod Kept
use opinit_bots.Base.{
  ℕ, zero, suc, Bool, true, false, not, ◌&&◌, ◌||◌, Option, none, some, List, [], ◌∷◌, ◌++◌,
  if◌then◌else◌, ltb, ◌==◌,
}
use opinit_bots.Base.Result.{Result, ok, err}
use opinit_bots.Base.Machine.{Machine, ◌>>=◌, ◌>>◌, return, fail, self, assign, try}
use opinit_bots.Db.{Bytes}
use opinit_bots.Db.Basic.{of_level}
use opinit_bots.Db.Level.{Level}
use opinit_bots.Broadcaster.Types.{PendingTxInfo, ProcessedMsgs, Codec}
use opinit_bots.Broadcaster.Store.{delete_processed_msgs}
use opinit_bots.Broadcaster.Queue.{
  Broadcaster, TxError, sequence_mismatch, store, account_by_address,
}
use opinit_bots.Broadcaster.Sending.{
  Rpc, Texts, BroadcastOption, handle_msg_error, handle_processed_msgs,
}

-- One turn of the loop: left by `break`, or gone round again.
pub data Turn : Type 0 where
  finished again : Turn

-- errors.Is(err, ErrAccountSequenceMismatch)
abbrev pub is_sequence_mismatch : TxError → Bool
is_sequence_mismatch (sequence_mismatch expected got) = true
is_sequence_mismatch _ = false

abbrev pub after_turn :
    {B : Type 0} → Result TxError Turn × B → (B → Result TxError Turn × B) → Result TxError Turn × B
after_turn (err e, b) next = (err e, b)
after_turn (ok finished, b) next = (ok finished, b)
after_turn (ok again, b) next = next b

module _ {M L W : Type 0} (texts : Texts) (codec : Codec M) (level : Level L) where
  unfoldable pub discard_msgs : ProcessedMsgs M → Machine TxError (Broadcaster M L W) Turn
  unfolding delete_processed_msgs of_level
  discard_msgs msgs = do
    b ← self
    db' ← try store (delete_processed_msgs codec (of_level level) msgs b.db)
    assign (record b { db = db' })
    return finished

  -- After an error that handleMsgError has not taken away.
  unfoldable pub retry_or_discard :
      ProcessedMsgs M → TxError → Machine TxError (Broadcaster M L W) Turn
  unfolding discard_msgs
  retry_or_discard msgs e b =
      let discarded = discard_msgs msgs b in
      let message = texts.error_text e in
      if texts.contains message texts.request_failed || texts.contains message texts.post_failed
      then (ok again, b)
      else if not msgs.save && not (is_sequence_mismatch e)
      then discarded
      else (ok again, b)

  unfoldable pub handle_failure :
      ProcessedMsgs M
      → Result TxError (Unit {0}) × Broadcaster M L W
      → Result TxError Turn × Broadcaster M L W
  unfolding discard_msgs retry_or_discard
  handle_failure msgs (ok _, b) = discard_msgs msgs b
  handle_failure msgs (err e, b) = retry_or_discard msgs e b

  unfoldable pub handle_outcome :
      ProcessedMsgs M
      → Bytes
      → Result TxError (Unit {0}) × Broadcaster M L W
      → Result TxError Turn × Broadcaster M L W
  unfolding handle_msg_error handle_failure
  handle_outcome msgs address (ok _, b) = (ok finished, b)
  handle_outcome msgs address (err e, b) = handle_failure msgs (handle_msg_error texts e address b)

  unfoldable pub turn :
      Rpc M W → BroadcastOption → ProcessedMsgs M → Bytes → Machine TxError (Broadcaster M L W) Turn
  unfolding handle_processed_msgs handle_outcome
  turn rpc option msgs address b =
      handle_outcome msgs address (handle_processed_msgs codec level rpc option msgs address b)

  -- The loop, for as many turns as the fuel; `again` when it has not been left by then, as when the
  -- context is done.
  unfoldable pub retry_loop :
      ℕ
      → Rpc M W
      → BroadcastOption
      → ProcessedMsgs M
      → Bytes
      → Machine TxError (Broadcaster M L W) Turn
  unfolding turn
  retry_loop zero rpc option msgs address b = (ok again, b)
  retry_loop (suc fuel) rpc option msgs address b =
      after_turn (turn rpc option msgs address b) (λ b'. retry_loop fuel rpc option msgs address b')

  -- Messages that come through the channel.
  unfoldable pub start_msgs :
      ℕ → Rpc M W → BroadcastOption → ProcessedMsgs M → Machine TxError (Broadcaster M L W) Turn
  unfolding account_by_address retry_loop
  start_msgs fuel rpc option msgs = do
    b ← self
    account ← try (λ e. e) (account_by_address msgs.sender b)
    retry_loop fuel rpc option msgs account.address
