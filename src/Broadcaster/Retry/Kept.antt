-- ===== src/Broadcaster/Retry/Kept.antt =====
-- What a turn of the loop does with messages that are to be saved.
use opinit_bots.Base.{
  ℕ, ◌≡◌, refl, sym, ap, ◌∙◌, Bool, true, false, ◌||◌, if◌then◌else◌, ltb, arith, Bool-cases,
  Option-cases, inl, inr,
}
use opinit_bots.Base.Result.{Result, ok, err, Result-cases}
use opinit_bots.Db.{Bytes}
use opinit_bots.Db.Level.{Level, LevelLaws}
use opinit_bots.Broadcaster.Types.{ProcessedMsgs, Codec}
use opinit_bots.Broadcaster.Queue.{Broadcaster, TxError, sequence_of, update_sequence}
use opinit_bots.Broadcaster.Sending.{
  Rpc, Texts, BroadcastOption, handle_msg_error, handle_output_index, handle_processed_msgs,
  parse_account_sequence_mismatch, parsed_pair,
}
use opinit_bots.Broadcaster.Sending.Handover.{Outcome, handle_processed_msgs-Outcome}
use opinit_bots.Broadcaster.Retry.{again, handle_outcome, handle_failure, retry_or_discard, turn}

module _ {M L W : Type 0} (texts : Texts) where
  -- Store and queue are the same.
  abbrev pub IsSame : Broadcaster M L W → Broadcaster M L W → Type 0
  IsSame b b' = (b'.db ≡ b.db) × (b'.pending_txs ≡ b.pending_txs)

  updated-IsSame :
      (behind : Bool) (address : Bytes) (n : ℕ) (b : Broadcaster M L W)
      → IsSame b (if behind then update_sequence address n b else b)
  unfolding update_sequence
  updated-IsSame true address n b = (refl, refl)
  updated-IsSame false address n b = (refl, refl)

  chosen-IsSame :
      (p q : Bool) (e : TxError) (b : Broadcaster M L W)
      → IsSame b
          (if◌then◌else◌ {A = Result TxError (Unit {0}) × Broadcaster M L W} p
            (err e, b)
            (if q then (ok tt, b) else (err e, b))).1
  chosen-IsSame true q e b = (refl, refl)
  chosen-IsSame false true e b = (refl, refl)
  chosen-IsSame false false e b = (refl, refl)

  handle_output_index-IsSame :
      (pair : Bytes × Bytes) (e : TxError) (b : Broadcaster M L W)
      → IsSame b (handle_output_index texts pair e b).1
  unfolding handle_output_index
  handle_output_index-IsSame pair e b = elim (Result-cases (parsed_pair texts.parse_int pair)) [
    | inr (p, failed) ↦ rw (failed, handle_output_index) (refl, refl)
    | inl (numbers, parsed) ↦ elim (Bool-cases (ltb numbers.1 numbers.0)) [
      | inl more ↦ rw (parsed, more, handle_output_index) (refl, refl)
      | inr less ↦ rw (parsed, less, handle_output_index) (refl, refl)
    ]
  ]

  handle_msg_error-IsSame :
      (e : TxError) (address : Bytes) (b : Broadcaster M L W)
      → IsSame b (handle_msg_error texts e address b).1
  unfolding handle_msg_error
  handle_msg_error-IsSame e address b =
      elim (Result-cases (parse_account_sequence_mismatch texts (texts.error_text e))) [
        | inl (pair, parsed) ↦ rw (parsed, handle_msg_error) (updated-IsSame _ address pair.0 b)
        | inr (p, unmatched) ↦ elim (Option-cases (texts.output_index (texts.error_text e))) [
          | inr (pair, matched) ↦
              rw (unmatched, matched, handle_msg_error) (handle_output_index-IsSame pair e b)
          | inl other ↦ rw (unmatched, other, handle_msg_error) (chosen-IsSame _ _ e b)
        ]
      ]

module _ {M L W : Type 0} (texts : Texts) (codec : Codec M) (level : Level L)
    (laws : LevelLaws level) where
  retry_or_discard-saved :
      (msgs : ProcessedMsgs M) (e : TxError) (b : Broadcaster M L W)
      → msgs.save ≡ true
      → retry_or_discard texts codec level msgs e b ≡ (ok again, b)
  unfolding retry_or_discard
  retry_or_discard-saved msgs e b saved =
      elim (Bool-cases (
        texts.contains (texts.error_text e) texts.request_failed
        || texts.contains (texts.error_text e) texts.post_failed)) [
          | inl lost ↦ rw (lost, retry_or_discard) refl
          | inr other ↦ rw (other, saved, retry_or_discard) refl
        ]

  -- When a batch that is to be saved could not be sent, and the error is not one that is ignored, the loop
  -- goes round again, with the store and the queue of pending transactions as they were before the
  -- attempt.
  pub turn-saved :
      (rpc : Rpc M W) (option : BroadcastOption) (msgs : ProcessedMsgs M) (address : Bytes)
      (b b1 b2 : Broadcaster M L W) (e e' : TxError)
      → msgs.save ≡ true
      → handle_processed_msgs codec level rpc option msgs address b ≡ (err e, b1)
      → handle_msg_error texts e address b1 ≡ (err e', b2)
      → (turn texts codec level rpc option msgs address b ≡ (ok again, b2))
        × (b2.db ≡ b.db)
        × (b2.pending_txs ≡ b.pending_txs)
  unfolding turn handle_outcome handle_failure
  turn-saved rpc option msgs address b b1 b2 e e' saved sent handled =
      let (db_same, queue_same) = handle_msg_error-IsSame texts e address b1 in
      let after' = ap (λ r. r.1) handled in
      let (db_kept, queue_kept) =
        failure (handle_processed_msgs-Outcome codec level msgs address laws rpc option b) in
      (
        (λ i. handle_outcome texts codec level msgs address (sent i))
            ∙ (λ i. handle_failure texts codec level msgs (handled i))
            ∙ retry_or_discard-saved msgs e' b2 saved,
        ap (λ b. b.db) (sym after') ∙ db_same ∙ db_kept,
        ap (λ b. b.pending_txs) (sym after') ∙ queue_same ∙ queue_kept,
      )
    where
      failure :
          Outcome codec level msgs address
            (sequence_of address b)
            b
            (handle_processed_msgs codec level rpc option msgs address b)
          → (b1.db ≡ b.db) × (b1.pending_txs ≡ b.pending_txs)
      failure (inl (x, b', run, same_db, same_txs)) = (
        ap (λ r. r.1.db) (sym sent ∙ run) ∙ same_db,
        ap (λ r. r.1.pending_txs) (sym sent ∙ run) ∙ same_txs,
      )
      failure (inr (b', built, copy, run, queued, accounts, copied, kept, keys)) =
          absurd (ground (arith, ap (λ r. r.0) (sym sent ∙ run)))
