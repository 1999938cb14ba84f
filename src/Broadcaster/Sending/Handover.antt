-- ===== src/Broadcaster/Sending/Handover.antt =====
-- handleProcessedMsgs: a batch of messages is in the store until the transaction that carries it is.
use opinit_bots.Base.{
  ℕ, ◌+◌, ◌%◌, ◌^◌, ◌≡◌, refl, sym, ◌∙◌, Bool, true, false, ◌&&◌, Option, none, some, List, [], ◌∷◌,
  ◌++◌, if◌then◌else◌, Bool-cases, Option-cases, inl, inr, ◌⊎◌, subst, ◌==◌,
}
use opinit_bots.Base.Bytes.{bytes_equal}
use opinit_bots.Base.Result.{Result, ok, err, Result-cases}
use opinit_bots.Base.Machine.{Machine, after}
use opinit_bots.Db.{Bytes, DbError, not_found}
use opinit_bots.Db.Basic.{of_stage}
use opinit_bots.Db.Level.{Level, LevelLaws, LevelDb, level_get, found, prefixed_key}
use opinit_bots.Db.Stage.{Stage, new_stage, commit}
use opinit_bots.Db.Stage.Commit.{Edit, set, remove, edit, edits, level_get-commit}
use opinit_bots.Broadcaster.Types.{
  PendingTxInfo, ProcessedMsgs, Codec, tx_key, msgs_key, prefixed_pending_tx,
}
use opinit_bots.Broadcaster.Store.{
  delete_processed_msgs, save_pending_tx, marshal_failed, db_failed,
}
use opinit_bots.Broadcaster.Queue.{
  Broadcaster, TxError, store, text, broadcast_failed, simulation_failed, with_sequence,
  sequence_of, update_sequence, increase_sequence, get_height,
}
use opinit_bots.Broadcaster.Sending.{
  Rpc, BroadcastOption, broadcast_option_sync, broadcast_option_commit, pending_tx_of, broadcast,
  sync_result, commit_result, send_built, store_pending, handle_processed_msgs,
}

-- The stored copy of a transaction that is to be saved.
abbrev pub copy_of : {M : Type 0} → Codec M → PendingTxInfo → Option Bytes
copy_of codec tx = if tx.save then codec.pending.marshal tx else none

abbrev pub is_some : Option Bytes → Bool
is_some none = false
is_some (some bytes) = true

-- What is written when the messages have been sent.
abbrev handover_edits : Bytes → Bytes → Option Bytes → List Edit
handover_edits from to none = remove from ∷ []
handover_edits from to (some copy) = remove from ∷ set to copy ∷ []

module _ {L : Type 0} (level : Level L) where
  -- What a key shows after the handover.
  abbrev pub handed_over : LevelDb L → Bytes → Bytes → Option Bytes → Bytes → Result DbError Bytes
  handed_over before from to none k =
      if bytes_equal from k then err not_found else level_get level before k
  handed_over before from to (some copy) k =
      if bytes_equal to k
      then ok copy
      else (if bytes_equal from k then err not_found else level_get level before k)

  handed_over-commit :
      (laws : LevelLaws level) (parent : LevelDb L) (from to : Bytes) (copy : Option Bytes) (l' : L)
      (k : Bytes)
      → commit level (edits (handover_edits from to copy) (new_stage parent)) ≡ ok l'
      → level_get level (record parent { db = l' }) k ≡ handed_over parent from to copy k
  unfolding level_get
  handed_over-commit laws parent from to none l' k run =
      level_get-commit level laws parent k (remove from ∷ []) l' run ∙ shown (bytes_equal from k)
    where
      shown :
          (b : Bool)
          → found (if b then none else level.held parent.db (prefixed_key parent k))
            ≡ (if b then err not_found else found (level.held parent.db (prefixed_key parent k)))
      shown true = refl
      shown false = refl
  handed_over-commit laws parent from to (some copy) l' k run =
      level_get-commit level laws parent k (remove from ∷ set to copy ∷ []) l' run
      ∙ shown (bytes_equal to k) (bytes_equal from k)
    where
      shown :
          (a b : Bool)
          → found (
              if a
              then some copy
              else (if b then none else level.held parent.db (prefixed_key parent k)))
            ≡ (if a
                then ok copy
                else (if b
                    then err not_found
                    else found (level.held parent.db (prefixed_key parent k))))
      shown true b = refl
      shown false true = refl
      shown false false = refl

module _ {M L : Type 0} (codec : Codec M) (level : Level L) where
  delete_in_stage :
      (data' : ProcessedMsgs M) (s : Stage L)
      → delete_processed_msgs codec (of_stage level) data' s ≡ ok (edit (remove (msgs_key data')) s)
  unfolding delete_processed_msgs of_stage edit
  delete_in_stage data' s = refl

  save_in_stage :
      (tx : PendingTxInfo) (s : Stage L) (bytes : Bytes)
      → codec.pending.marshal tx ≡ some bytes
      → save_pending_tx codec (of_stage level) tx s ≡ ok (edit (set (tx_key tx) bytes) s)
  unfolding save_pending_tx of_stage edit
  save_in_stage tx s bytes e = rw e refl

  save_fails :
      (tx : PendingTxInfo) (s : Stage L)
      → codec.pending.marshal tx ≡ none
      → save_pending_tx codec (of_stage level) tx s ≡ err marshal_failed
  unfolding save_pending_tx
  save_fails tx s e = rw e refl

module _ {M L W : Type 0} (codec : Codec M) (level : Level L) (data' : ProcessedMsgs M)
    (address : Bytes) where
  -- What a run that starts from `b` with a sequence may come to: a failure that leaves store and queue
  -- as they were, or the handover to a transaction.
  abbrev pub Outcome :
      ℕ → Broadcaster M L W → Result TxError (Unit {0}) × Broadcaster M L W → Type 0
  Outcome n b r =
      ((e : TxError) × (b' : Broadcaster M L W) × (r ≡ (err e, b'))
        × (b'.db ≡ b.db)
        × (b'.pending_txs ≡ b.pending_txs))
      ⊎ ((b' : Broadcaster M L W) × (built : Bytes × Bytes) × (copy : Option Bytes) × (r
            ≡ (ok tt, b'))
          × (b'.pending_txs
              ≡ b.pending_txs ++ pending_tx_of codec data' (b.synced_height + 1) n built ∷ [])
          × (b'.accounts ≡ with_sequence address ((sequence_of address b + 1) % 2 ^ 64) b.accounts)
          × (copy_of codec (pending_tx_of codec data' (b.synced_height + 1) n built) ≡ copy)
          × (is_some copy ≡ data'.save)
          × ((k : Bytes)
              → level_get level b'.db k
                ≡ handed_over level b.db (msgs_key data') (prefixed_pending_tx data'.timestamp) copy
                    k))

  module _ (laws : LevelLaws level) where
    store_pending-Outcome :
        (n : ℕ) (built : Bytes × Bytes) (b : Broadcaster M L W)
        → Outcome n b (store_pending codec level data' address n built b)
    unfolding store_pending increase_sequence update_sequence sequence_of edits get_height
    store_pending-Outcome n built b =
        let tx : PendingTxInfo = pending_tx_of codec data' (b.synced_height + 1) n built in
        let from = msgs_key data' in
        let to = prefixed_pending_tx data'.timestamp in
        let deleted = delete_in_stage codec level data' (new_stage b.db) in
        let failed : Broadcaster M L W = increase_sequence address b in
        elim (Bool-cases data'.save) [
          | inr discardable ↦
              let written = edits (handover_edits from to none) (new_stage b.db) in
              elim (Result-cases (commit level written)) [
                | inr (e, run) ↦ inl (
                  store (db_failed e),
                  failed,
                  rw (deleted, discardable, run, store_pending) refl,
                  refl,
                  refl,
                )
                | inl (l', run) ↦ inr (
                  record failed {
                    db = record b.db { db = l' };
                    pending_txs = b.pending_txs ++ tx ∷ [];
                  },
                  built,
                  none,
                  rw (deleted, discardable, run, store_pending) refl,
                  refl,
                  refl,
                  rw discardable refl,
                  sym discardable,
                  λ k. handed_over-commit level laws b.db from to none l' k run,
                )
              ]
          | inl saved ↦ elim (Option-cases (codec.pending.marshal tx)) [
            | inl unmarshalled ↦ inl (
              store marshal_failed,
              failed,
              rw
                  (
                    deleted,
                    save_fails codec level tx (edit (remove from) (new_stage b.db)) unmarshalled,
                    saved,
                    store_pending,
                  )
                  refl,
              refl,
              refl,
            )
            | inr (bytes, marshalled) ↦
                let written = edits (handover_edits from to (some bytes)) (new_stage b.db) in
                let put =
                  save_in_stage codec level tx (edit (remove from) (new_stage b.db)) bytes
                    marshalled in
                elim (Result-cases (commit level written)) [
                  | inr (e, run) ↦ inl (
                    store (db_failed e),
                    failed,
                    rw (deleted, put, saved, run, store_pending) refl,
                    refl,
                    refl,
                  )
                  | inl (l', run) ↦ inr (
                    record failed {
                      db = record b.db { db = l' };
                      pending_txs = b.pending_txs ++ tx ∷ [];
                    },
                    built,
                    some bytes,
                    rw (deleted, put, saved, run, store_pending) refl,
                    refl,
                    refl,
                    (λ i. if saved i then codec.pending.marshal tx else none) ∙ marshalled,
                    sym saved,
                    λ k. handed_over-commit level laws b.db from to (some bytes) l' k run,
                  )
                ]
          ]
        ]

  -- The calls of the node change what only they depend on.
  abbrev IsAnswer : Broadcaster M L W → Result TxError (Unit {0}) × Broadcaster M L W → Type 0
  IsAnswer b r =
      ((e : TxError) × (w : W) × (r ≡ (err e, record b { world = w })))
      ⊎ ((w : W) × (r ≡ (ok tt, record b { world = w })))

  answered :
      (accepted : Bool) (e : TxError) (w : W) (b : Broadcaster M L W)
      → IsAnswer b (if accepted then ok tt else err e, record b { world = w })
  answered true e w b = inr (w, refl)
  answered false e w b = inl (e, w, refl)

  sync_result-IsAnswer :
      (r : Result Bytes (ℕ × Bytes) × W) (b : Broadcaster M L W) → IsAnswer b (sync_result r b)
  sync_result-IsAnswer (err e, w) b = inl (text e, w, refl)
  sync_result-IsAnswer (ok (code, log), w) b = answered (code == 0) (broadcast_failed log) w b

  commit_result-IsAnswer :
      (r : Result Bytes (ℕ × ℕ × Bytes) × W) (b : Broadcaster M L W)
      → IsAnswer b (commit_result r b)
  commit_result-IsAnswer (err e, w) b = inl (text e, w, refl)
  commit_result-IsAnswer (ok (code, check_code, logs), w) b =
      answered (code == 0 && check_code == 0) (broadcast_failed logs) w b

  broadcast-IsAnswer :
      (rpc : Rpc M W) (option : BroadcastOption) (tx_bytes : Bytes) (b : Broadcaster M L W)
      → IsAnswer b (broadcast rpc option tx_bytes b)
  unfolding broadcast
  broadcast-IsAnswer rpc broadcast_option_sync tx_bytes b =
      sync_result-IsAnswer (rpc.broadcast_tx_sync tx_bytes b.world) b
  broadcast-IsAnswer rpc broadcast_option_commit tx_bytes b =
      commit_result-IsAnswer (rpc.custom_broadcast_tx_commit tx_bytes b.world) b

  module _ (laws : LevelLaws level) where
    send_built-Outcome :
        (rpc : Rpc M W) (option : BroadcastOption) (n : ℕ) (r : Result Bytes (Bytes × Bytes) × W)
        (b : Broadcaster M L W)
        → Outcome n b (send_built codec level rpc option data' address n r b)
    unfolding send_built sequence_of
    send_built-Outcome rpc option n (err e, w) b =
        inl (simulation_failed e, record b { world = w }, refl, refl, refl)
    send_built-Outcome rpc option n (ok built, w) b =
        let next : Unit {0} → Machine TxError (Broadcaster M L W) (Unit {0}) =
          λ _. store_pending codec level data' address n built in
        elim (broadcast-IsAnswer rpc option built.0 (record b { world = w })) [
          | inl (e, w', refused) ↦
              inl (e, record b { world = w' }, (λ i. after (refused i) next), refl, refl)
          | inr (w', accepted) ↦
              subst (Outcome n b) (λ i. after (sym accepted i) next)
                (store_pending-Outcome laws n built (record b { world = w' }))
        ]

    -- Sending a batch of messages either fails and leaves the store and the queue of pending transactions as they
    -- were; or it succeeds, and then one transaction with the sequence of the account has been
    -- appended to the queue, this sequence has gone up by one modulo 2^64, and by one write to the
    -- store the batch is gone and, when the batch is to be saved, the transaction is stored, while
    -- every other key shows what it showed before.
    pub handle_processed_msgs-Outcome :
        (rpc : Rpc M W) (option : BroadcastOption) (b : Broadcaster M L W)
        → Outcome
            (sequence_of address b)
            b
            (handle_processed_msgs codec level rpc option data' address b)
    unfolding handle_processed_msgs
    handle_processed_msgs-Outcome rpc option b =
        send_built-Outcome rpc option (sequence_of address b)
          (rpc.build_tx_with_msgs address (sequence_of address b) data'.msgs b.world) b
