-- ===== src/Broadcaster/Queue/Removal.antt =====
-- RemovePendingTxsUntil: what leaves the queue and the store, and what stays.
use opinit_bots.Base.{
  ℕ, ◌≤◌, ◌<◌, ◌≡◌, refl, ap, ◌∙◌, Bool, true, false, none, List, [], ◌∷◌, ◌++◌, map, All,
  if◌then◌else◌, ltb, arith, Bool-cases, inl, inr, ◌⊎◌,
}
use opinit_bots.Base.Result.{ok, err, Result-cases}
use opinit_bots.Db.{Bytes, not_found}
use opinit_bots.Db.Basic.{of_stage}
use opinit_bots.Db.Level.{Level, LevelLaws, LevelDb, level_get, found, prefixed_key}
use opinit_bots.Db.Stage.{Stage, new_stage, stage_delete, commit}
use opinit_bots.Db.Stage.Commit.{edit, edits, removals, among, left_by-removals, level_get-commit}
use opinit_bots.Broadcaster.Types.{PendingTxInfo, Codec, tx_key}
use opinit_bots.Broadcaster.Store.{delete_pending_tx, db_failed}
use opinit_bots.Broadcaster.Loops.{remove_until_loop}
use opinit_bots.Broadcaster.Queue.{Broadcaster, TxError, store, remove_pending_txs_until}

-- What the loop goes through, and what it leaves.
abbrev passed : ℕ → List PendingTxInfo → List PendingTxInfo
passed until [] = []
passed until (tx ∷ txs) = if ltb until tx.sequence then [] else tx ∷ passed until txs

abbrev left : ℕ → List PendingTxInfo → List PendingTxInfo
left until [] = []
left until (tx ∷ txs) = if ltb until tx.sequence then tx ∷ txs else left until txs

-- The head of a queue, if there is one, is beyond.
abbrev pub StartsBeyond : ℕ → List PendingTxInfo → Type 0
StartsBeyond until [] = Unit
StartsBeyond until (tx ∷ txs) = until < tx.sequence

passed-left :
    (until : ℕ) (txs : List PendingTxInfo)
    → (txs ≡ passed until txs ++ left until txs)
      × All (λ tx. tx.sequence ≤ until) (passed until txs)
      × StartsBeyond until (left until txs)
passed-left until [] = (refl, tt, tt)
passed-left until (tx ∷ txs) =
    let (split, all, beyond) = passed-left until txs in
    elim (Bool-cases (ltb until tx.sequence)) [
      | inl above ↦ rw above (refl, tt, ground arith)
      | inr within ↦ rw within (ap (λ t. tx ∷ t) split, (ground arith, all), beyond)
    ]

module _ {M L : Type 0} (codec : Codec M) (level : Level L) where
  remove_until_loop-removals :
      (until : ℕ) (txs : List PendingTxInfo) (s : Stage L)
      → remove_until_loop codec level until txs s
        ≡ ok (edits (removals (map tx_key (passed until txs))) s, left until txs)
  unfolding remove_until_loop edits edit delete_pending_tx of_stage
  remove_until_loop-removals until [] s = refl
  remove_until_loop-removals until (tx ∷ txs) s = elim (Bool-cases (ltb until tx.sequence)) [
    | inl above ↦ rw above refl
    | inr within ↦ rw within (remove_until_loop-removals until txs (stage_delete (tx_key tx) s))
  ]

module _ {L : Type 0} (level : Level L) where
  -- The transactions are not in the store any more, and what else it has is as before.
  abbrev pub IsWithout : LevelDb L → LevelDb L → List PendingTxInfo → Type 0
  IsWithout before after' txs =
      (k : Bytes)
      → level_get level after' k
        ≡ (if among k (map tx_key txs) then err not_found else level_get level before k)

  commit-IsWithout :
      (laws : LevelLaws level) (parent : LevelDb L) (txs : List PendingTxInfo) (l' : L)
      → commit level (edits (removals (map tx_key txs)) (new_stage parent)) ≡ ok l'
      → IsWithout parent (record parent { db = l' }) txs
  unfolding level_get
  commit-IsWithout laws parent txs l' run k =
      level_get-commit level laws parent k (removals (map tx_key txs)) l' run
      ∙ ap found
          (left_by-removals k (map tx_key txs) (level.held parent.db (prefixed_key parent k)))
      ∙ shown (among k (map tx_key txs))
    where
      shown :
          (b : Bool)
          → found (if b then none else level.held parent.db (prefixed_key parent k))
            ≡ (if b then err not_found else found (level.held parent.db (prefixed_key parent k)))
      shown true = refl
      shown false = refl

module _ {M L W : Type 0} (codec : Codec M) (level : Level L) (laws : LevelLaws level) where
  -- RemovePendingTxsUntil either fails and changes nothing; or it removes from the front of the queue the
  -- transactions up to the first whose sequence is beyond the given one: the stored copies of
  -- those are gone, what else the store has is as before, and the rest of the queue stays.
  pub remove_pending_txs_until_lem :
      (until : ℕ) (b : Broadcaster M L W)
      → ((e : TxError) × (remove_pending_txs_until codec level until b ≡ (err e, b)))
        ⊎ ((db' : LevelDb L) × (gone : List PendingTxInfo) × (rest : List PendingTxInfo)
            × (remove_pending_txs_until codec level until b
                ≡ (ok tt, record b { db = db'; pending_txs = rest }))
            × (b.pending_txs ≡ gone ++ rest)
            × All (λ tx. tx.sequence ≤ until) gone
            × StartsBeyond until rest
            × IsWithout level b.db db' gone)
  unfolding remove_pending_txs_until
  remove_pending_txs_until_lem until b =
      let gone = passed until b.pending_txs in
      let rest = left until b.pending_txs in
      let stage = edits (removals (map tx_key gone)) (new_stage b.db) in
      let looped = remove_until_loop-removals codec level until b.pending_txs (new_stage b.db) in
      let (split, within, beyond) = passed-left until b.pending_txs in
      elim (Result-cases (commit level stage)) [
        | inl (l', run) ↦ inr (
          record b.db { db = l' },
          gone,
          rest,
          rw (looped, run, remove_pending_txs_until) refl,
          split,
          within,
          beyond,
          commit-IsWithout level laws b.db gone l' run,
        )
        | inr (e, run) ↦ inl (store (db_failed e), rw (looped, run, remove_pending_txs_until) refl)
      ]
