-- ===== src/Broadcaster/Loops.antt =====
-- node/broadcaster/tx.go: the loops of RemovePendingTxsUntil and RebuildPendingTxs.
use opinit_bots.Base.{ℕ, Bool, List, [], ◌∷◌, if◌then◌else◌, ltb}
use opinit_bots.Base.Result.{Result, ok, err, ◌>>=◌}
use opinit_bots.Db.{Bytes}
use opinit_bots.Db.Basic.{of_stage}
use opinit_bots.Db.Level.{Level}
use opinit_bots.Db.Stage.{Stage}
use opinit_bots.Broadcaster.Types.{PendingTxInfo, Codec}
use opinit_bots.Broadcaster.Store.{StoreError, delete_pending_tx, save_pending_tx}

module _ {M L : Type 0} (codec : Codec M) (level : Level L) where
  -- The loop of RemovePendingTxsUntil: the stage, and what is left of the queue.
  unfoldable pub remove_until_loop :
      ℕ → List PendingTxInfo → Stage L → Result StoreError (Stage L × List PendingTxInfo)
  unfolding delete_pending_tx of_stage
  remove_until_loop until [] stage = ok (stage, [])
  remove_until_loop until (tx ∷ txs) stage =
      let rest =
        delete_pending_tx codec (of_stage level) tx stage >>= remove_until_loop until txs in
      if ltb until tx.sequence then ok (stage, tx ∷ txs) else rest

-- What building a transaction anew needs: BuildTxWithNewMemo of the account of the sender, by its
-- address, of a transaction and its sequence. The new memo is random: `W` is where it comes from.
abbrev pub Rebuild : Type 0 → Type 0
Rebuild W = Bytes → Bytes → ℕ → W → Result Bytes (Bytes × Bytes) × W

-- The loop of RebuildPendingTxs, and what it stops with.
pub data RebuildError : Type 0 where
  unknown_account : RebuildError
  not_built : Bytes → RebuildError
  not_stored : StoreError → RebuildError

abbrev pub rebuilt : PendingTxInfo → Bytes × Bytes → PendingTxInfo
rebuilt p (tx_bytes, hash) = record p { tx = tx_bytes; tx_hash = hash }

module _ {M L : Type 0} (codec : Codec M) (level : Level L) where
  abbrev pub save_rebuilt : PendingTxInfo → Stage L → Result RebuildError (Stage L)
  save_rebuilt tx stage =
      if tx.save
      then elim (save_pending_tx codec (of_stage level) tx stage) [
        | ok s ↦ ok s
        | err e ↦ err (not_stored e)
      ]
      else ok stage

module _ {M L W : Type 0} (codec : Codec M) (level : Level L) (known : Bytes → Bool)
    (build : Rebuild W) where
  unfoldable pub rebuild_loop :
      List PendingTxInfo → Stage L → W → Result RebuildError (Stage L × List PendingTxInfo) × W
  unfolding save_pending_tx of_stage
  rebuild_loop [] stage w = (ok (stage, []), w)
  rebuild_loop (tx ∷ txs) stage w =
      let (built, w') = build tx.sender tx.tx tx.sequence w in
      if known tx.sender
      then elim built [
        | err e ↦ (err (not_built e), w')
        | ok pair ↦ elim (save_rebuilt codec level (rebuilt tx pair) stage) [
          | err e ↦ (err e, w')
          | ok stage' ↦ add_first (rebuilt tx pair) (rebuild_loop txs stage' w')
        ]
      ]
      else (err unknown_account, w)
    where
      add_first :
          PendingTxInfo
          → Result RebuildError (Stage L × List PendingTxInfo) × W
          → Result RebuildError (Stage L × List PendingTxInfo) × W
      add_first first (ok (s, rest), w') = (ok (s, first ∷ rest), w')
      add_first first (err e, w') = (err e, w')
