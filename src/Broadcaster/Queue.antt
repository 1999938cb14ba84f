-- ===== src/Broadcaster/Queue.antt =====
-- node/broadcaster: the state of a broadcaster, its accounts, and tx.go: the queue of pending
-- transactions. `W` is what the node that is called, and the random memos of transactions, depend on.
pub mod Removal
use opinit_bots.Base.{
  ℕ, zero, suc, ◌+◌, ◌%◌, ◌^◌, Bool, true, false, Option, none, some, List, [], ◌∷◌, ◌++◌,
  if◌then◌else◌, ltb, length, get_elem?, ◌==◌,
}
use opinit_bots.Base.Bytes.{bytes_equal}
use opinit_bots.Base.Result.{Result, ok, err}
use opinit_bots.Base.Machine.{Machine, ◌>>=◌, ◌>>◌, return, fail, self, assign, try}
use opinit_bots.Db.{Bytes, DbError}
use opinit_bots.Db.Basic.{of_stage, of_level}
use opinit_bots.Db.Level.{Level, LevelDb}
use opinit_bots.Db.Stage.{Stage, new_stage, commit}
use opinit_bots.Clock.{Clock}
use opinit_bots.Broadcaster.Types.{PendingTxInfo, ProcessedMsgs, Codec}
use opinit_bots.Broadcaster.Loops.{
  remove_until_loop, Rebuild, RebuildError, unknown_account, not_built, not_stored, rebuild_loop,
}
use opinit_bots.Broadcaster.Store.{
  StoreError, db_failed, stored, delete_pending_tx, delete_pending_txs, save_pending_tx,
}

-- What a broadcaster keeps of an account: its address, and the sequence of its transaction factory.
pub record Account : Type 0 where
  pub address : Bytes
  pub sequence : ℕ

-- The errors; `text` is one that a call gives as its text.
pub data TxError : Type 0 where
  text : Bytes → TxError
  simulation_failed : Bytes → TxError
  broadcast_failed : Bytes → TxError
  sequence_mismatch : (expected got : ℕ) → TxError
  account_not_found no_pending_txs parse_failed : TxError
  store : StoreError → TxError

pub record Broadcaster (M L W : Type 0) : Type 0 where
  pub db : LevelDb L
  pub accounts : List Account
  pub pending_txs : List PendingTxInfo
  pub pending_processed_msgs_batch : List (ProcessedMsgs M)
  pub synced_height : ℕ
  pub clock : Clock
  pub world : W

-- The accounts are found by their addresses.
abbrev pub account_in : Bytes → List Account → Option Account
account_in address [] = none
account_in address (a ∷ as') =
    if bytes_equal a.address address then some a else account_in address as'

abbrev pub with_sequence : Bytes → ℕ → List Account → List Account
with_sequence address n [] = []
with_sequence address n (a ∷ as') =
    if bytes_equal a.address address
    then record a { sequence = n } ∷ as'
    else a ∷ with_sequence address n as'

-- The last transaction of an address, from the end of the queue.
abbrev pub last_sequence : Bytes → List PendingTxInfo → Option ℕ
last_sequence address [] = none
last_sequence address (tx ∷ txs) = elim (last_sequence address txs) [
  | some n ↦ some n
  | none ↦ if bytes_equal tx.sender address then some tx.sequence else none
]

abbrev pub loop_failed : RebuildError → TxError
loop_failed unknown_account = account_not_found
loop_failed (not_built e) = text e
loop_failed (not_stored e) = store e

module _ {M L W : Type 0} where
  unfoldable pub account_by_address : Bytes → Broadcaster M L W → Result TxError Account
  account_by_address address b = elim (account_in address b.accounts) [
    | none ↦ err account_not_found
    | some a ↦ ok a
  ]

  unfoldable pub account_by_index : ℕ → Broadcaster M L W → Result TxError Account
  account_by_index index b = elim (get_elem? b.accounts index) [
    | none ↦ err account_not_found
    | some a ↦ ok a
  ]

  -- Sequence, of the account with an address.
  unfoldable pub sequence_of : Bytes → Broadcaster M L W → ℕ
  sequence_of address b = elim (account_in address b.accounts) [ none ↦ 0 | some a ↦ a.sequence ]

  unfoldable pub update_sequence : Bytes → ℕ → Broadcaster M L W → Broadcaster M L W
  update_sequence address n b = record b { accounts = with_sequence address n b.accounts }

  unfoldable pub increase_sequence : Bytes → Broadcaster M L W → Broadcaster M L W
  unfolding update_sequence sequence_of
  increase_sequence address b = update_sequence address ((sequence_of address b + 1) % 2 ^ 64) b

  unfoldable pub get_height : Broadcaster M L W → ℕ
  get_height b = b.synced_height + 1

  unfoldable pub update_synced_height : ℕ → Broadcaster M L W → Broadcaster M L W
  update_synced_height height b = record b { synced_height = height }

  unfoldable pub enqueue_local_pending_tx : PendingTxInfo → Broadcaster M L W → Broadcaster M L W
  enqueue_local_pending_tx tx b = record b { pending_txs = b.pending_txs ++ tx ∷ [] }

  unfoldable pub peek_local_pending_tx : Broadcaster M L W → Result TxError PendingTxInfo
  peek_local_pending_tx b = elim b.pending_txs [ [] ↦ err no_pending_txs | tx ∷ txs ↦ ok tx ]

  unfoldable pub len_local_pending_tx : Broadcaster M L W → ℕ
  len_local_pending_tx b = length b.pending_txs

  -- The slice expression panics on an empty queue; here it stays as it is.
  unfoldable pub dequeue_local_pending_tx : Broadcaster M L W → Broadcaster M L W
  dequeue_local_pending_tx b = elim b.pending_txs [
    | [] ↦ b
    | tx ∷ txs ↦ record b { pending_txs = txs }
  ]

  unfoldable pub peek_last_sequence : Bytes → Broadcaster M L W → ℕ
  peek_last_sequence address b = elim (last_sequence address b.pending_txs) [
    | none ↦ 0
    | some n ↦ n
  ]

  abbrev pub store_db : Result DbError L → Machine TxError (Broadcaster M L W) (Unit {0})
  store_db (err e) b = (err (store (db_failed e)), b)
  store_db (ok l) b = (ok tt, record b { db = record b.db { db = l } })

  module _ (codec : Codec M) (level : Level L) where
    unfoldable pub remove_pending_tx :
        PendingTxInfo → Machine TxError (Broadcaster M L W) (Unit {0})
    unfolding delete_pending_tx of_level dequeue_local_pending_tx
    remove_pending_tx pending_tx = do
      b ← self
      db' ← try store (delete_pending_tx codec (of_level level) pending_tx b.db)
      assign (dequeue_local_pending_tx (record b { db = db' }))

    unfoldable pub remove_pending_txs_until : ℕ → Machine TxError (Broadcaster M L W) (Unit {0})
    unfolding new_stage
    remove_pending_txs_until until = do
      b ← self
      (stage, left) ← try store (remove_until_loop codec level until b.pending_txs (new_stage b.db))
      store_db (commit level stage)
      b' ← self
      assign (record b' { pending_txs = left })

    abbrev known : Broadcaster M L W → Bytes → Bool
    known b address = elim (account_in address b.accounts) [ none ↦ false | some a ↦ true ]

    abbrev run_loop :
        Rebuild W → Stage L → Machine TxError (Broadcaster M L W) (Stage L × List PendingTxInfo)
    run_loop build stage b =
        let (looped, w) = rebuild_loop codec level (known b) build b.pending_txs stage b.world in
        try loop_failed looped (record b { world = w })

    unfoldable pub rebuild_pending_txs :
        Rebuild W → Machine TxError (Broadcaster M L W) PendingTxInfo
    unfolding delete_pending_txs of_stage new_stage rebuild_loop commit peek_local_pending_tx
    rebuild_pending_txs build = do
      b ← self
      first ← try (λ e. e) (peek_local_pending_tx b)
      stage ← try store (delete_pending_txs codec (of_stage level) b.pending_txs (new_stage b.db))
      (stage', new_pending_txs) ← run_loop build stage
      store_db (commit level stage')
      b' ← self
      assign (record b' { pending_txs = new_pending_txs })
      try (λ e. e) (peek_local_pending_tx (record b' { pending_txs = new_pending_txs }))
