-- ===== src/Node/Store.antt =====
-- node/db.go: the synced height of a node in its store, and the deletion of what its broadcaster keeps.
use opinit_bots.Base.{ℕ, none, some}
use opinit_bots.Base.Result.{Result, ok, err}
use opinit_bots.Db.{DbError, Json}
use opinit_bots.Db.Keys.{append_splitter}
use opinit_bots.Db.Basic.{BasicDb}
use opinit_bots.Db.Level.{Level, LevelDb}
use opinit_bots.Db.Sweep.{sweep}
use opinit_bots.Batch.Store.{synced_height_key}
use opinit_bots.Broadcaster.Types.{pending_txs_prefix, processed_msgs_prefix}

pub data SyncError : Type 0 where
  not_loaded : DbError → SyncError
  not_deserialized : SyncError

-- `decimal` is MarshalHeight and UnmarshalHeight; what MarshalHeight is given it prints.
module _ {S : Type 0} (basic : BasicDb S) where
  unfoldable pub get_sync_info : Json ℕ → S → Result SyncError ℕ
  get_sync_info decimal s = elim (basic.get s synced_height_key) [
    | err e ↦ err (not_loaded e)
    | ok loaded ↦ elim (decimal.unmarshal loaded) [
      | none ↦ err not_deserialized
      | some height ↦ ok height
    ]
  ]

  unfoldable pub delete_synced_height : S → Result DbError S
  delete_synced_height s = basic.delete s synced_height_key

module _ {L : Type 0} (level : Level L) where
  unfoldable pub delete_processed_msgs : LevelDb L → Result DbError (LevelDb L)
  unfolding sweep
  delete_processed_msgs db = sweep level (append_splitter processed_msgs_prefix) none db

  unfoldable pub delete_pending_txs : LevelDb L → Result DbError (LevelDb L)
  unfolding sweep
  delete_pending_txs db = sweep level (append_splitter pending_txs_prefix) none db
