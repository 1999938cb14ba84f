-- ===== src/Db/Sweep.antt =====
-- The loop by which entries are deleted: their keys are collected under an iterator, and deleted one by
-- one after it. node/db.go, challenger/db/db.go, challenger/eventhandler/db.go and merkle/db.go have it.
pub mod Ordered
pub mod Listed
pub mod Cleared
pub mod Swept
pub mod Numbered
pub mod Reads
use opinit_bots.Base.{false, Option, List, [], ◌∷◌, ◌++◌}
use opinit_bots.Base.Result.{Result, ok, ◌>>=◌}
use opinit_bots.Db.{Bytes, DbError}
use opinit_bots.Db.Level.{Level, LevelDb, level_delete}
use opinit_bots.Db.Iterator.{Callback, iterate}

abbrev pub collect : Callback DbError (List Bytes)
collect key value keys = ok (false, keys ++ key ∷ [])

module _ {L : Type 0} (level : Level L) where
  unfoldable pub delete_keys : List Bytes → LevelDb L → Result DbError (LevelDb L)
  unfolding level_delete
  delete_keys [] db = ok db
  delete_keys (key ∷ keys) db = do db' ← level_delete level db key; delete_keys keys db'

  unfoldable pub sweep : Bytes → Option Bytes → LevelDb L → Result DbError (LevelDb L)
  unfolding iterate delete_keys
  sweep prefix start db = do keys ← iterate level db prefix start collect []; delete_keys keys db
