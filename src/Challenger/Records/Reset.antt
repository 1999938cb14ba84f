-- ===== src/Challenger/Records/Reset.antt =====
-- challenger/db/db.go: the heights of the two nodes of the challenger are reset.
use opinit_bots.Base.{not, ◌||◌, List, [], ◌∷◌, if◌then◌else◌}
use opinit_bots.Base.Bytes.{bytes_equal}
use opinit_bots.Base.Result.{Result, ok, err, ◌>>=◌}
use opinit_bots.Db.{Bytes, DbError}
use opinit_bots.Db.Basic.{of_level}
use opinit_bots.Db.Level.{Level, LevelDb, with_prefix}
use opinit_bots.Node.Store.{delete_synced_height}
use opinit_bots.Executor.Reset.{host_name, child_name}
use opinit_bots.Challenger.Records.{delete_all_pending_events, delete_all_pending_challenges}

pub data ResetError : Type 0 where
  unknown_node_name : ResetError
  db_failed : DbError → ResetError

abbrev raised {ℓ} : {A : Type ℓ} → Result DbError A → Result ResetError A
raised (ok a) = ok a
raised (err e) = err (db_failed e)

module _ {L : Type 0} (level : Level L) where
  unfoldable pub reset_height : Bytes → LevelDb L → Result ResetError (LevelDb L)
  unfolding with_prefix delete_synced_height of_level
  reset_height node_name db =
      if not (bytes_equal node_name host_name || bytes_equal node_name child_name)
      then err unknown_node_name
      else do
        d1 ← raised (delete_all_pending_events level (with_prefix node_name db))
        d2 ← raised (delete_all_pending_challenges level d1)
        d3 ← raised (delete_synced_height (of_level level) d2)
        ok (record db { db = d3.db })

  unfoldable pub reset_heights_of : List Bytes → LevelDb L → Result ResetError (LevelDb L)
  unfolding reset_height
  reset_heights_of [] db = ok db
  reset_heights_of (db_name ∷ db_names) db = do
    db' ← reset_height db_name db
    reset_heights_of db_names db'

  unfoldable pub reset_heights : LevelDb L → Result ResetError (LevelDb L)
  unfolding reset_heights_of
  reset_heights db = reset_heights_of (host_name ∷ child_name ∷ []) db
