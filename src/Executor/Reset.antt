-- ===== src/Executor/Reset.antt =====
-- executor/db.go: the heights of all nodes of the executor are reset.
pub mod Forgotten
use opinit_bots.Base.{Bool, true, false, ◌||◌, not, List, [], ◌∷◌, if◌then◌else◌}
use opinit_bots.Base.Bytes.{bytes_equal}
use opinit_bots.Base.Result.{Result, ok, err, ◌>>=◌}
use opinit_bots.Db.{Bytes, DbError}
use opinit_bots.Db.Basic.{of_level}
use opinit_bots.Db.Level.{Level, LevelDb, with_prefix}
use opinit_bots.Node.Store.{delete_synced_height, delete_pending_txs, delete_processed_msgs}

-- types/const.go: "host", "child", "batch" and "da"
abbrev pub host_name : Bytes
host_name = 104 ∷ 111 ∷ 115 ∷ 116 ∷ []

abbrev pub child_name : Bytes
child_name = 99 ∷ 104 ∷ 105 ∷ 108 ∷ 100 ∷ []

abbrev pub batch_name : Bytes
batch_name = 98 ∷ 97 ∷ 116 ∷ 99 ∷ 104 ∷ []

abbrev pub da_name : Bytes
da_name = 100 ∷ 97 ∷ []

pub data ResetError : Type 0 where
  unknown_node_name : ResetError
  synced_height pending_txs processed_msgs : DbError → ResetError
  -- errors.Wrap with the name of the node
  of_node : Bytes → ResetError → ResetError

abbrev pub wrapped {ℓ} : {E F : Type 0} {A : Type ℓ} → (E → F) → Result E A → Result F A
wrapped wrap (ok a) = ok a
wrapped wrap (err e) = err (wrap e)

abbrev pub is_node_name : Bytes → Bool
is_node_name name =
    bytes_equal name host_name
    || bytes_equal name child_name
    || bytes_equal name batch_name
    || bytes_equal name da_name

module _ {L : Type 0} (level : Level L) where
  -- The handle keeps its prefix; its store is what the handle of the node has left.
  unfoldable pub reset_height : Bytes → LevelDb L → Result ResetError (LevelDb L)
  unfolding with_prefix delete_synced_height of_level delete_pending_txs delete_processed_msgs
  reset_height node_name db = if not (is_node_name node_name) then err unknown_node_name else do
    d1 ← wrapped synced_height (delete_synced_height (of_level level) (with_prefix node_name db))
    d2 ← wrapped pending_txs (delete_pending_txs level d1)
    d3 ← wrapped processed_msgs (delete_processed_msgs level d2)
    ok (record db { db = d3.db })

  -- ResetHeights, by the names that are left.
  unfoldable pub reset_heights_of : List Bytes → LevelDb L → Result ResetError (LevelDb L)
  unfolding reset_height
  reset_heights_of [] db = ok db
  reset_heights_of (db_name ∷ db_names) db = do
    db' ← wrapped (of_node db_name) (reset_height db_name db)
    reset_heights_of db_names db'

  unfoldable pub reset_heights : LevelDb L → Result ResetError (LevelDb L)
  unfolding reset_heights_of
  reset_heights db = reset_heights_of (host_name ∷ child_name ∷ batch_name ∷ da_name ∷ []) db
