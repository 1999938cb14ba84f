-- ===== src/Provider/Start.antt =====
-- provider/child/child.go, Initialize: what it deletes, and the tree that it will start with, when the
-- synced height of the node has just been set.
pub mod Deleted
use opinit_bots.Base.{ℕ, ◌+◌, ◌^◌, Bool, true, false, not, ◌==◌, Option, none, some, if◌then◌else◌}
use opinit_bots.Base.Words.{u64}
use opinit_bots.Base.Result.{Result, ok, err, ◌>>=◌}
use opinit_bots.Db.{Bytes, DbError}
use opinit_bots.Db.Level.{Level, LevelDb}
use opinit_bots.Merkle.Cleanup.{
  delete_future_finalized_trees, delete_future_working_trees, delete_future_nodes,
}
use opinit_bots.Executor.Child.{TreeStart}

pub data StartError : Type 0 where
  query_failed : StartError
  db_failed : DbError → StartError

abbrev pub stored {ℓ} : {A : Type ℓ} → Result DbError A → Result StartError A
stored (ok a) = ok a
stored (err e) = err (db_failed e)

abbrev pub queried : Option ℕ → Result StartError ℕ
queried none = err query_failed
queried (some n) = ok n

module _ {L : Type 0} (level : Level L) (query_next_l2_sequence : ℕ → Option ℕ) where
  -- The sequence to go on with, and the store without the trees that are finalized from it on. Nothing
  -- is deleted when the child starts from height zero.
  unfoldable pub next_sequence :
      (processed_height : ℕ) → LevelDb L → Result StartError (ℕ × LevelDb L)
  next_sequence processed_height db = if processed_height == 0 then ok (1, db) else do
    l2_sequence ← queried (query_next_l2_sequence processed_height)
    db' ← stored (delete_future_finalized_trees level l2_sequence db)
    ok (l2_sequence, db')

  -- The sequence that is returned, initializeTreeFn, and the store. Heights are not negative.
  unfoldable pub initialize_trees :
      (height_initialized disable_delete_future_withdrawals : Bool)
      (processed_height start_output_index : ℕ)
      → LevelDb L
      → Result StartError (ℕ × Option TreeStart × LevelDb L)
  unfolding next_sequence
  initialize_trees false disabled processed_height start_output_index db = ok (0, none, db)
  initialize_trees true disabled processed_height start_output_index db = do
    (l2_sequence, start, db1) ←
        (if disabled then ok (0, none, db) else do
          (l2_sequence, db') ← next_sequence processed_height db
          ok (
            l2_sequence,
            some (record {
              processed_height = processed_height;
              start_output_index = start_output_index;
              l2_sequence = l2_sequence;
            }),
            db',
          ))
    let version = processed_height
    db2 ← stored (delete_future_working_trees level (u64 (version + 1)) db1)
    db3 ← stored (delete_future_nodes level (u64 (version + 1)) db2)
    ok (l2_sequence, start, db3)
