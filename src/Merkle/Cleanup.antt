-- ===== src/Merkle/Cleanup.antt =====
-- merkle/db.go: the deletion of trees and nodes from a leaf, a version or a tree on.
use opinit_bots.Base.{ℕ, some}
use opinit_bots.Base.Result.{Result}
use opinit_bots.Db.{DbError}
use opinit_bots.Db.Keys.{append_splitter}
use opinit_bots.Db.Level.{Level, LevelDb}
use opinit_bots.Db.Sweep.{sweep}
use opinit_bots.Merkle.Keys.{
  finalized_tree_prefix, working_tree_prefix, node_prefix, prefixed_finalized_tree_key,
  prefixed_working_tree_key, prefixed_node_key_with_tree_index,
}

module _ {L : Type 0} (level : Level L) where
  unfoldable pub delete_future_finalized_trees : ℕ → LevelDb L → Result DbError (LevelDb L)
  unfolding sweep
  delete_future_finalized_trees from_sequence db =
      sweep level (append_splitter finalized_tree_prefix)
        (some (prefixed_finalized_tree_key from_sequence)) db

  unfoldable pub delete_future_working_trees : ℕ → LevelDb L → Result DbError (LevelDb L)
  unfolding sweep
  delete_future_working_trees from_version db =
      sweep level (append_splitter working_tree_prefix)
        (some (prefixed_working_tree_key from_version)) db

  unfoldable pub delete_future_nodes : ℕ → LevelDb L → Result DbError (LevelDb L)
  unfolding sweep
  delete_future_nodes tree_index db =
      sweep level (append_splitter node_prefix)
        (some (prefixed_node_key_with_tree_index tree_index)) db
