-- ===== src/Merkle/Store.antt =====
-- merkle/db.go: trees and nodes in a store, and the proof of a leaf of a finalized tree.
use Prim.Native.Nat.{bit_xor}
use opinit_bots.Base.{
  ℕ, zero, suc, ◌+◌, ◌-◌, ◌/◌, Option, none, some, List, [], ◌∷◌, ltb, leb, if◌then◌else◌,
}
use opinit_bots.Base.Result.{Result, ok, err, ◌>>=◌}
use opinit_bots.Db.{Bytes, Database, DbError, not_found, failure, Json}
use opinit_bots.Merkle.{Node, TreeInfo, FinalizedTreeInfo}
use opinit_bots.Merkle.Keys.{
  finalized_tree_prefix, prefixed_finalized_tree_key, prefixed_working_tree_key, prefixed_node_key,
}

pub data StoreError : Type 0 where
  unfinalized_tree marshal_failed unmarshal_failed leaf_not_in_tree : StoreError
  -- a failure of the store, as it is and wrapped by "failed to get sibling node from db"
  db sibling : DbError → StoreError

abbrev pub wrap {ℓ} : {A : Type ℓ} → (DbError → StoreError) → Result DbError A → Result StoreError A
wrap f (ok a) = ok a
wrap f (err e) = err (f e)

abbrev pub decoded {ℓ} : {A : Type ℓ} → Option A → StoreError → Result StoreError A
decoded none e = err e
decoded (some a) e = ok a

-- Node.Key and Node.Value
unfoldable pub key : Node → Bytes
key x = prefixed_node_key x.tree_index x.height x.local_node_index

module _ {S : Type 0} (database : Database S) where
  unfoldable pub save_nodes : List Node → S → Result DbError S
  unfolding key
  save_nodes [] s = ok s
  save_nodes (x ∷ xs) s = do s' ← database.set s (key x) x.bytes; save_nodes xs s'

  unfoldable pub get_node_bytes : S → ℕ → ℕ → ℕ → Result DbError Bytes
  get_node_bytes s tree_index height local_node_index =
      database.get s (prefixed_node_key tree_index height local_node_index)

  unfoldable pub save_finalized_tree :
      Json FinalizedTreeInfo → FinalizedTreeInfo → S → Result StoreError S
  save_finalized_tree json info s = do
    value ← decoded (json.marshal info) marshal_failed
    wrap db (database.set s (prefixed_finalized_tree_key info.start_leaf_index) value)

  unfoldable pub get_finalized_tree :
      Json FinalizedTreeInfo → S → ℕ → Result StoreError FinalizedTreeInfo
  get_finalized_tree json s start_leaf_index = do
    value ← wrap db (database.get s (prefixed_finalized_tree_key start_leaf_index))
    decoded (json.unmarshal value) unmarshal_failed

  unfoldable pub save_working_tree : Json TreeInfo → TreeInfo → S → Result StoreError S
  save_working_tree json tree s = do
    value ← decoded (json.marshal tree) marshal_failed
    wrap db (database.set s (prefixed_working_tree_key tree.version) value)

  unfoldable pub get_working_tree : Json TreeInfo → S → ℕ → Result StoreError TreeInfo
  get_working_tree json s version = do
    value ← wrap db (database.get s (prefixed_working_tree_key version))
    decoded (json.unmarshal value) unmarshal_failed

  -- `for height < treeInfo.TreeHeight`, by the rounds left: the siblings of a node and of its
  -- ancestors, from the node's height on.
  unfoldable pub siblings : ℕ → S → ℕ → ℕ → ℕ → Result StoreError (List Bytes)
  unfolding get_node_bytes
  siblings zero s tree_index height local_node_index = ok []
  siblings (suc rounds) s tree_index height local_node_index = do
    proof ← wrap sibling (get_node_bytes s tree_index height (bit_xor local_node_index 1))
    proofs ← siblings rounds s tree_index (height + 1) (local_node_index / 2)
    ok (proof ∷ proofs)

  abbrev finalized_tree_of : Result DbError (Bytes × Bytes) → Result StoreError Bytes
  finalized_tree_of (err not_found) = err unfinalized_tree
  finalized_tree_of (err (failure n)) = err (db (failure n))
  finalized_tree_of (ok entry) = ok entry.1

  -- The proof, the tree's index, its root and its extra data.
  unfoldable pub get_proofs :
      Json FinalizedTreeInfo → S → ℕ → Result StoreError (List Bytes × ℕ × Bytes × Bytes)
  unfolding siblings
  get_proofs json s leaf_index = do
    value ← finalized_tree_of (
        database.seek_prev_inclusive_key s finalized_tree_prefix
          (prefixed_finalized_tree_key leaf_index))
    info ← decoded (json.unmarshal value) unmarshal_failed
    if ltb leaf_index info.start_leaf_index
        then err leaf_not_in_tree
        else if leb info.leaf_count (leaf_index - info.start_leaf_index)
        then err unfinalized_tree
        else do
          proofs ←
              siblings info.tree_height s info.tree_index 0 (leaf_index - info.start_leaf_index)
          ok (proofs, info.tree_index, info.root, info.extra_data)
