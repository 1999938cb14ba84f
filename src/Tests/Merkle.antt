-- ===== src/Tests/Merkle.antt =====
-- A tree of three leaves.
use native.Mathlib.Nat.{add_comm}
use opinit_bots.Base.{
  ◌*◌, ◌≤◌, ℕ, ◌+◌, ◌≡◌, ◌<◌, ◌^◌, refl, List, [], ◌∷◌, none, some, arith, length,
}
use opinit_bots.Base.Result.{ok}
use opinit_bots.Db.{Bytes, Json}
use opinit_bots.Merkle.{Node, TreeInfo, Merkle, FinalizedTreeInfo, tree_height_of, len64, bit_len}
use opinit_bots.Merkle.Tree.{working}
use opinit_bots.Merkle.Build.{build, build_lem, expected_info, tree_root, Written}
use opinit_bots.Merkle.Proofs.{get_proofs-build}
use opinit_bots.Merkle.Store.{get_proofs}
use opinit_bots.Merkle.Saved.{fold_proof}
use opinit_bots.Merkle.Keys.{parse_node_key, prefixed_node_key, parse_node_key-prefixed_node_key}
use opinit_bots.Merkle.Height.{tree_height_bounds}
use opinit_bots.Tests.Store.{memory, memory-Writes, put_nodes, save_nodes-put_nodes}

-- A joining of nodes that does not depend on the order.
abbrev total : Bytes → ℕ
total [] = 0
total (x ∷ xs) = x + total xs

abbrev join : Bytes → Bytes → Bytes
join a b = (total a + total b) ∷ []

join_comm : (a b : Bytes) → join a b ≡ join b a
join_comm a b = λ i. add_comm (total a) (total b) i ∷ []

abbrev three : List Bytes
three = (1 ∷ []) ∷ (20 ∷ []) ∷ (300 ∷ []) ∷ []

abbrev no_tree : Merkle
no_tree = record { working_tree = none }

heights :
    (tree_height_of 1 ≡ 1)
    × (tree_height_of 7 ≡ 3)
    × (tree_height_of 8 ≡ 3)
    × (tree_height_of 9 ≡ 4)
    × (tree_height_of 16 ≡ 4)
unfolding tree_height_of len64 bit_len
heights = (refl, refl, refl, refl, refl)

three_root : tree_root join 5 1 1 three ≡ (621 ∷ [])
unfolding tree_height_of len64 bit_len
three_root = refl

build_lem_example :
    (inserted filled : List Node) × (t : TreeInfo) × (build join 5 1 1 three (7 ∷ []) no_tree
      ≡ ok (
        some (expected_info join 5 1 1 three (7 ∷ [])),
        inserted,
        filled,
        tree_root join 5 1 1 three,
        working t,
      ))
    × Written join 5 1 1 three inserted filled
    × (t.leaf_count ≡ length three)
build_lem_example =
    build_lem join 5 1 1 three (7 ∷ []) no_tree (omega arith) (omega arith) (omega arith)
      (omega arith)

abbrev inserted : List Node
inserted = build_lem_example.0

abbrev filled : List Node
filled = build_lem_example.1

abbrev info_json : Json FinalizedTreeInfo
info_json = record {
  marshal = λ info. some [];
  unmarshal = λ bytes. some (expected_info join 5 1 1 three (7 ∷ []));
}

get_proofs-build_example :
    (proofs : List Bytes) × (get_proofs memory info_json
        (put_nodes filled (put_nodes inserted (λ k. none)))
        3
      ≡ ok (proofs, 1, tree_root join 5 1 1 three, 7 ∷ []))
    × (fold_proof join (300 ∷ []) proofs ≡ tree_root join 5 1 1 three)
get_proofs-build_example =
    get_proofs-build memory memory-Writes join 5 1 1 three info_json (7 ∷ []) no_tree inserted
      filled (λ k. none) 2 join_comm (omega arith) (omega arith) (omega arith) (omega arith)
      (omega arith) build_lem_example.3 (save_nodes-put_nodes inserted _)
      (save_nodes-put_nodes filled _) refl refl

parse_node_key-prefixed_node_key_example :
    parse_node_key (prefixed_node_key 3 7 12345678901) ≡ ok (3, 7, 12345678901)
parse_node_key-prefixed_node_key_example =
    parse_node_key-prefixed_node_key 3 7 12345678901 (omega arith) (omega arith)

tree_height_bounds_example : (9 ≤ 2 ^ tree_height_of 9) × (2 ^ tree_height_of 9 < 2 * 9)
tree_height_bounds_example = tree_height_bounds 9 (omega arith) (omega arith)
