-- ===== src/Merkle/Keys.antt =====
-- merkle/types/key.go: the keys of finalized trees, working trees and nodes.
use opinit_bots.Base.{
  ℕ, ◌+◌, ◌^◌, ◌<◌, ◌≡◌, ap, sym, ◌∙◌, [], ◌∷◌, ◌++◌, get_or, drop, take, length, arith, not, ◌==◌,
  if◌then◌else◌,
}
use opinit_bots.Base.Result.{Result, ok, err}
use opinit_bots.Db.{Bytes}
use opinit_bots.Db.Keys.{
  from_uint64_key, to_uint64_key, generate_key, to_uint64_key-from_uint64_key,
}

-- "finalized_tree", "working_tree" and "node"
abbrev pub finalized_tree_prefix : Bytes
finalized_tree_prefix =
    102 ∷ 105 ∷ 110 ∷ 97 ∷ 108 ∷ 105 ∷ 122 ∷ 101 ∷ 100 ∷ 95 ∷ 116 ∷ 114 ∷ 101 ∷ 101 ∷ []

abbrev pub working_tree_prefix : Bytes
working_tree_prefix = 119 ∷ 111 ∷ 114 ∷ 107 ∷ 105 ∷ 110 ∷ 103 ∷ 95 ∷ 116 ∷ 114 ∷ 101 ∷ 101 ∷ []

abbrev pub node_prefix : Bytes
node_prefix = 110 ∷ 111 ∷ 100 ∷ 101 ∷ []

abbrev finalized_tree_key_length : ℕ
finalized_tree_key_length = length finalized_tree_prefix + 1 + 8

abbrev working_tree_key_length : ℕ
working_tree_key_length = length working_tree_prefix + 1 + 8

abbrev node_key_length : ℕ
node_key_length = length node_prefix + 1 + 8 + 1 + 8

unfoldable pub prefixed_finalized_tree_key : ℕ → Bytes
unfolding generate_key from_uint64_key
prefixed_finalized_tree_key start_leaf_index =
    generate_key (finalized_tree_prefix ∷ from_uint64_key start_leaf_index ∷ [])

unfoldable pub prefixed_working_tree_key : ℕ → Bytes
unfolding generate_key from_uint64_key
prefixed_working_tree_key version =
    generate_key (working_tree_prefix ∷ from_uint64_key version ∷ [])

-- The height is one byte of the slice.
unfoldable pub get_node_key : ℕ → ℕ → ℕ → Bytes
unfolding from_uint64_key
get_node_key tree_index height node_index =
    from_uint64_key tree_index ++ height ∷ from_uint64_key node_index

unfoldable pub prefixed_node_key : ℕ → ℕ → ℕ → Bytes
unfolding generate_key get_node_key
prefixed_node_key tree_index height node_index =
    generate_key (node_prefix ∷ get_node_key tree_index height node_index ∷ [])

unfoldable pub prefixed_node_key_with_tree_index : ℕ → Bytes
unfolding generate_key from_uint64_key
prefixed_node_key_with_tree_index tree_index =
    generate_key (node_prefix ∷ from_uint64_key tree_index ∷ [])

pub data KeyError : Type 0 where
  invalid_length : KeyError

abbrev slice : ℕ → ℕ → Bytes → Bytes
slice from count key = take count (drop from key)

unfoldable pub parse_finalized_tree_key : Bytes → Result KeyError ℕ
unfolding to_uint64_key
parse_finalized_tree_key key =
    if not (length key == finalized_tree_key_length)
    then err invalid_length
    else ok (to_uint64_key (slice (length finalized_tree_prefix + 1) 8 key))

unfoldable pub parse_working_tree_key : Bytes → Result KeyError ℕ
unfolding to_uint64_key
parse_working_tree_key key =
    if not (length key == working_tree_key_length)
    then err invalid_length
    else ok (to_uint64_key (slice (length working_tree_prefix + 1) 8 key))

unfoldable pub parse_node_key : Bytes → Result KeyError (ℕ × ℕ × ℕ)
unfolding to_uint64_key
parse_node_key key =
    if not (length key == node_key_length)
    then err invalid_length
    else let cursor : ℕ = length node_prefix + 1 in
      ok (
        to_uint64_key (slice cursor 8 key),
        get_or key (cursor + 8) 0,
        to_uint64_key (slice (cursor + 9) 8 key),
      )

-- If tree index and node index are below 2^64, parsing the key of a node gives back the tree index,
-- the height and the node index that it was made of.
pub parse_node_key-prefixed_node_key :
    (tree_index height node_index : ℕ)
    → tree_index < 2 ^ 64
    → node_index < 2 ^ 64
    → parse_node_key (prefixed_node_key tree_index height node_index)
      ≡ ok (tree_index, height, node_index)
unfolding parse_node_key prefixed_node_key
parse_node_key-prefixed_node_key tree_index height node_index p q = λ i. ok (
  to_uint64_key-from_uint64_key tree_index p i,
  height,
  to_uint64_key-from_uint64_key node_index q i,
)

-- Nodes of different places have different keys.
pub prefixed_node_key-injective :
    (t h n h' n' : ℕ)
    → t < 2 ^ 64
    → n < 2 ^ 64
    → n' < 2 ^ 64
    → prefixed_node_key t h n ≡ prefixed_node_key t h' n'
    → (h ≡ h') × (n ≡ n')
prefixed_node_key-injective t h n h' n' p q q' e =
    let same : ◌≡◌ {A = Result KeyError (ℕ × ℕ × ℕ)} (ok (t, h, n)) (ok (t, h', n')) =
      sym (parse_node_key-prefixed_node_key t h n p q)
      ∙ ap parse_node_key e
      ∙ parse_node_key-prefixed_node_key t h' n' p q' in
    (ground arith, ground arith)

pub parse_finalized_tree_key-prefixed_finalized_tree_key :
    (v : ℕ) → v < 2 ^ 64 → parse_finalized_tree_key (prefixed_finalized_tree_key v) ≡ ok v
unfolding parse_finalized_tree_key prefixed_finalized_tree_key
parse_finalized_tree_key-prefixed_finalized_tree_key v p =
    λ i. ok (to_uint64_key-from_uint64_key v p i)

pub parse_working_tree_key-prefixed_working_tree_key :
    (v : ℕ) → v < 2 ^ 64 → parse_working_tree_key (prefixed_working_tree_key v) ≡ ok v
unfolding parse_working_tree_key prefixed_working_tree_key
parse_working_tree_key-prefixed_working_tree_key v p = λ i. ok (to_uint64_key-from_uint64_key v p i)
