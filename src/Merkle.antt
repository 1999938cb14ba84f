-- ===== src/Merkle.antt =====
-- merkle/merkle.go and merkle/types/db.go: the working tree, which keeps the last node of each
-- height only, its insertion loop, and its finalization.
pub mod Keys
pub mod Store
pub mod Cleanup
pub mod Saved
pub mod Run
pub mod Build
pub mod Proofs
pub mod Spec
pub mod Insert
pub mod Climb
pub mod Tree
pub mod Height
pub mod Prepare
pub mod Finalize
use opinit_bots.Base.{
  ℕ, zero, suc, ◌+◌, ◌-◌, ◌/◌, ◌%◌, ◌^◌, ◌<◌, Bool, true, false, ◌||◌, Option, none, some, List, [],
  ◌∷◌, ◌++◌, Acc, dite, ℕ_discrete, ltb, leb, ◌==◌, replicate, if◌then◌else◌,
}
use opinit_bots.Base.Result.{Result, ok, err, ◌>>=◌}
pub use opinit_bots.Db.{Bytes}
use opinit_bots.Base.Words.{u64, lt_wf, half-lt}

pub record TreeInfo : Type 0 where
  pub version : ℕ
  pub index : ℕ
  pub leaf_count : ℕ
  pub start_leaf_index : ℕ
  -- map[uint8][]byte: a missing height reads as nil
  pub last_siblings : ℕ → Bytes
  pub done : Bool

pub record FinalizedTreeInfo : Type 0 where
  pub tree_index : ℕ
  pub tree_height : ℕ
  pub root : Bytes
  pub start_leaf_index : ℕ
  pub leaf_count : ℕ
  pub extra_data : Bytes

pub record Node : Type 0 where
  pub tree_index : ℕ
  pub height : ℕ
  pub local_node_index : ℕ
  pub bytes : Bytes

-- A [32]byte of zeros.
abbrev pub empty_root_hash : Bytes
empty_root_hash = replicate 32 0

pub data Error : Type 0 where
  not_initialized invalid_index : Error

-- The pointer to the working tree, nil before the first initialization.
pub record Merkle : Type 0 where
  pub working_tree : Option TreeInfo

abbrev pub update : (ℕ → Bytes) → ℕ → Bytes → ℕ → Bytes
update m k v j = if k == j then v else m j

abbrev pub no_siblings : ℕ → Bytes
no_siblings h = []

unfoldable pub initialize_working_tree : ℕ → ℕ → ℕ → Merkle → Result Error Merkle
initialize_working_tree version tree_index start_leaf_index m =
    if ltb tree_index 1 || ltb start_leaf_index 1
    then err invalid_index
    else ok (record {
      working_tree = some (record {
        version = version;
        index = tree_index;
        start_leaf_index = start_leaf_index;
        leaf_count = 0;
        last_siblings = no_siblings;
        done = false;
      });
    })

unfoldable pub get_working_tree : Merkle → Result Error TreeInfo
get_working_tree m = elim m.working_tree [ none ↦ err not_initialized | some t ↦ ok t ]

unfoldable pub prepare_working_tree : TreeInfo → Merkle → Result Error Merkle
unfolding initialize_working_tree
prepare_working_tree last m =
    let t : TreeInfo = record last { version = u64 (last.version + 1) } in
    if t.done
    then initialize_working_tree t.version (u64 (t.index + 1))
        (u64 (t.start_leaf_index + t.leaf_count)) (record { working_tree = some t })
    else ok (record { working_tree = some t })

-- bits.Len64 of a number below 2 ^ 64: 64 rounds are enough.
unfoldable pub bit_len : ℕ → ℕ → ℕ
bit_len zero n = 0
bit_len (suc rounds) n = if n == 0 then 0 else suc (bit_len rounds (n / 2))

unfoldable pub len64 : ℕ → ℕ
len64 n = bit_len 64 n

-- `types.MustIntToUint8` cannot panic here: a bit length is at most 64.
unfoldable pub tree_height_of : ℕ → ℕ
tree_height_of leaf_count = if leb leaf_count 1 then leaf_count else len64 (leaf_count - 1)

unfoldable pub height : Merkle → Result Error ℕ
unfolding get_working_tree
height m = do t ← get_working_tree m; ok (tree_height_of t.leaf_count)

module _ (node_generator : Bytes → Bytes → Bytes) where
  -- The `for` of InsertLeaf: it ends, since an odd index is halved.
  unfoldable pub insert_loop :
      (tree_index h : ℕ) (leaf : Bytes) (local_node_index : ℕ)
      → Acc ◌<◌ local_node_index
      → (ℕ → Bytes)
      → List Node × (ℕ → Bytes)
  insert_loop tree_index h leaf n (Acc.intro _ smaller) siblings =
      let node : Node = record {
        tree_index = tree_index;
        height = h;
        local_node_index = n;
        bytes = leaf;
      } in
      let siblings' : ℕ → Bytes = update siblings h leaf in
      dite (ℕ_discrete (n % 2) 0) (λ _. (node ∷ [], siblings'))
        (λ odd.
          let (nodes, result) =
            insert_loop tree_index ((h + 1) % 256) (node_generator (siblings h) leaf) (n / 2)
              (smaller (n / 2) (half-lt n odd)) siblings' in
          (node ∷ nodes, result))

  unfoldable pub insert_into : Bytes → TreeInfo → List Node × TreeInfo
  unfolding insert_loop
  insert_into leaf t =
      let (nodes, siblings) =
        insert_loop t.index 0 leaf t.leaf_count (lt_wf.apply t.leaf_count) t.last_siblings in
      (nodes, record t { leaf_count = u64 (t.leaf_count + 1); last_siblings = siblings })

  unfoldable pub insert_leaf : Bytes → Merkle → Result Error (List Node × Merkle)
  unfolding get_working_tree insert_into
  insert_leaf leaf m = do
    t ← get_working_tree m
    let (nodes, t') = insert_into leaf t
    ok (nodes, record { working_tree = some t' })

  -- `for i := uint64(0); i < numRestLeaves; i++`, by the rounds left.
  unfoldable pub insert_copies : ℕ → Bytes → Merkle → Result Error (List Node × Merkle)
  unfolding insert_leaf
  insert_copies zero leaf m = ok ([], m)
  insert_copies (suc rest) leaf m = do
    (nodes, m') ← insert_leaf leaf m
    (more, m'') ← insert_copies rest leaf m'
    ok (nodes ++ more, m'')

  unfoldable pub fill_leaves : Merkle → Result Error (List Node × Merkle)
  unfolding get_working_tree height insert_copies
  fill_leaves m = do
    t ← get_working_tree m
    h ← height m
    let rest = u64 (u64 (2 ^ h) + 2 ^ 64 - t.leaf_count)
    if rest == 0 then ok ([], m) else do
      (nodes, m') ← insert_copies rest (t.last_siblings 0) m
      t' ← get_working_tree m'
      ok (
        nodes,
        record {
          working_tree = some (record t' { leaf_count = u64 (t'.leaf_count + 2 ^ 64 - rest) });
        },
      )

  unfoldable pub finalize_working_tree :
      (extra_data : Bytes)
      → Merkle
      → Result Error (Option FinalizedTreeInfo × List Node × Bytes × Merkle)
  unfolding get_working_tree fill_leaves height
  finalize_working_tree extra_data m = do
    t ← get_working_tree m
    let marked : Merkle = record { working_tree = some (record t { done = true }) }
    if t.leaf_count == 0 then ok (none, [], empty_root_hash, marked) else do
      (new_nodes, m') ← fill_leaves marked
      h ← height m'
      t' ← get_working_tree m'
      let root = t'.last_siblings h
      let info : FinalizedTreeInfo = record {
        tree_index = t'.index;
        tree_height = h;
        root = root;
        start_leaf_index = t'.start_leaf_index;
        leaf_count = t'.leaf_count;
        extra_data = extra_data;
      }
      ok (some info, new_nodes, root, m')
