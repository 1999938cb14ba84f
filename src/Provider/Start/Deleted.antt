-- ===== src/Provider/Start/Deleted.antt =====
-- What the child finds in its store after it has been set to a height.
use opinit_bots.Base.{
  ℕ, ◌+◌, ◌^◌, ◌<◌, ◌≡◌, refl, ◌∙◌, true, false, [], ◌∷◌, Option, some, leb, if◌then◌else◌, arith,
  inl, inr, Option-cases,
}
use opinit_bots.Base.Words.{u64}
use opinit_bots.Base.Result.{ok, err, Result-cases}
use opinit_bots.Db.{Bytes, not_found}
use opinit_bots.Db.Keys.{append_splitter, from_uint64_key}
use opinit_bots.Db.Level.{Level, LevelLaws, LevelDb, level_get}
use opinit_bots.Db.Iterator.{has_prefix}
use opinit_bots.Db.Sweep.Reads.{SweptFrom, sweep-SweptFrom}
use opinit_bots.Db.Sweep.Ordered.{IsOrdered}
use opinit_bots.Merkle.Keys.{
  finalized_tree_prefix, working_tree_prefix, node_prefix, prefixed_finalized_tree_key,
  prefixed_working_tree_key, prefixed_node_key, prefixed_node_key_with_tree_index,
}
use opinit_bots.Merkle.Cleanup.{
  delete_future_finalized_trees, delete_future_working_trees, delete_future_nodes,
}
use opinit_bots.Executor.Child.{TreeStart}
use opinit_bots.Provider.Start.{initialize_trees, next_sequence}

module _ {L : Type 0} (level : Level L) (laws : LevelLaws level) where
  -- A store that a child starts from at a height, with the withdrawals from a sequence on.
  pub record StartsAt (sequence height : ℕ) (db db' : LevelDb L) : Type 0 where
    pub finalized :
        (n : ℕ)
        → n < 2 ^ 64
        → level_get level db' (prefixed_finalized_tree_key n) ≡ (
            if leb sequence n
            then err not_found
            else level_get level db (prefixed_finalized_tree_key n))
    pub working :
        (n : ℕ)
        → n < 2 ^ 64
        → level_get level db' (prefixed_working_tree_key n) ≡ (
            if leb (height + 1) n
            then err not_found
            else level_get level db (prefixed_working_tree_key n))
    pub nodes :
        (tree_index h index : ℕ)
        → tree_index < 2 ^ 64
        → level_get level db' (prefixed_node_key tree_index h index) ≡ (
            if leb (height + 1) tree_index
            then err not_found
            else level_get level db (prefixed_node_key tree_index h index))
    pub others :
        (key : Bytes)
        → has_prefix (append_splitter finalized_tree_prefix) key ≡ false
        → has_prefix (append_splitter working_tree_prefix) key ≡ false
        → has_prefix (append_splitter node_prefix) key ≡ false
        → level_get level db' key ≡ level_get level db key

  finalized_trees-SweptFrom :
      (from : ℕ) (db db' : LevelDb L)
      → delete_future_finalized_trees level from db ≡ ok db'
      → from < 2 ^ 64
      → IsOrdered level db.db
      → SweptFrom level finalized_tree_prefix from db db'
  unfolding delete_future_finalized_trees prefixed_finalized_tree_key
  finalized_trees-SweptFrom = sweep-SweptFrom level laws finalized_tree_prefix

  working_trees-SweptFrom :
      (from : ℕ) (db db' : LevelDb L)
      → delete_future_working_trees level from db ≡ ok db'
      → from < 2 ^ 64
      → IsOrdered level db.db
      → SweptFrom level working_tree_prefix from db db'
  unfolding delete_future_working_trees prefixed_working_tree_key
  working_trees-SweptFrom = sweep-SweptFrom level laws working_tree_prefix

  nodes-SweptFrom :
      (from : ℕ) (db db' : LevelDb L)
      → delete_future_nodes level from db ≡ ok db'
      → from < 2 ^ 64
      → IsOrdered level db.db
      → SweptFrom level node_prefix from db db'
  unfolding delete_future_nodes prefixed_node_key_with_tree_index
  nodes-SweptFrom = sweep-SweptFrom level laws node_prefix

  cleared-StartsAt :
      (sequence height : ℕ) (db db1 db2 db' : LevelDb L)
      → SweptFrom level finalized_tree_prefix sequence db db1
      → SweptFrom level working_tree_prefix (height + 1) db1 db2
      → SweptFrom level node_prefix (height + 1) db2 db'
      → StartsAt sequence height db db'
  unfolding prefixed_finalized_tree_key prefixed_working_tree_key prefixed_node_key append_splitter
      has_prefix
  cleared-StartsAt sequence height db db1 db2 db' trees working nodes = record {
    finalized = λ n p.
        nodes.elsewhere (prefixed_finalized_tree_key n) refl
        ∙ working.elsewhere (prefixed_finalized_tree_key n) refl
        ∙ trees.numbered n [] p;
    working = λ n p.
        nodes.elsewhere (prefixed_working_tree_key n) refl ∙ working.numbered n [] p ∙ (λ i.
          if leb (height + 1) n
          then err not_found
          else trees.elsewhere (prefixed_working_tree_key n) refl i);
    nodes = λ tree_index h index p. nodes.numbered tree_index (h ∷ from_uint64_key index) p ∙ (λ i.
        if leb (height + 1) tree_index
        then err not_found
        else (working.elsewhere (prefixed_node_key tree_index h index) refl
              ∙ trees.elsewhere (prefixed_node_key tree_index h index) refl)
            i);
    others = λ key a b c. nodes.elsewhere key c ∙ working.elsewhere key b ∙ trees.elsewhere key a;
  }

  -- If a child whose synced height has just been set starts from a height that is not zero, and nothing
  -- fails, then it goes on with the sequence that the query gives: the finalized trees from this sequence on,
  -- the working trees after the height and the nodes of the trees whose index is beyond the height are gone
  -- from the store, and all else is read as before.
  pub initialize_trees-StartsAt :
      (query : ℕ → Option ℕ) (height output sequence : ℕ) (start : Option TreeStart)
      (db db' : LevelDb L)
      → 0 < height
      → height + 1 < 2 ^ 64
      → sequence < 2 ^ 64
      → IsOrdered level db.db
      → initialize_trees level query true false height output db ≡ ok (sequence, start, db')
      → (query height ≡ some sequence)
        × (start
            ≡ some (record {
              processed_height = height;
              start_output_index = output;
              l2_sequence = sequence;
            }))
        × StartsAt sequence height db db'
  unfolding initialize_trees next_sequence
  initialize_trees-StartsAt query height output sequence start db db' positive small small' ordered
        run =
      let fits : u64 (height + 1) ≡ height + 1 = omega arith in
      elim (Option-cases (query height)) [
        | inl missing ↦ absurd (ground arith)
        | inr (s, queried) ↦ elim (Result-cases (delete_future_finalized_trees level s db)) [
          | inr (e, failed) ↦ absurd (ground arith)
          | inl (db1, first) ↦
              elim (Result-cases (delete_future_working_trees level (height + 1) db1)) [
                | inr (e, failed) ↦ absurd (ground (arith, fits))
                | inl (db2, second) ↦
                    elim (Result-cases (delete_future_nodes level (height + 1) db2)) [
                      | inr (e, failed) ↦ absurd (ground (arith, fits))
                      | inl (db3, third) ↦
                          let same : s ≡ sequence = ground (arith, fits) in
                          let last : db3 ≡ db' = ground (arith, fits) in
                          let trees =
                            finalized_trees-SweptFrom sequence db db1 (ground arith) small'
                              ordered in
                          let working =
                            working_trees-SweptFrom (height + 1) db1 db2 second small
                              trees.ordered in
                          let nodes =
                            nodes-SweptFrom (height + 1) db2 db' (ground arith) small
                              working.ordered in
                          (
                            ground arith,
                            ground (arith, fits),
                            cleared-StartsAt sequence height db db1 db2 db' trees working nodes,
                          )
                    ]
              ]
        ]
      ]
