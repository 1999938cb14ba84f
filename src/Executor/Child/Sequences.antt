-- ===== src/Executor/Child/Sequences.antt =====
-- The sequences of the withdrawals that the tree of a block takes in.
use opinit_bots.Base.{
  ℕ, ◌+◌, ◌≡◌, ◌<◌, ◌^◌, refl, ◌∙◌, ◌==◌, some, List, [], ◌∷◌, arith, Bool-cases, Option-cases, inl,
  inr, length, ap,
}
use opinit_bots.Base.Words.{u64}
use opinit_bots.Base.Result.{ok, Result-cases}
use opinit_bots.Base.Machine.{after, after-ok}
use opinit_bots.Db.{Bytes}
use opinit_bots.Merkle.{TreeInfo, insert_into, insert_leaf, get_working_tree}
use opinit_bots.Merkle.Store.{save_nodes}
use opinit_bots.Executor.Withdrawals.{save_withdrawal}
use opinit_bots.Executor.Child.{
  Environment, Child, Handler, handle_initiate_withdrawal, must_get_working_tree,
}

-- The arguments of one withdrawal.
pub record Withdrawal : Type 0 where
  pub l2_sequence : ℕ
  pub from : Bytes
  pub to : Bytes
  pub base_denom : Bytes
  pub amount : ℕ
  pub block_time : ℕ
  pub block_height : ℕ
  pub tx_hash : Bytes

abbrev pub sequences : List Withdrawal → List ℕ
sequences [] = []
sequences (w ∷ ws) = w.l2_sequence ∷ sequences ws

-- `count` numbers from `first` on.
abbrev pub range : ℕ → List Withdrawal → List ℕ
range first [] = []
range first (w ∷ ws) = first ∷ range (first + 1) ws

module _ {S D M : Type 0} (env : Environment S D M) where
  -- A tree that a handler has taken one more leaf into.
  pub record OneMore (t t' : TreeInfo) : Type 0 where
    pub count : t'.leaf_count ≡ u64 (t.leaf_count + 1)
    pub start : t'.start_leaf_index ≡ t.start_leaf_index
    pub index : t'.index ≡ t.index
    pub version : t'.version ≡ t.version

  handle_initiate_withdrawal-ok :
      (l2_sequence : ℕ) (from to base_denom : Bytes) (amount block_time block_height : ℕ)
      (tx_hash : Bytes) (ch ch' : Child S D M)
      → handle_initiate_withdrawal env l2_sequence from to base_denom amount block_time block_height
          tx_hash ch
        ≡ (ok tt, ch')
      → (t t' : TreeInfo) × (ch.mk.working_tree ≡ some t)
        × (ch'.mk.working_tree ≡ some t')
        × (u64 (t.start_leaf_index + t.leaf_count) ≡ l2_sequence)
        × OneMore t t'
  unfolding handle_initiate_withdrawal must_get_working_tree get_working_tree insert_leaf
      insert_into
  handle_initiate_withdrawal-ok l2_sequence from to base_denom amount block_time block_height
        tx_hash ch ch' run =
      let hash = env.generate_withdrawal_hash env.bridge_id l2_sequence from to base_denom amount in
      elim (Result-cases (
        save_withdrawal env.staged env.withdrawal_json env.decimal
          (record {
            sequence = l2_sequence;
            from = from;
            to = to;
            amount = amount;
            base_denom = base_denom;
            withdrawal_hash = hash;
            tx_height = block_height;
            tx_time = block_time;
            tx_hash = tx_hash;
          })
          ch.stage)) [
            | inr (e, failed) ↦ absurd (ground arith)
            | inl (s, saved) ↦ elim (Option-cases ch.mk.working_tree) [
              | inl missing ↦ absurd (ground arith)
              | inr (t, found) ↦
                  elim (Bool-cases (u64 (t.start_leaf_index + t.leaf_count) == l2_sequence)) [
                    | inr different ↦ absurd (ground arith)
                    | inl same ↦
                        elim (Result-cases
                          (save_nodes env.staged (insert_into env.generate_node_hash hash t).0 s)) [
                            | inr (e, failed) ↦ absurd (ground arith)
                            | inl (s', written) ↦ (
                              t,
                              (insert_into env.generate_node_hash hash t).1,
                              found,
                              ground arith,
                              ground arith,
                              record { count = refl; start = refl; index = refl; version = refl },
                            )
                          ]
                  ]
            ]
          ]

  -- The withdrawals of a block, in their order.
  unfoldable pub handle_withdrawals : List Withdrawal → Handler env (Unit {0})
  unfolding handle_initiate_withdrawal
  handle_withdrawals [] ch = (ok tt, ch)
  handle_withdrawals (w ∷ ws) ch =
      after
        (handle_initiate_withdrawal env w.l2_sequence w.from w.to w.base_denom w.amount w.block_time
          w.block_height w.tx_hash ch)
        (λ u c. handle_withdrawals ws c)

  -- If the withdrawals of a block are all handled without an error, starting from a working tree with a
  -- start index and a leaf count whose sum with the number of withdrawals stays below 2^64, then their
  -- sequences are consecutive, from the sum of start index and leaf count on, and the working tree has
  -- the same index and start and that many more leaves.
  pub handle_withdrawals-sequences :
      (ws : List Withdrawal) (ch ch' : Child S D M) (t : TreeInfo)
      → ch.mk.working_tree ≡ some t
      → t.start_leaf_index + t.leaf_count + length ws < 2 ^ 64
      → handle_withdrawals ws ch ≡ (ok tt, ch')
      → (sequences ws ≡ range (t.start_leaf_index + t.leaf_count) ws)
        × (t' : TreeInfo) × (ch'.mk.working_tree ≡ some t')
        × (t'.leaf_count ≡ t.leaf_count + length ws)
        × (t'.start_leaf_index ≡ t.start_leaf_index)
        × (t'.index ≡ t.index)
  unfolding handle_withdrawals
  handle_withdrawals-sequences [] ch ch' t found small run =
      (refl, t, ground arith, ground arith, refl, refl)
  handle_withdrawals-sequences (w ∷ ws) ch ch' t found small run =
      let (u, c, one, rest) =
        after-ok
          (handle_initiate_withdrawal env w.l2_sequence w.from w.to w.base_denom w.amount
            w.block_time w.block_height w.tx_hash ch)
          (λ u c. handle_withdrawals ws c) run in
      let (t0, t1, found0, found1, first, more) =
        handle_initiate_withdrawal-ok w.l2_sequence w.from w.to w.base_denom w.amount w.block_time
          w.block_height w.tx_hash ch c one in
      let same : t0 ≡ t = ground arith in
      let count : t1.leaf_count ≡ t.leaf_count + 1 = rw (more.count, same) (omega arith) in
      let start : t1.start_leaf_index ≡ t.start_leaf_index =
        more.start ∙ ap (λ t. t.start_leaf_index) same in
      let (seqs, t', found', count', start', index') =
        handle_withdrawals-sequences ws c ch' t1 found1 (rw (count, start) (omega arith)) rest in
      (
        ground (arith, seqs, first),
        t',
        found',
        count' ∙ omega (arith, count),
        start' ∙ start,
        index' ∙ more.index ∙ ap (λ t. t.index) same,
      )
