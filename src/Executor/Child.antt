-- ===== src/Executor/Child.antt =====
-- executor/child/withdraw.go and handler.go: the tree and the output of each block, and the withdrawals
-- in it; with the initialization of the tree of provider/child/tree.go and child.go.
pub mod Sequences
pub mod Outputs
pub mod Preparation
use opinit_bots.Base.{
  ℕ, ◌+◌, ◌-◌, ◌*◌, ◌/◌, ◌%◌, ◌^◌, Bool, true, false, not, ◌&&◌, ◌||◌, ◌==◌, ltb, leb, Option, none,
  some, List, [], ◌∷◌, ◌++◌, if◌then◌else◌,
}
use opinit_bots.Base.Bytes.{bytes_equal}
use opinit_bots.Base.Words.{u64}
use opinit_bots.Base.Result.{Result, ok, err}
use opinit_bots.Base.Machine.{Machine, after, ◌>>=◌, ◌>>◌, return, fail, self, assign, try}
use opinit_bots.Db.{Bytes, Database, DbError, not_found, failure, Json}
use opinit_bots.Merkle.{
  Merkle, TreeInfo, FinalizedTreeInfo, Node, Error, get_working_tree, initialize_working_tree,
  prepare_working_tree, insert_leaf, finalize_working_tree,
}
use opinit_bots.Merkle.Store
use opinit_bots.Merkle.Store.{StoreError, save_nodes, save_finalized_tree, save_working_tree}
use opinit_bots.Executor.Withdrawals.{WithdrawalData, WithdrawalError, save_withdrawal}

pub data ChildError : Type 0 where
  withdrawal : WithdrawalError → ChildError
  merkle : Error → ChildError
  trees : StoreError → ChildError
  db : DbError → ChildError
  -- nodetypes.ErrIgnoreAndTryLater
  ignore_and_try_later marshal_failed query_failed propose_failed : ChildError
  -- a Go panic
  panic : ChildError

-- What the code reads from the text of a failed query: "collections: not found", and whether
-- isRetryableQueryErr holds.
pub record QueryError : Type 0 where
  pub collections_not_found : Bool
  pub retryable : Bool

pub record OutputProposal : Type 0 where
  pub l1_block_time : ℕ
  pub l2_block_number : ℕ

-- What initializeTreeFn holds.
pub record TreeStart : Type 0 where
  pub processed_height : ℕ
  pub start_output_index : ℕ
  pub l2_sequence : ℕ

-- `S` is the state of the stage, `D` that of the database, `M` the messages to the host.
pub record Child (S D M : Type 0) : Type 0 where
  pub mk : Merkle
  pub stage : S
  pub db : D
  pub initialize_tree_fn : Option TreeStart
  pub next_output_time : ℕ
  pub finalizing_block_height : ℕ
  pub last_output_time : ℕ
  pub msg_queue : Bytes → List M

-- The code outside: the host, the codecs, the hashes of the chains' modules and the stores.
pub record Environment (S D M : Type 0) : Type 0 where
  pub staged : Database S
  pub saved : Database D
  pub reset : S → S
  pub bridge_id : ℕ
  pub version : ℕ
  pub submission_interval : ℕ
  pub generate_withdrawal_hash : ℕ → ℕ → Bytes → Bytes → Bytes → ℕ → Bytes
  pub generate_node_hash : Bytes → Bytes → Bytes
  pub generate_output_root : ℕ → Bytes → Bytes → Bytes
  pub query_output : ℕ → ℕ → Result QueryError OutputProposal
  pub get_msg_propose_output : ℕ → ℕ → ℕ → Bytes → Option (Option (M × Bytes))
  pub marshal_tree_extra_data : ℕ → ℕ → Bytes → Option Bytes
  pub withdrawal_json : Json WithdrawalData
  pub decimal : Json ℕ
  pub tree_json : Json TreeInfo
  pub finalized_json : Json FinalizedTreeInfo

pub record Header : Type 0 where
  pub height : ℕ
  pub time : ℕ

-- errors.Is(err, dbtypes.ErrNotFound)
abbrev is_not_found : StoreError → Bool
is_not_found (StoreError.db not_found) = true
is_not_found _ = false

module _ {S D M : Type 0} (env : Environment S D M) where
  abbrev pub Handler {ℓ} : Type ℓ → Type ℓ
  Handler A = Machine ChildError (Child S D M) A

  -- A write to the stage; writes that fail leave it as it was before the first of them.
  abbrev pub staging : {F : Type 0} → (F → ChildError) → (S → Result F S) → Handler (Unit {0})
  staging wrap write = do ch ← self; s ← try wrap (write ch.stage); assign (record ch { stage = s })

  abbrev panics : {F : Type 0} → F → ChildError
  panics e = panic

  unfoldable pub must_get_working_tree : Handler TreeInfo
  unfolding get_working_tree
  must_get_working_tree = do ch ← self; try panics (get_working_tree ch.mk)

  unfoldable pub handle_initiate_withdrawal :
      (l2_sequence : ℕ) (from to base_denom : Bytes) (amount block_time block_height : ℕ)
      (tx_hash : Bytes)
      → Handler (Unit {0})
  unfolding must_get_working_tree
  handle_initiate_withdrawal l2_sequence from to base_denom amount block_time block_height tx_hash =
      do
        let hash = env.generate_withdrawal_hash env.bridge_id l2_sequence from to base_denom amount
        let record_of : WithdrawalData = record {
          sequence = l2_sequence;
          from = from;
          to = to;
          amount = amount;
          base_denom = base_denom;
          withdrawal_hash = hash;
          tx_height = block_height;
          tx_time = block_time;
          tx_hash = tx_hash;
        }
        staging withdrawal (save_withdrawal env.staged env.withdrawal_json env.decimal record_of)
        t ← must_get_working_tree
        if not (u64 (t.start_leaf_index + t.leaf_count) == l2_sequence) then fail panic else do
          ch ← self
          (new_nodes, m) ← try merkle (insert_leaf env.generate_node_hash hash ch.mk)
          assign (record ch { mk = m })
          staging db (save_nodes env.staged new_nodes)

  -- InitializeTree; an error of InitializeWorkingTree panics.
  unfoldable pub initialize_tree : ℕ → Handler Bool
  unfolding initialize_working_tree
  initialize_tree block_height ch = elim ch.initialize_tree_fn [
    | none ↦ return false ch
    | some start ↦
        if start.processed_height + 1 == block_height
        then after
            (try panics
              (initialize_working_tree block_height start.start_output_index start.l2_sequence
                ch.mk)
              ch)
            (λ m c. (ok true, record c { mk = m }))
        else return false ch
  ]

  unfoldable pub prepare_tree : ℕ → Handler (Unit {0})
  unfolding initialize_tree must_get_working_tree prepare_working_tree
  prepare_tree block_height ch =
      elim (Store.get_working_tree env.saved env.tree_json ch.db
        (u64 (block_height + 2 ^ 64 - 1))) [
          | err e ↦
              if is_not_found e
              then after (initialize_tree block_height ch) (λ initialized c.
                if initialized
                then after (must_get_working_tree c) (λ t c'. (ok tt, c'))
                else (err panic, c))
              else (err (trees e), ch)
          | ok t ↦
              after (try merkle (prepare_working_tree t ch.mk) ch)
                (λ m c. (ok tt, record c { mk = m }))
        ]

  -- The L1 block time of an output, and two thirds of the interval later.
  abbrev pub scheduled : ℕ → ℕ
  scheduled time = time + env.submission_interval * 2 / 3

  abbrev query_failure : QueryError → ChildError
  query_failure e = if e.retryable then ignore_and_try_later else query_failed

  -- The times of the previous output, when they are not known yet.
  unfoldable pub prepare_times : TreeInfo → Handler (Unit {0})
  prepare_times t ch =
      if not (ch.next_output_time == 0 && ltb 1 t.index)
      then (ok tt, ch)
      else elim (env.query_output env.bridge_id (t.index - 1)) [
        | err e ↦
            (err (if e.collections_not_found then ignore_and_try_later else query_failure e), ch)
        | ok output ↦ (
          ok tt,
          record ch {
            last_output_time = output.l1_block_time;
            next_output_time = scheduled output.l1_block_time;
          },
        )
      ]

  unfoldable pub prepare_output : Handler (Unit {0})
  unfolding must_get_working_tree prepare_times
  prepare_output = do
    t ← must_get_working_tree
    prepare_times t
    λ ch. elim (env.query_output env.bridge_id t.index) [
      | err e ↦ if e.collections_not_found then (ok tt, ch) else (err (query_failure e), ch)
      | ok output ↦
          if leb (2 ^ 63) output.l2_block_number
          then (err panic, ch)
          else (ok tt, record ch { finalizing_block_height = output.l2_block_number })
    ]

  -- Whether the tree is finalized at a block.
  unfoldable pub finalizes : Child S D M → (latest_height : ℕ) → Header → Bool
  finalizes ch latest_height header =
      ch.finalizing_block_height == header.height
      || (ch.finalizing_block_height == 0
          && header.height == latest_height
          && ltb ch.next_output_time header.time)

  unfoldable pub save_finalized : Option FinalizedTreeInfo → Handler (Unit {0})
  save_finalized none = return tt
  save_finalized (some info) =
      staging trees (save_finalized_tree env.staged env.finalized_json info)

  unfoldable pub finalize_tree : Header → (block_id : Bytes) → Handler (Option Bytes)
  unfolding finalize_working_tree must_get_working_tree save_finalized
  finalize_tree header block_id = do
    extra ← (elim (env.marshal_tree_extra_data header.height header.time block_id) [
      | none ↦ fail marshal_failed
      | some bytes ↦ return bytes
    ])
    ch ← self
    (info, new_nodes, root, m) ←
        try merkle (finalize_working_tree env.generate_node_hash extra ch.mk)
    assign (record ch { mk = m })
    save_finalized info
    staging db (save_nodes env.staged new_nodes)
    t ← must_get_working_tree
    ch' ← self
    assign (record ch' {
      finalizing_block_height = 0;
      last_output_time = header.time;
      next_output_time = scheduled header.time;
    })
    return (if ch'.finalizing_block_height == header.height then none else some root)

  unfoldable pub handle_tree :
      (latest_height : ℕ) → (block_id : Bytes) → Header → Handler (Option Bytes)
  unfolding finalizes finalize_tree must_get_working_tree
  handle_tree latest_height block_id header = do
    ch ← self
    if not (ch.finalizing_block_height == 0) && ltb ch.finalizing_block_height header.height
        then fail panic
        else do
          storage_root ←
              (if finalizes ch latest_height header
                then finalize_tree header block_id
                else return none)
          t ← must_get_working_tree
          staging trees (save_working_tree env.staged env.tree_json t)
          return storage_root

  unfoldable pub handle_output :
      (block_height version : ℕ)
      → (block_id : Bytes) → (output_index : ℕ) → (storage_root : Bytes) → Handler (Unit {0})
  handle_output block_height version block_id output_index storage_root ch =
      elim (env.get_msg_propose_output env.bridge_id output_index block_height
        (env.generate_output_root version storage_root block_id)) [
          | none ↦ (err propose_failed, ch)
          | some proposal ↦ elim proposal [
            | none ↦ (ok tt, ch)
            | some queued ↦ (
              ok tt,
              record ch {
                msg_queue = λ sender.
                    if bytes_equal queued.1 sender
                    then ch.msg_queue sender ++ queued.0 ∷ []
                    else ch.msg_queue sender;
              },
            )
          ]
        ]
