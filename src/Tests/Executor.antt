-- ===== src/Tests/Executor.antt =====
-- A rollup with two withdrawals in a block.
use opinit_bots.Base.{
  ℕ, ◌+◌, ◌*◌, ◌/◌, ◌-◌, ◌^◌, ◌≡◌, ◌<◌, refl, arith, true, false, some, none, List, [], ◌∷◌, length,
}
use opinit_bots.Base.{ℕ_discrete}
use opinit_bots.Base.Words.{lt_wf, u64}
use opinit_bots.Executor.Withdrawals.{save_withdrawal}
use opinit_bots.Merkle.Store.{get_working_tree, save_nodes, save_finalized_tree, save_working_tree}
use opinit_bots.Base.Result.{ok, err}
use opinit_bots.Merkle.{TreeInfo, no_siblings, insert_leaf, tree_height_of}
use opinit_bots.Merkle.Prepare.{Continues}
use opinit_bots.Executor.Child.{Environment, Child, Header, handle_tree, prepare_tree}
use opinit_bots.Executor.Child.Sequences.{
  Withdrawal, handle_withdrawals, sequences, range, handle_withdrawals-sequences,
}
use opinit_bots.Executor.Child.Outputs.{handle_tree-proposes}
use opinit_bots.Executor.Child.Preparation.{prepare_tree-Continues}
use opinit_bots.Tests.Store.{memory, Memory}

abbrev tree : TreeInfo
tree = record {
  version = 9;
  index = 3;
  leaf_count = 1;
  start_leaf_index = 20;
  last_siblings = no_siblings;
  done = false;
}

abbrev env : Environment Memory Memory ℕ
env = record {
  staged = memory;
  saved = memory;
  reset = λ s k. none;
  bridge_id = 1;
  version = 1;
  submission_interval = 90;
  generate_withdrawal_hash = λ id sequence from to denom amount. sequence ∷ amount ∷ [];
  generate_node_hash = λ a b. [];
  generate_output_root = λ version root block_id. root;
  query_output = λ id index. err (record { collections_not_found = true; retryable = false });
  get_msg_propose_output = λ id index height root. some (some (index, 7 ∷ []));
  marshal_tree_extra_data = λ height time block_id. some [];
  withdrawal_json = record { marshal = λ w. some []; unmarshal = λ b. none };
  decimal = record { marshal = λ n. some (n ∷ []); unmarshal = λ b. none };
  tree_json = record { marshal = λ t. some []; unmarshal = λ b. some tree };
  finalized_json = record { marshal = λ t. some []; unmarshal = λ b. none };
}

abbrev child : Child Memory Memory ℕ
child = record {
  mk = record { working_tree = some tree };
  stage = λ k. none;
  db = λ k. some [];
  initialize_tree_fn = none;
  next_output_time = 1000;
  finalizing_block_height = 0;
  last_output_time = 900;
  msg_queue = λ sender. [];
}

abbrev withdrawal : ℕ → Withdrawal
withdrawal sequence = record {
  l2_sequence = sequence;
  from = 1 ∷ [];
  to = 2 ∷ [];
  base_denom = 3 ∷ [];
  amount = 100;
  block_time = 1010;
  block_height = 9;
  tx_hash = [];
}

abbrev two : List Withdrawal
two = withdrawal 21 ∷ withdrawal 22 ∷ []

abbrev after_two : Child Memory Memory ℕ
after_two = (handle_withdrawals env two child).1

two_succeed : handle_withdrawals env two child ≡ (ok tt, after_two)
unfolding handle_withdrawals save_withdrawal insert_leaf save_nodes lt_wf ℕ_discrete
two_succeed = refl

handle_withdrawals-sequences_example :
    (sequences two ≡ range (20 + 1) two)
    × (t' : TreeInfo) × (after_two.mk.working_tree ≡ some t')
    × (t'.leaf_count ≡ 1 + length two)
    × (t'.start_leaf_index ≡ 20)
    × (t'.index ≡ 3)
handle_withdrawals-sequences_example =
    handle_withdrawals-sequences env two child after_two tree refl (omega arith) two_succeed

abbrev header : Header
header = record { height = 9; time = 1010 }

abbrev after_tree : Child Memory Memory ℕ
after_tree = (handle_tree env 9 [] header child).1

tree_proposes : handle_tree env 9 [] header child ≡ (ok (some []), after_tree)
unfolding handle_tree tree_height_of save_finalized_tree save_nodes lt_wf ℕ_discrete
    save_working_tree
tree_proposes = refl

handle_tree-proposes_example :
    (child.finalizing_block_height ≡ 0)
    × (header.height ≡ 9)
    × (child.next_output_time < header.time)
    × (after_tree.next_output_time ≡ header.time + 90 * 2 / 3)
    × (after_tree.finalizing_block_height ≡ 0)
handle_tree-proposes_example =
    handle_tree-proposes env 9 [] header child after_tree [] tree_proposes

tree_saved : get_working_tree env.saved env.tree_json child.db (u64 (10 + 2 ^ 64 - 1)) ≡ ok tree
unfolding get_working_tree
tree_saved = refl

prepare_tree-Continues_example :
    (t : TreeInfo) × (prepare_tree env 10 child
      ≡ (ok tt, record child { mk = record { working_tree = some t } }))
    × Continues tree t
prepare_tree-Continues_example =
    prepare_tree-Continues env 10 child tree tree_saved (omega arith) (omega arith) (omega arith)
      (omega arith)
