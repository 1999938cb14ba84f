-- ===== src/Tests/Records.antt =====
-- The stores that are swept, and the challenges that are recorded, on small stores in memory.
use opinit_bots.Base.{
  ℕ, ◌+◌, ◌≡◌, ◌≤◌, refl, true, false, [], ◌∷◌, ◌++◌, Option, none, some, if◌then◌else◌, length,
  arith,
}
use opinit_bots.Base.Bytes.{bytes_equal}
use opinit_bots.Base.Result.{Result, ok, err}
use opinit_bots.Db.{Bytes, Json}
use opinit_bots.Db.Keys.{append_splitter, splitter}
use opinit_bots.Db.Basic.{of_level, of_stage}
use opinit_bots.Db.Level.{LevelDb, prefixed_key, unprefixed_key, level_delete, with_prefix}
use opinit_bots.Db.Stage.{new_stage, commit, reset, stage_set, stage_delete}
use opinit_bots.Db.Iterator.{Entries, bytes_lt, under, has_prefix, seek, walk, iterate}
use opinit_bots.Db.Sweep.{sweep, delete_keys}
use opinit_bots.Db.Sweep.Ordered.{value_in, IsOrdered}
use opinit_bots.Merkle.Keys.{
  prefixed_finalized_tree_key, prefixed_working_tree_key, prefixed_node_key,
  prefixed_node_key_with_tree_index,
}
use opinit_bots.Merkle.Cleanup.{
  delete_future_finalized_trees, delete_future_working_trees, delete_future_nodes,
}
use opinit_bots.Provider.Start.{StartError, initialize_trees, next_sequence}
use opinit_bots.Provider.Start.Deleted.{StartsAt, initialize_trees-StartsAt}
use opinit_bots.Executor.Child.{TreeStart}
use opinit_bots.Broadcaster.Types.{pending_txs_prefix}
use opinit_bots.Batch.Store.{synced_height_key}
use opinit_bots.Node.Store.{delete_synced_height, delete_pending_txs, delete_processed_msgs}
use opinit_bots.Executor.Reset.{
  host_name, child_name, batch_name, da_name, reset_height, reset_heights_of, reset_heights,
}
use opinit_bots.Executor.Reset.Forgotten.{of_any, reset_heights-Cleared}
use opinit_bots.Challenger.Event.{Challenge, ChallengeEvent, timed_out}
use opinit_bots.Challenger.Latest.{sorted_slice}
use opinit_bots.Challenger.Latest.Sorted.{IsAscending}
use opinit_bots.Challenger.Latest.Greatest.{
  insert_all, last_five, insert_latest_challenges-last_five,
}
use opinit_bots.Challenger.Records.{save_challenge, delete_pending_challenge}
use opinit_bots.Challenger.Handler.{Challenger, challenge_handler, take_challenge, report_challenge}
use opinit_bots.Challenger.Handler.Loop.{NonePending, challenge_handler_lem}
use opinit_bots.Tests.Level.{Held, memory_level, memory_level-LevelLaws}

-- A store of some entries under the handle "p".
abbrev store_of : Entries → LevelDb Held
store_of entries = record {
  db = record { values = λ k. value_in k entries; listed = entries };
  prefix = 112 ∷ [];
}

abbrev entry : Bytes → Bytes → Bytes × Bytes
entry key value = (112 ∷ splitter ∷ key, value)

-- Two finalized trees, a node of the third tree, and two working trees.
abbrev trees : LevelDb Held
trees = store_of (
    entry (prefixed_finalized_tree_key 1) (1 ∷ [])
    ∷ entry (prefixed_finalized_tree_key 9) (2 ∷ [])
    ∷ entry (prefixed_node_key 3 0 0) (3 ∷ [])
    ∷ entry (prefixed_working_tree_key 6) (4 ∷ [])
    ∷ entry (prefixed_working_tree_key 7) (5 ∷ [])
    ∷ [])

trees-IsOrdered : IsOrdered memory_level trees.db
unfolding bytes_lt prefixed_finalized_tree_key prefixed_node_key prefixed_working_tree_key
trees-IsOrdered = record {
  listed = λ k. refl;
  sorted = (
    (refl, (refl, (refl, (refl, tt)))),
    ((refl, (refl, (refl, tt))), ((refl, (refl, tt)), ((refl, tt), (tt, tt)))),
  );
}

abbrev query : ℕ → Option ℕ
query height = some (height + 3)

abbrev start : Option TreeStart
start = some (record { processed_height = 6; start_output_index = 3; l2_sequence = 9 })

abbrev started : Result StartError (ℕ × Option TreeStart × LevelDb Held)
started = initialize_trees memory_level query true false 6 3 trees

abbrev store_after : {E A B : Type 0} → Result E (A × B × LevelDb Held) → LevelDb Held
store_after (ok (a, b, d)) = d
store_after (err e) = trees

initialize_trees-StartsAt_example :
    (query 6 ≡ some 9)
    × (start ≡ start)
    × StartsAt memory_level memory_level-LevelLaws 9 6 trees (store_after started)
unfolding initialize_trees next_sequence delete_future_finalized_trees delete_future_working_trees
    delete_future_nodes sweep delete_keys iterate under has_prefix seek walk bytes_lt prefixed_key
    unprefixed_key level_delete prefixed_finalized_tree_key prefixed_node_key
    prefixed_working_tree_key append_splitter bytes_equal prefixed_node_key_with_tree_index
initialize_trees-StartsAt_example =
    initialize_trees-StartsAt memory_level memory_level-LevelLaws query 6 3 9 start trees
      (store_after started) (omega arith) (omega arith) (omega arith) trees-IsOrdered refl

-- The synced height of the host, a pending transaction of the batch node, and a tree of the child.
abbrev nodes : LevelDb Held
nodes = store_of (
    entry (batch_name ++ splitter ∷ pending_txs_prefix ++ splitter ∷ 1 ∷ []) (1 ∷ [])
    ∷ entry (child_name ++ splitter ∷ prefixed_working_tree_key 6) (2 ∷ [])
    ∷ entry (host_name ++ splitter ∷ synced_height_key) (3 ∷ [])
    ∷ [])

nodes-IsOrdered : IsOrdered memory_level nodes.db
unfolding bytes_lt prefixed_working_tree_key
nodes-IsOrdered = record {
  listed = λ k. refl;
  sorted = ((refl, (refl, tt)), ((refl, tt), (tt, tt)));
}

abbrev handle_of : {E : Type 0} → Result E (LevelDb Held) → LevelDb Held
handle_of (ok d) = d
handle_of (err e) = nodes

abbrev forgotten : LevelDb Held
forgotten = handle_of (reset_heights memory_level nodes)

reset_heights-Cleared_example :
    memory_level.held forgotten.db (112 ∷ splitter ∷ host_name ++ splitter ∷ synced_height_key) ≡ (
      if of_any nodes
        (host_name ∷ child_name ∷ batch_name ∷ da_name ∷ [])
        (112 ∷ splitter ∷ host_name ++ splitter ∷ synced_height_key)
      then none
      else memory_level.held nodes.db (112 ∷ splitter ∷ host_name ++ splitter ∷ synced_height_key))
unfolding reset_heights reset_heights_of reset_height delete_synced_height delete_pending_txs
    delete_processed_msgs of_level with_prefix sweep delete_keys iterate under has_prefix seek walk
    bytes_lt prefixed_key unprefixed_key level_delete append_splitter bytes_equal
    prefixed_working_tree_key
reset_heights-Cleared_example =
    reset_heights-Cleared memory_level memory_level-LevelLaws nodes forgotten nodes-IsOrdered refl
      (112 ∷ splitter ∷ host_name ++ splitter ∷ synced_height_key)

-- An output challenge and an older one.
abbrev challenge_at : ℕ → ℕ → Challenge
challenge_at time id = record {
  event_type = "Output";
  id = record { type = 1; id = id };
  log = timed_out (
      ChallengeEvent.output (record {
        l2_block_number = 1;
        output_index = id;
        output_root = [];
        time = time;
        timeout = true;
      }));
  time = time;
}

abbrev older : Challenge
older = challenge_at 62135596800000000005 4

abbrev newer : Challenge
newer = challenge_at 62135596800000000009 3

insert_latest_challenges-last_five_example :
    (insert_all (newer ∷ []) (older ∷ []) ≡ last_five (sorted_slice (newer ∷ older ∷ [])))
    × IsAscending (insert_all (newer ∷ []) (older ∷ []))
    × (length (insert_all (newer ∷ []) (older ∷ [])) ≤ 5)
insert_latest_challenges-last_five_example =
    insert_latest_challenges-last_five (newer ∷ []) (older ∷ []) (tt, tt) (omega arith)

abbrev challenge_json : Json Challenge
challenge_json = record { marshal = λ c. some (c.id.id ∷ []); unmarshal = λ b. none }

abbrev challenger : Challenger Held
challenger = record { stage = new_stage (store_of []); latest_challenges = []; reported = [] }

abbrev challenger_of : {E A : Type 0} → Result E A × Challenger Held → Challenger Held
challenger_of (r, c) = c

abbrev taken : Challenger Held
taken =
    challenger_of (challenge_handler memory_level challenge_json (newer ∷ older ∷ []) challenger)

challenge_handler_lem_example :
    NonePending memory_level memory_level-LevelLaws challenge_json (newer ∷ older ∷ []) taken
    × (taken.reported ≡ newer ∷ older ∷ [])
    × (taken.latest_challenges ≡ insert_all [] (newer ∷ older ∷ []))
unfolding challenge_handler take_challenge reset report_challenge new_stage commit stage_set
    stage_delete of_stage save_challenge delete_pending_challenge
challenge_handler_lem_example =
    challenge_handler_lem memory_level memory_level-LevelLaws challenge_json (newer ∷ older ∷ [])
      challenger taken refl refl
