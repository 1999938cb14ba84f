-- ===== src/Tests/Watcher.antt =====
-- The end of a block of the rollup, with an event that agrees and one that does not.
use opinit_bots.Base.{◌≡◌, ◌⊎◌, arith, true, false, some, none, List, [], ◌∷◌, ◌++◌}
use opinit_bots.Base.Result.{ok, err}
use opinit_bots.Merkle.{no_siblings}
use opinit_bots.Challenger.Event.{ChallengeEvent, Challenge}
use opinit_bots.Challenger.Pending.{
  ChallengeEventHandler, get_unprocessed_pending_events, set_pending_events, delete_pending_events,
}
use opinit_bots.Challenger.Check.{check_value, check_timeout}
use opinit_bots.Challenger.Keys.{
  parse_pending_event, prefixed_pending_event, parse-prefixed, parse_challenge, prefixed_challenge,
}
use opinit_bots.Challenger.Child.{Environment, Child, ChildError, Header, end_block_handler}
use opinit_bots.Challenger.Child.Sending.{block_events, end_block_handler-sent}
use opinit_bots.Tests.Store.{memory, Memory}
use opinit_bots.Tests.Challenger.{good, bad', handler, first_id}

abbrev env : Environment Memory
env = record {
  staged = memory;
  for_challenger = memory;
  commit = λ s. ok s;
  bridge_id = 1;
  version = 1;
  generate_withdrawal_hash = λ id sequence from to denom amount. sequence ∷ amount ∷ [];
  generate_node_hash = λ a b. [];
  generate_output_root = λ version root block_id. root;
  query_synced_output = λ id index. err true;
  set_synced_height = λ height s. ok s;
  tree_json = record { marshal = λ t. some []; unmarshal = λ b. none };
  finalized_json = record { marshal = λ t. some []; unmarshal = λ b. none };
  event_json = record { marshal = λ e. some []; unmarshal = λ t b. none };
  challenge_json = record { marshal = λ c. some []; unmarshal = λ b. none };
}

abbrev watcher : Child Memory
watcher = record {
  mk = record {
    working_tree = some (record {
      version = 9;
      index = 3;
      leaf_count = 1;
      start_leaf_index = 20;
      last_siblings = no_siblings;
      done = false;
    });
  };
  stage = λ k. none;
  event_handler = handler;
  event_queue = good ∷ bad' ∷ [];
  next_output_time = 1000;
  finalizing_block_height = 12;
  last_output_time = 900;
  sent = [];
}

abbrev header : Header
header = record { height = 9; time = 1010 }

end_block_handler-sent_example :
    let (r, ch') = end_block_handler env header [] watcher in
    ((e : ChildError) × (r ≡ err e) × (ch'.sent ≡ []))
    ⊎ ((processed marked : List ChallengeEvent) × (mismatches timeouts : List Challenge)
        × (left : ChallengeEventHandler) × (r ≡ ok tt)
        × (check_value handler (block_events env header [] watcher) ≡ ok (mismatches, processed))
        × (check_timeout 1010 (get_unprocessed_pending_events processed handler) handler
            ≡ (timeouts, marked, left))
        × (ch'.sent ≡ [] ++ (mismatches ++ timeouts))
        × (ch'.event_handler ≡ set_pending_events marked (delete_pending_events processed left)))
end_block_handler-sent_example = end_block_handler-sent env header [] watcher

parse-prefixed_example :
    (parse_pending_event (prefixed_pending_event first_id) ≡ ok first_id)
    × (parse_challenge (prefixed_challenge 123456 first_id) ≡ ok (123456, first_id))
parse-prefixed_example = parse-prefixed 123456 first_id (omega arith) (omega arith)
