-- ===== src/Tests/Host.antt =====
-- The end of a block of the host chain with one output, on stores that only count their writes.
use opinit_bots.Base.{ℕ, ◌+◌, ◌≡◌, ◌⊎◌, false, [], ◌∷◌, ◌++◌, none, some}
use opinit_bots.Base.Result.{ok, err}
use opinit_bots.Db.{Database, not_found}
use opinit_bots.Provider.Parse.{Readers}
use opinit_bots.Challenger.Event.{ChallengeEvent, new_output}
use opinit_bots.Challenger.Pending.{
  ChallengeEventHandler, get_unprocessed_pending_events, delete_pending_events, set_pending_event,
}
use opinit_bots.Challenger.Check.{check_timeout}
use opinit_bots.Challenger.Host.{Environment, Host, HostError, end_block_handler, set_last_output}
use opinit_bots.Challenger.Host.Published.{prev_events, end_block_handler-publishes}

abbrev counting : Database ℕ
counting = record {
  get = λ s key. err not_found;
  set = λ s key value. ok (s + 1);
  delete = λ s key. ok (s + 1);
  seek_prev_inclusive_key = λ s prefix key. err not_found;
}

abbrev pub readers : Readers
readers = record {
  parse_uint = λ b. none;
  parse_int = λ b. none;
  parse_bool = λ b. none;
  decode_string = λ b. none;
  coin_amount = λ b. none;
  is_chain_type = λ b. false;
}

abbrev host_env : Environment ℕ
host_env = record {
  staged = counting;
  for_child = counting;
  for_challenger = counting;
  reset = λ s. 0;
  commit = λ s. ok s;
  set_synced_height = λ height s. ok (s + 1);
  internal_status_key = 1 ∷ [];
  status_json = record { marshal = λ status. some []; unmarshal = λ b. none };
  event_json = record { marshal = λ event. some []; unmarshal = λ type b. none };
  challenge_json = record { marshal = λ challenge. some []; unmarshal = λ b. none };
  bridge_id = 1;
  readers = readers;
  coin_string = λ denom amount. none;
  oracle_checksum = λ b. b;
  query_oracle_price_hash = λ height. none;
}

abbrev proposed : ChallengeEvent
proposed = new_output 20 2 [] 90

-- The output before it is pending, and one before that, which has run out of time.
abbrev watching : ChallengeEventHandler
watching = set_pending_event (new_output 15 1 [] 80) (
    set_pending_event (new_output 10 0 [] 50)
      (record { pending_events = []; timeout_duration = 30 }))

abbrev host : Host ℕ
host = record {
  stage = 0;
  event_handler = watching;
  initial_l1_sequence = 1;
  event_queue = proposed ∷ [];
  output_pending_event_queue = proposed ∷ [];
  last_output_index = 2;
  last_output_time = 90;
  oracle_enabled = false;
  proposer = [];
  challenger = [];
  child_events = [];
  sent = [];
}

end_block_handler-publishes_example :
    let (r, h') = end_block_handler host_env 7 90 host in
    let prev = prev_events host.output_pending_event_queue host.event_handler in
    let (challenges, timed_out, handler) =
      check_timeout 90
        (get_unprocessed_pending_events prev host.event_handler)
        host.event_handler in
    ((e : HostError) × (r ≡ err e) × (h'.child_events ≡ host.child_events) × (h'.sent ≡ host.sent))
    ⊎ ((r ≡ ok tt)
        × (h'.child_events ≡ host.child_events ++ host.event_queue)
        × (h'.sent ≡ host.sent ++ challenges)
        × (h'.event_handler
            ≡ set_last_output host.output_pending_event_queue
                (delete_pending_events (timed_out ++ prev) handler)))
end_block_handler-publishes_example = end_block_handler-publishes host_env 7 90 host
