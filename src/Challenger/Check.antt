-- ===== src/Challenger/Check.antt =====
-- challenger/eventhandler/challenge.go: the pending events against what the other chain shows, and
-- against the clock.
pub mod Values
pub mod Timeouts
use opinit_bots.Base.{
  ℕ, ◌+◌, ◌%◌, ◌^◌, Bool, true, false, not, ◌&&◌, ◌==◌, ltb, Option, none, some, List, [], ◌∷◌,
  ◌++◌, if◌then◌else◌,
}
use opinit_bots.Base.Result.{Result, ok, err, ◌>>=◌}
use opinit_bots.Challenger.Event.{
  ChallengeId, ChallengeEvent, Challenge, mismatch, timed_out, EventError, ignore_and_try_later,
  type_of, id_of, event_time, event_type_string, equal, is_timeout, set_timeout, event_type_oracle,
  event_type_oracle_relay,
}
use opinit_bots.Challenger.Pending.{
  ChallengeEventHandler, Pending, lookup, insert, any_id, get_pending_event,
  get_oracle_pending_events, get_oracle_relay_pending_events,
}

-- The challenge that a pair of events that differ raises.
abbrev pub mismatch_challenge : ChallengeEvent → ChallengeEvent → Challenge
mismatch_challenge pending event = record {
  event_type = event_type_string (type_of event);
  id = id_of event;
  log = mismatch pending event;
  time = event_time event;
}

-- The events that are cleared with one event, besides the pending event of its own.
unfoldable pub cleared_with : ChallengeEvent → ChallengeEventHandler → List ChallengeEvent
cleared_with event ch =
    (if type_of event == event_type_oracle
      then get_oracle_pending_events (id_of event).id ch
      else [])
    ++ (if type_of event == event_type_oracle_relay
        then get_oracle_relay_pending_events (id_of event).id ch
        else [])

-- The challenges, and the events that are done with. The first event that is not pending ends the
-- check with an error.
unfoldable pub check_value :
    ChallengeEventHandler
    → List ChallengeEvent
    → Result EventError (List Challenge × List ChallengeEvent)
unfolding cleared_with
check_value ch [] = ok ([], [])
check_value ch (event ∷ events) =
    let rest = check_value ch events in
    elim (get_pending_event (id_of event) ch) [
      | none ↦ err ignore_and_try_later
      | some pending ↦ do
        same ← equal pending event
        (challenges, processed) ← rest
        ok (
          if same then challenges else mismatch_challenge pending event ∷ challenges,
          (pending ∷ cleared_with event ch) ++ processed,
        )
    ]

-- `prevId.Id--`, on a uint64.
unfoldable pub get_prev_pending_event :
    ChallengeEvent → ChallengeEventHandler → Option ChallengeEvent
get_prev_pending_event event ch =
    let id = id_of event in
    get_pending_event (record id { id = (id.id + 18446744073709551615) % 2 ^ 64 }) ch

abbrev pub timeout_challenge : ℕ → ChallengeEvent → Challenge
timeout_challenge block_time event = record {
  event_type = event_type_string (type_of event);
  id = id_of event;
  log = timed_out event;
  time = block_time;
}

-- `!EventTime().IsZero() && !IsTimeout() && blockTime.After(timeout)`
unfoldable pub is_due : ℕ → ℕ → ChallengeEvent → Bool
is_due timeout_duration block_time event =
    not (event_time event == 0)
    && not (is_timeout event)
    && ltb (event_time event + timeout_duration) block_time

-- SetTimeout on an event that the map holds is seen in the map, which holds the same object.
abbrev pub mark_in : ChallengeEvent → Pending → Pending
mark_in event m = elim (lookup (id_of event) m) [
  | none ↦ m
  | some held ↦ insert (id_of event) (set_timeout event) m
]

abbrev pub mark_pending : ChallengeEvent → ChallengeEventHandler → ChallengeEventHandler
mark_pending event ch = record ch { pending_events = mark_in event ch.pending_events }

-- The loop, with the events that it has challenged. Events with the same identifier are one object: once
-- it is challenged, its flag is set wherever it stands.
unfoldable pub timeout_loop :
    (challenged : List ChallengeEvent)
    → ℕ
    → List ChallengeEvent
    → ChallengeEventHandler
    → List Challenge × List ChallengeEvent × ChallengeEventHandler
unfolding is_due any_id lookup insert
timeout_loop challenged block_time [] ch = ([], [], ch)
timeout_loop challenged block_time (event ∷ events) ch =
    let due =
      not (any_id (id_of event) challenged) && is_due ch.timeout_duration block_time event in
    let challenged' = if due then event ∷ challenged else challenged in
    let ch' = if due then mark_pending event ch else ch in
    let (challenges, processed, ch'') = timeout_loop challenged' block_time events ch' in
    if due
    then (timeout_challenge block_time event ∷ challenges, set_timeout event ∷ processed, ch'')
    else (challenges, processed, ch'')

unfoldable pub check_timeout :
    ℕ
    → List ChallengeEvent
    → ChallengeEventHandler
    → List Challenge × List ChallengeEvent × ChallengeEventHandler
unfolding timeout_loop
check_timeout block_time events ch = timeout_loop [] block_time events ch
