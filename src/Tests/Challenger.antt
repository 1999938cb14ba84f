-- ===== src/Tests/Challenger.antt =====
-- A deposit that agrees, one that does not, and one that has run out.
use opinit_bots.Base.{◌↔◌, if◌then◌else◌, ◌≡◌, refl, true, false, List, [], ◌∷◌, some, none}
use opinit_bots.Base.Result.{ok}
use opinit_bots.Challenger.Event.{
  ChallengeEvent, Challenge, ChallengeId, new_deposit, id_of, equal, set_timeout, event_type_string,
  type_of, event_time, is_timeout,
}
use opinit_bots.Challenger.Event.Content.{content, equal_iff}
use opinit_bots.Challenger.Pending.{ChallengeEventHandler, get_pending_event}
use opinit_bots.Challenger.Pending.Laws.{get_pending_event_updated, last_with, or_else, IsKeyed}
use opinit_bots.Challenger.Pending.{
  set_pending_events, delete_pending_events, any_id, same_id, lookup, insert,
}
use opinit_bots.Challenger.Check.{
  check_value, check_timeout, is_due, timeout_challenge, cleared_with, mismatch_challenge,
}
use opinit_bots.Challenger.Check.Values.{check_value_exact, ids, event_ids, disagreeing}
use opinit_bots.Challenger.Check.Timeouts.{check_timeout_once}

abbrev pub good : ChallengeEvent
good = new_deposit 1 10 (1 ∷ []) (2 ∷ []) (3 ∷ []) (4 ∷ []) 100

abbrev pub bad : ChallengeEvent
bad = new_deposit 2 11 (1 ∷ []) (2 ∷ []) (3 ∷ []) (4 ∷ []) 200

abbrev pub bad' : ChallengeEvent
bad' = new_deposit 2 11 (1 ∷ []) (2 ∷ []) (3 ∷ []) (5 ∷ []) 200

abbrev pub first_id : ChallengeId
first_id = record { type = 0; id = 1 }

abbrev pub second_id : ChallengeId
second_id = record { type = 0; id = 2 }

abbrev pub handler : ChallengeEventHandler
handler = record {
  pending_events = (first_id, good) ∷ (second_id, bad) ∷ [];
  timeout_duration = 50;
}

handler-IsKeyed : IsKeyed handler.pending_events
unfolding id_of new_deposit
handler-IsKeyed = (refl, (refl, tt))

good_found : get_pending_event (id_of good) handler ≡ some good
unfolding get_pending_event lookup same_id id_of new_deposit
good_found = refl

bad_found : get_pending_event (id_of bad') handler ≡ some bad
unfolding get_pending_event lookup same_id id_of new_deposit
bad_found = refl

check_value_exact_example :
    (challenges : List Challenge) × (processed : List ChallengeEvent) × (check_value handler
        (good ∷ bad' ∷ [])
      ≡ ok (challenges, processed))
    × (ids challenges ≡ event_ids (disagreeing handler (good ∷ bad' ∷ [])))
check_value_exact_example =
    check_value_exact handler (good ∷ bad' ∷ []) handler-IsKeyed
      ((good, good_found), ((bad, bad_found), tt))

checked :
    check_value handler (good ∷ bad' ∷ []) ≡ ok (mismatch_challenge bad bad' ∷ [], good ∷ bad ∷ [])
unfolding check_value cleared_with equal get_pending_event lookup same_id id_of new_deposit type_of
    event_time event_type_string
checked = refl

abbrev marked : ChallengeEventHandler
marked = record {
  pending_events = (first_id, set_timeout good) ∷ (second_id, bad) ∷ [];
  timeout_duration = 50;
}

timed :
    check_timeout 151 (good ∷ bad ∷ []) handler
    ≡ (timeout_challenge 151 good ∷ [], set_timeout good ∷ [], marked)
unfolding check_timeout is_due set_pending_events lookup insert same_id id_of new_deposit
    set_timeout is_timeout event_time type_of event_type_string
timed = refl

timed_id : any_id (id_of good) (set_timeout good ∷ []) ≡ true
unfolding any_id same_id id_of set_timeout new_deposit
timed_id = refl

timed_found : get_pending_event (id_of good) marked ≡ some (set_timeout good)
unfolding get_pending_event lookup same_id id_of new_deposit
timed_found = refl

check_timeout_once_example : is_due 50 1000 (set_timeout good) ≡ false
check_timeout_once_example =
    check_timeout_once 151 1000 (good ∷ bad ∷ []) (set_timeout good ∷ [])
      (timeout_challenge 151 good ∷ []) handler marked (id_of good) (set_timeout good) timed
      timed_id timed_found

equal_iff_example : (equal bad bad' ≡ ok true) ↔ (content bad ≡ content bad')
equal_iff_example = equal_iff bad bad'

get_pending_event_updated_example :
    (get_pending_event first_id (set_pending_events (bad' ∷ set_timeout good ∷ []) handler)
      ≡ or_else
          (last_with first_id (bad' ∷ set_timeout good ∷ []))
          (get_pending_event first_id handler))
    × (get_pending_event first_id (delete_pending_events (bad' ∷ set_timeout good ∷ []) handler) ≡ (
        if any_id first_id (bad' ∷ set_timeout good ∷ [])
        then none
        else get_pending_event first_id handler))
get_pending_event_updated_example =
    get_pending_event_updated (bad' ∷ set_timeout good ∷ []) first_id handler
