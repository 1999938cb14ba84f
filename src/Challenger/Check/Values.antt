-- ===== src/Challenger/Check/Values.antt =====
-- CheckValue: when it succeeds, and when it raises nothing.
use opinit_bots.Base.{
  ite, if◌then◌else◌, ◌≡◌, refl, Bool, arith, All, none, some, List, [], ◌∷◌, ◌++◌, Option-cases,
  inl, inr, ◌∙◌,
}
use opinit_bots.Base.Result.{◌>>=◌, ok, Result-cases}
use opinit_bots.Challenger.Event.{ChallengeEvent, Challenge, equal, id_of, ChallengeId}
use opinit_bots.Challenger.Event.Content.{Content-discrete, content, equal_iff, equal_total}
use opinit_bots.Challenger.Pending.{ChallengeEventHandler, get_pending_event}
use opinit_bots.Challenger.Pending.Laws.{IsKeyed, lookup-IsKeyed}
use opinit_bots.Challenger.Check.{check_value, cleared_with, mismatch_challenge}

abbrev pub ids : List Challenge → List ChallengeId
ids [] = []
ids (c ∷ cs) = c.id ∷ ids cs

abbrev pub event_ids : List ChallengeEvent → List ChallengeId
event_ids [] = []
event_ids (e ∷ es) = id_of e ∷ event_ids es

module _ (ch : ChallengeEventHandler) where
  -- The event is pending.
  abbrev pub IsPending : ChallengeEvent → Type 0
  IsPending event = (pending : ChallengeEvent) × (get_pending_event (id_of event) ch ≡ some pending)

  -- The event is pending with the same content.
  abbrev pub Agrees : ChallengeEvent → Type 0
  Agrees event =
      (pending : ChallengeEvent) × (get_pending_event (id_of event) ch ≡ some pending)
      × (content pending ≡ content event)

  pending-comparable :
      (event pending : ChallengeEvent)
      → IsKeyed ch.pending_events
      → get_pending_event (id_of event) ch ≡ some pending
      → (same : Bool) × (equal pending event ≡ ok same)
  unfolding get_pending_event
  pending-comparable event pending keyed found =
      equal_total pending event (lookup-IsKeyed (id_of event) pending ch.pending_events keyed found)

  -- One event whose pending event is found, before the rest.
  check_value-some :
      (event pending : ChallengeEvent) (events : List ChallengeEvent) (same : Bool)
      → get_pending_event (id_of event) ch ≡ some pending
      → equal pending event ≡ ok same
      → check_value ch (event ∷ events) ≡ (do
        (challenges, processed) ← check_value ch events
        ok (
          if same then challenges else mismatch_challenge pending event ∷ challenges,
          (pending ∷ cleared_with event ch) ++ processed,
        ))
  unfolding check_value
  check_value-some event pending events same found compared = rw (found, check_value, compared) refl

  -- If each pending event is stored under its own identifier and every event of the list is pending,
  -- CheckValue succeeds: neither error can occur.
  pub check_value_total :
      (events : List ChallengeEvent)
      → IsKeyed ch.pending_events
      → All IsPending events
      → (r : List Challenge × List ChallengeEvent) × (check_value ch events ≡ ok r)
  check_value_total [] keyed all = (([], []), unfold check_value in refl)
  check_value_total (event ∷ events) keyed (here, there) =
      let (same, compared) = pending-comparable event here.0 keyed here.1 in
      let (r, run) = check_value_total events keyed there in
      (
        (
          if same then r.0 else mismatch_challenge here.0 event ∷ r.0,
          (here.0 ∷ cleared_with event ch) ++ r.1,
        ),
        check_value-some event here.0 events same here.1 compared ∙ rw run refl,
      )

  -- The events whose pending event has another content.
  unfoldable pub disagreeing : List ChallengeEvent → List ChallengeEvent
  disagreeing [] = []
  disagreeing (event ∷ events) =
      let rest = disagreeing events in
      elim (get_pending_event (id_of event) ch) [
        | none ↦ rest
        | some pending ↦
            ite (Content-discrete (content pending) (content event)) rest (event ∷ rest)
      ]

  -- If CheckValue succeeds, its challenges are, in order, for exactly the events of the list whose
  -- pending event has another content.
  pub check_value_challenges :
      (events processed : List ChallengeEvent) (challenges : List Challenge)
      → check_value ch events ≡ ok (challenges, processed)
      → ids challenges ≡ event_ids (disagreeing events)
  unfolding check_value disagreeing
  check_value_challenges [] processed challenges e = ground arith
  check_value_challenges (event ∷ events) processed challenges e =
      let later = check_value_challenges events in
      elim (Option-cases (get_pending_event (id_of event) ch)) [
        | inl missing ↦ absurd (ground arith)
        | inr (pending, found) ↦ elim (Result-cases (equal pending event)) [
          | inr (failed, compared) ↦ absurd (ground arith)
          | inl (same, compared) ↦ elim (Result-cases (check_value ch events)) [
            | inr (failed, run) ↦ absurd (ground arith)
            | inl (r, run) ↦ ground (arith, equal_iff pending event, later r.1 r.0)
          ]
        ]
      ]

  -- If each pending event is stored under its own identifier and every event of the list is pending, then
  -- CheckValue succeeds, and its challenges are, in order, for exactly the events of the list whose pending
  -- event has another content.
  pub check_value_exact :
      (events : List ChallengeEvent)
      → IsKeyed ch.pending_events
      → All IsPending events
      → (challenges : List Challenge) × (processed : List ChallengeEvent) × (check_value ch events
          ≡ ok (challenges, processed))
        × (ids challenges ≡ event_ids (disagreeing events))
  check_value_exact events keyed all =
      let ((challenges, processed), run) = check_value_total events keyed all in
      (challenges, processed, run, check_value_challenges events processed challenges run)
