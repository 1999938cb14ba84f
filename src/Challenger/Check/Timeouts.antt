-- ===== src/Challenger/Check/Timeouts.antt =====
-- CheckTimeout: which events it challenges, and what it leaves in the map.
use opinit_bots.Base.{
  ℕ, ◌+◌, ◌<◌, ◌≡◌, ◌≢◌, Bool, true, false, not, ◌&&◌, ◌||◌, arith, some, List, [], ◌∷◌, Bool-cases,
  Option-cases, subst, ◌⊎◌, inl, inr, sym, ◌∙◌,
}
use opinit_bots.Challenger.Event.{
  ChallengeEvent, Challenge, ChallengeId, id_of, event_time, set_timeout, is_timeout,
}
use opinit_bots.Challenger.Event.Content.{id_of-set_timeout, is_timeout-set_timeout}
use opinit_bots.Challenger.Pending.{
  ChallengeEventHandler, same_id, any_id, lookup, get_pending_event,
}
use opinit_bots.Challenger.Pending.Laws.{lookup-insert, same_id→eq, same_id_refl}
use opinit_bots.Challenger.Check.{check_timeout, timeout_loop, mark_pending, is_due}

-- The event has a time, its flag is not set, and its time has run out.
abbrev pub HasRunOut : (timeout_duration block_time : ℕ) → ChallengeEvent → Type 0
HasRunOut timeout_duration block_time event =
    (event_time event ≢ 0)
    × (is_timeout event ≡ false)
    × (event_time event + timeout_duration < block_time)

-- An event of the list has the property.
abbrev pub Some : (ChallengeEvent → Type 0) → List ChallengeEvent → Type 0
Some P [] = ⊥
Some P (event ∷ events) = P event ⊎ Some P events

-- No two events of the list have the same identifier.
abbrev pub HasNoRepeat : List ChallengeEvent → Type 0
HasNoRepeat [] = Unit
HasNoRepeat (event ∷ events) = (any_id (id_of event) events ≡ false) × HasNoRepeat events

-- What the map holds under the identifier has the flag.
abbrev IsMarked : ChallengeId → ChallengeEventHandler → Type 0
IsMarked k ch =
    (event : ChallengeEvent) → lookup k ch.pending_events ≡ some event → is_timeout event ≡ true

mark_pending-IsMarked :
    (event : ChallengeEvent) (ch : ChallengeEventHandler)
    → IsMarked (id_of event) (mark_pending event ch)
mark_pending-IsMarked event ch e found =
    elim (Option-cases (lookup (id_of event) ch.pending_events)) [
      | inl missing ↦ ground (arith, missing, found)
      | inr (held, there) ↦ ground (
        arith,
        lookup-insert (id_of event) (id_of event) (set_timeout event) ch.pending_events,
        same_id_refl (id_of event),
        is_timeout-set_timeout event,
      )
    ]

mark_pending-kept :
    (k : ChallengeId) (event : ChallengeEvent) (ch : ChallengeEventHandler)
    → IsMarked k ch
    → IsMarked k (mark_pending event ch)
mark_pending-kept k event ch before e found =
    elim (Option-cases (lookup (id_of event) ch.pending_events)) [
      | inl missing ↦ before e (ground (arith, missing, found))
      | inr (held, there) ↦ elim (Bool-cases (same_id (id_of event) k)) [
        | inl same ↦ ground (
          arith,
          lookup-insert (id_of event) k (set_timeout event) ch.pending_events,
          is_timeout-set_timeout event,
        )
        | inr other ↦
            before e
              (ground (arith, lookup-insert (id_of event) k (set_timeout event) ch.pending_events))
      ]
    ]

module _ (t : ℕ) where
  abbrev due_in : List ChallengeEvent → ChallengeEventHandler → ChallengeEvent → Bool
  due_in challenged ch event =
      not (any_id (id_of event) challenged) && is_due ch.timeout_duration t event

  timeout_loop-kept :
      (k : ChallengeId) (challenged events : List ChallengeEvent) (ch : ChallengeEventHandler)
      → IsMarked k ch
      → IsMarked k (timeout_loop challenged t events ch).2
  unfolding timeout_loop
  timeout_loop-kept k challenged [] ch before = before
  timeout_loop-kept k challenged (event ∷ events) ch before =
      elim (Bool-cases (due_in challenged ch event)) [
        | inl due ↦ rw due (
            timeout_loop-kept k (event ∷ challenged) events (mark_pending event ch)
              (mark_pending-kept k event ch before))
        | inr skip ↦ rw skip (timeout_loop-kept k challenged events ch before)
      ]

  timeout_loop-IsMarked :
      (k : ChallengeId) (challenged events : List ChallengeEvent) (ch : ChallengeEventHandler)
      → any_id k (timeout_loop challenged t events ch).1 ≡ true
      → IsMarked k (timeout_loop challenged t events ch).2
  unfolding timeout_loop any_id
  timeout_loop-IsMarked k challenged [] ch found = absurd (ground arith)
  timeout_loop-IsMarked k challenged (event ∷ events) ch found =
      elim (Bool-cases (due_in challenged ch event)) [
        | inr skip ↦ rw skip (timeout_loop-IsMarked k challenged events ch (rw skip at found))
        | inl due ↦
            let later = event ∷ challenged in
            let marked = mark_pending event ch in
            let found' : (same_id (id_of (set_timeout event)) k
                  || any_id k (timeout_loop later t events marked).1)
                ≡ true =
              rw due at found in
            elim (Bool-cases (same_id (id_of (set_timeout event)) k)) [
              | inl same ↦
                  let own : id_of event ≡ k =
                    sym (id_of-set_timeout event) ∙ same_id→eq (id_of (set_timeout event)) k same in
                  rw due (
                    timeout_loop-kept k later events marked
                      (subst (λ j. IsMarked j marked) own (mark_pending-IsMarked event ch)))
              | inr other ↦
                  rw due
                    (timeout_loop-IsMarked k later events marked (ground (arith, found', other)))
            ]
      ]

-- Once CheckTimeout has run, an event that it has challenged and that is still in the map is not due
-- any more, whatever the time of the later block.
pub check_timeout_once :
    (block_time later : ℕ) (events processed : List ChallengeEvent) (challenges : List Challenge)
    (ch ch' : ChallengeEventHandler) (k : ChallengeId) (event : ChallengeEvent)
    → check_timeout block_time events ch ≡ (challenges, processed, ch')
    → any_id k processed ≡ true
    → get_pending_event k ch' ≡ some event
    → is_due ch'.timeout_duration later event ≡ false
unfolding is_due check_timeout get_pending_event
check_timeout_once block_time later events processed challenges ch ch' k event run p found =
    let p' : any_id k (timeout_loop [] block_time events ch).1 ≡ true =
      (λ i. any_id k (run i).1) ∙ p in
    let found' : lookup k (timeout_loop [] block_time events ch).2.pending_events ≡ some event =
      (λ i. lookup k (run i).2.pending_events) ∙ found in
    ground (arith, timeout_loop-IsMarked block_time k [] events ch p' event found')
