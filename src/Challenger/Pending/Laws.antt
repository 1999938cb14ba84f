-- ===== src/Challenger/Pending/Laws.antt =====
-- The map of pending events as a function of identifiers.
use opinit_bots.Base.{true, ◌≡◌, ◌↔◌, refl, Option, none, some, List, [], ◌∷◌, if◌then◌else◌, arith}
use opinit_bots.Challenger.Event.{ChallengeId, ChallengeEvent, id_of}
use opinit_bots.Challenger.Pending.{
  Pending, ChallengeEventHandler, same_id, lookup, insert, remove, remove_all, get_pending_event,
  any_id, set_pending_event, set_pending_events, delete_pending_event, delete_pending_events,
}

pub same_id→eq : (a b : ChallengeId) → same_id a b ≡ true → a ≡ b
unfolding same_id
same_id→eq a b e = ground arith

pub same_id_refl : (a : ChallengeId) → same_id a a ≡ true
unfolding same_id
same_id_refl a = ground arith

pub same_id_iff : (a b : ChallengeId) → (same_id a b ≡ true) ↔ (a ≡ b)
same_id_iff a b = (same_id→eq a b, λ e. rw e (same_id_refl b))

pub lookup-insert :
    (k j : ChallengeId) (v : ChallengeEvent) (m : Pending)
    → lookup j (insert k v m) ≡ (if same_id k j then some v else lookup j m)
unfolding lookup insert
lookup-insert k j v [] = refl
lookup-insert k j v ((i, w) ∷ m) =
    ground (arith, same_id_iff k j, same_id_iff i k, same_id_iff i j, lookup-insert k j v m)

pub lookup-remove :
    (k j : ChallengeId) (m : Pending)
    → lookup j (remove k m) ≡ (if same_id k j then none else lookup j m)
unfolding lookup remove
lookup-remove k j [] = ground arith
lookup-remove k j ((i, w) ∷ m) =
    ground (arith, same_id_iff k j, same_id_iff i k, same_id_iff i j, lookup-remove k j m)

pub lookup-remove_all :
    (events : List ChallengeEvent) (k : ChallengeId) (m : Pending)
    → lookup k (remove_all events m) ≡ (if any_id k events then none else lookup k m)
unfolding remove_all any_id
lookup-remove_all [] k m = refl
lookup-remove_all (event ∷ events) k m =
    ground
      (arith, lookup-remove_all events k (remove (id_of event) m), lookup-remove (id_of event) k m)

-- After DeletePendingEvents, a lookup finds nothing under the identifiers of the given events, and
-- under any other identifier what it found before.
pub get_pending_event-delete_pending_events :
    (events : List ChallengeEvent) (k : ChallengeId) (ch : ChallengeEventHandler)
    → get_pending_event k (delete_pending_events events ch)
      ≡ (if any_id k events then none else get_pending_event k ch)
unfolding get_pending_event delete_pending_events any_id
get_pending_event-delete_pending_events [] k ch = refl
get_pending_event-delete_pending_events (event ∷ events) k ch = ground (
  arith,
  get_pending_event-delete_pending_events events k (delete_pending_event (id_of event) ch),
  lookup-remove (id_of event) k ch.pending_events,
)

-- The last event of a list with an identifier.
unfoldable pub last_with : ChallengeId → List ChallengeEvent → Option ChallengeEvent
last_with k [] = none
last_with k (event ∷ events) = elim (last_with k events) [
  | some later ↦ some later
  | none ↦ if same_id (id_of event) k then some event else none
]

abbrev pub or_else : Option ChallengeEvent → Option ChallengeEvent → Option ChallengeEvent
or_else (some a) b = some a
or_else none b = b

-- After SetPendingEvents, a lookup finds the last of the given events with the identifier, and what it
-- found before where there is none.
pub get_pending_event-set_pending_events :
    (events : List ChallengeEvent) (k : ChallengeId) (ch : ChallengeEventHandler)
    → get_pending_event k (set_pending_events events ch)
      ≡ or_else (last_with k events) (get_pending_event k ch)
unfolding get_pending_event set_pending_events last_with
get_pending_event-set_pending_events [] k ch = refl
get_pending_event-set_pending_events (event ∷ events) k ch = ground (
  arith,
  get_pending_event-set_pending_events events k (set_pending_event event ch),
  lookup-insert (id_of event) k event ch.pending_events,
)

-- After SetPendingEvents a lookup finds the last given event with the identifier, and what was there before
-- where there is none. After DeletePendingEvents it finds nothing under the identifiers of the given
-- events, and the same as before under any other.
pub get_pending_event_updated :
    (events : List ChallengeEvent) (k : ChallengeId) (ch : ChallengeEventHandler)
    → (get_pending_event k (set_pending_events events ch)
        ≡ or_else (last_with k events) (get_pending_event k ch))
      × (get_pending_event k (delete_pending_events events ch)
          ≡ (if any_id k events then none else get_pending_event k ch))
get_pending_event_updated events k ch = (
  get_pending_event-set_pending_events events k ch,
  get_pending_event-delete_pending_events events k ch,
)

-- Each event is stored under its own identifier.
abbrev pub IsKeyed : Pending → Type 0
IsKeyed [] = Unit
IsKeyed ((k, v) ∷ m) = (id_of v ≡ k) × IsKeyed m

pub lookup-IsKeyed :
    (k : ChallengeId) (v : ChallengeEvent) (m : Pending)
    → IsKeyed m
    → lookup k m ≡ some v
    → id_of v ≡ k
unfolding lookup
lookup-IsKeyed k v [] keyed e = cc
lookup-IsKeyed k v ((j, w) ∷ m) keyed e =
    ground (arith, same_id_iff j k, lookup-IsKeyed k v m keyed.1)

pub insert-IsKeyed : (v : ChallengeEvent) (m : Pending) → IsKeyed m → IsKeyed (insert (id_of v) v m)
unfolding insert
insert-IsKeyed v [] keyed = (refl, tt)
insert-IsKeyed v ((j, w) ∷ m) keyed = ground (arith, insert-IsKeyed v m keyed.1)

pub remove-IsKeyed : (k : ChallengeId) (m : Pending) → IsKeyed m → IsKeyed (remove k m)
unfolding remove
remove-IsKeyed k [] keyed = tt
remove-IsKeyed k ((j, w) ∷ m) keyed = ground (arith, remove-IsKeyed k m keyed.1)
