-- ===== src/Challenger/Pending.antt =====
-- challenger/eventhandler/pending_events.go and handler.go: the map of pending events. The map is
-- an association list; the order in which Go walks a map is not specified, and here is the list's.
pub mod Laws
use opinit_bots.Base.{
  ℕ, Bool, true, false, not, ◌&&◌, ◌||◌, ◌==◌, ltb, Option, none, some, List, [], ◌∷◌, ◌++◌,
  if◌then◌else◌,
}
use opinit_bots.Challenger.Event.{
  ChallengeId, ChallengeEvent, type_of, id_of, event_type_oracle, event_type_oracle_relay,
}

abbrev pub Pending : Type 0
Pending = List (ChallengeId × ChallengeEvent)

pub record ChallengeEventHandler : Type 0 where
  pub pending_events : Pending
  pub timeout_duration : ℕ

unfoldable pub same_id : ChallengeId → ChallengeId → Bool
same_id a b = a.type == b.type && a.id == b.id

-- An event of the list has the identifier.
unfoldable pub any_id : ChallengeId → List ChallengeEvent → Bool
unfolding same_id
any_id k [] = false
any_id k (event ∷ events) = same_id (id_of event) k || any_id k events

-- m[k], m[k] = v and delete(m, k)
unfoldable pub lookup : ChallengeId → Pending → Option ChallengeEvent
lookup k [] = none
lookup k ((j, v) ∷ m) = if same_id j k then some v else lookup k m

unfoldable pub insert : ChallengeId → ChallengeEvent → Pending → Pending
insert k v [] = (k, v) ∷ []
insert k v ((j, w) ∷ m) = if same_id j k then (k, v) ∷ m else (j, w) ∷ insert k v m

unfoldable pub remove : ChallengeId → Pending → Pending
remove k [] = []
remove k ((j, w) ∷ m) = let rest = remove k m in if same_id j k then rest else (j, w) ∷ rest

unfoldable pub get_pending_event : ChallengeId → ChallengeEventHandler → Option ChallengeEvent
unfolding lookup
get_pending_event id ch = lookup id ch.pending_events

unfoldable pub set_pending_event : ChallengeEvent → ChallengeEventHandler → ChallengeEventHandler
unfolding insert
set_pending_event event ch = record ch {
  pending_events = insert (id_of event) event ch.pending_events;
}

unfoldable pub set_pending_events :
    List ChallengeEvent → ChallengeEventHandler → ChallengeEventHandler
unfolding set_pending_event
set_pending_events [] ch = ch
set_pending_events (event ∷ events) ch = set_pending_events events (set_pending_event event ch)

unfoldable pub delete_pending_event : ChallengeId → ChallengeEventHandler → ChallengeEventHandler
unfolding remove
delete_pending_event id ch = record ch { pending_events = remove id ch.pending_events }

unfoldable pub delete_pending_events :
    List ChallengeEvent → ChallengeEventHandler → ChallengeEventHandler
unfolding delete_pending_event
delete_pending_events [] ch = ch
delete_pending_events (event ∷ events) ch =
    delete_pending_events events (delete_pending_event (id_of event) ch)

-- The walks over the map that collect the events of one type below a height.
unfoldable pub events_below : ℕ → ℕ → Pending → List ChallengeEvent
events_below type to_l1_block_height [] = []
events_below type to_l1_block_height ((k, event) ∷ m) =
    let rest = events_below type to_l1_block_height m in
    if type_of event == type && ltb (id_of event).id to_l1_block_height then event ∷ rest else rest

unfoldable pub get_oracle_pending_events : ℕ → ChallengeEventHandler → List ChallengeEvent
unfolding events_below
get_oracle_pending_events to_l1_block_height ch =
    events_below event_type_oracle to_l1_block_height ch.pending_events

unfoldable pub get_oracle_relay_pending_events : ℕ → ChallengeEventHandler → List ChallengeEvent
unfolding events_below
get_oracle_relay_pending_events to_l1_block_height ch =
    events_below event_type_oracle_relay to_l1_block_height ch.pending_events

-- The comparison that SortPendingEvents hands to sort.Slice.
unfoldable pub less : ChallengeEvent → ChallengeEvent → Bool
less a b =
    if type_of a == type_of b then ltb (id_of a).id (id_of b).id else ltb (type_of a) (type_of b)

-- sort.Slice: the events of a map have distinct identifiers, so the sorted order is the only one.
unfoldable pub insert_sorted : ChallengeEvent → List ChallengeEvent → List ChallengeEvent
unfolding less
insert_sorted a [] = a ∷ []
insert_sorted a (b ∷ bs) = if less b a then b ∷ insert_sorted a bs else a ∷ b ∷ bs

unfoldable pub sort_pending_events : List ChallengeEvent → List ChallengeEvent
unfolding insert_sorted
sort_pending_events [] = []
sort_pending_events (a ∷ as') = insert_sorted a (sort_pending_events as')

unfoldable pub values : Pending → List ChallengeEvent
values [] = []
values ((k, v) ∷ m) = v ∷ values m

unfoldable pub remove_all : List ChallengeEvent → Pending → Pending
unfolding remove
remove_all [] m = m
remove_all (event ∷ events) m = remove_all events (remove (id_of event) m)

unfoldable pub get_unprocessed_pending_events :
    List ChallengeEvent → ChallengeEventHandler → List ChallengeEvent
unfolding sort_pending_events values remove_all
get_unprocessed_pending_events processed ch =
    sort_pending_events (values (remove_all processed ch.pending_events))
