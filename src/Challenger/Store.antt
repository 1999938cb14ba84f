-- ===== src/Challenger/Store.antt =====
-- challenger/eventhandler/db.go and challenger/db/db.go: pending events and challenges in a store.
use opinit_bots.Base.{ℕ, Option, none, some, List, [], ◌∷◌}
use opinit_bots.Base.Result.{Result, ok, err, ◌>>=◌}
use opinit_bots.Db.{Bytes, Database, DbError, Json}
use opinit_bots.Challenger.Event.{ChallengeId, ChallengeEvent, Challenge, id_of}
use opinit_bots.Challenger.Keys.{prefixed_pending_event, prefixed_pending_challenge}

pub data StoreError : Type 0 where
  marshal_failed unmarshal_failed : StoreError
  db : DbError → StoreError

abbrev coded {ℓ} : {A : Type ℓ} → StoreError → Option A → Result StoreError A
coded e none = err e
coded e (some a) = ok a

abbrev stored {ℓ} : {A : Type ℓ} → Result DbError A → Result StoreError A
stored (ok a) = ok a
stored (err e) = err (db e)

-- Marshal of an event, and UnmarshalChallengeEvent of a type.
pub record EventJson : Type 0 where
  pub marshal : ChallengeEvent → Option Bytes
  pub unmarshal : ℕ → Bytes → Option ChallengeEvent

module _ {S : Type 0} (database : Database S) where
  module _ (json : EventJson) where
    unfoldable pub save_pending_event : ChallengeEvent → S → Result StoreError S
    save_pending_event event s = do
      bytes ← coded marshal_failed (json.marshal event)
      stored (database.set s (prefixed_pending_event (id_of event)) bytes)

    unfoldable pub save_pending_events : List ChallengeEvent → S → Result StoreError S
    unfolding save_pending_event
    save_pending_events [] s = ok s
    save_pending_events (event ∷ events) s = do
      s' ← save_pending_event event s
      save_pending_events events s'

    unfoldable pub load_pending_event : S → ChallengeId → Result StoreError ChallengeEvent
    load_pending_event s id = do
      bytes ← stored (database.get s (prefixed_pending_event id))
      coded unmarshal_failed (json.unmarshal id.type bytes)

    unfoldable pub load_pending_events_of :
        S → List ChallengeId → Result StoreError (List ChallengeEvent)
    unfolding load_pending_event
    load_pending_events_of s [] = ok []
    load_pending_events_of s (id ∷ ids) = do
      event ← load_pending_event s id
      events ← load_pending_events_of s ids
      ok (event ∷ events)

  unfoldable pub erase_pending_event : ChallengeEvent → S → Result StoreError S
  erase_pending_event event s = stored (database.delete s (prefixed_pending_event (id_of event)))

  unfoldable pub erase_pending_events : List ChallengeEvent → S → Result StoreError S
  unfolding erase_pending_event
  erase_pending_events [] s = ok s
  erase_pending_events (event ∷ events) s = do
    s' ← erase_pending_event event s
    erase_pending_events events s'

  unfoldable pub save_pending_challenge : Json Challenge → Challenge → S → Result StoreError S
  save_pending_challenge json challenge s = do
    bytes ← coded marshal_failed (json.marshal challenge)
    stored (database.set s (prefixed_pending_challenge challenge.id) bytes)

  unfoldable pub save_pending_challenges : Json Challenge → List Challenge → S → Result StoreError S
  unfolding save_pending_challenge
  save_pending_challenges json [] s = ok s
  save_pending_challenges json (challenge ∷ challenges) s = do
    s' ← save_pending_challenge json challenge s
    save_pending_challenges json challenges s'
