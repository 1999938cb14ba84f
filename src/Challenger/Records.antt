-- ===== src/Challenger/Records.antt =====
-- challenger/db/db.go and what of challenger/eventhandler/db.go walks over a store: challenges, pending
-- challenges and pending events.
pub mod Reset
use opinit_bots.Base.{
  ℕ, ◌-◌, Bool, true, false, not, ◌&&◌, ◌||◌, ◌==◌, ltb, leb, Option, none, some, List, [], ◌∷◌,
  ◌++◌, if◌then◌else◌, length,
}
use opinit_bots.Base.Bytes.{bytes_equal}
use opinit_bots.Base.Result.{Result, ok, err, ◌>>=◌}
use opinit_bots.Db.{Bytes, DbError, Json}
use opinit_bots.Db.Basic.{BasicDb}
use opinit_bots.Db.Level.{Level, LevelDb}
use opinit_bots.Db.Iterator.{Callback, iterate, reverse_iterate, reversed}
use opinit_bots.Db.Sweep.{delete_keys, sweep}
use opinit_bots.Challenger.Event.{ChallengeId, ChallengeEvent, Challenge}
use opinit_bots.Challenger.Keys.{
  pending_event_key, pending_challenge_key, challenge_key, prefixed_pending_challenge,
  prefixed_challenge, parse_challenge, parse_pending_event,
}
use opinit_bots.Challenger.Store.{EventJson}

pub data RecordError : Type 0 where
  marshal_failed unmarshal_failed invalid_key : RecordError
  db_failed : DbError → RecordError
  -- MustInt64ToUint64 of a time before 1970
  panic : RecordError

abbrev pub coded {ℓ} : {A : Type ℓ} → RecordError → Option A → Result RecordError A
coded e none = err e
coded e (some a) = ok a

abbrev pub stored {ℓ} : {A : Type ℓ} → Result DbError A → Result RecordError A
stored (ok a) = ok a
stored (err e) = err (db_failed e)

-- The nanoseconds from the zero Time to 1970.
abbrev pub unix_epoch : ℕ
unix_epoch = 62135596800000000000

module _ {S : Type 0} (basic : BasicDb S) where
  module _ (json : Json Challenge) where
    unfoldable pub get_pending_challenge : S → ChallengeId → Result RecordError Challenge
    get_pending_challenge s id = do
      data' ← stored (basic.get s (prefixed_pending_challenge id))
      coded unmarshal_failed (json.unmarshal data')

    unfoldable pub get_pending_challenges :
        S → List ChallengeId → Result RecordError (List Challenge)
    unfolding get_pending_challenge
    get_pending_challenges s [] = ok []
    get_pending_challenges s (id ∷ ids) = do
      challenge ← get_pending_challenge s id
      challenges ← get_pending_challenges s ids
      ok (challenge ∷ challenges)

    unfoldable pub save_challenge : Challenge → S → Result RecordError S
    save_challenge challenge s = do
      value ← coded marshal_failed (json.marshal challenge)
      if ltb challenge.time unix_epoch
          then err panic
          else stored
              (basic.set s (prefixed_challenge (challenge.time - unix_epoch) challenge.id) value)

  unfoldable pub delete_pending_challenge : Challenge → S → Result RecordError S
  delete_pending_challenge challenge s =
      stored (basic.delete s (prefixed_pending_challenge challenge.id))

  unfoldable pub delete_pending_challenges : List Challenge → S → Result RecordError S
  unfolding delete_pending_challenge
  delete_pending_challenges [] s = ok s
  delete_pending_challenges (challenge ∷ challenges) s = do
    s' ← delete_pending_challenge challenge s
    delete_pending_challenges challenges s'

abbrev pub reversed_list {ℓ} : {A : Type ℓ} → List A → List A → List A
reversed_list [] acc = acc
reversed_list (a ∷ as') acc = reversed_list as' (a ∷ acc)

module _ {L : Type 0} (level : Level L) where
  unfoldable pub delete_all_pending_challenges : LevelDb L → Result DbError (LevelDb L)
  unfolding sweep
  delete_all_pending_challenges db = sweep level pending_challenge_key none db

  unfoldable pub delete_all_pending_events : LevelDb L → Result DbError (LevelDb L)
  unfolding sweep
  delete_all_pending_events db = sweep level pending_event_key none db

  -- The callbacks of the loads.
  abbrev load_event : EventJson → Callback RecordError (List ChallengeEvent)
  load_event json key value events = elim (parse_pending_event key) [
    | err e ↦ err invalid_key
    | ok id ↦ elim (json.unmarshal id.type value) [
      | none ↦ err unmarshal_failed
      | some event ↦ ok (false, events ++ event ∷ [])
    ]
  ]

  abbrev load_pending : Json Challenge → Callback RecordError (List Challenge)
  load_pending json key value challenges = do
    challenge ← coded unmarshal_failed (json.unmarshal value)
    ok (false, challenges ++ challenge ∷ [])

  -- At a limit of zero there is none.
  abbrev load_limited : Json Challenge → ℕ → Callback RecordError (List Challenge)
  load_limited json limit key value challenges = do
    challenge ← coded unmarshal_failed (json.unmarshal value)
    let challenges' = challenges ++ challenge ∷ []
    ok (not (limit == 0) && leb limit (length challenges'), challenges')

  -- It stops at the first challenge before the time.
  abbrev before_time : (initial_block_time : ℕ) → Callback RecordError (List Bytes)
  before_time initial_block_time key value keys = elim (parse_challenge key) [
    | err e ↦ err invalid_key
    | ok (nanos, id) ↦
        if ltb nanos initial_block_time then ok (true, keys) else ok (false, keys ++ key ∷ [])
  ]

  unfoldable pub load_pending_events :
      EventJson → LevelDb L → Result RecordError (List ChallengeEvent)
  unfolding iterate
  load_pending_events json db = iterate level db pending_event_key none (load_event json) []

  unfoldable pub load_pending_challenges :
      Json Challenge → LevelDb L → Result RecordError (List Challenge)
  unfolding iterate
  load_pending_challenges json db =
      iterate level db pending_challenge_key none (load_pending json) []

  -- The limit is not negative.
  unfoldable pub load_challenges :
      Json Challenge → LevelDb L → (limit : ℕ) → Result RecordError (List Challenge)
  unfolding reverse_iterate
  load_challenges json db limit = do
    challenges ← reverse_iterate level db challenge_key none (load_limited json limit) []
    ok (reversed_list challenges [])

  -- The time is in nanoseconds since 1970.
  unfoldable pub delete_future_challenges :
      (initial_block_time : ℕ) → LevelDb L → Result RecordError (LevelDb L)
  unfolding reverse_iterate delete_keys
  delete_future_challenges initial_block_time db = do
    keys ← reverse_iterate level db challenge_key none (before_time initial_block_time) []
    stored (delete_keys level keys db)
