-- ===== src/Challenger/Keys.antt =====
-- challenger/types/keys.go: the keys of pending events and challenges.
use opinit_bots.Base.{
  ℕ, ◌+◌, ◌-◌, ◌<◌, ◌^◌, ◌≡◌, ltb, [], ◌∷◌, ◌++◌, if◌then◌else◌, length, get_or, take, drop,
}
use opinit_bots.Base.Result.{Result, ok, err}
use opinit_bots.Db.{Bytes}
use opinit_bots.Db.Keys.{splitter, from_uint64_key, to_uint64_key, to_uint64_key-from_uint64_key}
use opinit_bots.Challenger.Event.{ChallengeId}

-- "pending_event"
abbrev pub pending_event_key : Bytes
pending_event_key = 112 ∷ 101 ∷ 110 ∷ 100 ∷ 105 ∷ 110 ∷ 103 ∷ 95 ∷ 101 ∷ 118 ∷ 101 ∷ 110 ∷ 116 ∷ []

-- "pending_challenge"
abbrev pub pending_challenge_key : Bytes
pending_challenge_key =
    112 ∷ 101 ∷ 110 ∷ 100 ∷ 105 ∷ 110 ∷ 103 ∷ 95 ∷ 99 ∷ 104 ∷ 97 ∷ 108 ∷ 108 ∷ 101 ∷ 110 ∷ 103 ∷ 101
    ∷ []

-- "challenge"
abbrev pub challenge_key : Bytes
challenge_key = 99 ∷ 104 ∷ 97 ∷ 108 ∷ 108 ∷ 101 ∷ 110 ∷ 103 ∷ 101 ∷ []

abbrev prefixed_event_type : ℕ → Bytes
prefixed_event_type event_type = event_type ∷ splitter ∷ []

abbrev prefixed_event_type_id : ℕ → ℕ → Bytes
prefixed_event_type_id event_type id = prefixed_event_type event_type ++ from_uint64_key id

unfoldable pub prefixed_pending_event : ChallengeId → Bytes
unfolding from_uint64_key
prefixed_pending_event id =
    (pending_event_key ++ splitter ∷ []) ++ prefixed_event_type_id id.type id.id

unfoldable pub prefixed_pending_challenge : ChallengeId → Bytes
unfolding from_uint64_key
prefixed_pending_challenge id =
    (pending_challenge_key ++ splitter ∷ []) ++ prefixed_event_type_id id.type id.id

-- The time is its UnixNano.
abbrev prefixed_time_event : ℕ → Bytes
prefixed_time_event event_time = from_uint64_key event_time ++ splitter ∷ []

unfoldable pub prefixed_challenge_event_time : ℕ → Bytes
unfolding from_uint64_key
prefixed_challenge_event_time event_time =
    (challenge_key ++ splitter ∷ []) ++ prefixed_time_event event_time

unfoldable pub prefixed_challenge : ℕ → ChallengeId → Bytes
unfolding prefixed_challenge_event_time from_uint64_key
prefixed_challenge event_time id =
    prefixed_challenge_event_time event_time ++ prefixed_event_type_id id.type id.id

pub data KeyError : Type 0 where
  invalid_key_bytes : KeyError

unfoldable pub parse_pending_event : Bytes → Result KeyError ChallengeId
unfolding to_uint64_key
parse_pending_event key =
    if ltb (length key) 10
    then err invalid_key_bytes
    else let cursor : ℕ = length key - 10 in
      ok (record { type = get_or key cursor 0; id = to_uint64_key (drop (cursor + 2) key) })

-- `time.Unix(0, n)` is its UnixNano again.
unfoldable pub parse_challenge : Bytes → Result KeyError (ℕ × ChallengeId)
unfolding to_uint64_key
parse_challenge key =
    if ltb (length key) 19
    then err invalid_key_bytes
    else let cursor : ℕ = length key - 19 in
      ok (
        to_uint64_key (take 8 (drop cursor key)),
        record { type = get_or key (cursor + 9) 0; id = to_uint64_key (drop (cursor + 11) key) },
      )

-- If the id is below 2^64, parsing the key of a pending event gives back its type and its id.
pub parse_pending_event-prefixed_pending_event :
    (id : ChallengeId) → id.id < 2 ^ 64 → parse_pending_event (prefixed_pending_event id) ≡ ok id
unfolding parse_pending_event prefixed_pending_event
parse_pending_event-prefixed_pending_event id p =
    λ i. ok (record { type = id.type; id = to_uint64_key-from_uint64_key id.id p i })

-- If time and id are below 2^64, parsing the key of a challenge gives back its time, type and id.
pub parse_challenge-prefixed_challenge :
    (event_time : ℕ) (id : ChallengeId)
    → event_time < 2 ^ 64
    → id.id < 2 ^ 64
    → parse_challenge (prefixed_challenge event_time id) ≡ ok (event_time, id)
unfolding parse_challenge prefixed_challenge
parse_challenge-prefixed_challenge event_time id p q = λ i. ok (
  to_uint64_key-from_uint64_key event_time p i,
  record { type = id.type; id = to_uint64_key-from_uint64_key id.id q i },
)

-- If time and id are below 2^64, parsing the key of a pending event gives back its type and id, and parsing
-- the key of a challenge its time, type and id.
pub parse-prefixed :
    (event_time : ℕ) (id : ChallengeId)
    → event_time < 2 ^ 64
    → id.id < 2 ^ 64
    → (parse_pending_event (prefixed_pending_event id) ≡ ok id)
      × (parse_challenge (prefixed_challenge event_time id) ≡ ok (event_time, id))
parse-prefixed event_time id p q = (
  parse_pending_event-prefixed_pending_event id q,
  parse_challenge-prefixed_challenge event_time id p q,
)
