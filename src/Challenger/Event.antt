-- ===== src/Challenger/Event.antt =====
-- challenger/types/challenge.go: the watched events, their identifiers and their comparison.
-- A time.Time is its nanoseconds since the zero Time; heights and sequences are not negative.
pub mod Content
use opinit_bots.Base.{ℕ, Bool, true, false, ◌&&◌, ◌==◌, if◌then◌else◌}
use opinit_bots.Base.Bytes.{bytes_equal}
use opinit_bots.Base.Result.{Result, ok, err}
use opinit_bots.Db.{Bytes}
use Prim.Native.String.{String}

-- EventType, a uint8.
abbrev pub event_type_deposit : ℕ
event_type_deposit = 0

abbrev pub event_type_output : ℕ
event_type_output = 1

abbrev pub event_type_oracle : ℕ
event_type_oracle = 2

abbrev pub event_type_oracle_relay : ℕ
event_type_oracle_relay = 3

unfoldable pub event_type_string : ℕ → String
event_type_string t =
    if t == event_type_deposit
    then "Deposit"
    else if t == event_type_output
    then "Output"
    else if t == event_type_oracle
    then "Oracle"
    else if t == event_type_oracle_relay
    then "OracleRelay"
    else "Unknown"

pub record ChallengeId : Type 0 where
  pub type : ℕ
  pub id : ℕ

pub record Deposit : Type 0 where
  pub sequence : ℕ
  pub l1_block_height : ℕ
  pub from : Bytes
  pub to : Bytes
  pub l1_denom : Bytes
  pub amount : Bytes
  pub time : ℕ
  pub timeout : Bool

pub record Output : Type 0 where
  pub l2_block_number : ℕ
  pub output_index : ℕ
  pub output_root : Bytes
  pub time : ℕ
  pub timeout : Bool

pub record Oracle : Type 0 where
  pub l1_height : ℕ
  pub bytes : Bytes
  pub time : ℕ
  pub timeout : Bool

pub record OracleRelay : Type 0 where
  pub l1_height : ℕ
  pub oracle_price_hash : Bytes
  pub time : ℕ
  pub timeout : Bool

-- The interface ChallengeEvent, by its implementations.
pub data ChallengeEvent : Type 0 where
  deposit : Deposit → ChallengeEvent
  output : Output → ChallengeEvent
  oracle : Oracle → ChallengeEvent
  oracle_relay : OracleRelay → ChallengeEvent

unfoldable pub new_deposit : ℕ → ℕ → Bytes → Bytes → Bytes → Bytes → ℕ → ChallengeEvent
new_deposit sequence l1_block_height from to l1_denom amount time = deposit (record {
  sequence = sequence;
  l1_block_height = l1_block_height;
  from = from;
  to = to;
  l1_denom = l1_denom;
  amount = amount;
  time = time;
  timeout = false;
})

unfoldable pub new_output : ℕ → ℕ → Bytes → ℕ → ChallengeEvent
new_output l2_block_number output_index output_root time = output (record {
  l2_block_number = l2_block_number;
  output_index = output_index;
  output_root = output_root;
  time = time;
  timeout = false;
})

unfoldable pub new_oracle : ℕ → Bytes → ℕ → ChallengeEvent
new_oracle l1_height bytes time =
    oracle (record { l1_height = l1_height; bytes = bytes; time = time; timeout = false })

unfoldable pub new_oracle_relay : ℕ → Bytes → ℕ → ChallengeEvent
new_oracle_relay l1_height oracle_price_hash time = oracle_relay (record {
  l1_height = l1_height;
  oracle_price_hash = oracle_price_hash;
  time = time;
  timeout = false;
})

unfoldable pub type_of : ChallengeEvent → ℕ
type_of (deposit d) = event_type_deposit
type_of (output o) = event_type_output
type_of (oracle o) = event_type_oracle
type_of (oracle_relay o) = event_type_oracle_relay

unfoldable pub event_time : ChallengeEvent → ℕ
event_time (deposit d) = d.time
event_time (output o) = o.time
event_time (oracle o) = o.time
event_time (oracle_relay o) = o.time

abbrev deposit_id : Deposit → ChallengeId
deposit_id d = record { type = event_type_deposit; id = d.sequence }

abbrev output_id : Output → ChallengeId
output_id o = record { type = event_type_output; id = o.output_index }

abbrev oracle_id : Oracle → ChallengeId
oracle_id o = record { type = event_type_oracle; id = o.l1_height }

abbrev oracle_relay_id : OracleRelay → ChallengeId
oracle_relay_id o = record { type = event_type_oracle_relay; id = o.l1_height }

unfoldable pub id_of : ChallengeEvent → ChallengeId
id_of (deposit d) = deposit_id d
id_of (output o) = output_id o
id_of (oracle o) = oracle_id o
id_of (oracle_relay o) = oracle_relay_id o

unfoldable pub set_timeout : ChallengeEvent → ChallengeEvent
set_timeout (deposit d) = deposit (record d { timeout = true })
set_timeout (output o) = output (record o { timeout = true })
set_timeout (oracle o) = oracle (record o { timeout = true })
set_timeout (oracle_relay o) = oracle_relay (record o { timeout = true })

unfoldable pub is_timeout : ChallengeEvent → Bool
is_timeout (deposit d) = d.timeout
is_timeout (output o) = o.timeout
is_timeout (oracle o) = o.timeout
is_timeout (oracle_relay o) = o.timeout

pub data EventError : Type 0 where
  invalid_type : EventError
  -- nodetypes.ErrIgnoreAndTryLater, "pending event not found"
  ignore_and_try_later : EventError

-- Equal: the values that both chains must agree on; neither the times nor the timeout flags.
unfoldable deposit_equal : Deposit → Deposit → Bool
unfolding bytes_equal
deposit_equal a b =
    a.sequence == b.sequence
    && a.l1_block_height == b.l1_block_height
    && bytes_equal a.from b.from
    && bytes_equal a.to b.to
    && bytes_equal a.l1_denom b.l1_denom
    && bytes_equal a.amount b.amount

unfoldable output_equal : Output → Output → Bool
unfolding bytes_equal
output_equal a b =
    a.l2_block_number == b.l2_block_number
    && a.output_index == b.output_index
    && bytes_equal a.output_root b.output_root

unfoldable oracle_equal : Oracle → Oracle → Bool
unfolding bytes_equal
oracle_equal a b = a.l1_height == b.l1_height && bytes_equal a.bytes b.bytes

unfoldable oracle_relay_equal : OracleRelay → OracleRelay → Bool
unfolding bytes_equal
oracle_relay_equal a b =
    a.l1_height == b.l1_height && bytes_equal a.oracle_price_hash b.oracle_price_hash

unfoldable pub equal : ChallengeEvent → ChallengeEvent → Result EventError Bool
unfolding deposit_equal output_equal oracle_equal oracle_relay_equal
equal (deposit a) (deposit b) = ok (deposit_equal a b)
equal (output a) (output b) = ok (output_equal a b)
equal (oracle a) (oracle b) = ok (oracle_equal a b)
equal (oracle_relay a) (oracle_relay b) = ok (oracle_relay_equal a b)
equal _ _ = err invalid_type

-- What the text of a challenge is printed from.
pub data Log : Type 0 where
  mismatch : ChallengeEvent → ChallengeEvent → Log
  timed_out : ChallengeEvent → Log

pub record Challenge : Type 0 where
  pub event_type : String
  pub id : ChallengeId
  pub log : Log
  pub time : ℕ
