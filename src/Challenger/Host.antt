-- ===== src/Challenger/Host.antt =====
-- challenger/host: deposit.go, output.go, oracle.go, bridge_info.go and handler.go: the events of the host
-- chain that the challenger expects the rollup to follow, and the outputs that must come in time.
pub mod Published
use opinit_bots.Base.{
  ℕ, ◌-◌, ◌+◌, ◌||◌, ◌^◌, Bool, true, false, not, ◌==◌, ltb, leb, Option, none, some, List, [], ◌∷◌,
  ◌++◌, if◌then◌else◌,
}
use opinit_bots.Base.Words.{u64}
use opinit_bots.Base.Result.{Result, ok, err}
use opinit_bots.Base.Machine.{Machine, after, ◌>>=◌, ◌>>◌, return, fail, self, assign, try}
use opinit_bots.Db.{Bytes, Database, DbError, Json}
use opinit_bots.Provider.Parse.{Attribute, Readers, ParseError}
use opinit_bots.Provider.Parse.Host.{
  parse_msg_initiate_deposit, parse_msg_propose_output, parse_msg_update_oracle_config,
  parse_msg_update_proposer, parse_msg_update_challenger,
}
use opinit_bots.Challenger.Event.{
  ChallengeEvent, Challenge, ChallengeId, id_of, new_deposit, new_output, new_oracle,
  new_oracle_relay,
}
use opinit_bots.Challenger.Pending.{
  ChallengeEventHandler, get_unprocessed_pending_events, delete_pending_events, set_pending_event,
}
use opinit_bots.Challenger.Check.{check_timeout, get_prev_pending_event}
use opinit_bots.Challenger.Store.{
  EventJson, save_pending_event, save_pending_events, erase_pending_events, save_pending_challenges,
}

pub data HostError : Type 0 where
  parse : ParseError → HostError
  invalid_amount status_failed : HostError
  events_failed : opinit_bots.Challenger.Store.StoreError → HostError
  db_failed : DbError → HostError
  -- a Go panic
  panic : HostError

pub record InternalStatus : Type 0 where
  pub last_output_index : ℕ
  pub last_output_time : ℕ

-- `child_events` are the events given to SetPendingEvents of the child, `sent` the challenges given to the
-- channel of the challenger. The configuration of the bridge is what the handlers change of it.
pub record Host (S : Type 0) : Type 0 where
  pub stage : S
  pub event_handler : ChallengeEventHandler
  pub initial_l1_sequence : ℕ
  pub event_queue : List ChallengeEvent
  pub output_pending_event_queue : List ChallengeEvent
  pub last_output_index : ℕ
  pub last_output_time : ℕ
  pub oracle_enabled : Bool
  pub proposer : Bytes
  pub challenger : Bytes
  pub child_events : List ChallengeEvent
  pub sent : List Challenge

-- What QueryOraclePriceHashWithProof finds.
pub record PriceHash : Type 0 where
  pub hash : Bytes
  pub l1_block_height : ℕ

-- The code outside. `coin_string` is NewIntFromString of the amount and the text of the coin; NewCoin
-- panics on a negative amount or a bad denomination, which the events of the chain do not have.
pub record Environment (S : Type 0) : Type 0 where
  pub staged : Database S
  pub for_child : Database S
  pub for_challenger : Database S
  pub reset : S → S
  pub commit : S → Result DbError S
  pub set_synced_height : ℕ → S → Result DbError S
  pub internal_status_key : Bytes
  pub status_json : Json InternalStatus
  pub event_json : EventJson
  pub challenge_json : Json Challenge
  pub bridge_id : ℕ
  pub readers : Readers
  pub coin_string : (denom amount : Bytes) → Option Bytes
  pub oracle_checksum : Bytes → Bytes
  pub query_oracle_price_hash : ℕ → Option (Option PriceHash)

-- nodetypes.EventHandlerArgs
pub record EventArgs : Type 0 where
  pub block_height : ℕ
  pub block_time : ℕ
  pub event_attributes : List Attribute

abbrev pub last_event : ChallengeEvent → List ChallengeEvent → ChallengeEvent
last_event event [] = event
last_event event (next ∷ events) = last_event next events

abbrev pub option_list : Option ChallengeEvent → List ChallengeEvent
option_list none = []
option_list (some event) = event ∷ []

abbrev pub set_last_output : List ChallengeEvent → ChallengeEventHandler → ChallengeEventHandler
set_last_output [] handler = handler
set_last_output (first ∷ outputs) handler = set_pending_event (last_event first outputs) handler

abbrev pub status_of : {S : Type 0} → Host S → InternalStatus
status_of h = record {
  last_output_index = h.last_output_index;
  last_output_time = h.last_output_time;
}

module _ {S : Type 0} (env : Environment S) where
  abbrev pub Handler {ℓ} : Type ℓ → Type ℓ
  Handler A = Machine HostError (Host S) A

  abbrev pub staging : {F : Type 0} → (F → HostError) → (S → Result F S) → Handler (Unit {0})
  staging wrap write = do h ← self; s ← try wrap (write h.stage); assign (record h { stage = s })

  abbrev enqueue : ChallengeEvent → Host S → Host S
  enqueue event h = record h { event_queue = h.event_queue ++ event ∷ [] }

  unfoldable pub begin_block_handler : Handler (Unit {0})
  begin_block_handler h = (
    ok tt,
    record h { event_queue = []; output_pending_event_queue = []; stage = env.reset h.stage },
  )

  unfoldable pub initiate_deposit_handler : EventArgs → Handler (Unit {0})
  unfolding new_deposit
  initiate_deposit_handler args h =
      elim (parse_msg_initiate_deposit env.readers args.event_attributes) [
        | err e ↦ (err (parse e), h)
        | ok e ↦
            if not (e.bridge_id == env.bridge_id)
            then (ok tt, h)
            else if ltb e.l1_sequence h.initial_l1_sequence
            then (ok tt, h)
            else elim (env.coin_string e.l2_denom e.amount) [
              | none ↦ (err invalid_amount, h)
              | some coin ↦ (
                ok tt,
                enqueue
                    (new_deposit e.l1_sequence args.block_height e.from e.to e.l1_denom coin
                      args.block_time)
                    h,
              )
            ]
      ]

  unfoldable pub propose_output_handler : EventArgs → Handler (Unit {0})
  unfolding new_output
  propose_output_handler args h =
      elim (parse_msg_propose_output env.readers args.event_attributes) [
        | err e ↦ (err (parse e), h)
        | ok e ↦
            if not (e.bridge_id == env.bridge_id)
            then (ok tt, h)
            else let proposed =
                new_output e.l2_block_number e.output_index e.output_root args.block_time in
              (
                ok tt,
                record h {
                  last_output_index = e.output_index;
                  last_output_time = args.block_time;
                  event_queue = h.event_queue ++ proposed ∷ [];
                  output_pending_event_queue = h.output_pending_event_queue ++ proposed ∷ [];
                },
              )
      ]

  unfoldable pub update_oracle_config_handler : EventArgs → Handler (Unit {0})
  update_oracle_config_handler args h =
      elim (parse_msg_update_oracle_config env.readers args.event_attributes) [
        | err e ↦ (err (parse e), h)
        | ok e ↦
            if not (e.bridge_id == env.bridge_id)
            then (ok tt, h)
            else (ok tt, record h { oracle_enabled = e.oracle_enabled })
      ]

  unfoldable pub update_proposer_handler : EventArgs → Handler (Unit {0})
  update_proposer_handler args h =
      elim (parse_msg_update_proposer env.readers args.event_attributes) [
        | err e ↦ (err (parse e), h)
        | ok e ↦
            if not (e.bridge_id == env.bridge_id)
            then (ok tt, h)
            else (ok tt, record h { proposer = e.proposer })
      ]

  unfoldable pub update_challenger_handler : EventArgs → Handler (Unit {0})
  update_challenger_handler args h =
      elim (parse_msg_update_challenger env.readers args.event_attributes) [
        | err e ↦ (err (parse e), h)
        | ok e ↦
            if not (e.bridge_id == env.bridge_id)
            then (ok tt, h)
            else (ok tt, record h { challenger = e.challenger })
      ]

  unfoldable pub oracle_tx_handler :
      (block_height block_time : ℕ) → (oracle_bytes : Bytes) → Host S → Host S
  unfolding new_oracle
  oracle_tx_handler block_height block_time oracle_bytes h =
      if not h.oracle_enabled
      then h
      else enqueue (new_oracle block_height (env.oracle_checksum oracle_bytes) block_time) h

  -- Every failure of the query is taken for a price hash that is not there yet.
  unfoldable pub oracle_relay_handler : (block_height block_time : ℕ) → Handler (Unit {0})
  unfolding new_oracle_relay
  oracle_relay_handler block_height block_time h =
      if not h.oracle_enabled || leb block_height 1
      then (ok tt, h)
      else elim (env.query_oracle_price_hash (block_height - 1)) [
        | none ↦ (ok tt, h)
        | some found ↦ elim found [
          | none ↦ (ok tt, h)
          | some price ↦ elim price.hash [
            | [] ↦ (ok tt, h)
            | _ ∷ _ ↦ if leb (2 ^ 63) price.l1_block_height then (err panic, h) else (
              ok tt,
              enqueue (new_oracle_relay price.l1_block_height price.hash block_time) h,
            )
          ]
        ]
      ]

  -- An error of oracleRelayHandler is logged only; it returns none, and its panic is not caught here.
  unfoldable pub tx_handler :
      (block_height block_time tx_index : ℕ) → (tx : Bytes) → Handler (Unit {0})
  unfolding oracle_tx_handler oracle_relay_handler
  tx_handler block_height block_time tx_index tx h =
      if tx_index == 0
      then oracle_relay_handler block_height block_time
          (oracle_tx_handler block_height block_time tx h)
      else (ok tt, h)

  -- The last output of the block is stored; the event of the output before the first is done with.
  unfoldable pub save_last_output : List ChallengeEvent → Handler (List ChallengeEvent)
  unfolding get_prev_pending_event
  save_last_output [] h = (ok [], h)
  save_last_output (first ∷ outputs) h =
      after
        (staging events_failed
          (save_pending_event env.staged env.event_json (last_event first outputs)) h)
        (λ u h'. (ok (option_list (get_prev_pending_event first h'.event_handler)), h'))

  unfoldable pub save_internal_status : Handler (Unit {0})
  save_internal_status h = elim (env.status_json.marshal (status_of h)) [
    | none ↦ (err status_failed, h)
    | some bytes ↦ staging db_failed (λ s. env.staged.set s env.internal_status_key bytes) h
  ]

  unfoldable pub save_block :
      (processed : List ChallengeEvent) → (challenges : List Challenge) → Handler (Unit {0})
  unfolding save_internal_status
  save_block processed challenges = do
    staging events_failed (erase_pending_events env.staged processed)
    staging events_failed (save_pending_challenges env.for_challenger env.challenge_json challenges)
    save_internal_status
    staging db_failed env.commit

  -- What follows the commit.
  unfoldable pub publish :
      (processed : List ChallengeEvent) → (challenges : List Challenge) → Host S → Host S
  unfolding delete_pending_events set_pending_event
  publish processed challenges h = record h {
    child_events = h.child_events ++ h.event_queue;
    event_handler =
        set_last_output h.output_pending_event_queue
          (delete_pending_events processed h.event_handler);
    sent = h.sent ++ challenges;
  }

  unfoldable pub end_block_handler : (height block_time : ℕ) → Handler (Unit {0})
  unfolding save_last_output save_block publish
  end_block_handler height block_time = do
    staging db_failed (env.set_synced_height height)
    h ← self
    staging events_failed (save_pending_events env.for_child env.event_json h.event_queue)
    prev_events ← save_last_output h.output_pending_event_queue
    h' ← self
    let (challenges, timed_out, handler) =
        check_timeout block_time (get_unprocessed_pending_events prev_events h'.event_handler)
          h'.event_handler
    assign (record h' { event_handler = handler })
    save_block (timed_out ++ prev_events) challenges
    h'' ← self
    assign (publish (timed_out ++ prev_events) challenges h'')
