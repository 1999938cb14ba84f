-- ===== src/Tests/Broadcaster.antt =====
-- A broadcaster with one account, whose node accepts every transaction or none.
use opinit_bots.Base.{
  ℕ, ◌≡◌, refl, ◌⊎◌, ◌≤◌, ◌*◌, ◌+◌, ◌==◌, if◌then◌else◌, true, false, List, [], ◌∷◌, ◌++◌, none,
  some, All,
}
use opinit_bots.Base.Result.{ok, err}
use opinit_bots.Db.{Bytes, Json}
use opinit_bots.Db.Level.{LevelDb}
use opinit_bots.Clock.{Clock, current_nano_timestamp, current_nano_timestamp-fresh}
use opinit_bots.Broadcaster.Types.{PendingTxInfo, ProcessedMsgs, Codec}
use opinit_bots.Broadcaster.Chunks.{msgs_to_processed_msgs}
use opinit_bots.Broadcaster.Chunks.Complete.{
  tagged_chunks, tagged_queues, IsChunk, msgs_to_processed_msgs-Complete,
}
use opinit_bots.Broadcaster.Queue.{
  Broadcaster, TxError, text, remove_pending_txs_until, sequence_of,
}
use opinit_bots.Broadcaster.Queue.Removal.{StartsBeyond, IsWithout, remove_pending_txs_until_lem}
use opinit_bots.Broadcaster.Sending.{
  Rpc, Texts, broadcast_option_sync, handle_msg_error, handle_processed_msgs, send_built, broadcast,
  parse_account_sequence_mismatch,
}
use opinit_bots.Broadcaster.Sending.Handover.{Outcome, handle_processed_msgs-Outcome}
use opinit_bots.Broadcaster.Loading.{Round, result, not_found, load_loop}
use opinit_bots.Broadcaster.Loading.Termination.{Ends, load_loop-terminates}
use opinit_bots.Broadcaster.Retry.{turn, again}
use opinit_bots.Broadcaster.Retry.Kept.{turn-saved}
use opinit_bots.Tests.Level.{Held, memory_level, memory_level-LevelLaws, handle}

abbrev pub clock : Clock
clock = record { last_timestamp = 5; calls = 0 }

current_nano_timestamp-fresh_example :
    ((current_nano_timestamp (λ i. 5) clock).0 ≡ 5 → ⊥)
    × ((current_nano_timestamp (λ i. 5) clock).1.last_timestamp
        ≡ (current_nano_timestamp (λ i. 5) clock).0)
current_nano_timestamp-fresh_example = current_nano_timestamp-fresh (λ i. 5) clock

-- Seven messages of one sender, and one of another.
abbrev queues : List (Bytes × List ℕ)
queues = (1 ∷ [], 1 ∷ 2 ∷ 3 ∷ 4 ∷ 5 ∷ 6 ∷ 7 ∷ []) ∷ (2 ∷ [], 8 ∷ []) ∷ []

msgs_to_processed_msgs-Complete_example :
    (tagged_chunks (msgs_to_processed_msgs (λ i. i) queues clock).0 ≡ tagged_queues queues)
    × All IsChunk (msgs_to_processed_msgs (λ i. i) queues clock).0
msgs_to_processed_msgs-Complete_example = msgs_to_processed_msgs-Complete (λ i. i) queues clock

abbrev pub numbers : Json ℕ
numbers = record { marshal = λ n. some (n ∷ []); unmarshal = λ b. none }

-- Only writing is used of the encodings.
abbrev pub codec : Codec ℕ
codec = record {
  message = numbers;
  pending = record { marshal = λ p. some (p.sequence ∷ []); unmarshal = λ b. none };
  processed = record { marshal = λ p. some (p.timestamp ∷ []); unmarshal = λ b. none };
  msg_type_url = λ n. 109 ∷ [];
}

abbrev pending : ℕ → ℕ → PendingTxInfo
pending n timestamp = record {
  sender = 1 ∷ [];
  processed_height = 3;
  sequence = n;
  tx = [];
  tx_hash = [];
  timestamp = timestamp;
  msg_types = [];
  save = true;
}

abbrev broadcaster : Broadcaster ℕ Held (Unit {0})
broadcaster = record {
  db = handle;
  accounts = record { address = 1 ∷ []; sequence = 8 } ∷ [];
  pending_txs = pending 6 20 ∷ pending 7 21 ∷ [];
  pending_processed_msgs_batch = [];
  synced_height = 3;
  clock = clock;
  world = tt;
}

remove_pending_txs_until_lem_example :
    ((e : TxError) × (remove_pending_txs_until codec memory_level 6 broadcaster
        ≡ (err e, broadcaster)))
    ⊎ ((db' : LevelDb Held) × (gone : List PendingTxInfo) × (rest : List PendingTxInfo)
        × (remove_pending_txs_until codec memory_level 6 broadcaster
            ≡ (ok tt, record broadcaster { db = db'; pending_txs = rest }))
        × (broadcaster.pending_txs ≡ gone ++ rest)
        × All (λ tx. tx.sequence ≤ 6) gone
        × StartsBeyond 6 rest
        × IsWithout memory_level handle db' gone)
remove_pending_txs_until_lem_example =
    remove_pending_txs_until_lem codec memory_level memory_level-LevelLaws 6 broadcaster

abbrev batch : ProcessedMsgs ℕ
batch = record { sender = 1 ∷ []; msgs = 4 ∷ []; timestamp = 22; save = true }

abbrev accepting : Rpc ℕ (Unit {0})
accepting = record {
  build_tx_with_msgs = λ address n msgs w. (ok (n ∷ msgs, n ∷ []), w);
  broadcast_tx_sync = λ tx w. (ok (0, []), w);
  custom_broadcast_tx_commit = λ tx w. (ok (0, 0, []), w);
}

handle_processed_msgs-Outcome_example :
    Outcome codec memory_level batch (1 ∷ []) (sequence_of (1 ∷ []) broadcaster) broadcaster (
      handle_processed_msgs codec memory_level accepting broadcast_option_sync batch
        (1 ∷ [])
        broadcaster)
handle_processed_msgs-Outcome_example =
    handle_processed_msgs-Outcome codec memory_level batch (1 ∷ []) memory_level-LevelLaws accepting
      broadcast_option_sync broadcaster

-- The node does not answer.
abbrev down : Rpc ℕ (Unit {0})
down = record accepting { broadcast_tx_sync = λ tx w. (err (33 ∷ []), w) }

abbrev texts : Texts
texts = record {
  error_text = λ e. 33 ∷ [];
  account_seq = λ b. none;
  output_index = λ b. none;
  parse_uint = λ b. none;
  parse_int = λ b. none;
  contains = λ a b. false;
  sentry_captured_errors = [];
  ignoring_errors = [];
  request_failed = 1 ∷ [];
  post_failed = 2 ∷ [];
}

turn-saved_example :
    (turn texts codec memory_level down broadcast_option_sync batch (1 ∷ []) broadcaster
      ≡ (ok again, broadcaster))
    × (broadcaster.db ≡ broadcaster.db)
    × (broadcaster.pending_txs ≡ broadcaster.pending_txs)
unfolding handle_processed_msgs send_built broadcast handle_msg_error
    parse_account_sequence_mismatch
turn-saved_example =
    turn-saved texts codec memory_level memory_level-LevelLaws down broadcast_option_sync batch
      (1 ∷ []) broadcaster broadcaster broadcaster (text (33 ∷ [])) (text (33 ∷ [])) refl refl refl

-- The first transaction is included, the second is not found and has timed out.
abbrev rounds : ℕ → Round
rounds fuel = record {
  done = false;
  answer = if fuel == 11 then result 0 else not_found;
  now = 700000000000;
  sleep_done = false;
  header_time = none;
}

load_loop-terminates_example :
    Ends 2
      (load_loop (λ hash. true) 50 (4 * 2 + 4) rounds (pending 6 20 ∷ pending 7 21 ∷ []) [] 1 30)
load_loop-terminates_example =
    load_loop-terminates (λ hash. true) 50 rounds (pending 6 20 ∷ pending 7 21 ∷ []) 30
