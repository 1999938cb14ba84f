-- ===== src/Tests/Node.antt =====
-- A node whose handlers count their calls, over blocks of two transactions.
use opinit_bots.Base.{ℕ, ◌+◌, ◌≡◌, ◌≤◌, ◌⊎◌, refl, arith, false, some, none, List, [], ◌∷◌}
use opinit_bots.Base.Result.{ok, err}
use opinit_bots.Db.{Bytes}
use opinit_bots.Node.{
  Action, wrapped, raised, fetching, Handlers, Block, BlockResults, Event, handle_new_block,
}
use opinit_bots.Node.Process.{
  Client, Position, process_block, process_blocks_type_default, process_raw_block, raw_end,
  process_blocks_type_raw, raw_block_query_max_size,
}
use opinit_bots.Node.Progress.{
  Outcome, process_blocks_type_default-Outcome, process_blocks_type_raw-Outcome,
}
use opinit_bots.Node.Calls.{result, perform_all, block_calls, handle_new_block_lem}

abbrev count {ℓ} : {A : Type ℓ} → A → Action ℕ
count args s = (none, s + 1)

abbrev counters : Handlers ℕ
counters = record {
  begin_block_handler = some count;
  tx_handler = none;
  event_handlers = ((7 ∷ []), count) ∷ [];
  end_block_handler = some count;
  raw_block_handler = some count;
}

abbrev two_txs : ℕ → Block
two_txs h = record { height = h; time = h; block_id = []; txs = (1 ∷ []) ∷ (2 ∷ []) ∷ [] }

abbrev transfer : Event
transfer = record { type = 7 ∷ []; attributes = [] }

abbrev two_results : BlockResults
two_results = record {
  txs_results = record { code = 0; events = transfer ∷ [] } ∷ record { code = 1; events = [] } ∷ [];
  finalize_block_events = transfer ∷ [];
}

abbrev chain : Client
chain = record {
  block = λ h. ok (two_txs h);
  block_results = λ h. ok two_results;
  query_block_bulk = λ start end. ok ([] ∷ [] ∷ []);
  to_proto = λ b. ok b;
  done = λ h. false;
}

abbrev start : Position ℕ
start = record { synced_height = 5; state = 0 }

process_blocks_type_default-Outcome_example :
    Outcome chain.done
      (process_block counters chain 7)
      7
      start
      (process_blocks_type_default counters chain 7 start).0
      (process_blocks_type_default counters chain 7 start).1
process_blocks_type_default-Outcome_example =
    process_blocks_type_default-Outcome counters chain 7 start (omega arith)

process_blocks_type_raw-Outcome_example :
    let last = raw_end 7 5 in
    let (failure, p') = process_blocks_type_raw counters chain 7 start in
    (last ≤ 7)
    × (last ≤ 5 + raw_block_query_max_size)
    × (((e : ℕ) × (chain.query_block_bulk (5 + 1) last ≡ err e)
          × (failure ≡ some (wrapped fetching (raised e)))
          × (p' ≡ start))
        ⊎ ((bulk : List Bytes) × (chain.query_block_bulk (5 + 1) last ≡ ok bulk)
            × Outcome chain.done
                (process_raw_block counters chain 7 (5 + 1) bulk)
                last
                start
                failure
                p'))
process_blocks_type_raw-Outcome_example =
    process_blocks_type_raw-Outcome counters chain 7 start (omega arith)

handle_new_block_lem_example :
    result (handle_new_block counters chain.to_proto (two_txs 6) two_results 7 0)
    ≡ result (perform_all counters (block_calls counters (two_txs 6) 7 (two_txs 6) two_results) 0)
handle_new_block_lem_example =
    handle_new_block_lem counters (two_txs 6) 7 chain.to_proto two_results refl 0
