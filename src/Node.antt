-- ===== src/Node.antt =====
-- node/process.go and node/block_handler.go: how a node walks through the blocks of its chain and hands
-- their transactions and events to the handlers of the bot.
pub mod Calls
pub mod Process
pub mod Store
pub mod Progress
use opinit_bots.Base.{
  ℕ, zero, suc, ◌+◌, ◌-◌, Bool, true, false, not, ◌==◌, ltb, leb, Option, none, some, List, [], ◌∷◌,
  if◌then◌else◌, length, get_elem?,
}
use opinit_bots.Base.Bytes.{bytes_equal}
use opinit_bots.Base.Result.{Result, ok, err}
use opinit_bots.Db.{Bytes}

-- The part of a step that a wrapped error names.
pub data Stage : Type 0 where
  fetching converting begin_block block_txs finalize_block end_block handling raw_block : Stage
  tx_at events_of event_at : ℕ → Stage

pub data NodeError : Type 0 where
  -- an error of a handler or of the node's client
  raised : ℕ → NodeError
  tx_count_mismatch : ℕ → ℕ → NodeError
  -- `blockBulk[height-start]` out of range
  index_out_of_range : NodeError
  -- errors.Wrap
  wrapped : Stage → NodeError → NodeError

-- What a handler does: it changes the state of the bot, also when it fails.
abbrev pub Action {ℓ} : Type ℓ → Type ℓ
Action S = S → Option NodeError × S

-- `if err != nil { return err }`, before what comes next.
abbrev pub continue {ℓ} : {S : Type ℓ} → Option NodeError × S → Action S → Option NodeError × S
continue (none, s) next = next s
continue (some e, s) next = (some e, s)

unfoldable pub and_then {ℓ} : {S : Type ℓ} → Action S → Action S → Action S
and_then first next s = continue (first s) next

-- `return errors.Wrap(err, ...)`; Wrap of nil is nil.
abbrev pub wrap_result {ℓ} : {S : Type ℓ} → Stage → Option NodeError × S → Option NodeError × S
wrap_result stage (none, s) = (none, s)
wrap_result stage (some e, s) = (some (wrapped stage e), s)

unfoldable pub wrap_with {ℓ} : {S : Type ℓ} → Stage → Action S → Action S
wrap_with stage action s = wrap_result stage (action s)

abbrev pub nothing {ℓ} : {S : Type ℓ} → Action S
nothing s = (none, s)

abbrev pub fails {ℓ} : {S : Type ℓ} → NodeError → Action S
fails e s = (some e, s)

pub record Event : Type 0 where
  pub type : Bytes
  pub attributes : List (Bytes × Bytes)

pub record TxResult : Type 0 where
  pub code : ℕ
  pub events : List Event

pub record Block : Type 0 where
  pub height : ℕ
  pub time : ℕ
  pub block_id : Bytes
  pub txs : List Bytes

pub record BlockResults : Type 0 where
  pub txs_results : List TxResult
  pub finalize_block_events : List Event

pub record BlockArgs : Type 0 where
  pub block : Block
  pub latest_height : ℕ

pub record TxHandlerArgs : Type 0 where
  pub block_height : ℕ
  pub block_time : ℕ
  pub latest_height : ℕ
  pub tx_index : ℕ
  pub tx : Bytes
  pub success : Bool

pub record EventHandlerArgs : Type 0 where
  pub block_height : ℕ
  pub block_time : ℕ
  pub latest_height : ℕ
  pub tx_index : ℕ
  pub tx : Bytes
  pub event_attributes : List (Bytes × Bytes)

pub record RawBlockArgs : Type 0 where
  pub block_height : ℕ
  pub latest_height : ℕ
  pub block_bytes : Bytes

-- The handlers that are registered; `nil` is none. `event_handlers` is the map by the event's type.
pub record Handlers {ℓ} (S : Type ℓ) : Type ℓ where
  pub begin_block_handler : Option (BlockArgs → Action S)
  pub tx_handler : Option (TxHandlerArgs → Action S)
  pub event_handlers : List (Bytes × (EventHandlerArgs → Action S))
  pub end_block_handler : Option (BlockArgs → Action S)
  pub raw_block_handler : Option (RawBlockArgs → Action S)

-- `if handler != nil { return handler(ctx, args) }; return nil`
unfoldable pub call {ℓ ℓ'} : {A : Type ℓ'} {S : Type ℓ} → Option (A → Action S) → A → Action S
call none args = nothing
call (some handler) args = handler args

-- n.eventHandlers[type]
unfoldable pub find_handler {ℓ} : {A : Type ℓ} → List (Bytes × A) → Bytes → Option A
unfolding bytes_equal
find_handler [] type = none
find_handler ((t, handler) ∷ handlers) type =
    if bytes_equal t type then some handler else find_handler handlers type

module _ {ℓ} {S : Type ℓ} (n : Handlers S) where
  unfoldable pub handle_begin_block : Block → ℕ → Action S
  unfolding call
  handle_begin_block block latest_height =
      call n.begin_block_handler (record { block = block; latest_height = latest_height })

  unfoldable pub handle_event :
      (block_height block_time latest_height : ℕ) → Bytes → ℕ → Event → Action S
  unfolding call find_handler
  handle_event block_height block_time latest_height tx tx_index event =
      call (find_handler n.event_handlers event.type) (record {
        block_height = block_height;
        block_time = block_time;
        latest_height = latest_height;
        tx_index = tx_index;
        tx = tx;
        event_attributes = event.attributes;
      })

  -- The loop over the events, from the event of an index on.
  unfoldable pub events_from :
      (event_index block_height block_time latest_height : ℕ) → Bytes → ℕ → List Event → Action S
  unfolding handle_event and_then wrap_with
  events_from event_index block_height block_time latest_height tx tx_index [] = nothing
  events_from event_index block_height block_time latest_height tx tx_index (event ∷ events) =
      and_then
        (wrap_with (event_at event_index)
          (handle_event block_height block_time latest_height tx tx_index event))
        (events_from (event_index + 1) block_height block_time latest_height tx tx_index events)

  unfoldable pub handle_events :
      (block_height block_time : ℕ) → List Event → (latest_height : ℕ) → Bytes → ℕ → Action S
  unfolding events_from
  handle_events block_height block_time events latest_height tx tx_index =
      if not (length n.event_handlers == 0)
      then events_from 0 block_height block_time latest_height tx tx_index events
      else nothing

  -- The loop over the transactions, from the one of an index on, with their results.
  unfoldable pub txs_from : Block → ℕ → ℕ → List Bytes → List TxResult → Action S
  unfolding call and_then wrap_with handle_events
  txs_from block latest_height tx_index (tx ∷ txs) (result ∷ results) =
      and_then
        (wrap_with (tx_at tx_index) (
          call n.tx_handler (record {
            block_height = block.height;
            block_time = block.time;
            latest_height = latest_height;
            tx_index = tx_index;
            tx = tx;
            success = result.code == 0;
          })))
        (and_then
          (wrap_with (events_of tx_index)
            (handle_events block.height block.time result.events latest_height tx tx_index))
          (txs_from block latest_height (tx_index + 1) txs results))
  -- the numbers of transactions and results are equal
  txs_from block latest_height tx_index _ _ = nothing

  unfoldable pub handle_block_txs : Block → BlockResults → ℕ → Action S
  unfolding txs_from
  handle_block_txs block results latest_height =
      if not (length block.txs == length results.txs_results)
      then fails (tx_count_mismatch (length block.txs) (length results.txs_results))
      else txs_from block latest_height 0 block.txs results.txs_results

  unfoldable pub handle_finalize_block : Block → BlockResults → ℕ → Action S
  unfolding handle_events
  handle_finalize_block block results latest_height =
      handle_events block.height block.time results.finalize_block_events latest_height [] 0

  unfoldable pub handle_end_block : Block → ℕ → Action S
  unfolding call
  handle_end_block block latest_height =
      call n.end_block_handler (record { block = block; latest_height = latest_height })

  unfoldable pub handle_raw_block : (block_height latest_height : ℕ) → Bytes → Action S
  unfolding call
  handle_raw_block block_height latest_height block_bytes = call n.raw_block_handler (record {
    block_height = block_height;
    latest_height = latest_height;
    block_bytes = block_bytes;
  })

  -- What follows the conversion; the first and the last handler are given the converted block.
  unfoldable pub handle_converted_block : (proto block : Block) → BlockResults → ℕ → Action S
  unfolding handle_begin_block handle_block_txs handle_finalize_block handle_end_block and_then
      wrap_with
  handle_converted_block proto block results latest_height =
      and_then (wrap_with begin_block (handle_begin_block proto latest_height)) (
        and_then (wrap_with block_txs (handle_block_txs block results latest_height)) (
          and_then (wrap_with finalize_block (handle_finalize_block block results latest_height))
            (wrap_with end_block (handle_end_block proto latest_height))))

  -- `to_proto` is the conversion of CometBFT, which can fail.
  unfoldable pub handle_new_block :
      (to_proto : Block → Result ℕ Block) → Block → BlockResults → ℕ → Action S
  unfolding handle_converted_block wrap_with
  handle_new_block to_proto block results latest_height s = elim (to_proto block) [
    | err e ↦ wrap_with converting (fails (raised e)) s
    | ok proto ↦ handle_converted_block proto block results latest_height s
  ]
