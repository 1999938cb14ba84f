-- ===== src/Node/Calls.antt =====
-- The calls of handlers that a block stands for, as a list, and a block as a run through that list.
use opinit_bots.Base.{
  ℕ, ◌+◌, ◌≡◌, true, false, not, ◌==◌, Option, none, some, List, [], ◌∷◌, ◌++◌, arith, refl, sym,
  ◌∙◌, ◌⊎◌, inl, inr, length, ap,
}
use opinit_bots.Base.Result.{Result, ok, err, Result-cases}
use opinit_bots.Db.{Bytes}
use opinit_bots.Node.{
  Action, NodeError, Stage, wrapped, Handlers, Event, TxResult, Block, BlockResults, BlockArgs,
  TxHandlerArgs, EventHandlerArgs, nothing, call, continue, wrap_result, find_handler, and_then,
  wrap_with, handle_begin_block, handle_event, events_from, handle_events, txs_from,
  handle_block_txs, handle_finalize_block, handle_end_block, handle_converted_block,
  handle_new_block, raised,
}

-- A call with its arguments.
pub data Call : Type 0 where
  begin_block end_block : BlockArgs → Call
  tx : TxHandlerArgs → Call
  event : Bytes → EventHandlerArgs → Call

-- The error below all wrappings.
unfoldable pub cause : NodeError → NodeError
cause (wrapped stage e) = cause e
cause e = e

abbrev pub cause_of : Option NodeError → Option NodeError
cause_of none = none
cause_of (some e) = some (cause e)

-- What is observed of an action: the cause of its failure, and the state it leaves.
abbrev pub result {ℓ} : {S : Type ℓ} → Option NodeError × S → Option NodeError × S
result (failure, s) = (cause_of failure, s)

module _ {S : Type 0} where
  continue_assoc :
      (r : Option NodeError × S) (f g : Action S)
      → continue (continue r f) g ≡ continue r (λ s. continue (f s) g)
  continue_assoc (none, s) f g = refl
  continue_assoc (some e, s) f g = refl

  continue_cong :
      (r r' : Option NodeError × S) (f g : Action S)
      → result r ≡ result r'
      → ((s : S) → result (f s) ≡ result (g s))
      → result (continue r f) ≡ result (continue r' g)
  continue_cong (none, s) (none, s') f g e h = h s ∙ (λ i. result (g (e i).1))
  continue_cong (some e, s) (some e', s') f g same h = same
  continue_cong (none, s) (some e, s') f g same h = absurd (ground (arith, ap (λ r. r.0) same))
  continue_cong (some e, s) (none, s') f g same h = absurd (ground (arith, ap (λ r. r.0) same))

  result-wrap_result :
      (stage : Stage) (r : Option NodeError × S) → result (wrap_result stage r) ≡ result r
  unfolding cause
  result-wrap_result stage (none, s) = refl
  result-wrap_result stage (some e, s) = refl

  continue-none : (r : Option NodeError × S) → continue r (λ s. (none, s)) ≡ r
  continue-none (none, s) = refl
  continue-none (some e, s) = refl

empty_or_not {ℓ} :
    {A : Type ℓ} (xs : List A)
    → ((xs ≡ []) × (not (length xs == 0) ≡ false)) ⊎ (not (length xs == 0) ≡ true)
empty_or_not [] = inl (refl, refl)
empty_or_not (x ∷ xs) = inr (ground arith)

module _ {S : Type 0} (n : Handlers S) where
  unfoldable pub perform : Call → Action S
  unfolding call find_handler
  perform (begin_block args) = call n.begin_block_handler args
  perform (end_block args) = call n.end_block_handler args
  perform (tx args) = call n.tx_handler args
  perform (event type args) = call (find_handler n.event_handlers type) args

  -- One call after another, up to the first that fails.
  unfoldable pub perform_all : List Call → Action S
  unfolding perform
  perform_all [] s = (none, s)
  perform_all (c ∷ cs) s = continue (perform c s) (λ t. perform_all cs t)

  perform_all-append :
      (cs ds : List Call) (s : S)
      → perform_all (cs ++ ds) s ≡ continue (perform_all cs s) (λ t. perform_all ds t)
  unfolding perform_all
  perform_all-append [] ds s = refl
  perform_all-append (c ∷ cs) ds s =
      (λ i. continue (perform c s) (λ t. perform_all-append cs ds t i))
      ∙ sym (continue_assoc (perform c s) (λ t. perform_all cs t) (λ t. perform_all ds t))

  -- An action that does what a list of calls does.
  abbrev Does : Action S → List Call → Type 0
  Does action cs = (s : S) → result (action s) ≡ result (perform_all cs s)

  and_then-Does :
      (a b : Action S) (cs ds : List Call) → Does a cs → Does b ds → Does (and_then a b) (cs ++ ds)
  unfolding and_then
  and_then-Does a b cs ds da db s =
      continue_cong (a s) (perform_all cs s) b (λ t. perform_all ds t) (da s) db
      ∙ sym (ap result (perform_all-append cs ds s))

  wrap_with-Does :
      (stage : Stage) (a : Action S) (cs : List Call) → Does a cs → Does (wrap_with stage a) cs
  unfolding wrap_with
  wrap_with-Does stage a cs da s = result-wrap_result stage (a s) ∙ da s

  nothing-Does : Does nothing []
  unfolding perform_all
  nothing-Does s = refl

  perform-Does : (c : Call) → Does (perform c) (c ∷ [])
  unfolding perform_all
  perform-Does c s = sym (ap result (continue-none (perform c s)))

  module _ (block_height block_time latest_height : ℕ) where
    abbrev event_args : Bytes → ℕ → Event → EventHandlerArgs
    event_args t tx_index e = record {
      block_height = block_height;
      block_time = block_time;
      latest_height = latest_height;
      tx_index = tx_index;
      tx = t;
      event_attributes = e.attributes;
    }

    unfoldable pub event_calls : Bytes → ℕ → List Event → List Call
    event_calls t tx_index [] = []
    event_calls t tx_index (e ∷ es) =
        event e.type (event_args t tx_index e) ∷ event_calls t tx_index es

    events_from-Does :
        (i : ℕ) (t : Bytes) (tx_index : ℕ) (es : List Event)
        → Does
            (events_from n i block_height block_time latest_height t tx_index es)
            (event_calls t tx_index es)
    unfolding events_from event_calls handle_event perform
    events_from-Does i t tx_index [] = nothing-Does
    events_from-Does i t tx_index (e ∷ es) =
        and_then-Does _ _ (_ ∷ []) (event_calls t tx_index es)
          (wrap_with-Does _ _ _ (perform-Does _)) (events_from-Does (i + 1) t tx_index es)

    -- Without handlers, no event does anything.
    event_calls-unhandled :
        (t : Bytes) (tx_index : ℕ) (es : List Event) (s : S)
        → n.event_handlers ≡ []
        → perform_all (event_calls t tx_index es) s ≡ (none, s)
    unfolding event_calls perform_all perform
    event_calls-unhandled t tx_index [] s e = refl
    event_calls-unhandled t tx_index (x ∷ es) s e =
        (λ i.
          continue (call (find_handler (e i) x.type) (event_args t tx_index x) s)
            (λ u. perform_all (event_calls t tx_index es) u))
        ∙ event_calls-unhandled t tx_index es s e

    handle_events-Does :
        (es : List Event) (t : Bytes) (tx_index : ℕ)
        → Does
            (handle_events n block_height block_time es latest_height t tx_index)
            (event_calls t tx_index es)
    unfolding handle_events
    handle_events-Does es t tx_index s = elim (empty_or_not n.event_handlers) [
      | inl (empty, none_registered) ↦
          rw none_registered (sym (ap result (event_calls-unhandled t tx_index es s empty)))
      | inr registered ↦ rw registered (events_from-Does 0 t tx_index es s)
    ]

  module _ (b : Block) (latest_height : ℕ) where
    -- Each transaction, then its events.
    unfoldable pub tx_calls : ℕ → List Bytes → List TxResult → List Call
    unfolding event_calls
    tx_calls i (t ∷ ts) (r ∷ rs) =
        tx (record {
          block_height = b.height;
          block_time = b.time;
          latest_height = latest_height;
          tx_index = i;
          tx = t;
          success = r.code == 0;
        })
        ∷ (event_calls b.height b.time latest_height t i r.events ++ tx_calls (i + 1) ts rs)
    tx_calls i _ _ = []

    txs_from-Does :
        (i : ℕ) (ts : List Bytes) (rs : List TxResult)
        → Does (txs_from n b latest_height i ts rs) (tx_calls i ts rs)
    unfolding txs_from tx_calls perform
    txs_from-Does i (t ∷ ts) (r ∷ rs) =
        and_then-Does _ _ (_ ∷ [])
          (event_calls b.height b.time latest_height t i r.events ++ tx_calls (i + 1) ts rs)
          (wrap_with-Does _ _ _ (perform-Does _))
          (and_then-Does _ _ (event_calls b.height b.time latest_height t i r.events)
            (tx_calls (i + 1) ts rs)
            (wrap_with-Does _ _ _ (handle_events-Does b.height b.time latest_height r.events t i))
            (txs_from-Does (i + 1) ts rs))
    txs_from-Does i [] rs = nothing-Does
    txs_from-Does i (t ∷ ts) [] = nothing-Does

    handle_block_txs-Does :
        (results : BlockResults)
        → length b.txs ≡ length results.txs_results
        → Does (handle_block_txs n b results latest_height) (tx_calls 0 b.txs results.txs_results)
    unfolding handle_block_txs
    handle_block_txs-Does results e s =
        let same : not (length b.txs == length results.txs_results) ≡ false = ground arith in
        rw same (txs_from-Does 0 b.txs results.txs_results s)

    -- The calls that a block stands for, with the converted block for the first and the last.
    unfoldable pub block_calls : Block → BlockResults → List Call
    unfolding tx_calls event_calls
    block_calls proto results =
        begin_block (record { block = proto; latest_height = latest_height })
        ∷ (tx_calls 0 b.txs results.txs_results
            ++ (event_calls b.height b.time latest_height [] 0 results.finalize_block_events
                ++ end_block (record { block = proto; latest_height = latest_height }) ∷ []))

    handle_converted_block-Does :
        (proto : Block) (results : BlockResults)
        → length b.txs ≡ length results.txs_results
        → Does (handle_converted_block n proto b results latest_height) (block_calls proto results)
    unfolding handle_converted_block block_calls handle_begin_block handle_finalize_block
        handle_end_block perform
    handle_converted_block-Does proto results e =
        and_then-Does _ _ (_ ∷ []) _ (wrap_with-Does _ _ _ (perform-Does _)) (
          and_then-Does _ _ (tx_calls 0 b.txs results.txs_results) _
            (wrap_with-Does _ _ _ (handle_block_txs-Does results e))
            (and_then-Does _ _
              (event_calls b.height b.time latest_height [] 0 results.finalize_block_events) _
              (wrap_with-Does _ _ _ (
                handle_events-Does b.height b.time latest_height results.finalize_block_events []
                  0))
              (wrap_with-Does _ _ _ (perform-Does _))))

    -- Let a block have as many results as transactions. If it cannot be converted, handling it fails with
    -- this cause and leaves the state as it was. Otherwise it leaves the same state, and fails with the
    -- same cause or not at all, as these calls made one after another up to the first failure: the begin
    -- block handler with the converted block; for each transaction in order the transaction handler and
    -- then the handlers of its events in order; the handlers of the events of the finalization; the end
    -- block handler with the converted block.
    pub handle_new_block_lem :
        (to_proto : Block → Result ℕ Block) (results : BlockResults)
        → length b.txs ≡ length results.txs_results
        → (s : S)
        → result (handle_new_block n to_proto b results latest_height s) ≡ elim (to_proto b) [
          | err e ↦ (some (raised e), s)
          | ok proto ↦ result (perform_all (block_calls proto results) s)
        ]
    unfolding handle_new_block cause wrap_with
    handle_new_block_lem to_proto results e s = elim (Result-cases (to_proto b)) [
      | inr (failure, failed) ↦ rw (failed, handle_new_block) refl
      | inl (proto, converted) ↦
          rw (converted, handle_new_block) (handle_converted_block-Does proto results e s)
    ]
