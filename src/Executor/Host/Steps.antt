-- ===== src/Executor/Host/Steps.antt =====
-- A block of the host chain from its begin on: what its transactions and events give to the child.
use opinit_bots.Base.{
  ℕ, ◌≡◌, false, ◌&&◌, ◌==◌, Option, none, some, List, [], ◌∷◌, ◌++◌, if◌then◌else◌,
}
use opinit_bots.Base.Result.{Result, ok, err}
use opinit_bots.Base.Machine.{after}
use opinit_bots.Clock.{Clock}
use opinit_bots.Db.{Bytes}
use opinit_bots.Broadcaster.Types.{ProcessedMsgs}
use opinit_bots.Provider.Messages.{MessageError}
use opinit_bots.Executor.Host.{Environment, Host, Handler, TxArgs, oracle_tx_handler, tx_handler}
use opinit_bots.Executor.Host.Events.{queue_msg}

-- What an event has made for the child, to be queued; or a transaction.
pub data BlockStep (M : Type 0) : Type 0 where
  queueing : Result MessageError (Option (M × Bytes)) → BlockStep M
  transaction : TxArgs → BlockStep M

module _ {M : Type 0} where
  abbrev pub made_of : Result MessageError (Option (M × Bytes)) → List (Bytes × M)
  made_of (ok (some queued)) = (queued.1, queued.0) ∷ []
  made_of (ok none) = []
  made_of (err e) = []

  -- The messages queued in the steps.
  abbrev pub queued_in : List (BlockStep M) → List (Bytes × M)
  queued_in [] = []
  queued_in (queueing made ∷ steps) = made_of made ++ queued_in steps
  queued_in (transaction args ∷ steps) = queued_in steps

  -- The messages of the oracle: those that `make` gives for the first transaction of the latest block.
  abbrev pub oracle_in :
      (make : ℕ → Bytes → Result MessageError (Option (M × Bytes)))
      → List (BlockStep M)
      → List (Bytes × M)
  oracle_in make [] = []
  oracle_in make (queueing made ∷ steps) = oracle_in make steps
  oracle_in make (transaction args ∷ steps) =
      (if args.block_height == args.latest_height && args.tx_index == 0
        then made_of (make args.block_height args.tx)
        else [])
      ++ oracle_in make steps

  -- The groups that are to be saved, and the others.
  abbrev pub to_save : List (ProcessedMsgs M) → List (ProcessedMsgs M)
  to_save [] = []
  to_save (p ∷ ps) = if p.save then p ∷ to_save ps else to_save ps

  abbrev pub not_to_save : List (ProcessedMsgs M) → List (ProcessedMsgs M)
  not_to_save [] = []
  not_to_save (p ∷ ps) = if p.save then not_to_save ps else p ∷ not_to_save ps

  abbrev IsUnsaved : ProcessedMsgs M → Type 0
  IsUnsaved p = p.save ≡ false

module _ {L M : Type 0} (env : Environment L M) where
  unfoldable pub run_steps : List (BlockStep M) → Handler env (Unit {0})
  unfolding queue_msg tx_handler
  run_steps [] h = (ok tt, h)
  run_steps (queueing made ∷ steps) h = after (queue_msg env made h) (λ _. run_steps steps)
  run_steps (transaction args ∷ steps) h = after (tx_handler env args h) (λ _. run_steps steps)

  abbrev pub make : Host L M → ℕ → Bytes → Result MessageError (Option (M × Bytes))
  make h height tx = oracle_tx_handler env height tx h
