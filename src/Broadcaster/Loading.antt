-- ===== src/Broadcaster/Loading.antt =====
-- node/broadcaster/broadcaster.go, loadPendingTxs: at the start, the pending transactions are looked for on
-- the chain, and those that failed or have timed out are processed again. The broadcast of those that are not
-- found, whose errors the code drops, changes the node alone and is left out.
pub mod Termination
use opinit_bots.Base.{
  ℕ, zero, suc, ◌+◌, ◌*◌, Bool, true, false, ◌&&◌, ◌||◌, ◌==◌, ltb, Option, none, some, List, [],
  ◌∷◌, ◌++◌, if◌then◌else◌,
}
use opinit_bots.Base.Result.{Result, ok, err}
use opinit_bots.Db.{Bytes}
use opinit_bots.Broadcaster.Types.{PendingTxInfo}

-- types/retry.go
abbrev pub max_retry_count : ℕ
max_retry_count = 4

-- What QueryTx answers: a result with its code, or an error, which may be that the transaction is not found.
-- A nil error comes with a result.
pub data Answer : Type 0 where
  result : (code : ℕ) → Answer
  not_found query_failed : Answer

-- One round of the loop: whether the context is done when the ticker is waited for and when the loop sleeps,
-- the answer, the clock, and the time of the last block when the header can be queried.
pub record Round : Type 0 where
  pub done : Bool
  pub answer : Answer
  pub now : ℕ
  pub sleep_done : Bool
  pub header_time : Option ℕ

pub data LoadError : Type 0 where
  cancelled : LoadError
  bad_hash : PendingTxInfo → LoadError
  not_queried : PendingTxInfo → LoadError

-- Ten minutes, in nanoseconds.
abbrev pub ten_minutes : ℕ
ten_minutes = 600000000000

abbrev pub later_time : ℕ → Option ℕ → ℕ
later_time last none = last
later_time last (some time) = time

-- After an error of the query: again with one more retry, unless it was the last.
abbrev pub retry_with :
    PendingTxInfo
    → Round
    → (retry : ℕ) → Option (Result LoadError (List PendingTxInfo))
    → Option (Result LoadError (List PendingTxInfo))
retry_with tx round retry next =
    if round.sleep_done
    then some (err cancelled)
    else if ltb max_retry_count (retry + 1)
    then some (err (not_queried tx))
    else next

abbrev pub timed_out : ℕ → PendingTxInfo → ℕ → ℕ → Bool
timed_out tx_timeout tx last_block_time now =
    ltb (tx.timestamp + tx_timeout) last_block_time || ltb (tx.timestamp + ten_minutes) now

module _ (decodable : Bytes → Bool) (tx_timeout : ℕ) where
  -- The transactions from the current one on, those to process again, the retry and the time of the last
  -- block. `none` when the rounds run out.
  unfoldable pub load_loop :
      (fuel : ℕ)
      → (ℕ → Round)
      → List PendingTxInfo
      → List PendingTxInfo
      → (retry : ℕ) → (last_block_time : ℕ) → Option (Result LoadError (List PendingTxInfo))
  load_loop zero rounds left acc retry last = none
  load_loop (suc fuel) rounds [] acc retry last = some (ok acc)
  load_loop (suc fuel) rounds (tx ∷ left) acc retry last =
      let round = rounds fuel in
      let included = load_loop fuel rounds left acc 1 last in
      let failed = load_loop fuel rounds left (acc ++ tx ∷ []) 1 last in
      let again =
        load_loop fuel rounds (tx ∷ left) acc (retry + 1) (later_time last round.header_time) in
      if round.done
      then some (err cancelled)
      else if decodable tx.tx_hash
      then (elim round.answer [
        | result code ↦ if code == 0 then included else failed
        | query_failed ↦ retry_with tx round retry again
        | not_found ↦
            if timed_out tx_timeout tx last round.now
            then some (ok (acc ++ tx ∷ left))
            else retry_with tx round retry again
      ])
      else some (err (bad_hash tx))
