-- ===== src/Broadcaster/Loading/Termination.antt =====
-- The loop ends: a transaction takes at most four rounds.
use opinit_bots.Base.{
  ℕ, zero, suc, ◌+◌, ◌*◌, ◌≤◌, Bool, true, false, ◌==◌, ltb, Option, none, some, List, [], ◌∷◌,
  ◌++◌, if◌then◌else◌, length, length-append, arith, Bool-cases, inl, inr,
}
use opinit_bots.Base.Result.{Result, ok, err}
use opinit_bots.Db.{Bytes}
use opinit_bots.Broadcaster.Types.{PendingTxInfo}
use opinit_bots.Broadcaster.Loading.{
  Answer, result, not_found, query_failed, Round, LoadError, cancelled, bad_hash, not_queried,
  timed_out, later_time, retry_with, max_retry_count, load_loop,
}

-- A run that has ended, with at most so many transactions to process again.
unfoldable pub Ends : ℕ → Option (Result LoadError (List PendingTxInfo)) → Type 0
Ends n none = ⊥
Ends n (some (err e)) = Unit
Ends n (some (ok txs)) = length txs ≤ n

Ends-if :
    (n : ℕ) (b : Bool) (x y : Option (Result LoadError (List PendingTxInfo)))
    → Ends n x
    → Ends n y
    → Ends n (if b then x else y)
Ends-if n true x y p q = p
Ends-if n false x y p q = q

Ends-err : (n : ℕ) (e : LoadError) → Ends n (some (err e))
unfolding Ends
Ends-err n e = tt

Ends-ok : (n : ℕ) (txs : List PendingTxInfo) → length txs ≤ n → Ends n (some (ok txs))
unfolding Ends
Ends-ok n txs p = p

Ends-retry :
    (n : ℕ) (tx : PendingTxInfo) (round : Round) (retry : ℕ)
    (next : Option (Result LoadError (List PendingTxInfo)))
    → (retry + 1 ≤ max_retry_count → Ends n next)
    → Ends n (retry_with tx round retry next)
Ends-retry n tx round retry next p =
    Ends-if n round.sleep_done (some (err cancelled)) _ (Ends-err n cancelled)
      (elim (Bool-cases (ltb max_retry_count (retry + 1))) [
        | inl last ↦ rw last (Ends-err n (not_queried tx))
        | inr more ↦ rw more (p (ground arith))
      ])

module _ (decodable : Bytes → Bool) (tx_timeout : ℕ) (rounds : ℕ → Round) (n : ℕ) where
  -- From any turn of the loop on.
  load_loop-Ends :
      (fuel : ℕ) (left acc : List PendingTxInfo) (retry last : ℕ)
      → retry ≤ 4
      → 4 * length left + 5 ≤ fuel + retry
      → length acc + length left ≤ n
      → Ends n (load_loop decodable tx_timeout fuel rounds left acc retry last)
  unfolding load_loop
  load_loop-Ends zero left acc retry last few enough size = absurd (omega arith)
  load_loop-Ends (suc fuel) [] acc retry last few enough size = Ends-ok n acc (omega arith)
  load_loop-Ends (suc fuel) (tx ∷ left) acc retry last few enough size =
      let round = rounds fuel in
      let later = later_time last round.header_time in
      Ends-if n round.done (some (err cancelled)) _ (Ends-err n cancelled) (
        Ends-if n (decodable tx.tx_hash) _ (some (err (bad_hash tx)))
          (answered round.answer
            (load_loop-Ends fuel left acc 1 last (omega arith) (omega arith) (omega arith))
            (load_loop-Ends fuel left (acc ++ tx ∷ []) 1 last (omega arith) (omega arith)
              (omega (arith, length-append acc (tx ∷ []))))
            (λ fewer.
              load_loop-Ends fuel (tx ∷ left) acc (retry + 1) later (omega arith) (omega arith)
                (omega arith)))
          (Ends-err n (bad_hash tx)))
    where
      answered :
          (answer : Answer)
          → Ends n (load_loop decodable tx_timeout fuel rounds left acc 1 last)
          → Ends n (load_loop decodable tx_timeout fuel rounds left (acc ++ tx ∷ []) 1 last)
          → (retry + 1 ≤ max_retry_count
              → Ends n (
                  load_loop decodable tx_timeout fuel rounds
                    (tx ∷ left)
                    acc
                    (retry + 1)
                    (later_time last (rounds fuel).header_time)))
          → Ends n (elim answer [
            | result code ↦
                if code == 0
                then load_loop decodable tx_timeout fuel rounds left acc 1 last
                else load_loop decodable tx_timeout fuel rounds left (acc ++ tx ∷ []) 1 last
            | query_failed ↦ retry_with tx (rounds fuel) retry (
                load_loop decodable tx_timeout fuel rounds
                  (tx ∷ left)
                  acc
                  (retry + 1)
                  (later_time last (rounds fuel).header_time))
            | not_found ↦
                if timed_out tx_timeout tx last (rounds fuel).now
                then some (ok (acc ++ tx ∷ left))
                else retry_with tx (rounds fuel) retry (
                    load_loop decodable tx_timeout fuel rounds
                      (tx ∷ left)
                      acc
                      (retry + 1)
                      (later_time last (rounds fuel).header_time))
          ])
      answered (result code) included failed again = Ends-if n (code == 0) _ _ included failed
      answered query_failed included failed again = Ends-retry n tx (rounds fuel) retry _ again
      answered not_found included failed again =
          Ends-if n (timed_out tx_timeout tx last (rounds fuel).now) _ _
            (Ends-ok n (acc ++ tx ∷ left) (omega (arith, length-append acc (tx ∷ left))))
            (Ends-retry n tx (rounds fuel) retry _ again)

-- The loop over the pending transactions ends within four rounds for each and four more, whatever the node
-- and the clock answer: with an error, or with at most as many transactions to process again as
-- there were.
pub load_loop-terminates :
    (decodable : Bytes → Bool) (tx_timeout : ℕ) (rounds : ℕ → Round) (txs : List PendingTxInfo)
    (last_block_time : ℕ)
    → Ends
        (length txs)
        (load_loop decodable tx_timeout (4 * length txs + 4) rounds txs [] 1 last_block_time)
load_loop-terminates decodable tx_timeout rounds txs last_block_time =
    load_loop-Ends decodable tx_timeout rounds (length txs) (4 * length txs + 4) txs [] 1
      last_block_time (omega arith) (omega arith) (omega arith)
