-- ===== src/Challenger/Event/Content.antt =====
-- What two events are compared by: an event without its time and its timeout flag.
use opinit_bots.Base.{ℕ, ◌≡◌, ◌↔◌, refl, true, Bool, arith, ℕ_discrete}
use opinit_bots.Base.Bytes.{bytes_equal_iff}
use opinit_bots.Base.Result.{ok}
use opinit_bots.Db.{Bytes}
use opinit_bots.Challenger.Event.{
  deposit_equal, output_equal, oracle_equal, oracle_relay_equal, ChallengeEvent, deposit, output,
  oracle, oracle_relay, equal, id_of, set_timeout, is_timeout,
}

pub data Content : Type 0 where
  deposit_content : ℕ → ℕ → Bytes → Bytes → Bytes → Bytes → Content
  output_content : ℕ → ℕ → Bytes → Content
  oracle_content : ℕ → Bytes → Content
  oracle_relay_content : ℕ → Bytes → Content

pub Content-discrete : Discrete Content
Content-discrete = hlevel ℕ_discrete

unfoldable pub content : ChallengeEvent → Content
content (deposit d) = deposit_content d.sequence d.l1_block_height d.from d.to d.l1_denom d.amount
content (output o) = output_content o.l2_block_number o.output_index o.output_root
content (oracle o) = oracle_content o.l1_height o.bytes
content (oracle_relay o) = oracle_relay_content o.l1_height o.oracle_price_hash

-- Equal succeeds with true exactly when the two events are of one type and agree in everything but the
-- time and the timeout flag.
pub equal_iff : (a b : ChallengeEvent) → (equal a b ≡ ok true) ↔ (content a ≡ content b)
unfolding equal content deposit_equal output_equal oracle_equal oracle_relay_equal
equal_iff (deposit a) (deposit b) = ground (
  arith,
  bytes_equal_iff a.from b.from,
  bytes_equal_iff a.to b.to,
  bytes_equal_iff a.l1_denom b.l1_denom,
  bytes_equal_iff a.amount b.amount,
)
equal_iff (output a) (output b) = ground (arith, bytes_equal_iff a.output_root b.output_root)
equal_iff (oracle a) (oracle b) = ground (arith, bytes_equal_iff a.bytes b.bytes)
equal_iff (oracle_relay a) (oracle_relay b) =
    ground (arith, bytes_equal_iff a.oracle_price_hash b.oracle_price_hash)
equal_iff _ _ = ground arith

-- Events with one identifier can be compared.
pub equal_total : (a b : ChallengeEvent) → id_of a ≡ id_of b → (same : Bool) × (equal a b ≡ ok same)
unfolding equal id_of
equal_total (deposit a) (deposit b) e = (_, refl)
equal_total (output a) (output b) e = (_, refl)
equal_total (oracle a) (oracle b) e = (_, refl)
equal_total (oracle_relay a) (oracle_relay b) e = (_, refl)
equal_total _ _ e = absurd (ground arith)

pub id_of-set_timeout : (a : ChallengeEvent) → id_of (set_timeout a) ≡ id_of a
unfolding id_of set_timeout
id_of-set_timeout (deposit d) = refl
id_of-set_timeout (output o) = refl
id_of-set_timeout (oracle o) = refl
id_of-set_timeout (oracle_relay o) = refl

pub is_timeout-set_timeout : (a : ChallengeEvent) → is_timeout (set_timeout a) ≡ true
unfolding is_timeout set_timeout
is_timeout-set_timeout (deposit d) = refl
is_timeout-set_timeout (output o) = refl
is_timeout-set_timeout (oracle o) = refl
is_timeout-set_timeout (oracle_relay o) = refl

pub content-set_timeout : (a : ChallengeEvent) → content (set_timeout a) ≡ content a
unfolding content set_timeout
content-set_timeout (deposit d) = refl
content-set_timeout (output o) = refl
content-set_timeout (oracle o) = refl
content-set_timeout (oracle_relay o) = refl
