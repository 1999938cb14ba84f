-- ===== src/Base/Machine.antt =====
-- Go methods that change their receiver and can fail: what they return, and the receiver they leave,
-- also when they fail.
use mathlib.Core.Path.{◌≡◌, refl, ap}
use native.Mathlib.Omega.{arith}
use opinit_bots.Base.Result.{Result, ok, err}

abbrev pub Machine {ℓ} : Type 0 → Type 0 → Type ℓ → Type ℓ
Machine E C A = C → Result E A × C

module _ {E C : Type 0} where
  -- What comes next is not run after an error.
  abbrev pub after {ℓ κ} :
      {A : Type ℓ} {B : Type κ} → Result E A × C → (A → Machine E C B) → Result E B × C
  after (ok a, c) next = next a c
  after (err e, c) next = (err e, c)

  infixl 5 ◌>>=◌ ◌>>◌
  abbrev pub ◌>>=◌ {ℓ κ} :
      {A : Type ℓ} {B : Type κ} → Machine E C A → (A → Machine E C B) → Machine E C B
  (m >>= next) c = after (m c) next

  abbrev pub ◌>>◌ {ℓ} : {B : Type ℓ} → Machine E C (Unit {0}) → Machine E C B → Machine E C B
  m >> next = m >>= λ _. next

  abbrev pub return {ℓ} : {A : Type ℓ} → A → Machine E C A
  return a c = (ok a, c)

  abbrev pub fail {ℓ} : {A : Type ℓ} → E → Machine E C A
  fail e c = (err e, c)

  -- The receiver.
  abbrev pub self : Machine E C C
  self c = (ok c, c)

  abbrev pub assign : C → Machine E C (Unit {0})
  assign c' c = (ok tt, c')

  -- A call that does not change the receiver, with its error wrapped.
  abbrev pub try {ℓ} : {F : Type 0} {A : Type ℓ} → (F → E) → Result F A → Machine E C A
  try wrap (ok a) c = (ok a, c)
  try wrap (err e) c = (err (wrap e), c)

  -- A run that returns a value has come through its first part.
  pub after-ok {ℓ κ} :
      {A : Type ℓ} {B : Type κ} (r : Result E A × C) (next : A → Machine E C B) {b : B} {c' : C}
      → after r next ≡ (ok b, c')
      → (a : A) × (c : C) × (r ≡ (ok a, c)) × (next a c ≡ (ok b, c'))
  after-ok (ok a, c) next e = (a, c, refl, e)
  after-ok (err x, c) next e = absurd (ground (arith, ap (λ r. r.0) e))

  pub try-ok {ℓ} :
      {F : Type 0} {A : Type ℓ} (wrap : F → E) (r : Result F A) (c : C) {a : A} {c' : C}
      → try wrap r c ≡ (ok a, c')
      → (r ≡ ok a) × (c ≡ c')
  try-ok wrap (ok a) c e = (ground (arith, ap (λ r. r.0) e), ap (λ r. r.1) e)
  try-ok wrap (err x) c e = absurd (ground (arith, ap (λ r. r.0) e))
