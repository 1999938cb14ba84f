-- ===== src/Base/Lists.antt =====
-- Lists measured and indexed by native numbers, under the library's names.
use Prim.Native.Nat.{ℕ, zero, suc, ◌+◌, ◌-◌, ◌≤◌, ◌<◌}
use mathlib.Core.Path.{◌≡◌, refl, ap}
use mathlib.Core.List.{List, [], ◌∷◌, ◌++◌}
use mathlib.Core.Option.{Option, none, some}
use native.Mathlib.Omega.{arith}

module _ {ℓ} {A : Type ℓ} where
  abbrev pub length : List A → ℕ
  length [] = 0
  length (x ∷ xs) = suc (length xs)

  abbrev pub get_elem? : List A → ℕ → Option A
  get_elem? [] i = none
  get_elem? (x ∷ xs) zero = some x
  get_elem? (x ∷ xs) (suc i) = get_elem? xs i

  pub length-append : (xs ys : List A) → length (xs ++ ys) ≡ length xs + length ys
  length-append [] ys = omega arith
  length-append (x ∷ xs) ys = omega (arith, length-append xs ys)

module _ {ℓ} {A : Type ℓ} where
  abbrev pub replicate : ℕ → A → List A
  replicate zero a = []
  replicate (suc n) a = a ∷ replicate n a

  abbrev pub get_or : List A → ℕ → A → A
  get_or [] i d = d
  get_or (x ∷ xs) zero d = x
  get_or (x ∷ xs) (suc i) d = get_or xs i d

  -- A predicate of every element, by recursion.
  abbrev pub All {κ} : (A → Type κ) → List A → Type κ
  All P [] = Unit
  All P (x ∷ xs) = P x × All P xs

  pub All-append {κ} : (P : A → Type κ) (xs ys : List A) → All P xs → All P ys → All P (xs ++ ys)
  All-append P [] ys p q = q
  All-append P (x ∷ xs) ys p q = (p.0, All-append P xs ys p.1 q)

module _ {ℓ} {A : Type ℓ} where
  abbrev pub take : ℕ → List A → List A
  take zero xs = []
  take (suc n) [] = []
  take (suc n) (x ∷ xs) = x ∷ take n xs

  abbrev pub drop : ℕ → List A → List A
  drop zero xs = xs
  drop (suc n) [] = []
  drop (suc n) (x ∷ xs) = drop n xs

module _ {ℓ} {A : Type ℓ} where
  pub get_or-beyond : (xs : List A) (k : ℕ) (d : A) → length xs ≤ k → get_or xs k d ≡ d
  get_or-beyond [] k d p = refl
  get_or-beyond (x ∷ xs) zero d p = absurd (omega arith)
  get_or-beyond (x ∷ xs) (suc k) d p = get_or-beyond xs k d (omega arith)

  pub get_or-default :
      (xs : List A) (k : ℕ) (d e : A) → k < length xs → get_or xs k d ≡ get_or xs k e
  get_or-default [] k d e p = absurd (omega arith)
  get_or-default (x ∷ xs) zero d e p = refl
  get_or-default (x ∷ xs) (suc k) d e p = get_or-default xs k d e (omega arith)

module _ {ℓ} {M : Type ℓ} where
  pub append_assoc : (xs ys zs : List M) → (xs ++ ys) ++ zs ≡ xs ++ (ys ++ zs)
  append_assoc [] ys zs = refl
  append_assoc (x ∷ xs) ys zs = ap (λ t. x ∷ t) (append_assoc xs ys zs)

  pub length-drop : (i : ℕ) (xs : List M) → length (drop i xs) ≡ length xs - i
  length-drop zero xs = omega arith
  length-drop (suc i) [] = omega arith
  length-drop (suc i) (x ∷ xs) = omega (arith, length-drop i xs)

  pub length-take : (n : ℕ) (xs : List M) → n ≤ length xs → length (take n xs) ≡ n
  length-take zero xs p = refl
  length-take (suc n) [] p = absurd (omega arith)
  length-take (suc n) (x ∷ xs) p = omega (arith, length-take n xs (omega arith))

  pub take-append-drop : (n : ℕ) (xs : List M) → take n xs ++ drop n xs ≡ xs
  take-append-drop zero xs = refl
  take-append-drop (suc n) [] = refl
  take-append-drop (suc n) (x ∷ xs) = ap (λ t. x ∷ t) (take-append-drop n xs)

  pub drop-drop : (i n m : ℕ) (xs : List M) → n + i ≡ m → drop n (drop i xs) ≡ drop m xs
  drop-drop zero n m xs e = let same : n ≡ m = omega arith in λ j. drop (same j) xs
  drop-drop (suc i) zero zero xs e = absurd (omega arith)
  drop-drop (suc i) (suc n) zero xs e = absurd (omega arith)
  drop-drop (suc i) zero (suc m) [] e = refl
  drop-drop (suc i) (suc n) (suc m) [] e = refl
  drop-drop (suc i) n (suc m) (x ∷ xs) e = drop-drop i n m xs (omega arith)

  pub drop-all : (i : ℕ) (xs : List M) → length xs ≤ i → drop i xs ≡ []
  drop-all zero [] p = refl
  drop-all zero (x ∷ xs) p = absurd (omega arith)
  drop-all (suc i) [] p = refl
  drop-all (suc i) (x ∷ xs) p = drop-all i xs (omega arith)

  -- Fewer are taken than asked for when there are no more.
  pub take-short : (n : ℕ) (xs : List M) → length (take n xs) < n → take n xs ≡ xs
  take-short zero xs p = absurd (omega arith)
  take-short (suc n) [] p = refl
  take-short (suc n) (x ∷ xs) p = ap (λ t. x ∷ t) (take-short n xs (omega arith))

  pub length-take_le : (n : ℕ) (xs : List M) → length (take n xs) ≤ n
  length-take_le zero xs = omega arith
  length-take_le (suc n) [] = omega arith
  length-take_le (suc n) (x ∷ xs) = omega (arith, length-take_le n xs)

  pub empty_of_length : (xs : List M) → length xs ≡ 0 → xs ≡ []
  empty_of_length [] p = refl
  empty_of_length (x ∷ xs) p = absurd (omega arith)
