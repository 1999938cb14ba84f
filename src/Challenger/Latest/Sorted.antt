-- ===== src/Challenger/Latest/Sorted.antt =====
-- Inserting into sorted challenges, and the sorting of a slice.
use opinit_bots.Base.{
  ◌+◌, ◌≡◌, refl, ◌∙◌, ap, true, false, List, [], ◌∷◌, ◌++◌, length, All, All-append, append_assoc,
  sym, arith, Bool-cases, inl, inr,
}
use mathlib.Core.List.{append-nil}
use opinit_bots.Challenger.Event.{Challenge}
use opinit_bots.Challenger.Latest.{challenge_lt, insert, sort_into, sorted_slice}

-- Each challenge comes before none that is less.
abbrev pub IsAscending : List Challenge → Type 0
IsAscending [] = Unit
IsAscending (c ∷ cs) = All (λ d. challenge_lt d c ≡ false) cs × IsAscending cs

pub challenge_lt-false : (a b : Challenge) → challenge_lt a b ≡ true → challenge_lt b a ≡ false
unfolding challenge_lt
challenge_lt-false a b h = ground arith

-- `c` before `d`, and `e` not before `d`.
pub challenge_lt-through :
    (c d e : Challenge)
    → challenge_lt c d ≡ true
    → challenge_lt e d ≡ false
    → challenge_lt c e ≡ true
unfolding challenge_lt
challenge_lt-through c d e p q = ground arith

pub challenge_lt-below :
    (c d e : Challenge)
    → challenge_lt c d ≡ false
    → challenge_lt e c ≡ false
    → challenge_lt e d ≡ false
unfolding challenge_lt
challenge_lt-below c d e p q = ground arith

pub length-insert : (c : Challenge) (ds : List Challenge) → length (insert c ds) ≡ length ds + 1
unfolding insert
length-insert c [] = omega arith
length-insert c (d ∷ ds) = elim (Bool-cases (challenge_lt c d)) [
  | inl before ↦ rw before (omega arith)
  | inr after' ↦ rw after' (omega (arith, length-insert c ds))
]

pub All-insert :
    (P : Challenge → Type 0) (c : Challenge) (ds : List Challenge)
    → P c
    → All P ds
    → All P (insert c ds)
unfolding insert
All-insert P c [] p all = (p, tt)
All-insert P c (d ∷ ds) p all = elim (Bool-cases (challenge_lt c d)) [
  | inl before ↦ rw before (p, all)
  | inr after' ↦ rw after' (all.0, All-insert P c ds p all.1)
]

pub below-All :
    (c d : Challenge) (es : List Challenge)
    → challenge_lt c d ≡ true
    → All (λ e. challenge_lt e d ≡ false) es
    → All (λ e. challenge_lt e c ≡ false) es
below-All c d [] p all = tt
below-All c d (e ∷ es) p all =
    (challenge_lt-false c e (challenge_lt-through c d e p all.0), below-All c d es p all.1)

pub insert-IsAscending :
    (c : Challenge) (ds : List Challenge) → IsAscending ds → IsAscending (insert c ds)
unfolding insert
insert-IsAscending c [] sorted = (tt, tt)
insert-IsAscending c (d ∷ ds) sorted = elim (Bool-cases (challenge_lt c d)) [
  | inl before ↦
      rw before ((challenge_lt-false c d before, below-All c d ds before sorted.0), sorted)
  | inr after' ↦ rw after' (
    All-insert (λ e. challenge_lt e d ≡ false) c ds after' sorted.0,
    insert-IsAscending c ds sorted.1,
  )
]

-- Onto a sorted slice, one that is not less than any is inserted at the end.
pub append-insert :
    (c : Challenge) (ds : List Challenge)
    → All (λ d. challenge_lt c d ≡ false) ds
    → insert c ds ≡ ds ++ c ∷ []
unfolding insert
append-insert c [] all = refl
append-insert c (d ∷ ds) all = rw (all.0) (ap (λ t. d ∷ t) (append-insert c ds all.1))

pub sort_into-append :
    (sorted cs ds : List Challenge)
    → sort_into sorted (cs ++ ds) ≡ sort_into (sort_into sorted cs) ds
unfolding sort_into
sort_into-append sorted [] ds = refl
sort_into-append sorted (c ∷ cs) ds = sort_into-append (insert c sorted) cs ds

-- A slice that is sorted already stays as it is.
abbrev pub Precedes : List Challenge → List Challenge → Type 0
Precedes xs [] = Unit
Precedes xs (c ∷ cs) = All (λ d. challenge_lt c d ≡ false) xs × Precedes xs cs

pub Precedes-append :
    (c : Challenge) (xs cs : List Challenge)
    → Precedes xs cs
    → All (λ d. challenge_lt d c ≡ false) cs
    → Precedes (xs ++ c ∷ []) cs
Precedes-append c xs [] p all = tt
Precedes-append c xs (d ∷ ds) p all = (
  All-append (λ e. challenge_lt d e ≡ false) xs (c ∷ []) p.0 (all.0, tt),
  Precedes-append c xs ds p.1 all.1,
)

pub sort_into-sorted :
    (xs cs : List Challenge) → IsAscending cs → Precedes xs cs → sort_into xs cs ≡ xs ++ cs
unfolding sort_into
sort_into-sorted xs [] sorted p = sym (append-nil xs)
sort_into-sorted xs (c ∷ cs) sorted p =
    ap (λ t. sort_into t cs) (append-insert c xs p.0)
    ∙ sort_into-sorted (xs ++ c ∷ []) cs sorted.1 (Precedes-append c xs cs p.1 sorted.0)
    ∙ append_assoc xs (c ∷ []) cs

pub Precedes-nil : (cs : List Challenge) → Precedes [] cs
Precedes-nil [] = tt
Precedes-nil (c ∷ cs) = (tt, Precedes-nil cs)

pub sorted_slice-append :
    (c : Challenge) (cs : List Challenge)
    → IsAscending cs
    → sorted_slice (cs ++ c ∷ []) ≡ insert c cs
unfolding sorted_slice sort_into
sorted_slice-append c cs sorted =
    sort_into-append [] cs (c ∷ [])
    ∙ ap (insert c) (sort_into-sorted [] cs sorted (Precedes-nil cs))
