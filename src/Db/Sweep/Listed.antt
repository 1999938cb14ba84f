-- ===== src/Db/Sweep/Listed.antt =====
-- The entries that an iterator walks over: those under a prefix, from a bound on.
use opinit_bots.Base.{
  ◌≡◌, refl, Bool, true, false, not, ◌&&◌, Option, none, some, List, [], ◌∷◌, ◌++◌, ◌==◌, arith,
  All, Bool-cases, inl, inr,
}
use opinit_bots.Base.Bytes.{bytes_equal_iff}
use opinit_bots.Db.{Bytes}
use opinit_bots.Db.Level.{trim_prefix}
use opinit_bots.Db.Stage.Commit.{among}
use opinit_bots.Db.Iterator.{Entries, bytes_lt, has_prefix, under, seek}
use opinit_bots.Db.Sweep.Ordered.{value_in, IsSorted, bytes_lt-above}

abbrev pub entry_keys : Entries → List Bytes
entry_keys [] = []
entry_keys (e ∷ es) = e.0 ∷ entry_keys es

-- The keys from a bound on, or all.
abbrev pub is_from : Option Bytes → Bytes → Bool
is_from none key = true
is_from (some bound) key = not (bytes_lt key bound)

abbrev pub from_bound : Option Bytes → Entries → Entries
from_bound none es = es
from_bound (some bound) es = seek bound es

pub has_prefix-trim :
    (p key : Bytes)
    → has_prefix p key ≡ true
    → (rest : Bytes) × (trim_prefix p key ≡ some rest) × (p ++ rest ≡ key)
unfolding has_prefix
has_prefix-trim [] key h = (key, refl, refl)
has_prefix-trim (p ∷ ps) [] h = absurd (ground arith)
has_prefix-trim (p ∷ ps) (k ∷ ks) h = elim (Bool-cases (p == k)) [
  | inr other ↦ absurd (ground arith)
  | inl same ↦
      let (rest, trimmed, joined) = has_prefix-trim ps ks (ground arith) in
      (rest, ground arith, ground (arith, joined))
]

pub has_prefix-shorter :
    (p q key : Bytes) → has_prefix (p ++ q) key ≡ true → has_prefix p key ≡ true
unfolding has_prefix
has_prefix-shorter [] q key h = refl
has_prefix-shorter (p ∷ ps) q [] h = absurd (ground arith)
has_prefix-shorter (p ∷ ps) q (k ∷ ks) h = ground (arith, has_prefix-shorter ps q ks)

pub under-All : (p : Bytes) (es : Entries) → All (λ e. has_prefix p e.0 ≡ true) (under p es)
unfolding under
under-All p [] = tt
under-All p (e ∷ es) = elim (Bool-cases (has_prefix p e.0)) [
  | inl below ↦ rw below (below, under-All p es)
  | inr other ↦ rw other (under-All p es)
]

All-under : (P : Bytes × Bytes → Type 0) (p : Bytes) (es : Entries) → All P es → All P (under p es)
unfolding under
All-under P p [] all = tt
All-under P p (e ∷ es) all = elim (Bool-cases (has_prefix p e.0)) [
  | inl below ↦ rw below (all.0, All-under P p es all.1)
  | inr other ↦ rw other (All-under P p es all.1)
]

pub under-IsSorted : (p : Bytes) (es : Entries) → IsSorted es → IsSorted (under p es)
unfolding under
under-IsSorted p [] sorted = tt
under-IsSorted p (e ∷ es) sorted = elim (Bool-cases (has_prefix p e.0)) [
  | inl below ↦ rw below (All-under _ p es sorted.0, under-IsSorted p es sorted.1)
  | inr other ↦ rw other (under-IsSorted p es sorted.1)
]

pub among-under :
    (p k : Bytes) (es : Entries)
    → among k (entry_keys (under p es)) ≡ (has_prefix p k && among k (entry_keys es))
unfolding under
among-under p k [] = ground arith
among-under p k (e ∷ es) = ground (arith, among-under p k es, bytes_equal_iff e.0 k)

-- Nothing below a bound stands among entries that are all at or beyond it.
among-All :
    (bound k : Bytes) (es : Entries)
    → All (λ e. bytes_lt e.0 bound ≡ false) es
    → among k (entry_keys es) ≡ (among k (entry_keys es) && not (bytes_lt k bound))
among-All bound k [] all = refl
among-All bound k (e ∷ es) all =
    ground (arith, among-All bound k es all.1, bytes_equal_iff e.0 k, all.0)

All-above :
    (bound x : Bytes) (es : Entries)
    → bytes_lt x bound ≡ false
    → All (λ f. bytes_lt x f.0 ≡ true) es
    → All (λ e. bytes_lt e.0 bound ≡ false) es
All-above bound x [] p all = tt
All-above bound x (e ∷ es) p all =
    (bytes_lt-above bound x e.0 p all.0, All-above bound x es p all.1)

among-seek :
    (bound k : Bytes) (es : Entries)
    → IsSorted es
    → among k (entry_keys (seek bound es)) ≡ (among k (entry_keys es) && not (bytes_lt k bound))
unfolding seek
among-seek bound k [] sorted = refl
among-seek bound k (e ∷ es) sorted = elim (Bool-cases (bytes_lt e.0 bound)) [
  | inl below ↦ rw below (ground (arith, among-seek bound k es sorted.1, bytes_equal_iff e.0 k))
  | inr above ↦ rw above (among-All bound k (e ∷ es) (above, All-above bound e.0 es above sorted.0))
]

pub among-from_bound :
    (start : Option Bytes) (k : Bytes) (es : Entries)
    → IsSorted es
    → among k (entry_keys (from_bound start es)) ≡ (among k (entry_keys es) && is_from start k)
among-from_bound none k es sorted = ground arith
among-from_bound (some bound) k es sorted = among-seek bound k es sorted

pub value_in-none :
    (k : Bytes) (es : Entries) → among k (entry_keys es) ≡ false → value_in k es ≡ none
value_in-none k [] h = refl
value_in-none k (e ∷ es) h = ground (arith, value_in-none k es)

seek-All :
    (P : Bytes × Bytes → Type 0) (bound : Bytes) (es : Entries) → All P es → All P (seek bound es)
unfolding seek
seek-All P bound [] all = tt
seek-All P bound (e ∷ es) all = elim (Bool-cases (bytes_lt e.0 bound)) [
  | inl below ↦ rw below (seek-All P bound es all.1)
  | inr above ↦ rw above all
]

pub from_bound-All :
    (P : Bytes × Bytes → Type 0) (start : Option Bytes) (es : Entries)
    → All P es
    → All P (from_bound start es)
from_bound-All P none es all = all
from_bound-All P (some bound) es all = seek-All P bound es all
