-- ===== src/Db/Iterator/Seek.antt =====
-- What SeekPrevInclusiveKey finds.
use opinit_bots.Base.{
  ◌≡◌, ◌⊎◌, refl, ◌∙◌, true, false, Option, none, some, [], ◌∷◌, ◌++◌, All, if◌then◌else◌, arith,
  inl, inr,
}
use opinit_bots.Base.Bytes.{bytes_equal, bytes_equal_refl}
use opinit_bots.Base.Result.{ok}
use opinit_bots.Db.{Bytes}
use opinit_bots.Db.Level.{Level, LevelDb, prefixed_key, unprefixed_key}
use opinit_bots.Db.Iterator.{
  Entries, bytes_lt, seek, before, seek_back, reversed, under, seek_prev_inclusive_key,
}

bytes_lt_irrefl : (k : Bytes) → bytes_lt k k ≡ false
unfolding bytes_lt
bytes_lt_irrefl [] = refl
bytes_lt_irrefl (x ∷ k) = ground (arith, bytes_lt_irrefl k)

bytes_lt_asymm : (j k : Bytes) → bytes_lt j k ≡ true → bytes_lt k j ≡ false
unfolding bytes_lt
bytes_lt_asymm j [] p = cc
bytes_lt_asymm [] (y ∷ k) p = refl
bytes_lt_asymm (x ∷ j) (y ∷ k) p = ground (arith, bytes_lt_asymm j k)

bytes_lt-bytes_equal : (j k : Bytes) → bytes_lt j k ≡ true → bytes_equal j k ≡ false
unfolding bytes_lt bytes_equal
bytes_lt-bytes_equal j [] p = cc
bytes_lt-bytes_equal [] (y ∷ k) p = refl
bytes_lt-bytes_equal (x ∷ j) (y ∷ k) p = ground (arith, bytes_lt-bytes_equal j k)

-- The key of an entry is less than the key, or greater.
abbrev pub IsBelow : Bytes → Bytes × Bytes → Type 0
IsBelow key e = bytes_lt e.0 key ≡ true

abbrev pub IsAbove : Bytes → Bytes × Bytes → Type 0
IsAbove key e = bytes_lt key e.0 ≡ true

seek-above : (key : Bytes) (upper : Entries) → All (IsAbove key) upper → seek key upper ≡ upper
unfolding seek
seek-above key [] all = refl
seek-above key (e ∷ es) all = rw (bytes_lt_asymm key e.0 all.0) refl

before-above :
    (key : Bytes) (upper passed : Entries)
    → All (IsAbove key) upper
    → before key upper passed ≡ passed
unfolding before
before-above key [] passed all = refl
before-above key (e ∷ es) passed all = rw (bytes_lt_asymm key e.0 all.0) refl

seek-append :
    (key : Bytes) (lower upper : Entries)
    → All (IsBelow key) lower
    → seek key (lower ++ upper) ≡ seek key upper
unfolding seek
seek-append key [] upper all = refl
seek-append key (e ∷ es) upper all = rw (all.0) (seek-append key es upper all.1)

before-append :
    (key : Bytes) (lower upper passed : Entries)
    → All (IsBelow key) lower
    → before key (lower ++ upper) passed ≡ before key upper (reversed lower passed)
unfolding before
before-append key [] upper passed all = refl
before-append key (e ∷ es) upper passed all =
    rw (all.0) (before-append key es upper (e ∷ passed) all.1)

-- What the iterator is at after Seek, for the entries around it.
unfoldable seek_back_at : (key : Bytes) → Entries → Entries → Option Entries
unfolding seek_back
seek_back_at key es passed = elim es [
  | e ∷ rest ↦ if bytes_equal key e.0 then some (e ∷ passed) else some passed
  | [] ↦ elim passed [ [] ↦ none | p ∷ ps ↦ some (p ∷ ps) ]
]

seek_back-at :
    (key : Bytes) (entries : Entries)
    → seek_back key entries ≡ seek_back_at key (seek key entries) (before key entries [])
unfolding seek_back seek_back_at
seek_back-at key entries = refl

at-above :
    (key : Bytes) (upper passed : Entries) (e : Bytes × Bytes)
    → All (IsAbove key) upper
    → seek_back_at key upper (e ∷ passed) ≡ some (e ∷ passed)
unfolding seek_back_at
at-above key [] passed e all = refl
at-above key (u ∷ us) passed e all = rw (bytes_lt-bytes_equal key u.0 all.0) refl

at-exact :
    (key : Bytes) (upper passed : Entries) (e : Bytes × Bytes)
    → e.0 ≡ key
    → seek_back_at key (seek key (e ∷ upper)) (before key (e ∷ upper) passed) ≡ some (e ∷ passed)
unfolding seek before seek_back_at
at-exact key upper passed e same =
    let not_less : bytes_lt e.0 key ≡ false = rw same (bytes_lt_irrefl key) in
    let equal : bytes_equal key e.0 ≡ true = rw same (bytes_equal_refl key) in
    rw (not_less, equal) refl

at-below :
    (key : Bytes) (upper passed : Entries) (e : Bytes × Bytes)
    → IsBelow key e
    → All (IsAbove key) upper
    → seek_back_at key (seek key (e ∷ upper)) (before key (e ∷ upper) passed) ≡ some (e ∷ passed)
unfolding seek before
at-below key upper passed e less above =
    rw (less, seek-above key upper above, before-above key upper (e ∷ passed) above)
      (at-above key upper passed e above)

-- The last entry whose key is at most the given one.
seek_back-last :
    (key : Bytes) (lower upper : Entries) (e : Bytes × Bytes)
    → All (IsBelow key) lower
    → IsBelow key e ⊎ (e.0 ≡ key)
    → All (IsAbove key) upper
    → seek_back key (lower ++ e ∷ upper) ≡ some (e ∷ reversed lower [])
seek_back-last key lower upper e below (inr same) above =
    seek_back-at key (lower ++ e ∷ upper)
    ∙ rw (seek-append key lower (e ∷ upper) below, before-append key lower (e ∷ upper) [] below)
        (at-exact key upper (reversed lower []) e same)
seek_back-last key lower upper e below (inl less) above =
    seek_back-at key (lower ++ e ∷ upper)
    ∙ rw (seek-append key lower (e ∷ upper) below, before-append key lower (e ∷ upper) [] below)
        (at-below key upper (reversed lower []) e less above)

none-below :
    (key : Bytes) (upper : Entries)
    → (u : Bytes × Bytes) → All (IsAbove key) (u ∷ upper)
    → seek_back key (u ∷ upper) ≡ some []
unfolding seek_back
none-below key upper u above =
    rw (seek-above key (u ∷ upper) above, before-above key (u ∷ upper) [] above, seek_back)
      (rw (bytes_lt-bytes_equal key u.0 above.0) refl)

module _ {L : Type 0} (level : Level L) (db : LevelDb L) (prefix key : Bytes) where
  -- When the entries under the prefix are those below the key, an entry with the key or below it, and those
  -- above it, in this order, SeekPrevInclusiveKey returns the key of that entry, without the prefix
  -- of the store, and its value: the last entry whose key is at most the given one.
  pub seek_prev_inclusive_key-last :
      (lower upper : Entries) (e : Bytes × Bytes)
      → under (prefixed_key db prefix) (level.entries db.db) ≡ lower ++ e ∷ upper
      → All (IsBelow (prefixed_key db key)) lower
      → IsBelow (prefixed_key db key) e ⊎ (e.0 ≡ prefixed_key db key)
      → All (IsAbove (prefixed_key db key)) upper
      → seek_prev_inclusive_key level db prefix key ≡ ok (unprefixed_key db e.0, e.1)
  unfolding seek_prev_inclusive_key
  seek_prev_inclusive_key-last lower upper e split below at above =
      rw
        (
          split,
          seek_back-last (prefixed_key db key) lower upper e below at above,
          seek_prev_inclusive_key,
        )
        refl

  -- When there are entries under the prefix and the keys of all are above the given one, SeekPrevInclusiveKey
  -- returns no error, but an empty key and an empty value.
  pub seek_prev_inclusive_key-none_below :
      (upper : Entries) (u : Bytes × Bytes)
      → under (prefixed_key db prefix) (level.entries db.db) ≡ u ∷ upper
      → All (IsAbove (prefixed_key db key)) (u ∷ upper)
      → seek_prev_inclusive_key level db prefix key ≡ ok (unprefixed_key db [], [])
  unfolding seek_prev_inclusive_key
  seek_prev_inclusive_key-none_below upper u split above =
      rw (split, none-below (prefixed_key db key) upper u above, seek_prev_inclusive_key) refl
