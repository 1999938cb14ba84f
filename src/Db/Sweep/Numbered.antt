-- ===== src/Db/Sweep/Numbered.antt =====
-- Sweeps of keys that end in a big-endian number.
use opinit_bots.Base.{
  ℕ, ◌^◌, ◌<◌, ◌≡◌, refl, ◌∙◌, ap, true, false, Option, none, some, length, [], ◌∷◌, ◌++◌, leb,
  arith, append_assoc, sym,
}
use opinit_bots.Db.{Bytes}
use opinit_bots.Db.Keys.{splitter, from_uint64_key, generate_key, append_splitter}
use opinit_bots.Db.Keys.Order.{bytes_lt-from_uint64_key, bytes_lt-append}
use opinit_bots.Db.Level.{LevelDb, prefixed_key}
use opinit_bots.Db.Iterator.{bytes_lt, has_prefix}
use opinit_bots.Db.Sweep.Swept.{swept}

pub has_prefix-append : (p xs : Bytes) → has_prefix p (p ++ xs) ≡ true
unfolding has_prefix
has_prefix-append [] xs = refl
has_prefix-append (x ∷ p) xs = ground (arith, has_prefix-append p xs)

pub has_prefix-common : (p q xs : Bytes) → has_prefix (p ++ q) (p ++ xs) ≡ has_prefix q xs
unfolding has_prefix
has_prefix-common [] q xs = refl
has_prefix-common (x ∷ p) q xs = ground (arith, has_prefix-common p q xs)

bytes_lt-longer :
    (xs more ys : Bytes) → length xs ≡ length ys → bytes_lt (xs ++ more) ys ≡ bytes_lt xs ys
unfolding bytes_lt
bytes_lt-longer [] [] [] e = refl
bytes_lt-longer [] (x ∷ xs) [] e = refl
bytes_lt-longer [] more (y ∷ ys) e = absurd (omega arith)
bytes_lt-longer (x ∷ xs) more [] e = absurd (omega arith)
bytes_lt-longer (x ∷ xs) more (y ∷ ys) e = ground (arith, bytes_lt-longer xs more ys (omega arith))

length-key : (a b : ℕ) → length (from_uint64_key a) ≡ length (from_uint64_key b)
unfolding from_uint64_key
length-key a b = refl

module _ {L : Type 0} (db : LevelDb L) where
  -- Under a handle, the prefix of the handle does not matter.
  pub has_prefix-prefixed_key :
      (prefix key : Bytes)
      → has_prefix (prefixed_key db prefix) (prefixed_key db key) ≡ has_prefix prefix key
  unfolding prefixed_key
  has_prefix-prefixed_key prefix key = has_prefix-common (db.prefix ++ splitter ∷ []) prefix key

  pub bytes_lt-prefixed_key :
      (j k : Bytes) → bytes_lt (prefixed_key db j) (prefixed_key db k) ≡ bytes_lt j k
  unfolding prefixed_key
  bytes_lt-prefixed_key j k = bytes_lt-append (db.prefix ++ splitter ∷ []) j k

  -- Of the keys with one prefix and a number, and maybe more, a sweep from a number on takes those whose
  -- number is not less.
  pub swept-numbered :
      (prefix : Bytes) (from n : ℕ) (more : Bytes)
      → from < 2 ^ 64
      → n < 2 ^ 64
      → swept db
          (append_splitter prefix)
          (some (generate_key (prefix ∷ from_uint64_key from ∷ [])))
          (prefixed_key db (generate_key (prefix ∷ (from_uint64_key n ++ more) ∷ [])))
        ≡ leb from n
  unfolding swept append_splitter generate_key
  swept-numbered prefix from n more p q =
      let number = from_uint64_key n ++ more in
      let below =
        has_prefix-prefixed_key (prefix ++ splitter ∷ []) (prefix ++ splitter ∷ number)
        ∙ ap (has_prefix (prefix ++ splitter ∷ []))
            (sym (append_assoc prefix (splitter ∷ []) number))
        ∙ has_prefix-append (prefix ++ splitter ∷ []) number in
      let order =
        bytes_lt-prefixed_key (prefix ++ splitter ∷ number)
          (prefix ++ splitter ∷ from_uint64_key from)
        ∙ bytes_lt-append prefix (splitter ∷ number) (splitter ∷ from_uint64_key from)
        ∙ bytes_lt-append (splitter ∷ []) number (from_uint64_key from)
        ∙ bytes_lt-longer (from_uint64_key n) more (from_uint64_key from) (length-key n from)
        ∙ bytes_lt-from_uint64_key n from q p in
      ground (arith, below, order)

  -- A sweep leaves what stands under another prefix.
  pub swept-elsewhere :
      (prefix : Bytes) (start : Option Bytes) (key : Bytes)
      → has_prefix prefix key ≡ false
      → swept db prefix start (prefixed_key db key) ≡ false
  unfolding swept
  swept-elsewhere prefix start key h = ground (arith, has_prefix-prefixed_key prefix key)

  -- Without a bound, it takes what stands under the prefix.
  pub swept-all :
      (prefix key : Bytes) → swept db prefix none (prefixed_key db key) ≡ has_prefix prefix key
  unfolding swept
  swept-all prefix key = ground (arith, has_prefix-prefixed_key prefix key)
