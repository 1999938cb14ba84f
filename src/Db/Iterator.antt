-- ===== src/Db/Iterator.antt =====
-- db/db.go: walks over the entries under a prefix. An iterator is the list of its entries, in the order
-- of their keys; that iter.Error() reports nothing is assumed.
pub mod Seek
use opinit_bots.Base.{
  ℕ, Bool, true, false, not, ◌==◌, ltb, Option, none, some, List, [], ◌∷◌, ◌++◌, if◌then◌else◌,
}
use opinit_bots.Base.Bytes.{bytes_equal}
use opinit_bots.Base.Result.{Result, ok, err, ◌>>=◌}
use opinit_bots.Db.{Bytes, DbError, not_found}
use opinit_bots.Db.Level.{Level, LevelDb, prefixed_key, unprefixed_key}

abbrev pub Entries : Type 0
Entries = List (Bytes × Bytes)

-- The order of leveldb's default comparer, bytes.Compare.
unfoldable pub bytes_lt : Bytes → Bytes → Bool
bytes_lt xs [] = false
bytes_lt [] (y ∷ ys) = true
bytes_lt (x ∷ xs) (y ∷ ys) = let rest = bytes_lt xs ys in if x == y then rest else ltb x y

unfoldable pub has_prefix : Bytes → Bytes → Bool
has_prefix [] key = true
has_prefix (p ∷ ps) [] = false
has_prefix (p ∷ ps) (k ∷ ks) = let rest = has_prefix ps ks in if p == k then rest else false

-- util.BytesPrefix
unfoldable pub under : Bytes → Entries → Entries
unfolding has_prefix
under prefix [] = []
under prefix (e ∷ es) =
    let rest = under prefix es in if has_prefix prefix e.0 then e ∷ rest else rest

-- What is left from Seek on: the first key that is not less, and those after it.
unfoldable pub seek : Bytes → Entries → Entries
unfolding bytes_lt
seek key [] = []
seek key (e ∷ es) = let rest = seek key es in if bytes_lt e.0 key then rest else e ∷ es

-- The entries before that, the nearest first.
unfoldable pub before : Bytes → Entries → Entries → Entries
unfolding bytes_lt
before key [] passed = passed
before key (e ∷ es) passed =
    let rest = before key es (e ∷ passed) in if bytes_lt e.0 key then rest else passed

-- A callback gives whether to stop, and the variables that it changes.
abbrev pub Callback : Type 0 → Type 0 → Type 0
Callback E A = Bytes → Bytes → A → Result E (Bool × A)

unfoldable pub walk : {E A : Type 0} → (Bytes → Bytes) → Callback E A → Entries → A → Result E A
walk unprefixed callback [] a = ok a
walk unprefixed callback (e ∷ es) a = do
  (stop, a') ← callback (unprefixed e.0) e.1 a
  let rest = walk unprefixed callback es a'
  if stop then ok a' else rest

-- The entries that SeekPrevInclusiveKey and ReverseIterate start at, and those before it: none when
-- the iterator has been moved before its first entry.
unfoldable pub seek_back : Bytes → Entries → Option Entries
unfolding seek before
seek_back key entries =
    let passed = before key entries [] in
    elim (seek key entries) [
      | e ∷ es ↦ if bytes_equal key e.0 then some (e ∷ passed) else some passed
      | [] ↦ elim passed [ [] ↦ none | p ∷ ps ↦ some (p ∷ ps) ]
    ]

abbrev pub reversed : Entries → Entries → Entries
reversed [] acc = acc
reversed (e ∷ es) acc = reversed es (e ∷ acc)

module _ {L : Type 0} (level : Level L) where
  unfoldable pub iterate :
      {E A : Type 0} → LevelDb L → Bytes → Option Bytes → Callback E A → A → Result E A
  unfolding under seek walk
  iterate db prefix start callback a =
      let entries = under (prefixed_key db prefix) (level.entries db.db) in
      elim start [
        | none ↦ walk (unprefixed_key db) callback entries a
        | some key ↦ walk (unprefixed_key db) callback (seek (prefixed_key db key) entries) a
      ]

  unfoldable pub reverse_iterate :
      {E A : Type 0} → LevelDb L → Bytes → Option Bytes → Callback E A → A → Result E A
  unfolding under seek_back walk
  reverse_iterate db prefix start callback a =
      let entries = under (prefixed_key db prefix) (level.entries db.db) in
      elim start [
        | none ↦ walk (unprefixed_key db) callback (reversed entries []) a
        | some key ↦ elim (seek_back (prefixed_key db key) entries) [
          | none ↦ ok a
          | some es ↦ walk (unprefixed_key db) callback es a
        ]
      ]

  -- A key and a value that are nil are no bytes.
  unfoldable pub seek_prev_inclusive_key :
      LevelDb L → Bytes → Bytes → Result DbError (Bytes × Bytes)
  seek_prev_inclusive_key db prefix key =
      elim (seek_back (prefixed_key db key)
        (under (prefixed_key db prefix) (level.entries db.db))) [
          | none ↦ err not_found
          | some es ↦ elim es [
            | [] ↦ ok (unprefixed_key db [], [])
            | e ∷ rest ↦ ok (unprefixed_key db e.0, e.1)
          ]
        ]
