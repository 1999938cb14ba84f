-- ===== src/Db/Level.antt =====
-- db/db.go: a store of byte strings under a prefix, on top of goleveldb. `Level` is what the code calls
-- of that library, and `LevelLaws` what its documentation promises.
pub mod Reads
use opinit_bots.Base.{
  ◌≡◌, refl, sym, ap, ◌∙◌, Option, none, some, List, [], ◌∷◌, ◌++◌, if◌then◌else◌, arith,
  Bool-cases, inl, inr, map, ◌==◌,
}
use opinit_bots.Base.Bytes.{bytes_equal, bytes_equal_iff, bytes_equal_refl}
use opinit_bots.Base.Result.{Result, ok, err}
use opinit_bots.Db.{Bytes, DbError, not_found}
use opinit_bots.Db.Keys.{splitter}

-- An entry of a leveldb.Batch.
pub data Change : Type 0 where
  put : Bytes → Bytes → Change
  delete : Bytes → Change

-- What a key holds after one change, and after several, when it held `held` before.
abbrev pub changed : Bytes → Change → Option Bytes → Option Bytes
changed k (put j v) held = if bytes_equal j k then some v else held
changed k (delete j) held = if bytes_equal j k then none else held

abbrev pub changed_all : Bytes → List Change → Option Bytes → Option Bytes
changed_all k [] held = held
changed_all k (c ∷ cs) held = changed_all k cs (changed k c held)

-- leveldb.ErrNotFound is dbtypes.ErrNotFound.
abbrev pub found : Option Bytes → Result DbError Bytes
found none = err not_found
found (some v) = ok v

-- The library's calls over its state `L`. A read of the library fails only when the key is missing; its other
-- read errors, as of a damaged file, are not modelled.
pub record Level (L : Type 0) : Type 0 where
  pub held : L → Bytes → Option Bytes
  pub write : L → List Change → Result DbError L
  -- what an iterator over everything walks through, in the order of the keys
  pub entries : L → List (Bytes × Bytes)

abbrev pub without : Bytes → List (Bytes × Bytes) → List (Bytes × Bytes)
without k [] = []
without k (e ∷ es) = if bytes_equal e.0 k then without k es else e ∷ without k es

-- A write that succeeds applies the changes of the batch in their order; a deletion takes the entry of
-- its key away.
pub record LevelLaws {L : Type 0} (level : Level L) : Type 0 where
  pub held-write :
      (l : L) (cs : List Change) {l' : L} (k : Bytes)
      → level.write l cs ≡ ok l'
      → level.held l' k ≡ changed_all k cs (level.held l k)
  pub entries-delete :
      (l : L) (k : Bytes) {l' : L}
      → level.write l (delete k ∷ []) ≡ ok l'
      → level.entries l' ≡ without k (level.entries l)

-- A handle: the library's store and a prefix.
pub record LevelDb (L : Type 0) : Type 0 where
  pub db : L
  pub prefix : Bytes

unfoldable pub prefixed_key : {L : Type 0} → LevelDb L → Bytes → Bytes
prefixed_key db key = (db.prefix ++ splitter ∷ []) ++ key

-- bytes.TrimPrefix
abbrev pub trim_prefix : Bytes → Bytes → Option Bytes
trim_prefix [] key = some key
trim_prefix (p ∷ ps) [] = none
trim_prefix (p ∷ ps) (k ∷ ks) = if p == k then trim_prefix ps ks else none

unfoldable pub unprefixed_key : {L : Type 0} → LevelDb L → Bytes → Bytes
unprefixed_key db key = elim (trim_prefix (db.prefix ++ splitter ∷ []) key) [
  | none ↦ key
  | some rest ↦ rest
]

unfoldable pub with_prefix : {L : Type 0} → Bytes → LevelDb L → LevelDb L
unfolding prefixed_key
with_prefix prefix db = record db { prefix = prefixed_key db prefix }

module _ {L : Type 0} (level : Level L) where
  abbrev pub rewritten : LevelDb L → Result DbError L → Result DbError (LevelDb L)
  rewritten db (ok l) = ok (record db { db = l })
  rewritten db (err e) = err e

  unfoldable pub level_get : LevelDb L → Bytes → Result DbError Bytes
  unfolding prefixed_key
  level_get db key = found (level.held db.db (prefixed_key db key))

  unfoldable pub level_set : LevelDb L → Bytes → Bytes → Result DbError (LevelDb L)
  unfolding prefixed_key
  level_set db key value = rewritten db (level.write db.db (put (prefixed_key db key) value ∷ []))

  unfoldable pub level_delete : LevelDb L → Bytes → Result DbError (LevelDb L)
  unfolding prefixed_key
  level_delete db key = rewritten db (level.write db.db (delete (prefixed_key db key) ∷ []))

  -- BatchSet; a nil value deletes.
  abbrev change_of : LevelDb L → Bytes × Option Bytes → Change
  change_of db (key, none) = delete (prefixed_key db key)
  change_of db (key, some value) = put (prefixed_key db key) value

  unfoldable pub batch_set : LevelDb L → List (Bytes × Option Bytes) → Result DbError (LevelDb L)
  unfolding prefixed_key
  batch_set db [] = ok db
  batch_set db (kv ∷ kvs) = rewritten db (level.write db.db (map (change_of db) (kv ∷ kvs)))

trim_prefix-append : (p k : Bytes) → trim_prefix p (p ++ k) ≡ some k
trim_prefix-append [] k = refl
trim_prefix-append (x ∷ p) k = ground (arith, trim_prefix-append p k)

-- Taking the prefix off a prefixed key gives the key back.
pub unprefixed_key-prefixed_key :
    {L : Type 0} (db : LevelDb L) (key : Bytes) → unprefixed_key db (prefixed_key db key) ≡ key
unfolding unprefixed_key prefixed_key
unprefixed_key-prefixed_key db key =
    rw (trim_prefix-append (db.prefix ++ splitter ∷ []) key, unprefixed_key) refl

pub prefixed_key-injective :
    {L : Type 0} (db : LevelDb L) (j k : Bytes) → prefixed_key db j ≡ prefixed_key db k → j ≡ k
prefixed_key-injective db j k e =
    sym (unprefixed_key-prefixed_key db j)
    ∙ ap (unprefixed_key db) e
    ∙ unprefixed_key-prefixed_key db k

-- The lookup of a key sees the same key only.
pub bytes_equal-prefixed_key :
    {L : Type 0} (db : LevelDb L) (j k : Bytes)
    → bytes_equal (prefixed_key db j) (prefixed_key db k) ≡ bytes_equal j k
bytes_equal-prefixed_key db j k = elim (Bool-cases (bytes_equal j k)) [
  | inl same ↦ ground (
    arith,
    bytes_equal_iff j k,
    bytes_equal_refl (prefixed_key db k),
    ap (prefixed_key db) ((bytes_equal_iff j k).0 same),
  )
  | inr other ↦ ground (
    arith,
    bytes_equal_iff j k,
    bytes_equal_iff (prefixed_key db j) (prefixed_key db k),
    prefixed_key-injective db j k,
  )
]
