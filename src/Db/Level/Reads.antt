-- ===== src/Db/Level/Reads.antt =====
-- What is read after a write to the store itself.
use opinit_bots.Base.{
  ◌≡◌, refl, ap, ◌∙◌, Bool, true, false, Option, some, [], ◌∷◌, if◌then◌else◌, arith, subst,
}
use opinit_bots.Base.Bytes.{bytes_equal}
use opinit_bots.Base.Result.{Result, ok, err}
use opinit_bots.Db.{Bytes, DbError}
use opinit_bots.Db.Level.{
  Level, LevelLaws, LevelDb, put, prefixed_key, level_get, level_set, found, rewritten,
  bytes_equal-prefixed_key,
}

ok-injective : {A : Type 0} (a b : A) → ◌≡◌ {A = Result DbError A} (ok a) (ok b) → a ≡ b
ok-injective a b e = cc

module _ {L : Type 0} (level : Level L) (laws : LevelLaws level) (db : LevelDb L)
    (k v j : Bytes) where
  -- After a successful Set, the key shows the value, and every other key what it showed.
  pub level_get-level_set :
      (db' : LevelDb L)
      → level_set level db k v ≡ ok db'
      → level_get level db' j ≡ (if bytes_equal k j then ok v else level_get level db j)
  unfolding level_set level_get
  level_get-level_set db' run =
      written (level.write db.db (put (prefixed_key db k) v ∷ [])) refl run
    where
      shown :
          (b : Bool) (held : Option Bytes)
          → found (if b then some v else held) ≡ (if b then ok v else found held)
      shown true held = refl
      shown false held = refl

      read :
          (l : L)
          → level.write db.db (put (prefixed_key db k) v ∷ []) ≡ ok l
          → level_get level (record db { db = l }) j
            ≡ (if bytes_equal k j then ok v else level_get level db j)
      read l wrote =
          ap found
            (laws.held-write db.db (put (prefixed_key db k) v ∷ []) (prefixed_key db j) wrote)
          ∙ shown (bytes_equal (prefixed_key db k) (prefixed_key db j))
              (level.held db.db (prefixed_key db j))
          ∙ (λ i.
              if bytes_equal-prefixed_key db k j i
              then ok v
              else found (level.held db.db (prefixed_key db j)))

      written :
          (x : Result DbError L)
          → level.write db.db (put (prefixed_key db k) v ∷ []) ≡ x
          → rewritten level db x ≡ ok db'
          → level_get level db' j ≡ (if bytes_equal k j then ok v else level_get level db j)
      written (ok l) wrote same =
          subst
            (λ d. level_get level d j ≡ (if bytes_equal k j then ok v else level_get level db j))
            (ok-injective (record db { db = l }) db' same) (read l wrote)
      written (err e) wrote same = absurd (ground arith)
