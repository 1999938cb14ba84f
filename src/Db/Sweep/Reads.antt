-- ===== src/Db/Sweep/Reads.antt =====
-- What a handle reads after a sweep.
use opinit_bots.Base.{
  ℕ, ◌^◌, ◌<◌, ◌≡◌, refl, ◌∙◌, ap, Bool, true, false, [], ◌∷◌, ◌++◌, none, some, leb, if◌then◌else◌,
}
use opinit_bots.Base.Result.{ok, err}
use opinit_bots.Db.{Bytes, not_found}
use opinit_bots.Db.Keys.{append_splitter, from_uint64_key, generate_key}
use opinit_bots.Db.Level.{Level, LevelLaws, LevelDb, prefixed_key, level_get, found}
use opinit_bots.Db.Iterator.{has_prefix}
use opinit_bots.Db.Sweep.{sweep}
use opinit_bots.Db.Sweep.Ordered.{IsOrdered}
use opinit_bots.Db.Sweep.Cleared.{Cleared}
use opinit_bots.Db.Sweep.Swept.{sweep-Cleared}
use opinit_bots.Db.Sweep.Numbered.{swept-numbered, swept-elsewhere, swept-all}

module _ {L : Type 0} (level : Level L) where
  -- A handle whose store has been cleared of some keys reads them as not found, and the others as before.
  pub level_get-Cleared :
      (db db' : LevelDb L) (gone : Bytes → Bool) (key : Bytes) (b : Bool)
      → db'.prefix ≡ db.prefix
      → Cleared level gone db.db db'.db
      → gone (prefixed_key db key) ≡ b
      → level_get level db' key ≡ (if b then err not_found else level_get level db key)
  unfolding level_get prefixed_key
  level_get-Cleared db db' gone key b prefix cleared same =
      ap (λ (p : Bytes). found (level.held db'.db (prefixed_key (record db { prefix = p }) key)))
        prefix
      ∙ ap found (cleared.held (prefixed_key db key))
      ∙ shown b (gone (prefixed_key db key)) same
    where
      shown :
          (b c : Bool)
          → c ≡ b
          → found (if c then none else level.held db.db (prefixed_key db key))
            ≡ (if b then err not_found else found (level.held db.db (prefixed_key db key)))
      shown true true e = refl
      shown true false e = cc
      shown false true e = cc
      shown false false e = refl

  -- A sweep of the keys of a prefix with a number, from a number on.
  pub record SweptFrom (prefix : Bytes) (from : ℕ) (db db' : LevelDb L) : Type 0 where
    pub ordered : IsOrdered level db'.db
    pub numbered :
        (n : ℕ) (more : Bytes)
        → n < 2 ^ 64
        → level_get level db' (generate_key (prefix ∷ (from_uint64_key n ++ more) ∷ [])) ≡ (
            if leb from n
            then err not_found
            else level_get level db (generate_key (prefix ∷ (from_uint64_key n ++ more) ∷ [])))
    pub elsewhere :
        (key : Bytes)
        → has_prefix (append_splitter prefix) key ≡ false
        → level_get level db' key ≡ level_get level db key

  pub sweep-SweptFrom :
      (laws : LevelLaws level) (prefix : Bytes) (from : ℕ) (db db' : LevelDb L)
      → sweep level
          (append_splitter prefix)
          (some (generate_key (prefix ∷ from_uint64_key from ∷ [])))
          db
        ≡ ok db'
      → from < 2 ^ 64
      → IsOrdered level db.db
      → SweptFrom prefix from db db'
  sweep-SweptFrom laws prefix from db db' run small ordered =
      let start = some (generate_key (prefix ∷ from_uint64_key from ∷ [])) in
      let (same, cleared) =
        sweep-Cleared level laws (append_splitter prefix) start db db' run ordered in
      record {
        ordered = cleared.ordered;
        numbered = λ n more p.
            level_get-Cleared db db' _ _ (leb from n) same cleared
              (swept-numbered db prefix from n more small p);
        elsewhere = λ key h.
            level_get-Cleared db db' _ key false same cleared
              (swept-elsewhere db (append_splitter prefix) start key h);
      }

  -- A sweep of all that stands under a prefix.
  pub sweep-reads :
      (laws : LevelLaws level) (prefix : Bytes) (db db' : LevelDb L)
      → sweep level prefix none db ≡ ok db'
      → IsOrdered level db.db
      → IsOrdered level db'.db
        × ((key : Bytes)
            → level_get level db' key
              ≡ (if has_prefix prefix key then err not_found else level_get level db key))
  sweep-reads laws prefix db db' run ordered =
      let (same, cleared) = sweep-Cleared level laws prefix none db db' run ordered in
      (
        cleared.ordered,
        λ key.
            level_get-Cleared db db' _ key (has_prefix prefix key) same cleared
              (swept-all db prefix key),
      )
