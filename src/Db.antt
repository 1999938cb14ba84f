-- ===== src/Db.antt =====
-- types/db.go, the interfaces of the key-value stores, and db/types/utils.go, the keys.
pub mod Keys
pub mod Level
pub mod Basic
pub mod Iterator
pub mod Stage
pub mod Sweep
use opinit_bots.Base.{ℕ, ◌≡◌, ◌≢◌, List, Option}
use opinit_bots.Base.Result.{Result, ok}

-- []byte; nil and the empty slice are not told apart.
abbrev pub Bytes : Type 0
Bytes = List ℕ

-- `not_found` is dbtypes.ErrNotFound; the others are failures of the store below.
pub data DbError : Type 0 where
  not_found : DbError
  failure : ℕ → DbError

-- The operations of types.BasicDB and types.DB that the modelled code calls, over the state `S` of
-- the store.
pub record Database (S : Type 0) : Type 0 where
  pub get : S → Bytes → Result DbError Bytes
  pub set : S → Bytes → Bytes → Result DbError S
  pub delete : S → Bytes → Result DbError S
  -- the last entry under a prefix whose key is at most the given one
  pub seek_prev_inclusive_key : S → Bytes → Bytes → Result DbError (Bytes × Bytes)

-- A successful write is what the next reads of its key return, and changes no other key.
pub record Writes {S : Type 0} (db : Database S) : Type 0 where
  pub get-set_self : (s : S) (k v : Bytes) {s' : S} → db.set s k v ≡ ok s' → db.get s' k ≡ ok v
  pub get-set_ne :
      (s : S) (k j v : Bytes) {s' : S} → db.set s k v ≡ ok s' → k ≢ j → db.get s' j ≡ db.get s j

-- JSON of one type, as encoding/json gives it.
pub record Json (A : Type 0) : Type 0 where
  pub marshal : A → Option Bytes
  pub unmarshal : Bytes → Option A
