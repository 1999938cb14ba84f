-- ===== src/Db/Stage.antt =====
-- db/stage.go: writes that are collected before they reach the store, and seen by reads of the stage.
pub mod Commit
use opinit_bots.Base.{◌≡◌, Option, none, some, List, [], ◌∷◌, ◌++◌, if◌then◌else◌, length, ℕ}
use opinit_bots.Base.Bytes.{bytes_equal}
use opinit_bots.Base.Result.{Result, ok, err}
use opinit_bots.Db.{Bytes, DbError}
use opinit_bots.Db.Level.{Change, put, delete, Level, LevelDb, prefixed_key, level_get}

-- `kvmap` is an association list with the newest entry first; the nil of a deleted key is no bytes.
-- `prefixed_key` is the handle that the key function belongs to.
pub record Stage (L : Type 0) : Type 0 where
  pub batch : List Change
  pub kvmap : List (Bytes × Bytes)
  pub parent : LevelDb L
  pub key_handle : LevelDb L

abbrev pub lookup : Bytes → List (Bytes × Bytes) → Option Bytes
lookup k [] = none
lookup k ((j, v) ∷ m) = if bytes_equal j k then some v else lookup k m

unfoldable pub new_stage : {L : Type 0} → LevelDb L → Stage L
new_stage parent = record { batch = []; kvmap = []; parent = parent; key_handle = parent }

-- WithPrefixedKey(db.PrefixedKey)
unfoldable pub with_prefixed_key : {L : Type 0} → LevelDb L → Stage L → Stage L
with_prefixed_key handle s = record s { key_handle = handle }

unfoldable pub stage_set : {L : Type 0} → Bytes → Bytes → Stage L → Stage L
unfolding prefixed_key
stage_set key value s =
    let prefixed = prefixed_key s.key_handle key in
    record s { batch = s.batch ++ put prefixed value ∷ []; kvmap = (prefixed, value) ∷ s.kvmap }

unfoldable pub stage_delete : {L : Type 0} → Bytes → Stage L → Stage L
unfolding prefixed_key
stage_delete key s =
    let prefixed = prefixed_key s.key_handle key in
    record s { batch = s.batch ++ delete prefixed ∷ []; kvmap = (prefixed, []) ∷ s.kvmap }

unfoldable pub reset : {L : Type 0} → Stage L → Stage L
reset s = record s { batch = []; kvmap = [] }

unfoldable pub stage_length : {L : Type 0} → Stage L → ℕ
stage_length s = length s.batch

module _ {L : Type 0} (level : Level L) where
  unfoldable pub stage_get : Stage L → Bytes → Result DbError Bytes
  unfolding prefixed_key level_get
  stage_get s key = elim (lookup (prefixed_key s.key_handle key) s.kvmap) [
    | some value ↦ ok value
    | none ↦ level_get level s.parent key
  ]

  -- The store afterwards; the stage itself is not reset.
  unfoldable pub commit : Stage L → Result DbError L
  commit s = level.write s.parent.db s.batch
