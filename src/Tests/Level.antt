-- ===== src/Tests/Level.antt =====
-- A leveldb in memory: what each key holds, and the entries in their order.
use opinit_bots.Base.{◌≡◌, refl, sym, ap, List, [], ◌∷◌, Option, none, if◌then◌else◌, inl}
use opinit_bots.Base.Bytes.{bytes_equal}
use opinit_bots.Base.Result.{Result, ok, err}
use opinit_bots.Db.{Bytes, DbError, not_found}
use opinit_bots.Db.Level.{
  Level, LevelLaws, LevelDb, Change, put, delete, changed_all, without, prefixed_key,
  unprefixed_key, level_get,
}
use opinit_bots.Db.Stage.{new_stage, stage_set, stage_delete, stage_get, commit}
use opinit_bots.Db.Stage.Commit.{set, remove, edit, edits, stage_get-committed}
use opinit_bots.Db.Iterator.{bytes_lt, under, has_prefix, seek_prev_inclusive_key}
use opinit_bots.Db.Iterator.Seek.{seek_prev_inclusive_key-last, seek_prev_inclusive_key-none_below}

pub record Held : Type 0 where
  pub values : Bytes → Option Bytes
  pub listed : List (Bytes × Bytes)

abbrev pub insert : Bytes → Bytes → List (Bytes × Bytes) → List (Bytes × Bytes)
insert k v [] = (k, v) ∷ []
insert k v (e ∷ es) = if bytes_lt e.0 k then e ∷ insert k v es else (k, v) ∷ without k (e ∷ es)

abbrev pub relisted : List Change → List (Bytes × Bytes) → List (Bytes × Bytes)
relisted [] es = es
relisted (put k v ∷ cs) es = relisted cs (insert k v es)
relisted (delete k ∷ cs) es = relisted cs (without k es)

abbrev pub written : Held → List Change → Held
written l cs = record { values = λ k. changed_all k cs (l.values k); listed = relisted cs l.listed }

abbrev pub memory_level : Level Held
memory_level = record {
  held = λ l k. l.values k;
  write = λ l cs. ok (written l cs);
  entries = λ l. l.listed;
}

abbrev result_or : Held → Result DbError Held → Held
result_or l (ok l') = l'
result_or l (err e) = l

pub memory_level-LevelLaws : LevelLaws memory_level
memory_level-LevelLaws = record {
  held-write = λ l cs {l'} k run. ap (λ r. (result_or l r).values k) (sym run);
  entries-delete = λ l k {l'} run. ap (λ r. (result_or l r).listed) (sym run);
}

abbrev pub empty : Held
empty = record { values = λ k. none; listed = [] }

-- The prefix "p".
abbrev pub handle : LevelDb Held
handle = record { db = empty; prefix = 112 ∷ [] }

stage_get-committed_example :
    (stage_get memory_level
        (edits (set (1 ∷ []) (7 ∷ []) ∷ remove (1 ∷ []) ∷ []) (new_stage handle))
        (1 ∷ [])
      ≡ ok [])
    × (level_get memory_level
          (record handle {
            db = written empty (put (112 ∷ 47 ∷ 1 ∷ []) (7 ∷ []) ∷ delete (112 ∷ 47 ∷ 1 ∷ []) ∷ []);
          })
          (1 ∷ [])
        ≡ err not_found)
unfolding commit bytes_equal edits edit stage_set stage_delete new_stage prefixed_key
stage_get-committed_example =
    stage_get-committed memory_level memory_level-LevelLaws handle (1 ∷ [])
      (set (1 ∷ []) (7 ∷ []) ∷ remove (1 ∷ []) ∷ []) _ refl

-- Keys 1, 4 and 9 under "p".
abbrev three : LevelDb Held
three = record handle {
  db = written empty (
      put (112 ∷ 47 ∷ 1 ∷ []) (11 ∷ [])
      ∷ put (112 ∷ 47 ∷ 4 ∷ []) (14 ∷ [])
      ∷ put (112 ∷ 47 ∷ 9 ∷ []) (19 ∷ [])
      ∷ []);
}

seek_prev_inclusive_key-last_example :
    seek_prev_inclusive_key memory_level three [] (5 ∷ [])
    ≡ ok (unprefixed_key three (112 ∷ 47 ∷ 4 ∷ []), 14 ∷ [])
unfolding under has_prefix bytes_lt bytes_equal prefixed_key
seek_prev_inclusive_key-last_example =
    seek_prev_inclusive_key-last memory_level three [] (5 ∷ []) ((112 ∷ 47 ∷ 1 ∷ [], 11 ∷ []) ∷ [])
      ((112 ∷ 47 ∷ 9 ∷ [], 19 ∷ []) ∷ []) (112 ∷ 47 ∷ 4 ∷ [], 14 ∷ []) refl (refl, tt) (inl refl)
      (refl, tt)

seek_prev_inclusive_key-none_below_example :
    seek_prev_inclusive_key memory_level three [] (0 ∷ []) ≡ ok (unprefixed_key three [], [])
unfolding under has_prefix bytes_lt bytes_equal prefixed_key
seek_prev_inclusive_key-none_below_example =
    seek_prev_inclusive_key-none_below memory_level three [] (0 ∷ [])
      ((112 ∷ 47 ∷ 4 ∷ [], 14 ∷ []) ∷ (112 ∷ 47 ∷ 9 ∷ [], 19 ∷ []) ∷ [])
      (112 ∷ 47 ∷ 1 ∷ [], 11 ∷ []) refl (refl, (refl, (refl, tt)))
