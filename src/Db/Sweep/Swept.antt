-- ===== src/Db/Sweep/Swept.antt =====
-- What is left of a store after a sweep.
use opinit_bots.Base.{
  ◌≡◌, refl, Bool, true, false, ◌&&◌, Option, none, some, List, [], ◌∷◌, ◌++◌, if◌then◌else◌, arith,
  All, ◌∙◌, ap, sym, map, append_assoc,
}
use mathlib.Core.Option
use mathlib.Core.List.{append-nil}
use opinit_bots.Base.Result.{ok}
use opinit_bots.Db.{Bytes}
use opinit_bots.Db.Keys.{splitter}
use opinit_bots.Db.Level.{Level, LevelLaws, LevelDb, prefixed_key, unprefixed_key}
use opinit_bots.Db.Stage.Commit.{among}
use opinit_bots.Db.Iterator.{Entries, has_prefix, under, walk, iterate}
use opinit_bots.Db.Sweep.{collect, delete_keys, sweep}
use opinit_bots.Db.Sweep.Listed.{
  entry_keys, is_from, from_bound, has_prefix-trim, has_prefix-shorter, under-All, under-IsSorted,
  among-under, among-from_bound, value_in-none, from_bound-All,
}
use opinit_bots.Db.Sweep.Cleared.{Cleared, delete_keys-Cleared}
use opinit_bots.Db.Sweep.Ordered.{IsOrdered}

-- The keys that an iterator under a prefix of a handle, from a bound on, walks over.
unfoldable pub swept : {L : Type 0} → LevelDb L → Bytes → Option Bytes → Bytes → Bool
swept db prefix start key =
    has_prefix (prefixed_key db prefix) key && is_from (Option.map (prefixed_key db) start) key

walk-collect :
    (unprefixed : Bytes → Bytes) (es : Entries) (keys : List Bytes)
    → walk unprefixed collect es keys ≡ ok (keys ++ map unprefixed (entry_keys es))
unfolding walk
walk-collect unprefixed [] keys = ap (λ t. ok t) (sym (append-nil keys))
walk-collect unprefixed (e ∷ es) keys =
    walk-collect unprefixed es (keys ++ unprefixed e.0 ∷ [])
    ∙ ap (λ t. ok t) (append_assoc keys (unprefixed e.0 ∷ []) (map unprefixed (entry_keys es)))

module _ {L : Type 0} (db : LevelDb L) where
  prefixed-unprefixed :
      (prefix key : Bytes)
      → has_prefix (prefixed_key db prefix) key ≡ true
      → prefixed_key db (unprefixed_key db key) ≡ key
  unfolding prefixed_key unprefixed_key
  prefixed-unprefixed prefix key h =
      let (rest, trimmed, joined) =
        has_prefix-trim (db.prefix ++ splitter ∷ []) key
          (has_prefix-shorter (db.prefix ++ splitter ∷ []) prefix key h) in
      ground (arith, trimmed, joined)

  map-prefixed :
      (prefix : Bytes) (es : Entries)
      → All (λ e. has_prefix (prefixed_key db prefix) e.0 ≡ true) es
      → map (prefixed_key db) (map (unprefixed_key db) (entry_keys es)) ≡ entry_keys es
  map-prefixed prefix [] all = refl
  map-prefixed prefix (e ∷ es) all =
      λ i. prefixed-unprefixed prefix e.0 all.0 i ∷ map-prefixed prefix es all.1 i

module _ {L : Type 0} (level : Level L) (laws : LevelLaws level) where
  iterate-collect :
      (db : LevelDb L) (prefix : Bytes) (start : Option Bytes)
      → iterate level db prefix start collect []
        ≡ ok (
            map (unprefixed_key db) (
              entry_keys (
                from_bound
                  (Option.map (prefixed_key db) start)
                  (under (prefixed_key db prefix) (level.entries db.db)))))
  unfolding iterate
  iterate-collect db prefix none = walk-collect (unprefixed_key db) _ []
  iterate-collect db prefix (some key) = walk-collect (unprefixed_key db) _ []

  -- Of an ordered store, the sweep takes away what stands under the prefix from the bound on, and that alone.
  pub sweep-Cleared :
      (prefix : Bytes) (start : Option Bytes) (db db' : LevelDb L)
      → sweep level prefix start db ≡ ok db'
      → IsOrdered level db.db
      → (db'.prefix ≡ db.prefix) × Cleared level (swept db prefix start) db.db db'.db
  unfolding sweep swept
  sweep-Cleared prefix start db db' run ordered =
      let all = under (prefixed_key db prefix) (level.entries db.db) in
      let es = from_bound (Option.map (prefixed_key db) start) all in
      let keys = map (unprefixed_key db) (entry_keys es) in
      let run' : delete_keys level keys db ≡ ok db' =
        ground (arith, iterate-collect db prefix start, run) in
      let (same, cleared) = delete_keys-Cleared level laws keys db db' run' ordered in
      (
        same,
        record {
          ordered = cleared.ordered;
          held = λ k.
              cleared.held k
              ∙ ap (λ (ks : List Bytes). if among k ks then none else level.held db.db k)
                  (map-prefixed db prefix es (
                    from_bound-All _ (Option.map (prefixed_key db) start) all
                      (under-All (prefixed_key db prefix) (level.entries db.db))))
              ∙ ap (λ (b : Bool). if b then none else level.held db.db k)
                  (among-from_bound (Option.map (prefixed_key db) start) k all
                      (under-IsSorted (prefixed_key db prefix) (level.entries db.db) ordered.sorted)
                    ∙ ap (λ (b : Bool). b && is_from (Option.map (prefixed_key db) start) k)
                        (among-under (prefixed_key db prefix) k (level.entries db.db)))
              ∙ unlisted k (has_prefix (prefixed_key db prefix) k)
                  (among k (entry_keys (level.entries db.db)))
                  (is_from (Option.map (prefixed_key db) start) k)
                  (λ absent. ordered.listed k ∙ value_in-none k (level.entries db.db) absent);
        },
      )
    where
      unlisted :
          (k : Bytes) (below listed beyond : Bool)
          → (listed ≡ false → level.held db.db k ≡ none)
          → (if (below && listed) && beyond then none else level.held db.db k)
            ≡ (if below && beyond then none else level.held db.db k)
      unlisted k false listed beyond h = refl
      unlisted k true true beyond h = refl
      unlisted k true false true h = h refl
      unlisted k true false false h = refl
