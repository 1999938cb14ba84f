-- ===== src/Db/Sweep/Cleared.antt =====
-- What is left of a store after entries have been deleted.
use opinit_bots.Base.{
  ◌≡◌, refl, Bool, true, false, none, List, [], ◌∷◌, if◌then◌else◌, ◌||◌, arith, inl, inr, ◌∙◌, ap,
  sym, map, subst,
}
use opinit_bots.Base.Bytes.{bytes_equal}
use opinit_bots.Base.Result.{Result, ok, err, Result-cases}
use opinit_bots.Db.{Bytes, DbError}
use opinit_bots.Db.Level.{Level, LevelLaws, LevelDb, delete, prefixed_key, level_delete, rewritten}
use opinit_bots.Db.Stage.Commit.{among}
use opinit_bots.Db.Sweep.{delete_keys}
use opinit_bots.Db.Sweep.Ordered.{value_in, IsSorted, IsOrdered, without-IsSorted, value_in-without}

-- Each entry whose key is `gone` has been taken away, every other key holds what it held.
pub record Cleared {L : Type 0} (level : Level L) (gone : Bytes → Bool) (l l' : L) : Type 0 where
  pub held : (key : Bytes) → level.held l' key ≡ (if gone key then none else level.held l key)
  pub ordered : IsOrdered level l'

module _ {L : Type 0} {level : Level L} {l l' : L} where
  pub Cleared-same :
      (g h : Bytes → Bool)
      → ((key : Bytes) → g key ≡ h key)
      → Cleared level g l l'
      → Cleared level h l l'
  Cleared-same g h same c = record {
    held = λ key. c.held key ∙ (λ i. if same key i then none else level.held l key);
    ordered = c.ordered;
  }

  pub Cleared-then :
      (l'' : L) (g h : Bytes → Bool)
      → Cleared level g l l'
      → Cleared level h l' l''
      → Cleared level (λ key. g key || h key) l l''
  Cleared-then l'' g h c d = record {
    held = λ key. d.held key ∙ both key (g key) (h key) (c.held key);
    ordered = d.ordered;
  }
    where
      both :
          (key : Bytes) (a b : Bool)
          → level.held l' key ≡ (if a then none else level.held l key)
          → (if b then none else level.held l' key) ≡ (if a || b then none else level.held l key)
      both key true true e = refl
      both key true false e = e
      both key false true e = refl
      both key false false e = e

  pub Cleared-nothing : (same : l ≡ l') → IsOrdered level l' → Cleared level (λ key. false) l l'
  Cleared-nothing same ordered = record {
    held = λ key. ap (λ x. level.held x key) (sym same);
    ordered = ordered;
  }

ok-injective : {A : Type 0} (a b : A) → ◌≡◌ {A = Result DbError A} (ok a) (ok b) → a ≡ b
ok-injective a b e = cc

module _ {L : Type 0} (level : Level L) (laws : LevelLaws level) where
  delete-Cleared :
      (l l' : L) (key : Bytes)
      → level.write l (delete key ∷ []) ≡ ok l'
      → IsOrdered level l
      → Cleared level (λ k. bytes_equal key k) l l'
  delete-Cleared l l' key wrote ordered =
      let listed = laws.entries-delete l key wrote in
      record {
        held = λ k. laws.held-write l (delete key ∷ []) k wrote;
        ordered = record {
          listed = λ k.
              laws.held-write l (delete key ∷ []) k wrote
              ∙ (λ i. if bytes_equal key k then none else ordered.listed k i)
              ∙ sym (value_in-without k key (level.entries l))
              ∙ ap (value_in k) (sym listed);
          sorted =
              subst IsSorted (sym listed) (without-IsSorted key (level.entries l) ordered.sorted);
        };
      }

  pub level_delete-Cleared :
      (db db' : LevelDb L) (key : Bytes)
      → level_delete level db key ≡ ok db'
      → IsOrdered level db.db
      → (db'.prefix ≡ db.prefix)
        × Cleared level (λ k. bytes_equal (prefixed_key db key) k) db.db db'.db
  unfolding level_delete
  level_delete-Cleared db db' key run ordered =
      written (level.write db.db (delete (prefixed_key db key) ∷ [])) refl run
    where
      written :
          (x : Result DbError L)
          → level.write db.db (delete (prefixed_key db key) ∷ []) ≡ x
          → rewritten level db x ≡ ok db'
          → (db'.prefix ≡ db.prefix)
            × Cleared level (λ k. bytes_equal (prefixed_key db key) k) db.db db'.db
      written (ok l) wrote same =
          subst
            (λ d.
              (d.prefix ≡ db.prefix)
              × Cleared level (λ k. bytes_equal (prefixed_key db key) k) db.db d.db)
            (ok-injective (record db { db = l }) db' same)
            (refl, delete-Cleared db.db l (prefixed_key db key) wrote ordered)
      written (err e) wrote same = absurd (ground arith)

  pub delete_keys-Cleared :
      (keys : List Bytes) (db db' : LevelDb L)
      → delete_keys level keys db ≡ ok db'
      → IsOrdered level db.db
      → (db'.prefix ≡ db.prefix)
        × Cleared level (λ k. among k (map (prefixed_key db) keys)) db.db db'.db
  unfolding delete_keys
  delete_keys-Cleared [] db db' run ordered =
      let same = ok-injective db db' run in
      (
        ap (λ d. d.prefix) (sym same),
        Cleared-nothing (ap (λ d. d.db) same) (subst (λ d. IsOrdered level d.db) same ordered),
      )
  delete_keys-Cleared (key ∷ keys) db db' run ordered =
      elim (Result-cases (level_delete level db key)) [
        | inr (e, failed) ↦ absurd (ground arith)
        | inl (d, deleted) ↦
            let (prefix, first) = level_delete-Cleared db d key deleted ordered in
            let (prefix', rest) = delete_keys-Cleared keys d db' (ground arith) first.ordered in
            (
              prefix' ∙ prefix,
              subst
                  (λ (p : Bytes).
                    Cleared level
                      (λ k.
                        bytes_equal (prefixed_key db key) k
                        || among k (map (prefixed_key (record db { prefix = p })) keys))
                      db.db db'.db)
                  prefix
                  (Cleared-then db'.db (λ k. bytes_equal (prefixed_key db key) k)
                    (λ k. among k (map (prefixed_key d) keys)) first rest),
            )
      ]
