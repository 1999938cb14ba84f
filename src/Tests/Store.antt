-- ===== src/Tests/Store.antt =====
-- A store in memory, which keeps the last value written to each key.
use opinit_bots.Base.{
  ◌≡◌, ◌≢◌, refl, List, [], ◌∷◌, Option, none, some, if◌then◌else◌, Bool-cases, inl, inr, subst,
}
use opinit_bots.Base.Bytes.{bytes_equal, bytes_equal_refl, bytes_equal→eq}
use opinit_bots.Base.Result.{Result, ok, err}
use opinit_bots.Db.{Bytes, Database, DbError, not_found, Writes}
use opinit_bots.Merkle.{Node}
use opinit_bots.Merkle.Store.{save_nodes, key}

abbrev pub Memory : Type 0
Memory = Bytes → Option Bytes

abbrev pub found : Option Bytes → Result DbError Bytes
found none = err not_found
found (some v) = ok v

abbrev pub put : Memory → Bytes → Bytes → Memory
put m k v j = if bytes_equal k j then some v else m j

abbrev pub drop_key : Memory → Bytes → Memory
drop_key m k j = if bytes_equal k j then none else m j

-- Its one tree is found whatever is searched.
abbrev pub memory : Database Memory
memory = record {
  get = λ m k. found (m k);
  set = λ m k v. ok (put m k v);
  delete = λ m k. ok (drop_key m k);
  seek_prev_inclusive_key = λ m prefix k. ok (k, []);
}

get-put_self : (m : Memory) (k v : Bytes) → found (put m k v k) ≡ ok v
get-put_self m k v = rw bytes_equal_refl refl

get-put_ne : (m : Memory) (k j v : Bytes) → k ≢ j → found (put m k v j) ≡ found (m j)
get-put_ne m k j v ne = elim (Bool-cases (bytes_equal k j)) [
  | inl same ↦ absurd (ne (bytes_equal→eq k j same))
  | inr other ↦ rw other refl
]

ok-injective : (a b : Memory) → ◌≡◌ {A = Result DbError Memory} (ok a) (ok b) → a ≡ b
ok-injective a b e = cc

pub memory-Writes : Writes memory
memory-Writes = record {
  get-set_self = λ s k v {s'} e.
      subst (λ m. found (m k) ≡ ok v) (ok-injective (put s k v) s' e) (get-put_self s k v);
  get-set_ne = λ s k j v {s'} e ne.
      subst (λ m. found (m j) ≡ found (s j)) (ok-injective (put s k v) s' e)
        (get-put_ne s k j v ne);
}

abbrev pub put_nodes : List Node → Memory → Memory
put_nodes [] m = m
put_nodes (x ∷ xs) m = put_nodes xs (put m (key x) x.bytes)

pub save_nodes-put_nodes :
    (xs : List Node) (m : Memory) → save_nodes memory xs m ≡ ok (put_nodes xs m)
unfolding save_nodes
save_nodes-put_nodes [] m = refl
save_nodes-put_nodes (x ∷ xs) m = save_nodes-put_nodes xs (put m (key x) x.bytes)
