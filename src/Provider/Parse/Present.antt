-- ===== src/Provider/Parse/Present.antt =====
-- What a successful reading says of the attributes.
use opinit_bots.Base.{
  ◌≡◌, refl, ◌∙◌, Bool, true, false, ◌||◌, List, [], ◌∷◌, if◌then◌else◌, arith, All,
}
use opinit_bots.Base.Result.{ok, err}
use opinit_bots.Provider.Parse.{
  Key, Attribute, Step, skip, stop, set, key_equal, remove_key, missing_attrs_error,
  parse_attributes,
}

-- Some attribute has the key.
abbrev pub has_key : Key → List Attribute → Bool
has_key k [] = false
has_key k (attr ∷ attrs) = key_equal attr.key k || has_key k attrs

All-later :
    (attr : Attribute) (attrs : List Attribute) (ks : List Key)
    → All (λ k. has_key k attrs ≡ true) ks
    → All (λ k. has_key k (attr ∷ attrs) ≡ true) ks
All-later attr attrs [] all = tt
All-later attr attrs (k ∷ ks) all = (ground (arith, all.0), All-later attr attrs ks all.1)

All-remove_key :
    (attr : Attribute) (attrs : List Attribute) (ks : List Key)
    → All (λ k. has_key k attrs ≡ true) (remove_key attr.key ks)
    → All (λ k. has_key k (attr ∷ attrs) ≡ true) ks
All-remove_key attr attrs [] all = tt
All-remove_key attr attrs (k ∷ ks) all =
    removed (key_equal attr.key k) refl (λ rest. All-remove_key attr attrs ks rest) all
  where
    removed :
        (b : Bool)
        → key_equal attr.key k ≡ b
        → (All (λ k. has_key k attrs ≡ true) (remove_key attr.key ks)
            → All (λ k. has_key k (attr ∷ attrs) ≡ true) ks)
        → All
            (λ k. has_key k attrs ≡ true)
            (if b then remove_key attr.key ks else k ∷ remove_key attr.key ks)
        → All (λ k. has_key k (attr ∷ attrs) ≡ true) (k ∷ ks)
    removed true e rest all = ((λ i. e i || has_key k attrs), rest all)
    removed false e rest all = ((λ i. e i || has_key k attrs) ∙ all.0, rest all.1)

module _ {A : Type 0} (switch : Attribute → A → Step A) where
  -- When the attributes are read without an error, each key that is required stands among them.
  pub parse_attributes-All :
      (attrs : List Attribute) (a b : A) (missing : List Key)
      → parse_attributes switch attrs a missing ≡ ok b
      → All (λ k. has_key k attrs ≡ true) missing
  unfolding parse_attributes missing_attrs_error
  parse_attributes-All [] a b [] run = tt
  parse_attributes-All [] a b (k ∷ ks) run = absurd (ground arith)
  parse_attributes-All (attr ∷ attrs) a b missing run =
      stepped (switch attr a) (λ a' missing' rest. parse_attributes-All attrs a' b missing' rest)
        run
    where
      stepped :
          (step : Step A)
          → ((a' : A) (missing' : List Key)
              → parse_attributes switch attrs a' missing' ≡ ok b
              → All (λ k. has_key k attrs ≡ true) missing')
          → elim step [
            | skip ↦ parse_attributes switch attrs a missing
            | stop e ↦ err e
            | set a' ↦ parse_attributes switch attrs a' (remove_key attr.key missing)
          ]
            ≡ ok b
          → All (λ k. has_key k (attr ∷ attrs) ≡ true) missing
      stepped skip ih rest = All-later attr attrs missing (ih a missing rest)
      stepped (stop e) ih rest = absurd (ground arith)
      stepped (set a') ih rest =
          All-remove_key attr attrs missing (ih a' (remove_key attr.key missing) rest)
