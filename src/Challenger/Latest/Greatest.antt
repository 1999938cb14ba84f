-- ===== src/Challenger/Latest/Greatest.antt =====
-- The latest challenges are the greatest five of all that were inserted.
use opinit_bots.Base.{
  ◌≤◌, ◌≡◌, refl, ◌∙◌, ap, true, false, ltb, List, [], ◌∷◌, ◌++◌, if◌then◌else◌, length, All, sym,
  subst, arith, Bool-cases, inl, inr,
}
use opinit_bots.Challenger.Event.{Challenge}
use opinit_bots.Challenger.Latest.Sorted.{
  IsAscending, challenge_lt-through, length-insert, insert-IsAscending, sort_into-append,
  sort_into-sorted, Precedes-nil, sorted_slice-append,
}
use opinit_bots.Challenger.Latest.{
  challenge_lt, insert, sort_into, sorted_slice, tail, insert_latest_challenges,
}

-- The last five.
abbrev pub last_five : List Challenge → List Challenge
last_five [] = []
last_five (c ∷ cs) = if ltb (length cs) 5 then c ∷ cs else last_five cs

-- The challenges that have been inserted one after another, into `latest`.
unfoldable pub insert_all : List Challenge → List Challenge → List Challenge
insert_all latest [] = latest
insert_all latest (c ∷ cs) = insert_all (insert_latest_challenges c latest) cs

last_five-short : (cs : List Challenge) → length cs ≤ 5 → last_five cs ≡ cs
last_five-short [] p = refl
last_five-short (c ∷ cs) p = ground arith

last_five-long : (cs : List Challenge) → length cs ≡ 6 → last_five cs ≡ tail cs
last_five-long [] p = absurd (omega arith)
last_five-long (c ∷ cs) p = ground (arith, last_five-short cs)

length-last_five : (cs : List Challenge) → length (last_five cs) ≤ 5
length-last_five [] = omega arith
length-last_five (c ∷ cs) = ground (arith, length-last_five cs)

length-last_five_full : (cs : List Challenge) → 5 ≤ length cs → length (last_five cs) ≡ 5
length-last_five_full [] p = absurd (omega arith)
length-last_five_full (c ∷ cs) p = ground (arith, length-last_five_full cs)

All-last_five : (P : Challenge → Type 0) (cs : List Challenge) → All P cs → All P (last_five cs)
All-last_five P [] all = tt
All-last_five P (c ∷ cs) all = elim (Bool-cases (ltb (length cs) 5)) [
  | inl short ↦ rw short all
  | inr long ↦ rw long (All-last_five P cs all.1)
]

last_five-IsAscending : (cs : List Challenge) → IsAscending cs → IsAscending (last_five cs)
last_five-IsAscending [] sorted = tt
last_five-IsAscending (c ∷ cs) sorted = elim (Bool-cases (ltb (length cs) 5)) [
  | inl short ↦ rw short sorted
  | inr long ↦ rw long (last_five-IsAscending cs sorted.1)
]

-- One that is less than all is the first.
insert-first :
    (c : Challenge) (ds : List Challenge)
    → All (λ d. challenge_lt c d ≡ true) ds
    → insert c ds ≡ c ∷ ds
unfolding insert
insert-first c [] all = refl
insert-first c (d ∷ ds) all = rw (all.0) refl

through-All :
    (c d : Challenge) (es : List Challenge)
    → challenge_lt c d ≡ true
    → All (λ e. challenge_lt e d ≡ false) es
    → All (λ e. challenge_lt c e ≡ true) es
through-All c d [] p all = tt
through-All c d (e ∷ es) p all = (challenge_lt-through c d e p all.0, through-All c d es p all.1)

last_five-cons :
    (c : Challenge) (cs : List Challenge) → 5 ≤ length cs → last_five (c ∷ cs) ≡ last_five cs
last_five-cons c cs p = ground arith

insert-before :
    (c d : Challenge) (ds : List Challenge)
    → challenge_lt c d ≡ true
    → insert c (d ∷ ds) ≡ c ∷ d ∷ ds
unfolding insert
insert-before c d ds p = rw p refl

insert-behind :
    (c d : Challenge) (ds : List Challenge)
    → challenge_lt c d ≡ false
    → insert c (d ∷ ds) ≡ d ∷ insert c ds
unfolding insert
insert-behind c d ds p = rw p refl

-- What has been cut off before does not matter.
last_five-insert :
    (c : Challenge) (ds : List Challenge)
    → IsAscending ds
    → last_five (insert c (last_five ds)) ≡ last_five (insert c ds)
last_five-insert c [] sorted = refl
last_five-insert c (d ∷ ds) sorted = elim (Bool-cases (ltb (length ds) 5)) [
  | inl short ↦ rw short refl
  | inr long ↦
      let full : 5 ≤ length ds = ground arith in
      ap (λ t. last_five (insert c t)) (last_five-cons d ds full)
      ∙ elim (Bool-cases (challenge_lt c d)) [
        | inl before ↦
            ap last_five (
              insert-first c (last_five ds)
                (All-last_five _ ds (through-All c d ds before sorted.0)))
            ∙ last_five-cons c (last_five ds) (omega (arith, length-last_five_full ds full))
            ∙ last_five-short (last_five ds) (length-last_five ds)
            ∙ sym (last_five-cons d ds full)
            ∙ sym (last_five-cons c (d ∷ ds) (omega arith))
            ∙ ap last_five (sym (insert-before c d ds before))
        | inr after' ↦
            last_five-insert c ds sorted.1
            ∙ sym (last_five-cons d (insert c ds) (omega (arith, length-insert c ds)))
            ∙ ap last_five (sym (insert-behind c d ds after'))
      ]
]

insert_latest-last_five :
    (c : Challenge) (cs : List Challenge)
    → IsAscending cs
    → length cs ≤ 5
    → insert_latest_challenges c cs ≡ last_five (insert c cs)
unfolding insert_latest_challenges
insert_latest-last_five c cs sorted few =
    rw (sorted_slice-append c cs sorted) (elim (Bool-cases (ltb 5 (length (insert c cs)))) [
      | inl more ↦ rw more (sym (last_five-long (insert c cs) (ground (arith, length-insert c cs))))
      | inr five ↦ rw five (sym (last_five-short (insert c cs) (ground arith)))
    ])

sort_into-IsAscending :
    (sorted cs : List Challenge) → IsAscending sorted → IsAscending (sort_into sorted cs)
unfolding sort_into
sort_into-IsAscending sorted [] h = h
sort_into-IsAscending sorted (c ∷ cs) h =
    sort_into-IsAscending (insert c sorted) cs (insert-IsAscending c sorted h)

insert_all-from :
    (sorted cs : List Challenge)
    → IsAscending sorted
    → insert_all (last_five sorted) cs ≡ last_five (sort_into sorted cs)
unfolding insert_all sort_into
insert_all-from sorted [] h = refl
insert_all-from sorted (c ∷ cs) h =
    ap (λ t. insert_all t cs)
      (insert_latest-last_five c (last_five sorted) (last_five-IsAscending sorted h)
          (length-last_five sorted)
        ∙ last_five-insert c sorted h)
    ∙ insert_all-from (insert c sorted) cs (insert-IsAscending c sorted h)

-- If the latest challenges are at most five in ascending order, then challenges inserted one after another,
-- in any order, leave the last five of these and those, sorted: again at most five in ascending order.
pub insert_latest_challenges-last_five :
    (latest cs : List Challenge)
    → IsAscending latest
    → length latest ≤ 5
    → (insert_all latest cs ≡ last_five (sorted_slice (latest ++ cs)))
      × IsAscending (insert_all latest cs)
      × (length (insert_all latest cs) ≤ 5)
unfolding sorted_slice
insert_latest_challenges-last_five latest cs sorted few =
    let all = sort_into latest cs in
    let same =
      ap (λ t. insert_all t cs) (sym (last_five-short latest few))
      ∙ insert_all-from latest cs sorted in
    let joined =
      sort_into-append [] latest cs
      ∙ ap (λ t. sort_into t cs) (sort_into-sorted [] latest sorted (Precedes-nil latest)) in
    (
      same ∙ ap last_five (sym joined),
      subst IsAscending (sym same)
          (last_five-IsAscending all (sort_into-IsAscending latest cs sorted)),
      rw same (length-last_five all),
    )
