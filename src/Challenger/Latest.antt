-- ===== src/Challenger/Latest.antt =====
-- challenger/handler.go, insertLatestChallenges: the challenges that the status shows. Every use of them
-- is under the lock of the mutex.
pub mod Sorted
pub mod Greatest
use opinit_bots.Base.{ℕ, Bool, ◌==◌, ltb, List, [], ◌∷◌, ◌++◌, if◌then◌else◌, length}
use opinit_bots.Challenger.Event.{Challenge, ChallengeId}

-- The order that sort.Slice is given.
unfoldable pub challenge_lt : Challenge → Challenge → Bool
challenge_lt a b =
    if a.time == b.time
    then (if a.id.type == b.id.type then ltb a.id.id b.id.id else ltb a.id.type b.id.type)
    else ltb a.time b.time

-- sort.Slice: where it leaves challenges of one time and one id, which it may exchange, is not modelled:
-- they stay in their order.
unfoldable pub insert : Challenge → List Challenge → List Challenge
unfolding challenge_lt
insert c [] = c ∷ []
insert c (d ∷ ds) = let rest = insert c ds in if challenge_lt c d then c ∷ d ∷ ds else d ∷ rest

unfoldable pub sort_into : List Challenge → List Challenge → List Challenge
unfolding insert
sort_into sorted [] = sorted
sort_into sorted (c ∷ cs) = sort_into (insert c sorted) cs

unfoldable pub sorted_slice : List Challenge → List Challenge
unfolding sort_into
sorted_slice cs = sort_into [] cs

-- `latestChallenges[1:]`
abbrev pub tail : List Challenge → List Challenge
tail [] = []
tail (c ∷ cs) = cs

unfoldable pub insert_latest_challenges : Challenge → List Challenge → List Challenge
unfolding sorted_slice
insert_latest_challenges challenge latest =
    let sorted = sorted_slice (latest ++ challenge ∷ []) in
    if ltb 5 (length sorted) then tail sorted else sorted
