-- ===== src/Batch/Info.antt =====
-- executor/batchsubmitter/batch_info.go: the queue of batch infos, by which the submitter knows where the
-- blocks go. `none` is a panic.
use opinit_bots.Base.{
  ℕ, ◌≤◌, ◌<◌, ◌≡◌, refl, ltb, Option, none, some, List, [], ◌∷◌, ◌++◌, if◌then◌else◌, arith,
  Bool-cases, inl, inr,
}
use opinit_bots.Db.{Bytes}

-- ophosttypes.BatchInfoWithOutput, as far as it is used.
pub record BatchInfo : Type 0 where
  pub chain_type : ℕ
  pub submitter : Bytes
  pub l2_block_number : ℕ

abbrev pub last_number : ℕ → List BatchInfo → ℕ
last_number n [] = n
last_number n (i ∷ is) = last_number i.l2_block_number is

-- `chain_type_value` is the table of the names of the chain types.
unfoldable pub update_batch_info :
    (Bytes → ℕ)
    → (chain submitter : Bytes) → (l2_block_number : ℕ) → List BatchInfo
    → Option (List BatchInfo)
update_batch_info chain_type_value chain submitter l2_block_number [] = none
update_batch_info chain_type_value chain submitter l2_block_number (i ∷ is) =
    if ltb (last_number i.l2_block_number is) l2_block_number
    then some (
        i ∷ is
        ++ record {
          chain_type = chain_type_value chain;
          submitter = submitter;
          l2_block_number = l2_block_number;
        }
          ∷ [])
    else some (i ∷ is)

unfoldable pub batch_info : List BatchInfo → Option BatchInfo
batch_info [] = none
batch_info (i ∷ is) = some i

-- The outer `none` is a panic, the inner one nil.
unfoldable pub next_batch_info : List BatchInfo → Option (Option BatchInfo)
next_batch_info [] = none
next_batch_info (i ∷ []) = some none
next_batch_info (i ∷ next ∷ is) = some (some next)

unfoldable pub dequeue_batch_info : List BatchInfo → Option (List BatchInfo)
dequeue_batch_info [] = none
dequeue_batch_info (i ∷ is) = some is

-- The block numbers go up from one info to the next.
abbrev pub IsIncreasing : List BatchInfo → Type 0
IsIncreasing [] = Unit
IsIncreasing (i ∷ []) = Unit
IsIncreasing (i ∷ next ∷ is) = (i.l2_block_number < next.l2_block_number) × IsIncreasing (next ∷ is)

IsIncreasing-append :
    (i : BatchInfo) (is : List BatchInfo) (new : BatchInfo)
    → IsIncreasing (i ∷ is)
    → last_number i.l2_block_number is < new.l2_block_number
    → IsIncreasing (i ∷ is ++ new ∷ [])
IsIncreasing-append i [] new p q = (q, tt)
IsIncreasing-append i (next ∷ is) new p q = (p.0, IsIncreasing-append next is new p.1 q)

-- If the block numbers of a queue that is not empty go up from one info to the next, then the update does
-- not panic, they go up in the updated queue as well, the current info is still the first, and
-- the last one covers at least the given block number.
pub update_batch_info-IsIncreasing :
    (chain_type_value : Bytes → ℕ) (chain submitter : Bytes) (l2_block_number : ℕ) (i : BatchInfo)
    (is : List BatchInfo)
    → IsIncreasing (i ∷ is)
    → (js : List BatchInfo) × (update_batch_info chain_type_value chain submitter l2_block_number
          (i ∷ is)
        ≡ some (i ∷ js))
      × IsIncreasing (i ∷ js)
      × (l2_block_number ≤ last_number i.l2_block_number js)
unfolding update_batch_info
update_batch_info-IsIncreasing chain_type_value chain submitter l2_block_number i is p =
    let new : BatchInfo = record {
      chain_type = chain_type_value chain;
      submitter = submitter;
      l2_block_number = l2_block_number;
    } in
    elim (Bool-cases (ltb (last_number i.l2_block_number is) l2_block_number)) [
      | inl later ↦ (
        is ++ new ∷ [],
        rw later refl,
        IsIncreasing-append i is new p (ground arith),
        rw (last_number-append i.l2_block_number is new) (omega arith),
      )
      | inr covered ↦ (is, rw covered refl, p, ground arith)
    ]
  where
    last_number-append :
        (n : ℕ) (is : List BatchInfo) (new : BatchInfo)
        → last_number n (is ++ new ∷ []) ≡ new.l2_block_number
    last_number-append n [] new = refl
    last_number-append n (i ∷ is) new = last_number-append i.l2_block_number is new
