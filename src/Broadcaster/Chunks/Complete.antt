-- ===== src/Broadcaster/Chunks/Complete.antt =====
-- No message is lost, repeated or moved by the grouping.
use opinit_bots.Base.{
  ℕ, zero, suc, ◌+◌, ◌-◌, ◌≤◌, ◌≡◌, refl, sym, ap, ◌∙◌, true, ltb, List, [], ◌∷◌, ◌++◌, length,
  take, drop, subst, append_assoc, length-drop, length-take, take-append-drop, drop-drop, drop-all,
  All, All-append, arith, Bool-cases, inl, inr,
}
use opinit_bots.Db.{Bytes}
use opinit_bots.Clock.{Clock, current_nano_timestamp}
use opinit_bots.Broadcaster.Types.{ProcessedMsgs}
use opinit_bots.Broadcaster.Chunks.{chunks_loop, msgs_to_processed_msgs, processed}

-- The messages of a batch, each with its sender.
abbrev pub tagged : {M : Type 0} → Bytes → List M → List (Bytes × M)
tagged sender [] = []
tagged sender (msg ∷ msgs) = (sender, msg) ∷ tagged sender msgs

abbrev pub tagged_chunks : {M : Type 0} → List (ProcessedMsgs M) → List (Bytes × M)
tagged_chunks [] = []
tagged_chunks (p ∷ ps) = tagged p.sender p.msgs ++ tagged_chunks ps

abbrev pub tagged_queues : {M : Type 0} → List (Bytes × List M) → List (Bytes × M)
tagged_queues [] = []
tagged_queues ((sender, msgs) ∷ queues) = tagged sender msgs ++ tagged_queues queues

-- A group of one to five messages that is to be saved.
abbrev pub IsChunk : {M : Type 0} → ProcessedMsgs M → Type 0
IsChunk p = (1 ≤ length p.msgs) × (length p.msgs ≤ 5) × (p.save ≡ true)

module _ {M : Type 0} where
  tagged-append :
      (sender : Bytes) (xs ys : List M)
      → tagged sender (xs ++ ys) ≡ tagged sender xs ++ tagged sender ys
  tagged-append sender [] ys = refl
  tagged-append sender (x ∷ xs) ys = ap (λ t. (sender, x) ∷ t) (tagged-append sender xs ys)

-- One group and what comes after it.
group-drop :
    {M : Type 0} (msgs : List M) (i n : ℕ) → take n (drop i msgs) ++ drop (i + n) msgs ≡ drop i msgs
group-drop msgs i n =
    (λ j. take n (drop i msgs) ++ sym (drop-drop i n (i + n) msgs (omega arith)) j)
    ∙ take-append-drop n (drop i msgs)

length-group :
    {M : Type 0} (msgs : List M) (i n : ℕ) → i + n ≤ length msgs → length (take n (drop i msgs)) ≡ n
length-group msgs i n p = length-take n (drop i msgs) (omega (arith, length-drop i msgs))

-- What a list of groups makes of messages of one sender.
abbrev IsComplete : {M : Type 0} → Bytes → List M → List (ProcessedMsgs M) → Type 0
IsComplete sender msgs chunks = (tagged_chunks chunks ≡ tagged sender msgs) × All IsChunk chunks

IsComplete-cons :
    {M : Type 0} (sender : Bytes) (msgs : List M) (i n timestamp : ℕ)
    (rest : List (ProcessedMsgs M))
    → 1 ≤ n
    → n ≤ 5
    → i + n ≤ length msgs
    → IsComplete sender (drop (i + n) msgs) rest
    → IsComplete sender (drop i msgs) (processed sender (take n (drop i msgs)) timestamp ∷ rest)
IsComplete-cons sender msgs i n timestamp rest some_left few fits (same, all) =
    let size : length (take n (drop i msgs)) ≡ n = length-group msgs i n fits in
    (
      (λ j. tagged sender (take n (drop i msgs)) ++ same j)
          ∙ sym (tagged-append sender (take n (drop i msgs)) (drop (i + n) msgs))
          ∙ (λ j. tagged sender (group-drop msgs i n j)),
      ((rw size some_left, rw size few, refl), all),
    )

module _ {M : Type 0} (readings : ℕ → ℕ) where
  chunks_loop-Complete :
      (fuel : ℕ) (sender : Bytes) (msgs : List M) (i : ℕ) (c : Clock)
      → length msgs ≤ fuel + i
      → IsComplete sender (drop i msgs) (chunks_loop readings fuel sender msgs i c).0
  unfolding chunks_loop
  chunks_loop-Complete zero sender msgs i c enough = rw (drop-all i msgs (omega arith)) (refl, tt)
  chunks_loop-Complete (suc fuel) sender msgs i c enough = elim (Bool-cases (ltb i (length msgs))) [
    | inr past ↦ rw past (rw (drop-all i msgs (ground arith)) (refl, tt))
    | inl inside ↦ rw inside (elim (Bool-cases (ltb (length msgs) (i + 5))) [
      | inl short ↦ rw short (
          IsComplete-cons sender msgs i (length msgs - i) (current_nano_timestamp readings c).0 _
            (ground arith) (ground arith) (ground arith)
            (subst
              (λ ms.
                IsComplete sender ms
                  (chunks_loop readings fuel sender msgs (i + 5)
                    (current_nano_timestamp readings c).1).0)
              (drop-all (i + 5) msgs (ground arith)
                ∙ sym (drop-all (i + (length msgs - i)) msgs (ground arith)))
              (chunks_loop-Complete fuel sender msgs (i + 5) (current_nano_timestamp readings c).1
                (omega arith))))
      | inr long ↦ rw long (
          let five : (i + 5) - i ≡ 5 = omega arith in
          rw five (
            IsComplete-cons sender msgs i 5 (current_nano_timestamp readings c).0 _ (omega arith)
              (omega arith) (ground arith)
              (chunks_loop-Complete fuel sender msgs (i + 5) (current_nano_timestamp readings c).1
                (omega arith))))
    ])
  ]

  pub tagged_chunks-append :
      (xs ys : List (ProcessedMsgs M))
      → tagged_chunks (xs ++ ys) ≡ tagged_chunks xs ++ tagged_chunks ys
  tagged_chunks-append [] ys = refl
  tagged_chunks-append (x ∷ xs) ys =
      ap (λ t. tagged x.sender x.msgs ++ t) (tagged_chunks-append xs ys)
      ∙ sym (append_assoc (tagged x.sender x.msgs) (tagged_chunks xs) (tagged_chunks ys))

  -- MsgsToProcessedMsgs keeps the messages of all queues, each with the sender of its queue, in their order
  -- and each exactly once; and every group that it makes has one to five messages and is to be
  -- saved.
  pub msgs_to_processed_msgs-Complete :
      (queues : List (Bytes × List M)) (c : Clock)
      → (tagged_chunks (msgs_to_processed_msgs readings queues c).0 ≡ tagged_queues queues)
        × All IsChunk (msgs_to_processed_msgs readings queues c).0
  unfolding msgs_to_processed_msgs
  msgs_to_processed_msgs-Complete [] c = (refl, tt)
  msgs_to_processed_msgs-Complete ((sender, msgs) ∷ queues) c =
      let run = chunks_loop readings (length msgs) sender msgs 0 c in
      let (same, all) = chunks_loop-Complete (length msgs) sender msgs 0 c (omega arith) in
      let (rest_same, rest_all) = msgs_to_processed_msgs-Complete queues run.1 in
      (
        tagged_chunks-append run.0 (msgs_to_processed_msgs readings queues run.1).0
            ∙ (λ j. same j ++ rest_same j),
        All-append IsChunk run.0 (msgs_to_processed_msgs readings queues run.1).0 all rest_all,
      )
