-- ===== src/Executor/Host/Delivered.antt =====
-- The queues of the messages to the child: what is queued in a block is what goes out at its end.
use mathlib.Core.List.{append-nil}
use opinit_bots.Base.{
  ◌≡◌, refl, ap, sym, ◌∙◌, true, false, List, [], ◌∷◌, ◌++◌, if◌then◌else◌, All, arith, Bool-cases,
  inl, inr, append_assoc,
}
use opinit_bots.Base.Bytes.{bytes_equal, bytes_equal→eq, bytes_equal_refl}
use opinit_bots.Db.{Bytes}
use opinit_bots.Broadcaster.Chunks.Complete.{tagged, tagged_queues}
use opinit_bots.Executor.Host.{append_msg_queue, empty_msg_queue}

bytes_equal-turned : (t u : Bytes) → bytes_equal u t ≡ false → bytes_equal t u ≡ false
bytes_equal-turned t u ne = elim (Bool-cases (bytes_equal t u)) [
  | inl same ↦
      let turned : bytes_equal u t ≡ true = rw (bytes_equal→eq t u same) (bytes_equal_refl u) in
      absurd (ground (arith, ne, turned))
  | inr turned ↦ turned
]

module _ {M : Type 0} where
  -- The messages of one sender, in their order.
  abbrev pub for_sender : Bytes → List (Bytes × M) → List M
  for_sender s [] = []
  for_sender s ((t, msg) ∷ sent) =
      if bytes_equal t s then msg ∷ for_sender s sent else for_sender s sent

  -- The messages are queued one after another.
  abbrev pub queue_all : List (Bytes × M) → List (Bytes × List M) → List (Bytes × List M)
  queue_all [] queues = queues
  queue_all ((t, msg) ∷ sent) queues = queue_all sent (append_msg_queue msg t queues)

  abbrev pub IsAbsent : Bytes → List (Bytes × List M) → Type 0
  IsAbsent t queues = All (λ queue. bytes_equal queue.0 t ≡ false) queues

  -- The senders are the keys of a map.
  abbrev pub IsDistinct : List (Bytes × List M) → Type 0
  IsDistinct [] = Unit
  IsDistinct ((t, msgs) ∷ queues) = IsAbsent t queues × IsDistinct queues

  for_sender-append :
      (s : Bytes) (xs ys : List (Bytes × M))
      → for_sender s (xs ++ ys) ≡ for_sender s xs ++ for_sender s ys
  for_sender-append s [] ys = refl
  for_sender-append s ((t, msg) ∷ xs) ys = elim (Bool-cases (bytes_equal t s)) [
    | inl same ↦ rw same (ap (λ l. msg ∷ l) (for_sender-append s xs ys))
    | inr other ↦ rw other (for_sender-append s xs ys)
  ]

  for_sender-own :
      (t s : Bytes) (msgs : List M) → bytes_equal t s ≡ true → for_sender s (tagged t msgs) ≡ msgs
  for_sender-own t s [] same = refl
  for_sender-own t s (msg ∷ msgs) same = rw same (ap (λ l. msg ∷ l) (for_sender-own t s msgs same))

  for_sender-other :
      (t s : Bytes) (msgs : List M) → bytes_equal t s ≡ false → for_sender s (tagged t msgs) ≡ []
  for_sender-other t s [] other = refl
  for_sender-other t s (msg ∷ msgs) other = rw other (for_sender-other t s msgs other)

  for_sender-absent :
      (s : Bytes) (queues : List (Bytes × List M))
      → IsAbsent s queues
      → for_sender s (tagged_queues queues) ≡ []
  for_sender-absent s [] absent = refl
  for_sender-absent s ((t, msgs) ∷ queues) (other, absent) =
      for_sender-append s (tagged t msgs) (tagged_queues queues)
      ∙ (λ i. for_sender-other t s msgs other i ++ for_sender-absent s queues absent i)

  append_msg_queue-IsAbsent :
      (s t : Bytes) (msg : M) (queues : List (Bytes × List M))
      → bytes_equal t s ≡ false
      → IsAbsent s queues
      → IsAbsent s (append_msg_queue msg t queues)
  unfolding append_msg_queue
  append_msg_queue-IsAbsent s t msg [] other absent = (other, tt)
  append_msg_queue-IsAbsent s t msg ((u, msgs) ∷ queues) other (here, absent) =
      elim (Bool-cases (bytes_equal u t)) [
        | inl same ↦ rw same (here, absent)
        | inr ne ↦ rw ne (here, append_msg_queue-IsAbsent s t msg queues other absent)
      ]

  append_msg_queue-IsDistinct :
      (t : Bytes) (msg : M) (queues : List (Bytes × List M))
      → IsDistinct queues
      → IsDistinct (append_msg_queue msg t queues)
  unfolding append_msg_queue
  append_msg_queue-IsDistinct t msg [] distinct = (tt, tt)
  append_msg_queue-IsDistinct t msg ((u, msgs) ∷ queues) (absent, distinct) =
      elim (Bool-cases (bytes_equal u t)) [
        | inl same ↦ rw same (absent, distinct)
        | inr ne ↦ rw ne (
          append_msg_queue-IsAbsent u t msg queues (bytes_equal-turned t u ne) absent,
          append_msg_queue-IsDistinct t msg queues distinct,
        )
      ]

  append_msg_queue-for_sender :
      (s t : Bytes) (msg : M) (queues : List (Bytes × List M))
      → IsDistinct queues
      → for_sender s (tagged_queues (append_msg_queue msg t queues))
        ≡ for_sender s (tagged_queues queues) ++ for_sender s ((t, msg) ∷ [])
  unfolding append_msg_queue
  append_msg_queue-for_sender s t msg [] distinct = refl
  append_msg_queue-for_sender s t msg ((u, msgs) ∷ queues) (absent, distinct) =
      elim (Bool-cases (bytes_equal u t)) [
        | inl same ↦ rw same (
            for_sender-append s (tagged u (msgs ++ msg ∷ [])) (tagged_queues queues)
            ∙ at_first (bytes_equal→eq u t same)
            ∙ ap (λ l. l ++ for_sender s ((t, msg) ∷ []))
                (sym (for_sender-append s (tagged u msgs) (tagged_queues queues))))
        | inr ne ↦ rw ne (
            for_sender-append s (tagged u msgs) (tagged_queues (append_msg_queue msg t queues))
            ∙ ap (λ l. for_sender s (tagged u msgs) ++ l)
                (append_msg_queue-for_sender s t msg queues distinct)
            ∙ sym (
                append_assoc (for_sender s (tagged u msgs)) (for_sender s (tagged_queues queues))
                  (for_sender s ((t, msg) ∷ [])))
            ∙ ap (λ l. l ++ for_sender s ((t, msg) ∷ []))
                (sym (for_sender-append s (tagged u msgs) (tagged_queues queues))))
      ]
    where
      at_first :
          u ≡ t
          → for_sender s (tagged u (msgs ++ msg ∷ [])) ++ for_sender s (tagged_queues queues)
            ≡ (for_sender s (tagged u msgs) ++ for_sender s (tagged_queues queues))
              ++ for_sender s ((t, msg) ∷ [])
      at_first p = elim (Bool-cases (bytes_equal u s)) [
        | inl own ↦
            let gone : for_sender s (tagged_queues queues) ≡ [] =
              for_sender-absent s queues (rw (sym (bytes_equal→eq u s own)) absent) in
            let mine : for_sender s ((t, msg) ∷ []) ≡ msg ∷ [] = rw (sym p, own) refl in
            rw (for_sender-own u s (msgs ++ msg ∷ []) own, for_sender-own u s msgs own, gone, mine)
              (append-nil (msgs ++ msg ∷ []) ∙ ap (λ l. l ++ msg ∷ []) (sym (append-nil msgs)))
        | inr other ↦
            let none' : for_sender s ((t, msg) ∷ []) ≡ [] = rw (sym p, other) refl in
            rw
              (
                for_sender-other u s (msgs ++ msg ∷ []) other,
                for_sender-other u s msgs other,
                none',
              )
              (sym (append-nil (for_sender s (tagged_queues queues))))
      ]

  pub queue_all-for_sender :
      (s : Bytes) (sent : List (Bytes × M)) (queues : List (Bytes × List M))
      → IsDistinct queues
      → IsDistinct (queue_all sent queues)
        × (for_sender s (tagged_queues (queue_all sent queues))
            ≡ for_sender s (tagged_queues queues) ++ for_sender s sent)
  queue_all-for_sender s [] queues distinct =
      (distinct, sym (append-nil (for_sender s (tagged_queues queues))))
  queue_all-for_sender s ((t, msg) ∷ sent) queues distinct =
      let (kept, same) =
        queue_all-for_sender s sent (append_msg_queue msg t queues)
          (append_msg_queue-IsDistinct t msg queues distinct) in
      (
        kept,
        same
            ∙ ap (λ l. l ++ for_sender s sent) (append_msg_queue-for_sender s t msg queues distinct)
            ∙ append_assoc (for_sender s (tagged_queues queues)) (for_sender s ((t, msg) ∷ []))
                (for_sender s sent)
            ∙ ap (λ l. for_sender s (tagged_queues queues) ++ l)
                (sym (for_sender-append s ((t, msg) ∷ []) sent)),
      )

  pub empty_msg_queue-for_sender :
      (s : Bytes) (queues : List (Bytes × List M))
      → IsDistinct queues
      → IsDistinct (empty_msg_queue queues)
        × (for_sender s (tagged_queues (empty_msg_queue queues)) ≡ [])
  unfolding empty_msg_queue
  empty_msg_queue-for_sender s [] distinct = (tt, refl)
  empty_msg_queue-for_sender s ((t, msgs) ∷ queues) (absent, distinct) =
      let (kept, none') = empty_msg_queue-for_sender s queues distinct in
      ((still t queues absent, kept), none')
    where
      still :
          (t : Bytes) (queues : List (Bytes × List M))
          → IsAbsent t queues
          → IsAbsent t (empty_msg_queue queues)
      still t [] absent = tt
      still t (queue ∷ queues) (here, absent) = (here, still t queues absent)
