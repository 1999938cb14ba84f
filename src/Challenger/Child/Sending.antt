-- ===== src/Challenger/Child/Sending.antt =====
-- When the challenges of a block are sent.
use opinit_bots.Base.{
  ◌≡◌, refl, sym, ◌∙◌, ap, not, ◌∷◌, ◌==◌, ◌&&◌, ltb, subst, Option, none, some, List, [], ◌++◌,
  ◌⊎◌, arith, Bool-cases, Option-cases, inl, inr,
}
use opinit_bots.Base.Result.{ok, err, Result-cases}
use opinit_bots.Db.{Bytes}
use opinit_bots.Merkle.{TreeInfo, FinalizedTreeInfo, finalize_working_tree, get_working_tree}
use opinit_bots.Merkle.Store.{save_nodes, save_finalized_tree, save_working_tree}
use opinit_bots.Challenger.Event.{ChallengeEvent, Challenge, new_output}
use opinit_bots.Challenger.Pending.{
  ChallengeEventHandler, get_unprocessed_pending_events, set_pending_events, delete_pending_events,
}
use opinit_bots.Challenger.Store.{
  save_pending_events, erase_pending_events, save_pending_challenges,
}
use opinit_bots.Challenger.Check.{check_value, check_timeout}
use opinit_bots.Challenger.Child.{
  Environment, Child, ChildError, Header, trees, event, events, db, working_tree_of, save_finalized,
  finalize_tree, handle_tree, handle_output, handle_block_output, check_events, save_checked,
  end_block_handler,
}

module _ {S : Type 0} (env : Environment S) where
  -- Neither the challenges sent nor the pending events have changed.
  abbrev Keeps : Child S → Child S → Type 0
  Keeps ch ch' = (ch'.sent ≡ ch.sent) × (ch'.event_handler ≡ ch.event_handler)

  -- Nor has the queue of events.
  abbrev Leaves : Child S → Child S → Type 0
  Leaves ch ch' =
      (ch'.sent ≡ ch.sent)
      × (ch'.event_handler ≡ ch.event_handler)
      × (ch'.event_queue ≡ ch.event_queue)

  -- The queued events, and the event of the output when the block has one.
  abbrev pub with_output :
      Header → Bytes → List ChallengeEvent → Option Bytes → Option TreeInfo → List ChallengeEvent
  with_output header block_id queue (some root) (some t) =
      queue
      ++ new_output header.height t.index (env.generate_output_root env.version root block_id)
          header.time
        ∷ []
  with_output header block_id queue _ _ = queue

  -- The events of a block that handle_tree has dealt with.
  abbrev pub block_events : Header → Bytes → Child S → List ChallengeEvent
  block_events header block_id ch = elim (handle_tree env header ch).0 [
    | err e ↦ ch.event_queue
    | ok root ↦
        with_output header block_id ch.event_queue root
          (handle_tree env header ch).1.mk.working_tree
  ]

  save_finalized-cases :
      (info : Option FinalizedTreeInfo) (ch : Child S)
      → ((s : S) × (save_finalized env info ch ≡ (ok tt, record ch { stage = s })))
        ⊎ ((e : ChildError) × (save_finalized env info ch ≡ (err e, ch)))
  unfolding save_finalized
  save_finalized-cases none ch = inl (ch.stage, refl)
  save_finalized-cases (some info) ch =
      elim (Result-cases (save_finalized_tree env.staged env.finalized_json info ch.stage)) [
        | inl (s, saved) ↦ inl (s, rw saved refl)
        | inr (e, failed) ↦ inr (trees e, rw failed refl)
      ]

  finalize_tree-Leaves :
      (header : Header) (ch : Child S) → Leaves ch (finalize_tree env header ch).1
  unfolding finalize_tree working_tree_of get_working_tree
  finalize_tree-Leaves header ch =
      elim (Result-cases (finalize_working_tree env.generate_node_hash [] ch.mk)) [
        | inr (e, failed) ↦ (ground arith, ground arith, ground arith)
        | inl (r, finalized) ↦ elim (save_finalized-cases r.0 (record ch { mk = r.3 })) [
          | inr (e, failed) ↦ (ground arith, ground arith, ground arith)
          | inl (s, saved) ↦ elim (Result-cases (save_nodes env.staged r.1 s)) [
            | inr (e, failed) ↦ (ground arith, ground arith, ground arith)
            | inl (s', written) ↦ elim (Option-cases r.3.working_tree) [
              | inl missing ↦ (ground arith, ground arith, ground arith)
              | inr (t, found) ↦ (ground arith, ground arith, ground arith)
            ]
          ]
        ]
      ]

  -- The end of handle_tree.
  saved-Leaves : (ch c : Child S) → Leaves ch c → (s : S) → Leaves ch (record c { stage = s })
  saved-Leaves ch c k s = k

  handle_tree-Leaves : (header : Header) (ch : Child S) → Leaves ch (handle_tree env header ch).1
  unfolding handle_tree working_tree_of get_working_tree
  handle_tree-Leaves header ch =
      elim (Bool-cases
        (not (ch.finalizing_block_height == 0) && ltb ch.finalizing_block_height header.height)) [
          | inl passed ↦ (ground arith, ground arith, ground arith)
          | inr behind ↦ elim (Bool-cases (ch.finalizing_block_height == header.height)) [
            | inr waits ↦ elim (Option-cases ch.mk.working_tree) [
              | inl missing ↦ (ground arith, ground arith, ground arith)
              | inr (t, found) ↦
                  elim (Result-cases (save_working_tree env.staged env.tree_json t ch.stage)) [
                    | inr (e, failed) ↦ (ground arith, ground arith, ground arith)
                    | inl (s, saved) ↦ (ground arith, ground arith, ground arith)
                  ]
            ]
            | inl now ↦
                let k = finalize_tree-Leaves header ch in
                elim (Result-cases (finalize_tree env header ch).0) [
                  | inr (e, failed) ↦ (ground (arith, k), ground (arith, k), ground (arith, k))
                  | inl (root, finalized) ↦
                      let c = (finalize_tree env header ch).1 in
                      elim (Option-cases c.mk.working_tree) [
                        | inl missing ↦ (ground (arith, k), ground (arith, k), ground (arith, k))
                        | inr (t, found) ↦
                            elim (Result-cases
                              (save_working_tree env.staged env.tree_json t c.stage)) [
                                | inr (e, failed) ↦
                                    (ground (arith, k), ground (arith, k), ground (arith, k))
                                | inl (s, saved) ↦
                                    (ground (arith, k), ground (arith, k), ground (arith, k))
                              ]
                      ]
                ]
          ]
        ]

  handle_block_output-Keeps :
      (header : Header) (block_id : Bytes) (root : Option Bytes) (ch : Child S)
      → Keeps ch (handle_block_output env header block_id root ch).1
  unfolding handle_block_output handle_output working_tree_of get_working_tree
  handle_block_output-Keeps header block_id none ch = (refl, refl)
  handle_block_output-Keeps header block_id (some root) ch =
      elim (Option-cases ch.mk.working_tree) [
        | inl missing ↦ (ground arith, ground arith)
        | inr (t, found) ↦ (ground arith, ground arith)
      ]

  -- The queue after the output has been handled.
  handle_block_output-queue :
      (header : Header) (block_id : Bytes) (root : Option Bytes) (ch : Child S)
      → (handle_block_output env header block_id root ch).0 ≡ ok tt
      → (handle_block_output env header block_id root ch).1.event_queue
        ≡ with_output header block_id ch.event_queue root ch.mk.working_tree
  unfolding handle_block_output handle_output working_tree_of get_working_tree
  handle_block_output-queue header block_id none ch done = refl
  handle_block_output-queue header block_id (some root) ch done =
      elim (Option-cases ch.mk.working_tree) [
        | inl missing ↦ absurd (ground arith)
        | inr (t, found) ↦ rw found refl
      ]

  -- Saving what was checked changes the stage only.
  save_checked-cases :
      (challenges : List Challenge) (processed marked : List ChallengeEvent) (ch : Child S)
      → (s : S) × ((save_checked env challenges processed marked ch
            ≡ (ok tt, record ch { stage = s }))
          ⊎ ((e : ChildError) × (save_checked env challenges processed marked ch
                ≡ (err e, record ch { stage = s }))))
  unfolding save_checked
  save_checked-cases challenges processed marked ch =
      elim (Result-cases (save_pending_events env.staged env.event_json marked ch.stage)) [
        | inr (e, failed) ↦ (ch.stage, inr (events e, ground arith))
        | inl (s1, saved) ↦ elim (Result-cases (erase_pending_events env.staged processed s1)) [
          | inr (e, failed) ↦ (s1, inr (events e, ground arith))
          | inl (s2, erased) ↦
              elim (Result-cases
                (save_pending_challenges env.for_challenger env.challenge_json challenges s2)) [
                  | inr (e, failed) ↦ (s2, inr (events e, ground arith))
                  | inl (s3, stored) ↦ elim (Result-cases (env.commit s3)) [
                    | inr (e, failed) ↦ (s3, inr (db e, ground arith))
                    | inl (s4, committed) ↦ (s4, inl (ground arith))
                  ]
                ]
        ]
      ]

  -- If the end block handler fails, no challenge has been sent. If it succeeds, the challenges sent are,
  -- after those sent before, those of CheckValue for the events of the block, which are the queued ones and
  -- at last the event of the output when the block has one, and then those of CheckTimeout for the
  -- pending events that CheckValue has not processed; and of the pending events that CheckTimeout
  -- leaves, the processed ones are deleted and the challenged ones set.
  pub end_block_handler-sent :
      (header : Header) (block_id : Bytes) (ch : Child S)
      → let (r, ch') = end_block_handler env header block_id ch in
        ((e : ChildError) × (r ≡ err e) × (ch'.sent ≡ ch.sent))
        ⊎ ((processed marked : List ChallengeEvent) × (mismatches timeouts : List Challenge)
            × (handler : ChallengeEventHandler) × (r ≡ ok tt)
            × (check_value ch.event_handler (block_events header block_id ch)
                ≡ ok (mismatches, processed))
            × (check_timeout header.time
                  (get_unprocessed_pending_events processed ch.event_handler)
                  ch.event_handler
                ≡ (timeouts, marked, handler))
            × (ch'.sent ≡ ch.sent ++ (mismatches ++ timeouts))
            × (ch'.event_handler
                ≡ set_pending_events marked (delete_pending_events processed handler)))
  unfolding end_block_handler check_events
  end_block_handler-sent header block_id ch =
      let k1 = handle_tree-Leaves header ch in
      let c1 = (handle_tree env header ch).1 in
      elim (Result-cases (handle_tree env header ch).0) [
        | inr (e, failed) ↦ inl (e, ground (arith, k1), ground (arith, k1))
        | inl (root, handled) ↦
            let k2 = handle_block_output-Keeps header block_id root c1 in
            let c2 = (handle_block_output env header block_id root c1).1 in
            elim (Result-cases (handle_block_output env header block_id root c1).0) [
              | inr (e, failed) ↦ inl (e, ground (arith, k1, k2), ground (arith, k1, k2))
              | inl (u, output) ↦
                  elim (Result-cases (env.set_synced_height header.height c2.stage)) [
                    | inr (e, failed) ↦ inl (db e, ground (arith, k1, k2), ground (arith, k1, k2))
                    | inl (s, synced) ↦
                        elim (Result-cases (check_value c2.event_handler c2.event_queue)) [
                          | inr (e, failed) ↦
                              inl (event e, ground (arith, k1, k2), ground (arith, k1, k2))
                          | inl (v, checked) ↦
                              let same : c2.event_handler ≡ ch.event_handler = k2.1 ∙ k1.1 in
                              let queue : c2.event_queue ≡ block_events header block_id ch =
                                handle_block_output-queue header block_id root c1 output
                                ∙ ap (λ q. with_output header block_id q root c1.mk.working_tree)
                                    k1.2
                                ∙ rw (handled, block_events) refl in
                              let t =
                                check_timeout header.time
                                  (get_unprocessed_pending_events v.1 c2.event_handler)
                                  c2.event_handler in
                              let c3 : Child S = record c2 { stage = s; event_handler = t.2 } in
                              let saving = save_checked-cases (v.0 ++ t.0) v.1 t.1 c3 in
                              elim saving.1 [
                                | inr (e, failed) ↦
                                    inl (e, ground (arith, k1, k2), ground (arith, k1, k2))
                                | inl done ↦ inr (
                                  v.1,
                                  t.1,
                                  v.0,
                                  t.0,
                                  t.2,
                                  rw (handled, output, synced, checked, done) refl,
                                  (λ i. check_value (sym same i) (sym queue i)) ∙ checked,
                                  subst
                                      (λ h.
                                        check_timeout header.time
                                          (get_unprocessed_pending_events v.1 h) h
                                        ≡ (t.0, t.1, t.2))
                                      same refl,
                                  rw (handled, output, synced, checked, done)
                                      (ap (λ l. l ++ (v.0 ++ t.0)) (k2.0 ∙ k1.0)),
                                  rw (handled, output, synced, checked, done) refl,
                                )
                              ]
                        ]
                  ]
            ]
      ]
