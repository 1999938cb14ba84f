-- ===== src/Challenger/Host/Published.antt =====
-- What the end of a block publishes to the child and to the challenger.
use opinit_bots.Base.{ℕ, ◌≡◌, refl, List, [], ◌∷◌, ◌++◌, ◌⊎◌, inl, inr, arith, Option-cases}
use opinit_bots.Base.Result.{ok, err, Result-cases}
use opinit_bots.Challenger.Event.{ChallengeEvent, Challenge}
use opinit_bots.Challenger.Pending.{
  ChallengeEventHandler, get_unprocessed_pending_events, delete_pending_events,
}
use opinit_bots.Challenger.Check.{check_timeout, get_prev_pending_event}
use opinit_bots.Challenger.Store.{
  save_pending_event, save_pending_events, erase_pending_events, save_pending_challenges,
}
use opinit_bots.Challenger.Host.{
  Environment, Host, HostError, events_failed, db_failed, status_failed, save_last_output,
  save_internal_status, save_block, publish, end_block_handler, last_event, option_list,
  set_last_output, status_of,
}

-- The event that an output of the block completes.
abbrev pub prev_events : List ChallengeEvent → ChallengeEventHandler → List ChallengeEvent
prev_events [] handler = []
prev_events (first ∷ outputs) handler = option_list (get_prev_pending_event first handler)

module _ {S : Type 0} (env : Environment S) where
  save_last_output-cases :
      (outputs : List ChallengeEvent) (h : Host S)
      → ((s : S) × (save_last_output env outputs h
            ≡ (ok (prev_events outputs h.event_handler), record h { stage = s })))
        ⊎ ((e : HostError) × (save_last_output env outputs h ≡ (err e, h)))
  unfolding save_last_output
  save_last_output-cases [] h = inl (h.stage, refl)
  save_last_output-cases (first ∷ outputs) h =
      elim (Result-cases
        (save_pending_event env.staged env.event_json (last_event first outputs) h.stage)) [
          | inl (s, saved) ↦ inl (s, ground arith)
          | inr (e, failed) ↦ inr (events_failed e, ground arith)
        ]

  save_internal_status-cases :
      (h : Host S)
      → ((s : S) × (save_internal_status env h ≡ (ok tt, record h { stage = s })))
        ⊎ ((e : HostError) × (save_internal_status env h ≡ (err e, h)))
  unfolding save_internal_status
  save_internal_status-cases h = elim (Option-cases (env.status_json.marshal (status_of h))) [
    | inl failed ↦ inr (status_failed, ground arith)
    | inr (bytes, marshalled) ↦
        elim (Result-cases (env.staged.set h.stage env.internal_status_key bytes)) [
          | inl (s, saved) ↦ inl (s, ground arith)
          | inr (e, failed) ↦ inr (db_failed e, ground arith)
        ]
  ]

  -- The writes at the end of a block change the stage only.
  save_block-cases :
      (processed : List ChallengeEvent) (challenges : List Challenge) (h : Host S)
      → (s : S) × ((save_block env processed challenges h ≡ (ok tt, record h { stage = s }))
          ⊎ ((e : HostError) × (save_block env processed challenges h
                ≡ (err e, record h { stage = s }))))
  unfolding save_block
  save_block-cases processed challenges h =
      elim (Result-cases (erase_pending_events env.staged processed h.stage)) [
        | inr (e, failed) ↦ (h.stage, inr (events_failed e, ground arith))
        | inl (s1, erased) ↦
            elim (Result-cases
              (save_pending_challenges env.for_challenger env.challenge_json challenges s1)) [
                | inr (e, failed) ↦ (s1, inr (events_failed e, ground arith))
                | inl (s2, saved) ↦ elim (save_internal_status-cases (record h { stage = s2 })) [
                  | inr (e, failed) ↦ (s2, inr (e, ground arith))
                  | inl (s3, status) ↦ elim (Result-cases (env.commit s3)) [
                    | inr (e, failed) ↦ (s3, inr (db_failed e, ground arith))
                    | inl (s4, committed) ↦ (s4, inl (ground arith))
                  ]
                ]
              ]
      ]

  -- If the end of a block fails, then neither the child has been given events nor the challenger challenges.
  -- If it succeeds, the child has been given the events of the block, and the challenger the challenges of
  -- CheckTimeout for the pending events but the one that the outputs of the block complete; of the events
  -- that CheckTimeout leaves, those that it challenged and the completed one are not pending any more, and
  -- the last output of the block is.
  pub end_block_handler-publishes :
      (height block_time : ℕ) (h : Host S)
      → let (r, h') = end_block_handler env height block_time h in
        let prev = prev_events h.output_pending_event_queue h.event_handler in
        let (challenges, timed_out, handler) =
          check_timeout block_time
            (get_unprocessed_pending_events prev h.event_handler)
            h.event_handler in
        ((e : HostError) × (r ≡ err e) × (h'.child_events ≡ h.child_events) × (h'.sent ≡ h.sent))
        ⊎ ((r ≡ ok tt)
            × (h'.child_events ≡ h.child_events ++ h.event_queue)
            × (h'.sent ≡ h.sent ++ challenges)
            × (h'.event_handler
                ≡ set_last_output h.output_pending_event_queue
                    (delete_pending_events (timed_out ++ prev) handler)))
  unfolding end_block_handler publish
  end_block_handler-publishes height block_time h =
      elim (Result-cases (env.set_synced_height height h.stage)) [
        | inr (e, failed) ↦ inl (db_failed e, ground arith, ground arith, ground arith)
        | inl (s, synced) ↦
            elim (Result-cases (save_pending_events env.for_child env.event_json h.event_queue s)) [
              | inr (e, failed) ↦ inl (events_failed e, ground arith, ground arith, ground arith)
              | inl (s1, queued) ↦
                  let h1 : Host S = record h { stage = s1 } in
                  elim (save_last_output-cases h.output_pending_event_queue h1) [
                    | inr (e, failed) ↦ inl (
                      e,
                      rw (synced, queued, failed) refl,
                      rw (synced, queued, failed) refl,
                      rw (synced, queued, failed) refl,
                    )
                    | inl (s2, saved) ↦
                        let prev = prev_events h.output_pending_event_queue h.event_handler in
                        let t =
                          check_timeout block_time
                            (get_unprocessed_pending_events prev h.event_handler) h.event_handler in
                        let h2 : Host S = record h { stage = s2; event_handler = t.2 } in
                        let writes = save_block-cases (t.1 ++ prev) t.0 h2 in
                        elim writes.1 [
                          | inr (e, failed) ↦ inl (
                            e,
                            rw (synced, queued, saved, failed) refl,
                            rw (synced, queued, saved, failed) refl,
                            rw (synced, queued, saved, failed) refl,
                          )
                          | inl done ↦ inr (
                            rw (synced, queued, saved, done) refl,
                            rw (synced, queued, saved, done) refl,
                            rw (synced, queued, saved, done) refl,
                            rw (synced, queued, saved, done) refl,
                          )
                        ]
                  ]
            ]
      ]
