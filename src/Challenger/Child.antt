-- ===== src/Challenger/Child.antt =====
-- challenger/child/withdraw.go and handler.go: the tree and the output of each block of the rollup, and
-- the check of its events at the end of the block.
pub mod Sending
use opinit_bots.Base.{
  ℕ, ◌+◌, ◌-◌, ◌^◌, Bool, true, false, not, ◌&&◌, ◌==◌, ltb, leb, Option, none, some, List, [], ◌∷◌,
  ◌++◌, if◌then◌else◌,
}
use opinit_bots.Base.Words.{u64}
use opinit_bots.Base.Result.{Result, ok, err}
use opinit_bots.Base.Machine.{Machine, after, ◌>>=◌, ◌>>◌, return, fail, self, assign, try}
use opinit_bots.Db.{Bytes, Database, DbError, Json}
use opinit_bots.Merkle.{
  Merkle, TreeInfo, FinalizedTreeInfo, Error, get_working_tree, insert_leaf, finalize_working_tree,
}
use opinit_bots.Merkle.Store.{save_nodes, save_finalized_tree, save_working_tree}
use opinit_bots.Challenger.Event.{ChallengeEvent, Challenge, EventError, new_output}
use opinit_bots.Challenger.Pending.{
  ChallengeEventHandler, get_unprocessed_pending_events, delete_pending_events, set_pending_events,
}
use opinit_bots.Challenger.Check.{check_value, check_timeout}
use opinit_bots.Challenger.Store.{
  EventJson, save_pending_events, erase_pending_events, save_pending_challenges,
}

pub data ChildError : Type 0 where
  merkle : Error → ChildError
  trees : opinit_bots.Merkle.Store.StoreError → ChildError
  events : opinit_bots.Challenger.Store.StoreError → ChildError
  event : EventError → ChildError
  db : DbError → ChildError
  -- nodetypes.ErrIgnoreAndTryLater
  ignore_and_try_later output_missing query_failed : ChildError
  -- a Go panic
  panic : ChildError

pub record OutputProposal : Type 0 where
  pub l1_block_time : ℕ
  pub l2_block_number : ℕ

-- `S` is the state of the stage. `sent` are the challenges given to the channel of the challenger,
-- whose reader has not stopped.
pub record Child (S : Type 0) : Type 0 where
  pub mk : Merkle
  pub stage : S
  pub event_handler : ChallengeEventHandler
  pub event_queue : List ChallengeEvent
  pub next_output_time : ℕ
  pub finalizing_block_height : ℕ
  pub last_output_time : ℕ
  pub sent : List Challenge

-- The code outside: the host, the codecs, the hashes of the chains' modules and the stores.
-- `for_challenger` is the stage under the prefix of the challenger's own store. A failed query says
-- whether its text has "collections: not found".
pub record Environment (S : Type 0) : Type 0 where
  pub staged : Database S
  pub for_challenger : Database S
  pub commit : S → Result DbError S
  pub bridge_id : ℕ
  pub version : ℕ
  pub generate_withdrawal_hash : ℕ → ℕ → Bytes → Bytes → Bytes → ℕ → Bytes
  pub generate_node_hash : Bytes → Bytes → Bytes
  pub generate_output_root : ℕ → Bytes → Bytes → Bytes
  pub query_synced_output : ℕ → ℕ → Result Bool OutputProposal
  pub set_synced_height : ℕ → S → Result DbError S
  pub tree_json : Json TreeInfo
  pub finalized_json : Json FinalizedTreeInfo
  pub event_json : EventJson
  pub challenge_json : Json Challenge

pub record Header : Type 0 where
  pub height : ℕ
  pub time : ℕ

module _ {S : Type 0} (env : Environment S) where
  abbrev pub Handler {ℓ} : Type ℓ → Type ℓ
  Handler A = Machine ChildError (Child S) A

  -- A write to the stage; writes that fail leave it as it was before the first of them.
  abbrev pub staging : {F : Type 0} → (F → ChildError) → (S → Result F S) → Handler (Unit {0})
  staging wrap write = do ch ← self; s ← try wrap (write ch.stage); assign (record ch { stage = s })

  unfoldable pub working_tree_of : Handler TreeInfo
  unfolding get_working_tree
  working_tree_of = do ch ← self; try merkle (get_working_tree ch.mk)

  unfoldable pub handle_initiate_withdrawal :
      (l2_sequence : ℕ) (from to base_denom : Bytes) (amount : ℕ) → Handler (Unit {0})
  unfolding working_tree_of
  handle_initiate_withdrawal l2_sequence from to base_denom amount = do
    let hash = env.generate_withdrawal_hash env.bridge_id l2_sequence from to base_denom amount
    t ← working_tree_of
    if not (u64 (t.start_leaf_index + t.leaf_count) == l2_sequence) then fail panic else do
      ch ← self
      (new_nodes, m) ← try merkle (insert_leaf env.generate_node_hash hash ch.mk)
      assign (record ch { mk = m })
      staging db (save_nodes env.staged new_nodes)

  -- The time of the previous output, when that of the next is not known yet.
  unfoldable pub prepare_time : TreeInfo → Handler (Unit {0})
  prepare_time t ch =
      if not (ch.next_output_time == 0 && ltb 1 t.index)
      then (ok tt, ch)
      else elim (env.query_synced_output env.bridge_id (t.index - 1)) [
        | err not_found ↦ (err output_missing, ch)
        | ok output ↦ (ok tt, record ch { last_output_time = output.l1_block_time })
      ]

  unfoldable pub prepare_output : Handler (Unit {0})
  unfolding working_tree_of prepare_time
  prepare_output = do
    t ← working_tree_of
    prepare_time t
    λ ch. elim (env.query_synced_output env.bridge_id t.index) [
      | err not_found ↦ (err (if not_found then ignore_and_try_later else query_failed), ch)
      | ok output ↦
          let ch' : Child S = record ch { next_output_time = output.l1_block_time } in
          if leb (2 ^ 63) output.l2_block_number
          then (err panic, ch')
          else (ok tt, record ch' { finalizing_block_height = output.l2_block_number })
    ]

  unfoldable pub save_finalized : Option FinalizedTreeInfo → Handler (Unit {0})
  save_finalized none = return tt
  save_finalized (some info) =
      staging trees (save_finalized_tree env.staged env.finalized_json info)

  unfoldable pub finalize_tree : Header → Handler Bytes
  unfolding finalize_working_tree working_tree_of save_finalized
  finalize_tree header = do
    ch ← self
    (info, new_nodes, root, m) ← try merkle (finalize_working_tree env.generate_node_hash [] ch.mk)
    assign (record ch { mk = m })
    save_finalized info
    staging db (save_nodes env.staged new_nodes)
    t ← working_tree_of
    ch' ← self
    assign (record ch' { finalizing_block_height = 0; last_output_time = header.time })
    return root

  unfoldable pub handle_tree : Header → Handler (Option Bytes)
  unfolding finalize_tree working_tree_of
  handle_tree header = do
    ch ← self
    if not (ch.finalizing_block_height == 0) && ltb ch.finalizing_block_height header.height
        then fail panic
        else do
          storage_root ←
              (if ch.finalizing_block_height == header.height
                then finalize_tree header >>= (λ root. return (some root))
                else return none)
          t ← working_tree_of
          staging trees (save_working_tree env.staged env.tree_json t)
          return storage_root

  unfoldable pub handle_output :
      (block_time block_height version : ℕ)
      → (block_id : Bytes) → (output_index : ℕ) → (storage_root : Bytes) → Handler (Unit {0})
  unfolding new_output
  handle_output block_time block_height version block_id output_index storage_root ch =
      let output =
        new_output block_height output_index
          (env.generate_output_root version storage_root block_id) block_time in
      (ok tt, record ch { event_queue = ch.event_queue ++ output ∷ [] })

  -- The check of the events at the end of a block, up to the commit. CheckTimeout marks the events in
  -- the handler's map; the map is updated again after the commit.
  unfoldable pub check_events :
      (block_time : ℕ) → Handler (List Challenge × List ChallengeEvent × List ChallengeEvent)
  check_events block_time = do
    ch ← self
    (mismatches, processed) ← try event (check_value ch.event_handler ch.event_queue)
    let unprocessed = get_unprocessed_pending_events processed ch.event_handler
    let (timeouts, marked, handler) = check_timeout block_time unprocessed ch.event_handler
    assign (record ch { event_handler = handler })
    return (mismatches ++ timeouts, processed, marked)

  unfoldable pub save_checked :
      List Challenge → (processed marked : List ChallengeEvent) → Handler (Unit {0})
  save_checked challenges processed marked = do
    staging events (save_pending_events env.staged env.event_json marked)
    staging events (erase_pending_events env.staged processed)
    staging events (save_pending_challenges env.for_challenger env.challenge_json challenges)
    staging db env.commit

  unfoldable pub handle_block_output :
      Header → (block_id : Bytes) → Option Bytes → Handler (Unit {0})
  unfolding working_tree_of handle_output
  handle_block_output header block_id none = return tt
  handle_block_output header block_id (some root) = do
    t ← working_tree_of
    handle_output header.time header.height env.version block_id t.index root

  unfoldable pub end_block_handler : Header → (block_id : Bytes) → Handler (Unit {0})
  end_block_handler header block_id = do
    storage_root ← handle_tree header
    handle_block_output header block_id storage_root
    staging db (env.set_synced_height header.height)
    (challenges, processed, marked) ← check_events header.time
    save_checked challenges processed marked
    ch ← self
    assign (record ch {
      event_handler = set_pending_events marked (delete_pending_events processed ch.event_handler);
      sent = ch.sent ++ challenges;
    })
