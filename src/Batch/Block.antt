-- ===== src/Batch/Block.antt =====
-- executor/batchsubmitter/batch.go, prepareBatch, and handler.go, rawBlockHandler: what a batch submitter
-- does with a block.
pub mod Ends
pub mod Content
pub mod Atomic
pub mod Restart
use opinit_bots.Base.{
  ℕ, zero, suc, ◌+◌, Bool, true, false, ◌&&◌, ◌==◌, ltb, Option, none, some, List, [], ◌∷◌, ◌++◌,
  if◌then◌else◌, not, length,
}
use opinit_bots.Base.Result.{Result, ok, err}
use opinit_bots.Base.Machine.{Machine, ◌>>=◌, ◌>>◌, return, fail, self, assign, try, after}
use opinit_bots.Db.{Bytes, DbError}
use opinit_bots.Db.Basic.{of_level, of_stage}
use opinit_bots.Db.Level.{Level, LevelDb}
use opinit_bots.Db.Stage.{Stage, with_prefixed_key, reset, commit}
use opinit_bots.Broadcaster.Types.{ProcessedMsgs, Codec}
use opinit_bots.Broadcaster.Store.{StoreError, save_processed_msgs_batch}
use opinit_bots.Batch.Data.{LocalBatchInfo}
use opinit_bots.Batch.Info.{BatchInfo, next_batch_info}
use opinit_bots.Batch.Store.{
  InfoError, Encodings, get_local_batch_info, save_local_batch_info, set_synced_height,
  save_internal_status,
}
use opinit_bots.Batch.Submitter.{
  BatchSubmitter, Config, DaNode, SubmitError, Zip, zipped, check_batch, handle_batch,
  finalize_batch, submit_genesis,
}

pub data BlockError : Type 0 where
  submitting : SubmitError → BlockError
  -- an index out of range
  no_batch_infos : BlockError
  poll_failed cancelled convert_failed genesis_failed : BlockError
  storing : InfoError → BlockError
  saving_msgs : StoreError → BlockError
  committing : DbError → BlockError
  -- the panic that makes the processing of blocks start again after a height
  batch_info_updated : ℕ → BlockError

-- The submitter, its store, the stage of it, and the messages that have been given to the data
-- availability layer. The store of the stage's parent is that of the submitter: a stage that is
-- reset takes it as it is then.
pub record BlockState (M Z L : Type 0) : Type 0 where
  pub submitter : BatchSubmitter M Z
  pub db : LevelDb L
  pub stage : Stage L
  pub sent : List (ProcessedMsgs M)

-- What is called: the clock, the data availability layer with the handle of its store, the gzip writer,
-- and the removal of oracle data from the bytes of a block, which also gives the block's time.
pub record Environment (M Z L : Type 0) : Type 0 where
  pub readings : ℕ → ℕ
  pub da : DaNode M
  pub da_db : LevelDb L
  pub codec : Codec M
  pub zip : Zip Z
  pub sha256 : Bytes → Bytes
  pub cfg : Config
  pub encodings : Encodings
  pub level : Level L
  pub convert : Bytes → Option (Bytes × ℕ)

-- RawBlockArgs, with what the node answers about this block: the counts of messages and transactions of
-- batches that are left, at each poll until the context is done; the genesis; and the commit.
pub record RawBlockArgs : Type 0 where
  pub block_height : ℕ
  pub latest_height : ℕ
  pub block_bytes : Bytes
  pub polls : List (Option (ℕ × ℕ))
  pub genesis : Option Bytes
  pub raw_commit : Option Bytes

unfoldable pub wait_until_sent : List (Option (ℕ × ℕ)) → Result BlockError (Unit {0})
wait_until_sent [] = err cancelled
wait_until_sent (none ∷ polls) = err poll_failed
wait_until_sent (some (msgs, txs) ∷ polls) =
    let rest = wait_until_sent polls in if msgs == 0 && txs == 0 then ok tt else rest

abbrev pub restarted : {M Z : Type 0} → ℕ → BatchSubmitter M Z → BatchSubmitter M Z
restarted start bs = record bs {
  batch_file = [];
  local_batch_info = record bs.local_batch_info { start = start; end = 0; batch_size = 0 };
}

abbrev pub converted : Option (Bytes × ℕ) → Result BlockError (Bytes × ℕ)
converted none = err convert_failed
converted (some block) = ok block

abbrev pub sized : {M Z : Type 0} → BatchSubmitter M Z → BatchSubmitter M Z
sized bs = record bs {
  local_batch_info = record bs.local_batch_info { batch_size = length bs.batch_file };
}

abbrev pub ended : {M Z : Type 0} → ℕ → ℕ → BatchSubmitter M Z → BatchSubmitter M Z
ended block_height time bs = record bs {
  last_batch_end_block_number = block_height;
  local_batch_info = record bs.local_batch_info { last_submission_time = time; end = block_height };
}

module _ {M Z L : Type 0} where
  abbrev pub lifted :
      Result SubmitError (Unit {0}) × BatchSubmitter M Z
      → Machine BlockError (BlockState M Z L) (Unit {0})
  lifted (ok _, bs) r = (ok tt, record r { submitter = bs })
  lifted (err e, bs) r = (err (submitting e), record r { submitter = bs })

  -- A method of the submitter alone.
  abbrev pub submitter_does :
      Machine SubmitError (BatchSubmitter M Z) (Unit {0})
      → Machine BlockError (BlockState M Z L) (Unit {0})
  submitter_does m r = lifted (m r.submitter) r

  abbrev pub set_submitter :
      (BatchSubmitter M Z → BatchSubmitter M Z) → Machine BlockError (BlockState M Z L) (Unit {0})
  set_submitter f r = (ok tt, record r { submitter = f r.submitter })

  abbrev pub staged :
      {E : Type 0}
      → (E → BlockError)
      → Result E (Stage L)
      → Machine BlockError (BlockState M Z L) (Unit {0})
  staged wrap (ok s) r = (ok tt, record r { stage = s })
  staged wrap (err e) r = (err (wrap e), r)

  abbrev pub stage_does :
      {E : Type 0}
      → (E → BlockError)
      → (Stage L → Result E (Stage L))
      → Machine BlockError (BlockState M Z L) (Unit {0})
  stage_does wrap write r = staged wrap (write r.stage) r

  abbrev pub written :
      Result InfoError (LevelDb L) → Machine BlockError (BlockState M Z L) (Unit {0})
  written (ok d) r = (ok tt, record r { db = d })
  written (err e) r = (err (storing e), r)

  abbrev pub commit_result : Result DbError L → Machine BlockError (BlockState M Z L) (Unit {0})
  commit_result (err e) r = (err (committing e), r)
  commit_result (ok l) r =
      (ok tt, record r { db = record r.db { db = l }; sent = r.sent ++ r.submitter.processed_msgs })

  module _ (env : Environment M Z L) where
    unfoldable pub load_local_batch_info : Machine BlockError (BlockState M Z L) (Unit {0})
    load_local_batch_info = do
      r ← self
      info ← try storing (get_local_batch_info env.encodings (of_level env.level) r.db)
      set_submitter (λ bs. record bs { local_batch_info = info })

    -- The height that the processing starts again after, and the panic.
    abbrev pub restart_after : ℕ → Machine BlockError (BlockState M Z L) (Unit {0})
    restart_after height r =
        after (written (set_synced_height env.encodings (of_level env.level) height r.db) r)
          (λ _ s. (err (batch_info_updated height), s))

    unfoldable pub save_restart : ℕ → Machine BlockError (BlockState M Z L) (Unit {0})
    save_restart height r =
        after
          (written
            (save_local_batch_info env.encodings (of_level env.level) r.submitter.local_batch_info
              r.db)
            r)
          (λ _. restart_after height)

    unfoldable pub close_batch : ℕ → Machine BlockError (BlockState M Z L) (Unit {0})
    close_batch height r =
        after (submitter_does (zipped env.zip.close) r)
          (λ _ s. save_restart height (record s { submitter = restarted (height + 1) s.submitter }))

    -- Once a batch has reached the last block of its batch info.
    unfoldable pub switch_batch :
        RawBlockArgs → BatchInfo → Machine BlockError (BlockState M Z L) (Unit {0})
    switch_batch args next r =
        after (try (λ e. e) (wait_until_sent args.polls) r) (λ _. close_batch next.l2_block_number)

    -- The file and the info start anew after a batch that has been finalized.
    unfoldable pub reset_finalized : ℕ → Machine BlockError (BlockState M Z L) (Unit {0})
    reset_finalized block_height = set_submitter (λ bs.
        if bs.local_batch_info.end == 0
        then bs
        else record (restarted block_height bs) { batch_writer = env.zip.reset bs.batch_writer })

    abbrev pub choose :
        RawBlockArgs → Option (Option BatchInfo) → Machine BlockError (BlockState M Z L) (Unit {0})
    choose args none r = (err no_batch_infos, r)
    choose args (some none) r = reset_finalized args.block_height r
    choose args (some (some next)) r =
        let switched = switch_batch args next r in
        let kept = reset_finalized args.block_height r in
        if ltb next.l2_block_number r.submitter.local_batch_info.start then switched else kept

    unfoldable pub prepare_batch : RawBlockArgs → Machine BlockError (BlockState M Z L) (Unit {0})
    prepare_batch args = do
      load_local_batch_info
      r ← self
      choose args (next_batch_info r.submitter.batch_infos)

    abbrev pub submit_genesis_of : Option Bytes → Machine BlockError (BlockState M Z L) (Unit {0})
    submit_genesis_of none = fail genesis_failed
    submit_genesis_of (some bytes) =
        submitter_does (submit_genesis env.readings env.da env.cfg bytes)

    abbrev pub finalize_when :
        Bool → RawBlockArgs → ℕ → Machine BlockError (BlockState M Z L) (Unit {0})
    finalize_when false args time r = (ok tt, r)
    finalize_when true args time r =
        submitter_does
          (finalize_batch env.readings env.da env.zip env.sha256 env.cfg args.raw_commit)
          (record r { submitter = ended args.block_height time r.submitter })

    unfoldable pub finalize_if_due :
        RawBlockArgs → ℕ → Machine BlockError (BlockState M Z L) (Unit {0})
    finalize_if_due args time r =
        finalize_when
          (check_batch env.cfg args.block_height args.latest_height time
            r.submitter.local_batch_info)
          args time r

    -- The messages are staged under the keys of the other store; the stage keeps its own after that.
    abbrev pub staged_for : Stage L → Result StoreError (Stage L) → Result StoreError (Stage L)
    staged_for stage (ok s) = ok (with_prefixed_key stage.key_handle s)
    staged_for stage (err e) = err e

    abbrev pub stage_when : Bool → Machine BlockError (BlockState M Z L) (Unit {0})
    stage_when false r =
        (ok tt, record r { submitter = record r.submitter { processed_msgs = [] } })
    stage_when true r =
        staged saving_msgs
          (staged_for r.stage (
            save_processed_msgs_batch env.codec (of_stage env.level) r.submitter.processed_msgs
              (with_prefixed_key env.da_db r.stage)))
          r

    unfoldable pub stage_msgs : Machine BlockError (BlockState M Z L) (Unit {0})
    stage_msgs = stage_when env.da.has_broadcaster

    abbrev pub genesis_when : Bool → Option Bytes → Machine BlockError (BlockState M Z L) (Unit {0})
    genesis_when false genesis = return tt
    genesis_when true genesis = submit_genesis_of genesis

    -- The block goes to the file, and the file to the messages when the batch ends here.
    unfoldable pub write_block :
        RawBlockArgs → Bytes × ℕ → Machine BlockError (BlockState M Z L) (Unit {0})
    write_block args (bytes, time) = do
      submitter_does (handle_batch env.zip bytes)
      submitter_does (zipped env.zip.flush)
      set_submitter sized
      genesis_when (args.block_height == 1) args.genesis
      finalize_if_due args time

    unfoldable pub stage_block : RawBlockArgs → Machine BlockError (BlockState M Z L) (Unit {0})
    stage_block args = do
      stage_does storing (set_synced_height env.encodings (of_stage env.level) args.block_height)
      stage_msgs
      r ← self
      stage_does storing
          (save_local_batch_info env.encodings (of_stage env.level) r.submitter.local_batch_info)
      stage_does storing (
          save_internal_status env.encodings (of_stage env.level)
            r.submitter.last_batch_end_block_number)

    -- What follows the preparation.
    unfoldable pub fill_block : RawBlockArgs → Machine BlockError (BlockState M Z L) (Unit {0})
    fill_block args = do
      block ← try (λ e. e) (converted (env.convert args.block_bytes))
      write_block args block
      stage_block args

    -- Up to the commit.
    unfoldable pub handle_block : RawBlockArgs → Machine BlockError (BlockState M Z L) (Unit {0})
    handle_block args = do
      set_submitter (λ bs. record bs { processed_msgs = [] })
      r ← self
      assign (record r { stage = record (reset r.stage) { parent = r.db } })
      prepare_batch args
      fill_block args

    unfoldable pub raw_block_handler :
        RawBlockArgs → Machine BlockError (BlockState M Z L) (Unit {0})
    raw_block_handler args = do
      handle_block args
      r ← self
      commit_result (commit env.level r.stage)
