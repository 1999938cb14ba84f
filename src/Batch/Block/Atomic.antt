-- ===== src/Batch/Block/Atomic.antt =====
-- What a block that fails leaves behind, and what one that succeeds does to the store.
use opinit_bots.Base.{
  ℕ, ◌≡◌, refl, ap, sym, List, ◌∙◌, Bool, true, false, ◌==◌, Option, none, some, [], ◌++◌, ◌⊎◌, inl,
  inr,
}
use opinit_bots.Base.Result.{Result, ok, err}
use opinit_bots.Base.Machine.{Machine, ◌>>=◌, after, return, self, try}
use opinit_bots.Db.{Bytes, DbError}
use opinit_bots.Db.Stage.{Stage, commit, reset}
use opinit_bots.Db.Basic.{of_level, of_stage}
use opinit_bots.Batch.Data.{LocalBatchInfo}
use opinit_bots.Batch.Store.{
  InfoError, get_local_batch_info, save_local_batch_info, save_internal_status, set_synced_height,
}
use opinit_bots.Batch.Info.{next_batch_info}
use opinit_bots.Batch.Submitter.{
  BatchSubmitter, SubmitError, submit_genesis, handle_batch, zipped, finalize_batch, check_batch,
}
use opinit_bots.Batch.Block.Content.{block_writes, IsUnsent, handle_block-Holds}
use opinit_bots.Broadcaster.Store.Saved.{Saves}
use opinit_bots.Db.Level.{Change}
use opinit_bots.Batch.Block.{
  BlockError, storing, saving_msgs, committing, ended, sized, converted, stage_when, genesis_when,
  finalize_when, BlockState, Environment, RawBlockArgs, lifted, submitter_does, set_submitter,
  staged, stage_does, load_local_batch_info, reset_finalized, choose, prepare_batch,
  submit_genesis_of, finalize_if_due, stage_msgs, write_block, stage_block, fill_block,
  handle_block, commit_result, raw_block_handler,
}

module _ (M Z L : Type 0) where
  -- The store and what has been sent are the same.
  abbrev pub IsSame : BlockState M Z L → BlockState M Z L → Type 0
  IsSame r r' = (r'.db ≡ r.db) × (r'.sent ≡ r.sent)

  -- An action that leaves both.
  unfoldable Keeps : {A : Type 0} → Machine BlockError (BlockState M Z L) A → Type 0
  Keeps m = (r : BlockState M Z L) → IsSame r (m r).1

  IsSame-trans : (r s t : BlockState M Z L) → IsSame r s → IsSame s t → IsSame r t
  IsSame-trans r s t (d, m) (d', m') = (d' ∙ d, m' ∙ m)

  after-Keeps :
      {A B : Type 0} (r : BlockState M Z L) (run : Result BlockError A × BlockState M Z L)
      (next : A → Machine BlockError (BlockState M Z L) B)
      → IsSame r run.1
      → ((a : A) → Keeps (next a))
      → IsSame r (after run next).1
  unfolding Keeps
  after-Keeps r (ok a, s) next same keeps = IsSame-trans r s (next a s).1 same (keeps a s)
  after-Keeps r (err e, s) next same keeps = same

  bind-Keeps :
      {A B : Type 0} (m : Machine BlockError (BlockState M Z L) A)
      (next : A → Machine BlockError (BlockState M Z L) B)
      → Keeps m
      → ((a : A) → Keeps (next a))
      → Keeps (m >>= next)
  unfolding Keeps
  bind-Keeps m next first rest r = after-Keeps r (m r) next (first r) rest

  lifted-Keeps : (x : Result SubmitError (Unit {0}) × BatchSubmitter M Z) → Keeps (lifted x)
  unfolding Keeps
  lifted-Keeps (ok a, bs) r = (refl, refl)
  lifted-Keeps (err e, bs) r = (refl, refl)

  submitter_does-Keeps :
      (m : Machine SubmitError (BatchSubmitter M Z) (Unit {0})) → Keeps (submitter_does m)
  unfolding Keeps
  submitter_does-Keeps m r = lifted-Keeps (m r.submitter) r

  try-Keeps : {A E : Type 0} (wrap : E → BlockError) (x : Result E A) → Keeps (try wrap x)
  unfolding Keeps
  try-Keeps wrap (ok a) r = (refl, refl)
  try-Keeps wrap (err e) r = (refl, refl)

  staged-Keeps :
      {E : Type 0} (wrap : E → BlockError) (x : Result E (Stage L)) → Keeps (staged wrap x)
  unfolding Keeps
  staged-Keeps wrap (ok s) r = (refl, refl)
  staged-Keeps wrap (err e) r = (refl, refl)

  stage_does-Keeps :
      {E : Type 0} (wrap : E → BlockError) (write : Stage L → Result E (Stage L))
      → Keeps (stage_does wrap write)
  unfolding Keeps
  stage_does-Keeps wrap write r = staged-Keeps wrap (write r.stage) r

  self-Keeps : Keeps self
  unfolding Keeps
  self-Keeps r = (refl, refl)

  return-Keeps : {A : Type 0} (a : A) → Keeps (return a)
  unfolding Keeps
  return-Keeps a r = (refl, refl)

  set_submitter-Keeps : (f : BatchSubmitter M Z → BatchSubmitter M Z) → Keeps (set_submitter f)
  unfolding Keeps
  set_submitter-Keeps f r = (refl, refl)

  module _ (env : Environment M Z L) (args : RawBlockArgs) where
    load-infos :
        (r : BlockState M Z L)
        → IsSame r (load_local_batch_info env r).1
          × ((load_local_batch_info env r).1.submitter.batch_infos ≡ r.submitter.batch_infos)
    unfolding load_local_batch_info
    load-infos r = loaded (get_local_batch_info env.encodings (of_level env.level) r.db)
      where
        loaded :
            (x : Result InfoError LocalBatchInfo)
            → IsSame r
                (after
                  (try storing x r)
                  (λ info. set_submitter (λ bs. record bs { local_batch_info = info }))).1
              × ((after (try storing x r) (λ info.
                    set_submitter
                      (λ bs. record bs { local_batch_info = info }))).1.submitter.batch_infos
                  ≡ r.submitter.batch_infos)
        loaded (ok info) = ((refl, refl), refl)
        loaded (err e) = ((refl, refl), refl)

    -- Without a next batch info, the preparation does not write.
    prepare_batch-IsSame :
        (r : BlockState M Z L)
        → next_batch_info r.submitter.batch_infos ≡ some none
        → IsSame r (prepare_batch env args r).1
    unfolding prepare_batch reset_finalized
    prepare_batch-IsSame r only = loaded (load_local_batch_info env r) (load-infos r)
      where
        loaded :
            (x : Result BlockError (Unit {0}) × BlockState M Z L)
            → IsSame r x.1 × (x.1.submitter.batch_infos ≡ r.submitter.batch_infos)
            → IsSame r
                (after x (λ _ s. choose env args (next_batch_info s.submitter.batch_infos) s)).1
        loaded (err e, s) (same, infos) = same
        loaded (ok _, s) (same, infos) =
            let chosen : next_batch_info s.submitter.batch_infos ≡ some none =
              ap next_batch_info infos ∙ only in
            rw chosen same

    submit_genesis_of-Keeps : (genesis : Option Bytes) → Keeps (submit_genesis_of env genesis)
    unfolding Keeps
    submit_genesis_of-Keeps none r = (refl, refl)
    submit_genesis_of-Keeps (some bytes) r =
        submitter_does-Keeps (submit_genesis env.readings env.da env.cfg bytes) r

    genesis_when-Keeps :
        (first : Bool) (genesis : Option Bytes) → Keeps (genesis_when env first genesis)
    genesis_when-Keeps false genesis = return-Keeps tt
    genesis_when-Keeps true genesis = submit_genesis_of-Keeps genesis

    finalize_when-Keeps : (due : Bool) (time : ℕ) → Keeps (finalize_when env due args time)
    unfolding Keeps
    finalize_when-Keeps false time r = (refl, refl)
    finalize_when-Keeps true time r =
        submitter_does-Keeps
          (finalize_batch env.readings env.da env.zip env.sha256 env.cfg args.raw_commit)
          (record r { submitter = ended args.block_height time r.submitter })

    finalize_if_due-Keeps : (time : ℕ) → Keeps (finalize_if_due env args time)
    unfolding finalize_if_due Keeps
    finalize_if_due-Keeps time r =
        finalize_when-Keeps
          (check_batch env.cfg args.block_height args.latest_height time
            r.submitter.local_batch_info)
          time r

    write_block-Keeps : (block : Bytes × ℕ) → Keeps (write_block env args block)
    unfolding write_block
    write_block-Keeps (bytes, time) =
        bind-Keeps _ _ (submitter_does-Keeps (handle_batch env.zip bytes)) (λ _.
          bind-Keeps _ _ (submitter_does-Keeps (zipped env.zip.flush)) (λ _.
            bind-Keeps _ _ (set_submitter-Keeps sized) (λ _.
              bind-Keeps _ _ (genesis_when-Keeps (args.block_height == 1) args.genesis)
                (λ _. finalize_if_due-Keeps time))))

    stage_when-Keeps : (has : Bool) → Keeps (stage_when env has)
    unfolding Keeps
    stage_when-Keeps false r = (refl, refl)
    stage_when-Keeps true r = staged-Keeps saving_msgs _ r

    stage_msgs-Keeps : Keeps (stage_msgs env)
    unfolding stage_msgs
    stage_msgs-Keeps = stage_when-Keeps env.da.has_broadcaster

    stage_block-Keeps : Keeps (stage_block env args)
    unfolding stage_block
    stage_block-Keeps =
        bind-Keeps _ _
          (stage_does-Keeps storing
            (set_synced_height env.encodings (of_stage env.level) args.block_height))
          (λ _. bind-Keeps _ _ stage_msgs-Keeps (λ _. bind-Keeps _ _ self-Keeps (λ r.
            bind-Keeps _ _
              (stage_does-Keeps storing (
                save_local_batch_info env.encodings (of_stage env.level)
                  r.submitter.local_batch_info))
              (λ _. stage_does-Keeps storing (
                save_internal_status env.encodings (of_stage env.level)
                  r.submitter.last_batch_end_block_number)))))

    fill_block-Keeps : Keeps (fill_block env args)
    unfolding fill_block
    fill_block-Keeps =
        bind-Keeps _ _ (try-Keeps (λ e. e) (converted (env.convert args.block_bytes)))
          (λ block. bind-Keeps _ _ (write_block-Keeps block) (λ _. stage_block-Keeps))

    handle_block-IsSame :
        (r : BlockState M Z L)
        → next_batch_info r.submitter.batch_infos ≡ some none
        → IsSame r (handle_block env args r).1
    unfolding handle_block Keeps
    handle_block-IsSame r only =
        let r1 : BlockState M Z L = record r {
          submitter = record r.submitter { processed_msgs = [] };
          stage = record (reset r.stage) { parent = r.db };
        } in
        after-Keeps r (prepare_batch env args r1) (λ _. fill_block env args)
          (prepare_batch-IsSame r1 only) (λ _. fill_block-Keeps)

    -- What handling a block comes to: a failure, or a commit.
    abbrev pub BlockOutcome :
        BlockState M Z L → Result BlockError (Unit {0}) × BlockState M Z L → Type 0
    BlockOutcome r x =
        ((e : BlockError) × (r' : BlockState M Z L) × (x ≡ (err e, r'))
          × (r'.db ≡ r.db)
          × (r'.sent ≡ r.sent))
        ⊎ ((r' : BlockState M Z L) × (l' : L) × (saves : List Change) × (info status : Bytes) × (x
              ≡ (ok tt, r'))
            × (env.level.write r.db.db (block_writes M Z L env args r.stage saves info status)
                ≡ ok l')
            × Saves env.codec env.da_db r'.submitter.processed_msgs saves
            × (env.encodings.info.marshal r'.submitter.local_batch_info ≡ some info)
            × (env.encodings.status.marshal r'.submitter.last_batch_end_block_number ≡ some status)
            × (r'.db ≡ record r.db { db = l' })
            × (r'.sent ≡ r.sent ++ r'.submitter.processed_msgs)
            × IsUnsent M Z L env args r')

    -- When there is no later batch info, then a block whose handling fails leaves the store as it was, and no
    -- message has been sent. A block whose handling succeeds has changed the store by one write, of the
    -- height, the messages of the block that are to be saved, under the prefix of the data availability
    -- layer, the info of the batch and the number of the last block of a batch; these messages have been
    -- sent; and there are none, whatever a block before has left, unless the batch has ended at this
    -- block, whose height is then the end of the info and the last number, or this is block 1.
    pub raw_block_handler_lem :
        (r : BlockState M Z L)
        → next_batch_info r.submitter.batch_infos ≡ some none
        → BlockOutcome r (raw_block_handler env args r)
    unfolding raw_block_handler commit reset
    raw_block_handler_lem r only =
        handled (handle_block env args r) refl (handle_block-IsSame r only)
      where
        -- After the commit.
        committed :
            (s : BlockState M Z L) (x : Result DbError L)
            → commit env.level s.stage ≡ x
            → IsSame r s
            → handle_block env args r ≡ (ok tt, s)
            → BlockOutcome r (commit_result x s)
        committed s (err e) run (same_db, same_sent) did =
            inl (committing e, s, refl, same_db, same_sent)
        committed s (ok l') run (same_db, same_sent) did =
            let ((saves, info, status, holds), unsent) =
              handle_block-Holds M Z L env args r s only did in
            let (groups, coded, coded', batch, parent) = holds in
            inr (
              record s {
                db = record s.db { db = l' };
                sent = s.sent ++ s.submitter.processed_msgs;
              },
              l',
              saves,
              info,
              status,
              refl,
              (λ i. env.level.write (sym parent i).db (sym batch i)) ∙ run,
              groups,
              coded,
              coded',
              (λ i. record (same_db i) { db = l' }),
              ap (λ m. m ++ s.submitter.processed_msgs) same_sent,
              unsent,
            )

        handled :
            (x : Result BlockError (Unit {0}) × BlockState M Z L)
            → handle_block env args r ≡ x
            → IsSame r x.1
            → BlockOutcome r (after x (λ _ s. commit_result (commit env.level s.stage) s))
        handled (err e, s) did (same_db, same_sent) = inl (e, s, refl, same_db, same_sent)
        handled (ok _, s) did same = committed s (commit env.level s.stage) refl same did
