-- ===== src/Batch/Block/Restart.antt =====
-- The change to the next batch info: what the store has when the processing of blocks starts again.
use opinit_bots.Base.{
  ℕ, ◌+◌, ◌<◌, ◌≡◌, refl, ◌∙◌, true, ltb, Option, none, some, [], if◌then◌else◌, arith,
}
use opinit_bots.Base.Bytes.{bytes_equal}
use opinit_bots.Base.Result.{Result, ok, err, ◌>>=◌}
use opinit_bots.Base.Machine.{after, try}
use opinit_bots.Db.{Bytes, DbError, Json}
use opinit_bots.Db.Basic.{of_level}
use opinit_bots.Db.Level.{Level, LevelLaws, LevelDb, level_get, level_set}
use opinit_bots.Db.Level.Reads.{level_get-level_set}
use opinit_bots.Batch.Data.{LocalBatchInfo}
use opinit_bots.Batch.Info.{BatchInfo, next_batch_info}
use opinit_bots.Batch.Store.{
  Encodings, get_local_batch_info, save_local_batch_info, set_synced_height, local_batch_info_key,
  synced_height_key, stored, coded, marshal_failed, found_info,
}
use opinit_bots.Batch.Submitter.{zipped_to}
use opinit_bots.Batch.Block.{
  batch_info_updated, BlockState, Environment, RawBlockArgs, wait_until_sent, restarted, written,
  restart_after, save_restart, close_batch, switch_batch, choose, reset_finalized, lifted,
  set_submitter, storing, prepare_batch, load_local_batch_info,
}

-- What was marshalled is unmarshalled to the same.
abbrev pub ReadsBack : {A : Type 0} → Json A → Type 0
ReadsBack {A = A} json =
    (a : A) (bytes : Bytes) → json.marshal a ≡ some bytes → json.unmarshal bytes ≡ some a

stored-ok : {A : Type 0} (r : Result DbError A) (a : A) → stored r ≡ ok a → r ≡ ok a
stored-ok (ok x) a e = cc
stored-ok (err e) a same = absurd (ground arith)

module _ {L : Type 0} (level : Level L) (laws : LevelLaws level) (encodings : Encodings) where
  set_synced_height-read :
      (height : ℕ) (db db' : LevelDb L) (j : Bytes)
      → set_synced_height encodings (of_level level) height db ≡ ok db'
      → level_get level db' j ≡ (
          if bytes_equal synced_height_key j
          then ok (encodings.format_int height)
          else level_get level db j)
  unfolding set_synced_height of_level
  set_synced_height-read height db db' j run =
      level_get-level_set level laws db synced_height_key (encodings.format_int height) j db'
        (stored-ok (level_set level db synced_height_key (encodings.format_int height)) db' run)

  save_local_batch_info-read :
      (info : LocalBatchInfo) (db db' : LevelDb L)
      → ReadsBack encodings.info
      → save_local_batch_info encodings (of_level level) info db ≡ ok db'
      → (bytes : Bytes) × (encodings.info.unmarshal bytes ≡ some info)
        × (level_get level db' local_batch_info_key ≡ ok bytes)
  unfolding save_local_batch_info of_level bytes_equal
  save_local_batch_info-read info db db' json run = written (encodings.info.marshal info) refl run
    where
      written :
          (x : Option Bytes)
          → encodings.info.marshal info ≡ x
          → (coded marshal_failed x
              >>= (λ bytes. stored (level_set level db local_batch_info_key bytes)))
            ≡ ok db'
          → (bytes : Bytes) × (encodings.info.unmarshal bytes ≡ some info)
            × (level_get level db' local_batch_info_key ≡ ok bytes)
      written none marshalled same = absurd (ground arith)
      written (some bytes) marshalled same = (
        bytes,
        json info bytes marshalled,
        level_get-level_set level laws db local_batch_info_key bytes local_batch_info_key db'
            (stored-ok (level_set level db local_batch_info_key bytes) db' same),
      )

module _ {M Z L : Type 0} (env : Environment M Z L) (laws : LevelLaws env.level)
    (args : RawBlockArgs) where
  save_restart-lem :
      (height : ℕ) (s : BlockState M Z L) (d1 d2 : LevelDb L)
      → save_local_batch_info env.encodings (of_level env.level) s.submitter.local_batch_info s.db
        ≡ ok d1
      → set_synced_height env.encodings (of_level env.level) height d1 ≡ ok d2
      → save_restart env height s ≡ (err (batch_info_updated height), record s { db = d2 })
  unfolding save_restart
  save_restart-lem height s d1 d2 saved synced =
      (λ i. after (written (saved i) s) (λ _. restart_after env height)) ∙ (λ i.
        after (written (synced i) (record s { db = d1 }))
          (λ _ t. (err (batch_info_updated height), t)))

  -- When the next batch info has been reached, the messages of the batches have been sent by some poll, the
  -- gzip writer closes and both writes succeed, then the preparation ends in the panic that
  -- restarts the processing after the last block of the batch info; the file is empty, and the
  -- store has that block as the synced height, and an empty batch that starts with the next block.
  pub prepare_batch-restarts :
      (r : BlockState M Z L) (info : LocalBatchInfo) (next : BatchInfo) (closed : Z × Bytes)
      (d1 d2 : LevelDb L)
      → ReadsBack env.encodings.info
      → get_local_batch_info env.encodings (of_level env.level) r.db ≡ ok info
      → next_batch_info r.submitter.batch_infos ≡ some (some next)
      → next.l2_block_number < info.start
      → wait_until_sent args.polls ≡ ok tt
      → env.zip.close (r.submitter.batch_writer, r.submitter.batch_file) ≡ some closed
      → save_local_batch_info env.encodings
          (of_level env.level)
          (record info { start = next.l2_block_number + 1; end = 0; batch_size = 0 })
          r.db
        ≡ ok d1
      → set_synced_height env.encodings (of_level env.level) next.l2_block_number d1 ≡ ok d2
      → (r' : BlockState M Z L) × (prepare_batch env args r
          ≡ (err (batch_info_updated next.l2_block_number), r'))
        × (r'.submitter.batch_file ≡ [])
        × (level_get env.level r'.db synced_height_key
            ≡ ok (env.encodings.format_int next.l2_block_number))
        × (get_local_batch_info env.encodings (of_level env.level) r'.db
            ≡ ok (record info { start = next.l2_block_number + 1; end = 0; batch_size = 0 }))
  unfolding prepare_batch load_local_batch_info switch_batch close_batch get_local_batch_info
      of_level bytes_equal
  prepare_batch-restarts r info next closed d1 d2 json loaded nexts reached waited shut saved
        synced =
      let (bytes, decoded, kept) =
        save_local_batch_info-read env.level laws env.encodings
          (record info { start = next.l2_block_number + 1; end = 0; batch_size = 0 }) r.db d1 json
          saved in
      let less : ltb next.l2_block_number info.start ≡ true = ground arith in
      (
        record r {
          db = d2;
          submitter = record r.submitter {
            batch_writer = closed.0;
            batch_file = [];
            local_batch_info = record info {
              start = next.l2_block_number + 1;
              end = 0;
              batch_size = 0;
            };
          };
        },
        prepared less,
        refl,
        set_synced_height-read env.level laws env.encodings next.l2_block_number d1 d2
            synced_height_key synced,
        read_info (level_get env.level d2 local_batch_info_key) bytes
            (set_synced_height-read env.level laws env.encodings next.l2_block_number d1 d2
                local_batch_info_key synced
              ∙ kept)
            decoded,
      )
    where
      with_info : BlockState M Z L
      with_info = record r { submitter = record r.submitter { local_batch_info = info } }

      closing : BlockState M Z L
      closing = record r {
        submitter = record r.submitter {
          batch_writer = closed.0;
          batch_file = [];
          local_batch_info = record info {
            start = next.l2_block_number + 1;
            end = 0;
            batch_size = 0;
          };
        };
      }

      prepared :
          ltb next.l2_block_number info.start ≡ true
          → prepare_batch env args r
            ≡ (err (batch_info_updated next.l2_block_number), record closing { db = d2 })
      prepared less =
          (λ i.
            after
              (after (try storing (loaded i) r)
                (λ x. set_submitter (λ bs. record bs { local_batch_info = x })))
              (λ _ s. choose env args (next_batch_info s.submitter.batch_infos) s))
          ∙ (λ i. choose env args (nexts i) with_info)
          ∙ (λ i.
              if less i
              then switch_batch env args next with_info
              else reset_finalized env args.block_height with_info)
          ∙ (λ i.
              after (try (λ e. e) (waited i) with_info) (λ _. close_batch env next.l2_block_number))
          ∙ (λ i. after (lifted (zipped_to (shut i) with_info.submitter) with_info) (λ _ s.
              save_restart env next.l2_block_number
                (record s { submitter = restarted (next.l2_block_number + 1) s.submitter })))
          ∙ save_restart-lem next.l2_block_number closing d1 d2 saved synced

      read_info :
          (x : Result DbError Bytes) (bytes : Bytes)
          → x ≡ ok bytes
          → env.encodings.info.unmarshal bytes
            ≡ some (record info { start = next.l2_block_number + 1; end = 0; batch_size = 0 })
          → found_info env.encodings (of_level env.level) x
            ≡ ok (record info { start = next.l2_block_number + 1; end = 0; batch_size = 0 })
      read_info x bytes shown decoded = rw shown (rw decoded refl)
