-- ===== src/Batch/Submitter.antt =====
-- executor/batchsubmitter/batch.go: the file of a batch and what is submitted of it. The file is open from
-- the start, so it is not nil.
pub mod Chunks
pub mod Recovery
use opinit_bots.Base.{
  ℕ, zero, suc, ◌+◌, ◌-◌, ◌*◌, ◌/◌, ◌%◌, ◌^◌, Bool, true, false, ◌&&◌, ◌||◌, ◌==◌, ltb, Option,
  none, some, List, [], ◌∷◌, ◌++◌, if◌then◌else◌, length, take, drop, map,
}
use opinit_bots.Base.Result.{Result, ok, err}
use opinit_bots.Base.Machine.{Machine, ◌>>=◌, ◌>>◌, return, fail, self, assign, try}
use opinit_bots.Db.{Bytes}
use opinit_bots.Clock.{Clock, current_nano_timestamp}
use opinit_bots.Broadcaster.Types.{ProcessedMsgs}
use opinit_bots.Broadcaster.Chunks.{processed}
use opinit_bots.Batch.Data.{
  LocalBatchInfo, marshal_batch_data_header, marshal_batch_data_chunk, marshal_batch_data_genesis,
}
use opinit_bots.Batch.Info.{BatchInfo}

-- Times are nanoseconds since the zero Time, and the interval is in nanoseconds.
pub record Config : Type 0 where
  pub max_chunks : ℕ
  pub max_chunk_size : ℕ
  pub max_submission_time : ℕ
  pub submission_interval : ℕ

-- Calls on the file itself do not fail.
pub data SubmitError : Type 0 where
  block_bytes_empty query_failed write_failed create_failed : SubmitError

-- The gzip writer over the batch file: what is in it and the file change together.
pub record Zip (Z : Type 0) : Type 0 where
  pub write : Bytes → Z × Bytes → Option (Z × Bytes)
  pub flush : Z × Bytes → Option (Z × Bytes)
  pub close : Z × Bytes → Option (Z × Bytes)
  pub reset : Z → Z

-- The node of the data availability layer: the message that carries some data, if there is one, and its
-- sender.
pub record DaNode (M : Type 0) : Type 0 where
  pub create_batch_msg : Bytes → Option (Option M × Bytes)
  pub has_broadcaster : Bool

-- Without the node, the mutexes, the store and its stage.
pub record BatchSubmitter (M Z : Type 0) : Type 0 where
  pub batch_infos : List BatchInfo
  pub batch_writer : Z
  pub batch_file : Bytes
  pub local_batch_info : LocalBatchInfo
  pub processed_msgs : List (ProcessedMsgs M)
  pub last_batch_end_block_number : ℕ
  pub clock : Clock

-- binary.LittleEndian.PutUint64
unfoldable pub prepend_length : Bytes → Bytes
prepend_length bytes =
    let n = length bytes in
    n % 256
    ∷ n / 2 ^ 8 % 256
    ∷ n / 2 ^ 16 % 256
    ∷ n / 2 ^ 24 % 256
    ∷ n / 2 ^ 32 % 256
    ∷ n / 2 ^ 40 % 256
    ∷ n / 2 ^ 48 % 256
    ∷ n / 2 ^ 56 % 256
    ∷ bytes

-- The loop over ReadAt, which reads what there is, up to the size of the buffer.
unfoldable pub read_chunks : (fuel : ℕ) → (size : ℕ) → Bytes → (offset : ℕ) → List Bytes
read_chunks zero size file offset = []
read_chunks (suc fuel) size file offset =
    let chunk = take size (drop offset file) in
    let rest = read_chunks fuel size file (offset + length chunk) in
    if length chunk == 0 then [] else if ltb (length chunk) size then chunk ∷ [] else chunk ∷ rest

-- (MaxChunks-1) * MaxChunkSize is below the size, with both sides raised by one chunk.
unfoldable pub check_batch : Config → ℕ → ℕ → ℕ → LocalBatchInfo → Bool
check_batch cfg block_height latest_height block_time info =
    (block_height == latest_height
      && ltb (info.last_submission_time + cfg.submission_interval * 2 / 3) block_time)
    || (block_height == latest_height
        && ltb (info.last_submission_time + cfg.max_submission_time * 1000000000) block_time)
    || ltb (cfg.max_chunks * cfg.max_chunk_size) (info.batch_size + cfg.max_chunk_size)

module _ {M Z : Type 0} where
  abbrev pub zipped_to : Option (Z × Bytes) → Machine SubmitError (BatchSubmitter M Z) (Unit {0})
  zipped_to none bs = (err write_failed, bs)
  zipped_to (some (z, file)) bs = (ok tt, record bs { batch_writer = z; batch_file = file })

  abbrev pub zipped :
      (Z × Bytes → Option (Z × Bytes)) → Machine SubmitError (BatchSubmitter M Z) (Unit {0})
  zipped act bs = zipped_to (act (bs.batch_writer, bs.batch_file)) bs

  unfoldable pub handle_batch : Zip Z → Bytes → Machine SubmitError (BatchSubmitter M Z) (Unit {0})
  unfolding prepend_length
  handle_batch zip block_bytes =
      if length block_bytes == 0
      then fail block_bytes_empty
      else zipped (zip.write (prepend_length block_bytes))

module _ {M Z : Type 0} (readings : ℕ → ℕ) (da : DaNode M) where
  -- CreateBatchMsg, and the message with its sender appended when there is one.
  unfoldable pub submit_data : Bytes → Machine SubmitError (BatchSubmitter M Z) (Unit {0})
  unfolding current_nano_timestamp
  submit_data bytes bs = elim (da.create_batch_msg bytes) [
    | none ↦ (err create_failed, bs)
    | some answer ↦ elim answer.0 [
      | none ↦ (ok tt, bs)
      | some msg ↦
          let (timestamp, clock') = current_nano_timestamp readings bs.clock in
          (
            ok tt,
            record bs {
              processed_msgs = bs.processed_msgs ++ processed answer.1 (msg ∷ []) timestamp ∷ [];
              clock = clock';
            },
          )
    ]
  ]

  unfoldable pub submit_chunks :
      (start end index count : ℕ) → List Bytes → Machine SubmitError (BatchSubmitter M Z) (Unit {0})
  unfolding submit_data marshal_batch_data_chunk
  submit_chunks start end index count [] = return tt
  submit_chunks start end index count (chunk ∷ chunks) = do
    submit_data (marshal_batch_data_chunk start end index count chunk)
    submit_chunks start end (index + 1) count chunks

  -- The loop of submitGenesis, by the parts left to go; the break on an empty part cannot be reached
  -- before the last part.
  unfoldable pub submit_genesis_from :
      ℕ → (size index count : ℕ) → Bytes → Machine SubmitError (BatchSubmitter M Z) (Unit {0})
  unfolding submit_data marshal_batch_data_genesis
  submit_genesis_from zero size index count bytes = return tt
  submit_genesis_from (suc left) size index count bytes = do
    let end = if ltb (length bytes) (index * size + size) then length bytes else index * size + size
    let chunk = take (end - index * size) (drop (index * size) bytes)
    if length chunk == 0
        then return tt
        else (submit_data (marshal_batch_data_genesis index count chunk)
            >> submit_genesis_from left size (index + 1) count bytes)

  unfoldable pub submit_genesis :
      Config → Bytes → Machine SubmitError (BatchSubmitter M Z) (Unit {0})
  unfolding submit_genesis_from
  submit_genesis cfg genesis_bytes =
      let chunk_length = (length genesis_bytes + cfg.max_chunk_size - 1) / cfg.max_chunk_size in
      submit_genesis_from chunk_length cfg.max_chunk_size 0 chunk_length genesis_bytes

  module _ (sha256 : Bytes → Bytes) (cfg : Config) where
    -- What is submitted of a file that is closed.
    unfoldable pub submit_file : Machine SubmitError (BatchSubmitter M Z) (Unit {0})
    unfolding marshal_batch_data_header
    submit_file = do
      bs ← self
      let info = bs.local_batch_info
      let chunks = read_chunks (length bs.batch_file + 1) cfg.max_chunk_size bs.batch_file 0
      submit_data (marshal_batch_data_header info.start info.end (map sha256 chunks))
      submit_chunks info.start info.end 0 (length chunks) chunks

  module _ (zip : Zip Z) (sha256 : Bytes → Bytes) (cfg : Config) where
    -- `raw_commit` is what the node answers to QueryRawCommit.
    unfoldable pub finalize_batch :
        Option Bytes → Machine SubmitError (BatchSubmitter M Z) (Unit {0})
    unfolding prepend_length submit_file
    finalize_batch none = fail query_failed
    finalize_batch (some raw_commit) = do
      zipped (zip.write (prepend_length raw_commit))
      zipped zip.close
      bs ← self
      assign (record bs {
        local_batch_info = record bs.local_batch_info { batch_size = length bs.batch_file };
      })
      submit_file sha256 cfg
