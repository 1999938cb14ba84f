-- ===== src/Tests/Block.antt =====
-- A submitter that gets its first block, with a file that is not compressed.
use opinit_bots.Base.{ℕ, ◌≡◌, refl, sym, ap, arith, true, [], ◌∷◌, ◌++◌, Option, none, some}
use opinit_bots.Base.Result.{ok, err}
use opinit_bots.Db.{Bytes, Json}
use opinit_bots.Base.Bytes.{bytes_equal}
use opinit_bots.Db.Basic.{of_level}
use opinit_bots.Db.Level.{put, level_get, level_set, prefixed_key}
use opinit_bots.Db.Stage.{new_stage}
use opinit_bots.Batch.Data.{LocalBatchInfo}
use opinit_bots.Batch.Info.{next_batch_info}
use opinit_bots.Batch.Store.{
  Encodings, no_batch_info, get_local_batch_info, save_local_batch_info, set_synced_height,
  local_batch_info_key, synced_height_key,
}
use opinit_bots.Broadcaster.Chunks.{processed}
use opinit_bots.Batch.Submitter.{DaNode, Zip}
use opinit_bots.Batch.Block.{
  BlockState, Environment, RawBlockArgs, raw_block_handler, prepare_batch, batch_info_updated,
  wait_until_sent,
}
use opinit_bots.Batch.Block.Restart.{ReadsBack, prepare_batch-restarts}
use opinit_bots.Batch.Block.Atomic.{BlockOutcome, raw_block_handler_lem}
use opinit_bots.Tests.Level.{Held, memory_level, memory_level-LevelLaws, handle, empty, written}
use opinit_bots.Tests.Broadcaster.{codec, clock}

abbrev plain : Zip (Unit {0})
plain = record {
  write = λ bytes zf. some (zf.0, zf.1 ++ bytes);
  flush = λ zf. some zf;
  close = λ zf. some zf;
  reset = λ z. z;
}

abbrev layer : DaNode ℕ
layer = record { create_batch_msg = λ bytes. some (some 4, 1 ∷ []); has_broadcaster = true }

-- A batch info as four numbers.
abbrev read_info : Bytes → Option LocalBatchInfo
read_info (a ∷ b ∷ c ∷ d ∷ []) =
    some (record { start = a; end = b; last_submission_time = c; batch_size = d })
read_info _ = none

abbrev of_some : Option Bytes → Option LocalBatchInfo
of_some none = none
of_some (some bytes) = read_info bytes

abbrev infos : Json LocalBatchInfo
infos = record {
  marshal = λ info. some (info.start ∷ info.end ∷ info.last_submission_time ∷ info.batch_size ∷ []);
  unmarshal = read_info;
}

infos-ReadsBack : ReadsBack infos
infos-ReadsBack info bytes e = ap of_some (sym e)

abbrev encodings : Encodings
encodings = record {
  info = infos;
  status = record { marshal = λ n. some (n ∷ []); unmarshal = λ bytes. none };
  format_int = λ n. n ∷ [];
}

abbrev env : Environment ℕ (Unit {0}) Held
env = record {
  readings = λ i. i;
  da = layer;
  da_db = handle;
  codec = codec;
  zip = plain;
  sha256 = λ bytes. [];
  cfg = record {
    max_chunks = 3;
    max_chunk_size = 32;
    max_submission_time = 60;
    submission_interval = 90;
  };
  encodings = encodings;
  level = memory_level;
  convert = λ bytes. some (bytes, 7);
}

abbrev args : RawBlockArgs
args = record {
  block_height = 1;
  latest_height = 5;
  block_bytes = 8 ∷ 9 ∷ [];
  polls = [];
  genesis = some (1 ∷ []);
  raw_commit = some (2 ∷ []);
}

abbrev state : BlockState ℕ (Unit {0}) Held
state = record {
  submitter = record {
    batch_infos = record { chain_type = 1; submitter = []; l2_block_number = 0 } ∷ [];
    batch_writer = tt;
    batch_file = [];
    local_batch_info = no_batch_info;
    processed_msgs = [];
    last_batch_end_block_number = 0;
    clock = clock;
  };
  db = handle;
  stage = new_stage handle;
  sent = [];
}

abbrev third : RawBlockArgs
third = record args { block_height = 3 }

-- A submitter with a message that a block before has left.
abbrev left_over : BlockState ℕ (Unit {0}) Held
left_over = record state {
  submitter = record state.submitter { processed_msgs = processed (1 ∷ []) (6 ∷ []) 11 ∷ [] };
}

raw_block_handler_lem_example :
    BlockOutcome ℕ (Unit {0}) Held env third left_over (raw_block_handler env third left_over)
unfolding next_batch_info
raw_block_handler_lem_example = raw_block_handler_lem ℕ (Unit {0}) Held env third left_over refl

-- The batch of block 10 on, when the next batch info is reached at block 6.
abbrev reached : BlockState ℕ (Unit {0}) Held
reached = record state {
  submitter = record state.submitter {
    batch_infos =
        record { chain_type = 1; submitter = []; l2_block_number = 0 }
        ∷ record { chain_type = 2; submitter = []; l2_block_number = 6 }
        ∷ [];
    batch_file = 3 ∷ [];
  };
  db = record handle {
    db = written empty (put (112 ∷ 47 ∷ local_batch_info_key) (10 ∷ 0 ∷ 5 ∷ 1 ∷ []) ∷ []);
  };
}

abbrev polled : RawBlockArgs
polled = record args { block_height = 12; polls = some (1, 0) ∷ some (0, 0) ∷ [] }

abbrev anew : LocalBatchInfo
anew = record { start = 7; end = 0; last_submission_time = 5; batch_size = 0 }

prepare_batch-restarts_example :
    (r' : BlockState ℕ (Unit {0}) Held) × (prepare_batch env polled reached
      ≡ (err (batch_info_updated 6), r'))
    × (r'.submitter.batch_file ≡ [])
    × (level_get memory_level r'.db synced_height_key ≡ ok (6 ∷ []))
    × (get_local_batch_info encodings (of_level memory_level) r'.db ≡ ok anew)
unfolding wait_until_sent next_batch_info get_local_batch_info of_level level_get prefixed_key
    bytes_equal save_local_batch_info level_set set_synced_height
prepare_batch-restarts_example =
    prepare_batch-restarts env memory_level-LevelLaws polled reached
      (record { start = 10; end = 0; last_submission_time = 5; batch_size = 1 })
      (record { chain_type = 2; submitter = []; l2_block_number = 6 }) (tt, 3 ∷ []) _ _
      infos-ReadsBack refl refl (omega arith) refl refl refl refl
