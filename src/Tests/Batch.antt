-- ===== src/Tests/Batch.antt =====
-- A batch with a file of seventy bytes, submitted to a layer whose messages are the data.
use opinit_bots.Base.{
  ℕ, ◌+◌, ◌≤◌, ◌≡◌, refl, true, List, [], ◌∷◌, ◌++◌, some, All, arith, map, replicate, length,
}
use opinit_bots.Base.Result.{ok}
use opinit_bots.Db.{Bytes}
use opinit_bots.Batch.Data.{
  joined, marshal_batch_data_header, unmarshal_batch_data_header, marshal_batch_data_chunk,
  unmarshal_batch_data_chunk, marshal_batch_data_genesis, unmarshal_batch_data_genesis,
}
use opinit_bots.Batch.Data.RoundTrip.{unmarshal-marshal}
use opinit_bots.Batch.Info.{
  BatchInfo, last_number, IsIncreasing, update_batch_info, update_batch_info-IsIncreasing,
}
use opinit_bots.Batch.Submitter.{BatchSubmitter, Config, DaNode, read_chunks, submit_file}
use opinit_bots.Batch.Submitter.Chunks.{IsSized, read_chunks-joined}
use opinit_bots.Batch.Submitter.Recovery.{messages, read_back, submit_file-read_back}

abbrev checksum : Bytes → Bytes
checksum bytes = replicate 32 9

unmarshal-marshal_example :
    (unmarshal_batch_data_header (marshal_batch_data_header 3 8 (checksum [] ∷ checksum [] ∷ []))
      ≡ ok (record { start = 3; end = 8; checksums = checksum [] ∷ checksum [] ∷ [] }))
    × (unmarshal_batch_data_chunk (marshal_batch_data_chunk 3 8 1 2 (5 ∷ 6 ∷ []))
        ≡ ok (record { start = 3; end = 8; index = 1; length = 2; chunk_data = 5 ∷ 6 ∷ [] }))
    × (unmarshal_batch_data_genesis (marshal_batch_data_genesis 1 2 (5 ∷ 6 ∷ []))
        ≡ ok (record { index = 1; length = 2; chunk_data = 5 ∷ 6 ∷ [] }))
unmarshal-marshal_example =
    unmarshal-marshal 3 8 (checksum [] ∷ checksum [] ∷ []) 1 2 (5 ∷ 6 ∷ []) (omega arith)
      (omega arith) (omega arith) (refl, (refl, tt)) (omega arith) (omega arith)

abbrev info : ℕ → BatchInfo
info n = record { chain_type = 1; submitter = []; l2_block_number = n }

update_batch_info-IsIncreasing_example :
    (js : List BatchInfo) × (update_batch_info (λ chain. 2) [] [] 9 (info 4 ∷ info 7 ∷ [])
      ≡ some (info 4 ∷ js))
    × IsIncreasing (info 4 ∷ js)
    × (9 ≤ last_number 4 js)
update_batch_info-IsIncreasing_example =
    update_batch_info-IsIncreasing (λ chain. 2) [] [] 9 (info 4) (info 7 ∷ []) (omega arith, tt)

abbrev file : Bytes
file = replicate 70 1

read_chunks-joined_example :
    (joined (read_chunks (length file + 1) 32 file 0) ≡ file)
    × All (IsSized 32) (read_chunks (length file + 1) 32 file 0)
read_chunks-joined_example = read_chunks-joined 32 file (omega arith)

abbrev cfg : Config
cfg = record {
  max_chunks = 3;
  max_chunk_size = 32;
  max_submission_time = 60;
  submission_interval = 90;
}

abbrev da : DaNode Bytes
da = record { create_batch_msg = λ bytes. some (some bytes, 1 ∷ []); has_broadcaster = true }

abbrev submitter : BatchSubmitter Bytes (Unit {0})
submitter = record {
  batch_infos = info 4 ∷ [];
  batch_writer = tt;
  batch_file = file;
  local_batch_info = record { start = 3; end = 8; last_submission_time = 5; batch_size = 70 };
  processed_msgs = [];
  last_batch_end_block_number = 8;
  clock = record { last_timestamp = 0; calls = 0 };
}

submit_file-read_back_example :
    (bs' : BatchSubmitter Bytes (Unit {0})) × (sent : List Bytes) × (chunks : List Bytes)
    × (submit_file (λ i. i) da checksum cfg submitter ≡ (ok tt, bs'))
    × (messages bs'.processed_msgs ≡ [] ++ map (λ bytes. bytes) sent)
    × (read_back sent ≡ ok (record { start = 3; end = 8; checksums = map checksum chunks }, chunks))
    × (joined chunks ≡ file)
submit_file-read_back_example =
    submit_file-read_back (λ i. i) da (λ bytes. bytes) (1 ∷ []) (λ bytes. refl) checksum cfg
      submitter (omega arith) (λ bytes. refl) (omega arith) (omega arith) (omega arith)
