-- ===== src/Batch/Data.antt =====
-- executor/types/batch.go: how a batch is laid out in the messages that submit it.
pub mod RoundTrip
use opinit_bots.Base.{
  ℕ, zero, suc, ◌+◌, ◌-◌, ◌/◌, ◌%◌, ◌^◌, not, ◌||◌, ◌==◌, ltb, List, [], ◌∷◌, ◌++◌, if◌then◌else◌,
  length, take, drop,
}
use opinit_bots.Base.Words.{u64}
use opinit_bots.Base.Result.{Result, ok, err}
use opinit_bots.Db.{Bytes}
use opinit_bots.Db.Keys.{from_uint64_key, to_uint64_key}

-- The value of time.Time is its nanoseconds since the zero Time.
pub record LocalBatchInfo : Type 0 where
  pub start : ℕ
  pub end : ℕ
  pub last_submission_time : ℕ
  pub batch_size : ℕ

-- BatchDataType, a uint8.
abbrev pub batch_data_type_header : ℕ
batch_data_type_header = 0

abbrev pub batch_data_type_chunk : ℕ
batch_data_type_chunk = 1

abbrev pub batch_data_type_genesis : ℕ
batch_data_type_genesis = 2

pub record BatchDataHeader : Type 0 where
  pub start : ℕ
  pub end : ℕ
  pub checksums : List Bytes

pub record BatchDataChunk : Type 0 where
  pub start : ℕ
  pub end : ℕ
  pub index : ℕ
  pub length : ℕ
  pub chunk_data : Bytes

pub record BatchDataGenesis : Type 0 where
  pub index : ℕ
  pub length : ℕ
  pub chunk_data : Bytes

pub data DataError : Type 0 where
  invalid_data_length invalid_start invalid_checksum_length : DataError

-- The loop that appends the checksums.
abbrev pub joined : List Bytes → Bytes
joined [] = []
joined (checksum ∷ checksums) = checksum ++ joined checksums

-- `binary.BigEndian.AppendUint64` is the encoding of a key.
unfoldable pub marshal_batch_data_header : ℕ → ℕ → List Bytes → Bytes
unfolding from_uint64_key
marshal_batch_data_header start end checksums =
    batch_data_type_header ∷ []
    ++ from_uint64_key start
    ++ from_uint64_key end
    ++ from_uint64_key (length checksums)
    ++ joined checksums

-- `for i := 25; i < len(data); i += 32`, by the rounds left and the bytes from `i` on.
unfoldable pub checksums_from : ℕ → Bytes → List Bytes
checksums_from zero rest = []
checksums_from (suc rounds) rest = take 32 rest ∷ checksums_from rounds (drop 32 rest)

-- The length is that of a slice, so SafeInt64ToUint64 of a part of it cannot fail.
unfoldable pub unmarshal_batch_data_header : Bytes → Result DataError BatchDataHeader
unfolding to_uint64_key checksums_from
unmarshal_batch_data_header bytes =
    if ltb (length bytes) 25
    then err invalid_data_length
    else let start = to_uint64_key (take 8 (drop 1 bytes)) in
      let end = to_uint64_key (take 8 (drop 9 bytes)) in
      if ltb end start
      then err invalid_start
      else let count = to_uint64_key (take 8 (drop 17 bytes)) in
        let expected = (length bytes - 25) / 32 in
        if not ((length bytes - 25) % 32 == 0) || not (expected == count)
        then err invalid_checksum_length
        else ok (record {
          start = start;
          end = end;
          checksums = checksums_from expected (drop 25 bytes);
        })

unfoldable pub marshal_batch_data_chunk : (start end index length : ℕ) → Bytes → Bytes
unfolding from_uint64_key
marshal_batch_data_chunk start end index length chunk_data =
    batch_data_type_chunk ∷ []
    ++ from_uint64_key start
    ++ from_uint64_key end
    ++ from_uint64_key index
    ++ from_uint64_key length
    ++ chunk_data

unfoldable pub unmarshal_batch_data_chunk : Bytes → Result DataError BatchDataChunk
unfolding to_uint64_key
unmarshal_batch_data_chunk bytes =
    if ltb (length bytes) 33
    then err invalid_data_length
    else let start = to_uint64_key (take 8 (drop 1 bytes)) in
      let end = to_uint64_key (take 8 (drop 9 bytes)) in
      if ltb end start
      then err invalid_start
      else ok (record {
        start = start;
        end = end;
        index = to_uint64_key (take 8 (drop 17 bytes));
        length = to_uint64_key (take 8 (drop 25 bytes));
        chunk_data = drop 33 bytes;
      })

unfoldable pub marshal_batch_data_genesis : (index length : ℕ) → Bytes → Bytes
unfolding from_uint64_key
marshal_batch_data_genesis index length chunk_data =
    batch_data_type_genesis ∷ [] ++ from_uint64_key index ++ from_uint64_key length ++ chunk_data

unfoldable pub unmarshal_batch_data_genesis : Bytes → Result DataError BatchDataGenesis
unfolding to_uint64_key
unmarshal_batch_data_genesis bytes =
    if ltb (length bytes) 17
    then err invalid_data_length
    else ok (record {
      index = to_uint64_key (take 8 (drop 1 bytes));
      length = to_uint64_key (take 8 (drop 9 bytes));
      chunk_data = drop 17 bytes;
    })
