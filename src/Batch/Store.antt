-- ===== src/Batch/Store.antt =====
-- executor/batchsubmitter/db.go and status.go, and node/db.go for the synced height: what a batch
-- submitter keeps in the store. `format_int` is the decimal format of a number.
use opinit_bots.Base.{ℕ, Option, none, some, [], ◌∷◌}
use opinit_bots.Base.Result.{Result, ok, err, ◌>>=◌}
use opinit_bots.Db.{Bytes, DbError, not_found, failure, Json}
use opinit_bots.Db.Basic.{BasicDb}
use opinit_bots.Batch.Data.{LocalBatchInfo}

-- "local_batch_info", "synced_height" and "internal_status"
abbrev pub local_batch_info_key : Bytes
local_batch_info_key =
    108 ∷ 111 ∷ 99 ∷ 97 ∷ 108 ∷ 95 ∷ 98 ∷ 97 ∷ 116 ∷ 99 ∷ 104 ∷ 95 ∷ 105 ∷ 110 ∷ 102 ∷ 111 ∷ []

abbrev pub synced_height_key : Bytes
synced_height_key = 115 ∷ 121 ∷ 110 ∷ 99 ∷ 101 ∷ 100 ∷ 95 ∷ 104 ∷ 101 ∷ 105 ∷ 103 ∷ 104 ∷ 116 ∷ []

abbrev pub internal_status_key : Bytes
internal_status_key =
    105 ∷ 110 ∷ 116 ∷ 101 ∷ 114 ∷ 110 ∷ 97 ∷ 108 ∷ 95 ∷ 115 ∷ 116 ∷ 97 ∷ 116 ∷ 117 ∷ 115 ∷ []

pub data InfoError : Type 0 where
  db_failed : DbError → InfoError
  marshal_failed unmarshal_failed : InfoError

-- The zero value of the struct.
abbrev pub no_batch_info : LocalBatchInfo
no_batch_info = record { start = 0; end = 0; last_submission_time = 0; batch_size = 0 }

-- The encodings that are used: JSON of the two records, the status being the last block number of the
-- last batch, and decimal numbers.
pub record Encodings : Type 0 where
  pub info : Json LocalBatchInfo
  pub status : Json ℕ
  pub format_int : ℕ → Bytes

abbrev pub coded {ℓ} : {A : Type ℓ} → InfoError → Option A → Result InfoError A
coded e none = err e
coded e (some a) = ok a

abbrev pub stored {ℓ} : {A : Type ℓ} → Result DbError A → Result InfoError A
stored (ok a) = ok a
stored (err e) = err (db_failed e)

module _ {S : Type 0} (encodings : Encodings) (basic : BasicDb S) where
  abbrev pub found_info : Result DbError Bytes → Result InfoError LocalBatchInfo
  found_info (ok bytes) = coded unmarshal_failed (encodings.info.unmarshal bytes)
  found_info (err not_found) = ok no_batch_info
  found_info (err (failure n)) = err (db_failed (failure n))

  unfoldable pub get_local_batch_info : S → Result InfoError LocalBatchInfo
  get_local_batch_info s = found_info (basic.get s local_batch_info_key)

  unfoldable pub save_local_batch_info : LocalBatchInfo → S → Result InfoError S
  save_local_batch_info info s = do
    bytes ← coded marshal_failed (encodings.info.marshal info)
    stored (basic.set s local_batch_info_key bytes)

  unfoldable pub set_synced_height : ℕ → S → Result InfoError S
  set_synced_height height s = stored (basic.set s synced_height_key (encodings.format_int height))

  unfoldable pub save_internal_status : ℕ → S → Result InfoError S
  save_internal_status last_batch_end_block_number s = do
    bytes ← coded marshal_failed (encodings.status.marshal last_batch_end_block_number)
    stored (basic.set s internal_status_key bytes)

  -- The number that the submitter has afterwards, from the one that it has.
  abbrev pub found_status : ℕ → Result DbError Bytes → Result InfoError ℕ
  found_status n (ok bytes) = coded unmarshal_failed (encodings.status.unmarshal bytes)
  found_status n (err not_found) = ok n
  found_status n (err (failure m)) = err (db_failed (failure m))

  unfoldable pub load_internal_status : ℕ → S → Result InfoError ℕ
  load_internal_status n s = found_status n (basic.get s internal_status_key)
