-- ===== src/Executor/Withdrawals.antt =====
-- executor/types/key.go, executor/types/db.go and executor/child/db.go: withdrawals in a store.
use opinit_bots.Base.{ℕ, Option, none, some, [], ◌∷◌}
use opinit_bots.Base.Result.{Result, ok, err, ◌>>=◌}
use opinit_bots.Db.{Bytes, Database, DbError, Json}
use opinit_bots.Db.Keys.{from_uint64_key, generate_key}

pub record WithdrawalData : Type 0 where
  pub sequence : ℕ
  pub from : Bytes
  pub to : Bytes
  pub amount : ℕ
  pub base_denom : Bytes
  pub withdrawal_hash : Bytes
  pub tx_height : ℕ
  pub tx_time : ℕ
  pub tx_hash : Bytes

-- "withdrawal_sequence"
abbrev pub withdrawal_sequence_prefix : Bytes
withdrawal_sequence_prefix =
    119 ∷ 105 ∷ 116 ∷ 104 ∷ 100 ∷ 114 ∷ 97 ∷ 119 ∷ 97 ∷ 108 ∷ 95 ∷ 115 ∷ 101 ∷ 113 ∷ 117 ∷ 101 ∷ 110
    ∷ 99 ∷ 101 ∷ []

-- "withdrawal_address"
abbrev pub withdrawal_address_prefix : Bytes
withdrawal_address_prefix =
    119 ∷ 105 ∷ 116 ∷ 104 ∷ 100 ∷ 114 ∷ 97 ∷ 119 ∷ 97 ∷ 108 ∷ 95 ∷ 97 ∷ 100 ∷ 100 ∷ 114 ∷ 101 ∷ 115
    ∷ 115 ∷ []

unfoldable pub prefixed_withdrawal_sequence : ℕ → Bytes
prefixed_withdrawal_sequence sequence =
    generate_key (withdrawal_sequence_prefix ∷ from_uint64_key sequence ∷ [])

unfoldable pub prefixed_withdrawal_address_sequence : Bytes → ℕ → Bytes
prefixed_withdrawal_address_sequence address sequence =
    generate_key (withdrawal_address_prefix ∷ address ∷ from_uint64_key sequence ∷ [])

pub data WithdrawalError : Type 0 where
  marshal_failed unmarshal_failed invalid_number : WithdrawalError
  db : DbError → WithdrawalError

-- A codec's result, and a store's, as a result of the calls below.
abbrev pub coded {ℓ} : {A : Type ℓ} → WithdrawalError → Option A → Result WithdrawalError A
coded e none = err e
coded e (some a) = ok a

abbrev pub stored {ℓ} : {A : Type ℓ} → Result DbError A → Result WithdrawalError A
stored (ok a) = ok a
stored (err e) = err (db e)

-- `decimal` is dbtypes.FromUint64 and dbtypes.ToUint64.
module _ {S : Type 0} (database : Database S) (json : Json WithdrawalData) (decimal : Json ℕ) where
  unfoldable pub save_withdrawal : WithdrawalData → S → Result WithdrawalError S
  save_withdrawal withdrawal s = do
    bytes ← coded marshal_failed (json.marshal withdrawal)
    s' ← stored (database.set s (prefixed_withdrawal_sequence withdrawal.sequence) bytes)
    number ← coded marshal_failed (decimal.marshal withdrawal.sequence)
    stored (
        database.set s' (prefixed_withdrawal_address_sequence withdrawal.to withdrawal.sequence)
          number)

  unfoldable pub get_withdrawal : S → ℕ → Result WithdrawalError WithdrawalData
  get_withdrawal s sequence = do
    bytes ← stored (database.get s (prefixed_withdrawal_sequence sequence))
    coded unmarshal_failed (json.unmarshal bytes)

  unfoldable pub get_withdrawal_by_address : S → Bytes → ℕ → Result WithdrawalError ℕ
  get_withdrawal_by_address s address sequence = do
    bytes ← stored (database.get s (prefixed_withdrawal_address_sequence address sequence))
    coded invalid_number (decimal.unmarshal bytes)
