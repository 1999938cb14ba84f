-- ===== src/Broadcaster/Store.antt =====
-- node/broadcaster/db.go: pending transactions and processed messages in a store. What writes, writes to
-- a store or to a stage of one.
pub mod Saved
use opinit_bots.Base.{false, Option, none, some, List, [], ◌∷◌, ◌++◌, if◌then◌else◌}
use opinit_bots.Base.Result.{Result, ok, err, ◌>>=◌}
use opinit_bots.Db.{DbError}
use opinit_bots.Db.Keys.{append_splitter}
use opinit_bots.Db.Basic.{BasicDb}
use opinit_bots.Db.Level.{Level, LevelDb}
use opinit_bots.Db.Iterator.{Callback, iterate}
use opinit_bots.Broadcaster.Types.{
  PendingTxInfo, ProcessedMsgs, Codec, tx_key, msgs_key, marshal_interface_json,
  unmarshal_interface_json, pending_txs_prefix, processed_msgs_prefix,
}

pub data StoreError : Type 0 where
  marshal_failed unmarshal_failed : StoreError
  db_failed : DbError → StoreError

abbrev pub coded {ℓ} : {A : Type ℓ} → StoreError → Option A → Result StoreError A
coded e none = err e
coded e (some a) = ok a

abbrev pub stored {ℓ} : {A : Type ℓ} → Result DbError A → Result StoreError A
stored (ok a) = ok a
stored (err e) = err (db_failed e)

module _ {M S : Type 0} (codec : Codec M) (basic : BasicDb S) where
  unfoldable pub save_pending_tx : PendingTxInfo → S → Result StoreError S
  save_pending_tx pending_tx s = do
    data' ← coded marshal_failed (codec.pending.marshal pending_tx)
    stored (basic.set s (tx_key pending_tx) data')

  unfoldable pub delete_pending_tx : PendingTxInfo → S → Result StoreError S
  delete_pending_tx pending_tx s = stored (basic.delete s (tx_key pending_tx))

  unfoldable pub save_pending_txs : List PendingTxInfo → S → Result StoreError S
  unfolding save_pending_tx
  save_pending_txs [] s = ok s
  save_pending_txs (tx_info ∷ tx_infos) s = do
    s' ← if tx_info.save then save_pending_tx tx_info s else ok s
    save_pending_txs tx_infos s'

  unfoldable pub delete_pending_txs : List PendingTxInfo → S → Result StoreError S
  unfolding delete_pending_tx
  delete_pending_txs [] s = ok s
  delete_pending_txs (tx_info ∷ tx_infos) s = do
    s' ← delete_pending_tx tx_info s
    delete_pending_txs tx_infos s'

  unfoldable pub save_processed_msgs : ProcessedMsgs M → S → Result StoreError S
  unfolding marshal_interface_json
  save_processed_msgs processed_msgs s = do
    data' ← coded marshal_failed (marshal_interface_json codec processed_msgs)
    stored (basic.set s (msgs_key processed_msgs) data')

  unfoldable pub delete_processed_msgs : ProcessedMsgs M → S → Result StoreError S
  delete_processed_msgs processed_msgs s = stored (basic.delete s (msgs_key processed_msgs))

  -- SaveProcessedMsgsBatch writes out the saving of one.
  unfoldable pub save_processed_msgs_batch : List (ProcessedMsgs M) → S → Result StoreError S
  unfolding save_processed_msgs
  save_processed_msgs_batch [] s = ok s
  save_processed_msgs_batch (processed_msgs ∷ batch) s = do
    s' ← if processed_msgs.save then save_processed_msgs processed_msgs s else ok s
    save_processed_msgs_batch batch s'

  unfoldable pub delete_processed_msgs_batch : List (ProcessedMsgs M) → S → Result StoreError S
  unfolding delete_processed_msgs
  delete_processed_msgs_batch [] s = ok s
  delete_processed_msgs_batch (processed_msgs ∷ batch) s = do
    s' ← delete_processed_msgs processed_msgs s
    delete_processed_msgs_batch batch s'

module _ {M L : Type 0} (codec : Codec M) (level : Level L) where
  -- The callbacks of the two loads.
  abbrev load_tx : Callback StoreError (List PendingTxInfo)
  load_tx key value txs = do
    tx_info ← coded unmarshal_failed (codec.pending.unmarshal value)
    ok (false, txs ++ tx_info ∷ [])

  abbrev load_msgs : Callback StoreError (List (ProcessedMsgs M))
  load_msgs key value batch = do
    processed_msgs ← coded unmarshal_failed (unmarshal_interface_json codec value)
    ok (false, batch ++ processed_msgs ∷ [])

  unfoldable pub load_pending_txs : LevelDb L → Result StoreError (List PendingTxInfo)
  unfolding append_splitter iterate
  load_pending_txs db = iterate level db (append_splitter pending_txs_prefix) none load_tx []

  unfoldable pub load_processed_msgs_batch : LevelDb L → Result StoreError (List (ProcessedMsgs M))
  unfolding append_splitter iterate unmarshal_interface_json
  load_processed_msgs_batch db =
      iterate level db (append_splitter processed_msgs_prefix) none load_msgs []
