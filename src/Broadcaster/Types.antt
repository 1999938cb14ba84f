-- ===== src/Broadcaster/Types.antt =====
-- node/broadcaster/types/db.go and keys.go: processed messages, pending transactions, and their keys.
use opinit_bots.Base.{ℕ, Bool, Option, none, some, List, [], ◌∷◌, map}
use opinit_bots.Db.{Bytes, Json}
use opinit_bots.Db.Keys.{from_uint64_key, generate_key}

-- Timestamps are not negative, as the clock gives them; MustInt64ToUint64 panics on others.
pub record PendingTxInfo : Type 0 where
  pub sender : Bytes
  pub processed_height : ℕ
  pub sequence : ℕ
  pub tx : Bytes
  pub tx_hash : Bytes
  pub timestamp : ℕ
  pub msg_types : List Bytes
  pub save : Bool

pub record ProcessedMsgs (M : Type 0) : Type 0 where
  pub sender : Bytes
  pub msgs : List M
  pub timestamp : ℕ
  pub save : Bool

pub record ProcessedMsgsJson : Type 0 where
  pub sender : Bytes
  pub msgs : List Bytes
  pub timestamp : ℕ
  pub save : Bool

-- "pending_txs" and "processed_msgs"
abbrev pub pending_txs_prefix : Bytes
pending_txs_prefix = 112 ∷ 101 ∷ 110 ∷ 100 ∷ 105 ∷ 110 ∷ 103 ∷ 95 ∷ 116 ∷ 120 ∷ 115 ∷ []

abbrev pub processed_msgs_prefix : Bytes
processed_msgs_prefix =
    112 ∷ 114 ∷ 111 ∷ 99 ∷ 101 ∷ 115 ∷ 115 ∷ 101 ∷ 100 ∷ 95 ∷ 109 ∷ 115 ∷ 103 ∷ 115 ∷ []

unfoldable pub prefixed_pending_tx : ℕ → Bytes
unfolding generate_key
prefixed_pending_tx timestamp = generate_key (pending_txs_prefix ∷ from_uint64_key timestamp ∷ [])

unfoldable pub prefixed_processed_msgs : ℕ → Bytes
unfolding generate_key
prefixed_processed_msgs timestamp =
    generate_key (processed_msgs_prefix ∷ from_uint64_key timestamp ∷ [])

-- Key of the two types.
abbrev pub tx_key : PendingTxInfo → Bytes
tx_key p = prefixed_pending_tx p.timestamp

abbrev pub msgs_key : {M : Type 0} → ProcessedMsgs M → Bytes
msgs_key p = prefixed_processed_msgs p.timestamp

-- The codec of the SDK, for messages; and encoding/json for the two records.
pub record Codec (M : Type 0) : Type 0 where
  pub message : Json M
  pub pending : Json PendingTxInfo
  pub processed : Json ProcessedMsgsJson
  -- sdk.MsgTypeURL
  pub msg_type_url : M → Bytes

module _ {M : Type 0} (codec : Codec M) where
  unfoldable pub get_msg_types : ProcessedMsgs M → List Bytes
  get_msg_types p = map codec.msg_type_url p.msgs

  unfoldable pub marshal_msgs : List M → Option (List Bytes)
  marshal_msgs [] = some []
  marshal_msgs (msg ∷ msgs) = elim (codec.message.marshal msg) [
    | none ↦ none
    | some bz ↦ elim (marshal_msgs msgs) [ none ↦ none | some bzs ↦ some (bz ∷ bzs) ]
  ]

  unfoldable pub unmarshal_msgs : List Bytes → Option (List M)
  unmarshal_msgs [] = some []
  unmarshal_msgs (bz ∷ bzs) = elim (codec.message.unmarshal bz) [
    | none ↦ none
    | some msg ↦ elim (unmarshal_msgs bzs) [ none ↦ none | some msgs ↦ some (msg ∷ msgs) ]
  ]

  unfoldable pub marshal_interface_json : ProcessedMsgs M → Option Bytes
  unfolding marshal_msgs
  marshal_interface_json p = elim (marshal_msgs p.msgs) [
    | none ↦ none
    | some msgs ↦
        codec.processed.marshal
          (record { sender = p.sender; msgs = msgs; timestamp = p.timestamp; save = p.save })
  ]

  unfoldable pub unmarshal_interface_json : Bytes → Option (ProcessedMsgs M)
  unfolding unmarshal_msgs
  unmarshal_interface_json data' = elim (codec.processed.unmarshal data') [
    | none ↦ none
    | some pms ↦ elim (unmarshal_msgs pms.msgs) [
      | none ↦ none
      | some msgs ↦
          some (record {
            sender = pms.sender;
            msgs = msgs;
            timestamp = pms.timestamp;
            save = pms.save;
          })
    ]
  ]
