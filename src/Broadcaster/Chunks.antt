-- ===== src/Broadcaster/Chunks.antt =====
-- node/broadcaster/broadcaster.go, MsgsToProcessedMsgs: the messages of a block in groups of five. The
-- map of queues is the list of its entries, in the order in which the range goes through it; the
-- keys of a map are distinct.
pub mod Complete
use opinit_bots.Base.{
  ℕ, zero, suc, ◌+◌, ◌-◌, true, ltb, List, [], ◌∷◌, ◌++◌, if◌then◌else◌, length, take, drop,
}
use opinit_bots.Db.{Bytes}
use opinit_bots.Clock.{Clock, current_nano_timestamp}
use opinit_bots.Broadcaster.Types.{ProcessedMsgs}

abbrev pub processed : {M : Type 0} → Bytes → List M → ℕ → ProcessedMsgs M
processed sender msgs timestamp = record {
  sender = sender;
  msgs = msgs;
  timestamp = timestamp;
  save = true;
}

module _ {M : Type 0} (readings : ℕ → ℕ) where
  -- The inner loop, with `i` its variable; `end` is the smaller of i + 5 and the length.
  unfoldable pub chunks_loop :
      (fuel : ℕ) → Bytes → List M → ℕ → Clock → List (ProcessedMsgs M) × Clock
  unfolding current_nano_timestamp
  chunks_loop zero sender msgs i c = ([], c)
  chunks_loop (suc fuel) sender msgs i c =
      let end = if ltb (length msgs) (i + 5) then length msgs else i + 5 in
      let (timestamp, c') = current_nano_timestamp readings c in
      let (rest, c'') = chunks_loop fuel sender msgs (i + 5) c' in
      if ltb i (length msgs)
      then (processed sender (take (end - i) (drop i msgs)) timestamp ∷ rest, c'')
      else ([], c)

  -- Each step of the loop passes one message at least.
  unfoldable pub msgs_to_processed_msgs :
      List (Bytes × List M) → Clock → List (ProcessedMsgs M) × Clock
  unfolding chunks_loop
  msgs_to_processed_msgs [] c = ([], c)
  msgs_to_processed_msgs ((sender, msgs) ∷ queues) c =
      let (chunks, c') = chunks_loop (length msgs) sender msgs 0 c in
      let (rest, c'') = msgs_to_processed_msgs queues c' in (chunks ++ rest, c'')
