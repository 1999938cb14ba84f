-- ===== src/Batch/Submitter/Recovery.antt =====
-- What a reader of the submitted messages gets back.
use mathlib.Core.List.{append-nil}
use opinit_bots.Base.{
  ℕ, suc, ◌+◌, ◌≤◌, ◌<◌, ◌^◌, ◌≡◌, refl, sym, ap, ◌∙◌, ◌&&◌, ◌==◌, some, List, [], ◌∷◌, ◌++◌,
  if◌then◌else◌, length, length-append, All, arith, map, append_assoc,
}
use opinit_bots.Base.Result.{Result, ok, err, ◌>>=◌}
use opinit_bots.Base.Machine.{Machine, after}
use opinit_bots.Db.{Bytes}
use opinit_bots.Clock.{current_nano_timestamp}
use opinit_bots.Broadcaster.Chunks.{processed}
use opinit_bots.Broadcaster.Types.{ProcessedMsgs}
use opinit_bots.Batch.Data.{
  BatchDataHeader, DataError, invalid_data_length, joined, marshal_batch_data_header,
  unmarshal_batch_data_header, marshal_batch_data_chunk, unmarshal_batch_data_chunk,
}
use opinit_bots.Batch.Data.RoundTrip.{
  IsChecksum, unmarshal_batch_data_header-marshal_batch_data_header,
  unmarshal_batch_data_chunk-marshal_batch_data_chunk,
}
use opinit_bots.Batch.Submitter.{
  BatchSubmitter, Config, DaNode, SubmitError, read_chunks, submit_data, submit_chunks, submit_file,
}
use opinit_bots.Batch.Submitter.Chunks.{IsSized, read_chunks-joined}

-- A reader of submitted data: the chunks from `index` on of `count`, and the header before them.
unfoldable pub read_back_chunks : (index count : ℕ) → List Bytes → Result DataError (List Bytes)
read_back_chunks index count [] = if index == count then ok [] else err invalid_data_length
read_back_chunks index count (bytes ∷ rest) = do
  chunk ← unmarshal_batch_data_chunk bytes
  let chunks = read_back_chunks (index + 1) count rest
  if chunk.index == index && chunk.length == count
      then chunks >>= (λ others. ok (chunk.chunk_data ∷ others))
      else err invalid_data_length

unfoldable pub read_back : List Bytes → Result DataError (BatchDataHeader × List Bytes)
unfolding read_back_chunks
read_back [] = err invalid_data_length
read_back (bytes ∷ rest) = do
  header ← unmarshal_batch_data_header bytes
  chunks ← read_back_chunks 0 (length header.checksums) rest
  ok (header, chunks)

-- The messages of all batches.
abbrev pub messages : {M : Type 0} → List (ProcessedMsgs M) → List M
messages [] = []
messages (p ∷ ps) = p.msgs ++ messages ps

messages-append :
    {M : Type 0} (ps qs : List (ProcessedMsgs M)) → messages (ps ++ qs) ≡ messages ps ++ messages qs
messages-append [] qs = refl
messages-append (p ∷ ps) qs =
    ap (λ t. p.msgs ++ t) (messages-append ps qs)
    ∙ sym (append_assoc p.msgs (messages ps) (messages qs))

abbrev chunk_datas : (start end index count : ℕ) → List Bytes → List Bytes
chunk_datas start end index count [] = []
chunk_datas start end index count (chunk ∷ chunks) =
    marshal_batch_data_chunk start end index count chunk
    ∷ chunk_datas start end (index + 1) count chunks

read_back_chunks-chunk_datas :
    (start end index count : ℕ) (chunks : List Bytes)
    → start ≤ end
    → end < 2 ^ 64
    → count < 2 ^ 64
    → index + length chunks ≡ count
    → read_back_chunks index count (chunk_datas start end index count chunks) ≡ ok chunks
unfolding read_back_chunks
read_back_chunks-chunk_datas start end index count [] p q r size = ground arith
read_back_chunks-chunk_datas start end index count (chunk ∷ chunks) p q r size =
    let here =
      unmarshal_batch_data_chunk-marshal_batch_data_chunk start end index count chunk p q
        (omega arith) r in
    let rest =
      read_back_chunks-chunk_datas start end (index + 1) count chunks p q r (omega arith) in
    rw (here, rest) (ground arith)

length-map : {A B : Type 0} → (f : A → B) (xs : List A) → length (map f xs) ≡ length xs
length-map f [] = refl
length-map f (x ∷ xs) = ap suc (length-map f xs)

All-map :
    (P : Bytes → Type 0) (f : Bytes → Bytes) (xs : List Bytes)
    → ((x : Bytes) → P (f x))
    → All P (map f xs)
All-map P f [] h = tt
All-map P f (x ∷ xs) h = (h x, All-map P f xs h)

read_back-header :
    (start end : ℕ) (sha256 : Bytes → Bytes) (chunks : List Bytes)
    → start ≤ end
    → end < 2 ^ 64
    → length chunks < 2 ^ 64
    → ((bytes : Bytes) → IsChecksum (sha256 bytes))
    → read_back (
        marshal_batch_data_header start end (map sha256 chunks)
        ∷ chunk_datas start end 0 (length chunks) chunks)
      ≡ ok (record { start = start; end = end; checksums = map sha256 chunks }, chunks)
unfolding read_back
read_back-header start end sha256 chunks p q r sums =
    let header =
      unmarshal_batch_data_header-marshal_batch_data_header start end (map sha256 chunks) p q
        (rw (length-map sha256 chunks) r) (All-map IsChecksum sha256 chunks sums) in
    let rest =
      read_back_chunks-chunk_datas start end 0 (length chunks) chunks p q r (omega arith) in
    rw (header, length-map sha256 chunks, rest) refl

-- No file is read in more chunks than it has bytes.
length-chunks :
    (size : ℕ) (chunks : List Bytes)
    → All (IsSized size) chunks
    → length chunks ≤ length (joined chunks)
length-chunks size [] all = omega arith
length-chunks size (chunk ∷ chunks) all =
    omega (arith, all.0.0, length-chunks size chunks all.1, length-append chunk (joined chunks))

module _ {M Z : Type 0} (readings : ℕ → ℕ) (da : DaNode M) (wrap : Bytes → M) (sender : Bytes) where
  -- The messages go on with these, and nothing else than the clock has changed.
  abbrev Sends :
      List M → BatchSubmitter M Z → Result SubmitError (Unit {0}) × BatchSubmitter M Z → Type 0
  Sends msgs bs r =
      (bs' : BatchSubmitter M Z) × (r ≡ (ok tt, bs'))
      × (messages bs'.processed_msgs ≡ messages bs.processed_msgs ++ msgs)

  module _
      (accepts : (bytes : Bytes)
        → da.create_batch_msg bytes ≡ some (some (wrap bytes), sender)) where
    submit_data-Sends :
        (bytes : Bytes) (bs : BatchSubmitter M Z)
        → Sends (wrap bytes ∷ []) bs (submit_data readings da bytes bs)
    unfolding submit_data
    submit_data-Sends bytes bs =
        let (timestamp, clock') = current_nano_timestamp readings bs.clock in
        let batch = processed sender (wrap bytes ∷ []) timestamp in
        (
          record bs { processed_msgs = bs.processed_msgs ++ batch ∷ []; clock = clock' },
          rw (accepts bytes, submit_data) refl,
          messages-append bs.processed_msgs (batch ∷ []),
        )

    -- One part after another.
    Sends-after :
        (xs ys : List M) (bs : BatchSubmitter M Z)
        (r : Result SubmitError (Unit {0}) × BatchSubmitter M Z)
        (next : Unit {0} → Machine SubmitError (BatchSubmitter M Z) (Unit {0}))
        → Sends xs bs r
        → ((bs' : BatchSubmitter M Z) → Sends ys bs' (next tt bs'))
        → Sends (xs ++ ys) bs (after r next)
    Sends-after xs ys bs r next (bs1, run, first) rest =
        let (bs2, run2, second) = rest bs1 in
        (
          bs2,
          (λ i. after (run i) next) ∙ run2,
          second ∙ ap (λ t. t ++ ys) first ∙ append_assoc (messages bs.processed_msgs) xs ys,
        )

    submit_chunks-Sends :
        (start end index count : ℕ) (chunks : List Bytes) (bs : BatchSubmitter M Z)
        → Sends
            (map wrap (chunk_datas start end index count chunks))
            bs
            (submit_chunks readings da start end index count chunks bs)
    unfolding submit_chunks
    submit_chunks-Sends start end index count [] bs =
        (bs, refl, sym (append-nil (messages bs.processed_msgs)))
    submit_chunks-Sends start end index count (chunk ∷ chunks) bs =
        let bytes = marshal_batch_data_chunk start end index count chunk in
        Sends-after (wrap bytes ∷ []) (map wrap (chunk_datas start end (index + 1) count chunks)) bs
          (submit_data readings da bytes bs)
          (λ _. submit_chunks readings da start end (index + 1) count chunks)
          (submit_data-Sends bytes bs) (submit_chunks-Sends start end (index + 1) count chunks)

    module _ (sha256 : Bytes → Bytes) (cfg : Config) where
      -- If the data availability layer has a message for all data, a chunk may have a byte at least, checksums have
      -- 32 bytes, the batch starts at its end at the latest, and its end and the size of its file are
      -- below 2^64, then submitting the closed file succeeds, and the data that the new
      -- messages carry is read back as the start and the end of the batch, the checksums of the
      -- chunks in their order, and chunks that joined are the file.
      pub submit_file-read_back :
          (bs : BatchSubmitter M Z)
          → 1 ≤ cfg.max_chunk_size
          → ((bytes : Bytes) → IsChecksum (sha256 bytes))
          → bs.local_batch_info.start ≤ bs.local_batch_info.end
          → bs.local_batch_info.end < 2 ^ 64
          → length bs.batch_file < 2 ^ 64
          → (bs' : BatchSubmitter M Z) × (sent : List Bytes) × (chunks : List Bytes) × (submit_file
                readings da sha256 cfg bs
              ≡ (ok tt, bs'))
            × (messages bs'.processed_msgs ≡ messages bs.processed_msgs ++ map wrap sent)
            × (read_back sent
                ≡ ok (
                  record {
                    start = bs.local_batch_info.start;
                    end = bs.local_batch_info.end;
                    checksums = map sha256 chunks;
                  },
                  chunks,
                ))
            × (joined chunks ≡ bs.batch_file)
      unfolding submit_file
      submit_file-read_back bs p sums q r s =
          let info = bs.local_batch_info in
          let chunks = read_chunks (length bs.batch_file + 1) cfg.max_chunk_size bs.batch_file 0 in
          let (whole, sized) = read_chunks-joined cfg.max_chunk_size bs.batch_file p in
          let count = length chunks in
          let few : count < 2 ^ 64 =
            omega (arith, length-chunks cfg.max_chunk_size chunks sized, ap length whole) in
          let header = marshal_batch_data_header info.start info.end (map sha256 chunks) in
          let datas = chunk_datas info.start info.end 0 count chunks in
          let (bs', run, sent) =
            Sends-after (wrap header ∷ []) (map wrap datas) bs (submit_data readings da header bs)
              (λ _. submit_chunks readings da info.start info.end 0 count chunks)
              (submit_data-Sends header bs)
              (submit_chunks-Sends info.start info.end 0 count chunks) in
          (
            bs',
            header ∷ datas,
            chunks,
            run,
            sent,
            read_back-header info.start info.end sha256 chunks q r few sums,
            whole,
          )
