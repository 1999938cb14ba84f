-- ===== src/Batch/Block/Ends.antt =====
-- What the steps of a block leave of the submitter: the end of the batch, and the messages.
use opinit_bots.Base.{
  ℕ, ◌+◌, ◌≡◌, refl, ◌∙◌, ◌==◌, Option, none, some, List, [], ◌∷◌, inl, inr, Bool-cases,
  Option-cases, length, map,
}
use opinit_bots.Base.Result.{Result, ok, err}
use opinit_bots.Base.Machine.{Machine, ◌>>=◌, ◌>>◌, after, return, fail, self, assign}
use opinit_bots.Db.{Bytes}
use opinit_bots.Batch.Data.{marshal_batch_data_header}
use opinit_bots.Batch.Submitter.{
  BatchSubmitter, SubmitError, query_failed, prepend_length, read_chunks, DaNode, Config, Zip,
  zipped, zipped_to, handle_batch, submit_data, submit_chunks, submit_file, finalize_batch,
}

module _ (M Z : Type 0) where
  -- The numbers of the last block of a batch that are kept by what submits it.
  abbrev pub SameEnd : BatchSubmitter M Z → BatchSubmitter M Z → Type 0
  SameEnd bs bs' =
      (bs'.last_batch_end_block_number ≡ bs.last_batch_end_block_number)
      × (bs'.local_batch_info.end ≡ bs.local_batch_info.end)

  unfoldable pub Ends : Machine SubmitError (BatchSubmitter M Z) (Unit {0}) → Type 0
  Ends m = (bs : BatchSubmitter M Z) → SameEnd bs (m bs).1

  after-Ends :
      (bs : BatchSubmitter M Z) (run : Result SubmitError (Unit {0}) × BatchSubmitter M Z)
      (next : Unit {0} → Machine SubmitError (BatchSubmitter M Z) (Unit {0}))
      → SameEnd bs run.1
      → ((u : Unit {0}) → Ends (next u))
      → SameEnd bs (after run next).1
  unfolding Ends
  after-Ends bs (ok u, c) next same keeps = ((keeps u c).0 ∙ same.0, (keeps u c).1 ∙ same.1)
  after-Ends bs (err e, c) next same keeps = same

  bind-Ends :
      (m : Machine SubmitError (BatchSubmitter M Z) (Unit {0}))
      (next : Unit {0} → Machine SubmitError (BatchSubmitter M Z) (Unit {0}))
      → Ends m
      → ((u : Unit {0}) → Ends (next u))
      → Ends (m >>= next)
  unfolding Ends
  bind-Ends m next first rest bs = after-Ends bs (m bs) next (first bs) rest

  pub zipped_to-quiet :
      (x : Option (Z × Bytes)) (bs : BatchSubmitter M Z)
      → SameEnd bs (zipped_to x bs).1 × ((zipped_to x bs).1.processed_msgs ≡ bs.processed_msgs)
  zipped_to-quiet none bs = ((refl, refl), refl)
  zipped_to-quiet (some zf) bs = ((refl, refl), refl)

  zipped-Ends : (act : Z × Bytes → Option (Z × Bytes)) → Ends (zipped act)
  unfolding Ends
  zipped-Ends act bs = (zipped_to-quiet (act (bs.batch_writer, bs.batch_file)) bs).0

  return-Ends : Ends (return tt)
  unfolding Ends
  return-Ends bs = (refl, refl)

  fail-Ends : (e : SubmitError) → Ends (fail e)
  unfolding Ends
  fail-Ends e bs = (refl, refl)

  pub handle_batch-quiet :
      (zip : Zip Z) (bytes : Bytes) (bs : BatchSubmitter M Z)
      → (handle_batch zip bytes bs).1.processed_msgs ≡ bs.processed_msgs
  unfolding handle_batch
  handle_batch-quiet zip bytes bs = elim (Bool-cases (length bytes == 0)) [
    | inl empty ↦ rw (empty, handle_batch) refl
    | inr full ↦ rw (full, handle_batch) (zipped_to-quiet _ bs).1
  ]

  module _ (readings : ℕ → ℕ) (da : DaNode M) where
    submit_data-Ends : (bytes : Bytes) → Ends (submit_data readings da bytes)
    unfolding Ends submit_data
    submit_data-Ends bytes bs = elim (Option-cases (da.create_batch_msg bytes)) [
      | inl failed ↦ rw (failed, submit_data) (refl, refl)
      | inr (answer, came) ↦ elim (Option-cases answer.0) [
        | inl none' ↦ rw (came, none', submit_data) (refl, refl)
        | inr (msg, some') ↦ rw (came, some', submit_data) (refl, refl)
      ]
    ]

    submit_chunks-Ends :
        (start end index count : ℕ) (chunks : List Bytes)
        → Ends (submit_chunks readings da start end index count chunks)
    unfolding submit_chunks
    submit_chunks-Ends start end index count [] = return-Ends
    submit_chunks-Ends start end index count (chunk ∷ chunks) =
        bind-Ends _ _ (submit_data-Ends _)
          (λ _. submit_chunks-Ends start end (index + 1) count chunks)

    module _ (zip : Zip Z) (sha256 : Bytes → Bytes) (cfg : Config) where
      submit_file-Ends : Ends (submit_file readings da sha256 cfg)
      unfolding Ends submit_file
      submit_file-Ends bs =
          let info = bs.local_batch_info in
          let chunks = read_chunks (length bs.batch_file + 1) cfg.max_chunk_size bs.batch_file 0 in
          bind-Ends
            (submit_data readings da
              (marshal_batch_data_header info.start info.end (map sha256 chunks)))
            (λ _. submit_chunks readings da info.start info.end 0 (length chunks) chunks)
            (submit_data-Ends _) (λ _. submit_chunks-Ends _ _ 0 _ _) bs

      sized-Ends : Ends (
          self >>= (λ bs.
            assign (record bs {
              local_batch_info = record bs.local_batch_info { batch_size = length bs.batch_file };
            })
            >> submit_file readings da sha256 cfg))
      unfolding Ends
      sized-Ends bs = submit_file-Ends (record bs {
        local_batch_info = record bs.local_batch_info { batch_size = length bs.batch_file };
      })

      pub finalize_batch-Ends :
          (raw_commit : Option Bytes) → Ends (finalize_batch readings da zip sha256 cfg raw_commit)
      unfolding finalize_batch
      finalize_batch-Ends none = fail-Ends query_failed
      finalize_batch-Ends (some raw_commit) =
          bind-Ends _ _ (zipped-Ends (zip.write (prepend_length raw_commit)))
            (λ _. bind-Ends _ _ (zipped-Ends zip.close) (λ _. sized-Ends))
