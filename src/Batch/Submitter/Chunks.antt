-- ===== src/Batch/Submitter/Chunks.antt =====
-- The chunks that a file is read in.

use mathlib.Core.List.{append-nil}
use opinit_bots.Base.{
  ℕ, zero, suc, ◌+◌, ◌≤◌, ◌<◌, ◌≡◌, sym, ◌∙◌, ◌==◌, ltb, ◌++◌, length, take, drop, All, arith,
  Bool-cases, inl, inr, take-short, length-take_le, empty_of_length, take-append-drop, drop-drop,
  length-drop,
}
use opinit_bots.Db.{Bytes}
use opinit_bots.Batch.Data.{joined}
use opinit_bots.Batch.Submitter.{read_chunks}

abbrev pub IsSized : ℕ → Bytes → Type 0
IsSized size chunk = (1 ≤ length chunk) × (length chunk ≤ size)

read_chunks-from :
    (fuel size : ℕ) (file : Bytes) (offset : ℕ)
    → 1 ≤ size
    → length file < fuel + offset
    → (joined (read_chunks fuel size file offset) ≡ drop offset file)
      × All (IsSized size) (read_chunks fuel size file offset)
unfolding read_chunks
read_chunks-from zero size file offset some_size enough =
    (sym (empty_of_length (drop offset file) (omega (arith, length-drop offset file))), tt)
read_chunks-from (suc fuel) size file offset some_size enough =
    let chunk = take size (drop offset file) in
    elim (Bool-cases (length chunk == 0)) [
      | inl nothing ↦
          let none_left : length chunk ≡ 0 = ground arith in
          let whole = take-short size (drop offset file) (omega arith) in
          rw nothing (sym (sym whole ∙ empty_of_length chunk none_left), tt)
      | inr something ↦ elim (Bool-cases (ltb (length chunk) size)) [
        | inl short ↦
            rw (something, short)
              (
                append-nil chunk ∙ take-short size (drop offset file) (ground arith),
                ((ground arith, length-take_le size (drop offset file)), tt),
              )
        | inr full ↦
            let more : 1 ≤ length chunk = ground arith in
            let exact : length chunk ≡ size =
              ground (arith, length-take_le size (drop offset file)) in
            let (same, all) =
              read_chunks-from fuel size file (offset + length chunk) some_size (omega arith) in
            rw (something, full)
              (
                (λ i. chunk ++ same i)
                    ∙ (λ i.
                        chunk
                        ++ sym (drop-drop offset size (offset + length chunk) file (omega arith)) i)
                    ∙ take-append-drop size (drop offset file),
                ((more, length-take_le size (drop offset file)), all),
              )
      ]
    ]

-- If a chunk may have a byte at least, then the loop over the file, for one round more than the file has
-- bytes, reads all of it: the chunks in their order are the file, and each has a byte at least
-- and at most the bytes that a chunk may have.
pub read_chunks-joined :
    (size : ℕ) (file : Bytes)
    → 1 ≤ size
    → (joined (read_chunks (length file + 1) size file 0) ≡ file)
      × All (IsSized size) (read_chunks (length file + 1) size file 0)
read_chunks-joined size file some_size =
    read_chunks-from (length file + 1) size file 0 some_size (omega arith)
