-- ===== src/Batch/Data/RoundTrip.antt =====
-- What was marshalled is read back.
use opinit_bots.Base.{
  ℕ, ◌+◌, ◌-◌, ◌*◌, ◌/◌, ◌%◌, ◌≤◌, ◌<◌, ◌^◌, ◌≡◌, refl, sym, ap, ◌∙◌, List, [], ◌∷◌, ◌++◌, length,
  length-append, take, drop, All, arith, not, ◌||◌, ◌==◌, ltb, if◌then◌else◌,
}
use opinit_bots.Base.Result.{Result, ok, err}
use opinit_bots.Db.{Bytes}
use opinit_bots.Db.Keys.{to_uint64_key-from_uint64_key}
use opinit_bots.Batch.Data.{
  BatchDataHeader, BatchDataChunk, BatchDataGenesis, joined, checksums_from,
  marshal_batch_data_header, unmarshal_batch_data_header, marshal_batch_data_chunk,
  unmarshal_batch_data_chunk, marshal_batch_data_genesis, unmarshal_batch_data_genesis, DataError,
  invalid_data_length, invalid_start, invalid_checksum_length,
}

take-append {ℓ} : {A : Type ℓ} (xs ys : List A) → take (length xs) (xs ++ ys) ≡ xs
take-append [] ys = refl
take-append (x ∷ xs) ys = λ i. x ∷ take-append xs ys i

drop-append {ℓ} : {A : Type ℓ} (xs ys : List A) → drop (length xs) (xs ++ ys) ≡ ys
drop-append [] ys = refl
drop-append (x ∷ xs) ys = drop-append xs ys

-- A checksum, of sha256.
abbrev pub IsChecksum : Bytes → Type 0
IsChecksum bytes = length bytes ≡ 32

checksums_from-joined :
    (checksums : List Bytes)
    → All IsChecksum checksums
    → checksums_from (length checksums) (joined checksums) ≡ checksums
unfolding checksums_from
checksums_from-joined [] all = refl
checksums_from-joined (c ∷ cs) (here, there) =
    λ i. first i ∷ (ap (checksums_from (length cs)) second ∙ checksums_from-joined cs there) i
  where
    first : take 32 (c ++ joined cs) ≡ c
    first = rw (sym here) (take-append c (joined cs))

    second : drop 32 (c ++ joined cs) ≡ joined cs
    second = rw (sym here) (drop-append c (joined cs))

length-joined :
    (checksums : List Bytes)
    → All IsChecksum checksums
    → length (joined checksums) ≡ 32 * length checksums
length-joined [] all = refl
length-joined (c ∷ cs) (here, there) =
    rw length-append (omega (arith, length-joined cs there, here))

-- The decisions of the three readers, over the numbers they have read.
abbrev header_of : ℕ → ℕ → ℕ → ℕ → Bytes → Result DataError BatchDataHeader
header_of size start end count rest =
    if ltb size 25
    then err invalid_data_length
    else if ltb end start
    then err invalid_start
    else let expected = (size - 25) / 32 in
      if not ((size - 25) % 32 == 0) || not (expected == count)
      then err invalid_checksum_length
      else ok (record { start = start; end = end; checksums = checksums_from expected rest })

abbrev chunk_of : ℕ → ℕ → ℕ → ℕ → ℕ → Bytes → Result DataError BatchDataChunk
chunk_of size start end index count rest =
    if ltb size 33
    then err invalid_data_length
    else if ltb end start
    then err invalid_start
    else ok (record { start = start; end = end; index = index; length = count; chunk_data = rest })

abbrev genesis_of : ℕ → ℕ → ℕ → Bytes → Result DataError BatchDataGenesis
genesis_of size index count rest =
    if ltb size 17
    then err invalid_data_length
    else ok (record { index = index; length = count; chunk_data = rest })

header_of-ok :
    (start end : ℕ) (checksums : List Bytes)
    → start ≤ end
    → All IsChecksum checksums
    → (size : ℕ) → size ≡ 25 + length (joined checksums)
    → header_of size start end (length checksums) (joined checksums)
      ≡ ok (record { start = start; end = end; checksums = checksums })
header_of-ok start end checksums p all size e =
    let all_of = length-joined checksums all in
    let same : (size - 25) / 32 ≡ length checksums = omega (arith, all_of, e) in
    let whole : (size - 25) % 32 ≡ 0 = omega (arith, all_of, e) in
    ground (arith, same, whole, checksums_from-joined checksums all)

-- If start is at most end, the numbers are below 2^64 and the checksums have 32 bytes each, then
-- unmarshalling a marshalled header gives back start, end and checksums.
pub unmarshal_batch_data_header-marshal_batch_data_header :
    (start end : ℕ) (checksums : List Bytes)
    → start ≤ end
    → end < 2 ^ 64
    → length checksums < 2 ^ 64
    → All IsChecksum checksums
    → unmarshal_batch_data_header (marshal_batch_data_header start end checksums)
      ≡ ok (record { start = start; end = end; checksums = checksums })
unfolding unmarshal_batch_data_header marshal_batch_data_header
unmarshal_batch_data_header-marshal_batch_data_header start end checksums p q r all =
    (λ i.
      header_of (length (marshal_batch_data_header start end checksums))
        (to_uint64_key-from_uint64_key start (omega arith) i)
        (to_uint64_key-from_uint64_key end q i)
        (to_uint64_key-from_uint64_key (length checksums) r i) (joined checksums))
    ∙ header_of-ok start end checksums p all
        (length (marshal_batch_data_header start end checksums)) (omega arith)

-- If start is at most end and the numbers are below 2^64, then unmarshalling a marshalled chunk gives
-- back start, end, index, length and bytes.
pub unmarshal_batch_data_chunk-marshal_batch_data_chunk :
    (start end index count : ℕ) (chunk_data : Bytes)
    → start ≤ end
    → end < 2 ^ 64
    → index < 2 ^ 64
    → count < 2 ^ 64
    → unmarshal_batch_data_chunk (marshal_batch_data_chunk start end index count chunk_data)
      ≡ ok (record {
        start = start;
        end = end;
        index = index;
        length = count;
        chunk_data = chunk_data;
      })
unfolding unmarshal_batch_data_chunk marshal_batch_data_chunk
unmarshal_batch_data_chunk-marshal_batch_data_chunk start end index count chunk_data p q r s =
    (λ i.
      chunk_of (length (marshal_batch_data_chunk start end index count chunk_data))
        (to_uint64_key-from_uint64_key start (omega arith) i)
        (to_uint64_key-from_uint64_key end q i) (to_uint64_key-from_uint64_key index r i)
        (to_uint64_key-from_uint64_key count s i) chunk_data)
    ∙ ground arith

-- If index and length are below 2^64, then unmarshalling a marshalled part of the genesis gives back
-- index, length and bytes.
pub unmarshal_batch_data_genesis-marshal_batch_data_genesis :
    (index count : ℕ) (chunk_data : Bytes)
    → index < 2 ^ 64
    → count < 2 ^ 64
    → unmarshal_batch_data_genesis (marshal_batch_data_genesis index count chunk_data)
      ≡ ok (record { index = index; length = count; chunk_data = chunk_data })
unfolding unmarshal_batch_data_genesis marshal_batch_data_genesis
unmarshal_batch_data_genesis-marshal_batch_data_genesis index count chunk_data p q =
    (λ i.
      genesis_of (length (marshal_batch_data_genesis index count chunk_data))
        (to_uint64_key-from_uint64_key index p i) (to_uint64_key-from_uint64_key count q i)
        chunk_data)
    ∙ ground arith

-- Unmarshalling a marshalled header, chunk and part of the genesis gives back what was marshalled, when
-- start is at most end, the numbers are below 2^64 and the checksums have 32 bytes each.
pub unmarshal-marshal :
    (start end : ℕ) (checksums : List Bytes) (index count : ℕ) (chunk_data : Bytes)
    → start ≤ end
    → end < 2 ^ 64
    → length checksums < 2 ^ 64
    → All IsChecksum checksums
    → index < 2 ^ 64
    → count < 2 ^ 64
    → (unmarshal_batch_data_header (marshal_batch_data_header start end checksums)
        ≡ ok (record { start = start; end = end; checksums = checksums }))
      × (unmarshal_batch_data_chunk (marshal_batch_data_chunk start end index count chunk_data)
          ≡ ok (record {
            start = start;
            end = end;
            index = index;
            length = count;
            chunk_data = chunk_data;
          }))
      × (unmarshal_batch_data_genesis (marshal_batch_data_genesis index count chunk_data)
          ≡ ok (record { index = index; length = count; chunk_data = chunk_data }))
unmarshal-marshal start end checksums index count chunk_data p q r all i c = (
  unmarshal_batch_data_header-marshal_batch_data_header start end checksums p q r all,
  unmarshal_batch_data_chunk-marshal_batch_data_chunk start end index count chunk_data p q i c,
  unmarshal_batch_data_genesis-marshal_batch_data_genesis index count chunk_data i c,
)
