-- ===== src/Db/Keys.antt =====
-- db/types/utils.go: big-endian keys and their joining by the splitter.
pub mod Order
use opinit_bots.Base.{ℕ, ◌+◌, ◌*◌, ◌/◌, ◌%◌, ◌^◌, ◌<◌, ◌≡◌, List, [], ◌∷◌, ◌++◌, get_or, arith}

-- '/'
abbrev pub splitter : ℕ
splitter = 47

-- binary.BigEndian.PutUint64 into eight bytes.
unfoldable pub from_uint64_key : ℕ → List ℕ
from_uint64_key v =
    v / 2 ^ 56 % 256
    ∷ v / 2 ^ 48 % 256
    ∷ v / 2 ^ 40 % 256
    ∷ v / 2 ^ 32 % 256
    ∷ v / 2 ^ 24 % 256
    ∷ v / 2 ^ 16 % 256
    ∷ v / 2 ^ 8 % 256
    ∷ v % 256
    ∷ []

-- binary.BigEndian.Uint64, which reads the first eight bytes.
unfoldable pub to_uint64_key : List ℕ → ℕ
to_uint64_key b =
    get_or b 0 0 * 2 ^ 56
    + get_or b 1 0 * 2 ^ 48
    + get_or b 2 0 * 2 ^ 40
    + get_or b 3 0 * 2 ^ 32
    + get_or b 4 0 * 2 ^ 24
    + get_or b 5 0 * 2 ^ 16
    + get_or b 6 0 * 2 ^ 8
    + get_or b 7 0

-- bytes.Join with the splitter.
unfoldable pub generate_key : List (List ℕ) → List ℕ
generate_key [] = []
generate_key (part ∷ []) = part
generate_key (part ∷ next ∷ parts) = part ++ splitter ∷ generate_key (next ∷ parts)

unfoldable pub append_splitter : List ℕ → List ℕ
append_splitter bytes = bytes ++ splitter ∷ []

pub to_uint64_key-from_uint64_key : (v : ℕ) → v < 2 ^ 64 → to_uint64_key (from_uint64_key v) ≡ v
unfolding to_uint64_key from_uint64_key
to_uint64_key-from_uint64_key v p = omega arith
