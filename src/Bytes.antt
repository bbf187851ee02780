-- ===== src/Bytes.antt =====
-- Byte strings, as lists of numbers below 256: Go's `[]byte` and `string`, the fixed-width integers of
-- encoding/binary, and `compareBytes` of internal/storage/btree/node.go.
pub mod Order
pub mod Endian
pub mod Sorted
pub mod Decimal
use zadodb.Prelude.{ℕ, zero, suc, ◌+◌, ◌*◌, ◌/◌, ◌%◌, ◌^◌, ◌<◌, Ordering, ltb, nat_beq}
use zadodb.Prelude.{Bool, true, false, List, [], ◌∷◌, ◌++◌, foldl, if◌then◌else◌}

abbrev pub Bytes : Type 0
Bytes = List ℕ

abbrev pub IsByte : ℕ → Type 0
IsByte b = b < 256

-- The loop over the common length compares byte by byte; after it the shorter string is the less.
unfoldable pub compare_bytes : Bytes → Bytes → Ordering
compare_bytes [] [] = Ordering.eq
compare_bytes [] (y ∷ ys) = Ordering.lt
compare_bytes (x ∷ xs) [] = Ordering.gt
compare_bytes (x ∷ xs) (y ∷ ys) =
    if nat_beq x y then compare_bytes xs ys else if ltb x y then Ordering.lt else Ordering.gt

abbrev pub bytes_lt : Bytes → Bytes → Bool
bytes_lt a b = elim (compare_bytes a b) [ Ordering.lt ↦ true | _ ↦ false ]

abbrev pub bytes_beq : Bytes → Bytes → Bool
bytes_beq a b = elim (compare_bytes a b) [ Ordering.eq ↦ true | _ ↦ false ]

-- binary.LittleEndian.PutUint16, PutUint32 and PutUint64, at k = 2, 4 and 8.
unfoldable pub put_le : ℕ → ℕ → Bytes
put_le zero v = []
put_le (suc k) v = (v % 256) ∷ put_le k (v / 256)

unfoldable pub get_le : Bytes → ℕ
get_le [] = 0
get_le (b ∷ bs) = b + 256 * get_le bs

-- binary.BigEndian.PutUint64, at k = 8.
unfoldable pub put_be : ℕ → ℕ → Bytes
put_be zero v = []
put_be (suc k) v = put_be k (v / 256) ++ ((v % 256) ∷ [])

unfoldable pub get_be : Bytes → ℕ
get_be bs = foldl (λ acc b. acc * 256 + b) 0 bs
