-- ===== src/Errors.antt =====
-- Go's `error` values of the storage packages, and computations that return one or a value.
use zadodb.Prelude.{◌≡◌, refl, ◌⊎◌, inl, inr}

pub data Error : Type 0 where
  -- internal/storage/page
  bad_length bad_magic bad_checksum short_read bad_meta_magic not_meta_page file_exists : Error
  negative_offset : Error
  -- internal/storage/btree: a node or an overflow page that does not parse
  truncated not_a_node not_overflow corrupt_overflow not_ascending : Error
  -- internal/storage/layout and internal/storage/recovery: a file is missing, a log cannot be read
  no_file bad_log : Error
  -- internal/storage/apply
  unknown_op : Error
  -- internal/storage/mvcc
  out_of_range : Error
  -- no Go value: a loop of the model ran out of rounds
  out_of_fuel : Error
  -- no Go value: an index out of range, where the Go code panics
  panics : Error

pub data Result {ℓ} (V : Type ℓ) : Type ℓ where
  err : Error → Result V
  ok : V → Result V

infixl 5 ◌>>=◌
abbrev pub ◌>>=◌ {κ ℓ} : {V : Type κ} {W : Type ℓ} (m : Result V) (k : V → Result W) → Result W
err z >>= k = err z
ok v >>= k = k v

-- A chain that succeeds has steps that succeed.
pub >>=-eq-ok {κ ℓ} :
    {V : Type κ} {W : Type ℓ} (m : Result V) (k : V → Result W) {b : W}
    → (m >>= k) ≡ ok b
    → (v : V) × (m ≡ ok v) × (k v ≡ ok b)
>>=-eq-ok (ok v) k h = (v, refl, h)
>>=-eq-ok (err z) k h = cc

pub Result-cases {ℓ} :
    {V : Type ℓ} (m : Result V) → ((v : V) × (m ≡ ok v)) ⊎ ((z : Error) × (m ≡ err z))
Result-cases (ok v) = inl (v, refl)
Result-cases (err z) = inr (z, refl)
