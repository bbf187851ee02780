-- ===== src/Bytes/Endian.antt =====
-- The fixed-width encodings are read back, and the big-endian one keeps the order of the numbers.
use zadodb.Prelude.{ℕ, zero, suc, ◌+◌, ◌*◌, ◌/◌, ◌%◌, ◌^◌, ◌<◌, Ordering, compare}
use zadodb.Prelude.{◌≡◌, refl, ap, arith, [], ◌∷◌, ◌++◌, length, length-append, All}
use zadodb.Bytes.{Bytes, IsByte, compare_bytes, put_le, get_le, put_be, get_be}
use mathlib.Core.List.{foldl-append}

pub length-put_le : (k v : ℕ) → length (put_le k v) ≡ k
unfolding put_le
length-put_le zero v = refl
length-put_le (suc k) v = ap suc (length-put_le k (v / 256))

pub length-put_be : (k v : ℕ) → length (put_be k v) ≡ k
unfolding put_be
length-put_be zero v = refl
length-put_be (suc k) v =
    omega (arith, length-append (put_be k (v / 256)) ((v % 256) ∷ []), length-put_be k (v / 256))

-- A number of k bytes is read back.
pub get_le-put_le : (k v : ℕ) → v < 256 ^ k → get_le (put_le k v) ≡ v
unfolding put_le get_le
get_le-put_le zero v h = omega arith
get_le-put_le (suc k) v h = omega (arith, get_le-put_le k (v / 256) (omega arith))

get_be-append : (xs : Bytes) (b : ℕ) → get_be (xs ++ (b ∷ [])) ≡ get_be xs * 256 + b
unfolding get_be
get_be-append xs b = rw foldl-append

pub get_be-put_be : (k v : ℕ) → v < 256 ^ k → get_be (put_be k v) ≡ v
unfolding put_be
get_be-put_be zero v h = unfold get_be in omega arith
get_be-put_be (suc k) v h =
    omega
      (arith, get_be-append (put_be k (v / 256)) (v % 256), get_be-put_be k (v / 256) (omega arith))

abbrev then_compare : Ordering → Ordering → Ordering
then_compare Ordering.lt o = Ordering.lt
then_compare Ordering.eq o = o
then_compare Ordering.gt o = Ordering.gt

compare_bytes-append :
    (xs ys : Bytes) (x y : ℕ)
    → length xs ≡ length ys
    → compare_bytes (xs ++ (x ∷ [])) (ys ++ (y ∷ []))
      ≡ then_compare (compare_bytes xs ys) (compare x y)
unfolding compare_bytes
compare_bytes-append [] [] x y e = ground arith
compare_bytes-append [] (b ∷ ys) x y e = absurd (omega arith)
compare_bytes-append (a ∷ xs) [] x y e = absurd (omega arith)
compare_bytes-append (a ∷ xs) (b ∷ ys) x y e =
    ground (arith, compare_bytes-append xs ys x y (omega arith))

-- Byte strings of one length compare as the numbers that they encode.
pub compare_bytes-put_be :
    (k a b : ℕ) → a < 256 ^ k → b < 256 ^ k → compare_bytes (put_be k a) (put_be k b) ≡ compare a b
unfolding put_be
compare_bytes-put_be zero a b ha hb = unfold compare_bytes in ground arith
compare_bytes-put_be (suc k) a b ha hb = ground (
  arith,
  compare_bytes-append (put_be k (a / 256)) (put_be k (b / 256)) (a % 256) (b % 256),
  length-put_be k (a / 256),
  length-put_be k (b / 256),
  compare_bytes-put_be k (a / 256) (b / 256),
)

pub put_le-IsByte : (k v : ℕ) → All IsByte (put_le k v)
unfolding put_le
put_le-IsByte zero v = tt
put_le-IsByte (suc k) v = (omega arith, put_le-IsByte k (v / 256))

pub put_be_inj : (k a b : ℕ) → a < 256 ^ k → b < 256 ^ k → put_be k a ≡ put_be k b → a ≡ b
put_be_inj k a b ha hb e = ground (arith, get_be-put_be k a, get_be-put_be k b, ap get_be e)
