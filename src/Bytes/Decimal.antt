-- ===== src/Bytes/Decimal.antt =====
-- Decimal texts: what strconv.ParseUint reads and what %d writes.
use zadodb.Prelude.{
  ℕ, zero, suc, ◌+◌, ◌-◌, ◌*◌, ◌/◌, ◌%◌, ◌^◌, ◌<◌, ◌≤◌, ◌≡◌, refl, sym, ap, ◌∙◌, arith, ltb, leb,
  All, nat_beq, if◌then◌else◌, ◌&&◌, Bool-cases, true, false, inl, inr, Option, none, some, [], ◌∷◌,
  ◌++◌, length, length-append, replicate,
}
use zadodb.Bytes.{Bytes}

-- The loop over the digits, from a number on; `none` is a byte that is no digit.
unfoldable pub digits_from : ℕ → Bytes → Option ℕ
digits_from n [] = some n
digits_from n (c ∷ cs) =
    let rest = digits_from (n * 10 + (c - b'0')) cs in
    if leb b'0' c && leb c b'9' then rest else none

below_64 : Option ℕ → Option ℕ
below_64 none = none
below_64 (some n) = if ltb n (2 ^ 64) then some n else none

-- `strconv.ParseUint(s, 10, 64)`.
unfoldable pub parse_uint : Bytes → Option ℕ
unfolding digits_from below_64
parse_uint s = if nat_beq (length s) 0 then none else below_64 (digits_from 0 s)

-- `%d`, written from the last digit on.
digits_before : ℕ → ℕ → Bytes → Bytes
digits_before zero n rest = rest
digits_before (suc fuel) n rest =
    let more = digits_before fuel (n / 10) ((b'0' + n % 10) ∷ rest) in
    if nat_beq (n / 10) 0 then (b'0' + n % 10) ∷ rest else more

unfoldable pub decimal : ℕ → Bytes
unfolding digits_before
decimal n = digits_before (suc n) n []

-- `%06d`, at the width 6.
unfoldable pub padded : ℕ → ℕ → Bytes
unfolding decimal
padded width n = replicate (width - length (decimal n)) b'0' ++ decimal n

digits_from-digit :
    (a n : ℕ) (rest : Bytes)
    → digits_from a ((b'0' + n % 10) ∷ rest) ≡ digits_from (a * 10 + n % 10) rest
unfolding digits_from
digits_from-digit a n rest =
    let digit : (leb b'0' (b'0' + n % 10) && leb (b'0' + n % 10) b'9') ≡ true = ground (arith) in
    rw digit (ap (λ d. digits_from (a * 10 + d) rest) (omega arith))

digits_from-digits_before :
    (fuel n : ℕ) (rest : Bytes)
    → n < fuel
    → digits_from 0 (digits_before fuel n rest) ≡ digits_from n rest
unfolding digits_before
digits_from-digits_before zero n rest lt = absurd (omega arith)
digits_from-digits_before (suc fuel) n rest lt = elim (Bool-cases (nat_beq (n / 10) 0)) [
  | inl last ↦
      let small : n / 10 ≡ 0 = ground (arith, last) in
      rw last (digits_from-digit 0 n rest ∙ ap (λ d. digits_from d rest) (omega (arith, small)))
  | inr more ↦
      let many : 0 < n / 10 = ground (arith, more) in
      rw more (
        digits_from-digits_before fuel (n / 10) ((b'0' + n % 10) ∷ rest) (omega (arith, many))
        ∙ digits_from-digit (n / 10) n rest
        ∙ ap (λ d. digits_from d rest) (omega arith))
]

digits_from-zeros : (k : ℕ) (ds : Bytes) → digits_from 0 (replicate k b'0' ++ ds) ≡ digits_from 0 ds
unfolding digits_from
digits_from-zeros zero ds = refl
digits_from-zeros (suc k) ds = digits_from-zeros k ds

length-digits_before :
    (fuel n : ℕ) (rest : Bytes) → length rest ≤ length (digits_before fuel n rest)
unfolding digits_before
length-digits_before zero n rest = omega arith
length-digits_before (suc fuel) n rest = elim (Bool-cases (nat_beq (n / 10) 0)) [
  | inl last ↦ rw last (omega arith)
  | inr more ↦
      let longer = length-digits_before fuel (n / 10) ((b'0' + n % 10) ∷ rest) in
      rw more (omega (arith, longer))
]

pub length-decimal : (n : ℕ) → 0 < length (decimal n)
unfolding decimal digits_before
length-decimal n = elim (Bool-cases (nat_beq (n / 10) 0)) [
  | inl last ↦ rw last (omega arith)
  | inr more ↦
      let longer = length-digits_before n (n / 10) ((b'0' + n % 10) ∷ []) in
      rw more (omega (arith, longer))
]

-- A number below 2^64 is read back from its decimal text, with zeros before it or not.
pub parse_uint-padded : (width n : ℕ) → n < 2 ^ 64 → parse_uint (padded width n) ≡ some n
unfolding parse_uint below_64 padded decimal
parse_uint-padded width n lt =
    let zeros : Bytes = replicate (width - length (decimal n)) b'0' in
    let long : length (zeros ++ decimal n) ≡ length zeros + length (decimal n) =
      length-append zeros (decimal n) in
    let some_digit = length-decimal n in
    let full : nat_beq (length (zeros ++ decimal n)) 0 ≡ false = ground (arith, long, some_digit) in
    let read : digits_from 0 (zeros ++ decimal n) ≡ some n =
      digits_from-zeros (width - length (decimal n)) (decimal n)
      ∙ digits_from-digits_before (suc n) n [] (omega arith)
      ∙ (unfold digits_from in refl) in
    let within : ltb n (2 ^ 64) ≡ true = ground arith in rw (full, read, within) refl

digits_before-high :
    (fuel n : ℕ) (rest : Bytes)
    → All (λ c. b'0' ≤ c) rest
    → All (λ c. b'0' ≤ c) (digits_before fuel n rest)
unfolding digits_before
digits_before-high zero n rest h = h
digits_before-high (suc fuel) n rest h = elim (Bool-cases (nat_beq (n / 10) 0)) [
  | inl last ↦ rw last ((omega arith, h))
  | inr more ↦ rw more (digits_before-high fuel (n / 10) ((b'0' + n % 10) ∷ rest) (omega arith, h))
]

-- No byte of a decimal text is a space.
pub decimal_high : (n : ℕ) → All (λ c. b'0' ≤ c) (decimal n)
unfolding decimal
decimal_high n = digits_before-high (suc n) n [] tt

pub parse_uint-decimal : (n : ℕ) → n < 2 ^ 64 → parse_uint (decimal n) ≡ some n
unfolding padded
parse_uint-decimal n lt =
    let no_zeros : 0 - length (decimal n) ≡ 0 = omega arith in
    ap (λ k. parse_uint (replicate k b'0' ++ decimal n)) (sym no_zeros) ∙ parse_uint-padded 0 n lt
