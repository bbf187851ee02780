-- ===== src/Prelude/Lists.antt =====
-- Lists measured, sliced and overwritten at native numbers.
use Prim.Native.Nat.{ℕ, zero, suc, ◌+◌, ◌-◌, ◌≤◌, min}
use mathlib.Core.Path.{◌≡◌, refl, sym, ap, ◌∙◌}
use mathlib.Core.List.{List, [], ◌∷◌, ◌++◌, map}
use mathlib.Core.Option.{Option, none, some}
use native.Mathlib.Omega.{arith}

module _ {ℓ} {A : Type ℓ} where
  abbrev pub length : List A → ℕ
  length [] = 0
  length (x ∷ xs) = suc (length xs)

  abbrev pub get_elem? : List A → ℕ → Option A
  get_elem? [] i = none
  get_elem? (x ∷ xs) zero = some x
  get_elem? (x ∷ xs) (suc i) = get_elem? xs i

  abbrev pub get_or : List A → ℕ → A → A
  get_or [] i d = d
  get_or (x ∷ xs) zero d = x
  get_or (x ∷ xs) (suc i) d = get_or xs i d

  abbrev pub take : ℕ → List A → List A
  take zero xs = []
  take (suc n) [] = []
  take (suc n) (x ∷ xs) = x ∷ take n xs

  abbrev pub drop : ℕ → List A → List A
  drop zero xs = xs
  drop (suc n) [] = []
  drop (suc n) (x ∷ xs) = drop n xs

  abbrev pub replicate : ℕ → A → List A
  replicate zero a = []
  replicate (suc n) a = a ∷ replicate n a

  -- The lists one after the other.
  abbrev pub concat : List (List A) → List A
  concat [] = []
  concat (xs ∷ xss) = xs ++ concat xss

  abbrev pub All {κ} : (A → Type κ) → List A → Type κ
  All P [] = Unit {κ}
  All P (x ∷ xs) = P x × All P xs

module _ {ℓ} {A : Type ℓ} where
  pub length-append : (xs ys : List A) → length (xs ++ ys) ≡ length xs + length ys
  length-append [] ys = omega arith
  length-append (x ∷ xs) ys = omega (arith, length-append xs ys)

  pub take-append-drop : (n : ℕ) (xs : List A) → take n xs ++ drop n xs ≡ xs
  take-append-drop zero xs = refl
  take-append-drop (suc n) [] = refl
  take-append-drop (suc n) (x ∷ xs) = ap (λ r. x ∷ r) (take-append-drop n xs)

  pub length-take : (n : ℕ) (xs : List A) → length (take n xs) ≡ min n (length xs)
  length-take zero xs = omega arith
  length-take (suc n) [] = omega arith
  length-take (suc n) (x ∷ xs) = omega (arith, length-take n xs)

  pub length-drop : (n : ℕ) (xs : List A) → length (drop n xs) ≡ length xs - n
  length-drop zero xs = omega arith
  length-drop (suc n) [] = omega arith
  length-drop (suc n) (x ∷ xs) = omega (arith, length-drop n xs)

  pub length-replicate : (n : ℕ) (a : A) → length (replicate n a) ≡ n
  length-replicate zero a = refl
  length-replicate (suc n) a = ap suc (length-replicate n a)

  pub take_append : (xs ys : List A) (n : ℕ) → n ≡ length xs → take n (xs ++ ys) ≡ xs
  take_append [] ys zero e = refl
  take_append [] ys (suc n) e = absurd (omega arith)
  take_append (x ∷ xs) ys zero e = absurd (omega arith)
  take_append (x ∷ xs) ys (suc n) e = ap (λ r. x ∷ r) (take_append xs ys n (omega arith))

  pub take_append_over :
      (xs ys : List A) (n : ℕ) → length xs ≤ n → take n (xs ++ ys) ≡ xs ++ take (n - length xs) ys
  take_append_over [] ys n h = ap (λ k. take k ys) (omega arith)
  take_append_over (x ∷ xs) ys zero h = absurd (omega arith)
  take_append_over (x ∷ xs) ys (suc n) h =
      ap (λ r. x ∷ r)
        (take_append_over xs ys n (omega arith) ∙ ap (λ k. xs ++ take k ys) (omega arith))

  pub take_all : (xs : List A) (n : ℕ) → length xs ≤ n → take n xs ≡ xs
  take_all [] zero h = refl
  take_all [] (suc n) h = refl
  take_all (x ∷ xs) zero h = absurd (omega arith)
  take_all (x ∷ xs) (suc n) h = ap (λ r. x ∷ r) (take_all xs n (omega arith))

  pub take_append_within : (xs ys : List A) (n : ℕ) → n ≤ length xs → take n (xs ++ ys) ≡ take n xs
  take_append_within xs ys zero h = refl
  take_append_within [] ys (suc n) h = absurd (omega arith)
  take_append_within (x ∷ xs) ys (suc n) h =
      ap (λ r. x ∷ r) (take_append_within xs ys n (omega arith))

  pub drop_append : (xs ys : List A) (n : ℕ) → n ≡ length xs → drop n (xs ++ ys) ≡ ys
  drop_append [] ys zero e = refl
  drop_append [] ys (suc n) e = absurd (omega arith)
  drop_append (x ∷ xs) ys zero e = absurd (omega arith)
  drop_append (x ∷ xs) ys (suc n) e = drop_append xs ys n (omega arith)

module _ {ℓ} {A : Type ℓ} where
  -- Go's `copy(xs, ys)`: as many elements as both have.
  unfoldable pub copy : List A → List A → List A
  copy [] ys = []
  copy (x ∷ xs) [] = x ∷ xs
  copy (x ∷ xs) (y ∷ ys) = y ∷ copy xs ys

  -- `copy(xs[off:], ys)`.
  unfoldable pub copy_at : ℕ → List A → List A → List A
  copy_at zero xs ys = copy xs ys
  copy_at (suc off) [] ys = []
  copy_at (suc off) (x ∷ xs) ys = x ∷ copy_at off xs ys

  -- `xs[off:off+n]`.
  abbrev pub slice : ℕ → ℕ → List A → List A
  slice off n xs = take n (drop off xs)

  copy_nil : (xs : List A) → copy xs [] ≡ xs
  unfolding copy
  copy_nil [] = refl
  copy_nil (x ∷ xs) = refl

  copy-append :
      (xs a b : List A) → length a ≤ length xs → copy_at (length a) (copy xs a) b ≡ copy xs (a ++ b)
  unfolding copy copy_at
  copy-append xs [] b h = ap (λ r. copy r b) (copy_nil xs)
  copy-append [] (y ∷ a) b h = absurd (omega arith)
  copy-append (x ∷ xs) (y ∷ a) b h = ap (λ r. y ∷ r) (copy-append xs a b (omega arith))

  -- Two copies side by side are one.
  pub copy_at-append :
      (o k : ℕ) (xs a b : List A)
      → k ≡ o + length a
      → k ≤ length xs
      → copy_at k (copy_at o xs a) b ≡ copy_at o xs (a ++ b)
  unfolding copy_at
  copy_at-append zero k xs a b e h =
      ap (λ n. copy_at n (copy xs a) b) (omega arith) ∙ copy-append xs a b (omega arith)
  copy_at-append (suc o) zero xs a b e h = absurd (omega arith)
  copy_at-append (suc o) (suc k) [] a b e h = refl
  copy_at-append (suc o) (suc k) (x ∷ xs) a b e h =
      ap (λ r. x ∷ r) (copy_at-append o k xs a b (omega arith) (omega arith))

  pub length-copy : (xs ys : List A) → length (copy xs ys) ≡ length xs
  unfolding copy
  length-copy [] ys = refl
  length-copy (x ∷ xs) [] = refl
  length-copy (x ∷ xs) (y ∷ ys) = ap suc (length-copy xs ys)

  pub length-copy_at : (off : ℕ) (xs ys : List A) → length (copy_at off xs ys) ≡ length xs
  unfolding copy_at
  length-copy_at zero xs ys = length-copy xs ys
  length-copy_at (suc off) [] ys = refl
  length-copy_at (suc off) (x ∷ xs) ys = ap suc (length-copy_at off xs ys)

  take-copy : (n : ℕ) (xs ys : List A) → n ≡ length ys → n ≤ length xs → take n (copy xs ys) ≡ ys
  unfolding copy
  take-copy zero xs [] e h = refl
  take-copy zero xs (y ∷ ys) e h = absurd (omega arith)
  take-copy (suc n) [] ys e h = absurd (omega arith)
  take-copy (suc n) (x ∷ xs) [] e h = absurd (omega arith)
  take-copy (suc n) (x ∷ xs) (y ∷ ys) e h =
      ap (λ r. y ∷ r) (take-copy n xs ys (omega arith) (omega arith))

  -- What was copied in is read back.
  pub slice-copy_at_self :
      (off n : ℕ) (xs ys : List A)
      → n ≡ length ys
      → off + n ≤ length xs
      → slice off n (copy_at off xs ys) ≡ ys
  unfolding copy_at
  slice-copy_at_self zero n xs ys e h = take-copy n xs ys e (omega arith)
  slice-copy_at_self (suc off) zero [] [] e h = refl
  slice-copy_at_self (suc off) zero [] (y ∷ ys) e h = absurd (omega arith)
  slice-copy_at_self (suc off) (suc n) [] ys e h = absurd (omega arith)
  slice-copy_at_self (suc off) n (x ∷ xs) ys e h = slice-copy_at_self off n xs ys e (omega arith)

  pub drop-copy_at :
      (k off : ℕ) (xs ys : List A) → off + length ys ≤ k → drop k (copy_at off xs ys) ≡ drop k xs
  unfolding copy_at copy
  drop-copy_at k zero [] ys h = refl
  drop-copy_at k zero (x ∷ xs) [] h = refl
  drop-copy_at zero zero (x ∷ xs) (y ∷ ys) h = absurd (omega arith)
  drop-copy_at (suc k) zero (x ∷ xs) (y ∷ ys) h = drop-copy_at k zero xs ys (omega arith)
  drop-copy_at k (suc off) [] ys h = refl
  drop-copy_at zero (suc off) (x ∷ xs) ys h = absurd (omega arith)
  drop-copy_at (suc k) (suc off) (x ∷ xs) ys h = drop-copy_at k off xs ys (omega arith)

  pub slice-copy_at_below :
      (o n off : ℕ) (xs ys : List A) → o + n ≤ off → slice o n (copy_at off xs ys) ≡ slice o n xs
  unfolding copy_at
  slice-copy_at_below zero zero off xs ys h = refl
  slice-copy_at_below zero (suc n) zero xs ys h = absurd (omega arith)
  slice-copy_at_below zero (suc n) (suc off) [] ys h = refl
  slice-copy_at_below zero (suc n) (suc off) (x ∷ xs) ys h =
      ap (λ r. x ∷ r) (slice-copy_at_below zero n off xs ys (omega arith))
  slice-copy_at_below (suc o) n zero xs ys h = absurd (omega arith)
  slice-copy_at_below (suc o) n (suc off) [] ys h = refl
  slice-copy_at_below (suc o) n (suc off) (x ∷ xs) ys h =
      slice-copy_at_below o n off xs ys (omega arith)

  pub slice-copy_at_above :
      (o n off : ℕ) (xs ys : List A)
      → off + length ys ≤ o
      → slice o n (copy_at off xs ys) ≡ slice o n xs
  slice-copy_at_above o n off xs ys h = ap (take n) (drop-copy_at o off xs ys h)

  drop_append_within :
      (xs ys : List A) (k : ℕ) → k ≤ length xs → drop k (xs ++ ys) ≡ drop k xs ++ ys
  drop_append_within xs ys zero h = refl
  drop_append_within [] ys (suc k) h = absurd (omega arith)
  drop_append_within (x ∷ xs) ys (suc k) h = drop_append_within xs ys k (omega arith)

  pub slice_append_within :
      (o n : ℕ) (xs ys : List A) → o + n ≤ length xs → slice o n (xs ++ ys) ≡ slice o n xs
  slice_append_within o n xs ys h =
      ap (take n) (drop_append_within xs ys o (omega arith))
      ∙ take_append_within (drop o xs) ys n (omega (arith, length-drop o xs))

  drop_nil : (k : ℕ) → drop {A = A} k [] ≡ []
  drop_nil zero = refl
  drop_nil (suc k) = refl

  pub drop-drop : (a b : ℕ) (xs : List A) → drop a (drop b xs) ≡ drop (b + a) xs
  drop-drop a zero xs = ap (λ k. drop k xs) (omega arith)
  drop-drop a (suc b) [] = drop_nil a ∙ sym (drop_nil (suc b + a))
  drop-drop a (suc b) (x ∷ xs) =
      drop-drop a b xs
      ∙ (let e : suc b + a ≡ suc (b + a) = omega arith in ap (λ k. drop k (x ∷ xs)) (sym e))

pub length-map {ℓ κ} :
    {A : Type ℓ} {B : Type κ} (xs : List A) (f : A → B) → length (map f xs) ≡ length xs
length-map [] f = refl
length-map (x ∷ xs) f = ap suc (length-map xs f)

module _ {ℓ κ} {A : Type ℓ} where
  pub All-append_left : (P : A → Type κ) (xs ys : List A) → All P (xs ++ ys) → All P xs
  All-append_left P [] ys h = tt
  All-append_left P (x ∷ xs) ys h = (h.0, All-append_left P xs ys h.1)

  pub All-append_right : (P : A → Type κ) (xs ys : List A) → All P (xs ++ ys) → All P ys
  All-append_right P [] ys h = h
  All-append_right P (x ∷ xs) ys h = All-append_right P xs ys h.1

  pub All-append : (P : A → Type κ) (xs ys : List A) → All P xs → All P ys → All P (xs ++ ys)
  All-append P [] ys h k = k
  All-append P (x ∷ xs) ys h k = (h.0, All-append P xs ys h.1 k)

  pub All-map : (P Q : A → Type κ) (xs : List A) → ((x : A) → P x → Q x) → All P xs → All Q xs
  All-map P Q [] f h = tt
  All-map P Q (x ∷ xs) f h = (f x h.0, All-map P Q xs f h.1)
