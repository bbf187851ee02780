-- ===== src/Bytes/Order.antt =====
-- `compare_bytes` is a total order whose equality is equality of byte strings.
use zadodb.Prelude.{Ordering, ◌≡◌, refl, ◌↔◌, true, arith}
use zadodb.Prelude.{[], ◌∷◌, ◌++◌, Eq}
use zadodb.Bytes.{Bytes, compare_bytes, bytes_beq}

abbrev pub flip : Ordering → Ordering
flip Ordering.lt = Ordering.gt
flip Ordering.eq = Ordering.eq
flip Ordering.gt = Ordering.lt

pub compare_bytes_self : (a : Bytes) → compare_bytes a a ≡ Ordering.eq
unfolding compare_bytes
compare_bytes_self [] = refl
compare_bytes_self (x ∷ xs) = ground (arith, compare_bytes_self xs)

pub compare_bytes-flip : (a b : Bytes) → compare_bytes b a ≡ flip (compare_bytes a b)
unfolding compare_bytes
compare_bytes-flip [] [] = refl
compare_bytes-flip [] (y ∷ ys) = refl
compare_bytes-flip (x ∷ xs) [] = refl
compare_bytes-flip (x ∷ xs) (y ∷ ys) = ground (arith, compare_bytes-flip xs ys)

pub eq_of_compare_bytes : (a b : Bytes) → compare_bytes a b ≡ Ordering.eq → a ≡ b
unfolding compare_bytes
eq_of_compare_bytes [] [] h = refl
eq_of_compare_bytes [] (y ∷ ys) h = cc
eq_of_compare_bytes (x ∷ xs) [] h = cc
eq_of_compare_bytes (x ∷ xs) (y ∷ ys) h = ground (arith, eq_of_compare_bytes xs ys)

pub compare_bytes_trans :
    (a b c : Bytes)
    → compare_bytes a b ≡ Ordering.lt
    → compare_bytes b c ≡ Ordering.lt
    → compare_bytes a c ≡ Ordering.lt
unfolding compare_bytes
compare_bytes_trans [] [] c h k = cc
compare_bytes_trans [] (y ∷ ys) [] h k = cc
compare_bytes_trans [] (y ∷ ys) (z ∷ zs) h k = refl
compare_bytes_trans (x ∷ xs) [] c h k = cc
compare_bytes_trans (x ∷ xs) (y ∷ ys) [] h k = cc
compare_bytes_trans (x ∷ xs) (y ∷ ys) (z ∷ zs) h k = ground (arith, compare_bytes_trans xs ys zs)

pub bytes_beq_iff : (a b : Bytes) → (bytes_beq a b ≡ true) ↔ (a ≡ b)
bytes_beq_iff a b =
    (λ h. eq_of_compare_bytes a b (ground arith), λ e. ground (arith, e, compare_bytes_self a))

instance abbrev pub bytes_eq : Eq Bytes
bytes_eq = record { beq = bytes_beq; beq_iff = bytes_beq_iff }

-- Strings with a common front compare as what follows it.
pub compare_bytes_front : (p a b : Bytes) → compare_bytes (p ++ a) (p ++ b) ≡ compare_bytes a b
unfolding compare_bytes
compare_bytes_front [] a b = refl
compare_bytes_front (x ∷ p) a b = ground (arith, compare_bytes_front p a b)
