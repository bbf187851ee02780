-- ===== src/Bytes/Sorted.antt =====
-- Lists of pairs that are sorted by keys that are byte strings.
use zadodb.Prelude.{◌==◌, true, false, Option, none, some, [], ◌∷◌, ◌++◌, All}
use zadodb.Prelude.{◌≡◌, refl, arith}
use zadodb.Prelude.Dict.{Dict, find}
use zadodb.Bytes.{Bytes, bytes_lt}
use zadodb.Bytes.Order.{bytes_eq, compare_bytes-flip, compare_bytes_trans, eq_of_compare_bytes}

-- Sorted by key, each key once.
abbrev pub Above : {V : Type 0} → Bytes → Dict Bytes V → Type 0
Above k = All (λ x. bytes_lt k x.0 ≡ true)

abbrev pub Sorted : {V : Type 0} → Dict Bytes V → Type 0
Sorted [] = Unit
Sorted (x ∷ xs) = Above x.0 xs × Sorted xs

abbrev pub or_else : {A : Type 0} → Option A → Option A → Option A
or_else none b = b
or_else (some a) b = some a

pub lt-ne : (a b : Bytes) → bytes_lt a b ≡ true → (b == a) ≡ false
lt-ne a b h = ground (arith, compare_bytes-flip a b)

pub lt_trans : (a b c : Bytes) → bytes_lt a b ≡ true → bytes_lt b c ≡ true → bytes_lt a c ≡ true
lt_trans a b c h k = ground (arith, compare_bytes_trans a b c)

pub lt-from : (a b c : Bytes) → bytes_lt a b ≡ true → bytes_lt c b ≡ false → bytes_lt a c ≡ true
lt-from a b c h k =
    ground (arith, compare_bytes-flip c b, compare_bytes_trans a b c, eq_of_compare_bytes c b)

pub Above-trans :
    {V : Type 0} (a b : Bytes) (xs : Dict Bytes V) → bytes_lt a b ≡ true → Above b xs → Above a xs
Above-trans a b [] h k = tt
Above-trans a b (x ∷ xs) h k = (lt_trans a b x.0 h k.0, Above-trans a b xs h k.1)

pub find-Above : {V : Type 0} (key : Bytes) (xs : Dict Bytes V) → Above key xs → find key xs ≡ none
unfolding find
find-Above key [] h = refl
find-Above key (x ∷ xs) h = rw (lt-ne key x.0 h.0) (find-Above key xs h.1)

pub find-append :
    {V : Type 0} (key : Bytes) (xs ys : Dict Bytes V)
    → find key (xs ++ ys) ≡ or_else (find key xs) (find key ys)
unfolding find
find-append key [] ys = refl
find-append key (x ∷ xs) ys = ground (arith, find-append key xs ys)

pub lt-other : (a b : Bytes) → bytes_lt b a ≡ false → (b == a) ≡ false → bytes_lt a b ≡ true
lt-other a b h n = ground (arith, compare_bytes-flip b a)
