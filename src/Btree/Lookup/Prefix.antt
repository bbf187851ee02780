-- ===== src/Btree/Lookup/Prefix.antt =====
-- The bounds of a prefix scan: from the prefix itself to below `prefixUpper`.
use zadodb.Prelude.{◌≡◌, refl, arith, All, Bool, true, false, not, ◌&&◌, nat_beq, inl, inr}
use zadodb.Prelude.{[], ◌∷◌, Option-cases}
use zadodb.Bytes.{Bytes, IsByte, bytes_lt, compare_bytes}
use zadodb.Btree.{prefix_upper}
use zadodb.Btree.Lookup.{below}

abbrev pub starts_with : Bytes → Bytes → Bool
starts_with [] k = true
starts_with (b ∷ bs) [] = false
starts_with (b ∷ bs) (c ∷ cs) = nat_beq b c && starts_with bs cs

-- A key of bytes is in the bounds of a prefix exactly when it starts with the prefix.
pub below-prefix_upper :
    (p k : Bytes)
    → All IsByte k
    → (not (bytes_lt k p) && below k (prefix_upper p)) ≡ starts_with p k
unfolding compare_bytes prefix_upper
below-prefix_upper [] [] h = refl
below-prefix_upper [] (c ∷ cs) h = refl
below-prefix_upper (b ∷ bs) [] h = refl
below-prefix_upper (b ∷ bs) (c ∷ cs) (hc, h) = elim (Option-cases (prefix_upper bs)) [
  | inl whole ↦ ground (arith, whole, below-prefix_upper bs cs h, short cs)
  | inr (up, part) ↦ ground (arith, part, below-prefix_upper bs cs h)
]
  where
    short : (cs : Bytes) → bytes_lt cs [] ≡ false
    short [] = refl
    short (c ∷ cs) = refl
