-- ===== src/Prelude/Dict.antt =====
-- Go's maps, as association lists: at most one entry is ever read for a key.
use mathlib.Core.Path.{◌≡◌}
use mathlib.Core.Option.{Option, none, some}
use mathlib.Core.List.{List, [], ◌∷◌}
use native.Mathlib.Omega.{arith}
use zadodb.Prelude.Tests.{if◌then◌else◌}
use zadodb.Prelude.Equality.{Eq, ◌==◌}

abbrev pub Dict {ℓ κ} : Type ℓ → Type κ → Type (ℓ ⊔ κ)
Dict K V = List (K × V)

module _ {ℓ κ} {K : Type ℓ} {V : Type κ} ⦃e : Eq K⦄ where
  -- `v, ok := m[k]`.
  unfoldable pub find : K → Dict K V → Option V
  find k [] = none
  find k ((j, v) ∷ m) = if j == k then some v else find k m

  -- `delete(m, k)`.
  unfoldable pub remove : K → Dict K V → Dict K V
  remove k [] = []
  remove k ((j, v) ∷ m) = let rest = remove k m in if j == k then rest else (j, v) ∷ rest

  -- `m[k] = v`.
  unfoldable pub put : K → V → Dict K V → Dict K V
  put k v m = (k, v) ∷ remove k m

  pub find-remove :
      (k j : K) (m : Dict K V) → find j (remove k m) ≡ (if k == j then none else find j m)
  unfolding find remove
  find-remove k j [] = ground arith
  find-remove k j ((i, v) ∷ m) =
      ground (arith, find-remove k j m, e.beq_iff i k, e.beq_iff i j, e.beq_iff k j)

  pub find-put :
      (k j : K) (v : V) (m : Dict K V) → find j (put k v m) ≡ (if k == j then some v else find j m)
  unfolding find put
  find-put k j v m = ground (arith, find-remove k j m)
