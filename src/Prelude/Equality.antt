-- ===== src/Prelude/Equality.antt =====
-- A Boolean test for equality, as an interface.
use Prim.Native.Nat.{ℕ}
use mathlib.Core.Path.{◌≡◌, refl}
use mathlib.Core.Logic.{◌↔◌}
use mathlib.Core.Bool.{Bool, true}
use zadodb.Prelude.Tests.{nat_beq, nat_beq_iff}

-- `beq_iff`: the test decides the path type.
pub record Eq {ℓ} (X : Type ℓ) : Type ℓ where
  pub beq : X → X → Bool
  pub beq_iff : (x y : X) → (beq x y ≡ true) ↔ (x ≡ y)

instance abbrev pub nat_eq : Eq ℕ
nat_eq = record { beq = nat_beq; beq_iff = nat_beq_iff }

infix 50 ◌==◌
abbrev pub ◌==◌ {ℓ} : {K : Type ℓ} ⦃eq : Eq K⦄ (x y : K) → Bool
◌==◌ ⦃eq⦄ x y = eq.beq x y

pub eq_self {ℓ} : {K : Type ℓ} ⦃eq : Eq K⦄ (x : K) → (x == x) ≡ true
eq_self ⦃eq⦄ x = (eq.beq_iff x x).1 refl
