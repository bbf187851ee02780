-- ===== src/Engine/Prune.antt =====
-- `Checkpoint` of internal/storage/engine.go: the overlay loses what was folded into the new snapshot.
use zadodb.Prelude.{ℕ, ◌≤◌, ◌≡◌, refl, arith, leb, if◌then◌else◌, true, All, [], ◌∷◌}
use zadodb.Prelude.Dict.{Dict}
use zadodb.Bytes.{Bytes}
use zadodb.Engine.{OverlayVal}

unfoldable pub prune : ℕ → Dict Bytes OverlayVal → Dict Bytes OverlayVal
prune folded [] = []
prune folded ((k, v) ∷ m) =
    let rest = prune folded m in if leb v.tx folded then rest else (k, v) ∷ rest

-- Every entry of the overlay is of a transaction up to `last`.
abbrev pub Within : ℕ → Dict Bytes OverlayVal → Type 0
Within last overlay = All (λ p. p.1.tx ≤ last) overlay

pub prune-Within : (last : ℕ) (m : Dict Bytes OverlayVal) → Within last m → prune last m ≡ []
unfolding prune
prune-Within last [] h = refl
prune-Within last ((k, v) ∷ m) h =
    let old : leb v.tx last ≡ true = let le = h.0 in ground (arith, le) in
    rw old (prune-Within last m h.1)
