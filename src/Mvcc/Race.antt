-- ===== src/Mvcc/Race.antt =====
-- A release that overlaps an acquire and a swap unmaps a snapshot that is held.
use zadodb.Prelude.{update, ℕ, ◌≡◌, ◌≢◌, refl, ◌∙◌, arith, nat_beq, true, false}
use zadodb.Mvcc.{
  Shared, Reader, idle, loaded, added, holding, dropping, checking, unmapping, Swapper, resting,
  swapped, marked, System, add_ref, drop_ref, retire, unmap, install, Move, loads, adds, keeps,
  releases, drops, checks, closes, SwapMove, swaps_in, marks, tests, reads, swaps, Reach, start,
  later,
}

-- A move of reader `i`, and one of `SwapTo`, to an outcome that is known by an equation.
moved :
    (x y : System) (i : ℕ) (p q r : Reader) (m : Shared)
    → Reach x y
    → y.readers i ≡ p
    → Move y.shared p m r
    → r ≡ q
    → Reach x (record y { shared = m; readers = update y.readers i q })
moved x y i p q r m before e mv out = rw (← out) (later before (reads i e mv))

turned :
    (x y : System) (p q r : Swapper) (m : Shared)
    → Reach x y
    → y.swapper ≡ p
    → SwapMove y.shared p m r
    → r ≡ q
    → Reach x (record y { shared = m; swapper = q })
turned x y p q r m before e mv out = rw (← out) (later before (swaps e mv))

at_self : (f : ℕ → Reader) (i : ℕ) (q : Reader) → update f i q i ≡ q
at_self f i q = let same : nat_beq i i ≡ true = ground arith in rw same refl

at_other : (f : ℕ → Reader) (i k : ℕ) (q : Reader) → nat_beq k i ≡ false → update f i q k ≡ f k
at_other f i k q ne = rw ne refl

-- Where one reader holds the current snapshot alone, and another and `SwapTo` are idle, this can follow:
-- the first counts down to 0; the second acquires the same snapshot; `SwapTo` retires it and leaves it
-- to its last reader; and the first unmaps it under the second.
pub held-unmapped :
    (x : System) (i j : ℕ)
    → i ≢ j
    → x.readers i ≡ holding x.shared.current
    → x.readers j ≡ idle
    → x.shared.refs x.shared.current ≡ 1
    → x.swapper ≡ resting
    → (y : System) × Reach x y
      × (y.readers j ≡ holding x.shared.current)
      × (y.shared.mapped x.shared.current ≡ false)
held-unmapped x i j apart hold free one rest =
    let ne : nat_beq i j ≡ false = ground (arith, apart) in
    let ne' : nat_beq j i ≡ false = ground (arith, apart) in
    let s = x.shared.current in
    let m0 = x.shared in
    let m1 = drop_ref m0 s in
    let m2 = add_ref m1 s in
    let m3 = install m2 in
    let m4 = retire m3 s in
    let m5 = unmap m4 s in
    let f0 = x.readers in
    let f1 = update f0 i (dropping s) in
    let f2 = update f1 i (checking s) in
    let f3 = update f2 j (loaded s) in
    let f4 = update f3 j (added s) in
    let f5 = update f4 j (holding s) in
    let f6 = update f5 i (unmapping s) in
    let f7 = update f6 i idle in
    let x1 : System = record { shared = m0; readers = f1; swapper = resting } in
    let x2 : System = record { shared = m1; readers = f2; swapper = resting } in
    let x3 : System = record { shared = m1; readers = f3; swapper = resting } in
    let x4 : System = record { shared = m2; readers = f4; swapper = resting } in
    let x5 : System = record { shared = m2; readers = f5; swapper = resting } in
    let x6 : System = record { shared = m3; readers = f5; swapper = swapped s } in
    let x7 : System = record { shared = m4; readers = f5; swapper = marked s } in
    let x8 : System = record { shared = m4; readers = f5; swapper = resting } in
    let x9 : System = record { shared = m4; readers = f6; swapper = resting } in
    let r0 : Reach x (record { shared = m0; readers = f0; swapper = resting }) =
      rw (← rest) start in
    let r1 : Reach x x1 = moved x _ i _ _ _ _ r0 hold (releases s) refl in
    let r2 : Reach x x2 =
      moved x x1 i (dropping s) (checking s) _ m1 r1 (at_self f0 i _) (drops s) (rw one refl) in
    let free2 : f2 j ≡ idle = at_other f1 i j _ ne' ∙ at_other f0 i j _ ne' ∙ free in
    let r3 : Reach x x3 = moved x x2 j idle (loaded s) _ m1 r2 free2 loads refl in
    let r4 : Reach x x4 =
      moved x x3 j (loaded s) (added s) _ m2 r3 (at_self f2 j _) (adds s) refl in
    let r5 : Reach x x5 =
      moved x x4 j (added s) (holding s) _ m2 r4 (at_self f3 j _) (keeps s refl) refl in
    let r6 : Reach x x6 = turned x x5 resting (swapped s) _ m3 r5 refl swaps_in refl in
    let r7 : Reach x x7 = turned x x6 (swapped s) (marked s) _ m4 r6 refl (marks s) refl in
    let counted : m4.refs s ≡ 1 = ground (arith, one) in
    let r8 : Reach x x8 = turned x x7 (marked s) resting _ m4 r7 refl (tests s) (rw counted refl) in
    let still : f5 i ≡ checking s =
      at_other f4 j i _ ne ∙ at_other f3 j i _ ne ∙ at_other f2 j i _ ne ∙ at_self f1 i _ in
    let gone : m4.retired s ≡ true = ground arith in
    let r9 : Reach x x9 =
      moved x x8 i (checking s) (unmapping s) _ m4 r8 still (checks s) (rw gone refl) in
    (
      record { shared = m5; readers = f7; swapper = resting },
      moved x x9 i (unmapping s) idle _ m5 r9 (at_self f5 i _) (closes s) refl,
      at_other f6 i j _ ne' ∙ at_other f5 i j _ ne' ∙ at_self f4 j _,
      ground arith,
    )
