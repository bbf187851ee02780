-- ===== src/Mvcc/Current.antt =====
-- The current snapshot stays mapped under every interleaving.
use zadodb.Prelude.{
  update, ℕ, ◌<◌, ◌≤◌, ◌≡◌, refl, arith, nat_beq, Bool, true, false, Bool-cases, inl, inr,
}
use zadodb.Mvcc.{
  Shared, Reader, idle, loaded, added, holding, dropping, checking, unmapping, Swapper, resting,
  swapped, marked, dismissing, System, retire, install, dropped, checked, tested, Move, loads, adds,
  keeps, retries, releases, drops, checks, closes, SwapMove, swaps_in, marks, tests, dismisses,
  Step, reads, swaps, opened, Reach, start, later,
}

-- A reader unmaps retired snapshots alone, and `SwapTo` ones that are no longer current.
abbrev Unmaps : Shared → Reader → Type 0
Unmaps m (unmapping s) = m.retired s ≡ true
Unmaps m p = Unit

abbrev Replaces : Shared → Swapper → Type 0
Replaces m resting = Unit
Replaces m (swapped s) = s < m.current
Replaces m (marked s) = (s < m.current) × (m.retired s ≡ true)
Replaces m (dismissing s) = (s < m.current) × (m.retired s ≡ true)

pub record Sound (x : System) : Type 0 where
  pub fresh : (s : ℕ) → x.shared.current ≤ s → x.shared.retired s ≡ false
  pub alive : x.shared.mapped x.shared.current ≡ true
  pub readers : (i : ℕ) → Unmaps x.shared (x.readers i)
  pub swapper : Replaces x.shared x.swapper

Sound-opened : Sound opened
Sound-opened = record { fresh = λ s le. refl; alive = refl; readers = λ i. tt; swapper = tt }

module _ (x : System) (w : Sound x) where
  Unmaps-old : (s : ℕ) → x.shared.retired s ≡ true → s < x.shared.current
  Unmaps-old s r = let f = w.fresh s in ground (arith, f, r)

  -- A move of a reader changes no mark, and unmaps retired snapshots alone.
  Move-Sound :
      {m : Shared} {p q : Reader}
      → Unmaps x.shared p
      → Move x.shared p m q
      → (m.current ≡ x.shared.current)
        × (m.retired ≡ x.shared.retired)
        × (m.mapped m.current ≡ true)
        × Unmaps x.shared q
  Move-Sound u loads = (refl, refl, w.alive, tt)
  Move-Sound u (adds s) = (refl, refl, w.alive, tt)
  Move-Sound u (keeps s e) = (refl, refl, w.alive, tt)
  Move-Sound u (retries s e) = (refl, refl, w.alive, tt)
  Move-Sound u (releases s) = (refl, refl, w.alive, tt)
  Move-Sound u (drops s) = (refl, refl, w.alive, quiet (x.shared.refs s))
    where
      quiet : (n : ℕ) → Unmaps x.shared (dropped s n)
      quiet n = elim (Bool-cases (nat_beq n 1)) [ inl last ↦ rw last tt | inr more ↦ rw more tt ]
  Move-Sound u (checks s) = (refl, refl, w.alive, seen (x.shared.retired s) refl)
    where
      seen : (b : Bool) → x.shared.retired s ≡ b → Unmaps x.shared (checked s b)
      seen true e = e
      seen false e = tt
  Move-Sound u (closes s) =
      let old = Unmaps-old s u in
      let alive = w.alive in (refl, refl, ground (arith, old, alive), tt)

Unmaps-more :
    (m n : Shared) (p : Reader)
    → ((s : ℕ) → m.retired s ≡ true → n.retired s ≡ true)
    → Unmaps m p
    → Unmaps n p
Unmaps-more m n (unmapping s) h u = h s u
Unmaps-more m n idle h u = tt
Unmaps-more m n (loaded s) h u = tt
Unmaps-more m n (added s) h u = tt
Unmaps-more m n (holding s) h u = tt
Unmaps-more m n (dropping s) h u = tt
Unmaps-more m n (checking s) h u = tt

Replaces-same :
    (m n : Shared) (p : Swapper)
    → n.current ≡ m.current
    → n.retired ≡ m.retired
    → Replaces m p
    → Replaces n p
Replaces-same m n resting e f r = tt
Replaces-same m n (swapped s) e f r = rw e r
Replaces-same m n (marked s) e f r = rw (e, f) r
Replaces-same m n (dismissing s) e f r = rw (e, f) r

updated :
    (m : Shared) (f : ℕ → Reader) (i k : ℕ) (q : Reader)
    → Unmaps m q
    → Unmaps m (f k)
    → Unmaps m (update f i q k)
updated m f i k q new old = elim (Bool-cases (nat_beq k i)) [
  | inl same ↦ rw same new
  | inr other ↦ rw other old
]

reads-Sound :
    (x : System) (i : ℕ) (m : Shared) (p q : Reader)
    → Sound x
    → x.readers i ≡ p
    → Move x.shared p m q
    → Sound (record x { shared = m; readers = update x.readers i q })
reads-Sound x i m p q w e mv =
    let u : Unmaps x.shared p = rw (← e) (w.readers i) in
    let (cur, old, alive, new) = Move-Sound x w u mv in
    let carry : (r : Reader) → Unmaps x.shared r → Unmaps m r =
      λ r h. Unmaps-more x.shared m r (λ s t. rw old t) h in
    record {
      fresh = λ s le. rw old (w.fresh s (rw (← cur) le));
      alive = alive;
      readers = λ k. updated m x.readers i k q (carry q new) (carry (x.readers k) (w.readers k));
      swapper = Replaces-same x.shared m x.swapper cur old w.swapper;
    }

swap-Sound :
    (x : System) (m : Shared) (p q : Swapper)
    → Sound x
    → Replaces x.shared p
    → SwapMove x.shared p m q
    → Sound (record x { shared = m; swapper = q })
swap-Sound x _ _ _ w u swaps_in =
    let n = x.shared.current in
    record {
      fresh = λ s le. let f = w.fresh s in ground (arith, f, le);
      alive = ground arith;
      readers = λ k.
          Unmaps-more x.shared (install x.shared) (x.readers k)
            (λ s t. let old = Unmaps-old x w s t in ground (arith, old, t)) (w.readers k);
      swapper = omega arith;
    }
swap-Sound x _ _ _ w u (marks s) = record {
  fresh = λ t le. let f = w.fresh t in ground (arith, f, le, u);
  alive = w.alive;
  readers = λ k.
      Unmaps-more x.shared (retire x.shared s) (x.readers k) (λ t h. ground (arith, h))
        (w.readers k);
  swapper = (u, ground arith);
}
swap-Sound x _ _ _ w u (tests s) = record {
  fresh = w.fresh;
  alive = w.alive;
  readers = w.readers;
  swapper = quiet (x.shared.refs s);
}
  where
    quiet : (n : ℕ) → Replaces x.shared (tested s n)
    quiet n = elim (Bool-cases (nat_beq n 0)) [ inl last ↦ rw last u | inr more ↦ rw more tt ]
swap-Sound x _ _ _ w u (dismisses s) = record {
  fresh = w.fresh;
  alive = let alive = w.alive in ground (arith, alive, u.0);
  readers = w.readers;
  swapper = tt;
}

Step-Sound : (x y : System) → Sound x → Step x y → Sound y
Step-Sound x _ w (reads i {m = m} {p = p} {q = q} e mv) = reads-Sound x i m p q w e mv
Step-Sound x _ w (swaps {m = m} {p = p} {q = q} e mv) = swap-Sound x m p q w (rw (← e) w.swapper) mv

Reach-Sound : (y : System) → Reach opened y → Sound y
Reach-Sound _ start = Sound-opened
Reach-Sound y (later {y = z} r s) = Step-Sound z y (Reach-Sound z r) s

-- After any interleaving of readers and swaps from `Open` on, the current snapshot is mapped and not
-- retired, so what `Acquire` returns is mapped when it returns, and a snapshot was retired only if a
-- newer one is current.
pub current-mapped :
    (y : System)
    → Reach opened y
    → (y.shared.mapped y.shared.current ≡ true)
      × (y.shared.retired y.shared.current ≡ false)
      × ((s : ℕ) → y.shared.retired s ≡ true → s < y.shared.current)
current-mapped y r =
    let w = Reach-Sound y r in (w.alive, w.fresh y.shared.current (omega arith), Unmaps-old y w)
