-- ===== src/Btree/Lookup/Scanned.antt =====
-- `Scan` of a tree visits its entries in order, those of the prefix alone, until the callback stops it.
use zadodb.Prelude.{
  ℕ, zero, suc, ◌<◌, ◌≡◌, refl, sym, ap, ◌∙◌, arith, All, All-map, All-append_left, Bool, true,
  false, not, ◌&&◌, Bool-cases, inl, inr,
}
use zadodb.Prelude.{Option, none, some, List, [], ◌∷◌, ◌++◌, drop, append-nil}
use zadodb.Bytes.{Bytes, bytes_lt}
use zadodb.Bytes.Order.{compare_bytes-flip, compare_bytes_trans, eq_of_compare_bytes}
use zadodb.Errors.{Result, ok, err, ◌>>=◌, Result-cases}
use zadodb.Btree.{LeafEntry}
use zadodb.Btree.Store.{PageStore}
use zadodb.Btree.Overflow.{materialize}
use zadodb.Btree.Lookup.{
  below, first_sep, visit, walk_entries, ends_below, starts_above, walk_children, walk,
}
use zadodb.Btree.Lookup.Shape.{
  Tree, tree_leaf, tree_node, Forest, last_child, next_child, AllBelow, AllFrom,
}

module _ {S A : Type 0} (st : PageStore S) (rounds : ℕ) (fn : A → Bytes → Bytes → A × Bool)
    (lo : Bytes) (hi : Option Bytes) (s : S) where
  unfoldable pub visits : List LeafEntry → A → Bool → Result (A × Bool)
  visits es a stopped = walk_entries st rounds fn lo hi s es a stopped

  -- An entry that the scan passes over.
  unfoldable pub Outside : LeafEntry → Type 0
  Outside e = (not (bytes_lt e.key lo) && below e.key hi) ≡ false

  pub visits-stopped : (es : List LeafEntry) (a : A) → visits es a true ≡ ok (a, true)
  unfolding visits walk_entries
  visits-stopped [] a = refl
  visits-stopped (e ∷ es) a = refl

  visits-Outside :
      (es : List LeafEntry) (a : A) (stopped : Bool)
      → All Outside es
      → visits es a stopped ≡ ok (a, stopped)
  unfolding visits walk_entries Outside
  visits-Outside [] a true h = refl
  visits-Outside [] a false h = refl
  visits-Outside (e ∷ es) a true h = refl
  visits-Outside (e ∷ es) a false h = elim (Bool-cases (bytes_lt e.key lo)) [
    | inl under ↦ rw under (visits-Outside es a false h.1)
    | inr in_it ↦
        let over : below e.key hi ≡ false = ground (arith, in_it, h.0) in
        rw (in_it, over) (visits-Outside es a false h.1)
  ]

  visits-append :
      (es fs : List LeafEntry) (a : A) (stopped : Bool)
      → visits (es ++ fs) a stopped ≡ (visits es a stopped >>= λ r. visits fs r.0 r.1)
  unfolding visits walk_entries
  visits-append [] fs a true = refl
  visits-append [] fs a false = refl
  visits-append (e ∷ es) fs a true = sym (visits-stopped fs a)
  visits-append (e ∷ es) fs a false = elim (Bool-cases (bytes_lt e.key lo)) [
    | inl under ↦ rw under (visits-append es fs a false)
    | inr in_it ↦ elim (Bool-cases (below e.key hi)) [
      | inr over ↦ rw (in_it, over) (visits-append es fs a false)
      | inl within ↦ elim (Result-cases (visit st rounds fn lo hi s e a)) [
        | inl (r, run) ↦ rw (in_it, within, run) (visits-append es fs r.0 r.1)
        | inr (z, bad) ↦ rw (in_it, within, bad) refl
      ]
    ]
  ]

  -- No entry of a forest is below the separator before it.
  Since : Option Bytes → List LeafEntry → Type 0
  Since none es = Unit
  Since (some k) es = AllFrom k es

  -- A child that is passed over has only entries that the scan passes over.
  ends_below-Outside :
      (k : Bytes) (ks : List Bytes) (es : List LeafEntry)
      → ends_below st rounds fn lo hi (k ∷ ks) ≡ true
      → AllBelow k es
      → All Outside es
  unfolding ends_below Outside
  ends_below-Outside k ks es h b =
      All-map (λ e. bytes_lt e.key k ≡ true)
        (λ e. (not (bytes_lt e.key lo) && below e.key hi) ≡ false) es
        (λ e lt. ground (
          arith,
          lt,
          compare_bytes_trans e.key k lo,
          eq_of_compare_bytes k lo,
          compare_bytes-flip lo k,
        ))
        b

  starts_above-Outside :
      (before : Option Bytes) (es : List LeafEntry)
      → starts_above st rounds fn lo hi before ≡ true
      → Since before es
      → All Outside es
  unfolding starts_above Outside Since
  starts_above-Outside none es h b = absurd (ground arith)
  starts_above-Outside (some k) es h b =
      All-map (λ e. bytes_lt e.key k ≡ false)
        (λ e. (not (bytes_lt e.key lo) && below e.key hi) ≡ false) es (λ e ge. past e k hi h ge) b
    where
      past :
          (e : LeafEntry) (k : Bytes) (up : Option Bytes)
          → not (below k up) ≡ true
          → bytes_lt e.key k ≡ false
          → (not (bytes_lt e.key lo) && below e.key up) ≡ false
      past e k none h ge = cc
      past e k (some up) h ge = ground (
        arith,
        ge,
        compare_bytes_trans k e.key up,
        compare_bytes-flip k e.key,
        eq_of_compare_bytes k e.key,
        eq_of_compare_bytes e.key k,
      )

  Since-left :
      (before : Option Bytes) (es fs : List LeafEntry) → Since before (es ++ fs) → Since before es
  unfolding Since
  Since-left none es fs h = tt
  Since-left (some k) es fs h = All-append_left (λ e. bytes_lt e.key k ≡ false) es fs h

  -- A child that is passed over, and then the rest.
  passed :
      (es fs : List LeafEntry) (a : A) (r : Result (A × Bool))
      → All Outside es
      → r ≡ visits fs a false
      → r ≡ visits (es ++ fs) a false
  passed es fs a r o ih =
      ih ∙ sym (visits-append es fs a false ∙ rw (visits-Outside es a false o) refl)

  -- A child that is walked, and then the rest.
  entered :
      (es fs : List LeafEntry) (a : A) (m : Result (A × Bool)) (rest : A → Bool → Result (A × Bool))
      → m ≡ visits es a false
      → ((a' : A) (b : Bool) → rest a' b ≡ visits fs a' b)
      → (m >>= λ r. rest r.0 r.1) ≡ visits (es ++ fs) a false
  entered es fs a m rest h ih = rw (visits-append es fs a false, h) (join (visits es a false))
    where
      join : (n : Result (A × Bool)) → (n >>= λ r. rest r.0 r.1) ≡ (n >>= λ r. visits fs r.0 r.1)
      join (err z) = refl
      join (ok r) = ih r.0 r.1

  -- One child and then the rest, whatever the call on a child is.
  child_visits :
      (call : ℕ → A → Result (A × Bool)) (before : Option Bytes) (ks : List Bytes) (c : ℕ)
      (cs : List ℕ) (es fs : List LeafEntry) (a : A)
      → (ends_below st rounds fn lo hi ks ≡ true → All Outside es)
      → (starts_above st rounds fn lo hi before ≡ true → All Outside es)
      → call c a ≡ visits es a false
      → ((a' : A) (b : Bool)
          → walk_children st rounds fn lo hi call (first_sep ks) (drop 1 ks) cs a' b
            ≡ visits fs a' b)
      → walk_children st rounds fn lo hi call before ks (c ∷ cs) a false ≡ visits (es ++ fs) a false
  unfolding walk_children
  child_visits call before ks c cs es fs a under over h rest =
      elim (Bool-cases (ends_below st rounds fn lo hi ks)) [
        | inl u ↦ rw u (passed es fs a _ (under u) (rest a false))
        | inr u ↦ elim (Bool-cases (starts_above st rounds fn lo hi before)) [
          | inl o ↦ rw (u, o) (passed es fs a _ (over o) (rest a false))
          | inr o ↦
              rw (u, o)
                (entered es fs a (call c a)
                  (λ a' b. walk_children st rounds fn lo hi call (first_sep ks) (drop 1 ks) cs a' b)
                  h rest)
        ]
      ]

  no_children :
      (call : ℕ → A → Result (A × Bool)) (before : Option Bytes) (ks : List Bytes) (a : A)
      (b : Bool)
      → walk_children st rounds fn lo hi call before ks [] a b ≡ visits [] a b
  unfolding walk_children visits walk_entries
  no_children call before ks a true = refl
  no_children call before ks a false = refl

  stopped_children :
      (call : ℕ → A → Result (A × Bool)) (before : Option Bytes) (ks : List Bytes) (cs : List ℕ)
      (es : List LeafEntry) (a : A)
      → walk_children st rounds fn lo hi call before ks cs a true ≡ visits es a true
  unfolding walk_children
  stopped_children call before ks cs es a = sym (visits-stopped es a)

  ends_below-none : (es : List LeafEntry) → ends_below st rounds fn lo hi [] ≡ true → All Outside es
  unfolding ends_below
  ends_below-none es h = absurd (ground arith)

  visits-Forest :
      (call : ℕ → A → Result (A × Bool)) {h : ℕ} {cs : List ℕ} {ks : List Bytes}
      {es : List LeafEntry} (before : Option Bytes) (a : A) (stopped : Bool)
      → ((c : ℕ) (sub : List LeafEntry) (b : A) → Tree st s h c sub → call c b ≡ visits sub b false)
      → Since before es
      → Forest st s h cs ks es
      → walk_children st rounds fn lo hi call before ks cs a stopped ≡ visits es a stopped
  visits-Forest call {h} {cs} {ks} {es} before a true each since f =
      stopped_children call before ks cs es a
  visits-Forest call before a false each since (last_child {c = c} {es = es} t) =
      let whole =
        child_visits call before [] c [] es [] a (ends_below-none es)
          (λ o. starts_above-Outside before es o since) (each c es a t)
          (no_children call none []) in
      whole ∙ ap (λ r. visits r a false) (append-nil es)
  visits-Forest call {h} before a false each since
        (next_child {c = c} {cs = cs} {k = k} {ks = ks} {es = es} {fs = fs} {all = all} t b fr e
          more) =
      child_visits call before (k ∷ ks) c cs es fs a (λ u. ends_below-Outside k ks es u b)
        (λ o. starts_above-Outside before es o (Since-left before es fs (rw⁻¹ e since)))
        (each c es a t)
        (λ a' stop.
          visits-Forest call {h = h} {cs = cs} {ks = ks} {es = fs} (some k) a' stop each
            (unfold Since in fr) more)
      ∙ ap (λ r. visits r a false) (sym e)

  -- On more fuel than the height of the tree, the walk is a walk over its entries.
  pub walk-Tree :
      (f : ℕ) {h id : ℕ} {es : List LeafEntry} (a : A)
      → h < f
      → Tree st s h id es
      → walk st rounds fn lo hi f s id a ≡ visits es a false
  unfolding walk visits Since
  walk-Tree zero a lt t = absurd (omega arith)
  walk-Tree (suc f) a lt (tree_leaf read order) = rw read refl
  walk-Tree (suc f) a lt (tree_node {h = h} read fr) = rw read (
      visits-Forest (walk st rounds fn lo hi f s) none a false
        (λ c sub b t. walk-Tree f {h = h} {id = c} {es = sub} b (omega arith) t) tt fr)

  pub visits-nil : (a : A) → visits [] a false ≡ ok (a, false)
  unfolding visits walk_entries
  visits-nil a = refl

  pub visits-skip :
      (e : LeafEntry) (es : List LeafEntry) (a : A)
      → Outside e
      → visits (e ∷ es) a false ≡ visits es a false
  unfolding visits walk_entries Outside
  visits-skip e es a o = ground (arith, o)

  pub visits-take :
      (e : LeafEntry) (es : List LeafEntry) (a : A) (v : Bytes)
      → (not (bytes_lt e.key lo) && below e.key hi) ≡ true
      → materialize st rounds s e ≡ ok v
      → visits (e ∷ es) a false ≡ visits es (fn a e.key v).0 (not (fn a e.key v).1)
  unfolding visits walk_entries visit
  visits-take e es a v i m =
      let from : bytes_lt e.key lo ≡ false = ground (arith, i) in
      let under : below e.key hi ≡ true = ground (arith, i) in rw (from, under, m) refl
