-- ===== src/Btree/Build/Scanned.antt =====
-- `Scan` of a tree that holds given pairs, and of the tree that a bulk load makes.
use zadodb.Prelude.{
  ℕ, ◌+◌, ◌*◌, ◌<◌, ◌^◌, ◌≡◌, refl, sym, ap, ◌∙◌, arith, All, Bool, false, not, ◌&&◌, if◌then◌else◌,
  Bool-cases, inl, inr,
}
use zadodb.Prelude.{List, [], ◌∷◌, length, nat_beq}
use zadodb.Bytes.{Bytes, bytes_lt, IsByte}
use zadodb.Bytes.Sorted.{Sorted}
use zadodb.Errors.{Result, ok, ◌>>=◌}
use zadodb.Page.{invalid_page_id}
use zadodb.Btree.{LeafEntry, prefix_upper}
use zadodb.Btree.Store.{PageStore, Laws}
use zadodb.Btree.Lookup.{below, scan}
use zadodb.Btree.Lookup.Prefix.{starts_with, below-prefix_upper}
use zadodb.Btree.Lookup.Scanned.{
  visits, Outside, visits-stopped, visits-nil, visits-skip, visits-take, walk-Tree,
}
use zadodb.Btree.Build.{bulk_load}
use zadodb.Btree.Build.Table.{Stored, Table}
use zadodb.Btree.Build.Added.{Loadable}
use zadodb.Btree.Build.Found.{leaf_pages, bulk_load-Loaded}

-- The pairs of a prefix in order, up to the one at which the callback says stop.
unfoldable pub scan_pairs :
    {A : Type 0} → (A → Bytes → Bytes → A × Bool) → Bytes → List (Bytes × Bytes) → A → A
scan_pairs fn p [] a = a
scan_pairs fn p ((k, v) ∷ kvs) a =
    let r = fn a k v in
    let skip = scan_pairs fn p kvs a in
    let rest = scan_pairs fn p kvs r.0 in
    if starts_with p k then (if r.1 then rest else r.0) else skip

-- The bounds of the scan tell the keys of the prefix.
abbrev pub Bounded : Bytes → Bytes × Bytes → Type 0
Bounded p kv = (not (bytes_lt kv.0 p) && below kv.0 (prefix_upper p)) ≡ starts_with p kv.0

All-bounds :
    (p : Bytes) (kvs : List (Bytes × Bytes)) → All (λ kv. All IsByte kv.0) kvs → All (Bounded p) kvs
All-bounds p [] h = tt
All-bounds p (kv ∷ kvs) h = (below-prefix_upper p kv.0 h.0, All-bounds p kvs h.1)

module _ {S A : Type 0} (st : PageStore S) (rounds : ℕ) (fn : A → Bytes → Bytes → A × Bool)
    (p : Bytes) (s : S) where
  -- The state at the end of the entries.
  abbrev ends : List LeafEntry → A → Bool → Result A
  ends es a stopped = (visits st rounds fn p (prefix_upper p) s es a stopped >>= λ r. ok r.0)

  visits-Stored :
      (es : List LeafEntry) (kvs : List (Bytes × Bytes)) (a : A)
      → Stored st rounds s es kvs
      → All (Bounded p) kvs
      → ends es a false ≡ ok (scan_pairs fn p kvs a)
  unfolding scan_pairs Outside
  visits-Stored [] [] a h b = rw (visits-nil st rounds fn p (prefix_upper p) s a) refl
  visits-Stored [] (kv ∷ kvs) a h b = absurd h
  visits-Stored (e ∷ es) [] a h b = absurd h
  visits-Stored (e ∷ es) ((k, v) ∷ kvs) a (same, value, h) (byte, b) =
      let within : (not (bytes_lt e.key p) && below e.key (prefix_upper p)) ≡ starts_with p k =
        rw same byte in
      elim (Bool-cases (starts_with p k)) [
        | inr other ↦
            rw (other, visits-skip st rounds fn p (prefix_upper p) s e es a (within ∙ other))
              (visits-Stored es kvs a h b)
        | inl hit ↦
            rw
              (
                hit,
                visits-take st rounds fn p (prefix_upper p) s e es a v (within ∙ hit) value,
                same,
              )
              (elim (Bool-cases (fn a k v).1) [
                | inl more ↦ rw more (visits-Stored es kvs (fn a k v).0 h b)
                | inr stop ↦
                    rw (stop, visits-stopped st rounds fn p (prefix_upper p) s es (fn a k v).0) refl
              ])
      ]

  pub scan-Table :
      (kvs : List (Bytes × Bytes)) (root : ℕ) (w : Table st rounds s kvs root) (fuel : ℕ) (a : A)
      → w.height < fuel
      → All (Bounded p) kvs
      → scan st rounds fn fuel s root p a ≡ ok (scan_pairs fn p kvs a)
  unfolding scan
  scan-Table kvs root w fuel a lt b = elim w.tree [
    | inl (empty, none_there) ↦
        let nothing : Stored st rounds s [] kvs = rw⁻¹ empty w.stored in
        rw none_there (
          sym (ap (λ r. r >>= λ q. ok q.0) (visits-nil st rounds fn p (prefix_upper p) s a))
          ∙ visits-Stored [] kvs a nothing b)
    | inr (page, tree) ↦
        let real : nat_beq root invalid_page_id ≡ false = ground arith in
        rw (real, walk-Tree st rounds fn p (prefix_upper p) s fuel a lt tree)
          (visits-Stored w.entries kvs a w.stored b)
  ]

module _ {S A : Type 0} {st : PageStore S} (laws : Laws st) (rounds : ℕ) where
  -- A scan of the tree that a bulk load made of such pairs, with keys of bytes, on more fuel than there are pairs,
  -- calls its callback on exactly the pairs whose keys start with the prefix, in order of their keys, with
  -- the state that the call before left, until a call says stop.
  pub scan-bulk_load :
      (fn : A → Bytes → Bytes → A × Bool) (s : S) (kvs : List (Bytes × Bytes)) (fuel : ℕ)
      (p : Bytes) (a : A)
      → laws.Valid s
      → Sorted kvs
      → All (Loadable laws rounds) kvs
      → All (λ kv. All IsByte kv.0) kvs
      → laws.next s + 3 * leaf_pages kvs + 1 < 2 ^ 64
      → length kvs < fuel
      → (root : ℕ) × (s' : S) × (bulk_load st s kvs ≡ ok (root, s'))
        × (scan st rounds fn fuel s' root p a ≡ ok (scan_pairs fn p kvs a))
  scan-bulk_load fn s kvs fuel p a v o l b room enough =
      let (root, s', run, w) = bulk_load-Loaded laws rounds s kvs v o l room in
      (
        root,
        s',
        run,
        scan-Table st rounds fn p s' kvs root w.table fuel a (omega (arith, w.table.low))
            (All-bounds p kvs b),
      )
