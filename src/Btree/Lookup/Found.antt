-- ===== src/Btree/Lookup/Found.antt =====
-- `Get` finds in a tree what a search of its sorted list of entries finds.
use zadodb.Prelude.{ℕ, zero, suc, ◌-◌, ◌<◌, not, if◌then◌else◌, Ordering}
use zadodb.Prelude.{◌≡◌, ◌≢◌, refl, ◌∙◌, arith, true, false, Bool, Bool-cases, inl, inr}
use zadodb.Prelude.{Option, none, some, List, [], ◌∷◌, ◌++◌, length, All, get_elem?}
use zadodb.Bytes.{Bytes, bytes_lt, compare_bytes}
use zadodb.Bytes.Order.{
  bytes_eq, compare_bytes_trans, compare_bytes-flip, eq_of_compare_bytes, compare_bytes_self,
}
use zadodb.Errors.{Result, ok, ◌>>=◌}
use zadodb.Page.{invalid_page_id}
use zadodb.Btree.{LeafEntry, leaf_search, child_index, next_index}
use zadodb.Btree.Store.{PageStore}
use zadodb.Btree.Overflow.{materialize}
use zadodb.Btree.Lookup.{value_at, get_leaf, get_loop, get}
use zadodb.Btree.Lookup.Shape.{
  AllBelow, AllFrom, Ascending, Tree, tree_leaf, tree_node, Forest, last_child, next_child,
  find_entry,
}

-- Nothing at or above a bound has a key below it.
find_none_from :
    (key k : Bytes) (es : List LeafEntry)
    → AllFrom k es
    → bytes_lt key k ≡ true
    → find_entry es key ≡ none
unfolding find_entry
find_none_from key k [] h lt = refl
find_none_from key k (e ∷ es) (he, h) lt =
    ground (arith, find_none_from key k es h lt, eq_of_compare_bytes e.key key, he)

find_none_below :
    (key k : Bytes) (es : List LeafEntry)
    → AllBelow k es
    → bytes_lt key k ≡ false
    → find_entry es key ≡ none
unfolding find_entry
find_none_below key k [] h ge = refl
find_none_below key k (e ∷ es) (he, h) ge =
    ground (arith, find_none_below key k es h ge, eq_of_compare_bytes e.key key, he)

find_append_left :
    (key : Bytes) (es fs : List LeafEntry)
    → find_entry fs key ≡ none
    → find_entry (es ++ fs) key ≡ find_entry es key
unfolding find_entry
find_append_left key [] fs h = h
find_append_left key (e ∷ es) fs h = ground (arith, find_append_left key es fs h)

find_append_right :
    (key : Bytes) (es fs : List LeafEntry)
    → find_entry es key ≡ none
    → find_entry (es ++ fs) key ≡ find_entry fs key
unfolding find_entry
find_append_right key [] fs h = refl
find_append_right key (e ∷ es) fs h = ground (arith, find_append_right key es fs)

above_none :
    (key k : Bytes) (es : List LeafEntry)
    → All (λ f. bytes_lt k f.key ≡ true) es
    → compare_bytes k key ≡ Ordering.gt
    → find_entry es key ≡ none
unfolding find_entry
above_none key k [] h gt = refl
above_none key k (e ∷ es) (he, h) gt = ground (
  arith,
  above_none key k es h gt,
  compare_bytes-flip k key,
  compare_bytes_trans key k e.key,
  eq_of_compare_bytes e.key key,
  compare_bytes_self key,
)

-- The index and the flag of `leafSearch` name the entry of the key.
abbrev Names : List LeafEntry → Bytes → ℕ × Bool → Type 0
Names es key (i, true) = (e : LeafEntry) × (get_elem? es i ≡ some e) × (find_entry es key ≡ some e)
Names es key (i, false) = find_entry es key ≡ none

Names-next :
    (e : LeafEntry) (es : List LeafEntry) (key : Bytes) (r : ℕ × Bool)
    → find_entry (e ∷ es) key ≡ find_entry es key
    → Names es key r
    → Names (e ∷ es) key (next_index r)
Names-next e es key (i, true) same (x, at, h) = (x, at, same ∙ h)
Names-next e es key (i, false) same h = same ∙ h

leaf_search-Names :
    (es : List LeafEntry) (key : Bytes) → Ascending es → Names es key (leaf_search es key)
unfolding leaf_search find_entry
leaf_search-Names [] key h = refl
leaf_search-Names (e ∷ es) key (he, h) =
    go (leaf_search es key) (leaf_search-Names es key h) (compare_bytes e.key key) refl
  where
    go :
        (r : ℕ × Bool)
        → Names es key r
        → (o : Ordering) → compare_bytes e.key key ≡ o
        → Names (e ∷ es) key (elim o [
          | Ordering.eq ↦ (0, true)
          | Ordering.gt ↦ (0, false)
          | Ordering.lt ↦ next_index r
        ])
    go r ih Ordering.eq p = (e, refl, ground (arith, p))
    go r ih Ordering.gt p = ground (arith, p, above_none key e.key es he p)
    go r ih Ordering.lt p = Names-next e es key r (ground (arith, p)) ih

module _ {S : Type 0} (st : PageStore S) (rounds : ℕ) (s : S) where
  -- The answer of `Get` at an entry: its value, read from its chain where it has one.
  abbrev pub answer : Option LeafEntry → Result (Option Bytes)
  answer none = ok none
  answer (some e) = do v ← materialize st rounds s e; ok (some v)

  get_leaf-answer :
      (es : List LeafEntry) (key : Bytes)
      → Ascending es
      → get_leaf st rounds s es key ≡ answer (find_entry es key)
  unfolding get_leaf value_at
  get_leaf-answer es key h = go (leaf_search es key) (leaf_search-Names es key h)
    where
      go :
          (r : ℕ × Bool)
          → Names es key r
          → (if not r.1 then ok none else value_at st rounds s (get_elem? es r.0))
            ≡ answer (find_entry es key)
      go (i, false) n = rw n
      go (i, true) (e, at, n) = rw (at, n)

  -- The child that `childIndex` picks holds the key, if any child does.
  child_found :
      {h : ℕ} (cs : List ℕ) (ks : List Bytes) (es : List LeafEntry) (key : Bytes)
      → Forest st s h cs ks es
      → (c : ℕ) × (sub : List LeafEntry) × (get_elem? cs (child_index ks (length cs - 1) key)
          ≡ some c)
        × Tree st s h c sub
        × (find_entry es key ≡ find_entry sub key)
  unfolding child_index
  child_found cs ks es key (last_child {c = c} t) = (c, es, refl, t, refl)
  child_found cs ks es key
        (next_child {c = c} {cs = cs'} {k = k} {ks = ks'} {es = left} {fs = right} t lt ge e f) =
      let (c', sub, pick, tree, same) = child_found cs' ks' right key f in
      let one : suc (length cs') - 1 ≡ length cs' = omega arith in
      elim (Bool-cases (bytes_lt key k)) [
        | inl less ↦ (
          c,
          left,
          rw less,
          t,
          rw e (find_append_left key left right (find_none_from key k right ge less)),
        )
        | inr more ↦ (
          c',
          sub,
          rw (more, one) pick,
          tree,
          rw e (find_append_right key left right (find_none_below key k left lt more) ∙ same),
        )
      ]

  -- In a tree of height h, every fuel above h finds the answer of the sorted entries.
  get_loop-answer :
      {h id : ℕ} {es : List LeafEntry} (fuel : ℕ) (key : Bytes)
      → h < fuel
      → Tree st s h id es
      → get_loop st rounds fuel s id key ≡ answer (find_entry es key)
  unfolding get_loop
  get_loop-answer zero key lt t = absurd (omega arith)
  get_loop-answer (suc f) key lt (tree_leaf {es = es} read asc) =
      rw read (get_leaf-answer es key asc)
  get_loop-answer (suc f) key lt (tree_node {h = h'} {ks = ks} {cs = cs} {es = es} read forest) =
      let (c, sub, pick, tree, same) = child_found cs ks es key forest in
      ground (arith, read, pick, same, get_loop-answer {h = h'} f key (omega arith) tree)

  -- For every tree of height h over a sorted list of entries, every key and every fuel above h, `Get`
  -- returns the value of the key's entry, or nothing where no entry has the key.
  pub get-Tree :
      {h id : ℕ} {es : List LeafEntry} (fuel : ℕ) (key : Bytes)
      → h < fuel
      → id ≢ invalid_page_id
      → Tree st s h id es
      → get st rounds fuel s id key ≡ answer (find_entry es key)
  unfolding get
  get-Tree fuel key lt ne t = ground (arith, get_loop-answer fuel key lt t)

  -- An empty tree has no page.
  pub get-invalid_page_id :
      (fuel : ℕ) (key : Bytes) → get st rounds fuel s invalid_page_id key ≡ ok none
  unfolding get
  get-invalid_page_id fuel key = refl
