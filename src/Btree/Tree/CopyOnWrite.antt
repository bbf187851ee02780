-- ===== src/Btree/Tree/CopyOnWrite.antt =====
-- `Insert` and `Delete` never change a page that could be read: an older root stays a snapshot.
use zadodb.Prelude.{ℕ, zero, suc, ◌+◌, ◌-◌, ◌*◌, ◌^◌, ◌<◌, ◌≤◌, nat_beq, leb}
use zadodb.Prelude.{◌≡◌, refl, arith, Bool-cases, inl, inr}
use zadodb.Prelude.{Option, none, some, List, [], ◌∷◌, length, get_elem?, Option-cases}
use zadodb.Bytes.{Bytes}
use zadodb.Errors.{Result, ok, err, >>=-eq-ok}
use zadodb.Page.{invalid_page_id}
use zadodb.Btree.{LeafEntry, Node, leaf, internal, fits, max_inline, leaf_search, child_index}
use zadodb.Btree.Store.{
  PageStore, Laws, load, put_node, Extends, Extends-refl, Extends-trans, put_node-Extends,
}
use zadodb.Btree.Overflow.{value_chunks, make_leaf_entry}
use zadodb.Btree.Overflow.RoundTrip.{write_overflow_lem}
use zadodb.Btree.Tree.{
  Split, write_maybe_split, insert_above, insert_node, insert_entry, insert_loop, delete_above,
  delete_node, new_root, insert, delete_loop, delete, delete_entry, set_child, with_child,
  split_node,
}

module _ {S : Type 0} {st : PageStore S} (laws : Laws st) where
  -- One step of at most `n` new pages.
  pub record Grows (n : ℕ) (s s' : S) : Type 0 where
    pub later : Extends laws s s'
    pub few : laws.next s' ≤ laws.next s + n

  write_maybe_split-Grows :
      (s : S) (n : Node)
      → laws.Valid s
      → laws.next s + 2 ≤ 2 ^ 64
      → Grows 2 s (write_maybe_split st s n).2
  unfolding write_maybe_split
  write_maybe_split-Grows s n v room = elim (Bool-cases (fits n)) [
    | inl whole ↦
        let (x, c) = put_node-Extends laws s n v (omega arith) in
        rw whole (record { later = x; few = omega arith })
    | inr over ↦
        let l = (split_node n).0 in
        let s1 = (put_node st s l).1 in
        let (x, c) = put_node-Extends laws s l v (omega arith) in
        let (y, d) = put_node-Extends laws s1 (split_node n).1 x.valid (omega arith) in
        rw over (record { later = Extends-trans laws x y; few = omega arith })
  ]

  Grows-refl : (n : ℕ) (s : S) → laws.Valid s → Grows n s s
  Grows-refl n s v = record { later = Extends-refl laws s v; few = omega arith }

  Grows-trans : {s t u : S} (n m : ℕ) → Grows n s t → Grows m t u → Grows (n + m) s u
  Grows-trans n m a b = record {
    later = Extends-trans laws a.later b.later;
    few = omega (arith, a.few, b.few);
  }

  insert_above-Grows :
      (n : ℕ) (s : S) (ks : List Bytes) (cs : List ℕ) (i : ℕ) (call : Result (ℕ × Option Split × S))
      → laws.next s + (n + 2) ≤ 2 ^ 64
      → ((r : ℕ × Option Split × S) → call ≡ ok r → Grows n s r.2)
      → (r : ℕ × Option Split × S) → insert_above st ks cs i call ≡ ok r
      → Grows (n + 2) s r.2
  unfolding insert_above
  insert_above-Grows n s ks cs i (err x) room ih r e = cc
  insert_above-Grows n s ks cs i (ok (cid, sp, s')) room ih r e =
      let below = ih (cid, sp, s') refl in
      let here =
        write_maybe_split-Grows s' (with_child ks cs i cid sp) below.later.valid
          (omega (arith, below.few)) in
      let same : (write_maybe_split st s' (with_child ks cs i cid sp)).2 ≡ r.2 = ground arith in
      rw (← same) (Grows-trans n 2 below here)

  insert_node-Grows :
      (k : ℕ) (call : ℕ → Result (ℕ × Option Split × S)) (s : S) (n : Node) (ve : LeafEntry)
      → laws.Valid s
      → laws.next s + (k + 2) ≤ 2 ^ 64
      → ((child : ℕ) (r : ℕ × Option Split × S) → call child ≡ ok r → Grows k s r.2)
      → (r : ℕ × Option Split × S) → insert_node st call s n ve ≡ ok r
      → Grows (k + 2) s r.2
  unfolding insert_node
  insert_node-Grows k call s (leaf es) ve v room ih r e =
      let here = write_maybe_split-Grows s (leaf (insert_entry es ve)) v (omega arith) in
      let same : (write_maybe_split st s (leaf (insert_entry es ve))).2 ≡ r.2 = ground arith in
      rw (← same) (Grows-trans k 2 (Grows-refl k s v) here)
  insert_node-Grows k call s (internal ks cs) ve v room ih r e =
      elim (Option-cases (get_elem? cs (child_index ks (length cs - 1) ve.key))) [
        | inl missing ↦ absurd (ground (arith, missing))
        | inr (child, found) ↦
            insert_above-Grows k s ks cs (child_index ks (length cs - 1) ve.key) (call child) room
              (ih child) r (ground (arith, found))
      ]

  insert_loop-Grows :
      (f : ℕ) (s : S) (id : ℕ) (ve : LeafEntry) (r : ℕ × Option Split × S)
      → laws.Valid s
      → laws.next s + 2 * f ≤ 2 ^ 64
      → insert_loop st f s id ve ≡ ok r
      → Grows (2 * f) s r.2
  unfolding insert_loop
  insert_loop-Grows zero s id ve r v room e = cc
  insert_loop-Grows (suc f) s id ve r v room e =
      let (n, read, step) = >>=-eq-ok (load st s id) _ e in
      let two : 2 * f + 2 ≡ 2 * suc f = omega arith in
      rw (← two) (
        insert_node-Grows (2 * f) (λ child. insert_loop st f s child ve) s n ve v (omega arith)
          (λ child r' h. insert_loop-Grows f s child ve r' v (omega arith) h) r step)

  delete_above-Grows :
      (n : ℕ) (s : S) (ks : List Bytes) (cs : List ℕ) (i id child : ℕ) (call : Result (ℕ × S))
      → laws.next s + (n + 1) ≤ 2 ^ 64
      → ((r : ℕ × S) → call ≡ ok r → Grows n s r.1)
      → (r : ℕ × S) → delete_above st ks cs i id child call ≡ ok r
      → Grows (n + 1) s r.1
  unfolding delete_above
  delete_above-Grows n s ks cs i id child (err x) room ih r e = cc
  delete_above-Grows n s ks cs i id child (ok (cid, s')) room ih r e =
      let below = ih (cid, s') refl in
      let nn = internal ks (set_child cs i cid) in
      let (x, c) = put_node-Extends laws s' nn below.later.valid (omega (arith, below.few)) in
      elim (Bool-cases (nat_beq cid child)) [
        | inl same ↦
            let at : s' ≡ r.1 = ground (arith, same) in
            rw (← at) (record { later = below.later; few = omega (arith, below.few) })
        | inr changed ↦
            let at : (put_node st s' nn).1 ≡ r.1 = ground (arith, changed) in
            rw (← at)
              (record { later = Extends-trans laws below.later x; few = omega (arith, below.few) })
      ]

  delete_node-Grows :
      (k : ℕ) (call : ℕ → Result (ℕ × S)) (s : S) (id : ℕ) (n : Node) (key : Bytes)
      → laws.Valid s
      → laws.next s + (k + 1) ≤ 2 ^ 64
      → ((child : ℕ) (r : ℕ × S) → call child ≡ ok r → Grows k s r.1)
      → (r : ℕ × S) → delete_node st call s id n key ≡ ok r
      → Grows (k + 1) s r.1
  unfolding delete_node
  delete_node-Grows k call s id (leaf es) key v room ih r e =
      let nn = leaf (delete_entry es key) in
      let (x, c) = put_node-Extends laws s nn v (omega arith) in
      elim (Bool-cases (leaf_search es key).1) [
        | inl found ↦
            let at : (put_node st s nn).1 ≡ r.1 = ground (arith, found) in
            rw (← at) (record { later = x; few = omega arith })
        | inr missing ↦
            let at : s ≡ r.1 = ground (arith, missing) in rw (← at) (Grows-refl (k + 1) s v)
      ]
  delete_node-Grows k call s id (internal ks cs) key v room ih r e =
      elim (Option-cases (get_elem? cs (child_index ks (length cs - 1) key))) [
        | inl missing ↦ absurd (ground (arith, missing))
        | inr (child, found) ↦
            delete_above-Grows k s ks cs (child_index ks (length cs - 1) key) id child (call child)
              room (ih child) r (ground (arith, found))
      ]

  delete_loop-Grows :
      (f : ℕ) (s : S) (id : ℕ) (key : Bytes) (r : ℕ × S)
      → laws.Valid s
      → laws.next s + f ≤ 2 ^ 64
      → delete_loop st f s id key ≡ ok r
      → Grows f s r.1
  unfolding delete_loop
  delete_loop-Grows zero s id key r v room e = cc
  delete_loop-Grows (suc f) s id key r v room e =
      let (n, read, step) = >>=-eq-ok (load st s id) _ e in
      let one : f + 1 ≡ suc f = omega arith in
      rw (← one) (
        delete_node-Grows f (λ child. delete_loop st f s child key) s id n key v (omega arith)
          (λ child r' h. delete_loop-Grows f s child key r' v (omega arith) h) r step)

  make_leaf_entry-Grows :
      (s : S) (key val : Bytes)
      → laws.Valid s
      → laws.next s + length (value_chunks val) < 2 ^ 64
      → Grows (length (value_chunks val)) s (make_leaf_entry st s key val).1
  unfolding make_leaf_entry
  make_leaf_entry-Grows s key val v room =
      let w = write_overflow_lem laws s val v room in
      elim (Bool-cases (leb (length val) max_inline)) [
        | inl small ↦ rw small (Grows-refl _ s v)
        | inr large ↦ rw large (record { later = w.later; few = omega (arith, w.next_after) })
      ]

  new_root-Grows :
      (r : ℕ × Option Split × S)
      → laws.Valid r.2
      → laws.next r.2 < 2 ^ 64
      → Grows 1 r.2 (new_root st r).1
  new_root-Grows (id, none, s) v room = Grows-refl 1 s v
  new_root-Grows (id, some sp, s) v room =
      let (x, c) = put_node-Extends laws s _ v room in record { later = x; few = omega arith }

  -- The most pages that an insertion of a value can write: its overflow chain, two for each level, and
  -- a new root.
  abbrev pub insert_pages : ℕ → Bytes → ℕ
  insert_pages fuel val = length (value_chunks val) + 2 * fuel + 2

  pub insert-Grows :
      (fuel : ℕ) (s : S) (root : ℕ) (key val : Bytes) (r : ℕ × S)
      → laws.Valid s
      → laws.next s + insert_pages fuel val < 2 ^ 64
      → insert st fuel s root key val ≡ ok r
      → Grows (insert_pages fuel val) s r.1
  unfolding insert
  insert-Grows fuel s root key val r v room e =
      let made = make_leaf_entry st s key val in
      let first = make_leaf_entry-Grows s key val v (omega arith) in
      elim (Bool-cases (nat_beq root invalid_page_id)) [
        | inl empty ↦
            let n = leaf (made.0 ∷ []) in
            let (x, c) =
              put_node-Extends laws made.1 n first.later.valid (omega (arith, first.few)) in
            let at : (put_node st made.1 n).1 ≡ r.1 = ground (arith, empty) in
            rw (← at) (record {
              later = Extends-trans laws first.later x;
              few = omega (arith, first.few, c);
            })
        | inr full ↦
            let (mid, run, up) =
              >>=-eq-ok (insert_loop st fuel made.1 root made.0) (λ m. ok (new_root st m)) {b = r}
                (ground (arith, full)) in
            let body =
              insert_loop-Grows fuel made.1 root made.0 mid first.later.valid
                (omega (arith, first.few)) run in
            let top = new_root-Grows mid body.later.valid (omega (arith, first.few, body.few)) in
            let at : (new_root st mid).1 ≡ r.1 = ground (arith, up) in
            rw (← at) (record {
              later = Extends-trans laws first.later (Extends-trans laws body.later top.later);
              few = omega (arith, first.few, body.few, top.few);
            })
      ]

  -- On a valid store with room for the new pages, a successful `Insert` leaves every page that could be
  -- read as it was, so every older root still names the tree that it named.
  pub insert-Extends :
      (fuel : ℕ) (s : S) (root : ℕ) (key val : Bytes) (r : ℕ × S)
      → laws.Valid s
      → laws.next s + insert_pages fuel val < 2 ^ 64
      → insert st fuel s root key val ≡ ok r
      → Extends laws s r.1
  insert-Extends fuel s root key val r v room e =
      (insert-Grows fuel s root key val r v room e).later

  pub delete-Grows :
      (fuel : ℕ) (s : S) (root : ℕ) (key : Bytes) (r : ℕ × S)
      → laws.Valid s
      → laws.next s + fuel ≤ 2 ^ 64
      → delete st fuel s root key ≡ ok r
      → Grows fuel s r.1
  unfolding delete
  delete-Grows fuel s root key r v room e = elim (Bool-cases (nat_beq root invalid_page_id)) [
    | inl empty ↦ let at : s ≡ r.1 = ground (arith, empty) in rw (← at) (Grows-refl fuel s v)
    | inr full ↦ delete_loop-Grows fuel s root key r v room (ground (arith, full))
  ]

  -- On a valid store with room for one page per round of fuel, a successful `Delete` leaves every page
  -- that could be read as it was.
  pub delete-Extends :
      (fuel : ℕ) (s : S) (root : ℕ) (key : Bytes) (r : ℕ × S)
      → laws.Valid s
      → laws.next s + fuel ≤ 2 ^ 64
      → delete st fuel s root key ≡ ok r
      → Extends laws s r.1
  delete-Extends fuel s root key r v room e = (delete-Grows fuel s root key r v room e).later
