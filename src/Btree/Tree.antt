-- ===== src/Btree/Tree.antt =====
-- The copy-on-write tree of internal/storage/btree/btree.go. A tree is a store and its root; the
-- descent takes one round of fuel for each level.
pub mod CopyOnWrite
use zadodb.Prelude.{ℕ, zero, suc, ◌+◌, ◌-◌, nat_beq, not, if◌then◌else◌}
use zadodb.Prelude.{Bool, true, false, Option, none, some}
use zadodb.Prelude.{List, [], ◌∷◌, ◌++◌, length, get_elem?, take, drop}
use zadodb.Bytes.{Bytes}
use zadodb.Errors.{Result, ok, err, out_of_fuel, panics, ◌>>=◌}
use zadodb.Page.{invalid_page_id}
use zadodb.Btree.{LeafEntry, Node, leaf, internal, leaf_search, child_index, fits}
use zadodb.Btree.{split_leaf, split_internal, insert_at}
use zadodb.Btree.Store.{PageStore, load, put_node}
use zadodb.Btree.Overflow.{make_leaf_entry}

-- `splitResult`: the separator and the new right sibling.
pub record Split : Type 0 where
  pub sep : Bytes
  pub right : ℕ

-- `entries[:idx] + ve + entries[idx:]`, or from idx + 1 on where the key was found.
unfoldable pub insert_entry : List LeafEntry → LeafEntry → List LeafEntry
insert_entry es ve =
    let (i, found) = leaf_search es ve.key in
    take i es ++ (ve ∷ drop (if found then i + 1 else i) es)

unfoldable pub delete_entry : List LeafEntry → Bytes → List LeafEntry
delete_entry es key = let i = (leaf_search es key).0 in take i es ++ drop (i + 1) es

-- `children[ci] = id`.
unfoldable pub set_child : List ℕ → ℕ → ℕ → List ℕ
set_child cs i id = take i cs ++ (id ∷ drop (i + 1) cs)

-- The two halves of a node that does not fit.
unfoldable pub split_node : Node → Node × Node × Bytes
split_node (leaf es) = let (l, r, sep) = split_leaf es in (leaf l, leaf r, sep)
split_node (internal ks cs) = split_internal ks cs

-- The node above a child that was replaced, and perhaps split.
unfoldable pub with_child : List Bytes → List ℕ → ℕ → ℕ → Option Split → Node
with_child ks cs i id none = internal ks (set_child cs i id)
with_child ks cs i id (some sp) =
    internal (insert_at ks i sp.sep) (insert_at (set_child cs i id) (i + 1) sp.right)

module _ {S : Type 0} (st : PageStore S) where
  -- `writeMaybeSplit`.
  unfoldable pub write_maybe_split : S → Node → ℕ × Option Split × S
  write_maybe_split s n =
      let whole = put_node st s n in
      let (l, r, sep) = split_node n in
      let (lid, s1) = put_node st s l in
      let (rid, s2) = put_node st s1 r in
      if fits n
      then (whole.0, none, whole.1)
      else (lid, some (record { sep = sep; right = rid }), s2)

  -- The node above the child that a call has changed.
  pub insert_above :
      List Bytes → List ℕ → ℕ → Result (ℕ × Option Split × S) → Result (ℕ × Option Split × S)
  insert_above ks cs i call = do
    (cid, sp, s') ← call
    ok (write_maybe_split s' (with_child ks cs i cid sp))

  -- The two cases of `insert`; `call` is the call on a child.
  unfoldable pub insert_node :
      (ℕ → Result (ℕ × Option Split × S)) → S → Node → LeafEntry → Result (ℕ × Option Split × S)
  insert_node call s (leaf es) ve = ok (write_maybe_split s (leaf (insert_entry es ve)))
  insert_node call s (internal ks cs) ve =
      let i = child_index ks (length cs - 1) ve.key in
      elim (get_elem? cs i) [ none ↦ err panics | some child ↦ insert_above ks cs i (call child) ]

  -- `insert`.
  unfoldable pub insert_loop : ℕ → S → ℕ → LeafEntry → Result (ℕ × Option Split × S)
  insert_loop zero s id ve = err out_of_fuel
  insert_loop (suc f) s id ve = do
    n ← load st s id
    insert_node (λ child. insert_loop f s child ve) s n ve

  -- The new root over a child that was split.
  abbrev pub new_root : ℕ × Option Split × S → ℕ × S
  new_root (id, none, s) = (id, s)
  new_root (id, some sp, s) = put_node st s (internal (sp.sep ∷ []) (id ∷ sp.right ∷ []))

  -- `Insert`: the new root and store.
  unfoldable pub insert : ℕ → S → ℕ → Bytes → Bytes → Result (ℕ × S)
  insert fuel s root key val =
      let (ve, s1) = make_leaf_entry st s key val in
      let grow = (do r ← insert_loop fuel s1 root ve; ok (new_root r)) in
      if nat_beq root invalid_page_id then ok (put_node st s1 (leaf (ve ∷ []))) else grow

  -- The node above a child that a call has, or has not, changed.
  pub delete_above : List Bytes → List ℕ → ℕ → ℕ → ℕ → Result (ℕ × S) → Result (ℕ × S)
  delete_above ks cs i id child call = do
    (cid, s') ← call
    if nat_beq cid child
        then ok (id, s')
        else ok (put_node st s' (internal ks (set_child cs i cid)))

  -- The two cases of `delete` at page `id`.
  unfoldable pub delete_node : (ℕ → Result (ℕ × S)) → S → ℕ → Node → Bytes → Result (ℕ × S)
  delete_node call s id (leaf es) key =
      if not (leaf_search es key).1
      then ok (id, s)
      else ok (put_node st s (leaf (delete_entry es key)))
  delete_node call s id (internal ks cs) key =
      let i = child_index ks (length cs - 1) key in
      elim (get_elem? cs i) [
        | none ↦ err panics
        | some child ↦ delete_above ks cs i id child (call child)
      ]

  -- `delete`: a subtree without the key keeps its page.
  unfoldable pub delete_loop : ℕ → S → ℕ → Bytes → Result (ℕ × S)
  delete_loop zero s id key = err out_of_fuel
  delete_loop (suc f) s id key = do
    n ← load st s id
    delete_node (λ child. delete_loop f s child key) s id n key

  unfoldable pub delete : ℕ → S → ℕ → Bytes → Result (ℕ × S)
  delete fuel s root key =
      let shrink = delete_loop fuel s root key in
      if nat_beq root invalid_page_id then ok (root, s) else shrink
