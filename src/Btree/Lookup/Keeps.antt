-- ===== src/Btree/Lookup/Keeps.antt =====
-- A tree, and the values that its entries name, stay as they are while the store keeps its pages, those
-- of the type of the meta page left aside.
use zadodb.Prelude.{ℕ, zero, suc, ◌≡◌, arith, List, nat_beq, false, Bool-cases, inl, inr, take}
use zadodb.Bytes.{Bytes, get_le}
use zadodb.Errors.{ok, >>=-eq-ok, Result-cases}
use zadodb.Page.{Page, payload, type_of, page_type_meta, page_type_overflow}
use zadodb.Btree.{LeafEntry, Node, EntryValue, inline, overflow}
use zadodb.Btree.Encode.{decode_node}
use zadodb.Btree.Encode.RoundTrip.{type_of-decode_node}
use zadodb.Btree.Store.{PageStore, Laws, Extends, load}
use zadodb.Btree.Overflow.{read_overflow, materialize}
use zadodb.Btree.Lookup.Shape.{Tree, tree_leaf, tree_node, Forest, last_child, next_child}

module _ {S T : Type 0} (st : PageStore S) (st' : PageStore T) where
  -- Every page that could be read, other than a meta page, can be read as it was, from
  -- another store it may be.
  abbrev pub Keeps : S → T → Type 0
  Keeps s s' =
      (j : ℕ) (q : Page)
      → st.read_page s j ≡ ok q
      → nat_beq (type_of q) page_type_meta ≡ false
      → st'.read_page s' j ≡ ok q

  pub load-Keeps :
      {s : S} {s' : T} (id : ℕ) (n : Node)
      → Keeps s s'
      → load st s id ≡ ok n
      → load st' s' id ≡ ok n
  unfolding load
  load-Keeps {s} {s'} id n x h =
      let (q, read, same) = >>=-eq-ok (st.read_page s id) decode_node {b = n} h in
      rw (x id q read (type_of-decode_node q n same)) same

  mutual
    pub Tree-Keeps :
        {s : S} {s' : T} {h id : ℕ} {es : List LeafEntry}
        → Keeps s s'
        → Tree st s h id es
        → Tree st' s' h id es
    Tree-Keeps x (tree_leaf read asc) = tree_leaf (load-Keeps _ _ x read) asc
    Tree-Keeps x (tree_node read f) = tree_node (load-Keeps _ _ x read) (Forest-Keeps x f)

    pub Forest-Keeps :
        {s : S} {s' : T} {h : ℕ} {cs : List ℕ} {ks : List Bytes} {es : List LeafEntry}
        → Keeps s s'
        → Forest st s h cs ks es
        → Forest st' s' h cs ks es
    Forest-Keeps x (last_child t) = last_child (Tree-Keeps x t)
    Forest-Keeps x (next_child t below from e f) =
        next_child (Tree-Keeps x t) below from e (Forest-Keeps x f)

  read_overflow-Keeps :
      {s : S} {s' : T} (fuel id : ℕ) (v : Bytes)
      → Keeps s s'
      → read_overflow st fuel s id ≡ ok v
      → read_overflow st' fuel s' id ≡ ok v
  unfolding read_overflow
  read_overflow-Keeps zero id v x h = cc
  read_overflow-Keeps {s} {s'} (suc f) id v x h = elim (Result-cases (st.read_page s id)) [
    | inr (z, bad) ↦ ground (arith, bad)
    | inl (q, read) ↦ elim (Bool-cases (nat_beq (type_of q) page_type_overflow)) [
      | inr odd ↦ ground (arith, read, odd)
      | inl kind ↦
          let again = x id q read (ground arith) in
          let next = get_le (take 8 (payload q)) in
          elim (Result-cases (read_overflow st f s next)) [
            | inr (z, bad) ↦ ground (arith, read, again, bad)
            | inl (more, rest) ↦
                ground (arith, read, again, rest, read_overflow-Keeps f next more x rest)
          ]
    ]
  ]

  materialize_value :
      {s : S} {s' : T} (fuel : ℕ) (k : Bytes) (w : EntryValue) (v : Bytes)
      → Keeps s s'
      → materialize st fuel s (record { key = k; value = w }) ≡ ok v
      → materialize st' fuel s' (record { key = k; value = w }) ≡ ok v
  unfolding materialize
  materialize_value fuel k (inline u) v x h = h
  materialize_value fuel k (overflow head size) v x h = read_overflow-Keeps fuel head v x h

  pub materialize-Keeps :
      {s : S} {s' : T} (fuel : ℕ) (e : LeafEntry) (v : Bytes)
      → Keeps s s'
      → materialize st fuel s e ≡ ok v
      → materialize st' fuel s' e ≡ ok v
  materialize-Keeps fuel e v x h = materialize_value fuel e.key e.value v x h

module _ {S : Type 0} {st : PageStore S} (laws : Laws st) where
  pub Extends-Keeps : {s s' : S} → Extends laws s s' → Keeps st st s s'
  Extends-Keeps x j q h type = x.kept j q h

  pub Tree-Extends :
      {s s' : S} {h id : ℕ} {es : List LeafEntry}
      → Extends laws s s'
      → Tree st s h id es
      → Tree st s' h id es
  Tree-Extends x t = Tree-Keeps st st (Extends-Keeps x) t

  pub Forest-Extends :
      {s s' : S} {h : ℕ} {cs : List ℕ} {ks : List Bytes} {es : List LeafEntry}
      → Extends laws s s'
      → Forest st s h cs ks es
      → Forest st s' h cs ks es
  Forest-Extends x f = Forest-Keeps st st (Extends-Keeps x) f

  pub materialize-Extends :
      {s s' : S} (fuel : ℕ) (e : LeafEntry) (v : Bytes)
      → Extends laws s s'
      → materialize st fuel s e ≡ ok v
      → materialize st fuel s' e ≡ ok v
  materialize-Extends fuel e v x h = materialize-Keeps st st fuel e v (Extends-Keeps x) h
