-- ===== src/Btree/Build/Table.antt =====
-- A tree that holds given pairs, whatever made it.
use zadodb.Prelude.{ℕ, ◌<◌, ◌≤◌, ◌≡◌, refl, ◌∙◌, arith, ◌==◌}
use zadodb.Prelude.{List, [], ◌∷◌, ◌++◌, length, true, false, Bool-cases, inl, inr, ◌⊎◌}
use zadodb.Prelude.Dict.{find}
use zadodb.Bytes.{Bytes}
use zadodb.Bytes.Order.{bytes_eq}
use zadodb.Errors.{ok}
use zadodb.Page.{invalid_page_id}
use zadodb.Btree.{LeafEntry}
use zadodb.Btree.Store.{PageStore}
use zadodb.Btree.Overflow.{materialize}
use zadodb.Btree.Lookup.{get}
use zadodb.Btree.Lookup.Shape.{Tree, find_entry}
use zadodb.Btree.Lookup.Found.{answer, get-Tree, get-invalid_page_id}
use zadodb.Btree.Lookup.Keeps.{Keeps, Tree-Keeps, materialize-Keeps}

module _ {S : Type 0} (st : PageStore S) (rounds : ℕ) where
  -- The entries hold these pairs.
  abbrev pub Stored : S → List LeafEntry → List (Bytes × Bytes) → Type 0
  Stored s [] [] = Unit
  Stored s [] (kv ∷ kvs) = ⊥
  Stored s (e ∷ es) [] = ⊥
  Stored s (e ∷ es) ((k, v) ∷ kvs) =
      (e.key ≡ k) × (materialize st rounds s e ≡ ok v) × Stored s es kvs

  pub Stored-snoc :
      (s : S) (es : List LeafEntry) (kvs : List (Bytes × Bytes)) (e : LeafEntry) (k v : Bytes)
      → Stored s es kvs
      → e.key ≡ k
      → materialize st rounds s e ≡ ok v
      → Stored s (es ++ (e ∷ [])) (kvs ++ ((k, v) ∷ []))
  Stored-snoc s [] [] e k v h a b = (a, b, tt)
  Stored-snoc s [] (kv ∷ kvs) e k v h a b = absurd h
  Stored-snoc s (f ∷ es) [] e k v h a b = absurd h
  Stored-snoc s (f ∷ es) (kv ∷ kvs) e k v h a b = (h.0, h.1, Stored-snoc s es kvs e k v h.2 a b)

  -- A tree of these pairs: none for no pairs, and else one of some height over entries that hold them.
  pub record Table (s : S) (kvs : List (Bytes × Bytes)) (root : ℕ) : Type 0 where
    pub entries : List LeafEntry
    pub height : ℕ
    pub low : height ≤ length kvs
    pub stored : Stored s entries kvs
    pub tree :
        ((entries ≡ []) × (root ≡ invalid_page_id))
        ⊎ ((root < invalid_page_id) × Tree st s height root entries)

  find-Stored :
      (s : S) (es : List LeafEntry) (kvs : List (Bytes × Bytes)) (key : Bytes)
      → Stored s es kvs
      → answer st rounds s (find_entry es key) ≡ ok (find key kvs)
  unfolding find_entry find
  find-Stored s [] [] key h = refl
  find-Stored s [] (kv ∷ kvs) key h = absurd h
  find-Stored s (e ∷ es) [] key h = absurd h
  find-Stored s (e ∷ es) ((k, v) ∷ kvs) key h = elim (Bool-cases (k == key)) [
    | inl same ↦ let hit : (e.key == key) ≡ true = rw h.0 same in rw (hit, same, h.1) refl
    | inr other ↦
        let miss : (e.key == key) ≡ false = rw h.0 other in
        rw (miss, other) (find-Stored s es kvs key h.2)
  ]

  pub get-Table :
      (s' : S) (kvs : List (Bytes × Bytes)) (root : ℕ) (w : Table s' kvs root) (fuel : ℕ)
      (key : Bytes)
      → w.height < fuel
      → get st rounds fuel s' root key ≡ ok (find key kvs)
  get-Table s' kvs root w fuel key lt = elim w.tree [
    | inl (empty, none_there) ↦
        let nothing : Stored s' [] kvs = rw⁻¹ empty w.stored in
        rw none_there (
          get-invalid_page_id st rounds s' fuel key
          ∙ (unfold find_entry in find-Stored s' [] kvs key nothing))
    | inr (page, tree) ↦
        get-Tree st rounds s' fuel key lt (omega arith) tree
        ∙ find-Stored s' w.entries kvs key w.stored
  ]

module _ {S T : Type 0} (st : PageStore S) (st' : PageStore T) (rounds : ℕ) where
  pub Stored-Keeps :
      {s : S} {s' : T} (es : List LeafEntry) (kvs : List (Bytes × Bytes))
      → Keeps st st' s s'
      → Stored st rounds s es kvs
      → Stored st' rounds s' es kvs
  Stored-Keeps [] [] x h = tt
  Stored-Keeps [] (kv ∷ kvs) x h = h
  Stored-Keeps (e ∷ es) [] x h = h
  Stored-Keeps (e ∷ es) ((k, v) ∷ kvs) x h =
      (h.0, materialize-Keeps st st' rounds e v x h.1, Stored-Keeps es kvs x h.2)

  pub Table-Keeps :
      {s : S} {s' : T} (kvs : List (Bytes × Bytes)) (root : ℕ)
      → Keeps st st' s s'
      → Table st rounds s kvs root
      → Table st' rounds s' kvs root
  Table-Keeps {s} {s'} kvs root x w = record {
    entries = w.entries;
    height = w.height;
    low = w.low;
    stored = Stored-Keeps w.entries kvs x w.stored;
    tree = moved w.tree;
  }
    where
      moved :
          ((w.entries ≡ []) × (root ≡ invalid_page_id))
            ⊎ ((root < invalid_page_id) × Tree st s w.height root w.entries)
          → ((w.entries ≡ []) × (root ≡ invalid_page_id))
            ⊎ ((root < invalid_page_id) × Tree st' s' w.height root w.entries)
      moved (inl e) = inl e
      moved (inr (lt, t)) = inr (lt, Tree-Keeps st st' x t)
