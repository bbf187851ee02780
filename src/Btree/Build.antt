-- ===== src/Btree/Build.antt =====
-- The bulk loader of internal/storage/btree/build.go. The store is part of the builder's state.
pub mod Levels
pub mod Raised
pub mod Table
pub mod Loaded
pub mod Added
pub mod Found
pub mod Scanned
use zadodb.Prelude.{ℕ, zero, suc, ◌+◌, ltb, nat_beq, not, if◌then◌else◌, ◌&&◌}
use zadodb.Prelude.{Bool, true, Option, none, some}
use zadodb.Prelude.{List, [], ◌∷◌, ◌++◌, length}
use zadodb.Bytes.{Bytes, bytes_lt}
use zadodb.Errors.{Result, ok, err, not_ascending, out_of_fuel, ◌>>=◌}
use zadodb.Page.{body_size, invalid_page_id}
use zadodb.Btree.{LeafEntry, leaf, internal, entry_size, first_key}
use zadodb.Btree.Store.{PageStore, put_node}
use zadodb.Btree.Overflow.{make_leaf_entry}

pub record LevelEntry : Type 0 where
  pub first : Bytes
  pub page : ℕ

pub record Builder (S : Type 0) : Type 0 where
  pub store : S
  pub leaf_entries : List LeafEntry
  pub leaf_bytes : ℕ
  pub leaves : List LevelEntry
  pub last_key : Option Bytes
  pub count : ℕ

-- An internal node that is being filled: its separators and children after the first.
pub record Group : Type 0 where
  pub seps : List Bytes
  pub pages : List ℕ
  pub rest : List LevelEntry

module _ {S : Type 0} (st : PageStore S) where
  abbrev pub new_builder : S → Builder S
  new_builder s = record {
    store = s;
    leaf_entries = [];
    leaf_bytes = 2;
    leaves = [];
    last_key = none;
    count = 0;
  }

  unfoldable pub flush_leaf : Builder S → Builder S
  flush_leaf b =
      let (id, s') = put_node st b.store (leaf b.leaf_entries) in
      if nat_beq (length b.leaf_entries) 0 then b else record b {
        store = s';
        leaf_entries = [];
        leaf_bytes = 2;
        leaves = b.leaves ++ (record { first = first_key b.leaf_entries; page = id } ∷ []);
      }

  -- The keys of the store are not empty: an empty last key, which Go's append makes nil, does not come up.
  unfoldable pub ascending : Option Bytes → Bytes → Bool
  ascending none key = true
  ascending (some last) key = bytes_lt last key

  unfoldable pub append_entry : Builder S → LeafEntry → Builder S
  append_entry b e = record b {
    leaf_entries = b.leaf_entries ++ (e ∷ []);
    leaf_bytes = b.leaf_bytes + entry_size e;
    last_key = some e.key;
    count = b.count + 1;
  }

  unfoldable pub add : Builder S → Bytes → Bytes → Result (Builder S)
  unfolding ascending append_entry
  add b key val =
      let (e, s') = make_leaf_entry st b.store key val in
      let b' = record b { store = s' } in
      if not (ascending b.last_key key)
      then err not_ascending
      else if ltb 0 (length b.leaf_entries) && ltb body_size (b.leaf_bytes + entry_size e)
      then ok (append_entry (flush_leaf b') e)
      else ok (append_entry b' e)

  -- The inner loop of `buildInternalLevel`: `taken` is `len(n.children)`.
  unfoldable pub fill_group : ℕ → ℕ → List LevelEntry → Group
  fill_group taken size [] = record { seps = []; pages = []; rest = [] }
  fill_group taken size (c ∷ cs) =
      let add_size = 2 + length c.first + 8 in
      let g = fill_group (taken + 1) (size + add_size) cs in
      if not (ltb taken 2) && ltb body_size (size + add_size)
      then record { seps = []; pages = []; rest = c ∷ cs }
      else record { seps = c.first ∷ g.seps; pages = c.page ∷ g.pages; rest = g.rest }

  -- The outer loop takes at least one child a round, so the number of children is fuel enough.
  unfoldable pub build_level : ℕ → S → List LevelEntry → List LevelEntry × S
  build_level f s [] = ([], s)
  build_level zero s (c ∷ cs) = ([], s)
  build_level (suc f) s (c ∷ cs) =
      let g = fill_group 1 (2 + 8) cs in
      let (id, s1) = put_node st s (internal g.seps (c.page ∷ g.pages)) in
      let (out, s2) = build_level f s1 g.rest in (record { first = c.first; page = id } ∷ out, s2)

  -- The loop of `Finish`: a level of more than one node becomes a shorter one.
  unfoldable pub build_up : ℕ → S → List LevelEntry → Result (ℕ × S)
  build_up f s [] = ok (invalid_page_id, s)
  build_up f s (c ∷ []) = ok (c.page, s)
  build_up zero s (c ∷ d ∷ cs) = err out_of_fuel
  build_up (suc f) s (c ∷ d ∷ cs) =
      let (out, s') = build_level (length (c ∷ d ∷ cs)) s (c ∷ d ∷ cs) in build_up f s' out

  unfoldable pub finish : Builder S → Result (ℕ × S)
  unfolding build_up build_level
  finish b = let b' = flush_leaf b in build_up (length b'.leaves) b'.store b'.leaves

  -- `Add` for each pair, then `Finish`.
  unfoldable pub add_all : Builder S → List (Bytes × Bytes) → Result (Builder S)
  add_all b [] = ok b
  add_all b ((k, v) ∷ kvs) = do b' ← add b k v; add_all b' kvs

  unfoldable pub bulk_load : S → List (Bytes × Bytes) → Result (ℕ × S)
  bulk_load s kvs = do b ← add_all (new_builder s) kvs; finish b
