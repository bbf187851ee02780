-- ===== src/Btree/Build/Found.antt =====
-- The bulk load as a whole: pairs in order of their keys become a tree in which `Get` finds them.
use zadodb.Prelude.{
  ℕ, suc, ◌+◌, ◌*◌, ◌<◌, ◌≤◌, ◌^◌, ◌≡◌, refl, ap, ◌∙◌, arith, All, append-nil, append_assoc,
  length-append,
}
use zadodb.Prelude.{Option, none, some, List, [], ◌∷◌, ◌++◌, length, true, inl, inr, ◌⊎◌}
use zadodb.Prelude.Dict.{find}
use zadodb.Bytes.{Bytes}
use zadodb.Bytes.Order.{bytes_eq}
use zadodb.Bytes.Sorted.{Above, Sorted}
use zadodb.Errors.{ok}
use zadodb.Page.{invalid_page_id}
use zadodb.Btree.{LeafEntry, entries_size}
use zadodb.Btree.Store.{PageStore, Laws, Extends, Extends-refl, Extends-trans}
use zadodb.Btree.Overflow.{value_chunks}
use zadodb.Btree.Lookup.{get}
use zadodb.Btree.Lookup.Shape.{Tree, Ascending}
use zadodb.Btree.Build.{
  LevelEntry, Builder, new_builder, flush_leaf, add_all, ascending, finish, build_up, bulk_load,
}
use zadodb.Btree.Build.Levels.{Level, level_none}
use zadodb.Btree.Build.Raised.{build_up-Rooted, Level-none}
use zadodb.Btree.Build.Loaded.{Stored-Extends, Building, flush_leaf-Flushed}
use zadodb.Btree.Build.Table.{Stored, Table, get-Table}
use zadodb.Btree.Build.Added.{Loadable, add-Added}

-- The most pages below the internal levels.
abbrev pub leaf_pages : List (Bytes × Bytes) → ℕ
leaf_pages [] = 0
leaf_pages ((k, v) ∷ kvs) = length (value_chunks v) + 1 + leaf_pages kvs

length-leaf_pages : (kvs : List (Bytes × Bytes)) → length kvs ≤ leaf_pages kvs
length-leaf_pages [] = omega arith
length-leaf_pages ((k, v) ∷ kvs) = omega (arith, length-leaf_pages kvs)

-- Pairs that come after the last key.
abbrev Follows : Option Bytes → List (Bytes × Bytes) → Type 0
Follows none kvs = Unit
Follows (some l) kvs = Above l kvs

module _ {S : Type 0} {st : PageStore S} (laws : Laws st) (rounds : ℕ) where
  Follows-ascending :
      (last : Option Bytes) (k v : Bytes) (kvs : List (Bytes × Bytes))
      → Follows last ((k, v) ∷ kvs)
      → ascending st last k ≡ true
  unfolding ascending
  Follows-ascending none k v kvs f = refl
  Follows-ascending (some l) k v kvs f = f.0

  record AddedAll (b b' : Builder S) (kvs more : List (Bytes × Bytes)) : Type 0 where
    pub all : List LeafEntry
    pub building : Building laws rounds b' all (kvs ++ more)
    pub later : Extends laws b.store b'.store
    pub few : laws.next b'.store ≤ laws.next b.store + leaf_pages more

  add_all_lem :
      (b : Builder S) (all : List LeafEntry) (kvs more : List (Bytes × Bytes))
      → Building laws rounds b all kvs
      → Follows b.last_key more
      → Sorted more
      → All (Loadable laws rounds) more
      → laws.next b.store + leaf_pages more < 2 ^ 64
      → (b' : Builder S) × (add_all st b more ≡ ok b') × AddedAll b b' kvs more
  unfolding add_all
  add_all_lem b all kvs [] w f o l room = (
    b,
    refl,
    record {
      all = all;
      building = rw (append-nil kvs) w;
      later = Extends-refl laws b.store w.valid;
      few = omega arith;
    },
  )
  add_all_lem b all kvs ((k, v) ∷ more) w f o l room =
      let (b1, run, a) =
        add-Added laws rounds b all kvs k v w l.0 (Follows-ascending b.last_key k v more f)
          (omega arith) in
      let (b2, rest, c) =
        add_all_lem b1 (all ++ (a.entry ∷ [])) (kvs ++ ((k, v) ∷ [])) more a.building
          (rw a.last_is o.0) o.1 l.1 (omega (arith, a.few)) in
      (
        b2,
        ground (arith, run, rest),
        record {
          all = c.all;
          building = rw⁻¹ (append_assoc kvs ((k, v) ∷ []) more) c.building;
          later = Extends-trans laws a.later c.later;
          few = omega (arith, a.few, c.few);
        },
      )

  pub record Loaded (s : S) (kvs : List (Bytes × Bytes)) (root : ℕ) (s' : S) : Type 0 where
    pub table : Table st rounds s' kvs root
    pub later : Extends laws s s'
    pub few : laws.next s' ≤ laws.next s + 3 * leaf_pages kvs + 1

  length-Stored :
      (s : S) (es : List LeafEntry) (kvs : List (Bytes × Bytes))
      → Stored st rounds s es kvs
      → length es ≡ length kvs
  length-Stored s [] [] h = refl
  length-Stored s [] (kv ∷ kvs) h = absurd h
  length-Stored s (e ∷ es) [] h = absurd h
  length-Stored s (e ∷ es) (kv ∷ kvs) h = ap suc (length-Stored s es kvs h.2)

  -- The levels over the leaves.
  raise_lem :
      (s : S) (leaves : List LevelEntry) (all : List LeafEntry)
      → Level st s 0 leaves all
      → laws.Valid s
      → laws.next s + 2 * length leaves < 2 ^ 64
      → Ascending all
      → (root : ℕ) × (s' : S) × (build_up st (length leaves) s leaves ≡ ok (root, s'))
        × Extends laws s s'
        × (laws.next s' ≤ laws.next s + 2 * length leaves)
        × (h : ℕ) × (h ≤ length leaves)
        × (((all ≡ []) × (root ≡ invalid_page_id))
            ⊎ ((root < invalid_page_id) × Tree st s' h root all))
  raise_lem s [] all l v room a = (
    invalid_page_id,
    s,
    unfold build_up in refl,
    Extends-refl laws s v,
    omega arith,
    0,
    omega arith,
    inl (Level-none laws l, refl),
  )
  raise_lem s (c ∷ cs) all l v room a =
      let (root, s', run, r) =
        build_up-Rooted laws (length (c ∷ cs)) s 0 c cs all (omega arith) v room a l in
      (root, s', run, r.later, r.few, r.height, omega (arith, r.low), inr (r.page, r.tree))

  finish-Loaded :
      (b : Builder S) (all : List LeafEntry) (kvs : List (Bytes × Bytes))
      → Building laws rounds b all kvs
      → laws.next b.store + 2 * length kvs + 1 < 2 ^ 64
      → (root : ℕ) × (s' : S) × (finish st b ≡ ok (root, s'))
        × Stored st rounds s' all kvs
        × Extends laws b.store s'
        × (laws.next s' ≤ laws.next b.store + 2 * length kvs + 1)
        × (h : ℕ) × (h ≤ length kvs)
        × (((all ≡ []) × (root ≡ invalid_page_id))
            ⊎ ((root < invalid_page_id) × Tree st s' h root all))
  unfolding finish
  finish-Loaded b all kvs w room =
      let o = flush_leaf-Flushed laws rounds b all kvs w (omega arith) in
      let b' = flush_leaf st b in
      let wb = o.building in
      let level : Level st b'.store 0 b'.leaves all =
        rw (wb.joined ∙ ap (λ r. wb.flushed ++ r) o.empty ∙ append-nil wb.flushed) wb.level in
      let count : length b'.leaves ≤ length kvs = omega (
        arith,
        wb.few,
        length-Stored b'.store all kvs wb.stored,
        ap (length {A = LeafEntry}) wb.joined,
        length-append wb.flushed b'.leaf_entries,
      ) in
      let (root, s', run, x, few, h, low, tree) =
        raise_lem b'.store b'.leaves all level wb.valid (omega (arith, o.few, count)) wb.order in
      (
        root,
        s',
        run,
        Stored-Extends laws rounds all kvs x wb.stored,
        Extends-trans laws o.later x,
        omega (arith, few, o.few, count),
        h,
        omega (arith, low, count),
        tree,
      )

  pub bulk_load-Loaded :
      (s : S) (kvs : List (Bytes × Bytes))
      → laws.Valid s
      → Sorted kvs
      → All (Loadable laws rounds) kvs
      → laws.next s + 3 * leaf_pages kvs + 1 < 2 ^ 64
      → (root : ℕ) × (s' : S) × (bulk_load st s kvs ≡ ok (root, s')) × Loaded s kvs root s'
  unfolding bulk_load
  bulk_load-Loaded s kvs v o l room =
      let start : Building laws rounds (new_builder st s) [] [] = record {
        flushed = [];
        level = level_none;
        joined = refl;
        sizes = unfold entries_size in refl;
        room = omega arith;
        order = tt;
        last = refl;
        entries = tt;
        short = tt;
        stored = tt;
        valid = v;
        few = omega arith;
      } in
      let (b, run, a) = add_all_lem (new_builder st s) [] [] kvs start tt o l (omega arith) in
      let (root, s', end, stored, x, few, h, low, tree) =
        finish-Loaded b a.all kvs a.building (omega (arith, a.few, length-leaf_pages kvs)) in
      (
        root,
        s',
        ground (arith, run, end),
        record {
          table = record { entries = a.all; height = h; low = low; stored = stored; tree = tree };
          later = Extends-trans laws a.later x;
          few = omega (arith, few, a.few, length-leaf_pages kvs);
        },
      )

  -- Pairs in order of their keys, which are short enough for a page, loaded into a store with room for
  -- their pages, become a tree that extends the store, and for every fuel above their number `get` finds
  -- in it at every key exactly the value of the pairs.
  pub get-bulk_load :
      (s : S) (kvs : List (Bytes × Bytes)) (fuel : ℕ) (key : Bytes)
      → laws.Valid s
      → Sorted kvs
      → All (Loadable laws rounds) kvs
      → laws.next s + 3 * leaf_pages kvs + 1 < 2 ^ 64
      → length kvs < fuel
      → (root : ℕ) × (s' : S) × (bulk_load st s kvs ≡ ok (root, s'))
        × Extends laws s s'
        × (get st rounds fuel s' root key ≡ ok (find key kvs))
  get-bulk_load s kvs fuel key v o l room enough =
      let (root, s', run, w) = bulk_load-Loaded s kvs v o l room in
      (
        root,
        s',
        run,
        w.later,
        get-Table st rounds s' kvs root w.table fuel key (omega (arith, w.table.low)),
      )
