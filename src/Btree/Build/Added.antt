-- ===== src/Btree/Build/Added.antt =====
-- `Add` of the bulk builder, once and for all pairs.
use zadodb.Prelude.{
  ℕ, ◌+◌, ◌<◌, ◌≤◌, ◌^◌, ◌≡◌, refl, ap, ◌∙◌, arith, All-append, All-map, append_assoc,
}
use zadodb.Prelude.{some, List, [], ◌∷◌, ◌++◌, length, true, false, ltb, ◌&&◌, Bool-cases, inl, inr}
use zadodb.Bytes.{Bytes, bytes_lt}
use zadodb.Bytes.Order.{compare_bytes_self, compare_bytes-flip}
use zadodb.Errors.{ok}
use zadodb.Page.{body_size}
use zadodb.Btree.{LeafEntry, entry_size, entries_size}
use zadodb.Btree.Encode.RoundTrip.{IsEntry}
use zadodb.Btree.Store.{PageStore, Laws, Extends, Extends-trans}
use zadodb.Btree.Overflow.{materialize, make_leaf_entry, value_chunks}
use zadodb.Btree.Lookup.Keeps.{materialize-Extends}
use zadodb.Btree.Build.{Builder, flush_leaf, add, append_entry, ascending}
use zadodb.Btree.Build.Levels.{max_key}
use zadodb.Btree.Build.Raised.{Level-Extends}
use zadodb.Btree.Build.Table.{Stored-snoc}
use zadodb.Btree.Build.Loaded.{
  entries_size-zero, UpTo-below, Ascending-snoc, entries_size-snoc, Stored-Extends, Building,
  flush_leaf-Flushed, make_leaf_entry-Made,
}

module _ {S : Type 0} {st : PageStore S} (laws : Laws st) (rounds : ℕ) where
  Building-Extends :
      (b : Builder S) (s : S) (all : List LeafEntry) (kvs : List (Bytes × Bytes))
      → Building laws rounds b all kvs
      → Extends laws b.store s
      → Building laws rounds (record b { store = s }) all kvs
  Building-Extends b s all kvs w x = record {
    flushed = w.flushed;
    level = Level-Extends laws x w.level;
    joined = w.joined;
    sizes = w.sizes;
    room = w.room;
    order = w.order;
    last = w.last;
    entries = w.entries;
    short = w.short;
    stored = Stored-Extends laws rounds all kvs x w.stored;
    valid = x.valid;
    few = w.few;
  }

  append_entry-Building :
      (b : Builder S) (all : List LeafEntry) (kvs : List (Bytes × Bytes)) (e : LeafEntry)
      (k v : Bytes)
      → Building laws rounds b all kvs
      → e.key ≡ k
      → ascending st b.last_key e.key ≡ true
      → b.leaf_bytes + entry_size e ≤ body_size
      → length e.key ≤ max_key
      → IsEntry e
      → materialize st rounds b.store e ≡ ok v
      → Building laws rounds (append_entry st b e) (all ++ (e ∷ [])) (kvs ++ ((k, v) ∷ []))
  unfolding append_entry ascending
  append_entry-Building b all kvs e k v w same asc room short ie value =
      let below = UpTo-below b.last_key all e.key w.last (λ l q. ground (arith, q)) in
      record {
        flushed = w.flushed;
        level = w.level;
        joined = ap (λ r. r ++ (e ∷ [])) w.joined ∙ append_assoc w.flushed b.leaf_entries (e ∷ []);
        sizes = omega (arith, w.sizes, entries_size-snoc b.leaf_entries e);
        room = room;
        order = Ascending-snoc all e w.order below;
        last =
            All-append (λ f. bytes_lt e.key f.key ≡ false) all (e ∷ [])
              (All-map (λ f. bytes_lt f.key e.key ≡ true) (λ f. bytes_lt e.key f.key ≡ false) all
                (λ f h. ground (arith, compare_bytes-flip f.key e.key)) below)
              (ground (arith, compare_bytes_self e.key), tt);
        entries = All-append IsEntry b.leaf_entries (e ∷ []) w.entries (ie, tt);
        short =
            All-append (λ f. length f.key ≤ max_key) b.leaf_entries (e ∷ []) w.short (short, tt);
        stored = Stored-snoc st rounds b.store all kvs e k v w.stored same value;
        valid = w.valid;
        few = w.few;
      }

  pub record Added (b b' : Builder S) (all : List LeafEntry) (kvs : List (Bytes × Bytes))
      (k v : Bytes) : Type 0 where
    pub entry : LeafEntry
    pub building : Building laws rounds b' (all ++ (entry ∷ [])) (kvs ++ ((k, v) ∷ []))
    pub later : Extends laws b.store b'.store
    pub few : laws.next b'.store ≤ laws.next b.store + length (value_chunks v) + 1
    pub last_is : b'.last_key ≡ some k

  -- What the bulk load asks of a pair.
  abbrev pub Loadable : Bytes × Bytes → Type 0
  Loadable (k, v) = (length k ≤ max_key) × (length v < 2 ^ 64) × (length (value_chunks v) < rounds)

  pub add-Added :
      (b : Builder S) (all : List LeafEntry) (kvs : List (Bytes × Bytes)) (k v : Bytes)
      → Building laws rounds b all kvs
      → Loadable (k, v)
      → ascending st b.last_key k ≡ true
      → laws.next b.store + length (value_chunks v) + 1 < 2 ^ 64
      → (b' : Builder S) × (add st b k v ≡ ok b') × Added b b' all kvs k v
  unfolding add
  add-Added b all kvs k v w load asc room =
      let m = make_leaf_entry-Made laws rounds b.store k v w.valid load.1 (omega arith) load.2 in
      let e = (make_leaf_entry st b.store k v).0 in
      let b1 : Builder S = record b { store = (make_leaf_entry st b.store k v).1 } in
      let w1 = Building-Extends b b1.store all kvs w m.later in
      elim (Bool-cases
        (ltb 0 (length b.leaf_entries) && ltb body_size (b.leaf_bytes + entry_size e))) [
          | inl full ↦
              let o = flush_leaf-Flushed laws rounds b1 all kvs w1 (omega (arith, m.few)) in
              let b2 = flush_leaf st b1 in
              let empty_bytes : b2.leaf_bytes ≡ 2 =
                o.building.sizes
                ∙ ap (λ es. 2 + entries_size es) o.empty
                ∙ (unfold entries_size in refl) in
              (
                append_entry st b2 e,
                ground (arith, asc, full),
                record {
                  entry = e;
                  building =
                      append_entry-Building b2 all kvs e k v o.building m.key_same
                        (rw (m.key_same) (rw o.same_last asc))
                        (omega (arith, m.sized, load.0, empty_bytes)) (rw m.key_same load.0) m.entry
                        (materialize-Extends laws rounds e v o.later m.value);
                  later = Extends-trans laws m.later o.later;
                  few = omega (arith, o.few, m.few);
                  last_is = ap some m.key_same;
                },
              )
          | inr space ↦ (
            append_entry st b1 e,
            ground (arith, asc, space),
            record {
              entry = e;
              building =
                  append_entry-Building b1 all kvs e k v w1 m.key_same (rw (m.key_same) asc)
                    (ground
                      (arith, m.sized, load.0, w.sizes, w.room, entries_size-zero b.leaf_entries))
                    (rw m.key_same load.0) m.entry m.value;
              later = m.later;
              few = omega (arith, m.few);
              last_is = ap some m.key_same;
            },
          )
        ]
