-- ===== src/Btree/Build/Loaded.antt =====
-- The bulk builder as it takes pairs in order of their keys.
use zadodb.Prelude.{
  ℕ, ◌+◌, ◌<◌, ◌≤◌, ◌^◌, ◌≡◌, refl, sym, ap, ◌∙◌, arith, All, All-append, All-map, append-nil,
  append_assoc, length-append,
}
use zadodb.Prelude.{
  Option, none, some, List, [], ◌∷◌, ◌++◌, length, true, false, ltb, nat_beq, Bool-cases, inl, inr,
  le→leb, leb,
}
use zadodb.Bytes.{Bytes, bytes_lt}
use zadodb.Bytes.Order.{compare_bytes-flip, compare_bytes_trans, eq_of_compare_bytes}
use zadodb.Errors.{ok}
use zadodb.Page.{invalid_page_id, body_size}
use zadodb.Btree.{
  LeafEntry, leaf, fits, encoded_size, entry_size, entries_size, first_key, max_inline,
}
use zadodb.Btree.Encode.RoundTrip.{IsEntry}
use zadodb.Btree.Store.{PageStore, Laws, Extends, Extends-refl, put_node, put_node_lem}
use zadodb.Btree.Overflow.{materialize, make_leaf_entry, value_chunks}
use zadodb.Btree.Overflow.RoundTrip.{write_overflow_lem, read_overflow-write_overflow}
use zadodb.Btree.Lookup.Shape.{Tree, tree_leaf, Ascending}
use zadodb.Btree.Lookup.Keeps.{Extends-Keeps}
use zadodb.Btree.Build.Table.{Stored, Stored-Keeps}
use zadodb.Btree.Build.{LevelEntry, Builder, flush_leaf}
use zadodb.Btree.Build.Levels.{
  Starts, starts, max_key, Ascending-right, Level, level_none, level_some,
}
use zadodb.Btree.Build.Raised.{Level-Extends}

-- No key is above the last one.
abbrev pub UpTo : Option Bytes → List LeafEntry → Type 0
UpTo none es = es ≡ []
UpTo (some k) es = All (λ e. bytes_lt k e.key ≡ false) es

pub Ascending-snoc :
    (es : List LeafEntry) (e : LeafEntry)
    → Ascending es
    → All (λ f. bytes_lt f.key e.key ≡ true) es
    → Ascending (es ++ (e ∷ []))
Ascending-snoc [] e a u = (tt, tt)
Ascending-snoc (x ∷ es) e a u = (
  All-append (λ f. bytes_lt x.key f.key ≡ true) es (e ∷ []) a.0 (u.0, tt),
  Ascending-snoc es e a.1 u.1,
)

pub lt_of_le : (a b c : Bytes) → bytes_lt b a ≡ false → bytes_lt b c ≡ true → bytes_lt a c ≡ true
lt_of_le a b c h k =
    ground (arith, compare_bytes-flip b a, compare_bytes_trans a b c, eq_of_compare_bytes b a)

pub UpTo-below :
    (last : Option Bytes) (es : List LeafEntry) (key : Bytes)
    → UpTo last es
    → ((k : Bytes) → last ≡ some k → bytes_lt k key ≡ true)
    → All (λ f. bytes_lt f.key key ≡ true) es
UpTo-below none es key u lt = rw u tt
UpTo-below (some k) es key u lt =
    All-map (λ f. bytes_lt k f.key ≡ false) (λ f. bytes_lt f.key key ≡ true) es
      (λ f h. lt_of_le f.key k key h (lt k refl)) u

pub entries_size-append :
    (es fs : List LeafEntry) → entries_size (es ++ fs) ≡ entries_size es + entries_size fs
unfolding entries_size
entries_size-append [] fs = omega arith
entries_size-append (e ∷ es) fs = omega (arith, entries_size-append es fs)

pub entries_size-snoc :
    (es : List LeafEntry) (e : LeafEntry)
    → entries_size (es ++ (e ∷ [])) ≡ entries_size es + entry_size e
unfolding entries_size
entries_size-snoc es e = omega (arith, entries_size-append es (e ∷ []))

pub entries_size-zero : (es : List LeafEntry) → ltb 0 (length es) ≡ false → entries_size es ≡ 0
unfolding entries_size
entries_size-zero [] h = refl
entries_size-zero (e ∷ es) h = absurd (ground arith)

module _ {S : Type 0} {st : PageStore S} (laws : Laws st) (rounds : ℕ) where
  pub Stored-Extends :
      {s s' : S} (es : List LeafEntry) (kvs : List (Bytes × Bytes))
      → Extends laws s s'
      → Stored st rounds s es kvs
      → Stored st rounds s' es kvs
  Stored-Extends es kvs x h = Stored-Keeps st st rounds es kvs (Extends-Keeps laws x) h

  -- What a builder holds after some pairs.
  pub record Building (b : Builder S) (all : List LeafEntry) (kvs : List (Bytes × Bytes))
      : Type 0 where
    pub flushed : List LeafEntry
    pub level : Level st b.store 0 b.leaves flushed
    pub joined : all ≡ flushed ++ b.leaf_entries
    pub sizes : b.leaf_bytes ≡ 2 + entries_size b.leaf_entries
    pub room : b.leaf_bytes ≤ body_size
    pub order : Ascending all
    pub last : UpTo b.last_key all
    pub entries : All IsEntry b.leaf_entries
    pub short : All (λ e. length e.key ≤ max_key) b.leaf_entries
    pub stored : Stored st rounds b.store all kvs
    pub valid : laws.Valid b.store
    pub few : length b.leaves ≤ length flushed

  Level-snoc :
      {s : S} {cs : List LevelEntry} {es : List LeafEntry} (c : LevelEntry) (fs : List LeafEntry)
      → Level st s 0 cs es
      → Tree st s 0 c.page fs
      → Starts c.first fs
      → c.page < invalid_page_id
      → length c.first ≤ max_key
      → Level st s 0 (cs ++ (c ∷ [])) (es ++ fs)
  Level-snoc c fs level_none t b p k = level_some t b p k (sym (append-nil fs)) level_none
  Level-snoc c fs (level_some {es = es} {fs = gs} t1 b1 p1 k1 q more) t b p k =
      level_some t1 b1 p1 k1 (ap (λ r. r ++ fs) q ∙ append_assoc es gs fs)
        (Level-snoc c fs more t b p k)

  Starts-first_key :
      (es : List LeafEntry)
      → nat_beq (length es) 0 ≡ false
      → All (λ e. length e.key ≤ max_key) es
      → Starts (first_key es) es × (length (first_key es) ≤ max_key)
  Starts-first_key [] h s = absurd (ground arith)
  Starts-first_key (e ∷ es) h s = (starts e es refl, s.0)

  length-zero : (es : List LeafEntry) → nat_beq (length es) 0 ≡ true → es ≡ []
  length-zero [] h = refl
  length-zero (e ∷ es) h = absurd (ground arith)

  pub record Flushed (b b' : Builder S) (all : List LeafEntry) (kvs : List (Bytes × Bytes))
      : Type 0 where
    pub building : Building b' all kvs
    pub empty : b'.leaf_entries ≡ []
    pub later : Extends laws b.store b'.store
    pub few : laws.next b'.store ≤ laws.next b.store + 1
    pub same_last : b'.last_key ≡ b.last_key

  pub flush_leaf-Flushed :
      (b : Builder S) (all : List LeafEntry) (kvs : List (Bytes × Bytes))
      → Building b all kvs
      → laws.next b.store + 1 < 2 ^ 64
      → Flushed b (flush_leaf st b) all kvs
  unfolding flush_leaf
  flush_leaf-Flushed b all kvs w room = elim (Bool-cases (nat_beq (length b.leaf_entries) 0)) [
    | inl none_left ↦ rw none_left (record {
      building = w;
      empty = length-zero b.leaf_entries none_left;
      later = Extends-refl laws b.store w.valid;
      few = omega arith;
      same_last = refl;
    })
    | inr some_left ↦
        let (start, short) = Starts-first_key b.leaf_entries some_left w.short in
        let fit : fits (leaf b.leaf_entries) ≡ true =
          unfold fits encoded_size in le→leb _ _ (omega (arith, w.sizes, w.room)) in
        let (id, read, x, count) =
          put_node_lem laws b.store (leaf b.leaf_entries) w.valid (omega arith) w.entries fit in
        let order : Ascending b.leaf_entries =
          Ascending-right w.flushed b.leaf_entries (rw⁻¹ w.joined w.order) in
        let full : 0 < length b.leaf_entries = ground arith in
        let id_of : ℕ = (put_node st b.store (leaf b.leaf_entries)).0 in
        rw some_left (record {
          building = record {
            flushed = w.flushed ++ b.leaf_entries;
            level =
                Level-snoc _ b.leaf_entries (Level-Extends laws x w.level)
                  (tree_leaf (rw id read) order) start (omega (arith, id)) short;
            joined = w.joined ∙ sym (append-nil _);
            sizes = unfold entries_size in omega arith;
            room = omega arith;
            order = w.order;
            last = w.last;
            entries = tt;
            short = tt;
            stored = Stored-Extends all kvs x w.stored;
            valid = x.valid;
            few = omega (
              arith,
              w.few,
              full,
              length-append b.leaves
                  (record { first = first_key b.leaf_entries; page = id_of } ∷ []),
              length-append w.flushed b.leaf_entries,
            );
          };
          empty = refl;
          later = x;
          few = omega (arith, count);
          same_last = refl;
        })
  ]

  pub record Made (s : S) (key val : Bytes) (r : LeafEntry × S) : Type 0 where
    pub key_same : r.0.key ≡ key
    pub sized : entry_size r.0 ≤ 7 + length key + max_inline
    pub entry : IsEntry r.0
    pub value : materialize st rounds r.1 r.0 ≡ ok val
    pub later : Extends laws s r.1
    pub few : laws.next r.1 ≤ laws.next s + length (value_chunks val)

  -- An entry for a value of any length names it, in little space.
  pub make_leaf_entry-Made :
      (s : S) (key val : Bytes)
      → laws.Valid s
      → length val < 2 ^ 64
      → laws.next s + length (value_chunks val) < 2 ^ 64
      → length (value_chunks val) < rounds
      → Made s key val (make_leaf_entry st s key val)
  unfolding make_leaf_entry entry_size materialize
  make_leaf_entry-Made s key val v short room enough =
      elim (Bool-cases (leb (length val) max_inline)) [
        | inl small ↦ rw small (record {
          key_same = refl;
          sized = ground arith;
          entry = tt;
          value = refl;
          later = Extends-refl laws s v;
          few = omega arith;
        })
        | inr large ↦
            let w = write_overflow_lem laws s val v room in
            rw large (record {
              key_same = refl;
              sized = omega arith;
              entry = (w.head_small, omega (arith, w.size));
              value =
                  read_overflow-write_overflow laws s _ val rounds v room
                    (Extends-refl laws _ w.later.valid) enough;
              later = w.later;
              few = omega (arith, w.next_after);
            })
      ]
