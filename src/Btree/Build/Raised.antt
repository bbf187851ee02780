-- ===== src/Btree/Build/Raised.antt =====
-- One level of internal nodes over another, and the levels up to the root.
use zadodb.Prelude.{ℕ, zero, suc, ◌+◌, ◌-◌, ◌*◌, ◌<◌, ◌≤◌, ◌^◌, ◌≡◌, refl, ◌∙◌, arith, append-nil}
use zadodb.Prelude.{List, [], ◌∷◌, length, le→leb}
use zadodb.Errors.{Result, ok}
use zadodb.Page.{invalid_page_id}
use zadodb.Btree.{LeafEntry, Node, internal, fits, encoded_size}
use zadodb.Btree.Store.{
  PageStore, Laws, Extends, Extends-refl, Extends-trans, put_node, put_node_lem,
}
use zadodb.Btree.Lookup.Shape.{Tree, tree_node, Ascending}
use zadodb.Btree.Lookup.Keeps.{Tree-Extends, Forest-Extends}
use zadodb.Btree.Build.{LevelEntry, fill_group, build_level, build_up}
use zadodb.Btree.Build.Levels.{
  starts, Level, level_none, level_some, fill_group-Filled, Ascending-right,
}

module _ {S : Type 0} {st : PageStore S} (laws : Laws st) where
  pub Level-Extends :
      {s s' : S} {h : ℕ} {cs : List LevelEntry} {es : List LeafEntry}
      → Extends laws s s'
      → Level st s h cs es
      → Level st s' h cs es
  Level-Extends x level_none = level_none
  Level-Extends x (level_some t b p k q more) =
      level_some (Tree-Extends laws x t) b p k q (Level-Extends x more)

  length-fill_group :
      (taken size : ℕ) (cs : List LevelEntry)
      → length (fill_group st taken size cs).rest ≤ length cs
  unfolding fill_group
  length-fill_group taken size [] = omega arith
  length-fill_group taken size (c ∷ cs) =
      ground (arith, length-fill_group (taken + 1) (size + (2 + length c.first + 8)) cs)

  -- A node takes a second child if there is one.
  length-fill_group_one :
      (size : ℕ) (cs : List LevelEntry) → length (fill_group st 1 size cs).rest ≤ length cs - 1
  unfolding fill_group
  length-fill_group_one size [] = omega arith
  length-fill_group_one size (c ∷ cs) =
      ground (arith, length-fill_group 2 (size + (2 + length c.first + 8)) cs)

  pub record Raised (s : S) (h n : ℕ) (all : List LeafEntry) (r : List LevelEntry × S)
      : Type 0 where
    pub later : Extends laws s r.1
    pub level : Level st r.1 (suc h) r.0 all
    pub halved : 2 * length r.0 ≤ n + 1
    pub pages : laws.next r.1 ≡ laws.next s + length r.0

  pub build_level-Raised :
      (f : ℕ) (s : S) (h : ℕ) (cs : List LevelEntry) (all : List LeafEntry)
      → length cs ≤ f
      → laws.Valid s
      → laws.next s + length cs < 2 ^ 64
      → Ascending all
      → Level st s h cs all
      → Raised s h (length cs) all (build_level st f s cs)
  unfolding build_level
  build_level-Raised f s h [] all le v room a level_none = record {
    later = Extends-refl laws s v;
    level = level_none;
    halved = omega arith;
    pages = omega arith;
  }
  build_level-Raised zero s h (c ∷ cs) all le v room a l = absurd (omega arith)
  build_level-Raised (suc f) s h (c ∷ cs) all le v room a (level_some t b p k q more) =
      let g = fill_group st 1 (2 + 8) cs in
      let whole : Level st s h (c ∷ cs) all = level_some t b p k q more in
      let o =
        fill_group-Filled st s h 1 (2 + 8) c cs all whole a (omega arith) (omega arith)
          (λ lt. omega arith) in
      let n : Node = internal g.seps (c.page ∷ g.pages) in
      let (id, read, x, count) =
        put_node_lem laws s n v (omega arith) (omega (arith, o.paired), (omega arith, o.small))
          (unfold fits encoded_size in le→leb _ _ o.room) in
      let s1 = (put_node st s n).1 in
      let rest =
        build_level-Raised f s1 h g.rest o.right (omega (arith, length-fill_group 1 (2 + 8) cs))
          x.valid (omega (arith, count, length-fill_group 1 (2 + 8) cs))
          (Ascending-right o.left o.right (rw⁻¹ o.joined a)) (Level-Extends x o.others) in
      record {
        later = Extends-trans laws x rest.later;
        level =
            level_some
              (Tree-Extends laws rest.later
                (tree_node (rw id read) (Forest-Extends laws x o.forest)))
              o.start (omega (arith, id)) k o.joined rest.level;
        halved = omega (arith, rest.halved, length-fill_group_one (2 + 8) cs);
        pages = omega (arith, rest.pages, count);
      }

  -- The root over a level that is not empty.
  pub record Rooted (s : S) (h n : ℕ) (all : List LeafEntry) (root : ℕ) (s' : S) : Type 0 where
    pub height : ℕ
    pub low : height ≤ h + n
    pub later : Extends laws s s'
    pub tree : Tree st s' height root all
    pub page : root < invalid_page_id
    pub few : laws.next s' ≤ laws.next s + 2 * n

  pub Level-none : {s : S} {h : ℕ} {es : List LeafEntry} → Level st s h [] es → es ≡ []
  Level-none level_none = refl

  abbrev pub Finished : S → ℕ → ℕ → List LeafEntry → Result (ℕ × S) → Type 0
  Finished s h n all r = (root : ℕ) × (s' : S) × (r ≡ ok (root, s')) × Rooted s h n all root s'

  -- A level over one that is not empty is not empty, and its root is the root of both.
  build_up_over :
      (f : ℕ) (s : S) (h n : ℕ) (all : List LeafEntry) (r : List LevelEntry × S)
      → 2 ≤ n
      → n ≤ suc f
      → 0 < length all
      → laws.next s + 2 * n < 2 ^ 64
      → Raised s h n all r
      → ((c : LevelEntry) (cs : List LevelEntry)
          → length (c ∷ cs) ≤ f
          → laws.next r.1 + 2 * length (c ∷ cs) < 2 ^ 64
          → Level st r.1 (suc h) (c ∷ cs) all
          → Finished r.1 (suc h) (length (c ∷ cs)) all (build_up st f r.1 (c ∷ cs)))
      → Finished s h n all (build_up st f r.1 r.0)
  build_up_over f s h n all ([], s1) two le full room up ih =
      absurd (ground (arith, Level-none up.level))
  build_up_over f s h n all (c ∷ cs, s1) two le full room up ih =
      let (root, s', run, o) =
        ih c cs (omega (arith, up.halved)) (omega (arith, up.halved, up.pages)) up.level in
      (
        root,
        s',
        run,
        record {
          height = o.height;
          low = omega (arith, o.low, up.halved);
          later = Extends-trans laws up.later o.later;
          tree = o.tree;
          page = o.page;
          few = omega (arith, o.few, up.halved, up.pages);
        },
      )

  length-Level :
      {s : S} {h : ℕ} {c : LevelEntry} {cs : List LevelEntry} {all : List LeafEntry}
      → Level st s h (c ∷ cs) all
      → 0 < length all
  length-Level (level_some {es = es} {fs = fs} t (starts e r b) p k q more) = rw q (omega arith)

  pub build_up-Rooted :
      (f : ℕ) (s : S) (h : ℕ) (c : LevelEntry) (cs : List LevelEntry) (all : List LeafEntry)
      → length (c ∷ cs) ≤ f
      → laws.Valid s
      → laws.next s + 2 * length (c ∷ cs) < 2 ^ 64
      → Ascending all
      → Level st s h (c ∷ cs) all
      → (root : ℕ) × (s' : S) × (build_up st f s (c ∷ cs) ≡ ok (root, s'))
        × Rooted s h (length (c ∷ cs)) all root s'
  unfolding build_up
  build_up-Rooted f s h c [] all le v room a (level_some {es = es} t b p k q level_none) = (
    c.page,
    s,
    refl,
    record {
      height = h;
      low = omega arith;
      later = Extends-refl laws s v;
      tree = rw (q ∙ append-nil es) t;
      page = p;
      few = omega arith;
    },
  )
  build_up-Rooted zero s h c (d ∷ ds) all le v room a l = absurd (omega arith)
  build_up-Rooted (suc f) s h c (d ∷ ds) all le v room a l =
      let n = length (c ∷ d ∷ ds) in
      let up = build_level-Raised n s h (c ∷ d ∷ ds) all (omega arith) v (omega arith) a l in
      build_up_over f s h n all (build_level st n s (c ∷ d ∷ ds)) (omega arith) le (length-Level l)
        room up
        (λ c' cs' le' room' l'.
          build_up-Rooted f _ (suc h) c' cs' all le' up.later.valid room' a l')
