-- ===== src/Btree/Build/Levels.antt =====
-- A level of the bulk builder: subtrees one after another, each listed with its first key.
use zadodb.Prelude.{
  ℕ, ◌+◌, ◌<◌, ◌≤◌, ◌^◌, ◌≡◌, refl, sym, ap, ◌∙◌, arith, All, All-append_left, All-map,
  append_assoc,
}
use zadodb.Prelude.{List, [], ◌∷◌, ◌++◌, length, true, false, ltb, not, ◌&&◌, Bool-cases, inl, inr}
use zadodb.Bytes.{Bytes, bytes_lt}
use zadodb.Bytes.Order.{compare_bytes_self, compare_bytes-flip}
use zadodb.Page.{invalid_page_id, body_size}
use zadodb.Btree.{LeafEntry, seps_size}
use zadodb.Btree.Store.{PageStore}
use zadodb.Btree.Lookup.Shape.{Tree, Forest, last_child, next_child, AllBelow, AllFrom, Ascending}
use zadodb.Btree.Build.{LevelEntry, Group, fill_group}

-- A list of entries that is not empty and starts with a key.
pub data Starts : Bytes → List LeafEntry → Type 0 where
  starts : {k : Bytes} (e : LeafEntry) (es : List LeafEntry) → e.key ≡ k → Starts k (e ∷ es)

-- Keys that leave room for two separators in a page, and for an entry with an inline value.
abbrev pub max_key : ℕ
max_key = 2000

module _ {S : Type 0} (st : PageStore S) (s : S) (h : ℕ) where
  pub data Level : List LevelEntry → List LeafEntry → Type 0 where
    level_none : Level [] []
    level_some :
        {c : LevelEntry} {cs : List LevelEntry} {es fs all : List LeafEntry}
        → Tree st s h c.page es
        → Starts c.first es
        → c.page < invalid_page_id
        → length c.first ≤ max_key
        → all ≡ es ++ fs
        → Level cs fs
        → Level (c ∷ cs) all

pub Starts-append :
    {k : Bytes} {es : List LeafEntry} (fs : List LeafEntry) → Starts k es → Starts k (es ++ fs)
Starts-append fs (starts e es q) = starts e (es ++ fs) q

-- In ascending entries, what stands before a start is below it, and nothing from there on is.
pub Below-Starts :
    {k : Bytes} (es fs : List LeafEntry) → Ascending (es ++ fs) → Starts k fs → AllBelow k es
Below-Starts [] fs a t = tt
Below-Starts {k} (e ∷ es) fs a t = (head es fs a.0 t, Below-Starts es fs a.1 t)
  where
    head :
        (gs fs : List LeafEntry)
        → All (λ f. bytes_lt e.key f.key ≡ true) (gs ++ fs)
        → Starts k fs
        → bytes_lt e.key k ≡ true
    head [] fs b (starts f r q) = rw⁻¹ q b.0
    head (g ∷ gs) fs b t = head gs fs b.1 t

pub From-Starts : {k : Bytes} (es : List LeafEntry) → Ascending es → Starts k es → AllFrom k es
From-Starts {k} es a (starts e r q) = (
  rw q (ground (arith, compare_bytes_self k)),
  All-map (λ f. bytes_lt e.key f.key ≡ true) (λ f. bytes_lt f.key k ≡ false) r
      (λ f b. ground (arith, q, b, compare_bytes-flip e.key f.key)) a.0,
)

pub Ascending-left : (es fs : List LeafEntry) → Ascending (es ++ fs) → Ascending es
Ascending-left [] fs a = tt
Ascending-left (e ∷ es) fs a =
    (All-append_left (λ f. bytes_lt e.key f.key ≡ true) es fs a.0, Ascending-left es fs a.1)

pub Ascending-right : (es fs : List LeafEntry) → Ascending (es ++ fs) → Ascending fs
Ascending-right [] fs a = a
Ascending-right (e ∷ es) fs a = Ascending-right es fs a.1

-- What the inner loop of `buildInternalLevel` leaves: a node over the children that it took, which holds
-- the first part of the entries, and the level of the rest.
module _ {S : Type 0} (st : PageStore S) (s : S) (h : ℕ) where
  pub record Filled (c : LevelEntry) (g : Group) (size : ℕ) (all : List LeafEntry) : Type 0 where
    pub left : List LeafEntry
    pub right : List LeafEntry
    pub forest : Forest st s h (c.page ∷ g.pages) g.seps left
    pub start : Starts c.first left
    pub others : Level st s h g.rest right
    pub joined : all ≡ left ++ right
    pub room : size + seps_size g.seps ≤ body_size
    pub small : All (λ i. i < 2 ^ 64) g.pages
    pub paired : length g.pages ≡ length g.seps

  Level-head :
      {c : LevelEntry} {cs : List LevelEntry} {es : List LeafEntry}
      → Level st s h (c ∷ cs) es
      → (c.page < invalid_page_id) × (length c.first ≤ max_key)
  Level-head (level_some t b p k q more) = (p, k)

  Filled-take :
      (c d : LevelEntry) (g : Group) (size : ℕ) (es fs all : List LeafEntry)
      → Tree st s h c.page es
      → Starts c.first es
      → d.page < invalid_page_id
      → all ≡ es ++ fs
      → Ascending all
      → Filled d g (size + (2 + length d.first + 8)) fs
      → Filled c
          (record { seps = d.first ∷ g.seps; pages = d.page ∷ g.pages; rest = g.rest })
          size
          all
  unfolding seps_size
  Filled-take c d g size es fs all t b page q a more =
      let joined : all ≡ (es ++ more.left) ++ more.right =
        q ∙ ap (λ r. es ++ r) more.joined ∙ sym (append_assoc es more.left more.right) in
      let left : Ascending (es ++ more.left) =
        Ascending-left (es ++ more.left) more.right (rw⁻¹ joined a) in
      record {
        left = es ++ more.left;
        right = more.right;
        forest =
            next_child t (Below-Starts es more.left left more.start)
              (From-Starts more.left (Ascending-right es more.left left) more.start) refl
              more.forest;
        start = Starts-append more.left b;
        others = more.others;
        joined = joined;
        room = omega (arith, more.room);
        small = (omega arith, more.small);
        paired = omega (arith, more.paired);
      }

  pub fill_group-Filled :
      (taken size : ℕ) (c : LevelEntry) (cs : List LevelEntry) (all : List LeafEntry)
      → Level st s h (c ∷ cs) all
      → Ascending all
      → size ≤ body_size
      → 1 ≤ taken
      → (taken < 2 → size + 10 + max_key ≤ body_size)
      → Filled c (fill_group st taken size cs) size all
  unfolding fill_group seps_size
  fill_group-Filled taken size c [] all (level_some {es = es} t b p k q level_none) a le one two =
      record {
        left = es;
        right = [];
        forest = last_child t;
        start = b;
        others = level_none;
        joined = q;
        room = omega arith;
        small = tt;
        paired = refl;
      }
  fill_group-Filled taken size c (d ∷ ds) all (level_some {es = es} {fs = fs} t b p k q more) a le
        one two =
      let add_size = 2 + length d.first + 8 in
      elim (Bool-cases (not (ltb taken 2) && ltb body_size (size + add_size))) [
        | inl full ↦ rw full (record {
          left = es;
          right = fs;
          forest = last_child t;
          start = b;
          others = more;
          joined = q;
          room = omega arith;
          small = tt;
          paired = refl;
        })
        | inr space ↦
            let (page, short) = Level-head more in
            rw space (
              Filled-take c d _ size es fs all t b page q a (
                fill_group-Filled (taken + 1) (size + add_size) d ds fs more
                  (Ascending-right es fs (rw⁻¹ q a)) (ground (arith, two)) (omega arith)
                  (λ lt. absurd (omega arith))))
      ]
