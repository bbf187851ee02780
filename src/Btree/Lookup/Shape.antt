-- ===== src/Btree/Lookup/Shape.antt =====
-- What it is for a page to be the root of a B+tree over a sorted list of entries.
use zadodb.Prelude.{ℕ, zero, suc, ◌≡◌, true, false, List, [], ◌∷◌, ◌++◌, All}
use zadodb.Prelude.{Option, none, some, if◌then◌else◌, ◌==◌}
use zadodb.Bytes.{Bytes, bytes_lt}
use zadodb.Bytes.Order.{bytes_eq}
use zadodb.Errors.{ok}
use zadodb.Btree.{LeafEntry, leaf, internal}
use zadodb.Btree.Store.{PageStore, load}

-- Every key is below `k`; no key is below `k`.
abbrev pub AllBelow : Bytes → List LeafEntry → Type 0
AllBelow k = All (λ e. bytes_lt e.key k ≡ true)

abbrev pub AllFrom : Bytes → List LeafEntry → Type 0
AllFrom k = All (λ e. bytes_lt e.key k ≡ false)

abbrev pub Ascending : List LeafEntry → Type 0
Ascending [] = Unit
Ascending (e ∷ es) = All (λ f. bytes_lt e.key f.key ≡ true) es × Ascending es

-- `Tree h id es`: page `id` is the root of a tree of height `h` whose leaves hold `es` in order.
-- `Forest h cs ks es`: the children `cs`, with the separators `ks` between them.
module _ {S : Type 0} (st : PageStore S) (s : S) where
  mutual
    pub data Tree : ℕ → ℕ → List LeafEntry → Type 0 where
      tree_leaf :
          {id : ℕ} {es : List LeafEntry}
          → load st s id ≡ ok (leaf es)
          → Ascending es
          → Tree zero id es
      tree_node :
          {h id : ℕ} {ks : List Bytes} {cs : List ℕ} {es : List LeafEntry}
          → load st s id ≡ ok (internal ks cs)
          → Forest h cs ks es
          → Tree (suc h) id es

    pub data Forest : ℕ → List ℕ → List Bytes → List LeafEntry → Type 0 where
      last_child : {h c : ℕ} {es : List LeafEntry} → Tree h c es → Forest h (c ∷ []) [] es
      next_child :
          {h c : ℕ} {cs : List ℕ} {k : Bytes} {ks : List Bytes} {es fs all : List LeafEntry}
          → Tree h c es
          → AllBelow k es
          → AllFrom k fs
          → all ≡ es ++ fs
          → Forest h cs ks fs
          → Forest h (c ∷ cs) (k ∷ ks) all

-- The entry of a key, as a list has it.
unfoldable pub find_entry : List LeafEntry → Bytes → Option LeafEntry
find_entry [] key = none
find_entry (e ∷ es) key = if e.key == key then some e else find_entry es key
