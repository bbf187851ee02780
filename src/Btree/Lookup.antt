-- ===== src/Btree/Lookup.antt =====
-- `Get` and `Scan` of internal/storage/btree/btree.go, over any page store. Both descend the tree on
-- fuel, one round for each level; a chain of overflow pages is followed on `rounds`.
-- The callback of `Scan` is a function of a state that it changes; `false` stops the scan.
pub mod Shape
pub mod Found
pub mod Keeps
pub mod Scanned
pub mod Prefix
use zadodb.Prelude.{ℕ, zero, suc, ◌+◌, ◌-◌, ltb, nat_beq, not, if◌then◌else◌, ◌&&◌, ◌||◌, Ordering}
use zadodb.Prelude.{Bool, true, false, Option, none, some}
use zadodb.Prelude.{List, [], ◌∷◌, ◌++◌, length, get_or, get_elem?, drop}
use zadodb.Bytes.{Bytes, compare_bytes, bytes_lt}
use zadodb.Errors.{Result, ok, err, out_of_fuel, panics, ◌>>=◌}
use zadodb.Page.{invalid_page_id}
use zadodb.Btree.{LeafEntry, Node, leaf, internal, leaf_search, child_index, prefix_upper}
use zadodb.Btree.Store.{PageStore, load}
use zadodb.Btree.Overflow.{materialize}

-- `keys[i] < hi`, where nil stands for no bound.
abbrev pub below : Bytes → Option Bytes → Bool
below key none = true
below key (some hi) = bytes_lt key hi

abbrev first_sep : List Bytes → Option Bytes
first_sep [] = none
first_sep (k ∷ ks) = some k

module _ {S : Type 0} (st : PageStore S) (rounds : ℕ) where
  value_at : S → Option LeafEntry → Result (Option Bytes)
  value_at s none = err panics
  value_at s (some e) = do v ← materialize st rounds s e; ok (some v)

  get_leaf : S → List LeafEntry → Bytes → Result (Option Bytes)
  get_leaf s es key =
      let (i, found) = leaf_search es key in
      if not found then ok none else value_at s (get_elem? es i)

  -- The loop of `Get`.
  pub get_loop : ℕ → S → ℕ → Bytes → Result (Option Bytes)
  get_loop zero s id key = err out_of_fuel
  get_loop (suc f) s id key = do
    n ← load st s id
    elim n [
      | leaf es ↦ get_leaf s es key
      | internal ks cs ↦ elim (get_elem? cs (child_index ks (length cs - 1) key)) [
        | none ↦ err panics
        | some child ↦ get_loop f s child key
      ]
    ]

  pub get : ℕ → S → ℕ → Bytes → Result (Option Bytes)
  get fuel s root key = if nat_beq root invalid_page_id then ok none else get_loop fuel s root key

  module _ {A : Type 0} (fn : A → Bytes → Bytes → A × Bool) (lo : Bytes) (hi : Option Bytes) where
    -- The state of the callback, and the flag `stopped`.
    abbrev Walked : Type 0
    Walked = A × Bool

    visit : S → LeafEntry → A → Result Walked
    visit s e a = do v ← materialize st rounds s e; let r = fn a e.key v; ok (r.0, not r.1)

    pub walk_entries : S → List LeafEntry → A → Bool → Result Walked
    walk_entries s es a true = ok (a, true)
    walk_entries s [] a false = ok (a, false)
    walk_entries s (e ∷ es) a false =
        let skip = walk_entries s es a false in
        let take_it = (do (a', stopped) ← visit s e a; walk_entries s es a' stopped) in
        if bytes_lt e.key lo then skip else if not (below e.key hi) then skip else take_it

    -- Child `i` is skipped if its keys end at or below `lo`, or begin at or above `hi`.
    ends_below : List Bytes → Bool
    ends_below [] = false
    ends_below (k ∷ ks) = not (nat_beq (length lo) 0) && not (bytes_lt lo k)

    starts_above : Option Bytes → Bool
    starts_above none = false
    starts_above (some k) = not (below k hi)

    -- The loop over the children from `i` on: `before` is `keys[i-1]`, `ks` is `keys[i:]`, and
    -- `walk` is the call on a child.
    pub walk_children :
        (ℕ → A → Result Walked) → Option Bytes → List Bytes → List ℕ → A → Bool → Result Walked
    walk_children walk before ks cs a true = ok (a, true)
    walk_children walk before ks [] a false = ok (a, false)
    walk_children walk before ks (c ∷ cs) a false =
        let skip = walk_children walk (first_sep ks) (drop 1 ks) cs a false in
        let descend = (do
          (a', stopped) ← walk c a
          walk_children walk (first_sep ks) (drop 1 ks) cs a' stopped) in
        if ends_below ks || starts_above before then skip else descend

    pub walk : ℕ → S → ℕ → A → Result Walked
    walk zero s id a = err out_of_fuel
    walk (suc f) s id a = do
      n ← load st s id
      elim n [
        | leaf es ↦ walk_entries s es a false
        | internal ks cs ↦ walk_children (walk f s) none ks cs a false
      ]

  -- `Scan`: the final state of the callback.
  unfoldable pub scan :
      {A : Type 0} → (A → Bytes → Bytes → A × Bool) → ℕ → S → ℕ → Bytes → A → Result A
  scan fn fuel s root p a =
      let run = (do (a', stopped) ← walk fn p (prefix_upper p) fuel s root a; ok a') in
      if nat_beq root invalid_page_id then ok a else run
