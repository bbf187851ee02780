-- ===== src/Btree.antt =====
-- internal/storage/btree/node.go and split.go: nodes in memory, searching and splitting them, and the
-- upper end of a prefix scan. The Go `node` has a flag `leaf`; here it is the constructor.
pub mod Encode
pub mod Store
pub mod Overflow
pub mod Lookup
pub mod Tree
pub mod Build
use zadodb.Prelude.{ℕ, zero, suc, ◌+◌, ◌-◌, ◌*◌, ◌/◌, ◌^◌, ltb, nat_beq, leb, if◌then◌else◌}
use zadodb.Prelude.{Ordering, Bool, true, false, not, Option, none, some}
use zadodb.Prelude.{List, [], ◌∷◌, ◌++◌, length, get_or, take, drop}
use zadodb.Bytes.{Bytes, compare_bytes, bytes_lt}
use zadodb.Page.{body_size}

abbrev pub max_inline : ℕ
max_inline = 512

-- A value in its leaf, or the head and size of its overflow chain.
pub data EntryValue : Type 0 where
  inline : Bytes → EntryValue
  overflow : ℕ → ℕ → EntryValue

pub record LeafEntry : Type 0 where
  pub key : Bytes
  pub value : EntryValue

pub data Node : Type 0 where
  leaf : List LeafEntry → Node
  internal : List Bytes → List ℕ → Node

abbrev pub next_index : ℕ × Bool → ℕ × Bool
next_index (i, b) = (suc i, b)

-- `leafSearch`: the first entry whose key is not below `key`.
unfoldable pub leaf_search : List LeafEntry → Bytes → ℕ × Bool
leaf_search [] key = (0, false)
leaf_search (e ∷ es) key =
    let rest = next_index (leaf_search es key) in
    elim (compare_bytes e.key key) [
      | Ordering.eq ↦ (0, true)
      | Ordering.gt ↦ (0, false)
      | Ordering.lt ↦ rest
    ]

-- `childIndex` over the separators; `last` is `len(n.children) - 1`.
unfoldable pub child_index : List Bytes → ℕ → Bytes → ℕ
child_index [] last key = last
child_index (sep ∷ seps) last key =
    let rest = suc (child_index seps (last - 1) key) in if bytes_lt key sep then 0 else rest

unfoldable pub entry_size : LeafEntry → ℕ
entry_size e = elim e.value [
  | overflow head size ↦ 2 + length e.key + 1 + 16
  | inline v ↦ 2 + length e.key + 1 + 4 + length v
]

unfoldable pub entries_size : List LeafEntry → ℕ
unfolding entry_size
entries_size [] = 0
entries_size (e ∷ es) = entry_size e + entries_size es

unfoldable pub seps_size : List Bytes → ℕ
seps_size [] = 0
seps_size (k ∷ ks) = 2 + length k + 8 + seps_size ks

unfoldable pub encoded_size : Node → ℕ
unfolding entries_size seps_size
encoded_size (leaf es) = 2 + entries_size es
encoded_size (internal ks cs) = 2 + 8 + seps_size ks

unfoldable pub fits : Node → Bool
fits n = leb (encoded_size n) body_size

-- `mid` of `splitLeaf`.
abbrev pub leaf_mid : List LeafEntry → ℕ
leaf_mid es = if nat_beq (length es / 2) 0 then 1 else length es / 2

abbrev pub first_key : List LeafEntry → Bytes
first_key [] = []
first_key (e ∷ es) = e.key

-- The left entries, the right entries, and the key of the first on the right.
unfoldable pub split_leaf : List LeafEntry → List LeafEntry × List LeafEntry × Bytes
split_leaf es = (take (leaf_mid es) es, drop (leaf_mid es) es, first_key (drop (leaf_mid es) es))

unfoldable pub split_internal : List Bytes → List ℕ → Node × Node × Bytes
split_internal ks cs =
    let mid = length ks / 2 in
    (
      internal (take mid ks) (take (mid + 1) cs),
      internal (drop (mid + 1) ks) (drop (mid + 1) cs),
      get_or ks mid [],
    )

-- `insertKeyAt` and `insertChildAt`.
unfoldable pub insert_at {ℓ} : {A : Type ℓ} → List A → ℕ → A → List A
insert_at xs i x = take i xs ++ (x ∷ drop i xs)

-- `prefixUpper`, from the front: the last byte that is not 0xFF is raised and what follows is cut.
-- `none` is Go's nil.
unfoldable pub prefix_upper : Bytes → Option Bytes
prefix_upper [] = none
prefix_upper (b ∷ bs) = elim (prefix_upper bs) [
  | some up ↦ some (b ∷ up)
  | none ↦ if nat_beq b 0xFF then none else some ((b + 1) ∷ [])
]
