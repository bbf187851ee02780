-- ===== src/Checkpoint/Ordered.antt =====
-- The pairs that `mergeBuild` adds come in order of their keys, each key once, as the builder asks.
use zadodb.Prelude.{◌==◌, true, List, [], ◌∷◌, ◌++◌, All, All-append}
use zadodb.Prelude.{◌≡◌, Bool-cases, inl, inr}
use zadodb.Prelude.Dict.{Dict}
use zadodb.Bytes.{Bytes, bytes_lt}
use zadodb.Bytes.Order.{bytes_eq}
use zadodb.Bytes.Sorted.{Above, Sorted, lt-other, Above-trans}
use zadodb.Checkpoint.{Delta, emit, before, from, pair_at, after, merge}
use zadodb.Checkpoint.Merge.{From, from-Sorted, from-From, after-Sorted, before-Above}

emit-Above : (j : Bytes) (ds : List (Bytes × Delta)) → Above j ds → Above j (emit ds)
unfolding emit
emit-Above j [] h = tt
emit-Above j ((k, d) ∷ ds) h = elim (Bool-cases d.deleted) [
  | inl gone ↦ rw gone (emit-Above j ds h.1)
  | inr kept ↦ rw kept ((h.0, emit-Above j ds h.1))
]

emit-Sorted : (ds : List (Bytes × Delta)) → Sorted ds → Sorted (emit ds)
unfolding emit
emit-Sorted [] h = tt
emit-Sorted ((k, d) ∷ ds) h = elim (Bool-cases d.deleted) [
  | inl gone ↦ rw gone (emit-Sorted ds h.1)
  | inr kept ↦ rw kept ((emit-Above k ds h.0, emit-Sorted ds h.1))
]

from-Above : (j k : Bytes) (ds : List (Bytes × Delta)) → Above j ds → Above j (from k ds)
unfolding from
from-Above j k [] h = tt
from-Above j k ((k1, d) ∷ ds) h = elim (Bool-cases (bytes_lt k1 k)) [
  | inl less ↦ rw less (from-Above j k ds h.1)
  | inr more ↦ rw more h
]

after-Above : (k : Bytes) (ds : List (Bytes × Delta)) → From k ds → Sorted ds → Above k (after k ds)
unfolding after
after-Above k [] f h = tt
after-Above k (x ∷ xs) f h = elim (Bool-cases (x.0 == k)) [
  | inl same ↦ rw same (rw⁻¹ ((bytes_eq.beq_iff x.0 k).0 same) h.0)
  | inr other ↦
      let less : bytes_lt k x.0 ≡ true = lt-other k x.0 f other in
      rw other ((less, Above-trans k x.0 xs less h.0))
]

after-Above_any : (j k : Bytes) (ds : List (Bytes × Delta)) → Above j ds → Above j (after k ds)
unfolding after
after-Above_any j k [] h = tt
after-Above_any j k (x ∷ xs) h = elim (Bool-cases (x.0 == k)) [
  | inl same ↦ rw same h.1
  | inr other ↦ rw other h
]

-- What a base pair adds has its key.
pair_at-Above :
    (j k v : Bytes) (ds : List (Bytes × Delta)) → bytes_lt j k ≡ true → Above j (pair_at k v ds)
unfolding pair_at emit
pair_at-Above j k v [] lt = (lt, tt)
pair_at-Above j k v (x ∷ xs) lt = elim (Bool-cases (x.0 == k)) [
  | inl same ↦
      let low : bytes_lt j x.0 ≡ true = rw ((bytes_eq.beq_iff x.0 k).0 same) lt in
      elim (Bool-cases x.1.deleted) [
        | inl gone ↦ rw (same, gone) tt
        | inr kept ↦ rw (same, kept) (low, tt)
      ]
  | inr other ↦ rw other (lt, tt)
]

pair_at-Sorted :
    (k v : Bytes) (ds : List (Bytes × Delta)) (m : Dict Bytes Bytes)
    → Above k m
    → Sorted m
    → Sorted (pair_at k v ds ++ m)
unfolding pair_at emit
pair_at-Sorted k v [] m a h = (a, h)
pair_at-Sorted k v (x ∷ xs) m a h = elim (Bool-cases (x.0 == k)) [
  | inl same ↦
      let low : Above x.0 m = rw ((bytes_eq.beq_iff x.0 k).0 same) a in
      elim (Bool-cases x.1.deleted) [
        | inl gone ↦ rw (same, gone) h
        | inr kept ↦ rw (same, kept) (low, h)
      ]
  | inr other ↦ rw other (a, h)
]

emit-before-Sorted :
    (k : Bytes) (ds : List (Bytes × Delta)) (m : Dict Bytes Bytes)
    → Sorted ds
    → Sorted m
    → ((j : Bytes) → bytes_lt j k ≡ true → Above j m)
    → Sorted (emit (before k ds) ++ m)
unfolding emit before
emit-before-Sorted k [] m h hm a = hm
emit-before-Sorted k ((k1, d) ∷ ds) m h hm a = elim (Bool-cases (bytes_lt k1 k)) [
  | inr more ↦ rw more hm
  | inl less ↦ elim (Bool-cases d.deleted) [
    | inl gone ↦ rw (less, gone) (emit-before-Sorted k ds m h.1 hm a)
    | inr kept ↦
        rw (less, kept)
          (
            All-append (λ x. bytes_lt k1 x.0 ≡ true) (emit (before k ds)) m
                (emit-Above k1 (before k ds) (before-Above k1 k ds h.0)) (a k1 less),
            emit-before-Sorted k ds m h.1 hm a,
          )
  ]
]

merge-Above :
    (j : Bytes) (base : Dict Bytes Bytes) (ds : List (Bytes × Delta))
    → Above j base
    → Above j ds
    → Above j (merge base ds)
unfolding merge
merge-Above j [] ds hb hd = emit-Above j ds hd
merge-Above j ((k, v) ∷ kvs) ds hb hd =
    let left = from-Above j k ds hd in
    All-append (λ x. bytes_lt j x.0 ≡ true) (emit (before k ds)) _
      (emit-Above j (before k ds) (before-Above j k ds hd))
      (All-append (λ x. bytes_lt j x.0 ≡ true) (pair_at k v (from k ds)) _
        (pair_at-Above j k v (from k ds) hb.0)
        (merge-Above j kvs (after k (from k ds)) hb.1 (after-Above_any j k (from k ds) left)))

-- Sorted pairs of the base and sorted deltas merge into sorted pairs.
pub merge-Sorted :
    (base : Dict Bytes Bytes) (ds : List (Bytes × Delta))
    → Sorted base
    → Sorted ds
    → Sorted (merge base ds)
unfolding merge
merge-Sorted [] ds hb hd = emit-Sorted ds hd
merge-Sorted ((k, v) ∷ kvs) ds hb hd =
    let left = from k ds in
    let sorted = from-Sorted k ds hd in
    let above =
      merge-Above k kvs (after k left) hb.0 (after-Above k left (from-From k ds) sorted) in
    let rest = merge-Sorted kvs (after k left) hb.1 (after-Sorted k left sorted) in
    emit-before-Sorted k ds _ hd (pair_at-Sorted k v left _ above rest) (λ j lt.
      All-append (λ x. bytes_lt j x.0 ≡ true) (pair_at k v left) _ (pair_at-Above j k v left lt)
        (Above-trans j k _ lt above))

-- What holds of every pair of the base, and of every key with the data of its delta, holds of every pair
-- that is added.
module _ (P : Bytes × Bytes → Type 0) where
  abbrev pub Each : List (Bytes × Delta) → Type 0
  Each = All (λ x. P (x.0, x.1.data_of))

  All-emit : (ds : List (Bytes × Delta)) → Each ds → All P (emit ds)
  unfolding emit
  All-emit [] h = tt
  All-emit ((k, d) ∷ ds) h = elim (Bool-cases d.deleted) [
    | inl gone ↦ rw gone (All-emit ds h.1)
    | inr kept ↦ rw kept ((h.0, All-emit ds h.1))
  ]

  Each-before : (k : Bytes) (ds : List (Bytes × Delta)) → Each ds → Each (before k ds)
  unfolding before
  Each-before k [] h = tt
  Each-before k ((k1, d) ∷ ds) h = elim (Bool-cases (bytes_lt k1 k)) [
    | inl less ↦ rw less ((h.0, Each-before k ds h.1))
    | inr more ↦ rw more tt
  ]

  Each-from : (k : Bytes) (ds : List (Bytes × Delta)) → Each ds → Each (from k ds)
  unfolding from
  Each-from k [] h = tt
  Each-from k ((k1, d) ∷ ds) h = elim (Bool-cases (bytes_lt k1 k)) [
    | inl less ↦ rw less (Each-from k ds h.1)
    | inr more ↦ rw more h
  ]

  Each-after : (k : Bytes) (ds : List (Bytes × Delta)) → Each ds → Each (after k ds)
  unfolding after
  Each-after k [] h = tt
  Each-after k (x ∷ xs) h = elim (Bool-cases (x.0 == k)) [
    | inl same ↦ rw same h.1
    | inr other ↦ rw other h
  ]

  All-pair_at :
      (k v : Bytes) (ds : List (Bytes × Delta)) → P (k, v) → Each ds → All P (pair_at k v ds)
  unfolding pair_at
  All-pair_at k v [] p h = (p, tt)
  All-pair_at k v (x ∷ xs) p h = elim (Bool-cases (x.0 == k)) [
    | inl same ↦ rw same (All-emit (x ∷ []) (h.0, tt))
    | inr other ↦ rw other (p, tt)
  ]

  pub All-merge :
      (base : Dict Bytes Bytes) (ds : List (Bytes × Delta))
      → All P base
      → Each ds
      → All P (merge base ds)
  unfolding merge
  All-merge [] ds hb hd = All-emit ds hd
  All-merge ((k, v) ∷ kvs) ds hb hd =
      let left = Each-from k ds hd in
      All-append P (emit (before k ds)) _ (All-emit (before k ds) (Each-before k ds hd)) (
        All-append P (pair_at k v (from k ds)) _ (All-pair_at k v (from k ds) hb.0 left)
          (All-merge kvs (after k (from k ds)) hb.1 (Each-after k (from k ds) left)))
