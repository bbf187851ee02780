-- ===== src/Checkpoint/Merge.antt =====
-- `mergeBuild` gives the builder the base overlaid by the deltas.
use zadodb.Prelude.{if◌then◌else◌, ◌==◌, true, false, Option, none, some, List, [], ◌∷◌, ◌++◌}
use zadodb.Prelude.{◌≡◌, refl, sym, ap, ◌∙◌, arith, Bool-cases, inl, inr, Option-cases}
use zadodb.Prelude.Dict.{Dict, find}
use zadodb.Bytes.{Bytes, bytes_lt}
use zadodb.Bytes.Order.{bytes_eq}
use zadodb.Bytes.Sorted.{
  Above, Sorted, or_else, lt-ne, lt-from, lt-other, Above-trans, find-Above, find-append,
}
use zadodb.Checkpoint.{Delta, emit, before, from, pair_at, after, merge}

-- The value that a delta leaves at its key, over the base's.
abbrev pub over : Option Delta → Option Bytes → Option Bytes
over none b = b
over (some d) b = if d.deleted then none else some d.data_of

find-emit :
    (key : Bytes) (ds : List (Bytes × Delta))
    → Sorted ds
    → find key (emit ds) ≡ over (find key ds) none
unfolding find emit
find-emit key [] h = refl
find-emit key ((k, d) ∷ ds) h = elim (Bool-cases (k == key)) [
  | inl same ↦
      let e : k ≡ key = (bytes_eq.beq_iff k key).0 same in
      let rest : find key ds ≡ none = find-Above key ds (rw⁻¹ e h.0) in
      ground (arith, find-emit key ds h.1, rest)
  | inr other ↦ ground (arith, find-emit key ds h.1)
]

before-from : (k : Bytes) (ds : List (Bytes × Delta)) → before k ds ++ from k ds ≡ ds
unfolding before from
before-from k [] = refl
before-from k ((k1, d) ∷ ds) = ground (arith, before-from k ds)

find-before-from :
    (key k : Bytes) (ds : List (Bytes × Delta))
    → find key ds ≡ or_else (find key (before k ds)) (find key (from k ds))
find-before-from key k ds =
    ap (find key) (sym (before-from k ds)) ∙ find-append key (before k ds) (from k ds)

pub before-Above : (j k : Bytes) (ds : List (Bytes × Delta)) → Above j ds → Above j (before k ds)
unfolding before
before-Above j k [] h = tt
before-Above j k ((k1, d) ∷ ds) h = elim (Bool-cases (bytes_lt k1 k)) [
  | inl less ↦ rw less ((h.0, before-Above j k ds h.1))
  | inr more ↦ rw more tt
]

before-Sorted : (k : Bytes) (ds : List (Bytes × Delta)) → Sorted ds → Sorted (before k ds)
unfolding before
before-Sorted k [] h = tt
before-Sorted k ((k1, d) ∷ ds) h = elim (Bool-cases (bytes_lt k1 k)) [
  | inl less ↦ rw less ((before-Above k1 k ds h.0, before-Sorted k ds h.1))
  | inr more ↦ rw more tt
]

pub from-Sorted : (k : Bytes) (ds : List (Bytes × Delta)) → Sorted ds → Sorted (from k ds)
unfolding from
from-Sorted k [] h = tt
from-Sorted k ((k1, d) ∷ ds) h = elim (Bool-cases (bytes_lt k1 k)) [
  | inl less ↦ rw less (from-Sorted k ds h.1)
  | inr more ↦ rw more h
]

-- Deltas that start at `k` or above it.
abbrev pub From : Bytes → List (Bytes × Delta) → Type 0
From k [] = Unit
From k (x ∷ xs) = bytes_lt x.0 k ≡ false

pub from-From : (k : Bytes) (ds : List (Bytes × Delta)) → From k (from k ds)
unfolding from
from-From k [] = tt
from-From k ((k1, d) ∷ ds) = elim (Bool-cases (bytes_lt k1 k)) [
  | inl less ↦ rw less (from-From k ds)
  | inr more ↦ rw more more
]

find-From :
    (key k : Bytes) (ds : List (Bytes × Delta))
    → bytes_lt key k ≡ true
    → From k ds
    → Sorted ds
    → find key ds ≡ none
find-From key k [] lt f h = unfold find in refl
find-From key k (x ∷ xs) lt f h =
    let less : bytes_lt key x.0 ≡ true = lt-from key k x.0 lt f in
    find-Above key (x ∷ xs) (less, Above-trans key x.0 xs less h.0)

find-before-lt :
    (key k : Bytes) (ds : List (Bytes × Delta)) (d : Delta)
    → find key (before k ds) ≡ some d
    → bytes_lt key k ≡ true
unfolding find before
find-before-lt key k [] d h = ground arith
find-before-lt key k ((k1, d1) ∷ ds) d h = elim (Bool-cases (bytes_lt k1 k)) [
  | inl less ↦ elim (Bool-cases (k1 == key)) [
    | inl same ↦ rw⁻¹ ((bytes_eq.beq_iff k1 key).0 same) less
    | inr other ↦ find-before-lt key k ds d (ground arith)
  ]
  | inr more ↦ ground arith
]

pub after-Sorted : (k : Bytes) (ds : List (Bytes × Delta)) → Sorted ds → Sorted (after k ds)
unfolding after
after-Sorted k [] h = tt
after-Sorted k (x ∷ xs) h = elim (Bool-cases (x.0 == k)) [
  | inl same ↦ rw same h.1
  | inr other ↦ rw other h
]

-- The deltas before a base pair decide where they have the key; where they have, nothing behind has it.
merge_step :
    (key k : Bytes) (bs left : List (Bytes × Delta)) (kvs m : Dict Bytes Bytes)
    → find key m ≡ over (find key left) (find key kvs)
    → find key (emit bs) ≡ over (find key bs) none
    → ((d : Delta) → find key bs ≡ some d → (find key left ≡ none) × (find key kvs ≡ none))
    → or_else (find key (emit bs)) (find key m)
      ≡ over (or_else (find key bs) (find key left)) (find key kvs)
merge_step key k bs left kvs m tail front only = elim (Option-cases (find key bs)) [
  | inl miss ↦ rw (front, miss) tail
  | inr (d, hit) ↦
      let (no_delta, no_pair) = only d hit in
      rw (front, hit) (ground (arith, tail, no_delta, no_pair))
]

-- The pair of the base and the delta in view.
find-pair_at :
    (key k v : Bytes) (ds : List (Bytes × Delta)) (kvs m : Dict Bytes Bytes)
    → Sorted ds
    → From k ds
    → Above k kvs
    → find key m ≡ over (find key (after k ds)) (find key kvs)
    → find key (pair_at k v ds ++ m) ≡ over (find key ds) (find key ((k, v) ∷ kvs))
unfolding find pair_at after emit
find-pair_at key k v [] kvs m h f a e = ground (arith, e)
find-pair_at key k v ((k1, d) ∷ ds) kvs m h f a e = elim (Bool-cases (k1 == k)) [
  | inl same ↦
      let k_eq : k1 ≡ k = (bytes_eq.beq_iff k1 k).0 same in
      elim (Bool-cases (k == key)) [
        | inl hit ↦
            let key_eq : k ≡ key = (bytes_eq.beq_iff k key).0 hit in
            let no_delta : find key ds ≡ none = find-Above key ds (rw⁻¹ (k_eq ∙ key_eq) h.0) in
            let no_pair : find key kvs ≡ none = find-Above key kvs (rw⁻¹ key_eq a) in
            let at : (k1 == key) ≡ true = rw k_eq hit in ground (arith, e, no_delta, no_pair)
        | inr miss ↦ let past : (k1 == key) ≡ false = rw k_eq miss in ground (arith, e)
      ]
  | inr other ↦
      let less : bytes_lt k k1 ≡ true = lt-other k k1 f other in
      elim (Bool-cases (k == key)) [
        | inl hit ↦
            let key_eq : k ≡ key = (bytes_eq.beq_iff k key).0 hit in
            let lower : bytes_lt key k1 ≡ true = rw⁻¹ key_eq less in
            let past : (k1 == key) ≡ false = lt-ne key k1 lower in
            let no_delta : find key ds ≡ none =
              find-Above key ds (Above-trans key k1 ds lower h.0) in
            ground (arith, no_delta)
        | inr miss ↦ ground (arith, e)
      ]
]

-- For sorted pairs of the base and sorted deltas: at every key, what `mergeBuild` adds is the delta's
-- value, nothing where the delta deletes, and the base's value where there is no delta.
pub find-merge :
    (key : Bytes) (base : Dict Bytes Bytes) (ds : List (Bytes × Delta))
    → Sorted base
    → Sorted ds
    → find key (merge base ds) ≡ over (find key ds) (find key base)
unfolding merge
find-merge key [] ds hb hd = unfold find in find-emit key ds hd
find-merge key ((k, v) ∷ kvs) ds hb hd =
    let left = from k ds in
    let tail =
      find-pair_at key k v left kvs (merge kvs (after k left)) (from-Sorted k ds hd)
        (from-From k ds) hb.0
        (find-merge key kvs (after k left) hb.1 (after-Sorted k left (from-Sorted k ds hd))) in
    find-append key (emit (before k ds)) _
    ∙ merge_step key k (before k ds) left ((k, v) ∷ kvs) _ tail
        (find-emit key (before k ds) (before-Sorted k ds hd))
        (λ d hit.
          let less = find-before-lt key k ds d hit in
          (
            find-From key k left less (from-From k ds) (from-Sorted k ds hd),
            find-Above key ((k, v) ∷ kvs) (less, Above-trans key k kvs less hb.0),
          ))
    ∙ ap (λ o. over o (find key ((k, v) ∷ kvs))) (sym (find-before-from key k ds))
