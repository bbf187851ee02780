-- ===== src/Checkpoint/Deltas.antt =====
-- The deltas of a log, sorted, are the net effect of its writes in order.
use zadodb.Prelude.{ℕ, if◌then◌else◌, ◌==◌, true, Option, none, some, List, [], ◌∷◌, All, eq_self}
use zadodb.Prelude.{◌≡◌, refl, ◌∙◌, arith, Bool-cases, inl, inr}
use zadodb.Prelude.Dict.{Dict, find, put, remove, find-put, find-remove}
use zadodb.Bytes.{Bytes, bytes_lt}
use zadodb.Bytes.Order.{bytes_eq}
use zadodb.Bytes.Sorted.{Above, Sorted, lt-other, Above-trans}
use zadodb.Wal.{
  WalEntry, wal_entry, Subs, OpType, op_put, op_delete, op_create_class, op_drop_class, op_batch,
  op_unknown, op, payload, key_of,
}
use zadodb.Checkpoint.{Delta, delta_of, put_deltas, insert_delta, sort_deltas}
use zadodb.Checkpoint.Merge.{over}

-- A map that holds each key once.
abbrev pub NoDup : {V : Type 0} → Dict Bytes V → Type 0
NoDup [] = Unit
NoDup (x ∷ xs) = (find x.0 xs ≡ none) × NoDup xs

NoDup-remove : {V : Type 0} (k : Bytes) (m : Dict Bytes V) → NoDup m → NoDup (remove k m)
unfolding remove
NoDup-remove k [] h = tt
NoDup-remove k ((j, v) ∷ m) h = elim (Bool-cases (j == k)) [
  | inl same ↦ rw same (NoDup-remove k m h.1)
  | inr other ↦ rw other ((ground (arith, find-remove k j m, h.0), NoDup-remove k m h.1))
]

NoDup-put : {V : Type 0} (k : Bytes) (v : V) (m : Dict Bytes V) → NoDup m → NoDup (put k v m)
unfolding put
NoDup-put k v m h = (ground (arith, find-remove k k m, eq_self k), NoDup-remove k m h)

pub NoDup-put_deltas :
    (xs : List WalEntry) (m : Dict Bytes Delta) → NoDup m → NoDup (put_deltas xs m)
unfolding put_deltas
NoDup-put_deltas [] m h = h
NoDup-put_deltas (x ∷ xs) m h =
    NoDup-put_deltas xs _ (NoDup-put (key_of x) (delta_of (op x) (payload x)) m h)

find-insert_delta :
    (x : Bytes × Delta) (ys : List (Bytes × Delta)) (key : Bytes)
    → find x.0 ys ≡ none
    → find key (insert_delta x ys) ≡ (if x.0 == key then some x.1 else find key ys)
unfolding find insert_delta
find-insert_delta x [] key h = refl
find-insert_delta x (y ∷ ys) key h = elim (Bool-cases (bytes_lt y.0 x.0)) [
  | inl less ↦ rw less (
      ground (
        arith,
        find-insert_delta x ys key,
        bytes_eq.beq_iff y.0 key,
        bytes_eq.beq_iff x.0 key,
        bytes_eq.beq_iff y.0 x.0,
        h,
      ))
  | inr more ↦ rw more refl
]

insert_delta-Above :
    (j : Bytes) (x : Bytes × Delta) (ys : List (Bytes × Delta))
    → bytes_lt j x.0 ≡ true
    → Above j ys
    → Above j (insert_delta x ys)
unfolding insert_delta
insert_delta-Above j x [] lt h = (lt, tt)
insert_delta-Above j x (y ∷ ys) lt h = elim (Bool-cases (bytes_lt y.0 x.0)) [
  | inl less ↦ rw less ((h.0, insert_delta-Above j x ys lt h.1))
  | inr more ↦ rw more ((lt, h))
]

insert_delta-Sorted :
    (x : Bytes × Delta) (ys : List (Bytes × Delta))
    → find x.0 ys ≡ none
    → Sorted ys
    → Sorted (insert_delta x ys)
unfolding insert_delta find
insert_delta-Sorted x [] n h = (tt, tt)
insert_delta-Sorted x (y ∷ ys) n h = elim (Bool-cases (bytes_lt y.0 x.0)) [
  | inl less ↦
      rw less ((insert_delta-Above y.0 x ys less h.0, insert_delta-Sorted x ys (ground arith) h.1))
  | inr more ↦
      let above : bytes_lt x.0 y.0 ≡ true = lt-other x.0 y.0 more (ground arith) in
      rw more (((above, Above-trans x.0 y.0 ys above h.0), h))
]

-- Sorting finds what was there.
pub find-sort_deltas :
    (m : Dict Bytes Delta) (key : Bytes) → NoDup m → find key (sort_deltas m) ≡ find key m
unfolding sort_deltas find
find-sort_deltas [] key h = refl
find-sort_deltas (x ∷ xs) key h =
    find-insert_delta x (sort_deltas xs) key (find-sort_deltas xs x.0 h.1 ∙ h.0)
    ∙ (ground (arith, find-sort_deltas xs key h.1))

pub sort_deltas-Sorted : (m : Dict Bytes Delta) → NoDup m → Sorted (sort_deltas m)
unfolding sort_deltas
sort_deltas-Sorted [] h = tt
sort_deltas-Sorted (x ∷ xs) h =
    insert_delta-Sorted x (sort_deltas xs) (find-sort_deltas xs x.0 h.1 ∙ h.0)
      (sort_deltas-Sorted xs h.1)

-- What a single write leaves at its key.
abbrev pub effect : WalEntry → Option Bytes
effect x = elim (op x) [
  | op_delete ↦ none
  | op_drop_class ↦ none
  | op_put ↦ some (payload x)
  | op_create_class ↦ some (payload x)
  | op_batch ↦ some (payload x)
  | op_unknown n ↦ some (payload x)
]

-- The values after writes in order.
abbrev pub net : List WalEntry → (Bytes → Option Bytes) → Bytes → Option Bytes
net [] old key = old key
net (x ∷ xs) old key = net xs (λ j. if key_of x == j then effect x else old j) key

over-delta_of :
    (o : OpType) (p c : Bytes) (i : ℕ) (d : Bytes) (t : ℕ) (s : Subs) (b : Option Bytes)
    → over (some (delta_of o d)) b ≡ effect (wal_entry o p c i d t s)
unfolding delta_of
over-delta_of op_put p c i d t s b = refl
over-delta_of op_delete p c i d t s b = refl
over-delta_of op_create_class p c i d t s b = refl
over-delta_of op_drop_class p c i d t s b = refl
over-delta_of op_batch p c i d t s b = refl
over-delta_of (op_unknown n) p c i d t s b = refl

effect-over :
    (x : WalEntry) (b : Option Bytes) → over (some (delta_of (op x) (payload x))) b ≡ effect x
effect-over (wal_entry o p c i d t s) b = over-delta_of o p c i d t s b

put-over :
    (x : WalEntry) (m : Dict Bytes Delta) (old : Bytes → Option Bytes) (j : Bytes)
    → over (find j (put (key_of x) (delta_of (op x) (payload x)) m)) (old j)
      ≡ (if key_of x == j then effect x else over (find j m) (old j))
put-over x m old j = elim (Bool-cases (key_of x == j)) [
  | inl hit ↦
      rw (find-put (key_of x) j (delta_of (op x) (payload x)) m, hit) (effect-over x (old j))
  | inr miss ↦ rw (find-put (key_of x) j (delta_of (op x) (payload x)) m, miss) refl
]

-- The deltas of writes over a view are the view after the writes in order.
pub over-put_deltas :
    (xs : List WalEntry) (m : Dict Bytes Delta) (old : Bytes → Option Bytes) (key : Bytes)
    → over (find key (put_deltas xs m)) (old key) ≡ net xs (λ j. over (find j m) (old j)) key
unfolding put_deltas
over-put_deltas [] m old key = refl
over-put_deltas (x ∷ xs) m old key =
    over-put_deltas xs (put (key_of x) (delta_of (op x) (payload x)) m) old key
    ∙ (λ i. net xs (λ j. put-over x m old j i) key)

-- A condition on the key and the data of every write.
module _ (P : Bytes × Bytes → Type 0) where
  All-remove :
      (k : Bytes) (m : Dict Bytes Delta)
      → All (λ x. P (x.0, x.1.data_of)) m
      → All (λ x. P (x.0, x.1.data_of)) (remove k m)
  unfolding remove
  All-remove k [] h = tt
  All-remove k ((j, v) ∷ m) h = elim (Bool-cases (j == k)) [
    | inl same ↦ rw same (All-remove k m h.1)
    | inr other ↦ rw other ((h.0, All-remove k m h.1))
  ]

  data_of-delta_of :
      (k : Bytes) (o : OpType) (d : Bytes) → P (k, []) → P (k, d) → P (k, (delta_of o d).data_of)
  unfolding delta_of
  data_of-delta_of k op_put d e h = h
  data_of-delta_of k op_delete d e h = e
  data_of-delta_of k op_create_class d e h = h
  data_of-delta_of k op_drop_class d e h = e
  data_of-delta_of k op_batch d e h = h
  data_of-delta_of k (op_unknown n) d e h = h

  pub All-put_deltas :
      (xs : List WalEntry) (m : Dict Bytes Delta)
      → All (λ x. P (key_of x, []) × P (key_of x, payload x)) xs
      → All (λ x. P (x.0, x.1.data_of)) m
      → All (λ x. P (x.0, x.1.data_of)) (put_deltas xs m)
  unfolding put_deltas put
  All-put_deltas [] m h hm = hm
  All-put_deltas (x ∷ xs) m h hm =
      All-put_deltas xs _ h.1
        (data_of-delta_of (key_of x) (op x) (payload x) h.0.0 h.0.1, All-remove (key_of x) m hm)

  All-insert_delta :
      (x : Bytes × Delta) (ys : List (Bytes × Delta))
      → P (x.0, x.1.data_of)
      → All (λ x. P (x.0, x.1.data_of)) ys
      → All (λ x. P (x.0, x.1.data_of)) (insert_delta x ys)
  unfolding insert_delta
  All-insert_delta x [] p h = (p, tt)
  All-insert_delta x (y ∷ ys) p h = elim (Bool-cases (bytes_lt y.0 x.0)) [
    | inl less ↦ rw less ((h.0, All-insert_delta x ys p h.1))
    | inr more ↦ rw more ((p, h))
  ]

  pub All-sort_deltas :
      (m : Dict Bytes Delta)
      → All (λ x. P (x.0, x.1.data_of)) m
      → All (λ x. P (x.0, x.1.data_of)) (sort_deltas m)
  unfolding sort_deltas
  All-sort_deltas [] h = tt
  All-sort_deltas (x ∷ xs) h = All-insert_delta x (sort_deltas xs) h.0 (All-sort_deltas xs h.1)
