-- ===== src/Checkpoint.antt =====
-- internal/storage/checkpoint/checkpoint.go: the net deltas of a retired log, and their merge with the
-- pairs of the base tree into the pairs of the new one. The base is held by the pairs that its scan
-- visits; the files are those of Checkpoint/Generation.
pub mod Merge
pub mod Ordered
pub mod Deltas
pub mod Built
pub mod Generation
pub mod DataFile
pub mod CrashSafe
use zadodb.Prelude.{
  ℕ, ltb, leb, if◌then◌else◌, ◌==◌, Bool, true, false, Option, none, some, List, [], ◌∷◌, ◌++◌,
}
use zadodb.Prelude.Dict.{Dict, put}
use zadodb.Bytes.{Bytes, bytes_lt}
use zadodb.Bytes.Order.{bytes_eq}
use zadodb.Errors.{Result, ◌>>=◌}
use zadodb.Wal.{WalEntry, OpType, op_delete, op_drop_class, op, payload, flatten, key_of}
use zadodb.Wal.Codec.{Codec}
use zadodb.Wal.Log.{LogRecord}
use zadodb.Btree.Store.{PageStore}
use zadodb.Btree.Build.{bulk_load}

pub record Delta : Type 0 where
  pub data_of : Bytes
  pub deleted : Bool

unfoldable pub delta_of : OpType → Bytes → Delta
delta_of op_delete d = record { data_of = []; deleted = true }
delta_of op_drop_class d = record { data_of = []; deleted = true }
delta_of o d = record { data_of = d; deleted = false }

-- Later entries overwrite earlier ones of their key.
unfoldable pub put_deltas : List WalEntry → Dict Bytes Delta → Dict Bytes Delta
unfolding delta_of
put_deltas [] m = m
put_deltas (x ∷ xs) m = put_deltas xs (put (key_of x) (delta_of (op x) (payload x)) m)

pub record Parsed : Type 0 where
  pub deltas : Dict Bytes Delta
  pub last_applied : ℕ

module _ (codec : Codec) where
  -- One round of the loop of `parseWALDeltas`; `none` is an entry that cannot be decoded.
  unfoldable pub parse_record : ℕ → LogRecord → Parsed → Option Parsed
  unfolding put_deltas
  parse_record base (tx, p) r =
      let last = if ltb r.last_applied tx then tx else r.last_applied in
      if leb tx base then some (record r { last_applied = last }) else elim (codec.unmarshal p) [
        | none ↦ none
        | some x ↦ some (record { deltas = put_deltas (flatten x) r.deltas; last_applied = last })
      ]

  unfoldable pub parse_records : ℕ → List LogRecord → Parsed → Option Parsed
  parse_records base [] r = some r
  parse_records base (x ∷ xs) r = elim (parse_record base x r) [
    | none ↦ none
    | some r' ↦ parse_records base xs r'
  ]

-- `sort.Slice` of the keys, each with its delta.
insert_delta : Bytes × Delta → List (Bytes × Delta) → List (Bytes × Delta)
insert_delta x [] = x ∷ []
insert_delta x (y ∷ ys) =
    let rest = insert_delta x ys in if bytes_lt y.0 x.0 then y ∷ rest else x ∷ y ∷ ys

unfoldable pub sort_deltas : List (Bytes × Delta) → List (Bytes × Delta)
unfolding insert_delta
sort_deltas [] = []
sort_deltas (x ∷ xs) = insert_delta x (sort_deltas xs)

-- What the builder is given for deltas: deleted keys are left out.
unfoldable pub emit : List (Bytes × Delta) → Dict Bytes Bytes
emit [] = []
emit ((k, d) ∷ ds) = let rest = emit ds in if d.deleted then rest else (k, d.data_of) ∷ rest

-- The deltas that `flushDeltasBefore` passes, and those that it leaves.
unfoldable pub before : Bytes → List (Bytes × Delta) → List (Bytes × Delta)
before key [] = []
before key ((k, d) ∷ ds) = let rest = before key ds in if bytes_lt k key then (k, d) ∷ rest else []

unfoldable pub from : Bytes → List (Bytes × Delta) → List (Bytes × Delta)
from key [] = []
from key ((k, d) ∷ ds) = let rest = from key ds in if bytes_lt k key then rest else (k, d) ∷ ds

-- What a base pair adds with the next delta in view, and the deltas behind it: a delta of the same key
-- stands for the pair.
unfoldable pub pair_at : Bytes → Bytes → List (Bytes × Delta) → Dict Bytes Bytes
unfolding emit
pair_at k v [] = (k, v) ∷ []
pair_at k v (x ∷ rest) = if x.0 == k then emit (x ∷ []) else (k, v) ∷ []

unfoldable pub after : Bytes → List (Bytes × Delta) → List (Bytes × Delta)
after k [] = []
after k (x ∷ rest) = if x.0 == k then rest else x ∷ rest

-- The pairs that `mergeBuild` adds, from the base's pairs and the sorted deltas.
unfoldable pub merge : Dict Bytes Bytes → List (Bytes × Delta) → Dict Bytes Bytes
merge [] ds = emit ds
merge ((k, v) ∷ kvs) ds =
    emit (before k ds) ++ (pair_at k v (from k ds) ++ merge kvs (after k (from k ds)))

-- `mergeBuild`: the root of the new tree and its store.
unfoldable pub merge_build :
    {S : Type 0} → PageStore S → S → Dict Bytes Bytes → List (Bytes × Delta) → Result (ℕ × S)
unfolding merge
merge_build st s base ds = bulk_load st s (merge base ds)
