-- ===== src/Engine/Query.antt =====
-- `QueryObjects` and `DropClass` of internal/storage/engine.go: the rows of a class, from the snapshot and
-- the overlay, sorted by id and cut to a page. The order in which Go ranges over a map does not show.
use zadodb.Prelude.{ℕ, ltb, leb, nat_beq, if◌then◌else◌, not, ◌&&◌, ◌==◌, nat_eq}
use zadodb.Prelude.{Bool, true, false, Option, none, some, List, [], ◌∷◌, length, take, drop, min}
use zadodb.Prelude.Int.{ℤ, at_least_zero}
use zadodb.Prelude.Dict.{Dict, put, remove}
use zadodb.Bytes.{Bytes}
use zadodb.Bytes.Order.{bytes_eq}
use zadodb.Wal.{wal_entry, op_drop_class, object_prefix, decode_object_key, scope_key, no_subs}
use zadodb.Wal.Codec.{Codec}
use zadodb.Idgen
use zadodb.Engine.{no_class, class_not_empty, wal_error, Outcome, ok, err, OverlayVal, Object}
use zadodb.Engine.{Engine, World, class_exists, submit, after_submit}

-- The rows of a class: `merged` of `QueryObjects`.
is_prefix : Bytes → Bytes → Bool
is_prefix [] k = true
is_prefix (b ∷ bs) [] = false
is_prefix (b ∷ bs) (k ∷ ks) = nat_beq b k && is_prefix bs ks

-- The id of a key, if it is of this class.
unfoldable pub row_id : Bytes → Bytes → Bytes → Option ℕ
row_id p c key = elim (decode_object_key key) [
  | none ↦ none
  | some (p', c', id) ↦ if p' == p && c' == c then some id else none
]

add_row : Dict ℕ Bytes → Option ℕ → Bytes → Dict ℕ Bytes
add_row m none v = m
add_row m (some id) v = put id v m

overlay_row : Dict ℕ Bytes → Option ℕ → OverlayVal → Dict ℕ Bytes
overlay_row m none ov = m
overlay_row m (some id) ov = if ov.deleted then remove id m else put id ov.data_of m

scan_rows : Bytes → Bytes → Dict Bytes Bytes → Dict ℕ Bytes → Dict ℕ Bytes
unfolding add_row is_prefix
scan_rows p c [] m = m
scan_rows p c ((k, v) ∷ kvs) m =
    scan_rows p c kvs (if is_prefix (object_prefix p c) k then add_row m (row_id p c k) v else m)

overlay_rows : Bytes → Bytes → Dict Bytes OverlayVal → Dict ℕ Bytes → Dict ℕ Bytes
unfolding overlay_row
overlay_rows p c [] m = m
overlay_rows p c ((k, ov) ∷ kvs) m = overlay_rows p c kvs (overlay_row m (row_id p c k) ov)

unfoldable pub merged : Bytes → Bytes → Engine → Dict ℕ Bytes
unfolding scan_rows overlay_rows
merged p c e = overlay_rows p c e.overlay (scan_rows p c e.snapshot [])

-- The rows that `match` keeps; `none` is its error.
keep_rows : (Bytes → Option Bool) → Dict ℕ Bytes → Option (List Object)
keep_rows match [] = some []
keep_rows match ((id, v) ∷ rows) =
    let rest = keep_rows match rows in
    elim (match v) [
      | none ↦ none
      | some kept ↦ elim rest [
        | none ↦ none
        | some os ↦ some (if kept then record { id = id; content = v } ∷ os else os)
      ]
    ]

-- `sort.Slice` by id.
insert_object : Object → List Object → List Object
insert_object o [] = o ∷ []
insert_object o (x ∷ xs) = if leb o.id x.id then o ∷ x ∷ xs else x ∷ insert_object o xs

sort_objects : List Object → List Object
unfolding insert_object
sort_objects [] = []
sort_objects (o ∷ os) = insert_object o (sort_objects os)

-- An offset beyond the end is the end, and a limit of 0 or less is no limit.
unfoldable pub page_of : ℤ → ℤ → List Object → List Object
page_of limit offset os =
    let rest = drop (min (at_least_zero offset) (length os)) os in
    let n = at_least_zero limit in if ltb 0 n && ltb n (length rest) then take n rest else rest

unfoldable pub query_objects :
    Bytes → Bytes → (Bytes → Option Bool) → ℤ → ℤ → Engine → Outcome (List Object)
unfolding keep_rows sort_objects
query_objects p c match limit offset e =
    if not (class_exists e p c) then err no_class else elim (keep_rows match (merged p c e)) [
      | none ↦ err wal_error
      | some os ↦ ok (page_of limit offset (sort_objects os))
    ]

module _ (codec : Codec) where
  -- `ListObjects` with a limit of 1 decides whether the class is empty.
  unfoldable pub drop_class : Bytes → Bytes → World → Engine → Outcome (Unit {0}) × Engine
  unfolding after_submit
  drop_class p name w e =
      if not (class_exists e p name)
      then (err no_class, e)
      else elim (query_objects p name (λ v. some true) (ℤ.pos 1) (ℤ.pos 0) e) [
        | err x ↦ (err x, e)
        | ok os ↦
            if ltb 0 (length os)
            then (err class_not_empty, e)
            else after_submit codec
                (λ e'. (
                  ok tt,
                  record e' {
                    classes = remove (scope_key p name) e'.classes;
                    idgen = Idgen.drop e'.idgen (scope_key p name);
                  },
                ))
                (submit codec (wal_entry op_drop_class p name 0 [] 0 no_subs) true w e)
      ]
