-- ===== src/Http/Objects.antt =====
-- internal/server/http/handlers_object.go: the handlers of objects, and the numbers in paths and queries.
use zadodb.Prelude.{
  ℕ, zero, suc, ◌*◌, ◌^◌, ltb, leb, nat_beq, if◌then◌else◌, Bool, true, Option, none, some, List,
  [], ◌∷◌, length, take,
}
use zadodb.Prelude.Int.{ℤ, pos, negsuc}
use zadodb.Bytes.{Bytes}
use zadodb.Bytes.Decimal.{digits_from}
use zadodb.Wal.Codec.{Codec}
use zadodb.Engine.{
  Engine, World, Object, create_object, create_objects_bulk, get_object, put_object, delete_object,
}
use zadodb.Engine.Query.{query_objects}
use zadodb.Http.{
  Fields, Formats, Decoded, object, undecodable, panicking, json_to_stored, stored_to_object,
  Request, Handled, answer, refuse, no_body, object_of, objects_of, ids_of,
}
use zadodb.Http.Filters.{Texts, Matcher, query_get, parse_filters, match_stored}
use zadodb.Http.Classes.{finish_call}

abbrev pub max_object_bytes : ℕ
max_object_bytes = 8 * 2 ^ 20

abbrev pub max_bulk_bytes : ℕ
max_bulk_bytes = 256 * 2 ^ 20

abbrev pub max_bulk_objects : ℕ
max_bulk_objects = 10000

-- `strconv.ParseInt(s, 10, 64)`, which `strconv.Atoi` is on a 64-bit machine.
digits : Bytes → Option ℕ
unfolding digits_from
digits [] = none
digits (c ∷ cs) = digits_from 0 (c ∷ cs)

opposite : ℕ → ℤ
opposite zero = pos 0
opposite (suc n) = negsuc n

plus_int : Option ℕ → Option ℤ
plus_int none = none
plus_int (some n) = if ltb n (2 ^ 63) then some (pos n) else none

minus_int : Option ℕ → Option ℤ
unfolding opposite
minus_int none = none
minus_int (some n) = if leb n (2 ^ 63) then some (opposite n) else none

unfoldable pub parse_int : Bytes → Option ℤ
unfolding digits plus_int minus_int
parse_int [] = none
parse_int (c ∷ cs) =
    if nat_beq c b'-'
    then minus_int (digits cs)
    else if nat_beq c b'+'
    then plus_int (digits cs)
    else plus_int (digits (c ∷ cs))

-- `id <= 0` is refused.
above_zero : Option ℤ → Option ℕ
above_zero none = none
above_zero (some (pos zero)) = none
above_zero (some (pos (suc n))) = some (suc n)
above_zero (some (negsuc n)) = none

unfoldable pub parse_id : Request → Option ℕ
unfolding parse_int above_zero
parse_id r = above_zero (parse_int r.id)

or_default : ℤ → Option ℤ → ℤ
or_default def none = def
or_default def (some z) = z

unfoldable pub parse_int_default : Bytes → ℤ → ℤ
unfolding parse_int or_default
parse_int_default s def = if nat_beq (length s) 0 then def else or_default def (parse_int s)

-- The object that a handler sends; a write into a nil map panics.
abbrev pub respond : ℕ → Decoded → Engine → Handled
respond status (object m) e = answer status (object_of m) e
respond status undecodable e = refuse 500 e
respond status panicking e = (none, e)

-- The rows of a listing, up to the first that cannot be sent.
pub data Rows : Type 0 where
  rows : List Fields → Rows
  row_undecodable row_panics : Rows

add_object_row : Decoded → Rows → Rows
add_object_row (object m) (rows ms) = rows (m ∷ ms)
add_object_row (object m) row_undecodable = row_undecodable
add_object_row (object m) row_panics = row_panics
add_object_row undecodable rest = row_undecodable
add_object_row panicking rest = row_panics

abbrev pub respond_rows : ℤ → ℤ → Engine → Rows → Handled
respond_rows limit offset e (rows ms) = answer 200 (objects_of ms (length ms) limit offset) e
respond_rows limit offset e row_undecodable = refuse 500 e
respond_rows limit offset e row_panics = (none, e)

abbrev limit_name : Bytes
limit_name = b'l' ∷ b'i' ∷ b'm' ∷ b'i' ∷ b't' ∷ []

abbrev offset_name : Bytes
offset_name = b'o' ∷ b'f' ∷ b'f' ∷ b's' ∷ b'e' ∷ b't' ∷ []

module _ (f : Formats) (codec : Codec) where
  unfoldable pub handle_create_object : Request → World → Engine → Handled
  handle_create_object r w e = elim r.body [
    | none ↦ refuse 400 e
    | some b ↦ elim (json_to_stored f (take max_object_bytes b)) [
      | none ↦ refuse 400 e
      | some stored ↦
          finish_call (λ id e'. respond 201 (stored_to_object f stored id) e')
            (create_object codec r.project r.class stored w e)
    ]
  ]

  -- The loop over the items: `none` is one that is no object.
  stored_items : List Bytes → Option (List Bytes)
  stored_items [] = some []
  stored_items (i ∷ is) =
      let rest = stored_items is in
      elim (json_to_stored f i) [
        | none ↦ none
        | some d ↦ elim rest [ none ↦ none | some ds ↦ some (d ∷ ds) ]
      ]

  bulk_items : List Bytes → Request → World → Engine → Handled
  unfolding stored_items
  bulk_items items r w e =
      if nat_beq (length items) 0
      then answer 201 (ids_of [] 0) e
      else if ltb max_bulk_objects (length items)
      then refuse 400 e
      else elim (stored_items items) [
        | none ↦ refuse 400 e
        | some ds ↦
            finish_call (λ ids e'. answer 201 (ids_of ids (length ids)) e')
              (create_objects_bulk codec r.project r.class ds w e)
      ]

  unfoldable pub handle_create_objects_bulk : Request → World → Engine → Handled
  unfolding bulk_items
  handle_create_objects_bulk r w e = elim r.body [
    | none ↦ refuse 400 e
    | some b ↦ elim (f.json_items (take max_bulk_bytes b)) [
      | none ↦ refuse 400 e
      | some items ↦ bulk_items items r w e
    ]
  ]

  unfoldable pub handle_put_object : Request → World → Engine → Handled
  handle_put_object r w e = elim (parse_id r) [
    | none ↦ refuse 400 e
    | some id ↦ elim r.body [
      | none ↦ refuse 400 e
      | some b ↦ elim (json_to_stored f (take max_object_bytes b)) [
        | none ↦ refuse 400 e
        | some stored ↦
            finish_call (λ u e'. respond 200 (stored_to_object f stored id) e')
              (put_object codec r.project r.class id stored w e)
      ]
    ]
  ]

  unfoldable pub handle_delete_object : Request → World → Engine → Handled
  handle_delete_object r w e = elim (parse_id r) [
    | none ↦ refuse 400 e
    | some id ↦
        finish_call (λ u e'. answer 204 no_body e') (delete_object codec r.project r.class id w e)
  ]

  abbrev pub found_object : ℕ → Option Bytes → Engine → Handled
  found_object id none e = refuse 404 e
  found_object id (some stored) e = respond 200 (stored_to_object f stored id) e

  unfoldable pub handle_get_object : Request → Engine → Handled
  handle_get_object r e = elim (parse_id r) [
    | none ↦ refuse 400 e
    | some id ↦ finish_call (found_object id) (get_object codec r.project r.class id e, e)
  ]

module _ (f : Formats) where
  to_rows : List Object → Rows
  unfolding add_object_row
  to_rows [] = rows []
  to_rows (o ∷ os) = add_object_row (stored_to_object f o.content o.id) (to_rows os)

  -- No filter: every object matches.
  matching : Texts → Option Matcher → Bytes → Option Bool
  matching t none stored = some true
  matching t (some m) stored = match_stored t f m stored

  unfoldable pub handle_list_objects : Texts → Request → Engine → Handled
  unfolding to_rows matching parse_filters
  handle_list_objects t r e =
      let limit = parse_int_default (query_get r.query limit_name) (pos 100) in
      let offset = parse_int_default (query_get r.query offset_name) (pos 0) in
      finish_call (λ os e'. respond_rows limit offset e' (to_rows os))
        (query_objects r.project r.class (matching t (parse_filters t r.query)) limit offset e, e)
