-- ===== src/Examples/Http.antt =====
-- Requests to the handlers, with simple formats: an object has one field, of one byte.
use zadodb.Prelude.{
  ap, ◌∙◌, ◌≢◌, zero, suc, ℕ, ◌<◌, ◌≡◌, refl, arith, true, Option, none, some, [], ◌∷◌, length,
  take,
}
use zadodb.Prelude.Dict.{find, put, remove}
use zadodb.Prelude.Int.{pos, int64_of}
use zadodb.Bytes.{Bytes, compare_bytes, put_be}
use zadodb.Bytes.Order.{bytes_eq}
use zadodb.Idgen
use zadodb.Wal.{scope_key, object_key}
use zadodb.Wal.Sequencer.{run_batch}
use zadodb.Engine.{
  ok, Outcome, Engine, World, lookup, create_object, class_exists, submit, log_entry, commit,
  submit_payload,
}
use zadodb.Http.{
  id_name, int64, object_of, Handled, json_to_stored, stored_to_object, with_id, without_id, Fields,
  GoMap, Formats, Request, Response, with_middleware, write_error,
}
use zadodb.Http.Objects.{
  max_object_bytes, parse_id, parse_int, handle_put_object, handle_create_object, handle_get_object,
}
use zadodb.Http.Served.{Created, get-handle_create_object}
use zadodb.Http.Refused.{Method, handle_method, refused_unchanged}
use zadodb.Http.Null.{null-handle_create_object}
use zadodb.Examples.{plain}
use zadodb.Examples.Objects.{store, app, users, address}

-- The body 0 is null, and another is an object whose only field is an id of the client's.
abbrev read_map : Bytes → Option GoMap
read_map [] = none
read_map (zero ∷ bs) = some none
read_map (suc b ∷ bs) = some (some ((id_name, int64 (pos 7)) ∷ []))

abbrev pack_map : GoMap → Option Bytes
pack_map none = some (0 ∷ [])
pack_map (some []) = some (1 ∷ [])
pack_map (some (x ∷ xs)) = none

abbrev unpack_map : Bytes → Option GoMap
unpack_map [] = none
unpack_map (zero ∷ bs) = some none
unpack_map (suc b ∷ bs) = some (some [])

some_bytes : (a b : Bytes) → some a ≡ some b → a ≡ b
some_bytes a b e = ap (λ o. elim o [ none ↦ a | some c ↦ c ]) e

packs_some : (m : GoMap) (b : Bytes) → pack_map m ≡ some b → 0 < length b
packs_some none b h = rw (← some_bytes (0 ∷ []) b h) (omega arith)
packs_some (some []) b h = rw (← some_bytes (1 ∷ []) b h) (omega arith)
packs_some (some (x ∷ xs)) b h = absurd (ground (arith, h))

unpacks_packed :
    (m : Fields) (b : Bytes)
    → pack_map (some m) ≡ some b
    → (m' : Fields) × (unpack_map b ≡ some (some m')) × ((k : Bytes) → find k m' ≡ find k m)
unpacks_packed [] b h = ([], rw (← some_bytes (1 ∷ []) b h) refl, λ k. refl)
unpacks_packed (x ∷ xs) b h = absurd (ground (arith, h))

abbrev simple : Formats
simple = record {
  json_map = read_map;
  json_items = λ b. some [];
  json_name = λ b. some b;
  pack = pack_map;
  unpack = unpack_map;
  pack_some = packs_some;
  unpack-pack = unpacks_packed;
}

-- A request for an object of the class that is there.
abbrev asking : Bytes → Option Bytes → Request
asking id body = record { project = app; class = users; id = id; query = []; body = body }

abbrev noon : World
noon = record { now = 12; sync_ok = true }

abbrev posted : Handled
posted = handle_create_object simple plain (asking [] (some (1 ∷ []))) noon store

abbrev created : Response
created = record { status = 201; body = object_of ((id_name, int64 (int64_of 2)) ∷ []) }

post_runs :
    handle_create_object simple plain (asking [] (some (1 ∷ []))) noon store
    ≡ (some created, posted.1)
unfolding handle_create_object json_to_stored stored_to_object with_id without_id create_object
    class_exists lookup submit log_entry commit submit_payload run_batch scope_key object_key
    compare_bytes find put remove put_be Idgen.next Idgen.current
post_runs = refl

get-handle_create_object_example :
    Created simple plain
      (asking [] (some (1 ∷ [])))
      ((id_name, int64 (pos 7)) ∷ [])
      created
      posted.1
get-handle_create_object_example =
    get-handle_create_object simple plain (asking [] (some (1 ∷ []))) (1 ∷ [])
      ((id_name, int64 (pos 7)) ∷ []) noon store posted.1 created refl refl
      (address 0 (omega arith)) post_runs refl

abbrev nameless : Request
nameless = asking (b'x' ∷ []) (some (1 ∷ []))

nameless_runs :
    handle_method simple plain Method.putting nameless noon store ≡ (some (write_error 400), store)
unfolding handle_put_object parse_id parse_int
nameless_runs = refl

nameless_full :
    (b : Bytes) → nameless.body ≡ some b → simple.json_map (take max_object_bytes b) ≢ some none
nameless_full b here is_null =
    let same : (1 ∷ []) ≡ b = some_bytes (1 ∷ []) b here in
    let read : some (some ((id_name, int64 (pos 7)) ∷ [])) ≡ some none =
      ap (λ c. read_map (take max_object_bytes c)) same ∙ is_null in
    absurd (ground (arith, read))

refused_unchanged_example : lookup store (97 ∷ []) ≡ lookup store (97 ∷ [])
refused_unchanged_example =
    refused_unchanged simple plain Method.putting nameless noon store store (write_error 400)
      nameless_full nameless_runs (omega arith) (97 ∷ [])

abbrev made : Outcome ℕ × Engine
made = create_object plain app users (0 ∷ []) noon store

made_runs : create_object plain app users (0 ∷ []) noon store ≡ (ok 2, made.1)
unfolding create_object class_exists lookup submit log_entry commit submit_payload run_batch
    scope_key object_key compare_bytes find put put_be Idgen.next Idgen.current
made_runs = refl

two_named : parse_id (asking (b'2' ∷ []) none) ≡ some 2
unfolding parse_id parse_int
two_named = refl

null-handle_create_object_example :
    (with_middleware (handle_create_object simple plain (asking [] (some (0 ∷ []))) noon store)
      ≡ (write_error 500, made.1))
    × (with_middleware (handle_get_object simple plain (asking (b'2' ∷ []) none) made.1)
        ≡ (write_error 500, made.1))
null-handle_create_object_example =
    null-handle_create_object simple plain (asking [] (some (0 ∷ []))) (asking (b'2' ∷ []) none)
      (0 ∷ []) (0 ∷ []) noon store made.1 2 refl refl refl refl made_runs (address 0 (omega arith))
      refl refl two_named
