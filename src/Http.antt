-- ===== src/Http.antt =====
-- internal/server/http: the REST server over the engine. Here are the values of requests and responses,
-- dto.go, and of middleware.go the status of an engine error and the recovery from a panic. encoding/json
-- and msgpack are parameters (Formats), and so is what strconv, fmt and strings do with a value or a text.
pub mod Filters
pub mod Classes
pub mod Objects
pub mod Served
pub mod Refused
pub mod Null
pub mod Routes
pub mod Reads
use zadodb.Prelude.{
  ℕ, ◌≡◌, ◌<◌, Bool, Option, none, some, List, [], ◌∷◌, length, nat_beq, if◌then◌else◌,
}
use zadodb.Prelude.Int.{ℤ, int64_of}
use zadodb.Prelude.Dict.{Dict, find, put, remove}
use zadodb.Bytes.{Bytes}
use zadodb.Bytes.Order.{bytes_eq}
use zadodb.Engine.{
  EngineError, class_exists_error, no_class, class_not_empty, not_found, invalid_name,
  marshal_error, wal_error, closed_error, Engine,
}

-- What an `any` holds: `float64` and `float32` by their bits, and values of other types, as arrays and maps
-- are, by a name.
pub data Value : Type 0 where
  null : Value
  text : Bytes → Value
  flag : Bool → Value
  float64 float32 : ℕ → Value
  int64 int : ℤ → Value
  uint64 : ℕ → Value
  other : ℕ → Value

-- `map[string]any`, which may be nil.
abbrev pub Fields : Type 0
Fields = Dict Bytes Value

abbrev pub GoMap : Type 0
GoMap = Option Fields

pub record Formats : Type 0 where
  -- `json.Unmarshal` into a map, and into a list of raw items; `none` is an error.
  pub json_map : Bytes → Option GoMap
  pub json_items : Bytes → Option (List Bytes)
  -- `json.Unmarshal` into the request of a class: its name, "" if it is missing.
  pub json_name : Bytes → Option Bytes
  -- `msgpack.Marshal` of a map, and `msgpack.Unmarshal` into a map that is there.
  pub pack : GoMap → Option Bytes
  pub unpack : Bytes → Option GoMap
  pub pack_some : (m : GoMap) (b : Bytes) → pack m ≡ some b → 0 < length b
  -- A map that is not nil is unpacked with the same fields.
  pub unpack-pack :
      (m : Fields) (b : Bytes)
      → pack (some m) ≡ some b
      → (m' : Fields) × (unpack b ≡ some (some m')) × ((k : Bytes) → find k m' ≡ find k m)

abbrev pub id_name : Bytes
id_name = b'i' ∷ b'd' ∷ []

-- `delete(m, "id")` does nothing to a nil map.
unfoldable pub without_id : GoMap → GoMap
without_id none = none
without_id (some m) = some (remove id_name m)

-- The object of a response, or an error of msgpack, or a panic: a write into a nil map.
pub data Decoded : Type 0 where
  object : Fields → Decoded
  undecodable panicking : Decoded

-- `m["id"] = id`.
unfoldable pub with_id : ℕ → Option GoMap → Decoded
with_id id none = undecodable
with_id id (some none) = panicking
with_id id (some (some m)) = object (put id_name (int64 (int64_of id)) m)

module _ (f : Formats) where
  unfoldable pub json_to_stored : Bytes → Option Bytes
  unfolding without_id
  json_to_stored body = elim (f.json_map body) [ none ↦ none | some m ↦ f.pack (without_id m) ]

  unfoldable pub stored_to_object : Bytes → ℕ → Decoded
  unfolding with_id
  stored_to_object stored id =
      with_id id (if nat_beq (length stored) 0 then some (some []) else f.unpack stored)

-- The body of a response.
pub data Body : Type 0 where
  no_body error_text health : Body
  object_of : Fields → Body
  objects_of : List Fields → ℕ → ℤ → ℤ → Body
  ids_of : List ℕ → ℕ → Body
  class_of_project : Bytes → Bytes → Body
  classes_of : List Bytes → Bytes → Body
  projects_of : List Bytes → Body

pub record Response : Type 0 where
  pub status : ℕ
  pub body : Body

abbrev pub write_error : ℕ → Response
write_error status = record { status = status; body = error_text }

-- How a handler ends: `none` is a panic.
abbrev pub Handled : Type 0
Handled = Option Response × Engine

abbrev pub answer : ℕ → Body → Engine → Handled
answer status body e = (some (record { status = status; body = body }), e)

abbrev pub refuse : ℕ → Engine → Handled
refuse status e = (some (write_error status), e)

unfoldable pub error_status : EngineError → ℕ
error_status no_class = 404
error_status not_found = 404
error_status class_exists_error = 409
error_status class_not_empty = 409
error_status invalid_name = 400
error_status marshal_error = 500
error_status wal_error = 500
error_status closed_error = 500

-- `withMiddleware`: a panic becomes a 500.
unfoldable pub with_middleware : Handled → Response × Engine
with_middleware (some r, e) = (r, e)
with_middleware (none, e) = (write_error 500, e)

-- A request that the routes gave to a handler: the project that `projectOf` reads from its header, the
-- parts of its path, its query, and its body, which `none` says cannot be read.
pub record Request : Type 0 where
  pub project : Bytes
  pub class : Bytes
  pub id : Bytes
  pub query : Dict Bytes (List Bytes)
  pub body : Option Bytes
