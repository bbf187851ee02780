-- ===== src/Examples/Objects.antt =====
-- The store's theorems at an engine with one class that holds one object.
use zadodb.Prelude.{
  ℕ, ◌+◌, ◌%◌, ◌<◌, ◌^◌, ◌≡◌, refl, arith, some, [], ◌∷◌, true, false, if◌then◌else◌,
}
use zadodb.Prelude.Dict.{find, put}
use zadodb.Bytes.{Bytes, compare_bytes, put_be}
use zadodb.Bytes.Order.{bytes_eq}
use zadodb.Idgen
use zadodb.Idgen.{current, next, observe, next_lem, observe_lem}
use zadodb.Wal.{scope_key, object_key}
use zadodb.Wal.Sequencer.{run_batch}
use zadodb.Engine.{
  Engine, World, OverlayVal, Outcome, ok, class_exists, lookup, commit, log_entry, submit,
  submit_payload,
}
use zadodb.Engine.{create_object, get_object, put_object, delete_object}
use zadodb.Engine.ReadBack.{
  IsAddress, same_address, get_object-put_object, get_object-create_object,
}
use zadodb.Examples.{plain}

abbrev pub app : Bytes
app = 97 ∷ []

abbrev pub users : Bytes
users = 117 ∷ []

abbrev pub first : OverlayVal
first = record { tx = 2; data_of = 8 ∷ []; deleted = false }

abbrev pub store : Engine
store = record {
  seq = record { log = []; next_tx = 2; closed = false };
  idgen = put (scope_key app users) 1 [];
  overlay = put (object_key app users 1) first [];
  classes = put (scope_key app users) tt [];
  snapshot = [];
}

abbrev noon : World
noon = record { now = 12; sync_ok = true }

abbrev put_result : Outcome (Unit {0}) × Engine
put_result = put_object plain app users 1 (9 ∷ []) noon store

put_runs : put_object plain app users 1 (9 ∷ []) noon store ≡ (ok tt, put_result.1)
unfolding put_object class_exists lookup submit log_entry commit submit_payload run_batch scope_key
    object_key compare_bytes find put put_be
put_runs = refl

abbrev delete_result : Outcome (Unit {0}) × Engine
delete_result = delete_object plain app users 1 noon store

delete_runs : delete_object plain app users 1 noon store ≡ (ok tt, delete_result.1)
unfolding delete_object class_exists lookup submit log_entry commit submit_payload run_batch
    scope_key object_key compare_bytes find put put_be
delete_runs = refl

abbrev create_result : Outcome ℕ × Engine
create_result = create_object plain app users (9 ∷ []) noon store

create_runs : create_object plain app users (9 ∷ []) noon store ≡ (ok 2, create_result.1)
unfolding create_object class_exists lookup submit log_entry commit submit_payload run_batch
    scope_key object_key compare_bytes find put put_be Idgen.next Idgen.current
create_runs = refl

pub address : (id : ℕ) → id < 2 ^ 64 → IsAddress app users id
address id h = ((omega arith, tt), (omega arith, tt), h)

get_object-put_object_example : get_object plain app users 1 put_result.1 ≡ (
    if same_address app users 1 app users 1
    then ok (some (9 ∷ []))
    else get_object plain app users 1 store)
get_object-put_object_example =
    get_object-put_object plain app users 1 (9 ∷ []) noon store put_result.1 app users 1
      (address 1 (omega arith)) (address 1 (omega arith)) put_runs

get_object-create_object_example :
    (2 ≡ (current store.idgen (scope_key app users) + 1) % 2 ^ 64)
    × (get_object plain app users 1 create_result.1 ≡ (
        if same_address app users 2 app users 1
        then ok (some (9 ∷ []))
        else get_object plain app users 1 store))
get_object-create_object_example =
    get_object-create_object plain app users 2 (9 ∷ []) noon store create_result.1 app users 1
      (address 2 (omega arith)) (address 1 (omega arith)) create_runs
