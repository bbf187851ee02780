-- ===== src/Engine.antt =====
-- internal/storage/engine.go: the object store over the log, the read snapshot, the id generator and the
-- overlay of writes that no checkpoint has folded yet. Each method runs alone here. The snapshot is held
-- by its key-value pairs: its `Get` and `Scan` are those of the tree (Btree/Lookup), and their I/O
-- errors are left out. Logged requests go to the sequencer one at a time.
pub mod Query
pub mod View
pub mod Answered
pub mod Objects
pub mod ReadBack
pub mod Admin
pub mod Prune
use zadodb.Prelude.{
  ℕ, zero, suc, ◌+◌, ◌-◌, ◌%◌, ◌^◌, ltb, leb, nat_beq, if◌then◌else◌, not, ◌&&◌, ◌||◌, ◌==◌,
}
use zadodb.Prelude.{
  Bool, true, false, Option, none, some, List, [], ◌∷◌, ◌++◌, length, take, drop, min,
}
use zadodb.Prelude.Int.{ℤ, at_least_zero}
use zadodb.Prelude.Dict.{Dict, find, put, remove}
use zadodb.Bytes.{Bytes}
use zadodb.Bytes.Order.{bytes_eq}
use zadodb.Wal.{
  WalEntry, wal_entry, OpType, op_put, op_delete, op_create_class, op_drop_class, op_batch,
}
use zadodb.Wal.{
  payload, object_key, object_prefix, decode_object_key, scope_key, key_of, of_list, no_subs,
}
use zadodb.Wal.Codec.{Codec}
use zadodb.Wal.Sequencer.{Sequencer, run_batch, Answer}
use zadodb.Idgen.{Generator}
use zadodb.Idgen

pub data EngineError : Type 0 where
  class_exists_error no_class class_not_empty not_found invalid_name : EngineError
  -- msgpack, or the log: too large, not synced, closed
  marshal_error wal_error closed_error : EngineError

pub data Outcome (A : Type 0) : Type 0 where
  ok : A → Outcome A
  err : EngineError → Outcome A

pub record OverlayVal : Type 0 where
  pub tx : ℕ
  pub data_of : Bytes
  pub deleted : Bool

pub record Object : Type 0 where
  pub id : ℕ
  pub content : Bytes

pub record Engine : Type 0 where
  pub seq : Sequencer
  pub idgen : Generator
  pub overlay : Dict Bytes OverlayVal
  pub classes : Dict Bytes (Unit {0})
  pub snapshot : Dict Bytes Bytes

-- What the world decides for a call: the clock, and whether the fsync succeeds.
pub record World : Type 0 where
  pub now : ℕ
  pub sync_ok : Bool

name_char : ℕ → Bool
name_char c =
    nat_beq c b'_'
    || nat_beq c b'-'
    || nat_beq c b'.'
    || (leb b'0' c && leb c b'9')
    || (leb b'A' c && leb c b'Z')
    || (leb b'a' c && leb c b'z')

all_name_chars : Bytes → Bool
unfolding name_char
all_name_chars [] = true
all_name_chars (c ∷ cs) = name_char c && all_name_chars cs

unfoldable pub valid_name : Bytes → Bool
unfolding all_name_chars
valid_name name =
    if nat_beq (length name) 0 || ltb 128 (length name) then false else all_name_chars name

unfoldable pub valid_project : Bytes → Bool
unfolding valid_name
valid_project p = nat_beq (length p) 0 || valid_name p

pub is_some : {A : Type 0} → Option A → Bool
is_some none = false
is_some (some a) = true

unfoldable pub class_exists : Engine → Bytes → Bytes → Bool
unfolding is_some
class_exists e p name = is_some (find (scope_key p name) e.classes)

unfoldable pub shown : OverlayVal → Option Bytes
shown ov = if ov.deleted then none else some ov.data_of

-- `lookup`: the overlay first, then the snapshot.
unfoldable pub lookup : Engine → Bytes → Option Bytes
unfolding shown
lookup e key = elim (find key e.overlay) [ some ov ↦ shown ov | none ↦ find key e.snapshot ]

-- `Submit` of a single payload: its id, or the error.
unfoldable pub submit_payload : Sequencer → World → Bytes → Outcome ℕ × Sequencer
submit_payload s w p =
    let (answers, s') = run_batch s (p ∷ []) w.sync_ok in
    if s.closed then (err closed_error, s) else (
      elim answers [
        | [] ↦ err closed_error
        | a ∷ more ↦ if a.committed then ok a.tx else err wal_error
      ],
      s',
    )

-- `entry.Timestamp = now`.
abbrev pub stamped : ℕ → WalEntry → WalEntry
stamped now (wal_entry o p c i d t s) = wal_entry o p c i d now s

-- What `submit` makes of the log's answer: the write goes to the overlay, under its transaction id.
unfoldable pub commit : WalEntry → Bool → Engine → Outcome ℕ × Sequencer → Outcome ℕ × Engine
commit entry deleted e (err x, seq') = (err x, record e { seq = seq' })
commit entry deleted e (ok tx, seq') = (
  ok tx,
  record e {
    seq = seq';
    overlay =
        put (key_of entry) (record { tx = tx; data_of = payload entry; deleted = deleted })
          e.overlay;
  },
)

-- The rest of `submit` once the entry is marshalled.
unfoldable pub log_entry : WalEntry → Bool → World → Engine → Option Bytes → Outcome ℕ × Engine
log_entry entry deleted w e none = (err marshal_error, e)
log_entry entry deleted w e (some bytes) = commit entry deleted e (submit_payload e.seq w bytes)

module _ (codec : Codec) where
  unfoldable pub submit : WalEntry → Bool → World → Engine → Outcome ℕ × Engine
  submit entry deleted w e =
      log_entry (stamped w.now entry) deleted w e (codec.marshal (stamped w.now entry))

  -- What a method makes of the state after `submit` succeeds or fails.
  unfoldable pub after_submit :
      {A : Type 0} → (Engine → Outcome A × Engine) → Outcome ℕ × Engine → Outcome A × Engine
  after_submit k (err x, e) = (err x, e)
  after_submit k (ok tx, e) = k e

  unfoldable pub create_class : Bytes → Bytes → World → Engine → Outcome (Unit {0}) × Engine
  unfolding after_submit
  create_class p name w e =
      if not (valid_name name) || not (valid_project p)
      then (err invalid_name, e)
      else if class_exists e p name
      then (err class_exists_error, e)
      else after_submit
          (λ e'. (ok tt, record e' { classes = put (scope_key p name) tt e'.classes }))
          (submit (wal_entry op_create_class p name 0 [] 0 no_subs) false w e)

  unfoldable pub create_object : Bytes → Bytes → Bytes → World → Engine → Outcome ℕ × Engine
  unfolding after_submit
  create_object p c d w e =
      let (id, g) = Idgen.next e.idgen (scope_key p c) in
      if not (class_exists e p c)
      then (err no_class, e)
      else after_submit (λ e'. (ok id, e'))
          (submit (wal_entry op_put p c id d 0 no_subs) false w (record e { idgen = g }))

  unfoldable pub get_object : Bytes → Bytes → ℕ → Engine → Outcome (Option Bytes)
  get_object p c id e =
      if not (class_exists e p c) then err no_class else ok (lookup e (object_key p c id))

  unfoldable pub put_object :
      Bytes → Bytes → ℕ → Bytes → World → Engine → Outcome (Unit {0}) × Engine
  unfolding after_submit is_some
  put_object p c id d w e =
      if not (class_exists e p c)
      then (err no_class, e)
      else if not (is_some (lookup e (object_key p c id)))
      then (err not_found, e)
      else after_submit (λ e'. (ok tt, e')) (submit (wal_entry op_put p c id d 0 no_subs) false w e)

  unfoldable pub delete_object : Bytes → Bytes → ℕ → World → Engine → Outcome (Unit {0}) × Engine
  unfolding after_submit is_some
  delete_object p c id w e =
      if not (class_exists e p c)
      then (err no_class, e)
      else if not (is_some (lookup e (object_key p c id)))
      then (err not_found, e)
      else after_submit (λ e'. (ok tt, e'))
          (submit (wal_entry op_delete p c id [] 0 no_subs) true w e)

  -- The loop of `CreateObjectsBulk`: an id and a sub-entry for each value.
  bulk_entries : Bytes → Bytes → ℕ → List Bytes → Generator → List ℕ × List WalEntry × Generator
  bulk_entries p c ts [] g = ([], [], g)
  bulk_entries p c ts (d ∷ ds) g =
      let (id, g1) = Idgen.next g (scope_key p c) in
      let (ids, subs, g2) = bulk_entries p c ts ds g1 in
      (id ∷ ids, wal_entry op_put p c id d ts no_subs ∷ subs, g2)

  publish : ℕ → List WalEntry → Dict Bytes OverlayVal → Dict Bytes OverlayVal
  publish tx [] m = m
  publish tx (x ∷ xs) m =
      publish tx xs (put (key_of x) (record { tx = tx; data_of = payload x; deleted = false }) m)

  unfoldable pub create_objects_bulk :
      Bytes → Bytes → List Bytes → World → Engine → Outcome (List ℕ) × Engine
  unfolding bulk_entries publish
  create_objects_bulk p c ds w e =
      let (ids, subs, g) = bulk_entries p c w.now ds e.idgen in
      let e1 = record e { idgen = g } in
      if not (class_exists e p c)
      then (err no_class, e)
      else if nat_beq (length ds) 0
      then (ok [], e)
      else elim (codec.marshal (wal_entry op_batch [] [] 0 [] w.now (of_list subs))) [
        | none ↦ (err marshal_error, e1)
        | some bytes ↦
            let (out, seq') = submit_payload e.seq w bytes in
            elim out [
              | err x ↦ (err x, record e1 { seq = seq' })
              | ok tx ↦ (ok ids, record e1 { seq = seq'; overlay = publish tx subs e.overlay })
            ]
      ]
