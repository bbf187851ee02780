-- ===== src/Recovery.antt =====
-- internal/storage/recovery/recovery.go and the boot of internal/storage/engine.go: the log is replayed
-- from behind the last checkpoint, truncated to its durable prefix, and put into the overlay.
pub mod Boot
pub mod Recover
pub mod Durable
pub mod Resumed
pub mod Restart
pub mod Fresh
pub mod Appended
pub mod Running
use zadodb.Prelude.{
  ℕ, zero, suc, ◌+◌, ◌^◌, ltb, leb, nat_beq, if◌then◌else◌, ◌&&◌, Bool, true, false,
}
use zadodb.Prelude.{Option, none, some, List, [], ◌∷◌, ◌++◌, length, take}
use zadodb.Prelude.Dict.{Dict, put, remove}
use zadodb.Bytes.{Bytes}
use zadodb.Bytes.Order.{bytes_eq}
use zadodb.Wal.{
  WalEntry, OpType, op_put, op_delete, op_create_class, op_drop_class, op_batch, op_unknown,
}
use zadodb.Wal.{
  op, project, class_of, object_id, payload, flatten, scope_key, key_of, decode_object_key,
  decode_class_key,
}
use zadodb.Wal.Codec.{Codec}
use zadodb.Wal.Log.{Crc, LogRecord, ReadError, eof, corrupt, bad_version, ReadResult, read_log}
use zadodb.Idgen.{Generator, observe}
use zadodb.Engine.{OverlayVal}

pub record ReplayedEntry : Type 0 where
  pub tx : ℕ
  pub entry : WalEntry

abbrev op_is_put : OpType → Bool
op_is_put op_put = true
op_is_put o = false

-- `sub.ObjectID > 0` on an int64.
abbrev positive : ℕ → Bool
positive id = ltb 0 id && ltb id (2 ^ 63)

-- The ids that a flattened entry shows to the generator.
unfoldable pub observe_entries : List WalEntry → Generator → Generator
observe_entries [] g = g
observe_entries (x ∷ xs) g = observe_entries xs (
    if op_is_put (op x) && positive (object_id x)
    then observe g (scope_key (project x) (class_of x)) (object_id x)
    else g)

unfoldable pub replayed_entries : ℕ → List WalEntry → List ReplayedEntry
replayed_entries tx [] = []
replayed_entries tx (x ∷ xs) = record { tx = tx; entry = x } ∷ replayed_entries tx xs

pub record Replay : Type 0 where
  pub out : List ReplayedEntry
  pub max_tx : ℕ
  pub gen : Generator

unfoldable pub answer_replay : ReadError → ℕ → Option Replay → Option (Replay × ℕ)
answer_replay z n none = none
answer_replay (bad_version v) n (some r) = none
answer_replay eof n (some r) = some (r, n)
answer_replay corrupt n (some r) = some (r, n)

module _ (codec : Codec) where
  -- One round of the loop of `replayWAL`; `none` is an entry that cannot be decoded.
  unfoldable pub replay_record : ℕ → LogRecord → Replay → Option Replay
  unfolding observe_entries replayed_entries
  replay_record skip (tx, p) r =
      let seen = record r { max_tx = if ltb r.max_tx tx then tx else r.max_tx } in
      if leb tx skip then some seen else elim (codec.unmarshal p) [
        | none ↦ none
        | some x ↦ some (record seen {
          out = r.out ++ replayed_entries tx (flatten x);
          gen = observe_entries (flatten x) r.gen;
        })
      ]

  unfoldable pub replay_records : ℕ → List LogRecord → Replay → Option Replay
  replay_records skip [] r = some r
  replay_records skip (x ∷ xs) r = elim (replay_record skip x r) [
    | none ↦ none
    | some r' ↦ replay_records skip xs r'
  ]

  -- What `replayWAL` makes of the records, the end and the offset that the reader gave. A record of
  -- another version is an error.
  unfoldable pub replay_read : ℕ → Generator → Option ReadResult → Option (Replay × ℕ)
  replay_read skip g none = none
  replay_read skip g (some res) =
      answer_replay res.ended res.durable
        (replay_records skip res.records (record { out = []; max_tx = 0; gen = g }))

  -- `replayWAL` of the log's bytes: what was replayed, and the durable offset.
  unfoldable pub replay_wal : Crc → Bytes → ℕ → Generator → Option (Replay × ℕ)
  replay_wal crc file skip g = replay_read skip g (read_log crc file)

-- `truncateWAL`.
unfoldable pub truncate_wal : Bytes → ℕ → Bytes
truncate_wal file durable = if nat_beq (length file) durable then file else take durable file

-- `observeTreeIDs` over the keys that the scan visits.
unfoldable pub observe_tree_ids : List (Bytes × Bytes) → Generator → Generator
observe_tree_ids [] g = g
observe_tree_ids ((k, v) ∷ kvs) g =
    observe_tree_ids kvs
      (elim (decode_object_key k) [ none ↦ g | some (p, c, id) ↦ observe g (scope_key p c) id ])

-- `loadClasses` over the keys that the scan of 0x01 visits.
unfoldable pub load_classes : List (Bytes × Bytes) → Dict Bytes (Unit {0}) → Dict Bytes (Unit {0})
load_classes [] m = m
load_classes ((k, v) ∷ kvs) m =
    load_classes kvs
      (elim (decode_class_key k) [ none ↦ m | some (p, c) ↦ put (scope_key p c) tt m ])

pub record Live : Type 0 where
  pub overlay : Dict Bytes OverlayVal
  pub classes : Dict Bytes (Unit {0})

-- One round of `applyReplay`.
unfoldable pub apply_entry : OpType → ReplayedEntry → Live → Live
apply_entry op_put r l = record l {
  overlay =
      put (key_of r.entry) (record { tx = r.tx; data_of = payload r.entry; deleted = false })
        l.overlay;
}
apply_entry op_delete r l = record l {
  overlay = put (key_of r.entry) (record { tx = r.tx; data_of = []; deleted = true }) l.overlay;
}
apply_entry op_create_class r l = record {
  overlay =
      put (key_of r.entry) (record { tx = r.tx; data_of = payload r.entry; deleted = false })
        l.overlay;
  classes = put (scope_key (project r.entry) (class_of r.entry)) tt l.classes;
}
apply_entry op_drop_class r l = record {
  overlay = put (key_of r.entry) (record { tx = r.tx; data_of = []; deleted = true }) l.overlay;
  classes = remove (scope_key (project r.entry) (class_of r.entry)) l.classes;
}
apply_entry op_batch r l = l
apply_entry (op_unknown n) r l = l

unfoldable pub apply_replay : List ReplayedEntry → Live → Live
apply_replay [] l = l
apply_replay (r ∷ rs) l = apply_replay rs (apply_entry (op r.entry) r l)
