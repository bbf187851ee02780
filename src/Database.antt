-- ===== src/Database.antt =====
-- `Open` of internal/storage/engine.go: the boot, the snapshot of the active generation, the log opened
-- for appending and the engine that starts on them. The snapshot is held by its pairs (Engine), and the
-- log by its records (Wal/Sequencer).
pub mod Opened
pub mod Acknowledged
pub mod Checkpointed
pub mod Methods
use zadodb.Prelude.{ℕ, if◌then◌else◌, false, Option, none, some, List, [], ◌∷◌, nat_eq}
use zadodb.Prelude.Dict.{find}
use zadodb.Bytes.{Bytes}
use zadodb.Errors.{Result, ok, ◌>>=◌}
use zadodb.Wal.{ns_class}
use zadodb.Wal.Codec.{Codec}
use zadodb.Wal.Log.{Crc, LogRecord, ReadResult, read_log}
use zadodb.Page.Pager.{open_file, read_meta}
use zadodb.Btree.Lookup.Prefix.{starts_with}
use zadodb.Layout.{Dir, file_of}
use zadodb.Engine.{Engine}
use zadodb.Checkpoint.Generation.{pairs_of}
use zadodb.Recovery.{Live, load_classes, apply_replay}
use zadodb.Recovery.Recover.{Recovered, touch, recover}

-- The pairs that `Scan` visits for a prefix.
unfoldable pub scan_prefix : Bytes → List (Bytes × Bytes) → List (Bytes × Bytes)
scan_prefix prefix [] = []
scan_prefix prefix ((k, v) ∷ kvs) =
    let rest = scan_prefix prefix kvs in if starts_with prefix k then (k, v) ∷ rest else rest

-- The records that the log holds when the writer opens it.
abbrev pub records_in : Option ReadResult → List LogRecord
records_in none = []
records_in (some r) = r.records

abbrev pub log_on : Crc → Option Bytes → List LogRecord
log_on crc none = []
log_on crc (some file) = records_in (read_log crc file)

-- The engine over the recovered state and the pairs of the active generation.
unfoldable pub start_engine : Recovered → List (Bytes × Bytes) → List LogRecord → Engine
start_engine r kvs ls =
    let live =
      apply_replay r.replayed
        (record { overlay = []; classes = load_classes (scan_prefix (ns_class ∷ []) kvs) [] }) in
    record {
      seq = record { log = ls; next_tx = r.last_tx; closed = false };
      idgen = r.gen;
      overlay = live.overlay;
      classes = live.classes;
      snapshot = kvs;
    }

module _ (codec : Codec) (crc : Crc) (fuel rounds : ℕ) where
  -- The rest of `Open` once the boot is done.
  unfoldable pub open_recovered : Recovered → Dir → Result (Engine × Dir)
  open_recovered r d = do
    file ← file_of (find r.active_gen d.data_files)
    mgr ← open_file crc file
    meta ← read_meta crc mgr
    kvs ← pairs_of crc fuel rounds mgr meta.root
    ok (start_engine r kvs (log_on crc (touch d.wal)), record d { wal = touch d.wal })

  unfoldable pub open_database : Dir → Result (Engine × Dir)
  unfolding open_recovered
  open_database d = do (r, d') ← recover codec crc fuel rounds d; open_recovered r d'
