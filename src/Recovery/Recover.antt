-- ===== src/Recovery/Recover.antt =====
-- `Recover` and `initFresh` of internal/storage/recovery/recovery.go on the database directory.
use zadodb.Prelude.{ℕ, ◌+◌, ltb, if◌then◌else◌, Option, none, some, List, [], ◌∷◌, nat_eq}
use zadodb.Prelude.Dict.{find, put}
use zadodb.Bytes.{Bytes}
use zadodb.Errors.{Result, ok, err, bad_log, ◌>>=◌}
use zadodb.Wal.Codec.{Codec}
use zadodb.Wal.Log.{Crc}
use zadodb.Page.{invalid_page_id}
use zadodb.Page.Pager.{Meta, create, open_file, read_meta, write_meta}
use zadodb.Idgen.{Generator}
use zadodb.Layout.{Dir, file_of, read_current, write_current, remove_generations}
use zadodb.Checkpoint.Generation.{pairs_of, build_generation, remove_retired}
use zadodb.Recovery.{ReplayedEntry, Replay, replay_wal, truncate_wal, observe_tree_ids}

pub record Recovered : Type 0 where
  pub active_gen : ℕ
  pub last_tx : ℕ
  pub replayed : List ReplayedEntry
  pub gen : Generator

abbrev pub remove_temp_files : Dir → Dir
remove_temp_files d = record d { temps = [] }

unfoldable pub remove_generations_above : Dir → ℕ → Dir
remove_generations_above d keep = remove_generations (λ g. ltb keep g) d

-- `os.OpenFile(…, os.O_RDWR|os.O_CREATE)`.
abbrev pub touch : Option Bytes → Option Bytes
touch none = some []
touch (some f) = some f

abbrev pub replay_result : Option (Replay × ℕ) → Result (Replay × ℕ)
replay_result none = err bad_log
replay_result (some r) = ok r

-- `truncateWAL` of a log that may be missing.
abbrev pub truncate_file : Option Bytes → ℕ → Option Bytes
truncate_file none durable = none
truncate_file (some file) durable = some (truncate_wal file durable)

module _ (codec : Codec) (crc : Crc) (fuel rounds : ℕ) where
  unfoldable pub init_fresh : Dir → Result Dir
  init_fresh d = do
    m ← create crc (find 0 d.data_files)
    let meta : Meta = record { root = invalid_page_id; last_applied = 0; pages = m.num_pages }
    let m' = write_meta crc m meta
    ok (write_current (record d { data_files = put 0 m'.file d.data_files; wal = touch d.wal }) 0)

  -- The directories that `initFresh` passes through, with what of the data file a crash leaves while it
  -- is written.
  unfoldable pub init_states : Bytes → Dir → Result (List Dir)
  init_states cut d = do
    m ← create crc (find 0 d.data_files)
    let meta : Meta = record { root = invalid_page_id; last_applied = 0; pages = m.num_pages }
    let created = record d { data_files = put 0 cut d.data_files }
    let made = record d { data_files = put 0 (write_meta crc m meta).file d.data_files }
    let logged = record made { wal = touch d.wal }
    ok (d ∷ created ∷ made ∷ logged ∷ write_current logged 0 ∷ [])

  -- The generation that CURRENT names, or a fresh one.
  abbrev pub start_dir : Dir → Option ℕ → Result (ℕ × Dir)
  start_dir d none = do d' ← init_fresh d; ok (0, d')
  start_dir d (some gen) = ok (gen, d)

  -- A retired log is folded into the next generation.
  abbrev pub complete : Dir → ℕ → Option Bytes → Result (ℕ × Dir)
  complete d cur none = ok (cur, d)
  complete d cur (some retired) = do
    (last, built) ← build_generation codec crc fuel rounds d cur (cur + 1) retired
    ok (cur + 1, remove_retired built)

  -- `replayWAL` of a log that may be missing.
  abbrev pub replay_file : Option Bytes → ℕ → Generator → Result (Replay × ℕ)
  replay_file none skip g = ok (record { out = []; max_tx = 0; gen = g }, 0)
  replay_file (some file) skip g = replay_result (replay_wal codec crc file skip g)

  -- The rest of `Recover`, at the active generation.
  unfoldable pub resume : Dir → ℕ → Result (Recovered × Dir)
  resume d cur = do
    file ← file_of (find cur d.data_files)
    mgr ← open_file crc file
    meta ← read_meta crc mgr
    kvs ← pairs_of crc fuel rounds mgr meta.root
    (r, durable) ← replay_file d.wal meta.last_applied (observe_tree_ids kvs [])
    ok (
      record {
        active_gen = cur;
        last_tx = if ltb meta.last_applied r.max_tx then r.max_tx else meta.last_applied;
        replayed = r.out;
        gen = r.gen;
      },
      record d { wal = truncate_file d.wal durable },
    )

  unfoldable pub recover : Dir → Result (Recovered × Dir)
  unfolding init_fresh resume remove_generations_above
  recover d = do
    (cur, started) ← start_dir (remove_temp_files d) (read_current d)
    (active, completed) ←
        complete (remove_generations_above started cur) cur
          (remove_generations_above started cur).retired
    resume completed active
