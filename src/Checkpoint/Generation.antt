-- ===== src/Checkpoint/Generation.antt =====
-- `Run` and `BuildGeneration` of internal/storage/checkpoint/checkpoint.go on the database directory, and
-- `doRotate` of internal/storage/wal/sequencer.go. The steps that change the directory stand apart,
-- since a crash can fall between any two.
use zadodb.Prelude.{ℕ, ◌+◌, ltb, true, Bool, Option, none, some, List, [], ◌∷◌, ◌++◌}
use zadodb.Prelude.Dict.{find, put, remove}
use zadodb.Prelude.{nat_eq}
use zadodb.Bytes.{Bytes}
use zadodb.Errors.{Result, ok, err, bad_log, ◌>>=◌}
use zadodb.Wal.Codec.{Codec}
use zadodb.Wal.Log.{Crc, ReadError, bad_version, ReadResult, read_log}
use zadodb.Page.Pager.{Manager, Meta, create, open_file, read_meta, write_meta}
use zadodb.Btree.Store.OnFile.{file_store}
use zadodb.Btree.Lookup.{scan}
use zadodb.Layout.{Dir, file_of, read_current, current_of, write_current, remove_generations}
use zadodb.Checkpoint.{Parsed, parse_records, sort_deltas, merge_build}

abbrev pub parsed_of : ReadError → Option Parsed → Result Parsed
parsed_of (bad_version v) r = err bad_log
parsed_of z none = err bad_log
parsed_of z (some r) = ok r

-- The callback that keeps every pair.
abbrev pub keep_pair : List (Bytes × Bytes) → Bytes → Bytes → List (Bytes × Bytes) × Bool
keep_pair kvs k v = (kvs ++ ((k, v) ∷ []), true)

-- `os.Rename(newTmp, finalData)`.
abbrev pub publish : Dir → ℕ → Bytes → Dir
publish d gen file = record d { data_files = put gen file d.data_files; temps = remove gen d.temps }

-- `doRotate`: the log is renamed, and a fresh one is opened in its place.
abbrev pub rotate : Dir → Dir
rotate d = record d { wal = some []; retired = d.wal }

abbrev pub remove_retired : Dir → Dir
remove_retired d = record d { retired = none }

unfoldable pub cleanup_old_generations : Dir → ℕ → Dir
cleanup_old_generations d keep = remove_generations (λ g. ltb g keep) d

module _ (crc : Crc) (fuel rounds : ℕ) where
  -- The pairs of a tree in order, as `Scan` visits them.
  unfoldable pub pairs_of : Manager → ℕ → Result (List (Bytes × Bytes))
  pairs_of m root = scan (file_store crc) rounds keep_pair fuel m root [] []

module _ (codec : Codec) (crc : Crc) (fuel rounds : ℕ) where
  unfoldable pub parse_read : ℕ → Option ReadResult → Result Parsed
  parse_read applied none = err bad_log
  parse_read applied (some res) =
      parsed_of res.ended
        (parse_records codec applied res.records (record { deltas = []; last_applied = applied }))

  -- `parseWALDeltas` of a log's bytes.
  unfoldable pub parse_wal_deltas : Bytes → ℕ → Result Parsed
  unfolding parse_read
  parse_wal_deltas file applied = parse_read applied (read_log crc file)

  -- `BuildGeneration` up to the rename: the last transaction folded in, and the bytes of the temporary
  -- file.
  unfoldable pub build_file : Dir → ℕ → Bytes → Result (ℕ × Bytes)
  unfolding parse_wal_deltas pairs_of
  build_file d base retired = do
    file ← file_of (find base d.data_files)
    base_mgr ← open_file crc file
    base_meta ← read_meta crc base_mgr
    parsed ← parse_wal_deltas retired base_meta.last_applied
    m ← create crc none
    kvs ← pairs_of crc fuel rounds base_mgr base_meta.root
    (root, m') ← merge_build (file_store crc) m kvs (sort_deltas parsed.deltas)
    let meta : Meta = record {
      root = root;
      last_applied = parsed.last_applied;
      pages = m'.num_pages;
    }
    ok (parsed.last_applied, (write_meta crc m' meta).file)

  unfoldable pub build_generation : Dir → ℕ → ℕ → Bytes → Result (ℕ × Dir)
  unfolding build_file
  build_generation d base gen retired = do
    (last, file) ← build_file d base retired
    ok (last, write_current (publish d gen file) gen)

  -- `Run`: the new generation, the last transaction folded in, and the directory.
  unfoldable pub run : Dir → Result (ℕ × ℕ × Dir)
  unfolding build_generation
  run d = do
    cur ← current_of (read_current d)
    let d' = rotate d
    retired ← file_of d'.retired
    (last, built) ← build_generation d' cur (cur + 1) retired
    ok (cur + 1, last, cleanup_old_generations (remove_retired built) (cur + 1))

  -- The directories that `Run` passes through, with what of the temporary file a crash leaves: the log
  -- is renamed before a new one is opened.
  unfoldable pub run_states : Bytes → Dir → Result (List Dir)
  unfolding build_file cleanup_old_generations
  run_states temp d = do
    cur ← current_of (read_current d)
    let renamed = record d { wal = none; retired = d.wal }
    let rotated = rotate d
    retired ← file_of rotated.retired
    (last, file) ← build_file rotated cur retired
    let writing = record rotated { temps = put (cur + 1) temp rotated.temps }
    let published = publish rotated (cur + 1) file
    let switched = write_current published (cur + 1)
    let folded = remove_retired switched
    ok (
        d
        ∷ renamed
        ∷ rotated
        ∷ writing
        ∷ published
        ∷ switched
        ∷ folded
        ∷ cleanup_old_generations folded (cur + 1)
        ∷ [])
