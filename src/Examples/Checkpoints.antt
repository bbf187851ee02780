-- ===== src/Examples/Checkpoints.antt =====
-- The first boot of an empty directory, one logged write, and a checkpoint.
use zadodb.Prelude.{
  ◌≡◌, refl, sym, ap, arith, take_all, List, [], ◌∷◌, ◌++◌, length, All, some, none, nat_eq,
}
use zadodb.Prelude.Dict.{find, put, remove}
use zadodb.Bytes.{Bytes, compare_bytes, put_be}
use zadodb.Bytes.Order.{bytes_eq}
use zadodb.Errors.{ok, err, file_exists}
use zadodb.Wal.{flatten, key_of, object_key}
use zadodb.Wal.Log.{LogRecord}
use zadodb.Wal.Log.Frames.{IsRecord}
use zadodb.Wal.Log.Crash.{frames, survivors_all}
use zadodb.Btree.Overflow.{value_chunks, chunks}
use zadodb.Btree.Build.Found.{leaf_pages}
use zadodb.Layout.{Dir}
use zadodb.Recovery.Boot.{Logged, logged_none, logged_one}
use zadodb.Recovery.Recover.{Recovered, init_fresh, init_states, recover}
use zadodb.Recovery.Durable.{View, torn, Disk, Durable, at_rest, read_after}
use zadodb.Recovery.Restart.{recover-Durable}
use zadodb.Recovery.Fresh.{init_fresh-Disk, recover-fresh, init_states-recovery}
use zadodb.Checkpoint.{put_deltas, sort_deltas, delta_of, emit, before, from, after, pair_at, merge}
use zadodb.Checkpoint.Built.{writes, newest, folded}
use zadodb.Checkpoint.Deltas.{net}
use zadodb.Checkpoint.Generation.{run, run_states}
use zadodb.Checkpoint.DataFile.{Fits}
use zadodb.Checkpoint.CrashSafe.{run_states-Durable, run-Durable}
use zadodb.Examples.{adding, plain}
use zadodb.Examples.Boots.{write, bytes}
use zadodb.Examples.Loads.{logged, logged-Writable}

abbrev empty_dir : Dir
empty_dir = record { data_files = []; temps = []; current = none; wal = none; retired = none }

recover-fresh_example :
    (r : Recovered) × (d' : Dir) × (recover plain adding 5 4 empty_dir ≡ ok (r, d'))
    × ((key : Bytes) → read_after plain adding 5 4 r d' key ≡ ok none)
    × Durable plain adding 5 4 d' (λ key. none)
recover-fresh_example =
    recover-fresh plain adding 5 4 (omega arith) empty_dir refl (unfold find in refl) refl refl

init_states-recovery_example :
    (cuts : List Dir) × (d' : Dir) × (init_states plain adding 5 4 (7 ∷ []) empty_dir
      ≡ ok (empty_dir ∷ (cuts ++ (d' ∷ []))))
    × (length cuts ≡ 3)
    × All (λ x. recover plain adding 5 4 x ≡ err file_exists) cuts
    × (init_fresh plain adding 5 4 empty_dir ≡ ok d')
    × Durable plain adding 5 4 d' (λ key. none)
init_states-recovery_example =
    init_states-recovery plain adding 5 4 (omega arith) (7 ∷ []) empty_dir refl
      (unfold find in refl) refl refl

pub fresh-Disk :
    (d' : Dir) × (init_fresh plain adding 5 4 empty_dir ≡ ok d')
    × Disk plain adding 5 4 d' 0 [] 0 []
    × (d'.retired ≡ none)
fresh-Disk = init_fresh-Disk plain adding 5 4 (omega arith) empty_dir (unfold find in refl) refl

abbrev pub records : List LogRecord
records = (5, bytes) ∷ []

pub records-IsRecord : All IsRecord records
records-IsRecord = ((omega arith, omega arith), tt)

-- The directory with the log of one write.
abbrev pub written : Dir
written = record fresh-Disk.0 { wal = some (frames adding records) }

pub written-Disk : Disk plain adding 5 4 written 0 [] 0 records
written-Disk =
    let k = fresh-Disk.2 in
    record {
      file = k.file;
      here = k.here;
      gen = k.gen;
      names = k.names;
      log =
          torn (length (frames adding records)) records records-IsRecord (omega arith)
            (ap some (sym (take_all (frames adding records) _ (omega arith))))
            (sym (survivors_all adding records));
    }

pub written_logged : Logged plain 0 records logged
written_logged = logged_one 5 bytes write (omega arith) refl logged_none

written_pages : leaf_pages (folded [] logged) ≡ 2
unfolding value_chunks chunks merge sort_deltas put_deltas writes flatten compare_bytes key_of
    object_key put_be emit before put remove pair_at from after delta_of
written_pages = refl

written_length : length (folded [] logged) ≡ 1
unfolding merge sort_deltas put_deltas writes flatten compare_bytes key_of object_key put_be emit
    before put remove pair_at from after delta_of
written_length = refl

pub written_Fits : Fits plain adding 5 4 [] logged
written_Fits = record {
  writable = logged-Writable;
  room = omega (arith, written_pages);
  deep = omega (arith, written_length);
}

abbrev pub held : View
held = net (writes logged) (λ j. find j [])

recover-Durable_example :
    (r : Recovered) × (d' : Dir) × (recover plain adding 5 4 written ≡ ok (r, d'))
    × ((key : Bytes) → read_after plain adding 5 4 r d' key ≡ ok (held key))
    × Durable plain adding 5 4 d' held
recover-Durable_example =
    recover-Durable plain adding 5 4 written held
      (at_rest fresh-Disk.3 written-Disk written_logged (λ key. refl))

run_states-Durable_example :
    (ds : List Dir) × (run_states plain adding 5 4 (1 ∷ 2 ∷ []) written ≡ ok ds)
    × All (λ x. Durable plain adding 5 4 x held) ds
run_states-Durable_example =
    run_states-Durable plain adding 5 4 written held 0 0 [] records logged fresh-Disk.3 written-Disk
      refl records-IsRecord written_logged written_Fits (λ key. refl) (1 ∷ 2 ∷ [])

run-Durable_example :
    (d' : Dir) × (run plain adding 5 4 written ≡ ok (1, newest records 0, d'))
    × Durable plain adding 5 4 d' held
    × (d'.retired ≡ none)
    × (d'.wal ≡ some [])
run-Durable_example =
    run-Durable plain adding 5 4 written held 0 0 [] records logged fresh-Disk.3 written-Disk refl
      records-IsRecord written_logged written_Fits (λ key. refl)
