-- ===== src/Examples/Databases.antt =====
-- An engine on a fresh directory: a write that is acknowledged, a batch and a boot.
use zadodb.Prelude.{◌≡◌, ◌≤◌, refl, arith, ℕ, true, false, some, [], ◌∷◌, length, take, All}
use zadodb.Prelude.Dict.{find, put}
use zadodb.Bytes.{Bytes, put_le, put_be, compare_bytes}
use zadodb.Bytes.Order.{bytes_eq}
use zadodb.Errors
use zadodb.Wal.{key_of, payload, flatten, op, scope_key, object_key}
use zadodb.Wal.Log.{frame}
use zadodb.Wal.Log.Crash.{frames}
use zadodb.Wal.Sequencer.{Sequencer, run_batch}
use zadodb.Layout.{Dir}
use zadodb.Engine.{
  ok, log_entry, commit, submit_payload, create_object, class_exists, Engine, World, lookup, submit,
}
use zadodb.Engine.View.{written}
use zadodb.Recovery.Recover.{Recovered, recover}
use zadodb.Recovery.Durable.{torn, Durable, read_after, at_rest}
use zadodb.Recovery.Boot.{logged_none}
use zadodb.Recovery.Appended.{Encoded, encoded_none, encoded_one, batch_writes}
use zadodb.Recovery.Running.{Running, run_batch-Running, run_batch-crash}
use zadodb.Checkpoint.Deltas.{net}
use zadodb.Checkpoint.Built.{writes}
use zadodb.Database.{open_database}
use zadodb.Database.Opened.{IsWrite, Consistent, open_database-Consistent}
use zadodb.Database.Acknowledged.{
  on_disk, reviewed, Settled, submit-Settled, acknowledged-recovered,
}
use zadodb.Database.Methods.{creating, call_object, Recovers, call_object_recovered}
use zadodb.Idgen
use zadodb.Examples.Objects.{store, app, users}
use zadodb.Examples.{adding, plain}
use zadodb.Examples.Boots.{write, bytes}
use zadodb.Examples.Checkpoints
use zadodb.Examples.Checkpoints.{
  fresh-Disk, written-Disk, written_logged, held, records, records-IsRecord,
}
use zadodb.Examples.Loads.{logged}

abbrev start : Sequencer
start = record { log = []; next_tx = 0; closed = false }

abbrev engine : Engine
engine = record { seq = start; idgen = []; overlay = []; classes = []; snapshot = [] }

abbrev place : Dir
place = record fresh-Disk.0 { wal = some [] }

engine-Consistent : Consistent plain adding 5 4 engine place
unfolding lookup find writes
engine-Consistent =
    let k = fresh-Disk.2 in
    record {
      g = 0;
      applied = 0;
      kvs = [];
      ys = [];
      idle = fresh-Disk.3;
      disk = record {
        file = k.file;
        here = k.here;
        gen = k.gen;
        names = k.names;
        log = torn 0 [] tt (omega arith) refl refl;
      };
      wal = refl;
      records = tt;
      logged = logged_none;
      same = λ key. refl;
      ahead = omega arith;
    }

abbrev world : World
world = record { now = 12; sync_ok = true }

submit-Settled_example :
    Settled plain adding 5 4 write false place world engine (submit plain write false world engine)
submit-Settled_example =
    submit-Settled plain adding 5 4 place engine write false world engine-Consistent refl
      (omega arith)

abbrev later : Engine
later = (submit plain write false world engine).1

submitted : submit plain write false world engine ≡ (ok 1, later)
unfolding submit log_entry commit submit_payload run_batch
submitted = refl

acknowledged-recovered_example :
    (r : Recovered) × (d' : Dir) × (recover plain adding 5 4
        (on_disk plain adding 5 4 place later.seq)
      ≡ Errors.ok (r, d'))
    × ((key : Bytes)
        → read_after plain adding 5 4 r d' key
          ≡ Errors.ok (written (key_of write) (some (payload write)) (lookup engine) key))
acknowledged-recovered_example =
    acknowledged-recovered plain adding 5 4 place engine later write false world 1 engine-Consistent
      refl (omega arith) submitted

one_Encoded : Encoded plain (write ∷ []) (bytes ∷ [])
one_Encoded = encoded_one write bytes refl encoded_none

run_batch-Running_example :
    Running plain adding 5 4
      (record place { wal = some (frames adding (run_batch start (bytes ∷ []) true).1.log) })
      (run_batch start (bytes ∷ []) true).1
      (net (batch_writes (write ∷ [])) (lookup engine))
run_batch-Running_example =
    run_batch-Running plain adding 5 4 place start (lookup engine) (write ∷ []) (bytes ∷ []) true
      engine-Consistent one_Encoded refl (omega arith)

run_batch-crash_example :
    (j : ℕ) × (j ≤ length (write ∷ []))
    × Durable plain adding 5 4
        (record place {
          wal = some (take 20 (frames adding (run_batch start (bytes ∷ []) true).1.log));
        })
        (net (batch_writes (take j (write ∷ []))) (lookup engine))
unfolding run_batch frame put_le
run_batch-crash_example =
    run_batch-crash plain adding 5 4 place start (lookup engine) (write ∷ []) (bytes ∷ []) true 20
      engine-Consistent one_Encoded refl (omega arith) (omega arith) (omega arith)

logged_known : All (λ x. IsWrite (op x)) (writes logged)
unfolding writes flatten
logged_known = (tt, tt)

open_database-Consistent_example :
    (e : Engine) × (d' : Dir) × (open_database plain adding 5 4 Checkpoints.written
      ≡ Errors.ok (e, d'))
    × ((key : Bytes) → lookup e key ≡ held key)
    × Consistent plain adding 5 4 e d'
open_database-Consistent_example =
    open_database-Consistent plain adding 5 4 Checkpoints.written held
      (at_rest fresh-Disk.3 written-Disk written_logged (λ key. refl)) logged_known

-- The engine with a class.
abbrev classy : Engine
classy = record engine { classes = store.classes }

classy-Consistent : Consistent plain adding 5 4 classy place
unfolding lookup
classy-Consistent =
    reviewed plain adding 5 4 place start (lookup engine) _ (λ key. refl) engine-Consistent

abbrev created : Engine
created = (create_object plain app users (9 ∷ []) world classy).1

create_runs : call_object plain adding 5 4 (creating (9 ∷ [])) app users world classy ≡ some created
unfolding create_object class_exists lookup submit log_entry commit submit_payload run_batch
    scope_key object_key compare_bytes find put put_be Idgen.next Idgen.current
create_runs = refl

call_object_recovered_example : Recovers plain adding 5 4 place created
call_object_recovered_example =
    call_object_recovered plain adding 5 4 place classy created world app users (creating (9 ∷ []))
      classy-Consistent (omega arith) create_runs

-- An engine whose overlay has the write that the log holds.
abbrev one_write : Engine
one_write = record engine {
  seq = record { log = records; next_tx = 5; closed = false };
  overlay = (key_of write, record { tx = 5; data_of = payload write; deleted = false }) ∷ [];
}

one_write-Consistent : Consistent plain adding 5 4 one_write Checkpoints.written
unfolding lookup find writes flatten
one_write-Consistent = record {
  g = 0;
  applied = 0;
  kvs = [];
  ys = logged;
  idle = fresh-Disk.3;
  disk = written-Disk;
  wal = refl;
  records = records-IsRecord;
  logged = written_logged;
  same = λ key. ground arith;
  ahead = omega arith;
}
