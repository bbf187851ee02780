-- ===== src/Database/Acknowledged.antt =====
-- A write that `submit` acknowledged is on disk: what a client reads after a crash and a boot.
use zadodb.Prelude.{
  ℕ, ◌+◌, ◌<◌, ◌≤◌, ◌^◌, ◌≡◌, refl, sym, ap, ◌∙◌, arith, if◌then◌else◌, Bool, true, false, ◌++◌,
  length,
}
use zadodb.Prelude.{Option, none, some, [], ◌∷◌}
use zadodb.Bytes.{Bytes}
use zadodb.Bytes.Order.{bytes_eq}
use zadodb.Errors
use zadodb.Errors.{Result}
use zadodb.Wal.{
  WalEntry, wal_entry, op_put, op_delete, op_create_class, op_drop_class, op_batch, op_unknown,
  key_of, flatten, payload,
}
use zadodb.Wal.Codec.{Codec}
use zadodb.Wal.Log.{Crc, max_record_len}
use zadodb.Wal.Log.Crash.{frames}
use zadodb.Wal.Sequencer.{Sequencer, run_batch, run_batch_lem, all_small}
use zadodb.Layout.{Dir}
use zadodb.Engine.{
  EngineError, marshal_error, wal_error, closed_error, Outcome, ok, err, Engine, World, lookup,
  stamped, submit_payload, commit, log_entry, submit,
}
use zadodb.Engine.Answered.{Answered, synced, unsynced, too_large, stopped, submit_payload-Answered}
use zadodb.Engine.View.{written, lookup-commit}
use zadodb.Recovery.Boot.{IsSingle}
use zadodb.Recovery.Recover.{Recovered, recover}
use zadodb.Recovery.Durable.{View, read_after}
use zadodb.Recovery.Restart.{recover-Durable}
use zadodb.Recovery.Appended.{encoded_none, encoded_one, batch_writes}
use zadodb.Recovery.Running.{Running, on_wal, whole_log, Running-Durable, run_batch-Running}
use zadodb.Checkpoint.Deltas.{net}
use zadodb.Database.Opened.{Consistent}

-- What a single write makes of the values, in the log and in the overlay.
stamped-net :
    (now : ℕ) (x : WalEntry) (deleted : Bool) (view : View) (key : Bytes)
    → IsSingle x deleted
    → net (batch_writes (stamped now x ∷ [])) view key
      ≡ written (key_of x) (if deleted then none else some (payload x)) view key
unfolding flatten key_of
stamped-net now (wal_entry op_put p c i d t s) deleted view key h = rw h refl
stamped-net now (wal_entry op_create_class p c i d t s) deleted view key h = rw h refl
stamped-net now (wal_entry op_delete p c i d t s) deleted view key (h, k) = rw h refl
stamped-net now (wal_entry op_drop_class p c i d t s) deleted view key (h, k) = rw h refl
stamped-net now (wal_entry op_batch p c i d t s) deleted view key h = absurd h
stamped-net now (wal_entry (op_unknown n) p c i d t s) deleted view key h = absurd h

module _ (codec : Codec) (crc : Crc) (fuel rounds : ℕ) where
  -- The directory once the log on disk is the sequencer's.
  abbrev pub on_disk : Dir → Sequencer → Dir
  on_disk d s = record d { wal = some (frames crc s.log) }

  -- Why a write is refused before anything of it reaches the log.
  pub data Dropped (x : WalEntry) (w : World) (e : Engine) : EngineError → Type 0 where
    no_bytes : codec.marshal (stamped w.now x) ≡ none → Dropped x w e marshal_error
    large_bytes :
        (p : Bytes)
        → e.seq.closed ≡ false
        → codec.marshal (stamped w.now x) ≡ some p
        → max_record_len < length p
        → Dropped x w e wal_error
    log_closed : e.seq.closed ≡ true → Dropped x w e closed_error

  -- How a write through `submit` leaves engine and directory, and when. The record is in the log in the
  -- first two ways, and whether the fsync succeeds tells them apart.
  pub data Settled (x : WalEntry) (deleted : Bool) (d : Dir) (w : World) (e : Engine)
      : Outcome ℕ × Engine → Type 0 where
    acknowledged :
        (p : Bytes) (e' : Engine)
        → e.seq.closed ≡ false
        → codec.marshal (stamped w.now x) ≡ some p
        → length p ≤ max_record_len
        → w.sync_ok ≡ true
        → e'.seq.log ≡ e.seq.log ++ ((e.seq.next_tx + 1, p) ∷ [])
        → Consistent codec crc fuel rounds e' (on_disk d e'.seq)
        → ((key : Bytes)
            → lookup e' key
              ≡ written (key_of x) (if deleted then none else some (payload x)) (lookup e) key)
        → Settled x deleted d w e (ok (e.seq.next_tx + 1), e')
    unsynced_write :
        (p : Bytes) (e' : Engine)
        → e.seq.closed ≡ false
        → codec.marshal (stamped w.now x) ≡ some p
        → length p ≤ max_record_len
        → w.sync_ok ≡ false
        → e'.seq.log ≡ e.seq.log ++ ((e.seq.next_tx + 1, p) ∷ [])
        → Running codec crc fuel rounds
            (on_disk d e'.seq)
            e'.seq
            (written (key_of x) (if deleted then none else some (payload x)) (lookup e))
        → ((key : Bytes) → lookup e' key ≡ lookup e key)
        → Settled x deleted d w e (err wal_error, e')
    dropped :
        (z : EngineError) (e' : Engine)
        → Dropped x w e z
        → e'.seq.log ≡ e.seq.log
        → Consistent codec crc fuel rounds e' (on_disk d e'.seq)
        → ((key : Bytes) → lookup e' key ≡ lookup e key)
        → Settled x deleted d w e (err z, e')

  pub reviewed :
      (d : Dir) (s : Sequencer) (f g : View)
      → ((key : Bytes) → f key ≡ g key)
      → Running codec crc fuel rounds d s f
      → Running codec crc fuel rounds d s g
  reviewed d s f g h k = record {
    g = k.g;
    applied = k.applied;
    kvs = k.kvs;
    ys = k.ys;
    idle = k.idle;
    disk = k.disk;
    wal = k.wal;
    records = k.records;
    logged = k.logged;
    same = λ key. k.same key ∙ h key;
    ahead = k.ahead;
  }

  -- The log as it stands is the one on disk.
  kept_log :
      (d : Dir) (s s' : Sequencer) (view : View)
      → Running codec crc fuel rounds d s view
      → s'.log ≡ s.log
      → s.next_tx ≤ s'.next_tx
      → Running codec crc fuel rounds (on_disk d s') s' view
  kept_log d s s' view k log le = record {
    g = k.g;
    applied = k.applied;
    kvs = k.kvs;
    ys = k.ys;
    idle = k.idle;
    disk = rw log (
        on_wal codec crc fuel rounds d k.g k.applied k.kvs s.log s.log _ k.disk
          (whole_log codec crc fuel rounds s.log k.records));
    wal = refl;
    records = rw log k.records;
    logged = rw log k.logged;
    same = k.same;
    ahead = rw log (omega (arith, k.ahead, le));
  }

  appended_write :
      (d : Dir) (e : Engine) (now : ℕ) (x : WalEntry) (deleted : Bool) (p : Bytes) (sync_ok : Bool)
      → Consistent codec crc fuel rounds e d
      → IsSingle x deleted
      → codec.marshal (stamped now x) ≡ some p
      → all_small (p ∷ []) ≡ true
      → e.seq.next_tx + 1 < 2 ^ 64
      → Running codec crc fuel rounds
          (on_disk d (run_batch e.seq (p ∷ []) sync_ok).1)
          (run_batch e.seq (p ∷ []) sync_ok).1
          (written (key_of x) (if deleted then none else some (payload x)) (lookup e))
  appended_write d e now x deleted p sync_ok k single m small lt =
      reviewed _ _ _ _ (λ key. stamped-net now x deleted (lookup e) key single)
        (run_batch-Running codec crc fuel rounds d e.seq (lookup e) (stamped now x ∷ []) (p ∷ [])
          sync_ok k (encoded_one (stamped now x) p m encoded_none) small lt)

  one_logged :
      (s : Sequencer) (p : Bytes) (sync_ok : Bool)
      → all_small (p ∷ []) ≡ true
      → (run_batch s (p ∷ []) sync_ok).1.log ≡ s.log ++ ((s.next_tx + 1, p) ∷ [])
  one_logged s p sync_ok small =
      let (told, next, grown) = run_batch_lem s (p ∷ []) sync_ok in grown small

  commit-Settled :
      (d : Dir) (e : Engine) (x : WalEntry) (deleted : Bool) (w : World) (p : Bytes)
      (answer : Outcome ℕ × Sequencer)
      → Consistent codec crc fuel rounds e d
      → IsSingle x deleted
      → codec.marshal (stamped w.now x) ≡ some p
      → e.seq.next_tx + 1 < 2 ^ 64
      → Answered e.seq w p answer
      → Settled x deleted d w e (commit (stamped w.now x) deleted e answer)
  unfolding commit lookup
  commit-Settled d e x deleted w p answer k single m lt (synced live fine small) =
      acknowledged p _ live m (ground (arith, small)) fine (one_logged e.seq p w.sync_ok small)
        (reviewed _ _ _ _
          (λ key. sym (
            lookup-commit w.now x deleted e (e.seq.next_tx + 1)
              (run_batch e.seq (p ∷ []) w.sync_ok).1 key))
          (appended_write d e w.now x deleted p w.sync_ok k single m small lt))
        (lookup-commit w.now x deleted e (e.seq.next_tx + 1) (run_batch e.seq (p ∷ []) w.sync_ok).1)
  commit-Settled d e x deleted w p answer k single m lt (unsynced live bad small) =
      unsynced_write p _ live m (ground (arith, small)) bad (one_logged e.seq p w.sync_ok small)
        (appended_write d e w.now x deleted p w.sync_ok k single m small lt) (λ key. refl)
  commit-Settled d e x deleted w p answer k single m lt (too_large live large same) =
      dropped wal_error _ (large_bytes p live m (ground (arith, large))) same
        (kept_log d e.seq (run_batch e.seq (p ∷ []) w.sync_ok).1 (lookup e) k same
          (omega (arith, (run_batch_lem e.seq (p ∷ []) w.sync_ok).1)))
        (λ key. refl)
  commit-Settled d e x deleted w p answer k single m lt (stopped shut) =
      dropped closed_error _ (log_closed shut) refl
        (kept_log d e.seq e.seq (lookup e) k refl (omega arith)) (λ key. refl)

  log_entry-Settled :
      (d : Dir) (e : Engine) (x : WalEntry) (deleted : Bool) (w : World) (bytes : Option Bytes)
      → Consistent codec crc fuel rounds e d
      → IsSingle x deleted
      → codec.marshal (stamped w.now x) ≡ bytes
      → e.seq.next_tx + 1 < 2 ^ 64
      → Settled x deleted d w e (log_entry (stamped w.now x) deleted w e bytes)
  unfolding log_entry
  log_entry-Settled d e x deleted w none k single m lt =
      dropped marshal_error e (no_bytes m) refl
        (kept_log d e.seq e.seq (lookup e) k refl (omega arith)) (λ key. refl)
  log_entry-Settled d e x deleted w (some p) k single m lt =
      commit-Settled d e x deleted w p (submit_payload e.seq w p) k single m lt
        (submit_payload-Answered e.seq w p)

  -- A single write through `submit`, on an engine that is consistent with its directory and an id below
  -- 2^64, ends in one of three ways. It is acknowledged: the log is open, its bytes fit a record, the fsync succeeded, the
  -- log gained exactly its record, its key reads as written, and engine and directory are consistent. It
  -- is refused because the fsync failed: the open log gained its record and a boot would find the write, while
  -- no value changes for clients. Or it is refused because it has no bytes, they are too large or the log
  -- is closed: the log and all values stay, and engine and directory are consistent.
  pub submit-Settled :
      (d : Dir) (e : Engine) (x : WalEntry) (deleted : Bool) (w : World)
      → Consistent codec crc fuel rounds e d
      → IsSingle x deleted
      → e.seq.next_tx + 1 < 2 ^ 64
      → Settled x deleted d w e (submit codec x deleted w e)
  unfolding submit
  submit-Settled d e x deleted w k single lt =
      log_entry-Settled d e x deleted w (codec.marshal (stamped w.now x)) k single refl lt

  recovered_from :
      (d : Dir) (e e' : Engine) (x : WalEntry) (deleted : Bool) (w : World) (tx : ℕ)
      → Settled x deleted d w e (ok tx, e')
      → (r : Recovered) × (d' : Dir) × (recover codec crc fuel rounds (on_disk d e'.seq)
          ≡ Errors.ok (r, d'))
        × ((key : Bytes)
            → read_after codec crc fuel rounds r d' key
              ≡ Errors.ok
                  (written (key_of x) (if deleted then none else some (payload x)) (lookup e) key))
  recovered_from d e e' x deleted w tx (acknowledged p _ live m small fine log stands reads) =
      let (r, d', run, shown, left) =
        recover-Durable codec crc fuel rounds (on_disk d e'.seq) (lookup e')
          (Running-Durable codec crc fuel rounds (on_disk d e'.seq) e'.seq (lookup e') stands) in
      (r, d', run, λ key. shown key ∙ ap Errors.ok (reads key))

  -- A write that `submit` acknowledged survives: the directory with the log as it then is boots, and at
  -- every key a client reads the value as it was before the write, and at the write's own key the
  -- payload, or nothing after a deletion.
  pub acknowledged-recovered :
      (d : Dir) (e e' : Engine) (x : WalEntry) (deleted : Bool) (w : World) (tx : ℕ)
      → Consistent codec crc fuel rounds e d
      → IsSingle x deleted
      → e.seq.next_tx + 1 < 2 ^ 64
      → submit codec x deleted w e ≡ (ok tx, e')
      → (r : Recovered) × (d' : Dir) × (recover codec crc fuel rounds (on_disk d e'.seq)
          ≡ Errors.ok (r, d'))
        × ((key : Bytes)
            → read_after codec crc fuel rounds r d' key
              ≡ Errors.ok
                  (written (key_of x) (if deleted then none else some (payload x)) (lookup e) key))
  acknowledged-recovered d e e' x deleted w tx k single lt done =
      let end : Settled x deleted d w e (ok tx, e') =
        rw (← done) (submit-Settled d e x deleted w k single lt) in
      recovered_from d e e' x deleted w tx end
