-- ===== src/Recovery/Running.antt =====
-- internal/storage/wal/sequencer.go over the files of a directory: what the batches that `run` appends
-- leave there, acknowledged or cut by a crash.
use zadodb.Prelude.{
  ℕ, ◌+◌, ◌-◌, ◌<◌, ◌≤◌, ◌^◌, ◌≡◌, refl, sym, ap, ◌∙◌, arith, All, All-append, Bool, true,
}
use zadodb.Prelude.{Option, none, some, List, ◌++◌, length, take, take_all}
use zadodb.Prelude.Dict.{Dict, find}
use zadodb.Bytes.{Bytes}
use zadodb.Bytes.Order.{bytes_eq}
use zadodb.Wal.{WalEntry}
use zadodb.Wal.Codec.{Codec}
use zadodb.Wal.Log.{Crc, LogRecord}
use zadodb.Wal.Log.Frames.{IsRecord}
use zadodb.Wal.Log.Crash.{frames, survivors, survivors_all}
use zadodb.Wal.Sequencer.{Sequencer, run_batch, run_batch_lem, batch_records, all_small}
use zadodb.Layout.{Dir}
use zadodb.Recovery.Boot.{Logged}
use zadodb.Recovery.Durable.{View, WalHolds, torn, Disk, Durable, at_rest, net_at}
use zadodb.Recovery.Resumed.{newest_above}
use zadodb.Recovery.Appended.{
  Encoded, batch_entries, batch_writes, newest-append, newest-batch_records, batch_records-IsRecord,
  net-append, writes-append, writes-batch_entries, Logged-append, Logged-batch_records, Left,
  left_some, survivors-batch_records, survivors-append,
}
use zadodb.Checkpoint.Deltas.{net}
use zadodb.Checkpoint.Built.{writes, newest}

-- The records of a batch behind those of the log are its writes over the values.
pub net_batch :
    (kvs : Dict Bytes Bytes) (ys : List (ℕ × WalEntry)) (tx : ℕ) (xs : List WalEntry) (view : View)
    (key : Bytes)
    → net (writes ys) (λ k. find k kvs) key ≡ view key
    → net (writes (ys ++ batch_entries tx xs)) (λ k. find k kvs) key
      ≡ net (batch_writes xs) view key
net_batch kvs ys tx xs view key same =
    ap (λ w. net w (λ k. find k kvs) key)
      (writes-append ys (batch_entries tx xs)
        ∙ ap (λ w. writes ys ++ w) (writes-batch_entries tx xs))
    ∙ net-append (writes ys) (batch_writes xs) (λ k. find k kvs) key
    ∙ net_at (batch_writes xs) (net (writes ys) (λ k. find k kvs)) view key same

module _ (codec : Codec) (crc : Crc) (fuel rounds : ℕ) where
  -- The files of a directory while a sequencer runs on it: no checkpoint is under way, and the log on
  -- disk is its records, over which clients see `view`.
  pub record Running (d : Dir) (s : Sequencer) (view : View) : Type 0 where
    pub g : ℕ
    pub applied : ℕ
    pub kvs : Dict Bytes Bytes
    pub ys : List (ℕ × WalEntry)
    pub idle : d.retired ≡ none
    pub disk : Disk codec crc fuel rounds d g kvs applied s.log
    pub wal : d.wal ≡ some (frames crc s.log)
    pub records : All IsRecord s.log
    pub logged : Logged codec applied s.log ys
    pub same : (key : Bytes) → net (writes ys) (λ k. find k kvs) key ≡ view key
    pub ahead : newest s.log applied ≤ s.next_tx

  -- The log file is replaced; the rest of the directory stays.
  pub on_wal :
      (d : Dir) (g applied : ℕ) (kvs : Dict Bytes Bytes) (ls ls' : List LogRecord)
      (w : Option Bytes)
      → Disk codec crc fuel rounds d g kvs applied ls
      → WalHolds crc w ls'
      → Disk codec crc fuel rounds (record d { wal = w }) g kvs applied ls'
  on_wal d g applied kvs ls ls' w k log = record {
    file = k.file;
    here = k.here;
    gen = k.gen;
    names = k.names;
    log = log;
  }

  pub whole_log : (ls : List LogRecord) → All IsRecord ls → WalHolds crc (some (frames crc ls)) ls
  whole_log ls h =
      torn (length (frames crc ls)) ls h (omega arith)
        (ap some (sym (take_all (frames crc ls) _ (omega arith)))) (sym (survivors_all crc ls))

  -- The log after some requests of a batch, and maybe not the others.
  appended :
      (d : Dir) (s : Sequencer) (view : View) (xs : List WalEntry) (ps : List Bytes)
      (w : Option Bytes)
      → (k : Running d s view) → Encoded codec xs ps
      → WalHolds crc w (s.log ++ batch_records s.next_tx ps)
      → Durable codec crc fuel rounds (record d { wal = w }) (net (batch_writes xs) view)
  appended d s view xs ps w k enc log =
      at_rest k.idle
        (on_wal d k.g k.applied k.kvs s.log (s.log ++ batch_records s.next_tx ps) w k.disk log)
        (Logged-append codec k.applied s.log (batch_records s.next_tx ps) k.ys
          (batch_entries s.next_tx xs) k.logged
          (Logged-batch_records codec k.applied s.next_tx xs ps
            (omega (arith, newest_above s.log k.applied, k.ahead)) enc))
        (λ key. net_batch k.kvs k.ys s.next_tx xs view key (k.same key))

  batch-IsRecord :
      (d : Dir) (s : Sequencer) (view : View) (ps : List Bytes)
      → Running d s view
      → all_small ps ≡ true
      → s.next_tx + length ps < 2 ^ 64
      → All IsRecord (s.log ++ batch_records s.next_tx ps)
  batch-IsRecord d s view ps k small lt =
      All-append IsRecord s.log (batch_records s.next_tx ps) k.records
        (batch_records-IsRecord s.next_tx ps small lt)

  -- A directory on which a sequencer runs is durable as it stands.
  pub Running-Durable :
      (d : Dir) (s : Sequencer) (view : View)
      → Running d s view
      → Durable codec crc fuel rounds d view
  Running-Durable d s view k = at_rest k.idle k.disk k.logged k.same

  -- A batch of marshalled entries that are not too large leaves the sequencer running on a log with their
  -- writes, whatever the fsync answered: clients of the directory see them, in order, over what was there.
  pub run_batch-Running :
      (d : Dir) (s : Sequencer) (view : View) (xs : List WalEntry) (ps : List Bytes)
      (sync_ok : Bool)
      → Running d s view
      → Encoded codec xs ps
      → all_small ps ≡ true
      → s.next_tx + length ps < 2 ^ 64
      → Running
          (record d { wal = some (frames crc (run_batch s ps sync_ok).1.log) })
          (run_batch s ps sync_ok).1
          (net (batch_writes xs) view)
  run_batch-Running d s view xs ps sync_ok k enc small lt =
      let (told, next, grown) = run_batch_lem s ps sync_ok in
      let new : List LogRecord = s.log ++ batch_records s.next_tx ps in
      let log : (run_batch s ps sync_ok).1.log ≡ new = grown small in
      let fit : All IsRecord new = batch-IsRecord d s view ps k small lt in
      record {
        g = k.g;
        applied = k.applied;
        kvs = k.kvs;
        ys = k.ys ++ batch_entries s.next_tx xs;
        idle = k.idle;
        disk = rw log (on_wal d k.g k.applied k.kvs s.log new _ k.disk (whole_log new fit));
        wal = refl;
        records = rw log fit;
        logged = rw log (
            Logged-append codec k.applied s.log (batch_records s.next_tx ps) k.ys
              (batch_entries s.next_tx xs) k.logged
              (Logged-batch_records codec k.applied s.next_tx xs ps
                (omega (arith, newest_above s.log k.applied, k.ahead)) enc));
        same = λ key. net_batch k.kvs k.ys s.next_tx xs view key (k.same key);
        ahead =
            rw (log, next, newest-append s.log (batch_records s.next_tx ps) k.applied)
              (newest-batch_records s.next_tx (newest s.log k.applied) ps k.ahead);
      }

  cut_batch-Durable :
      (d : Dir) (s : Sequencer) (view : View) (xs : List WalEntry) (n : ℕ) (rs : List LogRecord)
      (all : List LogRecord)
      → Running d s view
      → All IsRecord all
      → n ≤ length (frames crc all)
      → survivors n all ≡ s.log ++ rs
      → Left codec s.next_tx xs rs
      → (j : ℕ) × (j ≤ length xs)
        × Durable codec crc fuel rounds
            (record d { wal = some (take n (frames crc all)) })
            (net (batch_writes (take j xs)) view)
  cut_batch-Durable d s view xs n rs all k fit le kept (left_some j ps few enc e) = (
    j,
    few,
    appended d s view (take j xs) ps _ k enc
        (torn n all fit le refl (sym (kept ∙ ap (λ t. s.log ++ t) e))),
  )

  -- A crash while a batch is being written, which cuts the log anywhere behind the records that were
  -- there, leaves a durable directory that holds the writes of the first j requests of the batch, whole
  -- and in order, over what was there, and nothing of the others. A request of several writes is there
  -- with all of them or with none.
  pub run_batch-crash :
      (d : Dir) (s : Sequencer) (view : View) (xs : List WalEntry) (ps : List Bytes)
      (sync_ok : Bool) (n : ℕ)
      → Running d s view
      → Encoded codec xs ps
      → all_small ps ≡ true
      → s.next_tx + length ps < 2 ^ 64
      → length (frames crc s.log) ≤ n
      → n ≤ length (frames crc (run_batch s ps sync_ok).1.log)
      → (j : ℕ) × (j ≤ length xs)
        × Durable codec crc fuel rounds
            (record d { wal = some (take n (frames crc (run_batch s ps sync_ok).1.log)) })
            (net (batch_writes (take j xs)) view)
  run_batch-crash d s view xs ps sync_ok n k enc small lt old le =
      let (told, next, grown) = run_batch_lem s ps sync_ok in
      let log : (run_batch s ps sync_ok).1.log ≡ s.log ++ batch_records s.next_tx ps =
        grown small in
      let short : n ≤ length (frames crc (s.log ++ batch_records s.next_tx ps)) = rw (← log) le in
      let kept = survivors-append crc n s.log (batch_records s.next_tx ps) old in
      rw log (
        cut_batch-Durable d s view xs n _ (s.log ++ batch_records s.next_tx ps) k
          (batch-IsRecord d s view ps k small lt) short kept
          (survivors-batch_records codec (n - length (frames crc s.log)) s.next_tx xs ps enc))
