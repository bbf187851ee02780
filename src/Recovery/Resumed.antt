-- ===== src/Recovery/Resumed.antt =====
-- The last part of a boot: the log is replayed over the active generation and truncated.
use zadodb.Prelude.{
  ℕ, ◌≤◌, ◌≡◌, refl, sym, ap, ◌∙◌, arith, ltb, if◌then◌else◌, nat_eq, take_all, inl, inr,
  Option-cases,
}
use zadodb.Prelude.{Option, some, List, [], ◌∷◌, length}
use zadodb.Prelude.Dict.{Dict, find}
use zadodb.Bytes.{Bytes}
use zadodb.Bytes.Order.{bytes_eq}
use zadodb.Errors.{ok}
use zadodb.Wal.{WalEntry}
use zadodb.Wal.Codec.{Codec}
use zadodb.Wal.Log.{Crc, LogRecord}
use zadodb.Wal.Log.Crash.{frames, survivors, survivors_all, survivors-IsRecord}
use zadodb.Btree.Store.OnFile.{file_store}
use zadodb.Btree.Build.Table.{get-Table}
use zadodb.Idgen.{Generator}
use zadodb.Layout.{Dir}
use zadodb.Recovery.{Replay, answer_replay, observe_tree_ids, replay_record, replay_records}
use zadodb.Recovery.Boot.{
  Logged, logged_none, replay_wal-cut, replay_records-Logged, truncate_wal-cut,
}
use zadodb.Recovery.Recover.{Recovered, touch, replay_file, truncate_file, resume}
use zadodb.Recovery.Durable.{
  entries_of, WalHolds, missing, torn, Disk, read_after, net_at, entries_of-expand,
}
use zadodb.Checkpoint.Deltas.{net}
use zadodb.Checkpoint.Built.{writes, newest}
use zadodb.Checkpoint.DataFile.{pairs_of-Table}

replay_record-max_tx :
    (codec : Codec) (skip tx : ℕ) (p : Bytes) (r r' : Replay)
    → replay_record codec skip (tx, p) r ≡ some r'
    → r'.max_tx ≡ (if ltb r.max_tx tx then tx else r.max_tx)
unfolding replay_record
replay_record-max_tx codec skip tx p r r' h = ground (arith, h)

-- The replay sees the highest id.
replay_records-newest :
    (codec : Codec) (skip : ℕ) (rs : List LogRecord) (r r' : Replay)
    → replay_records codec skip rs r ≡ some r'
    → r'.max_tx ≡ newest rs r.max_tx
unfolding replay_records
replay_records-newest codec skip [] r r' h = ground (arith, h)
replay_records-newest codec skip ((tx, p) ∷ rs) r r' h =
    elim (Option-cases (replay_record codec skip (tx, p) r)) [
      | inl stops ↦ absurd (ground (arith, stops, h))
      | inr (r1, one) ↦
          replay_records-newest codec skip rs r1 r' (ground (arith, one, h))
          ∙ ap (newest rs) (replay_record-max_tx codec skip tx p r r1 one)
    ]

pub newest_above : (rs : List LogRecord) (n : ℕ) → n ≤ newest rs n
newest_above [] n = omega arith
newest_above ((tx, p) ∷ rs) n =
    let step : n ≤ (if ltb n tx then tx else n) = ground arith in
    omega (arith, newest_above rs (if ltb n tx then tx else n), step)

newest_max_step :
    (a b tx n m : ℕ)
    → n ≤ (if ltb (if ltb a tx then tx else a) m then m else (if ltb a tx then tx else a))
    → (if ltb b tx then tx else b) ≤ m
    → n ≤ (if ltb a m then m else a)
newest_max_step a b tx n m h k = ground arith

newest_max :
    (rs : List LogRecord) (a b : ℕ) → newest rs a ≤ (if ltb a (newest rs b) then newest rs b else a)
newest_max [] a b = ground arith
newest_max ((tx, p) ∷ rs) a b =
    newest_max_step a b tx _ _
      (newest_max rs (if ltb a tx then tx else a) (if ltb b tx then tx else b))
      (newest_above rs (if ltb b tx then tx else b))

module _ (codec : Codec) (crc : Crc) (fuel rounds : ℕ) where
  Logged-nil : (skip : ℕ) (ys : List (ℕ × WalEntry)) → Logged codec skip [] ys → ys ≡ []
  Logged-nil skip ys logged_none = refl

  -- The log as the boot replays and truncates it.
  replayed :
      (wal : Option Bytes) (skip : ℕ) (ls : List LogRecord) (ys : List (ℕ × WalEntry))
      (g : Generator)
      → WalHolds crc wal ls
      → Logged codec skip ls ys
      → (r : Replay) × (durable : ℕ) × (replay_file codec crc fuel rounds wal skip g
          ≡ ok (r, durable))
        × (entries_of r.out ≡ writes ys)
        × WalHolds crc (truncate_file wal durable) ls
        × (r.max_tx ≡ newest ls 0)
        × (touch (truncate_file wal durable) ≡ some (frames crc ls))
  replayed wal skip ls ys g (missing gone empty) log = (
    record { out = []; max_tx = 0; gen = g },
    0,
    rw gone refl,
    rw (Logged-nil skip ys (rw (← empty) log)) (unfold writes in refl),
    rw gone (missing refl empty),
    rw empty refl,
    rw (gone, empty) refl,
  )
  replayed wal skip ls ys g (torn n all whole le here kept) log =
      let start : Replay = record { out = []; max_tx = 0; gen = g } in
      let (r, run, out) = replay_records-Logged codec skip ls ys start log in
      (
        r,
        length (frames crc (survivors n all)),
        rw (here, replay_wal-cut crc codec n skip all g whole le)
            (rw (← kept, run) (unfold answer_replay in refl)),
        ap entries_of out ∙ entries_of-expand ys,
        rw here (
            torn (length (frames crc (survivors n all))) (survivors n all)
              (survivors-IsRecord n all whole) (omega arith)
              (ap some (
                truncate_wal-cut crc n all le
                ∙ sym (take_all (frames crc (survivors n all)) _ (omega arith))))
              (kept ∙ sym (survivors_all crc (survivors n all)))),
        replay_records-newest codec skip ls start r run,
        rw (here, kept) (ap some (truncate_wal-cut crc n all le)),
      )

  pub record Resumed (d : Dir) (g : ℕ) (kvs : Dict Bytes Bytes) (applied : ℕ) (ls : List LogRecord)
      (ys : List (ℕ × WalEntry)) (r : Recovered) (d' : Dir) : Type 0 where
    pub active : r.active_gen ≡ g
    pub wrote : entries_of r.replayed ≡ writes ys
    pub disk : Disk codec crc fuel rounds d' g kvs applied ls
    pub retired : d'.retired ≡ d.retired
    pub last : newest ls applied ≤ r.last_tx
    pub left : touch d'.wal ≡ some (frames crc ls)

  pub resume-Resumed :
      (d : Dir) (g : ℕ) (kvs : Dict Bytes Bytes) (applied : ℕ) (ls : List LogRecord)
      (ys : List (ℕ × WalEntry))
      → Disk codec crc fuel rounds d g kvs applied ls
      → Logged codec applied ls ys
      → (r : Recovered) × (d' : Dir) × (resume codec crc fuel rounds d g ≡ ok (r, d'))
        × Resumed d g kvs applied ls ys r d'
  unfolding resume
  resume-Resumed d g kvs applied ls ys k log =
      let gen = k.gen in
      let (rep, durable, run, wrote, holds, top, left) =
        replayed d.wal applied ls ys (observe_tree_ids kvs []) k.log log in
      let pairs =
        pairs_of-Table codec crc fuel rounds gen.mgr kvs gen.meta.root gen.table gen.deep in
      (
        record {
          active_gen = g;
          last_tx = if ltb applied rep.max_tx then rep.max_tx else applied;
          replayed = rep.out;
          gen = rep.gen;
        },
        record d { wal = truncate_file d.wal durable },
        rw (k.here, gen.opens, gen.read, pairs, gen.last, run) refl,
        record {
          active = refl;
          wrote = wrote;
          disk = record { file = k.file; here = k.here; gen = gen; names = k.names; log = holds };
          retired = refl;
          last = rw top (newest_max ls applied 0);
          left = left;
        },
      )

  -- What is read after the boot.
  pub read_after-Resumed :
      (d d' : Dir) (g : ℕ) (kvs : Dict Bytes Bytes) (applied : ℕ) (ls : List LogRecord)
      (ys : List (ℕ × WalEntry)) (r : Recovered) (key : Bytes)
      → Resumed d g kvs applied ls ys r d'
      → read_after codec crc fuel rounds r d' key ≡ ok (net (writes ys) (λ k. find k kvs) key)
  unfolding read_after
  read_after-Resumed d d' g kvs applied ls ys r key w =
      let k = w.disk in
      let gen = k.gen in
      let found =
        get-Table (file_store crc) rounds gen.mgr kvs gen.meta.root gen.table fuel key
          (omega (arith, gen.table.low, gen.deep)) in
      rw (w.active, k.here, gen.opens, gen.read, found, w.wrote)
        (ap ok (net_at (writes ys) (λ j. find key kvs) (λ j. find j kvs) key refl))
