-- ===== src/Database/Opened.antt =====
-- An engine that is opened on a durable directory shows what the directory holds, and runs on it.
use zadodb.Prelude.{ℕ, ◌≡◌, refl, sym, ap, ◌∙◌, arith, All, if◌then◌else◌, ◌==◌, nat_eq}
use zadodb.Prelude.{Option, none, some, List, [], ◌∷◌}
use zadodb.Prelude.Dict.{Dict, find, put, find-put}
use zadodb.Bytes.{Bytes}
use zadodb.Bytes.Order.{bytes_eq}
use zadodb.Errors.{ok, ◌>>=◌}
use zadodb.Wal.{
  WalEntry, wal_entry, OpType, op_put, op_delete, op_create_class, op_drop_class, op_batch,
  op_unknown, op, key_of,
}
use zadodb.Wal.Codec.{Codec}
use zadodb.Wal.Log.{Crc, LogRecord}
use zadodb.Wal.Log.Frames.{IsRecord}
use zadodb.Wal.Log.Crash.{frames, survivors-IsRecord, read_log-frames}
use zadodb.Layout.{Dir}
use zadodb.Engine.{Engine, OverlayVal, shown, lookup}
use zadodb.Recovery.{ReplayedEntry, Live, apply_entry, apply_replay}
use zadodb.Recovery.Recover.{Recovered, touch}
use zadodb.Recovery.Durable.{View, WalHolds, missing, torn, Durable, entries_of, net_at}
use zadodb.Recovery.Restart.{Booted, recover-Booted, pending}
use zadodb.Recovery.Running.{Running, on_wal, whole_log}
use zadodb.Checkpoint.Deltas.{net, effect}
use zadodb.Checkpoint.Built.{writes}
use zadodb.Checkpoint.DataFile.{pairs_of-Table}
use zadodb.Database.{start_engine, log_on, open_recovered, open_database}

-- A write that the engine's methods log, once batches are flattened.
abbrev pub IsWrite : OpType → Type 0
IsWrite op_put = Unit
IsWrite op_delete = Unit
IsWrite op_create_class = Unit
IsWrite op_drop_class = Unit
IsWrite op_batch = ⊥
IsWrite (op_unknown n) = ⊥

-- What an overlay shows over the values below it.
abbrev pub over_view : Dict Bytes OverlayVal → View → View
over_view overlay old key = elim (find key overlay) [ some ov ↦ shown ov | none ↦ old key ]

over_view-put :
    (l : Dict Bytes OverlayVal) (key j : Bytes) (ov : OverlayVal) (old : View)
    → over_view (put j ov l) old key ≡ (if j == key then shown ov else over_view l old key)
over_view-put l key j ov old = ground (arith, find-put j key ov l)

apply_entry-over_view :
    (x : WalEntry) (tx : ℕ) (l : Live) (old : View) (key : Bytes)
    → IsWrite (op x)
    → over_view (apply_entry (op x) (record { tx = tx; entry = x }) l).overlay old key
      ≡ (if key_of x == key then effect x else over_view l.overlay old key)
unfolding apply_entry shown
apply_entry-over_view (wal_entry op_put p c i d t s) tx l old key h =
    over_view-put l.overlay key (key_of (wal_entry op_put p c i d t s)) _ old
apply_entry-over_view (wal_entry op_delete p c i d t s) tx l old key h =
    over_view-put l.overlay key (key_of (wal_entry op_delete p c i d t s)) _ old
apply_entry-over_view (wal_entry op_create_class p c i d t s) tx l old key h =
    over_view-put l.overlay key (key_of (wal_entry op_create_class p c i d t s)) _ old
apply_entry-over_view (wal_entry op_drop_class p c i d t s) tx l old key h =
    over_view-put l.overlay key (key_of (wal_entry op_drop_class p c i d t s)) _ old
apply_entry-over_view (wal_entry op_batch p c i d t s) tx l old key h = absurd h
apply_entry-over_view (wal_entry (op_unknown n) p c i d t s) tx l old key h = absurd h

-- The overlay that the replay leaves shows the net effect of the replayed writes.
apply_replay-over_view :
    (rs : List ReplayedEntry) (l : Live) (old : View) (key : Bytes)
    → All (λ x. IsWrite (op x)) (entries_of rs)
    → over_view (apply_replay rs l).overlay old key
      ≡ net (entries_of rs) (over_view l.overlay old) key
unfolding apply_replay
apply_replay-over_view [] l old key h = refl
apply_replay-over_view (r ∷ rs) l old key h =
    apply_replay-over_view rs (apply_entry (op r.entry) r l) old key h.1
    ∙ net_at (entries_of rs) (over_view (apply_entry (op r.entry) r l).overlay old)
        (λ j. if key_of r.entry == j then effect r.entry else over_view l.overlay old j) key
        (apply_entry-over_view r.entry r.tx l old key h.0)

lookup-start_engine :
    (r : Recovered) (kvs : Dict Bytes Bytes) (ls : List LogRecord) (key : Bytes)
    → All (λ x. IsWrite (op x)) (entries_of r.replayed)
    → lookup (start_engine r kvs ls) key ≡ net (entries_of r.replayed) (λ k. find k kvs) key
unfolding lookup start_engine find
lookup-start_engine r kvs ls key h = apply_replay-over_view r.replayed _ (λ k. find k kvs) key h

holds-IsRecord :
    (crc : Crc) (wal : Option Bytes) (ls : List LogRecord) → WalHolds crc wal ls → All IsRecord ls
holds-IsRecord crc wal ls (missing gone empty) = rw empty tt
holds-IsRecord crc wal ls (torn n all whole le here kept) = rw kept (survivors-IsRecord n all whole)

module _ (codec : Codec) (crc : Crc) (fuel rounds : ℕ) where
  log_on-frames :
      (wal : Option Bytes) (ls : List LogRecord)
      → All IsRecord ls
      → wal ≡ some (frames crc ls)
      → log_on crc wal ≡ ls
  log_on-frames wal ls h here = rw (here, read_log-frames crc ls h) refl

  -- An engine as it stands on its directory: the log on disk is the sequencer's, and what a lookup finds
  -- is what the directory holds.
  abbrev pub Consistent : Engine → Dir → Type 0
  Consistent e d = Running codec crc fuel rounds d e.seq (lookup e)

  opened :
      (r : Recovered) (d1 : Dir) (view : View)
      → Booted codec crc fuel rounds r d1 view
      → All (λ x. IsWrite (op x)) (entries_of r.replayed)
      → (e : Engine) × (d' : Dir) × (open_recovered codec crc fuel rounds r d1 ≡ ok (e, d'))
        × ((key : Bytes) → lookup e key ≡ view key)
        × Consistent e d'
  unfolding open_recovered start_engine
  opened r d1 view b known =
      let w = b.resumed in
      let k = w.disk in
      let gen = k.gen in
      let fit = holds-IsRecord crc d1.wal b.ls k.log in
      let pairs =
        pairs_of-Table codec crc fuel rounds gen.mgr b.kvs gen.meta.root gen.table gen.deep in
      let e = start_engine r b.kvs b.ls in
      let shows : (key : Bytes) → lookup e key ≡ net (writes b.ys) (λ j. find j b.kvs) key = λ key.
        lookup-start_engine r b.kvs b.ls key known
        ∙ ap (λ xs. net xs (λ j. find j b.kvs) key) w.wrote in
      (
        e,
        record d1 { wal = touch d1.wal },
        rw
            (
              w.active,
              k.here,
              gen.opens,
              gen.read,
              pairs,
              log_on-frames (touch d1.wal) b.ls fit w.left,
            )
            refl,
        λ key. shows key ∙ b.same key,
        record {
          g = b.g;
          applied = b.applied;
          kvs = b.kvs;
          ys = b.ys;
          idle = b.idle;
          disk =
              on_wal codec crc fuel rounds d1 b.g b.applied b.kvs b.ls b.ls (touch d1.wal) k
                (rw w.left (whole_log codec crc fuel rounds b.ls fit));
          wal = w.left;
          records = fit;
          logged = b.logged;
          same = λ key. sym (shows key);
          ahead = w.last;
        },
      )

  -- Opening a durable directory succeeds if its logged entries that are not yet in its generation are all,
  -- once batches are flattened, puts and deletes of objects and classes, and none of an unknown
  -- operation: the engine shows at every key what the directory held, and stands consistent on the
  -- directory that is left.
  pub open_database-Consistent :
      (d : Dir) (view : View) (k : Durable codec crc fuel rounds d view)
      → All (λ x. IsWrite (op x)) (pending codec crc fuel rounds d view k)
      → (e : Engine) × (d' : Dir) × (open_database codec crc fuel rounds d ≡ ok (e, d'))
        × ((key : Bytes) → lookup e key ≡ view key)
        × Consistent e d'
  unfolding open_database
  open_database-Consistent d view k known =
      let (r, d1, run, b, log) = recover-Booted codec crc fuel rounds d view k in
      let (e, d', starts, shows, stands) = opened r d1 view b (rw (b.resumed.wrote, log) known) in
      (
        e,
        d',
        ap (λ m. m >>= λ a. open_recovered codec crc fuel rounds a.0 a.1) run ∙ starts,
        shows,
        stands,
      )
