-- ===== src/Recovery/Durable.antt =====
-- What the files of a database directory hold for its clients, at rest and within a checkpoint.
use zadodb.Prelude.{
  ℕ, ◌≤◌, ◌≡◌, refl, ap, ◌∙◌, arith, All, if◌then◌else◌, false, Bool, Bool-cases, inl, inr, nat_eq,
  ◌==◌,
}
use zadodb.Prelude.{Option, none, some, List, [], ◌∷◌, ◌++◌, length, take}
use zadodb.Prelude.Dict.{Dict, find, remove, find-remove}
use zadodb.Bytes.{Bytes}
use zadodb.Bytes.Order.{bytes_eq}
use zadodb.Errors.{Result, ok, ◌>>=◌}
use zadodb.Wal.{WalEntry, key_of, flatten}
use zadodb.Wal.Codec.{Codec}
use zadodb.Wal.Log.{Crc, LogRecord}
use zadodb.Wal.Log.Frames.{IsRecord}
use zadodb.Wal.Log.Crash.{frames, survivors}
use zadodb.Page.Pager.{open_file, read_meta}
use zadodb.Btree.Store.OnFile.{file_store}
use zadodb.Btree.Lookup.{get}
use zadodb.Layout.{Dir, file_of, remove_gens}
use zadodb.Recovery.{ReplayedEntry, replayed_entries}
use zadodb.Recovery.Boot.{Logged, expand}
use zadodb.Recovery.Recover.{Recovered}
use zadodb.Checkpoint.Deltas.{net, effect}
use zadodb.Checkpoint.Built.{writes, newest}
use zadodb.Checkpoint.DataFile.{Generation, Fits}

abbrev pub View : Type 0
View = Bytes → Option Bytes

abbrev pub entries_of : List ReplayedEntry → List WalEntry
entries_of [] = []
entries_of (r ∷ rs) = r.entry ∷ entries_of rs

-- The log file: it may be missing, or cut by the crash within a record.
pub data WalHolds (crc : Crc) (wal : Option Bytes) (ls : List LogRecord) : Type 0 where
  missing : wal ≡ none → ls ≡ [] → WalHolds crc wal ls
  torn :
      (n : ℕ) (all : List LogRecord)
      → All IsRecord all
      → n ≤ length (frames crc all)
      → wal ≡ some (take n (frames crc all))
      → ls ≡ survivors n all
      → WalHolds crc wal ls

module _ (codec : Codec) (crc : Crc) (fuel rounds : ℕ) where
  -- CURRENT names a generation that is there, and the log holds these records.
  pub record Disk (d : Dir) (g : ℕ) (kvs : Dict Bytes Bytes) (applied : ℕ) (ls : List LogRecord)
      : Type 0 where
    pub file : Bytes
    pub here : find g d.data_files ≡ some file
    pub gen : Generation codec crc fuel rounds file kvs applied
    pub names : d.current ≡ some g
    pub log : WalHolds crc d.wal ls

  -- A directory from which clients are to read `view`: at rest, or with a retired log that is to be
  -- folded into the generation, or that has been.
  pub data Durable (d : Dir) (view : View) : Type 0 where
    at_rest :
        {g applied : ℕ} {kvs : Dict Bytes Bytes} {ls : List LogRecord} {ys : List (ℕ × WalEntry)}
        → d.retired ≡ none
        → Disk d g kvs applied ls
        → Logged codec applied ls ys
        → ((key : Bytes) → net (writes ys) (λ k. find k kvs) key ≡ view key)
        → Durable d view
    interrupted :
        {g applied : ℕ} {kvs : Dict Bytes Bytes} {rs ls : List LogRecord}
        {xs ys : List (ℕ × WalEntry)}
        → d.retired ≡ some (frames crc rs)
        → All IsRecord rs
        → Logged codec applied rs xs
        → Fits codec crc fuel rounds kvs xs
        → Disk d g kvs applied ls
        → Logged codec (newest rs applied) ls ys
        → ((key : Bytes) → net (writes ys) (net (writes xs) (λ k. find k kvs)) key ≡ view key)
        → Durable d view

  -- What a client reads after a boot: the replayed writes over the tree of the active generation.
  unfoldable pub read_after : Recovered → Dir → Bytes → Result (Option Bytes)
  read_after r d key = do
    file ← file_of (find r.active_gen d.data_files)
    mgr ← open_file crc file
    meta ← read_meta crc mgr
    v ← get (file_store crc) rounds fuel mgr meta.root key
    ok (net (entries_of r.replayed) (λ k. v) key)

-- The writes see of the old values that of their key alone.
pub net_at :
    (xs : List WalEntry) (f g : View) (key : Bytes) → f key ≡ g key → net xs f key ≡ net xs g key
net_at [] f g key h = h
net_at (x ∷ xs) f g key h =
    net_at xs (λ j. if key_of x == j then effect x else f j)
      (λ j. if key_of x == j then effect x else g j) key
      (ap (λ v. if key_of x == key then effect x else v) h)

pub entries_of-append :
    (rs qs : List ReplayedEntry) → entries_of (rs ++ qs) ≡ entries_of rs ++ entries_of qs
entries_of-append [] qs = refl
entries_of-append (r ∷ rs) qs = ap (λ t. r.entry ∷ t) (entries_of-append rs qs)

entries_of-replayed_entries :
    (tx : ℕ) (xs : List WalEntry) → entries_of (replayed_entries tx xs) ≡ xs
unfolding replayed_entries
entries_of-replayed_entries tx [] = refl
entries_of-replayed_entries tx (x ∷ xs) = ap (λ t. x ∷ t) (entries_of-replayed_entries tx xs)

pub entries_of-expand : (xs : List (ℕ × WalEntry)) → entries_of (expand xs) ≡ writes xs
unfolding expand writes
entries_of-expand [] = refl
entries_of-expand ((tx, x) ∷ xs) =
    entries_of-append (replayed_entries tx (flatten x)) (expand xs)
    ∙ rw (entries_of-replayed_entries tx (flatten x), entries_of-expand xs) refl

pub find-remove_gens :
    (test : ℕ → Bool) (g : ℕ) (gs : List ℕ) (m : Dict ℕ Bytes)
    → test g ≡ false
    → find g (remove_gens test gs m) ≡ find g m
unfolding remove_gens
find-remove_gens test g [] m h = refl
find-remove_gens test g (k ∷ gs) m h = elim (Bool-cases (test k)) [
  | inl gone ↦
      let other : (k == g) ≡ false = ground (arith, gone, h) in
      rw gone (find-remove_gens test g gs (remove k m) h ∙ find-remove k g m ∙ rw other refl)
  | inr kept ↦ rw kept (find-remove_gens test g gs m h)
]
