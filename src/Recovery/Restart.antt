-- ===== src/Recovery/Restart.antt =====
-- A boot of a durable directory gives clients what the directory holds.
use zadodb.Prelude.{ℕ, ◌+◌, ◌≡◌, refl, ap, ◌∙◌, arith, All, ltb, nat_eq, eq_self}
use zadodb.Prelude.{Option, none, some, List}
use zadodb.Prelude.Dict.{Dict, find, find-put}
use zadodb.Bytes.{Bytes}
use zadodb.Bytes.Order.{bytes_eq}
use zadodb.Bytes.Sorted.{Sorted}
use zadodb.Errors.{Result, ok, ◌>>=◌}
use zadodb.Wal.{WalEntry}
use zadodb.Wal.Codec.{Codec}
use zadodb.Wal.Log.{Crc, LogRecord}
use zadodb.Wal.Log.Frames.{IsRecord}
use zadodb.Wal.Log.Crash.{frames}
use zadodb.Layout.{Dir, remove_generations, write_current}
use zadodb.Recovery.Boot.{Logged}
use zadodb.Recovery.Recover.{
  Recovered, resume, recover, start_dir, complete, remove_temp_files, remove_generations_above,
}
use zadodb.Recovery.Durable.{
  View, Disk, Durable, at_rest, interrupted, read_after, net_at, find-remove_gens,
}
use zadodb.Checkpoint.Deltas.{net}
use zadodb.Checkpoint.Built.{writes, newest, folded, find-folded}
use zadodb.Checkpoint.Generation.{build_generation, publish, remove_retired}
use zadodb.Checkpoint.DataFile.{Fits, build_file-Generation}
use zadodb.Recovery.Resumed.{Resumed, resume-Resumed, read_after-Resumed}

module _ (codec : Codec) (crc : Crc) (fuel rounds : ℕ) where
  -- The writes over the folded pairs are the writes over those of the retired log.
  folded_view :
      (kvs : Dict Bytes Bytes) (xs ys : List (ℕ × WalEntry)) (view : View)
      → Sorted kvs
      → ((key : Bytes) → net (writes ys) (net (writes xs) (λ k. find k kvs)) key ≡ view key)
      → (key : Bytes) → net (writes ys) (λ k. find k (folded kvs xs)) key ≡ view key
  folded_view kvs xs ys view order same key =
      net_at (writes ys) (λ k. find k (folded kvs xs)) (net (writes xs) (λ k. find k kvs)) key
        (find-folded kvs xs key order)
      ∙ same key

  -- Removing newer generations, and temporary files, changes nothing that counts.
  pub cleared :
      (d : Dir) (g : ℕ) (kvs : Dict Bytes Bytes) (applied : ℕ) (ls : List LogRecord)
      → Disk codec crc fuel rounds d g kvs applied ls
      → Disk codec crc fuel rounds (remove_generations_above d g) g kvs applied ls
  unfolding remove_generations_above remove_generations
  cleared d g kvs applied ls k = record {
    file = k.file;
    here = find-remove_gens (λ h. ltb g h) g _ d.data_files (ground arith) ∙ k.here;
    gen = k.gen;
    names = k.names;
    log = k.log;
  }

  started :
      (d : Dir) (g : ℕ) (kvs : Dict Bytes Bytes) (applied : ℕ) (ls : List LogRecord)
      → Disk codec crc fuel rounds d g kvs applied ls
      → Disk codec crc fuel rounds
          (remove_generations_above (remove_temp_files d) g)
          g
          kvs
          applied
          ls
  started d g kvs applied ls k =
      cleared (remove_temp_files d) g kvs applied ls
        (record { file = k.file; here = k.here; gen = k.gen; names = k.names; log = k.log })

  -- A retired log is folded in.
  completed_lem :
      (d : Dir) (g : ℕ) (kvs : Dict Bytes Bytes) (applied : ℕ) (rs ls : List LogRecord)
      (xs : List (ℕ × WalEntry))
      → Disk codec crc fuel rounds d g kvs applied ls
      → All IsRecord rs
      → Logged codec applied rs xs
      → Fits codec crc fuel rounds kvs xs
      → (d' : Dir) × (complete codec crc fuel rounds d g (some (frames crc rs)) ≡ ok (g + 1, d'))
        × Disk codec crc fuel rounds d' (g + 1) (folded kvs xs) (newest rs applied) ls
        × (d'.retired ≡ none)
  unfolding build_generation
  completed_lem d g kvs applied rs ls xs k h log f =
      let (made, run, gen) =
        build_file-Generation codec crc fuel rounds d g k.file kvs applied rs xs k.here k.gen h log
          f in
      (
        remove_retired (write_current (publish d (g + 1) made) (g + 1)),
        rw run refl,
        record {
          file = made;
          here = find-put (g + 1) (g + 1) made d.data_files ∙ rw (eq_self (g + 1)) refl;
          gen = gen;
          names = refl;
          log = k.log;
        },
        refl,
      )

  -- The boot from where the generation is known.
  abbrev pub boot : Result (ℕ × Dir) → Result (Recovered × Dir)
  boot m = m >>= λ s.
      complete codec crc fuel rounds (remove_generations_above s.1 s.0) s.0
        (remove_generations_above s.1 s.0).retired
      >>= λ a. resume codec crc fuel rounds a.1 a.0

  pub recover_at :
      (d : Dir) (cur : Option ℕ)
      → d.current ≡ cur
      → recover codec crc fuel rounds d
        ≡ boot (start_dir codec crc fuel rounds (remove_temp_files d) cur)
  unfolding recover
  recover_at d cur names =
      ap (λ c. boot (start_dir codec crc fuel rounds (remove_temp_files d) c)) names

  pub boot_idle :
      (d : Dir) (g : ℕ)
      → d.retired ≡ none
      → boot (ok (g, d)) ≡ resume codec crc fuel rounds (remove_generations_above d g) g
  boot_idle d g idle =
      let kept : (remove_generations_above d g).retired ≡ none =
        unfold remove_generations_above remove_generations in idle in
      ap
        (λ q. complete codec crc fuel rounds (remove_generations_above d g) g q >>= λ a.
          resume codec crc fuel rounds a.1 a.0)
        kept

  boot_left :
      (d d' : Dir) (g g' : ℕ) (file : Bytes)
      → d.retired ≡ some file
      → complete codec crc fuel rounds (remove_generations_above d g) g (some file) ≡ ok (g', d')
      → boot (ok (g, d)) ≡ resume codec crc fuel rounds d' g'
  boot_left d d' g g' file left fold =
      let kept : (remove_generations_above d g).retired ≡ some file =
        unfold remove_generations_above remove_generations in left in
      let rest : Result (ℕ × Dir) → Result (Recovered × Dir) =
        λ m. m >>= λ a. resume codec crc fuel rounds a.1 a.0 in
      ap (λ q. rest (complete codec crc fuel rounds (remove_generations_above d g) g q)) kept
      ∙ ap rest fold

  -- What a boot leaves of a directory: the engine that it starts on, over which clients see `view`.
  pub record Booted (r : Recovered) (d' : Dir) (view : View) : Type 0 where
    pub from : Dir
    pub g : ℕ
    pub applied : ℕ
    pub kvs : Dict Bytes Bytes
    pub ls : List LogRecord
    pub ys : List (ℕ × WalEntry)
    pub resumed : Resumed codec crc fuel rounds from g kvs applied ls ys r d'
    pub idle : d'.retired ≡ none
    pub logged : Logged codec applied ls ys
    pub same : (key : Bytes) → net (writes ys) (λ k. find k kvs) key ≡ view key

  -- The single writes that the boot is to put into the overlay.
  abbrev pub pending :
      (d : Dir) (view : View) → Durable codec crc fuel rounds d view → List WalEntry
  pending d view (at_rest {ys = ys} idle k log same) = writes ys
  pending d view (interrupted {ys = ys} left h old f k log same) = writes ys

  pub recover-Booted :
      (d : Dir) (view : View) (k : Durable codec crc fuel rounds d view)
      → (r : Recovered) × (d' : Dir) × (recover codec crc fuel rounds d ≡ ok (r, d'))
        × (b : Booted r d' view) × (writes b.ys ≡ pending d view k)
  recover-Booted d view
        (at_rest {g = g} {applied = applied} {kvs = kvs} {ls = ls} {ys = ys} idle k log same) =
      let d3 = remove_generations_above (remove_temp_files d) g in
      let k3 = started d g kvs applied ls k in
      let idle3 : d3.retired ≡ none = unfold remove_generations_above remove_generations in idle in
      let (r, d', run, w) = resume-Resumed codec crc fuel rounds d3 g kvs applied ls ys k3 log in
      (
        r,
        d',
        recover_at d (some g) k.names ∙ boot_idle (remove_temp_files d) g idle ∙ run,
        record {
          from = d3;
          g = g;
          applied = applied;
          kvs = kvs;
          ls = ls;
          ys = ys;
          resumed = w;
          idle = w.retired ∙ idle3;
          logged = log;
          same = same;
        },
        refl,
      )
  recover-Booted d view
        (interrupted {g = g} {applied = applied} {kvs = kvs} {rs = rs} {ls = ls} {xs = xs} {ys = ys}
          left h old f k log same) =
      let d3 = remove_generations_above (remove_temp_files d) g in
      let k3 = started d g kvs applied ls k in
      let (d4, fold, k4, done) = completed_lem d3 g kvs applied rs ls xs k3 h old f in
      let (r, d', run, w) =
        resume-Resumed codec crc fuel rounds d4 (g + 1) (folded kvs xs) (newest rs applied) ls ys k4
          log in
      (
        r,
        d',
        recover_at d (some g) k.names
            ∙ boot_left (remove_temp_files d) d4 g (g + 1) (frames crc rs) left fold
            ∙ run,
        record {
          from = d4;
          g = g + 1;
          applied = newest rs applied;
          kvs = folded kvs xs;
          ls = ls;
          ys = ys;
          resumed = w;
          idle = w.retired ∙ done;
          logged = log;
          same = folded_view kvs xs ys view k.gen.order same;
        },
        refl,
      )

  -- A boot of a durable directory succeeds, a client then reads at every key what the directory held,
  -- and the directory that the boot leaves is durable with the same contents.
  pub recover-Durable :
      (d : Dir) (view : View)
      → Durable codec crc fuel rounds d view
      → (r : Recovered) × (d' : Dir) × (recover codec crc fuel rounds d ≡ ok (r, d'))
        × ((key : Bytes) → read_after codec crc fuel rounds r d' key ≡ ok (view key))
        × Durable codec crc fuel rounds d' view
  recover-Durable d view k =
      let (r, d', run, b, log) = recover-Booted d view k in
      (
        r,
        d',
        run,
        λ key.
            read_after-Resumed codec crc fuel rounds b.from d' b.g b.kvs b.applied b.ls b.ys r key
              b.resumed
            ∙ ap ok (b.same key),
        at_rest b.idle b.resumed.disk b.logged b.same,
      )
