-- ===== src/Checkpoint/CrashSafe.antt =====
-- A crash at any step of a checkpoint loses nothing.
use zadodb.Prelude.{
  ℕ, ◌+◌, ◌≤◌, ◌≡◌, refl, ap, ◌∙◌, arith, All, ltb, if◌then◌else◌, false, inl, inr, ◌⊎◌, nat_eq,
  ◌==◌, eq_self,
}
use zadodb.Prelude.{Option, none, some, List, [], ◌∷◌}
use zadodb.Prelude.Dict.{Dict, find, put, remove, find-put}
use zadodb.Bytes.{Bytes}
use zadodb.Bytes.Order.{bytes_eq}
use zadodb.Errors.{Result, ok, ◌>>=◌}
use zadodb.Wal.{WalEntry}
use zadodb.Wal.Codec.{Codec}
use zadodb.Wal.Log.{Crc, LogRecord}
use zadodb.Wal.Log.Frames.{IsRecord}
use zadodb.Wal.Log.Crash.{frames}
use zadodb.Layout.{Dir, file_of, remove_generations, current_of, write_current}
use zadodb.Recovery.Boot.{Logged, logged_none, logged_old}
use zadodb.Recovery.Durable.{
  View, WalHolds, missing, torn, Disk, Durable, at_rest, interrupted, find-remove_gens,
}
use zadodb.Checkpoint.Deltas.{net}
use zadodb.Checkpoint.Built.{writes, newest, folded, folded-nil, find-folded}
use zadodb.Checkpoint.Generation.{
  rotate, publish, remove_retired, cleanup_old_generations, build_file, build_generation, run,
  run_states,
}
use zadodb.Checkpoint.DataFile.{Generation, Fits, build_file-Generation}

newest_above : (rs : List LogRecord) (n : ℕ) → n ≤ newest rs n
newest_above [] n = omega arith
newest_above ((tx, p) ∷ rs) n =
    let rest = newest_above rs (if ltb n tx then tx else n) in ground (arith, rest)

newest_head : (tx : ℕ) (p : Bytes) (rs : List LogRecord) (n : ℕ) → tx ≤ newest ((tx, p) ∷ rs) n
newest_head tx p rs n =
    let rest = newest_above rs (if ltb n tx then tx else n) in ground (arith, rest)

-- A log that is folded in has nothing left to fold.
newest_old :
    (codec : Codec) (rs : List LogRecord) (n last : ℕ)
    → newest rs n ≤ last
    → Logged codec last rs []
newest_old codec [] n last le = logged_none
newest_old codec ((tx, p) ∷ rs) n last le =
    logged_old tx p (omega (arith, newest_head tx p rs n))
      (newest_old codec rs (if ltb n tx then tx else n) last le)

newest_same : (rs : List LogRecord) (n last : ℕ) → newest rs n ≤ last → newest rs last ≡ last
newest_same [] n last le = refl
newest_same ((tx, p) ∷ rs) n last le =
    let low : ltb last tx ≡ false = let top = newest_head tx p rs n in ground (arith, top, le) in
    rw low (newest_same rs (if ltb n tx then tx else n) last le)

-- The directories of a checkpoint from generation `g`, once the file of the next one is known.
abbrev states : Bytes → Dir → ℕ → Bytes → List Dir
states temp d g made =
    let rotated = rotate d in
    let published = publish rotated (g + 1) made in
    let switched = write_current published (g + 1) in
    d
    ∷ record d { wal = none; retired = d.wal }
    ∷ rotated
    ∷ record rotated { temps = put (g + 1) temp rotated.temps }
    ∷ published
    ∷ switched
    ∷ remove_retired switched
    ∷ cleanup_old_generations (remove_retired switched) (g + 1)
    ∷ []

module _ (codec : Codec) (crc : Crc) (fuel rounds : ℕ) where
  states_lem :
      (temp : Bytes) (d : Dir) (g last : ℕ) (file made : Bytes)
      → d.current ≡ some g
      → d.wal ≡ some file
      → build_file codec crc fuel rounds (rotate d) g file ≡ ok (last, made)
      → run_states codec crc fuel rounds temp d ≡ ok (states temp d g made)
  unfolding run_states
  states_lem temp d g last file made names whole build =
      ap
        (λ c. current_of c >>= λ cur. file_of d.wal >>= λ old.
          build_file codec crc fuel rounds (rotate d) cur old >>= λ b. ok (states temp d cur b.1))
        names
      ∙ ap
          (λ w. file_of w >>= λ old.
            build_file codec crc fuel rounds (rotate d) g old >>= λ b. ok (states temp d g b.1))
          whole
      ∙ ap (λ m. m >>= λ b. ok (states temp d g b.1)) build

  run_lem :
      (d : Dir) (g last : ℕ) (file made : Bytes)
      → d.current ≡ some g
      → d.wal ≡ some file
      → build_file codec crc fuel rounds (rotate d) g file ≡ ok (last, made)
      → run codec crc fuel rounds d
        ≡ ok (
          g + 1,
          last,
          cleanup_old_generations
              (remove_retired (write_current (publish (rotate d) (g + 1) made) (g + 1)))
              (g + 1),
        )
  unfolding run build_generation
  run_lem d g last file made names whole build =
      let finish : ℕ → ℕ × Dir → Result (ℕ × ℕ × Dir) =
        λ cur b. ok (cur + 1, b.0, cleanup_old_generations (remove_retired b.1) (cur + 1)) in
      ap
        (λ c. current_of c >>= λ cur. file_of d.wal >>= λ old.
          build_generation codec crc fuel rounds (rotate d) cur (cur + 1) old >>= finish cur)
        names
      ∙ ap
          (λ w. file_of w >>= λ old.
            build_generation codec crc fuel rounds (rotate d) g (g + 1) old >>= finish g)
          whole
      ∙ ap
          (λ m.
            m
            >>= (λ b. ok (b.0, write_current (publish (rotate d) (g + 1) b.1) (g + 1)))
            >>= finish g)
          build

  -- The new log is empty.
  fresh : (wal : Option Bytes) → wal ≡ some [] → WalHolds crc wal []
  fresh wal e = torn 0 [] tt (omega arith) e refl

  folded-Fits :
      (kvs : Dict Bytes Bytes) (xs : List (ℕ × WalEntry))
      → Fits codec crc fuel rounds kvs xs
      → Fits codec crc fuel rounds (folded kvs xs) []
  folded-Fits kvs xs f = record {
    writable = unfold writes in tt;
    room = rw (folded-nil (folded kvs xs)) f.room;
    deep = rw (folded-nil (folded kvs xs)) f.deep;
  }

  module _ (d : Dir) (view : View) (g applied : ℕ) (kvs : Dict Bytes Bytes) (ls : List LogRecord)
      (ys : List (ℕ × WalEntry)) (idle : d.retired ≡ none)
      (k : Disk codec crc fuel rounds d g kvs applied ls) (whole : d.wal ≡ some (frames crc ls))
      (h : All IsRecord ls) (log : Logged codec applied ls ys)
      (f : Fits codec crc fuel rounds kvs ys)
      (same : (key : Bytes) → net (writes ys) (λ j. find j kvs) key ≡ view key) where
    -- With the log retired, and any temporary file, the generation is as it was.
    waiting :
        (wal : Option Bytes) (files : Dict ℕ Bytes) (temps : Dict ℕ Bytes)
        → find g files ≡ find g d.data_files
        → WalHolds crc wal []
        → Durable codec crc fuel rounds
            (record {
              data_files = files;
              temps = temps;
              current = d.current;
              wal = wal;
              retired = d.wal;
            })
            view
    unfolding writes
    waiting wal files temps kept log' =
        interrupted whole h log f
          (record { file = k.file; here = kept ∙ k.here; gen = k.gen; names = k.names; log = log' })
          logged_none same

    module _ (made : Bytes)
        (gen : Generation codec crc fuel rounds made (folded kvs ys) (newest ls applied)) where
      current_view : (key : Bytes) → find key (folded kvs ys) ≡ view key
      current_view key = find-folded kvs ys key k.gen.order ∙ same key

      new-Disk :
          (x : Dir)
          → find (g + 1) x.data_files ≡ some made
          → x.current ≡ some (g + 1)
          → x.wal ≡ some []
          → Disk codec crc fuel rounds x (g + 1) (folded kvs ys) (newest ls applied) []
      new-Disk x here names log' = record {
        file = made;
        here = here;
        gen = gen;
        names = names;
        log = fresh x.wal log';
      }

      -- CURRENT names the new generation, and the retired log is there or not.
      switched :
          (x : Dir)
          → find (g + 1) x.data_files ≡ some made
          → x.current ≡ some (g + 1)
          → x.wal ≡ some []
          → (x.retired ≡ some (frames crc ls)) ⊎ (x.retired ≡ none)
          → Durable codec crc fuel rounds x view
      unfolding writes
      switched x here names log' (inr gone) =
          at_rest gone (new-Disk x here names log') logged_none current_view
      switched x here names log' (inl left) =
          interrupted left h (newest_old codec ls applied (newest ls applied) (omega arith))
            (folded-Fits kvs ys f) (new-Disk x here names log') logged_none current_view

      made_here : find (g + 1) (put (g + 1) made d.data_files) ≡ some made
      made_here = find-put (g + 1) (g + 1) made d.data_files ∙ rw (eq_self (g + 1)) refl

      old_here : find g (put (g + 1) made d.data_files) ≡ find g d.data_files
      old_here =
          let other : ((g + 1) == g) ≡ false = ground arith in
          find-put (g + 1) g made d.data_files ∙ rw other refl

    -- A checkpoint of a database at rest runs to its end, and at every directory that it passes through,
    -- the first and the last included, a crash leaves a directory from which clients read what they read
    -- before, whatever it leaves of the temporary file.
    pub run_states-Durable :
        (temp : Bytes)
        → (ds : List Dir) × (run_states codec crc fuel rounds temp d ≡ ok ds)
          × All (λ x. Durable codec crc fuel rounds x view) ds
    unfolding cleanup_old_generations remove_generations
    run_states-Durable temp =
        let (made, build, gen) =
          build_file-Generation codec crc fuel rounds (rotate d) g k.file kvs applied ls ys k.here
            k.gen h log f in
        let here = made_here made gen in
        let old = old_here made gen in
        let last_here =
          find-remove_gens (λ i. ltb i (g + 1)) (g + 1) _ (put (g + 1) made d.data_files)
            (ground arith)
          ∙ here in
        (
          states temp d g made,
          states_lem temp d g (newest ls applied) (frames crc ls) made k.names whole build,
          (
            at_rest idle k log same,
            (
              waiting none d.data_files d.temps refl (missing refl refl),
              (
                waiting (some []) d.data_files d.temps refl (fresh (some []) refl),
                (
                  waiting (some []) d.data_files (put (g + 1) temp d.temps) refl
                      (fresh (some []) refl),
                  (
                    waiting (some []) (put (g + 1) made d.data_files) (remove (g + 1) d.temps) old
                        (fresh (some []) refl),
                    (
                      switched made gen _ here refl refl (inl whole),
                      (
                        switched made gen _ here refl refl (inr refl),
                        (switched made gen _ last_here refl refl (inr refl), tt),
                      ),
                    ),
                  ),
                ),
              ),
            ),
          ),
        )

    -- A checkpoint of a database at rest succeeds with the next generation and the highest transaction of
    -- the log, and leaves a durable directory with the same contents, no retired log and an empty log.
    pub run-Durable :
        (d' : Dir) × (run codec crc fuel rounds d ≡ ok (g + 1, newest ls applied, d'))
        × Durable codec crc fuel rounds d' view
        × (d'.retired ≡ none)
        × (d'.wal ≡ some [])
    unfolding cleanup_old_generations remove_generations
    run-Durable =
        let (made, build, gen) =
          build_file-Generation codec crc fuel rounds (rotate d) g k.file kvs applied ls ys k.here
            k.gen h log f in
        let last_here =
          find-remove_gens (λ i. ltb i (g + 1)) (g + 1) _ (put (g + 1) made d.data_files)
            (ground arith)
          ∙ made_here made gen in
        (
          cleanup_old_generations
              (remove_retired (write_current (publish (rotate d) (g + 1) made) (g + 1))) (g + 1),
          run_lem d g (newest ls applied) (frames crc ls) made k.names whole build,
          switched made gen _ last_here refl refl (inr refl),
          refl,
          refl,
        )

    -- The generation that a checkpoint of a database at rest leaves.
    pub run-Disk :
        (d' : Dir) × (run codec crc fuel rounds d ≡ ok (g + 1, newest ls applied, d'))
        × Disk codec crc fuel rounds d' (g + 1) (folded kvs ys) (newest ls applied) []
        × (d'.retired ≡ none)
        × (d'.wal ≡ some [])
        × ((key : Bytes) → find key (folded kvs ys) ≡ view key)
    unfolding cleanup_old_generations remove_generations
    run-Disk =
        let (made, build, gen) =
          build_file-Generation codec crc fuel rounds (rotate d) g k.file kvs applied ls ys k.here
            k.gen h log f in
        let last_here =
          find-remove_gens (λ i. ltb i (g + 1)) (g + 1) _ (put (g + 1) made d.data_files)
            (ground arith)
          ∙ made_here made gen in
        (
          cleanup_old_generations
              (remove_retired (write_current (publish (rotate d) (g + 1) made) (g + 1))) (g + 1),
          run_lem d g (newest ls applied) (frames crc ls) made k.names whole build,
          new-Disk made gen _ last_here refl refl,
          refl,
          refl,
          current_view made gen,
        )
