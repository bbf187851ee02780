-- ===== src/Recovery/Fresh.antt =====
-- The first boot of a directory.
use zadodb.Prelude.{ℕ, ◌<◌, ◌≡◌, refl, ap, ◌∙◌, arith, inl, nat_eq}
use zadodb.Prelude.{none, some, List, [], ◌∷◌, ◌++◌, length, All}
use zadodb.Prelude.Dict.{find, put, find-put}
use zadodb.Bytes.{Bytes}
use zadodb.Bytes.Order.{bytes_eq}
use zadodb.Errors.{ok, err, file_exists, ◌>>=◌}
use zadodb.Wal.Codec.{Codec}
use zadodb.Wal.Log.{Crc}
use zadodb.Page.{invalid_page_id}
use zadodb.Page.Pager.{Manager, Meta, create, write_meta}
use zadodb.Btree.Store.OnFile.{file_store}
use zadodb.Btree.Store.MetaWrite.{create-HasMeta}
use zadodb.Btree.Build.Table.{Table}
use zadodb.Layout.{Dir, write_current, remove_generations}
use zadodb.Recovery.Boot.{logged_none}
use zadodb.Recovery.Recover.{
  Recovered, init_fresh, init_states, touch, recover, remove_temp_files, remove_generations_above,
}
use zadodb.Recovery.Durable.{torn, Disk, Durable, at_rest, read_after}
use zadodb.Recovery.Resumed.{resume-Resumed, read_after-Resumed}
use zadodb.Recovery.Restart.{cleared, boot, recover_at, boot_idle}
use zadodb.Checkpoint.Built.{writes}
use zadodb.Checkpoint.DataFile.{Generation, finished}

module _ (codec : Codec) (crc : Crc) (fuel rounds : ℕ) where
  -- A data file of generation 0 without CURRENT.
  refused :
      (d : Dir) (file : Bytes)
      → d.current ≡ none
      → find 0 d.data_files ≡ some file
      → recover codec crc fuel rounds d ≡ err file_exists
  unfolding recover init_fresh create
  refused d file names here = rw (names, here) refl

module _ (codec : Codec) (crc : Crc) (fuel rounds : ℕ) (deep : 0 < fuel) where
  pub no_pairs : (m : Manager) → Table (file_store crc) rounds m [] invalid_page_id
  no_pairs m = record {
    entries = [];
    height = 0;
    low = omega arith;
    stored = tt;
    tree = inl (refl, refl);
  }

  -- An empty directory gets an empty generation and log.
  pub init_fresh-Disk :
      (d : Dir)
      → find 0 d.data_files ≡ none
      → d.wal ≡ none
      → (d' : Dir) × (init_fresh codec crc fuel rounds d ≡ ok d')
        × Disk codec crc fuel rounds d' 0 [] 0 []
        × (d'.retired ≡ d.retired)
  unfolding init_fresh
  init_fresh-Disk d no_data no_log =
      let (m, made, count, meta0, within) = create-HasMeta crc in
      let meta : Meta = record { root = invalid_page_id; last_applied = 0; pages = m.num_pages } in
      let file = (write_meta crc m meta).file in
      let gen : Generation codec crc fuel rounds file [] 0 =
        finished codec crc fuel rounds m [] invalid_page_id 0 meta0 (no_pairs m)
          (omega (arith, count)) (omega (arith, count)) (omega arith) tt tt deep in
      (
        write_current (record d { data_files = put 0 file d.data_files; wal = touch d.wal }) 0,
        rw (no_data, made) refl,
        record {
          file = file;
          here = find-put 0 0 file d.data_files;
          gen = gen;
          names = refl;
          log = torn 0 [] tt (omega arith) (ap touch no_log) refl;
        },
        refl,
      )

  -- The first boot of a directory with no database succeeds: clients find nothing at any key, and the
  -- directory that it leaves is durable.
  pub recover-fresh :
      (d : Dir)
      → d.current ≡ none
      → find 0 d.data_files ≡ none
      → d.wal ≡ none
      → d.retired ≡ none
      → (r : Recovered) × (d' : Dir) × (recover codec crc fuel rounds d ≡ ok (r, d'))
        × ((key : Bytes) → read_after codec crc fuel rounds r d' key ≡ ok none)
        × Durable codec crc fuel rounds d' (λ key. none)
  unfolding find writes
  recover-fresh d names no_data no_log idle =
      let (d1, made, k, same) = init_fresh-Disk (remove_temp_files d) no_data no_log in
      let d3 = remove_generations_above d1 0 in
      let idle1 : d1.retired ≡ none = same ∙ idle in
      let idle3 : d3.retired ≡ none = unfold remove_generations_above remove_generations in idle1 in
      let (r, d', run, w) =
        resume-Resumed codec crc fuel rounds d3 0 [] 0 [] []
          (cleared codec crc fuel rounds d1 0 [] 0 [] k) logged_none in
      (
        r,
        d',
        recover_at codec crc fuel rounds d none names
            ∙ ap (λ m. boot codec crc fuel rounds (m >>= λ x. ok (0, x))) made
            ∙ boot_idle codec crc fuel rounds d1 0 idle1
            ∙ run,
        λ key. read_after-Resumed codec crc fuel rounds d3 d' 0 [] 0 [] [] r key w,
        at_rest (w.retired ∙ idle3) w.disk logged_none (λ key. refl),
      )

  -- The first boot of a directory with no database, cut by a crash at any of its steps: from the creation
  -- of the data file, whatever the crash leaves in it, until CURRENT is written, it leaves a directory that
  -- every later boot refuses, since the data file exists; once CURRENT is written, a durable directory
  -- in which clients find nothing.
  pub init_states-recovery :
      (cut : Bytes) (d : Dir)
      → d.current ≡ none
      → find 0 d.data_files ≡ none
      → d.wal ≡ none
      → d.retired ≡ none
      → (cuts : List Dir) × (d' : Dir) × (init_states codec crc fuel rounds cut d
          ≡ ok (d ∷ (cuts ++ (d' ∷ []))))
        × (length cuts ≡ 3)
        × All (λ x. recover codec crc fuel rounds x ≡ err file_exists) cuts
        × (init_fresh codec crc fuel rounds d ≡ ok d')
        × Durable codec crc fuel rounds d' (λ key. none)
  unfolding init_states create init_fresh writes find
  init_states-recovery cut d names no_data no_log idle =
      let (d', made, k, same) = init_fresh-Disk d no_data no_log in
      let m : Manager =
        write_meta crc (record { file = []; num_pages = 1 })
          (record { root = invalid_page_id; last_applied = 0; pages = 1 }) in
      let meta : Meta = record { root = invalid_page_id; last_applied = 0; pages = m.num_pages } in
      let file = (write_meta crc m meta).file in
      let d2 : Dir = record d { data_files = put 0 file d.data_files } in
      let last : Dir = write_current (record d2 { wal = touch d.wal }) 0 in
      let whole : init_fresh codec crc fuel rounds d ≡ ok last = rw no_data refl in
      let at_last : d' ≡ last = cc in
      let kept : Disk codec crc fuel rounds last 0 [] 0 [] = rw (← at_last) k in
      (
        record d { data_files = put 0 cut d.data_files }
            ∷ d2
            ∷ record d2 { wal = touch d.wal }
            ∷ [],
        last,
        rw no_data refl,
        refl,
        (
          refused codec crc fuel rounds _ cut names (find-put 0 0 cut d.data_files),
          (
            refused codec crc fuel rounds _ file names (find-put 0 0 file d.data_files),
            (refused codec crc fuel rounds _ file names (find-put 0 0 file d.data_files), tt),
          ),
        ),
        whole,
        at_rest idle kept logged_none (λ key. refl),
      )
