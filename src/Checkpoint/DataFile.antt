-- ===== src/Checkpoint/DataFile.antt =====
-- The data file of a generation, and what `BuildGeneration` makes of it and of a retired log.
use zadodb.Prelude.{
  ℕ, ◌+◌, ◌*◌, ◌<◌, ◌^◌, ◌≡◌, refl, sym, ap, ◌∙◌, arith, All, ltb, if◌then◌else◌, append_assoc,
  append-nil, nat_eq,
}
use zadodb.Prelude.{some, List, [], ◌∷◌, ◌++◌, length, inl, inr}
use zadodb.Prelude.Dict.{Dict, find}
use zadodb.Bytes.{Bytes, compare_bytes}
use zadodb.Bytes.Order.{bytes_eq}
use zadodb.Bytes.Sorted.{Sorted}
use zadodb.Errors.{ok}
use zadodb.Wal.{WalEntry}
use zadodb.Wal.Codec.{Codec}
use zadodb.Wal.Log.{Crc, LogRecord}
use zadodb.Wal.Log.Frames.{IsRecord}
use zadodb.Wal.Log.Crash.{frames, read_log-frames}
use zadodb.Page.Pager.{Manager, Meta, open_file, read_meta, write_meta}
use zadodb.Page.Pager.MetaPage.{completed}
use zadodb.Btree.{prefix_upper}
use zadodb.Btree.Store.OnFile.{file_store, file_laws, Valid_file, next_file}
use zadodb.Btree.Store.MetaWrite.{HasMeta, write_meta-Keeps, create-HasMeta, open_file-write_meta}
use zadodb.Btree.Build.Added.{Loadable}
use zadodb.Btree.Build.Table.{Table, Table-Keeps}
use zadodb.Btree.Build.Scanned.{Bounded, scan_pairs, scan-Table}
use zadodb.Btree.Build.Found.{leaf_pages, bulk_load-Loaded}
use zadodb.Recovery.Boot.{Logged}
use zadodb.Layout.{Dir}
use zadodb.Checkpoint.{put_deltas, merge_build}
use zadodb.Checkpoint.Built.{
  writes, newest, Writable, folded, folded-Sorted, folded-Loadable, parse_records-Logged,
}
use zadodb.Checkpoint.Generation.{keep_pair, pairs_of, parse_read, parse_wal_deltas, build_file}

Bounded-nil : (kvs : List (Bytes × Bytes)) → All (Bounded []) kvs
Bounded-nil [] = tt
Bounded-nil (([], v) ∷ kvs) = (unfold compare_bytes prefix_upper in refl, Bounded-nil kvs)
Bounded-nil ((b ∷ k, v) ∷ kvs) = (unfold compare_bytes prefix_upper in refl, Bounded-nil kvs)

keep_all : (kvs acc : List (Bytes × Bytes)) → scan_pairs keep_pair [] kvs acc ≡ acc ++ kvs
unfolding scan_pairs
keep_all [] acc = sym (append-nil acc)
keep_all ((k, v) ∷ kvs) acc =
    keep_all kvs (acc ++ ((k, v) ∷ [])) ∙ append_assoc acc ((k, v) ∷ []) kvs

module _ (codec : Codec) (crc : Crc) (fuel rounds : ℕ) where
  -- A data file that holds these pairs, with the last transaction that it has.
  pub record Generation (file : Bytes) (kvs : Dict Bytes Bytes) (applied : ℕ) : Type 0 where
    pub mgr : Manager
    pub meta : Meta
    pub opens : open_file crc file ≡ ok mgr
    pub read : read_meta crc mgr ≡ ok meta
    pub last : meta.last_applied ≡ applied
    pub table : Table (file_store crc) rounds mgr kvs meta.root
    pub order : Sorted kvs
    pub fit : All (Loadable (file_laws crc) rounds) kvs
    pub deep : length kvs < fuel
    pub small : applied < 2 ^ 64

  pub pairs_of-Table :
      (m : Manager) (kvs : Dict Bytes Bytes) (root : ℕ)
      → Table (file_store crc) rounds m kvs root
      → length kvs < fuel
      → pairs_of crc fuel rounds m root ≡ ok kvs
  unfolding pairs_of
  pairs_of-Table m kvs root w lt =
      scan-Table (file_store crc) rounds keep_pair [] m kvs root w fuel [] (omega (arith, w.low))
        (Bounded-nil kvs)
      ∙ ap ok (keep_all kvs [])

  parse_wal_deltas-frames :
      (rs : List LogRecord) (xs : List (ℕ × WalEntry)) (applied : ℕ)
      → All IsRecord rs
      → Logged codec applied rs xs
      → parse_wal_deltas codec crc fuel rounds (frames crc rs) applied
        ≡ ok (record { deltas = put_deltas (writes xs) []; last_applied = newest rs applied })
  unfolding parse_wal_deltas parse_read
  parse_wal_deltas-frames rs xs applied h log =
      rw
        (
          read_log-frames crc rs h,
          parse_records-Logged codec applied rs xs (record { deltas = []; last_applied = applied })
              log,
        )
        refl

  pub newest_small :
      (rs : List LogRecord) (n : ℕ) → All IsRecord rs → n < 2 ^ 64 → newest rs n < 2 ^ 64
  newest_small [] n h lt = lt
  newest_small ((tx, p) ∷ rs) n h lt =
      newest_small rs (if ltb n tx then tx else n) h.1 (ground (arith, h.0))

  -- The pairs with the transactions folded in fit the pages and the fuel.
  pub record Fits (kvs : Dict Bytes Bytes) (xs : List (ℕ × WalEntry)) : Type 0 where
    pub writable : All (Writable (file_laws crc) rounds) (writes xs)
    pub room : 3 * leaf_pages (folded kvs xs) + 2 < 2 ^ 64
    pub deep : length (folded kvs xs) < fuel

  root_small :
      (m : Manager) (kvs : Dict Bytes Bytes) (root : ℕ)
      → Table (file_store crc) rounds m kvs root
      → root < 2 ^ 64
  root_small m kvs root w = elim w.tree [
    | inl (none_there, e) ↦ omega (arith, e)
    | inr (lt, t) ↦ omega (arith, lt)
  ]

  -- A tree in a store with a meta page, under a new meta record, is a data file.
  pub finished :
      (m : Manager) (kvs : Dict Bytes Bytes) (root last : ℕ)
      → HasMeta crc m
      → Table (file_store crc) rounds m kvs root
      → 0 < m.num_pages
      → m.num_pages < 2 ^ 64
      → last < 2 ^ 64
      → Sorted kvs
      → All (Loadable (file_laws crc) rounds) kvs
      → length kvs < fuel
      → Generation
          (write_meta crc m (record { root = root; last_applied = last; pages = m.num_pages })).file
          kvs
          last
  finished m kvs root last has w low high small order fit deep =
      let meta : Meta = record { root = root; last_applied = last; pages = m.num_pages } in
      let (o, opens, read, kept) =
        open_file-write_meta crc m meta
          (record {
            root = root_small m kvs root w;
            last_applied = small;
            pages = ground (arith, high);
          })
          (λ e. absurd (ground (arith, e, low))) in
      record {
        mgr = o;
        meta = completed m meta;
        opens = opens;
        read = read;
        last = refl;
        table = Table-Keeps (file_store crc) (file_store crc) rounds kvs root kept (
            Table-Keeps (file_store crc) (file_store crc) rounds kvs root
              (write_meta-Keeps crc m meta has) w);
        order = order;
        fit = fit;
        deep = deep;
        small = small;
      }

  pub build_file-Generation :
      (d : Dir) (base : ℕ) (file : Bytes) (kvs : Dict Bytes Bytes) (applied : ℕ)
      (rs : List LogRecord) (xs : List (ℕ × WalEntry))
      → find base d.data_files ≡ some file
      → Generation file kvs applied
      → All IsRecord rs
      → Logged codec applied rs xs
      → Fits kvs xs
      → (made : Bytes) × (build_file codec crc fuel rounds d base (frames crc rs)
          ≡ ok (newest rs applied, made))
        × Generation made (folded kvs xs) (newest rs applied)
  unfolding build_file merge_build
  build_file-Generation d base file kvs applied rs xs here g h log f =
      let laws = file_laws crc in
      let (m0, created, count, meta0, within) = create-HasMeta crc in
      let next : laws.next m0 ≡ 1 = next_file crc m0 ∙ count in
      let (root, m1, run, w) =
        bulk_load-Loaded laws rounds m0 (folded kvs xs) (Valid_file crc m0 within)
          (folded-Sorted kvs xs g.order) (folded-Loadable laws rounds kvs xs g.fit f.writable)
          (omega (arith, next, f.room)) in
      let (q0, read0, kind0) = meta0 in
      let pages : laws.next m1 ≡ m1.num_pages = next_file crc m1 in
      let parsed = parse_wal_deltas-frames rs xs g.meta.last_applied h (rw g.last log) in
      let old = pairs_of-Table g.mgr kvs g.meta.root g.table g.deep in
      let done =
        finished m1 (folded kvs xs) root (newest rs applied) (q0, w.later.kept 0 q0 read0, kind0)
          w.table (omega (arith, pages, next, w.later.grows))
          (omega (arith, pages, next, w.few, f.room)) (newest_small rs applied h g.small)
          (folded-Sorted kvs xs g.order) (folded-Loadable laws rounds kvs xs g.fit f.writable)
          f.deep in
      (_, rw (here, g.opens, g.read, parsed, created, old, run, g.last) refl, done)
