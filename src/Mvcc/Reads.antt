-- ===== src/Mvcc/Reads.antt =====
-- Reads of a snapshot: `openSnapshot`, `ReadPage` and `Get` of internal/storage/mvcc/snapshot.go on the
-- mapped bytes of a data file.
use zadodb.Prelude.{
  ℕ, ◌+◌, ◌*◌, ◌%◌, ◌<◌, ◌^◌, ◌≡◌, refl, sym, ap, ◌∙◌, arith, ltb, leb, if◌then◌else◌, false, inl,
  inr, Option, length, slice,
}
use zadodb.Prelude.Dict.{Dict, find}
use zadodb.Bytes.{Bytes}
use zadodb.Bytes.Order.{bytes_eq}
use zadodb.Errors.{Result, ok, err, out_of_range, panics, ◌>>=◌, Result-cases}
use zadodb.Wal.Codec.{Codec}
use zadodb.Wal.Log.{Crc}
use zadodb.Page.{Page, page_size, meta_page_id, from, verify}
use zadodb.Page.Pager
use zadodb.Page.Pager.{Manager, Meta, open_file, decode_meta, read_meta, read_at}
use zadodb.Btree.Store.{PageStore}
use zadodb.Btree.Store.OnFile.{file_store, Holds-read_page}
use zadodb.Btree.Lookup.{get}
use zadodb.Btree.Lookup.Keeps.{Keeps}
use zadodb.Btree.Build.Table.{Table-Keeps, get-Table}
use zadodb.Checkpoint.DataFile.{Generation}

pub record Snapshot : Type 0 where
  pub mapped : Bytes
  pub root : ℕ

module _ (crc : Crc) where
  -- `off` is an int64: the product and the sum wrap, and a negative one is one from 2^63 on. A sum that
  -- wraps is below the length, and the slice that follows panics.
  unfoldable pub read_snapshot_page : Bytes → ℕ → Result Page
  read_snapshot_page mapped id =
      let off = (id * page_size) % 2 ^ 64 in
      let end = (off + page_size) % 2 ^ 64 in
      let found = (do p ← from (slice off page_size mapped); verify crc p) in
      if leb (2 ^ 63) off
      then err out_of_range
      else if leb (2 ^ 63) end
      then err panics
      else if ltb (length mapped) end
      then err out_of_range
      else found

  -- `Get` and `Scan` use the reads of a store alone: a snapshot is never written.
  abbrev pub source : PageStore Bytes
  source = record { read_page = read_snapshot_page; allocate = λ d. (0, d); write_page = λ d p. d }

  unfoldable pub open_snapshot : Bytes → Result Snapshot
  open_snapshot file = do
    p ← read_snapshot_page file meta_page_id
    meta ← decode_meta p
    ok (record { mapped = file; root = meta.root })

  unfoldable pub snapshot_get : ℕ → ℕ → Snapshot → Bytes → Result (Option Bytes)
  snapshot_get fuel rounds s key = get source rounds fuel s.mapped s.root key

  -- What the pager reads from a file, a snapshot reads from its bytes.
  read_snapshot_page_lem :
      (m : Manager) (j : ℕ) (q : Page)
      → length m.file < 2 ^ 62
      → Pager.read_page crc m j ≡ ok q
      → read_snapshot_page m.file j ≡ ok q
  unfolding read_snapshot_page Pager.read_page read_at
  read_snapshot_page_lem m j q short h =
      let held = Holds-read_page crc m j q h in
      let off : (j * page_size) % 2 ^ 64 ≡ j * page_size = omega (arith, held, short) in
      let end : (j * page_size + page_size) % 2 ^ 64 ≡ j * page_size + page_size =
        omega (arith, held, short) in
      let plus : leb (2 ^ 63) (j * page_size) ≡ false = ground (arith, held, short) in
      let plus_end : leb (2 ^ 63) (j * page_size + page_size) ≡ false =
        ground (arith, held, short) in
      let within : ltb (length m.file) (j * page_size + page_size) ≡ false = ground (arith, held) in
      rw (off, end, plus, plus_end, within) (ground (arith, h, within))

  file_of-open_file : (file : Bytes) (m : Manager) → open_file crc file ≡ ok m → m.file ≡ file
  unfolding open_file
  file_of-open_file file m h =
      elim (Result-cases (read_meta crc (record { file = file; num_pages = 0 }))) [
        | inl (meta, read) ↦ ground (arith, h, read)
        | inr (z, bad) ↦ absurd (ground (arith, h, bad))
      ]

  open_snapshot_same :
      (m : Manager) (meta : Meta)
      → length m.file < 2 ^ 62
      → read_meta crc m ≡ ok meta
      → open_snapshot m.file ≡ ok (record { mapped = m.file; root = meta.root })
  unfolding open_snapshot read_meta
  open_snapshot_same m meta short h = elim (Result-cases (Pager.read_page crc m meta_page_id)) [
    | inl (q, read) ↦
        let decoded : decode_meta q ≡ ok meta = ground (arith, read, h) in
        rw (read_snapshot_page_lem m meta_page_id q short read, decoded) refl
    | inr (z, bad) ↦ absurd (ground (arith, bad, h))
  ]

  -- A snapshot opened on the data file of a generation, of a length that int64 offsets reach, reads at
  -- every key what the generation holds.
  pub snapshot_get-Generation :
      (codec : Codec) (fuel rounds : ℕ) (file : Bytes) (kvs : Dict Bytes Bytes) (applied : ℕ)
      → Generation codec crc fuel rounds file kvs applied
      → length file < 2 ^ 62
      → (s : Snapshot) × (open_snapshot file ≡ ok s)
        × ((key : Bytes) → snapshot_get fuel rounds s key ≡ ok (find key kvs))
  unfolding snapshot_get
  snapshot_get-Generation codec fuel rounds file kvs applied g short =
      let same = file_of-open_file file g.mgr g.opens in
      let short' : length g.mgr.file < 2 ^ 62 = rw same short in
      let keeps : Keeps (file_store crc) source g.mgr g.mgr.file =
        λ j q h kind. read_snapshot_page_lem g.mgr j q short' h in
      let table = Table-Keeps (file_store crc) source rounds kvs g.meta.root keeps g.table in
      (
        record { mapped = g.mgr.file; root = g.meta.root },
        ap open_snapshot (sym same) ∙ open_snapshot_same g.mgr g.meta short' g.read,
        λ key.
            get-Table source rounds g.mgr.file kvs g.meta.root table fuel key
              (omega (arith, table.low, g.deep)),
      )
