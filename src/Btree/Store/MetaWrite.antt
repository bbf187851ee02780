-- ===== src/Btree/Store/MetaWrite.antt =====
-- A data file under `WriteMeta` and `Open`: its tree pages stay as they are.
use zadodb.Prelude.{
  ℕ, ◌*◌, ◌<◌, ◌≤◌, length, ◌≡◌, ◌≢◌, refl, ◌∙◌, arith, nat_beq, true, none, inl, inr, [],
}
use zadodb.Errors.{ok, Result-cases}
use zadodb.Wal.Log.{Crc}
use zadodb.Page.{
  Page, page_size, page_id, type_of, page_type_meta, meta_page_id, invalid_page_id, new,
}
use zadodb.Page.Fields.{IsPage, new-IsPage}
use zadodb.Page.Contents.{page_id-new}
use zadodb.Page.Pager.{
  Manager, Meta, read_page, write_page, read_meta, write_meta, encode_meta, create, open_file,
}
use zadodb.Page.Pager.Laws.{read_page-write_page_ne, length-write_page}
use zadodb.Page.Pager.MetaPage.{
  IsMeta, completed, read_meta-write_meta, encode_meta-IsPage, page_id-encode_meta,
  read_meta_of_file,
}
use zadodb.Btree.Store.OnFile.{file_store, WithinPages, Holds-read_page}
use zadodb.Btree.Lookup.Keeps.{Keeps}

module _ (crc : Crc) where
  -- The file has a meta page at 0.
  abbrev pub HasMeta : Manager → Type 0
  HasMeta m = (q : Page) × (read_page crc m 0 ≡ ok q) × (nat_beq (type_of q) page_type_meta ≡ true)

  pub read_meta-HasMeta : (m : Manager) (meta : Meta) → read_meta crc m ≡ ok meta → HasMeta m
  unfolding read_meta
  read_meta-HasMeta m meta h = elim (Result-cases (read_page crc m 0)) [
    | inl (q, read) ↦ (q, read, ground (arith, read, h))
    | inr (z, bad) ↦ absurd (ground (arith, bad, h))
  ]

  -- The page that `WriteMeta` writes.
  abbrev meta_page : Manager → Meta → Page
  meta_page m meta = encode_meta (completed m meta) (new meta_page_id page_type_meta)

  meta_page-IsPage : (m : Manager) (meta : Meta) → IsPage (meta_page m meta)
  meta_page-IsPage m meta =
      encode_meta-IsPage (completed m meta) (new meta_page_id page_type_meta)
        (new-IsPage meta_page_id page_type_meta)

  page_id-meta_page : (m : Manager) (meta : Meta) → page_id (meta_page m meta) ≡ 0
  page_id-meta_page m meta =
      page_id-encode_meta (completed m meta) (new meta_page_id page_type_meta)
        (new-IsPage meta_page_id page_type_meta)
      ∙ page_id-new meta_page_id page_type_meta (omega arith)

  pub write_meta-Keeps :
      (m : Manager) (meta : Meta)
      → HasMeta m
      → Keeps (file_store crc) (file_store crc) m (write_meta crc m meta)
  unfolding write_meta
  write_meta-Keeps m meta (q0, read0, kind0) j q read kind =
      let m1 : Manager = record m { num_pages = (completed m meta).pages } in
      let read1 : read_page crc m1 j ≡ ok q = unfold read_page in read in
      let other : j ≢ page_id (meta_page m meta) =
        λ e. absurd (ground (arith, e, page_id-meta_page m meta, read, read0, kind, kind0)) in
      read_page-write_page_ne crc m1 (meta_page m meta) j (meta_page-IsPage m meta) other
        (Holds-read_page crc m1 j q read1)
      ∙ read1

  -- What `Create` leaves.
  pub create-HasMeta :
      (m : Manager) × (create crc none ≡ ok m) × (m.num_pages ≡ 1) × HasMeta m × WithinPages crc m
  unfolding create write_meta write_page
  create-HasMeta =
      let m0 : Manager = record { file = []; num_pages = 1 } in
      let meta : Meta = record { root = invalid_page_id; last_applied = 0; pages = 1 } in
      let w : IsMeta (completed m0 meta) = record {
        root = omega arith;
        last_applied = omega arith;
        pages = omega arith;
      } in
      let (read, count) = read_meta-write_meta crc m0 meta w in
      (
        write_meta crc m0 meta,
        refl,
        refl,
        read_meta-HasMeta _ _ read,
        length-write_page crc m0 (meta_page m0 meta) 1 (meta_page-IsPage m0 meta)
            (omega (arith, page_id-meta_page m0 meta)) (omega arith),
      )

  -- A file whose meta record was written last opens with that record, and its pages are as they were.
  pub open_file-write_meta :
      (m : Manager) (meta : Meta)
      → IsMeta (completed m meta)
      → (completed m meta).pages ≢ 0
      → (o : Manager) × (open_file crc (write_meta crc m meta).file ≡ ok o)
        × (read_meta crc o ≡ ok (completed m meta))
        × Keeps (file_store crc) (file_store crc) (write_meta crc m meta) o
  unfolding open_file
  open_file-write_meta m meta w some_pages =
      let m' = write_meta crc m meta in
      let (read, count) = read_meta-write_meta crc m meta w in
      let o : Manager = record { file = m'.file; num_pages = (completed m meta).pages } in
      (
        o,
        rw (read_meta_of_file crc m' 0, read) (ground (arith, some_pages)),
        read_meta_of_file crc m' (completed m meta).pages ∙ read,
        λ j q h kind. unfold read_page in h,
      )

  pub length-write_meta :
      (m : Manager) (meta : Meta) (k : ℕ)
      → 0 < k
      → length m.file ≤ k * page_size
      → length (write_meta crc m meta).file ≤ k * page_size
  unfolding write_meta
  length-write_meta m meta k some_page le =
      length-write_page crc (record m { num_pages = (completed m meta).pages }) (meta_page m meta) k
        (meta_page-IsPage m meta) (omega (arith, page_id-meta_page m meta)) le
