-- ===== src/Page/Pager/MetaPage.antt =====
-- The meta page: what `WriteMeta` stores is what `ReadMeta` and `Open` read.
use zadodb.Prelude.{ℕ, ◌+◌, ◌^◌, ◌<◌, ◌≤◌, nat_beq, if◌then◌else◌, none, some}
use zadodb.Prelude.{◌≡◌, refl, sym, ap, ◌∙◌, arith}
use zadodb.Prelude.{
  [], take, slice, slice-copy_at_self, slice-copy_at_below, slice-copy_at_above, drop-drop,
}
use zadodb.Bytes.{Bytes, put_le}
use zadodb.Bytes.Endian.{length-put_le, get_le-put_le}
use zadodb.Wal.Log.{Crc}
use zadodb.Errors.{err, file_exists, ok}
use zadodb.Page.{Page, invalid_page_id, meta_page_id}
use zadodb.Page.{page_type_meta, new, page_id, type_of, body, set_body, set_payload_len, finalize}
use zadodb.Page.Fields.{
  IsPage, new-IsPage, set_body-IsPage, set_payload_len-IsPage, fields-finalize,
}
use zadodb.Page.Contents.{
  page_id-new, type_of-new, page_id-set_body, type_of-set_body, page_id-set_payload_len,
  type_of-set_payload_len,
}
use zadodb.Page.Pager.{Meta, meta_magic, encode_meta, decode_meta, Manager}
use zadodb.Page.Pager.{write_page, write_meta, read_page, read_meta, create, open_file}
use zadodb.Page.Pager.Laws.{read_page-write_page_self}

-- Every field is a uint64.
pub record IsMeta (m : Meta) : Type 0 where
  pub root : m.root < 2 ^ 64
  pub last_applied : m.last_applied < 2 ^ 64
  pub pages : m.pages < 2 ^ 64

slice-body : (o n : ℕ) (p : Page) → slice o n (body p) ≡ slice (32 + o) n p
unfolding body
slice-body o n p = ap (take n) (drop-drop o 32 p)

field_kept :
    (p : Page) (off o n : ℕ) (d : Bytes)
    → o + n ≤ off
    → slice (32 + o) n (set_body p off d) ≡ slice (32 + o) n p
unfolding set_body
field_kept p off o n d h = slice-copy_at_below (32 + o) n (32 + off) p d (omega arith)

field_set :
    (p : Page) (off n v : ℕ)
    → IsPage p
    → off + n ≤ 4064
    → slice (32 + off) n (set_body p off (put_le n v)) ≡ put_le n v
unfolding set_body
field_set p off n v w h =
    slice-copy_at_self (32 + off) n p (put_le n v) (sym (length-put_le n v))
      (rw w.size (omega arith))

len_kept : (p : Page) (o n k : ℕ) → slice (32 + o) n (set_payload_len p k) ≡ slice (32 + o) n p
unfolding set_payload_len
len_kept p o n k = slice-copy_at_above (32 + o) n 12 p _ (omega (arith, length-put_le 4 k))

module _ (m : Meta) (p : Page) (v : IsPage p) where
  abbrev p1 : Page
  p1 = set_body p 0 (put_le 4 meta_magic)

  abbrev p2 : Page
  p2 = set_body p1 4 (put_le 8 m.root)

  abbrev p3 : Page
  p3 = set_body p2 12 (put_le 8 m.last_applied)

  abbrev p4 : Page
  p4 = set_body p3 20 (put_le 8 m.pages)

  v1 : IsPage p1
  v1 = set_body-IsPage p 0 _ v

  v2 : IsPage p2
  v2 = set_body-IsPage p1 4 _ v1

  v3 : IsPage p3
  v3 = set_body-IsPage p2 12 _ v2

  pub encode_meta-IsPage : IsPage (encode_meta m p)
  unfolding encode_meta
  encode_meta-IsPage = set_payload_len-IsPage p4 28 (set_body-IsPage p3 20 _ v3)

  meta_fields :
      (slice 0 4 (body (encode_meta m p)) ≡ put_le 4 meta_magic)
      × (slice 4 8 (body (encode_meta m p)) ≡ put_le 8 m.root)
      × (slice 12 8 (body (encode_meta m p)) ≡ put_le 8 m.last_applied)
      × (slice 20 8 (body (encode_meta m p)) ≡ put_le 8 m.pages)
  unfolding encode_meta
  meta_fields = (
    slice-body 0 4 _
        ∙ len_kept p4 0 4 28
        ∙ field_kept p3 20 0 4 _ (omega arith)
        ∙ field_kept p2 12 0 4 _ (omega arith)
        ∙ field_kept p1 4 0 4 _ (omega arith)
        ∙ field_set p 0 4 meta_magic v (omega arith),
    slice-body 4 8 _
        ∙ len_kept p4 4 8 28
        ∙ field_kept p3 20 4 8 _ (omega arith)
        ∙ field_kept p2 12 4 8 _ (omega arith)
        ∙ field_set p1 4 8 m.root v1 (omega arith),
    slice-body 12 8 _
        ∙ len_kept p4 12 8 28
        ∙ field_kept p3 20 12 8 _ (omega arith)
        ∙ field_set p2 12 8 m.last_applied v2 (omega arith),
    slice-body 20 8 _ ∙ len_kept p4 20 8 28 ∙ field_set p3 20 8 m.pages v3 (omega arith),
  )

  decode_meta-encode_meta : IsMeta m → decode_meta (encode_meta m p) ≡ ok m
  unfolding decode_meta
  decode_meta-encode_meta w =
      let (magic, r, l, n) = meta_fields in
      rw (magic, r, l, n)
        (rw (
          get_le-put_le 4 meta_magic (omega arith),
          get_le-put_le 8 m.root w.root,
          get_le-put_le 8 m.last_applied w.last_applied,
          get_le-put_le 8 m.pages w.pages,
        ))

  pub page_id-encode_meta : page_id (encode_meta m p) ≡ page_id p
  unfolding encode_meta
  page_id-encode_meta =
      page_id-set_payload_len p4 28
      ∙ page_id-set_body p3 20 _
      ∙ page_id-set_body p2 12 _
      ∙ page_id-set_body p1 4 _
      ∙ page_id-set_body p 0 _

  type_of-encode_meta : type_of (encode_meta m p) ≡ type_of p
  unfolding encode_meta
  type_of-encode_meta =
      type_of-set_payload_len p4 28
      ∙ type_of-set_body p3 20 _
      ∙ type_of-set_body p2 12 _
      ∙ type_of-set_body p1 4 _
      ∙ type_of-set_body p 0 _

decode_meta-finalize : (crc : Crc) (p : Page) → decode_meta (finalize crc p) ≡ decode_meta p
unfolding decode_meta
decode_meta-finalize crc p = rw (fields-finalize crc p).3

-- The meta record as `WriteMeta` completes it: a page count of 0 stands for the manager's.
abbrev pub completed : Manager → Meta → Meta
completed m meta = record meta { pages = if nat_beq meta.pages 0 then m.num_pages else meta.pages }

-- After `WriteMeta`, `ReadMeta` returns the record that was given, with a page count of 0 replaced
-- by the manager's, for fields that fit 64 bits; and the manager counts that many pages.
pub read_meta-write_meta :
    (crc : Crc) (m : Manager) (meta : Meta)
    → IsMeta (completed m meta)
    → (read_meta crc (write_meta crc m meta) ≡ ok (completed m meta))
      × ((write_meta crc m meta).num_pages ≡ (completed m meta).pages)
unfolding read_meta write_meta
read_meta-write_meta crc m meta w =
    let full = completed m meta in
    let base = new meta_page_id page_type_meta in
    let page = encode_meta full base in
    let valid = new-IsPage meta_page_id page_type_meta in
    let mgr : Manager = record m { num_pages = full.pages } in
    let id : page_id page ≡ 0 =
      page_id-encode_meta full base valid ∙ page_id-new meta_page_id page_type_meta (omega arith) in
    let kind : type_of (finalize crc page) ≡ page_type_meta =
      (fields-finalize crc page).1
      ∙ type_of-encode_meta full base valid
      ∙ type_of-new meta_page_id page_type_meta in
    let found : read_page crc (write_page crc mgr page) 0 ≡ ok (finalize crc page) =
      ap (read_page crc (write_page crc mgr page)) (sym id)
      ∙ read_page-write_page_self crc mgr page (encode_meta-IsPage full base valid) in
    (
      rw (found, kind, decode_meta-finalize crc page) (decode_meta-encode_meta full base valid w),
      unfold write_page in refl,
    )

-- The meta record is read from the file alone.
pub read_meta_of_file :
    (crc : Crc) (m : Manager) (k : ℕ)
    → read_meta crc (record { file = m.file; num_pages = k }) ≡ read_meta crc m
unfolding read_meta read_page
read_meta_of_file crc m k = refl

-- A file that `Create` makes is opened again as an empty database of one page, and `Create` refuses
-- a file that exists.
pub open_file-create :
    (crc : Crc) (old : Bytes)
    → ((m : Manager) × (create crc none ≡ ok m) × (open_file crc m.file ≡ ok m) × (m.num_pages ≡ 1))
      × (create crc (some old) ≡ err file_exists)
unfolding create open_file
open_file-create crc old =
    let m0 : Manager = record { file = []; num_pages = 1 } in
    let meta : Meta = record { root = invalid_page_id; last_applied = 0; pages = 1 } in
    let w : IsMeta meta = record {
      root = omega arith;
      last_applied = omega arith;
      pages = omega arith;
    } in
    let (read, count) = read_meta-write_meta crc m0 meta w in
    let created : Manager = write_meta crc m0 meta in
    (
      (created, refl, rw (read_meta_of_file crc created 0, read) (ground (arith, count)), count),
      refl,
    )
