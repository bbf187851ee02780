-- ===== src/Page/Pager.antt =====
-- internal/storage/page/pager.go: the meta record and the manager of the data file.
-- A file is its bytes. Reads and writes that the disk refuses are not modelled, but reading past
-- the end of the file is an error as in `ReadAt`, and so is an offset that is negative as an int64.
-- `write_page` and `read_page` are the two calls for ids below 2^51, of files below 2^63 bytes: the
-- rest of the library goes by them; `write_page_int64` and `read_page_int64` are the calls for any id.
pub mod Laws
pub mod MetaPage
use zadodb.Prelude.{
  ℕ, ◌+◌, ◌-◌, ◌*◌, ◌^◌, ◌%◌, ltb, leb, nat_beq, not, if◌then◌else◌, Option, none, some,
}
use zadodb.Prelude.{[], ◌++◌, length, drop, slice, replicate, copy_at}
use zadodb.Bytes.{Bytes, put_le, get_le}
use zadodb.Wal.Log.{Crc}
use zadodb.Errors.{
  Result, bad_meta_magic, err, file_exists, negative_offset, not_meta_page, ok, short_read, ◌>>=◌,
}
use zadodb.Page.{Page}
use zadodb.Page.{page_size, invalid_page_id, meta_page_id, page_type_meta}
use zadodb.Page.{new, from, page_id, type_of, body, set_body, set_payload_len, finalize, verify}

pub record Meta : Type 0 where
  pub root : ℕ
  pub last_applied : ℕ
  pub pages : ℕ

abbrev pub meta_magic : ℕ
meta_magic = 0x5A4D4554

-- `Meta.encode`.
unfoldable pub encode_meta : Meta → Page → Page
encode_meta m p =
    set_payload_len
      (set_body
        (set_body (set_body (set_body p 0 (put_le 4 meta_magic)) 4 (put_le 8 m.root)) 12
          (put_le 8 m.last_applied))
        20 (put_le 8 m.pages))
      28

unfoldable pub decode_meta : Page → Result Meta
decode_meta p =
    if not (nat_beq (get_le (slice 0 4 (body p))) meta_magic)
    then err bad_meta_magic
    else ok (record {
      root = get_le (slice 4 8 (body p));
      last_applied = get_le (slice 12 8 (body p));
      pages = get_le (slice 20 8 (body p));
    })

-- `f.WriteAt`: a write past the end fills the gap with zeros.
unfoldable pub write_at : Bytes → ℕ → Bytes → Bytes
write_at file off d = copy_at off (file ++ replicate (off + length d - length file) 0) d

-- `f.ReadAt` for n bytes.
unfoldable pub read_at : Bytes → ℕ → ℕ → Result Bytes
read_at file off n = if ltb (length file) (off + n) then err short_read else ok (slice off n file)

pub record Manager : Type 0 where
  pub file : Bytes
  pub num_pages : ℕ

-- `int64(id) * PageSize`, which wraps; none where it is negative.
unfoldable pub page_offset : ℕ → Option ℕ
page_offset id = let off = (id * page_size) % 2 ^ 64 in if leb (2 ^ 63) off then none else some off

write_page_at : Manager → Page → Option ℕ → Result Manager
write_page_at m q none = err negative_offset
write_page_at m q (some off) = ok (record m { file = write_at m.file off q })

module _ (crc : Crc) where
  unfoldable pub allocate : Manager → ℕ × Manager
  allocate m = (m.num_pages, record m { num_pages = m.num_pages + 1 })

  unfoldable pub write_page : Manager → Page → Manager
  write_page m p =
      let q = finalize crc p in record m { file = write_at m.file (page_id q * page_size) q }

  unfoldable pub read_page : Manager → ℕ → Result Page
  unfolding from
  read_page m id = do buf ← read_at m.file (id * page_size) page_size; p ← from buf; verify crc p

  read_page_at : Manager → Option ℕ → Result Page
  read_page_at m none = err negative_offset
  read_page_at m (some off) = do buf ← read_at m.file off page_size; p ← from buf; verify crc p

  -- `WritePage`.
  unfoldable pub write_page_int64 : Manager → Page → Result Manager
  unfolding write_page_at
  write_page_int64 m p = let q = finalize crc p in write_page_at m q (page_offset (page_id q))

  -- `ReadPage`.
  unfoldable pub read_page_int64 : Manager → ℕ → Result Page
  unfolding read_page_at from
  read_page_int64 m id = read_page_at m (page_offset id)

  unfoldable pub write_meta : Manager → Meta → Manager
  write_meta m meta =
      let pages' = if nat_beq meta.pages 0 then m.num_pages else meta.pages in
      write_page (record m { num_pages = pages' })
        (encode_meta (record meta { pages = pages' }) (new meta_page_id page_type_meta))

  unfoldable pub read_meta : Manager → Result Meta
  read_meta m = do
    p ← read_page m meta_page_id
    if not (nat_beq (type_of p) page_type_meta) then err not_meta_page else decode_meta p

  -- `Create` fails where the file is there already.
  unfoldable pub create : Option Bytes → Result Manager
  create (some old) = err file_exists
  create none = ok (
      write_meta (record { file = []; num_pages = 1 })
        (record { root = invalid_page_id; last_applied = 0; pages = 1 }))

  -- `Open`, on the bytes of an existing file.
  unfoldable pub open_file : Bytes → Result Manager
  open_file f = do
    meta ← read_meta (record { file = f; num_pages = 0 })
    ok (record { file = f; num_pages = if nat_beq meta.pages 0 then 1 else meta.pages })
