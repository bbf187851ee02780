-- ===== src/Page.antt =====
-- internal/storage/page/page.go: a page is its 4096 bytes, and its header fields are read and
-- written at their offsets. A `PageType` is its byte. crc32.Checksum is a parameter.
pub mod Fields
pub mod Contents
pub mod Pager
use zadodb.Prelude.{ℕ, ◌+◌, ◌-◌, ◌*◌, ◌^◌, ltb, nat_beq, not, if◌then◌else◌, min}
use zadodb.Prelude.{[], ◌∷◌, length, get_or, take, drop, slice, replicate, copy_at}
use zadodb.Bytes.{Bytes, put_le, get_le}
use zadodb.Wal.Log.{Crc}
use zadodb.Errors.{Result, ok, err, bad_length, bad_magic, bad_checksum}

abbrev pub page_size : ℕ
page_size = 4096

abbrev pub header_size : ℕ
header_size = 32

abbrev pub body_size : ℕ
body_size = page_size - header_size

abbrev pub magic : ℕ
magic = 0x5A444231

abbrev pub invalid_page_id : ℕ
invalid_page_id = 2 ^ 64 - 1

abbrev pub meta_page_id : ℕ
meta_page_id = 0

-- PageTypeFree, PageTypeMeta, PageTypeBTreeLeaf, PageTypeBTreeInternal, PageTypeOverflow
abbrev pub page_type_free : ℕ
page_type_free = 0

abbrev pub page_type_meta : ℕ
page_type_meta = 1

abbrev pub page_type_btree_leaf : ℕ
page_type_btree_leaf = 2

abbrev pub page_type_btree_internal : ℕ
page_type_btree_internal = 3

abbrev pub page_type_overflow : ℕ
page_type_overflow = 4

abbrev pub Page : Type 0
Page = Bytes

unfoldable pub zeroed : Page
zeroed = replicate page_size 0

unfoldable pub set_type : Page → ℕ → Page
set_type p t = copy_at 8 p (t ∷ [])

unfoldable pub set_flags : Page → ℕ → Page
set_flags p f = copy_at 9 p (f ∷ [])

unfoldable pub set_payload_len : Page → ℕ → Page
set_payload_len p n = copy_at 12 p (put_le 4 n)

unfoldable pub set_id : Page → ℕ → Page
set_id p id = copy_at 16 p (put_le 8 id)

unfoldable pub set_lsn : Page → ℕ → Page
set_lsn p lsn = copy_at 24 p (put_le 8 lsn)

-- `copy(p.Body()[off:], d)`.
unfoldable pub set_body : Page → ℕ → Bytes → Page
set_body p off d = copy_at (header_size + off) p d

unfoldable pub new : ℕ → ℕ → Page
new id t = set_id (set_type (copy_at 4 zeroed (put_le 4 magic)) t) id

pub from : Bytes → Result Page
from d = if not (nat_beq (length d) page_size) then err bad_length else ok d

unfoldable pub page_id : Page → ℕ
page_id p = get_le (slice 16 8 p)

unfoldable pub type_of : Page → ℕ
type_of p = get_le (slice 8 1 p)

unfoldable pub flags : Page → ℕ
flags p = get_le (slice 9 1 p)

unfoldable pub payload_len : Page → ℕ
payload_len p = get_le (slice 12 4 p)

unfoldable pub lsn : Page → ℕ
lsn p = get_le (slice 24 8 p)

unfoldable pub body : Page → Bytes
body p = drop header_size p

unfoldable pub payload : Page → Bytes
payload p = let n = payload_len p in slice header_size (if ltb body_size n then body_size else n) p

module _ (crc : Crc) where
  unfoldable pub finalize : Page → Page
  finalize p = copy_at 0 p (put_le 4 (crc.checksum (drop 4 p)))

  unfoldable pub verify : Page → Result Page
  verify p =
      if not (nat_beq (length p) page_size)
      then err bad_length
      else if not (nat_beq (get_le (slice 4 4 p)) magic)
      then err bad_magic
      else if not (nat_beq (get_le (slice 0 4 p)) (crc.checksum (drop 4 p)))
      then err bad_checksum
      else ok p
