-- ===== src/Page/Fields.antt =====
-- Header fields do not disturb one another, and a finalized page verifies.
use zadodb.Prelude.{ℕ, ◌+◌, ◌≤◌}
use zadodb.Prelude.{◌≡◌, sym, ap, ◌∙◌, arith, [], ◌∷◌, length, take, drop, slice, copy_at}
use zadodb.Prelude.{
  length-copy_at, slice-copy_at_self, slice-copy_at_below, slice-copy_at_above, drop-copy_at,
  length-replicate,
}
use zadodb.Bytes.{Bytes, put_le, get_le}
use zadodb.Bytes.Endian.{length-put_le, get_le-put_le}
use zadodb.Wal.Log.{Crc}
use zadodb.Errors.{ok}
use zadodb.Page.{Page, page_size, header_size, magic, zeroed}
use zadodb.Page.{
  set_type, set_payload_len, set_id, set_body, new, page_id, type_of, payload_len, body, payload,
}
use zadodb.Page.{finalize, verify}

-- A whole page that carries the magic number, as `New` makes it and every setter keeps it.
pub record IsPage (p : Page) : Type 0 where
  pub size : length p ≡ page_size
  pub has_magic : get_le (slice 4 4 p) ≡ magic

pub length-zeroed : length zeroed ≡ page_size
unfolding zeroed
length-zeroed = length-replicate {A = ℕ} page_size 0

-- A write of at least eight bytes in keeps the magic number and the size.
copy_at-IsPage : (off : ℕ) (p : Page) (d : Bytes) → 8 ≤ off → IsPage p → IsPage (copy_at off p d)
copy_at-IsPage off p d h v = record {
  size = length-copy_at off p d ∙ v.size;
  has_magic = ap get_le (slice-copy_at_below 4 4 off p d h) ∙ v.has_magic;
}

pub set_payload_len-IsPage : (p : Page) (n : ℕ) → IsPage p → IsPage (set_payload_len p n)
unfolding set_payload_len
set_payload_len-IsPage p n v = copy_at-IsPage 12 p (put_le 4 n) (omega arith) v

pub set_body-IsPage : (p : Page) (off : ℕ) (d : Bytes) → IsPage p → IsPage (set_body p off d)
unfolding set_body
set_body-IsPage p off d v = copy_at-IsPage (header_size + off) p d (omega arith) v

pub new-IsPage : (id t : ℕ) → IsPage (new id t)
unfolding new set_id set_type
new-IsPage id t = copy_at-IsPage 16 _ (put_le 8 id) (omega arith) (
    copy_at-IsPage 8 _ (t ∷ []) (omega arith) (record {
      size = length-copy_at 4 zeroed (put_le 4 magic) ∙ length-zeroed;
      has_magic =
          ap get_le (
            slice-copy_at_self 4 4 zeroed (put_le 4 magic) (sym (length-put_le 4 magic))
              (rw length-zeroed (omega arith)))
          ∙ get_le-put_le 4 magic (omega arith);
    }))

module _ (crc : Crc) where
  pub finalize-IsPage : (p : Page) → IsPage p → IsPage (finalize crc p)
  unfolding finalize
  finalize-IsPage p v = record {
    size = length-copy_at 0 p _ ∙ v.size;
    has_magic =
        ap get_le
          (slice-copy_at_above 4 4 0 p _ (omega (arith, length-put_le 4 (crc.checksum (drop 4 p)))))
        ∙ v.has_magic;
  }

  drop-finalize : (p : Page) (k : ℕ) → 4 ≤ k → drop k (finalize crc p) ≡ drop k p
  unfolding finalize
  drop-finalize p k h =
      drop-copy_at k 0 p _ (omega (arith, length-put_le 4 (crc.checksum (drop 4 p))))

  sum-finalize :
      (p : Page) → IsPage p → get_le (slice 0 4 (finalize crc p)) ≡ crc.checksum (drop 4 p)
  unfolding finalize
  sum-finalize p v =
      ap get_le (slice-copy_at_self 0 4 p _ (sym (length-put_le 4 _)) (rw v.size (omega arith)))
      ∙ get_le-put_le 4 _ (crc.checksum_bound (drop 4 p))

  -- Finalizing any page of full size with the magic number yields a page that verifies.
  pub verify-finalize : (p : Page) → IsPage p → verify crc (finalize crc p) ≡ ok (finalize crc p)
  unfolding verify
  verify-finalize p v =
      let v' = finalize-IsPage p v in
      rw (v'.size, v'.has_magic, sum-finalize p v, drop-finalize p 4 (omega arith)) (ground arith)

  -- The checksum field is all that `Finalize` changes.
  pub fields-finalize :
      (p : Page)
      → (page_id (finalize crc p) ≡ page_id p)
        × (type_of (finalize crc p) ≡ type_of p)
        × (payload (finalize crc p) ≡ payload p)
        × (body (finalize crc p) ≡ body p)
  unfolding page_id type_of payload payload_len body
  fields-finalize p = (
    ap (λ r. get_le (take 8 r)) (drop-finalize p 16 (omega arith)),
    ap (λ r. get_le (take 1 r)) (drop-finalize p 8 (omega arith)),
    rw (drop-finalize p 12 (omega arith), drop-finalize p 32 (omega arith)),
    drop-finalize p 32 (omega arith),
  )
