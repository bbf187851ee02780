-- ===== src/Page/Contents.antt =====
-- What a page made by `New`, `copy` into its body and `SetPayloadLen` reads back.
use zadodb.Prelude.{ℕ, ◌+◌, ◌^◌, ◌<◌, ◌≤◌}
use zadodb.Prelude.{◌≡◌, refl, sym, ap, ◌∙◌, arith, [], ◌∷◌, length, slice, copy_at}
use zadodb.Prelude.{
  ◌++◌, copy_at-append, length-copy_at, slice-copy_at_self, slice-copy_at_below,
  slice-copy_at_above,
}
use zadodb.Bytes.{Bytes, put_le, get_le}
use zadodb.Bytes.Endian.{length-put_le, get_le-put_le}
use zadodb.Page.{Page, page_size, header_size, body_size}
use zadodb.Page.{
  set_type, set_payload_len, set_id, set_body, new, zeroed, magic, page_id, type_of, payload_len,
  payload,
}
use zadodb.Page.Fields.{length-zeroed, IsPage, new-IsPage, set_body-IsPage, set_payload_len-IsPage}

-- A page with its header set and `d` copied to the front of its body.
abbrev pub page_with : ℕ → ℕ → Bytes → Page
page_with id t d = set_payload_len (set_body (new id t) 0 d) (length d)

pub page_with-IsPage : (id t : ℕ) (d : Bytes) → IsPage (page_with id t d)
page_with-IsPage id t d =
    set_payload_len-IsPage _ (length d) (set_body-IsPage _ 0 d (new-IsPage id t))

length-new_front : (t : ℕ) → length (set_type (copy_at 4 zeroed (put_le 4 magic)) t) ≡ page_size
unfolding set_type
length-new_front t = length-copy_at 8 _ _ ∙ length-copy_at 4 zeroed _ ∙ length-zeroed

new_fields : (id t : ℕ) → (slice 16 8 (new id t) ≡ put_le 8 id) × (slice 8 1 (new id t) ≡ t ∷ [])
unfolding new set_id set_type
new_fields id t = (
  slice-copy_at_self 16 8 _ (put_le 8 id) (sym (length-put_le 8 id))
      (rw (length-new_front t) (omega arith)),
  slice-copy_at_below 8 1 16 _ (put_le 8 id) (omega arith)
      ∙ slice-copy_at_self 8 1 _ (t ∷ []) refl
          (rw (length-copy_at 4 zeroed (put_le 4 magic), length-zeroed) (omega arith)),
)

pub page_id-new : (id t : ℕ) → id < 2 ^ 64 → page_id (new id t) ≡ id
unfolding page_id
page_id-new id t h = ap get_le (new_fields id t).0 ∙ get_le-put_le 8 id h

pub type_of-new : (id t : ℕ) → type_of (new id t) ≡ t
unfolding type_of
type_of-new id t = ap get_le (new_fields id t).1 ∙ unfold get_le in omega arith

pub page_id-set_body : (p : Page) (off : ℕ) (d : Bytes) → page_id (set_body p off d) ≡ page_id p
unfolding page_id set_body
page_id-set_body p off d = ap get_le (slice-copy_at_below 16 8 (32 + off) p d (omega arith))

pub type_of-set_body : (p : Page) (off : ℕ) (d : Bytes) → type_of (set_body p off d) ≡ type_of p
unfolding type_of set_body
type_of-set_body p off d = ap get_le (slice-copy_at_below 8 1 (32 + off) p d (omega arith))

pub page_id-set_payload_len : (p : Page) (k : ℕ) → page_id (set_payload_len p k) ≡ page_id p
unfolding page_id set_payload_len
page_id-set_payload_len p k =
    ap get_le (slice-copy_at_above 16 8 12 p _ (omega (arith, length-put_le 4 k)))

pub type_of-set_payload_len : (p : Page) (k : ℕ) → type_of (set_payload_len p k) ≡ type_of p
unfolding type_of set_payload_len
type_of-set_payload_len p k = ap get_le (slice-copy_at_below 8 1 12 p _ (omega arith))

payload_len-page_with :
    (id t : ℕ) (d : Bytes) → length d ≤ body_size → payload_len (page_with id t d) ≡ length d
unfolding payload_len set_payload_len
payload_len-page_with id t d h =
    ap get_le (
      slice-copy_at_self 12 4 _ (put_le 4 (length d)) (sym (length-put_le 4 (length d)))
        (rw ((set_body-IsPage _ 0 d (new-IsPage id t)).size) (omega arith)))
    ∙ get_le-put_le 4 (length d) (omega arith)

body-page_with :
    (id t : ℕ) (d : Bytes) → length d ≤ body_size → slice 32 (length d) (page_with id t d) ≡ d
unfolding set_payload_len set_body
body-page_with id t d h =
    slice-copy_at_above 32 (length d) 12 _ _ (omega (arith, length-put_le 4 (length d)))
    ∙ slice-copy_at_self 32 (length d) _ d refl (rw ((new-IsPage id t).size) (omega arith))

-- A page whose body is filled with at most 4064 bytes reads back its id, type and payload.
pub page_with_fields :
    (id t : ℕ) (d : Bytes)
    → id < 2 ^ 64
    → length d ≤ body_size
    → (page_id (page_with id t d) ≡ id)
      × (type_of (page_with id t d) ≡ t)
      × (payload (page_with id t d) ≡ d)
unfolding payload
page_with_fields id t d hid h = (
  page_id-set_payload_len _ (length d) ∙ page_id-set_body (new id t) 0 d ∙ page_id-new id t hid,
  type_of-set_payload_len _ (length d) ∙ type_of-set_body (new id t) 0 d ∙ type_of-new id t,
  rw (payload_len-page_with id t d h) (ground (arith, body-page_with id t d h)),
)

-- Two copies into the body, side by side, are one.
pub set_body-append :
    (p : Page) (o k : ℕ) (a b : Bytes)
    → IsPage p
    → k ≡ o + length a
    → k ≤ body_size
    → set_body (set_body p o a) k b ≡ set_body p o (a ++ b)
unfolding set_body
set_body-append p o k a b v e h =
    copy_at-append (header_size + o) (header_size + k) p a b (omega arith) (rw v.size (omega arith))
