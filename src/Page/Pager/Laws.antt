-- ===== src/Page/Pager/Laws.antt =====
-- The data file as a map from page ids to pages, and its meta page.
use zadodb.Prelude.{ℕ, ◌+◌, ◌-◌, ◌*◌, ◌<◌, ◌≤◌, ◌^◌, ◌%◌, ltb, leb, true, false, none, some}
use zadodb.Prelude.{◌≡◌, ◌≢◌, ◌⊎◌, inl, inr, refl, sym, ap, ◌∙◌, arith, Bool-cases, ltb→lt}
use zadodb.Prelude.{length, length-append, length-replicate, slice, replicate}
use zadodb.Prelude.{
  length-copy_at, slice-copy_at_self, slice-copy_at_below, slice-copy_at_above, slice_append_within,
}
use zadodb.Bytes.{Bytes}
use zadodb.Wal.Log.{Crc}
use zadodb.Errors.{ok, err, negative_offset}
use zadodb.Page.{Page, page_size}
use zadodb.Page.{page_id, finalize}
use zadodb.Page.Fields.{IsPage}
use zadodb.Page.Fields.{finalize-IsPage, verify-finalize, fields-finalize}
use zadodb.Page.Pager.{write_at, read_at, Manager}
use zadodb.Page.Pager.{write_page, read_page, page_offset, write_page_int64, read_page_int64}

-- The file after a write covers both what it held and what was written.
length-write_at :
    (f : Bytes) (off : ℕ) (d : Bytes)
    → length (write_at f off d) ≡ length f + (off + length d - length f)
unfolding write_at
length-write_at f off d =
    length-copy_at off _ d
    ∙ length-append f _
    ∙ ap (λ k. length f + k) (length-replicate {A = ℕ} (off + length d - length f) 0)

slice-write_at_self :
    (f : Bytes) (off n : ℕ) (d : Bytes) → n ≡ length d → slice off n (write_at f off d) ≡ d
unfolding write_at
slice-write_at_self f off n d e = slice-copy_at_self off n _ d e (
    omega (
      arith,
      length-append f (replicate (off + length d - length f) 0),
      length-replicate {A = ℕ} (off + length d - length f) 0,
    ))

slice-write_at_ne :
    (f : Bytes) (off o n : ℕ) (d : Bytes)
    → o + n ≤ length f
    → (o + n ≤ off) ⊎ (off + length d ≤ o)
    → slice o n (write_at f off d) ≡ slice o n f
unfolding write_at
slice-write_at_ne f off o n d h (inl below) =
    slice-copy_at_below o n off _ d below ∙ slice_append_within o n f _ h
slice-write_at_ne f off o n d h (inr above) =
    slice-copy_at_above o n off _ d above ∙ slice_append_within o n f _ h

pages_apart :
    (j k n : ℕ)
    → n ≡ page_size
    → j ≢ k
    → (j * page_size + page_size ≤ k * page_size) ⊎ (k * page_size + n ≤ j * page_size)
pages_apart j k n e ne = elim (Bool-cases (ltb j k)) [
  | inl below ↦ inl (omega (arith, ltb→lt j k below))
  | inr above ↦ inr (let le : k < j = ground arith in omega arith)
]

page_offset-plain : (id : ℕ) → id < 2 ^ 51 → page_offset id ≡ some (id * page_size)
unfolding page_offset
page_offset-plain id lt =
    let off : (id * page_size) % 2 ^ 64 ≡ id * page_size = omega (arith, lt) in
    let plus : leb (2 ^ 63) (id * page_size) ≡ false = ground (arith, lt) in rw (off, plus) refl

page_offset-negative : (id : ℕ) → 2 ^ 51 ≤ id → id < 2 ^ 52 → page_offset id ≡ none
unfolding page_offset
page_offset-negative id high low =
    let off : (id * page_size) % 2 ^ 64 ≡ id * page_size = omega (arith, low) in
    let minus : leb (2 ^ 63) (id * page_size) ≡ true = ground (arith, high) in rw (off, minus) refl

module _ (crc : Crc) where
  -- A page that the file holds whole.
  abbrev pub Holds : Manager → ℕ → Type 0
  Holds m id = id * page_size + page_size ≤ length m.file

  -- A written page is read back under its id, with its checksum filled in.
  pub read_page-write_page_self :
      (m : Manager) (p : Page)
      → IsPage p
      → read_page crc (write_page crc m p) (page_id p) ≡ ok (finalize crc p)
  unfolding read_page write_page read_at
  read_page-write_page_self m p v =
      let q = finalize crc p in
      let size : length q ≡ page_size = (finalize-IsPage crc p v).size in
      let id : page_id q ≡ page_id p = (fields-finalize crc p).0 in
      rw (id, slice-write_at_self m.file (page_id p * page_size) page_size q (sym size))
        (rw (length-write_at m.file (page_id p * page_size) q, size)
          (ground (arith, verify-finalize crc p v)))

  -- After a page of full size is written, every other page that the file held whole reads as before.
  pub read_page-write_page_ne :
      (m : Manager) (p : Page) (j : ℕ)
      → IsPage p
      → j ≢ page_id p
      → Holds m j
      → read_page crc (write_page crc m p) j ≡ read_page crc m j
  unfolding read_page write_page read_at
  read_page-write_page_ne m p j v ne h =
      let q = finalize crc p in
      let size : length q ≡ page_size = (finalize-IsPage crc p v).size in
      let id : page_id q ≡ page_id p = (fields-finalize crc p).0 in
      let apart = pages_apart j (page_id p) (length q) size ne in
      rw (id, slice-write_at_ne m.file (page_id p * page_size) (j * page_size) page_size q h apart)
        (rw (length-write_at m.file (page_id p * page_size) q, size) (ground arith))

  pub Holds-write_page :
      (m : Manager) (p : Page) (j : ℕ)
      → IsPage p
      → Holds m j ⊎ (j ≡ page_id p)
      → Holds (write_page crc m p) j
  unfolding write_page
  Holds-write_page m p j v h =
      let q = finalize crc p in
      let size : length q ≡ page_size = (finalize-IsPage crc p v).size in
      let id : page_id q ≡ page_id p = (fields-finalize crc p).0 in
      rw (id, length-write_at m.file (page_id p * page_size) q, size) (omega arith)

  -- A write reaches to the end of its page, if the file was not longer before.
  pub length-write_page :
      (m : Manager) (p : Page) (k : ℕ)
      → IsPage p
      → page_id p < k
      → length m.file ≤ k * page_size
      → length (write_page crc m p).file ≤ k * page_size
  unfolding write_page
  length-write_page m p k v lt h =
      let q = finalize crc p in
      let size : length q ≡ page_size = (finalize-IsPage crc p v).size in
      let id : page_id q ≡ page_id p = (fields-finalize crc p).0 in
      rw (id, length-write_at m.file (page_id p * page_size) q, size) (omega arith)

  -- The calls with the offset as an int64 are the plain ones while it does not wrap.
  write_page_int64-plain :
      (m : Manager) (p : Page)
      → page_id p < 2 ^ 51
      → write_page_int64 crc m p ≡ ok (write_page crc m p)
  unfolding write_page_int64 write_page
  write_page_int64-plain m p lt =
      let id : page_id (finalize crc p) ≡ page_id p = (fields-finalize crc p).0 in
      rw (id, page_offset-plain (page_id p) lt) refl

  read_page_int64-plain :
      (m : Manager) (id : ℕ) → id < 2 ^ 51 → read_page_int64 crc m id ≡ read_page crc m id
  unfolding read_page_int64 read_page
  read_page_int64-plain m id lt = rw (page_offset-plain id lt) refl

  -- For a page of full size with the magic number: with an id below 2^51 it is written, and read back
  -- under its id with its checksum filled in, and every other page below 2^51 that the file held whole
  -- reads as before; with an id from 2^51 up to 2^52 the write fails, since its offset is negative.
  pub read_page_int64-write_page_int64 :
      (m : Manager) (p : Page)
      → IsPage p
      → (page_id p < 2 ^ 51
          → (m' : Manager) × (write_page_int64 crc m p ≡ ok m')
            × (read_page_int64 crc m' (page_id p) ≡ ok (finalize crc p))
            × ((j : ℕ)
                → j < 2 ^ 51
                → j ≢ page_id p
                → Holds m j
                → read_page_int64 crc m' j ≡ read_page_int64 crc m j))
        × (2 ^ 51 ≤ page_id p → page_id p < 2 ^ 52 → write_page_int64 crc m p ≡ err negative_offset)
  unfolding write_page_int64
  read_page_int64-write_page_int64 m p v =
      let id : page_id (finalize crc p) ≡ page_id p = (fields-finalize crc p).0 in
      (
        λ lt. (
          write_page crc m p,
          write_page_int64-plain m p lt,
          read_page_int64-plain (write_page crc m p) (page_id p) lt
              ∙ read_page-write_page_self m p v,
          λ j below ne h.
              read_page_int64-plain (write_page crc m p) j below
              ∙ read_page-write_page_ne m p j v ne h
              ∙ sym (read_page_int64-plain m j below),
        ),
        λ high low. rw (id, page_offset-negative (page_id p) high low) refl,
      )
