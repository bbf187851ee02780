-- ===== src/Wal/Log/Frames.antt =====
-- Reading back what the writer wrote, whole or cut anywhere by a crash.
use zadodb.Prelude.{ℕ, ◌+◌, ◌-◌, ◌^◌, ◌<◌, ◌≤◌, ltb, nat_beq, if◌then◌else◌}
use zadodb.Prelude.{◌≡◌, refl, ◌∙◌, arith, append_assoc}
use zadodb.Prelude.{◌∷◌, ◌++◌, length, length-append, get_or, take, slice}
use zadodb.Prelude.{take_append, drop_append, take_append_over, length-take, Bool-cases, inl, inr}
use zadodb.Bytes.{Bytes, put_le}
use zadodb.Bytes.Endian.{get_le-put_le}
use zadodb.Wal.Log.{Crc, rec_magic, max_record_len, LogRecord}
use zadodb.Wal.Log.{ReadError, eof, corrupt, got, stop}
use zadodb.Wal.Log.{record_crc, frame, check_payload, check_header, next}

-- A record that the writer accepts.
abbrev pub IsRecord : LogRecord → Type 0
IsRecord (tx, p) = (tx < 2 ^ 64) × (length p ≤ max_record_len)

-- How the reader stops at the first `n` bytes of a longer frame.
abbrev pub torn_end : ℕ → ReadError
torn_end n = if nat_beq n 0 then eof else corrupt

module _ (crc : Crc) where
  header : ℕ → Bytes → Bytes
  header tx p =
      put_le 4 rec_magic
      ++ (1
          ∷ (0 ∷ 0 ∷ 0 ∷ (put_le 8 tx ++ (put_le 4 (length p) ++ put_le 4 (record_crc crc tx p)))))

  frame-header : (tx : ℕ) (p : Bytes) → frame crc tx p ≡ header tx p ++ p
  unfolding frame header put_le
  frame-header tx p = refl

  length-header : (tx : ℕ) (p : Bytes) → length (header tx p) ≡ 24
  unfolding header put_le
  length-header tx p = refl

  pub length-frame : (tx : ℕ) (p : Bytes) → length (frame crc tx p) ≡ 24 + length p
  length-frame tx p =
      rw (frame-header tx p) (omega (arith, length-append (header tx p) p, length-header tx p))

  check_payload-lem :
      (tx off : ℕ) (p rest : Bytes)
      → check_payload crc tx
          (length p)
          (record_crc crc tx p)
          (put_le 8 tx ++ put_le 4 (length p))
          (p ++ rest)
          off
        ≡ got (tx, p) (record { rest = rest; offset = off + (24 + length p) })
  unfolding check_payload record_crc
  check_payload-lem tx off p rest =
      ground
        (arith, length-append p rest, take_append p rest (length p), drop_append p rest (length p))

  header_fields :
      (tx : ℕ) (p : Bytes)
      → (slice 0 4 (header tx p) ≡ put_le 4 rec_magic)
        × (get_or (header tx p) 4 0 ≡ 1)
        × (slice 8 8 (header tx p) ≡ put_le 8 tx)
        × (slice 16 4 (header tx p) ≡ put_le 4 (length p))
        × (slice 20 4 (header tx p) ≡ put_le 4 (record_crc crc tx p))
        × (slice 8 12 (header tx p) ≡ put_le 8 tx ++ put_le 4 (length p))
  unfolding header put_le
  header_fields tx p = (refl, refl, refl, refl, refl, refl)

  record_crc-lt : (tx : ℕ) (p : Bytes) → record_crc crc tx p < 2 ^ 32
  unfolding record_crc
  record_crc-lt tx p = crc.update_bound _ p

  check_header-lem :
      (tx off : ℕ) (p rest : Bytes)
      → IsRecord (tx, p)
      → check_header crc (header tx p) (p ++ rest) off
        ≡ got (tx, p) (record { rest = rest; offset = off + (24 + length p) })
  unfolding check_header
  check_header-lem tx off p rest h =
      let (magic, version, id, len, sum, covered) = header_fields tx p in
      rw (magic, version, id, len, sum, covered)
        (rw
          (
            get_le-put_le 4 rec_magic (omega arith),
            get_le-put_le 8 tx (omega arith),
            get_le-put_le 4 (length p) (omega arith),
            get_le-put_le 4 (record_crc crc tx p) (record_crc-lt tx p),
          )
          (ground (arith, check_payload-lem tx off p rest)))

  -- The next record of a log that starts with a frame is that frame's record.
  pub next-frame :
      (tx off : ℕ) (p rest : Bytes)
      → IsRecord (tx, p)
      → next crc (record { rest = frame crc tx p ++ rest; offset = off })
        ≡ got (tx, p) (record { rest = rest; offset = off + (24 + length p) })
  unfolding next
  next-frame tx off p rest h =
      let e : frame crc tx p ++ rest ≡ header tx p ++ (p ++ rest) =
        rw (frame-header tx p, append_assoc) in
      rw e (
        ground (
          arith,
          length-append (header tx p) (p ++ rest),
          length-header tx p,
          take_append (header tx p) (p ++ rest) 24,
          drop_append (header tx p) (p ++ rest) 24,
          check_header-lem tx off p rest h,
        ))

  torn_body :
      (tx off n : ℕ) (p : Bytes)
      → IsRecord (tx, p)
      → n < length p
      → check_header crc (header tx p) (take n p) off ≡ stop corrupt
  unfolding check_header check_payload
  torn_body tx off n p h lt =
      let (magic, version, id, len, sum, covered) = header_fields tx p in
      rw (magic, version, id, len, sum, covered)
        (rw (get_le-put_le 4 rec_magic (omega arith), get_le-put_le 4 (length p) (omega arith))
          (ground (arith, length-take n p)))

  -- A frame that a crash cut short is the end of the log.
  pub next-torn :
      (tx off n : ℕ) (p : Bytes)
      → IsRecord (tx, p)
      → n < 24 + length p
      → next crc (record { rest = take n (frame crc tx p); offset = off }) ≡ stop (torn_end n)
  unfolding next
  next-torn tx off n p h lt = elim (Bool-cases (ltb n 24)) [
    | inl short ↦ ground (arith, length-take n (frame crc tx p), length-frame tx p)
    | inr whole ↦
        let e : take n (frame crc tx p) ≡ header tx p ++ take (n - 24) p = rw (frame-header tx p) (
          take_append_over (header tx p) p n (ground (arith, length-header tx p))
          ∙ rw (length-header tx p)) in
        rw e (
          ground (
            arith,
            length-append (header tx p) (take (n - 24) p),
            length-take (n - 24) p,
            length-header tx p,
            take_append (header tx p) (take (n - 24) p) 24,
            drop_append (header tx p) (take (n - 24) p) 24,
            torn_body tx off (n - 24) p h,
          ))
  ]
