-- ===== src/Wal/Log/Total.antt =====
-- The reading loop of a log ends on every file.
use zadodb.Prelude.{
  [], ◌∷◌, ℕ, zero, suc, ◌<◌, ◌≤◌, ◌≡◌, refl, arith, some, length, drop, take, slice, length-drop,
}
use zadodb.Bytes.{Bytes, get_le}
use zadodb.Wal.Log.{
  Crc, LogRecord, rec_header_len, Reader, open_reader, NextResult, got, stop, ReadResult,
  check_payload, check_header, next, read_loop, read_log,
}

module _ (crc : Crc) where
  length-check_payload :
      (tx plen want : ℕ) (covered body : Bytes) (off : ℕ) (x : LogRecord) (r' : Reader)
      → check_payload crc tx plen want covered body off ≡ got x r'
      → length r'.rest ≤ length body
  unfolding check_payload
  length-check_payload tx plen want covered body off x r' h =
      let rest : r'.rest ≡ drop plen body = ground arith in
      rw rest (omega (arith, length-drop plen body))

  length-check_header :
      (hdr body : Bytes) (off : ℕ) (x : LogRecord) (r' : Reader)
      → check_header crc hdr body off ≡ got x r'
      → length r'.rest ≤ length body
  unfolding check_header
  length-check_header hdr body off x r' h =
      length-check_payload (get_le (slice 8 8 hdr)) (get_le (slice 16 4 hdr))
        (get_le (slice 20 4 hdr)) (slice 8 12 hdr) body off x r' (ground arith)

  length-next :
      (r : Reader) (x : LogRecord) (r' : Reader)
      → next crc r ≡ got x r'
      → length r'.rest < length r.rest
  unfolding next
  length-next r x r' h =
      let long : 24 ≤ length r.rest = ground arith in
      omega (
        arith,
        long,
        length-drop rec_header_len r.rest,
        length-check_header (take rec_header_len r.rest) (drop rec_header_len r.rest) r.offset x r'
            (ground arith),
      )

  read_loop-total :
      (fuel : ℕ) (r : Reader)
      → length r.rest < fuel
      → (res : ReadResult) × (read_loop crc fuel r ≡ some res)
  read_loop-total zero r h = absurd (omega arith)
  read_loop-total (suc f) r h =
      go (next crc r) (λ x r' e. read_loop-total f r' (omega (arith, length-next r x r' e))) refl
    where
      go :
          (n : NextResult)
          → ((x : LogRecord) (r' : Reader)
              → next crc r ≡ got x r'
              → (res : ReadResult) × (read_loop crc f r' ≡ some res))
          → next crc r ≡ n
          → (res : ReadResult) × (read_loop crc (suc f) r ≡ some res)
      go (stop z) ih e =
          let res : ReadResult = record { records = []; ended = z; durable = r.offset } in
          (res, unfold read_loop in ground (arith, e))
      go (got x r') ih e =
          let (res, run) = ih x r' e in
          let all : ReadResult = record res { records = x ∷ res.records } in
          (all, unfold read_loop in ground (arith, e, run))

  -- For every file, damaged or not, the boot-time loop of `Next` calls ends with a result: the length of
  -- the file is fuel enough.
  pub read_log-total : (file : Bytes) → (res : ReadResult) × (read_log crc file ≡ some res)
  unfolding read_log
  read_log-total file = read_loop-total (suc (length file)) (open_reader file) (omega arith)
