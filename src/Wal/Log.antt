-- ===== src/Wal/Log.antt =====
-- internal/storage/wal/writer.go and reader.go: framed records in a log file, a byte string.
-- hash/crc32 is a parameter, with what its documentation says: a checksum is a uint32.
pub mod Frames
pub mod Crash
pub mod Total
use zadodb.Prelude.{ℕ, zero, suc, ◌+◌, ◌*◌, ◌^◌, ◌<◌, ltb, nat_beq, not, if◌then◌else◌}
use zadodb.Prelude.{Option, none, some, List, [], ◌∷◌, ◌++◌, length, get_or, take, drop, slice}
use zadodb.Bytes.{Bytes, put_le, get_le}

pub record Crc : Type 0 where
  -- `crc32.Checksum(data, table)` and `crc32.Update(crc, table, data)` for the Castagnoli table.
  pub checksum : Bytes → ℕ
  pub update : ℕ → Bytes → ℕ
  pub checksum_bound : (d : Bytes) → checksum d < 2 ^ 32
  pub update_bound : (c : ℕ) (d : Bytes) → update c d < 2 ^ 32

abbrev pub rec_magic : ℕ
rec_magic = 0x5A57414C

abbrev pub rec_version : ℕ
rec_version = 1

abbrev pub rec_header_len : ℕ
rec_header_len = 24

abbrev pub max_record_len : ℕ
max_record_len = 64 * 2 ^ 20

-- A record that was read: its transaction and its payload.
abbrev pub LogRecord : Type 0
LogRecord = ℕ × Bytes

pub data ReadError : Type 0 where
  eof corrupt : ReadError
  bad_version : ℕ → ReadError

-- What a reader holds: the bytes that it has not read, and the end of the last good record.
pub record Reader : Type 0 where
  pub rest : Bytes
  pub offset : ℕ

abbrev pub open_reader : Bytes → Reader
open_reader file = record { rest = file; offset = 0 }

pub data NextResult : Type 0 where
  got : LogRecord → Reader → NextResult
  stop : ReadError → NextResult

-- What a loop of `Next` calls saw: the records, the error that ended it, and the durable offset.
pub record ReadResult : Type 0 where
  pub records : List LogRecord
  pub ended : ReadError
  pub durable : ℕ

module _ (crc : Crc) where
  unfoldable pub record_crc : ℕ → Bytes → ℕ
  record_crc tx p = crc.update (crc.checksum (put_le 8 tx ++ put_le 4 (length p))) p

  -- The header and the payload, which `Append` writes in one call.
  unfoldable pub frame : ℕ → Bytes → Bytes
  unfolding record_crc
  frame tx p =
      put_le 4 rec_magic
      ++ (rec_version
          ∷ (0
              ∷ 0
              ∷ 0
              ∷ (put_le 8 tx ++ (put_le 4 (length p) ++ (put_le 4 (record_crc tx p) ++ p)))))

  -- `none` is the "payload too large" error. The file is opened with O_APPEND.
  unfoldable pub append : Bytes → ℕ → Bytes → Option Bytes
  append file tx p = if ltb max_record_len (length p) then none else some (file ++ frame tx p)

  check_payload : ℕ → ℕ → ℕ → Bytes → Bytes → ℕ → NextResult
  check_payload tx plen want covered body off =
      if ltb (length body) plen
      then stop corrupt
      else if not (nat_beq (crc.update (crc.checksum covered) (take plen body)) want)
      then stop corrupt
      else got (tx, take plen body)
          (record { rest = drop plen body; offset = off + (rec_header_len + plen) })

  -- `hdr` is the 24 bytes of the header.
  check_header : Bytes → Bytes → ℕ → NextResult
  unfolding check_payload
  check_header hdr body off =
      let plen = get_le (slice 16 4 hdr) in
      if not (nat_beq (get_le (slice 0 4 hdr)) rec_magic)
      then stop corrupt
      else if not (nat_beq (get_or hdr 4 0) rec_version)
      then stop (bad_version (get_or hdr 4 0))
      else if ltb max_record_len plen
      then stop corrupt
      else check_payload (get_le (slice 8 8 hdr)) plen (get_le (slice 20 4 hdr)) (slice 8 12 hdr)
          body off

  unfoldable pub next : Reader → NextResult
  unfolding check_header
  next r =
      if nat_beq (length r.rest) 0
      then stop eof
      else if ltb (length r.rest) rec_header_len
      then stop corrupt
      else check_header (take rec_header_len r.rest) (drop rec_header_len r.rest) r.offset

  -- The loops of `replayWAL` and `parseWALDeltas` call `Next` until it fails. A record takes 24
  -- bytes at least, so the length of the file is fuel enough.
  unfoldable pub read_loop : ℕ → Reader → Option ReadResult
  read_loop zero r = none
  read_loop (suc fuel) r = elim (next r) [
    | stop e ↦ some (record { records = []; ended = e; durable = r.offset })
    | got x r' ↦ elim (read_loop fuel r') [
      | none ↦ none
      | some res ↦ some (record res { records = x ∷ res.records })
    ]
  ]

  unfoldable pub read_log : Bytes → Option ReadResult
  read_log file = read_loop (suc (length file)) (open_reader file)
