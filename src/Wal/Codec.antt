-- ===== src/Wal/Codec.antt =====
-- msgpack, which `Marshal` and `UnmarshalEntry` of internal/storage/wal/record.go call: a parameter.
-- What is relied on is that an entry that was encoded is decoded to itself.
use zadodb.Prelude.{◌≡◌, Option, some}
use zadodb.Bytes.{Bytes}
use zadodb.Wal.{WalEntry}

pub record Codec : Type 0 where
  -- `none` is an error.
  pub marshal : WalEntry → Option Bytes
  pub unmarshal : Bytes → Option WalEntry
  pub unmarshal-marshal : (e : WalEntry) (b : Bytes) → marshal e ≡ some b → unmarshal b ≡ some e
