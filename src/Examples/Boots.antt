-- ===== src/Examples/Boots.antt =====
-- A boot after a crash within the second of two records.
use zadodb.Prelude.{◌≡◌, arith, some, [], ◌∷◌, ◌++◌, length, take}
use zadodb.Bytes.{Bytes}
use zadodb.Wal.{WalEntry, wal_entry, op_put, no_subs}
use zadodb.Wal.Log.{append, read_log, eof}
use zadodb.Wal.Log.Crash.{frames, survivors}
use zadodb.Recovery.{truncate_wal}
use zadodb.Recovery.Boot.{append-truncate_wal}
use zadodb.Examples.{adding}
use zadodb.Examples.Logs.{two_records, two_records-IsRecord, two_records_size}

append-truncate_wal_example :
    (file : Bytes) × (append adding
        (truncate_wal
          (take 30 (frames adding two_records))
          (length (frames adding (survivors 30 two_records))))
        2
        (6 ∷ [])
      ≡ some file)
    × (read_log adding file
        ≡ some (record {
          records = survivors 30 two_records ++ ((2, 6 ∷ []) ∷ []);
          ended = eof;
          durable = length file;
        }))
append-truncate_wal_example =
    append-truncate_wal adding 30 two_records (2, 6 ∷ []) two_records-IsRecord
      (omega arith, omega arith) two_records_size

abbrev pub write : WalEntry
write = wal_entry op_put (97 ∷ []) (117 ∷ []) 1 (9 ∷ []) 12 no_subs

abbrev pub bytes : Bytes
bytes = 0 ∷ 1 ∷ 12 ∷ 1 ∷ 1 ∷ 97 ∷ 117 ∷ 9 ∷ []
