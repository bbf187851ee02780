-- ===== src/Examples/Logs.antt =====
-- The log theorems at a log of two records that a crash cuts within the second.
use zadodb.Prelude.{
  ◌+◌, ◌<◌, ◌^◌, ◌≤◌, ◌≡◌, arith, some, List, [], ◌∷◌, ◌++◌, ◌&&◌, length, take, All, true, false,
}
use zadodb.Bytes.{Bytes, compare_bytes}
use zadodb.Wal.{object_key, decode_object_key}
use zadodb.Wal.Keys.{IsName, decode_object_key-object_key}
use zadodb.Wal.Log.{LogRecord, read_log, frame, ReadResult}
use zadodb.Wal.Log.Total.{read_log-total}
use zadodb.Wal.Log.Frames.{IsRecord}
use zadodb.Wal.Log.Crash.{frames, survivors, cut_end, read_log-cut}
use zadodb.Wal.Sequencer.{
  answers, Sequencer, run_batch, run_batch-logged, fitting, ids_from, batch_records, all_small,
}
use zadodb.Examples.{adding}

abbrev pub two_records : List LogRecord
two_records = (1, 7 ∷ []) ∷ (2, 8 ∷ 9 ∷ []) ∷ []

pub two_records-IsRecord : All IsRecord two_records
two_records-IsRecord = ((omega arith, omega arith), ((omega arith, omega arith), tt))

pub two_records_size : 30 ≤ length (frames adding two_records)
unfolding frame zadodb.Bytes.put_le
two_records_size = omega arith

read_log-cut_example :
    read_log adding (take 30 (frames adding two_records))
    ≡ some (record {
      records = survivors 30 two_records;
      ended = cut_end 30 two_records;
      durable = length (frames adding (survivors 30 two_records));
    })
read_log-cut_example = read_log-cut adding 30 two_records two_records-IsRecord two_records_size

abbrev at_five : Sequencer
at_five = record { log = []; next_tx = 5; closed = false }

abbrev pair : List Bytes
pair = (1 ∷ []) ∷ (2 ∷ []) ∷ []

run_batch-logged_example :
    ((run_batch at_five pair true).0 ≡ answers (all_small pair && true) (ids_from 5 pair))
    × All (λ x. x.tx < 2 ^ 64) (run_batch at_five pair true).0
    × ((run_batch at_five pair true).1.next_tx ≡ 5 + length pair)
    × ((run_batch at_five pair true).1.log ≡ [] ++ batch_records 5 (fitting pair))
run_batch-logged_example = run_batch-logged at_five pair true (omega arith)

abbrev app : Bytes
app = 97 ∷ 112 ∷ []

abbrev users : Bytes
users = 117 ∷ 115 ∷ []

app-IsName : IsName app
app-IsName = (omega arith, (omega arith, tt))

users-IsName : IsName users
users-IsName = (omega arith, (omega arith, tt))

decode_object_key-object_key_example :
    decode_object_key (object_key app users 300) ≡ some (app, users, 300)
decode_object_key-object_key_example =
    decode_object_key-object_key app users 300 app-IsName users-IsName (omega arith)

read_log-total_example : (res : ReadResult) × (read_log adding (1 ∷ 2 ∷ []) ≡ some res)
read_log-total_example = read_log-total adding (1 ∷ 2 ∷ [])
