-- ===== src/Examples/Calls.antt =====
-- Callers of the sequencer: one write, and a Close that overlaps its answer.
use mathlib.Core.List.{Mem}
use zadodb.Prelude.{ℕ, ◌≡◌, refl, arith, false, true, some, [], ◌∷◌, ◌++◌}
use zadodb.Bytes.{Bytes}
use zadodb.Wal.Sequencer.{run_batch, append_batch, append_one}
use zadodb.Wal.Calls.{
  done, shut_out, returned, System, Reach, sends, picks, takes, appends, delivers, start, later,
  created,
}
use zadodb.Wal.Calls.Sound.{acknowledged-logged}
use zadodb.Wal.Calls.Closing.{committed-refused}

abbrev payloads : ℕ → Bytes
payloads i = i ∷ []

-- Call 7 writes its record.
one_write :
    (y : System) × Reach payloads 2 false 4 (created 5) y × (y.callers 7 ≡ returned (done 6))
unfolding run_batch append_batch append_one
one_write = (
  _,
  later
      (later
        (later (later (later start (sends 7 refl (omega arith))) (takes 7 [] refl refl))
          (appends (7 ∷ []) true refl))
        (delivers 7 (done 6) [] refl))
      (picks 7 (done 6) refl refl),
  refl,
)

acknowledged-logged_example :
    Mem (6, 7 ∷ []) (one_write.0.retired ++ one_write.0.seq.log)
    × ((j : ℕ) → one_write.0.callers j ≡ returned (done 6) → j ≡ 7)
acknowledged-logged_example =
    acknowledged-logged payloads 2 false 4 5 one_write.0 7 6 one_write.1 one_write.2

committed-refused_example :
    (y : System) × Reach payloads 2 true 4 (created 5) y
    × (y.callers 7 ≡ returned shut_out)
    × (y.resp 7 ≡ some (done 6))
    × Mem (6, 7 ∷ []) y.seq.log
committed-refused_example =
    committed-refused payloads 2 true 4 (created 5) 7 refl refl refl refl (omega arith)
      (omega arith)
