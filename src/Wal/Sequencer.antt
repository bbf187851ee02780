-- ===== src/Wal/Sequencer.antt =====
-- internal/storage/wal/sequencer.go: the one goroutine that appends to the log. A batch is what
-- `collectBatch` returned, one request in per-commit mode; which requests come together, and whether
-- the disk's fsync succeeds, is decided outside and is an argument. The file is its records: what
-- `Append` writes for them are the frames of Wal/Log. Ids are counted without a bound, and stand for
-- uint64 values while they are below 2^64. The file takes every record that is written to it: the
-- error of a failed `Write` is not modelled.
use zadodb.Prelude.{
  ℕ, ◌+◌, ◌<◌, ◌^◌, leb, if◌then◌else◌, Bool, true, false, ◌&&◌, All, Bool-cases, inl, inr,
}
use zadodb.Prelude.{
  ◌≡◌, refl, sym, ap, ◌∙◌, arith, List, [], ◌∷◌, ◌++◌, length, append-nil, append_assoc,
}
use zadodb.Bytes.{Bytes}
use zadodb.Wal.Log.{LogRecord, max_record_len}

pub record Sequencer : Type 0 where
  pub log : List LogRecord
  pub next_tx : ℕ
  pub closed : Bool

-- `result`: the transaction id, and whether the error is nil.
pub record Answer : Type 0 where
  pub tx : ℕ
  pub committed : Bool

-- The state of the loop over a batch: the ids given out, and whether `err` is still nil.
pub record Appending : Type 0 where
  pub file : List LogRecord
  pub tx_ids : List ℕ
  pub last_tx : ℕ
  pub fine : Bool

-- One request: an id is taken even after an error; a payload that is too large is the error.
unfoldable pub append_one : Appending → Bytes → Appending
append_one a p =
    let tx = a.last_tx + 1 in
    record {
      file = if a.fine && leb (length p) max_record_len then a.file ++ ((tx, p) ∷ []) else a.file;
      tx_ids = a.tx_ids ++ (tx ∷ []);
      last_tx = tx;
      fine = a.fine && leb (length p) max_record_len;
    }

unfoldable pub append_batch : Appending → List Bytes → Appending
append_batch a [] = a
append_batch a (p ∷ ps) = append_batch (append_one a p) ps

abbrev starting : Sequencer → Appending
starting s = record { file = s.log; tx_ids = []; last_tx = s.next_tx; fine = true }

abbrev pub answers : Bool → List ℕ → List Answer
answers ok [] = []
answers ok (tx ∷ txs) = record { tx = tx; committed = ok } ∷ answers ok txs

-- One round of `run`: every request of the batch gets the same error, or nil.
unfoldable pub run_batch : Sequencer → List Bytes → Bool → List Answer × Sequencer
unfolding append_batch append_one
run_batch s batch sync_ok =
    let a = append_batch (starting s) batch in
    (answers (a.fine && sync_ok) a.tx_ids, record s { log = a.file; next_tx = a.last_tx })

-- The ids that a batch is given.
abbrev pub ids_from : ℕ → List Bytes → List ℕ
ids_from tx [] = []
ids_from tx (p ∷ ps) = (tx + 1) ∷ ids_from (tx + 1) ps

abbrev pub batch_records : ℕ → List Bytes → List LogRecord
batch_records tx [] = []
batch_records tx (p ∷ ps) = (tx + 1, p) ∷ batch_records (tx + 1) ps

abbrev pub all_small : List Bytes → Bool
all_small [] = true
all_small (p ∷ ps) = leb (length p) max_record_len && all_small ps

append_batch_ids :
    (a : Appending) (ps : List Bytes)
    → ((append_batch a ps).tx_ids ≡ a.tx_ids ++ ids_from a.last_tx ps)
      × ((append_batch a ps).last_tx ≡ a.last_tx + length ps)
      × ((append_batch a ps).fine ≡ (a.fine && all_small ps))
unfolding append_batch append_one
append_batch_ids a [] = (sym (append-nil a.tx_ids), omega arith, ground arith)
append_batch_ids a (p ∷ ps) =
    let (ids, last, fine) = append_batch_ids (append_one a p) ps in
    (
      ids ∙ append_assoc a.tx_ids ((a.last_tx + 1) ∷ []) (ids_from (a.last_tx + 1) ps),
      omega (arith, last),
      fine ∙ ground arith,
    )

append_batch_file :
    (a : Appending) (ps : List Bytes)
    → a.fine ≡ true
    → all_small ps ≡ true
    → (append_batch a ps).file ≡ a.file ++ batch_records a.last_tx ps
unfolding append_batch append_one
append_batch_file a [] h k = sym (append-nil a.file)
append_batch_file a (p ∷ ps) h k =
    let small : leb (length p) max_record_len ≡ true = ground arith in
    let first : (append_one a p).file ≡ a.file ++ ((a.last_tx + 1, p) ∷ []) = ground arith in
    append_batch_file (append_one a p) ps (ground arith) (ground arith)
    ∙ ap (λ f. f ++ batch_records (a.last_tx + 1) ps) first
    ∙ append_assoc a.file ((a.last_tx + 1, p) ∷ []) (batch_records (a.last_tx + 1) ps)

pub run_batch_lem :
    (s : Sequencer) (batch : List Bytes) (sync_ok : Bool)
    → ((run_batch s batch sync_ok).0
        ≡ answers (all_small batch && sync_ok) (ids_from s.next_tx batch))
      × ((run_batch s batch sync_ok).1.next_tx ≡ s.next_tx + length batch)
      × (all_small batch ≡ true
          → (run_batch s batch sync_ok).1.log ≡ s.log ++ batch_records s.next_tx batch)
unfolding run_batch
run_batch_lem s batch sync_ok =
    let (ids, last, fine) = append_batch_ids (starting s) batch in
    (rw (ids, fine), last, λ small. append_batch_file (starting s) batch refl small)

-- The requests before the first that is too large.
abbrev pub fitting : List Bytes → List Bytes
fitting [] = []
fitting (p ∷ ps) = if leb (length p) max_record_len then p ∷ fitting ps else []

append_batch_stuck :
    (a : Appending) (ps : List Bytes) → a.fine ≡ false → (append_batch a ps).file ≡ a.file
unfolding append_batch append_one
append_batch_stuck a [] h = refl
append_batch_stuck a (p ∷ ps) h =
    let same : (append_one a p).file ≡ a.file = ground (arith, h) in
    append_batch_stuck (append_one a p) ps (ground (arith, h)) ∙ same

append_batch_front :
    (a : Appending) (ps : List Bytes)
    → a.fine ≡ true
    → (append_batch a ps).file ≡ a.file ++ batch_records a.last_tx (fitting ps)
unfolding append_batch append_one
append_batch_front a [] h = sym (append-nil a.file)
append_batch_front a (p ∷ ps) h = elim (Bool-cases (leb (length p) max_record_len)) [
  | inl small ↦
      let first : (append_one a p).file ≡ a.file ++ ((a.last_tx + 1, p) ∷ []) =
        ground (arith, h, small) in
      let grown : a.file ++ ((a.last_tx + 1, p) ∷ batch_records (a.last_tx + 1) (fitting ps))
          ≡ a.file ++ batch_records a.last_tx (fitting (p ∷ ps)) =
        rw small refl in
      append_batch_front (append_one a p) ps (ground (arith, h, small))
      ∙ ap (λ f. f ++ batch_records (a.last_tx + 1) (fitting ps)) first
      ∙ append_assoc a.file ((a.last_tx + 1, p) ∷ []) (batch_records (a.last_tx + 1) (fitting ps))
      ∙ grown
  | inr large ↦
      let first : (append_one a p).file ≡ a.file = ground (arith, h, large) in
      let nothing : a.file ≡ a.file ++ batch_records a.last_tx (fitting (p ∷ ps)) =
        rw large (sym (append-nil a.file)) in
      append_batch_stuck (append_one a p) ps (ground (arith, large)) ∙ first ∙ nothing
]

answers_below :
    (v : Bool) (tx n : ℕ) (ps : List Bytes)
    → tx + length ps < n
    → All (λ x. x.tx < n) (answers v (ids_from tx ps))
answers_below v tx n [] lt = tt
answers_below v tx n (p ∷ ps) lt =
    (omega (arith, lt), answers_below v (tx + 1) n ps (omega (arith, lt)))

-- For a batch whose ids are below 2^64, on a file that takes every record: the requests are answered one
-- by one with consecutive uint64 ids after the last, all with one verdict, which is success exactly when
-- no payload is too large and the fsync succeeds; and the log gains, in order and under these ids, the
-- records before the first payload that is too large, also when the verdict is an error.
pub run_batch-logged :
    (s : Sequencer) (batch : List Bytes) (sync_ok : Bool)
    → s.next_tx + length batch < 2 ^ 64
    → ((run_batch s batch sync_ok).0
        ≡ answers (all_small batch && sync_ok) (ids_from s.next_tx batch))
      × All (λ x. x.tx < 2 ^ 64) (run_batch s batch sync_ok).0
      × ((run_batch s batch sync_ok).1.next_tx ≡ s.next_tx + length batch)
      × ((run_batch s batch sync_ok).1.log ≡ s.log ++ batch_records s.next_tx (fitting batch))
unfolding run_batch
run_batch-logged s batch sync_ok lt =
    let (told, next, grown) = run_batch_lem s batch sync_ok in
    let below : All (λ x. x.tx < 2 ^ 64)
        (answers (all_small batch && sync_ok) (ids_from s.next_tx batch)) =
      answers_below (all_small batch && sync_ok) s.next_tx (2 ^ 64) batch lt in
    (told, rw told below, next, append_batch_front (starting s) batch refl)
