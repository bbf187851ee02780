-- ===== src/Recovery/Appended.antt =====
-- internal/storage/wal/sequencer.go and internal/storage/recovery/recovery.go: the records of a batch behind
-- those of the log, as the replay sees them.
use zadodb.Prelude.{
  ℕ, suc, ◌+◌, ◌-◌, ◌<◌, ◌≤◌, ◌^◌, ltb, if◌then◌else◌, ◌≡◌, refl, sym, ap, ◌∙◌, arith, All,
  append_assoc, Bool-cases, inl, inr, true, false,
}
use zadodb.Prelude.{some, List, [], ◌∷◌, ◌++◌, length, length-append, take}
use zadodb.Bytes.{Bytes}
use zadodb.Bytes.Order.{bytes_eq}
use zadodb.Wal.{WalEntry, flatten}
use zadodb.Wal.Codec.{Codec}
use zadodb.Wal.Log.{Crc, LogRecord, frame}
use zadodb.Wal.Log.Frames.{IsRecord, length-frame}
use zadodb.Wal.Log.Crash.{frames, survivors}
use zadodb.Wal.Sequencer.{batch_records, all_small}
use zadodb.Recovery.Boot.{Logged, logged_none, logged_one, logged_old}
use zadodb.Recovery.Durable.{View}
use zadodb.Checkpoint.Deltas.{net}
use zadodb.Checkpoint.Built.{writes, newest}

-- The payloads of a batch are these entries, marshalled.
pub data Encoded (codec : Codec) : List WalEntry → List Bytes → Type 0 where
  encoded_none : Encoded codec [] []
  encoded_one :
      {xs : List WalEntry} {ps : List Bytes} (x : WalEntry) (p : Bytes)
      → codec.marshal x ≡ some p
      → Encoded codec xs ps
      → Encoded codec (x ∷ xs) (p ∷ ps)

-- The ids that the entries of a batch get, and the single writes that they make.
abbrev pub batch_entries : ℕ → List WalEntry → List (ℕ × WalEntry)
batch_entries tx [] = []
batch_entries tx (x ∷ xs) = (tx + 1, x) ∷ batch_entries (tx + 1) xs

abbrev pub batch_writes : List WalEntry → List WalEntry
batch_writes [] = []
batch_writes (x ∷ xs) = flatten x ++ batch_writes xs

pub newest-append : (rs qs : List LogRecord) (n : ℕ) → newest (rs ++ qs) n ≡ newest qs (newest rs n)
newest-append [] qs n = refl
newest-append ((tx, p) ∷ rs) qs n = newest-append rs qs _

pub newest-batch_records :
    (tx n : ℕ) (ps : List Bytes) → n ≤ tx → newest (batch_records tx ps) n ≤ tx + length ps
newest-batch_records tx n [] le = omega (arith, le)
newest-batch_records tx n (p ∷ ps) le =
    omega (
      arith,
      newest-batch_records (tx + 1) (if ltb n (tx + 1) then tx + 1 else n) ps (ground arith),
    )

pub batch_records-IsRecord :
    (tx : ℕ) (ps : List Bytes)
    → all_small ps ≡ true
    → tx + length ps < 2 ^ 64
    → All IsRecord (batch_records tx ps)
batch_records-IsRecord tx [] small lt = tt
batch_records-IsRecord tx (p ∷ ps) small lt =
    ((omega arith, ground arith), batch_records-IsRecord (tx + 1) ps (ground arith) (omega arith))

pub net-append :
    (xs ys : List WalEntry) (old : View) (key : Bytes)
    → net (xs ++ ys) old key ≡ net ys (net xs old) key
net-append [] ys old key = refl
net-append (x ∷ xs) ys old key = net-append xs ys _ key

pub writes-append : (xs ys : List (ℕ × WalEntry)) → writes (xs ++ ys) ≡ writes xs ++ writes ys
unfolding writes
writes-append [] ys = refl
writes-append ((tx, x) ∷ xs) ys =
    rw (writes-append xs ys) (sym (append_assoc (flatten x) (writes xs) (writes ys)))

pub writes-batch_entries :
    (tx : ℕ) (xs : List WalEntry) → writes (batch_entries tx xs) ≡ batch_writes xs
unfolding writes
writes-batch_entries tx [] = refl
writes-batch_entries tx (x ∷ xs) = ap (λ t. flatten x ++ t) (writes-batch_entries (tx + 1) xs)

pub Logged-append :
    (codec : Codec) (skip : ℕ) (rs qs : List LogRecord) (xs ys : List (ℕ × WalEntry))
    → Logged codec skip rs xs
    → Logged codec skip qs ys
    → Logged codec skip (rs ++ qs) (xs ++ ys)
Logged-append codec skip rs qs xs ys logged_none k = k
Logged-append codec skip rs qs xs ys (logged_one {rs = rs'} {xs = xs'} tx p x lt m more) k =
    logged_one tx p x lt m (Logged-append codec skip rs' qs xs' ys more k)
Logged-append codec skip rs qs xs ys (logged_old {rs = rs'} {xs = xs'} tx p le more) k =
    logged_old tx p le (Logged-append codec skip rs' qs xs' ys more k)

pub Logged-batch_records :
    (codec : Codec) (skip tx : ℕ) (xs : List WalEntry) (ps : List Bytes)
    → skip ≤ tx
    → Encoded codec xs ps
    → Logged codec skip (batch_records tx ps) (batch_entries tx xs)
Logged-batch_records codec skip tx xs ps le encoded_none = logged_none
Logged-batch_records codec skip tx xs ps le (encoded_one {xs = xs'} {ps = ps'} x p m more) =
    logged_one (tx + 1) p x (omega arith) m
      (Logged-batch_records codec skip (tx + 1) xs' ps' (omega arith) more)

pub length-Encoded :
    (codec : Codec) (xs : List WalEntry) (ps : List Bytes)
    → Encoded codec xs ps
    → length xs ≡ length ps
length-Encoded codec xs ps encoded_none = refl
length-Encoded codec xs ps (encoded_one {xs = xs'} {ps = ps'} x p m more) =
    ap suc (length-Encoded codec xs' ps' more)

-- A crash within a batch leaves the records of the requests before.
pub data Left (codec : Codec) (tx : ℕ) (xs : List WalEntry) (rs : List LogRecord) : Type 0 where
  left_some :
      (j : ℕ) (ps : List Bytes)
      → j ≤ length xs
      → Encoded codec (take j xs) ps
      → rs ≡ batch_records tx ps
      → Left codec tx xs rs

Left-cons :
    (codec : Codec) (tx : ℕ) (x : WalEntry) (xs : List WalEntry) (p : Bytes) (rs : List LogRecord)
    → codec.marshal x ≡ some p
    → Left codec (tx + 1) xs rs
    → Left codec tx (x ∷ xs) ((tx + 1, p) ∷ rs)
Left-cons codec tx x xs p rs m (left_some j ps le more e) =
    left_some (suc j) (p ∷ ps) (omega arith) (encoded_one x p m more) (ap (λ t. (tx + 1, p) ∷ t) e)

pub survivors-batch_records :
    (codec : Codec) (n tx : ℕ) (xs : List WalEntry) (ps : List Bytes)
    → Encoded codec xs ps
    → Left codec tx xs (survivors n (batch_records tx ps))
survivors-batch_records codec n tx xs ps encoded_none =
    left_some 0 [] (omega arith) encoded_none refl
survivors-batch_records codec n tx xs ps (encoded_one {xs = xs'} {ps = ps'} x p m more) =
    elim (Bool-cases (ltb n (24 + length p))) [
      | inl torn ↦ rw torn (left_some 0 [] (omega arith) encoded_none refl)
      | inr whole ↦ rw whole (
          Left-cons codec tx x xs' p _ m
            (survivors-batch_records codec (n - (24 + length p)) (tx + 1) xs' ps' more))
    ]

module _ (crc : Crc) where
  -- A crash behind the old records leaves them whole.
  pub survivors-append :
      (n : ℕ) (rs qs : List LogRecord)
      → length (frames crc rs) ≤ n
      → survivors n (rs ++ qs) ≡ rs ++ survivors (n - length (frames crc rs)) qs
  survivors-append n [] qs le = ap (λ m. survivors m qs) (omega arith)
  survivors-append n ((tx, p) ∷ rs) qs le =
      let total : length (frames crc ((tx, p) ∷ rs)) ≡ 24 + length p + length (frames crc rs) =
        omega (arith, length-append (frame crc tx p) (frames crc rs), length-frame crc tx p) in
      let whole : ltb n (24 + length p) ≡ false = ground arith in
      rw whole (
        ap (λ t. (tx, p) ∷ t)
          (survivors-append (n - (24 + length p)) rs qs (omega arith)
            ∙ ap (λ m. rs ++ survivors m qs) (omega arith)))
