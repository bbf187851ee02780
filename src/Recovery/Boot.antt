-- ===== src/Recovery/Boot.antt =====
-- A boot after a crash that cut the log anywhere.
use zadodb.Prelude.{
  ℕ, ◌-◌, ◌<◌, ◌≤◌, ltb, leb, nat_beq, if◌then◌else◌, Bool, true, false, inl, inr, ◌⊎◌, Bool-cases,
}
use zadodb.Prelude.{
  ◌≡◌, refl, sym, ap, ◌∙◌, arith, append_assoc, append-nil, All, Option, none, some, List, [], ◌∷◌,
  ◌++◌, length, take, take_all,
}
use zadodb.Bytes.{Bytes}
use zadodb.Wal.{
  WalEntry, wal_entry, op_put, op_delete, op_create_class, op_drop_class, op_batch, op_unknown, op,
  flatten,
}
use zadodb.Wal.Codec.{Codec}
use zadodb.Wal.Log.{Crc, LogRecord, ReadError, eof, corrupt, append, read_log}
use zadodb.Wal.Log.Frames.{IsRecord}
use zadodb.Wal.Log.Crash.{
  survivors, cut_end, frames, append-frames, read_log-cut, read_log-frames, survivors_front,
  survivors-IsRecord, record_len,
}
use zadodb.Idgen.{Generator}
use zadodb.Engine.{ok, Engine, commit}
use zadodb.Wal.Sequencer.{Sequencer}
use zadodb.Recovery.{
  ReplayedEntry, Replay, replay_record, replay_records, replayed_entries, observe_entries,
  replay_wal, replay_read, answer_replay, truncate_wal, apply_entry,
}

cut_end-clean : (n : ℕ) (rs : List LogRecord) → (cut_end n rs ≡ eof) ⊎ (cut_end n rs ≡ corrupt)
cut_end-clean n [] = inl refl
cut_end-clean n (r ∷ rs) = ground (arith, cut_end-clean (n - record_len r) rs)

answer_replay-clean :
    (z : ReadError) (n : ℕ) (r : Option Replay)
    → (z ≡ eof) ⊎ (z ≡ corrupt)
    → answer_replay z n r ≡ answer_replay eof n r
unfolding answer_replay
answer_replay-clean z n r (inl e) = rw e refl
answer_replay-clean z n none (inr e) = refl
answer_replay-clean z n (some r) (inr e) = rw e refl

All-snoc :
    (rs : List LogRecord) (r : LogRecord)
    → All IsRecord rs
    → IsRecord r
    → All IsRecord (rs ++ (r ∷ []))
All-snoc [] r h hr = (hr, tt)
All-snoc (x ∷ rs) r h hr = (h.0, All-snoc rs r h.1 hr)

module _ (crc : Crc) where
  -- Of a log of accepted records that a crash cut at byte n, `replay_wal` replays exactly the records
  -- that lie whole in the first n bytes, and reports their length as the durable offset.
  pub replay_wal-cut :
      (codec : Codec) (n skip : ℕ) (rs : List LogRecord) (g : Generator)
      → All IsRecord rs
      → n ≤ length (frames crc rs)
      → replay_wal codec crc (take n (frames crc rs)) skip g
        ≡ answer_replay eof
            (length (frames crc (survivors n rs)))
            (replay_records codec skip (survivors n rs) (record { out = []; max_tx = 0; gen = g }))
  unfolding replay_wal replay_read
  replay_wal-cut codec n skip rs g h le =
      ap (replay_read codec skip g) (read_log-cut crc n rs h le)
      ∙ answer_replay-clean (cut_end n rs) _ _ (cut_end-clean n rs)

  truncate_wal-take : (file : Bytes) (n : ℕ) → truncate_wal file n ≡ take n file
  unfolding truncate_wal
  truncate_wal-take file n = elim (Bool-cases (nat_beq (length file) n)) [
    | inl same ↦ rw (same, take_all file n (ground arith)) refl
    | inr less ↦ rw less
  ]

  pub truncate_wal-cut :
      (n : ℕ) (rs : List LogRecord)
      → n ≤ length (frames crc rs)
      → truncate_wal (take n (frames crc rs)) (length (frames crc (survivors n rs)))
        ≡ frames crc (survivors n rs)
  truncate_wal-cut n rs le = truncate_wal-take _ _ ∙ survivors_front crc n rs le

  -- The log that `truncate_wal` leaves after a crash at byte n holds the records that lie whole in the
  -- first n bytes and nothing else: a record appended after the boot is read back behind them.
  pub append-truncate_wal :
      (n : ℕ) (rs : List LogRecord) (r : LogRecord)
      → All IsRecord rs
      → IsRecord r
      → n ≤ length (frames crc rs)
      → (file : Bytes) × (append crc
            (truncate_wal (take n (frames crc rs)) (length (frames crc (survivors n rs))))
            r.0
            r.1
          ≡ some file)
        × (read_log crc file
            ≡ some (record {
              records = survivors n rs ++ (r ∷ []);
              ended = eof;
              durable = length file;
            }))
  append-truncate_wal n rs r h hr le =
      let kept = survivors n rs in
      let file = frames crc (kept ++ (r ∷ [])) in
      let cut : truncate_wal (take n (frames crc rs)) (length (frames crc kept)) ≡ frames crc kept =
        truncate_wal-cut n rs le in
      (
        file,
        rw cut (append-frames crc kept r hr),
        read_log-frames crc (kept ++ (r ∷ [])) (All-snoc kept r (survivors-IsRecord n rs h) hr),
      )

-- Log records, and the entries that those behind `skip` hold.
pub data Logged (codec : Codec) (skip : ℕ) : List LogRecord → List (ℕ × WalEntry) → Type 0 where
  logged_none : Logged codec skip [] []
  logged_one :
      {rs : List LogRecord} {xs : List (ℕ × WalEntry)} (tx : ℕ) (p : Bytes) (x : WalEntry)
      → skip < tx
      → codec.marshal x ≡ some p
      → Logged codec skip rs xs
      → Logged codec skip ((tx, p) ∷ rs) ((tx, x) ∷ xs)
  logged_old :
      {rs : List LogRecord} {xs : List (ℕ × WalEntry)} (tx : ℕ) (p : Bytes)
      → tx ≤ skip
      → Logged codec skip rs xs
      → Logged codec skip ((tx, p) ∷ rs) xs

-- The single writes that transactions make, in order.
unfoldable pub expand : List (ℕ × WalEntry) → List ReplayedEntry
expand [] = []
expand ((tx, x) ∷ xs) = replayed_entries tx (flatten x) ++ expand xs

replay_record-Logged :
    (codec : Codec) (skip tx : ℕ) (p : Bytes) (x : WalEntry) (r : Replay)
    → skip < tx
    → codec.marshal x ≡ some p
    → (r' : Replay) × (replay_record codec skip (tx, p) r ≡ some r')
      × (r'.out ≡ r.out ++ replayed_entries tx (flatten x))
unfolding replay_record
replay_record-Logged codec skip tx p x r lt m =
    let later : leb tx skip ≡ false = ground arith in
    let r' : Replay = record {
      out = r.out ++ replayed_entries tx (flatten x);
      max_tx = if ltb r.max_tx tx then tx else r.max_tx;
      gen = observe_entries (flatten x) r.gen;
    } in
    (r', ground (arith, codec.unmarshal-marshal x p m), refl)

replay_record-old :
    (codec : Codec) (skip tx : ℕ) (p : Bytes) (r : Replay)
    → tx ≤ skip
    → replay_record codec skip (tx, p) r
      ≡ some (record r { max_tx = if ltb r.max_tx tx then tx else r.max_tx })
unfolding replay_record
replay_record-old codec skip tx p r le = ground arith

replay_step :
    (codec : Codec) (skip : ℕ) (l : LogRecord) (rs : List LogRecord) (r r1 : Replay)
    → replay_record codec skip l r ≡ some r1
    → replay_records codec skip (l ∷ rs) r ≡ replay_records codec skip rs r1
unfolding replay_records
replay_step codec skip l rs r r1 h = ground (arith, h)

-- Every entry that was marshalled into the log behind the checkpoint is replayed, batches flattened, in
-- log order and under its transaction id.
pub replay_records-Logged :
    (codec : Codec) (skip : ℕ) (rs : List LogRecord) (xs : List (ℕ × WalEntry)) (r : Replay)
    → Logged codec skip rs xs
    → (r' : Replay) × (replay_records codec skip rs r ≡ some r') × (r'.out ≡ r.out ++ expand xs)
unfolding expand
replay_records-Logged codec skip rs xs r logged_none =
    (r, unfold replay_records in refl, sym (append-nil r.out))
replay_records-Logged codec skip rs xs r (logged_one {rs = rs'} {xs = xs'} tx p x lt m more) =
    let (r1, one, out1) = replay_record-Logged codec skip tx p x r lt m in
    let (r', rest, out') = replay_records-Logged codec skip rs' xs' r1 more in
    (
      r',
      replay_step codec skip (tx, p) rs' r r1 one ∙ rest,
      out'
          ∙ ap (λ o. o ++ expand xs') out1
          ∙ append_assoc r.out (replayed_entries tx (flatten x)) (expand xs'),
    )
replay_records-Logged codec skip rs xs r (logged_old {rs = rs'} {xs = xs'} tx p le more) =
    let r1 : Replay = record r { max_tx = if ltb r.max_tx tx then tx else r.max_tx } in
    let (r', rest, out') = replay_records-Logged codec skip rs' xs' r1 more in
    (
      r',
      replay_step codec skip (tx, p) rs' r r1 (replay_record-old codec skip tx p r le) ∙ rest,
      out',
    )

-- A write that is single and, if it deletes, has no data, as every method of the engine logs it.
abbrev pub IsSingle : WalEntry → Bool → Type 0
IsSingle (wal_entry op_put p c i d t s) deleted = deleted ≡ false
IsSingle (wal_entry op_create_class p c i d t s) deleted = deleted ≡ false
IsSingle (wal_entry op_delete p c i d t s) deleted = (deleted ≡ true) × (d ≡ [])
IsSingle (wal_entry op_drop_class p c i d t s) deleted = (deleted ≡ true) × (d ≡ [])
IsSingle (wal_entry op_batch p c i d t s) deleted = ⊥
IsSingle (wal_entry (op_unknown n) p c i d t s) deleted = ⊥

-- What `applyReplay` makes of a replayed write is the overlay that `submit` left when the write was
-- committed, transaction id included.
pub apply_entry-commit :
    (x : WalEntry) (deleted : Bool) (tx : ℕ) (e : Engine) (s : Sequencer)
    → IsSingle x deleted
    → (commit x deleted e (ok tx, s)).1.overlay
      ≡ (apply_entry
          (op x)
          (record { tx = tx; entry = x })
          (record { overlay = e.overlay; classes = e.classes })).overlay
unfolding commit apply_entry
apply_entry-commit (wal_entry op_put p c i d t s) deleted tx e q h = rw h refl
apply_entry-commit (wal_entry op_create_class p c i d t s) deleted tx e q h = rw h refl
apply_entry-commit (wal_entry op_delete p c i d t s) deleted tx e q (h, k) = rw (h, k) refl
apply_entry-commit (wal_entry op_drop_class p c i d t s) deleted tx e q (h, k) = rw (h, k) refl
apply_entry-commit (wal_entry op_batch p c i d t s) deleted tx e q h = absurd h
apply_entry-commit (wal_entry (op_unknown n) p c i d t s) deleted tx e q h = absurd h
