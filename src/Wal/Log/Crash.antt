-- ===== src/Wal/Log/Crash.antt =====
-- A log of records that a crash cuts anywhere: what the boot-time loop reads, and what is appended after.
use zadodb.Prelude.{ℕ, zero, suc, ◌+◌, ◌-◌, ◌<◌, ◌≤◌, ltb, if◌then◌else◌}
use zadodb.Prelude.{◌≡◌, refl, sym, ap, ◌∙◌, arith, append_assoc, append-nil, All}
use zadodb.Prelude.{some, List, [], ◌∷◌, ◌++◌, length, length-append, take}
use zadodb.Prelude.{
  take_append_over, take_append_within, take_all, length-take, Bool-cases, inl, inr,
}
use zadodb.Bytes.{Bytes}
use zadodb.Wal.Log.{Crc, LogRecord, Reader, ReadError, eof, got, stop, ReadResult}
use zadodb.Wal.Log.{frame, append, next, read_loop, read_log}
use zadodb.Wal.Log.Frames.{IsRecord, torn_end, length-frame, next-frame, next-torn}

abbrev pub record_len : LogRecord → ℕ
record_len (tx, p) = 24 + length p

-- The records that lie whole in the first `n` bytes, and how the reader stops behind them.
abbrev pub survivors : ℕ → List LogRecord → List LogRecord
survivors n [] = []
survivors n (r ∷ rs) =
    let rest = survivors (n - record_len r) rs in if ltb n (record_len r) then [] else r ∷ rest

abbrev pub cut_end : ℕ → List LogRecord → ReadError
cut_end n [] = eof
cut_end n (r ∷ rs) =
    let rest = cut_end (n - record_len r) rs in if ltb n (record_len r) then torn_end n else rest

module _ (crc : Crc) where
  -- The bytes of a log to which these records were appended.
  abbrev pub frames : List LogRecord → Bytes
  frames [] = []
  frames ((tx, p) ∷ rs) = frame crc tx p ++ frames rs

  -- Appending an accepted record to the log of some records gives the log of these records with it at
  -- their end.
  pub append-frames :
      (rs : List LogRecord) (r : LogRecord)
      → IsRecord r
      → append crc (frames rs) r.0 r.1 ≡ some (frames (rs ++ (r ∷ [])))
  unfolding append
  append-frames rs r h = ground (arith, frames_snoc rs r)
    where
      frames_snoc :
          (rs : List LogRecord) (r : LogRecord)
          → frames rs ++ frame crc r.0 r.1 ≡ frames (rs ++ (r ∷ []))
      frames_snoc [] r = sym (append-nil _)
      frames_snoc ((tx, p) ∷ rs) r =
          append_assoc (frame crc tx p) (frames rs) _
          ∙ ap (λ f. frame crc tx p ++ f) (frames_snoc rs r)

  loop_stop :
      (fuel : ℕ) (r : Reader) (e : ReadError)
      → next crc r ≡ stop e
      → read_loop crc (suc fuel) r ≡ some (record { records = []; ended = e; durable = r.offset })
  unfolding read_loop
  loop_stop fuel r e h = ground arith

  loop_got :
      (fuel : ℕ) (r r' : Reader) (x : LogRecord) (res : ReadResult)
      → next crc r ≡ got x r'
      → read_loop crc fuel r' ≡ some res
      → read_loop crc (suc fuel) r ≡ some (record res { records = x ∷ res.records })
  unfolding read_loop
  loop_got fuel r r' x res h k = ground arith

  next_at_end : (off : ℕ) → next crc (record { rest = []; offset = off }) ≡ stop eof
  unfolding next
  next_at_end off = refl

  read_loop-cut :
      (fuel off n : ℕ) (rs : List LogRecord)
      → All IsRecord rs
      → n ≤ length (frames rs)
      → n < fuel
      → read_loop crc fuel (record { rest = take n (frames rs); offset = off })
        ≡ some (record {
          records = survivors n rs;
          ended = cut_end n rs;
          durable = off + length (frames (survivors n rs));
        })
  read_loop-cut zero off n rs h le lt = absurd (omega arith)
  read_loop-cut (suc fuel) off n [] h le lt =
      rw (take_all {A = ℕ} [] n (omega arith))
        (loop_stop fuel _ eof (next_at_end off) ∙ ground arith)
  read_loop-cut (suc fuel) off n ((tx, p) ∷ rs) (hr, h) le lt =
      elim (Bool-cases (ltb n (24 + length p))) [
        | inl torn ↦
            let within : take n (frames ((tx, p) ∷ rs)) ≡ take n (frame crc tx p) =
              take_append_within (frame crc tx p) (frames rs) n
                (ground (arith, length-frame crc tx p)) in
            rw (within, torn)
              (loop_stop fuel _ (torn_end n) (next-torn crc tx off n p hr (ground arith))
                ∙ ground arith)
        | inr whole ↦
            let over : take n (frames ((tx, p) ∷ rs))
                ≡ frame crc tx p ++ take (n - (24 + length p)) (frames rs) =
              take_append_over (frame crc tx p) (frames rs) n
                (ground (arith, length-frame crc tx p))
              ∙ rw (length-frame crc tx p) in
            rw (over, whole)
              (loop_got fuel _ _ (tx, p) _ (next-frame crc tx off p _ hr)
                  (read_loop-cut fuel (off + (24 + length p)) (n - (24 + length p)) rs h
                    (ground
                      (arith, length-append (frame crc tx p) (frames rs), length-frame crc tx p))
                    (ground arith))
                ∙ ground (
                  arith,
                  length-append (frame crc tx p) (frames (survivors (n - (24 + length p)) rs)),
                  length-frame crc tx p,
                ))
      ]

  -- For every list of accepted records and every n up to the size of their log, reading the first n
  -- bytes returns exactly the records that lie whole in them, in order, ends by EOF or ErrCorrupt
  -- as the cut falls, and reports the byte length of those records as the durable offset.
  pub read_log-cut :
      (n : ℕ) (rs : List LogRecord)
      → All IsRecord rs
      → n ≤ length (frames rs)
      → read_log crc (take n (frames rs))
        ≡ some (record {
          records = survivors n rs;
          ended = cut_end n rs;
          durable = length (frames (survivors n rs));
        })
  unfolding read_log
  read_log-cut n rs h le =
      read_loop-cut (suc (length (take n (frames rs)))) 0 n rs h le
        (omega (arith, length-take n (frames rs)))
      ∙ ground arith

  -- Of a log that a crash cut at byte n, the first bytes up to the durable offset are the log of the
  -- records that lie whole in the first n bytes.
  pub survivors_front :
      (n : ℕ) (rs : List LogRecord)
      → n ≤ length (frames rs)
      → take (length (frames (survivors n rs))) (take n (frames rs)) ≡ frames (survivors n rs)
  survivors_front n [] le = refl
  survivors_front n ((tx, p) ∷ rs) le = elim (Bool-cases (ltb n (24 + length p))) [
    | inl torn ↦ rw torn
    | inr whole ↦
        let m : ℕ = n - (24 + length p) in
        let S : Bytes = frames (survivors m rs) in
        let over : take n (frames ((tx, p) ∷ rs)) ≡ frame crc tx p ++ take m (frames rs) =
          take_append_over (frame crc tx p) (frames rs) n (ground (arith, length-frame crc tx p))
          ∙ rw (length-frame crc tx p) in
        let total : length (frame crc tx p ++ S) ≡ length (frame crc tx p) + length S =
          length-append (frame crc tx p) S in
        let less : length (frame crc tx p ++ S) - length (frame crc tx p) ≡ length S =
          omega arith in
        rw (over, whole)
          (take_append_over (frame crc tx p) (take m (frames rs)) _ (omega arith)
            ∙ rw less (
                ap (λ r. frame crc tx p ++ r)
                  (survivors_front m rs (
                    ground
                      (arith, length-append (frame crc tx p) (frames rs), length-frame crc tx p)))))
  ]

  -- Nothing is lost of a log that is whole.
  pub survivors_all : (rs : List LogRecord) → survivors (length (frames rs)) rs ≡ rs
  survivors_all [] = refl
  survivors_all ((tx, p) ∷ rs) =
      let total : length (frame crc tx p ++ frames rs) ≡ 24 + length p + length (frames rs) =
        omega (arith, length-append (frame crc tx p) (frames rs), length-frame crc tx p) in
      let less : 24 + length p + length (frames rs) - (24 + length p) ≡ length (frames rs) =
        omega arith in
      rw (total, less, survivors_all rs) (ground arith)

  pub cut_end_all : (rs : List LogRecord) → cut_end (length (frames rs)) rs ≡ eof
  cut_end_all [] = refl
  cut_end_all ((tx, p) ∷ rs) =
      let total : length (frame crc tx p ++ frames rs) ≡ 24 + length p + length (frames rs) =
        omega (arith, length-append (frame crc tx p) (frames rs), length-frame crc tx p) in
      let less : 24 + length p + length (frames rs) - (24 + length p) ≡ length (frames rs) =
        omega arith in
      rw (total, less, cut_end_all rs) (ground arith)

  -- The log of accepted records is read back whole: the same records, ended by EOF, with its length as
  -- the durable offset.
  pub read_log-frames :
      (rs : List LogRecord)
      → All IsRecord rs
      → read_log crc (frames rs)
        ≡ some (record { records = rs; ended = eof; durable = length (frames rs) })
  read_log-frames rs h =
      ap (read_log crc) (sym (take_all (frames rs) _ (omega arith)))
      ∙ read_log-cut (length (frames rs)) rs h (omega arith)
      ∙ rw (survivors_all rs, cut_end_all rs)

pub survivors-IsRecord :
    (n : ℕ) (rs : List LogRecord) → All IsRecord rs → All IsRecord (survivors n rs)
survivors-IsRecord n [] h = tt
survivors-IsRecord n (r ∷ rs) h = ground (arith, survivors-IsRecord (n - record_len r) rs h.1)
