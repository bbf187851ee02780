-- ===== src/Wal/Calls/Closing.antt =====
-- A Close that overlaps the answer of a commit.
use mathlib.Core.List.{Mem, mem-cons_self, mem-append_right}
use zadodb.Prelude.{
  ℕ, ◌+◌, ◌<◌, ◌≤◌, ◌≡◌, refl, ap, ◌∙◌, arith, update, nat_beq, leb, ◌&&◌, Bool, true, false,
}
use zadodb.Prelude.{none, some, [], ◌∷◌, ◌++◌, length}
use zadodb.Bytes.{Bytes}
use zadodb.Wal.Log.{max_record_len}
use zadodb.Wal.Sequencer.{Sequencer, run_batch, run_batch_lem, answers, ids_from, all_small}
use zadodb.Wal.Calls.{
  done, shut_out, calling, queued, blocked, returned, resting, appending, delivering, System,
  deliveries, taken, told, moves_to, sends, waits, gives_up, takes, collected, appends, delivers,
  closes, Reach, start, later,
}

at_self {ℓ} : {A : Type ℓ} (f : ℕ → A) (i : ℕ) (v : A) → update f i v i ≡ v
at_self f i v = let same : nat_beq i i ≡ true = ground arith in rw same refl

module _ (payload : ℕ → Bytes) (capacity : ℕ) (group : Bool) (max_batch : ℕ) where
  -- The one request of a batch of one is told its id, once the fsync succeeds.
  alone :
      (s : Sequencer) (i : ℕ)
      → length (payload i) ≤ max_record_len
      → (deliveries (i ∷ []) (run_batch s (payload i ∷ []) true).0 ≡ (i, done (s.next_tx + 1)) ∷ [])
        × ((run_batch s (payload i ∷ []) true).1.log ≡ s.log ++ ((s.next_tx + 1, payload i) ∷ []))
  alone s i fits =
      let (told_all, next, grown) = run_batch_lem s (payload i ∷ []) true in
      let small : leb (length (payload i)) max_record_len ≡ true = ground arith in
      let all : all_small (payload i ∷ []) ≡ true = ground (arith, small) in
      (
        ap (deliveries (i ∷ [])) told_all
            ∙ ap
                (λ t.
                  deliveries (i ∷ []) (answers (t && true) (ids_from s.next_tx (payload i ∷ []))))
                all,
        grown all,
      )

  -- The request reaches the appends, in both modes.
  appending_from :
      (a x : System) (i : ℕ) (g : Bool)
      → g ≡ group
      → Reach payload capacity group max_batch a (record x { runner = taken g i })
      → Reach payload capacity group max_batch a (record x { runner = appending (i ∷ []) })
  appending_from a x i true e before = later before (collected (i ∷ []) refl)
  appending_from a x i false e before = before

  -- While the sequencer is open and idle and no request is queued, a call that sends its request, whose
  -- record is not too large, can return ErrClosed although its record is in the log and synced: Close runs
  -- between the fsync, which succeeded, and the end of the call's last select. The answer with the
  -- transaction id then stays unread.
  pub committed-refused :
      (x : System) (i : ℕ)
      → x.callers i ≡ calling
      → x.runner ≡ resting
      → x.queue ≡ []
      → x.resp i ≡ none
      → 0 < capacity
      → length (payload i) ≤ max_record_len
      → (y : System) × Reach payload capacity group max_batch x y
        × (y.callers i ≡ returned shut_out)
        × (y.resp i ≡ some (done (x.seq.next_tx + 1)))
        × Mem (x.seq.next_tx + 1, payload i) y.seq.log
  committed-refused x i at rest empty quiet room fits =
      let (said, grown) = alone x.seq i fits in
      let b = run_batch x.seq (payload i ∷ []) true in
      let x1 : System = record (moves_to x i queued) { queue = i ∷ [] } in
      let x2 : System = moves_to x1 i blocked in
      let x3 : System = record x2 { queue = [] } in
      let x5 : System = record x3 {
        seq = b.1;
        runner = delivering ((i, done (x.seq.next_tx + 1)) ∷ []);
      } in
      let x6 : System = record (told x5 i (done (x.seq.next_tx + 1))) { runner = delivering [] } in
      let x7 : System = record x6 { seq = record x6.seq { closed = true } } in
      let r1 : Reach payload capacity group max_batch x x1 =
        rw (← ap (λ q. q ++ (i ∷ [])) empty) (later start (sends i at (rw empty room))) in
      let r2 : Reach payload capacity group max_batch x x2 =
        later r1 (waits i (at_self x.callers i queued) quiet) in
      let r3 : Reach payload capacity group max_batch x (record x3 { runner = taken group i }) =
        later r2 (takes i [] rest refl) in
      let r4 = appending_from x x3 i group refl r3 in
      let r5 : Reach payload capacity group max_batch x x5 =
        rw (← said) (later r4 (appends (i ∷ []) true refl)) in
      let r6 : Reach payload capacity group max_batch x x6 =
        later r5 (delivers i (done (x.seq.next_tx + 1)) [] refl) in
      let r7 : Reach payload capacity group max_batch x x7 = later r6 closes in
      (
        moves_to x7 i (returned shut_out),
        later r7 (gives_up i (at_self x1.callers i blocked) refl),
        at_self x7.callers i (returned shut_out),
        at_self x5.resp i (some (done (x.seq.next_tx + 1))),
        rw grown (mem-append_right x.seq.log mem-cons_self),
      )
