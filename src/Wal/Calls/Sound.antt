-- ===== src/Wal/Calls/Sound.antt =====
-- Every call that is acknowledged has a record in the log under the id that it is told, and no id is told
-- to two calls.
use mathlib.Core.List.{Mem, mem-cons_self, mem-cons_of_mem, mem-append_left, mem-append_right}
use zadodb.Prelude.{
  ℕ, suc, ◌+◌, ◌-◌, ◌<◌, ◌≤◌, ◌≡◌, refl, sym, ap, ◌∙◌, arith, if◌then◌else◌, leb, nat_beq, ◌&&◌,
  All, Bool, true, false, Bool-cases, inl, inr, append-nil, append_assoc,
}
use zadodb.Prelude.{some, List, [], ◌∷◌, ◌++◌, length, map, get_or}
use zadodb.Bytes.{Bytes}
use zadodb.Wal.Log.{LogRecord, max_record_len}
use zadodb.Wal.Sequencer.{
  Sequencer, Appending, append_one, append_batch, run_batch, run_batch_lem, answers, ids_from,
  batch_records, all_small,
}
use zadodb.Wal.Calls.{
  Reply, done, failed, shut_out, Caller, calling, queued, blocked, returned, Runner, resting,
  collecting, appending, delivering, draining, stopped, System, deliveries, taken, told, moves_to,
  Step, sends, turned_away, picks, waits, gets, gives_up, takes, collects, collected, appends,
  delivers, delivered, rotates, closes, drains, refuses, finishes, Reach, start, later, created,
}

append_batch-grows :
    (a : Appending) (ps : List Bytes)
    → (qs : List LogRecord) × ((append_batch a ps).file ≡ a.file ++ qs)
unfolding append_batch append_one
append_batch-grows a [] = ([], sym (append-nil a.file))
append_batch-grows a (p ∷ ps) =
    let (qs, rest) = append_batch-grows (append_one a p) ps in
    elim (Bool-cases (a.fine && leb (length p) max_record_len)) [
      | inl fine ↦ (
        (a.last_tx + 1, p) ∷ qs,
        rest
            ∙ ap (λ t. (if t then a.file ++ ((a.last_tx + 1, p) ∷ []) else a.file) ++ qs) fine
            ∙ append_assoc a.file ((a.last_tx + 1, p) ∷ []) qs,
      )
      | inr bad ↦ (
        qs,
        rest ∙ ap (λ t. (if t then a.file ++ ((a.last_tx + 1, p) ∷ []) else a.file) ++ qs) bad,
      )
    ]

run_batch-keeps :
    (r : LogRecord) (retired : List LogRecord) (s : Sequencer) (ps : List Bytes) (sync_ok : Bool)
    → Mem r (retired ++ s.log)
    → Mem r (retired ++ (run_batch s ps sync_ok).1.log)
unfolding run_batch
run_batch-keeps r retired s ps sync_ok m =
    let (qs, grown) =
      append_batch-grows (record { file = s.log; tx_ids = []; last_tx = s.next_tx; fine = true })
        ps in
    rw (grown, ← append_assoc retired s.log qs) (mem-append_left qs m)

module _ (payload : ℕ → Bytes) where
  -- What a reply says: its id was given to this call, whose record was appended under it.
  abbrev Earned : (ℕ → ℕ) → ℕ → List LogRecord → ℕ → Reply → Type 0
  Earned own last rs i (done tx) = (tx ≤ last) × (own tx ≡ i) × Mem (tx, payload i) rs
  Earned own last rs i (failed tx) = Unit
  Earned own last rs i shut_out = Unit

  abbrev Ended : (ℕ → ℕ) → ℕ → List LogRecord → ℕ → Caller → Type 0
  Ended own last rs i (returned r) = Earned own last rs i r
  Ended own last rs i calling = Unit
  Ended own last rs i queued = Unit
  Ended own last rs i blocked = Unit

  abbrev Owed : (ℕ → ℕ) → ℕ → List LogRecord → Runner → Type 0
  Owed own last rs (delivering l) = All (λ p. Earned own last rs p.0 p.1) l
  Owed own last rs resting = Unit
  Owed own last rs (collecting b) = Unit
  Owed own last rs (appending b) = Unit
  Owed own last rs draining = Unit
  Owed own last rs stopped = Unit

  abbrev pub all_records : System → List LogRecord
  all_records x = x.retired ++ x.seq.log

  pub record Sound (x : System) : Type 0 where
    pub own : ℕ → ℕ
    pub resp :
        (i : ℕ) (r : Reply) → x.resp i ≡ some r → Earned own x.seq.next_tx (all_records x) i r
    pub callers : (i : ℕ) → Ended own x.seq.next_tx (all_records x) i (x.callers i)
    pub runner : Owed own x.seq.next_tx (all_records x) x.runner

  Sound-created : (initial : ℕ) → Sound (created initial)
  Sound-created initial = record {
    own = λ t. 0;
    resp = λ i r e. absurd (ground (arith, e));
    callers = λ i. tt;
    runner = tt;
  }

  -- More ids and records take nothing back.
  module _ (own own' : ℕ → ℕ) (last last' : ℕ) (rs rs' : List LogRecord)
      (same : (t : ℕ) → t ≤ last → own' t ≡ own t) (le : last ≤ last')
      (more : (r : LogRecord) → Mem r rs → Mem r rs') where
    Earned-more : (i : ℕ) (r : Reply) → Earned own last rs i r → Earned own' last' rs' i r
    Earned-more i (done tx) (within, mine, there) =
        (omega arith, same tx within ∙ mine, more (tx, payload i) there)
    Earned-more i (failed tx) h = tt
    Earned-more i shut_out h = tt

    Ended-more : (i : ℕ) (c : Caller) → Ended own last rs i c → Ended own' last' rs' i c
    Ended-more i (returned r) h = Earned-more i r h
    Ended-more i calling h = tt
    Ended-more i queued h = tt
    Ended-more i blocked h = tt

    All-more :
        (l : List (ℕ × Reply))
        → All (λ p. Earned own last rs p.0 p.1) l
        → All (λ p. Earned own' last' rs' p.0 p.1) l
    All-more [] h = tt
    All-more ((i, r) ∷ l) h = (Earned-more i r h.0, All-more l h.1)

    Owed-more : (q : Runner) → Owed own last rs q → Owed own' last' rs' q
    Owed-more (delivering l) h = All-more l h
    Owed-more resting h = tt
    Owed-more (collecting b) h = tt
    Owed-more (appending b) h = tt
    Owed-more draining h = tt
    Owed-more stopped h = tt

  -- A call moves on.
  moves_to-Sound :
      (x : System) (i : ℕ) (c : Caller) (q : List ℕ) (w : Sound x)
      → Ended w.own x.seq.next_tx (all_records x) i c
      → Sound (record (moves_to x i c) { queue = q })
  moves_to-Sound x i c q w new = record {
    own = w.own;
    resp = w.resp;
    callers = λ k. elim (Bool-cases (nat_beq k i)) [
      | inl same ↦ let here : i ≡ k = ground (arith, same) in rw same (subst_caller k here)
      | inr other ↦ rw other (w.callers k)
    ];
    runner = w.runner;
  }
    where
      subst_caller : (k : ℕ) → i ≡ k → Ended w.own x.seq.next_tx (all_records x) k c
      subst_caller k here = rw (← here) new

  -- `run` moves on.
  turns-Sound :
      (x : System) (q : List ℕ) (r : Runner) (w : Sound x)
      → Owed w.own x.seq.next_tx (all_records x) r
      → Sound (record x { queue = q; runner = r })
  turns-Sound x q r w new = record { own = w.own; resp = w.resp; callers = w.callers; runner = new }

  told-Sound :
      (x : System) (i : ℕ) (r : Reply) (q : List ℕ) (n : Runner) (w : Sound x)
      → Earned w.own x.seq.next_tx (all_records x) i r
      → Owed w.own x.seq.next_tx (all_records x) n
      → Sound (record (told x i r) { queue = q; runner = n })
  told-Sound x i r q n w new rest = record {
    own = w.own;
    resp = λ k s e. elim (Bool-cases (nat_beq k i)) [
      | inl same ↦
          let here : i ≡ k = ground (arith, same) in
          let said : r ≡ s = ground (arith, same, e) in rw (← here, ← said) new
      | inr other ↦ w.resp k s (ground (arith, other, e))
    ];
    callers = w.callers;
    runner = rest;
  }

  deliveries-Earned :
      (own : ℕ → ℕ) (last : ℕ) (rs : List LogRecord) (b : List ℕ) (tx : ℕ)
      → ((k : ℕ) → k < length b → own (tx + 1 + k) ≡ get_or b k 0)
      → tx + length b ≤ last
      → ((r : LogRecord) → Mem r (batch_records tx (map payload b)) → Mem r rs)
      → All
          (λ p. Earned own last rs p.0 p.1)
          (deliveries b (answers true (ids_from tx (map payload b))))
  deliveries-Earned own last rs [] tx mine le there = tt
  deliveries-Earned own last rs (i ∷ b) tx mine le there = (
    (
      omega arith,
      ap own (omega arith) ∙ mine 0 (omega arith),
      there (tx + 1, payload i) mem-cons_self,
    ),
    deliveries-Earned own last rs b (tx + 1)
        (λ k lt. ap own (omega arith) ∙ mine (suc k) (omega arith)) (omega arith)
        (λ r m. there r (mem-cons_of_mem (tx + 1, payload i) m)),
  )

  deliveries-failed :
      (own : ℕ → ℕ) (last : ℕ) (rs : List LogRecord) (b : List ℕ) (tx : ℕ)
      → All
          (λ p. Earned own last rs p.0 p.1)
          (deliveries b (answers false (ids_from tx (map payload b))))
  deliveries-failed own last rs [] tx = tt
  deliveries-failed own last rs (i ∷ b) tx = (tt, deliveries-failed own last rs b (tx + 1))

  -- The owner of an id once the calls of a batch got theirs.
  abbrev with_batch : (ℕ → ℕ) → ℕ → List ℕ → ℕ → ℕ
  with_batch own last b t = if leb t last then own t else get_or b (t - last - 1) 0

  length-map : (b : List ℕ) → length (map payload b) ≡ length b
  length-map [] = refl
  length-map (i ∷ b) = ap suc (length-map b)

  -- The replies of a batch.
  batch-Earned :
      (s : Sequencer) (retired : List LogRecord) (own : ℕ → ℕ) (b : List ℕ) (sync_ok : Bool)
      → All
          (λ p.
            Earned
              (with_batch own s.next_tx b)
              (run_batch s (map payload b) sync_ok).1.next_tx
              (retired ++ (run_batch s (map payload b) sync_ok).1.log)
              p.0
              p.1)
          (deliveries b (run_batch s (map payload b) sync_ok).0)
  batch-Earned s retired own b sync_ok =
      let (answered, next, grown) = run_batch_lem s (map payload b) sync_ok in
      elim (Bool-cases (all_small (map payload b) && sync_ok)) [
        | inl fine ↦
            let small : all_small (map payload b) ≡ true = ground (arith, fine) in
            rw (answered, fine)
              (deliveries-Earned (with_batch own s.next_tx b) _ _ b s.next_tx
                (λ k lt.
                  let late : leb (s.next_tx + 1 + k) s.next_tx ≡ false = ground arith in
                  rw late (ap (λ n. get_or b n 0) (omega arith)))
                (omega (arith, next, length-map b))
                (λ r m. mem-append_right retired (rw (grown small) (mem-append_right s.log m))))
        | inr bad ↦ rw (answered, bad) (deliveries-failed _ _ _ b s.next_tx)
      ]

  appends-Sound :
      (x : System) (b : List ℕ) (sync_ok : Bool)
      → Sound x
      → Sound (record x {
        seq = (run_batch x.seq (map payload b) sync_ok).1;
        runner = delivering (deliveries b (run_batch x.seq (map payload b) sync_ok).0);
      })
  appends-Sound x b sync_ok w =
      let (answered, next, grown) = run_batch_lem x.seq (map payload b) sync_ok in
      let own' = with_batch w.own x.seq.next_tx b in
      let more : (r : LogRecord)
          → Mem r (all_records x)
          → Mem r (x.retired ++ (run_batch x.seq (map payload b) sync_ok).1.log) =
        λ r m. run_batch-keeps r x.retired x.seq (map payload b) sync_ok m in
      let same : (t : ℕ) → t ≤ x.seq.next_tx → own' t ≡ w.own t = λ t le. ground (arith, le) in
      record {
        own = own';
        resp = λ i r e.
            Earned-more w.own own' x.seq.next_tx _ (all_records x) _ same (omega (arith, next)) more
              i r (w.resp i r e);
        callers = λ i.
            Ended-more w.own own' x.seq.next_tx _ (all_records x) _ same (omega (arith, next)) more
              i (x.callers i) (w.callers i);
        runner = batch-Earned x.seq x.retired w.own b sync_ok;
      }

  module _ (capacity : ℕ) (group : Bool) (max_batch : ℕ) where
    taken-Owed :
        (own : ℕ → ℕ) (last : ℕ) (rs : List LogRecord) (i : ℕ) (g : Bool)
        → Owed own last rs (taken g i)
    taken-Owed own last rs i true = tt
    taken-Owed own last rs i false = tt

    Step-Sound : (x y : System) → Sound x → Step payload capacity group max_batch x y → Sound y
    Step-Sound x y w (sends i e lt) = moves_to-Sound x i queued (x.queue ++ (i ∷ [])) w tt
    Step-Sound x y w (turned_away i e shut) = moves_to-Sound x i (returned shut_out) x.queue w tt
    Step-Sound x y w (picks i r e got) = moves_to-Sound x i (returned r) x.queue w (w.resp i r got)
    Step-Sound x y w (waits i e none_yet) = moves_to-Sound x i blocked x.queue w tt
    Step-Sound x y w (gets i r e got) = moves_to-Sound x i (returned r) x.queue w (w.resp i r got)
    Step-Sound x y w (gives_up i e shut) = moves_to-Sound x i (returned shut_out) x.queue w tt
    Step-Sound x y w (takes i q e has) =
        turns-Sound x q (taken group i) w (taken-Owed w.own x.seq.next_tx (all_records x) i group)
    Step-Sound x y w (collects b i q e lt has) = turns-Sound x q (collecting (b ++ (i ∷ []))) w tt
    Step-Sound x y w (collected b e) = turns-Sound x x.queue (appending b) w tt
    Step-Sound x y w (appends b sync_ok e) = appends-Sound x b sync_ok w
    Step-Sound x y w (delivers i r more e) =
        let owed : Owed w.own x.seq.next_tx (all_records x) (delivering ((i, r) ∷ more)) =
          rw (← ap (λ q. Owed w.own x.seq.next_tx (all_records x) q) e) w.runner in
        told-Sound x i r x.queue (delivering more) w owed.0 owed.1
    Step-Sound x y w (delivered e) = turns-Sound x x.queue resting w tt
    Step-Sound x y w (rotates e) =
        let same : (x.retired ++ x.seq.log) ++ [] ≡ x.retired ++ x.seq.log =
          append-nil (x.retired ++ x.seq.log) in
        record {
          own = w.own;
          resp = λ i r h. rw same (w.resp i r h);
          callers = λ i. rw same (w.callers i);
          runner = rw e tt;
        }
    Step-Sound x y w closes = record {
      own = w.own;
      resp = w.resp;
      callers = w.callers;
      runner = w.runner;
    }
    Step-Sound x y w (drains e shut) = turns-Sound x x.queue draining w tt
    Step-Sound x y w (refuses i q e has) = told-Sound x i shut_out q x.runner w tt w.runner
    Step-Sound x y w (finishes e none_left) = turns-Sound x x.queue stopped w tt

    Reach-Sound :
        (initial : ℕ) (y : System)
        → Reach payload capacity group max_batch (created initial) y
        → Sound y
    Reach-Sound initial y start = Sound-created initial
    Reach-Sound initial y (later {y = x} before step) =
        Step-Sound x y (Reach-Sound initial x before) step

    acknowledged_Sound :
        (y : System) (i tx : ℕ) (w : Sound y)
        → y.callers i ≡ returned (done tx)
        → (tx ≤ y.seq.next_tx) × (w.own tx ≡ i) × Mem (tx, payload i) (all_records y)
    acknowledged_Sound y i tx w e =
        rw (← ap (λ c. Ended w.own y.seq.next_tx (all_records y) i c) e) (w.callers i)

    -- Whatever the calls of Submit, the run loop, rotations and Close do, and in whatever order: a call
    -- that returned a transaction id without an error has its own payload in the log, or in a log that
    -- was rotated away, under this id, and no other call returned this id without an error.
    pub acknowledged-logged :
        (initial : ℕ) (y : System) (i tx : ℕ)
        → Reach payload capacity group max_batch (created initial) y
        → y.callers i ≡ returned (done tx)
        → Mem (tx, payload i) (y.retired ++ y.seq.log)
          × ((j : ℕ) → y.callers j ≡ returned (done tx) → j ≡ i)
    acknowledged-logged initial y i tx before e =
        let w = Reach-Sound initial y before in
        let (within, mine, there) = acknowledged_Sound y i tx w e in
        (there, λ j f. sym (acknowledged_Sound y j tx w f).1 ∙ mine)
