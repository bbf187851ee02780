-- ===== src/Engine/Answered.antt =====
-- How the log answers a single payload: `Submit` as `submit` of internal/storage/engine.go calls it.
use zadodb.Prelude.{
  ℕ, ◌+◌, ◌≡◌, refl, ap, ◌∙◌, arith, if◌then◌else◌, ◌&&◌, Bool, true, false, Bool-cases, inl, inr,
}
use zadodb.Prelude.{List, [], ◌∷◌}
use zadodb.Bytes.{Bytes}
use zadodb.Bytes.Order.{bytes_eq}
use zadodb.Wal.Sequencer.{
  Sequencer, run_batch, append_batch, append_one, Answer, run_batch_lem, all_small, answers,
}
use zadodb.Engine.{wal_error, closed_error, Outcome, ok, err, World, submit_payload}

-- How the log answers one payload, by whether it is live, the payload fits and the fsync succeeds.
pub data Answered (s : Sequencer) (w : World) (p : Bytes) : Outcome ℕ × Sequencer → Type 0 where
  synced :
      s.closed ≡ false
      → w.sync_ok ≡ true
      → all_small (p ∷ []) ≡ true
      → Answered s w p (ok (s.next_tx + 1), (run_batch s (p ∷ []) w.sync_ok).1)
  unsynced :
      s.closed ≡ false
      → w.sync_ok ≡ false
      → all_small (p ∷ []) ≡ true
      → Answered s w p (err wal_error, (run_batch s (p ∷ []) w.sync_ok).1)
  too_large :
      s.closed ≡ false
      → all_small (p ∷ []) ≡ false
      → (run_batch s (p ∷ []) w.sync_ok).1.log ≡ s.log
      → Answered s w p (err wal_error, (run_batch s (p ∷ []) w.sync_ok).1)
  stopped : s.closed ≡ true → Answered s w p (err closed_error, s)

submit_payload-open :
    (s : Sequencer) (w : World) (p : Bytes) (a : Bool)
    → s.closed ≡ false
    → (run_batch s (p ∷ []) w.sync_ok).0 ≡ answers a ((s.next_tx + 1) ∷ [])
    → submit_payload s w p
      ≡ (if a then ok (s.next_tx + 1) else err wal_error, (run_batch s (p ∷ []) w.sync_ok).1)
unfolding submit_payload
submit_payload-open s w p a live told =
    let s' = (run_batch s (p ∷ []) w.sync_ok).1 in
    let verdict : List Answer → Outcome ℕ × Sequencer = λ answers. (
      elim answers [
        | [] ↦ err closed_error
        | x ∷ more ↦ if x.committed then ok x.tx else err wal_error
      ],
      s',
    ) in
    ap (λ c. if c then (err closed_error, s) else verdict (run_batch s (p ∷ []) w.sync_ok).0) live
    ∙ ap verdict told

submit_payload-shut :
    (s : Sequencer) (w : World) (p : Bytes)
    → s.closed ≡ true
    → submit_payload s w p ≡ (err closed_error, s)
unfolding submit_payload
submit_payload-shut s w p shut = rw shut refl

too_large_log :
    (s : Sequencer) (p : Bytes) (sync_ok : Bool)
    → all_small (p ∷ []) ≡ false
    → (run_batch s (p ∷ []) sync_ok).1.log ≡ s.log
unfolding run_batch append_batch append_one
too_large_log s p sync_ok large = ground (arith, large)

pub submit_payload-Answered :
    (s : Sequencer) (w : World) (p : Bytes) → Answered s w p (submit_payload s w p)
submit_payload-Answered s w p = elim (Bool-cases s.closed) [
  | inl shut ↦ rw (submit_payload-shut s w p shut) (stopped shut)
  | inr live ↦ elim (Bool-cases (all_small (p ∷ []))) [
    | inl small ↦ elim (Bool-cases w.sync_ok) [
      | inl fine ↦
          rw (submit_payload-open s w p true live (told small fine)) (synced live fine small)
      | inr bad ↦
          rw (submit_payload-open s w p false live (told small bad)) (unsynced live bad small)
    ]
    | inr large ↦
        rw
          (submit_payload-open s w p false live (
            (run_batch_lem s (p ∷ []) w.sync_ok).0
            ∙ ap (λ a. answers (a && w.sync_ok) ((s.next_tx + 1) ∷ [])) large))
          (too_large live large (too_large_log s p w.sync_ok large))
  ]
]
  where
    told :
        {b : Bool}
        → all_small (p ∷ []) ≡ true
        → w.sync_ok ≡ b
        → (run_batch s (p ∷ []) w.sync_ok).0 ≡ answers b ((s.next_tx + 1) ∷ [])
    told {b} small known =
        (run_batch_lem s (p ∷ []) w.sync_ok).0
        ∙ ap (λ a. answers (a && w.sync_ok) ((s.next_tx + 1) ∷ [])) small
        ∙ ap (λ a. answers a ((s.next_tx + 1) ∷ [])) known
