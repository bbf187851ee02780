-- ===== src/Wal/Calls.antt =====
-- internal/storage/wal/sequencer.go: the goroutines of the callers of `Submit`, of `run` and of `Close`,
-- interleaved in any order. A call is named by a number and has a payload of its own; the requests queued
-- in the channel are the calls that sent them. The batch that `run` appends and syncs is one step, since
-- no other goroutine touches the file meanwhile; the answers are delivered one at a time. A rotation
-- puts the records of the log into the retired ones.
pub mod Sound
pub mod Closing
use zadodb.Prelude.{
  ℕ, ◌<◌, ◌≡◌, update, if◌then◌else◌, Bool, true, false, Option, none, some, List, [], ◌∷◌, ◌++◌,
  length, map,
}
use zadodb.Bytes.{Bytes}
use zadodb.Wal.Log.{LogRecord}
use zadodb.Wal.Sequencer.{Sequencer, Answer, run_batch}

-- `result`: a transaction id, an error of the log with the id, or ErrClosed.
pub data Reply : Type 0 where
  done failed : ℕ → Reply
  shut_out : Reply

-- Where a call of `Submit` stands: before the first select, behind it, in the last one, at its end.
pub data Caller : Type 0 where
  calling queued blocked : Caller
  returned : Reply → Caller

-- Where `run` stands: in its select, in `collectBatch`, before the appends, within the deliveries, in
-- `drainClosed`, at its end.
pub data Runner : Type 0 where
  resting : Runner
  collecting appending : List ℕ → Runner
  delivering : List (ℕ × Reply) → Runner
  draining stopped : Runner

-- `reqs`, the `resp` of each call, and whether `done` is closed (in the sequencer).
pub record System : Type 0 where
  pub seq : Sequencer
  pub retired : List LogRecord
  pub queue : List ℕ
  pub resp : ℕ → Option Reply
  pub callers : ℕ → Caller
  pub runner : Runner

abbrev pub reply : Answer → Reply
reply a = if a.committed then done a.tx else failed a.tx

-- `for i, r := range batch { r.resp <- … }`.
abbrev pub deliveries : List ℕ → List Answer → List (ℕ × Reply)
deliveries [] answers = []
deliveries (i ∷ is) [] = []
deliveries (i ∷ is) (a ∷ answers) = (i, reply a) ∷ deliveries is answers

abbrev pub taken : Bool → ℕ → Runner
taken group i = if group then collecting (i ∷ []) else appending (i ∷ [])

abbrev pub told : System → ℕ → Reply → System
told x i r = record x { resp = update x.resp i (some r) }

abbrev pub moves_to : System → ℕ → Caller → System
moves_to x i c = record x { callers = update x.callers i c }

-- The payloads of the calls, the capacity of the channel, and the mode: whether commits are grouped, and
-- up to how many.
module _ (payload : ℕ → Bytes) (capacity : ℕ) (group : Bool) (max_batch : ℕ) where
  abbrev pub batch_of : System → List ℕ → Bool → List Answer × Sequencer
  batch_of x b sync_ok = run_batch x.seq (map payload b) sync_ok

  pub data Step (x : System) : System → Type 0 where
    -- `Submit`
    sends :
        (i : ℕ)
        → x.callers i ≡ calling
        → length x.queue < capacity
        → Step x (record (moves_to x i queued) { queue = x.queue ++ (i ∷ []) })
    turned_away :
        (i : ℕ)
        → x.callers i ≡ calling
        → x.seq.closed ≡ true
        → Step x (moves_to x i (returned shut_out))
    picks :
        (i : ℕ) (r : Reply)
        → x.callers i ≡ queued
        → x.resp i ≡ some r
        → Step x (moves_to x i (returned r))
    waits : (i : ℕ) → x.callers i ≡ queued → x.resp i ≡ none → Step x (moves_to x i blocked)
    gets :
        (i : ℕ) (r : Reply)
        → x.callers i ≡ blocked
        → x.resp i ≡ some r
        → Step x (moves_to x i (returned r))
    gives_up :
        (i : ℕ)
        → x.callers i ≡ blocked
        → x.seq.closed ≡ true
        → Step x (moves_to x i (returned shut_out))
    -- `run` and `collectBatch`
    takes :
        (i : ℕ) (q : List ℕ)
        → x.runner ≡ resting
        → x.queue ≡ i ∷ q
        → Step x (record x { queue = q; runner = taken group i })
    collects :
        (b : List ℕ) (i : ℕ) (q : List ℕ)
        → x.runner ≡ collecting b
        → length b < max_batch
        → x.queue ≡ i ∷ q
        → Step x (record x { queue = q; runner = collecting (b ++ (i ∷ [])) })
    collected : (b : List ℕ) → x.runner ≡ collecting b → Step x (record x { runner = appending b })
    appends :
        (b : List ℕ) (sync_ok : Bool)
        → x.runner ≡ appending b
        → Step x (record x {
          seq = (batch_of x b sync_ok).1;
          runner = delivering (deliveries b (batch_of x b sync_ok).0);
        })
    delivers :
        (i : ℕ) (r : Reply) (more : List (ℕ × Reply))
        → x.runner ≡ delivering ((i, r) ∷ more)
        → Step x (record (told x i r) { runner = delivering more })
    delivered : x.runner ≡ delivering [] → Step x (record x { runner = resting })
    rotates :
        x.runner ≡ resting
        → Step x (record x { seq = record x.seq { log = [] }; retired = x.retired ++ x.seq.log })
    -- `Close` and `drainClosed`
    closes : Step x (record x { seq = record x.seq { closed = true } })
    drains : x.runner ≡ resting → x.seq.closed ≡ true → Step x (record x { runner = draining })
    refuses :
        (i : ℕ) (q : List ℕ)
        → x.runner ≡ draining
        → x.queue ≡ i ∷ q
        → Step x (record (told x i shut_out) { queue = q })
    finishes : x.runner ≡ draining → x.queue ≡ [] → Step x (record x { runner = stopped })

  pub data Reach (x : System) : System → Type 0 where
    start : Reach x x
    later : {y z : System} → Reach x y → Step y z → Reach x z

-- `NewSequencer`, before any call.
abbrev pub created : ℕ → System
created initial = record {
  seq = record { log = []; next_tx = initial; closed = false };
  retired = [];
  queue = [];
  resp = λ i. none;
  callers = λ i. calling;
  runner = resting;
}
