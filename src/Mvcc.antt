-- ===== src/Mvcc.antt =====
-- internal/storage/mvcc/snapshot.go: the atomic steps of `Acquire`, `Release` and `SwapTo`, interleaved in
-- any order. A snapshot is named by a number, in the order in which they are opened; the reads of its
-- pages are in Mvcc/Reads.
pub mod Current
pub mod Race
pub mod Reads
use zadodb.Prelude.{
  ℕ, ◌+◌, ◌-◌, update, ◌≡◌, ◌≢◌, nat_beq, if◌then◌else◌, Bool, true, false, Option, none, some,
}

-- `MappedFile.current`, and of each snapshot `refs`, `retired` and whether `unmapOnce` has not run yet.
pub record Shared : Type 0 where
  pub current : ℕ
  pub refs : ℕ → ℕ
  pub retired : ℕ → Bool
  pub mapped : ℕ → Bool

-- Where a reader stands: behind `current.Load()`, `refs.Add(1)`, the second load; in `Release` before
-- `refs.Add(-1)`, before `retired.Load()` and before `unmap`.
pub data Reader : Type 0 where
  idle : Reader
  loaded added holding dropping checking unmapping : ℕ → Reader

-- `SwapTo` behind `current.Swap`, behind `retired.Store(true)` and before `unmap`.
pub data Swapper : Type 0 where
  resting : Swapper
  swapped marked dismissing : ℕ → Swapper

-- Every new snapshot has a name of its own.
pub record System : Type 0 where
  pub shared : Shared
  pub readers : ℕ → Reader
  pub swapper : Swapper

abbrev pub add_ref : Shared → ℕ → Shared
add_ref m s = record m { refs = update m.refs s (m.refs s + 1) }

-- A reader gives back a reference that it has, so the count is not 0 before.
abbrev pub drop_ref : Shared → ℕ → Shared
drop_ref m s = record m { refs = update m.refs s (m.refs s - 1) }

abbrev pub retire : Shared → ℕ → Shared
retire m s = record m { retired = update m.retired s true }

abbrev pub unmap : Shared → ℕ → Shared
unmap m s = record m { mapped = update m.mapped s false }

-- `current.Swap(ns)` with a snapshot that is just opened.
abbrev pub install : Shared → Shared
install m =
    let new = m.current + 1 in
    record {
      current = new;
      refs = update m.refs new 0;
      retired = update m.retired new false;
      mapped = update m.mapped new true;
    }

-- `refs.Add(-1) == 0`, from the count before.
abbrev pub dropped : ℕ → ℕ → Reader
dropped s n = if nat_beq n 1 then checking s else idle

abbrev pub checked : ℕ → Bool → Reader
checked s r = if r then unmapping s else idle

abbrev pub tested : ℕ → ℕ → Swapper
tested s n = if nat_beq n 0 then dismissing s else resting

pub data Move (m : Shared) : Reader → Shared → Reader → Type 0 where
  loads : Move m idle m (loaded m.current)
  adds : (s : ℕ) → Move m (loaded s) (add_ref m s) (added s)
  keeps : (s : ℕ) → m.current ≡ s → Move m (added s) m (holding s)
  retries : (s : ℕ) → m.current ≢ s → Move m (added s) m (dropping s)
  releases : (s : ℕ) → Move m (holding s) m (dropping s)
  drops : (s : ℕ) → Move m (dropping s) (drop_ref m s) (dropped s (m.refs s))
  checks : (s : ℕ) → Move m (checking s) m (checked s (m.retired s))
  closes : (s : ℕ) → Move m (unmapping s) (unmap m s) idle

pub data SwapMove (m : Shared) : Swapper → Shared → Swapper → Type 0 where
  swaps_in : SwapMove m resting (install m) (swapped m.current)
  marks : (s : ℕ) → SwapMove m (swapped s) (retire m s) (marked s)
  tests : (s : ℕ) → SwapMove m (marked s) m (tested s (m.refs s))
  dismisses : (s : ℕ) → SwapMove m (dismissing s) (unmap m s) resting

pub data Step (x : System) : System → Type 0 where
  reads :
      (i : ℕ) {m : Shared} {p q : Reader}
      → x.readers i ≡ p
      → Move x.shared p m q
      → Step x (record x { shared = m; readers = update x.readers i q })
  swaps :
      {m : Shared} {p q : Swapper}
      → x.swapper ≡ p
      → SwapMove x.shared p m q
      → Step x (record x { shared = m; swapper = q })

-- `Open`.
abbrev pub opened : System
opened = record {
  shared = record { current = 0; refs = λ s. 0; retired = λ s. false; mapped = λ s. nat_beq s 0 };
  readers = λ i. idle;
  swapper = resting;
}

pub data Reach (x : System) : System → Type 0 where
  start : Reach x x
  later : {y z : System} → Reach x y → Step y z → Reach x z
