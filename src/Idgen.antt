-- ===== src/Idgen.antt =====
-- internal/storage/idgen/idgen.go: the per-class counters of object ids. An int64 is its 64-bit pattern,
-- so that `counters[class]++` wraps as it does in Go; the mutex makes each method one step.
use zadodb.Prelude.{ℕ, ◌+◌, ◌%◌, ◌^◌, ◌<◌, ltb, if◌then◌else◌, ◌==◌, arith}
use zadodb.Prelude.{◌≡◌, Bool, Option, none, some, []}
use zadodb.Prelude.Dict.{Dict, find, put, remove, find-put}
use zadodb.Bytes.{Bytes}
use zadodb.Bytes.Order.{bytes_eq}

abbrev pub Generator : Type 0
Generator = Dict Bytes ℕ

abbrev pub new : Generator
new = []

-- `a > b` on int64s.
abbrev pub int64_gt : ℕ → ℕ → Bool
int64_gt a b = ltb ((b + 2 ^ 63) % 2 ^ 64) ((a + 2 ^ 63) % 2 ^ 64)

abbrev or_zero : Option ℕ → ℕ
or_zero none = 0
or_zero (some n) = n

-- `g.counters[class]`, which is 0 for a class that has none.
unfoldable pub current : Generator → Bytes → ℕ
current g class = or_zero (find class g)

unfoldable pub next : Generator → Bytes → ℕ × Generator
unfolding current
next g class = let id = (current g class + 1) % 2 ^ 64 in (id, put class id g)

unfoldable pub observe : Generator → Bytes → ℕ → Generator
unfolding current
observe g class id = if int64_gt id (current g class) then put class id g else g

unfoldable pub drop : Generator → Bytes → Generator
drop g class = remove class g

-- A counter that is no negative int64.
abbrev pub IsId : ℕ → Type 0
IsId n = n < 2 ^ 63

current-put :
    (g : Generator) (k j : Bytes) (n : ℕ)
    → current (put k n g) j ≡ (if k == j then n else current g j)
unfolding current
current-put g k j n = ground (arith, find-put k j n g)

-- Below the largest int64, `Next` returns an id above every earlier one of its class, from 1 on, makes
-- it the class's counter, and leaves the counters of the other classes alone.
pub next_lem :
    (g : Generator) (c d : Bytes)
    → current g c + 1 < 2 ^ 63
    → ((next g c).0 ≡ current g c + 1)
      × (current (next g c).1 d ≡ (if c == d then current g c + 1 else current g d))
unfolding next
next_lem g c d h = ground (arith, current-put g c d (current g c + 1))

-- For non-negative ids and counters, `Observe` raises its class's counter to at least the id, never
-- lowers it, takes no other value for it, and leaves the other classes alone.
pub observe_lem :
    (g : Generator) (c d : Bytes) (id : ℕ)
    → IsId id
    → IsId (current g c)
    → current (observe g c id) d
      ≡ (if c == d then (if ltb (current g c) id then id else current g c) else current g d)
unfolding observe
observe_lem g c d id h k = ground (arith, current-put g c d id, bytes_eq.beq_iff c d)
