-- ===== src/Wal/Fsync.antt =====
-- internal/storage/wal/fsyncmode.go: when the sequencer calls fsync.
use zadodb.Prelude.{ℕ, ◌*◌, ◌^◌, if◌then◌else◌, [], ◌∷◌}
use zadodb.Prelude.Int.{ℤ, pos, is_positive}
use zadodb.Bytes.{Bytes}

-- A `FsyncPolicy` is a uint8.
pub data FsyncPolicy : Type 0 where
  per_commit group_commit : FsyncPolicy
  other_policy : ℕ → FsyncPolicy

abbrev pub per_commit_text : Bytes
per_commit_text = b'p' ∷ b'e' ∷ b'r' ∷ b'-' ∷ b'c' ∷ b'o' ∷ b'm' ∷ b'm' ∷ b'i' ∷ b't' ∷ []

abbrev pub group_commit_text : Bytes
group_commit_text =
    b'g' ∷ b'r' ∷ b'o' ∷ b'u' ∷ b'p' ∷ b'-' ∷ b'c' ∷ b'o' ∷ b'm' ∷ b'm' ∷ b'i' ∷ b't' ∷ []

-- `String`.
unfoldable pub policy_text : FsyncPolicy → Bytes
policy_text per_commit = per_commit_text
policy_text group_commit = group_commit_text
policy_text (other_policy n) = b'u' ∷ b'n' ∷ b'k' ∷ b'n' ∷ b'o' ∷ b'w' ∷ b'n' ∷ []

-- An interval is in nanoseconds.
pub record FsyncMode : Type 0 where
  pub policy : FsyncPolicy
  pub interval : ℤ
  pub max_batch : ℤ

abbrev pub default_fsync_mode : FsyncMode
default_fsync_mode = record { policy = per_commit; interval = pos 0; max_batch = pos 0 }

abbrev pub millisecond : ℕ
millisecond = 10 ^ 6

-- `if n <= 0 { n = def }`.
abbrev pub or_when_low : ℤ → ℤ → ℤ
or_when_low n def = if is_positive n then n else def

unfoldable pub group_commit_mode : ℤ → ℤ → FsyncMode
group_commit_mode interval max_batch = record {
  policy = group_commit;
  interval = or_when_low interval (pos (2 * millisecond));
  max_batch = or_when_low max_batch (pos 256);
}
