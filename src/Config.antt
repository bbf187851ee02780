-- ===== src/Config.antt =====
-- internal/server/config/config.go: the settings of the server and what the engine makes of them
-- (`withDefaults` of internal/storage/engine.go). yaml.v3 is a parameter.
use zadodb.Prelude.{
  ℕ, ◌*◌, ◌^◌, ◌≡◌, refl, nat_beq, if◌then◌else◌, ◌||◌, ◌==◌, Bool, true, false, Bool-cases, inl,
  inr, Option, none, some, [], ◌∷◌, length,
}
use zadodb.Prelude.Int.{ℤ, pos, is_positive, times}
use zadodb.Bytes.{Bytes}
use zadodb.Bytes.Order.{bytes_eq}
use zadodb.Wal.Fsync.{
  group_commit, FsyncMode, per_commit_text, group_commit_text, millisecond, default_fsync_mode,
  or_when_low, group_commit_mode,
}

pub record Config : Type 0 where
  pub data_dir : Bytes
  pub http_addr : Bytes
  pub fsync : Bytes
  pub interval_ms : ℤ
  pub max_batch : ℤ
  pub wal_bytes : ℤ
  pub interval_sec : ℤ

abbrev default_dir : Bytes
default_dir = b'.' ∷ b'/' ∷ b'd' ∷ b'a' ∷ b't' ∷ b'a' ∷ []

abbrev default_addr : Bytes
default_addr =
    b'1' ∷ b'2' ∷ b'7' ∷ b'.' ∷ b'0' ∷ b'.' ∷ b'0' ∷ b'.' ∷ b'1' ∷ b':' ∷ b'7' ∷ b'3' ∷ b'7' ∷ b'3'
    ∷ []

-- `Default`.
abbrev pub default_config : Config
default_config = record {
  data_dir = default_dir;
  http_addr = default_addr;
  fsync = per_commit_text;
  interval_ms = pos 2;
  max_batch = pos 256;
  wal_bytes = pos (64 * 2 ^ 20);
  interval_sec = pos 300;
}

pub data ConfigError : Type 0 where
  no_data_dir no_http_addr bad_fsync unreadable unparsable : ConfigError

-- `none` is a nil error.
unfoldable pub validate : Config → Option ConfigError
validate c =
    if nat_beq (length c.data_dir) 0
    then some no_data_dir
    else if nat_beq (length c.http_addr) 0
    then some no_http_addr
    else if c.fsync == per_commit_text || c.fsync == group_commit_text
    then none
    else some bad_fsync

-- `os.ReadFile`: no such file, another error, or the bytes.
pub data FileRead : Type 0 where
  absent unreadable_file : FileRead
  contents : Bytes → FileRead

-- `yaml.Unmarshal` over a configuration: what it leaves, and whether it succeeds.
unfoldable pub load_config :
    (Bytes → Config → Bool × Config) → Bytes → FileRead → Config × Option ConfigError
load_config yaml path absent = (default_config, none)
load_config yaml path unreadable_file =
    (default_config, if nat_beq (length path) 0 then none else some unreadable)
load_config yaml path (contents b) =
    let (parsed, c) = yaml b default_config in
    if nat_beq (length path) 0
    then (default_config, none)
    else if parsed
    then (c, validate c)
    else (c, some unparsable)

unfoldable pub fsync_mode : Config → FsyncMode
unfolding group_commit_mode
fsync_mode c =
    if c.fsync == group_commit_text
    then group_commit_mode (times c.interval_ms millisecond) c.max_batch
    else default_fsync_mode

-- `storage.Config`.
pub record EngineConfig : Type 0 where
  pub dir : Bytes
  pub mode : FsyncMode
  pub checkpoint_wal_bytes : ℤ
  pub checkpoint_interval : ℤ
  pub queue_depth : ℤ

abbrev pub second : ℕ
second = 10 ^ 9

unfoldable pub storage_config : Config → EngineConfig
unfolding fsync_mode
storage_config c = record {
  dir = c.data_dir;
  mode = fsync_mode c;
  checkpoint_wal_bytes = c.wal_bytes;
  checkpoint_interval = times c.interval_sec second;
  queue_depth = pos 0;
}

-- `withDefaults`.
unfoldable pub with_defaults : EngineConfig → EngineConfig
with_defaults c = record c {
  checkpoint_wal_bytes = or_when_low c.checkpoint_wal_bytes (pos (64 * 2 ^ 20));
  checkpoint_interval = or_when_low c.checkpoint_interval (pos (300 * second));
  queue_depth = or_when_low c.queue_depth (pos 4096);
}

or_when_low_positive : (z def : ℤ) → is_positive def ≡ true → is_positive (or_when_low z def) ≡ true
or_when_low_positive z def h = elim (Bool-cases (is_positive z)) [
  | inl high ↦ rw high high
  | inr low ↦ rw low h
]

-- What the engine can run with: all its bounds are positive, and those of a group commit too.
pub record Runnable (c : EngineConfig) : Type 0 where
  pub wal_bytes : is_positive c.checkpoint_wal_bytes ≡ true
  pub interval : is_positive c.checkpoint_interval ≡ true
  pub queue : is_positive c.queue_depth ≡ true
  pub grouped :
      c.mode.policy ≡ group_commit
      → (is_positive c.mode.interval ≡ true) × (is_positive c.mode.max_batch ≡ true)

chosen_grouped :
    (b : Bool) (m : FsyncMode)
    → (is_positive m.interval ≡ true) × (is_positive m.max_batch ≡ true)
    → (if b then m else default_fsync_mode).policy ≡ group_commit
    → (is_positive (if b then m else default_fsync_mode).interval ≡ true)
      × (is_positive (if b then m else default_fsync_mode).max_batch ≡ true)
chosen_grouped true m good h = good
chosen_grouped false m good h = cc

mode_grouped :
    (c : Config)
    → (fsync_mode c).policy ≡ group_commit
    → (is_positive (fsync_mode c).interval ≡ true) × (is_positive (fsync_mode c).max_batch ≡ true)
unfolding fsync_mode group_commit_mode
mode_grouped c = chosen_grouped (c.fsync == group_commit_text) _ (
  or_when_low_positive (times c.interval_ms millisecond) (pos (2 * millisecond)) refl,
  or_when_low_positive c.max_batch (pos 256) refl,
)

-- Whatever the settings are, also zero, negative, and so large that the product with the unit wraps: the
-- engine runs with bounds above zero.
pub with_defaults-Runnable : (c : Config) → Runnable (with_defaults (storage_config c))
unfolding with_defaults storage_config
with_defaults-Runnable c = record {
  wal_bytes = or_when_low_positive c.wal_bytes (pos (64 * 2 ^ 20)) refl;
  interval = or_when_low_positive (times c.interval_sec second) (pos (300 * second)) refl;
  queue = or_when_low_positive (pos 0) (pos 4096) refl;
  grouped = mode_grouped c;
}
