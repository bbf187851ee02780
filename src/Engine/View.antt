-- ===== src/Engine/View.antt =====
-- What a client sees of the store after a write: the value of each key, and which classes there are.
use zadodb.Prelude.{ℕ, if◌then◌else◌, ◌==◌, Bool, Option, none, some}
use zadodb.Prelude.{◌≡◌, refl, ap, ◌∙◌, arith}
use zadodb.Prelude.Dict.{put, find-put}
use zadodb.Bytes.{Bytes}
use zadodb.Bytes.Order.{bytes_eq}
use zadodb.Wal.{WalEntry, wal_entry, op_put, op_create_class, payload, key_of}
use zadodb.Wal.Codec.{Codec}
use zadodb.Wal.Sequencer.{Sequencer}
use zadodb.Engine.{EngineError, marshal_error, Outcome, ok, err, OverlayVal, Engine, World}
use zadodb.Engine.{shown, lookup, stamped, submit_payload, commit, log_entry, submit}

-- What a write makes of the values: one key gets a value or loses it.
abbrev pub written : Bytes → Option Bytes → (Bytes → Option Bytes) → Bytes → Option Bytes
written key v old k = if key == k then v else old k

key_of-stamped : (now : ℕ) (x : WalEntry) → key_of (stamped now x) ≡ key_of x
unfolding key_of
key_of-stamped now (wal_entry op_put p c i d t s) = refl
key_of-stamped now (wal_entry op_create_class p c i d t s) = refl
key_of-stamped now (wal_entry o p c i d t s) = refl

lookup-put :
    (e : Engine) (key k : Bytes) (ov : OverlayVal)
    → lookup (record e { overlay = put key ov e.overlay }) k ≡ written key (shown ov) (lookup e) k
unfolding lookup
lookup-put e key k ov = ground (arith, find-put key k ov e.overlay)

-- How a call to `submit` ends: with the write in the overlay, or with an error and no change to what
-- the overlay, the snapshot and the class set hold.
pub data Submitted (x : WalEntry) (deleted : Bool) (e : Engine) : Outcome ℕ × Engine → Type 0 where
  accepted :
      (tx : ℕ) (e' : Engine)
      → ((k : Bytes)
          → lookup e' k
            ≡ written (key_of x) (if deleted then none else some (payload x)) (lookup e) k)
      → e'.classes ≡ e.classes
      → e'.idgen ≡ e.idgen
      → Submitted x deleted e (ok tx, e')
  refused :
      (z : EngineError) (e' : Engine)
      → ((k : Bytes) → lookup e' k ≡ lookup e k)
      → e'.classes ≡ e.classes
      → e'.idgen ≡ e.idgen
      → Submitted x deleted e (err z, e')

payload-stamped : (now : ℕ) (x : WalEntry) → payload (stamped now x) ≡ payload x
payload-stamped now (wal_entry o p c i d t s) = refl

stamped-written :
    (now : ℕ) (x : WalEntry) (deleted : Bool) (tx : ℕ) (e : Engine) (k : Bytes)
    → written
        (key_of (stamped now x))
        (shown (record { tx = tx; data_of = payload (stamped now x); deleted = deleted }))
        (lookup e)
        k
      ≡ written (key_of x) (if deleted then none else some (payload x)) (lookup e) k
unfolding shown
stamped-written now x deleted tx e k =
    ap (λ key. written key (if deleted then none else some (payload (stamped now x))) (lookup e) k)
      (key_of-stamped now x)
    ∙ ap (λ v. written (key_of x) (if deleted then none else some v) (lookup e) k)
        (payload-stamped now x)

pub lookup-commit :
    (now : ℕ) (x : WalEntry) (deleted : Bool) (e : Engine) (tx : ℕ) (s : Sequencer) (k : Bytes)
    → lookup (commit (stamped now x) deleted e (ok tx, s)).1 k
      ≡ written (key_of x) (if deleted then none else some (payload x)) (lookup e) k
unfolding commit lookup
lookup-commit now x deleted e tx s k =
    lookup-put (record e { seq = s }) (key_of (stamped now x)) k
      (record { tx = tx; data_of = payload (stamped now x); deleted = deleted })
    ∙ stamped-written now x deleted tx (record e { seq = s }) k

commit-Submitted :
    (now : ℕ) (x : WalEntry) (deleted : Bool) (e : Engine) (answer : Outcome ℕ × Sequencer)
    → Submitted x deleted e (commit (stamped now x) deleted e answer)
unfolding commit lookup
commit-Submitted now x deleted e (err z, s) = refused z (record e { seq = s }) (λ k. refl) refl refl
commit-Submitted now x deleted e (ok tx, s) =
    accepted tx _ (lookup-commit now x deleted e tx s) refl refl

log_entry-Submitted :
    (x : WalEntry) (deleted : Bool) (w : World) (e : Engine) (bytes : Option Bytes)
    → Submitted x deleted e (log_entry (stamped w.now x) deleted w e bytes)
unfolding log_entry
log_entry-Submitted x deleted w e none = refused marshal_error e (λ k. refl) refl refl
log_entry-Submitted x deleted w e (some bytes) =
    commit-Submitted w.now x deleted e (submit_payload e.seq w bytes)

module _ (codec : Codec) where
  -- A write through `submit` either succeeds, and then the value of its own key is its payload (none, for
  -- a deletion), or fails, and then no value changes. No other key, no class and no id counter changes.
  pub submit-Submitted :
      (x : WalEntry) (deleted : Bool) (w : World) (e : Engine)
      → Submitted x deleted e (submit codec x deleted w e)
  unfolding submit
  submit-Submitted x deleted w e =
      log_entry-Submitted x deleted w e (codec.marshal (stamped w.now x))
