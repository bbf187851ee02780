-- ===== src/Database/Methods.antt =====
-- The object methods of internal/storage/engine.go and the files on disk: what an acknowledged call wrote is
-- there after a crash and a boot.
use zadodb.Prelude.{ℕ, ◌+◌, ◌<◌, ◌^◌, ◌≡◌, refl, ap, arith, if◌then◌else◌, not, Bool, true, false}
use zadodb.Prelude.{Option, none, some, []}
use zadodb.Bytes.{Bytes}
use zadodb.Errors
use zadodb.Wal.{WalEntry, wal_entry, op_put, op_delete, no_subs, object_key, scope_key}
use zadodb.Wal.Codec.{Codec}
use zadodb.Wal.Log.{Crc}
use zadodb.Layout.{Dir}
use zadodb.Idgen
use zadodb.Engine.{
  EngineError, no_class, not_found, Outcome, ok, err, Engine, World, class_exists, is_some, lookup,
  after_submit, create_object, put_object, delete_object,
}
use zadodb.Recovery.Recover.{Recovered, recover}
use zadodb.Recovery.Durable.{read_after}
use zadodb.Recovery.Restart.{recover-Durable}
use zadodb.Recovery.Running.{Running-Durable}
use zadodb.Database.Opened.{Consistent}
use zadodb.Database.Acknowledged.{
  on_disk, Settled, acknowledged, unsynced_write, dropped, submit-Settled, reviewed,
}

-- A call that writes one object, and the engine after it if it succeeds.
pub data ObjectCall : Type 0 where
  creating : Bytes → ObjectCall
  putting : ℕ → Bytes → ObjectCall
  deleting : ℕ → ObjectCall

abbrev pub succeeded : {A : Type 0} → Outcome A × Engine → Option Engine
succeeded (ok a, e) = some e
succeeded (err z, e) = none

module _ (codec : Codec) (crc : Crc) (fuel rounds : ℕ) where
  -- A call that succeeds leaves engine and directory consistent.
  pub data Kept {A : Type 0} (d : Dir) : Outcome A × Engine → Type 0 where
    kept :
        (a : A) (e' : Engine)
        → Consistent codec crc fuel rounds e' (on_disk codec crc fuel rounds d e'.seq)
        → Kept d (ok a, e')
    not_kept : (z : EngineError) (e' : Engine) → Kept d (err z, e')

  after_submit-Kept :
      {A : Type 0} (d : Dir) (w : World) (e : Engine) (x : WalEntry) (deleted : Bool) (a : A)
      (r : Outcome ℕ × Engine)
      → Settled codec crc fuel rounds x deleted d w e r
      → Kept d (after_submit codec (λ e'. (ok a, e')) r)
  unfolding after_submit
  after_submit-Kept d w e x deleted a r (acknowledged p e' live m small fine log stands shows) =
      kept a e' stands
  after_submit-Kept d w e x deleted a r (unsynced_write p e' live m small bad log stands same) =
      not_kept _ e'
  after_submit-Kept d w e x deleted a r (dropped z e' why log stands same) = not_kept z e'

  unless-Kept :
      {A : Type 0} (d : Dir) (b : Bool) (z : EngineError) (e : Engine) (r : Outcome A × Engine)
      → Kept d r
      → Kept d (if b then (err z, e) else r)
  unless-Kept d true z e r h = not_kept z e
  unless-Kept d false z e r h = h

  module _ (d : Dir) (e : Engine) (w : World) (k : Consistent codec crc fuel rounds e d)
      (lt : e.seq.next_tx + 1 < 2 ^ 64) where
    put_object-Kept : (p c : Bytes) (id : ℕ) (v : Bytes) → Kept d (put_object codec p c id v w e)
    unfolding put_object
    put_object-Kept p c id v =
        let x = wal_entry op_put p c id v 0 no_subs in
        unless-Kept d (not (class_exists e p c)) no_class e _ (
          unless-Kept d (not (is_some (lookup e (object_key p c id)))) not_found e _ (
            after_submit-Kept d w e x false tt _
              (submit-Settled codec crc fuel rounds d e x false w k refl lt)))

    delete_object-Kept : (p c : Bytes) (id : ℕ) → Kept d (delete_object codec p c id w e)
    unfolding delete_object
    delete_object-Kept p c id =
        let x = wal_entry op_delete p c id [] 0 no_subs in
        unless-Kept d (not (class_exists e p c)) no_class e _ (
          unless-Kept d (not (is_some (lookup e (object_key p c id)))) not_found e _ (
            after_submit-Kept d w e x true tt _
              (submit-Settled codec crc fuel rounds d e x true w k (refl, refl) lt)))

    create_object-Kept : (p c v : Bytes) → Kept d (create_object codec p c v w e)
    unfolding create_object lookup
    create_object-Kept p c v =
        let (id, g) = Idgen.next e.idgen (scope_key p c) in
        let x = wal_entry op_put p c id v 0 no_subs in
        unless-Kept d (not (class_exists e p c)) no_class e _ (
          after_submit-Kept d w (record e { idgen = g }) x false id _
            (submit-Settled codec crc fuel rounds d (record e { idgen = g }) x false w
              (reviewed codec crc fuel rounds d e.seq (lookup e) _ (λ key. refl) k) refl lt))

  recovers_call :
      {A : Type 0} (d : Dir) (a : A) (e' : Engine)
      → Kept {A = A} d (ok a, e')
      → (r : Recovered) × (d' : Dir) × (recover codec crc fuel rounds
            (on_disk codec crc fuel rounds d e'.seq)
          ≡ Errors.ok (r, d'))
        × ((key : Bytes) → read_after codec crc fuel rounds r d' key ≡ Errors.ok (lookup e' key))
  recovers_call d a e' (kept _ _ stands) =
      let (r, d', run, shown, left) =
        recover-Durable codec crc fuel rounds (on_disk codec crc fuel rounds d e'.seq) (lookup e') (
          Running-Durable codec crc fuel rounds (on_disk codec crc fuel rounds d e'.seq) e'.seq
            (lookup e') stands) in
      (r, d', run, shown)

  -- What a directory shows after a crash and a boot is what the engine showed.
  abbrev pub Recovers : Dir → Engine → Type 0
  Recovers d e' =
      (r : Recovered) × (d' : Dir) × (recover codec crc fuel rounds
          (on_disk codec crc fuel rounds d e'.seq)
        ≡ Errors.ok (r, d'))
      × ((key : Bytes) → read_after codec crc fuel rounds r d' key ≡ Errors.ok (lookup e' key))

  call_recovered :
      {A : Type 0} (d : Dir) (e' : Engine) (o : Outcome A × Engine)
      → Kept d o
      → succeeded o ≡ some e'
      → Recovers d e'
  call_recovered d e' _ (kept a e1 stands) h =
      let same : e1 ≡ e' = ap (λ t. elim t [ none ↦ e1 | some x ↦ x ]) h in
      rw (← same) (recovers_call d a e1 (kept a e1 stands))
  call_recovered d e' _ (not_kept z e1) h = absurd (ground (arith, h))

  abbrev pub call_object : ObjectCall → Bytes → Bytes → World → Engine → Option Engine
  call_object (creating v) p c w e = succeeded (create_object codec p c v w e)
  call_object (putting id v) p c w e = succeeded (put_object codec p c id v w e)
  call_object (deleting id) p c w e = succeeded (delete_object codec p c id w e)

  -- On an engine that is consistent with its directory: after a CreateObject, a PutObject or a
  -- DeleteObject that succeeds, the directory with the log as it then is boots, and a client reads at
  -- every key what the engine showed when the call returned.
  pub call_object_recovered :
      (d : Dir) (e e' : Engine) (w : World) (p c : Bytes) (o : ObjectCall)
      → Consistent codec crc fuel rounds e d
      → e.seq.next_tx + 1 < 2 ^ 64
      → call_object o p c w e ≡ some e'
      → Recovers d e'
  call_object_recovered d e e' w p c (creating v) k lt h =
      call_recovered d e' _ (create_object-Kept d e w k lt p c v) h
  call_object_recovered d e e' w p c (putting id v) k lt h =
      call_recovered d e' _ (put_object-Kept d e w k lt p c id v) h
  call_object_recovered d e e' w p c (deleting id) k lt h =
      call_recovered d e' _ (delete_object-Kept d e w k lt p c id) h
