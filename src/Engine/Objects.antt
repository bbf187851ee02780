-- ===== src/Engine/Objects.antt =====
-- `CreateObject`, `GetObject`, `PutObject` and `DeleteObject` of internal/storage/engine.go: what each
-- does to the values that clients read.
use zadodb.Prelude.{ℕ, ◌+◌, ◌%◌, ◌^◌, if◌then◌else◌, not, Bool, true, false, Option, none, some, []}
use zadodb.Prelude.{◌≡◌, refl}
use zadodb.Bytes.{Bytes}
use zadodb.Bytes.Order.{bytes_eq}
use zadodb.Wal.{
  WalEntry, wal_entry, op_put, op_delete, payload, object_key, key_of, no_subs, scope_key,
}
use zadodb.Wal.Codec.{Codec}
use zadodb.Idgen
use zadodb.Engine.{EngineError, no_class, not_found, Outcome, ok, err, Engine, World, is_some}
use zadodb.Engine.{lookup, class_exists, submit, after_submit}
use zadodb.Engine.{create_object, put_object, delete_object}
use zadodb.Engine.View.{written, Submitted, accepted, refused, submit-Submitted}

-- How an operation ends that writes `v` at `key` and answers `a`: the write is done, or it failed and
-- left every value and class alone.
pub data Wrote {A : Type 0} (key : Bytes) (v : Option Bytes) (a : A) (e : Engine)
    : Outcome A × Engine → Type 0 where
  done :
      (e' : Engine)
      → ((k : Bytes) → lookup e' k ≡ written key v (lookup e) k)
      → e'.classes ≡ e.classes
      → Wrote key v a e (ok a, e')
  failed :
      (z : EngineError) (e' : Engine)
      → ((k : Bytes) → lookup e' k ≡ lookup e k)
      → e'.classes ≡ e.classes
      → Wrote key v a e (err z, e')

module _ (codec : Codec) where
  after_submit-Wrote :
      {A : Type 0} (x : WalEntry) (deleted : Bool) (a : A) (e : Engine) (r : Outcome ℕ × Engine)
      → Submitted x deleted e r
      → Wrote
          (key_of x)
          (if deleted then none else some (payload x))
          a
          e
          (after_submit codec (λ e'. (ok a, e')) r)
  unfolding after_submit
  after_submit-Wrote x deleted a e r (accepted tx e' f c g) = done e' f c
  after_submit-Wrote x deleted a e r (refused z e' f c g) = failed z e' f c

  if-Wrote :
      {A : Type 0} (key : Bytes) (v : Option Bytes) (a : A) (e : Engine) (b : Bool)
      (t f : Outcome A × Engine)
      → Wrote key v a e t
      → Wrote key v a e f
      → Wrote key v a e (if b then t else f)
  if-Wrote key v a e true t f ht hf = ht
  if-Wrote key v a e false t f ht hf = hf

  stop :
      {A : Type 0} (key : Bytes) (v : Option Bytes) (a : A) (e : Engine) (z : EngineError)
      → Wrote key v a e (err z, e)
  stop key v a e z = failed z e (λ k. refl) refl

  logged-Wrote :
      {A : Type 0} (x : WalEntry) (deleted : Bool) (a : A) (w : World) (e : Engine)
      → Wrote
          (key_of x)
          (if deleted then none else some (payload x))
          a
          e
          (after_submit codec (λ e'. (ok a, e')) (submit codec x deleted w e))
  logged-Wrote x deleted a w e =
      after_submit-Wrote x deleted a e (submit codec x deleted w e)
        (submit-Submitted codec x deleted w e)

  counted :
      {A : Type 0} {key : Bytes} {v : Option Bytes} {a : A} (e : Engine) (g : Idgen.Generator)
      (r : Outcome A × Engine)
      → Wrote key v a (record e { idgen = g }) r
      → Wrote key v a e r
  unfolding lookup
  counted e g r (done e' f k) = done e' f k
  counted e g r (failed z e' f k) = failed z e' f k

  -- `put_object` writes the value of its object's key, or fails; no other value and no class changes, and
  -- none at all when it fails.
  pub put_object-Wrote :
      (p c : Bytes) (id : ℕ) (d : Bytes) (w : World) (e : Engine)
      → Wrote (object_key p c id) (some d) tt e (put_object codec p c id d w e)
  unfolding put_object key_of
  put_object-Wrote p c id d w e =
      if-Wrote _ _ _ e (not (class_exists e p c)) _ _ (stop _ _ _ e no_class) (
        if-Wrote _ _ _ e (not (is_some (lookup e (object_key p c id)))) _ _ (stop _ _ _ e not_found)
          (logged-Wrote (wal_entry op_put p c id d 0 no_subs) false tt w e))

  pub delete_object-Wrote :
      (p c : Bytes) (id : ℕ) (w : World) (e : Engine)
      → Wrote (object_key p c id) none tt e (delete_object codec p c id w e)
  unfolding delete_object key_of
  delete_object-Wrote p c id w e =
      if-Wrote _ _ _ e (not (class_exists e p c)) _ _ (stop _ _ _ e no_class) (
        if-Wrote _ _ _ e (not (is_some (lookup e (object_key p c id)))) _ _ (stop _ _ _ e not_found)
          (logged-Wrote (wal_entry op_delete p c id [] 0 no_subs) true tt w e))

  pub create_object-Wrote :
      (p c d : Bytes) (w : World) (e : Engine)
      → Wrote
          (object_key p c ((Idgen.current e.idgen (scope_key p c) + 1) % 2 ^ 64))
          (some d)
          ((Idgen.current e.idgen (scope_key p c) + 1) % 2 ^ 64)
          e
          (create_object codec p c d w e)
  unfolding create_object key_of Idgen.next lookup
  create_object-Wrote p c d w e =
      let id = (Idgen.current e.idgen (scope_key p c) + 1) % 2 ^ 64 in
      let e1 = record e { idgen = (Idgen.next e.idgen (scope_key p c)).1 } in
      if-Wrote _ _ _ e (not (class_exists e p c)) _ _ (stop _ _ _ e no_class) (
        counted e (Idgen.next e.idgen (scope_key p c)).1 _
          (logged-Wrote (wal_entry op_put p c id d 0 no_subs) false id w e1))
