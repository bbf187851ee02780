-- ===== src/Engine/ReadBack.antt =====
-- `GetObject` of internal/storage/engine.go after a write that succeeded.
use zadodb.Prelude.{
  ℕ, ◌<◌, ◌^◌, ◌%◌, ◌+◌, if◌then◌else◌, not, ◌&&◌, ◌==◌, nat_beq, Bool, true, false, Option, none,
  some,
}
use zadodb.Prelude.{◌≡◌, refl, sym, ap, ◌∙◌, arith, eq_self, Bool-cases, inl, inr}
use zadodb.Bytes.{Bytes}
use zadodb.Bytes.Order.{bytes_eq}
use zadodb.Wal.{object_key, scope_key, decode_object_key}
use zadodb.Wal.Codec.{Codec}
use zadodb.Wal.Keys.{IsName, decode_object_key-object_key}
use zadodb.Engine.{no_class, Outcome, ok, err, Engine, World}
use zadodb.Engine.{lookup, class_exists, get_object, create_object, put_object, delete_object}
use zadodb.Idgen
use zadodb.Engine.View.{written}
use zadodb.Engine.Objects.{
  Wrote, done, failed, create_object-Wrote, put_object-Wrote, delete_object-Wrote,
}

-- An object's address: names without 0x00, and an id that fits the key.
abbrev pub IsAddress : Bytes → Bytes → ℕ → Type 0
IsAddress p c id = IsName p × IsName c × (id < 2 ^ 64)

abbrev pub same_address : Bytes → Bytes → ℕ → Bytes → Bytes → ℕ → Bool
same_address p c id p' c' id' = (p == p') && ((c == c') && nat_beq id id')

object_key-same :
    (p c : Bytes) (id : ℕ) (p' c' : Bytes) (id' : ℕ)
    → IsAddress p c id
    → IsAddress p' c' id'
    → (object_key p c id == object_key p' c' id') ≡ same_address p c id p' c' id'
object_key-same p c id p' c' id' h h' = elim (Bool-cases (same_address p c id p' c' id')) [
  | inl t ↦ rw t (same t)
  | inr f ↦ rw f (elim (Bool-cases (object_key p c id == object_key p' c' id')) [
    | inl t ↦ absurd f ((bytes_eq.beq_iff _ _).0 t)
    | inr g ↦ g
  ])
]
  where
    same : same_address p c id p' c' id' ≡ true → (object_key p c id == object_key p' c' id') ≡ true
    same t =
        let ep : p ≡ p' = ground (arith, bytes_eq.beq_iff p p') in
        let ec : c ≡ c' = ground (arith, bytes_eq.beq_iff c c') in
        let ei : id ≡ id' = ground arith in rw (ep, ec, ei) (eq_self (object_key p' c' id'))

    absurd :
        {B : Type 0}
        → same_address p c id p' c' id' ≡ false
        → object_key p c id ≡ object_key p' c' id'
        → B
    absurd f q =
        let parts : Path (Option (Bytes × Bytes × ℕ)) (some (p, c, id)) (some (p', c', id')) =
          sym (decode_object_key-object_key p c id h.0 h.1 h.2)
          ∙ ap decode_object_key q
          ∙ decode_object_key-object_key p' c' id' h'.0 h'.1 h'.2 in
        ground (arith, eq_self p', eq_self c')

Wrote-ok :
    {A : Type 0} (key : Bytes) (v : Option Bytes) (a b : A) (e e' : Engine) (r : Outcome A × Engine)
    → Wrote key v a e r
    → r ≡ (ok b, e')
    → ((k : Bytes) → lookup e' k ≡ written key v (lookup e) k) × (e'.classes ≡ e.classes)
Wrote-ok key v a b e e' r (done e1 f c) q = rw (sym (ap (λ s. s.1) q)) ((f, c))
Wrote-ok key v a b e e' r (failed z e1 f c) q = ground arith

answer :
    {A : Type 0} {key : Bytes} {v : Option Bytes} {a : A} {e : Engine} (b : A) (e' : Engine)
    (r : Outcome A × Engine)
    → Wrote key v a e r
    → r ≡ (ok b, e')
    → b ≡ a
answer b e' r (done e1 f c) q = ground arith
answer b e' r (failed z e1 f c) q = ground arith

same_address-eq :
    (p c : Bytes) (id : ℕ) (p' c' : Bytes) (id' : ℕ)
    → same_address p c id p' c' id' ≡ true
    → (p ≡ p') × (c ≡ c')
same_address-eq p c id p' c' id' t = ground (arith, bytes_eq.beq_iff p p', bytes_eq.beq_iff c c')

get_object-at :
    (codec : Codec) (p c : Bytes) (id : ℕ) (e e' : Engine) (v : Option Bytes)
    → e'.classes ≡ e.classes
    → lookup e' (object_key p c id) ≡ v
    → get_object codec p c id e' ≡ (if not (class_exists e p c) then err no_class else ok v)
unfolding get_object
get_object-at codec p c id e e' v g f =
    let same : class_exists e' p c ≡ class_exists e p c = unfold class_exists in rw g refl in
    rw (same, f) refl

-- What a read gives after a write at another address or at this one.
get_object-Wrote :
    {A : Type 0} (codec : Codec) (p c : Bytes) (id : ℕ) (v : Option Bytes) (a b : A) (e e' : Engine)
    (p' c' : Bytes) (id' : ℕ) (r : Outcome A × Engine)
    → IsAddress p c id
    → IsAddress p' c' id'
    → Wrote (object_key p c id) v a e r
    → class_exists e p c ≡ true
    → r ≡ (ok b, e')
    → get_object codec p' c' id' e'
      ≡ (if same_address p c id p' c' id' then ok v else get_object codec p' c' id' e)
get_object-Wrote codec p c id v a b e e' p' c' id' r h h' o t q =
    let (f, g) = Wrote-ok _ v a b e e' r o q in
    let at =
      get_object-at codec p' c' id' e e'
        (if same_address p c id p' c' id' then v else lookup e (object_key p' c' id')) g
        (f (object_key p' c' id') ∙ rw (object_key-same p c id p' c' id' h h') refl) in
    elim (Bool-cases (same_address p c id p' c' id')) [
      | inl s ↦
          let (ep, ec) = same_address-eq p c id p' c' id' s in
          let t' : class_exists e p' c' ≡ true = rw⁻¹ (ep, ec) t in ground (arith)
      | inr s ↦ unfold get_object in ground (arith)
    ]

module _ (codec : Codec) where
  class-put_object :
      (p c : Bytes) (id : ℕ) (d : Bytes) (w : World) (e e' : Engine)
      → put_object codec p c id d w e ≡ (ok tt, e')
      → class_exists e p c ≡ true
  class-put_object p c id d w e e' q = elim (Bool-cases (class_exists e p c)) [
    | inl t ↦ t
    | inr f ↦ unfold put_object in ground arith
  ]

  class-delete_object :
      (p c : Bytes) (id : ℕ) (w : World) (e e' : Engine)
      → delete_object codec p c id w e ≡ (ok tt, e')
      → class_exists e p c ≡ true
  class-delete_object p c id w e e' q = elim (Bool-cases (class_exists e p c)) [
    | inl t ↦ t
    | inr f ↦ unfold delete_object in ground arith
  ]

  class-create_object :
      (p c : Bytes) (id : ℕ) (d : Bytes) (w : World) (e e' : Engine)
      → create_object codec p c d w e ≡ (ok id, e')
      → class_exists e p c ≡ true
  class-create_object p c id d w e e' q = elim (Bool-cases (class_exists e p c)) [
    | inl t ↦ t
    | inr f ↦ unfold create_object in ground arith
  ]

  pub id-create_object :
      (p c : Bytes) (id : ℕ) (d : Bytes) (w : World) (e e' : Engine)
      → create_object codec p c d w e ≡ (ok id, e')
      → id ≡ (Idgen.current e.idgen (scope_key p c) + 1) % 2 ^ 64
  id-create_object p c id d w e e' q = answer _ _ _ (create_object-Wrote codec p c d w e) q

  -- After a successful `put_object` at an address, `get_object` of that address gives the bytes that were
  -- put, and of any other address what it gave before. Names hold no 0x00, and ids are below 2^64.
  pub get_object-put_object :
      (p c : Bytes) (id : ℕ) (d : Bytes) (w : World) (e e' : Engine) (p' c' : Bytes) (id' : ℕ)
      → IsAddress p c id
      → IsAddress p' c' id'
      → put_object codec p c id d w e ≡ (ok tt, e')
      → get_object codec p' c' id' e'
        ≡ (if same_address p c id p' c' id' then ok (some d) else get_object codec p' c' id' e)
  get_object-put_object p c id d w e e' p' c' id' h h' q =
      get_object-Wrote codec p c id (some d) tt tt e e' p' c' id' _ h h'
        (put_object-Wrote codec p c id d w e) (class-put_object p c id d w e e' q) q

  -- After a successful `delete_object` at an address, `get_object` of that address finds nothing, and of
  -- any other address what it found before. Names hold no 0x00, and ids are below 2^64.
  pub get_object-delete_object :
      (p c : Bytes) (id : ℕ) (w : World) (e e' : Engine) (p' c' : Bytes) (id' : ℕ)
      → IsAddress p c id
      → IsAddress p' c' id'
      → delete_object codec p c id w e ≡ (ok tt, e')
      → get_object codec p' c' id' e'
        ≡ (if same_address p c id p' c' id' then ok none else get_object codec p' c' id' e)
  get_object-delete_object p c id w e e' p' c' id' h h' q =
      get_object-Wrote codec p c id none tt tt e e' p' c' id' _ h h'
        (delete_object-Wrote codec p c id w e) (class-delete_object p c id w e e' q) q

  -- A successful `create_object` answers the class's counter plus one (as a 64-bit pattern). After it,
  -- `get_object` of that id gives the bytes stored, and of any other address what it gave before.
  pub get_object-create_object :
      (p c : Bytes) (id : ℕ) (d : Bytes) (w : World) (e e' : Engine) (p' c' : Bytes) (id' : ℕ)
      → IsAddress p c id
      → IsAddress p' c' id'
      → create_object codec p c d w e ≡ (ok id, e')
      → (id ≡ (Idgen.current e.idgen (scope_key p c) + 1) % 2 ^ 64)
        × (get_object codec p' c' id' e'
            ≡ (if same_address p c id p' c' id' then ok (some d) else get_object codec p' c' id' e))
  get_object-create_object p c id d w e e' p' c' id' h h' q =
      let t = class-create_object p c id d w e e' q in
      let i = id-create_object p c id d w e e' q in
      (
        i,
        get_object-Wrote codec p c id (some d) id id e e' p' c' id' (create_object codec p c d w e)
            h h' (rw i (create_object-Wrote codec p c d w e)) t q,
      )
