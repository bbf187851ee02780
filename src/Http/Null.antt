-- ===== src/Http/Null.antt =====
-- A POST whose body is the JSON null, which json.Unmarshal reads as a nil map.
use zadodb.Prelude.{ℕ, ◌≡◌, refl, ap, ◌∙◌, arith, nat_beq, false, Option, none, some, length, take}
use zadodb.Bytes.{Bytes}
use zadodb.Bytes.Order.{bytes_eq}
use zadodb.Wal.Codec.{Codec}
use zadodb.Engine.{ok, Engine, World, create_object, get_object}
use zadodb.Engine.ReadBack.{IsAddress}
use zadodb.Http.{
  Formats, panicking, json_to_stored, stored_to_object, with_id, without_id, Request, Handled,
  refuse, write_error, with_middleware,
}
use zadodb.Http.Classes.{finish_call}
use zadodb.Http.Objects.{
  max_object_bytes, parse_id, respond, found_object, handle_create_object, handle_get_object,
}
use zadodb.Http.Served.{created_bytes}

module _ (f : Formats) (codec : Codec) where
  null_panics :
      (d : Bytes) (id : ℕ)
      → f.pack none ≡ some d
      → f.unpack d ≡ some none
      → stored_to_object f d id ≡ panicking
  unfolding stored_to_object with_id
  null_panics d id packed back =
      let long = f.pack_some none d packed in
      let full : nat_beq (length d) 0 ≡ false = ground (arith, long) in rw (full, back) refl

  posted :
      (r : Request) (b d : Bytes) (w : World) (e : Engine)
      → r.body ≡ some b
      → f.json_map (take max_object_bytes b) ≡ some none
      → f.pack none ≡ some d
      → handle_create_object f codec r w e
        ≡ finish_call
            (λ id e1. respond 201 (stored_to_object f d id) e1)
            (create_object codec r.project r.class d w e)
  unfolding handle_create_object json_to_stored without_id
  posted r b d w e here parsed packed =
      let next : Option Bytes → Handled = λ s. elim s [
        | none ↦ refuse 400 e
        | some stored ↦
            finish_call (λ id e1. respond 201 (stored_to_object f stored id) e1)
              (create_object codec r.project r.class stored w e)
      ] in
      ap
        (λ o. elim o [
          | none ↦ refuse 400 e
          | some b ↦ next (json_to_stored f (take max_object_bytes b))
        ])
        here
      ∙ ap (λ o. next (elim o [ none ↦ none | some m ↦ f.pack (without_id m) ])) parsed
      ∙ ap next packed

  got :
      (r' : Request) (id : ℕ) (d : Bytes) (e' : Engine)
      → parse_id r' ≡ some id
      → get_object codec r'.project r'.class id e' ≡ ok (some d)
      → handle_get_object f codec r' e' ≡ respond 200 (stored_to_object f d id) e'
  unfolding handle_get_object
  got r' id d e' names found =
      ap
        (λ i. elim i [
          | none ↦ refuse 400 e'
          | some id ↦
              finish_call (found_object f codec id) (get_object codec r'.project r'.class id e', e')
        ])
        names
      ∙ ap (λ o. finish_call (found_object f codec id) (o, e')) found

  -- Where msgpack packs a nil map to bytes that it unpacks to a nil map: a POST of null is answered with
  -- status 500 although its object was created, and every later GET of that object is answered with 500.
  pub null-handle_create_object :
      (r r' : Request) (b d : Bytes) (w : World) (e e' : Engine) (id : ℕ)
      → r.body ≡ some b
      → f.json_map (take max_object_bytes b) ≡ some none
      → f.pack none ≡ some d
      → f.unpack d ≡ some none
      → create_object codec r.project r.class d w e ≡ (ok id, e')
      → IsAddress r.project r.class 0
      → r'.project ≡ r.project
      → r'.class ≡ r.class
      → parse_id r' ≡ some id
      → (with_middleware (handle_create_object f codec r w e) ≡ (write_error 500, e'))
        × (with_middleware (handle_get_object f codec r' e') ≡ (write_error 500, e'))
  unfolding with_middleware
  null-handle_create_object r r' b d w e e' id here parsed packed back made names p c named =
      let panics = null_panics d id packed back in
      let there : get_object codec r'.project r'.class id e' ≡ ok (some d) =
        rw (p, c) (created_bytes f codec r d w e e' id names made) in
      (
        ap with_middleware (
            posted r b d w e here parsed packed
            ∙ ap (finish_call (λ id e1. respond 201 (stored_to_object f d id) e1)) made
            ∙ ap (λ t. respond 201 t e') panics),
        ap with_middleware (got r' id d e' named there ∙ ap (λ t. respond 200 t e') panics),
      )
