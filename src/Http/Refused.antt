-- ===== src/Http/Refused.antt =====
-- A request for an object that is answered with an error changes no value.
use zadodb.Prelude.{ℕ, ◌<◌, ◌≤◌, ◌≡◌, ◌≢◌, refl, sym, ap, ◌∙◌, arith, inl, inr, Option-cases}
use zadodb.Prelude.{Option, none, some, take}
use zadodb.Prelude.Dict.{remove}
use zadodb.Bytes.{Bytes}
use zadodb.Bytes.Order.{bytes_eq}
use zadodb.Wal.Codec.{Codec}
use zadodb.Engine.{Outcome, Engine, World, lookup}
use zadodb.Engine.Objects.{
  Wrote, done, failed, create_object-Wrote, put_object-Wrote, delete_object-Wrote,
}
use zadodb.Http.{
  Fields, Formats, id_name, object, json_to_stored, stored_to_object, without_id, Request, Response,
  Handled, refuse, error_status, no_body, object_of,
}
use zadodb.Http.Classes.{finish_call}
use zadodb.Http.Objects.{
  max_object_bytes, parse_id, respond, handle_create_object, handle_put_object,
  handle_delete_object,
}
use zadodb.Http.Served.{stored_to_object-pack}

-- The requests that write one object.
pub data Method : Type 0 where
  posting putting deleting : Method

-- A handler that leaves the values, or answers below 400.
abbrev Settles : Engine → Handled → Type 0
Settles e h =
    (resp : Response) (e' : Engine)
    → h ≡ (some resp, e')
    → 400 ≤ resp.status
    → (key : Bytes) → lookup e' key ≡ lookup e key

answer-Settles :
    (e : Engine) (status : ℕ) (resp0 : Response) (e1 : Engine)
    → resp0.status < 400
    → Settles e (some resp0, e1)
answer-Settles e status resp0 e1 low resp e' said high key =
    let same : resp0.status ≡ resp.status =
      ap (λ h. elim h.0 [ none ↦ resp0.status | some p ↦ p.status ]) said in
    absurd (omega (arith, same, low, high))

refuse-Settles :
    (e : Engine) (status : ℕ) (e1 : Engine)
    → ((key : Bytes) → lookup e1 key ≡ lookup e key)
    → Settles e (refuse status e1)
refuse-Settles e status e1 same resp e' said high key =
    ap (λ h. lookup h.1 key) (sym said) ∙ same key

finish-Settles :
    {A : Type 0} (k : A → Engine → Handled) (key : Bytes) (v : Option Bytes) (a : A) (e : Engine)
    (o : Outcome A × Engine)
    → Wrote key v a e o
    → ((e1 : Engine) → Settles e (k a e1))
    → Settles e (finish_call k o)
finish-Settles k key v a e o (done e1 wrote classes) fine = fine e1
finish-Settles k key v a e o (failed z e1 same classes) fine =
    refuse-Settles e (error_status z) e1 same

id_then :
    (e : Engine) (i : Option ℕ) (next : ℕ → Handled)
    → ((id : ℕ) → Settles e (next id))
    → Settles e (elim i [ none ↦ refuse 400 e | some id ↦ next id ])
id_then e none next good = refuse-Settles e 400 e (λ key. refl)
id_then e (some id) next good = good id

module _ (f : Formats) (codec : Codec) where
  -- The rest of POST and of PUT, once the body is parsed.
  stored_then :
      (e : Engine) (m : Fields) (status : ℕ) (next : Bytes → Handled)
      → ((d : Bytes)
          → ((id : ℕ) → (sent : Fields) × (stored_to_object f d id ≡ object sent))
          → Settles e (next d))
      → Settles e
          (elim (f.pack (some (remove id_name m))) [ none ↦ refuse 400 e | some d ↦ next d ])
  stored_then e m status next good = elim (Option-cases (f.pack (some (remove id_name m)))) [
    | inl bad ↦ rw bad (refuse-Settles e 400 e (λ key. refl))
    | inr (d, packed) ↦ rw packed (
        good d (λ id.
          let (sent, decoded, fields) = stored_to_object-pack f m d id packed in (sent, decoded)))
  ]

  body_then :
      (r : Request) (e : Engine) (next : Bytes → Handled)
      → ((b : Bytes) → r.body ≡ some b → f.json_map (take max_object_bytes b) ≢ some none)
      → ((d : Bytes)
          → ((id : ℕ) → (sent : Fields) × (stored_to_object f d id ≡ object sent))
          → Settles e (next d))
      → Settles e (elim r.body [
        | none ↦ refuse 400 e
        | some b ↦ elim (json_to_stored f (take max_object_bytes b)) [
          | none ↦ refuse 400 e
          | some d ↦ next d
        ]
      ])
  unfolding json_to_stored without_id
  body_then r e next full good = elim (Option-cases r.body) [
    | inl unread ↦ rw unread (refuse-Settles e 400 e (λ key. refl))
    | inr (b, here) ↦ elim (Option-cases (f.json_map (take max_object_bytes b))) [
      | inl bad ↦ rw (here, bad) (refuse-Settles e 400 e (λ key. refl))
      | inr (some m, parsed) ↦ rw (here, parsed) (stored_then e m 0 next good)
      | inr (none, parsed) ↦ absurd (full b here parsed)
    ]
  ]

  sends-Settles :
      (e : Engine) (status id : ℕ) (d : Bytes) (e1 : Engine)
      → status < 400
      → (sent : Fields) × (stored_to_object f d id ≡ object sent)
      → Settles e (respond status (stored_to_object f d id) e1)
  sends-Settles e status id d e1 low (sent, decoded) =
      rw decoded
        (answer-Settles e status (record { status = status; body = object_of sent }) e1 low)

  abbrev pub handle_method : Method → Request → World → Engine → Handled
  handle_method posting = handle_create_object f codec
  handle_method putting = handle_put_object f codec
  handle_method deleting = handle_delete_object f codec

  Settles-handle_method :
      (h : Method) (r : Request) (w : World) (e : Engine)
      → ((b : Bytes) → r.body ≡ some b → f.json_map (take max_object_bytes b) ≢ some none)
      → Settles e (handle_method h r w e)
  unfolding handle_create_object handle_put_object handle_delete_object
  Settles-handle_method posting r w e full = body_then r e _ full (λ d good.
      finish-Settles _ _ _ _ e _ (create_object-Wrote codec r.project r.class d w e)
        (λ e1. sends-Settles e 201 _ d e1 (omega arith) (good _)))
  Settles-handle_method putting r w e full = id_then e (parse_id r) _ (λ id.
      body_then r e _ full (λ d good.
        finish-Settles _ _ _ _ e _ (put_object-Wrote codec r.project r.class id d w e)
          (λ e1. sends-Settles e 200 id d e1 (omega arith) (good id))))
  Settles-handle_method deleting r w e full = id_then e (parse_id r) _ (λ id.
      finish-Settles _ _ _ _ e _ (delete_object-Wrote codec r.project r.class id w e)
        (λ e1. answer-Settles e 204 (record { status = 204; body = no_body }) e1 (omega arith)))

  -- A POST, PUT or DELETE of an object whose body is not the JSON null, and which is answered with a
  -- status of 400 or more, leaves every value in the store as it was.
  pub refused_unchanged :
      (h : Method) (r : Request) (w : World) (e e' : Engine) (resp : Response)
      → ((b : Bytes) → r.body ≡ some b → f.json_map (take max_object_bytes b) ≢ some none)
      → handle_method h r w e ≡ (some resp, e')
      → 400 ≤ resp.status
      → (key : Bytes) → lookup e' key ≡ lookup e key
  refused_unchanged h r w e e' resp full said high =
      Settles-handle_method h r w e full resp e' said high
