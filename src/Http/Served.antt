-- ===== src/Http/Served.antt =====
-- What clients of the object handlers get.
use zadodb.Prelude.{
  ℕ, ◌≤◌, ◌≡◌, refl, sym, ap, ◌∙◌, arith, nat_beq, if◌then◌else◌, ◌==◌, true, false, inl, inr,
  Option-cases, eq_self,
}
use zadodb.Prelude.{Option, none, some, length, take}
use zadodb.Prelude.Int.{int64_of}
use zadodb.Prelude.Dict.{find, put, remove, find-put, find-remove}
use zadodb.Bytes.{Bytes}
use zadodb.Bytes.Order.{bytes_eq}
use zadodb.Wal.Codec.{Codec}
use zadodb.Engine.{
  EngineError, class_exists_error, no_class, class_not_empty, not_found, invalid_name,
  marshal_error, wal_error, closed_error, Outcome, ok, err, Engine, World, create_object,
  get_object,
}
use zadodb.Engine.ReadBack.{IsAddress, same_address, id-create_object, get_object-create_object}
use zadodb.Http.{
  Value, int64, Fields, Formats, id_name, object, json_to_stored, stored_to_object, with_id,
  without_id, Request, Response, Handled, refuse, error_status, object_of,
}
use zadodb.Http.Classes.{finish_call}
use zadodb.Http.Objects.{
  max_object_bytes, parse_id, respond, found_object, handle_create_object, handle_get_object,
}

-- An engine error is never sent as a success.
error_status_high : (x : EngineError) → 400 ≤ error_status x
unfolding error_status
error_status_high class_exists_error = omega arith
error_status_high no_class = omega arith
error_status_high class_not_empty = omega arith
error_status_high not_found = omega arith
error_status_high invalid_name = omega arith
error_status_high marshal_error = omega arith
error_status_high wal_error = omega arith
error_status_high closed_error = omega arith

module _ (f : Formats) where
  -- A packed object is sent with its fields and its id.
  abbrev pub Sent : ℕ → Fields → Fields → Type 0
  Sent id m sent =
      (k : Bytes) → find k sent ≡ (if id_name == k then some (int64 (int64_of id)) else find k m)

  pub stored_to_object-pack :
      (m : Fields) (d : Bytes) (id : ℕ)
      → f.pack (some (remove id_name m)) ≡ some d
      → (sent : Fields) × (stored_to_object f d id ≡ object sent) × Sent id m sent
  unfolding stored_to_object with_id
  stored_to_object-pack m d id packed =
      let long = f.pack_some (some (remove id_name m)) d packed in
      let full : nat_beq (length d) 0 ≡ false = ground (arith, long) in
      let (m', back, same) = f.unpack-pack (remove id_name m) d packed in
      (
        put id_name (int64 (int64_of id)) m',
        rw (full, back) refl,
        λ k. find-put id_name k (int64 (int64_of id)) m' ∙ drop_twice k (find k m') (same k),
      )
    where
      drop_twice :
          (k : Bytes) (v : Option Value)
          → v ≡ find k (remove id_name m)
          → (if id_name == k then some (int64 (int64_of id)) else v)
            ≡ (if id_name == k then some (int64 (int64_of id)) else find k m)
      drop_twice k v same = ground (arith, same, find-remove id_name k m)

module _ (f : Formats) (codec : Codec) where
  -- What a created object is to be: sent with its id, and sent again for a GET of this id.
  pub record Created (r : Request) (m : Fields) (resp : Response) (e' : Engine) : Type 0 where
    pub id : ℕ
    pub sent : Fields
    pub body : resp.body ≡ object_of sent
    pub fields : Sent f id m sent
    pub read_back :
        (r' : Request)
        → r'.project ≡ r.project
        → r'.class ≡ r.class
        → parse_id r' ≡ some id
        → handle_get_object f codec r' e'
          ≡ (some (record { status = 200; body = object_of sent }), e')

  get-found :
      (r' : Request) (id : ℕ) (d : Bytes) (sent : Fields) (e' : Engine)
      → parse_id r' ≡ some id
      → get_object codec r'.project r'.class id e' ≡ ok (some d)
      → stored_to_object f d id ≡ object sent
      → handle_get_object f codec r' e'
        ≡ (some (record { status = 200; body = object_of sent }), e')
  unfolding handle_get_object
  get-found r' id d sent e' names found decoded =
      ap
        (λ i. elim i [
          | none ↦ refuse 400 e'
          | some id ↦
              finish_call (found_object f codec id) (get_object codec r'.project r'.class id e', e')
        ])
        names
      ∙ ap (λ o. finish_call (found_object f codec id) (o, e')) found
      ∙ ap (λ t. respond 200 t e') decoded

  pub created_bytes :
      (r : Request) (d : Bytes) (w : World) (e e1 : Engine) (id : ℕ)
      → IsAddress r.project r.class 0
      → create_object codec r.project r.class d w e ≡ (ok id, e1)
      → get_object codec r.project r.class id e1 ≡ ok (some d)
  created_bytes r d w e e1 id (p, c, z) made =
      let i = id-create_object codec r.project r.class id d w e e1 made in
      let at : IsAddress r.project r.class id = (p, c, omega (arith, i)) in
      let here : same_address r.project r.class id r.project r.class id ≡ true =
        ground (arith, eq_self r.project, eq_self r.class) in
      (get_object-create_object codec r.project r.class id d w e e1 r.project r.class id at at
        made).1
      ∙ ap (λ t. if t then ok (some d) else get_object codec r.project r.class id e) here

  answered-Created :
      (r : Request) (m : Fields) (d : Bytes) (w : World) (e e' : Engine) (resp : Response)
      (o : Outcome ℕ × Engine)
      → f.pack (some (remove id_name m)) ≡ some d
      → IsAddress r.project r.class 0
      → create_object codec r.project r.class d w e ≡ o
      → finish_call (λ id e1. respond 201 (stored_to_object f d id) e1) o ≡ (some resp, e')
      → resp.status ≡ 201
      → Created r m resp e'
  answered-Created r m d w e e' resp (err x, e1) packed names made answered fine =
      let high = error_status_high x in
      let status : error_status x ≡ resp.status =
        ap (λ h. elim h.0 [ none ↦ error_status x | some p ↦ p.status ]) answered in
      absurd (omega (arith, high, status, fine))
  answered-Created r m d w e e' resp (ok id, e1) packed names made answered fine =
      let (sent, decoded, fields) = stored_to_object-pack f m d id packed in
      let reply : Response = record { status = 201; body = object_of sent } in
      let said : respond 201 (object sent) e1 ≡ (some resp, e') =
        ap (λ t. respond 201 t e1) (sym decoded) ∙ answered in
      let same : reply ≡ resp = ap (λ h. elim h.0 [ none ↦ reply | some p ↦ p ]) said in
      let state : e1 ≡ e' = ap (λ h. h.1) said in
      record {
        id = id;
        sent = sent;
        body = ap (λ p. p.body) (sym same);
        fields = fields;
        read_back = λ r' p c i.
            get-found r' id d sent e' i
              (rw (← state, p, c) (created_bytes r d w e e1 id names made)) decoded;
      }

  pub get-handle_create_object :
      (r : Request) (b : Bytes) (m : Fields) (w : World) (e e' : Engine) (resp : Response)
      → r.body ≡ some b
      → f.json_map (take max_object_bytes b) ≡ some (some m)
      → IsAddress r.project r.class 0
      → handle_create_object f codec r w e ≡ (some resp, e')
      → resp.status ≡ 201
      → Created r m resp e'
  unfolding handle_create_object json_to_stored without_id
  get-handle_create_object r b m w e e' resp here parsed names answered fine =
      let next : Option Bytes → Handled = λ s. elim s [
        | none ↦ refuse 400 e
        | some stored ↦
            finish_call (λ id e1. respond 201 (stored_to_object f stored id) e1)
              (create_object codec r.project r.class stored w e)
      ] in
      let read : handle_create_object f codec r w e ≡ next (f.pack (some (remove id_name m))) =
        ap
          (λ o. elim o [
            | none ↦ refuse 400 e
            | some b ↦ next (json_to_stored f (take max_object_bytes b))
          ])
          here
        ∙ ap (λ o. next (elim o [ none ↦ none | some m ↦ f.pack (without_id m) ])) parsed in
      elim (Option-cases (f.pack (some (remove id_name m)))) [
        | inl unpacked ↦
            let status : 400 ≡ resp.status =
              ap (λ h. elim h.0 [ none ↦ 400 | some p ↦ p.status ])
                (sym (read ∙ ap next unpacked) ∙ answered) in
            absurd (omega (arith, status, fine))
        | inr (d, packed) ↦
            answered-Created r m d w e e' resp (create_object codec r.project r.class d w e) packed
              names refl (sym (read ∙ ap next packed) ∙ answered) fine
      ]
