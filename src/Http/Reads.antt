-- ===== src/Http/Reads.antt =====
-- The routes that read leave the engine as it is.
use zadodb.Prelude.{ℕ, ◌≡◌, refl, ◌∙◌, if◌then◌else◌, Bool, true, false, Option, none, some}
use zadodb.Prelude.Int.{ℤ}
use zadodb.Bytes.{Bytes}
use zadodb.Wal.Codec.{Codec}
use zadodb.Engine.{Outcome, ok, err, Engine, World, class_exists, get_object}
use zadodb.Engine.Query.{query_objects}
use zadodb.Http.{
  Formats, answer, refuse, class_of_project, Decoded, object, undecodable, panicking,
  stored_to_object, Request, Handled, with_middleware,
}
use zadodb.Http.Filters.{Texts}
use zadodb.Http.Classes.{finish_call, handle_list_classes, handle_get_class, handle_list_projects}
use zadodb.Http.Objects.{
  Rows, rows, row_undecodable, row_panics, respond, respond_rows, parse_id, found_object,
  handle_list_objects, handle_get_object,
}
use zadodb.Http.Routes.{
  Route, health_route, projects_route, class_create, class_list, class_get, class_delete,
  object_create, object_bulk, object_list, object_get, object_put, object_delete, route, serve,
}

abbrev pub reads_only : Route → Bool
reads_only health_route = true
reads_only projects_route = true
reads_only class_list = true
reads_only class_get = true
reads_only object_list = true
reads_only object_get = true
reads_only class_create = false
reads_only class_delete = false
reads_only object_create = false
reads_only object_bulk = false
reads_only object_put = false
reads_only object_delete = false

respond_same : (status : ℕ) (d : Decoded) (e : Engine) → (respond status d e).1 ≡ e
respond_same status (object m) e = refl
respond_same status undecodable e = refl
respond_same status panicking e = refl

rows_same : (limit offset : ℤ) (e : Engine) (rs : Rows) → (respond_rows limit offset e rs).1 ≡ e
rows_same limit offset e (rows ms) = refl
rows_same limit offset e row_undecodable = refl
rows_same limit offset e row_panics = refl

finish_same :
    {A : Type 0} (k : A → Engine → Handled) (o : Outcome A) (e : Engine)
    → ((a : A) → (k a e).1 ≡ e)
    → (finish_call k (o, e)).1 ≡ e
finish_same k (ok a) e same = same a
finish_same k (err x) e same = refl

middleware_same : (h : Handled) → (with_middleware h).1 ≡ h.1
unfolding with_middleware
middleware_same (none, e) = refl
middleware_same (some r, e) = refl

module _ (f : Formats) (t : Texts) (codec : Codec) where
  found_same : (id : ℕ) (e : Engine) (v : Option Bytes) → (found_object f codec id v e).1 ≡ e
  found_same id e none = refl
  found_same id e (some d) = respond_same 200 (stored_to_object f d id) e

  id_same :
      (r : Request) (e : Engine) (i : Option ℕ)
      → (elim i as (λ x. Handled) [
        | none ↦ refuse 400 e
        | some id ↦
            finish_call (found_object f codec id) (get_object codec r.project r.class id e, e)
      ]).1
        ≡ e
  id_same r e none = refl
  id_same r e (some id) =
      finish_same (found_object f codec id) (get_object codec r.project r.class id e) e
        (found_same id e)

  class_same : (r : Request) (e : Engine) → (handle_get_class r e).1 ≡ e
  unfolding handle_get_class
  class_same r e = either (class_exists e r.project r.class)
    where
      either :
          (b : Bool)
          → (if b then answer 200 (class_of_project r.class r.project) e else refuse 404 e).1 ≡ e
      either true = refl
      either false = refl

  route_same :
      (x : Route) (r : Request) (w : World) (e : Engine)
      → reads_only x ≡ true
      → (route f t codec x r w e).1 ≡ e
  unfolding route handle_list_classes handle_list_projects handle_list_objects handle_get_object
  route_same health_route r w e h = refl
  route_same projects_route r w e h = refl
  route_same class_list r w e h = refl
  route_same class_get r w e h = class_same r e
  route_same object_list r w e h =
      finish_same _ (query_objects _ _ _ _ _ e) e (λ os. rows_same _ _ e _)
  route_same object_get r w e h = id_same r e (parse_id r)
  route_same class_create r w e h = cc
  route_same class_delete r w e h = cc
  route_same object_create r w e h = cc
  route_same object_bulk r w e h = cc
  route_same object_put r w e h = cc
  route_same object_delete r w e h = cc

  -- A request on one of the reading routes leaves the engine as it was, whatever it asks for and however
  -- it is answered, a panic included.
  pub serve_reads :
      (x : Route) (r : Request) (w : World) (e : Engine)
      → reads_only x ≡ true
      → (serve f t codec x r w e).1 ≡ e
  unfolding serve
  serve_reads x r w e h = middleware_same (route f t codec x r w e) ∙ route_same x r w e h
