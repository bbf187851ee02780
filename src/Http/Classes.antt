-- ===== src/Http/Classes.antt =====
-- internal/server/http/handlers_class.go: the handlers of classes and projects.
use zadodb.Prelude.{◌^◌, nat_beq, if◌then◌else◌, none, some, length, take}
use zadodb.Bytes.{Bytes}
use zadodb.Wal.Codec.{Codec}
use zadodb.Engine.{Outcome, ok, err, Engine, World, class_exists, create_class}
use zadodb.Engine.Query.{drop_class}
use zadodb.Engine.Admin.{list_classes, list_projects}
use zadodb.Http.{
  Formats, Request, Handled, answer, refuse, error_status, no_body, health, class_of_project,
  classes_of, projects_of,
}

-- What is sent for the outcome of a call to the engine, from the status and body of success.
abbrev pub finish_call : {A : Type 0} → (A → Engine → Handled) → Outcome A × Engine → Handled
finish_call k (err x, e) = refuse (error_status x) e
finish_call k (ok a, e) = k a e

module _ (f : Formats) (codec : Codec) where
  name_given : Bytes → Request → World → Engine → Handled
  name_given name r w e =
      if nat_beq (length name) 0
      then refuse 400 e
      else finish_call (λ u e'. answer 201 (class_of_project name r.project) e')
          (create_class codec r.project name w e)

  unfoldable pub handle_create_class : Request → World → Engine → Handled
  unfolding name_given
  handle_create_class r w e = elim r.body [
    | none ↦ refuse 400 e
    | some b ↦ elim (f.json_name (take (2 ^ 20) b)) [
      | none ↦ refuse 400 e
      | some name ↦ name_given name r w e
    ]
  ]

  unfoldable pub handle_delete_class : Request → World → Engine → Handled
  handle_delete_class r w e =
      finish_call (λ u e'. answer 204 no_body e') (drop_class codec r.project r.class w e)

unfoldable pub handle_list_classes : Request → Engine → Handled
handle_list_classes r e = answer 200 (classes_of (list_classes e r.project) r.project) e

unfoldable pub handle_get_class : Request → Engine → Handled
handle_get_class r e =
    if class_exists e r.project r.class
    then answer 200 (class_of_project r.class r.project) e
    else refuse 404 e

unfoldable pub handle_list_projects : Engine → Handled
handle_list_projects e = answer 200 (projects_of (list_projects e)) e

abbrev pub handle_health : Engine → Handled
handle_health e = answer 200 health e
