-- ===== src/Http/Routes.antt =====
-- internal/server/http/server.go: the handlers that `routes` registers, behind the middleware. Which handler a
-- method and a path select is decided by net/http. The handler of the statistics is left out.
use zadodb.Wal.Codec.{Codec}
use zadodb.Engine.{Engine, World}
use zadodb.Http.{Formats, Request, Response, Handled, with_middleware}
use zadodb.Http.Filters.{Texts}
use zadodb.Http.Classes.{
  handle_create_class, handle_delete_class, handle_list_classes, handle_get_class,
  handle_list_projects, handle_health,
}
use zadodb.Http.Objects.{
  handle_create_object, handle_create_objects_bulk, handle_list_objects, handle_get_object,
  handle_put_object, handle_delete_object,
}

pub data Route : Type 0 where
  health_route projects_route class_create class_list class_get class_delete : Route
  object_create object_bulk object_list object_get object_put object_delete : Route

module _ (f : Formats) (t : Texts) (codec : Codec) where
  unfoldable pub route : Route → Request → World → Engine → Handled
  route health_route r w e = handle_health e
  route projects_route r w e = handle_list_projects e
  route class_create r w e = handle_create_class f codec r w e
  route class_list r w e = handle_list_classes r e
  route class_get r w e = handle_get_class r e
  route class_delete r w e = handle_delete_class f codec r w e
  route object_create r w e = handle_create_object f codec r w e
  route object_bulk r w e = handle_create_objects_bulk f codec r w e
  route object_list r w e = handle_list_objects f t r e
  route object_get r w e = handle_get_object f codec r e
  route object_put r w e = handle_put_object f codec r w e
  route object_delete r w e = handle_delete_object f codec r w e

  unfoldable pub serve : Route → Request → World → Engine → Response × Engine
  unfolding route
  serve x r w e = with_middleware (route x r w e)
