-- ===== src/Examples/Classes.antt =====
-- The classes of the example store.
use zadodb.Prelude.{◌≡◌, refl, arith}
use zadodb.Prelude.Dict.{put, remove}
use zadodb.Bytes.Order.{bytes_eq}
use zadodb.Engine.{class_exists}
use zadodb.Engine.Admin.{has, list_classes, Registered, has-list_classes}
use zadodb.Examples.Objects.{app, users, store}

store-Registered : Registered store.classes
unfolding put remove
store-Registered = ((app, users, (omega arith, tt), refl), tt)

has-list_classes_example : has users (list_classes store app) ≡ class_exists store app users
has-list_classes_example = has-list_classes store app users store-Registered (omega arith, tt)
