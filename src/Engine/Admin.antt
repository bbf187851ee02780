-- ===== src/Engine/Admin.antt =====
-- The lists of projects and classes of internal/storage/engine.go. A set is a list without repetitions.
use zadodb.Prelude.{
  ◌≡◌, refl, ap, ◌∙◌, arith, if◌then◌else◌, ◌==◌, ◌||◌, Bool, true, false, Bool-cases, inl, inr,
  All, eq_self,
}
use zadodb.Prelude.{List, [], ◌∷◌}
use zadodb.Prelude.Dict.{Dict, find}
use zadodb.Bytes.{Bytes, bytes_lt}
use zadodb.Bytes.Order.{bytes_eq}
use zadodb.Wal.{split_scope, scope_key}
use zadodb.Wal.Keys.{IsName, split_scope-sep}
use zadodb.Engine.{Engine, class_exists, is_some}

abbrev pub has : Bytes → List Bytes → Bool
has x [] = false
has x (y ∷ ys) = (y == x) || has x ys

-- `sort.Strings`.
insert_name : Bytes → List Bytes → List Bytes
insert_name x [] = x ∷ []
insert_name x (y ∷ ys) =
    let rest = insert_name x ys in if bytes_lt y x then y ∷ rest else x ∷ y ∷ ys

sort_names : List Bytes → List Bytes
sort_names [] = []
sort_names (x ∷ xs) = insert_name x (sort_names xs)

-- `splitScopeKey` is `splitScope` of the log keys.
abbrev pub split_scope_key : Bytes → Bytes × Bytes
split_scope_key = split_scope

-- The loop of `ListClasses`.
classes_in : Bytes → Dict Bytes (Unit {0}) → List Bytes
classes_in project [] = []
classes_in project ((k, v) ∷ m) =
    let rest = classes_in project m in
    let (p, c) = split_scope_key k in if p == project then c ∷ rest else rest

unfoldable pub list_classes : Engine → Bytes → List Bytes
unfolding sort_names insert_name classes_in
list_classes e project = sort_names (classes_in project e.classes)

-- The loop of `ListProjects`: each project once.
projects_in : Dict Bytes (Unit {0}) → List Bytes
projects_in [] = []
projects_in ((k, v) ∷ m) =
    let rest = projects_in m in
    let (p, c) = split_scope_key k in if has p rest then rest else p ∷ rest

unfoldable pub list_projects : Engine → List Bytes
unfolding sort_names insert_name projects_in
list_projects e = sort_names (projects_in e.classes)

-- The registered classes are joined of names without 0x00.
abbrev pub Registered : Dict Bytes (Unit {0}) → Type 0
Registered = All (λ kv. (p : Bytes) × (c : Bytes) × IsName p × (kv.0 ≡ scope_key p c))

has-insert_name :
    (x y : Bytes) (ys : List Bytes) → has x (insert_name y ys) ≡ ((y == x) || has x ys)
unfolding insert_name
has-insert_name x y [] = refl
has-insert_name x y (z ∷ zs) = ground (arith, has-insert_name x y zs)

has-sort_names : (x : Bytes) (ys : List Bytes) → has x (sort_names ys) ≡ has x ys
unfolding sort_names
has-sort_names x [] = refl
has-sort_names x (y ∷ ys) =
    has-insert_name x y (sort_names ys) ∙ ap (λ b. (y == x) || b) (has-sort_names x ys)

split-scope_key : (p c : Bytes) → IsName p → split_scope_key (scope_key p c) ≡ (p, c)
unfolding scope_key
split-scope_key p c h = split_scope-sep p c h

-- Another key of the same project has another class.
another :
    (p p' c c' k : Bytes)
    → k ≡ scope_key p' c'
    → (p' == p) ≡ true
    → (k == scope_key p c) ≡ false
    → (c' == c) ≡ false
another p p' c c' k e there other = elim (Bool-cases (c' == c)) [
  | inr name ↦ name
  | inl name ↦
      let same : k ≡ scope_key p c =
        e
        ∙ ap (λ q. scope_key q c') ((bytes_eq.beq_iff p' p).0 there)
        ∙ ap (scope_key p) ((bytes_eq.beq_iff c' c).0 name) in
      let met : (k == scope_key p c) ≡ true = (bytes_eq.beq_iff k (scope_key p c)).1 same in
      absurd (ground (arith, met, other))
]

has-classes_in :
    (p c : Bytes) (m : Dict Bytes (Unit {0}))
    → Registered m
    → IsName p
    → has c (classes_in p m) ≡ is_some (find (scope_key p c) m)
unfolding classes_in find is_some
has-classes_in p c [] w h = refl
has-classes_in p c ((k, v) ∷ m) ((p', c', h', e), w) h =
    let rest = has-classes_in p c m w h in
    elim (Bool-cases (k == scope_key p c)) [
      | inl same ↦
          let here : split_scope_key k ≡ (p, c) =
            ap split_scope ((bytes_eq.beq_iff k (scope_key p c)).0 same) ∙ split-scope_key p c h in
          rw (ap (λ r. r.0) here, ap (λ r. r.1) here, eq_self p, eq_self c, same) refl
      | inr other ↦
          let here : split_scope_key k ≡ (p', c') = ap split_scope e ∙ split-scope_key p' c' h' in
          rw (ap (λ r. r.0) here, ap (λ r. r.1) here, other)
            (elim (Bool-cases (p' == p)) [
              | inr elsewhere ↦ rw elsewhere rest
              | inl there ↦
                  let name : (c' == c) ≡ false = another p p' c c' k e there other in
                  rw (there, name) rest
            ])
    ]

-- `ListClasses` of a project names exactly the classes that exist in it, for classes registered under
-- names without 0x00.
pub has-list_classes :
    (e : Engine) (p c : Bytes)
    → Registered e.classes
    → IsName p
    → has c (list_classes e p) ≡ class_exists e p c
unfolding list_classes class_exists
has-list_classes e p c w h =
    has-sort_names c (classes_in p e.classes) ∙ has-classes_in p c e.classes w h
