-- ===== src/Http/Filters.antt =====
-- internal/server/http/filters.go: the filters of a listing. A compiled expression is its text, and an
-- expression that `likeToRegex` writes always compiles; what a text matches is for the package regexp to
-- say, a parameter here, and Http/Filters/Expressions states what is relied on.
pub mod Expressions
pub mod Like
use zadodb.Prelude.{
  ℕ, ltb, leb, nat_beq, if◌then◌else◌, not, ◌&&◌, ◌||◌, ◌==◌, Bool, true, false, Option, none, some,
  List, [], ◌∷◌, ◌++◌, drop, length,
}
use zadodb.Prelude.Int.{ℤ}
use zadodb.Prelude.Dict.{Dict, find}
use zadodb.Bytes.{Bytes}
use zadodb.Bytes.Order.{bytes_eq}
use zadodb.Btree.Lookup.Prefix.{starts_with}
use zadodb.Http.{
  Value, null, text, flag, float64, float32, int64, int, uint64, other, Fields, GoMap, Formats,
}

-- What strings, unicode/utf8, regexp, strconv and fmt do with texts and values.
pub record Texts : Type 0 where
  pub to_lower : Bytes → Bytes
  -- What `range` goes through, and `string(r)`.
  pub runes : Bytes → List ℕ
  pub string_of : ℕ → Bytes
  -- `regexp.QuoteMeta`, and `regexp.Compile` of the first text with `MatchString` of the second.
  pub quote_meta : Bytes → Bytes
  pub matches : Bytes → Bytes → Bool
  pub format_float64 : ℕ → Bytes
  pub format_float32 : ℕ → Bytes
  pub format_int : ℤ → Bytes
  pub format_uint : ℕ → Bytes
  -- `fmt.Sprintf("%v", …)` of the other values.
  pub sprint : ℕ → Bytes

-- The flags: . spans newlines, and the case is ignored or not.
abbrev pub flags_of : Bool → Bytes
flags_of true = b'(' ∷ b'?' ∷ b'i' ∷ b's' ∷ b')' ∷ []
flags_of false = b'(' ∷ b'?' ∷ b's' ∷ b')' ∷ []

module _ (t : Texts) where
  -- The switch on a rune: what is written for it.
  unfoldable pub like_rune_text : ℕ → Bytes
  like_rune_text r =
      if nat_beq r b'%'
      then b'.' ∷ b'*' ∷ []
      else if nat_beq r b'_'
      then b'.' ∷ []
      else t.quote_meta (t.string_of r)

  -- The loop over the pattern.
  unfoldable pub like_texts : List ℕ → Bytes
  unfolding like_rune_text
  like_texts [] = []
  like_texts (r ∷ rs) = like_rune_text r ++ like_texts rs

  -- `likeToRegex`.
  unfoldable pub like_to_regex : Bytes → Bool → Bytes
  unfolding like_texts
  like_to_regex pattern ci = flags_of ci ++ (b'^' ∷ (like_texts (t.runes pattern) ++ (b'$' ∷ [])))

  unfoldable pub field_string : Value → Option Bytes
  field_string null = none
  field_string (text s) = some s
  field_string (flag true) = some (b't' ∷ b'r' ∷ b'u' ∷ b'e' ∷ [])
  field_string (flag false) = some (b'f' ∷ b'a' ∷ b'l' ∷ b's' ∷ b'e' ∷ [])
  field_string (float64 n) = some (t.format_float64 n)
  field_string (float32 n) = some (t.format_float32 n)
  field_string (int64 z) = some (t.format_int z)
  field_string (int z) = some (t.format_int z)
  field_string (uint64 n) = some (t.format_uint n)
  field_string (other n) = some (t.sprint n)

pub data Test : Type 0 where
  equals : Bytes → Test
  like : Bytes → Test

pub record Filter : Type 0 where
  pub field : Bytes
  pub test : Test

pub record Matcher : Type 0 where
  pub filters : List Filter
  pub ci : Bool

-- `q.Get`.
abbrev pub first_of : Option (List Bytes) → Bytes
first_of none = []
first_of (some []) = []
first_of (some (v ∷ vs)) = v

abbrev pub query_get : Dict Bytes (List Bytes) → Bytes → Bytes
query_get q key = first_of (find key q)

abbrev ci_name : Bytes
ci_name = b'c' ∷ b'i' ∷ []

abbrev false_text : Bytes
false_text = b'f' ∷ b'a' ∷ b'l' ∷ b's' ∷ b'e' ∷ []

unfoldable pub folds : Dict Bytes (List Bytes) → Bool
folds q = not (query_get q ci_name == false_text) && not (query_get q ci_name == (b'0' ∷ []))

abbrev eq_prefix : Bytes
eq_prefix = b'e' ∷ b'q' ∷ b'.' ∷ []

abbrev like_prefix : Bytes
like_prefix = b'l' ∷ b'i' ∷ b'k' ∷ b'e' ∷ b'.' ∷ []

module _ (t : Texts) where
  -- The switch on one parameter: its filter, if it is one and names a field.
  unfoldable pub filter_of : Bool → Bytes → Bytes → List Filter
  filter_of ci key v =
      if starts_with eq_prefix key
      then (if nat_beq (length (drop 3 key)) 0
          then []
          else record { field = drop 3 key; test = equals (if ci then t.to_lower v else v) } ∷ [])
      else if starts_with like_prefix key
      then (if nat_beq (length (drop 5 key)) 0
          then []
          else record { field = drop 5 key; test = like (like_to_regex t v ci) } ∷ [])
      else []

  -- The loop over the query.
  unfoldable pub collect_filters : Bool → Dict Bytes (List Bytes) → List Filter
  unfolding filter_of
  collect_filters ci [] = []
  collect_filters ci ((key, []) ∷ q) = collect_filters ci q
  collect_filters ci ((key, v ∷ vs) ∷ q) = filter_of ci key v ++ collect_filters ci q

  unfoldable pub parse_filters : Dict Bytes (List Bytes) → Option Matcher
  unfolding collect_filters folds
  parse_filters q =
      let fs = collect_filters (folds q) q in
      if nat_beq (length fs) 0 then none else some (record { filters = fs; ci = folds q })

  passes : Test → Bool → Bytes → Bool
  passes (like re) ci s = t.matches re s
  passes (equals v) ci s = (if ci then t.to_lower s else s) == v

  passes_value : Test → Bool → Option Bytes → Bool
  unfolding passes
  passes_value test ci none = false
  passes_value test ci (some s) = passes test ci s

  passes_field : Test → Bool → Option Value → Bool
  unfolding passes_value
  passes_field test ci none = false
  passes_field test ci (some v) = passes_value test ci (field_string t v)

  -- The loop of `match` over the filters. A nil map has no field.
  unfoldable pub match_filters : List Filter → Bool → Fields → Bool
  unfolding passes_field
  match_filters [] ci m = true
  match_filters (f ∷ fs) ci m =
      let rest = match_filters fs ci m in
      if passes_field f.test ci (find f.field m) then rest else false

  unfoldable pub match_map : Matcher → Option GoMap → Option Bool
  unfolding match_filters
  match_map m none = none
  match_map m (some none) = some (match_filters m.filters m.ci [])
  match_map m (some (some fields)) = some (match_filters m.filters m.ci fields)

  unfoldable pub match_stored : Formats → Matcher → Bytes → Option Bool
  unfolding match_map
  match_stored f m stored = match_map m (f.unpack stored)
