-- ===== src/Http/Filters/Expressions.antt =====
-- What internal/server/http/filters.go relies on of the package regexp: the expressions of its documented
-- syntax (RE2) that consist of ^, $, ., .* and quoted runes, under the flags i and s.
use zadodb.Prelude.{
  ℕ, nat_beq, if◌then◌else◌, not, ◌&&◌, ◌||◌, ◌≡◌, ◌<◌, ◌⊎◌, All, Bool, true, false, List, [], ◌∷◌,
  ◌++◌,
}
use zadodb.Bytes.{Bytes}
use zadodb.Http.Filters.{Texts}

pub data Item : Type 0 where
  begin_text end_text any_run any_one : Item
  literal : ℕ → Item

-- A Unicode scalar value: what a string is made of.
abbrev pub IsRune : ℕ → Type 0
IsRune r = (r < 0xD800) ⊎ ((0xDFFF < r) × (r < 0x110000))

abbrev pub IsItem : Item → Type 0
IsItem begin_text = Unit
IsItem end_text = Unit
IsItem any_run = Unit
IsItem any_one = Unit
IsItem (literal r) = IsRune r

-- How an expression is written.
abbrev pub flags_text : Bool → Bool → Bytes
flags_text false false = []
flags_text true false = b'(' ∷ b'?' ∷ b'i' ∷ b')' ∷ []
flags_text false true = b'(' ∷ b'?' ∷ b's' ∷ b')' ∷ []
flags_text true true = b'(' ∷ b'?' ∷ b'i' ∷ b's' ∷ b')' ∷ []

abbrev pub item_text : Texts → Item → Bytes
item_text t begin_text = b'^' ∷ []
item_text t end_text = b'$' ∷ []
item_text t any_run = b'.' ∷ b'*' ∷ []
item_text t any_one = b'.' ∷ []
item_text t (literal r) = t.quote_meta (t.string_of r)

abbrev pub items_text : Texts → List Item → Bytes
items_text t [] = []
items_text t (i ∷ is) = item_text t i ++ items_text t is

-- What an expression matches: ^ only the start of the text and $ only its end; . a rune, a newline only
-- under the flag s; a quoted rune itself, and under the flag i the runes that differ in case alone. The
-- match may begin and end anywhere.
abbrev pub some_end : (Bool → List ℕ → Bool) → (ℕ → Bool) → Bool → List ℕ → Bool
some_end f dot at_start [] = f at_start []
some_end f dot at_start (c ∷ cs) =
    f at_start (c ∷ cs) || (let rest = some_end f dot false cs in dot c && rest)

abbrev pub first_passes : (ℕ → Bool) → (Bool → List ℕ → Bool) → List ℕ → Bool
first_passes test rest [] = false
first_passes test rest (c ∷ cs) = test c && rest false cs

abbrev pub is_nil : List ℕ → Bool
is_nil [] = true
is_nil (c ∷ cs) = false

module _ (fold_same : ℕ → ℕ → Bool) (fold dots : Bool) where
  abbrev pub dot_matches : ℕ → Bool
  dot_matches c = dots || not (nat_beq c 10)

  abbrev pub rune_matches : ℕ → ℕ → Bool
  rune_matches r c = if fold then fold_same r c else nat_beq r c

  unfoldable pub matches_here : List Item → Bool → List ℕ → Bool
  matches_here [] at_start cs = true
  matches_here (begin_text ∷ is) at_start cs = at_start && matches_here is at_start cs
  matches_here (end_text ∷ is) at_start cs = is_nil cs && matches_here is at_start cs
  matches_here (any_run ∷ is) at_start cs = some_end (matches_here is) dot_matches at_start cs
  matches_here (any_one ∷ is) at_start cs = first_passes dot_matches (matches_here is) cs
  matches_here (literal r ∷ is) at_start cs = first_passes (rune_matches r) (matches_here is) cs

  unfoldable pub matches_within : List Item → Bool → List ℕ → Bool
  matches_within is at_start [] = matches_here is at_start []
  matches_within is at_start (c ∷ cs) =
      matches_here is at_start (c ∷ cs) || matches_within is false cs

-- What is asked of `range` and of regexp: a text has runes, some runes differ in case alone, and an
-- expression means what its syntax says.
pub record Regexps (t : Texts) : Type 0 where
  pub fold_same : ℕ → ℕ → Bool
  pub runes_valid : (s : Bytes) → All IsRune (t.runes s)
  pub meaning :
      (fold dots : Bool) (is : List Item) (s : Bytes)
      → All IsItem is
      → t.matches (flags_text fold dots ++ items_text t is) s
        ≡ matches_within fold_same fold dots is true (t.runes s)
