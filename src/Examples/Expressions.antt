-- ===== src/Examples/Expressions.antt =====
-- A package regexp for quoted runes, ^, $, . and .*: it reads an expression back and matches it.
use zadodb.Prelude.{
  ℕ, nat_beq, ltb, if◌then◌else◌, ◌||◌, ◌≡◌, ◌↔◌, refl, ap, ◌∙◌, arith, Bool, true, false,
  Bool-cases, inl, inr, Option, none, some, List, [], ◌∷◌, ◌++◌, map, All,
}
use zadodb.Bytes.{Bytes}
use zadodb.Http.Filters.{Texts, like_to_regex}
use zadodb.Http.Filters.Expressions.{
  Item, begin_text, end_text, any_run, any_one, literal, flags_text, items_text, matches_within,
  Regexps, IsRune,
}
use zadodb.Http.Filters.Like.{Like, matches-like_to_regex}

-- Every rune is quoted.
abbrev quote : Bytes → Bytes
quote [] = []
quote (c ∷ cs) = 92 ∷ c ∷ quote cs

data Mode : Type 0 where
  plain after_dot after_escape : Mode

-- What a byte adds to the items, and the mode after it.
abbrev plain_items : ℕ → List Item
plain_items c =
    if nat_beq c 94
    then begin_text ∷ []
    else if nat_beq c 36
    then end_text ∷ []
    else if nat_beq c 46 || nat_beq c 92
    then []
    else literal c ∷ []

abbrev plain_mode : ℕ → Mode
plain_mode c = if nat_beq c 46 then after_dot else if nat_beq c 92 then after_escape else plain

abbrev new_items : Mode → ℕ → List Item
new_items plain c = plain_items c
new_items after_dot c = if nat_beq c 42 then any_run ∷ [] else any_one ∷ plain_items c
new_items after_escape c = literal c ∷ []

abbrev next_mode : Mode → ℕ → Mode
next_mode plain c = plain_mode c
next_mode after_dot c = if nat_beq c 42 then plain else plain_mode c
next_mode after_escape c = plain

read_items : Mode → Bytes → List Item
read_items plain [] = []
read_items after_dot [] = any_one ∷ []
read_items after_escape [] = []
read_items m (c ∷ cs) = new_items m c ++ read_items (next_mode m c) cs

abbrev strip : Bytes → Bytes → Option Bytes
strip [] e = some e
strip (a ∷ p) [] = none
strip (a ∷ p) (b ∷ e) = if nat_beq a b then strip p e else none

abbrev clean : ℕ → ℕ
clean c = if ltb c 0xD800 then c else 0xFFFD

abbrev within : Bool → Bool → Bytes → Bytes → Bool
within fold dots e s =
    matches_within (λ a b. nat_beq a b) fold dots (read_items plain e) true (map clean s)

-- The flags in the order in which they are looked for.
abbrev match_flags : Option Bytes → Option Bytes → Option Bytes → Bytes → Bytes → Bool
match_flags (some x) b c e s = within true true x s
match_flags none (some x) c e s = within false true x s
match_flags none none (some x) e s = within true false x s
match_flags none none none e s = within false false e s

abbrev fold_dots : Bytes → Option Bytes
fold_dots e = strip (flags_text true true) e

abbrev only_dots : Bytes → Option Bytes
only_dots e = strip (flags_text false true) e

abbrev only_fold : Bytes → Option Bytes
only_fold e = strip (flags_text true false) e

abbrev match_text : Bytes → Bytes → Bool
match_text e s = match_flags (fold_dots e) (only_dots e) (only_fold e) e s

abbrev bytewise : Texts
bytewise = record {
  to_lower = λ s. s;
  runes = λ s. map clean s;
  string_of = λ r. r ∷ [];
  quote_meta = quote;
  matches = match_text;
  format_float64 = λ n. [];
  format_float32 = λ n. [];
  format_int = λ z. [];
  format_uint = λ n. [];
  sprint = λ n. [];
}

read_items-items_text :
    (is : List Item)
    → (read_items plain (items_text bytewise is) ≡ is)
      × (read_items after_dot (items_text bytewise is) ≡ any_one ∷ is)
unfolding read_items
read_items-items_text [] = (refl, refl)
read_items-items_text (begin_text ∷ is) =
    let (a, b) = read_items-items_text is in
    (ap (λ r. begin_text ∷ r) a, ap (λ r. any_one ∷ (begin_text ∷ r)) a)
read_items-items_text (end_text ∷ is) =
    let (a, b) = read_items-items_text is in
    (ap (λ r. end_text ∷ r) a, ap (λ r. any_one ∷ (end_text ∷ r)) a)
read_items-items_text (any_run ∷ is) =
    let (a, b) = read_items-items_text is in
    (ap (λ r. any_run ∷ r) a, ap (λ r. any_one ∷ (any_run ∷ r)) a)
read_items-items_text (any_one ∷ is) =
    let (a, b) = read_items-items_text is in (b, ap (λ r. any_one ∷ r) b)
read_items-items_text (literal c ∷ is) =
    let (a, b) = read_items-items_text is in
    (ap (λ r. literal c ∷ r) a, ap (λ r. any_one ∷ (literal c ∷ r)) a)

no_flags : (is : List Item) (p : Bytes) → strip (40 ∷ p) (items_text bytewise is) ≡ none
no_flags [] p = refl
no_flags (begin_text ∷ is) p = refl
no_flags (end_text ∷ is) p = refl
no_flags (any_run ∷ is) p = refl
no_flags (any_one ∷ is) p = refl
no_flags (literal c ∷ is) p = refl

clean-IsRune : (s : Bytes) → All IsRune (map clean s)
clean-IsRune [] = tt
clean-IsRune (c ∷ s) = (one c, clean-IsRune s)
  where
    one : (c : ℕ) → IsRune (clean c)
    one c = elim (Bool-cases (ltb c 0xD800)) [
      | inl low ↦ rw low (inl (ground (arith, low)))
      | inr high ↦ rw high (inr (omega arith, omega arith))
    ]

match_text-meaning :
    (fold dots : Bool) (is : List Item) (s : Bytes)
    → match_text (flags_text fold dots ++ items_text bytewise is) s
      ≡ matches_within (λ a b. nat_beq a b) fold dots is true (map clean s)
match_text-meaning fold dots is s =
    stripped fold dots
    ∙ ap (λ r. matches_within (λ a b. nat_beq a b) fold dots r true (map clean s))
        (read_items-items_text is).0
  where
    stripped :
        (fold dots : Bool)
        → match_text (flags_text fold dots ++ items_text bytewise is) s
          ≡ within fold dots (items_text bytewise is) s
    stripped true true = refl
    stripped false true = refl
    stripped true false = refl
    stripped false false =
        let e = items_text bytewise is in
        ap (λ a. match_flags a (only_dots e) (only_fold e) e s)
          (no_flags is (b'?' ∷ b'i' ∷ b's' ∷ b')' ∷ []))
        ∙ ap (λ a. match_flags none a (only_fold e) e s) (no_flags is (b'?' ∷ b's' ∷ b')' ∷ []))
        ∙ ap (λ a. match_flags none none a e s) (no_flags is (b'?' ∷ b'i' ∷ b')' ∷ []))

bytewise_Regexps : Regexps bytewise
bytewise_Regexps = record {
  fold_same = λ a b. nat_beq a b;
  runes_valid = clean-IsRune;
  meaning = λ fold dots is s h. match_text-meaning fold dots is s;
}

matches-like_to_regex_example :
    (bytewise.matches (like_to_regex bytewise (b'a' ∷ b'%' ∷ b'.' ∷ []) true) (b'a' ∷ b'b' ∷ [])
      ≡ true)
    ↔ Like bytewise_Regexps.fold_same true
        (map clean (b'a' ∷ b'%' ∷ b'.' ∷ []))
        (map clean (b'a' ∷ b'b' ∷ []))
matches-like_to_regex_example =
    matches-like_to_regex bytewise bytewise_Regexps (b'a' ∷ b'%' ∷ b'.' ∷ []) (b'a' ∷ b'b' ∷ [])
      true
