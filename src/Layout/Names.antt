-- ===== src/Layout/Names.antt =====
-- internal/storage/layout/layout.go: the names of the data files and the text of CURRENT. Of the spaces that
-- `strings.TrimSpace` takes off, those beyond ASCII are left out.
use zadodb.Prelude.{
  ℕ, suc, ◌+◌, ◌-◌, ◌^◌, ◌<◌, ◌≤◌, ◌≡◌, refl, ap, ◌∙◌, arith, ltb, leb, nat_beq, if◌then◌else◌,
  ◌&&◌, ◌||◌, ◌==◌, All, Bool, true, false, Option, none, some, [], ◌∷◌, ◌++◌, length,
  length-append, replicate, take, drop, take_append, drop_append, eq_self,
}
use zadodb.Bytes.{Bytes}
use zadodb.Bytes.Order.{bytes_eq}
use zadodb.Bytes.Decimal.{
  parse_uint, decimal, padded, length-decimal, decimal_high, parse_uint-padded, parse_uint-decimal,
}
use zadodb.Btree.Lookup.Prefix.{starts_with}

abbrev pub data_prefix : Bytes
data_prefix = b'd' ∷ b'a' ∷ b't' ∷ b'a' ∷ b'.' ∷ []

abbrev pub data_suffix : Bytes
data_suffix = b'.' ∷ b'z' ∷ b'd' ∷ b'b' ∷ []

-- The name in `DataFile`.
unfoldable pub data_name : ℕ → Bytes
data_name gen = data_prefix ++ (padded 6 gen ++ data_suffix)

-- `strings.HasSuffix`.
unfoldable pub ends_with : Bytes → Bytes → Bool
ends_with suffix s = leb (length suffix) (length s) && (drop (length s - length suffix) s == suffix)

-- What `ListGenerations` makes of the name of an entry.
pub data Named : Type 0 where
  skipped panicked : Named
  generation : ℕ → Named

abbrev pub named : Option ℕ → Named
named none = skipped
named (some gen) = generation gen

-- The slice between prefix and suffix panics where they overlap.
unfoldable pub generation_of : Bytes → Named
unfolding ends_with
generation_of name =
    if starts_with data_prefix name && ends_with data_suffix name
    then (if ltb (length name) 9
        then panicked
        else named (parse_uint (take (length name - 9) (drop 5 name))))
    else skipped

is_space : ℕ → Bool
is_space c = nat_beq c 32 || (leb 9 c && leb c 13)

trim_left : Bytes → Bytes
unfolding is_space
trim_left [] = []
trim_left (c ∷ cs) = let rest = trim_left cs in if is_space c then rest else c ∷ cs

trim_right : Bytes → Bytes
unfolding is_space
trim_right [] = []
trim_right (c ∷ cs) =
    let rest = trim_right cs in if nat_beq (length rest) 0 && is_space c then [] else c ∷ rest

-- The generation that `ReadCurrent` finds in the text of CURRENT.
unfoldable pub parse_current : Bytes → Option ℕ
unfolding trim_left trim_right
parse_current text = parse_uint (trim_right (trim_left text))

-- The text that `WriteCurrent` writes.
unfoldable pub current_text : ℕ → Bytes
current_text gen = decimal gen ++ (10 ∷ [])

-- Behind the prefix.
ends_with-data_prefix :
    (digits : Bytes) → ends_with data_suffix (data_prefix ++ (digits ++ data_suffix)) ≡ true
unfolding ends_with
ends_with-data_prefix digits =
    let name : Bytes = data_prefix ++ (digits ++ data_suffix) in
    let long : length (digits ++ data_suffix) ≡ length digits + 4 =
      length-append digits data_suffix in
    let at : length name - 4 ≡ suc (suc (suc (suc (suc (length digits))))) = omega arith in
    let fits : leb 4 (length name) ≡ true = ground (arith, long) in
    let tail : drop (length digits) (digits ++ data_suffix) ≡ data_suffix =
      drop_append digits data_suffix (length digits) refl in
    ap (λ b. b && (drop (length name - 4) name == data_suffix)) fits
    ∙ ap (λ k. drop k name == data_suffix) at
    ∙ ap (λ t. t == data_suffix) tail
    ∙ eq_self data_suffix

generation_of-digits :
    (digits : Bytes)
    → 0 < length digits
    → generation_of (data_prefix ++ (digits ++ data_suffix)) ≡ named (parse_uint digits)
unfolding generation_of
generation_of-digits digits some_digit =
    let name : Bytes = data_prefix ++ (digits ++ data_suffix) in
    let long : length (digits ++ data_suffix) ≡ length digits + 4 =
      length-append digits data_suffix in
    let room : ltb (length name) 9 ≡ false = ground (arith, long) in
    let middle : length name - 9 ≡ length digits = omega arith in
    let front : take (length digits) (digits ++ data_suffix) ≡ digits =
      take_append digits data_suffix (length digits) refl in
    let slice : Named = named (parse_uint (take (length name - 9) (digits ++ data_suffix))) in
    ap (λ b. if b then (if ltb (length name) 9 then panicked else slice) else skipped)
      (ends_with-data_prefix digits)
    ∙ ap (λ b. if b then panicked else slice) room
    ∙ ap (λ k. named (parse_uint (take k (digits ++ data_suffix)))) middle
    ∙ ap (λ t. named (parse_uint t)) front

high_no_space : (c : ℕ) → b'0' ≤ c → is_space c ≡ false
unfolding is_space
high_no_space c h = ground arith

trim_right-line : (ds : Bytes) → All (λ c. b'0' ≤ c) ds → trim_right (ds ++ (10 ∷ [])) ≡ ds
unfolding trim_right
trim_right-line [] h = refl
trim_right-line (c ∷ ds) (hc, h) =
    let digit = high_no_space c hc in rw (trim_right-line ds h, digit) (ground arith)

trim_left-line :
    (ds : Bytes)
    → 0 < length ds
    → All (λ c. b'0' ≤ c) ds
    → trim_left (ds ++ (10 ∷ [])) ≡ ds ++ (10 ∷ [])
unfolding trim_left
trim_left-line [] lt h = absurd (omega arith)
trim_left-line (c ∷ ds) lt (hc, h) = let digit = high_no_space c hc in rw digit refl

-- For a generation below 2^64: the name of its data file is listed as this generation, and the text that
-- WriteCurrent writes for it is read back as this generation.
pub generation_texts :
    (gen : ℕ)
    → gen < 2 ^ 64
    → (generation_of (data_name gen) ≡ generation gen)
      × (parse_current (current_text gen) ≡ some gen)
unfolding data_name padded parse_current current_text
generation_texts gen lt = (
  generation_of-digits (padded 6 gen) (
        omega (
          arith,
          length-append (replicate (6 - length (decimal gen)) b'0') (decimal gen),
          length-decimal gen,
        ))
      ∙ ap named (parse_uint-padded 6 gen lt),
  ap (λ t. parse_uint (trim_right t))
        (trim_left-line (decimal gen) (length-decimal gen) (decimal_high gen))
      ∙ ap parse_uint (trim_right-line (decimal gen) (decimal_high gen))
      ∙ parse_uint-decimal gen lt,
)
