-- ===== src/Http/Filters/Like.antt =====
-- What a LIKE filter matches.
use zadodb.Prelude.{
  ℕ, nat_beq, if◌then◌else◌, ◌≡◌, ◌≢◌, ◌↔◌, refl, sym, ap, ◌∙◌, arith, Bool, true, false,
  Bool-cases, inl, inr, List, [], ◌∷◌, ◌++◌, append_assoc, All,
}
use zadodb.Bytes.{Bytes}
use zadodb.Http.Filters.{Texts, flags_of, like_rune_text, like_texts, like_to_regex}
use zadodb.Http.Filters.Expressions.{
  Item, begin_text, end_text, any_run, any_one, literal, flags_text, item_text, items_text,
  some_end, first_passes, dot_matches, rune_matches, matches_here, matches_within, Regexps, IsRune,
  IsItem,
}

-- SQL LIKE, on the runes of a pattern and of a text: % is any sequence, _ is any single rune, and another
-- rune is itself, or under `ci` one that is the same but for its case.
pub data Like (fold_same : ℕ → ℕ → Bool) (ci : Bool) : List ℕ → List ℕ → Type 0 where
  like_end : Like fold_same ci [] []
  like_none : {p cs : List ℕ} → Like fold_same ci p cs → Like fold_same ci (b'%' ∷ p) cs
  like_more :
      {p cs : List ℕ} (c : ℕ)
      → Like fold_same ci (b'%' ∷ p) cs
      → Like fold_same ci (b'%' ∷ p) (c ∷ cs)
  like_one :
      {p cs : List ℕ} (c : ℕ) → Like fold_same ci p cs → Like fold_same ci (b'_' ∷ p) (c ∷ cs)
  like_rune :
      {p cs : List ℕ} (r c : ℕ)
      → r ≢ b'%'
      → r ≢ b'_'
      → (if ci then fold_same r c else nat_beq r c) ≡ true
      → Like fold_same ci p cs
      → Like fold_same ci (r ∷ p) (c ∷ cs)

flags_same : (ci : Bool) → flags_of ci ≡ flags_text ci true
flags_same true = refl
flags_same false = refl

-- The items of the expression, up to its end.
like_item : ℕ → Item
like_item r = if nat_beq r b'%' then any_run else if nat_beq r b'_' then any_one else literal r

like_items : List ℕ → List Item
like_items [] = end_text ∷ []
like_items (r ∷ rs) = like_item r ∷ like_items rs

like_texts-items :
    (t : Texts) (p : List ℕ) → like_texts t p ++ (b'$' ∷ []) ≡ items_text t (like_items p)
unfolding like_texts like_items
like_texts-items t [] = refl
like_texts-items t (r ∷ p) =
    append_assoc (like_rune_text t r) (like_texts t p) (b'$' ∷ [])
    ∙ ap (λ u. like_rune_text t r ++ u) (like_texts-items t p)
    ∙ ap (λ u. u ++ items_text t (like_items p)) (same_text r)
  where
    same_text : (r : ℕ) → like_rune_text t r ≡ item_text t (like_item r)
    same_text r = elim (Bool-cases (nat_beq r b'%')) [
      | inl run ↦ unfold like_rune_text like_item in (rw run refl)
      | inr no_run ↦ elim (Bool-cases (nat_beq r b'_')) [
        | inl one ↦ unfold like_rune_text like_item in (rw (no_run, one) refl)
        | inr no_one ↦ unfold like_rune_text like_item in (rw (no_run, no_one) refl)
      ]
    ]

like_items-IsItem : (p : List ℕ) → All IsRune p → All IsItem (like_items p)
unfolding like_items
like_items-IsItem [] h = (tt, tt)
like_items-IsItem (r ∷ p) h = (item r h.0, like_items-IsItem p h.1)
  where
    item : (r : ℕ) → IsRune r → IsItem (like_item r)
    item r k = elim (Bool-cases (nat_beq r b'%')) [
      | inl run ↦ unfold like_item in (rw run tt)
      | inr no_run ↦ elim (Bool-cases (nat_beq r b'_')) [
        | inl one ↦ unfold like_item in (rw (no_run, one) tt)
        | inr no_one ↦ unfold like_item in (rw (no_run, no_one) k)
      ]
    ]

module _ (same : ℕ → ℕ → Bool) (ci : Bool) where
  abbrev here : List ℕ → Bool → List ℕ → Bool
  here p = matches_here same ci true (like_items p)

  matched : (p cs : List ℕ) (b : Bool) → Like same ci p cs → here p b cs ≡ true
  unfolding matches_here like_items like_item
  matched _ _ b like_end = refl
  matched _ _ b (like_none {p = p} {cs = []} h) = matched p [] b h
  matched _ _ b (like_none {p = p} {cs = c ∷ cs} h) = ground (arith, matched p (c ∷ cs) b h)
  matched _ _ b (like_more {p = p} {cs = cs} c h) = ground (arith, matched (b'%' ∷ p) cs false h)
  matched _ _ b (like_one {p = p} {cs = cs} c h) = matched p cs false h
  matched _ _ b (like_rune {p = p} {cs = cs} r c no_run no_one eq h) =
      ground (arith, no_run, no_one, eq, matched p cs false h)

  -- A run: some end of the text matches the rest of the pattern.
  run_Like :
      (p cs : List ℕ) (f : Bool → List ℕ → Bool) (b : Bool)
      → ((a : Bool) (ds : List ℕ) → f a ds ≡ true → Like same ci p ds)
      → some_end f (dot_matches same ci true) b cs ≡ true
      → Like same ci (b'%' ∷ p) cs
  run_Like p [] f b good h = like_none (good b [] h)
  run_Like p (c ∷ cs) f b good h = elim (Bool-cases (f b (c ∷ cs))) [
    | inl now ↦ like_none (good b (c ∷ cs) now)
    | inr past ↦ like_more c (run_Like p cs f false good (ground (arith, past, h)))
  ]

  first_Like :
      (r : ℕ) (p cs : List ℕ) (test : ℕ → Bool) (f : Bool → List ℕ → Bool)
      → ((c : ℕ) (ds : List ℕ) → test c ≡ true → f false ds ≡ true → Like same ci (r ∷ p) (c ∷ ds))
      → first_passes test f cs ≡ true
      → Like same ci (r ∷ p) cs
  first_Like r p [] test f good h = absurd (ground (arith, h))
  first_Like r p (c ∷ cs) test f good h = good c cs (ground (arith, h)) (ground (arith, h))

  found : (p cs : List ℕ) (b : Bool) → here p b cs ≡ true → Like same ci p cs
  unfolding matches_here like_items like_item
  found [] [] b h = like_end
  found [] (c ∷ cs) b h = absurd (ground (arith, h))
  found (r ∷ p) cs b h = elim (Bool-cases (nat_beq r b'%')) [
    | inl run ↦
        let eq : b'%' ≡ r = ground (arith, run) in
        let passed : some_end (here p) (dot_matches same ci true) b cs ≡ true =
          ap (λ s. here (s ∷ p) b cs) eq ∙ h in
        rw (← eq) (run_Like p cs (here p) b (λ a ds k. found p ds a k) passed)
    | inr no_run ↦ elim (Bool-cases (nat_beq r b'_')) [
      | inl one ↦
          let eq : b'_' ≡ r = ground (arith, one) in
          let passed : first_passes (dot_matches same ci true) (here p) cs ≡ true =
            ap (λ s. here (s ∷ p) b cs) eq ∙ h in
          rw (← eq) (
            first_Like b'_' p cs (dot_matches same ci true) (here p)
              (λ c ds yes rest. like_one c (found p ds false rest)) passed)
      | inr no_one ↦
          let item : literal r ≡ like_item r = ground (arith, no_run, no_one) in
          let passed : first_passes (rune_matches same ci true r) (here p) cs ≡ true =
            ap (λ q. matches_here same ci true (q ∷ like_items p) b cs) item ∙ h in
          first_Like r p cs (rune_matches same ci true r) (here p)
            (λ c ds eq rest.
              like_rune r c (λ e. absurd (ground (arith, e, no_run)))
                (λ e. absurd (ground (arith, e, no_one))) eq (found p ds false rest))
            passed
    ]
  ]

  -- An anchored expression matches from the start of the text or not at all.
  anchored_late :
      (is : List Item) (cs : List ℕ)
      → matches_within same ci true (begin_text ∷ is) false cs ≡ false
  unfolding matches_within matches_here
  anchored_late is [] = refl
  anchored_late is (c ∷ cs) = anchored_late is cs

  anchored :
      (is : List Item) (cs : List ℕ)
      → matches_within same ci true (begin_text ∷ is) true cs ≡ matches_here same ci true is true cs
  unfolding matches_within matches_here
  anchored is [] = refl
  anchored is (c ∷ cs) = ground (arith, anchored_late is cs)

-- Where regexp gives expressions their documented meaning, the expression that `likeToRegex` writes, flags,
-- anchors and quoting included, matches a text exactly when SQL's LIKE does, the pattern against the whole
-- text.
pub matches-like_to_regex :
    (t : Texts) (rs : Regexps t) (pattern s : Bytes) (ci : Bool)
    → (t.matches (like_to_regex t pattern ci) s ≡ true)
      ↔ Like rs.fold_same ci (t.runes pattern) (t.runes s)
matches-like_to_regex t rs pattern s ci =
    let p = t.runes pattern in
    let cs = t.runes s in
    let written : like_to_regex t pattern ci
        ≡ flags_text ci true ++ items_text t (begin_text ∷ like_items p) =
      unfold like_to_regex in
      (ap (λ f. f ++ (b'^' ∷ (like_texts t p ++ (b'$' ∷ [])))) (flags_same ci)
        ∙ ap (λ u. flags_text ci true ++ (b'^' ∷ u)) (like_texts-items t p)) in
    let meant : t.matches (like_to_regex t pattern ci) s
        ≡ matches_here rs.fold_same ci true (like_items p) true cs =
      ap (λ e. t.matches e s) written
      ∙ rs.meaning ci true (begin_text ∷ like_items p) s
          (tt, like_items-IsItem p (rs.runes_valid pattern))
      ∙ anchored rs.fold_same ci (like_items p) cs in
    (
      λ h. found rs.fold_same ci p cs true (sym meant ∙ h),
      λ l. meant ∙ matched rs.fold_same ci p cs true l,
    )
