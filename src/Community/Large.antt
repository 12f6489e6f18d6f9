-- ===== src/Community/Large.antt =====
-- Large communities of core/community_dialect.py, to Nokia's forms without a keyword and back.
use mathlib.Core.Option
use nso_adapter.Prelude.{
  ℕ, ◌+◌, ◌≡◌, refl, sym, ap, ◌∙◌, inl, inr, true, false, not, none, some, List, [], ◌∷◌, ◌++◌,
  ◌==◌, map, length, if◌then◌else◌, Bool-cases, arith, and-parts, ==_iff, ◌⊎◌,
}
use nso_adapter.Text.{is_space, is_digit, split, lower}
use nso_adapter.Text.Solid.{all_solid, solid-append, strip-solid}
use nso_adapter.Community.{
  keyword_of, any_regex, count_of, replaced, joined, large_prefix, restore_large, starts_with_digit,
  large_from_canonical, nokia_timos, nokia_to_canonical, to_canonical, nokia_from_canonical,
  from_canonical,
}

count-split : (sep : ℕ) (t : List ℕ) → count_of sep t ≡ length (split sep t).1
unfolding count_of split
count-split sep [] = refl
count-split sep (c ∷ rest) = elim (Bool-cases (c == sep)) [
  | inl e ↦ rw (e, count-split sep rest) (omega arith)
  | inr e ↦ rw (e, count-split sep rest) (omega arith)
]

join_other :
    (sep new c : ℕ) (part : List ℕ) (parts : List (List ℕ))
    → joined new (c ∷ part) parts ≡ c ∷ joined new part parts
unfolding joined
join_other sep new c part [] = refl
join_other sep new c part (next ∷ rest) = refl

-- Joining the parts with another separator replaces the separator.
join-split :
    (sep new : ℕ) (t : List ℕ) → joined new (split sep t).0 (split sep t).1 ≡ replaced sep new t
unfolding joined split replaced
join-split sep new [] = refl
join-split sep new (c ∷ rest) = elim (Bool-cases (c == sep)) [
  | inl e ↦ rw e (ap (λ s. new ∷ s) (join-split sep new rest))
  | inr e ↦ rw e (
      join_other sep new c (split sep rest).0 (split sep rest).1
      ∙ ap (λ s. c ∷ s) (join-split sep new rest))
]

replaced_self : (sep : ℕ) (t : List ℕ) → replaced sep sep t ≡ t
unfolding replaced
replaced_self sep [] = refl
replaced_self sep (c ∷ rest) = elim (Bool-cases (c == sep)) [
  | inl e ↦ rw e (λ i. sym ((==_iff c sep).0 e) i ∷ replaced_self sep rest i)
  | inr e ↦ rw e (ap (λ s. c ∷ s) (replaced_self sep rest))
]

-- Replacing a character and replacing it back, in a text that did not have the new one.
replaced_back : (t : List ℕ) → count_of 38 t ≡ 0 → replaced 38 58 (replaced 58 38 t) ≡ t
unfolding replaced count_of
replaced_back [] h = refl
replaced_back (c ∷ rest) h = elim (Bool-cases (c == 58)) [
  | inl e ↦
      let free : count_of 38 rest ≡ 0 = omega (arith, h) in
      rw e (λ i. sym ((==_iff c 58).0 e) i ∷ replaced_back rest free i)
  | inr e ↦ elim (Bool-cases (c == 38)) [
    | inl e' ↦
        let one_more : 1 + count_of 38 rest ≡ 0 = rw e' at h in absurd (omega (arith, one_more))
    | inr e' ↦
        let left : 0 + count_of 38 rest ≡ 0 = rw e' at h in
        let free : count_of 38 rest ≡ 0 = omega (arith, left) in
        rw (e, e') (ap (λ s. c ∷ s) (replaced_back rest free))
  ]
]

count-replaced : (t : List ℕ) → count_of 58 (replaced 58 38 t) ≡ 0
unfolding replaced count_of
count-replaced [] = refl
count-replaced (c ∷ rest) = elim (Bool-cases (c == 58)) [
  | inl e ↦ rw (e, count-replaced rest)
  | inr e ↦ rw (e, e, count-replaced rest)
]

count-replaced_new :
    (t : List ℕ) → count_of 38 t ≡ 0 → count_of 38 (replaced 58 38 t) ≡ count_of 58 t
unfolding replaced count_of
count-replaced_new [] h = refl
count-replaced_new (c ∷ rest) h = elim (Bool-cases (c == 58)) [
  | inl e ↦
      let free : count_of 38 rest ≡ 0 = omega (arith, h) in rw (e, count-replaced_new rest free)
  | inr e ↦ elim (Bool-cases (c == 38)) [
    | inl e' ↦
        let one_more : 1 + count_of 38 rest ≡ 0 = rw e' at h in absurd (omega (arith, one_more))
    | inr e' ↦
        let left : 0 + count_of 38 rest ≡ 0 = rw e' at h in
        let free : count_of 38 rest ≡ 0 = omega (arith, left) in
        rw (e, e', count-replaced_new rest free)
  ]
]

replaced-solid : (t : List ℕ) → all_solid t ≡ true → all_solid (replaced 58 38 t) ≡ true
unfolding replaced all_solid
replaced-solid [] h = refl
replaced-solid (c ∷ rest) h =
    let (here, later) = and-parts (not (is_space c)) (all_solid rest) h in
    elim (Bool-cases (c == 58)) [
      | inl e ↦ rw (e, replaced-solid rest later) (unfold is_space in refl)
      | inr e ↦ rw (e, here, replaced-solid rest later)
    ]

replaced-digit :
    (t : List ℕ) → starts_with_digit t ≡ true → starts_with_digit (replaced 58 38 t) ≡ true
unfolding replaced
replaced-digit [] h = h
replaced-digit (c ∷ rest) h = let other : (c == 58) ≡ false = ground arith in rw (other, h)

digit_keyword :
    (c : ℕ) (p : List ℕ × List (List ℕ)) → is_digit c ≡ true → keyword_of (c ∷ p.0, p.1) ≡ none
digit_keyword c (head, []) h = refl
digit_keyword c (head, _ ∷ _) h = ap (λ b. if b then none else some (map lower (c ∷ head))) h

-- A text that starts with a digit has no keyword and is not a color.
plain_member : (t : List ℕ) → starts_with_digit t ≡ true → nokia_to_canonical t ≡ restore_large t
unfolding nokia_to_canonical
plain_member [] h = cc h
plain_member (c ∷ rest) h =
    let no_ext : (101 == c) ≡ false = ground arith in
    let no_color : (99 == c) ≡ false = ground arith in
    let no_colon : (c == 58) ≡ false = ground arith in
    rw (no_ext, no_color, no_colon, digit_keyword c (split 58 rest) h, h)

-- Two separators, three parts.
three_parts :
    (sep : ℕ) (t : List ℕ)
    → count_of sep t ≡ 2
    → (b : List ℕ) × (c : List ℕ) × ((split sep t).1 ≡ b ∷ c ∷ [])
three_parts sep t h = of_length (split sep t).1 (sym (count-split sep t) ∙ h)
  where
    of_length : (l : List (List ℕ)) → length l ≡ 2 → (b : List ℕ) × (c : List ℕ) × (l ≡ b ∷ c ∷ [])
    of_length [] h = absurd (omega (arith, h))
    of_length (b ∷ []) h = absurd (omega (arith, h))
    of_length (b ∷ c ∷ []) h = (b, c, refl)
    of_length (b ∷ c ∷ d ∷ l) h = absurd (omega (arith, h))

module _ (t : List ℕ) (digit : starts_with_digit t ≡ true) (solid : all_solid t ≡ true)
    (colons : count_of 58 t ≡ 2) (no_and : count_of 38 t ≡ 0) where
  -- What is written: the body itself, or the body with `&` between its parts.
  large_written :
      (large_from_canonical (large_prefix ++ t) ≡ some t)
      ⊎ (large_from_canonical (large_prefix ++ t) ≡ some (replaced 58 38 t))
  unfolding large_from_canonical
  large_written =
      let (b, c, parts) = three_parts 58 t colons in
      let exact =
        ap (joined 58 (split 58 t).0) (sym parts) ∙ join-split 58 58 t ∙ replaced_self 58 t in
      let regex = ap (joined 38 (split 58 t).0) (sym parts) ∙ join-split 58 38 t in
      elim (Bool-cases (any_regex ((split 58 t).0 ∷ b ∷ c ∷ []))) [
        | inl e ↦ inr (rw (parts, e) (ap some regex))
        | inr e ↦ inl (rw (parts, e) (ap some exact))
      ]

  large_solid : all_solid (large_prefix ++ t) ≡ true
  large_solid = solid-append large_prefix t (unfold all_solid in refl) solid

  by_large : nokia_from_canonical (large_prefix ++ t) ≡ large_from_canonical (large_prefix ++ t)
  unfolding nokia_from_canonical
  by_large = refl

  reads_exact : nokia_to_canonical t ≡ large_prefix ++ t
  reads_exact = plain_member t digit ∙ rw colons

  reads_regex : nokia_to_canonical (replaced 58 38 t) ≡ large_prefix ++ t
  reads_regex =
      plain_member (replaced 58 38 t) (replaced-digit t digit)
      ∙ rw (count-replaced t, count-replaced_new t no_and, colons, replaced_back t no_and)

  writes : from_canonical nokia_timos (large_prefix ++ t) ≡ large_from_canonical (large_prefix ++ t)
  unfolding from_canonical
  writes = ap nokia_from_canonical (strip-solid (large_prefix ++ t) large_solid) ∙ by_large

  reads :
      (m : List ℕ)
      → all_solid m ≡ true
      → nokia_to_canonical m ≡ large_prefix ++ t
      → to_canonical nokia_timos m ≡ large_prefix ++ t
  unfolding to_canonical
  reads m h e = ap nokia_to_canonical (strip-solid m h) ∙ e

  -- A large community whose body starts with a digit and has three parts, of exact values or
  -- regular expressions, without white space and `&`: written for Nokia and read again, it is the
  -- same member.
  pub large_round_trip :
      Option.map (to_canonical nokia_timos) (from_canonical nokia_timos (large_prefix ++ t))
      ≡ some (large_prefix ++ t)
  large_round_trip = elim large_written [
    | inl e ↦
        ap (Option.map (to_canonical nokia_timos)) (writes ∙ e)
        ∙ ap some (reads t solid reads_exact)
    | inr e ↦
        ap (Option.map (to_canonical nokia_timos)) (writes ∙ e)
        ∙ ap some (reads (replaced 58 38 t) (replaced-solid t solid) reads_regex)
  ]
