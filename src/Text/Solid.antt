-- ===== src/Text/Solid.antt =====
-- A text without white space is not changed by `str.strip`.
use nso_adapter.Prelude.{
  ℕ, ◌≡◌, refl, ap, ◌∙◌, Bool, true, not, ◌&&◌, List, [], ◌∷◌, ◌++◌, and-parts, and-both, not-parts,
  if◌then◌else◌, arith,
}
use mathlib.Core.List.{reverse, reverse-append, reverse-reverse}
use nso_adapter.Text.{is_space, lstrip, strip, is_digit, all_digits}

unfoldable pub all_solid : List ℕ → Bool
unfolding is_space
all_solid [] = true
all_solid (c ∷ rest) = not (is_space c) && all_solid rest

pub solid-append :
    (s t : List ℕ) → all_solid s ≡ true → all_solid t ≡ true → all_solid (s ++ t) ≡ true
unfolding all_solid
solid-append [] t h k = k
solid-append (c ∷ s) t h k =
    let (here, later) = and-parts (not (is_space c)) (all_solid s) h in
    and-both here (solid-append s t later k)

digit-solid : (c : ℕ) → is_digit c ≡ true → not (is_space c) ≡ true
unfolding is_space
digit-solid c h = ground arith

pub digits-solid : (t : List ℕ) → all_digits t ≡ true → all_solid t ≡ true
unfolding all_solid all_digits
digits-solid [] h = refl
digits-solid (c ∷ rest) h =
    let (here, later) = and-parts (is_digit c) (all_digits rest) h in
    and-both (digit-solid c here) (digits-solid rest later)

reverse-solid : (t : List ℕ) → all_solid t ≡ true → all_solid (reverse t) ≡ true
unfolding all_solid
reverse-solid [] h = refl
reverse-solid (c ∷ rest) h =
    let (here, later) = and-parts (not (is_space c)) (all_solid rest) h in
    ap all_solid (reverse-append (c ∷ []) rest)
    ∙ solid-append (reverse rest) (c ∷ []) (reverse-solid rest later) (and-both here refl)

lstrip-solid : (t : List ℕ) → all_solid t ≡ true → lstrip t ≡ t
unfolding lstrip all_solid
lstrip-solid [] h = refl
lstrip-solid (c ∷ rest) h =
    let (here, later) = and-parts (not (is_space c)) (all_solid rest) h in
    ap (λ b. if b then lstrip rest else c ∷ rest) (not-parts (is_space c) here)

pub strip-solid : (t : List ℕ) → all_solid t ≡ true → strip t ≡ t
unfolding strip
strip-solid t h =
    ap (λ s. reverse (lstrip (reverse s))) (lstrip-solid t h)
    ∙ ap reverse (lstrip-solid (reverse t) (reverse-solid t h))
    ∙ reverse-reverse t
