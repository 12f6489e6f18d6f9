-- ===== src/DeletedRoutes/Triples.antt =====
-- Membership in the sets and sorted lists of triples of core/static_route_plan.py.
use nso_adapter.Prelude.{
  ◌≡◌, refl, sym, ap, subst, ◌∙◌, inl, inr, Bool, true, ◌&&◌, ◌||◌, List, [], ◌∷◌, str_eq, eq_iff,
  if◌then◌else◌, Bool-cases, and-parts, and-both,
}
use nso_adapter.DeletedRoutes.{
  Triple, triple_eq, has_triple, triple_leb, insert_triple, sorted_triples,
}
use nso_adapter.DeletedRoutes.Sets.{or_swap}

pub triple_eq_sound : (s t : Triple) → triple_eq s t ≡ true → s ≡ t
triple_eq_sound (a, b, c) (a', b', c') h =
    let (p, rest) = and-parts (str_eq a a') (str_eq b b' && str_eq c c') h in
    let (q, r) = and-parts (str_eq b b') (str_eq c c') rest in
    λ i. ((eq_iff a a').0 p i, (eq_iff b b').0 q i, (eq_iff c c').0 r i)

pub triple_eq_refl : (t : Triple) → triple_eq t t ≡ true
triple_eq_refl (a, b, c) =
    and-both ((eq_iff a a).1 refl) (and-both ((eq_iff b b).1 refl) ((eq_iff c c).1 refl))

pub has-at :
    (s t : Triple) (l : List Triple) (b : Bool)
    → has_triple t l ≡ b
    → triple_eq s t ≡ true
    → has_triple s l ≡ b
has-at s t l b h e = subst (λ x. has_triple x l ≡ b) (sym (triple_eq_sound s t e)) h

has-insert :
    (s t : Triple) (l : List Triple)
    → has_triple s (insert_triple t l) ≡ (triple_eq s t || has_triple s l)
unfolding insert_triple has_triple
has-insert s t [] = refl
has-insert s t (a ∷ rest) = elim (Bool-cases (triple_leb t a)) [
  | inl h ↦ ap (λ b. has_triple s (if b then t ∷ a ∷ rest else a ∷ insert_triple t rest)) h
  | inr h ↦
      ap (λ b. has_triple s (if b then t ∷ a ∷ rest else a ∷ insert_triple t rest)) h
      ∙ ap (λ b. triple_eq s a || b) (has-insert s t rest)
      ∙ or_swap (triple_eq s a) (triple_eq s t) (has_triple s rest)
]

pub has-sorted : (s : Triple) (l : List Triple) → has_triple s (sorted_triples l) ≡ has_triple s l
unfolding sorted_triples has_triple
has-sorted s [] = refl
has-sorted s (t ∷ rest) =
    has-insert s t (sorted_triples rest) ∙ ap (λ b. triple_eq s t || b) (has-sorted s rest)
