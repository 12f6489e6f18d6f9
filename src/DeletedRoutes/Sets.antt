-- ===== src/DeletedRoutes/Sets.antt =====
-- Membership in the sets and sorted lists of core/deleted_routes.py.
use nso_adapter.Prelude.{
  ℕ, ◌≡◌, refl, sym, ap, subst, ◌∙◌, inl, inr, Bool, true, false, ◌||◌, List, [], ◌∷◌, ◌==◌, leb,
  ==_iff, if◌then◌else◌, Bool-cases,
}
use nso_adapter.DeletedRoutes.{elem, add, union, insert, sorted}

pub or_absorbs : (a b : Bool) → (a ≡ true → b ≡ true) → b ≡ (a || b)
or_absorbs true b h = h refl
or_absorbs false b h = refl

pub or_swap : (a b c : Bool) → (a || (b || c)) ≡ (b || (a || c))
or_swap true true c = refl
or_swap true false c = refl
or_swap false b c = refl

or_assoc : (a b c : Bool) → ((a || b) || c) ≡ (a || (b || c))
or_assoc true b c = refl
or_assoc false b c = refl

pub elem-at : (m n : ℕ) (s : List ℕ) (b : Bool) → elem n s ≡ b → (m == n) ≡ true → elem m s ≡ b
elem-at m n s b h e = subst (λ x. elem x s ≡ b) (sym ((==_iff m n).0 e)) h

pub elem-add : (m n : ℕ) (s : List ℕ) → elem m (add n s) ≡ ((m == n) || elem m s)
unfolding add elem
elem-add m n s = elim (Bool-cases (elem n s)) [
  | inl h ↦
      ap (λ b. elem m (if b then s else n ∷ s)) h
      ∙ or_absorbs (m == n) (elem m s) (elem-at m n s true h)
  | inr h ↦ rw h
]

pub elem-union : (m : ℕ) (a s : List ℕ) → elem m (union a s) ≡ (elem m a || elem m s)
unfolding union elem
elem-union m [] s = refl
elem-union m (n ∷ rest) s =
    rw
      (elem-add m n (union rest s), elem-union m rest s, or_assoc (m == n) (elem m rest) (elem m s))

elem-insert : (m n : ℕ) (l : List ℕ) → elem m (insert n l) ≡ ((m == n) || elem m l)
unfolding insert elem
elem-insert m n [] = refl
elem-insert m n (a ∷ rest) = elim (Bool-cases (leb n a)) [
  | inl h ↦ rw h
  | inr h ↦ rw (h, elem-insert m n rest, or_swap (m == a) (m == n) (elem m rest))
]

pub elem-sorted : (m : ℕ) (l : List ℕ) → elem m (sorted l) ≡ elem m l
unfolding sorted elem
elem-sorted m [] = refl
elem-sorted m (n ∷ rest) = rw (elem-insert m n (sorted rest), elem-sorted m rest)
