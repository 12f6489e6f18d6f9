-- ===== src/Text/Equality.antt =====
-- `text_eq` decides the equality of texts.
use nso_adapter.Prelude.{ℕ, ◌≡◌, refl, true, List, [], ◌∷◌, ◌==◌, ==_iff, and-parts, and-both}
use nso_adapter.Text.{text_eq}

pub texts_sound : (s t : List ℕ) → text_eq s t ≡ true → s ≡ t
unfolding text_eq
texts_sound [] [] h = refl
texts_sound [] (b ∷ t) h = cc h
texts_sound (a ∷ s) [] h = cc h
texts_sound (a ∷ s) (b ∷ t) h =
    let (p, q) = and-parts (a == b) (text_eq s t) h in λ i. (==_iff a b).0 p i ∷ texts_sound s t q i

pub texts_refl : (s : List ℕ) → text_eq s s ≡ true
unfolding text_eq
texts_refl [] = refl
texts_refl (a ∷ s) = and-both ((==_iff a a).1 refl) (texts_refl s)
