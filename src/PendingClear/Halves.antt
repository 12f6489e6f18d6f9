-- ===== src/PendingClear/Halves.antt =====
-- The two halves of the carrier of core/static_route_plan.py.
use nso_adapter.Prelude.{
  String, ◌≡◌, refl, sym, ap, subst, ◌∙◌, inl, inr, Bool, true, false, not, ◌&&◌, ◌||◌, Option,
  List, [], ◌∷◌, str_eq, eq_iff, if◌then◌else◌, Bool-cases,
}
use nso_adapter.PendingClear.{
  Carrier, has, join, minus, text_leb, insert_text, sorted_texts, authorized_half, store_half,
  carry, update_pending_clear,
}

has-at : (f g : String) (s : List String) (b : Bool) → has g s ≡ b → str_eq f g ≡ true → has f s ≡ b
has-at f g s b h e = subst (λ x. has x s ≡ b) (sym ((eq_iff f g).0 e)) h

absorbs : (a b : Bool) → (a ≡ true → b ≡ true) → b ≡ (a || b)
absorbs true b h = h refl
absorbs false b h = refl

assoc : (a b c : Bool) → ((a || b) || c) ≡ (a || (b || c))
assoc true b c = refl
assoc false b c = refl

swap : (a b c : Bool) → (a || (b || c)) ≡ (b || (a || c))
swap true true c = refl
swap true false c = refl
swap false b c = refl

drop : (e q b : Bool) → (e ≡ true → b ≡ true) → (q && not b) ≡ ((e || q) && not b)
drop true true true h = refl
drop true true false h = refl
drop true false true h = refl
drop true false false h = cc (h refl)
drop false q b h = refl

keep : (e q b : Bool) → (e ≡ true → b ≡ false) → (e || (q && not b)) ≡ ((e || q) && not b)
keep true q true h = cc (h refl)
keep true q false h = refl
keep false q b h = refl

pub has-join : (f : String) (a s : List String) → has f (join a s) ≡ (has f a || has f s)
unfolding join has
has-join f [] s = refl
has-join f (g ∷ rest) s = elim (Bool-cases (has g (join rest s))) [
  | inl h ↦
      ap (λ b. has f (if b then join rest s else g ∷ join rest s)) h
      ∙ absorbs (str_eq f g) (has f (join rest s)) (has-at f g (join rest s) true h)
      ∙ ap (λ x. str_eq f g || x) (has-join f rest s)
      ∙ sym (assoc (str_eq f g) (has f rest) (has f s))
  | inr h ↦
      ap (λ b. has f (if b then join rest s else g ∷ join rest s)) h
      ∙ ap (λ x. str_eq f g || x) (has-join f rest s)
      ∙ sym (assoc (str_eq f g) (has f rest) (has f s))
]

has-minus : (f : String) (a s : List String) → has f (minus a s) ≡ (has f a && not (has f s))
unfolding minus has
has-minus f [] s = refl
has-minus f (g ∷ rest) s = elim (Bool-cases (has g s)) [
  | inl h ↦
      ap (λ b. has f (if b then minus rest s else g ∷ minus rest s)) h
      ∙ has-minus f rest s
      ∙ drop (str_eq f g) (has f rest) (has f s) (has-at f g s true h)
  | inr h ↦
      ap (λ b. has f (if b then minus rest s else g ∷ minus rest s)) h
      ∙ ap (λ x. str_eq f g || x) (has-minus f rest s)
      ∙ keep (str_eq f g) (has f rest) (has f s) (has-at f g s false h)
]

has-insert_text :
    (f g : String) (l : List String) → has f (insert_text g l) ≡ (str_eq f g || has f l)
unfolding insert_text has
has-insert_text f g [] = refl
has-insert_text f g (a ∷ rest) = elim (Bool-cases (text_leb g a)) [
  | inl h ↦ rw h
  | inr h ↦ rw (h, has-insert_text f g rest, swap (str_eq f a) (str_eq f g) (has f rest))
]

pub has-sorted_texts : (f : String) (l : List String) → has f (sorted_texts l) ≡ has f l
unfolding sorted_texts has
has-sorted_texts f [] = refl
has-sorted_texts f (g ∷ rest) =
    rw (has-insert_text f g (sorted_texts rest), has-sorted_texts f rest)

carry-authorized : (f : String) (a s : List String) → has f (authorized_half (carry a s)) ≡ has f a
carry-authorized f [] [] = refl
carry-authorized f (g ∷ rest) s = has-sorted_texts f (g ∷ rest)
carry-authorized f [] (g ∷ rest) = refl

carry-store : (f : String) (a s : List String) → has f (store_half (carry a s)) ≡ has f s
carry-store f [] [] = refl
carry-store f (g ∷ rest) s = has-sorted_texts f s
carry-store f [] (g ∷ rest) = has-sorted_texts f (g ∷ rest)

-- Whether a field stands in the authorized half, and in the other one, after a push that cleared
-- and re-set the given fields.
abbrev pub next_halves : Bool → Bool → Bool → Bool → Bool → Bool × Bool
next_halves true cleared reset authorized stored =
    let a = authorized && not reset in (a, (stored && not reset) || (cleared && not a))
next_halves false cleared reset authorized stored =
    ((authorized && not reset) || cleared, (stored && not reset) && not cleared)

abbrev pub halves : String → Option Carrier → Bool × Bool
halves f carrier = (has f (authorized_half carrier), has f (store_half carrier))

pub update-halves :
    (f : String) (cleared reset : List String) (store_only : Bool) (carrier : Option Carrier)
    → halves f (update_pending_clear cleared reset store_only carrier)
      ≡ next_halves store_only
          (has f cleared)
          (has f reset)
          (has f (authorized_half carrier))
          (has f (store_half carrier))
unfolding update_pending_clear
update-halves f cleared reset true carrier =
    let a = minus (authorized_half carrier) reset in
    let s = minus (store_half carrier) reset in
    rw (
      carry-authorized f a (join s (minus cleared a)),
      carry-store f a (join s (minus cleared a)),
      has-join f s (minus cleared a),
      has-minus f cleared a,
      has-minus f (authorized_half carrier) reset,
      has-minus f (store_half carrier) reset,
    )
update-halves f cleared reset false carrier =
    let a = minus (authorized_half carrier) reset in
    let s = minus (store_half carrier) reset in
    rw (
      carry-authorized f (join a cleared) (minus s cleared),
      carry-store f (join a cleared) (minus s cleared),
      has-join f a cleared,
      has-minus f s cleared,
      has-minus f (authorized_half carrier) reset,
      has-minus f (store_half carrier) reset,
    )
