-- ===== src/Text/Decimal.antt =====
-- `str` and `int` on decimal numbers.
use nso_adapter.Prelude.{
  ℕ, zero, suc, ◌+◌, ◌/◌, ◌%◌, ◌<◌, ◌≡◌, refl, ap, ◌∙◌, inl, inr, true, false, List, [], ◌∷◌, ◌++◌,
  ◌==◌, Bool-cases, arith, and-parts,
}
use nso_adapter.Text.{is_digit, all_digits, int_from, write, str_int, split}

write-int :
    (fuel n : ℕ) (after : List ℕ) → n < fuel → int_from 0 (write fuel n after) ≡ int_from n after
unfolding write int_from
write-int zero n after h = elim h [ ]
write-int (suc fuel) n after h = elim (Bool-cases (n / 10 == 0)) [
  | inl e ↦ rw e (ap (λ k. int_from k after) (ground arith))
  | inr e ↦
      let step : n / 10 < fuel = ground arith in
      rw e (
        write-int fuel (n / 10) ((48 + n % 10) ∷ after) step
        ∙ ap (λ k. int_from k after) (omega arith))
]

-- A number is read back from its decimal text.
pub int-str : (n : ℕ) → int_from 0 (str_int n) ≡ n
unfolding str_int int_from
int-str n = write-int (suc n) n [] (omega arith)

digit_ok : (n : ℕ) → is_digit (48 + n % 10) ≡ true
digit_ok n = ground arith

write-digits :
    (fuel n : ℕ) (after : List ℕ) → all_digits after ≡ true → all_digits (write fuel n after) ≡ true
unfolding write all_digits
write-digits zero n after h = h
write-digits (suc fuel) n after h = elim (Bool-cases (n / 10 == 0)) [
  | inl e ↦ rw (e, digit_ok n, h)
  | inr e ↦ rw e (write-digits fuel (n / 10) ((48 + n % 10) ∷ after) (rw (digit_ok n, h)))
]

pub str-digits : (n : ℕ) → all_digits (str_int n) ≡ true
unfolding str_int
str-digits n = write-digits (suc n) n [] (unfold all_digits in refl)

-- The text starts with a digit, and with no 0 unless it is the text of 0.
pub record Numeral (text : List ℕ) : Type 0 where
  pub head : ℕ
  pub rest : List ℕ
  pub starts : text ≡ head ∷ rest
  pub plain : (head == 48) ≡ true → rest ≡ []

write-numeral :
    (fuel n : ℕ) (after : List ℕ)
    → n < fuel
    → 0 < n
    → (head : ℕ) × (rest : List ℕ) × (write fuel n after ≡ head ∷ rest) × ((head == 48) ≡ false)
unfolding write
write-numeral zero n after h p = elim h [ ]
write-numeral (suc fuel) n after h p = elim (Bool-cases (n / 10 == 0)) [
  | inl e ↦ (48 + n % 10, after, rw e, ground arith)
  | inr e ↦
      let step : n / 10 < fuel = ground arith in
      let more : 0 < n / 10 = ground arith in
      let (head, rest, starts, plain) =
        write-numeral fuel (n / 10) ((48 + n % 10) ∷ after) step more in
      (head, rest, rw e starts, plain)
]

pub str-Numeral : (n : ℕ) → Numeral (str_int n)
unfolding str_int write
str-Numeral zero = record { head = 48; rest = []; starts = refl; plain = λ e. refl }
str-Numeral (suc n) =
    let (head, rest, starts, plain) =
      write-numeral (suc (suc n)) (suc n) [] (omega arith) (omega arith) in
    record { head = head; rest = rest; starts = starts; plain = λ e. cc }

-- Digits are not split at a separator that is no digit.
pub split-digits :
    (sep : ℕ) (t : List ℕ) → is_digit sep ≡ false → all_digits t ≡ true → split sep t ≡ (t, [])
unfolding split all_digits
split-digits sep [] n h = refl
split-digits sep (c ∷ rest) n h =
    let (here, later) = and-parts (is_digit c) (all_digits rest) h in
    let other : (c == sep) ≡ false = ground (arith, here, n) in
    rw (split-digits sep rest n later, other)

pub split-digits_at :
    (sep : ℕ) (t u : List ℕ)
    → is_digit sep ≡ false
    → all_digits t ≡ true
    → split sep (t ++ (sep ∷ u)) ≡ (t, (split sep u).0 ∷ (split sep u).1)
unfolding split all_digits
split-digits_at sep [] u n h = let same : (sep == sep) ≡ true = ground arith in rw same
split-digits_at sep (c ∷ rest) u n h =
    let (here, later) = and-parts (is_digit c) (all_digits rest) h in
    let other : (c == sep) ≡ false = ground (arith, here, n) in
    rw (split-digits_at sep rest u n later, other)
