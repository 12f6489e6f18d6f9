-- ===== src/Community/Color.antt =====
-- Color communities of core/community_dialect.py, to Nokia's hexadecimal form and back.
use Prim.Native.Nat.{zero, suc, ◌*◌, ◌/◌, ◌%◌}
use nso_adapter.Prelude.{
  ℕ, ◌+◌, ◌<◌, ◌≤◌, ◌≡◌, refl, sym, ap, ◌∙◌, true, ◌&&◌, some, List, [], ◌∷◌, ◌++◌, ◌==◌, leb,
  length, arith, and-parts, and-both,
}
use mathlib.Core.Option
use mathlib.Core.List.{append_assoc}
use nso_adapter.Text.{codes, all_digits, str_int, split}
use nso_adapter.Text.Decimal.{
  Numeral, int-str, str-digits, str-Numeral, split-digits, split-digits_at,
}
use nso_adapter.Text.Solid.{all_solid, solid-append, digits-solid, strip-solid}
use nso_adapter.Community.{
  is_number, hex_digit, hex, ext_of, color_parts, is_hex, all_hex, hex_value, hex_from, take, drop,
  color_text, nokia_ext_to_color, nokia_timos, nokia_to_canonical, to_canonical,
  nokia_from_canonical, from_canonical,
}

str-number : (n : ℕ) → is_number (str_int n) ≡ true
str-number n = by_cases (str_int n) (str-Numeral n) (str-digits n)
  where
    by_cases : (t : List ℕ) → Numeral t → all_digits t ≡ true → is_number t ≡ true
    by_cases [] k h = cc (k.starts)
    by_cases (c ∷ rest) k h = h

hex_digit-value : (d : ℕ) → d < 16 → hex_value (hex_digit d) ≡ d
hex_digit-value d h = ground arith

hex_digit-hex : (d : ℕ) → d < 16 → is_hex (hex_digit d) ≡ true
hex_digit-hex d h = ground arith

mod_16 : (n : ℕ) → n % 16 < 16
mod_16 n = omega arith

hex-all : (width n : ℕ) (after : List ℕ) → all_hex after ≡ true → all_hex (hex width n after) ≡ true
unfolding hex all_hex
hex-all zero n after h = h
hex-all (suc width) n after h =
    hex-all width (n / 16) (hex_digit (n % 16) ∷ after)
      (and-both (hex_digit-hex (n % 16) (mod_16 n)) h)

hex-length : (width n : ℕ) (after : List ℕ) → length (hex width n after) ≡ width + length after
unfolding hex
hex-length zero n after = omega arith
hex-length (suc width) n after =
    hex-length width (n / 16) (hex_digit (n % 16) ∷ after) ∙ omega arith

-- How many numbers have so many digits.
abbrev numbers : ℕ → ℕ
numbers zero = 1
numbers (suc width) = 16 * numbers width

hex-value :
    (width n : ℕ) (after : List ℕ)
    → n < numbers width
    → hex_from 0 (hex width n after) ≡ hex_from n after
unfolding hex hex_from
hex-value zero n after h = ap (λ k. hex_from k after) (omega arith)
hex-value (suc width) n after h =
    let less : n / 16 < numbers width = omega arith in
    hex-value width (n / 16) (hex_digit (n % 16) ∷ after) less
    ∙ ap (λ d. hex_from (n / 16 * 16 + d) after) (hex_digit-value (n % 16) (mod_16 n))
    ∙ ap (λ k. hex_from k after) (omega arith)

-- The first digits, and what follows them.
hex-append : (width n : ℕ) (after : List ℕ) → hex width n after ≡ hex width n [] ++ after
unfolding hex
hex-append zero n after = refl
hex-append (suc width) n after =
    hex-append width (n / 16) (hex_digit (n % 16) ∷ after)
    ∙ sym (append_assoc (hex width (n / 16) []) (hex_digit (n % 16) ∷ []) after)
    ∙ ap (λ t. t ++ after) (sym (hex-append width (n / 16) (hex_digit (n % 16) ∷ [])))

take-append : (s t : List ℕ) → take (length s) (s ++ t) ≡ s
unfolding take
take-append [] t = refl
take-append (c ∷ s) t = ap (λ r. c ∷ r) (take-append s t)

drop-append : (s t : List ℕ) → drop (length s) (s ++ t) ≡ t
unfolding drop
drop-append [] t = refl
drop-append (c ∷ s) t = drop-append s t

hex-solid : (t : List ℕ) → all_hex t ≡ true → all_solid t ≡ true
unfolding all_hex all_solid
hex-solid [] h = refl
hex-solid (c ∷ rest) h =
    let (here, later) = and-parts (is_hex c) (all_hex rest) h in
    and-both (ground arith) (hex-solid rest later)

small : (n limit : ℕ) → n ≤ limit → leb n limit ≡ true
small n limit h = ground arith

module _ (co value : ℕ) (two_bits : co ≤ 3) (word : value < 4294967296) where
  body : List ℕ
  body = hex 4 (co * 16384) (hex 8 value [])

  four : length (hex 4 (co * 16384) []) ≡ 4
  four = hex-length 4 (co * 16384) [] ∙ omega arith

  split_body : body ≡ hex 4 (co * 16384) [] ++ hex 8 value []
  unfolding body
  split_body = hex-append 4 (co * 16384) (hex 8 value [])

  flags_of : hex_from 0 (take 4 body) / 16384 ≡ co
  unfolding body
  flags_of =
      ap (λ t. hex_from 0 (take 4 t) / 16384) split_body
      ∙ ap (λ k. hex_from 0 (take k (hex 4 (co * 16384) [] ++ hex 8 value [])) / 16384) (sym four)
      ∙ ap (λ t. hex_from 0 t / 16384) (take-append (hex 4 (co * 16384) []) (hex 8 value []))
      ∙ ap (λ k. k / 16384) (hex-value 4 (co * 16384) [] (omega arith))
      ∙ unfold hex_from in omega arith

  value_of : hex_from 0 (drop 4 body) ≡ value
  unfolding body
  value_of =
      ap (λ t. hex_from 0 (drop 4 t)) split_body
      ∙ ap (λ k. hex_from 0 (drop k (hex 4 (co * 16384) [] ++ hex 8 value []))) (sym four)
      ∙ ap (hex_from 0) (drop-append (hex 4 (co * 16384) []) (hex 8 value []))
      ∙ hex-value 8 value [] (omega arith)
      ∙ unfold hex_from in refl

  body_fits : (length body == 12 && all_hex body) ≡ true
  unfolding body
  body_fits =
      let long : length body ≡ 12 =
        hex-length 4 (co * 16384) (hex 8 value [])
        ∙ ap (λ k. 4 + k) (hex-length 8 value [])
        ∙ omega arith in
      and-both (ap (λ k. k == 12) long)
        (hex-all 4 (co * 16384) (hex 8 value []) (hex-all 8 value [] (unfold all_hex in refl)))

  reads_back : nokia_ext_to_color (ext_of co value) ≡ some (color_text co value)
  unfolding nokia_ext_to_color body
  reads_back = rw (body_fits, flags_of, value_of)

  color_solid : all_solid (color_text co value) ≡ true
  color_solid =
      solid-append (codes "color:") (str_int co ++ (58 ∷ str_int value)) (unfold all_solid in refl)
        (solid-append (str_int co) (58 ∷ str_int value) (digits-solid (str_int co) (str-digits co))
          (solid-append (58 ∷ []) (str_int value) (unfold all_solid in refl)
            (digits-solid (str_int value) (str-digits value))))

  ext_solid : all_solid (ext_of co value) ≡ true
  unfolding body
  ext_solid =
      solid-append (codes "ext:030b:") body (unfold all_solid in refl)
        (hex-solid body (and-parts (length body == 12) (all_hex body) body_fits).1)

  parts_of : (split 58 (str_int co ++ (58 ∷ str_int value))) ≡ (str_int co, str_int value ∷ [])
  parts_of =
      split-digits_at 58 (str_int co) (str_int value) refl (str-digits co)
      ∙ ap (λ p. (str_int co, p.0 ∷ p.1)) (split-digits 58 (str_int value) refl (str-digits value))

  writes_parts : color_parts (str_int co ∷ str_int value ∷ []) ≡ some (ext_of co value)
  writes_parts = rw (
    str-number co,
    str-number value,
    int-str co,
    int-str value,
    small co 3 two_bits,
    small value 4294967295 (omega arith),
  )

  writes : nokia_from_canonical (color_text co value) ≡ some (ext_of co value)
  unfolding nokia_from_canonical
  writes = rw parts_of writes_parts

  -- An exact color community, of two color-only bits and a value of 32 bits, written for Nokia and
  -- read again, is the same member.
  pub color_round_trip :
      Option.map (to_canonical nokia_timos) (from_canonical nokia_timos (color_text co value))
      ≡ some (color_text co value)
  unfolding to_canonical from_canonical nokia_to_canonical
  color_round_trip = rw (
    strip-solid (color_text co value) color_solid,
    writes,
    strip-solid (ext_of co value) ext_solid,
    reads_back,
  )
