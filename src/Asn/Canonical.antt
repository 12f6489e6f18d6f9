-- ===== src/Asn/Canonical.antt =====
-- The canonical text of an AS number of domain/asn.py.
use nso_adapter.Prelude.{
  ℕ, ◌+◌, ◌*◌, ◌<◌, ◌≤◌, ◌≡◌, refl, sym, ap, ◌∙◌, inl, inr, true, false, ◌&&◌, Option, none, some,
  List, [], ◌∷◌, ◌++◌, ◌==◌, leb, Bool-cases, arith, and-parts, subst,
}
use nso_adapter.Results.{Result, ok, raised, >>=-eq-ok, check-eq-ok, ok-injective}
use nso_adapter.Text.{all_digits, int_from, str_int, split, text_eq}
use nso_adapter.Text.Decimal.{
  Numeral, int-str, str-digits, str-Numeral, split-digits, split-digits_at,
}
use nso_adapter.Asn.{
  AsValue, of_text, is_part, plain, dotted, by_parts, asn_text, of_written, parse_asn, or_violation,
  checked_asn, is_empty_text, written_asn, checked_device_source_ref,
}

numerals_are_parts : (t : List ℕ) → Numeral t → all_digits t ≡ true → is_part t ≡ true
unfolding is_part text_eq
numerals_are_parts [] n d = cc (n.starts)
numerals_are_parts (c ∷ rest) n d =
    let same_head : c ≡ n.head = ap (first c) n.starts in
    let same_rest : rest ≡ n.rest = ap others n.starts in
    elim (Bool-cases (c == 48)) [
      | inr e ↦ rw (d, e)
      | inl e ↦
          let lone = same_rest ∙ n.plain (ap (λ x. x == 48) (sym same_head) ∙ e) in rw (d, lone, e)
    ]
  where
    first : ℕ → List ℕ → ℕ
    first d [] = d
    first d (x ∷ s) = x

    others : List ℕ → List ℕ
    others [] = []
    others (x ∷ s) = s

str-part : (n : ℕ) → is_part (str_int n) ≡ true
str-part n = numerals_are_parts (str_int n) (str-Numeral n) (str-digits n)

within : (n limit : ℕ) → n ≤ limit → leb (int_from 0 (str_int n)) limit ≡ true
within n limit h = rw (int-str n) (ground arith)

-- The decimal text of a number of 32 bits is read as that number.
pub reads_asplain : (n : ℕ) → n < 4294967296 → parse_asn (of_text (str_int n)) ≡ ok n
unfolding parse_asn
reads_asplain n h = rw (
  split-digits 46 (str_int n) refl (str-digits n),
  str-part n,
  within n 4294967295 (omega arith),
  int-str n,
)

-- Two numbers of 16 bits with a dot between them are read as the number that they are the high and
-- the low half of.
pub reads_asdot :
    (high low : ℕ)
    → high < 65536
    → low < 65536
    → parse_asn (of_text (str_int high ++ (46 ∷ str_int low))) ≡ ok (high * 65536 + low)
unfolding parse_asn
reads_asdot high low h l = rw (
  split-digits_at 46 (str_int high) (str_int low) refl (str-digits high),
  split-digits 46 (str_int low) refl (str-digits low),
  str-part high,
  str-part low,
  within high 65535 (omega arith),
  within low 65535 (omega arith),
  int-str high,
  int-str low,
)

plain-lt : (p : List ℕ) {n : ℕ} → plain p ≡ ok n → n < 4294967296
plain-lt p h =
    let (fits, e) = check-eq-ok (is_part p && leb (int_from 0 p) 4294967295) _ _ h in
    let (_, small) = and-parts (is_part p) (leb (int_from 0 p) 4294967295) fits in
    rw (← ok-injective e) (ground arith)

dotted-lt : (p q : List ℕ) {n : ℕ} → dotted p q ≡ ok n → n < 4294967296
dotted-lt p q h =
    let (_, h') = check-eq-ok (is_part p && is_part q) _ _ h in
    let (fits, e) = check-eq-ok (leb (int_from 0 p) 65535 && leb (int_from 0 q) 65535) _ _ h' in
    let (a, b) = and-parts (leb (int_from 0 p) 65535) (leb (int_from 0 q) 65535) fits in
    rw (← ok-injective e) (ground arith)

parts-lt : (parts : List ℕ × List (List ℕ)) {n : ℕ} → by_parts parts ≡ ok n → n < 4294967296
parts-lt (p, []) h = plain-lt p h
parts-lt (p, q ∷ []) h = dotted-lt p q h
parts-lt (p, q ∷ r ∷ rest) h = cc h

written-lt : (t : Option (List ℕ)) {n : ℕ} → of_written t ≡ ok n → n < 4294967296
written-lt none h = cc h
written-lt (some t) h = parts-lt (split 46 t) h

-- Whatever is read as an AS number has 32 bits, in either notation.
pub asn_has_32_bits : (value : AsValue) {n : ℕ} → parse_asn value ≡ ok n → n < 4294967296
unfolding parse_asn
asn_has_32_bits value h = written-lt (asn_text value) h

checked-parsed : (r : Result ℕ) {n : ℕ} → or_violation r ≡ ok n → r ≡ ok n
checked-parsed (ok m) h = h
checked-parsed (raised e) h = cc h

nonempty : (t : List ℕ) → Numeral t → is_empty_text (of_text t) ≡ false
nonempty [] n = cc (n.starts)
nonempty (c ∷ rest) n = refl

stable_at :
    (n : ℕ) → n < 4294967296 → checked_device_source_ref (of_text (str_int n)) ≡ ok (str_int n)
unfolding checked_device_source_ref checked_asn
stable_at n small =
    rw (nonempty (str_int n) (str-Numeral n))
      (ap (λ r. written_asn (or_violation r)) (reads_asplain n small))

-- Canonicalising a device's source reference twice is canonicalising it once.
pub canonical_source_is_stable :
    (value : AsValue) {text : List ℕ}
    → checked_device_source_ref value ≡ ok text
    → checked_device_source_ref (of_text text) ≡ ok text
unfolding checked_device_source_ref checked_asn
canonical_source_is_stable value {text} h = elim (Bool-cases (is_empty_text value)) [
  | inl e ↦
      let gone : ◌≡◌ {A = Result (List ℕ)} (ok []) (ok text) = rw e at h in
      rw (← ok-injective gone) refl
  | inr e ↦
      let (n, p, w) = >>=-eq-ok (or_violation (parse_asn value)) _ (rw e at h) in
      let small = asn_has_32_bits value (checked-parsed (parse_asn value) p) in
      subst (λ t. checked_device_source_ref (of_text t) ≡ ok t) (ok-injective w) (stable_at n small)
]
