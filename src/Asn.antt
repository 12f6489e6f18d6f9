-- ===== src/Asn.antt =====
-- domain/asn.py: AS numbers in asplain and asdot notation. A text is the list of its code points;
-- `int` refuses texts of more than 4300 digits, which the limits refuse too.
pub mod Canonical
pub mod Sources
mod Tests
use nso_adapter.Prelude.{
  ℕ, ◌+◌, ◌*◌, String, Bool, true, false, not, ◌&&◌, ◌||◌, Option, none, some, List, [], ◌∷◌, ◌==◌,
  leb, if◌then◌else◌,
}
use nso_adapter.Results.{
  Result, ok, raised, value_error, asn_rule_violation, source_as_required, ◌>>=◌, ◌>>◌, check,
}
use nso_adapter.Text.{codes, strip, text_eq, is_digit, all_digits, int_from, str_int, split}

-- What a document or a device may hold where an AS number belongs.
pub data AsValue : Type 0 where
  of_int : ℕ → AsValue
  of_negative : ℕ → AsValue
  of_text : List ℕ → AsValue
  other : AsValue

-- `str(asn)` of a text or an integer that is no Boolean.
unfoldable pub asn_text : AsValue → Option (List ℕ)
unfolding str_int
asn_text (of_int n) = some (str_int n)
asn_text (of_negative n) = some (45 ∷ str_int n)
asn_text (of_text t) = some t
asn_text other = none

-- A part is decimal, and has no leading zero but in "0".
unfoldable pub is_part : List ℕ → Bool
unfolding all_digits text_eq
is_part [] = false
is_part (c ∷ rest) = all_digits (c ∷ rest) && (text_eq (c ∷ rest) (48 ∷ []) || not (c == 48))

abbrev pub plain : List ℕ → Result ℕ
plain p = do check (is_part p && leb (int_from 0 p) 4294967295) value_error; ok (int_from 0 p)

abbrev pub dotted : List ℕ → List ℕ → Result ℕ
dotted p q = do
  check (is_part p && is_part q) value_error
  check (leb (int_from 0 p) 65535 && leb (int_from 0 q) 65535) value_error
  ok (int_from 0 p * 65536 + int_from 0 q)

abbrev pub by_parts : List ℕ × List (List ℕ) → Result ℕ
by_parts (p, []) = plain p
by_parts (p, q ∷ []) = dotted p q
by_parts (p, q ∷ _ ∷ _) = raised value_error

abbrev pub of_written : Option (List ℕ) → Result ℕ
of_written none = raised value_error
of_written (some t) = by_parts (split 46 t)

unfoldable pub parse_asn : AsValue → Result ℕ
unfolding asn_text is_part int_from split
parse_asn asn = of_written (asn_text asn)

-- `checked_asn`: the refusal names the row instead.
abbrev pub or_violation : Result ℕ → Result ℕ
or_violation (ok n) = ok n
or_violation (raised _) = raised asn_rule_violation

unfoldable pub checked_asn : AsValue → Result ℕ
unfolding parse_asn
checked_asn value = or_violation (parse_asn value)

abbrev pub written_asn : Result ℕ → Result (List ℕ)
written_asn checked = do n ← checked; ok (str_int n)

-- `redistribution_source_identity`
unfoldable pub redistribution_source_identity : List ℕ → List ℕ → Result (List ℕ)
unfolding parse_asn str_int text_eq
redistribution_source_identity protocol reference =
    if text_eq protocol (codes "bgp") && not (text_eq reference [])
    then written_asn (parse_asn (of_text reference))
    else ok reference

-- `redistribution_source_protocol`
unfoldable pub redistribution_source_protocol : AsValue → AsValue
unfolding strip
redistribution_source_protocol (of_text t) = of_text (strip t)
redistribution_source_protocol value = value

abbrev pub is_empty_text : AsValue → Bool
is_empty_text (of_text []) = true
is_empty_text _ = false

-- `checked_device_source_ref`
unfoldable pub checked_device_source_ref : AsValue → Result (List ℕ)
unfolding checked_asn str_int
checked_device_source_ref value =
    if is_empty_text value then ok [] else written_asn (checked_asn value)

-- `checked_intent_source_ref`, of the NED's family.
abbrev pub without_as : Option String → Bool
without_as none = false
without_as (some family) =
    text_eq (codes family) (codes "junos") || text_eq (codes family) (codes "timos")

abbrev pub empty_source : Option String → Result (List ℕ)
empty_source family = if without_as family then ok [] else raised source_as_required

unfoldable pub checked_intent_source_ref : List ℕ → Option String → Result (List ℕ)
unfolding checked_asn str_int text_eq
checked_intent_source_ref value family =
    if text_eq value [] then empty_source family else written_asn (checked_asn (of_text value))

-- An entry of a device's redistribution; an absent `source-ref` is "".
pub record SourceEntry : Type 0 where
  pub source_protocol : AsValue
  pub source_ref : AsValue

abbrev pub value_eq : AsValue → AsValue → Bool
value_eq (of_int m) (of_int n) = m == n
value_eq (of_negative m) (of_negative n) = m == n
value_eq (of_text s) (of_text t) = text_eq s t
value_eq _ _ = false

abbrev pub is_bgp : AsValue → Bool
is_bgp (of_text t) = text_eq t (codes "bgp")
is_bgp _ = false

unfoldable pub names_an_as : SourceEntry → Bool
unfolding redistribution_source_protocol text_eq
names_an_as entry =
    is_bgp (redistribution_source_protocol entry.source_protocol)
    && not (is_empty_text entry.source_ref)

-- `seen.get(identity)`, the later entry before the earlier.
unfoldable pub seen_at : ℕ → List (ℕ × AsValue) → Option AsValue
seen_at n [] = none
seen_at n ((m, value) ∷ rest) = let later = seen_at n rest in if m == n then some value else later

abbrev pub agrees : Option AsValue → AsValue → Bool
agrees none value = true
agrees (some old) value = value_eq old value

-- `validate_source_as_numbers`
unfoldable pub validate_from : List (ℕ × AsValue) → List SourceEntry → Result (Unit {0})
unfolding names_an_as checked_asn seen_at text_eq
validate_from seen [] = ok tt
validate_from seen (entry ∷ rest) =
    let skipped = validate_from seen rest in
    let taken = do
      n ← checked_asn entry.source_ref
      check (agrees (seen_at n seen) entry.source_ref) asn_rule_violation
      validate_from ((n, entry.source_ref) ∷ seen) rest
    in if names_an_as entry then taken else skipped

unfoldable pub validate_source_as_numbers : List SourceEntry → Result (Unit {0})
unfolding validate_from
validate_source_as_numbers entries = validate_from [] entries
