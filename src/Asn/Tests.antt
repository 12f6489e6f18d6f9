-- ===== src/Asn/Tests.antt =====
-- Concrete AS numbers.
use nso_adapter.Prelude.{◌<◌, ◌≡◌, refl, List, [], ◌∷◌}
use nso_adapter.Results.{ok, raised, value_error, asn_rule_violation}
use nso_adapter.Text.{codes}
use nso_adapter.Asn.{
  of_text, SourceEntry, parse_asn, checked_asn, checked_device_source_ref, names_an_as,
  validate_source_as_numbers,
}
use nso_adapter.Asn.Canonical.{asn_has_32_bits}
use nso_adapter.Asn.Sources.{Among, one_spelling_for_each_as}
use nso_adapter.Asn.Sources

asdot : parse_asn (of_text (codes "1.10")) ≡ ok 65546
unfolding parse_asn
asdot = refl

leading_zero : parse_asn (of_text (codes "064512")) ≡ raised value_error
unfolding parse_asn
leading_zero = refl

too_large : parse_asn (of_text (codes "4294967296")) ≡ raised value_error
unfolding parse_asn
too_large = refl

-- Two spellings of one AS number, and with an instance of OSPF between them.
abbrev entries : List SourceEntry
entries =
    record { source_protocol = of_text (codes " bgp"); source_ref = of_text (codes "65546") }
    ∷ record { source_protocol = of_text (codes "ospf"); source_ref = of_text (codes "1") }
    ∷ record { source_protocol = of_text (codes "bgp"); source_ref = of_text (codes "65546") }
    ∷ []

two_spellings :
    validate_source_as_numbers (
      record { source_protocol = of_text (codes "bgp"); source_ref = of_text (codes "1.10") }
      ∷ entries)
    ≡ raised asn_rule_violation
unfolding validate_source_as_numbers
two_spellings = refl

asn_has_32_bits_example : 65546 < 4294967296
asn_has_32_bits_example = asn_has_32_bits (of_text (codes "1.10")) asdot

canonical : checked_device_source_ref (of_text (codes "1.10")) ≡ ok (codes "65546")
unfolding checked_device_source_ref
canonical = refl

one_spelling_for_each_as_example : ◌≡◌ (of_text (codes "65546")) (of_text (codes "65546"))
unfolding names_an_as checked_asn validate_source_as_numbers
one_spelling_for_each_as_example =
    one_spelling_for_each_as 65546
      (record { source_protocol = of_text (codes " bgp"); source_ref = of_text (codes "65546") })
      (record { source_protocol = of_text (codes "bgp"); source_ref = of_text (codes "65546") })
      entries (Sources.Among.first _)
      (Sources.Among.later _ (Sources.Among.later _ (Sources.Among.first []))) refl refl refl refl
      refl
