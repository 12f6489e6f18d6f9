-- ===== src/Community/Tests.antt =====
-- Members that Nokia stores in another form, or not at all.
use mathlib.Core.Option
use nso_adapter.Prelude.{ℕ, ◌≡◌, refl, true, not, ◌&&◌, some, none, List, [], ◌∷◌, ◌++◌, arith}
use nso_adapter.Text.{codes}
use nso_adapter.Text.Solid.{all_solid}
use nso_adapter.Community.{
  nokia_timos, count_of, color_text, large_prefix, is_blank, is_none, member_mem, from_canonical,
  to_canonical, unrepresentable_members, community_dialect_for,
}
use nso_adapter.Community.Color.{color_round_trip}
use nso_adapter.Community.Large.{large_round_trip}
use nso_adapter.Community.Report.{none_repeats, reports_the_unrepresentable}

color_as_ext :
    from_canonical nokia_timos (codes "color:1:128") ≡ some (codes "ext:030b:400000000080")
unfolding from_canonical
color_as_ext = refl

large_as_regex :
    from_canonical nokia_timos (codes "large:64500:.*:[0-4]") ≡ some (codes "64500&.*&[0-4]")
unfolding from_canonical
large_as_regex = refl

-- Without a digit at the head the keyword is not put back.
pattern_head :
    Option.map (to_canonical nokia_timos) (from_canonical nokia_timos (codes "large:.*:1:2"))
    ≡ some (codes ".*&1&2")
unfolding from_canonical to_canonical
pattern_head = refl

native_color : to_canonical nokia_timos (codes " color:00:600 ") ≡ codes "color:0:600"
unfolding to_canonical
native_color = refl

no_bandwidth : from_canonical nokia_timos (codes "bandwidth:1:2") ≡ none
unfolding from_canonical
no_bandwidth = refl

nokia : community_dialect_for (some (codes "timos-nc-23.10")) ≡ nokia_timos
unfolding community_dialect_for
nokia = refl

color_round_trip_example :
    Option.map (to_canonical nokia_timos) (from_canonical nokia_timos (color_text 1 128))
    ≡ some (color_text 1 128)
color_round_trip_example = color_round_trip 1 128 (omega arith) (omega arith)

large_round_trip_example :
    Option.map
      (to_canonical nokia_timos)
      (from_canonical nokia_timos (large_prefix ++ codes "64500:.*:[0-4]"))
    ≡ some (large_prefix ++ codes "64500:.*:[0-4]")
unfolding all_solid count_of
large_round_trip_example = large_round_trip (codes "64500:.*:[0-4]") refl refl refl refl

abbrev members : List (List ℕ)
members = codes "bandwidth:1:2" ∷ codes "65000:1" ∷ codes "bandwidth:1:2" ∷ []

reports_the_unrepresentable_example :
    (member_mem (codes "65000:1") (unrepresentable_members nokia_timos members) ≡ (
      member_mem (codes "65000:1") members
      && (not (is_blank (codes "65000:1"))
          && is_none (from_canonical nokia_timos (codes "65000:1")))))
    × (none_repeats (unrepresentable_members nokia_timos members) ≡ true)
reports_the_unrepresentable_example =
    reports_the_unrepresentable nokia_timos members (codes "65000:1")
