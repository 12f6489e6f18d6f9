-- ===== src/RoutePlan/Tests.antt =====
-- The readings of a row's fields.
use nso_adapter.Prelude.{◌≡◌, refl, true, not, some, [], ◌∷◌}
use nso_adapter.Json.{text_mem, text, end, field}
use nso_adapter.Results.{ok}
use nso_adapter.RoutePlan.{
  field_value, wire_set, leaf_is_neutral, static_route_entry, candidate_clear_fields,
  replacement_open,
}
use nso_adapter.RoutePlan.Sample.{edited, cleared}
use nso_adapter.RoutePlan.Neutral.{neutral_iff_unset}

open_row : replacement_open edited ≡ ok true
unfolding replacement_open
open_row = refl

-- A metric of 0 is a value.
only_the_tag : candidate_clear_fields cleared ≡ ok ("tag" ∷ [])
unfolding candidate_clear_fields
only_the_tag = refl

stripped : leaf_is_neutral "permanent" (field "permanent" (text " False ") end) ≡ some true
unfolding leaf_is_neutral
stripped = refl

neutral_iff_unset_example :
    leaf_is_neutral "permanent" (static_route_entry edited)
    ≡ some (not (wire_set "permanent" (field_value "permanent" edited)))
unfolding text_mem
neutral_iff_unset_example = neutral_iff_unset edited "permanent" refl
