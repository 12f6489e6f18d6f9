-- ===== src/RemovalPlan/Tests.antt =====
-- The removal plan of the sample rows, with one key requested.
use nso_adapter.Prelude.{◌≡◌, refl, false, some, List, [], ◌∷◌}
use nso_adapter.Results.{ok}
use nso_adapter.RoutePlan.Sample.{rows, tombstones}
use nso_adapter.ApplyPlan.RoundTrip.{distinct_ids}
use nso_adapter.RemovalPlan.{
  SrRemovalPlan, SrClear, Registry, Authority, RemovalContext, classify_removal_plan,
  serialize_removal_plan, hydrate_removal_plan,
}
use nso_adapter.RemovalPlan.Authority.{
  Spares, SettlesAll, rendered_keys_are_spared, tombstones_are_settled,
}
use nso_adapter.RemovalPlan.RoundTrip.{SameRemoval, removal_hydrates_what_was_recorded}

abbrev registry : Registry
registry = ("static_route", "route" ∷ []) ∷ []

abbrev requested : Authority
requested =
    ("static_route", ("route", (some "" ∷ some "10.9.0.0/16" ∷ some "" ∷ []) ∷ []) ∷ []) ∷ []

abbrev context : RemovalContext
context = record { detach = false; retract_deferred = false }

abbrev clears : List SrClear
clears = record { row_id = 2; key = ("", "10.1.0.0/16", "192.0.2.2"); fields = "tag" ∷ [] } ∷ []

abbrev plan : SrRemovalPlan
plan = record {
  authorized = ("", "10.3.0.0/16", "192.0.2.2") ∷ ("", "10.9.0.0/16", "") ∷ [];
  claimed =
      ("", "10.0.0.0/8", "192.0.2.1")
      ∷ ("", "10.0.0.0/8", "192.0.2.2")
      ∷ ("", "10.1.0.0/16", "192.0.2.2")
      ∷ ("", "10.2.0.0/16", "192.0.2.2")
      ∷ [];
  tombstone_ids = 7 ∷ 8 ∷ [];
  clears = clears;
  reclaimed = ("", "10.1.0.0/16", "192.0.2.2") ∷ [];
}

classifies : classify_removal_plan registry rows tombstones requested context ≡ ok plan
unfolding classify_removal_plan
classifies = refl

rendered_keys_are_spared_example : Spares plan rows
rendered_keys_are_spared_example =
    rendered_keys_are_spared registry rows tombstones requested context classifies

tombstones_are_settled_example : SettlesAll rows plan tombstones
tombstones_are_settled_example =
    tombstones_are_settled registry rows tombstones requested context classifies

removal_hydrates_what_was_recorded_example :
    (again : SrRemovalPlan) × (hydrate_removal_plan (serialize_removal_plan plan) rows ≡ ok again)
    × SameRemoval again plan
unfolding distinct_ids
removal_hydrates_what_was_recorded_example =
    removal_hydrates_what_was_recorded registry rows tombstones requested context refl classifies
