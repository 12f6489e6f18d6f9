-- ===== src/ApplyPlan/Tests.antt =====
-- The plan of the sample rows, and what becomes of it.
use nso_adapter.Prelude.{◌≡◌, refl, [], ◌∷◌}
use nso_adapter.Results.{ok}
use nso_adapter.RoutePlan.Sample.{edited, cleared, rows, deleted, tombstones}
use nso_adapter.ApplyPlan.{
  SrPlan, cas_of, classify_apply_plan, serialize_apply_plan, prune_apply_plan,
}
use nso_adapter.ApplyPlan.Hydrate.{hydrate_apply_plan}
use nso_adapter.ApplyPlan.RoundTrip.{distinct_ids, SamePlan, hydrates_what_was_recorded}
use nso_adapter.ApplyPlan.Prune.{prunes_to_reclassification}
use nso_adapter.ApplyPlan.Authority.{OwesAll, Below, every_tombstone_is_covered}

abbrev plan : SrPlan
plan = record {
  mode = "PUT";
  rows = edited ∷ cleared ∷ [];
  allowed =
      ("", "10.1.0.0/16", "192.0.2.2")
      ∷ ("", "10.3.0.0/16", "192.0.2.2")
      ∷ ("", "10.0.0.0/8", "192.0.2.1")
      ∷ [];
  tombstones = tombstones;
  cas = cas_of edited ∷ cas_of cleared ∷ [];
  tombstone_id_watermark = 8;
}

classifies : classify_apply_plan rows tombstones ≡ ok plan
unfolding classify_apply_plan
classifies = refl

abbrev pruned : SrPlan
pruned = record plan {
  allowed = ("", "10.3.0.0/16", "192.0.2.2") ∷ ("", "10.0.0.0/8", "192.0.2.1") ∷ [];
  tombstones = deleted ∷ [];
  tombstone_id_watermark = 7;
}

reclassifies : classify_apply_plan rows (deleted ∷ []) ≡ ok pruned
unfolding classify_apply_plan
reclassifies = refl

abbrev without_tombstones : SrPlan
without_tombstones = record plan {
  allowed = ("", "10.0.0.0/8", "192.0.2.1") ∷ [];
  tombstones = [];
  tombstone_id_watermark = 0;
}

no_tombstones : classify_apply_plan rows [] ≡ ok without_tombstones
unfolding classify_apply_plan
no_tombstones = refl

hydrates_what_was_recorded_example :
    (again : SrPlan) × (hydrate_apply_plan (serialize_apply_plan plan) rows tombstones ≡ ok again)
    × SamePlan again plan
unfolding distinct_ids
hydrates_what_was_recorded_example = hydrates_what_was_recorded rows tombstones refl refl classifies

prunes_to_reclassification_example :
    prune_apply_plan (serialize_apply_plan plan) rows (deleted ∷ [])
    ≡ ok (serialize_apply_plan pruned)
unfolding distinct_ids
prunes_to_reclassification_example =
    prunes_to_reclassification rows tombstones (deleted ∷ []) refl classifies reclassifies

every_tombstone_is_covered_example :
    OwesAll plan.allowed tombstones × Below plan.tombstone_id_watermark tombstones
every_tombstone_is_covered_example = every_tombstone_is_covered rows tombstones classifies
