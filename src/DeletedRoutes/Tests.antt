-- ===== src/DeletedRoutes/Tests.antt =====
-- The request that the comment of core/deleted_routes.py discusses: ids 1 and 2, of which 1 has a
-- row of its own and both know the triple of an uncorrelated row; and an id 3 that knows nothing.
use nso_adapter.Prelude.{◌≡◌, not, ◌&&◌, ◌||◌, refl, true, false, none, some, List, [], ◌∷◌}
use nso_adapter.DeletedRoutes.{
  Triple, StaticRouteIntent, DeletionRecord, elem, add, union, insert, sorted, has_triple,
  insert_triple, sorted_triples, triple_of, by_route_id, keys, genuine, remaining, residue,
  equivalence_class, claims, unclaimed, leftovers, row_ids, classify_deletions,
}
use nso_adapter.DeletedRoutes.Uncorrelated.{is_removed, leaves_uncorrelated}
use nso_adapter.DeletedRoutes.Classes.{is_claimed, is_unverified, verdicts_by_class}
use nso_adapter.DeletedRoutes.Partition.{
  requested, is_distinct, times, outcomes, every_id_has_one_outcome,
}

abbrev own : Triple
own = ("", "10.0.0.0/8", "192.0.2.1")

abbrev other : Triple
other = ("", "10.0.0.0/8", "192.0.2.9")

abbrev request : List DeletionRecord
request =
    record { route_id = 1; triples = own ∷ other ∷ []; unverified = false }
    ∷ record { route_id = 2; triples = other ∷ []; unverified = false }
    ∷ record { route_id = 3; triples = []; unverified = true }
    ∷ []

abbrev rows : List StaticRouteIntent
rows =
    record {
      id = 70;
      route_id = some 1;
      vrf = none;
      prefix = some "10.0.0.0/8";
      next_hop = some "192.0.2.1";
    }
    ∷ record {
      id = 71;
      route_id = none;
      vrf = none;
      prefix = some "10.0.0.0/8";
      next_hop = some "192.0.2.9";
    }
    ∷ []

classifies_request : classify_deletions request rows ≡ record {
  executed = 1 ∷ [];
  degraded = 2 ∷ [];
  moot = 3 ∷ [];
  uncorrelated = [];
  genuine_row_ids = 70 ∷ [];
}
unfolding elem add union insert sorted has_triple insert_triple sorted_triples triple_of by_route_id
    keys genuine remaining residue equivalence_class claims unclaimed leftovers row_ids
    classify_deletions
classifies_request = refl

every_id_has_one_outcome_example :
    outcomes (classify_deletions request rows) 2 ≡ times (requested 2 request)
unfolding is_distinct
every_id_has_one_outcome_example = every_id_has_one_outcome request rows 2 refl

verdicts_by_class_example :
    let part = classify_deletions request rows in
    (elem 2 part.executed ≡ (requested 2 request && is_removed 2 rows))
    × (elem 2 part.degraded ≡ (
        not (requested 2 request && is_removed 2 rows)
        && (is_claimed 2 request rows
            || (is_unverified 2 request && leaves_uncorrelated request rows))))
verdicts_by_class_example = verdicts_by_class request rows 2
