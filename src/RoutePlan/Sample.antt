-- ===== src/RoutePlan/Sample.antt =====
-- Rows and tombstones for the concrete runs: a route whose next hop was edited after its
-- deployment, one with a field to clear, and one that is not accepted; two deletions.
use nso_adapter.Prelude.{true, none, some, List, [], ◌∷◌}
use nso_adapter.RoutePlan.{RouteRow, Tombstone, delete_origin, detach}

abbrev pub edited : RouteRow
edited = record {
  id = 1;
  route_id = some 11;
  deployed_key = some (some "" ∷ some "10.0.0.0/8" ∷ some "192.0.2.1" ∷ []);
  pending_clear = none;
  vrf = "";
  prefix = "10.0.0.0/8";
  next_hop = "192.0.2.2";
  interface_next_hop = none;
  next_hop_vrf = none;
  metric = some 0;
  permanent = some true;
  tag = none;
  name = none;
  accepted_at = some 5;
}

abbrev pub cleared : RouteRow
cleared = record edited {
  id = 2;
  route_id = some 12;
  deployed_key = some (none ∷ some "10.1.0.0/16" ∷ some "192.0.2.2" ∷ []);
  pending_clear = some (record { authorized = "tag" ∷ "metric" ∷ []; store_only = [] });
  prefix = "10.1.0.0/16";
}

abbrev pub proposed : RouteRow
proposed = record cleared { id = 3; prefix = "10.2.0.0/16"; accepted_at = none }

abbrev pub rows : List RouteRow
rows = edited ∷ cleared ∷ proposed ∷ []

abbrev pub deleted : Tombstone
deleted = record {
  id = 7;
  vrf = "";
  prefix = "10.3.0.0/16";
  next_hop = "192.0.2.2";
  deployed_key = none;
  marking = delete_origin;
  job_id = some 4;
}

-- Its key is rendered again by a row.
abbrev pub returned : Tombstone
returned = record deleted { id = 8; prefix = "10.1.0.0/16"; marking = detach }

abbrev pub tombstones : List Tombstone
tombstones = deleted ∷ returned ∷ []
