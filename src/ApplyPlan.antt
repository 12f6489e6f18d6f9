-- ===== src/ApplyPlan.antt =====
-- The apply plan of core/static_route_plan.py: classified, recorded in a document, pruned, extended
-- and hydrated. A set is a list read by membership; a recorded plan has its six members.
pub mod Hydrate
mod Tests
pub mod Authority
pub mod Prune
pub mod RoundTrip
use nso_adapter.Prelude.{
  ℕ, String, Bool, true, false, not, ◌&&◌, ◌||◌, Option, none, some, is_some, List, [], ◌∷◌, ◌==◌,
  str_eq, if◌then◌else◌, map, leb,
}
use Prim.Native.Nat.{max}
use nso_adapter.Results.{Result, ok, raised, value_error, key_error, ◌>>=◌, ◌>>◌, check}
use nso_adapter.DeletedRoutes.{Triple, has_triple, elem, sorted, sorted_triples}
use nso_adapter.RoutePlan.{
  DeployedKey, RouteRow, Tombstone, row_triple, tombstone_triple, as_triple, predecessor,
  replacement_open,
}

pub record SrCas : Type 0 where
  pub row_id : ℕ
  pub route_id : Option ℕ
  pub sent_triple : Triple
  pub expected_old : DeployedKey

pub record SrPlan : Type 0 where
  pub mode : String
  pub rows : List RouteRow
  pub allowed : List Triple
  pub tombstones : List Tombstone
  pub cas : List SrCas
  pub tombstone_id_watermark : ℕ

-- `set.add` on triples.
unfoldable pub add_triple : Triple → List Triple → List Triple
unfolding has_triple
add_triple t s = if has_triple t s then s else t ∷ s

abbrev pub add_found : Option Triple → List Triple → List Triple
add_found none s = s
add_found (some t) s = add_triple t s

-- `[r for r in all_rows if r.accepted_at is not None]`
unfoldable pub accepted_rows : List RouteRow → List RouteRow
accepted_rows [] = []
accepted_rows (row ∷ rest) =
    let later = accepted_rows rest in if is_some row.accepted_at then row ∷ later else later

-- `any(…)`, which stops at the first true.
abbrev pub or_later : Bool → Result Bool → Result Bool
or_later true later = ok true
or_later false later = later

unfoldable pub any_open : List RouteRow → Result Bool
unfolding replacement_open
any_open [] = ok false
any_open (row ∷ rest) = do here ← replacement_open row; or_later here (any_open rest)

unfoldable pub add_predecessors : List RouteRow → List Triple → Result (List Triple)
unfolding predecessor add_triple
add_predecessors [] allowed = ok allowed
add_predecessors (row ∷ rest) allowed = do
  deployed ← predecessor row
  add_predecessors rest (add_found deployed allowed)

unfoldable pub add_owed : List Tombstone → List Triple → Result (List Triple)
unfolding tombstone_triple as_triple add_triple
add_owed [] allowed = ok allowed
add_owed (tomb ∷ rest) allowed = do
  deployed ← as_triple tomb.deployed_key
  add_owed rest (add_found deployed (add_triple (tombstone_triple tomb) allowed))

abbrev pub cas_of : RouteRow → SrCas
cas_of row = record {
  row_id = row.id;
  route_id = row.route_id;
  sent_triple = row_triple row;
  expected_old = row.deployed_key;
}

-- `max((t.id for t in tombstones), default=0)`
unfoldable pub watermark : List Tombstone → ℕ
watermark [] = 0
watermark (tomb ∷ rest) = max tomb.id (watermark rest)

abbrev pub mode_of : Bool → String
mode_of true = "PUT"
mode_of false = "PATCH"

unfoldable pub classify_apply_plan : List RouteRow → List Tombstone → Result SrPlan
unfolding accepted_rows any_open add_predecessors add_owed watermark
classify_apply_plan all_rows tombstones = do
  let accepted = accepted_rows all_rows
  opens ← any_open accepted
  replaced ← add_predecessors accepted []
  allowed ← add_owed tombstones replaced
  ok record {
    mode = mode_of opens;
    rows = accepted;
    allowed = allowed;
    tombstones = tombstones;
    cas = map cas_of accepted;
    tombstone_id_watermark = watermark tombstones;
  }

-- A key as it is stored, a list of three texts.
abbrev pub StoredKey : Type 0
StoredKey = List (Option String)

pub record RecordedCas : Type 0 where
  pub row_id : ℕ
  pub route_id : Option ℕ
  pub sent_triple : StoredKey
  pub expected_old : DeployedKey

pub record RecordedApply : Type 0 where
  pub mode : String
  pub row_ids : List ℕ
  pub allowed_removal_keys : List StoredKey
  pub tombstone_ids : List ℕ
  pub cas : List RecordedCas
  pub tombstone_id_watermark : ℕ

abbrev pub stored_key : Triple → StoredKey
stored_key (vrf, prefix, next_hop) = some vrf ∷ some prefix ∷ some next_hop ∷ []

abbrev pub record_cas : SrCas → RecordedCas
record_cas item = record {
  row_id = item.row_id;
  route_id = item.route_id;
  sent_triple = stored_key item.sent_triple;
  expected_old = item.expected_old;
}

abbrev pub id_of : RouteRow → ℕ
id_of row = row.id

abbrev pub tombstone_id : Tombstone → ℕ
tombstone_id tomb = tomb.id

-- `_serialize_apply_plan`
unfoldable pub serialize_apply_plan : SrPlan → RecordedApply
unfolding sorted_triples
serialize_apply_plan plan = record {
  mode = plan.mode;
  row_ids = map id_of plan.rows;
  allowed_removal_keys = map stored_key (sorted_triples plan.allowed);
  tombstone_ids = map tombstone_id plan.tombstones;
  cas = map record_cas plan.cas;
  tombstone_id_watermark = plan.tombstone_id_watermark;
}

-- `freeze_static_route_proof`, of the rows and carriers that the fragment hydrates to.
unfoldable pub freeze_static_route_proof : List RouteRow → List Tombstone → Result RecordedApply
unfolding classify_apply_plan serialize_apply_plan
freeze_static_route_proof rows tombstones = do
  plan ← classify_apply_plan rows tombstones
  ok (serialize_apply_plan plan)

unfoldable pub selected_rows : List ℕ → List RouteRow → List RouteRow
unfolding elem
selected_rows ids [] = []
selected_rows ids (row ∷ rest) =
    let later = selected_rows ids rest in if elem row.id ids then row ∷ later else later

unfoldable pub prune_apply_plan :
    RecordedApply → List RouteRow → List Tombstone → Result RecordedApply
unfolding selected_rows add_predecessors add_owed watermark sorted_triples
prune_apply_plan plan rows tombstones = do
  replaced ← add_predecessors (selected_rows plan.row_ids rows) []
  allowed ← add_owed tombstones replaced
  ok record plan {
    allowed_removal_keys = map stored_key (sorted_triples allowed);
    tombstone_ids = map tombstone_id tombstones;
    tombstone_id_watermark = watermark tombstones;
  }

-- `_sr_key`
abbrev key_found : Option Triple → Result Triple
key_found (some t) = ok t
key_found none = raised value_error

unfoldable pub sr_key : StoredKey → Result Triple
unfolding as_triple
sr_key (vrf ∷ prefix ∷ next_hop ∷ []) = do
  key ← as_triple (some (vrf ∷ prefix ∷ next_hop ∷ []))
  key_found key
sr_key _ = raised value_error
