-- ===== src/RemovalPlan.antt =====
-- The removal plan of core/static_route_plan.py: classified, recorded in a document, certified and
-- hydrated. The labels that the section registry knows of each scope are an argument.
pub mod Authority
mod Tests
pub mod RoundTrip
use nso_adapter.Prelude.{
  ℕ, String, Bool, true, false, not, ◌&&◌, ◌||◌, Option, none, some, List, [], ◌∷◌, str_eq,
  if◌then◌else◌, map,
}
use nso_adapter.Json.{text_mem, all_in}
use nso_adapter.Results.{Result, ok, raised, value_error, ◌>>=◌, ◌>>◌, check}
use nso_adapter.DeletedRoutes.{Triple, triple_eq, has_triple, sorted_triples}
use nso_adapter.PendingClear.{has, authorized_clear_fields}
use nso_adapter.RoutePlan.{
  RouteRow, Tombstone, row_triple, as_triple, candidate_clear_fields, clears_suppressed,
  unset_fields,
}
use nso_adapter.ApplyPlan.{
  StoredKey, add_triple, add_found, add_owed, stored_key, id_of, tombstone_id, sr_key,
}
use nso_adapter.ApplyPlan.Hydrate.{by_id, hydrate_keys}

pub record SrClear : Type 0 where
  pub row_id : ℕ
  pub key : Triple
  pub fields : List String

pub record SrRemovalPlan : Type 0 where
  pub authorized : List Triple
  pub claimed : List Triple
  pub tombstone_ids : List ℕ
  pub clears : List SrClear
  pub reclaimed : List Triple

-- A dict by text: of two entries with one key the first is read.
unfoldable pub read {ℓ} : {A : Type ℓ} → String → List (String × A) → Option A
read k [] = none
read k ((j, a) ∷ rest) = let later = read k rest in if str_eq j k then some a else later

unfoldable pub keys_of {ℓ} : {A : Type ℓ} → List (String × A) → List String
keys_of [] = []
keys_of ((k, a) ∷ rest) = k ∷ keys_of rest

abbrev pub or_none {ℓ} : {A : Type ℓ} → Option (List A) → List A
or_none none = []
or_none (some l) = l

-- The scope-qualified authority, and the labels that the registry has for each scope.
abbrev pub Labels : Type 0
Labels = List (String × List StoredKey)

abbrev pub Authority : Type 0
Authority = List (String × Labels)

abbrev pub Registry : Type 0
Registry = List (String × List String)

-- `validate_removal_authority`
unfoldable pub labels_known : Registry → Authority → Bool
unfolding read keys_of all_in
labels_known registry [] = true
labels_known registry ((scope, labels) ∷ rest) =
    all_in (keys_of labels) (or_none (read scope registry)) && labels_known registry rest

unfoldable pub validate_removal_authority : Registry → Authority → Result (Unit {0})
unfolding labels_known keys_of all_in
validate_removal_authority registry value = do
  check (all_in (keys_of value) (keys_of registry)) value_error
  check (labels_known registry value) value_error
  ok tt

-- `_removal_keys`
unfoldable pub removal_keys : Registry → Authority → Result (List Triple)
unfolding validate_removal_authority read hydrate_keys
removal_keys registry value = do
  _ ← validate_removal_authority registry value
  hydrate_keys (or_none (read "route" (or_none (read "static_route" value))))

unfoldable pub rendered_keys : List RouteRow → List Triple
unfolding row_triple add_triple
rendered_keys [] = []
rendered_keys (row ∷ rest) = add_triple (row_triple row) (rendered_keys rest)

unfoldable pub add_deployed : List RouteRow → List Triple → Result (List Triple)
unfolding as_triple add_triple
add_deployed [] claimed = ok claimed
add_deployed (row ∷ rest) claimed = do
  deployed ← as_triple row.deployed_key
  add_deployed rest (add_found deployed claimed)

-- `a & b` and `a - b`
unfoldable pub common : List Triple → List Triple → List Triple
unfolding has_triple
common [] s = []
common (t ∷ rest) s = let later = common rest s in if has_triple t s then t ∷ later else later

unfoldable pub without : List Triple → List Triple → List Triple
unfolding has_triple
without [] s = []
without (t ∷ rest) s = let later = without rest s in if has_triple t s then later else t ∷ later

-- The clears of the rows that have some field left to clear.
abbrev pub add_clear : RouteRow → List String → List SrClear → List SrClear
add_clear row [] later = later
add_clear row (f ∷ fields) later =
    record { row_id = row.id; key = row_triple row; fields = f ∷ fields } ∷ later

unfoldable pub clears_of : List RouteRow → Result (List SrClear)
unfolding candidate_clear_fields row_triple
clears_of [] = ok []
clears_of (row ∷ rest) = do
  fields ← candidate_clear_fields row
  later ← clears_of rest
  ok (add_clear row fields later)

abbrev pub clears_unless : Bool → List RouteRow → Result (List SrClear)
clears_unless true rows = ok []
clears_unless false rows = clears_of rows

-- The removal's context.
pub record RemovalContext : Type 0 where
  pub detach : Bool
  pub retract_deferred : Bool

unfoldable pub classify_removal_plan :
    Registry → List RouteRow → List Tombstone → Authority → RemovalContext → Result SrRemovalPlan
unfolding removal_keys add_owed rendered_keys add_deployed common without clears_of
    clears_suppressed sorted_triples
classify_removal_plan registry rows tombstones allowed context = do
  requested ← removal_keys registry allowed
  authorized ← add_owed tombstones requested
  let rendered = rendered_keys rows
  claimed ← add_deployed rows rendered
  clears ← clears_unless (clears_suppressed context.detach context.retract_deferred) rows
  ok record {
    authorized = without authorized rendered;
    claimed = claimed;
    tombstone_ids = map tombstone_id tombstones;
    clears = clears;
    reclaimed = sorted_triples (common authorized rendered);
  }

pub record RecordedClear : Type 0 where
  pub row_id : ℕ
  pub key : StoredKey
  pub fields : List String

pub record RecordedRemoval : Type 0 where
  pub authorized_removal_keys : List StoredKey
  pub claimed_keys : List StoredKey
  pub tombstone_ids : List ℕ
  pub candidate_clears : List RecordedClear
  pub reclaimed_keys : List StoredKey

abbrev pub record_clear : SrClear → RecordedClear
record_clear clear = record {
  row_id = clear.row_id;
  key = stored_key clear.key;
  fields = clear.fields;
}

-- `_serialize_removal_plan`
unfoldable pub serialize_removal_plan : SrRemovalPlan → RecordedRemoval
unfolding sorted_triples
serialize_removal_plan plan = record {
  authorized_removal_keys = map stored_key (sorted_triples plan.authorized);
  claimed_keys = map stored_key (sorted_triples plan.claimed);
  tombstone_ids = plan.tombstone_ids;
  candidate_clears = map record_clear plan.clears;
  reclaimed_keys = map stored_key plan.reclaimed;
}

-- `_certify_clears`
unfoldable pub all_has : List String → List String → Bool
unfolding has
all_has [] s = true
all_has (f ∷ rest) s = has f s && all_has rest s

abbrev pub describes : SrClear → Option RouteRow → Bool
describes clear none = false
describes clear (some row) =
    triple_eq clear.key (row_triple row)
    && all_has clear.fields (unset_fields row (authorized_clear_fields row.pending_clear))

unfoldable pub certify_clears : List RouteRow → List SrClear → Result (Unit {0})
unfolding by_id row_triple all_has unset_fields authorized_clear_fields
certify_clears rows [] = ok tt
certify_clears rows (clear ∷ rest) = do
  check (describes clear (by_id id_of rows clear.row_id)) value_error
  certify_clears rows rest

unfoldable pub hydrate_clears : List RecordedClear → Result (List SrClear)
unfolding sr_key
hydrate_clears [] = ok []
hydrate_clears (clear ∷ rest) = do
  key ← sr_key clear.key
  later ← hydrate_clears rest
  ok (record { row_id = clear.row_id; key = key; fields = clear.fields } ∷ later)

-- `tuple(_sr_key(key) for key in keys)`
unfoldable pub keys_in_order : List StoredKey → Result (List Triple)
unfolding sr_key
keys_in_order [] = ok []
keys_in_order (key ∷ rest) = do t ← sr_key key; later ← keys_in_order rest; ok (t ∷ later)

-- `hydrate_static_route_removal_plan`
unfoldable pub hydrate_removal_plan : RecordedRemoval → List RouteRow → Result SrRemovalPlan
unfolding hydrate_clears certify_clears hydrate_keys keys_in_order
hydrate_removal_plan plan rows = do
  clears ← hydrate_clears plan.candidate_clears
  _ ← certify_clears rows clears
  authorized ← hydrate_keys plan.authorized_removal_keys
  claimed ← hydrate_keys plan.claimed_keys
  reclaimed ← keys_in_order plan.reclaimed_keys
  ok record {
    authorized = authorized;
    claimed = claimed;
    tombstone_ids = plan.tombstone_ids;
    clears = clears;
    reclaimed = reclaimed;
  }
