-- ===== src/Reclaim/Section.antt =====
-- The certified read of the service's static routes: service_instance_state of nso/client.py, and
-- core/static_route_reader.py. The response to the read is an argument.
use nso_adapter.Prelude.{
  String, Bool, true, false, not, Option, none, some, List, [], ◌∷◌, str_eq, if◌then◌else◌,
}
use nso_adapter.Json.{
  Value, Items, Fields, null, text, array, object, nil, item, end, field, get, has_key,
}
use nso_adapter.Results.{Result, ok, raised, http_status_error, uncertifiable, ◌>>◌, check}
use nso_adapter.DeletedRoutes.{Triple}

pub data Certainty : Type 0 where
  present absent inconclusive : Certainty

pub record ServiceInstanceState : Type 0 where
  pub status : Certainty
  pub entry : Option Fields

-- The response: status 404, another status that `raise_for_status` raises on, or a success with its
-- decoded body, if it has one.
pub data Response : Type 0 where
  not_found failed_status : Response
  success : Option Value → Response

abbrev pub unclear : ServiceInstanceState
unclear = record { status = inconclusive; entry = none }

abbrev is_device : String → Option Value → Bool
is_device name (some (text t)) = str_eq t name
is_device name _ = false

abbrev one_instance : String → Fields → ServiceInstanceState
one_instance name end = unclear
one_instance name (field k v rest) =
    if is_device name (get "device" (field k v rest))
    then record { status = present; entry = some (field k v rest) }
    else unclear

abbrev instance_of : String → Option Value → ServiceInstanceState
instance_of name (some (array (item (object entry) nil))) = one_instance name entry
instance_of name _ = unclear

-- `data.get(root)`, and the bare root where that is None.
abbrev under_root : Fields → Option Value → Option Value
under_root body none = get "device-intent" body
under_root body (some null) = get "device-intent" body
under_root body (some v) = some v

abbrev of_body : String → Option Value → ServiceInstanceState
of_body name (some (object body)) =
    instance_of name (under_root body (get "device-intent:device-intent" body))
of_body name _ = unclear

unfoldable pub service_instance_state : String → Response → Result ServiceInstanceState
unfolding get
service_instance_state name not_found = ok record { status = absent; entry = none }
service_instance_state name failed_status = raised http_status_error
service_instance_state name (success body) = ok (of_body name body)

-- `_certify_entry`
abbrev is_prefix : Option Value → Bool
is_prefix (some (text t)) = not (str_eq t "")
is_prefix _ = false

abbrev is_key_leaf : Option Value → Bool
is_key_leaf none = true
is_key_leaf (some null) = true
is_key_leaf (some (text _)) = true
is_key_leaf (some _) = false

unfoldable pub certify_entry : Value → Result (Unit {0})
unfolding get
certify_entry (object route) = do
  check (is_prefix (get "prefix" route)) uncertifiable
  check (is_key_leaf (get "vrf" route)) uncertifiable
  check (is_key_leaf (get "next-hop" route)) uncertifiable
certify_entry _ = raised uncertifiable

unfoldable pub certify_entries : Items → Result (Unit {0})
unfolding certify_entry
certify_entries nil = ok tt
certify_entries (item route rest) = do certify_entry route; certify_entries rest

-- `_project`
abbrev pub project_routes : Option Value → Result Items
project_routes none = ok nil
project_routes (some (array routes)) = do certify_entries routes; ok routes
project_routes (some _) = raised uncertifiable

abbrev pub project_section : Fields → Option Value → Result Items
project_section entry none = do check (not (has_key "route" entry)) uncertifiable; ok nil
project_section entry (some (object section)) = project_routes (get "route" section)
project_section entry (some _) = raised uncertifiable

unfoldable pub project : Option Fields → Result Items
unfolding get has_key certify_entries
project none = ok nil
project (some entry) = project_section entry (get "static-route" entry)

-- `entry` is the list under its only key, `route`.
pub record CertifiedSection : Type 0 where
  pub status : Certainty
  pub entry : Option Items
  pub instance_entry : Option Fields

abbrev pub certified_of : Option Fields → Result Items → CertifiedSection
certified_of entry (raised _) = record {
  status = inconclusive;
  entry = none;
  instance_entry = none;
}
certified_of entry (ok nil) = record { status = absent; entry = none; instance_entry = entry }
certified_of entry (ok (item route rest)) = record {
  status = present;
  entry = some (item route rest);
  instance_entry = entry;
}

abbrev pub certified_if : Certainty → Option Fields → CertifiedSection
certified_if inconclusive entry = record {
  status = inconclusive;
  entry = none;
  instance_entry = none;
}
certified_if _ entry = certified_of entry (project entry)

unfoldable pub certified_static_route_section : ServiceInstanceState → CertifiedSection
unfolding project
certified_static_route_section state = certified_if state.status state.entry

abbrev items_or_empty : Option Items → Items
items_or_empty none = nil
items_or_empty (some items) = items

-- `CertifiedSection.routes`
abbrev pub routes : CertifiedSection → Items
routes section = items_or_empty section.entry

-- `static_route_entry_key`, of an entry whose leaves are texts or absent.
abbrev pub leaf_or_empty : Option Value → String
leaf_or_empty (some (text t)) = t
leaf_or_empty _ = ""

abbrev pub static_route_entry_key : Fields → Triple
static_route_entry_key entry = (
  leaf_or_empty (get "vrf" entry),
  leaf_or_empty (get "prefix" entry),
  leaf_or_empty (get "next-hop" entry),
)

-- The keys of the objects of a list.
unfoldable pub live_keys : Items → List Triple
unfolding get
live_keys nil = []
live_keys (item (object entry) rest) = static_route_entry_key entry ∷ live_keys rest
live_keys (item _ rest) = live_keys rest
