-- ===== src/Coverage.antt =====
-- nso/collection_coverage.py: the manifest of collections, and the decoder of the
-- `covered-collections` marker. The marker's name and the families are what `load_manifest` returns.

pub mod Marker
pub mod Presence
pub mod Manifest
mod Tests
use nso_adapter.Prelude.{
  String, Bool, true, false, not, ◌&&◌, ◌||◌, Option, none, some, List, [], ◌∷◌, str_eq,
  if◌then◌else◌,
}
use nso_adapter.Json.{
  Value, Items, Fields, null, text, array, object, nil, item, end, field, get, has_key, pop, put,
  text_mem, all_distinct, all_in, has_keys,
}
use nso_adapter.Results.{Result, ok, raised, coverage_error, ◌>>=◌, ◌>>◌, check}

-- The collections that one parent bears, each a leaf-list or a list with its keys and children.
mutual
  pub data Body : Type 0 where
    leaf_list : Body
    list_of : Items → Collections → Body

  pub data Collections : Type 0 where
    childless : Collections
    collection : String → Body → Collections → Collections

-- `_load_collections`. A body that is no object, or of another kind, is refused.
abbrev pub text_of : Option Value → Option String
text_of (some (text t)) = some t
text_of _ = none

abbrev pub is_text : String → Option Value → Bool
is_text t (some (text u)) = str_eq t u
is_text t _ = false

-- `keys` is a list that is not empty.
abbrev pub keys_items : Option Value → Result Items
keys_items (some (array (item k rest))) = ok (item k rest)
keys_items _ = raised coverage_error

abbrev pub list_body : Fields → Result Collections → Result Body
list_body body children = do
  check (has_keys ("kind" ∷ "keys" ∷ "collections" ∷ []) body) coverage_error
  keys ← keys_items (get "keys" body)
  cs ← children
  ok (list_of keys cs)

abbrev pub leaf_list_body : Fields → Result Body
leaf_list_body body = do check (has_keys ("kind" ∷ []) body) coverage_error; ok leaf_list

-- `load_children` is the call of `_load_collections` on `body["collections"]`.
unfoldable mutual
  unfolding get has_keys

  pub load_collections : Fields → Result Collections
  load_collections end = ok childless
  load_collections (field name body rest) = do
    loaded ← load_body body
    later ← load_collections rest
    ok (collection name loaded later)

  pub load_body : Value → Result Body
  load_body (object body) =
      let children = load_children body in
      if is_text "leaf-list" (get "kind" body)
      then leaf_list_body body
      else if is_text "list" (get "kind" body)
      then list_body body children
      else raised coverage_error
  load_body _ = raised coverage_error

  pub load_children : Fields → Result Collections
  load_children end = raised coverage_error
  load_children (field name value rest) =
      let here = load_object value in
      let later = load_children rest in if str_eq name "collections" then here else later

  pub load_object : Value → Result Collections
  load_object (object cs) = load_collections cs
  load_object _ = raised coverage_error

-- The members of the marker, if each is a name.
unfoldable pub names_of : Items → Option (List String)
names_of nil = some []
names_of (item (text name) rest) = elim (names_of rest) [
  | none ↦ none
  | some names ↦ some (name ∷ names)
]
names_of (item _ rest) = none

unfoldable pub collection_names : Collections → List String
collection_names childless = []
collection_names (collection name body rest) = name ∷ collection_names rest

-- `_covered`
abbrev pub marker_names : Option (List String) → Collections → Result (List String)
marker_names none cs = raised coverage_error
marker_names (some names) cs = do
  check (all_distinct names) coverage_error
  check (all_in names (collection_names cs)) coverage_error
  ok names

abbrev pub is_childless : Collections → Bool
is_childless childless = true
is_childless (collection _ _ _) = false

abbrev pub marker_value : Value → Collections → Result (List String)
marker_value (array items) cs = marker_names (names_of items) cs
marker_value _ cs = raised coverage_error

abbrev pub marker_field : Option Value → Collections → Result (List String)
marker_field none cs = ok []
marker_field (some value) cs = do
  check (not (is_childless cs)) coverage_error
  marker_value value cs

unfoldable pub covered : String → Fields → Collections → Result (List String)
unfolding get names_of collection_names all_distinct all_in
covered marker node cs = marker_field (get marker node) cs

-- `_refuse_marker` raises exactly if some object in the value holds the marker.
unfoldable mutual
  unfolding has_key

  pub refuses_marker : String → Value → Bool
  refuses_marker marker (object node) = has_key marker node || refuses_in_fields marker node
  refuses_marker marker (array items) = refuses_in_items marker items
  refuses_marker marker _ = false

  pub refuses_in_fields : String → Fields → Bool
  refuses_in_fields marker end = false
  refuses_in_fields marker (field k v rest) =
      refuses_marker marker v || refuses_in_fields marker rest

  pub refuses_in_items : String → Items → Bool
  refuses_in_items marker nil = false
  refuses_in_items marker (item v rest) = refuses_marker marker v || refuses_in_items marker rest

-- The loop of `_decode_parent` over the values that no collection holds.
unfoldable pub refuses_outside : String → List String → Fields → Bool
unfolding refuses_marker text_mem
refuses_outside marker names end = false
refuses_outside marker names (field k v rest) =
    (not (text_mem k names) && refuses_marker marker v) || refuses_outside marker names rest

abbrev pub is_scalar : Value → Bool
is_scalar null = false
is_scalar (array _) = false
is_scalar (object _) = false
is_scalar _ = true

unfoldable pub all_scalar : Items → Bool
all_scalar nil = true
all_scalar (item v rest) = is_scalar v && all_scalar rest

-- `_decode_entry` of each entry, by the decoder of a parent.
abbrev decode_entry : (Fields → Result Fields) → Value → Result Fields
decode_entry decode (object entry) = decode entry
decode_entry decode _ = raised coverage_error

unfoldable pub decode_entries : (Fields → Result Fields) → Items → Result Items
decode_entries decode nil = ok nil
decode_entries decode (item v rest) = do
  entry ← decode_entry decode v
  later ← decode_entries decode rest
  ok (item (object entry) later)

-- `node.get(name, [])`, which must be a list.
abbrev pub served_items : Option Value → Result Items
served_items none = ok nil
served_items (some (array items)) = ok items
served_items (some _) = raised coverage_error

-- `_decode_parent`, given its loop over the collections.
abbrev pub decode_by :
    String → Collections → (Fields → List String → Fields → Result Fields) → Fields → Result Fields
decode_by marker cs loop node = do
  names ← covered marker node cs
  check (not (refuses_outside marker (collection_names cs) (pop marker node))) coverage_error
  loop node names (pop marker node)

abbrev pub leaf_values : Items → Result Items
leaf_values items = do check (all_scalar items) coverage_error; ok items

abbrev pub keep_collection :
    Result Items → (Items → Result Items) → (Items → Result Fields) → Result Fields
keep_collection served decode continue = do items ← served; decoded ← decode items; continue decoded

unfoldable mutual
  unfolding covered refuses_outside collection_names pop put get text_mem all_scalar decode_entries

  pub decode_loop : String → Collections → Fields → List String → Fields → Result Fields
  decode_loop marker childless node names out = ok out
  decode_loop marker (collection name body rest) node names out =
      let skipped = decode_loop marker rest node names (pop name out) in
      let kept =
        keep_collection (served_items (get name node)) (decode_body marker body)
          (λ decoded. decode_loop marker rest node names (put name (array decoded) out)) in
      if text_mem name names then kept else skipped

  pub decode_body : String → Body → Items → Result Items
  decode_body marker leaf_list items = leaf_values items
  decode_body marker (list_of keys cs) items =
      decode_entries (decode_by marker cs (decode_loop marker cs)) items

unfoldable pub decode_parent : String → Collections → Fields → Result Fields
unfolding decode_loop
decode_parent marker cs node = decode_by marker cs (decode_loop marker cs) node

-- `decode_section` of a family that the manifest has.
unfoldable pub decode_section : String → Collections → Value → Result Fields
unfolding decode_parent
decode_section marker cs (object node) = decode_parent marker cs node
decode_section marker cs _ = raised coverage_error
