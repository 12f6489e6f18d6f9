-- ===== src/Coverage/Manifest.antt =====
-- The manifest of nso/collection_coverage.py, written out and loaded again.
use nso_adapter.Prelude.{◌≡◌, refl, Bool, true, false, ◌&&◌, and-parts}
use nso_adapter.Json.{Value, Items, Fields, text, array, object, nil, item, end, field}
use nso_adapter.Results.{ok}
use nso_adapter.Coverage.{
  Body, leaf_list, list_of, Collections, childless, collection, load_collections, load_body,
}

-- The JSON text's objects that describe a tree of collections.
unfoldable mutual
  pub written : Collections → Fields
  written childless = end
  written (collection name body rest) = field name (written_body body) (written rest)

  pub written_body : Body → Value
  written_body leaf_list = object (field "kind" (text "leaf-list") end)
  written_body (list_of keys cs) = object (
      field "kind" (text "list")
        (field "keys" (array keys) (field "collections" (object (written cs)) end)))

abbrev some_key : Items → Bool
some_key nil = false
some_key (item _ _) = true

-- Each list has a key.
unfoldable mutual
  pub all_keyed : Collections → Bool
  all_keyed childless = true
  all_keyed (collection name body rest) = keyed_body body && all_keyed rest

  pub keyed_body : Body → Bool
  keyed_body leaf_list = true
  keyed_body (list_of keys cs) = some_key keys && all_keyed cs

mutual
  unfolding written all_keyed load_collections

  load_written : (cs : Collections) → all_keyed cs ≡ true → load_collections (written cs) ≡ ok cs
  load_written childless h = refl
  load_written (collection name body rest) h =
      let (here, later) = and-parts (keyed_body body) (all_keyed rest) h in
      rw (load_written_body body here, load_written rest later)

  load_written_body :
      (body : Body) → keyed_body body ≡ true → load_body (written_body body) ≡ ok body
  load_written_body leaf_list h = refl
  load_written_body (list_of nil cs) h = cc h
  load_written_body (list_of (item k rest) cs) h = rw (load_written cs h)

-- A tree of collections, each list of which has a key, is what the loader makes of its own
-- description.
pub loads_what_is_written :
    (cs : Collections) → all_keyed cs ≡ true → load_collections (written cs) ≡ ok cs
loads_what_is_written cs h = load_written cs h
