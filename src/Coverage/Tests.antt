-- ===== src/Coverage/Tests.antt =====
-- A section with two collections of its own, one of them covered, and a nested one.
use nso_adapter.Prelude.{◌≡◌, refl, true, String}
use nso_adapter.Json.{Fields, text, number, array, object, nil, item, end, field, get, text_mem}
use nso_adapter.Results.{ok, raised, coverage_error}
use nso_adapter.Coverage.{
  leaf_list, list_of, Collections, childless, collection, collection_names, decode_section,
}
use nso_adapter.Coverage.Marker.{is_free, is_plain, marker_never_leaves}
use nso_adapter.Coverage.Presence.{is_marked, Follows, presence_is_coverage}

abbrev marker : String
marker = "covered-collections"

abbrev manifest : Collections
manifest =
    collection "route"
      (list_of (item (text "prefix") nil) (collection "next-hop" leaf_list childless))
      (collection "tag" leaf_list childless)

abbrev served : Fields
served = field "status" (text "ok") (
    field marker (array (item (text "route") nil)) (
      field "route"
        (array (
          item
            (object (
              field "prefix" (text "10.0.0.0/8")
                (field marker (array (item (text "next-hop") nil)) end)))
            nil))
        (field "tag" (array (item (number "7") nil)) end)))

abbrev decoded : Fields
decoded = field "status" (text "ok") (
    field "route"
      (array
        (item (object (field "prefix" (text "10.0.0.0/8") (field "next-hop" (array nil) end))) nil))
      end)

decodes : decode_section marker manifest (object served) ≡ ok decoded
unfolding decode_section
decodes = refl

repeated_name :
    decode_section marker manifest
      (object (field marker (array (item (text "tag") (item (text "tag") nil))) end))
    ≡ raised coverage_error
unfolding decode_section
repeated_name = refl

marker_never_leaves_example : is_free marker (object decoded) ≡ true
unfolding decode_section is_plain
marker_never_leaves_example = marker_never_leaves marker manifest (object served) refl decodes

presence_is_coverage_example : Follows (is_marked marker "tag" served) (get "tag" decoded)
unfolding collection_names text_mem
presence_is_coverage_example = presence_is_coverage marker "tag" manifest served refl decodes
