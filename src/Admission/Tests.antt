-- ===== src/Admission/Tests.antt =====
-- A consumer that requires the next hops of every route, and one that requires the tags.
use nso_adapter.Prelude.{◌≡◌, ◌≢◌, refl, true, none, some, [], ◌∷◌}
use nso_adapter.Json.{Fields, text, array, object, nil, item, end, field, get, text_mem}
use nso_adapter.Results.{ok}
use nso_adapter.Coverage.{
  leaf_list, list_of, Collections, childless, collection, collection_names, decode_section,
}
use nso_adapter.Coverage.Presence.{is_marked}
use nso_adapter.ReadOutcome.{
  ReadOutcome, present, unavailable, absent_authoritative, fresh, not_covered,
  classify_envelope_section,
}
use nso_adapter.Admission.{CollectionPath, admit_coverage, validate_paths}
use nso_adapter.Admission.Parents.{EntryOf, Parent, root, under, Gap}
use nso_adapter.Admission.Parents
use nso_adapter.Admission.Served.{
  Among, present_content, served_content, admitted_parents_bear, refused_read_lacks_one,
  every_section_is_classified, admitted_collection_was_marked,
}
use nso_adapter.Admission.Served

abbrev manifest : Collections
manifest =
    collection "route"
      (list_of (item (text "prefix") nil) (collection "next-hop" leaf_list childless))
      (collection "tag" leaf_list childless)

abbrev route : Fields
route = field "prefix" (text "10.0.0.0/8") (field "next-hop" (array nil) end)

abbrev section : Fields
section = field "status" (text "ok") (field "route" (array (item (object route) nil)) end)

abbrev served : Fields
served = field "status" (text "ok") (
    field "marker" (array (item (text "route") nil)) (
      field "route"
        (array (
          item
            (object (
              field "prefix" (text "10.0.0.0/8")
                (field "marker" (array (item (text "next-hop") nil)) end)))
            nil))
        end))

abbrev next_hops : CollectionPath
next_hops = ("route", "next-hop" ∷ [])

abbrev routes : CollectionPath
routes = ("route", [])

abbrev tags : CollectionPath
tags = ("tag", [])

admits :
    admit_coverage manifest (next_hops ∷ []) (present section fresh [])
    ≡ ok (present section fresh [])
unfolding admit_coverage
admits = refl

refuses :
    admit_coverage manifest (next_hops ∷ tags ∷ []) (present section fresh [])
    ≡ ok (unavailable not_covered none)
unfolding admit_coverage
refuses = refl

declared : validate_paths manifest (next_hops ∷ tags ∷ []) ≡ ok (next_hops ∷ tags ∷ [])
unfolding validate_paths
declared = refl

reads : get "route" section ≡ some (array (item (object route) nil))
unfolding get
reads = refl

admitted_parents_bear_example : get "next-hop" route ≢ none
admitted_parents_bear_example =
    admitted_parents_bear manifest (next_hops ∷ []) (present section fresh []) {pre = "route" ∷ []}
      "next-hop" [] admits (Served.Among.first []) refl
      (under reads (Parents.EntryOf.first nil) root)

every_section_is_classified_example :
    (outcome : ReadOutcome) × (classify_envelope_section (some section) "r1" "routes" ≡ ok outcome)
    × (outcome ≢ absent_authoritative)
    × (present_content outcome ≡ served_content (some section))
every_section_is_classified_example = every_section_is_classified (some section) "r1" "routes"

decodes : decode_section "marker" manifest (object served) ≡ ok section
unfolding decode_section
decodes = refl

classifies : classify_envelope_section (some section) "r1" "routes" ≡ ok (present section fresh [])
unfolding classify_envelope_section
classifies = refl

admits_routes :
    admit_coverage manifest (routes ∷ []) (present section fresh []) ≡ ok (present section fresh [])
unfolding admit_coverage
admits_routes = refl

admitted_collection_was_marked_example : is_marked "marker" "route" served ≡ true
unfolding collection_names text_mem
admitted_collection_was_marked_example =
    admitted_collection_was_marked "marker" "route" "r1" "routes" manifest served (routes ∷ []) refl
      decodes classifies (Served.Among.first []) admits_routes
