-- ===== src/Admission.antt =====
-- The consumer's side of nso/collection_coverage.py: the paths of a family's collections, and
-- `admit_coverage`. A path is the list of its names, its first name apart.
pub mod Parents
pub mod Served
mod Tests
use nso_adapter.Prelude.{
  String, Bool, true, false, not, ◌&&◌, ◌||◌, Option, none, some, List, [], ◌∷◌, ◌++◌, map, str_eq,
  if◌then◌else◌,
}
use nso_adapter.Json.{
  Value, Items, Fields, null, text, array, object, nil, item, end, field, get, put, text_mem,
}
use nso_adapter.Results.{Result, ok, raised, value_error, coverage_error, ◌>>=◌, ◌>>◌, check}
use nso_adapter.Coverage.{
  Body, leaf_list, list_of, Collections, childless, collection, decode_section,
}
use nso_adapter.ReadOutcome.{
  ReadOutcome, present, absent_authoritative, unavailable, not_covered, make_unavailable,
}

pub data Kind : Type 0 where
  a_list a_leaf_list : Kind

abbrev pub CollectionPath : Type 0
CollectionPath = String × List String

-- `collection_paths`
abbrev prefixed : String → List (CollectionPath × Kind) → List (CollectionPath × Kind)
prefixed name paths = map (λ p. ((name, p.0.0 ∷ p.0.1), p.1)) paths

unfoldable mutual
  pub collection_paths : Collections → List (CollectionPath × Kind)
  collection_paths childless = []
  collection_paths (collection name body rest) = paths_from name body ++ collection_paths rest

  pub paths_from : String → Body → List (CollectionPath × Kind)
  paths_from name leaf_list = ((name, []), a_leaf_list) ∷ []
  paths_from name (list_of keys cs) = ((name, []), a_list) ∷ prefixed name (collection_paths cs)

abbrev names_eq : List String → List String → Bool
names_eq [] [] = true
names_eq (a ∷ s) (b ∷ t) = str_eq a b && names_eq s t
names_eq _ _ = false

unfoldable pub is_path : CollectionPath → List (CollectionPath × Kind) → Bool
is_path p [] = false
is_path p ((q, kind) ∷ rest) = (str_eq q.0 p.0 && names_eq q.1 p.1) || is_path p rest

-- `validate_paths`: the paths as they were given, if there are any and each is a collection's.
unfoldable pub all_paths : List CollectionPath → List (CollectionPath × Kind) → Bool
unfolding is_path
all_paths [] known = true
all_paths (p ∷ rest) known = is_path p known && all_paths rest known

abbrev is_declared : List CollectionPath → Bool
is_declared [] = false
is_declared (_ ∷ _) = true

unfoldable pub validate_paths : Collections → List CollectionPath → Result (List CollectionPath)
unfolding collection_paths all_paths
validate_paths cs paths = do
  check (is_declared paths && all_paths paths (collection_paths cs)) value_error
  ok paths

-- `empty_section`
unfoldable pub empty_section : Collections → Fields
unfolding put
empty_section childless = end
empty_section (collection name body rest) = field name (array nil) (empty_section rest)

-- `decode_sections`: a section that breaks the contract becomes None.
abbrev section_or_null : Result Fields → Value
section_or_null (ok section) = object section
section_or_null (raised e) = null

-- `decode_section` of a family that the manifest may lack.
abbrev decode_in : String → Option Collections → Fields → Result Fields
decode_in marker none node = raised coverage_error
decode_in marker (some cs) node = decode_section marker cs (object node)

unfoldable pub find_family : String → List (String × Collections) → Option Collections
find_family name [] = none
find_family name ((family, cs) ∷ rest) =
    let later = find_family name rest in if str_eq family name then some cs else later

abbrev decode_served : String → Option Collections → String → Option Value → Fields → Fields
decode_served marker cs family (some (object node)) out =
    put family (section_or_null (decode_in marker cs node)) out
decode_served marker cs family _ out = out

unfoldable pub decode_sections :
    String → List (String × Collections) → List String → Fields → Fields
unfolding get put decode_section find_family
decode_sections marker families [] out = out
decode_sections marker families (family ∷ rest) out =
    decode_sections marker families rest
      (decode_served marker (find_family family families) family (get family out) out)

-- `_path_covered` of the path `head/rest`, a path being the list of its names.
unfoldable pub all_objects : Items → Bool
all_objects nil = true
all_objects (item (object _) rest) = all_objects rest
all_objects (item _ rest) = false

abbrev pub entry_covered : (Fields → Result Bool) → Value → Result Bool
entry_covered covered (object entry) = covered entry
entry_covered covered _ = raised coverage_error

-- `all(…)` over the entries, which stops at the first false.
abbrev pub then_all : Bool → Result Bool → Result Bool
then_all true later = later
then_all false later = ok false

unfoldable pub every_entry : (Fields → Result Bool) → Items → Result Bool
every_entry covered nil = ok true
every_entry covered (item v rest) = do
  here ← entry_covered covered v
  then_all here (every_entry covered rest)

abbrev pub covered_below : (Fields → Result Bool) → Option Value → Result Bool
covered_below covered none = ok false
covered_below covered (some (array entries)) = do
  check (all_objects entries) coverage_error
  every_entry covered entries
covered_below covered (some _) = raised coverage_error

abbrev pub covered_leaf : Option Value → Result Bool
covered_leaf none = ok false
covered_leaf (some (array entries)) = ok true
covered_leaf (some _) = raised coverage_error

unfoldable pub path_covered : String → List String → Fields → Result Bool
unfolding get all_objects every_entry
path_covered head [] node = covered_leaf (get head node)
path_covered head (name ∷ rest) node = covered_below (path_covered name rest) (get head node)

-- `uncovered_paths`
abbrev pub unless_covered : Bool → CollectionPath → List CollectionPath → List CollectionPath
unless_covered true p rest = rest
unless_covered false p rest = p ∷ rest

unfoldable pub uncovered_paths :
    Collections → Fields → List CollectionPath → Result (List CollectionPath)
unfolding is_path path_covered collection_paths
uncovered_paths cs content [] = ok []
uncovered_paths cs content (p ∷ rest) = do
  check (is_path p (collection_paths cs)) value_error
  here ← path_covered p.0 p.1 content
  later ← uncovered_paths cs content rest
  ok (unless_covered here p later)

-- `admit_coverage`
abbrev admitted : ReadOutcome → List CollectionPath → Result ReadOutcome
admitted outcome [] = ok outcome
admitted outcome (_ ∷ _) = make_unavailable not_covered none

unfoldable pub admit_coverage : Collections → List CollectionPath → ReadOutcome → Result ReadOutcome
unfolding uncovered_paths make_unavailable
admit_coverage cs requires (present content freshness failures) = do
  missing ← uncovered_paths cs content requires
  admitted (present content freshness failures) missing
admit_coverage cs requires outcome = ok outcome
