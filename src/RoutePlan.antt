-- ===== src/RoutePlan.antt =====
-- The rows of static routes and what is read off one of them: core/static_route_plan.py up to its
-- plans, and the renderer `static_route_entry` of nso/apply.py.
pub mod Neutral
pub mod Sample
mod Tests
use nso_adapter.Prelude.{
  ℕ, suc, String, Bool, true, false, not, ◌&&◌, ◌||◌, Option, none, some, is_some, List, [], ◌∷◌,
  ◌==◌, str_eq, if◌then◌else◌, map,
}
use nso_adapter.Json.{
  Value, Fields, null, boolean, natural, number, text, array, object, end, field, get, put,
}
use nso_adapter.Results.{Result, ok, raised, value_error, ◌>>=◌, ◌>>◌}
use nso_adapter.Text.{codes, strip, lower, text_eq}
use nso_adapter.DeletedRoutes.{Triple, or_empty, triple_eq}
use nso_adapter.PendingClear.{Carrier, authorized_clear_fields, sorted_texts}

-- `SR_CLEAR_FIELDS`
abbrev pub sr_clear_fields : List String
sr_clear_fields = "interface_next_hop" ∷ "next_hop_vrf" ∷ "metric" ∷ "permanent" ∷ "tag" ∷ []

-- A stored `deployed_key`: None, or a JSON array.
abbrev pub DeployedKey : Type 0
DeployedKey = Option (List (Option String))

-- What the plans read of a `StaticRouteIntent` row. Its vrf, prefix and next hop are not null.
pub record RouteRow : Type 0 where
  pub id : ℕ
  pub route_id : Option ℕ
  pub deployed_key : DeployedKey
  pub pending_clear : Option Carrier
  pub vrf : String
  pub prefix : String
  pub next_hop : String
  pub interface_next_hop : Option String
  pub next_hop_vrf : Option String
  pub metric : Option ℕ
  pub permanent : Option Bool
  pub tag : Option ℕ
  pub name : Option String
  pub accepted_at : Option ℕ

pub data Marking : Type 0 where
  delete_origin detach : Marking

-- A `StaticRouteTombstone` row.
pub record Tombstone : Type 0 where
  pub id : ℕ
  pub vrf : String
  pub prefix : String
  pub next_hop : String
  pub deployed_key : DeployedKey
  pub marking : Marking
  pub job_id : Option ℕ

unfoldable pub row_triple : RouteRow → Triple
row_triple row = (row.vrf, row.prefix, row.next_hop)

unfoldable pub tombstone_triple : Tombstone → Triple
tombstone_triple row = (row.vrf, row.prefix, row.next_hop)

-- `as_triple`: a key of another length than three does not unpack.
unfoldable pub as_triple : DeployedKey → Result (Option Triple)
as_triple none = ok none
as_triple (some []) = ok none
as_triple (some (vrf ∷ prefix ∷ next_hop ∷ [])) =
    ok (some (or_empty vrf, or_empty prefix, or_empty next_hop))
as_triple (some (_ ∷ _)) = raised value_error

unfoldable pub null_route_id_count : List RouteRow → ℕ
null_route_id_count [] = 0
null_route_id_count (row ∷ rest) =
    let later = null_route_id_count rest in if is_some row.route_id then later else suc later

unfoldable pub fence_open : List RouteRow → Bool
unfolding null_route_id_count
fence_open rows = null_route_id_count rows == 0

-- The deployed triple, where it is another than the one that the row renders.
abbrev pub other_than : Triple → Option Triple → Option Triple
other_than current none = none
other_than current (some deployed) = if triple_eq deployed current then none else some deployed

unfoldable pub predecessor : RouteRow → Result (Option Triple)
unfolding as_triple row_triple
predecessor row = do
  deployed ← as_triple row.deployed_key
  ok (other_than (row_triple row) deployed)

unfoldable pub replacement_open : RouteRow → Result Bool
unfolding predecessor
replacement_open row = do deployed ← predecessor row; ok (is_some deployed)

-- A column's value, as `getattr(row, field, None)` reads it. The carrier never names the columns
-- that are left out here.
pub data FieldValue : Type 0 where
  absent : FieldValue
  of_text : String → FieldValue
  of_count : ℕ → FieldValue
  of_flag : Bool → FieldValue

abbrev pub text_value : Option String → FieldValue
text_value none = absent
text_value (some t) = of_text t

abbrev pub count_value : Option ℕ → FieldValue
count_value none = absent
count_value (some n) = of_count n

abbrev pub flag_value : Option Bool → FieldValue
flag_value none = absent
flag_value (some b) = of_flag b

unfoldable pub field_value : String → RouteRow → FieldValue
field_value f row =
    if str_eq f "interface_next_hop"
    then text_value row.interface_next_hop
    else if str_eq f "next_hop_vrf"
    then text_value row.next_hop_vrf
    else if str_eq f "metric"
    then count_value row.metric
    else if str_eq f "permanent"
    then flag_value row.permanent
    else if str_eq f "tag"
    then count_value row.tag
    else if str_eq f "name"
    then text_value row.name
    else if str_eq f "vrf"
    then of_text row.vrf
    else if str_eq f "prefix"
    then of_text row.prefix
    else if str_eq f "next_hop"
    then of_text row.next_hop
    else absent

-- `bool(value)`
abbrev pub truth : FieldValue → Bool
truth absent = false
truth (of_text t) = not (str_eq t "")
truth (of_count n) = not (n == 0)
truth (of_flag b) = b

abbrev pub is_absent : FieldValue → Bool
is_absent absent = true
is_absent _ = false

unfoldable pub wire_set : String → FieldValue → Bool
wire_set f value =
    if str_eq f "metric" || str_eq f "tag" then not (is_absent value) else truth value

unfoldable pub sr_is_cleared : String → FieldValue → FieldValue → Bool
unfolding wire_set
sr_is_cleared f before after = wire_set f before && not (wire_set f after)

unfoldable pub clears_suppressed : Bool → Bool → Bool
clears_suppressed detaches retract_deferred = detaches || retract_deferred

-- The fields of the list whose column the renderer leaves out.
unfoldable pub unset_fields : RouteRow → List String → List String
unfolding wire_set field_value
unset_fields row [] = []
unset_fields row (f ∷ rest) =
    let later = unset_fields row rest in if wire_set f (field_value f row) then later else f ∷ later

abbrev pub unless_open : Bool → List String → List String
unless_open true fields = []
unless_open false fields = fields

-- `candidate_clear_fields`: a row without authorized clears does not look at its deployed key.
abbrev pub candidates : RouteRow → List String → Result (List String)
candidates row [] = ok []
candidates row (f ∷ rest) = do
  waits ← replacement_open row
  ok (unless_open waits (sorted_texts (unset_fields row (f ∷ rest))))

unfoldable pub candidate_clear_fields : RouteRow → Result (List String)
unfolding authorized_clear_fields replacement_open unset_fields sorted_texts
candidate_clear_fields row = candidates row (authorized_clear_fields row.pending_clear)

-- `CLEAR_WIRE_LEAF`
unfoldable pub clear_wire_leaf : String → Option String
clear_wire_leaf f =
    if str_eq f "interface_next_hop"
    then some "interface-next-hop"
    else if str_eq f "next_hop_vrf"
    then some "next-hop-vrf"
    else if str_eq f "metric"
    then some "metric"
    else if str_eq f "permanent"
    then some "permanent"
    else if str_eq f "tag"
    then some "tag"
    else none

-- `value is False or str(value).strip().lower() == "false"`
unfoldable pub reads_false : Value → Bool
unfolding text_eq strip lower
reads_false (boolean b) = not b
reads_false (text t) = text_eq (map lower (strip (codes t))) (codes "false")
reads_false _ = false

-- `str(value) == ""`
unfoldable pub reads_empty : Value → Bool
reads_empty (text t) = str_eq t ""
reads_empty _ = false

abbrev neutral_value : String → Value → Bool
neutral_value f null = true
neutral_value f value =
    if str_eq f "permanent"
    then reads_false value
    else if str_eq f "interface_next_hop" || str_eq f "next_hop_vrf"
    then reads_empty value
    else false

abbrev pub neutral_leaf : String → Option Value → Bool
neutral_leaf f none = true
neutral_leaf f (some value) = neutral_value f value

-- `leaf_is_neutral`; none where the field has no leaf (KeyError).
abbrev pub neutral_at : String → Fields → Option String → Option Bool
neutral_at f entry none = none
neutral_at f entry (some leaf) = some (neutral_leaf f (get leaf entry))

unfoldable pub leaf_is_neutral : String → Fields → Option Bool
unfolding clear_wire_leaf reads_false reads_empty get
leaf_is_neutral f entry = neutral_at f entry (clear_wire_leaf f)

-- `static_route_entry` of nso/apply.py
abbrev pub put_text : String → Option String → Fields → Fields
put_text leaf none entry = entry
put_text leaf (some t) entry = if str_eq t "" then entry else put leaf (text t) entry

abbrev pub put_count : String → Option ℕ → Fields → Fields
put_count leaf none entry = entry
put_count leaf (some n) entry = put leaf (natural n) entry

abbrev pub put_flag : String → Option Bool → Fields → Fields
put_flag leaf (some true) entry = put leaf (boolean true) entry
put_flag leaf _ entry = entry

unfoldable pub static_route_entry : RouteRow → Fields
unfolding put
static_route_entry row =
    let keys =
      field "vrf" (text row.vrf)
        (field "prefix" (text row.prefix) (field "next-hop" (text row.next_hop) end)) in
    let hop = put_text "interface-next-hop" row.interface_next_hop keys in
    let leaked = put_text "next-hop-vrf" row.next_hop_vrf hop in
    let metric = put_count "metric" row.metric leaked in
    let permanent = put_flag "permanent" row.permanent metric in put_count "tag" row.tag permanent
