-- ===== src/RoutePlan/Neutral.antt =====
-- The renderer of nso/apply.py and the two readings of a clear field in core/static_route_plan.py.
use nso_adapter.Prelude.{
  ◌≡◌, refl, sym, ◌∙◌, ap, subst, String, Bool, true, false, not, ◌||◌, Option, none, some, List,
  [], ◌∷◌, str_eq, if◌then◌else◌, inl, inr, Bool-cases, eq_iff, ℕ, arith,
}
use nso_adapter.Json.{Value, Fields, boolean, natural, text, get, put, end, field, text_mem}
use nso_adapter.Json.Laws.{get-put}
use nso_adapter.RoutePlan.{
  RouteRow, sr_clear_fields, field_value, wire_set, leaf_is_neutral, reads_empty, reads_false,
  put_text, put_count, put_flag, static_route_entry, neutral_leaf, text_value, count_value,
  flag_value,
}

module _ (k leaf : String) (apart : str_eq leaf k ≡ false) where
  past_put : (v : Value) (e : Fields) → get k (put leaf v e) ≡ get k e
  past_put v e = get-put k leaf v e ∙ ap (λ b. if b then some v else get k e) apart

  past_text : (o : Option String) (e : Fields) → get k (put_text leaf o e) ≡ get k e
  past_text none e = refl
  past_text (some t) e = elim (Bool-cases (str_eq t "")) [
    | inl h ↦ ap (λ b. get k (if b then e else put leaf (text t) e)) h
    | inr h ↦ ap (λ b. get k (if b then e else put leaf (text t) e)) h ∙ past_put (text t) e
  ]

  past_count : (o : Option ℕ) (e : Fields) → get k (put_count leaf o e) ≡ get k e
  past_count none e = refl
  past_count (some n) e = past_put (natural n) e

  past_flag : (o : Option Bool) (e : Fields) → get k (put_flag leaf o e) ≡ get k e
  past_flag none e = refl
  past_flag (some false) e = refl
  past_flag (some true) e = past_put (boolean true) e

member_cases :
    (P : String → Type 0) (f a : String) (rest : List String)
    → text_mem f (a ∷ rest) ≡ true
    → P a
    → (text_mem f rest ≡ true → P f)
    → P f
unfolding text_mem
member_cases P f a rest h here later = elim (Bool-cases (str_eq a f)) [
  | inl e ↦ subst P ((eq_iff a f).0 e) here
  | inr e ↦ later (ap (λ b. b || text_mem f rest) (sym e) ∙ h)
]

-- What the renderer writes for a clear field, at its leaf.
abbrev text_leaf : Option String → Option Value
text_leaf none = none
text_leaf (some t) = if str_eq t "" then none else some (text t)

abbrev count_leaf : Option ℕ → Option Value
count_leaf none = none
count_leaf (some n) = some (natural n)

abbrev flag_leaf : Option Bool → Option Value
flag_leaf (some true) = some (boolean true)
flag_leaf _ = none

-- The entry's keys, which are written before the optional leaves.
abbrev base : RouteRow → Fields
base row =
    field "vrf" (text row.vrf)
      (field "prefix" (text row.prefix) (field "next-hop" (text row.next_hop) end))

module _ (k : String) (own : str_eq k k ≡ true) where
  at_put : (v : Value) (e : Fields) → get k (put k v e) ≡ some v
  at_put v e = get-put k k v e ∙ ap (λ b. if b then some v else get k e) own

  own_text :
      (o : Option String) (e : Fields) → get k e ≡ none → get k (put_text k o e) ≡ text_leaf o
  own_text none e h = h
  own_text (some t) e h = elim (Bool-cases (str_eq t "")) [
    | inl q ↦
        ap (λ b. get k (if b then e else put k (text t) e)) q
        ∙ h
        ∙ sym (ap (λ b. if b then none else some (text t)) q)
    | inr q ↦
        ap (λ b. get k (if b then e else put k (text t) e)) q
        ∙ at_put (text t) e
        ∙ sym (ap (λ b. if b then none else some (text t)) q)
  ]

  own_count : (o : Option ℕ) (e : Fields) → get k e ≡ none → get k (put_count k o e) ≡ count_leaf o
  own_count none e h = h
  own_count (some n) e h = at_put (natural n) e

  own_flag : (o : Option Bool) (e : Fields) → get k e ≡ none → get k (put_flag k o e) ≡ flag_leaf o
  own_flag none e h = h
  own_flag (some false) e h = h
  own_flag (some true) e h = at_put (boolean true) e

hop_leaf :
    (row : RouteRow)
    → get "interface-next-hop" (static_route_entry row) ≡ text_leaf row.interface_next_hop
unfolding static_route_entry get
hop_leaf row =
    let k : String = "interface-next-hop" in
    past_count k "tag" refl row.tag _
    ∙ past_flag k "permanent" refl row.permanent _
    ∙ past_count k "metric" refl row.metric _
    ∙ past_text k "next-hop-vrf" refl row.next_hop_vrf _
    ∙ own_text k refl row.interface_next_hop (base row) refl

leaked_leaf :
    (row : RouteRow) → get "next-hop-vrf" (static_route_entry row) ≡ text_leaf row.next_hop_vrf
unfolding static_route_entry get
leaked_leaf row =
    let k : String = "next-hop-vrf" in
    past_count k "tag" refl row.tag _
    ∙ past_flag k "permanent" refl row.permanent _
    ∙ past_count k "metric" refl row.metric _
    ∙ own_text k refl row.next_hop_vrf _
        (past_text k "interface-next-hop" refl row.interface_next_hop (base row))

metric_leaf : (row : RouteRow) → get "metric" (static_route_entry row) ≡ count_leaf row.metric
unfolding static_route_entry get
metric_leaf row =
    let k : String = "metric" in
    past_count k "tag" refl row.tag _
    ∙ past_flag k "permanent" refl row.permanent _
    ∙ own_count k refl row.metric _ (
        past_text k "next-hop-vrf" refl row.next_hop_vrf _
        ∙ past_text k "interface-next-hop" refl row.interface_next_hop (base row))

permanent_leaf :
    (row : RouteRow) → get "permanent" (static_route_entry row) ≡ flag_leaf row.permanent
unfolding static_route_entry get
permanent_leaf row =
    let k : String = "permanent" in
    past_count k "tag" refl row.tag _
    ∙ own_flag k refl row.permanent _ (
        past_count k "metric" refl row.metric _
        ∙ past_text k "next-hop-vrf" refl row.next_hop_vrf _
        ∙ past_text k "interface-next-hop" refl row.interface_next_hop (base row))

tag_leaf : (row : RouteRow) → get "tag" (static_route_entry row) ≡ count_leaf row.tag
unfolding static_route_entry get
tag_leaf row =
    let k : String = "tag" in
    own_count k refl row.tag _ (
      past_flag k "permanent" refl row.permanent _
      ∙ past_count k "metric" refl row.metric _
      ∙ past_text k "next-hop-vrf" refl row.next_hop_vrf _
      ∙ past_text k "interface-next-hop" refl row.interface_next_hop (base row))

-- The field's leaf in the entry of a row is neutral exactly if the row's column is not set.
abbrev Agrees : RouteRow → String → Type 0
Agrees row f =
    leaf_is_neutral f (static_route_entry row) ≡ some (not (wire_set f (field_value f row)))

hop_column :
    (o : Option String)
    → neutral_leaf "interface_next_hop" (text_leaf o)
      ≡ not (wire_set "interface_next_hop" (text_value o))
unfolding wire_set reads_false reads_empty
hop_column none = refl
hop_column (some t) = ground arith

leaked_column :
    (o : Option String)
    → neutral_leaf "next_hop_vrf" (text_leaf o) ≡ not (wire_set "next_hop_vrf" (text_value o))
unfolding wire_set reads_false reads_empty
leaked_column none = refl
leaked_column (some t) = ground arith

metric_column :
    (o : Option ℕ) → neutral_leaf "metric" (count_leaf o) ≡ not (wire_set "metric" (count_value o))
unfolding wire_set reads_false reads_empty
metric_column none = refl
metric_column (some n) = refl

permanent_column :
    (o : Option Bool)
    → neutral_leaf "permanent" (flag_leaf o) ≡ not (wire_set "permanent" (flag_value o))
unfolding wire_set reads_false reads_empty
permanent_column none = refl
permanent_column (some true) = refl
permanent_column (some false) = refl

tag_column :
    (o : Option ℕ) → neutral_leaf "tag" (count_leaf o) ≡ not (wire_set "tag" (count_value o))
unfolding wire_set reads_false reads_empty
tag_column none = refl
tag_column (some n) = refl

hop_lem : (row : RouteRow) → Agrees row "interface_next_hop"
unfolding leaf_is_neutral field_value
hop_lem row =
    ap (λ v. some (neutral_leaf "interface_next_hop" v)) (hop_leaf row)
    ∙ ap some (hop_column row.interface_next_hop)

leaked_lem : (row : RouteRow) → Agrees row "next_hop_vrf"
unfolding leaf_is_neutral field_value
leaked_lem row =
    ap (λ v. some (neutral_leaf "next_hop_vrf" v)) (leaked_leaf row)
    ∙ ap some (leaked_column row.next_hop_vrf)

metric_lem : (row : RouteRow) → Agrees row "metric"
unfolding leaf_is_neutral field_value
metric_lem row =
    ap (λ v. some (neutral_leaf "metric" v)) (metric_leaf row) ∙ ap some (metric_column row.metric)

permanent_lem : (row : RouteRow) → Agrees row "permanent"
unfolding leaf_is_neutral field_value
permanent_lem row =
    ap (λ v. some (neutral_leaf "permanent" v)) (permanent_leaf row)
    ∙ ap some (permanent_column row.permanent)

tag_lem : (row : RouteRow) → Agrees row "tag"
unfolding leaf_is_neutral field_value
tag_lem row = ap (λ v. some (neutral_leaf "tag" v)) (tag_leaf row) ∙ ap some (tag_column row.tag)

not_among : (row : RouteRow) (f : String) → text_mem f [] ≡ true → Agrees row f
unfolding text_mem
not_among row f h = cc h

-- For each field that can be cleared, the entry that is rendered for a row proves the field gone
-- exactly if the row's value does not count as set: both readings are those of the renderer.
pub neutral_iff_unset :
    (row : RouteRow) (f : String)
    → text_mem f sr_clear_fields ≡ true
    → leaf_is_neutral f (static_route_entry row) ≡ some (not (wire_set f (field_value f row)))
neutral_iff_unset row f h = member_cases (Agrees row) f _ _ h (hop_lem row) λ h1.
    member_cases (Agrees row) f _ _ h1 (leaked_lem row) λ h2.
      member_cases (Agrees row) f _ _ h2 (metric_lem row) λ h3.
        member_cases (Agrees row) f _ _ h3 (permanent_lem row)
          λ h4. member_cases (Agrees row) f _ _ h4 (tag_lem row) (not_among row f)
