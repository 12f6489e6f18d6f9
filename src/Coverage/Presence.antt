-- ===== src/Coverage/Presence.antt =====
-- In a section that nso/collection_coverage.py decoded, a collection is present exactly if the
-- marker covers it.
use nso_adapter.Prelude.{
  ◌≡◌, refl, ◌||◌, [], ◌∷◌, sym, ◌∙◌, ap, subst, String, Bool, true, false, not, Option, none, some,
  List, str_eq, inl, inr, Bool-cases, Option-cases, arith, eq_iff, or-parts, if◌then◌else◌,
}
use nso_adapter.Json.{
  Value, Items, Fields, null, boolean, natural, number, text, array, object, nil, item, get, pop,
  put, text_mem, all_distinct, all_in,
}
use nso_adapter.Json.Laws.{get-pop, get-put}
use nso_adapter.Results.{ok, >>=-eq-ok, check-eq-ok, ok-injective}
use nso_adapter.Coverage.{
  Collections, childless, collection, collection_names, covered, refuses_outside, served_items,
  names_of, marker_names, marker_value, marker_field, is_childless, decode_loop, decode_body,
  decode_parent, decode_section,
}

-- What the decoded section holds for a collection.
abbrev pub is_array : Option Value → Bool
is_array (some (array items)) = true
is_array _ = false

loop_other :
    (m k : String) (cs : Collections) (node : Fields) (names : List String) (start : Fields)
    {out : Fields}
    → text_mem k (collection_names cs) ≡ false
    → decode_loop m cs node names start ≡ ok out
    → get k out ≡ get k start
unfolding decode_loop collection_names text_mem
loop_other m k childless node names start absent h = ap (get k) (sym (ok-injective h))
loop_other m k (collection name body rest) node names start absent h =
    let (other, later) = or-parts (str_eq name k) (text_mem k (collection_names rest)) absent in
    elim (Bool-cases (text_mem name names)) [
      | inr e ↦
          loop_other m k rest node names (pop name start) later (rw e at h)
          ∙ rw (get-pop k name start, other)
      | inl e ↦
          let (items, _, h') = >>=-eq-ok (served_items (get name node)) _ (rw e at h) in
          let (done, e', h'') = >>=-eq-ok (decode_body m body items) _ h' in
          loop_other m k rest node names (put name (array done) start) later h''
          ∙ rw (get-put k name (array done) start, other)
    ]

-- What a served parent's marker lists, as it was served: a list in the marker's field, with the name
-- among its texts.
unfoldable pub lists_text : String → Items → Bool
lists_text k nil = false
lists_text k (item (text t) rest) = str_eq t k || lists_text k rest
lists_text k (item _ rest) = lists_text k rest

abbrev pub is_marked_by : String → Option Value → Bool
is_marked_by k (some (array items)) = lists_text k items
is_marked_by k _ = false

unfoldable pub is_marked : String → String → Fields → Bool
unfolding lists_text get
is_marked m k node = is_marked_by k (get m node)

names-lists :
    (k : String) (items : Items) {names : List String}
    → names_of items ≡ some names
    → text_mem k names ≡ lists_text k items
unfolding names_of lists_text text_mem
names-lists k nil {names} h = let same : [] ≡ names = cc h in ap (text_mem k) (sym same)
names-lists k (item (text t) rest) {names} h = elim (Option-cases (names_of rest)) [
  | inl e ↦ cc (rw e at h)
  | inr (later, e) ↦
      let same : (t ∷ later) ≡ names = cc (rw e at h) in
      ap (text_mem k) (sym same) ∙ ap (λ b. str_eq t k || b) (names-lists k rest e)
]
names-lists k (item null rest) h = cc h
names-lists k (item (boolean _) rest) h = cc h
names-lists k (item (natural _) rest) h = cc h
names-lists k (item (number _) rest) h = cc h
names-lists k (item (array _) rest) h = cc h
names-lists k (item (object _) rest) h = cc h

names-marked :
    (k : String) (items : Items) (cs : Collections) (o : Option (List String)) {names : List String}
    → names_of items ≡ o
    → marker_names o cs ≡ ok names
    → text_mem k names ≡ lists_text k items
names-marked k items cs none e h = cc h
names-marked k items cs (some found) e h =
    let (_, h1) = check-eq-ok (all_distinct found) _ _ h in
    let (_, h2) = check-eq-ok (all_in found (collection_names cs)) _ _ h1 in
    ap (text_mem k) (sym (ok-injective h2)) ∙ names-lists k items e

value-marked :
    (k : String) (v : Value) (cs : Collections) {names : List String}
    → marker_value v cs ≡ ok names
    → text_mem k names ≡ is_marked_by k (some v)
value-marked k (array items) cs h = names-marked k items cs (names_of items) refl h
value-marked k null cs h = cc h
value-marked k (boolean _) cs h = cc h
value-marked k (natural _) cs h = cc h
value-marked k (number _) cs h = cc h
value-marked k (text _) cs h = cc h
value-marked k (object _) cs h = cc h

-- The covered collections are those that the marker lists.
covered-marked :
    (k : String) (v : Option Value) (cs : Collections) {names : List String}
    → marker_field v cs ≡ ok names
    → text_mem k names ≡ is_marked_by k v
unfolding text_mem
covered-marked k none cs h = ap (text_mem k) (sym (ok-injective h))
covered-marked k (some v) cs h =
    let (_, h') = check-eq-ok (not (is_childless cs)) _ _ h in value-marked k v cs h'

-- Held as an array if covered, not held at all if not.
abbrev pub Follows : Bool → Option Value → Type 0
Follows true held = is_array held ≡ true
Follows false held = held ≡ none

loop_decides :
    (m k : String) (cs : Collections) (node : Fields) (names : List String) (start : Fields)
    {out : Fields}
    → text_mem k (collection_names cs) ≡ true
    → decode_loop m cs node names start ≡ ok out
    → Follows (text_mem k names) (get k out)
unfolding decode_loop collection_names text_mem
loop_decides m k childless node names start borne h = cc
loop_decides m k (collection name body rest) node names start {out} borne h =
    elim (Bool-cases (text_mem k (collection_names rest))) [
      | inl later ↦ elim (Bool-cases (text_mem name names)) [
        | inr e ↦ loop_decides m k rest node names (pop name start) later (rw e at h)
        | inl e ↦
            let (items, _, h') = >>=-eq-ok (served_items (get name node)) _ (rw e at h) in
            let (done, e', h'') = >>=-eq-ok (decode_body m body items) _ h' in
            loop_decides m k rest node names (put name (array done) start) later h''
      ]
      | inr last ↦
          let same : str_eq name k ≡ true = ground (arith, last, borne) in
          let equal = (eq_iff name k).0 same in
          elim (Bool-cases (text_mem name names)) [
            | inr e ↦
                let gone =
                  loop_other m k rest node names (pop name start) last (rw e at h)
                  ∙ get-pop k name start
                  ∙ ap (λ b. if b then none else get k start) same in
                subst (λ b. Follows b (get k out))
                  (sym (ap (λ n. text_mem n names) (sym equal) ∙ e)) gone
            | inl e ↦
                let (items, _, h') = >>=-eq-ok (served_items (get name node)) _ (rw e at h) in
                let (done, e', h'') = >>=-eq-ok (decode_body m body items) _ h' in
                let held =
                  loop_other m k rest node names (put name (array done) start) last h''
                  ∙ get-put k name (array done) start
                  ∙ ap (λ b. if b then some (array done) else get k start) same in
                subst (λ b. Follows b (get k out))
                  (sym (ap (λ n. text_mem n names) (sym equal) ∙ e)) (ap is_array held)
          ]
    ]

-- A section that was decoded: for each collection that its parent bears, the decoded section holds
-- an array if the served marker is a list with the collection's name, and holds nothing for it if
-- not, a missing marker included.
pub presence_is_coverage :
    (m k : String) (cs : Collections) (node : Fields) {out : Fields}
    → text_mem k (collection_names cs) ≡ true
    → decode_section m cs (object node) ≡ ok out
    → Follows (is_marked m k node) (get k out)
unfolding decode_section decode_parent covered is_marked
presence_is_coverage m k cs node {out} borne h =
    let (names, e, h') = >>=-eq-ok (covered m node cs) _ h in
    let (_, h'') =
      check-eq-ok (not (refuses_outside m (collection_names cs) (pop m node))) _ _ h' in
    subst (λ b. Follows b (get k out)) (covered-marked k (get m node) cs e)
      (loop_decides m k cs node names (pop m node) borne h'')

-- In a section that was decoded, each field that is neither the marker nor a collection of its
-- parent is as it was served.
pub other_fields_are_as_served :
    (m k : String) (cs : Collections) (node : Fields) {out : Fields}
    → text_mem k (collection_names cs) ≡ false
    → str_eq m k ≡ false
    → decode_section m cs (object node) ≡ ok out
    → get k out ≡ get k node
unfolding decode_section decode_parent
other_fields_are_as_served m k cs node other apart h =
    let (names, e, h') = >>=-eq-ok (covered m node cs) _ h in
    let (_, h'') =
      check-eq-ok (not (refuses_outside m (collection_names cs) (pop m node))) _ _ h' in
    loop_other m k cs node names (pop m node) other h''
    ∙ get-pop k m node
    ∙ ap (λ b. if b then none else get k node) apart
