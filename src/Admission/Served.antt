-- ===== src/Admission/Served.antt =====
-- From a served section to an admitted read: the decoder and `admit_coverage` of
-- nso/collection_coverage.py, with `classify_envelope_section` of nso/read_outcome.py between them.
use nso_adapter.Prelude.{
  ◌≡◌, ◌≢◌, refl, sym, ◌∙◌, ap, subst, ◌⊎◌, String, Bool, true, false, ◌||◌, Option, none, some,
  List, [], ◌∷◌, ◌++◌, inl, inr, Bool-cases, if◌then◌else◌,
}
use nso_adapter.Json.{Fields, object, end, get, text_mem}
use nso_adapter.Results.{Result, ok, >>=-eq-ok, check-eq-ok, ok-injective}
use nso_adapter.Coverage.{Collections, collection_names, decode_section}
use nso_adapter.Coverage.Presence.{Follows, is_marked, presence_is_coverage}
use nso_adapter.ReadOutcome.{
  ReadOutcome, Freshness, ReadFailure, UnavailableReason, present, absent_authoritative,
  unavailable, make_unavailable, status_is, classify_envelope_section, read_failure, fresh, stale,
  refused_section, section_status_error, section_status_unrecognized, not_ready, read_error,
  unsupported,
}
use nso_adapter.Admission.{
  CollectionPath, collection_paths, unless_covered, is_path, path_covered, uncovered_paths,
  admit_coverage,
}
use nso_adapter.Admission.Parents.{Parent, root, Gap, covered-bears, uncovered-lacks}

paths-cases :
    (l : List CollectionPath)
    → (l ≡ []) ⊎ ((q : CollectionPath) × (left : List CollectionPath) × (l ≡ q ∷ left))
paths-cases [] = inl refl
paths-cases (q ∷ left) = inr (q, left, refl)

content_of : ReadOutcome → Fields
content_of (present content f fs) = content
content_of _ = end

abbrev pub present_content : ReadOutcome → Option Fields
present_content (present content f fs) = some content
present_content _ = none

-- The paths that a consumer requires.
pub data Among (p : CollectionPath) : List CollectionPath → Type 0 where
  first : (rest : List CollectionPath) → Among p (p ∷ rest)
  later : (q : CollectionPath) {rest : List CollectionPath} → Among p rest → Among p (q ∷ rest)

kept :
    (here : Bool) (p : CollectionPath) (left : List CollectionPath) {all : List CollectionPath}
    → ◌≡◌ {A = Result (List CollectionPath)} (ok (unless_covered here p left)) (ok all)
    → here ≡ true
    → ◌≡◌ {A = Result (List CollectionPath)} (ok left) (ok all)
kept true p left h e = h
kept false p left h e = cc e

none_missing :
    (cs : Collections) (content : Fields) (paths : List CollectionPath) {p : CollectionPath}
    → Among p paths
    → uncovered_paths cs content paths ≡ ok []
    → path_covered p.0 p.1 content ≡ ok true
unfolding uncovered_paths
none_missing cs content [] m h = elim m [ ]
none_missing cs content (p ∷ _) (first rest) h =
    let (_, h') = check-eq-ok (is_path p (collection_paths cs)) _ _ h in
    let (here, e, h'') = >>=-eq-ok (path_covered p.0 p.1 content) _ h' in
    let (left, _, h''') = >>=-eq-ok (uncovered_paths cs content rest) _ h'' in
    elim (Bool-cases here) [
      | inl is_covered ↦ e ∙ ap ok is_covered
      | inr missed ↦ cc (rw missed at h''')
    ]
none_missing cs content (_ ∷ rest) (later q m) h =
    let (_, h') = check-eq-ok (is_path q (collection_paths cs)) _ _ h in
    let (here, e, h'') = >>=-eq-ok (path_covered q.0 q.1 content) _ h' in
    let (left, e', h''') = >>=-eq-ok (uncovered_paths cs content rest) _ h'' in
    elim (Bool-cases here) [
      | inl is_covered ↦ none_missing cs content rest m (e' ∙ kept here q left h''' is_covered)
      | inr missed ↦ cc (rw missed at h''')
    ]

some_missing :
    (cs : Collections) (content : Fields) (paths : List CollectionPath) {q : CollectionPath}
    {left : List CollectionPath}
    → uncovered_paths cs content paths ≡ ok (q ∷ left)
    → (p : CollectionPath) × Among p paths × (path_covered p.0 p.1 content ≡ ok false)
unfolding uncovered_paths
some_missing cs content [] h = cc
some_missing cs content (p ∷ rest) h =
    let (_, h') = check-eq-ok (is_path p (collection_paths cs)) _ _ h in
    let (here, e, h'') = >>=-eq-ok (path_covered p.0 p.1 content) _ h' in
    let (left, e', h''') = >>=-eq-ok (uncovered_paths cs content rest) _ h'' in
    elim (Bool-cases here) [
      | inl is_covered ↦
          let (p', m, missed) =
            some_missing cs content rest (e' ∙ kept here p left h''' is_covered) in
          (p', later p m, missed)
      | inr missed ↦ (p, first rest, e ∙ ap ok missed)
    ]

-- A read that is admitted as present holds, in every parent that exists along a required path, the
-- collection that the path names next.
pub admitted_parents_bear :
    (cs : Collections) (requires : List CollectionPath) (outcome : ReadOutcome) {content : Fields}
    {freshness : Freshness} {failures : List ReadFailure} {p : CollectionPath} {pre : List String}
    {parent : Fields} (name : String) (post : List String)
    → admit_coverage cs requires outcome ≡ ok (present content freshness failures)
    → Among p requires
    → (p.0 ∷ p.1) ≡ pre ++ (name ∷ post)
    → Parent parent pre content
    → get name parent ≢ none
unfolding admit_coverage make_unavailable content_of
admitted_parents_bear cs requires (present d f fs) {content} {freshness} {failures} {p} {pre}
      {parent} name post h m splits exists =
    let (missing, e, h') = >>=-eq-ok (uncovered_paths cs d requires) _ h in
    elim (paths-cases missing) [
      | inl nothing ↦
          let same : ◌≡◌ {A = Result ReadOutcome} (ok (present d f fs))
              (ok (present content freshness failures)) =
            rw nothing at h' in
          covered-bears p.0 p.1 name post
            (subst (λ c. Parent parent pre c) (sym (ap content_of (ok-injective same))) exists)
            splits (none_missing cs d requires m (e ∙ ap ok nothing))
      | inr (q, left, something) ↦ cc (rw something at h')
    ]
admitted_parents_bear cs requires absent_authoritative name post h m splits exists = cc
admitted_parents_bear cs requires (unavailable r f) name post h m splits exists = cc

-- A present read that is not admitted has a required path and a parent, existing along it, that
-- holds nothing for the collection that the path names next.
pub refused_read_lacks_one :
    (cs : Collections) (requires : List CollectionPath) (content : Fields) (freshness : Freshness)
    (failures : List ReadFailure) {reason : UnavailableReason} {failure : Option ReadFailure}
    → admit_coverage cs requires (present content freshness failures)
      ≡ ok (unavailable reason failure)
    → (p : CollectionPath) × Among p requires × Gap (p.0 ∷ p.1) content
unfolding admit_coverage make_unavailable
refused_read_lacks_one cs requires d f fs h =
    let (missing, e, h') = >>=-eq-ok (uncovered_paths cs d requires) _ h in
    elim (paths-cases missing) [
      | inl nothing ↦ cc (rw nothing at h')
      | inr (q, left, something) ↦
          let (p, m, missed) = some_missing cs d requires (e ∙ ap ok something) in
          (p, m, uncovered-lacks p.0 p.1 d missed)
    ]

-- The status of a section, if there is one, is `ok` or `stale`.
abbrev pub is_served : Option Fields → Bool
is_served none = false
is_served (some section) =
    status_is "ok" (get "status" section) || status_is "stale" (get "status" section)

abbrev pub served_content : Option Fields → Option Fields
served_content section = if is_served section then section else none

-- The failure of a section with another status is one that a reader can produce.
refusal_lem :
    (declared : Bool) (device family : String)
    → (failure : ReadFailure) × (refused_section
          (if declared then section_status_error else section_status_unrecognized)
          device
          family
        ≡ ok (unavailable read_error (some failure)))
unfolding read_failure make_unavailable
refusal_lem true device family = (_, refl)
refusal_lem false device family = (_, refl)

-- Every section is classified, and none of them as an authoritative absence; its content is handed
-- on exactly if its status is `ok` or `stale`, and then it is the whole section.
pub every_section_is_classified :
    (section : Option Fields) (device family : String)
    → (outcome : ReadOutcome) × (classify_envelope_section section device family ≡ ok outcome)
      × (outcome ≢ absent_authoritative)
      × (present_content outcome ≡ served_content section)
unfolding classify_envelope_section make_unavailable read_failure
every_section_is_classified none device family = (_, refl, λ e. cc, refl)
every_section_is_classified (some section) device family =
    let status = get "status" section in
    elim (Bool-cases (status_is "ok" status)) [
      | inl a ↦ (present section fresh [], rw a, λ x. cc x, rw (served_content, is_served, a))
      | inr a ↦ elim (Bool-cases (status_is "stale" status)) [
        | inl b ↦
            (present section stale [], rw (a, b), λ x. cc x, rw (served_content, is_served, a, b))
        | inr b ↦ elim (Bool-cases (status_is "unsupported" status)) [
          | inl c ↦ (
            unavailable unsupported none,
            rw (a, b, c),
            λ x. cc x,
            rw (served_content, is_served, a, b),
          )
          | inr c ↦ elim (Bool-cases (status_is "not-ready" status)) [
            | inl d ↦ (
              unavailable not_ready none,
              rw (a, b, c, d),
              λ x. cc x,
              rw (served_content, is_served, a, b),
            )
            | inr d ↦
                let (failure, h) = refusal_lem (status_is "error" status) device family in
                (
                  unavailable read_error (some failure),
                  rw (a, b, c, d, h),
                  λ x. cc x,
                  rw (served_content, is_served, a, b),
                )
          ]
        ]
      ]
    ]

admitted-content :
    (cs : Collections) (requires : List CollectionPath) (outcome : ReadOutcome) {content : Fields}
    {freshness : Freshness} {failures : List ReadFailure}
    → admit_coverage cs requires outcome ≡ ok (present content freshness failures)
    → present_content outcome ≡ some content
unfolding admit_coverage make_unavailable content_of
admitted-content cs requires (present d f fs) {content} {freshness} {failures} h =
    let (missing, e, h') = >>=-eq-ok (uncovered_paths cs d requires) _ h in
    elim (paths-cases missing) [
      | inl nothing ↦
          let same : ◌≡◌ {A = Result ReadOutcome} (ok (present d f fs))
              (ok (present content freshness failures)) =
            rw nothing at h' in
          ap present_content (ok-injective same)
      | inr (q, left, something) ↦ cc (rw something at h')
    ]
admitted-content cs requires absent_authoritative h = cc
admitted-content cs requires (unavailable r f) h = cc

served-cases :
    (section : Fields)
    → (served_content (some section) ≡ some section) ⊎ (served_content (some section) ≡ none)
served-cases section = elim (Bool-cases (is_served (some section))) [
  | inl e ↦ inl (ap (λ b. if b then some section else none) e)
  | inr e ↦ inr (ap (λ b. if b then some section else none) e)
]

-- If a section is decoded, classified and admitted as present for a consumer that requires one of
-- the section's own collections, then the marker that the section was served with is a list that has
-- that collection's name: no consumer takes a collection that was left out for an empty one.
pub admitted_collection_was_marked :
    (m k device family : String) (cs : Collections) (node : Fields) {out content : Fields}
    {outcome : ReadOutcome} (requires : List CollectionPath) {freshness : Freshness}
    {failures : List ReadFailure}
    → text_mem k (collection_names cs) ≡ true
    → decode_section m cs (object node) ≡ ok out
    → classify_envelope_section (some out) device family ≡ ok outcome
    → Among (k, []) requires
    → admit_coverage cs requires outcome ≡ ok (present content freshness failures)
    → is_marked m k node ≡ true
admitted_collection_was_marked m k device family cs node {out} {content} {outcome} requires borne
      decodes classifies m' admits =
    let follows = presence_is_coverage m k cs node borne decodes in
    let (outcome', e, _, held) = every_section_is_classified (some out) device family in
    let is_out : outcome' ≡ outcome = ok-injective (sym e ∙ classifies) in
    let held_content = sym (ap present_content is_out) ∙ held in
    let admitted_content = admitted-content cs requires outcome admits in
    elim (served-cases out) [
      | inr nothing ↦ cc (sym admitted_content ∙ sym (ap present_content is_out) ∙ held ∙ nothing)
      | inl whole ↦
          let same : some content ≡ some out =
            sym admitted_content ∙ sym (ap present_content is_out) ∙ held ∙ whole in
          let bears = admitted_parents_bear cs requires outcome k [] admits m' refl root in
          elim (Bool-cases (is_marked m k node)) [
            | inl named ↦ named
            | inr unnamed ↦
                let left_out : get k out ≡ none =
                  subst (λ b. Follows b (get k out)) unnamed follows in
                absurd (bears (ap (λ o. elim o [ none ↦ none | some f ↦ get k f ]) same ∙ left_out))
          ]
    ]
