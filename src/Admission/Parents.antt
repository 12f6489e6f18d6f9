-- ===== src/Admission/Parents.antt =====
-- `_path_covered` and `admit_coverage` of nso/collection_coverage.py, against the parents that
-- exist in the decoded section.
use nso_adapter.Prelude.{
  ◌≡◌, ◌≢◌, refl, ◌∙◌, ap, String, Bool, true, false, none, some, List, [], ◌∷◌, ◌++◌, inl, inr,
  Option-cases, Bool-cases,
}
use nso_adapter.Json.{
  Value, Items, Fields, null, boolean, natural, number, text, array, object, nil, item, get,
}
use nso_adapter.Results.{Result, ok, >>=-eq-ok, check-eq-ok}
use nso_adapter.Admission.{all_objects, every_entry, path_covered}

-- An object that stands in a list.
pub data EntryOf (entry : Fields) : Items → Type 0 where
  first : (rest : Items) → EntryOf entry (item (object entry) rest)
  later : (v : Value) {rest : Items} → EntryOf entry rest → EntryOf entry (item v rest)

-- The parents that exist below a section, along the names of lists.
pub data Parent (parent : Fields) : List String → Fields → Type 0 where
  root : Parent parent [] parent
  under :
      {name : String} {names : List String} {node entry : Fields} {entries : Items}
      → get name node ≡ some (array entries)
      → EntryOf entry entries
      → Parent parent names entry
      → Parent parent (name ∷ names) node

entry-covered :
    (covered : Fields → Result Bool) {entry : Fields} {entries : Items}
    → EntryOf entry entries
    → every_entry covered entries ≡ ok true
    → covered entry ≡ ok true
unfolding every_entry
entry-covered covered {entry} (first rest) h =
    let (here, e, h') = >>=-eq-ok (covered entry) _ h in
    elim (Bool-cases here) [
      | inl yes_here ↦ e ∙ ap ok yes_here
      | inr not_here ↦ cc (rw not_here at h')
    ]
entry-covered covered (later (object f) m) h =
    let (here, e, h') = >>=-eq-ok (covered f) _ h in
    elim (Bool-cases here) [
      | inl yes_here ↦ entry-covered covered m (rw yes_here at h')
      | inr not_here ↦ cc (rw not_here at h')
    ]
entry-covered covered (later null m) h = cc
entry-covered covered (later (boolean b) m) h = cc
entry-covered covered (later (number n) m) h = cc
entry-covered covered (later (natural n) m) h = cc
entry-covered covered (later (text t) m) h = cc
entry-covered covered (later (array a) m) h = cc

head_of : String → List String → String
head_of d [] = d
head_of d (a ∷ s) = a

rest_of : List String → List String
rest_of [] = []
rest_of (a ∷ s) = s

never_empty : (pre : List String) (name : String) (post : List String) → [] ≢ pre ++ (name ∷ post)
never_empty [] name post e = cc
never_empty (a ∷ pre) name post e = cc

-- A parent that a covered path passes bears the path's next name.
pub covered-bears :
    {parent : Fields} (head : String) (rest : List String) {pre : List String} (name : String)
    (post : List String) {node : Fields}
    → Parent parent pre node
    → (head ∷ rest) ≡ pre ++ (name ∷ post)
    → path_covered head rest node ≡ ok true
    → get name parent ≢ none
unfolding path_covered head_of rest_of
covered-bears head [] name post root e h =
    let same : head ≡ name = ap (head_of head) e in λ missing. cc (rw (same, missing) at h)
covered-bears head (r ∷ rest) name post root e h =
    let same : head ≡ name = ap (head_of head) e in λ missing. cc (rw (same, missing) at h)
covered-bears head [] name post (under {name = n} {names = pre} held in_entries p) e h =
    λ missing. never_empty pre name post (ap rest_of e)
covered-bears head (r ∷ rest) name post
      (under {name = n} {entry = entry} {entries = entries} held in_entries p) e h =
    let same : head ≡ n = ap (head_of head) e in
    let (_, h') = check-eq-ok (all_objects entries) _ _ (rw (same, held) at h) in
    covered-bears r rest name post p (ap rest_of e)
      (entry-covered (path_covered r rest) in_entries h')

-- A parent that lacks the next name of a path.
pub record Gap (path : List String) (node : Fields) : Type 0 where
  pub pre : List String
  pub name : String
  pub post : List String
  pub parent : Fields
  pub splits : path ≡ pre ++ (name ∷ post)
  pub exists : Parent parent pre node
  pub lacks : get name parent ≡ none

entry-uncovered :
    (covered : Fields → Result Bool) (entries : Items)
    → every_entry covered entries ≡ ok false
    → (entry : Fields) × EntryOf entry entries × (covered entry ≡ ok false)
unfolding every_entry
entry-uncovered covered nil h = cc
entry-uncovered covered (item (object f) rest) h =
    let (here, e, h') = >>=-eq-ok (covered f) _ h in
    elim (Bool-cases here) [
      | inl yes_here ↦
          let (entry, m, gap) = entry-uncovered covered rest (rw yes_here at h') in
          (entry, later (object f) m, gap)
      | inr not_here ↦ (f, first rest, e ∙ ap ok not_here)
    ]
entry-uncovered covered (item null rest) h = cc
entry-uncovered covered (item (boolean b) rest) h = cc
entry-uncovered covered (item (number n) rest) h = cc
entry-uncovered covered (item (natural n) rest) h = cc
entry-uncovered covered (item (text t) rest) h = cc
entry-uncovered covered (item (array a) rest) h = cc

at_once :
    (head : String) (rest : List String) (node : Fields)
    → get head node ≡ none
    → Gap (head ∷ rest) node
at_once head rest node lacks = record {
  pre = [];
  name = head;
  post = rest;
  parent = node;
  splits = refl;
  exists = root;
  lacks = lacks;
}

-- An uncovered path has a parent that lacks its next name.
pub uncovered-lacks :
    (head : String) (rest : List String) (node : Fields)
    → path_covered head rest node ≡ ok false
    → Gap (head ∷ rest) node
unfolding path_covered
uncovered-lacks head [] node h = elim (Option-cases (get head node)) [
  | inl lacks ↦ at_once head [] node lacks
  | inr (null, e) ↦ cc (rw e at h)
  | inr (boolean b, e) ↦ cc (rw e at h)
  | inr (number n, e) ↦ cc (rw e at h)
  | inr (natural n, e) ↦ cc (rw e at h)
  | inr (text t, e) ↦ cc (rw e at h)
  | inr (object f, e) ↦ cc (rw e at h)
  | inr (array a, e) ↦ cc (rw e at h)
]
uncovered-lacks head (r ∷ rest) node h = elim (Option-cases (get head node)) [
  | inl lacks ↦ at_once head (r ∷ rest) node lacks
  | inr (null, e) ↦ cc (rw e at h)
  | inr (boolean b, e) ↦ cc (rw e at h)
  | inr (number n, e) ↦ cc (rw e at h)
  | inr (natural n, e) ↦ cc (rw e at h)
  | inr (text t, e) ↦ cc (rw e at h)
  | inr (object f, e) ↦ cc (rw e at h)
  | inr (array entries, e) ↦
      let (_, h') = check-eq-ok (all_objects entries) _ _ (rw e at h) in
      let (entry, m, gap) = entry-uncovered (path_covered r rest) entries h' in
      let g = uncovered-lacks r rest entry gap in
      record {
        pre = head ∷ g.pre;
        name = g.name;
        post = g.post;
        parent = g.parent;
        splits = ap (λ s. head ∷ s) g.splits;
        exists = under e m g.exists;
        lacks = g.lacks;
      }
]
