-- ===== src/ApplyPlan/Prune.antt =====
-- `prune_apply_plan` of core/static_route_plan.py against the classifier.
use nso_adapter.Prelude.{
  ℕ, ◌≡◌, refl, sym, ap, subst, ◌∙◌, inl, inr, true, false, not, ◌||◌, is_some, List, [], ◌∷◌, ◌==◌,
  if◌then◌else◌, map, Bool-cases, and-parts, or-parts, not-parts, ==_iff, arith,
}
use nso_adapter.Results.{ok, >>=-eq-ok, ok-injective}
use nso_adapter.DeletedRoutes.{elem}
use nso_adapter.RoutePlan.{RouteRow, Tombstone}
use nso_adapter.ApplyPlan.{
  SrPlan, id_of, accepted_rows, selected_rows, any_open, add_predecessors, add_owed,
  classify_apply_plan, serialize_apply_plan, prune_apply_plan,
}
use nso_adapter.ApplyPlan.RoundTrip.{distinct_ids}

-- A row's id is among the ids exactly if the row is accepted.
abbrev Marks : List ℕ → List RouteRow → Type 0
Marks ids [] = Unit
Marks ids (row ∷ rest) = (elem row.id ids ≡ is_some row.accepted_at) × Marks ids rest

Marks-add :
    (n : ℕ) (ids : List ℕ) (rows : List RouteRow)
    → elem n (map id_of rows) ≡ false
    → Marks ids rows
    → Marks (n ∷ ids) rows
unfolding elem
Marks-add n ids [] h m = tt
Marks-add n ids (row ∷ rest) h m =
    let (other, later) = or-parts (n == row.id) (elem n (map id_of rest)) h in
    let unlike : (row.id == n) ≡ false = ground (arith, other) in
    (ap (λ b. b || elem row.id ids) unlike ∙ m.0, Marks-add n ids rest later m.1)

absent_accepted :
    (n : ℕ) (rows : List RouteRow)
    → elem n (map id_of rows) ≡ false
    → elem n (map id_of (accepted_rows rows)) ≡ false
unfolding accepted_rows elem
absent_accepted n [] h = refl
absent_accepted n (row ∷ rest) h =
    let (other, later) = or-parts (n == row.id) (elem n (map id_of rest)) h in
    elim (Bool-cases (is_some row.accepted_at)) [
      | inl e ↦ rw (e, other, absent_accepted n rest later)
      | inr e ↦ rw (e, absent_accepted n rest later)
    ]

accepted-Marks :
    (rows : List RouteRow)
    → distinct_ids (map id_of rows) ≡ true
    → Marks (map id_of (accepted_rows rows)) rows
unfolding accepted_rows elem distinct_ids
accepted-Marks [] h = tt
accepted-Marks (row ∷ rest) h =
    let (new, later) =
      and-parts (not (elem row.id (map id_of rest))) (distinct_ids (map id_of rest)) h in
    let apart = not-parts _ new in
    let ids = map id_of (accepted_rows rest) in
    elim (Bool-cases (is_some row.accepted_at)) [
      | inl e ↦
          subst
            (λ b.
              Marks (map id_of (if b then row ∷ accepted_rows rest else accepted_rows rest))
                (row ∷ rest))
            (sym e)
            (
              ap (λ b. b || elem row.id ids) ((==_iff row.id row.id).1 refl) ∙ sym e,
              Marks-add row.id ids rest apart (accepted-Marks rest later),
            )
      | inr e ↦
          subst
            (λ b.
              Marks (map id_of (if b then row ∷ accepted_rows rest else accepted_rows rest))
                (row ∷ rest))
            (sym e) (absent_accepted row.id rest apart ∙ sym e, accepted-Marks rest later)
    ]

selected-accepted :
    (ids : List ℕ) (rows : List RouteRow)
    → Marks ids rows
    → selected_rows ids rows ≡ accepted_rows rows
unfolding selected_rows accepted_rows
selected-accepted ids [] m = refl
selected-accepted ids (row ∷ rest) m = rw (m.0, selected-accepted ids rest m.1)

-- Of rows with distinct ids: a frozen plan, pruned to the tombstones that survive, is the plan that
-- the classifier would make of the same rows and the surviving tombstones.
pub prunes_to_reclassification :
    (rows : List RouteRow) (tombstones survivors : List Tombstone) {plan fresh : SrPlan}
    → distinct_ids (map id_of rows) ≡ true
    → classify_apply_plan rows tombstones ≡ ok plan
    → classify_apply_plan rows survivors ≡ ok fresh
    → prune_apply_plan (serialize_apply_plan plan) rows survivors ≡ ok (serialize_apply_plan fresh)
unfolding classify_apply_plan serialize_apply_plan prune_apply_plan
prunes_to_reclassification rows tombstones survivors d h h' =
    let accepted = accepted_rows rows in
    let (opens, a, h1) = >>=-eq-ok (any_open accepted) _ h in
    let (replaced, b, h2) = >>=-eq-ok (add_predecessors accepted []) _ h1 in
    let (allowed, c, h3) = >>=-eq-ok (add_owed tombstones replaced) _ h2 in
    let (opens', a', h1') = >>=-eq-ok (any_open accepted) _ h' in
    let (replaced', b', h2') = >>=-eq-ok (add_predecessors accepted []) _ h1' in
    let (allowed', c', h3') = >>=-eq-ok (add_owed survivors replaced') _ h2' in
    let same_mode : opens ≡ opens' = ok-injective (sym a ∙ a') in
    let selected = selected-accepted (map id_of accepted) rows (accepted-Marks rows d) in
    rw (← ok-injective h3, ← ok-injective h3', selected, b', c', same_mode) refl
