-- ===== src/RemovalPlan/Authority.antt =====
-- What a removal plan of core/static_route_plan.py may remove, and what it leaves to the rows.
use nso_adapter.Prelude.{
  ◌≡◌, refl, sym, ap, subst, ◌∙◌, inl, inr, Bool, true, false, not, ◌&&◌, ◌||◌, Option, none, some,
  List, [], ◌∷◌, Bool-cases,
}
use nso_adapter.Results.{ok, >>=-eq-ok, ok-injective}
use nso_adapter.DeletedRoutes.{Triple, has_triple, triple_eq}
use nso_adapter.DeletedRoutes.Triples.{has-at, has-sorted, triple_eq_refl}
use nso_adapter.RoutePlan.{
  RouteRow, Tombstone, row_triple, tombstone_triple, as_triple, clears_suppressed,
}
use nso_adapter.ApplyPlan.{add_owed}
use nso_adapter.ApplyPlan.RoundTrip.{has-add}
use nso_adapter.ApplyPlan.Authority.{OwesAll, HasFound, owed_held}
use nso_adapter.RemovalPlan.{
  SrRemovalPlan, Registry, Authority, RemovalContext, removal_keys, rendered_keys, add_deployed,
  common, without, clears_unless, classify_removal_plan,
}

has-common :
    (t : Triple) (a s : List Triple)
    → has_triple t (common a s) ≡ (has_triple t a && has_triple t s)
unfolding common has_triple
has-common t [] s = refl
has-common t (x ∷ rest) s = elim (Bool-cases (has_triple x s)) [
  | inl e ↦ rw e (
      ap (λ b. triple_eq t x || b) (has-common t rest s)
      ∙ with_head (triple_eq t x) (has_triple t rest) (has_triple t s) (has-at t x s true e))
  | inr e ↦ rw e (
      has-common t rest s
      ∙ without_head (triple_eq t x) (has_triple t rest) (has_triple t s) (has-at t x s false e))
]
  where
    with_head : (e q h : Bool) → (e ≡ true → h ≡ true) → (e || (q && h)) ≡ ((e || q) && h)
    with_head true q h f = sym (f refl)
    with_head false q h f = refl

    without_head : (e q h : Bool) → (e ≡ true → h ≡ false) → (q && h) ≡ ((e || q) && h)
    without_head true true h f = refl
    without_head true false h f = sym (f refl)
    without_head false q h f = refl

has-without :
    (t : Triple) (a s : List Triple)
    → has_triple t (without a s) ≡ (has_triple t a && not (has_triple t s))
unfolding without has_triple
has-without t [] s = refl
has-without t (x ∷ rest) s = elim (Bool-cases (has_triple x s)) [
  | inl e ↦ rw e (
      has-without t rest s
      ∙ without_head (triple_eq t x) (has_triple t rest) (has_triple t s) (has-at t x s true e))
  | inr e ↦ rw e (
      ap (λ b. triple_eq t x || b) (has-without t rest s)
      ∙ with_head (triple_eq t x) (has_triple t rest) (has_triple t s) (has-at t x s false e))
]
  where
    with_head : (e q h : Bool) → (e ≡ true → h ≡ false) → (e || (q && not h)) ≡ ((e || q) && not h)
    with_head true q h f = sym (ap not (f refl))
    with_head false q h f = refl

    without_head : (e q h : Bool) → (e ≡ true → h ≡ true) → (q && not h) ≡ ((e || q) && not h)
    without_head true true h f = refl
    without_head true false h f = sym (ap not (f refl))
    without_head false q h f = refl

-- The plan does not remove what a row of the list renders.
abbrev pub Spares : SrRemovalPlan → List RouteRow → Type 0
Spares plan [] = Unit
Spares plan (row ∷ rest) = (has_triple (row_triple row) plan.authorized ≡ false) × Spares plan rest

nothing_rendered :
    (plan : SrRemovalPlan) (rows : List RouteRow) (rendered : List Triple)
    → ((t : Triple) → has_triple t rendered ≡ true → has_triple t plan.authorized ≡ false)
    → ((t : Triple) → has_triple t (rendered_keys rows) ≡ true → has_triple t rendered ≡ true)
    → Spares plan rows
unfolding rendered_keys
nothing_rendered plan [] rendered off within = tt
nothing_rendered plan (row ∷ rest) rendered off within =
    let own =
      has-add (row_triple row) (row_triple row) (rendered_keys rest)
      ∙ ap (λ b. b || has_triple (row_triple row) (rendered_keys rest))
          (triple_eq_refl (row_triple row)) in
    (
      off (row_triple row) (within (row_triple row) own),
      nothing_rendered plan rest rendered off (λ t h. within t (
          has-add t (row_triple row) (rendered_keys rest)
          ∙ or_right (triple_eq t (row_triple row)) _ h)),
    )
  where
    or_right : (a b : Bool) → b ≡ true → (a || b) ≡ true
    or_right true b h = refl
    or_right false b h = h

-- A plan never authorizes the removal of a key that a row still renders.
pub rendered_keys_are_spared :
    (registry : Registry) (rows : List RouteRow) (tombstones : List Tombstone) (allowed : Authority)
    (context : RemovalContext) {plan : SrRemovalPlan}
    → classify_removal_plan registry rows tombstones allowed context ≡ ok plan
    → Spares plan rows
unfolding classify_removal_plan
rendered_keys_are_spared registry rows tombstones allowed context {plan} h =
    let (requested, _, h1) = >>=-eq-ok (removal_keys registry allowed) _ h in
    let (owed, _, h2) = >>=-eq-ok (add_owed tombstones requested) _ h1 in
    let (claimed, _, h3) = >>=-eq-ok (add_deployed rows (rendered_keys rows)) _ h2 in
    let (clears, _, h4) =
      >>=-eq-ok (clears_unless (clears_suppressed context.detach context.retract_deferred) rows) _
        h3 in
    let same = ok-injective h4 in
    nothing_rendered plan rows (rendered_keys rows)
      (λ t e.
        sym (ap (λ (p : SrRemovalPlan). has_triple t p.authorized) same)
        ∙ has-without t owed (rendered_keys rows)
        ∙ ap (λ b. has_triple t owed && not b) e
        ∙ and_false (has_triple t owed))
      (λ t e. e)
  where
    and_false : (b : Bool) → (b && false) ≡ false
    and_false true = refl
    and_false false = refl

-- A row of the list renders the key.
unfoldable pub renders : Triple → List RouteRow → Bool
renders t [] = false
renders t (row ∷ rest) = triple_eq t (row_triple row) || renders t rest

rendered_lem :
    (t : Triple) (rows : List RouteRow) → has_triple t (rendered_keys rows) ≡ renders t rows
unfolding rendered_keys renders has_triple
rendered_lem t [] = refl
rendered_lem t (row ∷ rest) =
    has-add t (row_triple row) (rendered_keys rest)
    ∙ ap (λ b. triple_eq t (row_triple row) || b) (rendered_lem t rest)

-- A key is to be removed if no row renders it, and is reclaimed if one does.
abbrev pub Settles : List RouteRow → SrRemovalPlan → Triple → Type 0
Settles rows plan t =
    (has_triple t plan.authorized ≡ not (renders t rows))
    × (has_triple t plan.reclaimed ≡ renders t rows)

abbrev pub SettlesFound : List RouteRow → SrRemovalPlan → Option Triple → Type 0
SettlesFound rows plan none = Unit
SettlesFound rows plan (some t) = Settles rows plan t

-- Both keys of every tombstone are settled.
abbrev pub SettlesAll : List RouteRow → SrRemovalPlan → List Tombstone → Type 0
SettlesAll rows plan [] = Unit
SettlesAll rows plan (tomb ∷ rest) =
    ((deployed : Option Triple) × (as_triple tomb.deployed_key ≡ ok deployed)
      × Settles rows plan (tombstone_triple tomb)
      × SettlesFound rows plan deployed)
    × SettlesAll rows plan rest

module _ (rows : List RouteRow) (plan : SrRemovalPlan) (owed : List Triple)
    (each : (t : Triple) → has_triple t owed ≡ true → Settles rows plan t) where
  settles_found : (o : Option Triple) → HasFound o owed → SettlesFound rows plan o
  settles_found none h = tt
  settles_found (some t) h = each t h

  owed_keys : (tombs : List Tombstone) → OwesAll owed tombs → SettlesAll rows plan tombs
  owed_keys [] h = tt
  owed_keys (tomb ∷ rest) h =
      let o = h.0 in
      (
        (
          o.deployed,
          o.reads,
          each (tombstone_triple tomb) o.rendered,
          settles_found o.deployed o.found,
        ),
        owed_keys rest h.1,
      )

-- No deletion is lost: each key of each tombstone, the rendered and the deployed one, is authorized
-- for removal exactly if no row renders it, and reclaimed exactly if a row does.
pub tombstones_are_settled :
    (registry : Registry) (rows : List RouteRow) (tombstones : List Tombstone) (allowed : Authority)
    (context : RemovalContext) {plan : SrRemovalPlan}
    → classify_removal_plan registry rows tombstones allowed context ≡ ok plan
    → SettlesAll rows plan tombstones
unfolding classify_removal_plan
tombstones_are_settled registry rows tombstones allowed context {plan} h =
    let (requested, _, h1) = >>=-eq-ok (removal_keys registry allowed) _ h in
    let (owed, e, h2) = >>=-eq-ok (add_owed tombstones requested) _ h1 in
    let (claimed, _, h3) = >>=-eq-ok (add_deployed rows (rendered_keys rows)) _ h2 in
    let (clears, _, h4) =
      >>=-eq-ok (clears_unless (clears_suppressed context.detach context.retract_deferred) rows) _
        h3 in
    let rendered = rendered_keys rows in
    owed_keys rows plan owed
      (λ t in_owed.
        subst (λ p. Settles rows p t) (ok-injective h4)
          (
            has-without t owed rendered
                ∙ ap (λ b. b && not (has_triple t rendered)) in_owed
                ∙ ap not (rendered_lem t rows),
            has-sorted t (common owed rendered)
                ∙ has-common t owed rendered
                ∙ ap (λ b. b && has_triple t rendered) in_owed
                ∙ rendered_lem t rows,
          ))
      tombstones (owed_held tombstones requested e)
