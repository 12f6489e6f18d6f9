-- ===== src/RemovalPlan/RoundTrip.antt =====
-- A recorded removal plan of core/static_route_plan.py passes its own certification.
use nso_adapter.Prelude.{
  ◌≡◌, refl, sym, ap, subst, ◌∙◌, inl, inr, String, Bool, true, false, ◌||◌, some, List, [], ◌∷◌,
  str_eq, eq_iff, map, and-both, ◌⊎◌,
}
use nso_adapter.Results.{ok, >>=-eq-ok, ok-injective}
use nso_adapter.DeletedRoutes.{Triple, has_triple, sorted_triples}
use nso_adapter.DeletedRoutes.Triples.{has-sorted, triple_eq_refl}
use nso_adapter.PendingClear.{has, authorized_clear_fields, sorted_texts}
use nso_adapter.PendingClear.Halves.{has-sorted_texts}
use nso_adapter.RoutePlan.{
  RouteRow, Tombstone, row_triple, replacement_open, unless_open, candidates,
  candidate_clear_fields, clears_suppressed, unset_fields,
}
use nso_adapter.ApplyPlan.{add_owed, stored_key, id_of, sr_key}
use nso_adapter.ApplyPlan.Hydrate.{by_id}
use nso_adapter.ApplyPlan.RoundTrip.{distinct_ids, Finds, by_id-Finds, keys_again}
use nso_adapter.RemovalPlan.{
  SrClear, SrRemovalPlan, Registry, Authority, RemovalContext, removal_keys, rendered_keys,
  add_deployed, add_clear, clears_of, clears_unless, classify_removal_plan, record_clear,
  serialize_removal_plan, all_has, certify_clears, hydrate_clears, keys_in_order,
  hydrate_removal_plan,
}

all_has_lem :
    (a l : List String) → ((f : String) → has f a ≡ true → has f l ≡ true) → all_has a l ≡ true
unfolding all_has has
all_has_lem [] l h = refl
all_has_lem (f ∷ a) l h =
    and-both (h f (ap (λ b. b || has f a) ((eq_iff f f).1 refl)))
      (all_has_lem a l (λ g e. h g (or_right (str_eq g f) (has g a) e)))
  where
    or_right : (a b : Bool) → b ≡ true → (a || b) ≡ true
    or_right true b h = refl
    or_right false b h = h

still_unset :
    (row : RouteRow) (waits : Bool) (pending : List String)
    → all_has
        (unless_open waits (sorted_texts (unset_fields row pending)))
        (unset_fields row pending)
      ≡ true
unfolding all_has
still_unset row true pending = refl
still_unset row false pending =
    all_has_lem (sorted_texts (unset_fields row pending)) (unset_fields row pending)
      (λ f e. sym (has-sorted_texts f (unset_fields row pending)) ∙ e)

candidates_unset :
    (row : RouteRow) (pending : List String) {fields : List String}
    → candidates row pending ≡ ok fields
    → all_has fields (unset_fields row pending) ≡ true
candidates_unset row [] {fields} h =
    subst (λ l. all_has l (unset_fields row []) ≡ true) (ok-injective h) (unfold all_has in refl)
candidates_unset row (g ∷ rest) h =
    let (waits, _, h') = >>=-eq-ok (replacement_open row) _ h in
    subst (λ l. all_has l (unset_fields row (g ∷ rest)) ≡ true) (ok-injective h')
      (still_unset row waits (g ∷ rest))

list-cases : (l : List String) → (l ≡ []) ⊎ ((f : String) × (rest : List String) × (l ≡ f ∷ rest))
list-cases [] = inl refl
list-cases (f ∷ rest) = inr (f, rest, refl)

add_clear-certified :
    (rows : List RouteRow) (row : RouteRow) (fields : List String) (later : List SrClear)
    → by_id id_of rows row.id ≡ some row
    → all_has fields (unset_fields row (authorized_clear_fields row.pending_clear)) ≡ true
    → certify_clears rows later ≡ ok tt
    → certify_clears rows (add_clear row fields later) ≡ ok tt
unfolding certify_clears
add_clear-certified rows row [] later found held h = h
add_clear-certified rows row (f ∷ fields) later found held h =
    rw (found, triple_eq_refl (row_triple row), held, h)

clears-certified :
    (rows sub : List RouteRow) {clears : List SrClear}
    → Finds id_of (by_id id_of rows) sub
    → clears_of sub ≡ ok clears
    → certify_clears rows clears ≡ ok tt
unfolding clears_of candidate_clear_fields
clears-certified rows [] found h =
    subst (λ c. certify_clears rows c ≡ ok tt) (ok-injective h) (unfold certify_clears in refl)
clears-certified rows (row ∷ rest) found h =
    let (fields, e, h1) = >>=-eq-ok (candidate_clear_fields row) _ h in
    let (later, e', h2) = >>=-eq-ok (clears_of rest) _ h1 in
    subst (λ c. certify_clears rows c ≡ ok tt) (ok-injective h2)
      (add_clear-certified rows row fields later found.0
        (candidates_unset row (authorized_clear_fields row.pending_clear) e)
        (clears-certified rows rest found.1 e'))

-- The clears that the classifier finds pass the certification against the same rows, which have
-- distinct ids: no recorded plan is refused for a clear that it was recorded with.
pub classified_clears_are_certified :
    (rows : List RouteRow) {clears : List SrClear}
    → distinct_ids (map id_of rows) ≡ true
    → clears_of rows ≡ ok clears
    → certify_clears rows clears ≡ ok tt
classified_clears_are_certified rows d h = clears-certified rows rows (by_id-Finds id_of rows d) h

unless-certified :
    (rows : List RouteRow) (suppressed : Bool) {clears : List SrClear}
    → distinct_ids (map id_of rows) ≡ true
    → clears_unless suppressed rows ≡ ok clears
    → certify_clears rows clears ≡ ok tt
unless-certified rows true d h =
    subst (λ c. certify_clears rows c ≡ ok tt) (ok-injective h) (unfold certify_clears in refl)
unless-certified rows false d h = classified_clears_are_certified rows d h

clears_again : (clears : List SrClear) → hydrate_clears (map record_clear clears) ≡ ok clears
unfolding hydrate_clears sr_key
clears_again [] = refl
clears_again (clear ∷ rest) = rw (clears_again rest)

keys_as_stored : (keys : List Triple) → keys_in_order (map stored_key keys) ≡ ok keys
unfolding keys_in_order sr_key
keys_as_stored [] = refl
keys_as_stored (key ∷ rest) = rw (keys_as_stored rest)

-- The plans say the same: all alike but the sets of keys, which are the same as sets.
pub record SameRemoval (p q : SrRemovalPlan) : Type 0 where
  pub tombstone_ids : p.tombstone_ids ≡ q.tombstone_ids
  pub clears : p.clears ≡ q.clears
  pub reclaimed : p.reclaimed ≡ q.reclaimed
  pub authorized : (t : Triple) → has_triple t p.authorized ≡ has_triple t q.authorized
  pub claimed : (t : Triple) → has_triple t p.claimed ≡ has_triple t q.claimed

hydrates :
    (rows : List RouteRow) (plan : SrRemovalPlan)
    → certify_clears rows plan.clears ≡ ok tt
    → (again : SrRemovalPlan) × (hydrate_removal_plan (serialize_removal_plan plan) rows ≡ ok again)
      × SameRemoval again plan
unfolding hydrate_removal_plan serialize_removal_plan
hydrates rows plan certified =
    let (authorized, a, same) = keys_again (sorted_triples plan.authorized) in
    let (claimed, c, same') = keys_again (sorted_triples plan.claimed) in
    (
      record {
        authorized = authorized;
        claimed = claimed;
        tombstone_ids = plan.tombstone_ids;
        clears = plan.clears;
        reclaimed = plan.reclaimed;
      },
      rw (clears_again plan.clears, certified, a, c, keys_as_stored plan.reclaimed),
      record {
        tombstone_ids = refl;
        clears = refl;
        reclaimed = refl;
        authorized = λ t. same t ∙ has-sorted t plan.authorized;
        claimed = λ t. same' t ∙ has-sorted t plan.claimed;
      },
    )

-- A removal plan that was classified from rows with distinct ids is recorded and hydrated over the
-- same rows without loss, its certification included: the hydration returns a plan with the same
-- tombstones, clears and reclaimed keys, and the same sets of authorized and claimed keys.
pub removal_hydrates_what_was_recorded :
    (registry : Registry) (rows : List RouteRow) (tombstones : List Tombstone) (allowed : Authority)
    (context : RemovalContext) {plan : SrRemovalPlan}
    → distinct_ids (map id_of rows) ≡ true
    → classify_removal_plan registry rows tombstones allowed context ≡ ok plan
    → (again : SrRemovalPlan) × (hydrate_removal_plan (serialize_removal_plan plan) rows ≡ ok again)
      × SameRemoval again plan
unfolding classify_removal_plan
removal_hydrates_what_was_recorded registry rows tombstones allowed context {plan} d h =
    let suppressed = clears_suppressed context.detach context.retract_deferred in
    let (requested, _, h1) = >>=-eq-ok (removal_keys registry allowed) _ h in
    let (owed, e, h2) = >>=-eq-ok (add_owed tombstones requested) _ h1 in
    let (claimed, _, h3) = >>=-eq-ok (add_deployed rows (rendered_keys rows)) _ h2 in
    let (clears, found, h4) = >>=-eq-ok (clears_unless suppressed rows) _ h3 in
    hydrates rows plan (
      sym (ap (λ (p : SrRemovalPlan). certify_clears rows p.clears) (ok-injective h4))
      ∙ unless-certified rows suppressed d found)
