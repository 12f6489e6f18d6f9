-- ===== src/ApplyPlan/Authority.antt =====
-- What an apply plan of core/static_route_plan.py may remove.
use nso_adapter.Prelude.{
  ℕ, ◌≤◌, ◌≡◌, refl, sym, ap, subst, ◌∙◌, inl, inr, Bool, true, false, not, ◌&&◌, ◌||◌, Option,
  none, some, is_some, List, [], ◌∷◌, if◌then◌else◌, Bool-cases, Option-cases, arith, str_eq,
}
use nso_adapter.Results.{Result, ok, >>=-eq-ok, ok-injective}
use nso_adapter.DeletedRoutes.{Triple, has_triple, triple_eq, is_empty}
use nso_adapter.DeletedRoutes.Triples.{triple_eq_refl}
use nso_adapter.RoutePlan.{
  RouteRow, Tombstone, tombstone_triple, as_triple, predecessor, replacement_open,
}
use nso_adapter.ApplyPlan.{
  SrPlan, accepted_rows, add_triple, add_found, any_open, add_predecessors, add_owed, mode_of,
  watermark, classify_apply_plan,
}
use nso_adapter.ApplyPlan.RoundTrip.{has-add}

or_right : (a b : Bool) → b ≡ true → (a || b) ≡ true
or_right true b h = refl
or_right false b h = h

or_left : (a b : Bool) → a ≡ true → (a || b) ≡ true
or_left a b h = ap (λ x. x || b) h

keeps_add :
    (k t : Triple) (l : List Triple) → has_triple k l ≡ true → has_triple k (add_triple t l) ≡ true
keeps_add k t l h = has-add k t l ∙ or_right (triple_eq k t) (has_triple k l) h

holds_added : (t : Triple) (l : List Triple) → has_triple t (add_triple t l) ≡ true
holds_added t l = has-add t t l ∙ or_left (triple_eq t t) (has_triple t l) (triple_eq_refl t)

keeps_found :
    (k : Triple) (o : Option Triple) (l : List Triple)
    → has_triple k l ≡ true
    → has_triple k (add_found o l) ≡ true
keeps_found k none l h = h
keeps_found k (some t) l h = keeps_add k t l h

-- A key that was found is among the keys.
abbrev pub HasFound : Option Triple → List Triple → Type 0
HasFound none l = Unit
HasFound (some t) l = has_triple t l ≡ true

keeps_owed :
    (k : Triple) (tombs : List Tombstone) (start : List Triple) {allowed : List Triple}
    → has_triple k start ≡ true
    → add_owed tombs start ≡ ok allowed
    → has_triple k allowed ≡ true
unfolding add_owed
keeps_owed k [] start h e = subst (λ l. has_triple k l ≡ true) (ok-injective e) h
keeps_owed k (tomb ∷ rest) start h e =
    let (deployed, _, e') = >>=-eq-ok (as_triple tomb.deployed_key) _ e in
    keeps_owed k rest (add_found deployed (add_triple (tombstone_triple tomb) start))
      (keeps_found k deployed _ (keeps_add k (tombstone_triple tomb) start h)) e'

-- The keys that a tombstone rendered and that were deployed for it are among the keys.
pub record Owes (keys : List Triple) (tomb : Tombstone) : Type 0 where
  pub deployed : Option Triple
  pub reads : as_triple tomb.deployed_key ≡ ok deployed
  pub rendered : has_triple (tombstone_triple tomb) keys ≡ true
  pub found : HasFound deployed keys

abbrev pub OwesAll : List Triple → List Tombstone → Type 0
OwesAll keys [] = Unit
OwesAll keys (tomb ∷ rest) = Owes keys tomb × OwesAll keys rest

-- No tombstone's id is above the number.
abbrev pub Below : ℕ → List Tombstone → Type 0
Below n [] = Unit
Below n (tomb ∷ rest) = (tomb.id ≤ n) × Below n rest

found_added : (o : Option Triple) (l : List Triple) → HasFound o (add_found o l)
found_added none l = tt
found_added (some t) l = holds_added t l

found_kept :
    (o : Option Triple) (tombs : List Tombstone) (start : List Triple) {allowed : List Triple}
    → HasFound o start
    → add_owed tombs start ≡ ok allowed
    → HasFound o allowed
found_kept none tombs start h e = tt
found_kept (some t) tombs start h e = keeps_owed t tombs start h e

pub owed_held :
    (tombs : List Tombstone) (start : List Triple) {allowed : List Triple}
    → add_owed tombs start ≡ ok allowed
    → OwesAll allowed tombs
unfolding add_owed
owed_held [] start e = tt
owed_held (tomb ∷ rest) start e =
    let (deployed, reads, e') = >>=-eq-ok (as_triple tomb.deployed_key) _ e in
    let before = add_triple (tombstone_triple tomb) start in
    (
      record {
        deployed = deployed;
        reads = reads;
        rendered =
            keeps_owed (tombstone_triple tomb) rest (add_found deployed before)
              (keeps_found _ deployed before (holds_added (tombstone_triple tomb) start)) e';
        found =
            found_kept deployed rest (add_found deployed before) (found_added deployed before) e';
      },
      owed_held rest (add_found deployed before) e',
    )

watermark-Below : (n : ℕ) (tombs : List Tombstone) → watermark tombs ≤ n → Below n tombs
unfolding watermark
watermark-Below n [] h = tt
watermark-Below n (tomb ∷ rest) h = (omega arith, watermark-Below n rest (omega arith))

-- A plan covers every tombstone of the device: the keys that the deletion still owes, the rendered
-- and the deployed one, are among the keys that the document may drop, and the watermark is not
-- below the tombstone's id.
pub every_tombstone_is_covered :
    (rows : List RouteRow) (tombstones : List Tombstone) {plan : SrPlan}
    → classify_apply_plan rows tombstones ≡ ok plan
    → OwesAll plan.allowed tombstones × Below plan.tombstone_id_watermark tombstones
unfolding classify_apply_plan
every_tombstone_is_covered rows tombstones {plan} h =
    let (opens, _, h1) = >>=-eq-ok (any_open (accepted_rows rows)) _ h in
    let (replaced, _, h2) = >>=-eq-ok (add_predecessors (accepted_rows rows) []) _ h1 in
    let (allowed, e, h3) = >>=-eq-ok (add_owed tombstones replaced) _ h2 in
    let same = ok-injective h3 in
    (
      owed_held tombstones replaced (e ∙ ap (λ (p : SrPlan). ok p.allowed) same),
      watermark-Below plan.tombstone_id_watermark tombstones (
          subst (λ (p : SrPlan). watermark tombstones ≤ p.tombstone_id_watermark) same
            (omega arith)),
    )

-- The start of the keys stays, and a row is open exactly if it adds a key.
grows_found :
    (o : Option Triple) (l : List Triple)
    → is_empty (add_found o l) ≡ (not (is_some o) && is_empty l)
unfolding add_triple
grows_found none l = refl
grows_found (some t) [] = unfold has_triple in refl
grows_found (some t) (a ∷ l) = elim (Bool-cases (has_triple t (a ∷ l))) [
  | inl e ↦ ap (λ b. is_empty (if b then a ∷ l else t ∷ a ∷ l)) e
  | inr e ↦ ap (λ b. is_empty (if b then a ∷ l else t ∷ a ∷ l)) e
]

stays_filled :
    (rows : List RouteRow) (start : List Triple) {allowed : List Triple}
    → is_empty start ≡ false
    → add_predecessors rows start ≡ ok allowed
    → is_empty allowed ≡ false
unfolding add_predecessors
stays_filled [] start h e = ap is_empty (sym (ok-injective e)) ∙ h
stays_filled (row ∷ rest) start h e =
    let (deployed, _, e') = >>=-eq-ok (predecessor row) _ e in
    stays_filled rest (add_found deployed start)
      (grows_found deployed start
        ∙ ap (λ b. not (is_some deployed) && b) h
        ∙ and_false (not (is_some deployed)))
      e'
  where
    and_false : (b : Bool) → (b && false) ≡ false
    and_false true = refl
    and_false false = refl

opens_iff_grows :
    (rows : List RouteRow) (start : List Triple) {opens : Bool} {allowed : List Triple}
    → any_open rows ≡ ok opens
    → add_predecessors rows start ≡ ok allowed
    → is_empty allowed ≡ (not opens && is_empty start)
unfolding any_open add_predecessors replacement_open
opens_iff_grows [] start h e = rw (← ok-injective h, ← ok-injective e)
opens_iff_grows (row ∷ rest) start {opens} {allowed} h e =
    let (deployed, p, e') = >>=-eq-ok (predecessor row) _ e in
    elim (Option-cases deployed) [
      | inl none_found ↦
          opens_iff_grows rest start (rw (p, none_found) at h)
            (ap (λ o. add_predecessors rest (add_found o start)) (sym none_found) ∙ e')
      | inr (t, found) ↦
          let opened : ◌≡◌ {A = Result Bool} (ok true) (ok opens) = rw (p, found) at h in
          stays_filled rest (add_found deployed start)
            (grows_found deployed start ∙ ap (λ o. not (is_some o) && is_empty start) found) e'
          ∙ ap (λ b. not b && is_empty start) (ok-injective opened)
    ]

mode_says : (opens : Bool) → str_eq (mode_of opens) "PUT" ≡ opens
mode_says true = refl
mode_says false = refl

-- Of a device without tombstones, a plan is a replacement (`PUT`) exactly if it allows some key to
-- be removed.
pub replaces_iff_authorized :
    (rows : List RouteRow) {plan : SrPlan}
    → classify_apply_plan rows [] ≡ ok plan
    → str_eq plan.mode "PUT" ≡ not (is_empty plan.allowed)
unfolding classify_apply_plan add_owed
replaces_iff_authorized rows {plan} h =
    let (opens, o, h1) = >>=-eq-ok (any_open (accepted_rows rows)) _ h in
    let (replaced, r, h2) = >>=-eq-ok (add_predecessors (accepted_rows rows) []) _ h1 in
    let same = ok-injective h2 in
    sym (ap (λ (p : SrPlan). str_eq p.mode "PUT") same)
    ∙ mode_says opens
    ∙ twice opens
    ∙ sym (ap not (opens_iff_grows (accepted_rows rows) [] o r))
    ∙ ap (λ (p : SrPlan). not (is_empty p.allowed)) same
  where
    twice : (b : Bool) → b ≡ not (not b && true)
    twice true = refl
    twice false = refl
