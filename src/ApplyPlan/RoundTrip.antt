-- ===== src/ApplyPlan/RoundTrip.antt =====
-- A frozen apply plan of core/static_route_plan.py, hydrated over the rows that it was frozen from.
use nso_adapter.Prelude.{
  ℕ, ◌≡◌, refl, sym, ap, subst, ◌∙◌, inl, inr, Bool, true, false, not, ◌&&◌, ◌||◌, Option, none,
  some, is_some, List, [], ◌∷◌, ◌==◌, if◌then◌else◌, map, Bool-cases, and-parts, and-both, or-parts,
  not-parts, ==_iff, arith,
}
use nso_adapter.Results.{ok, >>=-eq-ok, ok-injective}
use nso_adapter.DeletedRoutes.{Triple, has_triple, triple_eq, elem, sorted_triples}
use nso_adapter.DeletedRoutes.Sets.{or_absorbs}
use nso_adapter.DeletedRoutes.Triples.{has-at, has-sorted}
use nso_adapter.RoutePlan.{RouteRow, Tombstone, row_triple}
use nso_adapter.ApplyPlan.{
  SrPlan, add_triple, stored_key, id_of, tombstone_id, sr_key, accepted_rows, any_open,
  add_predecessors, add_owed, watermark, cas_of, mode_of, classify_apply_plan, record_cas,
  serialize_apply_plan,
}
use nso_adapter.ApplyPlan.Hydrate.{
  by_id, collect, hydrate_cas, hydrate_keys, all_elem, cas_row_id, is_mode, hydrate_apply_plan,
}

-- No id stands twice.
unfoldable pub distinct_ids : List ℕ → Bool
unfolding elem
distinct_ids [] = true
distinct_ids (n ∷ rest) = not (elem n rest) && distinct_ids rest

module _ {ℓ} {A : Type ℓ} (key : A → ℕ) where
  -- Each item of a list is found under its own key.
  abbrev pub Finds : (ℕ → Option A) → List A → Type ℓ
  Finds find [] = Unit
  Finds find (a ∷ rest) = (find (key a) ≡ some a) × Finds find rest

  pub collect-Finds :
      (find : ℕ → Option A) (l : List A) → Finds find l → collect find (map key l) ≡ some l
  unfolding collect
  collect-Finds find [] h = refl
  collect-Finds find (a ∷ rest) h = rw (h.0, collect-Finds find rest h.1)

  not_there : (l : List A) (n : ℕ) → elem n (map key l) ≡ false → by_id key l n ≡ none
  unfolding by_id elem
  not_there [] n h = refl
  not_there (a ∷ rest) n h =
      let (other, later) = or-parts (n == key a) (elem n (map key rest)) h in
      let unlike : (key a == n) ≡ false = ground (arith, other) in
      rw (not_there rest n later, unlike)

  below :
      (a : A) (rest sub : List A) → Finds (by_id key rest) sub → Finds (by_id key (a ∷ rest)) sub
  unfolding by_id
  below a rest [] h = tt
  below a rest (s ∷ sub) h = (rw h.0, below a rest sub h.1)

  itself : (n : ℕ) → (n == n) ≡ true
  itself n = (==_iff n n).1 refl

  pub by_id-Finds : (l : List A) → distinct_ids (map key l) ≡ true → Finds (by_id key l) l
  unfolding by_id distinct_ids
  by_id-Finds [] h = tt
  by_id-Finds (a ∷ rest) h =
      let (new, later) =
        and-parts (not (elem (key a) (map key rest))) (distinct_ids (map key rest)) h in
      (
        rw (not_there rest (key a) (not-parts _ new), itself (key a)),
        below a rest rest (by_id-Finds rest later),
      )

accepted-Finds :
    (find : ℕ → Option RouteRow) (rows : List RouteRow)
    → Finds id_of find rows
    → Finds id_of find (accepted_rows rows)
unfolding accepted_rows
accepted-Finds find [] h = tt
accepted-Finds find (row ∷ rest) h = elim (Bool-cases (is_some row.accepted_at)) [
  | inl e ↦
      subst (λ b. Finds id_of find (if b then row ∷ accepted_rows rest else accepted_rows rest))
        (sym e) (h.0, accepted-Finds find rest h.1)
  | inr e ↦
      subst (λ b. Finds id_of find (if b then row ∷ accepted_rows rest else accepted_rows rest))
        (sym e) (accepted-Finds find rest h.1)
]

cas_again :
    (selected : List ℕ) (rows : List RouteRow)
    → all_elem (map id_of rows) selected ≡ true
    → hydrate_cas selected (map record_cas (map cas_of rows)) ≡ ok (map cas_of rows)
unfolding hydrate_cas sr_key all_elem row_triple
cas_again selected [] h = refl
cas_again selected (row ∷ rest) h =
    let (here, later) = and-parts (elem row.id selected) (all_elem (map id_of rest) selected) h in
    rw (here, cas_again selected rest later)

more_elem : (a s : List ℕ) (n : ℕ) → all_elem a s ≡ true → all_elem a (n ∷ s) ≡ true
unfolding all_elem elem
more_elem [] s n h = refl
more_elem (m ∷ a) s n h =
    let (here, later) = and-parts (elem m s) (all_elem a s) h in
    and-both (rw here (or_true (m == n))) (more_elem a s n later)
  where
    or_true : (b : Bool) → (b || true) ≡ true
    or_true true = refl
    or_true false = refl

own_elem : (a : List ℕ) → all_elem a a ≡ true
unfolding all_elem elem
own_elem [] = refl
own_elem (n ∷ a) =
    and-both (ap (λ b. b || elem n a) ((==_iff n n).1 refl)) (more_elem a a n (own_elem a))

cas_ids : (rows : List RouteRow) → map cas_row_id (map cas_of rows) ≡ map id_of rows
cas_ids [] = refl
cas_ids (row ∷ rest) = ap (λ l. row.id ∷ l) (cas_ids rest)

pub has-add :
    (s t : Triple) (l : List Triple)
    → has_triple s (add_triple t l) ≡ (triple_eq s t || has_triple s l)
unfolding add_triple has_triple
has-add s t l = elim (Bool-cases (has_triple t l)) [
  | inl h ↦
      ap (λ b. has_triple s (if b then l else t ∷ l)) h
      ∙ or_absorbs (triple_eq s t) (has_triple s l) (has-at s t l true h)
  | inr h ↦ ap (λ b. has_triple s (if b then l else t ∷ l)) h
]

pub keys_again :
    (keys : List Triple)
    → (set : List Triple) × (hydrate_keys (map stored_key keys) ≡ ok set)
      × ((t : Triple) → has_triple t set ≡ has_triple t keys)
unfolding hydrate_keys sr_key has_triple
keys_again [] = ([], refl, λ t. refl)
keys_again (k ∷ rest) =
    let (set, e, same) = keys_again rest in
    (add_triple k set, rw e, λ t. has-add t k set ∙ ap (λ b. triple_eq t k || b) (same t))

mode_again : (b : Bool) → is_mode (mode_of b) ≡ true
mode_again true = refl
mode_again false = refl

-- The plans say the same: all alike but the allowed keys, which are the same set.
pub record SamePlan (p q : SrPlan) : Type 0 where
  pub mode : p.mode ≡ q.mode
  pub rows : p.rows ≡ q.rows
  pub tombstones : p.tombstones ≡ q.tombstones
  pub cas : p.cas ≡ q.cas
  pub mark : p.tombstone_id_watermark ≡ q.tombstone_id_watermark
  pub allowed : (t : Triple) → has_triple t p.allowed ≡ has_triple t q.allowed

hydrates :
    (opens : Bool) (rows : List RouteRow) (tombstones : List Tombstone) (allowed : List Triple)
    (mark : ℕ)
    → distinct_ids (map id_of rows) ≡ true
    → distinct_ids (map tombstone_id tombstones) ≡ true
    → let plan : SrPlan = record {
      mode = mode_of opens;
      rows = accepted_rows rows;
      allowed = allowed;
      tombstones = tombstones;
      cas = map cas_of (accepted_rows rows);
      tombstone_id_watermark = mark;
    } in
      (again : SrPlan) × (hydrate_apply_plan (serialize_apply_plan plan) rows tombstones ≡ ok again)
      × SamePlan again plan
unfolding hydrate_apply_plan serialize_apply_plan
hydrates opens rows tombstones allowed mark d d' =
    let accepted = accepted_rows rows in
    let (set, e, same) = keys_again (sorted_triples allowed) in
    let found =
      collect-Finds id_of (by_id id_of rows) accepted
        (accepted-Finds (by_id id_of rows) rows (by_id-Finds id_of rows d)) in
    let found' =
      collect-Finds tombstone_id (by_id tombstone_id tombstones) tombstones
        (by_id-Finds tombstone_id tombstones d') in
    (
      record {
        mode = mode_of opens;
        rows = accepted;
        allowed = set;
        tombstones = tombstones;
        cas = map cas_of accepted;
        tombstone_id_watermark = mark;
      },
      rw (
        mode_again opens,
        found,
        found',
        cas_again (map id_of accepted) accepted (own_elem (map id_of accepted)),
        cas_ids accepted,
        own_elem (map id_of accepted),
        e,
      ),
      record {
        mode = refl;
        rows = refl;
        tombstones = refl;
        cas = refl;
        mark = refl;
        allowed = λ t. same t ∙ has-sorted t allowed;
      },
    )

-- A plan that was classified from rows and tombstones with distinct ids is recorded and hydrated,
-- over the same rows and tombstones, without loss: the hydration returns a plan with the same mode,
-- rows, tombstones, coordinates, watermark and set of allowed keys.
pub hydrates_what_was_recorded :
    (rows : List RouteRow) (tombstones : List Tombstone) {plan : SrPlan}
    → distinct_ids (map id_of rows) ≡ true
    → distinct_ids (map tombstone_id tombstones) ≡ true
    → classify_apply_plan rows tombstones ≡ ok plan
    → (again : SrPlan) × (hydrate_apply_plan (serialize_apply_plan plan) rows tombstones ≡ ok again)
      × SamePlan again plan
unfolding classify_apply_plan
hydrates_what_was_recorded rows tombstones d d' h =
    let (opens, _, h1) = >>=-eq-ok (any_open (accepted_rows rows)) _ h in
    let (replaced, _, h2) = >>=-eq-ok (add_predecessors (accepted_rows rows) []) _ h1 in
    let (allowed, _, h3) = >>=-eq-ok (add_owed tombstones replaced) _ h2 in
    rw (← ok-injective h3) (hydrates opens rows tombstones allowed (watermark tombstones) d d')
