-- ===== src/DeletedRoutes/Classes.antt =====
-- `classify_deletions` of core/deleted_routes.py classifies by triple, not by the order of the ids.
use nso_adapter.Prelude.{
  ℕ, ◌≡◌, refl, ◌∙◌, inl, inr, Bool, true, false, not, ◌&&◌, ◌||◌, is_some, List, [], ◌∷◌, ◌==◌,
  Bool-cases, ap,
}
use nso_adapter.DeletedRoutes.{
  Triple, StaticRouteIntent, DeletionRecord, elem, union, has_triple, triple_of, keys, genuine,
  remaining, residue, equivalence_class, claim, claims, leftovers, classify_deletions,
  sorted_triples, unclaimed, is_empty, leave,
}
use nso_adapter.DeletedRoutes.Sets.{elem-at, elem-add, elem-union, elem-sorted}
use nso_adapter.DeletedRoutes.Partition.{requested, genuine_lem, drop, keep}
use nso_adapter.DeletedRoutes.Uncorrelated.{
  and_false, is_removed, removed_lem, leaves_uncorrelated, detached_lem,
}

-- A record of the id has the triple in its lineage.
unfoldable pub names : ℕ → Triple → List DeletionRecord → Bool
names id t [] = false
names id t (r ∷ rest) = (has_triple t r.triples && id == r.route_id) || names id t rest

-- The push removes a row without a route id whose triple is in the id's lineage.
unfoldable pub is_claimed : ℕ → List DeletionRecord → List StaticRouteIntent → Bool
unfolding names
is_claimed id records [] = false
is_claimed id records (row ∷ rest) =
    (not (is_some row.route_id) && names id (triple_of row) records) || is_claimed id records rest

class_names :
    (records : List DeletionRecord) (t : Triple) (id : ℕ)
    → elem id (equivalence_class records t) ≡ names id t records
unfolding equivalence_class names elem
class_names [] t id = refl
class_names (r ∷ rest) t id = elim (Bool-cases (has_triple t r.triples)) [
  | inl h ↦ rw (h, elem-add id r.route_id (equivalence_class rest t), class_names rest t id)
  | inr h ↦ rw (h, class_names rest t id)
]

second : (a b : Bool) → (a && b) ≡ true → b ≡ true
second true b h = h
second false b h = cc h

names-remaining :
    (bound : List ℕ) (records : List DeletionRecord) (t : Triple) (id : ℕ)
    → names id t (remaining bound records) ≡ (names id t records && not (elem id bound))
unfolding remaining names
names-remaining bound [] t id = refl
names-remaining bound (r ∷ rest) t id =
    let e = has_triple t r.triples && id == r.route_id in
    let here = second (has_triple t r.triples) (id == r.route_id) in
    elim (Bool-cases (elem r.route_id bound)) [
      | inl h ↦ rw (
        h,
        names-remaining bound rest t id,
        drop e (names id t rest) (elem id bound) (λ k. elem-at id r.route_id bound true h (here k)),
      )
      | inr h ↦ rw (
        h,
        names-remaining bound rest t id,
        keep e (names id t rest) (elem id bound)
            (λ k. elem-at id r.route_id bound false h (here k)),
      )
    ]

-- A record of the id says that its lineage is unverified.
unfoldable pub is_unverified : ℕ → List DeletionRecord → Bool
is_unverified id [] = false
is_unverified id (r ∷ rest) = (r.unverified && id == r.route_id) || is_unverified id rest

unverified-remaining :
    (bound : List ℕ) (records : List DeletionRecord) (id : ℕ)
    → is_unverified id (remaining bound records) ≡ (is_unverified id records && not (elem id bound))
unfolding remaining is_unverified
unverified-remaining bound [] id = refl
unverified-remaining bound (r ∷ rest) id =
    let e = r.unverified && id == r.route_id in
    let here = second r.unverified (id == r.route_id) in
    elim (Bool-cases (elem r.route_id bound)) [
      | inl h ↦ rw (
        h,
        unverified-remaining bound rest id,
        drop e (is_unverified id rest) (elem id bound)
            (λ k. elem-at id r.route_id bound true h (here k)),
      )
      | inr h ↦ rw (
        h,
        unverified-remaining bound rest id,
        keep e (is_unverified id rest) (elem id bound)
            (λ k. elem-at id r.route_id bound false h (here k)),
      )
    ]

claim_lem :
    (row_id : ℕ) (class : List ℕ) (sets : List ℕ × List ℕ) (id : ℕ)
    → elem id (claim row_id class sets).1 ≡ (elem id class || elem id sets.1)
unfolding elem
claim_lem row_id [] sets id = refl
claim_lem row_id (n ∷ rest) (claimed, degraded) id = elem-union id (n ∷ rest) degraded

shared : (a b c : Bool) → ((a && c) || (b && c)) ≡ ((a || b) && c)
shared true true true = refl
shared true false true = refl
shared true true false = refl
shared true false false = refl
shared false b c = refl

claims_lem :
    (bound : List ℕ) (records : List DeletionRecord) (rows : List StaticRouteIntent) (id : ℕ)
    → elem id (claims (remaining bound records) (residue rows)).1
      ≡ (is_claimed id records rows && not (elem id bound))
unfolding claims residue is_claimed elem
claims_lem bound records [] id = refl
claims_lem bound records (row ∷ rest) id = elim (Bool-cases (is_some row.route_id)) [
  | inl h ↦ rw (h, claims_lem bound records rest id)
  | inr h ↦
      let left = remaining bound records in
      rw (
        h,
        claim_lem row.id (equivalence_class left (triple_of row)) (claims left (residue rest)) id,
        class_names left (triple_of row) id,
        names-remaining bound records (triple_of row) id,
        claims_lem bound records rest id,
        shared (names id (triple_of row) records) (is_claimed id records rest)
            (not (elem id bound)),
      )
]

left_alone :
    {b : Bool} (dead detached : Bool) (n id : ℕ) (sets : List ℕ × List ℕ)
    → elem id sets.1 ≡ b
    → elem id (leave dead false n sets).1 ≡ b
left_alone true detached n id (m, c) k = k
left_alone false detached n id (m, c) k = k

leave_conservative :
    (dead u detached : Bool) (n id : ℕ) (sets : List ℕ × List ℕ) (q d : Bool)
    → elem id sets.1 ≡ ((q && detached) && not d)
    → ((id == n) ≡ true → d ≡ dead)
    → elem id (leave dead (u && detached) n sets).1 ≡ ((((u && id == n) || q) && detached) && not d)
leave_conservative dead false detached n id (m, c) q d k same =
    left_alone dead detached n id (m, c) k
leave_conservative dead true false n id (m, c) q d k same =
    left_alone dead false n id (m, c) k ∙ rw (and_false q, and_false ((id == n) || q))
leave_conservative false true true n id (m, c) q d k same = elim (Bool-cases (id == n)) [
  | inl e ↦ rw (elem-add id n c, e, same e)
  | inr e ↦ rw (elem-add id n c, e, k)
]
leave_conservative true true true n id (m, c) q d k same = elim (Bool-cases (id == n)) [
  | inl e ↦ rw (k, same e, and_false (q && true), and_false (((id == n) || q) && true))
  | inr e ↦ rw (e, k)
]

leftovers_conservative :
    (degraded : List ℕ) (detached : Bool) (records : List DeletionRecord) (id : ℕ)
    → elem id (leftovers degraded detached records).1
      ≡ ((is_unverified id records && detached) && not (elem id degraded))
unfolding leftovers is_unverified elem
leftovers_conservative degraded detached [] id = refl
leftovers_conservative degraded detached (r ∷ rest) id =
    leave_conservative (elem r.route_id degraded) r.unverified detached r.route_id id
      (leftovers degraded detached rest) (is_unverified id rest) (elem id degraded)
      (leftovers_conservative degraded detached rest id)
      (elem-at id r.route_id degraded (elem r.route_id degraded) refl)

verdict :
    (g k u d : Bool)
    → ((k && not g) || (((u && not g) && d) && not (k && not g))) ≡ (not g && (k || (u && d)))
verdict true true true true = refl
verdict true true true false = refl
verdict true true false d = refl
verdict true false true true = refl
verdict true false true false = refl
verdict true false false d = refl
verdict false true u d = refl
verdict false false true true = refl
verdict false false true false = refl
verdict false false false d = refl

-- The verdicts, whatever the order of the request and of the rows. An id is executed exactly if it
-- is requested and a removed row carries it. An id is degraded exactly if it is not executed and
-- either the push removes a row without a route id whose triple is in the id's lineage, or the id's
-- lineage is unverified and the push removes an uncorrelated row: one without a route id, such that
-- no row of its id without a route id has its triple in the lineage of a requested id that no
-- removed row carries.
pub verdicts_by_class :
    (records : List DeletionRecord) (removed_rows : List StaticRouteIntent) (id : ℕ)
    → let part = classify_deletions records removed_rows in
      (elem id part.executed ≡ (requested id records && is_removed id removed_rows))
      × (elem id part.degraded ≡ (
          not (requested id records && is_removed id removed_rows)
          && (is_claimed id records removed_rows
              || (is_unverified id records && leaves_uncorrelated records removed_rows))))
unfolding classify_deletions
verdicts_by_class records rows id =
    let bound = keys (genuine rows records) in
    let left = remaining bound records in
    let (claimed, degraded) = claims left (residue rows) in
    let detached = not (is_empty (sorted_triples (unclaimed claimed (residue rows)))) in
    let conservative = (leftovers degraded detached left).1 in
    let executes =
      genuine_lem rows records id ∙ ap (λ b. requested id records && b) (removed_lem rows id) in
    (
      elem-sorted id bound ∙ executes,
      elem-sorted id (union degraded conservative)
          ∙ elem-union id degraded conservative
          ∙ rw (
            leftovers_conservative degraded detached left id,
            claims_lem bound records rows id,
            unverified-remaining bound records id,
            verdict (elem id bound) (is_claimed id records rows) (is_unverified id records)
                detached,
            executes,
            detached_lem records rows,
          ),
    )
