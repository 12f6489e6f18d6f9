-- ===== src/DeletedRoutes/Uncorrelated.antt =====
-- When `classify_deletions` of core/deleted_routes.py leaves a removed row uncorrelated, said of the
-- request and of the rows.
use nso_adapter.Prelude.{
  ℕ, ◌≡◌, refl, ◌∙◌, inl, inr, Bool, true, false, not, ◌&&◌, ◌||◌, is_some, List, [], ◌∷◌, ◌==◌,
  Bool-cases, Option, none, some, ap, sym, arith, if◌then◌else◌,
}
use nso_adapter.DeletedRoutes.{
  Triple, StaticRouteIntent, DeletionRecord, elem, has_triple, triple_of, keys, genuine, remaining,
  residue, equivalence_class, claim, claims, triple_leb, sorted_triples, unclaimed, is_empty,
  carries, by_route_id, later_or, add, insert_triple,
}
use nso_adapter.DeletedRoutes.Sets.{elem-add}
use nso_adapter.DeletedRoutes.Partition.{requested, is_carried, genuine_lem}

pub and_false : (a : Bool) → (a && false) ≡ false
and_false true = refl
and_false false = refl

-- A removed row carries the id.
unfoldable pub is_removed : ℕ → List StaticRouteIntent → Bool
is_removed id [] = false
is_removed id (row ∷ rest) = carries id row.route_id || is_removed id rest

pub removed_lem : (rows : List StaticRouteIntent) (id : ℕ) → is_carried rows id ≡ is_removed id rows
unfolding by_route_id is_removed
removed_lem [] id = refl
removed_lem (row ∷ rest) id =
    later_some (by_route_id rest id) (carries id row.route_id)
    ∙ ap (λ b. carries id row.route_id || b) (removed_lem rest id)
  where
    later_some :
        (o : Option StaticRouteIntent) (b : Bool)
        → is_some (later_or o (if b then some row else none)) ≡ (b || is_some o)
    later_some none true = refl
    later_some none false = refl
    later_some (some _) true = refl
    later_some (some _) false = refl

-- A record whose id no removed row carries has the triple in its lineage.
unfoldable pub named_by_unbound : Triple → List DeletionRecord → List StaticRouteIntent → Bool
unfolding is_removed
named_by_unbound t [] removed = false
named_by_unbound t (r ∷ rest) removed =
    (has_triple t r.triples && not (is_removed r.route_id removed))
    || named_by_unbound t rest removed

-- One of the rows has the row's id, no route id, and such a triple.
unfoldable pub is_correlated :
    ℕ → List DeletionRecord → List StaticRouteIntent → List StaticRouteIntent → Bool
unfolding named_by_unbound
is_correlated row_id records removed [] = false
is_correlated row_id records removed (row ∷ rest) =
    (not (is_some row.route_id)
      && ((row_id == row.id) && named_by_unbound (triple_of row) records removed))
    || is_correlated row_id records removed rest

-- Some row without a route id is not correlated.
unfoldable pub leaves_row :
    List DeletionRecord → List StaticRouteIntent → List StaticRouteIntent → Bool
unfolding is_correlated
leaves_row records removed [] = false
leaves_row records removed (row ∷ rest) =
    (not (is_some row.route_id) && not (is_correlated row.id records removed removed))
    || leaves_row records removed rest

abbrev pub leaves_uncorrelated : List DeletionRecord → List StaticRouteIntent → Bool
leaves_uncorrelated records removed = leaves_row records removed removed

is_empty-add : (n : ℕ) (s : List ℕ) → is_empty (add n s) ≡ false
unfolding add elem
is_empty-add n [] = refl
is_empty-add n (m ∷ s) = elim (Bool-cases (elem n (m ∷ s))) [
  | inl e ↦ rw e refl
  | inr e ↦ rw e refl
]

class_unbound :
    (bound : List ℕ) (removed : List StaticRouteIntent) (records : List DeletionRecord) (t : Triple)
    → ((n : ℕ) → requested n records ≡ true → elem n bound ≡ is_removed n removed)
    → not (is_empty (equivalence_class (remaining bound records) t))
      ≡ named_by_unbound t records removed
unfolding equivalence_class remaining named_by_unbound requested
class_unbound bound removed [] t same = refl
class_unbound bound removed (r ∷ rest) t same =
    let here : elem r.route_id bound ≡ is_removed r.route_id removed =
      same r.route_id (own (r.route_id) (requested r.route_id rest)) in
    let later =
      class_unbound bound removed rest t (λ n q. same n (rw q (or_last (n == r.route_id)))) in
    elim (Bool-cases (elem r.route_id bound)) [
      | inl e ↦ rw (e, sym here ∙ e, and_false (has_triple t r.triples), later)
      | inr e ↦ elim (Bool-cases (has_triple t r.triples)) [
        | inl h ↦ rw (
          e,
          sym here ∙ e,
          h,
          is_empty-add r.route_id (equivalence_class (remaining bound rest) t),
        )
        | inr h ↦ rw (e, h, later)
      ]
    ]
  where
    own : (n : ℕ) (b : Bool) → (n == n || b) ≡ true
    own n b = ground arith

    or_last : (a : Bool) → (a || true) ≡ true
    or_last true = refl
    or_last false = refl

claim_row :
    (row_id : ℕ) (class : List ℕ) (sets : List ℕ × List ℕ) (i : ℕ)
    → elem i (claim row_id class sets).0 ≡ ((i == row_id && not (is_empty class)) || elem i sets.0)
claim_row row_id [] sets i = rw (and_false (i == row_id)) refl
claim_row row_id (n ∷ rest) (claimed, degraded) i =
    elem-add i row_id claimed ∙ ap (λ b. b || elem i claimed) (sym (and_true (i == row_id)))
  where
    and_true : (a : Bool) → (a && true) ≡ a
    and_true true = refl
    and_true false = refl

-- The rows that the pass claims are the correlated ones.
claims_row :
    (bound : List ℕ) (records : List DeletionRecord) (removed rows : List StaticRouteIntent) (i : ℕ)
    → ((n : ℕ) → requested n records ≡ true → elem n bound ≡ is_removed n removed)
    → elem i (claims (remaining bound records) (residue rows)).0
      ≡ is_correlated i records removed rows
unfolding claims residue is_correlated elem
claims_row bound records removed [] i same = refl
claims_row bound records removed (row ∷ rest) i same = elim (Bool-cases (is_some row.route_id)) [
  | inl e ↦ rw (e, claims_row bound records removed rest i same)
  | inr e ↦
      let left = remaining bound records in
      rw (
        e,
        claim_row row.id (equivalence_class left (triple_of row)) (claims left (residue rest)) i,
        class_unbound bound removed records (triple_of row) same,
        claims_row bound records removed rest i same,
      )
]

unclaimed_lem :
    (claimed : List ℕ) (records : List DeletionRecord) (removed rows : List StaticRouteIntent)
    → ((i : ℕ) → elem i claimed ≡ is_correlated i records removed removed)
    → not (is_empty (unclaimed claimed (residue rows))) ≡ leaves_row records removed rows
unfolding unclaimed residue leaves_row
unclaimed_lem claimed records removed [] same = refl
unclaimed_lem claimed records removed (row ∷ rest) same =
    let later = unclaimed_lem claimed records removed rest same in
    elim (Bool-cases (is_some row.route_id)) [
      | inl e ↦ rw (e, later)
      | inr e ↦ elim (Bool-cases (elem row.id claimed)) [
        | inl c ↦ rw (e, c, sym (same row.id) ∙ c, later)
        | inr c ↦ rw (e, c, sym (same row.id) ∙ c)
      ]
    ]

is_empty-sorted : (l : List Triple) → is_empty (sorted_triples l) ≡ is_empty l
unfolding sorted_triples insert_triple
is_empty-sorted [] = refl
is_empty-sorted (t ∷ rest) = inserted (sorted_triples rest)
  where
    inserted : (l : List Triple) → is_empty (insert_triple t l) ≡ false
    inserted [] = refl
    inserted (a ∷ l) = elim (Bool-cases (triple_leb t a)) [ inl e ↦ rw e refl | inr e ↦ rw e refl ]

bound_removed :
    (records : List DeletionRecord) (rows : List StaticRouteIntent) (n : ℕ)
    → requested n records ≡ true
    → elem n (keys (genuine rows records)) ≡ is_removed n rows
bound_removed records rows n asked =
    genuine_lem rows records n ∙ ap (λ b. b && is_carried rows n) asked ∙ removed_lem rows n

-- What `uncorrelated` is not empty by.
pub detached_lem :
    (records : List DeletionRecord) (rows : List StaticRouteIntent)
    → let left = remaining (keys (genuine rows records)) records in
      not (is_empty (sorted_triples (unclaimed (claims left (residue rows)).0 (residue rows))))
      ≡ leaves_uncorrelated records rows
detached_lem records rows =
    let bound = keys (genuine rows records) in
    let claimed = (claims (remaining bound records) (residue rows)).0 in
    ap not (is_empty-sorted (unclaimed claimed (residue rows)))
    ∙ unclaimed_lem claimed records rows rows
        (λ i. claims_row bound records rows rows i (bound_removed records rows))
