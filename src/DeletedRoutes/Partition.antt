-- ===== src/DeletedRoutes/Partition.antt =====
-- `classify_deletions` of core/deleted_routes.py gives every requested id exactly one outcome.
use nso_adapter.Prelude.{
  ℕ, ◌+◌, ◌≡◌, refl, sym, ap, subst, ◌∙◌, inl, inr, Bool, true, false, not, ◌&&◌, ◌||◌, Option,
  none, some, is_some, List, [], ◌∷◌, ◌==◌, ==_iff, if◌then◌else◌, Bool-cases, arith,
}
use nso_adapter.DeletedRoutes.{
  StaticRouteIntent, DeletionRecord, DeletionPartition, elem, add, union, has_triple, triple_of,
  by_route_id, keys, put_genuine, genuine, remaining, residue, equivalence_class, claim, claims,
  leave, leftovers, classify_deletions, sorted_triples, unclaimed, is_empty,
}
use nso_adapter.DeletedRoutes.Sets.{or_absorbs, elem-at, elem-add, elem-union, elem-sorted}

-- The id is one of the request's.
unfoldable pub requested : ℕ → List DeletionRecord → Bool
requested id [] = false
requested id (r ∷ rest) = id == r.route_id || requested id rest

-- No id stands twice in the request.
unfoldable pub is_distinct : List DeletionRecord → Bool
unfolding requested
is_distinct [] = true
is_distinct (r ∷ rest) = not (requested r.route_id rest) && is_distinct rest

abbrev pub times : Bool → ℕ
times true = 1
times false = 0

-- In how many of the three lists an id stands.
unfoldable pub outcomes : DeletionPartition → ℕ → ℕ
outcomes part id =
    times (elem id part.executed) + times (elem id part.degraded) + times (elem id part.moot)

-- A row carries the id.
abbrev pub is_carried : List StaticRouteIntent → ℕ → Bool
is_carried rows id = is_some (by_route_id rows id)

put-keys :
    (rows : List StaticRouteIntent) (id n : ℕ) (o : Option StaticRouteIntent)
    (dict : List (ℕ × StaticRouteIntent))
    → elem id (keys (put_genuine n o dict)) ≡ ((is_some o && (id == n)) || elem id (keys dict))
unfolding keys elem
put-keys rows id n none dict = refl
put-keys rows id n (some row) dict = elim (Bool-cases (elem n (keys dict))) [
  | inl h ↦
      ap (λ b. elem id (keys (if b then dict else (n, row) ∷ dict))) h
      ∙ or_absorbs (id == n) (elem id (keys dict)) (elem-at id n (keys dict) true h)
  | inr h ↦ ap (λ b. elem id (keys (if b then dict else (n, row) ∷ dict))) h
]

at_id : (f : ℕ → Bool) (id n : ℕ) → (f n && (id == n)) ≡ (f id && (id == n))
at_id f id n = elim (Bool-cases (id == n)) [
  | inl e ↦ ap (λ x. f x && (id == n)) (sym ((==_iff id n).0 e))
  | inr e ↦ ground (arith, e)
]

gather : (h e q : Bool) → ((h && e) || (q && h)) ≡ ((e || q) && h)
gather true true q = refl
gather true false true = refl
gather true false false = refl
gather false true true = refl
gather false true false = refl
gather false false true = refl
gather false false false = refl

pub drop : (e q b : Bool) → (e ≡ true → b ≡ true) → (q && not b) ≡ ((e || q) && not b)
drop true true b h = refl
drop true false true h = refl
drop true false false h = cc (h refl)
drop false q b h = refl

pub keep : (e q b : Bool) → (e ≡ true → b ≡ false) → (e || (q && not b)) ≡ ((e || q) && not b)
keep true q true h = cc (h refl)
keep true q false h = refl
keep false q b h = refl

or_true : (a : Bool) → (a || true) ≡ true
or_true true = refl
or_true false = refl

both : (a b : Bool) → (a && b) ≡ true → (a ≡ true) × (b ≡ true)
both true b h = (refl, h)
both false b h = cc h

either_way {ℓ} : {P : Type ℓ} (a b : Bool) → (a || b) ≡ true → (a ≡ true → P) → (b ≡ true → P) → P
either_way true b h f g = f refl
either_way false b h f g = g h

pub genuine_lem :
    (rows : List StaticRouteIntent) (records : List DeletionRecord) (id : ℕ)
    → elem id (keys (genuine rows records)) ≡ (requested id records && is_carried rows id)
unfolding genuine keys elem requested
genuine_lem rows [] id = refl
genuine_lem rows (r ∷ rest) id =
    put-keys rows id r.route_id (by_route_id rows r.route_id) (genuine rows rest)
    ∙ ap (λ x. x || elem id (keys (genuine rows rest))) (at_id (is_carried rows) id r.route_id)
    ∙ ap (λ x. (is_carried rows id && (id == r.route_id)) || x) (genuine_lem rows rest id)
    ∙ gather (is_carried rows id) (id == r.route_id) (requested id rest)

pub remaining_lem :
    (bound : List ℕ) (records : List DeletionRecord) (id : ℕ)
    → requested id (remaining bound records) ≡ (requested id records && not (elem id bound))
unfolding remaining requested
remaining_lem bound [] id = refl
remaining_lem bound (r ∷ rest) id = elim (Bool-cases (elem r.route_id bound)) [
  | inl h ↦
      ap (λ b. requested id (if b then remaining bound rest else r ∷ remaining bound rest)) h
      ∙ remaining_lem bound rest id
      ∙ drop (id == r.route_id) (requested id rest) (elem id bound)
          (elem-at id r.route_id bound true h)
  | inr h ↦
      ap (λ b. requested id (if b then remaining bound rest else r ∷ remaining bound rest)) h
      ∙ ap (λ x. (id == r.route_id) || x) (remaining_lem bound rest id)
      ∙ keep (id == r.route_id) (requested id rest) (elem id bound)
          (elem-at id r.route_id bound false h)
]

absent : (b : Bool) → not b ≡ true → b ≡ false
absent true h = cc h
absent false h = refl

remaining_distinct :
    (bound : List ℕ) (records : List DeletionRecord)
    → is_distinct records ≡ true
    → is_distinct (remaining bound records) ≡ true
unfolding remaining is_distinct
remaining_distinct bound [] h = refl
remaining_distinct bound (r ∷ rest) h =
    let (new, later) = both (not (requested r.route_id rest)) (is_distinct rest) h in
    let others = remaining_distinct bound rest later in
    elim (Bool-cases (elem r.route_id bound)) [
      | inl e ↦ rw (e, others)
      | inr e ↦ rw (
        e,
        remaining_lem bound rest r.route_id,
        e,
        others,
        absent (requested r.route_id rest) new,
      )
    ]

class_step :
    (b : Bool) (id n : ℕ) (later : List ℕ) (q : Bool)
    → (elem id later ≡ true → q ≡ true)
    → elem id (if b then add n later else later) ≡ true
    → (id == n || q) ≡ true
class_step true id n later q k h =
    either_way (id == n) (elem id later) (sym (elem-add id n later) ∙ h) (λ e. rw e)
      (λ e. rw (k e, or_true (id == n)))
class_step false id n later q k h = rw (k h, or_true (id == n))

class_requested :
    (records : List DeletionRecord) (t : _) (id : ℕ)
    → elem id (equivalence_class records t) ≡ true
    → requested id records ≡ true
unfolding equivalence_class requested elem
class_requested [] t id h = h
class_requested (r ∷ rest) t id h =
    class_step (has_triple t r.triples) id r.route_id (equivalence_class rest t) (requested id rest)
      (class_requested rest t id) h

claim-requested :
    (records : List DeletionRecord) (row_id : ℕ) (class : List ℕ) (sets : List ℕ × List ℕ) (id : ℕ)
    → (elem id class ≡ true → requested id records ≡ true)
    → (elem id sets.1 ≡ true → requested id records ≡ true)
    → elem id (claim row_id class sets).1 ≡ true
    → requested id records ≡ true
claim-requested records row_id [] sets id hc hs h = hs h
claim-requested records row_id (n ∷ rest) (claimed, degraded) id hc hs h =
    either_way (elem id (n ∷ rest)) (elem id degraded) (sym (elem-union id (n ∷ rest) degraded) ∙ h)
      hc hs

pub claims-requested :
    (records : List DeletionRecord) (rows : List StaticRouteIntent) (id : ℕ)
    → elem id (claims records rows).1 ≡ true
    → requested id records ≡ true
unfolding claims elem
claims-requested records [] id h = cc h
claims-requested records (row ∷ rest) id h =
    claim-requested records row.id (equivalence_class records (triple_of row)) (claims records rest)
      id (class_requested records (triple_of row) id) (claims-requested records rest id) h

leave_step :
    (dead cautious : Bool) (n id : ℕ) (sets : List ℕ × List ℕ) (q d : Bool)
    → times (elem id sets.0) + times (elem id sets.1) ≡ times (q && not d)
    → ((id == n) ≡ true → d ≡ dead)
    → ((id == n) ≡ true → q ≡ false)
    → let (moot, conservative) = leave dead cautious n sets in
      times (elem id moot) + times (elem id conservative) ≡ times ((id == n || q) && not d)
leave_step true cautious n id (m, c) q d sum same new = elim (Bool-cases (id == n)) [
  | inl e ↦ rw (sum, same e, new e, e)
  | inr e ↦ rw (sum, e)
]
leave_step false true n id (m, c) q d sum same new = elim (Bool-cases (id == n)) [
  | inl e ↦
      let zero = sum ∙ ap (λ x. times (x && not d)) (new e) in
      let none_yet : times (elem id m) ≡ 0 = omega (arith, zero) in
      rw (elem-add id n c, e, same e, none_yet)
  | inr e ↦ rw (elem-add id n c, e, sum)
]
leave_step false false n id (m, c) q d sum same new = elim (Bool-cases (id == n)) [
  | inl e ↦
      let zero = sum ∙ ap (λ x. times (x && not d)) (new e) in
      let none_yet : times (elem id c) ≡ 0 = omega (arith, zero) in
      rw (elem-add id n m, e, same e, none_yet)
  | inr e ↦ rw (elem-add id n m, e, sum)
]

pub leftovers_lem :
    (degraded : List ℕ) (detached : Bool) (records : List DeletionRecord) (id : ℕ)
    → is_distinct records ≡ true
    → let (moot, conservative) = leftovers degraded detached records in
      times (elem id moot) + times (elem id conservative)
      ≡ times (requested id records && not (elem id degraded))
unfolding leftovers requested is_distinct elem
leftovers_lem degraded detached [] id h = refl
leftovers_lem degraded detached (r ∷ rest) id h =
    let (new, later) = both (not (requested r.route_id rest)) (is_distinct rest) h in
    leave_step (elem r.route_id degraded) (r.unverified && detached) r.route_id id
      (leftovers degraded detached rest) (requested id rest) (elem id degraded)
      (leftovers_lem degraded detached rest id later)
      (elem-at id r.route_id degraded (elem r.route_id degraded) refl)
      (λ e. subst (λ x. requested x rest ≡ false) (sym ((==_iff id r.route_id).0 e)) (absent _ new))

-- The three lists, of an id that is requested or not, bound or not, and so on.
sum_up :
    (q h d c m : Bool)
    → (d ≡ true → (q && not (q && h)) ≡ true)
    → times m + times c ≡ times ((q && not (q && h)) && not d)
    → times (q && h) + times (d || c) + times m ≡ times q
sum_up true true true c m k e = cc (k refl)
sum_up true true false c m k e = omega (arith, e)
sum_up true false true c m k e = omega (arith, e)
sum_up true false false c m k e = omega (arith, e)
sum_up false h true c m k e = cc (k refl)
sum_up false h false c m k e = omega (arith, e)

-- Of a request that names no id twice, every id that it names has exactly one outcome: it stands in
-- exactly one of the lists executed, degraded and moot; and no other id stands in any of them.
pub every_id_has_one_outcome :
    (records : List DeletionRecord) (removed_rows : List StaticRouteIntent) (id : ℕ)
    → is_distinct records ≡ true
    → outcomes (classify_deletions records removed_rows) id ≡ times (requested id records)
unfolding classify_deletions outcomes
every_id_has_one_outcome records rows id h =
    let bound = keys (genuine rows records) in
    let left = remaining bound records in
    let over = residue rows in
    let (claimed, degraded) = claims left over in
    let detached = not (is_empty (sorted_triples (unclaimed claimed over))) in
    let (moot, conservative) = leftovers degraded detached left in
    let asked =
      remaining_lem bound records id
      ∙ ap (λ b. requested id records && not b) (genuine_lem rows records id) in
    let sums =
      leftovers_lem degraded detached left id (remaining_distinct bound records h)
      ∙ ap (λ b. times (b && not (elem id degraded))) asked in
    rw (
      elem-sorted id bound,
      elem-sorted id (union degraded conservative),
      elem-sorted id moot,
      elem-union id degraded conservative,
      genuine_lem rows records id,
      sum_up (requested id records) (is_carried rows id) (elem id degraded) (elem id conservative)
          (elem id moot) (λ d. sym asked ∙ claims-requested left over id d) sums,
    )
