-- ===== src/DeletedRoutes.antt =====
-- `classify_deletions` of core/deleted_routes.py: what a static-route push's deletion authority
-- amounts to. A set is a list, read by membership; a dict is a list of keys and values.
pub mod Sets
pub mod Triples
pub mod Partition
pub mod Uncorrelated
pub mod Classes
mod Tests
use nso_adapter.Prelude.{
  ℕ, String, Bool, true, false, not, ◌&&◌, ◌||◌, Option, none, some, is_some, List, [], ◌∷◌, ◌==◌,
  leb, str_eq, if◌then◌else◌,
}
use Prim.Native.Nat.{Ordering}
use Prim.Native.String.{compare as compare_text}

-- `Triple` of core/static_route_plan.py: vrf, prefix, next hop.
abbrev pub Triple : Type 0
Triple = String × String × String

-- What the classifier reads of a `StaticRouteIntent` row (store/models.py).
pub record StaticRouteIntent : Type 0 where
  pub id : ℕ
  pub route_id : Option ℕ
  pub vrf : Option String
  pub prefix : Option String
  pub next_hop : Option String

abbrev pub or_empty : Option String → String
or_empty none = ""
or_empty (some text) = text

unfoldable pub triple_of : StaticRouteIntent → Triple
triple_of row = (or_empty row.vrf, or_empty row.prefix, or_empty row.next_hop)

pub record DeletionRecord : Type 0 where
  pub route_id : ℕ
  pub triples : List Triple
  pub unverified : Bool

pub record DeletionPartition : Type 0 where
  pub executed : List ℕ
  pub degraded : List ℕ
  pub moot : List ℕ
  pub uncorrelated : List Triple
  pub genuine_row_ids : List ℕ

unfoldable pub elem : ℕ → List ℕ → Bool
elem n [] = false
elem n (a ∷ rest) = n == a || elem n rest

-- `set.add`
unfoldable pub add : ℕ → List ℕ → List ℕ
unfolding elem
add n s = if elem n s then s else n ∷ s

-- `a | b`
unfoldable pub union : List ℕ → List ℕ → List ℕ
union [] s = s
union (n ∷ rest) s = add n (union rest s)

abbrev pub triple_eq : Triple → Triple → Bool
triple_eq (a, b, c) (a', b', c') = str_eq a a' && (str_eq b b' && str_eq c c')

unfoldable pub has_triple : Triple → List Triple → Bool
has_triple t [] = false
has_triple t (a ∷ rest) = triple_eq t a || has_triple t rest

-- `sorted`, on numbers and on triples.
unfoldable pub insert : ℕ → List ℕ → List ℕ
insert n [] = n ∷ []
insert n (a ∷ rest) = let later = insert n rest in if leb n a then n ∷ a ∷ rest else a ∷ later

unfoldable pub sorted : List ℕ → List ℕ
unfolding insert
sorted [] = []
sorted (n ∷ rest) = insert n (sorted rest)

abbrev text_order : String → String → Ordering → Ordering
text_order a b tie = elim (compare_text a b) [
  | Ordering.lt ↦ Ordering.lt
  | Ordering.eq ↦ tie
  | Ordering.gt ↦ Ordering.gt
]

abbrev pub triple_leb : Triple → Triple → Bool
triple_leb (a, b, c) (a', b', c') =
    elim (text_order a a' (text_order b b' (text_order c c' Ordering.eq))) [
      | Ordering.gt ↦ false
      | _ ↦ true
    ]

unfoldable pub insert_triple : Triple → List Triple → List Triple
insert_triple t [] = t ∷ []
insert_triple t (a ∷ rest) =
    let later = insert_triple t rest in if triple_leb t a then t ∷ a ∷ rest else a ∷ later

unfoldable pub sorted_triples : List Triple → List Triple
unfolding insert_triple
sorted_triples [] = []
sorted_triples (t ∷ rest) = insert_triple t (sorted_triples rest)

-- `row.route_id == n`, of a row that has one.
abbrev pub carries : ℕ → Option ℕ → Bool
carries n none = false
carries n (some m) = n == m

-- `by_route_id.get(n)`: of two rows with one route_id the later one stands in the dict.
abbrev pub later_or : Option StaticRouteIntent → Option StaticRouteIntent → Option StaticRouteIntent
later_or none row = row
later_or (some row) _ = some row

unfoldable pub by_route_id : List StaticRouteIntent → ℕ → Option StaticRouteIntent
by_route_id [] n = none
by_route_id (row ∷ rest) n =
    later_or (by_route_id rest n) (if carries n row.route_id then some row else none)

unfoldable pub keys : List (ℕ × StaticRouteIntent) → List ℕ
keys [] = []
keys ((n, row) ∷ rest) = n ∷ keys rest

-- `genuine`: a dict, so a repeated key is there once.
abbrev pub put_genuine :
    ℕ → Option StaticRouteIntent → List (ℕ × StaticRouteIntent) → List (ℕ × StaticRouteIntent)
put_genuine n none dict = dict
put_genuine n (some row) dict = if elem n (keys dict) then dict else (n, row) ∷ dict

unfoldable pub genuine : List StaticRouteIntent → List DeletionRecord → List (ℕ × StaticRouteIntent)
unfolding keys elem
genuine rows [] = []
genuine rows (r ∷ rest) = put_genuine r.route_id (by_route_id rows r.route_id) (genuine rows rest)

-- `[record for record in records if record.route_id not in genuine]`
unfoldable pub remaining : List ℕ → List DeletionRecord → List DeletionRecord
remaining bound [] = []
remaining bound (r ∷ rest) =
    let later = remaining bound rest in if elem r.route_id bound then later else r ∷ later

-- `[row for row in removed_rows if row.route_id is None]`
unfoldable pub residue : List StaticRouteIntent → List StaticRouteIntent
residue [] = []
residue (row ∷ rest) =
    let later = residue rest in if is_some row.route_id then later else row ∷ later

-- `route_ids_by_triple.get(triple)`; no entry is the empty set.
unfoldable pub equivalence_class : List DeletionRecord → Triple → List ℕ
unfolding add
equivalence_class [] t = []
equivalence_class (r ∷ rest) t =
    let later = equivalence_class rest t in
    if has_triple t r.triples then add r.route_id later else later

-- The loop over the residue, with the sets `claimed` and `degraded`.
abbrev pub claim : ℕ → List ℕ → List ℕ × List ℕ → List ℕ × List ℕ
claim row_id [] sets = sets
claim row_id (n ∷ rest) (claimed, degraded) = (add row_id claimed, union (n ∷ rest) degraded)

unfoldable pub claims : List DeletionRecord → List StaticRouteIntent → List ℕ × List ℕ
unfolding equivalence_class union
claims records [] = ([], [])
claims records (row ∷ rest) =
    claim row.id (equivalence_class records (triple_of row)) (claims records rest)

unfoldable pub unclaimed : List ℕ → List StaticRouteIntent → List Triple
unclaimed claimed [] = []
unclaimed claimed (row ∷ rest) =
    let later = unclaimed claimed rest in
    if elem row.id claimed then later else triple_of row ∷ later

abbrev pub is_empty {ℓ} : {A : Type ℓ} → List A → Bool
is_empty [] = true
is_empty (_ ∷ _) = false

-- The loop over the unmatched ids, with the sets `moot` and `conservative`.
abbrev pub leave : Bool → Bool → ℕ → List ℕ × List ℕ → List ℕ × List ℕ
leave true conservatively n sets = sets
leave false true n (moot, conservative) = (moot, add n conservative)
leave false false n (moot, conservative) = (add n moot, conservative)

unfoldable pub leftovers : List ℕ → Bool → List DeletionRecord → List ℕ × List ℕ
leftovers degraded detached [] = ([], [])
leftovers degraded detached (r ∷ rest) =
    leave (elem r.route_id degraded) (r.unverified && detached) r.route_id
      (leftovers degraded detached rest)

unfoldable pub row_ids : List (ℕ × StaticRouteIntent) → List ℕ
row_ids [] = []
row_ids ((n, row) ∷ rest) = add row.id (row_ids rest)

abbrev pub partition_of :
    List (ℕ × StaticRouteIntent) → List DeletionRecord → List StaticRouteIntent → DeletionPartition
partition_of bound left over =
    let (claimed, degraded) = claims left over in
    let uncorrelated = sorted_triples (unclaimed claimed over) in
    let (moot, conservative) = leftovers degraded (not (is_empty uncorrelated)) left in
    record {
      executed = sorted (keys bound);
      degraded = sorted (union degraded conservative);
      moot = sorted moot;
      uncorrelated = uncorrelated;
      genuine_row_ids = row_ids bound;
    }

unfoldable pub classify_deletions : List DeletionRecord → List StaticRouteIntent → DeletionPartition
unfolding genuine remaining residue claims unclaimed leftovers sorted sorted_triples
classify_deletions records removed_rows =
    let bound = genuine removed_rows records in
    partition_of bound (remaining (keys bound) records) (residue removed_rows)
