-- ===== src/ApplyPlan/Hydrate.antt =====
-- `hydrate_static_route_apply_plan` and `extend_apply_plan` of core/static_route_plan.py. A dict by
-- row id is a list of keys and values.
use nso_adapter.Prelude.{
  ℕ, String, Bool, true, ◌&&◌, ◌||◌, Option, none, some, List, [], ◌∷◌, ◌==◌, str_eq, if◌then◌else◌,
  map,
}
use nso_adapter.Results.{Result, ok, raised, value_error, ◌>>=◌, ◌>>◌, check}
use nso_adapter.DeletedRoutes.{Triple, elem}
use nso_adapter.RoutePlan.{RouteRow, Tombstone}
use nso_adapter.ApplyPlan.{
  SrCas, SrPlan, StoredKey, RecordedCas, RecordedApply, add_triple, id_of, tombstone_id, sr_key,
}

-- `{row.id: row for row in rows}.get(id)`: of two rows with one id the later one stands.
abbrev pub later_or {ℓ} : {A : Type ℓ} → Option A → Option A → Option A
later_or none found = found
later_or (some a) found = some a

module _ {ℓ} {A : Type ℓ} (key : A → ℕ) where
  unfoldable pub by_id : List A → ℕ → Option A
  by_id [] n = none
  by_id (a ∷ rest) n = later_or (by_id rest n) (if key a == n then some a else none)

-- `[rows_by_id[n] for n in ids]`, none if an id is not among them.
abbrev pub cons_found {ℓ} : {A : Type ℓ} → Option A → Option (List A) → Option (List A)
cons_found (some a) (some rest) = some (a ∷ rest)
cons_found _ _ = none

module _ {ℓ} {A : Type ℓ} (find : ℕ → Option A) where
  unfoldable pub collect : List ℕ → Option (List A)
  collect [] = some []
  collect (n ∷ rest) = cons_found (find n) (collect rest)

abbrev pub all_found {ℓ} : {A : Type ℓ} → Option (List A) → Result (List A)
all_found none = raised value_error
all_found (some l) = ok l

unfoldable pub hydrate_cas : List ℕ → List RecordedCas → Result (List SrCas)
unfolding elem sr_key
hydrate_cas selected [] = ok []
hydrate_cas selected (item ∷ rest) =
    let later = hydrate_cas selected rest in
    let here = do
      sent ← sr_key item.sent_triple
      items ← later
      ok (
          record {
            row_id = item.row_id;
            route_id = item.route_id;
            sent_triple = sent;
            expected_old = item.expected_old;
          }
          ∷ items)
    in if elem item.row_id selected then here else later

unfoldable pub hydrate_keys : List StoredKey → Result (List Triple)
unfolding sr_key add_triple
hydrate_keys [] = ok []
hydrate_keys (key ∷ rest) = do t ← sr_key key; later ← hydrate_keys rest; ok (add_triple t later)

-- `set(a) == set(b)` on ids.
unfoldable pub all_elem : List ℕ → List ℕ → Bool
unfolding elem
all_elem [] s = true
all_elem (n ∷ rest) s = elem n s && all_elem rest s

abbrev pub same_ids : List ℕ → List ℕ → Bool
same_ids a b = all_elem a b && all_elem b a

abbrev pub cas_row_id : SrCas → ℕ
cas_row_id item = item.row_id

abbrev pub is_mode : String → Bool
is_mode m = str_eq m "PATCH" || str_eq m "PUT"

unfoldable pub hydrate_apply_plan : RecordedApply → List RouteRow → List Tombstone → Result SrPlan
unfolding by_id collect hydrate_cas hydrate_keys all_elem
hydrate_apply_plan plan all_rows all_tombstones = do
  check (is_mode plan.mode) value_error
  rows ← all_found (collect (by_id id_of all_rows) plan.row_ids)
  tombstones ← all_found (collect (by_id tombstone_id all_tombstones) plan.tombstone_ids)
  cas ← hydrate_cas plan.row_ids plan.cas
  check (same_ids (map cas_row_id cas) (map id_of rows)) value_error
  allowed ← hydrate_keys plan.allowed_removal_keys
  ok record {
    mode = plan.mode;
    rows = rows;
    allowed = allowed;
    tombstones = tombstones;
    cas = cas;
    tombstone_id_watermark = plan.tombstone_id_watermark;
  }
