-- ===== src/Reclaim.antt =====
-- The drain of core/static_route_reclaim.py: which devices a tick looks at, and what it proves of
-- their tombstones. What becomes of one device is an argument of the tick.
pub mod Section
pub mod Drain
pub mod Gone
pub mod Proven
mod Tests
use nso_adapter.Prelude.{
  ℕ, zero, suc, ◌+◌, String, Bool, true, false, not, ◌&&◌, ◌||◌, Option, none, some, List, [], ◌∷◌,
  ◌==◌, ltb, leb, length, str_eq, map, if◌then◌else◌,
}
use nso_adapter.Results.{Result, ok, ◌>>=◌, ◌>>◌}
use nso_adapter.DeletedRoutes.{Triple, has_triple, elem}
use nso_adapter.RoutePlan.{Tombstone, Marking, delete_origin, detach, as_triple, tombstone_triple}
use nso_adapter.ApplyPlan.{add_triple, add_found}
use nso_adapter.Work.{JobStatus, succeeded}
use nso_adapter.Reclaim.Section.{CertifiedSection, Certainty, inconclusive, routes, live_keys}

-- A tombstone with its device.
pub record Carrier : Type 0 where
  pub device_id : ℕ
  pub tombstone : Tombstone

-- The table of tombstones and the table of jobs.
pub record Store : Type 0 where
  pub carriers : List Carrier
  pub job : ℕ → Option JobStatus

-- `_eligible`
abbrev is_succeeded : Option JobStatus → Bool
is_succeeded (some succeeded) = true
is_succeeded _ = false

abbrev owner_succeeded : (ℕ → Option JobStatus) → Option ℕ → Bool
owner_succeeded job none = false
owner_succeeded job (some j) = is_succeeded (job j)

abbrev pub is_eligible : Store → Carrier → Bool
is_eligible store row = owner_succeeded store.job row.tombstone.job_id

-- `distinct` and `order_by` of the device ids.
unfoldable pub insert_id : ℕ → List ℕ → List ℕ
insert_id n [] = n ∷ []
insert_id n (a ∷ rest) =
    let later = insert_id n rest in
    if ltb n a then n ∷ a ∷ rest else if n == a then a ∷ rest else a ∷ later

unfoldable pub device_ids : (Carrier → Bool) → List Carrier → List ℕ
unfolding insert_id
device_ids wanted [] = []
device_ids wanted (row ∷ rest) =
    let later = device_ids wanted rest in
    if wanted row then insert_id row.device_id later else later

unfoldable pub limited : ℕ → List ℕ → List ℕ
limited zero l = []
limited (suc n) [] = []
limited (suc n) (a ∷ rest) = a ∷ limited n rest

-- `_devices_with_succeeded_owner_tombstones`
unfoldable pub devices_after : Store → ℕ → ℕ → List ℕ
unfolding device_ids limited
devices_after store after limit =
    limited limit
      (device_ids (λ row. ltb after row.device_id && is_eligible store row) store.carriers)

abbrev counted : Option (ℕ × ℕ) → ℕ × ℕ → ℕ × ℕ
counted none later = later
counted (some (got, made)) (consumed, reissued) = (got + consumed, made + reissued)

-- `reclaim_one_device` of each device: none if it raises.
unfoldable pub reclaim_all : (ℕ → Option (ℕ × ℕ)) → List ℕ → ℕ × ℕ
reclaim_all one [] = (0, 0)
reclaim_all one (device ∷ rest) = counted (one device) (reclaim_all one rest)

-- `device_ids[-1]`
unfoldable pub last_id : ℕ → List ℕ → ℕ
last_id a [] = a
last_id a (b ∷ rest) = last_id b rest

abbrev pub next_cursor : ℕ → List ℕ → ℕ
next_cursor budget [] = 0
next_cursor budget (a ∷ rest) = if ltb (length (a ∷ rest)) budget then 0 else last_id a rest

-- `reclaim_succeeded_tombstones` at a cursor: the devices that it looks at, the two counts, and the
-- next cursor.
pub record Tick : Type 0 where
  pub looked_at : List ℕ
  pub counts : ℕ × ℕ
  pub cursor : ℕ

unfoldable pub reclaim_succeeded_tombstones : (ℕ → Option (ℕ × ℕ)) → Store → ℕ → ℕ → Tick
unfolding devices_after reclaim_all last_id
reclaim_succeeded_tombstones one store budget cursor =
    let batch = devices_after store cursor budget in
    if budget == 0 then record { looked_at = []; counts = (0, 0); cursor = cursor } else record {
      looked_at = batch;
      counts = reclaim_all one batch;
      cursor = next_cursor budget batch;
    }

-- What `_DeviceProof` holds after its reads: the device's entries by their keys.
pub data DeviceStatus : Type 0 where
  read_ok unsupported failed_read : DeviceStatus

pub record DeviceProof : Type 0 where
  pub device_status : DeviceStatus
  pub device_keys : List Triple
  pub service_state : Option CertifiedSection
  pub sync_ok : Option Bool

-- `_authorized`
unfoldable pub authorized : Tombstone → Result (List Triple)
unfolding as_triple add_triple tombstone_triple
authorized row = do
  deployed ← as_triple row.deployed_key
  ok (add_found deployed (tombstone_triple row ∷ []))

-- Whether two sets have a key in common.
unfoldable pub meets : List Triple → List Triple → Bool
unfolding has_triple
meets [] s = false
meets (t ∷ rest) s = has_triple t s || meets rest s

-- `_service_clean`
abbrev pub clean_by : Tombstone → CertifiedSection → Certainty → Result Bool
clean_by row state inconclusive = ok false
clean_by row state _ = do keys ← authorized row; ok (not (meets keys (live_keys (routes state))))

abbrev pub clean_of : Tombstone → Option CertifiedSection → Result Bool
clean_of row none = ok false
clean_of row (some state) = clean_by row state state.status

unfoldable pub service_clean : Tombstone → DeviceProof → Result Bool
unfolding authorized meets live_keys
service_clean row proof = clean_of row proof.service_state

-- `_delete_origin_proven`
abbrev is_read : DeviceStatus → Bool
is_read read_ok = true
is_read _ = false

unfoldable pub delete_origin_proven : Tombstone → DeviceProof → Result Bool
unfolding authorized meets service_clean
delete_origin_proven row proof =
    let by_keys = do
      keys ← authorized row
      if meets keys proof.device_keys then ok false else service_clean row proof
    in if is_read proof.device_status then by_keys else ok false

-- `_detach_proven`
abbrev is_true : Option Bool → Bool
is_true (some b) = b
is_true none = false

unfoldable pub detach_proven : Tombstone → DeviceProof → Result Bool
unfolding service_clean
detach_proven row proof = if is_true proof.sync_ok then service_clean row proof else ok false

abbrev pub proven_as : Marking → Tombstone → DeviceProof → Result Bool
proven_as delete_origin row proof = delete_origin_proven row proof
proven_as detach row proof = detach_proven row proof

-- The partition of `reclaim_one_device`: the ids to consume, and the rows to issue again.
abbrev pub placed : Tombstone → Bool → List ℕ × List Tombstone → List ℕ × List Tombstone
placed row true (consumable, unproven) = (row.id ∷ consumable, unproven)
placed row false (consumable, unproven) = (consumable, row ∷ unproven)

unfoldable pub partition : DeviceProof → List Tombstone → Result (List ℕ × List Tombstone)
unfolding delete_origin_proven detach_proven
partition proof [] = ok ([], [])
partition proof (row ∷ rest) = do
  proven ← proven_as row.marking row proof
  later ← partition proof rest
  ok (placed row proven later)

-- The device's eligible tombstones, in the order of their ids.
unfoldable pub insert_row : Tombstone → List Tombstone → List Tombstone
insert_row row [] = row ∷ []
insert_row row (other ∷ rest) =
    let later = insert_row row rest in
    if leb row.id other.id then row ∷ other ∷ rest else other ∷ later

unfoldable pub rows_of : (Carrier → Bool) → List Carrier → List Tombstone
unfolding insert_row
rows_of wanted [] = []
rows_of wanted (row ∷ rest) =
    let later = rows_of wanted rest in if wanted row then insert_row row.tombstone later else later

-- `delete_tombstones`, under a claim that is held: the number of deleted rows, and the others.
unfoldable pub delete_tombstones : List ℕ → ℕ → List Carrier → ℕ × List Carrier
unfolding elem
delete_tombstones ids device [] = (0, [])
delete_tombstones ids device (row ∷ rest) =
    let (count, kept) = delete_tombstones ids device rest in
    if elem row.tombstone.id ids && row.device_id == device
    then (suc count, kept)
    else (count, row ∷ kept)

-- The loop over the unproven rows: a row is issued again by a job, or not.
abbrev add_job : Option ℕ → ℕ × Store → ℕ × Store
add_job none later = later
add_job (some _) (count, store) = (suc count, store)

unfoldable pub reissue_all :
    (Store → ℕ → Tombstone → Option ℕ × Store) → ℕ → List Tombstone → Store → ℕ × Store
reissue_all reissue device [] store = (0, store)
reissue_all reissue device (row ∷ rest) store =
    let (job, next) = reissue store device row in add_job job (reissue_all reissue device rest next)

abbrev drained :
    (Store → ℕ → Tombstone → Option ℕ × Store)
    → Store
    → ℕ
    → List ℕ × List Tombstone
    → (ℕ × ℕ) × Store
drained reissue store device (consumable, unproven) =
    let (consumed, kept) = delete_tombstones consumable device store.carriers in
    let (reissued, last) = reissue_all reissue device unproven record store { carriers = kept } in
    ((consumed, reissued), last)

abbrev reclaim_rows :
    (Store → ℕ → Tombstone → Option ℕ × Store)
    → DeviceProof
    → Store
    → ℕ
    → List Tombstone
    → Result ((ℕ × ℕ) × Store)
reclaim_rows reissue proof store device [] = ok ((0, 0), store)
reclaim_rows reissue proof store device (row ∷ rest) = do
  parts ← partition proof (row ∷ rest)
  ok (drained reissue store device parts)

-- `reclaim_one_device`, by whether the claim was acquired and the device exists, and by what its reads
-- of the device and the service gave. What raises leaves the store as it was.
unfoldable pub reclaim_one_device :
    Bool
    → Bool
    → (Store → ℕ → Tombstone → Option ℕ × Store)
    → DeviceProof
    → Store
    → ℕ
    → Result ((ℕ × ℕ) × Store)
unfolding rows_of delete_tombstones reissue_all partition
reclaim_one_device claimed exists reissue proof store device =
    if claimed && exists
    then reclaim_rows reissue proof store device
        (rows_of (λ row. row.device_id == device && is_eligible store row) store.carriers)
    else ok ((0, 0), store)
