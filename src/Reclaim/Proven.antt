-- ===== src/Reclaim/Proven.antt =====
-- Which tombstones the drain of core/static_route_reclaim.py consumes, and which it issues again.
use nso_adapter.Prelude.{
  ℕ, ◌≡◌, ◌≢◌, refl, sym, ap, subst, ◌∙◌, Bool, true, false, not, Option, none, some, List, [], ◌∷◌,
  ◌==◌, ◌⊎◌, inl, inr, Bool-cases, arith, or-parts, not-parts, if◌then◌else◌,
}
use nso_adapter.Json.{
  Value, Items, Fields, null, boolean, natural, number, text, array, object, nil, item, get,
  has_key,
}
use nso_adapter.Results.{Result, ok, raised, >>=-eq-ok, check-eq-ok, ok-injective}
use nso_adapter.DeletedRoutes.{Triple, has_triple, elem}
use nso_adapter.RoutePlan.{Tombstone, Marking, delete_origin, detach}
use nso_adapter.Reclaim.Section.{
  Certainty, present, absent, inconclusive, ServiceInstanceState, CertifiedSection, certified_of,
  certified_if, certified_static_route_section, project, project_section, project_routes,
  certify_entries, routes, live_keys,
}
use nso_adapter.Reclaim.Gone.{
  Apart, of_routes, of_section, served_keys, IsOff, holds_route, keys-IsOff, served-IsOff,
}
use nso_adapter.Reclaim.{
  DeviceProof, DeviceStatus, read_ok, unsupported, failed_read, authorized, meets, clean_by,
  service_clean, delete_origin_proven, detach_proven, proven_as, placed, partition,
}

routes-served :
    (v : Option Value) {items : Items} → project_routes v ≡ ok items → live_keys items ≡ of_routes v
unfolding live_keys
routes-served none h = rw (← ok-injective h) refl
routes-served (some (array r)) h =
    let (_, _, same) = >>=-eq-ok (certify_entries r) (λ _. ok r) h in
    sym (ap live_keys (ok-injective same))
routes-served (some null) h = cc h
routes-served (some (boolean _)) h = cc h
routes-served (some (natural _)) h = cc h
routes-served (some (number _)) h = cc h
routes-served (some (text _)) h = cc h
routes-served (some (object _)) h = cc h

section-served :
    (entry : Fields) (v : Option Value) {items : Items}
    → project_section entry v ≡ ok items
    → live_keys items ≡ of_section v
unfolding live_keys
section-served entry none h =
    let (_, same) = check-eq-ok (not (has_key "route" entry)) _ _ h in rw (← ok-injective same) refl
section-served entry (some (object s)) h = routes-served (get "route" s) h
section-served entry (some null) h = cc h
section-served entry (some (boolean _)) h = cc h
section-served entry (some (natural _)) h = cc h
section-served entry (some (number _)) h = cc h
section-served entry (some (text _)) h = cc h
section-served entry (some (array _)) h = cc h

project-served :
    (entry : Option Fields) {items : Items}
    → project entry ≡ ok items
    → live_keys items ≡ served_keys entry
unfolding project live_keys
project-served none h = rw (← ok-injective h) refl
project-served (some entry) h = section-served entry (get "static-route" entry) h

certified-served :
    (entry : Option Fields) (r : Result Items)
    → project entry ≡ r
    → (certified_of entry r).status ≢ inconclusive
    → live_keys (routes (certified_of entry r)) ≡ served_keys entry
unfolding live_keys
certified-served entry (raised e) h clear = elim (clear refl) [ ]
certified-served entry (ok nil) h clear = project-served entry h
certified-served entry (ok (item v rest)) h clear = project-served entry h

-- A section that was certified has the keys that the instance holds, and its read was conclusive.
read-served :
    (status : Certainty) (entry : Option Fields)
    → (certified_if status entry).status ≢ inconclusive
    → (live_keys (routes (certified_if status entry)) ≡ served_keys entry) × (status ≢ inconclusive)
read-served inconclusive entry clear = elim (clear refl) [ ]
read-served present entry clear = (certified-served entry (project entry) refl clear, λ e. cc)
read-served absent entry clear = (certified-served entry (project entry) refl clear, λ e. cc)

pub data Among (row : Tombstone) : List Tombstone → Type 0 where
  first : (rest : List Tombstone) → Among row (row ∷ rest)
  later : (other : Tombstone) {rest : List Tombstone} → Among row rest → Among row (other ∷ rest)

meets-Apart : (keys s : List Triple) → meets keys s ≡ false → Apart keys s
unfolding meets Apart
meets-Apart [] s h = tt
meets-Apart (t ∷ rest) s h =
    let (here, others) = or-parts (has_triple t s) (meets rest s) h in
    (here, meets-Apart rest s others)

-- What a proof says of the keys besides the service, by the tombstone's marking.
pub Witnessed : Marking → List Triple → DeviceProof → Type 0
Witnessed delete_origin keys proof = (proof.device_status ≡ read_ok) × Apart keys proof.device_keys
Witnessed detach keys proof = proof.sync_ok ≡ some true

-- What the tombstone's marking asks for besides: that the device was read, without either key, or that
-- the synchronisation succeeded.
pub Agrees : Marking → DeviceProof → Tombstone → Type 0
Agrees delete_origin proof row =
    (proof.device_status ≡ read_ok) × IsOff (λ k. has_triple k proof.device_keys) row
Agrees detach proof row = proof.sync_ok ≡ some true

-- The row's keys are gone from the instance, and as its marking asks.
pub IsGone : Option Fields → DeviceProof → Tombstone → Type 0
IsGone entry proof row = IsOff (holds_route entry) row × Agrees row.marking proof row

-- A clean service has been certified, and has none of the row's keys.
clean-certified :
    (row : Tombstone) (section : CertifiedSection) (status : Certainty)
    → clean_by row section status ≡ ok true
    → (keys : List Triple) × (authorized row ≡ ok keys)
      × Apart keys (live_keys (routes section))
      × (status ≢ inconclusive)
clean-certified row section inconclusive h = cc h
clean-certified row section present h =
    let (keys, e, same) = >>=-eq-ok (authorized row) _ h in
    (
      keys,
      e,
      meets-Apart keys _ (not-parts (meets keys (live_keys (routes section))) (ok-injective same)),
      λ e'. cc,
    )
clean-certified row section absent h =
    let (keys, e, same) = >>=-eq-ok (authorized row) _ h in
    (
      keys,
      e,
      meets-Apart keys _ (not-parts (meets keys (live_keys (routes section))) (ok-injective same)),
      λ e'. cc,
    )

unless-true :
    {clean : Result Bool} (test : Bool)
    → (if test then ok false else clean) ≡ ok true
    → (test ≡ false) × (clean ≡ ok true)
unless-true true h = cc h
unless-true false h = (refl, h)

-- A proven deletion: the device was read, and holds none of the keys; the service is clean.
deleted_by :
    (row : Tombstone) (proof : DeviceProof) (status : DeviceStatus)
    → proof.device_status ≡ status
    → delete_origin_proven row proof ≡ ok true
    → (keys : List Triple) × (authorized row ≡ ok keys)
      × Witnessed delete_origin keys proof
      × (service_clean row proof ≡ ok true)
unfolding delete_origin_proven Witnessed
deleted_by row proof read_ok is h =
    let (keys, e, clean) = >>=-eq-ok (authorized row) _ (rw is at h) in
    let (apart, h') = unless-true (meets keys proof.device_keys) clean in
    (keys, e, (is, meets-Apart keys proof.device_keys apart), h')
deleted_by row proof unsupported is h = cc (rw is at h)
deleted_by row proof failed_read is h = cc (rw is at h)

detached_by :
    (row : Tombstone) (proof : DeviceProof) (sync : Option Bool)
    → proof.sync_ok ≡ sync
    → detach_proven row proof ≡ ok true
    → (proof.sync_ok ≡ some true) × (service_clean row proof ≡ ok true)
unfolding detach_proven
detached_by row proof none is h = cc (rw is at h)
detached_by row proof (some false) is h = cc (rw is at h)
detached_by row proof (some true) is h = (is, rw is at h)

module _ (proof : DeviceProof) (state : ServiceInstanceState)
    (judged : proof.service_state ≡ some (certified_static_route_section state)) where
  service_gone :
      (row : Tombstone)
      → service_clean row proof ≡ ok true
      → (keys : List Triple) × (authorized row ≡ ok keys)
        × Apart keys (served_keys state.entry)
        × (state.status ≢ inconclusive)
  unfolding service_clean certified_static_route_section
  service_gone row h =
      let (keys, e, gone, clear) =
        clean-certified row (certified_static_route_section state)
          (certified_static_route_section state).status (rw judged at h) in
      let (same, conclusive) = read-served state.status state.entry clear in
      (keys, e, subst (Apart keys) same gone, conclusive)

  proven-IsGone :
      (row : Tombstone) (m : Marking)
      → row.marking ≡ m
      → proven_as m row proof ≡ ok true
      → IsGone state.entry proof row × (state.status ≢ inconclusive)
  unfolding delete_origin_proven detach_proven IsGone Witnessed Agrees
  proven-IsGone row delete_origin is h =
      let (keys, e, (read, seen), clean) = deleted_by row proof proof.device_status refl h in
      let (keys', e', gone, conclusive) = service_gone row clean in
      let agrees : Agrees delete_origin proof row =
        (read, keys-IsOff row proof.device_keys e seen) in
      (
        (served-IsOff row state.entry e' gone, subst (λ m. Agrees m proof row) (sym is) agrees),
        conclusive,
      )
  proven-IsGone row detach is h =
      let (synced, clean) = detached_by row proof proof.sync_ok refl h in
      let (keys, e, gone, conclusive) = service_gone row clean in
      (
        (served-IsOff row state.entry e gone, subst (λ m. Agrees m proof row) (sym is) synced),
        conclusive,
      )

  -- The id is that of a row of the batch whose deletion is proven.
  pub OfBatch : List Tombstone → ℕ → Type 0
  OfBatch rows n =
      (row : Tombstone) × Among row rows
      × (row.id ≡ n)
      × IsGone state.entry proof row
      × (state.status ≢ inconclusive)

  one_later :
      (row : Tombstone) (rest : List Tombstone) (n : ℕ) → OfBatch rest n → OfBatch (row ∷ rest) n
  unfolding OfBatch
  one_later row rest n (r, among, is, gone, conclusive) = (r, later row among, is, gone, conclusive)

  consumed_in :
      (rows : List Tombstone) (n : ℕ) {parts : List ℕ × List Tombstone}
      → partition proof rows ≡ ok parts
      → elem n parts.0 ≡ true
      → OfBatch rows n
  unfolding partition elem OfBatch
  consumed_in [] n h m = cc (ok-injective h, m)
  consumed_in (row ∷ rest) n h m =
      let (proven, e, h1) = >>=-eq-ok (proven_as row.marking row proof) _ h in
      let (parts, e', h2) = >>=-eq-ok (partition proof rest) _ h1 in
      let m' = rw (← ok-injective h2) at m in
      elim (Bool-cases proven) [
        | inr stays ↦ one_later row rest n (consumed_in rest n e' (rw stays at m'))
        | inl goes ↦ elim (Bool-cases (n == row.id)) [
          | inr other ↦ one_later row rest n (consumed_in rest n e' (rw (goes, other) at m'))
          | inl same ↦
              let (gone, conclusive) = proven-IsGone row row.marking refl (e ∙ ap ok goes) in
              (row, first rest, ground arith, gone, conclusive)
        ]
      ]

  -- A row is consumed, or it is one of the unproven.
  placed_here :
      (proven : Bool) (row : Tombstone) (parts : List ℕ × List Tombstone)
      → (elem row.id (placed row proven parts).0 ≡ true) ⊎ Among row (placed row proven parts).1
  unfolding elem
  placed_here true row parts = inl (ground arith)
  placed_here false row parts = inr (first parts.1)

  placed_later :
      (proven : Bool) (other row : Tombstone) (parts : List ℕ × List Tombstone)
      → (elem row.id parts.0 ≡ true) ⊎ Among row parts.1
      → (elem row.id (placed other proven parts).0 ≡ true) ⊎ Among row (placed other proven parts).1
  unfolding elem
  placed_later true other row parts (inl m) = inl (ground arith)
  placed_later true other row parts (inr m) = inr m
  placed_later false other row parts (inl m) = inl m
  placed_later false other row parts (inr m) = inr (later other m)

  placed_in :
      (row : Tombstone) {rows : List Tombstone} {parts : List ℕ × List Tombstone}
      → partition proof rows ≡ ok parts
      → Among row rows
      → (elem row.id parts.0 ≡ true) ⊎ Among row parts.1
  unfolding partition
  placed_in row h (first rest) =
      let (proven, e, h1) = >>=-eq-ok (proven_as row.marking row proof) _ h in
      let (parts, e', h2) = >>=-eq-ok (partition proof rest) _ h1 in
      rw (← ok-injective h2) (placed_here proven row parts)
  placed_in row h (later other {rest = rest} m) =
      let (proven, e, h1) = >>=-eq-ok (proven_as other.marking other proof) _ h in
      let (parts, e', h2) = >>=-eq-ok (partition proof rest) _ h1 in
      rw (← ok-injective h2) (placed_later proven other row parts (placed_in row e' m))

  -- Each tombstone of the batch is consumed or is left to be issued again; and an id is consumed only
  -- if it is that of a tombstone of the batch whose two keys, the one that it renders and the one that
  -- was deployed for it, are not among the routes of the service instance, of which the read was
  -- conclusive, and for which besides, as its marking asks, the device was read without either key,
  -- or the synchronisation succeeded.
  pub consumes_only_what_is_gone :
      (rows : List Tombstone) {consumable : List ℕ} {unproven : List Tombstone}
      → partition proof rows ≡ ok (consumable, unproven)
      → ((row : Tombstone) → Among row rows → (elem row.id consumable ≡ true) ⊎ Among row unproven)
        × ((n : ℕ) → elem n consumable ≡ true → OfBatch rows n)
  consumes_only_what_is_gone rows h = (λ row m. placed_in row h m, λ n m. consumed_in rows n h m)
