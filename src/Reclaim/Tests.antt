-- ===== src/Reclaim/Tests.antt =====
-- Three ticks' worth of devices, of which one always fails; and a deletion that the device and the
-- service have both carried out, beside one that the service has not.
use nso_adapter.Prelude.{ℕ, ◌≡◌, refl, true, Option, none, some, List, [], ◌∷◌, ◌⊎◌, arith}
use nso_adapter.Json.{Fields, text, array, object, nil, item, end, field}
use nso_adapter.Results.{ok}
use nso_adapter.DeletedRoutes.{elem}
use nso_adapter.RoutePlan.{Tombstone}
use nso_adapter.RoutePlan.Sample.{deleted, returned}
use nso_adapter.Reclaim.Section.{
  ServiceInstanceState, success, present, service_instance_state, certified_static_route_section,
}
use nso_adapter.Work.{succeeded}
use nso_adapter.Reclaim.{Carrier, Store, DeviceProof, read_ok, partition}
use nso_adapter.Reclaim.Drain.{tick, waits, UpTo, no_device_starves}
use nso_adapter.Reclaim.Proven.{Among, OfBatch, consumes_only_what_is_gone}

abbrev carriers : List Carrier
carriers =
    record { device_id = 3; tombstone = deleted }
    ∷ record { device_id = 1; tombstone = deleted }
    ∷ record { device_id = 3; tombstone = returned }
    ∷ record { device_id = 2; tombstone = deleted }
    ∷ []

abbrev store : Store
store = record { carriers = carriers; job = λ j. some succeeded }

abbrev fails : ℕ → Option (ℕ × ℕ)
fails device = none

no_device_starves_example :
    (n : ℕ) × (elem 2 (tick (λ n. fails) (λ n. store) 1 2 n).looked_at ≡ true)
unfolding waits UpTo
no_device_starves_example =
    no_device_starves (λ n. fails) (λ n. store) 1 2 2 3 (omega arith) (λ n. refl)
      (λ n. (omega arith, (omega arith, (omega arith, (omega arith, tt))))) (omega arith)

-- The service still has the second tombstone's route.
abbrev left_over : Fields
left_over = field "prefix" (text "10.1.0.0/16") (field "next-hop" (text "192.0.2.2") end)

abbrev instance_entry : Fields
instance_entry =
    field "device" (text "r1")
      (field "static-route" (object (field "route" (array (item (object left_over) nil)) end)) end)

abbrev state : ServiceInstanceState
state = record { status = present; entry = some instance_entry }

reads_state :
    service_instance_state "r1" (
      success (
        some (
          object
            (field "device-intent:device-intent" (array (item (object instance_entry) nil)) end))))
    ≡ ok state
unfolding service_instance_state
reads_state = refl

abbrev proof : DeviceProof
proof = record {
  device_status = read_ok;
  device_keys = [];
  service_state = some (certified_static_route_section state);
  sync_ok = some true;
}

parts : partition proof (deleted ∷ returned ∷ []) ≡ ok (7 ∷ [], returned ∷ [])
unfolding partition certified_static_route_section
parts = refl

consumes_only_what_is_gone_example :
    ((row : Tombstone)
      → Among row (deleted ∷ returned ∷ [])
      → (elem row.id (7 ∷ []) ≡ true) ⊎ Among row (returned ∷ []))
    × ((n : ℕ) → elem n (7 ∷ []) ≡ true → OfBatch proof state refl (deleted ∷ returned ∷ []) n)
consumes_only_what_is_gone_example =
    consumes_only_what_is_gone proof state refl (deleted ∷ returned ∷ []) parts
