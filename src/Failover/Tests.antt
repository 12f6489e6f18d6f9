-- ===== src/Failover/Tests.antt =====
-- Concrete runs of the failover modules: an NSO that holds one address and counts its writes, and a
-- device that answers at its OOB address only.
use nso_adapter.Prelude.{
  ℕ, ◌+◌, ◌*◌, ◌≤◌, String, ◌≡◌, refl, ◌⊎◌, ◌↔◌, Option, none, some, is_some, Bool, true, false,
  str_eq, if◌then◌else◌, [], ◌∷◌, arith, subst,
}
use nso_adapter.Failover.Row.{oob, IpAddress, v4, DeviceFailover, TickConfig, ip_eq}
use nso_adapter.Failover.Client.{
  http_or_value_error, returned, raised, flag, missing, Env, Tick, ◌>>=◌,
}
use nso_adapter.Failover.Lane.{IsConfig, job_active_writes_nothing}
use nso_adapter.Failover.Cost.{Counts}
use nso_adapter.Failover.Probes.{
  failback_flip_probe, fallback_probe, probe_oob, active_primary_probe, probe_primary,
  active_oob_probe,
}
use nso_adapter.Failover.Tick.{run_failover_tick, oob_interval, is_wanted, note_moved}
use nso_adapter.Failover.Switch.{
  probe_reachable, take_flip, draw, next_due, sync_if, switch_to_oob, coerce_probe, record_probe,
  due, judge_connect,
}
use nso_adapter.Failover.Address.{
  reconcile_active_address, block_unreadable, clear_unreadable, adopt_role, safe_sync_from,
  set_address, stored_address, role_of, role_among, invalid_stored_address_fields,
}
use nso_adapter.Failover.Hysteresis.{step_failover, take}
use nso_adapter.Failover.Restore.{IsFaithful}
use nso_adapter.Failover.Restore.Found.{oob_health_probe_restores, failback_restores_or_commits}
use nso_adapter.Failover.Budget.{flip_budget_bounds_writes}
use nso_adapter.Failover.Hysteresis.Streaks.{
  HasRun, fails_over, fails_back, fails_over_iff_run, fails_back_iff_run,
}
use nso_adapter.Failover.Ingest.{new_row, stored, upsert_failover_ips}
use nso_adapter.Failover.Ingest.Report.{RunsOn, active_oob_is_kept}

record World : Type 0 where
  held : Option String
  writes : ℕ

abbrev address_of : String → Option IpAddress
address_of s =
    if str_eq s "192.0.2.1" then some (v4 1) else if str_eq s "192.0.2.2" then some (v4 2) else none

abbrev text_of : IpAddress → String
text_of a = if ip_eq a (v4 1) then "192.0.2.1" else "192.0.2.2"

abbrev answers_at : Option String → Bool
answers_at none = false
answers_at (some a) = str_eq a "192.0.2.2"

abbrev nso : Env World
nso = record {
  get_address = λ w. (returned w.held, w);
  set_address = λ a w. (returned tt, record { held = some a; writes = w.writes + 1 });
  disconnect = λ w. (returned tt, w);
  sync_from = λ w. (raised (http_or_value_error "out of sync"), w);
  connect = λ n w. (returned (record { result = flag (answers_at w.held); info = missing }), w);
  uniform = λ n w. (0, w);
  ip_address = address_of;
  ip_text = text_of;
}

nso-IsConfig : IsConfig nso (λ w. w.held)
nso-IsConfig = record {
  get_address = λ w. refl;
  disconnect = λ w. refl;
  sync_from = λ w. refl;
  connect = λ n w. refl;
  uniform = λ n w. refl;
}

nso-IsFaithful : IsFaithful nso (λ w. w.held)
nso-IsFaithful = record {
  config = nso-IsConfig;
  accepts = λ a w. refl;
  writes = λ a w. refl;
  answers = λ w o e. cc e;
  drops = λ w e. cc e;
}

nso-Counts : Counts nso (λ w. w.writes)
nso-Counts = record {
  set_address = λ a w. refl;
  get_address = λ w. refl;
  disconnect = λ w. refl;
  sync_from = λ w. refl;
  connect = λ n w. refl;
  uniform = λ n w. refl;
}

abbrev settings : TickConfig
settings = record {
  primary_probe_interval = 5;
  oob_probe_interval = 10;
  failure_threshold = 1;
  success_threshold = 1;
  probe_timeout = 30;
  active_probe_timeout = 15;
  sync_from_after_switch = true;
}

abbrev on_primary : Tick World
on_primary = record {
  fo = record new_row { primary_ip = some "192.0.2.1"; oob_ip = some "192.0.2.2" };
  world = record { held = some "192.0.2.1"; writes = 0 };
  flip_budget = some 3;
}

abbrev on_oob : Tick World
on_oob = record {
  fo = record new_row {
    primary_ip = some "192.0.2.1";
    oob_ip = some "192.0.2.2";
    active_address = oob;
  };
  world = record { held = some "192.0.2.2"; writes = 0 };
  flip_budget = some 3;
}

-- The tick finds the primary address dead and moves the device.
tick_fails_over :
    let s = (run_failover_tick nso settings 1000 false 0 on_primary).1 in
    (s.fo.active_address ≡ oob) × (s.world ≡ record { held = some "192.0.2.2"; writes = 1 })
unfolding run_failover_tick active_primary_probe probe_primary probe_oob active_oob_probe
    failback_flip_probe fallback_probe probe_reachable take_flip draw next_due sync_if switch_to_oob
    reconcile_active_address block_unreadable clear_unreadable adopt_role safe_sync_from set_address
    coerce_probe record_probe due oob_interval is_wanted step_failover take
    invalid_stored_address_fields ◌>>=◌ stored_address role_of role_among note_moved judge_connect
tick_fails_over = (refl, refl)

oob_health_probe_restores_example :
    (fallback_probe nso settings 1000 (some "192.0.2.1") "192.0.2.2" false on_primary).1.world.held
    ≡ some "192.0.2.1"
oob_health_probe_restores_example =
    oob_health_probe_restores nso (λ w. w.held) nso-IsFaithful settings 1000 (some "192.0.2.1")
      "192.0.2.2" false on_primary

failback_restores_or_commits_example :
    let (r, s) = failback_flip_probe nso settings 1000 "192.0.2.1" false on_oob in
    (s.world.held ≡ some "192.0.2.2") ⊎ ((s.world.held ≡ some "192.0.2.1") × (r ≡ returned true))
failback_restores_or_commits_example =
    failback_restores_or_commits nso (λ w. w.held) nso-IsFaithful settings 1000 "192.0.2.1" false
      on_oob

flip_budget_bounds_writes_example :
    let s = (run_failover_tick nso settings 1000 false 0 on_oob).1 in
    (m : ℕ) × (s.flip_budget ≡ some m) × (m ≤ 3) × (s.world.writes + 2 * m ≤ 0 + 2 * 3)
flip_budget_bounds_writes_example =
    flip_budget_bounds_writes nso (λ w. w.writes) nso-Counts settings 1000 0 3 false on_oob refl

job_active_writes_nothing_example :
    (run_failover_tick nso settings 1000 true 0 on_primary).1.world.held ≡ some "192.0.2.1"
job_active_writes_nothing_example =
    job_active_writes_nothing nso (λ w. w.held) nso-IsConfig settings 1000 0 on_primary

fails_over_iff_run_example :
    (fails_over 2 0 (false ∷ true ∷ false ∷ false ∷ []) ≡ true)
    ↔ HasRun 2 false (false ∷ true ∷ false ∷ false ∷ [])
fails_over_iff_run_example = fails_over_iff_run 2 (false ∷ true ∷ false ∷ false ∷ []) (omega arith)

fails_back_iff_run_example :
    (fails_back 2 0 (true ∷ false ∷ true ∷ []) ≡ true) ↔ HasRun 2 true (true ∷ false ∷ true ∷ [])
fails_back_iff_run_example = fails_back_iff_run 2 (true ∷ false ∷ true ∷ []) (omega arith)

abbrev Known : Option IpAddress → Type 0
Known none = Unit
Known (some a) = address_of (text_of a) ≡ some a

Known-of_text :
    (first second : Bool)
    → Known (if first then some (v4 1) else if second then some (v4 2) else none)
Known-of_text true second = refl
Known-of_text false true = refl
Known-of_text false false = tt

address_of-text_of :
    (s : String) (a : IpAddress) → address_of s ≡ some a → address_of (text_of a) ≡ some a
address_of-text_of s a e =
    subst Known e (Known-of_text (str_eq s "192.0.2.1") (str_eq s "192.0.2.2"))

abbrev legible : Option DeviceFailover → Bool
legible none = true
legible (some fo) = is_some (stored address_of text_of fo.oob_ip)

active_oob_is_kept_example :
    RunsOn address_of text_of address_of-text_of
      (v4 2)
      (upsert_failover_ips address_of text_of 5 (some on_oob.fo) (some "192.0.2.2") none).1
active_oob_is_kept_example =
    active_oob_is_kept address_of text_of address_of-text_of 5 (v4 2) (some on_oob.fo)
      (some "192.0.2.2") none
      (record { fo = on_oob.fo; stands = refl; active = refl; reads = refl })
