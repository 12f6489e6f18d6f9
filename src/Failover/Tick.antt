-- ===== src/Failover/Tick.antt =====
-- `run_failover_tick` of core/failover.py.
use nso_adapter.Prelude.{
  ℕ, String, Option, none, some, is_some, Bool, true, false, not, ◌&&◌, ◌||◌, List, [], ◌∷◌,
  if◌then◌else◌,
}
use nso_adapter.Failover.Row.{
  Role, oob, stored_address_invalid, DeviceFailover, TickConfig, role_eq, ip_eq?,
}
use nso_adapter.Failover.Client.{
  Reply, check_fo, returned, raised, Env, Action, ◌>>=◌, ◌>>◌, pure, gets_fo, modify_fo,
}
use nso_adapter.Failover.Address.{
  stored_address, invalid_stored_address_fields, reconcile_active_address,
}
use nso_adapter.Failover.Switch.{due, next_due, set_next_oob, set_next_primary}
use nso_adapter.Failover.Probes.{probe_primary, probe_oob}

-- `_oob_probe_interval`
unfoldable pub oob_interval : TickConfig → DeviceFailover → ℕ
oob_interval cfg fo =
    if role_eq fo.active_address oob then cfg.primary_probe_interval else cfg.oob_probe_interval

abbrev pub block_invalid : DeviceFailover → DeviceFailover
block_invalid fo = record fo { failback_blocked_reason = some stored_address_invalid }

-- `X is not None and _due(at, now)`
abbrev pub is_due : Option String → Option ℕ → ℕ → Bool
is_due none at now = false
is_due (some _) at now = due at now

-- The two early returns: no address at all, or nothing due and no override to look into.
unfoldable pub is_wanted : Option String → Option String → Bool → Bool → Bool → Bool
is_wanted primary_ip oob_ip primary_due oob_due manual_override =
    (is_some primary_ip || is_some oob_ip) && (primary_due || oob_due || manual_override)

module _ {W : Type 0} (env : Env W) (cfg : TickConfig) (now : ℕ) where
  module _ (job_active : Bool) (jitter_fraction : ℕ) where
    unfoldable pub rearm_primary : Bool → Action W (Unit {0})
    rearm_primary false = pure tt
    rearm_primary true = do
      at ← next_due env now cfg.primary_probe_interval jitter_fraction
      modify_fo (set_next_primary at)

    unfoldable pub rearm_oob : Bool → Action W (Unit {0})
    rearm_oob false = pure tt
    rearm_oob true = do
      interval ← gets_fo (oob_interval cfg)
      at ← next_due env now interval jitter_fraction
      modify_fo (set_next_oob at)

    -- A malformed stored address: blocked, and what is set is tried again an interval later.
    unfoldable pub refuse_invalid : Action W (Unit {0})
    refuse_invalid = do
      modify_fo block_invalid
      has_primary ← gets_fo (λ fo. is_some fo.primary_ip)
      rearm_primary has_primary
      has_oob ← gets_fo (λ fo. is_some fo.oob_ip)
      rearm_oob has_oob

    unfoldable pub rearm_both : Bool → Bool → Action W (Unit {0})
    unfolding rearm_primary rearm_oob
    rearm_both primary_due oob_due = do rearm_primary primary_due; rearm_oob oob_due

    -- The observed OOB address is verified before a failback is tried.
    unfoldable pub note_moved : Role → DeviceFailover → Bool
    note_moved stored_role fo =
        not (role_eq stored_role fo.active_address) && role_eq fo.active_address oob

    unfoldable pub after_reconcile : Role → Action W (Unit {0})
    after_reconcile stored_role = do
      moved ← gets_fo (note_moved stored_role)
      rearm_primary moved
      if moved then modify_fo (set_next_oob now) else pure tt

    unfoldable pub primary_leg : Option String → Option String → Action W (Unit {0})
    primary_leg none oob_ip = pure tt
    primary_leg (some primary_ip) oob_ip = do
      is_primary_due ← gets_fo (λ fo. due fo.next_primary_probe_at now)
      if is_primary_due
          then probe_primary env cfg now primary_ip oob_ip job_active >>= rearm_primary
          else pure tt

    -- Not on the tick in which the active address changed.
    unfoldable pub oob_leg : Option String → Option String → Role → Action W (Unit {0})
    oob_leg primary_ip none addr_before = pure tt
    oob_leg primary_ip (some oob_ip) addr_before = do
      run ← gets_fo (λ fo. role_eq fo.active_address addr_before && due fo.next_oob_probe_at now)
      if run then probe_oob env cfg now primary_ip oob_ip job_active >>= rearm_oob else pure tt

    unfoldable pub probe_legs : Option String → Option String → Action W (Unit {0})
    unfolding primary_leg oob_leg
    probe_legs primary_ip oob_ip = do
      addr_before ← gets_fo (λ fo. fo.active_address)
      primary_leg primary_ip oob_ip
      oob_leg primary_ip oob_ip addr_before

    unfoldable pub reconciled :
        Option String → Option String → Bool → Bool → Role → Bool → Action W (Unit {0})
    unfolding rearm_both after_reconcile probe_legs
    reconciled primary_ip oob_ip primary_due oob_due stored_role false =
        rearm_both primary_due oob_due
    reconciled primary_ip oob_ip primary_due oob_due stored_role true = do
      after_reconcile stored_role
      probe_legs primary_ip oob_ip

    -- With the addresses that the tick goes by: an OOB address equal to the primary is none.
    unfoldable pub run_legs : Option String → Option String → Action W (Unit {0})
    unfolding reconciled
    run_legs primary_ip oob_ip = do
      primary_due ← gets_fo (λ fo. is_due primary_ip fo.next_primary_probe_at now)
      oob_due ← gets_fo (λ fo. is_due oob_ip fo.next_oob_probe_at now)
      wanted ← gets_fo (λ fo. is_wanted primary_ip oob_ip primary_due oob_due fo.manual_override)
      stored_role ← gets_fo (λ fo. fo.active_address)
      if wanted
          then reconcile_active_address env
            >>= reconciled primary_ip oob_ip primary_due oob_due stored_role
          else pure tt

    unfoldable pub distinct_oob : DeviceFailover → Reply (Option String)
    distinct_oob fo = elim (stored_address env fo.primary_ip) [
      | raised e ↦ raised e
      | returned p ↦ elim (stored_address env fo.oob_ip) [
        | raised e ↦ raised e
        | returned o ↦ returned (if ip_eq? o p then none else fo.oob_ip)
      ]
    ]

    unfoldable pub run_valid : Action W (Unit {0})
    unfolding run_legs distinct_oob
    run_valid = do
      fo ← gets_fo (λ fo. fo)
      oob_ip ← check_fo distinct_oob
      run_legs fo.primary_ip oob_ip

    unfoldable pub run_checked : List Role → Action W (Unit {0})
    unfolding run_valid refuse_invalid
    run_checked [] = run_valid
    run_checked (_ ∷ _) = refuse_invalid

    -- `run_failover_tick`
    unfoldable pub run_failover_tick : Action W (Unit {0})
    unfolding run_checked
    run_failover_tick = gets_fo (invalid_stored_address_fields env) >>= run_checked
