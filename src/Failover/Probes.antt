-- ===== src/Failover/Probes.antt =====
-- The per-address probe handlers of core/failover.py. Each returns whether the probe ran.
use nso_adapter.Prelude.{ℕ, String, Option, none, some, is_some, Bool, true, false, if◌then◌else◌}
use nso_adapter.Failover.Row.{
  Role, primary, oob, ReachabilityProbe, DeviceFailover, TickConfig, role_eq,
}
use nso_adapter.Failover.Client.{
  other_exception, Env, Action, unless_committed, ◌>>=◌, ◌>>◌, pure, raise, gets_fo, modify_fo,
  try_finally,
}
use nso_adapter.Failover.Hysteresis.{CounterStep, step_failover, step_failback}
use nso_adapter.Failover.Address.{
  block_unreadable, clear_unreadable, override, role_of_text, set_address, revert_address,
  read_address, reconcile_active_address,
}
use nso_adapter.Failover.Switch.{
  coerce_probe, reachable, record_probe, record_oob_health, probe_reachable, switch_to_oob,
  commit_failback, take_flip,
}

abbrev pub set_counters : CounterStep → DeviceFailover → DeviceFailover
set_counters step fo = record fo {
  consecutive_failures = step.failures;
  consecutive_successes = step.successes;
}

abbrev pub set_failures : ℕ → DeviceFailover → DeviceFailover
set_failures n fo = record fo { consecutive_failures = n }

abbrev pub release_override : DeviceFailover → DeviceFailover
release_override fo = record fo { manual_override = false }

module _ {W : Type 0} (env : Env W) (cfg : TickConfig) (now : ℕ) where
  unfoldable pub failover_now : Option String → Action W Bool
  failover_now none = raise (other_exception "failover switch has no OOB address")
  failover_now (some oob_ip) = do
    modify_fo release_override
    switch_to_oob env oob_ip cfg now
    pure true

  -- The switch, once the budget has answered.
  unfoldable pub failover_if : Option String → Bool → Action W Bool
  unfolding failover_now
  failover_if oob_ip true = failover_now oob_ip
  failover_if oob_ip false = modify_fo (set_failures cfg.failure_threshold) >> pure false

  -- After the reconcile: NSO may be on the OOB address already.
  unfoldable pub failover_known : Option String → Bool → Action W Bool
  unfolding failover_if
  failover_known oob_ip false = modify_fo (set_failures cfg.failure_threshold) >> pure true
  failover_known oob_ip true = do
    role ← gets_fo (λ fo. fo.active_address)
    if role_eq role primary then take_flip >>= failover_if oob_ip else pure true

  unfoldable pub failover_act : Option String → Bool → Bool → Action W Bool
  unfolding failover_known
  failover_act oob_ip job_active false = pure true
  failover_act oob_ip job_active true =
      if job_active
      then failover_known oob_ip false
      else reconcile_active_address env >>= failover_known oob_ip

  -- The counters after one probe of the active primary address.
  abbrev pub count_failover : ReachabilityProbe → Option String → DeviceFailover → CounterStep
  count_failover p oob_ip fo =
      step_failover (reachable p) fo.consecutive_failures (is_some oob_ip) cfg.failure_threshold

  -- `_active_primary_probe`
  unfoldable pub active_primary_probe : Option String → Bool → Action W Bool
  unfolding failover_act
  active_primary_probe oob_ip job_active = do
    reply ← probe_reachable env cfg.active_probe_timeout
    let outcome = coerce_probe reply
    modify_fo (record_probe now outcome primary)
    step ← gets_fo (count_failover outcome oob_ip)
    modify_fo (set_counters step)
    failover_act oob_ip job_active step.act

  -- What stands in the `try`: true if the failback was committed.
  unfoldable pub failback_body : Action W Bool
  failback_body = do
    reply ← probe_reachable env cfg.probe_timeout
    let outcome = coerce_probe reply
    modify_fo (record_probe now outcome primary)
    step ←
        gets_fo
          (λ fo. step_failback (reachable outcome) fo.consecutive_successes cfg.success_threshold)
    modify_fo (set_counters step)
    if step.act then commit_failback env cfg now >> pure true else pure false

  unfoldable pub failback_flip : String → String → Action W Bool
  unfolding failback_body unless_committed
  failback_flip primary_ip address_before = do
    modify_fo release_override
    set_address env primary_ip
    unless_committed failback_body (revert_address env address_before)
    pure true

  -- The flip itself, once NSO's own address is known.
  unfoldable pub flip_if : (String → Action W Bool) → String → Bool → Action W Bool
  flip_if flip address_before true = flip address_before
  flip_if flip address_before false = pure false

  -- An address that is neither stored one is the operator's, and is left alone.
  unfoldable pub flip_if_managed : (String → Action W Bool) → String → Option Role → Action W Bool
  unfolding flip_if
  flip_if_managed flip address_before none = modify_fo override >> pure true
  flip_if_managed flip address_before (some _) = take_flip >>= flip_if flip address_before

  unfoldable pub failback_from : String → Option String → Action W Bool
  unfolding failback_flip flip_if_managed
  failback_from primary_ip none = modify_fo block_unreadable >> pure true
  failback_from primary_ip (some address_before) = do
    modify_fo clear_unreadable
    role ← role_of_text env address_before
    flip_if_managed (failback_flip primary_ip) address_before role

  -- `_failback_flip_probe`
  unfoldable pub failback_flip_probe : String → Bool → Action W Bool
  unfolding failback_from
  failback_flip_probe primary_ip job_active =
      if job_active then pure true else read_address env >>= failback_from primary_ip

  -- `_probe_primary`
  unfoldable pub probe_primary : String → Option String → Bool → Action W Bool
  probe_primary primary_ip oob_ip job_active = do
    role ← gets_fo (λ fo. fo.active_address)
    if role_eq role primary
        then active_primary_probe oob_ip job_active
        else failback_flip_probe primary_ip job_active

  -- `_probe_oob` on OOB: liveness only.
  unfoldable pub active_oob_probe : Action W Bool
  active_oob_probe = do
    reply ← probe_reachable env cfg.active_probe_timeout
    let outcome = coerce_probe reply
    modify_fo (record_probe now outcome oob)
    modify_fo (record_oob_health now outcome)
    pure true

  unfoldable pub oob_health_body : Action W (Unit {0})
  oob_health_body = do
    reply ← probe_reachable env cfg.probe_timeout
    modify_fo (record_oob_health now (coerce_probe reply))

  unfoldable pub oob_health_flip : String → String → Action W Bool
  unfolding oob_health_body
  oob_health_flip oob_ip address_before = do
    modify_fo release_override
    set_address env oob_ip
    try_finally oob_health_body (revert_address env address_before)
    pure true

  unfoldable pub oob_health_from : String → Option String → Action W Bool
  unfolding oob_health_flip flip_if_managed
  oob_health_from oob_ip none = modify_fo block_unreadable >> pure true
  oob_health_from oob_ip (some address_before) = do
    role ← role_of_text env address_before
    flip_if_managed (oob_health_flip oob_ip) address_before role

  -- `_probe_oob` on primary: a flip to the OOB address and back.
  unfoldable pub fallback_probe : Option String → String → Bool → Action W Bool
  unfolding oob_health_from
  fallback_probe none oob_ip job_active =
      raise (other_exception "proactive OOB flip-probe without a primary address")
  fallback_probe (some _) oob_ip job_active =
      if job_active then pure true else read_address env >>= oob_health_from oob_ip

  -- `_probe_oob`
  unfoldable pub probe_oob : Option String → String → Bool → Action W Bool
  probe_oob primary_ip oob_ip job_active = do
    role ← gets_fo (λ fo. fo.active_address)
    if role_eq role oob then active_oob_probe else fallback_probe primary_ip oob_ip job_active
