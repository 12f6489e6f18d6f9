-- ===== src/Failover/Reads.antt =====
-- Actions of the failover tick that write no address: they keep every invariant that NSO's reads
-- keep and that says nothing of the row.
use nso_adapter.Prelude.{ℕ, String, Option, none, some, Bool, true, false, List, [], ◌∷◌}
use nso_adapter.Failover.Row.{Role, IpAddress, DeviceFailover, TickConfig}
use nso_adapter.Failover.Client.{Env, Tick, modify_fo, call}
use nso_adapter.Failover.Harmless.{SameIps, harmless}
use nso_adapter.Failover.Keeps.{Keeps, keeps}
use nso_adapter.Failover.Switch.{probe_reachable, draw, next_due, sync_if, commit_failback}
use nso_adapter.Failover.Probes.{
  failback_body, oob_health_body, active_oob_probe, probe_primary, probe_oob,
}
use nso_adapter.Failover.Tick.{
  rearm_primary, rearm_oob, refuse_invalid, rearm_both, after_reconcile, primary_leg, oob_leg,
  probe_legs, reconciled, run_legs, run_valid, run_checked, run_failover_tick,
}
use nso_adapter.Failover.Address.{
  safe_disconnect, safe_sync_from, role_of, role_of_text, parse_read, parse_current, read_address,
  read_current, settle_role, settle_current, reconcile_active_address,
}

-- What is asked of an invariant: of the row it speaks of the stored addresses only, and no call
-- but `set_address` breaks it.
pub record Reads {W : Type 0} (env : Env W) (P : Tick W → Type 0) : Type 0 where
  pub row :
      (f : DeviceFailover → DeviceFailover)
      → SameIps f
      → (s : Tick W) → P s
      → P (record s { fo = f s.fo })
  pub get_address : (s : Tick W) → P s → P (record s { world = (env.get_address s.world).1 })
  pub disconnect : (s : Tick W) → P s → P (record s { world = (env.disconnect s.world).1 })
  pub sync_from : (s : Tick W) → P s → P (record s { world = (env.sync_from s.world).1 })
  pub connect : (n : ℕ) (s : Tick W) → P s → P (record s { world = (env.connect n s.world).1 })
  pub uniform : (n : ℕ) (s : Tick W) → P s → P (record s { world = (env.uniform n s.world).1 })

module _ {W : Type 0} (env : Env W) (P : Tick W → Type 0) (reads : Reads env P) where
  pub modify_fo-Keeps : (f : DeviceFailover → DeviceFailover) → SameIps f → Keeps P (modify_fo f)
  unfolding modify_fo
  modify_fo-Keeps f e = record { at = λ s h. reads.row f e s h }

  call_get_address : Keeps P (call env.get_address)
  unfolding call
  call_get_address = record { at = λ s h. reads.get_address s h }

  call_disconnect : Keeps P (call env.disconnect)
  unfolding call
  call_disconnect = record { at = λ s h. reads.disconnect s h }

  call_sync_from : Keeps P (call env.sync_from)
  unfolding call
  call_sync_from = record { at = λ s h. reads.sync_from s h }

  pub safe_disconnect-Keeps : Keeps P (safe_disconnect env)
  unfolding safe_disconnect
  safe_disconnect-Keeps = search (keeps, call_disconnect)

  pub safe_sync_from-Keeps : Keeps P (safe_sync_from env)
  unfolding safe_sync_from
  safe_sync_from-Keeps = search (keeps, call_sync_from)

  pub role_of_text-Keeps : (t : String) → Keeps P (role_of_text env t)
  unfolding role_of_text
  role_of_text-Keeps t = search keeps

  parse_read-Keeps : (o : Option String) → Keeps P (parse_read env o)
  unfolding parse_read
  parse_read-Keeps none = search keeps
  parse_read-Keeps (some t) = search keeps

  parse_current-Keeps : (o : Option String) → Keeps P (parse_current env o)
  unfolding parse_current
  parse_current-Keeps none = search keeps
  parse_current-Keeps (some t) = search keeps

  pub read_address-Keeps : Keeps P (read_address env)
  unfolding read_address
  read_address-Keeps = search (keeps, call_get_address, parse_read-Keeps)

  read_current-Keeps : Keeps P (read_current env)
  unfolding read_current
  read_current-Keeps = search (keeps, call_get_address, parse_current-Keeps)

  settle_role-Keeps : (o : Option Role) → Keeps P (settle_role {W = W} o)
  unfolding settle_role
  settle_role-Keeps none = search (keeps, modify_fo-Keeps, harmless)
  settle_role-Keeps (some role) = search (keeps, modify_fo-Keeps, harmless)

  settle_current-Keeps : (o : Option IpAddress) → Keeps P (settle_current env o)
  unfolding settle_current role_of
  settle_current-Keeps none = search (keeps, modify_fo-Keeps, harmless)
  settle_current-Keeps (some a) = search (keeps, modify_fo-Keeps, harmless, settle_role-Keeps)

  pub reconcile_active_address-Keeps : Keeps P (reconcile_active_address env)
  unfolding reconcile_active_address
  reconcile_active_address-Keeps = search (keeps, read_current-Keeps, settle_current-Keeps)

  pub probe_reachable-Keeps : (n : ℕ) → Keeps P (probe_reachable env n)
  unfolding probe_reachable call
  probe_reachable-Keeps n = record { at = λ s h. reads.connect n s h }

  draw-Keeps : (n : ℕ) → Keeps P (draw env n)
  unfolding draw call
  draw-Keeps n = record { at = λ s h. reads.uniform n s h }

  pub next_due-Keeps : (now n f : ℕ) → Keeps P (next_due env now n f)
  unfolding next_due
  next_due-Keeps now n f = search (keeps, draw-Keeps)

  pub sync_if-Keeps : (b : Bool) → Keeps P (sync_if env b)
  unfolding sync_if
  sync_if-Keeps b = search (keeps, safe_sync_from-Keeps)

  pub commit_failback-Keeps : (cfg : TickConfig) (now : ℕ) → Keeps P (commit_failback env cfg now)
  unfolding commit_failback
  commit_failback-Keeps cfg now =
      search (keeps, modify_fo-Keeps, harmless, next_due-Keeps, sync_if-Keeps)

  module _ (cfg : TickConfig) (now : ℕ) where
    pub failback_body-Keeps : Keeps P (failback_body env cfg now)
    unfolding failback_body
    failback_body-Keeps =
        search (keeps, modify_fo-Keeps, harmless, probe_reachable-Keeps, commit_failback-Keeps)
          depth 9

    pub oob_health_body-Keeps : Keeps P (oob_health_body env cfg now)
    unfolding oob_health_body
    oob_health_body-Keeps = search (keeps, modify_fo-Keeps, harmless, probe_reachable-Keeps)

    pub active_oob_probe-Keeps : Keeps P (active_oob_probe env cfg now)
    unfolding active_oob_probe
    active_oob_probe-Keeps = search (keeps, modify_fo-Keeps, harmless, probe_reachable-Keeps)

  -- The tick around the two probe handlers.
  module _ (cfg : TickConfig) (now : ℕ) (job_active : Bool) (jitter : ℕ) where
    rearm_primary-Keeps : (b : Bool) → Keeps P (rearm_primary env cfg now job_active jitter b)
    unfolding rearm_primary
    rearm_primary-Keeps false = search keeps
    rearm_primary-Keeps true = search (keeps, modify_fo-Keeps, harmless, next_due-Keeps)

    rearm_oob-Keeps : (b : Bool) → Keeps P (rearm_oob env cfg now job_active jitter b)
    unfolding rearm_oob
    rearm_oob-Keeps false = search keeps
    rearm_oob-Keeps true = search (keeps, modify_fo-Keeps, harmless, next_due-Keeps)

    refuse_invalid-Keeps : Keeps P (refuse_invalid env cfg now job_active jitter)
    unfolding refuse_invalid
    refuse_invalid-Keeps =
        search (keeps, modify_fo-Keeps, harmless, rearm_primary-Keeps, rearm_oob-Keeps) depth 9

    rearm_both-Keeps : (a b : Bool) → Keeps P (rearm_both env cfg now job_active jitter a b)
    unfolding rearm_both
    rearm_both-Keeps a b = search (keeps, rearm_primary-Keeps, rearm_oob-Keeps)

    after_reconcile-Keeps : (r : Role) → Keeps P (after_reconcile env cfg now job_active jitter r)
    unfolding after_reconcile
    after_reconcile-Keeps r = search (keeps, modify_fo-Keeps, harmless, rearm_primary-Keeps)

    module _
        (on_primary : (a : String) (b : Option String)
          → Keeps P (probe_primary env cfg now a b job_active))
        (on_oob : (a : Option String) (b : String)
          → Keeps P (probe_oob env cfg now a b job_active)) where
      primary_leg-Keeps :
          (a b : Option String) → Keeps P (primary_leg env cfg now job_active jitter a b)
      unfolding primary_leg
      primary_leg-Keeps none b = search keeps
      primary_leg-Keeps (some a) b = search (keeps, rearm_primary-Keeps)

      oob_leg-Keeps :
          (a b : Option String) (r : Role) → Keeps P (oob_leg env cfg now job_active jitter a b r)
      unfolding oob_leg
      oob_leg-Keeps a none r = search keeps
      oob_leg-Keeps a (some b) r = search (keeps, rearm_oob-Keeps)

      probe_legs-Keeps :
          (a b : Option String) → Keeps P (probe_legs env cfg now job_active jitter a b)
      unfolding probe_legs
      probe_legs-Keeps a b = search (keeps, primary_leg-Keeps, oob_leg-Keeps)

      reconciled-Keeps :
          (a b : Option String) (p o : Bool) (r : Role) (done : Bool)
          → Keeps P (reconciled env cfg now job_active jitter a b p o r done)
      unfolding reconciled
      reconciled-Keeps a b p o r false = search rearm_both-Keeps
      reconciled-Keeps a b p o r true = search (keeps, after_reconcile-Keeps, probe_legs-Keeps)

      run_legs-Keeps : (a b : Option String) → Keeps P (run_legs env cfg now job_active jitter a b)
      unfolding run_legs
      run_legs-Keeps a b = search (keeps, reconcile_active_address-Keeps, reconciled-Keeps) depth 9

      run_checked-Keeps : (l : List Role) → Keeps P (run_checked env cfg now job_active jitter l)
      unfolding run_checked run_valid
      run_checked-Keeps [] = search (keeps, run_legs-Keeps)
      run_checked-Keeps (_ ∷ _) = search refuse_invalid-Keeps

      -- Probe handlers that keep an invariant make a tick that keeps it.
      pub run_failover_tick-Keeps : Keeps P (run_failover_tick env cfg now job_active jitter)
      unfolding run_failover_tick
      run_failover_tick-Keeps = search (keeps, run_checked-Keeps)
