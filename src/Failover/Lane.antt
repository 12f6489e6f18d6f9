-- ===== src/Failover/Lane.antt =====
-- A tick beside a running job: core/failover.py defers every switch and every flip.
use nso_adapter.Prelude.{ℕ, String, ◌≡◌, refl, ◌∙◌, Option, none, some, Bool, true, false}
use nso_adapter.Failover.Row.{DeviceFailover, TickConfig}
use nso_adapter.Failover.Client.{Env, Tick, modify_fo}
use nso_adapter.Failover.Harmless.{SameIps, harmless}
use nso_adapter.Failover.Keeps.{Keeps, keeps, Keeps-bind, Keeps-gets_fo, Keeps-if}
use nso_adapter.Failover.Probes.{
  probe_primary, probe_oob, active_primary_probe, failover_act, failover_known, failback_flip_probe,
  fallback_probe,
}
use nso_adapter.Failover.Tick.{run_failover_tick}
use nso_adapter.Failover.Reads.{
  Reads, modify_fo-Keeps, probe_reachable-Keeps, active_oob_probe-Keeps, run_failover_tick-Keeps,
}

-- A part of the world that no call but `set_address` changes: the address that NSO holds, say.
pub record IsConfig {W V : Type 0} (env : Env W) (view : W → V) : Type 0 where
  pub get_address : (w : W) → view (env.get_address w).1 ≡ view w
  pub disconnect : (w : W) → view (env.disconnect w).1 ≡ view w
  pub sync_from : (w : W) → view (env.sync_from w).1 ≡ view w
  pub connect : (n : ℕ) (w : W) → view (env.connect n w).1 ≡ view w
  pub uniform : (n : ℕ) (w : W) → view (env.uniform n w).1 ≡ view w

-- The invariant: the view is `v`.
record Holds {W V : Type 0} (view : W → V) (v : V) (s : Tick W) : Type 0 where
  same : view s.world ≡ v

module _ {W V : Type 0} (env : Env W) (view : W → V) (law : IsConfig env view) where
  Holds-Reads : (v : V) → Reads env (Holds view v)
  Holds-Reads v = record {
    row = λ f e s h. record { same = h.same };
    get_address = λ s h. record { same = law.get_address s.world ∙ h.same };
    disconnect = λ s h. record { same = law.disconnect s.world ∙ h.same };
    sync_from = λ s h. record { same = law.sync_from s.world ∙ h.same };
    connect = λ n s h. record { same = law.connect n s.world ∙ h.same };
    uniform = λ n s h. record { same = law.uniform n s.world ∙ h.same };
  }

  module _ (cfg : TickConfig) (now : ℕ) (v : V) where
    modify-Keeps :
        (f : DeviceFailover → DeviceFailover) → SameIps f → Keeps (Holds view v) (modify_fo f)
    modify-Keeps = modify_fo-Keeps env (Holds view v) (Holds-Reads v)

    failover_act-Keeps :
        (b : Option String) (act : Bool)
        → Keeps (Holds view v) (failover_act env cfg now b true act)
    unfolding failover_act failover_known
    failover_act-Keeps b false = search keeps
    failover_act-Keeps b true = search (keeps, modify-Keeps, harmless)

    active_primary_probe-Keeps :
        (b : Option String) → Keeps (Holds view v) (active_primary_probe env cfg now b true)
    unfolding active_primary_probe
    active_primary_probe-Keeps b =
        search
          (
            keeps,
            modify-Keeps,
            harmless,
            failover_act-Keeps,
            probe_reachable-Keeps env (Holds view v) (Holds-Reads v),
          )
          depth 9

    probe_primary-Keeps :
        (a : String) (b : Option String) → Keeps (Holds view v) (probe_primary env cfg now a b true)
    unfolding probe_primary failback_flip_probe
    probe_primary-Keeps a b = search (keeps, active_primary_probe-Keeps)

    fallback_probe-Keeps :
        (a : Option String) (b : String)
        → Keeps (Holds view v) (fallback_probe env cfg now a b true)
    unfolding fallback_probe
    fallback_probe-Keeps none b = search keeps
    fallback_probe-Keeps (some a) b = search keeps

    probe_oob-Keeps :
        (a : Option String) (b : String) → Keeps (Holds view v) (probe_oob env cfg now a b true)
    unfolding probe_oob
    probe_oob-Keeps a b = Keeps-bind _ _ (Keeps-gets_fo _) λ r.
        Keeps-if _ _ _ (active_oob_probe-Keeps env (Holds view v) (Holds-Reads v) cfg now)
          (fallback_probe-Keeps a b)

  -- A tick with a job in the device's lane leaves alone whatever only `set_address` can change,
  -- such as the address that NSO holds, in every state and however the client's calls end.
  pub job_active_writes_nothing :
      (cfg : TickConfig) (now jitter : ℕ) (s : Tick W)
      → view (run_failover_tick env cfg now true jitter s).1.world ≡ view s.world
  job_active_writes_nothing cfg now jitter s =
      ((run_failover_tick-Keeps env (Holds view (view s.world)) (Holds-Reads (view s.world)) cfg now
          true jitter (probe_primary-Keeps cfg now (view s.world))
          (probe_oob-Keeps cfg now (view s.world))).at
        s (record { same = refl })).same
