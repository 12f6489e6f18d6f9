-- ===== src/Failover/Budget.antt =====
-- The flip budget bounds the address writes of a tick of core/failover.py.
use nso_adapter.Prelude.{
  ℕ, ◌+◌, ◌*◌, ◌≤◌, String, ◌≡◌, Option, none, some, Bool, true, false, arith,
}
use nso_adapter.Failover.Row.{Role, DeviceFailover, TickConfig}
use nso_adapter.Failover.Client.{Env, Tick, Action, modify_fo, ◌>>=◌}
use nso_adapter.Failover.Harmless.{SameIps, harmless}
use nso_adapter.Failover.Keeps.{
  Keeps, keeps, Keeps-bind, Keeps-gets_fo, Keeps-if, Keeps-pure, Keeps-raise,
}
use nso_adapter.Failover.Cost.{
  Counts, IsPaid, Costs, IsPaid-Reads, free, granted, Costs-bind, Costs-set_address,
  Costs-revert_address, Costs-try_finally, Costs-unless_committed,
}
use nso_adapter.Failover.Address.{read_address, role_of_text}
use nso_adapter.Failover.Switch.{switch_to_oob}
use nso_adapter.Failover.Probes.{
  failover_now, failover_if, failover_known, failover_act, active_primary_probe, failback_flip,
  flip_if, flip_if_managed, failback_from, failback_flip_probe, probe_primary, oob_health_flip,
  oob_health_from, fallback_probe, probe_oob,
}
use nso_adapter.Failover.Tick.{run_failover_tick}
use nso_adapter.Failover.Reads.{
  modify_fo-Keeps, read_address-Keeps, role_of_text-Keeps, reconcile_active_address-Keeps,
  probe_reachable-Keeps, sync_if-Keeps, failback_body-Keeps, oob_health_body-Keeps,
  active_oob_probe-Keeps, run_failover_tick-Keeps,
}

module _ {W : Type 0} (env : Env W) (writes : W → ℕ) (law : Counts env writes) (cfg : TickConfig)
    (now top : ℕ) where
  modify :
      (n : ℕ) (f : DeviceFailover → DeviceFailover)
      → SameIps f
      → Keeps (IsPaid writes top n) (modify_fo f)
  modify n f e = modify_fo-Keeps env (IsPaid writes top n) (IsPaid-Reads env writes law top n) f e

  failover_now-Costs : (o : Option String) → Costs env writes law top 2 (failover_now env cfg now o)
  unfolding failover_now switch_to_oob
  failover_now-Costs none = free env writes law top _ _ (λ n. search keeps)
  failover_now-Costs (some a) =
      Costs-bind env writes law top 0 2 2 _ _ (omega arith)
        (free env writes law top _ _ (λ n. modify n _ (search harmless)))
        λ _.
          Costs-bind env writes law top 1 0 2 _ _ (omega arith)
            (Costs-bind env writes law top 1 0 1 _ _ (omega arith)
              (Costs-set_address env writes law top a)
              (λ _. free env writes law top _ _ (λ n.
                Keeps-bind _ _ (modify n _ (search harmless)) (λ _.
                  sync_if-Keeps env (IsPaid writes top n) (IsPaid-Reads env writes law top n) _))))
            (λ _. free env writes law top _ _ (λ n. Keeps-pure true))

  failover_known-Keeps :
      (n : ℕ) (o : Option String) (b : Bool)
      → Keeps (IsPaid writes top n) (failover_known env cfg now o b)
  unfolding failover_known failover_if
  failover_known-Keeps n o false =
      Keeps-bind _ _ (modify n _ (search harmless)) (λ _. Keeps-pure true)
  failover_known-Keeps n o true = Keeps-bind _ _ (Keeps-gets_fo _) λ _.
      Keeps-if _ _ _
        (granted env writes law top _ (failover_now-Costs o)
          (λ k. Keeps-bind _ _ (modify k _ (search harmless)) (λ _. Keeps-pure false)) n)
        (Keeps-pure true)

  failover_act-Keeps :
      (n : ℕ) (o : Option String) (job act : Bool)
      → Keeps (IsPaid writes top n) (failover_act env cfg now o job act)
  unfolding failover_act
  failover_act-Keeps n o job false = Keeps-pure true
  failover_act-Keeps n o job true = Keeps-if _ _ _ (failover_known-Keeps n o false) (
      Keeps-bind _ _
        (reconcile_active_address-Keeps env (IsPaid writes top n)
          (IsPaid-Reads env writes law top n))
        (failover_known-Keeps n o))

  active_primary_probe-Keeps :
      (n : ℕ) (o : Option String) (job : Bool)
      → Keeps (IsPaid writes top n) (active_primary_probe env cfg now o job)
  unfolding active_primary_probe
  active_primary_probe-Keeps n o job =
      Keeps-bind _ _ (probe_reachable-Keeps env _ (IsPaid-Reads env writes law top n) _) λ _.
        Keeps-bind _ _ (modify n _ (search harmless)) λ _.
          Keeps-bind _ _ (Keeps-gets_fo _)
            λ _. Keeps-bind _ _ (modify n _ (search harmless)) λ _. failover_act-Keeps n o job _

  failback_flip-Costs : (a b : String) → Costs env writes law top 2 (failback_flip env cfg now a b)
  unfolding failback_flip
  failback_flip-Costs a b =
      Costs-bind env writes law top 0 2 2 _ _ (omega arith)
        (free env writes law top _ _ (λ n. modify n _ (search harmless)))
        λ _.
          Costs-bind env writes law top 1 1 2 _ _ (omega arith)
            (Costs-set_address env writes law top a)
            λ _.
              Costs-bind env writes law top 1 0 1 _ _ (omega arith)
                (Costs-unless_committed env writes law top _ _
                  (λ n. failback_body-Keeps env _ (IsPaid-Reads env writes law top n) cfg now)
                  (Costs-revert_address env writes law top b))
                (λ _. free env writes law top _ _ (λ n. Keeps-pure true))

  oob_health_flip-Costs :
      (a b : String) → Costs env writes law top 2 (oob_health_flip env cfg now a b)
  unfolding oob_health_flip
  oob_health_flip-Costs a b =
      Costs-bind env writes law top 0 2 2 _ _ (omega arith)
        (free env writes law top _ _ (λ n. modify n _ (search harmless)))
        λ _.
          Costs-bind env writes law top 1 1 2 _ _ (omega arith)
            (Costs-set_address env writes law top a)
            λ _.
              Costs-bind env writes law top 1 0 1 _ _ (omega arith)
                (Costs-try_finally env writes law top 1 _ _
                  (λ n. oob_health_body-Keeps env _ (IsPaid-Reads env writes law top n) cfg now)
                  (Costs-revert_address env writes law top b))
                (λ _. free env writes law top _ _ (λ n. Keeps-pure true))

  flip_if_managed-Keeps :
      (n : ℕ) (flip : String → Action W Bool) (a : String) (r : Option Role)
      → Costs env writes law top 2 (flip a)
      → Keeps (IsPaid writes top n) (flip_if_managed env cfg now flip a r)
  unfolding flip_if_managed flip_if
  flip_if_managed-Keeps n flip a none c =
      Keeps-bind _ _ (modify n _ (search harmless)) (λ _. Keeps-pure true)
  flip_if_managed-Keeps n flip a (some _) c =
      granted env writes law top _ c (λ k. Keeps-pure false) n

  read-Keeps :
      (n : ℕ) (f : Option String → Action W Bool)
      → ((o : Option String) → Keeps (IsPaid writes top n) (f o))
      → Keeps (IsPaid writes top n) (read_address env >>= f)
  read-Keeps n f kf =
      Keeps-bind _ _ (read_address-Keeps env _ (IsPaid-Reads env writes law top n)) kf

  role-Keeps :
      (n : ℕ) (a : String) (f : Option Role → Action W Bool)
      → ((o : Option Role) → Keeps (IsPaid writes top n) (f o))
      → Keeps (IsPaid writes top n) (role_of_text env a >>= f)
  role-Keeps n a f kf =
      Keeps-bind _ _ (role_of_text-Keeps env _ (IsPaid-Reads env writes law top n) a) kf

  failback_from-Keeps :
      (n : ℕ) (a : String) (o : Option String)
      → Keeps (IsPaid writes top n) (failback_from env cfg now a o)
  unfolding failback_from
  failback_from-Keeps n a none =
      Keeps-bind _ _ (modify n _ (search harmless)) (λ _. Keeps-pure true)
  failback_from-Keeps n a (some b) = Keeps-bind _ _ (modify n _ (search harmless)) λ _.
      role-Keeps n b _
        λ r. flip_if_managed-Keeps n (failback_flip env cfg now a) b r (failback_flip-Costs a b)

  probe_primary-Keeps :
      (n : ℕ) (job : Bool) (a : String) (o : Option String)
      → Keeps (IsPaid writes top n) (probe_primary env cfg now a o job)
  unfolding probe_primary failback_flip_probe
  probe_primary-Keeps n job a o = Keeps-bind _ _ (Keeps-gets_fo _) λ _.
      Keeps-if _ _ _ (active_primary_probe-Keeps n o job)
        (Keeps-if _ _ _ (Keeps-pure true) (read-Keeps n _ (failback_from-Keeps n a)))

  oob_health_from-Keeps :
      (n : ℕ) (a : String) (o : Option String)
      → Keeps (IsPaid writes top n) (oob_health_from env cfg now a o)
  unfolding oob_health_from
  oob_health_from-Keeps n a none =
      Keeps-bind _ _ (modify n _ (search harmless)) (λ _. Keeps-pure true)
  oob_health_from-Keeps n a (some b) =
      role-Keeps n b _
        λ r. flip_if_managed-Keeps n (oob_health_flip env cfg now a) b r (oob_health_flip-Costs a b)

  fallback_probe-Keeps :
      (n : ℕ) (job : Bool) (p : Option String) (a : String)
      → Keeps (IsPaid writes top n) (fallback_probe env cfg now p a job)
  unfolding fallback_probe
  fallback_probe-Keeps n job none a = Keeps-raise _
  fallback_probe-Keeps n job (some _) a =
      Keeps-if _ _ _ (Keeps-pure true) (read-Keeps n _ (oob_health_from-Keeps n a))

  probe_oob-Keeps :
      (n : ℕ) (job : Bool) (p : Option String) (a : String)
      → Keeps (IsPaid writes top n) (probe_oob env cfg now p a job)
  unfolding probe_oob
  probe_oob-Keeps n job p a = Keeps-bind _ _ (Keeps-gets_fo _) λ _.
      Keeps-if _ _ _ (active_oob_probe-Keeps env _ (IsPaid-Reads env writes law top n) cfg now)
        (fallback_probe-Keeps n job p a)

  pub tick-IsPaid :
      (n : ℕ) (job : Bool) (jitter : ℕ)
      → Keeps (IsPaid writes top n) (run_failover_tick env cfg now job jitter)
  tick-IsPaid n job jitter =
      run_failover_tick-Keeps env (IsPaid writes top n) (IsPaid-Reads env writes law top n) cfg now
        job jitter (probe_primary-Keeps n job) (probe_oob-Keeps n job)

-- A tick that starts with a budget of `n` flips ends with a budget of at most `n`, and makes at most
-- two address writes for each flip that it took from the budget, however the client's calls end.
pub flip_budget_bounds_writes :
    {W : Type 0} (env : Env W) (writes : W → ℕ) (law : Counts env writes) (cfg : TickConfig)
    (now jitter n : ℕ) (job_active : Bool) (s : Tick W)
    → s.flip_budget ≡ some n
    → let s' = (run_failover_tick env cfg now job_active jitter s).1 in
      (m : ℕ) × (s'.flip_budget ≡ some m)
      × (m ≤ n)
      × (writes s'.world + 2 * m ≤ writes s.world + 2 * n)
flip_budget_bounds_writes env writes law cfg now jitter n job_active s h =
    let paid =
      (tick-IsPaid env writes law cfg now n (writes s.world + 2 * n) job_active jitter).at s
        (record { left = n; held = h; at_most = omega arith; bound = omega arith }) in
    (paid.left, paid.held, paid.at_most, paid.bound)
