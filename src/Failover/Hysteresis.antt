-- ===== src/Failover/Hysteresis.antt =====
-- The pure counters of core/failover.py: `step_failover`, `step_failback` and `FlipBudget`.
pub mod Streaks
use nso_adapter.Prelude.{ℕ, ◌+◌, ◌-◌, Bool, true, false, ◌&&◌, leb, ◌==◌, if◌then◌else◌}

-- The new counters, and whether to switch now.
pub record CounterStep : Type 0 where
  pub failures : ℕ
  pub successes : ℕ
  pub act : Bool

unfoldable pub step_failover : Bool → ℕ → Bool → ℕ → CounterStep
step_failover reachable failures has_oob threshold =
    if reachable
    then record { failures = 0; successes = 0; act = false }
    else if has_oob && leb threshold (failures + 1)
    then record { failures = 0; successes = 0; act = true }
    else record { failures = failures + 1; successes = 0; act = false }

unfoldable pub step_failback : Bool → ℕ → ℕ → CounterStep
step_failback reachable successes threshold =
    if reachable
    then if leb threshold (successes + 1)
      then record { failures = 0; successes = 0; act = true }
      else record { failures = 0; successes = successes + 1; act = false }
    else record { failures = 0; successes = 0; act = false }

-- `FlipBudget.take`, on `remaining`. The limit is a column that the API keeps at 0 or more.
unfoldable pub take : ℕ → Bool × ℕ
take remaining = if remaining == 0 then (false, remaining) else (true, remaining - 1)
