-- ===== src/Failover/Harmless.antt =====
-- The changes of the row that a tick makes: none touches the two stored addresses, which only the
-- ingestion of the plugin's report writes.
use nso_adapter.Prelude.{ℕ, ◌≡◌, refl, arith}
use nso_adapter.Failover.Row.{Role, ReachabilityProbe, DeviceFailover}
use nso_adapter.Failover.Hysteresis.{CounterStep}
use nso_adapter.Failover.Address.{block_unreadable, clear_unreadable, adopt_role, override}
use nso_adapter.Failover.Switch.{
  record_probe, record_oob_health, switched_to_oob, failed_back, set_next_oob, set_next_primary,
}
use nso_adapter.Failover.Probes.{set_counters, set_failures, release_override}
use nso_adapter.Failover.Tick.{block_invalid}

pub record SameIps (f : DeviceFailover → DeviceFailover) : Type 0 where
  pub primary : (fo : DeviceFailover) → (f fo).primary_ip ≡ fo.primary_ip
  pub oob : (fo : DeviceFailover) → (f fo).oob_ip ≡ fo.oob_ip

pub SameIps-block_unreadable : SameIps block_unreadable
unfolding block_unreadable
SameIps-block_unreadable = record { primary = λ fo. ground arith; oob = λ fo. ground arith }

pub SameIps-clear_unreadable : SameIps clear_unreadable
unfolding clear_unreadable
SameIps-clear_unreadable = record { primary = λ fo. ground arith; oob = λ fo. ground arith }

pub SameIps-adopt_role : (r : Role) → SameIps (adopt_role r)
unfolding adopt_role
SameIps-adopt_role r = record { primary = λ fo. ground arith; oob = λ fo. ground arith }

pub SameIps-override : SameIps override
SameIps-override = record { primary = λ fo. refl; oob = λ fo. refl }

pub SameIps-record_probe :
    (now : ℕ) (p : ReachabilityProbe) (r : Role) → SameIps (record_probe now p r)
unfolding record_probe
SameIps-record_probe now p r = record { primary = λ fo. refl; oob = λ fo. refl }

pub SameIps-record_oob_health :
    (now : ℕ) (p : ReachabilityProbe) → SameIps (record_oob_health now p)
unfolding record_oob_health
SameIps-record_oob_health now p = record { primary = λ fo. refl; oob = λ fo. refl }

pub SameIps-switched_to_oob : (now : ℕ) → SameIps (switched_to_oob now)
SameIps-switched_to_oob now = record { primary = λ fo. refl; oob = λ fo. refl }

pub SameIps-failed_back : (now : ℕ) → SameIps (failed_back now)
SameIps-failed_back now = record { primary = λ fo. refl; oob = λ fo. refl }

pub SameIps-set_next_oob : (at : ℕ) → SameIps (set_next_oob at)
SameIps-set_next_oob at = record { primary = λ fo. refl; oob = λ fo. refl }

pub SameIps-set_next_primary : (at : ℕ) → SameIps (set_next_primary at)
SameIps-set_next_primary at = record { primary = λ fo. refl; oob = λ fo. refl }

pub SameIps-set_counters : (c : CounterStep) → SameIps (set_counters c)
SameIps-set_counters c = record { primary = λ fo. refl; oob = λ fo. refl }

pub SameIps-set_failures : (n : ℕ) → SameIps (set_failures n)
SameIps-set_failures n = record { primary = λ fo. refl; oob = λ fo. refl }

pub SameIps-release_override : SameIps release_override
SameIps-release_override = record { primary = λ fo. refl; oob = λ fo. refl }

pub SameIps-block_invalid : SameIps block_invalid
SameIps-block_invalid = record { primary = λ fo. refl; oob = λ fo. refl }

pub ruleset harmless = (
  SameIps-block_unreadable, SameIps-clear_unreadable, SameIps-adopt_role, SameIps-override,
  SameIps-record_probe, SameIps-record_oob_health, SameIps-switched_to_oob, SameIps-failed_back,
  SameIps-set_next_oob, SameIps-set_next_primary, SameIps-set_counters, SameIps-set_failures,
  SameIps-release_override, SameIps-block_invalid,
)
