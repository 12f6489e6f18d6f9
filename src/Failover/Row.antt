-- ===== src/Failover/Row.antt =====
-- The data of core/failover.py and of the `DeviceFailover` row (store/models.py).
use nso_adapter.Prelude.{ℕ, String, Option, Bool, true, false, none, some, ◌==◌}

-- `ActiveAddress`: which of the two management addresses.
pub data Role : Type 0 where
  primary oob : Role

-- `ProbeStatus` of nso/actions.py.
pub data ProbeStatus : Type 0 where
  ok unreachable timeout error : ProbeStatus

pub record ReachabilityProbe : Type 0 where
  pub status : ProbeStatus
  pub detail : String

-- `IPv4Address` and `IPv6Address`: equal when the version and the number are.
pub data IpAddress : Type 0 where
  v4 v6 : ℕ → IpAddress

-- The three `_BLOCKED_*` constants.
pub data BlockedReason : Type 0 where
  address_unreadable active_oob_conflict stored_address_invalid : BlockedReason

-- A column that a new row has not been flushed with reads as None; every reader treats that as
-- the column's default, which stands here instead. Times are in microseconds.
pub record DeviceFailover : Type 0 where
  pub primary_ip : Option String
  pub oob_ip : Option String
  pub active_address : Role
  pub consecutive_failures : ℕ
  pub consecutive_successes : ℕ
  pub manual_override : Bool
  pub failback_blocked_reason : Option BlockedReason
  pub oob_healthy : Option Bool
  pub oob_health_result : Option ProbeStatus
  pub oob_health_detail : Option String
  pub oob_health_checked_at : Option ℕ
  pub last_probe_at : Option ℕ
  pub last_probe_result : Option ProbeStatus
  pub last_probe_target : Option Role
  pub last_probe_detail : Option String
  pub last_switch_at : Option ℕ
  pub next_primary_probe_at : Option ℕ
  pub next_oob_probe_at : Option ℕ

-- What the tick reads of `EffectiveFailoverConfig` (intervals in minutes).
pub record TickConfig : Type 0 where
  pub primary_probe_interval : ℕ
  pub oob_probe_interval : ℕ
  pub failure_threshold : ℕ
  pub success_threshold : ℕ
  pub probe_timeout : ℕ
  pub active_probe_timeout : ℕ
  pub sync_from_after_switch : Bool

abbrev pub role_eq : Role → Role → Bool
role_eq primary primary = true
role_eq oob oob = true
role_eq _ _ = false

abbrev pub ip_eq : IpAddress → IpAddress → Bool
ip_eq (v4 a) (v4 b) = a == b
ip_eq (v6 a) (v6 b) = a == b
ip_eq _ _ = false

-- `==` on `IPv4Address | IPv6Address | None`.
abbrev pub ip_eq? : Option IpAddress → Option IpAddress → Bool
ip_eq? none none = true
ip_eq? (some a) (some b) = ip_eq a b
ip_eq? _ _ = false

abbrev pub is_conflict : Option BlockedReason → Bool
is_conflict (some active_oob_conflict) = true
is_conflict _ = false

abbrev pub is_unreadable : Option BlockedReason → Bool
is_unreadable (some address_unreadable) = true
is_unreadable _ = false

abbrev pub is_stored_invalid : Option BlockedReason → Bool
is_stored_invalid (some stored_address_invalid) = true
is_stored_invalid _ = false
