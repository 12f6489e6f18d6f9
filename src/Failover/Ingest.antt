-- ===== src/Failover/Ingest.antt =====
-- `upsert_failover_ips` of core/failover.py: the plugin's report of the two addresses is stored.
pub mod Laws
pub mod Settled
pub mod Repeat
pub mod Report
use nso_adapter.Prelude.{
  ℕ, String, Option, none, some, is_some, Bool, true, false, not, ◌&&◌, ◌||◌, str_eq, if◌then◌else◌,
}
use nso_adapter.Failover.Row.{
  primary, oob, IpAddress, DeviceFailover, active_oob_conflict, role_eq, ip_eq?, is_conflict,
  is_stored_invalid,
}
use nso_adapter.Failover.Client.{http_or_value_error, Reply, returned, raised}

-- A row that was added and not yet flushed.
abbrev pub new_row : DeviceFailover
new_row = record {
  primary_ip = none;
  oob_ip = none;
  active_address = primary;
  consecutive_failures = 0;
  consecutive_successes = 0;
  manual_override = false;
  failback_blocked_reason = none;
  oob_healthy = none;
  oob_health_result = none;
  oob_health_detail = none;
  oob_health_checked_at = none;
  last_probe_at = none;
  last_probe_result = none;
  last_probe_target = none;
  last_probe_detail = none;
  last_switch_at = none;
  next_primary_probe_at = none;
  next_oob_probe_at = none;
}

-- A step of the function, with whether it changed the row.
abbrev pub Change : Type 0
Change = DeviceFailover × Bool

infixl 5 ◌then_do◌
abbrev pub ◌then_do◌ : Change → (DeviceFailover → Change) → Change
(fo, changed) then_do step = let (fo', again) = step fo in (fo', changed || again)

-- `if accepted_ip:` arms the probe at once.
abbrev pub arm : Option String → ℕ → Option ℕ → Option ℕ
arm none now at = at
arm (some value) now at = if str_eq value "" then at else some now

abbrev pub text_eq? : Option String → Option String → Bool
text_eq? none none = true
text_eq? (some a) (some b) = str_eq a b
text_eq? _ _ = false

-- `ipaddress.ip_address` (none: its ValueError) and `str` of an address.
module _ (ip_address : String → Option IpAddress) (ip_text : IpAddress → String) where
  unfoldable pub parse_reported : Option String → Reply (Option IpAddress)
  parse_reported none = returned none
  parse_reported (some value) = elim (ip_address value) [
    | none ↦ raised (http_or_value_error "not an address")
    | some a ↦ returned (some a)
  ]

  -- `field in invalid_fields`
  abbrev pub is_invalid : Option String → Bool
  is_invalid none = false
  is_invalid (some value) = not (is_some (ip_address value))

  -- A stored address; a malformed one counts as none.
  abbrev pub stored : Option String → Option IpAddress
  stored none = none
  stored (some value) = ip_address value

  abbrev pub text : Option IpAddress → Option String
  text none = none
  text (some a) = some (ip_text a)

  -- While OOB is active a report may not replace the OOB address, nor make it the primary one.
  unfoldable pub is_active_oob_conflict :
      DeviceFailover → Option IpAddress → Option IpAddress → Bool
  is_active_oob_conflict fo primary_address oob_address =
      role_eq fo.active_address oob
      && (is_some (stored fo.oob_ip)
          && (not (ip_eq? oob_address (stored fo.oob_ip))
              || ip_eq? primary_address (stored fo.oob_ip)))

  unfoldable pub accepted_primary : Bool → DeviceFailover → Option IpAddress → Option IpAddress
  accepted_primary conflict fo primary_address =
      if conflict && ip_eq? primary_address (stored fo.oob_ip)
      then stored fo.primary_ip
      else primary_address

  unfoldable pub accepted_oob : Bool → DeviceFailover → Option IpAddress → Option IpAddress
  accepted_oob conflict fo oob_address = if conflict then stored fo.oob_ip else oob_address

  unfoldable pub note_conflict : Bool → DeviceFailover → Change
  note_conflict true fo =
      if is_conflict fo.failback_blocked_reason
      then (fo, false)
      else (record fo { failback_blocked_reason = some active_oob_conflict }, true)
  note_conflict false fo =
      if is_conflict fo.failback_blocked_reason
      then (record fo { failback_blocked_reason = none }, true)
      else (fo, false)

  -- A new primary address starts with fresh counters and a probe that is due.
  abbrev pub replace_primary : ℕ → Option String → DeviceFailover → DeviceFailover
  replace_primary now value fo = record fo {
    primary_ip = value;
    consecutive_failures = 0;
    consecutive_successes = 0;
    last_probe_at = none;
    last_probe_result = none;
    last_probe_target = none;
    last_probe_detail = none;
    next_primary_probe_at = arm value now fo.next_primary_probe_at;
  }

  unfoldable pub store_primary : ℕ → Option IpAddress → DeviceFailover → Change
  store_primary now accepted fo =
      if is_invalid fo.primary_ip || not (ip_eq? (stored fo.primary_ip) accepted)
      then (replace_primary now (text accepted) fo, true)
      else (fo, false)

  -- A new OOB address has no health verdict.
  abbrev pub replace_oob : ℕ → Option String → DeviceFailover → DeviceFailover
  replace_oob now value fo = record fo {
    oob_ip = value;
    oob_healthy = none;
    oob_health_result = none;
    oob_health_detail = none;
    oob_health_checked_at = none;
    next_oob_probe_at = arm value now fo.next_oob_probe_at;
  }

  unfoldable pub store_oob : ℕ → Option IpAddress → DeviceFailover → Change
  store_oob now accepted fo =
      if is_invalid fo.oob_ip || not (ip_eq? (stored fo.oob_ip) accepted)
      then (replace_oob now (text accepted) fo, true)
      else (fo, false)

  -- The texts are stored in their canonical spelling.
  unfoldable pub spell_primary : Option IpAddress → DeviceFailover → Change
  spell_primary accepted fo =
      if text_eq? fo.primary_ip (text accepted)
      then (fo, false)
      else (record fo { primary_ip = text accepted }, true)

  unfoldable pub spell_oob : Option IpAddress → DeviceFailover → Change
  spell_oob accepted fo =
      if text_eq? fo.oob_ip (text accepted)
      then (fo, false)
      else (record fo { oob_ip = text accepted }, true)

  unfoldable pub clear_invalid : DeviceFailover → Change
  clear_invalid fo =
      if is_stored_invalid fo.failback_blocked_reason
        && not (is_invalid fo.primary_ip || is_invalid fo.oob_ip)
      then (record fo { failback_blocked_reason = none }, true)
      else (fo, false)

  -- The changes of a row, with the accepted addresses known.
  unfoldable pub accept : ℕ → Bool → Option IpAddress → Option IpAddress → DeviceFailover → Change
  accept now conflict p o fo =
      note_conflict conflict fo
      then_do store_primary now p
      then_do store_oob now o
      then_do spell_primary p
      then_do spell_oob o
      then_do clear_invalid

  unfoldable pub apply_report : ℕ → DeviceFailover → Option IpAddress → Option IpAddress → Change
  unfolding accept
  apply_report now fo primary_address oob_address =
      let conflict = is_active_oob_conflict fo primary_address oob_address in
      accept now conflict (accepted_primary conflict fo primary_address)
        (accepted_oob conflict fo oob_address) fo

  abbrev pub stored_change : Change → Reply Bool × Option DeviceFailover
  stored_change (fo, changed) = (returned changed, some fo)

  -- No row is made for a report of nothing.
  unfoldable pub upsert_parsed :
      ℕ
      → Option DeviceFailover
      → Option IpAddress
      → Option IpAddress
      → Reply Bool × Option DeviceFailover
  unfolding apply_report
  upsert_parsed now (some fo) p o = stored_change (apply_report now fo p o)
  upsert_parsed now none none none = (returned false, none)
  upsert_parsed now none (some p) o = stored_change (apply_report now new_row (some p) o)
  upsert_parsed now none none (some o) = stored_change (apply_report now new_row none (some o))

  abbrev pub with_oob :
      ℕ
      → Option DeviceFailover
      → Option IpAddress
      → Reply (Option IpAddress)
      → Reply Bool × Option DeviceFailover
  with_oob now existing p (raised e) = (raised e, existing)
  with_oob now existing p (returned o) = upsert_parsed now existing p o

  abbrev pub with_primary :
      ℕ
      → Option DeviceFailover
      → Reply (Option IpAddress)
      → Reply (Option IpAddress)
      → Reply Bool × Option DeviceFailover
  with_primary now existing (raised e) o = (raised e, existing)
  with_primary now existing (returned p) o = with_oob now existing p o

  -- `upsert_failover_ips`, on the device's row.
  unfoldable pub upsert_failover_ips :
      ℕ → Option DeviceFailover → Option String → Option String → Reply Bool × Option DeviceFailover
  upsert_failover_ips now existing primary_ip oob_ip =
      with_primary now existing (parse_reported primary_ip) (parse_reported oob_ip)
