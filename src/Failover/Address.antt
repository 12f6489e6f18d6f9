-- ===== src/Failover/Address.antt =====
-- Addresses in core/failover.py: reading NSO's, classing it, writing it, and the reconcile step.
use nso_adapter.Prelude.{
  String, Option, none, some, Bool, true, false, List, [], ◌∷◌, ◌++◌, if◌then◌else◌,
}
use nso_adapter.Failover.Row.{
  Role, primary, oob, IpAddress, DeviceFailover, address_unreadable, role_eq, ip_eq?, is_conflict,
  is_unreadable,
}
use nso_adapter.Failover.Client.{
  http_or_value_error, Reply, returned, raised, Env, Action, ◌>>=◌, ◌>>◌, pure, modify_fo, call,
  try_except, or_raise, check_fo,
}

module _ {W : Type 0} (env : Env W) where
  -- `_stored_failover_address`: a malformed stored text raises ValueError.
  unfoldable pub stored_address : Option String → Reply (Option IpAddress)
  stored_address none = returned none
  stored_address (some value) = elim (env.ip_address value) [
    | none ↦ raised (http_or_value_error "Invalid stored failover address")
    | some a ↦ returned (some a)
  ]

  abbrev pub is_malformed : Option String → Bool
  is_malformed none = false
  is_malformed (some value) = elim (env.ip_address value) [ none ↦ true | some _ ↦ false ]

  -- A field is named by its role.
  unfoldable pub invalid_stored_address_fields : DeviceFailover → List Role
  invalid_stored_address_fields fo =
      (if is_malformed fo.primary_ip then primary ∷ [] else [])
      ++ (if is_malformed fo.oob_ip then oob ∷ [] else [])

  -- `_managed_address_role` of an address, by the two stored texts; the second is parsed only if
  -- the first does not match.
  unfoldable pub role_among : Option String → Option String → IpAddress → Reply (Option Role)
  unfolding stored_address
  role_among primary_ip oob_ip address = elim (stored_address primary_ip) [
    | raised e ↦ raised e
    | returned p ↦
        if ip_eq? (some address) p then returned (some primary) else elim (stored_address oob_ip) [
          | raised e ↦ raised e
          | returned o ↦ if ip_eq? (some address) o then returned (some oob) else returned none
        ]
  ]

  abbrev pub managed_address_role : DeviceFailover → IpAddress → Reply (Option Role)
  managed_address_role fo = role_among fo.primary_ip fo.oob_ip

  unfoldable pub role_of : IpAddress → Action W (Option Role)
  role_of address = check_fo (λ fo. managed_address_role fo address)

  -- `ip_address(text)`
  unfoldable pub parse_ip : String → Action W IpAddress
  parse_ip address = or_raise (http_or_value_error "not an address") (env.ip_address address)

  unfoldable pub role_of_text : String → Action W (Option Role)
  unfolding parse_ip role_of
  role_of_text address = parse_ip address >>= role_of

  -- `_safe_disconnect`
  unfoldable pub safe_disconnect : Action W Bool
  safe_disconnect = try_except (call env.disconnect >> pure true) (pure false)

  -- `_safe_sync_from`
  unfoldable pub safe_sync_from : Action W (Unit {0})
  safe_sync_from = try_except (call env.sync_from) (pure tt)

  -- `_set_address`
  unfoldable pub set_address : String → Action W Bool
  unfolding safe_disconnect
  set_address address = do call (env.set_address address); safe_disconnect

  -- `_revert_address`; its argument `role` is computed before the call.
  unfoldable pub revert_address : String → Action W (Unit {0})
  unfolding role_of_text set_address
  revert_address address = do
    role_of_text address
    try_except (set_address address >> pure tt) (pure tt)

  unfoldable pub parse_read : Option String → Action W (Option String)
  unfolding parse_ip
  parse_read none = pure none
  parse_read (some address) = parse_ip address >> pure (some address)

  -- `address_before`: NSO's address, or None if it is absent, malformed or unreadable.
  unfoldable pub read_address : Action W (Option String)
  unfolding parse_read
  read_address = try_except (call env.get_address >>= parse_read) (pure none)

  unfoldable pub parse_current : Option String → Action W (Option IpAddress)
  unfolding parse_ip
  parse_current none = pure none
  parse_current (some address) = parse_ip address >>= λ a. pure (some a)

  -- `current_address`
  unfoldable pub read_current : Action W (Option IpAddress)
  unfolding parse_current
  read_current = try_except (call env.get_address >>= parse_current) (pure none)

-- An unreadable address blocks, but does not hide a reported conflict.
unfoldable pub block_unreadable : DeviceFailover → DeviceFailover
block_unreadable fo =
    if is_conflict fo.failback_blocked_reason
    then fo
    else record fo { failback_blocked_reason = some address_unreadable }

unfoldable pub clear_unreadable : DeviceFailover → DeviceFailover
clear_unreadable fo =
    if is_unreadable fo.failback_blocked_reason
    then record fo { failback_blocked_reason = none }
    else fo

-- The stored role follows NSO's address, and the counters of the other role are dropped.
unfoldable pub adopt_role : Role → DeviceFailover → DeviceFailover
adopt_role role fo =
    if role_eq fo.active_address role then record fo { manual_override = false } else record fo {
      manual_override = false;
      active_address = role;
      consecutive_failures = 0;
      consecutive_successes = 0;
    }

abbrev pub override : DeviceFailover → DeviceFailover
override fo = record fo { manual_override = true }

unfoldable pub settle_role : {W : Type 0} → Option Role → Action W Bool
settle_role none = modify_fo override >> pure false
settle_role (some role) = modify_fo (adopt_role role) >> pure true

module _ {W : Type 0} (env : Env W) where
  unfoldable pub settle_current : Option IpAddress → Action W Bool
  unfolding settle_role
  settle_current none = modify_fo block_unreadable >> pure false
  settle_current (some a) = do modify_fo clear_unreadable; settle_role (← role_of env a)

  -- `_reconcile_active_address`
  unfoldable pub reconcile_active_address : Action W Bool
  unfolding read_current settle_current
  reconcile_active_address = read_current env >>= settle_current
