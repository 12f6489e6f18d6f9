-- ===== src/Failover/Switch.antt =====
-- Probing and switching in core/failover.py, with `probe_reachable` of nso/actions.py.
use nso_adapter.Prelude.{
  ℕ, ◌+◌, ◌*◌, ◌/◌, String, Option, none, some, Bool, true, false, ◌||◌, ltb, leb, ◌==◌, str_eq,
  if◌then◌else◌,
}
use nso_adapter.Failover.Row.{
  Role, primary, oob, ok, unreachable, timeout, error, ReachabilityProbe, DeviceFailover,
  TickConfig,
}
use nso_adapter.Failover.Client.{
  http_timeout, http_or_value_error, other_exception, cancelled, Reply, returned, raised, Leaf,
  missing, text, flag, number, other, ConnectOutput, Env, Action, call, ◌>>=◌, ◌>>◌, pure,
  modify_fo,
}
use nso_adapter.Failover.Hysteresis.{take}
use nso_adapter.Failover.Address.{set_address, safe_sync_from}

-- `result in ("connected", True, "true")`; Python takes 1 for True.
abbrev pub is_connected : Leaf → Bool
is_connected (text s) = str_eq s "connected" || str_eq s "true"
is_connected (flag b) = b
is_connected (number n _) = n == 1
is_connected _ = false

abbrev pub is_falsy : Leaf → Bool
is_falsy missing = true
is_falsy (text s) = str_eq s ""
is_falsy (flag b) = if b then false else true
is_falsy (number n _) = n == 0
is_falsy (other _) = false

-- `str` of a leaf.
abbrev pub leaf_str : Leaf → String
leaf_str missing = "None"
leaf_str (text s) = s
leaf_str (flag b) = if b then "True" else "False"
leaf_str (number _ s) = s
leaf_str (other s) = s

-- `str(out.get("info") or result or "")`
unfoldable pub refusal_detail : ConnectOutput → String
refusal_detail out =
    if is_falsy out.info
    then (if is_falsy out.result then "" else leaf_str out.result)
    else leaf_str out.info

unfoldable pub judge_connect : ConnectOutput → ReachabilityProbe
unfolding refusal_detail
judge_connect out =
    if is_connected out.result
    then record { status = ok; detail = "" }
    else record { status = unreachable; detail = refusal_detail out }

-- A timeout and an API error are outcomes of their own; any other exception is not caught. The
-- elapsed time is only logged, and is left out.
unfoldable pub judge_reply : Reply ConnectOutput → Reply ReachabilityProbe
judge_reply (returned out) = returned (judge_connect out)
judge_reply (raised (http_timeout e)) = returned (record { status = timeout; detail = e })
judge_reply (raised (http_or_value_error e)) = returned (record { status = error; detail = e })
judge_reply (raised (other_exception e)) = raised (other_exception e)
judge_reply (raised cancelled) = raised cancelled

-- `_coerce_probe` takes the structured outcome or an older caller's tuple.
pub data ProbeOutcome : Type 0 where
  structured : ReachabilityProbe → ProbeOutcome
  tuple : Bool → String → ProbeOutcome

unfoldable pub coerce_probe : ProbeOutcome → ReachabilityProbe
coerce_probe (structured p) = p
coerce_probe (tuple reachable detail) = record {
  status = if reachable then ok else unreachable;
  detail = detail;
}

abbrev pub as_outcome : Reply ReachabilityProbe → Reply ProbeOutcome
as_outcome (returned p) = returned (structured p)
as_outcome (raised e) = raised e

-- `ReachabilityProbe.reachable`
abbrev pub reachable : ReachabilityProbe → Bool
reachable p = elim p.status [ ok ↦ true | _ ↦ false ]

-- `outcome.detail or None`
abbrev pub detail_or_none : String → Option String
detail_or_none detail = if str_eq detail "" then none else some detail

-- `_record_probe`
unfoldable pub record_probe : ℕ → ReachabilityProbe → Role → DeviceFailover → DeviceFailover
record_probe now outcome target fo = record fo {
  last_probe_at = some now;
  last_probe_result = some outcome.status;
  last_probe_target = some target;
  last_probe_detail = detail_or_none outcome.detail;
}

-- `_legacy_health`: only a conclusive outcome becomes a Boolean.
unfoldable pub legacy_health : ReachabilityProbe → Option Bool
legacy_health p = elim p.status [ ok ↦ some true | unreachable ↦ some false | _ ↦ none ]

-- The four assignments of an OOB health check.
unfoldable pub record_oob_health : ℕ → ReachabilityProbe → DeviceFailover → DeviceFailover
unfolding legacy_health
record_oob_health now outcome fo = record fo {
  oob_healthy = legacy_health outcome;
  oob_health_result = some outcome.status;
  oob_health_detail = detail_or_none outcome.detail;
  oob_health_checked_at = some now;
}

-- `_due`
unfoldable pub due : Option ℕ → ℕ → Bool
due none now = true
due (some next_at) now = leb next_at now

-- Microseconds in a minute.
abbrev pub minute : ℕ
minute = 60000000

abbrev pub switched_to_oob : ℕ → DeviceFailover → DeviceFailover
switched_to_oob now fo = record fo {
  active_address = oob;
  consecutive_failures = 0;
  consecutive_successes = 0;
  last_switch_at = some now;
  next_oob_probe_at = some now;
}

abbrev pub failed_back : ℕ → DeviceFailover → DeviceFailover
failed_back now fo = record fo {
  active_address = primary;
  failback_blocked_reason = none;
  consecutive_failures = 0;
  consecutive_successes = 0;
  last_switch_at = some now;
}

abbrev pub set_next_oob : ℕ → DeviceFailover → DeviceFailover
set_next_oob at fo = record fo { next_oob_probe_at = some at }

abbrev pub set_next_primary : ℕ → DeviceFailover → DeviceFailover
set_next_primary at fo = record fo { next_primary_probe_at = some at }

module _ {W : Type 0} (env : Env W) where
  unfoldable pub probe_reachable : ℕ → Action W ProbeOutcome
  unfolding judge_reply
  probe_reachable limit =
      call (λ w. let (r, w') = env.connect limit w in (as_outcome (judge_reply r), w'))

  -- `random.uniform(0, limit)`
  unfoldable pub draw : ℕ → Action W ℕ
  draw limit = call (λ w. let (n, w') = env.uniform limit w in (returned n, w'))

  -- `_next_due`: the fraction is given in millionths.
  unfoldable pub next_due : ℕ → ℕ → ℕ → Action W ℕ
  unfolding draw
  next_due now interval_minutes jitter_fraction =
      let base = interval_minutes * minute in
      if ltb 0 jitter_fraction
      then (do jitter ← draw (base * jitter_fraction / 1000000); pure (now + (base + jitter)))
      else pure (now + base)

  -- `if cfg.failover_sync_from_after_switch`
  unfoldable pub sync_if : Bool → Action W (Unit {0})
  sync_if wanted = if wanted then safe_sync_from env else pure tt

  -- `_switch_to_oob`; whether the old session was dropped is only logged.
  unfoldable pub switch_to_oob : String → TickConfig → ℕ → Action W (Unit {0})
  switch_to_oob oob_ip cfg now = do
    set_address env oob_ip
    modify_fo (switched_to_oob now)
    sync_if cfg.sync_from_after_switch

  -- `_commit_failback`
  unfoldable pub commit_failback : TickConfig → ℕ → Action W (Unit {0})
  commit_failback cfg now = do
    modify_fo (failed_back now)
    at ← next_due now cfg.oob_probe_interval 0
    modify_fo (set_next_oob at)
    sync_if cfg.sync_from_after_switch

-- `_take_flip`
unfoldable pub take_flip : {W : Type 0} → Action W Bool
take_flip s = elim s.flip_budget [
  | none ↦ (returned true, s)
  | some remaining ↦
      let (allowed, left) = take remaining in
      (returned allowed, record s { flip_budget = some left })
]
