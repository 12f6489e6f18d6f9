-- ===== src/Failover/Client.antt =====
-- What the failover tick uses of code that it does not contain: the NSO RESTCONF client, Python's
-- `ipaddress` and `random`; and the tick's own state, with exceptions.
use nso_adapter.Prelude.{ℕ, String, Option, none, some, Bool, true, false, if◌then◌else◌}
use nso_adapter.Failover.Row.{DeviceFailover, IpAddress}

-- How a call ends when it does not return. `cancelled` is the CancelledError by which the tick's
-- wall-clock bound stops it: no `except Exception` catches it.
pub data Fault : Type 0 where
  http_timeout : String → Fault
  http_or_value_error : String → Fault
  other_exception : String → Fault
  cancelled : Fault

pub data Reply (A : Type 0) : Type 0 where
  returned : A → Reply A
  raised : Fault → Reply A

-- A leaf of the `connect` action's JSON output; `other` carries the text that `str` gives of a
-- value that is no text, boolean, integer or null and is not falsy.
pub data Leaf : Type 0 where
  missing : Leaf
  text : String → Leaf
  flag : Bool → Leaf
  number : ℕ → String → Leaf
  other : String → Leaf

pub record ConnectOutput : Type 0 where
  pub result : Leaf
  pub info : Leaf

-- `W` is the world outside the adapter; a call may change it. The calls of `NsoClient` are for
-- one device, so its name is left out.
pub record Env (W : Type 0) : Type 0 where
  pub get_address : W → Reply (Option String) × W
  pub set_address : String → W → Reply (Unit {0}) × W
  pub disconnect : W → Reply (Unit {0}) × W
  pub sync_from : W → Reply (Unit {0}) × W
  pub connect : ℕ → W → Reply ConnectOutput × W
  -- `random.uniform(0, limit)`
  pub uniform : ℕ → W → ℕ × W
  -- `ipaddress.ip_address`; none is its ValueError
  pub ip_address : String → Option IpAddress
  pub ip_text : IpAddress → String

-- The row, the world and the shared `FlipBudget.remaining` (none: no budget object).
pub record Tick (W : Type 0) : Type 0 where
  pub fo : DeviceFailover
  pub world : W
  pub flip_budget : Option ℕ

-- What was written stays written when a call raises.
abbrev pub Action : Type 0 → Type 0 → Type 0
Action W A = Tick W → Reply A × Tick W

unfoldable pub modify_fo : {W : Type 0} → (DeviceFailover → DeviceFailover) → Action W (Unit {0})
modify_fo f s = (returned tt, record s { fo = f s.fo })

module _ {W A : Type 0} where
  unfoldable pub pure : A → Action W A
  pure a s = (returned a, s)

  unfoldable pub raise : Fault → Action W A
  raise e s = (raised e, s)

  unfoldable pub gets_fo : (DeviceFailover → A) → Action W A
  gets_fo f s = (returned (f s.fo), s)

  -- A call of the client.
  unfoldable pub call : (W → Reply A × W) → Action W A
  call f s = let (r, w) = f s.world in (r, record s { world = w })

  -- `try: m` / `except Exception: return handler`.
  unfoldable pub try_except : Action W A → Action W A → Action W A
  try_except m handler s =
      let (r, s') = m s in
      elim r [
        | returned a ↦ (returned a, s')
        | raised e ↦ elim e [ cancelled ↦ (raised cancelled, s') | _ ↦ handler s' ]
      ]

  -- `try: m` / `finally: last`: a raise of `last` replaces the outcome of `m`.
  abbrev pub finish : Reply A → Reply (Unit {0}) × Tick W → Reply A × Tick W
  finish r (returned _, s) = (r, s)
  finish r (raised e, s) = (raised e, s)

  unfoldable pub try_finally : Action W A → Action W (Unit {0}) → Action W A
  try_finally m last s = let (r, s') = m s in finish r (last s')

  -- The value, or the exception that stands for its absence.
  unfoldable pub or_raise : Fault → Option A → Action W A
  unfolding pure raise
  or_raise e none = raise e
  or_raise e (some a) = pure a

  -- A function of the row that may raise.
  unfoldable pub check_fo : (DeviceFailover → Reply A) → Action W A
  check_fo f s = (f s.fo, s)

infixl 5 ◌>>=◌ ◌>>◌
-- Opening this opens the actions above too.
unfoldable pub ◌>>=◌ : {W A B : Type 0} → Action W A → (A → Action W B) → Action W B
unfolding pure raise gets_fo modify_fo call try_except try_finally or_raise check_fo
◌>>=◌ m f s = let (r, s') = m s in elim r [ returned a ↦ f a s' | raised e ↦ (raised e, s') ]

abbrev pub ◌>>◌ : {W A B : Type 0} → Action W A → Action W B → Action W B
m >> k = m >>= λ _. k

-- `finally: if not committed: revert`: only a body that returned true had committed.
unfoldable pub unless_committed : {W : Type 0} → Action W Bool → Action W (Unit {0}) → Action W Bool
unless_committed body revert s =
    let (r, s') = body s in
    elim r [
      | returned committed ↦ if committed then (returned true, s') else (revert >> pure false) s'
      | raised e ↦ (revert >> raise e) s'
    ]
