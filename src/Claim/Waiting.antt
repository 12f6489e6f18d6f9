-- ===== src/Claim/Waiting.antt =====
-- acquire_claim_waiting and acquire_claim_or_refuse of core/claim.py. An attempt at the claim, the
-- monotonic clock (in microseconds) and asyncio's sleep are arguments, over the states of the world.
use nso_adapter.Prelude.{
  ℕ, zero, suc, ◌+◌, ◌-◌, ◌≤◌, ◌<◌, ◌≡◌, ◌≢◌, refl, true, false, Option, none, some, ◌⊎◌, inl, inr,
  leb, Bool-cases, arith, if◌then◌else◌,
}
use nso_adapter.Results.{Result, ok, raised, claim_unavailable}
use nso_adapter.Claim.{ClaimRegistration}

abbrev pub least : ℕ → ℕ → ℕ
least a b = if leb a b then a else b

module _ {State : Type 0} (attempt : State → Result (Option ClaimRegistration) × State)
    (clock : State → ℕ) (sleep : ℕ → State → State) where
  abbrev pub Waited : Type 0
  Waited = Result (Option ClaimRegistration) × State

  -- The loop, on fuel; an attempt that raises ends it. `again` is the rest of the loop.
  abbrev pub after_attempt : ℕ → ℕ → (State → Option Waited) → Waited → Option Waited
  after_attempt deadline poll again (raised e, s) = some (raised e, s)
  after_attempt deadline poll again (ok (some reg), s) = some (ok (some reg), s)
  after_attempt deadline poll again (ok none, s) = elim (leb deadline (clock s)) [
    | true ↦ some (ok none, s)
    | false ↦ again (sleep (least poll (deadline - clock s)) s)
  ]

  unfoldable pub wait_loop : ℕ → ℕ → ℕ → State → Option Waited
  wait_loop zero deadline poll s = none
  wait_loop (suc fuel) deadline poll s =
      after_attempt deadline poll (λ next. wait_loop fuel deadline poll next) (attempt s)

  -- Fuel of one more than the timeout is enough, as is proved below.
  unfoldable pub acquire_claim_waiting : ℕ → ℕ → State → Option Waited
  unfolding wait_loop
  acquire_claim_waiting timeout poll s = wait_loop (timeout + 1) (clock s + timeout) poll s

  abbrev pub or_refuse : Waited → Result ClaimRegistration × State
  or_refuse (raised e, s) = (raised e, s)
  or_refuse (ok (some reg), s) = (ok reg, s)
  or_refuse (ok none, s) = (raised claim_unavailable, s)

  abbrev or_refused : Option Waited → Option (Result ClaimRegistration × State)
  or_refused none = none
  or_refused (some w) = some (or_refuse w)

  unfoldable pub acquire_claim_or_refuse : ℕ → ℕ → State → Option (Result ClaimRegistration × State)
  unfolding acquire_claim_waiting
  acquire_claim_or_refuse timeout poll s = or_refused (acquire_claim_waiting timeout poll s)

  module _ (poll : ℕ) (polls : 0 < poll)
      (attempts_take_time : (s : State) → clock s ≤ clock (attempt s).1)
      (sleeps : (n : ℕ) (s : State) → clock s + n ≤ clock (sleep n s)) where
    Ends : ℕ → Option Waited → Type 0
    Ends deadline w =
        (end : Waited) × (w ≡ some end) × ((end.0 ≢ ok none) ⊎ (deadline ≤ clock end.1))

    least-positive : (n : ℕ) → 0 < n → 0 < least poll n
    least-positive n h = elim (Bool-cases (leb poll n)) [ inl e ↦ rw e polls | inr e ↦ rw e h ]

    -- One turn ends, if the rest of the loop does from every later state before the deadline.
    turn-Ends :
        (deadline : ℕ) (again : State → Option Waited) (w : Waited)
        → ((next : State)
            → clock w.1 < deadline
            → clock w.1 < clock next
            → Ends deadline (again next))
        → Ends deadline (after_attempt deadline poll again w)
    unfolding Ends
    turn-Ends deadline again (raised e, s) rest = ((raised e, s), refl, inl (λ e'. cc e'))
    turn-Ends deadline again (ok (some reg), s) rest = ((ok (some reg), s), refl, inl (λ e'. cc e'))
    turn-Ends deadline again (ok none, s) rest = elim (Bool-cases (leb deadline (clock s))) [
      | inl late ↦ rw (late, after_attempt) (((ok none, s), refl, inr (ground arith)))
      | inr early ↦
          let n : ℕ = least poll (deadline - clock s) in
          let before : clock s < deadline = ground arith in
          let positive : 0 < n = least-positive (deadline - clock s) (omega arith) in
          let slept : clock s + n ≤ clock (sleep n s) = sleeps n s in
          rw (early, after_attempt) (rest (sleep n s) before (omega arith))
    ]

    loop-Ends :
        (fuel deadline : ℕ) (s : State)
        → 0 < fuel
        → deadline < clock s + fuel
        → Ends deadline (wait_loop fuel deadline poll s)
    unfolding wait_loop
    loop-Ends zero deadline s some_fuel far = let no : ⊥ = omega arith in absurd no
    loop-Ends (suc fuel) deadline s some_fuel far =
        turn-Ends deadline (λ next. wait_loop fuel deadline poll next) (attempt s)
          (λ next early later.
            let passed : clock s ≤ clock (attempt s).1 = attempts_take_time s in
            loop-Ends fuel deadline next (omega arith) (omega arith))

    -- The wait for a claim ends, if the poll interval is positive, no attempt turns the clock back
    -- and a sleep of `n` takes at least `n`: with the registration, or with what an attempt raised,
    -- or with none, and this only once the deadline has passed.
    pub waiting_ends :
        (timeout : ℕ) (s : State)
        → (end : Waited) × ((acquire_claim_waiting timeout poll s ≡ some end)
            × ((end.0 ≢ ok none) ⊎ (clock s + timeout ≤ clock end.1)))
    unfolding acquire_claim_waiting Ends wait_loop
    waiting_ends timeout s =
        let (end, is, how) =
          loop-Ends (timeout + 1) (clock s + timeout) s (omega arith) (omega arith) in
        (end, (is, how))
