-- ===== src/Claim/Tests.antt =====
-- Device 7, claimed by a worker whose heartbeat is lost, revoked, and claimed again.
use nso_adapter.Prelude.{
  ℕ, ◌+◌, ◌≡◌, ◌≢◌, ◌≤◌, ◌⊎◌, refl, String, true, false, Option, none, some, List, [], ◌∷◌, arith,
}
use nso_adapter.Json.{Fields}
use nso_adapter.Results.{Result, ok}
use nso_adapter.Work.{Job, Tables}
use nso_adapter.Claim.{Store, ClaimRegistration, commits, loses_ack, Disposition, no_attempt}
use nso_adapter.Claim.Owner.{Runs, took, acted, left}
use nso_adapter.Claim.Acts.{Event, acquires, works, releases, revokes, owner}
use nso_adapter.Claim.Refines.{run, claims_refine_ownership}
use nso_adapter.Claim.Waiting.{Waited, acquire_claim_waiting, waiting_ends}

abbrev no_work : Tables
no_work = record {
  jobs = [];
  next_id = 1;
  last_seq = λ d. none;
  generations = [];
  applied_revision = λ d s. none;
}

abbrev free_store : Store
free_store = record { devices = 7 ∷ []; claims = λ d. none; work = no_work }

abbrev evidence : Job → Option Fields → Option Fields
evidence j error = none

abbrev dispose : String → ℕ → Option ℕ → Tables → Result (Disposition × Tables)
dispose reason job attempt work = ok (no_attempt, work)

abbrev no_others : Tables → Tables
no_others work = work

abbrev first : ClaimRegistration
first = record { identity = some (7, 1); run_attempt = none }

abbrev second : ClaimRegistration
second = record { identity = some (7, 2); run_attempt = none }

-- The first claim is stale by the revocation; its holder then tries to write.
abbrev history : List Event
history =
    acquires 7 "sweep" none 1 false 0
    ∷ works first (λ work. ok work) commits
    ∷ revokes 3000000
    ∷ acquires 7 "job" none 2 false 3000000
    ∷ works first (λ work. ok work) commits
    ∷ works second (λ work. ok work) (loses_ack true)
    ∷ releases second commits
    ∷ []

comes_to :
    (run evidence dispose no_others history free_store).0
    ≡ took 7 1 ∷ acted 7 1 ∷ left 7 1 ∷ took 7 2 ∷ acted 7 2 ∷ left 7 2 ∷ []
unfolding run
comes_to = refl

claims_refine_ownership_example :
    Runs
      (run evidence dispose no_others history free_store).0
      (owner free_store)
      (owner (run evidence dispose no_others history free_store).1)
claims_refine_ownership_example =
    claims_refine_ownership evidence dispose no_others history free_store

-- Of the second claim, whose holder does not own the device once it is released.
abbrev later : List Event
later =
    works second (λ work. ok work) commits
    ∷ acquires 7 "job" none 3 false 4000000
    ∷ works second (λ work. ok work) (loses_ack false)
    ∷ []

-- A rival keeps the claim. The state is the time, and an attempt takes a microsecond.
abbrev rival : ℕ → Result (Option ClaimRegistration) × ℕ
rival now = (ok none, now + 1)

gives_up : acquire_claim_waiting rival (λ now. now) (λ n now. now + n) 30 10 0 ≡ some (ok none, 31)
unfolding acquire_claim_waiting
gives_up = refl

waiting_ends_example :
    (end : Waited rival (λ now. now) (λ n now. now + n)) × ((acquire_claim_waiting rival
          (λ now. now)
          (λ n now. now + n)
          30
          10
          0
        ≡ some end)
      × ((end.0 ≢ ok none) ⊎ (0 + 30 ≤ end.1)))
waiting_ends_example =
    waiting_ends rival (λ now. now) (λ n now. now + n) 10 (omega arith) (λ now. omega arith)
      (λ n now. omega arith) 30 0
