-- ===== src/Claim.antt =====
-- The exclusive claim on a device: core/claim.py, with the heartbeat and the start of core/worker.py.
-- A transaction takes the claim's row lock first and holds it to its commit, so it is one step. A
-- token is a number; that it is new is the caller's affair, and the claims are a function of the
-- device, which is their primary key.
pub mod Owner
pub mod Acts
pub mod Refines
pub mod Waiting
mod Tests
use nso_adapter.Prelude.{
  ℕ, ◌+◌, ◌-◌, ◌*◌, String, Bool, true, false, not, ◌&&◌, ◌||◌, Option, none, some, is_some, List,
  [], ◌∷◌, ◌==◌, ltb, if◌then◌else◌,
}
use nso_adapter.Json.{Fields, text_mem, text, object, end, field}
use nso_adapter.Results.{
  Result, ok, raised, value_error, integrity_error, claim_lost, ◌>>=◌, ◌>>◌, check,
}
use nso_adapter.DeletedRoutes.{elem}
use nso_adapter.Work.{Job, JobStatus, JobType, queued, running, failed, apply, Tables, status_eq}
use nso_adapter.Work.Jobs.{first_where, has_id}
use nso_adapter.Work.Jobs.Recovery.{terminalize_running}
use nso_adapter.Work.Jobs.Writers.{start_claimed_job}

-- `PURPOSES`
abbrev pub purposes : List String
purposes = "job" ∷ "intent_put" ∷ "teardown" ∷ "sweep" ∷ "failover" ∷ []

pub record DeviceClaim : Type 0 where
  pub claim_token : ℕ
  pub purpose : String
  pub job_id : Option ℕ
  pub heartbeat_at : ℕ

pub record Store : Type 0 where
  pub devices : List ℕ
  pub claims : ℕ → Option DeviceClaim
  pub work : Tables

-- A live registration: its device and token, if it has any, and its run's attempt.
pub record ClaimRegistration : Type 0 where
  pub identity : Option (ℕ × ℕ)
  pub run_attempt : Option ℕ

pub data ClaimOutcome : Type 0 where
  commit_acknowledged abort_known outcome_unknown : ClaimOutcome

-- The fate of a transaction: it commits, it is aborted before, or the acknowledgement is lost, and
-- it was applied or not.
pub data Fate : Type 0 where
  commits aborts : Fate
  loses_ack : Bool → Fate

abbrev pub token_is : ℕ → Option DeviceClaim → Bool
token_is token none = false
token_is token (some c) = c.claim_token == token

abbrev pub put_claim : ℕ → Option DeviceClaim → (ℕ → Option DeviceClaim) → ℕ → Option DeviceClaim
put_claim device c claims d = if d == device then c else claims d

unfoldable pub token_used : ℕ → (ℕ → Option DeviceClaim) → List ℕ → Bool
token_used token claims [] = false
token_used token claims (d ∷ rest) = token_is token (claims d) || token_used token claims rest

-- The foreign key to the jobs.
abbrev pub job_known : Tables → Option ℕ → Bool
job_known work none = true
job_known work (some id) = is_some (first_where (has_id id) work.jobs)

-- `acquire_claim`, by whether its wait on a rival's insertion times out. The rows are the device's
-- claim, the tokens (unique), and the two foreign keys.
abbrev pub inserted : Store → ℕ → DeviceClaim → Result (Option ClaimRegistration) × Store
inserted store device c =
    if token_used c.claim_token store.claims store.devices
    then (raised integrity_error, store)
    else if not (elem device store.devices)
    then (ok none, store)
    else if not (job_known store.work c.job_id)
    then (raised integrity_error, store)
    else (
      ok (some (record { identity = some (device, c.claim_token); run_attempt = none })),
      record store { claims = put_claim device (some c) store.claims },
    )

abbrev pub granted :
    Option DeviceClaim → Store → ℕ → DeviceClaim → Result (Option ClaimRegistration) × Store
granted (some held) store device c = (ok none, store)
granted none store device c = inserted store device c

unfoldable pub acquire_claim :
    ℕ → String → Option ℕ → ℕ → Bool → ℕ → Store → Result (Option ClaimRegistration) × Store
unfolding text_mem token_used elem first_where
acquire_claim device purpose job token timed_out now store =
    let c : DeviceClaim = record {
      claim_token = token;
      purpose = purpose;
      job_id = job;
      heartbeat_at = now;
    } in
    if not (text_mem purpose purposes)
    then (raised value_error, store)
    else if timed_out
    then (ok none, store)
    else granted (store.claims device) store device c

-- `lock_claim`
abbrev pub lock_claim : ClaimRegistration → Store → Result (Unit {0})
lock_claim reg store = by_identity reg.identity
  where
    by_identity : Option (ℕ × ℕ) → Result (Unit {0})
    by_identity none = ok tt
    by_identity (some (device, token)) = check (token_is token (store.claims device)) claim_lost

-- `_delete_own_claim`
abbrev pub delete_claim : ℕ → ℕ → Store → Store
delete_claim device token store =
    if token_is token (store.claims device)
    then record store { claims = put_claim device none store.claims }
    else store

abbrev pub delete_own_claim : Option (ℕ × ℕ) → Store → Store
delete_own_claim none store = store
delete_own_claim (some (device, token)) store = delete_claim device token store

-- A transaction that locked its claim first, and then gives the next store or raises; the store it
-- started from, by its fate (`_commit_outcome`, `rollback_abort_known`).
abbrev pub settled_by : Fate → Store → Store → ClaimOutcome × Store
settled_by commits store next = (commit_acknowledged, next)
settled_by aborts store next = (abort_known, store)
settled_by (loses_ack true) store next = (outcome_unknown, next)
settled_by (loses_ack false) store next = (outcome_unknown, store)

abbrev pub concluded : Fate → Store → Result Store → ClaimOutcome × Store
concluded fate store (raised e) = (abort_known, store)
concluded fate store (ok next) = settled_by fate store next

-- `release_claim`
unfoldable pub release_claim : ClaimRegistration → Fate → Store → ClaimOutcome × Store
release_claim reg fate store =
    if is_some reg.identity
    then concluded fate store (do lock_claim reg store; ok (delete_own_claim reg.identity store))
    else (commit_acknowledged, store)

-- `_heartbeat`, of a registered run: the claim's row, while it is there.
abbrev pub beat : ℕ → Option DeviceClaim → Option DeviceClaim
beat now none = none
beat now (some c) = some (record c { heartbeat_at = now })

abbrev pub associated : Option ℕ → Option DeviceClaim → Option DeviceClaim
associated job none = none
associated job (some c) = some (record c { job_id = job })

abbrev pub rewrite_claim :
    (Option DeviceClaim → Option DeviceClaim) → Option (ℕ × ℕ) → Store → Store
rewrite_claim f none store = store
rewrite_claim f (some (device, token)) store =
    if token_is token (store.claims device)
    then record store { claims = put_claim device (f (store.claims device)) store.claims }
    else store

abbrev pub heartbeat : ClaimRegistration → ℕ → Store → Result Store
heartbeat reg now store = do lock_claim reg store; ok (rewrite_claim (beat now) reg.identity store)

-- The start of a given head under the claim: the job runs, and the claim names it. The attempt that it
-- gives the registration is in the registrations of the events after it.
abbrev pub start_head : ClaimRegistration → ℕ → Store → Result Store
start_head reg job store = do
  lock_claim reg store
  ok (
      rewrite_claim (associated (some job)) reg.identity
        record store { work = start_claimed_job job store.work })

-- `disposition_for`
abbrev pub disposition_for : JobType → JobStatus
disposition_for apply = failed
disposition_for _ = queued

pub data Disposition : Type 0 where
  no_attempt disposed : Disposition

abbrev pub envelope : String → String → Fields
envelope code message =
    field "code" (text code) (field "message" (text message) (field "detail" (object end) end))

abbrev pub error_if_failed : JobStatus → Fields → Option Fields
error_if_failed failed error = some error
error_if_failed _ error = none

-- What the execution attempts prove, and how they are disposed of, are arguments: the latter raises
-- `claim_lost` if the attempt is another's.
module _ (evidence : Job → Option Fields → Option Fields)
    (dispose : String → ℕ → Option ℕ → Tables → Result (Disposition × Tables))
    (between : Tables → Tables) where
  abbrev pub terminalized :
      ℕ → JobStatus → Option Fields → Option ℕ → Disposition × Tables → Result Tables
  terminalized job status error attempt (disposed, work) = ok work
  terminalized job status error attempt (no_attempt, work) = do
    write ← terminalize_running evidence job status error attempt between work
    ok write.1

  -- `mark_failed_and_release` and `dispose_cancelled`, up to their commit.
  abbrev pub mark_failed_and_release :
      ℕ → String → String → ClaimRegistration → Store → Result Store
  mark_failed_and_release job code message reg store = do
    lock_claim reg store
    run ← dispose "runner_failed" job reg.run_attempt store.work
    work ← terminalized job failed (some (envelope code message)) reg.run_attempt run
    ok (delete_own_claim reg.identity record store { work = work })

  abbrev pub dispose_cancelled : ℕ → JobType → String → ClaimRegistration → Store → Result Store
  dispose_cancelled job type reason reg store = do
    lock_claim reg store
    run ← dispose reason job reg.run_attempt store.work
    work ←
        terminalized job (disposition_for type)
          (error_if_failed (disposition_for type) (envelope "cancelled" "Worker cancelled the run"))
          reg.run_attempt run
    ok (delete_own_claim reg.identity record store { work = work })

  -- `revoke_stale_claims`: the job of a stale claim, which may be gone.
  abbrev fail_lost_attempt : ℕ → ℕ → Tables → Result Tables
  fail_lost_attempt job attempt work = do
    write ←
        terminalize_running evidence job failed
          (some (envelope "attempt_ownership_lost" "Execution attempt no longer matches its job"))
          (some attempt) between work
    ok write.1

  abbrev redisposed_as : Job → Tables → Result (Disposition × Tables) → Result Tables
  redisposed_as j work (ok run) =
      terminalized j.id (disposition_for j.job_type)
        (error_if_failed (disposition_for j.job_type)
          (envelope "orphaned" "Claim revoked after heartbeat loss"))
        (some j.run_attempt) run
  redisposed_as j work (raised claim_lost) = fail_lost_attempt j.id j.run_attempt work
  redisposed_as j work (raised e) = raised e

  abbrev redisposed_job : Option Job → Tables → Result Tables
  redisposed_job none work = ok work
  redisposed_job (some j) work =
      redisposed_as j work (dispose "claim_expired" j.id (some j.run_attempt) work)

  abbrev pub redisposed : Option ℕ → Tables → Result Tables
  redisposed none work = ok work
  redisposed (some job) work = redisposed_job (first_where (has_id job) work.jobs) work

  abbrev pub revoked : Store → ℕ → DeviceClaim → Result Store
  revoked store device c = do
    work ← redisposed c.job_id store.work
    ok (delete_claim device c.claim_token record store { work = work })

  abbrev pub revoked_if_stale : ℕ → ℕ → Option DeviceClaim → Store → Result Store
  revoked_if_stale cutoff device none store = ok store
  revoked_if_stale cutoff device (some c) store =
      if ltb c.heartbeat_at cutoff then revoked store device c else ok store

  -- The rows are visited by their devices.
  unfoldable pub revoke_claims : ℕ → List ℕ → Store → Result Store
  unfolding first_where terminalize_running
  revoke_claims cutoff [] store = ok store
  revoke_claims cutoff (device ∷ rest) store = do
    next ← revoked_if_stale cutoff device (store.claims device) store
    revoke_claims cutoff rest next

-- `claim_stale_cutoff`, in milliseconds: the lifecycle, and the slack.
abbrev pub lifecycle_total : ℕ
lifecycle_total = 1200000 + 30000 + 60000 + (5 * 60000 + 120000)

abbrev pub claim_stale_after : ℕ
claim_stale_after = lifecycle_total + 60000

unfoldable pub revoke_stale_claims :
    (Job → Option Fields → Option Fields)
    → (String → ℕ → Option ℕ → Tables → Result (Disposition × Tables))
    → (Tables → Tables)
    → ℕ
    → Store
    → Result Store
unfolding revoke_claims
revoke_stale_claims evidence dispose between now store =
    revoke_claims evidence dispose between (now - claim_stale_after) store.devices store
