-- ===== src/Claim/Refines.antt =====
-- The claims of core/claim.py carry out the ownership of devices: histories of transactions, and the
-- acts that they come to.
use nso_adapter.Prelude.{
  ℕ, ◌-◌, String, ◌≡◌, refl, ap, subst, ◌∙◌, Bool, true, not, Option, none, some, is_some, List, [],
  ◌∷◌, ◌++◌, ltb, inl, inr, Bool-cases, Option-cases, if◌then◌else◌,
}
use nso_adapter.Json.{Fields, text_mem}
use nso_adapter.Results.{Result, ok, raised, ◌>>◌, >>=-eq-ok, ok-injective}
use nso_adapter.Work.{Job, failed, Tables}
use nso_adapter.Claim.{
  DeviceClaim, Store, commits, acquire_claim, lock_claim, delete_own_claim, release_claim,
  heartbeat, start_head, associated, Disposition, mark_failed_and_release, dispose_cancelled,
  revoked_if_stale, revoke_claims, revoke_stale_claims, claim_stale_after, purposes, beat,
  terminalized, envelope, disposition_for, error_if_failed, redisposed,
}
use nso_adapter.Work.Jobs.Writers.{start_claimed_job}
use nso_adapter.Claim.Owner.{Act, left, Runs, Runs-append}
use nso_adapter.Claim.Acts.{
  guarded, acquires, works, beats, starts, releases, fails, cancels, revokes, Event, acquires,
  works, beats, starts, releases, fails, cancels, revokes, token_of, owner, acted_by, left_by,
  applied, if_applied, taken, outcome_of, acted-Runs, deleted-owner, left-Runs, outcome-Runs,
  beat-token, associated-token, rewritten-owner, Kept, granted-Runs, no_acts, ended-Runs,
}

module _ (evidence : Job → Option Fields → Option Fields)
    (dispose : String → ℕ → Option ℕ → Tables → Result (Disposition × Tables))
    (between : Tables → Tables) where
  -- The claims that a revocation removes.
  abbrev stale_act : ℕ → ℕ → Option DeviceClaim → List Act
  stale_act cutoff device none = []
  stale_act cutoff device (some c) =
      if ltb c.heartbeat_at cutoff then left device c.claim_token ∷ [] else []

  abbrev then_acts : List Act → List Act × Store → List Act × Store
  then_acts acts (more, last) = (acts ++ more, last)

  abbrev next_of : Store → Result Store → Store
  next_of store (raised e) = store
  next_of store (ok next) = next

  unfoldable pub revoke_acts : ℕ → List ℕ → Store → List Act
  unfolding revoke_claims
  revoke_acts cutoff [] store = []
  revoke_acts cutoff (device ∷ rest) store =
      stale_act cutoff device (store.claims device)
      ++ revoke_acts cutoff rest (
          next_of store
            (revoked_if_stale evidence dispose between cutoff device (store.claims device) store))

  unfoldable pub step : Event → Store → List Act × Store
  unfolding acquire_claim release_claim revoke_stale_claims revoke_acts
  step (acquires device purpose job token timed_out now) store =
      let (result, next) = acquire_claim device purpose job token timed_out now store in
      (taken result, next)
  step (works reg write fate) store =
      outcome_of fate store (guarded reg write store) (acted_by reg.identity)
  step (beats reg now fate) store =
      outcome_of fate store (heartbeat reg now store) (acted_by reg.identity)
  step (starts reg job fate) store =
      outcome_of fate store (start_head reg job store) (acted_by reg.identity)
  step (releases reg fate) store = (
    if_applied fate (do lock_claim reg store; ok (delete_own_claim reg.identity store))
        (left_by reg.identity),
    (release_claim reg fate store).1,
  )
  step (fails job code message reg fate) store =
      outcome_of fate store
        (mark_failed_and_release evidence dispose between job code message reg store)
        (acted_by reg.identity ++ left_by reg.identity)
  step (cancels job type reason reg fate) store =
      outcome_of fate store (dispose_cancelled evidence dispose between job type reason reg store)
        (acted_by reg.identity ++ left_by reg.identity)
  step (revokes now) store =
      outcome_of commits store (revoke_stale_claims evidence dispose between now store)
        (revoke_acts (now - claim_stale_after) store.devices store)

  unfoldable pub run : List Event → Store → List Act × Store
  unfolding step
  run [] store = ([], store)
  run (e ∷ rest) store =
      let (acts, next) = step e store in let (more, last) = run rest next in (acts ++ more, last)

  acquired-Runs :
      (device : ℕ) (purpose : String) (job : Option ℕ) (token : ℕ) (timed_out : Bool) (now : ℕ)
      (store : Store)
      → Runs
          (taken (acquire_claim device purpose job token timed_out now store).0)
          (owner store)
          (owner (acquire_claim device purpose job token timed_out now store).1)
  unfolding acquire_claim Runs Kept
  acquired-Runs device purpose job token timed_out now store =
      elim (Bool-cases (not (text_mem purpose purposes))) [
        | inl bad ↦ rw bad (λ d. refl)
        | inr good ↦ elim (Bool-cases timed_out) [
          | inl late ↦ rw (good, late) (λ d. refl)
          | inr early ↦
              let c : DeviceClaim = record {
                claim_token = token;
                purpose = purpose;
                job_id = job;
                heartbeat_at = now;
              } in
              rw (good, early) (granted-Runs (store.claims device) store device c refl)
        ]
      ]

  revoked-Runs :
      (cutoff device : ℕ) (c : Option DeviceClaim) (store next : Store)
      → store.claims device ≡ c
      → revoked_if_stale evidence dispose between cutoff device c store ≡ ok next
      → Runs (stale_act cutoff device c) (owner store) (owner next)
  unfolding Runs
  revoked-Runs cutoff device none store next is h = λ d. ap (λ s. owner s d) (ok-injective h)
  revoked-Runs cutoff device (some c) store next is h =
      elim (Bool-cases (ltb c.heartbeat_at cutoff)) [
        | inr fresh ↦ rw fresh (λ d. ap (λ s. owner s d) (ok-injective (rw fresh at h)))
        | inl stale ↦
            let (work, _, same) =
              >>=-eq-ok (redisposed evidence dispose between c.job_id store.work) _
                (rw stale at h) in
            let owns : owner store device ≡ some c.claim_token = ap token_of is in
            rw stale (
              (
                owns,
                λ d.
                    deleted-owner (record store { work = work }) device c.claim_token d owns
                    ∙ ap (λ s. owner s d) (ok-injective same),
              ))
      ]

  revoke-Runs :
      (cutoff : ℕ) (devices : List ℕ) (store next : Store)
      → revoke_claims evidence dispose between cutoff devices store ≡ ok next
      → Runs (revoke_acts cutoff devices store) (owner store) (owner next)
  unfolding revoke_claims revoke_acts Runs
  revoke-Runs cutoff [] store next h = λ d. ap (λ s. owner s d) (ok-injective h)
  revoke-Runs cutoff (device ∷ rest) store next h =
      let visit =
        revoked_if_stale evidence dispose between cutoff device (store.claims device) store in
      let (between_visits, e, h') = >>=-eq-ok visit _ h in
      rw e (
        Runs-append (stale_act cutoff device (store.claims device))
          (revoke_acts cutoff rest between_visits) (owner store) (owner between_visits) (owner next)
          (revoked-Runs cutoff device (store.claims device) store between_visits refl e)
          (revoke-Runs cutoff rest between_visits next h'))

  step-Runs :
      (e : Event) (store : Store) → Runs (step e store).0 (owner store) (owner (step e store).1)
  unfolding step Runs
  step-Runs (acquires device purpose job token timed_out now) store =
      acquired-Runs device purpose job token timed_out now store
  step-Runs (works reg write fate) store = outcome-Runs fate store _ _ λ next h.
      let (_, locked, h1) = >>=-eq-ok (lock_claim reg store) _ h in
      let (work, _, same) = >>=-eq-ok (write store.work) _ h1 in
      acted-Runs reg store next locked (λ d. ap (λ s. owner s d) (ok-injective same))
  step-Runs (beats reg now fate) store = outcome-Runs fate store _ _ λ next h.
      let (_, locked, same) = >>=-eq-ok (lock_claim reg store) _ h in
      acted-Runs reg store next locked λ d.
        rewritten-owner (beat now) reg.identity store (beat-token now) d
        ∙ ap (λ s. owner s d) (ok-injective same)
  step-Runs (starts reg job fate) store = outcome-Runs fate store _ _ λ next h.
      let (_, locked, same) = >>=-eq-ok (lock_claim reg store) _ h in
      acted-Runs reg store next locked λ d.
        rewritten-owner (associated (some job)) reg.identity
          (record store { work = start_claimed_job job store.work }) (associated-token (some job)) d
        ∙ ap (λ s. owner s d) (ok-injective same)
  step-Runs (releases reg fate) store = elim (Option-cases reg.identity) [
    | inl e ↦ rw (e, no_acts (applied fate)) (λ d. refl)
    | inr (own, e) ↦
        let named : is_some reg.identity ≡ true = rw e refl in
        rw named (
          outcome-Runs fate store _ (left_by reg.identity) λ next h.
            let (_, locked, same) = >>=-eq-ok (lock_claim reg store) _ h in
            subst (λ s. Runs (left_by reg.identity) (owner store) (owner s)) (ok-injective same)
              (left-Runs reg store locked))
  ]
  step-Runs (fails job code message reg fate) store = outcome-Runs fate store _ _ λ next h.
      let (_, locked, h1) = >>=-eq-ok (lock_claim reg store) _ h in
      let (run, _, h2) = >>=-eq-ok (dispose "runner_failed" job reg.run_attempt store.work) _ h1 in
      let (work, _, same) =
        >>=-eq-ok
          (terminalized evidence dispose between job failed (some (envelope code message))
            reg.run_attempt run)
          _ h2 in
      ended-Runs reg store next work locked (ok-injective same)
  step-Runs (cancels job type reason reg fate) store = outcome-Runs fate store _ _ λ next h.
      let (_, locked, h1) = >>=-eq-ok (lock_claim reg store) _ h in
      let (run, _, h2) = >>=-eq-ok (dispose reason job reg.run_attempt store.work) _ h1 in
      let (work, _, same) =
        >>=-eq-ok
          (terminalized evidence dispose between job (disposition_for type)
            (error_if_failed (disposition_for type)
              (envelope "cancelled" "Worker cancelled the run"))
            reg.run_attempt run)
          _ h2 in
      ended-Runs reg store next work locked (ok-injective same)
  step-Runs (revokes now) store =
      outcome-Runs commits store _ _
        λ next h. revoke-Runs (now - claim_stale_after) store.devices store next h

  -- A history of transactions is a run of the ownership of devices: from the owners that the claims
  -- give before it to those that they give after it, each acquisition that was granted takes a
  -- device that is free, each transaction that was applied under a claim is by the owner, and each
  -- release and revocation is of the owner.
  pub claims_refine_ownership :
      (history : List Event) (store : Store)
      → Runs (run history store).0 (owner store) (owner (run history store).1)
  unfolding run Runs
  claims_refine_ownership [] store = λ d. refl
  claims_refine_ownership (e ∷ rest) store =
      Runs-append (step e store).0 (run rest (step e store).1).0 (owner store)
        (owner (step e store).1) (owner (run rest (step e store).1).1) (step-Runs e store)
        (claims_refine_ownership rest (step e store).1)
