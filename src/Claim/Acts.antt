-- ===== src/Claim/Acts.antt =====
-- The transactions of core/claim.py, and the acts of ownership that each comes to.
use nso_adapter.Prelude.{
  ℕ, String, ◌≡◌, refl, sym, ap, Bool, true, false, not, Option, none, some, List, [], ◌∷◌, ◌++◌,
  ◌==◌, inl, inr, Bool-cases, Option-cases, arith, if◌then◌else◌,
}
use nso_adapter.Results.{Result, ok, raised, ◌>>=◌, ◌>>◌, check, claim_lost}
use nso_adapter.DeletedRoutes.{elem}
use nso_adapter.Work.{JobType, Tables}
use nso_adapter.Claim.{
  DeviceClaim, Store, ClaimRegistration, Fate, commits, aborts, loses_ack, token_is, put_claim,
  token_used, granted, inserted, lock_claim, delete_claim, delete_own_claim, concluded,
  rewrite_claim, associated, job_known, beat,
}
use nso_adapter.Claim.Owner.{Owner, Act, took, acted, left, with_owner, Runs, Runs-append}

pub data Event : Type 0 where
  acquires : ℕ → String → Option ℕ → ℕ → Bool → ℕ → Event
  works : ClaimRegistration → (Tables → Result Tables) → Fate → Event
  beats : ClaimRegistration → ℕ → Fate → Event
  starts : ClaimRegistration → ℕ → Fate → Event
  releases : ClaimRegistration → Fate → Event
  fails : ℕ → String → String → ClaimRegistration → Fate → Event
  cancels : ℕ → JobType → String → ClaimRegistration → Fate → Event
  revokes : ℕ → Event

-- Any transaction that does its effect under the claim: it locks the claim first, as the module asks
-- of its callers, and writes the work. What it writes is an argument.
abbrev pub guarded : ClaimRegistration → (Tables → Result Tables) → Store → Result Store
guarded reg write store = do
  lock_claim reg store
  work ← write store.work
  ok record store { work = work }

abbrev pub token_of : Option DeviceClaim → Option ℕ
token_of none = none
token_of (some c) = some c.claim_token

abbrev pub owner : Store → Owner
owner store d = token_of (store.claims d)

abbrev pub acted_by : Option (ℕ × ℕ) → List Act
acted_by none = []
acted_by (some (d, t)) = acted d t ∷ []

abbrev pub left_by : Option (ℕ × ℕ) → List Act
left_by none = []
left_by (some (d, t)) = left d t ∷ []

-- The acts of a transaction, if it was applied.
abbrev pub applied : Fate → Bool
applied commits = true
applied aborts = false
applied (loses_ack landed) = landed

abbrev pub if_applied : Fate → Result Store → List Act → List Act
if_applied fate (raised e) acts = []
if_applied fate (ok next) acts = if applied fate then acts else []

abbrev pub taken : Result (Option ClaimRegistration) → List Act
taken (raised e) = []
taken (ok none) = []
taken (ok (some reg)) = taken_as reg.identity
  where
    taken_as : Option (ℕ × ℕ) → List Act
    taken_as none = []
    taken_as (some (d, t)) = took d t ∷ []

-- What a transaction gives, and what it comes to.
abbrev pub outcome_of : Fate → Store → Result Store → List Act → List Act × Store
outcome_of fate store result acts = (if_applied fate result acts, (concluded fate store result).1)

check-true : (b : Bool) → check b claim_lost ≡ ok tt → b ≡ true
check-true true h = refl
check-true false h = cc h

token_is-owner :
    (token : ℕ) (c : Option DeviceClaim) → token_is token c ≡ true → token_of c ≡ some token
token_is-owner token none h = cc h
token_is-owner token (some c) h = ap some (ground arith)

-- Who locked the claim of an identity owns its device.
lock-owner :
    (reg : ClaimRegistration) (store : Store) (d t : ℕ)
    → reg.identity ≡ some (d, t)
    → lock_claim reg store ≡ ok tt
    → owner store d ≡ some t
lock-owner reg store d t is h =
    token_is-owner t (store.claims d) (check-true (token_is t (store.claims d)) (rw is at h))

pub acted-Runs :
    (reg : ClaimRegistration) (store next : Store)
    → lock_claim reg store ≡ ok tt
    → ((d : ℕ) → owner store d ≡ owner next d)
    → Runs (acted_by reg.identity) (owner store) (owner next)
unfolding Runs
acted-Runs reg store next h same = elim (Option-cases reg.identity) [
  | inl e ↦ rw e same
  | inr ((d, t), e) ↦ rw e ((lock-owner reg store d t e h, same))
]

owner-token_is :
    (token : ℕ) (c : Option DeviceClaim) → token_of c ≡ some token → token_is token c ≡ true
owner-token_is token none h = cc h
owner-token_is token (some c) h = let same : c.claim_token ≡ token = cc h in ground arith

pub deleted-owner :
    (store : Store) (d t e : ℕ)
    → owner store d ≡ some t
    → with_owner d none (owner store) e ≡ owner (delete_claim d t store) e
deleted-owner store d t e owns = elim (Bool-cases (e == d)) [
  | inl e' ↦ rw (owner-token_is t (store.claims d) owns, e') refl
  | inr e' ↦ rw (owner-token_is t (store.claims d) owns, e') refl
]

pub left-Runs :
    (reg : ClaimRegistration) (store : Store)
    → lock_claim reg store ≡ ok tt
    → Runs (left_by reg.identity) (owner store) (owner (delete_own_claim reg.identity store))
unfolding Runs
left-Runs reg store h = elim (Option-cases reg.identity) [
  | inl e ↦ rw e (λ d. refl)
  | inr ((d, t), e) ↦
      let owns = lock-owner reg store d t e h in
      rw e ((owns, λ d'. deleted-owner store d t d' owns))
]

pub outcome-Runs :
    (fate : Fate) (store : Store) (result : Result Store) (acts : List Act)
    → ((next : Store) → result ≡ ok next → Runs acts (owner store) (owner next))
    → Runs
        (outcome_of fate store result acts).0
        (owner store)
        (owner (outcome_of fate store result acts).1)
unfolding Runs
outcome-Runs fate store (raised e) acts h = λ d. refl
outcome-Runs commits store (ok next) acts h = h next refl
outcome-Runs aborts store (ok next) acts h = λ d. refl
outcome-Runs (loses_ack true) store (ok next) acts h = h next refl
outcome-Runs (loses_ack false) store (ok next) acts h = λ d. refl

pub beat-token : (now : ℕ) (c : Option DeviceClaim) → token_of (beat now c) ≡ token_of c
beat-token now none = refl
beat-token now (some c) = refl

pub associated-token :
    (job : Option ℕ) (c : Option DeviceClaim) → token_of (associated job c) ≡ token_of c
associated-token job none = refl
associated-token job (some c) = refl

-- A rewriting of the claim's row that keeps its token keeps the owners.
pub rewritten-owner :
    (f : Option DeviceClaim → Option DeviceClaim) (identity : Option (ℕ × ℕ)) (store : Store)
    → ((c : Option DeviceClaim) → token_of (f c) ≡ token_of c)
    → (d : ℕ) → owner store d ≡ owner (rewrite_claim f identity store) d
rewritten-owner f none store keeps d = refl
rewritten-owner f (some (device, token)) store keeps d =
    elim (Bool-cases (token_is token (store.claims device))) [
      | inr e ↦ rw e refl
      | inl e ↦ elim (Bool-cases (d == device)) [
        | inr e' ↦ rw (e, e') refl
        | inl e' ↦
            let is : d ≡ device = ground arith in
            let self : (device == device) ≡ true = ground arith in
            rw (e, is, self) (sym (keeps (store.claims device)))
      ]
    ]

unfoldable pub Kept : Result (Option ClaimRegistration) × Store → Store → Type 0
Kept (result, next) store = Runs (taken result) (owner store) (owner next)

inserted-Runs :
    (store : Store) (device : ℕ) (c : DeviceClaim)
    → store.claims device ≡ none
    → Kept (inserted store device c) store
unfolding Kept Runs
inserted-Runs store device c free =
    elim (Bool-cases (token_used c.claim_token store.claims store.devices)) [
      | inl used ↦ rw used (λ d. refl)
      | inr new ↦ elim (Bool-cases (not (elem device store.devices))) [
        | inl gone ↦ rw (new, gone) (λ d. refl)
        | inr there ↦ elim (Bool-cases (not (job_known store.work c.job_id))) [
          | inl unknown ↦ rw (new, there, unknown) (λ d. refl)
          | inr known ↦ rw (new, there, known) ((rw free refl, taken_owner))
        ]
      ]
    ]
  where
    taken_owner :
        (d : ℕ)
        → with_owner device (some c.claim_token) (owner store) d
          ≡ token_of (put_claim device (some c) store.claims d)
    taken_owner d = elim (Bool-cases (d == device)) [ inl e ↦ rw e refl | inr e ↦ rw e refl ]

pub granted-Runs :
    (held : Option DeviceClaim) (store : Store) (device : ℕ) (c : DeviceClaim)
    → store.claims device ≡ held
    → Kept (granted held store device c) store
unfolding Kept Runs
granted-Runs (some h) store device c is = λ d. refl
granted-Runs none store device c free = inserted-Runs store device c free

pub no_acts : (b : Bool) → ◌≡◌ {A = List Act} (if b then [] else []) []
no_acts true = refl
no_acts false = refl

-- Work under a claim that the same transaction gives up.
pub ended-Runs :
    (reg : ClaimRegistration) (store next : Store) (work : Tables)
    → lock_claim reg store ≡ ok tt
    → delete_own_claim reg.identity (record store { work = work }) ≡ next
    → Runs (acted_by reg.identity ++ left_by reg.identity) (owner store) (owner next)
ended-Runs reg store next work locked same =
    let worked : Store = record store { work = work } in
    Runs-append (acted_by reg.identity) (left_by reg.identity) (owner store) (owner worked)
      (owner next) (acted-Runs reg store worked locked (λ d. refl))
      (rw (← same) (left-Runs reg worked locked))
