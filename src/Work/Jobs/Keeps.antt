-- ===== src/Work/Jobs/Keeps.antt =====
-- Tables of jobs with distinct ids below the next one, and what keeps a row in them: the writes of
-- core/claim.py, core/worker.py and core/jobs.py that are not about that row.
use mathlib.Core.List.{Memᴰ}
use mathlib.Core.List.Memᴰ.{head, tail, append_left}
use nso_adapter.Prelude.{
  ℕ, ◌+◌, ◌<◌, ◌≡◌, refl, Bool, true, false, not, ◌&&◌, Option, some, List, [], ◌∷◌, ◌++◌, ◌==◌,
  inl, inr, map, Bool-cases, arith, and-parts, or-parts, not-parts,
}
use nso_adapter.Results.{Result-cases, check-eq-ok, ok-injective}
use nso_adapter.DeletedRoutes.{elem}
use nso_adapter.ApplyPlan.RoundTrip.{distinct_ids}
use nso_adapter.Work.{
  Job, JobStatus, JobType, queued, running, succeeded, failed, Tables, status_eq,
}
use nso_adapter.Work.Jobs.{
  is_terminal, attempt_is, owns, first_where, update_where, cas_job_status, has_id,
  is_device_writing,
}
use nso_adapter.Work.Jobs.Writers.{create_dedicated_job, new_job}
use nso_adapter.Work.Jobs.Event.{or_uncreated}

abbrev pub job_id : Job → ℕ
job_id j = j.id

-- The ids are distinct, and below the next one.
unfoldable pub AllBelow : ℕ → List Job → Type 0
AllBelow n [] = Unit
AllBelow n (j ∷ rest) = (j.id < n) × AllBelow n rest

unfoldable pub WellFormed : Tables → Type 0
WellFormed tables =
    (distinct_ids (map job_id tables.jobs) ≡ true) × AllBelow tables.next_id tables.jobs

-- Well-formed tables with the row.
unfoldable pub Holds : Job → Tables → Type 0
Holds j tables = WellFormed tables × Memᴰ j tables.jobs

module _ (test : Job → Bool) (f : Job → Job) (same_id : (k : Job) → (f k).id ≡ k.id) where
  update-ids : (jobs : List Job) → map job_id (update_where test f jobs) ≡ map job_id jobs
  unfolding update_where
  update-ids [] = refl
  update-ids (k ∷ rest) = elim (Bool-cases (test k)) [
    | inl e ↦ rw (e, same_id k, update-ids rest) refl
    | inr e ↦ rw (e, update-ids rest) refl
  ]

  update-AllBelow :
      (n : ℕ) (jobs : List Job) → AllBelow n jobs → AllBelow n (update_where test f jobs)
  unfolding update_where AllBelow
  update-AllBelow n [] h = tt
  update-AllBelow n (k ∷ rest) h = elim (Bool-cases (test k)) [
    | inl e ↦ rw e ((rw (same_id k) h.0, update-AllBelow n rest h.1))
    | inr e ↦ rw e ((h.0, update-AllBelow n rest h.1))
  ]

  update-row :
      (j : Job) (jobs : List Job) → test j ≡ false → Memᴰ j jobs → Memᴰ j (update_where test f jobs)
  unfolding update_where
  update-row j [] kept m = elim m [ ]
  update-row j (k ∷ rest) kept (head e) = let e' : test k ≡ false = rw (← e) kept in rw e' (head e)
  update-row j (k ∷ rest) kept (tail m) = elim (Bool-cases (test k)) [
    | inl e ↦ rw e (tail (update-row j rest kept m))
    | inr e ↦ rw e (tail (update-row j rest kept m))
  ]

  pub cas-Holds :
      (j : Job) (tables : Tables)
      → test j ≡ false
      → Holds j tables
      → Holds j (cas_job_status test f tables)
  unfolding cas_job_status Holds WellFormed
  cas-Holds j tables kept ((distinct, below), m) = (
    (rw (update-ids tables.jobs) distinct, update-AllBelow tables.next_id tables.jobs below),
    update-row j tables.jobs kept m,
  )

-- A row of the id that is not the owned one would be a twin of it.
member-elem : (j : Job) (jobs : List Job) → Memᴰ j jobs → elem j.id (map job_id jobs) ≡ true
unfolding elem
member-elem j [] m = elim m [ ]
member-elem j (k ∷ rest) (head e) = rw e (ground arith)
member-elem j (k ∷ rest) (tail m) = elim (Bool-cases (j.id == k.id)) [
  | inl e ↦ rw e refl
  | inr e ↦ rw e (member-elem j rest m)
]

owned-elem :
    (id : ℕ) (expect : JobStatus) (attempt : Option ℕ) (jobs : List Job) {locked : Job}
    → first_where (owns id expect attempt) jobs ≡ some locked
    → elem id (map job_id jobs) ≡ true
unfolding first_where elem
owned-elem id expect attempt [] h = cc h
owned-elem id expect attempt (k ∷ rest) h = elim (Bool-cases (owns id expect attempt k)) [
  | inr e ↦
      let later = owned-elem id expect attempt rest (rw e at h) in
      elim (Bool-cases (id == k.id)) [ inl e' ↦ rw e' refl | inr e' ↦ rw e' later ]
  | inl e ↦
      let (is, _) = and-parts (k.id == id) _ e in
      let back : (id == k.id) ≡ true = ground arith in rw back refl
]

pub status_apart :
    (a b : JobStatus) → is_terminal a ≡ true → is_terminal b ≡ false → status_eq a b ≡ false
status_apart queued b done live = cc done
status_apart running b done live = cc done
status_apart succeeded queued done live = refl
status_apart succeeded running done live = refl
status_apart succeeded succeeded done live = cc live
status_apart succeeded failed done live = refl
status_apart failed queued done live = refl
status_apart failed running done live = refl
status_apart failed succeeded done live = refl
status_apart failed failed done live = cc live

and_false : (a b : Bool) → (a && (false && b)) ≡ false
and_false true b = refl
and_false false b = refl

pub and_last : (a : Bool) → (a && false) ≡ false
and_last true = refl
and_last false = refl

pub terminal-unowned :
    (id : ℕ) (expect : JobStatus) (attempt : Option ℕ) (j : Job)
    → is_terminal expect ≡ false
    → is_terminal j.status ≡ true
    → owns id expect attempt j ≡ false
terminal-unowned id expect attempt j live done =
    rw (status_apart j.status expect done live)
      (and_false (j.id == id) (attempt_is attempt j.run_attempt))

-- Of distinct ids, a terminal row has another id than the owned one.
pub terminal-apart :
    (id : ℕ) (expect : JobStatus) (attempt : Option ℕ) (j : Job) (jobs : List Job) {locked : Job}
    → is_terminal expect ≡ false
    → is_terminal j.status ≡ true
    → distinct_ids (map job_id jobs) ≡ true
    → first_where (owns id expect attempt) jobs ≡ some locked
    → Memᴰ j jobs
    → has_id id j ≡ false
unfolding first_where distinct_ids
terminal-apart id expect attempt j [] live done distinct h m = elim m [ ]
terminal-apart id expect attempt j (k ∷ rest) live done distinct h m =
    let (new, later) = and-parts (not (elem k.id (map job_id rest))) _ distinct in
    let alone = not-parts (elem k.id (map job_id rest)) new in
    elim m [
      | head e ↦
          let unowned : owns id expect attempt k ≡ false =
            rw (← e) (terminal-unowned id expect attempt j live done) in
          let found = owned-elem id expect attempt rest (rw unowned at h) in
          elim (Bool-cases (j.id == id)) [
            | inr apart ↦ apart
            | inl is ↦
                let same : id ≡ k.id = rw (← e) (ground arith) in cc (rw same at found, alone)
          ]
      | tail m' ↦ elim (Bool-cases (owns id expect attempt k)) [
        | inr e ↦ terminal-apart id expect attempt j rest live done later (rw e at h) m'
        | inl e ↦
            let (is, _) = and-parts (k.id == id) _ e in
            elim (Bool-cases (j.id == id)) [
              | inr apart ↦ apart
              | inl is' ↦
                  let same : j.id ≡ k.id = ground arith in
                  cc (rw same at (member-elem j rest m'), alone)
            ]
      ]
    ]

pub rows-Holds :
    (j : Job) (tables after : Tables)
    → after.jobs ≡ tables.jobs
    → after.next_id ≡ tables.next_id
    → Holds j tables
    → Holds j after
unfolding Holds WellFormed
rows-Holds j tables after jobs next ((distinct, below), m) =
    ((rw jobs distinct, rw (jobs, next) below), rw jobs m)

-- A row with a new id, at the end.
elem-added :
    (n k : ℕ) (new : Job) (jobs : List Job)
    → new.id ≡ n
    → k < n
    → elem k (map job_id jobs) ≡ false
    → elem k (map job_id (jobs ++ (new ∷ []))) ≡ false
unfolding elem
elem-added n k new [] is below h = rw is (ground arith)
elem-added n k new (a ∷ rest) is below h =
    let (apart, later) = or-parts (k == a.id) _ h in
    rw apart (elem-added n k new rest is below later)

added-distinct :
    (n : ℕ) (new : Job) (jobs : List Job)
    → new.id ≡ n
    → AllBelow n jobs
    → distinct_ids (map job_id jobs) ≡ true
    → distinct_ids (map job_id (jobs ++ (new ∷ []))) ≡ true
unfolding distinct_ids elem AllBelow
added-distinct n new [] is below h = refl
added-distinct n new (a ∷ rest) is below h =
    let (alone, later) = and-parts (not (elem a.id (map job_id rest))) _ h in
    let absent = elem-added n a.id new rest is below.0 (not-parts _ alone) in
    rw (absent, added-distinct n new rest is below.1 later) refl

added-AllBelow :
    (n : ℕ) (new : Job) (jobs : List Job)
    → new.id ≡ n
    → AllBelow n jobs
    → AllBelow (n + 1) (jobs ++ (new ∷ []))
unfolding AllBelow
added-AllBelow n new [] is below = (omega arith, tt)
added-AllBelow n new (a ∷ rest) is below =
    let h = below.0 in (omega arith, added-AllBelow n new rest is below.1)

pub create-Holds :
    (j : Job) (device : ℕ) (type : JobType) (tables : Tables)
    → Holds j tables
    → Holds j (or_uncreated tables (create_dedicated_job device type tables))
unfolding create_dedicated_job Holds WellFormed
create-Holds j device type tables ((distinct, below), m) =
    elim (Result-cases (create_dedicated_job device type tables)) [
      | inl (_, e) ↦ rw e (((distinct, below), m))
      | inr (p, e) ↦
          let (_, same) = check-eq-ok (is_device_writing type) _ _ e in
          let new = new_job tables.next_id type device false in
          rw (e, ← ok-injective same)
            ((
              (
                added-distinct tables.next_id new tables.jobs refl below distinct,
                added-AllBelow tables.next_id new tables.jobs refl below,
              ),
              append_left (new ∷ []) m,
            ))
    ]
