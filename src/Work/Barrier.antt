-- ===== src/Work/Barrier.antt =====
-- The success barrier: executable_head, _blocking_predecessor and job_admissible of
-- core/generation.py, and the job that _start_head_under_claim of core/worker.py takes by it.
pub mod Head
pub mod Agrees
mod Tests
use nso_adapter.Prelude.{
  ℕ, Bool, true, false, not, ◌&&◌, ◌||◌, Option, none, some, is_some, List, [], ◌∷◌, ◌==◌, ltb, leb,
  if◌then◌else◌,
}
use nso_adapter.Work.Rows.{Generation, GenerationStatus, failed, outcome_unknown}
use nso_adapter.Work.{Job, Tables}
use nso_adapter.Work.Generations.{is_crossable, carries_job, rows_where}
use nso_adapter.Work.Jobs.{first_where, has_id, is_device_writing}
use nso_adapter.Work.Jobs.Writers.{queued_of}

-- `ORDER BY seq LIMIT 1`
abbrev pub earlier_of : Generation → Option Generation → Option Generation
earlier_of g none = some g
earlier_of g (some h) = if leb g.seq h.seq then some g else some h

unfoldable pub first_by_seq : List Generation → Option Generation
first_by_seq [] = none
first_by_seq (g ∷ rest) = earlier_of g (first_by_seq rest)

abbrev pub is_open : ℕ → Generation → Bool
is_open device g = g.device_id == device && not (is_crossable g.status)

unfoldable pub executable_head : ℕ → List Generation → Option Generation
unfolding first_by_seq rows_where
executable_head device rows = first_by_seq (rows_where (is_open device) rows)

abbrev pub precedes : ℕ → ℕ → Generation → Bool
precedes device seq g = is_open device g && ltb g.seq seq

unfoldable pub blocking_predecessor : ℕ → ℕ → List Generation → Option Generation
unfolding first_by_seq rows_where
blocking_predecessor device seq rows = first_by_seq (rows_where (precedes device seq) rows)

-- `BLOCKED_STATUSES`
abbrev is_blocked_status : GenerationStatus → Bool
is_blocked_status failed = true
is_blocked_status outcome_unknown = true
is_blocked_status _ = false

unfoldable pub any_blocked : ℕ → List Generation → Bool
any_blocked device [] = false
any_blocked device (g ∷ rest) =
    (g.device_id == device && is_blocked_status g.status) || any_blocked device rest

abbrev writes_device : Option Job → Bool
writes_device none = false
writes_device (some j) = is_device_writing j.job_type

-- By the first generation that the job carries.
abbrev pub admissible_by : Option Generation → ℕ → ℕ → Tables → Bool
admissible_by none job device tables =
    not (
      writes_device (first_where (has_id job) tables.jobs) && any_blocked device tables.generations)
admissible_by (some first) job device tables =
    not (is_some (blocking_predecessor device first.seq tables.generations))

unfoldable pub job_admissible : ℕ → ℕ → Tables → Bool
unfolding first_by_seq rows_where blocking_predecessor first_where any_blocked
job_admissible job device tables =
    admissible_by (first_by_seq (rows_where (carries_job job) tables.generations)) job device tables

-- The walk, where no job or generation is expected, in the order of the table. `skipped` are the jobs
-- whose row another transaction holds.
unfoldable pub jobs_where : (Job → Bool) → List Job → List Job
jobs_where test [] = []
jobs_where test (j ∷ rest) = let later = jobs_where test rest in if test j then j ∷ later else later

unfoldable pub choose_head : ℕ → (ℕ → Bool) → Tables → List Job → Option Job
unfolding job_admissible
choose_head device skipped tables [] = none
choose_head device skipped tables (j ∷ rest) =
    let later = choose_head device skipped tables rest in
    if skipped j.id then none else if job_admissible j.id device tables then some j else later

unfoldable pub next_head : ℕ → (ℕ → Bool) → Tables → Option Job
unfolding jobs_where choose_head
next_head device skipped tables =
    choose_head device skipped tables (jobs_where (queued_of device) tables.jobs)
