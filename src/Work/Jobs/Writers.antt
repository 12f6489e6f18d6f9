-- ===== src/Work/Jobs/Writers.antt =====
-- The other writers of jobs.status: the bulk writers of core/claim.py, the starts of core/worker.py and
-- the creation of dedicated jobs in core/jobs.py.
use nso_adapter.Prelude.{
  ℕ, suc, ◌+◌, Bool, false, not, ◌&&◌, none, some, List, [], ◌∷◌, ◌++◌, ◌==◌, if◌then◌else◌,
}
use nso_adapter.Json.{Fields}
use nso_adapter.Results.{Result, ok, value_error, ◌>>◌, check}
use nso_adapter.Work.{Job, JobType, queued, running, failed, Tables, status_eq, option_eq}
use nso_adapter.Work.Generations.{mark_job_generations_running}
use nso_adapter.Work.Jobs.{is_terminal, cas_job_status, is_device_writing}

-- `terminalize_queued_bulk` and `terminalize_offboard_orphans_bulk`
abbrev pub queued_of : ℕ → Job → Bool
queued_of device j = option_eq j.device_id (some device) && status_eq j.status queued

abbrev pub unfinished_of : ℕ → Job → Bool
unfinished_of device j = option_eq j.device_id (some device) && not (is_terminal j.status)

abbrev pub failed_with : Fields → Job → Job
failed_with error j = record j { status = failed; error = some error }

unfoldable pub count_where : (Job → Bool) → List Job → ℕ
count_where test [] = 0
count_where test (j ∷ rest) =
    let later = count_where test rest in if test j then suc later else later

unfoldable pub terminalize_queued_bulk : ℕ → Fields → Tables → ℕ × Tables
unfolding count_where cas_job_status
terminalize_queued_bulk device error tables = (
  count_where (queued_of device) tables.jobs,
  cas_job_status (queued_of device) (failed_with error) tables,
)

unfoldable pub terminalize_offboard_orphans_bulk : ℕ → Fields → Tables → ℕ × Tables
unfolding count_where cas_job_status
terminalize_offboard_orphans_bulk device error tables = (
  count_where (unfinished_of device) tables.jobs,
  cas_job_status (unfinished_of device) (failed_with error) tables,
)

-- The start of a job (core/worker.py), without a claim and under one, and the creation of dedicated ones (core/jobs.py).
abbrev pub is_queued : ℕ → Job → Bool
is_queued id j = j.id == id && status_eq j.status queued

abbrev pub started : Job → Job
started j = record j { status = running; run_attempt = j.run_attempt + 1 }

unfoldable pub start_job : ℕ → Tables → Tables
unfolding cas_job_status
start_job id tables = cas_job_status (is_queued id) started tables

unfoldable pub start_claimed_job : ℕ → Tables → Tables
unfolding start_job mark_job_generations_running
start_claimed_job id tables = start_job id (mark_job_generations_running id tables)

abbrev pub new_job : ℕ → JobType → ℕ → Bool → Job
new_job id type device coalescible = record {
  id = id;
  job_type = type;
  status = queued;
  coalescible = coalescible;
  device_id = some device;
  result = none;
  error = none;
  run_attempt = 0;
  settle_seq = none;
}

abbrev pub added : JobType → ℕ → Bool → Tables → Tables
added type device coalescible tables = record tables {
  jobs = tables.jobs ++ (new_job tables.next_id type device coalescible ∷ []);
  next_id = tables.next_id + 1;
}

unfoldable pub create_dedicated_job : ℕ → JobType → Tables → Result (ℕ × Tables)
create_dedicated_job device type tables = do
  check (is_device_writing type) value_error
  ok (tables.next_id, added type device false tables)
