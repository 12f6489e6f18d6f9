-- ===== src/Work/Jobs/Recovery.antt =====
-- The recovery of running jobs: `terminalize_running` of core/claim.py, with the unique index on the
-- queued coalescible jobs (store/models.py) that its requeue may run into.
use nso_adapter.Prelude.{
  ℕ, Bool, true, false, not, ◌&&◌, ◌||◌, Option, none, some, is_some, List, [], ◌∷◌, if◌then◌else◌,
}
use nso_adapter.Json.{Value, Fields, natural, null, text, object, end, field}
use nso_adapter.Results.{Result, ok, ◌>>=◌}
use nso_adapter.Work.Rows.{GenerationStatus, outcome_unknown, abandoned}
use nso_adapter.Work.{
  Job, JobStatus, JobType, queued, running, failed, removal, Tables, status_eq, type_eq, option_eq,
}
use nso_adapter.Work.Generations.{requeue_job_generations}
use nso_adapter.Work.Jobs.{owns, first_where, or_column, cas_job_status, TerminalWrite, terminalize}

-- `_queued_successor_id`, and the unique index on the queued coalescible jobs of a device and type.
abbrev successor : ℕ → JobType → Job → Bool
successor device type j =
    option_eq j.device_id (some device) && (type_eq j.job_type type && status_eq j.status queued)

unfoldable pub queued_successor : ℕ → JobType → List Job → Option ℕ
queued_successor device type [] = none
queued_successor device type (j ∷ rest) =
    let later = queued_successor device type rest in
    if successor device type j then some j.id else later

abbrev pub successor_of : Option (ℕ × JobType) → List Job → Option ℕ
successor_of none jobs = none
successor_of (some (device, type)) jobs = queued_successor device type jobs

abbrev pub has_slot : Job → Bool
has_slot j = status_eq j.status queued && j.coalescible

abbrev pub clashes : Job → Job → Bool
clashes j k =
    (has_slot j && has_slot k)
    && (option_eq j.device_id k.device_id && type_eq j.job_type k.job_type)

unfoldable pub clashes_with : Job → List Job → Bool
clashes_with j [] = false
clashes_with j (k ∷ rest) = clashes j k || clashes_with j rest

unfoldable pub index_holds : List Job → Bool
unfolding clashes_with
index_holds [] = true
index_holds (j ∷ rest) = not (clashes_with j rest) && index_holds rest

abbrev coalescible_by : Option ℕ → JobType → Option (ℕ × JobType)
coalescible_by none type = none
coalescible_by (some device) removal = none
coalescible_by (some device) type = some (device, type)

abbrev pub coalescible_of : Option Job → Option (ℕ × JobType)
coalescible_of none = none
coalescible_of (some j) = coalescible_by j.device_id j.job_type

abbrev pub requeued : Option Fields → Job → Job
requeued error j = record j { status = queued; error = or_column error j.error }

abbrev id_value : Option ℕ → Value
id_value none = null
id_value (some n) = natural n

-- What the execution attempts prove of a run that sent nothing is an argument.
module _ (unprepared_evidence : Job → Option Fields → Option Fields) where
  -- `terminalize_running`: between its look for a successor and its UPDATE, other transactions may
  -- have changed the tables, as `between` says.
  abbrev pub superseded_error : Option ℕ → Fields
  superseded_error successor = field "code" (text "superseded") (
      field "message" (text "Interrupted; an equivalent queued job covers the re-run")
        (field "detail" (object (field "queued_successor_id" (id_value successor) end)) end))

  abbrev pub status_of : Option TerminalWrite × Tables → Option JobStatus × Tables
  status_of (none, tables) = (none, tables)
  status_of (some w, tables) = (some w.status, tables)

  abbrev pub ended :
      ℕ
      → JobStatus
      → Option Fields
      → Option ℕ
      → Option GenerationStatus
      → Tables
      → Result (Option JobStatus × Tables)
  ended id status error attempt outcome tables = do
    write ←
        terminalize unprepared_evidence id running attempt
          (record { status = status; result = none; error = error; set_device_id = none }) outcome
          tables
    ok (status_of write)

  abbrev pub superseded : ℕ → Option ℕ → Option ℕ → Tables → Result (Option JobStatus × Tables)
  superseded id successor attempt tables =
      ended id failed (some (superseded_error successor)) attempt (some abandoned) tables

  -- The UPDATE back to `queued`, refused by the unique index on the queued coalescible jobs.
  abbrev pub requeue_update :
      ℕ
      → Option (ℕ × JobType)
      → Option Fields
      → Option ℕ
      → Tables
      → Result (Option JobStatus × Tables)
  requeue_update id coalescible error attempt tables =
      let next = cas_job_status (owns id running attempt) (requeued error) tables in
      let refused = superseded id (successor_of coalescible tables.jobs) attempt tables in
      if not (index_holds next.jobs)
      then refused
      else if is_some (first_where (owns id running attempt) tables.jobs)
      then ok (some queued, requeue_job_generations id next)
      else ok (none, tables)

  abbrev pub requeue_or_supersede :
      ℕ
      → Option (ℕ × JobType)
      → Option ℕ
      → Option Fields
      → Option ℕ
      → (Tables → Tables)
      → Tables
      → Result (Option JobStatus × Tables)
  requeue_or_supersede id coalescible none error attempt between tables =
      requeue_update id coalescible error attempt (between tables)
  requeue_or_supersede id coalescible (some successor) error attempt between tables =
      superseded id (some successor) attempt (between tables)

  abbrev pub recovery_outcome : JobStatus → Option GenerationStatus
  recovery_outcome failed = some outcome_unknown
  recovery_outcome _ = none

  abbrev pub terminalize_running_by :
      ℕ
      → JobStatus
      → Option Fields
      → Option ℕ
      → (Tables → Tables)
      → Tables
      → Result (Option JobStatus × Tables)
  terminalize_running_by id queued error attempt between tables =
      let coalescible = coalescible_of (first_where (owns id running none) tables.jobs) in
      requeue_or_supersede id coalescible (successor_of coalescible tables.jobs) error attempt
        between tables
  terminalize_running_by id status error attempt between tables =
      ended id status error attempt (recovery_outcome status) tables

  unfoldable pub terminalize_running :
      ℕ
      → JobStatus
      → Option Fields
      → Option ℕ
      → (Tables → Tables)
      → Tables
      → Result (Option JobStatus × Tables)
  unfolding terminalize first_where queued_successor index_holds requeue_job_generations
      cas_job_status
  terminalize_running id status error attempt between tables =
      terminalize_running_by id status error attempt between tables
