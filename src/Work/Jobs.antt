-- ===== src/Work/Jobs.antt =====
-- The terminal writer of jobs.status: core/claim.py from `_ownership` to `terminalize`. Each writer of
-- jobs runs as one transaction, under the row lock of its job; what it raises leaves the tables as
-- they were.
pub mod Recovery
pub mod Writers
pub mod Event
pub mod Passes
pub mod Keeps
pub mod Final
pub mod Settle
mod Tests
use nso_adapter.Prelude.{
  ℕ, suc, ◌+◌, String, Bool, true, false, not, ◌&&◌, ◌||◌, Option, none, some, is_some, List, [],
  ◌∷◌, ◌++◌, ◌==◌, if◌then◌else◌,
}
use nso_adapter.Json.{Value, Fields, natural, null, text, object, end, field, has_key, put}
use nso_adapter.Results.{
  Result, ok, raised, value_error, bookkeeping_outcome_unknown, ◌>>=◌, ◌>>◌, check,
}
use nso_adapter.Work.Rows.{GenerationStatus, settled, outcome_unknown, abandoned}
use nso_adapter.Work.Rows
use nso_adapter.Work.{
  Job, JobStatus, JobType, queued, running, succeeded, failed, apply, removal, Tables, status_eq,
  type_eq, option_eq,
}
use nso_adapter.Work.Generations.{
  settle_job_generations, requeue_job_generations, mark_job_generations_running,
}

abbrev pub is_terminal : JobStatus → Bool
is_terminal succeeded = true
is_terminal failed = true
is_terminal _ = false

-- `_ownership`
abbrev pub attempt_is : Option ℕ → ℕ → Bool
attempt_is none attempt = true
attempt_is (some n) attempt = attempt == n

abbrev pub owns : ℕ → JobStatus → Option ℕ → Job → Bool
owns id expect attempt j =
    j.id == id && (status_eq j.status expect && attempt_is attempt j.run_attempt)

unfoldable pub first_where : (Job → Bool) → List Job → Option Job
first_where test [] = none
first_where test (j ∷ rest) = let later = first_where test rest in if test j then some j else later

unfoldable pub update_where : (Job → Bool) → (Job → Job) → List Job → List Job
update_where test f [] = []
update_where test f (j ∷ rest) =
    let later = update_where test f rest in if test j then f j ∷ later else j ∷ later

-- The columns that a terminal write sets, if they are given: `set_device_id` is none if UNSET.
pub record Values : Type 0 where
  pub status : JobStatus
  pub result : Option Fields
  pub error : Option Fields
  pub set_device_id : Option (Option ℕ)

abbrev pub or_kept {ℓ} : {A : Type ℓ} → Option A → A → A
or_kept none old = old
or_kept (some new) old = new

abbrev pub or_column : Option Fields → Option Fields → Option Fields
or_column none old = old
or_column (some new) old = some new

abbrev pub with_values : Values → Job → Job
with_values v j = record j {
  status = v.status;
  result = or_column v.result j.result;
  error = or_column v.error j.error;
  device_id = or_kept v.set_device_id j.device_id;
}

-- `_cas_job_status`
unfoldable pub cas_job_status : (Job → Bool) → (Job → Job) → Tables → Tables
unfolding update_where
cas_job_status test f tables = record tables { jobs = update_where test f tables.jobs }

-- `_with_unprepared_evidence`: two objects without a key in common.
unfoldable pub common_key : Fields → Fields → Bool
unfolding has_key
common_key end node = false
common_key (field k v rest) node = has_key k node || common_key rest node

unfoldable pub merged : Fields → Fields → Fields
unfolding put
merged node end = node
merged node (field k v rest) = merged (put k v node) rest

abbrev fields_or_empty : Option Fields → Fields
fields_or_empty none = end
fields_or_empty (some node) = node

abbrev pub is_device_writing : JobType → Bool
is_device_writing apply = true
is_device_writing removal = true
is_device_writing _ = false

abbrev add_evidence : Option Fields → Option Fields → Result (Option Fields)
add_evidence result none = ok result
add_evidence result (some found) = do
  check (not (common_key found (fields_or_empty result))) value_error
  ok (some (merged (fields_or_empty result) found))

abbrev has_outcomes : Option Fields → Bool
has_outcomes none = false
has_outcomes (some node) = has_key "row_outcomes" node

pub record TerminalWrite : Type 0 where
  pub job_id : ℕ
  pub status : JobStatus
  pub device_id : Option ℕ
  pub settle_seq : Option ℕ

-- `allocate_settle_seq` (store/device_settle.py), and the sequence on the job's row.
abbrev pub with_counter : (ℕ → Option ℕ) → ℕ → ℕ → ℕ → Option ℕ
with_counter last_seq device n d = if d == device then some n else last_seq d

abbrev pub has_id : ℕ → Job → Bool
has_id id j = j.id == id

abbrev pub sequenced : ℕ → Job → Job
sequenced n j = record j { settle_seq = some n }

abbrev pub allocated :
    ℕ → JobStatus → ℕ → Tables → Option ℕ → Result (Option TerminalWrite × Tables)
allocated id status device tables none = raised bookkeeping_outcome_unknown
allocated id status device tables (some n) = ok (
  some
      (record { job_id = id; status = status; device_id = some device; settle_seq = some (n + 1) }),
  record tables {
    jobs = update_where (has_id id) (sequenced (n + 1)) tables.jobs;
    last_seq = with_counter tables.last_seq device (n + 1);
  },
)

abbrev pub sequenced_for :
    ℕ → JobStatus → Option ℕ → Tables → Result (Option TerminalWrite × Tables)
sequenced_for id status none tables =
    ok (some (record { job_id = id; status = status; device_id = none; settle_seq = none }), tables)
sequenced_for id status (some device) tables =
    allocated id status device tables (tables.last_seq device)

-- The outcome of the generations, where none is given.
abbrev pub default_outcome : JobStatus → GenerationStatus
default_outcome succeeded = settled
default_outcome _ = Rows.failed

-- What the execution attempts prove of a run that sent nothing is an argument.
module _ (unprepared_evidence : Job → Option Fields → Option Fields) where
  abbrev pub with_unprepared_evidence : Job → Option Fields → Option Fields → Result (Option Fields)
  with_unprepared_evidence locked result error =
      if has_outcomes result
      then ok result
      else if is_device_writing locked.job_type && is_some locked.device_id
      then add_evidence result (unprepared_evidence locked error)
      else ok result

  abbrev pub terminal_write :
      Job
      → ℕ
      → Values
      → (Job → Bool)
      → GenerationStatus
      → Tables
      → Result (Option TerminalWrite × Tables)
  terminal_write locked id values test outcome tables = do
    result ← with_unprepared_evidence locked values.result values.error
    let full = record values { result = result }
    next ← settle_job_generations id outcome (cas_job_status test (with_values full) tables)
    sequenced_for id values.status (with_values full locked).device_id next

  abbrev pub if_owned :
      Option Job
      → ℕ
      → Values
      → (Job → Bool)
      → GenerationStatus
      → Tables
      → Result (Option TerminalWrite × Tables)
  if_owned none id values test outcome tables = ok (none, tables)
  if_owned (some locked) id values test outcome tables =
      terminal_write locked id values test outcome tables

  unfoldable pub terminalize :
      ℕ
      → JobStatus
      → Option ℕ
      → Values
      → Option GenerationStatus
      → Tables
      → Result (Option TerminalWrite × Tables)
  unfolding first_where cas_job_status common_key merged has_key update_where settle_job_generations
  terminalize id expect attempt values outcome tables = do
    check (is_terminal values.status) value_error
    if_owned (first_where (owns id expect attempt) tables.jobs) id values (owns id expect attempt)
        (or_kept outcome (default_outcome values.status)) tables
