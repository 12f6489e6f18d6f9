-- ===== src/Work/Generations.antt =====
-- settle_job_generations and requeue_job_generations of core/generation.py: what a job's execution
-- proved about its generations. The stamps of revisions take the greater one, in any order.
pub mod Revisions
use nso_adapter.Prelude.{
  ℕ, String, Bool, true, false, not, ◌&&◌, ◌||◌, Option, none, some, is_some, List, [], ◌∷◌, ◌++◌,
  ◌==◌, ltb, str_eq, if◌then◌else◌,
}
use nso_adapter.Results.{Result, ok, value_error, ◌>>=◌, ◌>>◌, check}
use nso_adapter.DeletedRoutes.{elem}
use nso_adapter.Work.Rows.{
  Generation, GenerationStatus, pending, running, settled, failed, outcome_unknown, abandoned,
}
use nso_adapter.Work.{Tables, option_eq}

-- `_TERMINAL` and `_CROSSABLE`
abbrev pub is_terminal_outcome : GenerationStatus → Bool
is_terminal_outcome pending = false
is_terminal_outcome running = false
is_terminal_outcome _ = true

abbrev pub is_crossable : GenerationStatus → Bool
is_crossable settled = true
is_crossable abandoned = true
is_crossable _ = false

abbrev pub is_settled : GenerationStatus → Bool
is_settled settled = true
is_settled _ = false

-- `_job_generations`
abbrev pub carries_job : ℕ → Generation → Bool
carries_job job g = option_eq g.job_id (some job)

unfoldable pub rows_where : (Generation → Bool) → List Generation → List Generation
rows_where test [] = []
rows_where test (g ∷ rest) = let later = rows_where test rest in if test g then g ∷ later else later

-- `_terminalize_generations`, of the generations that the job carries.
unfoldable pub terminalize_generations : ℕ → GenerationStatus → List Generation → List Generation
terminalize_generations job outcome [] = []
terminalize_generations job outcome (g ∷ rest) =
    let later = terminalize_generations job outcome rest in
    if carries_job job g then record g { status = outcome } ∷ later else g ∷ later

-- A target of `_stamp_applied_revisions`.
pub record Target : Type 0 where
  pub device_id : ℕ
  pub stream : String
  pub revision : ℕ
  pub settlement_cohort : Option ℕ

unfoldable pub targets_of_row : Generation → List (String × ℕ) → List Target
targets_of_row g [] = []
targets_of_row g ((stream, revision) ∷ rest) =
    record {
      device_id = g.device_id;
      stream = stream;
      revision = revision;
      settlement_cohort = g.settlement_cohort;
    }
    ∷ targets_of_row g rest

unfoldable pub targets_of : List Generation → List Target
unfolding targets_of_row
targets_of [] = []
targets_of (g ∷ rest) = targets_of_row g g.stream_revisions ++ targets_of rest

-- A generation of the cohort, on the device, that a successor may not cross.
unfoldable pub blocking_sibling : ℕ → ℕ → List Generation → Bool
blocking_sibling device cohort [] = false
blocking_sibling device cohort (g ∷ rest) =
    (g.device_id == device
      && (not (is_crossable g.status) && option_eq g.settlement_cohort (some cohort)))
    || blocking_sibling device cohort rest

abbrev pub withheld : List Generation → ℕ → Option ℕ → Bool
withheld rows device none = false
withheld rows device (some cohort) = blocking_sibling device cohort rows

abbrev pub raised_to : ℕ → Option ℕ → Option ℕ
raised_to revision none = none
raised_to revision (some applied) = some (if ltb applied revision then revision else applied)

-- Whether the target's stamp writes the stream's row.
abbrev pub stamps : List Generation → Target → ℕ → String → Bool
stamps rows t device stream =
    (device == t.device_id && str_eq stream t.stream)
    && not (withheld rows t.device_id t.settlement_cohort)

abbrev Applied : Type 0
Applied = ℕ → String → Option ℕ

unfoldable pub stamp_applied_revisions : List Generation → List Target → Applied → Applied
unfolding blocking_sibling
stamp_applied_revisions rows [] applied device stream = applied device stream
stamp_applied_revisions rows (t ∷ rest) applied device stream =
    let before = stamp_applied_revisions rows rest applied device stream in
    if stamps rows t device stream then raised_to t.revision before else before

-- The cohorts of the carried generations, and whether a generation is of one of them.
abbrev with_cohort : Option ℕ → List ℕ → List ℕ
with_cohort none later = later
with_cohort (some c) later = c ∷ later

unfoldable pub cohorts_of : List Generation → List ℕ
cohorts_of [] = []
cohorts_of (g ∷ rest) = with_cohort g.settlement_cohort (cohorts_of rest)

abbrev in_cohort : List ℕ → Option ℕ → Bool
in_cohort cohorts none = false
in_cohort cohorts (some c) = elem c cohorts

unfoldable pub any_settled : List Generation → Bool
any_settled [] = false
any_settled (g ∷ rest) = is_settled g.status || any_settled rest

abbrev pub of_cohort : ℕ → Generation → Bool
of_cohort cohort g = option_eq g.settlement_cohort (some cohort)

-- `_stamp_settled_cohort`, of each cohort.
abbrev pub settled_targets : List Generation → List Target
settled_targets members = if any_settled members then targets_of members else []

unfoldable pub stamp_settled_cohorts : List Generation → List ℕ → Applied → Applied
unfolding any_settled targets_of rows_where stamp_applied_revisions
stamp_settled_cohorts rows [] applied = applied
stamp_settled_cohorts rows (cohort ∷ rest) applied =
    stamp_applied_revisions rows (settled_targets (rows_where (of_cohort cohort) rows))
      (stamp_settled_cohorts rows rest applied)

-- The targets of a settlement: the carried generations without a cohort, and those of the cohorts.
unfoldable pub settlement_targets : List Generation → List Generation → List Target
unfolding cohorts_of rows_where targets_of elem
settlement_targets carried rows = targets_of (
    rows_where (λ g. not (is_some g.settlement_cohort)) carried
    ++ rows_where (λ g. in_cohort (cohorts_of carried) g.settlement_cohort) rows)

abbrev pub no_rows : List Generation → Bool
no_rows [] = true
no_rows _ = false

unfoldable pub settle_job_generations : ℕ → GenerationStatus → Tables → Result Tables
unfolding rows_where terminalize_generations settlement_targets stamp_settled_cohorts
settle_job_generations job outcome tables = do
  let carried = rows_where (carries_job job) tables.generations
  check (no_rows carried || is_terminal_outcome outcome) value_error
  let rows = terminalize_generations job outcome tables.generations
  let stamped =
      stamp_settled_cohorts rows (cohorts_of carried)
        (stamp_applied_revisions rows (settlement_targets carried rows) tables.applied_revision)
  ok record tables {
    generations = rows;
    applied_revision = if is_settled outcome then stamped else tables.applied_revision;
  }

-- `mark_job_generations_running` and `requeue_job_generations`
abbrev pub is_pending : GenerationStatus → Bool
is_pending pending = true
is_pending _ = false

abbrev pub is_running : GenerationStatus → Bool
is_running running = true
is_running _ = false

unfoldable pub moved :
    ℕ → (GenerationStatus → Bool) → GenerationStatus → List Generation → List Generation
moved job test next [] = []
moved job test next (g ∷ rest) =
    let later = moved job test next rest in
    if carries_job job g && test g.status then record g { status = next } ∷ later else g ∷ later

unfoldable pub mark_job_generations_running : ℕ → Tables → Tables
unfolding moved
mark_job_generations_running job tables = record tables {
  generations = moved job is_pending running tables.generations;
}

unfoldable pub requeue_job_generations : ℕ → Tables → Tables
unfolding moved
requeue_job_generations job tables = record tables {
  generations = moved job is_running pending tables.generations;
}
