-- ===== src/Work/Jobs/Passes.antt =====
-- What a terminal write of core/claim.py does to the tables: one pass over the jobs, and another if
-- it takes a settlement sequence.
use nso_adapter.Prelude.{
  ℕ, ◌+◌, ◌≡◌, refl, sym, ap, Bool, true, ◌||◌, Option, none, some, ◌⊎◌, inl, inr, Option-cases,
}
use nso_adapter.Json.{Fields}
use nso_adapter.Results.{ok, >>=-eq-ok, check-eq-ok, ok-injective}
use nso_adapter.Work.Rows.{GenerationStatus}
use nso_adapter.Work.{Job, JobStatus, Tables}
use nso_adapter.Work.Generations.{
  settle_job_generations, is_terminal_outcome, no_rows, rows_where, carries_job,
}
use nso_adapter.Work.Jobs.{
  Values, TerminalWrite, is_terminal, owns, first_where, update_where, with_values, cas_job_status,
  has_id, sequenced, with_counter, sequenced_for, terminal_write, terminalize,
  with_unprepared_evidence, or_kept, default_outcome,
}

-- The settlement of generations leaves the jobs and the counters.
unfoldable pub Untouched : Tables → Tables → Type 0
Untouched tables after =
    (after.jobs ≡ tables.jobs)
    × (after.next_id ≡ tables.next_id)
    × (after.last_seq ≡ tables.last_seq)

pub settle-Untouched :
    (job : ℕ) (outcome : GenerationStatus) (tables : Tables) {after : Tables}
    → settle_job_generations job outcome tables ≡ ok after
    → Untouched tables after
unfolding settle_job_generations Untouched
settle-Untouched job outcome tables h =
    let (_, same) =
      check-eq-ok
        (no_rows (rows_where (carries_job job) tables.generations) || is_terminal_outcome outcome) _
        _ h in
    rw (← ok-injective same) ((refl, refl, refl))

-- The second pass.
unfoldable pub Sequenced : ℕ → JobStatus → Tables → Option TerminalWrite → Tables → Type 0
Sequenced id status next write after =
    ((write ≡ some (record { job_id = id; status = status; device_id = none; settle_seq = none }))
      × (after ≡ next))
    ⊎ ((device n : ℕ) × (next.last_seq device ≡ some n)
        × (write
            ≡ some (record {
              job_id = id;
              status = status;
              device_id = some device;
              settle_seq = some (n + 1);
            }))
        × (after ≡ record next {
          jobs = update_where (has_id id) (sequenced (n + 1)) next.jobs;
          last_seq = with_counter next.last_seq device (n + 1);
        }))

sequenced_lem :
    (id : ℕ) (status : JobStatus) (device : Option ℕ) (next : Tables) {write : Option TerminalWrite}
    {after : Tables}
    → sequenced_for id status device next ≡ ok (write, after)
    → Sequenced id status next write after
unfolding Sequenced
sequenced_lem id status none next h =
    let same = ok-injective h in inl (sym (ap (λ p. p.0) same), sym (ap (λ p. p.1) same))
sequenced_lem id status (some device) next h = elim (Option-cases (next.last_seq device)) [
  | inl e ↦ cc (rw e at h)
  | inr (n, e) ↦
      let same = ok-injective (rw e at h) in
      inr (device, n, e, sym (ap (λ p. p.0) same), sym (ap (λ p. p.1) same))
]

-- A terminal write that does not happen changes nothing; one that does owns its row, writes it in
-- the first pass, and then has the second.
unfoldable pub Writes :
    ℕ → JobStatus → Option ℕ → JobStatus → Tables → Option TerminalWrite → Tables → Type 0
Writes id expect attempt status tables write after =
    ((write ≡ none) × (after ≡ tables))
    ⊎ ((locked : Job) × (values : Values) × (next : Tables) × (first_where (owns id expect attempt)
            tables.jobs
          ≡ some locked)
        × (values.status ≡ status)
        × Untouched (cas_job_status (owns id expect attempt) (with_values values) tables) next
        × Sequenced id status next write after)

module _ (evidence : Job → Option Fields → Option Fields) where
  write-Sequenced :
      (locked : Job) (id : ℕ) (values : Values) (test : Job → Bool) (outcome : GenerationStatus)
      (tables : Tables) {write : Option TerminalWrite} {after : Tables}
      → terminal_write evidence locked id values test outcome tables ≡ ok (write, after)
      → (full : Values) × (next : Tables) × (full.status ≡ values.status)
        × Untouched (cas_job_status test (with_values full) tables) next
        × Sequenced id values.status next write after
  write-Sequenced locked id values test outcome tables {write} {after} h =
      let (result, _, h2) =
        >>=-eq-ok (with_unprepared_evidence evidence locked values.result values.error) _ h in
      let full = record values { result = result } in
      let cas = cas_job_status test (with_values full) tables in
      let (next, e, h3) =
        >>=-eq-ok (settle_job_generations id outcome cas)
          (sequenced_for id values.status (with_values full locked).device_id) h2 in
      (
        full,
        next,
        refl,
        settle-Untouched id outcome cas e,
        sequenced_lem id values.status (with_values full locked).device_id next h3,
      )

  pub terminalize-Writes :
      (id : ℕ) (expect : JobStatus) (attempt : Option ℕ) (values : Values)
      (outcome : Option GenerationStatus) (tables : Tables) {write : Option TerminalWrite}
      {after : Tables}
      → terminalize evidence id expect attempt values outcome tables ≡ ok (write, after)
      → (is_terminal values.status ≡ true)
        × Writes id expect attempt values.status tables write after
  unfolding terminalize Writes
  terminalize-Writes id expect attempt values outcome tables h =
      let test = owns id expect attempt in
      let (terminal, h1) = check-eq-ok (is_terminal values.status) _ _ h in
      elim (Option-cases (first_where test tables.jobs)) [
        | inl e ↦
            let same = ok-injective (rw e at h1) in
            (terminal, inl (sym (ap (λ p. p.0) same), sym (ap (λ p. p.1) same)))
        | inr (locked, e) ↦
            let (full, next, is, untouched, sequence) =
              write-Sequenced locked id values test
                (or_kept outcome (default_outcome values.status)) tables (rw e at h1) in
            (terminal, inr (locked, full, next, e, is, untouched, sequence))
      ]
