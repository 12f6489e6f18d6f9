-- ===== src/Work/Barrier/Tests.antt =====
-- Device 7: the first of two queued jobs carries the later generation, so the second one starts.
use mathlib.Core.List.{Memᴰ}
use mathlib.Core.List.Memᴰ.{head, tail}
use nso_adapter.Prelude.{ℕ, ◌≤◌, ◌≡◌, refl, Bool, true, false, none, some, [], ◌∷◌}
use nso_adapter.Work.Rows.{Generation, pending}
use nso_adapter.Work.{Job, queued, apply, Tables}
use nso_adapter.Work.Generations.{carries_job, rows_where}
use nso_adapter.Work.Jobs.Writers.{queued_of}
use nso_adapter.Work.Barrier.{job_admissible, jobs_where, next_head, first_by_seq, executable_head}
use nso_adapter.Work.Barrier.Agrees.{not_before, admissible_iff_head}
use nso_adapter.Work.Barrier.Head.{Chosen, starts_first_admissible}

abbrev early : Job
early = record {
  id = 1;
  job_type = apply;
  status = queued;
  coalescible = true;
  device_id = some 7;
  result = none;
  error = none;
  run_attempt = 0;
  settle_seq = none;
}

abbrev retried : Job
retried = record early { id = 2; coalescible = false }

abbrev third : Generation
third = record {
  id = 3;
  device_id = 7;
  seq = 3;
  job_id = some 2;
  status = pending;
  settlement_cohort = none;
  stream_revisions = [];
}

abbrev fourth : Generation
fourth = record third { id = 4; seq = 4; job_id = some 1 }

abbrev tables : Tables
tables = record {
  jobs = early ∷ retried ∷ [];
  next_id = 3;
  last_seq = λ d. none;
  generations = third ∷ fourth ∷ [];
  applied_revision = λ d s. none;
}

abbrev nothing_skipped : ℕ → Bool
nothing_skipped j = false

head_is_third : executable_head 7 tables.generations ≡ some third
unfolding executable_head first_by_seq rows_where
head_is_third = refl

takes_the_retry : next_head 7 nothing_skipped tables ≡ some retried
unfolding next_head
takes_the_retry = refl

starts_first_admissible_example :
    Chosen 7 tables (jobs_where (queued_of 7) tables.jobs) retried
    × ((first : Generation) × Memᴰ first tables.generations
        × (carries_job 2 first ≡ true)
        × (first.seq ≤ 4))
starts_first_admissible_example =
    starts_first_admissible 7 nothing_skipped tables third fourth takes_the_retry (head refl) refl
      (tail (head refl)) refl

admissible_iff_head_example :
    job_admissible 1 7 tables ≡ not_before 4 (executable_head 7 tables.generations)
unfolding first_by_seq rows_where
admissible_iff_head_example = admissible_iff_head 7 1 tables refl
