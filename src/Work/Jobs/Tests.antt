-- ===== src/Work/Jobs/Tests.antt =====
-- Two jobs of device 7, one running and one done, and the generations that they carry.
use mathlib.Core.List.Memᴰ.{head, tail}
use nso_adapter.Prelude.{ℕ, String, ◌≡◌, refl, true, Option, none, some, List, [], ◌∷◌, arith}
use mathlib.Core.List.{Memᴰ}
use nso_adapter.Json.{Fields}
use nso_adapter.Results.{Result, ok, raised}
use nso_adapter.DeletedRoutes.{elem}
use nso_adapter.ApplyPlan.RoundTrip.{distinct_ids}
use nso_adapter.Work.Rows.{Generation, GenerationStatus, settled}
use nso_adapter.Work.Rows
use nso_adapter.Work.{Job, queued, running, succeeded, apply, Tables}
use nso_adapter.Work.Generations.{settle_job_generations}
use nso_adapter.Work.Jobs.{Values}
use nso_adapter.Work.Jobs.Event.{
  Write, starts, starts_claimed, creates, terminalizes, Event, writes, recovers, run, happen,
  all_live, all_live_events,
}
use nso_adapter.Work.Jobs.Keeps.{WellFormed, AllBelow}
use nso_adapter.Work.Jobs.Final.{terminal_rows_are_final}
use nso_adapter.Work.Jobs.Settle.{IsRising, seqs_of, settle_seqs-IsRising}

abbrev busy : Job
busy = record {
  id = 1;
  job_type = apply;
  status = running;
  coalescible = true;
  device_id = some 7;
  result = none;
  error = none;
  run_attempt = 1;
  settle_seq = none;
}

abbrev finished : Job
finished = record busy { id = 2; status = succeeded; settle_seq = some 4 }

abbrev carried : Generation
carried = record {
  id = 1;
  device_id = 7;
  seq = 2;
  job_id = some 1;
  status = Rows.running;
  settlement_cohort = some 9;
  stream_revisions = ("static_route", 5) ∷ [];
}

abbrev revision_of : ℕ → String → Option ℕ
revision_of device stream = some 3

abbrev tables : Tables
tables = record {
  jobs = busy ∷ finished ∷ [];
  next_id = 3;
  last_seq = λ d. some 4;
  generations = carried ∷ [];
  applied_revision = revision_of;
}

abbrev evidence : Job → Option Fields → Option Fields
evidence j error = none

abbrev done : Values
done = record { status = succeeded; result = none; error = none; set_device_id = none }

-- A second run of the device, after the first one.
abbrev history : List Write
history =
    terminalizes 1 running (some 1) done none
    ∷ creates 7 apply
    ∷ starts_claimed 3
    ∷ terminalizes 3 running none done none
    ∷ []

takes_two_sequences : seqs_of 7 (run evidence history tables).0 ≡ 5 ∷ 6 ∷ []
unfolding seqs_of run
takes_two_sequences = refl

settle_seqs-IsRising_example : IsRising 4 (seqs_of 7 (run evidence history tables).0)
settle_seqs-IsRising_example = settle_seqs-IsRising evidence 7 4 history tables refl

abbrev events : List Event
events =
    recovers 1 queued none (some 1) (creates 7 apply ∷ [])
    ∷ writes (terminalizes 2 running none done none)
    ∷ writes (starts 1)
    ∷ []

terminal_rows_are_final_example : Memᴰ finished (happen evidence events tables).jobs
unfolding WellFormed AllBelow distinct_ids elem all_live all_live_events
terminal_rows_are_final_example =
    terminal_rows_are_final finished refl evidence events tables refl
      ((refl, (omega arith, (omega arith, tt)))) (tail (head refl))

-- The settlement of the running job's generation.
abbrev or_same : Result Tables → Tables
or_same (raised e) = tables
or_same (ok next) = next

abbrev after : Tables
unfolding settle_job_generations
after = or_same (settle_job_generations 1 settled tables)

raises_the_revision : after.applied_revision 7 "static_route" ≡ some 5
unfolding settle_job_generations
raises_the_revision = refl
