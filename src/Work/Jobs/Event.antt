-- ===== src/Work/Jobs/Event.antt =====
-- Histories of the jobs table: the transactions that write it, one after another.
use nso_adapter.Prelude.{ℕ, Bool, true, not, ◌&&◌, Option, none, some, List, [], ◌∷◌}
use nso_adapter.Json.{Fields}
use nso_adapter.Results.{Result, ok, raised}
use nso_adapter.Work.Rows.{GenerationStatus}
use nso_adapter.Work.{Job, JobStatus, JobType, Tables}
use nso_adapter.Work.Jobs.{Values, TerminalWrite, is_terminal, terminalize}
use nso_adapter.Work.Jobs.Recovery.{terminalize_running}
use nso_adapter.Work.Jobs.Writers.{
  terminalize_queued_bulk, terminalize_offboard_orphans_bulk, start_job, start_claimed_job,
  create_dedicated_job,
}

pub data Write : Type 0 where
  starts starts_claimed : ℕ → Write
  creates : ℕ → JobType → Write
  terminalizes : ℕ → JobStatus → Option ℕ → Values → Option GenerationStatus → Write
  fails_queued : ℕ → Fields → Write
  fails_orphans : ℕ → Fields → Write

-- A recovery, with the writes that come between its look for a successor and its UPDATE.
pub data Event : Type 0 where
  writes : Write → Event
  recovers : ℕ → JobStatus → Option Fields → Option ℕ → List Write → Event

abbrev pub or_unwritten :
    Tables → Result (Option TerminalWrite × Tables) → Option TerminalWrite × Tables
or_unwritten tables (ok p) = p
or_unwritten tables (raised e) = (none, tables)

abbrev pub or_uncreated : Tables → Result (ℕ × Tables) → Tables
or_uncreated tables (ok p) = p.1
or_uncreated tables (raised e) = tables

abbrev pub or_unrecovered : Tables → Result (Option JobStatus × Tables) → Tables
or_unrecovered tables (ok p) = p.1
or_unrecovered tables (raised e) = tables

abbrev pub add_write : Option TerminalWrite → List TerminalWrite → List TerminalWrite
add_write none later = later
add_write (some w) later = w ∷ later

module _ (evidence : Job → Option Fields → Option Fields) where
  unfoldable pub step : Write → Tables → Option TerminalWrite × Tables
  unfolding terminalize terminalize_queued_bulk terminalize_offboard_orphans_bulk start_job
      start_claimed_job create_dedicated_job
  step (starts id) tables = (none, start_job id tables)
  step (starts_claimed id) tables = (none, start_claimed_job id tables)
  step (creates device type) tables =
      (none, or_uncreated tables (create_dedicated_job device type tables))
  step (terminalizes id expect attempt values outcome) tables =
      or_unwritten tables (terminalize evidence id expect attempt values outcome tables)
  step (fails_queued device error) tables = (none, (terminalize_queued_bulk device error tables).1)
  step (fails_orphans device error) tables =
      (none, (terminalize_offboard_orphans_bulk device error tables).1)

  -- The terminal writes of a history, and the tables after it.
  unfoldable pub run : List Write → Tables → List TerminalWrite × Tables
  unfolding step
  run [] tables = ([], tables)
  run (w ∷ rest) tables =
      let (write, next) = step w tables in
      let (later, last) = run rest next in (add_write write later, last)

  unfoldable pub happen : List Event → Tables → Tables
  unfolding step run terminalize_running
  happen [] tables = tables
  happen (writes w ∷ rest) tables = happen rest (step w tables).1
  happen (recovers id status error attempt others ∷ rest) tables = happen rest (
      or_unrecovered tables
        (terminalize_running evidence id status error attempt (λ t. (run others t).1) tables))

-- Whether each terminal write expects a job that is queued or running, as all callers do.
abbrev pub expects_live : Write → Bool
expects_live (terminalizes id expect attempt values outcome) = not (is_terminal expect)
expects_live _ = true

unfoldable pub all_live : List Write → Bool
all_live [] = true
all_live (w ∷ rest) = expects_live w && all_live rest

unfoldable pub all_live_events : List Event → Bool
unfolding all_live
all_live_events [] = true
all_live_events (writes w ∷ rest) = expects_live w && all_live_events rest
all_live_events (recovers id status error attempt others ∷ rest) =
    all_live others && all_live_events rest
