-- ===== src/Work/Jobs/Final.antt =====
-- A terminal status is final: no writer of core/claim.py, core/worker.py or core/jobs.py touches the
-- row of a job that has one.
use mathlib.Core.List.{Memᴰ}
use nso_adapter.Prelude.{
  ℕ, ◌+◌, ◌≡◌, refl, true, false, not, Option, none, some, List, [], ◌∷◌, ◌==◌, inl, inr,
  Bool-cases, Option-cases, and-parts, not-parts, is_some,
}
use nso_adapter.Json.{Fields}
use nso_adapter.Results.{ok, Result-cases, >>=-eq-ok, ok-injective}
use nso_adapter.Work.Rows.{GenerationStatus, outcome_unknown, abandoned}
use nso_adapter.Work.{
  Job, JobStatus, JobType, queued, running, succeeded, failed, Tables, option_eq,
}
use nso_adapter.Work.Jobs.{
  Values, TerminalWrite, is_terminal, owns, first_where, cas_job_status, has_id, terminalize,
  sequenced, with_counter, with_values,
}
use nso_adapter.Work.Jobs.Recovery.{
  terminalize_running, ended, requeue_update, status_of, requeued, successor_of, coalescible_of,
  index_holds, superseded_error,
}
use nso_adapter.Work.Jobs.Writers.{
  is_queued, started, queued_of, unfinished_of, failed_with, terminalize_queued_bulk,
  terminalize_offboard_orphans_bulk, start_job, start_claimed_job,
}
use nso_adapter.Work.Generations.{mark_job_generations_running, requeue_job_generations}
use nso_adapter.Work.Jobs.Passes.{Untouched, Sequenced, Writes, terminalize-Writes}
use nso_adapter.Work.Jobs.Event.{
  Write, starts, starts_claimed, creates, terminalizes, fails_queued, fails_orphans, step, run,
  Event, writes, recovers, happen, expects_live, all_live, all_live_events, or_unrecovered,
}
use nso_adapter.Work.Jobs.Keeps.{
  WellFormed, Holds, cas-Holds, status_apart, and_last, terminal-unowned, terminal-apart,
  rows-Holds, create-Holds,
}

module _ (j : Job) (done : is_terminal j.status ≡ true) where
  allocation-Holds :
      (id : ℕ) (status : JobStatus) (next : Tables) (write : Option TerminalWrite) (after : Tables)
      → has_id id j ≡ false
      → Sequenced id status next write after
      → Holds j next
      → Holds j after
  unfolding Sequenced cas_job_status
  allocation-Holds id status next write after apart (inl (_, same)) h = rw same h
  allocation-Holds id status next write after apart (inr (device, n, _, _, same)) h =
      let pass = cas_job_status (has_id id) (sequenced (n + 1)) next in
      rw same (
        rows-Holds j pass (record pass { last_seq = with_counter next.last_seq device (n + 1) })
          refl refl (cas-Holds (has_id id) (sequenced (n + 1)) (λ k. refl) j next apart h))

  written-Holds :
      (id : ℕ) (expect : JobStatus) (attempt : Option ℕ) (status : JobStatus) (tables : Tables)
      (write : Option TerminalWrite) (after : Tables)
      → is_terminal expect ≡ false
      → Writes id expect attempt status tables write after
      → Holds j tables
      → Holds j after
  unfolding Writes Untouched Holds WellFormed
  written-Holds id expect attempt status tables write after live (inl (_, same)) h = rw same h
  written-Holds id expect attempt status tables write after live
        (inr (locked, values, next, found, _, (rows, ids, _), sequence)) h =
      let unowned = terminal-unowned id expect attempt j live done in
      let cas = cas_job_status (owns id expect attempt) (with_values values) tables in
      let held =
        cas-Holds (owns id expect attempt) (with_values values) (λ k. refl) j tables unowned h in
      allocation-Holds id status next write after
        (terminal-apart id expect attempt j tables.jobs live done h.0.0 found h.1) sequence
        (rows-Holds j cas next rows ids held)

  step-Holds :
      (evidence : Job → Option Fields → Option Fields) (w : Write) (tables : Tables)
      → expects_live w ≡ true
      → Holds j tables
      → Holds j (step evidence w tables).1
  unfolding step terminalize_queued_bulk terminalize_offboard_orphans_bulk start_job
      start_claimed_job mark_job_generations_running
  step-Holds evidence (starts id) tables live h =
      cas-Holds (is_queued id) started (λ k. refl) j tables
        (rw (status_apart j.status queued done refl) (and_last (j.id == id))) h
  step-Holds evidence (starts_claimed id) tables live h =
      let marked = mark_job_generations_running id tables in
      cas-Holds (is_queued id) started (λ k. refl) j marked
        (rw (status_apart j.status queued done refl) (and_last (j.id == id)))
        (rows-Holds j tables marked refl refl h)
  step-Holds evidence (creates d type) tables live h = create-Holds j d type tables h
  step-Holds evidence (fails_queued d error) tables live h =
      cas-Holds (queued_of d) (failed_with error) (λ k. refl) j tables
        (rw (status_apart j.status queued done refl) (and_last (option_eq j.device_id (some d)))) h
  step-Holds evidence (fails_orphans d error) tables live h =
      cas-Holds (unfinished_of d) (failed_with error) (λ k. refl) j tables
        (rw done (and_last (option_eq j.device_id (some d)))) h
  step-Holds evidence (terminalizes id expect attempt values outcome) tables live h =
      elim (Result-cases (terminalize evidence id expect attempt values outcome tables)) [
        | inl (_, e) ↦ rw e h
        | inr ((write, after), e) ↦
            let (_, does) = terminalize-Writes evidence id expect attempt values outcome tables e in
            rw e (
              written-Holds id expect attempt values.status tables write after
                (not-parts (is_terminal expect) live) does h)
      ]

  module _ (evidence : Job → Option Fields → Option Fields) where
    ended-Holds :
        (id : ℕ) (status : JobStatus) (error : Option Fields) (attempt : Option ℕ)
        (outcome : Option GenerationStatus) (tables : Tables) {p : Option JobStatus × Tables}
        → ended evidence id status error attempt outcome tables ≡ ok p
        → Holds j tables
        → Holds j p.1
    ended-Holds id status error attempt outcome tables e h =
        let values : Values = record {
          status = status;
          result = none;
          error = error;
          set_device_id = none;
        } in
        let ((write, after), e', same) =
          >>=-eq-ok (terminalize evidence id running attempt values outcome tables) _ e in
        let (_, does) = terminalize-Writes evidence id running attempt values outcome tables e' in
        let held = written-Holds id running attempt status tables write after refl does h in
        rw (← ok-injective same) (by_write write after held)
      where
        by_write :
            (w : Option TerminalWrite) (after : Tables)
            → Holds j after
            → Holds j (status_of evidence (w, after)).1
        by_write none after held = held
        by_write (some w) after held = held

    requeued-Holds :
        (id : ℕ) (coalescible : Option (ℕ × JobType)) (error : Option Fields) (attempt : Option ℕ)
        (tables : Tables) {p : Option JobStatus × Tables}
        → requeue_update evidence id coalescible error attempt tables ≡ ok p
        → Holds j tables
        → Holds j p.1
    unfolding requeue_job_generations
    requeued-Holds id coalescible error attempt tables e h =
        let test = owns id running attempt in
        let next = cas_job_status test (requeued error) tables in
        let unowned = terminal-unowned id running attempt j refl done in
        let held = cas-Holds test (requeued error) (λ k. refl) j tables unowned h in
        elim (Bool-cases (not (index_holds next.jobs))) [
          | inl refused ↦
              ended-Holds id failed
                (some (superseded_error evidence (successor_of coalescible tables.jobs))) attempt
                (some abandoned) tables (rw refused at e) h
          | inr holds ↦ elim (Bool-cases (is_some (first_where test tables.jobs))) [
            | inl landed ↦
                let same = ok-injective (rw (holds, landed) at e) in
                rw (← same) (rows-Holds j next (requeue_job_generations id next) refl refl held)
            | inr missed ↦ rw (← ok-injective (rw (holds, missed) at e)) h
          ]
        ]

    recovered-Holds :
        (id : ℕ) (status : JobStatus) (error : Option Fields) (attempt : Option ℕ)
        (between : Tables → Tables) (tables : Tables) {p : Option JobStatus × Tables}
        → terminalize_running evidence id status error attempt between tables ≡ ok p
        → ((t : Tables) → Holds j t → Holds j (between t))
        → Holds j tables
        → Holds j p.1
    unfolding terminalize_running
    recovered-Holds id queued error attempt between tables e keeps h =
        let coalescible = coalescible_of (first_where (owns id running none) tables.jobs) in
        let later = keeps tables h in
        elim (Option-cases (successor_of coalescible tables.jobs)) [
          | inl alone ↦
              requeued-Holds id coalescible error attempt (between tables) (rw alone at e) later
          | inr (successor, found) ↦
              ended-Holds id failed (some (superseded_error evidence (some successor))) attempt
                (some abandoned) (between tables) (rw found at e) later
        ]
    recovered-Holds id running error attempt between tables e keeps h =
        ended-Holds id running error attempt none tables e h
    recovered-Holds id succeeded error attempt between tables e keeps h =
        ended-Holds id succeeded error attempt none tables e h
    recovered-Holds id failed error attempt between tables e keeps h =
        ended-Holds id failed error attempt (some outcome_unknown) tables e h

    run-Holds :
        (history : List Write) (tables : Tables)
        → all_live history ≡ true
        → Holds j tables
        → Holds j (run evidence history tables).1
    unfolding run all_live
    run-Holds [] tables live h = h
    run-Holds (w ∷ rest) tables live h =
        let (here, later) = and-parts (expects_live w) (all_live rest) live in
        run-Holds rest (step evidence w tables).1 later (step-Holds evidence w tables here h)

    recovery-Holds :
        (id : ℕ) (status : JobStatus) (error : Option Fields) (attempt : Option ℕ)
        (others : List Write) (tables : Tables)
        → all_live others ≡ true
        → Holds j tables
        → Holds j (
            or_unrecovered tables (
              terminalize_running evidence id status error attempt
                (λ t. (run evidence others t).1)
                tables))
    recovery-Holds id status error attempt others tables live h =
        let between = λ (t : Tables). (run evidence others t).1 in
        elim (Result-cases (terminalize_running evidence id status error attempt between tables)) [
          | inl (_, e) ↦ rw e h
          | inr (p, e) ↦ rw e (
              recovered-Holds id status error attempt between tables e
                (λ t held. run-Holds others t live held) h)
        ]

    -- In a history of starts, creations of dedicated jobs, terminal writes and recoveries, with other
    -- writes within the recoveries, the row of a job whose status is terminal stays as it is, if the
    -- ids are distinct and below the next one at first, and every terminal write expects a job that
    -- is queued or running.
    pub terminal_rows_are_final :
        (history : List Event) (tables : Tables)
        → all_live_events history ≡ true
        → WellFormed tables
        → Memᴰ j tables.jobs
        → Memᴰ j (happen evidence history tables).jobs
    unfolding happen all_live_events Holds
    terminal_rows_are_final [] tables live ok_tables m = m
    terminal_rows_are_final (writes w ∷ rest) tables live well m =
        let (here, later) = and-parts (expects_live w) (all_live_events rest) live in
        let (well', m') = step-Holds evidence w tables here ((well, m)) in
        terminal_rows_are_final rest (step evidence w tables).1 later well' m'
    terminal_rows_are_final (recovers id status error attempt others ∷ rest) tables live well m =
        let (here, later) = and-parts (all_live others) (all_live_events rest) live in
        let (well', m') = recovery-Holds id status error attempt others tables here ((well, m)) in
        terminal_rows_are_final rest _ later well' m'
