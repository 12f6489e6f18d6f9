-- ===== src/Work/Jobs/Settle.antt =====
-- The settlement sequences that core/claim.py hands out.
use nso_adapter.Prelude.{
  ℕ, ◌+◌, ◌<◌, ◌≡◌, refl, sym, ◌∙◌, true, false, Option, some, List, [], ◌∷◌, ◌==◌, inl, inr,
  Bool-cases, arith, if◌then◌else◌,
}
use nso_adapter.Json.{Fields}
use nso_adapter.Results.{Result-cases, check-eq-ok, ok-injective}
use nso_adapter.Work.{Job, JobType, JobStatus, Tables}
use nso_adapter.Work.Jobs.{TerminalWrite, terminalize, cas_job_status, is_device_writing}
use nso_adapter.Work.Jobs.Writers.{
  terminalize_queued_bulk, terminalize_offboard_orphans_bulk, start_job, start_claimed_job,
  create_dedicated_job,
}
use nso_adapter.Work.Jobs.Passes.{Untouched, Sequenced, Writes, terminalize-Writes}
use nso_adapter.Work.Generations.{mark_job_generations_running}
use nso_adapter.Work.Jobs.Event.{
  Write, starts, starts_claimed, creates, terminalizes, fails_queued, fails_orphans, step, run,
  add_write, or_uncreated,
}

-- The sequences that writes took for a device, in their order.
abbrev pub add_seq : ℕ → Option ℕ → Option ℕ → List ℕ → List ℕ
add_seq device (some d) (some n) later = if d == device then n ∷ later else later
add_seq device _ _ later = later

unfoldable pub seqs_of : ℕ → List TerminalWrite → List ℕ
seqs_of device [] = []
seqs_of device (w ∷ rest) = add_seq device w.device_id w.settle_seq (seqs_of device rest)

-- Rising, each above the number before it.
pub IsRising : ℕ → List ℕ → Type 0
IsRising c [] = Unit
IsRising c (n ∷ rest) = (c < n) × IsRising n rest

module _ (evidence : Job → Option Fields → Option Fields) (device : ℕ) where
  -- Either the counter stays and nothing was taken for the device, or the write took the next number.
  Counts : ℕ → Option TerminalWrite → Tables → Type 0
  Counts n write after =
      (n' : ℕ) × (after.last_seq device ≡ some n')
      × ((later : List TerminalWrite)
          → IsRising n' (seqs_of device later)
          → IsRising n (seqs_of device (add_write write later)))

  allocation-Counts :
      (id n : ℕ) (status : JobStatus) (next : Tables) (write : Option TerminalWrite)
      (after : Tables)
      → next.last_seq device ≡ some n
      → Sequenced id status next write after
      → Counts n write after
  unfolding Sequenced Counts seqs_of IsRising
  allocation-Counts id n status next write after e (inl (w, same)) =
      (n, rw same e, λ later rising. rw w rising)
  allocation-Counts id n status next write after e (inr (d, m, e', w, same)) =
      elim (Bool-cases (d == device)) [
        | inr other ↦
            let apart : (device == d) ≡ false = ground arith in
            (n, rw (same, apart) e, λ later rising. rw (w, other) rising)
        | inl is ↦
            let here : (device == d) ≡ true = ground arith in
            let d_is : d ≡ device = ground arith in
            let m_is : some m ≡ some n = sym (rw d_is at e') ∙ e in
            let m_n : m ≡ n = cc m_is in
            (m + 1, rw (same, here) refl, λ later rising. rw (w, is) ((omega arith, rising)))
      ]

  written-Counts :
      (id n : ℕ) (expect : JobStatus) (attempt : Option ℕ) (status : JobStatus) (tables : Tables)
      (write : Option TerminalWrite) (after : Tables)
      → tables.last_seq device ≡ some n
      → Writes id expect attempt status tables write after
      → Counts n write after
  unfolding Writes Untouched Counts cas_job_status
  written-Counts id n expect attempt status tables write after e (inl (w, same)) =
      (n, rw same e, λ later rising. rw w rising)
  written-Counts id n expect attempt status tables write after e
        (inr (locked, values, next, _, _, (_, _, counters), sequence)) =
      allocation-Counts id n status next write after (rw counters e) sequence

  create-last_seq :
      (d : ℕ) (type : JobType) (tables : Tables)
      → (or_uncreated tables (create_dedicated_job d type tables)).last_seq ≡ tables.last_seq
  unfolding create_dedicated_job
  create-last_seq d type tables = elim (Result-cases (create_dedicated_job d type tables)) [
    | inl (_, e) ↦ rw e refl
    | inr (p, e) ↦
        let (_, same) = check-eq-ok (is_device_writing type) _ _ e in
        rw (e, ← ok-injective same) refl
  ]

  step-Counts :
      (n : ℕ) (w : Write) (tables : Tables)
      → tables.last_seq device ≡ some n
      → Counts n (step evidence w tables).0 (step evidence w tables).1
  unfolding step Counts start_job start_claimed_job mark_job_generations_running
      terminalize_queued_bulk terminalize_offboard_orphans_bulk create_dedicated_job cas_job_status
  step-Counts n (starts id) tables e = (n, e, λ later rising. rising)
  step-Counts n (starts_claimed id) tables e = (n, e, λ later rising. rising)
  step-Counts n (creates d type) tables e =
      (n, rw (create-last_seq d type tables) e, λ later rising. rising)
  step-Counts n (fails_queued d error) tables e = (n, e, λ later rising. rising)
  step-Counts n (fails_orphans d error) tables e = (n, e, λ later rising. rising)
  step-Counts n (terminalizes id expect attempt values outcome) tables e =
      elim (Result-cases (terminalize evidence id expect attempt values outcome tables)) [
        | inl (_, e') ↦ (n, rw e' e, λ later rising. rw e' rising)
        | inr ((write, after), e') ↦
            let (_, does) =
              terminalize-Writes evidence id expect attempt values outcome tables e' in
            rw e' (written-Counts id n expect attempt values.status tables write after e does)
      ]

  -- The sequences that the terminal writes of a history take for a device rise, and the first is
  -- above the device's counter: none is handed out twice.
  pub settle_seqs-IsRising :
      (n : ℕ) (history : List Write) (tables : Tables)
      → tables.last_seq device ≡ some n
      → IsRising n (seqs_of device (run evidence history tables).0)
  unfolding run Counts IsRising seqs_of
  settle_seqs-IsRising n [] tables e = tt
  settle_seqs-IsRising n (w ∷ rest) tables e =
      let (n', e', rises) = step-Counts n w tables e in
      rises (run evidence rest (step evidence w tables).1).0
        (settle_seqs-IsRising n' rest (step evidence w tables).1 e')
