-- ===== src/Work/Barrier/Head.antt =====
-- Which job the success barrier lets start: the walk of _start_head_under_claim of core/worker.py over
-- the queued jobs of a device, with job_admissible of core/generation.py.
use mathlib.Core.List.{Memᴰ}
use mathlib.Core.List.Memᴰ.{head, tail}
use nso_adapter.Prelude.{
  ℕ, ◌≤◌, ◌≡◌, refl, ap, Bool, true, false, not, ◌&&◌, Option, none, some, is_some, List, [], ◌∷◌,
  ◌++◌, ltb, leb, inl, inr, Bool-cases, Option-cases, arith,
}
use nso_adapter.Work.Rows.{Generation}
use nso_adapter.Work.{Job, Tables}
use nso_adapter.Work.Generations.{carries_job, rows_where}
use nso_adapter.Work.Generations.Revisions.{selected-row}
use nso_adapter.Work.Jobs.Writers.{queued_of}
use nso_adapter.Work.Barrier.{
  earlier_of, first_by_seq, is_open, precedes, blocking_predecessor, job_admissible, jobs_where,
  choose_head, next_head,
}

earlier-is_some : (g : Generation) (h : Option Generation) → is_some (earlier_of g h) ≡ true
earlier-is_some g none = refl
earlier-is_some g (some h) = elim (Bool-cases (leb g.seq h.seq)) [
  | inl e ↦ rw e refl
  | inr e ↦ rw e refl
]

pub first-is_some :
    (g : Generation) (rows : List Generation) → Memᴰ g rows → is_some (first_by_seq rows) ≡ true
unfolding first_by_seq
first-is_some g [] m = elim m [ ]
first-is_some g (r ∷ rest) m = earlier-is_some r (first_by_seq rest)

-- The first row is a row.
earlier-row :
    (g f : Generation) (h : Option Generation) (rows : List Generation)
    → ((k : Generation) → h ≡ some k → Memᴰ k rows)
    → earlier_of g h ≡ some f
    → Memᴰ f (g ∷ rows)
earlier-row g f none rows later h = head (cc h)
earlier-row g f (some k) rows later h = elim (Bool-cases (leb g.seq k.seq)) [
  | inl e ↦ head (cc (rw e at h))
  | inr e ↦ tail (later f (rw e at h))
]

pub first-row : (f : Generation) (rows : List Generation) → first_by_seq rows ≡ some f → Memᴰ f rows
unfolding first_by_seq
first-row f [] h = cc h
first-row f (r ∷ rest) h = earlier-row r f (first_by_seq rest) rest (λ k e. first-row k rest e) h

pub rows-selected :
    (test : Generation → Bool) (g : Generation) (rows : List Generation)
    → Memᴰ g rows
    → test g ≡ true
    → Memᴰ g (rows_where test rows)
unfolding rows_where
rows-selected test g [] m e = elim m [ ]
rows-selected test g (r ∷ rest) (head is) e =
    let e' : test r ≡ true = rw (← is) e in rw e' (head is)
rows-selected test g (r ∷ rest) (tail m) e =
    let later = rows-selected test g rest m e in
    elim (Bool-cases (test r)) [ inl e' ↦ rw e' (tail later) | inr e' ↦ rw e' later ]

pub selected-test :
    (test : Generation → Bool) (g : Generation) (rows : List Generation)
    → Memᴰ g (rows_where test rows)
    → test g ≡ true
unfolding rows_where
selected-test test g [] m = elim m [ ]
selected-test test g (r ∷ rest) m = elim (Bool-cases (test r)) [
  | inr e ↦ selected-test test g rest (rw e at m)
  | inl e ↦ elim (rw e at m) [ head is ↦ rw is e | tail m' ↦ selected-test test g rest m' ]
]

-- Jobs that the barrier refuses, all of them.
unfoldable pub all_refused : ℕ → Tables → List Job → Bool
all_refused device tables [] = true
all_refused device tables (j ∷ rest) =
    not (job_admissible j.id device tables) && all_refused device tables rest

unfoldable pub Chosen : ℕ → Tables → List Job → Job → Type 0
Chosen device tables queue j =
    (front back : List Job) × (queue ≡ front ++ (j ∷ back))
    × (all_refused device tables front ≡ true)
    × (job_admissible j.id device tables ≡ true)

choose-Chosen :
    (device : ℕ) (skipped : ℕ → Bool) (tables : Tables) (queue : List Job) (j : Job)
    → choose_head device skipped tables queue ≡ some j
    → Chosen device tables queue j
unfolding choose_head Chosen all_refused
choose-Chosen device skipped tables [] j h = cc h
choose-Chosen device skipped tables (k ∷ rest) j h = elim (Bool-cases (skipped k.id)) [
  | inl e ↦ cc (rw e at h)
  | inr e ↦ elim (Bool-cases (job_admissible k.id device tables)) [
    | inl e' ↦
        let same : k ≡ j = cc (rw (e, e') at h) in
        ([], rest, ap (λ x. x ∷ rest) same, refl, rw (← same) e')
    | inr e' ↦
        let (front, back, is, refused, admitted) =
          choose-Chosen device skipped tables rest j (rw (e, e') at h) in
        (k ∷ front, back, ap (λ q. k ∷ q) is, rw (e', refused) refl, admitted)
  ]
]

-- No open generation is before the first that an admissible job carries.
pub barrier_lem :
    (device : ℕ) (first g : Generation) (rows : List Generation)
    → not (is_some (blocking_predecessor device first.seq rows)) ≡ true
    → Memᴰ g rows
    → is_open device g ≡ true
    → first.seq ≤ g.seq
unfolding blocking_predecessor
barrier_lem device first g rows clear m opened = elim (Bool-cases (ltb g.seq first.seq)) [
  | inr late ↦ ground arith
  | inl early ↦
      let test : precedes device first.seq g ≡ true = rw (opened, early) refl in
      let found =
        first-is_some g (rows_where (precedes device first.seq) rows)
          (rows-selected (precedes device first.seq) g rows m test) in
      absurd (let no : false ≡ true = rw found at clear in cc no)
]

admitted-first :
    (device job : ℕ) (tables : Tables) (c g : Generation)
    → job_admissible job device tables ≡ true
    → Memᴰ c tables.generations
    → carries_job job c ≡ true
    → Memᴰ g tables.generations
    → is_open device g ≡ true
    → (first : Generation) × Memᴰ first tables.generations
      × (carries_job job first ≡ true)
      × (first.seq ≤ g.seq)
unfolding job_admissible
admitted-first device job tables c g admitted m carried m' opened =
    let mine = rows_where (carries_job job) tables.generations in
    let found =
      first-is_some c mine (rows-selected (carries_job job) c tables.generations m carried) in
    elim (Option-cases (first_by_seq mine)) [
      | inl e ↦ absurd (let no : false ≡ true = rw e at found in cc no)
      | inr (first, e) ↦
          let among = first-row first mine e in
          (
            first,
            selected-row (carries_job job) first tables.generations among,
            selected-test (carries_job job) first tables.generations among,
            barrier_lem device first g tables.generations (rw e at admitted) m' opened,
          )
    ]

-- If the job that a worker starts carries a generation, and a generation of the device is neither
-- settled nor abandoned, then the job is the first of the device's queued jobs, in the order of the
-- table, that the barrier admits, all jobs before it being refused; and that generation is no earlier
-- than the first one that the job carries.
pub starts_first_admissible :
    (device : ℕ) (skipped : ℕ → Bool) (tables : Tables) {j : Job} (c g : Generation)
    → next_head device skipped tables ≡ some j
    → Memᴰ c tables.generations
    → carries_job j.id c ≡ true
    → Memᴰ g tables.generations
    → is_open device g ≡ true
    → Chosen device tables (jobs_where (queued_of device) tables.jobs) j
      × ((first : Generation) × Memᴰ first tables.generations
          × (carries_job j.id first ≡ true)
          × (first.seq ≤ g.seq))
unfolding next_head Chosen
starts_first_admissible device skipped tables {j} c g h m carried m' opened =
    let chosen =
      choose-Chosen device skipped tables (jobs_where (queued_of device) tables.jobs) j h in
    let (front, back, is, refused, admitted) = chosen in
    (chosen, admitted-first device j.id tables c g admitted m carried m' opened)
