-- ===== src/Work/Barrier/Agrees.antt =====
-- Two readings of the success barrier of core/generation.py: job_admissible looks for a generation
-- before the job's first one, executable_head for the first of all.
use mathlib.Core.List.{Memᴰ}
use mathlib.Core.List.Memᴰ.{head, tail}
use nso_adapter.Prelude.{
  ℕ, ◌≤◌, ◌<◌, ◌≡◌, refl, Bool, true, false, not, Option, none, some, is_some, List, [], ◌∷◌, ltb,
  leb, inl, inr, Bool-cases, Option-cases, arith, and-parts,
}
use nso_adapter.Work.Rows.{Generation}
use nso_adapter.Work.{Tables}
use nso_adapter.Work.Generations.{carries_job, rows_where}
use nso_adapter.Work.Generations.Revisions.{selected-row}
use nso_adapter.Work.Barrier.{
  first_by_seq, is_open, precedes, executable_head, blocking_predecessor, job_admissible,
}
use nso_adapter.Work.Barrier.Head.{
  first-is_some, first-row, rows-selected, selected-test, barrier_lem,
}

first-least :
    (f g : Generation) (rows : List Generation)
    → first_by_seq rows ≡ some f
    → Memᴰ g rows
    → f.seq ≤ g.seq
unfolding first_by_seq
first-least f g [] h m = cc h
first-least f g (r ∷ rest) h m = elim (Option-cases (first_by_seq rest)) [
  | inl e ↦
      let same : r ≡ f = cc (rw e at h) in
      elim m [
        | head is ↦ let one : g ≡ f = cc (is, same) in rw one (omega arith)
        | tail m' ↦ absurd (let no : false ≡ true = rw e at (first-is_some g rest m') in cc no)
      ]
  | inr (k, e) ↦ elim (Bool-cases (leb r.seq k.seq)) [
    | inl e' ↦
        let same : r ≡ f = cc (rw (e, e') at h) in
        elim m [
          | head is ↦ let one : g ≡ f = cc (is, same) in rw one (omega arith)
          | tail m' ↦
              let le : k.seq ≤ g.seq = first-least k g rest e m' in rw (← same) (ground arith)
        ]
    | inr e' ↦
        let same : k ≡ f = cc (rw (e, e') at h) in
        elim m [
          | head is ↦ rw (is, ← same) (ground arith)
          | tail m' ↦ let le : k.seq ≤ g.seq = first-least k g rest e m' in rw (← same) le
        ]
  ]
]

-- Whether the head of the device's queue of generations is no earlier than a sequence.
abbrev pub not_before : ℕ → Option Generation → Bool
not_before seq none = true
not_before seq (some h) = leb seq h.seq

-- A blocking predecessor is an open generation, and earlier.
before-parts :
    (device : ℕ) (first b : Generation) (rows : List Generation)
    → first_by_seq (rows_where (precedes device first.seq) rows) ≡ some b
    → Memᴰ b (rows_where (is_open device) rows) × (b.seq < first.seq)
before-parts device first b rows e =
    let test = precedes device first.seq in
    let among = first-row b (rows_where test rows) e in
    let (opened, early) =
      and-parts (is_open device b) (ltb b.seq first.seq) (selected-test test b rows among) in
    (rows-selected (is_open device) b rows (selected-row test b rows among) opened, ground arith)

blocking_iff_head :
    (device : ℕ) (first : Generation) (rows : List Generation)
    → not (is_some (blocking_predecessor device first.seq rows))
      ≡ not_before first.seq (executable_head device rows)
unfolding blocking_predecessor executable_head
blocking_iff_head device first rows =
    let before = rows_where (precedes device first.seq) rows in
    let opened = rows_where (is_open device) rows in
    elim (Option-cases (first_by_seq opened)) [
      | inl none_open ↦ elim (Option-cases (first_by_seq before)) [
        | inl e ↦ rw (e, none_open) refl
        | inr (b, e) ↦
            let found = first-is_some b opened (before-parts device first b rows e).0 in
            absurd (let no : false ≡ true = rw none_open at found in cc no)
      ]
      | inr (h, e_h) ↦ elim (Option-cases (first_by_seq before)) [
        | inl e ↦
            let clear : not (is_some (blocking_predecessor device first.seq rows)) ≡ true =
              rw e refl in
            let m = first-row h opened e_h in
            let le : first.seq ≤ h.seq =
              barrier_lem device first h rows clear (selected-row (is_open device) h rows m)
                (selected-test (is_open device) h rows m) in
            rw (e, e_h) (ground arith)
        | inr (b, e) ↦
            let (m, early) = before-parts device first b rows e in
            let le : h.seq ≤ b.seq = first-least h b opened e_h m in rw (e, e_h) (ground arith)
      ]
    ]

-- Of a job that carries generations, the first of which is `first`: the barrier admits it exactly if
-- the executable head of the device, the oldest generation that is neither settled nor abandoned, is
-- no earlier than `first`, or there is none.
pub admissible_iff_head :
    (device job : ℕ) (tables : Tables) {first : Generation}
    → first_by_seq (rows_where (carries_job job) tables.generations) ≡ some first
    → job_admissible job device tables
      ≡ not_before first.seq (executable_head device tables.generations)
unfolding job_admissible
admissible_iff_head device job tables {first} e =
    rw e (blocking_iff_head device first tables.generations)
