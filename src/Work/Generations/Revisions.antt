-- ===== src/Work/Generations/Revisions.antt =====
-- What backs an applied revision that settle_job_generations of core/generation.py writes.
use mathlib.Core.List.{Memᴰ}
use mathlib.Core.List.Memᴰ.{head, tail}
use nso_adapter.Prelude.{
  ℕ, ◌<◌, ◌≡◌, String, Bool, true, false, Option, some, List, [], ◌∷◌, ◌⊎◌, inl, inr, Bool-cases,
}
use nso_adapter.Work.Rows.{Generation}
use nso_adapter.Work.Generations.{Target, rows_where, withheld, stamps}

-- A generation among the rows carries the revision of the device's stream, and no live or failed
-- sibling of its cohort withholds it.
pub IsBacked : List Generation → ℕ → String → ℕ → Type 0
IsBacked rows device stream revision =
    (g : Generation) × Memᴰ g rows
    × (g.device_id ≡ device)
    × Memᴰ (stream, revision) g.stream_revisions
    × (withheld rows device g.settlement_cohort ≡ false)

-- The applied revision stays, or it rises to a revision that is backed.
pub RaisedTo : (ℕ → Type 0) → Option ℕ → Option ℕ → Type 0
RaisedTo backed before after =
    (after ≡ before) ⊎ ((m n : ℕ) × (before ≡ some m) × (m < n) × backed n × (after ≡ some n))

-- A member of the selected rows is a row.
pub selected-row :
    (test : Generation → Bool) (g : Generation) (rows : List Generation)
    → Memᴰ g (rows_where test rows)
    → Memᴰ g rows
unfolding rows_where
selected-row test g [] m = m
selected-row test g (r ∷ rest) m = elim (Bool-cases (test r)) [
  | inr e ↦ tail (selected-row test g rest (rw e at m))
  | inl e ↦ elim (rw e at m) [ head e' ↦ head e' | tail m' ↦ tail (selected-row test g rest m') ]
]

-- What a target was made of.
Made : Target → Generation → Type 0
Made t g =
    (t.device_id ≡ g.device_id)
    × (t.settlement_cohort ≡ g.settlement_cohort)
    × Memᴰ (t.stream, t.revision) g.stream_revisions

module _ (rows : List Generation) (device : ℕ) (stream : String) where
  -- Every target that stamps the stream is backed.
  AreBacked : List Target → Type 0
  AreBacked targets =
      (t : Target)
      → Memᴰ t targets
      → stamps rows t device stream ≡ true
      → IsBacked rows device stream t.revision

  -- Rows that stand for others in what a target takes from them.
  StandFor : List Generation → Type 0
  StandFor members =
      (g : Generation)
      → Memᴰ g members
      → (g' : Generation) × Memᴰ g' rows
        × (g.device_id ≡ g'.device_id)
        × (g.settlement_cohort ≡ g'.settlement_cohort)
        × (g.stream_revisions ≡ g'.stream_revisions)
