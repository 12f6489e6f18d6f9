-- ===== src/Work/Rows.antt =====
-- The rows of DeploymentGeneration (store/models.py).
use nso_adapter.Prelude.{ℕ, String, Option, List}

pub data GenerationStatus : Type 0 where
  pending running settled failed outcome_unknown abandoned : GenerationStatus

-- A generation, with the revision that it carries of each stream.
pub record Generation : Type 0 where
  pub id : ℕ
  pub device_id : ℕ
  pub seq : ℕ
  pub job_id : Option ℕ
  pub status : GenerationStatus
  pub settlement_cohort : Option ℕ
  pub stream_revisions : List (String × ℕ)
