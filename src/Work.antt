-- ===== src/Work.antt =====
-- Jobs and deployment generations (store/models.py), and the writers of their terminal statuses: the
-- rows. Other columns are left out, and a table is a list of its rows in the order of their ids.
pub mod Rows
pub mod Generations
pub mod Jobs
pub mod Barrier
use nso_adapter.Prelude.{
  ℕ, String, Bool, true, false, ◌&&◌, Option, none, some, List, [], ◌∷◌, ◌==◌, if◌then◌else◌,
}
use nso_adapter.Json.{Fields}
use nso_adapter.Work.Rows.{Generation}

pub data JobStatus : Type 0 where
  queued running succeeded failed : JobStatus

pub data JobType : Type 0 where
  sync detect_drift connect apply removal provision sync_now sync_from_nso : JobType

pub record Job : Type 0 where
  pub id : ℕ
  pub job_type : JobType
  pub status : JobStatus
  pub coalescible : Bool
  pub device_id : Option ℕ
  pub result : Option Fields
  pub error : Option Fields
  pub run_attempt : ℕ
  pub settle_seq : Option ℕ

-- The tables: the jobs and the next id, the settle counter of each device that has one, the
-- generations, and the applied revision of each projection stream that has a row.
pub record Tables : Type 0 where
  pub jobs : List Job
  pub next_id : ℕ
  pub last_seq : ℕ → Option ℕ
  pub generations : List Generation
  pub applied_revision : ℕ → String → Option ℕ

-- Equality of the members of an enumeration.
abbrev pub status_eq : JobStatus → JobStatus → Bool
status_eq queued queued = true
status_eq running running = true
status_eq succeeded succeeded = true
status_eq failed failed = true
status_eq _ _ = false

abbrev rank : JobType → ℕ
rank sync = 0
rank detect_drift = 1
rank connect = 2
rank apply = 3
rank removal = 4
rank provision = 5
rank sync_now = 6
rank sync_from_nso = 7

abbrev pub type_eq : JobType → JobType → Bool
type_eq a b = rank a == rank b

abbrev pub option_eq : Option ℕ → Option ℕ → Bool
option_eq (some a) (some b) = a == b
option_eq _ _ = false
