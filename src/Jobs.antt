-- ===== src/Jobs.antt =====
-- pkg/job: the state of a Job by its conditions.
use suture_port_mariadb_oper.Prelude.{
  Bool, true, false, ◌||◌, ◌&&◌, not, List, [], ◌∷◌, Option, none, some, ◌==◌, ℕ,
}
use suture_port_mariadb_oper.Api.{ConditionStatus, status_true}

-- batchv1.Job: its conditions.
pub data JobConditionType : Type 0 where
  job_failed job_suspended job_complete job_other : JobConditionType

pub record JobCondition : Type 0 where
  pub type : JobConditionType
  pub status : ConditionStatus

abbrev pub Job : Type 0
Job = List JobCondition

abbrev pub job_type_index : JobConditionType → ℕ
job_type_index job_failed = 0
job_type_index job_suspended = 1
job_type_index job_complete = 2
job_type_index job_other = 3

abbrev pub status_is_true : ConditionStatus → Bool
status_is_true status_true = true
status_is_true _ = false

-- pkg/job: `IsStatusConditionTrue`, the loop over the conditions of a Job.
unfoldable pub is_status_true : Job → JobConditionType → Bool
is_status_true [] t = false
is_status_true (c ∷ cs) t =
    (job_type_index c.type == job_type_index t && status_is_true c.status) || is_status_true cs t

-- pkg/job: `none` is a nil pointer.
unfoldable pub is_job_failed : Option Job → Bool
is_job_failed none = false
is_job_failed (some job) = is_status_true job job_failed

unfoldable pub is_job_suspended : Option Job → Bool
is_job_suspended none = false
is_job_suspended (some job) = is_status_true job job_suspended

unfoldable pub is_job_complete : Option Job → Bool
is_job_complete none = false
is_job_complete (some job) = is_status_true job job_complete

unfoldable pub is_job_running : Option Job → Bool
is_job_running none = false
is_job_running (some job) =
    not (is_job_failed (some job))
    && not (is_job_suspended (some job))
    && not (is_job_complete (some job))
