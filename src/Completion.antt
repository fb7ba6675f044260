-- ===== src/Completion.antt =====
-- pkg/condition/complete.go: the condition that a Job or a CronJob has completed.
pub mod Verdicts
mod Examples
use suture_port_mariadb_oper.Prelude.{
  ℕ, Bool, true, false, ◌||◌, Option, none, some, Bytes, codes, ℤ, ltb_ℤ, eqb_ℤ, ltb, if◌then◌else◌,
}
use suture_port_mariadb_oper.Api.{
  Condition, ConditionStatus, status_true, status_false, ConditionType, ConditionReason,
  cron_job_failed,
}
use suture_port_mariadb_oper.Jobs.{Job, is_job_failed, is_job_suspended, is_job_complete}
use suture_port_mariadb_oper.Conditions.{condition}

-- batchv1.CronJob: its status; `active` is the number of the active Jobs.
pub record CronJob : Type 0 where
  pub last_schedule_time : Option ℤ
  pub last_successful_time : Option ℤ
  pub active : ℕ

module _ {S : Type 0} (set : S → Condition → S) where
  unfoldable pub set_complete_with_job : S → Option Job → S
  set_complete_with_job c job =
      if is_job_failed job
      then set c
          (condition ConditionType.complete status_true ConditionReason.job_failed (codes "Failed"))
      else if is_job_suspended job
      then set c (
          condition ConditionType.complete status_false ConditionReason.job_suspended
            (codes "Suspended"))
      else if is_job_complete job
      then set c (
          condition ConditionType.complete status_true ConditionReason.job_complete
            (codes "Success"))
      else set c (
          condition ConditionType.complete status_false ConditionReason.job_running
            (codes "Running"))

  -- The closure of the same name in `SetCompleteWithCronJob`.
  unfoldable pub set_scheduled : S → S
  set_scheduled c = set c (
      condition ConditionType.complete status_false ConditionReason.cron_job_scheduled
        (codes "Scheduled"))

  -- `SetCompleteWithCronJob`, by the two times of the status.
  unfoldable pub set_complete_at : S → ℕ → Option ℤ → Option ℤ → S
  set_complete_at c active (some scheduled) (some successful) =
      if ltb_ℤ successful scheduled
      then (if ltb 0 active
          then set c (
              condition ConditionType.complete status_false ConditionReason.cron_job_running
                (codes "Running"))
          else set c
              (condition ConditionType.complete status_false cron_job_failed (codes "Failed")))
      else if eqb_ℤ scheduled successful || ltb_ℤ scheduled successful
      then set c (
          condition ConditionType.complete status_true ConditionReason.cron_job_success
            (codes "Success"))
      else set_scheduled c
  set_complete_at c active _ _ = set_scheduled c

  unfoldable pub set_complete_with_cron_job : S → CronJob → S
  set_complete_with_cron_job c cron_job =
      set_complete_at c cron_job.active cron_job.last_schedule_time cron_job.last_successful_time

  unfoldable pub set_complete_failed_with_message : S → Bytes → S
  set_complete_failed_with_message c message =
      set c (condition ConditionType.complete status_false ConditionReason.failed message)
