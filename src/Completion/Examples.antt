-- ===== src/Completion/Examples.antt =====
-- A Job that both failed and completed, and a CronJob whose last run has not succeeded.
use suture_port_mariadb_oper.Prelude.{
  ◌≡◌, true, false, not, ◌&&◌, ◌||◌, [], ◌∷◌, none, some, codes, pos,
}
use suture_port_mariadb_oper.Api.{
  Condition, status_true, status_false, ConditionType, ConditionReason,
}
use suture_port_mariadb_oper.Api.Conditions.{has_status}
use suture_port_mariadb_oper.Jobs.{
  Job, job_failed, job_complete, is_job_failed, is_job_suspended, is_job_complete,
}
use suture_port_mariadb_oper.Conditions.{condition}
use suture_port_mariadb_oper.Completion.{set_complete_with_job, set_complete_at, set_scheduled}
use suture_port_mariadb_oper.Completion.Verdicts.{
  recorded, is_failure, is_running_reason, set_complete_with_job_lem, set_complete_at_lem,
}

abbrev before : Condition
before = condition ConditionType.complete status_false ConditionReason.job_running (codes "Running")

abbrev both : Job
both =
    record { type = job_complete; status = status_true }
    ∷ record { type = job_failed; status = status_true }
    ∷ []

set_complete_with_job_lem_example :
    let v = set_complete_with_job recorded before (some both) in
    (has_status status_true (some v) ≡ (
      is_job_failed (some both)
      || (is_job_complete (some both) && not (is_job_suspended (some both)))))
    × (is_failure v.reason ≡ is_job_failed (some both))
    × (is_running_reason v.reason ≡ (
        not (is_job_failed (some both))
        && not (is_job_suspended (some both))
        && not (is_job_complete (some both))))
set_complete_with_job_lem_example = set_complete_with_job_lem before both

set_complete_at_lem_example :
    let v = set_complete_at recorded before 0 (some (pos 9)) (some (pos 5)) in
    let waiting = set_scheduled recorded before in
    (has_status status_true (some v) ≡ false)
    × (is_running_reason v.reason ≡ false)
    × (true ≡ true
        → (v.status ≡ waiting.status) × (v.reason ≡ waiting.reason) × (v.message ≡ codes "Failed"))
    × (set_complete_at recorded before 0 none (some (pos 5)) ≡ waiting)
    × (set_complete_at recorded before 0 (some (pos 9)) none ≡ waiting)
    × (set_complete_at recorded before 0 none none ≡ waiting)
set_complete_at_lem_example = set_complete_at_lem before 0 (pos 9) (pos 5)
