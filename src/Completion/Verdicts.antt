-- ===== src/Completion/Verdicts.antt =====
-- What the condition of a Job or a CronJob says: pkg/condition/complete.go.
use suture_port_mariadb_oper.Prelude.{
  ◌≡◌, refl, arith, ℕ, Bool, true, false, not, ◌&&◌, ◌||◌, none, some, ℤ, ltb_ℤ, eqb_ℤ, ltb, codes,
  Bool-cases, inl, inr,
}
use suture_port_mariadb_oper.Api.{Condition, status_true, ConditionReason}
use suture_port_mariadb_oper.Api.Conditions.{has_status}
use suture_port_mariadb_oper.Jobs.{
  Job, is_job_failed, is_job_suspended, is_job_complete, is_job_running,
}
use suture_port_mariadb_oper.Completion.{set_complete_with_job, set_scheduled, set_complete_at}

-- A Conditioner that records the condition it is given.
abbrev pub recorded : Condition → Condition → Condition
recorded _ c = c

abbrev pub is_failure : ConditionReason → Bool
is_failure ConditionReason.job_failed = true
is_failure _ = false

abbrev pub is_running_reason : ConditionReason → Bool
is_running_reason ConditionReason.job_running = true
is_running_reason ConditionReason.cron_job_running = true
is_running_reason _ = false

-- The condition of a Job is true when the Job has failed, or is complete and not suspended; it
-- says that the Job failed exactly when it has, whatever else its conditions say, and that it is
-- running exactly when the Job has not failed, is not suspended and is not complete.
pub set_complete_with_job_lem :
    (c : Condition) (job : Job)
    → let v = set_complete_with_job recorded c (some job) in
      (has_status status_true (some v) ≡ (
        is_job_failed (some job)
        || (is_job_complete (some job) && not (is_job_suspended (some job)))))
      × (is_failure v.reason ≡ is_job_failed (some job))
      × (is_running_reason v.reason ≡ (
          not (is_job_failed (some job))
          && not (is_job_suspended (some job))
          && not (is_job_complete (some job))))
unfolding set_complete_with_job is_job_running
set_complete_with_job_lem c job = elim (Bool-cases (is_job_failed (some job))) [
  | inl f ↦ rw f (refl, refl, refl)
  | inr f ↦ elim (Bool-cases (is_job_suspended (some job))) [
    | inl s ↦ elim (Bool-cases (is_job_complete (some job))) [
      | inl d ↦ rw (f, s, d) (refl, refl, refl)
      | inr d ↦ rw (f, s, d) (refl, refl, refl)
    ]
    | inr s ↦ elim (Bool-cases (is_job_complete (some job))) [
      | inl d ↦ rw (f, s, d) (refl, refl, refl)
      | inr d ↦ rw (f, s, d) (refl, refl, refl)
    ]
  ]
]

reached : (a b : ℤ) → ltb_ℤ b a ≡ false → (eqb_ℤ a b || ltb_ℤ a b) ≡ true
reached a b h = ground arith

-- The condition of a CronJob with both times is true when its last success is not before its last
-- schedule. Otherwise it is false: its reason is that a Job is running when one is active, and when
-- none is the message says that it failed, but its status and its reason are those of a CronJob
-- that is scheduled and has not run. Without one of the times the CronJob is scheduled, whatever
-- the active Jobs.
pub set_complete_at_lem :
    (c : Condition) (active : ℕ) (scheduled successful : ℤ)
    → let v = set_complete_at recorded c active (some scheduled) (some successful) in
      let late = ltb_ℤ successful scheduled in
      let waiting = set_scheduled recorded c in
      (has_status status_true (some v) ≡ not late)
      × (is_running_reason v.reason ≡ (late && ltb 0 active))
      × ((late && not (ltb 0 active)) ≡ true
          → (v.status ≡ waiting.status)
            × (v.reason ≡ waiting.reason)
            × (v.message ≡ codes "Failed"))
      × (set_complete_at recorded c active none (some successful) ≡ waiting)
      × (set_complete_at recorded c active (some scheduled) none ≡ waiting)
      × (set_complete_at recorded c active none none ≡ waiting)
unfolding set_complete_at set_scheduled
set_complete_at_lem c active scheduled successful = elim (Bool-cases (ltb_ℤ successful scheduled)) [
  | inl l ↦ elim (Bool-cases (ltb 0 active)) [
    | inl a ↦ rw (l, a) (refl, refl, (λ h. cc), refl, refl, refl)
    | inr a ↦ rw (l, a) (refl, refl, (λ _. (refl, refl, refl)), refl, refl, refl)
  ]
  | inr l ↦ rw (l, reached scheduled successful l) (refl, refl, (λ h. cc), refl, refl, refl)
]
