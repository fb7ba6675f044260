-- ===== src/Conditions/Switching.antt =====
-- The conditions that interrupt a MariaDB and the ones that end the interruption: pkg/condition.
use suture_port_mariadb_oper.Prelude.{◌≡◌, refl, true, false, some, Bytes, if◌then◌else◌}
use suture_port_mariadb_oper.Api.{
  Condition, status_true, status_false, ConditionType, ConditionReason, MariaDb, MariaDbStatus,
}
use suture_port_mariadb_oper.Api.Conditions.{StatusConditions, set_condition, type_eq}
use suture_port_mariadb_oper.Conditions.{
  condition, set_primary_switching, set_primary_switched, set_galera_not_ready, set_galera_ready,
  set_restoring_backup, set_restored_backup, set_ready_waiting_storage_resize,
  set_ready_storage_resized, switching_primary_message,
}

module _ (meta : StatusConditions) where
  open meta use {
    find_status_condition, is_status_condition_true, is_status_condition_false, find_set,
    is_true_lem, is_false_lem,
  }

  -- The condition of a type, after one is set.
  find_one :
      (s : MariaDbStatus) (c : Condition) (t : ConditionType)
      → find_status_condition (set_condition meta s c).conditions t
        ≡ (if type_eq c.type t then some c else find_status_condition s.conditions t)
  unfolding set_condition
  find_one s c t = find_set s.conditions c t

  abbrev Unchanged : MariaDbStatus → MariaDbStatus → ConditionType → ConditionType → Type 0
  Unchanged s s' a b =
      (t : ConditionType)
      → type_eq a t ≡ false
      → type_eq b t ≡ false
      → find_status_condition s'.conditions t ≡ find_status_condition s.conditions t

  -- Not ready, the condition `t` is false, and the others are as before.
  abbrev pub Interrupted : MariaDbStatus → MariaDbStatus → ConditionType → Type 0
  Interrupted s s' t =
      (is_status_condition_true s'.conditions ConditionType.ready ≡ false)
      × (is_status_condition_false s'.conditions t ≡ true)
      × Unchanged s s' ConditionType.ready t

  -- The condition `t` is true, so it is not false, and the others are as before.
  abbrev pub Resumed : MariaDbStatus → MariaDbStatus → ConditionType → Type 0
  Resumed s s' t =
      (is_status_condition_true s'.conditions t ≡ true)
      × (is_status_condition_false s'.conditions t ≡ false)
      × Unchanged s s' t t

  two_false :
      (s : MariaDbStatus) (t : ConditionType) (r : ConditionReason) (m : Bytes)
      → type_eq t ConditionType.ready ≡ false
      → type_eq t t ≡ true
      → Interrupted s
          (set_condition meta
            (set_condition meta s (condition ConditionType.ready status_false r m))
            (condition t status_false r m))
          t
  two_false s t r m other same =
      let one = set_condition meta s (condition ConditionType.ready status_false r m) in
      let c = condition t status_false r m in
      (
        rw (
          is_true_lem,
          find_one one c ConditionType.ready,
          other,
          find_one s (condition ConditionType.ready status_false r m) ConditionType.ready,
        ),
        rw (is_false_lem, find_one one c t, same),
        λ u hr ht. rw (
          find_one one c u,
          ht,
          find_one s (condition ConditionType.ready status_false r m) u,
          hr,
        ),
      )

  one_true :
      (s : MariaDbStatus) (t : ConditionType) (r : ConditionReason) (m : Bytes)
      → type_eq t t ≡ true
      → Resumed s (set_condition meta s (condition t status_true r m)) t
  one_true s t r m same =
      let c = condition t status_true r m in
      (
        rw (is_true_lem, find_one s c t, same),
        rw (is_false_lem, find_one s c t, same),
        λ u h _. rw (find_one s c u, h),
      )

  -- Switching the primary, a Galera cluster that is not ready, restoring a backup and waiting for
  -- a storage resize: each makes the MariaDB not ready and its own condition false, and leaves the
  -- conditions of the other types.
  pub set_interrupted_lem :
      (s : MariaDbStatus) (mdb : MariaDb)
      → Interrupted s
          (set_primary_switching (set_condition meta) s mdb)
          ConditionType.primary_switched
        × Interrupted s (set_galera_not_ready (set_condition meta) s) ConditionType.galera_ready
        × Interrupted s (set_restoring_backup (set_condition meta) s) ConditionType.backup_restored
        × Interrupted s
            (set_ready_waiting_storage_resize (set_condition meta) s)
            ConditionType.storage_resized
  unfolding set_primary_switching set_galera_not_ready set_restoring_backup
      set_ready_waiting_storage_resize
  set_interrupted_lem s mdb = (
    two_false s ConditionType.primary_switched ConditionReason.switch_primary
        (switching_primary_message mdb) refl refl,
    two_false s ConditionType.galera_ready ConditionReason.galera_not_ready _ refl refl,
    two_false s ConditionType.backup_restored ConditionReason.restore_backup _ refl refl,
    two_false s ConditionType.storage_resized ConditionReason.wait_storage_resize _ refl refl,
  )

  -- The end of each of them makes its own condition true, and changes no other condition: the
  -- MariaDB is not reported as ready by it.
  pub set_resumed_lem :
      (s : MariaDbStatus)
      → Resumed s (set_primary_switched (set_condition meta) s) ConditionType.primary_switched
        × Resumed s (set_galera_ready (set_condition meta) s) ConditionType.galera_ready
        × Resumed s (set_restored_backup (set_condition meta) s) ConditionType.backup_restored
        × Resumed s (set_ready_storage_resized (set_condition meta) s) ConditionType.storage_resized
  unfolding set_primary_switched set_galera_ready set_restored_backup set_ready_storage_resized
  set_resumed_lem s = (
    one_true s ConditionType.primary_switched ConditionReason.switch_primary _ refl,
    one_true s ConditionType.galera_ready ConditionReason.galera_ready _ refl,
    one_true s ConditionType.backup_restored ConditionReason.restore_backup _ refl,
    one_true s ConditionType.storage_resized ConditionReason.storage_resized _ refl,
  )
