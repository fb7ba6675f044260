-- ===== src/Conditions.antt =====
-- pkg/condition: the conditions that the controllers set. A `Conditioner` is a type `S` with the
-- function `set`; MariaDB's is `set_condition` of Api/Conditions.antt.
pub mod Ready
pub mod Switching
pub mod Listed
pub mod Patchers
mod Examples
use suture_port_mariadb_oper.Prelude.{
  ℕ, Bool, true, false, ◌||◌, ◌&&◌, not, List, [], ◌∷◌, ◌++◌, Option, none, some, Bytes, codes, ℤ,
  pos, ltb_ℤ, eqb_ℤ, ltb, ◌==◌, if◌then◌else◌,
}
use suture_port_mariadb_oper.Jobs.{Job, is_job_complete}
use suture_port_mariadb_oper.StatefulSet.{pod_name}
use suture_port_mariadb_oper.Api.{
  Condition, ConditionStatus, status_true, status_false, status_unknown, ConditionType,
  ConditionReason, MariaDb, deref, replication_of, no_primary, is_galera_enabled,
}
use suture_port_mariadb_oper.Api.Conditions.{
  StatusConditions, is_initializing, is_galera_initializing, init_error, is_updating,
  has_pending_update,
}

abbrev pub condition : ConditionType → ConditionStatus → ConditionReason → Bytes → Condition
condition t s r m = record { type = t; status = s; reason = r; message = m }

-- appsv1.StatefulSet: its status.
pub record StatefulSetStatus : Type 0 where
  pub replicas : ℕ
  pub ready_replicas : ℕ

-- `sts.Status.Replicas == 0 || sts.Status.ReadyReplicas != sts.Status.Replicas`.
abbrev pub is_sts_unready : StatefulSetStatus → Bool
is_sts_unready sts = sts.replicas == 0 || not (sts.ready_replicas == sts.replicas)

-- `switchingPrimaryMessage`; the pointer is set, since `Replication` fills it in.
unfoldable pub switching_primary_message : MariaDb → Bytes
switching_primary_message mariadb =
    let primary = deref (replication_of mariadb).primary no_primary in
    codes "Switching primary to '"
    ++ (pod_name mariadb.metadata (deref primary.pod_index (pos 0)) ++ codes "'")

module _ {S : Type 0} (set : S → Condition → S) where
  unfoldable pub set_ready_healthy : S → S
  set_ready_healthy c =
      set c (condition ConditionType.ready status_true ConditionReason.healthy (codes "Healthy"))

  unfoldable pub set_ready_unhealthy_with_error : S → Bytes → S
  set_ready_unhealthy_with_error c message =
      set c (condition ConditionType.ready status_false ConditionReason.healthy message)

  unfoldable pub set_ready_created_with_message : S → Bytes → S
  set_ready_created_with_message c message =
      set c (condition ConditionType.ready status_true ConditionReason.created message)

  unfoldable pub set_ready_failed_with_message : S → Bytes → S
  set_ready_failed_with_message c message =
      set c (condition ConditionType.ready status_false ConditionReason.failed message)

  unfoldable pub set_ready_with_stateful_set : S → StatefulSetStatus → S
  set_ready_with_stateful_set c sts =
      if is_sts_unready sts
      then set c (
          condition ConditionType.ready status_false ConditionReason.stateful_set_not_ready
            (codes "Not ready"))
      else set c (
          condition ConditionType.ready status_true ConditionReason.stateful_set_ready
            (codes "Running"))

  unfoldable pub set_ready_with_init_job : S → Option Job → S
  set_ready_with_init_job c job =
      if is_job_complete job
      then set c (
          condition ConditionType.ready status_true ConditionReason.initializing
            (codes "Initialized"))
      else set c (
          condition ConditionType.ready status_false ConditionReason.initializing
            (codes "Initializing"))

  unfoldable pub set_ready_storage_resizing : S → S
  set_ready_storage_resizing c =
      set
        (set c (
          condition ConditionType.ready status_false ConditionReason.resizing_storage
            (codes "Resizing storage")))
        (condition ConditionType.storage_resized status_false ConditionReason.resizing_storage
          (codes "Resizing storage"))

  unfoldable pub set_ready_waiting_storage_resize : S → S
  set_ready_waiting_storage_resize c =
      set
        (set c (
          condition ConditionType.ready status_false ConditionReason.wait_storage_resize
            (codes "Waiting for storage resize")))
        (condition ConditionType.storage_resized status_false ConditionReason.wait_storage_resize
          (codes "Waiting for storage resize"))

  unfoldable pub set_ready_storage_resized : S → S
  set_ready_storage_resized c = set c (
      condition ConditionType.storage_resized status_true ConditionReason.storage_resized
        (codes "Storage resized"))

  unfoldable pub set_ready_suspended : S → S
  set_ready_suspended c =
      set c
        (condition ConditionType.ready status_false ConditionReason.suspended (codes "Suspended"))

  unfoldable pub set_primary_switching : S → MariaDb → S
  set_primary_switching c mariadb =
      set
        (set c (
          condition ConditionType.ready status_false ConditionReason.switch_primary
            (switching_primary_message mariadb)))
        (condition ConditionType.primary_switched status_false ConditionReason.switch_primary
          (switching_primary_message mariadb))

  unfoldable pub set_primary_switched : S → S
  set_primary_switched c = set c (
      condition ConditionType.primary_switched status_true ConditionReason.switch_primary
        (codes "Switchover complete"))

  unfoldable pub set_galera_not_ready : S → S
  set_galera_not_ready c =
      set
        (set c (
          condition ConditionType.ready status_false ConditionReason.galera_not_ready
            (codes "Galera not ready")))
        (condition ConditionType.galera_ready status_false ConditionReason.galera_not_ready
          (codes "Galera not ready"))

  unfoldable pub set_galera_ready : S → S
  set_galera_ready c = set c (
      condition ConditionType.galera_ready status_true ConditionReason.galera_ready
        (codes "Galera ready"))

  unfoldable pub set_galera_configured : S → S
  set_galera_configured c = set c (
      condition ConditionType.galera_configured status_true ConditionReason.galera_configured
        (codes "Galera configured"))

  unfoldable pub set_galera_initialized : S → S
  set_galera_initialized c = set c (
      condition ConditionType.galera_initialized status_true ConditionReason.galera_initialized
        (codes "Galera initialized"))

  unfoldable pub set_galera_initializing : S → S
  set_galera_initializing c = set c (
      condition ConditionType.galera_initialized status_false ConditionReason.galera_initialized
        (codes "Galera initializing"))

  unfoldable pub set_pending_update : S → S
  set_pending_update c = set c (
      condition ConditionType.updated status_false ConditionReason.pending_update
        (codes "Pending update"))

  unfoldable pub set_updating : S → S
  set_updating c =
      set c
        (condition ConditionType.updated status_false ConditionReason.updating (codes "Updating"))

  unfoldable pub set_updated : S → S
  set_updated c =
      set c (condition ConditionType.updated status_true ConditionReason.updated (codes "Updated"))

  unfoldable pub set_restoring_backup : S → S
  set_restoring_backup c =
      set
        (set c (
          condition ConditionType.ready status_false ConditionReason.restore_backup
            (codes "Restoring backup")))
        (condition ConditionType.backup_restored status_false ConditionReason.restore_backup
          (codes "Restoring backup"))

  unfoldable pub set_restored_backup : S → S
  set_restored_backup c = set c (
      condition ConditionType.backup_restored status_true ConditionReason.restore_backup
        (codes "Restored backup"))

  unfoldable pub set_restored_physical_backup : S → S
  set_restored_physical_backup c = set c (
      condition ConditionType.backup_restored status_true ConditionReason.restore_physical_backup
        (codes "Restored physical backup"))

  unfoldable pub set_initialized : S → S
  set_initialized c = set c (
      condition ConditionType.initialized status_true ConditionReason.initialized
        (codes "Initialized"))

  unfoldable pub set_initializing : S → S
  set_initializing c = set c (
      condition ConditionType.initialized status_false ConditionReason.initializing
        (codes "Initializing"))

  unfoldable pub set_init_error : S → Bytes → S
  set_init_error c msg = set c (
      condition ConditionType.initialized status_false ConditionReason.init_error
        (codes "Init error: " ++ msg))

  -- While the instance is initialized: an error of the initialization comes first.
  unfoldable pub set_ready_initializing : S → Option Bytes → S
  set_ready_initializing c (some message) =
      set c (condition ConditionType.ready status_false ConditionReason.init_error message)
  set_ready_initializing c none = set c (
      condition ConditionType.ready status_false ConditionReason.initializing
        (codes "Initializing"))

  unfoldable pub set_ready_with_mariadb : StatusConditions → S → StatefulSetStatus → MariaDb → S
  set_ready_with_mariadb meta c sts mdb =
      if is_initializing meta mdb || is_galera_enabled mdb && is_galera_initializing meta mdb
      then set_ready_initializing c (init_error meta mdb)
      else if is_updating meta mdb
      then set c
          (condition ConditionType.ready status_false ConditionReason.updating (codes "Updating"))
      else if is_sts_unready sts
      then set c (
          condition ConditionType.ready status_false ConditionReason.stateful_set_not_ready
            (codes "Not ready"))
      else if has_pending_update meta mdb
      then set c (
          condition ConditionType.ready status_true ConditionReason.pending_update
            (codes "Pending update"))
      else set c (
          condition ConditionType.ready status_true ConditionReason.stateful_set_ready
            (codes "Running"))
