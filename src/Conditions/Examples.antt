-- ===== src/Conditions/Examples.antt =====
-- The conditions of a MariaDB, set and read.
use suture_port_mariadb_oper.Prelude.{◌≡◌, false, not, ◌&&◌, ◌||◌, [], ◌∷◌, none, some, codes, pos}
use suture_port_mariadb_oper.Api.{
  status_true, ConditionType, ConditionReason, MariaDb, MariaDbStatus, is_galera_enabled,
}
use suture_port_mariadb_oper.Api.Conditions.{
  set_condition, type_eq, has_status, is_initializing, is_galera_initializing, is_updating,
}
use suture_port_mariadb_oper.Conditions.{
  condition, StatefulSetStatus, is_sts_unready, set_ready_with_mariadb, set_primary_switching,
  set_primary_switched, set_galera_not_ready, set_galera_ready, set_restoring_backup,
  set_restored_backup, set_ready_waiting_storage_resize, set_ready_storage_resized,
}
use suture_port_mariadb_oper.Conditions.Listed.{listed, latest}
use suture_port_mariadb_oper.Conditions.Ready.{set_ready_with_mariadb_lem}
use suture_port_mariadb_oper.Conditions.Switching.{
  set_interrupted_lem, set_resumed_lem, Interrupted, Resumed,
}

abbrev status : MariaDbStatus
status = record {
  conditions =
      condition ConditionType.ready status_true ConditionReason.healthy (codes "Healthy") ∷ [];
  current_primary_pod_index = some (pos 0);
  current_primary = some (codes "db-0");
  replication_status = none;
  current_primary_failing_since = none;
  galera_recovery = none;
}

abbrev mariadb : MariaDb
mariadb = record {
  metadata = record { name = codes "db"; namespace = codes "default" };
  suspend = false;
  replicas = 3;
  galera = none;
  replication = none;
  max_scale_ref = false;
  status = status;
}

abbrev two_ready : StatefulSetStatus
two_ready = record { replicas = 3; ready_replicas = 2 }

set_ready_with_mariadb_lem_example :
    let s' = set_ready_with_mariadb (set_condition listed) listed status two_ready mariadb in
    (has_status status_true (latest s'.conditions ConditionType.ready) ≡ (
      not (
        is_initializing listed mariadb
        || is_galera_enabled mariadb && is_galera_initializing listed mariadb)
      && not (is_updating listed mariadb)
      && not (is_sts_unready two_ready)))
    × ((t : ConditionType)
        → type_eq ConditionType.ready t ≡ false
        → latest s'.conditions t ≡ latest status.conditions t)
set_ready_with_mariadb_lem_example = set_ready_with_mariadb_lem listed status two_ready mariadb

set_interrupted_lem_example :
    Interrupted listed status
      (set_primary_switching (set_condition listed) status mariadb)
      ConditionType.primary_switched
    × Interrupted listed status
        (set_galera_not_ready (set_condition listed) status)
        ConditionType.galera_ready
    × Interrupted listed status
        (set_restoring_backup (set_condition listed) status)
        ConditionType.backup_restored
    × Interrupted listed status
        (set_ready_waiting_storage_resize (set_condition listed) status)
        ConditionType.storage_resized
set_interrupted_lem_example = set_interrupted_lem listed status mariadb

set_resumed_lem_example :
    Resumed listed status
      (set_primary_switched (set_condition listed) status)
      ConditionType.primary_switched
    × Resumed listed status
        (set_galera_ready (set_condition listed) status)
        ConditionType.galera_ready
    × Resumed listed status
        (set_restored_backup (set_condition listed) status)
        ConditionType.backup_restored
    × Resumed listed status
        (set_ready_storage_resized (set_condition listed) status)
        ConditionType.storage_resized
set_resumed_lem_example = set_resumed_lem listed status
