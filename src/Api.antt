-- ===== src/Api.antt =====
-- api/v1alpha1: the fields of the custom resources that the modelled code reads, and its methods
-- on them. Replicas are not negative: the schema of the resource has a minimum of 0.
pub mod Conditions
use suture_port_mariadb_oper.Prelude.{
  ℕ, Bool, true, false, ◌||◌, ◌&&◌, List, [], ◌∷◌, Option, none, some, Bytes, bytes_eq, Dict, ℤ,
  pos, if◌then◌else◌,
}
use suture_port_mariadb_oper.StatefulSet.{ObjectMeta, pod_name}
use suture_port_mariadb_oper.GaleraState.{GaleraState, Bootstrap}

-- k8s.io/utils/ptr: `Deref` with a default.
abbrev pub deref {ℓ} : {A : Type ℓ} → Option A → A → A
deref none d = d
deref (some a) d = a

pub data ReplicationState : Type 0 where
  master slave not_configured : ReplicationState

unfoldable pub is_slave : ReplicationState → Bool
is_slave slave = true
is_slave _ = false

pub record GaleraRecovery : Type 0 where
  pub cluster_bootstrap_timeout : Option ℤ
  pub cluster_upscale_timeout : Option ℤ
  pub cluster_downscale_timeout : Option ℤ
  pub pod_recovery_timeout : Option ℤ
  pub pod_sync_timeout : Option ℤ
  pub force_cluster_bootstrap_in_pod : Option Bytes

pub record Galera : Type 0 where
  pub enabled : Bool
  pub primary_pod_index : Option ℤ
  pub recovery : Option GaleraRecovery

pub record PrimaryReplication : Type 0 where
  pub pod_index : Option ℤ
  pub automatic_failover : Option Bool
  pub automatic_failover_delay : Option ℤ

pub data WaitPoint : Type 0 where
  after_sync after_commit : WaitPoint

pub data Gtid : Type 0 where
  current_pos slave_pos : Gtid

pub record ReplicaReplication : Type 0 where
  pub wait_point : Option WaitPoint
  pub gtid : Option Gtid
  pub connection_timeout : Option ℤ
  pub connection_retries : Option ℤ
  pub sync_timeout : Option ℤ

pub record Replication : Type 0 where
  pub primary : Option PrimaryReplication
  pub replica : Option ReplicaReplication
  pub sync_binlog : Option ℤ
  pub probes_enabled : Option Bool
  pub enabled : Bool

pub record GaleraBootstrapStatus : Type 0 where
  pub time : Option ℤ
  pub pod : Option Bytes

-- `none` is a nil map; a map may hold nil pointers.
pub record GaleraRecoveryStatus : Type 0 where
  pub state : Option (Dict (Option GaleraState))
  pub recovered : Option (Dict (Option Bootstrap))
  pub bootstrap : Option GaleraBootstrapStatus
  pub pods_restarted : Option Bool

pub data ConditionStatus : Type 0 where
  status_true status_false status_unknown : ConditionStatus

pub data ConditionType : Type 0 where
  ready storage_resized primary_switched backup_restored : ConditionType
  galera_ready galera_configured galera_initialized initialized updated complete : ConditionType

pub data ConditionReason : Type 0 where
  healthy created failed suspended : ConditionReason
  stateful_set_not_ready stateful_set_ready : ConditionReason
  initialized initializing init_error updated updating pending_update : ConditionReason
  maxscale_not_ready maxscale_ready : ConditionReason
  resizing_storage wait_storage_resize storage_resized : ConditionReason
  switch_primary restore_backup restore_physical_backup : ConditionReason
  galera_not_ready galera_ready galera_configured galera_initialized : ConditionReason
  cron_job_scheduled cron_job_running cron_job_success : ConditionReason
  job_failed job_suspended job_complete job_running : ConditionReason

-- ConditionReasonCronJobFailed has the text of ConditionReasonCronJobScheduled, so it is the same
-- reason.
abbrev pub cron_job_failed : ConditionReason
cron_job_failed = ConditionReason.cron_job_scheduled

-- metav1.Condition, without its generation and its time of transition.
pub record Condition : Type 0 where
  pub type : ConditionType
  pub status : ConditionStatus
  pub reason : ConditionReason
  pub message : Bytes

pub record MariaDbStatus : Type 0 where
  pub conditions : List Condition
  pub current_primary_pod_index : Option ℤ
  pub current_primary : Option Bytes
  pub current_primary_failing_since : Option ℤ
  pub replication_status : Option (Dict ReplicationState)
  pub galera_recovery : Option GaleraRecoveryStatus

pub record MariaDb : Type 0 where
  pub metadata : ObjectMeta
  pub suspend : Bool
  pub replicas : ℕ
  pub galera : Option Galera
  pub replication : Option Replication
  pub max_scale_ref : Bool
  pub status : MariaDbStatus

abbrev pub no_primary : PrimaryReplication
no_primary = record { pod_index = none; automatic_failover = none; automatic_failover_delay = none }

abbrev pub no_galera : Galera
no_galera = record { enabled = false; primary_pod_index = none; recovery = none }

abbrev pub no_galera_recovery : GaleraRecovery
no_galera_recovery = record {
  cluster_bootstrap_timeout = none;
  cluster_upscale_timeout = none;
  cluster_downscale_timeout = none;
  pod_recovery_timeout = none;
  pod_sync_timeout = none;
  force_cluster_bootstrap_in_pod = none;
}

abbrev pub no_recovery_status : GaleraRecoveryStatus
no_recovery_status = record {
  state = none;
  recovered = none;
  bootstrap = none;
  pods_restarted = none;
}

-- `DefaultReplicationSpec`; durations are in nanoseconds.
abbrev pub default_primary : PrimaryReplication
default_primary = record {
  pod_index = some (pos 0);
  automatic_failover = some true;
  automatic_failover_delay = some (pos 0);
}

abbrev pub ten_seconds : ℤ
ten_seconds = pos 10000000000

abbrev pub default_replica : ReplicaReplication
default_replica = record {
  wait_point = some after_sync;
  gtid = some current_pos;
  connection_timeout = some ten_seconds;
  connection_retries = some (pos 10);
  sync_timeout = some ten_seconds;
}

-- A default for a field that is not set.
abbrev pub or_default {ℓ} : {A : Type ℓ} → Option A → Option A → Option A
or_default none d = d
or_default (some a) d = some a

unfoldable pub fill_primary : Option PrimaryReplication → PrimaryReplication
fill_primary none = default_primary
fill_primary (some p) = record {
  pod_index = or_default p.pod_index default_primary.pod_index;
  automatic_failover = or_default p.automatic_failover default_primary.automatic_failover;
  automatic_failover_delay =
      or_default p.automatic_failover_delay default_primary.automatic_failover_delay;
}

unfoldable pub fill_replica : Option ReplicaReplication → ReplicaReplication
fill_replica none = default_replica
fill_replica (some r) = record {
  wait_point = or_default r.wait_point default_replica.wait_point;
  gtid = or_default r.gtid default_replica.gtid;
  connection_timeout = or_default r.connection_timeout default_replica.connection_timeout;
  connection_retries = or_default r.connection_retries default_replica.connection_retries;
  sync_timeout = or_default r.sync_timeout default_replica.sync_timeout;
}

-- `ReplicationSpec.FillWithDefaults`.
unfoldable pub fill_with_defaults : Replication → Replication
fill_with_defaults r = record {
  primary = some (fill_primary r.primary);
  replica = some (fill_replica r.replica);
  sync_binlog = or_default r.sync_binlog (some (pos 1));
  probes_enabled = or_default r.probes_enabled (some false);
  enabled = r.enabled;
}

abbrev pub no_replication : Replication
no_replication = record {
  primary = none;
  replica = none;
  sync_binlog = none;
  probes_enabled = none;
  enabled = false;
}

-- `MariaDB.Replication`: the specification with its defaults, which the method also stores.
unfoldable pub replication_of : MariaDb → Replication
replication_of m = fill_with_defaults (deref m.replication no_replication)

-- What `m.Spec.Replication` is after the call.
unfoldable pub with_replication : MariaDb → MariaDb
with_replication m = record m { replication = some (replication_of m) }

unfoldable pub is_galera_enabled : MariaDb → Bool
is_galera_enabled m = (deref m.galera no_galera).enabled

unfoldable pub is_ha_enabled : MariaDb → Bool
is_ha_enabled m = (replication_of m).enabled || is_galera_enabled m

unfoldable pub any_slave : Dict ReplicationState → Bool
any_slave [] = false
any_slave ((pod, state) ∷ r) = is_slave state || any_slave r

-- `HasConfiguredReplica`; ranging over a nil map does nothing.
unfoldable pub has_configured_replica : MariaDb → Bool
has_configured_replica m = any_slave (deref m.status.replication_status [])

unfoldable pub slave_named : Bytes → Dict ReplicationState → Bool
slave_named pod_name [] = false
slave_named pod_name ((pod, state) ∷ r) =
    (bytes_eq pod pod_name && is_slave state) || slave_named pod_name r

unfoldable pub is_configured_replica : MariaDb → Bytes → Bool
is_configured_replica m pod_name = slave_named pod_name (deref m.status.replication_status [])

unfoldable pub is_suspended : MariaDb → Bool
is_suspended m = m.suspend

-- `GetAutomaticFailoverDelay`; the pointer is set by the defaults.
unfoldable pub automatic_failover_delay : MariaDb → ℤ
automatic_failover_delay m =
    deref (deref (replication_of m).primary no_primary).automatic_failover_delay (pos 0)

-- `UpdateCurrentPrimary`.
unfoldable pub update_current_primary : MariaDbStatus → MariaDb → ℤ → MariaDbStatus
update_current_primary s mariadb index = record s {
  current_primary_pod_index = some index;
  current_primary = some (pod_name mariadb.metadata index);
}
