-- ===== src/Replication/Controller.antt =====
-- pkg/controller/replication/controller.go, and internal/controller/mariadb_controller_status.go as
-- far as it observes the replication state of each Pod.
use suture_port_mariadb_oper.Prelude.{
  ℕ, zero, suc, Bool, true, false, not, ◌&&◌, [], Option, none, some, Bytes, Dict, lookup, insert,
  ℤ, pos, eqb_ℤ, Result, if◌then◌else◌,
}
use suture_port_mariadb_oper.StatefulSet.{pod_name}
use suture_port_mariadb_oper.Api.{
  MariaDb, ReplicationState, master, slave, not_configured, replication_of, deref,
}
use suture_port_mariadb_oper.Api.Conditions.{StatusConditions, is_switching_primary}
use suture_port_mariadb_oper.Replication.{
  Cluster, Step, Error, Log, ◌>>=◌, ◌>>◌, give, wrap, ask, client_for,
}
use suture_port_mariadb_oper.Replication.Config.{configure_primary, configure_replica}
use suture_port_mariadb_oper.Replication.Switchover.{
  reconcile_switchover, current_primary_client, run_if,
}

-- ctrl.Result: whether another run is asked for.
pub data Requeue : Type 0 where
  no_requeue after_one_second : Requeue

-- `reconcileReplicationInPod`; the pointer to the index of the primary was tested before.
unfoldable pub reconcile_replication_in_pod : Cluster → MariaDb → ℤ → ℕ → Step (Unit {0})
reconcile_replication_in_pod k mariadb primary index =
    let as_primary = wrap (current_primary_client k mariadb) >>= λ client.
    configure_primary k mariadb client (pos index) in
    let as_replica =
      wrap (client_for k (pos index))
      >> configure_replica k mariadb (pos index) (pos index) primary false in
    if eqb_ℤ primary (pos index) then as_primary else as_replica

-- `!ok || state == NotConfigured`.
unfoldable pub needs_configuration : Option ReplicationState → Bool
needs_configuration none = true
needs_configuration (some not_configured) = true
needs_configuration (some _) = false

unfoldable pub is_nil : Option (Dict ReplicationState) → Bool
is_nil none = true
is_nil (some d) = false

-- One round of the loop over the Pods: the two tests follow each other.
unfoldable pub reconcile_pod : Cluster → MariaDb → ℤ → ℕ → Step (Unit {0})
reconcile_pod k mariadb primary i = do
  run_if (is_nil mariadb.status.replication_status)
      (wrap (reconcile_replication_in_pod k mariadb primary i))
  run_if
      (needs_configuration
        (lookup (pod_name mariadb.metadata (pos i)) (deref mariadb.status.replication_status [])))
      (wrap (reconcile_replication_in_pod k mariadb primary i))

unfoldable pub reconcile_pods : Cluster → MariaDb → ℤ → ℕ → ℕ → Step (Unit {0})
reconcile_pods k mariadb primary zero i = give tt
reconcile_pods k mariadb primary (suc left) i =
    reconcile_pod k mariadb primary i >> reconcile_pods k mariadb primary left (suc i)

-- `reconcileReplication`.
unfoldable pub reconcile_replication : StatusConditions → Cluster → MariaDb → Step Requeue
reconcile_replication meta k mariadb = elim (is_switching_primary meta mariadb) [
  | true ↦ give no_requeue
  | false ↦ elim mariadb.status.current_primary_pod_index [
    | none ↦ give after_one_second
    | some primary ↦ reconcile_pods k mariadb primary mariadb.replicas 0 >> give no_requeue
  ]
]

unfoldable pub then_switchover : StatusConditions → Cluster → MariaDb → Requeue → Step Requeue
then_switchover meta k mariadb after_one_second = give after_one_second
then_switchover meta k mariadb no_requeue = reconcile_switchover meta k mariadb >> give no_requeue

unfoldable pub when_healthy : StatusConditions → Cluster → MariaDb → Bool → Step Requeue
when_healthy meta k mariadb false = give after_one_second
when_healthy meta k mariadb true =
    reconcile_replication meta k mariadb >>= then_switchover meta k mariadb

-- `Reconcile`; `healthy` is the answer of `IsStatefulSetHealthy`. A client set can be made, since
-- replication is enabled.
unfoldable pub reconcile :
    StatusConditions → Cluster → (Log → Result Error Bool) → MariaDb → Step Requeue
reconcile meta k healthy mdb = elim (replication_of mdb).enabled [
  | false ↦ give no_requeue
  | true ↦ elim (not mdb.max_scale_ref && is_switching_primary meta mdb) [
    | true ↦ reconcile_switchover meta k mdb >> give no_requeue
    | false ↦ wrap (ask healthy) >>= when_healthy meta k mdb
  ]
]

-- `getReplicationStatus`: the state by the two system variables of a Pod.
unfoldable pub state_of_variables : Bool → Bool → ReplicationState
state_of_variables true slave_enabled = master
state_of_variables false true = slave
state_of_variables false false = not_configured

-- A Pod that cannot be asked is left out.
unfoldable pub put_state :
    Bytes → Option (Bool × Bool) → Dict ReplicationState → Dict ReplicationState
put_state pod none status = status
put_state pod (some v) status = insert pod (state_of_variables v.0 v.1) status

unfoldable pub observe :
    (ℕ → Option (Bool × Bool)) → MariaDb → ℕ → ℕ → Dict ReplicationState → Dict ReplicationState
observe variables mdb zero i status = status
observe variables mdb (suc left) i status =
    observe variables mdb left (suc i)
      (put_state (pod_name mdb.metadata (pos i)) (variables i) status)

-- `none` is a nil map.
unfoldable pub get_replication_status :
    (ℕ → Option (Bool × Bool)) → MariaDb → Option (Dict ReplicationState)
get_replication_status variables mdb =
    let status = some (observe variables mdb mdb.replicas 0 []) in
    if (replication_of mdb).enabled then status else none
