-- ===== src/Replication/Switchover.antt =====
-- pkg/controller/replication/switchover.go: the primary is switched in six phases.
use suture_port_mariadb_oper.Prelude.{
  ℕ, zero, suc, Bool, true, false, not, ◌&&◌, ◌||◌, List, [], ◌∷◌, Option, none, some, Bytes, codes,
  ℤ, pos, eqb_ℤ, Result, ok, err, if◌then◌else◌,
}
use suture_port_mariadb_oper.StatefulSet.{pod_name}
use suture_port_mariadb_oper.Api.{
  MariaDb, MariaDbStatus, replication_of, no_primary, deref, ten_seconds, has_configured_replica,
  update_current_primary,
}
use suture_port_mariadb_oper.Api.Conditions.{
  StatusConditions, set_condition, is_restoring_backup, is_resizing_storage,
}
use suture_port_mariadb_oper.Conditions.{set_primary_switching, set_primary_switched}
use suture_port_mariadb_oper.Replication.{
  Cluster, Step, Error, not_found, wait_replica_timeout, failed, lock_tables_with_read_lock,
  unlock_tables, enable_read_only, start_slave, stop_all_slaves, reset_slave_pos,
  wait_for_replica_gtid, ◌>>=◌, ◌>>◌, give, fail, wrap, ask, run, client_for, patch, pod_ready,
  PodCondition, await_all, phase_error,
}
use suture_port_mariadb_oper.Replication.Config.{configure_primary, configure_replica, replica_of}

-- `*mariadb.Replication().Primary.PodIndex`, which the defaults set.
unfoldable pub desired_index : MariaDb → ℤ
desired_index mdb = deref (deref (replication_of mdb).primary no_primary).pod_index (pos 0)

unfoldable pub differs_from : Option ℤ → ℤ → Bool
differs_from none desired = false
differs_from (some current) desired = not (eqb_ℤ current desired)

unfoldable pub should_reconcile_switchover : StatusConditions → MariaDb → Bool
should_reconcile_switchover meta mdb =
    not (mdb.max_scale_ref || is_restoring_backup meta mdb || is_resizing_storage meta mdb)
    && has_configured_replica mdb
    && differs_from mdb.status.current_primary_pod_index (desired_index mdb)

-- `errors.New("'status.currentPrimaryPodIndex' must be set")` for a nil pointer.
unfoldable pub current_index : MariaDb → Step ℤ
current_index mariadb = elim mariadb.status.current_primary_pod_index [
  | none ↦ fail failed
  | some i ↦ give i
]

unfoldable pub current_primary_ready : Cluster → MariaDb → Step Bool
current_primary_ready k mariadb = do
  current ← current_index mariadb
  conditions ← ask (λ log. k.get_pod log (pod_name mariadb.metadata current))
  give (pod_ready conditions)

-- `currentPrimaryClient`.
unfoldable pub current_primary_client : Cluster → MariaDb → Step ℤ
current_primary_client k mariadb = do
  current ← current_index mariadb
  wrap (client_for k current)
  give current

abbrev pub run_if : Bool → Step (Unit {0}) → Step (Unit {0})
run_if true m = m
run_if false m = give tt

unfoldable pub lock_primary_with_read_lock : Cluster → MariaDb → Step (Unit {0})
lock_primary_with_read_lock k mariadb = do
  ready ← wrap (current_primary_ready k mariadb)
  run_if ready
      (do client ← wrap (current_primary_client k mariadb); run k client lock_tables_with_read_lock)

unfoldable pub set_primary_read_only : Cluster → MariaDb → Step (Unit {0})
set_primary_read_only k mariadb = do
  ready ← wrap (current_primary_ready k mariadb)
  run_if ready (do client ← wrap (current_primary_client k mariadb); run k client enable_read_only)

unfoldable pub reset_slave : Cluster → ℤ → Step (Unit {0})
reset_slave k client = do
  wrap (run k client stop_all_slaves)
  wrap (run k client reset_slave_pos)
  run k client start_slave

-- Indices from `i` on, for the replicas that are left, without those that are skipped.
unfoldable pub indices_from : (ℤ → Bool) → ℕ → ℕ → List ℕ
indices_from skip zero i = []
indices_from skip (suc left) i =
    let rest = indices_from skip left (suc i) in if skip (pos i) then rest else i ∷ rest

-- `WaitForReplicaGtid` failed: behind a timeout the slave is reset. An error is sent in any case.
unfoldable pub wait_failed : Cluster → ℤ → Error → Step (Unit {0})
wait_failed k client wait_replica_timeout log = (err failed, (reset_slave k client log).1)
wait_failed k client _ log = (err failed, log)

unfoldable pub after_wait : Cluster → ℤ → Result Error (Unit {0}) → Step (Unit {0})
after_wait k client (ok _) = wrap (reset_slave k client)
after_wait k client (err e) = wait_failed k client e

-- The goroutine of `waitForReplicaSync`.
unfoldable pub sync_replica : Cluster → MariaDb → Bytes → ℕ → Step (Unit {0})
sync_replica k mariadb primary_gtid i = wrap (client_for k (pos i)) >> (λ log.
    let waited =
      run k (pos i)
        (wait_for_replica_gtid primary_gtid (deref (replica_of mariadb).sync_timeout ten_seconds))
        log in
    after_wait k (pos i) waited.0 waited.1)

unfoldable pub gtid_binlog_pos : Bytes
gtid_binlog_pos = codes "gtid_binlog_pos"

unfoldable pub sync_replicas : Cluster → MariaDb → ℤ → Bytes → Step (Unit {0})
sync_replicas k mariadb current primary_gtid =
    await_all k (sync_replica k mariadb primary_gtid)
      (indices_from (λ i. eqb_ℤ i current) mariadb.replicas 0)

unfoldable pub wait_for_replica_sync : Cluster → MariaDb → Step (Unit {0})
wait_for_replica_sync k mariadb = do
  current ← current_index mariadb
  ready ← wrap (current_primary_ready k mariadb)
  run_if ready (do
    client ← wrap (current_primary_client k mariadb)
    primary_gtid ← wrap (ask (λ log. k.system_variable log client gtid_binlog_pos))
    sync_replicas k mariadb current primary_gtid)

unfoldable pub configure_new_primary : Cluster → MariaDb → Step (Unit {0})
configure_new_primary k mariadb = do
  wrap (wrap (client_for k (desired_index mariadb)))
  wrap (configure_primary k mariadb (desired_index mariadb) (desired_index mariadb))

-- The goroutine of `connectReplicasToNewPrimary`: a Pod that is gone or not ready is left out.
unfoldable pub connect_ready :
    Cluster → MariaDb → ℕ → Result Error (List PodCondition) → Step (Unit {0})
connect_ready k mariadb i (err not_found) = give tt
connect_ready k mariadb i (err e) = fail e
connect_ready k mariadb i (ok conditions) = run_if (pod_ready conditions) (do
  wrap (client_for k (pos i))
  wrap (configure_replica k mariadb (pos i) (pos i) (desired_index mariadb) true))

unfoldable pub connect_replica : Cluster → MariaDb → ℕ → Step (Unit {0})
connect_replica k mariadb i log =
    connect_ready k mariadb i (k.get_pod log (pod_name mariadb.metadata (pos i))) log

unfoldable pub connect_replicas_to_new_primary : Cluster → MariaDb → Step (Unit {0})
connect_replicas_to_new_primary k mariadb = do
  current ← current_index mariadb
  await_all k (connect_replica k mariadb)
      (indices_from (λ i. eqb_ℤ i current || eqb_ℤ i (desired_index mariadb)) mariadb.replicas 0)

unfoldable pub change_primary_to_replica : Cluster → MariaDb → Step (Unit {0})
change_primary_to_replica k mariadb = do
  current ← current_index mariadb
  ready ← wrap (current_primary_ready k mariadb)
  run_if ready (do
    client ← wrap (current_primary_client k mariadb)
    wrap (run k client unlock_tables)
    configure_replica k mariadb client current (desired_index mariadb) true)

abbrev pub phase : Step (Unit {0}) → Step (Unit {0})
phase m log = (phase_error (m log).0, (m log).1)

-- The loop over the phases, in their order: the first three seal the old primary.
unfoldable pub seal_primary : Cluster → MariaDb → Step (Unit {0})
seal_primary k mariadb = do
  phase (lock_primary_with_read_lock k mariadb)
  phase (set_primary_read_only k mariadb)
  phase (wait_for_replica_sync k mariadb)

-- The last three promote the new one.
unfoldable pub promote_primary : Cluster → MariaDb → Step (Unit {0})
promote_primary k mariadb = do
  phase (configure_new_primary k mariadb)
  phase (connect_replicas_to_new_primary k mariadb)
  phase (change_primary_to_replica k mariadb)

-- The two patches: each changes the status of the MariaDB in memory first.
unfoldable pub switching_status : StatusConditions → MariaDb → MariaDbStatus
switching_status meta mariadb = set_primary_switching (set_condition meta) mariadb.status mariadb

unfoldable pub switching : StatusConditions → MariaDb → MariaDb
switching meta mariadb = record mariadb { status = switching_status meta mariadb }

unfoldable pub switched_status : StatusConditions → MariaDb → MariaDbStatus
switched_status meta mariadb =
    set_primary_switched (set_condition meta)
      (update_current_primary (switching meta mariadb).status mariadb (desired_index mariadb))

unfoldable pub switch_primary : StatusConditions → Cluster → MariaDb → Step (Unit {0})
switch_primary meta k mariadb = do
  wrap (patch k (switching_status meta mariadb))
  seal_primary k (switching meta mariadb)
  promote_primary k (switching meta mariadb)
  wrap (patch k (switched_status meta mariadb))

unfoldable pub reconcile_switchover : StatusConditions → Cluster → MariaDb → Step (Unit {0})
reconcile_switchover meta k mariadb =
    run_if (should_reconcile_switchover meta mariadb) (switch_primary meta k mariadb)
