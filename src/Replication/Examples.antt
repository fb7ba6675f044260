-- ===== src/Replication/Examples.antt =====
-- A cluster of three Pods whose primary is moved from the first to the second.
use suture_port_mariadb_oper.Prelude.{
  ◌≡◌, refl, ℕ, true, false, List, [], ◌∷◌, Option, none, some, codes, ℤ, pos, eqb_ℤ, Result, ok,
  subst, Ensures, if◌then◌else◌, bytes_eq,
}
use suture_port_mariadb_oper.Text.{itoa, decimal, decimal_from}
use suture_port_mariadb_oper.StatefulSet.{
  pod_name, pod_fqdn_with_service, service_fqdn_with_service,
}
use suture_port_mariadb_oper.Api.{
  status_true, MariaDb, MariaDbStatus, master, slave, no_replication, no_primary, replication_of,
  fill_with_defaults, fill_primary, fill_replica, has_configured_replica, any_slave, is_slave,
  update_current_primary,
}
use suture_port_mariadb_oper.Api.Conditions.{
  set_condition, is_restoring_backup, is_resizing_storage,
}
use suture_port_mariadb_oper.Conditions.{
  set_primary_switching, set_primary_switched, switching_primary_message,
}
use suture_port_mariadb_oper.Conditions.Listed.{listed, latest}
use suture_port_mariadb_oper.Replication.{
  Cluster, Error, failed, Log, sql, PodCondition, pod_ready, run, client_for, patch, run_all,
  await_all, disable_read_only,
}
use suture_port_mariadb_oper.Replication.Config.{
  configure_primary, configure_replica, configure_primary_vars, configure_replica_vars, put_user,
  reconcile_user_sql, reconcile_primary_sql, do_change_master, reset_slave_pos_if, replica_of,
}
use suture_port_mariadb_oper.Replication.Switchover.{
  desired_index, differs_from, current_index, current_primary_ready, current_primary_client,
  lock_primary_with_read_lock, set_primary_read_only, reset_slave, indices_from, wait_failed,
  after_wait, sync_replica, sync_replicas, wait_for_replica_sync, configure_new_primary,
  connect_ready, connect_replica, connect_replicas_to_new_primary, change_primary_to_replica,
  seal_primary, promote_primary, should_reconcile_switchover, switching_status, switching,
  switched_status, switch_primary, reconcile_switchover,
}
use suture_port_mariadb_oper.Replication.Fencing.{Fenced, reconcile_switchover-Fenced}
use suture_port_mariadb_oper.Replication.Progress.{IsSmooth}
use suture_port_mariadb_oper.Replication.Completed.{Complete, reconcile_switchover_ok}
use suture_port_mariadb_oper.Replication.Patches.{Outcome, reconcile_switchover-Outcome}

abbrev status : MariaDbStatus
status = record {
  conditions = [];
  current_primary_pod_index = some (pos 0);
  current_primary = some (codes "db-0");
  replication_status =
      some ((codes "db-0", master) ∷ (codes "db-1", slave) ∷ (codes "db-2", slave) ∷ []);
  current_primary_failing_since = none;
  galera_recovery = none;
}

abbrev mariadb : MariaDb
mariadb = record {
  metadata = record { name = codes "db"; namespace = codes "default" };
  suspend = false;
  replicas = 3;
  galera = none;
  replication = some (record no_replication {
    primary = some (record no_primary { pod_index = some (pos 1) });
    enabled = true;
  });
  max_scale_ref = false;
  status = status;
}

abbrev in_order : List ℕ → List ℕ
in_order is = is

abbrev ready_pod : Result Error (List PodCondition)
ready_pod = ok (record { is_ready_type = true; status = status_true } ∷ [])

-- Every call succeeds, but for the commands to the Pod `down`.
abbrev cluster : Option ℤ → Cluster
cluster down = record {
  exec = λ log i c. elim down [ none ↦ none | some j ↦ if eqb_ℤ i j then some failed else none ];
  system_variable = λ log i name. ok (codes "0-10-7");
  user_exists = λ log i user host. ok true;
  client_for_index = λ log i. none;
  get_pod = λ log name. ready_pod;
  patch_status = λ log s. none;
  reconcile_password = λ log. ok (codes "secret");
  secret_key_ref = λ log. ok (codes "secret");
  is_compatible_version = ok true;
  cluster_name = [];
  schedule = λ log is. in_order is;
  done = λ log. none;
}

program : Unit {0}
unfolding itoa decimal decimal_from pod_name pod_fqdn_with_service service_fqdn_with_service
    replication_of fill_with_defaults fill_primary fill_replica has_configured_replica any_slave
    is_slave update_current_primary set_condition is_restoring_backup is_resizing_storage
    set_primary_switching set_primary_switched switching_primary_message pod_ready run client_for
    patch run_all await_all configure_primary configure_replica configure_primary_vars
    configure_replica_vars put_user reconcile_user_sql reconcile_primary_sql do_change_master
    reset_slave_pos_if replica_of desired_index differs_from current_index current_primary_ready
    current_primary_client lock_primary_with_read_lock set_primary_read_only reset_slave
    indices_from wait_failed after_wait sync_replica sync_replicas wait_for_replica_sync
    configure_new_primary connect_ready connect_replica connect_replicas_to_new_primary
    change_primary_to_replica seal_primary promote_primary should_reconcile_switchover
    switching_status switching switched_status switch_primary reconcile_switchover latest bytes_eq
program = tt

-- The promotions in a log, oldest last.
abbrev promotions : Log → List ℤ
promotions [] = []
promotions (sql i disable_read_only b ∷ log) = i ∷ promotions log
promotions (_ ∷ log) = promotions log

due : should_reconcile_switchover listed mariadb ≡ true
unfolding program
due = refl

succeeds : (reconcile_switchover listed (cluster none) mariadb []).0 ≡ ok tt
unfolding program
succeeds = refl

-- A replica that does not wait for the position stops the switchover.
stops : promotions (reconcile_switchover listed (cluster (some (pos 2))) mariadb []).1 ≡ []
unfolding program
stops = refl

ready_condition : (cs : List PodCondition) → ready_pod ≡ ok cs → pod_ready cs ≡ true
unfolding pod_ready
ready_condition cs h = subst (λ r. Ensures (λ c. pod_ready c ≡ true) r) h refl

reconcile_switchover-Fenced_example :
    Fenced
      (cluster none)
      (switching listed mariadb)
      (pos 0)
      (reconcile_switchover listed (cluster none) mariadb []).1
reconcile_switchover-Fenced_example =
    reconcile_switchover-Fenced listed (cluster none) (λ log is i m. m) mariadb (pos 0) refl
      (λ log cs h. ready_condition cs h) [] tt

reconcile_switchover-Outcome_example :
    let m = reconcile_switchover listed (cluster (some (pos 2))) mariadb [] in
    (should_reconcile_switchover listed mariadb ≡ true → Outcome listed mariadb m.0 m.1)
    × (should_reconcile_switchover listed mariadb ≡ false → (m.0 ≡ ok tt) × (m.1 ≡ []))
reconcile_switchover-Outcome_example =
    reconcile_switchover-Outcome listed mariadb (cluster (some (pos 2)))

all_fine : IsSmooth (cluster none)
all_fine = record {
  runs = λ log i c. refl;
  reads = λ log i name. (codes "0-10-7", refl);
  finds = λ log i user host. (true, refl);
  connects = λ log i. refl;
  gets = λ log name. (record { is_ready_type = true; status = status_true } ∷ [], refl);
  patches = λ log s. refl;
  reconciles = λ log. (codes "secret", refl);
  resolves = λ log. (codes "secret", refl);
  compares = (true, refl);
  waits = λ log. refl;
}

reconcile_switchover_ok_example :
    ((reconcile_switchover listed (cluster none) mariadb []).0 ≡ ok tt)
    × Complete
        (cluster none)
        (switching listed mariadb)
        (pos 0)
        (reconcile_switchover listed (cluster none) mariadb []).1
reconcile_switchover_ok_example =
    reconcile_switchover_ok listed (cluster none) all_fine (λ log is i m. m) mariadb (pos 0) refl []
      due
