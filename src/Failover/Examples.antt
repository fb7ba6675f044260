-- ===== src/Failover/Examples.antt =====
-- The first Pod of three fails.
use suture_port_mariadb_oper.Prelude.{
  ◌≡◌, refl, true, false, List, [], ◌∷◌, none, some, Bytes, codes, bytes_eq, bytes_lt, pos, ok,
}
use suture_port_mariadb_oper.Text.{
  itoa, decimal, decimal_from, split, split_from, atoi, parse_magnitude, parse_digits, as_positive,
  as_negative, is_digit,
}
use suture_port_mariadb_oper.StatefulSet.{pod_name, pod_index}
use suture_port_mariadb_oper.Api.{
  ConditionStatus, status_true, status_false, MariaDb, master, slave, no_replication,
  replication_of, fill_with_defaults, fill_primary, fill_replica, has_configured_replica, any_slave,
  is_slave, is_suspended, automatic_failover_delay, is_configured_replica, slave_named,
}
use suture_port_mariadb_oper.Api.Conditions.{set_condition, is_restoring_backup}
use suture_port_mariadb_oper.Conditions.{set_primary_switching, switching_primary_message}
use suture_port_mariadb_oper.Conditions.Listed.{listed, latest}
use suture_port_mariadb_oper.Replication.{pod_ready}
use suture_port_mariadb_oper.Replication.Switchover.{desired_index}
use suture_port_mariadb_oper.Health.{
  Pod, sort_pod_list, insert_pod, choose_pod, search_healthy, secondary_pod_healthy_index_by,
  is_healthy_replica, replica_pod_healthy_index,
}
use suture_port_mariadb_oper.Failover.{
  State, Server, patch_spec, patch_status, should_reconcile, with_primary_index, switching_status,
  switch_to, is_delayed, choose_replica, fail_over, note_failing, is_current, when_current,
  reconcile_pod_not_ready,
}
use suture_port_mariadb_oper.Failover.Switch.{Started, reconcile_pod_not_ready-Started}

abbrev pod : Bytes → ConditionStatus → Pod
pod name status = record {
  name = name;
  conditions = record { is_ready_type = true; status = status } ∷ [];
}

abbrev pods : List Pod
pods =
    pod (codes "db-2") status_true
    ∷ pod (codes "db-0") status_false
    ∷ pod (codes "db-1") status_true
    ∷ []

abbrev mariadb : MariaDb
mariadb = record {
  metadata = record { name = codes "db"; namespace = codes "default" };
  suspend = false;
  replicas = 3;
  galera = none;
  replication = some (record no_replication { enabled = true });
  max_scale_ref = false;
  status = record {
    conditions = [];
    current_primary_pod_index = some (pos 0);
    current_primary = some (codes "db-0");
    current_primary_failing_since = none;
    replication_status =
        some ((codes "db-0", master) ∷ (codes "db-1", slave) ∷ (codes "db-2", slave) ∷ []);
    galera_recovery = none;
  };
}

abbrev start : State
start = record { mariadb = mariadb; patches = [] }

abbrev server : Server
server = record { now = pos 7; pods = ok pods; refuses = λ _ _. false }

program : Unit {0}
unfolding itoa decimal decimal_from split split_from atoi parse_magnitude parse_digits as_positive
    as_negative is_digit pod_name pod_index replication_of fill_with_defaults fill_primary
    fill_replica has_configured_replica any_slave is_slave is_suspended automatic_failover_delay
    is_configured_replica slave_named set_condition is_restoring_backup set_primary_switching
    switching_primary_message pod_ready desired_index sort_pod_list insert_pod choose_pod
    search_healthy secondary_pod_healthy_index_by is_healthy_replica replica_pod_healthy_index
    patch_spec patch_status should_reconcile with_primary_index switching_status switch_to
    is_delayed choose_replica fail_over note_failing is_current when_current reconcile_pod_not_ready
    latest bytes_eq bytes_lt
program = tt

due : should_reconcile listed mariadb ≡ true
unfolding program
due = refl

first_index : pod_index (codes "db-0") ≡ ok (pos 0)
unfolding program
first_index = refl

succeeds : (reconcile_pod_not_ready listed server (pod (codes "db-0") status_false) start).0 ≡ ok tt
unfolding program
succeeds = refl

-- The second Pod is the first by name that is ready and replicates.
chosen :
    desired_index
      (reconcile_pod_not_ready listed server (pod (codes "db-0") status_false) start).1.mariadb
    ≡ pos 1
unfolding program
chosen = refl

reconcile_pod_not_ready-Started_example :
    Started listed mariadb
      (pos 0)
      pods
      (reconcile_pod_not_ready listed server (pod (codes "db-0") status_false) start).1.mariadb
reconcile_pod_not_ready-Started_example =
    reconcile_pod_not_ready-Started listed server (pod (codes "db-0") status_false) start (pos 0)
      pods refl due refl first_index succeeds
