-- ===== src/Replication/Scenarios.antt =====
-- A run of the controller that stalls.
use suture_port_mariadb_oper.Prelude.{
  ◌≡◌, refl, ℕ, Bool, true, false, [], ◌∷◌, Option, none, some, codes, bytes_eq, lookup, Dict, pos,
  Result, ok,
}
use suture_port_mariadb_oper.Text.{itoa, decimal, decimal_from}
use suture_port_mariadb_oper.StatefulSet.{pod_name}
use suture_port_mariadb_oper.Api.{
  status_false, MariaDb, ConditionType, ConditionReason, ReplicationState, master, slave,
  no_replication, replication_of, fill_with_defaults,
}
use suture_port_mariadb_oper.Api.Conditions.{is_switching_primary}
use suture_port_mariadb_oper.Conditions.{condition}
use suture_port_mariadb_oper.Conditions.Listed.{listed, latest}
use suture_port_mariadb_oper.Replication.{Cluster, Error, Log}
use suture_port_mariadb_oper.Replication.Controller.{no_requeue, reconcile, needs_configuration}
use suture_port_mariadb_oper.Replication.Stalled.{observed, reconcile-stalled}

abbrev cluster : Cluster
cluster = record {
  exec = λ log i c. none;
  system_variable = λ log i name. ok (codes "0-10-7");
  user_exists = λ log i user host. ok true;
  client_for_index = λ log i. none;
  get_pod = λ log name. ok [];
  patch_status = λ log s. none;
  reconcile_password = λ log. ok (codes "secret");
  secret_key_ref = λ log. ok (codes "secret");
  is_compatible_version = ok true;
  cluster_name = [];
  schedule = λ log is. is;
  done = λ log. none;
}

abbrev healthy : Log → Result Error Bool
healthy log = ok true

abbrev states : Dict ReplicationState
states = (codes "db-0", master) ∷ (codes "db-1", slave) ∷ []

abbrev steady : MariaDb
steady = record {
  metadata = record { name = codes "db"; namespace = codes "default" };
  suspend = false;
  replicas = 2;
  galera = none;
  replication = some (record no_replication { enabled = true });
  max_scale_ref = false;
  status = record {
    conditions = [];
    current_primary_pod_index = some (pos 0);
    current_primary = some (codes "db-0");
    current_primary_failing_since = none;
    replication_status = some states;
    galera_recovery = none;
  };
}

abbrev switching : MariaDb
switching = record steady {
  status = record steady.status {
    conditions =
        condition ConditionType.primary_switched status_false ConditionReason.switch_primary
          (codes "Switching primary")
        ∷ [];
  };
}

abbrev masters : ℕ → Option (Bool × Bool)
masters i = some (true, false)

program : Unit {0}
unfolding itoa decimal decimal_from pod_name replication_of fill_with_defaults is_switching_primary
    latest lookup bytes_eq needs_configuration
program = tt

is_enabled : (replication_of switching).enabled ≡ true
unfolding program
is_enabled = refl

is_switching : is_switching_primary listed switching ≡ true
unfolding program
is_switching = refl

all_masters : (i : ℕ) (v : Bool × Bool) → some (true, false) ≡ some v → v.0 ≡ true
all_masters i v e = elim_pair v e
  where
    elim_pair : (v : Bool × Bool) → some (true, false) ≡ some v → v.0 ≡ true
    elim_pair (a, b) e = cc

reconcile-stalled_example :
    reconcile listed cluster healthy (observed masters switching) [] ≡ (ok no_requeue, [])
reconcile-stalled_example =
    reconcile-stalled listed cluster healthy masters switching [] is_enabled refl is_switching
      all_masters
