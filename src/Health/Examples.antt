-- ===== src/Health/Examples.antt =====
-- One of two Pods replicates.
use suture_port_mariadb_oper.Prelude.{refl, true, false, List, [], ◌∷◌, none, some, codes, pos, ok}
use suture_port_mariadb_oper.Api.{status_true, status_false, MariaDb, master, slave, no_replication}
use suture_port_mariadb_oper.Health.{Pod, is_healthy_replica, replica_pod_healthy_index}
use suture_port_mariadb_oper.Health.Choice.{Chosen, replica_pod_healthy_index-Chosen}

abbrev pods : List Pod
pods =
    record {
      name = codes "db-0";
      conditions = record { is_ready_type = true; status = status_false } ∷ [];
    }
    ∷ record {
      name = codes "db-1";
      conditions = record { is_ready_type = true; status = status_true } ∷ [];
    }
    ∷ []

abbrev mariadb : MariaDb
mariadb = record {
  metadata = record { name = codes "db"; namespace = codes "default" };
  suspend = false;
  replicas = 2;
  galera = none;
  replication = some (record no_replication { enabled = true });
  max_scale_ref = false;
  status = record {
    conditions = [];
    current_primary_pod_index = some (pos 0);
    current_primary = some (codes "db-0");
    current_primary_failing_since = none;
    replication_status = some ((codes "db-0", master) ∷ (codes "db-1", slave) ∷ []);
    galera_recovery = none;
  };
}

replica_pod_healthy_index-Chosen_example :
    Chosen (is_healthy_replica mariadb) (pos 0) pods (replica_pod_healthy_index (ok pods) mariadb)
replica_pod_healthy_index-Chosen_example =
    replica_pod_healthy_index-Chosen mariadb (pos 0) pods refl
