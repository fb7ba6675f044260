-- ===== src/GaleraInit/Examples.antt =====
-- A Galera cluster that starts for the first time, and one whose storage is there already.
use suture_port_mariadb_oper.Prelude.{refl, Bool, true, false, List, [], ◌∷◌, none, some, codes, ok}
use suture_port_mariadb_oper.Jobs.{Job, job_complete, is_job_complete, is_status_true}
use suture_port_mariadb_oper.Api.{MariaDb, MariaDbStatus, status_true}
use suture_port_mariadb_oper.Steps.{
  ◌>>=◌, ◌>>◌, wrap, wrap_error, ask, gets, give, resume, to_result, is_none,
}
use suture_port_mariadb_oper.Api.Conditions.{
  has_galera_configured_condition, is_galera_initialized, is_initialized, is_galera_initializing,
  set_condition,
}
use suture_port_mariadb_oper.Conditions.{set_galera_initializing, set_galera_initialized}
use suture_port_mariadb_oper.Conditions.Listed.{listed, latest}
use suture_port_mariadb_oper.GaleraInit.{
  InitCluster, InitState, reconcile_init, reconcile_init_of, is_init_done, check_storage,
  start_init, patch_init, init_call, check_init_job, init_cleanup, delete_found_job,
  delete_found_config_map, reconcile_init_config_map, reconcile_found_config_map,
  initialized_status, initializing_status, ignore_not_found, all_bound,
}
use suture_port_mariadb_oper.GaleraInit.Bootstrapped.{
  SeenComplete, is_recorded, reconcile_init-Bootstrapped,
}
use suture_port_mariadb_oper.GaleraInit.Adopted.{Checked, reconcile_init-adopted}

abbrev status : MariaDbStatus
status = record {
  conditions = [];
  current_primary_pod_index = none;
  current_primary = none;
  replication_status = none;
  current_primary_failing_since = none;
  galera_recovery = none;
}

abbrev mariadb : MariaDb
mariadb = record {
  metadata = record { name = codes "db"; namespace = codes "default" };
  suspend = false;
  replicas = 3;
  galera = some (record { enabled = true; primary_pod_index = none; recovery = none });
  replication = none;
  max_scale_ref = false;
  status = status;
}

abbrev complete : Job
complete = record { type = job_complete; status = status_true } ∷ []

-- Every call succeeds, and the Job is complete.
abbrev cluster : List Bool → InitCluster
cluster volumes = record {
  storage_volumes = λ log. ok volumes;
  reconcile_volume = λ log. none;
  init_config_map = λ log. ok tt;
  reconcile_config_map = λ log. none;
  init_job = λ log. ok complete;
  create_job = λ log. none;
  delete_job = λ log. none;
  delete_config_map = λ log. none;
  patch_status = λ log status. none;
}

abbrev start : InitState
start = record { status = status; log = [] }

reconcile_init-Bootstrapped_example : SeenComplete (cluster [])
unfolding is_recorded latest reconcile_init reconcile_init_of is_init_done check_storage start_init
    patch_init init_call check_init_job init_cleanup delete_found_job delete_found_config_map
    reconcile_init_config_map reconcile_found_config_map initialized_status initializing_status
    ignore_not_found all_bound ◌>>=◌ ◌>>◌ wrap wrap_error ask gets give resume to_result is_none
    has_galera_configured_condition is_galera_initialized is_initialized is_galera_initializing
    set_condition set_galera_initializing set_galera_initialized is_job_complete is_status_true
reconcile_init-Bootstrapped_example =
    reconcile_init-Bootstrapped (cluster []) listed mariadb start refl refl

reconcile_init-adopted_example :
    Checked
      (cluster (true ∷ []))
      listed
      start
      (true ∷ [])
      (reconcile_init (cluster (true ∷ [])) listed mariadb start)
unfolding latest is_init_done all_bound is_none has_galera_configured_condition
    is_galera_initialized is_initialized is_galera_initializing
reconcile_init-adopted_example =
    reconcile_init-adopted (cluster (true ∷ [])) listed start mariadb true [] refl refl refl
