-- ===== src/Recovery/Examples.antt =====
-- The recovery of a Galera cluster of two Pods with a forced bootstrap.
use suture_port_mariadb_oper.Prelude.{
  ◌≡◌, refl, true, false, List, [], ◌∷◌, none, some, codes, bytes_eq, bytes_lt, inl, inr, pos, ok,
  err, arith,
}
use suture_port_mariadb_oper.Text.{itoa, decimal, decimal_from}
use suture_port_mariadb_oper.StatefulSet.{pod_name}
use suture_port_mariadb_oper.Api.{
  MariaDb, MariaDbStatus, GaleraRecovery, no_recovery_status, is_galera_enabled,
}
use suture_port_mariadb_oper.RecoveryStatus.{
  get_pod_names, pod_names_from, is_bootstrapping, pods_restarted, is_set,
}
use suture_port_mariadb_oper.Recovery.{Cluster, State, Error, Pod, failed, recovery_of}
use suture_port_mariadb_oper.Recovery.Pods.{
  sort_pods, insert_pod, scheduled_pods, patch_stateful_set_replicas,
}
use suture_port_mariadb_oper.Recovery.States.{recover_galera_state}
use suture_port_mariadb_oper.Recovery.Reconcile.{is_nil, done, reconcile_recovery}
use suture_port_mariadb_oper.Recovery.Machine.{
  idle, restarted, status_phase, Refines, phase_of, phase_at,
}
use suture_port_mariadb_oper.Recovery.Refinement.{reconcile_recovery-Refines}
use suture_port_mariadb_oper.Recovery.OneSource.{HasOneSource, reconcile_recovery-HasOneSource}
use suture_port_mariadb_oper.Recovery.Scaling.{
  AsksFor, downscale_timeout, recover_galera_state-scales,
}
use suture_port_mariadb_oper.Recovery.Forced.{IsSmooth}
use suture_port_mariadb_oper.Recovery.Forced.Completes.{IsForced, reconcile_recovery-completes}

abbrev status : MariaDbStatus
status = record {
  conditions = [];
  current_primary_pod_index = none;
  current_primary = none;
  replication_status = none;
  current_primary_failing_since = none;
  galera_recovery = none;
}

abbrev recovery : GaleraRecovery
recovery = record {
  cluster_bootstrap_timeout = none;
  cluster_upscale_timeout = none;
  cluster_downscale_timeout = none;
  pod_recovery_timeout = none;
  pod_sync_timeout = none;
  force_cluster_bootstrap_in_pod = some (codes "db-1");
}

abbrev mariadb : MariaDb
mariadb = record {
  metadata = record { name = codes "db"; namespace = codes "default" };
  suspend = false;
  replicas = 2;
  galera = some (record { enabled = true; primary_pod_index = none; recovery = some recovery });
  replication = none;
  max_scale_ref = false;
  status = status;
}

abbrev pods : List Pod
pods =
    record { name = codes "db-1"; node_name = codes "node" }
    ∷ record { name = codes "db-0"; node_name = codes "node" }
    ∷ []

-- Every call succeeds, but the agents know no state and no Job is there.
abbrev cluster : Cluster
cluster = record {
  now = λ log. pos 7;
  rounds = λ log ctx. 1;
  get_mariadb = λ log. none;
  get_stateful_set = λ log. ok (record { replicas = 2; ready_replicas = 2 });
  patch_replicas = λ log n. none;
  list_pods = λ log. ok pods;
  get_pod_phase = λ log pod. ok (codes "Running");
  delete_pod = λ log pod. none;
  build_job = λ pod. none;
  get_job = λ log job. err failed;
  create_job = λ log job. none;
  delete_job = λ log job. none;
  list_job_pods = λ log job. ok [];
  read_logs = λ log pod. err failed;
  uuid_ok = λ u. true;
  read_secrets = λ log. none;
  new_client = λ i. none;
  health = λ log i. ok true;
  get_state = λ log i. err failed;
  enable_bootstrap = λ log i b. none;
  disable_bootstrap = λ log i. none;
  sql_client = λ log i. none;
  galera_cluster_status = λ log i. ok (codes "Primary");
  galera_local_state = λ log i. ok (codes "Synced");
  patch_status = λ log s. none;
  schedule = λ log names. names;
}

abbrev start : State
start = record { rs = no_recovery_status; status = status; log = [] }

start-Refines : Refines idle start
unfolding phase_of phase_at is_bootstrapping pods_restarted is_set
start-Refines = record { coherent = λ e. cc; run = tt; last = refl }

smooth : IsSmooth cluster
smooth = record {
  runs = λ log pod. refl;
  heals = λ log i. refl;
  enables = λ log i b. refl;
  disables = λ log i. refl;
  deletes = λ log pod. refl;
  connects = λ log i. refl;
  primary = λ log i. refl;
  synced = λ log i. refl;
  patches = λ log s. refl;
  makes_clients = λ i. refl;
  reads_secrets = λ log. refl;
}

forced : IsForced cluster mariadb (codes "db-1")
unfolding is_galera_enabled recovery_of get_pod_names pod_names_from pod_name itoa decimal
    decimal_from sort_pods insert_pod scheduled_pods bytes_eq bytes_lt is_nil
forced = record {
  enabled = refl;
  forces = refl;
  listed = inr (inl refl);
  bounded = omega arith;
  scheduled = λ log. (pods, refl, refl);
}

reconcile_recovery-Refines_example :
    Refines idle (reconcile_recovery cluster mariadb start).1
    × ((reconcile_recovery cluster mariadb start).0 ≡ ok done
        → status_phase (reconcile_recovery cluster mariadb start).1.status ≡ restarted)
reconcile_recovery-Refines_example =
    reconcile_recovery-Refines idle cluster mariadb start start-Refines

reconcile_recovery-HasOneSource_example :
    HasOneSource mariadb (reconcile_recovery cluster mariadb start).1
reconcile_recovery-HasOneSource_example = reconcile_recovery-HasOneSource cluster mariadb start tt

-- The StatefulSet keeps its two replicas, so the wait for none of them ends with the context.
recover_galera_state-scales_example :
    let down = patch_stateful_set_replicas cluster (downscale_timeout mariadb) 0 start in
    let r = recover_galera_state cluster mariadb pods start in
    (down.0 ≡ ok tt → AsksFor 2 r.1)
    × ((e : Error) → down.0 ≡ err e → (r.0 ≡ err failed) × AsksFor 0 r.1)
recover_galera_state-scales_example =
    recover_galera_state-scales cluster mariadb pods start (λ log. (_, refl))

reconcile_recovery-completes_example :
    ((reconcile_recovery cluster mariadb start).0 ≡ ok done)
    × (status_phase (reconcile_recovery cluster mariadb start).1.status ≡ restarted)
reconcile_recovery-completes_example =
    reconcile_recovery-completes idle cluster mariadb (codes "db-1") start smooth forced
      start-Refines
