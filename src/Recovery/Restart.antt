-- ===== src/Recovery/Restart.antt =====
-- pkg/controller/galera/recovery.go: bootstrapping the cluster by restarting its Pods in order.
use suture_port_mariadb_oper.Prelude.{
  true, not, List, [], ◌∷◌, Bytes, bytes_eq, ℤ, Result, ok, err, if◌then◌else◌,
}
use suture_port_mariadb_oper.Steps.{◌>>=◌, ◌>>◌, give, fail, wrap, require, for_each}
use suture_port_mariadb_oper.Api.{MariaDb, deref}
use suture_port_mariadb_oper.RecoveryStatus.{BootstrapSource, get_pod_names, set_pods_restarted}
use suture_port_mariadb_oper.Recovery.{
  Cluster, Action, Error, not_found, failed, call, set_rs, client_for_pod, bootstrap_enabled,
  bootstrap_disabled, patch_recovery_status, recovery_of, five_minutes,
}
use suture_port_mariadb_oper.Recovery.Polls.{poll_with_mariadb}
use suture_port_mariadb_oper.Recovery.Pods.{
  ensure_pod_healthy, poll_until_pod_deleted, poll_until_pod_synced,
}
use suture_port_mariadb_oper.Recovery.Recover.{find_source}

unfoldable pub pod_sync_timeout : MariaDb → ℤ
unfolding recovery_of
pod_sync_timeout mdb = deref (recovery_of mdb).pod_sync_timeout five_minutes

unfoldable pub enable_in_healthy_pod : Cluster → MariaDb → BootstrapSource → ℤ → Action (Unit {0})
unfolding ◌>>◌ ensure_pod_healthy call pod_sync_timeout
enable_in_healthy_pod k mdb src client = do
  ensure_pod_healthy k mdb (pod_sync_timeout mdb) src.pod
  call (λ log. k.enable_bootstrap log client src.bootstrap) (bootstrap_enabled client src.bootstrap)

unfoldable pub enable_bootstrap_with_source :
    Cluster → MariaDb → BootstrapSource → Action (Unit {0})
unfolding ◌>>=◌ wrap client_for_pod poll_with_mariadb enable_in_healthy_pod
enable_bootstrap_with_source k mdb src = do
  client ← client_for_pod k mdb src.pod
  wrap failed (poll_with_mariadb k (pod_sync_timeout mdb) (enable_in_healthy_pod k mdb src client))

-- `err != nil && !IsNotFound(err)`.
unfoldable pub allow_not_found : Result Error (Unit {0}) → Action (Unit {0})
unfolding give fail
allow_not_found (ok _) = give tt
allow_not_found (err not_found) = give tt
allow_not_found (err failed) = fail failed

-- `DisableBootstrap` of an agent; nothing to disable is no error.
unfoldable pub disable_at : Cluster → ℤ → Action (Unit {0})
unfolding call allow_not_found
disable_at k client s =
    let r = call (λ log. k.disable_bootstrap log client) (bootstrap_disabled client) s in
    allow_not_found r.0 r.1

unfoldable pub disable_in_healthy_pod : Cluster → MariaDb → Bytes → ℤ → Action (Unit {0})
unfolding ◌>>◌ ensure_pod_healthy disable_at pod_sync_timeout
disable_in_healthy_pod k mdb pod client =
    ensure_pod_healthy k mdb (pod_sync_timeout mdb) pod >> disable_at k client

unfoldable pub disable_bootstrap_in_pod : Cluster → MariaDb → Bytes → Action (Unit {0})
unfolding ◌>>=◌ wrap client_for_pod poll_with_mariadb disable_in_healthy_pod
disable_bootstrap_in_pod k mdb pod = do
  client ← client_for_pod k mdb pod
  wrap failed (poll_with_mariadb k (pod_sync_timeout mdb) (disable_in_healthy_pod k mdb pod client))

-- The function that is polled while a Pod restarts.
unfoldable pub delete_and_sync : Cluster → MariaDb → Bytes → Action (Unit {0})
unfolding ◌>>◌ wrap poll_until_pod_deleted poll_until_pod_synced pod_sync_timeout
delete_and_sync k mdb pod =
    wrap failed (poll_until_pod_deleted k (pod_sync_timeout mdb) pod)
    >> wrap failed (poll_until_pod_synced k (pod_sync_timeout mdb) pod)

-- Bootstrap is enabled in the source, and disabled in every other Pod.
unfoldable pub set_bootstrap : Cluster → MariaDb → BootstrapSource → Bytes → Action (Unit {0})
unfolding wrap enable_bootstrap_with_source disable_bootstrap_in_pod
set_bootstrap k mdb src pod =
    if bytes_eq pod src.pod
    then wrap failed (enable_bootstrap_with_source k mdb src)
    else wrap failed (disable_bootstrap_in_pod k mdb pod)

unfoldable pub restart_pod : Cluster → MariaDb → BootstrapSource → Bytes → Action (Unit {0})
unfolding ◌>>◌ wrap set_bootstrap poll_with_mariadb delete_and_sync pod_sync_timeout
restart_pod k mdb src pod =
    set_bootstrap k mdb src pod
    >> wrap failed (poll_with_mariadb k (pod_sync_timeout mdb) (delete_and_sync k mdb pod))

unfoldable pub other_pods : Bytes → List Bytes → List Bytes
other_pods pod [] = []
other_pods pod (p ∷ ps) = let rest = other_pods pod ps in if bytes_eq p pod then rest else p ∷ rest

-- The source first, and then the other Pods by their index.
unfoldable pub restart_order : MariaDb → Bytes → List Bytes
unfolding other_pods
restart_order mdb pod = pod ∷ other_pods pod (get_pod_names mdb)

unfoldable pub restart_from : Cluster → MariaDb → BootstrapSource → Action (Unit {0})
unfolding ◌>>◌ require for_each wrap set_rs restart_pod restart_order patch_recovery_status
restart_from k mdb src = do
  require (not (bytes_eq src.pod [])) failed
  for_each (restart_pod k mdb src) (restart_order mdb src.pod)
  set_rs (λ rs. set_pods_restarted rs true)
  wrap failed (patch_recovery_status k)

unfoldable pub restart_pods : Cluster → MariaDb → Action (Unit {0})
unfolding ◌>>=◌ find_source restart_from recovery_of
restart_pods k mdb =
    find_source mdb (recovery_of mdb).force_cluster_bootstrap_in_pod >>= restart_from k mdb
