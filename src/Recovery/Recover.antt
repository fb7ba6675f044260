-- ===== src/Recovery/Recover.antt =====
-- pkg/controller/galera/recovery.go: finding the Pod that bootstraps the cluster.
use suture_port_mariadb_oper.Prelude.{List, Option, none, some, Bytes, Result, ok, err}
use suture_port_mariadb_oper.Steps.{◌>>=◌, ◌>>◌, gets, modify, wrap, wrap_error, both}
use suture_port_mariadb_oper.Api.{MariaDb}
use suture_port_mariadb_oper.RecoveryStatus.{
  BootstrapSource, SourceError, bootstrap_source, set_bootstrapping,
}
use suture_port_mariadb_oper.Recovery.{
  Cluster, State, Action, failed, Pod, patch_recovery_status, recovery_of,
}
use suture_port_mariadb_oper.Recovery.States.{get_galera_state, recover_galera_state}

-- `rs.setBootstrapping(pod)`, at the time of the call.
unfoldable pub mark_bootstrapping : Cluster → Bytes → State → State
mark_bootstrapping k pod s = record s { rs = set_bootstrapping (k.now s.log) s.rs pod }

unfoldable pub start_bootstrap : Cluster → BootstrapSource → Action (Unit {0})
unfolding ◌>>◌ modify patch_recovery_status
start_bootstrap k src = modify (mark_bootstrapping k src.pod) >> patch_recovery_status k

unfoldable pub find_source : MariaDb → Option Bytes → Action BootstrapSource
unfolding wrap_error
find_source mdb forced s = (wrap_error failed (bootstrap_source s.rs mdb forced), s)

-- The steps when no source is known yet: the cluster is scaled down and each Pod recovered.
unfoldable pub recover_and_bootstrap : Cluster → MariaDb → List Pod → Action (Unit {0})
unfolding ◌>>=◌ ◌>>◌ wrap both recover_galera_state patch_recovery_status find_source
    start_bootstrap
recover_and_bootstrap k mdb pods = do
  wrap failed (both (recover_galera_state k mdb pods) (patch_recovery_status k))
  src ← find_source mdb none
  wrap failed (start_bootstrap k src)

unfoldable pub bootstrap_or_recover :
    Cluster → MariaDb → List Pod → Result SourceError BootstrapSource → Action (Unit {0})
unfolding start_bootstrap recover_and_bootstrap
bootstrap_or_recover k mdb pods (ok src) = start_bootstrap k src
bootstrap_or_recover k mdb pods (err e) = recover_and_bootstrap k mdb pods

unfoldable pub recover_from_state : Cluster → MariaDb → List Pod → Action (Unit {0})
unfolding ◌>>=◌ ◌>>◌ wrap both gets get_galera_state patch_recovery_status bootstrap_or_recover
recover_from_state k mdb pods = do
  wrap failed (both (get_galera_state k mdb pods) (patch_recovery_status k))
  found ← gets (λ s. bootstrap_source s.rs mdb none)
  bootstrap_or_recover k mdb pods found

unfoldable pub recover_forced : Cluster → MariaDb → List Pod → Option Bytes → Action (Unit {0})
unfolding ◌>>=◌ find_source start_bootstrap recover_from_state
recover_forced k mdb pods none = recover_from_state k mdb pods
recover_forced k mdb pods (some forced) = find_source mdb (some forced) >>= start_bootstrap k

unfoldable pub recover_cluster : Cluster → MariaDb → List Pod → Action (Unit {0})
unfolding recover_forced recovery_of
recover_cluster k mdb pods =
    recover_forced k mdb pods (recovery_of mdb).force_cluster_bootstrap_in_pod
