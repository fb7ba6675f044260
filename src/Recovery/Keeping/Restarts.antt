-- ===== src/Recovery/Keeping/Restarts.antt =====
-- What restarting the Pods keeps true: bootstrap is enabled by the client of the source only.
use suture_port_mariadb_oper.Prelude.{
  ◌≡◌, refl, if◌then◌else◌, Bool, true, false, Bytes, bytes_eq, ℤ, Result, ok, err, List,
}
use suture_port_mariadb_oper.Steps.{lift, wrap_error, wrap, for_each}
use suture_port_mariadb_oper.Steps.Keeps.{Keeps, Keeps-then, Keeps-wrap, Keeps-for_each}
use suture_port_mariadb_oper.Steps.Returns.{
  Meets, Returns, Returns-give, Returns-lift, Returns-bind, Returns-require, Returns-then,
  Keeps-bind_of,
}
use suture_port_mariadb_oper.StatefulSet.{pod_index, NameError}
use suture_port_mariadb_oper.Api.{MariaDb}
use suture_port_mariadb_oper.RecoveryStatus.{BootstrapSource}
use suture_port_mariadb_oper.Recovery.{
  Cluster, State, Error, failed, bootstrap_enabled, record_event, client_for_index, client_for_pod,
  valid_index,
}
use suture_port_mariadb_oper.Recovery.Restart.{
  enable_in_healthy_pod, enable_bootstrap_with_source, disable_bootstrap_in_pod, set_bootstrap,
  restart_pod, pod_sync_timeout,
}
use suture_port_mariadb_oper.Recovery.Keeping.{
  Calm, Keeps-call, Keeps-poll_with_mariadb, Keeps-client_for_pod, Keeps-ensure_pod_healthy,
}
use suture_port_mariadb_oper.Recovery.Keeping.Phases.{
  Keeps-disable_bootstrap_in_pod, Keeps-delete_and_sync,
}

-- The index of the Pod, within the replicas.
abbrev pub IsIndexOf : MariaDb → Bytes → ℤ → Type 0
IsIndexOf mdb pod i = (pod_index pod ≡ ok i) × (valid_index mdb i ≡ true)

Returns-client_for_index :
    (k : Cluster) (mdb : MariaDb) (pod : Bytes) (i : ℤ)
    → pod_index pod ≡ ok i
    → Returns (IsIndexOf mdb pod) (client_for_index k mdb i)
unfolding client_for_index
Returns-client_for_index k mdb pod i e =
    Returns-require (valid_index mdb i) failed _ (λ v. Returns-then _ _ (Returns-give i (e, v)))

pub Returns-client_for_pod :
    (k : Cluster) (mdb : MariaDb) (pod : Bytes)
    → Returns (IsIndexOf mdb pod) (client_for_pod k mdb pod)
unfolding client_for_pod
Returns-client_for_pod k mdb pod =
    Returns-bind (λ i. pod_index pod ≡ ok i) (lift (wrap_error failed (pod_index pod)))
      (client_for_index k mdb) (Returns-lift _ (go (pod_index pod) refl))
      (λ i e. Returns-client_for_index k mdb pod i e)
  where
    go :
        (r : Result NameError ℤ)
        → pod_index pod ≡ r
        → Meets {E = Error} (λ i. pod_index pod ≡ ok i) (wrap_error failed r)
    go (ok i) e = e
    go (err x) e = tt

-- Enabling bootstrap in the source keeps `I`.
abbrev pub Enables : MariaDb → BootstrapSource → (State → Type 0) → Type 0
Enables mdb src I =
    (i : ℤ) (done : Bool) (s : State)
    → IsIndexOf mdb src.pod i
    → I s
    → I (record_event s (bootstrap_enabled i src.bootstrap done))

module _ {I : State → Type 0} (calm : Calm I) (k : Cluster) (mdb : MariaDb) (src : BootstrapSource)
    (enables : Enables mdb src I) where
  Keeps-enable_in_healthy_pod :
      (i : ℤ) → IsIndexOf mdb src.pod i → Keeps I (enable_in_healthy_pod k mdb src i)
  unfolding enable_in_healthy_pod
  Keeps-enable_in_healthy_pod i h =
      Keeps-then _ _ (Keeps-ensure_pod_healthy calm k mdb (pod_sync_timeout mdb) src.pod)
        (Keeps-call _ (bootstrap_enabled i src.bootstrap) (λ done s hs. enables i done s h hs))

  Keeps-enable_bootstrap_with_source : Keeps I (enable_bootstrap_with_source k mdb src)
  unfolding enable_bootstrap_with_source
  Keeps-enable_bootstrap_with_source =
      Keeps-bind_of (IsIndexOf mdb src.pod) (client_for_pod k mdb src.pod) _
        (Keeps-client_for_pod calm k mdb src.pod) (Returns-client_for_pod k mdb src.pod)
        (λ i h. Keeps-wrap failed _ (
          Keeps-poll_with_mariadb calm k (pod_sync_timeout mdb) _
            (Keeps-enable_in_healthy_pod i h)))

  Keeps-set_bootstrap : (pod : Bytes) → Keeps I (set_bootstrap k mdb src pod)
  unfolding set_bootstrap
  Keeps-set_bootstrap pod = go (bytes_eq pod src.pod)
    where
      go :
          (b : Bool)
          → Keeps I (
              if b
              then wrap failed (enable_bootstrap_with_source k mdb src)
              else wrap failed (disable_bootstrap_in_pod k mdb pod))
      go true = Keeps-wrap failed _ Keeps-enable_bootstrap_with_source
      go false = Keeps-wrap failed _ (Keeps-disable_bootstrap_in_pod calm k mdb pod)

  Keeps-restart_pod : (pod : Bytes) → Keeps I (restart_pod k mdb src pod)
  unfolding restart_pod
  Keeps-restart_pod pod = Keeps-then _ _ (Keeps-set_bootstrap pod) (
      Keeps-wrap failed _ (
        Keeps-poll_with_mariadb calm k (pod_sync_timeout mdb) _
          (Keeps-delete_and_sync calm k mdb pod)))

  pub Keeps-restart_each : (pods : List Bytes) → Keeps I (for_each (restart_pod k mdb src) pods)
  Keeps-restart_each pods = Keeps-for_each (restart_pod k mdb src) pods Keeps-restart_pod
