-- ===== src/Recovery/Keeping/Logs.antt =====
-- What the recovery keeps true of its log, up to the events that enable a bootstrap:
-- pkg/controller/galera/recovery.go.
use suture_port_mariadb_oper.Prelude.{
  ◌≡◌, Bool, true, not, List, [], Option, none, some, Bytes, bytes_eq, Result, ok, err, All,
}
use suture_port_mariadb_oper.Steps.{modify, wrap, run_if}
use suture_port_mariadb_oper.Steps.Keeps.{
  Keeps, Keeps-wrap, Keeps-both, Keeps-gets, Keeps-require, Keeps-modify, Keeps-bind, Keeps-then,
  Keeps-run_if,
}
use suture_port_mariadb_oper.Api.{MariaDb, GaleraRecoveryStatus}
use suture_port_mariadb_oper.RecoveryStatus.{
  BootstrapSource, SourceError, reset, set_pods_restarted,
}
use suture_port_mariadb_oper.Recovery.{
  Cluster, State, Error, failed, Pod, Event, tick, pod_deleted, bootstrap_enabled,
  bootstrap_disabled, replicas_patched, job_created, job_deleted, status_patched, set_rs,
}
use suture_port_mariadb_oper.Recovery.Recover.{
  start_bootstrap, mark_bootstrapping, recover_and_bootstrap, bootstrap_or_recover,
  recover_from_state, recover_forced, recover_cluster,
}
use suture_port_mariadb_oper.Recovery.Restart.{restart_from, restart_order}
use suture_port_mariadb_oper.Recovery.Reconcile.{reset_recovery, load_recovery}
use suture_port_mariadb_oper.Recovery.Keeping.{Calm, Scales, is_quiet, Keeps-patch_recovery_status}
use suture_port_mariadb_oper.Recovery.Keeping.Phases.{
  Keeps-get_galera_state, Keeps-find_source, Keeps-recover_galera_state,
}
use suture_port_mariadb_oper.Recovery.Keeping.Restarts.{IsIndexOf, Enables, Keeps-restart_each}

-- The event enables no bootstrap.
abbrev pub IsNotEnabled : Event → Type 0
IsNotEnabled (bootstrap_enabled i b done) = ⊥
IsNotEnabled _ = Unit {0}

-- A bootstrap that the event enables is the one of the source: in the Pod, and at the position.
abbrev pub IsEnabledBy : MariaDb → BootstrapSource → Event → Type 0
IsEnabledBy mdb src (bootstrap_enabled i b done) = IsIndexOf mdb src.pod i × (b ≡ src.bootstrap)
IsEnabledBy mdb src _ = Unit {0}

pub NotEnabled-EnabledBy :
    (mdb : MariaDb) (src : BootstrapSource) (e : Event) → IsNotEnabled e → IsEnabledBy mdb src e
NotEnabled-EnabledBy mdb src (bootstrap_enabled i b done) h = absurd h
NotEnabled-EnabledBy mdb src tick h = tt
NotEnabled-EnabledBy mdb src (pod_deleted pod done) h = tt
NotEnabled-EnabledBy mdb src (bootstrap_disabled i done) h = tt
NotEnabled-EnabledBy mdb src (replicas_patched n done) h = tt
NotEnabled-EnabledBy mdb src (job_created job done) h = tt
NotEnabled-EnabledBy mdb src (job_deleted job done) h = tt
NotEnabled-EnabledBy mdb src (status_patched status done) h = tt

pub quiet-NotEnabled : (e : Event) → is_quiet e ≡ true → IsNotEnabled e
quiet-NotEnabled (bootstrap_enabled i b done) q = cc
quiet-NotEnabled tick q = tt
quiet-NotEnabled (pod_deleted pod done) q = tt
quiet-NotEnabled (bootstrap_disabled i done) q = tt
quiet-NotEnabled (replicas_patched n done) q = tt
quiet-NotEnabled (job_created job done) q = tt
quiet-NotEnabled (job_deleted job done) q = tt
quiet-NotEnabled (status_patched status done) q = tt

-- What holds of every event that enables nothing is kept up to the restart of the Pods.
module _ (P : Event → Type 0) (harmless : (e : Event) → IsNotEnabled e → P e) where
  abbrev pub Logged : State → Type 0
  Logged s = All P s.log

  pub Logged-Calm : Calm Logged
  Logged-Calm = record {
    logs = λ e s q h. (harmless e (quiet-NotEnabled e q), h);
    states = λ pod g s h. h;
    recovers = λ pod b s h. h;
    writes = λ s done h. (harmless (status_patched _ done) tt, h);
  }

  pub Logged-Scales : Scales Logged
  Logged-Scales n b s h = (harmless (replicas_patched n b) tt, h)

  module _ (k : Cluster) (mdb : MariaDb) where
    Logged-start_bootstrap : (src : BootstrapSource) → Keeps Logged (start_bootstrap k src)
    unfolding start_bootstrap mark_bootstrapping
    Logged-start_bootstrap src =
        Keeps-then _ _ (Keeps-modify (mark_bootstrapping k src.pod) (λ s h. h))
          (Keeps-patch_recovery_status Logged-Calm k)

    Logged-recover_and_bootstrap :
        (pods : List Pod) → Keeps Logged (recover_and_bootstrap k mdb pods)
    unfolding recover_and_bootstrap
    Logged-recover_and_bootstrap pods =
        Keeps-then _ _
          (Keeps-wrap failed _ (
            Keeps-both _ _ (Keeps-recover_galera_state Logged-Calm k mdb Logged-Scales pods)
              (Keeps-patch_recovery_status Logged-Calm k)))
          (Keeps-bind _ _ (Keeps-find_source Logged-Calm k mdb none)
            (λ src. Keeps-wrap failed _ (Logged-start_bootstrap src)))

    Logged-bootstrap_or_recover :
        (pods : List Pod) (r : Result SourceError BootstrapSource)
        → Keeps Logged (bootstrap_or_recover k mdb pods r)
    unfolding bootstrap_or_recover
    Logged-bootstrap_or_recover pods (ok src) = Logged-start_bootstrap src
    Logged-bootstrap_or_recover pods (err e) = Logged-recover_and_bootstrap pods

    Logged-recover_forced :
        (pods : List Pod) (forced : Option Bytes) → Keeps Logged (recover_forced k mdb pods forced)
    unfolding recover_forced recover_from_state
    Logged-recover_forced pods none =
        Keeps-then _ _
          (Keeps-wrap failed _ (
            Keeps-both _ _ (Keeps-get_galera_state Logged-Calm k mdb pods)
              (Keeps-patch_recovery_status Logged-Calm k)))
          (Keeps-bind _ _ (Keeps-gets _) (Logged-bootstrap_or_recover pods))
    Logged-recover_forced pods (some forced) =
        Keeps-bind _ _ (Keeps-find_source Logged-Calm k mdb (some forced)) Logged-start_bootstrap

    pub Logged-recover_unless :
        (pods : List Pod) (b : Bool)
        → Keeps Logged (run_if (not b) (wrap failed (recover_cluster k mdb pods)))
    unfolding recover_cluster
    Logged-recover_unless pods b =
        Keeps-run_if (not b) _ (Keeps-wrap failed _ (Logged-recover_forced pods _))

    Logged-set_rs : (f : GaleraRecoveryStatus → GaleraRecoveryStatus) → Keeps Logged (set_rs f)
    unfolding set_rs modify
    Logged-set_rs f = record { at = λ s h. h }

    pub Logged-reset : (b : Bool) → Keeps Logged (run_if b (wrap failed (reset_recovery k)))
    unfolding reset_recovery
    Logged-reset b = Keeps-run_if b _ (
        Keeps-wrap failed _
          (Keeps-then _ _ (Logged-set_rs reset) (Keeps-patch_recovery_status Logged-Calm k)))

    pub Logged-load : Keeps {E = Error} Logged (modify (load_recovery mdb))
    unfolding load_recovery
    Logged-load = Keeps-modify (load_recovery mdb) (λ s h. h)

    pub Logged-restart_from :
        (src : BootstrapSource) → Enables mdb src Logged → Keeps Logged (restart_from k mdb src)
    unfolding restart_from
    Logged-restart_from src enables =
        Keeps-then _ _ (Keeps-require (not (bytes_eq src.pod [])) failed) (
          Keeps-then _ _
            (Keeps-restart_each Logged-Calm k mdb src enables (restart_order mdb src.pod))
            (Keeps-then _ _ (Logged-set_rs (λ rs. set_pods_restarted rs true))
              (Keeps-wrap failed _ (Keeps-patch_recovery_status Logged-Calm k))))
