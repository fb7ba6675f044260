-- ===== src/Recovery/Transitions.antt =====
-- The parts of a recovery as moves of the machine of Machine.antt: pkg/controller/galera/recovery.go.
use suture_port_mariadb_oper.Prelude.{
  ◌≡◌, refl, ap, true, not, List, [], Option, none, some, Bytes, Result, ok, err, bytes_eq,
}
use suture_port_mariadb_oper.Steps.{resume, ◌>>=◌, ◌>>◌, modify, wrap}
use suture_port_mariadb_oper.Steps.Keeps.{Keeps, Keeps-wrap, Keeps-both, Keeps-gets, Keeps-require}
use suture_port_mariadb_oper.Steps.Triples.{
  Triple, Triple-weaken, Triple-wrap, Triple-always, Triple-kept,
}
use suture_port_mariadb_oper.Api.{MariaDb, GaleraRecoveryStatus}
use suture_port_mariadb_oper.RecoveryStatus.{
  BootstrapSource, SourceError, is_bootstrapping, pods_restarted, set_pods_restarted,
  set_bootstrapping, reset, is_set,
}
use suture_port_mariadb_oper.Recovery.{
  Cluster, State, Action, failed, Pod, patch_recovery_status, patch, set_rs, replicas_patched,
  bootstrap_enabled,
}
use suture_port_mariadb_oper.Recovery.Recover.{
  start_bootstrap, mark_bootstrapping, recover_and_bootstrap, bootstrap_or_recover,
  recover_from_state, recover_forced, recover_cluster,
}
use suture_port_mariadb_oper.Recovery.Restart.{restart_pods, restart_from, restart_order}
use suture_port_mariadb_oper.Recovery.Reconcile.{reset_recovery}
use suture_port_mariadb_oper.Recovery.Keeping.{Calm, Scales}
use suture_port_mariadb_oper.Recovery.Keeping.Phases.{
  Keeps-get_galera_state, Keeps-find_source, Keeps-recover_galera_state,
}
use suture_port_mariadb_oper.Recovery.Keeping.{Keeps-patch_recovery_status}
use suture_port_mariadb_oper.Recovery.Keeping.Restarts.{Enables, Keeps-restart_each}
use suture_port_mariadb_oper.Recovery.Machine.{
  Phase, idle, bootstrapping, restarted, Move, begin, finish, expire, phase_at, phase_of,
  idle-flags, bootstrapping-flags, IsCoherent, Synced, Synced-event, Synced-write, Synced-Calm,
}

module _ (start : Phase) where
  -- The recovery status is at some phase.
  abbrev pub Somewhere : State → Type 0
  Somewhere s = (p : Phase) × Synced start p s

  Synced-Scales : (p : Phase) → Scales (Synced start p)
  Synced-Scales p n b s h = Synced-event (replicas_patched n b) s h.refines.run refl h

  Synced-Enables :
      (p : Phase) (mdb : MariaDb) (src : BootstrapSource) → Enables mdb src (Synced start p)
  Synced-Enables p mdb src i b s _ h =
      Synced-event (bootstrap_enabled i src.bootstrap b) s h.refines.run refl h

  module _ (k : Cluster) where
    -- The recovery status is changed, and written.
    change :
        {p q : Phase} (f : State → GaleraRecoveryStatus)
        → ((s : State) → Synced start p s → IsCoherent (f s) × (phase_of (f s) ≡ q) × Move p q)
        → Triple
            (Synced start p)
            (modify (λ s. record s { rs = f s }) >> patch_recovery_status k)
            (λ _. Synced start q)
            (Synced start q)
    unfolding ◌>>◌ ◌>>=◌ modify patch_recovery_status patch
    change f h = Triple-always _ (λ s hs. let c = h s hs in Synced-write s (f s) _ hs c.0 c.1 c.2)

    begin_at :
        (pod : Bytes) (s : State)
        → Synced start idle s
        → IsCoherent (mark_bootstrapping k pod s).rs
          × (phase_of (mark_bootstrapping k pod s).rs ≡ bootstrapping)
          × Move idle bootstrapping
    unfolding mark_bootstrapping set_bootstrapping phase_of phase_at is_bootstrapping is_set
        pods_restarted
    begin_at pod s h =
        let flags = idle-flags (is_bootstrapping s.rs) (pods_restarted s.rs) h.coherent h.current in
        ((λ _. refl), ap (phase_at true) flags.1, begin)

    start_bootstrap-Synced :
        (src : BootstrapSource)
        → Triple
            (Synced start idle)
            (start_bootstrap k src)
            (λ _. Synced start bootstrapping)
            (Synced start bootstrapping)
    unfolding start_bootstrap mark_bootstrapping
    start_bootstrap-Synced src =
        change (λ s. (mark_bootstrapping k src.pod s).rs) (begin_at src.pod)

    pub reset_recovery-Synced :
        (p : Phase)
        → Triple (Synced start p) (reset_recovery k) (λ _. Synced start idle) (Synced start idle)
    unfolding reset_recovery set_rs reset phase_of phase_at is_bootstrapping is_set pods_restarted
    reset_recovery-Synced p = change {p = p} (λ s. reset s.rs) (λ s h. ((λ e. cc), refl, expire p))

    finish_at :
        (s : State)
        → Synced start bootstrapping s
        → IsCoherent (set_pods_restarted s.rs true)
          × (phase_of (set_pods_restarted s.rs true) ≡ restarted)
          × Move bootstrapping restarted
    unfolding set_pods_restarted phase_of is_bootstrapping pods_restarted
    finish_at s h =
        let flags = bootstrapping-flags (is_bootstrapping s.rs) (pods_restarted s.rs) h.current in
        ((λ _. flags.0), ap (λ b. phase_at b true) flags.0, finish)

    module _ (mdb : MariaDb) where
      pub kept :
          {A B : Type 0} {Q : B → State → Type 0} (p : Phase) (m : Action A) (n : A → Action B)
          → Keeps (Synced start p) m
          → ((a : A) → Triple (Synced start p) (n a) Q Somewhere)
          → Triple (Synced start p) (m >>= n) Q Somewhere
      kept p m n h hn = Triple-kept m n h (λ s hs. (p, hs)) hn

      started :
          (src : BootstrapSource)
          → Triple
              (Synced start idle)
              (start_bootstrap k src)
              (λ _. Synced start bootstrapping)
              Somewhere
      started src =
          Triple-weaken (start_bootstrap k src) (λ s h. h) (λ a s h. h) (λ s h. (bootstrapping, h))
            (start_bootstrap-Synced src)

      calm : Calm (Synced start idle)
      calm = Synced-Calm

      recover_and_bootstrap-Synced :
          (pods : List Pod)
          → Triple
              (Synced start idle)
              (recover_and_bootstrap k mdb pods)
              (λ _. Synced start bootstrapping)
              Somewhere
      unfolding recover_and_bootstrap ◌>>◌
      recover_and_bootstrap-Synced pods =
          kept idle _ _
            (Keeps-wrap failed _ (
              Keeps-both _ _ (Keeps-recover_galera_state calm k mdb (Synced-Scales idle) pods)
                (Keeps-patch_recovery_status calm k)))
            (λ _.
              kept idle _ _ (Keeps-find_source calm k mdb none)
                (λ src. Triple-wrap failed (start_bootstrap k src) (started src)))

      bootstrap_or_recover-Synced :
          (pods : List Pod) (r : Result SourceError BootstrapSource)
          → Triple
              (Synced start idle)
              (bootstrap_or_recover k mdb pods r)
              (λ _. Synced start bootstrapping)
              Somewhere
      unfolding bootstrap_or_recover
      bootstrap_or_recover-Synced pods (ok src) = started src
      bootstrap_or_recover-Synced pods (err e) = recover_and_bootstrap-Synced pods

      recover_forced-Synced :
          (pods : List Pod) (forced : Option Bytes)
          → Triple
              (Synced start idle)
              (recover_forced k mdb pods forced)
              (λ _. Synced start bootstrapping)
              Somewhere
      unfolding recover_forced recover_from_state ◌>>◌
      recover_forced-Synced pods none =
          kept idle _ _
            (Keeps-wrap failed _ (
              Keeps-both _ _ (Keeps-get_galera_state calm k mdb pods)
                (Keeps-patch_recovery_status calm k)))
            (λ _. kept idle _ _ (Keeps-gets _) (bootstrap_or_recover-Synced pods))
      recover_forced-Synced pods (some forced) =
          kept idle _ _ (Keeps-find_source calm k mdb (some forced)) started

      pub recover_cluster-Synced :
          (pods : List Pod)
          → Triple
              (Synced start idle)
              (recover_cluster k mdb pods)
              (λ _. Synced start bootstrapping)
              Somewhere
      unfolding recover_cluster
      recover_cluster-Synced pods = recover_forced-Synced pods _

      finished :
          Triple
            (Synced start bootstrapping)
            (set_rs (λ rs. set_pods_restarted rs true) >> wrap failed (patch_recovery_status k))
            (λ _. Synced start restarted)
            Somewhere
      unfolding set_rs ◌>>◌ ◌>>=◌ resume wrap modify patch_recovery_status patch
      finished =
          Triple-weaken _ (λ s h. h) (λ a s h. h) (λ s h. (restarted, h))
            (Triple-always _ (λ s h.
              let c = finish_at s h in
              Synced-write s (set_pods_restarted s.rs true) _ h c.0 c.1 c.2))

      restart_from-Synced :
          (src : BootstrapSource)
          → Triple
              (Synced start bootstrapping)
              (restart_from k mdb src)
              (λ _. Synced start restarted)
              Somewhere
      unfolding restart_from ◌>>◌
      restart_from-Synced src =
          kept bootstrapping _ _ (Keeps-require (not (bytes_eq src.pod [])) failed) (λ _.
            kept bootstrapping _ _
              (Keeps-restart_each Synced-Calm k mdb src (Synced-Enables bootstrapping mdb src)
                (restart_order mdb src.pod))
              (λ _. finished))

      pub restart_pods-Synced :
          Triple
            (Synced start bootstrapping)
            (restart_pods k mdb)
            (λ _. Synced start restarted)
            Somewhere
      unfolding restart_pods
      restart_pods-Synced =
          kept bootstrapping _ _ (Keeps-find_source Synced-Calm k mdb _) restart_from-Synced
