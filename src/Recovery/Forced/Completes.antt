-- ===== src/Recovery/Forced/Completes.antt =====
-- A reconciliation with a forced bootstrap, from its start to its end:
-- pkg/controller/galera/recovery.go.
use suture_port_mariadb_oper.Prelude.{
  ◌≡◌, refl, sym, subst, ap, ◌≤◌, true, false, not, List, [], none, some, Bytes, bytes_eq,
  bytes_eq_sound, Bool-cases, inl, inr, Result, ok, err, In, All-of_In,
}
use suture_port_mariadb_oper.Text.{int_limit, split, atoi}
use suture_port_mariadb_oper.Steps.{resume, ◌>>=◌, ◌>>◌, give, wrap, wrap_error, to_result}
use suture_port_mariadb_oper.Steps.Succeeds.{
  IsOk, Succeeds, Succeeds-gets, Succeeds-wrap, IsOk-to_result, Succeeds-bind_of, Succeeds-bind,
  Succeeds-then, Succeeds-modify, Succeeds-run_if, Succeeds-require,
}
use suture_port_mariadb_oper.StatefulSet.{pod_index}
use suture_port_mariadb_oper.Api.{MariaDb, is_galera_enabled}
use suture_port_mariadb_oper.RecoveryStatus.{
  BootstrapSource, bootstrap_source, get_pod_names, reset,
}
use suture_port_mariadb_oper.RecoveryStatus.Source.{bootstrap_source-forced}
use suture_port_mariadb_oper.Recovery.{
  Cluster, State, Action, Error, failed, Pod, Log, recovery_of, query,
}
use suture_port_mariadb_oper.Recovery.Pods.{get_pods, sort_pods, scheduled_pods}
use suture_port_mariadb_oper.Recovery.Recover.{
  start_bootstrap, mark_bootstrapping, find_source, recover_forced, recover_cluster,
}
use suture_port_mariadb_oper.Recovery.Restart.{restart_pods, restart_from}
use suture_port_mariadb_oper.Recovery.Reconcile.{
  done, reconcile_recovery, recover, advance, reset_recovery, load_recovery, restart_unless,
  recover_unless, reset_and_advance, recover_loaded, new_agent_client_set, is_nil,
}
use suture_port_mariadb_oper.Recovery.Forced.Names.{IsPodOf, get_pod_names-IsPodOf}
use suture_port_mariadb_oper.Recovery.Forced.{
  IsSmooth, Succeeds-patch, Succeeds-set_rs, Succeeds-restart_from, Succeeds-query,
}
use suture_port_mariadb_oper.Recovery.Machine.{Phase, restarted, status_phase, Refines}
use suture_port_mariadb_oper.Recovery.Refinement.{reconcile_recovery-Refines}

-- The empty name has no index.
not_empty : (mdb : MariaDb) (pod : Bytes) → IsPodOf mdb pod → bytes_eq pod [] ≡ false
unfolding pod_index split atoi
not_empty mdb pod h = elim (Bool-cases (bytes_eq pod [])) [
  | inl e ↦ cc (subst (λ p. pod_index p ≡ ok h.0) (bytes_eq_sound pod [] e) h.1.0)
  | inr e ↦ e
]

-- A bootstrap is forced in a Pod of a Galera cluster with scheduled Pods.
pub record IsForced (k : Cluster) (mdb : MariaDb) (forced : Bytes) : Type 0 where
  pub enabled : is_galera_enabled mdb ≡ true
  pub forces : (recovery_of mdb).force_cluster_bootstrap_in_pod ≡ some forced
  pub listed : In forced (get_pod_names mdb)
  pub bounded : mdb.replicas ≤ int_limit
  pub scheduled :
      (log : Log)
      → (items : List Pod) × (k.list_pods log ≡ ok items)
        × (is_nil (sort_pods (scheduled_pods items)) ≡ false)

module _ (k : Cluster) (smooth : IsSmooth k) (mdb : MariaDb) (forced : Bytes)
    (force : IsForced k mdb forced) where
  source : BootstrapSource
  source = record { bootstrap = none; pod = forced }

  named : IsPodOf mdb forced
  named =
      All-of_In (IsPodOf mdb) (get_pod_names mdb) (get_pod_names-IsPodOf mdb force.bounded)
        force.listed

  found : (s : State) → bootstrap_source s.rs mdb (some forced) ≡ ok source
  unfolding source
  found s = elim (bootstrap_source-forced s.rs mdb forced) [
    | inl h ↦ h.1
    | inr h ↦ absurd (h.0 force.listed)
  ]

  -- The source is the forced Pod, whatever the recovery status is.
  with_source :
      (n : BootstrapSource → Action (Unit {0}))
      → Succeeds (n source)
      → Succeeds (find_source mdb (some forced) >>= n)
  unfolding find_source
  with_source n t =
      Succeeds-bind_of (λ x. x ≡ source) (find_source mdb (some forced)) n
        (λ s. (source, ap (wrap_error failed) (found s), refl))
        (λ x e. subst (λ y. Succeeds (n y)) (sym e) t)

  Succeeds-recover_cluster : (pods : List Pod) → Succeeds (recover_cluster k mdb pods)
  unfolding recover_cluster recover_forced start_bootstrap
  Succeeds-recover_cluster pods = rw force.forces (
      with_source (start_bootstrap k) (
        Succeeds-then _ _ (Succeeds-modify (mark_bootstrapping k source.pod))
          (Succeeds-patch k smooth mdb)))

  Succeeds-restart_pods : Succeeds (restart_pods k mdb)
  unfolding restart_pods source
  Succeeds-restart_pods = rw force.forces (
      with_source (restart_from k mdb) (
        Succeeds-restart_from k smooth mdb source (not_empty mdb forced named) named force.bounded))

  Succeeds-advance : (pods : List Pod) → Succeeds (advance k mdb pods)
  unfolding advance recover_unless restart_unless
  Succeeds-advance pods = Succeeds-bind _ (recover_unless k mdb pods) (Succeeds-gets _) (λ b.
      Succeeds-then _ _
        (Succeeds-run_if (not b) _ (Succeeds-wrap failed _ (Succeeds-recover_cluster pods)))
        (Succeeds-bind _ (restart_unless k mdb) (Succeeds-gets _)
          (λ r. Succeeds-run_if (not r) _ (Succeeds-wrap failed _ Succeeds-restart_pods))))

  Succeeds-recover_loaded : (pods : List Pod) → Succeeds (recover_loaded k mdb pods)
  unfolding recover_loaded reset_and_advance reset_recovery
  Succeeds-recover_loaded pods =
      Succeeds-bind _ (reset_and_advance k mdb pods) (Succeeds-gets _) (λ b.
        Succeeds-then _ _
          (Succeeds-run_if b _ (
            Succeeds-wrap failed _ (
              Succeeds-then _ _ (Succeeds-set_rs k smooth mdb reset)
                (Succeeds-patch k smooth mdb))))
          (Succeeds-advance pods))

  Succeeds-recover : (pods : List Pod) → Succeeds (recover k mdb pods)
  unfolding recover new_agent_client_set
  Succeeds-recover pods =
      Succeeds-then _ _
        (Succeeds-wrap failed _ (
          Succeeds-then (wrap failed (query (λ log. to_result (k.read_secrets log)))) _
            (Succeeds-wrap failed _
              (Succeeds-query _ (λ log. IsOk-to_result _ (smooth.reads_secrets log))))
            (Succeeds-require (is_galera_enabled mdb) failed force.enabled)))
        (Succeeds-then _ _ (Succeeds-modify (load_recovery mdb)) (Succeeds-recover_loaded pods))

  recovered :
      (items : List Pod) (s : State)
      → k.list_pods s.log ≡ ok items
      → is_nil (sort_pods (scheduled_pods items)) ≡ false
      → (reconcile_recovery k mdb s).0 ≡ ok done
  unfolding reconcile_recovery get_pods ◌>>=◌ ◌>>◌ resume wrap wrap_error query give
  recovered items s e h =
      rw (e, h)
        (go (recover k mdb (sort_pods (scheduled_pods items)) s).0 _ ((Succeeds-recover _).at s))
    where
      go :
          (r : Result Error (Unit {0})) (s' : State)
          → IsOk r
          → (resume r s' (λ _. give done)).0 ≡ ok done
      go (ok _) s' o = refl
      go (err x) s' o = cc (o.1)

-- When no call fails and every Pod is running, healthy and synchronised when it is asked, a forced
-- bootstrap in a Pod of the cluster is done in one reconciliation, and the held status is then at
-- the phase `restarted`. It starts from a log that is a run of the recovery's machine, with a held
-- status at its end that says that Pods were restarted only behind a bootstrap.
pub reconcile_recovery-completes :
    (start : Phase) (k : Cluster) (mdb : MariaDb) (forced : Bytes) (s : State)
    → IsSmooth k
    → IsForced k mdb forced
    → Refines start s
    → ((reconcile_recovery k mdb s).0 ≡ ok done)
      × (status_phase (reconcile_recovery k mdb s).1.status ≡ restarted)
reconcile_recovery-completes start k mdb forced s smooth force h =
    let (items, listed, some_pod) = force.scheduled s.log in
    let e : (reconcile_recovery k mdb s).0 ≡ ok done =
      recovered k smooth mdb forced force items s listed some_pod in
    (e, (reconcile_recovery-Refines start k mdb s h).1 e)
