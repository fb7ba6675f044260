-- ===== src/Recovery/Refinement.antt =====
-- A reconciliation of the recovery is a run of the machine of Machine.antt, and one that is done
-- has restarted the Pods: pkg/controller/galera/recovery.go.
use suture_port_mariadb_oper.Prelude.{◌≡◌, refl, Bool, true, false, List, ok, if◌then◌else◌}
use suture_port_mariadb_oper.Steps.{◌>>=◌, ◌>>◌, give, gets, modify, wrap, run_if}
use suture_port_mariadb_oper.Steps.Keeps.{Keeps-wrap, Keeps-gets}
use suture_port_mariadb_oper.Steps.Triples.{
  Triple, Triple-weaken, Triple-wrap, Triple-give, Triple-bind, Triple-kept, Triple-gets,
  Triple-then, Triple-exists, Triple-state, Triple-value,
}
use suture_port_mariadb_oper.Api.{MariaDb}
use suture_port_mariadb_oper.RecoveryStatus.{pods_restarted, new_recovery_status}
use suture_port_mariadb_oper.Recovery.{Cluster, State, Error, failed, Pod}
use suture_port_mariadb_oper.Recovery.Pods.{get_pods}
use suture_port_mariadb_oper.Recovery.Reconcile.{
  Outcome, done, requeue_after, reconcile_recovery, recover, advance, restart_unless,
  recover_unless, reset_and_advance, recover_loaded, reset_recovery, load_recovery,
  new_agent_client_set, is_nil, five_seconds,
}
use suture_port_mariadb_oper.Recovery.Keeping.Phases.{Keeps-get_pods, Keeps-new_agent_client_set}
use suture_port_mariadb_oper.Recovery.Machine.{
  Phase, idle, bootstrapping, restarted, phase_of, idle-flags, bootstrapping-flags, restarted-flags,
  status_phase, recovery_in, Refines, Refines-rs, Synced,
}
use suture_port_mariadb_oper.Recovery.Transitions.{
  Somewhere, kept, recover_cluster-Synced, restart_pods-Synced, reset_recovery-Synced,
}

module _ (start : Phase) (k : Cluster) (mdb : MariaDb) where
  -- A phase that is not `bootstrapping` any more is `restarted`, and so all is done.
  restarted_already :
      Triple
        (Synced start restarted)
        (gets (λ s. pods_restarted s.rs) >>= restart_unless k mdb)
        (λ _. Synced start restarted)
        (Somewhere start)
  unfolding restart_unless run_if phase_of
  restarted_already =
      Triple-gets _ (restart_unless k mdb) true (λ s h. (restarted-flags _ _ h.current).1)
        (Triple-give tt (λ s h. h))

  restart_now :
      Triple
        (Synced start bootstrapping)
        (gets (λ s. pods_restarted s.rs) >>= restart_unless k mdb)
        (λ _. Synced start restarted)
        (Somewhere start)
  unfolding restart_unless run_if phase_of
  restart_now =
      Triple-gets _ (restart_unless k mdb) false (λ s h. (bootstrapping-flags _ _ h.current).1)
        (Triple-wrap failed _ (restart_pods-Synced start k mdb))

  advance-Synced :
      (pods : List Pod) (p : Phase)
      → Triple (Synced start p) (advance k mdb pods) (λ _. Synced start restarted) (Somewhere start)
  unfolding advance recover_unless run_if phase_of
  advance-Synced pods idle =
      Triple-gets _ (recover_unless k mdb pods) false
        (λ s h. (idle-flags _ _ h.coherent h.current).0)
        (Triple-then (Synced start bootstrapping) _ _
          (Triple-wrap failed _ (recover_cluster-Synced start k mdb pods)) restart_now)
  advance-Synced pods bootstrapping =
      Triple-gets _ (recover_unless k mdb pods) true (λ s h. (bootstrapping-flags _ _ h.current).0)
        (Triple-then (Synced start bootstrapping) _ _ (Triple-give tt (λ s h. h)) restart_now)
  advance-Synced pods restarted =
      Triple-gets _ (recover_unless k mdb pods) true (λ s h. (restarted-flags _ _ h.current).0)
        (Triple-then (Synced start restarted) _ _ (Triple-give tt (λ s h. h)) restarted_already)

  load_recovery-Synced :
      Triple {E = Error}
        (Refines start)
        (modify (load_recovery mdb))
        (λ _. (Somewhere start))
        (Refines start)
  unfolding modify load_recovery new_recovery_status
  load_recovery-Synced = record {
    at = λ s h. (
      status_phase s.status,
      record {
        refines = Refines-rs s (recovery_in s.status) h;
        coherent = h.coherent;
        current = refl;
        held = refl;
      },
    );
  }

  reset_if-Synced :
      (b : Bool) (p : Phase)
      → Triple
          (Synced start p)
          (run_if b (wrap failed (reset_recovery k)))
          (λ _. (Somewhere start))
          (Somewhere start)
  unfolding run_if
  reset_if-Synced true p =
      Triple-weaken _ (λ s h. h) (λ a s h. (idle, h)) (λ s h. (idle, h))
        (Triple-wrap failed _ (reset_recovery-Synced start k p))
  reset_if-Synced false p = Triple-give tt (λ s h. (p, h))

  reset_and_advance-Synced :
      (pods : List Pod) (b : Bool) (p : Phase)
      → Triple
          (Synced start p)
          (reset_and_advance k mdb pods b)
          (λ _. Synced start restarted)
          (Somewhere start)
  unfolding reset_and_advance
  reset_and_advance-Synced pods b p =
      Triple-then (Somewhere start) (run_if b (wrap failed (reset_recovery k))) (advance k mdb pods)
        (reset_if-Synced b p) (Triple-exists (advance k mdb pods) (advance-Synced pods))

  recover_loaded-Synced :
      (pods : List Pod)
      → Triple
          (Somewhere start)
          (recover_loaded k mdb pods)
          (λ _. Synced start restarted)
          (Refines start)
  unfolding recover_loaded
  recover_loaded-Synced pods =
      Triple-weaken (recover_loaded k mdb pods) (λ s h. h) (λ a s h. h) (λ s h. h.1.refines)
        (Triple-exists (recover_loaded k mdb pods) (λ p.
          kept start k mdb p _ (reset_and_advance k mdb pods) (Keeps-gets _)
            (λ b. reset_and_advance-Synced pods b p)))

  recover-Refines :
      (pods : List Pod)
      → Triple (Refines start) (recover k mdb pods) (λ _. Synced start restarted) (Refines start)
  unfolding recover ◌>>◌
  recover-Refines pods =
      Triple-kept (wrap failed (new_agent_client_set k mdb)) _
        (Keeps-wrap failed _ (Keeps-new_agent_client_set k mdb)) (λ s h. h)
        (λ _.
          Triple-then (Somewhere start) (modify (load_recovery mdb)) (recover_loaded k mdb pods)
            load_recovery-Synced (recover_loaded-Synced pods))

  AtEnd : Outcome → State → Type 0
  AtEnd done s = Synced start restarted s
  AtEnd (requeue_after t) s = Refines start s

  reconcile_recovery-AtEnd : Triple (Refines start) (reconcile_recovery k mdb) AtEnd (Refines start)
  unfolding reconcile_recovery AtEnd ◌>>◌
  reconcile_recovery-AtEnd =
      Triple-kept (wrap failed (get_pods k)) _ (Keeps-wrap failed _ (Keeps-get_pods k)) (λ s h. h)
        (λ pods. go pods (is_nil pods))
    where
      go :
          (pods : List Pod) (b : Bool)
          → Triple
              (Refines start)
              (if b then give (requeue_after five_seconds) else (recover k mdb pods >> give done))
              AtEnd
              (Refines start)
      go pods true = Triple-give (requeue_after five_seconds) (λ s h. h)
      go pods false =
          Triple-bind (λ _. Synced start restarted) (recover k mdb pods) _ (recover-Refines pods)
            (λ _. Triple-give done (λ s h. h))

AtEnd-Refines :
    (start : Phase) (k : Cluster) (mdb : MariaDb) (o : Outcome) (s : State)
    → AtEnd start k mdb o s
    → Refines start s
unfolding AtEnd
AtEnd-Refines start k mdb done s h = h.refines
AtEnd-Refines start k mdb (requeue_after t) s h = h

-- From a log that is a run of the machine, and a held status that is at its end and says that Pods
-- were restarted only behind a bootstrap: each status that a reconciliation of the recovery writes
-- is a move of the machine that waits, begins a bootstrap, finishes it and gives it up, whatever the
-- calls answer, and the log and the held status are like that again. When the reconciliation is
-- done, the held status is at the phase `restarted`.
pub reconcile_recovery-Refines :
    (start : Phase) (k : Cluster) (mdb : MariaDb) (s : State)
    → Refines start s
    → Refines start (reconcile_recovery k mdb s).1
      × ((reconcile_recovery k mdb s).0 ≡ ok done
          → status_phase (reconcile_recovery k mdb s).1.status ≡ restarted)
unfolding AtEnd
reconcile_recovery-Refines start k mdb s h =
    let t = reconcile_recovery-AtEnd start k mdb in
    (
      Triple-state (reconcile_recovery k mdb) t s h (Refines start) (AtEnd-Refines start k mdb)
          (λ s' h'. h'),
      λ e. (Triple-value (reconcile_recovery k mdb) t s h done e).held,
    )
