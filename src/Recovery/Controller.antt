-- ===== src/Recovery/Controller.antt =====
-- pkg/controller/galera/controller.go: one reconciliation of the Galera controller.
use suture_port_mariadb_oper.Prelude.{
  Bool, false, not, ◌==◌, ◌&&◌, ◌||◌, Option, none, some, ℤ, pos, eqb_ℤ, if◌then◌else◌,
}
use suture_port_mariadb_oper.Steps.{◌>>=◌, ◌>>◌, give, gets, wrap, run_if}
use suture_port_mariadb_oper.Api.{
  MariaDb, MariaDbStatus, is_galera_enabled, deref, no_galera, update_current_primary,
}
use suture_port_mariadb_oper.Api.Conditions.{
  StatusConditions, set_condition, has_galera_not_ready_condition, has_galera_ready_condition,
  is_restoring_backup, is_updating, is_resizing_storage,
}
use suture_port_mariadb_oper.Conditions.{StatefulSetStatus, set_galera_ready, set_galera_configured}
use suture_port_mariadb_oper.Recovery.{Cluster, State, Action, failed, query, patch}
use suture_port_mariadb_oper.Recovery.Reconcile.{
  Outcome, done, requeue_after, reconcile_recovery, disable_bootstrap,
}

-- The MariaDB that the controller holds.
abbrev pub held : MariaDb → State → MariaDb
held mdb s = record mdb { status = s.status }

-- `ptr.Deref(galera.Primary.PodIndex, 0)`.
unfoldable pub desired_pod_index : MariaDb → ℤ
desired_pod_index mdb = deref (deref mdb.galera no_galera).primary_pod_index (pos 0)

module _ (meta : StatusConditions) where
  unfoldable pub differs : Option ℤ → ℤ → Bool
  differs none desired = false
  differs (some current) desired = not (eqb_ℤ current desired)

  unfoldable pub should_reconcile_switchover : MariaDb → Bool
  unfolding differs desired_pod_index
  should_reconcile_switchover mdb =
      not (
        mdb.max_scale_ref
        || is_restoring_backup meta mdb
        || is_updating meta mdb
        || is_resizing_storage meta mdb)
      && differs mdb.status.current_primary_pod_index (desired_pod_index mdb)

  unfoldable pub healthy_status : MariaDbStatus → MariaDbStatus
  healthy_status s =
      set_galera_configured (set_condition meta) (set_galera_ready (set_condition meta) s)

  -- Every Pod is ready again.
  unfoldable pub mark_healthy : Cluster → MariaDb → Action (Unit {0})
  unfolding ◌>>◌ wrap patch disable_bootstrap healthy_status
  mark_healthy k mdb =
      disable_bootstrap k mdb >> wrap failed (patch k (λ s. healthy_status s.status))

  unfoldable pub switch_primary : Cluster → MariaDb → Action (Unit {0})
  unfolding wrap patch desired_pod_index
  switch_primary k mdb =
      wrap failed (patch k (λ s. update_current_primary s.status mdb (desired_pod_index mdb)))

  unfoldable pub is_healthy : MariaDb → StatefulSetStatus → State → Bool
  is_healthy mdb sts s =
      not (has_galera_ready_condition meta (held mdb s)) && sts.ready_replicas == mdb.replicas

  -- What follows the recovery.
  unfoldable pub settle : Cluster → MariaDb → StatefulSetStatus → Action Outcome
  unfolding ◌>>=◌ ◌>>◌ give gets run_if is_healthy mark_healthy should_reconcile_switchover
      switch_primary
  settle k mdb sts = do
    healthy ← gets (is_healthy mdb sts)
    run_if healthy (mark_healthy k mdb)
    switches ← gets (λ s. should_reconcile_switchover (held mdb s))
    run_if switches (switch_primary k mdb)
    give done

  unfoldable pub settle_if_done : Cluster → MariaDb → StatefulSetStatus → Outcome → Action Outcome
  unfolding settle give
  settle_if_done k mdb sts done = settle k mdb sts
  settle_if_done k mdb sts (requeue_after t) = give (requeue_after t)

  unfoldable pub recover_if : Cluster → MariaDb → Bool → Action Outcome
  unfolding reconcile_recovery give
  recover_if k mdb b = if b then reconcile_recovery k mdb else give done

  unfoldable pub reconcile_galera : Cluster → MariaDb → Action Outcome
  unfolding ◌>>=◌ query gets recover_if settle_if_done
  reconcile_galera k mdb = do
    sts ← query k.get_stateful_set
    not_ready ← gets (λ s. has_galera_not_ready_condition meta (held mdb s))
    outcome ← recover_if k mdb not_ready
    settle_if_done k mdb sts outcome

  unfoldable pub reconcile : Cluster → MariaDb → Action Outcome
  unfolding reconcile_galera give
  reconcile k mdb = if is_galera_enabled mdb then reconcile_galera k mdb else give done
