-- ===== src/Failover/Switch.antt =====
-- A failover starts a switchover: internal/controller/pod_replication_controller.go and
-- pkg/controller/replication/switchover.go.
use suture_port_mariadb_oper.Prelude.{
  ◌≡◌, sym, subst, ◌∙◌, Bool, true, false, List, Option, none, some, ℤ, eqb_ℤ, eqb_ℤ_iff, Result,
  ok, err, Any,
}
use suture_port_mariadb_oper.StatefulSet.{pod_index, NameError}
use suture_port_mariadb_oper.Api.{
  MariaDb, replication_of, has_configured_replica, is_configured_replica, is_suspended,
  automatic_failover_delay,
}
use suture_port_mariadb_oper.Api.Conditions.{
  StatusConditions, is_restoring_backup, is_resizing_storage, is_switching_primary,
}
use suture_port_mariadb_oper.Health.{
  Pod, HealthError, replica_pod_healthy_index, is_healthy_replica,
}
use suture_port_mariadb_oper.Health.Choice.{Eligible, Chosen, replica_pod_healthy_index-Chosen}
use suture_port_mariadb_oper.Replication.Switchover.{desired_index, should_reconcile_switchover}
use suture_port_mariadb_oper.Failover.{
  State, Server, Outcome, FailoverError, delay_automatic_failover, patch_status, should_reconcile,
  switch_to, choose_replica, fail_over, is_delayed, note_failing, is_current, when_current,
  unless_failed, reconcile_pod_not_ready,
}
use suture_port_mariadb_oper.Failover.Due.{switch_to-SwitchingTo, due, Any-other}

abbrev IsIndex : Result NameError ℤ → ℤ → Type 0
IsIndex name index = name ≡ ok index

same_index : (d i c : ℤ) → some d ≡ some c → IsIndex (ok i) c → i ≡ d
same_index d i c h n = cc (h, n)

module _ (meta : StatusConditions) where
  -- The switchover that a failover starts: to a Pod that was listed, is ready and replicates.
  abbrev pub Started : MariaDb → ℤ → List Pod → MariaDb → Type 0
  Started before c pods after =
      Any (Eligible (is_healthy_replica before) c (desired_index after)) pods
      × (after.status.current_primary_pod_index ≡ some c)
      × (is_switching_primary meta after ≡ true)
      × (after.status.current_primary_failing_since ≡ none)
      × (is_resizing_storage meta before ≡ false → should_reconcile_switchover meta after ≡ true)

  abbrev After : MariaDb → ℤ → List Pod → Outcome → Type 0
  After before c pods o = o.0 ≡ ok tt → Started before c pods o.1.mariadb

  choose_replica-After :
      (srv : Server) (s : State) (c : ℤ) (pods : List Pod) (r : Result HealthError ℤ)
      → s.mariadb.status.current_primary_pod_index ≡ some c
      → should_reconcile meta s.mariadb ≡ true
      → Chosen (is_healthy_replica s.mariadb) c pods r
      → After s.mariadb c pods (choose_replica meta srv s r)
  unfolding choose_replica
  choose_replica-After srv s c pods (err e) current sr h = λ e. cc
  choose_replica-After srv s c pods (ok to) current sr h = λ e.
      let t = switch_to-SwitchingTo meta srv s to in
      let after = (switch_to meta srv s to).1.mariadb in
      (
        subst (λ i. Any (Eligible (is_healthy_replica s.mariadb) c i) pods) (sym t.0) h,
        t.1 ∙ current,
        t.2,
        t.3,
        λ rz.
            due meta s.mariadb after c to t current
              (Any-other meta (is_healthy_replica s.mariadb) c to pods h) sr rz,
      )

  fail_over-After :
      (srv : Server) (s : State) (c : ℤ) (pods : List Pod)
      → srv.pods ≡ ok pods
      → s.mariadb.status.current_primary_pod_index ≡ some c
      → should_reconcile meta s.mariadb ≡ true
      → After s.mariadb c pods (fail_over meta srv s)
  unfolding fail_over
  fail_over-After srv s c pods listed current sr =
      go
        (is_delayed srv.now (automatic_failover_delay s.mariadb)
          s.mariadb.status.current_primary_failing_since)
        srv.pods listed
    where
      go :
          (b : Bool) (l : Result HealthError (List Pod))
          → l ≡ ok pods
          → After s.mariadb c pods (elim b [
            | true ↦ (err delay_automatic_failover, s)
            | false ↦ choose_replica meta srv s (replica_pod_healthy_index l s.mariadb)
          ])
      go true l e = λ e. cc
      go false l e = rw e (
          choose_replica-After srv s c pods _ current sr
            (replica_pod_healthy_index-Chosen s.mariadb c pods current))

  unless_failed-After :
      (srv : Server) (s s' : State) (c : ℤ) (pods : List Pod) (r : Result FailoverError (Unit {0}))
      → After s.mariadb c pods (fail_over meta srv s')
      → After s.mariadb c pods (unless_failed (r, s') (fail_over meta srv))
  unless_failed-After srv s s' c pods (ok _) h = h
  unless_failed-After srv s s' c pods (err e) h = λ e. cc

  -- The time that is written down first changes none of what is read later.
  noted :
      (srv : Server) (s : State) (c : ℤ) (pods : List Pod) (o : Option ℤ)
      → srv.pods ≡ ok pods
      → s.mariadb.status.current_primary_pod_index ≡ some c
      → should_reconcile meta s.mariadb ≡ true
      → let note : Outcome = elim o [
        | none ↦
            patch_status srv s
              (record s.mariadb.status { current_primary_failing_since = some srv.now })
        | some since ↦ (ok tt, s)
      ] in
        After s.mariadb c pods (unless_failed note (fail_over meta srv))
  unfolding patch_status should_reconcile is_healthy_replica is_configured_replica
      is_resizing_storage has_configured_replica is_restoring_backup is_suspended replication_of
  noted srv s c pods (some since) listed current sr = fail_over-After srv s c pods listed current sr
  noted srv s c pods none listed current sr =
      let status = record s.mariadb.status { current_primary_failing_since = some srv.now } in
      let s' = (patch_status srv s status).1 in
      unless_failed-After srv s s' c pods (patch_status srv s status).0
        (fail_over-After srv s' c pods listed current sr)

  -- When the failing Pod is the current primary and failovers are on, a failover that reports no
  -- error has chosen a listed Pod other than the primary that is ready and was seen replicating.
  -- It is the desired primary now, the current one is as before and is reported as being switched,
  -- and unless the storage is being resized a switchover is due.
  pub reconcile_pod_not_ready-Started :
      (srv : Server) (pod : Pod) (s : State) (c : ℤ) (pods : List Pod)
      → srv.pods ≡ ok pods
      → should_reconcile meta s.mariadb ≡ true
      → s.mariadb.status.current_primary_pod_index ≡ some c
      → pod_index pod.name ≡ ok c
      → (reconcile_pod_not_ready meta srv pod s).0 ≡ ok tt
      → Started s.mariadb c pods (reconcile_pod_not_ready meta srv pod s).1.mariadb
  unfolding reconcile_pod_not_ready note_failing is_current when_current
  reconcile_pod_not_ready-Started srv pod s c pods listed sr current index =
      go (should_reconcile meta s.mariadb) s.mariadb.status.current_primary_pod_index
        (pod_index pod.name) sr current index
    where
      at_primary :
          (b : Bool)
          → b ≡ true
          → After s.mariadb c pods
              (when_current (ok b) s (unless_failed (note_failing srv s) (fail_over meta srv)))
      at_primary true e =
          noted srv s c pods s.mariadb.status.current_primary_failing_since listed current sr
      at_primary false e = cc

      go :
          (b : Bool) (o : Option ℤ) (name : Result NameError ℤ)
          → b ≡ true
          → o ≡ some c
          → name ≡ ok c
          → After s.mariadb c pods (elim b [
            | false ↦ (ok tt, s)
            | true ↦ elim o [
              | none ↦ (ok tt, s)
              | some current ↦
                  when_current
                    (is_current name current)
                    s
                    (unless_failed (note_failing srv s) (fail_over meta srv))
            ]
          ])
      go false o name e h n = cc
      go true none name e h n = cc
      go true (some d) (err x) e h n = cc
      go true (some d) (ok i) e h n =
          at_primary (eqb_ℤ i d) ((eqb_ℤ_iff i d).1 (same_index d i c h n))
