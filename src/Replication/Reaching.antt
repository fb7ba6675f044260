-- ===== src/Replication/Reaching.antt =====
-- pkg/controller/replication/switchover.go: what sealing the old primary and promoting the new one have sent
-- when no call fails.
use suture_port_mariadb_oper.Prelude.{
  ◌≡◌, ◌≢◌, eqb_ℤ_iff, ◌<◌, refl, inl, inr, ℕ, false, ◌||◌, List, some, ℤ, pos, eqb_ℤ, In,
  Bool-cases, arith,
}
use suture_port_mariadb_oper.StatefulSet.{pod_name}
use suture_port_mariadb_oper.Api.{MariaDb}
use suture_port_mariadb_oper.Replication.{
  Cluster, Log, wrap, run, client_for, run_all, await_all, stop_all_slaves, reset_all_slaves,
  reset_slave_pos, enable_read_only, disable_read_only, unlock_tables, lock_tables_with_read_lock,
}
use suture_port_mariadb_oper.Replication.Config.{
  configure_primary, reconcile_primary_sql, configure_primary_vars,
}
use suture_port_mariadb_oper.Replication.Switchover.{
  desired_index, lock_primary_with_read_lock, set_primary_read_only, indices_from,
  configure_new_primary, connect_replica, connect_replicas_to_new_primary, phase, seal_primary,
  promote_primary,
}
use suture_port_mariadb_oper.Replication.Progress.{
  IsSmooth, Succeeds-wrap, Succeeds-phase, Succeeds-client_for,
}
use suture_port_mariadb_oper.Replication.Success.{
  Succeeds-lock_primary, Succeeds-configure_new_primary, Succeeds-connect_replicas,
}
use suture_port_mariadb_oper.Replication.Keeping.{
  Keeps-set_primary_read_only, Keeps-wait_for_replica_sync, Keeps-connect_ready,
  Keeps-connect_replicas, Keeps-change_primary, Keeps-reconcile_primary_sql,
}
use suture_port_mariadb_oper.Replication.Sealing.{In-indices_from}
use suture_port_mariadb_oper.Replication.Triples.{Calm, Keeps-then, Keeps-run}
use suture_port_mariadb_oper.Replication.Logged.{
  Grows, Reaches, Calm-of_Grows, Reaches-first, Reaches-later, Reaches-run_all,
  Keeps-unless_done-log, Sent, Follows, Unless, Grows-Sent, Grows-Follows, Grows-Unless,
}
use suture_port_mariadb_oper.Replication.Phases.{
  Reaches-run, Reaches-sent, Reaches-lock_primary, Reaches-set_primary_read_only,
  Reaches-change_primary, Reaches-connect_replica, Reaches-current,
}

module _ (k : Cluster) (smooth : IsSmooth k)
    (covers : (log : Log) (is : List ℕ) (i : ℕ) → In i is → In i (k.schedule log is))
    (mariadb : MariaDb) (from : ℤ)
    (current : mariadb.status.current_primary_pod_index ≡ some from) where
  other_index : (i : ℕ) (j : ℤ) → pos i ≢ j → eqb_ℤ (pos i) j ≡ false
  other_index i j h = elim (Bool-cases (eqb_ℤ (pos i) j)) [
    | inl e ↦ absurd (h ((eqb_ℤ_iff (pos i) j).0 e))
    | inr e ↦ e
  ]

  Reaches-connect_replicas :
      (i : ℕ)
      → i < mariadb.replicas
      → pos i ≢ from
      → pos i ≢ desired_index mariadb
      → Reaches
          (Unless k mariadb (pos i) (Follows k mariadb (pos i)))
          (phase (connect_replicas_to_new_primary k mariadb))
  unfolding connect_replicas_to_new_primary await_all connect_replica
  Reaches-connect_replicas i lt old new =
      let J = Unless k mariadb (pos i) (Follows k mariadb (pos i)) in
      let calm = Calm-of_Grows J (
        Grows-Unless k mariadb (pos i) (Follows k mariadb (pos i))
          (Grows-Follows k mariadb (pos i))) in
      let skip = λ (j : ℤ). eqb_ℤ j from || eqb_ℤ j (desired_index mariadb) in
      let is = indices_from skip mariadb.replicas 0 in
      Reaches-current k smooth mariadb from current J _ (λ log.
        let p = run_all (connect_replica k mariadb) (k.schedule log is) log in
        Keeps-unless_done-log J (k.done p.1) p (
          Reaches-run_all J (connect_replica k mariadb) (k.schedule log is) i
            (covers log is i (
              In-indices_from skip mariadb.replicas 0 i (omega arith) (omega arith)
                (rw (other_index i from old, other_index i (desired_index mariadb) new) refl)))
            (Reaches-connect_replica k smooth mariadb from current i)
            (λ j l h.
              Keeps-connect_ready k mariadb J calm j
                (k.get_pod l (pod_name mariadb.metadata (pos j))) l h)
            log))

  Reaches-configure_new_primary :
      Reaches
        (Sent (desired_index mariadb) disable_read_only)
        (phase (configure_new_primary k mariadb))
  unfolding configure_new_primary configure_primary client_for configure_primary_vars
  Reaches-configure_new_primary =
      let i = desired_index mariadb in
      let J = Sent i disable_read_only in
      let calm = Calm-of_Grows J (Grows-Sent i disable_read_only) in
      Reaches-later J (wrap (wrap (client_for k i))) _
        (Succeeds-wrap (wrap (client_for k i))
          (Succeeds-wrap (client_for k i) (Succeeds-client_for k smooth i)))
        (λ _. Reaches-sent k smooth mariadb from current J i stop_all_slaves _ (
          Reaches-sent k smooth mariadb from current J i reset_all_slaves _ (
            Reaches-sent k smooth mariadb from current J i reset_slave_pos _ (
              Reaches-first J (wrap (run k i disable_read_only)) _
                (Reaches-run k smooth mariadb from current i disable_read_only)
                (λ _.
                  Keeps-then J (wrap (reconcile_primary_sql k i)) _
                    (Keeps-reconcile_primary_sql k mariadb J calm i)
                    (Keeps-run J k i _ calm refl))))))

  Calm-Unless : (j : ℤ) (J : Log → Type 0) → Grows J → Calm (Unless k mariadb j J)
  Calm-Unless j J g = Calm-of_Grows (Unless k mariadb j J) (Grows-Unless k mariadb j J g)

  pub locked :
      Reaches
        (Unless k mariadb from (Sent from lock_tables_with_read_lock))
        (seal_primary k mariadb)
  unfolding seal_primary
  locked =
      let J = Unless k mariadb from (Sent from lock_tables_with_read_lock) in
      let calm = Calm-Unless from _ (Grows-Sent from lock_tables_with_read_lock) in
      Reaches-first J (phase (lock_primary_with_read_lock k mariadb)) _
        (Reaches-lock_primary k smooth mariadb from current)
        (λ _.
          Keeps-then J (phase (set_primary_read_only k mariadb)) _
            (Keeps-set_primary_read_only k mariadb J calm)
            (Keeps-wait_for_replica_sync k mariadb J calm))

  pub made_read_only :
      Reaches (Unless k mariadb from (Sent from enable_read_only)) (seal_primary k mariadb)
  unfolding seal_primary
  made_read_only =
      let J = Unless k mariadb from (Sent from enable_read_only) in
      let calm = Calm-Unless from _ (Grows-Sent from enable_read_only) in
      Reaches-later J (phase (lock_primary_with_read_lock k mariadb)) _
        (Succeeds-lock_primary k smooth mariadb from current)
        (λ _.
          Reaches-first J (phase (set_primary_read_only k mariadb)) _
            (Reaches-set_primary_read_only k smooth mariadb from current)
            (λ _. Keeps-wait_for_replica_sync k mariadb J calm))

  pub promoted :
      Reaches (Sent (desired_index mariadb) disable_read_only) (promote_primary k mariadb)
  unfolding promote_primary
  promoted =
      let J = Sent (desired_index mariadb) disable_read_only in
      let calm = Calm-of_Grows J (Grows-Sent (desired_index mariadb) disable_read_only) in
      Reaches-first J (phase (configure_new_primary k mariadb)) _ Reaches-configure_new_primary
        (λ _.
          Keeps-then J (phase (connect_replicas_to_new_primary k mariadb)) _
            (Keeps-connect_replicas k mariadb J calm) (Keeps-change_primary k mariadb J calm))

  pub connected :
      (i : ℕ)
      → i < mariadb.replicas
      → pos i ≢ from
      → pos i ≢ desired_index mariadb
      → Reaches (Unless k mariadb (pos i) (Follows k mariadb (pos i))) (promote_primary k mariadb)
  unfolding promote_primary
  connected i lt old new =
      let J = Unless k mariadb (pos i) (Follows k mariadb (pos i)) in
      let calm = Calm-Unless (pos i) _ (Grows-Follows k mariadb (pos i)) in
      Reaches-later J (phase (configure_new_primary k mariadb)) _
        (Succeeds-configure_new_primary k smooth mariadb from current)
        (λ _.
          Reaches-first J (phase (connect_replicas_to_new_primary k mariadb)) _
            (Reaches-connect_replicas i lt old new) (λ _. Keeps-change_primary k mariadb J calm))

  abbrev Demoted : Log → Type 0
  Demoted log = Sent from unlock_tables log × Follows k mariadb from log

  pub demoted : Reaches (Unless k mariadb from Demoted) (promote_primary k mariadb)
  unfolding promote_primary
  demoted =
      let J = Unless k mariadb from Demoted in
      Reaches-later J (phase (configure_new_primary k mariadb)) _
        (Succeeds-configure_new_primary k smooth mariadb from current)
        (λ _.
          Reaches-later J (phase (connect_replicas_to_new_primary k mariadb)) _
            (Succeeds-phase (connect_replicas_to_new_primary k mariadb)
              (Succeeds-connect_replicas k smooth mariadb from current))
            (λ _. Reaches-change_primary k smooth mariadb from current))
