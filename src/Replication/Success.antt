-- ===== src/Replication/Success.antt =====
-- Every part of a switchover succeeds when no call fails: pkg/controller/replication.
use suture_port_mariadb_oper.Prelude.{
  ◌≡◌, refl, ℕ, Bool, true, false, List, some, Bytes, codes, ℤ, pos, Result, ok, err,
}
use suture_port_mariadb_oper.StatefulSet.{pod_name}
use suture_port_mariadb_oper.Api.{MariaDb, deref, ten_seconds}
use suture_port_mariadb_oper.Api.Conditions.{StatusConditions}
use suture_port_mariadb_oper.Replication.{
  Cluster, Step, Error, Command, ◌>>=◌, ◌>>◌, wrap, give, ask, run, client_for, patch, PodCondition,
  pod_ready, disable_read_only, reset_master, stop_all_slaves, reset_all_slaves, reset_slave_pos,
  start_slave, enable_read_only, alter_user, create_user, unlock_tables, lock_tables_with_read_lock,
  wait_for_replica_gtid,
}
use suture_port_mariadb_oper.Replication.Config.{
  configure_primary, configure_replica, configure_primary_vars, configure_replica_vars, put_user,
  reconcile_user_sql, reconcile_primary_sql, do_change_master, reset_slave_pos_if, replica_of,
  repl_user, repl_user_host,
}
use suture_port_mariadb_oper.Replication.Switchover.{
  desired_index, current_index, current_primary_ready, current_primary_client, run_if,
  lock_primary_with_read_lock, set_primary_read_only, reset_slave, after_wait, sync_replica,
  sync_replicas, wait_for_replica_sync, gtid_binlog_pos, configure_new_primary, connect_ready,
  connect_replica, connect_replicas_to_new_primary, change_primary_to_replica, seal_primary,
  promote_primary, phase, switching, switching_status, switched_status, switch_primary,
  reconcile_switchover, should_reconcile_switchover,
}
use suture_port_mariadb_oper.Conditions.{set_primary_switching}
use suture_port_mariadb_oper.Api.Conditions.{set_condition}
use suture_port_mariadb_oper.Replication.Progress.{
  IsOk, Succeeds, IsSmooth, Succeeds-bind, Succeeds-then, Succeeds-wrap, Succeeds-phase,
  Succeeds-run_if, Succeeds-run, Succeeds-wrap_run, Succeeds-client_for, Succeeds-patch,
  Succeeds-await_all,
}

module _ (k : Cluster) (smooth : IsSmooth k) (mariadb : MariaDb) (from : ℤ)
    (current : mariadb.status.current_primary_pod_index ≡ some from) where
  open smooth use {runs, reads, finds, gets, reconciles, resolves, compares}

  both : (m n : Step (Unit {0})) → Succeeds m → Succeeds n → Succeeds (m >> n)
  both m n h g = Succeeds-then m n h g

  sent : (i : ℤ) (c : Command) → Succeeds (wrap (run k i c))
  sent i c = Succeeds-wrap_run k smooth i c

  connected : (i : ℤ) → Succeeds (wrap (client_for k i))
  connected i = Succeeds-wrap (client_for k i) (Succeeds-client_for k smooth i)

  Succeeds-current_index : Succeeds (current_index mariadb)
  unfolding current_index
  Succeeds-current_index = λ log. rw current (from, refl)

  Succeeds-current_primary_ready : Succeeds (current_primary_ready k mariadb)
  unfolding current_primary_ready
  Succeeds-current_primary_ready =
      Succeeds-bind (current_index mariadb) _ Succeeds-current_index (λ i.
        Succeeds-bind (ask (λ log. k.get_pod log (pod_name mariadb.metadata i)))
          (λ cs. give (pod_ready cs)) (λ log. gets log (pod_name mariadb.metadata i))
          (λ cs log. (pod_ready cs, refl)))

  Succeeds-current_primary_client : Succeeds (current_primary_client k mariadb)
  unfolding current_primary_client
  Succeeds-current_primary_client =
      Succeeds-bind (current_index mariadb) _ Succeeds-current_index
        (λ i. Succeeds-then (wrap (client_for k i)) (give i) (connected i) (λ log. (i, refl)))

  Succeeds-with_primary :
      (m : ℤ → Step (Unit {0}))
      → ((i : ℤ) → Succeeds (m i))
      → Succeeds (
          wrap (current_primary_ready k mariadb) >>= λ ready.
          run_if ready (wrap (current_primary_client k mariadb) >>= m))
  Succeeds-with_primary m h =
      Succeeds-bind (wrap (current_primary_ready k mariadb)) _
        (Succeeds-wrap (current_primary_ready k mariadb) Succeeds-current_primary_ready)
        (λ ready. Succeeds-run_if ready (wrap (current_primary_client k mariadb) >>= m) (
          Succeeds-bind (wrap (current_primary_client k mariadb)) m
            (Succeeds-wrap (current_primary_client k mariadb) Succeeds-current_primary_client) h))

  Succeeds-reset_slave : (i : ℤ) → Succeeds (reset_slave k i)
  unfolding reset_slave
  Succeeds-reset_slave i =
      both _ _ (sent i stop_all_slaves)
        (both _ _ (sent i reset_slave_pos) (Succeeds-run k smooth i start_slave))

  after_wait-IsOk : (i : ℤ) (r : Result Error (Unit {0})) → IsOk r → Succeeds (after_wait k i r)
  unfolding after_wait
  after_wait-IsOk i (ok _) h = Succeeds-wrap (reset_slave k i) (Succeeds-reset_slave i)
  after_wait-IsOk i (err e) h = cc (h.1)

  Succeeds-sync_replica : (gtid : Bytes) (i : ℕ) → Succeeds (sync_replica k mariadb gtid i)
  unfolding sync_replica
  Succeeds-sync_replica gtid i =
      let wait = wait_for_replica_gtid gtid (deref (replica_of mariadb).sync_timeout ten_seconds) in
      both (wrap (client_for k (pos i))) _ (connected (pos i)) (λ log.
        after_wait-IsOk (pos i) (run k (pos i) wait log).0 (Succeeds-run k smooth (pos i) wait log)
          (run k (pos i) wait log).1)

  Succeeds-wait_for_replica_sync : Succeeds (wait_for_replica_sync k mariadb)
  unfolding wait_for_replica_sync sync_replicas
  Succeeds-wait_for_replica_sync =
      Succeeds-bind (current_index mariadb) _ Succeeds-current_index (λ c.
        Succeeds-with_primary _ (λ i.
          Succeeds-bind (wrap (ask (λ log. k.system_variable log i gtid_binlog_pos)))
            (sync_replicas k mariadb c)
            (Succeeds-wrap (ask (λ log. k.system_variable log i gtid_binlog_pos))
              (λ log. reads log i gtid_binlog_pos))
            (λ gtid.
              Succeeds-await_all k smooth (sync_replica k mariadb gtid) _
                (Succeeds-sync_replica gtid))))

  pub Succeeds-lock_primary : Succeeds (phase (lock_primary_with_read_lock k mariadb))
  unfolding lock_primary_with_read_lock
  Succeeds-lock_primary =
      Succeeds-phase (lock_primary_with_read_lock k mariadb)
        (Succeeds-with_primary _ (λ i. Succeeds-run k smooth i lock_tables_with_read_lock))

  pub Succeeds-set_primary_read_only : Succeeds (phase (set_primary_read_only k mariadb))
  unfolding set_primary_read_only
  Succeeds-set_primary_read_only =
      Succeeds-phase (set_primary_read_only k mariadb)
        (Succeeds-with_primary _ (λ i. Succeeds-run k smooth i enable_read_only))

  pub Succeeds-seal_primary : Succeeds (seal_primary k mariadb)
  unfolding seal_primary
  Succeeds-seal_primary =
      both (phase (lock_primary_with_read_lock k mariadb)) _ Succeeds-lock_primary (
        both (phase (set_primary_read_only k mariadb)) _ Succeeds-set_primary_read_only
          (Succeeds-phase (wait_for_replica_sync k mariadb) Succeeds-wait_for_replica_sync))

  Succeeds-do_change_master : (client i : ℤ) → Succeeds (do_change_master k mariadb client i)
  unfolding do_change_master
  Succeeds-do_change_master client i =
      Succeeds-bind (wrap (ask k.secret_key_ref)) _
        (Succeeds-wrap (ask k.secret_key_ref) (λ log. resolves log))
        (λ password.
          Succeeds-bind (wrap (ask (λ log. k.is_compatible_version))) _
            (Succeeds-wrap (ask (λ log. k.is_compatible_version)) (λ log. compares))
            (λ b. sent client _))

  Succeeds-configure_replica :
      (client i j : ℤ) → Succeeds (configure_replica k mariadb client i j true)
  unfolding configure_replica configure_replica_vars reset_slave_pos_if
  Succeeds-configure_replica client i j = both _ _ (sent client reset_master) (
      both _ _ (sent client stop_all_slaves) (
        both _ _ (sent client reset_slave_pos) (
          both _ _ (sent client enable_read_only) (
            both (wrap (configure_replica_vars k mariadb client i)) _
              (Succeeds-wrap (configure_replica_vars k mariadb client i) (sent client _))
              (both (wrap (do_change_master k mariadb client j)) _
                (Succeeds-wrap (do_change_master k mariadb client j)
                  (Succeeds-do_change_master client j))
                (sent client start_slave))))))

  connect_ready-IsOk :
      (i : ℕ) (r : Result Error (List PodCondition))
      → IsOk r
      → Succeeds (connect_ready k mariadb i r)
  unfolding connect_ready
  connect_ready-IsOk i (ok cs) h = Succeeds-run_if (pod_ready cs) _ (
      both (wrap (client_for k (pos i))) _ (connected (pos i)) (
        Succeeds-wrap (configure_replica k mariadb (pos i) (pos i) (desired_index mariadb) true)
          (Succeeds-configure_replica (pos i) (pos i) (desired_index mariadb))))
  connect_ready-IsOk i (err e) h = cc (h.1)

  pub Succeeds-connect_replicas : Succeeds (connect_replicas_to_new_primary k mariadb)
  unfolding connect_replicas_to_new_primary connect_replica
  Succeeds-connect_replicas = Succeeds-bind (current_index mariadb) _ Succeeds-current_index (λ c.
      Succeeds-await_all k smooth (connect_replica k mariadb) _ (λ i log.
        connect_ready-IsOk i (k.get_pod log (pod_name mariadb.metadata (pos i)))
          (gets log (pod_name mariadb.metadata (pos i))) log))

  Succeeds-change_primary : Succeeds (change_primary_to_replica k mariadb)
  unfolding change_primary_to_replica
  Succeeds-change_primary = Succeeds-bind (current_index mariadb) _ Succeeds-current_index (λ c.
      Succeeds-with_primary _ (λ i.
        both _ _ (sent i unlock_tables) (Succeeds-configure_replica i c (desired_index mariadb))))

  Succeeds-put_user :
      (client : ℤ) (account password : Bytes) (b : Bool)
      → Succeeds (put_user k client account password b)
  unfolding put_user
  Succeeds-put_user client account password true = sent client (alter_user account password)
  Succeeds-put_user client account password false = sent client (create_user account password)

  Succeeds-reconcile_primary_sql : (client : ℤ) → Succeeds (reconcile_primary_sql k client)
  unfolding reconcile_primary_sql reconcile_user_sql
  Succeeds-reconcile_primary_sql client =
      Succeeds-wrap
        (reconcile_user_sql k client repl_user repl_user_host (codes "REPLICATION REPLICA"))
        (Succeeds-bind (wrap (ask k.reconcile_password)) _
          (Succeeds-wrap (ask k.reconcile_password) (λ log. reconciles log))
          (λ password.
            Succeeds-bind _ _
              (Succeeds-wrap (ask (λ log. k.user_exists log client repl_user repl_user_host))
                (λ log. finds log client repl_user repl_user_host))
              (λ exists.
                both (put_user k client _ password exists) _
                  (Succeeds-put_user client _ password exists) (sent client _))))

  pub Succeeds-configure_new_primary : Succeeds (phase (configure_new_primary k mariadb))
  unfolding configure_new_primary configure_primary configure_primary_vars
  Succeeds-configure_new_primary =
      let i = desired_index mariadb in
      Succeeds-phase (configure_new_primary k mariadb) (
        both (wrap (wrap (client_for k i))) _ (Succeeds-wrap (wrap (client_for k i)) (connected i))
          (Succeeds-wrap (configure_primary k mariadb i i) (
            both _ _ (sent i stop_all_slaves) (
              both _ _ (sent i reset_all_slaves) (
                both _ _ (sent i reset_slave_pos) (
                  both _ _ (sent i disable_read_only) (
                    both (wrap (reconcile_primary_sql k i)) _
                      (Succeeds-wrap (reconcile_primary_sql k i) (Succeeds-reconcile_primary_sql i))
                      (Succeeds-wrap (configure_primary_vars k mariadb i i) (sent i _)))))))))

  pub Succeeds-promote_primary : Succeeds (promote_primary k mariadb)
  unfolding promote_primary
  Succeeds-promote_primary =
      both (phase (configure_new_primary k mariadb)) _ Succeeds-configure_new_primary (
        both (phase (connect_replicas_to_new_primary k mariadb)) _
          (Succeeds-phase (connect_replicas_to_new_primary k mariadb) Succeeds-connect_replicas)
          (Succeeds-phase (change_primary_to_replica k mariadb) Succeeds-change_primary))

pub Succeeds-reconcile_switchover :
    (meta : StatusConditions) (k : Cluster) (mariadb : MariaDb) (from : ℤ)
    → IsSmooth k
    → mariadb.status.current_primary_pod_index ≡ some from
    → Succeeds (reconcile_switchover meta k mariadb)
unfolding reconcile_switchover switch_primary switching switching_status set_primary_switching
    set_condition
Succeeds-reconcile_switchover meta k mariadb from smooth current =
    let m = switching meta mariadb in
    Succeeds-run_if (should_reconcile_switchover meta mariadb) (switch_primary meta k mariadb) (
      Succeeds-then (wrap (patch k (switching_status meta mariadb))) _
        (Succeeds-wrap (patch k (switching_status meta mariadb))
          (Succeeds-patch k smooth (switching_status meta mariadb)))
        (Succeeds-then (seal_primary k m) _ (Succeeds-seal_primary k smooth m from current) (
          Succeeds-then (promote_primary k m) _ (Succeeds-promote_primary k smooth m from current) (
            Succeeds-wrap (patch k (switched_status meta mariadb))
              (Succeeds-patch k smooth (switched_status meta mariadb))))))
