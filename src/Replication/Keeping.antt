-- ===== src/Replication/Keeping.antt =====
-- What the parts of a switchover keep true of the log: pkg/controller/replication.
use suture_port_mariadb_oper.Prelude.{
  refl, ℕ, Bool, true, false, List, ◌∷◌, Option, none, some, Bytes, ℤ, pos, Result, ok, err,
}
use suture_port_mariadb_oper.StatefulSet.{pod_name}
use suture_port_mariadb_oper.Api.{MariaDb, deref, ten_seconds}
use suture_port_mariadb_oper.Replication.{
  Cluster, Step, Error, not_found, wait_replica_timeout, failed, Log, sql, ◌>>=◌, wrap, give, fail,
  ask, run, client_for, PodCondition, pod_ready, disable_read_only, reset_master, stop_all_slaves,
  reset_all_slaves, reset_slave_pos, start_slave, enable_read_only, unlock_tables,
  lock_tables_with_read_lock, wait_for_replica_gtid,
}
use suture_port_mariadb_oper.Replication.Config.{
  configure_primary, configure_replica, configure_primary_vars, configure_replica_vars, put_user,
  reconcile_user_sql, reconcile_primary_sql, do_change_master, reset_slave_pos_if, replica_of,
}
use suture_port_mariadb_oper.Replication.Switchover.{
  desired_index, current_index, current_primary_ready, current_primary_client, run_if,
  lock_primary_with_read_lock, set_primary_read_only, reset_slave, wait_failed, after_wait,
  sync_replica, sync_replicas, wait_for_replica_sync, configure_new_primary, connect_ready,
  connect_replica, connect_replicas_to_new_primary, change_primary_to_replica, seal_primary,
  promote_primary, phase,
}
use suture_port_mariadb_oper.Replication.Triples.{
  Keeps, Calm, Keeps-bind, Keeps-then, Keeps-run, Keeps-client_for, Keeps-await_all,
}

module _ (k : Cluster) (mariadb : MariaDb) (I : Log → Type 0) where
  Keeps-current_index : Keeps I (current_index mariadb)
  unfolding current_index
  Keeps-current_index = go mariadb.status.current_primary_pod_index
    where
      go : (o : Option ℤ) → Keeps {A = ℤ} I (elim o [ none ↦ fail failed | some i ↦ give i ])
      go none = λ log h. h
      go (some i) = λ log h. h

  Keeps-current_primary_ready : Keeps I (current_primary_ready k mariadb)
  unfolding current_primary_ready
  Keeps-current_primary_ready = Keeps-bind I (current_index mariadb) _ Keeps-current_index (λ i.
      Keeps-bind I (ask (λ log. k.get_pod log (pod_name mariadb.metadata i))) _ (λ log h. h)
        (λ cs log h. h))

  Keeps-current_primary_client : Keeps I (current_primary_client k mariadb)
  unfolding current_primary_client
  Keeps-current_primary_client =
      Keeps-bind I (current_index mariadb) _ Keeps-current_index
        (λ i. Keeps-then I (wrap (client_for k i)) (give i) (Keeps-client_for I k i) (λ log h. h))

  pub Keeps-run_if : (b : Bool) (m : Step (Unit {0})) → Keeps I m → Keeps I (run_if b m)
  Keeps-run_if true m h = h
  Keeps-run_if false m h = λ log hl. hl

  -- `if !ready { return nil }`, and then a part that uses the client of the primary.
  Keeps-with_primary :
      (m : ℤ → Step (Unit {0}))
      → ((i : ℤ) → Keeps I (m i))
      → Keeps I (
          wrap (current_primary_ready k mariadb) >>= λ ready.
          run_if ready (wrap (current_primary_client k mariadb) >>= m))
  Keeps-with_primary m h =
      Keeps-bind I (wrap (current_primary_ready k mariadb)) _ Keeps-current_primary_ready (λ ready.
        Keeps-run_if ready (wrap (current_primary_client k mariadb) >>= m)
          (Keeps-bind I (wrap (current_primary_client k mariadb)) m Keeps-current_primary_client h))

module _ (k : Cluster) (mariadb : MariaDb) (I : Log → Type 0) (calm : Calm I) where
  pub Keeps-lock_primary : Keeps I (lock_primary_with_read_lock k mariadb)
  unfolding lock_primary_with_read_lock
  Keeps-lock_primary =
      Keeps-with_primary k mariadb I _ (λ i. Keeps-run I k i lock_tables_with_read_lock calm refl)

  pub Keeps-set_primary_read_only : Keeps I (set_primary_read_only k mariadb)
  unfolding set_primary_read_only
  Keeps-set_primary_read_only =
      Keeps-with_primary k mariadb I _ (λ i. Keeps-run I k i enable_read_only calm refl)

  pub Keeps-reset_slave : (i : ℤ) → Keeps I (reset_slave k i)
  unfolding reset_slave
  Keeps-reset_slave i =
      Keeps-then I (wrap (run k i stop_all_slaves)) _ (Keeps-run I k i stop_all_slaves calm refl) (
        Keeps-then I (wrap (run k i reset_slave_pos)) _ (Keeps-run I k i reset_slave_pos calm refl)
          (Keeps-run I k i start_slave calm refl))

  pub Keeps-after_wait : (i : ℤ) (r : Result Error (Unit {0})) → Keeps I (after_wait k i r)
  unfolding after_wait wait_failed
  Keeps-after_wait i (ok _) = Keeps-reset_slave i
  Keeps-after_wait i (err wait_replica_timeout) = Keeps-reset_slave i
  Keeps-after_wait i (err not_found) = λ log h. h
  Keeps-after_wait i (err failed) = λ log h. h

  pub Keeps-sync_replica : (gtid : Bytes) (i : ℕ) → Keeps I (sync_replica k mariadb gtid i)
  unfolding sync_replica
  Keeps-sync_replica gtid i =
      let wait = wait_for_replica_gtid gtid (deref (replica_of mariadb).sync_timeout ten_seconds) in
      Keeps-then I (wrap (client_for k (pos i))) _ (Keeps-client_for I k (pos i)) (λ log h.
        Keeps-after_wait (pos i) (run k (pos i) wait log).0 (run k (pos i) wait log).1
          (Keeps-run I k (pos i) wait calm refl log h))

  pub Keeps-sync_replicas :
      (current : ℤ) (gtid : Bytes) → Keeps I (sync_replicas k mariadb current gtid)
  unfolding sync_replicas
  Keeps-sync_replicas current gtid =
      Keeps-await_all I k (sync_replica k mariadb gtid) _ (Keeps-sync_replica gtid)

  pub Keeps-wait_for_replica_sync : Keeps I (wait_for_replica_sync k mariadb)
  unfolding wait_for_replica_sync
  Keeps-wait_for_replica_sync =
      Keeps-bind I (current_index mariadb) _ (Keeps-current_index k mariadb I) (λ current.
        Keeps-with_primary k mariadb I _ (λ i.
          Keeps-bind I _ (sync_replicas k mariadb current) (λ log h. h)
            (Keeps-sync_replicas current)))

  pub Keeps-seal_primary : Keeps I (seal_primary k mariadb)
  unfolding seal_primary
  Keeps-seal_primary =
      Keeps-then I (phase (lock_primary_with_read_lock k mariadb)) _ Keeps-lock_primary (
        Keeps-then I (phase (set_primary_read_only k mariadb)) _ Keeps-set_primary_read_only
          Keeps-wait_for_replica_sync)

  Keeps-do_change_master : (client i : ℤ) → Keeps I (do_change_master k mariadb client i)
  unfolding do_change_master
  Keeps-do_change_master client i =
      Keeps-bind I (wrap (ask k.secret_key_ref)) _ (λ log h. h)
        (λ password.
          Keeps-bind I (wrap (ask (λ log. k.is_compatible_version))) _ (λ log h. h)
            (λ b. Keeps-run I k client _ calm refl))

  Keeps-reset_slave_pos_if : (client : ℤ) (b : Bool) → Keeps I (reset_slave_pos_if k client b)
  unfolding reset_slave_pos_if
  Keeps-reset_slave_pos_if client true = Keeps-run I k client reset_slave_pos calm refl
  Keeps-reset_slave_pos_if client false = λ log h. h

  pub Keeps-configure_replica :
      (client i j : ℤ) (b : Bool) → Keeps I (configure_replica k mariadb client i j b)
  unfolding configure_replica configure_replica_vars
  Keeps-configure_replica client i j b =
      Keeps-then I (wrap (run k client reset_master)) _
        (Keeps-run I k client reset_master calm refl)
        (Keeps-then I (wrap (run k client stop_all_slaves)) _
          (Keeps-run I k client stop_all_slaves calm refl)
          (Keeps-then I (reset_slave_pos_if k client b) _ (Keeps-reset_slave_pos_if client b) (
            Keeps-then I (wrap (run k client enable_read_only)) _
              (Keeps-run I k client enable_read_only calm refl)
              (Keeps-then I (wrap (configure_replica_vars k mariadb client i)) _
                (Keeps-run I k client _ calm refl)
                (Keeps-then I (wrap (do_change_master k mariadb client j)) _
                  (Keeps-do_change_master client j)
                  (Keeps-run I k client start_slave calm refl))))))

  pub Keeps-connect_ready :
      (i : ℕ) (r : Result Error (List PodCondition)) → Keeps I (connect_ready k mariadb i r)
  unfolding connect_ready
  Keeps-connect_ready i (err not_found) = λ log h. h
  Keeps-connect_ready i (err wait_replica_timeout) = λ log h. h
  Keeps-connect_ready i (err failed) = λ log h. h
  Keeps-connect_ready i (ok cs) = Keeps-run_if k mariadb I (pod_ready cs) _ (
      Keeps-then I (wrap (client_for k (pos i))) _ (Keeps-client_for I k (pos i))
        (Keeps-configure_replica (pos i) (pos i) (desired_index mariadb) true))

  pub Keeps-connect_replicas : Keeps I (connect_replicas_to_new_primary k mariadb)
  unfolding connect_replicas_to_new_primary connect_replica
  Keeps-connect_replicas =
      Keeps-bind I (current_index mariadb) _ (Keeps-current_index k mariadb I) (λ current.
        Keeps-await_all I k (connect_replica k mariadb) _ (λ i log h.
          Keeps-connect_ready i (k.get_pod log (pod_name mariadb.metadata (pos i))) log h))

  pub Keeps-change_primary : Keeps I (change_primary_to_replica k mariadb)
  unfolding change_primary_to_replica
  Keeps-change_primary =
      Keeps-bind I (current_index mariadb) _ (Keeps-current_index k mariadb I) (λ current.
        Keeps-with_primary k mariadb I _ (λ i.
          Keeps-then I (wrap (run k i unlock_tables)) _ (Keeps-run I k i unlock_tables calm refl)
            (Keeps-configure_replica i current (desired_index mariadb) true)))

  Keeps-put_user :
      (client : ℤ) (account password : Bytes) (b : Bool)
      → Keeps I (put_user k client account password b)
  unfolding put_user
  Keeps-put_user client account password true = Keeps-run I k client _ calm refl
  Keeps-put_user client account password false = Keeps-run I k client _ calm refl

  pub Keeps-reconcile_primary_sql : (client : ℤ) → Keeps I (reconcile_primary_sql k client)
  unfolding reconcile_primary_sql reconcile_user_sql
  Keeps-reconcile_primary_sql client =
      Keeps-bind I (wrap (ask k.reconcile_password)) _ (λ log h. h)
        (λ password.
          Keeps-bind I _ _ (λ log h. h)
            (λ exists.
              Keeps-then I (put_user k client _ password exists) _
                (Keeps-put_user client _ password exists) (Keeps-run I k client _ calm refl)))

  Keeps-promotion :
      ((log : Log) (b : Bool) → I log → I (sql (desired_index mariadb) disable_read_only b ∷ log))
      → Keeps I (run k (desired_index mariadb) disable_read_only)
  unfolding run
  Keeps-promotion promoted = λ log h. promoted log _ h

  -- The new primary alone is promoted.
  pub Keeps-promote_primary :
      ((log : Log) (b : Bool) → I log → I (sql (desired_index mariadb) disable_read_only b ∷ log))
      → Keeps I (promote_primary k mariadb)
  unfolding promote_primary configure_new_primary configure_primary configure_primary_vars
  Keeps-promote_primary promoted =
      let i = desired_index mariadb in
      Keeps-then I (phase (configure_new_primary k mariadb)) _
        (Keeps-then I (wrap (wrap (client_for k i))) _ (Keeps-client_for I k i) (
          Keeps-then I (wrap (run k i stop_all_slaves)) _
            (Keeps-run I k i stop_all_slaves calm refl)
            (Keeps-then I (wrap (run k i reset_all_slaves)) _
              (Keeps-run I k i reset_all_slaves calm refl)
              (Keeps-then I (wrap (run k i reset_slave_pos)) _
                (Keeps-run I k i reset_slave_pos calm refl)
                (Keeps-then I (wrap (run k i disable_read_only)) _ (Keeps-promotion promoted) (
                  Keeps-then I (wrap (reconcile_primary_sql k i)) _ (Keeps-reconcile_primary_sql i)
                    (Keeps-run I k i _ calm refl)))))))
        (Keeps-then I (phase (connect_replicas_to_new_primary k mariadb)) _ Keeps-connect_replicas
          Keeps-change_primary)
