-- ===== src/Replication/Phases.antt =====
-- pkg/controller/replication/switchover.go: what the phases of a switchover have sent when it
-- succeeds.
use suture_port_mariadb_oper.Prelude.{
  ◌≡◌, refl, sym, subst, inl, inr, ℕ, true, List, [], some, ℤ, pos, Result, ok, err, Bool-cases,
}
use suture_port_mariadb_oper.StatefulSet.{pod_name}
use suture_port_mariadb_oper.Api.{MariaDb}
use suture_port_mariadb_oper.Replication.{
  Cluster, Step, Error, Log, Command, resume, ◌>>=◌, ◌>>◌, wrap, wrap_error, give, ask, run,
  client_for, PodCondition, pod_ready, start_slave, enable_read_only, unlock_tables,
  lock_tables_with_read_lock,
}
use suture_port_mariadb_oper.Replication.Config.{
  do_change_master, configure_replica, configure_replica_vars, reset_slave_pos_if,
}
use suture_port_mariadb_oper.Replication.Switchover.{
  desired_index, current_index, current_primary_ready, current_primary_client, run_if,
  lock_primary_with_read_lock, set_primary_read_only, connect_ready, connect_replica,
  change_primary_to_replica, phase,
}
use suture_port_mariadb_oper.Replication.Progress.{IsOk, IsSmooth, Succeeds-wrap, Succeeds-wrap_run}
use suture_port_mariadb_oper.Replication.Keeping.{Keeps-configure_replica}
use suture_port_mariadb_oper.Replication.Triples.{Keeps-run}
use suture_port_mariadb_oper.Replication.Logged.{
  Reaches, Calm-of_Grows, Reaches-first, Reaches-later, Sent, Grows-Sent, Unless, Follows,
  Grows-Follows,
}

module _ (k : Cluster) (smooth : IsSmooth k) (mariadb : MariaDb) (from : ℤ)
    (current : mariadb.status.current_primary_pod_index ≡ some from) where
  pub Reaches-run : (j : ℤ) (c : Command) → Reaches (Sent j c) (wrap (run k j c))
  unfolding run
  Reaches-run j c = λ log. rw (smooth.runs log j c) (inl refl)

  Reaches-with_primary :
      (J : Log → Type 0) (m : ℤ → Step (Unit {0}))
      → Reaches J (m from)
      → Reaches (Unless k mariadb from J) (
          wrap (current_primary_ready k mariadb) >>= λ ready.
          run_if ready (wrap (current_primary_client k mariadb) >>= m))
  unfolding current_primary_ready current_primary_client current_index client_for
  Reaches-with_primary J m h = λ log. rw current (
      go log (k.get_pod log (pod_name mariadb.metadata from)) refl
        (smooth.gets log (pod_name mariadb.metadata from)))
    where
      client : Step ℤ
      client = wrap (wrap (client_for k from) >>= λ _. give from)

      go :
          (log : Log) (r : Result Error (List PodCondition))
          → k.get_pod log (pod_name mariadb.metadata from) ≡ r
          → IsOk r
          → Unless k mariadb from J
              (resume
                (wrap_error (resume r log (λ cs. give (pod_ready cs))).0)
                (resume r log (λ cs. give (pod_ready cs))).1
                (λ ready. run_if ready (client >>= m))).1
      go log (err e) q o = cc (o.1)
      go log (ok cs) q o = elim (Bool-cases (pod_ready cs)) [
        | inl b ↦ rw b (inr (rw (smooth.connects log from) (h log)))
        | inr b ↦ rw b (inl (log, [], refl, cs, q, b))
      ]

  pub Reaches-sent :
      (J : Log → Type 0) (j : ℤ) (c : Command) (n : Step (Unit {0}))
      → Reaches J n
      → Reaches J (wrap (run k j c) >> n)
  Reaches-sent J j c n h =
      Reaches-later J (wrap (run k j c)) (λ _. n) (Succeeds-wrap_run k smooth j c) (λ _. h)

  Reaches-do_change_master :
      (j : ℤ) → Reaches (Follows k mariadb j) (do_change_master k mariadb j (desired_index mariadb))
  unfolding do_change_master run
  Reaches-do_change_master j =
      Reaches-later (Follows k mariadb j) (wrap (ask k.secret_key_ref)) _
        (Succeeds-wrap (ask k.secret_key_ref) smooth.resolves)
        (λ password log.
          let (b, q) = smooth.compares in rw q (b, refl, _, _, password, Reaches-run j _ log))

  Reaches-configure_replica :
      (j i : ℤ)
      → Reaches (Follows k mariadb j) (configure_replica k mariadb j i (desired_index mariadb) true)
  unfolding configure_replica reset_slave_pos_if configure_replica_vars
  Reaches-configure_replica j i = Reaches-sent (Follows k mariadb j) j _ _ (
      Reaches-sent (Follows k mariadb j) j _ _ (
        Reaches-sent (Follows k mariadb j) j _ _ (
          Reaches-sent (Follows k mariadb j) j _ _ (
            Reaches-later (Follows k mariadb j) (wrap (configure_replica_vars k mariadb j i)) _
              (Succeeds-wrap (configure_replica_vars k mariadb j i)
                (Succeeds-wrap_run k smooth j _))
              (λ _.
                Reaches-first (Follows k mariadb j)
                  (wrap (do_change_master k mariadb j (desired_index mariadb)))
                  (λ _. wrap (run k j start_slave)) (Reaches-do_change_master j)
                  (λ _.
                    Keeps-run (Follows k mariadb j) k j start_slave
                      (Calm-of_Grows (Follows k mariadb j) (Grows-Follows k mariadb j)) refl))))))

  pub Reaches-lock_primary :
      Reaches
        (Unless k mariadb from (Sent from lock_tables_with_read_lock))
        (phase (lock_primary_with_read_lock k mariadb))
  unfolding lock_primary_with_read_lock
  Reaches-lock_primary =
      Reaches-with_primary (Sent from lock_tables_with_read_lock)
        (λ i. run k i lock_tables_with_read_lock) (Reaches-run from lock_tables_with_read_lock)

  pub Reaches-set_primary_read_only :
      Reaches
        (Unless k mariadb from (Sent from enable_read_only))
        (phase (set_primary_read_only k mariadb))
  unfolding set_primary_read_only
  Reaches-set_primary_read_only =
      Reaches-with_primary (Sent from enable_read_only) (λ i. run k i enable_read_only)
        (Reaches-run from enable_read_only)

  current_index-from : (log : Log) → current_index mariadb log ≡ (ok from, log)
  unfolding current_index
  current_index-from log = rw current refl

  pub Reaches-current :
      (J : Log → Type 0) (n : ℤ → Step (Unit {0}))
      → Reaches J (n from)
      → Reaches J (current_index mariadb >>= n)
  Reaches-current J n h =
      λ log. subst (λ p. J (resume p.0 p.1 n).1) (sym (current_index-from log)) (h log)

  pub Reaches-change_primary :
      Reaches
        (Unless k mariadb from (λ log. Sent from unlock_tables log × Follows k mariadb from log))
        (phase (change_primary_to_replica k mariadb))
  unfolding change_primary_to_replica
  Reaches-change_primary =
      Reaches-current
        (Unless k mariadb from (λ log. Sent from unlock_tables log × Follows k mariadb from log)) _
        (Reaches-with_primary (λ log. Sent from unlock_tables log × Follows k mariadb from log)
          (λ i.
            wrap (run k i unlock_tables)
            >> configure_replica k mariadb i from (desired_index mariadb) true)
          (λ l. (
            Reaches-first (Sent from unlock_tables) (wrap (run k from unlock_tables))
                (λ _. configure_replica k mariadb from from (desired_index mariadb) true)
                (Reaches-run from unlock_tables)
                (λ _.
                  Keeps-configure_replica k mariadb (Sent from unlock_tables)
                    (Calm-of_Grows (Sent from unlock_tables) (Grows-Sent from unlock_tables)) from
                    from (desired_index mariadb) true)
                l,
            Reaches-sent (Follows k mariadb from) from unlock_tables _
                (Reaches-configure_replica from from) l,
          )))

  pub Reaches-connect_replica :
      (i : ℕ)
      → Reaches (Unless k mariadb (pos i) (Follows k mariadb (pos i))) (connect_replica k mariadb i)
  unfolding connect_replica connect_ready client_for
  Reaches-connect_replica i = λ log.
      go log (k.get_pod log (pod_name mariadb.metadata (pos i))) refl
        (smooth.gets log (pod_name mariadb.metadata (pos i)))
    where
      go :
          (log : Log) (r : Result Error (List PodCondition))
          → k.get_pod log (pod_name mariadb.metadata (pos i)) ≡ r
          → IsOk r
          → Unless k mariadb (pos i) (Follows k mariadb (pos i)) (connect_ready k mariadb i r log).1
      go log (err e) q o = cc (o.1)
      go log (ok cs) q o = elim (Bool-cases (pod_ready cs)) [
        | inl b ↦
            rw b (
              inr
                (rw (smooth.connects log (pos i)) (Reaches-configure_replica (pos i) (pos i) log)))
        | inr b ↦ rw b (inl (log, [], refl, cs, q, b))
      ]
