-- ===== src/Replication/Primary.antt =====
-- The old primary while it is ready: pkg/controller/replication/switchover.go.
use suture_port_mariadb_oper.Prelude.{
  ◌≡◌, refl, true, List, Option, none, some, ℤ, Result, ok, err, In, inl,
}
use suture_port_mariadb_oper.StatefulSet.{pod_name}
use suture_port_mariadb_oper.Api.{MariaDb}
use suture_port_mariadb_oper.Replication.{
  Cluster, Step, Error, Log, sql, ◌>>=◌, resume, wrap, wrap_error, give, run, client_for,
  PodCondition, pod_ready, enable_read_only, lock_tables_with_read_lock, to_result,
}
use suture_port_mariadb_oper.Replication.Switchover.{
  current_index, current_primary_ready, current_primary_client, run_if, lock_primary_with_read_lock,
  set_primary_read_only,
}
use suture_port_mariadb_oper.Replication.Triples.{Post, Post-resume, Post-wrap, Post-run, Post-map}

module _ (k : Cluster) (mariadb : MariaDb) (from : ℤ)
    (current : mariadb.status.current_primary_pod_index ≡ some from)
    (ready : (log : Log) (cs : List PodCondition)
      → k.get_pod log (pod_name mariadb.metadata from) ≡ ok cs
      → pod_ready cs ≡ true) where
  pub current_is : (log : Log) → current_index mariadb log ≡ (ok from, log)
  unfolding current_index
  current_is log = rw current refl

  ready_answer :
      (r : Result Error (List PodCondition)) (log : Log)
      → ((cs : List PodCondition) → r ≡ ok cs → pod_ready cs ≡ true)
      → Post
          (λ b l. (b ≡ true) × (l ≡ log))
          (resume r log (λ cs. give (pod_ready cs))).0
          (resume r log (λ cs. give (pod_ready cs))).1
  ready_answer (ok cs) log h = (h cs refl, refl)
  ready_answer (err e) log h = tt

  Post-current_primary_ready :
      (log : Log)
      → Post
          (λ b l. (b ≡ true) × (l ≡ log))
          (current_primary_ready k mariadb log).0
          (current_primary_ready k mariadb log).1
  unfolding current_primary_ready
  Post-current_primary_ready log =
      rw (current_is log)
        (ready_answer (k.get_pod log (pod_name mariadb.metadata from)) log (ready log))

  client_answer :
      (o : Option Error) (log : Log)
      → Post
          (λ i l. (i ≡ from) × (l ≡ log))
          (resume (wrap_error (to_result o)) log (λ _. give from)).0
          (resume (wrap_error (to_result o)) log (λ _. give from)).1
  client_answer none log = (refl, refl)
  client_answer (some e) log = tt

  Post-current_primary_client :
      (log : Log)
      → Post
          (λ i l. (i ≡ from) × (l ≡ log))
          (current_primary_client k mariadb log).0
          (current_primary_client k mariadb log).1
  unfolding current_primary_client client_for
  Post-current_primary_client log =
      rw (current_is log) (client_answer (k.client_for_index log from) log)

  -- The old primary is ready, so the part behind the test is run with its client.
  pub Post-with_primary :
      (Q : Unit {0} → Log → Type 0) (m : ℤ → Step (Unit {0})) (log : Log)
      → Post Q (m from log).0 (m from log).1
      → let s =
          (wrap (current_primary_ready k mariadb) >>= λ b.
          run_if b (wrap (current_primary_client k mariadb) >>= m)) in
        Post Q (s log).0 (s log).1
  Post-with_primary Q m log h =
      Post-resume (λ b l. (b ≡ true) × (l ≡ log)) Q
        (wrap_error (current_primary_ready k mariadb log).0) (current_primary_ready k mariadb log).1
        (λ b. run_if b (wrap (current_primary_client k mariadb) >>= m))
        (Post-wrap (λ b l. (b ≡ true) × (l ≡ log)) (current_primary_ready k mariadb log).0
          (current_primary_ready k mariadb log).1 (Post-current_primary_ready log))
        (λ b l e.
          rw (e.0, e.1)
            (Post-resume (λ i l. (i ≡ from) × (l ≡ log)) Q
              (wrap_error (current_primary_client k mariadb log).0)
              (current_primary_client k mariadb log).1 m
              (Post-wrap (λ i l. (i ≡ from) × (l ≡ log)) (current_primary_client k mariadb log).0
                (current_primary_client k mariadb log).1 (Post-current_primary_client log))
              (λ i l' d. rw (d.0, d.1) h)))

  pub Post-lock_primary :
      (log : Log)
      → Post
          (λ _ l. In (sql from lock_tables_with_read_lock true) l)
          (lock_primary_with_read_lock k mariadb log).0
          (lock_primary_with_read_lock k mariadb log).1
  unfolding lock_primary_with_read_lock
  Post-lock_primary log =
      Post-with_primary _ (λ i. run k i lock_tables_with_read_lock) log
        (Post-map _ _ (run k from lock_tables_with_read_lock log).0
          (run k from lock_tables_with_read_lock log).1 (λ _ e. rw e (inl refl))
          (Post-run k from lock_tables_with_read_lock log))

  pub Post-set_primary_read_only :
      (log : Log)
      → Post
          (λ _ l. In (sql from enable_read_only true) l)
          (set_primary_read_only k mariadb log).0
          (set_primary_read_only k mariadb log).1
  unfolding set_primary_read_only
  Post-set_primary_read_only log =
      Post-with_primary _ (λ i. run k i enable_read_only) log
        (Post-map _ _ (run k from enable_read_only log).0 (run k from enable_read_only log).1
          (λ _ e. rw e (inl refl)) (Post-run k from enable_read_only log))
