-- ===== src/Replication/Sealing.antt =====
-- The first three phases of a switchover: pkg/controller/replication/switchover.go.
use suture_port_mariadb_oper.Prelude.{
  ◌≡◌, ◌≢◌, refl, subst, ap, ℕ, zero, suc, ◌+◌, ◌<◌, ◌≤◌, Bool, true, false, List, [], ◌∷◌, ◌++◌,
  Option, none, some, Bytes, ℤ, pos, eqb_ℤ, eqb_ℤ_iff, ◌==◌, Result, ok, err, In, inl, inr,
  Bool-cases, arith, ◌⊎◌,
}
use suture_port_mariadb_oper.StatefulSet.{pod_name}
use suture_port_mariadb_oper.Api.{MariaDb, deref, ten_seconds}
use suture_port_mariadb_oper.Replication.{
  Cluster, Error, not_found, wait_replica_timeout, failed, Log, Event, sql, ◌>>=◌, resume, wrap,
  wrap_error, ask, run, client_for, PodCondition, pod_ready, enable_read_only,
  lock_tables_with_read_lock, wait_for_replica_gtid, run_all, await_all, unless_done, to_result,
  phase_error,
}
use suture_port_mariadb_oper.Replication.Config.{replica_of}
use suture_port_mariadb_oper.Replication.Switchover.{
  lock_primary_with_read_lock, set_primary_read_only, indices_from, after_wait, wait_failed,
  sync_replica, sync_replicas, wait_for_replica_sync, gtid_binlog_pos, seal_primary, reset_slave,
}
use suture_port_mariadb_oper.Replication.Triples.{
  Calm, Keeps-run_all, Post, Post-resume, Post-run, Calm-In, Post-of_Keeps, Post-map, Post-with,
  Post-phase, Post-run_all,
}
use suture_port_mariadb_oper.Replication.Keeping.{
  Keeps-reset_slave, Keeps-sync_replica, Keeps-sync_replicas, Keeps-set_primary_read_only,
}
use suture_port_mariadb_oper.Replication.Primary.{
  current_is, Post-with_primary, Post-lock_primary, Post-set_primary_read_only,
}

-- The commands that stop the writes on the old primary.
abbrev pub Locked : ℤ → Log → Type 0
Locked from log =
    In (sql from lock_tables_with_read_lock true) log × In (sql from enable_read_only true) log

-- The replica with the index `i` has caught up with a position.
abbrev pub caught_up : MariaDb → Bytes → ℕ → Event
caught_up mariadb gtid i =
    sql (pos i) (wait_for_replica_gtid gtid (deref (replica_of mariadb).sync_timeout ten_seconds))
      true

-- The old primary was locked when its position was read, and every other Pod has waited for that
-- position.
abbrev pub Sealed : Cluster → MariaDb → ℤ → Log → Type 0
Sealed k mariadb from log =
    (gtid : Bytes) × (before : Log) × (since : Log) × (log ≡ since ++ before)
    × (k.system_variable before from gtid_binlog_pos ≡ ok gtid)
    × Locked from before
    × ((i : ℕ) → i < mariadb.replicas → pos i ≢ from → In (caught_up mariadb gtid i) log)

-- The log is `before` and what was asked since.
abbrev Since : Log → Log → Type 0
Since before log = (since : Log) × (log ≡ since ++ before)

Calm-Since : (before : Log) → Calm (λ log. Since before log)
Calm-Since before = λ log i c b h hl. (sql i c b ∷ hl.0, ap (λ l. sql i c b ∷ l) hl.1)

first_or_later : (a b : ℕ) → a ≤ b → (b ≡ a) ⊎ (suc a ≤ b)
first_or_later a b h = elim (Bool-cases (b == a)) [
  | inl e ↦ inl (ground (arith, e))
  | inr e ↦ inr (ground (arith, e))
]

pub In-indices_from :
    (skip : ℤ → Bool) (left start i : ℕ)
    → start ≤ i
    → i < start + left
    → skip (pos i) ≡ false
    → In i (indices_from skip left start)
unfolding indices_from
In-indices_from skip zero start i h k s = absurd (omega arith)
In-indices_from skip (suc left) start i h k s = elim (first_or_later start i h) [
  | inl e ↦ rw (subst (λ n. skip (pos n) ≡ false) e s) (inl e)
  | inr l ↦ elim (Bool-cases (skip (pos start))) [
    | inl e ↦ rw e (In-indices_from skip left (suc start) i l (omega arith) s)
    | inr e ↦ rw e (inr (In-indices_from skip left (suc start) i l (omega arith) s))
  ]
]

module _ (k : Cluster)
    (covers : (log : Log) (is : List ℕ) (i : ℕ) → In i is → In i (k.schedule log is))
    (mariadb : MariaDb) (from : ℤ) (current : mariadb.status.current_primary_pod_index ≡ some from)
    (ready : (log : Log) (cs : List PodCondition)
      → k.get_pod log (pod_name mariadb.metadata from) ≡ ok cs
      → pod_ready cs ≡ true) where
  -- Behind the wait of a goroutine.
  Post-after_wait :
      (gtid : Bytes) (i : ℕ) (r : Result Error (Unit {0})) (log : Log)
      → Post (λ _ l. In (caught_up mariadb gtid i) l) r log
      → Post
          (λ _ l. In (caught_up mariadb gtid i) l)
          (after_wait k (pos i) r log).0
          (after_wait k (pos i) r log).1
  unfolding after_wait wait_failed
  Post-after_wait gtid i (ok _) log h =
      Post-of_Keeps (λ l. In (caught_up mariadb gtid i) l)
        (wrap_error (reset_slave k (pos i) log).0) (reset_slave k (pos i) log).1
        (Keeps-reset_slave k mariadb (λ l. In (caught_up mariadb gtid i) l)
          (Calm-In (caught_up mariadb gtid i)) (pos i) log h)
  Post-after_wait gtid i (err wait_replica_timeout) log h = tt
  Post-after_wait gtid i (err not_found) log h = tt
  Post-after_wait gtid i (err failed) log h = tt

  Post-sync_replica :
      (gtid : Bytes) (i : ℕ) (log : Log)
      → Post
          (λ _ l. In (caught_up mariadb gtid i) l)
          (sync_replica k mariadb gtid i log).0
          (sync_replica k mariadb gtid i log).1
  unfolding sync_replica client_for
  Post-sync_replica gtid i log =
      let wait = wait_for_replica_gtid gtid (deref (replica_of mariadb).sync_timeout ten_seconds) in
      Post-resume (λ _ _. Unit {0}) (λ _ l. In (caught_up mariadb gtid i) l)
        (wrap_error (to_result (k.client_for_index log (pos i)))) log _
        (Post-of_Keeps (λ _. Unit {0}) (wrap_error (to_result (k.client_for_index log (pos i)))) log
          tt)
        (λ _ l _. Post-after_wait gtid i (run k (pos i) wait l).0 (run k (pos i) wait l).1 (
          Post-map _ _ (run k (pos i) wait l).0 (run k (pos i) wait l).1 (λ _ e. rw e (inl refl))
            (Post-run k (pos i) wait l)))

  Synced : Bytes → Log → Type 0
  Synced gtid log =
      (i : ℕ) → i < mariadb.replicas → pos i ≢ from → In (caught_up mariadb gtid i) log

  Post-unless_done :
      (Q : Log → Type 0) (o : Option Error) (p : Result Error (Unit {0}) × Log)
      → Post (λ _ l. Q l) p.0 p.1
      → Post (λ _ l. Q l) (unless_done o p).0 (unless_done o p).1
  Post-unless_done Q none p h = h
  Post-unless_done Q (some e) p h = tt

  other_index : (i : ℕ) → pos i ≢ from → eqb_ℤ (pos i) from ≡ false
  other_index i h = elim (Bool-cases (eqb_ℤ (pos i) from)) [
    | inl e ↦ absurd (h ((eqb_ℤ_iff (pos i) from).0 e))
    | inr e ↦ e
  ]

  Post-sync_replicas :
      (gtid : Bytes) (log : Log)
      → Post
          (λ _ l. Synced gtid l)
          (sync_replicas k mariadb from gtid log).0
          (sync_replicas k mariadb from gtid log).1
  unfolding sync_replicas await_all Synced
  Post-sync_replicas gtid log =
      let is = indices_from (λ i. eqb_ℤ i from) mariadb.replicas 0 in
      let body = sync_replica k mariadb gtid in
      let p = run_all body (k.schedule log is) log in
      Post-unless_done (Synced gtid) (k.done p.1) p (
        Post-map (λ _ l. (i : ℕ) → In i (k.schedule log is) → In (caught_up mariadb gtid i) l)
          (λ _ l. Synced gtid l) p.0 p.1
          (λ _ h i lt ne. h i (
            covers log is i (
              In-indices_from (λ j. eqb_ℤ j from) mariadb.replicas 0 i (omega arith) (omega arith)
                (other_index i ne))))
          (Post-run_all body (caught_up mariadb gtid) (k.schedule log is) log
            (Post-sync_replica gtid)
            (λ is' j. Keeps-run_all _ body is' (
              Keeps-sync_replica k mariadb (λ l. In (caught_up mariadb gtid j) l)
                (Calm-In (caught_up mariadb gtid j)) gtid))))

  gtid_answer :
      (r : Result Error Bytes) (log : Log)
      → k.system_variable log from gtid_binlog_pos ≡ r
      → Locked from log
      → let m = resume (wrap_error r) log (sync_replicas k mariadb from) in
        Post (λ _ l. Sealed k mariadb from l) m.0 m.1
  unfolding Synced
  gtid_answer (err e) log h locked = tt
  gtid_answer (ok gtid) log h locked =
      let p = sync_replicas k mariadb from gtid log in
      Post-map (λ _ l. Synced gtid l × Since log l) (λ _ l. Sealed k mariadb from l) p.0 p.1
        (λ _ s. (gtid, log, s.1.0, s.1.1, h, locked, s.0))
        (Post-with (λ _ l. Synced gtid l) (λ l. Since log l) p.0 p.1 (Post-sync_replicas gtid log)
          (Keeps-sync_replicas k mariadb (λ l. Since log l) (Calm-Since log) from gtid log
            ([], refl)))

  Post-wait_for_replica_sync :
      (log : Log)
      → Locked from log
      → Post
          (λ _ l. Sealed k mariadb from l)
          (wait_for_replica_sync k mariadb log).0
          (wait_for_replica_sync k mariadb log).1
  unfolding wait_for_replica_sync
  Post-wait_for_replica_sync log locked = rw (current_is k mariadb from current ready log) (
      Post-with_primary k mariadb from current ready (λ _ l. Sealed k mariadb from l)
        (λ client.
          wrap (ask (λ l. k.system_variable l client gtid_binlog_pos))
          >>= sync_replicas k mariadb from)
        log (gtid_answer (k.system_variable log from gtid_binlog_pos) log refl locked))

  -- The first three phases seal the old primary.
  pub seal_primary-Sealed :
      (log : Log)
      → Post
          (λ _ l. Sealed k mariadb from l)
          (seal_primary k mariadb log).0
          (seal_primary k mariadb log).1
  unfolding seal_primary
  seal_primary-Sealed log =
      let lock = sql from lock_tables_with_read_lock true in
      let one = lock_primary_with_read_lock k mariadb log in
      Post-resume (λ _ l. In lock l) (λ _ l. Sealed k mariadb from l) (phase_error one.0) one.1 _
        (Post-phase (λ _ l. In lock l) one.0 one.1
          (Post-lock_primary k mariadb from current ready log))
        (λ _ l h.
          let two = set_primary_read_only k mariadb l in
          Post-resume (λ _ l'. In (sql from enable_read_only true) l' × In lock l')
            (λ _ l'. Sealed k mariadb from l') (phase_error two.0) two.1 _
            (Post-phase _ two.0 two.1 (
              Post-with _ (λ l'. In lock l') two.0 two.1
                (Post-set_primary_read_only k mariadb from current ready l)
                (Keeps-set_primary_read_only k mariadb (λ l'. In lock l') (Calm-In lock) l h)))
            (λ _ l' both.
              let three = wait_for_replica_sync k mariadb l' in
              Post-phase (λ _ m. Sealed k mariadb from m) three.0 three.1
                (Post-wait_for_replica_sync l' (both.1, both.0))))
