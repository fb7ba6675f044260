-- ===== src/Replication/Completed.antt =====
-- pkg/controller/replication/switchover.go: a switchover in which no call fails is complete.
use suture_port_mariadb_oper.Prelude.{
  ◌≡◌, ◌≢◌, ◌<◌, sym, subst, inr, ℕ, true, List, some, ℤ, pos, ok, In,
}
use suture_port_mariadb_oper.Api.{MariaDb, MariaDbStatus}
use suture_port_mariadb_oper.Api.Conditions.{StatusConditions}
use suture_port_mariadb_oper.Conditions.{set_primary_switching}
use suture_port_mariadb_oper.Api.Conditions.{set_condition}
use suture_port_mariadb_oper.Replication.{
  Cluster, Log, wrap, patch, enable_read_only, disable_read_only, unlock_tables,
  lock_tables_with_read_lock,
}
use suture_port_mariadb_oper.Replication.Switchover.{
  desired_index, run_if, seal_primary, promote_primary, switching, switching_status,
  switched_status, switch_primary, should_reconcile_switchover, reconcile_switchover,
}
use suture_port_mariadb_oper.Replication.Progress.{
  Succeeds, IsSmooth, Succeeds-wrap, Succeeds-patch,
}
use suture_port_mariadb_oper.Replication.Success.{
  Succeeds-seal_primary, Succeeds-reconcile_switchover,
}
use suture_port_mariadb_oper.Replication.Keeping.{Keeps-promote_primary}
use suture_port_mariadb_oper.Replication.Triples.{Keeps, Keeps-then}
use suture_port_mariadb_oper.Replication.Logged.{
  Grows, Reaches, Calm-of_Grows, Reaches-first, Reaches-later, Sent, Follows, Unless, Grows-Sent,
  Grows-Follows, Grows-Unless,
}
use suture_port_mariadb_oper.Replication.Reaching.{
  locked, made_read_only, promoted, connected, demoted,
}

-- What a switchover has done: the old primary was locked and made read-only, the new one was let take
-- writes, every other Pod was told to follow it, and the old primary was unlocked and told so too. A
-- Pod that was not ready at some point of the log is left out.
pub record Complete (k : Cluster) (mariadb : MariaDb) (from : ℤ) (log : Log) : Type 0 where
  pub locked : Unless k mariadb from (Sent from lock_tables_with_read_lock) log
  pub read_only : Unless k mariadb from (Sent from enable_read_only) log
  pub writable : Sent (desired_index mariadb) disable_read_only log
  pub replicas :
      (i : ℕ)
      → i < mariadb.replicas
      → pos i ≢ from
      → pos i ≢ desired_index mariadb
      → Unless k mariadb (pos i) (Follows k mariadb (pos i)) log
  pub old_primary :
      Unless k mariadb from (λ l. Sent from unlock_tables l × Follows k mariadb from l) log

module _ (meta : StatusConditions) (k : Cluster) (smooth : IsSmooth k)
    (covers : (log : Log) (is : List ℕ) (i : ℕ) → In i is → In i (k.schedule log is))
    (mariadb : MariaDb) (from : ℤ)
    (current : mariadb.status.current_primary_pod_index ≡ some from) where
  abbrev held : MariaDb
  held = switching meta mariadb

  held-current : held.status.current_primary_pod_index ≡ some from
  unfolding switching switching_status set_primary_switching set_condition
  held-current = current

  Keeps-patch :
      (J : Log → Type 0) (status : MariaDbStatus) → Grows J → Keeps J (wrap (patch k status))
  unfolding patch
  Keeps-patch J status g = λ log h. g _ log h

  Succeeds-first_patch : Succeeds (wrap (patch k (switching_status meta mariadb)))
  Succeeds-first_patch =
      Succeeds-wrap (patch k (switching_status meta mariadb))
        (Succeeds-patch k smooth (switching_status meta mariadb))

  of_seal :
      (J : Log → Type 0)
      → Grows J
      → Reaches J (seal_primary k held)
      → Reaches J (switch_primary meta k mariadb)
  unfolding switch_primary
  of_seal J g h =
      Reaches-later J (wrap (patch k (switching_status meta mariadb))) _ Succeeds-first_patch (λ _.
        Reaches-first J (seal_primary k held) _ h (λ _.
          Keeps-then J (promote_primary k held) _
            (Keeps-promote_primary k held J (Calm-of_Grows J g) (λ log b. g _ log))
            (Keeps-patch J (switched_status meta mariadb) g)))

  of_promote :
      (J : Log → Type 0)
      → Grows J
      → Reaches J (promote_primary k held)
      → Reaches J (switch_primary meta k mariadb)
  unfolding switch_primary
  of_promote J g h =
      Reaches-later J (wrap (patch k (switching_status meta mariadb))) _ Succeeds-first_patch (λ _.
        Reaches-later J (seal_primary k held) _
          (Succeeds-seal_primary k smooth held from held-current)
          (λ _.
            Reaches-first J (promote_primary k held) _ h
              (λ _. Keeps-patch J (switched_status meta mariadb) g)))

  switch_primary-Complete : (log : Log) → Complete k held from (switch_primary meta k mariadb log).1
  switch_primary-Complete log = record {
    locked =
        of_seal _ (Grows-Unless k held from _ (Grows-Sent from _))
          (locked k smooth covers held from held-current) log;
    read_only =
        of_seal _ (Grows-Unless k held from _ (Grows-Sent from _))
          (made_read_only k smooth covers held from held-current) log;
    writable =
        of_promote _ (Grows-Sent (desired_index held) _)
          (promoted k smooth covers held from held-current) log;
    replicas = λ i lt old new.
        of_promote _ (Grows-Unless k held (pos i) _ (Grows-Follows k held (pos i)))
          (connected k smooth covers held from held-current i lt old new) log;
    old_primary =
        of_promote _
          (Grows-Unless k held from (λ l. Sent from unlock_tables l × Follows k held from l)
            (λ e l p. (inr p.0, Grows-Follows k held from e l p.1)))
          (demoted k smooth covers held from held-current) log;
  }

  -- When the current primary is known, no call fails and the goroutines are all run: a switchover that
  -- is due reports no error, and has locked the old primary and made it read-only, let the new primary
  -- take writes, told every other Pod to replicate from the new primary, and unlocked the old primary
  -- and told it so too. A Pod that was not ready at some point of the log is left out.
  pub reconcile_switchover_ok :
      (log : Log)
      → should_reconcile_switchover meta mariadb ≡ true
      → ((reconcile_switchover meta k mariadb log).0 ≡ ok tt)
        × Complete k held from (reconcile_switchover meta k mariadb log).1
  unfolding reconcile_switchover
  reconcile_switchover_ok log due = (
    (Succeeds-reconcile_switchover meta k mariadb from smooth current log).1,
    subst (λ b. Complete k held from (run_if b (switch_primary meta k mariadb) log).1) (sym due)
        (switch_primary-Complete log),
  )
