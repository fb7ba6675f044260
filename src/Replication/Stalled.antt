-- ===== src/Replication/Stalled.antt =====
-- A switchover that is not resumed: pkg/controller/replication/controller.go and switchover.go,
-- internal/controller/mariadb_controller_status.go.
use suture_port_mariadb_oper.Prelude.{
  ◌≡◌, refl, ℕ, zero, suc, Bool, true, false, not, ◌&&◌, [], ◌∷◌, Option, none, some, Bytes, Dict,
  insert, pos, Result, ok, arith, if◌then◌else◌,
}
use suture_port_mariadb_oper.StatefulSet.{pod_name}
use suture_port_mariadb_oper.Api.{
  MariaDb, ConditionType, ReplicationState, is_slave, any_slave, has_configured_replica,
  replication_of, deref,
}
use suture_port_mariadb_oper.Api.Conditions.{StatusConditions, is_switching_primary}
use suture_port_mariadb_oper.Replication.{Cluster, Step, Error, Log, ◌>>=◌, ◌>>◌, give, wrap, ask}
use suture_port_mariadb_oper.Replication.Switchover.{
  reconcile_switchover, should_reconcile_switchover, run_if, switch_primary,
}
use suture_port_mariadb_oper.Replication.Controller.{
  Requeue, no_requeue, when_healthy, reconcile, state_of_variables, put_state, observe,
  get_replication_status,
}

any_slave-insert :
    (pod : Bytes) (state : ReplicationState) (d : Dict ReplicationState)
    → is_slave state ≡ false
    → any_slave d ≡ false
    → any_slave (insert pod state d) ≡ false
unfolding any_slave insert
any_slave-insert pod state [] s h = ground (arith, s)
any_slave-insert pod state ((p, q) ∷ d) s h = ground (arith, s, h, any_slave-insert pod state d s)

-- Each Pod that can be asked has the semi-synchronous master enabled.
abbrev pub AllMasters : (ℕ → Option (Bool × Bool)) → Type 0
AllMasters variables = (i : ℕ) (v : Bool × Bool) → variables i ≡ some v → v.0 ≡ true

put_state-any_slave :
    (pod : Bytes) (o : Option (Bool × Bool)) (d : Dict ReplicationState)
    → ((v : Bool × Bool) → o ≡ some v → v.0 ≡ true)
    → any_slave d ≡ false
    → any_slave (put_state pod o d) ≡ false
unfolding put_state is_slave state_of_variables
put_state-any_slave pod none d m h = h
put_state-any_slave pod (some v) d m h =
    any_slave-insert pod (state_of_variables v.0 v.1) d (as_master v.0 v.1 (m v refl)) h
  where
    as_master : (a b : Bool) → a ≡ true → is_slave (state_of_variables a b) ≡ false
    as_master true b e = refl
    as_master false b e = cc

observe-any_slave :
    (variables : ℕ → Option (Bool × Bool)) (mdb : MariaDb) (left i : ℕ) (d : Dict ReplicationState)
    → AllMasters variables
    → any_slave d ≡ false
    → any_slave (observe variables mdb left i d) ≡ false
unfolding observe
observe-any_slave variables mdb zero i d m h = h
observe-any_slave variables mdb (suc left) i d m h =
    observe-any_slave variables mdb left (suc i)
      (put_state (pod_name mdb.metadata (pos i)) (variables i) d) m
      (put_state-any_slave (pod_name mdb.metadata (pos i)) (variables i) d (m i) h)

-- The MariaDB with its replication state as the Pods report it.
abbrev pub observed : (ℕ → Option (Bool × Bool)) → MariaDb → MariaDb
observed variables mdb = record mdb {
  status = record mdb.status { replication_status = get_replication_status variables mdb };
}

observed-has_configured_replica :
    (variables : ℕ → Option (Bool × Bool)) (mdb : MariaDb)
    → AllMasters variables
    → has_configured_replica (observed variables mdb) ≡ false
unfolding has_configured_replica get_replication_status any_slave
observed-has_configured_replica variables mdb m =
    go (replication_of mdb).enabled (observe variables mdb mdb.replicas 0 [])
      (observe-any_slave variables mdb mdb.replicas 0 [] m no_entries)
  where
    no_entries : any_slave [] ≡ false
    no_entries = refl

    go :
        (b : Bool) (d : Dict ReplicationState)
        → any_slave d ≡ false
        → any_slave (deref (if b then some d else none) []) ≡ false
    go true d h = h
    go false d h = refl

module _ (meta : StatusConditions) (k : Cluster) where
  both_and : (a b c : Bool) → b ≡ false → (a && b && c) ≡ false
  both_and a b c h = ground arith

  not_due :
      (mdb : MariaDb)
      → has_configured_replica mdb ≡ false
      → should_reconcile_switchover meta mdb ≡ false
  unfolding should_reconcile_switchover
  not_due mdb h = both_and _ (has_configured_replica mdb) _ h

  idle : (b : Bool) (m : Step (Unit {0})) (log : Log) → b ≡ false → run_if b m log ≡ (ok tt, log)
  idle true m log h = cc
  idle false m log h = refl

  nothing_done :
      (mdb : MariaDb) (log : Log)
      → has_configured_replica mdb ≡ false
      → (reconcile_switchover meta k mdb >> give no_requeue) log ≡ (ok no_requeue, log)
  unfolding reconcile_switchover
  nothing_done mdb log h =
      rw
        (idle (should_reconcile_switchover meta mdb) (switch_primary meta k mdb) log
          (not_due mdb h))
        refl

  -- While the primary is reported as being switched, without MaxScale, and every Pod that can be asked
  -- has the semi-synchronous master enabled, Reconcile with the state that is observed so sends
  -- nothing, reports no error and asks for no other run.
  pub reconcile-stalled :
      (healthy : Log → Result Error Bool) (variables : ℕ → Option (Bool × Bool)) (mdb : MariaDb)
      (log : Log)
      → (replication_of mdb).enabled ≡ true
      → mdb.max_scale_ref ≡ false
      → is_switching_primary meta mdb ≡ true
      → AllMasters variables
      → reconcile meta k healthy (observed variables mdb) log ≡ (ok no_requeue, log)
  unfolding reconcile is_switching_primary replication_of
  reconcile-stalled healthy variables mdb log enabled max switching masters =
      go (replication_of mdb).enabled
        (not mdb.max_scale_ref
          && meta.is_status_condition_false mdb.status.conditions ConditionType.primary_switched)
        enabled (ground (arith, max, switching))
    where
      go :
          (b c : Bool)
          → b ≡ true
          → c ≡ true
          → let s : Step Requeue = elim b [
            | false ↦ give no_requeue
            | true ↦ elim c [
              | true ↦ reconcile_switchover meta k (observed variables mdb) >> give no_requeue
              | false ↦ wrap (ask healthy) >>= when_healthy meta k (observed variables mdb)
            ]
          ] in
            s log ≡ (ok no_requeue, log)
      go true true e h =
          nothing_done (observed variables mdb) log
            (observed-has_configured_replica variables mdb masters)
      go true false e h = cc
      go false c e h = cc
