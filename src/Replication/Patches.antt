-- ===== src/Replication/Patches.antt =====
-- What a switchover writes to the status: pkg/controller/replication/switchover.go.
use suture_port_mariadb_oper.Prelude.{
  ◌≡◌, refl, Bool, true, false, [], ◌∷◌, ◌++◌, Option, none, some, Result, ok, err, All,
}
use suture_port_mariadb_oper.StatefulSet.{pod_name}
use suture_port_mariadb_oper.Api.{MariaDb, MariaDbStatus, ConditionType, update_current_primary}
use suture_port_mariadb_oper.Api.Conditions.{StatusConditions, set_condition}
use suture_port_mariadb_oper.Conditions.{set_primary_switching, set_primary_switched}
use suture_port_mariadb_oper.Conditions.Switching.{set_interrupted_lem, set_resumed_lem}
use suture_port_mariadb_oper.Replication.{
  Cluster, Step, Error, Log, Event, sql, status_patched, resume, wrap, wrap_error, patch, to_result,
  is_none,
}
use suture_port_mariadb_oper.Replication.Switchover.{
  desired_index, seal_primary, promote_primary, switching_status, switching, switched_status,
  switch_primary, run_if, reconcile_switchover, should_reconcile_switchover,
}
use suture_port_mariadb_oper.Replication.Triples.{Calm}
use suture_port_mariadb_oper.Replication.Keeping.{Keeps-seal_primary, Keeps-promote_primary}

-- A status that was written while the primary is being switched: the primary is the one before,
-- and the condition says that it is being switched.
abbrev pub Ongoing : StatusConditions → MariaDb → Event → Type 0
Ongoing meta mariadb (sql i c b) = Unit {0}
Ongoing meta mariadb (status_patched s b) =
    (s.current_primary_pod_index ≡ mariadb.status.current_primary_pod_index)
    × (s.current_primary ≡ mariadb.status.current_primary)
    × (meta.is_status_condition_false s.conditions ConditionType.primary_switched ≡ true)

-- The primary is the desired one, and no condition says that it is being switched.
abbrev pub Switched : StatusConditions → MariaDb → MariaDbStatus → Type 0
Switched meta mariadb s =
    (s.current_primary_pod_index ≡ some (desired_index mariadb))
    × (s.current_primary ≡ some (pod_name mariadb.metadata (desired_index mariadb)))
    × (meta.is_status_condition_false s.conditions ConditionType.primary_switched ≡ false)

-- After success the newest event is a patch to such a status that succeeded. After an error there
-- is no such patch, but perhaps a last one that failed.
abbrev pub Outcome : StatusConditions → MariaDb → Result Error (Unit {0}) → Log → Type 0
Outcome meta mariadb (ok _) log =
    (s : MariaDbStatus) × (earlier : Log) × (log ≡ status_patched s true ∷ earlier)
    × Switched meta mariadb s
    × All (Ongoing meta mariadb) earlier
Outcome meta mariadb (err e) log =
    (last : Log) × (earlier : Log) × (log ≡ last ++ earlier)
    × All (λ e. (s : MariaDbStatus) × (e ≡ status_patched s false)) last
    × All (Ongoing meta mariadb) earlier

module _ (meta : StatusConditions) (mariadb : MariaDb) where
  abbrev Started : Log → Type 0
  Started log = All (Ongoing meta mariadb) log

  Calm-Started : Calm Started
  Calm-Started = λ log i c b h hl. (tt, hl)

  -- The first patch.
  switching_status-Ongoing :
      (b : Bool) → Ongoing meta mariadb (status_patched (switching_status meta mariadb) b)
  unfolding switching_status set_primary_switching set_condition
  switching_status-Ongoing b = (refl, refl, (set_interrupted_lem meta mariadb.status mariadb).0.1)

  -- The last one.
  switched_status-Switched : Switched meta mariadb (switched_status meta mariadb)
  unfolding switched_status switching switching_status set_primary_switching set_primary_switched
      update_current_primary set_condition
  switched_status-Switched = (
    refl,
    refl,
    (set_resumed_lem meta (
        update_current_primary (switching meta mariadb).status mariadb
          (desired_index mariadb))).0.1,
  )

  last_patch :
      (o : Option Error) (log : Log)
      → Started log
      → let s = switched_status meta mariadb in
        Outcome meta mariadb (wrap_error (to_result o)) (status_patched s (is_none o) ∷ log)
  last_patch none log h = (switched_status meta mariadb, log, refl, switched_status-Switched, h)
  last_patch (some e) log h = (
    status_patched (switched_status meta mariadb) false ∷ [],
    log,
    refl,
    ((switched_status meta mariadb, refl), tt),
    h,
  )

  -- A part that patches nothing, and what follows it.
  Outcome-resume :
      (r : Result Error (Unit {0})) (log : Log) (n : Step (Unit {0}))
      → Started log
      → ((l : Log) → Started l → Outcome meta mariadb (n l).0 (n l).1)
      → let m = resume r log (λ _. n) in Outcome meta mariadb m.0 m.1
  Outcome-resume (ok _) log n h f = f log h
  Outcome-resume (err e) log n h f = ([], log, refl, tt, h)

  switch_primary-Outcome :
      (k : Cluster) → let m = switch_primary meta k mariadb [] in Outcome meta mariadb m.0 m.1
  unfolding switch_primary patch
  switch_primary-Outcome k =
      let m = switching meta mariadb in
      let one = wrap (patch k (switching_status meta mariadb)) [] in
      Outcome-resume one.0 one.1 _
        (switching_status-Ongoing (is_none (k.patch_status [] (switching_status meta mariadb))), tt)
        (λ l h.
          Outcome-resume (seal_primary k m l).0 (seal_primary k m l).1 _
            (Keeps-seal_primary k m Started Calm-Started l h)
            (λ l' h'.
              Outcome-resume (promote_primary k m l').0 (promote_primary k m l').1 _
                (Keeps-promote_primary k m Started Calm-Started (λ _ _ hl. (tt, hl)) l' h')
                (λ l'' h''.
                  last_patch (k.patch_status l'' (switched_status meta mariadb)) l'' h'')))

  Outcome-run_if :
      (b : Bool) (m : Step (Unit {0}))
      → b ≡ true
      → Outcome meta mariadb (m []).0 (m []).1
      → Outcome meta mariadb (run_if b m []).0 (run_if b m []).1
  Outcome-run_if true m e h = h
  Outcome-run_if false m e h = cc

  run_if-false :
      (b : Bool) (m : Step (Unit {0}))
      → b ≡ false
      → ((run_if b m []).0 ≡ ok tt) × ((run_if b m []).1 ≡ [])
  run_if-false true m e = cc
  run_if-false false m e = (refl, refl)

  -- A switchover that is due writes the new primary to the status when every phase and every patch
  -- succeeds, as its last event, and then it is no longer reported as switching. When anything
  -- fails, no status with another primary is written with success, and each one that is written
  -- reports that the primary is being switched. One that is not due does nothing.
  pub reconcile_switchover-Outcome :
      (k : Cluster)
      → let m = reconcile_switchover meta k mariadb [] in
        (should_reconcile_switchover meta mariadb ≡ true → Outcome meta mariadb m.0 m.1)
        × (should_reconcile_switchover meta mariadb ≡ false → (m.0 ≡ ok tt) × (m.1 ≡ []))
  unfolding reconcile_switchover
  reconcile_switchover-Outcome k = (
    λ h.
        Outcome-run_if (should_reconcile_switchover meta mariadb) (switch_primary meta k mariadb) h
          (switch_primary-Outcome k),
    λ h. run_if-false (should_reconcile_switchover meta mariadb) (switch_primary meta k mariadb) h,
  )
