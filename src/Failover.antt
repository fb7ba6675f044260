-- ===== src/Failover.antt =====
-- internal/controller/pod_replication_controller.go: the primary is replaced when its Pod fails.
pub mod Due
pub mod Switch
mod Examples
use suture_port_mariadb_oper.Prelude.{
  ℕ, Bool, true, false, ◌&&◌, ◌||◌, not, List, [], ◌∷◌, Option, none, some, Bytes, ℤ, pos, eqb_ℤ,
  ltb_ℤ, ◌-ℤ◌, negsuc, Result, ok, err, if◌then◌else◌,
}
use suture_port_mariadb_oper.StatefulSet.{pod_index, NameError}
use suture_port_mariadb_oper.Api.{
  MariaDb, MariaDbStatus, Replication, PrimaryReplication, deref, no_primary, replication_of,
  has_configured_replica, is_suspended, automatic_failover_delay,
}
use suture_port_mariadb_oper.Api.Conditions.{StatusConditions, set_condition, is_restoring_backup}
use suture_port_mariadb_oper.Conditions.{set_primary_switching}
use suture_port_mariadb_oper.Health.{Pod, HealthError, replica_pod_healthy_index}

pub data FailoverError : Type 0 where
  delay_automatic_failover invalid_pod_index no_healthy_replica patch_failed : FailoverError

-- The MariaDB in memory, which a patch changes first, and the patches that were sent.
pub data Patch : Type 0 where
  spec_patched : Option Replication → Patch
  status_patched : MariaDbStatus → Patch

pub record State : Type 0 where
  pub mariadb : MariaDb
  pub patches : List Patch

-- The clock, the API server's list of Pods, and whether a patch is refused.
pub record Server : Type 0 where
  pub now : ℤ
  pub pods : Result HealthError (List Pod)
  pub refuses : List Patch → Patch → Bool

abbrev pub Outcome : Type 0
Outcome = Result FailoverError (Unit {0}) × State

abbrev pub refused : Bool → Result FailoverError (Unit {0})
refused true = err patch_failed
refused false = ok tt

unfoldable pub patch_spec : Server → State → Option Replication → Outcome
patch_spec srv s replication = (
  refused (srv.refuses s.patches (spec_patched replication)),
  record {
    mariadb = record s.mariadb { replication = replication };
    patches = spec_patched replication ∷ s.patches;
  },
)

unfoldable pub patch_status : Server → State → MariaDbStatus → Outcome
patch_status srv s status = (
  refused (srv.refuses s.patches (status_patched status)),
  record {
    mariadb = record s.mariadb { status = status };
    patches = status_patched status ∷ s.patches;
  },
)

-- `shouldReconcile`; the defaults set the pointer.
unfoldable pub should_reconcile : StatusConditions → MariaDb → Bool
should_reconcile meta mariadb =
    not (mariadb.max_scale_ref || is_restoring_backup meta mariadb || is_suspended mariadb)
    && (replication_of mariadb).enabled
    && deref (deref (replication_of mariadb).primary no_primary).automatic_failover false
    && has_configured_replica mariadb

-- `mdb.Replication().Primary.PodIndex = toIndex`.
unfoldable pub with_primary_index : MariaDb → ℤ → Option Replication
with_primary_index mariadb to_index =
    let replication = replication_of mariadb in
    some (record replication {
      primary = some (record (deref replication.primary no_primary) { pod_index = some to_index });
    })

unfoldable pub switching_status : StatusConditions → MariaDb → MariaDbStatus
switching_status meta mariadb =
    record (set_primary_switching (set_condition meta) mariadb.status mariadb) {
      current_primary_failing_since = none;
    }

abbrev pub both_ok :
    Result FailoverError (Unit {0})
    → Result FailoverError (Unit {0})
    → Result FailoverError (Unit {0})
both_ok (ok _) (ok _) = ok tt
both_ok _ _ = err patch_failed

-- The two patches are both sent, and an error of either is reported.
unfoldable pub switch_to : StatusConditions → Server → State → ℤ → Outcome
switch_to meta srv s to_index =
    let one = patch_spec srv s (with_primary_index s.mariadb to_index) in
    let two = patch_status srv one.1 (switching_status meta one.1.mariadb) in
    (both_ok one.0 two.0, two.1)

-- The delay, counted from when the primary was first seen to fail.
unfoldable pub is_delayed : ℤ → ℤ → Option ℤ → Bool
is_delayed now delay none = false
is_delayed now delay (some since) = ltb_ℤ (pos 0) delay && ltb_ℤ (now -ℤ since) delay

unfoldable pub choose_replica : StatusConditions → Server → State → Result HealthError ℤ → Outcome
choose_replica meta srv s (err e) = (err no_healthy_replica, s)
choose_replica meta srv s (ok to_index) = switch_to meta srv s to_index

unfoldable pub fail_over : StatusConditions → Server → State → Outcome
fail_over meta srv s =
    elim (is_delayed srv.now (automatic_failover_delay s.mariadb)
      s.mariadb.status.current_primary_failing_since) [
        | true ↦ (err delay_automatic_failover, s)
        | false ↦ choose_replica meta srv s (replica_pod_healthy_index srv.pods s.mariadb)
      ]

abbrev pub unless_failed : Outcome → (State → Outcome) → Outcome
unless_failed o next = elim o.0 [ ok _ ↦ next o.1 | err e ↦ (err e, o.1) ]

-- The first time that the primary is seen to fail is written down.
unfoldable pub note_failing : Server → State → Outcome
note_failing srv s = elim s.mariadb.status.current_primary_failing_since [
  | none ↦
      patch_status srv s (record s.mariadb.status { current_primary_failing_since = some srv.now })
  | some since ↦ (ok tt, s)
]

-- Whether the Pod is the current primary, or the error of its name.
unfoldable pub is_current : Result NameError ℤ → ℤ → Result FailoverError Bool
is_current (err e) current = err invalid_pod_index
is_current (ok index) current = ok (eqb_ℤ index current)

unfoldable pub when_current : Result FailoverError Bool → State → Outcome → Outcome
when_current (err e) s o = (err e, s)
when_current (ok false) s o = (ok tt, s)
when_current (ok true) s o = o

-- `ReconcilePodNotReady`.
unfoldable pub reconcile_pod_not_ready : StatusConditions → Server → Pod → State → Outcome
reconcile_pod_not_ready meta srv pod s = elim (should_reconcile meta s.mariadb) [
  | false ↦ (ok tt, s)
  | true ↦ elim s.mariadb.status.current_primary_pod_index [
    | none ↦ (ok tt, s)
    | some current ↦
        when_current (is_current (pod_index pod.name) current) s
          (unless_failed (note_failing srv s) (fail_over meta srv))
  ]
]

unfoldable pub clear_failing : Server → State → Outcome
clear_failing srv s = elim s.mariadb.status.current_primary_failing_since [
  | none ↦ (ok tt, s)
  | some since ↦
      patch_status srv s (record s.mariadb.status { current_primary_failing_since = none })
]

-- `ReconcilePodReady`.
unfoldable pub reconcile_pod_ready : Server → Pod → State → Outcome
reconcile_pod_ready srv pod s = elim s.mariadb.status.current_primary_pod_index [
  | none ↦ (ok tt, s)
  | some current ↦ when_current (is_current (pod_index pod.name) current) s (clear_failing srv s)
]
