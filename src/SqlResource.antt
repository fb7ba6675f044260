-- ===== src/SqlResource.antt =====
-- pkg/controller/sql: how a Database, a User and a Grant are reconciled, over the interfaces of
-- types.go. `Found` stands for the API server and the connection as one reconciliation sees them.
pub mod Finalizing
pub mod Reconciling
pub mod Objects
pub mod Databases
pub mod Users
pub mod Grants
pub mod Cleaning
pub mod Explained
pub mod Kinds
pub mod Reports
pub mod Agreement
pub mod UserOpts
mod Examples
use suture_port_mariadb_oper.Prelude.{
  ℕ, ◌+◌, ◌-◌, ◌*◌, ◌^◌, ◌%◌, Bool, true, false, not, ◌&&◌, List, ◌++◌, Option, none, some, Bytes,
  codes, ℤ, pos, negsuc, ◌-ℤ◌, pos_part, neg_part, sub_ℕ, ltb, ltb_ℤ, eqb_ℤ, Result, ok, err,
  if◌then◌else◌,
}
use suture_port_mariadb_oper.Steps.{Step, ◌>>=◌, ◌>>◌, give, fail, gets, wrap, run_if}
use suture_port_mariadb_oper.Api.{deref}
use suture_port_mariadb_oper.Api.Conditions.{StatusConditions}
use suture_port_mariadb_oper.Conditions.Patchers.{
  Patcher, patcher_failed, patcher_with_error, patcher_ref_resolver,
}
use suture_port_mariadb_oper.Health.{
  HealthOpts, StatefulSet, EndpointSlice, endpoint_policy_all, is_stateful_set_healthy,
}

-- The errors, by the call that failed.
pub data SqlError : Type 0 where
  getting_mariadb waiting_failed connecting_failed statement_failed secret_failed : SqlError
  patch_failed finalizer_failed : SqlError

pub data CleanupPolicy : Type 0 where
  cleanup_policy_skip cleanup_policy_delete : CleanupPolicy

-- `Resource`: what is asked of a SQL resource; `ref_type` is the type that its reference names.
pub record Resource : Type 0 where
  pub name : Bytes
  pub ref_type : Bytes
  pub is_being_deleted : Bool
  pub requeue_interval : Option ℤ
  pub retry_interval : Option ℤ
  pub cleanup_policy : Option CleanupPolicy

-- interfaces.MariaDBObject: a MariaDB or an ExternalMariaDB.
pub record MariaDbObject : Type 0 where
  pub is_external : Bool
  pub replicas : ℕ
  pub port : ℕ
  pub is_being_deleted : Bool

-- ctrl.Result.
pub record CtrlResult : Type 0 where
  pub requeue : Bool
  pub requeue_after : ℤ

unfoldable pub is_zero : CtrlResult → Bool
is_zero r = not r.requeue && eqb_ℤ r.requeue_after (pos 0)

abbrev pub no_requeue : CtrlResult
no_requeue = record { requeue = false; requeue_after = pos 0 }

abbrev pub requeue_now : CtrlResult
requeue_now = record { requeue = true; requeue_after = pos 0 }

abbrev pub requeue_in : ℤ → CtrlResult
requeue_in t = record { requeue = false; requeue_after = t }

pub record SqlOptions : Type 0 where
  pub requeue_interval : ℤ
  pub requeue_max_offset : ℤ

abbrev pub hours : ℕ → ℤ
hours n = pos (n * 3600000000000)

-- `NewSqlReconciler`, before its options are set.
unfoldable pub default_options : SqlOptions
default_options = record { requeue_interval = hours 10; requeue_max_offset = hours 1 }

-- The answers to one reconciliation: `err true` is NotFound. `mariadb_object` is the object of the
-- kind that the reference names, `mariadb` the MariaDB of its name. `random` is `rand.Int63()`.
pub record Found : Type 0 where
  pub mariadb_object : Result Bool MariaDbObject
  pub mariadb : Result Bool MariaDbObject
  pub stateful_set : Result Bool StatefulSet
  pub endpoint_slices : Result Bool (List EndpointSlice)
  pub connection : Result SqlError (Unit {0})
  pub random : ℕ
  pub error_text : SqlError → Bytes

-- `WrappedReconciler`, `WrappedFinalizer` and `Finalizer`; the SQL client is connected.
pub record WrappedReconciler (S : Type 0) : Type 0 where
  pub reconcile_sql : Step S SqlError (Unit {0})
  pub patch_status : Patcher → Step S SqlError (Unit {0})

pub record WrappedFinalizer (S : Type 0) : Type 0 where
  pub put_finalizer : Step S SqlError (Unit {0})
  pub remove_finalizer : Step S SqlError (Unit {0})
  pub contains_finalizer : S → Bool
  pub clean_up : Step S SqlError (Unit {0})

pub record Finalizer (S : Type 0) : Type 0 where
  pub add_finalizer : Step S SqlError (Unit {0})
  pub finalize : Resource → Step S SqlError CtrlResult

abbrev health_opts : MariaDbObject → HealthOpts
health_opts mdb = record {
  desired_replicas = some mdb.replicas;
  port = some mdb.port;
  endpoint_policy = endpoint_policy_all;
}

unfoldable pub wait_for_mariadb : Found → MariaDbObject → Result SqlError CtrlResult
wait_for_mariadb found mdb =
    if mdb.is_external
    then ok no_requeue
    else elim (is_stateful_set_healthy (health_opts mdb) found.stateful_set found.endpoint_slices) [
      | err e ↦ err waiting_failed
      | ok healthy ↦ ok (if healthy then no_requeue else requeue_in (pos 1000000000))
    ]

-- An `int64`, of a sum of two.
abbrev pub wrap_int64 : ℤ → ℤ
wrap_int64 (pos n) = if ltb n (2 ^ 63) then pos n else negsuc (2 ^ 64 - n - 1)
wrap_int64 (negsuc n) = if ltb n (2 ^ 63) then negsuc n else pos (2 ^ 64 - n - 1)

abbrev pub sum : ℤ → ℕ → ℤ
sum a n = sub_ℕ (pos_part a + n) (neg_part a)

unfoldable pub add_requeue_interval_offset : SqlOptions → ℕ → ℤ → ℤ
add_requeue_interval_offset opts random duration =
    if ltb_ℤ (pos 0) opts.requeue_max_offset
    then wrap_int64 (sum duration (random % pos_part opts.requeue_max_offset))
    else duration

-- The step, with its error as a value.
unfoldable pub attempt :
    {S : Type 0} → Step S SqlError (Unit {0}) → Step S SqlError (Option SqlError)
attempt m s = (ok (elim ((m s).0) [ ok a ↦ none | err e ↦ some e ]), (m s).1)

-- multierror.Append, then ErrorOrNil.
abbrev pub append : Option SqlError → Option SqlError → Option SqlError
append none e = e
append (some e) e' = some e

unfoldable pub retry_result : Resource → Option SqlError → CtrlResult
retry_result resource e = elim resource.retry_interval [
  | some t ↦ requeue_in t
  | none ↦ elim e [ some e ↦ requeue_now | none ↦ no_requeue ]
]

module _ (opts : SqlOptions) (found : Found) where
  unfoldable pub requeue_result : Resource → Option SqlError → CtrlResult
  requeue_result resource (some e) = requeue_now
  requeue_result resource none = elim resource.requeue_interval [
    | some t ↦ requeue_in (add_requeue_interval_offset opts found.random t)
    | none ↦
        if ltb_ℤ (pos 0) opts.requeue_interval
        then requeue_in (add_requeue_interval_offset opts found.random opts.requeue_interval)
        else no_requeue
  ]
