-- ===== src/Replication.antt =====
-- pkg/controller/replication: what the controller asks of the servers and of the API server, as
-- steps that keep a log. `Cluster` stands for the SQL client, the Kubernetes client and the clock:
-- each answer may depend on all that was asked before.
pub mod Config
pub mod Switchover
pub mod Triples
pub mod Keeping
pub mod Primary
pub mod Sealing
pub mod Fencing
pub mod Patches
pub mod Progress
pub mod Success
pub mod Logged
pub mod Phases
pub mod Reaching
pub mod Completed
pub mod Controller
pub mod Stalled
mod Scenarios
mod Examples
use suture_port_mariadb_oper.Prelude.{
  ℕ, Bool, true, false, List, [], ◌∷◌, Option, none, some, Bytes, ℤ, Result, ok, err, if◌then◌else◌,
}
use suture_port_mariadb_oper.Api.{ConditionStatus, status_true, MariaDbStatus}

-- The kinds of errors that the code tells apart: apierrors.IsNotFound, ErrWaitReplicaTimeout, and
-- the others. An error that is wrapped by `%v` is one of the others.
pub data Error : Type 0 where
  not_found wait_replica_timeout failed : Error

-- The methods of the SQL client that change the server, with what the code passes to them.
pub data Command : Type 0 where
  lock_tables_with_read_lock unlock_tables enable_read_only disable_read_only : Command
  reset_master start_slave stop_all_slaves reset_all_slaves reset_slave_pos : Command
  wait_for_replica_gtid : Bytes → ℤ → Command
  set_system_variables : List (Bytes × Bytes) → Command
  change_master : Bytes → Bytes → ℤ → Bytes → Command
  create_user alter_user : Bytes → Bytes → Command
  grant : Bytes → Bytes → Command

-- A command to the server of a Pod, or a patch of the status, and whether it succeeded.
pub data Event : Type 0 where
  sql : ℤ → Command → Bool → Event
  status_patched : MariaDbStatus → Bool → Event

-- The newest event is the first.
abbrev pub Log : Type 0
Log = List Event

-- corev1.PodCondition: whether it is the one of type Ready, and its status.
pub record PodCondition : Type 0 where
  pub is_ready_type : Bool
  pub status : ConditionStatus

pub record Cluster : Type 0 where
  pub exec : Log → ℤ → Command → Option Error
  pub system_variable : Log → ℤ → Bytes → Result Error Bytes
  pub user_exists : Log → ℤ → Bytes → Bytes → Result Error Bool
  -- `ClientForIndex`: whether a connection to the server can be made.
  pub client_for_index : Log → ℤ → Option Error
  -- The conditions of the Pod of that name.
  pub get_pod : Log → Bytes → Result Error (List PodCondition)
  pub patch_status : Log → MariaDbStatus → Option Error
  -- The password of the replication user: reconciled, and read.
  pub reconcile_password : Log → Result Error Bytes
  pub secret_key_ref : Log → Result Error Bytes
  -- Whether the image of the MariaDB has at least the version 10.6.
  pub is_compatible_version : Result Error Bool
  -- The environment variable CLUSTER_NAME.
  pub cluster_name : Bytes
  -- The order in which goroutines run, and whether the context is done when they are awaited.
  pub schedule : Log → List ℕ → List ℕ
  pub done : Log → Option Error

abbrev pub Step : Type 0 → Type 0
Step A = Log → Result Error A × Log

-- An error ends the step, and the log is kept.
abbrev pub resume : {A B : Type 0} → Result Error A → Log → (A → Step B) → Result Error B × Log
resume (ok a) log k = k a log
resume (err e) log k = (err e, log)

infixl 5 ◌>>=◌ ◌>>◌
abbrev pub ◌>>=◌ : {A B : Type 0} → Step A → (A → Step B) → Step B
m >>= k = λ log. resume (m log).0 (m log).1 k

abbrev pub ◌>>◌ : {B : Type 0} → Step (Unit {0}) → Step B → Step B
m >> n = m >>= λ _. n

abbrev pub give : {A : Type 0} → A → Step A
give a log = (ok a, log)

abbrev pub fail : {A : Type 0} → Error → Step A
fail e log = (err e, log)

-- `fmt.Errorf("…: %v", err)`.
abbrev pub wrap_error : {A : Type 0} → Result Error A → Result Error A
wrap_error (ok a) = ok a
wrap_error (err e) = err failed

abbrev pub wrap : {A : Type 0} → Step A → Step A
wrap m log = (wrap_error (m log).0, (m log).1)

abbrev pub ask : {A : Type 0} → (Log → Result Error A) → Step A
ask f log = (f log, log)

abbrev pub to_result : Option Error → Result Error (Unit {0})
to_result none = ok tt
to_result (some e) = err e

abbrev pub is_none : {A : Type 0} → Option A → Bool
is_none none = true
is_none (some a) = false

-- A command, by the client of the Pod with the index `i`.
unfoldable pub run : Cluster → ℤ → Command → Step (Unit {0})
run k i c log = (to_result (k.exec log i c), sql i c (is_none (k.exec log i c)) ∷ log)

-- `clientForIndex`.
unfoldable pub client_for : Cluster → ℤ → Step (Unit {0})
client_for k i = ask (λ log. to_result (k.client_for_index log i))

unfoldable pub patch : Cluster → MariaDbStatus → Step (Unit {0})
patch k status log = (
  to_result (k.patch_status log status),
  status_patched status (is_none (k.patch_status log status)) ∷ log,
)

-- pkg/pod, `PodReady`: the first condition of the type Ready is true.
unfoldable pub pod_ready : List PodCondition → Bool
pod_ready [] = false
pod_ready (c ∷ cs) =
    if c.is_ready_type then elim c.status [ status_true ↦ true | _ ↦ false ] else pod_ready cs

-- Goroutines that are started in the order of the list: the first error that is sent wins.
abbrev pub first_error :
    Result Error (Unit {0}) → Result Error (Unit {0}) × Log → Result Error (Unit {0}) × Log
first_error (ok _) rest = rest
first_error (err e) rest = (err e, rest.1)

unfoldable pub run_all : (ℕ → Step (Unit {0})) → List ℕ → Step (Unit {0})
run_all body [] log = (ok tt, log)
run_all body (i ∷ is) log = first_error (body i log).0 (run_all body is (body i log).1)

abbrev pub unless_done :
    Option Error → Result Error (Unit {0}) × Log → Result Error (Unit {0}) × Log
unless_done none r = r
unless_done (some e) r = (err e, r.1)

-- The goroutines and the `select` behind them. A goroutine runs to its end, and no other one in
-- between: two of them send their commands to different Pods.
unfoldable pub await_all : Cluster → (ℕ → Step (Unit {0})) → List ℕ → Step (Unit {0})
await_all k body is log = let r = run_all body (k.schedule log is) log in unless_done (k.done r.1) r

-- An error of a phase that is no NotFound error is wrapped.
abbrev pub phase_error : {A : Type 0} → Result Error A → Result Error A
phase_error (ok a) = ok a
phase_error (err not_found) = err not_found
phase_error (err _) = err failed
