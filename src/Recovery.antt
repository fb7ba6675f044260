-- ===== src/Recovery.antt =====
-- pkg/controller/galera/recovery.go: what the recovery of a Galera cluster asks of the API server,
-- of the agents and of the servers, as steps on the recovery status, the status of the MariaDB and
-- a log. `Cluster` stands for those that answer: an answer may depend on all that went before.
pub mod Polls
pub mod Pods
pub mod States
pub mod Recover
pub mod Restart
pub mod Reconcile
pub mod Controller
pub mod Keeping
pub mod Machine
pub mod Transitions
pub mod Refinement
pub mod OneSource
pub mod Scaling
pub mod Forced
mod Examples
use suture_port_mariadb_oper.Prelude.{
  ℕ, Bool, true, false, not, ◌||◌, List, [], ◌∷◌, ◌++◌, Option, none, some, Bytes, codes, ℤ, pos,
  ltb_ℤ, leb_ℤ, ◌&&◌, Result, ok, err, if◌then◌else◌,
}
use suture_port_mariadb_oper.Steps.{
  Step, ◌>>=◌, ◌>>◌, give, fail, lift, gets, modify, to_result, is_none, wrap_error, require,
}
use suture_port_mariadb_oper.GaleraState.{GaleraState, Bootstrap}
use suture_port_mariadb_oper.Jobs.{Job}
use suture_port_mariadb_oper.StatefulSet.{pod_index, NameError}
use suture_port_mariadb_oper.Api.{
  MariaDb, MariaDbStatus, GaleraRecovery, GaleraRecoveryStatus, deref, no_galera,
  no_galera_recovery,
}
use suture_port_mariadb_oper.Conditions.{StatefulSetStatus}
use suture_port_mariadb_oper.RecoveryStatus.{is_set}

-- apierrors.IsNotFound, or an agent's answer 404; and the other errors.
pub data Error : Type 0 where
  not_found failed : Error

-- A call that changes the cluster, with its arguments and whether it succeeded. A `tick` is the
-- second between two tries of a poll.
pub data Event : Type 0 where
  tick : Event
  pod_deleted : Bytes → Bool → Event
  bootstrap_enabled : ℤ → Option Bootstrap → Bool → Event
  bootstrap_disabled : ℤ → Bool → Event
  replicas_patched : ℕ → Bool → Event
  job_created job_deleted : Bytes → Bool → Event
  status_patched : MariaDbStatus → Bool → Event

-- The newest event is the first.
abbrev pub Log : Type 0
Log = List Event

-- corev1.Pod: its name and the node that it is scheduled to.
pub record Pod : Type 0 where
  pub name : Bytes
  pub node_name : Bytes

pub record Cluster : Type 0 where
  pub now : Log → ℤ
  -- How often a poll tries again before the context is done, whose own timeout is given.
  pub rounds : Log → ℤ → ℕ
  pub get_mariadb : Log → Option Error
  pub get_stateful_set : Log → Result Error StatefulSetStatus
  pub patch_replicas : Log → ℕ → Option Error
  pub list_pods : Log → Result Error (List Pod)
  pub get_pod_phase : Log → Bytes → Result Error Bytes
  pub delete_pod : Log → Bytes → Option Error
  -- The builder, the Jobs by their names, and the Pods of a Job with their logs.
  pub build_job : Bytes → Option Error
  pub get_job : Log → Bytes → Result Error Job
  pub create_job : Log → Bytes → Option Error
  pub delete_job : Log → Bytes → Option Error
  pub list_job_pods : Log → Bytes → Result Error (List Bytes)
  pub read_logs : Log → Bytes → Result Error Bytes
  pub uuid_ok : Bytes → Bool
  -- The secrets of the clients, the clients by the index of a Pod, and what the agents answer.
  pub read_secrets : Log → Option Error
  pub new_client : ℤ → Option Error
  pub health : Log → ℤ → Result Error Bool
  pub get_state : Log → ℤ → Result Error GaleraState
  pub enable_bootstrap : Log → ℤ → Option Bootstrap → Option Error
  pub disable_bootstrap : Log → ℤ → Option Error
  -- The SQL clients, and the variables wsrep_cluster_status and wsrep_local_state_comment.
  pub sql_client : Log → ℤ → Option Error
  pub galera_cluster_status : Log → ℤ → Result Error Bytes
  pub galera_local_state : Log → ℤ → Result Error Bytes
  pub patch_status : Log → MariaDbStatus → Option Error
  -- The order in which goroutines run.
  pub schedule : Log → List Bytes → List Bytes

-- The recovery status, the status of the MariaDB that the controller holds, and the log.
pub record State : Type 0 where
  pub rs : GaleraRecoveryStatus
  pub status : MariaDbStatus
  pub log : Log

abbrev pub Action : Type 0 → Type 0
Action = Step State Error

abbrev pub record_event : State → Event → State
record_event s e = record s { log = e ∷ s.log }

-- A call that changes the cluster.
unfoldable pub call : (Log → Option Error) → (Bool → Event) → Action (Unit {0})
unfolding to_result is_none
call f event s = (to_result (f s.log), record_event s (event (is_none (f s.log))))

-- A call that reads the cluster.
unfoldable pub query : {A : Type 0} → (Log → Result Error A) → Action A
query f s = (f s.log, s)

unfoldable pub set_rs : (GaleraRecoveryStatus → GaleraRecoveryStatus) → Action (Unit {0})
unfolding modify
set_rs f = modify (λ s. record s { rs = f s.rs })

-- `ptr.Deref(galera.Recovery, …)`.
unfoldable pub recovery_of : MariaDb → GaleraRecovery
recovery_of mdb = deref (deref mdb.galera no_galera).recovery no_galera_recovery

abbrev pub five_minutes : ℤ
five_minutes = pos 300000000000

abbrev pub thirty_seconds : ℤ
thirty_seconds = pos 30000000000

-- `IsZero`: no field is set.
unfoldable pub is_zero : GaleraRecoveryStatus → Bool
unfolding is_set
is_zero r =
    not (is_set r.state || is_set r.recovered || is_set r.bootstrap || is_set r.pods_restarted)

-- What the recovery status is written as.
unfoldable pub with_recovery : MariaDbStatus → GaleraRecoveryStatus → MariaDbStatus
unfolding is_zero
with_recovery status r = record status { galera_recovery = if is_zero r then none else some r }

-- The status that the controller holds changes also when the patch fails.
unfoldable pub patch : Cluster → (State → MariaDbStatus) → Action (Unit {0})
unfolding to_result is_none
patch k f s =
    let status = f s in
    (
      to_result (k.patch_status s.log status),
      record s {
        status = status;
        log = status_patched status (is_none (k.patch_status s.log status)) ∷ s.log;
      },
    )

unfoldable pub patch_recovery_status : Cluster → Action (Unit {0})
unfolding patch with_recovery
patch_recovery_status k = patch k (λ s. with_recovery s.status s.rs)

-- `validateIndex`.
unfoldable pub valid_index : MariaDb → ℤ → Bool
valid_index mdb index = leb_ℤ (pos 0) index && ltb_ℤ index (pos mdb.replicas)

-- `clientForIndex`: the client stands for its index. The map of clients saves that one is made
-- twice, and making one depends on nothing that changes.
unfoldable pub client_for_index : Cluster → MariaDb → ℤ → Action ℤ
unfolding ◌>>=◌ ◌>>◌ require lift give wrap_error to_result valid_index
client_for_index k mdb index = do
  require (valid_index mdb index) failed
  lift (wrap_error failed (to_result (k.new_client index)))
  give index

-- `statefulset.PodIndex`, and the client of that index.
unfoldable pub client_for_pod : Cluster → MariaDb → Bytes → Action ℤ
unfolding ◌>>=◌ lift wrap_error client_for_index
client_for_pod k mdb pod = do
  index ← lift (wrap_error failed (pod_index pod))
  client_for_index k mdb index
