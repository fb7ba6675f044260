-- ===== src/Lib.antt =====
-- A verification library for the MariaDB operator (Go). It models the parts that decide what the
-- operator does with a cluster, as functions of its state, and proves what they decide.
--
-- StatefulSet: pkg/statefulset/statefulset.go, names of Pods and Services and their indices.
-- GaleraState: pkg/galera/recovery/recovery.go, the state file and the recovery log of a node:
-- `GaleraState.Marshal` is `marshal`, its `Unmarshal` is `unmarshal`, and `Bootstrap.Unmarshal`
-- is `unmarshal_log`. The parser of github.com/google/uuid is the parameter `uuid_ok`.
-- DataStructures: pkg/datastructures/datastructures.go, indices, differences and slices.
-- Api: api/v1alpha1, the fields of MariaDB that are read, their defaults, and in Api.Conditions
-- the tests on status conditions. `StatusConditions` stands for the package
-- k8s.io/apimachinery/pkg/api/meta: a condition that is set is found under its type, and no other
-- type changes.
-- RecoveryStatus: pkg/controller/galera/recovery_status.go. A `recoveryStatus` is the record that
-- it guards with a mutex; each method is a function of it. The code shares the maps of the status
-- with the MariaDB that is held, and the model copies them.
-- Steps: Go functions that change what they are given and return an error, with the rules for what
-- they keep, what holds behind them, and when they succeed.
-- Recovery: pkg/controller/galera, recovery.go with the parts of controller.go and clientset.go it
-- stands on, pkg/wait/wait.go and pkg/galera/client. Recovery.Polls is the waiting, Recovery.Pods and
-- Recovery.States the calls of the agents and of the API server for a Pod, Recovery.Recover and
-- Recovery.Restart the three phases, Recovery.Reconcile is `reconcileRecovery` and
-- Recovery.Controller `ReconcileGalera`. The record `Cluster` stands for the agents, the API server
-- and the clock; a state keeps the events so far, and an answer may depend on all of them. A poll
-- tries at once, and then once in each round that `rounds` leaves before its context ends. Recorder
-- events are left out, and so is the cache of the clients. Behind a patch of the status, the status
-- in memory is what was sent.
-- GaleraInit: pkg/controller/galera/init.go, `ReconcileInit`; `InitCluster` stands for the API server,
-- the builders, and the reconcilers of the volume and of the ConfigMap.
-- Jobs, Conditions, Completion: pkg/job and pkg/condition, the conditions that the controllers
-- set, over any type with a function that sets one.
-- Replication: pkg/controller/replication. Replication.Config is config.go, what is sent to a server
-- that becomes the primary or a replica; Replication.Switchover is switchover.go, the phases of
-- `reconcileSwitchover`; Replication.Controller is controller.go, with the replication state that
-- internal/controller/mariadb_controller_status.go observes. The record `Cluster` stands for the
-- SQL client, the Kubernetes client and the order of the goroutines; an answer may depend on all
-- that was asked before, so a failure may come at any point. A step keeps a log of the commands and
-- patches, with their success.
-- SqlResource: pkg/controller/sql over the interfaces of its types.go, and the controllers of a
-- Database, a User and a Grant in internal/controller: SqlResource.Reconciling is controller.go,
-- SqlResource.Finalizing finalizer.go. `Found` stands for what one reconciliation
-- sees of the MariaDB, `Server` for the SQL client and the API server; SqlResource.Objects is what
-- the three kinds share. An object in memory is changed before it is sent, as the code does.
-- Health: pkg/health/health.go, on the answers of the API server.
-- Failover: internal/controller/pod_replication_controller.go. A `State` is the MariaDB in memory and
-- the patches that were sent. `reconcile_pod_not_ready` asks Health for a replica, makes it the
-- desired primary and reports that the primary is being switched, which is what
-- `should_reconcile_switchover` of Replication then looks at.
-- Backup: pkg/backup/processor.go, the backup files by their names. Both processors have the same
-- `GetBackupTargetFile` and `GetOldBackupFiles`, so these are modelled once, over the date of a name.
-- The layout of a date (package time) is the parameter `parse_date`.
-- Text: what the code uses of strings, strconv and bufio. Prelude: numbers, lists, maps, results.
--
-- The goroutines of a phase run one after another, in an order that `Cluster` chooses, each to its
-- end; two of them send their commands to different Pods. When an error or the end of the context
-- makes the phase return early, the others are taken to have run before it returns.
--
-- Strings are lists of bytes, and white space is ASCII's. An `int` has 64 bits: `atoi` refuses
-- what is out of range, the sum of a requeue interval and its offset wraps around, and no other
-- arithmetic of the modelled code leaves it. A time is a number of
-- nanoseconds. `decimal_from` runs on fuel, one round for each digit, and n + 1 rounds are enough
-- for n. A scanner stops at a line of 65536 bytes, as bufio does, and the code does not ask for its
-- error. A map is an association list; where the code ranges over one, the result does not depend
-- on the order. Error values keep their kind and not their text, and logging is left out.
--
-- Not modelled: the calls of the Kubernetes API and their retries, the text of the statements, HTTP, files and
-- object storage, the other phases of the MariaDB
-- controller, the builders of Kubernetes objects, certificates, and MaxScale.
pub mod Api
pub mod Backup
pub mod Completion
pub mod Conditions
pub mod DataStructures
pub mod Failover
pub mod GaleraInit
pub mod GaleraState
pub mod Health
pub mod Jobs
pub mod Prelude
pub mod Recovery
pub mod RecoveryStatus
pub mod Replication
pub mod SqlResource
pub mod StatefulSet
pub mod Steps
pub mod Text
