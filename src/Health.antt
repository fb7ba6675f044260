-- ===== src/Health.antt =====
-- pkg/health/health.go: the health of a StatefulSet, and the choice of a healthy Pod.
pub mod Choice
mod Examples
use suture_port_mariadb_oper.Prelude.{
  ℕ, suc, Bool, true, false, ◌&&◌, ◌||◌, not, ◌==◌, ltb, List, [], ◌∷◌, Option, none, some, Bytes,
  bytes_lt, ℤ, eqb_ℤ, Result, ok, err, if◌then◌else◌,
}
use suture_port_mariadb_oper.StatefulSet.{pod_index, NameError}
use suture_port_mariadb_oper.Api.{MariaDb, deref, is_configured_replica}
use suture_port_mariadb_oper.Replication.{PodCondition, pod_ready}

-- corev1.Pod: its name and its conditions.
pub record Pod : Type 0 where
  pub name : Bytes
  pub conditions : List PodCondition

pub data HealthError : Type 0 where
  current_primary_not_set list_failed invalid_pod_name no_healthy_instances : HealthError
  unsupported_endpoint_policy get_failed : HealthError

-- `sortPodList`: by the name. Two Pods of a namespace have different names.
unfoldable pub insert_pod : Pod → List Pod → List Pod
insert_pod p [] = p ∷ []
insert_pod p (q ∷ qs) =
    let rest = insert_pod p qs in if bytes_lt q.name p.name then q ∷ rest else p ∷ q ∷ qs

unfoldable pub sort_pod_list : List Pod → List Pod
sort_pod_list [] = []
sort_pod_list (p ∷ ps) = insert_pod p (sort_pod_list ps)

-- One round of the loop; `rest` is what the loop gives for the Pods that follow.
unfoldable pub choose_pod :
    Bool → ℤ → Result NameError ℤ → Result HealthError ℤ → Result HealthError ℤ
choose_pod healthy current (err e) rest = err invalid_pod_name
choose_pod healthy current (ok index) rest =
    if eqb_ℤ index current then rest else if healthy then ok index else rest

unfoldable pub search_healthy : (Pod → Bool) → ℤ → List Pod → Result HealthError ℤ
search_healthy is_healthy current [] = err no_healthy_instances
search_healthy is_healthy current (p ∷ ps) =
    choose_pod (is_healthy p) current (pod_index p.name) (search_healthy is_healthy current ps)

-- `secondaryPodHealthyIndex`; the list of the Pods is the answer of the API server.
unfoldable pub secondary_pod_healthy_index_by :
    Result HealthError (List Pod) → MariaDb → (Pod → Bool) → Result HealthError ℤ
secondary_pod_healthy_index_by listed mariadb is_healthy =
    elim mariadb.status.current_primary_pod_index [
      | none ↦ err current_primary_not_set
      | some current ↦ elim listed [
        | err e ↦ err list_failed
        | ok pods ↦ search_healthy is_healthy current (sort_pod_list pods)
      ]
    ]

unfoldable pub secondary_pod_healthy_index :
    Result HealthError (List Pod) → MariaDb → Result HealthError ℤ
secondary_pod_healthy_index listed mariadb =
    secondary_pod_healthy_index_by listed mariadb (λ p. pod_ready p.conditions)

-- A Pod that is ready and was seen replicating.
unfoldable pub is_healthy_replica : MariaDb → Pod → Bool
is_healthy_replica mariadb p = pod_ready p.conditions && is_configured_replica mariadb p.name

unfoldable pub replica_pod_healthy_index :
    Result HealthError (List Pod) → MariaDb → Result HealthError ℤ
replica_pod_healthy_index listed mariadb =
    secondary_pod_healthy_index_by listed mariadb (is_healthy_replica mariadb)

-- The loop of `HealthyMaxScalePod`.
unfoldable pub choose_ready :
    Bool → Result NameError ℤ → Result HealthError ℤ → Result HealthError ℤ
choose_ready ready (err e) rest = err invalid_pod_name
choose_ready ready (ok index) rest = if ready then ok index else rest

unfoldable pub search_ready : List Pod → Result HealthError ℤ
search_ready [] = err no_healthy_instances
search_ready (p ∷ ps) = choose_ready (pod_ready p.conditions) (pod_index p.name) (search_ready ps)

unfoldable pub healthy_max_scale_pod : Result HealthError (List Pod) → Result HealthError ℤ
healthy_max_scale_pod (err e) = err list_failed
healthy_max_scale_pod (ok pods) = search_ready (sort_pod_list pods)

-- appsv1.StatefulSet and discoveryv1.EndpointSlice.
pub record StatefulSet : Type 0 where
  pub spec_replicas : Option ℕ
  pub ready_replicas : ℕ

pub record EndpointSlice : Type 0 where
  pub ports : List (Option ℕ)
  pub endpoints : List (Option Bool)

pub data EndpointPolicy : Type 0 where
  endpoint_policy_all endpoint_policy_at_least_one : EndpointPolicy

-- `HealthOpts`, after the options: a policy is always set.
pub record HealthOpts : Type 0 where
  pub desired_replicas : Option ℕ
  pub port : Option ℕ
  pub endpoint_policy : EndpointPolicy

unfoldable pub matches_port : ℕ → List (Option ℕ) → Bool
matches_port port [] = false
matches_port port (none ∷ ps) = matches_port port ps
matches_port port (some p ∷ ps) = p == port || matches_port port ps

unfoldable pub count_ready : List (Option Bool) → ℕ
count_ready [] = 0
count_ready (e ∷ es) = let n = count_ready es in if deref e false then suc n else n

unfoldable pub meets_policy : EndpointPolicy → ℕ → ℕ → Bool
meets_policy endpoint_policy_all desired ready = ready == desired
meets_policy endpoint_policy_at_least_one desired ready = ltb 0 ready

-- The first slice that has the port decides.
unfoldable pub check_slices : EndpointPolicy → ℕ → ℕ → List EndpointSlice → Bool
check_slices policy port desired [] = false
check_slices policy port desired (s ∷ ss) =
    let rest = check_slices policy port desired ss in
    if matches_port port s.ports
    then meets_policy policy desired (count_ready s.endpoints)
    else rest

-- `ctrlclient.IgnoreNotFound(err)` at an answer of the API server: `err true` is NotFound.
unfoldable pub ignore_not_found : Bool → Result HealthError Bool
ignore_not_found true = ok false
ignore_not_found false = err get_failed

unfoldable pub check_listed :
    HealthOpts → ℕ → Option ℕ → Result Bool (List EndpointSlice) → Result HealthError Bool
check_listed opts desired none slices = ok true
check_listed opts desired (some port) (err not_found) = ignore_not_found not_found
check_listed opts desired (some port) (ok slices) =
    ok (check_slices opts.endpoint_policy port desired slices)

unfoldable pub check_stateful_set :
    HealthOpts → StatefulSet → Result Bool (List EndpointSlice) → Result HealthError Bool
check_stateful_set opts sts slices =
    let desired = deref opts.desired_replicas (deref sts.spec_replicas 1) in
    if sts.ready_replicas == desired then check_listed opts desired opts.port slices else ok false

unfoldable pub is_stateful_set_healthy :
    HealthOpts
    → Result Bool StatefulSet
    → Result Bool (List EndpointSlice)
    → Result HealthError Bool
is_stateful_set_healthy opts (err not_found) slices = ignore_not_found not_found
is_stateful_set_healthy opts (ok sts) slices = check_stateful_set opts sts slices

-- `IsServiceHealthy`.
unfoldable pub any_ready : List EndpointSlice → Bool
any_ready [] = false
any_ready (s ∷ ss) = ltb 0 (count_ready s.endpoints) || any_ready ss

unfoldable pub is_service_healthy : Result Bool (List EndpointSlice) → Result HealthError Bool
is_service_healthy (err not_found) = ignore_not_found not_found
is_service_healthy (ok slices) = ok (any_ready slices)
