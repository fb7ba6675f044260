-- ===== src/Recovery/States.antt =====
-- pkg/controller/galera/recovery.go: the state of each Pod by its agent, and by a recovery Job.
use suture_port_mariadb_oper.Prelude.{
  Bool, List, [], ◌∷◌, ◌++◌, some, Bytes, codes, ℤ, Result, ok, err, if◌then◌else◌,
}
use suture_port_mariadb_oper.Steps.{
  ◌>>=◌, ◌>>◌, give, fail, lift, gets, wrap, wrap_error, to_result, require, deferred, run_all,
}
use suture_port_mariadb_oper.GaleraState.{GaleraState, Bootstrap, unmarshal_log}
use suture_port_mariadb_oper.Jobs.{is_job_complete}
use suture_port_mariadb_oper.Api.{MariaDb, GaleraRecoveryStatus, deref}
use suture_port_mariadb_oper.Prelude.{lookup}
use suture_port_mariadb_oper.RecoveryStatus.{is_set, set_state, set_recovered}
use suture_port_mariadb_oper.Recovery.{
  Cluster, Action, Error, not_found, failed, Pod, call, query, set_rs, client_for_pod, job_created,
  job_deleted, recovery_of, five_minutes,
}
use suture_port_mariadb_oper.Recovery.Polls.{poll_with_mariadb}
use suture_port_mariadb_oper.Recovery.Pods.{ensure_pod_healthy, patch_stateful_set_replicas}

-- `_, ok := rs.state(pod)`.
unfoldable pub has_state : GaleraRecoveryStatus → Bytes → Bool
unfolding is_set
has_state rs pod = is_set (lookup pod (deref rs.state []))

-- `_, ok := rs.recovered(pod)`.
unfoldable pub has_recovered : GaleraRecoveryStatus → Bytes → Bool
unfolding is_set
has_recovered rs pod = is_set (lookup pod (deref rs.recovered []))

-- The names of the Pods that a loop does not skip. A goroutine sets the entry of its own Pod only,
-- so the tests of the loop may stand before all goroutines.
unfoldable pub not_skipped : (Bytes → Bool) → List Pod → List Bytes
not_skipped skip [] = []
not_skipped skip (p ∷ ps) =
    let rest = not_skipped skip ps in if skip p.name then rest else p.name ∷ rest

unfoldable pub pod_recovery_timeout : MariaDb → ℤ
unfolding recovery_of
pod_recovery_timeout mdb = deref (recovery_of mdb).pod_recovery_timeout five_minutes

-- What an agent answers: without a state, the Pod is skipped.
unfoldable pub store_state : Bytes → Result Error GaleraState → Action (Unit {0})
unfolding set_rs give fail
store_state pod (ok g) = set_rs (λ rs. set_state rs pod g)
store_state pod (err not_found) = give tt
store_state pod (err failed) = fail failed

unfoldable pub fetch_state : Cluster → MariaDb → Bytes → ℤ → Action (Unit {0})
unfolding ◌>>◌ ◌>>=◌ gets store_state ensure_pod_healthy
fetch_state k mdb pod client = do
  ensure_pod_healthy k mdb (pod_recovery_timeout mdb) pod
  answer ← gets (λ s. k.get_state s.log client)
  store_state pod answer

-- The goroutine of a Pod.
unfoldable pub get_pod_state : Cluster → MariaDb → Bytes → Action (Unit {0})
unfolding ◌>>=◌ wrap client_for_pod poll_with_mariadb fetch_state pod_recovery_timeout
get_pod_state k mdb pod = do
  client ← client_for_pod k mdb pod
  wrap failed (poll_with_mariadb k (pod_recovery_timeout mdb) (fetch_state k mdb pod client))

unfoldable pub get_galera_state : Cluster → MariaDb → List Pod → Action (Unit {0})
unfolding ◌>>=◌ gets run_all not_skipped has_state get_pod_state
get_galera_state k mdb pods = do
  names ← gets (λ s. k.schedule s.log (not_skipped (has_state s.rs) pods))
  run_all (get_pod_state k mdb) names

-- `RecoveryJobKey`.
unfoldable pub recovery_job_key : Bytes → Bytes
recovery_job_key pod = pod ++ codes "-recovery"

unfoldable pub create_if_missing : Cluster → Bytes → Result Error (Unit {0}) → Action (Unit {0})
unfolding call give fail
create_if_missing k job (ok _) = give tt
create_if_missing k job (err not_found) = call (λ log. k.create_job log job) (job_created job)
create_if_missing k job (err failed) = fail failed

abbrev pub found : {A : Type 0} → Result Error A → Result Error (Unit {0})
found (ok _) = ok tt
found (err e) = err e

unfoldable pub ensure_job : Cluster → Bytes → Action (Unit {0})
unfolding ◌>>=◌ gets create_if_missing
ensure_job k job = gets (λ s. found (k.get_job s.log job)) >>= create_if_missing k job

unfoldable pub first_pod : List Bytes → Action Bytes
unfolding give fail
first_pod [] = fail failed
first_pod (p ∷ ps) = give p

unfoldable pub get_job_logs : Cluster → Bytes → Action Bytes
unfolding ◌>>=◌ wrap query first_pod
get_job_logs k job = do
  j ← wrap failed (query (λ log. k.get_job log job))
  pods ← wrap failed (query (λ log. k.list_job_pods log job))
  pod ← first_pod pods
  wrap failed (query (λ log. k.read_logs log pod))

unfoldable pub store_recovered : Bytes → Bootstrap → Action (Unit {0})
unfolding set_rs
store_recovered pod b = set_rs (λ rs. set_recovered rs pod b)

-- The function that is polled while a recovery Job runs.
unfoldable pub read_job : Cluster → Bytes → Bytes → Action (Unit {0})
unfolding ◌>>=◌ ◌>>◌ wrap query require lift wrap_error get_job_logs store_recovered
read_job k pod job = do
  j ← wrap failed (query (λ log. k.get_job log job))
  require (is_job_complete (some j)) failed
  logs ← wrap failed (get_job_logs k job)
  b ← lift (wrap_error failed (unmarshal_log k.uuid_ok logs))
  store_recovered pod b

-- The goroutine of a Pod: its Job is deleted again, whatever comes of it.
unfoldable pub recover_pod : Cluster → MariaDb → Bytes → Action (Unit {0})
unfolding ◌>>◌ wrap lift to_result ensure_job deferred call poll_with_mariadb read_job
    pod_recovery_timeout recovery_job_key
recover_pod k mdb pod =
    let job = recovery_job_key pod in
    wrap failed (lift (to_result (k.build_job pod)))
    >> (wrap failed (ensure_job k job)
        >> deferred (call (λ log. k.delete_job log job) (job_deleted job))
            (wrap failed (poll_with_mariadb k (pod_recovery_timeout mdb) (read_job k pod job))))

unfoldable pub recover_pods : Cluster → MariaDb → List Pod → Action (Unit {0})
unfolding ◌>>=◌ gets run_all not_skipped has_recovered recover_pod
recover_pods k mdb pods = do
  names ← gets (λ s. k.schedule s.log (not_skipped (has_recovered s.rs) pods))
  run_all (recover_pod k mdb) names

unfoldable pub upscale : Cluster → MariaDb → Action (Unit {0})
unfolding patch_stateful_set_replicas recovery_of
upscale k mdb =
    patch_stateful_set_replicas k (deref (recovery_of mdb).cluster_upscale_timeout five_minutes)
      mdb.replicas

-- The cluster is scaled down while the Jobs run, and up again behind them.
unfoldable pub recover_galera_state : Cluster → MariaDb → List Pod → Action (Unit {0})
unfolding ◌>>◌ wrap patch_stateful_set_replicas deferred upscale recover_pods recovery_of
recover_galera_state k mdb pods =
    wrap failed (
      patch_stateful_set_replicas k (deref (recovery_of mdb).cluster_downscale_timeout five_minutes)
        0)
    >> deferred (upscale k mdb) (recover_pods k mdb pods)
