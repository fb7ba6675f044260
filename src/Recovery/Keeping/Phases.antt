-- ===== src/Recovery/Keeping/Phases.antt =====
-- What the phases of a recovery keep true, up to the two events that are not quiet:
-- pkg/controller/galera/recovery.go.
use suture_port_mariadb_oper.Prelude.{refl, ℕ, List, [], ◌∷◌, Option, Bytes, ℤ, Result, ok, err}
use suture_port_mariadb_oper.Steps.Keeps.{Keeps, keeps_rules, Keeps-give, Keeps-fail}
use suture_port_mariadb_oper.GaleraState.{GaleraState, Bootstrap}
use suture_port_mariadb_oper.Api.{MariaDb}
use suture_port_mariadb_oper.Recovery.{
  Cluster, State, Error, not_found, failed, bootstrap_disabled, replicas_patched, job_created,
  job_deleted, Pod, call,
}
use suture_port_mariadb_oper.Recovery.Pods.{get_pods, patch_stateful_set_replicas}
use suture_port_mariadb_oper.Recovery.States.{
  store_state, store_recovered, fetch_state, get_pod_state, get_galera_state, create_if_missing,
  ensure_job, first_pod, get_job_logs, read_job, recover_pod, recover_pods, upscale,
  recover_galera_state,
}
use suture_port_mariadb_oper.Recovery.Recover.{find_source}
use suture_port_mariadb_oper.Recovery.Restart.{
  allow_not_found, disable_at, disable_in_healthy_pod, disable_bootstrap_in_pod, delete_and_sync,
}
use suture_port_mariadb_oper.Recovery.Reconcile.{new_agent_client_set}
use suture_port_mariadb_oper.Recovery.Keeping.{
  Calm, Scales, Keeps-query, Keeps-call, Keeps-quiet, Keeps-set_state, Keeps-set_recovered,
  Keeps-client_for_pod, Keeps-ensure_pod_healthy, Keeps-poll_until_pod_deleted,
  Keeps-poll_until_pod_synced, recovery_rules,
}

module _ {I : State → Type 0} (k : Cluster) where
  pub Keeps-get_pods : Keeps I (get_pods k)
  unfolding get_pods
  Keeps-get_pods = search (keeps_rules, Keeps-query)

  pub Keeps-new_agent_client_set : (mdb : MariaDb) → Keeps I (new_agent_client_set k mdb)
  unfolding new_agent_client_set
  Keeps-new_agent_client_set mdb = search (keeps_rules, Keeps-query)

module _ {I : State → Type 0} (calm : Calm I) (k : Cluster) (mdb : MariaDb) where
  Keeps-store_state : (pod : Bytes) (r : Result Error GaleraState) → Keeps I (store_state pod r)
  unfolding store_state
  Keeps-store_state pod (ok g) = Keeps-set_state calm pod g
  Keeps-store_state pod (err not_found) = Keeps-give tt
  Keeps-store_state pod (err failed) = Keeps-fail failed

  Keeps-get_pod_state : (pod : Bytes) → Keeps I (get_pod_state k mdb pod)
  unfolding get_pod_state fetch_state
  Keeps-get_pod_state pod =
      search (recovery_rules, Keeps-client_for_pod, Keeps-ensure_pod_healthy, Keeps-store_state)
        depth 12

  pub Keeps-get_galera_state : (pods : List Pod) → Keeps I (get_galera_state k mdb pods)
  unfolding get_galera_state
  Keeps-get_galera_state pods = search (recovery_rules, Keeps-get_pod_state)

  Keeps-create_if_missing :
      (job : Bytes) (r : Result Error (Unit {0})) → Keeps I (create_if_missing k job r)
  unfolding create_if_missing
  Keeps-create_if_missing job (ok _) = Keeps-give tt
  Keeps-create_if_missing job (err not_found) = Keeps-quiet calm _ (job_created job) (λ b. refl)
  Keeps-create_if_missing job (err failed) = Keeps-fail failed

  Keeps-delete_job : (job : Bytes) → Keeps I (call (λ log. k.delete_job log job) (job_deleted job))
  Keeps-delete_job job = Keeps-quiet calm _ (job_deleted job) (λ b. refl)

  Keeps-first_pod : (pods : List Bytes) → Keeps I (first_pod pods)
  unfolding first_pod
  Keeps-first_pod [] = Keeps-fail failed
  Keeps-first_pod (p ∷ ps) = Keeps-give p

  Keeps-store_recovered : (pod : Bytes) (b : Bootstrap) → Keeps I (store_recovered pod b)
  unfolding store_recovered
  Keeps-store_recovered pod b = Keeps-set_recovered calm pod b

  Keeps-read_job : (pod job : Bytes) → Keeps I (read_job k pod job)
  unfolding read_job get_job_logs
  Keeps-read_job pod job = search (recovery_rules, Keeps-first_pod, Keeps-store_recovered) depth 14

  Keeps-recover_pod : (pod : Bytes) → Keeps I (recover_pod k mdb pod)
  unfolding recover_pod ensure_job
  Keeps-recover_pod pod =
      search (recovery_rules, Keeps-create_if_missing, Keeps-delete_job, Keeps-read_job) depth 12

  pub Keeps-recover_pods : (pods : List Pod) → Keeps I (recover_pods k mdb pods)
  unfolding recover_pods
  Keeps-recover_pods pods = search (recovery_rules, Keeps-recover_pod)

  Keeps-allow_not_found : (r : Result Error (Unit {0})) → Keeps I (allow_not_found r)
  unfolding allow_not_found
  Keeps-allow_not_found (ok _) = Keeps-give tt
  Keeps-allow_not_found (err not_found) = Keeps-give tt
  Keeps-allow_not_found (err failed) = Keeps-fail failed

  pub Keeps-disable_at : (client : ℤ) → Keeps I (disable_at k client)
  unfolding disable_at
  Keeps-disable_at client = record {
    at = λ s h. (Keeps-allow_not_found _).at _ (
        (Keeps-quiet calm (λ log. k.disable_bootstrap log client) (bootstrap_disabled client)
            (λ b. refl)).at
          s h);
  }

  pub Keeps-disable_bootstrap_in_pod : (pod : Bytes) → Keeps I (disable_bootstrap_in_pod k mdb pod)
  unfolding disable_bootstrap_in_pod disable_in_healthy_pod
  Keeps-disable_bootstrap_in_pod pod =
      search (recovery_rules, Keeps-client_for_pod, Keeps-ensure_pod_healthy, Keeps-disable_at)
        depth 12

  pub Keeps-delete_and_sync : (pod : Bytes) → Keeps I (delete_and_sync k mdb pod)
  unfolding delete_and_sync
  Keeps-delete_and_sync pod =
      search (recovery_rules, Keeps-poll_until_pod_deleted, Keeps-poll_until_pod_synced)

  pub Keeps-find_source : (forced : Option Bytes) → Keeps I (find_source mdb forced)
  unfolding find_source
  Keeps-find_source forced = record { at = λ s h. h }

  module _ (scales : Scales I) where
    Keeps-patch_replicas :
        (n : ℕ) → Keeps I (call (λ log. k.patch_replicas log n) (replicas_patched n))
    Keeps-patch_replicas n = Keeps-call _ (replicas_patched n) (scales n)

    pub Keeps-patch_stateful_set_replicas :
        (ctx : ℤ) (n : ℕ) → Keeps I (patch_stateful_set_replicas k ctx n)
    unfolding patch_stateful_set_replicas
    Keeps-patch_stateful_set_replicas ctx n = search (recovery_rules, Keeps-patch_replicas) depth 12

    pub Keeps-recover_galera_state : (pods : List Pod) → Keeps I (recover_galera_state k mdb pods)
    unfolding recover_galera_state upscale
    Keeps-recover_galera_state pods =
        search (recovery_rules, Keeps-patch_stateful_set_replicas, Keeps-recover_pods) depth 8
