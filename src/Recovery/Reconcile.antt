-- ===== src/Recovery/Reconcile.antt =====
-- pkg/controller/galera: one reconciliation of the recovery, and of the whole Galera controller.
use suture_port_mariadb_oper.Prelude.{
  ℕ, zero, suc, Bool, true, false, not, List, [], ◌∷◌, ℤ, pos, if◌then◌else◌,
}
use suture_port_mariadb_oper.Steps.{
  ◌>>=◌, ◌>>◌, give, gets, modify, wrap, to_result, require, run_if, for_each,
}
use suture_port_mariadb_oper.Api.{MariaDb, is_galera_enabled}
use suture_port_mariadb_oper.RecoveryStatus.{
  new_recovery_status, reset, is_bootstrapping, pods_restarted, bootstrap_timeout,
}
use suture_port_mariadb_oper.Recovery.{
  Cluster, State, Action, failed, Pod, query, set_rs, patch_recovery_status, client_for_index,
}
use suture_port_mariadb_oper.Recovery.Pods.{get_pods}
use suture_port_mariadb_oper.Recovery.Recover.{recover_cluster}
use suture_port_mariadb_oper.Recovery.Restart.{restart_pods, disable_at}

-- ctrl.Result.
pub data Outcome : Type 0 where
  done : Outcome
  requeue_after : ℤ → Outcome

abbrev pub five_seconds : ℤ
five_seconds = pos 5000000000

-- `newAgentClientSet`: the secrets are read, and Galera has to be enabled.
unfoldable pub new_agent_client_set : Cluster → MariaDb → Action (Unit {0})
unfolding ◌>>◌ wrap query to_result require is_galera_enabled
new_agent_client_set k mdb = do
  wrap failed (query (λ log. to_result (k.read_secrets log)))
  require (is_galera_enabled mdb) failed

-- `newRecoveryStatus`, from the status that the controller holds.
unfoldable pub load_recovery : MariaDb → State → State
unfolding new_recovery_status
load_recovery mdb s = record s { rs = new_recovery_status (record mdb { status = s.status }) }

unfoldable pub reset_recovery : Cluster → Action (Unit {0})
unfolding ◌>>◌ set_rs reset patch_recovery_status
reset_recovery k = set_rs reset >> patch_recovery_status k

unfoldable pub is_nil : List Pod → Bool
is_nil [] = true
is_nil (p ∷ ps) = false

unfoldable pub restart_unless : Cluster → MariaDb → Bool → Action (Unit {0})
unfolding run_if wrap restart_pods
restart_unless k mdb restarted = run_if (not restarted) (wrap failed (restart_pods k mdb))

unfoldable pub recover_unless : Cluster → MariaDb → List Pod → Bool → Action (Unit {0})
unfolding ◌>>=◌ ◌>>◌ gets run_if wrap recover_cluster restart_unless pods_restarted
recover_unless k mdb pods bootstrapping =
    run_if (not bootstrapping) (wrap failed (recover_cluster k mdb pods))
    >> (gets (λ s. pods_restarted s.rs) >>= restart_unless k mdb)

-- Behind the reset: what is not done yet.
unfoldable pub advance : Cluster → MariaDb → List Pod → Action (Unit {0})
unfolding ◌>>=◌ gets recover_unless is_bootstrapping
advance k mdb pods = gets (λ s. is_bootstrapping s.rs) >>= recover_unless k mdb pods

unfoldable pub reset_and_advance : Cluster → MariaDb → List Pod → Bool → Action (Unit {0})
unfolding ◌>>◌ run_if wrap reset_recovery advance
reset_and_advance k mdb pods timed_out =
    run_if timed_out (wrap failed (reset_recovery k)) >> advance k mdb pods

-- With the recovery status at hand.
unfoldable pub recover_loaded : Cluster → MariaDb → List Pod → Action (Unit {0})
unfolding ◌>>=◌ gets reset_and_advance bootstrap_timeout
recover_loaded k mdb pods =
    gets (λ s. bootstrap_timeout (k.now s.log) s.rs mdb) >>= reset_and_advance k mdb pods

unfoldable pub recover : Cluster → MariaDb → List Pod → Action (Unit {0})
unfolding ◌>>◌ wrap modify new_agent_client_set load_recovery recover_loaded
recover k mdb pods = do
  wrap failed (new_agent_client_set k mdb)
  modify (load_recovery mdb)
  recover_loaded k mdb pods

unfoldable pub reconcile_recovery : Cluster → MariaDb → Action Outcome
unfolding ◌>>=◌ ◌>>◌ give wrap get_pods recover is_nil
reconcile_recovery k mdb = do
  pods ← wrap failed (get_pods k)
  if is_nil pods then give (requeue_after five_seconds) else (recover k mdb pods >> give done)

-- The indices from `i` on, for the replicas that are left.
unfoldable pub indices_from : ℕ → ℕ → List ℤ
indices_from zero i = []
indices_from (suc left) i = pos i ∷ indices_from left (suc i)

unfoldable pub disable_bootstrap_at : Cluster → MariaDb → ℤ → Action (Unit {0})
unfolding ◌>>=◌ wrap client_for_index disable_at
disable_bootstrap_at k mdb i = do
  client ← wrap failed (client_for_index k mdb i)
  wrap failed (disable_at k client)

unfoldable pub disable_bootstrap : Cluster → MariaDb → Action (Unit {0})
unfolding ◌>>◌ wrap new_agent_client_set for_each disable_bootstrap_at indices_from
disable_bootstrap k mdb =
    wrap failed (new_agent_client_set k mdb)
    >> for_each (disable_bootstrap_at k mdb) (indices_from mdb.replicas 0)
