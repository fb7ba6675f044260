-- ===== src/Recovery/Pods.antt =====
-- pkg/controller/galera/recovery.go: the Pods, their health, and the replicas of the StatefulSet.
use suture_port_mariadb_oper.Prelude.{
  ℕ, Bool, true, false, not, ◌==◌, List, [], ◌∷◌, Bytes, codes, bytes_eq, bytes_lt, ℤ, Result, ok,
  err, if◌then◌else◌,
}
use suture_port_mariadb_oper.Steps.{◌>>=◌, ◌>>◌, give, wrap, lift, wrap_error, to_result, require}
use suture_port_mariadb_oper.StatefulSet.{pod_index}
use suture_port_mariadb_oper.Api.{MariaDb}
use suture_port_mariadb_oper.Recovery.{
  Cluster, Action, Error, failed, Pod, call, query, client_for_pod, pod_deleted, replicas_patched,
  thirty_seconds,
}
use suture_port_mariadb_oper.Recovery.Polls.{poll_with_mariadb}

unfoldable pub scheduled_pods : List Pod → List Pod
scheduled_pods [] = []
scheduled_pods (p ∷ ps) =
    let rest = scheduled_pods ps in if not (bytes_eq p.node_name []) then p ∷ rest else rest

-- `sort.Slice` by the name. Two Pods of a namespace have different names.
unfoldable pub insert_pod : Pod → List Pod → List Pod
insert_pod p [] = p ∷ []
insert_pod p (q ∷ qs) =
    let rest = insert_pod p qs in if bytes_lt q.name p.name then q ∷ rest else p ∷ q ∷ qs

unfoldable pub sort_pods : List Pod → List Pod
unfolding insert_pod
sort_pods [] = []
sort_pods (p ∷ ps) = insert_pod p (sort_pods ps)

unfoldable pub get_pods : Cluster → Action (List Pod)
unfolding ◌>>=◌ wrap query give sort_pods scheduled_pods
get_pods k = do items ← wrap failed (query k.list_pods); give (sort_pods (scheduled_pods items))

unfoldable pub poll_until_pod_healthy : Cluster → MariaDb → ℤ → Bytes → Action (Unit {0})
unfolding ◌>>=◌ ◌>>◌ wrap query require client_for_pod poll_with_mariadb
poll_until_pod_healthy k mdb ctx pod = do
  client ← client_for_pod k mdb pod
  poll_with_mariadb k ctx do
    phase ← wrap failed (query (λ log. k.get_pod_phase log pod))
    require (bytes_eq phase (codes "Running")) failed
    healthy ← wrap failed (query (λ log. k.health log client))
    require healthy failed

-- A Pod that is not healthy within half a minute is deleted, and waited for again.
unfoldable pub recreate :
    Cluster → MariaDb → ℤ → Bytes → Result Error (Unit {0}) → Action (Unit {0})
unfolding ◌>>=◌ ◌>>◌ wrap query call give poll_until_pod_healthy
recreate k mdb ctx pod (ok _) = give tt
recreate k mdb ctx pod (err _) = do
  phase ← wrap failed (query (λ log. k.get_pod_phase log pod))
  wrap failed (call (λ log. k.delete_pod log pod) (pod_deleted pod))
  poll_until_pod_healthy k mdb ctx pod

unfoldable pub ensure_pod_healthy : Cluster → MariaDb → ℤ → Bytes → Action (Unit {0})
unfolding recreate poll_until_pod_healthy
ensure_pod_healthy k mdb ctx pod s =
    let first = poll_until_pod_healthy k mdb thirty_seconds pod s in
    recreate k mdb ctx pod first.0 first.1

unfoldable pub poll_until_pod_deleted : Cluster → ℤ → Bytes → Action (Unit {0})
unfolding ◌>>=◌ ◌>>◌ wrap query call poll_with_mariadb
poll_until_pod_deleted k ctx pod = poll_with_mariadb k ctx do
  phase ← wrap failed (query (λ log. k.get_pod_phase log pod))
  wrap failed (call (λ log. k.delete_pod log pod) (pod_deleted pod))

-- pkg/galera/client, `IsPodHealthy`.
unfoldable pub is_pod_healthy : Cluster → ℤ → Action Bool
unfolding ◌>>=◌ wrap query give
is_pod_healthy k client = do
  status ← wrap failed (query (λ log. k.galera_cluster_status log client))
  give (bytes_eq status (codes "Primary"))

unfoldable pub synced_if : Cluster → ℤ → Bool → Action Bool
unfolding ◌>>=◌ wrap query give
synced_if k client false = give false
synced_if k client true = do
  state ← wrap failed (query (λ log. k.galera_local_state log client))
  give (bytes_eq state (codes "Synced"))

-- pkg/galera/client, `IsPodSynced`.
unfoldable pub is_pod_synced : Cluster → ℤ → Action Bool
unfolding ◌>>=◌ wrap synced_if is_pod_healthy
is_pod_synced k client = wrap failed (is_pod_healthy k client) >>= synced_if k client

unfoldable pub poll_until_pod_synced : Cluster → ℤ → Bytes → Action (Unit {0})
unfolding ◌>>=◌ ◌>>◌ wrap query lift require wrap_error to_result poll_with_mariadb is_pod_synced
poll_until_pod_synced k ctx pod = poll_with_mariadb k ctx do
  phase ← wrap failed (query (λ log. k.get_pod_phase log pod))
  index ← lift (wrap_error failed (pod_index pod))
  wrap failed (query (λ log. to_result (k.sql_client log index)))
  synced ← wrap failed (is_pod_synced k index)
  require synced failed

unfoldable pub patch_stateful_set_replicas : Cluster → ℤ → ℕ → Action (Unit {0})
unfolding ◌>>=◌ ◌>>◌ wrap query call require poll_with_mariadb
patch_stateful_set_replicas k ctx replicas = do
  sts ← wrap failed (query k.get_stateful_set)
  wrap failed (call (λ log. k.patch_replicas log replicas) (replicas_patched replicas))
  poll_with_mariadb k ctx
      do sts ← wrap failed (query k.get_stateful_set); require (sts.replicas == replicas) failed
