-- ===== src/Recovery/Forced/Names.antt =====
-- The Pods of a MariaDB have valid indices: pkg/statefulset, pkg/controller/galera.
use suture_port_mariadb_oper.Prelude.{
  ℕ, zero, suc, ◌≤◌, ◌+◌, Bool, true, false, List, [], ◌∷◌, Bytes, bytes_eq, ℤ, pos, All, arith,
  if◌then◌else◌,
}
use suture_port_mariadb_oper.Text.{int_limit}
use suture_port_mariadb_oper.StatefulSet.Names.{pod_index-pod_name}
use suture_port_mariadb_oper.Api.{MariaDb}
use suture_port_mariadb_oper.RecoveryStatus.{pod_names_from, get_pod_names}
use suture_port_mariadb_oper.Recovery.{valid_index}
use suture_port_mariadb_oper.Recovery.Restart.{other_pods}
use suture_port_mariadb_oper.Recovery.Keeping.Restarts.{IsIndexOf}

abbrev pub IsPodOf : MariaDb → Bytes → Type 0
IsPodOf mdb pod = (i : ℤ) × IsIndexOf mdb pod i

names-IsPodOf :
    (mdb : MariaDb) (left i : ℕ)
    → i + left ≤ mdb.replicas
    → mdb.replicas ≤ int_limit
    → All (IsPodOf mdb) (pod_names_from mdb.metadata left i)
unfolding pod_names_from valid_index
names-IsPodOf mdb zero i h b = tt
names-IsPodOf mdb (suc left) i h b = (
  (pos i, (pod_index-pod_name mdb.metadata i (omega arith), ground arith)),
  names-IsPodOf mdb left (suc i) (omega arith) b,
)

pub get_pod_names-IsPodOf :
    (mdb : MariaDb) → mdb.replicas ≤ int_limit → All (IsPodOf mdb) (get_pod_names mdb)
unfolding get_pod_names
get_pod_names-IsPodOf mdb b = names-IsPodOf mdb mdb.replicas 0 (omega arith) b

pub All-other_pods :
    (P : Bytes → Type 0) (pod : Bytes) (pods : List Bytes)
    → All P pods
    → All P (other_pods pod pods)
unfolding other_pods
All-other_pods P pod [] h = tt
All-other_pods P pod (p ∷ ps) h = go (bytes_eq p pod) (All-other_pods P pod ps h.1)
  where
    go :
        (b : Bool)
        → All P (other_pods pod ps)
        → All P (if b then other_pods pod ps else p ∷ other_pods pod ps)
    go true rest = rest
    go false rest = (h.0, rest)
