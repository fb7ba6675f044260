-- ===== src/RecoveryStatus.antt =====
-- pkg/controller/galera/recovery_status.go: what is known of each Pod while a Galera cluster is
-- recovered, and the choice of the Pod that bootstraps it. The mutex makes each method one step,
-- so a method is a function of the status. Logging has no effect on it.
pub mod Criterion
pub mod Source
pub mod Maximum
pub mod Complete
mod Examples
use suture_port_mariadb_oper.Prelude.{
  ℕ, zero, suc, ◌+◌, Bool, true, false, not, ◌&&◌, ◌||◌, List, [], ◌∷◌, Option, none, some, Bytes,
  codes, bytes_eq, Dict, lookup, insert, length, ℤ, pos, negsuc, ltb_ℤ, leb_ℤ, eqb_ℤ, ◌-ℤ◌, Result,
  ok, err, ◌>>=◌, if◌then◌else◌, ◌==◌,
}
use suture_port_mariadb_oper.StatefulSet.{ObjectMeta, pod_name}
use suture_port_mariadb_oper.DataStructures.{find}
use suture_port_mariadb_oper.GaleraState.{
  GaleraState, Bootstrap, GaleraRecoverer, galera_state, bootstrap, get_uuid, get_seqno, compare_to,
}
use suture_port_mariadb_oper.Api.{
  MariaDb, Galera, GaleraRecovery, GaleraRecoveryStatus, GaleraBootstrapStatus, deref, no_galera,
  no_galera_recovery, no_recovery_status,
}

-- `newRecoveryStatus` copies the four fields; the status that it starts from has none of them.
unfoldable pub new_recovery_status : MariaDb → GaleraRecoveryStatus
new_recovery_status mariadb =
    let recovery = deref mariadb.status.galera_recovery no_recovery_status in
    record {
      state = recovery.state;
      recovered = recovery.recovered;
      bootstrap = recovery.bootstrap;
      pods_restarted = recovery.pods_restarted;
    }

-- The map that `setState` and `setRecovered` make when the status has none.
unfoldable pub made {ℓ} : {A : Type ℓ} → Option (Dict A) → Option (Dict A)
made none = some []
made (some m) = some m

-- `m[key] = value`. A nil map takes no entry: in Go the assignment panics there.
unfoldable pub assign {ℓ} : {A : Type ℓ} → Bytes → A → Option (Dict A) → Option (Dict A)
assign key a none = none
assign key a (some m) = some (insert key a m)

unfoldable pub set_state : GaleraRecoveryStatus → Bytes → GaleraState → GaleraRecoveryStatus
set_state rs pod state = record rs { state = assign pod (some state) (made rs.state) }

unfoldable pub set_recovered : GaleraRecoveryStatus → Bytes → Bootstrap → GaleraRecoveryStatus
set_recovered rs pod b = record rs { recovered = assign pod (some b) (made rs.recovered) }

-- A key that is missing reads as a nil pointer.
abbrev pub flatten {ℓ} : {A : Type ℓ} → Option (Option A) → Option A
flatten none = none
flatten (some o) = o

-- `rs.inner.State[pod]`.
unfoldable pub state_of_pod : GaleraRecoveryStatus → Bytes → Option GaleraState
state_of_pod rs pod = flatten (lookup pod (deref rs.state []))

-- `rs.inner.Recovered[pod]`.
unfoldable pub recovered_of_pod : GaleraRecoveryStatus → Bytes → Option Bootstrap
recovered_of_pod rs pod = flatten (lookup pod (deref rs.recovered []))

unfoldable pub reset : GaleraRecoveryStatus → GaleraRecoveryStatus
reset rs = no_recovery_status

-- `setBootstrapping` at the time `now`, in nanoseconds.
unfoldable pub set_bootstrapping : ℤ → GaleraRecoveryStatus → Bytes → GaleraRecoveryStatus
set_bootstrapping now rs pod = record rs {
  bootstrap = some (record { time = some now; pod = some pod });
}

unfoldable pub is_set : {A : Type 0} → Option A → Bool
is_set none = false
is_set (some a) = true

unfoldable pub is_bootstrapping : GaleraRecoveryStatus → Bool
is_bootstrapping rs = is_set rs.bootstrap

unfoldable pub set_pods_restarted : GaleraRecoveryStatus → Bool → GaleraRecoveryStatus
set_pods_restarted rs restarted = record rs { pods_restarted = some restarted }

unfoldable pub pods_restarted : GaleraRecoveryStatus → Bool
pods_restarted rs = deref rs.pods_restarted false

abbrev pub ten_minutes : ℤ
ten_minutes = pos 600000000000

-- `spec.galera.recovery.clusterBootstrapTimeout`, or ten minutes.
unfoldable pub timeout_of : MariaDb → ℤ
timeout_of mdb =
    let recovery = deref (deref mdb.galera no_galera).recovery no_galera_recovery in
    deref recovery.cluster_bootstrap_timeout ten_minutes

-- Whether `now` is after the start and the timeout.
unfoldable pub passed : ℤ → Option ℤ → ℤ → Bool
passed now none timeout = false
passed now (some start) timeout = ltb_ℤ timeout (now -ℤ start)

unfoldable pub timed_out : ℤ → Option GaleraBootstrapStatus → ℤ → Bool
timed_out now none timeout = false
timed_out now (some b) timeout = passed now b.time timeout

unfoldable pub bootstrap_timeout : ℤ → GaleraRecoveryStatus → MariaDb → Bool
bootstrap_timeout now rs mdb = timed_out now rs.bootstrap (timeout_of mdb)

-- The interface value that a nil pointer to a state or a bootstrap stands for is `none` too: the
-- two functions below treat both alike.
abbrev pub as_recoverer_state : Option GaleraState → Option GaleraRecoverer
as_recoverer_state none = none
as_recoverer_state (some g) = some (galera_state g)

abbrev pub as_recoverer_bootstrap : Option Bootstrap → Option GaleraRecoverer
as_recoverer_bootstrap none = none
as_recoverer_bootstrap (some b) = some (bootstrap b)

unfoldable pub valid_seqno : Option GaleraRecoverer → Bool
valid_seqno none = false
valid_seqno (some r) = leb_ℤ (pos 0) (get_seqno r)

unfoldable pub nil_uuid : Bytes
nil_uuid = codes "00000000-0000-0000-0000-000000000000"

unfoldable pub should_skip_recoverer : Option GaleraRecoverer → Bool
should_skip_recoverer none = false
should_skip_recoverer (some r) = bytes_eq (get_uuid r) nil_uuid && eqb_ℤ (get_seqno r) (negsuc 0)

-- `state != nil && state.SafeToBootstrap`.
unfoldable pub is_safe : Option GaleraState → Bool
is_safe none = false
is_safe (some g) = g.safe_to_bootstrap

-- `getPodNames`, from the index `i` on, for the replicas that are left.
unfoldable pub pod_names_from : ObjectMeta → ℕ → ℕ → List Bytes
pod_names_from meta zero i = []
pod_names_from meta (suc left) i = pod_name meta (pos i) ∷ pod_names_from meta left (suc i)

unfoldable pub get_pod_names : MariaDb → List Bytes
get_pod_names mdb = pod_names_from mdb.metadata mdb.replicas 0

-- The loop of `isComplete`: `true` at a Pod that is safe to bootstrap, or else the number of the
-- skipped Pods and whether each other one has a valid sequence number.
pub record Progress : Type 0 where
  pub safe_found : Bool
  pub num_skipped_pods : ℕ
  pub is_complete : Bool

unfoldable pub scan_pods : GaleraRecoveryStatus → ℕ → Bool → List Bytes → Progress
scan_pods rs skipped complete [] = record {
  safe_found = false;
  num_skipped_pods = skipped;
  is_complete = complete;
}
scan_pods rs skipped complete (p ∷ pods) =
    let state = state_of_pod rs p in
    let recovered = recovered_of_pod rs p in
    let safe : Progress = record {
      safe_found = true;
      num_skipped_pods = skipped;
      is_complete = complete;
    } in
    let skip = scan_pods rs (skipped + 1) complete pods in
    let valid = scan_pods rs skipped complete pods in
    let missing = scan_pods rs skipped false pods in
    if is_safe state
    then safe
    else if should_skip_recoverer (as_recoverer_bootstrap recovered)
    then skip
    else if valid_seqno (as_recoverer_state state) || valid_seqno (as_recoverer_bootstrap recovered)
    then valid
    else missing

unfoldable pub is_complete : GaleraRecoveryStatus → MariaDb → Bool
is_complete rs mdb =
    let pods = get_pod_names mdb in
    let progress = scan_pods rs 0 true pods in
    if length pods == 0
    then false
    else if progress.safe_found
    then true
    else if progress.num_skipped_pods == length pods
    then false
    else progress.is_complete

pub record BootstrapSource : Type 0 where
  pub bootstrap : Option Bootstrap
  pub pod : Bytes

pub data SourceError : Type 0 where
  pod_not_found recovery_not_completed source_not_found : SourceError

-- The variables `currentSource` and `currentPod` of the loop.
pub record Current : Type 0 where
  pub source : Option GaleraRecoverer
  pub pod : Bytes

-- `if validSeqno(r) && r.Compare(currentSource) >= 0 { currentSource = r; currentPod = p }`.
unfoldable pub consider : Option GaleraRecoverer → Bytes → Current → Current
consider none p cur = cur
consider (some r) p cur =
    if valid_seqno (some r) && leb_ℤ (pos 0) (compare_to r cur.source)
    then record { source = some r; pod = p }
    else cur

unfoldable pub source_of : GaleraRecoverer → Bytes → BootstrapSource
source_of r pod = record {
  bootstrap = some (record { uuid = get_uuid r; seqno = get_seqno r });
  pod = pod;
}

-- What the method returns behind the loop.
unfoldable pub finish_at : Option GaleraRecoverer → Bytes → Result SourceError BootstrapSource
finish_at none pod = err source_not_found
finish_at (some r) pod = ok (source_of r pod)

unfoldable pub finish : Current → Result SourceError BootstrapSource
finish cur = finish_at cur.source cur.pod

-- The source at a Pod whose state is safe to bootstrap from.
unfoldable pub safe_source : Option GaleraState → Bytes → Result SourceError BootstrapSource
safe_source none p = err source_not_found
safe_source (some g) p = ok (source_of (galera_state g) p)

-- The body of the loop; `next` is the rest of the loop.
unfoldable pub search_pod :
    Current
    → Bytes
    → Option GaleraState
    → Option Bootstrap
    → (Current → Result SourceError BootstrapSource)
    → Result SourceError BootstrapSource
search_pod cur p state recovered next =
    let skip = next cur in
    let go =
      next (
        consider (as_recoverer_bootstrap recovered) p
          (consider (as_recoverer_state state) p cur)) in
    if is_safe state
    then safe_source state p
    else if should_skip_recoverer (as_recoverer_bootstrap recovered)
    then skip
    else go

unfoldable pub search_pods :
    GaleraRecoveryStatus → Current → List Bytes → Result SourceError BootstrapSource
search_pods rs cur [] = finish cur
search_pods rs cur (p ∷ pods) =
    search_pod cur p (state_of_pod rs p) (recovered_of_pod rs p) (λ cur'. search_pods rs cur' pods)

-- A forced bootstrap has no position.
unfoldable pub forced_source : Option Bytes → Result SourceError BootstrapSource
forced_source none = err pod_not_found
forced_source (some pod) = ok (record { bootstrap = none; pod = pod })

unfoldable pub bootstrap_source :
    GaleraRecoveryStatus → MariaDb → Option Bytes → Result SourceError BootstrapSource
bootstrap_source rs mdb none =
    let search = search_pods rs (record { source = none; pod = [] }) (get_pod_names mdb) in
    if is_complete rs mdb then search else err recovery_not_completed
bootstrap_source rs mdb (some forced) =
    forced_source (find (get_pod_names mdb) (λ pod. bytes_eq pod forced))
