-- ===== src/Recovery/OneSource.antt =====
-- A reconciliation of the recovery bootstraps one Pod at most: pkg/controller/galera/recovery.go.
use suture_port_mariadb_oper.Prelude.{
  refl, Bool, true, false, not, List, [], none, All, All-map_of, if◌then◌else◌,
}
use suture_port_mariadb_oper.Steps.{◌>>=◌, ◌>>◌, give, modify, wrap, run_if}
use suture_port_mariadb_oper.Steps.Keeps.{Keeps, Keeps-wrap, Keeps-gets}
use suture_port_mariadb_oper.Steps.Triples.{
  Triple, Triple-weaken, Triple-wrap, Triple-give, Triple-keeps, Triple-bind, Triple-kept,
  Triple-state,
}
use suture_port_mariadb_oper.Api.{MariaDb}
use suture_port_mariadb_oper.RecoveryStatus.{BootstrapSource}
use suture_port_mariadb_oper.Recovery.{Cluster, State, Action, failed, Pod, Event}
use suture_port_mariadb_oper.Recovery.Pods.{get_pods}
use suture_port_mariadb_oper.Recovery.Recover.{find_source, recover_cluster}
use suture_port_mariadb_oper.Recovery.Restart.{restart_pods, restart_from}
use suture_port_mariadb_oper.Recovery.Reconcile.{
  done, requeue_after, reconcile_recovery, recover, advance, reset_recovery, load_recovery,
  restart_unless, recover_unless, reset_and_advance, recover_loaded, new_agent_client_set, is_nil,
  five_seconds,
}
use suture_port_mariadb_oper.Recovery.Keeping.Phases.{
  Keeps-get_pods, Keeps-find_source, Keeps-new_agent_client_set,
}
use suture_port_mariadb_oper.Recovery.Keeping.Logs.{
  IsNotEnabled, IsEnabledBy, NotEnabled-EnabledBy, Logged-Calm, Logged-recover_unless, Logged-reset,
  Logged-load, Logged-restart_from,
}

-- No bootstrap is enabled in the log.
abbrev pub IsFresh : State → Type 0
IsFresh s = All IsNotEnabled s.log

-- All bootstraps that are enabled in the log are of one source.
abbrev pub HasOneSource : MariaDb → State → Type 0
HasOneSource mdb s = (src : BootstrapSource) × All (IsEnabledBy mdb src) s.log

fresh : (e : Event) → IsNotEnabled e → IsNotEnabled e
fresh e h = h

module _ (k : Cluster) (mdb : MariaDb) where
  from_fresh : (src : BootstrapSource) (s : State) → IsFresh s → All (IsEnabledBy mdb src) s.log
  from_fresh src s h =
      All-map_of IsNotEnabled (IsEnabledBy mdb src) s.log (NotEnabled-EnabledBy mdb src) h

  one : (s : State) → IsFresh s → HasOneSource mdb s
  one s h =
      let src : BootstrapSource = record { bootstrap = none; pod = [] } in (src, from_fresh src s h)

  restart_from-One :
      (src : BootstrapSource)
      → Triple IsFresh (restart_from k mdb src) (λ _. HasOneSource mdb) (HasOneSource mdb)
  restart_from-One src =
      Triple-weaken (restart_from k mdb src) (from_fresh src) (λ a s h. (src, h)) (λ s h. (src, h))
        (Triple-keeps (restart_from k mdb src) (
          Logged-restart_from (IsEnabledBy mdb src) (NotEnabled-EnabledBy mdb src) k mdb src
            (λ i b s index h. ((index, refl), h))))

  kept :
      {A B : Type 0} (m : Action A) (n : A → Action B)
      → Keeps IsFresh m
      → ((a : A) → Triple IsFresh (n a) (λ _. HasOneSource mdb) (HasOneSource mdb))
      → Triple IsFresh (m >>= n) (λ _. HasOneSource mdb) (HasOneSource mdb)
  kept m n h hn = Triple-kept m n h one hn

  restart_unless-One :
      (b : Bool)
      → Triple IsFresh (restart_unless k mdb b) (λ _. HasOneSource mdb) (HasOneSource mdb)
  unfolding restart_unless restart_pods run_if
  restart_unless-One true = Triple-give tt one
  restart_unless-One false = Triple-wrap failed (restart_pods k mdb) (
      kept (find_source mdb _) (restart_from k mdb)
        (Keeps-find_source (Logged-Calm IsNotEnabled fresh) k mdb _) restart_from-One)

  advance-One :
      (pods : List Pod)
      → Triple IsFresh (advance k mdb pods) (λ _. HasOneSource mdb) (HasOneSource mdb)
  unfolding advance recover_unless ◌>>◌
  advance-One pods = kept _ (recover_unless k mdb pods) (Keeps-gets _) (λ b.
      kept (run_if (not b) (wrap failed (recover_cluster k mdb pods))) _
        (Logged-recover_unless IsNotEnabled fresh k mdb pods b)
        (λ _. kept _ (restart_unless k mdb) (Keeps-gets _) restart_unless-One))

  recover_loaded-One :
      (pods : List Pod)
      → Triple IsFresh (recover_loaded k mdb pods) (λ _. HasOneSource mdb) (HasOneSource mdb)
  unfolding recover_loaded reset_and_advance ◌>>◌
  recover_loaded-One pods = kept _ (reset_and_advance k mdb pods) (Keeps-gets _) (λ b.
      kept (run_if b (wrap failed (reset_recovery k))) _ (Logged-reset IsNotEnabled fresh k mdb b)
        (λ _. advance-One pods))

  recover-One :
      (pods : List Pod)
      → Triple IsFresh (recover k mdb pods) (λ _. HasOneSource mdb) (HasOneSource mdb)
  unfolding recover ◌>>◌
  recover-One pods =
      kept (wrap failed (new_agent_client_set k mdb)) _
        (Keeps-wrap failed _ (Keeps-new_agent_client_set k mdb))
        (λ _.
          kept (modify (load_recovery mdb)) _ (Logged-load IsNotEnabled fresh k mdb)
            (λ _. recover_loaded-One pods))

  reconcile_recovery-One :
      Triple IsFresh (reconcile_recovery k mdb) (λ _. HasOneSource mdb) (HasOneSource mdb)
  unfolding reconcile_recovery ◌>>◌
  reconcile_recovery-One =
      kept (wrap failed (get_pods k)) _ (Keeps-wrap failed _ (Keeps-get_pods k))
        (λ pods. go pods (is_nil pods))
    where
      go :
          (pods : List Pod) (b : Bool)
          → Triple IsFresh
              (if b then give (requeue_after five_seconds) else (recover k mdb pods >> give done))
              (λ _. HasOneSource mdb)
              (HasOneSource mdb)
      go pods true = Triple-give (requeue_after five_seconds) one
      go pods false =
          Triple-bind (λ _. HasOneSource mdb) (recover k mdb pods) _ (recover-One pods)
            (λ _. Triple-give done (λ s h. h))

-- Whatever fails in a reconciliation of the recovery, there is one source such that every bootstrap
-- that the agents were told to enable, if the log held none before, is the source's: it was sent to
-- the agent with the index of the source's Pod, which is within the replicas, with its position.
pub reconcile_recovery-HasOneSource :
    (k : Cluster) (mdb : MariaDb) (s : State)
    → IsFresh s
    → HasOneSource mdb (reconcile_recovery k mdb s).1
reconcile_recovery-HasOneSource k mdb s h =
    Triple-state (reconcile_recovery k mdb) (reconcile_recovery-One k mdb) s h (HasOneSource mdb)
      (λ a s' h'. h') (λ s' h'. h')
