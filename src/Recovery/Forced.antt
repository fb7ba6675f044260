-- ===== src/Recovery/Forced.antt =====
-- A forced bootstrap completes when no call fails: pkg/controller/galera/recovery.go.
mod Names
pub mod Completes
use suture_port_mariadb_oper.Prelude.{
  ◌≡◌, refl, sym, subst, ap, ℕ, zero, suc, ◌≤◌, ◌<◌, ◌+◌, Bool, true, false, not, List, [], ◌∷◌,
  Option, none, some, Bytes, codes, bytes_eq, bytes_eq_sound, Bool-cases, inl, inr, ℤ, pos, Result,
  ok, err, All, In, arith, if◌then◌else◌,
}
use suture_port_mariadb_oper.Steps.{
  Step, resume, ◌>>=◌, ◌>>◌, give, lift, gets, modify, wrap, wrap_error, to_result, run_if, require,
  for_each, again,
}
use suture_port_mariadb_oper.Steps.Succeeds.{
  IsOk, IsOk-wrap_error, Succeeds, Succeeds-give, Succeeds-lift, Succeeds-gets, Succeeds-wrap,
  IsOk-to_result, Succeeds-bind_of, Succeeds-bind, Succeeds-then, Succeeds-modify, Succeeds-run_if,
  Succeeds-require, Succeeds-for_each, succeeds_rules,
}
use suture_port_mariadb_oper.GaleraState.{Bootstrap}
use suture_port_mariadb_oper.Text.{int_limit}
use suture_port_mariadb_oper.StatefulSet.{pod_index}
use suture_port_mariadb_oper.Api.{MariaDb, MariaDbStatus, GaleraRecoveryStatus}
use suture_port_mariadb_oper.RecoveryStatus.{BootstrapSource, bootstrap_source, set_pods_restarted}
use suture_port_mariadb_oper.Recovery.{
  Cluster, State, Action, Error, not_found, failed, Event, Log, call, query, set_rs, patch,
  patch_recovery_status, client_for_index, client_for_pod, valid_index, pod_deleted,
  bootstrap_enabled, bootstrap_disabled, recovery_of,
}
use suture_port_mariadb_oper.Recovery.Polls.{
  poll_rounds, poll_until_success, guarded, should_poll, poll_with_mariadb,
}
use suture_port_mariadb_oper.Recovery.Pods.{
  poll_until_pod_healthy, recreate, ensure_pod_healthy, poll_until_pod_deleted, is_pod_healthy,
  synced_if, is_pod_synced, poll_until_pod_synced,
}
use suture_port_mariadb_oper.Recovery.Restart.{
  enable_in_healthy_pod, enable_bootstrap_with_source, allow_not_found, disable_at,
  disable_in_healthy_pod, disable_bootstrap_in_pod, delete_and_sync, set_bootstrap, restart_pod,
  restart_from, restart_order, pod_sync_timeout,
}
use suture_port_mariadb_oper.Recovery.Keeping.Restarts.{IsIndexOf}
use suture_port_mariadb_oper.Recovery.Forced.Names.{IsPodOf, get_pod_names-IsPodOf, All-other_pods}

-- Pods run and are healthy and synchronised at once, and no call fails.
pub record IsSmooth (k : Cluster) : Type 0 where
  pub runs : (log : Log) (pod : Bytes) → k.get_pod_phase log pod ≡ ok (codes "Running")
  pub heals : (log : Log) (i : ℤ) → k.health log i ≡ ok true
  pub enables : (log : Log) (i : ℤ) (b : Option Bootstrap) → k.enable_bootstrap log i b ≡ none
  pub disables : (log : Log) (i : ℤ) → k.disable_bootstrap log i ≡ none
  pub deletes : (log : Log) (pod : Bytes) → k.delete_pod log pod ≡ none
  pub connects : (log : Log) (i : ℤ) → k.sql_client log i ≡ none
  pub primary : (log : Log) (i : ℤ) → k.galera_cluster_status log i ≡ ok (codes "Primary")
  pub synced : (log : Log) (i : ℤ) → k.galera_local_state log i ≡ ok (codes "Synced")
  pub patches : (log : Log) (status : MariaDbStatus) → k.patch_status log status ≡ none
  pub makes_clients : (i : ℤ) → k.new_client i ≡ none
  pub reads_secrets : (log : Log) → k.read_secrets log ≡ none

pub Succeeds-call :
    (f : Log → Option Error) (event : Bool → Event)
    → ((log : Log) → f log ≡ none)
    → Succeeds (call f event)
unfolding call
Succeeds-call f event h = record { at = λ s. IsOk-to_result (f s.log) (h s.log) }

pub Succeeds-query :
    {A : Type 0} (f : Log → Result Error A) → ((log : Log) → IsOk (f log)) → Succeeds (query f)
unfolding query
Succeeds-query f h = record { at = λ s. h s.log }

-- The value that a query returns is known.
pub Succeeds-known :
    {A B : Type 0} (f : Log → Result Error A) (n : A → Action B) (a : A)
    → ((log : Log) → f log ≡ ok a)
    → Succeeds (n a)
    → Succeeds (wrap failed (query f) >>= n)
unfolding wrap query
Succeeds-known {A} {B} f n a h t =
    Succeeds-bind_of (λ x. x ≡ a) (wrap failed (query f)) n (λ s. (a, go (f s.log) (h s.log), refl))
      (λ x e. subst (λ y. Succeeds (n y)) (sym e) t)
  where
    go : (r : Result Error A) → r ≡ ok a → wrap_error failed r ≡ ok a
    go r e = ap (wrap_error failed) e

pub Succeeds-poll :
    (k : Cluster) (ctx : ℤ) (fn : Action (Unit {0}))
    → Succeeds fn
    → Succeeds (poll_with_mariadb k ctx fn)
unfolding poll_with_mariadb poll_until_success poll_rounds guarded again
Succeeds-poll k ctx fn h =
    let once : Succeeds (guarded k fn) =
      Succeeds-bind _ _ (Succeeds-gets _) (λ b. Succeeds-run_if b fn h) in
    record { at = λ s. go (guarded k fn s).0 _ (guarded k fn s).1 (once.at s) }
  where
    go :
        (r : Result Error (Unit {0})) (next : Action (Unit {0})) (s : State)
        → IsOk r
        → IsOk (again r next s).0
    go (ok _) next s e = (tt, refl)
    go (err x) next s e = cc (e.1)

module _ (k : Cluster) (smooth : IsSmooth k) (mdb : MariaDb) where
  Succeeds-client_for_pod : (pod : Bytes) → IsPodOf mdb pod → Succeeds (client_for_pod k mdb pod)
  unfolding client_for_pod client_for_index lift
  Succeeds-client_for_pod pod named =
      Succeeds-bind_of (IsIndexOf mdb pod) (lift (wrap_error failed (pod_index pod))) _
        (λ s. (named.0, ap (wrap_error failed) named.1.0, named.1))
        (λ i h. Succeeds-then _ _ (Succeeds-require (valid_index mdb i) failed h.1) (
          Succeeds-then _ _
            (record {
              at = λ s. IsOk-wrap_error failed _ (IsOk-to_result _ (smooth.makes_clients i));
            })
            (Succeeds-give i)))

  pub Succeeds-patch : Succeeds (patch_recovery_status k)
  unfolding patch_recovery_status patch
  Succeeds-patch = record { at = λ s. IsOk-to_result _ (smooth.patches s.log _) }

  Succeeds-healthy :
      (ctx : ℤ) (pod : Bytes) → IsPodOf mdb pod → Succeeds (poll_until_pod_healthy k mdb ctx pod)
  unfolding poll_until_pod_healthy bytes_eq
  Succeeds-healthy ctx pod named =
      Succeeds-bind (client_for_pod k mdb pod) _ (Succeeds-client_for_pod pod named) (λ i.
        Succeeds-poll k ctx _ (
          Succeeds-known _ _ (codes "Running") (λ log. smooth.runs log pod)
            (Succeeds-then _ _ (Succeeds-require _ failed refl) (
              Succeeds-known _ _ true (λ log. smooth.heals log i)
                (Succeeds-require true failed refl)))))

  Succeeds-ensure_healthy :
      (ctx : ℤ) (pod : Bytes) → IsPodOf mdb pod → Succeeds (ensure_pod_healthy k mdb ctx pod)
  unfolding ensure_pod_healthy
  Succeeds-ensure_healthy ctx pod named = record {
    at = λ s. go _ _ ((Succeeds-healthy _ pod named).at s);
  }
    where
      go : (r : Result Error (Unit {0})) (s : State) → IsOk r → IsOk (recreate k mdb ctx pod r s).0
      go (ok _) s e = (tt, refl)
      go (err x) s e = cc (e.1)

  Succeeds-poll_deleted : (ctx : ℤ) (pod : Bytes) → Succeeds (poll_until_pod_deleted k ctx pod)
  unfolding poll_until_pod_deleted
  Succeeds-poll_deleted ctx pod = Succeeds-poll k ctx _ (
      Succeeds-known _ _ (codes "Running") (λ log. smooth.runs log pod)
        (Succeeds-wrap failed _
          (Succeeds-call _ (pod_deleted pod) (λ log. smooth.deletes log pod))))

  is_pod_synced-true : (i : ℤ) (s : State) → (wrap failed (is_pod_synced k i) s).0 ≡ ok true
  unfolding is_pod_synced is_pod_healthy synced_if wrap wrap_error query ◌>>=◌ resume give bytes_eq
  is_pod_synced-true i s = rw (smooth.primary s.log i, smooth.synced s.log i)

  Succeeds-poll_synced :
      (ctx : ℤ) (pod : Bytes) → IsPodOf mdb pod → Succeeds (poll_until_pod_synced k ctx pod)
  unfolding poll_until_pod_synced lift query
  Succeeds-poll_synced ctx pod named = Succeeds-poll k ctx _ (
      Succeeds-known _ _ (codes "Running") (λ log. smooth.runs log pod)
        (Succeeds-bind_of (IsIndexOf mdb pod) (lift (wrap_error failed (pod_index pod))) _
          (λ s. (named.0, ap (wrap_error failed) named.1.0, named.1))
          (λ i h.
            Succeeds-then (wrap failed (query (λ log. to_result (k.sql_client log i)))) _
              (Succeeds-wrap failed _
                (record { at = λ s. IsOk-to_result _ (smooth.connects s.log i) }))
              (Succeeds-bind_of (λ b. b ≡ true) (wrap failed (is_pod_synced k i)) _
                (λ s. (true, is_pod_synced-true i s, refl)) (λ b e. Succeeds-require b failed e)))))

  Succeeds-delete_and_sync : (pod : Bytes) → IsPodOf mdb pod → Succeeds (delete_and_sync k mdb pod)
  unfolding delete_and_sync
  Succeeds-delete_and_sync pod named =
      Succeeds-then _ _ (Succeeds-wrap failed _ (Succeeds-poll_deleted _ pod))
        (Succeeds-wrap failed _ (Succeeds-poll_synced _ pod named))

  Succeeds-disable_at : (i : ℤ) → Succeeds (disable_at k i)
  unfolding disable_at
  Succeeds-disable_at i = record {
    at = λ s. go _ _ ((Succeeds-call _ (bootstrap_disabled i) (λ log. smooth.disables log i)).at s);
  }
    where
      go : (r : Result Error (Unit {0})) (s : State) → IsOk r → IsOk (allow_not_found r s).0
      go (ok _) s e = (tt, refl)
      go (err x) s e = cc (e.1)

  pub Succeeds-set_rs : (f : GaleraRecoveryStatus → GaleraRecoveryStatus) → Succeeds (set_rs f)
  unfolding set_rs
  Succeeds-set_rs f = Succeeds-modify (λ s. record s { rs = f s.rs })

  module _ (src : BootstrapSource) where
    Succeeds-enable : IsPodOf mdb src.pod → Succeeds (enable_bootstrap_with_source k mdb src)
    unfolding enable_bootstrap_with_source enable_in_healthy_pod
    Succeeds-enable named = Succeeds-bind _ _ (Succeeds-client_for_pod src.pod named) (λ i.
        Succeeds-wrap failed _ (
          Succeeds-poll k _ _ (
            Succeeds-then _ _ (Succeeds-ensure_healthy _ src.pod named) (
              Succeeds-call _ (bootstrap_enabled i src.bootstrap)
                (λ log. smooth.enables log i src.bootstrap)))))

    Succeeds-disable :
        (pod : Bytes) → IsPodOf mdb pod → Succeeds (disable_bootstrap_in_pod k mdb pod)
    unfolding disable_bootstrap_in_pod disable_in_healthy_pod
    Succeeds-disable pod named = Succeeds-bind _ _ (Succeeds-client_for_pod pod named) (λ i.
        Succeeds-wrap failed _ (
          Succeeds-poll k _ _
            (Succeeds-then _ _ (Succeeds-ensure_healthy _ pod named) (Succeeds-disable_at i))))

    Succeeds-set_bootstrap :
        (pod : Bytes)
        → IsPodOf mdb src.pod
        → IsPodOf mdb pod
        → Succeeds (set_bootstrap k mdb src pod)
    unfolding set_bootstrap
    Succeeds-set_bootstrap pod first named = go (bytes_eq pod src.pod)
      where
        go :
            (b : Bool)
            → Succeeds (
                if b
                then wrap failed (enable_bootstrap_with_source k mdb src)
                else wrap failed (disable_bootstrap_in_pod k mdb pod))
        go true = Succeeds-wrap failed _ (Succeeds-enable first)
        go false = Succeeds-wrap failed _ (Succeeds-disable pod named)

    Succeeds-restart_pod :
        IsPodOf mdb src.pod → (pod : Bytes) → IsPodOf mdb pod → Succeeds (restart_pod k mdb src pod)
    unfolding restart_pod
    Succeeds-restart_pod first pod named =
        Succeeds-then _ _ (Succeeds-set_bootstrap pod first named)
          (Succeeds-wrap failed _ (Succeeds-poll k _ _ (Succeeds-delete_and_sync pod named)))

    pub Succeeds-restart_from :
        bytes_eq src.pod [] ≡ false
        → IsPodOf mdb src.pod
        → mdb.replicas ≤ int_limit
        → Succeeds (restart_from k mdb src)
    unfolding restart_from restart_order
    Succeeds-restart_from e first bound = Succeeds-then _ _ (Succeeds-require _ failed (ap not e)) (
        Succeeds-then _ _
          (Succeeds-for_each (IsPodOf mdb) (restart_pod k mdb src) (restart_order mdb src.pod)
            (Succeeds-restart_pod first)
            (first, All-other_pods (IsPodOf mdb) src.pod _ (get_pod_names-IsPodOf mdb bound)))
          (Succeeds-then _ _ (Succeeds-set_rs (λ rs. set_pods_restarted rs true))
            (Succeeds-wrap failed _ Succeeds-patch)))
