-- ===== src/Recovery/Scaling.antt =====
-- The replicas of the StatefulSet while the Pods of a Galera cluster are recovered by Jobs:
-- pkg/controller/galera/recovery.go.
use suture_port_mariadb_oper.Prelude.{
  ◌≡◌, refl, ◌∙◌, ℕ, true, ◌==◌, List, [], ◌∷◌, Option, none, some, ℤ, Result, ok, err,
}
use suture_port_mariadb_oper.Steps.{resume, ◌>>=◌, ◌>>◌, wrap, wrap_error, require, deferred}
use suture_port_mariadb_oper.Steps.Keeps.{Keeps, Keeps-wrap, Keeps-bind, Keeps-require}
use suture_port_mariadb_oper.Steps.Triples.{
  Triple, Holds, Triple-always, Triple-weaken, Triple-bind, Triple-then, Triple-keeps, Triple-state,
}
use suture_port_mariadb_oper.Api.{MariaDb, deref}
use suture_port_mariadb_oper.Conditions.{StatefulSetStatus}
use suture_port_mariadb_oper.Recovery.{
  Cluster, State, Action, Error, failed, Pod, Event, tick, pod_deleted, bootstrap_enabled,
  bootstrap_disabled, replicas_patched, job_created, job_deleted, status_patched, Log, query, call,
  recovery_of, five_minutes,
}
use suture_port_mariadb_oper.Recovery.Polls.{poll_with_mariadb}
use suture_port_mariadb_oper.Recovery.Pods.{patch_stateful_set_replicas}
use suture_port_mariadb_oper.Recovery.States.{recover_pods, upscale, recover_galera_state}
use suture_port_mariadb_oper.Recovery.Keeping.{Calm, is_quiet, Keeps-query, Keeps-poll_with_mariadb}

-- The replicas that were asked for last.
abbrev pub last_replicas : Log → Option ℕ
last_replicas [] = none
last_replicas (replicas_patched n b ∷ log) = some n
last_replicas (e ∷ log) = last_replicas log

abbrev pub AsksFor : ℕ → State → Type 0
AsksFor n s = last_replicas s.log ≡ some n

quiet-last :
    (e : Event) (log : Log) → is_quiet e ≡ true → last_replicas (e ∷ log) ≡ last_replicas log
quiet-last tick log q = refl
quiet-last (pod_deleted pod b) log q = refl
quiet-last (bootstrap_enabled i x b) log q = cc
quiet-last (bootstrap_disabled i b) log q = refl
quiet-last (replicas_patched n b) log q = cc
quiet-last (job_created job b) log q = refl
quiet-last (job_deleted job b) log q = refl
quiet-last (status_patched status b) log q = cc

AsksFor-Calm : (n : ℕ) → Calm (AsksFor n)
AsksFor-Calm n = record {
  logs = λ e s q h. quiet-last e s.log q ∙ h;
  states = λ pod g s h. h;
  recovers = λ pod b s h. h;
  writes = λ s b h. h;
}

-- The time that the cluster is given to scale down.
abbrev pub downscale_timeout : MariaDb → ℤ
downscale_timeout mdb = deref (recovery_of mdb).cluster_downscale_timeout five_minutes

module _ (k : Cluster)
    (reads : (log : Log) → (sts : StatefulSetStatus) × (k.get_stateful_set log ≡ ok sts)) where
  read_ok :
      (P : State → Type 0) → Triple P (wrap failed (query k.get_stateful_set)) (λ _. P) (λ s. ⊥)
  unfolding wrap query wrap_error
  read_ok P = record { at = λ s h. go s (k.get_stateful_set s.log) (reads s.log).1 h }
    where
      go :
          (s : State) {sts : StatefulSetStatus} (r : Result Error StatefulSetStatus)
          → r ≡ ok sts
          → P s
          → Holds (λ _. P) (λ s'. ⊥) (wrap_error failed r) s
      go s (ok x) e h = h
      go s (err x) e h = cc

  patched :
      (n : ℕ)
      → Triple
          (λ s. Unit {0})
          (wrap failed (call (λ log. k.patch_replicas log n) (replicas_patched n)))
          (λ _. AsksFor n)
          (AsksFor n)
  unfolding wrap call
  patched n = Triple-always _ (λ s h. refl)

  polled :
      (ctx : ℤ) (n : ℕ)
      → Keeps (AsksFor n) (
          poll_with_mariadb k ctx
            (wrap failed (query k.get_stateful_set) >>= λ sts. require (sts.replicas == n) failed))
  polled ctx n = Keeps-poll_with_mariadb (AsksFor-Calm n) k ctx _ (
      Keeps-bind _ _ (Keeps-wrap failed _ (Keeps-query k.get_stateful_set))
        (λ sts. Keeps-require (sts.replicas == n) failed))

  patch-AsksFor :
      (ctx : ℤ) (n : ℕ) (s : State) → AsksFor n (patch_stateful_set_replicas k ctx n s).1
  unfolding patch_stateful_set_replicas
  patch-AsksFor ctx n s =
      Triple-state (patch_stateful_set_replicas k ctx n)
        (Triple-bind (λ _ _. Unit {0}) (wrap failed (query k.get_stateful_set)) _
          (Triple-weaken _ (λ s' h. h) (λ a s' h. tt) (λ s' h. absurd h) (read_ok (λ s'. Unit {0})))
          (λ sts. Triple-then (AsksFor n) _ _ (patched n) (Triple-keeps _ (polled ctx n))))
        s tt (AsksFor n) (λ a s' h. h) (λ s' h. h)

-- Behind the step that scales down: the rest, or nothing.
ends_scaled :
    (n : ℕ) (r : Result Error (Unit {0})) (s : State) (rest : Action (Unit {0}))
    → ((s' : State) → AsksFor n (rest s').1)
    → AsksFor 0 s
    → let end = resume (wrap_error failed r) s (λ _. rest) in
      (r ≡ ok tt → AsksFor n end.1)
      × ((e : Error) → r ≡ err e → (end.0 ≡ err failed) × AsksFor 0 end.1)
unfolding resume wrap_error
ends_scaled n (ok _) s rest h zero_asked = (λ _. h s, λ e p. cc)
ends_scaled n (err x) s rest h zero_asked = (λ p. cc, λ e p. (refl, zero_asked))

-- When the StatefulSet can be read, the recovery of the Pods ends in one of two ways: if the cluster
-- was scaled down, the replicas that were asked for last are those of the resource, whatever the Jobs
-- came to; if scaling down failed, so does the recovery, and zero replicas were asked for last.
pub recover_galera_state-scales :
    (k : Cluster) (mdb : MariaDb) (pods : List Pod) (s : State)
    → ((log : Log) → (sts : StatefulSetStatus) × (k.get_stateful_set log ≡ ok sts))
    → let down = patch_stateful_set_replicas k (downscale_timeout mdb) 0 s in
      let r = recover_galera_state k mdb pods s in
      (down.0 ≡ ok tt → AsksFor mdb.replicas r.1)
      × ((e : Error) → down.0 ≡ err e → (r.0 ≡ err failed) × AsksFor 0 r.1)
unfolding recover_galera_state ◌>>◌ ◌>>=◌ resume wrap wrap_error deferred upscale
recover_galera_state-scales k mdb pods s reads =
    let down = patch_stateful_set_replicas k (downscale_timeout mdb) 0 s in
    ends_scaled mdb.replicas down.0 down.1 (deferred (upscale k mdb) (recover_pods k mdb pods))
      (λ s'. patch-AsksFor k reads _ mdb.replicas (recover_pods k mdb pods s').1)
      (patch-AsksFor k reads (downscale_timeout mdb) 0 s)
