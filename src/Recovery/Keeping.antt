-- ===== src/Recovery/Keeping.antt =====
-- What the steps of a recovery keep true of the log: pkg/controller/galera/recovery.go.
pub mod Phases
pub mod Restarts
pub mod Logs
use suture_port_mariadb_oper.Prelude.{
  ◌≡◌, refl, ℕ, zero, suc, Bool, true, false, List, [], ◌∷◌, Option, none, some, Bytes, ℤ, Result,
  ok, err,
}
use suture_port_mariadb_oper.Steps.{
  Step, ◌>>=◌, ◌>>◌, modify, again, to_result, gets, deferred, lift,
}
use suture_port_mariadb_oper.Steps.Keeps.{
  Keeps, Keeps-give, Keeps-fail, Keeps-lift, Keeps-gets, Keeps-modify, Keeps-again, Keeps-bind,
  Keeps-then, Keeps-wrap, Keeps-run_if, Keeps-require, Keeps-run_all, Keeps-deferred, Keeps-both,
  keeps_rules,
}
use suture_port_mariadb_oper.GaleraState.{GaleraState, Bootstrap}
use suture_port_mariadb_oper.Api.{MariaDb, MariaDbStatus, GaleraRecoveryStatus}
use suture_port_mariadb_oper.RecoveryStatus.{set_state, set_recovered}
use suture_port_mariadb_oper.Recovery.{
  Cluster, State, Action, Error, not_found, failed, Event, tick, pod_deleted, bootstrap_enabled,
  bootstrap_disabled, replicas_patched, job_created, job_deleted, status_patched, Log, Pod, call,
  query, set_rs, patch, with_recovery, patch_recovery_status, client_for_index, client_for_pod,
  record_event,
}
use suture_port_mariadb_oper.Recovery.Polls.{
  poll_rounds, poll_until_success, guarded, poll_with_mariadb,
}
use suture_port_mariadb_oper.Recovery.Pods.{
  get_pods, poll_until_pod_healthy, recreate, ensure_pod_healthy, poll_until_pod_deleted,
  is_pod_healthy, synced_if, is_pod_synced, poll_until_pod_synced, patch_stateful_set_replicas,
}
use suture_port_mariadb_oper.Recovery.States.{
  store_state, fetch_state, get_pod_state, get_galera_state, create_if_missing, ensure_job,
  first_pod, get_job_logs, read_job, recover_pod, recover_pods, upscale, recover_galera_state,
  not_skipped, has_state, has_recovered, recovery_job_key,
}

-- Neither a bootstrap that is enabled, nor a patch of the replicas or of the status.
abbrev pub is_quiet : Event → Bool
is_quiet (bootstrap_enabled i b done) = false
is_quiet (replicas_patched n done) = false
is_quiet (status_patched status done) = false
is_quiet _ = true

-- The recovery status is written to the status.
abbrev pub written : State → Bool → State
written s done = record s {
  status = with_recovery s.status s.rs;
  log = status_patched (with_recovery s.status s.rs) done ∷ s.log;
}

-- What is kept by the quiet events, by the position of a Pod that is stored, and by writing the
-- recovery status.
pub record Calm (I : State → Type 0) : Type 0 where
  pub logs : (e : Event) (s : State) → is_quiet e ≡ true → I s → I (record_event s e)
  pub states :
      (pod : Bytes) (g : GaleraState) (s : State) → I s → I (record s { rs = set_state s.rs pod g })
  pub recovers :
      (pod : Bytes) (b : Bootstrap) (s : State)
      → I s
      → I (record s { rs = set_recovered s.rs pod b })
  pub writes : (s : State) (done : Bool) → I s → I (written s done)

-- A patch of the replicas keeps `I`.
abbrev pub Scales : (State → Type 0) → Type 0
Scales I = (n : ℕ) (b : Bool) (s : State) → I s → I (record_event s (replicas_patched n b))

pub Keeps-query : {I : State → Type 0} {A : Type 0} (f : Log → Result Error A) → Keeps I (query f)
unfolding query
Keeps-query f = record { at = λ s h. h }

pub Keeps-call :
    {I : State → Type 0} (f : Log → Option Error) (event : Bool → Event)
    → ((b : Bool) (s : State) → I s → I (record_event s (event b)))
    → Keeps I (call f event)
unfolding call
Keeps-call f event h = record { at = λ s hs. h _ s hs }

module _ {I : State → Type 0} (calm : Calm I) where
  pub Keeps-set_state :
      (pod : Bytes) (g : GaleraState) → Keeps I (set_rs (λ rs. set_state rs pod g))
  unfolding set_rs modify
  Keeps-set_state pod g = record { at = λ s h. calm.states pod g s h }

  pub Keeps-set_recovered :
      (pod : Bytes) (b : Bootstrap) → Keeps I (set_rs (λ rs. set_recovered rs pod b))
  unfolding set_rs modify
  Keeps-set_recovered pod b = record { at = λ s h. calm.recovers pod b s h }

  pub Keeps-quiet :
      (f : Log → Option Error) (event : Bool → Event)
      → ((b : Bool) → is_quiet (event b) ≡ true)
      → Keeps I (call f event)
  Keeps-quiet f event h = Keeps-call f event (λ b s hs. calm.logs (event b) s (h b) hs)

  pub Keeps-patch_recovery_status : (k : Cluster) → Keeps I (patch_recovery_status k)
  unfolding patch_recovery_status patch
  Keeps-patch_recovery_status k = record { at = λ s h. calm.writes s _ h }

  Keeps-poll_rounds : (n : ℕ) (fn : Action (Unit {0})) → Keeps I fn → Keeps I (poll_rounds n fn)
  unfolding poll_rounds
  Keeps-poll_rounds zero fn h = record { at = λ s hs. hs }
  Keeps-poll_rounds (suc n) fn h =
      let rest = Keeps-poll_rounds n fn h in
      let next : Keeps I (λ s. poll_rounds n fn (record_event s tick)) = record {
        at = λ s hs. rest.at _ (calm.logs tick s refl hs);
      } in
      record { at = λ s hs. (Keeps-again (fn s).0 _ next).at (fn s).1 (h.at s hs) }

  pub Keeps-poll_with_mariadb :
      (k : Cluster) (ctx : ℤ) (fn : Action (Unit {0}))
      → Keeps I fn
      → Keeps I (poll_with_mariadb k ctx fn)
  unfolding poll_with_mariadb poll_until_success guarded
  Keeps-poll_with_mariadb k ctx fn h = record {
    at = λ s hs.
        (Keeps-poll_rounds (suc (k.rounds s.log ctx)) (guarded k fn)
            (Keeps-bind _ _ (Keeps-gets _) (λ b. Keeps-run_if b fn h))).at
          s hs;
  }

pub ruleset recovery_rules = (
  Keeps-give, Keeps-fail, Keeps-lift, Keeps-gets, Keeps-wrap, Keeps-deferred, Keeps-bind,
  Keeps-then, Keeps-run_if, Keeps-require, Keeps-both, Keeps-run_all, Keeps-query, Keeps-set_state,
  Keeps-set_recovered, Keeps-poll_with_mariadb, Keeps-patch_recovery_status,
)

module _ {I : State → Type 0} (calm : Calm I) (k : Cluster) (mdb : MariaDb) where
  pub Keeps-client_for_index : (i : ℤ) → Keeps I (client_for_index k mdb i)
  unfolding client_for_index
  Keeps-client_for_index i = search recovery_rules

  pub Keeps-client_for_pod : (pod : Bytes) → Keeps I (client_for_pod k mdb pod)
  unfolding client_for_pod
  Keeps-client_for_pod pod = search (recovery_rules, Keeps-client_for_index)

  pub Keeps-delete_pod :
      (pod : Bytes) → Keeps I (call (λ log. k.delete_pod log pod) (pod_deleted pod))
  Keeps-delete_pod pod = Keeps-quiet calm _ _ (λ b. refl)

  pub Keeps-poll_until_pod_healthy :
      (ctx : ℤ) (pod : Bytes) → Keeps I (poll_until_pod_healthy k mdb ctx pod)
  unfolding poll_until_pod_healthy
  Keeps-poll_until_pod_healthy ctx pod = search (recovery_rules, Keeps-client_for_pod) depth 12

  Keeps-recreate :
      (ctx : ℤ) (pod : Bytes) (r : Result Error (Unit {0})) → Keeps I (recreate k mdb ctx pod r)
  unfolding recreate
  Keeps-recreate ctx pod (ok _) = Keeps-give tt
  Keeps-recreate ctx pod (err e) =
      search (recovery_rules, Keeps-delete_pod, Keeps-poll_until_pod_healthy) depth 12

  pub Keeps-ensure_pod_healthy :
      (ctx : ℤ) (pod : Bytes) → Keeps I (ensure_pod_healthy k mdb ctx pod)
  unfolding ensure_pod_healthy
  Keeps-ensure_pod_healthy ctx pod = record {
    at = λ s h. (Keeps-recreate ctx pod _).at _ ((Keeps-poll_until_pod_healthy _ pod).at s h);
  }

  pub Keeps-poll_until_pod_deleted :
      (ctx : ℤ) (pod : Bytes) → Keeps I (poll_until_pod_deleted k ctx pod)
  unfolding poll_until_pod_deleted
  Keeps-poll_until_pod_deleted ctx pod = search (recovery_rules, Keeps-delete_pod) depth 12

  Keeps-synced_if : (i : ℤ) (b : Bool) → Keeps I (synced_if k i b)
  unfolding synced_if
  Keeps-synced_if i true = search recovery_rules
  Keeps-synced_if i false = Keeps-give false

  Keeps-is_pod_synced : (i : ℤ) → Keeps I (is_pod_synced k i)
  unfolding is_pod_synced is_pod_healthy
  Keeps-is_pod_synced i = search (recovery_rules, Keeps-synced_if) depth 8

  pub Keeps-poll_until_pod_synced :
      (ctx : ℤ) (pod : Bytes) → Keeps I (poll_until_pod_synced k ctx pod)
  unfolding poll_until_pod_synced
  Keeps-poll_until_pod_synced ctx pod = search (recovery_rules, Keeps-is_pod_synced) depth 12
