-- ===== src/GaleraInit/Bootstrapped.antt =====
-- pkg/controller/galera/init.go: when Galera is recorded as initialized, and what happens to storage
-- that is there before.
use suture_port_mariadb_oper.Prelude.{
  ◌≡◌, refl, subst, Bool, true, false, List, [], ◌∷◌, Option, none, some, Result, ok, err,
  if◌then◌else◌,
}
use suture_port_mariadb_oper.Steps.{◌>>=◌, ◌>>◌, give, gets, ask, wrap, resume}
use suture_port_mariadb_oper.Steps.Keeps.{
  Keeps, Keeps-bind, Keeps-give, Keeps-fail, Keeps-gets, Keeps-then, Keeps-wrap, Keeps-ask,
}
use suture_port_mariadb_oper.Steps.Triples.{
  Triple, Triple-weaken, Triple-kept, Triple-keeps, Triple-then, Triple-always, Triple-state,
}
use suture_port_mariadb_oper.Jobs.{Job, is_job_complete}
use suture_port_mariadb_oper.Api.{ConditionType, MariaDb, MariaDbStatus}
use suture_port_mariadb_oper.Api.Conditions.{
  StatusConditions, set_condition, is_galera_initializing,
}
use suture_port_mariadb_oper.Conditions.{
  set_galera_configured, set_galera_not_ready, set_galera_initializing,
}
use suture_port_mariadb_oper.Recovery.{Error, not_found, failed}
use suture_port_mariadb_oper.GaleraInit.{
  InitEvent, InitLog, InitCluster, InitState, InitAction, Requeue, job_created, init_call,
  patch_init, all_bound, reconcile_found_config_map, reconcile_init_config_map, init_cleanup,
  initializing_status, initialized_status, configured_status, check_init_job, start_init,
  adopt_storage, check_storage, is_init_done, reconcile_init_of, reconcile_init, one_second,
  three_seconds,
}

-- The Job of the initialization was seen complete.
abbrev pub SeenComplete : InitCluster → Type 0
SeenComplete k =
    (log : InitLog) × (job : Job) × (k.init_job log ≡ ok job) × (is_job_complete (some job) ≡ true)

module _ (k : InitCluster) (meta : StatusConditions) where
  unfoldable pub is_recorded : MariaDbStatus → Bool
  is_recorded status =
      meta.is_status_condition_true status.conditions ConditionType.galera_initialized

  NotYet : InitState → Type 0
  NotYet s = is_recorded s.status ≡ false

  Safe : InitState → Type 0
  Safe s = is_recorded s.status ≡ true → SeenComplete k

  Safe-of_NotYet : (s : InitState) → NotYet s → Safe s
  unfolding NotYet Safe
  Safe-of_NotYet s h e = cc

  Keeps-init_call :
      (f : InitLog → Option Error) (event : Bool → InitEvent) → Keeps NotYet (init_call f event)
  unfolding init_call NotYet
  Keeps-init_call f event = record { at = λ s h. h }

  Keeps-patch_init :
      (f : MariaDbStatus → MariaDbStatus)
      → ((status : MariaDbStatus) → is_recorded status ≡ false → is_recorded (f status) ≡ false)
      → Keeps NotYet (patch_init k f)
  unfolding patch_init NotYet
  Keeps-patch_init f h = record { at = λ s. h s.status }

  is_recorded-initializing :
      (status : MariaDbStatus) → is_recorded (initializing_status k meta status) ≡ false
  unfolding is_recorded initializing_status set_galera_initializing set_condition
  is_recorded-initializing status = rw (meta.is_true_lem, meta.find_set) refl

  is_recorded-configured :
      (status : MariaDbStatus)
      → is_recorded status ≡ false
      → is_recorded (configured_status k meta status) ≡ false
  unfolding is_recorded configured_status set_galera_not_ready set_galera_configured set_condition
  is_recorded-configured status h =
      rw (meta.is_true_lem, meta.find_set, meta.find_set, meta.find_set)
        (subst (λ b. b ≡ false)
          (meta.is_true_lem status.conditions ConditionType.galera_initialized) h)

  Keeps-reconcile_init_config_map : Keeps NotYet (reconcile_init_config_map k)
  unfolding reconcile_init_config_map reconcile_found_config_map
  Keeps-reconcile_init_config_map =
      Keeps-bind (gets (λ s. k.init_config_map s.log)) _ (Keeps-gets _) go
    where
      go : (r : Result Error (Unit {0})) → Keeps NotYet (reconcile_found_config_map k r)
      go (ok _) = Keeps-give tt
      go (err not_found) = Keeps-init_call _ _
      go (err failed) = Keeps-fail failed

  Triple-NotYet :
      {A : Type 0} (m : InitAction A) → Keeps NotYet m → Triple NotYet m (λ _. Safe) Safe
  Triple-NotYet m h =
      Triple-weaken m (λ s k. k) (λ a. Safe-of_NotYet) Safe-of_NotYet (Triple-keeps m h)

  -- An answer about the Job, and what was asked for it.
  Triple-check_init_job :
      (log : InitLog) (r : Result Error Job)
      → k.init_job log ≡ r
      → Triple NotYet (check_init_job k meta r) (λ _. Safe) Safe
  unfolding check_init_job Safe
  Triple-check_init_job log (err not_found) e =
      Triple-NotYet _
        (Keeps-then (init_call k.create_job job_created) _ (Keeps-init_call _ _) (Keeps-give _))
  Triple-check_init_job log (err failed) e = Triple-NotYet _ (Keeps-fail failed)
  Triple-check_init_job log (ok job) e = go (is_job_complete (some job)) refl
    where
      finish : InitAction Requeue
      finish =
          wrap failed (init_cleanup k)
          >> (wrap failed (patch_init k (initialized_status k meta)) >> give none)

      go :
          (b : Bool)
          → is_job_complete (some job) ≡ b
          → Triple NotYet (if b then finish else give (some one_second)) (λ _. Safe) Safe
      go true c = Triple-always {Q = Safe} finish (λ s h. seen c (finish s).1)
        where
          seen : is_job_complete (some job) ≡ true → (s : InitState) → Safe s
          seen c s h = (log, job, e, c)
      go false c = Triple-NotYet _ (Keeps-give _)

  Triple-get_init_job :
      Triple NotYet (gets (λ s. k.init_job s.log) >>= check_init_job k meta) (λ _. Safe) Safe
  unfolding ◌>>=◌ gets resume
  Triple-get_init_job = record {
    at = λ s h. (Triple-check_init_job s.log (k.init_job s.log) refl).at s h;
  }

  Triple-start_init : Triple NotYet (start_init k meta) (λ _. Safe) Safe
  unfolding start_init
  Triple-start_init =
      Triple-after (wrap failed (patch_init k (initializing_status k meta))) _
        (Keeps-wrap failed _ (Keeps-patch_init _ (λ status h. is_recorded-initializing status)))
        (Triple-after (init_call k.reconcile_volume _) _ (Keeps-init_call _ _) (
          Triple-after (reconcile_init_config_map k) _ Keeps-reconcile_init_config_map
            Triple-get_init_job))
    where
      Triple-after :
          (m : InitAction (Unit {0})) (n : InitAction Requeue)
          → Keeps NotYet m
          → Triple NotYet n (λ _. Safe) Safe
          → Triple NotYet (m >> n) (λ _. Safe) Safe
      Triple-after m n hm hn =
          Triple-then NotYet m n
            (Triple-weaken m (λ s h. h) (λ a s h. h) Safe-of_NotYet (Triple-keeps m hm)) hn

  Triple-check_storage : (bs : List Bool) → Triple NotYet (check_storage k meta bs) (λ _. Safe) Safe
  unfolding check_storage adopt_storage
  Triple-check_storage [] = Triple-start_init
  Triple-check_storage (b ∷ bs) = go (all_bound (b ∷ bs))
    where
      go :
          (c : Bool)
          → Triple NotYet
              (if c then adopt_storage k meta else give (some three_seconds))
              (λ _. Safe)
              Safe
      go true = Triple-NotYet _ (
          Keeps-then _ _ (Keeps-wrap failed _ (Keeps-patch_init _ is_recorded-configured))
            (Keeps-give none))
      go false = Triple-NotYet _ (Keeps-give _)

  Triple-reconcile_init_of :
      (mariadb : MariaDb) → Triple NotYet (reconcile_init_of k meta mariadb) (λ _. Safe) Safe
  unfolding reconcile_init_of
  Triple-reconcile_init_of mariadb =
      go (is_init_done k meta mariadb) (is_galera_initializing meta mariadb)
    where
      listed : InitAction Requeue
      listed = wrap failed (ask (λ s. k.storage_volumes s.log)) >>= check_storage k meta

      go :
          (b c : Bool)
          → Triple NotYet
              (if b then give none else if c then start_init k meta else listed)
              (λ _. Safe)
              Safe
      go true c = Triple-NotYet _ (Keeps-give none)
      go false true = Triple-start_init
      go false false =
          Triple-kept (wrap failed (ask (λ s. k.storage_volumes s.log))) (check_storage k meta)
            (Keeps-wrap failed _ (Keeps-ask _)) Safe-of_NotYet Triple-check_storage

  -- A reconciliation records Galera as initialized only when it has seen the Job of the
  -- initialization complete, if it was not recorded before.
  pub reconcile_init-Bootstrapped :
      (mariadb : MariaDb) (s : InitState)
      → is_recorded s.status ≡ false
      → is_recorded (reconcile_init k meta mariadb s).1.status ≡ true
      → SeenComplete k
  unfolding reconcile_init NotYet Safe
  reconcile_init-Bootstrapped mariadb s h =
      let m = record mariadb { status = s.status } in
      Triple-state (reconcile_init_of k meta m) (Triple-reconcile_init_of m) s h Safe (λ a s' p. p)
        (λ s' p. p)
