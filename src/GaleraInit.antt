-- ===== src/GaleraInit.antt =====
-- pkg/controller/galera/init.go: the first start of a Galera cluster, as steps on the status of the
-- MariaDB and a log. `InitCluster` stands for the API server, with the builders and the reconcilers
-- of the volume and of the ConfigMap: an answer may depend on all that went before, and a call that
-- fails before it is sent counts as one that failed.
pub mod Bootstrapped
pub mod Adopted
mod Examples
use suture_port_mariadb_oper.Prelude.{
  Bool, true, false, not, ◌||◌, ◌&&◌, List, [], ◌∷◌, Option, none, some, ℤ, pos, Result, ok, err,
  if◌then◌else◌,
}
use suture_port_mariadb_oper.Steps.{
  Step, ◌>>=◌, ◌>>◌, give, fail, gets, ask, wrap, to_result, is_none,
}
use suture_port_mariadb_oper.Jobs.{Job, is_job_complete}
use suture_port_mariadb_oper.Api.{Condition, MariaDb, MariaDbStatus}
use suture_port_mariadb_oper.Api.Conditions.{
  StatusConditions, set_condition, has_galera_configured_condition, is_galera_initialized,
  is_galera_initializing, is_initialized,
}
use suture_port_mariadb_oper.Conditions.{
  set_galera_configured, set_galera_not_ready, set_galera_initializing, set_galera_initialized,
}
use suture_port_mariadb_oper.Recovery.{Error, not_found, failed}

-- A call that changes the cluster, with whether it succeeded.
pub data InitEvent : Type 0 where
  volume_reconciled config_map_reconciled job_created job_deleted config_map_deleted :
      Bool → InitEvent
  status_patched : MariaDbStatus → Bool → InitEvent

-- The newest event is the first.
abbrev pub InitLog : Type 0
InitLog = List InitEvent

-- `storage_volumes` tells of each claim whether it is bound; `init_job` and `init_config_map` get
-- the object of the name that the initialization uses. The others are calls that change something.
pub record InitCluster : Type 0 where
  pub storage_volumes : InitLog → Result Error (List Bool)
  pub reconcile_volume : InitLog → Option Error
  pub init_config_map : InitLog → Result Error (Unit {0})
  pub reconcile_config_map : InitLog → Option Error
  pub init_job : InitLog → Result Error Job
  pub create_job : InitLog → Option Error
  pub delete_job : InitLog → Option Error
  pub delete_config_map : InitLog → Option Error
  pub patch_status : InitLog → MariaDbStatus → Option Error

pub record InitState : Type 0 where
  pub status : MariaDbStatus
  pub log : InitLog

abbrev pub InitAction : Type 0 → Type 0
InitAction = Step InitState Error

unfoldable pub init_call : (InitLog → Option Error) → (Bool → InitEvent) → InitAction (Unit {0})
unfolding to_result is_none
init_call f event s = (to_result (f s.log), record s { log = event (is_none (f s.log)) ∷ s.log })

-- The status in memory changes also when the patch fails.
unfoldable pub patch_init : InitCluster → (MariaDbStatus → MariaDbStatus) → InitAction (Unit {0})
unfolding to_result is_none
patch_init k f s =
    let status = f s.status in
    (
      to_result (k.patch_status s.log status),
      record s {
        status = status;
        log = status_patched status (is_none (k.patch_status s.log status)) ∷ s.log;
      },
    )

unfoldable pub all_bound : List Bool → Bool
all_bound [] = true
all_bound (b ∷ bs) = b && all_bound bs

-- ctrl.Result: the time to wait, if there is one.
abbrev pub Requeue : Type 0
Requeue = Option ℤ

abbrev pub one_second : ℤ
one_second = pos 1000000000

abbrev pub three_seconds : ℤ
three_seconds = pos 3000000000

-- `client.IgnoreNotFound`.
unfoldable pub ignore_not_found : Option Error → Option Error
ignore_not_found (some not_found) = none
ignore_not_found (some failed) = some failed
ignore_not_found none = none

module _ (k : InitCluster) where
  unfoldable pub reconcile_found_config_map : Result Error (Unit {0}) → InitAction (Unit {0})
  reconcile_found_config_map (ok _) = give tt
  reconcile_found_config_map (err not_found) =
      init_call k.reconcile_config_map config_map_reconciled
  reconcile_found_config_map (err failed) = fail failed

  unfoldable pub reconcile_init_config_map : InitAction (Unit {0})
  reconcile_init_config_map = gets (λ s. k.init_config_map s.log) >>= reconcile_found_config_map

  unfoldable pub delete_found_job : Result Error Job → InitAction (Unit {0})
  delete_found_job (ok job) = init_call (λ log. ignore_not_found (k.delete_job log)) job_deleted
  delete_found_job (err e) = give tt

  unfoldable pub delete_found_config_map : Result Error (Unit {0}) → InitAction (Unit {0})
  delete_found_config_map (ok _) =
      init_call (λ log. ignore_not_found (k.delete_config_map log)) config_map_deleted
  delete_found_config_map (err e) = give tt

  unfoldable pub init_cleanup : InitAction (Unit {0})
  init_cleanup =
      gets (λ s. k.init_job s.log)
      >>= delete_found_job
      >> (gets (λ s. k.init_config_map s.log) >>= delete_found_config_map)

  module _ (meta : StatusConditions) where
    abbrev set : MariaDbStatus → Condition → MariaDbStatus
    set = set_condition meta

    unfoldable pub initializing_status : MariaDbStatus → MariaDbStatus
    initializing_status status = set_galera_initializing set status

    unfoldable pub initialized_status : MariaDbStatus → MariaDbStatus
    initialized_status status = set_galera_initialized set status

    -- The storage is there already: the cluster is recovered instead.
    unfoldable pub configured_status : MariaDbStatus → MariaDbStatus
    configured_status status =
        set_galera_not_ready set
          (record (set_galera_configured set status) { galera_recovery = none })

    unfoldable pub check_init_job : Result Error Job → InitAction Requeue
    check_init_job (err not_found) = init_call k.create_job job_created >> give (some one_second)
    check_init_job (err failed) = fail failed
    check_init_job (ok job) =
        if is_job_complete (some job)
        then wrap failed init_cleanup
          >> (wrap failed (patch_init k initialized_status) >> give none)
        else give (some one_second)

    unfoldable pub start_init : InitAction Requeue
    start_init =
        wrap failed (patch_init k initializing_status)
        >> (init_call k.reconcile_volume volume_reconciled
            >> (reconcile_init_config_map >> (gets (λ s. k.init_job s.log) >>= check_init_job)))

    unfoldable pub adopt_storage : InitAction Requeue
    adopt_storage = wrap failed (patch_init k configured_status) >> give none

    unfoldable pub check_storage : List Bool → InitAction Requeue
    check_storage [] = start_init
    check_storage (b ∷ bs) = if all_bound (b ∷ bs) then adopt_storage else give (some three_seconds)

    unfoldable pub is_init_done : MariaDb → Bool
    is_init_done mariadb =
        has_galera_configured_condition meta mariadb
        || is_galera_initialized meta mariadb
        || is_initialized meta mariadb

    unfoldable pub reconcile_init_of : MariaDb → InitAction Requeue
    reconcile_init_of mariadb =
        if is_init_done mariadb
        then give none
        else if is_galera_initializing meta mariadb
        then start_init
        else (wrap failed (ask (λ s. k.storage_volumes s.log)) >>= check_storage)

    -- `ReconcileInit`; `mariadb` has the specification, the state its status.
    unfoldable pub reconcile_init : MariaDb → InitAction Requeue
    reconcile_init mariadb s = reconcile_init_of (record mariadb { status = s.status }) s
