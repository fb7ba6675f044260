-- ===== src/SqlResource/Examples.antt =====
-- A database that is deleted, a grant whose privileges change, and a user that exists, on a MariaDB
-- of one replica.
use suture_port_mariadb_oper.Prelude.{
  ◌||◌, ◌≡◌, refl, Bool, true, false, List, [], ◌∷◌, none, some, Bytes, codes, bytes_eq,
  bytes_eq_refl, mem, ok, arith, if◌then◌else◌,
}
use suture_port_mariadb_oper.Conditions.Listed.{listed}
use suture_port_mariadb_oper.Health.{
  is_stateful_set_healthy, check_stateful_set, check_listed, check_slices, matches_port,
  count_ready, meets_policy,
}
use suture_port_mariadb_oper.Steps.{
  ◌>>=◌, ◌>>◌, give, fail, gets, resume, wrap, wrap_error, modify, require, run_if,
}
use suture_port_mariadb_oper.SqlResource.{
  Resource, MariaDbObject, Found, default_options, wait_for_mariadb, is_zero, attempt, retry_result,
  requeue_result, add_requeue_interval_offset,
}
use suture_port_mariadb_oper.SqlResource.Finalizing.{
  new_sql_finalizer, finalize_sql, finalize_with, finalize_waited, finalize_connected, clean_up_if,
  drop_finalizer, add_sql_finalizer,
}
use suture_port_mariadb_oper.SqlResource.Reconciling.{
  reconcile_resource, reconcile_with, reconcile_waited, reconcile_connected, settle,
}
use suture_port_mariadb_oper.SqlResource.Objects.{
  Session, Server, ControllerUtil, Privileges, grant, ran, has_finalizer, put_name, take_name, send,
  exec, record_event, record_sent, update, patch_conditions,
}
use suture_port_mariadb_oper.SqlResource.Databases.{
  Database, database_reconciler, database_finalizer, database_name_or_default, reconcile_database,
  drop_named_database,
}
use suture_port_mariadb_oper.SqlResource.Grants.{
  Grant, reconcile_grant, reconcile_grant_of, revoke_missing, revoke_listed, grant_listed,
  save_current, privileges_to_revoke, is_current, lists_eq, missing_from, with_current,
  account_name, hostname_or_default,
}
use suture_port_mariadb_oper.SqlResource.Cleaning.{Explained}
use suture_port_mariadb_oper.SqlResource.Explained.{reconcile_resource-Explained}
use suture_port_mariadb_oper.SqlResource.Kinds.Laws.{
  Dropped, database-CleansUp, database-PatchesConditions,
}
use suture_port_mariadb_oper.SqlResource.Agreement.{is_granted, is_listed, reconcile_grant-Agrees}
use suture_port_mariadb_oper.SqlResource.Reports.{is_ready_in, reconcile_resource-Ready}

abbrev remove_all : List Bytes → Bytes → List Bytes
remove_all [] f = []
remove_all (g ∷ fs) f = let rest = remove_all fs f in if bytes_eq g f then rest else g ∷ rest

mem-remove_all : (fs : List Bytes) (f : Bytes) → mem f (remove_all fs f) ≡ false
unfolding mem
mem-remove_all [] f = refl
mem-remove_all (g ∷ fs) f = ground (arith, mem-remove_all fs f)

mem_first : (fs : List Bytes) (f : Bytes) → mem f (f ∷ fs) ≡ true
unfolding mem
mem_first fs f = rw (bytes_eq_refl f) refl

abbrev util : ControllerUtil
util = record {
  add_name = λ fs f. f ∷ fs;
  remove_name = remove_all;
  contains_name = λ fs f. mem f fs;
  contains-add = mem_first;
  contains-remove = mem-remove_all;
}

abbrev accepts : {O : Type 0} → Server O
accepts = record {
  runs = λ log q. true;
  patches = λ log o. true;
  user_exists = λ log user host. ok true;
  secret_key_ref = λ ref. ok (codes "secret");
}

abbrev mariadb : MariaDbObject
mariadb = record { is_external = false; replicas = 1; port = 3306; is_being_deleted = false }

abbrev found : Found
found = record {
  mariadb_object = ok mariadb;
  mariadb = ok mariadb;
  stateful_set = ok (record { spec_replicas = some 1; ready_replicas = 1 });
  endpoint_slices = ok (record { ports = some 3306 ∷ []; endpoints = some true ∷ [] } ∷ []);
  connection = ok tt;
  random = 7;
  error_text = λ e. codes "failed";
}

abbrev resource : Bool → Resource
resource b = record {
  name = codes "app";
  ref_type = codes "MariaDB";
  is_being_deleted = b;
  requeue_interval = none;
  retry_interval = none;
  cleanup_policy = none;
}

abbrev app : Session Database
app = record {
  object = record {
    metadata_name = codes "app";
    name = [];
    character_set = codes "utf8";
    collate = codes "utf8_general_ci";
    finalizers = codes "database.k8s.mariadb.com/finalizer" ∷ [];
    conditions = [];
  };
  log = [];
}

reconcile_resource-Explained_example :
    ((resource true).is_being_deleted ≡ true)
    × Explained found
        (resource true)
        (Dropped accepts util)
        (reconcile_resource listed default_options found
          (database_reconciler accepts)
          (new_sql_finalizer found (database_finalizer accepts util))
          (resource true)
          app).1
unfolding mem bytes_eq finalize_sql finalize_with finalize_waited finalize_connected clean_up_if
    drop_finalizer wait_for_mariadb is_zero attempt add_sql_finalizer reconcile_resource
    reconcile_with reconcile_waited reconcile_connected settle retry_result requeue_result
    add_requeue_interval_offset new_sql_finalizer default_options is_stateful_set_healthy
    check_stateful_set check_listed check_slices matches_port count_ready meets_policy ◌>>=◌ ◌>>◌
    give fail gets resume wrap wrap_error modify require run_if has_finalizer put_name take_name
    send exec record_event record_sent update patch_conditions database_name_or_default
    reconcile_database drop_named_database
reconcile_resource-Explained_example =
    reconcile_resource-Explained found (database_reconciler accepts)
      (database_finalizer accepts util) (resource true) (Dropped accepts util)
      (database-CleansUp accepts util) listed default_options app refl refl

reconcile_resource-Ready_example :
    is_ready_in listed
      (database_reconciler accepts)
      (database-PatchesConditions util accepts)
      (reconcile_resource listed default_options found
        (database_reconciler accepts)
        (new_sql_finalizer found (database_finalizer accepts util))
        (resource false)
        app).1
    ≡ true
unfolding mem bytes_eq wait_for_mariadb is_zero add_sql_finalizer new_sql_finalizer
    is_stateful_set_healthy check_stateful_set check_listed check_slices matches_port count_ready
    meets_policy ◌>>=◌ ◌>>◌ give fail gets resume wrap wrap_error modify require run_if
    has_finalizer put_name take_name send exec record_event record_sent update patch_conditions
    database_name_or_default reconcile_database drop_named_database
reconcile_resource-Ready_example =
    reconcile_resource-Ready listed (database_reconciler accepts)
      (database-PatchesConditions util accepts) default_options found
      (new_sql_finalizer found (database_finalizer accepts util)) (resource false) app refl

abbrev privileges : List Bytes
privileges = codes "SELECT" ∷ codes "INSERT" ∷ []

abbrev privileges_before : List Bytes
privileges_before = codes "SELECT" ∷ codes "DROP" ∷ []

abbrev before : Privileges
before = record {
  privileges = privileges_before;
  database = codes "app";
  table = codes "*";
  account_name = codes "'alice'@'%'";
  grant_option = false;
}

-- A privilege is replaced by another.
abbrev changed : Session Grant
changed = record {
  object = record {
    privileges = privileges;
    database = codes "app";
    table = codes "*";
    username = codes "alice";
    host = none;
    grant_option = false;
    finalizers = [];
    conditions = [];
    current_privileges = some privileges_before;
  };
  log = ran (grant before) true ∷ [];
}

or_false : (b : Bool) → (b || false) ≡ b
or_false true = refl
or_false false = refl

agreed : (p : Bytes) → is_granted changed.object changed.log p ≡ is_listed changed.object p
unfolding is_granted bytes_eq account_name hostname_or_default
agreed p = or_false (mem p privileges_before)

reconcile_grant-Agrees_example :
    (is_granted changed.object (reconcile_grant accepts changed).1.log (codes "DROP")
      ≡ mem (codes "DROP") privileges)
    × (is_listed (reconcile_grant accepts changed).1.object (codes "DROP")
        ≡ mem (codes "DROP") privileges)
unfolding mem bytes_eq reconcile_grant reconcile_grant_of revoke_missing revoke_listed grant_listed
    save_current privileges_to_revoke is_current lists_eq missing_from with_current account_name
    hostname_or_default ◌>>=◌ ◌>>◌ give fail gets resume wrap wrap_error modify require run_if exec
    send record_event record_sent update
reconcile_grant-Agrees_example = reconcile_grant-Agrees accepts changed agreed refl (codes "DROP")
