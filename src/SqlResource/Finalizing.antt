-- ===== src/SqlResource/Finalizing.antt =====
-- pkg/controller/sql/finalizer.go: the finalizer of a SQL resource.
use suture_port_mariadb_oper.Prelude.{Bool, true, false, Result, ok, err, if◌then◌else◌}
use suture_port_mariadb_oper.Steps.{Step, ◌>>=◌, ◌>>◌, give, fail, gets, wrap}
use suture_port_mariadb_oper.Api.{deref}
use suture_port_mariadb_oper.SqlResource.{
  SqlError, getting_mariadb, connecting_failed, finalizer_failed, CleanupPolicy,
  cleanup_policy_skip, cleanup_policy_delete, Resource, MariaDbObject, CtrlResult, is_zero,
  no_requeue, Found, WrappedFinalizer, Finalizer, wait_for_mariadb,
}

module _ {S : Type 0} (found : Found) (wf : WrappedFinalizer S) where
  unfoldable pub add_sql_finalizer : Step S SqlError (Unit {0})
  add_sql_finalizer = gets wf.contains_finalizer >>= λ held.
      if held then give tt else wrap finalizer_failed wf.put_finalizer

  unfoldable pub drop_finalizer : Step S SqlError CtrlResult
  drop_finalizer = wrap finalizer_failed wf.remove_finalizer >> give no_requeue

  unfoldable pub clean_up_if : CleanupPolicy → Step S SqlError (Unit {0})
  clean_up_if cleanup_policy_delete = wrap finalizer_failed wf.clean_up
  clean_up_if cleanup_policy_skip = give tt

  unfoldable pub finalize_connected :
      Resource → Result SqlError (Unit {0}) → Step S SqlError CtrlResult
  finalize_connected resource (err e) = fail connecting_failed
  finalize_connected resource (ok _) =
      clean_up_if (deref resource.cleanup_policy cleanup_policy_delete) >> drop_finalizer

  unfoldable pub finalize_waited :
      Resource → Result SqlError CtrlResult → Step S SqlError CtrlResult
  finalize_waited resource (err e) = fail e
  finalize_waited resource (ok r) =
      if is_zero r then finalize_connected resource found.connection else give r

  unfoldable pub finalize_with : Resource → Result Bool MariaDbObject → Step S SqlError CtrlResult
  finalize_with resource (err true) = drop_finalizer
  finalize_with resource (err false) = fail getting_mariadb
  finalize_with resource (ok mdb) =
      if mdb.is_being_deleted
      then drop_finalizer
      else finalize_waited resource (wait_for_mariadb found mdb)

  unfoldable pub finalize_sql : Resource → Step S SqlError CtrlResult
  finalize_sql resource = gets wf.contains_finalizer >>= λ held.
      if held then finalize_with resource found.mariadb else give no_requeue

  -- `NewSqlFinalizer`.
  unfoldable pub new_sql_finalizer : Finalizer S
  new_sql_finalizer = record { add_finalizer = add_sql_finalizer; finalize = finalize_sql }
