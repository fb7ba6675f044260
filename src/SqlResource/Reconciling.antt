-- ===== src/SqlResource/Reconciling.antt =====
-- pkg/controller/sql/controller.go: the reconciliation of a SQL resource.
use suture_port_mariadb_oper.Prelude.{
  Bool, ◌++◌, Option, none, some, codes, Result, ok, err, if◌then◌else◌,
}
use suture_port_mariadb_oper.Steps.{Step, ◌>>=◌, give, fail}
use suture_port_mariadb_oper.Api.Conditions.{StatusConditions}
use suture_port_mariadb_oper.Conditions.Patchers.{
  patcher_failed, patcher_with_error, patcher_ref_resolver,
}
use suture_port_mariadb_oper.SqlResource.{
  SqlError, getting_mariadb, Resource, MariaDbObject, CtrlResult, is_zero, SqlOptions, Found,
  WrappedReconciler, Finalizer, wait_for_mariadb, attempt, append, retry_result, requeue_result,
}

module _ {S : Type 0} (meta : StatusConditions) (opts : SqlOptions) (found : Found)
    (wr : WrappedReconciler S) (f : Finalizer S) (resource : Resource) where
  unfoldable pub settle : Option SqlError → Step S SqlError CtrlResult
  settle (some e) =
      attempt (
        wr.patch_status (
          patcher_failed meta
            (codes "Error creating " ++ (resource.name ++ (codes ": " ++ found.error_text e)))))
      >>= λ p. give (retry_result resource (some e))
  settle none = attempt f.add_finalizer >>= λ added.
      attempt (wr.patch_status (patcher_with_error meta added)) >>= λ p.
      give (requeue_result opts found resource (append added p))

  unfoldable pub reconcile_connected : Result SqlError (Unit {0}) → Step S SqlError CtrlResult
  reconcile_connected (err e) =
      attempt (
        wr.patch_status
          (patcher_failed meta (codes "Error connecting to MariaDB: " ++ found.error_text e)))
      >>= λ p. give (retry_result resource (some e))
  reconcile_connected (ok _) = attempt wr.reconcile_sql >>= settle

  unfoldable pub reconcile_waited : Result SqlError CtrlResult → Step S SqlError CtrlResult
  reconcile_waited (err e) =
      attempt (wr.patch_status (patcher_with_error meta (some e))) >>= λ p. fail e
  reconcile_waited (ok r) = if is_zero r then reconcile_connected found.connection else give r

  unfoldable pub reconcile_with : Result Bool MariaDbObject → Step S SqlError CtrlResult
  reconcile_with (err not_found) =
      attempt (wr.patch_status (patcher_ref_resolver meta (some not_found) resource.ref_type))
      >>= λ p. fail getting_mariadb
  reconcile_with (ok mdb) = reconcile_waited (wait_for_mariadb found mdb)

  -- `SqlReconciler.Reconcile`.
  unfoldable pub reconcile_resource : Step S SqlError CtrlResult
  reconcile_resource =
      if resource.is_being_deleted then f.finalize resource else reconcile_with found.mariadb_object
