-- ===== src/SqlResource/Explained.antt =====
-- pkg/controller/sql/controller.go: a reconciliation that takes the finalizer of a resource away.
use suture_port_mariadb_oper.Prelude.{
  ◌≡◌, refl, Bool, true, false, Option, none, some, Result, ok, err, if◌then◌else◌,
}
use suture_port_mariadb_oper.Steps.{Step, give, gets, wrap}
use suture_port_mariadb_oper.Steps.Keeps.{
  Keeps, keeps_rules, Keeps-bind, Keeps-gets, Keeps-give, Keeps-wrap,
}
use suture_port_mariadb_oper.Steps.Triples.{Triple-state}
use suture_port_mariadb_oper.Api.Conditions.{StatusConditions}
use suture_port_mariadb_oper.SqlResource.{
  SqlError, Resource, MariaDbObject, CtrlResult, is_zero, SqlOptions, Found, WrappedReconciler,
  WrappedFinalizer, finalizer_failed, wait_for_mariadb, attempt,
}
use suture_port_mariadb_oper.SqlResource.Finalizing.{
  add_sql_finalizer, finalize_sql, new_sql_finalizer,
}
use suture_port_mariadb_oper.SqlResource.Reconciling.{
  settle, reconcile_connected, reconcile_waited, reconcile_with, reconcile_resource,
}
use suture_port_mariadb_oper.SqlResource.Cleaning.{
  Held, CleansUp, Explained, Safe, Triple-finalize_sql,
}

pub Keeps-attempt :
    {S : Type 0} {I : S → Type 0} (m : Step S SqlError (Unit {0})) → Keeps I m → Keeps I (attempt m)
unfolding attempt
Keeps-attempt m h = record { at = h.at }

module _ {S : Type 0} (found : Found) (wr : WrappedReconciler S) (wf : WrappedFinalizer S)
    (resource : Resource) (Cleaned : S → Type 0) (laws : CleansUp wr wf Cleaned) where
  Keeps-add_sql_finalizer : Keeps (Held wf) (add_sql_finalizer found wf)
  unfolding add_sql_finalizer
  Keeps-add_sql_finalizer =
      Keeps-bind (gets wf.contains_finalizer)
        (λ held. if held then give tt else wrap finalizer_failed wf.put_finalizer)
        (Keeps-gets wf.contains_finalizer) go
    where
      go :
          (held : Bool)
          → Keeps (Held wf) (if held then give tt else wrap finalizer_failed wf.put_finalizer)
      go true = Keeps-give tt
      go false = Keeps-wrap finalizer_failed wf.put_finalizer laws.Keeps-put_finalizer

  module _ (meta : StatusConditions) (opts : SqlOptions) where
    abbrev at_connected : Result SqlError (Unit {0}) → Step S SqlError CtrlResult
    at_connected = reconcile_connected meta opts found wr (new_sql_finalizer found wf) resource

    Keeps-settle :
        (e : Option SqlError)
        → Keeps (Held wf) (settle meta opts found wr (new_sql_finalizer found wf) resource e)
    unfolding settle new_sql_finalizer
    Keeps-settle (some e) = search (keeps_rules, Keeps-attempt, laws.Keeps-patch_status) depth 12
    Keeps-settle none =
        search (keeps_rules, Keeps-attempt, laws.Keeps-patch_status, Keeps-add_sql_finalizer) depth
          12

    Keeps-reconcile_connected : (c : Result SqlError (Unit {0})) → Keeps (Held wf) (at_connected c)
    unfolding reconcile_connected
    Keeps-reconcile_connected (err e) =
        search (keeps_rules, Keeps-attempt, laws.Keeps-patch_status) depth 12
    Keeps-reconcile_connected (ok _) =
        Keeps-bind (attempt wr.reconcile_sql)
          (settle meta opts found wr (new_sql_finalizer found wf) resource)
          (Keeps-attempt wr.reconcile_sql laws.Keeps-reconcile_sql) Keeps-settle

    Keeps-reconcile_waited :
        (r : Result SqlError CtrlResult)
        → Keeps
            (Held wf)
            (reconcile_waited meta opts found wr (new_sql_finalizer found wf) resource r)
    unfolding reconcile_waited
    Keeps-reconcile_waited (err e) =
        search (keeps_rules, Keeps-attempt, laws.Keeps-patch_status) depth 12
    Keeps-reconcile_waited (ok r) = go (is_zero r)
      where
        go : (b : Bool) → Keeps (Held wf) (if b then at_connected found.connection else give r)
        go true = Keeps-reconcile_connected found.connection
        go false = Keeps-give r

    Keeps-reconcile_with :
        (m : Result Bool MariaDbObject)
        → Keeps
            (Held wf)
            (reconcile_with meta opts found wr (new_sql_finalizer found wf) resource m)
    unfolding reconcile_with
    Keeps-reconcile_with (err b) =
        search (keeps_rules, Keeps-attempt, laws.Keeps-patch_status) depth 12
    Keeps-reconcile_with (ok mdb) = Keeps-reconcile_waited (wait_for_mariadb found mdb)

    -- When a reconciliation takes the finalizer of a SQL resource away, the resource is being
    -- deleted, and its MariaDB does not exist or is being deleted, or the policy is to leave the
    -- server alone, or the clean-up of the server has succeeded. The code of the kind keeps the
    -- promises of `CleansUp`.
    pub reconcile_resource-Explained :
        (s : S)
        → wf.contains_finalizer s ≡ true
        → wf.contains_finalizer
            (reconcile_resource meta opts found wr (new_sql_finalizer found wf) resource s).1
          ≡ false
        → (resource.is_being_deleted ≡ true)
          × Explained found resource Cleaned
              (reconcile_resource meta opts found wr (new_sql_finalizer found wf) resource s).1
    unfolding reconcile_resource new_sql_finalizer
    reconcile_resource-Explained s h = go resource.is_being_deleted refl
      where
        run : Bool → S
        run b =
            ((if b
                then finalize_sql found wf resource
                else reconcile_with meta opts found wr (new_sql_finalizer found wf) resource
                    found.mariadb_object)
              s).1

        go :
            (b : Bool)
            → resource.is_being_deleted ≡ b
            → wf.contains_finalizer (run b) ≡ false
            → (b ≡ true) × Explained found resource Cleaned (run b)
        go true d gone = (
          refl,
          Triple-state (finalize_sql found wf resource)
              (Triple-finalize_sql found wr wf resource Cleaned laws) s h
              (Safe found wr wf resource Cleaned laws) (λ a s' k. k) (λ s' k. k) gone,
        )
        go false d gone = let kept = (Keeps-reconcile_with found.mariadb_object).at s h in cc
