-- ===== src/SqlResource/Databases.antt =====
-- internal/controller/database_controller.go, database_controller_finalizer.go.
use suture_port_mariadb_oper.Prelude.{refl, List, [], ◌∷◌, Bytes, codes}
use suture_port_mariadb_oper.Api.{Condition}
use suture_port_mariadb_oper.SqlResource.{WrappedReconciler, WrappedFinalizer}
use suture_port_mariadb_oper.SqlResource.Objects.{
  create_database, drop_database, Session, Action, Server, ControllerUtil, Kind, exec,
  patch_conditions, finalizer_of,
}

pub record Database : Type 0 where
  pub metadata_name : Bytes
  pub name : Bytes
  pub character_set : Bytes
  pub collate : Bytes
  pub finalizers : List Bytes
  pub conditions : List Condition

-- `d.Spec.Name`, or the object's name.
unfoldable pub database_name_or_default : Database → Bytes
database_name_or_default d = elim d.name [ [] ↦ d.metadata_name | c ∷ cs ↦ c ∷ cs ]

abbrev pub database_kind : Kind Database
database_kind = record {
  finalizer_name = codes "database.k8s.mariadb.com/finalizer";
  finalizers = λ d. d.finalizers;
  with_finalizers = λ d fs. record d { finalizers = fs };
  conditions = λ d. d.conditions;
  with_conditions = λ d cs. record d { conditions = cs };
  finalizers-with_finalizers = λ o fs. refl;
  finalizers-with_conditions = λ o cs. refl;
  conditions-with_conditions = λ o cs. refl;
}

module _ (k : Server Database) where
  unfoldable pub reconcile_database : Action Database (Unit {0})
  reconcile_database s =
      exec k
        (create_database (database_name_or_default s.object) s.object.character_set
          s.object.collate)
        s

  unfoldable pub drop_named_database : Action Database (Unit {0})
  drop_named_database s = exec k (drop_database (database_name_or_default s.object)) s

  abbrev pub database_reconciler : WrappedReconciler (Session Database)
  database_reconciler = record {
    reconcile_sql = reconcile_database;
    patch_status = patch_conditions k database_kind;
  }

  abbrev pub database_finalizer : ControllerUtil → WrappedFinalizer (Session Database)
  database_finalizer util = finalizer_of k database_kind util drop_named_database
