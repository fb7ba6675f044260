-- ===== src/SqlResource/Grants.antt =====
-- internal/controller/grant_controller.go, grant_controller_finalizer.go.
use suture_port_mariadb_oper.Prelude.{
  refl, Bool, true, false, not, ◌&&◌, List, [], ◌∷◌, Option, none, some, Bytes, codes, bytes_eq,
  mem, if◌then◌else◌,
}
use suture_port_mariadb_oper.Steps.{◌>>=◌, ◌>>◌, give, gets, ask, run_if}
use suture_port_mariadb_oper.Api.{Condition, deref}
use suture_port_mariadb_oper.SqlResource.{WrappedReconciler, WrappedFinalizer}
use suture_port_mariadb_oper.SqlResource.Objects.{
  Privileges, grant, revoke, Session, Action, Server, ControllerUtil, Kind, account_of, exec, send,
  status_patched, patch_conditions, finalizer_of,
}

pub record Grant : Type 0 where
  pub privileges : List Bytes
  pub database : Bytes
  pub table : Bytes
  pub username : Bytes
  pub host : Option Bytes
  pub grant_option : Bool
  pub finalizers : List Bytes
  pub conditions : List Condition
  pub current_privileges : Option (List Bytes)

unfoldable pub hostname_or_default : Grant → Bytes
hostname_or_default g = elim (deref g.host []) [ [] ↦ codes "%" | c ∷ cs ↦ c ∷ cs ]

unfoldable pub account_name : Grant → Bytes
account_name g = account_of g.username (hostname_or_default g)

-- `slices.Equal`; a nil slice is an empty one.
unfoldable pub lists_eq : List Bytes → List Bytes → Bool
lists_eq [] [] = true
lists_eq [] (y ∷ ys) = false
lists_eq (x ∷ xs) [] = false
lists_eq (x ∷ xs) (y ∷ ys) = bytes_eq x y && lists_eq xs ys

unfoldable pub missing_from : List Bytes → List Bytes → List Bytes
missing_from spec [] = []
missing_from spec (p ∷ ps) =
    let rest = missing_from spec ps in if mem p spec then rest else p ∷ rest

unfoldable pub is_current : Grant → Bool
is_current g = lists_eq (deref g.current_privileges []) g.privileges

unfoldable pub privileges_to_revoke : Grant → List Bytes
privileges_to_revoke g =
    if is_current g then [] else missing_from g.privileges (deref g.current_privileges [])

-- What a statement on the grant's table names.
abbrev pub privileges_on : Grant → List Bytes → Bool → Privileges
privileges_on g ps option = record {
  privileges = ps;
  database = g.database;
  table = g.table;
  account_name = account_name g;
  grant_option = option;
}

abbrev pub grant_kind : Kind Grant
grant_kind = record {
  finalizer_name = codes "grant.k8s.mariadb.com/finalizer";
  finalizers = λ g. g.finalizers;
  with_finalizers = λ g fs. record g { finalizers = fs };
  conditions = λ g. g.conditions;
  with_conditions = λ g cs. record g { conditions = cs };
  finalizers-with_finalizers = λ o fs. refl;
  finalizers-with_conditions = λ o cs. refl;
  conditions-with_conditions = λ o cs. refl;
}

-- The status is the specification's.
unfoldable pub with_current : Grant → Grant
with_current g = record g { current_privileges = some g.privileges }

module _ (k : Server Grant) where
  unfoldable pub revoke_listed : Grant → List Bytes → Action Grant (Unit {0})
  revoke_listed g [] = give tt
  revoke_listed g (p ∷ ps) = exec k (revoke (privileges_on g (p ∷ ps) false))

  unfoldable pub revoke_missing : Grant → Option (List Bytes) → Action Grant (Unit {0})
  revoke_missing g none = give tt
  revoke_missing g (some current) = revoke_listed g (privileges_to_revoke g)

  unfoldable pub grant_listed : Grant → Action Grant (Unit {0})
  grant_listed g = exec k (grant (privileges_on g g.privileges g.grant_option))

  unfoldable pub save_current : Grant → Action Grant (Unit {0})
  save_current g = run_if (not (is_current g)) (send k status_patched with_current)

  unfoldable pub reconcile_grant_of : Grant → Action Grant (Unit {0})
  reconcile_grant_of g = revoke_missing g g.current_privileges >> (grant_listed g >> save_current g)

  -- No statement changes the object that is held.
  unfoldable pub reconcile_grant : Action Grant (Unit {0})
  reconcile_grant = gets (λ s. s.object) >>= reconcile_grant_of

  unfoldable pub revoke_from : Grant → Action Grant (Unit {0})
  revoke_from g = ask (λ s. k.user_exists s.log g.username (hostname_or_default g)) >>= λ exists.
      run_if exists (exec k (revoke (privileges_on g g.privileges g.grant_option)))

  unfoldable pub revoke_grant : Action Grant (Unit {0})
  revoke_grant = gets (λ s. s.object) >>= revoke_from

  abbrev pub grant_reconciler : WrappedReconciler (Session Grant)
  grant_reconciler = record {
    reconcile_sql = reconcile_grant;
    patch_status = patch_conditions k grant_kind;
  }

  abbrev pub grant_finalizer : ControllerUtil → WrappedFinalizer (Session Grant)
  grant_finalizer util = finalizer_of k grant_kind util revoke_grant
