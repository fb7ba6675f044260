-- ===== src/SqlResource/Users.antt =====
-- internal/controller/user_controller.go, user_controller_finalizer.go.
use suture_port_mariadb_oper.Prelude.{
  refl, Bool, true, false, ◌||◌, List, [], ◌∷◌, Option, none, some, Bytes, codes, ℤ, Result, ok,
  err,
}
use suture_port_mariadb_oper.Steps.{◌>>=◌, ◌>>◌, give, gets, lift, run_if}
use suture_port_mariadb_oper.Api.{Condition}
use suture_port_mariadb_oper.SqlResource.{SqlError, WrappedReconciler, WrappedFinalizer}
use suture_port_mariadb_oper.SqlResource.Objects.{
  CreateUserOpts, create_user, alter_user, drop_user, Session, Action, Server, ControllerUtil, Kind,
  account_of, exec, patch_conditions, finalizer_of,
}

-- A reference to the key of a Secret is a text.
pub record User : Type 0 where
  pub metadata_name : Bytes
  pub name : Bytes
  pub host : Bytes
  pub plugin_name_secret : Option Bytes
  pub plugin_arg_secret : Option Bytes
  pub password_hash_secret : Option Bytes
  pub password_secret : Option Bytes
  pub require_tls : Option Bytes
  pub max_user_connections : ℤ
  pub finalizers : List Bytes
  pub conditions : List Condition

abbrev or_text : Bytes → Bytes → Bytes
or_text [] d = d
or_text (c ∷ cs) d = c ∷ cs

unfoldable pub username_or_default : User → Bytes
username_or_default u = or_text u.name u.metadata_name

unfoldable pub user_hostname_or_default : User → Bytes
user_hostname_or_default u = or_text u.host (codes "%")

unfoldable pub user_account_name : User → Bytes
user_account_name u = account_of (username_or_default u) (user_hostname_or_default u)

abbrev pub user_kind : Kind User
user_kind = record {
  finalizer_name = codes "user.k8s.mariadb.com/finalizer";
  finalizers = λ u. u.finalizers;
  with_finalizers = λ u fs. record u { finalizers = fs };
  conditions = λ u. u.conditions;
  with_conditions = λ u cs. record u { conditions = cs };
  finalizers-with_finalizers = λ o fs. refl;
  finalizers-with_conditions = λ o cs. refl;
  conditions-with_conditions = λ o cs. refl;
}

-- The options before a way to identify is added.
abbrev pub base_opts : User → CreateUserOpts
base_opts u = record {
  identified_by = [];
  identified_by_password = [];
  identified_via = [];
  identified_via_using = [];
  require_tls = u.require_tls;
  max_user_connections = u.max_user_connections;
}

abbrev is_text : Bytes → Bool
is_text [] = false
is_text (c ∷ cs) = true

-- `password != "" || passwordHash != "" || passwordVia != ""`.
unfoldable pub is_identified : CreateUserOpts → Bool
is_identified opts =
    is_text opts.identified_by || is_text opts.identified_by_password || is_text opts.identified_via

module _ (k : Server User) where
  unfoldable pub with_argument : CreateUserOpts → Option Bytes → Action User CreateUserOpts
  with_argument opts none = give opts
  with_argument opts (some ref) =
      lift (k.secret_key_ref ref) >>= λ using. give (record opts { identified_via_using = using })

  unfoldable pub with_hash : User → Option Bytes → Option Bytes → Action User CreateUserOpts
  with_hash u (some ref) password = lift (k.secret_key_ref ref) >>= λ hash.
      give (record (base_opts u) { identified_by_password = hash })
  with_hash u none (some ref) = lift (k.secret_key_ref ref) >>= λ password.
      give (record (base_opts u) { identified_by = password })
  with_hash u none none = give (base_opts u)

  unfoldable pub user_opts : User → Option Bytes → Action User CreateUserOpts
  user_opts u (some ref) = lift (k.secret_key_ref ref) >>= λ via.
      with_argument (record (base_opts u) { identified_via = via }) u.plugin_arg_secret
  user_opts u none = with_hash u u.password_hash_secret u.password_secret

  -- An error of the check is logged, and the user is taken not to exist.
  unfoldable pub put_user : User → CreateUserOpts → Result SqlError Bool → Action User (Unit {0})
  put_user u opts (ok true) =
      run_if (is_identified opts) (exec k (alter_user (user_account_name u) opts))
  put_user u opts (ok false) =
      exec k (drop_user (user_account_name u)) >> exec k (create_user (user_account_name u) opts)
  put_user u opts (err e) =
      exec k (drop_user (user_account_name u)) >> exec k (create_user (user_account_name u) opts)

  unfoldable pub find_user : User → CreateUserOpts → Action User (Unit {0})
  find_user u opts =
      gets (λ s. k.user_exists s.log (username_or_default u) (user_hostname_or_default u))
      >>= put_user u opts

  unfoldable pub reconcile_user_of : User → Action User (Unit {0})
  reconcile_user_of u = user_opts u u.plugin_name_secret >>= find_user u

  unfoldable pub reconcile_user : Action User (Unit {0})
  reconcile_user = gets (λ s. s.object) >>= reconcile_user_of

  unfoldable pub drop_named_user : Action User (Unit {0})
  drop_named_user s = exec k (drop_user (user_account_name s.object)) s

  abbrev pub user_reconciler : WrappedReconciler (Session User)
  user_reconciler = record {
    reconcile_sql = reconcile_user;
    patch_status = patch_conditions k user_kind;
  }

  abbrev pub user_finalizer : ControllerUtil → WrappedFinalizer (Session User)
  user_finalizer util = finalizer_of k user_kind util drop_named_user
