-- ===== src/SqlResource/UserOpts.antt =====
-- internal/controller/user_controller.go: what reading the options of a user leaves as it was.
use suture_port_mariadb_oper.Prelude.{Option, none, some, Bytes}
use suture_port_mariadb_oper.Steps.{lift}
use suture_port_mariadb_oper.Steps.Keeps.{Keeps, keeps_rules, Keeps-bind, Keeps-give, Keeps-lift}
use suture_port_mariadb_oper.SqlResource.Objects.{Session, Server, CreateUserOpts}
use suture_port_mariadb_oper.SqlResource.Users.{
  User, base_opts, with_argument, with_hash, user_opts,
}

module _ (k : Server User) where
  pub Keeps-user_opts :
      {I : Session User → Type 0} (u : User) (ref : Option Bytes) → Keeps I (user_opts k u ref)
  unfolding user_opts with_argument with_hash
  Keeps-user_opts {I} u (some ref) =
      Keeps-bind (lift (k.secret_key_ref ref)) _ (Keeps-lift _)
        (λ via. go u.plugin_arg_secret (record (base_opts u) { identified_via = via }))
    where
      go : (arg : Option Bytes) (opts : CreateUserOpts) → Keeps I (with_argument k opts arg)
      go none opts = Keeps-give _
      go (some r) opts = search keeps_rules
  Keeps-user_opts {I} u none = go u.password_hash_secret u.password_secret
    where
      go : (hash password : Option Bytes) → Keeps I (with_hash k u hash password)
      go (some r) password = search keeps_rules
      go none (some r) = search keeps_rules
      go none none = Keeps-give _
