-- ===== src/SqlResource/Kinds/Laws.antt =====
-- internal/controller/{database,user,grant}_controller{,_finalizer}.go: what each kind promises to
-- pkg/controller/sql.
use suture_port_mariadb_oper.Prelude.{
  ◌≡◌, refl, sym, subst, ◌⊎◌, inl, inr, Bool, true, false, not, List, [], ◌∷◌, Option, none, some,
  Bytes, Result, ok, err,
}
use suture_port_mariadb_oper.Steps.{◌>>=◌, give, gets, ask, run_if, resume}
use suture_port_mariadb_oper.Steps.Keeps.{Keeps, keeps_rules, Keeps-then, Keeps-give, Keeps-run_if}
use suture_port_mariadb_oper.Steps.Triples.{Triple, Holds}
use suture_port_mariadb_oper.SqlResource.{SqlError}
use suture_port_mariadb_oper.SqlResource.Objects.{
  drop_database, drop_user, revoke, ran, create_database, Event, status_patched, Session, Server,
  ControllerUtil, update, record_event, exec, has_finalizer, Statement, CreateUserOpts,
}
use suture_port_mariadb_oper.SqlResource.Cleaning.{CleansUp}
use suture_port_mariadb_oper.SqlResource.Reports.{PatchesConditions}
use suture_port_mariadb_oper.SqlResource.Kinds.{
  Ran, older, newest, Kept, Kept-record_event, Keeps-exec, Keeps-send, Keeps-patch_conditions,
  Keeps-put_name, Keeps-take_name, Triple-exec, Triple-clean_up_exec, conditions-patch_conditions,
}
use suture_port_mariadb_oper.SqlResource.Databases.{
  Database, database_name_or_default, database_kind, reconcile_database, drop_named_database,
  database_reconciler, database_finalizer,
}
use suture_port_mariadb_oper.SqlResource.Users.{
  User, username_or_default, user_hostname_or_default, user_account_name, user_kind, is_identified,
  put_user, find_user, reconcile_user_of, reconcile_user, drop_named_user, user_reconciler,
  user_finalizer,
}
use suture_port_mariadb_oper.SqlResource.UserOpts.{Keeps-user_opts}
use suture_port_mariadb_oper.SqlResource.Grants.{
  Grant, hostname_or_default, account_name, privileges_on, grant_kind, is_current, with_current,
  revoke_listed, revoke_missing, grant_listed, save_current, reconcile_grant_of, reconcile_grant,
  revoke_from, revoke_grant, grant_reconciler, grant_finalizer,
}

module _ (k : Server Database) (util : ControllerUtil) where
  -- The database was dropped.
  pub Dropped : Session Database → Type 0
  Dropped s = Ran (drop_database (database_name_or_default s.object)) s.log

  pub database-CleansUp : CleansUp (database_reconciler k) (database_finalizer k util) Dropped
  unfolding Dropped reconcile_database drop_named_database database_name_or_default record_event
      update
  database-CleansUp = record {
    Keeps-reconcile_sql = record {
      at = λ s.
          (Keeps-exec k {I = Kept k database_kind util}
              (create_database (database_name_or_default s.object) s.object.character_set
                s.object.collate)
              (Kept-record_event k database_kind util)).at
            s;
    };
    Keeps-patch_status = Keeps-patch_conditions k database_kind util;
    Keeps-put_finalizer = Keeps-put_name k database_kind util;
    Keeps-remove_finalizer = Keeps-take_name k database_kind util (λ e s h. older h) (λ fs s h. h);
    Triple-clean_up =
        Triple-clean_up_exec k database_kind util (λ d. drop_database (database_name_or_default d));
  }

module _ (k : Server User) (util : ControllerUtil) where
  -- The user was dropped.
  pub UserDropped : Session User → Type 0
  UserDropped s = Ran (drop_user (user_account_name s.object)) s.log

  abbrev UserKept : Session User → Type 0
  UserKept = Kept k user_kind util

  Keeps-run : (q : Statement) → Keeps UserKept (exec k q)
  Keeps-run q = Keeps-exec k q (Kept-record_event k user_kind util)

  Keeps-put_user :
      (u : User) (opts : CreateUserOpts) (r : Result SqlError Bool)
      → Keeps UserKept (put_user k u opts r)
  unfolding put_user
  Keeps-put_user u opts (ok true) = Keeps-run_if (is_identified opts) _ (Keeps-run _)
  Keeps-put_user u opts (ok false) = Keeps-then _ _ (Keeps-run _) (Keeps-run _)
  Keeps-put_user u opts (err e) = Keeps-then _ _ (Keeps-run _) (Keeps-run _)

  Keeps-reconcile_user : Keeps UserKept (reconcile_user k)
  unfolding reconcile_user reconcile_user_of find_user
  Keeps-reconcile_user = search (keeps_rules, Keeps-user_opts k, Keeps-put_user) depth 12

  pub user-CleansUp : CleansUp (user_reconciler k) (user_finalizer k util) UserDropped
  unfolding UserDropped drop_named_user user_account_name username_or_default
      user_hostname_or_default record_event update
  user-CleansUp = record {
    Keeps-reconcile_sql = Keeps-reconcile_user;
    Keeps-patch_status = Keeps-patch_conditions k user_kind util;
    Keeps-put_finalizer = Keeps-put_name k user_kind util;
    Keeps-remove_finalizer = Keeps-take_name k user_kind util (λ e s h. older h) (λ fs s h. h);
    Triple-clean_up = Triple-clean_up_exec k user_kind util (λ u. drop_user (user_account_name u));
  }

module _ (k : Server Grant) (util : ControllerUtil) where
  -- The privileges were revoked, or the user was seen not to exist.
  pub Revoked : Session Grant → Type 0
  Revoked s =
      Ran (revoke (privileges_on s.object s.object.privileges s.object.grant_option)) s.log
      ⊎ ((log : List (Event Grant)) × (k.user_exists log s.object.username
              (hostname_or_default s.object)
            ≡ ok false))

  abbrev GrantKept : Session Grant → Type 0
  GrantKept = Kept k grant_kind util

  Keeps-run_grant : (q : Statement) → Keeps GrantKept (exec k q)
  Keeps-run_grant q = Keeps-exec k q (Kept-record_event k grant_kind util)

  Keeps-revoke_listed : (g : Grant) (ps : List Bytes) → Keeps GrantKept (revoke_listed k g ps)
  unfolding revoke_listed
  Keeps-revoke_listed g [] = Keeps-give tt
  Keeps-revoke_listed g (p ∷ ps) = Keeps-run_grant _

  Keeps-revoke_missing :
      (g : Grant) (current : Option (List Bytes)) → Keeps GrantKept (revoke_missing k g current)
  unfolding revoke_missing
  Keeps-revoke_missing g none = Keeps-give tt
  Keeps-revoke_missing g (some c) = Keeps-revoke_listed g _

  Keeps-save_current : (g : Grant) → Keeps GrantKept (save_current k g)
  unfolding save_current with_current has_finalizer update
  Keeps-save_current g =
      Keeps-run_if (not (is_current g)) _
        (Keeps-send k status_patched with_current (Kept-record_event k grant_kind util) (λ s h. h))

  Keeps-reconcile_grant : Keeps GrantKept (reconcile_grant k)
  unfolding reconcile_grant reconcile_grant_of grant_listed
  Keeps-reconcile_grant =
      search (keeps_rules, Keeps-revoke_missing, Keeps-run_grant, Keeps-save_current) depth 12

  Triple-revoke_grant : Triple GrantKept (revoke_grant k) (λ _ s. GrantKept s × Revoked s) GrantKept
  unfolding revoke_grant revoke_from ◌>>=◌ resume gets ask run_if give Revoked record_event
      has_finalizer
  Triple-revoke_grant = record {
    at = λ s h. go s h (k.user_exists s.log s.object.username (hostname_or_default s.object)) refl;
  }
    where
      named : Grant → Statement
      named g = revoke (privileges_on g g.privileges g.grant_option)

      Same : Session Grant → Session Grant → Type 0
      Same s s' = (s'.object ≡ s.object) × GrantKept s'

      go :
          (s : Session Grant)
          → GrantKept s
          → (r : Result SqlError Bool)
          → k.user_exists s.log s.object.username (hostname_or_default s.object) ≡ r
          → Holds {S = Session Grant} {E = SqlError} {A = Unit {0}}
              (λ _ s'. GrantKept s' × Revoked s')
              GrantKept
              (resume r s (λ exists. run_if exists (exec k (named s.object)))).0
              (resume r s (λ exists. run_if exists (exec k (named s.object)))).1
      go s h (err x) e = h
      go s h (ok false) e = (h, inr (s.log, e))
      go s h (ok true) e =
          (Triple-exec k {P = Same s} {Q = λ s'. GrantKept s' × Revoked s'} {R = GrantKept}
              (named s.object)
              (λ s' p. (
                p.1,
                inl (
                    subst (λ g. Ran (named g) (ran (named s.object) true ∷ s'.log)) (sym p.0)
                      newest),
              ))
              (λ s' p. p.1)).at
            s (refl, h)

  pub grant-CleansUp : CleansUp (grant_reconciler k) (grant_finalizer k util) Revoked
  unfolding Revoked account_name hostname_or_default record_event update
  grant-CleansUp = record {
    Keeps-reconcile_sql = Keeps-reconcile_grant;
    Keeps-patch_status = Keeps-patch_conditions k grant_kind util;
    Keeps-put_finalizer = Keeps-put_name k grant_kind util;
    Keeps-remove_finalizer = Keeps-take_name k grant_kind util grows (λ fs s h. h);
    Triple-clean_up = Triple-revoke_grant;
  }
    where
      grows : (e : Event Grant) (s : Session Grant) → Revoked s → Revoked (record_event e s)
      grows e s (inl h) = inl (older h)
      grows e s (inr h) = inr h

module _ (util : ControllerUtil) where
  pub database-PatchesConditions : (k : Server Database) → PatchesConditions (database_reconciler k)
  database-PatchesConditions k = record {
    conditions = λ s. s.object.conditions;
    conditions-patch_status = conditions-patch_conditions k database_kind util;
  }

  pub user-PatchesConditions : (k : Server User) → PatchesConditions (user_reconciler k)
  user-PatchesConditions k = record {
    conditions = λ s. s.object.conditions;
    conditions-patch_status = conditions-patch_conditions k user_kind util;
  }

  pub grant-PatchesConditions : (k : Server Grant) → PatchesConditions (grant_reconciler k)
  grant-PatchesConditions k = record {
    conditions = λ s. s.object.conditions;
    conditions-patch_status = conditions-patch_conditions k grant_kind util;
  }
