-- ===== src/SqlResource/Objects.antt =====
-- internal/controller/{database,user,grant}_controller{,_finalizer}.go: what the three controllers
-- share. A session holds the object in memory and a log of what was sent. `Server` stands for the
-- SQL server and the API server: an answer may depend on all that went before.
use suture_port_mariadb_oper.Prelude.{
  ◌≡◌, Bool, true, false, not, List, ◌∷◌, ◌++◌, Option, Bytes, codes, ℤ, Result,
}
use suture_port_mariadb_oper.Steps.{Step, ◌>>=◌, ◌>>◌, gets, modify, require, run_if}
use suture_port_mariadb_oper.Api.{Condition}
use suture_port_mariadb_oper.Conditions.Patchers.{Patcher}
use suture_port_mariadb_oper.SqlResource.{
  SqlError, statement_failed, patch_failed, WrappedFinalizer,
}

-- sqlClient.CreateUserOpts, after the options; the requirements on TLS are a text.
pub record CreateUserOpts : Type 0 where
  pub identified_by : Bytes
  pub identified_by_password : Bytes
  pub identified_via : Bytes
  pub identified_via_using : Bytes
  pub require_tls : Option Bytes
  pub max_user_connections : ℤ

-- On `database.table`, for the account; `grant_option` is the option of that name.
pub record Privileges : Type 0 where
  pub privileges : List Bytes
  pub database : Bytes
  pub table : Bytes
  pub account_name : Bytes
  pub grant_option : Bool

-- The calls of the SQL client that change the server.
pub data Statement : Type 0 where
  create_database : Bytes → Bytes → Bytes → Statement
  drop_database : Bytes → Statement
  create_user alter_user : Bytes → CreateUserOpts → Statement
  drop_user : Bytes → Statement
  grant revoke : Privileges → Statement

-- With whether it succeeded. A patch has the object as it was sent.
pub data Event (O : Type 0) : Type 0 where
  ran : Statement → Bool → Event O
  patched status_patched : O → Bool → Event O

-- The newest event is the first.
pub record Session (O : Type 0) : Type 0 where
  pub object : O
  pub log : List (Event O)

abbrev pub Action : Type 0 → Type 0 → Type 0
Action O A = Step (Session O) SqlError A

pub record Server (O : Type 0) : Type 0 where
  pub runs : List (Event O) → Statement → Bool
  pub patches : List (Event O) → O → Bool
  pub user_exists : List (Event O) → Bytes → Bytes → Result SqlError Bool
  pub secret_key_ref : Bytes → Result SqlError Bytes

-- sigs.k8s.io/controller-runtime/pkg/controller/controllerutil, on the names of the finalizers.
pub record ControllerUtil : Type 0 where
  pub add_name : List Bytes → Bytes → List Bytes
  pub remove_name : List Bytes → Bytes → List Bytes
  pub contains_name : List Bytes → Bytes → Bool
  pub contains-add : (fs : List Bytes) (f : Bytes) → contains_name (add_name fs f) f ≡ true
  pub contains-remove : (fs : List Bytes) (f : Bytes) → contains_name (remove_name fs f) f ≡ false

-- What the code of a kind reads and writes of an object.
pub record Kind (O : Type 0) : Type 0 where
  pub finalizer_name : Bytes
  pub finalizers : O → List Bytes
  pub with_finalizers : O → List Bytes → O
  pub conditions : O → List Condition
  pub with_conditions : O → List Condition → O
  pub finalizers-with_finalizers :
      (o : O) (fs : List Bytes) → finalizers (with_finalizers o fs) ≡ fs
  pub finalizers-with_conditions :
      (o : O) (cs : List Condition) → finalizers (with_conditions o cs) ≡ finalizers o
  pub conditions-with_conditions :
      (o : O) (cs : List Condition) → conditions (with_conditions o cs) ≡ cs

-- `'user'@'host'`.
abbrev pub account_of : Bytes → Bytes → Bytes
account_of user host = codes "'" ++ (user ++ (codes "'@'" ++ (host ++ codes "'")))

module _ {O : Type 0} where
  unfoldable pub record_event : Event O → Session O → Session O
  record_event e s = record s { log = e ∷ s.log }

  unfoldable pub update : (O → O) → Session O → Session O
  update f s = record s { object = f s.object }

  unfoldable pub record_sent : (O → Bool → Event O) → Bool → Session O → Session O
  unfolding record_event
  record_sent event b s = record_event (event s.object b) s

  module _ (k : Server O) where
    unfoldable pub exec : Statement → Action O (Unit {0})
    unfolding ◌>>=◌ ◌>>◌
    exec q = gets (λ s. k.runs s.log q) >>= λ b.
        modify (record_event (ran q b)) >> require b statement_failed

    -- The object in memory is changed before it is sent.
    unfoldable pub send : (O → Bool → Event O) → (O → O) → Action O (Unit {0})
    send event f =
        modify (update f)
        >> (gets (λ s. k.patches s.log s.object) >>= λ b.
            modify (record_sent event b) >> require b patch_failed)

    module _ (kind : Kind O) where
      unfoldable pub patch_conditions : Patcher → Action O (Unit {0})
      patch_conditions p = send status_patched (λ o. kind.with_conditions o (p (kind.conditions o)))

      module _ (util : ControllerUtil) where
        unfoldable pub has_finalizer : Session O → Bool
        has_finalizer s = util.contains_name (kind.finalizers s.object) kind.finalizer_name

        unfoldable pub put_name : Action O (Unit {0})
        put_name = gets has_finalizer >>= λ held. run_if (not held) (
            send patched
              (λ o. kind.with_finalizers o (util.add_name (kind.finalizers o) kind.finalizer_name)))

        unfoldable pub take_name : Action O (Unit {0})
        take_name = gets has_finalizer >>= λ held. run_if held (
            send patched (λ o.
              kind.with_finalizers o (util.remove_name (kind.finalizers o) kind.finalizer_name)))

        abbrev pub finalizer_of : Action O (Unit {0}) → WrappedFinalizer (Session O)
        finalizer_of clean = record {
          put_finalizer = put_name;
          remove_finalizer = take_name;
          contains_finalizer = has_finalizer;
          clean_up = clean;
        }
