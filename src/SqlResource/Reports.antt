-- ===== src/SqlResource/Reports.antt =====
-- pkg/controller/sql/controller.go: the Ready condition that a reconciliation leaves.
use suture_port_mariadb_oper.Prelude.{
  ◌≡◌, refl, sym, subst, arith, Bool, true, false, not, ◌&&◌, List, Option, none, some, Bytes,
  Result, ok, err, if◌then◌else◌,
}
use suture_port_mariadb_oper.Steps.{◌>>=◌, give, fail, resume}
use suture_port_mariadb_oper.Api.{Condition, ConditionType}
use suture_port_mariadb_oper.Api.Conditions.{StatusConditions}
use suture_port_mariadb_oper.Conditions.{
  set_ready_failed_with_message, set_ready_created_with_message,
}
use suture_port_mariadb_oper.Conditions.Patchers.{
  Patcher, patcher_failed, patcher_with_error, patcher_ref_resolver,
}
use suture_port_mariadb_oper.SqlResource.{
  SqlError, Resource, MariaDbObject, CtrlResult, is_zero, SqlOptions, Found, WrappedReconciler,
  Finalizer, wait_for_mariadb, attempt,
}
use suture_port_mariadb_oper.SqlResource.Reconciling.{
  settle, reconcile_connected, reconcile_waited, reconcile_with, reconcile_resource,
}

abbrev is_ok : {E A : Type 0} → Result E A → Bool
is_ok (ok a) = true
is_ok (err e) = false

abbrev waited : Result SqlError CtrlResult → Bool
waited (ok r) = not (is_zero r)
waited (err e) = false

abbrev healthy : Result SqlError CtrlResult → Bool
healthy (ok r) = is_zero r
healthy (err e) = false

-- The MariaDB is there, and not healthy yet.
abbrev pub is_waiting : Found → Bool
is_waiting found = elim found.mariadb_object [
  | err e ↦ false
  | ok m ↦ waited (wait_for_mariadb found m)
]

-- The MariaDB is there and healthy, and its server takes the connection.
abbrev pub can_connect : Found → Bool
can_connect found = elim found.mariadb_object [
  | err e ↦ false
  | ok m ↦ healthy (wait_for_mariadb found m) && is_ok found.connection
]

-- A patch of the status changes the conditions in memory, whether it is sent or not.
pub record PatchesConditions {S : Type 0} (wr : WrappedReconciler S) : Type 0 where
  pub conditions : S → List Condition
  pub conditions-patch_status :
      (p : Patcher) (s : S) → conditions (wr.patch_status p s).1 ≡ p (conditions s)

module _ {S : Type 0} (meta : StatusConditions) (wr : WrappedReconciler S)
    (laws : PatchesConditions wr) where
  unfoldable pub is_ready_in : S → Bool
  is_ready_in s = meta.is_status_condition_true (laws.conditions s) ConditionType.ready

  failed_patch :
      (msg : Bytes) (cs : List Condition)
      → meta.is_status_condition_true
          (set_ready_failed_with_message meta.set_status_condition cs msg)
          ConditionType.ready
        ≡ false
  unfolding set_ready_failed_with_message
  failed_patch msg cs = rw (meta.is_true_lem, meta.find_set) refl

  created_patch :
      (msg : Bytes) (cs : List Condition)
      → meta.is_status_condition_true
          (set_ready_created_with_message meta.set_status_condition cs msg)
          ConditionType.ready
        ≡ true
  unfolding set_ready_created_with_message
  created_patch msg cs = rw (meta.is_true_lem, meta.find_set) refl

  is_ready-patcher_with_error :
      (e : Option SqlError) (cs : List Condition)
      → meta.is_status_condition_true (patcher_with_error meta e cs) ConditionType.ready
        ≡ (elim e [ none ↦ true | some e ↦ false ])
  unfolding patcher_with_error
  is_ready-patcher_with_error none cs = created_patch _ cs
  is_ready-patcher_with_error (some e) cs = failed_patch _ cs

  is_ready-patcher_ref_resolver :
      (not_found : Bool) (type : Bytes) (cs : List Condition)
      → meta.is_status_condition_true
          (patcher_ref_resolver meta (some not_found) type cs)
          ConditionType.ready
        ≡ false
  unfolding patcher_ref_resolver
  is_ready-patcher_ref_resolver true type cs = failed_patch _ cs
  is_ready-patcher_ref_resolver false type cs = failed_patch _ cs

  is_ready_in-patch_status :
      (p : Patcher) (s : S) (b : Bool)
      → ((cs : List Condition) → meta.is_status_condition_true (p cs) ConditionType.ready ≡ b)
      → is_ready_in (wr.patch_status p s).1 ≡ b
  unfolding is_ready_in
  is_ready_in-patch_status p s b h =
      rw (is_ready_in, laws.conditions-patch_status p s) (h (laws.conditions s))

  is_ready_in-failed :
      (msg : Bytes) (s : S) → is_ready_in (wr.patch_status (patcher_failed meta msg) s).1 ≡ false
  unfolding patcher_failed
  is_ready_in-failed msg s = is_ready_in-patch_status _ s false (failed_patch msg)

  module _ (opts : SqlOptions) (found : Found) (f : Finalizer S) (resource : Resource) where
    is_ready_in-settle :
        (r : Result SqlError (Unit {0})) (s : S)
        → is_ready_in
            (settle meta opts found wr f resource (elim r [ ok a ↦ none | err e ↦ some e ]) s).1
          ≡ (is_ok r && is_ok (f.add_finalizer s).0)
    unfolding settle attempt ◌>>=◌ resume give
    is_ready_in-settle (err e) s = is_ready_in-failed _ _
    is_ready_in-settle (ok _) s = go (f.add_finalizer s).0
      where
        go :
            (r : Result SqlError (Unit {0}))
            → is_ready_in
                (wr.patch_status
                  (patcher_with_error meta (elim r [ ok a ↦ none | err e ↦ some e ]))
                  (f.add_finalizer s).1).1
              ≡ is_ok r
        go (ok _) = is_ready_in-patch_status _ _ true (is_ready-patcher_with_error none)
        go (err e) = is_ready_in-patch_status _ _ false (is_ready-patcher_with_error (some e))

    is_ready_in-reconcile_connected :
        (c : Result SqlError (Unit {0})) (s : S)
        → is_ready_in (reconcile_connected meta opts found wr f resource c s).1 ≡ (
            is_ok c
            && (is_ok (wr.reconcile_sql s).0 && is_ok (f.add_finalizer (wr.reconcile_sql s).1).0))
    unfolding reconcile_connected attempt ◌>>=◌ resume give
    is_ready_in-reconcile_connected (err e) s = is_ready_in-failed _ _
    is_ready_in-reconcile_connected (ok _) s =
        is_ready_in-settle (wr.reconcile_sql s).0 (wr.reconcile_sql s).1

    abbrev succeeds : S → Bool
    succeeds s = is_ok (wr.reconcile_sql s).0 && is_ok (f.add_finalizer (wr.reconcile_sql s).1).0

    is_ready_in-reconcile_waited :
        (r : Result SqlError CtrlResult) (s : S)
        → is_ready_in (reconcile_waited meta opts found wr f resource r s).1 ≡ (
            if waited r then is_ready_in s else (healthy r && is_ok found.connection) && succeeds s)
    unfolding reconcile_waited attempt ◌>>=◌ resume give fail
    is_ready_in-reconcile_waited (err e) s =
        is_ready_in-patch_status _ _ false (is_ready-patcher_with_error (some e))
    is_ready_in-reconcile_waited (ok r) s = go (is_zero r)
      where
        go :
            (b : Bool)
            → is_ready_in
                ((if b
                    then reconcile_connected meta opts found wr f resource found.connection
                    else give r)
                  s).1
              ≡ (if not b then is_ready_in s else (b && is_ok found.connection) && succeeds s)
        go true = ground (arith, is_ready_in-reconcile_connected found.connection s)
        go false = refl

    is_ready_in-reconcile_with :
        (m : Result Bool MariaDbObject) (s : S)
        → is_ready_in (reconcile_with meta opts found wr f resource m s).1 ≡ (elim m [
          | err e ↦ false
          | ok mdb ↦
              if waited (wait_for_mariadb found mdb)
              then is_ready_in s
              else (healthy (wait_for_mariadb found mdb) && is_ok found.connection) && succeeds s
        ])
    unfolding reconcile_with attempt ◌>>=◌ resume fail
    is_ready_in-reconcile_with (err b) s =
        is_ready_in-patch_status _ _ false (is_ready-patcher_ref_resolver b resource.ref_type)
    is_ready_in-reconcile_with (ok mdb) s =
        is_ready_in-reconcile_waited (wait_for_mariadb found mdb) s

    -- A reconciliation of a SQL resource that is not being deleted leaves the Ready condition as it
    -- is while the MariaDB is not healthy yet. Otherwise the condition is true exactly when the
    -- MariaDB takes the connection, its reconciliation succeeds, and so does adding the finalizer.
    -- A patch of the status changes the conditions in memory, whether it is sent or not.
    pub reconcile_resource-Ready :
        (s : S)
        → resource.is_being_deleted ≡ false
        → is_ready_in (reconcile_resource meta opts found wr f resource s).1 ≡ (
            if is_waiting found
            then is_ready_in s
            else can_connect found
              && (is_ok (wr.reconcile_sql s).0 && is_ok (f.add_finalizer (wr.reconcile_sql s).1).0))
    unfolding reconcile_resource
    reconcile_resource-Ready s h =
        subst
          (λ b.
            is_ready_in
              ((if b
                  then f.finalize resource
                  else reconcile_with meta opts found wr f resource found.mariadb_object)
                s).1
            ≡ (if is_waiting found then is_ready_in s else can_connect found && succeeds s))
          (sym h) (go found.mariadb_object)
      where
        go :
            (m : Result Bool MariaDbObject)
            → is_ready_in (reconcile_with meta opts found wr f resource m s).1 ≡ (
                if elim m [ err e ↦ false | ok mdb ↦ waited (wait_for_mariadb found mdb) ]
                then is_ready_in s
                else (elim m [
                  | err e ↦ false
                  | ok mdb ↦ healthy (wait_for_mariadb found mdb) && is_ok found.connection
                ])
                  && succeeds s)
        go (err e) = is_ready_in-reconcile_with (err e) s
        go (ok mdb) = is_ready_in-reconcile_with (ok mdb) s
