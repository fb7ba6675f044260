-- ===== src/SqlResource/Cleaning.antt =====
-- pkg/controller/sql: when a SQL resource loses its finalizer.
use suture_port_mariadb_oper.Prelude.{
  ◌≡◌, refl, ◌⊎◌, inl, inr, Bool, true, false, Result, ok, err, if◌then◌else◌,
}
use suture_port_mariadb_oper.Steps.{Step, give, fail}
use suture_port_mariadb_oper.Steps.Keeps.{Keeps, keeps_rules, Keeps-fail, Keeps-give}
use suture_port_mariadb_oper.Steps.Triples.{
  Triple, Triple-weaken, Triple-wrap, Triple-give, Triple-keeps, Triple-then, Triple-gets,
}
use suture_port_mariadb_oper.Api.{deref}
use suture_port_mariadb_oper.Conditions.Patchers.{Patcher}
use suture_port_mariadb_oper.SqlResource.{
  SqlError, CleanupPolicy, cleanup_policy_skip, cleanup_policy_delete, Resource, MariaDbObject,
  CtrlResult, is_zero, no_requeue, Found, WrappedReconciler, WrappedFinalizer, wait_for_mariadb,
}
use suture_port_mariadb_oper.SqlResource.Finalizing.{
  drop_finalizer, clean_up_if, finalize_connected, finalize_waited, finalize_with, finalize_sql,
}

-- The MariaDB does not exist, or is being deleted.
abbrev pub is_gone : Result Bool MariaDbObject → Bool
is_gone (err not_found) = not_found
is_gone (ok mdb) = mdb.is_being_deleted

abbrev pub Held : {S : Type 0} → WrappedFinalizer S → S → Type 0
Held wf s = wf.contains_finalizer s ≡ true

-- What the code of a kind promises: only the removal takes the finalizer away, and a clean-up that
-- succeeds has `Cleaned` the server.
pub record CleansUp {S : Type 0} (wr : WrappedReconciler S) (wf : WrappedFinalizer S)
    (Cleaned : S → Type 0) : Type 0 where
  pub Keeps-reconcile_sql : Keeps (Held wf) wr.reconcile_sql
  pub Keeps-patch_status : (p : Patcher) → Keeps (Held wf) (wr.patch_status p)
  pub Keeps-put_finalizer : Keeps (Held wf) wf.put_finalizer
  pub Keeps-remove_finalizer : Keeps Cleaned wf.remove_finalizer
  pub Triple-clean_up : Triple (Held wf) wf.clean_up (λ _ s. Held wf s × Cleaned s) (Held wf)

-- Why the finalizer of a resource may be removed.
abbrev pub Explained : {S : Type 0} → Found → Resource → (S → Type 0) → S → Type 0
Explained found resource Cleaned s =
    (is_gone found.mariadb ≡ true)
    ⊎ (deref resource.cleanup_policy cleanup_policy_delete ≡ cleanup_policy_skip)
    ⊎ Cleaned s

module _ {S : Type 0} (found : Found) (wr : WrappedReconciler S) (wf : WrappedFinalizer S)
    (resource : Resource) (Cleaned : S → Type 0) (laws : CleansUp wr wf Cleaned) where
  -- The removal of the finalizer is explained.
  abbrev pub Safe : S → Type 0
  Safe s = wf.contains_finalizer s ≡ false → Explained found resource Cleaned s

  Safe-of_Held : (s : S) → Held wf s → Safe s
  Safe-of_Held s h e = cc

  Keeps-Explained : Keeps (Explained found resource Cleaned) wf.remove_finalizer
  Keeps-Explained = record { at = λ s h. go s h }
    where
      go :
          (s : S)
          → Explained found resource Cleaned s
          → Explained found resource Cleaned (wf.remove_finalizer s).1
      go s (inl h) = inl h
      go s (inr (inl h)) = inr (inl h)
      go s (inr (inr h)) = inr (inr (laws.Keeps-remove_finalizer.at s h))

  Triple-drop_finalizer :
      Triple (Explained found resource Cleaned) (drop_finalizer found wf) (λ _. Safe) Safe
  unfolding drop_finalizer
  Triple-drop_finalizer =
      Triple-weaken (drop_finalizer found wf) (λ s h. h) (λ a s h e. h) (λ s h e. h)
        (Triple-keeps (drop_finalizer found wf) (search (keeps_rules, Keeps-Explained)))

  Triple-Held :
      {A : Type 0} (m : Step S SqlError A) → Keeps (Held wf) m → Triple (Held wf) m (λ _. Safe) Safe
  Triple-Held m h = Triple-weaken m (λ s k. k) (λ a. Safe-of_Held) Safe-of_Held (Triple-keeps m h)

  Triple-clean_up_if :
      (p : CleanupPolicy)
      → deref resource.cleanup_policy cleanup_policy_delete ≡ p
      → Triple (Held wf) (clean_up_if found wf p) (λ _. Explained found resource Cleaned) Safe
  unfolding clean_up_if
  Triple-clean_up_if cleanup_policy_delete e =
      Triple-weaken (clean_up_if found wf cleanup_policy_delete) (λ s h. h) (λ a s h. inr (inr h.1))
        Safe-of_Held (Triple-wrap _ wf.clean_up laws.Triple-clean_up)
  Triple-clean_up_if cleanup_policy_skip e = Triple-give tt (λ s h. inr (inl e))

  Triple-finalize_connected :
      (c : Result SqlError (Unit {0}))
      → Triple (Held wf) (finalize_connected found wf resource c) (λ _. Safe) Safe
  unfolding finalize_connected
  Triple-finalize_connected (err e) = Triple-Held (fail _) (Keeps-fail _)
  Triple-finalize_connected (ok _) =
      Triple-then (Explained found resource Cleaned)
        (clean_up_if found wf (deref resource.cleanup_policy cleanup_policy_delete))
        (drop_finalizer found wf) (Triple-clean_up_if _ refl) Triple-drop_finalizer

  Triple-finalize_waited :
      (r : Result SqlError CtrlResult)
      → Triple (Held wf) (finalize_waited found wf resource r) (λ _. Safe) Safe
  unfolding finalize_waited
  Triple-finalize_waited (err e) = Triple-Held (fail e) (Keeps-fail e)
  Triple-finalize_waited (ok r) = go (is_zero r)
    where
      go :
          (b : Bool)
          → Triple
              (Held wf)
              (if b then finalize_connected found wf resource found.connection else give r)
              (λ _. Safe)
              Safe
      go true = Triple-finalize_connected found.connection
      go false = Triple-Held (give r) (Keeps-give r)

  Triple-finalize_with :
      (m : Result Bool MariaDbObject)
      → found.mariadb ≡ m
      → Triple (Held wf) (finalize_with found wf resource m) (λ _. Safe) Safe
  unfolding finalize_with
  Triple-finalize_with (err true) e =
      Triple-weaken (drop_finalizer found wf) (λ s h. inl (rw e refl)) (λ a s h. h) (λ s h. h)
        Triple-drop_finalizer
  Triple-finalize_with (err false) e = Triple-Held (fail _) (Keeps-fail _)
  Triple-finalize_with (ok mdb) e = go mdb.is_being_deleted refl
    where
      go :
          (b : Bool)
          → mdb.is_being_deleted ≡ b
          → Triple
              (Held wf)
              (if b
                then drop_finalizer found wf
                else finalize_waited found wf resource (wait_for_mariadb found mdb))
              (λ _. Safe)
              Safe
      go true d =
          Triple-weaken (drop_finalizer found wf) (λ s h. inl (rw e d)) (λ a s h. h) (λ s h. h)
            Triple-drop_finalizer
      go false d = Triple-finalize_waited (wait_for_mariadb found mdb)

  pub Triple-finalize_sql : Triple (Held wf) (finalize_sql found wf resource) (λ _. Safe) Safe
  unfolding finalize_sql
  Triple-finalize_sql =
      Triple-gets wf.contains_finalizer
        (λ held. if held then finalize_with found wf resource found.mariadb else give no_requeue)
        true (λ s h. h) (Triple-finalize_with found.mariadb refl)
