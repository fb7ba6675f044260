-- ===== src/GaleraInit/Adopted.antt =====
-- pkg/controller/galera/init.go: what happens to storage that is there before the first start.
use suture_port_mariadb_oper.Prelude.{
  ◌≡◌, refl, sym, subst, ◌⊎◌, inl, inr, Bool, true, false, List, [], ◌∷◌, Option, none, some,
  Result, ok, All, Any, Bool-cases, if◌then◌else◌,
}
use suture_port_mariadb_oper.Steps.{
  ◌>>=◌, ◌>>◌, give, ask, wrap, to_result, is_none, resume, wrap_error,
}
use suture_port_mariadb_oper.Api.{ConditionType, MariaDb}
use suture_port_mariadb_oper.Api.Conditions.{
  StatusConditions, set_condition, is_galera_initializing,
}
use suture_port_mariadb_oper.Conditions.{set_galera_configured, set_galera_not_ready}
use suture_port_mariadb_oper.Recovery.{Error, failed}
use suture_port_mariadb_oper.GaleraInit.{
  InitCluster, InitState, InitAction, Requeue, status_patched, patch_init, all_bound,
  configured_status, start_init, adopt_storage, check_storage, is_init_done, reconcile_init_of,
  reconcile_init, three_seconds,
}

-- One patch is sent: Galera is configured and neither it nor the MariaDB is ready, and nothing is left
-- of an earlier recovery.
pub record Adopts (meta : StatusConditions) (s s' : InitState) : Type 0 where
  pub sent : (done : Bool) × (s'.log ≡ status_patched s'.status done ∷ s.log)
  pub recovery : s'.status.galera_recovery ≡ none
  pub configured :
      meta.is_status_condition_true s'.status.conditions ConditionType.galera_configured ≡ true
  pub not_galera_ready :
      meta.is_status_condition_false s'.status.conditions ConditionType.galera_ready ≡ true
  pub not_ready : meta.is_status_condition_false s'.status.conditions ConditionType.ready ≡ true

all_bound-All : (bs : List Bool) → all_bound bs ≡ true → All (λ b. b ≡ true) bs
unfolding all_bound
all_bound-All [] h = tt
all_bound-All (true ∷ bs) h = (refl, all_bound-All bs h)
all_bound-All (false ∷ bs) h = cc

all_bound-Any : (bs : List Bool) → all_bound bs ≡ false → Any (λ b. b ≡ false) bs
unfolding all_bound
all_bound-Any [] h = cc
all_bound-Any (true ∷ bs) h = inr (all_bound-Any bs h)
all_bound-Any (false ∷ bs) h = inl refl

module _ (k : InitCluster) (meta : StatusConditions) (s : InitState) where
  -- All of the storage is bound and is adopted, or some is not and nothing happens for three seconds.
  abbrev pub Checked : List Bool → Result Error Requeue × InitState → Type 0
  Checked volumes r =
      (All (λ v. v ≡ true) volumes × Adopts meta s r.1)
      ⊎ (Any (λ v. v ≡ false) volumes × (r ≡ (ok (some three_seconds), s)))

  Adopts-adopt_storage : Adopts meta s (adopt_storage k meta s).1
  unfolding adopt_storage ◌>>◌ ◌>>=◌ wrap patch_init resume give to_result wrap_error is_none
      configured_status set_galera_configured set_galera_not_ready set_condition
  Adopts-adopt_storage = go (k.patch_status s.log (configured_status k meta s.status))
    where
      go :
          (e : Option Error)
          → Adopts meta s
              (resume
                (wrap_error failed (to_result e))
                (record s {
                  status = configured_status k meta s.status;
                  log = status_patched (configured_status k meta s.status) (is_none e) ∷ s.log;
                })
                (λ _. give {S = InitState} {E = Error} {A = Requeue} none)).1
      go none = record {
        sent = (true, refl);
        recovery = refl;
        configured = rw (meta.is_true_lem, meta.find_set, meta.find_set, meta.find_set) refl;
        not_galera_ready = rw (meta.is_false_lem, meta.find_set) refl;
        not_ready = rw (meta.is_false_lem, meta.find_set, meta.find_set) refl;
      }
      go (some e) = record {
        sent = (false, refl);
        recovery = refl;
        configured = rw (meta.is_true_lem, meta.find_set, meta.find_set, meta.find_set) refl;
        not_galera_ready = rw (meta.is_false_lem, meta.find_set) refl;
        not_ready = rw (meta.is_false_lem, meta.find_set, meta.find_set) refl;
      }

  Checked-check_storage :
      (b : Bool) (bs : List Bool) → Checked (b ∷ bs) (check_storage k meta (b ∷ bs) s)
  unfolding check_storage give
  Checked-check_storage b bs = elim (Bool-cases (all_bound (b ∷ bs))) [
    | inl e ↦ rw e (inl (all_bound-All (b ∷ bs) e, Adopts-adopt_storage))
    | inr e ↦ rw e (inr (all_bound-Any (b ∷ bs) e, refl))
  ]

  -- On a MariaDB that has storage before its initialization has begun, a reconciliation creates
  -- nothing. When each volume is bound, it sends one patch of the status, which has Galera
  -- configured, neither Galera nor the MariaDB ready, and no recovery status; this is the held
  -- status also when the patch fails. When some volume is not bound, it changes and sends nothing
  -- and asks to be run in three seconds.
  pub reconcile_init-adopted :
      (mariadb : MariaDb) (b : Bool) (bs : List Bool)
      → is_init_done k meta (record mariadb { status = s.status }) ≡ false
      → is_galera_initializing meta (record mariadb { status = s.status }) ≡ false
      → k.storage_volumes s.log ≡ ok (b ∷ bs)
      → Checked (b ∷ bs) (reconcile_init k meta mariadb s)
  unfolding reconcile_init reconcile_init_of ◌>>=◌ wrap ask resume wrap_error
  reconcile_init-adopted mariadb b bs fresh idle e =
      subst (λ c. goal (if c then give none else if idle_test then start_init k meta else listed))
        (sym fresh)
        (subst (λ c. goal (if c then start_init k meta else listed)) (sym idle)
          (subst (λ r. Checked (b ∷ bs) (resume (wrap_error failed r) s (check_storage k meta)))
            (sym e) (Checked-check_storage b bs)))
    where
      idle_test : Bool
      idle_test = is_galera_initializing meta (record mariadb { status = s.status })

      listed : InitAction Requeue
      listed = wrap failed (ask (λ s'. k.storage_volumes s'.log)) >>= check_storage k meta

      goal : InitAction Requeue → Type 0
      goal m = Checked (b ∷ bs) (m s)
