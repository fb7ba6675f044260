-- ===== src/Failover/Due.antt =====
-- What the two patches of a failover make of the MariaDB, and that a switchover is due then:
-- internal/controller/pod_replication_controller.go and pkg/controller/replication/switchover.go.
use suture_port_mariadb_oper.Prelude.{
  ◌≡◌, ◌≢◌, refl, sym, ap, ◌∙◌, Bool, true, false, not, ◌&&◌, ◌||◌, List, [], ◌∷◌, none, some, ℤ,
  eqb_ℤ, eqb_ℤ_iff, arith, Any, Bool-cases, inl, inr,
}
use suture_port_mariadb_oper.Api.{
  MariaDb, MariaDbStatus, ConditionType, status_false, replication_of, fill_with_defaults,
  fill_primary, has_configured_replica, is_suspended, deref, no_primary,
}
use suture_port_mariadb_oper.Api.Conditions.{
  StatusConditions, has_status, set_condition, is_restoring_backup, is_resizing_storage,
  is_switching_primary,
}
use suture_port_mariadb_oper.Conditions.{set_primary_switching}
use suture_port_mariadb_oper.Conditions.Switching.{set_interrupted_lem}
use suture_port_mariadb_oper.Health.{Pod}
use suture_port_mariadb_oper.Health.Choice.{Eligible}
use suture_port_mariadb_oper.Replication.Switchover.{
  desired_index, differs_from, should_reconcile_switchover,
}
use suture_port_mariadb_oper.Failover.{
  State, Server, patch_spec, patch_status, should_reconcile, with_primary_index, switching_status,
  switch_to,
}

module _ (meta : StatusConditions) where
  -- The conditions that a switch leaves.
  kept :
      (s : MariaDbStatus) (mdb : MariaDb)
      → let s' = set_primary_switching (set_condition meta) s mdb in
        (meta.is_status_condition_false s'.conditions ConditionType.backup_restored
          ≡ meta.is_status_condition_false s.conditions ConditionType.backup_restored)
        × (meta.is_status_condition_false s'.conditions ConditionType.storage_resized
            ≡ meta.is_status_condition_false s.conditions ConditionType.storage_resized)
  kept s mdb =
      let s' = set_primary_switching (set_condition meta) s mdb in
      let same = (set_interrupted_lem meta s mdb).0.2 in
      (
        meta.is_false_lem s'.conditions ConditionType.backup_restored
            ∙ (ap (has_status status_false) (same ConditionType.backup_restored refl refl)
                ∙ sym (meta.is_false_lem s.conditions ConditionType.backup_restored)),
        meta.is_false_lem s'.conditions ConditionType.storage_resized
            ∙ (ap (has_status status_false) (same ConditionType.storage_resized refl refl)
                ∙ sym (meta.is_false_lem s.conditions ConditionType.storage_resized)),
      )

  -- What the two patches make of the MariaDB.
  abbrev pub SwitchingTo : MariaDb → ℤ → MariaDb → Type 0
  SwitchingTo before to after =
      (desired_index after ≡ to)
      × (after.status.current_primary_pod_index ≡ before.status.current_primary_pod_index)
      × (is_switching_primary meta after ≡ true)
      × (after.status.current_primary_failing_since ≡ none)
      × (is_restoring_backup meta after ≡ is_restoring_backup meta before)
      × (is_resizing_storage meta after ≡ is_resizing_storage meta before)
      × (has_configured_replica after ≡ has_configured_replica before)
      × (after.max_scale_ref ≡ before.max_scale_ref)

  pub switch_to-SwitchingTo :
      (srv : Server) (s : State) (to : ℤ)
      → SwitchingTo s.mariadb to (switch_to meta srv s to).1.mariadb
  unfolding switch_to patch_spec patch_status with_primary_index desired_index replication_of
      fill_with_defaults fill_primary switching_status is_switching_primary is_restoring_backup
      is_resizing_storage has_configured_replica set_primary_switching set_condition
  switch_to-SwitchingTo srv s to =
      let mdb = record s.mariadb { replication = with_primary_index s.mariadb to } in
      (
        refl,
        refl,
        (set_interrupted_lem meta s.mariadb.status mdb).0.1,
        refl,
        (kept s.mariadb.status mdb).0,
        (kept s.mariadb.status mdb).1,
        refl,
        refl,
      )

  due_of :
      (mx re rz hc d en au su : Bool)
      → (not (mx || re || su) && en && au && hc) ≡ true
      → rz ≡ false
      → d ≡ true
      → (not (mx || re || rz) && hc && d) ≡ true
  due_of mx re rz hc d en au su h r e = ground arith

  differs : (c to : ℤ) → to ≢ c → differs_from (some c) to ≡ true
  unfolding differs_from
  differs c to ne = elim (Bool-cases (eqb_ℤ c to)) [
    | inl e ↦ absurd (ne (sym ((eqb_ℤ_iff c to).0 e)))
    | inr e ↦ rw e refl
  ]

  -- A switchover is due behind the two patches.
  pub due :
      (before after : MariaDb) (c to : ℤ)
      → SwitchingTo before to after
      → before.status.current_primary_pod_index ≡ some c
      → to ≢ c
      → should_reconcile meta before ≡ true
      → is_resizing_storage meta before ≡ false
      → should_reconcile_switchover meta after ≡ true
  unfolding should_reconcile_switchover should_reconcile
  due before after c to h current ne sr rz = cc (
    h.0,
    h.1,
    h.4,
    h.5,
    h.6,
    h.7,
    current,
    due_of before.max_scale_ref (is_restoring_backup meta before) (is_resizing_storage meta before)
        (has_configured_replica before) (differs_from (some c) to) (replication_of before).enabled
        (deref (deref (replication_of before).primary no_primary).automatic_failover false)
        (is_suspended before) sr rz (differs c to ne),
  )

  pub Any-other :
      (is_healthy : Pod → Bool) (c to : ℤ) (pods : List Pod)
      → Any (Eligible is_healthy c to) pods
      → to ≢ c
  Any-other is_healthy c to [] h = absurd h
  Any-other is_healthy c to (p ∷ ps) (inl e) = e.1
  Any-other is_healthy c to (p ∷ ps) (inr m) = Any-other is_healthy c to ps m
