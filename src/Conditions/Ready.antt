-- ===== src/Conditions/Ready.antt =====
-- When a MariaDB is reported as ready: pkg/condition/ready.go, SetReadyWithMariaDB.
use suture_port_mariadb_oper.Prelude.{
  ◌≡◌, Bool, false, not, ◌||◌, ◌&&◌, Option, none, some, Bytes, Bool-cases, inl, inr,
}
use suture_port_mariadb_oper.Api.{
  ConditionStatus, status_true, ConditionType, ConditionReason, MariaDb, MariaDbStatus,
  is_galera_enabled,
}
use suture_port_mariadb_oper.Api.Conditions.{
  StatusConditions, set_condition, type_eq, has_status, is_initializing, is_galera_initializing,
  is_updating, init_error, has_pending_update,
}
use suture_port_mariadb_oper.Conditions.{
  condition, StatefulSetStatus, is_sts_unready, set_ready_with_mariadb, set_ready_initializing,
}

module _ (meta : StatusConditions) where
  open meta use {
    set_status_condition, find_status_condition, is_status_condition_true, find_set, is_true_lem,
  }

  set_ready_true :
      (s : MariaDbStatus) (b : ConditionStatus) (r : ConditionReason) (m : Bytes)
      → is_status_condition_true
          (set_condition meta s (condition ConditionType.ready b r m)).conditions
          ConditionType.ready
        ≡ has_status status_true (some (condition ConditionType.ready b r m))
  unfolding set_condition
  set_ready_true s b r m =
      rw (
        is_true_lem,
        find_set s.conditions (condition ConditionType.ready b r m) ConditionType.ready,
      )

  set_ready_other :
      (s : MariaDbStatus) (b : ConditionStatus) (r : ConditionReason) (m : Bytes)
      (t : ConditionType)
      → type_eq ConditionType.ready t ≡ false
      → find_status_condition
          (set_condition meta s (condition ConditionType.ready b r m)).conditions
          t
        ≡ find_status_condition s.conditions t
  unfolding set_condition
  set_ready_other s b r m t h =
      rw (find_set s.conditions (condition ConditionType.ready b r m) t, h)

  abbrev Reported : MariaDbStatus → MariaDbStatus → Bool → Type 0
  Reported s s' b =
      (is_status_condition_true s'.conditions ConditionType.ready ≡ b)
      × ((t : ConditionType)
          → type_eq ConditionType.ready t ≡ false
          → find_status_condition s'.conditions t ≡ find_status_condition s.conditions t)

  reported :
      (s : MariaDbStatus) (b : ConditionStatus) (r : ConditionReason) (m : Bytes)
      → Reported s
          (set_condition meta s (condition ConditionType.ready b r m))
          (has_status status_true (some (condition ConditionType.ready b r m)))
  reported s b r m = (set_ready_true s b r m, set_ready_other s b r m)

  Reported-initializing :
      (s : MariaDbStatus) (o : Option Bytes)
      → Reported s (set_ready_initializing (set_condition meta) s o) false
  unfolding set_ready_initializing
  Reported-initializing s none = reported s _ _ _
  Reported-initializing s (some m) = reported s _ _ _

  -- The instance is reported as ready exactly when it is not being initialized, nor its enabled
  -- Galera cluster, it is not being updated, and its StatefulSet has replicas and all of them are
  -- ready. No other condition changes.
  pub set_ready_with_mariadb_lem :
      (s : MariaDbStatus) (sts : StatefulSetStatus) (mdb : MariaDb)
      → let s' = set_ready_with_mariadb (set_condition meta) meta s sts mdb in
        (is_status_condition_true s'.conditions ConditionType.ready ≡ (
          not (is_initializing meta mdb || is_galera_enabled mdb && is_galera_initializing meta mdb)
          && not (is_updating meta mdb)
          && not (is_sts_unready sts)))
        × ((t : ConditionType)
            → type_eq ConditionType.ready t ≡ false
            → find_status_condition s'.conditions t ≡ find_status_condition s.conditions t)
  unfolding set_ready_with_mariadb
  set_ready_with_mariadb_lem s sts mdb =
      elim (Bool-cases
        (is_initializing meta mdb || is_galera_enabled mdb && is_galera_initializing meta mdb)) [
          | inl i ↦ rw i (Reported-initializing s (init_error meta mdb))
          | inr i ↦ elim (Bool-cases (is_updating meta mdb)) [
            | inl u ↦ rw (i, u) (reported s _ _ _)
            | inr u ↦ elim (Bool-cases (is_sts_unready sts)) [
              | inl n ↦ rw (i, u, n) (reported s _ _ _)
              | inr n ↦ elim (Bool-cases (has_pending_update meta mdb)) [
                | inl p ↦ rw (i, u, n, p) (reported s _ _ _)
                | inr p ↦ rw (i, u, n, p) (reported s _ _ _)
              ]
            ]
          ]
        ]
