-- ===== src/Api/Conditions.antt =====
-- api/v1alpha1: the status conditions of a MariaDB. `StatusConditions` stands for the functions on
-- conditions of k8s.io/apimachinery/pkg/api/meta, with what their documentation says.
use suture_port_mariadb_oper.Prelude.{
  ℕ, ◌≡◌, Bool, true, false, ◌&&◌, List, Option, none, some, Bytes, if◌then◌else◌, ◌==◌,
}
use suture_port_mariadb_oper.Api.{
  Condition, ConditionStatus, status_true, status_false, status_unknown, ConditionType,
  ConditionReason, MariaDb, MariaDbStatus,
}

abbrev pub type_index : ConditionType → ℕ
type_index ConditionType.ready = 0
type_index ConditionType.storage_resized = 1
type_index ConditionType.primary_switched = 2
type_index ConditionType.backup_restored = 3
type_index ConditionType.galera_ready = 4
type_index ConditionType.galera_configured = 5
type_index ConditionType.galera_initialized = 6
type_index ConditionType.initialized = 7
type_index ConditionType.updated = 8
type_index ConditionType.complete = 9

abbrev pub type_eq : ConditionType → ConditionType → Bool
type_eq a b = type_index a == type_index b

abbrev pub has_status : ConditionStatus → Option Condition → Bool
has_status s none = false
has_status status_true (some c) = elim c.status [ status_true ↦ true | _ ↦ false ]
has_status status_false (some c) = elim c.status [ status_false ↦ true | _ ↦ false ]
has_status status_unknown (some c) = elim c.status [ status_unknown ↦ true | _ ↦ false ]

-- The condition is false, for the reason that storage has to be resized.
abbrev pub waits : Option Condition → Bool
waits none = false
waits (some c) =
    has_status status_false (some c)
    && elim c.reason [ ConditionReason.wait_storage_resize ↦ true | _ ↦ false ]

-- The condition is false, for the reason that an update is pending.
abbrev pub pends : Option Condition → Bool
pends none = false
pends (some c) =
    has_status status_false (some c)
    && elim c.reason [ ConditionReason.pending_update ↦ true | _ ↦ false ]

-- The condition is false, for the reason that an update is in progress.
abbrev pub updates : Option Condition → Bool
updates none = false
updates (some c) =
    has_status status_false (some c)
    && elim c.reason [ ConditionReason.updating ↦ true | _ ↦ false ]

-- The message of a condition that is false because of an initialization error.
abbrev pub error_of : Option Condition → Option Bytes
error_of none = none
error_of (some c) =
    if has_status status_false (some c)
      && elim c.reason [ ConditionReason.init_error ↦ true | _ ↦ false ]
    then some c.message
    else none

pub record StatusConditions : Type 0 where
  pub set_status_condition : List Condition → Condition → List Condition
  pub find_status_condition : List Condition → ConditionType → Option Condition
  pub is_status_condition_true : List Condition → ConditionType → Bool
  pub is_status_condition_false : List Condition → ConditionType → Bool
  -- A condition that was set is the one of its type, and no other type's changes.
  pub find_set :
      (cs : List Condition) (c : Condition) (t : ConditionType)
      → find_status_condition (set_status_condition cs c) t
        ≡ (if type_eq c.type t then some c else find_status_condition cs t)
  pub is_true_lem :
      (cs : List Condition) (t : ConditionType)
      → is_status_condition_true cs t ≡ has_status status_true (find_status_condition cs t)
  pub is_false_lem :
      (cs : List Condition) (t : ConditionType)
      → is_status_condition_false cs t ≡ has_status status_false (find_status_condition cs t)

module _ (meta : StatusConditions) where
  open meta use {
    set_status_condition, find_status_condition, is_status_condition_true,
    is_status_condition_false,
  }

  -- `MariaDBStatus.SetCondition`.
  unfoldable pub set_condition : MariaDbStatus → Condition → MariaDbStatus
  set_condition s c = record s { conditions = set_status_condition s.conditions c }

  unfoldable pub is_ready : MariaDb → Bool
  is_ready m = is_status_condition_true m.status.conditions ConditionType.ready

  unfoldable pub is_restoring_backup : MariaDb → Bool
  is_restoring_backup m =
      is_status_condition_false m.status.conditions ConditionType.backup_restored

  unfoldable pub has_restored_backup : MariaDb → Bool
  has_restored_backup m = is_status_condition_true m.status.conditions ConditionType.backup_restored

  unfoldable pub is_resizing_storage : MariaDb → Bool
  is_resizing_storage m =
      is_status_condition_false m.status.conditions ConditionType.storage_resized

  unfoldable pub is_switching_primary : MariaDb → Bool
  is_switching_primary m =
      is_status_condition_false m.status.conditions ConditionType.primary_switched

  unfoldable pub has_galera_not_ready_condition : MariaDb → Bool
  has_galera_not_ready_condition m =
      is_status_condition_false m.status.conditions ConditionType.galera_ready

  unfoldable pub has_galera_ready_condition : MariaDb → Bool
  has_galera_ready_condition m =
      is_status_condition_true m.status.conditions ConditionType.galera_ready

  unfoldable pub has_galera_configured_condition : MariaDb → Bool
  has_galera_configured_condition m =
      is_status_condition_true m.status.conditions ConditionType.galera_configured

  unfoldable pub is_galera_initialized : MariaDb → Bool
  is_galera_initialized m =
      is_status_condition_true m.status.conditions ConditionType.galera_initialized

  unfoldable pub is_galera_initializing : MariaDb → Bool
  is_galera_initializing m =
      is_status_condition_false m.status.conditions ConditionType.galera_initialized

  unfoldable pub is_initialized : MariaDb → Bool
  is_initialized m = is_status_condition_true m.status.conditions ConditionType.initialized

  unfoldable pub is_initializing : MariaDb → Bool
  is_initializing m = is_status_condition_false m.status.conditions ConditionType.initialized

  unfoldable pub is_waiting_for_storage_resize : MariaDb → Bool
  is_waiting_for_storage_resize m =
      waits (find_status_condition m.status.conditions ConditionType.storage_resized)

  unfoldable pub has_pending_update : MariaDb → Bool
  has_pending_update m = pends (find_status_condition m.status.conditions ConditionType.updated)

  unfoldable pub is_updating : MariaDb → Bool
  is_updating m = updates (find_status_condition m.status.conditions ConditionType.updated)

  unfoldable pub init_error : MariaDb → Option Bytes
  init_error m = error_of (find_status_condition m.status.conditions ConditionType.initialized)
