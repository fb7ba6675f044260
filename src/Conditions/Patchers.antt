-- ===== src/Conditions/Patchers.antt =====
-- pkg/condition/condition.go: the patchers of the conditions that a resource with only a list of
-- conditions has. A patcher is what it makes of the list.
use suture_port_mariadb_oper.Prelude.{
  Bool, true, false, List, ◌++◌, Option, none, some, Bytes, codes,
}
use suture_port_mariadb_oper.Api.{Condition}
use suture_port_mariadb_oper.Api.Conditions.{StatusConditions}
use suture_port_mariadb_oper.Conditions.{
  set_ready_created_with_message, set_ready_failed_with_message, set_ready_healthy,
  set_ready_unhealthy_with_error,
}
use suture_port_mariadb_oper.Completion.{set_complete_failed_with_message}

abbrev pub Patcher : Type 0
Patcher = List Condition → List Condition

module _ (meta : StatusConditions) where
  abbrev set : List Condition → Condition → List Condition
  set = meta.set_status_condition

  unfoldable pub patcher_failed : Bytes → Patcher
  patcher_failed msg cs = set_ready_failed_with_message set cs msg

  unfoldable pub patcher_with_error : {E : Type 0} → Option E → Patcher
  patcher_with_error none cs = set_ready_created_with_message set cs (codes "Created")
  patcher_with_error (some e) cs = set_ready_failed_with_message set cs (codes "Failed")

  -- The error is NotFound or not; `type` is the name of the object's type.
  unfoldable pub patcher_ref_resolver : Option Bool → Bytes → Patcher
  patcher_ref_resolver none type cs = cs
  patcher_ref_resolver (some true) type cs =
      set_ready_failed_with_message set cs (type ++ codes " not found")
  patcher_ref_resolver (some false) type cs =
      set_ready_failed_with_message set cs (codes "Error getting " ++ type)

  -- An error is the text of its message.
  unfoldable pub patcher_healthy : Option Bytes → Patcher
  patcher_healthy none cs = set_ready_healthy set cs
  patcher_healthy (some message) cs = set_ready_unhealthy_with_error set cs message

  unfoldable pub complete_patcher_failed : Bytes → Patcher
  complete_patcher_failed msg cs = set_complete_failed_with_message set cs msg
