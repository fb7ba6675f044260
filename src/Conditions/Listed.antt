-- ===== src/Conditions/Listed.antt =====
-- The conditions of a resource kept in a list, a new condition in front: an instance of
-- `StatusConditions` to compute with.
use suture_port_mariadb_oper.Prelude.{◌≡◌, refl, List, [], ◌∷◌, Option, none, some, if◌then◌else◌}
use suture_port_mariadb_oper.Api.{Condition, ConditionType, status_true, status_false}
use suture_port_mariadb_oper.Api.Conditions.{StatusConditions, type_eq, has_status}

unfoldable pub latest : List Condition → ConditionType → Option Condition
latest [] t = none
latest (c ∷ cs) t = if type_eq c.type t then some c else latest cs t

pub latest-cons :
    (cs : List Condition) (c : Condition) (t : ConditionType)
    → latest (c ∷ cs) t ≡ (if type_eq c.type t then some c else latest cs t)
unfolding latest
latest-cons cs c t = refl

abbrev pub listed : StatusConditions
listed = record {
  set_status_condition = λ cs c. c ∷ cs;
  find_status_condition = latest;
  is_status_condition_true = λ cs t. has_status status_true (latest cs t);
  is_status_condition_false = λ cs t. has_status status_false (latest cs t);
  find_set = λ cs c t. latest-cons cs c t;
  is_true_lem = λ cs t. refl;
  is_false_lem = λ cs t. refl;
}
