-- ===== src/Routing/Engine.antt =====
-- `ResolveExecutor` of internal/services/rule_engine_service.go.
use request_system.Common.{ℕ, true, false, Option, none, some}
use request_system.Entities.{User}
use request_system.Errors.{Error, panic, Result, ok, err}
use request_system.Orders.Requests.{OrderContext, RoutingResult}
use request_system.Routing.People.{
  Employee, Rule, Organisation, scanned, validate_explicit_executor, chosen_rule,
  find_user_by_position_and_structure,
}
use request_system.Routing.Waterfall.{resolve_by_hierarchy}

abbrev pub chosen_by_hand : Result User → Result RoutingResult
chosen_by_hand (ok u) = ok (record { executor = u; status_id = 0; rule_found = false })
chosen_by_hand (err e) = err e

abbrev overridden : Option ℕ → Option ℕ → Option ℕ
overridden none old = old
overridden (some id) old = some id

abbrev overridden_id : Option ℕ → ℕ → ℕ
overridden_id none old = old
overridden_id (some id) old = id

-- The order's place with what the rule says put in its stead.
abbrev pub with_structure : Rule → OrderContext → OrderContext
with_structure r c = record c {
  department_id = overridden_id r.department_id c.department_id;
  otdel_id = overridden r.otdel_id c.otdel_id;
  branch_id = overridden r.branch_id c.branch_id;
  office_id = overridden r.office_id c.office_id;
}

module _ (org : Organisation) (c : OrderContext) where
  abbrev pub by_position : Rule → ℕ → Option Employee → Result RoutingResult
  by_position r status_id (some e) =
      ok (record { executor = scanned e.user; status_id = status_id; rule_found = true })
  by_position r status_id none = resolve_by_hierarchy org (with_structure r c)

  -- The rule's position is dereferenced without a test.
  abbrev pub by_columns : Rule → Option ℕ → Option ℕ → Result RoutingResult
  by_columns r none position_id = err org.null_status
  by_columns r (some status_id) none = err panic
  by_columns r (some status_id) (some position_id) =
      by_position r status_id (find_user_by_position_and_structure org position_id c)

  abbrev pub by_rule : Option Rule → Result RoutingResult
  by_rule none = resolve_by_hierarchy org c
  by_rule (some r) = by_columns r r.status_id r.assign_to_position_id

  abbrev pub by_query : Option Error → Result RoutingResult
  by_query (some e) = err e
  by_query none = by_rule (chosen_rule org c)

  unfoldable pub resolve_executor : Option ℕ → Result RoutingResult
  resolve_executor (some id) = chosen_by_hand (validate_explicit_executor org id c)
  resolve_executor none = by_query org.rules_fault
