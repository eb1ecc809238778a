-- ===== src/Examples/Routing.antt =====
-- The theorems on the rule engine, applied.
use request_system.Common.{true, ◌⊎◌, false, none, some, [], ◌∷◌, ◌≡◌, refl}
use request_system.Errors.{ok, panic}
use request_system.Entities.{User}
use request_system.Orders.Patch.{Fields, lookup, number}
use request_system.Orders.History.{structure_differs}
use request_system.Orders.Validation.{apply_update_executor_routing, selects_executor}
use request_system.Orders.Requests.{OrderContext, RoutingResult, UpdateOrderDto}
use request_system.Routing.People.{
  Employee, Rule, Organisation, scanned, rule_matches, stands_before, chosen_rule,
}
use request_system.Routing.Engine.{resolve_executor}
use request_system.Routing.Theorems.{
  Eligible, Staffed, rule_engine, resolve_executor_explicit, resolve_executor_automatic,
}
use request_system.Routing.Reassignment.{Chosen, apply_update_executor_routing_assigns}
use request_system.Examples.{alice, bob, printer, context}

abbrev any_rule : Rule
any_rule = record {
  order_type_id = none;
  department_id = some 3;
  otdel_id = none;
  branch_id = none;
  office_id = none;
  assign_to_position_id = some 20;
  status_id = some 1;
}

abbrev type_rule : Rule
type_rule = record any_rule { order_type_id = some 5; assign_to_position_id = some 30 }

abbrev office : Organisation
office = record {
  employees =
      record {
        user = alice;
        is_deleted = false;
        position_ids = 20 ∷ [];
        position_types = "MANAGER" ∷ [];
      }
      ∷ record {
        user = bob;
        is_deleted = false;
        position_ids = [];
        position_types = "HEAD_OF_DEPARTMENT" ∷ [];
      }
      ∷ [];
  rules = any_rule ∷ type_rule ∷ [];
  branch_name = λ id. none;
  head_branch_names = "";
  rules_fault = none;
  people_fault = false;
  null_status = panic;
}

abbrev place : OrderContext
place = record {
  order_type_id = 5;
  department_id = 3;
  otdel_id = none;
  branch_id = none;
  office_id = none;
}

abbrev by_hand : RoutingResult
by_hand = record { executor = alice; status_id = 0; rule_found = false }

-- Nobody holds the position of the rule, and the head of the department is found instead.
abbrev by_waterfall : RoutingResult
by_waterfall = record { executor = scanned bob; status_id = 0; rule_found = false }

names_alice : resolve_executor office place (some 7) ≡ ok by_hand
unfolding resolve_executor request_system.Routing.People.validate_explicit_executor
    request_system.Routing.People.is_active_code
names_alice = refl

resolve_executor_explicit_example : Eligible office 7 place alice
resolve_executor_explicit_example = resolve_executor_explicit office 7 place by_hand names_alice

falls_to_bob : resolve_executor office place none ≡ ok by_waterfall
unfolding resolve_executor chosen_rule
    request_system.Routing.People.find_user_by_position_and_structure
    request_system.Routing.Waterfall.resolve_by_hierarchy
    request_system.Routing.People.is_active_code
falls_to_bob = refl

resolve_executor_automatic_example : Staffed office (scanned bob)
resolve_executor_automatic_example =
    resolve_executor_automatic office place by_waterfall falls_to_bob

chooses : chosen_rule office place ≡ some type_rule
unfolding chosen_rule
chooses = refl

abbrev itself : Fields
itself = ("executor_id", number 7) ∷ []

abbrev to_alice : UpdateOrderDto
to_alice = record { comment = none; executor_id = some 7 }

hands_over :
    apply_update_executor_routing (rule_engine office) context printer printer to_alice itself
    ≡ ok (record printer { executor_id = some 7 }, true)
unfolding apply_update_executor_routing resolve_executor request_system.Authz.can_do
    request_system.Authz.can_access_order request_system.Authz.get_action
    request_system.Routing.People.validate_explicit_executor
    request_system.Routing.People.is_active_code
hands_over = refl

apply_update_executor_routing_assigns_example :
    ((u : User) × Chosen office context printer printer to_alice itself u
      × (record printer { executor_id = some 7 } ≡ record printer { executor_id = some u.id })
      × (true ≡ true))
    ⊎ ((selects_executor (lookup "executor_id" itself) ≡ false)
        × (structure_differs printer printer ≡ false)
        × (record printer { executor_id = some 7 } ≡ printer)
        × (true ≡ false))
apply_update_executor_routing_assigns_example =
    apply_update_executor_routing_assigns office context printer printer to_alice itself
      (record printer { executor_id = some 7 }) true hands_over
