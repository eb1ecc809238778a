-- ===== src/Orders/Requests.antt =====
-- internal/dto/order-dto.go and the routing types of internal/services/rule_engine_service.go:
-- what a caller sends, and what the service and the rule engine say to one another.
use request_system.Common.{ℕ, String, Bool, Option, List, safe_deref}
use request_system.Entities.{User, Order, Time}
use request_system.Errors.{Result}

pub record CreateOrderDto : Type 0 where
  pub name : String
  pub order_type_id : Option ℕ
  pub address : Option String
  pub comment : Option String
  pub duration : Option Time
  pub department_id : Option ℕ
  pub otdel_id : Option ℕ
  pub branch_id : Option ℕ
  pub office_id : Option ℕ
  pub priority_id : Option ℕ
  pub executor_id : Option ℕ
  pub equipment_id : Option ℕ
  pub equipment_type_id : Option ℕ

-- The two fields of `UpdateOrderDTO` that the service reads; the rest goes by the explicit fields.
pub record UpdateOrderDto : Type 0 where
  pub comment : Option String
  pub executor_id : Option ℕ

-- What the middleware put into the request's context.
pub record RequestContext : Type 0 where
  pub user_id : Option ℕ
  pub permissions : Option (List String)
  pub user_entity : Option User

pub record OrderContext : Type 0 where
  pub order_type_id : ℕ
  pub department_id : ℕ
  pub otdel_id : Option ℕ
  pub branch_id : Option ℕ
  pub office_id : Option ℕ

pub record RoutingResult : Type 0 where
  pub executor : User
  pub status_id : ℕ
  pub rule_found : Bool

-- `buildOrderRoutingContext`.
abbrev pub build_order_routing_context :
    Option ℕ → Option ℕ → Option ℕ → Option ℕ → Option ℕ → OrderContext
build_order_routing_context order_type_id department_id otdel_id branch_id office_id = record {
  order_type_id = safe_deref order_type_id;
  department_id = safe_deref department_id;
  otdel_id = otdel_id;
  branch_id = branch_id;
  office_id = office_id;
}

-- `RuleEngineServiceInterface`; `Routing.Theorems.rule_engine` is this repository's.
pub record RuleEngine : Type 0 where
  pub resolve_executor : OrderContext → Option ℕ → Result RoutingResult

pub record AttachmentResponse : Type 0 where
  pub id : ℕ
  pub file_name : String
  pub url : String

-- `OrderResponseDTO`: the order's own fields, which it copies, and what is computed for it.
pub record OrderResponse : Type 0 where
  pub order : Order
  pub executor_name : Option String
  pub resolution_time_formatted : String
  pub first_response_time_formatted : String
  pub attachments : List AttachmentResponse
