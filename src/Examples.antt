-- ===== src/Examples.antt =====
-- A small office in which the theorems are applied.
pub mod Orders
pub mod Access
pub mod Routing
pub mod Listing
pub mod Timeline
pub mod Websocket
pub mod Auth
pub mod Grants
pub mod Notices
pub mod Errors
use request_system.Common.{
  ℕ, String, Bool, true, false, Option, none, some, List, [], ◌∷◌, ◌==◌, str_eq, if◌then◌else◌, ◌≡◌,
  refl, sym, ap,
}
use request_system.Entities.{User, Order, Status, Time, HistoryItem}
use request_system.Errors.{Result, ok, err}
use request_system.Authz.{Context, order_target}
use request_system.Orders.Store.{Store, World, Call}
use request_system.Orders.History.{Directory}
use request_system.Orders.Requests.{
  RequestContext, RuleEngine, RoutingResult, OrderContext, UpdateOrderDto, CreateOrderDto,
}
use request_system.Orders.Patch.{Fields, text, number}

abbrev pub alice : User
alice = record {
  id = 7;
  fio = "Alice";
  email = "alice@example.com";
  status_code = "ACTIVE";
  branch_id = none;
  office_id = none;
  department_id = some 3;
  otdel_id = none;
  position_id = none;
}

abbrev pub bob : User
bob = record alice { id = 8; fio = "Bob"; email = "bob@example.com" }

abbrev pub at_second : ℕ → Time
at_second n = record { nanos = n; zone = 0 }

-- An open order that Alice made and Bob executes.
abbrev pub printer : Order
printer = record {
  id = 1;
  name = "Printer";
  department_id = some 3;
  status_id = 1;
  creator_id = 7;
  order_type_id = some 5;
  otdel_id = none;
  priority_id = some 2;
  branch_id = none;
  office_id = none;
  equipment_id = none;
  equipment_type_id = none;
  executor_id = some 8;
  duration = none;
  address = none;
  created_at = at_second 1000000000;
  updated_at = at_second 1000000000;
  deleted_at = none;
  completed_at = none;
  first_response_time_seconds = none;
  resolution_time_seconds = none;
  is_first_contact_resolution = none;
  creator_name = "Alice";
  executor_name = some "Bob";
}

abbrev pub phone : Order
phone = record printer { id = 2; name = "Phone"; creator_id = 8 }

abbrev pub store : Store
store = record {
  db = record { orders = printer ∷ phone ∷ []; history = []; attachments = [] };
  next_order_id = 3;
  next_attachment_id = 1;
  published = [];
  files = [];
  summary_version = 0;
  activity_version = 0;
  reads = 0;
  next_uuid = 0;
  tx_time = at_second 0;
}

abbrev pub world : World
world = record {
  fault = λ c. none;
  clock = λ n. at_second 61000000000;
  has_cache = true;
  rolled_back = λ before now. before;
  rolls_back = λ before now. refl;
}

abbrev status : ℕ → String → Status
status id code = record { id = id; name = code; code = some code }

abbrev pub find_status : ℕ → Option Status
find_status id =
    if id == 1
    then some (status 1 "OPEN")
    else if id == 2
    then some (status 2 "COMPLETED")
    else if id == 3
    then some (status 3 "CLOSED")
    else none

abbrev pub directory : Directory
directory = record {
  find_user = λ id. if id == 7 then some alice else if id == 8 then some bob else none;
  find_status = find_status;
  find_status_by_code = λ code. if str_eq code "OPEN" then some (status 1 "OPEN") else none;
  find_order_type_code = λ id. if id == 5 then some "EQUIPMENT" else none;
  parse_time = λ text. none;
  format_time = λ t. "now";
}

abbrev pub route : OrderContext → Option ℕ → Result RoutingResult
route c none = ok (record { executor = bob; status_id = 0; rule_found = false })
route c (some id) =
    ok (record { executor = record bob { id = id }; status_id = 0; rule_found = false })

abbrev pub engine : RuleEngine
engine = record { resolve_executor = route }

abbrev pub granted : List String
granted =
    "order:view" ∷ "order:create" ∷ "order:update" ∷ "order:delete" ∷ "order:update:name"
    ∷ "order:update:status_id" ∷ "order:update:executor_id" ∷ "order:create:name" ∷ "scope:own" ∷ []

abbrev pub request : RequestContext
request = record { user_id = some 7; permissions = some granted; user_entity = none }

abbrev pub context : Context
context = record {
  actor = alice;
  permissions = granted;
  target = order_target printer;
  is_participant = true;
  current_permission = "";
}

abbrev pub completing : Fields
completing = ("name", text "Old printer") ∷ ("status_id", number 2) ∷ []

abbrev pub plain_update : UpdateOrderDto
plain_update = record { comment = some "Done"; executor_id = none }

abbrev pub new_desk : CreateOrderDto
new_desk = record {
  name = "Desk";
  order_type_id = none;
  address = none;
  comment = none;
  duration = none;
  department_id = some 3;
  otdel_id = none;
  branch_id = none;
  office_id = none;
  priority_id = none;
  executor_id = none;
  equipment_id = none;
  equipment_type_id = none;
}
