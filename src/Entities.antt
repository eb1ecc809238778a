-- ===== src/Entities.antt =====
-- The rows that the services pass around: internal/entities, and the history item of
-- internal/repositories/order_history-repository.go. A pointer to a value is an option, an id and
-- a counter is a natural number. Go's `==` on two times compares the locations too, and `Equal`
-- the instants alone.
use request_system.Common.{ℕ, Bool, Option, none, String, ◌==◌}

pub record Time : Type 0 where
  pub nanos : ℕ  -- since the epoch
  pub zone : ℕ  -- the location, `time.Local` is 0

abbrev pub time_equal : Time → Time → Bool
time_equal a b = a.nanos == b.nanos

abbrev pub in_local : Time → Time
in_local t = record t { zone = 0 }

-- The fields of `entities.User` that the modelled services read.
pub record User : Type 0 where
  pub id : ℕ
  pub fio : String
  pub email : String
  pub status_code : String
  pub branch_id : Option ℕ
  pub office_id : Option ℕ
  pub department_id : Option ℕ
  pub otdel_id : Option ℕ
  pub position_id : Option ℕ

-- `entities.User{}`.
abbrev pub nobody : User
nobody = record {
  id = 0;
  fio = "";
  email = "";
  status_code = "";
  branch_id = none;
  office_id = none;
  department_id = none;
  otdel_id = none;
  position_id = none;
}

pub record Order : Type 0 where
  pub id : ℕ
  pub name : String
  pub department_id : Option ℕ
  pub status_id : ℕ
  pub creator_id : ℕ
  pub order_type_id : Option ℕ
  pub otdel_id : Option ℕ
  pub priority_id : Option ℕ
  pub branch_id : Option ℕ
  pub office_id : Option ℕ
  pub equipment_id : Option ℕ
  pub equipment_type_id : Option ℕ
  pub executor_id : Option ℕ
  pub duration : Option Time
  pub address : Option String
  pub created_at : Time
  pub updated_at : Time
  pub deleted_at : Option Time
  pub completed_at : Option Time
  pub first_response_time_seconds : Option ℕ
  pub resolution_time_seconds : Option ℕ
  pub is_first_contact_resolution : Option Bool
  pub creator_name : String
  pub executor_name : Option String

pub record Status : Type 0 where
  pub id : ℕ
  pub name : String
  pub code : Option String

pub record Attachment : Type 0 where
  pub id : ℕ
  pub order_id : ℕ
  pub user_id : ℕ
  pub file_name : String
  pub file_path : String

pub data EventType : Type 0 where
  create comment name_change address_change duration_change equipment_change : EventType
  equipment_type_change order_type_change delegation status_change priority_change : EventType
  structure_change attachment_add : EventType

abbrev event_rank : EventType → ℕ
event_rank create = 0
event_rank comment = 1
event_rank name_change = 2
event_rank address_change = 3
event_rank duration_change = 4
event_rank equipment_change = 5
event_rank equipment_type_change = 6
event_rank order_type_change = 7
event_rank delegation = 8
event_rank status_change = 9
event_rank priority_change = 10
event_rank structure_change = 11
event_rank attachment_add = 12

abbrev pub same_event : EventType → EventType → Bool
same_event a b = event_rank a == event_rank b

pub record HistoryItem : Type 0 where
  pub order_id : ℕ
  pub user_id : ℕ
  pub event_type : EventType
  pub old_value : Option String
  pub new_value : Option String
  pub comment : Option String
  pub attachment_id : Option ℕ
  pub tx_id : Option ℕ
  pub created_at : Time
  pub creator_fio : Option String
  pub delegator_fio : Option String
  pub executor_fio : Option String
