-- ===== src/Examples/Timeline.antt =====
-- The theorems on the timeline, applied.
use Prim.Native.String.{◌++◌ as concat}
use request_system.Common.{
  arith, ℕ, String, Option, none, some, List, [], ◌∷◌, ◌≡◌, ◌≤◌, refl, length,
}
use request_system.Entities.{EventType}
use request_system.Entities
use request_system.Errors.{ok}
use request_system.Orders.Timeline.Names.{Lookup, priority, direct_name}
use request_system.Orders.Timeline.Texts.{quoted}
use request_system.Orders.Timeline.Readback.{change_line-ptr_to_string}
use request_system.Orders.History.{ptr_to_string}
use request_system.Orders.Timeline.Lines.{Row, Item, Clock, written, change_line}
use request_system.Orders.Timeline.Blocks.{Tables, Block, get_timeline_by_order_id}
use request_system.Orders.Timeline.Partition.{runs}
use request_system.Orders.Timeline.Answer.{
  items_of, page, shown_as, get_timeline_by_order_id_refines, get_timeline_by_order_id_bounds,
}
use request_system.Examples.{alice, bob, at_second}

abbrev entry : EventType → ℕ → Option String → ℕ → Row
entry e user_id value tx = record {
  order_id = 1;
  user_id = user_id;
  event = written e;
  old_value = none;
  new_value = value;
  comment = some " Done ";
  attachment_id = none;
  created_at = at_second 5;
  tx_id = some tx;
  creator_fio = none;
  delegator_fio = none;
  executor_fio = none;
}

-- Alice makes the order; Bob raises its priority and comments in one transaction.
abbrev tables : Tables
tables = record {
  rows =
      entry Entities.create 7 (some "Printer") 0
      ∷ entry Entities.priority_change 8 (some "2") 1
      ∷ entry Entities.comment 8 none 1
      ∷ [];
  statuses = [];
  attachments = [];
  users = alice ∷ bob ∷ [];
  by_time = λ rows. rows;
  by_time_In = λ rows r. (λ m. m, λ m. m);
  history_fault = none;
  users_fault = none;
}

abbrev plain_clock : Clock
plain_clock = record {
  parse_rfc3339 = λ s. none;
  show_term = λ t. "";
  show_block = λ t. "01.01.2026 / 10:00";
}

abbrev names : Lookup
names k id = some "Высокий"

abbrev timeline : List Block
timeline =
    record {
      lines = "Создана заявка: «Printer»" ∷ [];
      comment = none;
      actor = record { id = 7; fio = "Alice"; role = "creator" };
      created_at = "01.01.2026 / 10:00";
      attachment = none;
    }
    ∷ record {
      lines = "Установлен приоритет: «Высокий»" ∷ [];
      comment = some "Done";
      actor = record { id = 8; fio = "Bob"; role = "executor" };
      created_at = "01.01.2026 / 10:00";
      attachment = none;
    }
    ∷ []

shows : get_timeline_by_order_id plain_clock names tables 1 "50" "-3" ≡ ok timeline
unfolding get_timeline_by_order_id request_system.Common.trim_space request_system.Common.parse_uint
shows = refl

get_timeline_by_order_id_refines_example :
    (get_timeline_by_order_id plain_clock names tables 1 "50" ""
      ≡ shown_as plain_clock names tables 1 "50" "" (page plain_clock names tables 1 "50" ""))
    × ((items : List Item) → items_of (runs items) ≡ items)
get_timeline_by_order_id_refines_example =
    get_timeline_by_order_id_refines plain_clock names tables 1 "50" ""

get_timeline_by_order_id_bounds_example :
    (blocks : List Block) × (get_timeline_by_order_id plain_clock names tables 1 "" "1" ≡ ok blocks)
    × (length blocks ≤ 200)
get_timeline_by_order_id_bounds_example =
    get_timeline_by_order_id_bounds plain_clock names tables 1 "" "1" refl

change_line-ptr_to_string_example :
    (change_line
      (direct_name names)
      priority
      "Приоритет: "
      "ID "
      (ptr_to_string (some 18446744073709551615))
      tt).0
    ≡ concat "Приоритет: " (quoted "Высокий")
change_line-ptr_to_string_example =
    change_line-ptr_to_string names priority "Приоритет: " "ID " 18446744073709551615 "Высокий"
      (omega arith) refl refl
