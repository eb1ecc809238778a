-- ===== src/Orders/History/Preserved.antt =====
-- Writing history and attachments touches no order.
use request_system.Common.{ℕ, Bool, true, false, Option, none, some, List, [], ◌∷◌, refl, is_some}
use request_system.Entities.{Order, User, nobody, HistoryItem, Time}
use request_system.Orders.Store.{
  Store, World, time_now, add_history_and_publish, open_file, save_file, find_uploader,
  insert_history,
}
use request_system.Orders.Store.Leaves.{
  Leaves, Leaves-pure, Leaves-modify, Leaves-fail, Leaves-attempt, Leaves-bind, Leaves-if,
}
use request_system.Errors.{Error, panic}
use request_system.Orders.History.{
  Directory, Draft, File, changes, log_history_event, log_draft, log_changes,
  detect_and_log_changes, uploader, attach_file_to_order,
}

-- The orders, and the time that NOW() gives.
abbrev pub orders_and_time : Store → List Order × Time
orders_and_time s = (s.db.orders, s.tx_time)

pub now_Leaves : (w : World) → Leaves orders_and_time (time_now w)
unfolding time_now
now_Leaves w = record { at = λ s. refl }

pub add_history_and_publish-Leaves :
    (w : World) (item : HistoryItem) (o : Order) (actor : User)
    → Leaves orders_and_time (add_history_and_publish w item o actor)
unfolding add_history_and_publish
add_history_and_publish-Leaves w item o actor =
    Leaves-bind orders_and_time _ _ (Leaves-attempt orders_and_time w (insert_history item))
      λ _. Leaves-modify orders_and_time _ (λ s. refl)

pub log_history_event-Leaves :
    (w : World) (d : Draft) (actor : User) (tx_id : ℕ) (o : Order)
    → Leaves orders_and_time (log_history_event w d actor tx_id o)
unfolding log_history_event
log_history_event-Leaves w d actor tx_id o =
    Leaves-bind orders_and_time _ _ (now_Leaves w) λ at. add_history_and_publish-Leaves w _ o actor

log_draft-Leaves :
    (w : World) (d : Draft) (actor : User) (tx_id : ℕ) (o : Order) (now : Time)
    → Leaves orders_and_time (log_draft w d actor tx_id o now)
unfolding log_draft
log_draft-Leaves w d actor tx_id o now =
    Leaves-if orders_and_time (is_some d.executor_fio) _ _
      (add_history_and_publish-Leaves w _ o actor) (log_history_event-Leaves w d actor tx_id o)

log_changes-Leaves :
    (w : World) (ds : List (Bool × Draft)) (actor : User) (tx_id : ℕ) (o : Order) (now : Time)
    → Leaves orders_and_time (log_changes w ds actor tx_id o now)
unfolding log_changes
log_changes-Leaves w [] actor tx_id o now = Leaves-pure orders_and_time false
log_changes-Leaves w ((test, d) ∷ rest) actor tx_id o now =
    let later = log_changes-Leaves w rest actor tx_id o now in
    Leaves-if orders_and_time test _ _
      (Leaves-bind orders_and_time _ _ (log_draft-Leaves w d actor tx_id o now)
        λ _. Leaves-bind orders_and_time _ _ later λ _. Leaves-pure orders_and_time true)
      later

pub detect_and_log_changes-Leaves :
    (w : World) (dir : Directory) (old new : Order) (comment_text : Option _) (actor : User)
    (tx_id : ℕ) (now : Time)
    → Leaves orders_and_time (detect_and_log_changes w dir old new comment_text actor tx_id now)
unfolding detect_and_log_changes
detect_and_log_changes-Leaves w dir old new comment_text actor tx_id now =
    log_changes-Leaves w (changes dir old new comment_text) actor tx_id new now

uploader-Leaves :
    (w : World) (fault : Option Error) (found : Option User)
    → Leaves orders_and_time (uploader w fault found)
uploader-Leaves w (some e) found = Leaves-fail orders_and_time panic
uploader-Leaves w none none = Leaves-pure orders_and_time nobody
uploader-Leaves w none (some u) = Leaves-pure orders_and_time u

pub attach_file_to_order-Leaves :
    (w : World) (dir : Directory) (order_id user_id : ℕ) (file : File) (tx_id : ℕ) (o : Order)
    → Leaves orders_and_time (attach_file_to_order w dir order_id user_id file tx_id o)
unfolding attach_file_to_order
attach_file_to_order-Leaves w dir order_id user_id file tx_id o =
    Leaves-bind orders_and_time _ _ (Leaves-attempt orders_and_time w (open_file file.file_name))
      λ _.
        Leaves-bind orders_and_time _ _
          (Leaves-attempt orders_and_time w (save_file file.file_name))
          λ _. Leaves-bind orders_and_time _ _ (Leaves-modify orders_and_time _ (λ s. refl)) λ _.
            Leaves-bind orders_and_time _ _ (now_Leaves w) λ _.
              Leaves-bind orders_and_time _ _ (Leaves-attempt orders_and_time w _) λ _.
                Leaves-bind orders_and_time _ _ (record { at = λ s. refl })
                  λ id.
                    Leaves-bind orders_and_time _ _
                      (uploader-Leaves w (w.fault (find_uploader user_id)) (dir.find_user user_id))
                      λ actor. Leaves-bind orders_and_time _ _ (now_Leaves w) λ at.
                        Leaves-bind orders_and_time _ _ (add_history_and_publish-Leaves w _ o actor)
                          λ _. Leaves-pure orders_and_time id
