-- ===== src/Orders/History/Completeness.antt =====
-- What an update leaves in the history: one item for each thing that changed.
use request_system.Common.{
  ℕ, ◌+◌, String, Bool, true, false, ◌&&◌, not, Option, List, [], ◌∷◌, ◌++◌, map, ◌≡◌, refl, ◌∙◌,
  sym, ap, arith, ◌==◌, str_eq, any, select, diff_ptr, if◌then◌else◌, is_some,
}
use request_system.Entities.{Order, User, HistoryItem, Time, time_equal, EventType, same_event}
use request_system.Entities
use request_system.Errors.{ok}
use request_system.Orders.Metrics.{has_comment}
use request_system.Orders.Store.{Store, World, pure, time_now, add_history_and_publish, modify}
use request_system.Orders.Store.Leaves.{
  >>=-eq-ok, Ends, Ends-bind, Ends-if, Returns, Returns-bind, Returns-pure, Leaves-attempt,
}
use request_system.Orders.History.{
  Directory, Draft, changes, stamp, log_history_event, log_draft, log_changes,
  detect_and_log_changes, differs, structure_differs, duration_loggable,
}

abbrev pub history_of : Store → List HistoryItem
history_of s = s.db.history

-- The drafts whose tests hold.
abbrev pub logged : List (Bool × Draft) → List Draft
logged cs = map (λ c. c.1) (select (λ c. c.0) cs)

module _ (order_id : ℕ) (actor : User) (tx_id : ℕ) where
  -- The items are the drafts, in their order, each stamped at some time.
  abbrev pub Stamped : List Draft → List HistoryItem → Type 0
  Stamped [] [] = Unit {0}
  Stamped [] (h ∷ hs) = ⊥
  Stamped (d ∷ ds) [] = ⊥
  Stamped (d ∷ ds) (h ∷ hs) = ((at : Time) × (h ≡ stamp d order_id actor tx_id at)) × Stamped ds hs

append-cons : {A : Type 0} (xs : List A) (x : A) (ys : List A) → (xs ++ x ∷ []) ++ ys ≡ xs ++ x ∷ ys
append-cons [] x ys = refl
append-cons (z ∷ xs) x ys = ap (λ l. z ∷ l) (append-cons xs x ys)

append-[] : {A : Type 0} (xs : List A) → xs ≡ xs ++ []
append-[] [] = refl
append-[] (x ∷ xs) = ap (λ l. x ∷ l) (append-[] xs)

module _ (w : World) (actor : User) (tx_id : ℕ) (o : Order) (now : Time) where
  -- The history gets the stamped drafts at its end.
  abbrev pub Logged : List Draft → List HistoryItem → Store → Type 0
  Logged ds before t =
      (items : List HistoryItem) × (t.db.history ≡ before ++ items)
      × Stamped o.id actor tx_id ds items

  abbrev AppendsOne : Draft → List HistoryItem → Store → Type 0
  AppendsOne d before t = (at : Time) × (t.db.history ≡ before ++ stamp d o.id actor tx_id at ∷ [])

  add_history_and_publish-Ends :
      (d : Draft) (at : Time)
      → Ends history_of
          (AppendsOne d)
          (add_history_and_publish w (stamp d o.id actor tx_id at) o actor)
  unfolding add_history_and_publish modify
  add_history_and_publish-Ends d at =
      Ends-bind history_of (AppendsOne d) _ _ (Leaves-attempt history_of w _)
        λ _ _ _. record { at = λ s u t e. (at, sym (ap (λ p. p.1.db.history) e)) }

  log_draft-Ends : (d : Draft) → Ends history_of (AppendsOne d) (log_draft w d actor tx_id o now)
  unfolding log_draft log_history_event time_now
  log_draft-Ends d =
      Ends-if history_of (AppendsOne d) (is_some d.executor_fio) _ _
        (add_history_and_publish-Ends d now)
        (Ends-bind history_of (AppendsOne d) _ _ (record { at = λ s. refl })
          λ at _ _. add_history_and_publish-Ends d at)

  log_changes-Ends :
      (cs : List (Bool × Draft))
      → Ends history_of (Logged (logged cs)) (log_changes w cs actor tx_id o now)
  unfolding log_changes pure
  log_changes-Ends [] = record {
    at = λ s flag t e. ([], ap (λ p. p.1.db.history) (sym e) ∙ append-[] s.db.history, tt);
  }
  log_changes-Ends ((true, d) ∷ rest) = record {
    at = λ s flag t e.
        let (u, one, more) = >>=-eq-ok (log_draft w d actor tx_id o now) _ s flag t e in
        let s1 = (log_draft w d actor tx_id o now s).1 in
        let (b, done, last) =
          >>=-eq-ok (log_changes w rest actor tx_id o now) (λ _. pure true) s1 flag t more in
        let (at, first) = (log_draft-Ends d).at s u s1 (λ i. (one i, s1)) in
        let s2 = (log_changes w rest actor tx_id o now s1).1 in
        let (items, later, stamped) = (log_changes-Ends rest).at s1 b s2 (λ i. (done i, s2)) in
        (
          stamp d o.id actor tx_id at ∷ items,
          ap (λ p. p.1.db.history) (sym last)
              ∙ later
              ∙ ap (λ h. h ++ items) first
              ∙ append-cons s.db.history (stamp d o.id actor tx_id at) items,
          ((at, refl), stamped),
        );
  }
  log_changes-Ends ((false, d) ∷ rest) = log_changes-Ends rest

  log_changes-Returns :
      (cs : List (Bool × Draft))
      → Returns (λ flag. flag ≡ any (λ c. c.0) cs) (log_changes w cs actor tx_id o now)
  unfolding log_changes
  log_changes-Returns [] = Returns-pure _ false refl
  log_changes-Returns ((true, d) ∷ rest) =
      Returns-bind _ _ _ λ _ _ _. Returns-bind _ _ _ λ _ _ _. Returns-pure _ true refl
  log_changes-Returns ((false, d) ∷ rest) = log_changes-Returns rest

-- The thing that an event of an update reports differs between the two orders.
abbrev pub reported : Directory → Order → Order → Option String → EventType → Bool
reported dir old new text Entities.create = false
reported dir old new text Entities.comment = has_comment text
reported dir old new text Entities.name_change = not (str_eq old.name new.name)
reported dir old new text Entities.address_change = diff_ptr str_eq old.address new.address
reported dir old new text Entities.duration_change = duration_loggable dir old new
reported dir old new text Entities.equipment_change = differs old.equipment_id new.equipment_id
reported dir old new text Entities.equipment_type_change =
    differs old.equipment_type_id new.equipment_type_id
reported dir old new text Entities.order_type_change = differs old.order_type_id new.order_type_id
reported dir old new text Entities.delegation = differs old.executor_id new.executor_id
reported dir old new text Entities.status_change = not (old.status_id == new.status_id)
reported dir old new text Entities.priority_change = differs old.priority_id new.priority_id
reported dir old new text Entities.structure_change = structure_differs old new
reported dir old new text Entities.attachment_add = false

abbrev pub bit : Bool → ℕ
bit b = if b then 1 else 0

-- How many items report the event.
abbrev pub count_events : EventType → List HistoryItem → ℕ
count_events e [] = 0
count_events e (h ∷ hs) = bit (same_event h.event_type e) + count_events e hs

abbrev count_drafts : EventType → List (Bool × Draft) → ℕ
count_drafts e [] = 0
count_drafts e ((b, d) ∷ cs) = bit (same_event d.event_type e && b) + count_drafts e cs

&&-true : (b : Bool) → (b && true) ≡ b
&&-true b = ground arith

0+_lem : (n : ℕ) → 0 + n ≡ n
0+_lem n = omega arith

&&-false : (b : Bool) → (b && false) ≡ false
&&-false b = ground arith

count-Stamped :
    (order_id : ℕ) (actor : User) (tx_id : ℕ) (e : EventType) (cs : List (Bool × Draft))
    (items : List HistoryItem)
    → Stamped order_id actor tx_id (logged cs) items
    → count_events e items ≡ count_drafts e cs
count-Stamped order_id actor tx_id e [] [] h = refl
count-Stamped order_id actor tx_id e [] (x ∷ items) h = absurd h
count-Stamped order_id actor tx_id e ((true, d) ∷ cs) [] h = absurd h
count-Stamped order_id actor tx_id e ((true, d) ∷ cs) (x ∷ items) ((at, same), h) =
    ap (λ (x : HistoryItem). bit (same_event x.event_type e) + count_events e items) same ∙ (λ i.
      bit (sym (&&-true (same_event d.event_type e)) i)
      + count-Stamped order_id actor tx_id e cs items h i)
count-Stamped order_id actor tx_id e ((false, d) ∷ cs) items h =
    count-Stamped order_id actor tx_id e cs items h
    ∙ sym (
        ap (λ b. bit b + count_drafts e cs) (&&-false (same_event d.event_type e))
        ∙ 0+_lem (count_drafts e cs))

count_changes :
    (dir : Directory) (old new : Order) (text : Option String) (e : EventType)
    → count_drafts e (changes dir old new text) ≡ bit (reported dir old new text e)
unfolding changes
count_changes dir old new text Entities.create = omega arith
count_changes dir old new text Entities.comment = omega arith
count_changes dir old new text Entities.name_change = omega arith
count_changes dir old new text Entities.address_change = omega arith
count_changes dir old new text Entities.duration_change = omega arith
count_changes dir old new text Entities.equipment_change = omega arith
count_changes dir old new text Entities.equipment_type_change = omega arith
count_changes dir old new text Entities.order_type_change = omega arith
count_changes dir old new text Entities.delegation = omega arith
count_changes dir old new text Entities.status_change = omega arith
count_changes dir old new text Entities.priority_change = omega arith
count_changes dir old new text Entities.structure_change = omega arith
count_changes dir old new text Entities.attachment_add = omega arith

abbrev pub any_item : List HistoryItem → Bool
any_item [] = false
any_item (h ∷ hs) = true

any-Stamped :
    (order_id : ℕ) (actor : User) (tx_id : ℕ) (cs : List (Bool × Draft)) (items : List HistoryItem)
    → Stamped order_id actor tx_id (logged cs) items
    → any (λ c. c.0) cs ≡ any_item items
any-Stamped order_id actor tx_id [] [] h = refl
any-Stamped order_id actor tx_id [] (x ∷ items) h = absurd h
any-Stamped order_id actor tx_id ((true, d) ∷ cs) [] h = absurd h
any-Stamped order_id actor tx_id ((true, d) ∷ cs) (x ∷ items) h = refl
any-Stamped order_id actor tx_id ((false, d) ∷ cs) items h =
    any-Stamped order_id actor tx_id cs items h

-- When the changes of an update have been logged, the history has grown at its end, and the new
-- items hold exactly one item for each thing that differs between the old order and the new, or
-- the comment if there is one, and none for anything else. The result says whether there is any
-- item.
pub detect_and_log_changes_complete :
    (w : World) (dir : Directory) (old new : Order) (text : Option String) (actor : User)
    (tx_id : ℕ) (now : Time) (s : Store) (flag : Bool) (t : Store)
    → detect_and_log_changes w dir old new text actor tx_id now s ≡ (ok flag, t)
    → (items : List HistoryItem) × (t.db.history ≡ s.db.history ++ items)
      × ((e : EventType) → count_events e items ≡ bit (reported dir old new text e))
      × (flag ≡ any_item items)
unfolding detect_and_log_changes
detect_and_log_changes_complete w dir old new text actor tx_id now s flag t done =
    let cs = changes dir old new text in
    let (items, grown, stamped) = (log_changes-Ends w actor tx_id new now cs).at s flag t done in
    (
      items,
      grown,
      λ e. count-Stamped new.id actor tx_id e cs items stamped ∙ count_changes dir old new text e,
      (log_changes-Returns w actor tx_id new now cs).at s flag (ap (λ p. p.0) done)
          ∙ any-Stamped new.id actor tx_id cs items stamped,
    )
