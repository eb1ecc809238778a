-- ===== src/Notices.antt =====
-- internal/listeners/notification_listener.go: the events of the history of one order and one
-- transaction are gathered, and two seconds after the first of them one notification goes out to
-- all who are concerned. The lock makes one step of each handler and of each timer.
pub mod Texts
pub mod Payload
pub mod Groups
pub mod Complete
pub mod Chats
pub mod Recipients
pub mod Delivery
use request_system.Common.{
  ℕ, String, Bool, true, false, not, ◌&&◌, Option, none, some, List, [], ◌∷◌, ◌++◌, if◌then◌else◌,
  ◌==◌, ltb, select, find, any, parse_uint,
}
use request_system.Entities.{Order, HistoryItem, Attachment, delegation, same_event}

-- The fields of `entities.User` that the listener reads. A chat of Telegram is a number.
pub record Person : Type 0 where
  pub id : ℕ
  pub fio : String
  pub photo_url : Option String
  pub telegram_chat_id : Option ℕ

-- `OrderHistoryCreatedEvent`.
pub record Event : Type 0 where
  pub item : HistoryItem
  pub attachment : Option Attachment
  pub order : Option Order
  pub actor : Option Person

-- `eventGroupKey`: an order and a transaction.
abbrev pub Key : Type 0
Key = ℕ × ℕ

abbrev pub same_key : Key → Key → Bool
same_key a b = a.0 == b.0 && a.1 == b.1

-- The groups that wait, and the keys whose timer runs.
pub record State : Type 0 where
  pub groups : List (Key × List Event)
  pub timers : List Key

abbrev pub group_of : Key → List (Key × List Event) → Option (List Event)
group_of k [] = none
group_of k ((k', es) ∷ rest) =
    let later = group_of k rest in if same_key k' k then some es else later

abbrev pub without : Key → List (Key × List Event) → List (Key × List Event)
without k = select λ g. not (same_key g.0 k)

abbrev pub joined : Key → Event → Option (List Event) → State → State
joined k e none s = record { groups = (k, e ∷ []) ∷ s.groups; timers = k ∷ s.timers }
joined k e (some es) s = record s { groups = (k, es ++ (e ∷ [])) ∷ without k s.groups }

abbrev pub grouped : Option ℕ → Event → State → State
grouped none e s = s
grouped (some tx) e s = let k : Key = (e.item.order_id, tx) in joined k e (group_of k s.groups) s

-- `handleOrderHistoryCreated`.
unfoldable pub handle_order_history_created : Event → State → State
handle_order_history_created e s = grouped e.item.tx_id e s

-- `sort.Slice` by the time of creation, where equal times keep their order.
abbrev insert_event : Event → List Event → List Event
insert_event e [] = e ∷ []
insert_event e (f ∷ es) =
    let rest = insert_event e es in
    if ltb f.item.created_at.nanos e.item.created_at.nanos then f ∷ rest else e ∷ f ∷ es

unfoldable pub sort_events : List Event → List Event
sort_events [] = []
sort_events (e ∷ es) = insert_event e (sort_events es)

-- `userIDs[id] = struct{}{}`.
abbrev pub add_id : ℕ → List ℕ → List ℕ
add_id id ids = if any (λ i. i == id) ids then ids else id ∷ ids

abbrev pub add_if_positive : Option ℕ → List ℕ → List ℕ
add_if_positive none ids = ids
add_if_positive (some id) ids = if ltb 0 id then add_id id ids else ids

abbrev parsed_id : Option String → Option ℕ
parsed_id none = none
parsed_id (some value) = parse_uint value

abbrev pub old_executor : HistoryItem → Option ℕ
old_executor item = if same_event item.event_type delegation then parsed_id item.old_value else none

-- The body of the loop over the events.
abbrev pub add_ids_of : Event → List ℕ → List ℕ
add_ids_of e ids = add_if_positive (old_executor e.item) (add_if_positive (some e.item.user_id) ids)

abbrev pub add_all_ids : List Event → List ℕ → List ℕ
add_all_ids [] ids = ids
add_all_ids (e ∷ es) ids = add_all_ids es (add_ids_of e ids)

abbrev pub add_executor : Option ℕ → List ℕ → List ℕ
add_executor none ids = ids
add_executor (some id) ids = add_id id ids

abbrev pub without_actor : Option Person → List ℕ → List ℕ
without_actor none ids = ids
without_actor (some a) ids = select (λ i. not (i == a.id)) ids

-- What the listener asks. `users` are the rows that are not deleted; `statuses` and `priorities` have
-- no answer where there is no such row or the query fails; times are parsed from RFC 3339 and printed
-- as 02.01.2006 15:04.
pub record Outside : Type 0 where
  pub users : List Person
  pub reads_fail : Bool
  pub statuses : ℕ → Option String
  pub priorities : ℕ → Option String
  pub due_text : String → Option String
  pub frontend_url : String
  pub server_url : String

module _ (o : Outside) where
  -- `FindUsersByIDs`; the order of a map is not fixed, and is that of the table here.
  abbrev pub find_users_by_ids : List ℕ → Option (List Person)
  find_users_by_ids ids =
      if o.reads_fail then none else some (select (λ p. any (λ i. i == p.id) ids) o.users)

  abbrev asked_for : List ℕ → Option (List Person)
  asked_for [] = some []
  asked_for (id ∷ ids) = find_users_by_ids (id ∷ ids)

  abbrev pub involved : Order → List Event → List ℕ
  involved order es = add_all_ids es (add_executor order.executor_id (order.creator_id ∷ []))

  abbrev with_order : Option Order → Option Person → List Event → Option (List Person)
  with_order none actor es = none
  with_order (some order) actor es = asked_for (without_actor actor (involved order es))

  -- `determineRecipients`, `none` for an error.
  unfoldable pub determine_recipients : List Event → Option (List Person)
  unfolding parse_uint
  determine_recipients [] = some []
  determine_recipients (e ∷ es) = with_order e.order e.actor (e ∷ es)
