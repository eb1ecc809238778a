-- ===== src/Orders/Timeline/Blocks.antt =====
-- The timeline: `GetTimelineByOrderID` of internal/services/order_history.go over `FindByOrderID`
-- of internal/repositories/order_history-repository.go.
use Prim.Native.Char.{code}
use Prim.Native.String.{◌++◌ as concat}
use request_system.Common.{
  take, drop, ℕ, ◌+◌, ◌-◌, ◌*◌, ◌^◌, String, Bool, true, false, ◌&&◌, ◌||◌, not, Option, none, some,
  List, [], ◌∷◌, ◌++◌, map, if◌then◌else◌, ◌==◌, leb, ltb, str_eq, any, find, select, points_to,
  is_empty, is_some, trim_space, format_uint, In, ◌↔◌,
}
use request_system.Entities.{User, Status, Attachment}
use request_system.Entities
use request_system.Errors.{Error, Result, ok, err}
use request_system.Orders.Metrics.{ℤ, pos, negsuc, negate}
use request_system.Orders.Requests.{AttachmentResponse}
use request_system.Orders.Timeline.Names.{Reads, Namer, Lookup, cached_name, give, ◌>>=◌}
use request_system.Orders.Timeline.Lines.{
  Row, Item, Clock, ShortUser, null_text, is_event, actor_from_event, line_for_event,
}

-- What the queries read. ORDER BY leaves the order of rows with one time open.
pub record Tables : Type 0 where
  pub rows : List Row
  pub statuses : List Status
  pub attachments : List Attachment
  pub users : List User
  pub by_time : List Row → List Row
  pub by_time_In : (rows : List Row) (r : Row) → In r (by_time rows) ↔ In r rows
  pub history_fault : Option Error
  pub users_fault : Option Error

abbrev same_text : Option String → String → Bool
same_text none t = false
same_text (some s) t = str_eq s t

abbrev name_of : Option Status → Option String
name_of none = none
name_of (some s) = some s.name

abbrev empty_file : ℕ → Attachment
empty_file n = record { id = n; order_id = 0; user_id = 0; file_name = ""; file_path = "" }

abbrev file_of : ℕ → Option Attachment → Attachment
file_of n none = empty_file n
file_of n (some a) = record (empty_file n) { file_name = a.file_name; file_path = a.file_path }

-- A row with what the two joins add to it.
unfoldable pub item_of : Tables → Row → Item
item_of t r = record {
  row = r;
  new_status_name =
      if is_event Entities.status_change r.event
      then name_of (find (λ (s : Status). same_text r.new_value (format_uint s.id)) t.statuses)
      else none;
  attachment = elim r.attachment_id [
    | none ↦ none
    | some n ↦ some (file_of n (find (λ (a : Attachment). a.id == n) t.attachments))
  ];
}

-- `FindByOrderID`.
unfoldable pub find_by_order_id : Tables → ℕ → ℕ → ℕ → Result (List Item)
unfolding item_of
find_by_order_id t order_id limit offset = elim t.history_fault [
  | some e ↦ err e
  | none ↦ ok (
      map (item_of t) (
        take limit (drop offset (t.by_time (select (λ (r : Row). r.order_id == order_id) t.rows)))))
]

-- `strconv.Atoi` with its error dropped: 0 for what is no number, the nearest int for what does not
-- fit.
digits_value : ℕ → String → Option ℕ
digits_value acc String.[] = some acc
digits_value acc (String.◌∷◌ c s) =
    let next = acc * 10 + (code c - b'0') in
    let rest = digits_value next s in
    if leb b'0' (code c) && leb (code c) b'9'
    then (if ltb next (2 ^ 64) then rest else some (2 ^ 64 - 1))
    else none

abbrev signed : Bool → Option ℕ → ℤ
signed negative none = pos 0
signed false (some n) = pos (if ltb n (2 ^ 63) then n else 2 ^ 63 - 1)
signed true (some n) = negate (if leb n (2 ^ 63) then n else 2 ^ 63)

abbrev unsigned : String → Option ℕ
unsigned s = if is_empty s then none else digits_value 0 s

unfoldable pub atoi : String → ℤ
unfolding digits_value
atoi String.[] = pos 0
atoi (String.◌∷◌ c s) =
    if code c == b'-'
    then signed true (unsigned s)
    else if code c == b'+'
    then signed false (unsigned s)
    else signed false (digits_value 0 (String.◌∷◌ c s))

abbrev pub page_limit : ℤ → ℕ
page_limit (pos n) = if n == 0 || ltb 200 n then 200 else n
page_limit (negsuc n) = 200

abbrev pub page_offset : ℤ → ℕ
page_offset (pos n) = n
page_offset (negsuc n) = 0

abbrev seen_user : ℕ → List ℕ → Bool
seen_user n = any λ m. m == n

abbrev unique_from : List ℕ → List Item → List ℕ
unique_from seen [] = []
unique_from seen (i ∷ rest) =
    let n = i.row.user_id in
    let later = unique_from (if seen_user n seen then seen else n ∷ seen) rest in
    if seen_user n seen then later else n ∷ later

-- `uniqueHistoryUserIDs`.
unfoldable pub unique_history_user_ids : List Item → List ℕ
unique_history_user_ids = unique_from []

-- The map of users that `newHistoryReferenceResolver` loads first; a fault leaves it empty.
unfoldable pub preloaded_users : Tables → List Item → ℕ → Option User
unfolding unique_history_user_ids
preloaded_users t items n =
    if is_some t.users_fault || not (seen_user n (unique_history_user_ids items))
    then none
    else find (λ (u : User). u.id == n) t.users

-- `TimelineEventDTO`, less the role, which nothing sets.
pub record Block : Type 0 where
  pub lines : List String
  pub comment : Option String
  pub actor : ShortUser
  pub created_at : String
  pub attachment : Option AttachmentResponse

abbrev pub add_line : String → Block → Block
add_line line b = if is_empty line then b else record b { lines = b.lines ++ (line ∷ []) }

abbrev pub comment_of : Row → String
comment_of r = trim_space (null_text r.comment)

abbrev pub add_comment : String → Block → Block
add_comment text b = if is_empty text then b else record b { comment = some text }

abbrev pub attachment_link : Attachment → AttachmentResponse
attachment_link a = record {
  id = a.id;
  file_name = a.file_name;
  url = concat "/uploads/" a.file_path;
}

abbrev with_attachment : Option Attachment → Block → Block
with_attachment none b = b
with_attachment (some a) b = record b { attachment = some (attachment_link a) }

-- What `lineForEvent` sets in the block.
abbrev pub note_attachment : Item → Block → Block
note_attachment i b =
    if is_event Entities.attachment_add i.row.event then with_attachment i.attachment b else b

-- `isSameTransaction`.
abbrev pub same_transaction : Item → Item → Bool
same_transaction a b = elim a.row.tx_id [ none ↦ false | some n ↦ points_to b.row.tx_id n ]

module _ {S : Type 0} (name : Namer S) (clock : Clock) (users : ℕ → Option User)
    (items : List Item) where
  -- `createTimelineBlock`.
  unfoldable pub create_timeline_block : Item → Block
  unfolding actor_from_event
  create_timeline_block i = record {
    lines = [];
    comment = none;
    actor = actor_from_event users items i.row;
    created_at = clock.show_block i.row.created_at;
    attachment = none;
  }

  -- `addEventToBlock`, up to its unconditional return.
  unfoldable pub add_event_to_block : Block → Item → Reads S Block
  unfolding line_for_event ◌>>=◌
  add_event_to_block b i =
      if is_event Entities.comment i.row.event
      then give (add_comment (comment_of i.row) b)
      else line_for_event name clock i i.row.event >>= λ line.
          give (add_line line (note_attachment i b))

  -- The loop, with the current block and the event before.
  unfoldable pub blocks_from : Block → Item → List Item → Reads S (List Block)
  unfolding add_event_to_block create_timeline_block
  blocks_from current previous [] = give (current ∷ [])
  blocks_from current previous (i ∷ rest) =
      let same = same_transaction i previous in
      add_event_to_block (if same then current else create_timeline_block i) i >>= λ b.
      blocks_from b i rest >>= λ bs. give (if same then bs else current ∷ bs)

  unfoldable pub timeline_of : List Item → Reads S (List Block)
  unfolding blocks_from
  timeline_of [] = give []
  timeline_of (i ∷ rest) =
      add_event_to_block (create_timeline_block i) i >>= λ b. blocks_from b i rest

module _ (clock : Clock) (find_name : Lookup) (t : Tables) where
  abbrev pub read_timeline : Result (List Item) → Result (List Block)
  read_timeline (err e) = err e
  read_timeline (ok items) =
      ok (timeline_of (cached_name find_name) clock (preloaded_users t items) items items []).0

  -- `GetTimelineByOrderID`: the resolver starts with nothing looked up.
  unfoldable pub get_timeline_by_order_id : ℕ → String → String → Result (List Block)
  unfolding find_by_order_id timeline_of atoi preloaded_users cached_name
  get_timeline_by_order_id order_id limit offset =
      read_timeline
        (find_by_order_id t order_id (page_limit (atoi limit)) (page_offset (atoi offset)))
