-- ===== src/Orders/Listing/Filters.antt =====
-- What a request asks of the list: `types.Filter`, the conditions that it leads to in
-- internal/repositories/order-repository.go, and `ApplyListParams` of internal/infrastructure/bd.
use request_system.Common.{
  take, drop, ℕ, String, Bool, true, false, not, Option, none, some, List, [], ◌∷◌, ◌++◌, map,
  if◌then◌else◌, ◌==◌, str_eq, is_empty, any, select, split_on, In, ◌↔◌, codes, codes_eq, to_lower,
  contains,
}
use request_system.Entities.{Order}
use request_system.Orders.Patch.{Value, text, flag, Fields, lookup, null}

-- `types.Filter`. A limit or an offset that is not positive is 0 here: both mean that there is none.
pub record Filter : Type 0 where
  pub search : String
  pub sort : List (String × String)
  pub filter : Fields
  pub limit : ℕ
  pub offset : ℕ
  pub with_pagination : Bool
  pub include_attachments : Bool

-- A condition of the WHERE clause that a filter leads to.
pub data Where : Type 0 where
  equals_any : String → List Value → Where
  at_least : String → Value → Where
  at_most : String → Value → Where
  overdue : Where
  search_for : String → Where

-- What the database does with them: it tests a row, and sorts rows by columns, ascending where the
-- flag is true. Sorting neither adds rows nor loses any.
pub record Dbms : Type 0 where
  pub test : Where → Order → Bool
  pub arrange : List (String × Bool) → List Order → List Order
  pub arrange_In :
      (ks : List (String × Bool)) (rows : List Order) (o : Order)
      → In o (arrange ks rows) ↔ In o rows

-- `orderMap`: the columns that a filter may name.
abbrev order_map : List (String × String)
order_map =
    ("id", "o.id")
    ∷ ("name", "o.name")
    ∷ ("status_id", "o.status_id")
    ∷ ("priority_id", "o.priority_id")
    ∷ ("department_id", "o.department_id")
    ∷ ("branch_id", "o.branch_id")
    ∷ ("otdel_id", "o.otdel_id")
    ∷ ("office_id", "o.office_id")
    ∷ ("executor_id", "o.executor_id")
    ∷ ("creator_id", "o.user_id")
    ∷ ("user_id", "o.user_id")
    ∷ ("created_at", "o.created_at")
    ∷ ("updated_at", "o.updated_at")
    ∷ ("order_type_id", "o.order_type_id")
    ∷ ("address", "o.address")
    ∷ ("duration", "o.duration")
    ∷ ("equipment_id", "o.equipment_id")
    ∷ ("equipment_type_id", "o.equipment_type_id")
    ∷ []

abbrev column_of : String → List (String × String) → Option String
column_of key [] = none
column_of key ((k, c) ∷ rest) = if str_eq k key then some c else column_of key rest

-- A text with commas is a list of values.
abbrev values_of : Value → List Value
values_of (text s) =
    if contains (codes s) (codes ",") then map text (split_on b',' s) else text s ∷ []
values_of v = v ∷ []

abbrev where_column : Option String → Value → List Where
where_column none v = []
where_column (some column) v = equals_any column (values_of v) ∷ []

-- The first loop of `ApplyListParams`.
unfoldable pub filter_conditions : Fields → List Where
filter_conditions [] = []
filter_conditions ((key, v) ∷ rest) =
    where_column (column_of key order_map) v ++ filter_conditions rest

abbrev sort_column : Option String → String → List (String × Bool)
sort_column none direction = []
sort_column (some column) direction =
    (column, not (codes_eq (to_lower (codes direction)) (codes "desc"))) ∷ []

-- The second loop.
unfoldable pub sort_columns : List (String × String) → List (String × Bool)
sort_columns [] = []
sort_columns ((key, direction) ∷ rest) =
    sort_column (column_of key order_map) direction ++ sort_columns rest

abbrev pub special_keys : List String
special_keys = "duration_from" ∷ "duration_to" ∷ "created_from" ∷ "created_to" ∷ "overdue" ∷ []

-- `delete` of the special keys.
abbrev plain_filter : Fields → Fields
plain_filter fields = select (λ f. not (any (λ k. str_eq k f.0) special_keys)) fields

-- A value that is there and is not nil.
abbrev with_value : Option Value → (Value → Where) → List Where
with_value none make = []
with_value (some null) make = []
with_value (some v) make = make v ∷ []

abbrev is_true : Option Value → Bool
is_true (some (flag b)) = b
is_true (some (text s)) = str_eq s "true"
is_true _ = false

-- `applySpecials`.
unfoldable pub special_conditions : Fields → List Where
special_conditions fields =
    with_value (lookup "duration_from" fields) (at_least "o.duration")
    ++ with_value (lookup "duration_to" fields) (at_most "o.duration")
    ++ with_value (lookup "created_from" fields) (at_least "o.created_at")
    ++ with_value (lookup "created_to" fields) (at_most "o.created_at")
    ++ (if is_true (lookup "overdue" fields) then overdue ∷ [] else [])

-- `applySearch`, the specials and the filters, as one conjunction.
unfoldable pub where_clause : Filter → List Where
unfolding filter_conditions special_conditions
where_clause f =
    (if is_empty f.search then [] else search_for f.search ∷ [])
    ++ special_conditions f.filter
    ++ filter_conditions (plain_filter f.filter)

abbrev no_columns : List (String × String) → Bool
no_columns [] = true
no_columns (c ∷ cs) = false

-- `o.created_at DESC` where the request names no column.
unfoldable pub order_columns : Filter → List (String × Bool)
unfolding sort_columns
order_columns f = if no_columns f.sort then ("o.created_at", false) ∷ [] else sort_columns f.sort

abbrev pub paged {ℓ} : {A : Type ℓ} → Filter → List A → List A
paged f rows =
    if f.with_pagination
    then (let rest = drop f.offset rows in if f.limit == 0 then rest else take f.limit rest)
    else rows
