-- ===== src/Errors.antt =====
-- pkg/errors/errors.go: the errors that the services return. `http` is an `*HttpError` with its
-- status and message, `driver` an error of the database, the cache or the file system with its text,
-- `panic` a run-time panic, such as a dereference of nil.
pub mod Wrapping
pub mod Constraints
pub mod Mapping
use request_system.Common.{
  ℕ, String, Bool, true, false, ◌&&◌, ◌||◌, ◌==◌, str_eq, Option, none, some, List, [], ◌∷◌, codes,
  to_lower, codes_eq, has_prefix, contains, trim_space, if◌then◌else◌, is_empty,
}

-- `*pgconn.PgError`: its SQLSTATE and its constraint.
pub record PgError : Type 0 where
  pub code : String
  pub constraint_name : String

pub data Error : Type 0 where
  http : ℕ → String → Error
  driver : String → Option PgError → Error
  panic : Error

abbrev pub new_bad_request_error : String → Error
new_bad_request_error message = http 400 message

abbrev pub err_unauthorized : Error
err_unauthorized = http 401 "Необходима авторизация"

abbrev pub err_forbidden : Error
err_forbidden = http 403 "Доступ запрещен"

abbrev pub err_not_found : Error
err_not_found = http 404 "Запрашиваемый ресурс не найден"

abbrev pub err_user_not_found : Error
err_user_not_found = http 404 "Пользователь не найден"

abbrev pub err_internal_server : Error
err_internal_server = http 500 "Внутренняя ошибка сервера"

abbrev pub err_no_changes : Error
err_no_changes = http 400 "Нет изменений в запросе"

-- `errors.Is(err, apperrors.ErrNoChanges)`: no other error carries that message.
abbrev pub is_no_changes : Error → Bool
is_no_changes (http code message) = code == 400 && str_eq message "Нет изменений в запросе"
is_no_changes _ = false

pub data Result {ℓ} (A : Type ℓ) : Type ℓ where
  ok : A → Result A
  err : Error → Result A

abbrev pub is_ok {ℓ} : {A : Type ℓ} → Result A → Bool
is_ok (ok a) = true
is_ok (err e) = false

pub record Spec : Type 0 where
  pub status_code : ℕ
  pub message : String

abbrev pub exact_constraint_specs : List (String × Spec)
exact_constraint_specs =
    (
      "fk_orders_status_id",
      record { status_code = 400; message = "Выбранный статус был удалён. Обновите страницу." },
    )
    ∷ (
      "fk_orders_priority_id",
      record { status_code = 400; message = "Выбранный приоритет был удалён. Обновите страницу." },
    )
    ∷ (
      "fk_orders_executor_id",
      record { status_code = 400; message = "Выбранный исполнитель не найден. Обновите страницу." },
    )
    ∷ (
      "fk_orders_department_id",
      record { status_code = 400; message = "Выбранный департамент не найден. Обновите страницу." },
    )
    ∷ (
      "fk_orders_branch_id",
      record { status_code = 400; message = "Выбранный филиал не найден. Обновите страницу." },
    )
    ∷ (
      "fk_orders_otdel_id",
      record { status_code = 400; message = "Выбранный отдел не найден. Обновите страницу." },
    )
    ∷ (
      "fk_orders_office_id",
      record { status_code = 400; message = "Выбранный офис не найден. Обновите страницу." },
    )
    ∷ (
      "fk_orders_order_type_id",
      record { status_code = 400; message = "Выбранный тип заявки не найден. Обновите страницу." },
    )
    ∷ (
      "fk_orders_equipment_id",
      record {
        status_code = 400;
        message = "Выбранное оборудование не найдено. Обновите страницу.";
      },
    )
    ∷ (
      "fk_orders_user_id",
      record { status_code = 400; message = "Пользователь не найден. Обновите страницу." },
    )
    ∷ (
      "fk_status_id",
      record { status_code = 400; message = "Выбранный статус не найден. Обновите страницу." },
    )
    ∷ (
      "fk_position_id",
      record { status_code = 400; message = "Выбранная должность не найдена. Обновите страницу." },
    )
    ∷ (
      "fk_users_position_id",
      record { status_code = 400; message = "Выбранная должность не найдена. Обновите страницу." },
    )
    ∷ (
      "fk_branches_id",
      record { status_code = 400; message = "Выбранный филиал не найден. Обновите страницу." },
    )
    ∷ (
      "fk_departments_id",
      record { status_code = 400; message = "Выбранный департамент не найден. Обновите страницу." },
    )
    ∷ (
      "fk_offices_id",
      record { status_code = 400; message = "Выбранный офис не найден. Обновите страницу." },
    )
    ∷ (
      "fk_otdels_id",
      record { status_code = 400; message = "Выбранный отдел не найден. Обновите страницу." },
    )
    ∷ (
      "fk_role_permissions_role_id",
      record { status_code = 400; message = "Выбранная роль не найдена." },
    )
    ∷ (
      "fk_role_permissions_permission_id",
      record { status_code = 400; message = "Выбранное право не найдено." },
    )
    ∷ (
      "fk_user_roles_role_id",
      record { status_code = 400; message = "Выбранная роль не найдена." },
    )
    ∷ (
      "fk_roles_status_id",
      record { status_code = 400; message = "Выбранный статус роли не найден." },
    )
    ∷ (
      "fk_equipment_status_id",
      record { status_code = 400; message = "Выбранный статус оборудования не найден." },
    )
    ∷ (
      "fk_equipment_equipment_type_id",
      record { status_code = 400; message = "Выбранный тип оборудования не найден." },
    )
    ∷ (
      "fk_equipment_branch_id",
      record { status_code = 400; message = "Выбранный филиал оборудования не найден." },
    )
    ∷ (
      "fk_equipment_office_id",
      record { status_code = 400; message = "Выбранный офис оборудования не найден." },
    )
    ∷ (
      "branches_name_unique",
      record { status_code = 400; message = "Филиал с таким названием уже существует." },
    )
    ∷ (
      "departments_name_unique",
      record { status_code = 400; message = "Департамент с таким названием уже существует." },
    )
    ∷ (
      "equipment_types_name_unique",
      record { status_code = 400; message = "Тип оборудования с таким названием уже существует." },
    )
    ∷ (
      "order_types_name_unique",
      record {
        status_code = 400;
        message = "Тип заявки с таким названием или кодом уже существует.";
      },
    )
    ∷ (
      "order_types_code_unique",
      record {
        status_code = 400;
        message = "Тип заявки с таким названием или кодом уже существует.";
      },
    )
    ∷ (
      "otdels_name_department_id_unique",
      record {
        status_code = 400;
        message = "Отдел с таким названием уже существует в этом департаменте.";
      },
    )
    ∷ (
      "permissions_name_key",
      record { status_code = 400; message = "Право с таким названием уже существует." },
    )
    ∷ (
      "priorities_code_unique",
      record { status_code = 400; message = "Приоритет с таким кодом уже существует." },
    )
    ∷ (
      "roles_name_key",
      record { status_code = 400; message = "Роль с таким названием уже существует." },
    )
    ∷ (
      "statuses_code_unique",
      record { status_code = 400; message = "Статус с таким кодом уже существует." },
    )
    ∷ (
      "positions_name_unique",
      record { status_code = 400; message = "Должность с таким названием уже существует." },
    )
    ∷ (
      "users_email_key",
      record { status_code = 400; message = "Пользователь с таким email уже существует." },
    )
    ∷ (
      "users_phone_number_key",
      record {
        status_code = 400;
        message = "Пользователь с таким номером телефона уже существует.";
      },
    )
    ∷ (
      "users_telegram_chat_id_unique",
      record {
        status_code = 400;
        message = "Этот Telegram аккаунт уже привязан к другому пользователю.";
      },
    )
    ∷ (
      "unique_order_type_id_in_rules",
      record {
        status_code = 400;
        message = "Правило маршрутизации для этого типа заявки уже существует.";
      },
    )
    ∷ (
      "ux_role_permissions_role_id_permission_id",
      record { status_code = 400; message = "Это право уже назначено данной роли." },
    )
    ∷ (
      "idx_users_username_unique",
      record { status_code = 409; message = "Этот логин AD уже привязан к другому пользователю." },
    )
    ∷ []

abbrev pub prefix_constraint_specs : List (String × Spec)
prefix_constraint_specs =
    (
      "idx_users_username",
      record { status_code = 409; message = "Этот логин AD уже привязан к другому пользователю." },
    )
    ∷ (
      "statuses_code",
      record { status_code = 400; message = "Статус с таким кодом уже существует." },
    )
    ∷ []

-- A lookup in the map of exact names; the keys are distinct.
find_exact : List ℕ → List (String × Spec) → Option Spec
find_exact name [] = none
find_exact name ((key, spec) ∷ rest) =
    if codes_eq name (codes key) then some spec else find_exact name rest

-- The loop over the prefixes. Its order is that of a Go map; no name has both prefixes.
find_prefix : List ℕ → List (String × Spec) → Option Spec
find_prefix name [] = none
find_prefix name ((prefix, spec) ∷ rest) =
    if has_prefix name (codes prefix) then some spec else find_prefix name rest

or_prefix : List ℕ → Option Spec → Option Spec
or_prefix name (some spec) = some spec
or_prefix name none = find_prefix name prefix_constraint_specs

pub find_constraint_spec : String → Option Spec
unfolding find_exact find_prefix or_prefix
find_constraint_spec constraint_name =
    let normalized = to_lower (codes (trim_space constraint_name)) in
    if codes_eq normalized []
    then none
    else or_prefix normalized (find_exact normalized exact_constraint_specs)

abbrev pub new_db_http_error : Spec → Error
new_db_http_error spec = http spec.status_code spec.message

-- The switch over the SQLSTATE; `none` where it returns nil.
map_sql_state : String → Option Error
map_sql_state code =
    if str_eq code "23502"
    then some (http 400 "Не заполнено обязательное поле.")
    else if str_eq code "22001"
    then some (http 400 "Одно из полей содержит слишком длинное значение.")
    else if str_eq code "23503"
    then some (http 400 "Один из выбранных элементов был удалён. Обновите страницу.")
    else if str_eq code "23505"
    then some (http 400 "Такая запись уже существует.")
    else none

map_postgres_error : PgError → Option Error
unfolding find_constraint_spec map_sql_state
map_postgres_error e = elim (find_constraint_spec e.constraint_name) [
  | some spec ↦ some (new_db_http_error spec)
  | none ↦ map_sql_state e.code
]

map_db_error_by_text : String → Option Error
map_db_error_by_text text =
    let message = to_lower (codes text) in
    if contains message (codes "foreign key constraint")
    then some (http 400 "Один из выбранных элементов был удалён. Обновите страницу.")
    else if contains message (codes "unique constraint") || contains message (codes "23505")
    then some (http 400 "Такая запись уже существует.")
    else if contains message (codes "null value in column") || contains message (codes "23502")
    then some (http 400 "Не заполнено обязательное поле.")
    else if contains message (codes "value too long") || contains message (codes "22001")
    then some (http 400 "Одно из полей содержит слишком длинное значение.")
    else if contains message (codes "connection refused")
        || contains message (codes "no connection")
    then some (http 500 "Ошибка соединения с базой данных. Попробуйте позже.")
    else none

abbrev or_else : Option Error → Error → Error
or_else (some mapped) e = mapped
or_else none e = e

or_text : String → Option PgError → Option Error → Error
unfolding map_db_error_by_text
or_text text pg (some mapped) = mapped
or_text text pg none = or_else (map_db_error_by_text text) (driver text pg)

-- A panic is no error value, and passes by.
unfoldable pub wrap_db_error : Error → Error
unfolding map_postgres_error or_text
wrap_db_error (http code message) = http code message
wrap_db_error (driver text none) = or_text text none none
wrap_db_error (driver text (some pg)) = or_text text (some pg) (map_postgres_error pg)
wrap_db_error panic = panic
