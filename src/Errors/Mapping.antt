-- ===== src/Errors/Mapping.antt =====
-- Which answer `WrapDBError` of pkg/errors/errors.go gives to which error of the database.
use text.Mathlib.TextEquality.{eq_iff}
use request_system.Common.{
  ℕ, String, Bool, true, false, ◌&&◌, Option, none, some, List, [], ◌∷◌, ◌≡◌, refl, ◌∙◌, inl, inr,
  arith, ap, ◌==◌, str_eq, codes, codes_eq, has_prefix, contains, to_lower, if◌then◌else◌, all, In,
}
use request_system.Errors.{
  PgError, Error, http, driver, panic, Spec, exact_constraint_specs, prefix_constraint_specs,
  map_sql_state, map_postgres_error, map_db_error_by_text, new_db_http_error, or_text,
  wrap_db_error,
}
use request_system.Errors.Constraints.{
  normalized, NoExact, Unknown, all-In, exact_spec, prefix_spec, find_constraint_spec-Unknown,
}

-- The SQLSTATEs that have an answer of their own.
abbrev pub sql_messages : List (String × String)
sql_messages =
    ("22001", "Одно из полей содержит слишком длинное значение.")
    ∷ ("23502", "Не заполнено обязательное поле.")
    ∷ ("23503", "Один из выбранных элементов был удалён. Обновите страницу.")
    ∷ ("23505", "Такая запись уже существует.")
    ∷ []

-- What the text of an error may contain, the first that does counting.
abbrev pub text_answers : List (String × Error)
text_answers =
    (
      "foreign key constraint",
      http 400 "Один из выбранных элементов был удалён. Обновите страницу.",
    )
    ∷ ("unique constraint", http 400 "Такая запись уже существует.")
    ∷ ("23505", http 400 "Такая запись уже существует.")
    ∷ ("null value in column", http 400 "Не заполнено обязательное поле.")
    ∷ ("23502", http 400 "Не заполнено обязательное поле.")
    ∷ ("value too long", http 400 "Одно из полей содержит слишком длинное значение.")
    ∷ ("22001", http 400 "Одно из полей содержит слишком длинное значение.")
    ∷ ("connection refused", http 500 "Ошибка соединения с базой данных. Попробуйте позже.")
    ∷ ("no connection", http 500 "Ошибка соединения с базой данных. Попробуйте позже.")
    ∷ []

abbrev pub first_answer : Error → List ℕ → List (String × Error) → Error
first_answer e message [] = e
first_answer e message ((fragment, answer) ∷ rest) =
    let later = first_answer e message rest in
    if contains message (codes fragment) then answer else later

-- The answer by the text of an error alone, which is the error itself where nothing fits.
abbrev pub by_text : String → Option PgError → Error
by_text text pg = first_answer (driver text pg) (to_lower (codes text)) text_answers

abbrev is_bad_request : Option Error → String → Bool
is_bad_request (some (http status message)) wanted = status == 400 && str_eq message wanted
is_bad_request _ wanted = false

is_bad_request-eq :
    (x : Option Error) (wanted : String)
    → is_bad_request x wanted ≡ true
    → x ≡ some (http 400 wanted)
is_bad_request-eq (some (http status message)) wanted h =
    let same : str_eq message wanted ≡ true = ground arith in
    let code : status ≡ 400 = ground arith in
    ap (λ n. some (http n message)) code
    ∙ ap (λ m. some (http 400 m)) ((eq_iff message wanted).0 same)
is_bad_request-eq (some (driver text pg)) wanted h = cc
is_bad_request-eq (some panic) wanted h = cc
is_bad_request-eq none wanted h = cc

each_answered :
    all (λ (e : String × String). is_bad_request (map_sql_state e.0) e.1) sql_messages ≡ true
unfolding map_sql_state
each_answered = refl

sql_found :
    (code : String) (e : String × String)
    → In e sql_messages
    → str_eq code e.0 ≡ true
    → map_sql_state code ≡ some (http 400 e.1)
sql_found code e m h =
    ap map_sql_state ((eq_iff code e.0).0 h)
    ∙ is_bad_request-eq (map_sql_state e.0) e.1 (
        all-In (λ (x : String × String). is_bad_request (map_sql_state x.0) x.1) sql_messages e
          each_answered m)

sql_unknown :
    (code : String)
    → ((e : String × String) → In e sql_messages → str_eq code e.0 ≡ false)
    → map_sql_state code ≡ none
unfolding map_sql_state
sql_unknown code h =
    let a = h _ (inl refl) in
    let b = h _ (inr (inl refl)) in
    let c = h _ (inr (inr (inl refl))) in let d = h _ (inr (inr (inr (inl refl)))) in ground arith

mapped : (text : String) (pg : PgError) (e : Error) → or_text text (some pg) (some e) ≡ e
unfolding or_text
mapped text pg e = refl

text_found : (text : String) (pg : Option PgError) → or_text text pg none ≡ by_text text pg
unfolding or_text map_db_error_by_text
text_found text pg = let message = to_lower (codes text) in ground arith

-- An error of the database that is wrapped becomes the answer of its constraint, by its name or else
-- by the prefix of its name, in whatever case the name comes; without a known constraint that of its
-- SQLSTATE; without either that of the first fragment that its text contains; and it stays itself
-- where nothing of this fits. An error that is not PostgreSQL's own goes by its text alone.
pub wrap_db_error_maps :
    (text : String) (pg : PgError)
    → let name = normalized pg.constraint_name in
      let answer = wrap_db_error (driver text (some pg)) in
      ((e : String × Spec)
        → In e exact_constraint_specs
        → codes_eq name (codes e.0) ≡ true
        → answer ≡ new_db_http_error e.1)
      × ((e : String × Spec)
          → NoExact name
          → In e prefix_constraint_specs
          → has_prefix name (codes e.0) ≡ true
          → answer ≡ new_db_http_error e.1)
      × ((e : String × String)
          → Unknown name
          → In e sql_messages
          → str_eq pg.code e.0 ≡ true
          → answer ≡ http 400 e.1)
      × (Unknown name
          → ((e : String × String) → In e sql_messages → str_eq pg.code e.0 ≡ false)
          → answer ≡ by_text text (some pg))
      × (wrap_db_error (driver text none) ≡ by_text text none)
unfolding wrap_db_error map_postgres_error
wrap_db_error_maps text pg =
    let state = map_sql_state pg.code in
    let wrap = or_text text (some pg) in
    (
      λ e m h.
          ap wrap (exact_spec pg.constraint_name state e m h)
          ∙ mapped text pg (new_db_http_error e.1),
      λ e n m h.
          ap wrap (prefix_spec pg.constraint_name state e n m h)
          ∙ mapped text pg (new_db_http_error e.1),
      λ e u m h.
          ap wrap
            (find_constraint_spec-Unknown pg.constraint_name state u ∙ sql_found pg.code e m h)
          ∙ mapped text pg (http 400 e.1),
      λ u h.
          ap wrap (find_constraint_spec-Unknown pg.constraint_name state u ∙ sql_unknown pg.code h)
          ∙ text_found text (some pg),
      text_found text none,
    )
