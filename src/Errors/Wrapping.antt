-- ===== src/Errors/Wrapping.antt =====
-- What `WrapDBError` makes of an error.
use request_system.Common.{
  ℕ, String, Bool, true, false, ◌&&◌, ◌||◌, not, Option, none, some, List, [], ◌∷◌, ◌≡◌, refl, ◌⊎◌,
  inl, inr, arith, ap, ◌==◌, str_eq, codes, codes_eq, has_prefix, contains, to_lower, trim_space,
  if◌then◌else◌,
}
use request_system.Errors.{
  PgError, Error, http, driver, panic, Spec, is_no_changes, exact_constraint_specs,
  prefix_constraint_specs, find_constraint_spec, find_exact, find_prefix, or_prefix, map_sql_state,
  map_postgres_error, map_db_error_by_text, new_db_http_error, or_else, or_text, wrap_db_error,
}

-- An answer for the client: one of three statuses, and not the error that an update without changes
-- ends with.
abbrev is_answer : Error → Bool
is_answer (http code message) =
    (code == 400 || code == 409 || code == 500) && not (is_no_changes (http code message))
is_answer (driver text pg) = false
is_answer panic = false

abbrev Answers : Option Error → Type 0
Answers none = Unit {0}
Answers (some e) = is_answer e ≡ true

abbrev AnswersSpec : Option Spec → Type 0
AnswersSpec none = Unit {0}
AnswersSpec (some spec) = is_answer (new_db_http_error spec) ≡ true

abbrev all_answer : List (String × Spec) → Bool
all_answer [] = true
all_answer ((key, spec) ∷ rest) = is_answer (new_db_http_error spec) && all_answer rest

module _ (a b : Bool) where
  &&-left : (a && b) ≡ true → a ≡ true
  &&-left h = ground arith

  &&-right : (a && b) ≡ true → b ≡ true
  &&-right h = ground arith

if-Answers : (b : Bool) (x y : Option Error) → Answers x → Answers y → Answers (if b then x else y)
if-Answers true x y p q = p
if-Answers false x y p q = q

if-AnswersSpec :
    (b : Bool) (x y : Option Spec)
    → AnswersSpec x
    → AnswersSpec y
    → AnswersSpec (if b then x else y)
if-AnswersSpec true x y p q = p
if-AnswersSpec false x y p q = q

module _ (name : List ℕ) where
  find_exact-Answers :
      (table : List (String × Spec)) → all_answer table ≡ true → AnswersSpec (find_exact name table)
  unfolding find_exact
  find_exact-Answers [] h = tt
  find_exact-Answers ((key, spec) ∷ rest) h =
      if-AnswersSpec (codes_eq name (codes key)) _ _ (&&-left _ _ h)
        (find_exact-Answers rest (&&-right _ _ h))

  find_prefix-Answers :
      (table : List (String × Spec))
      → all_answer table ≡ true
      → AnswersSpec (find_prefix name table)
  unfolding find_prefix
  find_prefix-Answers [] h = tt
  find_prefix-Answers ((key, spec) ∷ rest) h =
      if-AnswersSpec (has_prefix name (codes key)) _ _ (&&-left _ _ h)
        (find_prefix-Answers rest (&&-right _ _ h))

  or_prefix-Answers : (x : Option Spec) → AnswersSpec x → AnswersSpec (or_prefix name x)
  unfolding or_prefix
  or_prefix-Answers (some spec) h = h
  or_prefix-Answers none h = find_prefix-Answers prefix_constraint_specs refl

find_constraint_spec-Answers : (name : String) → AnswersSpec (find_constraint_spec name)
unfolding find_constraint_spec
find_constraint_spec-Answers name =
    let normalized = to_lower (codes (trim_space name)) in
    if-AnswersSpec (codes_eq normalized []) none _ tt (
      or_prefix-Answers normalized (find_exact normalized exact_constraint_specs)
        (find_exact-Answers normalized exact_constraint_specs refl))

map_sql_state-Answers : (code : String) → Answers (map_sql_state code)
unfolding map_sql_state
map_sql_state-Answers code = if-Answers (str_eq code "23502") _ _ refl (
    if-Answers (str_eq code "22001") _ _ refl
      (if-Answers (str_eq code "23503") _ _ refl (if-Answers (str_eq code "23505") _ none refl tt)))

spec_or-Answers :
    (x : Option Spec) (y : Option Error)
    → AnswersSpec x
    → Answers y
    → Answers (elim x [ none ↦ y | some spec ↦ some (new_db_http_error spec) ])
spec_or-Answers none y p q = q
spec_or-Answers (some spec) y p q = p

map_postgres_error-Answers : (e : PgError) → Answers (map_postgres_error e)
unfolding map_postgres_error
map_postgres_error-Answers e =
    spec_or-Answers (find_constraint_spec e.constraint_name) (map_sql_state e.code)
      (find_constraint_spec-Answers e.constraint_name) (map_sql_state-Answers e.code)

map_db_error_by_text-Answers : (text : String) → Answers (map_db_error_by_text text)
unfolding map_db_error_by_text
map_db_error_by_text-Answers text =
    let message = to_lower (codes text) in
    if-Answers (contains message (codes "foreign key constraint")) _ _ refl (
      if-Answers (contains message (codes "unique constraint") || contains message (codes "23505"))
        _ _ refl
        (if-Answers
          (contains message (codes "null value in column") || contains message (codes "23502")) _ _
          refl
          (if-Answers
            (contains message (codes "value too long") || contains message (codes "22001")) _ _ refl
            (if-Answers
              (contains message (codes "connection refused")
                || contains message (codes "no connection"))
              _ none refl tt))))

or_else-Answers :
    (x : Option Error) (e : Error)
    → Answers x
    → (or_else x e ≡ e) ⊎ (is_answer (or_else x e) ≡ true)
or_else-Answers none e h = inl refl
or_else-Answers (some mapped) e h = inr h

or_text-Answers :
    (text : String) (pg : Option PgError) (x : Option Error)
    → Answers x
    → (or_text text pg x ≡ driver text pg) ⊎ (is_answer (or_text text pg x) ≡ true)
unfolding or_text
or_text-Answers text pg (some mapped) h = inr h
or_text-Answers text pg none h =
    or_else-Answers (map_db_error_by_text text) (driver text pg) (map_db_error_by_text-Answers text)

-- An error of the database is passed on as it is, or becomes an answer with the status 400, 409 or
-- 500 that is never mistaken for an update without changes.
wrap_db_error_answers :
    (text : String) (pg : Option PgError)
    → (wrap_db_error (driver text pg) ≡ driver text pg)
      ⊎ (is_answer (wrap_db_error (driver text pg)) ≡ true)
unfolding wrap_db_error
wrap_db_error_answers text none = or_text-Answers text none none tt
wrap_db_error_answers text (some pg) =
    or_text-Answers text (some pg) (map_postgres_error pg) (map_postgres_error-Answers pg)

answer_kept : (e : Error) → is_answer e ≡ true → wrap_db_error e ≡ e
unfolding wrap_db_error
answer_kept (http code message) h = refl
answer_kept (driver text pg) h = cc
answer_kept panic h = cc

-- Wrapping an error twice, as the repositories and then the transaction do, is wrapping it once.
pub wrap_db_error_idempotent : (e : Error) → wrap_db_error (wrap_db_error e) ≡ wrap_db_error e
unfolding wrap_db_error
wrap_db_error_idempotent (http code message) = refl
wrap_db_error_idempotent panic = refl
wrap_db_error_idempotent (driver text pg) = elim (wrap_db_error_answers text pg) [
  | inl e ↦ ap wrap_db_error e
  | inr h ↦ answer_kept (wrap_db_error (driver text pg)) h
]
