-- ===== src/Orders/Timeline/Texts.antt =====
-- The text of a change of structure, with the names in place of the ids:
-- `humanizeHistoryStructureComment` of internal/services/order_history.go and its helpers.
use Prim.Native.Char.{Char, code}
use Prim.Native.String.{◌++◌ as concat}
use request_system.Common.{
  ℕ, String, ◌&&◌, ◌||◌, not, Option, none, some, List, [], ◌∷◌, if◌then◌else◌, ◌==◌, str_eq,
  is_empty, trim_space, split_on, parse_uint, join,
}
use request_system.Orders.Timeline.Names.{
  Kind, department, otdel, branch, office, Reads, Namer, give, ◌>>=◌,
}

-- `strings.TrimPrefix`, `none` where the text has another beginning.
pub strip_prefix : String → String → Option String
strip_prefix String.[] s = some s
strip_prefix (String.◌∷◌ p ps) String.[] = none
strip_prefix (String.◌∷◌ p ps) (String.◌∷◌ c s) =
    let rest = strip_prefix ps s in if code p == code c then rest else none

abbrev put_before : Char → Option (String × String) → Option (String × String)
put_before c none = none
put_before c (some (a, b)) = some (String.◌∷◌ c a, b)

abbrev split_here : Option String → Option (String × String) → Option (String × String)
split_here (some after) later = some ("", after)
split_here none later = later

-- `strings.SplitN(s, separator, 2)`, `none` where there is one part only.
pub split_once : String → String → Option (String × String)
unfolding strip_prefix
split_once separator String.[] = split_here (strip_prefix separator "") none
split_once separator (String.◌∷◌ c s) =
    let rest = split_once separator s in
    split_here (strip_prefix separator (String.◌∷◌ c s)) (put_before c rest)

abbrev first_split : Option (String × String) → Option (String × String) → Option (String × String)
first_split (some p) q = some p
first_split none q = q

-- `splitHistoryStructureTransition`. The third arrow is the first one, read in a wrong encoding.
unfoldable pub split_transition : String → Option (String × String)
unfolding split_once
split_transition raw =
    first_split (split_once "→" raw) (first_split (split_once "->" raw) (split_once "в†’" raw))

-- `historyStructureFieldLabel`, with the table of the field.
unfoldable pub structure_field : String → Option (String × Kind)
structure_field field =
    if str_eq field "department_id"
    then some ("департамент", department)
    else if str_eq field "otdel_id"
    then some ("отдел", otdel)
    else if str_eq field "branch_id"
    then some ("филиал", branch)
    else if str_eq field "office_id"
    then some ("офис", office)
    else none

abbrev pub quoted : String → String
quoted name = concat "«" (concat name "»")

module _ {S : Type 0} (name : Namer S) where
  abbrev pub known_name : String → String → Reads S String
  known_name raw found =
      give (if is_empty (trim_space found) then raw else quoted (trim_space found))

  abbrev pub resolved_id : Kind → String → Option ℕ → Reads S String
  resolved_id k raw none = give raw
  resolved_id k raw (some id) = name k id >>= known_name raw

  -- `resolveHistoryStructureValue`: its flag is true on every way out.
  unfoldable pub resolve_value : Kind → String → Reads S String
  unfolding ◌>>=◌
  resolve_value k raw =
      if is_empty (trim_space raw) || str_eq (trim_space raw) "—"
      then give ""
      else resolved_id k (trim_space raw) (parse_uint (trim_space raw))

  abbrev pub transition_text : String → String → String → String
  transition_text label old new =
      if not (is_empty old) && not (is_empty new)
      then concat label (concat ": " (concat old (concat " → " new)))
      else if not (is_empty new)
      then concat label (concat ": " new)
      else if not (is_empty old)
      then concat label (concat ": " (concat old " → —"))
      else label

  -- The part behind the colon, as a single value or as a transition.
  abbrev pub humanize_value : String → Kind → String → Option (String × String) → Reads S String
  humanize_value label k transition none =
      resolve_value k transition >>= λ value. give (concat label (concat ": " value))
  humanize_value label k transition (some (old, new)) =
      resolve_value k old >>= λ o. resolve_value k new >>= λ n. give (transition_text label o n)

  abbrev pub humanize_field : String → String → Option (String × Kind) → Reads S String
  humanize_field part value none = give part
  humanize_field part value (some (label, k)) =
      humanize_value label k (trim_space value) (split_transition (trim_space value))

  abbrev pub humanize_split : String → Option (String × String) → Reads S String
  humanize_split part none = give part
  humanize_split part (some (field, value)) =
      humanize_field part value (structure_field (trim_space field))

  -- `humanizeHistoryStructurePart`.
  unfoldable pub humanize_part : String → Reads S String
  unfolding resolve_value split_transition structure_field split_once
  humanize_part part =
      if is_empty (trim_space part)
      then give ""
      else humanize_split (trim_space part) (split_once ":" (trim_space part))

  abbrev pub keep_part : String → List String → List String
  keep_part part rest = if is_empty part then rest else part ∷ rest

  -- The loop over the parts.
  unfoldable pub humanize_parts : List String → Reads S (List String)
  unfolding humanize_part
  humanize_parts [] = give []
  humanize_parts (part ∷ rest) =
      humanize_part part >>= λ p. humanize_parts rest >>= λ ps. give (keep_part p ps)

  abbrev pub structure_prefix : String
  structure_prefix = "Смена структуры:"

  abbrev pub rejoin : String → List String → String
  rejoin comment [] = comment
  rejoin comment (p ∷ ps) = concat structure_prefix (concat " " (join "; " (p ∷ ps)))

  abbrev pub humanize_body : String → Option String → Reads S String
  humanize_body comment none = give comment
  humanize_body comment (some body) =
      if is_empty (trim_space body)
      then give comment
      else humanize_parts (split_on b';' (trim_space body)) >>= λ ps. give (rejoin comment ps)

  -- `humanizeHistoryStructureComment`.
  unfoldable pub humanize_comment : String → Reads S String
  unfolding humanize_parts strip_prefix
  humanize_comment comment =
      humanize_body (trim_space comment) (strip_prefix structure_prefix (trim_space comment))
