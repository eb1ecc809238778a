-- ===== src/Orders/Timeline/Transparent.antt =====
-- The resolver's memory changes no text: with it a computation reads what it reads without.
use Prim.Native.String.{◌++◌ as concat}
use request_system.Common.{
  ℕ, String, Bool, true, false, ◌&&◌, Option, none, some, List, [], ◌∷◌, if◌then◌else◌, ◌==◌, ◌≡◌,
  refl, sym, ◌∙◌, ap, arith, inl, inr, Bool-cases, is_empty, trim_space, parse_uint,
}
use request_system.Entities.{User, EventType}
use request_system.Entities
use request_system.Orders.Timeline.Names.{
  Kind, department, otdel, branch, office, status, priority, same_kind, Seen, recall, Lookup,
  found_name, remembered, Reads, Namer, cached_name, direct_name, give, ◌>>=◌,
}
use request_system.Orders.Timeline.Texts.{
  strip_prefix, split_once, resolve_value, humanize_part, humanize_parts, humanize_comment, quoted,
  structure_prefix, keep_part, resolved_id, humanize_value, humanize_field, humanize_split,
  humanize_body,
}
use request_system.Orders.Timeline.Lines.{
  RowEvent, written, department_change, otdel_change, unknown_event, Item, Clock, is_event, id_line,
  null_text, event_line, change_line, status_line, line_for_event,
}
use request_system.Orders.Timeline.Blocks.{
  add_line, add_comment, comment_of, note_attachment, Block, add_event_to_block, blocks_from,
  timeline_of, same_transaction,
}

same_kind-eq : (a b : Kind) → same_kind a b ≡ true → a ≡ b
same_kind-eq department department h = refl
same_kind-eq otdel otdel h = refl
same_kind-eq branch branch h = refl
same_kind-eq office office h = refl
same_kind-eq status status h = refl
same_kind-eq priority priority h = refl
same_kind-eq _ _ h = cc

same_key : (a b : Kind) (n m : ℕ) → (same_kind a b && n == m) ≡ true → (a ≡ b) × (n ≡ m)
same_key a b n m h = (same_kind-eq a b (ground arith), ground arith)

module _ (find : Lookup) where
  -- What is remembered is what the repository says.
  abbrev pub Faithful : Seen → Type 0
  Faithful seen =
      (k : Kind) (id : ℕ) (name : String)
      → recall k id seen ≡ some name
      → name ≡ found_name (find k id)

  -- From any such memory the value is the one without, and the memory stays so.
  pub record Same {A : Type 0} (m : Reads Seen A) (n : Reads (Unit {0}) A) : Type 0 where
    pub at : (seen : Seen) → Faithful seen → ((m seen).0 ≡ (n tt).0) × Faithful (m seen).1

  Same-give : {A : Type 0} (a : A) → Same (give a) (give a)
  unfolding give
  Same-give a = record { at = λ seen f. (refl, f) }

  Same-bind :
      {A B : Type 0} (m : Reads Seen A) (n : Reads (Unit {0}) A) (k : A → Reads Seen B)
      (l : A → Reads (Unit {0}) B)
      → Same m n
      → ((a : A) → Same (k a) (l a))
      → Same (m >>= k) (n >>= l)
  unfolding ◌>>=◌
  Same-bind {B = B} m n k l p q = record {
    at = λ seen f.
        let (e, g) = p.at seen f in
        let (e', g') = (q (m seen).0).at (m seen).1 g in (e' ∙ ap (λ a. (l a tt).0) e, g');
  }

  Same-if :
      {A : Type 0} (b : Bool) (m m' : Reads Seen A) (n n' : Reads (Unit {0}) A)
      → Same m n
      → Same m' n'
      → Same (if b then m else m') (if b then n else n')
  Same-if true m m' n n' p q = p
  Same-if false m m' n n' p q = q

  Faithful-added :
      (seen : Seen) (k : Kind) (id : ℕ)
      → Faithful seen
      → Faithful ((k, id, found_name (find k id)) ∷ seen)
  Faithful-added seen k id f k' id' name e = elim (Bool-cases (same_kind k k' && id == id')) [
    | inl hit ↦
        let (a, b) = same_key k k' id id' hit in
        let g : some (found_name (find k id)) ≡ some name = rw hit at e in
        let h : found_name (find k id) ≡ name = cc in sym h ∙ (λ i. found_name (find (a i) (b i)))
    | inr miss ↦ f k' id' name (rw miss at e)
  ]

  remembered-Same :
      (found : Option String) (seen : Seen) (k : Kind) (id : ℕ)
      → recall k id seen ≡ found
      → Faithful seen
      → ((remembered found (found_name (find k id)) k id seen).0 ≡ found_name (find k id))
        × Faithful (remembered found (found_name (find k id)) k id seen).1
  remembered-Same none seen k id e f = (refl, Faithful-added seen k id f)
  remembered-Same (some name) seen k id e f = (f k id name e, f)

  Same-name : (k : Kind) (id : ℕ) → Same (cached_name find k id) (direct_name find k id)
  unfolding cached_name direct_name
  Same-name k id = record { at = λ seen f. remembered-Same (recall k id seen) seen k id refl f }

  abbrev c : Namer Seen
  c = cached_name find

  abbrev d : Namer (Unit {0})
  d = direct_name find

  resolved_id-Same :
      (k : Kind) (raw : String) (id : Option ℕ)
      → Same (resolved_id c k raw id) (resolved_id d k raw id)
  resolved_id-Same k raw none = Same-give raw
  resolved_id-Same k raw (some id) = Same-bind _ _ _ _ (Same-name k id) λ found. Same-give _

  resolve_value-Same :
      (k : Kind) (raw : String) → Same (resolve_value c k raw) (resolve_value d k raw)
  unfolding resolve_value
  resolve_value-Same k raw =
      Same-if _ _ _ _ _ (Same-give "")
        (resolved_id-Same k (trim_space raw) (parse_uint (trim_space raw)))

  humanize_value-Same :
      (label : String) (k : Kind) (transition : String) (parts : Option (String × String))
      → Same (humanize_value c label k transition parts) (humanize_value d label k transition parts)
  humanize_value-Same label k transition none =
      Same-bind _ _ _ _ (resolve_value-Same k transition) λ value. Same-give _
  humanize_value-Same label k transition (some (old, new)) =
      Same-bind _ _ _ _ (resolve_value-Same k old)
        λ o. Same-bind _ _ _ _ (resolve_value-Same k new) λ n. Same-give _

  humanize_field-Same :
      (part value : String) (field : Option (String × Kind))
      → Same (humanize_field c part value field) (humanize_field d part value field)
  humanize_field-Same part value none = Same-give part
  humanize_field-Same part value (some (label, k)) = humanize_value-Same label k _ _

  humanize_split-Same :
      (part : String) (split : Option (String × String))
      → Same (humanize_split c part split) (humanize_split d part split)
  humanize_split-Same part none = Same-give part
  humanize_split-Same part (some (field, value)) = humanize_field-Same part value _

  humanize_part-Same : (part : String) → Same (humanize_part c part) (humanize_part d part)
  unfolding humanize_part
  humanize_part-Same part =
      Same-if (is_empty (trim_space part)) _ _ _ _ (Same-give "")
        (humanize_split-Same (trim_space part) (split_once ":" (trim_space part)))

  humanize_parts-Same :
      (parts : List String) → Same (humanize_parts c parts) (humanize_parts d parts)
  unfolding humanize_parts
  humanize_parts-Same [] = Same-give []
  humanize_parts-Same (part ∷ rest) =
      Same-bind _ _ _ _ (humanize_part-Same part)
        λ p. Same-bind _ _ _ _ (humanize_parts-Same rest) λ ps. Same-give (keep_part c p ps)

  humanize_body-Same :
      (comment : String) (body : Option String)
      → Same (humanize_body c comment body) (humanize_body d comment body)
  humanize_body-Same comment none = Same-give comment
  humanize_body-Same comment (some body) =
      Same-if _ _ _ _ _ (Same-give comment)
        (Same-bind _ _ _ _ (humanize_parts-Same _) λ ps. Same-give _)

  humanize_comment-Same :
      (comment : String) → Same (humanize_comment c comment) (humanize_comment d comment)
  unfolding humanize_comment
  humanize_comment-Same comment =
      humanize_body-Same (trim_space comment)
        (strip_prefix (structure_prefix c) (trim_space comment))

  id_line-Same :
      (k : Kind) (line other value : String) (id : Option ℕ)
      → Same (id_line c k line other value id) (id_line d k line other value id)
  id_line-Same k line other value none = Same-give _
  id_line-Same k line other value (some id) =
      Same-bind _ _ _ _ (Same-name k id) λ found. Same-give _

  change_line-Same :
      (k : Kind) (line other value : String)
      → Same (change_line c k line other value) (change_line d k line other value)
  unfolding change_line
  change_line-Same k line other value = id_line-Same k line other value (parse_uint value)

  status_line-Same :
      (i : Item) (value : String) → Same (status_line c i value) (status_line d i value)
  unfolding status_line
  status_line-Same i value =
      Same-if (is_empty (trim_space (null_text i.new_status_name))) _ _ _ _
        (change_line-Same status "Установлен статус: " "Установлен статус: ID " value)
        (Same-give
          (concat "Установлен статус: " (quoted (trim_space (null_text i.new_status_name)))))

  event_line-Same :
      (clock : Clock) (i : Item) (value : String) (e : EventType)
      → Same (event_line c clock i value e) (event_line d clock i value e)
  event_line-Same clock i value Entities.status_change = status_line-Same i value
  event_line-Same clock i value Entities.priority_change = change_line-Same priority _ _ value
  event_line-Same clock i value Entities.structure_change = humanize_comment-Same _
  event_line-Same clock i value _ = Same-give _

  line_for_event-Same :
      (clock : Clock) (i : Item) (e : RowEvent)
      → Same (line_for_event c clock i e) (line_for_event d clock i e)
  unfolding line_for_event
  line_for_event-Same clock i (written e) = event_line-Same clock i _ e
  line_for_event-Same clock i department_change = change_line-Same department _ _ _
  line_for_event-Same clock i otdel_change = change_line-Same otdel _ _ _
  line_for_event-Same clock i unknown_event = Same-give ""

  module _ (clock : Clock) (users : ℕ → Option User) (items : List Item) where
    add_event_to_block-Same :
        (b : Block) (i : Item)
        → Same
            (add_event_to_block c clock users items b i)
            (add_event_to_block d clock users items b i)
    unfolding add_event_to_block
    add_event_to_block-Same b i =
        Same-if (is_event Entities.comment i.row.event) _ _ _ _
          (Same-give (add_comment (comment_of i.row) b))
          (Same-bind _ _ _ _ (line_for_event-Same clock i i.row.event)
            λ line. Same-give (add_line line (note_attachment i b)))

    blocks_from-Same :
        (b : Block) (previous : Item) (rest : List Item)
        → Same
            (blocks_from c clock users items b previous rest)
            (blocks_from d clock users items b previous rest)
    unfolding blocks_from
    blocks_from-Same b previous [] = Same-give _
    blocks_from-Same b previous (i ∷ rest) = Same-bind _ _ _ _ (add_event_to_block-Same _ i) λ b'.
        Same-bind _ _ _ _ (blocks_from-Same b' i rest)
          λ bs. Same-give (if same_transaction i previous then bs else b ∷ bs)

    pub timeline_of-Same :
        (shown : List Item)
        → Same (timeline_of c clock users items shown) (timeline_of d clock users items shown)
    unfolding timeline_of
    timeline_of-Same [] = Same-give []
    timeline_of-Same (i ∷ rest) =
        Same-bind _ _ _ _ (add_event_to_block-Same _ i) λ b. blocks_from-Same b i rest
