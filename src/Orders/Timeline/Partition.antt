-- ===== src/Orders/Timeline/Partition.antt =====
-- The blocks of the timeline are the runs of neighbouring items of one transaction.
use mathlib.Core.List.{append_assoc, append-nil}
use request_system.Common.{
  ℕ, String, Bool, true, false, not, Option, none, some, List, [], ◌∷◌, ◌++◌, map, if◌then◌else◌,
  ◌≡◌, refl, sym, ◌∙◌, ap, arith, is_empty, select,
}
use request_system.Entities.{User}
use request_system.Entities
use request_system.Orders.Requests.{AttachmentResponse}
use request_system.Orders.Timeline.Names.{Lookup, direct_name, give, ◌>>=◌}
use request_system.Orders.Timeline.Lines.{
  RowEvent, written, department_change, otdel_change, unknown_event, Item, Clock, is_event,
  actor_from_event, line_for_event,
}
use request_system.Orders.Timeline.Blocks.{
  Block, add_line, add_comment, comment_of, note_attachment, attachment_link, same_transaction,
  create_timeline_block, add_event_to_block, blocks_from, timeline_of,
}

abbrev pub Run : Type 0
Run = Item × List Item

-- The items that go on with the transaction of one before them, and the runs that are left.
abbrev pub continued : Item → List Run → List Item × List Run
continued i [] = ([], [])
continued i ((j, g) ∷ gs) = if same_transaction j i then (j ∷ g, gs) else ([], (j, g) ∷ gs)

-- The runs of neighbours, each with its first item.
abbrev pub runs : List Item → List Run
runs [] = []
runs (i ∷ rest) = let (g, gs) = continued i (runs rest) in (i, g) ∷ gs

abbrev pub is_comment : Item → Bool
is_comment i = is_event Entities.comment i.row.event

abbrev pub full_texts : List String → List String
full_texts = select λ s. not (is_empty s)

abbrev pub last_of : {A : Type 0} → Option A → List A → Option A
last_of d [] = d
last_of d (x ∷ xs) = last_of (some x) xs

abbrev file_added : Item → List AttachmentResponse
file_added i =
    if is_event Entities.attachment_add i.row.event
    then elim i.attachment [ none ↦ [] | some a ↦ attachment_link a ∷ [] ]
    else []

abbrev pub files_of : List Item → List AttachmentResponse
files_of [] = []
files_of (i ∷ g) = file_added i ++ files_of g

module _ (find : Lookup) (clock : Clock) where
  -- The line of an item, each name asked of the repository.
  abbrev pub line_of : Item → String
  line_of i = (line_for_event (direct_name find) clock i i.row.event tt).0

  abbrev pub lines_of : List Item → List String
  lines_of g = full_texts (map line_of (select (λ i. not (is_comment i)) g))

  abbrev pub comments_of : List Item → List String
  comments_of g = full_texts (map (λ (i : Item). comment_of i.row) (select is_comment g))

  module _ (users : ℕ → Option User) (items : List Item) where
    -- A block by itself: its items give the lines, the last comment and the last file, and the
    -- first one the actor and the time.
    abbrev pub block_of : Run → Block
    block_of (i, g) = record {
      lines = lines_of (i ∷ g);
      comment = last_of none (comments_of (i ∷ g));
      actor = actor_from_event users items i.row;
      created_at = clock.show_block i.row.created_at;
      attachment = last_of none (files_of (i ∷ g));
    }

    extended : Block → List Item → Block
    extended b g = record b {
      lines = b.lines ++ lines_of g;
      comment = last_of b.comment (comments_of g);
      attachment = last_of b.attachment (files_of g);
    }

    extended-none : (b : Block) → extended b [] ≡ b
    unfolding extended
    extended-none b = λ k. record b { lines = append-nil b.lines k }

    added : Block → Item → Block
    added b i = (add_event_to_block (direct_name find) clock users items b i tt).0

    extended-line :
        (b : Block) (line : String) (i : Item) (g : List Item)
        → record b {
          lines = b.lines ++ full_texts (line ∷ map line_of (select (λ i. not (is_comment i)) g));
          comment = last_of b.comment (comments_of g);
          attachment = last_of b.attachment (file_added i ++ files_of g);
        }
          ≡ extended (add_line line (note_attachment i b)) g
    unfolding extended
    extended-line b line i g = ground (arith, append_assoc b.lines (line ∷ []) (lines_of g))

    comment-no_file :
        (e : RowEvent)
        → is_event Entities.comment e ≡ true
        → is_event Entities.attachment_add e ≡ false
    comment-no_file (written Entities.comment) h = refl
    comment-no_file (written _) h = cc
    comment-no_file department_change h = refl
    comment-no_file otdel_change h = refl
    comment-no_file unknown_event h = refl

    extended-by :
        (commented : Bool) (b : Block) (i : Item) (g : List Item)
        → is_comment i ≡ commented
        → extended b (i ∷ g)
          ≡ extended
              (if commented
                then add_comment (comment_of i.row) b
                else add_line (line_of i) (note_attachment i b))
              g
    unfolding extended
    extended-by true b i g h = ground (arith, comment-no_file i.row.event h)
    extended-by false b i g h = ground (arith, extended-line b (line_of i) i g)

    added-if :
        (commented : Bool) (b : Block) (i : Item)
        → (if commented
            then add_comment (comment_of i.row) b
            else add_line (line_of i) (note_attachment i b))
          ≡ ((if commented
                then give (add_comment (comment_of i.row) b)
                else (line_for_event (direct_name find) clock i i.row.event >>= λ line.
                    give (add_line line (note_attachment i b))))
              tt).0
    unfolding give ◌>>=◌
    added-if true b i = refl
    added-if false b i = refl

    extended-cons :
        (b : Block) (i : Item) (g : List Item) → extended b (i ∷ g) ≡ extended (added b i) g
    unfolding add_event_to_block added
    extended-cons b i g =
        extended-by (is_comment i) b i g refl ∙ ap (λ x. extended x g) (added-if (is_comment i) b i)

    opened :
        (i : Item) (g : List Item)
        → block_of (i, g)
          ≡ extended (create_timeline_block (direct_name find) clock users items i) (i ∷ g)
    unfolding extended create_timeline_block
    opened i g = refl

    -- What the loop gives from an item on.
    abbrev Rest : Block → Item → List Item → Type 0
    Rest current previous rest =
        (blocks_from (direct_name find) clock users items current previous rest tt).0
        ≡ extended current (continued previous (runs rest)).0
          ∷ map block_of (continued previous (runs rest)).1

    -- One round, whether the item goes on with the block or opens the next one.
    stepped :
        (same : Bool) (current : Block) (previous i : Item) (rest : List Item)
        → same_transaction i previous ≡ same
        → Rest
            (added
              (if same
                then current
                else create_timeline_block (direct_name find) clock users items i)
              i)
            i
            rest
        → Rest current previous (i ∷ rest)
    unfolding blocks_from ◌>>=◌ give added
    stepped true current previous i rest e ih = rw e (
        ih
        ∙ ap (λ b. b ∷ map block_of (continued i (runs rest)).1)
            (sym (extended-cons current i (continued i (runs rest)).0)))
    stepped false current previous i rest e ih =
        let later = map block_of (continued i (runs rest)).1 in
        let first = create_timeline_block (direct_name find) clock users items i in
        let tail =
          ih
          ∙ ap (λ b. b ∷ later)
              (sym (extended-cons first i (continued i (runs rest)).0)
                ∙ sym (opened i (continued i (runs rest)).0)) in
        rw e (
          ap (λ bs. current ∷ bs) tail
          ∙ ap (λ b. b ∷ (block_of (i, (continued i (runs rest)).0) ∷ later))
              (sym (extended-none current)))

    blocks_from-runs :
        (current : Block) (previous : Item) (rest : List Item) → Rest current previous rest
    unfolding blocks_from ◌>>=◌ give
    blocks_from-runs current previous [] = ap (λ b. b ∷ []) (sym (extended-none current))
    blocks_from-runs current previous (i ∷ rest) =
        let first = create_timeline_block (direct_name find) clock users items i in
        stepped (same_transaction i previous) current previous i rest refl (
          blocks_from-runs (added (if same_transaction i previous then current else first) i) i
            rest)

    -- Without the memory, the timeline has one block for each run, made of that run alone.
    pub timeline_of-runs :
        (shown : List Item)
        → (timeline_of (direct_name find) clock users items shown tt).0 ≡ map block_of (runs shown)
    unfolding timeline_of ◌>>=◌ give added
    timeline_of-runs [] = refl
    timeline_of-runs (i ∷ rest) =
        blocks_from-runs _ i rest
        ∙ ap (λ b. b ∷ map block_of (continued i (runs rest)).1)
            (sym (extended-cons _ i (continued i (runs rest)).0)
              ∙ sym (opened i (continued i (runs rest)).0))
