-- ===== src/Orders/Timeline/Answer.antt =====
-- What `GetTimelineByOrderID` answers.
use request_system.Common.{
  take, drop, ℕ, zero, suc, String, none, List, [], ◌∷◌, ◌++◌, map, ◌≡◌, refl, ◌∙◌, ap, arith, ◌≤◌,
  length, ◌==◌, select,
}
use request_system.Errors.{Result, ok, err}
use request_system.Orders.Metrics.{ℤ, pos, negsuc}
use request_system.Orders.Timeline.Names.{Lookup}
use request_system.Orders.Timeline.Lines.{Row, Item, Clock}
use request_system.Orders.Timeline.Blocks.{
  Tables, Block, item_of, atoi, page_limit, page_offset, preloaded_users, find_by_order_id,
  read_timeline, get_timeline_by_order_id,
}
use request_system.Orders.Timeline.Transparent.{timeline_of-Same}
use request_system.Orders.Timeline.Partition.{Run, runs, continued, block_of, timeline_of-runs}

-- The items of the runs, in the order of the runs.
abbrev pub items_of : List Run → List Item
items_of [] = []
items_of ((i, g) ∷ rest) = i ∷ (g ++ items_of rest)

items_of-continued :
    (i : Item) (rs : List Run) → (continued i rs).0 ++ items_of (continued i rs).1 ≡ items_of rs
items_of-continued i [] = refl
items_of-continued i ((j, g) ∷ gs) = ground arith

items_of-runs : (items : List Item) → items_of (runs items) ≡ items
items_of-runs [] = refl
items_of-runs (i ∷ rest) = ap (λ l. i ∷ l) (items_of-continued i (runs rest) ∙ items_of-runs rest)

length-continued : (i : Item) (rs : List Run) → length (continued i rs).1 ≤ length rs
length-continued i [] = omega arith
length-continued i ((j, g) ∷ gs) = ground arith

length-runs : (items : List Item) → length (runs items) ≤ length items
length-runs [] = omega arith
length-runs (i ∷ rest) = omega (arith, length-continued i (runs rest), length-runs rest)

length-map : {A B : Type 0} (f : A → B) (xs : List A) → length (map f xs) ≡ length xs
length-map f [] = refl
length-map f (x ∷ xs) = ap suc (length-map f xs)

length-take : {A : Type 0} (n : ℕ) (xs : List A) → length (take n xs) ≤ n
length-take zero xs = omega arith
length-take (suc n) [] = omega arith
length-take (suc n) (x ∷ xs) = omega (arith, length-take n xs)

page_limit-le : (n : ℤ) → page_limit n ≤ 200
page_limit-le (pos n) = ground arith
page_limit-le (negsuc n) = omega arith

module _ (clock : Clock) (find_name : Lookup) (t : Tables) (order_id : ℕ)
    (limit offset : String) where
  -- The page of the history that the two parameters of the request ask for.
  abbrev pub page : Result (List Item)
  page = find_by_order_id t order_id (page_limit (atoi limit)) (page_offset (atoi offset))

  -- What a page is shown as: a block for each run of neighbours in one transaction.
  abbrev pub blocks_of : List Item → List Block
  blocks_of items = map (block_of find_name clock (preloaded_users t items) items) (runs items)

  abbrev pub shown_as : Result (List Item) → Result (List Block)
  shown_as (err e) = err e
  shown_as (ok items) = ok (blocks_of items)

  answered : (r : Result (List Item)) → read_timeline clock find_name t r ≡ shown_as r
  answered (err e) = refl
  answered (ok items) =
      let users = preloaded_users t items in
      ap ok (
        ((timeline_of-Same find_name clock users items items).at [] (λ k id name e. cc)).0
        ∙ timeline_of-runs find_name clock users items items)

  -- Where the page is read, the timeline has one block for each run of neighbouring items of one
  -- transaction, its names each asked of the repository anew, and the runs hold the items of the
  -- page, each once and in their order; where reading the page fails, its error is the answer.
  pub get_timeline_by_order_id_refines :
      (get_timeline_by_order_id clock find_name t order_id limit offset ≡ shown_as page)
      × ((items : List Item) → items_of (runs items) ≡ items)
  unfolding get_timeline_by_order_id
  get_timeline_by_order_id_refines = (answered page, items_of-runs)

  page_ok : t.history_fault ≡ none → (items : List Item) × (page ≡ ok items) × (length items ≤ 200)
  unfolding find_by_order_id
  page_ok h =
      let rows = t.by_time (select (λ (r : Row). r.order_id == order_id) t.rows) in
      let shown = take (page_limit (atoi limit)) (drop (page_offset (atoi offset)) rows) in
      (
        map (item_of t) shown,
        ground arith,
        omega (
          arith,
          length-map (item_of t) shown,
          length-take (page_limit (atoi limit)) (drop (page_offset (atoi offset)) rows),
          page_limit-le (atoi limit),
        ),
      )

  -- Unless the history cannot be read there is a timeline, of at most two hundred blocks.
  pub get_timeline_by_order_id_bounds :
      t.history_fault ≡ none
      → (blocks : List Block) × (get_timeline_by_order_id clock find_name t order_id limit offset
          ≡ ok blocks)
        × (length blocks ≤ 200)
  get_timeline_by_order_id_bounds h =
      let (items, e, small) = page_ok h in
      (
        blocks_of items,
        get_timeline_by_order_id_refines.0 ∙ ap shown_as e,
        omega (
          arith,
          length-map (block_of find_name clock (preloaded_users t items) items) (runs items),
          length-runs items,
        ),
      )
