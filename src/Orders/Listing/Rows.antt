-- ===== src/Orders/Listing/Rows.antt =====
-- The rows that the query of the list gives.
use request_system.Common.{
  take, drop, ℕ, Bool, true, false, List, [], ◌∷◌, ◌≡◌, refl, ◌∙◌, sym, subst, inl, inr, In, length,
  ◌==◌, if◌then◌else◌,
}
use request_system.Entities.{Order}
use request_system.Errors.{Result, ok}
use request_system.Orders.Store.{Store, World, ◌>>=◌, attempt, count_orders, list_orders}
use request_system.Orders.Store.Leaves.{Leaves, Leaves-attempt, Leaves-if, Leaves-bind}
use request_system.Orders.Access.Reading.{store_of, gives-bind}
use request_system.Orders.Listing.{
  Filter, Dbms, Condition, matching_rows, all_rows, page_rows, counted_rows, sorted_rows,
  get_orders_rows, order_columns,
}

take-In : {A : Type 0} (n : ℕ) (xs : List A) (a : A) → In a (take n xs) → In a xs
take-In Prim.Native.Nat.zero xs a h = absurd h
take-In (Prim.Native.Nat.suc n) [] a h = absurd h
take-In (Prim.Native.Nat.suc n) (x ∷ xs) a (inl e) = inl e
take-In (Prim.Native.Nat.suc n) (x ∷ xs) a (inr m) = inr (take-In n xs a m)

drop-In : {A : Type 0} (n : ℕ) (xs : List A) (a : A) → In a (drop n xs) → In a xs
drop-In Prim.Native.Nat.zero xs a h = h
drop-In (Prim.Native.Nat.suc n) [] a h = absurd h
drop-In (Prim.Native.Nat.suc n) (x ∷ xs) a h = inr (drop-In n xs a h)

module _ (db : Dbms) (w : World) (f : Filter) (sec : List Condition) where
  -- The rows of the query are among those that match, and without paging they are all of them.
  abbrev pub RowsOf : Store → List Order → Type 0
  RowsOf s rows =
      ((o : Order) → In o rows → In o (matching_rows db s f sec))
      × (f.with_pagination ≡ false → (o : Order) → In o (matching_rows db s f sec) → In o rows)

  cut-In :
      (limited : Bool) (rest : List Order) (o : Order)
      → In o (if limited then rest else take f.limit rest)
      → In o rest
  cut-In true rest o h = h
  cut-In false rest o h = take-In f.limit rest o h

  paged-In :
      (paging : Bool) (rows : List Order) (o : Order)
      → In o (
          if paging
          then (let rest = drop f.offset rows in if f.limit == 0 then rest else take f.limit rest)
          else rows)
      → In o rows
  paged-In true rows o h = drop-In f.offset rows o (cut-In (f.limit == 0) (drop f.offset rows) o h)
  paged-In false rows o h = h

  in_rows :
      {rows other : List Order} {n m : ℕ}
      → ◌≡◌ {A = Result (List Order × ℕ)} (ok (rows, n)) (ok (other, m))
      → rows ≡ other
  in_rows e = cc

  all_rows-found :
      (s : Store) (rows : List Order) (total : ℕ)
      → (all_rows db w f sec s).0 ≡ ok (rows, total)
      → rows ≡ sorted_rows db s f sec
  unfolding all_rows
  all_rows-found s rows total h =
      let (u, done, e) =
        gives-bind (attempt w list_orders) _ s (rows, total) (Leaves-attempt store_of w _) h in
      sym (in_rows e)

  page_rows-found :
      (s : Store) (rows : List Order) (total : ℕ)
      → (page_rows db w f sec s).0 ≡ ok (rows, total)
      → (o : Order) → In o rows
      → In o (sorted_rows db s f sec)
  unfolding page_rows
  page_rows-found s rows total h o m =
      let (u, done, e) =
        gives-bind (attempt w list_orders) _ s (rows, total) (Leaves-attempt store_of w _) h in
      paged-In f.with_pagination (sorted_rows db s f sec) o (subst (In o) (sym (in_rows e)) m)

  counted_rows-found :
      (s : Store) (rows : List Order) (total : ℕ) (nothing : Bool)
      → (counted_rows db w f sec nothing s).0 ≡ ok (rows, total)
      → (o : Order) → In o rows
      → In o (sorted_rows db s f sec)
  counted_rows-found s rows total true h o m = absurd (subst (In o) (sym (in_rows h)) m)
  counted_rows-found s rows total false h o m = page_rows-found s rows total h o m

  found_by :
      (paging : Bool) (s : Store) (rows : List Order) (total : ℕ)
      → f.with_pagination ≡ paging
      → ((if paging
            then (attempt w count_orders >>= λ _ s.
                counted_rows db w f sec (length (matching_rows db s f sec) == 0) s)
            else all_rows db w f sec)
          s).0
        ≡ ok (rows, total)
      → RowsOf s rows
  found_by true s rows total p h =
      let (u, done, e) =
        gives-bind (attempt w count_orders) _ s (rows, total) (Leaves-attempt store_of w _) h in
      (
        λ o m.
            (db.arrange_In (order_columns f) (matching_rows db s f sec) o).0
              (counted_rows-found s rows total _ e o m),
        λ no. cc (sym p ∙ no),
      )
  found_by false s rows total p h =
      let same = all_rows-found s rows total h in
      (
        λ o m.
            (db.arrange_In (order_columns f) (matching_rows db s f sec) o).0 (subst (In o) same m),
        λ _ o m.
            subst (In o) (sym same)
              ((db.arrange_In (order_columns f) (matching_rows db s f sec) o).1 m),
      )

  pub get_orders_rows-found :
      (s : Store) (rows : List Order) (total : ℕ)
      → (get_orders_rows db w f sec s).0 ≡ ok (rows, total)
      → RowsOf s rows
  unfolding get_orders_rows
  get_orders_rows-found s rows total h = found_by f.with_pagination s rows total refl h

counted_rows-Leaves :
    (db : Dbms) (w : World) (f : Filter) (sec : List Condition) (b : Bool) (s : Store)
    → (counted_rows db w f sec b s).1 ≡ s
unfolding page_rows
counted_rows-Leaves db w f sec true s = refl
counted_rows-Leaves db w f sec false s =
    (Leaves-bind store_of (attempt w list_orders) _ (Leaves-attempt store_of w _)
        λ _. record { at = λ s. refl }).at
      s

pub get_orders_rows-Leaves :
    (db : Dbms) (w : World) (f : Filter) (sec : List Condition)
    → Leaves store_of (get_orders_rows db w f sec)
unfolding get_orders_rows all_rows
get_orders_rows-Leaves db w f sec =
    Leaves-if store_of f.with_pagination _ _
      (Leaves-bind store_of _ _ (Leaves-attempt store_of w _)
        λ _. record { at = λ s. counted_rows-Leaves db w f sec _ s })
      (Leaves-bind store_of _ _ (Leaves-attempt store_of w _) λ _. record { at = λ s. refl })
