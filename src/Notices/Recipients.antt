-- ===== src/Notices/Recipients.antt =====
-- Who is told of a group: `determineRecipients` and the loop over its users in
-- internal/listeners/notification_listener.go.
use request_system.Common.{
  ℕ, Bool, true, false, not, ◌&&◌, ◌||◌, Option, none, some, List, [], ◌∷◌, select, any,
  if◌then◌else◌, ◌==◌, ◌≡◌, ◌↔◌, refl, ◌∙◌, ap, subst, arith, Bool-cases, inl, inr, In,
  select_sound, select_complete, points_to,
}
use request_system.Entities.{Order}
use request_system.Notices.{
  Person, Event, Outside, add_id, add_if_positive, old_executor, add_ids_of, add_all_ids,
  add_executor, without_actor, involved, asked_for, with_order, determine_recipients,
}

abbrev mem : ℕ → List ℕ → Bool
mem n = any λ i. i == n

-- The item is by the user, or takes the order from the user.
abbrev pub concerns : ℕ → Event → Bool
concerns n e = not (n == 0) && (e.item.user_id == n || points_to (old_executor e.item) n)

-- The user made the order, has it now, or is concerned by one of the events.
abbrev pub is_concerned : Order → List Event → ℕ → Bool
is_concerned order es n =
    order.creator_id == n || points_to order.executor_id n || any (concerns n) es

abbrev pub is_actor : Option Person → ℕ → Bool
is_actor none n = false
is_actor (some a) n = n == a.id

mem-add_id : (n id : ℕ) (ids : List ℕ) → mem n (add_id id ids) ≡ (id == n || mem n ids)
mem-add_id n id ids = elim (Bool-cases (mem id ids)) [
  | inl e ↦ elim (Bool-cases (id == n)) [
    | inl same ↦
        let s : id ≡ n = ground arith in
        subst (λ m. mem m (add_id id ids) ≡ (id == m || mem m ids)) s (ground arith)
    | inr other ↦ ground arith
  ]
  | inr e ↦ ground arith
]

mem-add_if_positive :
    (n : ℕ) (id : Option ℕ) (ids : List ℕ)
    → mem n (add_if_positive id ids) ≡ ((points_to id n && not (n == 0)) || mem n ids)
mem-add_if_positive n none ids = refl
mem-add_if_positive n (some id) ids = ground (arith, mem-add_id n id ids)

mem-add_ids_of :
    (n : ℕ) (e : Event) (ids : List ℕ) → mem n (add_ids_of e ids) ≡ (concerns n e || mem n ids)
mem-add_ids_of n e ids = ground (
  arith,
  mem-add_if_positive n (old_executor e.item) (add_if_positive (some e.item.user_id) ids),
  mem-add_if_positive n (some e.item.user_id) ids,
)

mem-add_all_ids :
    (n : ℕ) (es : List Event) (ids : List ℕ)
    → mem n (add_all_ids es ids) ≡ (mem n ids || any (concerns n) es)
mem-add_all_ids n [] ids = ground arith
mem-add_all_ids n (e ∷ es) ids =
    ground (arith, mem-add_all_ids n es (add_ids_of e ids), mem-add_ids_of n e ids)

mem-add_executor :
    (n : ℕ) (executor : Option ℕ) (ids : List ℕ)
    → mem n (add_executor executor ids) ≡ (points_to executor n || mem n ids)
mem-add_executor n none ids = refl
mem-add_executor n (some id) ids = mem-add_id n id ids

mem-select : (p : ℕ → Bool) (n : ℕ) (l : List ℕ) → mem n (select p l) ≡ (mem n l && p n)
mem-select p n [] = refl
mem-select p n (m ∷ l) = ground (arith, mem-select p n l)

mem-without_actor :
    (n : ℕ) (actor : Option Person) (ids : List ℕ)
    → mem n (without_actor actor ids) ≡ (mem n ids && not (is_actor actor n))
mem-without_actor n none ids = ground arith
mem-without_actor n (some a) ids = mem-select (λ i. not (i == a.id)) n ids

module _ (o : Outside) where
  mem-involved :
      (order : Order) (es : List Event) (n : ℕ)
      → mem n (involved o order es) ≡ is_concerned order es n
  mem-involved order es n = ground (
    arith,
    mem-add_all_ids n es (add_executor order.executor_id (order.creator_id ∷ [])),
    mem-add_executor n order.executor_id (order.creator_id ∷ []),
  )

  Asked : List ℕ → Option (List Person) → Type 0
  Asked ids found =
      (users : List Person) × (found ≡ some users)
      × ((p : Person) → In p users ↔ (In p o.users × (mem p.id ids ≡ true)))

  asked_for-Asked : (ids : List ℕ) → o.reads_fail ≡ false → Asked ids (asked_for o ids)
  unfolding Asked
  asked_for-Asked [] h = ([], refl, λ p. (λ m. absurd m, λ (m, e). cc))
  asked_for-Asked (id ∷ ids) h =
      let has : Person → Bool = λ p. mem p.id (id ∷ ids) in
      (
        select has o.users,
        ap (λ b. if b then none else some (select has o.users)) h,
        λ p. (
          λ m. let (e, n) = select_sound has o.users p m in (n, e),
          λ (m, e). select_complete has o.users p e m,
        ),
      )

  -- While the users can be read, a group whose first event carries its order has as its recipients
  -- just the users of the table who made the order, have it, did one of the events or lost the order
  -- by one, and are not the actor of the first event.
  pub determine_recipients_iff :
      (e : Event) (es : List Event) (order : Order)
      → o.reads_fail ≡ false
      → e.order ≡ some order
      → (users : List Person) × (determine_recipients o (e ∷ es) ≡ some users)
        × ((p : Person)
            → In p users ↔ (
                In p o.users
                × (is_concerned order (e ∷ es) p.id ≡ true)
                × (is_actor e.actor p.id ≡ false)))
  unfolding determine_recipients Asked
  determine_recipients_iff e es order reads carried =
      let ids = without_actor e.actor (involved o order (e ∷ es)) in
      let (users, found, same) = asked_for-Asked ids reads in
      let who : (n : ℕ) → mem n ids ≡ (is_concerned order (e ∷ es) n && not (is_actor e.actor n)) =
        λ n.
          mem-without_actor n e.actor (involved o order (e ∷ es))
          ∙ ap (λ b. b && not (is_actor e.actor n)) (mem-involved order (e ∷ es) n) in
      (
        users,
        ap (λ x. with_order o x e.actor (e ∷ es)) carried ∙ found,
        λ p. (
          λ m. let (n, k) = (same p).0 m in let w = who p.id in (n, ground arith, ground arith),
          λ (m, k, l). let w = who p.id in (same p).1 (m, ground arith),
        ),
      )
