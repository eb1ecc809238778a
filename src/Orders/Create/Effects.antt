-- ===== src/Orders/Create/Effects.antt =====
-- What the creation of an order does to the table of orders.
use request_system.Common.{
  ℕ, String, Bool, true, false, not, Option, none, some, List, [], ◌∷◌, ◌++◌, ◌≡◌, refl, ◌∙◌, sym,
  ap, arith, ◌≢◌, ◌==◌, is_empty,
}
use request_system.Entities.{Order, User, Status, Time}
use request_system.Errors.{Result, Error, ok, err_internal_server}
use request_system.Orders.Store.{
  Store, World, pure, lift, guard, or_fail, ◌>>=◌, new_uuid, create, inserted,
}
use request_system.Orders.Store.Leaves.{
  Leaves, Leaves-pure, Leaves-guard, Leaves-or_fail, Leaves-attempt, Leaves-bind, Leaves-if,
  Returns, Returns-bind, Returns-pure, Yields, Yields-bind, >>=-eq-ok,
}
use request_system.Orders.History.{Directory, File}
use request_system.Orders.History.Preserved.{
  orders_and_time, log_history_event-Leaves, attach_file_to_order-Leaves,
}
use request_system.Orders.Requests.{
  RequestContext, CreateOrderDto, RuleEngine, RoutingResult, build_order_routing_context,
}
use request_system.Orders.Create.{
  new_order, log_creation, log_comment, attach_if_given, create_in_tx, text_or_empty,
}

-- What a creation reads of the store.
abbrev sequence_of : Store → List Order × ℕ × Time
sequence_of s = (s.db.orders, s.next_order_id, s.tx_time)

-- The row of `o` stands at the end, under the next id.
abbrev pub Inserted : World → Order → List Order × ℕ × Time → ℕ → Store → Type 0
Inserted w o (rows, next, time) id t =
    (t.db.orders ≡ rows ++ inserted w o next time ∷ []) × (id ≡ next)

create-Yields : (w : World) (o : Order) → Yields sequence_of (Inserted w o) (create w o)
unfolding create
create-Yields w o =
    Yields-bind sequence_of (Inserted w o) _ _ (Leaves-attempt sequence_of w _) λ _ _ _. record {
      at = λ s id t e. (ap (λ p. p.1.db.orders) (sym e), ok_inj (ap (λ p. p.0) (sym e)));
    }
  where
    ok_inj : {A : Type 0} {a b : A} → ◌≡◌ {A = Result A} (ok a) (ok b) → a ≡ b
    ok_inj e = cc

module _ (w : World) (dir : Directory) (engine : RuleEngine) (rc : RequestContext) where
  log_comment-Leaves :
      (comment_text : String) (actor : User) (tx_id : ℕ) (o : Order)
      → Leaves orders_and_time (log_comment w dir engine rc comment_text actor tx_id o)
  unfolding log_comment
  log_comment-Leaves comment_text actor tx_id o =
      Leaves-if orders_and_time (is_empty comment_text) _ _ (Leaves-pure orders_and_time tt)
        (log_history_event-Leaves w _ actor tx_id o)

  log_creation-Leaves :
      (d : CreateOrderDto) (executor actor : User) (tx_id : ℕ) (o : Order)
      → Leaves orders_and_time (log_creation w dir engine rc d executor actor tx_id o)
  unfolding log_creation
  log_creation-Leaves d executor actor tx_id o =
      Leaves-bind orders_and_time _ _ (log_history_event-Leaves w _ actor tx_id o) λ _.
        Leaves-bind orders_and_time _ _ (log_comment-Leaves (text_or_empty d.comment) actor tx_id o)
          λ _.
            Leaves-bind orders_and_time _ _ (log_history_event-Leaves w _ actor tx_id o)
              λ _. log_history_event-Leaves w _ actor tx_id o

  attach_if_given-Leaves :
      (file : Option File) (actor : User) (tx_id : ℕ) (o : Order)
      → Leaves orders_and_time (attach_if_given w dir engine rc file actor tx_id o)
  unfolding attach_if_given
  attach_if_given-Leaves none actor tx_id o = Leaves-pure orders_and_time tt
  attach_if_given-Leaves (some file) actor tx_id o =
      Leaves-bind orders_and_time _ _ (attach_file_to_order-Leaves w dir o.id actor.id file tx_id o)
        λ _. Leaves-pure orders_and_time tt

  -- The routing that the rule engine gives for the new order.
  abbrev pub routing_of : CreateOrderDto → Result RoutingResult
  routing_of d =
      engine.resolve_executor
        (build_order_routing_context d.order_type_id d.department_id d.otdel_id d.branch_id
          d.office_id)
        d.executor_id

  abbrev pub Created : CreateOrderDto → User → List Order × ℕ × Time → ℕ → Store → Type 0
  Created d actor before id t =
      (routing : RoutingResult) × (status : Status) × (routing_of d ≡ ok routing)
      × (dir.find_status_by_code "OPEN" ≡ some status)
      × (routing.executor.id ≢ 0)
      × Inserted w (new_order d status.id actor.id routing.executor.id) before id t

  -- What follows the INSERT keeps the orders.
  after_create-Leaves :
      (d : CreateOrderDto) (file : Option File) (executor actor : User) (tx_id new_id : ℕ)
      (o : Order)
      → Leaves orders_and_time (
          log_creation w dir engine rc d executor actor tx_id o >>= λ _.
          attach_if_given w dir engine rc file actor tx_id o >>= λ _. pure new_id)
  after_create-Leaves d file executor actor tx_id new_id o =
      Leaves-bind orders_and_time _ _ (log_creation-Leaves d executor actor tx_id o) λ _.
        Leaves-bind orders_and_time _ _ (attach_if_given-Leaves file actor tx_id o)
          λ _. Leaves-pure orders_and_time new_id

  after_create-Returns :
      (d : CreateOrderDto) (file : Option File) (executor actor : User) (tx_id new_id : ℕ)
      (o : Order)
      → Returns
          (λ id. id ≡ new_id)
          (log_creation w dir engine rc d executor actor tx_id o >>= λ _.
            attach_if_given w dir engine rc file actor tx_id o >>= λ _. pure new_id)
  after_create-Returns d file executor actor tx_id new_id o =
      Returns-bind _ _ _ λ _ _ _. Returns-bind _ _ _ λ _ _ _. Returns-pure _ new_id refl

  guard-true : (b : Bool) (e : Error) (s : Store) (u : Unit {0}) → (guard b e s).0 ≡ ok u → b ≡ true
  unfolding guard
  guard-true true e s u h = refl
  guard-true false e s u h = cc

  or_fail-some :
      {A : Type 0} (x : Option A) (e : Error) (s : Store) (a : A)
      → (or_fail x e s).0 ≡ ok a
      → x ≡ some a
  unfolding or_fail
  or_fail-some (some b) e s a h = cc
  or_fail-some none e s a h = cc

  not_zero : (n : ℕ) → not (n == 0) ≡ true → n ≢ 0
  not_zero n h e = ground arith

  create_in_tx-Yields :
      (d : CreateOrderDto) (file : Option File) (actor : User)
      → Yields sequence_of (Created d actor) (create_in_tx w dir engine rc d file actor)
  unfolding create_in_tx new_uuid lift
  create_in_tx-Yields d file actor =
      let P = Created d actor in
      Yields-bind sequence_of P _ _ (record { at = λ s. refl })
        λ tx_id _ _.
          Yields-bind sequence_of P _ _ (record { at = λ s. refl })
            λ routing s0 resolved.
              Yields-bind sequence_of P _ _ (Leaves-guard sequence_of _ _) λ u s1 found.
                Yields-bind sequence_of P _ _ (Leaves-or_fail sequence_of _ _) λ status s2 opened.
                  let o = new_order d status.id actor.id routing.executor.id in
                  record {
                    at = λ s r t e.
                        let (new_id, done, rest) = >>=-eq-ok (create w o) _ s r t e in
                        let s3 = (create w o s).1 in
                        let (row, next) = (create-Yields w o).at s new_id s3 (λ i. (done i, s3)) in
                        let created = record o { id = new_id } in
                        let kept =
                          (after_create-Leaves d file routing.executor actor tx_id new_id
                              created).at
                            s3 in
                        let same =
                          (after_create-Returns d file routing.executor actor tx_id new_id
                              created).at
                            s3 r (ap (λ p. p.0) rest) in
                        (
                          routing,
                          status,
                          resolved,
                          or_fail-some (dir.find_status_by_code "OPEN") err_internal_server s2
                              status opened,
                          not_zero routing.executor.id (guard-true _ _ s1 u found),
                          (
                            ap (λ p. p.1.db.orders) (sym rest) ∙ ap (λ p. p.0) kept ∙ row,
                            same ∙ next,
                          ),
                        );
                  }

  -- When the function of a creation's transaction succeeds, the table of orders has exactly one
  -- row more, at its end and under the next id, which is the result: the order of the request with
  -- the status OPEN, made by the actor, for the executor that the rule engine found, who is known.
  pub create_in_tx_creates :
      (d : CreateOrderDto) (file : Option File) (actor : User) (s : Store) (id : ℕ) (t : Store)
      → create_in_tx w dir engine rc d file actor s ≡ (ok id, t)
      → (routing : RoutingResult) × (status : Status) × (engine.resolve_executor
            (build_order_routing_context d.order_type_id d.department_id d.otdel_id d.branch_id
              d.office_id)
            d.executor_id
          ≡ ok routing)
        × (dir.find_status_by_code "OPEN" ≡ some status)
        × (routing.executor.id ≢ 0)
        × (t.db.orders
            ≡ s.db.orders
              ++ inserted w
                  (new_order d status.id actor.id routing.executor.id)
                  s.next_order_id
                  s.tx_time
                ∷ [])
        × (id ≡ s.next_order_id)
  create_in_tx_creates d file actor s id t e =
      let (routing, status, resolved, opened, known, (grown, next)) =
        (create_in_tx-Yields d file actor).at s id t e in
      (routing, status, resolved, opened, known, grown, next)
