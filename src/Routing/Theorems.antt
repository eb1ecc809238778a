-- ===== src/Routing/Theorems.antt =====
-- Whom the rule engine may choose.
use request_system.Common.{
  select_sound, ℕ, String, ltb, Bool, true, false, not, ◌&&◌, Option, none, some, List, [], ◌∷◌,
  ◌≡◌, refl, sym, ap, subst, arith, In, find, find_sound, select, Bool-cases, inl, inr, ◌⊎◌, ◌==◌,
  if◌then◌else◌,
}
use request_system.Entities.{User}
use request_system.Errors.{Error, Result, ok, err}
use request_system.Orders.Requests.{OrderContext, RoutingResult, RuleEngine}
use request_system.Routing.People.{
  Employee, Rule, Organisation, works, is_active_code, scanned, checked_executor, find_user_by_id,
  matches_executor_to_structure, validate_explicit_executor, least_employee, least_of,
  holds_position, find_user_by_position_and_structure, chosen_rule,
}
use request_system.Routing.Waterfall.{
  Search, leads, find_leader, found_leader, searched, resolve_by_hierarchy, waterfall,
  is_head_branch,
}
use request_system.Routing.Engine.{
  resolve_executor, chosen_by_hand, by_position, by_columns, by_rule, by_query, with_structure,
}

-- The user is a row that is not deleted, with the id, active, and in the order's structure.
abbrev pub Eligible : Organisation → ℕ → OrderContext → User → Type 0
Eligible org id c u =
    (u.id ≡ id)
    × (is_active_code u.status_code ≡ true)
    × (matches_executor_to_structure u c ≡ true)
    × ((e : Employee) × In e org.employees × (e.is_deleted ≡ false) × (e.user ≡ u))

found_by_id :
    (org : Organisation) (id : ℕ) (e : Employee)
    → find_user_by_id org id ≡ some e
    → (e.user.id ≡ id) × (e.is_deleted ≡ false) × In e org.employees
found_by_id org id e h = elim (Bool-cases org.people_fault) [
  | inl f ↦ ground arith
  | inr f ↦
      let found : find (λ (e : Employee). not e.is_deleted && e.user.id == id) org.employees
          ≡ some e =
        rw f at h in
      let (p, m) =
        find_sound (λ (e : Employee). not e.is_deleted && e.user.id == id) org.employees e found in
      (ground arith, ground arith, m)
]

passes :
    (a m : Bool) (e f : Error) (v u : User)
    → ◌≡◌ {A = Result User} (if not a then err e else if not m then err f else ok v) (ok u)
    → (a ≡ true) × (m ≡ true) × (v ≡ u)
passes true true e f v u h = (refl, refl, cc)
passes true false e f v u h = cc
passes false m e f v u h = cc

module _ (org : Organisation) (id : ℕ) (c : OrderContext) where
  checked :
      (x : Option Employee) (u : User)
      → find_user_by_id org id ≡ x
      → checked_executor x c ≡ ok u
      → Eligible org id c u
  unfolding checked_executor
  checked none u e h = cc
  checked (some x) u e h =
      let (same, alive, m) = found_by_id org id x e in
      let (active, fits, eq) =
        passes (is_active_code x.user.status_code) (matches_executor_to_structure x.user c) _ _
          x.user u h in
      subst (Eligible org id c) eq (same, active, fits, (x, m, alive, refl))

  by_hand : (v : Result User) (r : RoutingResult) → chosen_by_hand v ≡ ok r → v ≡ ok r.executor
  by_hand (ok u) r h = cc
  by_hand (err e) r h = cc

  -- An executor chosen by hand is accepted only if that very user is found undeleted, is active
  -- and belongs to the part of the structure that the order is for.
  pub resolve_executor_explicit :
      (r : RoutingResult) → resolve_executor org c (some id) ≡ ok r → Eligible org id c r.executor
  unfolding resolve_executor validate_explicit_executor
  resolve_executor_explicit r h =
      checked (find_user_by_id org id) r.executor refl
        (by_hand (validate_explicit_executor org id c) r h)

-- The engine as the order service sees it.
abbrev pub rule_engine : Organisation → RuleEngine
rule_engine org = record { resolve_executor = resolve_executor org }

widen :
    (b : Bool) (e x y : Employee) (xs : List Employee)
    → In y ((if b then x else e) ∷ xs)
    → In y (e ∷ x ∷ xs)
widen true e x y xs h = inr h
widen false e x y xs (inl h) = inl h
widen false e x y xs (inr h) = inr (inr h)

least_employee-In : (e : Employee) (es : List Employee) → In (least_employee e es) (e ∷ es)
unfolding least_employee
least_employee-In e [] = inl refl
least_employee-In e (x ∷ xs) =
    let next = if ltb x.user.id e.user.id then x else e in
    widen (ltb x.user.id e.user.id) e x (least_employee next xs) xs (least_employee-In next xs)

least_of-In : (es : List Employee) (e : Employee) → least_of es ≡ some e → In e es
least_of-In [] e h = cc
least_of-In (x ∷ xs) e h =
    let same : least_employee x xs ≡ e = cc in
    subst (λ y. In y (x ∷ xs)) same (least_employee-In x xs)

leader_from :
    (x later : Option Employee) (e : Employee)
    → (elim x as (λ _. Option Employee) [ none ↦ later | some a ↦ some a ]) ≡ some e
    → (x ≡ some e) ⊎ (later ≡ some e)
leader_from none later e h = inr h
leader_from (some a) later e h = inl h

-- What a query for people gives when it may fail.
asked :
    (b : Bool) (x : Option Employee) (e : Employee) → (if b then none else x) ≡ some e → x ≡ some e
asked true x e h = cc
asked false x e h = h

-- The executor is somebody who works here, as the queries for people scan him.
abbrev pub Staffed : Organisation → User → Type 0
Staffed org u = (e : Employee) × In e org.employees × (works e ≡ true) × (u ≡ scanned e.user)

&&-left : (a b : Bool) → (a && b) ≡ true → a ≡ true
&&-left a b h = ground arith

&&-right : (a b : Bool) → (a && b) ≡ true → b ≡ true
&&-right a b h = ground arith

leads-works : (q : Search) (role : String) (e : Employee) → leads q role e ≡ true → works e ≡ true
leads-works q role e h = &&-left _ _ (&&-left _ _ (&&-left _ _ (&&-left _ _ (&&-left _ _ h))))

holds_position-works :
    (position_id : ℕ) (c : OrderContext) (e : Employee)
    → holds_position position_id c e ≡ true
    → works e ≡ true
holds_position-works position_id c e h = &&-right _ _ (&&-left _ _ (&&-left _ _ (&&-left _ _ h)))

result_inj : {A : Type 0} {a b : A} → ◌≡◌ {A = Result A} (ok a) (ok b) → a ≡ b
result_inj e = cc

module _ (org : Organisation) where
  find_leader-works :
      (q : Search) (roles : List String) (e : Employee)
      → find_leader org q roles ≡ some e
      → In e org.employees × (works e ≡ true)
  unfolding find_leader
  find_leader-works q [] e h = cc
  find_leader-works q (role ∷ rest) e h =
      elim (leader_from (if org.people_fault then none else find (leads q role) org.employees)
        (find_leader org q rest) e h) [
          | inl here ↦
              let (p, m) =
                find_sound (leads q role) org.employees e
                  (asked org.people_fault (find (leads q role) org.employees) e here) in
              (m, leads-works q role e p)
          | inr later ↦ find_leader-works q rest e later
        ]

  led :
      (q : Search) (x : Option Employee) (r : RoutingResult)
      → find_leader org q q.roles ≡ x
      → found_leader q x ≡ ok r
      → Staffed org r.executor
  unfolding found_leader
  led q none r found h = cc
  led q (some e) r found h =
      let (m, active) = find_leader-works q q.roles e found in
      (e, m, active, sym (ap (λ (x : RoutingResult). x.executor) (result_inj h)))

  searched-Staffed :
      (x : Option Search) (r : RoutingResult) → searched org x ≡ ok r → Staffed org r.executor
  unfolding searched
  searched-Staffed none r h = cc
  searched-Staffed (some q) r h = led q (find_leader org q q.roles) r refl h

  resolve_by_hierarchy-Staffed :
      (c : OrderContext) (r : RoutingResult)
      → resolve_by_hierarchy org c ≡ ok r
      → Staffed org r.executor
  unfolding resolve_by_hierarchy
  resolve_by_hierarchy-Staffed c r h =
      searched-Staffed (waterfall (is_head_branch org c.branch_id) c) r h

  find_user_by_position_and_structure-works :
      (position_id : ℕ) (c : OrderContext) (e : Employee)
      → find_user_by_position_and_structure org position_id c ≡ some e
      → In e org.employees × (works e ≡ true)
  unfolding find_user_by_position_and_structure
  find_user_by_position_and_structure-works position_id c e h =
      let p = holds_position position_id c in
      let (q, m) = select_sound p org.employees e (
        least_of-In (select p org.employees) e
          (asked org.people_fault (least_of (select p org.employees)) e h)) in
      (m, holds_position-works position_id c e q)

  module _ (c : OrderContext) where
    by_position-Staffed :
        (rule : Rule) (status_id : ℕ) (x : Option Employee) (position_id : ℕ) (r : RoutingResult)
        → find_user_by_position_and_structure org position_id c ≡ x
        → by_position org c rule status_id x ≡ ok r
        → Staffed org r.executor
    by_position-Staffed rule status_id (some e) position_id r found h =
        let (m, active) = find_user_by_position_and_structure-works position_id c e found in
        let u : r.executor ≡ scanned e.user =
          sym (ap (λ (x : RoutingResult). x.executor) (result_inj h)) in
        (e, m, active, u)
    by_position-Staffed rule status_id none position_id r found h =
        resolve_by_hierarchy-Staffed (with_structure rule c) r h

    by_columns-Staffed :
        (rule : Rule) (status_id position_id : Option ℕ) (r : RoutingResult)
        → by_columns org c rule status_id position_id ≡ ok r
        → Staffed org r.executor
    by_columns-Staffed rule none position_id r h = cc
    by_columns-Staffed rule (some status_id) none r h = cc
    by_columns-Staffed rule (some status_id) (some position_id) r h =
        by_position-Staffed rule status_id (find_user_by_position_and_structure org position_id c)
          position_id r refl h

    by_rule-Staffed :
        (x : Option Rule) (r : RoutingResult) → by_rule org c x ≡ ok r → Staffed org r.executor
    by_rule-Staffed none r h = resolve_by_hierarchy-Staffed c r h
    by_rule-Staffed (some rule) r h =
        by_columns-Staffed rule rule.status_id rule.assign_to_position_id r h

    by_query-Staffed :
        (x : Option Error) (r : RoutingResult) → by_query org c x ≡ ok r → Staffed org r.executor
    by_query-Staffed (some e) r h = cc
    by_query-Staffed none r h = by_rule-Staffed (chosen_rule org c) r h

    -- An executor that the engine finds by itself, by a rule or by the waterfall, is an employee of
    -- the table who is not deleted and is active.
    pub resolve_executor_automatic :
        (r : RoutingResult) → resolve_executor org c none ≡ ok r → Staffed org r.executor
    unfolding resolve_executor
    resolve_executor_automatic r h = by_query-Staffed org.rules_fault r h
