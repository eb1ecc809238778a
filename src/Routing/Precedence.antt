-- ===== src/Routing/Precedence.antt =====
-- Which rule the engine chooses.
use request_system.Common.{
  select_sound, select_complete, ℕ, ltb, Bool, true, false, ◌&&◌, ◌||◌, Option, none, some, List,
  [], ◌∷◌, ◌≡◌, refl, ◌∙◌, sym, subst, arith, In, select, Bool-cases, inl, inr, ◌⊎◌, ◌==◌,
  if◌then◌else◌,
}
use request_system.Orders.Requests.{OrderContext}
use request_system.Routing.People.{
  Rule, Organisation, nulls_last, stands_before, first_rule, first_of, rule_matches, chosen_rule,
}

abbrev later : ℕ → ℕ → Bool → Bool
later a b rest = ltb a b || (a == b && rest)

later_trans :
    (a b c : ℕ) (p q r : Bool)
    → (p ≡ true → q ≡ true → r ≡ true)
    → later a b p ≡ true
    → later b c q ≡ true
    → later a c r ≡ true
later_trans a b c true true r f h g = ground (arith, f refl refl)
later_trans a b c true false r f h g = ground arith
later_trans a b c false q r f h g = ground arith

later-split :
    (a b c : ℕ) (p q r : Bool)
    → (r ≡ true → (p ≡ true) ⊎ (q ≡ true))
    → later a c r ≡ true
    → (later a b p ≡ true) ⊎ (later b c q ≡ true)
later-split a b c true q r f h = ground arith
later-split a b c false true r f h = ground arith
later-split a b c false false true f h = elim (f refl) [ inl e ↦ cc | inr e ↦ cc ]
later-split a b c false false false f h = ground arith

nulls_last_trans :
    (a b c : Option ℕ) (p q r : Bool)
    → (p ≡ true → q ≡ true → r ≡ true)
    → nulls_last a b p ≡ true
    → nulls_last b c q ≡ true
    → nulls_last a c r ≡ true
nulls_last_trans none none none p q r f h g = f h g
nulls_last_trans none none (some c) p q r f h g = cc
nulls_last_trans none (some b) c p q r f h g = cc
nulls_last_trans (some a) none none p q r f h g = refl
nulls_last_trans (some a) none (some c) p q r f h g = cc
nulls_last_trans (some a) (some b) none p q r f h g = refl
nulls_last_trans (some a) (some b) (some c) p q r f h g = later_trans a b c p q r f h g

-- Whoever stands before c stands before b, or b before c.
nulls_last-split :
    (a b c : Option ℕ) (p q r : Bool)
    → (r ≡ true → (p ≡ true) ⊎ (q ≡ true))
    → nulls_last a c r ≡ true
    → (nulls_last a b p ≡ true) ⊎ (nulls_last b c q ≡ true)
nulls_last-split none none none p q r f h = f h
nulls_last-split none b (some c) p q r f h = cc
nulls_last-split none (some b) none p q r f h = inr refl
nulls_last-split (some a) none none p q r f h = inl refl
nulls_last-split (some a) (some b) none p q r f h = inr refl
nulls_last-split (some a) none (some c) p q r f h = inl refl
nulls_last-split (some a) (some b) (some c) p q r f h = later-split a b c p q r f h

stands_before_trans :
    (a b c : Rule) → stands_before a b ≡ true → stands_before b c ≡ true → stands_before a c ≡ true
stands_before_trans a b c = nulls_last_trans a.order_type_id b.order_type_id c.order_type_id _ _ _ (
    nulls_last_trans a.otdel_id b.otdel_id c.otdel_id _ _ _ (
      nulls_last_trans a.office_id b.office_id c.office_id _ _ _ (
        nulls_last_trans a.department_id b.department_id c.department_id _ _ _
          (nulls_last_trans a.branch_id b.branch_id c.branch_id false false false (λ h g. h)))))

stands_before-split :
    (a b c : Rule)
    → stands_before a c ≡ true
    → (stands_before a b ≡ true) ⊎ (stands_before b c ≡ true)
stands_before-split a b c = nulls_last-split a.order_type_id b.order_type_id c.order_type_id _ _ _ (
    nulls_last-split a.otdel_id b.otdel_id c.otdel_id _ _ _ (
      nulls_last-split a.office_id b.office_id c.office_id _ _ _ (
        nulls_last-split a.department_id b.department_id c.department_id _ _ _
          (nulls_last-split a.branch_id b.branch_id c.branch_id false false false (λ h. inl h)))))

nulls_last_irrefl : (a : Option ℕ) (p : Bool) → p ≡ false → nulls_last a a p ≡ false
nulls_last_irrefl none p h = h
nulls_last_irrefl (some a) p h = ground arith

stands_before_irrefl : (a : Rule) → stands_before a a ≡ false
stands_before_irrefl a = nulls_last_irrefl a.order_type_id _ (
    nulls_last_irrefl a.otdel_id _ (
      nulls_last_irrefl a.office_id _
        (nulls_last_irrefl a.department_id _ (nulls_last_irrefl a.branch_id false refl))))

-- If `w` is overtaken by no winner of a duel, then by neither of the two.
duel :
    (x r w : Rule)
    → stands_before (if stands_before x r then x else r) w ≡ false
    → (stands_before x w ≡ false) × (stands_before r w ≡ false)
duel x r w h = elim (Bool-cases (stands_before x r)) [
  | inl e ↦
      let g : stands_before x w ≡ false = rw e at h in
      (
        g,
        elim (Bool-cases (stands_before r w)) [
          | inl k ↦ cc (sym g ∙ stands_before_trans x r w e k)
          | inr k ↦ k
        ],
      )
  | inr e ↦
      let g : stands_before r w ≡ false = rw e at h in
      (
        elim (Bool-cases (stands_before x w)) [
          | inl k ↦ elim (stands_before-split x r w k) [
            | inl l ↦ cc (sym e ∙ l)
            | inr l ↦ cc (sym g ∙ l)
          ]
          | inr k ↦ k
        ],
        g,
      )
]

first_rule-least :
    (r : Rule) (rs : List Rule) (x : Rule)
    → In x (r ∷ rs)
    → stands_before x (first_rule r rs) ≡ false
unfolding first_rule
first_rule-least r [] x (inl e) = subst (λ y. stands_before y r ≡ false) e (stands_before_irrefl r)
first_rule-least r [] x (inr m) = absurd m
first_rule-least r (y ∷ rs) x (inl e) =
    let w = first_rule (if stands_before y r then y else r) rs in
    subst (λ z. stands_before z w ≡ false) e
      (duel y r w (first_rule-least (if stands_before y r then y else r) rs _ (inl refl))).1
first_rule-least r (y ∷ rs) x (inr (inl e)) =
    let w = first_rule (if stands_before y r then y else r) rs in
    subst (λ z. stands_before z w ≡ false) e
      (duel y r w (first_rule-least (if stands_before y r then y else r) rs _ (inl refl))).0
first_rule-least r (y ∷ rs) x (inr (inr m)) =
    first_rule-least (if stands_before y r then y else r) rs x (inr m)

first_rule-In : (r : Rule) (rs : List Rule) → In (first_rule r rs) (r ∷ rs)
unfolding first_rule
first_rule-In r [] = inl refl
first_rule-In r (y ∷ rs) =
    widen (stands_before y r) (first_rule-In (if stands_before y r then y else r) rs)
  where
    widen : {x : Rule} (b : Bool) → In x ((if b then y else r) ∷ rs) → In x (r ∷ y ∷ rs)
    widen true h = inr h
    widen false (inl e) = inl e
    widen false (inr m) = inr (inr m)

first_of-chosen :
    (rs : List Rule) (r : Rule)
    → first_of rs ≡ some r
    → In r rs × ((x : Rule) → In x rs → stands_before x r ≡ false)
first_of-chosen [] r h = cc
first_of-chosen (y ∷ rs) r h =
    let same : first_rule y rs ≡ r = cc in
    subst (λ w. In w (y ∷ rs) × ((x : Rule) → In x (y ∷ rs) → stands_before x w ≡ false)) same
      (first_rule-In y rs, first_rule-least y rs)

-- The rule that the engine follows is in the table and fits the order, and no rule that fits the
-- order stands before it: a rule for the order's type goes before one for any type, and among
-- these the sub-unit, the office, the department and the branch decide in this order.
pub chosen_rule_first :
    (org : Organisation) (c : OrderContext) (r : Rule)
    → chosen_rule org c ≡ some r
    → In r org.rules
      × (rule_matches c r ≡ true)
      × ((x : Rule) → In x org.rules → rule_matches c x ≡ true → stands_before x r ≡ false)
unfolding chosen_rule
chosen_rule_first org c r h =
    let (m, least) = first_of-chosen (select (rule_matches c) org.rules) r h in
    let (fits, n) = select_sound (rule_matches c) org.rules r m in
    (n, fits, λ x k q. least x (select_complete (rule_matches c) org.rules x q k))
