-- ===== src/Orders/Store/Leaves.antt =====
-- What an action of the store leaves as it was, and how a successful chain of actions is taken
-- apart. One rule for each way to build an action.
use request_system.Common.{
  Bool, true, false, Option, none, some, ◌≡◌, refl, ◌∙◌, ap, subst, Option-cases, inl, inr,
  if◌then◌else◌,
}
use request_system.Errors.{Error, Result, ok, err}
use request_system.Orders.Store.{
  Store, World, Call, M, pure, fail, lift, continue, ◌>>=◌, modify, guard, or_fail, attempt,
}

-- Whether the action returns or fails, `f` reads the same afterwards.
pub record Leaves {ℓ} {B : Type ℓ} (f : Store → B) {A : Type 0} (m : M A) : Type ℓ where
  pub at : (s : Store) → f (m s).1 ≡ f s

module _ {ℓ} {B : Type ℓ} (f : Store → B) where
  pub Leaves-pure : {A : Type 0} (a : A) → Leaves f (pure a)
  unfolding pure
  Leaves-pure a = record { at = λ s. refl }

  pub Leaves-fail : {A : Type 0} (e : Error) → Leaves f (fail {A = A} e)
  unfolding fail
  Leaves-fail e = record { at = λ s. refl }

  pub Leaves-lift : {A : Type 0} (r : Result A) → Leaves f (lift r)
  unfolding lift
  Leaves-lift r = record { at = λ s. refl }

  pub Leaves-modify : (g : Store → Store) → ((s : Store) → f (g s) ≡ f s) → Leaves f (modify g)
  unfolding modify
  Leaves-modify g h = record { at = h }

  pub Leaves-guard : (b : Bool) (e : Error) → Leaves f (guard b e)
  unfolding guard
  Leaves-guard true e = record { at = λ s. refl }
  Leaves-guard false e = record { at = λ s. refl }

  pub Leaves-or_fail : {A : Type 0} (o : Option A) (e : Error) → Leaves f (or_fail o e)
  unfolding or_fail
  Leaves-or_fail (some a) e = record { at = λ s. refl }
  Leaves-or_fail none e = record { at = λ s. refl }

  pub Leaves-attempt : (w : World) (c : Call) → Leaves f (attempt w c)
  unfolding attempt
  Leaves-attempt w c = elim (Option-cases (w.fault c)) [
    | inl e ↦ record { at = λ s. rw (e, attempt) refl }
    | inr (x, e) ↦ record { at = λ s. rw (e, attempt) refl }
  ]

  Leaves-continue :
      {A C : Type 0} (k : A → M C)
      → ((a : A) → Leaves f (k a))
      → (r : Result A) (s : Store) → f (continue r k s).1 ≡ f s
  Leaves-continue k h (ok a) s = (h a).at s
  Leaves-continue k h (err e) s = refl

  pub Leaves-bind :
      {A C : Type 0} (m : M A) (k : A → M C)
      → Leaves f m
      → ((a : A) → Leaves f (k a))
      → Leaves f (m >>= k)
  unfolding ◌>>=◌
  Leaves-bind m k h g = record { at = λ s. Leaves-continue k g (m s).0 (m s).1 ∙ h.at s }

  pub Leaves-if :
      {A : Type 0} (b : Bool) (m n : M A) → Leaves f m → Leaves f n → Leaves f (if b then m else n)
  Leaves-if true m n h g = h
  Leaves-if false m n h g = g

-- A chain that succeeds is a first step that succeeds and a rest that does.
continue-eq-ok :
    {A C : Type 0} (r : Result A) (s : Store) (k : A → M C) (c : C) (t : Store)
    → continue r k s ≡ (ok c, t)
    → (a : A) × (r ≡ ok a) × (k a s ≡ (ok c, t))
continue-eq-ok (ok a) s k c t h = (a, refl, h)
continue-eq-ok (err e) s k c t h = cc (ap (λ p. p.0) h)

pub >>=-eq-ok :
    {A C : Type 0} (m : M A) (k : A → M C) (s : Store) (c : C) (t : Store)
    → (m >>= k) s ≡ (ok c, t)
    → (a : A) × ((m s).0 ≡ ok a) × (k a (m s).1 ≡ (ok c, t))
unfolding ◌>>=◌
>>=-eq-ok m k s c t h = continue-eq-ok (m s).0 (m s).1 k c t h

-- When the action succeeds, the final store stands in the relation `P` to what `f` read at first.
pub record Ends {ℓ} {B : Type ℓ} (f : Store → B) (P : B → Store → Type 0) {A : Type 0} (m : M A)
    : Type ℓ where
  pub at : (s : Store) (a : A) (t : Store) → m s ≡ (ok a, t) → P (f s) t

module _ {ℓ} {B : Type ℓ} (f : Store → B) (P : B → Store → Type 0) {A C : Type 0} where
  -- A first step that leaves `f` alone passes the relation on to the rest.
  pub Ends-bind :
      (m : M A) (k : A → M C)
      → Leaves f m
      → ((a : A) (s : Store) → (m s).0 ≡ ok a → Ends f P (k a))
      → Ends f P (m >>= k)
  Ends-bind m k h g = record {
    at = λ s c t e.
        let (a, done, rest) = >>=-eq-ok m k s c t e in
        subst (λ b. P b t) (h.at s) ((g a s done).at (m s).1 c t rest);
  }

  -- After the decisive step nothing that `P` sees may change.
  pub Ends-then : (m : M A) (c : C) → Ends f P m → Ends f P (m >>= λ _. pure c)
  unfolding pure
  Ends-then m c h = record {
    at = λ s b t e.
        let (a, done, rest) = >>=-eq-ok m (λ _. pure c) s b t e in
        subst (P (f s)) (ap (λ p. p.1) rest) (h.at s a (m s).1 (λ i. (done i, (m s).1)));
  }

pub Ends-if :
    {B : Type 0} (f : Store → B) (P : B → Store → Type 0) {A : Type 0} (b : Bool) (m n : M A)
    → Ends f P m
    → Ends f P n
    → Ends f P (if b then m else n)
Ends-if f P true m n h g = h
Ends-if f P false m n h g = g

-- Every value that the action may return is one that `P` holds of.
pub record Returns {A : Type 0} (P : A → Type 0) (m : M A) : Type 0 where
  pub at : (s : Store) (a : A) → (m s).0 ≡ ok a → P a

pub Returns-bind :
    {A C : Type 0} (P : C → Type 0) (m : M A) (k : A → M C)
    → ((a : A) (s : Store) → (m s).0 ≡ ok a → Returns P (k a))
    → Returns P (m >>= k)
Returns-bind P m k h = record {
  at = λ s c e.
      let (a, done, rest) = >>=-eq-ok m k s c ((m >>= k) s).1 (λ i. (e i, ((m >>= k) s).1)) in
      (h a s done).at (m s).1 c (ap (λ p. p.0) rest);
}

pub Returns-pure : {A : Type 0} (P : A → Type 0) (a : A) → P a → Returns P (pure a)
unfolding pure
Returns-pure P a p = record { at = λ s b e. subst P (ok_inj e) p }
  where
    ok_inj : {A : Type 0} {a b : A} → ok a ≡ ok b → a ≡ b
    ok_inj e = cc

-- The same with the result: `P` relates what `f` read at first, the result and the final store.
pub record Yields {ℓ} {B : Type ℓ} {A : Type 0} (f : Store → B) (P : B → A → Store → Type 0)
    (m : M A) : Type ℓ where
  pub at : (s : Store) (a : A) (t : Store) → m s ≡ (ok a, t) → P (f s) a t

pub Yields-bind {ℓ} :
    {B : Type ℓ} {A C : Type 0} (f : Store → B) (P : B → C → Store → Type 0) (m : M A) (k : A → M C)
    → Leaves f m
    → ((a : A) (s : Store) → (m s).0 ≡ ok a → Yields f P (k a))
    → Yields f P (m >>= k)
Yields-bind f P m k h g = record {
  at = λ s c t e.
      let (a, done, rest) = >>=-eq-ok m k s c t e in
      subst (λ b. P b c t) (h.at s) ((g a s done).at (m s).1 c t rest);
}
