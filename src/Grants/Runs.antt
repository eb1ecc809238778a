-- ===== src/Grants/Runs.antt =====
-- What a step of the permission services did, read off its result.
use request_system.Common.{
  ℕ, Bool, not, ◌&&◌, ◌||◌, Option, none, some, List, [], ◌∷◌, ◌++◌, map, select, if◌then◌else◌,
  ◌==◌, ◌≡◌, refl, sym, ◌∙◌, ap, arith, ◌⊎◌, inl, inr,
}
use request_system.Errors.{Error, Result, ok, err}
use request_system.Grants.{
  State, Call, commit_tx, begin_tx, World, M, continue, ◌>>=◌, call, call_result, transaction,
  opened, closed, committed, mem, has_link, sync_user_links, get, del, Cache,
}

pub >>=-ok :
    {A B : Type 0} (m : M A) (k : A → M B) (s s'' : State) (b : B)
    → (m >>= k) s ≡ (ok b, s'')
    → (a : A) × (s' : State) × (m s ≡ (ok a, s')) × (k a s' ≡ (ok b, s''))
unfolding ◌>>=◌
>>=-ok {A} {B} m k s s'' b h = after (m s) refl h
  where
    after :
        (r : Result A × State)
        → m s ≡ r
        → continue r.0 k r.1 ≡ (ok b, s'')
        → (a : A) × (s' : State) × (m s ≡ (ok a, s')) × (k a s' ≡ (ok b, s''))
    after (ok a, s') e g = (a, s', e, g)
    after (err x, s') e g = let f : ◌≡◌ {A = Result B} (err x) (ok b) = ap (λ r. r.0) g in cc

pub call-ok :
    (w : World) (c : Call) (f : State → State) (s s' : State) (u : Unit {0})
    → call w c f s ≡ (ok u, s')
    → s' ≡ f s
unfolding call
call-ok w c f s s' u h = after (w.fault c) h
  where
    after : (fault : Option Error) → call_result fault f s ≡ (ok u, s') → s' ≡ f s
    after none g = sym (ap (λ r. r.1) g)
    after (some e) g = let x : ◌≡◌ {A = Result (Unit {0})} (err e) (ok u) = ap (λ r. r.0) g in cc

module _ {A : Type 0} (w : World) (wrap : Error → Error) (body : M A) (s : State) where
  pub transaction-ok :
      (s' : State) (a : A) → transaction w wrap body s ≡ (ok a, s') → body s ≡ (ok a, s')
  unfolding transaction
  transaction-ok s' a h = begun (w.fault begin_tx) h
    where
      done :
          (fault : Option Error) (b : A) (t : State)
          → body s ≡ (ok b, t)
          → committed s.db b fault t ≡ (ok a, s')
          → body s ≡ (ok a, s')
      done none b t e g = e ∙ g
      done (some x) b t e g = let f : ◌≡◌ {A = Result A} (err x) (ok a) = ap (λ r. r.0) g in cc

      ended :
          (r : Result A × State)
          → body s ≡ r
          → closed w wrap s.db r.0 r.1 ≡ (ok a, s')
          → body s ≡ (ok a, s')
      ended (ok b, t) e g = done (w.fault commit_tx) b t e g
      ended (err x, t) e g =
          let f : ◌≡◌ {A = Result A} (err (wrap x)) (ok a) = ap (λ r. r.0) g in cc

      begun : (fault : Option Error) → opened w wrap fault body s ≡ (ok a, s') → body s ≡ (ok a, s')
      begun none g = ended (body s) refl g
      begun (some x) g = let f : ◌≡◌ {A = Result A} (err x) (ok a) = ap (λ r. r.0) g in cc

  -- Nothing is left of what a failed transaction wrote, and the cache is as its body left it.
  pub transaction-err :
      (s' : State) (x : Error)
      → transaction w wrap body s ≡ (err x, s')
      → (s'.db ≡ s.db) × ((s'.cache ≡ s.cache) ⊎ (s'.cache ≡ (body s).1.cache))
  unfolding transaction
  transaction-err s' x h = begun (w.fault begin_tx) h
    where
      Left : Type 0
      Left = (s'.db ≡ s.db) × ((s'.cache ≡ s.cache) ⊎ (s'.cache ≡ (body s).1.cache))

      done :
          (fault : Option Error) (b : A) (t : State)
          → body s ≡ (ok b, t)
          → committed s.db b fault t ≡ (err x, s')
          → Left
      done none b t e g = let f : ◌≡◌ {A = Result A} (ok b) (err x) = ap (λ r. r.0) g in cc
      done (some y) b t e g =
          let k : record t { db = s.db } ≡ s' = ap (λ r. r.1) g in
          (ap (λ r. r.db) (sym k), inr (ap (λ r. r.cache) (sym k) ∙ ap (λ r. r.1.cache) (sym e)))

      ended : (r : Result A × State) → body s ≡ r → closed w wrap s.db r.0 r.1 ≡ (err x, s') → Left
      ended (ok b, t) e g = done (w.fault commit_tx) b t e g
      ended (err y, t) e g =
          let k : record t { db = s.db } ≡ s' = ap (λ r. r.1) g in
          (ap (λ r. r.db) (sym k), inr (ap (λ r. r.cache) (sym k) ∙ ap (λ r. r.1.cache) (sym e)))

      begun : (fault : Option Error) → opened w wrap fault body s ≡ (err x, s') → Left
      begun none g = ended (body s) refl g
      begun (some y) g =
          let k : s ≡ s' = ap (λ r. r.1) g in
          (ap (λ r. r.db) (sym k), inl (ap (λ r. r.cache) (sym k)))

pub mem-select : (p : ℕ → Bool) (n : ℕ) (l : List ℕ) → mem n (select p l) ≡ (mem n l && p n)
mem-select p n [] = refl
mem-select p n (m ∷ l) = ground (arith, mem-select p n l)

pub has_link-append :
    (a b : ℕ) (l m : List (ℕ × ℕ)) → has_link a b (l ++ m) ≡ (has_link a b l || has_link a b m)
has_link-append a b [] m = refl
has_link-append a b (x ∷ l) m = ground (arith, has_link-append a b l m)

pub has_link-others :
    (a b u : ℕ) (l : List (ℕ × ℕ))
    → has_link a b (select (λ x. not (x.0 == u)) l) ≡ (has_link a b l && not (a == u))
has_link-others a b u [] = refl
has_link-others a b u (x ∷ l) = ground (arith, has_link-others a b u l)

pub has_link-given :
    (a b u : ℕ) (ids : List ℕ)
    → has_link a b (map (λ (id : ℕ). (u, id)) ids) ≡ (a == u && mem b ids)
has_link-given a b u [] = ground arith
has_link-given a b u (id ∷ ids) = ground (arith, has_link-given a b u ids)

pub has_link-sync_user_links :
    (a b u : ℕ) (ids : List ℕ) (l : List (ℕ × ℕ))
    → has_link a b (sync_user_links u ids l) ≡ (if a == u then mem b ids else has_link a b l)
has_link-sync_user_links a b u ids l =
    has_link-append a b (select (λ x. not (x.0 == u)) l) (map (λ (id : ℕ). (u, id)) ids)
    ∙ ground (arith, has_link-others a b u l, has_link-given a b u ids)

pub get-del : (u v : ℕ) (c : Cache) → get u (del v c) ≡ (if u == v then none else get u c)
get-del u v [] = ground arith
get-del u v (e ∷ c) = ground (arith, get-del u v c)
