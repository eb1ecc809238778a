-- ===== src/Common/Lists.antt =====
-- Lists searched, measured and quantified over.
use Prim.Native.Nat.{ℕ, zero, suc, ◌+◌}
use Prim.Native.String.{String}
use mathlib.Core.Path.{◌≡◌, refl, ap, subst, ◌∙◌}
use mathlib.Core.Logic.{◌⊎◌, ◌↔◌, inl, inr}
use mathlib.Core.Bool.{Bool, true, false, ◌||◌, ◌&&◌}
use mathlib.Core.Option.{Option, none, some}
use mathlib.Core.List.{List, [], ◌∷◌, ◌++◌}
use native.Mathlib.Omega.{arith}
use text.Mathlib.TextEquality.{eq_iff}
use request_system.Common.Tests.{if◌then◌else◌, str_eq, Bool-cases}

module _ {ℓ} {A : Type ℓ} where
  abbrev pub length : List A → ℕ
  length [] = 0
  length (x ∷ xs) = suc (length xs)

  abbrev pub any : (A → Bool) → List A → Bool
  any p [] = false
  any p (x ∷ xs) = p x || any p xs

  abbrev pub all : (A → Bool) → List A → Bool
  all p [] = true
  all p (x ∷ xs) = p x && all p xs

  -- The elements that pass the test, in their order.
  abbrev pub select : (A → Bool) → List A → List A
  select p [] = []
  select p (x ∷ xs) = let rest = select p xs in if p x then x ∷ rest else rest

  abbrev pub find : (A → Bool) → List A → Option A
  find p [] = none
  find p (x ∷ xs) = let rest = find p xs in if p x then some x else rest

  abbrev pub take : ℕ → List A → List A
  take zero xs = []
  take (suc n) [] = []
  take (suc n) (x ∷ xs) = x ∷ take n xs

  abbrev pub drop : ℕ → List A → List A
  drop zero xs = xs
  drop (suc n) [] = []
  drop (suc n) (x ∷ xs) = drop n xs

  pub length-append : (xs ys : List A) → length (xs ++ ys) ≡ length xs + length ys
  length-append [] ys = omega arith
  length-append (x ∷ xs) ys = omega (arith, length-append xs ys)

module _ {A : Type 0} where
  abbrev pub In : A → List A → Type 0
  In a [] = ⊥
  In a (x ∷ xs) = (x ≡ a) ⊎ In a xs

  pub find_sound :
      (p : A → Bool) (xs : List A) (a : A) → find p xs ≡ some a → (p a ≡ true) × In a xs
  find_sound p [] a e = cc
  find_sound p (x ∷ xs) a e = elim (Bool-cases (p x)) [
    | inl hit ↦ (ground arith, inl (ground arith))
    | inr miss ↦ let (h, m) = find_sound p xs a (ground arith) in (h, inr m)
  ]

  pub find_complete :
      (p : A → Bool) (xs : List A) (a : A) → find p xs ≡ none → In a xs → p a ≡ false
  find_complete p [] a e m = absurd m
  find_complete p (x ∷ xs) a e (inl h) = ground arith
  find_complete p (x ∷ xs) a e (inr m) = find_complete p xs a (ground arith) m

  select_kept :
      (p : A → Bool) (x a : A) (xs : List A)
      → p x ≡ true
      → (In a (select p xs) → (p a ≡ true) × In a xs)
      → In a (x ∷ select p xs)
      → (p a ≡ true) × In a (x ∷ xs)
  select_kept p x a xs hit rest (inl same) = (subst (λ y. p y ≡ true) same hit, inl same)
  select_kept p x a xs hit rest (inr m) = let (q, n) = rest m in (q, inr n)

  pub select_sound :
      (p : A → Bool) (xs : List A) (a : A) → In a (select p xs) → (p a ≡ true) × In a xs
  select_sound p [] a h = absurd h
  select_sound p (x ∷ xs) a h = elim (Bool-cases (p x)) [
    | inl hit ↦ select_kept p x a xs hit (select_sound p xs a) (rw hit at h)
    | inr miss ↦
        let g : In a (select p xs) = rw miss at h in
        let (q, m) = select_sound p xs a g in (q, inr m)
  ]

  pub select_complete :
      (p : A → Bool) (xs : List A) (a : A) → p a ≡ true → In a xs → In a (select p xs)
  select_complete p [] a h m = absurd m
  select_complete p (x ∷ xs) a h (inl e) = let hit : p x ≡ true = ap p e ∙ h in rw hit (inl e)
  select_complete p (x ∷ xs) a h (inr m) = elim (Bool-cases (p x)) [
    | inl hit ↦ rw hit (inr (select_complete p xs a h m))
    | inr miss ↦ rw miss (select_complete p xs a h m)
  ]

  pub any_sound : (p : A → Bool) (xs : List A) → any p xs ≡ true → (a : A) × In a xs × (p a ≡ true)
  any_sound p [] h = cc
  any_sound p (x ∷ xs) h = elim (Bool-cases (p x)) [
    | inl hit ↦ (x, inl refl, hit)
    | inr miss ↦ let (a, m, e) = any_sound p xs (ground arith) in (a, inr m, e)
  ]

  pub any_complete : (p : A → Bool) (xs : List A) (a : A) → In a xs → p a ≡ true → any p xs ≡ true
  any_complete p [] a m h = absurd m
  any_complete p (x ∷ xs) a (inl e) h = let hit : p x ≡ true = ap p e ∙ h in ground arith
  any_complete p (x ∷ xs) a (inr m) h = ground (arith, any_complete p xs a m h)

-- Whether a text is among the keys.
abbrev pub has_key : String → List String → Bool
has_key k = any (λ j. str_eq j k)

pub has_key_iff : (k : String) (l : List String) → (has_key k l ≡ true) ↔ In k l
has_key_iff k l = (
  λ h. let (a, m, e) = any_sound (λ j. str_eq j k) l h in subst (λ x. In x l) ((eq_iff a k).0 e) m,
  λ m. any_complete (λ j. str_eq j k) l k m ((eq_iff k k).1 refl),
)
