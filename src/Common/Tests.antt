-- ===== src/Common/Tests.antt =====
-- Boolean tests, the conditional, and Go's pointers to values as options.
use Prim.Native.Nat.{ℕ, compare, Ordering}
use Prim.Native.String.{String}
use mathlib.Core.Path.{◌≡◌, refl}
use mathlib.Core.Logic.{◌↔◌, ◌⊎◌, inl, inr, ◌≢◌}
use mathlib.Core.Bool.{Bool, true, false, ◌||◌, ◌&&◌, not}
use mathlib.Core.Option.{Option, none, some}
use text.Mathlib.Text.{◌==◌ as text_eq}
use text.Mathlib.TextEquality.{eq_iff}
use native.Mathlib.Omega.{arith}

abbrev pub ltb : ℕ → ℕ → Bool
ltb a b = elim (compare a b) [ Ordering.lt ↦ true | _ ↦ false ]

abbrev pub leb : ℕ → ℕ → Bool
leb a b = elim (compare a b) [ Ordering.gt ↦ false | _ ↦ true ]

infix 50 ◌==◌
abbrev pub ◌==◌ : ℕ → ℕ → Bool
a == b = elim (compare a b) [ Ordering.eq ↦ true | _ ↦ false ]

abbrev pub str_eq : String → String → Bool
str_eq = text_eq

infix 1 if◌then◌else◌
abbrev pub if◌then◌else◌ {ℓ} : {A : Type ℓ} → Bool → A → A → A
if true then x else y = x
if false then x else y = y

pub Bool-cases : (b : Bool) → (b ≡ true) ⊎ (b ≡ false)
Bool-cases true = inl refl
Bool-cases false = inr refl

pub Option-cases {ℓ} : {A : Type ℓ} (o : Option A) → (o ≡ none) ⊎ ((a : A) × (o ≡ some a))
Option-cases none = inl refl
Option-cases (some a) = inr (a, refl)

pub ==_iff : (a b : ℕ) → ((a == b) ≡ true) ↔ (a ≡ b)
==_iff a b = ground arith

pub ==_refl : (a : ℕ) → (a == a) ≡ true
==_refl a = ground arith

pub ||_elim : (a b : Bool) → (a || b) ≡ true → (a ≡ true) ⊎ (b ≡ true)
||_elim a b h = ground arith

-- `p != nil`.
abbrev pub is_some {ℓ} : {A : Type ℓ} → Option A → Bool
is_some none = false
is_some (some a) = true

-- `a != nil && b != nil && *a == *b`.
abbrev pub both_equal : Option ℕ → Option ℕ → Bool
both_equal (some a) (some b) = a == b
both_equal none _ = false
both_equal (some a) none = false

-- `p != nil && *p == n`.
abbrev pub points_to : Option ℕ → ℕ → Bool
points_to none n = false
points_to (some a) n = a == n

pub both_equal_iff :
    (a b : Option ℕ) → (both_equal a b ≡ true) ↔ ((n : ℕ) × (a ≡ some n) × (b ≡ some n))
both_equal_iff none b = (λ h. cc, λ h. cc (h.1))
both_equal_iff (some a) none = (λ h. cc, λ h. cc (h.2))
both_equal_iff (some a) (some b) = (λ h. (a, refl, ground arith), λ h. ground (arith, h.1, h.2))

pub points_to_iff : (a : Option ℕ) (n : ℕ) → (points_to a n ≡ true) ↔ (a ≡ some n)
points_to_iff none n = (λ h. cc, λ h. cc)
points_to_iff (some a) n = (λ h. ground arith, λ h. ground arith)

pub str_ne : (a b : String) → a ≢ b → str_eq a b ≡ false
str_ne a b h = elim (Bool-cases (str_eq a b)) [ inl e ↦ absurd (h ((eq_iff a b).0 e)) | inr e ↦ e ]

-- What Go's `if c { return true }` keeps when its test and the rest only become true more often.
pub if_mono :
    (c c' d d' : Bool)
    → (c ≡ true → c' ≡ true)
    → (d ≡ true → d' ≡ true)
    → (if c then true else d) ≡ true
    → (if c' then true else d') ≡ true
if_mono c true d d' f g h = refl
if_mono true false d d' f g h = cc (f refl)
if_mono false false d d' f g h = g h

pub &&_mono : (c c' d : Bool) → (c ≡ true → c' ≡ true) → (c && d) ≡ true → (c' && d) ≡ true
&&_mono true c' d f h = ground (arith, f refl)
&&_mono false c' d f h = cc

pub ||_mono :
    (c c' d d' : Bool)
    → (c ≡ true → c' ≡ true)
    → (d ≡ true → d' ≡ true)
    → (c || d) ≡ true
    → (c' || d') ≡ true
||_mono c true d d' f g h = refl
||_mono true false d d' f g h = cc (f refl)
||_mono false false d d' f g h = g h

-- `utils.DiffPtr` of pkg/utils/patch.go, and the like for other types.
abbrev pub diff_ptr {ℓ} : {A : Type ℓ} → (A → A → Bool) → Option A → Option A → Bool
diff_ptr same none none = false
diff_ptr same none (some b) = true
diff_ptr same (some a) none = true
diff_ptr same (some a) (some b) = not (same a b)

abbrev pub bool_eq : Bool → Bool → Bool
bool_eq true b = b
bool_eq false b = not b

-- `utils.SafeDeref`.
abbrev pub safe_deref : Option ℕ → ℕ
safe_deref none = 0
safe_deref (some n) = n
