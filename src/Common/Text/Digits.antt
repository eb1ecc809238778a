-- ===== src/Common/Text/Digits.antt =====
-- Decimal digits written and read back.
use Prim.Native.Char.{Char, code}
use Prim.Native.Nat.{ℕ, zero, suc, ◌+◌, ◌*◌, ◌/◌, ◌%◌, ◌^◌, ◌<◌}
use Prim.Native.String.{String}
use mathlib.Core.Path.{◌≡◌, refl, ap, ◌∙◌}
use mathlib.Core.Logic.{inl, inr}
use mathlib.Core.Bool.{true, false}
use mathlib.Core.Option.{some}
use native.Mathlib.Nat.{pow-succ'}
use native.Mathlib.Omega.{arith}
use request_system.Common.Tests.{if◌then◌else◌, ◌==◌, Bool-cases}
use request_system.Common.Text.{
  digit, format_digits, format_uint, parse_digits, parse_uint, is_empty,
}

code-digit : (n : ℕ) → n < 10 → code (digit n) ≡ 48 + n
unfolding digit
code-digit zero h = refl
code-digit (suc zero) h = refl
code-digit (suc (suc zero)) h = refl
code-digit (suc (suc (suc zero))) h = refl
code-digit (suc (suc (suc (suc zero)))) h = refl
code-digit (suc (suc (suc (suc (suc zero))))) h = refl
code-digit (suc (suc (suc (suc (suc (suc zero)))))) h = refl
code-digit (suc (suc (suc (suc (suc (suc (suc zero))))))) h = refl
code-digit (suc (suc (suc (suc (suc (suc (suc (suc zero)))))))) h = refl
code-digit (suc (suc (suc (suc (suc (suc (suc (suc (suc zero))))))))) h = refl
code-digit (suc (suc (suc (suc (suc (suc (suc (suc (suc (suc n)))))))))) h = absurd (omega arith)

parse_digits-digit :
    (acc n : ℕ) (s : String)
    → n < 10
    → acc * 10 + n < 2 ^ 64
    → parse_digits acc (String.◌∷◌ (digit n) s) ≡ parse_digits (acc * 10 + n) s
unfolding parse_digits
parse_digits-digit acc n s small fits = let e = code-digit n small in ground arith

-- One digit is split off as long as there is more than one.
format_digits-step :
    (fuel n : ℕ) (s : String)
    → format_digits (suc fuel) n s ≡ (
        if n / 10 == 0
        then String.◌∷◌ (digit n) s
        else format_digits fuel (n / 10) (String.◌∷◌ (digit (n % 10)) s))
unfolding format_digits
format_digits-step fuel n s = refl

last_digit :
    (n : ℕ) (s : String)
    → n < 10
    → n < 2 ^ 64
    → parse_digits 0 (String.◌∷◌ (digit n) s) ≡ parse_digits n s
last_digit n s small fits =
    let z : 0 * 10 + n ≡ n = omega arith in
    parse_digits-digit 0 n s small (omega arith) ∙ ap (λ k. parse_digits k s) z

parse_digits-format_digits :
    (fuel n : ℕ) (s : String)
    → n < 10 ^ suc fuel
    → n < 2 ^ 64
    → parse_digits 0 (format_digits (suc fuel) n s) ≡ parse_digits n s
parse_digits-format_digits zero n s h fits =
    rw (format_digits-step 0 n s)
      (let e : (n / 10 == 0) ≡ true = ground arith in rw e (last_digit n s (omega arith) fits))
parse_digits-format_digits (suc fuel) n s h fits = elim (Bool-cases (n / 10 == 0)) [
  | inl e ↦ rw (format_digits-step (suc fuel) n s) (rw e (last_digit n s (ground arith) fits))
  | inr e ↦
      let q : n / 10 < 10 ^ suc fuel = omega (arith, pow-succ' 10 (suc fuel)) in
      let r : (n / 10) * 10 + n % 10 ≡ n = omega arith in
      rw (format_digits-step (suc fuel) n s) (
        rw e (
          parse_digits-format_digits fuel (n / 10) (String.◌∷◌ (digit (n % 10)) s) q (omega arith)
          ∙ parse_digits-digit (n / 10) (n % 10) s (omega arith) (omega arith)
          ∙ ap (λ k. parse_digits k s) r))
]

is_empty-format_digits :
    (fuel n : ℕ) (c : Char) (s : String) → is_empty (format_digits fuel n (String.◌∷◌ c s)) ≡ false
unfolding format_digits
is_empty-format_digits zero n c s = refl
is_empty-format_digits (suc fuel) n c s = elim (Bool-cases (n / 10 == 0)) [
  | inl e ↦ rw e refl
  | inr e ↦ rw e (is_empty-format_digits fuel (n / 10) (digit (n % 10)) (String.◌∷◌ c s))
]

nonempty : (fuel n : ℕ) (s : String) → is_empty (format_digits (suc fuel) n s) ≡ false
nonempty fuel n s = elim (Bool-cases (n / 10 == 0)) [
  | inl e ↦ rw (format_digits-step fuel n s) (rw e refl)
  | inr e ↦
      rw (format_digits-step fuel n s)
        (rw e (is_empty-format_digits fuel (n / 10) (digit (n % 10)) s))
]

parse_uint-nonempty : (s : String) → is_empty s ≡ false → parse_uint s ≡ parse_digits 0 s
unfolding parse_uint
parse_uint-nonempty s h = rw h refl

format_uint-digits : (n : ℕ) → format_uint n ≡ format_digits 20 n String.[]
unfolding format_uint
format_uint-digits n = refl

parse_digits-end : (n : ℕ) → parse_digits n String.[] ≡ some n
unfolding parse_digits
parse_digits-end n = refl

pub parse_uint-format_uint : (n : ℕ) → n < 2 ^ 64 → parse_uint (format_uint n) ≡ some n
parse_uint-format_uint n h =
    ap parse_uint (format_uint-digits n)
    ∙ parse_uint-nonempty (format_digits 20 n String.[]) (nonempty 19 n String.[])
    ∙ parse_digits-format_digits 19 n String.[] (omega arith) h
    ∙ parse_digits-end n
