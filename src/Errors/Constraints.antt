-- ===== src/Errors/Constraints.antt =====
-- Which answer the name of a constraint has: the two tables of pkg/errors/errors.go.
use text.Mathlib.TextEquality.{eq_iff}
use request_system.Common.{
  ℕ, String, Bool, true, false, ◌&&◌, not, Option, none, some, List, [], ◌∷◌, ◌≡◌, refl, sym, ◌∙◌,
  inl, inr, arith, ap, ◌==◌, str_eq, codes, codes_eq, has_prefix, to_lower, trim_space,
  if◌then◌else◌, all, In, Bool-cases,
}
use request_system.Errors.{
  Error, http, Spec, exact_constraint_specs, prefix_constraint_specs, find_constraint_spec,
  find_exact, find_prefix, or_prefix, new_db_http_error,
}

abbrev pub normalized : String → List ℕ
normalized name = to_lower (codes (trim_space name))

abbrev pub NoExact : List ℕ → Type 0
NoExact name = (e : String × Spec) → In e exact_constraint_specs → codes_eq name (codes e.0) ≡ false

-- A constraint that neither table knows.
abbrev pub Unknown : List ℕ → Type 0
Unknown name =
    NoExact name
    × ((e : String × Spec) → In e prefix_constraint_specs → has_prefix name (codes e.0) ≡ false)

module _ {A : Type 0} (p : A → Bool) where
  pub all-In : (xs : List A) (a : A) → all p xs ≡ true → In a xs → p a ≡ true
  all-In [] a h m = absurd m
  all-In (x ∷ xs) a h (inl e) = let g : p x ≡ true = ground arith in ap p (sym e) ∙ g
  all-In (x ∷ xs) a h (inr m) = all-In xs a (ground arith) m

codes_eq-eq : (a b : List ℕ) → codes_eq a b ≡ true → a ≡ b
codes_eq-eq [] [] h = refl
codes_eq-eq [] (d ∷ t) h = cc
codes_eq-eq (c ∷ s) [] h = cc
codes_eq-eq (c ∷ s) (d ∷ t) h =
    let first : c ≡ d = ground arith in
    let rest = codes_eq-eq s t (ground arith) in ap (λ x. x ∷ s) first ∙ ap (λ l. d ∷ l) rest

-- The option holds that status and that message.
abbrev holds_spec : Option Spec → Spec → Bool
holds_spec none spec = false
holds_spec (some found) spec =
    found.status_code == spec.status_code && str_eq found.message spec.message

holds_spec-http :
    (found : Option Spec) (spec : Spec) (otherwise : Option Error)
    → holds_spec found spec ≡ true
    → (elim found [ some x ↦ some (new_db_http_error x) | none ↦ otherwise ])
      ≡ some (new_db_http_error spec)
holds_spec-http none spec otherwise h = cc
holds_spec-http (some x) spec otherwise h =
    let status : x.status_code ≡ spec.status_code = ground arith in
    let same : str_eq x.message spec.message ≡ true = ground arith in
    ap (λ n. some (http n x.message)) status
    ∙ ap (λ m. some (http spec.status_code m)) ((eq_iff x.message spec.message).0 same)

-- Every name of the table is found under its own answer: no two entries share a name.
abbrev is_found : String × Spec → Bool
is_found e =
    not (codes_eq (codes e.0) []) && holds_spec (find_exact (codes e.0) exact_constraint_specs) e.1

each_found : all is_found exact_constraint_specs ≡ true
unfolding find_exact
each_found = refl

abbrev pub answered : Option Error → Option Spec → Option Error
answered otherwise found = elim found [ some x ↦ some (new_db_http_error x) | none ↦ otherwise ]

none_found :
    (name : List ℕ) (table : List (String × Spec))
    → ((e : String × Spec) → In e table → codes_eq name (codes e.0) ≡ false)
    → find_exact name table ≡ none
unfolding find_exact
none_found name [] h = refl
none_found name (e ∷ table) h =
    let first = h e (inl refl) in
    let rest = none_found name table (λ x m. h x (inr m)) in ground arith

no_prefix :
    (name : List ℕ) (table : List (String × Spec))
    → ((e : String × Spec) → In e table → has_prefix name (codes e.0) ≡ false)
    → find_prefix name table ≡ none
unfolding find_prefix
no_prefix name [] h = refl
no_prefix name (e ∷ table) h =
    let first = h e (inl refl) in
    let rest = no_prefix name table (λ x m. h x (inr m)) in ground arith

-- No name has both prefixes.
prefix_found :
    (name : List ℕ) (e : String × Spec)
    → In e prefix_constraint_specs
    → has_prefix name (codes e.0) ≡ true
    → find_prefix name prefix_constraint_specs ≡ some e.1
unfolding find_prefix
prefix_found [] e (inl same) h =
    let g = ap (λ (x : String × Spec). has_prefix [] (codes x.0)) same ∙ h in cc
prefix_found [] e (inr (inl same)) h =
    let g = ap (λ (x : String × Spec). has_prefix [] (codes x.0)) same ∙ h in cc
prefix_found [] e (inr (inr m)) h = absurd m
prefix_found (c ∷ name) e (inl same) h =
    let g = ap (λ (x : String × Spec). has_prefix (c ∷ name) (codes x.0)) same ∙ h in
    ground arith ∙ ap (λ (x : String × Spec). some x.1) same
prefix_found (c ∷ name) e (inr (inl same)) h =
    let g = ap (λ (x : String × Spec). has_prefix (c ∷ name) (codes x.0)) same ∙ h in
    ground arith ∙ ap (λ (x : String × Spec). some x.1) same
prefix_found (c ∷ name) e (inr (inr m)) h = absurd m

empty_prefix : {A : Type 0} (spec : Spec) → find_prefix [] prefix_constraint_specs ≡ some spec → A
unfolding find_prefix
empty_prefix spec h = cc

module _ (name : String) (otherwise : Option Error) where
  found_first :
      (found : Option Spec) (spec : Spec)
      → codes_eq (normalized name) [] ≡ false
      → holds_spec found spec ≡ true
      → answered otherwise
          (if codes_eq (normalized name) [] then none else or_prefix (normalized name) found)
        ≡ some (new_db_http_error spec)
  unfolding or_prefix
  found_first none spec nonempty h = cc
  found_first (some x) spec nonempty h =
      ap (λ b. answered otherwise (if b then none else some x)) nonempty
      ∙ holds_spec-http (some x) spec otherwise h

  -- Without an exact name the prefixes decide.
  chosen :
      (n : List ℕ)
      → codes_eq n [] ≡ false
      → find_exact n exact_constraint_specs ≡ none
      → answered otherwise
          (if codes_eq n [] then none else or_prefix n (find_exact n exact_constraint_specs))
        ≡ answered otherwise (find_prefix n prefix_constraint_specs)
  unfolding or_prefix
  chosen n nonempty exact =
      ap
        (λ c.
          answered otherwise
            (if c then none else or_prefix n (find_exact n exact_constraint_specs)))
        nonempty
      ∙ ap (λ x. answered otherwise (or_prefix n x)) exact

  pub exact_spec :
      (e : String × Spec)
      → In e exact_constraint_specs
      → codes_eq (normalized name) (codes e.0) ≡ true
      → answered otherwise (find_constraint_spec name) ≡ some (new_db_http_error e.1)
  unfolding find_constraint_spec
  exact_spec e m h =
      let same : codes e.0 ≡ normalized name = sym (codes_eq-eq (normalized name) (codes e.0) h) in
      let good : is_found e ≡ true = all-In is_found exact_constraint_specs e each_found m in
      let nonempty : codes_eq (codes e.0) [] ≡ false = ground arith in
      let right : holds_spec (find_exact (codes e.0) exact_constraint_specs) e.1 ≡ true =
        ground arith in
      found_first (find_exact (normalized name) exact_constraint_specs) e.1
        (ap (λ l. codes_eq l []) (sym same) ∙ nonempty)
        (ap (λ l. holds_spec (find_exact l exact_constraint_specs) e.1) (sym same) ∙ right)

  pub prefix_spec :
      (e : String × Spec)
      → NoExact (normalized name)
      → In e prefix_constraint_specs
      → has_prefix (normalized name) (codes e.0) ≡ true
      → answered otherwise (find_constraint_spec name) ≡ some (new_db_http_error e.1)
  unfolding find_constraint_spec or_prefix
  prefix_spec e unknown m h =
      let n = normalized name in
      let exact = none_found n exact_constraint_specs unknown in
      let found = prefix_found n e m h in
      let nonempty : codes_eq n [] ≡ false = elim (Bool-cases (codes_eq n [])) [
        | inl empty ↦
            let g =
              ap (λ l. find_prefix l prefix_constraint_specs) (sym (codes_eq-eq n [] empty))
              ∙ found in
            empty_prefix e.1 g
        | inr e ↦ e
      ] in
      chosen n nonempty exact ∙ ap (answered otherwise) found

  pub find_constraint_spec-Unknown :
      Unknown (normalized name) → answered otherwise (find_constraint_spec name) ≡ otherwise
  unfolding find_constraint_spec or_prefix
  find_constraint_spec-Unknown (exact, prefix) =
      let n = normalized name in
      let a = none_found n exact_constraint_specs exact in
      let b = no_prefix n prefix_constraint_specs prefix in
      elim (Bool-cases (codes_eq n [])) [
        | inl e ↦
            ap
              (λ c.
                answered otherwise
                  (if c then none else or_prefix n (find_exact n exact_constraint_specs)))
              e
        | inr e ↦ chosen n e a ∙ ap (answered otherwise) b
      ]
