-- ===== src/Orders/Timeline/Names.antt =====
-- `historyReferenceResolver`: the names of units, statuses and priorities, each looked up once.
use request_system.Common.{
  ℕ, String, Bool, ◌&&◌, Option, none, some, List, [], ◌∷◌, if◌then◌else◌, ◌==◌,
}

-- The six pairs of maps of the resolver.
pub data Kind : Type 0 where
  department otdel branch office status priority : Kind

abbrev kind_number : Kind → ℕ
kind_number department = 0
kind_number otdel = 1
kind_number branch = 2
kind_number office = 3
kind_number status = 4
kind_number priority = 5

abbrev pub same_kind : Kind → Kind → Bool
same_kind a b = kind_number a == kind_number b

-- What was seen, with the name that was found, or the empty text.
abbrev pub Seen : Type 0
Seen = List (Kind × ℕ × String)

abbrev pub recall : Kind → ℕ → Seen → Option String
recall k id [] = none
recall k id ((k', id', name) ∷ rest) =
    let later = recall k id rest in if same_kind k' k && id' == id then some name else later

-- The repositories: `none` is an error of any sort.
abbrev pub Lookup : Type 0
Lookup = Kind → ℕ → Option String

abbrev pub found_name : Option String → String
found_name none = ""
found_name (some name) = name

-- A computation that may look names up, over a state of the caller's choice.
abbrev pub Reads : Type 0 → Type 0 → Type 0
Reads S A = S → A × S

-- How a name is looked up in such a computation.
abbrev pub Namer : Type 0 → Type 0
Namer S = Kind → ℕ → Reads S String

abbrev pub remembered : Option String → String → Kind → ℕ → Seen → String × Seen
remembered (some name) fresh k id seen = (name, seen)
remembered none fresh k id seen = (fresh, (k, id, fresh) ∷ seen)

-- `departmentName` and its five twins.
unfoldable pub cached_name : Lookup → Namer Seen
cached_name find k id seen = remembered (recall k id seen) (found_name (find k id)) k id seen

-- The repository asked each time.
unfoldable pub direct_name : Lookup → Namer (Unit {0})
direct_name find k id s = (found_name (find k id), s)

unfoldable pub give : {S A : Type 0} → A → Reads S A
give a s = (a, s)

infixl 5 ◌>>=◌
unfoldable pub ◌>>=◌ : {S A B : Type 0} → Reads S A → (A → Reads S B) → Reads S B
unfolding give
◌>>=◌ m k s = let (a, s') = m s in k a s'
