-- ===== src/Orders/Timeline/Readback.antt =====
-- The ids that the order service writes into the history, read by the timeline.
use Prim.Native.String.{◌++◌ as concat}
use request_system.Common.{
  ℕ, ◌^◌, ◌<◌, String, false, Option, none, some, ◌≡◌, refl, ◌∙◌, ap, is_empty, parse_uint,
  format_uint,
}
use request_system.Common.Text.Digits.{parse_uint-format_uint}
use request_system.Orders.History.{ptr_to_string}
use request_system.Orders.Timeline.Names.{Kind, Lookup, direct_name, give, ◌>>=◌}
use request_system.Orders.Timeline.Texts.{quoted}
use request_system.Orders.Timeline.Lines.{id_line, change_line}

module _ (find : Lookup) (k : Kind) (line other : String) where
  read_back :
      (id : Option ℕ) (n : ℕ) (value name : String)
      → id ≡ some n
      → find k n ≡ some name
      → is_empty name ≡ false
      → (id_line (direct_name find) k line other value id tt).0 ≡ concat line (quoted name)
  unfolding direct_name ◌>>=◌ give
  read_back none n value name e found full = cc
  read_back (some m) n value name e found full =
      let same : m ≡ n = cc in
      let g : find k m ≡ some name = ap (find k) same ∙ found in rw (g, full) refl

  -- The text that PtrToString makes of an id of 64 bits is read back as that id: where the id has a
  -- name, the line of the change shows the name.
  pub change_line-ptr_to_string :
      (n : ℕ) (name : String)
      → n < 2 ^ 64
      → find k n ≡ some name
      → is_empty name ≡ false
      → (change_line (direct_name find) k line other (ptr_to_string (some n)) tt).0
        ≡ concat line (quoted name)
  unfolding change_line
  change_line-ptr_to_string n name small found full =
      read_back (parse_uint (format_uint n)) n (format_uint n) name (parse_uint-format_uint n small)
        found full
