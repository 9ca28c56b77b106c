-- ===== src/Base/Decode.antt =====
-- `json.Unmarshal` of an object into a struct: a field is set by the members whose name is its own
-- but for letter case, the last one counting; `null` leaves it; another kind of value is an error.
use ma_secure.Base.Tests.{eqb, leb, ltb, if◌then◌else◌}
use Prim.Native.Nat.{ℕ, ◌+◌, ◌-◌, ◌*◌, ◌^◌}
use Prim.Native.Char.{code}
use Prim.Native.String.{String}
use mathlib.Core.Bool.{Bool, ◌&&◌}
use mathlib.Core.Option.{Option, none, some}
use text.Mathlib.Text.{◌==◌}
use ma_secure.Base.Int.{ℤ, pos, negsuc}
use ma_secure.Base.Json.{Json, Fields, null, str, num, obj, end, field}
use ma_secure.Base.Text.{to_lower, replace_all}

-- The folding of a name, against one of ASCII letters: besides the letter case, the long s is an s,
-- and the dotted capital I is no i.
unfoldable pub same_name : String → String → Bool
same_name a b = to_lower (replace_all 0x130 "ı" (replace_all 0x17f "s" a)) == to_lower b

abbrev take_string : Json → String → Option String
take_string (str s) old = some s
take_string null old = some old
take_string _ old = none

unfoldable pub string_from : String → Fields → String → Option String
unfolding same_name
string_from name end old = some old
string_from name (field k v rest) old =
    if same_name k name
    then elim (take_string v old) [ none ↦ none | some s ↦ string_from name rest s ]
    else string_from name rest old

-- a field of type `string`
abbrev pub string_field : String → Fields → Option String
string_field name fields = string_from name fields ""

digits_from : String → ℕ → Option ℕ
digits_from String.[] n = some n
digits_from (String.◌∷◌ c s) n =
    let rest = digits_from s (10 * n + (code c - 48)) in
    if leb 48 (code c) && leb (code c) 57 then rest else none

-- `strconv.ParseInt` on a number's literal, in the range of an `int64`
unfoldable pub parse_int64 : String → Option ℤ
unfolding digits_from
parse_int64 String.[] = none
parse_int64 (String.◌∷◌ c s) =
    if eqb (code c) 45
    then elim (digits_from s 0) [
      | none ↦ none
      | some n ↦
          if eqb n 0 then some (pos 0) else if leb n (2 ^ 63) then some (negsuc (n - 1)) else none
    ]
    else elim (digits_from (String.◌∷◌ c s) 0) [
      | none ↦ none
      | some n ↦ if ltb n (2 ^ 63) then some (pos n) else none
    ]

abbrev take_int64 : Json → ℤ → Option ℤ
take_int64 (num s) old = parse_int64 s
take_int64 null old = some old
take_int64 _ old = none

unfoldable pub int64_from : String → Fields → ℤ → Option ℤ
unfolding same_name parse_int64
int64_from name end old = some old
int64_from name (field k v rest) old =
    if same_name k name
    then elim (take_int64 v old) [ none ↦ none | some s ↦ int64_from name rest s ]
    else int64_from name rest old

-- a field of type `int64`
abbrev pub int64_field : String → Fields → Option ℤ
int64_field name fields = int64_from name fields (pos 0)

-- The members that a struct is read from: `null` has none, and other values are refused.
abbrev pub members : Json → Option Fields
members null = some end
members (obj fields) = some fields
members _ = none
