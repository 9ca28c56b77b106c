-- ===== src/Base/Text.antt =====
-- What the code uses of Go's `strings`: TrimSpace, ToLower, ReplaceAll of one character,
-- TrimPrefix, and the test for a blank text. White space is Unicode's. `to_lower` maps the letters
-- of ASCII and the two letters outside it whose lower case is in ASCII; other letters stay.
pub mod Laws
use Prim.Native.Char.{Char, code}
use Prim.Native.String
use Prim.Native.String.{String}
use Prim.Native.Nat.{ℕ, zero, suc, ◌-◌}
use mathlib.Core.Bool.{Bool, true, false, ◌&&◌, ◌||◌}
use mathlib.Core.List.{List, [], ◌∷◌}
use text.Mathlib.Text.{◌==◌}
use mathlib.Core.Option.{Option, none, some}
use ma_secure.Base.Tests.{leb, ltb, eqb, if◌then◌else◌}

pub is_space_code : ℕ → Bool
is_space_code n =
    leb 9 n && leb n 13
    || eqb n 0x20
    || eqb n 0x85
    || eqb n 0xa0
    || eqb n 0x1680
    || leb 0x2000 n && leb n 0x200a
    || eqb n 0x2028
    || eqb n 0x2029
    || eqb n 0x202f
    || eqb n 0x205f
    || eqb n 0x3000

unfoldable pub is_space : Char → Bool
unfolding is_space_code
is_space c = is_space_code (code c)

abbrev is_empty : String → Bool
is_empty String.[] = true
is_empty (String.◌∷◌ c s) = false

pub trim_left : String → String
trim_left String.[] = ""
trim_left (String.◌∷◌ c s) = if is_space c then trim_left s else String.◌∷◌ c s

pub trim_right : String → String
trim_right String.[] = ""
trim_right (String.◌∷◌ c s) =
    let r = trim_right s in if is_space c && is_empty r then "" else String.◌∷◌ c r

unfoldable pub trim_space : String → String
unfolding trim_left trim_right is_space
trim_space s = trim_right (trim_left s)

-- `strings.TrimSpace(s) == ""`
unfoldable pub is_blank : String → Bool
unfolding trim_space
is_blank s = trim_space s == ""

-- Upper case letters by number, and what each becomes.
abbrev lower_table : List (ℕ × Char)
lower_table =
    (b'A', "a")
    ∷ (b'B', "b")
    ∷ (b'C', "c")
    ∷ (b'D', "d")
    ∷ (b'E', "e")
    ∷ (b'F', "f")
    ∷ (b'G', "g")
    ∷ (b'H', "h")
    ∷ (b'I', "i")
    ∷ (b'J', "j")
    ∷ (b'K', "k")
    ∷ (b'L', "l")
    ∷ (b'M', "m")
    ∷ (b'N', "n")
    ∷ (b'O', "o")
    ∷ (b'P', "p")
    ∷ (b'Q', "q")
    ∷ (b'R', "r")
    ∷ (b'S', "s")
    ∷ (b'T', "t")
    ∷ (b'U', "u")
    ∷ (b'V', "v")
    ∷ (b'W', "w")
    ∷ (b'X', "x")
    ∷ (b'Y', "y")
    ∷ (b'Z', "z")
    ∷ (0x130, "i")
    ∷ (0x212a, "k")
    ∷ []

lower_code : ℕ → Char → List (ℕ × Char) → Char
lower_code n c [] = c
lower_code n c ((m, d) ∷ rest) = if eqb n m then d else lower_code n c rest

unfoldable pub lower_char : Char → Char
unfolding lower_code
lower_char c = lower_code (code c) c lower_table

unfoldable pub to_lower : String → String
unfolding lower_char
to_lower String.[] = ""
to_lower (String.◌∷◌ c s) = String.◌∷◌ (lower_char c) (to_lower s)

-- `strings.ReplaceAll` of one ASCII character by another.
replace_char : ℕ → Char → Char → Char
replace_char old new c = if eqb (code c) old then new else c

unfoldable pub replace_all : ℕ → Char → String → String
unfolding replace_char
replace_all old new String.[] = ""
replace_all old new (String.◌∷◌ c s) = String.◌∷◌ (replace_char old new c) (replace_all old new s)

-- the rest of a text after a prefix
unfoldable pub strip_prefix : String → String → Option String
strip_prefix String.[] s = some s
strip_prefix (String.◌∷◌ c p) String.[] = none
strip_prefix (String.◌∷◌ c p) (String.◌∷◌ d s) =
    let rest = strip_prefix p s in if eqb (code c) (code d) then rest else none

abbrev or_else : Option String → String → String
or_else none s = s
or_else (some t) s = t

-- `strings.TrimPrefix`
unfoldable pub trim_prefix : String → String → String
unfolding strip_prefix
trim_prefix s p = or_else (strip_prefix p s) s

-- `s[:n]`, and none if the text is shorter
unfoldable pub slice : ℕ → String → Option String
slice zero s = some ""
slice (suc n) String.[] = none
slice (suc n) (String.◌∷◌ c s) = elim (slice n s) [ none ↦ none | some t ↦ some (String.◌∷◌ c t) ]

-- `%.*s`
unfoldable pub at_most : ℕ → String → String
at_most zero s = ""
at_most (suc n) String.[] = ""
at_most (suc n) (String.◌∷◌ c s) = String.◌∷◌ c (at_most n s)

length_of : String → ℕ
length_of String.[] = 0
length_of (String.◌∷◌ c s) = suc (length_of s)

drop_first : ℕ → String → String
drop_first zero s = s
drop_first (suc n) String.[] = ""
drop_first (suc n) (String.◌∷◌ c s) = drop_first n s

-- `s[len(s)-n:]`, and none if the text is shorter
unfoldable pub last_slice : ℕ → String → Option String
unfolding length_of drop_first
last_slice n s = if ltb (length_of s) n then none else some (drop_first (length_of s - n) s)
