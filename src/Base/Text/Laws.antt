-- ===== src/Base/Text/Laws.antt =====
-- Laws of the operations on texts.
use Prim.Native.Char.{Char, code}
use Prim.Native.String.{String, ◌++◌}
use Prim.Native.String.append
use Prim.Native.Nat.{ℕ}
use mathlib.Core.Path.{◌≡◌, refl, ap}
use mathlib.Core.Bool.{true, false}
use mathlib.Core.Option.{some}
use native.Mathlib.Omega.{arith}
use ma_secure.Base.Tests.{eq_false_of_ne, eqb}
use ma_secure.Base.Text.{
  is_space, trim_left, trim_right, trim_space, is_blank, strip_prefix, trim_prefix,
}

eqb_refl : (n : ℕ) → eqb n n ≡ true
eqb_refl n = ground arith

trim_left-visible :
    (c : Char) (s : String) → is_space c ≡ false → trim_left (String.◌∷◌ c s) ≡ String.◌∷◌ c s
unfolding trim_left
trim_left-visible c s h = rw h refl

trim_right-visible :
    (c : Char) (s : String)
    → is_space c ≡ false
    → trim_right (String.◌∷◌ c s) ≡ String.◌∷◌ c (trim_right s)
unfolding trim_right
trim_right-visible c s h = rw h refl

-- A text that starts with a character that is no white space is not blank.
pub is_blank-visible :
    (c : Char) (s : String) → is_space c ≡ false → is_blank (String.◌∷◌ c s) ≡ false
unfolding is_blank trim_space
is_blank-visible c s h =
    rw (trim_left-visible c s h, trim_right-visible c s h) (eq_false_of_ne _ _ (λ e. absurd (cc e)))

pub append_cons : (c : Char) (p s : String) → (String.◌∷◌ c p) ++ s ≡ String.◌∷◌ c (p ++ s)
append_cons c p s i = append.cons c p s i

strip_prefix-append : (p s : String) → strip_prefix p (p ++ s) ≡ some s
unfolding strip_prefix
strip_prefix-append String.[] s = ap some (λ i. append.nil s i)
strip_prefix-append (String.◌∷◌ c p) s =
    rw (append_cons c p s, eqb_refl (code c)) (strip_prefix-append p s)

-- Trimming the prefix that was put before a text gives the text.
pub trim_prefix-append : (p s : String) → trim_prefix (p ++ s) p ≡ s
unfolding trim_prefix
trim_prefix-append p s = rw (strip_prefix-append p s) refl

-- A text that starts visibly is not blank, whatever follows.
pub is_blank-prefix :
    (c : Char) (p s : String) → is_space c ≡ false → is_blank ((String.◌∷◌ c p) ++ s) ≡ false
is_blank-prefix c p s h = rw (append_cons c p s) (is_blank-visible c (p ++ s) h)
