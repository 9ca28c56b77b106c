-- ===== src/Base/Keyed.antt =====
-- Tables whose rows have a key, as lists.
use ma_secure.Base.Tests.{if◌then◌else◌}
use Prim.Native.String.{String}
use native.Mathlib.Omega.{arith}
use text.Mathlib.Text.{◌==◌}
use text.Mathlib.TextEquality.{eq_iff}
use mathlib.Core.Path.{◌≡◌}
use mathlib.Core.Option.{Option, none, some}
use mathlib.Core.List.{List, [], ◌∷◌}

-- A table with a key: the row of a key, and an update of the rows of a key.
module _ {A : Type 0} (key : A → String) where
  unfoldable pub find : String → List A → Option A
  find id [] = none
  find id (r ∷ rs) = if key r == id then some r else find id rs

  unfoldable pub update : String → (A → A) → List A → List A
  update id f [] = []
  update id f (r ∷ rs) = (if key r == id then f r else r) ∷ update id f rs

module _ {A : Type 0} (key : A → String) where
  pub key-find : (id : String) (l : List A) (r : A) → find key id l ≡ some r → key r ≡ id
  unfolding find
  key-find id [] r h = cc
  key-find id (x ∷ xs) r h = ground (arith, eq_iff (key x) id, key-find id xs r)

  -- An update that keeps the keys changes the row of its key and no other.
  pub find-update :
      (id j : String) (f : A → A) (l : List A)
      → ((r : A) → key (f r) ≡ key r)
      → find key j (update key id f l) ≡ (
          if id == j
          then elim (find key j l) [ none ↦ none | some r ↦ some (f r) ]
          else find key j l)
  unfolding find update
  find-update id j f [] k = ground arith
  find-update id j f (x ∷ xs) k = ground (
    arith,
    eq_iff (key x) id,
    eq_iff (key x) j,
    eq_iff id j,
    k x,
    find-update id j f xs k,
    eq_iff (key (f x)) j,
  )
