-- ===== src/Base/Rows.antt =====
-- The parts of a query: the rows that pass a test, their order, and what holds of all of them. Rows
-- that an order leaves equal stand in the order of the table.
use Prim.Native.Nat.{ℕ, zero, suc, ◌≤◌}
use mathlib.Core.Path.{◌≡◌, refl}
use mathlib.Core.Bool.{Bool, true, false}
use mathlib.Core.List.{List, [], ◌∷◌}
use mathlib.Core.Logic.{◌↔◌}
use native.Mathlib.Omega.{arith}
use ma_secure.Base.Tests.{if◌then◌else◌, ltb}
use ma_secure.Base.Lists.{All, take}

module _ {A : Type 0} where
  -- `WHERE`
  unfoldable pub select : (A → Bool) → List A → List A
  select test [] = []
  select test (x ∷ xs) = let rest = select test xs in if test x then x ∷ rest else rest

  unfoldable pub insert_by : (A → A → Bool) → A → List A → List A
  insert_by before x [] = x ∷ []
  insert_by before x (y ∷ ys) =
      let rest = insert_by before x ys in if before y x then y ∷ rest else x ∷ y ∷ ys

  -- `ORDER BY`
  unfoldable pub order_by : (A → A → Bool) → List A → List A
  unfolding insert_by
  order_by before [] = []
  order_by before (x ∷ xs) = insert_by before x (order_by before xs)

pub data In {A : Type 0} (x : A) : List A → Type 0 where
  here : {xs : List A} → In x (x ∷ xs)
  there : {y : A} {xs : List A} → In x xs → In x (y ∷ xs)

module _ {A : Type 0} (P : A → Type 0) where
  All-if :
      (b : Bool) (xs ys : List A) → (b ≡ true → All P xs) → All P ys → All P (if b then xs else ys)
  All-if true xs ys h k = h refl
  All-if false xs ys h k = k

  insert_by-All :
      (before : A → A → Bool) (x : A) (xs : List A) → P x → All P xs → All P (insert_by before x xs)
  unfolding insert_by
  insert_by-All before x [] h hs = (h, tt)
  insert_by-All before x (y ∷ ys) h (k, ks) =
      All-if (before y x) _ _ (λ e. (k, insert_by-All before x ys h ks)) (h, (k, ks))

  pub order_by-All : (before : A → A → Bool) (xs : List A) → All P xs → All P (order_by before xs)
  unfolding order_by
  order_by-All before [] h = tt
  order_by-All before (x ∷ xs) (h, hs) =
      insert_by-All before x (order_by before xs) h (order_by-All before xs hs)

  take-All : (n : ℕ) (xs : List A) → All P xs → All P (take n xs)
  unfolding take
  take-All zero xs h = tt
  take-All (suc n) [] h = tt
  take-All (suc n) (x ∷ xs) (h, hs) = (h, take-All n xs hs)

  pub sorted-All :
      (n : ℕ) (before : A → A → Bool) (xs : List A) → All P xs → All P (take n (order_by before xs))
  sorted-All n before xs h = take-All n _ (order_by-All before xs h)

module _ {A : Type 0} (P Q : A → Type 0) where
  pub All-map : (xs : List A) → ((x : A) → P x → Q x) → All P xs → All Q xs
  All-map [] f h = tt
  All-map (x ∷ xs) f (h, hs) = (f x h, All-map xs f hs)

  pub select-All :
      (test : A → Bool) (xs : List A)
      → All P xs
      → ((x : A) → P x → test x ≡ true → Q x)
      → All Q (select test xs)
  unfolding select
  select-All test [] h f = tt
  select-All test (x ∷ xs) (h, hs) f =
      All-if Q (test x) _ _ (λ e. (f x h e, select-All test xs hs f)) (select-All test xs hs f)

pub All-In : {A : Type 0} (xs : List A) → All (λ x. In x xs) xs
All-In [] = tt
All-In (x ∷ xs) =
    (here, All-map (λ y. In y xs) (λ y. In y (x ∷ xs)) xs (λ y h. there h) (All-In xs))

module _ {A : Type 0} where
  pub All-at : (P : A → Type 0) (x : A) (xs : List A) → All P xs → In x xs → P x
  All-at P x xs h here = h.0
  All-at P x xs h (there {xs = ys} i) = All-at P x ys h.1 i

  In-if : (x y : A) (b : Bool) (ys : List A) → In x ys → In x (if b then y ∷ ys else ys)
  In-if x y true ys i = there i
  In-if x y false ys i = i

  select_to :
      (test : A → Bool) (x : A) (xs : List A) → In x xs → test x ≡ true → In x (select test xs)
  unfolding select
  select_to test x xs (here {xs = ys}) e = rw e here
  select_to test x xs (there {y} {xs = ys} i) e =
      In-if x y (test y) (select test ys) (select_to test x ys i e)

  -- The rows that a query answers are those that pass the test.
  pub In-select :
      (test : A → Bool) (xs : List A) (x : A) → In x (select test xs) ↔ (In x xs × (test x ≡ true))
  In-select test xs x = (
    λ i.
        All-at _ x _
          (select-All (λ x. In x xs) (λ x. In x xs × (test x ≡ true)) test xs (All-In xs)
            (λ y h k. (h, k)))
          i,
    λ (i, e). select_to test x xs i e,
  )

  insert_by_self : (before : A → A → Bool) (x : A) (ys : List A) → In x (insert_by before x ys)
  unfolding insert_by
  insert_by_self before x [] = here
  insert_by_self before x (y ∷ ys) = place (before y x) (insert_by_self before x ys)
    where
      place :
          (b : Bool)
          → In x (insert_by before x ys)
          → In x (if b then y ∷ insert_by before x ys else x ∷ y ∷ ys)
      place true i = there i
      place false i = here

  place_other :
      (x z y : A) (b : Bool) (ys zs : List A)
      → (In z ys → In z zs)
      → In z (y ∷ ys)
      → In z (if b then y ∷ zs else x ∷ y ∷ ys)
  place_other x z y true ys zs rest here = here
  place_other x z y true ys zs rest (there i) = there (rest i)
  place_other x z y false ys zs rest i = there i

  insert_by_other :
      (before : A → A → Bool) (x : A) (ys : List A) (z : A) → In z ys → In z (insert_by before x ys)
  unfolding insert_by
  insert_by_other before x [] z i = elim i [ ]
  insert_by_other before x (y ∷ ys) z i =
      place_other x z y (before y x) ys (insert_by before x ys)
        (λ k. insert_by_other before x ys z k) i

  order_by_to : (before : A → A → Bool) (x : A) (xs : List A) → In x xs → In x (order_by before xs)
  unfolding order_by
  order_by_to before x xs (here {xs = ys}) = insert_by_self before x (order_by before ys)
  order_by_to before x xs (there {y} {xs = ys} i) =
      insert_by_other before y (order_by before ys) x (order_by_to before x ys i)

  -- An order keeps the rows.
  pub In-order_by :
      (before : A → A → Bool) (xs : List A) (x : A) → In x (order_by before xs) ↔ In x xs
  In-order_by before xs x = (
    λ i. All-at _ x _ (order_by-All (λ x. In x xs) before xs (All-In xs)) i,
    λ i. order_by_to before x xs i,
  )

module _ {A : Type 0} (key : A → ℕ) where
  -- No row has a smaller key than one before it.
  abbrev pub IsAscending : List A → Type 0
  IsAscending [] = Unit
  IsAscending (x ∷ xs) = All (λ y. key x ≤ key y) xs × IsAscending xs

  insert_by-IsAscending :
      (x : A) (ys : List A)
      → IsAscending ys
      → IsAscending (insert_by (λ a b. ltb (key a) (key b)) x ys)
  unfolding insert_by
  insert_by-IsAscending x [] h = (tt, tt)
  insert_by-IsAscending x (y ∷ ys) (h, hs) =
      place (ltb (key y) (key x)) refl (insert_by-IsAscending x ys hs)
    where
      before : A → A → Bool
      before a b = ltb (key a) (key b)

      place :
          (b : Bool)
          → ltb (key y) (key x) ≡ b
          → IsAscending (insert_by (λ a b. ltb (key a) (key b)) x ys)
          → IsAscending (if b then y ∷ insert_by (λ a b. ltb (key a) (key b)) x ys else x ∷ y ∷ ys)
      place true e k =
          (insert_by-All (λ z. key y ≤ key z) (λ a b. ltb (key a) (key b)) x ys (ground arith) h, k)
      place false e k =
          let below : key x ≤ key y = ground arith in
          (
            (below, All-map (λ z. key y ≤ key z) (λ z. key x ≤ key z) ys (λ z l. omega arith) h),
            (h, hs),
          )

  pub order_by-IsAscending : (xs : List A) → IsAscending (order_by (λ a b. ltb (key a) (key b)) xs)
  unfolding order_by
  order_by-IsAscending [] = tt
  order_by-IsAscending (x ∷ xs) = insert_by-IsAscending x _ (order_by-IsAscending xs)
