-- ===== src/Common/Table/Sorted.antt =====
-- The rows of a table stay unique under ORDER BY and LIMIT.
use Prim.Native.Nat.{ℕ, zero, suc}
use Prim.Native.String.{String}
use mathlib.Core.Path.{◌≡◌, refl}
use mathlib.Core.Logic.{inl, inr}
use mathlib.Core.Bool.{Bool, false}
use mathlib.Core.Option.{none}
use mathlib.Core.List.{List, [], ◌∷◌}
use native.Mathlib.Omega.{arith}
use text.Mathlib.Text.{◌==◌}
use text.Mathlib.TextEquality.{eq_iff}
use exam_sage.Common.Tests.{Bool-cases}
use exam_sage.Common.Lists.{take}
use exam_sage.Common.Order.{place, order_by}
use exam_sage.Common.Table.{lookup, IsUnique}

module _ {A : Type 0} (key : A → String) (no_later : A → A → Bool) where
  place_missing :
      (k : String) (x : A) (xs : List A)
      → (key x == k) ≡ false
      → lookup key k xs ≡ none
      → lookup key k (place no_later x xs) ≡ none
  unfolding lookup place
  place_missing k x [] e h = ground arith
  place_missing k x (y ∷ ys) e h = ground (arith, place_missing k x ys e)

  place-IsUnique :
      (x : A) (xs : List A)
      → lookup key (key x) xs ≡ none
      → IsUnique key xs
      → IsUnique key (place no_later x xs)
  unfolding lookup place
  place-IsUnique x [] h u = (refl, tt)
  place-IsUnique x (y ∷ ys) h u = elim (Bool-cases (no_later x y)) [
    | inl e ↦ rw e (h, u)
    | inr e ↦ rw e (
      place_missing (key y) x ys (ground (arith, eq_iff (key y) (key x), eq_iff (key x) (key y), h))
          u.0,
      place-IsUnique x ys (ground (arith, h)) u.1,
    )
  ]

  order_by_missing :
      (k : String) (xs : List A)
      → lookup key k xs ≡ none
      → lookup key k (order_by no_later xs) ≡ none
  unfolding lookup order_by
  order_by_missing k [] h = refl
  order_by_missing k (x ∷ xs) h =
      place_missing k x (order_by no_later xs) (ground (arith, h))
        (order_by_missing k xs (ground (arith, h)))

  pub order_by-IsUnique : (xs : List A) → IsUnique key xs → IsUnique key (order_by no_later xs)
  unfolding order_by
  order_by-IsUnique [] u = tt
  order_by-IsUnique (x ∷ xs) u =
      place-IsUnique x (order_by no_later xs) (order_by_missing (key x) xs u.0)
        (order_by-IsUnique xs u.1)

module _ {A : Type 0} (key : A → String) where
  take_missing :
      (k : String) (n : ℕ) (xs : List A) → lookup key k xs ≡ none → lookup key k (take n xs) ≡ none
  unfolding lookup
  take_missing k zero xs h = refl
  take_missing k (suc n) [] h = refl
  take_missing k (suc n) (x ∷ xs) h = ground (arith, take_missing k n xs)

  pub take-IsUnique : (n : ℕ) (xs : List A) → IsUnique key xs → IsUnique key (take n xs)
  take-IsUnique zero xs u = tt
  take-IsUnique (suc n) [] u = tt
  take-IsUnique (suc n) (x ∷ xs) u = (take_missing (key x) n xs u.0, take-IsUnique n xs u.1)
