-- ===== src/Common/Order.antt =====
-- ORDER BY: a stable insertion sort by a test "comes no later".
use Prim.Native.Nat.{suc}
use mathlib.Core.Path.{◌≡◌, refl, ap, ◌∙◌}
use mathlib.Core.Logic.{◌≢◌, inl, inr}
use mathlib.Core.Bool.{Bool}
use mathlib.Core.List.{List, [], ◌∷◌}
use native.Mathlib.Omega.{arith}
use exam_sage.Common.Tests.{if◌then◌else◌, Bool-cases}
use exam_sage.Common.Lists.{All, any, length}

module _ {ℓ} {A : Type ℓ} (no_later : A → A → Bool) where
  -- `x` stood before the rows of the sorted list, so it goes before those that are as late.
  unfoldable pub place : A → List A → List A
  place x [] = x ∷ []
  place x (y ∷ ys) = if no_later x y then x ∷ y ∷ ys else y ∷ place x ys

  unfoldable pub order_by : List A → List A
  unfolding place
  order_by [] = []
  order_by (x ∷ xs) = place x (order_by xs)

module _ {ℓ κ} {A : Type ℓ} (no_later : A → A → Bool) (P : A → Type κ) where
  All-place : (x : A) (xs : List A) → P x → All P xs → All P (place no_later x xs)
  unfolding place
  All-place x [] h hs = (h, hs)
  All-place x (y ∷ ys) h hs = elim (Bool-cases (no_later x y)) [
    | inl e ↦ rw e (h, hs)
    | inr e ↦ rw e (hs.0, All-place x ys h hs.1)
  ]

  pub All-order_by : (xs : List A) → All P xs → All P (order_by no_later xs)
  unfolding order_by
  All-order_by [] h = h
  All-order_by (x ∷ xs) h = All-place x (order_by no_later xs) h.0 (All-order_by xs h.1)

module _ {ℓ} {A : Type ℓ} (no_later : A → A → Bool) where
  place-ne-nil : (x : A) (xs : List A) → place no_later x xs ≢ []
  unfolding place
  place-ne-nil x [] = λ e. cc
  place-ne-nil x (y ∷ ys) = ground arith

  pub order_by-eq-nil : (xs : List A) → order_by no_later xs ≡ [] → xs ≡ []
  unfolding order_by
  order_by-eq-nil [] e = refl
  order_by-eq-nil (x ∷ xs) e = absurd (place-ne-nil x (order_by no_later xs) e)

  any-place : (p : A → Bool) (x : A) (xs : List A) → any p (place no_later x xs) ≡ any p (x ∷ xs)
  unfolding place
  any-place p x [] = refl
  any-place p x (y ∷ ys) = ground (arith, any-place p x ys)

  -- Sorting neither loses nor adds a row.
  pub any-order_by : (p : A → Bool) (xs : List A) → any p (order_by no_later xs) ≡ any p xs
  unfolding order_by
  any-order_by p [] = refl
  any-order_by p (x ∷ xs) = ground (arith, any-place p x (order_by no_later xs), any-order_by p xs)

  length-place : (x : A) (xs : List A) → length (place no_later x xs) ≡ suc (length xs)
  unfolding place
  length-place x [] = refl
  length-place x (y ∷ ys) = ground (arith, length-place x ys)

  pub length-order_by : (xs : List A) → length (order_by no_later xs) ≡ length xs
  unfolding order_by
  length-order_by [] = refl
  length-order_by (x ∷ xs) = length-place x (order_by no_later xs) ∙ ap suc (length-order_by xs)
