-- ===== src/Common/Table/Keys.antt =====
-- The keys of the rows that pass a test, in table order, under the writes to a table.
use Prim.Native.String.{String}
use mathlib.Core.Path.{◌≡◌, refl}
use mathlib.Core.Logic.{inl, inr}
use mathlib.Core.Bool.{Bool, true, false}
use mathlib.Core.Option.{Option, none, some}
use mathlib.Core.List.{List, [], ◌∷◌, ◌++◌, map}
use native.Mathlib.Omega.{arith}
use text.Mathlib.Text.{◌==◌}
use text.Mathlib.TextEquality.{eq_iff}
use exam_sage.Common.Tests.{if◌then◌else◌, Bool-cases}
use exam_sage.Common.Lists.{filter, All, any}
use exam_sage.Common.Table.{lookup, update, IsUnique}

module _ {A : Type 0} (key : A → String) (p : A → Bool) where
  unfoldable pub keys_of : List A → List String
  keys_of [] = []
  keys_of (x ∷ xs) = if p x then key x ∷ keys_of xs else keys_of xs

  pub keys_of-append :
      (xs : List A) (x : A)
      → keys_of (xs ++ x ∷ []) ≡ keys_of xs ++ (if p x then key x ∷ [] else [])
  unfolding keys_of
  keys_of-append [] x = ground arith
  keys_of-append (y ∷ ys) x = ground (arith, keys_of-append ys x)

  -- A row that passes the test is among the keys.
  pub keys_of-lookup_nil :
      (k : String) (xs : List A) {x : A} → lookup key k xs ≡ some x → keys_of xs ≡ [] → p x ≡ false
  unfolding keys_of lookup
  keys_of-lookup_nil k [] h e = cc
  keys_of-lookup_nil k (y ∷ ys) {x} h e = ground (arith, keys_of-lookup_nil k ys {x = x})

  pub keys_of-lookup_one :
      (k j : String) (xs : List A) {x : A}
      → lookup key k xs ≡ some x
      → keys_of xs ≡ j ∷ []
      → p x ≡ true
      → k ≡ j
  unfolding keys_of lookup
  keys_of-lookup_one k j [] h e t = cc
  keys_of-lookup_one k j (y ∷ ys) {x} h e t =
      ground (
        arith,
        eq_iff (key y) k,
        keys_of-lookup_nil k ys {x = x},
        keys_of-lookup_one k j ys {x = x},
      )

  -- A write that leaves the test as it was leaves the keys.
  pub keys_of-update_same :
      (k : String) (f : A → A) (xs : List A) {x : A}
      → ((y : A) → key (f y) ≡ key y)
      → lookup key k xs ≡ some x
      → p (f x) ≡ p x
      → keys_of (update key k f xs) ≡ keys_of xs
  unfolding keys_of lookup update
  keys_of-update_same k f [] same h e = cc
  keys_of-update_same k f (y ∷ ys) {x} same h e =
      ground (arith, same y, keys_of-update_same k f ys {x = x} same)

  -- A write by which the only row passes.
  pub keys_of-update_new :
      (k : String) (f : A → A) (xs : List A) {x : A}
      → ((y : A) → key (f y) ≡ key y)
      → lookup key k xs ≡ some x
      → keys_of xs ≡ []
      → p (f x) ≡ true
      → keys_of (update key k f xs) ≡ k ∷ []
  unfolding keys_of lookup update
  keys_of-update_new k f [] same h n e = cc
  keys_of-update_new k f (y ∷ ys) {x} same h n e =
      ground (arith, same y, eq_iff (key y) k, keys_of-update_new k f ys {x = x} same)

  -- A write by which the only row that passed does so no more.
  pub keys_of-update_drop :
      (k j : String) (f : A → A) (xs : List A) {x : A}
      → ((y : A) → key (f y) ≡ key y)
      → lookup key k xs ≡ some x
      → keys_of xs ≡ j ∷ []
      → p x ≡ true
      → p (f x) ≡ false
      → keys_of (update key k f xs) ≡ []
  unfolding keys_of lookup update
  keys_of-update_drop k j f [] same h n t e = cc
  keys_of-update_drop k j f (y ∷ ys) {x} same h n t e =
      ground
        (arith, same y, keys_of-lookup_nil k ys {x = x}, keys_of-update_drop k j f ys {x = x} same)

  -- Deleting rows that do not pass leaves the keys.
  pub keys_of-filter :
      (q : A → Bool) (xs : List A)
      → All (λ y. q y ≡ false → p y ≡ false) xs
      → keys_of (filter q xs) ≡ keys_of xs
  unfolding keys_of
  keys_of-filter q [] h = refl
  keys_of-filter q (y ∷ ys) h = ground (arith, keys_of-filter q ys h.1)

  pub keys_of-eq-map : (xs : List A) → keys_of xs ≡ map key (filter p xs)
  unfolding keys_of
  keys_of-eq-map [] = refl
  keys_of-eq-map (y ∷ ys) = ground (arith, keys_of-eq-map ys)

  -- Where the keys are unique, the only key is that of a row that passes.
  pub keys_of_one :
      (k : String) (xs : List A)
      → IsUnique key xs
      → keys_of xs ≡ k ∷ []
      → (x : A) × (lookup key k xs ≡ some x) × (p x ≡ true)
  unfolding keys_of lookup
  keys_of_one k [] u e = absurd (cc)
  keys_of_one k (y ∷ ys) u e = elim (Bool-cases (p y)) [
    | inl t ↦ (y, ground (arith, eq_iff (key y) k), t)
    | inr t ↦
        let (x, found, passes) = keys_of_one k ys u.1 (ground arith) in
        (x, ground (arith, u.0, eq_iff (key y) k), passes)
  ]

-- A test that implies another passes no row where the other passes none.
pub keys_of_weaker :
    {A : Type 0} (key : A → String) (p q : A → Bool) (xs : List A)
    → ((y : A) → q y ≡ true → p y ≡ true)
    → keys_of key p xs ≡ []
    → keys_of key q xs ≡ []
unfolding keys_of
keys_of_weaker key p q [] h e = refl
keys_of_weaker key p q (y ∷ ys) h e = ground (arith, h y, keys_of_weaker key p q ys h)

pub keys_of_none :
    {A : Type 0} (key : A → String) (p : A → Bool) (xs : List A)
    → All (λ x. p x ≡ false) xs
    → keys_of key p xs ≡ []
unfolding keys_of
keys_of_none key p [] h = refl
keys_of_none key p (x ∷ xs) h = rw h.0 (keys_of_none key p xs h.1)

abbrev pub passes {ℓ} : {A : Type ℓ} → (A → Bool) → Option A → Bool
passes p none = false
passes p (some x) = p x

-- Whether a key is among the rows that pass a test is told by the row that has the key.
pub any-filter :
    {A : Type 0} (key : A → String) (p : A → Bool) (k : String) (xs : List A)
    → IsUnique key xs
    → any (λ y. key y == k) (filter p xs) ≡ passes p (lookup key k xs)
unfolding lookup
any-filter key p k [] u = refl
any-filter key p k (x ∷ xs) u = ground (arith, any-filter key p k xs u.1, u.0, eq_iff (key x) k)
