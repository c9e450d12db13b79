-- ===== src/Common/Table.antt =====
-- Tables with a text as primary key, as lists of rows in the order of their rowids.
pub mod Keys
pub mod Sorted
use Prim.Native.String.{String}
use mathlib.Core.Path.{◌≡◌, refl}
use mathlib.Core.Logic.{inl, inr}
use mathlib.Core.Bool.{Bool, true, false}
use mathlib.Core.Option.{Option, none, some}
use mathlib.Core.List.{List, [], ◌∷◌, ◌++◌}
use native.Mathlib.Omega.{arith}
use text.Mathlib.Text.{◌==◌}
use text.Mathlib.TextEquality.{eq_iff}
use text.Mathlib.TextPositions.{eq_refl}
use exam_sage.Common.Tests.{if◌then◌else◌, Bool-cases, Option-cases}
use exam_sage.Common.Lists.{All, All-map, filter}

abbrev pub map_option {ℓ} : {A : Type ℓ} → (A → A) → Option A → Option A
map_option f none = none
map_option f (some x) = some (f x)

abbrev pub or_else {ℓ} : {A : Type ℓ} → Option A → Option A → Option A
or_else none y = y
or_else (some x) y = some x

module _ {A : Type 0} (key : A → String) where
  -- SELECT * FROM table WHERE key = ?
  unfoldable pub lookup : String → List A → Option A
  lookup k [] = none
  lookup k (x ∷ xs) = if key x == k then some x else lookup k xs

  -- UPDATE table SET ... WHERE key = ?; the key is primary, so one row at most has it.
  unfoldable pub update : String → (A → A) → List A → List A
  update k f [] = []
  update k f (x ∷ xs) = if key x == k then f x ∷ xs else x ∷ update k f xs

  -- No two rows have one key.
  abbrev pub IsUnique : List A → Type 0
  IsUnique [] = Unit
  IsUnique (x ∷ xs) = (lookup (key x) xs ≡ none) × IsUnique xs

  pub lookup-append :
      (k : String) (xs : List A) (x : A)
      → lookup k (xs ++ x ∷ []) ≡ or_else (lookup k xs) (if key x == k then some x else none)
  unfolding lookup
  lookup-append k [] x = refl
  lookup-append k (y ∷ ys) x = ground (arith, lookup-append k ys x)

  pub lookup-update :
      (k j : String) (f : A → A) (xs : List A)
      → ((x : A) → key (f x) ≡ key x)
      → lookup j (update k f xs) ≡ (if k == j then map_option f (lookup k xs) else lookup j xs)
  unfolding lookup update
  lookup-update k j f [] same = ground arith
  lookup-update k j f (x ∷ xs) same =
      ground
        (arith, same x, lookup-update k j f xs same, eq_iff k j, eq_iff (key x) k, eq_iff (key x) j)

  pub lookup-key : (k : String) (xs : List A) {x : A} → lookup k xs ≡ some x → key x ≡ k
  unfolding lookup
  lookup-key k [] h = cc
  lookup-key k (y ∷ ys) {x} h = ground (arith, eq_iff (key y) k, lookup-key k ys {x = x})

  pub IsUnique-append :
      (xs : List A) (x : A) → IsUnique xs → lookup (key x) xs ≡ none → IsUnique (xs ++ x ∷ [])
  unfolding lookup
  IsUnique-append [] x u h = (refl, tt)
  IsUnique-append (y ∷ ys) x u h = (
    ground (arith, lookup-append (key y) ys x, eq_iff (key x) (key y), eq_iff (key y) (key x)),
    IsUnique-append ys x u.1 (ground arith),
  )

  pub IsUnique-update :
      (k : String) (f : A → A) (xs : List A)
      → ((x : A) → key (f x) ≡ key x)
      → IsUnique xs
      → IsUnique (update k f xs)
  unfolding update
  IsUnique-update k f [] same u = tt
  IsUnique-update k f (x ∷ xs) same u = elim (Bool-cases (key x == k)) [
    | inl e ↦ rw e (rw (same x) u.0, u.1)
    | inr e ↦ rw e (
      rw (lookup-update k (key x) f xs same)
          (ground (arith, u.0, eq_iff k (key x), eq_iff (key x) k)),
      IsUnique-update k f xs same u.1,
    )
  ]

  lookup-filter-none :
      (k : String) (p : A → Bool) (xs : List A) → lookup k xs ≡ none → lookup k (filter p xs) ≡ none
  unfolding lookup
  lookup-filter-none k p [] h = refl
  lookup-filter-none k p (x ∷ xs) h = ground (arith, lookup-filter-none k p xs)

  pub IsUnique-filter : (p : A → Bool) (xs : List A) → IsUnique xs → IsUnique (filter p xs)
  IsUnique-filter p [] u = tt
  IsUnique-filter p (x ∷ xs) u = elim (Bool-cases (p x)) [
    | inl e ↦ rw e (lookup-filter-none (key x) p xs u.0, IsUnique-filter p xs u.1)
    | inr e ↦ rw e (IsUnique-filter p xs u.1)
  ]

  -- In a table with unique keys every row is found by its key.
  pub rows-lookup : (xs : List A) → IsUnique xs → All (λ x. lookup (key x) xs ≡ some x) xs
  unfolding lookup
  rows-lookup [] u = tt
  rows-lookup (y ∷ ys) u = (
    rw (eq_refl (key y)),
    All-map (λ x h. ground (arith, u.0, eq_iff (key y) (key x), h)) ys (rows-lookup ys u.1),
  )
