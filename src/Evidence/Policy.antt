-- ===== src/Evidence/Policy.antt =====
-- exam_predictor/evidence/policy.py: the order in which the parts of one source are scheduled.
use native.Mathlib.Omega.{arith}
use Prim.Native.Nat.{◌/◌}
use exam_sage.Common.{
  ℕ, zero, suc, ◌+◌, ◌-◌, ◌<◌, ◌≡◌, refl, Bool, true, false, not, List, [], ◌∷◌, ◌++◌, eqb, ltb,
  if◌then◌else◌, filter, any, count,
}

-- range(n)
unfoldable pub range : ℕ → List ℕ
range zero = []
range (suc n) = range n ++ n ∷ []

-- dict.fromkeys: each key where it comes first
unfoldable pub from_keys : List ℕ → List ℕ
from_keys [] = []
from_keys (x ∷ xs) = x ∷ filter (λ y. not (eqb y x)) (from_keys xs)

unfoldable pub anchors : ℕ → List ℕ
unfolding from_keys
anchors n = from_keys (0 ∷ (n / 2) ∷ (n - 1) ∷ [])

-- representative_ordinals
unfoldable pub representative_ordinals : (total_parts : ℕ) → List ℕ
unfolding range anchors
representative_ordinals zero = []
representative_ordinals (suc n) =
    anchors (suc n) ++ filter (λ i. not (any (eqb i) (anchors (suc n)))) (range (suc n))

count-append :
    (k : ℕ) (xs ys : List ℕ) → count (eqb k) (xs ++ ys) ≡ count (eqb k) xs + count (eqb k) ys
count-append k [] ys = omega arith
count-append k (x ∷ xs) ys = ground (arith, count-append k xs ys)

count-filter :
    (k : ℕ) (p : ℕ → Bool) (xs : List ℕ)
    → count (eqb k) (filter p xs) ≡ (if p k then count (eqb k) xs else 0)
count-filter k p [] = ground arith
count-filter k p (x ∷ xs) = ground (arith, count-filter k p xs)

count-range : (k n : ℕ) → count (eqb k) (range n) ≡ (if ltb k n then 1 else 0)
unfolding range
count-range k zero = ground arith
count-range k (suc n) = ground (arith, count-append k (range n) (n ∷ []), count-range k n)

any-filter-eqb :
    (k : ℕ) (p : ℕ → Bool) (xs : List ℕ)
    → any (eqb k) (filter p xs) ≡ (if p k then any (eqb k) xs else false)
any-filter-eqb k p [] = ground arith
any-filter-eqb k p (x ∷ xs) = ground (arith, any-filter-eqb k p xs)

any-from_keys : (k : ℕ) (xs : List ℕ) → any (eqb k) (from_keys xs) ≡ any (eqb k) xs
unfolding from_keys
any-from_keys k [] = refl
any-from_keys k (x ∷ xs) =
    ground (arith, any-filter-eqb k (λ y. not (eqb y x)) (from_keys xs), any-from_keys k xs)

count-from_keys :
    (k : ℕ) (xs : List ℕ) → count (eqb k) (from_keys xs) ≡ (if any (eqb k) xs then 1 else 0)
unfolding from_keys
count-from_keys k [] = refl
count-from_keys k (x ∷ xs) =
    ground (arith, count-filter k (λ y. not (eqb y x)) (from_keys xs), count-from_keys k xs)

anchors_below : (k n : ℕ) → any (eqb k) (0 ∷ (suc n / 2) ∷ (suc n - 1) ∷ []) ≡ true → k < suc n
anchors_below k n h = ground arith

-- For every total, each ordinal below it stands once in representative_ordinals, and no other number
-- does.
pub count-representative_ordinals :
    (k total_parts : ℕ)
    → count (eqb k) (representative_ordinals total_parts) ≡ (if ltb k total_parts then 1 else 0)
unfolding representative_ordinals anchors
count-representative_ordinals k zero = ground arith
count-representative_ordinals k (suc n) =
    let first = 0 ∷ (suc n / 2) ∷ (suc n - 1) ∷ [] in
    ground (
      arith,
      count-append k (anchors (suc n))
          (filter (λ i. not (any (eqb i) (anchors (suc n)))) (range (suc n))),
      count-filter k (λ i. not (any (eqb i) (anchors (suc n)))) (range (suc n)),
      count-range k (suc n),
      count-from_keys k first,
      any-from_keys k first,
      anchors_below k n,
    )
