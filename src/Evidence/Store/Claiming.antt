-- ===== src/Evidence/Store/Claiming.antt =====
-- What claim_parts_with_tokens hands out.
pub mod Disjoint
use native.Mathlib.Omega.{arith}
use mathlib.Core.Path.{subst}
use exam_sage.Common.{
  transaction, ℕ, zero, suc, ◌+◌, String, ◌≡◌, refl, sym, ap, ◌∙◌, Bool, true, false, ◌&&◌, not,
  Option, none, some, List, [], ◌∷◌, map, All, All-map, All-filter, All-take, filter-All, filter,
  take, Method, Result, ok, err, Error, ◌==◌, eq_iff, eq_refl, inl, inr, Bool-cases, if◌then◌else◌,
  order_by, All-order_by,
}
use exam_sage.Common.Table.{
  lookup, update, IsUnique, IsUnique-filter, rows-lookup, lookup-update, map_option,
}
use exam_sage.Common.Table.Sorted.{order_by-IsUnique, take-IsUnique}
use exam_sage.Evidence.Models.{PartState, SourcePartPlan}
use exam_sage.Evidence.Tokens.{claim_token}
use exam_sage.Evidence.Store.{
  Db, PartRow, part_key, find_part, update_part, is_current, part_is_current, row_token, is_running,
  scheduled_no_later, in_revision,
}
use exam_sage.Evidence.Store.Claims.{
  Claim, is_claimable, frontier, claimed, claim_rows, claim_of, claim_frontier,
  claim_parts_with_tokens, publication_token,
}

update_part-same : (now : ℕ) (x : PartRow) → part_key (claimed now x) ≡ part_key x
update_part-same now x = refl

-- A row that is not in a list is not among its keys.
missing_apart :
    (k : String) (rs : List PartRow)
    → lookup part_key k rs ≡ none
    → All (λ x. (k == part_key x) ≡ false) rs
unfolding lookup
missing_apart k [] h = tt
missing_apart k (r ∷ rs) h = (
  ground (arith, eq_iff k (part_key r), eq_iff (part_key r) k, h),
  missing_apart k rs (ground (arith, h)),
)

claim_rows-other :
    (now : ℕ) (rs : List PartRow) (db : Db) (k : String)
    → lookup part_key k rs ≡ none
    → find_part k (claim_rows now rs db) ≡ find_part k db
unfolding lookup claim_rows
claim_rows-other now [] db k h = refl
claim_rows-other now (r ∷ rs) db k h =
    claim_rows-other now rs (update_part (part_key r) (claimed now) db) k (ground (arith, h))
    ∙ ground (
      arith,
      h,
      lookup-update part_key (part_key r) k (claimed now) db.parts (update_part-same now),
    )

-- The table of a row that is there.
abbrev IsThere : Db → PartRow → Type 0
IsThere db r = find_part (part_key r) db ≡ some r

abbrev IsClaimed : ℕ → Db → PartRow → Type 0
IsClaimed now db r = find_part (part_key r) db ≡ some (claimed now r)

both_All :
    (P Q R : PartRow → Type 0) (rs : List PartRow)
    → ((r : PartRow) → P r → Q r → R r)
    → All P rs
    → All Q rs
    → All R rs
both_All P Q R [] f p q = tt
both_All P Q R (r ∷ rs) f p q = (f r p.0 q.0, both_All P Q R rs f p.1 q.1)

claim_rows-IsClaimed :
    (now : ℕ) (rs : List PartRow) (db : Db)
    → IsUnique part_key rs
    → All (IsThere db) rs
    → All (IsClaimed now (claim_rows now rs db)) rs
unfolding claim_rows
claim_rows-IsClaimed now [] db u there = tt
claim_rows-IsClaimed now (r ∷ rs) db u there =
    let db' = update_part (part_key r) (claimed now) db in
    let law = λ (k : String).
      lookup-update part_key (part_key r) k (claimed now) db.parts (update_part-same now) in
    (
      claim_rows-other now rs db' (part_key r) u.0
          ∙ ground (arith, law (part_key r), eq_refl (part_key r), there.0),
      claim_rows-IsClaimed now rs db' u.1 (
          both_All (λ x. (part_key r == part_key x) ≡ false) (IsThere db) (IsThere db') rs
            (λ x apart found. ground (arith, law (part_key x), apart, found))
            (missing_apart (part_key r) rs u.0) there.1),
    )

claim_rows-meta : (now : ℕ) (rs : List PartRow) (db : Db) → (claim_rows now rs db).meta ≡ db.meta
unfolding claim_rows
claim_rows-meta now [] db = refl
claim_rows-meta now (r ∷ rs) db = claim_rows-meta now rs (update_part (part_key r) (claimed now) db)

module _ (workspace_id revision_id : String) (limit now : ℕ) (db : Db)
    (u : IsUnique part_key db.parts) where
  selected-IsUnique : IsUnique part_key (frontier workspace_id revision_id limit now db)
  unfolding frontier
  selected-IsUnique = take-IsUnique part_key limit _ (
      order_by-IsUnique part_key scheduled_no_later _
        (IsUnique-filter part_key (is_claimable workspace_id revision_id now) db.parts u))

  selected-IsThere : All (IsThere db) (frontier workspace_id revision_id limit now db)
  unfolding frontier
  selected-IsThere = All-take (IsThere db) limit _ (
      All-order_by scheduled_no_later (IsThere db) _ (
        All-filter (IsThere db) (is_claimable workspace_id revision_id now) db.parts
          (rows-lookup part_key db.parts u)))

  selected-claimable :
      All
        (λ r. is_claimable workspace_id revision_id now r ≡ true)
        (frontier workspace_id revision_id limit now db)
  unfolding frontier
  selected-claimable =
      All-take (λ r. is_claimable workspace_id revision_id now r ≡ true) limit _
        (All-order_by scheduled_no_later (λ r. is_claimable workspace_id revision_id now r ≡ true) _
          (filter-All (is_claimable workspace_id revision_id now) db.parts))

-- A row that has been claimed has a publication token, the one of its raised generation.
claimed_token :
    (digest : String → String) (workspace_id revision_id : String) (now : ℕ) (db db' : Db)
    (r : PartRow)
    → db'.meta ≡ db.meta
    → is_current digest workspace_id revision_id db ≡ true
    → is_claimable workspace_id revision_id now r ≡ true
    → IsClaimed now db' r
    → (publication_token digest (part_key r) db').0 ≡ ok (claim_of digest r).claim_token
unfolding publication_token is_current
claimed_token digest workspace_id revision_id now db db' r same current fit there = ground (
  arith,
  same,
  current,
  fit,
  there,
  eq_iff r.plan.workspace_id workspace_id,
  eq_iff r.plan.revision_id revision_id,
)

All-of-map :
    {A B : Type 0} (Q : B → Type 0) (f : A → B) (xs : List A)
    → All (λ x. Q (f x)) xs
    → All Q (map f xs)
All-of-map Q f [] h = tt
All-of-map Q f (x ∷ xs) h = (h.0, All-of-map Q f xs h.1)

-- The store vouches for a claim: its part has a publication token, which is the claim's.
abbrev pub IsHeld : (String → String) → Db → Claim → Type 0
IsHeld digest db c = (publication_token digest c.plan.part_id db).0 ≡ ok c.claim_token

abbrev pub handed_out : Result (List Claim) → List Claim
handed_out (ok claims) = claims
handed_out (err e) = []

-- What holds of the claims that a call hands out, and of the database behind it.
claims_case :
    (P : List Claim → Db → Type 0) (digest : String → String) (workspace_id revision_id : String)
    (limit now : ℕ) (db : Db)
    → P [] db
    → (is_current digest workspace_id revision_id db ≡ true
        → P
            (map (claim_of digest) (frontier workspace_id revision_id limit now db))
            (claim_rows now (frontier workspace_id revision_id limit now db) db))
    → let y = claim_parts_with_tokens digest workspace_id revision_id limit now db in
      P (handed_out y.0) y.1
unfolding claim_parts_with_tokens claim_frontier
claims_case P digest w v zero now db empty full = empty
claims_case P digest w v (suc n) now db empty full = elim (Bool-cases (is_current digest w v db)) [
  | inl e ↦ rw e (full e)
  | inr e ↦ rw e empty
]

frontier-IsHeld :
    (digest : String → String) (workspace_id revision_id : String) (limit now : ℕ) (db : Db)
    → IsUnique part_key db.parts
    → is_current digest workspace_id revision_id db ≡ true
    → let rows = frontier workspace_id revision_id limit now db in
      All (IsHeld digest (claim_rows now rows db)) (map (claim_of digest) rows)
frontier-IsHeld digest w v limit now db u current =
    let rows = frontier w v limit now db in
    All-of-map (IsHeld digest (claim_rows now rows db)) (claim_of digest) rows (
      both_All (λ r. is_claimable w v now r ≡ true) (IsClaimed now (claim_rows now rows db))
        (λ r. IsHeld digest (claim_rows now rows db) (claim_of digest r)) rows
        (λ r fit there.
          claimed_token digest w v now db (claim_rows now rows db) r (claim_rows-meta now rows db)
            current fit there)
        (selected-claimable w v limit now db u)
        (claim_rows-IsClaimed now rows db (selected-IsUnique w v limit now db u)
          (selected-IsThere w v limit now db u)))

-- If no two parts share an id, then behind a claim_parts_with_tokens that hands out claims, the
-- publication token of each claim's part is the claim's token.
pub claim_parts_with_tokens-IsHeld :
    (digest : String → String) (workspace_id revision_id : String) (limit now : ℕ) (db : Db)
    (claims : List Claim)
    → IsUnique part_key db.parts
    → (claim_parts_with_tokens digest workspace_id revision_id limit now db).0 ≡ ok claims
    → All
        (IsHeld digest (claim_parts_with_tokens digest workspace_id revision_id limit now db).1)
        claims
claim_parts_with_tokens-IsHeld digest w v limit now db claims u e =
    subst (λ cs. All (IsHeld digest (claim_parts_with_tokens digest w v limit now db).1) cs)
      (ap handed_out e)
      (claims_case (λ cs d. All (IsHeld digest d) cs) digest w v limit now db tt
        (frontier-IsHeld digest w v limit now db u))
