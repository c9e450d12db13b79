-- ===== src/Evidence/Store/Claiming/Disjoint.antt =====
-- Two claims in a row never hand out the same part.
use native.Mathlib.Omega.{arith}
use mathlib.Core.Path.{subst}
use exam_sage.Common.{
  ℕ, String, ◌≡◌, ap, ◌∙◌, Bool, true, false, Option, none, some, List, [], ◌∷◌, All, All-map, ok,
  ◌==◌, eq_iff,
}
use exam_sage.Common.Table.{IsUnique, IsUnique-update}
use exam_sage.Evidence.Store.{Db, PartRow, part_key, find_part, update_part, is_running}
use exam_sage.Evidence.Store.Claims.{
  Claim, is_claimable, frontier, claimed, claim_rows, claim_of, claim_parts_with_tokens,
}
use exam_sage.Evidence.Store.Claiming.{
  IsThere, update_part-same, claim_rows-IsClaimed, selected-IsUnique, selected-IsThere,
  selected-claimable, both_All, All-of-map, handed_out, claims_case,
}

abbrev running_row : Option PartRow → Bool
running_row none = false
running_row (some r) = is_running r.state

abbrev HasState : Bool → Db → Claim → Type 0
HasState b db c = running_row (find_part c.plan.part_id db) ≡ b

claim_rows-IsUnique :
    (now : ℕ) (rs : List PartRow) (db : Db)
    → IsUnique part_key db.parts
    → IsUnique part_key (claim_rows now rs db).parts
unfolding claim_rows
claim_rows-IsUnique now [] db u = u
claim_rows-IsUnique now (r ∷ rs) db u =
    claim_rows-IsUnique now rs (update_part (part_key r) (claimed now) db)
      (IsUnique-update part_key (part_key r) (claimed now) db.parts (update_part-same now) u)

module _ (digest : String → String) (w v : String) (limit now : ℕ) (db : Db)
    (u : IsUnique part_key db.parts) where
  -- The claims of a call are running behind it.
  running_after :
      let y = claim_parts_with_tokens digest w v limit now db in
      All (HasState true y.1) (handed_out y.0)
  running_after =
      let rows = frontier w v limit now db in
      claims_case (λ cs d. All (HasState true d) cs) digest w v limit now db tt
        (λ _. All-of-map (HasState true (claim_rows now rows db)) (claim_of digest) rows (
          All-map (λ r there. ap running_row there) rows
            (claim_rows-IsClaimed now rows db (selected-IsUnique w v limit now db u)
              (selected-IsThere w v limit now db u))))

  IsUnique-after : IsUnique part_key (claim_parts_with_tokens digest w v limit now db).1.parts
  IsUnique-after =
      claims_case (λ cs d. IsUnique part_key d.parts) digest w v limit now db u
        (λ _. claim_rows-IsUnique now (frontier w v limit now db) db u)

  -- They were not running before.
  waiting_before :
      All (HasState false db) (handed_out (claim_parts_with_tokens digest w v limit now db).0)
  waiting_before =
      let rows = frontier w v limit now db in
      claims_case (λ cs d. All (HasState false db) cs) digest w v limit now db tt
        (λ _. All-of-map (HasState false db) (claim_of digest) rows (
          both_All (λ r. is_claimable w v now r ≡ true) (IsThere db)
            (λ r. HasState false db (claim_of digest r)) rows
            (λ r fit there. ap running_row there ∙ ground (arith, fit))
            (selected-claimable w v limit now db u) (selected-IsThere w v limit now db u)))

-- If no two parts share an id, then two calls of claim_parts_with_tokens, the second on the tables
-- that the first leaves, hand out no part twice, for any workspaces, revisions, limits and times.
pub claim_parts_with_tokens_disjoint :
    (digest : String → String) (w v w' v' : String) (limit limit' now now' : ℕ) (db : Db)
    (first second : List Claim)
    → IsUnique part_key db.parts
    → (claim_parts_with_tokens digest w v limit now db).0 ≡ ok first
    → (claim_parts_with_tokens digest w' v' limit' now'
        (claim_parts_with_tokens digest w v limit now db).1).0
      ≡ ok second
    → All (λ c. All (λ d. (c.plan.part_id == d.plan.part_id) ≡ false) second) first
claim_parts_with_tokens_disjoint digest w v w' v' limit limit' now now' db first second u e e' =
    let db' = (claim_parts_with_tokens digest w v limit now db).1 in
    let runs =
      subst (λ cs. All (HasState true db') cs) (ap handed_out e)
        (running_after digest w v limit now db u) in
    let waits =
      subst (λ cs. All (HasState false db') cs) (ap handed_out e')
        (waiting_before digest w' v' limit' now' db' (IsUnique-after digest w v limit now db u)) in
    All-map
      (λ c on.
        All-map (λ d off. ground (arith, eq_iff c.plan.part_id d.plan.part_id, on, off)) second
          waits)
      first runs
