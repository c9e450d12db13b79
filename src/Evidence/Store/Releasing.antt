-- ===== src/Evidence/Store/Releasing.antt =====
-- What recover_unfinished makes of the claims of a former process.
use native.Mathlib.Omega.{arith}
use exam_sage.Common.{
  ℕ, ◌≤◌, String, ◌≡◌, refl, Bool, zero, suc, true, false, some, List, [], ◌∷◌, map, is_ok, any,
  filter, length, take_all, order_by, any-order_by, length-order_by, any-map, ap, ◌∙◌, ◌==◌,
}
use exam_sage.Common.Table.{lookup, map_option}
use exam_sage.Evidence.Store.{
  Db, PartRow, part_key, find_part, is_running, in_revision, is_current, scheduled_no_later,
}
use exam_sage.Evidence.Store.Claiming.{handed_out}
use exam_sage.Evidence.Store.Claims.{
  recover_row, recover_unfinished, publication_token, is_claimable, frontier, claim_of,
  claim_frontier, claim_parts_with_tokens,
}

lookup-map :
    (id : String) (now : ℕ) (rs : List PartRow)
    → lookup part_key id (map (recover_row now) rs)
      ≡ map_option (recover_row now) (lookup part_key id rs)
unfolding lookup recover_row
lookup-map id now [] = refl
lookup-map id now (r ∷ rs) = ground (arith, lookup-map id now rs)

recovered-is_running : (now : ℕ) (r : PartRow) → is_running (recover_row now r).state ≡ false
unfolding recover_row
recovered-is_running now r = ground arith

recovered_claimable :
    (workspace_id revision_id : String) (now later : ℕ) (r : PartRow)
    → now ≤ later
    → is_running r.state ≡ true
    → in_revision workspace_id revision_id r ≡ true
    → is_claimable workspace_id revision_id later (recover_row now r) ≡ true
unfolding recover_row
recovered_claimable w v now later r after runs here = ground (arith, after, runs, here)

filter-finds :
    (p : PartRow → Bool) (id : String) (rs : List PartRow) (r : PartRow)
    → lookup part_key id rs ≡ some r
    → p r ≡ true
    → any (λ s. s.plan.part_id == id) (filter p rs) ≡ true
unfolding lookup
filter-finds p id [] r found fit = absurd (cc)
filter-finds p id (x ∷ xs) r found fit = ground (arith, filter-finds p id xs r)

no_token :
    (digest : String → String) (id : String) (db : Db) (r : PartRow)
    → find_part id db ≡ some r
    → is_running r.state ≡ false
    → is_ok (publication_token digest id db).0 ≡ false
unfolding publication_token
no_token digest id db r found waits = ground arith

-- A row that can be claimed is selected, where the limit leaves room for all that can be.
frontier-selects :
    (workspace_id revision_id id : String) (limit now : ℕ) (db : Db) (r : PartRow)
    → find_part id db ≡ some r
    → is_claimable workspace_id revision_id now r ≡ true
    → length (filter (is_claimable workspace_id revision_id now) db.parts) ≤ limit
    → any (λ s. s.plan.part_id == id) (frontier workspace_id revision_id limit now db) ≡ true
unfolding frontier
frontier-selects w v id limit now db r found fit room =
    let rows = filter (is_claimable w v now) db.parts in
    let sorted_room : (length (order_by scheduled_no_later rows) ≤ limit) =
      rw (length-order_by scheduled_no_later rows) room in
    ap (any (λ s. s.plan.part_id == id))
      (take_all limit (order_by scheduled_no_later rows) sorted_room)
    ∙ (any-order_by scheduled_no_later (λ s. s.plan.part_id == id) rows
        ∙ filter-finds (is_claimable w v now) id db.parts r found fit)

-- Every selected row is handed out, if the revision is current.
handed_out-selected :
    (digest : String → String) (workspace_id revision_id id : String) (limit now : ℕ) (db : Db)
    → is_current digest workspace_id revision_id db ≡ true
    → any (λ s. s.plan.part_id == id) (frontier workspace_id revision_id limit now db) ≡ true
    → any
        (λ c. c.plan.part_id == id)
        (handed_out (claim_parts_with_tokens digest workspace_id revision_id limit now db).0)
      ≡ true
unfolding claim_parts_with_tokens claim_frontier
handed_out-selected digest w v id zero now db current here = absurd (unfold frontier in (cc))
handed_out-selected digest w v id (suc n) now db current here =
    rw current
      (any-map (λ c. c.plan.part_id == id) (claim_of digest) (frontier w v (suc n) now db) ∙ here)

-- If the row of a part is there and it is running, then behind recover_unfinished it has no publication
-- token; and if its revision is the current one of its workspace, a claim_parts_with_tokens for that
-- revision, no earlier than the recovery and with a limit that is no less than the number of the parts
-- that can be claimed then, hands the part out.
pub recover_unfinished_releases :
    (digest : String → String) (workspace_id revision_id id : String) (now later limit : ℕ)
    (db : Db) (r : PartRow)
    → find_part id db ≡ some r
    → is_running r.state ≡ true
    → in_revision workspace_id revision_id r ≡ true
    → is_current digest workspace_id revision_id db ≡ true
    → now ≤ later
    → length
        (filter (is_claimable workspace_id revision_id later) (recover_unfinished now db).1.parts)
      ≤ limit
    → let after = (recover_unfinished now db).1 in
      (is_ok (publication_token digest id after).0 ≡ false)
      × (any
            (λ c. c.plan.part_id == id)
            (handed_out
              (claim_parts_with_tokens digest workspace_id revision_id limit later after).0)
          ≡ true)
unfolding recover_unfinished is_current
recover_unfinished_releases digest w v id now later limit db r found runs here current le room =
    let after = (recover_unfinished now db).1 in
    let there : (find_part id after ≡ some (recover_row now r)) =
      rw (lookup-map id now db.parts) (rw found refl) in
    let selected =
      frontier-selects w v id limit later after (recover_row now r) there
        (recovered_claimable w v now later r le runs here) room in
    (
      no_token digest id after (recover_row now r) there (recovered-is_running now r),
      handed_out-selected digest w v id limit later after current selected,
    )
