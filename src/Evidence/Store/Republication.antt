-- ===== src/Evidence/Store/Republication.antt =====
-- A publication that is repeated, as after a lost answer.
use native.Mathlib.Omega.{arith}
use mathlib.Core.Path.{subst}
use exam_sage.Common.{
  ℕ, String, ◌≡◌, refl, sym, ap, Bool, true, false, ◌&&◌, Option, none, some, eqb, ok, ◌==◌,
  eq_refl,
}
use exam_sage.Common.Table.{lookup, update, lookup-append, lookup-update}
use exam_sage.Evidence.Models.{EvidenceUnit}
use exam_sage.Evidence.Store.{
  Db, PartRow, UnitRow, CacheRow, part_key, find_part, is_current, part_is_current, row_token,
}
use exam_sage.Evidence.Store.Publication.{
  Env, find_unit, find_cached, unit_key, cache_key_of, all_citations, texts_are_safe, is_inside,
  belongs, unit_sha256, same_publication, put_unit, insert_cache, processed_row, publish_new,
  publish_claimed, publish_evidence,
}

-- What publish_evidence has tested when it publishes, for the part's row.
record Passed (env : Env) (id : String) (u : EvidenceUnit) (token : String) (db : Db) (r : PartRow)
    : Type 0 where
  safe : texts_are_safe env u ≡ true
  own : (u.source_part_id == id) ≡ true
  belonging : all_citations (belongs id u) u.citations ≡ true
  current : part_is_current env.digest r db ≡ true
  fresh : (token == row_token env.digest r) ≡ true
  inside : all_citations (is_inside env r) u.citations ≡ true

abbrev matches : Env → String → EvidenceUnit → Option UnitRow → Bool
matches env id u none = false
matches env id u (some row) = row.unit.source_part_id == id && row.unit_sha256 == unit_sha256 env u

abbrev cache_row : Env → EvidenceUnit → String → PartRow → ℕ → CacheRow
cache_row env u digest r now = record {
  cache_digest = digest;
  evidence_unit_id = u.evidence_unit_id;
  unit_sha256 = unit_sha256 env u;
  source_sha256 = r.plan.source_sha256;
  plan_generation = some r.plan_generation;
  claim_generation = some r.claim_generation;
  created_at = now;
}

-- The tables behind the writes of a first publication.
record Published (env : Env) (id : String) (u : EvidenceUnit) (digest : String) (r : PartRow)
    (now : ℕ) (db after : Db) : Type 0 where
  parts : after.parts ≡ update part_key id (processed_row now) db.parts
  meta : after.meta ≡ db.meta
  cached : lookup cache_key_of digest after.cache ≡ some (cache_row env u digest r now)
  unit : matches env id u (find_unit u.evidence_unit_id after) ≡ true

publish_new-Published :
    (env : Env) (id : String) (u : EvidenceUnit) (digest : String) (r : PartRow) (now : ℕ) (db : Db)
    → (u.source_part_id == id) ≡ true
    → (publish_new env id u digest r now db).0 ≡ ok true
    → Published env id u digest r now db (publish_new env id u digest r now db).1
unfolding publish_new put_unit insert_cache
publish_new-Published env id u digest r now db own done =
    let row : UnitRow = record { unit = u; unit_sha256 = unit_sha256 env u; published_at = now } in
    let units = lookup-append unit_key u.evidence_unit_id db.units row in
    let caches = lookup-append cache_key_of digest db.cache (cache_row env u digest r now) in
    record {
      parts = ground (arith, done);
      meta = ground (arith, done);
      cached = ground (arith, done, caches, eq_refl digest);
      unit =
          ground (arith, done, own, units, eq_refl u.evidence_unit_id, eq_refl (unit_sha256 env u));
    }

module _ (env : Env) (id : String) (u : EvidenceUnit) (key token : String) (now : ℕ) (db : Db)
    (r : PartRow) (found : find_part id db ≡ some r)
    (published : (publish_evidence env id u key token now db).0 ≡ ok true) where
  passed : Passed env id u token db r
  unfolding publish_evidence
  passed = record {
    safe = ground (arith, published, found);
    own = ground (arith, published, found);
    belonging = ground (arith, published, found);
    current = ground (arith, published, found);
    fresh = ground (arith, published, found);
    inside = ground (arith, published, found);
  }

  new_result : (publish_new env id u (env.digest key) r now db).0 ≡ ok true
  unfolding publish_evidence publish_claimed
  new_result = ground (arith, published, found)

  new_tables :
      (publish_evidence env id u key token now db).1
      ≡ (publish_new env id u (env.digest key) r now db).1
  unfolding publish_evidence publish_claimed
  new_tables = ground (arith, published, found)

module _ (env : Env) (id : String) (u : EvidenceUnit) (key token : String) (now : ℕ) (db : Db)
    (r : PartRow) (found : find_part id db ≡ some r) (p : Passed env id u token db r) (after : Db)
    (w : Published env id u (env.digest key) r now db after) where
  found_after : find_part id after ≡ some (processed_row now r)
  found_after = ground (
    arith,
    w.parts,
    found,
    eq_refl id,
    lookup-update part_key id id (processed_row now) db.parts (λ x. refl),
  )

  current_after : part_is_current env.digest (processed_row now r) after ≡ true
  unfolding is_current
  current_after = ground (arith, w.meta, p.current)

  eqb_refl : (n : ℕ) → eqb n n ≡ true
  eqb_refl n = ground arith

  same_after :
      same_publication env id u (processed_row now r) (find_cached (env.digest key) after) ≡ true
  unfolding same_publication
  same_after = ground (
    arith,
    w.cached,
    w.unit,
    eq_refl u.evidence_unit_id,
    eq_refl (unit_sha256 env u),
    eq_refl r.plan.source_sha256,
    eqb_refl r.plan_generation,
    eqb_refl r.claim_generation,
  )

  claimed_again :
      (now' : ℕ) (o : Option (CacheRow × UnitRow))
      → same_publication env id u (processed_row now r) o ≡ true
      → publish_claimed env id u (env.digest key) now' (processed_row now r) o after
        ≡ (ok false, after)
  unfolding publish_claimed
  claimed_again now' o e = rw e refl

  again_result : (now' : ℕ) → (publish_evidence env id u key token now' after).0 ≡ ok false
  unfolding publish_evidence
  again_result now' =
      let last = claimed_again now' (find_cached (env.digest key) after) same_after in
      ground (
        arith,
        p.safe,
        p.own,
        p.belonging,
        p.inside,
        p.fresh,
        found_after,
        current_after,
        ap (λ y. y.0) last,
      )

  again_tables : (now' : ℕ) → (publish_evidence env id u key token now' after).1 ≡ after
  unfolding publish_evidence
  again_tables now' =
      let last = claimed_again now' (find_cached (env.digest key) after) same_after in
      ground (
        arith,
        p.safe,
        p.own,
        p.belonging,
        p.inside,
        p.fresh,
        found_after,
        current_after,
        ap (λ y. y.0) last,
        ap (λ y. y.1) last,
      )

unpublished :
    (env : Env) (id : String) (u : EvidenceUnit) (key token : String) (now : ℕ) (db : Db)
    → find_part id db ≡ none
    → (publish_evidence env id u key token now db).0 ≡ ok true
    → ⊥
unfolding publish_evidence
unpublished env id u key token now db missing done = ground arith

-- If publish_evidence returns true, then the same call on the tables behind it, at any time, returns
-- false and leaves the tables as they are.
pub publish_evidence_again :
    (env : Env) (id : String) (u : EvidenceUnit) (key token : String) (now now' : ℕ) (db : Db)
    → (publish_evidence env id u key token now db).0 ≡ ok true
    → let after = (publish_evidence env id u key token now db).1 in
      ((publish_evidence env id u key token now' after).0 ≡ ok false)
      × ((publish_evidence env id u key token now' after).1 ≡ after)
publish_evidence_again env id u key token now now' db done = go (find_part id db) refl
  where
    go :
        (o : Option PartRow)
        → find_part id db ≡ o
        → let after = (publish_evidence env id u key token now db).1 in
          ((publish_evidence env id u key token now' after).0 ≡ ok false)
          × ((publish_evidence env id u key token now' after).1 ≡ after)
    go none e = absurd (unpublished env id u key token now db e done)
    go (some r) e =
        let p = passed env id u key token now db r e done in
        let w =
          subst (Published env id u (env.digest key) r now db)
            (sym (new_tables env id u key token now db r e done))
            (publish_new-Published env id u (env.digest key) r now db p.own
              (new_result env id u key token now db r e done)) in
        let after = (publish_evidence env id u key token now db).1 in
        (
          again_result env id u key token now db r e p after w now',
          again_tables env id u key token now db r e p after w now',
        )
