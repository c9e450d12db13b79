-- ===== src/Evidence/Store/Publication.antt =====
-- exam_predictor/evidence/store.py: publication of a part's evidence, and its reuse from the cache.
use Prim.Native.Char.{nul}
use Prim.Native.String.{◌++◌ as ◌<>◌}
use exam_sage.Common.{
  transaction, ℕ, suc, String, Bool, true, false, ◌&&◌, not, Option, none, some, List, [], ◌∷◌,
  ◌++◌, eqb, if◌then◌else◌, is_none, Method, ok, err, ◌>>=◌, ◌>>◌, pure, raise, gets, modify,
  ensure, value_error, integrity_error, ◌==◌,
}
use exam_sage.Common.Table.{lookup}
use exam_sage.Evidence.Models.{PartState, EvidenceUnit, EvidenceCitation}
use exam_sage.Evidence.Tokens.{decimal}
use exam_sage.Evidence.Store.{
  Db, PartRow, UnitRow, CacheRow, require_part, update_part, part_is_current, row_token, is_running,
}

-- What the publication takes from elsewhere: SHA-256, the canonical JSON of a unit, the screen of
-- texts by regular expressions, and whether a part's locator covers a citation's.
pub record Env : Type 0 where
  pub digest : String → String
  pub json : EvidenceUnit → String
  pub is_safe : String → Bool
  pub locator_contains : (part_locator citation_locator : String) → Bool

abbrev pub unit_key : UnitRow → String
unit_key u = u.unit.evidence_unit_id

abbrev pub cache_key_of : CacheRow → String
cache_key_of c = c.cache_digest

abbrev pub find_unit : String → Db → Option UnitRow
find_unit unit_id db = lookup unit_key unit_id db.units

abbrev pub joined : Db → Option CacheRow → Option (CacheRow × UnitRow)
joined db none = none
joined db (some c) = elim (find_unit c.evidence_unit_id db) [ none ↦ none | some u ↦ some (c, u) ]

-- evidence_cache JOIN evidence_units WHERE cache_digest = ?
abbrev pub find_cached : String → Db → Option (CacheRow × UnitRow)
find_cached cache_digest db = joined db (lookup cache_key_of cache_digest db.cache)

unfoldable pub all_citations : (EvidenceCitation → Bool) → List EvidenceCitation → Bool
all_citations p [] = true
all_citations p (c ∷ cs) = p c && all_citations p cs

-- _validate_serialized_strings on a unit's payload
unfoldable pub texts_are_safe : Env → EvidenceUnit → Bool
unfolding all_citations
texts_are_safe env u =
    env.is_safe u.evidence_unit_id
    && (env.is_safe u.source_part_id
        && (env.is_safe u.content
            && all_citations
                (λ c.
                  env.is_safe c.citation_id
                  && (env.is_safe c.evidence_unit_id
                      && (env.is_safe c.source_part_id
                          && (env.is_safe c.relative_path && env.is_safe c.locator))))
                u.citations))

-- A citation within the persisted plan
unfoldable pub is_inside : Env → PartRow → EvidenceCitation → Bool
is_inside env part c =
    c.relative_path == part.plan.relative_path && env.locator_contains part.plan.locator c.locator

unfoldable pub belongs : String → EvidenceUnit → EvidenceCitation → Bool
belongs part_id u c = c.evidence_unit_id == u.evidence_unit_id && c.source_part_id == part_id

-- _digest of the canonical JSON
abbrev pub unit_sha256 : Env → EvidenceUnit → String
unit_sha256 env u = env.digest (env.json u)

abbrev pub is_value : Option ℕ → ℕ → Bool
is_value none n = false
is_value (some m) n = eqb m n

-- The test by which a processed part's publication counts as the same one.
unfoldable pub same_publication :
    Env → (part_id : String) → EvidenceUnit → PartRow → Option (CacheRow × UnitRow) → Bool
same_publication env part_id u part none = false
same_publication env part_id u part (some (c, row)) =
    c.evidence_unit_id == u.evidence_unit_id
    && (c.unit_sha256 == unit_sha256 env u
        && (c.source_sha256 == part.plan.source_sha256
            && (is_value c.plan_generation part.plan_generation
                && (is_value c.claim_generation part.claim_generation
                    && (row.unit.source_part_id == part_id
                        && row.unit_sha256 == unit_sha256 env u)))))

-- INSERT INTO evidence_units, or the row that is there if it is the same unit
unfoldable pub put_unit : String → UnitRow → Option UnitRow → Method Db Unit
put_unit part_id row none db = (ok tt, record db { units = db.units ++ row ∷ [] })
put_unit part_id row (some old) db =
    if old.unit.source_part_id == part_id && old.unit_sha256 == row.unit_sha256
    then (ok tt, db)
    else (err value_error, db)

-- INSERT INTO evidence_cache, with its primary key
unfoldable pub insert_cache : CacheRow → Method Db Unit
insert_cache row db =
    if is_none (lookup cache_key_of row.cache_digest db.cache)
    then (ok tt, record db { cache = db.cache ++ row ∷ [] })
    else (err integrity_error, db)

abbrev pub processed_row : (now : ℕ) → PartRow → PartRow
processed_row now r = record r {
  state = PartState.processed;
  next_attempt_at = none;
  updated_at = now;
}

-- The writes of a first publication, behind all of its tests
unfoldable pub publish_new :
    Env
    → (part_id : String) → EvidenceUnit
    → (cache_digest : String) → PartRow
    → (now : ℕ) → Method Db Bool
unfolding put_unit insert_cache
publish_new env part_id u cache_digest part now = do
  existing ← gets (find_unit u.evidence_unit_id)
  put_unit part_id (record { unit = u; unit_sha256 = unit_sha256 env u; published_at = now })
      existing
  insert_cache (record {
    cache_digest = cache_digest;
    evidence_unit_id = u.evidence_unit_id;
    unit_sha256 = unit_sha256 env u;
    source_sha256 = part.plan.source_sha256;
    plan_generation = some part.plan_generation;
    claim_generation = some part.claim_generation;
    created_at = now;
  })
  modify (update_part part_id (processed_row now))
  pure true

abbrev pub is_processed : PartState → Bool
is_processed PartState.processed = true
is_processed _ = false

-- The branches behind the tests on the citations
unfoldable pub publish_claimed :
    Env
    → (part_id : String) → EvidenceUnit
    → (cache_digest : String) → (now : ℕ) → PartRow
    → Option (CacheRow × UnitRow)
    → Method Db Bool
unfolding publish_new same_publication
publish_claimed env part_id u cache_digest now part cached =
    if is_processed part.state
    then (if same_publication env part_id u part cached then pure false else raise value_error)
    else if not (is_running part.state)
    then raise value_error
    else if is_none cached
    then publish_new env part_id u cache_digest part now
    else raise value_error

-- publish_evidence: true for a first publication, false for one that is there already.
unfoldable pub publish_evidence :
    Env
    → (part_id : String) → EvidenceUnit
    → (cache_key claim_token : String) → (completed_at : ℕ) → Method Db Bool
unfolding texts_are_safe all_citations is_inside belongs publish_claimed
publish_evidence env part_id u cache_key token now = do
  ensure (texts_are_safe env u) value_error
  ensure (u.source_part_id == part_id) value_error
  ensure (all_citations (belongs part_id u) u.citations) value_error
  transaction (do
    part ← require_part part_id
    current ← gets (part_is_current env.digest part)
    ensure current value_error
    ensure (token == row_token env.digest part) value_error
    ensure (all_citations (is_inside env part) u.citations) value_error
    cached ← gets (find_cached (env.digest cache_key))
    publish_claimed env part_id u (env.digest cache_key) now part cached)

-- The citations of a unit under a new identity, from an index on
renamed : Env → (unit_id part_id : String) → ℕ → List EvidenceCitation → List EvidenceCitation
renamed env unit_id part_id index [] = []
renamed env unit_id part_id index (c ∷ cs) =
    record c {
      citation_id = ◌<>◌ "citation_" (env.digest (◌<>◌ unit_id (String.◌∷◌ nul (decimal index))));
      evidence_unit_id = unit_id;
      source_part_id = part_id;
    }
    ∷ renamed env unit_id part_id (suc index) cs

-- f"unit_{digest(part_id \0 cache_digest)}"
reused_id : Env → (part_id cache_digest : String) → String
reused_id env part_id cache_digest =
    ◌<>◌ "unit_" (env.digest (◌<>◌ part_id (String.◌∷◌ nul cache_digest)))

unfoldable pub reused_unit : Env → (part_id cache_digest : String) → EvidenceUnit → EvidenceUnit
unfolding renamed reused_id
reused_unit env part_id cache_digest original =
    let unit_id = reused_id env part_id cache_digest in
    record original {
      evidence_unit_id = unit_id;
      source_part_id = part_id;
      citations = renamed env unit_id part_id 0 original.citations;
    }

-- INSERT INTO evidence_units, with its primary key
unfoldable pub insert_unit : UnitRow → Method Db Unit
insert_unit row db =
    if is_none (find_unit row.unit.evidence_unit_id db)
    then (ok tt, record db { units = db.units ++ row ∷ [] })
    else (err integrity_error, db)

unfoldable pub store_reused :
    Env → (part_id : String) → EvidenceUnit → (now : ℕ) → Method Db (Option EvidenceUnit)
unfolding insert_unit texts_are_safe
store_reused env part_id u now = do
  ensure (texts_are_safe env u) value_error
  insert_unit (record { unit = u; unit_sha256 = unit_sha256 env u; published_at = now })
  modify (update_part part_id (processed_row now))
  pure (some u)

unfoldable pub reuse :
    Env
    → (part_id cache_digest : String) → PartRow
    → (now : ℕ) → Option (CacheRow × UnitRow)
    → Method Db (Option EvidenceUnit)
unfolding store_reused reused_unit is_inside all_citations
reuse env part_id cache_digest part now none = pure none
reuse env part_id cache_digest part now (some (c, row)) =
    if c.source_sha256 == part.plan.source_sha256
      && all_citations (is_inside env part) row.unit.citations
    then store_reused env part_id (reused_unit env part_id cache_digest row.unit) now
    else pure none

-- reuse_cached_evidence
unfoldable pub reuse_cached_evidence :
    Env
    → (part_id cache_key claim_token : String) → (completed_at : ℕ)
    → Method Db (Option EvidenceUnit)
unfolding reuse
reuse_cached_evidence env part_id cache_key token now = transaction (do
  part ← require_part part_id
  current ← gets (part_is_current env.digest part)
  ensure (current && (is_running part.state && token == row_token env.digest part)) value_error
  cached ← gets (find_cached (env.digest cache_key))
  reuse env part_id (env.digest cache_key) part now cached)

-- cached_evidence
pub cached_evidence : Env → (cache_key : String) → Db → Option EvidenceUnit
cached_evidence env cache_key db = elim (find_cached (env.digest cache_key) db) [
  | none ↦ none
  | some (c, row) ↦ some row.unit
]
