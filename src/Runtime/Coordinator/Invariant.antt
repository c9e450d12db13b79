-- ===== src/Runtime/Coordinator/Invariant.antt =====
-- The invariant of the coordinator, and what follows from it without looking at a method.
use native.Mathlib.Omega.{arith}
use mathlib.Core.Option.{some-injective}
use exam_sage.Common.{String, ◌≡◌, sym, ap, ◌∙◌, true, false, none, some, [], ◌∷◌, ◌⊎◌}
use exam_sage.Common.Table.Keys.{keys_of-lookup_nil, keys_of-lookup_one, keys_of_one}
use exam_sage.Runtime.Models.{RunStatus, RunSnapshot}
use exam_sage.Runtime.Store.{Db, run_key, is_active, is_busy, is_queued}
use exam_sage.Runtime.Store.Laws.{ids_with, find_row, HasUniqueIds}
use exam_sage.Runtime.Coordinator.{Coordinator, Execution, alive, is_paused}
use exam_sage.Runtime.Coordinator.Phase.{Settled, idle, started, command_ids, has_sentinel}

-- The one active run, if there is one: waiting in the queue, with the worker, or paused.
pub data Phase (c : Coordinator) : Type 0 where
  at_rest : c.executing ≡ none → Settled c.db c.commands c.shutdown_requested → Phase c
  paused :
      (k : String)
      → c.executing ≡ none
      → ids_with is_active c.db ≡ k ∷ []
      → ids_with is_busy c.db ≡ []
      → command_ids c.commands ≡ []
      → Phase c
  working :
      (e : Execution)
      → c.executing ≡ some e
      → ids_with is_active c.db ≡ e.command.run_id ∷ []
      → ids_with is_busy c.db ≡ e.command.run_id ∷ []
      → command_ids c.commands ≡ []
      → Phase c

pub record Inv (c : Coordinator) : Type 0 where
  pub unique : HasUniqueIds c.db
  pub phase : Phase c
  pub sentinel : has_sentinel c.commands ≡ true → c.shutdown_requested ≡ true
  pub served : (c.worker ≡ alive) ⊎ (c.shutdown_requested ≡ true)

-- Two states that agree in what the invariant reads of the queue and the worker.
pub record SameQueue (c c' : Coordinator) : Type 0 where
  pub commands : c'.commands ≡ c.commands
  pub executing : c'.executing ≡ c.executing
  pub worker : c'.worker ≡ c.worker
  pub shutdown : c'.shutdown_requested ≡ c.shutdown_requested

module _ {c c' : Coordinator} (q : SameQueue c c')
    (active : ids_with is_active c'.db ≡ ids_with is_active c.db)
    (busy : ids_with is_busy c'.db ≡ ids_with is_busy c.db)
    (queued : ids_with is_active c.db ≡ []
      → ids_with is_queued c'.db ≡ ids_with is_queued c.db) where
  Settled-same :
      Settled c.db c.commands c.shutdown_requested → Settled c'.db c'.commands c'.shutdown_requested
  Settled-same (idle a n w) =
      idle (active ∙ a) (rw q.commands n) (λ e. queued a ∙ w (sym q.shutdown ∙ e))
  Settled-same (started k a b n) = started k (active ∙ a) (busy ∙ b) (rw q.commands n)

  Phase-same : Phase c → Phase c'
  Phase-same (at_rest x s) = at_rest (q.executing ∙ x) (Settled-same s)
  Phase-same (paused k x a b n) =
      paused k (q.executing ∙ x) (active ∙ a) (busy ∙ b) (rw q.commands n)
  Phase-same (working e x a b n) =
      working e (q.executing ∙ x) (active ∙ a) (busy ∙ b) (rw q.commands n)

  -- A write that leaves the active and the busy runs.
  pub Inv-same : Inv c → HasUniqueIds c'.db → Inv c'
  Inv-same h u = record {
    unique = u;
    phase = Phase-same h.phase;
    sentinel = λ e. q.shutdown ∙ h.sentinel (ap has_sentinel (sym q.commands) ∙ e);
    served = rw (q.worker, q.shutdown) h.served;
  }

-- With no active run the worker has nothing, and nothing waits for it.
pub Phase-calm :
    {c : Coordinator}
    → Phase c
    → ids_with is_active c.db ≡ []
    → (c.executing ≡ none) × (command_ids c.commands ≡ [])
Phase-calm (at_rest x (idle a n w)) calm = (x, n)
Phase-calm (at_rest x (started k a b n)) calm = absurd (cc)
Phase-calm (paused k x a b n) calm = absurd (cc)
Phase-calm (working e x a b n) calm = absurd (cc)

paused_is_active : (s : RunStatus) → is_paused s ≡ true → is_active s ≡ true
paused_is_active s h = ground arith

not_busy : (s : RunStatus) → is_paused s ≡ true → is_busy s ≡ true → ⊥
not_busy s h b = ground arith

module _ (db : Db) (k : String) {r : RunSnapshot} (found : find_row k db ≡ some r)
    (p : is_paused r.status ≡ true) (u : HasUniqueIds db) where
  pub paused-ne-nil : ids_with is_active db ≡ [] → ⊥
  paused-ne-nil a =
      let out : is_active r.status ≡ false =
        keys_of-lookup_nil run_key (λ x. is_active x.status) k db.runs found a in
      cc (out, paused_is_active r.status p)

  pub paused-eq : (j : String) → ids_with is_active db ≡ j ∷ [] → k ≡ j
  paused-eq j a =
      keys_of-lookup_one run_key (λ x. is_active x.status) k j db.runs found a
        (paused_is_active r.status p)

  pub paused-ne-busy :
      (j : String) → ids_with is_active db ≡ j ∷ [] → ids_with is_busy db ≡ j ∷ [] → ⊥
  paused-ne-busy j a b =
      let (x, at, busy) = keys_of_one run_key (λ y. is_busy y.status) j db.runs u b in
      let same : some r ≡ some x = sym found ∙ (rw (paused-eq j a) at) in
      not_busy r.status p (rw (some-injective r x same) busy)

-- Where a run can be resumed, it is the paused run, and nothing else is under way.
pub resumable :
    {c : Coordinator}
    → Inv c
    → (k : String) {r : RunSnapshot} → find_row k c.db ≡ some r
    → is_paused r.status ≡ true
    → (c.executing ≡ none)
      × (ids_with is_active c.db ≡ k ∷ [])
      × (ids_with is_busy c.db ≡ [])
      × (command_ids c.commands ≡ [])
resumable {c} h k {r} found p = go h.phase
  where
    go :
        Phase c
        → (c.executing ≡ none)
          × (ids_with is_active c.db ≡ k ∷ [])
          × (ids_with is_busy c.db ≡ [])
          × (command_ids c.commands ≡ [])
    go (at_rest x (idle a n w)) = absurd (paused-ne-nil c.db k found p h.unique a)
    go (at_rest x (started j a b n)) = absurd (paused-ne-busy c.db k found p h.unique j a b)
    go (paused j x a b n) = (x, rw (paused-eq c.db k found p h.unique j a) a, b, n)
    go (working e x a b n) = absurd (paused-ne-busy c.db k found p h.unique e.command.run_id a b)
