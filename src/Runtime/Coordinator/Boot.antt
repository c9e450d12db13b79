-- ===== src/Runtime/Coordinator/Boot.antt =====
-- A new process on a database: start_worker establishes the coordinator's invariant.
use native.Mathlib.Omega.{arith}
use exam_sage.Common.{
  ℕ, ◌≤◌, String, ◌≡◌, refl, sym, ap, ◌∙◌, true, Option, none, some, List, [], ◌∷◌, inl, inr, ◌⊎◌,
  Result, ok, Bool-cases, is_none, length, if_both,
}
use exam_sage.Runtime.Models.{RunStatus}
use exam_sage.Runtime.Store.{Db, is_active, is_busy, active_run}
use exam_sage.Runtime.Store.Recovery.{recover_unfinished}
use exam_sage.Runtime.Store.Recovery.Laws.{
  recover_unfinished_unique, recover_unfinished-busy, recover_unfinished-ids,
}
use exam_sage.Runtime.Store.Laws.{ids_with, HasUniqueIds, select-none}
use exam_sage.Runtime.Coordinator.{
  Coordinator, new, alive, is_alive, start_worker, start_recovered, start_next,
}
use exam_sage.Runtime.Coordinator.Phase.{start_next-Started, has_sentinel, command_ids}
use exam_sage.Runtime.Coordinator.Invariant.{at_rest, paused, Inv}

-- A database that a coordinator left behind: one run at most is active.
pub record IsSound (db : Db) : Type 0 where
  pub unique : HasUniqueIds db
  pub single : length (ids_with is_active db) ≤ 1

active_blind : (s : RunStatus) → is_busy s ≡ true → is_active RunStatus.paused ≡ is_active s
active_blind s h = ground arith

none-is_none : {A : Type 0} (o : Option A) → is_none o ≡ true → o ≡ none
none-is_none none e = refl
none-is_none (some x) e = absurd (cc)

booted : List String → ℕ → Db → Coordinator
booted restored now db = record (new (recover_unfinished now db).1) {
  connected = restored;
  worker = alive;
}

-- A start that went well.
abbrev pub Ready : Result (Unit {0}) × Coordinator → Type 0
Ready y = (y.0 ≡ ok tt) × Inv y.1

module _ (now : ℕ) (c : Coordinator) (u : HasUniqueIds c.db) (busy : ids_with is_busy c.db ≡ [])
    (x : c.executing ≡ none) (n : c.commands ≡ []) (s : c.worker ≡ alive) where
  no_sentinel : has_sentinel c.commands ≡ true → c.shutdown_requested ≡ true
  no_sentinel e = absurd (cc (ap has_sentinel n))

  start_calm : ids_with is_active c.db ≡ [] → Ready (start_next now c)
  start_calm a =
      let (done, t) = start_next-Started now c u a (ap command_ids n) in
      (
        done,
        record {
          unique = t.unique;
          phase = at_rest (t.executing ∙ x) t.settled;
          sentinel = λ e. t.shutdown ∙ no_sentinel (sym t.sentinel ∙ e);
          served = inl (t.worker ∙ s);
        },
      )

  start_recovered-Inv :
      (active : List String)
      → ids_with is_active c.db ≡ active
      → length active ≤ 1
      → Ready (start_recovered now c)
  unfolding start_recovered active_run
  start_recovered-Inv [] a small =
      if_both Ready (is_none (active_run c.db)) _ _ (λ _. start_calm a)
        (λ e. absurd (cc (e, ap is_none ((select-none is_active c.db).1 a))))
  start_recovered-Inv (k ∷ []) a small = elim (Bool-cases (is_none (active_run c.db))) [
    | inl e ↦ absurd (cc (a, (select-none is_active c.db).0 (none-is_none (active_run c.db) e)))
    | inr e ↦ rw e (
      refl,
      record {
        unique = u;
        phase = paused k x a busy (ap command_ids n);
        sentinel = no_sentinel;
        served = inl s;
      },
    )
  ]
  start_recovered-Inv (j ∷ k ∷ ks) a small = absurd (omega arith)

-- A first start succeeds on any sound database, and establishes the invariant.
pub start_worker-Inv :
    (restored : List String) (now : ℕ) (db : Db)
    → IsSound db
    → Ready (start_worker restored now (new db))
unfolding start_worker booted
start_worker-Inv restored now db h =
    let same = recover_unfinished-ids now db is_active active_blind h.unique in
    start_recovered-Inv now (booted restored now db) (recover_unfinished_unique now db h.unique)
      (recover_unfinished-busy now db h.unique) refl refl refl (ids_with is_active db) same h.single

-- A start of a coordinator that has been started changes nothing: it is alive or shut down.
pub restart-Inv :
    (restored : List String) (now : ℕ) (c : Coordinator)
    → Inv c
    → Inv (start_worker restored now c).1
unfolding start_worker
restart-Inv restored now c h = go h.served
  where
    go : (c.worker ≡ alive) ⊎ (c.shutdown_requested ≡ true) → Inv (start_worker restored now c).1
    go (inl on) = simp on h
    go (inr closed) =
        if_both (λ (y : Result (Unit {0}) × Coordinator). Inv y.1) (is_alive c.worker) _ _ (λ _. h)
          (λ _. simp closed h)
