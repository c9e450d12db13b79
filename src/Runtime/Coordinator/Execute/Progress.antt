-- ===== src/Runtime/Coordinator/Execute/Progress.antt =====
-- A run that waits for the worker is taken by it.
use exam_sage.Common.{
  ℕ, String, ◌≡◌, refl, sym, ◌∙◌, Bool, true, false, Option, none, some, List, [], ◌∷◌, inl, inr,
  ◌⊎◌, if◌then◌else◌,
}
use exam_sage.Runtime.Store.{is_busy}
use exam_sage.Runtime.Store.Laws.{ids_with, busy_nil}
use exam_sage.Runtime.Coordinator.{Coordinator, Command, Execution, alive, is_alive}
use exam_sage.Runtime.Coordinator.Execute.{Checkpoint, begin, handle, take_command}
use exam_sage.Runtime.Coordinator.Execute.Keeps.{head_command, get_run-found}
use exam_sage.Runtime.Coordinator.Phase.{idle, started, command_ids, has_sentinel}
use exam_sage.Runtime.Coordinator.Invariant.{Phase, at_rest, paused, working, Inv}

-- The id of the run that the worker executes, if it executes one.
abbrev pub executing_ids : Option Execution → List String
executing_ids none = []
executing_ids (some e) = e.command.run_id ∷ []

module _ (now : ℕ) (checkpoint : Option Checkpoint) (c : Coordinator) (h : Inv c)
    (x : c.executing ≡ none) (k : String) where
  handle_takes :
      (cs : List (Option Command))
      → c.commands ≡ cs
      → has_sentinel cs ≡ false
      → command_ids cs ≡ k ∷ []
      → executing_ids (handle cs now checkpoint c).executing ≡ k ∷ []
  unfolding handle begin
  handle_takes [] e s n = absurd (cc)
  handle_takes (none ∷ rest) e s n = absurd (cc)
  handle_takes (some command ∷ rest) e s n =
      let (r, found, a, b, m) = head_command c command rest e x h in
      rw (get_run-found command.run_id c.db found) (cc (n, m))

  waiting : Phase c → ids_with is_busy c.db ≡ k ∷ [] → command_ids c.commands ≡ k ∷ []
  waiting (at_rest y (idle a n w)) b = absurd (cc (busy_nil c.db a))
  waiting (at_rest y (started j a b' n)) b = n ∙ sym b' ∙ b
  waiting (paused j y a b' n) b = absurd (cc)
  waiting (working e y a b' n) b = absurd (cc)

  take_command_handles :
      c.worker ≡ alive → take_command now checkpoint c ≡ handle c.commands now checkpoint c
  unfolding take_command
  take_command_handles on = go c.executing x
    where
      go :
          (y : Option Execution)
          → y ≡ none
          → (elim y [
            | none ↦ if is_alive c.worker then handle c.commands now checkpoint c else c
            | some e ↦ c
          ])
            ≡ handle c.commands now checkpoint c
      go none e = simp on
      go (some f) e = absurd (cc)

  no_sentinel : c.shutdown_requested ≡ false → (s : Bool) → has_sentinel c.commands ≡ s → s ≡ false
  no_sentinel open_ true e = absurd (cc (h.sentinel e))
  no_sentinel open_ false e = refl

  pub take_command_takes :
      c.shutdown_requested ≡ false
      → ids_with is_busy c.db ≡ k ∷ []
      → executing_ids (take_command now checkpoint c).executing ≡ k ∷ []
  take_command_takes open_ b = go h.served
    where
      go :
          (c.worker ≡ alive) ⊎ (c.shutdown_requested ≡ true)
          → executing_ids (take_command now checkpoint c).executing ≡ k ∷ []
      go (inr closed) = absurd (cc)
      go (inl on) = rw (take_command_handles on) (
          handle_takes c.commands refl (no_sentinel open_ (has_sentinel c.commands) refl)
            (waiting h.phase b))
