-- ===== src/Runtime/Control/Scenarios.antt =====
-- A sequence of calls of RunControlRegistry.
use exam_sage.Common.{List, [], ◌∷◌, false, ◌≡◌}
use exam_sage.Runtime.Control.Refines.{Call, answers, spec_answers, answers-spec_answers}

abbrev calls : List Call
calls =
    Call.request "a"
    ∷ Call.ask "a"
    ∷ Call.ask "b"
    ∷ Call.clear "a"
    ∷ Call.ask "a"
    ∷ Call.drop "a"
    ∷ []

answers-spec_answers_example : answers calls [] ≡ spec_answers calls (λ id. false)
answers-spec_answers_example = answers-spec_answers calls
