-- ===== src/Runtime/Control/Refines.antt =====
-- The registry of stop events implements a set of run ids.
use exam_sage.Common.{
  String, Bool, true, false, ◌&&◌, ◌||◌, not, Option, none, some, List, [], ◌∷◌, filter,
  if◌then◌else◌, ◌≡◌, refl, ap, ◌∙◌, arith, ◌==◌, eq_iff, eq_refl,
}
use exam_sage.Common.Table.{lookup, update, lookup-update, lookup-append}
use exam_sage.Runtime.Control.{
  StopEvent, Registry, key, or_insert, event, request_stop, clear_stop, flag, is_stop_requested,
  discard,
}

-- The abstract view: the set of the runs that are to stop, as its test.
abbrev pub StopSet : Type 0
StopSet = String → Bool

pub data Call : Type 0 where
  request clear ask drop : String → Call

-- What the calls do to the set, and the answer of `ask`
abbrev pub spec_answer : Call → StopSet → Bool
spec_answer (Call.ask r) set = set r
spec_answer _ set = false

abbrev pub spec_next : Call → StopSet → StopSet
spec_next (Call.request r) set id = r == id || set id
spec_next (Call.clear r) set id = not (r == id) && set id
spec_next (Call.ask r) set id = set id
spec_next (Call.drop r) set id = not (r == id) && set id

-- What they do to the registry
unfoldable pub answer : Call → Registry → Bool
unfolding is_stop_requested
answer (Call.ask r) events = (is_stop_requested r events).0
answer _ events = false

unfoldable pub next : Call → Registry → Registry
unfolding request_stop clear_stop is_stop_requested discard
next (Call.request r) events = request_stop r events
next (Call.clear r) events = clear_stop r events
next (Call.ask r) events = (is_stop_requested r events).1
next (Call.drop r) events = discard r events

-- The answers of a sequence of calls, on each side
unfoldable pub answers : List Call → Registry → List Bool
unfolding answer next
answers [] events = []
answers (c ∷ cs) events = answer c events ∷ answers cs (next c events)

unfoldable pub spec_answers : List Call → StopSet → List Bool
spec_answers [] set = []
spec_answers (c ∷ cs) set = spec_answer c set ∷ spec_answers cs (spec_next c set)

-- The runs whose event is set
pub stopped : Registry → StopSet
unfolding flag lookup
stopped events id = flag (lookup key id events)

or_insert-flag :
    (r : String) (o : Option StopEvent) (events : Registry) (id : String)
    → lookup key r events ≡ o
    → flag (lookup key id (or_insert r o events)) ≡ flag (lookup key id events)
unfolding or_insert flag
or_insert-flag r none events id e =
    ground
      (arith, e, lookup-append key id events (record { run_id = r; is_set = false }), eq_iff r id)
or_insert-flag r (some x) events id e = refl

stopped-event :
    (r : String) (events : Registry) (id : String) → stopped (event r events) id ≡ stopped events id
unfolding stopped event
stopped-event r events id = or_insert-flag r (lookup key r events) events id refl

or_insert-found :
    (r : String) (o : Option StopEvent) (events : Registry)
    → lookup key r events ≡ o
    → (x : StopEvent) × (lookup key r (or_insert r o events) ≡ some x)
unfolding or_insert
or_insert-found r none events e = (
  record { run_id = r; is_set = false },
  rw (lookup-append key r events (record { run_id = r; is_set = false }), e, eq_refl r) refl,
)
or_insert-found r (some x) events e = (x, e)

event-found :
    (r : String) (events : Registry) → (x : StopEvent) × (lookup key r (event r events) ≡ some x)
unfolding event
event-found r events = or_insert-found r (lookup key r events) events refl

-- A write of the flag of a run whose event is there
stopped-set :
    (b : Bool) (r : String) (events : Registry) (id : String) {x : StopEvent}
    → lookup key r events ≡ some x
    → stopped (update key r (λ e. record e { is_set = b }) events) id
      ≡ (if r == id then b else stopped events id)
unfolding stopped flag
stopped-set b r events id {x} found =
    ground (arith, found, lookup-update key r id (λ e. record e { is_set = b }) events (λ e. refl))

stopped-write :
    (b : Bool) (r : String) (events : Registry) (id : String)
    → stopped (update key r (λ e. record e { is_set = b }) (event r events)) id
      ≡ (if r == id then b else stopped events id)
stopped-write b r events id =
    let (x, found) = event-found r events in
    ground (arith, stopped-set b r (event r events) id found, stopped-event r events id)

lookup-others :
    (r id : String) (events : Registry)
    → lookup key id (filter (λ e. not (e.run_id == r)) events)
      ≡ (if r == id then none else lookup key id events)
unfolding lookup
lookup-others r id [] = ground arith
lookup-others r id (e ∷ events) =
    ground (arith, lookup-others r id events, eq_iff e.run_id r, eq_iff e.run_id id, eq_iff r id)

stopped-discard :
    (r : String) (events : Registry) (id : String)
    → stopped (discard r events) id ≡ (not (r == id) && stopped events id)
unfolding stopped discard flag
stopped-discard r events id = ground (arith, lookup-others r id events)

-- Each call does to the set what it does to the registry.
stopped-next :
    (c : Call) (events : Registry) (id : String)
    → stopped (next c events) id ≡ spec_next c (stopped events) id
unfolding next request_stop clear_stop
stopped-next (Call.request r) events id = ground (arith, stopped-write true r events id)
stopped-next (Call.clear r) events id = ground (arith, stopped-write false r events id)
stopped-next (Call.ask r) events id = stopped-event r events id
stopped-next (Call.drop r) events id = stopped-discard r events id

answer-spec : (c : Call) (events : Registry) → answer c events ≡ spec_answer c (stopped events)
unfolding answer stopped
answer-spec (Call.ask r) events = stopped-event r events r
answer-spec (Call.request r) events = refl
answer-spec (Call.clear r) events = refl
answer-spec (Call.drop r) events = refl

spec_next-cong :
    (c : Call) (a b : StopSet)
    → ((id : String) → a id ≡ b id)
    → (id : String) → spec_next c a id ≡ spec_next c b id
spec_next-cong (Call.request r) a b h id = ap (λ t. r == id || t) (h id)
spec_next-cong (Call.clear r) a b h id = ap (λ t. not (r == id) && t) (h id)
spec_next-cong (Call.ask r) a b h id = h id
spec_next-cong (Call.drop r) a b h id = ap (λ t. not (r == id) && t) (h id)

spec_answer-cong :
    (c : Call) (a b : StopSet) → ((id : String) → a id ≡ b id) → spec_answer c a ≡ spec_answer c b
spec_answer-cong (Call.ask r) a b h = h r
spec_answer-cong (Call.request r) a b h = refl
spec_answer-cong (Call.clear r) a b h = refl
spec_answer-cong (Call.drop r) a b h = refl

simulate :
    (cs : List Call) (events : Registry) (set : StopSet)
    → ((id : String) → stopped events id ≡ set id)
    → answers cs events ≡ spec_answers cs set
unfolding answers spec_answers
simulate [] events set h = refl
simulate (c ∷ cs) events set h =
    rw
      (
        answer-spec c events,
        spec_answer-cong c (stopped events) set h,
        simulate cs (next c events) (spec_next c set)
            (λ id. stopped-next c events id ∙ spec_next-cong c (stopped events) set h id),
      )
      refl

-- RunControlRegistry implements a set of run ids: for every sequence of calls, its answers from the
-- empty registry on are those of the set that is empty at first.
pub answers-spec_answers : (cs : List Call) → answers cs [] ≡ spec_answers cs (λ id. false)
unfolding stopped
answers-spec_answers cs = simulate cs [] (λ id. false) (λ id. refl)
