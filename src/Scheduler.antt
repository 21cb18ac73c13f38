-- ===== src/Scheduler.antt =====
-- internal/scheduler/scheduler.go: the loop of one slot. What the context, the slot's functions and the
-- timer answer in one iteration is a parameter of it, `Round`; a run is a finite part of the loop.
pub mod Laws
use minimax_proxy.Base.{
  Bool, true, false, not, ◌&&◌, List, [], ◌∷◌, ◌++◌, Option, none, some, if◌then◌else◌,
}

-- What `ProcessOne` answers: nil, an error of the context, or another error.
pub data Processed : Type 0 where
  done cancelled queue_empty upstream_busy broken : Processed

-- `Slot`: whether its functions `Active` and `Health` are there.
pub record Slot : Type 0 where
  pub has_active : Bool
  pub has_health : Bool

pub record Round : Type 0 where
  pub is_over : Bool  -- `ctx.Err() != nil`
  pub active : Option Bool  -- none where `Active` fails
  pub is_healthy : Bool
  pub processed : Processed
  pub waited : Bool  -- what `wait` returns

-- What an iteration does, in order.
pub data Event : Type 0 where
  asked_active asked_health : Event
  ran : Processed → Event
  waited_for : Event

abbrev pub Trace : Type 0
Trace = List Event × Bool

-- `if !s.wait(ctx) { return }; continue`.
abbrev pub wait_on : Round → List Event → Trace
wait_on r before = (before ++ waited_for ∷ [], r.waited)

-- The end of an iteration: `ProcessOne`, and whether the loop goes on.
unfoldable pub settle_round : Round → Processed → Trace
settle_round r done = (ran done ∷ [], true)
settle_round r cancelled = (ran cancelled ∷ [], false)
settle_round r queue_empty = wait_on r (ran queue_empty ∷ [])
settle_round r upstream_busy = wait_on r (ran upstream_busy ∷ [])
settle_round r broken = wait_on r (ran broken ∷ [])

abbrev pub in_front : Event → Trace → Trace
in_front e (events, goes_on) = (e ∷ events, goes_on)

-- Behind the question for an active task.
unfoldable pub run_checked : Slot → Round → Bool → Trace
run_checked s r has_active =
    if not has_active && s.has_health
    then in_front asked_health (if r.is_healthy then settle_round r r.processed else wait_on r [])
    else settle_round r r.processed

unfoldable pub run_asked : Slot → Round → Option Bool → Trace
run_asked s r none = wait_on r []
run_asked s r (some active) = run_checked s r active

-- One iteration of `runSlot`.
unfoldable pub run_round : Slot → Round → Trace
run_round s r =
    if r.is_over
    then ([], false)
    else if s.has_active
    then in_front asked_active (run_asked s r r.active)
    else run_checked s r false

-- `runSlot`: the iterations that are run, each with its events.
unfoldable pub run_slot : Slot → List Round → List Trace
run_slot s [] = []
run_slot s (r ∷ rounds) =
    let later = run_slot s rounds in run_round s r ∷ (if (run_round s r).1 then later else [])
