-- ===== src/Scheduler/Laws.antt =====
-- When a slot asks for a task, and that its loop does not turn without a task or a pause.
use minimax_proxy.Scheduler.{
  Slot, Round, Event, Trace, ran, done, waited_for, run_round, run_asked, run_checked, settle_round,
  run_slot,
}
use minimax_proxy.Base.{
  ℕ, ◌+◌, ◌≤◌, suc, Bool, true, false, not, ◌&&◌, ◌||◌, List, [], ◌∷◌, any, arith, coalesce,
  count_where, is_some, length, ◌≡◌, Bool-cases, inl, inr,
}

abbrev pub is_run : Event → Bool
is_run (ran p) = true
is_run _ = false

abbrev pub is_done : Event → Bool
is_done (ran done) = true
is_done _ = false

abbrev pub is_wait : Event → Bool
is_wait waited_for = true
is_wait _ = false

-- A task of the slot's node is under way.
abbrev pub is_active : Slot → Round → Bool
is_active s r = s.has_active && coalesce r.active false

-- The question for an active task failed.
abbrev pub is_unknown : Slot → Round → Bool
is_unknown s r = s.has_active && not (is_some r.active)

-- An iteration asks the processor for a task exactly where the context goes on, the question for an
-- active task did not fail, and a task is under way or the node, where its health is asked, is well.
pub run_round_iff :
    (s : Slot) (r : Round)
    → any is_run (run_round s r).0 ≡ (
        not r.is_over
        && (not (is_unknown s r) && (is_active s r || (not s.has_health || r.is_healthy))))
unfolding run_round run_asked run_checked settle_round
run_round_iff s r = ground arith

-- The iterations in which the loop turns.
abbrev pub paces : Trace → ℕ
paces t = count_where is_done t.0 + count_where is_wait t.0

unfoldable pub all_paces : List Trace → ℕ
all_paces [] = 0
all_paces (t ∷ ts) = paces t + all_paces ts

run_round_pace : (s : Slot) (r : Round) → (run_round s r).1 ≡ true → paces (run_round s r) ≡ 1
unfolding run_round run_asked run_checked settle_round
run_round_pace s r h = ground arith

-- However the context, the checks, the processor and the timer answer, a slot makes at most one iteration
-- more than it has finished tasks and paused: it never turns without either.
pub run_slot-paced :
    (s : Slot) (rounds : List Round)
    → length (run_slot s rounds) ≤ suc (all_paces (run_slot s rounds))
unfolding run_slot all_paces
run_slot-paced s [] = omega arith
run_slot-paced s (r ∷ rounds) = elim (Bool-cases ((run_round s r).1)) [
  | inl e ↦ let k = run_round_pace s r e in rw e (omega (arith, run_slot-paced s rounds))
  | inr e ↦ rw e (omega arith)
]
