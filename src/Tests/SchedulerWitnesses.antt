-- ===== src/Tests/SchedulerWitnesses.antt =====
-- The theorems on a slot at a concrete one.
use minimax_proxy.Scheduler.{Slot, Round, Processed, done, run_round, run_slot}
use minimax_proxy.Scheduler.Laws.{
  all_paces, is_active, is_run, is_unknown, run_round_iff, run_slot-paced,
}
use minimax_proxy.Base.{
  true, false, not, ◌&&◌, ◌||◌, List, [], ◌∷◌, some, none, any, length, suc, ◌≡◌, ◌≤◌,
}

abbrev slot : Slot
slot = record { has_active = true; has_health = true }

-- The node is not well, but has a task under way.
abbrev busy : Round
busy = record {
  is_over = false;
  active = some true;
  is_healthy = false;
  processed = done;
  waited = true;
}

-- A task ends, the check fails, the queue is empty, and the context ends.
abbrev rounds : List Round
rounds =
    busy
    ∷ record busy { active = none }
    ∷ record busy { is_healthy = true; processed = Processed.queue_empty }
    ∷ record busy { is_over = true }
    ∷ []

run_round_iff_example : any is_run (run_round slot busy).0 ≡ (
    not busy.is_over
    && (not (is_unknown slot busy)
        && (is_active slot busy || (not slot.has_health || busy.is_healthy))))
run_round_iff_example = run_round_iff slot busy

run_slot-paced_example : length (run_slot slot rounds) ≤ suc (all_paces (run_slot slot rounds))
run_slot-paced_example = run_slot-paced slot rounds
