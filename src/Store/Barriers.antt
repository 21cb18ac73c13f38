-- ===== src/Store/Barriers.antt =====
-- dispatch_barrier.go: a node on which an execution may still run takes no further stage.
pub mod Open
pub mod Laws
use Prim.Native.String.{◌++◌ as str_append}
use minimax_proxy.Store.Tables.{TaskStage, StageAttempt, AttemptStatus, DispatchBarrier}
use minimax_proxy.Store.Db.{Db, Env, M, constraint, barrier_conflict}
use minimax_proxy.Base.{
  Bool, List, Option, String, [], any, coalesce, count_where, delete_where, err, false, first_where,
  guard, if◌then◌else◌, is_some, least_where, ltb, none, not, null_empty, ok, some, true,
  update_where, ℕ, ◌&&◌, ◌++◌, ◌+◌, ◌==◌, ◌||◌, ◌∷◌, string_eq, nat_eq,
}

-- `status IN ('dispatching','running','validating','unknown')`.
abbrev pub is_open_attempt : AttemptStatus → Bool
is_open_attempt AttemptStatus.dispatching = true
is_open_attempt AttemptStatus.running = true
is_open_attempt AttemptStatus.validating = true
is_open_attempt AttemptStatus.unknown = true
is_open_attempt _ = false

abbrev pub OpenAttempt : Type 0
OpenAttempt = TaskStage × StageAttempt

abbrev pub with_stage :
    String → Option TaskStage → StageAttempt → List OpenAttempt → List OpenAttempt
with_stage task_id none a rest = rest
with_stage task_id (some s) a rest =
    if s.task_id == task_id && is_open_attempt a.status then (s, a) ∷ rest else rest

-- The join of the task's stages with their open attempts.
abbrev pub open_attempts : String → List TaskStage → List StageAttempt → List OpenAttempt
open_attempts task_id stages [] = []
open_attempts task_id stages (a ∷ attempts) =
    with_stage task_id (first_where (λ s. s.id == a.stage_id) stages) a
      (open_attempts task_id stages attempts)

-- ORDER BY s.stage_order DESC,a.attempt_no DESC.
abbrev pub later : OpenAttempt → OpenAttempt → Bool
later (s, a) (t, b) =
    ltb t.stage_order s.stage_order
    || (s.stage_order == t.stage_order && ltb b.attempt_no a.attempt_no)

abbrev pub barrier_of : OpenAttempt → ℕ → DispatchBarrier
barrier_of (s, a) now = record {
  node_id = a.node_id;
  task_id = s.task_id;
  stage_id = s.id;
  attempt_id = a.id;
  operation_id = a.operation_id;
  execution_id = null_empty (coalesce a.execution_id "");
  cancel_operation_id = str_append "stage-cancel-" a.id;
  last_error_code = none;
  retry_count = 0;
  next_retry_at = 0;
  created_at = now;
  updated_at = now;
  row_version = 1;
}

-- One barrier for a node, one for a cancel operation.
abbrev pub breaks_barrier : DispatchBarrier → Db → Bool
breaks_barrier b db =
    any (λ c. c.node_id == b.node_id || c.cancel_operation_id == b.cancel_operation_id) db.barriers
    || b.operation_id == ""

unfoldable pub insert_barrier : DispatchBarrier → M Bool
insert_barrier b db =
    if breaks_barrier b db
    then (db, err constraint)
    else (record db { barriers = db.barriers ++ b ∷ [] }, ok true)

abbrev pub barrier_for : Option OpenAttempt → ℕ → M Bool
barrier_for none now db = (db, ok false)
barrier_for (some e) now db = insert_barrier (barrier_of e now) db

unfoldable pub create_node_dispatch_barrier_for_task : String → ℕ → M Bool
create_node_dispatch_barrier_for_task task_id now db =
    barrier_for (least_where later (λ e. true) (open_attempts task_id db.stages db.attempts)) now db

unfoldable pub has_node_dispatch_barrier : String → Db → Bool
has_node_dispatch_barrier node_id db = ltb 0 (count_where (λ b. b.node_id == node_id) db.barriers)

abbrev pub is_barrier : String → ℕ → DispatchBarrier → Bool
is_barrier node_id row_version b = b.node_id == node_id && b.row_version == row_version

-- `barrierOneRow`.
abbrev pub barrier_one_row : ℕ → M (Unit {0})
barrier_one_row n = guard (n == 1) barrier_conflict

abbrev pub update_barriers :
    (DispatchBarrier → Bool) → (DispatchBarrier → DispatchBarrier) → M (Unit {0})
update_barriers p f db =
    barrier_one_row (count_where p db.barriers)
      (record db { barriers = update_where p f db.barriers })

unfoldable pub bind_barrier_execution : Env → String → ℕ → String → M (Unit {0})
bind_barrier_execution env node_id row_version execution_id =
    update_barriers (λ b. is_barrier node_id row_version b && not (is_some b.execution_id))
      λ b. record b {
        execution_id = some execution_id;
        last_error_code = none;
        next_retry_at = 0;
        updated_at = env.now_millis;
        row_version = b.row_version + 1;
      }

unfoldable pub defer_node_dispatch_barrier : Env → String → ℕ → String → ℕ → M (Unit {0})
defer_node_dispatch_barrier env node_id row_version error_code retry_at =
    update_barriers (is_barrier node_id row_version) λ b. record b {
      last_error_code = null_empty error_code;
      retry_count = b.retry_count + 1;
      next_retry_at = retry_at;
      updated_at = env.now_millis;
      row_version = b.row_version + 1;
    }

unfoldable pub resolve_node_dispatch_barrier : String → ℕ → M (Unit {0})
resolve_node_dispatch_barrier node_id row_version db =
    barrier_one_row (count_where (is_barrier node_id row_version) db.barriers)
      (record db { barriers = delete_where (is_barrier node_id row_version) db.barriers })
