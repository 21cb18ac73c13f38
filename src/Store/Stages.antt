-- ===== src/Store/Stages.antt =====
-- stage_store.go: the stages of a task that runs on an h3-node-v1 node, and the attempts at them.
pub mod Complete
pub mod Attempts
pub mod Laws
pub mod Bounds
use minimax_proxy.Domain.Status.{InternalStatus, dispatching, admin_can_cancel}
use minimax_proxy.Store.Tables.{
  Task, TaskStage, StageAttempt, StageStatus, AttemptStatus, ModelNode, DispatchSnapshot,
}
use minimax_proxy.Store.Db.{
  Db, Env, Error, M, immediate, commits, no_rows, constraint, state_conflict, attempt_conflict,
  now_unix, one_row, update_tasks,
}
use minimax_proxy.Base.{
  ◌>>=◌, ◌>>◌, Bool, List, Option, Result, String, any, coalesce, count_where, err, false,
  first_where, get, if◌then◌else◌, is_some, is_value, least_where, ltb, none, not, null_empty, ok,
  some, true, update_where, ℕ, ◌&&◌, ◌+◌, ◌==◌, string_eq, nat_eq,
}
use minimax_proxy.Store.Barriers.{is_open_attempt}
use minimax_proxy.Store.Callbacks.{create_callback_delivery_with_conn}

abbrev pub update_stages : (TaskStage → Bool) → (TaskStage → TaskStage) → M ℕ
update_stages p f db =
    (record db { stages = update_where p f db.stages }, ok (count_where p db.stages))

abbrev pub update_attempts : (StageAttempt → Bool) → (StageAttempt → StageAttempt) → M ℕ
update_attempts p f db =
    (record db { attempts = update_where p f db.attempts }, ok (count_where p db.attempts))

abbrev pub found_stage : Db → Option TaskStage → Db × Result Error TaskStage
found_stage db none = (db, err no_rows)
found_stage db (some s) = (db, ok s)

abbrev pub read_stage : String → M TaskStage
read_stage stage_id db = found_stage db (first_where (λ s. s.id == stage_id) db.stages)

abbrev pub is_leased : StageStatus → Bool
is_leased StageStatus.leased = true
is_leased _ = false

-- `status IN ('leased','dispatching','running','validating')`.
abbrev pub is_renewable : StageStatus → Bool
is_renewable StageStatus.leased = true
is_renewable StageStatus.dispatching = true
is_renewable StageStatus.running = true
is_renewable StageStatus.validating = true
is_renewable _ = false

-- `status IN ('running','validating','dispatching')`.
abbrev pub is_completable : StageStatus → Bool
is_completable StageStatus.running = true
is_completable StageStatus.validating = true
is_completable StageStatus.dispatching = true
is_completable _ = false

-- `status IN ('running','validating','unknown')`.
abbrev pub is_bound : AttemptStatus → Bool
is_bound AttemptStatus.running = true
is_bound AttemptStatus.validating = true
is_bound AttemptStatus.unknown = true
is_bound _ = false

abbrev pub is_after : ℕ → Option ℕ → Bool
is_after now none = false
is_after now (some at) = ltb now at

-- `id=? AND lease_token=?` with a test of the status.
abbrev pub leased_by : String → String → (StageStatus → Bool) → TaskStage → Bool
leased_by stage_id lease_token statuses s =
    s.id == stage_id && (is_value s.lease_token lease_token && statuses s.status)

abbrev pub is_attempt : String → String → (AttemptStatus → Bool) → StageAttempt → Bool
is_attempt attempt_id stage_id statuses a =
    a.id == attempt_id && (a.stage_id == stage_id && statuses a.status)

-- `lease_duration` in milliseconds.
unfoldable pub renew_stage_lease : Env → String → String → ℕ → M (Unit {0})
renew_stage_lease env stage_id lease_token lease_duration = do
  rows ←
      update_stages
        (λ s.
          leased_by stage_id lease_token is_renewable s
          && is_after env.now_millis s.lease_expires_at)
        λ s. record s {
          lease_expires_at = some (env.now_millis + lease_duration);
          updated_at = env.now_millis;
          row_version = s.row_version + 1;
        }
  one_row rows

-- An unbound attempt, or one that is bound to this execution.
abbrev pub may_bind : String → StageAttempt → Bool
may_bind execution_id a = elim a.execution_id [ none ↦ true | some e ↦ e == execution_id ]

-- Another attempt on the node has the execution: the index uq_stage_attempt_execution.
abbrev pub execution_taken : String → String → StageAttempt → List StageAttempt → Bool
execution_taken attempt_id execution_id a attempts =
    any
      (λ b.
        not (b.id == attempt_id)
        && (b.node_id == a.node_id && is_value b.execution_id execution_id))
      attempts

abbrev pub binds : String → String → String → StageAttempt → Bool
binds stage_id attempt_id execution_id a =
    is_attempt attempt_id stage_id is_open_attempt a && may_bind execution_id a

abbrev pub bound_row : Env → String → StageAttempt → StageAttempt
bound_row env execution_id a = record a {
  execution_id = some execution_id;
  status = AttemptStatus.running;
  heartbeat_at = some env.now_millis;
}

unfoldable pub bind_attempt : Env → String → String → String → M ℕ
bind_attempt env stage_id attempt_id execution_id db =
    if any
      (λ a.
        binds stage_id attempt_id execution_id a
        && execution_taken attempt_id execution_id a db.attempts)
      db.attempts
    then (db, err constraint)
    else update_attempts (binds stage_id attempt_id execution_id) (bound_row env execution_id) db

-- The node of an attempt, as the join with its stage reads it.
abbrev pub found_node : Db → String → Option StageAttempt → Db × Result Error (String × String)
found_node db task_id none = (db, err no_rows)
found_node db task_id (some a) = (db, ok (task_id, a.node_id))

abbrev pub read_owner : String → String → M (String × String)
read_owner stage_id attempt_id = do
  s ← read_stage stage_id
  λ db.
      found_node db s.task_id
        (first_where (λ a. a.id == attempt_id && a.stage_id == stage_id) db.attempts)

unfoldable pub bind_task : Env → String → String × String → M (Unit {0})
bind_task env stage_id (task_id, node_id) =
    let now = now_unix env in
    do
      rows ←
          update_tasks
            (λ t. t.task_id == task_id && (not (is_some t.deleted_at) && admin_can_cancel t.status))
            λ t. record t {
              status = InternalStatus.running;
              upstream_id = some node_id;
              active_stage_id = some stage_id;
              started_at = some (coalesce t.started_at now);
              updated_at = now;
              version = t.version + 1;
            }
      one_row rows
      create_callback_delivery_with_conn env task_id "running" env.now_millis

abbrev pub bound_stage : Env → TaskStage → TaskStage
bound_stage env s = record s {
  status = StageStatus.running;
  updated_at = env.now_millis;
  started_at = some (coalesce s.started_at env.now_millis);
  row_version = s.row_version + 1;
}

-- The statements of `BindStageExecution` behind the update of the attempt.
unfoldable pub bind_stage : Env → String → String → String → M (Unit {0})
bind_stage env stage_id lease_token attempt_id = do
  rows ← update_stages (leased_by stage_id lease_token is_leased) (bound_stage env)
  one_row rows
  owner ← read_owner stage_id attempt_id
  bind_task env stage_id owner

unfoldable pub bind_stage_execution : Env → String → String → String → String → M (Unit {0})
bind_stage_execution env stage_id lease_token attempt_id execution_id = commits do
  rows ← bind_attempt env stage_id attempt_id execution_id
  one_row rows
  bind_stage env stage_id lease_token attempt_id
