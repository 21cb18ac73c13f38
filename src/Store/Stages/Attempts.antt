-- ===== src/Store/Stages/Attempts.antt =====
-- stage_store.go: how an attempt at a stage starts and how it fails.
use minimax_proxy.Domain.Status.{InternalStatus, dispatching, admin_can_cancel, protocol_h3}
use minimax_proxy.Store.Tables.{
  Task, TaskStage, StageAttempt, StageStatus, AttemptStatus, ModelNode, DispatchSnapshot,
}
use minimax_proxy.Store.Db.{
  Db, Env, Error, M, immediate, no_rows, constraint, state_conflict, attempt_conflict, now_unix,
  one_row, update_tasks,
}
use minimax_proxy.Base.{
  ◌>>=◌, ◌>>◌, Bool, List, Option, Result, String, [], any, coalesce, err, false, first_where,
  guard, if◌then◌else◌, is_value, leb, ltb, none, not, null_empty, null_zero, ok, return, some,
  true, ℕ, ◌&&◌, ◌++◌, ◌+◌, ◌/◌, ◌==◌, ◌||◌, ◌∷◌, string_eq, nat_eq,
}
use minimax_proxy.Store.Callbacks.{create_callback_delivery_with_conn}
use minimax_proxy.Store.Eligible.{find_node, task_eligible_for_node}
use minimax_proxy.Store.Queue.{rebalance}
use minimax_proxy.Store.Stages.{is_leased, read_stage, update_attempts, update_stages}
use minimax_proxy.Store.Stages.Complete.{between_row, is_live_task}

-- The argument of `CreateStageAttempt`. An empty text and a zero stand for no value.
pub record NewAttempt : Type 0 where
  pub id : String
  pub stage_id : String
  pub attempt_no : ℕ
  pub operation_id : String
  pub node_id : String
  pub lease_token : String
  pub execution_id : String
  pub status : AttemptStatus
  pub input_artifact_id : String
  pub output_artifact_id : String
  pub request_snapshot_json : String
  pub error_code : String
  pub error_message : String
  pub started_at : ℕ
  pub heartbeat_at : ℕ
  pub finished_at : ℕ

abbrev pub start_of : Env → NewAttempt → ℕ
start_of env n = if n.started_at == 0 then env.now_millis else n.started_at

abbrev pub attempt_row : Env → NewAttempt → StageAttempt
attempt_row env n = record {
  id = n.id;
  stage_id = n.stage_id;
  attempt_no = n.attempt_no;
  operation_id = n.operation_id;
  node_id = n.node_id;
  execution_id = null_empty n.execution_id;
  status = n.status;
  input_artifact_id = null_empty n.input_artifact_id;
  output_artifact_id = null_empty n.output_artifact_id;
  request_snapshot_json = null_empty n.request_snapshot_json;
  error_code = null_empty n.error_code;
  error_message = null_empty n.error_message;
  started_at = start_of env n;
  heartbeat_at = null_zero n.heartbeat_at;
  finished_at = null_zero n.finished_at;
}

abbrev pub same_execution : Option String → StageAttempt → StageAttempt → Bool
same_execution none a b = false
same_execution (some e) a b = b.node_id == a.node_id && is_value b.execution_id e

-- The keys of stage_attempts.
abbrev pub breaks_attempt : StageAttempt → List StageAttempt → Bool
breaks_attempt a attempts =
    any
      (λ b.
        b.id == a.id
        || ((b.stage_id == a.stage_id && b.attempt_no == a.attempt_no)
            || (b.operation_id == a.operation_id || same_execution a.execution_id a b)))
      attempts

unfoldable pub insert_attempt : StageAttempt → M (Unit {0})
insert_attempt a db =
    if breaks_attempt a db.attempts
    then (db, err constraint)
    else (record db { attempts = db.attempts ++ a ∷ [] }, ok tt)

abbrev pub found_parent : Db → TaskStage → Option Task → Db × Result Error (TaskStage × Task)
found_parent db s none = (db, err no_rows)
found_parent db s (some t) = (db, ok (s, t))

-- The join of a stage with its task, which is not deleted.
abbrev pub read_parent : String → M (TaskStage × Task)
read_parent stage_id = do
  s ← read_stage stage_id
  λ db. found_parent db s (first_where (is_live_task s.task_id) db.tasks)

-- The caller's lease on the stage, which is still running.
abbrev pub holds_lease : Env → NewAttempt → TaskStage → Task → Bool
holds_lease env n s t =
    is_leased s.status
    && (not (n.lease_token == "")
        && (n.lease_token == coalesce s.lease_token ""
            && (n.node_id == coalesce s.current_node_id ""
                && (admin_can_cancel t.status
                    && ltb env.now_millis (coalesce s.lease_expires_at 0)))))

-- `json_object('schema_version',1,'node_id',id,…)`.
abbrev pub snapshot_of : ModelNode → Task → DispatchSnapshot
snapshot_of n t = record {
  node_id = n.id;
  node_version = n.version;
  protocol_version = coalesce n.protocol_version "";
  service_url = n.service_url;
  upstream_model = t.model;
}

abbrev pub attempt_task_row : Env → NewAttempt → ModelNode → Task → Task
attempt_task_row env a n t = record t {
  status = dispatching;
  cancel_locked = true;
  upstream_id = some a.node_id;
  active_stage_id = some a.stage_id;
  attempt_started_at = some (start_of env a / 1000);
  started_at = some (coalesce t.started_at (start_of env a / 1000));
  upstream_node_version = n.version;
  dispatch_snapshot = some (snapshot_of n t);
  updated_at = now_unix env;
  version = t.version + 1;
}

-- upstream_node_version is NOT NULL, so without its node no row can be written.
abbrev pub start_task : Env → NewAttempt → String → Option ModelNode → M ℕ
start_task env a task_id none db =
    if any
      (λ t.
        is_live_task task_id t
        && (t.route_state == "ready" && is_value t.protocol_version protocol_h3))
      db.tasks
    then (db, err constraint)
    else (db, ok 0)
start_task env a task_id (some n) db =
    update_tasks
      (λ t.
        is_live_task task_id t
        && (t.route_state == "ready" && is_value t.protocol_version protocol_h3))
      (attempt_task_row env a n) db

-- The statements that write, once every check is passed.
unfoldable pub record_attempt : Env → NewAttempt → TaskStage → Task → M (Unit {0})
record_attempt env a s t = do
  insert_attempt (attempt_row env a)
  rows ←
      update_stages (λ x. x.id == a.stage_id && x.attempt_count == s.attempt_count)
        λ x. record x {
          attempt_count = x.attempt_count + 1;
          updated_at = start_of env a;
          row_version = x.row_version + 1;
        }
  one_row rows
  started ← λ db. start_task env a t.task_id (find_node db a.node_id) db
  one_row started
  rebalance env

unfoldable pub admit_attempt : Env → NewAttempt → TaskStage × Task → M (Unit {0})
admit_attempt env a (s, t) = do
  guard (holds_lease env a s t) state_conflict
  guard (coalesce t.protocol_version "" == protocol_h3) state_conflict
  eligible ← λ db. (db, task_eligible_for_node db t a.node_id (now_unix env))
  guard eligible state_conflict
  guard (a.attempt_no == s.attempt_count + 1 && leb a.attempt_no s.max_attempts) attempt_conflict
  record_attempt env a s t

unfoldable pub create_stage_attempt : Env → NewAttempt → M (Unit {0})
create_stage_attempt env a = immediate (read_parent a.stage_id >>= admit_attempt env a)

-- The end of the stage that fails: for good, or until the time of the next attempt.
abbrev pub fail_stage_row : Env → String → String → ℕ → Bool → TaskStage → TaskStage
fail_stage_row env code message retry_at terminal s = record s {
  status = if terminal then StageStatus.failed else StageStatus.pending;
  error_code = some code;
  error_message = some message;
  next_attempt_at = if terminal then none else some retry_at;
  lease_token = none;
  lease_expires_at = none;
  updated_at = env.now_millis;
  finished_at = if terminal then some env.now_millis else none;
  row_version = s.row_version + 1;
}

abbrev pub fail_task_row : Env → String → String → Task → Task
fail_task_row env code message t = record t {
  status = InternalStatus.failed;
  error_code = some code;
  error_message = some message;
  active_stage_id = none;
  finished_at = some (now_unix env);
  updated_at = now_unix env;
  version = t.version + 1;
}

unfoldable pub fail_task : Env → String → String → String → Bool → M (Unit {0})
fail_task env task_id code message true = do
  rows ← update_tasks (is_live_task task_id) (fail_task_row env code message)
  create_callback_delivery_with_conn env task_id "failed" env.now_millis
fail_task env task_id code message false = do
  rows ← update_tasks (is_live_task task_id) (between_row env)
  return tt

unfoldable pub fail_stage :
    Env → String → String → String → String → String → ℕ → Bool → M (Unit {0})
fail_stage env stage_id lease_token attempt_id code message retry_at terminal = immediate do
  attempts ←
      update_attempts (λ a. a.id == attempt_id && a.stage_id == stage_id)
        λ a. record a {
          status = AttemptStatus.failed;
          error_code = some code;
          error_message = some message;
          heartbeat_at = some env.now_millis;
          finished_at = some env.now_millis;
        }
  rows ←
      update_stages (λ s. s.id == stage_id && is_value s.lease_token lease_token)
        (fail_stage_row env code message retry_at terminal)
  one_row rows
  stage ← read_stage stage_id
  fail_task env stage.task_id code message terminal
