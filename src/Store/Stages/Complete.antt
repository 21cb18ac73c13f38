-- ===== src/Store/Stages/Complete.antt =====
-- stage_store.go: how a stage ends well, and what comes of its task.
use minimax_proxy.Domain.Status.{InternalStatus}
use minimax_proxy.Store.Tables.{Task, TaskStage, StageStatus, AttemptStatus}
use minimax_proxy.Store.Db.{Db, Env, M, immediate, now_unix, one_row, update_tasks}
use minimax_proxy.Base.{
  ◌>>=◌, ◌>>◌, ok, none, some, true, false, Bool, List, Option, String, count_where, get,
  if◌then◌else◌, is_some, least_where, ltb, not, null_empty, update_where, ℕ, ◌&&◌, ◌+◌, ◌==◌,
  string_eq, nat_eq,
}
use minimax_proxy.Store.Callbacks.{create_callback_delivery_with_conn}
use minimax_proxy.Store.Stages.{
  is_attempt, is_bound, is_completable, leased_by, read_stage, update_attempts, update_stages,
}

-- `(SELECT MIN(stage_order) … WHERE task_id=? AND stage_order>?)`.
abbrev pub next_order : String → ℕ → List TaskStage → Option ℕ
next_order task_id order stages =
    elim (least_where (λ (a b : TaskStage). ltb a.stage_order b.stage_order)
      (λ s. s.task_id == task_id && ltb order s.stage_order) stages) [
        | none ↦ none
        | some s ↦ some s.stage_order
      ]

abbrev pub is_order : Option ℕ → ℕ → Bool
is_order none n = false
is_order (some m) n = m == n

abbrev pub is_pending : StageStatus → Bool
is_pending StageStatus.pending = true
is_pending _ = false

-- The output of a stage is the input of the next one.
unfoldable pub pass_artifact : String → TaskStage → M (Unit {0})
pass_artifact output_artifact_id stage db = if output_artifact_id == "" then (db, ok tt) else (
  record db {
    stages =
        update_where
          (λ s.
            s.task_id == stage.task_id
            && (is_order (next_order stage.task_id stage.stage_order db.stages) s.stage_order
                && is_pending s.status))
          (λ s. record s { input_artifact_id = some output_artifact_id }) db.stages;
  },
  ok tt,
)

-- `status NOT IN ('succeeded','skipped')`.
abbrev pub is_remaining : StageStatus → Bool
is_remaining StageStatus.succeeded = false
is_remaining StageStatus.skipped = false
is_remaining _ = true

abbrev pub remaining : String → Db → ℕ
remaining task_id db = count_where (λ s. s.task_id == task_id && is_remaining s.status) db.stages

abbrev pub is_live_task : String → Task → Bool
is_live_task task_id t = t.task_id == task_id && not (is_some t.deleted_at)

abbrev pub finish_row : Env → String → Task → Task
finish_row env output_artifact_id t = record t {
  status = InternalStatus.succeeded;
  result_artifact_id = null_empty output_artifact_id;
  active_stage_id = none;
  usage_total_seconds = t.duration;
  usage_output_seconds = t.duration;
  finished_at = some (now_unix env);
  updated_at = now_unix env;
  version = t.version + 1;
}

-- The task between two stages.
abbrev pub between_row : Env → Task → Task
between_row env t = record t {
  status = InternalStatus.running;
  upstream_id = none;
  active_stage_id = none;
  updated_at = now_unix env;
  version = t.version + 1;
}

-- The task's update and its event, once its remaining stages are counted.
unfoldable pub advance_task : Env → String → String → Bool → M (Unit {0})
advance_task env task_id output_artifact_id true = do
  rows ← update_tasks (is_live_task task_id) (finish_row env output_artifact_id)
  create_callback_delivery_with_conn env task_id "succeeded" env.now_millis
advance_task env task_id output_artifact_id false = do
  rows ← update_tasks (is_live_task task_id) (between_row env)
  create_callback_delivery_with_conn env task_id "running" env.now_millis

-- `completeStageWithConn` behind the update of the attempt.
unfoldable pub succeed_stage : Env → String → String → String → M (Unit {0})
succeed_stage env stage_id lease_token output_artifact_id = do
  rows ← update_stages (leased_by stage_id lease_token is_completable) λ s. record s {
    status = StageStatus.succeeded;
    output_artifact_id = null_empty output_artifact_id;
    lease_token = none;
    lease_expires_at = none;
    updated_at = env.now_millis;
    finished_at = some env.now_millis;
    row_version = s.row_version + 1;
  }
  one_row rows
  stage ← read_stage stage_id
  pass_artifact output_artifact_id stage
  db ← get
  advance_task env stage.task_id output_artifact_id (remaining stage.task_id db == 0)

unfoldable pub complete_stage : Env → String → String → String → String → M (Unit {0})
complete_stage env stage_id lease_token attempt_id output_artifact_id = immediate do
  rows ← update_attempts (is_attempt attempt_id stage_id is_bound) λ a. record a {
    status = AttemptStatus.succeeded;
    output_artifact_id = null_empty output_artifact_id;
    heartbeat_at = some env.now_millis;
    finished_at = some env.now_millis;
  }
  one_row rows
  succeed_stage env stage_id lease_token output_artifact_id
