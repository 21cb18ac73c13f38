-- ===== src/Store/Tasks.antt =====
-- store.go: the operations that move one task through its life on an upstream.
pub mod Official
pub mod Halves
use minimax_proxy.Base.{
  ℕ, ◌+◌, ◌*◌, String, Bool, true, false, ◌==◌, ◌&&◌, ◌||◌, not, string_eq, nat_eq, List, [], ◌∷◌,
  Option, none, some, ok, err, ◌>>=◌, ◌>>◌, if◌then◌else◌, is_value, is_some, any,
}
use minimax_proxy.Domain.Status.{
  InternalStatus, queued_open, queued_locked, dispatching, reconciling, cancelling,
}
use minimax_proxy.Store.Tables.{Task}
use minimax_proxy.Store.Db.{
  Db, Env, M, immediate, one_row, update_tasks, now_unix, constraint, commits,
}
use minimax_proxy.Store.Queue.{rebalance}
use minimax_proxy.Store.Callbacks.{create_callback_delivery_with_conn}

-- `status IN ('dispatching','running','reconciling')`.
abbrev pub is_executing : InternalStatus → Bool
is_executing dispatching = true
is_executing InternalStatus.running = true
is_executing reconciling = true
is_executing _ = false

abbrev pub is_dispatching : InternalStatus → Bool
is_dispatching dispatching = true
is_dispatching _ = false

abbrev pub is_dispatching_or_running : InternalStatus → Bool
is_dispatching_or_running dispatching = true
is_dispatching_or_running InternalStatus.running = true
is_dispatching_or_running _ = false

abbrev pub is_dispatching_or_reconciling : InternalStatus → Bool
is_dispatching_or_reconciling dispatching = true
is_dispatching_or_reconciling reconciling = true
is_dispatching_or_reconciling _ = false

abbrev pub is_running_or_reconciling : InternalStatus → Bool
is_running_or_reconciling InternalStatus.running = true
is_running_or_reconciling reconciling = true
is_running_or_reconciling _ = false

abbrev pub is_cancelling : InternalStatus → Bool
is_cancelling cancelling = true
is_cancelling _ = false

-- `task_id=? AND upstream_id=?`, and a test of the status.
abbrev pub held_by : String → String → (InternalStatus → Bool) → Task → Bool
held_by task_id upstream_id statuses t =
    t.task_id == task_id && (is_value t.upstream_id upstream_id && statuses t.status)

-- The trigger protect_video_tasks_original_result_url: a result URL that is set is never replaced.
abbrev pub replaces_url : String → Task → Bool
replaces_url url t = is_some t.result_internal_url && not (is_value t.result_internal_url url)

-- UPDATE video_tasks SET result_internal_url=url, … WHERE p.
unfoldable pub update_result : String → (Task → Bool) → (Task → Task) → M ℕ
update_result url p f db =
    if any (λ t. p t && replaces_url url t) db.tasks
    then (db, err constraint)
    else update_tasks p f db

unfoldable pub mark_succeeded : Env → String → String → String → String → String → M (Unit {0})
mark_succeeded env task_id upstream_id internal_url public_url ratio =
    let now = now_unix env in
    commits do
      rows ← update_result internal_url (held_by task_id upstream_id is_executing) λ t. record t {
        status = InternalStatus.succeeded;
        result_internal_url = some internal_url;
        result_public_url = some public_url;
        ratio_actual = some ratio;
        usage_total_seconds = t.duration;
        usage_output_seconds = t.duration;
        finished_at = some now;
        updated_at = now;
        version = t.version + 1;
      }
      one_row rows
      create_callback_delivery_with_conn env task_id "succeeded" (now * 1000)

unfoldable pub save_baseline : Env → String → String → List String → M (Unit {0})
save_baseline env task_id upstream_id urls = do
  rows ← update_tasks (held_by task_id upstream_id is_dispatching) λ t. record t {
    gallery_before = some urls;
    updated_at = now_unix env;
    version = t.version + 1;
  }
  one_row rows

unfoldable pub save_submission_context : Env → String → String → List String → M (Unit {0})
save_submission_context env task_id upstream_id job_ids = do
  rows ← update_tasks (held_by task_id upstream_id is_dispatching) λ t. record t {
    upstream_jobs_before = job_ids;
    attempt_started_at = some (now_unix env);
    updated_at = now_unix env;
    version = t.version + 1;
  }
  one_row rows

unfoldable pub bind_upstream_job : Env → String → String → String → M (Unit {0})
bind_upstream_job env task_id upstream_id job_id = do
  rows ← update_tasks (held_by task_id upstream_id is_dispatching_or_reconciling) λ t. record t {
    upstream_job_id = some job_id;
    status = InternalStatus.running;
    updated_at = now_unix env;
    version = t.version + 1;
  }
  one_row rows

unfoldable pub begin_retry : Env → String → String → List String → List String → M (Unit {0})
begin_retry env task_id upstream_id job_ids_before gallery_before = do
  rows ←
      update_tasks
        (λ t. held_by task_id upstream_id is_running_or_reconciling t && t.retry_count == 0)
        λ t. record t {
          status = dispatching;
          retry_count = 1;
          upstream_job_id = none;
          upstream_jobs_before = job_ids_before;
          gallery_before = some gallery_before;
          attempt_started_at = some (now_unix env);
          error_code = none;
          error_message = none;
          updated_at = now_unix env;
          version = t.version + 1;
        }
  one_row rows

unfoldable pub mark_running : Env → String → String → M (Unit {0})
mark_running env task_id upstream_id = do
  rows ← update_tasks (held_by task_id upstream_id is_dispatching) λ t. record t {
    status = InternalStatus.running;
    updated_at = now_unix env;
    version = t.version + 1;
  }
  one_row rows

unfoldable pub mark_reconciling : Env → String → String → M (Unit {0})
mark_reconciling env task_id upstream_id = do
  rows ←
      update_tasks (held_by task_id upstream_id is_executing)
        λ t. record t { status = reconciling; updated_at = now_unix env; version = t.version + 1 }
  one_row rows

abbrev pub failed_row : Env → String → String → Task → Task
failed_row env code message t = record t {
  status = InternalStatus.failed;
  error_code = some code;
  error_message = some message;
  finished_at = some (now_unix env);
  updated_at = now_unix env;
  version = t.version + 1;
}

unfoldable pub mark_failed : Env → String → String → String → String → M (Unit {0})
mark_failed env task_id upstream_id code message = commits do
  rows ← update_tasks (held_by task_id upstream_id is_executing) (failed_row env code message)
  one_row rows
  create_callback_delivery_with_conn env task_id "failed" (now_unix env * 1000)

unfoldable pub requeue : Env → String → String → M (Unit {0})
requeue env task_id upstream_id = immediate do
  rows ← update_tasks (held_by task_id upstream_id is_dispatching) λ t. record t {
    status = queued_open;
    cancel_locked = false;
    upstream_id = none;
    gradio_event_id = none;
    upstream_job_id = none;
    upstream_jobs_before = [];
    official_submission_baseline_saved = false;
    upstream_feedback_json = none;
    retry_count = 0;
    attempt_started_at = none;
    cancel_requested_at = none;
    gallery_before = none;
    started_at = none;
    updated_at = now_unix env;
    version = t.version + 1;
  }
  one_row rows
  rebalance env

unfoldable pub finish_cancelled : Env → String → String → M (Unit {0})
finish_cancelled env task_id upstream_id =
    let now = now_unix env in
    commits do
      rows ← update_tasks (held_by task_id upstream_id is_cancelling) λ t. record t {
        status = InternalStatus.cancelled;
        cancel_locked = false;
        finished_at = some now;
        updated_at = now;
        version = t.version + 1;
      }
      one_row rows
      create_callback_delivery_with_conn env task_id "cancelled" (now * 1000)
