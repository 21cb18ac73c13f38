-- ===== src/Store/Tasks/Official.antt =====
-- official_task_store.go: a task on a minimax-v2 node, from its submission to its end.
use minimax_proxy.Domain.Status.{InternalStatus, reconciling, protocol_official}
use minimax_proxy.Store.Tables.{Task, TaskStage, StageStatus, UploadJob, UploadStatus}
use minimax_proxy.Store.Db.{Db, Env, Error, M, immediate, now_unix, one_row, update_tasks}
use minimax_proxy.Base.{
  ◌>>=◌, ◌>>◌, ok, err, Bool, List, Option, String, [], any, coalesce, count_where, false,
  if◌then◌else◌, is_some, is_value, none, not, null_empty, select_where, some, true, update_where,
  ℕ, ◌&&◌, ◌++◌, ◌+◌, ◌==◌, ◌||◌, ◌∷◌, string_eq, nat_eq,
}
use minimax_proxy.Store.Callbacks.{create_callback_delivery_with_conn}
use minimax_proxy.Store.Tasks.{held_by, is_dispatching, is_dispatching_or_running, update_result}

-- `task_id=? AND upstream_id=? AND upstream_slot_active=1 AND protocol_version='minimax-v2' AND
-- route_state='ready'`, and a test of the status.
abbrev pub occupies : String → String → (InternalStatus → Bool) → Task → Bool
occupies task_id node_id statuses t =
    held_by task_id node_id statuses t
    && (t.upstream_slot_active
        && (is_value t.protocol_version protocol_official && t.route_state == "ready"))

unfoldable pub save_official_submission_baseline :
    Env → String → String → List String → M (Unit {0})
save_official_submission_baseline env task_id node_id task_ids = do
  rows ← update_tasks (occupies task_id node_id is_dispatching) λ t. record t {
    upstream_jobs_before = task_ids;
    official_submission_baseline_saved = true;
    updated_at = now_unix env;
    version = t.version + 1;
  }
  one_row rows

-- `ListActiveOfficialTasks`; the table stands in the order of queue_seq.
unfoldable pub list_active_official_tasks : String → Db → List Task
list_active_official_tasks node_id db =
    select_where
      (λ t.
        is_value t.upstream_id node_id
        && (t.upstream_slot_active
            && (not (is_some t.deleted_at)
                && (is_value t.protocol_version protocol_official
                    && (t.route_state == "ready" && is_dispatching_or_running t.status)))))
      db.tasks

unfoldable pub active_official_count : String → Db → ℕ
active_official_count node_id db =
    count_where (λ t. is_value t.upstream_id node_id && t.upstream_slot_active) db.tasks

unfoldable pub bind_official_task : Env → String → String → String → M (Unit {0})
bind_official_task env task_id node_id upstream_task_id = do
  rows ← update_tasks (occupies task_id node_id is_dispatching) λ t. record t {
    upstream_job_id = some upstream_task_id;
    status = InternalStatus.running;
    updated_at = now_unix env;
    version = t.version + 1;
  }
  one_row rows

-- `status NOT IN ('succeeded','skipped')`.
abbrev pub is_unfinished : StageStatus → Bool
is_unfinished StageStatus.succeeded = false
is_unfinished StageStatus.skipped = false
is_unfinished _ = true

abbrev pub unfinished_of : String → TaskStage → Bool
unfinished_of task_id s = s.task_id == task_id && is_unfinished s.status

-- The argument `uploadJob`: the identifier and the object key.
abbrev pub Upload : Type 0
Upload = Option (String × String)

abbrev pub generated_row : Env → String → String → Upload → Task → Task
generated_row env origin_url ratio upload t = record t {
  status = if is_some upload then reconciling else InternalStatus.succeeded;
  result_internal_url = some origin_url;
  result_public_url = if is_some upload then none else null_empty origin_url;
  ratio_actual = some ratio;
  usage_total_seconds = t.duration;
  usage_output_seconds = t.duration;
  upstream_slot_active = false;
  finished_at = if is_some upload then none else some (now_unix env);
  updated_at = now_unix env;
  version = t.version + 1;
}

abbrev pub generated_stage : Env → TaskStage → TaskStage
generated_stage env s = record s {
  status = if s.stage_type == "generation" then StageStatus.succeeded else StageStatus.skipped;
  lease_token = none;
  lease_expires_at = none;
  next_attempt_at = none;
  updated_at = env.now_millis;
  finished_at = some (coalesce s.finished_at env.now_millis);
  row_version = s.row_version + 1;
}

abbrev pub close_stages : String → (TaskStage → TaskStage) → M (Unit {0})
close_stages task_id f db =
    (record db { stages = update_where (unfinished_of task_id) f db.stages }, ok tt)

-- The row that an insert into result_upload_jobs writes, with the table's defaults.
unfoldable pub new_upload : String → String → String → ℕ → UploadJob
new_upload id task_id object_key now = record {
  id = id;
  task_id = task_id;
  object_key = object_key;
  status = UploadStatus.pending;
  round_no = 1;
  attempt_no = 0;
  max_attempts = 3;
  next_attempt_at = none;
  lease_token = none;
  lease_expires_at = none;
  public_url = "";
  last_error_code = "";
  last_error_message = "";
  bytes_uploaded = 0;
  started_at = none;
  finished_at = none;
  created_at = now;
  updated_at = now;
  version = 1;
}

-- The keys of result_upload_jobs, and the texts that must not be empty.
abbrev pub breaks_upload : String → String → String → Db → Bool
breaks_upload id task_id object_key db =
    any (λ j. j.id == id || (j.task_id == task_id || j.object_key == object_key)) db.upload_jobs
    || (id == "" || object_key == "")

abbrev pub insert_upload : Env → String → String × String → M (Unit {0})
insert_upload env task_id (id, object_key) db =
    if breaks_upload id task_id object_key db then (db, err Error.constraint) else (
      record db {
        upload_jobs = db.upload_jobs ++ new_upload id task_id object_key env.now_millis ∷ [];
      },
      ok tt,
    )

-- The upload job, or the event of a task that needs none.
abbrev pub deliver_generated : Env → String → Upload → M (Unit {0})
deliver_generated env task_id none =
    create_callback_delivery_with_conn env task_id "succeeded" env.now_millis
deliver_generated env task_id (some job) = insert_upload env task_id job

unfoldable pub mark_official_generated :
    Env → String → String → String → String → Upload → M (Unit {0})
mark_official_generated env task_id node_id origin_url ratio upload = immediate do
  rows ←
      update_result origin_url (occupies task_id node_id is_dispatching_or_running)
        (generated_row env origin_url ratio upload)
  one_row rows
  close_stages task_id (generated_stage env)
  deliver_generated env task_id upload

abbrev pub failed_stage : Env → String → String → TaskStage → TaskStage
failed_stage env code message s = record s {
  status = StageStatus.failed;
  error_code = some code;
  error_message = some message;
  lease_token = none;
  lease_expires_at = none;
  updated_at = env.now_millis;
  finished_at = some env.now_millis;
  row_version = s.row_version + 1;
}

-- `feedback` is the JSON text of the upstream's feedback, where there is one.
unfoldable pub mark_official_failed :
    Env → String → String → String → String → Option String → M (Unit {0})
mark_official_failed env task_id node_id code message feedback = immediate do
  rows ← update_tasks (occupies task_id node_id is_dispatching_or_running) λ t. record t {
    status = InternalStatus.failed;
    error_code = some code;
    error_message = some message;
    upstream_feedback_json = feedback;
    upstream_slot_active = false;
    finished_at = some (now_unix env);
    updated_at = now_unix env;
    version = t.version + 1;
  }
  one_row rows
  close_stages task_id (failed_stage env code message)
  create_callback_delivery_with_conn env task_id "failed" env.now_millis
