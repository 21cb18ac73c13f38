-- ===== src/Store/Uploads/Ends.antt =====
-- result_delivery_store.go: how an attempt of an upload job ends, and the new round that an
-- administrator asks for.
use minimax_proxy.Domain.Status.{InternalStatus, reconciling}
use minimax_proxy.Store.Tables.{Task, UploadJob, UploadStatus}
use minimax_proxy.Store.Db.{Env, Error, M, immediate, now_unix, one_row, update_tasks}
use minimax_proxy.Store.Callbacks.{create_callback_delivery_with_conn}
use minimax_proxy.Base.{
  ◌>>=◌, ◌>>◌, ok, err, ℕ, String, Bool, Option, fail, false, first_where, guard, if◌then◌else◌,
  is_some, is_value, ltb, none, settle, some, true, update_where, ◌&&◌, ◌+◌, ◌==◌, string_eq,
  nat_eq,
}
use minimax_proxy.Store.Uploads.{
  fail_delivered_task, has_id, is_failed, is_reconciling, is_uploading, update_uploads,
}

-- `WHERE id=? AND status='uploading' AND lease_token=?`.
abbrev pub holds_lease : String → String → UploadJob → Bool
holds_lease id lease j = j.id == id && (is_uploading j.status && is_value j.lease_token lease)

abbrev pub may_retry : Bool → UploadJob → Bool
may_retry retryable j = retryable && ltb j.attempt_no j.max_attempts

unfoldable pub failed_attempt : Env → String → String → Bool → ℕ → UploadJob → UploadJob
failed_attempt env code message retry next_attempt j = record j {
  status = if retry then UploadStatus.retry_wait else UploadStatus.failed;
  next_attempt_at = if retry then some next_attempt else none;
  lease_token = none;
  lease_expires_at = none;
  last_error_code = code;
  last_error_message = message;
  updated_at = env.now_millis;
  version = j.version + 1;
}

unfoldable pub end_attempt : Env → String → String → Bool → ℕ → Option UploadJob → M (Unit {0})
end_attempt env code message retryable next_attempt none db = (db, err Error.state_conflict)
end_attempt env code message retryable next_attempt (some j) db =
    let retry = may_retry retryable j in
    let written = record db {
      upload_jobs =
          update_where (has_id j.id) (failed_attempt env code message retry next_attempt)
            db.upload_jobs;
    } in
    if retry
    then (written, ok tt)
    else fail_delivered_task env j.task_id message env.now_millis written

unfoldable pub fail_result_upload_attempt :
    Env → String → String → String → String → Bool → ℕ → M (Unit {0})
fail_result_upload_attempt env id lease code message retryable next_attempt db = settle db (
    end_attempt env code message retryable next_attempt
      (first_where (holds_lease id lease) db.upload_jobs) db)

unfoldable pub retried_row : Env → UploadJob → UploadJob
retried_row env j = record j {
  status = UploadStatus.pending;
  round_no = j.round_no + 1;
  attempt_no = 0;
  next_attempt_at = none;
  lease_token = none;
  lease_expires_at = none;
  last_error_code = "";
  last_error_message = "";
  started_at = none;
  finished_at = none;
  updated_at = env.now_millis;
  version = j.version + 1;
}

unfoldable pub reopened : Env → Task → Task
reopened env t = record t {
  status = reconciling;
  error_code = none;
  error_message = none;
  finished_at = none;
  updated_at = now_unix env;
  version = t.version + 1;
}

abbrev pub is_failed_status : InternalStatus → Bool
is_failed_status InternalStatus.failed = true
is_failed_status _ = false

abbrev pub failed_upload : String → Task → Bool
failed_upload task_id t =
    t.task_id == task_id
    && (is_failed_status t.status
        && (is_value t.error_code "result_upload_failed" && is_some t.result_internal_url))

-- `oneRow`, with another error.
abbrev pub retryable_row : ℕ → M (Unit {0})
retryable_row n = guard (n == 1) Error.upload_not_retryable

unfoldable pub retry_result_upload : Env → String → M (Unit {0})
retry_result_upload env task_id = immediate do
  jobs ← update_uploads (λ j. j.task_id == task_id && is_failed j.status) (retried_row env)
  retryable_row jobs
  tasks ← update_tasks (failed_upload task_id) (reopened env)
  retryable_row tasks

unfoldable pub uploaded_row : Env → String → ℕ → UploadJob → UploadJob
uploaded_row env public_url bytes j = record j {
  status = UploadStatus.succeeded;
  public_url = public_url;
  bytes_uploaded = bytes;
  lease_token = none;
  lease_expires_at = none;
  finished_at = some env.now_millis;
  updated_at = env.now_millis;
  version = j.version + 1;
}

unfoldable pub delivered_task : Env → String → Task → Task
delivered_task env public_url t = record t {
  status = InternalStatus.succeeded;
  result_public_url = some public_url;
  error_code = none;
  error_message = none;
  finished_at = some (now_unix env);
  updated_at = now_unix env;
  version = t.version + 1;
}

abbrev pub awaits_delivery : String → Task → Bool
awaits_delivery task_id t =
    t.task_id == task_id && (is_reconciling t.status && is_some t.result_internal_url)

unfoldable pub store_delivery : Env → String → ℕ → Option UploadJob → M (Unit {0})
store_delivery env public_url bytes none = fail Error.state_conflict
store_delivery env public_url bytes (some j) = do
  rows ← update_uploads (has_id j.id) (uploaded_row env public_url bytes)
  tasks ← update_tasks (awaits_delivery j.task_id) (delivered_task env public_url)
  one_row tasks
  create_callback_delivery_with_conn env j.task_id "succeeded" env.now_millis

unfoldable pub complete_result_upload : Env → String → String → String → ℕ → M (Unit {0})
complete_result_upload env id lease public_url bytes db =
    settle db
      (store_delivery env public_url bytes (first_where (holds_lease id lease) db.upload_jobs) db)
