-- ===== src/Store/Uploads.antt =====
-- result_delivery_store.go: the jobs that copy an official result into the object storage, and what
-- their end does to their task.
pub mod Ends
pub mod Claims
pub mod Sound
pub mod History
pub mod Budget
use minimax_proxy.Domain.Status.{InternalStatus, reconciling}
use minimax_proxy.Store.Tables.{Task, UploadJob, UploadStatus}
use minimax_proxy.Store.Db.{
  Env, Error, M, immediate, now_unix, one_row, update_tasks, state_conflict, task_not_found,
  queue_empty, no_rows,
}
use minimax_proxy.Store.Callbacks.{create_callback_delivery_with_conn}
use minimax_proxy.Store.Tasks.Official.{insert_upload}
use minimax_proxy.Base.{
  ◌>>=◌, ◌>>◌, ok, err, ℕ, String, Bool, List, Option, [], and_then, coalesce, count_where, false,
  first_where, guard, if◌then◌else◌, is_some, is_value, least_where, leb, ltb, none, not, order_by,
  select_where, settle, some, str_ltb, take, true, update_where, ◌&&◌, ◌+◌, ◌/◌, ◌==◌, ◌||◌, ◌∷◌,
  string_eq, nat_eq, fail, return,
}

-- `CreateResultUploadJob`.
unfoldable pub create_result_upload_job : Env → String → String → String → M (Unit {0})
create_result_upload_job env id task_id object_key = insert_upload env task_id (id, object_key)

abbrev pub found_upload : Option UploadJob → M UploadJob
found_upload none db = (db, err Error.upload_not_found)
found_upload (some j) db = (db, ok j)

unfoldable pub get_result_upload_job : String → M UploadJob
get_result_upload_job task_id db =
    found_upload (first_where (λ j. j.task_id == task_id) db.upload_jobs) db

-- The task's original result URL; NULL reads as the empty text.
abbrev pub upload_source : Option Task → M String
upload_source none db = (db, err Error.task_not_found)
upload_source (some t) db =
    let url = coalesce t.result_internal_url "" in
    if url == "" then (db, err Error.state_conflict) else (db, ok url)

unfoldable pub get_result_upload_source : String → M String
get_result_upload_source task_id db =
    upload_source (first_where (λ t. t.task_id == task_id && not (is_some t.deleted_at)) db.tasks)
      db

abbrev pub is_uploading : UploadStatus → Bool
is_uploading UploadStatus.uploading = true
is_uploading _ = false

abbrev pub is_failed : UploadStatus → Bool
is_failed UploadStatus.failed = true
is_failed _ = false

-- `COALESCE(o,0)<=now`.
abbrev pub due : Option ℕ → ℕ → Bool
due o now = leb (coalesce o 0) now

-- Waits for its first or next attempt, or was left by a worker whose lease ran out.
abbrev pub is_waiting : UploadStatus → Bool
is_waiting UploadStatus.pending = true
is_waiting UploadStatus.retry_wait = true
is_waiting _ = false

abbrev pub is_pending : UploadStatus → Bool
is_pending UploadStatus.pending = true
is_pending _ = false

abbrev pub is_retry_wait : UploadStatus → Bool
is_retry_wait UploadStatus.retry_wait = true
is_retry_wait _ = false

unfoldable pub upload_claimable : ℕ → UploadJob → Bool
upload_claimable now j =
    ltb j.attempt_no j.max_attempts
    && (is_pending j.status
        || ((is_retry_wait j.status && due j.next_attempt_at now)
            || (is_uploading j.status && due j.lease_expires_at now)))

unfoldable pub is_exhausted : ℕ → UploadJob → Bool
is_exhausted now j =
    leb j.max_attempts j.attempt_no
    && (is_waiting j.status || (is_uploading j.status && due j.lease_expires_at now))

-- ORDER BY created_at,id.
abbrev pub earlier : UploadJob → UploadJob → Bool
earlier i j = ltb i.created_at j.created_at || (i.created_at == j.created_at && str_ltb i.id j.id)

-- UPDATE result_upload_jobs SET f WHERE p: the number of rows.
abbrev pub update_uploads : (UploadJob → Bool) → (UploadJob → UploadJob) → M ℕ
update_uploads p f db =
    (record db { upload_jobs = update_where p f db.upload_jobs }, ok (count_where p db.upload_jobs))

abbrev pub is_reconciling : InternalStatus → Bool
is_reconciling reconciling = true
is_reconciling _ = false

unfoldable pub failed_delivery : String → ℕ → Task → Task
failed_delivery message now t = record t {
  status = InternalStatus.failed;
  error_code = some "result_upload_failed";
  error_message = some message;
  finished_at = some (now / 1000);
  updated_at = now / 1000;
  version = t.version + 1;
}

-- The event of a task that was failed; none where no task was.
abbrev pub event_of_failed : Env → String → ℕ → ℕ → M (Unit {0})
event_of_failed env task_id now rows db =
    if rows == 0
    then (db, ok tt)
    else create_callback_delivery_with_conn env task_id "failed" now db

unfoldable pub fail_delivered_task : Env → String → String → ℕ → M (Unit {0})
fail_delivered_task env task_id message now = do
  rows ←
      update_tasks (λ t. t.task_id == task_id && is_reconciling t.status)
        (failed_delivery message now)
  event_of_failed env task_id now rows

abbrev pub exhausted_message : String
exhausted_message = "结果上传已达到本轮尝试上限且执行租约已过期，请检查对象存储后重新上传"

unfoldable pub exhausted_row : ℕ → UploadJob → UploadJob
exhausted_row now j = record j {
  status = UploadStatus.failed;
  lease_token = none;
  lease_expires_at = none;
  next_attempt_at = none;
  last_error_code = "result_upload_attempts_exhausted";
  last_error_message = exhausted_message;
  finished_at = some now;
  updated_at = now;
  version = j.version + 1;
}

abbrev pub has_id : String → UploadJob → Bool
has_id id j = j.id == id

unfoldable pub recover_each : Env → List UploadJob → M (Unit {0})
recover_each env [] = return tt
recover_each env (j ∷ jobs) = do
  rows ← update_uploads (has_id j.id) (exhausted_row env.now_millis)
  fail_delivered_task env j.task_id exhausted_message env.now_millis
  recover_each env jobs

-- `recoverExhaustedResultUploads`: at most 100 jobs, in a transaction of its own.
unfoldable pub recover_exhausted : Env → M (Unit {0})
recover_exhausted env db = settle db (
    recover_each env
      (take 100 (order_by earlier (select_where (is_exhausted env.now_millis) db.upload_jobs))) db)

unfoldable pub claimed_row : Env → String → ℕ → UploadJob → UploadJob
claimed_row env lease duration j = record j {
  status = UploadStatus.uploading;
  attempt_no = j.attempt_no + 1;
  lease_token = some lease;
  lease_expires_at = some (env.now_millis + duration);
  next_attempt_at = none;
  started_at = some (coalesce j.started_at env.now_millis);
  updated_at = env.now_millis;
  version = j.version + 1;
}

abbrev pub is_version : UploadJob → UploadJob → Bool
is_version j k = k.id == j.id && k.version == j.version

-- The row as the last SELECT reads it.
abbrev pub reread : String → M UploadJob
reread id db = elim (first_where (has_id id) db.upload_jobs) [
  | none ↦ (db, err Error.no_rows)
  | some j ↦ (db, ok j)
]

unfoldable pub take_upload : Env → String → ℕ → Option UploadJob → M UploadJob
take_upload env lease duration none = fail Error.queue_empty
take_upload env lease duration (some j) = do
  rows ← update_uploads (is_version j) (claimed_row env lease duration)
  one_row rows
  reread j.id

-- The second transaction of `ClaimResultUploadJob`.
unfoldable pub claim_due : Env → String → ℕ → M UploadJob
claim_due env lease duration db = settle db (
    take_upload env lease duration
      (least_where earlier (upload_claimable env.now_millis) db.upload_jobs) db)

unfoldable pub claim_result_upload_job : Env → String → ℕ → M UploadJob
claim_result_upload_job env lease duration db =
    and_then (recover_exhausted env db) (λ _. claim_due env lease duration)
