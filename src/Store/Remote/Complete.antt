-- ===== src/Store/Remote/Complete.antt =====
-- remote_task_store.go, `CompleteRemoteRun`: the end of a remote run and of its task.
use minimax_proxy.Domain.Status.{InternalStatus, reconciling}
use minimax_proxy.Store.Tables.{Task, RemoteRun, terminal}
use minimax_proxy.Store.Db.{Env, M, immediate, state_conflict, now_unix, one_row, update_tasks}
use minimax_proxy.Base.{◌>>=◌, ◌>>◌, none, some, ◌==◌}
use minimax_proxy.Store.Remote.{Lease, is_held, update_runs}
use minimax_proxy.Base.{
  Bool, Option, String, fail, false, if◌then◌else◌, is_some, none, not, null_empty, some, ℕ, ◌&&◌,
  ◌+◌, ◌==◌, ◌||◌, string_eq, nat_eq,
}
use minimax_proxy.Store.Callbacks.{create_callback_delivery_with_conn}
use minimax_proxy.Store.Cancel.{is_remote_cancellable, is_terminal}
use minimax_proxy.Store.Tasks.{held_by}
use minimax_proxy.Store.Tasks.Official.{insert_upload}

-- `domain.ResultUploadJob`, as far as the insert reads it.
pub record CompletionUpload : Type 0 where
  pub id : String
  pub task_id : String
  pub object_key : String

-- `domain.RemoteCompletion`. `feedback` is the JSON text of the upstream's feedback, where there is
-- one. What only the columns that no modelled operation reads take (the expiry of the result and its
-- metadata) is left out.
pub record RemoteCompletion : Type 0 where
  pub status : String
  pub result_url : String
  pub ratio : String
  pub error_code : String
  pub error_message : String
  pub feedback : Option String
  pub upload_job : Option CompletionUpload

abbrev pub is_end : String → Bool
is_end status = status == "succeeded" || (status == "failed" || status == "cancelled")

-- `CASE WHEN ?='cancelled' THEN 'confirmed' WHEN cancel_state='requested' THEN 'rejected' ELSE
-- cancel_state END`.
abbrev pub ended_cancel_state : String → String → String
ended_cancel_state status cancel_state =
    if status == "cancelled"
    then "confirmed"
    else if cancel_state == "requested"
    then "rejected"
    else cancel_state

abbrev pub end_run : ℕ → RemoteCompletion → RemoteRun → RemoteRun
end_run now c r = record r {
  phase = terminal;
  upstream_status = some c.status;
  cancel_state = ended_cancel_state c.status r.cancel_state;
  lease_token = none;
  lease_expires_at = none;
  next_poll_at = none;
  last_error_code = c.error_code;
  updated_at = now;
}

-- `c.UploadJob != nil && c.Status == "succeeded"`.
abbrev pub awaits_upload : RemoteCompletion → Bool
awaits_upload c = is_some c.upload_job && c.status == "succeeded"

-- The task's status: the text of the completion, which `is_end` accepts.
abbrev pub status_of : String → InternalStatus
status_of status =
    if status == "succeeded"
    then InternalStatus.succeeded
    else if status == "failed"
    then InternalStatus.failed
    else InternalStatus.cancelled

abbrev pub complete_task : Env → RemoteCompletion → Task → Task
complete_task env c t = record t {
  status = if awaits_upload c then reconciling else status_of c.status;
  upstream_slot_active = false;
  result_internal_url =
      if is_some t.result_internal_url then t.result_internal_url else null_empty c.result_url;
  result_public_url = if awaits_upload c then none else null_empty c.result_url;
  ratio_actual = null_empty c.ratio;
  error_code = null_empty c.error_code;
  error_message = null_empty c.error_message;
  upstream_feedback_json = c.feedback;
  finished_at = if awaits_upload c then none else some (now_unix env);
  updated_at = now_unix env;
  version = t.version + 1;
}

-- The upload job of a result, or the event that tells the client.
unfoldable pub deliver_completion :
    Env → String → RemoteCompletion → Option CompletionUpload → M (Unit {0})
deliver_completion env task_id c none =
    create_callback_delivery_with_conn env task_id c.status env.now_millis
deliver_completion env task_id c (some job) =
    if not (c.status == "succeeded")
    then create_callback_delivery_with_conn env task_id c.status env.now_millis
    else if not (job.task_id == task_id)
    then fail state_conflict
    else insert_upload env task_id (job.id, job.object_key)

-- What follows the update of the run in the transaction.
unfoldable pub complete_run_task : Env → Lease → RemoteCompletion → M (Unit {0})
complete_run_task env l c = do
  rows ←
      update_tasks
        (λ t.
          held_by l.task_id l.node_id is_remote_cancellable t
          && (t.upstream_slot_active && not (is_some t.deleted_at)))
        (complete_task env c)
  one_row rows
  deliver_completion env l.task_id c c.upload_job

unfoldable pub complete_transaction : Env → Lease → RemoteCompletion → M (Unit {0})
complete_transaction env l c = do
  rows ←
      update_runs (λ r. is_held l (now_unix env) r && not (is_terminal r.phase))
        (end_run (now_unix env) c)
  one_row rows
  complete_run_task env l c

unfoldable pub complete_remote_run : Env → Lease → RemoteCompletion → M (Unit {0})
complete_remote_run env l c =
    if not (is_end c.status) || (c.status == "succeeded" && c.result_url == "")
    then fail state_conflict
    else immediate (complete_transaction env l c)
