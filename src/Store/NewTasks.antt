-- ===== src/Store/NewTasks.antt =====
-- store.go, `Create`: the row of a new task, and the delivery of its first event. The profile that a
-- task names is not modelled.
use Prim.Native.String.{count}
use minimax_proxy.Domain.Status.{queued_open}
use minimax_proxy.Store.Routes.{NewTask, Prepared}
use minimax_proxy.Base.{
  Bool, Option, String, [], any, err, false, if◌then◌else◌, ltb, none, not, null_empty, null_zero,
  ok, some, suc, true, ℕ, ◌&&◌, ◌*◌, ◌++◌, ◌+◌, ◌==◌, ◌||◌, ◌∷◌, string_eq, nat_eq,
}
use minimax_proxy.Store.Callbacks.{insert_callback, new_delivery}
use minimax_proxy.Store.Db.{Db, Env, Error, M, now_unix}
use minimax_proxy.Store.Tables.{decoded, Bytes, CallbackDelivery, Task, TaskSpec}

-- NULLIF(?,X'').
abbrev pub bytes_or_null : Bytes → Option Bytes
bytes_or_null [] = none
bytes_or_null (b ∷ bs) = some (b ∷ bs)

unfoldable pub new_spec : NewTask → ℕ → ℕ → ℕ → TaskSpec
new_spec t seq now expires = record {
  queue_seq = seq;
  task_id = t.task_id;
  api_key_id = t.api_key_id;
  model = t.model;
  scenario = t.scenario;
  request_content = t.request_content;
  request_hash = t.request_hash;
  resolution = t.resolution;
  duration = t.duration;
  ratio_requested = t.ratio;
  usage_input_image_count = t.input_image_count;
  callback_url_ciphertext = bytes_or_null t.callback_url_ciphertext;
  callback_url_nonce = bytes_or_null t.callback_url_nonce;
  profile_id = null_empty t.profile_id;
  profile_version = null_zero t.profile_version;
  config_snapshot_json = null_empty t.config_snapshot_json;
  config_hash = null_empty t.config_hash;
  created_at = now;
  expires_at = expires;
}

-- The inserted row, with the defaults of the table and the columns of the UPDATE that follows.
unfoldable pub new_task : NewTask → Prepared → ℕ → ℕ → ℕ → Task
new_task t p seq now expires = record {
  spec = new_spec t seq now expires;
  route = record {
    protocol_version = some p.protocol;
    route_state = "ready";
    routing_snapshot = some (decoded p.snapshot);
    request_normalizer = p.normalizer;
    routing_wait_reason = "";
  };
  status = queued_open;
  cancel_locked = false;
  upstream_id = none;
  gradio_event_id = none;
  upstream_job_id = none;
  upstream_slot_active = false;
  upstream_node_version = 0;
  delivery_required = false;
  upstream_jobs_before = [];
  official_submission_baseline_saved = false;
  retry_count = 0;
  attempt_started_at = none;
  cancel_requested_at = none;
  gallery_before = none;
  dispatch_snapshot = none;
  active_stage_id = none;
  result_internal_url = none;
  result_public_url = none;
  result_artifact_id = none;
  ratio_actual = none;
  usage_total_seconds = 0;
  usage_output_seconds = 0;
  error_code = none;
  error_message = none;
  upstream_feedback_json = none;
  started_at = none;
  finished_at = none;
  updated_at = now;
  deleted_at = none;
  deletion_state = "not_requested";
  version = 0;
}

abbrev pub has_task_id : String → Task → Bool
has_task_id task_id t = t.task_id == task_id

-- The key and the checks of video_tasks. An expression that is NULL passes a check.
abbrev pub breaks_task : Env → NewTask → Db → Bool
breaks_task env t db =
    any (has_task_id t.task_id) db.tasks
    || (not (t.scenario == "t2va" || (t.scenario == "i2va" || t.scenario == "r2va"))
        || (t.duration == 0
            || (ltb 32 (count t.resolution)
                || (not (t.config_snapshot_json == "")
                    && not (env.json_valid t.config_snapshot_json)))))

unfoldable pub insert_task : Env → NewTask → Prepared → M (Unit {0})
insert_task env t p db = if breaks_task env t db then (db, err Error.constraint) else (
  record db {
    tasks =
        db.tasks
        ++ new_task t p (suc db.last_queue_seq) (now_unix env) (now_unix env + env.retention) ∷ [];
    last_queue_seq = suc db.last_queue_seq;
  },
  ok tt,
)

abbrev pub is_empty : Bytes → Bool
is_empty [] = true
is_empty (b ∷ bs) = false

abbrev pub is_incomplete_event : NewTask → Bool
is_incomplete_event t =
    t.callback_delivery_id == ""
    || (is_empty t.callback_request_body || t.callback_request_body_hash == "")

abbrev pub queued_event : Env → NewTask → CallbackDelivery
queued_event env t =
    new_delivery t.callback_delivery_id t.task_id "queued" 1 (now_unix env * 1000)
      t.callback_request_body_hash t.callback_request_body

-- The delivery of the state in which the task begins.
unfoldable pub first_event : Env → NewTask → M (Unit {0})
first_event env t db =
    if is_empty t.callback_url_ciphertext
    then (db, ok tt)
    else if is_incomplete_event t
    then (db, err Error.incomplete_callback)
    else insert_callback (queued_event env t) db
