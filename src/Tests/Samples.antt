-- ===== src/Tests/Samples.antt =====
-- Concrete rows and databases for the tests.
use minimax_proxy.Domain.Status.{InternalStatus, queued_open, queued_locked}
use minimax_proxy.Domain.Capability.{ModelCapability, TaskRequirements}
use minimax_proxy.Store.Tables.{
  Task, TaskSpec, TaskRoute, CallbackDelivery, DeliveryStatus, TaskStage, StageStatus, StageAttempt,
  AttemptStatus, ModelNode, ModelCatalog, decoded,
}
use minimax_proxy.Store.Db.{Db, Env}
use minimax_proxy.Callback.{Worker}
use minimax_proxy.Base.{ℕ, String, true, false, [], ◌∷◌, Option, none, some}
use minimax_proxy.Store.Stages.Attempts.{NewAttempt}
use minimax_proxy.Domain.Request.{GenerationContent}

abbrev pub env : Env
env = record {
  options = record {
    protected_slots = 1;
    per_key_limit = 2;
    global_limit = 4;
    retention = 3600;
    idempotency_ttl = 60;
  };
  now_millis = 1000000;
  uuid = λ k. "event-1";
  event_body = λ id status. [];
  sha256_hex = λ body. "e3b0";
  text_bytes = λ text. [];
  json_valid = λ text. true;
}

abbrev pub requirements : TaskRequirements
requirements = record {
  scenario = "t2v";
  duration = 6;
  resolution = "768P";
  roles = [];
  input_sources = [];
  media_count = 0;
}

abbrev pub capability : ModelCapability
capability = record {
  modes = record { scenario = "t2v"; durations = 6 ∷ 10 ∷ []; roles = [] } ∷ [];
  input_sources = [];
  resolutions = "768P" ∷ [];
  max_media = 0;
  schema_version = 1;
  resolution_policy = "";
}

abbrev pub content : GenerationContent
content = record {
  type = "text";
  text = "a boat at sea";
  image_url = none;
  video_url = none;
  audio_url = none;
  role = "";
}

abbrev pub spec_of : ℕ → String → TaskSpec
spec_of seq id = record {
  queue_seq = seq;
  task_id = id;
  api_key_id = "key-1";
  model = "hailuo";
  scenario = "t2v";
  request_content = decoded (content ∷ []);
  request_hash = "h1";
  resolution = "768P";
  duration = 6;
  ratio_requested = "16:9";
  usage_input_image_count = 0;
  callback_url_ciphertext = some (1 ∷ []);
  callback_url_nonce = some (2 ∷ []);
  profile_id = none;
  profile_version = none;
  config_snapshot_json = none;
  config_hash = none;
  created_at = 900;
  expires_at = 9000;
}

abbrev pub route_of : String → TaskRoute
route_of protocol = record {
  protocol_version = some protocol;
  route_state = "ready";
  routing_snapshot = some (
      decoded (record {
        schema_version = 1;
        model = "hailuo";
        protocol_version = protocol;
        route_version = 1;
        routing_revision = 1;
        selection_mode = "auto";
        parameter_plan = "";
        normalizer_version = "v1";
        requirements = requirements;
      }));
  request_normalizer = "v1";
  routing_wait_reason = "";
}

abbrev pub task_of : ℕ → String → String → InternalStatus → Option String → Task
task_of seq id protocol status upstream = record {
  spec = spec_of seq id;
  route = route_of protocol;
  status = status;
  cancel_locked = false;
  upstream_id = upstream;
  gradio_event_id = none;
  upstream_job_id = none;
  upstream_slot_active = false;
  upstream_node_version = 0;
  delivery_required = false;
  upstream_jobs_before = [];
  official_submission_baseline_saved = false;
  retry_count = 0;
  attempt_started_at = none;
  cancel_requested_at = none;
  gallery_before = none;
  dispatch_snapshot = none;
  active_stage_id = none;
  result_internal_url = none;
  result_public_url = none;
  result_artifact_id = none;
  ratio_actual = none;
  usage_total_seconds = 0;
  usage_output_seconds = 0;
  error_code = none;
  error_message = none;
  upstream_feedback_json = none;
  started_at = none;
  finished_at = none;
  updated_at = 900;
  deleted_at = none;
  deletion_state = "";
  version = 1;
}

abbrev pub node : ModelNode
node = record {
  id = "node-1";
  protocol_version = some "minimax-v2";
  service_url = "https://node-1";
  upstream_model = "hailuo-up";
  max_concurrency = 2;
  replace_result_url = false;
  api_key_fingerprint = none;
  legacy_model_compat = false;
  enabled = true;
  version = 3;
  deleted_at = none;
}

abbrev pub catalog : ModelCatalog
catalog = record {
  node_id = "node-1";
  source = "manual";
  connection_fingerprint = "e3b0";
  last_success_at = some 900;
  valid_until = none;
  items =
      record {
        model_id = "hailuo";
        enabled = true;
        present = true;
        verified = true;
        capabilities = decoded capability;
      }
      ∷ [];
}

-- A delivery that waits for its first attempt.
abbrev pub delivery_of : String → String → ℕ → CallbackDelivery
delivery_of id task_id version = record {
  id = id;
  task_id = task_id;
  external_status = "running";
  state_version = version;
  status = DeliveryStatus.pending;
  attempt_count = 0;
  next_attempt_at = none;
  request_body_hash = "e3b0";
  request_body = [];
  http_status = none;
  last_error = none;
  lease_expires_at = none;
  created_at = version;
  updated_at = version;
  delivered_at = none;
}

abbrev pub stage_of : String → String → StageStatus → TaskStage
stage_of id task_id status = record {
  id = id;
  task_id = task_id;
  stage_order = 0;
  stage_type = "generation";
  status = status;
  attempt_count = 1;
  max_attempts = 3;
  preferred_node_id = none;
  current_node_id = some "node-2";
  input_artifact_id = none;
  output_artifact_id = none;
  config_snapshot_json = "{}";
  lease_token = some "lease-1";
  lease_expires_at = some 2000000;
  next_attempt_at = none;
  error_code = none;
  error_message = none;
  created_at = 900000;
  updated_at = 900000;
  started_at = none;
  finished_at = none;
  row_version = 1;
}

abbrev pub attempt : StageAttempt
attempt = record {
  id = "attempt-1";
  stage_id = "stage-1";
  attempt_no = 1;
  operation_id = "op-1";
  node_id = "node-2";
  execution_id = none;
  status = AttemptStatus.dispatching;
  input_artifact_id = none;
  output_artifact_id = none;
  request_snapshot_json = none;
  error_code = none;
  error_message = none;
  started_at = 950000;
  heartbeat_at = none;
  finished_at = none;
}

-- Three tasks: one in a stage on a node, and two in the queue.
abbrev pub db : Db
db = record {
  tasks =
      task_of 1 "task-1" "h3-node-v1" InternalStatus.running (some "node-2")
      ∷ task_of 2 "task-2" "minimax-v2" queued_locked none
      ∷ task_of 3 "task-3" "minimax-v2" queued_open none
      ∷ [];
  last_queue_seq = 3;
  idempotency = [];
  callbacks = delivery_of "d-1" "task-1" 1 ∷ delivery_of "d-2" "task-3" 1 ∷ [];
  stages = stage_of "stage-1" "task-1" StageStatus.dispatching ∷ [];
  attempts = attempt ∷ [];
  barriers = [];
  nodes = node ∷ [];
  catalogs = catalog ∷ [];
  remote_runs = [];
  spool_files = [];
  upload_jobs = [];
  instance_id = some "proxy-1";
  routing_revision = 1;
}

-- The same tables with a leased stage, and its node in the catalogue.
abbrev pub stage_db : Db
stage_db = record db {
  stages = stage_of "stage-1" "task-1" StageStatus.leased ∷ [];
  attempts = [];
  nodes = record node { id = "node-2"; protocol_version = some "h3-node-v1" } ∷ [];
  catalogs = record catalog { node_id = "node-2" } ∷ [];
}

abbrev pub new_attempt : NewAttempt
new_attempt = record {
  id = "attempt-2";
  stage_id = "stage-1";
  attempt_no = 2;
  operation_id = "op-2";
  node_id = "node-2";
  lease_token = "lease-1";
  execution_id = "";
  status = AttemptStatus.dispatching;
  input_artifact_id = "";
  output_artifact_id = "";
  request_snapshot_json = "";
  error_code = "";
  error_message = "";
  started_at = 0;
  heartbeat_at = 0;
  finished_at = 0;
}

abbrev pub worker : Worker
worker = record {
  max_attempts = 0;
  initial_backoff = 0;
  max_backoff = 0;
  lease_duration = 0;
  is_empty = λ e. true;
}

-- A queued task, and the node that may take it.
abbrev pub claim_db : Db
claim_db = record db {
  tasks = task_of 1 "task-1" "tk2sd-v1" queued_open none ∷ [];
  nodes = record node { id = "node-2"; protocol_version = some "tk2sd-v1" } ∷ [];
  catalogs = record catalog { node_id = "node-2" } ∷ [];
  remote_runs = [];
}
