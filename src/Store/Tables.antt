-- ===== src/Store/Tables.antt =====
-- The rows of the SQLite tables that the modelled operations use (internal/store/sqlite and the
-- migrations). A nullable column is an `Option`, a 0/1 column a `Bool`, a JSON column the value that
-- its text encodes. Times are Unix seconds in video_tasks and idempotency_keys, else milliseconds.
use minimax_proxy.Base.{ℕ, String, Bool, List, Option}
use minimax_proxy.Domain.Status.{InternalStatus}
use minimax_proxy.Domain.Capability.{ModelCapability, TaskRequirements}
use minimax_proxy.Domain.Request.{GenerationContent}

abbrev pub Bytes : Type 0
Bytes = List ℕ

-- A JSON column whose text may fail to decode into the Go type.
pub data Json (A : Type 0) : Type 0 where
  decoded : A → Json A
  undecodable : String → Json A

pub record RouteSnapshot : Type 0 where
  pub schema_version : ℕ
  pub model : String
  pub protocol_version : String
  pub route_version : ℕ
  pub routing_revision : ℕ
  pub selection_mode : String
  pub parameter_plan : String
  pub normalizer_version : String
  pub requirements : TaskRequirements

-- The columns of video_tasks that only the insert writes.
pub record TaskSpec : Type 0 where
  pub queue_seq : ℕ
  pub task_id : String
  pub api_key_id : String
  pub model : String
  pub scenario : String
  pub request_content : Json (List GenerationContent)
  pub request_hash : String
  pub resolution : String
  pub duration : ℕ
  pub ratio_requested : String
  pub usage_input_image_count : ℕ
  pub callback_url_ciphertext : Option Bytes
  pub callback_url_nonce : Option Bytes
  pub profile_id : Option String
  pub profile_version : Option ℕ
  pub config_snapshot_json : Option String
  pub config_hash : Option String
  pub created_at : ℕ
  pub expires_at : ℕ

-- The columns that the choice of a protocol writes.
pub record TaskRoute : Type 0 where
  pub protocol_version : Option String
  pub route_state : String
  pub routing_snapshot : Option (Json RouteSnapshot)
  pub request_normalizer : String
  pub routing_wait_reason : String

pub record DispatchSnapshot : Type 0 where
  pub node_id : String
  pub node_version : ℕ
  pub protocol_version : String
  pub service_url : String
  pub upstream_model : String

pub record Task : Type 0 where
  pub spec : TaskSpec
  pub open spec use *
  pub route : TaskRoute
  pub open route use *
  pub status : InternalStatus
  pub cancel_locked : Bool
  pub upstream_id : Option String
  pub gradio_event_id : Option String
  pub upstream_job_id : Option String
  pub upstream_slot_active : Bool
  pub upstream_node_version : ℕ
  pub delivery_required : Bool
  pub upstream_jobs_before : List String
  pub official_submission_baseline_saved : Bool
  pub retry_count : ℕ
  pub attempt_started_at : Option ℕ
  pub cancel_requested_at : Option ℕ
  pub gallery_before : Option (List String)
  pub dispatch_snapshot : Option DispatchSnapshot
  pub active_stage_id : Option String
  pub result_internal_url : Option String
  pub result_public_url : Option String
  pub result_artifact_id : Option String
  pub ratio_actual : Option String
  pub usage_total_seconds : ℕ
  pub usage_output_seconds : ℕ
  pub error_code : Option String
  pub error_message : Option String
  pub upstream_feedback_json : Option String
  pub started_at : Option ℕ
  pub finished_at : Option ℕ
  pub updated_at : ℕ
  pub deleted_at : Option ℕ
  pub deletion_state : String
  pub version : ℕ

pub record IdempotencyKey : Type 0 where
  pub api_key_id : String
  pub key_hash : String
  pub request_hash : String
  pub task_id : String
  pub created_at : ℕ
  pub expires_at : ℕ

pub data DeliveryStatus : Type 0 where
  pending sending retry_wait succeeded failed : DeliveryStatus

pub record CallbackDelivery : Type 0 where
  pub id : String
  pub task_id : String
  pub external_status : String
  pub state_version : ℕ
  pub status : DeliveryStatus
  pub attempt_count : ℕ
  pub next_attempt_at : Option ℕ
  pub request_body_hash : String
  pub request_body : Bytes
  pub http_status : Option ℕ
  pub last_error : Option String
  pub lease_expires_at : Option ℕ
  pub created_at : ℕ
  pub updated_at : ℕ
  pub delivered_at : Option ℕ

pub data StageStatus : Type 0 where
  pending leased dispatching running validating succeeded failed cancelled skipped unknown :
      StageStatus

pub record TaskStage : Type 0 where
  pub id : String
  pub task_id : String
  pub stage_order : ℕ
  pub stage_type : String
  pub status : StageStatus
  pub attempt_count : ℕ
  pub max_attempts : ℕ
  pub preferred_node_id : Option String
  pub current_node_id : Option String
  pub input_artifact_id : Option String
  pub output_artifact_id : Option String
  pub config_snapshot_json : String
  pub lease_token : Option String
  pub lease_expires_at : Option ℕ
  pub next_attempt_at : Option ℕ
  pub error_code : Option String
  pub error_message : Option String
  pub created_at : ℕ
  pub updated_at : ℕ
  pub started_at : Option ℕ
  pub finished_at : Option ℕ
  pub row_version : ℕ

pub data AttemptStatus : Type 0 where
  dispatching running validating succeeded failed unknown : AttemptStatus

pub record StageAttempt : Type 0 where
  pub id : String
  pub stage_id : String
  pub attempt_no : ℕ
  pub operation_id : String
  pub node_id : String
  pub execution_id : Option String
  pub status : AttemptStatus
  pub input_artifact_id : Option String
  pub output_artifact_id : Option String
  pub request_snapshot_json : Option String
  pub error_code : Option String
  pub error_message : Option String
  pub started_at : ℕ
  pub heartbeat_at : Option ℕ
  pub finished_at : Option ℕ

pub record DispatchBarrier : Type 0 where
  pub node_id : String
  pub task_id : String
  pub stage_id : String
  pub attempt_id : String
  pub operation_id : String
  pub execution_id : Option String
  pub cancel_operation_id : String
  pub last_error_code : Option String
  pub retry_count : ℕ
  pub next_retry_at : ℕ
  pub created_at : ℕ
  pub updated_at : ℕ
  pub row_version : ℕ

pub record ModelNode : Type 0 where
  pub id : String
  pub protocol_version : Option String
  pub service_url : String
  pub api_key_fingerprint : Option String
  pub upstream_model : String
  pub max_concurrency : ℕ
  pub replace_result_url : Bool
  pub legacy_model_compat : Bool
  pub enabled : Bool
  pub version : ℕ
  pub deleted_at : Option ℕ

-- A row of node_models.
pub record NodeModel : Type 0 where
  pub model_id : String
  pub enabled : Bool
  pub present : Bool
  pub verified : Bool
  pub capabilities : Json ModelCapability

-- A row of node_model_catalogs, with the node's models in the order of their identifiers.
pub record ModelCatalog : Type 0 where
  pub node_id : String
  pub source : String
  pub connection_fingerprint : String
  pub last_success_at : Option ℕ
  pub valid_until : Option ℕ
  pub items : List NodeModel

pub data RemotePhase : Type 0 where
  preparing prepared submit_intent submitted terminal : RemotePhase

-- A row of task_remote_runs.
pub record RemoteRun : Type 0 where
  pub task_id : String
  pub node_id : String
  pub phase : RemotePhase
  pub submission_key : String
  pub request_body_json : Option String
  pub request_body_hash : Option String
  pub upstream_task_id : Option String
  pub upstream_status : Option String
  pub cancel_state : String
  pub reconciliation_required : Bool
  pub submit_attempts : ℕ
  pub lease_token : Option String
  pub lease_expires_at : Option ℕ
  pub next_poll_at : Option ℕ
  pub last_error_code : String
  pub created_at : ℕ
  pub updated_at : ℕ

pub record SpoolFile : Type 0 where
  pub id : String
  pub task_id : String
  pub content_index : ℕ
  pub content_type : String
  pub role : String
  pub source_kind : String
  pub declared_mime : Option String
  pub detected_mime : Option String
  pub media_type : String
  pub extension : String
  pub relative_path : String
  pub object_url : Option String
  pub size_bytes : ℕ
  pub sha256 : String
  pub created_at : ℕ
  pub updated_at : ℕ

pub data UploadStatus : Type 0 where
  pending uploading retry_wait succeeded failed : UploadStatus

-- A row of result_upload_jobs.
pub record UploadJob : Type 0 where
  pub id : String
  pub task_id : String
  pub object_key : String
  pub status : UploadStatus
  pub round_no : ℕ
  pub attempt_no : ℕ
  pub max_attempts : ℕ
  pub next_attempt_at : Option ℕ
  pub lease_token : Option String
  pub lease_expires_at : Option ℕ
  pub public_url : String
  pub last_error_code : String
  pub last_error_message : String
  pub bytes_uploaded : ℕ
  pub started_at : Option ℕ
  pub finished_at : Option ℕ
  pub created_at : ℕ
  pub updated_at : ℕ
  pub version : ℕ
