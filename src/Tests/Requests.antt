-- ===== src/Tests/Requests.antt =====
-- Concrete requests, routes and upload jobs for the tests.
use minimax_proxy.Domain.Request.{GenerationContent, GenerationRequest, NormalizedRequest}
use minimax_proxy.Domain.Capability.{ModelCapability}
use minimax_proxy.Protocol.Media.{Decoders}
use minimax_proxy.Protocol.H3.{ValidatedRequest}
use minimax_proxy.Routing.{Service, ModelRoute, RoutingNode, CatalogModel, NodeCatalog, Decision}
use minimax_proxy.Store.Tables.{UploadJob, UploadStatus}
use minimax_proxy.ResultDelivery.{Worker, Outside, done, lost, DownloadFailure}
use minimax_proxy.Tests.Samples.{content}
use minimax_proxy.Protocol.Normalize.{Definition, definition}
use minimax_proxy.Base.{
  ℕ, String, true, false, [], ◌∷◌, List, none, some, ok, ◌==◌, string_eq, nat_eq,
}

abbrev pub decoders : Decoders
decoders = record {
  parse_url = λ s.
      some (record { scheme = "https"; host = "example.com"; has_user = false; fragment = "" });
  decode_base64 = λ s. none;
}

abbrev pub image : String → GenerationContent
image role = record {
  type = "image_url";
  text = "";
  image_url = some "https://example.com/a.png";
  video_url = none;
  audio_url = none;
  role = role;
}

-- A picture without a role.
abbrev pub request_of : String → List GenerationContent → ℕ → String → GenerationRequest
request_of model items duration ratio = record {
  model = model;
  content = items;
  resolution = "768P";
  duration = duration;
  ratio = ratio;
  callback_url = none;
  aigc_watermark = none;
  duration_present = false;
}

abbrev pub h3_request : GenerationRequest
h3_request = request_of "MiniMax-H3" (content ∷ image "" ∷ []) 6 ""

abbrev pub validated : ValidatedRequest
validated = record {
  request = request_of "MiniMax-H3" (content ∷ image "first_frame" ∷ []) 6 "adaptive";
  scenario = "i2va";
  prompt = "a boat at sea";
  width = 0;
  height = 0;
  input_image_count = 1;
}

abbrev pub frame_capability : ModelCapability
frame_capability = record {
  schema_version = 1;
  modes = record { scenario = "i2va"; durations = 5 ∷ []; roles = "first_frame" ∷ [] } ∷ [];
  input_sources = "https" ∷ [];
  resolution_policy = "";
  resolutions = [];
  max_media = 1;
}

-- Neither a duration nor a role.
abbrev pub tk2sd_request : GenerationRequest
tk2sd_request = request_of "wan" (content ∷ image "" ∷ []) 0 ""

abbrev pub tk2sd_normalized : NormalizedRequest
tk2sd_normalized = record {
  request = request_of "wan" (content ∷ image "first_frame" ∷ []) 5 "";
  scenario = "i2va";
  prompt = "a boat at sea";
  normalizer_version = "tk2sd-v1";
  input_image_count = 1;
  requirements = record {
    scenario = "i2va";
    duration = 5;
    resolution = "768P";
    roles = "first_frame" ∷ [];
    input_sources = "https" ∷ [];
    media_count = 1;
  };
}

abbrev pub frame_model : CatalogModel
frame_model = record {
  model_id = "wan";
  enabled = true;
  present = true;
  capabilities = frame_capability;
}

abbrev pub frame_node : RoutingNode
frame_node = record { id = "node-9"; enabled = true; protocol_version = "tk2sd-v1" }

abbrev pub frame_catalog : NodeCatalog
frame_catalog = record {
  source = "discovered";
  last_success_at = 900;
  valid_until = 2000;
  items = frame_model ∷ [];
}

abbrev pub frame_route : ModelRoute
frame_route = record {
  model = "wan";
  protocol_version = "tk2sd-v1";
  selection_mode = "auto";
  version = 4;
  candidates =
      record { protocol_version = "tk2sd-v1"; node_ids = "node-9" ∷ []; healthy_nodes = 1 } ∷ [];
}

abbrev pub service : Service
service = record {
  get_model_route = λ model. ok (frame_route, 7);
  list_model_nodes = ok (frame_node ∷ []);
  get_model_catalog = λ id. ok frame_catalog;
  healthy = some (λ id. id == "node-9");
  now = 1000;
  decoders = decoders;
}

abbrev pub decision : Decision
decision = record {
  normalized = tk2sd_normalized;
  snapshot = record {
    schema_version = 1;
    model = "wan";
    protocol_version = "tk2sd-v1";
    route_version = 4;
    routing_revision = 7;
    selection_mode = "auto";
    parameter_plan = "direct";
    normalizer_version = "tk2sd-v1";
    requirements = tk2sd_normalized.requirements;
  };
}

-- A job that was tried once and waits.
abbrev pub upload_job : UploadJob
upload_job = record {
  id = "upload-1";
  task_id = "task-1";
  object_key = "results/task-1.mp4";
  status = UploadStatus.retry_wait;
  round_no = 1;
  attempt_no = 1;
  max_attempts = 3;
  next_attempt_at = some 5000;
  lease_token = none;
  lease_expires_at = none;
  public_url = "";
  last_error_code = "ucloud_upload_failed";
  last_error_message = "UCloud 上传失败";
  bytes_uploaded = 0;
  started_at = some 2000;
  finished_at = none;
  created_at = 1000;
  updated_at = 4000;
  version = 3;
}

abbrev pub upload_worker : Worker
upload_worker = record { lease_duration = 0; now = 1000000000000 }

-- Everything is there, but the download stops at a deadline.
abbrev pub slow_download : Outside
slow_download = record {
  cancelled = false;
  storage_configured = true;
  public_key_opens = true;
  private_key_opens = true;
  object_store = done tt;
  temporary_file = true;
  download = lost DownloadFailure.deadline_exceeded;
  upload = done "https://cdn.example.com/task-1.mp4";
}

abbrev pub direct : Definition
direct = definition "tk2sd-v1" "tk2sd" "discovered" "direct" true
