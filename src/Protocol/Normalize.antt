-- ===== src/Protocol/Normalize.antt =====
-- internal/protocol/registry.go: the protocols, their built-in capability, and the normaliser.
pub mod Laws
use Prim.Native.String.{count}
use minimax_proxy.Protocol.Media.{Decoders, Checked, invalid, model_input, unsupported_model}
use minimax_proxy.Protocol.H3.{ValidatedRequest, validate_create}
use minimax_proxy.Protocol.Tk2sd.{
  take_items, empty_tally, Tally, scenario_of, is_media, default_duration, check_request,
}
use minimax_proxy.Domain.Status.{protocol_h3, protocol_official, protocol_tk2sd, protocol_legacy}
use minimax_proxy.Domain.Capability.{
  ModelCapability, ModeCapability, TaskRequirements, accepts, has_mode,
}
use minimax_proxy.Domain.Request.{GenerationRequest, GenerationContent, NormalizedRequest, media}
use minimax_proxy.Base.{
  ℕ, String, Bool, List, Option, [], after, count_where, cut, err, false, first_where, has_text,
  if◌then◌else◌, is_control, is_some, is_space, leb, map, no_rune, none, not, ok, select_where,
  some, true, ◌&&◌, ◌==◌, ◌||◌, ◌∷◌, string_eq, nat_eq, ◌*◌,
}

pub record Definition : Type 0 where
  pub id : String
  pub name : String
  pub model_source : String
  pub parameter_plan : String
  pub creatable : Bool

abbrev pub definition : String → String → String → String → Bool → Definition
definition id name model_source parameter_plan creatable = record {
  id = id;
  name = name;
  model_source = model_source;
  parameter_plan = parameter_plan;
  creatable = creatable;
}

unfoldable pub definitions : List Definition
definitions =
    definition protocol_h3 "H3 内部节点" "builtin" "h3_profile" true
    ∷ definition protocol_official "MiniMax 官方 V2" "manual" "direct" true
    ∷ definition protocol_tk2sd "tk2sd" "discovered" "direct" true
    ∷ definition protocol_legacy "遗留 Gradio" "builtin" "h3_profile" false
    ∷ []

unfoldable pub lookup : String → Option Definition
lookup id = first_where (λ d. d.id == id) definitions

abbrev pub builtin_mode : String → List String → ModeCapability
builtin_mode scenario roles = record {
  scenario = scenario;
  durations = 4 ∷ 5 ∷ 6 ∷ 7 ∷ 8 ∷ 9 ∷ 10 ∷ 11 ∷ 12 ∷ 13 ∷ 14 ∷ 15 ∷ [];
  roles = roles;
}

unfoldable pub builtin_capability : String → ModelCapability
builtin_capability id = record {
  schema_version = 1;
  modes =
      builtin_mode "t2va" []
      ∷ builtin_mode "i2va" ("first_frame" ∷ "last_frame" ∷ [])
      ∷ builtin_mode "r2va" ("reference_image" ∷ "reference_video" ∷ "reference_audio" ∷ [])
      ∷ [];
  input_sources =
      "http" ∷ "https" ∷ "data" ∷ (if id == protocol_official then "mm_file" ∷ [] else []);
  resolution_policy = "required";
  resolutions = if id == protocol_official then "768P" ∷ "2K" ∷ [] else [];
  max_media = 15;
}

-- `ValidModelID`. A text of the model is always valid UTF-8.
unfoldable pub valid_model_id : String → Bool
valid_model_id id =
    leb 1 (count id)
    && (leb (count id) 128
        && (not (has_text id "*") && no_rune (λ c. is_control c || is_space c) id))

abbrev pub before_colon : String → Option (String × String) → String
before_colon url none = url
before_colon url (some (source, rest)) = source

abbrev pub source_of : Option String → List String → List String
source_of none sources = sources
source_of (some url) sources = before_colon url (cut url ":") ∷ sources

abbrev pub media_items : List GenerationContent → List GenerationContent
media_items items = select_where is_media items

unfoldable pub roles_of : List GenerationContent → List String
roles_of items = map (λ (i : GenerationContent). i.role) (media_items items)

unfoldable pub sources_of : List GenerationContent → List String
sources_of [] = []
sources_of (item ∷ items) =
    let rest = sources_of items in if is_media item then source_of (media item) rest else rest

unfoldable pub requirements_of : GenerationRequest → String → TaskRequirements
requirements_of r scenario = record {
  scenario = scenario;
  duration = r.duration;
  resolution = r.resolution;
  media_count = count_where is_media r.content;
  roles = roles_of r.content;
  input_sources = sources_of r.content;
}

unfoldable pub normalized : GenerationRequest → String → String → ℕ → String → NormalizedRequest
normalized r scenario prompt images version = record {
  request = r;
  scenario = scenario;
  prompt = prompt;
  input_image_count = images;
  normalizer_version = version;
  requirements = requirements_of r scenario;
}

-- The last test of both normalisers.
unfoldable pub accepted : ModelCapability → NormalizedRequest → Checked NormalizedRequest
accepted c n = if accepts c n.requirements then ok n else err model_input

abbrev pub finish_tk2sd :
    GenerationRequest → ModelCapability → List GenerationContent → Tally → Checked NormalizedRequest
finish_tk2sd r c items t = after (scenario_of (count_where is_media r.content) t) λ scenario.
    accepted c (normalized (record r { content = items }) scenario t.prompt t.images protocol_tk2sd)

-- `normalizeTK2SD` for a request with its duration filled in.
unfoldable pub normalize_filled :
    Decoders → GenerationRequest → ModelCapability → Checked NormalizedRequest
normalize_filled m r c = after (check_request r) λ _.
    after (take_items m (has_mode c "i2va") (count_where is_media r.content) r.content empty_tally)
      (λ v. finish_tk2sd r c v.0 v.1)

unfoldable pub normalize_tk2sd :
    Decoders → GenerationRequest → ModelCapability → Checked NormalizedRequest
normalize_tk2sd m r c = normalize_filled m (default_duration r) c

abbrev pub default_model : String
default_model = "MiniMax-H3"

-- What `Normalize` makes of a request that `ValidateCreate` took under the name MiniMax-H3.
abbrev pub renamed : String → String → ValidatedRequest → NormalizedRequest
renamed id model v =
    normalized (record v.request { model = model }) v.scenario v.prompt v.input_image_count id

unfoldable pub normalize :
    Decoders → String → GenerationRequest → ModelCapability → Checked NormalizedRequest
normalize m id r c =
    if not (is_some (lookup id))
    then err (invalid "未知节点协议")
    else if not (valid_model_id r.model)
    then err (invalid "model ID 无效")
    else if id == protocol_tk2sd
    then normalize_tk2sd m r c
    else if r.resolution == ""
    then err (invalid "resolution 必填")
    else if not (id == protocol_official) && not (r.model == default_model)
    then err unsupported_model
    else after (validate_create m none (record r { model = default_model }))
        (λ v. accepted c (renamed id r.model v))
