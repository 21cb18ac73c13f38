-- ===== src/Domain/Request.antt =====
-- internal/domain/generation_request.go: what a client asks for, and the request after a protocol's
-- normaliser. A pointer is an `Option`, a media URL its text. A negative duration, which every
-- normaliser refuses as it refuses 0, is a 0 that is present here.
use minimax_proxy.Base.{ℕ, String, Bool, List, Option, if◌then◌else◌, none, ◌==◌, string_eq, nat_eq}
use minimax_proxy.Domain.Capability.{TaskRequirements}

pub record GenerationContent : Type 0 where
  pub type : String
  pub text : String
  pub image_url : Option String
  pub video_url : Option String
  pub audio_url : Option String
  pub role : String

pub record GenerationRequest : Type 0 where
  pub model : String
  pub content : List GenerationContent
  pub resolution : String
  pub duration : ℕ
  pub ratio : String
  pub callback_url : Option String
  pub aigc_watermark : Option Bool
  pub duration_present : Bool

pub record NormalizedRequest : Type 0 where
  pub request : GenerationRequest
  pub scenario : String
  pub prompt : String
  pub normalizer_version : String
  pub input_image_count : ℕ
  pub requirements : TaskRequirements

-- `GenerationContent.Media`: the URL of the item's own media field.
abbrev pub media : GenerationContent → Option String
media c =
    if c.type == "image_url"
    then c.image_url
    else if c.type == "video_url"
    then c.video_url
    else if c.type == "audio_url"
    then c.audio_url
    else none
