-- ===== src/Protocol/Tk2sd.antt =====
-- internal/protocol/tk2sd.go: the request that a tk2sd node takes.
pub mod Stable
use Prim.Native.String.{count, ◌++◌ as str_append}
use minimax_proxy.Protocol.Media.{
  Decoders, Checked, invalid, validate_image_source, validate_video_source, validate_audio_source,
  in_front,
}
use minimax_proxy.Protocol.H3.{max_text, blank_callback}
use minimax_proxy.Domain.Request.{GenerationRequest, GenerationContent, media}
use minimax_proxy.Base.{
  ℕ, String, Bool, List, Option, [], after, err, has_prefix, if◌then◌else◌, is_blank, is_some,
  length, ltb, none, not, ok, some, trim_suffix, ◌&&◌, ◌+◌, ◌==◌, ◌||◌, ◌∷◌, string_eq, nat_eq,
}

pub record Tally : Type 0 where
  pub texts : ℕ
  pub firsts : ℕ
  pub images : ℕ
  pub videos : ℕ
  pub audios : ℕ
  pub prompt : String

abbrev pub empty_tally : Tally
empty_tally = record { texts = 0; firsts = 0; images = 0; videos = 0; audios = 0; prompt = "" }

abbrev pub Step : Type 0
Step = Checked (GenerationContent × Tally)

abbrev pub is_media : GenerationContent → Bool
is_media item = not (item.type == "text")

unfoldable pub take_text : GenerationContent → Tally → Step
take_text item t =
    if is_blank item.text
      || (ltb max_text (count item.text)
          || (not (item.role == "")
              || (is_some item.image_url || (is_some item.video_url || is_some item.audio_url))))
    then err (invalid "text 元素无效")
    else ok (item, record t { texts = t.texts + 1; prompt = item.text })

-- A role that is left out: one image alone is the first frame where the model has that mode.
unfoldable pub fill_role : Bool → ℕ → GenerationContent → GenerationContent
fill_role has_i2va media_count item =
    if item.role == ""
    then (if item.type == "image_url" && (media_count == 1 && has_i2va)
        then record item { role = "first_frame" }
        else record item { role = str_append "reference_" (trim_suffix item.type "_url") })
    else item

unfoldable pub take_image : Decoders → GenerationContent → Tally → String → Step
take_image m item t url =
    if is_some item.video_url || is_some item.audio_url
    then err (invalid "image_url 结构无效")
    else if item.role == "first_frame"
    then after (validate_image_source m url)
        (λ _. ok (item, record t { images = t.images + 1; firsts = t.firsts + 1 }))
    else if item.role == "reference_image"
    then after (validate_image_source m url) (λ _. ok (item, record t { images = t.images + 1 }))
    else err (invalid "tk2sd 不支持该图片角色")

unfoldable pub take_video : Decoders → GenerationContent → Tally → String → Step
take_video m item t url =
    if is_some item.image_url || (is_some item.audio_url || not (item.role == "reference_video"))
    then err (invalid "video_url 结构无效")
    else after (validate_video_source m url) (λ _. ok (item, record t { videos = t.videos + 1 }))

unfoldable pub take_audio : Decoders → GenerationContent → Tally → String → Step
take_audio m item t url =
    if is_some item.image_url || (is_some item.video_url || not (item.role == "reference_audio"))
    then err (invalid "audio_url 结构无效")
    else after (validate_audio_source m url) (λ _. ok (item, record t { audios = t.audios + 1 }))

unfoldable pub take_by_type : Decoders → GenerationContent → Tally → String → Step
take_by_type m item t url =
    if item.type == "image_url"
    then take_image m item t url
    else if item.type == "video_url"
    then take_video m item t url
    else if item.type == "audio_url"
    then take_audio m item t url
    else err (invalid "content.type 无效")

abbrev pub is_node_reference : String → Bool
is_node_reference url =
    has_prefix url "mm_file:" || (has_prefix url "asset:" || has_prefix url "proxy-input:")

unfoldable pub take_media : Decoders → Bool → ℕ → GenerationContent → Tally → Option String → Step
take_media m has_i2va media_count item t none = err (invalid "媒体元素结构无效")
take_media m has_i2va media_count item t (some url) =
    if not (item.text == "")
    then err (invalid "媒体元素结构无效")
    else if is_node_reference url
    then err (invalid "tk2sd 不接受节点专属媒体引用")
    else take_by_type m (fill_role has_i2va media_count item) t url

unfoldable pub take_item : Decoders → Bool → ℕ → GenerationContent → Tally → Step
take_item m has_i2va media_count item t =
    if item.type == "text"
    then take_text item t
    else take_media m has_i2va media_count item t (media item)

unfoldable pub take_items :
    Decoders → Bool → ℕ → List GenerationContent → Tally → Checked (List GenerationContent × Tally)
take_items m has_i2va media_count [] t = ok ([], t)
take_items m has_i2va media_count (item ∷ items) t =
    after (take_item m has_i2va media_count item t)
      (λ r. in_front r.0 (take_items m has_i2va media_count items r.1))

-- The scenario of what the loop counted.
unfoldable pub scenario_of : ℕ → Tally → Checked String
scenario_of media_count t =
    if not (t.texts == 1)
      || (ltb 9 t.images || (ltb 3 t.videos || (ltb 3 t.audios || ltb 12 media_count)))
    then err (invalid "文本或参考媒体数量无效")
    else if ltb 0 t.firsts
    then (if not (t.firsts == 1) || not (media_count == 1)
        then err (invalid "首帧模式仅支持单张图片")
        else ok "i2va")
    else if ltb 0 media_count
    then ok "r2va"
    else ok "t2va"

abbrev pub default_duration : GenerationRequest → GenerationRequest
default_duration r =
    if r.duration == 0 && not r.duration_present then record r { duration = 5 } else r

-- The checks in front of the loop.
unfoldable pub check_request : GenerationRequest → Checked (Unit {0})
check_request r =
    if r.duration == 0
    then err (invalid "duration 必须为正整数")
    else if ltb (length r.content) 1 || ltb 13 (length r.content)
    then err (invalid "content 数量必须为 1-13")
    else if ltb 32 (count r.resolution) || ltb 32 (count r.ratio)
    then err (invalid "resolution 或 ratio 过长")
    else if blank_callback r.callback_url
    then err (invalid "callback_url 不能为空")
    else ok tt
