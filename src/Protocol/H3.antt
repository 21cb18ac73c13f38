-- ===== src/Protocol/H3.antt =====
-- internal/protocol/h3.go, `ValidateCreate`: the request that MiniMax-H3 takes.
use Prim.Native.String.{count}
pub mod Items
pub mod Stable
pub mod Admitted
use minimax_proxy.Protocol.Media.{
  Decoders, Checked, invalid, validate_image_source, validate_video_source, validate_audio_source,
  in_front,
}
use minimax_proxy.Domain.Request.{GenerationRequest, GenerationContent}
use minimax_proxy.Base.{
  ℕ, String, Bool, List, Option, [], after, err, false, first_where, if◌then◌else◌, is_blank,
  is_some, length, ltb, none, not, ok, some, ◌&&◌, ◌+◌, ◌==◌, ◌||◌, ◌∷◌, string_eq, nat_eq,
}

-- The counters of the loop, and the text of the last text item.
pub record Tally : Type 0 where
  pub texts : ℕ
  pub firsts : ℕ
  pub lasts : ℕ
  pub images : ℕ
  pub videos : ℕ
  pub audios : ℕ
  pub prompt : String

abbrev pub empty_tally : Tally
empty_tally = record {
  texts = 0;
  firsts = 0;
  lasts = 0;
  images = 0;
  videos = 0;
  audios = 0;
  prompt = "";
}

-- The item as the loop leaves it, and the counters behind it.
abbrev pub Step : Type 0
Step = Checked (GenerationContent × Tally)

abbrev pub max_text : ℕ
max_text = 14000

unfoldable pub validate_text : GenerationContent → Tally → Step
validate_text item t =
    if item.text == "" || (is_blank item.text || ltb max_text (count item.text))
    then err (invalid "content 必须包含 1 个非空且不超过 14000 字符的 text")
    else if is_some item.image_url
        || (is_some item.video_url || (is_some item.audio_url || not (item.role == "")))
    then err (invalid "text 元素包含不允许的字段")
    else ok (item, record t { texts = t.texts + 1; prompt = item.text })

unfoldable pub count_role : GenerationContent → Tally → Step
count_role item t =
    if item.role == "first_frame"
    then ok (item, record t { firsts = t.firsts + 1 })
    else if item.role == "last_frame"
    then ok (item, record t { lasts = t.lasts + 1 })
    else if item.role == "reference_image"
    then ok (item, record t { images = t.images + 1 })
    else err (invalid "image_url role 无效")

abbrev pub default_role : GenerationContent → GenerationContent
default_role item = if item.role == "" then record item { role = "first_frame" } else item

unfoldable pub validate_image : Decoders → GenerationContent → Tally → Option String → Step
validate_image m item t none = err (invalid "image_url 元素结构无效")
validate_image m item t (some url) =
    if is_some item.video_url || (is_some item.audio_url || not (item.text == ""))
    then err (invalid "image_url 元素结构无效")
    else after (validate_image_source m url) (λ _. count_role (default_role item) t)

abbrev pub video_message : String
video_message = "video_url 必须使用 reference_video role"

unfoldable pub validate_video : Decoders → GenerationContent → Tally → Option String → Step
validate_video m item t none = err (invalid video_message)
validate_video m item t (some url) =
    if is_some item.image_url
      || (is_some item.audio_url || (not (item.text == "") || not (item.role == "reference_video")))
    then err (invalid video_message)
    else after (validate_video_source m url) (λ _. ok (item, record t { videos = t.videos + 1 }))

abbrev pub audio_message : String
audio_message = "audio_url 必须使用 reference_audio role"

unfoldable pub validate_audio : Decoders → GenerationContent → Tally → Option String → Step
validate_audio m item t none = err (invalid audio_message)
validate_audio m item t (some url) =
    if is_some item.image_url
      || (is_some item.video_url || (not (item.text == "") || not (item.role == "reference_audio")))
    then err (invalid audio_message)
    else after (validate_audio_source m url) (λ _. ok (item, record t { audios = t.audios + 1 }))

unfoldable pub validate_item : Decoders → GenerationContent → Tally → Step
validate_item m item t =
    if item.type == "text"
    then validate_text item t
    else if item.type == "image_url"
    then validate_image m item t item.image_url
    else if item.type == "video_url"
    then validate_video m item t item.video_url
    else if item.type == "audio_url"
    then validate_audio m item t item.audio_url
    else err (invalid "content.type 无效")

unfoldable pub validate_items :
    Decoders → List GenerationContent → Tally → Checked (List GenerationContent × Tally)
validate_items m [] t = ok ([], t)
validate_items m (item ∷ items) t =
    after (validate_item m item t) (λ r. in_front r.0 (validate_items m items r.1))

abbrev pub has_frames : Tally → Bool
has_frames t = ltb 0 (t.firsts + t.lasts)

abbrev pub has_references : Tally → Bool
has_references t = ltb 0 (t.images + t.videos + t.audios)

unfoldable pub check_tally : Tally → Checked (Unit {0})
check_tally t =
    if not (t.texts == 1)
    then err (invalid "content 必须包含且只能包含 1 个 text")
    else if ltb 1 t.firsts || ltb 1 t.lasts
    then err (invalid "首帧和尾帧最多各 1 张")
    else if ltb 9 t.images || (ltb 3 t.videos || ltb 3 t.audios)
    then err (invalid "参考媒体数量超过限制")
    else if has_frames t && has_references t
    then err (invalid "图生视频与多模态参考角色互斥")
    else ok tt

-- The scenario and the ratio.
unfoldable pub choose_scenario : Tally → String → Checked (String × String)
choose_scenario t ratio =
    if has_frames t
    then ok ("i2va", "adaptive")
    else if has_references t
    then ok ("r2va", if ratio == "" then "adaptive" else ratio)
    else if ratio == "" || ratio == "adaptive"
    then err (invalid "t2va 的 ratio 必填且不能为 adaptive")
    else ok ("t2va", ratio)

unfoldable pub valid_ratio : String → Bool
valid_ratio r =
    r == "adaptive"
    || (r == "21:9" || (r == "16:9" || (r == "4:3" || (r == "1:1" || (r == "3:4" || r == "9:16")))))

pub record Dimension : Type 0 where
  pub width : ℕ
  pub height : ℕ

-- The configured profiles by resolution, each with its dimensions by ratio.
abbrev pub Profiles : Type 0
Profiles = List (String × List (String × Dimension))

abbrev pub key_is : {A : Type 0} → String → String × A → Bool
key_is k entry = entry.0 == k

abbrev pub dimension_in : Option (String × Dimension) → Checked Dimension
dimension_in none = err (invalid "ratio 未配置尺寸映射")
dimension_in (some (k, d)) = ok d

abbrev pub dimension_of : Option (String × List (String × Dimension)) → String → Checked Dimension
dimension_of none ratio = err (invalid "resolution 仅支持 480P、768P 或 2K")
dimension_of (some (k, dimensions)) ratio = dimension_in (first_where (key_is ratio) dimensions)

-- Without profiles width and height stay 0.
unfoldable pub find_dimension : Option Profiles → String → String → Checked Dimension
find_dimension none resolution ratio = ok (record { width = 0; height = 0 })
find_dimension (some profiles) resolution ratio =
    dimension_of (first_where (key_is resolution) profiles) ratio

pub record ValidatedRequest : Type 0 where
  pub request : GenerationRequest
  pub scenario : String
  pub prompt : String
  pub width : ℕ
  pub height : ℕ
  pub input_image_count : ℕ

-- Behind the loop.
unfoldable pub finish_request :
    Option Profiles → GenerationRequest → List GenerationContent → Tally → Checked ValidatedRequest
finish_request profiles r items t = after (check_tally t) λ _.
    after (choose_scenario t r.ratio) λ chosen.
      if valid_ratio chosen.1
      then after (find_dimension profiles r.resolution chosen.1) (λ d. ok (record {
        request = record r { content = items; ratio = chosen.1 };
        scenario = chosen.0;
        prompt = t.prompt;
        width = d.width;
        height = d.height;
        input_image_count = t.firsts + t.lasts + t.images;
      }))
      else err (invalid "ratio 无效")

abbrev pub blank_callback : Option String → Bool
blank_callback none = false
blank_callback (some url) = is_blank url

-- The checks in front of the loop.
unfoldable pub check_request : GenerationRequest → Checked (Unit {0})
check_request r =
    if not (r.model == "MiniMax-H3")
    then err (invalid "model 仅支持 MiniMax-H3")
    else if ltb (length r.content) 1 || ltb 16 (length r.content)
    then err (invalid "content 数量必须为 1-16")
    else if ltb r.duration 4 || ltb 15 r.duration
    then err (invalid "duration 必须为 4-15 的整数")
    else if blank_callback r.callback_url
    then err (invalid "callback_url 不能为空")
    else ok tt

unfoldable pub validate_create :
    Decoders → Option Profiles → GenerationRequest → Checked ValidatedRequest
validate_create m profiles r =
    after (check_request r)
      λ _. after (validate_items m r.content empty_tally) (λ v. finish_request profiles r v.0 v.1)
