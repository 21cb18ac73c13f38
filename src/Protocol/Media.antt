-- ===== src/Protocol/Media.antt =====
-- internal/protocol/h3.go: what may stand for an image, a video or a sound. `url.Parse` and the strict
-- Base64 decoder of Go's library are parameters, `Decoders`.
use Prim.Native.String.{len, ◌++◌ as str_append}
use minimax_proxy.Base.{
  ℕ, String, Bool, List, Option, Result, [], cut, err, false, fold, has_prefix, has_text,
  if◌then◌else◌, is_blank, length, ltb, map_err, none, not, ok, reads_as, some, to_lower,
  trim_prefix, ◌&&◌, ◌*◌, ◌+◌, ◌/◌, ◌==◌, ◌^◌, ◌||◌, ◌∷◌, string_eq, nat_eq,
}
use minimax_proxy.Store.Tables.{Bytes}

-- What the program reads of a parsed URL.
pub record Url : Type 0 where
  pub scheme : String
  pub host : String
  pub has_user : Bool
  pub fragment : String

pub record Decoders : Type 0 where
  pub parse_url : String → Option Url
  pub decode_base64 : String → Option Bytes

-- `oversized` is the text with a number of MiB.
pub data InputError : Type 0 where
  invalid : String → InputError
  oversized : String → String → ℕ → InputError
  unsupported_model model_input : InputError

abbrev pub Checked : Type 0 → Type 0
Checked A = Result InputError A

-- `strings.Contains(err.Error(), "类型")`; a number has no such characters.
unfoldable pub names_type : InputError → Bool
names_type (invalid message) = has_text message "类型"
names_type (oversized label unit mebibytes) = has_text label "类型" || has_text unit "类型"
names_type unsupported_model = has_text "模型未配置或未开放" "类型"
names_type model_input = has_text "模型不支持该输入" "类型"

abbrev pub mebibyte : ℕ
mebibyte = 2 ^ 20

abbrev pub max_decoded_image_bytes : ℕ
max_decoded_image_bytes = 30 * mebibyte

abbrev pub max_decoded_video_bytes : ℕ
max_decoded_video_bytes = 50 * mebibyte

abbrev pub max_decoded_audio_bytes : ℕ
max_decoded_audio_bytes = 15 * mebibyte

-- `StdEncoding.EncodedLen`.
abbrev pub encoded_len : ℕ → ℕ
encoded_len n = (n + 2) / 3 * 4

-- The key that the lower-case text is, in a map of media types.
unfoldable pub supported_type : List (String × String) → String → Option String
supported_type [] media_type = none
supported_type ((key, canonical) ∷ rest) media_type =
    let later = supported_type rest media_type in
    if reads_as to_lower media_type key then some canonical else later

abbrev pub malformed : String → InputError
malformed label = invalid (str_append label " Base64 格式无效")

-- What is decoded, and its size.
unfoldable pub within_limit :
    String → ℕ → String → String → Option Bytes → Checked (Option (String × Bytes))
within_limit label max_bytes unit canonical none = err (malformed label)
within_limit label max_bytes unit canonical (some bytes) =
    if ltb max_bytes (length bytes)
    then err (oversized label unit (max_bytes / mebibyte))
    else ok (some (canonical, bytes))

unfoldable pub decode_body :
    Decoders → String → ℕ → String → String → Option String → Checked (Option (String × Bytes))
decode_body m label max_bytes unit body none = err (invalid (str_append label " Base64 类型不支持"))
decode_body m label max_bytes unit body (some canonical) =
    if ltb (encoded_len max_bytes) (len body)
    then err (oversized label unit (max_bytes / mebibyte))
    else within_limit label max_bytes unit canonical (m.decode_base64 body)

-- Behind the comma: the media type and the encoding before the first semicolon.
unfoldable pub decode_parts :
    Decoders
    → String
    → ℕ
    → String
    → List (String × String)
    → String
    → Option (String × String)
    → Checked (Option (String × Bytes))
decode_parts m label max_bytes unit supported body none = err (malformed label)
decode_parts m label max_bytes unit supported body (some (media_type, encoding)) =
    if reads_as fold encoding "base64"
    then decode_body m label max_bytes unit body (supported_type supported media_type)
    else err (malformed label)

unfoldable pub decode_header :
    Decoders
    → String
    → ℕ
    → String
    → List (String × String)
    → Option (String × String)
    → Checked (Option (String × Bytes))
decode_header m label max_bytes unit supported none = err (malformed label)
decode_header m label max_bytes unit supported (some (header, body)) =
    if body == ""
    then err (malformed label)
    else decode_parts m label max_bytes unit supported body (cut (trim_prefix header "data:") ";")

-- `none` where the text is no data URI.
unfoldable pub parse_data_uri :
    Decoders
    → String
    → String
    → ℕ
    → String
    → List (String × String)
    → Checked (Option (String × Bytes))
parse_data_uri m value label max_bytes unit supported =
    if has_prefix value "data:"
    then decode_header m label max_bytes unit supported (cut value ",")
    else ok none

abbrev pub image_types : List (String × String)
image_types =
    ("image/jpeg", "image/jpeg")
    ∷ ("image/jpg", "image/jpeg")
    ∷ ("image/png", "image/png")
    ∷ ("image/webp", "image/webp")
    ∷ []

abbrev pub audio_types : List (String × String)
audio_types =
    ("audio/wav", "audio/wav") ∷ ("audio/mpeg", "audio/mpeg") ∷ ("audio/mp3", "audio/mp3") ∷ []

abbrev pub is_plain_web : Option Url → Bool
is_plain_web none = false
is_plain_web (some u) =
    not (u.host == "") && ((u.scheme == "http" || u.scheme == "https") && not u.has_user)

-- The end of `validateImageSource` and of `validateAccessibleMediaURL`, which differ in the message.
unfoldable pub validate_address : Decoders → String → String → Checked (Unit {0})
validate_address m message value =
    if has_prefix value "mm_file://"
    then (if is_blank (trim_prefix value "mm_file://")
        then err (invalid "mm_file 媒体地址缺少文件标识")
        else ok tt)
    else if is_plain_web (m.parse_url value)
    then ok tt
    else err (invalid message)

abbrev pub parsed : Checked (Option (String × Bytes)) → Checked (Unit {0})
parsed (ok o) = ok tt
parsed (err e) = err e

unfoldable pub validate_image_source : Decoders → String → Checked (Unit {0})
validate_image_source m value =
    if has_prefix value "data:"
    then parsed (parse_data_uri m value "图片" max_decoded_image_bytes "单张" image_types)
    else validate_address m "媒体 URL 必须是无凭据的 HTTP/HTTPS 地址" value

abbrev pub accessible_message : String
accessible_message = "音频视频必须要上传可以访问的url。"

-- An error about the type is reported by another message.
abbrev pub retype : String → InputError → InputError
retype message e = if names_type e then invalid message else e

unfoldable pub validate_video_source : Decoders → String → Checked (Unit {0})
validate_video_source m value =
    if has_prefix value "data:"
    then map_err (retype "视频 Base64 类型仅支持 MP4") (
        parsed (
          parse_data_uri m value "视频" max_decoded_video_bytes "单段"
            (("video/mp4", "video/mp4") ∷ [])))
    else validate_address m accessible_message value

unfoldable pub parse_audio_data_uri : Decoders → String → Checked (Option (String × Bytes))
parse_audio_data_uri m value =
    map_err (retype "音频 Base64 类型仅支持 WAV 或 MP3")
      (parse_data_uri m value "音频" max_decoded_audio_bytes "单段" audio_types)

-- `validateAudioSource` behind the call of `ParseAudioDataURI`.
abbrev pub audio_or_address :
    Decoders → String → Checked (Option (String × Bytes)) → Checked (Unit {0})
audio_or_address m value (ok none) = validate_address m accessible_message value
audio_or_address m value (ok (some d)) = ok tt
audio_or_address m value (err e) = err e

unfoldable pub validate_audio_source : Decoders → String → Checked (Unit {0})
validate_audio_source m value = audio_or_address m value (parse_audio_data_uri m value)

-- The rest of a loop that collects its items.
abbrev pub in_front : {A T : Type 0} → A → Checked (List A × T) → Checked (List A × T)
in_front item (ok (items, t)) = ok (item ∷ items, t)
in_front item (err e) = err e
