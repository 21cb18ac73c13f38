-- ===== src/Store/Details.antt =====
-- store.go, `Create`, and input_spool_store.go: the stages and the input files of a new task.
use Prim.Native.Char.{code}
use Prim.Native.String.{len, count, slice}
use minimax_proxy.Base.{
  Bool, List, Option, String, [], any, err, false, if◌then◌else◌, leb, ltb, none, not, null_empty,
  ok, reads_as, return, some, to_lower, true, ℕ, ◌&&◌, ◌*◌, ◌++◌, ◌==◌, ◌>>◌, ◌||◌, ◌∷◌, string_eq,
  nat_eq,
}
use minimax_proxy.Protocol.Media.{Decoders, Url}
use minimax_proxy.Store.Db.{Db, Env, Error, M, now_unix}
use minimax_proxy.Store.NewTasks.{has_task_id}
use minimax_proxy.Store.Routes.{InputSpoolFile, NewTaskStage}
use minimax_proxy.Store.Tables.{SpoolFile, StageStatus, TaskStage}

unfoldable pub new_stage : String → ℕ → NewTaskStage → TaskStage
new_stage task_id now s = record {
  id = s.id;
  task_id = task_id;
  stage_order = s.stage_order;
  stage_type = s.stage_type;
  status = StageStatus.pending;
  attempt_count = 0;
  max_attempts = s.max_attempts;
  preferred_node_id = none;
  current_node_id = none;
  input_artifact_id = none;
  output_artifact_id = none;
  config_snapshot_json = s.config_snapshot_json;
  lease_token = none;
  lease_expires_at = none;
  next_attempt_at = none;
  error_code = none;
  error_message = none;
  created_at = now;
  updated_at = now;
  started_at = none;
  finished_at = none;
  row_version = 1;
}

abbrev pub is_stage_type : String → Bool
is_stage_type t =
    t == "generation"
    || (t == "interpolation"
        || (t == "restoration" || (t == "watermark" || t == "final_validation")))

-- The keys and the checks of task_stages.
abbrev pub breaks_stage : Env → String → NewTaskStage → Db → Bool
breaks_stage env task_id s db =
    any
      (λ (x : TaskStage). x.id == s.id || (x.task_id == task_id && x.stage_order == s.stage_order))
      db.stages
    || (not (is_stage_type s.stage_type) || not (env.json_valid s.config_snapshot_json))

abbrev pub is_invalid_stage : NewTaskStage → Bool
is_invalid_stage s =
    s.id == "" || (s.stage_type == "" || (s.config_snapshot_json == "" || ltb s.max_attempts 1))

unfoldable pub insert_stage : Env → String → NewTaskStage → M (Unit {0})
insert_stage env task_id s db =
    if is_invalid_stage s
    then (db, err Error.invalid_stage)
    else if breaks_stage env task_id s db
    then (db, err Error.constraint)
    else (record db { stages = db.stages ++ new_stage task_id (now_unix env * 1000) s ∷ [] }, ok tt)

unfoldable pub insert_stages : Env → String → List NewTaskStage → M (Unit {0})
insert_stages env task_id [] = return tt
insert_stages env task_id (s ∷ stages) =
    insert_stage env task_id s >> insert_stages env task_id stages

abbrev pub is_hex_digit : ℕ → Bool
is_hex_digit c =
    (leb b'0' c && leb c b'9') || ((leb b'a' c && leb c b'f') || (leb b'A' c && leb c b'F'))

-- `hex.DecodeString` of a text of even length.
unfoldable pub is_hex : String → Bool
is_hex String.[] = true
is_hex (String.◌∷◌ c s) = is_hex_digit (code c) && is_hex s

abbrev pub is_object_url : Option Url → Bool
is_object_url none = false
is_object_url (some u) =
    u.scheme == "https" && (not (u.host == "") && (not u.has_user && u.fragment == ""))

-- `validateInputSpoolFile`.
unfoldable pub valid_spool_file : Decoders → InputSpoolFile → Bool
valid_spool_file m f =
    not (
      f.id == ""
      || (f.task_id == ""
          || (f.role == ""
              || (f.media_type == ""
                  || (f.extension == "" || (f.relative_path == "" || f.size_bytes == 0))))))
    && (len f.sha256 == 64
        && (is_hex f.sha256
            && ((f.content_type == "image_url"
                  || (f.content_type == "video_url" || f.content_type == "audio_url"))
                && ((f.source_kind == "" || f.source_kind == "data_uri")
                    && (f.object_url == "" || is_object_url (m.parse_url f.object_url))))))

-- The defaults that `Create` fills in before it validates a file.
abbrev pub with_defaults : String → InputSpoolFile → InputSpoolFile
with_defaults task_id f = record f {
  task_id = if f.task_id == "" then task_id else f.task_id;
  source_kind = if f.source_kind == "" then "data_uri" else f.source_kind;
}

unfoldable pub new_spool_file : ℕ → InputSpoolFile → SpoolFile
new_spool_file now f = record {
  id = f.id;
  task_id = f.task_id;
  content_index = f.content_index;
  content_type = f.content_type;
  role = f.role;
  source_kind = f.source_kind;
  declared_mime = null_empty f.declared_mime;
  detected_mime = null_empty f.detected_mime;
  media_type = f.media_type;
  extension = f.extension;
  relative_path = f.relative_path;
  object_url = null_empty f.object_url;
  size_bytes = f.size_bytes;
  sha256 = f.sha256;
  created_at = now;
  updated_at = now;
}

-- The keys of task_input_spool_files, its task, and the check on object_url: the other checks repeat
-- the validation.
abbrev pub breaks_spool_file : InputSpoolFile → Db → Bool
breaks_spool_file f db =
    any
      (λ (x : SpoolFile).
        x.id == f.id || (x.task_id == f.task_id && x.content_index == f.content_index))
      db.spool_files
    || (not (any (has_task_id f.task_id) db.tasks)
        || not (
            f.object_url == ""
            || (ltb 8 (count f.object_url)
                && reads_as to_lower (slice f.object_url 0 8) "https://")))

unfoldable pub insert_spool_file : Decoders → Env → InputSpoolFile → M (Unit {0})
insert_spool_file m env f db =
    if not (valid_spool_file m f)
    then (db, err Error.invalid_spool_file)
    else if breaks_spool_file f db
    then (db, err Error.constraint)
    else (
      record db { spool_files = db.spool_files ++ new_spool_file (now_unix env * 1000) f ∷ [] },
      ok tt,
    )

unfoldable pub insert_spool_files : Decoders → Env → String → List InputSpoolFile → M (Unit {0})
insert_spool_files m env task_id [] = return tt
insert_spool_files m env task_id (f ∷ files) =
    insert_spool_file m env (with_defaults task_id f) >> insert_spool_files m env task_id files
