-- ===== src/ResultDelivery.antt =====
-- internal/resultdelivery/worker.go: the worker that copies official results into the object storage.
-- What the secrets, the object storage, the temporary files and the download answer is a parameter of
-- a run, `Outside`. Times are nanoseconds; a duration that is not positive is 0 here.
pub mod Settled
use minimax_proxy.Store.Tables.{UploadJob}
use minimax_proxy.Store.Db.{Db, Env, Error, M}
use minimax_proxy.Store.Uploads.{claim_result_upload_job, get_result_upload_source}
use minimax_proxy.Store.Uploads.Ends.{fail_result_upload_attempt, complete_result_upload}
use minimax_proxy.Callback.{milliseconds, second}
use minimax_proxy.Base.{
  ok, err, ℕ, String, Bool, Result, and_then, false, if◌then◌else◌, leb, not, true, ◌*◌, ◌+◌, ◌==◌,
  ◌||◌, string_eq, nat_eq,
}

-- An error of a download, in the order in which `retryableDownload` looks at it: a deadline, a video
-- that is not complete, an answer of tk2sd (temporary or transport, or a status), a `DownloadError`,
-- an error with a method Timeout, or another one.
pub data DownloadFailure : Type 0 where
  deadline_exceeded incomplete_video : DownloadFailure
  upstream : Bool → ℕ → DownloadFailure
  download_error : Bool → DownloadFailure
  timed : Bool → DownloadFailure
  other : DownloadFailure

unfoldable pub retryable_download : DownloadFailure → Bool
retryable_download deadline_exceeded = true
retryable_download incomplete_video = true
retryable_download (upstream temporary status) = temporary || status == 409
retryable_download (download_error retryable) = retryable
retryable_download (timed timeout) = timeout
retryable_download other = false

-- An `objectstore.Error` with its code and message, or another error.
pub data StorageFailure : Type 0 where
  storage_error : String → String → Bool → StorageFailure
  unknown : StorageFailure

pub data Outcome (F A : Type 0) : Type 0 where
  done : A → Outcome F A
  lost : F → Outcome F A

pub record Outside : Type 0 where
  pub cancelled : Bool  -- `ctx.Err() != nil` where a failure is to be written
  pub storage_configured : Bool
  pub public_key_opens : Bool
  pub private_key_opens : Bool
  pub object_store : Outcome StorageFailure (Unit {0})
  pub temporary_file : Bool
  pub download : Outcome DownloadFailure ℕ
  pub upload : Outcome StorageFailure String

pub record Worker : Type 0 where
  pub lease_duration : ℕ
  pub now : ℕ

unfoldable pub lease_of : Worker → ℕ
lease_of w = if w.lease_duration == 0 then 2100 * second else w.lease_duration

-- `backoff[min(job.AttemptNo-1, len(backoff)-1)]`; a claimed job has an attempt.
unfoldable pub backoff_of : ℕ → ℕ
backoff_of attempt =
    if leb attempt 1 then second else if attempt == 2 then 5 * second else 20 * second

-- A run that returns nil, or the error that a cancelled context leaves unwritten.
pub data Progress : Type 0 where
  settled interrupted : Progress

unfoldable pub fail :
    Env → Worker → Outside → String → UploadJob → String → String → Bool → M Progress
fail env w o lease j code message retryable db =
    if o.cancelled
    then (db, ok interrupted)
    else and_then
        (fail_result_upload_attempt env j.id lease code message retryable
          (milliseconds (w.now + backoff_of j.attempt_no)) db)
        (λ _ s. (s, ok settled))

unfoldable pub fail_object_store :
    Env → Worker → Outside → String → UploadJob → StorageFailure → M Progress
fail_object_store env w o lease j (storage_error code message retryable) =
    fail env w o lease j code message retryable
fail_object_store env w o lease j unknown =
    fail env w o lease j "ucloud_upload_failed" "UCloud 上传失败" true

unfoldable pub store_upload :
    Env → Worker → Outside → String → UploadJob → ℕ → Outcome StorageFailure String → M Progress
store_upload env w o lease j bytes (lost e) = fail_object_store env w o lease j e
store_upload env w o lease j bytes (done url) =
    λ db. and_then (complete_result_upload env j.id lease url bytes db) (λ _ s. (s, ok settled))

unfoldable pub after_download :
    Env → Worker → Outside → String → UploadJob → Outcome DownloadFailure ℕ → M Progress
after_download env w o lease j (lost e) =
    fail env w o lease j "result_download_failed" "官方结果视频下载失败" (retryable_download e)
after_download env w o lease j (done bytes) = store_upload env w o lease j bytes o.upload

unfoldable pub with_store :
    Env → Worker → Outside → String → UploadJob → Outcome StorageFailure (Unit {0}) → M Progress
with_store env w o lease j (lost e) db = fail_object_store env w o lease j e db
with_store env w o lease j (done u) db =
    if o.temporary_file
    then after_download env w o lease j o.download db
    else fail env w o lease j "temporary_file_failed" "创建上传临时文件失败" true db

unfoldable pub with_source :
    Env
    → Worker
    → Outside
    → String
    → UploadJob
    → Db × Result Error String
    → Db × Result Error Progress
with_source env w o lease j (db, err e) =
    fail env w o lease j "result_source_missing" "原始结果地址不可用" false db
with_source env w o lease j (db, ok url) =
    if not o.storage_configured
    then fail env w o lease j "object_storage_not_configured" "对象存储配置不可用" false db
    else if not o.public_key_opens || not o.private_key_opens
    then fail env w o lease j "object_storage_secret_invalid" "对象存储密钥解密失败" false db
    else with_store env w o lease j o.object_store db

-- `ProcessOne` behind the claim.
unfoldable pub process_upload : Env → Worker → Outside → String → UploadJob → M Progress
process_upload env w o lease j db =
    with_source env w o lease j (get_result_upload_source j.task_id db)

unfoldable pub process_one : Env → Worker → Outside → String → M Progress
process_one env w o lease db =
    and_then (claim_result_upload_job env lease (milliseconds (lease_of w)) db)
      (λ j. process_upload env w o lease j)
