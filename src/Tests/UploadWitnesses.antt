-- ===== src/Tests/UploadWitnesses.antt =====
-- The theorems on upload jobs at concrete ones.
use minimax_proxy.Tests.Samples.{env, db}
use minimax_proxy.Tests.Requests.{upload_job, upload_worker, slow_download}
use minimax_proxy.Store.Db.{Db, Env}
use minimax_proxy.Store.Uploads.Sound.{AllSound}
use minimax_proxy.Store.Uploads.History.{UploadCall, upload_run, upload_run-AllSound}
use minimax_proxy.Store.Uploads.Budget.{attempts_left, claims_in, upload_run-attempts_left}
use minimax_proxy.ResultDelivery.{process_upload}
use minimax_proxy.ResultDelivery.Settled.{Ends, process_upload-Ends}
use minimax_proxy.Base.{List, [], ◌∷◌, refl, true, ◌≡◌, ◌+◌, arith}

abbrev upload_db : Db
upload_db = record db { upload_jobs = upload_job ∷ [] }

-- A worker claims the job and loses it, another one finishes it.
abbrev worker_calls : List (Env × UploadCall)
worker_calls =
    (env, UploadCall.claim "lease-1" 60000)
    ∷ (env, UploadCall.fail "upload-1" "lease-1" "result_download_failed" "…" true 900)
    ∷ (env, UploadCall.claim "lease-2" 60000)
    ∷ (env, UploadCall.complete "upload-1" "lease-2" "https://cdn.example.com/task-1.mp4" 12)
    ∷ []

upload_db-AllSound : AllSound upload_db
upload_db-AllSound = (
  record {
    three = refl;
    attempts = omega arith;
    round = omega arith;
    begun = λ h. absurd (cc);
    leased = refl;
  },
  tt,
)

upload_run-AllSound_example : AllSound (upload_run worker_calls upload_db)
upload_run-AllSound_example = upload_run-AllSound worker_calls upload_db upload_db-AllSound

upload_run-attempts_left_example :
    claims_in worker_calls upload_db + attempts_left (upload_run worker_calls upload_db).upload_jobs
    ≡ attempts_left upload_db.upload_jobs
upload_run-attempts_left_example =
    upload_run-attempts_left worker_calls upload_db (refl, (refl, (refl, (refl, tt))))

process_upload-Ends_example :
    Ends slow_download "upload-1" upload_db
      (process_upload env upload_worker slow_download "lease-1" upload_job upload_db)
process_upload-Ends_example =
    process_upload-Ends env upload_worker slow_download "lease-1" upload_job upload_db
