-- ===== src/Store/Uploads/History.antt =====
-- Any sequence of the operations on result_upload_jobs.
use minimax_proxy.Store.Db.{Db, Env}
use minimax_proxy.Store.Uploads.{
  create_result_upload_job, claim_result_upload_job, recover_exhausted,
}
use minimax_proxy.Store.Uploads.Ends.{
  fail_result_upload_attempt, retry_result_upload, complete_result_upload,
}
use minimax_proxy.Store.Uploads.Claims.{then_uploads, settle_uploads}
use minimax_proxy.Store.Uploads.Sound.{
  AllSound, IsSound, create-AllSound, recover_exhausted-AllSound, claim_due-AllSound,
  end_attempt-AllSound, retry-AllSound, store_delivery-AllSound,
}
use minimax_proxy.Base.{ℕ, String, All, Bool, List, [], ◌∷◌}

-- A call of an operation that writes result_upload_jobs, with its arguments.
pub data UploadCall : Type 0 where
  create : String → String → String → UploadCall
  claim : String → ℕ → UploadCall
  fail : String → String → String → String → Bool → ℕ → UploadCall
  retry : String → UploadCall
  complete : String → String → String → ℕ → UploadCall

unfoldable pub upload_step : Env → UploadCall → Db → Db
upload_step env (create id task_id key) db = (create_result_upload_job env id task_id key db).0
upload_step env (claim lease duration) db = (claim_result_upload_job env lease duration db).0
upload_step env (UploadCall.fail id lease code message retryable next) db =
    (fail_result_upload_attempt env id lease code message retryable next db).0
upload_step env (retry task_id) db = (retry_result_upload env task_id db).0
upload_step env (complete id lease url bytes) db =
    (complete_result_upload env id lease url bytes db).0

unfoldable pub upload_run : List (Env × UploadCall) → Db → Db
upload_run [] db = db
upload_run ((env, c) ∷ cs) db = upload_run cs (upload_step env c db)

claim-AllSound :
    (env : Env) (lease : String) (duration : ℕ) (db : Db)
    → AllSound db
    → AllSound (claim_result_upload_job env lease duration db).0
unfolding claim_result_upload_job
claim-AllSound env lease duration db h =
    then_uploads (All IsSound) (recover_exhausted env db) _ (recover_exhausted-AllSound env db h)
      (λ a s k. claim_due-AllSound env lease duration s k)

upload_step-AllSound :
    (env : Env) (c : UploadCall) (db : Db) → AllSound db → AllSound (upload_step env c db)
unfolding upload_step fail_result_upload_attempt complete_result_upload
upload_step-AllSound env (create id task_id key) db h = create-AllSound env id task_id key db h
upload_step-AllSound env (claim lease duration) db h = claim-AllSound env lease duration db h
upload_step-AllSound env (UploadCall.fail id lease code message retryable next) db h =
    settle_uploads (All IsSound) db _ h
      (end_attempt-AllSound env code message retryable next _ db h)
upload_step-AllSound env (retry task_id) db h = retry-AllSound env task_id db h
upload_step-AllSound env (complete id lease url bytes) db h =
    settle_uploads (All IsSound) db _ h (store_delivery-AllSound env url bytes _ db h)

-- Whatever is called, and however the workers fail, every upload job keeps to three attempts a
-- round, has been tried while it is uploading, and holds a lease then and only then.
pub upload_run-AllSound :
    (calls : List (Env × UploadCall)) (db : Db) → AllSound db → AllSound (upload_run calls db)
unfolding upload_run
upload_run-AllSound [] db h = h
upload_run-AllSound ((env, c) ∷ calls) db h =
    upload_run-AllSound calls (upload_step env c db) (upload_step-AllSound env c db h)
