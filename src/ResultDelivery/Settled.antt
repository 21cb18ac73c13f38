-- ===== src/ResultDelivery/Settled.antt =====
-- Where a run of the worker leaves its job.
use minimax_proxy.Store.Tables.{UploadJob, Task}
use minimax_proxy.Store.Db.{Db, Env, Error}
use minimax_proxy.Store.Uploads.{
  has_id, is_uploading, fail_delivered_task, get_result_upload_source, upload_source,
}
use minimax_proxy.Store.Uploads.Ends.{
  holds_lease, may_retry, failed_attempt, end_attempt, fail_result_upload_attempt, uploaded_row,
  store_delivery, complete_result_upload, awaits_delivery,
}
use minimax_proxy.Store.Uploads.Claims.{fail_delivered_task-uploads, event-uploads}
use minimax_proxy.ResultDelivery
use minimax_proxy.ResultDelivery.{
  Worker, Outside, Progress, settled, interrupted, Outcome, done, lost, StorageFailure,
  DownloadFailure, process_upload, with_source, with_store, after_download, store_upload,
  fail_object_store, backoff_of,
}
use minimax_proxy.Base.{
  ok, err, ℕ, String, All, All-updated, Bool, Bool-cases, List, Option, ap, arith, eq_iff, false,
  first_where, first_where_holds, inl, inr, none, ok_inj, ok≢err, refl, some, subst, sym, true,
  update_where, ◌∙◌, ◌≡◌, Result, and_then, count_where, settle_ok, ◌==◌, string_eq, nat_eq, not,
  ◌+◌, ◌||◌, coalesce, is_some, settle_err, ◌&&◌, if_cases,
}
use minimax_proxy.Callback.{milliseconds}

-- No worker is at the job: it waits for a retry, or has failed, or has succeeded.
abbrev pub Released : String → List UploadJob → Type 0
Released id jobs = All (λ j. has_id id j ≡ true → is_uploading j.status ≡ false) jobs

failed_attempt-released :
    (env : Env) (code message : String) (again : Bool) (next : ℕ) (j : UploadJob)
    → is_uploading (failed_attempt env code message again next j).status ≡ false
unfolding failed_attempt
failed_attempt-released env code message true next j = refl
failed_attempt-released env code message false next j = refl

uploaded_row-released :
    (env : Env) (url : String) (bytes : ℕ) (j : UploadJob)
    → is_uploading (uploaded_row env url bytes j).status ≡ false
unfolding uploaded_row
uploaded_row-released env url bytes j = refl

-- An update of the rows of the job, after which they are not uploading.
update-Released :
    (id : String) (j : UploadJob) (f : UploadJob → UploadJob) (jobs : List UploadJob)
    → j.id ≡ id
    → ((x : UploadJob) → is_uploading (f x).status ≡ false)
    → Released id (update_where (has_id j.id) f jobs)
update-Released id j f jobs e h =
    All-updated _ (has_id j.id) f jobs (λ x k l. h x)
      (λ x k l. absurd (let m : has_id id x ≡ false = ap (λ z. has_id z x) (sym e) ∙ k in cc))

held_id :
    (id lease : String) (jobs : List UploadJob) (j : UploadJob)
    → first_where (holds_lease id lease) jobs ≡ some j
    → j.id ≡ id
held_id id lease jobs j e =
    let h = first_where_holds (holds_lease id lease) jobs j e in (eq_iff j.id id).0 (ground arith)

ended :
    (id : String) (jobs : List UploadJob) (r : Db × Result Error (Unit {0})) (db' : Db)
    → r ≡ (db', ok tt)
    → r.0.upload_jobs ≡ jobs
    → Released id jobs
    → Released id db'.upload_jobs
ended id jobs r db' h e free =
    subst (Released id) (sym e ∙ ap (λ (q : Db × Result Error (Unit {0})). q.0.upload_jobs) h) free

end_attempt-Released :
    (env : Env) (id lease code message : String) (retryable : Bool) (next : ℕ)
    (o : Option UploadJob) (db db' : Db)
    → first_where (holds_lease id lease) db.upload_jobs ≡ o
    → end_attempt env code message retryable next o db ≡ (db', ok tt)
    → Released id db'.upload_jobs
unfolding end_attempt
end_attempt-Released env id lease code message retryable next none db db' e h = absurd (ok≢err h)
end_attempt-Released env id lease code message retryable next (some j) db db' e h =
    let same = held_id id lease db.upload_jobs j e in
    let free = λ (again : Bool).
      update-Released id j (failed_attempt env code message again next) db.upload_jobs same
        (failed_attempt-released env code message again next) in
    elim (Bool-cases (may_retry retryable j)) [
      | inl r ↦ subst (λ (s : Db). Released id s.upload_jobs) (ok_inj (rw r at h)).0 (free true)
      | inr r ↦
          ended id _ (fail_delivered_task env j.task_id message env.now_millis _) db' (rw r at h)
            (fail_delivered_task-uploads env j.task_id message env.now_millis _) (free false)
    ]

store_delivery-Released :
    (env : Env) (id lease url : String) (bytes : ℕ) (o : Option UploadJob) (db db' : Db)
    → first_where (holds_lease id lease) db.upload_jobs ≡ o
    → store_delivery env url bytes o db ≡ (db', ok tt)
    → Released id db'.upload_jobs
unfolding store_delivery
store_delivery-Released env id lease url bytes none db db' e h = absurd (ok≢err h)
store_delivery-Released env id lease url bytes (some j) db db' e h =
    let free =
      update-Released id j (uploaded_row env url bytes) db.upload_jobs
        (held_id id lease db.upload_jobs j e) (uploaded_row-released env url bytes) in
    elim (Bool-cases (count_where (awaits_delivery j.task_id) db.tasks == 1)) [
      | inl one ↦
          ended id _ _ db' (rw one at h) (event-uploads env j.task_id "succeeded" env.now_millis _)
            free
      | inr one ↦ absurd (ok≢err (rw one at h))
    ]

fail_attempt-Released :
    (env : Env) (id lease code message : String) (retryable : Bool) (next : ℕ) (db db' : Db)
    → fail_result_upload_attempt env id lease code message retryable next db ≡ (db', ok tt)
    → Released id db'.upload_jobs
unfolding fail_result_upload_attempt
fail_attempt-Released env id lease code message retryable next db db' h =
    end_attempt-Released env id lease code message retryable next _ db db' refl
      (settle_ok db db' _ tt h)

complete-Released :
    (env : Env) (id lease url : String) (bytes : ℕ) (db db' : Db)
    → complete_result_upload env id lease url bytes db ≡ (db', ok tt)
    → Released id db'.upload_jobs
unfolding complete_result_upload
complete-Released env id lease url bytes db db' h =
    store_delivery-Released env id lease url bytes _ db db' refl (settle_ok db db' _ tt h)

fail_attempt_err :
    (env : Env) (id lease code message : String) (retryable : Bool) (next : ℕ) (db s : Db)
    (e : Error)
    → fail_result_upload_attempt env id lease code message retryable next db ≡ (s, err e)
    → s ≡ db
unfolding fail_result_upload_attempt
fail_attempt_err env id lease code message retryable next db s e h =
    settle_err db s
      (end_attempt env code message retryable next
        (first_where (holds_lease id lease) db.upload_jobs) db)
      e h

complete_err :
    (env : Env) (id lease url : String) (bytes : ℕ) (db s : Db) (e : Error)
    → complete_result_upload env id lease url bytes db ≡ (s, err e)
    → s ≡ db
unfolding complete_result_upload
complete_err env id lease url bytes db s e h =
    settle_err db s
      (store_delivery env url bytes (first_where (holds_lease id lease) db.upload_jobs) db) e h

-- Where a run leaves the database: the job is settled and released, or the context was cancelled, or
-- the error of a write is returned; in the last two cases nothing is written.
abbrev pub Ends : Outside → String → Db → Db × Result Error Progress → Type 0
Ends o id db (s, ok settled) = Released id s.upload_jobs
Ends o id db (s, ok interrupted) = (o.cancelled ≡ true) × (s ≡ db)
Ends o id db (s, err e) = s ≡ db

-- A write of the worker, behind which it reports that the job is settled.
reported :
    (o : Outside) (id : String) (db : Db) (r : Db × Result Error (Unit {0}))
    → ((s : Db) → r ≡ (s, ok tt) → Released id s.upload_jobs)
    → ((s : Db) (e : Error) → r ≡ (s, err e) → s ≡ db)
    → Ends o id db (and_then r (λ _ s. (s, ok settled)))
reported o id db (s, ok u) k l = k s refl
reported o id db (s, err e) k l = l s e refl

source-same : (task_id : String) (db : Db) → (get_result_upload_source task_id db).0 ≡ db
unfolding get_result_upload_source
source-same task_id db =
    go (first_where (λ t. t.task_id == task_id && not (is_some t.deleted_at)) db.tasks)
  where
    go : (x : Option Task) → (upload_source x db).0 ≡ db
    go none = refl
    go (some t) = elim (Bool-cases (coalesce t.result_internal_url "" == "")) [
      | inl e ↦ rw e refl
      | inr e ↦ rw e refl
    ]

module _ (env : Env) (w : Worker) (o : Outside) (lease : String) (j : UploadJob) (db : Db) where
  fail-Ends :
      (code message : String) (retryable : Bool)
      → Ends o j.id db (ResultDelivery.fail env w o lease j code message retryable db)
  unfolding ResultDelivery.fail
  fail-Ends code message retryable =
      let next = milliseconds (w.now + backoff_of j.attempt_no) in
      if_cases (Ends o j.id db) o.cancelled _ _ (λ e. (e, refl))
        (λ e.
          reported o j.id db
            (fail_result_upload_attempt env j.id lease code message retryable next db)
            (λ s k. fail_attempt-Released env j.id lease code message retryable next db s k)
            (λ s x k. fail_attempt_err env j.id lease code message retryable next db s x k))

  fail_object_store-Ends :
      (e : StorageFailure) → Ends o j.id db (fail_object_store env w o lease j e db)
  unfolding fail_object_store
  fail_object_store-Ends (StorageFailure.storage_error code message retryable) =
      fail-Ends code message retryable
  fail_object_store-Ends StorageFailure.unknown = fail-Ends _ _ true

  store_upload-Ends :
      (bytes : ℕ) (u : Outcome StorageFailure String)
      → Ends o j.id db (store_upload env w o lease j bytes u db)
  unfolding store_upload
  store_upload-Ends bytes (lost e) = fail_object_store-Ends e
  store_upload-Ends bytes (done url) =
      reported o j.id db (complete_result_upload env j.id lease url bytes db)
        (λ s k. complete-Released env j.id lease url bytes db s k)
        (λ s x k. complete_err env j.id lease url bytes db s x k)

  after_download-Ends :
      (d : Outcome DownloadFailure ℕ) → Ends o j.id db (after_download env w o lease j d db)
  unfolding after_download
  after_download-Ends (lost e) = fail-Ends _ _ _
  after_download-Ends (done bytes) = store_upload-Ends bytes o.upload

  with_store-Ends :
      (u : Outcome StorageFailure (Unit {0})) → Ends o j.id db (with_store env w o lease j u db)
  unfolding with_store
  with_store-Ends (lost e) = fail_object_store-Ends e
  with_store-Ends (done u) =
      if_cases (Ends o j.id db) o.temporary_file _ _ (λ e. after_download-Ends o.download)
        (λ e. fail-Ends "temporary_file_failed" "创建上传临时文件失败" true)

  with_source-Ends :
      (r : Db × Result Error String) → r.0 ≡ db → Ends o j.id db (with_source env w o lease j r)
  unfolding with_source
  with_source-Ends (s, err e) h =
      subst (λ (z : Db). Ends o j.id db (with_source env w o lease j (z, err e))) (sym h)
        (fail-Ends _ _ false)
  with_source-Ends (s, ok url) h =
      subst (λ (z : Db). Ends o j.id db (with_source env w o lease j (z, ok url))) (sym h)
        (if_cases (Ends o j.id db) (not o.storage_configured) _ _
          (λ e. fail-Ends "object_storage_not_configured" "对象存储配置不可用" false)
          (λ e.
            if_cases (Ends o j.id db) (not o.public_key_opens || not o.private_key_opens) _ _
              (λ f. fail-Ends "object_storage_secret_invalid" "对象存储密钥解密失败" false)
              (λ f. with_store-Ends o.object_store)))

  -- Whatever the secrets, the storage and the download answer, and whatever happened to the database
  -- since the claim: a run reports its job as settled only when no worker is at the job any more; a
  -- run that the context interrupts, and one whose write fails, leave the database as it is.
  pub process_upload-Ends : Ends o j.id db (process_upload env w o lease j db)
  unfolding process_upload
  process_upload-Ends =
      with_source-Ends (get_result_upload_source j.task_id db) (source-same j.task_id db)
