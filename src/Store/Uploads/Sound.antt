-- ===== src/Store/Uploads/Sound.antt =====
-- The attempts and the lease of an upload job, over any sequence of the operations on it.
use minimax_proxy.Store.Tables.{UploadJob}
use minimax_proxy.Store.Db.{Db, Env, Error}
use minimax_proxy.Store.Tasks.Official.{new_upload}
use minimax_proxy.Store.Uploads.{
  create_result_upload_job, is_uploading, upload_claimable, recover_each, recover_exhausted,
  exhausted_row, claimed_row, claim_due, is_version, fail_delivered_task, has_id, exhausted_message,
  is_failed,
}
use minimax_proxy.Store.Uploads.Ends.{
  failed_attempt, end_attempt, retried_row, retry_result_upload, uploaded_row, store_delivery,
  may_retry, awaits_delivery, failed_upload,
}
use minimax_proxy.Base.{
  ok, err, ℕ, String, All, Bool, Bool-cases, arith, false, inl, inr, is_some, refl, true, ◌<◌, ◌==◌,
  ◌≡◌, ◌≤◌, string_eq, nat_eq, All-update, List, Result, [], ap, count_where, some, subst, sym,
  update_where, ◌&&◌, ◌∷◌, Option, least_where_holds, none, All-append, any, ◌||◌,
}
use minimax_proxy.Store.Uploads.Claims.{
  claim_due_err, claim_due_ok, claimed_had_left, fail_delivered_task-uploads, settle_uploads,
  then_uploads, event-uploads,
}

-- At most three attempts to a round, at least one of them while a worker is at it, and a lease for
-- that time only.
pub record IsSound (j : UploadJob) : Type 0 where
  pub three : j.max_attempts ≡ 3
  pub attempts : j.attempt_no ≤ j.max_attempts
  pub round : 1 ≤ j.round_no
  pub begun : is_uploading j.status ≡ true → 1 ≤ j.attempt_no
  pub leased : is_some j.lease_token ≡ is_uploading j.status

abbrev pub AllSound : Db → Type 0
AllSound db = All IsSound db.upload_jobs

new_upload-IsSound : (id task_id key : String) (now : ℕ) → IsSound (new_upload id task_id key now)
unfolding new_upload
new_upload-IsSound id task_id key now = record {
  three = refl;
  attempts = omega arith;
  round = omega arith;
  begun = λ h. absurd (cc);
  leased = refl;
}

exhausted_row-IsSound : (now : ℕ) (j : UploadJob) → IsSound j → IsSound (exhausted_row now j)
unfolding exhausted_row
exhausted_row-IsSound now j s = record {
  three = s.three;
  attempts = s.attempts;
  round = s.round;
  begun = λ h. absurd (cc);
  leased = refl;
}

claimed_row-IsSound :
    (env : Env) (lease : String) (duration : ℕ) (j : UploadJob)
    → j.attempt_no < j.max_attempts
    → IsSound j
    → IsSound (claimed_row env lease duration j)
unfolding claimed_row
claimed_row-IsSound env lease duration j l s = record {
  three = s.three;
  attempts = omega arith;
  round = s.round;
  begun = λ h. omega arith;
  leased = refl;
}

failed_attempt-IsSound :
    (env : Env) (code message : String) (retry : Bool) (next : ℕ) (j : UploadJob)
    → IsSound j
    → IsSound (failed_attempt env code message retry next j)
unfolding failed_attempt
failed_attempt-IsSound env code message true next j s = record {
  three = s.three;
  attempts = s.attempts;
  round = s.round;
  begun = λ h. absurd (cc);
  leased = refl;
}
failed_attempt-IsSound env code message false next j s = record {
  three = s.three;
  attempts = s.attempts;
  round = s.round;
  begun = λ h. absurd (cc);
  leased = refl;
}

retried_row-IsSound : (env : Env) (j : UploadJob) → IsSound j → IsSound (retried_row env j)
unfolding retried_row
retried_row-IsSound env j s = record {
  three = s.three;
  attempts = omega arith;
  round = omega arith;
  begun = λ h. absurd (cc);
  leased = refl;
}

uploaded_row-IsSound :
    (env : Env) (url : String) (bytes : ℕ) (j : UploadJob)
    → IsSound j
    → IsSound (uploaded_row env url bytes j)
unfolding uploaded_row
uploaded_row-IsSound env url bytes j s = record {
  three = s.three;
  attempts = s.attempts;
  round = s.round;
  begun = λ h. absurd (cc);
  leased = refl;
}

recover_each-AllSound :
    (env : Env) (jobs : List UploadJob) (db : Db)
    → AllSound db
    → AllSound (recover_each env jobs db).0
unfolding recover_each
recover_each-AllSound env [] db h = h
recover_each-AllSound env (j ∷ jobs) db h =
    let written : List UploadJob =
      update_where (has_id j.id) (exhausted_row env.now_millis) db.upload_jobs in
    let sound : All IsSound written =
      All-update IsSound (has_id j.id) (exhausted_row env.now_millis) db.upload_jobs
        (λ x m e s. exhausted_row-IsSound env.now_millis x s) h in
    then_uploads (All IsSound)
      (fail_delivered_task env j.task_id exhausted_message env.now_millis
        (record db { upload_jobs = written }))
      _
      (subst (All IsSound)
        (sym (fail_delivered_task-uploads env j.task_id exhausted_message env.now_millis _)) sound)
      (λ a s k. recover_each-AllSound env jobs s k)

pub recover_exhausted-AllSound :
    (env : Env) (db : Db) → AllSound db → AllSound (recover_exhausted env db).0
unfolding recover_exhausted
recover_exhausted-AllSound env db h =
    settle_uploads (All IsSound) db _ h (recover_each-AllSound env _ db h)

pub claimable_left :
    (now : ℕ) (j : UploadJob) → upload_claimable now j ≡ true → j.attempt_no < j.max_attempts
unfolding upload_claimable
claimable_left now j h = ground arith

pub claim_due-AllSound :
    (env : Env) (lease : String) (duration : ℕ) (db : Db)
    → AllSound db
    → AllSound (claim_due env lease duration db).0
claim_due-AllSound env lease duration db h = go (claim_due env lease duration db) refl
  where
    go : (r : Db × Result Error UploadJob) → claim_due env lease duration db ≡ r → AllSound r.0
    go (s, err e) k = rw (claim_due_err env lease duration db s e k) h
    go (s, ok j) k =
        let c = claim_due_ok env lease duration db s j k in
        let left =
          claimable_left env.now_millis c.chosen
            (least_where_holds _ _ db.upload_jobs c.chosen c.selected) in
        rw (ap (λ (z : Db). z.upload_jobs) c.written) (
          All-update IsSound (is_version c.chosen) (claimed_row env lease duration) db.upload_jobs
            (λ x m e sound.
              claimed_row-IsSound env lease duration x
                (subst (λ (z : UploadJob). z.attempt_no < z.max_attempts)
                  (sym (claimed_had_left c x m e)) left)
                sound)
            h)

pub create-AllSound :
    (env : Env) (id task_id key : String) (db : Db)
    → AllSound db
    → AllSound (create_result_upload_job env id task_id key db).0
unfolding create_result_upload_job
create-AllSound env id task_id key db h =
    elim (Bool-cases (
      any (λ j. j.id == id || (j.task_id == task_id || j.object_key == key)) db.upload_jobs
      || (id == "" || key == ""))) [
        | inl e ↦ rw e h
        | inr e ↦ rw e (
            All-append IsSound db.upload_jobs _ h
              (new_upload-IsSound id task_id key env.now_millis, tt))
      ]

pub end_attempt-AllSound :
    (env : Env) (code message : String) (retryable : Bool) (next : ℕ) (o : Option UploadJob)
    (db : Db)
    → AllSound db
    → AllSound (end_attempt env code message retryable next o db).0
unfolding end_attempt
end_attempt-AllSound env code message retryable next none db h = h
end_attempt-AllSound env code message retryable next (some j) db h =
    let retry = may_retry retryable j in
    let sound : All IsSound
        (update_where (has_id j.id) (failed_attempt env code message retry next) db.upload_jobs) =
      All-update IsSound (has_id j.id) _ db.upload_jobs
        (λ x m e s. failed_attempt-IsSound env code message retry next x s) h in
    elim (Bool-cases (may_retry retryable j)) [
      | inl e ↦ rw e (rw e at sound)
      | inr e ↦ rw e (
          subst (All IsSound)
            (sym (fail_delivered_task-uploads env j.task_id message env.now_millis _))
            (rw e at sound))
    ]

pub retry-AllSound :
    (env : Env) (task_id : String) (db : Db)
    → AllSound db
    → AllSound (retry_result_upload env task_id db).0
unfolding retry_result_upload
retry-AllSound env task_id db h =
    let jobs = λ (j : UploadJob). j.task_id == task_id && is_failed j.status in
    let sound =
      All-update IsSound jobs (retried_row env) db.upload_jobs
        (λ x m e s. retried_row-IsSound env x s) h in
    elim (Bool-cases (count_where jobs db.upload_jobs == 1)) [
      | inr e ↦ rw e h
      | inl e ↦ elim (Bool-cases (count_where (failed_upload task_id) db.tasks == 1)) [
        | inl f ↦ rw (e, f) sound
        | inr f ↦ rw (e, f) h
      ]
    ]

pub store_delivery-AllSound :
    (env : Env) (url : String) (bytes : ℕ) (o : Option UploadJob) (db : Db)
    → AllSound db
    → AllSound (store_delivery env url bytes o db).0
unfolding store_delivery
store_delivery-AllSound env url bytes none db h = h
store_delivery-AllSound env url bytes (some j) db h =
    let sound =
      All-update IsSound (has_id j.id) (uploaded_row env url bytes) db.upload_jobs
        (λ x m e s. uploaded_row-IsSound env url bytes x s) h in
    elim (Bool-cases (count_where (awaits_delivery j.task_id) db.tasks == 1)) [
      | inl e ↦ rw e (
          subst (All IsSound) (sym (event-uploads env j.task_id "succeeded" env.now_millis _))
            sound)
      | inr e ↦ rw e sound
    ]
