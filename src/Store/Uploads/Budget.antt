-- ===== src/Store/Uploads/Budget.antt =====
-- Workers alone cannot try for ever: each claim uses up an attempt, and only an administrator's new
-- round and a new job bring attempts.
use minimax_proxy.Store.Tables.{UploadJob}
use minimax_proxy.Store.Db.{Db, Env, Error}
use minimax_proxy.Store.Uploads.{
  claim_result_upload_job, recover_exhausted, recover_each, claim_due, is_version, claimed_row,
  exhausted_row, has_id, exhausted_message, fail_delivered_task,
}
use minimax_proxy.Store.Uploads.Ends.{
  fail_result_upload_attempt, end_attempt, may_retry, failed_attempt, complete_result_upload,
  store_delivery, uploaded_row, awaits_delivery,
}
use minimax_proxy.Store.Uploads.Claims.{
  claim_due_ok, claim_due_err, claimed_had_left, fail_delivered_task-uploads, event-uploads,
  then_uploads, settle_uploads,
}
use minimax_proxy.Store.Uploads.History.{
  UploadCall, create, claim, retry, complete, upload_step, upload_run,
}
use minimax_proxy.Base.{
  ℕ, String, Bool, Bool-cases, In, List, Option, [], ap, arith, count_where, false, inl, inr, none,
  refl, some, true, update_where, ◌+◌, ◌-◌, ◌<◌, ◌==◌, ◌∙◌, ◌∷◌, ◌≡◌, string_eq, nat_eq, All,
  Result, and_then, err, least_where_holds, ok, subst, sym,
}
use minimax_proxy.Store.Uploads.Sound.{claimable_left}

-- The attempts that are left in the current rounds.
unfoldable pub attempts_left : List UploadJob → ℕ
attempts_left [] = 0
attempts_left (j ∷ jobs) = (j.max_attempts - j.attempt_no) + attempts_left jobs

abbrev SameAttempts : UploadJob → UploadJob → Type 0
SameAttempts i j = (i.attempt_no ≡ j.attempt_no) × (i.max_attempts ≡ j.max_attempts)

attempts_left-same :
    (p : UploadJob → Bool) (f : UploadJob → UploadJob) (jobs : List UploadJob)
    → ((j : UploadJob) → SameAttempts (f j) j)
    → attempts_left (update_where p f jobs) ≡ attempts_left jobs
unfolding attempts_left
attempts_left-same p f [] h = refl
attempts_left-same p f (j ∷ jobs) h =
    let (a, b) = h j in let rest = attempts_left-same p f jobs h in ground (arith, a, b, rest)

-- An update that makes one attempt more of rows that have one left.
attempts_left-used :
    (p : UploadJob → Bool) (f : UploadJob → UploadJob) (jobs : List UploadJob)
    → ((j : UploadJob)
        → In j jobs
        → p j ≡ true
        → (j.attempt_no < j.max_attempts)
          × ((f j).attempt_no ≡ j.attempt_no + 1)
          × ((f j).max_attempts ≡ j.max_attempts))
    → attempts_left (update_where p f jobs) + count_where p jobs ≡ attempts_left jobs
unfolding attempts_left
attempts_left-used p f [] h = refl
attempts_left-used p f (j ∷ jobs) h =
    let rest = attempts_left-used p f jobs (λ x m e. h x (inr m) e) in
    elim (Bool-cases (p j)) [
      | inl e ↦ let (a, b, c) = h j (inl refl) e in rw e (omega arith)
      | inr e ↦ rw e (omega arith)
    ]

exhausted-same : (now : ℕ) (j : UploadJob) → SameAttempts (exhausted_row now j) j
unfolding exhausted_row
exhausted-same now j = (refl, refl)

failed-same :
    (env : Env) (code message : String) (again : Bool) (next : ℕ) (j : UploadJob)
    → SameAttempts (failed_attempt env code message again next j) j
unfolding failed_attempt
failed-same env code message again next j = (refl, refl)

uploaded-same :
    (env : Env) (url : String) (bytes : ℕ) (j : UploadJob)
    → SameAttempts (uploaded_row env url bytes j) j
unfolding uploaded_row
uploaded-same env url bytes j = (refl, refl)

claimed-used :
    (env : Env) (lease : String) (duration : ℕ) (j : UploadJob)
    → ((claimed_row env lease duration j).attempt_no ≡ j.attempt_no + 1)
      × ((claimed_row env lease duration j).max_attempts ≡ j.max_attempts)
unfolding claimed_row
claimed-used env lease duration j = (refl, refl)

abbrev Left : ℕ → List UploadJob → Type 0
Left n jobs = attempts_left jobs ≡ n

recover_each-Left :
    (env : Env) (jobs : List UploadJob) (n : ℕ) (db : Db)
    → Left n db.upload_jobs
    → Left n (recover_each env jobs db).0.upload_jobs
unfolding recover_each
recover_each-Left env [] n db h = h
recover_each-Left env (j ∷ jobs) n db h =
    then_uploads (Left n)
      (fail_delivered_task env j.task_id exhausted_message env.now_millis (record db {
        upload_jobs = update_where (has_id j.id) (exhausted_row env.now_millis) db.upload_jobs;
      }))
      _
      (ap attempts_left
          (fail_delivered_task-uploads env j.task_id exhausted_message env.now_millis _)
        ∙ attempts_left-same (has_id j.id) _ db.upload_jobs (exhausted-same env.now_millis)
        ∙ h)
      (λ a s k. recover_each-Left env jobs n s k)

recover-left :
    (env : Env) (db : Db)
    → attempts_left (recover_exhausted env db).0.upload_jobs ≡ attempts_left db.upload_jobs
unfolding recover_exhausted
recover-left env db =
    settle_uploads (Left (attempts_left db.upload_jobs)) db _ refl
      (recover_each-Left env _ _ db refl)

end-left :
    (env : Env) (code message : String) (retryable : Bool) (next : ℕ) (o : Option UploadJob)
    (db : Db)
    → attempts_left (end_attempt env code message retryable next o db).0.upload_jobs
      ≡ attempts_left db.upload_jobs
unfolding end_attempt
end-left env code message retryable next none db = refl
end-left env code message retryable next (some j) db =
    let same = λ (again : Bool).
      attempts_left-same (has_id j.id) (failed_attempt env code message again next) db.upload_jobs
        (failed-same env code message again next) in
    elim (Bool-cases (may_retry retryable j)) [
      | inl e ↦ rw e (same true)
      | inr e ↦ rw e (
          ap attempts_left (fail_delivered_task-uploads env j.task_id message env.now_millis _)
          ∙ same false)
    ]

complete-left :
    (env : Env) (url : String) (bytes : ℕ) (o : Option UploadJob) (db : Db)
    → attempts_left (store_delivery env url bytes o db).0.upload_jobs ≡ attempts_left db.upload_jobs
unfolding store_delivery
complete-left env url bytes none db = refl
complete-left env url bytes (some j) db =
    let same =
      attempts_left-same (has_id j.id) (uploaded_row env url bytes) db.upload_jobs
        (uploaded-same env url bytes) in
    elim (Bool-cases (count_where (awaits_delivery j.task_id) db.tasks == 1)) [
      | inl e ↦
          rw e (ap attempts_left (event-uploads env j.task_id "succeeded" env.now_millis _) ∙ same)
      | inr e ↦ rw e same
    ]

abbrev pub was_claimed : Db × Result Error UploadJob → ℕ
was_claimed (db, ok j) = 1
was_claimed (db, err e) = 0

claim_due-left :
    (env : Env) (lease : String) (duration : ℕ) (db : Db)
    → was_claimed (claim_due env lease duration db)
        + attempts_left (claim_due env lease duration db).0.upload_jobs
      ≡ attempts_left db.upload_jobs
claim_due-left env lease duration db = go (claim_due env lease duration db) refl
  where
    go :
        (r : Db × Result Error UploadJob)
        → claim_due env lease duration db ≡ r
        → was_claimed r + attempts_left r.0.upload_jobs ≡ attempts_left db.upload_jobs
    go (s, err e) k =
        let same =
          ap (λ (z : Db). attempts_left z.upload_jobs)
            (claim_due_err env lease duration db s e k) in
        omega (arith, same)
    go (s, ok j) k =
        let c = claim_due_ok env lease duration db s j k in
        let left =
          claimable_left env.now_millis c.chosen
            (least_where_holds _ _ db.upload_jobs c.chosen c.selected) in
        let used =
          attempts_left-used (is_version c.chosen) (claimed_row env lease duration) db.upload_jobs
            (λ x m e. (
              subst (λ (z : UploadJob). z.attempt_no < z.max_attempts)
                  (sym (claimed_had_left c x m e)) left,
              (claimed-used env lease duration x).0,
              (claimed-used env lease duration x).1,
            )) in
        let one = c.only in
        let now = ap (λ (z : Db). attempts_left z.upload_jobs) c.written in
        omega (arith, used, one, now)

claim-left :
    (env : Env) (lease : String) (duration : ℕ) (db : Db)
    → was_claimed (claim_result_upload_job env lease duration db)
        + attempts_left (claim_result_upload_job env lease duration db).0.upload_jobs
      ≡ attempts_left db.upload_jobs
unfolding claim_result_upload_job
claim-left env lease duration db = go (recover_exhausted env db) (recover-left env db)
  where
    go :
        (r : Db × Result Error (Unit {0}))
        → attempts_left r.0.upload_jobs ≡ attempts_left db.upload_jobs
        → was_claimed (and_then r (λ _. claim_due env lease duration))
            + attempts_left (and_then r (λ _. claim_due env lease duration)).0.upload_jobs
          ≡ attempts_left db.upload_jobs
    go (s, ok u) h = claim_due-left env lease duration s ∙ h
    go (s, err e) h = omega (arith, h)

-- The calls that workers make.
abbrev pub by_worker : UploadCall → Bool
by_worker (create _ _ _) = false
by_worker (retry _) = false
by_worker _ = true

abbrev pub claims_in_step : Env → UploadCall → Db → ℕ
claims_in_step env (claim lease duration) db =
    was_claimed (claim_result_upload_job env lease duration db)
claims_in_step env _ db = 0

-- The claims of a sequence of calls that returned a job.
unfoldable pub claims_in : List (Env × UploadCall) → Db → ℕ
claims_in [] db = 0
claims_in ((env, c) ∷ cs) db = claims_in_step env c db + claims_in cs (upload_step env c db)

fail-left :
    (env : Env) (id lease code message : String) (retryable : Bool) (next : ℕ) (db : Db)
    → attempts_left
        (fail_result_upload_attempt env id lease code message retryable next db).0.upload_jobs
      ≡ attempts_left db.upload_jobs
unfolding fail_result_upload_attempt
fail-left env id lease code message retryable next db =
    settle_uploads (Left (attempts_left db.upload_jobs)) db _ refl
      (end-left env code message retryable next _ db)

done-left :
    (env : Env) (id lease url : String) (bytes : ℕ) (db : Db)
    → attempts_left (complete_result_upload env id lease url bytes db).0.upload_jobs
      ≡ attempts_left db.upload_jobs
unfolding complete_result_upload
done-left env id lease url bytes db =
    settle_uploads (Left (attempts_left db.upload_jobs)) db _ refl
      (complete-left env url bytes _ db)

step-left :
    (env : Env) (c : UploadCall) (db : Db)
    → by_worker c ≡ true
    → claims_in_step env c db + attempts_left (upload_step env c db).upload_jobs
      ≡ attempts_left db.upload_jobs
unfolding upload_step
step-left env (create id task_id key) db w = absurd (cc)
step-left env (claim lease duration) db w = claim-left env lease duration db
step-left env (UploadCall.fail id lease code message retryable next) db w =
    omega (arith, fail-left env id lease code message retryable next db)
step-left env (retry task_id) db w = absurd (cc)
step-left env (complete id lease url bytes) db w =
    omega (arith, done-left env id lease url bytes db)

-- As long as no job is added and no new round is asked for, the claims that return a job use up the
-- attempts that were left, one each: there are only so many, however the calls interleave.
pub upload_run-attempts_left :
    (calls : List (Env × UploadCall)) (db : Db)
    → All (λ c. by_worker c.1 ≡ true) calls
    → claims_in calls db + attempts_left (upload_run calls db).upload_jobs
      ≡ attempts_left db.upload_jobs
unfolding claims_in upload_run
upload_run-attempts_left [] db w = omega arith
upload_run-attempts_left ((env, c) ∷ calls) db w =
    omega (arith, step-left env c db w.0, upload_run-attempts_left calls (upload_step env c db) w.1)
