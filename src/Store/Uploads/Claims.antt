-- ===== src/Store/Uploads/Claims.antt =====
-- What a claim of an upload job does, and what the operations leave of the jobs.
use minimax_proxy.Store.Callbacks.{create_callback_delivery_with_conn}
use minimax_proxy.Store.Callbacks.Frame.{event-Framed}
use minimax_proxy.Store.Db.{Db, Env, Error}
use minimax_proxy.Base.{
  ok, err, ℕ, String, Bool-cases, In, List, Option, Result, and_then, ap, arith, count_where,
  eq_refl, first_where, inl, inr, least_where, least_where-In, none, ok_inj, ok≢err, refl, settle,
  settle_err, settle_ok, some, subst, sym, true, unique_row, update_where, ◌&&◌, ◌==◌, ◌≡◌,
  string_eq, nat_eq,
}
use minimax_proxy.Store.Tables.{UploadJob}
use minimax_proxy.Store.Uploads.{
  claim_due, claimed_row, earlier, fail_delivered_task, has_id, is_reconciling, is_version,
  take_upload, upload_claimable,
}

pub event-uploads :
    (env : Env) (id status : String) (now : ℕ) (db : Db)
    → (create_callback_delivery_with_conn env id status now db).0.upload_jobs ≡ db.upload_jobs
event-uploads env id status now db =
    ap (λ (z : Db). z.upload_jobs) (event-Framed env id status now db).rest

-- The event of a failed task leaves the jobs alone.
pub fail_delivered_task-uploads :
    (env : Env) (task_id message : String) (now : ℕ) (db : Db)
    → (fail_delivered_task env task_id message now db).0.upload_jobs ≡ db.upload_jobs
unfolding fail_delivered_task
fail_delivered_task-uploads env task_id message now db =
    elim (Bool-cases
      (count_where (λ t. t.task_id == task_id && is_reconciling t.status) db.tasks == 0)) [
        | inl e ↦ rw e refl
        | inr e ↦ rw e (event-uploads env task_id "failed" now _)
      ]

pub then_uploads :
    {A B : Type 0} (P : List UploadJob → Type 0) (r : Db × Result Error A)
    (k : A → Db → Db × Result Error B)
    → P r.0.upload_jobs
    → ((a : A) (s : Db) → P s.upload_jobs → P (k a s).0.upload_jobs)
    → P (and_then r k).0.upload_jobs
then_uploads P (s, ok a) k h f = f a s h
then_uploads P (s, err e) k h f = h

pub settle_uploads :
    {A : Type 0} (P : List UploadJob → Type 0) (db : Db) (r : Db × Result Error A)
    → P db.upload_jobs
    → P r.0.upload_jobs
    → P (settle db r).0.upload_jobs
settle_uploads P db (s, ok a) h k = k
settle_uploads P db (s, err e) h k = h

found_ok :
    (s s' : Db) (o : Option UploadJob) (j : UploadJob)
    → Path
        (Db × Result Error UploadJob)
        (elim o [ none ↦ (s, err Error.no_rows) | some x ↦ (s, ok x) ])
        (s', ok j)
    → (s ≡ s') × (o ≡ some j)
found_ok s s' none j h = absurd (ok≢err h)
found_ok s s' (some x) j h = let (a, b) = ok_inj h in (a, ap some b)

-- What a claim that ends well did to the jobs: one that was due has one attempt more.
pub record ClaimedUpload (env : Env) (lease : String) (duration : ℕ) (db db' : Db) (j : UploadJob)
    : Type 0 where
  pub chosen : UploadJob
  pub selected : least_where earlier (upload_claimable env.now_millis) db.upload_jobs ≡ some chosen
  pub only : count_where (is_version chosen) db.upload_jobs ≡ 1
  pub written : db' ≡ record db {
    upload_jobs = update_where (is_version chosen) (claimed_row env lease duration) db.upload_jobs;
  }
  pub returned : first_where (has_id chosen.id) db'.upload_jobs ≡ some j

take_upload_ok :
    (env : Env) (lease : String) (duration : ℕ) (o : Option UploadJob) (db db' : Db) (j : UploadJob)
    → least_where earlier (upload_claimable env.now_millis) db.upload_jobs ≡ o
    → take_upload env lease duration o db ≡ (db', ok j)
    → ClaimedUpload env lease duration db db' j
unfolding take_upload
take_upload_ok env lease duration none db db' j e h = absurd (ok≢err h)
take_upload_ok env lease duration (some k) db db' j e h =
    let jobs : List UploadJob =
      update_where (is_version k) (claimed_row env lease duration) db.upload_jobs in
    elim (Bool-cases (count_where (is_version k) db.upload_jobs == 1)) [
      | inl one ↦
          let (a, b) =
            found_ok (record db { upload_jobs = jobs }) db' (first_where (has_id k.id) jobs) j
              (rw one at h) in
          record {
            chosen = k;
            selected = e;
            only = (eq_nat _ _ one);
            written = sym a;
            returned = subst (λ (z : Db). first_where (has_id k.id) z.upload_jobs ≡ some j) a b;
          }
      | inr one ↦ absurd (ok≢err (rw one at h))
    ]
  where
    eq_nat : (a b : ℕ) → (a == b) ≡ true → a ≡ b
    eq_nat a b e = ground arith

pub claim_due_ok :
    (env : Env) (lease : String) (duration : ℕ) (db db' : Db) (j : UploadJob)
    → claim_due env lease duration db ≡ (db', ok j)
    → ClaimedUpload env lease duration db db' j
unfolding claim_due
claim_due_ok env lease duration db db' j h =
    take_upload_ok env lease duration _ db db' j refl (settle_ok db db' _ j h)

pub claim_due_err :
    (env : Env) (lease : String) (duration : ℕ) (db db' : Db) (e : Error)
    → claim_due env lease duration db ≡ (db', err e)
    → db' ≡ db
unfolding claim_due
claim_due_err env lease duration db db' e h =
    settle_err db db'
      (take_upload env lease duration
        (least_where earlier (upload_claimable env.now_millis) db.upload_jobs) db)
      e h

-- The job that is claimed had attempts left.
pub claimed_had_left :
    {env : Env} {lease : String} {duration : ℕ} {db db' : Db} {j : UploadJob}
    (c : ClaimedUpload env lease duration db db' j)
    → (x : UploadJob) → In x db.upload_jobs
    → is_version c.chosen x ≡ true
    → x ≡ c.chosen
claimed_had_left {db = db} c x m e =
    unique_row (is_version c.chosen) db.upload_jobs c.chosen x c.only
      (least_where-In _ _ db.upload_jobs c.chosen c.selected) (ground (arith, eq_refl c.chosen.id))
      m e
