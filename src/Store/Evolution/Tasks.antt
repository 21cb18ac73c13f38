-- ===== src/Store/Evolution/Tasks.antt =====
-- The operations of store.go on one task, and the state machine.
use minimax_proxy.Store.Db.{Env}
use minimax_proxy.Store.Evolution.{
  Keeps, Keeps-one, Changed, Evolves-refl, Evolves-update, Extends-callback, Extends-one_row,
  Extends-rebalance, Extends-then, Keeps-bind, Keeps-immediate, Keeps-statement,
}
use minimax_proxy.Store.Tasks.{
  mark_running, begin_retry, bind_upstream_job, finish_cancelled, mark_failed, mark_reconciling,
  mark_succeeded, replaces_url, requeue, save_baseline, save_submission_context, update_result,
}
use minimax_proxy.Base.{String, arith, Bool, Bool-cases, List, any, inl, inr, true, ◌&&◌, ◌≡◌}
use minimax_proxy.Store.Tables.{Task}

pub mark_running-Keeps :
    (env : Env) (task_id upstream_id : String) → Keeps (mark_running env task_id upstream_id)
unfolding mark_running
mark_running-Keeps env task_id upstream_id = Keeps-one _ _ (λ t h. ground arith)

pub save_baseline-Keeps :
    (env : Env) (task_id upstream_id : String) (urls : List String)
    → Keeps (save_baseline env task_id upstream_id urls)
unfolding save_baseline
save_baseline-Keeps env task_id upstream_id urls = Keeps-one _ _ (λ t h. ground arith)

pub save_submission_context-Keeps :
    (env : Env) (task_id upstream_id : String) (job_ids : List String)
    → Keeps (save_submission_context env task_id upstream_id job_ids)
unfolding save_submission_context
save_submission_context-Keeps env task_id upstream_id job_ids = Keeps-one _ _ (λ t h. ground arith)

pub bind_upstream_job-Keeps :
    (env : Env) (task_id upstream_id job_id : String)
    → Keeps (bind_upstream_job env task_id upstream_id job_id)
unfolding bind_upstream_job
bind_upstream_job-Keeps env task_id upstream_id job_id = Keeps-one _ _ (λ t h. ground arith)

pub begin_retry-Keeps :
    (env : Env) (task_id upstream_id : String) (jobs gallery : List String)
    → Keeps (begin_retry env task_id upstream_id jobs gallery)
unfolding begin_retry
begin_retry-Keeps env task_id upstream_id jobs gallery = Keeps-one _ _ (λ t h. ground arith)

pub mark_reconciling-Keeps :
    (env : Env) (task_id upstream_id : String) → Keeps (mark_reconciling env task_id upstream_id)
unfolding mark_reconciling
mark_reconciling-Keeps env task_id upstream_id = Keeps-one _ _ (λ t h. ground arith)

pub mark_failed-Keeps :
    (env : Env) (task_id upstream_id code message : String)
    → Keeps (mark_failed env task_id upstream_id code message)
unfolding mark_failed
mark_failed-Keeps env task_id upstream_id code message =
    (Keeps-statement _ _ (λ t h. ground arith) (Extends-callback env _ _ _))

pub requeue-Keeps :
    (env : Env) (task_id upstream_id : String) → Keeps (requeue env task_id upstream_id)
unfolding requeue
requeue-Keeps env task_id upstream_id =
    Keeps-immediate (Keeps-statement _ _ (λ t h. ground arith) (Extends-rebalance env))

pub finish_cancelled-Keeps :
    (env : Env) (task_id upstream_id : String) → Keeps (finish_cancelled env task_id upstream_id)
unfolding finish_cancelled
finish_cancelled-Keeps env task_id upstream_id =
    (Keeps-statement _ _ (λ t h. ground arith) (Extends-callback env _ _ _))

Keeps-result :
    (url : String) (p : Task → Bool) (f : Task → Task)
    → ((t : Task) → p t ≡ true → Changed t (f t))
    → Keeps (update_result url p f)
unfolding update_result
Keeps-result url p f h = record {
  keeps = λ db. elim (Bool-cases (any (λ t. p t && replaces_url url t) db.tasks)) [
    | inl e ↦ rw e (Evolves-refl db.tasks)
    | inr e ↦ rw e (Evolves-update p f db.tasks h)
  ];
}

pub mark_succeeded-Keeps :
    (env : Env) (task_id upstream_id internal_url public_url ratio : String)
    → Keeps (mark_succeeded env task_id upstream_id internal_url public_url ratio)
unfolding mark_succeeded
mark_succeeded-Keeps env task_id upstream_id internal_url public_url ratio =
    (Keeps-bind (Keeps-result _ _ _ (λ t h. ground arith))
      (λ n. Extends-then (Extends-one_row n) (Extends-callback env _ _ _)))
