-- ===== src/Store/Evolution/History.antt =====
-- The tasks over any sequence of the operations that move them: the clock, the identifiers and the
-- arguments of each call are free.
use minimax_proxy.Domain.Status.{is_final, InternalStatus}
use minimax_proxy.Store.Tables.{Task}
use minimax_proxy.Store.Db.{Db, Env}
use minimax_proxy.Store.Claim
use minimax_proxy.Store.Tasks
use minimax_proxy.Store.Cancel
use minimax_proxy.Store.Evolution.{Evolves, Follows, can_follow}
use minimax_proxy.Store.Evolution.Tasks.{
  mark_running-Keeps, save_baseline-Keeps, save_submission_context-Keeps, bind_upstream_job-Keeps,
  begin_retry-Keeps, mark_reconciling-Keeps, mark_failed-Keeps, requeue-Keeps,
  finish_cancelled-Keeps, mark_succeeded-Keeps,
}
use minimax_proxy.Store.Evolution.Claims.{claim_next-Keeps, claim_next_official-Keeps}
use minimax_proxy.Store.Evolution.Cancels.{request_admin_cancel-Keeps}
use minimax_proxy.Base.{
  ℕ, String, List, [], ◌∷◌, Option, ◌≡◌, refl, sym, ◌∙◌, subst, true, inl, inr, arith,
}

-- A call of an operation that moves tasks; the constructors have the arguments of the operations.
pub data TaskCall : Type 0 where
  claim_next : String → Option ℕ → TaskCall
  claim_next_official : String → ℕ → ℕ → TaskCall
  save_baseline : String → String → List String → TaskCall
  save_submission_context : String → String → List String → TaskCall
  bind_upstream_job : String → String → String → TaskCall
  begin_retry : String → String → List String → List String → TaskCall
  mark_running : String → String → TaskCall
  mark_reconciling : String → String → TaskCall
  mark_succeeded : String → String → String → String → String → TaskCall
  mark_failed : String → String → String → String → TaskCall
  requeue : String → String → TaskCall
  finish_cancelled : String → String → TaskCall
  request_admin_cancel : String → TaskCall

unfoldable pub task_step : Env → TaskCall → Db → Db
task_step env (claim_next u v) db = (minimax_proxy.Store.Claim.claim_next env u v db).0
task_step env (claim_next_official n v c) db =
    (minimax_proxy.Store.Claim.claim_next_official env n v c db).0
task_step env (save_baseline t u urls) db =
    (minimax_proxy.Store.Tasks.save_baseline env t u urls db).0
task_step env (save_submission_context t u jobs) db =
    (minimax_proxy.Store.Tasks.save_submission_context env t u jobs db).0
task_step env (bind_upstream_job t u job) db =
    (minimax_proxy.Store.Tasks.bind_upstream_job env t u job db).0
task_step env (begin_retry t u jobs gallery) db =
    (minimax_proxy.Store.Tasks.begin_retry env t u jobs gallery db).0
task_step env (mark_running t u) db = (minimax_proxy.Store.Tasks.mark_running env t u db).0
task_step env (mark_reconciling t u) db = (minimax_proxy.Store.Tasks.mark_reconciling env t u db).0
task_step env (mark_succeeded t u internal public ratio) db =
    (minimax_proxy.Store.Tasks.mark_succeeded env t u internal public ratio db).0
task_step env (mark_failed t u code message) db =
    (minimax_proxy.Store.Tasks.mark_failed env t u code message db).0
task_step env (requeue t u) db = (minimax_proxy.Store.Tasks.requeue env t u db).0
task_step env (finish_cancelled t u) db = (minimax_proxy.Store.Tasks.finish_cancelled env t u db).0
task_step env (request_admin_cancel t) db =
    (minimax_proxy.Store.Cancel.request_admin_cancel env t db).0

unfoldable pub task_run : List (Env × TaskCall) → Db → Db
task_run [] db = db
task_run ((env, c) ∷ cs) db = task_run cs (task_step env c db)

-- Every call moves each task along a transition of the state machine and raises its version, or
-- leaves the task as it is: no task appears or goes, and its request and its route stay.
pub task_step-Evolves :
    (env : Env) (c : TaskCall) (db : Db) → Evolves db.tasks (task_step env c db).tasks
unfolding task_step
task_step-Evolves env (claim_next u v) db = (claim_next-Keeps env u v).keeps db
task_step-Evolves env (claim_next_official n v c) db =
    (claim_next_official-Keeps env n v c).keeps db
task_step-Evolves env (save_baseline t u urls) db = (save_baseline-Keeps env t u urls).keeps db
task_step-Evolves env (save_submission_context t u jobs) db =
    (save_submission_context-Keeps env t u jobs).keeps db
task_step-Evolves env (bind_upstream_job t u job) db =
    (bind_upstream_job-Keeps env t u job).keeps db
task_step-Evolves env (begin_retry t u jobs gallery) db =
    (begin_retry-Keeps env t u jobs gallery).keeps db
task_step-Evolves env (mark_running t u) db = (mark_running-Keeps env t u).keeps db
task_step-Evolves env (mark_reconciling t u) db = (mark_reconciling-Keeps env t u).keeps db
task_step-Evolves env (mark_succeeded t u internal public ratio) db =
    (mark_succeeded-Keeps env t u internal public ratio).keeps db
task_step-Evolves env (mark_failed t u code message) db =
    (mark_failed-Keeps env t u code message).keeps db
task_step-Evolves env (requeue t u) db = (requeue-Keeps env t u).keeps db
task_step-Evolves env (finish_cancelled t u) db = (finish_cancelled-Keeps env t u).keeps db
task_step-Evolves env (request_admin_cancel t) db = (request_admin_cancel-Keeps env t).keeps db

-- Every finished task of the first table stands unchanged in the second.
abbrev pub KeepsFinal : List Task → List Task → Type 0
KeepsFinal [] us = Unit
KeepsFinal (t ∷ ts) [] = ⊥
KeepsFinal (t ∷ ts) (u ∷ us) = (is_final t.status ≡ true → u ≡ t) × KeepsFinal ts us

KeepsFinal-refl : (ts : List Task) → KeepsFinal ts ts
KeepsFinal-refl [] = tt
KeepsFinal-refl (t ∷ ts) = ((λ _. refl), KeepsFinal-refl ts)

KeepsFinal-trans : (ts us vs : List Task) → KeepsFinal ts us → KeepsFinal us vs → KeepsFinal ts vs
KeepsFinal-trans [] us vs h k = tt
KeepsFinal-trans (t ∷ ts) [] vs h k = absurd h
KeepsFinal-trans (t ∷ ts) (u ∷ us) [] h k = absurd k
KeepsFinal-trans (t ∷ ts) (u ∷ us) (v ∷ vs) h k = (
  (λ final.
      let e = h.0 final in k.0 (subst (λ (x : Task). is_final x.status ≡ true) (sym e) final) ∙ e),
  KeepsFinal-trans ts us vs h.1 k.1,
)

final_stays : (t u : Task) → Follows t u → is_final t.status ≡ true → u ≡ t
final_stays t u (inl e) final = e
final_stays t u (inr c) final = absurd (no_way t.status u.status c.transition final)
  where
    no_way : (s v : InternalStatus) → can_follow s v ≡ true → is_final s ≡ true → ⊥
    no_way s v h k = ground arith

Evolves→KeepsFinal : (ts us : List Task) → Evolves ts us → KeepsFinal ts us
Evolves→KeepsFinal [] us h = tt
Evolves→KeepsFinal (t ∷ ts) [] h = h
Evolves→KeepsFinal (t ∷ ts) (u ∷ us) (f, h) = (final_stays t u f, Evolves→KeepsFinal ts us h)

-- Whatever calls follow (claims, operations on a running task, cancellations by an administrator),
-- with any clock and arguments, a task that has succeeded, failed or been
-- cancelled is never touched again.
pub task_run-KeepsFinal :
    (cs : List (Env × TaskCall)) (db : Db) → KeepsFinal db.tasks (task_run cs db).tasks
unfolding task_run
task_run-KeepsFinal [] db = KeepsFinal-refl db.tasks
task_run-KeepsFinal ((env, c) ∷ cs) db =
    KeepsFinal-trans db.tasks (task_step env c db).tasks _
      (Evolves→KeepsFinal db.tasks _ (task_step-Evolves env c db))
      (task_run-KeepsFinal cs (task_step env c db))
