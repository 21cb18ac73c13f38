-- ===== src/Store/Remote/History.antt =====
-- Remote runs over any sequence of the operations that write their table.
use minimax_proxy.Store.Tables.{RemoteRun}
use minimax_proxy.Store.Db.{Db, Env, Error, now_unix, one_row}
use minimax_proxy.Store.Cancel.{request_remote_cancel}
use minimax_proxy.Base.{
  ◌>>◌, true, false, inl, inr, Bool, Bool-cases, List, String, [], any, arith, ltb, not, refl, ℕ,
  ◌&&◌, ◌+◌, ◌==◌, ◌||◌, ◌∷◌, string_eq, nat_eq,
}
use minimax_proxy.Store.Remote.{
  Lease, acquire_remote_lease, begin_remote_submission, bind_remote_job, bind_remote_run,
  bind_remote_task, bind_run, bind_transaction, is_cancel_report, is_held, is_intended, is_taken,
  lease_run, may_acquire, observe_remote_task, observe_transaction, prepare_remote_request,
  release_remote_lease, renew_remote_lease, resume_task, take_lease,
}
use minimax_proxy.Store.Remote.Phases.{
  AllAdvanced, AllAdvanced-refl, AllAdvanced-update, Moves, Moves-fail, Moves-immediate,
  Moves-update, Still, Still-find_run, Still-one_row, Still-then, then-AllAdvanced,
  AllAdvanced-UniqueRuns, Still-tasks, UniqueRuns, AllAdvanced-AllContinued, AllContinued,
  AllContinued-refl, AllContinued-trans,
}
use minimax_proxy.Store.Remote.Complete.{RemoteCompletion, complete_remote_run}
use minimax_proxy.Store.Remote.Ends.{cancel-AllAdvanced, complete-Moves}
use minimax_proxy.Store.Remote.Claim.{Admission, claim_next_remote}
use minimax_proxy.Store.Remote.Starts.{
  Starts, Starts-AllContinued, Starts-UniqueRuns, claim_next_remote-Starts,
}

-- A call that writes the table of the runs.
pub data RemoteCall : Type 0 where
  claim : String → ℕ → ℕ → List Admission → RemoteCall
  acquire : String → String → String → ℕ → RemoteCall
  renew : Lease → ℕ → RemoteCall
  release : Lease → ℕ → String → Bool → RemoteCall
  prepare : Lease → String → RemoteCall
  submit : Lease → RemoteCall
  bind : Lease → String → RemoteCall
  observe : Lease → String → String → RemoteCall
  cancel : String → RemoteCall
  complete : Lease → RemoteCompletion → RemoteCall

unfoldable pub remote_step : Env → RemoteCall → Db → Db
remote_step env (claim node_id node_version capacity admission) db =
    (claim_next_remote env node_id node_version capacity admission db).0
remote_step env (acquire task_id node_id token ttl) db =
    (acquire_remote_lease env task_id node_id token ttl db).0
remote_step env (renew l ttl) db = (renew_remote_lease env l ttl db).0
remote_step env (release l next code reconcile) db =
    (release_remote_lease env l next code reconcile db).0
remote_step env (prepare l body) db = (prepare_remote_request env l body db).0
remote_step env (submit l) db = (begin_remote_submission env l db).0
remote_step env (bind l id) db = (bind_remote_task env l id db).0
remote_step env (observe l status cancel_state) db =
    (observe_remote_task env l status cancel_state db).0
remote_step env (cancel task_id) db = (request_remote_cancel env task_id db).0
remote_step env (complete l c) db = (complete_remote_run env l c db).0

unfoldable pub remote_run : List (Env × RemoteCall) → Db → Db
remote_run [] db = db
remote_run ((env, c) ∷ cs) db = remote_run cs (remote_step env c db)

take_lease-Moves :
    (env : Env) (task_id node_id token : String) (ttl : ℕ)
    → Moves (take_lease env task_id node_id token ttl)
unfolding take_lease
take_lease-Moves env task_id node_id token ttl = record {
  moves = λ db.
      (Moves-update (may_acquire db.tasks task_id node_id (now_unix env))
          (lease_run token (now_unix env) (now_unix env + ttl)) (λ r h. ground arith)
          (λ n. Still-then n (Still-find_run task_id))).moves
        db;
}

acquire-Moves :
    (env : Env) (task_id node_id token : String) (ttl : ℕ)
    → Moves (acquire_remote_lease env task_id node_id token ttl)
unfolding acquire_remote_lease
acquire-Moves env task_id node_id token ttl = elim (Bool-cases (token == "" || ltb ttl 1)) [
  | inl e ↦ rw e (Moves-fail Error.state_conflict)
  | inr e ↦ rw e (Moves-immediate (take_lease-Moves env task_id node_id token ttl))
]

renew-Moves : (env : Env) (l : Lease) (ttl : ℕ) → Moves (renew_remote_lease env l ttl)
unfolding renew_remote_lease
renew-Moves env l ttl = elim (Bool-cases (ltb ttl 1)) [
  | inl e ↦ rw e (Moves-fail Error.state_conflict)
  | inr e ↦ rw e (Moves-update _ _ (λ r h. ground arith) Still-one_row)
]

release-Moves :
    (env : Env) (l : Lease) (next : ℕ) (code : String) (reconcile : Bool)
    → Moves (release_remote_lease env l next code reconcile)
unfolding release_remote_lease
release-Moves env l next code reconcile = Moves-update _ _ (λ r h. ground arith) Still-one_row

prepare-Moves : (env : Env) (l : Lease) (body : String) → Moves (prepare_remote_request env l body)
unfolding prepare_remote_request
prepare-Moves env l body = elim (Bool-cases (env.json_valid body)) [
  | inr e ↦ rw e (Moves-fail Error.state_conflict)
  | inl e ↦ rw e (Moves-update _ _ (λ r h. ground arith) Still-one_row)
]

submit-Moves : (env : Env) (l : Lease) → Moves (begin_remote_submission env l)
unfolding begin_remote_submission
submit-Moves env l = Moves-update _ _ (λ r h. ground arith) Still-one_row

bind_remote_job-Still : (env : Env) (l : Lease) (id : String) → Still (bind_remote_job env l id)
unfolding bind_remote_job
bind_remote_job-Still env l id = Still-tasks _ _ Still-one_row

bind_remote_run-Moves : (env : Env) (l : Lease) (id : String) → Moves (bind_remote_run env l id)
unfolding bind_remote_run
bind_remote_run-Moves env l id = record {
  moves = λ db.
      let p = λ (r : RemoteRun). is_held l (now_unix env) r && is_intended r.phase in
      elim (Bool-cases (any (is_taken l id) db.remote_runs && any p db.remote_runs)) [
        | inl e ↦ rw e (AllAdvanced-refl db.remote_runs)
        | inr e ↦
            rw e (
              AllAdvanced-update p (bind_run (now_unix env) id) db.remote_runs
                (λ r h. ground arith))
      ];
}

bind_transaction-Moves : (env : Env) (l : Lease) (id : String) → Moves (bind_transaction env l id)
unfolding bind_transaction
bind_transaction-Moves env l id = record {
  moves = λ db.
      then-AllAdvanced (λ n. one_row n >> bind_remote_job env l id) db.remote_runs
        (bind_remote_run env l id db) (λ n. Still-then n (bind_remote_job-Still env l id))
        ((bind_remote_run-Moves env l id).moves db);
}

bind-Moves : (env : Env) (l : Lease) (id : String) → Moves (bind_remote_task env l id)
unfolding bind_remote_task
bind-Moves env l id = elim (Bool-cases (id == "")) [
  | inl e ↦ rw e (Moves-fail Error.state_conflict)
  | inr e ↦ rw e (Moves-immediate (bind_transaction-Moves env l id))
]

resume_task-Still : (env : Env) (task_id : String) (b : Bool) → Still (resume_task env task_id b)
unfolding resume_task
resume_task-Still env task_id false = record { still = λ db. refl }
resume_task-Still env task_id true = record { still = λ db. refl }

observe_transaction-Moves :
    (env : Env) (l : Lease) (status cancel_state : String)
    → Moves (observe_transaction env l status cancel_state)
unfolding observe_transaction
observe_transaction-Moves env l status cancel_state =
    Moves-update _ _ (λ r h. ground arith)
      (λ n. Still-then n (resume_task-Still env l.task_id (cancel_state == "rejected")))

observe-Moves :
    (env : Env) (l : Lease) (status cancel_state : String)
    → Moves (observe_remote_task env l status cancel_state)
unfolding observe_remote_task
observe-Moves env l status cancel_state =
    elim (Bool-cases
      (not (status == "queued" || status == "running") || not (is_cancel_report cancel_state))) [
        | inl e ↦ rw e (Moves-fail Error.state_conflict)
        | inr e ↦ rw e (Moves-immediate (observe_transaction-Moves env l status cancel_state))
      ]

-- What a step keeps: the runs go on, and a task has one.
abbrev Continues : List RemoteRun → List RemoteRun → Type 0
Continues rs ss = AllContinued rs ss × UniqueRuns ss

advanced : (rs ss : List RemoteRun) → UniqueRuns rs → AllAdvanced rs ss → Continues rs ss
advanced rs ss u h = (AllAdvanced-AllContinued rs ss h, AllAdvanced-UniqueRuns rs ss h u)

started : (rs ss : List RemoteRun) → UniqueRuns rs → Starts rs ss → Continues rs ss
started rs ss u h = (Starts-AllContinued rs ss h, Starts-UniqueRuns rs ss h u)

remote_step-Continues :
    (env : Env) (c : RemoteCall) (db : Db)
    → UniqueRuns db.remote_runs
    → Continues db.remote_runs (remote_step env c db).remote_runs
unfolding remote_step
remote_step-Continues env (claim node_id node_version capacity admission) db u =
    started db.remote_runs _ u
      (claim_next_remote-Starts env node_id node_version capacity admission db)
remote_step-Continues env (acquire task_id node_id token ttl) db u =
    advanced db.remote_runs _ u ((acquire-Moves env task_id node_id token ttl).moves db)
remote_step-Continues env (renew l ttl) db u =
    advanced db.remote_runs _ u ((renew-Moves env l ttl).moves db)
remote_step-Continues env (release l next code reconcile) db u =
    advanced db.remote_runs _ u ((release-Moves env l next code reconcile).moves db)
remote_step-Continues env (prepare l body) db u =
    advanced db.remote_runs _ u ((prepare-Moves env l body).moves db)
remote_step-Continues env (submit l) db u =
    advanced db.remote_runs _ u ((submit-Moves env l).moves db)
remote_step-Continues env (bind l id) db u =
    advanced db.remote_runs _ u ((bind-Moves env l id).moves db)
remote_step-Continues env (observe l status cancel_state) db u =
    advanced db.remote_runs _ u ((observe-Moves env l status cancel_state).moves db)
remote_step-Continues env (cancel task_id) db u =
    advanced db.remote_runs _ u (cancel-AllAdvanced env task_id db u)
remote_step-Continues env (complete l c) db u =
    advanced db.remote_runs _ u ((complete-Moves env l c).moves db)

-- Over any sequence of the operations that write the table of the remote runs (the claim of a task, the
-- lease's acquisition, renewal and release, preparation, submission, binding, observation, cancellation
-- and completion), with any clock, leases and arguments, from a table with one run for a task: the
-- table keeps one run for a task, the phase of a run never goes back, a submission that was intended
-- keeps the body and the hash that were stored before it, the number of submissions never falls, and a
-- run that has ended stays as it is.
pub remote_run-AllContinued :
    (cs : List (Env × RemoteCall)) (db : Db)
    → UniqueRuns db.remote_runs
    → AllContinued db.remote_runs (remote_run cs db).remote_runs
      × UniqueRuns (remote_run cs db).remote_runs
unfolding remote_run
remote_run-AllContinued [] db u = (AllContinued-refl db.remote_runs, u)
remote_run-AllContinued ((env, c) ∷ cs) db u =
    let (h, v) = remote_step-Continues env c db u in
    let (k, w) = remote_run-AllContinued cs (remote_step env c db) v in
    (AllContinued-trans db.remote_runs (remote_step env c db).remote_runs _ h k, w)
