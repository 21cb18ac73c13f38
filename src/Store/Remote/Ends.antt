-- ===== src/Store/Remote/Ends.antt =====
-- The operations that end a remote run, or ask for its end: what they do to the table of the runs.
use minimax_proxy.Store.Tables.{RemoteRun, Task}
use minimax_proxy.Store.Db.{Db, Env, Error, now_unix}
use minimax_proxy.Store.Remote.Complete.{
  CompletionUpload, RemoteCompletion, complete_remote_run, complete_run_task, complete_transaction,
  deliver_completion, is_end,
}
use minimax_proxy.Store.Remote.Phases.{
  Moves, Still, Advanced, AllAdvanced, AllAdvanced-refl, Moves-fail, Moves-immediate, Moves-update,
  Still-tasks, Still-then, UniqueRuns, settle-AllAdvanced, AllAdvanced-found,
}
use minimax_proxy.Store.Cancel.{
  request_remote_cancel, cancel_run, found_run, is_terminal, requested_run, begin_cancel,
  is_remote_cancellable,
}
use minimax_proxy.Store.Callbacks.Frame.{event-Framed}
use minimax_proxy.Base.{
  String, none, some, Bool-cases, Option, and_then, ap, arith, coalesce, false, first_where, inl,
  inr, not, refl, settle, ℕ, ◌&&◌, ◌==◌, ◌||◌, ◌≡◌, string_eq, nat_eq, Bool, count_where, is_some,
}
use minimax_proxy.Store.Callbacks.{create_callback_delivery_with_conn}
use minimax_proxy.Store.Remote.{Lease}
use minimax_proxy.Store.Tasks.Official.{breaks_upload, insert_upload}

Still-callback :
    (env : Env) (task_id status : String) (now : ℕ)
    → Still (create_callback_delivery_with_conn env task_id status now)
Still-callback env task_id status now = record {
  still = λ db. ap (λ (s : Db). s.remote_runs) (event-Framed env task_id status now db).rest;
}

Still-upload :
    (env : Env) (task_id : String) (job : String × String) → Still (insert_upload env task_id job)
Still-upload env task_id (id, object_key) = record {
  still = λ db. elim (Bool-cases (breaks_upload id task_id object_key db)) [
    | inl e ↦ rw e
    | inr e ↦ rw e
  ];
}

deliver_completion-Still :
    (env : Env) (task_id : String) (c : RemoteCompletion) (o : Option CompletionUpload)
    → Still (deliver_completion env task_id c o)
unfolding deliver_completion
deliver_completion-Still env task_id c none = Still-callback env task_id c.status env.now_millis
deliver_completion-Still env task_id c (some job) =
    elim (Bool-cases (not (c.status == "succeeded"))) [
      | inl e ↦ rw e (Still-callback env task_id c.status env.now_millis)
      | inr e ↦ elim (Bool-cases (not (job.task_id == task_id))) [
        | inl k ↦ rw (e, k) (record { still = λ db. refl })
        | inr k ↦ rw (e, k) (Still-upload env task_id (job.id, job.object_key))
      ]
    ]

complete_run_task-Still :
    (env : Env) (l : Lease) (c : RemoteCompletion) → Still (complete_run_task env l c)
unfolding complete_run_task
complete_run_task-Still env l c =
    Still-tasks _ _ λ n. Still-then n (deliver_completion-Still env l.task_id c c.upload_job)

pub complete-Moves :
    (env : Env) (l : Lease) (c : RemoteCompletion) → Moves (complete_remote_run env l c)
unfolding complete_remote_run complete_transaction
complete-Moves env l c =
    elim (Bool-cases (not (is_end c.status) || (c.status == "succeeded" && c.result_url == ""))) [
      | inl e ↦ rw e (Moves-fail Error.state_conflict)
      | inr e ↦ rw e (
          Moves-immediate (
            Moves-update _ _ (λ r h. ground arith)
              λ n. Still-then n (complete_run_task-Still env l c)))
    ]

-- What a cancellation does to the run that it found.
requested-Advanced :
    (now : ℕ) (r : RemoteRun) → is_terminal r.phase ≡ false → Advanced r (requested_run now r)
requested-Advanced now r h = ground arith

begin_cancel-AllAdvanced :
    (env : Env) (task_id : String) (r : RemoteRun) (db : Db)
    → UniqueRuns db.remote_runs
    → first_where (λ (x : RemoteRun). x.task_id == task_id) db.remote_runs ≡ some r
    → is_terminal r.phase ≡ false
    → AllAdvanced db.remote_runs (begin_cancel env task_id db).0.remote_runs
begin_cancel-AllAdvanced env task_id r db u k e =
    let p : Task → Bool = λ t.
      t.task_id == task_id
      && (t.upstream_slot_active
          && (not (is_some t.deleted_at) && is_remote_cancellable t.status)) in
    elim (Bool-cases (count_where p db.tasks == 1)) [
      | inl n ↦ rw n (
          AllAdvanced-found (requested_run (now_unix env)) db.remote_runs task_id r u k
            (requested-Advanced (now_unix env) r e))
      | inr n ↦ rw n (AllAdvanced-refl db.remote_runs)
    ]

cancel_run-AllAdvanced :
    (env : Env) (task_id : String) (r : RemoteRun) (db : Db)
    → UniqueRuns db.remote_runs
    → first_where (λ (x : RemoteRun). x.task_id == task_id) db.remote_runs ≡ some r
    → AllAdvanced db.remote_runs (cancel_run env task_id r db).0.remote_runs
unfolding cancel_run
cancel_run-AllAdvanced env task_id r db u k = elim (Bool-cases (is_terminal r.phase)) [
  | inl e ↦ elim (Bool-cases (coalesce r.upstream_status "" == "cancelled")) [
    | inl f ↦ rw (e, f) (AllAdvanced-refl db.remote_runs)
    | inr f ↦ rw (e, f) (AllAdvanced-refl db.remote_runs)
  ]
  | inr e ↦
      elim (Bool-cases
        (coalesce r.upstream_status "" == "running" || r.cancel_state == "rejected")) [
          | inl f ↦ rw (e, f) (AllAdvanced-refl db.remote_runs)
          | inr f ↦ rw (e, f) (begin_cancel-AllAdvanced env task_id r db u k e)
        ]
]

pub cancel-AllAdvanced :
    (env : Env) (task_id : String) (db : Db)
    → UniqueRuns db.remote_runs
    → AllAdvanced db.remote_runs (request_remote_cancel env task_id db).0.remote_runs
unfolding request_remote_cancel
cancel-AllAdvanced env task_id db u =
    go (first_where (λ (x : RemoteRun). x.task_id == task_id) db.remote_runs) refl
  where
    go :
        (o : Option RemoteRun)
        → first_where (λ (x : RemoteRun). x.task_id == task_id) db.remote_runs ≡ o
        → AllAdvanced db.remote_runs
            (settle db (and_then (found_run db o) (cancel_run env task_id))).0.remote_runs
    go none k = AllAdvanced-refl db.remote_runs
    go (some r) k =
        settle-AllAdvanced db (cancel_run env task_id r db)
          (cancel_run-AllAdvanced env task_id r db u k)
