-- ===== src/Store/Remote.antt =====
-- remote_task_store.go: the run of a task on a tk2sd-v1 node, under the lease of one worker.
pub mod Claim
pub mod Complete
pub mod Ends
pub mod Starts
pub mod Phases
pub mod History
use minimax_proxy.Domain.Status.{InternalStatus, cancelling}
use minimax_proxy.Store.Tables.{
  Task, RemoteRun, RemotePhase, preparing, prepared, submit_intent, submitted, terminal,
}
use minimax_proxy.Store.Db.{
  Db, Env, Error, M, immediate, state_conflict, constraint, now_unix, one_row, update_tasks,
}
use minimax_proxy.Base.{
  ◌>>=◌, ◌>>◌, ok, err, Bool, List, String, any, coalesce, count_where, fail, false, get,
  if◌then◌else◌, is_some, is_value, leb, ltb, none, not, return, some, true, update_where, ℕ, ◌&&◌,
  ◌+◌, ◌==◌, ◌||◌, string_eq, nat_eq,
}
use minimax_proxy.Store.Cancel.{find_run, is_remote_cancellable, is_terminal}
use minimax_proxy.Store.Tasks.{held_by, is_cancelling}

abbrev pub is_preparing : RemotePhase → Bool
is_preparing preparing = true
is_preparing _ = false

abbrev pub is_prepared : RemotePhase → Bool
is_prepared prepared = true
is_prepared _ = false

abbrev pub is_intended : RemotePhase → Bool
is_intended submit_intent = true
is_intended _ = false

abbrev pub is_submitted : RemotePhase → Bool
is_submitted submitted = true
is_submitted _ = false

abbrev pub update_runs : (RemoteRun → Bool) → (RemoteRun → RemoteRun) → M ℕ
update_runs p f db =
    (record db { remote_runs = update_where p f db.remote_runs }, ok (count_where p db.remote_runs))

-- What the operations take of the run that `AcquireRemoteLease` gave to the worker.
pub record Lease : Type 0 where
  pub task_id : String
  pub node_id : String
  pub lease_token : String

-- `task_id=? AND node_id=? AND lease_token=? AND lease_expires_at>?`.
abbrev pub is_held : Lease → ℕ → RemoteRun → Bool
is_held l now r =
    r.task_id == l.task_id
    && (r.node_id == l.node_id
        && (is_value r.lease_token l.lease_token && ltb now (coalesce r.lease_expires_at 0)))

-- The task that the node works on for this run.
abbrev pub has_slot : List Task → RemoteRun → Bool
has_slot tasks r =
    any
      (λ t.
        t.task_id == r.task_id
        && (is_value t.upstream_id r.node_id
            && (t.upstream_slot_active && not (is_some t.deleted_at))))
      tasks

abbrev pub may_acquire : List Task → String → String → ℕ → RemoteRun → Bool
may_acquire tasks task_id node_id now r =
    r.task_id == task_id
    && (r.node_id == node_id
        && (not (is_terminal r.phase)
            && (not r.reconciliation_required
                && (leb (coalesce r.lease_expires_at 0) now && has_slot tasks r))))

abbrev pub lease_run : String → ℕ → ℕ → RemoteRun → RemoteRun
lease_run token now until r = record r {
  lease_token = some token;
  lease_expires_at = some until;
  updated_at = now;
}

-- The transaction of `AcquireRemoteLease`.
unfoldable pub take_lease : Env → String → String → String → ℕ → M RemoteRun
take_lease env task_id node_id token ttl = do
  db ← get
  rows ←
      update_runs (may_acquire db.tasks task_id node_id (now_unix env))
        (lease_run token (now_unix env) (now_unix env + ttl))
  one_row rows
  find_run task_id

-- `ttl` in seconds: a shorter one than a second is 0.
unfoldable pub acquire_remote_lease : Env → String → String → String → ℕ → M RemoteRun
acquire_remote_lease env task_id node_id token ttl =
    if token == "" || ltb ttl 1
    then fail state_conflict
    else immediate (take_lease env task_id node_id token ttl)

abbrev pub renew_run : ℕ → ℕ → RemoteRun → RemoteRun
renew_run now until r = record r { lease_expires_at = some until; updated_at = now }

unfoldable pub renew_remote_lease : Env → Lease → ℕ → M (Unit {0})
renew_remote_lease env l ttl = if ltb ttl 1 then fail state_conflict else do
  rows ←
      update_runs (λ r. is_held l (now_unix env) r && not (is_terminal r.phase))
        (renew_run (now_unix env) (now_unix env + ttl))
  one_row rows

abbrev pub release_run : ℕ → ℕ → String → Bool → RemoteRun → RemoteRun
release_run now next code reconcile r = record r {
  lease_token = none;
  lease_expires_at = none;
  next_poll_at = some next;
  last_error_code = code;
  reconciliation_required = reconcile;
  updated_at = now;
}

unfoldable pub release_remote_lease : Env → Lease → ℕ → String → Bool → M (Unit {0})
release_remote_lease env l next code reconcile = do
  rows ←
      update_runs (λ r. is_held l (now_unix env) r && not (is_terminal r.phase))
        (release_run (now_unix env) next code reconcile)
  one_row rows

abbrev pub prepare_run : Env → String → RemoteRun → RemoteRun
prepare_run env body r = record r {
  phase = prepared;
  request_body_json = some body;
  request_body_hash = some (env.sha256_hex (env.text_bytes body));
  updated_at = now_unix env;
}

unfoldable pub prepare_remote_request : Env → Lease → String → M (Unit {0})
prepare_remote_request env l body = if not (env.json_valid body) then fail state_conflict else do
  rows ←
      update_runs
        (λ r. is_held l (now_unix env) r && (is_preparing r.phase && r.cancel_state == "none"))
        (prepare_run env body)
  one_row rows

abbrev pub submit_run : ℕ → RemoteRun → RemoteRun
submit_run now r = record r {
  phase = submit_intent;
  submit_attempts = r.submit_attempts + 1;
  updated_at = now;
}

abbrev pub may_submit : RemoteRun → Bool
may_submit r =
    not r.reconciliation_required
    && (is_intended r.phase || (is_prepared r.phase && r.cancel_state == "none"))

unfoldable pub begin_remote_submission : Env → Lease → M (Unit {0})
begin_remote_submission env l = do
  rows ← update_runs (λ r. is_held l (now_unix env) r && may_submit r) (submit_run (now_unix env))
  one_row rows

abbrev pub bind_run : ℕ → String → RemoteRun → RemoteRun
bind_run now id r = record r {
  phase = submitted;
  upstream_task_id = some id;
  upstream_status = some "queued";
  last_error_code = "";
  updated_at = now;
}

-- `status=CASE WHEN status='cancelling' THEN status ELSE 'running' END`.
abbrev pub bound_status : InternalStatus → InternalStatus
bound_status cancelling = cancelling
bound_status _ = InternalStatus.running

unfoldable pub bind_remote_job : Env → Lease → String → M (Unit {0})
bind_remote_job env l id = do
  rows ←
      update_tasks
        (λ t. held_by l.task_id l.node_id is_remote_cancellable t && t.upstream_slot_active)
        λ t. record t {
          upstream_job_id = some id;
          status = bound_status t.status;
          updated_at = now_unix env;
          version = t.version + 1;
        }
  one_row rows

-- The index uq_remote_node_task: no other run of the node has the identifier.
abbrev pub is_taken : Lease → String → RemoteRun → Bool
is_taken l id r =
    not (r.task_id == l.task_id) && (r.node_id == l.node_id && is_value r.upstream_task_id id)

unfoldable pub bind_remote_run : Env → Lease → String → M ℕ
bind_remote_run env l id db =
    if any (is_taken l id) db.remote_runs
      && any (λ r. is_held l (now_unix env) r && is_intended r.phase) db.remote_runs
    then (db, err constraint)
    else update_runs (λ r. is_held l (now_unix env) r && is_intended r.phase)
        (bind_run (now_unix env) id) db

unfoldable pub bind_transaction : Env → Lease → String → M (Unit {0})
bind_transaction env l id = do
  rows ← bind_remote_run env l id
  one_row rows
  bind_remote_job env l id

unfoldable pub bind_remote_task : Env → Lease → String → M (Unit {0})
bind_remote_task env l id =
    if id == "" then fail state_conflict else immediate (bind_transaction env l id)

abbrev pub observe_run : ℕ → String → String → RemoteRun → RemoteRun
observe_run now status cancel_state r = record r {
  upstream_status = some status;
  cancel_state = if cancel_state == "rejected" then "rejected" else r.cancel_state;
  updated_at = now;
}

-- A rejected cancellation lets the task run on.
unfoldable pub resume_task : Env → String → Bool → M (Unit {0})
resume_task env task_id false = return tt
resume_task env task_id true = do
  rows ←
      update_tasks (λ t. t.task_id == task_id && is_cancelling t.status)
        λ t. record t {
          status = InternalStatus.running;
          updated_at = now_unix env;
          version = t.version + 1;
        }
  return tt

unfoldable pub observe_transaction : Env → Lease → String → String → M (Unit {0})
observe_transaction env l status cancel_state = do
  rows ←
      update_runs (λ r. is_held l (now_unix env) r && is_submitted r.phase)
        (observe_run (now_unix env) status cancel_state)
  one_row rows
  resume_task env l.task_id (cancel_state == "rejected")

abbrev pub is_cancel_report : String → Bool
is_cancel_report cancel_state =
    cancel_state == "none" || (cancel_state == "requested" || cancel_state == "rejected")

unfoldable pub observe_remote_task : Env → Lease → String → String → M (Unit {0})
observe_remote_task env l status cancel_state =
    if not (status == "queued" || status == "running") || not (is_cancel_report cancel_state)
    then fail state_conflict
    else immediate (observe_transaction env l status cancel_state)
