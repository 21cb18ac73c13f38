-- ===== src/Store/Cancel.antt =====
-- store.go, `RequestAdminCancel`, and remote_task_store.go, `RequestRemoteCancel`: an administrator
-- cancels a task.
pub mod Laws
use minimax_proxy.Domain.Status.{
  InternalStatus, queued_open, queued_locked, dispatching, reconciling, cancelling,
  admin_can_cancel, is_queued, protocol_tk2sd,
}
use minimax_proxy.Store.Tables.{
  Task, TaskStage, StageAttempt, StageStatus, AttemptStatus, RemoteRun, ModelNode, RemotePhase,
}
use minimax_proxy.Store.Db.{
  Db, Env, Error, M, immediate, task_not_found, task_not_operable, official_running_not_cancellable,
  remote_not_cancellable, now_unix, one_row, update_tasks,
}
use minimax_proxy.Base.{
  ◌>>=◌, ◌>>◌, Bool, List, Option, Result, String, any, coalesce, err, fail, false, first_where,
  get, guard, if◌then◌else◌, is_some, ltb, none, not, ok, return, some, true, update_where, ℕ, ◌&&◌,
  ◌*◌, ◌+◌, ◌==◌, ◌||◌, string_eq, nat_eq,
}
use minimax_proxy.Store.Barriers.{create_node_dispatch_barrier_for_task, is_open_attempt}
use minimax_proxy.Store.Callbacks.{create_callback_delivery_with_conn}
use minimax_proxy.Store.Claim.{same_status}
use minimax_proxy.Store.Queue.{rebalance}
use minimax_proxy.Store.Tasks.{is_cancelling, is_executing}

-- `stage_id IN (SELECT id FROM task_stages WHERE task_id=?)`.
abbrev pub is_stage_of : String → List TaskStage → String → Bool
is_stage_of task_id stages stage_id = any (λ s. s.task_id == task_id && s.id == stage_id) stages

-- `status NOT IN ('succeeded','failed','skipped','cancelled')`.
abbrev pub is_open_stage : StageStatus → Bool
is_open_stage StageStatus.succeeded = false
is_open_stage StageStatus.failed = false
is_open_stage StageStatus.skipped = false
is_open_stage StageStatus.cancelled = false
is_open_stage _ = true

abbrev pub is_cancellable : InternalStatus → Bool
is_cancellable cancelling = true
is_cancellable s = admin_can_cancel s

abbrev pub is_task_attempt : String → List TaskStage → StageAttempt → Bool
is_task_attempt task_id stages a = is_stage_of task_id stages a.stage_id && is_open_attempt a.status

abbrev pub is_task_stage : String → TaskStage → Bool
is_task_stage task_id s = s.task_id == task_id && is_open_stage s.status

abbrev pub cancel_attempt : ℕ → StageAttempt → StageAttempt
cancel_attempt now a = record a {
  status = AttemptStatus.failed;
  error_code = some "task_cancelled";
  error_message = some "任务已取消";
  heartbeat_at = some (now * 1000);
  finished_at = some (now * 1000);
}

abbrev pub cancel_stage : ℕ → TaskStage → TaskStage
cancel_stage now s = record s {
  status = StageStatus.cancelled;
  lease_token = none;
  lease_expires_at = none;
  next_attempt_at = none;
  updated_at = now * 1000;
  finished_at = some (coalesce s.finished_at (now * 1000));
  row_version = s.row_version + 1;
}

-- The first two statements of `finishStageTaskCancellation`.
unfoldable pub cancel_stages : String → ℕ → M (Unit {0})
cancel_stages task_id now db = (
  record db {
    attempts = update_where (is_task_attempt task_id db.stages) (cancel_attempt now) db.attempts;
    stages = update_where (is_task_stage task_id) (cancel_stage now) db.stages;
  },
  ok tt,
)

unfoldable pub finish_stage_task_cancellation : Env → String → ℕ → M (Unit {0})
finish_stage_task_cancellation env task_id now = do
  cancel_stages task_id now
  rows ←
      update_tasks (λ t. t.task_id == task_id && is_cancellable t.status)
        λ t. record t {
          status = InternalStatus.cancelled;
          cancel_locked = false;
          cancel_requested_at = some (coalesce t.cancel_requested_at now);
          upstream_id = none;
          active_stage_id = none;
          finished_at = some now;
          updated_at = now;
          version = t.version + 1;
        }
  one_row rows
  create_callback_delivery_with_conn env task_id "cancelled" (now * 1000)

abbrev pub is_remote_cancellable : InternalStatus → Bool
is_remote_cancellable cancelling = true
is_remote_cancellable s = is_executing s

abbrev pub is_terminal : RemotePhase → Bool
is_terminal RemotePhase.terminal = true
is_terminal _ = false

abbrev pub requested_run : ℕ → RemoteRun → RemoteRun
requested_run now r = record r { cancel_state = "requested"; next_poll_at = none; updated_at = now }

-- The updates of `RequestRemoteCancel`.
abbrev pub begin_cancel : Env → String → M (Unit {0})
begin_cancel env task_id =
    let now = now_unix env in
    do
      rows ←
          update_tasks
            (λ t.
              t.task_id == task_id
              && (t.upstream_slot_active
                  && (not (is_some t.deleted_at) && is_remote_cancellable t.status)))
            λ t. record t {
              status = cancelling;
              cancel_requested_at = some (coalesce t.cancel_requested_at now);
              updated_at = now;
              version = t.version + 1;
            }
      one_row rows
      λ db. (
        record db {
          remote_runs = update_where (λ r. r.task_id == task_id) (requested_run now) db.remote_runs;
        },
        ok tt,
      )

-- `RequestRemoteCancel` once the run has been read; a NULL upstream status reads as the empty text.
unfoldable pub cancel_run : Env → String → RemoteRun → M (Unit {0})
cancel_run env task_id r =
    if is_terminal r.phase
    then if coalesce r.upstream_status "" == "cancelled"
      then return tt
      else fail remote_not_cancellable
    else if coalesce r.upstream_status "" == "running" || r.cancel_state == "rejected"
    then fail remote_not_cancellable
    else begin_cancel env task_id

abbrev pub found_run : Db → Option RemoteRun → Db × Result Error RemoteRun
found_run db none = (db, err task_not_found)
found_run db (some r) = (db, ok r)

abbrev pub find_run : String → M RemoteRun
find_run task_id db = found_run db (first_where (λ r. r.task_id == task_id) db.remote_runs)

unfoldable pub request_remote_cancel : Env → String → M (Unit {0})
request_remote_cancel env task_id = immediate (find_run task_id >>= cancel_run env task_id)

-- The test before the transaction: an active task of the protocol tk2sd-v1.
abbrev pub is_remote_active : String → Task → Bool
is_remote_active task_id t =
    t.task_id == task_id
    && not (is_some t.deleted_at)
    && (coalesce t.protocol_version "" == protocol_tk2sd && t.upstream_slot_active)

-- The protocol of a node, or the empty text where there is no such node.
abbrev pub protocol_of : Option ModelNode → String
protocol_of none = ""
protocol_of (some n) = coalesce n.protocol_version ""

abbrev pub runs_official : List ModelNode → Task → Bool
runs_official nodes t =
    not (coalesce t.upstream_id "" == "")
    && (is_executing t.status
        && protocol_of (first_where (λ n. n.id == coalesce t.upstream_id "") nodes) == "minimax-v2")

unfoldable pub cancel_waiting : Env → String → Task → M (Unit {0})
cancel_waiting env task_id read =
    let now = now_unix env in
    do
      rows ←
          update_tasks (λ t. t.task_id == task_id && same_status t.status read.status)
            λ t. record t {
              status = InternalStatus.cancelled;
              cancel_locked = false;
              cancel_requested_at = some now;
              finished_at = some now;
              updated_at = now;
              version = t.version + 1;
            }
      one_row rows
      rebalance env
      create_callback_delivery_with_conn env task_id "cancelled" (now * 1000)

unfoldable pub cancel_executing : Env → String → Task → M (Unit {0})
cancel_executing env task_id read =
    let now = now_unix env in
    do
      rows ←
          update_tasks (λ t. t.task_id == task_id && same_status t.status read.status)
            λ t. record t {
              status = cancelling;
              cancel_requested_at = some now;
              updated_at = now;
              version = t.version + 1;
            }
      one_row rows

-- `hasBarrier || activeStageID != "" || upstreamID == ""`.
abbrev pub is_stage_run : Bool → Task → Bool
is_stage_run has_barrier t =
    has_barrier || (not (coalesce t.active_stage_id "" == "") || coalesce t.upstream_id "" == "")

-- The switch of `RequestAdminCancel`.
unfoldable pub cancel_by_status : Env → String → Task → Bool → M (Unit {0})
cancel_by_status env task_id t has_barrier =
    if is_queued t.status
    then if has_barrier
      then finish_stage_task_cancellation env task_id (now_unix env)
      else cancel_waiting env task_id t
    else if is_executing t.status
    then if is_stage_run has_barrier t
      then finish_stage_task_cancellation env task_id (now_unix env)
      else cancel_executing env task_id t
    else if is_cancelling t.status
    then if is_stage_run has_barrier t
      then finish_stage_task_cancellation env task_id (now_unix env)
      else return tt
    else fail task_not_operable

-- The transaction of `RequestAdminCancel` once the task has been read.
unfoldable pub cancel_task : Env → String → Task → M (Unit {0})
cancel_task env task_id t = do
  db ← get
  guard (not (runs_official db.nodes t)) official_running_not_cancellable
  has_barrier ← create_node_dispatch_barrier_for_task task_id (now_unix env * 1000)
  cancel_by_status env task_id t has_barrier

abbrev pub found_task : Db → Option Task → Db × Result Error Task
found_task db none = (db, err task_not_found)
found_task db (some t) = (db, ok t)

abbrev pub read_task : String → ℕ → M Task
read_task task_id now db = found_task db (
    first_where (λ t. t.task_id == task_id && (not (is_some t.deleted_at) && ltb now t.expires_at))
      db.tasks)

unfoldable pub request_admin_cancel : Env → String → M (Unit {0})
request_admin_cancel env task_id db =
    if any (is_remote_active task_id) db.tasks
    then request_remote_cancel env task_id db
    else immediate (read_task task_id (now_unix env) >>= cancel_task env task_id) db
