-- ===== src/Domain/Status.antt =====
-- internal/domain/task.go and task_routing.go: the task states and what clients see of them.
-- internal/store/sqlite/task_status.go and store.go: the same in SQL, for filters.
pub mod Laws
use minimax_proxy.Base.{
  String, Bool, true, false, ◌==◌, not, ◌&&◌, ◌||◌, if◌then◌else◌, List, [], ◌∷◌, Option, none,
  some, is_value, coalesce, string_eq,
}

pub data InternalStatus : Type 0 where
  queued_open queued_locked dispatching running reconciling cancelling succeeded failed cancelled :
      InternalStatus

pub data V2Status : Type 0 where
  queued running succeeded failed cancelled : V2Status

unfoldable pub v2 : InternalStatus → V2Status
v2 queued_open = V2Status.queued
v2 queued_locked = V2Status.queued
v2 dispatching = V2Status.running
v2 InternalStatus.running = V2Status.running
v2 reconciling = V2Status.running
v2 cancelling = V2Status.running
v2 InternalStatus.succeeded = V2Status.succeeded
v2 InternalStatus.failed = V2Status.failed
v2 InternalStatus.cancelled = V2Status.cancelled

abbrev pub can_cancel : InternalStatus → Bool
can_cancel queued_open = true
can_cancel _ = false

abbrev pub admin_can_cancel : InternalStatus → Bool
admin_can_cancel queued_open = true
admin_can_cancel queued_locked = true
admin_can_cancel dispatching = true
admin_can_cancel InternalStatus.running = true
admin_can_cancel reconciling = true
admin_can_cancel _ = false

abbrev pub admin_can_delete : InternalStatus → Bool
admin_can_delete InternalStatus.succeeded = true
admin_can_delete InternalStatus.failed = true
admin_can_delete InternalStatus.cancelled = true
admin_can_delete _ = false

unfoldable pub all_internal_statuses : List InternalStatus
all_internal_statuses =
    queued_open ∷ queued_locked ∷ dispatching ∷ InternalStatus.running ∷ reconciling ∷ cancelling
    ∷ InternalStatus.succeeded ∷ InternalStatus.failed ∷ InternalStatus.cancelled ∷ []

-- The SQL filter `status IN (…)` for a public status; an unknown one gives no statuses.
unfoldable pub internal_statuses : Option V2Status → List InternalStatus
internal_statuses (some V2Status.queued) = queued_open ∷ queued_locked ∷ []
internal_statuses (some V2Status.running) =
    dispatching ∷ InternalStatus.running ∷ reconciling ∷ cancelling ∷ []
internal_statuses (some V2Status.succeeded) = InternalStatus.succeeded ∷ []
internal_statuses (some V2Status.failed) = InternalStatus.failed ∷ []
internal_statuses (some V2Status.cancelled) = InternalStatus.cancelled ∷ []
internal_statuses none = []

abbrev pub protocol_h3 : String
protocol_h3 = "h3-node-v1"

abbrev pub protocol_official : String
protocol_official = "minimax-v2"

abbrev pub protocol_tk2sd : String
protocol_tk2sd = "tk2sd-v1"

abbrev pub protocol_legacy : String
protocol_legacy = "legacy-gradio-v1"

abbrev pub remote_preparing : String
remote_preparing = "preparing"

abbrev pub remote_prepared : String
remote_prepared = "prepared"

abbrev pub remote_submitted : String
remote_submitted = "submitted"

-- What `PublicStatus` reads of a scanned task: NULLs have become empty strings.
pub record StatusView : Type 0 where
  pub status : InternalStatus
  pub protocol_version : String
  pub remote_cancel_state : String
  pub remote_phase : String
  pub remote_upstream_status : String

-- Succeeded, failed or cancelled.
abbrev pub is_final : InternalStatus → Bool
is_final InternalStatus.succeeded = true
is_final InternalStatus.failed = true
is_final InternalStatus.cancelled = true
is_final _ = false

unfoldable pub public_status : StatusView → V2Status
public_status t =
    if not (t.protocol_version == protocol_tk2sd) || is_final t.status
    then v2 t.status
    else if t.remote_cancel_state == "requested"
    then V2Status.running
    else if t.remote_phase == remote_preparing
        || t.remote_phase == remote_prepared
        || (t.remote_phase == remote_submitted && t.remote_upstream_status == "queued")
    then V2Status.queued
    else v2 t.status

abbrev pub is_queued : InternalStatus → Bool
is_queued queued_open = true
is_queued queued_locked = true
is_queued _ = false

-- A row of task_remote_runs, as far as the SQL expression reads it.
pub record RemoteColumns : Type 0 where
  pub phase : String
  pub upstream_status : Option String
  pub cancel_state : String

-- The row that `taskPublicStatusSQL` is evaluated on. task_remote_runs.task_id is a primary key,
-- so the subqueries see at most one row.
pub record StatusRow : Type 0 where
  pub status : InternalStatus
  pub protocol_version : Option String
  pub remote : Option RemoteColumns

abbrev pub cancel_requested_sql : Option RemoteColumns → Bool
cancel_requested_sql none = false
cancel_requested_sql (some r) = r.cancel_state == "requested"

abbrev pub remote_queued_sql : Option RemoteColumns → Bool
remote_queued_sql none = false
remote_queued_sql (some r) =
    (r.phase == remote_preparing || r.phase == remote_prepared)
    || (r.phase == remote_submitted && is_value r.upstream_status "queued")

-- `taskPublicStatusSQL`, branch by branch.
unfoldable pub task_public_status_sql : StatusRow → V2Status
task_public_status_sql r =
    if is_final r.status
    then v2 r.status
    else if is_value r.protocol_version protocol_tk2sd && cancel_requested_sql r.remote
    then V2Status.running
    else if is_value r.protocol_version protocol_tk2sd && remote_queued_sql r.remote
    then V2Status.queued
    else if is_queued r.status
    then V2Status.queued
    else V2Status.running

abbrev pub remote_column : (RemoteColumns → String) → Option RemoteColumns → String
remote_column f none = ""
remote_column f (some r) = f r

-- The columns as `taskSelect` coalesces them and `scanTask` stores them.
unfoldable pub scan_view : StatusRow → StatusView
scan_view r = record {
  status = r.status;
  protocol_version = coalesce r.protocol_version "";
  remote_cancel_state = remote_column (λ c. c.cancel_state) r.remote;
  remote_phase = remote_column (λ c. c.phase) r.remote;
  remote_upstream_status = remote_column (λ c. coalesce c.upstream_status "") r.remote;
}
