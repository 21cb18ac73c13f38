-- ===== src/Domain/Status/Laws.antt =====
-- The public view of a task's state.
use minimax_proxy.Base.{
  ◌≡◌, String, Bool, true, false, Option, none, some, arith, eq_iff, any, ◌↔◌, not, ◌==◌, ◌||◌,
  string_eq, nat_eq,
}
use minimax_proxy.Domain.Status.{
  InternalStatus, V2Status, v2, internal_statuses, StatusRow, RemoteColumns, public_status,
  task_public_status_sql, scan_view, StatusView, is_final, protocol_tk2sd,
}

pub InternalStatus-discrete : Discrete InternalStatus
InternalStatus-discrete = hlevel

abbrev view_row : InternalStatus → Option String → Option RemoteColumns → StatusRow
view_row s p r = record { status = s; protocol_version = p; remote = r }

abbrev remote_row : String → Option String → String → RemoteColumns
remote_row ph u c = record { phase = ph; upstream_status = u; cancel_state = c }

remote_cases :
    (s : InternalStatus) (p ph : String) (u : Option String) (c : String)
    → public_status (scan_view (view_row s (some p) (some (remote_row ph u c))))
      ≡ task_public_status_sql (view_row s (some p) (some (remote_row ph u c)))
unfolding public_status scan_view task_public_status_sql v2
remote_cases s p ph none c = ground (arith, eq_iff "" "queued")
remote_cases s p ph (some u) c = ground arith

cases :
    (s : InternalStatus) (p : Option String) (r : Option RemoteColumns)
    → public_status (scan_view (view_row s p r)) ≡ task_public_status_sql (view_row s p r)
unfolding public_status scan_view task_public_status_sql v2
cases s none r = ground (arith, eq_iff "" "tk2sd-v1")
cases s (some p) none = ground (
  arith,
  eq_iff "" "requested",
  eq_iff "" "preparing",
  eq_iff "" "prepared",
  eq_iff "" "submitted",
)
cases s (some p) (some r) = remote_cases s p r.phase r.upstream_status r.cancel_state

-- The status that `PublicStatus` computes from a scanned task is the one that the SQL filter
-- computes from the row that was scanned, for every row.
pub public_status-scan_view :
    (r : StatusRow) → public_status (scan_view r) ≡ task_public_status_sql r
public_status-scan_view r = cases r.status r.protocol_version r.remote

-- membership, by constructor
abbrev pub same : InternalStatus → InternalStatus → Bool
same InternalStatus.queued_open InternalStatus.queued_open = true
same InternalStatus.queued_locked InternalStatus.queued_locked = true
same InternalStatus.dispatching InternalStatus.dispatching = true
same InternalStatus.running InternalStatus.running = true
same InternalStatus.reconciling InternalStatus.reconciling = true
same InternalStatus.cancelling InternalStatus.cancelling = true
same InternalStatus.succeeded InternalStatus.succeeded = true
same InternalStatus.failed InternalStatus.failed = true
same InternalStatus.cancelled InternalStatus.cancelled = true
same _ _ = false

-- What a task that has ended is seen as.
abbrev pub ends : V2Status → Bool
ends V2Status.succeeded = true
ends V2Status.failed = true
ends V2Status.cancelled = true
ends _ = false

-- For a task that has ended or that is not of the protocol tk2sd-v1, and for every task where the
-- status asked for is succeeded, failed or cancelled, `internalStatuses` lists the task's internal state
-- exactly if clients see the task, by `PublicStatus`, in the status asked for.
pub internal_statuses_iff :
    (t : StatusView) (p : V2Status)
    → (not (t.protocol_version == protocol_tk2sd) || (is_final t.status || ends p)) ≡ true
    → (any (same t.status) (internal_statuses (some p)) ≡ true) ↔ (public_status t ≡ p)
unfolding internal_statuses v2 public_status
internal_statuses_iff t p h = ground arith
