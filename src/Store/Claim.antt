-- ===== src/Store/Claim.antt =====
-- store.go and official_task_store.go: an upstream takes the next task of the queue.
pub mod Laws
pub mod Capacity
use minimax_proxy.Domain.Status.{
  InternalStatus, dispatching, reconciling, cancelling, protocol_official,
}
use minimax_proxy.Store.Tables.{Task, ModelNode, DispatchSnapshot}
use minimax_proxy.Store.Db.{
  Db, Env, M, Error, immediate, update_tasks, one_row, now_unix, node_config_stale, upstream_busy,
  state_conflict, task_not_found,
}
use minimax_proxy.Store.Queue.{is_live, rebalance}
use minimax_proxy.Store.Eligible.{Query, next_eligible_task}
use minimax_proxy.Base.{
  ◌>>=◌, ◌>>◌, Bool, Option, String, coalesce, count_where, err, fail, false, first_where, get,
  guard, if◌then◌else◌, is_some, is_value, ltb, min, none, not, ok, some, true, ℕ, ◌&&◌, ◌+◌, ◌==◌,
  string_eq, nat_eq, Result,
}

-- `status IN ('dispatching','running','reconciling','cancelling')`.
abbrev pub is_active_status : InternalStatus → Bool
is_active_status dispatching = true
is_active_status InternalStatus.running = true
is_active_status reconciling = true
is_active_status cancelling = true
is_active_status _ = false

-- The rows that make an upstream busy for `ClaimNext`.
abbrev pub is_active_on : String → Task → Bool
is_active_on upstream_id t = is_value t.upstream_id upstream_id && is_active_status t.status

-- The rows that hold one of the node's slots.
abbrev pub holds_slot_on : String → Task → Bool
holds_slot_on node_id t = is_value t.upstream_id node_id && t.upstream_slot_active

-- `status=?` with the status that was read in the same transaction.
abbrev pub same_status : InternalStatus → InternalStatus → Bool
same_status InternalStatus.queued_open InternalStatus.queued_open = true
same_status InternalStatus.queued_locked InternalStatus.queued_locked = true
same_status InternalStatus.dispatching InternalStatus.dispatching = true
same_status InternalStatus.running InternalStatus.running = true
same_status InternalStatus.reconciling InternalStatus.reconciling = true
same_status InternalStatus.cancelling InternalStatus.cancelling = true
same_status InternalStatus.succeeded InternalStatus.succeeded = true
same_status InternalStatus.failed InternalStatus.failed = true
same_status InternalStatus.cancelled InternalStatus.cancelled = true
same_status _ _ = false

abbrev pub is_wanted : Task → Task → Bool
is_wanted selected t = t.task_id == selected.task_id && same_status t.status selected.status

-- `getWith`: the owner's task, if it is neither deleted nor expired.
abbrev pub is_visible : String → String → ℕ → Task → Bool
is_visible owner task_id now t =
    t.task_id == task_id && (t.api_key_id == owner && (is_live t && ltb now t.expires_at))

unfoldable pub get_with : String → String → ℕ → M Task
get_with owner task_id now db = elim (first_where (is_visible owner task_id now) db.tasks) [
  | none ↦ (db, err task_not_found)
  | some t ↦ (db, ok t)
]

-- A query inside a transaction.
abbrev pub query : {A : Type 0} → (Db → Query A) → M A
query q db = (db, q db)

-- COALESCE(started_at, now).
abbrev pub first_start : Task → ℕ → Option ℕ
first_start t now = some (coalesce t.started_at now)

-- The row of a node that still has the version that the caller saw.
abbrev pub is_current : String → ℕ → ModelNode → Bool
is_current id version n =
    n.id == id && (n.version == version && (n.enabled && not (is_some n.deleted_at)))

abbrev pub version_is_current : String → Option ℕ → Db → Bool
version_is_current upstream_id none db = true
version_is_current upstream_id (some version) db =
    count_where (is_current upstream_id version) db.nodes == 1

abbrev pub claim_row : String → ℕ → Task → Task
claim_row upstream_id now t = record t {
  status = dispatching;
  cancel_locked = true;
  upstream_id = some upstream_id;
  started_at = first_start t now;
  updated_at = now;
  version = t.version + 1;
}

-- The update of `ClaimNext`, the new ranks and the row that is returned.
unfoldable pub take_task : Env → String → Task → M Task
take_task env upstream_id selected = do
  rows ← update_tasks (is_wanted selected) (claim_row upstream_id (now_unix env))
  one_row rows
  rebalance env
  get_with selected.api_key_id selected.task_id (now_unix env)

-- The transaction of `ClaimNext`. `expected_version` is its optional last argument.
unfoldable pub claim_transaction : Env → String → Option ℕ → M Task
claim_transaction env upstream_id expected_version = do
  db ← get
  guard (version_is_current upstream_id expected_version db) node_config_stale
  guard (not (ltb 0 (count_where (is_active_on upstream_id) db.tasks))) upstream_busy
  selected ← query (λ s. next_eligible_task s upstream_id (now_unix env))
  take_task env upstream_id selected

unfoldable pub claim_next : Env → String → Option ℕ → M Task
claim_next env upstream_id expected_version =
    immediate (claim_transaction env upstream_id expected_version)

abbrev pub is_current_official : String → ℕ → ModelNode → Bool
is_current_official id version n =
    is_current id version n && is_value n.protocol_version protocol_official

abbrev pub found_official : Db → Option ModelNode → Db × Result Error ModelNode
found_official db none = (db, err node_config_stale)
found_official db (some n) = (db, ok n)

abbrev pub find_official : String → ℕ → M ModelNode
find_official id version db =
    found_official db (first_where (is_current_official id version) db.nodes)

-- The snapshot of the node that `ClaimNextOfficial` stores with the task.
abbrev pub dispatch_of : ModelNode → String → ℕ → Task → DispatchSnapshot
dispatch_of n node_id node_version selected = record {
  node_id = node_id;
  node_version = node_version;
  protocol_version = protocol_official;
  service_url = n.service_url;
  upstream_model = if n.legacy_model_compat then n.upstream_model else selected.model;
}

abbrev pub claim_official_row : ModelNode → String → ℕ → Task → ℕ → Task → Task
claim_official_row n node_id node_version selected now t = record t {
  status = dispatching;
  cancel_locked = true;
  upstream_id = some node_id;
  upstream_slot_active = true;
  upstream_node_version = node_version;
  delivery_required = n.replace_result_url;
  dispatch_snapshot = some (dispatch_of n node_id node_version selected);
  started_at = first_start t now;
  attempt_started_at = some now;
  updated_at = now;
  version = t.version + 1;
}

unfoldable pub take_official_task : Env → ModelNode → String → ℕ → Task → M Task
take_official_task env n node_id node_version selected = do
  rows ←
      update_tasks (is_wanted selected)
        (claim_official_row n node_id node_version selected (now_unix env))
  one_row rows
  rebalance env
  get_with selected.api_key_id selected.task_id (now_unix env)

-- The transaction of `ClaimNextOfficial` once the node's row has been read.
unfoldable pub claim_on_node : Env → String → ℕ → ℕ → ModelNode → M Task
claim_on_node env node_id node_version capacity n = do
  db ← get
  guard (ltb (count_where (holds_slot_on node_id) db.tasks) (min capacity n.max_concurrency))
      upstream_busy
  selected ← query (λ s. next_eligible_task s node_id (now_unix env))
  take_official_task env n node_id node_version selected

unfoldable pub claim_next_official : Env → String → ℕ → ℕ → M Task
claim_next_official env node_id node_version capacity =
    if ltb capacity 1
    then fail upstream_busy
    else immediate
        (find_official node_id node_version >>= claim_on_node env node_id node_version capacity)
