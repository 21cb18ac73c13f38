-- ===== src/Store/Remote/Claim.antt =====
-- remote_task_store.go, `ClaimNextRemote`: a node takes the next task of the queue and its run begins.
use Prim.Native.String.{◌++◌ as str_append}
use minimax_proxy.Domain.Status.{dispatching, is_queued, protocol_tk2sd}
use minimax_proxy.Domain.Capability.{ModelCapability, accepts}
use minimax_proxy.Store.Tables.{
  DispatchSnapshot, Json, ModelCatalog, ModelNode, NodeModel, RemoteRun, RouteSnapshot, Task,
  decoded, preparing,
}
use minimax_proxy.Store.Db.{
  Db, Env, M, immediate, now_unix, one_row, update_tasks, node_config_stale, upstream_busy,
  queue_empty, state_conflict, constraint, json_error, no_rows, Error,
}
use minimax_proxy.Store.Claim.{first_start, get_with, holds_slot_on, is_current, query}
use minimax_proxy.Store.Eligible.{Query, codes}
use minimax_proxy.Store.Queue.{is_live, rebalance}
use minimax_proxy.Base.{
  ◌>>=◌, ◌>>◌, none, some, ◌==◌, ◌-◌, Bool, List, Option, Result, String, [], any, coalesce,
  count_where, err, fail, false, first_where, get, guard, if◌then◌else◌, is_some, is_value, length,
  ltb, min, not, ok, order_by, true, ℕ, ◌&&◌, ◌++◌, ◌+◌, ◌||◌, ◌∷◌, string_eq, nat_eq,
}

-- `domain.TK2SDAdmission`: the node's own account of its slots. The counts are natural numbers; the
-- source refuses a negative one of the occupied or cooling slots.
pub record Admission : Type 0 where
  pub capacity : ℕ
  pub occupied : ℕ
  pub cooling : ℕ
  pub queued : ℕ
  pub can_dispatch : Bool
  pub leased_task_ids : List String

abbrev pub refuses_dispatch : Admission → Bool
refuses_dispatch a =
    not a.can_dispatch
    || (ltb 0 a.queued
        || (ltb a.capacity 1
            || (ltb a.capacity a.occupied || ltb (a.capacity - a.occupied) a.cooling)))

abbrev pub upstream_id_of : Option RemoteRun → String
upstream_id_of none = ""
upstream_id_of (some r) = coalesce r.upstream_task_id ""

-- The identifier that the node gave to the task, or the empty text.
abbrev pub remote_id : List RemoteRun → Task → String
remote_id runs t = upstream_id_of (first_where (λ r. r.task_id == t.task_id) runs)

abbrev pub shares_lease : Admission → String → Bool
shares_lease a id = not (id == "") && any (λ l. l == id) a.leased_task_ids

-- The tasks that this program and the node both count.
abbrev pub overlap : Db → String → Admission → ℕ
overlap db node_id a =
    count_where (λ t. holds_slot_on node_id t && shares_lease a (remote_id db.remote_runs t))
      db.tasks

-- What the node's account leaves of the capacity; `admission` is an optional last argument.
unfoldable pub admitted_capacity : Db → String → List Admission → ℕ → Query ℕ
admitted_capacity db node_id [] capacity = ok capacity
admitted_capacity db node_id (a ∷ []) capacity =
    if refuses_dispatch a
    then err upstream_busy
    else if ltb a.occupied (overlap db node_id a)
    then err upstream_busy
    else ok (min capacity (a.capacity - a.occupied - a.cooling + overlap db node_id a))
admitted_capacity db node_id (a ∷ b ∷ rest) capacity = err state_conflict

-- `CatalogFingerprint`: the three texts with a zero byte between them.
abbrev pub catalog_fingerprint : Env → ModelNode → String
catalog_fingerprint env n = env.sha256_hex (
    env.text_bytes protocol_tk2sd
    ++ (0
        ∷ (env.text_bytes n.service_url
            ++ (0 ∷ env.text_bytes (coalesce n.api_key_fingerprint "")))))

abbrev pub is_ready_catalog : Env → ModelNode → ModelCatalog → Bool
is_ready_catalog env n c =
    is_some c.last_success_at
    && (c.connection_fingerprint == catalog_fingerprint env n
        && (not (c.source == "discovered") || ltb (now_unix env) (coalesce c.valid_until 0)))

abbrev pub is_remote_waiting : List RemoteRun → ℕ → Task → Bool
is_remote_waiting runs now t =
    is_value t.protocol_version protocol_tk2sd
    && (t.route_state == "ready"
        && (is_queued t.status
            && (is_live t
                && (not t.upstream_slot_active
                    && (ltb now t.expires_at && not (any (λ r. r.task_id == t.task_id) runs))))))

-- What the loop asks of a row whose two texts it decodes.
abbrev pub fits_route : Task → Json RouteSnapshot → Json ModelCapability → Bool
fits_route t (decoded s) (decoded c) =
    s.model == t.model && (s.protocol_version == protocol_tk2sd && accepts c s.requirements)
fits_route t _ _ = false

abbrev pub is_offered : NodeModel → Bool
is_offered m = m.enabled && m.present

-- A row of the join: a snapshot that is NULL cannot be scanned into a text.
unfoldable pub scan_row :
    Task → Option NodeModel → Option (Json RouteSnapshot) → Query Task → Query Task
scan_row t none snapshot rest = rest
scan_row t (some m) none rest = if is_offered m then err json_error else rest
scan_row t (some m) (some s) rest =
    if is_offered m && fits_route t s m.capabilities then ok t else rest

-- The loop over the rows: the first task that the node's model accepts.
unfoldable pub scan_rows : List NodeModel → (Task → Bool) → List Task → Query Task
scan_rows items waiting [] = err queue_empty
scan_rows items waiting (t ∷ ts) =
    let rest = scan_rows items waiting ts in
    if waiting t
    then scan_row t (first_where (λ m. m.model_id == t.model) items) t.routing_snapshot rest
    else rest

abbrev pub in_queue_order : Task → Task → Bool
in_queue_order s t = ltb s.queue_seq t.queue_seq

abbrev pub rows_of : Env → ModelNode → Db → Option ModelCatalog → Query Task
rows_of env n db none = err queue_empty
rows_of env n db (some c) =
    if is_ready_catalog env n c
    then scan_rows c.items (is_remote_waiting db.remote_runs (now_unix env))
        (order_by in_queue_order db.tasks)
    else err queue_empty

unfoldable pub next_remote_task : Env → ModelNode → String → Db → Query Task
next_remote_task env n node_id db =
    rows_of env n db (first_where (λ c. c.node_id == node_id) db.catalogs)

abbrev pub submission_key_of : String → String → String
submission_key_of instance_id task_id =
    str_append "proxy:" (str_append instance_id (str_append ":" task_id))

abbrev pub is_bad_key : Env → String → String → Bool
is_bad_key env instance_id key =
    instance_id == ""
    || (ltb 200 (length (env.text_bytes key)) || any (λ c. c == 13 || c == 10) (codes key))

abbrev pub remote_dispatch : ModelNode → String → ℕ → Task → DispatchSnapshot
remote_dispatch n node_id node_version selected = record {
  node_id = node_id;
  node_version = node_version;
  protocol_version = protocol_tk2sd;
  service_url = n.service_url;
  upstream_model = selected.model;
}

abbrev pub claim_remote_row : ModelNode → String → ℕ → Task → ℕ → Task → Task
claim_remote_row n node_id node_version selected now t = record t {
  status = dispatching;
  cancel_locked = true;
  upstream_id = some node_id;
  upstream_slot_active = true;
  upstream_node_version = node_version;
  delivery_required = n.replace_result_url;
  dispatch_snapshot = some (remote_dispatch n node_id node_version selected);
  started_at = first_start t now;
  attempt_started_at = some now;
  updated_at = now;
  version = t.version + 1;
}

-- The row of task_remote_runs with the table's defaults.
abbrev pub new_run : String → String → String → ℕ → RemoteRun
new_run task_id node_id key now = record {
  task_id = task_id;
  node_id = node_id;
  phase = preparing;
  submission_key = key;
  request_body_json = none;
  request_body_hash = none;
  upstream_task_id = none;
  upstream_status = none;
  cancel_state = "none";
  reconciliation_required = false;
  submit_attempts = 0;
  lease_token = none;
  lease_expires_at = none;
  next_poll_at = none;
  last_error_code = "";
  created_at = now;
  updated_at = now;
}

-- The keys of task_remote_runs.
abbrev pub breaks_run : RemoteRun → List RemoteRun → Bool
breaks_run r runs = any (λ s. s.task_id == r.task_id || s.submission_key == r.submission_key) runs

unfoldable pub insert_run : RemoteRun → M (Unit {0})
insert_run r db =
    if breaks_run r db.remote_runs
    then (db, err constraint)
    else (record db { remote_runs = db.remote_runs ++ r ∷ [] }, ok tt)

-- The writes of the transaction and the row that is returned.
unfoldable pub start_run : Env → ModelNode → String → ℕ → Task → String → M Task
start_run env n node_id node_version selected key = do
  rows ←
      update_tasks (λ t. t.task_id == selected.task_id && is_queued t.status)
        (claim_remote_row n node_id node_version selected (now_unix env))
  one_row rows
  insert_run (new_run selected.task_id node_id key (now_unix env))
  rebalance env
  get_with selected.api_key_id selected.task_id (now_unix env)

-- The submission key is made before anything is written.
unfoldable pub take_remote_task : Env → ModelNode → String → ℕ → Task → Option String → M Task
take_remote_task env n node_id node_version selected none = fail no_rows
take_remote_task env n node_id node_version selected (some instance_id) =
    let key = submission_key_of instance_id selected.task_id in
    if is_bad_key env instance_id key
    then fail state_conflict
    else start_run env n node_id node_version selected key

-- The transaction of `ClaimNextRemote` once the node's row has been read.
unfoldable pub claim_remote_on_node : Env → String → ℕ → ℕ → List Admission → ModelNode → M Task
claim_remote_on_node env node_id node_version capacity admission n = do
  db ← get
  limit ← query (λ s. admitted_capacity s node_id admission (min capacity n.max_concurrency))
  guard (ltb (count_where (holds_slot_on node_id) db.tasks) limit) upstream_busy
  selected ← query (next_remote_task env n node_id)
  take_remote_task env n node_id node_version selected db.instance_id

abbrev pub is_current_remote : String → ℕ → ModelNode → Bool
is_current_remote id version n =
    is_current id version n && is_value n.protocol_version protocol_tk2sd

abbrev pub found_remote : Db → Option ModelNode → Db × Result Error ModelNode
found_remote db none = (db, err node_config_stale)
found_remote db (some n) = (db, ok n)

abbrev pub find_remote : String → ℕ → M ModelNode
find_remote id version db = found_remote db (first_where (is_current_remote id version) db.nodes)

unfoldable pub claim_next_remote : Env → String → ℕ → ℕ → List Admission → M Task
claim_next_remote env node_id node_version capacity admission =
    if ltb capacity 1
    then fail upstream_busy
    else immediate (
        find_remote node_id node_version
        >>= claim_remote_on_node env node_id node_version capacity admission)
