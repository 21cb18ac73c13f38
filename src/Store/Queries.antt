-- ===== src/Store/Queries.antt =====
-- Queries of store.go, stage_store.go and remote_task_store.go that change nothing, and
-- `CreateTaskCallbackDelivery` of callback_store.go. The task table stands in the order of queue_seq.
use minimax_proxy.Store.Tables.{Task, RemoteRun, StageAttempt, Bytes}
use minimax_proxy.Store.Db.{
  Db, Env, Error, M, task_not_found, no_claimable_stage, invalid_event, now_unix,
}
use minimax_proxy.Store.Eligible.{Query}
use minimax_proxy.Base.{
  ok, err, Bool, List, Option, String, any, coalesce, count_where, first_where, if◌then◌else◌,
  is_some, is_value, least_where, leb, ltb, none, not, select_where, some, ℕ, ◌&&◌, ◌==◌, ◌||◌,
  string_eq, nat_eq,
}
use minimax_proxy.Domain.Status.{is_queued, protocol_tk2sd}
use minimax_proxy.Store.Callbacks.{create_callback_delivery, find_task, new_delivery}
use minimax_proxy.Store.Cancel.{is_terminal}
use minimax_proxy.Store.Claim.{get_with, is_active_on}
use minimax_proxy.Store.Queue.{is_live}

unfoldable pub get_task : Env → String → String → M Task
get_task env owner task_id = get_with owner task_id (now_unix env)

unfoldable pub get_task_for_execution : String → Db → Query Task
get_task_for_execution task_id db =
    elim (first_where (λ t. t.task_id == task_id && is_live t) db.tasks) [
      | none ↦ err task_not_found
      | some t ↦ ok t
    ]

-- A live task on the upstream, in an active state. Without an order SQLite may return any such row;
-- here it is the first one.
unfoldable pub active_for_upstream : String → Db → Query Task
active_for_upstream upstream_id db =
    elim (first_where (λ t. is_active_on upstream_id t && is_live t) db.tasks) [
      | none ↦ err task_not_found
      | some t ↦ ok t
    ]

unfoldable pub queued_remote_count : Env → Db → ℕ
queued_remote_count env db =
    count_where
      (λ t.
        is_value t.protocol_version protocol_tk2sd
        && (is_queued t.status
            && (not t.upstream_slot_active && (is_live t && ltb (now_unix env) t.expires_at))))
      db.tasks

abbrev pub is_due : ℕ → RemoteRun → Bool
is_due now r =
    not (is_terminal r.phase)
    && (not r.reconciliation_required
        && (leb (coalesce r.next_poll_at 0) now && leb (coalesce r.lease_expires_at 0) now))

unfoldable pub list_active_remote_tasks : Env → String → Db → List Task
list_active_remote_tasks env node_id db =
    select_where
      (λ t.
        is_value t.upstream_id node_id
        && (t.upstream_slot_active
            && (is_live t
                && (is_value t.protocol_version protocol_tk2sd
                    && any (λ r. r.task_id == t.task_id && is_due (now_unix env) r)
                        db.remote_runs))))
      db.tasks

-- ORDER BY a.attempt_no DESC LIMIT 1.
unfoldable pub get_running_stage_attempt : String → String → Db → Query StageAttempt
get_running_stage_attempt stage_id lease_token db =
    elim (least_where (λ (a b : StageAttempt). ltb b.attempt_no a.attempt_no)
      (λ a.
        a.stage_id == stage_id
        && any (λ s. s.id == a.stage_id && is_value s.lease_token lease_token) db.stages)
      db.attempts) [ none ↦ err no_claimable_stage | some a ↦ ok a ]

-- `CreateTaskCallbackDelivery` for a task that was found.
abbrev pub deliver_content : Env → String → String → ℕ → Bytes → Option Task → M (Unit {0})
deliver_content env task_id external_status version body none db = (db, err Error.no_rows)
deliver_content env task_id external_status version body (some t) db =
    if not (is_some t.callback_url_ciphertext)
    then (db, ok tt)
    else create_callback_delivery env
        (new_delivery (env.uuid 0) task_id external_status version 0 (env.sha256_hex body) body) db

-- `body` is the JSON text of the task's identifier, the status and the content.
unfoldable pub create_task_callback_delivery : Env → String → String → ℕ → Bytes → M (Unit {0})
create_task_callback_delivery env task_id external_status version body db =
    if task_id == "" || ltb version 1
    then (db, err invalid_event)
    else deliver_content env task_id external_status version body (find_task task_id db.tasks) db
