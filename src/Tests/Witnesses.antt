-- ===== src/Tests/Witnesses.antt =====
-- Each theorem with hypotheses at concrete rows, where they hold.
use minimax_proxy.Tests.Samples
use minimax_proxy.Domain.Status.{
  queued_locked, dispatching, InternalStatus, StatusRow, V2Status, internal_statuses, public_status,
  scan_view, task_public_status_sql, StatusView, protocol_tk2sd,
}
use minimax_proxy.Store.Db.{Db, Env, state_conflict, Error}
use minimax_proxy.Store.Claim.Laws.{claim_next-exclusive}
use minimax_proxy.Store.Claim.Capacity.{claim_next_official-capacity}
use minimax_proxy.Base.{
  err, List, [], arith, count_where, first_where, min, none, refl, select_where, some, suc, true,
  ◌∷◌, ◌≡◌, ◌≤◌, any, ok, update_where, ◌*◌, ◌++◌, ◌-◌, ◌^◌, ◌↔◌, ◌≢◌, eq_iff, string_eq, nat_eq,
  map,
}
use minimax_proxy.Domain.Capability.{accepts, contains, contains_nat, first_mode, refuses, supports}
use minimax_proxy.Store.Callbacks.{
  create_callback_delivery_with_conn, deliver_event, insert_callback, new_delivery, ClaimedDelivery,
  claim_callback_delivery, lease_delivery,
}
use minimax_proxy.Store.Cancel.{
  cancel_stages, finish_stage_task_cancellation, cancel_run, request_remote_cancel,
}
use minimax_proxy.Store.Cancel.Laws.{
  Quiet, finish_stage_task_cancellation-Quiet, is_cancelled_task, late_reports-refused,
}
use minimax_proxy.Store.Claim.{
  claim_next, claim_next_official, claim_on_node, claim_transaction, dispatch_of, get_with,
  holds_slot_on, is_active_on, is_current_official, take_official_task, take_task,
}
use minimax_proxy.Store.Eligible.{
  catalog_with, eligible_in, eligible_on, next_eligible_task, next_from, next_round, scan_model,
  scan_models, scan_page, takes, task_eligible_for_node, valid_content,
}
use minimax_proxy.Store.Eligible.Paging.{conclude, next_eligible_task-scan}
use minimax_proxy.Store.Evolution.{Evolves}
use minimax_proxy.Store.Evolution.History.{
  KeepsFinal, TaskCall, task_run, task_run-KeepsFinal, task_step, task_step-Evolves,
}
use minimax_proxy.Store.Queue.{is_protected, is_ranked, rebalance, rebalance_row, rebalance_tasks}
use minimax_proxy.Store.Queue.Fifo.{
  InOrder, is_locked, rebalance_tasks-fifo, rebalance_tasks-protect,
}
use minimax_proxy.Store.Queue.Ranks.{protect, Above}
use minimax_proxy.Store.Stages.{bind_stage_execution, binds, bound_row}
use minimax_proxy.Store.Tables.{ModelNode, Task, RemotePhase, RemoteRun}
use minimax_proxy.Tests.Samples.{
  db, env, node, task_of, capability, delivery_of, requirements, worker, new_attempt, stage_db,
  claim_db,
}
use minimax_proxy.Callback.{Outcome, ReadResult, backoff, deliver_result, process_one, second}
use minimax_proxy.Callback.Attempts.{AllWithin, process_one-AllWithin}
use minimax_proxy.Callback.Backoff.{backoff_lem}
use minimax_proxy.Domain.Capability.Laws.{Accepted, accepts_iff}
use minimax_proxy.Domain.Status.Laws.{internal_statuses_iff, public_status-scan_view, same}
use minimax_proxy.Store.Callbacks.History.{
  DeliveryCall, delivery_run, delivery_run-KeepsSettled, event_for, event_recorded_once,
}
use minimax_proxy.Store.Callbacks.Laws.{KeepsSettled, claim_exclusive}
use minimax_proxy.Store.Stages.Laws.{bind_stage_execution-half}
use minimax_proxy.Store.Remote.{
  Lease, begin_remote_submission, bind_remote_job, bind_remote_run, bind_remote_task,
  bind_transaction, prepare_remote_request, acquire_remote_lease, take_lease,
}
use minimax_proxy.Store.Remote.History.{
  RemoteCall, remote_run, remote_run-AllContinued, remote_step,
}
use minimax_proxy.Store.Tasks.{mark_failed}
use minimax_proxy.Store.Tasks.Halves.{mark_failed-half, failed_tasks}
use minimax_proxy.Store.Stages.Attempts.{
  record_attempt, insert_attempt, admit_attempt, admit_attempt, create_stage_attempt,
  insert_attempt,
}
use minimax_proxy.Store.Stages.Bounds.{AllWithinAttempts, create_stage_attempt-Within}
use minimax_proxy.Store.Stages.Complete.{complete_stage}
use minimax_proxy.Store.Barriers.{create_node_dispatch_barrier_for_task, insert_barrier}
use minimax_proxy.Store.Barriers.Laws.{Reported, create_node_dispatch_barrier_for_task-blocks}
use minimax_proxy.Store.Remote.Phases.{AllContinued, UniqueRuns}
use minimax_proxy.Store.Remote.Complete.{
  RemoteCompletion, complete_remote_run, complete_run_task, complete_transaction,
  deliver_completion,
}
use minimax_proxy.Store.Remote.Claim.{
  admitted_capacity, claim_next_remote, claim_remote_on_node, insert_run, next_remote_task,
  scan_row, scan_rows, start_run, take_remote_task,
}

-- The task that both claims return, before the columns of an official claim.
abbrev claimed : Task
claimed = record (Samples.task_of 2 "task-2" "minimax-v2" dispatching (some "node-1")) {
  cancel_locked = true;
  started_at = some 1000;
  updated_at = 1000;
  version = 2;
}

claim_next-exclusive_example :
    (count_where (is_active_on "node-1") Samples.db.tasks ≡ 0)
    × (count_where
          (is_active_on "node-1")
          (claim_next Samples.env "node-1" (some 3) Samples.db).0.tasks
        ≡ 1)
unfolding claim_next claim_transaction next_eligible_task next_from next_round scan_page takes
    task_eligible_for_node eligible_on eligible_in catalog_with scan_models scan_model accepts
    supports contains contains_nat refuses first_mode take_task rebalance rebalance_tasks
    is_protected rebalance_row get_with valid_content
claim_next-exclusive_example =
    claim_next-exclusive Samples.env "node-1" (some 3) Samples.db
      (claim_next Samples.env "node-1" (some 3) Samples.db).0 claimed refl

claim_next_official-capacity_example :
    (n : ModelNode) × (first_where (is_current_official "node-1" 3) Samples.db.nodes ≡ some n)
    × (count_where
          (holds_slot_on "node-1")
          (claim_next_official Samples.env "node-1" 3 5 Samples.db).0.tasks
        ≤ min 5 n.max_concurrency)
unfolding claim_next_official claim_on_node next_eligible_task next_from next_round scan_page takes
    task_eligible_for_node eligible_on eligible_in catalog_with scan_models scan_model accepts
    supports contains contains_nat refuses first_mode take_official_task rebalance rebalance_tasks
    is_protected rebalance_row get_with valid_content
claim_next_official-capacity_example =
    claim_next_official-capacity Samples.env "node-1" 3 5 Samples.db
      (claim_next_official Samples.env "node-1" 3 5 Samples.db).0
      (record claimed {
        upstream_slot_active = true;
        upstream_node_version = 3;
        attempt_started_at = some 1000;
        dispatch_snapshot = some (dispatch_of Samples.node "node-1" 3 claimed);
      })
      refl

in_order : Above 0 Samples.db.tasks
in_order = (omega arith, (omega arith, (omega arith, tt)))

next_eligible_task-scan_example :
    next_eligible_task Samples.db "node-1" 1000
    ≡ conclude (scan_page Samples.db "node-1" 1000 (select_where is_ranked Samples.db.tasks))
next_eligible_task-scan_example = next_eligible_task-scan Samples.db "node-1" 1000 in_order

rebalance_tasks-protect_example :
    rebalance_tasks 1 1000 Samples.db.tasks ≡ protect 1 1000 Samples.db.tasks
rebalance_tasks-protect_example = rebalance_tasks-protect 1 1000 Samples.db.tasks in_order

rebalance_tasks-fifo_example :
    (count_where is_locked (rebalance_tasks 1 1000 Samples.db.tasks)
      ≡ min 1 (count_where is_ranked Samples.db.tasks))
    × InOrder (rebalance_tasks 1 1000 Samples.db.tasks)
rebalance_tasks-fifo_example = rebalance_tasks-fifo 1 1000 Samples.db.tasks in_order

-- A claim, the end of a stage, and an attempt to take the finished task up again.
abbrev calls : List (Env × TaskCall)
calls =
    (Samples.env, TaskCall.claim_next "node-1" none)
    ∷ (Samples.env, TaskCall.mark_failed "task-1" "node-2" "E1" "broken")
    ∷ (Samples.env, TaskCall.mark_running "task-1" "node-2")
    ∷ []

task_run-KeepsFinal_example : KeepsFinal Samples.db.tasks (task_run calls Samples.db).tasks
task_run-KeepsFinal_example = task_run-KeepsFinal calls Samples.db

task_step-Evolves_example :
    Evolves Samples.db.tasks
      (task_step Samples.env (TaskCall.request_admin_cancel "task-1") Samples.db).tasks
task_step-Evolves_example =
    task_step-Evolves Samples.env (TaskCall.request_admin_cancel "task-1") Samples.db

abbrev cancelled_db : Db
cancelled_db = (finish_stage_task_cancellation Samples.env "task-1" 1000 Samples.db).0

finish_stage_task_cancellation-Quiet_example :
    Quiet "task-1" cancelled_db
    × (count_where (is_cancelled_task "task-1") cancelled_db.tasks
        ≡ suc (count_where (is_cancelled_task "task-1") Samples.db.tasks))
unfolding finish_stage_task_cancellation cancel_stages create_callback_delivery_with_conn
    deliver_event insert_callback new_delivery
finish_stage_task_cancellation-Quiet_example =
    finish_stage_task_cancellation-Quiet Samples.env "task-1" 1000 Samples.db cancelled_db tt refl

late_reports-refused_example :
    (complete_stage Samples.env "stage-1" "lease-1" "attempt-1" "" cancelled_db
      ≡ (cancelled_db, err state_conflict))
    × (bind_stage_execution Samples.env "stage-1" "lease-1" "attempt-1" "run-1" cancelled_db
        ≡ (cancelled_db, err state_conflict))
unfolding finish_stage_task_cancellation cancel_stages create_callback_delivery_with_conn
    deliver_event insert_callback new_delivery
late_reports-refused_example =
    late_reports-refused Samples.env "task-1" "stage-1" "lease-1" "attempt-1" "" "run-1"
      cancelled_db finish_stage_task_cancellation-Quiet_example.0 refl

-- The two deliveries that two claims return.
abbrev first_delivery : ClaimedDelivery
first_delivery = record {
  delivery = Samples.delivery_of "d-1" "task-1" 1;
  callback_url_ciphertext = some (1 ∷ []);
  callback_url_nonce = some (2 ∷ []);
  api_key_id = "key-1";
}

abbrev second_delivery : ClaimedDelivery
second_delivery = record first_delivery { delivery = Samples.delivery_of "d-2" "task-3" 1 }

abbrev once_claimed : Db
once_claimed = (claim_callback_delivery 1000 2000 Samples.db).0

claim_exclusive_example : second_delivery.delivery.id ≢ first_delivery.delivery.id
unfolding claim_callback_delivery lease_delivery
claim_exclusive_example =
    claim_exclusive 1000 2000 1500 2500 Samples.db once_claimed
      (claim_callback_delivery 1500 2500 once_claimed).0 first_delivery second_delivery
      (((λ e. ground (arith, eq_iff "d-1" "d-2")), tt), (tt, tt)) (omega arith) refl refl

abbrev calls_of_worker : List (Env × DeliveryCall)
calls_of_worker =
    (Samples.env, DeliveryCall.claim 1000 2000)
    ∷ (Samples.env, DeliveryCall.succeed "d-1" 200 1100)
    ∷ (Samples.env, DeliveryCall.claim 1200 2200)
    ∷ []

delivery_run-KeepsSettled_example :
    KeepsSettled Samples.db.callbacks (delivery_run calls_of_worker Samples.db).callbacks
delivery_run-KeepsSettled_example = delivery_run-KeepsSettled calls_of_worker Samples.db

process_one-AllWithin_example :
    AllWithin 5
      (process_one Samples.env Samples.worker
        (λ c. deliver_result (λ n. "callback") (Outcome.answered 503 ReadResult.complete))
        1000000000
        Samples.db).0
process_one-AllWithin_example =
    process_one-AllWithin Samples.env Samples.worker
      (λ c. deliver_result (λ n. "callback") (Outcome.answered 503 ReadResult.complete)) 1000000000
      Samples.db ((omega arith, λ h. omega arith), ((omega arith, λ h. omega arith), tt))

event_recorded_once_example :
    (create_callback_delivery_with_conn Samples.env "task-2" "running" 1000 Samples.db ≡ (
      record Samples.db {
        callbacks = Samples.db.callbacks ++ event_for Samples.env "task-2" "running" 1 1000 ∷ [];
      },
      ok tt,
    ))
    × (create_callback_delivery_with_conn Samples.env "task-2" "failed" 2000 (record Samples.db {
      callbacks = Samples.db.callbacks ++ event_for Samples.env "task-2" "running" 1 1000 ∷ [];
    })
        ≡ (
          record Samples.db {
            callbacks =
                Samples.db.callbacks ++ event_for Samples.env "task-2" "running" 1 1000 ∷ [];
          },
          ok tt,
        ))
event_recorded_once_example =
    event_recorded_once Samples.env Samples.env "task-2" "running" "failed" 1000 2000
      (Samples.task_of 2 "task-2" "minimax-v2" queued_locked none) Samples.db refl refl
      (omega arith) refl refl

bind_stage_execution-half_example :
    bind_stage_execution Samples.env "stage-1" "lease-2" "attempt-1" "run-1" Samples.db ≡ (
      record Samples.db {
        attempts =
            update_where
              (binds "stage-1" "attempt-1" "run-1")
              (bound_row Samples.env "run-1")
              Samples.db.attempts;
      },
      err state_conflict,
    )
bind_stage_execution-half_example =
    bind_stage_execution-half Samples.env "stage-1" "lease-2" "attempt-1" "run-1" Samples.db refl
      refl refl

accepts_iff_example :
    (accepts Samples.capability Samples.requirements ≡ true)
    ↔ Accepted Samples.capability Samples.requirements
accepts_iff_example = accepts_iff Samples.capability Samples.requirements

abbrev remote_row : StatusRow
remote_row = record {
  status = InternalStatus.running;
  protocol_version = some "tk2sd-v1";
  remote =
      some (record { phase = "submitted"; upstream_status = some "queued"; cancel_state = "" });
}

public_status-scan_view_example :
    public_status (scan_view remote_row) ≡ task_public_status_sql remote_row
public_status-scan_view_example = public_status-scan_view remote_row

-- A task of the protocol tk2sd-v1 that runs, and a filter for the failed ones.
abbrev running_view : StatusView
running_view = record {
  status = InternalStatus.running;
  protocol_version = protocol_tk2sd;
  remote_cancel_state = "none";
  remote_phase = "submitted";
  remote_upstream_status = "running";
}

internal_statuses_iff_example :
    (any (same InternalStatus.running) (internal_statuses (some V2Status.failed)) ≡ true)
    ↔ (public_status running_view ≡ V2Status.failed)
internal_statuses_iff_example = internal_statuses_iff running_view V2Status.failed refl

backoff_lem_example : backoff Samples.worker 4 ≡ min (300 * second) (second * 2 ^ min 30 (4 - 1))
backoff_lem_example = backoff_lem Samples.worker 4

abbrev lease : Lease
lease = record { task_id = "task-1"; node_id = "node-2"; lease_token = "lease-1" }

-- What the node says of a result that needs no upload.
abbrev remote_result : RemoteCompletion
remote_result = record {
  status = "succeeded";
  result_url = "https://node/video.mp4";
  ratio = "16:9";
  error_code = "";
  error_message = "";
  feedback = none;
  upload_job = none;
}

-- The node takes a task; its request is prepared, submitted and bound; the run ends, and a
-- cancellation comes too late.
abbrev remote_calls : List (Env × RemoteCall)
remote_calls =
    (Samples.env, RemoteCall.claim "node-2" 3 1 [])
    ∷ (Samples.env, RemoteCall.acquire "task-1" "node-2" "lease-1" 60)
    ∷ (Samples.env, RemoteCall.prepare lease "{}")
    ∷ (Samples.env, RemoteCall.submit lease)
    ∷ (Samples.env, RemoteCall.bind lease "up-1")
    ∷ (Samples.env, RemoteCall.complete lease remote_result)
    ∷ (Samples.env, RemoteCall.cancel "task-1")
    ∷ []

remote_run-AllContinued_example :
    AllContinued Samples.claim_db.remote_runs (remote_run remote_calls Samples.claim_db).remote_runs
    × UniqueRuns (remote_run remote_calls Samples.claim_db).remote_runs
remote_run-AllContinued_example =
    remote_run-AllContinued remote_calls Samples.claim_db λ task_id. omega arith

-- The calls end the run.
remote_calls_phases :
    map (λ (r : RemoteRun). r.phase) (remote_run remote_calls Samples.claim_db).remote_runs
    ≡ RemotePhase.terminal ∷ []
unfolding remote_run remote_step claim_next_remote claim_remote_on_node admitted_capacity
    next_remote_task scan_rows scan_row take_remote_task start_run insert_run rebalance
    rebalance_tasks rebalance_row is_protected get_with accepts supports contains_nat contains
    refuses first_mode acquire_remote_lease take_lease prepare_remote_request
    begin_remote_submission bind_remote_task bind_transaction bind_remote_run bind_remote_job
    complete_remote_run complete_transaction complete_run_task deliver_completion
    create_callback_delivery_with_conn deliver_event insert_callback new_delivery
    request_remote_cancel cancel_run
remote_calls_phases = refl

-- A table in which the fresh identifier of the next event is taken.
abbrev taken_db : Db
taken_db = record Samples.db { callbacks = Samples.delivery_of "event-1" "task-3" 1 ∷ [] }

mark_failed-half_example :
    ((mark_failed Samples.env "task-1" "node-2" "E1" "broken" taken_db).1 ≡ err Error.constraint)
    × ((mark_failed Samples.env "task-1" "node-2" "E1" "broken" taken_db).0.tasks
        ≡ failed_tasks Samples.env "task-1" "node-2" "E1" "broken" taken_db.tasks)
unfolding create_callback_delivery_with_conn deliver_event insert_callback new_delivery
mark_failed-half_example =
    mark_failed-half Samples.env "task-1" "node-2" "E1" "broken" Error.constraint taken_db refl refl

create_stage_attempt-Within_example :
    AllWithinAttempts (create_stage_attempt Samples.env Samples.new_attempt Samples.stage_db).0
create_stage_attempt-Within_example =
    create_stage_attempt-Within Samples.env Samples.new_attempt Samples.stage_db (omega arith, tt)

-- The call of that example starts the attempt.
create_stage_attempt_ok :
    (create_stage_attempt Samples.env Samples.new_attempt Samples.stage_db).1 ≡ ok tt
unfolding create_stage_attempt admit_attempt record_attempt insert_attempt task_eligible_for_node
    eligible_on eligible_in catalog_with scan_models scan_model accepts supports contains
    contains_nat refuses first_mode rebalance rebalance_tasks is_protected rebalance_row
create_stage_attempt_ok = refl

create_node_dispatch_barrier_for_task-blocks_example :
    Reported "task-1" Samples.db
      (create_node_dispatch_barrier_for_task "task-1" 1000000 Samples.db).0
      true
unfolding create_node_dispatch_barrier_for_task insert_barrier
create_node_dispatch_barrier_for_task-blocks_example =
    create_node_dispatch_barrier_for_task-blocks "task-1" 1000000 Samples.db
      (create_node_dispatch_barrier_for_task "task-1" 1000000 Samples.db).0 true refl
