-- ===== src/Store/Db.antt =====
-- The database, and how an operation of internal/store/sqlite runs on it. An operation reads the
-- clock once here. Failures of SQLite itself (I/O, locks, a lost connection) are not modelled.
use minimax_proxy.Base.{
  ℕ, ◌/◌, String, Bool, ◌==◌, nat_eq, List, ok, Op, settle, guard, count_where, update_where,
  string_eq, Option,
}
use minimax_proxy.Store.Tables.{
  Bytes, Task, IdempotencyKey, CallbackDelivery, TaskStage, StageAttempt, DispatchBarrier,
  ModelNode, ModelCatalog, RemoteRun, SpoolFile, UploadJob,
}

pub record Db : Type 0 where
  pub tasks : List Task
  pub last_queue_seq : ℕ  -- the AUTOINCREMENT counter of video_tasks
  pub idempotency : List IdempotencyKey
  pub callbacks : List CallbackDelivery
  pub stages : List TaskStage
  pub attempts : List StageAttempt
  pub barriers : List DispatchBarrier
  pub nodes : List ModelNode
  pub catalogs : List ModelCatalog
  pub remote_runs : List RemoteRun
  pub spool_files : List SpoolFile
  pub upload_jobs : List UploadJob
  pub routing_revision : ℕ
  pub instance_id : Option String  -- of routing_state, where it has its row

pub data Error : Type 0 where
  task_not_found task_not_operable idempotency_conflict per_key_limit global_limit upstream_busy
        queue_empty state_conflict resource_unavailable official_running_not_cancellable
        remote_not_cancellable node_config_stale node_not_found route_ambiguous route_unavailable
        route_changed model_input no_claimable_stage no_callback_delivery barrier_conflict
        invalid_snapshot json_error no_rows constraint attempt_conflict invalid_event
        upload_not_retryable upload_not_found incomplete_callback invalid_stage invalid_spool_file :
      Error

-- `Options`, with its durations in seconds.
pub record Options : Type 0 where
  pub protected_slots : ℕ
  pub per_key_limit : ℕ
  pub global_limit : ℕ
  pub retention : ℕ
  pub idempotency_ttl : ℕ

-- What an operation takes from outside the program: the clock, fresh UUIDs (`uuid k` is the k-th that
-- it draws), the JSON text of a callback event, the hexadecimal SHA-256 of a body, the bytes of a text
-- and `json.Valid`.
pub record Env : Type 0 where
  pub options : Options
  pub open options use *
  pub now_millis : ℕ
  pub uuid : ℕ → String
  pub event_body : String → String → Bytes
  pub sha256_hex : Bytes → String
  pub text_bytes : String → Bytes
  pub json_valid : String → Bool

abbrev pub now_unix : Env → ℕ
now_unix env = env.now_millis / 1000

abbrev pub M : Type 0 → Type 0
M A = Op Db Error A

-- `immediate` and `completeTransaction`: an error rolls back.
abbrev pub immediate : {A : Type 0} → M A → M A
immediate m db = settle db (m db)

-- A transaction of an operation that returns its error and leaves it out of the `err` that the deferred
-- `completeTransaction` reads: what was written before the error is committed.
abbrev pub commits : {A : Type 0} → M A → M A
commits m = m

-- UPDATE video_tasks SET f WHERE p: the number of rows.
abbrev pub update_tasks : (Task → Bool) → (Task → Task) → M ℕ
update_tasks p f db = (record db { tasks = update_where p f db.tasks }, ok (count_where p db.tasks))

-- `oneRow`: a statement that must touch exactly one row.
abbrev pub one_row : ℕ → M (Unit {0})
one_row n = guard (n == 1) state_conflict
