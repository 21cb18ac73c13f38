-- ===== src/Store/Create.antt =====
-- store.go, `Create`: a new task, behind the check of its idempotency key and the limits.
pub mod Steps
pub mod Frame
pub mod Limits
pub mod Replay
use minimax_proxy.Store.Routes.{NewTask, prepare_task_routing}
use minimax_proxy.Base.{
  ◌>>=◌, ◌>>◌, return, Bool, Option, String, [], any, count_where, delete_where, fail, false,
  first_where, get, guard, if◌then◌else◌, ltb, none, ok, some, true, ℕ, ◌&&◌, ◌++◌, ◌+◌, ◌==◌, ◌∷◌,
  string_eq, nat_eq,
}
use minimax_proxy.Domain.Status.{InternalStatus}
use minimax_proxy.Protocol.Media.{Decoders}
use minimax_proxy.Store.Claim.{get_with, query}
use minimax_proxy.Store.Db.{Db, Env, Error, M, immediate, now_unix}
use minimax_proxy.Store.Details.{insert_spool_files, insert_stages}
use minimax_proxy.Store.NewTasks.{first_event, has_task_id, insert_task}
use minimax_proxy.Store.Queue.{is_live, rebalance}
use minimax_proxy.Store.Tables.{IdempotencyKey, Task}

-- `status IN (…)`, the states that count for the limits.
abbrev pub is_unfinished_status : InternalStatus → Bool
is_unfinished_status InternalStatus.succeeded = false
is_unfinished_status InternalStatus.failed = false
is_unfinished_status InternalStatus.cancelled = false
is_unfinished_status _ = true

abbrev pub counts : Task → Bool
counts t = is_live t && is_unfinished_status t.status

abbrev pub counts_for : String → Task → Bool
counts_for owner t = t.api_key_id == owner && counts t

abbrev pub is_key : String → String → IdempotencyKey → Bool
is_key owner key_hash k = k.api_key_id == owner && k.key_hash == key_hash

-- The key that has not expired, JOINed with its task.
unfoldable pub find_key : Db → String → String → ℕ → Option IdempotencyKey
find_key db owner key_hash now =
    if key_hash == ""
    then none
    else first_where
        (λ k.
          is_key owner key_hash k
          && (ltb now k.expires_at && any (λ t. has_task_id k.task_id t && is_live t) db.tasks))
        db.idempotency

abbrev pub forget_key : String → String → M (Unit {0})
forget_key owner key_hash db =
    if key_hash == ""
    then (db, ok tt)
    else (record db { idempotency = delete_where (is_key owner key_hash) db.idempotency }, ok tt)

abbrev pub new_key : Env → NewTask → String → IdempotencyKey
new_key env t key_hash = record {
  api_key_id = t.api_key_id;
  key_hash = key_hash;
  request_hash = t.request_hash;
  task_id = t.task_id;
  created_at = now_unix env;
  expires_at = now_unix env + env.idempotency_ttl;
}

-- No other row has the key: `forget_key` ran before.
abbrev pub remember_key : Env → NewTask → String → M (Unit {0})
remember_key env t key_hash db =
    if key_hash == ""
    then (db, ok tt)
    else (record db { idempotency = db.idempotency ++ new_key env t key_hash ∷ [] }, ok tt)

unfoldable pub within_limits : Env → String → M (Unit {0})
within_limits env owner = do
  db ← get
  guard (ltb (count_where (counts_for owner) db.tasks) env.per_key_limit) Error.per_key_limit
  guard (ltb (count_where counts db.tasks) env.global_limit) Error.global_limit

-- What belongs to the task in other tables.
unfoldable pub insert_details : Decoders → Env → NewTask → M (Unit {0})
insert_details m env t = do
  first_event env t
  insert_stages env t.task_id t.stages
  insert_spool_files m env t.task_id t.input_spool_files

-- `Create` for a key that is not known; `available` is the answer of its last argument.
unfoldable pub create_new : Decoders → Env → NewTask → String → Bool → M Task
create_new m env t key_hash available = do
  guard available Error.resource_unavailable
  forget_key t.api_key_id key_hash
  within_limits env t.api_key_id
  p ← query (λ db. prepare_task_routing db (now_unix env) t)
  insert_task env t p
  insert_details m env t
  remember_key env t key_hash
  rebalance env
  get_with t.api_key_id t.task_id (now_unix env)

-- The request of a known key must be the same one.
unfoldable pub create_or_replay :
    Decoders → Env → NewTask → String → Bool → Option IdempotencyKey → M Task
create_or_replay m env t key_hash available none = create_new m env t key_hash available
create_or_replay m env t key_hash available (some k) =
    if k.request_hash == t.request_hash
    then get_with t.api_key_id k.task_id (now_unix env)
    else fail Error.idempotency_conflict

unfoldable pub create : Decoders → Env → NewTask → String → Bool → M Task
create m env t key_hash available = immediate λ db.
    create_or_replay m env t key_hash available (find_key db t.api_key_id key_hash (now_unix env))
      db
