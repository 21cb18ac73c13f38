-- ===== src/Store/Callbacks.antt =====
-- callback_store.go: the deliveries that tell a client of its task's changes.
pub mod Laws
pub mod History
pub mod Frame
use minimax_proxy.Base.{
  ℕ, ◌+◌, String, Bool, true, false, ◌==◌, ◌&&◌, ◌||◌, not, string_eq, nat_eq, List, [], ◌∷◌, ◌++◌,
  Option, none, some, ok, err, return, fail, guard, settle, ◌>>=◌, ◌>>◌, and_then, leb,
  if◌then◌else◌, ltb, str_ltb, null_or_leb, null_zero, null_empty, count_where, update_where,
  first_where, least_where, any, is_some,
}
use minimax_proxy.Store.Tables.{
  Bytes, Task, CallbackDelivery, DeliveryStatus, pending, sending, retry_wait, succeeded, failed,
}
use minimax_proxy.Store.Db.{
  Db, Env, M, Error, immediate, one_row, state_conflict, no_callback_delivery, no_rows, constraint,
  invalid_snapshot,
}

-- SELECT … FROM video_tasks WHERE task_id=?.
abbrev pub find_task : String → List Task → Option Task
find_task id tasks = first_where (λ t. t.task_id == id) tasks

abbrev pub same_event : String → ℕ → CallbackDelivery → Bool
same_event task_id version d = d.task_id == task_id && d.state_version == version

-- The table's constraints on an insert: a fresh id, one row for a task's state, an existing task, a
-- positive state version.
abbrev pub breaks_constraint : CallbackDelivery → Db → Bool
breaks_constraint d db =
    any (λ e. e.id == d.id) db.callbacks
    || (any (same_event d.task_id d.state_version) db.callbacks
        || (not (is_some (find_task d.task_id db.tasks)) || d.state_version == 0))

unfoldable pub insert_callback : CallbackDelivery → M (Unit {0})
insert_callback d db =
    if breaks_constraint d db
    then (db, err constraint)
    else (record db { callbacks = db.callbacks ++ d ∷ [] }, ok tt)

-- The row that both inserts of a state event write.
unfoldable pub new_delivery : String → String → String → ℕ → ℕ → String → Bytes → CallbackDelivery
new_delivery id task_id external_status version now hash body = record {
  id = id;
  task_id = task_id;
  external_status = external_status;
  state_version = version;
  status = pending;
  attempt_count = 0;
  next_attempt_at = none;
  request_body_hash = hash;
  request_body = body;
  http_status = none;
  last_error = none;
  lease_expires_at = none;
  created_at = now;
  updated_at = now;
  delivered_at = none;
}

-- `createCallbackDeliveryWithConn` for a task that was found. ON CONFLICT(task_id,state_version) DO
-- NOTHING.
unfoldable pub deliver_event : Env → String → String → ℕ → Task → M (Unit {0})
deliver_event env task_id external_status now t db =
    if not (is_some t.callback_url_ciphertext)
    then (db, ok tt)
    else if any (same_event task_id t.version) db.callbacks
    then (db, ok tt)
    else insert_callback
        (new_delivery (env.uuid 0) task_id external_status t.version now
          (env.sha256_hex (env.event_body task_id external_status))
          (env.event_body task_id external_status))
        db

unfoldable pub create_callback_delivery_with_conn : Env → String → String → ℕ → M (Unit {0})
create_callback_delivery_with_conn env task_id external_status now db =
    elim (find_task task_id db.tasks) [
      | none ↦ (db, err no_rows)
      | some t ↦ deliver_event env task_id external_status now t db
    ]

-- `CreateCallbackDelivery`, with the defaults that it fills in; the status is never empty here.
unfoldable pub create_callback_delivery : Env → CallbackDelivery → M (Unit {0})
create_callback_delivery env d =
    let created = if d.created_at == 0 then env.now_millis else d.created_at in
    insert_callback (record d {
      created_at = created;
      updated_at = if d.updated_at == 0 then created else d.updated_at;
    })

abbrev pub is_open_status : DeliveryStatus → Bool
is_open_status pending = true
is_open_status retry_wait = true
is_open_status sending = true
is_open_status _ = false

abbrev pub is_sending : DeliveryStatus → Bool
is_sending sending = true
is_sending _ = false

abbrev pub has_target : List Task → CallbackDelivery → Bool
has_target tasks d = any (λ t. t.task_id == d.task_id && is_some t.callback_url_ciphertext) tasks

abbrev pub is_claimable : List Task → ℕ → CallbackDelivery → Bool
is_claimable tasks now d =
    has_target tasks d
    && (is_open_status d.status
        && (null_or_leb d.next_attempt_at now && null_or_leb d.lease_expires_at now))

-- ORDER BY created_at, id.
abbrev pub before : CallbackDelivery → CallbackDelivery → Bool
before d e = ltb d.created_at e.created_at || (d.created_at == e.created_at && str_ltb d.id e.id)

-- The selected delivery, as it was before the claim, and what the join takes from its task.
pub record ClaimedDelivery : Type 0 where
  pub delivery : CallbackDelivery
  pub callback_url_ciphertext : Option Bytes
  pub callback_url_nonce : Option Bytes
  pub api_key_id : String

abbrev pub with_target : List Task → CallbackDelivery → Option ClaimedDelivery
with_target tasks d =
    elim (first_where (λ t. t.task_id == d.task_id && is_some t.callback_url_ciphertext) tasks) [
      | none ↦ none
      | some t ↦ some (record {
        delivery = d;
        callback_url_ciphertext = t.callback_url_ciphertext;
        callback_url_nonce = t.callback_url_nonce;
        api_key_id = t.api_key_id;
      })
    ]

abbrev pub lease_row : ℕ → ℕ → CallbackDelivery → CallbackDelivery
lease_row now lease_until d = record d {
  status = sending;
  lease_expires_at = some lease_until;
  updated_at = now;
}

abbrev pub may_lease : String → ℕ → CallbackDelivery → Bool
may_lease id now d = d.id == id && null_or_leb d.lease_expires_at now

-- The UPDATE of the claim: any failure of it is reported as "nothing to deliver".
unfoldable pub lease_delivery : ℕ → ℕ → Option ClaimedDelivery → M ClaimedDelivery
lease_delivery now lease_until none db = (db, err no_callback_delivery)
lease_delivery now lease_until (some c) db =
    if count_where (may_lease c.delivery.id now) db.callbacks == 1
    then (
      record db {
        callbacks =
            update_where (may_lease c.delivery.id now) (lease_row now lease_until) db.callbacks;
      },
      ok c,
    )
    else (db, err no_callback_delivery)

abbrev pub target_of : List Task → Option CallbackDelivery → Option ClaimedDelivery
target_of tasks none = none
target_of tasks (some d) = with_target tasks d

abbrev pub select_delivery : ℕ → Db → Option ClaimedDelivery
select_delivery now db =
    target_of db.tasks (least_where before (is_claimable db.tasks now) db.callbacks)

unfoldable pub claim_callback_delivery : ℕ → ℕ → M ClaimedDelivery
claim_callback_delivery now lease_until db =
    settle db (lease_delivery now lease_until (select_delivery now db) db)

-- UPDATE callback_deliveries SET f WHERE id=? AND status='sending', and `oneRow`.
unfoldable pub finish_delivery : String → (CallbackDelivery → CallbackDelivery) → M (Unit {0})
finish_delivery id f db =
    let p = λ (d : CallbackDelivery). d.id == id && is_sending d.status in
    one_row (count_where p db.callbacks) (record db { callbacks = update_where p f db.callbacks })

unfoldable pub mark_callback_succeeded : String → ℕ → ℕ → M (Unit {0})
mark_callback_succeeded id http_status delivered_at = finish_delivery id λ d. record d {
  status = succeeded;
  attempt_count = d.attempt_count + 1;
  http_status = some http_status;
  last_error = none;
  next_attempt_at = none;
  lease_expires_at = none;
  delivered_at = some delivered_at;
  updated_at = delivered_at;
}

unfoldable pub schedule_callback_retry : Env → String → ℕ → ℕ → String → ℕ → M (Unit {0})
schedule_callback_retry env id attempt http_status message next_attempt = finish_delivery id λ d.
    record d {
      status = retry_wait;
      attempt_count = attempt;
      http_status = null_zero http_status;
      last_error = some message;
      next_attempt_at = some next_attempt;
      lease_expires_at = none;
      updated_at = env.now_millis;
    }

unfoldable pub mark_callback_failed : Env → String → ℕ → ℕ → String → M (Unit {0})
mark_callback_failed env id attempt http_status message = finish_delivery id λ d. record d {
  status = failed;
  attempt_count = attempt;
  http_status = null_zero http_status;
  last_error = some message;
  next_attempt_at = none;
  lease_expires_at = none;
  updated_at = env.now_millis;
}
