-- ===== src/Callback.antt =====
-- internal/callback/worker.go and service.go: the worker that delivers state events to a client's URL.
-- Durations and times of the worker are nanoseconds; a duration that is not positive is 0 here. What
-- the HTTP client does with a delivery is a parameter of the operations.
pub mod Backoff
pub mod Attempts
use minimax_proxy.Store.Tables.{CallbackDelivery}
use minimax_proxy.Store.Callbacks.{
  ClaimedDelivery, claim_callback_delivery, mark_callback_failed, mark_callback_succeeded,
  schedule_callback_retry,
}
use minimax_proxy.Store.Db.{Db, Env, Error, M}
use minimax_proxy.Base.{
  ok, err, Bool, Result, String, and_then, false, if◌then◌else◌, leb, ltb, true, ℕ, ◌&&◌, ◌*◌, ◌+◌,
  ◌-◌, ◌/◌, ◌==◌, ◌^◌, ◌||◌, string_eq, nat_eq,
}

pub record Worker : Type 0 where
  pub max_attempts : ℕ
  pub initial_backoff : ℕ
  pub max_backoff : ℕ
  pub lease_duration : ℕ
  pub is_empty : Error → Bool

abbrev pub second : ℕ
second = 1000000000

abbrev pub positive_or : ℕ → ℕ → ℕ
positive_or default n = if n == 0 then default else n

abbrev pub attempt_limit : Worker → ℕ
attempt_limit w = positive_or 5 w.max_attempts

abbrev pub lease_of : Worker → ℕ
lease_of w = positive_or (30 * second) w.lease_duration

abbrev pub initial_of : Worker → ℕ
initial_of w = positive_or second w.initial_backoff

abbrev pub maximum_of : Worker → ℕ
maximum_of w = positive_or (300 * second) w.max_backoff

-- `power`: at most 30. An attempt is at least 1.
abbrev pub power_of : ℕ → ℕ
power_of attempt = if ltb 30 (attempt - 1) then 30 else attempt - 1

unfoldable pub backoff : Worker → ℕ → ℕ
backoff w attempt =
    let initial = initial_of w in
    let maximum = maximum_of w in
    let factor = 2 ^ power_of attempt in
    if leb maximum initial || ltb (maximum / factor) initial then maximum else initial * factor

-- How the response was read: to its end, up to the limit, or not.
pub data ReadResult : Type 0 where
  complete too_large unreadable : ReadResult

-- What comes of a request: refused before it is sent, refused by the guard on addresses, failed on
-- the network, or answered with a status.
pub data Outcome : Type 0 where
  invalid : String → Outcome
  unsafe_url network_error : Outcome
  answered : ℕ → ReadResult → Outcome

-- `message` is the text that `deliveryError` makes of the error.
pub record DeliveryResult : Type 0 where
  pub success : Bool
  pub retryable : Bool
  pub http_status : ℕ
  pub message : String

abbrev pub is_success_status : ℕ → Bool
is_success_status status = leb 200 status && ltb status 300

abbrev pub is_retryable_status : ℕ → Bool
is_retryable_status status = status == 408 || (status == 429 || leb 500 status)

abbrev pub failure : Bool → ℕ → String → DeliveryResult
failure retryable status message = record {
  success = false;
  retryable = retryable;
  http_status = status;
  message = message;
}

abbrev pub read_result : ℕ → ReadResult → DeliveryResult
read_result status ReadResult.unreadable = failure true status "读取 callback 响应失败"
read_result status _ = record {
  success = true;
  retryable = false;
  http_status = status;
  message = "callback 投递失败";
}

-- `Deliver`. `status_message` is `callback 返回 HTTP %d`.
unfoldable pub deliver_result : (ℕ → String) → Outcome → DeliveryResult
deliver_result status_message (invalid message) = failure false 0 message
deliver_result status_message unsafe_url = failure false 0 "callback URL 安全校验失败"
deliver_result status_message network_error = failure true 0 "callback 网络请求失败"
deliver_result status_message (answered status read) =
    if is_success_status status
    then read_result status read
    else failure (is_retryable_status status) status (status_message status)

abbrev pub milliseconds : ℕ → ℕ
milliseconds nanoseconds = nanoseconds / 1000000

-- What the worker writes of a result; each write is a statement of its own.
unfoldable pub settle_delivery : Env → Worker → ℕ → ClaimedDelivery → DeliveryResult → M (Unit {0})
settle_delivery env w now c r =
    let attempt = c.delivery.attempt_count + 1 in
    if r.success
    then mark_callback_succeeded c.delivery.id r.http_status (milliseconds now)
    else if r.retryable && ltb attempt (attempt_limit w)
    then schedule_callback_retry env c.delivery.id attempt r.http_status r.message
        (milliseconds (now + backoff w attempt))
    else mark_callback_failed env c.delivery.id attempt r.http_status r.message

-- `ProcessOne` behind the claim: whether a delivery was worked on, or an error.
abbrev pub process_claim :
    Env
    → Worker
    → (ClaimedDelivery → DeliveryResult)
    → ℕ
    → Db × Result Error ClaimedDelivery
    → Db × Result Error Bool
process_claim env w deliver now (db, err e) = if w.is_empty e then (db, ok false) else (db, err e)
process_claim env w deliver now (db, ok c) =
    and_then (settle_delivery env w now c (deliver c) db) (λ _ s. (s, ok true))

unfoldable pub process_one : Env → Worker → (ClaimedDelivery → DeliveryResult) → ℕ → M Bool
process_one env w deliver now db =
    process_claim env w deliver now
      (claim_callback_delivery (milliseconds now) (milliseconds (now + lease_of w)) db)
