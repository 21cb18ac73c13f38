-- ===== src/Store/Callbacks/History.antt =====
-- The deliveries over any sequence of the operations of callback_store.go.
use minimax_proxy.Base.{
  ℕ, String, ◌≡◌, sym, ◌∙◌, subst, inl, inr, true, false, not, string_eq, nat_eq, List, [], ◌∷◌,
  Option, none, some, Result, err, arith, eq_iff, any, any-append, is_some, Bool-cases, ◌++◌, ◌<◌,
  ◌==◌, ok,
}
use minimax_proxy.Store.Tables.{Task, CallbackDelivery}
use minimax_proxy.Store.Db.{Db, Env, Error}
use minimax_proxy.Store.Callbacks.{
  find_task, same_event, insert_callback, deliver_event, breaks_constraint,
  create_callback_delivery_with_conn, create_callback_delivery, is_open_status,
  claim_callback_delivery, mark_callback_succeeded, schedule_callback_retry, mark_callback_failed,
  new_delivery,
}
use minimax_proxy.Store.Callbacks.Laws.{
  KeepsSettled, KeepsSettled-refl, finish_delivery-KeepsSettled, claim-KeepsSettled,
  insert-KeepsSettled,
}

-- A call of an operation that writes callback_deliveries.
pub data DeliveryCall : Type 0 where
  event : String → String → ℕ → DeliveryCall  -- a state change of a task
  create : CallbackDelivery → DeliveryCall
  claim : ℕ → ℕ → DeliveryCall
  succeed : String → ℕ → ℕ → DeliveryCall
  retry : String → ℕ → ℕ → String → ℕ → DeliveryCall
  fail : String → ℕ → ℕ → String → DeliveryCall

unfoldable pub delivery_step : Env → DeliveryCall → Db → Db
delivery_step env (event id status now) db =
    (create_callback_delivery_with_conn env id status now db).0
delivery_step env (create d) db = (create_callback_delivery env d db).0
delivery_step env (claim now lease_until) db = (claim_callback_delivery now lease_until db).0
delivery_step env (succeed id http at) db = (mark_callback_succeeded id http at db).0
delivery_step env (retry id attempt http message next) db =
    (schedule_callback_retry env id attempt http message next db).0
delivery_step env (fail id attempt http message) db =
    (mark_callback_failed env id attempt http message db).0

unfoldable pub delivery_run : List (Env × DeliveryCall) → Db → Db
delivery_run [] db = db
delivery_run ((env, c) ∷ cs) db = delivery_run cs (delivery_step env c db)

KeepsSettled-trans :
    (as_ bs cs : List CallbackDelivery)
    → KeepsSettled as_ bs
    → KeepsSettled bs cs
    → KeepsSettled as_ cs
KeepsSettled-trans [] bs cs h k = tt
KeepsSettled-trans (a ∷ as_) [] cs h k = absurd h
KeepsSettled-trans (a ∷ as_) (b ∷ bs) [] h k = absurd k
KeepsSettled-trans (a ∷ as_) (b ∷ bs) (c ∷ cs) h k = (
  (λ closed.
      let e = h.0 closed in
      k.0 (subst (λ (d : CallbackDelivery). is_open_status d.status ≡ false) (sym e) closed) ∙ e),
  KeepsSettled-trans as_ bs cs h.1 k.1,
)

deliver_event-KeepsSettled :
    (env : Env) (id status : String) (now : ℕ) (t : Task) (db : Db)
    → KeepsSettled db.callbacks (deliver_event env id status now t db).0.callbacks
unfolding deliver_event
deliver_event-KeepsSettled env id status now t db =
    elim (Bool-cases (not (is_some t.callback_url_ciphertext))) [
      | inl e ↦ rw e (KeepsSettled-refl db.callbacks)
      | inr e ↦ rw e (elim (Bool-cases (any (same_event id t.version) db.callbacks)) [
        | inl k ↦ rw k (KeepsSettled-refl db.callbacks)
        | inr k ↦ rw k (insert-KeepsSettled _ db)
      ])
    ]

event-KeepsSettled :
    (env : Env) (id status : String) (now : ℕ) (o : Option Task) (db : Db)
    → KeepsSettled db.callbacks
        (elim o as (λ _. Db × Result Error (Unit {0})) [
          | none ↦ (db, err Error.no_rows)
          | some t ↦ deliver_event env id status now t db
        ]).0.callbacks
event-KeepsSettled env id status now none db = KeepsSettled-refl db.callbacks
event-KeepsSettled env id status now (some t) db = deliver_event-KeepsSettled env id status now t db

step-KeepsSettled :
    (env : Env) (c : DeliveryCall) (db : Db)
    → KeepsSettled db.callbacks (delivery_step env c db).callbacks
unfolding delivery_step create_callback_delivery_with_conn create_callback_delivery
    mark_callback_succeeded schedule_callback_retry mark_callback_failed
step-KeepsSettled env (event id status now) db =
    event-KeepsSettled env id status now (find_task id db.tasks) db
step-KeepsSettled env (create d) db = insert-KeepsSettled _ db
step-KeepsSettled env (claim now lease_until) db = claim-KeepsSettled now lease_until db
step-KeepsSettled env (succeed id http at) db = finish_delivery-KeepsSettled id _ db
step-KeepsSettled env (retry id attempt http message next) db = finish_delivery-KeepsSettled id _ db
step-KeepsSettled env (fail id attempt http message) db = finish_delivery-KeepsSettled id _ db

-- A delivery that succeeded or failed is never touched again, whatever calls follow: events, inserts,
-- claims and marks.
pub delivery_run-KeepsSettled :
    (cs : List (Env × DeliveryCall)) (db : Db)
    → KeepsSettled db.callbacks (delivery_run cs db).callbacks
unfolding delivery_run
delivery_run-KeepsSettled [] db = KeepsSettled-refl db.callbacks
delivery_run-KeepsSettled ((env, c) ∷ cs) db =
    KeepsSettled-trans db.callbacks (delivery_step env c db).callbacks _
      (step-KeepsSettled env c db) (delivery_run-KeepsSettled cs (delivery_step env c db))

inserted :
    (d : CallbackDelivery) (db : Db)
    → breaks_constraint d db ≡ false
    → insert_callback d db ≡ (record db { callbacks = db.callbacks ++ d ∷ [] }, ok tt)
unfolding insert_callback
inserted d db h = rw h

-- The pending delivery that a state change adds.
unfoldable pub event_for : Env → String → String → ℕ → ℕ → CallbackDelivery
event_for env id status version now =
    new_delivery (env.uuid 0) id status version now (env.sha256_hex (env.event_body id status))
      (env.event_body id status)

deliver_event_fresh :
    (env : Env) (id status : String) (now : ℕ) (t : Task) (db : Db)
    → find_task id db.tasks ≡ some t
    → is_some t.callback_url_ciphertext ≡ true
    → 0 < t.version
    → any (λ (d : CallbackDelivery). d.id == env.uuid 0) db.callbacks ≡ false
    → any (same_event id t.version) db.callbacks ≡ false
    → deliver_event env id status now t db ≡ (
      record db { callbacks = db.callbacks ++ event_for env id status t.version now ∷ [] },
      ok tt,
    )
unfolding deliver_event event_for
deliver_event_fresh env id status now t db found target v fresh new =
    rw (target, new) (inserted (event_for env id status t.version now) db (allowed))
  where
    allowed : breaks_constraint (event_for env id status t.version now) db ≡ false
    allowed = unfold new_delivery in rw (fresh, new, found) (ground arith)

-- A state change of a task with a callback target records one pending delivery, for the version that
-- the task has then, behind the others; reporting that state again changes nothing.
pub event_recorded_once :
    (env env' : Env) (id status status' : String) (now now' : ℕ) (t : Task) (db : Db)
    → find_task id db.tasks ≡ some t
    → is_some t.callback_url_ciphertext ≡ true
    → 0 < t.version
    → any (λ (d : CallbackDelivery). d.id == env.uuid 0) db.callbacks ≡ false
    → any (same_event id t.version) db.callbacks ≡ false
    → let db' = record db {
      callbacks = db.callbacks ++ event_for env id status t.version now ∷ [];
    } in
      (create_callback_delivery_with_conn env id status now db ≡ (db', ok tt))
      × (create_callback_delivery_with_conn env' id status' now' db' ≡ (db', ok tt))
unfolding create_callback_delivery_with_conn
event_recorded_once env env' id status status' now now' t db found target v fresh new = (
  rw (found, create_callback_delivery_with_conn)
      (deliver_event_fresh env id status now t db found target v fresh new),
  rw (found, create_callback_delivery_with_conn) (again),
)
  where
    again :
        deliver_event env' id status' now' t
          (record db { callbacks = db.callbacks ++ event_for env id status t.version now ∷ [] })
        ≡ (
          record db { callbacks = db.callbacks ++ event_for env id status t.version now ∷ [] },
          ok tt,
        )
    again =
        unfold deliver_event event_for new_delivery in
        rw
          (
            target,
            any-append (same_event id t.version) db.callbacks
                (event_for env id status t.version now ∷ []),
          )
          (ground (arith, eq_iff id id))
