-- ===== src/Store/Cancel/Laws.antt =====
-- What a cancellation leaves behind, and what becomes of a node's late reports.
use minimax_proxy.Store.Tables.{TaskStage, StageAttempt, Task, AttemptStatus}
use minimax_proxy.Store.Db.{Db, Env, Error, state_conflict}
use minimax_proxy.Base.{
  Bool, List, String, [], arith, count_where, count_where-none_left, refl, update_where, ℕ, ◌∙◌,
  ◌∷◌, ◌≡◌, Bool-cases, Result, ap, err, false, inl, inr, ok, ok≢err, subst, suc, sym, true, ◌&&◌,
  ◌==◌, string_eq, nat_eq, coalesce, count_where-update, none, some, ◌*◌, ◌+◌, any-none, eq_iff,
  update_where_none,
}
use minimax_proxy.Store.Cancel.{
  cancel_attempt, cancel_stage, cancel_stages, is_stage_of, is_task_attempt, is_task_stage,
  finish_stage_task_cancellation, is_cancellable,
}
use minimax_proxy.Domain.Status.{InternalStatus}
use minimax_proxy.Store.Barriers.{is_open_attempt}
use minimax_proxy.Store.Callbacks.{create_callback_delivery_with_conn}
use minimax_proxy.Store.Callbacks.Frame.{event-Framed}
use minimax_proxy.Store.Stages.{
  bind_attempt, bind_stage_execution, is_attempt, is_bound, execution_taken, may_bind,
}
use minimax_proxy.Store.Stages.Complete.{complete_stage}

-- The rows of a cancelled task: no stage is open, and no attempt at one of its stages.
pub record Quiet (task_id : String) (db : Db) : Type 0 where
  pub stages_closed : count_where (is_task_stage task_id) db.stages ≡ 0
  pub attempts_closed : count_where (is_task_attempt task_id db.stages) db.attempts ≡ 0

-- Cancelling a stage does not change whose stage it is.
is_stage_of-cancel :
    (task_id id stage_id : String) (now : ℕ) (stages : List TaskStage)
    → is_stage_of id (update_where (is_task_stage task_id) (cancel_stage now) stages) stage_id
      ≡ is_stage_of id stages stage_id
is_stage_of-cancel task_id id stage_id now [] = refl
is_stage_of-cancel task_id id stage_id now (s ∷ stages) =
    ground (arith, is_stage_of-cancel task_id id stage_id now stages)

count_where-same {ℓ} :
    {A : Type ℓ} (p q : A → Bool) (xs : List A)
    → ((x : A) → p x ≡ q x)
    → count_where p xs ≡ count_where q xs
count_where-same p q [] h = refl
count_where-same p q (x ∷ xs) h = ground (arith, h x, count_where-same p q xs h)

cancel_stages-Quiet :
    (task_id : String) (now : ℕ) (db : Db) → Quiet task_id (cancel_stages task_id now db).0
unfolding cancel_stages
cancel_stages-Quiet task_id now db = record {
  stages_closed =
      count_where-none_left (is_task_stage task_id) (cancel_stage now) db.stages
        (λ s. ground arith);
  attempts_closed =
      count_where-same _ (is_task_attempt task_id db.stages) _
        (λ a. rw (is_stage_of-cancel task_id task_id a.stage_id now db.stages))
      ∙ count_where-none_left (is_task_attempt task_id db.stages) (cancel_attempt now) db.attempts
          (λ a. ground arith);
}

abbrev pub is_cancelled_task : String → Task → Bool
is_cancelled_task task_id t =
    t.task_id == task_id && elim t.status [ InternalStatus.cancelled ↦ true | _ ↦ false ]

event-cancelled :
    (env : Env) (task_id status : String) (now n : ℕ) (db db' : Db) (u : Unit {0})
    → create_callback_delivery_with_conn env task_id status now db ≡ (db', ok u)
    → Quiet task_id db
    → count_where (is_cancelled_task task_id) db.tasks ≡ n
    → Quiet task_id db' × (count_where (is_cancelled_task task_id) db'.tasks ≡ n)
event-cancelled env task_id status now n db db' u h q c =
    let f = event-Framed env task_id status now db in
    let e : record db { callbacks = f.deliveries } ≡ db' =
      sym f.rest ∙ ap (λ (r : Db × Result Error (Unit {0})). r.0) h in
    subst (λ (s : Db). Quiet task_id s × (count_where (is_cancelled_task task_id) s.tasks ≡ n)) e
      (record { stages_closed = q.stages_closed; attempts_closed = q.attempts_closed }, c)

-- A cancellation that ends well cancels one task that was not cancelled before, and leaves no stage
-- of the task open and no attempt at one of its stages.
pub finish_stage_task_cancellation-Quiet :
    (env : Env) (task_id : String) (now : ℕ) (db db' : Db) (u : Unit {0})
    → finish_stage_task_cancellation env task_id now db ≡ (db', ok u)
    → Quiet task_id db'
      × (count_where (is_cancelled_task task_id) db'.tasks
          ≡ suc (count_where (is_cancelled_task task_id) db.tasks))
unfolding finish_stage_task_cancellation cancel_stages
finish_stage_task_cancellation-Quiet env task_id now db db' u h =
    elim (Bool-cases (count_where p db.tasks == 1)) [
      | inr e ↦ absurd (ok≢err (rw e at h))
      | inl e ↦
          let q = cancel_stages-Quiet task_id now db in
          event-cancelled env task_id "cancelled" (now * 1000)
            (suc (count_where (is_cancelled_task task_id) db.tasks)) _ db' u (rw e at h)
            (record { stages_closed = q.stages_closed; attempts_closed = q.attempts_closed })
            (let more =
                count_where-update (is_cancelled_task task_id) p f db.tasks (λ t k. ground arith)
                  (λ t k. ground arith) in
              ground (arith, e, more))
    ]
  where
    p : Task → Bool
    p t = t.task_id == task_id && is_cancellable t.status

    f : Task → Task
    f t = record t {
      status = InternalStatus.cancelled;
      cancel_locked = false;
      cancel_requested_at = some (coalesce t.cancel_requested_at now);
      upstream_id = none;
      active_stage_id = none;
      finished_at = some now;
      updated_at = now;
      version = t.version + 1;
    }

count_where-sub {ℓ} :
    {A : Type ℓ} (p q : A → Bool) (xs : List A)
    → ((x : A) → p x ≡ true → q x ≡ true)
    → count_where q xs ≡ 0
    → count_where p xs ≡ 0
count_where-sub p q [] h z = refl
count_where-sub p q (x ∷ xs) h z = ground (arith, h x, count_where-sub p q xs h)

attempt_gone :
    (task_id stage_id attempt_id : String) (p : StageAttempt → Bool) (db : Db)
    → Quiet task_id db
    → is_stage_of task_id db.stages stage_id ≡ true
    → ((a : StageAttempt)
        → p a ≡ true
        → (a.stage_id ≡ stage_id) × (is_open_attempt a.status ≡ true))
    → count_where p db.attempts ≡ 0
attempt_gone task_id stage_id attempt_id p db q s h =
    count_where-sub p (is_task_attempt task_id db.stages) db.attempts
      (λ a e. rw ((h a e).0, (h a e).1, s)) q.attempts_closed

-- Once a task is cancelled, a node that reports the end of a stage, or the start of its execution, is
-- refused with a state conflict, and the report changes nothing.
pub late_reports-refused :
    (env : Env) (task_id stage_id lease_token attempt_id artifact_id execution_id : String)
    (db : Db)
    → Quiet task_id db
    → is_stage_of task_id db.stages stage_id ≡ true
    → (complete_stage env stage_id lease_token attempt_id artifact_id db ≡ (db, err state_conflict))
      × (bind_stage_execution env stage_id lease_token attempt_id execution_id db
          ≡ (db, err state_conflict))
unfolding complete_stage bind_stage_execution bind_attempt
late_reports-refused env task_id stage_id lease_token attempt_id artifact_id execution_id db q s = (
  rw (
      attempt_gone task_id stage_id attempt_id (is_attempt attempt_id stage_id is_bound) db q s
        (λ a e. (ground (arith, eq_iff a.stage_id stage_id), ground arith))),
  rw (
    any-none p (λ a. execution_taken attempt_id execution_id a db.attempts) db.attempts gone,
    gone,
    update_where_none p f db.attempts gone,
  ),
)
  where
    p : StageAttempt → Bool
    p a = is_attempt attempt_id stage_id is_open_attempt a && may_bind execution_id a

    f : StageAttempt → StageAttempt
    f a = record a {
      execution_id = some execution_id;
      status = AttemptStatus.running;
      heartbeat_at = some env.now_millis;
    }

    gone : count_where p db.attempts ≡ 0
    gone =
        attempt_gone task_id stage_id attempt_id p db q s
          (λ a e. (ground (arith, eq_iff a.stage_id stage_id), ground arith))
