-- ===== src/Store/Evolution/Cancels.antt =====
-- The cancellation of a task, and the state machine.
use minimax_proxy.Domain.Status.{InternalStatus, is_queued}
use minimax_proxy.Store.Tables.{Task, DispatchBarrier, RemoteRun}
use minimax_proxy.Store.Db.{Db, Env, Error, M, now_unix}
use minimax_proxy.Base.{
  ◌>>=◌, ok, err, Bool, Bool-cases, Result, String, and_then, arith, inl, inr, refl, subst, true, ℕ,
  ◌*◌, ◌≡◌, Option, none, some, any, coalesce, first_where, ◌==◌, ◌||◌, string_eq, nat_eq,
}
use minimax_proxy.Store.Cancel.{
  cancel_by_status, cancel_executing, cancel_stages, cancel_waiting, finish_stage_task_cancellation,
  is_stage_run, cancel_run, cancel_task, runs_official, found_run, found_task, is_remote_active,
  read_task, request_admin_cancel, request_remote_cancel, is_terminal,
}
use minimax_proxy.Store.Claim.{same_status}
use minimax_proxy.Store.Evolution.{
  Evolves, Evolves-refl, Extends-callback, Extends-rebalance, Extends-then, Keeps, Keeps-one,
  Keeps-statement, can_follow, Extends-still, Keeps-immediate,
}
use minimax_proxy.Store.Tasks.{is_cancelling, is_executing}
use minimax_proxy.Store.Barriers.{
  OpenAttempt, barrier_for, barrier_of, breaks_barrier, create_node_dispatch_barrier_for_task,
  insert_barrier,
}

-- An operation on a result whose database has the tasks of `db`.
after-Evolves :
    {A B : Type 0} (k : A → M B) (db : Db) (r : Db × Result Error A)
    → r.0.tasks ≡ db.tasks
    → ((a : A) → Keeps (k a))
    → Evolves db.tasks (and_then r k).0.tasks
after-Evolves k db (s, ok a) e h = subst (λ ts. Evolves ts (k a s).0.tasks) e ((h a).keeps s)
after-Evolves k db (s, err x) e h = rw e (Evolves-refl db.tasks)

same-follows :
    (s u v : InternalStatus)
    → same_status u s ≡ true
    → can_follow s v ≡ true
    → can_follow u v ≡ true
same-follows s u v h k = ground arith

finish_cancellation-Keeps :
    (env : Env) (task_id : String) (now : ℕ)
    → Keeps (finish_stage_task_cancellation env task_id now)
unfolding finish_stage_task_cancellation cancel_stages
finish_cancellation-Keeps env task_id now = record {
  keeps = λ db.
      (Keeps-statement _ _ (λ t h. ground arith)
          (Extends-callback env task_id "cancelled" (now * 1000))).keeps
        (cancel_stages task_id now db).0;
}

cancel_waiting-Keeps :
    (env : Env) (task_id : String) (t : Task)
    → is_queued t.status ≡ true
    → Keeps (cancel_waiting env task_id t)
unfolding cancel_waiting
cancel_waiting-Keeps env task_id t q =
    Keeps-statement _ _
      (λ u h. record {
        same_spec = refl;
        same_route = refl;
        same_deletion = refl;
        transition =
            same-follows t.status u.status InternalStatus.cancelled (ground arith) (ground arith);
        newer = omega arith;
      })
      (Extends-then (Extends-rebalance env) (Extends-callback env _ _ _))

cancel_executing-Keeps :
    (env : Env) (task_id : String) (t : Task)
    → is_executing t.status ≡ true
    → Keeps (cancel_executing env task_id t)
unfolding cancel_executing
cancel_executing-Keeps env task_id t q = Keeps-one _ _ (λ u h. record {
  same_spec = refl;
  same_route = refl;
  same_deletion = refl;
  transition =
      same-follows t.status u.status InternalStatus.cancelling (ground arith) (ground arith);
  newer = omega arith;
})

cancel_by_status-Keeps :
    (env : Env) (task_id : String) (t : Task) (has_barrier : Bool)
    → Keeps (cancel_by_status env task_id t has_barrier)
unfolding cancel_by_status
cancel_by_status-Keeps env task_id t has_barrier =
    let finish = finish_cancellation-Keeps env task_id (now_unix env) in
    elim (Bool-cases (is_queued t.status)) [
      | inl e ↦ elim (Bool-cases has_barrier) [
        | inl b ↦ rw (e, b) finish
        | inr b ↦ rw (e, b) (cancel_waiting-Keeps env task_id t e)
      ]
      | inr e ↦ elim (Bool-cases (is_executing t.status)) [
        | inl x ↦ elim (Bool-cases (is_stage_run has_barrier t)) [
          | inl b ↦ rw (e, x, b) finish
          | inr b ↦ rw (e, x, b) (cancel_executing-Keeps env task_id t x)
        ]
        | inr x ↦ elim (Bool-cases (is_cancelling t.status)) [
          | inl c ↦ elim (Bool-cases (is_stage_run has_barrier t)) [
            | inl b ↦ rw (e, x, c, b) finish
            | inr b ↦ rw (e, x, c, b) (record { keeps = λ db. Evolves-refl db.tasks })
          ]
          | inr c ↦ rw (e, x, c) (record { keeps = λ db. Evolves-refl db.tasks })
        ]
      ]
    ]

insert_barrier_still : (b : DispatchBarrier) (db : Db) → (insert_barrier b db).0.tasks ≡ db.tasks
unfolding insert_barrier
insert_barrier_still b db = elim (Bool-cases (breaks_barrier b db)) [ inl e ↦ rw e | inr e ↦ rw e ]

barrier_still :
    (now : ℕ) (db : Db) (o : Option OpenAttempt) → (barrier_for o now db).0.tasks ≡ db.tasks
barrier_still now db none = refl
barrier_still now db (some e) = insert_barrier_still (barrier_of e now) db

cancel_task-Keeps : (env : Env) (task_id : String) (t : Task) → Keeps (cancel_task env task_id t)
unfolding cancel_task create_node_dispatch_barrier_for_task
cancel_task-Keeps env task_id t = record {
  keeps = λ db. elim (Bool-cases (runs_official db.nodes t)) [
    | inl e ↦ rw e (Evolves-refl db.tasks)
    | inr e ↦ rw e (
        after-Evolves (cancel_by_status env task_id t) db _ (barrier_still _ db _)
          (cancel_by_status-Keeps env task_id t))
  ];
}

cancel_run-Keeps : (env : Env) (task_id : String) (r : RemoteRun) → Keeps (cancel_run env task_id r)
unfolding cancel_run
cancel_run-Keeps env task_id r = elim (Bool-cases (is_terminal r.phase)) [
  | inl e ↦ elim (Bool-cases (coalesce r.upstream_status "" == "cancelled")) [
    | inl c ↦ rw (e, c) (record { keeps = λ db. Evolves-refl db.tasks })
    | inr c ↦ rw (e, c) (record { keeps = λ db. Evolves-refl db.tasks })
  ]
  | inr e ↦
      elim (Bool-cases
        (coalesce r.upstream_status "" == "running" || r.cancel_state == "rejected")) [
          | inl c ↦ rw (e, c) (record { keeps = λ db. Evolves-refl db.tasks })
          | inr c ↦
              rw (e, c) (Keeps-statement _ _ (λ t h. ground arith) (Extends-still (λ db. refl)))
        ]
]

request_remote_cancel-Keeps :
    (env : Env) (task_id : String) → Keeps (request_remote_cancel env task_id)
unfolding request_remote_cancel
request_remote_cancel-Keeps env task_id = Keeps-immediate (record {
  keeps = λ db. found db (first_where (λ (r : RemoteRun). r.task_id == task_id) db.remote_runs);
})
  where
    found :
        (db : Db) (o : Option RemoteRun)
        → Evolves db.tasks (and_then (found_run db o) (cancel_run env task_id)).0.tasks
    found db none = Evolves-refl db.tasks
    found db (some r) = (cancel_run-Keeps env task_id r).keeps db

read_and_cancel-Keeps :
    (env : Env) (task_id : String)
    → Keeps (read_task task_id (now_unix env) >>= cancel_task env task_id)
read_and_cancel-Keeps env task_id = record { keeps = λ db. found db (first_where _ db.tasks) }
  where
    found :
        (db : Db) (o : Option Task)
        → Evolves db.tasks (and_then (found_task db o) (cancel_task env task_id)).0.tasks
    found db none = Evolves-refl db.tasks
    found db (some t) = (cancel_task-Keeps env task_id t).keeps db

pub request_admin_cancel-Keeps :
    (env : Env) (task_id : String) → Keeps (request_admin_cancel env task_id)
unfolding request_admin_cancel
request_admin_cancel-Keeps env task_id = record {
  keeps = λ db. elim (Bool-cases (any (is_remote_active task_id) db.tasks)) [
    | inl e ↦ rw e ((request_remote_cancel-Keeps env task_id).keeps db)
    | inr e ↦ rw e ((Keeps-immediate (read_and_cancel-Keeps env task_id)).keeps db)
  ];
}
