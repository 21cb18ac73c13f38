-- ===== src/Store/Barriers/Laws.antt =====
-- dispatch_barrier.go: what a new barrier stands for and blocks.
use minimax_proxy.Store.Tables.{DispatchBarrier, StageAttempt, TaskStage}
use minimax_proxy.Store.Db.{Db}
use minimax_proxy.Store.Barriers.{
  OpenAttempt, barrier_for, barrier_of, breaks_barrier, create_node_dispatch_barrier_for_task,
  has_node_dispatch_barrier, insert_barrier, later, open_attempts,
}
use minimax_proxy.Base.{
  ok, some, none, true, false, inl, inr, Bool, Bool-cases, Option, String, [], arith,
  count_where-append, eq_iff, least_where, ok_inj, ok≢err, refl, subst, ℕ, ◌++◌, ◌==◌, ◌∷◌, ◌≡◌,
  string_eq, nat_eq, sym, least_where-In,
}
use minimax_proxy.Store.Barriers.Open.{
  NoLater, RunsFor, RunsFor-open_attempts, least_where-NoLater, least_where-none,
  open_attempts-RunsFor,
}

-- A new barrier of the task's last open attempt.
pub record Blocks (task_id : String) (db db' : Db) : Type 0 where
  pub stage : TaskStage
  pub attempt : StageAttempt
  pub runs : RunsFor task_id db.stages db.attempts stage attempt
  pub last :
      (s : TaskStage) (a : StageAttempt)
      → RunsFor task_id db.stages db.attempts s a
      → NoLater (s, a) (stage, attempt)
  pub barrier : DispatchBarrier
  pub same_node : barrier.node_id ≡ attempt.node_id
  pub same_task : barrier.task_id ≡ task_id
  pub same_stage : barrier.stage_id ≡ stage.id
  pub same_attempt : barrier.attempt_id ≡ attempt.id
  pub same_operation : barrier.operation_id ≡ attempt.operation_id
  pub added : db' ≡ record db { barriers = db.barriers ++ barrier ∷ [] }
  pub blocked : has_node_dispatch_barrier attempt.node_id db' ≡ true

-- What `true` and `false` report.
abbrev pub Reported : String → Db → Db → Bool → Type 0
Reported task_id db db' true = Blocks task_id db db'
Reported task_id db db' false =
    (db' ≡ db)
    × ((s : TaskStage) (a : StageAttempt) → RunsFor task_id db.stages db.attempts s a → ⊥)

-- A barrier that goes in is the row given.
insert_barrier-ok :
    (b : DispatchBarrier) (db db' : Db) (r : Bool)
    → insert_barrier b db ≡ (db', ok r)
    → (db' ≡ record db { barriers = db.barriers ++ b ∷ [] }) × (r ≡ true)
unfolding insert_barrier
insert_barrier-ok b db db' r h = elim (Bool-cases (breaks_barrier b db)) [
  | inl e ↦ absurd (ok≢err (rw e at h))
  | inr e ↦ let (p, q) = ok_inj (rw e at h) in (sym p, sym q)
]

blocked_by :
    (b : DispatchBarrier) (db : Db)
    → has_node_dispatch_barrier b.node_id (record db { barriers = db.barriers ++ b ∷ [] }) ≡ true
unfolding has_node_dispatch_barrier
blocked_by b db =
    rw (count_where-append (λ (c : DispatchBarrier). c.node_id == b.node_id) db.barriers (b ∷ []))
      (ground (arith, eq_iff b.node_id b.node_id))

blocks :
    (task_id : String) (now : ℕ) (db db' : Db) (s : TaskStage) (a : StageAttempt)
    → least_where later (λ x. true) (open_attempts task_id db.stages db.attempts) ≡ some (s, a)
    → db' ≡ record db { barriers = db.barriers ++ barrier_of (s, a) now ∷ [] }
    → Blocks task_id db db'
blocks task_id now db db' s a k p =
    let rows = open_attempts task_id db.stages db.attempts in
    let runs =
      open_attempts-RunsFor task_id db.stages db.attempts s a
        (least_where-In later (λ x. true) rows (s, a) k) in
    record {
      stage = s;
      attempt = a;
      runs = runs;
      last = λ t b f.
          least_where-NoLater rows (s, a) k (t, b)
            (RunsFor-open_attempts task_id db.stages db.attempts t b f);
      barrier = barrier_of (s, a) now;
      same_node = refl;
      same_task = runs.of_task;
      same_stage = refl;
      same_attempt = refl;
      same_operation = refl;
      added = p;
      blocked =
          subst (λ (d : Db). has_node_dispatch_barrier a.node_id d ≡ true) (sym p)
            (blocked_by (barrier_of (s, a) now) db);
    }

-- A true result means that exactly one barrier was added, for an attempt that is open, belongs to a
-- stage of the task, and is the last one of the latest such stage; it names that node, task, stage,
-- attempt and operation, and the node is blocked from then on. A false one means that nothing was
-- changed and no attempt of the task is open.
pub create_node_dispatch_barrier_for_task-blocks :
    (task_id : String) (now : ℕ) (db db' : Db) (b : Bool)
    → create_node_dispatch_barrier_for_task task_id now db ≡ (db', ok b)
    → Reported task_id db db' b
unfolding create_node_dispatch_barrier_for_task
create_node_dispatch_barrier_for_task-blocks task_id now db db' b h =
    go (least_where later (λ x. true) (open_attempts task_id db.stages db.attempts)) refl h
  where
    go :
        (o : Option OpenAttempt)
        → least_where later (λ x. true) (open_attempts task_id db.stages db.attempts) ≡ o
        → barrier_for o now db ≡ (db', ok b)
        → Reported task_id db db' b
    go none k r =
        let (p, q) = ok_inj r in
        subst (Reported task_id db db') q (
          sym p,
          λ s a f.
              least_where-none (open_attempts task_id db.stages db.attempts) k (s, a)
                (RunsFor-open_attempts task_id db.stages db.attempts s a f),
        )
    go (some (s, a)) k r =
        let (p, q) = insert_barrier-ok (barrier_of (s, a) now) db db' b r in
        subst (Reported task_id db db') (sym q) (blocks task_id now db db' s a k p)
