-- ===== src/Store/Stages/Bounds.antt =====
-- stage_store.go: the number of attempts at a stage.
use minimax_proxy.Store.Tables.{Task, TaskStage, ModelNode}
use minimax_proxy.Store.Db.{Db, Env, Error, one_row, now_unix}
use minimax_proxy.Store.Stages.Attempts.{
  record_attempt, insert_attempt, create_stage_attempt, admit_attempt, found_parent, holds_lease,
  start_of,
}
use minimax_proxy.Base.{
  false, true, none, some, inl, inr, ◌>>◌, ok, err, All, All-update, Bool, Bool-cases, In, Option,
  Result, String, and_then, count_where, inl, inr, none, ok≢err, refl, settle, some, suc, ◌&&◌,
  ◌==◌, ◌≡◌, ◌≤◌, string_eq, nat_eq, any, ap, arith, coalesce, eq_iff, first_where, first_where-In,
  first_where_holds, guard, is_value, leb, ok_inj, sym, unique_row, ◌+◌, [], update_where, ◌++◌,
  ◌∷◌,
}
use minimax_proxy.Store.Eligible.{find_node, Query, task_eligible_for_node}
use minimax_proxy.Store.Queue.{rebalance}
use minimax_proxy.Store.Stages.Attempts.{
  NewAttempt, attempt_row, breaks_attempt, insert_attempt, start_task,
}
use minimax_proxy.Domain.Status.{protocol_h3}
use minimax_proxy.Store.Stages.{found_stage}
use minimax_proxy.Store.Stages.Complete.{is_live_task}

abbrev pub WithinAttempts : TaskStage → Type 0
WithinAttempts s = s.attempt_count ≤ s.max_attempts

abbrev pub AllWithinAttempts : Db → Type 0
AllWithinAttempts db = All WithinAttempts db.stages

settled_stages :
    (db : Db) (r : Db × Result Error (Unit {0}))
    → ((s : Db) (u : Unit {0}) → r ≡ (s, ok u) → AllWithinAttempts s)
    → AllWithinAttempts db
    → AllWithinAttempts (settle db r).0
settled_stages db (s, ok u) h a = h s u refl
settled_stages db (s, err x) h a = a

start_task-stages :
    (env : Env) (a : NewAttempt) (task_id : String) (o : Option ModelNode) (db s : Db)
    (u : Unit {0})
    → and_then (start_task env a task_id o db) (λ n. one_row n >> rebalance env) ≡ (s, ok u)
    → s.stages ≡ db.stages
unfolding rebalance
start_task-stages env a task_id none db s u h =
    elim (Bool-cases (
      any
        (λ (t : Task).
          is_live_task task_id t
          && (t.route_state == "ready" && is_value t.protocol_version protocol_h3))
        db.tasks)) [ inl e ↦ absurd (ok≢err (rw e at h)) | inr e ↦ absurd (ok≢err (rw e at h)) ]
start_task-stages env a task_id (some n) db s u h =
    elim (Bool-cases (
      count_where
        (λ (t : Task).
          is_live_task task_id t
          && (t.route_state == "ready" && is_value t.protocol_version protocol_h3))
        db.tasks
      == 1)) [
        | inl e ↦ ap (λ (z : Db). z.stages) (sym (ok_inj (rw e at h)).0)
        | inr e ↦ absurd (ok≢err (rw e at h))
      ]

record_attempt-Within :
    (env : Env) (a : NewAttempt) (s : TaskStage) (t : Task) (db db' : Db) (u : Unit {0})
    → In s db.stages
    → s.id ≡ a.stage_id
    → suc s.attempt_count ≤ s.max_attempts
    → record_attempt env a s t db ≡ (db', ok u)
    → AllWithinAttempts db
    → AllWithinAttempts db'
unfolding record_attempt insert_attempt
record_attempt-Within env a s t db db' u m ids more h k =
    elim (Bool-cases (breaks_attempt (attempt_row env a) db.attempts)) [
      | inl e ↦ absurd (ok≢err (rw e at h))
      | inr e ↦
          elim (Bool-cases (
            count_where
              (λ (x : TaskStage). x.id == a.stage_id && x.attempt_count == s.attempt_count)
              db.stages
            == 1)) [
              | inr c ↦ absurd (ok≢err (rw (e, c) at h))
              | inl c ↦
                  rw
                    (start_task-stages env a t.task_id (find_node written a.node_id) written db' u
                      (rw (e, c) at h))
                    (All-update WithinAttempts p f db.stages
                      (λ x n q w.
                        let same_stage =
                          unique_row p db.stages s x (ground arith) m
                            (ground (arith, eq_iff s.id a.stage_id)) n q in
                        rw same_stage (omega (arith, more)))
                      k)
            ]
    ]
  where
    p : TaskStage → Bool
    p x = x.id == a.stage_id && x.attempt_count == s.attempt_count

    f : TaskStage → TaskStage
    f x = record x {
      attempt_count = x.attempt_count + 1;
      updated_at = start_of env a;
      row_version = x.row_version + 1;
    }

    written : Db
    written = record db {
      attempts = db.attempts ++ attempt_row env a ∷ [];
      stages = update_where p f db.stages;
    }

admit_attempt-Within :
    (env : Env) (a : NewAttempt) (s : TaskStage) (t : Task) (db db' : Db) (u : Unit {0})
    → In s db.stages
    → s.id ≡ a.stage_id
    → admit_attempt env a (s, t) db ≡ (db', ok u)
    → AllWithinAttempts db
    → AllWithinAttempts db'
unfolding admit_attempt
admit_attempt-Within env a s t db db' u m ids h k = elim (Bool-cases (holds_lease env a s t)) [
  | inr e ↦ absurd (ok≢err (rw e at h))
  | inl e ↦ elim (Bool-cases (coalesce t.protocol_version "" == protocol_h3)) [
    | inr f ↦ absurd (ok≢err (rw (e, f) at h))
    | inl f ↦ go (task_eligible_for_node db t a.node_id (now_unix env)) (rw (e, f) at h)
  ]
]
  where
    go :
        (q : Query Bool)
        → and_then
            (db, q)
            (λ eligible.
              guard eligible Error.state_conflict
              >> (guard
                    (a.attempt_no == s.attempt_count + 1 && leb a.attempt_no s.max_attempts)
                    Error.attempt_conflict
                  >> record_attempt env a s t))
          ≡ (db', ok u)
        → AllWithinAttempts db'
    go (err x) r = absurd (ok≢err r)
    go (ok false) r = absurd (ok≢err r)
    go (ok true) r =
        elim (Bool-cases (a.attempt_no == s.attempt_count + 1 && leb a.attempt_no s.max_attempts)) [
          | inr g ↦ absurd (ok≢err (rw g at r))
          | inl g ↦ record_attempt-Within env a s t db db' u m ids (ground (arith, g)) (rw g at r) k
        ]

-- `CreateStageAttempt` never starts more attempts at a stage than the stage allows: where every stage
-- is within its maximum before the call, every stage is within it afterwards.
pub create_stage_attempt-Within :
    (env : Env) (a : NewAttempt) (db : Db)
    → AllWithinAttempts db
    → AllWithinAttempts (create_stage_attempt env a db).0
unfolding create_stage_attempt
create_stage_attempt-Within env a db k =
    settled_stages db _
      (λ s u h. found (first_where (λ (x : TaskStage). x.id == a.stage_id) db.stages) refl s u h) k
  where
    parent :
        (s : TaskStage) (o : Option Task) (db' : Db) (u : Unit {0})
        → In s db.stages
        → s.id ≡ a.stage_id
        → and_then (found_parent db s o) (admit_attempt env a) ≡ (db', ok u)
        → AllWithinAttempts db'
    parent s none db' u m e h = absurd (ok≢err h)
    parent s (some t) db' u m e h = admit_attempt-Within env a s t db db' u m e h k

    found :
        (o : Option TaskStage)
        → first_where (λ (x : TaskStage). x.id == a.stage_id) db.stages ≡ o
        → (db' : Db) (u : Unit {0})
        → and_then
            (and_then
              (found_stage db o)
              (λ s d. found_parent d s (first_where (is_live_task s.task_id) d.tasks)))
            (admit_attempt env a)
          ≡ (db', ok u)
        → AllWithinAttempts db'
    found none e db' u h = absurd (ok≢err h)
    found (some s) e db' u h =
        parent s (first_where (is_live_task s.task_id) db.tasks) db' u
          (first_where-In (λ (x : TaskStage). x.id == a.stage_id) db.stages s e)
          (ground (
            arith,
            eq_iff s.id a.stage_id,
            first_where_holds (λ (x : TaskStage). x.id == a.stage_id) db.stages s e,
          ))
          h
