-- ===== src/Store/Remote/Starts.antt =====
-- What `ClaimNextRemote` does to the table of the runs: it adds one, or leaves the table alone.
use minimax_proxy.Store.Tables.{ModelNode, RemoteRun, Task}
use minimax_proxy.Store.Db.{Db, Env, Error, M, now_unix, task_not_found}
use minimax_proxy.Store.Remote.Claim.{
  Admission, claim_next_remote, breaks_run, insert_run, start_run, admitted_capacity,
  claim_remote_on_node, claim_remote_row, found_remote, is_bad_key, is_current_remote, new_run,
  next_remote_task, submission_key_of, take_remote_task,
}
use minimax_proxy.Store.Remote.Phases.{
  AllContinued, UniqueRuns, AllContinued-append, AllContinued-refl, Still,
}
use minimax_proxy.Base.{
  String, none, some, Bool-cases, List, Result, [], and_then, arith, count_where,
  count_where-append, eq_iff, err, false, inl, inr, ok, refl, settle, subst, sym, ℕ, ◌++◌, ◌==◌,
  ◌∷◌, ◌≡◌, string_eq, nat_eq, Bool, Option, first_where, guard, ltb, min, true, update_where, ◌&&◌,
  ◌>>◌,
}
use minimax_proxy.Store.Claim.{get_with, holds_slot_on, is_visible}
use minimax_proxy.Domain.Status.{is_queued}
use minimax_proxy.Store.Eligible.{Query}
use minimax_proxy.Store.Queue.{rebalance, rebalance_tasks}

-- The table stays, or takes one more run, of a task that had none.
pub data Starts (rs ss : List RemoteRun) : Type 0 where
  same : ss ≡ rs → Starts rs ss
  added : (r : RemoteRun) → breaks_run r rs ≡ false → ss ≡ rs ++ r ∷ [] → Starts rs ss

-- No run of the task was there.
absent :
    (r : RemoteRun) (rs : List RemoteRun)
    → breaks_run r rs ≡ false
    → count_where (λ (s : RemoteRun). s.task_id == r.task_id) rs ≡ 0
absent r [] h = refl
absent r (s ∷ rs) h = elim (Bool-cases (s.task_id == r.task_id)) [
  | inl e ↦ absurd (ground (arith, h, e))
  | inr e ↦ rw e (absent r rs (ground (arith, h)))
]

added-UniqueRuns :
    (r : RemoteRun) (rs : List RemoteRun)
    → breaks_run r rs ≡ false
    → UniqueRuns rs
    → UniqueRuns (rs ++ r ∷ [])
added-UniqueRuns r rs h u task_id =
    rw (count_where-append (λ (s : RemoteRun). s.task_id == task_id) rs (r ∷ []))
      (elim (Bool-cases (r.task_id == task_id)) [
        | inl e ↦
            let same : r.task_id ≡ task_id = ground (arith, e, eq_iff r.task_id task_id) in
            let none_there =
              subst (λ (i : String). count_where (λ (s : RemoteRun). s.task_id == i) rs ≡ 0) same
                (absent r rs h) in
            rw (e, none_there) (omega arith)
        | inr e ↦ let few = u task_id in rw e (omega arith)
      ])

pub Starts-UniqueRuns : (rs ss : List RemoteRun) → Starts rs ss → UniqueRuns rs → UniqueRuns ss
Starts-UniqueRuns rs ss (same e) u = subst UniqueRuns (sym e) u
Starts-UniqueRuns rs ss (added r h e) u = subst UniqueRuns (sym e) (added-UniqueRuns r rs h u)

pub Starts-AllContinued : (rs ss : List RemoteRun) → Starts rs ss → AllContinued rs ss
Starts-AllContinued rs ss (same e) = subst (AllContinued rs) (sym e) (AllContinued-refl rs)
Starts-AllContinued rs ss (added r h e) =
    subst (AllContinued rs) (sym e) (AllContinued-append rs (r ∷ []))

settle-Starts :
    {A : Type 0} (db : Db) (r : Db × Result Error A)
    → Starts db.remote_runs r.0.remote_runs
    → Starts db.remote_runs (settle db r).0.remote_runs
settle-Starts db (s, ok a) h = h
settle-Starts db (s, err x) h = same refl

insert_run-Starts :
    (r : RemoteRun) (db : Db) → Starts db.remote_runs (insert_run r db).0.remote_runs
unfolding insert_run
insert_run-Starts r db = elim (Bool-cases (breaks_run r db.remote_runs)) [
  | inl e ↦ rw e (same refl)
  | inr e ↦ rw e (added r e refl)
]

get_with-Still :
    (env : Env) (owner task_id : String)
    → Still (rebalance env >> get_with owner task_id (now_unix env))
unfolding get_with rebalance
get_with-Still env owner task_id = record {
  still = λ db.
      go (record db { tasks = rebalance_tasks env.protected_slots (now_unix env) db.tasks })
        (first_where (is_visible owner task_id (now_unix env))
          (rebalance_tasks env.protected_slots (now_unix env) db.tasks));
}
  where
    go :
        (db : Db) (o : Option Task)
        → (elim o as (λ _. Db × Result Error Task) [
          | none ↦ (db, err task_not_found)
          | some t ↦ (db, ok t)
        ]).0.remote_runs
          ≡ db.remote_runs
    go db none = refl
    go db (some t) = refl

-- After the insert.
then-Starts :
    {A B : Type 0} (k : A → M B) (rs : List RemoteRun) (r : Db × Result Error A)
    → ((a : A) → Still (k a))
    → Starts rs r.0.remote_runs
    → Starts rs (and_then r k).0.remote_runs
then-Starts k rs (s, ok a) h e = subst (Starts rs) (sym ((h a).still s)) e
then-Starts k rs (s, err x) h e = e

start_run-Starts :
    (env : Env) (n : ModelNode) (node_id : String) (node_version : ℕ) (selected : Task)
    (key : String) (db : Db)
    → Starts db.remote_runs (start_run env n node_id node_version selected key db).0.remote_runs
unfolding start_run
start_run-Starts env n node_id node_version selected key db =
    let p : Task → Bool = λ t. t.task_id == selected.task_id && is_queued t.status in
    let f = claim_remote_row n node_id node_version selected (now_unix env) in
    let r = new_run selected.task_id node_id key (now_unix env) in
    let db' = record db { tasks = update_where p f db.tasks } in
    elim (Bool-cases (count_where p db.tasks == 1)) [
      | inl e ↦ rw e (
          then-Starts
            (λ done. rebalance env >> get_with selected.api_key_id selected.task_id (now_unix env))
            db.remote_runs (insert_run r db')
            (λ done. get_with-Still env selected.api_key_id selected.task_id)
            (insert_run-Starts r db'))
      | inr e ↦ rw e (same refl)
    ]

take-Starts :
    (env : Env) (n : ModelNode) (node_id : String) (node_version : ℕ) (selected : Task)
    (o : Option String) (db : Db)
    → Starts db.remote_runs
        (take_remote_task env n node_id node_version selected o db).0.remote_runs
unfolding take_remote_task
take-Starts env n node_id node_version selected none db = same refl
take-Starts env n node_id node_version selected (some i) db =
    elim (Bool-cases (is_bad_key env i (submission_key_of i selected.task_id))) [
      | inl e ↦ rw e (same refl)
      | inr e ↦ rw e (
          start_run-Starts env n node_id node_version selected
            (submission_key_of i selected.task_id) db)
    ]

query-Starts :
    {A B : Type 0} (db : Db) (q : Query A) (k : A → M B)
    → ((a : A) → Starts db.remote_runs (k a db).0.remote_runs)
    → Starts db.remote_runs (and_then (db, q) k).0.remote_runs
query-Starts db (ok a) k h = h a
query-Starts db (err e) k h = same refl

guard-Starts :
    {B : Type 0} (db : Db) (b : Bool) (e : Error) (m : M B)
    → Starts db.remote_runs (m db).0.remote_runs
    → Starts db.remote_runs ((guard b e >> m) db).0.remote_runs
guard-Starts db true e m h = h
guard-Starts db false e m h = same refl

claim_remote_on_node-Starts :
    (env : Env) (node_id : String) (node_version capacity : ℕ) (admission : List Admission)
    (n : ModelNode) (db : Db)
    → Starts db.remote_runs
        (claim_remote_on_node env node_id node_version capacity admission n db).0.remote_runs
unfolding claim_remote_on_node
claim_remote_on_node-Starts env node_id node_version capacity admission n db =
    query-Starts db (admitted_capacity db node_id admission (min capacity n.max_concurrency)) _
      λ limit.
        guard-Starts db (ltb (count_where (holds_slot_on node_id) db.tasks) limit)
          Error.upstream_busy _
          (query-Starts db (next_remote_task env n node_id db) _
            λ selected. take-Starts env n node_id node_version selected db.instance_id db)

pub claim_next_remote-Starts :
    (env : Env) (node_id : String) (node_version capacity : ℕ) (admission : List Admission)
    (db : Db)
    → Starts db.remote_runs
        (claim_next_remote env node_id node_version capacity admission db).0.remote_runs
unfolding claim_next_remote
claim_next_remote-Starts env node_id node_version capacity admission db =
    elim (Bool-cases (ltb capacity 1)) [
      | inl e ↦ rw e (same refl)
      | inr e ↦ rw e (go (first_where (is_current_remote node_id node_version) db.nodes))
    ]
  where
    go :
        (o : Option ModelNode)
        → Starts db.remote_runs
            (settle db (
              and_then
                (found_remote db o)
                (claim_remote_on_node env node_id node_version capacity admission))).0.remote_runs
    go none = same refl
    go (some n) =
        settle-Starts db (claim_remote_on_node env node_id node_version capacity admission n db)
          (claim_remote_on_node-Starts env node_id node_version capacity admission n db)
