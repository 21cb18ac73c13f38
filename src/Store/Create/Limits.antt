-- ===== src/Store/Create/Limits.antt =====
-- The limits on unfinished tasks, at the creation of a task.
use minimax_proxy.Protocol.Media.{Decoders}
use minimax_proxy.Base.{
  Bool, Bool-cases, List, Option, String, [], ap, arith, count_where, count_where-append,
  count_where-still, eq_iff, inl, inr, ltb→lt, none, ok, ok≢err, refl, settle_ok, some, subst, sym,
  true, ℕ, ◌++◌, ◌+◌, ◌==◌, ◌∷◌, ◌≡◌, ◌≤◌, ◌⊎◌, string_eq, nat_eq,
}
use minimax_proxy.Store.Claim.Laws.{get_with_still}
use minimax_proxy.Store.Create.Frame.{Created, create_new_ok}
use minimax_proxy.Store.Db.{Db, Env, now_unix}
use minimax_proxy.Store.Queue.{is_waiting, rebalance_row, rebalance_tasks}
use minimax_proxy.Store.Routes.{NewTask, Prepared}
use minimax_proxy.Store.Tables.{IdempotencyKey, Task}
use minimax_proxy.Store.Create.{counts, counts_for, create, create_or_replay, find_key}
use minimax_proxy.Store.NewTasks.{new_spec, new_task}

-- One task more counts, for its owner and for all, and both numbers are within their limits.
pub record Counted (env : Env) (owner : String) (db db' : Db) : Type 0 where
  pub one_of_owner :
      count_where (counts_for owner) db'.tasks ≡ count_where (counts_for owner) db.tasks + 1
  pub one : count_where counts db'.tasks ≡ count_where counts db.tasks + 1
  pub few_of_owner : count_where (counts_for owner) db'.tasks ≤ env.per_key_limit
  pub few : count_where counts db'.tasks ≤ env.global_limit

rebalance-counts :
    (slots now : ℕ) (ts : List Task)
    → count_where counts (rebalance_tasks slots now ts) ≡ count_where counts ts
unfolding rebalance_tasks rebalance_row
rebalance-counts slots now ts = count_where-still counts is_waiting _ ts (λ t h. ground arith)

rebalance-counts_for :
    (slots now : ℕ) (owner : String) (ts : List Task)
    → count_where (counts_for owner) (rebalance_tasks slots now ts)
      ≡ count_where (counts_for owner) ts
unfolding rebalance_tasks rebalance_row
rebalance-counts_for slots now owner ts =
    count_where-still (counts_for owner) is_waiting _ ts (λ t h. ground arith)

new_task-counts :
    (t : NewTask) (p : Prepared) (seq now expires : ℕ)
    → (counts (new_task t p seq now expires) ≡ true)
      × (counts_for t.api_key_id (new_task t p seq now expires) ≡ true)
unfolding new_task new_spec
new_task-counts t p seq now expires = (refl, ground (arith, eq_iff t.api_key_id t.api_key_id))

Created-Counted :
    (env : Env) (t : NewTask) (key_hash : String) (db db' : Db) (a : Task)
    → Created env t key_hash db db' a
    → Counted env t.api_key_id db db'
Created-Counted env t key_hash db db' a c =
    let (x, y) = new_task-counts t c.prepared c.seq (now_unix env) (now_unix env + env.retention) in
    let counted : counts c.inserted ≡ true = subst (λ z. counts z ≡ true) (sym c.row) x in
    let owned : counts_for t.api_key_id c.inserted ≡ true =
      subst (λ z. counts_for t.api_key_id z ≡ true) (sym c.row) y in
    let e1 = ap (count_where counts) c.tasks in
    let e2 = ap (count_where (counts_for t.api_key_id)) c.tasks in
    let r1 = rebalance-counts env.protected_slots (now_unix env) (db.tasks ++ c.inserted ∷ []) in
    let r2 =
      rebalance-counts_for env.protected_slots (now_unix env) t.api_key_id
        (db.tasks ++ c.inserted ∷ []) in
    let n1 = count_where-append counts db.tasks (c.inserted ∷ []) in
    let n2 = count_where-append (counts_for t.api_key_id) db.tasks (c.inserted ∷ []) in
    let m1 : count_where counts (c.inserted ∷ []) ≡ 1 = rw counted refl in
    let m2 : count_where (counts_for t.api_key_id) (c.inserted ∷ []) ≡ 1 = rw owned refl in
    let l1 = ltb→lt _ _ c.few in
    let l2 = ltb→lt _ _ c.few_of_owner in
    record {
      one_of_owner = omega arith;
      one = omega arith;
      few_of_owner = omega arith;
      few = omega arith;
    }

-- A Create that returns a task leaves the database as it is, where it returns the task of a known
-- key, or makes one unfinished task more, and then neither the owner of the key nor all together have
-- more unfinished tasks than the limits allow.
pub create-Counted :
    (m : Decoders) (env : Env) (t : NewTask) (key_hash : String) (available : Bool) (db db' : Db)
    (a : Task)
    → create m env t key_hash available db ≡ (db', ok a)
    → (db' ≡ db) ⊎ Counted env t.api_key_id db db'
unfolding create create_or_replay
create-Counted m env t key_hash available db db' a h =
    go (find_key db t.api_key_id key_hash (now_unix env)) (settle_ok db db' _ a h)
  where
    go :
        (o : Option IdempotencyKey)
        → create_or_replay m env t key_hash available o db ≡ (db', ok a)
        → (db' ≡ db) ⊎ Counted env t.api_key_id db db'
    go none k = inr (
        Created-Counted env t key_hash db db' a
          (create_new_ok m env t key_hash available db db' a k))
    go (some x) k = elim (Bool-cases (x.request_hash == t.request_hash)) [
      | inl e ↦
          inl (sym (get_with_still t.api_key_id x.task_id (now_unix env) db db' a (rw e at k)))
      | inr e ↦ absurd (ok≢err (rw e at k))
    ]
