-- ===== src/Store/Create/Frame.antt =====
-- What a new task goes through, and the tables of tasks and keys that it leaves.
use minimax_proxy.Store.Routes.{NewTask, Prepared, prepare_task_routing}
use minimax_proxy.Base.{
  Bool, Bool-cases, Option, Result, String, [], any, ap, arith, bind_ok, count_where, delete_where,
  err, false, first_where, guard, guard_ok, if_cases, inl, inr, ltb, none, ok, ok_inj, ok≢err, refl,
  some, subst, suc, sym, true, ℕ, ◌++◌, ◌+◌, ◌==◌, ◌∙◌, ◌∷◌, ◌≡◌, string_eq, nat_eq,
}
use minimax_proxy.Protocol.H3.Items.{added}
use minimax_proxy.Protocol.Media.{Decoders}
use minimax_proxy.Store.Claim.{get_with, is_visible}
use minimax_proxy.Store.Claim.Laws.{get_with_still}
use minimax_proxy.Store.Create.{
  counts, counts_for, create_new, forget_key, insert_details, is_key, new_key, remember_key,
  within_limits,
}
use minimax_proxy.Store.Create.Steps.{insert_details-Keeps}
use minimax_proxy.Store.Db.{Db, Env, Error, now_unix}
use minimax_proxy.Store.NewTasks.{breaks_task, has_task_id, insert_task, new_task}
use minimax_proxy.Store.Queue.{rebalance, rebalance_tasks}
use minimax_proxy.Store.Tables.{Task}

-- The task table and the keys behind a Create that inserts a task.
pub record Created (env : Env) (t : NewTask) (key_hash : String) (db db' : Db) (a : Task)
    : Type 0 where
  pub few_of_owner : ltb (count_where (counts_for t.api_key_id) db.tasks) env.per_key_limit ≡ true
  pub few : ltb (count_where counts db.tasks) env.global_limit ≡ true
  pub prepared : Prepared
  pub seq : ℕ
  pub fresh : any (has_task_id t.task_id) db.tasks ≡ false
  pub inserted : Task
  pub row : inserted ≡ new_task t prepared seq (now_unix env) (now_unix env + env.retention)
  pub tasks :
      db'.tasks ≡ rebalance_tasks env.protected_slots (now_unix env) (db.tasks ++ inserted ∷ [])
  pub keys :
      (key_hash == "") ≡ false
      → db'.idempotency
        ≡ delete_where (is_key t.api_key_id key_hash) db.idempotency ++ new_key env t key_hash ∷ []
  pub found : first_where (is_visible t.api_key_id t.task_id (now_unix env)) db'.tasks ≡ some a

-- What `insert_task` adds.
insert_task_ok :
    (env : Env) (t : NewTask) (p : Prepared) (db s : Db) (u : Unit {0})
    → insert_task env t p db ≡ (s, ok u)
    → (any (has_task_id t.task_id) db.tasks ≡ false)
      × (s.tasks
          ≡ db.tasks
            ++ new_task t p (suc db.last_queue_seq) (now_unix env) (now_unix env + env.retention)
              ∷ [])
      × (s.idempotency ≡ db.idempotency)
unfolding insert_task
insert_task_ok env t p db s u h = elim (Bool-cases (breaks_task env t db)) [
  | inl e ↦ absurd (ok≢err (rw e at h))
  | inr e ↦
      let same = sym (ok_inj (rw e at h)).0 in
      (ground arith, ap (λ (z : Db). z.tasks) same, ap (λ (z : Db). z.idempotency) same)
]

get_with_found :
    (owner id : String) (now : ℕ) (db db' : Db) (a : Task)
    → get_with owner id now db ≡ (db', ok a)
    → first_where (is_visible owner id now) db.tasks ≡ some a
unfolding get_with
get_with_found owner id now db db' a h = go (first_where (is_visible owner id now) db.tasks) h
  where
    go :
        (o : Option Task)
        → Path
            (Db × Result Error Task)
            (elim o [ none ↦ (db, err Error.task_not_found) | some t ↦ (db, ok t) ])
            (db', ok a)
        → o ≡ some a
    go none k = absurd (ok≢err k)
    go (some t) k = ap some (ok_inj k).1

remembered :
    (env : Env) (t : NewTask) (key_hash : String) (s : Db)
    → (key_hash == "") ≡ false
    → (remember_key env t key_hash s).0.idempotency ≡ s.idempotency ++ new_key env t key_hash ∷ []
remembered env t key_hash s e = rw e refl

forgotten :
    (owner key_hash : String) (s : Db)
    → (key_hash == "") ≡ false
    → (forget_key owner key_hash s).0.idempotency
      ≡ delete_where (is_key owner key_hash) s.idempotency
forgotten owner key_hash s e = rw e refl

remember_key-tasks :
    (env : Env) (t : NewTask) (key_hash : String) (s : Db)
    → (remember_key env t key_hash s).0.tasks ≡ s.tasks
remember_key-tasks env t key_hash s =
    if_cases (λ (r : Db × Result Error (Unit {0})). r.0.tasks ≡ s.tasks) (key_hash == "") _ _
      (λ e. refl) (λ e. refl)

forget_key-tasks :
    (owner key_hash : String) (s : Db) → (forget_key owner key_hash s).0.tasks ≡ s.tasks
forget_key-tasks owner key_hash s =
    if_cases (λ (r : Db × Result Error (Unit {0})). r.0.tasks ≡ s.tasks) (key_hash == "") _ _
      (λ e. refl) (λ e. refl)

-- The state behind a run.
left_by : {A : Type 0} (r : Db × Result Error A) (s : Db) (a : A) → r ≡ (s, ok a) → r.0 ≡ s
left_by r s a h = ap (λ (q : Db × Result Error _). q.0) h

within_limits_ok :
    (env : Env) (owner : String) (db s : Db) (u : Unit {0})
    → within_limits env owner db ≡ (s, ok u)
    → (ltb (count_where (counts_for owner) db.tasks) env.per_key_limit ≡ true)
      × (ltb (count_where counts db.tasks) env.global_limit ≡ true)
      × (s ≡ db)
unfolding within_limits
within_limits_ok env owner db s u h =
    let (s1, u1, a, h1) = bind_ok _ _ s u h in
    let (own, e1) = guard_ok _ _ db s1 u1 a in
    let (every, e2) = guard_ok _ _ s1 s u h1 in (own, every, sym e2 ∙ sym e1)

query_ok :
    {A : Type 0} (db s : Db) (q : Result Error A) (a : A)
    → Path (Db × Result Error A) (db, q) (s, ok a)
    → s ≡ db
query_ok db s q a h = sym (ap (λ (r : Db × Result Error _). r.0) h)

module _ (m : Decoders) (env : Env) (t : NewTask) (key_hash : String) where
  -- The steps of a Create, put together.
  assemble :
      (db s1 s3 s4 s5 s6 db' : Db) (p : Prepared) (a : Task)
      → forget_key t.api_key_id key_hash db ≡ (s1, ok tt)
      → ltb (count_where (counts_for t.api_key_id) s1.tasks) env.per_key_limit ≡ true
      → ltb (count_where counts s1.tasks) env.global_limit ≡ true
      → s3 ≡ s1
      → insert_task env t p s3 ≡ (s4, ok tt)
      → insert_details m env t s4 ≡ (s5, ok tt)
      → remember_key env t key_hash s5 ≡ (s6, ok tt)
      → get_with t.api_key_id t.task_id
          (now_unix env)
          (record s6 { tasks = rebalance_tasks env.protected_slots (now_unix env) s6.tasks })
        ≡ (db', ok a)
      → Created env t key_hash db db' a
  assemble db s1 s3 s4 s5 s6 db' p a g1 own every e3 g4 g5 g6 h =
      let (fresh, added, kept) = insert_task_ok env t p s3 s4 tt g4 in
      let same = insert_details-Keeps m env t s4 in
      let forgot = sym (left_by (forget_key t.api_key_id key_hash db) s1 tt g1) in
      let filled = sym (left_by (insert_details m env t s4) s5 tt g5) in
      let remembering = sym (left_by (remember_key env t key_hash s5) s6 tt g6) in
      let end = get_with_still t.api_key_id t.task_id (now_unix env) _ db' a h in
      let before1 : s1.tasks ≡ db.tasks =
        ap (λ (z : Db). z.tasks) forgot ∙ forget_key-tasks t.api_key_id key_hash db in
      let before3 : s3.tasks ≡ db.tasks = ap (λ (z : Db). z.tasks) e3 ∙ before1 in
      let row =
        new_task t p (suc s3.last_queue_seq) (now_unix env) (now_unix env + env.retention) in
      let after : s6.tasks ≡ db.tasks ++ row ∷ [] =
        ap (λ (z : Db). z.tasks) remembering
        ∙ remember_key-tasks env t key_hash s5
        ∙ ap (λ (z : Db). z.tasks) filled
        ∙ same.0
        ∙ added
        ∙ ap (λ z. z ++ row ∷ []) before3 in
      record {
        few_of_owner =
            subst (λ z. ltb (count_where (counts_for t.api_key_id) z) env.per_key_limit ≡ true)
              before1 own;
        few = subst (λ z. ltb (count_where counts z) env.global_limit ≡ true) before1 every;
        prepared = p;
        seq = suc s3.last_queue_seq;
        fresh = subst (λ z. any (has_task_id t.task_id) z ≡ false) before3 fresh;
        inserted = row;
        row = refl;
        tasks =
            ap (λ (z : Db). z.tasks) (sym end)
            ∙ ap (rebalance_tasks env.protected_slots (now_unix env)) after;
        keys = λ e.
            ap (λ (z : Db). z.idempotency) (sym end)
            ∙ ap (λ (z : Db). z.idempotency) remembering
            ∙ remembered env t key_hash s5 e
            ∙ ap (λ z. z ++ new_key env t key_hash ∷ [])
                (ap (λ (z : Db). z.idempotency) filled
                  ∙ same.1
                  ∙ kept
                  ∙ ap (λ (z : Db). z.idempotency) (e3 ∙ forgot)
                  ∙ forgotten t.api_key_id key_hash db e);
        found =
            subst
              (λ (z : Db).
                first_where (is_visible t.api_key_id t.task_id (now_unix env)) z.tasks ≡ some a)
              end (get_with_found t.api_key_id t.task_id (now_unix env) _ db' a h);
      }

  -- What a Create that inserts a task goes through, from the guard to the last SELECT.
  pub create_new_ok :
      (available : Bool) (db db' : Db) (a : Task)
      → create_new m env t key_hash available db ≡ (db', ok a)
      → Created env t key_hash db db' a
  unfolding create_new rebalance
  create_new_ok available db db' a h =
      let (s0, u0, g0, h0) = bind_ok (guard available Error.resource_unavailable db) _ db' a h in
      let (_, e0) = guard_ok available Error.resource_unavailable db s0 u0 g0 in
      let (s1, u1, g1, h1) = bind_ok (forget_key t.api_key_id key_hash s0) _ db' a h0 in
      let (s2, u2, g2, h2) = bind_ok (within_limits env t.api_key_id s1) _ db' a h1 in
      let (own, every, e2) = within_limits_ok env t.api_key_id s1 s2 u2 g2 in
      let (s3, p, g3, h3) = bind_ok (s2, prepare_task_routing s2 (now_unix env) t) _ db' a h2 in
      let (s4, u4, g4, h4) = bind_ok (insert_task env t p s3) _ db' a h3 in
      let (s5, u5, g5, h5) = bind_ok (insert_details m env t s4) _ db' a h4 in
      let (s6, u6, g6, h6) = bind_ok (remember_key env t key_hash s5) _ db' a h5 in
      assemble db s1 s3 s4 s5 s6 db' p a
        (subst (λ z. forget_key t.api_key_id key_hash z ≡ (s1, ok u1)) (sym e0) g1) own every
        (query_ok s2 s3 (prepare_task_routing s2 (now_unix env) t) p g3 ∙ e2) g4 g5 g6 h6
