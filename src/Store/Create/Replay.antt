-- ===== src/Store/Create/Replay.antt =====
-- The idempotency of a creation: the same key again.
use minimax_proxy.Protocol.Media.{Decoders}
use minimax_proxy.Base.{
  In, In-any, List, String, [], any, ap, arith, count_where, count_where-append, count_where-still,
  eq_iff, false, first_where, first_where-In, first_where-deleted, first_where_holds,
  first_where_only, ltb, lt→ltb, none-count, refl, some, subst, sym, true, ℕ, ◌&&◌, ◌++◌, ◌+◌, ◌<◌,
  ◌==◌, ◌∙◌, ◌∷◌, ◌≡◌, string_eq, nat_eq, Bool, Bool-cases, err, if◌then◌else◌, inl, inr, none, ok,
  settle_ok, Option, Result, some_inj,
}
use minimax_proxy.Store.Claim.{is_visible, get_with}
use minimax_proxy.Store.Create.Frame.{Created, create_new_ok}
use minimax_proxy.Store.Db.{Db, Env, now_unix, Error}
use minimax_proxy.Store.Queue.{is_live, is_waiting, rebalance_row, rebalance_tasks}
use minimax_proxy.Store.Routes.{NewTask, Prepared}
use minimax_proxy.Store.Tables.{Task}
use minimax_proxy.Store.Create.{create, create_new, create_or_replay, find_key, is_key, new_key}
use minimax_proxy.Store.NewTasks.{has_task_id, new_spec, new_task}

rebalance-ids :
    (slots now : ℕ) (id : String) (ts : List Task)
    → count_where (has_task_id id) (rebalance_tasks slots now ts) ≡ count_where (has_task_id id) ts
unfolding rebalance_tasks rebalance_row
rebalance-ids slots now id ts = count_where-still (has_task_id id) is_waiting _ ts (λ t h. refl)

new_task-id :
    (t : NewTask) (p : Prepared) (seq now expires : ℕ)
    → has_task_id t.task_id (new_task t p seq now expires) ≡ true
unfolding new_task new_spec
new_task-id t p seq now expires = ground (arith, eq_iff t.task_id t.task_id)

get_with_again :
    (owner id : String) (now : ℕ) (db : Db) (a : Task)
    → first_where (is_visible owner id now) db.tasks ≡ some a
    → get_with owner id now db ≡ (db, ok a)
unfolding get_with
get_with_again owner id now db a h = go (first_where (is_visible owner id now) db.tasks) h
  where
    go :
        (o : Option Task)
        → o ≡ some a
        → Path
            (Db × Result Error Task)
            (elim o [ none ↦ (db, err Error.task_not_found) | some t ↦ (db, ok t) ])
            (db, ok a)
    go none k = absurd (cc)
    go (some t) k = ap (λ z. (db, ok z)) (some_inj k)

module _ (env : Env) (t : NewTask) (key_hash : String) (db db' : Db) (a : Task)
    (c : Created env t key_hash db db' a) where
  -- The identifier stands for one task.
  created_id : count_where (has_task_id t.task_id) db'.tasks ≡ 1
  created_id =
      let e = ap (count_where (has_task_id t.task_id)) c.tasks in
      let r =
        rebalance-ids env.protected_slots (now_unix env) t.task_id (db.tasks ++ c.inserted ∷ []) in
      let n = count_where-append (has_task_id t.task_id) db.tasks (c.inserted ∷ []) in
      let none_before = none-count (has_task_id t.task_id) db.tasks c.fresh in
      let id : has_task_id t.task_id c.inserted ≡ true =
        subst (λ z. has_task_id t.task_id z ≡ true) (sym c.row)
          (new_task-id t c.prepared c.seq (now_unix env) (now_unix env + env.retention)) in
      let one : count_where (has_task_id t.task_id) (c.inserted ∷ []) ≡ 1 = rw id refl in
      omega arith

  created_visible : is_visible t.api_key_id t.task_id (now_unix env) a ≡ true
  created_visible =
      first_where_holds (is_visible t.api_key_id t.task_id (now_unix env)) db'.tasks a c.found

  created_there : In a db'.tasks
  created_there =
      first_where-In (is_visible t.api_key_id t.task_id (now_unix env)) db'.tasks a c.found

  -- Until it expires the task is found again.
  found_again :
      (now : ℕ)
      → ltb now a.expires_at ≡ true
      → first_where (is_visible t.api_key_id t.task_id now) db'.tasks ≡ some a
  found_again now l =
      let v = created_visible in
      first_where_only (is_visible t.api_key_id t.task_id now) (has_task_id t.task_id) db'.tasks a
        (λ x h. ground arith) created_id created_there (ground (arith, v, l))

  -- Until it expires the key is found.
  key_found :
      (now : ℕ)
      → (key_hash == "") ≡ false
      → now < now_unix env + env.idempotency_ttl
      → find_key db' t.api_key_id key_hash now ≡ some (new_key env t key_hash)
  unfolding find_key
  key_found now e l =
      let v = created_visible in
      let there : any (λ x. has_task_id t.task_id x && is_live x) db'.tasks ≡ true =
        In-any (λ x. has_task_id t.task_id x && is_live x) db'.tasks a created_there
          (ground (arith, v)) in
      let own = (eq_iff t.api_key_id t.api_key_id).1 refl in
      let key = (eq_iff key_hash key_hash).1 refl in
      let l' = lt→ltb now (now_unix env + env.idempotency_ttl) l in
      rw (e, c.keys e)
        (first_where-deleted (is_key t.api_key_id key_hash) _ db.idempotency
            (new_key env t key_hash ∷ []) (λ x h. ground arith)
          ∙ rw (own, key, l', there) refl)

-- A second Create with the key of a first one that returned a task, before the key and the task
-- expire, returns that task for the same request and a conflict for another one, whatever else it
-- brings and whether the upstreams are there or not, and changes nothing.
pub create_replay :
    (m m' : Decoders) (env env' : Env) (t t' : NewTask) (key_hash : String)
    (available available' : Bool) (db db' : Db) (a : Task)
    → create m env t key_hash available db ≡ (db', ok a)
    → find_key db t.api_key_id key_hash (now_unix env) ≡ none
    → (key_hash == "") ≡ false
    → t'.api_key_id ≡ t.api_key_id
    → now_unix env' < now_unix env + env.idempotency_ttl
    → ltb (now_unix env') a.expires_at ≡ true
    → create m' env' t' key_hash available' db' ≡ (
        if t.request_hash == t'.request_hash
        then (db', ok a)
        else (db', err Error.idempotency_conflict))
unfolding create create_or_replay
create_replay m m' env env' t t' key_hash available available' db db' a h unknown e owner l live =
    let run : create_or_replay m env t key_hash available
          (find_key db t.api_key_id key_hash (now_unix env)) db
        ≡ (db', ok a) =
      settle_ok db db' _ a h in
    let k : create_new m env t key_hash available db ≡ (db', ok a) = rw unknown at run in
    let c = create_new_ok m env t key_hash available db db' a k in
    let key = key_found env t key_hash db db' a c (now_unix env') e l in
    let found : get_with t.api_key_id t.task_id (now_unix env') db' ≡ (db', ok a) =
      get_with_again t.api_key_id t.task_id (now_unix env') db' a
        (found_again env t key_hash db db' a c (now_unix env') live) in
    rw (owner, key)
      (elim (Bool-cases (t.request_hash == t'.request_hash)) [
        | inl r ↦ rw (r, found) refl
        | inr r ↦ rw r refl
      ])
