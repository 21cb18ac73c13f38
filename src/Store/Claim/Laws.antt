-- ===== src/Store/Claim/Laws.antt =====
-- `ClaimNext` of store.go: the tasks of its upstream.
use minimax_proxy.Store.Db.{
  Db, Env, now_unix, one_row, update_tasks, Error, task_not_found, constraint, Error,
}
use minimax_proxy.Store.Claim.{
  claim_row, claim_next, is_active_on, is_wanted, get_with, is_active_status, same_status,
  take_task, is_visible, version_is_current, claim_transaction,
}
use minimax_proxy.Domain.Status.{InternalStatus}
use minimax_proxy.Base.{
  ◌>>=◌, ◌>>◌, All, Bool, Bool-cases, List, Option, String, [], ap, arith, coalesce, err, false,
  if◌then◌else◌, inl, inr, length, ltb, none, ok, refl, some, subst, suc, take, true, zero, ℕ, ◌&&◌,
  ◌∙◌, ◌∷◌, ◌≡◌, count_where, count_where-still, eq_iff, ok≢err, ◌==◌, string_eq, nat_eq, Result,
  count_where-update, first_where, ok_inj, settle_ok, update_where, and_then,
}
use minimax_proxy.Domain.Status.{is_queued}
use minimax_proxy.Store.Eligible.{
  Query, behind, last_seq, next_eligible_task, next_from, next_round, scan_page, takes, ◌>>=?◌,
}
use minimax_proxy.Store.Queue.{is_ranked, is_waiting, rebalance_row, rebalance_tasks, rebalance}
use minimax_proxy.Store.Tables.{Task}

-- What the selection of a task gives is in the queue.
scan_page-ranked :
    (db : Db) (node_id : String) (now : ℕ) (ts : List Task) (t : Task)
    → All (λ u. is_queued u.status ≡ true) ts
    → scan_page db node_id now ts ≡ ok (some t)
    → is_queued t.status ≡ true
unfolding scan_page
scan_page-ranked db node_id now [] t a h = absurd (cc)
scan_page-ranked db node_id now (x ∷ ts) t a h =
    go (scan_page-ranked db node_id now ts t a.1) (takes db node_id now x) refl h
  where
    go :
        (scan_page db node_id now ts ≡ ok (some t) → is_queued t.status ≡ true)
        → (q : Query Bool) → takes db node_id now x ≡ q
        → (q >>=? λ taken. if taken then ok (some x) else scan_page db node_id now ts) ≡ ok (some t)
        → is_queued t.status ≡ true
    go ih (err e) k h = absurd (cc)
    go ih (ok true) k h = let e : x ≡ t = cc in subst (λ y. is_queued y.status ≡ true) e a.0
    go ih (ok false) k h = ih h

page-queued :
    (n after : ℕ) (ts : List Task) → All (λ u. is_queued u.status ≡ true) (take n (behind after ts))
page-queued zero after ts = tt
page-queued (suc n) after [] = tt
page-queued (suc n) after (t ∷ ts) = elim (Bool-cases (is_ranked t && ltb after t.queue_seq)) [
  | inl e ↦ rw e (ground arith, page-queued n after ts)
  | inr e ↦ rw e (page-queued (suc n) after ts)
]

next_round-queued :
    (q : Query (Option Task)) (is_last : Bool) (rest : Option (Query Task)) (t : Task)
    → (q ≡ ok (some t) → is_queued t.status ≡ true)
    → (rest ≡ some (ok t) → is_queued t.status ≡ true)
    → next_round q is_last rest ≡ some (ok t)
    → is_queued t.status ≡ true
unfolding next_round
next_round-queued (err e) is_last rest t h k r = absurd (cc)
next_round-queued (ok none) true rest t h k r = absurd (cc)
next_round-queued (ok none) false rest t h k r = k r
next_round-queued (ok (some u)) is_last rest t h k r = h (cc)

next_from-queued :
    (limit fuel : ℕ) (db : Db) (node_id : String) (now after : ℕ) (t : Task)
    → next_from limit fuel db node_id now after ≡ some (ok t)
    → is_queued t.status ≡ true
unfolding next_from
next_from-queued limit zero db node_id now after t h = absurd (cc)
next_from-queued limit (suc fuel) db node_id now after t h =
    let page = take limit (behind after db.tasks) in
    next_round-queued (scan_page db node_id now page) _ _ t
      (scan_page-ranked db node_id now page t (page-queued limit after db.tasks))
      (next_from-queued limit fuel db node_id now (last_seq after page) t) h

pub next_eligible_task-queued :
    (db : Db) (node_id : String) (now : ℕ) (t : Task)
    → next_eligible_task db node_id now ≡ ok t
    → is_queued t.status ≡ true
unfolding next_eligible_task
next_eligible_task-queued db node_id now t h =
    go (next_from 100 (suc (length db.tasks)) db node_id now 0) refl h
  where
    go :
        (o : Option (Query Task))
        → next_from 100 (suc (length db.tasks)) db node_id now 0 ≡ o
        → coalesce o (err constraint) ≡ ok t
        → is_queued t.status ≡ true
    go none k h = absurd (cc)
    go (some q) k h =
        next_from-queued 100 (suc (length db.tasks)) db node_id now 0 t (k ∙ ap some h)

same_status-queued :
    (s u : InternalStatus)
    → is_queued s ≡ true
    → same_status u s ≡ true
    → is_active_status u ≡ false
same_status-queued s u q w = ground arith

taken_row :
    (upstream_id : String) (now : ℕ) (selected t : Task)
    → is_queued selected.status ≡ true
    → is_wanted selected t ≡ true
    → is_active_on upstream_id t ≡ false
taken_row upstream_id now selected t q w =
    let idle = same_status-queued selected.status t.status q (ground arith) in ground arith

taken_row-active :
    (upstream_id : String) (now : ℕ) (t : Task)
    → is_active_on upstream_id (claim_row upstream_id now t) ≡ true
taken_row-active upstream_id now t = ground (arith, eq_iff upstream_id upstream_id)

rebalance-active :
    (slots now : ℕ) (upstream_id : String) (ts : List Task)
    → count_where (is_active_on upstream_id) (rebalance_tasks slots now ts)
      ≡ count_where (is_active_on upstream_id) ts
unfolding rebalance_tasks rebalance_row
rebalance-active slots now upstream_id ts =
    count_where-still (is_active_on upstream_id) is_waiting _ ts (λ t h. ground arith)

pub get_with_still :
    (owner id : String) (now : ℕ) (db db' : Db) (t : Task)
    → get_with owner id now db ≡ (db', ok t)
    → db ≡ db'
unfolding get_with
get_with_still owner id now db db' t h = go (first_where (is_visible owner id now) db.tasks) h
  where
    go :
        (o : Option Task)
        → Path
            (Db × Result Error Task)
            (elim o [ none ↦ (db, err task_not_found) | some u ↦ (db, ok u) ])
            (db', ok t)
        → db ≡ db'
    go none h = absurd (ok≢err h)
    go (some u) h = (ok_inj h).0

-- The update of a claim, as both claims make it: the rows that count are one more.
take_counts :
    (env : Env) (p : Task → Bool) (f : Task → Task) (counted : Task → Bool) (owner id : String)
    (db db' : Db) (t : Task)
    → ((u : Task) → p u ≡ true → counted u ≡ false)
    → ((u : Task) → p u ≡ true → counted (f u) ≡ true)
    → ((slots now : ℕ) (ts : List Task)
        → count_where counted (rebalance_tasks slots now ts) ≡ count_where counted ts)
    → (update_tasks p f >>= λ n. one_row n >> (rebalance env >> get_with owner id (now_unix env)))
        db
      ≡ (db', ok t)
    → count_where counted db'.tasks ≡ suc (count_where counted db.tasks)
unfolding rebalance
take_counts env p f counted owner id db db' t idle taken still h =
    elim (Bool-cases (count_where p db.tasks == 1)) [
      | inl e ↦
          let same = get_with_still owner id (now_unix env) _ db' t (rw e at h) in
          let more = count_where-update counted p f db.tasks idle taken in
          let kept = still env.protected_slots (now_unix env) (update_where p f db.tasks) in
          subst (λ (s : Db). count_where counted s.tasks ≡ suc (count_where counted db.tasks)) same
            (rw kept (ground (arith, more)))
      | inr e ↦ absurd (ok≢err (rw e at h))
    ]

take_task-active :
    (env : Env) (upstream_id : String) (selected t : Task) (db db' : Db)
    → is_queued selected.status ≡ true
    → take_task env upstream_id selected db ≡ (db', ok t)
    → count_where (is_active_on upstream_id) db'.tasks
      ≡ suc (count_where (is_active_on upstream_id) db.tasks)
unfolding take_task
take_task-active env upstream_id selected t db db' q h =
    take_counts env (is_wanted selected) (claim_row upstream_id (now_unix env))
      (is_active_on upstream_id) selected.api_key_id selected.task_id db db' t
      (λ u w. taken_row upstream_id (now_unix env) selected u q w)
      (λ u w. taken_row-active upstream_id (now_unix env) u)
      (λ slots now ts. rebalance-active slots now upstream_id ts) h

-- A claim of `ClaimNext` that returns a task leaves its upstream with that one task to work on: none
-- was dispatched, running, reconciling or cancelling there before, and exactly one is afterwards.
pub claim_next-exclusive :
    (env : Env) (upstream_id : String) (version : Option ℕ) (db db' : Db) (t : Task)
    → claim_next env upstream_id version db ≡ (db', ok t)
    → (count_where (is_active_on upstream_id) db.tasks ≡ 0)
      × (count_where (is_active_on upstream_id) db'.tasks ≡ 1)
unfolding claim_next claim_transaction
claim_next-exclusive env upstream_id version db db' t h =
    elim (Bool-cases (version_is_current upstream_id version db)) [
      | inr e ↦ absurd (ok≢err (rw e at h))
      | inl e ↦ elim (Bool-cases (ltb 0 (count_where (is_active_on upstream_id) db.tasks))) [
        | inl k ↦ absurd (ok≢err (rw (e, k) at h))
        | inr k ↦
            let none_before : count_where (is_active_on upstream_id) db.tasks ≡ 0 =
              ground (arith, k) in
            (
              none_before,
              go (next_eligible_task db upstream_id (now_unix env)) refl
                    (settle_ok db db' _ t (rw (e, k) at h))
                  ∙ ap suc none_before,
            )
      ]
    ]
  where
    go :
        (q : Query Task)
        → next_eligible_task db upstream_id (now_unix env) ≡ q
        → and_then (db, q) (take_task env upstream_id) ≡ (db', ok t)
        → count_where (is_active_on upstream_id) db'.tasks
          ≡ suc (count_where (is_active_on upstream_id) db.tasks)
    go (err x) k r = absurd (ok≢err r)
    go (ok selected) k r =
        take_task-active env upstream_id selected t db db'
          (next_eligible_task-queued db upstream_id (now_unix env) selected k) r
