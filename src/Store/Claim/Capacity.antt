-- ===== src/Store/Claim/Capacity.antt =====
-- official_task_store.go: the slots of a node that its tasks hold.
use minimax_proxy.Store.Db.{Db, Env, now_unix}
use minimax_proxy.Base.{
  Bool-cases, List, Option, String, and_then, arith, count_where, count_where-still,
  count_where-update_le, err, first_where, inl, inr, ltb, ltb→lt, min, none, ok, ok≢err, refl,
  settle_ok, some, subst, suc, update_where, ℕ, ◌<◌, ◌==◌, ◌≡◌, ◌≤◌, string_eq, nat_eq,
}
use minimax_proxy.Store.Claim.{
  claim_next_official, claim_official_row, holds_slot_on, is_current_official, is_wanted,
  take_official_task, claim_on_node, found_official,
}
use minimax_proxy.Store.Claim.Laws.{get_with_still}
use minimax_proxy.Store.Eligible.{Query, next_eligible_task}
use minimax_proxy.Store.Queue.{is_waiting, rebalance, rebalance_row, rebalance_tasks}
use minimax_proxy.Store.Tables.{ModelNode, Task}

rebalance-slots :
    (slots now : ℕ) (node_id : String) (ts : List Task)
    → count_where (holds_slot_on node_id) (rebalance_tasks slots now ts)
      ≡ count_where (holds_slot_on node_id) ts
unfolding rebalance_tasks rebalance_row
rebalance-slots slots now node_id ts =
    count_where-still (holds_slot_on node_id) is_waiting _ ts (λ t h. ground arith)

take_official_task-slots :
    (env : Env) (n : ModelNode) (node_id : String) (node_version : ℕ) (selected t : Task)
    (db db' : Db)
    → take_official_task env n node_id node_version selected db ≡ (db', ok t)
    → count_where (holds_slot_on node_id) db'.tasks
      ≤ suc (count_where (holds_slot_on node_id) db.tasks)
unfolding take_official_task rebalance
take_official_task-slots env n node_id node_version selected t db db' h =
    elim (Bool-cases (count_where (is_wanted selected) db.tasks == 1)) [
      | inl e ↦
          let f = claim_official_row n node_id node_version selected (now_unix env) in
          let same = get_with_still _ _ (now_unix env) _ db' t (rw e at h) in
          let more =
            count_where-update_le (holds_slot_on node_id) (is_wanted selected) f db.tasks in
          let kept =
            rebalance-slots env.protected_slots (now_unix env) node_id
              (update_where (is_wanted selected) f db.tasks) in
          subst
            (λ (s : Db).
              count_where (holds_slot_on node_id) s.tasks
              ≤ suc (count_where (holds_slot_on node_id) db.tasks))
            same (rw kept (ground (arith, more)))
      | inr e ↦ absurd (ok≢err (rw e at h))
    ]

-- A claim of `ClaimNextOfficial` that returns a task finds the enabled node in the version that the
-- caller has seen, and afterwards the node's tasks hold no more slots than the smaller of the
-- caller's capacity and the node's own concurrency.
pub claim_next_official-capacity :
    (env : Env) (node_id : String) (node_version capacity : ℕ) (db db' : Db) (t : Task)
    → claim_next_official env node_id node_version capacity db ≡ (db', ok t)
    → (n : ModelNode) × (first_where (is_current_official node_id node_version) db.nodes ≡ some n)
      × (count_where (holds_slot_on node_id) db'.tasks ≤ min capacity n.max_concurrency)
unfolding claim_next_official claim_on_node
claim_next_official-capacity env node_id node_version capacity db db' t h =
    elim (Bool-cases (ltb capacity 1)) [
      | inl e ↦ absurd (ok≢err (rw e at h))
      | inr e ↦
          found (first_where (is_current_official node_id node_version) db.nodes) refl
            (settle_ok db db' _ t (rw e at h))
    ]
  where
    chosen :
        (n : ModelNode) (q : Query Task)
        → count_where (holds_slot_on node_id) db.tasks < min capacity n.max_concurrency
        → and_then (db, q) (take_official_task env n node_id node_version) ≡ (db', ok t)
        → count_where (holds_slot_on node_id) db'.tasks ≤ min capacity n.max_concurrency
    chosen n (err x) l r = absurd (ok≢err r)
    chosen n (ok selected) l r =
        let more = take_official_task-slots env n node_id node_version selected t db db' r in
        omega arith

    found :
        (o : Option ModelNode)
        → first_where (is_current_official node_id node_version) db.nodes ≡ o
        → and_then (found_official db o) (claim_on_node env node_id node_version capacity)
          ≡ (db', ok t)
        → (n : ModelNode) × (first_where (is_current_official node_id node_version) db.nodes
            ≡ some n)
          × (count_where (holds_slot_on node_id) db'.tasks ≤ min capacity n.max_concurrency)
    found none k r = absurd (ok≢err r)
    found (some n) k r =
        elim (Bool-cases
          (ltb (count_where (holds_slot_on node_id) db.tasks) (min capacity n.max_concurrency))) [
            | inl e ↦ (
              n,
              k,
              chosen n (next_eligible_task db node_id (now_unix env)) (ltb→lt _ _ e) (rw e at r),
            )
            | inr e ↦ absurd (ok≢err (rw e at r))
          ]
