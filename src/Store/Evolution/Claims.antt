-- ===== src/Store/Evolution/Claims.antt =====
-- The claims, and the state machine.
use minimax_proxy.Domain.Status.{InternalStatus, dispatching, is_queued}
use minimax_proxy.Store.Tables.{Task, ModelNode}
use minimax_proxy.Store.Db.{Db, Env, Error, M, now_unix}
use minimax_proxy.Base.{
  ok, err, Bool-cases, Option, Result, String, and_then, arith, count_where, first_where, inl, inr,
  ltb, min, none, refl, some, true, ℕ, ◌≡◌,
}
use minimax_proxy.Store.Claim.{
  claim_next, claim_next_official, claim_official_row, claim_on_node, claim_row, found_official,
  get_with, holds_slot_on, is_active_on, is_current_official, is_visible, is_wanted, same_status,
  take_official_task, take_task, version_is_current, claim_transaction,
}
use minimax_proxy.Store.Claim.Laws.{next_eligible_task-queued}
use minimax_proxy.Store.Eligible.{Query, next_eligible_task}
use minimax_proxy.Store.Evolution.{
  Evolves, Evolves-refl, Extends, Extends-rebalance, Extends-still, Extends-then, Keeps,
  Keeps-immediate, Keeps-statement, can_follow,
}

waiting_follows :
    (selected t : Task)
    → is_queued selected.status ≡ true
    → is_wanted selected t ≡ true
    → can_follow t.status dispatching ≡ true
waiting_follows selected t q w = go selected.status t.status q (ground arith)
  where
    go :
        (s u : InternalStatus)
        → is_queued s ≡ true
        → same_status u s ≡ true
        → can_follow u dispatching ≡ true
    go s u q w = ground arith

Extends-get_with : (owner id : String) (now : ℕ) → Extends (get_with owner id now)
unfolding get_with
Extends-get_with owner id now =
    Extends-still (λ db. go db (first_where (is_visible owner id now) db.tasks))
  where
    go :
        (db : Db) (o : Option Task)
        → (elim o as (λ _. Db × Result Error Task) [
          | none ↦ (db, err Error.task_not_found)
          | some t ↦ (db, ok t)
        ]).0.tasks
          ≡ db.tasks
    go db none = refl
    go db (some t) = refl

take_task-Keeps :
    (env : Env) (upstream_id : String) (selected : Task)
    → is_queued selected.status ≡ true
    → Keeps (take_task env upstream_id selected)
unfolding take_task
take_task-Keeps env upstream_id selected q =
    Keeps-statement (is_wanted selected) (claim_row upstream_id (now_unix env))
      (λ t w. record {
        same_spec = refl;
        same_route = refl;
        same_deletion = refl;
        transition = waiting_follows selected t q w;
        newer = omega arith;
      })
      (Extends-then (Extends-rebalance env) (Extends-get_with _ _ _))

take_official_task-Keeps :
    (env : Env) (n : ModelNode) (node_id : String) (node_version : ℕ) (selected : Task)
    → is_queued selected.status ≡ true
    → Keeps (take_official_task env n node_id node_version selected)
unfolding take_official_task
take_official_task-Keeps env n node_id node_version selected q =
    Keeps-statement (is_wanted selected)
      (claim_official_row n node_id node_version selected (now_unix env))
      (λ t w. record {
        same_spec = refl;
        same_route = refl;
        same_deletion = refl;
        transition = waiting_follows selected t q w;
        newer = omega arith;
      })
      (Extends-then (Extends-rebalance env) (Extends-get_with _ _ _))

-- What follows the selection of a task, on the database of the selection.
selected-Evolves :
    (node_id : String) (now : ℕ) (k : Task → M Task) (db : Db) (q : Query Task)
    → next_eligible_task db node_id now ≡ q
    → ((t : Task) → is_queued t.status ≡ true → Keeps (k t))
    → Evolves db.tasks (and_then (db, q) k).0.tasks
selected-Evolves node_id now k db (err x) e h = Evolves-refl db.tasks
selected-Evolves node_id now k db (ok t) e h =
    (h t (next_eligible_task-queued db node_id now t e)).keeps db

claim_transaction-Keeps :
    (env : Env) (upstream_id : String) (version : Option ℕ)
    → Keeps (claim_transaction env upstream_id version)
unfolding claim_transaction
claim_transaction-Keeps env upstream_id version = record {
  keeps = λ db. elim (Bool-cases (version_is_current upstream_id version db)) [
    | inr e ↦ rw e (Evolves-refl db.tasks)
    | inl e ↦ elim (Bool-cases (ltb 0 (count_where (is_active_on upstream_id) db.tasks))) [
      | inl k ↦ rw (e, k) (Evolves-refl db.tasks)
      | inr k ↦
          rw (e, k)
            (selected-Evolves upstream_id (now_unix env) (take_task env upstream_id) db _ refl
              (take_task-Keeps env upstream_id))
    ]
  ];
}

pub claim_next-Keeps :
    (env : Env) (upstream_id : String) (version : Option ℕ)
    → Keeps (claim_next env upstream_id version)
unfolding claim_next
claim_next-Keeps env upstream_id version =
    Keeps-immediate (claim_transaction-Keeps env upstream_id version)

claim_on_node-Keeps :
    (env : Env) (node_id : String) (node_version capacity : ℕ) (n : ModelNode)
    → Keeps (claim_on_node env node_id node_version capacity n)
unfolding claim_on_node
claim_on_node-Keeps env node_id node_version capacity n = record {
  keeps = λ db.
      elim (Bool-cases
        (ltb (count_where (holds_slot_on node_id) db.tasks) (min capacity n.max_concurrency))) [
          | inr e ↦ rw e (Evolves-refl db.tasks)
          | inl e ↦ rw e (
              selected-Evolves node_id (now_unix env)
                (take_official_task env n node_id node_version) db _ refl
                (take_official_task-Keeps env n node_id node_version))
        ];
}

pub claim_next_official-Keeps :
    (env : Env) (node_id : String) (node_version capacity : ℕ)
    → Keeps (claim_next_official env node_id node_version capacity)
unfolding claim_next_official
claim_next_official-Keeps env node_id node_version capacity = elim (Bool-cases (ltb capacity 1)) [
  | inl e ↦ rw e (record { keeps = λ db. Evolves-refl db.tasks })
  | inr e ↦ rw e (
      Keeps-immediate (record {
        keeps = λ db. found db (first_where (is_current_official node_id node_version) db.nodes);
      }))
]
  where
    found :
        (db : Db) (o : Option ModelNode)
        → Evolves db.tasks
            (and_then
              (found_official db o)
              (claim_on_node env node_id node_version capacity)).0.tasks
    found db none = Evolves-refl db.tasks
    found db (some n) = (claim_on_node-Keeps env node_id node_version capacity n).keeps db
