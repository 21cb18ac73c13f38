-- ===== src/Store/Queue.antt =====
-- store.go, `rebalance`: the oldest ready tasks of the queue are protected against cancellation.
pub mod Ranks
pub mod Fifo
use minimax_proxy.Base.{
  ℕ, ◌+◌, suc, String, Bool, true, false, ◌==◌, ◌&&◌, not, string_eq, nat_eq, List, [], ◌∷◌, Option,
  ok, leb, if◌then◌else◌, count_where, update_where, is_some, any,
}
use minimax_proxy.Domain.Status.{InternalStatus, queued_open, queued_locked, is_queued}
use minimax_proxy.Store.Tables.{Task}
use minimax_proxy.Store.Db.{Db, Env, M, now_unix}

abbrev pub is_live : Task → Bool
is_live t = not (is_some t.deleted_at)

-- The rows of the common table expression `ranked`.
abbrev pub is_ranked : Task → Bool
is_ranked t = is_live t && t.route_state == "ready" && is_queued t.status

-- The rows that the statement updates.
abbrev pub is_waiting : Task → Bool
is_waiting t = is_live t && is_queued t.status

-- ROW_NUMBER() OVER (ORDER BY queue_seq); queue_seq is a key.
abbrev pub row_number : List Task → ℕ → ℕ
row_number tasks seq = count_where (λ t. is_ranked t && leb t.queue_seq seq) tasks

-- `queue_seq IN (SELECT queue_seq FROM ranked WHERE rn<=slots)`.
unfoldable pub is_protected : ℕ → List Task → ℕ → Bool
is_protected slots tasks seq =
    any (λ t. is_ranked t && t.queue_seq == seq && leb (row_number tasks t.queue_seq) slots) tasks

unfoldable pub rebalance_row : ℕ → ℕ → List Task → Task → Task
rebalance_row slots now tasks t =
    let first = is_protected slots tasks t.queue_seq in
    record t {
      status = if first then queued_locked else queued_open;
      cancel_locked = first;
      updated_at = now;
      version = t.version + 1;
    }

unfoldable pub rebalance_tasks : ℕ → ℕ → List Task → List Task
rebalance_tasks slots now tasks = update_where is_waiting (rebalance_row slots now tasks) tasks

unfoldable pub rebalance : Env → M (Unit {0})
rebalance env db =
    (record db { tasks = rebalance_tasks env.protected_slots (now_unix env) db.tasks }, ok tt)
