-- ===== src/Store/Queue/Fifo.antt =====
-- `rebalance` as one pass over the queue in order, and what that pass gives.
use mathlib.Core.List.{append_assoc}
use minimax_proxy.Base.{
  ℕ, suc, ◌-◌, ◌<◌, min, ◌≡◌, refl, sym, Bool, true, false, ◌&&◌, nat_eq, List, [], ◌∷◌, ◌++◌,
  arith, count_where, update_where, if◌then◌else◌, count_where-append, All-append, All-map,
}
use minimax_proxy.Domain.Status.{InternalStatus, queued_locked}
use minimax_proxy.Store.Tables.{Task}
use minimax_proxy.Store.Queue.{is_live, is_ranked, is_waiting, rebalance_row, rebalance_tasks}
use minimax_proxy.Store.Queue.Ranks.{Above, Below, protect, protect_one, left, is_protected_at}

row_at :
    (slots now : ℕ) (pre ts : List Task) (t : Task)
    → Below t.queue_seq pre
    → Above t.queue_seq ts
    → (if is_waiting t then rebalance_row slots now (pre ++ t ∷ ts) t else t)
      ≡ protect_one (slots - count_where is_ranked pre) now t
unfolding rebalance_row
row_at slots now pre ts t b a = ground (arith, is_protected_at slots pre ts t b a)

-- `k` is what the rows before `ts` have used up of the places.
pass :
    (slots now : ℕ) (all pre ts : List Task) (n k : ℕ)
    → all ≡ pre ++ ts
    → k ≡ count_where is_ranked pre
    → Below (suc n) pre
    → Above n ts
    → update_where is_waiting (rebalance_row slots now all) ts ≡ protect (slots - k) now ts
unfolding protect
pass slots now all pre [] n k e c b a = refl
pass slots now all pre (t ∷ ts) n k e c b (n<t, a) =
    let before : Below t.queue_seq pre =
      All-map (λ (x : Task). x.queue_seq < suc n) (λ (x : Task). x.queue_seq < t.queue_seq) pre
        (λ x h. omega arith) b in
    let upto : Below (suc t.queue_seq) (pre ++ t ∷ []) =
      All-append (λ (x : Task). x.queue_seq < suc t.queue_seq) pre (t ∷ [])
        (All-map (λ (x : Task). x.queue_seq < t.queue_seq)
          (λ (x : Task). x.queue_seq < suc t.queue_seq) pre (λ x h. omega arith) before)
        (omega arith, tt) in
    let used = count_where is_ranked (pre ++ t ∷ []) in
    let rest =
      pass slots now all (pre ++ t ∷ []) ts t.queue_seq used
        (rw e (sym (append_assoc pre (t ∷ []) ts))) refl upto a in
    rw (e, c)
      (ground (
        arith,
        row_at slots now pre ts t before a,
        count_where-append is_ranked pre (t ∷ []),
        rw e at rest,
      ))

-- On a table in the order of its key `rebalance` is one pass over the queue: the first
-- `protected_slots` ready tasks become locked, every other waiting task open, and no other row changes.
pub rebalance_tasks-protect :
    (slots now : ℕ) (ts : List Task)
    → Above 0 ts
    → rebalance_tasks slots now ts ≡ protect slots now ts
unfolding rebalance_tasks
rebalance_tasks-protect slots now ts a = ground (arith, pass slots now ts [] ts 0 0 refl refl tt a)

abbrev locked_status : InternalStatus → Bool
locked_status queued_locked = true
locked_status _ = false

-- The protected rows of the queue.
abbrev pub is_locked : Task → Bool
is_locked t = is_live t && locked_status t.status

-- The ready rows of the queue that are not protected.
abbrev pub is_open : Task → Bool
is_open t = is_ranked t && (if locked_status t.status then false else true)

count-protect :
    (slots now : ℕ) (ts : List Task)
    → count_where is_locked (protect slots now ts) ≡ min slots (count_where is_ranked ts)
unfolding protect
count-protect slots now [] = omega arith
count-protect slots now (t ∷ ts) = ground (arith, count-protect (left slots t) now ts)

-- No protected row stands behind a ready one that is not.
abbrev pub InOrder : List Task → Type 0
InOrder [] = Unit {0}
InOrder (t ∷ ts) = (is_open t ≡ true → count_where is_locked ts ≡ 0) × InOrder ts

InOrder-protect : (slots now : ℕ) (ts : List Task) → InOrder (protect slots now ts)
unfolding protect
InOrder-protect slots now [] = tt
InOrder-protect slots now (t ∷ ts) = (
  (λ h. ground (arith, count-protect (left slots t) now ts)),
  InOrder-protect (left slots t) now ts,
)

-- On a table in the order of its key `rebalance` protects exactly as many tasks as there are ready
-- ones, up to the configured number of places, and no protected task stands behind a ready one that
-- is not protected.
pub rebalance_tasks-fifo :
    (slots now : ℕ) (ts : List Task)
    → Above 0 ts
    → (count_where is_locked (rebalance_tasks slots now ts) ≡ min slots (count_where is_ranked ts))
      × InOrder (rebalance_tasks slots now ts)
rebalance_tasks-fifo slots now ts a =
    rw (rebalance_tasks-protect slots now ts a)
      (count-protect slots now ts, InOrder-protect slots now ts)
