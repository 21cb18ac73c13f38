-- ===== src/Store/Queue/Ranks.antt =====
-- The ranks that `rebalance` gives: a first-in first-out queue with a fixed number of protected
-- places.
use minimax_proxy.Base.{
  ℕ, ◌+◌, ◌-◌, ◌≤◌, ◌<◌, ◌≡◌, refl, true, false, ◌&&◌, ◌==◌, nat_eq, List, [], ◌∷◌, ◌++◌, arith,
  leb, ltb, count_where, any, if◌then◌else◌, count_where-append, any-append, All,
}
use minimax_proxy.Domain.Status.{queued_open, queued_locked}
use minimax_proxy.Store.Tables.{Task}
use minimax_proxy.Store.Queue.{is_ranked, is_waiting, row_number, is_protected}

-- The table is in the order of its key, above `n`.
abbrev pub Above : ℕ → List Task → Type 0
Above n [] = Unit {0}
Above n (t ∷ ts) = (n < t.queue_seq) × Above t.queue_seq ts

abbrev pub Below : ℕ → List Task → Type 0
Below n ts = All (λ (t : Task). t.queue_seq < n) ts

abbrev pub lock : ℕ → Task → Task
lock now t = record t {
  status = queued_locked;
  cancel_locked = true;
  updated_at = now;
  version = t.version + 1;
}

abbrev pub unlock : ℕ → Task → Task
unlock now t = record t {
  status = queued_open;
  cancel_locked = false;
  updated_at = now;
  version = t.version + 1;
}

-- One pass over the queue in order, with the number of places that are left.
abbrev pub protect_one : ℕ → ℕ → Task → Task
protect_one slots now t =
    if is_ranked t && ltb 0 slots then lock now t else if is_waiting t then unlock now t else t

abbrev pub left : ℕ → Task → ℕ
left slots t = if is_ranked t then slots - 1 else slots

unfoldable pub protect : ℕ → ℕ → List Task → List Task
protect slots now [] = []
protect slots now (t ∷ ts) = protect_one slots now t ∷ protect (left slots t) now ts

pub Above-mono : (m n : ℕ) (ts : List Task) → m ≤ n → Above n ts → Above m ts
Above-mono m n [] h a = tt
Above-mono m n (t ∷ ts) h a = (omega arith, a.1)

none-Below :
    (slots n : ℕ) (all xs : List Task)
    → Below n xs
    → any (λ t. is_ranked t && t.queue_seq == n && leb (row_number all t.queue_seq) slots) xs
      ≡ false
none-Below slots n all [] h = refl
none-Below slots n all (x ∷ xs) h = ground (arith, none-Below slots n all xs h.1)

none-Above :
    (slots n : ℕ) (all xs : List Task)
    → Above n xs
    → any (λ t. is_ranked t && t.queue_seq == n && leb (row_number all t.queue_seq) slots) xs
      ≡ false
none-Above slots n all [] h = refl
none-Above slots n all (x ∷ xs) h =
    ground (arith, none-Above slots n all xs (Above-mono n x.queue_seq xs (omega arith) h.1))

count-Below :
    (n : ℕ) (xs : List Task)
    → Below n xs
    → count_where (λ t. is_ranked t && leb t.queue_seq n) xs ≡ count_where is_ranked xs
count-Below n [] h = refl
count-Below n (x ∷ xs) h = ground (arith, count-Below n xs h.1)

count-Above :
    (n : ℕ) (xs : List Task)
    → Above n xs
    → count_where (λ t. is_ranked t && leb t.queue_seq n) xs ≡ 0
count-Above n [] h = refl
count-Above n (x ∷ xs) h =
    ground (arith, count-Above n xs (Above-mono n x.queue_seq xs (omega arith) h.1))

-- A row's number is the number of ranked rows before it, and itself.
row_number_at :
    (pre ts : List Task) (t : Task)
    → Below t.queue_seq pre
    → Above t.queue_seq ts
    → is_ranked t ≡ true
    → row_number (pre ++ t ∷ ts) t.queue_seq ≡ count_where is_ranked pre + 1
row_number_at pre ts t b a h = ground (
  arith,
  count_where-append (λ u. is_ranked u && leb u.queue_seq t.queue_seq) pre (t ∷ ts),
  count-Below t.queue_seq pre b,
  count-Above t.queue_seq ts a,
)

pub is_protected_at :
    (slots : ℕ) (pre ts : List Task) (t : Task)
    → Below t.queue_seq pre
    → Above t.queue_seq ts
    → is_protected slots (pre ++ t ∷ ts) t.queue_seq
      ≡ (is_ranked t && leb (count_where is_ranked pre + 1) slots)
unfolding is_protected
is_protected_at slots pre ts t b a =
    let all : List Task = pre ++ t ∷ ts in
    ground (
      arith,
      any-append
          (λ u. is_ranked u && u.queue_seq == t.queue_seq && leb (row_number all u.queue_seq) slots)
          pre (t ∷ ts),
      none-Below slots t.queue_seq all pre b,
      none-Above slots t.queue_seq all ts a,
      row_number_at pre ts t b a,
    )
