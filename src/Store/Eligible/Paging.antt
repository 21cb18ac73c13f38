-- ===== src/Store/Eligible/Paging.antt =====
-- The pages of `nextEligibleTask`, and a scan of the whole queue.
use mathlib.Core.List.{append-nil}
use minimax_proxy.Store.Tables.{Task}
use minimax_proxy.Store.Db.{Db, queue_empty}
use minimax_proxy.Store.Queue.{is_ranked}
use minimax_proxy.Store.Queue.Ranks.{Above, Above-mono}
use minimax_proxy.Store.Eligible.{
  Query, scan_page, takes, behind, last_seq, ◌>>=?◌, next_eligible_task, next_from, next_round,
}
use minimax_proxy.Base.{
  All, Bool, Bool-cases, List, Option, String, [], ap, arith, drop, err, false, if◌then◌else◌, inl,
  inr, length, ltb, none, ok, refl, some, suc, take, true, zero, ℕ, ◌&&◌, ◌++◌, ◌+◌, ◌<◌, ◌∷◌, ◌≡◌,
  ◌≤◌, ltb→lt, select_where, subst, sym, ◌∙◌,
}

-- The whole queue in one scan.
abbrev pub conclude : Query (Option Task) → Query Task
conclude (err e) = err e
conclude (ok none) = err queue_empty
conclude (ok (some t)) = ok t

abbrev pub or_else : Query (Option Task) → Query (Option Task) → Query (Option Task)
or_else (err e) rest = err e
or_else (ok none) rest = rest
or_else (ok (some t)) rest = ok (some t)

or_else_step :
    (q : Query Bool) (t : Task) (a b c : Query (Option Task))
    → a ≡ or_else b c
    → (q >>=? λ taken. if taken then ok (some t) else a)
      ≡ or_else (q >>=? λ taken. if taken then ok (some t) else b) c
or_else_step (err e) t a b c h = refl
or_else_step (ok true) t a b c h = refl
or_else_step (ok false) t a b c h = h

scan_page-append :
    (db : Db) (node_id : String) (now : ℕ) (xs ys : List Task)
    → scan_page db node_id now (xs ++ ys)
      ≡ or_else (scan_page db node_id now xs) (scan_page db node_id now ys)
unfolding scan_page
scan_page-append db node_id now [] ys = refl
scan_page-append db node_id now (x ∷ xs) ys =
    or_else_step (takes db node_id now x) x _ _ _ (scan_page-append db node_id now xs ys)

behind_above : (a m : ℕ) (ts : List Task) → a ≤ m → behind m (behind a ts) ≡ behind m ts
behind_above a m [] h = refl
behind_above a m (t ∷ ts) h = ground (arith, behind_above a m ts h)

behind-Above : (a n : ℕ) (ts : List Task) → Above n ts → Above n (behind a ts)
behind-Above a n [] h = tt
behind-Above a n (t ∷ ts) h = elim (Bool-cases (is_ranked t && ltb a t.queue_seq)) [
  | inl e ↦ rw e (h.0, behind-Above a t.queue_seq ts h.1)
  | inr e ↦
      rw e
        (Above-mono n t.queue_seq (behind a ts) (omega arith) (behind-Above a t.queue_seq ts h.1))
]

-- Every row is ranked.
abbrev AllRanked : List Task → Type 0
AllRanked ts = All (λ t. is_ranked t ≡ true) ts

behind-AllRanked : (a : ℕ) (ts : List Task) → AllRanked (behind a ts)
behind-AllRanked a [] = tt
behind-AllRanked a (t ∷ ts) = ground (arith, behind-AllRanked a ts)

behind_self : (a : ℕ) (ts : List Task) → Above a ts → AllRanked ts → behind a ts ≡ ts
behind_self a [] h r = refl
behind_self a (t ∷ ts) h r =
    ground (arith, behind_self a ts (Above-mono a t.queue_seq ts (omega arith) h.1) r.1)

last_seq-le : (a n : ℕ) (ts : List Task) → Above a ts → a ≤ last_seq a (take n ts)
last_seq-le a zero ts h = omega arith
last_seq-le a (suc n) [] h = omega arith
last_seq-le a (suc n) (t ∷ ts) h = omega (arith, last_seq-le t.queue_seq n ts h.1, h.0)

-- What stands behind the last row of the first page is the rest.
behind_page :
    (a n : ℕ) (ts : List Task)
    → Above a ts
    → AllRanked ts
    → behind (last_seq a (take n ts)) ts ≡ drop n ts
behind_page a zero ts h r = behind_self a ts h r
behind_page a (suc n) [] h r = refl
behind_page a (suc n) (t ∷ ts) h r =
    ground (arith, behind_page t.queue_seq n ts h.1 r.1, last_seq-le t.queue_seq n ts h.1)

take-drop : (n : ℕ) (ts : List Task) → take n ts ++ drop n ts ≡ ts
take-drop zero ts = refl
take-drop (suc n) [] = refl
take-drop (suc n) (t ∷ ts) = ap (◌∷◌ t) (take-drop n ts)

short_page : (n : ℕ) (ts : List Task) → length (take n ts) < n → drop n ts ≡ []
short_page zero ts h = elim h [ ]
short_page (suc n) [] h = refl
short_page (suc n) (t ∷ ts) h = short_page n ts (omega arith)

length-drop : (n : ℕ) (ts : List Task) → n ≤ length (take n ts) → length (drop n ts) + n ≡ length ts
length-drop zero ts h = omega arith
length-drop (suc n) [] h = elim h [ ]
length-drop (suc n) (t ∷ ts) h = omega (arith, length-drop n ts (omega arith))

length-behind : (a : ℕ) (ts : List Task) → length (behind a ts) ≤ length ts
length-behind a [] = omega arith
length-behind a (t ∷ ts) = ground (arith, length-behind a ts)

behind_start : (a n : ℕ) (ts : List Task) → Above n ts → Above a (behind a ts)
behind_start a n [] h = tt
behind_start a n (t ∷ ts) h = elim (Bool-cases (is_ranked t && ltb a t.queue_seq)) [
  | inl e ↦ rw e (ground arith, behind-Above a t.queue_seq ts h.1)
  | inr e ↦ rw e (behind_start a t.queue_seq ts h.1)
]

last_round :
    (q : Query (Option Task)) (rest : Option (Query Task))
    → next_round q true rest ≡ some (conclude q)
unfolding next_round
last_round (err e) rest = refl
last_round (ok none) rest = refl
last_round (ok (some t)) rest = refl

full_round :
    (q r : Query (Option Task)) (rest : Option (Query Task))
    → rest ≡ some (conclude r)
    → next_round q false rest ≡ some (conclude (or_else q r))
unfolding next_round
full_round (err e) r rest h = refl
full_round (ok none) r rest h = h
full_round (ok (some t)) r rest h = refl

rounds :
    (limit fuel : ℕ) (db : Db) (node_id : String) (now after : ℕ)
    → 0 < limit
    → Above 0 db.tasks
    → length (behind after db.tasks) < fuel
    → next_from limit fuel db node_id now after
      ≡ some (conclude (scan_page db node_id now (behind after db.tasks)))
unfolding next_from
rounds limit zero db node_id now after l a f = elim f [ ]
rounds limit (suc fuel) db node_id now after l a f = elim (Bool-cases (ltb (length page) limit)) [
  | inl e ↦ rw e (
      subst
        (λ ts.
          next_round (scan_page db node_id now page) true rest
          ≡ some (conclude (scan_page db node_id now ts)))
        (whole (ltb→lt _ _ e)) (last_round (scan_page db node_id now page) rest))
  | inr e ↦ rw e (
      subst
        (λ ts.
          next_round (scan_page db node_id now page) false rest
          ≡ some (conclude (scan_page db node_id now ts)))
        (take-drop limit (behind after db.tasks))
        (rw (scan_page-append db node_id now page (drop limit (behind after db.tasks))) (
          full_round (scan_page db node_id now page)
            (scan_page db node_id now (drop limit (behind after db.tasks))) rest
            (subst (λ ts. rest ≡ some (conclude (scan_page db node_id now ts))) moved
              (rounds limit fuel db node_id now (last_seq after page) l a
                (shorter (ground (arith, e))))))))
]
  where
    page : List Task
    page = take limit (behind after db.tasks)

    rest : Option (Query Task)
    rest = next_from limit fuel db node_id now (last_seq after page)

    sorted : Above after (behind after db.tasks)
    sorted = behind_start after 0 db.tasks a

    whole : length page < limit → page ≡ behind after db.tasks
    whole h =
        sym (append-nil page)
        ∙ (ap (◌++◌ page) (sym (short_page limit (behind after db.tasks) h))
            ∙ take-drop limit (behind after db.tasks))

    moved : behind (last_seq after page) db.tasks ≡ drop limit (behind after db.tasks)
    moved =
        sym (
          behind_above after (last_seq after page) db.tasks
            (last_seq-le after limit (behind after db.tasks) sorted))
        ∙ behind_page after limit (behind after db.tasks) sorted (behind-AllRanked after db.tasks)

    shorter : limit ≤ length page → length (behind (last_seq after page) db.tasks) < fuel
    shorter h = rw moved (omega (arith, length-drop limit (behind after db.tasks) h))

behind_zero : (n : ℕ) (ts : List Task) → Above n ts → behind 0 ts ≡ select_where is_ranked ts
behind_zero n [] h = refl
behind_zero n (t ∷ ts) h = ground (arith, behind_zero t.queue_seq ts h.1)

-- In a table in the order of its key the pages of a hundred rows are one scan of the queue: the
-- oldest ready task that the node may take is found, and an empty queue only where there is none.
pub next_eligible_task-scan :
    (db : Db) (node_id : String) (now : ℕ)
    → Above 0 db.tasks
    → next_eligible_task db node_id now
      ≡ conclude (scan_page db node_id now (select_where is_ranked db.tasks))
unfolding next_eligible_task
next_eligible_task-scan db node_id now a =
    rw
      (rounds 100 (suc (length db.tasks)) db node_id now 0 (omega arith) a
        (omega (arith, length-behind 0 db.tasks)))
      (rw (behind_zero 0 db.tasks a))
