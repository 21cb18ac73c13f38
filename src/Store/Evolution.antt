-- ===== src/Store/Evolution.antt =====
-- How the task table may change in one operation: the state machine of a task. An operation is shown
-- to obey it by the rules at the end, one for each way in which operations are put together.
pub mod Tasks
pub mod Claims
pub mod Cancels
pub mod History
use minimax_proxy.Domain.Status.{
  InternalStatus, queued_open, queued_locked, dispatching, reconciling, cancelling, is_queued,
}
use minimax_proxy.Store.Tables.{Task, CallbackDelivery}
use minimax_proxy.Store.Db.{
  Db, M, Error, immediate, update_tasks, one_row, Env, state_conflict, no_rows,
}
use minimax_proxy.Store.Queue.{is_waiting, is_protected, rebalance_row, rebalance_tasks, rebalance}
use minimax_proxy.Base.{
  Bool, Bool-cases, List, Result, [], arith, err, false, if◌then◌else◌, inl, inr, ok, refl, settle,
  true, update_where, ℕ, ◌<◌, ◌∷◌, ◌≡◌, ◌⊎◌, Option, String, and_then, any, guard, is_some, none,
  not, some, ◌==◌, ◌>>=◌, ◌>>◌, string_eq, nat_eq,
}
use minimax_proxy.Store.Callbacks.{
  breaks_constraint, create_callback_delivery_with_conn, deliver_event, find_task, insert_callback,
  same_event,
}

-- The transitions of the task states, those that keep the state included. None leaves a final one.
abbrev pub can_follow : InternalStatus → InternalStatus → Bool
can_follow queued_open queued_open = true
can_follow queued_open queued_locked = true
can_follow queued_open dispatching = true
can_follow queued_open InternalStatus.cancelled = true
can_follow queued_locked queued_open = true
can_follow queued_locked queued_locked = true
can_follow queued_locked dispatching = true
can_follow queued_locked InternalStatus.cancelled = true
can_follow dispatching _ = true
can_follow InternalStatus.running queued_open = false
can_follow InternalStatus.running queued_locked = false
can_follow InternalStatus.running _ = true
can_follow reconciling queued_open = false
can_follow reconciling queued_locked = false
can_follow reconciling _ = true
can_follow cancelling cancelling = true
can_follow cancelling InternalStatus.cancelled = true
can_follow _ _ = false

-- A row that an operation wrote: what never changes, the transition, and the version, which grows.
pub record Changed (t u : Task) : Type 0 where
  pub same_spec : u.spec ≡ t.spec
  pub same_route : u.route ≡ t.route
  pub same_deletion : u.deleted_at ≡ t.deleted_at
  pub transition : can_follow t.status u.status ≡ true
  pub newer : t.version < u.version

abbrev pub Follows : Task → Task → Type 0
Follows t u = (u ≡ t) ⊎ Changed t u

-- Every row of the second table follows the row of the first one in its place.
abbrev pub Evolves : List Task → List Task → Type 0
Evolves [] [] = Unit
Evolves [] (u ∷ us) = ⊥
Evolves (t ∷ ts) [] = ⊥
Evolves (t ∷ ts) (u ∷ us) = Follows t u × Evolves ts us

pub Evolves-refl : (ts : List Task) → Evolves ts ts
Evolves-refl [] = tt
Evolves-refl (t ∷ ts) = (inl refl, Evolves-refl ts)

pub Evolves-update :
    (p : Task → Bool) (f : Task → Task) (ts : List Task)
    → ((t : Task) → p t ≡ true → Changed t (f t))
    → Evolves ts (update_where p f ts)
Evolves-update p f [] h = tt
Evolves-update p f (t ∷ ts) h = (
  elim (Bool-cases (p t)) [ inl e ↦ rw e (inr (h t e)) | inr e ↦ rw e (inl refl) ],
  Evolves-update p f ts h,
)

requeued_status :
    (s u : InternalStatus) (first : Bool)
    → can_follow s u ≡ true
    → is_queued u ≡ true
    → can_follow s (if first then queued_locked else queued_open) ≡ true
requeued_status s u first h q = ground arith

Follows-rebalance_row :
    (slots now : ℕ) (all : List Task) (t u : Task)
    → Follows t u
    → is_waiting u ≡ true
    → Changed t (rebalance_row slots now all u)
unfolding rebalance_row
Follows-rebalance_row slots now all t u (inl e) w = record {
  same_spec = ground arith;
  same_route = ground arith;
  same_deletion = ground arith;
  transition = requeued_status t.status u.status _ (ground arith) (ground arith);
  newer = ground arith;
}
Follows-rebalance_row slots now all t u (inr c) w = record {
  same_spec = c.same_spec;
  same_route = c.same_route;
  same_deletion = c.same_deletion;
  transition = requeued_status t.status u.status _ c.transition (ground arith);
  newer = let n = c.newer in omega arith;
}

Evolves-rebalance :
    (slots now : ℕ) (all ts us : List Task)
    → Evolves ts us
    → Evolves ts (update_where is_waiting (rebalance_row slots now all) us)
Evolves-rebalance slots now all [] [] h = tt
Evolves-rebalance slots now all [] (u ∷ us) h = h
Evolves-rebalance slots now all (t ∷ ts) [] h = h
Evolves-rebalance slots now all (t ∷ ts) (u ∷ us) (f, h) = (
  elim (Bool-cases (is_waiting u)) [
    | inl e ↦ rw e (inr (Follows-rebalance_row slots now all t u f e))
    | inr e ↦ rw e f
  ],
  Evolves-rebalance slots now all ts us h,
)

-- An operation under which a table that has evolved goes on to evolve.
pub record Extends {A : Type 0} (m : M A) : Type 0 where
  pub extends : (ts : List Task) (db : Db) → Evolves ts db.tasks → Evolves ts (m db).0.tasks

-- An operation under which the task table evolves.
pub record Keeps {A : Type 0} (m : M A) : Type 0 where
  pub keeps : (db : Db) → Evolves db.tasks (m db).0.tasks

pub Keeps-immediate : {A : Type 0} {m : M A} → Keeps m → Keeps (immediate m)
Keeps-immediate {m = m} k = record { keeps = λ db. go db (m db) (k.keeps db) }
  where
    go :
        {A : Type 0} (db : Db) (r : Db × Result Error A)
        → Evolves db.tasks r.0.tasks
        → Evolves db.tasks (settle db r).0.tasks
    go db (db', ok a) e = e
    go db (db', err x) e = Evolves-refl db.tasks

pub Extends-still : {A : Type 0} {m : M A} → ((db : Db) → (m db).0.tasks ≡ db.tasks) → Extends m
Extends-still still = record { extends = λ ts db e. rw (still db) e }

pub Keeps-update :
    (p : Task → Bool) (f : Task → Task)
    → ((t : Task) → p t ≡ true → Changed t (f t))
    → Keeps (update_tasks p f)
Keeps-update p f h = record { keeps = λ db. Evolves-update p f db.tasks h }

and_then-Evolves :
    {A B : Type 0} (k : A → M B) (ts : List Task) (r : Db × Result Error A)
    → ((a : A) → Extends (k a))
    → Evolves ts r.0.tasks
    → Evolves ts (and_then r k).0.tasks
and_then-Evolves k ts (db, ok a) h e = (h a).extends ts db e
and_then-Evolves k ts (db, err x) h e = e

pub Keeps-bind :
    {A B : Type 0} {m : M A} {k : A → M B} → Keeps m → ((a : A) → Extends (k a)) → Keeps (m >>= k)
Keeps-bind {m = m} {k = k} h g = record {
  keeps = λ db. and_then-Evolves k db.tasks (m db) g (h.keeps db);
}

pub Extends-bind :
    {A B : Type 0} {m : M A} {k : A → M B}
    → Extends m
    → ((a : A) → Extends (k a))
    → Extends (m >>= k)
Extends-bind {m = m} {k = k} h g = record {
  extends = λ ts db e. and_then-Evolves k ts (m db) g (h.extends ts db e);
}

pub Extends-then :
    {B : Type 0} {m : M (Unit {0})} {k : M B} → Extends m → Extends k → Extends (m >> k)
Extends-then {m = m} {k = k} h g = record {
  extends = λ ts db e. and_then-Evolves (λ _. k) ts (m db) (λ _. g) (h.extends ts db e);
}

guard_still : (b : Bool) (x : Error) (db : Db) → (guard {E = Error} b x db).0.tasks ≡ db.tasks
guard_still true x db = refl
guard_still false x db = refl

pub Extends-one_row : (n : ℕ) → Extends (one_row n)
Extends-one_row n = Extends-still (guard_still (n == 1) Error.state_conflict)

insert_still : (d : CallbackDelivery) (db : Db) → (insert_callback d db).0.tasks ≡ db.tasks
unfolding insert_callback
insert_still d db = elim (Bool-cases (breaks_constraint d db)) [ inl e ↦ rw e | inr e ↦ rw e ]

deliver_still :
    (env : Env) (id status : String) (now : ℕ) (t : Task) (db : Db)
    → (deliver_event env id status now t db).0.tasks ≡ db.tasks
unfolding deliver_event
deliver_still env id status now t db = elim (Bool-cases (not (is_some t.callback_url_ciphertext))) [
  | inl e ↦ rw e
  | inr e ↦ rw e (elim (Bool-cases (any (same_event id t.version) db.callbacks)) [
    | inl k ↦ rw k
    | inr k ↦ rw k (insert_still _ db)
  ])
]

callback_still :
    (env : Env) (id status : String) (now : ℕ) (db : Db)
    → (create_callback_delivery_with_conn env id status now db).0.tasks ≡ db.tasks
unfolding create_callback_delivery_with_conn
callback_still env id status now db = go (find_task id db.tasks)
  where
    go :
        (o : Option Task)
        → (elim o as (λ _. Db × Result Error (Unit {0})) [
          | none ↦ (db, err Error.no_rows)
          | some t ↦ deliver_event env id status now t db
        ]).0.tasks
          ≡ db.tasks
    go none = refl
    go (some t) = deliver_still env id status now t db

pub Extends-callback :
    (env : Env) (id status : String) (now : ℕ)
    → Extends (create_callback_delivery_with_conn env id status now)
Extends-callback env id status now = Extends-still (callback_still env id status now)

pub Extends-rebalance : (env : Env) → Extends (rebalance env)
unfolding rebalance rebalance_tasks
Extends-rebalance env = record { extends = λ ts db e. Evolves-rebalance _ _ db.tasks ts db.tasks e }

-- An UPDATE, a check that it touched one row, and what follows it.
pub Keeps-statement :
    {B : Type 0} (p : Task → Bool) (f : Task → Task) {k : M B}
    → ((t : Task) → p t ≡ true → Changed t (f t))
    → Extends k
    → Keeps (update_tasks p f >>= λ n. one_row n >> k)
Keeps-statement p f h e = Keeps-bind (Keeps-update p f h) (λ n. Extends-then (Extends-one_row n) e)

pub Keeps-one :
    (p : Task → Bool) (f : Task → Task)
    → ((t : Task) → p t ≡ true → Changed t (f t))
    → Keeps (update_tasks p f >>= one_row)
Keeps-one p f h = Keeps-bind (Keeps-update p f h) Extends-one_row
