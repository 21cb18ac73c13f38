-- ===== src/Store/Remote/Phases.antt =====
-- The phases of a remote run, and rules for the operations that move it.
use minimax_proxy.Store.Tables.{
  RemoteRun, RemotePhase, preparing, prepared, submit_intent, submitted, terminal, Task,
}
use minimax_proxy.Store.Db.{Db, Error, M, immediate, one_row, update_tasks}
use minimax_proxy.Base.{
  ◌>>=◌, ◌>>◌, ok, err, Bool, Bool-cases, List, Option, Result, String, [], and_then, arith, fail,
  false, first_where, guard, inl, inr, none, refl, settle, some, true, update_where, ℕ, ◌==◌, ◌∙◌,
  ◌∷◌, ◌≡◌, ◌≤◌, string_eq, nat_eq, In, In-count, count_where, first_where-In, first_where_holds,
  subst, sym, unique_row, ◌++◌,
}
use minimax_proxy.Store.Cancel.{find_run, found_run, is_terminal}
use minimax_proxy.Store.Remote.{update_runs}

abbrev pub rank : RemotePhase → ℕ
rank preparing = 0
rank prepared = 1
rank submit_intent = 2
rank submitted = 3
rank terminal = 4

-- A run and what it has become: the phase never goes back, a submission that was intended keeps its
-- body, the number of submissions never falls, and a run that has ended stays as it is.
pub record Advanced (r s : RemoteRun) : Type 0 where
  pub same_task : s.task_id ≡ r.task_id
  pub same_node : s.node_id ≡ r.node_id
  pub same_key : s.submission_key ≡ r.submission_key
  pub forward : rank r.phase ≤ rank s.phase
  pub same_body : 2 ≤ rank r.phase → s.request_body_json ≡ r.request_body_json
  pub same_hash : 2 ≤ rank r.phase → s.request_body_hash ≡ r.request_body_hash
  pub counted : r.submit_attempts ≤ s.submit_attempts
  pub ended : is_terminal r.phase ≡ true → s ≡ r

Advanced-refl : (r : RemoteRun) → Advanced r r
Advanced-refl r = record {
  same_task = refl;
  same_node = refl;
  same_key = refl;
  forward = omega arith;
  same_body = λ h. refl;
  same_hash = λ h. refl;
  counted = omega arith;
  ended = λ h. refl;
}

Advanced-trans : (r s t : RemoteRun) → Advanced r s → Advanced s t → Advanced r t
Advanced-trans r s t a b =
    let f = a.forward in
    let g = b.forward in
    let c = a.counted in
    let d = b.counted in
    record {
      same_task = b.same_task ∙ a.same_task;
      same_node = b.same_node ∙ a.same_node;
      same_key = b.same_key ∙ a.same_key;
      forward = omega arith;
      same_body = λ h. b.same_body (omega arith) ∙ a.same_body h;
      same_hash = λ h. b.same_hash (omega arith) ∙ a.same_hash h;
      counted = omega arith;
      ended = λ h. let e = a.ended h in b.ended (rw e h) ∙ e;
    }

-- Row by row.
abbrev pub AllAdvanced : List RemoteRun → List RemoteRun → Type 0
AllAdvanced [] [] = Unit
AllAdvanced [] (s ∷ ss) = ⊥
AllAdvanced (r ∷ rs) [] = ⊥
AllAdvanced (r ∷ rs) (s ∷ ss) = Advanced r s × AllAdvanced rs ss

pub AllAdvanced-refl : (rs : List RemoteRun) → AllAdvanced rs rs
AllAdvanced-refl [] = tt
AllAdvanced-refl (r ∷ rs) = (Advanced-refl r, AllAdvanced-refl rs)

pub AllAdvanced-trans :
    (rs ss ts : List RemoteRun) → AllAdvanced rs ss → AllAdvanced ss ts → AllAdvanced rs ts
AllAdvanced-trans [] [] ts h k = k
AllAdvanced-trans [] (s ∷ ss) ts h k = absurd h
AllAdvanced-trans (r ∷ rs) [] ts h k = absurd h
AllAdvanced-trans (r ∷ rs) (s ∷ ss) [] h k = absurd k
AllAdvanced-trans (r ∷ rs) (s ∷ ss) (t ∷ ts) h k =
    (Advanced-trans r s t h.0 k.0, AllAdvanced-trans rs ss ts h.1 k.1)

AllAdvanced-update_In :
    (p : RemoteRun → Bool) (f : RemoteRun → RemoteRun) (rs : List RemoteRun)
    → ((r : RemoteRun) → In r rs → p r ≡ true → Advanced r (f r))
    → AllAdvanced rs (update_where p f rs)
AllAdvanced-update_In p f [] h = tt
AllAdvanced-update_In p f (r ∷ rs) h = (
  elim (Bool-cases (p r)) [ inl e ↦ rw e (h r (inl refl) e) | inr e ↦ rw e (Advanced-refl r) ],
  AllAdvanced-update_In p f rs (λ x m. h x (inr m)),
)

pub AllAdvanced-update :
    (p : RemoteRun → Bool) (f : RemoteRun → RemoteRun) (rs : List RemoteRun)
    → ((r : RemoteRun) → p r ≡ true → Advanced r (f r))
    → AllAdvanced rs (update_where p f rs)
AllAdvanced-update p f rs h = AllAdvanced-update_In p f rs (λ r m. h r)

-- task_id is the primary key of task_remote_runs.
abbrev pub UniqueRuns : List RemoteRun → Type 0
UniqueRuns rs = (task_id : String) → count_where (λ (r : RemoteRun). r.task_id == task_id) rs ≤ 1

AllAdvanced-count :
    (rs ss : List RemoteRun) (task_id : String)
    → AllAdvanced rs ss
    → count_where (λ (r : RemoteRun). r.task_id == task_id) ss
      ≡ count_where (λ (r : RemoteRun). r.task_id == task_id) rs
AllAdvanced-count [] [] task_id h = refl
AllAdvanced-count [] (s ∷ ss) task_id h = absurd h
AllAdvanced-count (r ∷ rs) [] task_id h = absurd h
AllAdvanced-count (r ∷ rs) (s ∷ ss) task_id h =
    rw (h.0.same_task, AllAdvanced-count rs ss task_id h.1)

pub AllAdvanced-UniqueRuns :
    (rs ss : List RemoteRun) → AllAdvanced rs ss → UniqueRuns rs → UniqueRuns ss
AllAdvanced-UniqueRuns rs ss h u task_id = rw (AllAdvanced-count rs ss task_id h) (u task_id)

-- With one run for a task, an update of the task's run changes the run that a query found.
pub AllAdvanced-found :
    (f : RemoteRun → RemoteRun) (rs : List RemoteRun) (task_id : String) (r : RemoteRun)
    → UniqueRuns rs
    → first_where (λ (x : RemoteRun). x.task_id == task_id) rs ≡ some r
    → Advanced r (f r)
    → AllAdvanced rs (update_where (λ (x : RemoteRun). x.task_id == task_id) f rs)
AllAdvanced-found f rs task_id r u k a =
    let p = λ (x : RemoteRun). x.task_id == task_id in
    let m = first_where-In p rs r k in
    let e = first_where_holds p rs r k in
    let least = In-count p rs r m e in
    let most = u task_id in
    AllAdvanced-update_In p f rs
      λ x n h. subst (λ y. Advanced y (f y)) (sym (unique_row p rs r x (omega arith) m e n h)) a

-- Row by row, with new rows at the end.
abbrev pub AllContinued : List RemoteRun → List RemoteRun → Type 0
AllContinued [] ss = Unit
AllContinued (r ∷ rs) [] = ⊥
AllContinued (r ∷ rs) (s ∷ ss) = Advanced r s × AllContinued rs ss

pub AllContinued-refl : (rs : List RemoteRun) → AllContinued rs rs
AllContinued-refl [] = tt
AllContinued-refl (r ∷ rs) = (Advanced-refl r, AllContinued-refl rs)

pub AllContinued-trans :
    (rs ss ts : List RemoteRun) → AllContinued rs ss → AllContinued ss ts → AllContinued rs ts
AllContinued-trans [] ss ts h k = tt
AllContinued-trans (r ∷ rs) [] ts h k = absurd h
AllContinued-trans (r ∷ rs) (s ∷ ss) [] h k = absurd k
AllContinued-trans (r ∷ rs) (s ∷ ss) (t ∷ ts) h k =
    (Advanced-trans r s t h.0 k.0, AllContinued-trans rs ss ts h.1 k.1)

pub AllAdvanced-AllContinued : (rs ss : List RemoteRun) → AllAdvanced rs ss → AllContinued rs ss
AllAdvanced-AllContinued [] ss h = tt
AllAdvanced-AllContinued (r ∷ rs) [] h = absurd h
AllAdvanced-AllContinued (r ∷ rs) (s ∷ ss) h = (h.0, AllAdvanced-AllContinued rs ss h.1)

pub AllContinued-append : (rs ss : List RemoteRun) → AllContinued rs (rs ++ ss)
AllContinued-append [] ss = tt
AllContinued-append (r ∷ rs) ss = (Advanced-refl r, AllContinued-append rs ss)

-- An operation that runs through only in this way, and one that leaves the runs alone.
pub record Moves {A : Type 0} (m : M A) : Type 0 where
  pub moves : (db : Db) → AllAdvanced db.remote_runs (m db).0.remote_runs

pub record Still {A : Type 0} (m : M A) : Type 0 where
  pub still : (db : Db) → (m db).0.remote_runs ≡ db.remote_runs

pub Moves-fail : {A : Type 0} (e : Error) → Moves (fail {A = A} e)
Moves-fail e = record { moves = λ db. AllAdvanced-refl db.remote_runs }

pub settle-AllAdvanced :
    {A : Type 0} (db : Db) (r : Db × Result Error A)
    → AllAdvanced db.remote_runs r.0.remote_runs
    → AllAdvanced db.remote_runs (settle db r).0.remote_runs
settle-AllAdvanced db (s, ok a) h = h
settle-AllAdvanced db (s, err x) h = AllAdvanced-refl db.remote_runs

pub Moves-immediate : {A : Type 0} {m : M A} → Moves m → Moves (immediate m)
Moves-immediate {m = m} k = record { moves = λ db. settle-AllAdvanced db (m db) (k.moves db) }

pub then-AllAdvanced :
    {A B : Type 0} (k : A → M B) (rs : List RemoteRun) (r : Db × Result Error A)
    → ((a : A) → Still (k a))
    → AllAdvanced rs r.0.remote_runs
    → AllAdvanced rs (and_then r k).0.remote_runs
then-AllAdvanced k rs (s, ok a) h e = rw ((h a).still s) e
then-AllAdvanced k rs (s, err x) h e = e

pub Moves-update :
    {B : Type 0} (p : RemoteRun → Bool) (f : RemoteRun → RemoteRun) {k : ℕ → M B}
    → ((r : RemoteRun) → p r ≡ true → Advanced r (f r))
    → ((n : ℕ) → Still (k n))
    → Moves (update_runs p f >>= k)
Moves-update p f {k = k} h still = record {
  moves = λ db.
      then-AllAdvanced k db.remote_runs (update_runs p f db) still
        (AllAdvanced-update p f db.remote_runs h);
}

guard_still :
    (b : Bool) (x : Error) (db : Db) → (guard {E = Error} b x db).0.remote_runs ≡ db.remote_runs
guard_still true x db = refl
guard_still false x db = refl

pub Still-one_row : (n : ℕ) → Still (one_row n)
Still-one_row n = record { still = guard_still (n == 1) Error.state_conflict }

pub Still-then : {B : Type 0} (n : ℕ) {k : M B} → Still k → Still (one_row n >> k)
Still-then n {k = k} h = record {
  still = λ db. elim (Bool-cases (n == 1)) [ inl e ↦ rw e (h.still db) | inr e ↦ rw e ];
}

pub Still-tasks :
    {B : Type 0} (p : Task → Bool) (f : Task → Task) {k : ℕ → M B}
    → ((n : ℕ) → Still (k n))
    → Still (update_tasks p f >>= k)
Still-tasks p f h = record {
  still =
      λ db. (h (count_where p db.tasks)).still (record db { tasks = update_where p f db.tasks });
}

pub Still-find_run : (task_id : String) → Still (find_run task_id)
Still-find_run task_id = record {
  still = λ db. go db (first_where (λ (r : RemoteRun). r.task_id == task_id) db.remote_runs);
}
  where
    go : (db : Db) (o : Option RemoteRun) → (found_run db o).0.remote_runs ≡ db.remote_runs
    go db none = refl
    go db (some r) = refl
