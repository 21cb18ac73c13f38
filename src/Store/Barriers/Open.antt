-- ===== src/Store/Barriers/Open.antt =====
-- dispatch_barrier.go: the open attempts of a task, and the last of them.
use minimax_proxy.Store.Tables.{StageAttempt, TaskStage}
use minimax_proxy.Store.Barriers.{OpenAttempt, is_open_attempt, later, open_attempts, with_stage}
use minimax_proxy.Base.{
  In, List, some, none, true, false, inl, inr, Bool-cases, Option, String, [], arith, eq_iff,
  first_where, least_where, refl, subst, ◌<◌, ◌≤◌, ◌==◌, ◌&&◌, ◌∷◌, ◌≡◌, ◌⊎◌, string_eq, nat_eq,
  better, some_inj, sym,
}

-- The attempt runs, or may run, for the task: its stage, looked up by the key, is the task's.
pub record RunsFor (task_id : String) (stages : List TaskStage) (attempts : List StageAttempt)
    (s : TaskStage) (a : StageAttempt) : Type 0 where
  pub listed : In a attempts
  pub stage : first_where (λ (x : TaskStage). x.id == a.stage_id) stages ≡ some s
  pub of_task : s.task_id ≡ task_id
  pub is_open : is_open_attempt a.status ≡ true

-- No later than the other: an earlier stage, or the same stage and no later attempt.
abbrev pub NoLater : OpenAttempt → OpenAttempt → Type 0
NoLater (s, a) (t, b) =
    (s.stage_order < t.stage_order)
    ⊎ ((s.stage_order ≡ t.stage_order) × (a.attempt_no ≤ b.attempt_no))

runs_on :
    (task_id : String) (stages : List TaskStage) (a b : StageAttempt) (rest : List StageAttempt)
    (s : TaskStage)
    → RunsFor task_id stages rest s b
    → RunsFor task_id stages (a ∷ rest) s b
runs_on task_id stages a b rest s r = record {
  listed = inr r.listed;
  stage = r.stage;
  of_task = r.of_task;
  is_open = r.is_open;
}

-- The join lists only attempts that run for the task,
pub open_attempts-RunsFor :
    (task_id : String) (stages : List TaskStage) (attempts : List StageAttempt) (s : TaskStage)
    (a : StageAttempt)
    → In (s, a) (open_attempts task_id stages attempts)
    → RunsFor task_id stages attempts s a
open_attempts-RunsFor task_id stages [] s a m = absurd m
open_attempts-RunsFor task_id stages (x ∷ xs) s a m =
    go (λ n. runs_on task_id stages x a xs s (open_attempts-RunsFor task_id stages xs s a n))
      (first_where (λ (y : TaskStage). y.id == x.stage_id) stages) refl m
  where
    head :
        (t : TaskStage)
        → first_where (λ (y : TaskStage). y.id == x.stage_id) stages ≡ some t
        → (t.task_id == task_id && is_open_attempt x.status) ≡ true
        → ◌≡◌ {A = OpenAttempt} (t, x) (s, a)
        → RunsFor task_id stages (x ∷ xs) s a
    head t k e q =
        subst (λ (o : OpenAttempt). RunsFor task_id stages (x ∷ xs) o.0 o.1) q
          (record {
            listed = inl refl;
            stage = k;
            of_task = ground (arith, e, eq_iff t.task_id task_id);
            is_open = ground (arith, e);
          })

    first :
        (In (s, a) (open_attempts task_id stages xs) → RunsFor task_id stages (x ∷ xs) s a)
        → (t : TaskStage) → first_where (λ (y : TaskStage). y.id == x.stage_id) stages ≡ some t
        → (t.task_id == task_id && is_open_attempt x.status) ≡ true
        → In (s, a) ((t, x) ∷ open_attempts task_id stages xs)
        → RunsFor task_id stages (x ∷ xs) s a
    first rest t k e (inl q) = head t k e q
    first rest t k e (inr n) = rest n

    go :
        (In (s, a) (open_attempts task_id stages xs) → RunsFor task_id stages (x ∷ xs) s a)
        → (o : Option TaskStage) → first_where (λ (y : TaskStage). y.id == x.stage_id) stages ≡ o
        → In (s, a) (with_stage task_id o x (open_attempts task_id stages xs))
        → RunsFor task_id stages (x ∷ xs) s a
    go rest none k m = rest m
    go rest (some t) k m = elim (Bool-cases (t.task_id == task_id && is_open_attempt x.status)) [
      | inr e ↦ rest (rw e at m)
      | inl e ↦ first rest t k e (rw e at m)
    ]

-- and all of them.
pub RunsFor-open_attempts :
    (task_id : String) (stages : List TaskStage) (attempts : List StageAttempt) (s : TaskStage)
    (a : StageAttempt)
    → RunsFor task_id stages attempts s a
    → In (s, a) (open_attempts task_id stages attempts)
RunsFor-open_attempts task_id stages attempts s a r = go attempts r.listed
  where
    skip :
        (x : StageAttempt) (rest : List OpenAttempt) (o : Option TaskStage)
        → In (s, a) rest
        → In (s, a) (with_stage task_id o x rest)
    skip x rest none m = m
    skip x rest (some t) m = elim (Bool-cases (t.task_id == task_id && is_open_attempt x.status)) [
      | inl e ↦ rw e (inr m)
      | inr e ↦ rw e m
    ]

    here :
        (rest : List OpenAttempt)
        → In
            (s, a)
            (with_stage task_id (first_where (λ (y : TaskStage). y.id == a.stage_id) stages) a rest)
    here rest =
        let fits : (s.task_id == task_id && is_open_attempt a.status) ≡ true =
          rw (r.of_task, r.is_open) (ground (arith, eq_iff task_id task_id)) in
        rw r.stage (rw fits (inl refl))

    go : (xs : List StageAttempt) → In a xs → In (s, a) (open_attempts task_id stages xs)
    go [] m = absurd m
    go (x ∷ xs) (inl e) =
        subst (λ (y : StageAttempt). In (s, a) (open_attempts task_id stages (y ∷ xs))) (sym e)
          (here (open_attempts task_id stages xs))
    go (x ∷ xs) (inr m) =
        skip x (open_attempts task_id stages xs)
          (first_where (λ (y : TaskStage). y.id == x.stage_id) stages) (go xs m)

NoLater-refl : (x : OpenAttempt) → NoLater x x
NoLater-refl (s, a) = inr (refl, omega arith)

NoLater-trans : (x y z : OpenAttempt) → NoLater x y → NoLater y z → NoLater x z
NoLater-trans (s, a) (t, b) (u, c) h k = ground arith

later-NoLater : (x y : OpenAttempt) → later x y ≡ true → NoLater y x
later-NoLater (s, a) (t, b) h = ground arith

not_later-NoLater : (x y : OpenAttempt) → later x y ≡ false → NoLater x y
not_later-NoLater (s, a) (t, b) h = ground arith

-- The row that the query returns comes first among those it lists.
best-NoLater :
    (x : OpenAttempt) (o : Option OpenAttempt) (e y : OpenAttempt)
    → better later x o ≡ e
    → (y ≡ x) ⊎ ((z : OpenAttempt) × (o ≡ some z) × NoLater y z)
    → NoLater y e
best-NoLater x none e y h (inl q) =
    subst (λ z. NoLater z e) (sym q) (subst (NoLater x) h (NoLater-refl x))
best-NoLater x none e y h (inr (z, k, n)) = absurd (cc)
best-NoLater x (some w) e y h q = elim (Bool-cases (later w x)) [
  | inl l ↦ let k : w ≡ e = rw l at h in subst (NoLater y) k (lost l q)
  | inr l ↦ let k : x ≡ e = rw l at h in subst (NoLater y) k (won l q)
]
  where
    lost :
        later w x ≡ true
        → (y ≡ x) ⊎ ((z : OpenAttempt) × (some w ≡ some z) × NoLater y z)
        → NoLater y w
    lost l (inl q) = subst (λ z. NoLater z w) (sym q) (later-NoLater w x l)
    lost l (inr (z, k, n)) = subst (NoLater y) (sym (some_inj k)) n

    won :
        later w x ≡ false
        → (y ≡ x) ⊎ ((z : OpenAttempt) × (some w ≡ some z) × NoLater y z)
        → NoLater y x
    won l (inl q) = subst (λ z. NoLater z x) (sym q) (NoLater-refl x)
    won l (inr (z, k, n)) =
        NoLater-trans y z x n (subst (λ v. NoLater v x) (some_inj k) (not_later-NoLater w x l))

-- A query that finds nothing had nothing to list.
pub least_where-none :
    (xs : List OpenAttempt)
    → least_where later (λ e. true) xs ≡ none
    → (y : OpenAttempt) → In y xs
    → ⊥
least_where-none [] h y m = m
least_where-none (x ∷ xs) h y m = absurd (cc)

pub least_where-NoLater :
    (xs : List OpenAttempt) (e : OpenAttempt)
    → least_where later (λ x. true) xs ≡ some e
    → (y : OpenAttempt) → In y xs
    → NoLater y e
least_where-NoLater [] e h y m = absurd m
least_where-NoLater (x ∷ xs) e h y (inl q) =
    best-NoLater x (least_where later (λ x. true) xs) e y (some_inj h) (inl (sym q))
least_where-NoLater (x ∷ xs) e h y (inr m) =
    best-NoLater x (least_where later (λ x. true) xs) e y (some_inj h) (
      inr (
        rest (least_where later (λ x. true) xs) refl (least_where-NoLater xs)
          (least_where-none xs)))
  where
    rest :
        (o : Option OpenAttempt)
        → least_where later (λ x. true) xs ≡ o
        → ((e : OpenAttempt)
            → least_where later (λ x. true) xs ≡ some e
            → (y : OpenAttempt) → In y xs
            → NoLater y e)
        → (least_where later (λ e. true) xs ≡ none → (y : OpenAttempt) → In y xs → ⊥)
        → (z : OpenAttempt) × (o ≡ some z) × NoLater y z
    rest none k found empty = absurd (empty k y m)
    rest (some z) k found empty = (z, refl, found z k y m)
