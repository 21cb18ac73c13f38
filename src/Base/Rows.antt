-- ===== src/Base/Rows.antt =====
-- Which row a query returns, and which rows an update changes.
use Prim.Native.Nat.{◌<◌}
use mathlib.Core.Path.{◌≡◌, refl, subst, sym, ap, ◌∙◌}
use mathlib.Core.Logic.{◌⊎◌, inl, inr}
use mathlib.Core.Bool.{Bool, true, false}
use mathlib.Core.Option.{Option, none, some}
use mathlib.Core.List.{List, [], ◌∷◌, ◌++◌}
use native.Mathlib.Omega.{arith}
use minimax_proxy.Base.Tests.{if◌then◌else◌, Bool-cases}
use minimax_proxy.Base.Lists.{
  count_where, update_where, first_where, least_where, better, All, delete_where, any,
}

module _ {A : Type 0} where
  -- `a` is a row of the table.
  abbrev pub In : A → List A → Type 0
  In a [] = ⊥
  In a (x ∷ xs) = (x ≡ a) ⊎ In a xs

  pub some_inj : {a b : A} → some a ≡ some b → a ≡ b
  some_inj h = cc

  pub first_where_holds :
      (p : A → Bool) (xs : List A) (a : A) → first_where p xs ≡ some a → p a ≡ true
  first_where_holds p [] a h = absurd (cc)
  first_where_holds p (x ∷ xs) a h = elim (Bool-cases (p x)) [
    | inl e ↦ subst (λ y. p y ≡ true) (some_inj (rw e at h)) e
    | inr e ↦ first_where_holds p xs a (rw e at h)
  ]

  pick :
      (before : A → A → Bool) (p : A → Bool) (x a : A) (rest : Option A)
      → p x ≡ true
      → ((y : A) → rest ≡ some y → p y ≡ true)
      → better before x rest ≡ a
      → p a ≡ true
  pick before p x a none e ih b = subst (λ z. p z ≡ true) b e
  pick before p x a (some y) e ih b = elim (Bool-cases (before y x)) [
    | inl t ↦ subst (λ z. p z ≡ true) (rw t at b) (ih y refl)
    | inr t ↦ subst (λ z. p z ≡ true) (rw t at b) e
  ]

  pub least_where_holds :
      (before : A → A → Bool) (p : A → Bool) (xs : List A) (a : A)
      → least_where before p xs ≡ some a
      → p a ≡ true
  least_where_holds before p [] a h = absurd (cc)
  least_where_holds before p (x ∷ xs) a h = elim (Bool-cases (p x)) [
    | inr e ↦ least_where_holds before p xs a (rw e at h)
    | inl e ↦
        pick before p x a (least_where before p xs) e (least_where_holds before p xs)
          (some_inj (rw e at h))
  ]

  pub first_where-In : (p : A → Bool) (xs : List A) (a : A) → first_where p xs ≡ some a → In a xs
  first_where-In p [] a h = absurd (cc)
  first_where-In p (x ∷ xs) a h = elim (Bool-cases (p x)) [
    | inl e ↦ inl (some_inj (rw e at h))
    | inr e ↦ inr (first_where-In p xs a (rw e at h))
  ]

  pick-In :
      (before : A → A → Bool) (xs : List A) (x a : A) (rest : Option A)
      → ((y : A) → rest ≡ some y → In y xs)
      → better before x rest ≡ a
      → In a (x ∷ xs)
  pick-In before xs x a none ih b = inl b
  pick-In before xs x a (some y) ih b = elim (Bool-cases (before y x)) [
    | inl t ↦ inr (subst (λ z. In z xs) (rw t at b) (ih y refl))
    | inr t ↦ inl (rw t at b)
  ]

  pub least_where-In :
      (before : A → A → Bool) (p : A → Bool) (xs : List A) (a : A)
      → least_where before p xs ≡ some a
      → In a xs
  least_where-In before p [] a h = absurd (cc)
  least_where-In before p (x ∷ xs) a h = elim (Bool-cases (p x)) [
    | inr e ↦ inr (least_where-In before p xs a (rw e at h))
    | inl e ↦
        pick-In before xs x a (least_where before p xs) (least_where-In before p xs)
          (some_inj (rw e at h))
  ]

  pub In-count : (p : A → Bool) (xs : List A) (a : A) → In a xs → p a ≡ true → 0 < count_where p xs
  In-count p [] a m h = absurd m
  In-count p (x ∷ xs) a (inl e) h = let k = subst (λ z. p z ≡ true) (sym e) h in ground (arith, k)
  In-count p (x ∷ xs) a (inr m) h = ground (arith, In-count p xs a m h)

  pub All-count_zero :
      (p : A → Bool) (xs : List A) → count_where p xs ≡ 0 → All (λ e. p e ≡ false) xs
  All-count_zero p [] h = tt
  All-count_zero p (x ∷ xs) h = elim (Bool-cases (p x)) [
    | inl e ↦ absurd (ground (arith, e))
    | inr e ↦ (e, All-count_zero p xs (rw e at h))
  ]

  pub All-In {κ} : (P : A → Type κ) (xs : List A) (a : A) → All P xs → In a xs → P a
  All-In P [] a h m = absurd m
  All-In P (x ∷ xs) a h (inl e) = subst P e h.0
  All-In P (x ∷ xs) a h (inr m) = All-In P xs a h.1 m

  -- Where one row matches, it is the one that is known to be there.
  pub unique_row :
      (p : A → Bool) (xs : List A) (a b : A)
      → count_where p xs ≡ 1
      → In a xs
      → p a ≡ true
      → In b xs
      → p b ≡ true
      → b ≡ a
  unique_row p [] a b c m h n k = absurd m
  unique_row p (x ∷ xs) a b c (inl e) h (inl f) k = sym f ∙ e
  unique_row p (x ∷ xs) a b c (inl e) h (inr n) k =
      let px = subst (λ z. p z ≡ true) (sym e) h in
      let more = In-count p xs b n k in absurd (ground (arith, px, more))
  unique_row p (x ∷ xs) a b c (inr m) h (inl f) k =
      let px = subst (λ z. p z ≡ true) (sym f) k in
      let more = In-count p xs a m h in absurd (ground (arith, px, more))
  unique_row p (x ∷ xs) a b c (inr m) h (inr n) k = elim (Bool-cases (p x)) [
    | inl e ↦ let more = In-count p xs a m h in absurd (ground (arith, e, more))
    | inr e ↦ unique_row p xs a b (rw e at c) m h n k
  ]

  -- A row of an updated table comes from a row of the table.
  pub In-update :
      (p : A → Bool) (f : A → A) (xs : List A) (b : A)
      → In b (update_where p f xs)
      → (a : A) × In a xs × ((if p a then f a else a) ≡ b)
  In-update p f [] b m = absurd m
  In-update p f (x ∷ xs) b (inl e) = (x, inl refl, e)
  In-update p f (x ∷ xs) b (inr m) = let (a, n, e) = In-update p f xs b m in (a, inr n, e)

  -- An update that keeps a property of the rows keeps it of the table.
  pub All-update {κ} :
      (P : A → Type κ) (p : A → Bool) (f : A → A) (xs : List A)
      → ((x : A) → In x xs → p x ≡ true → P x → P (f x))
      → All P xs
      → All P (update_where p f xs)
  All-update P p f [] h a = tt
  All-update P p f (x ∷ xs) h (b, a) = (
    elim (Bool-cases (p x)) [ inl e ↦ rw e (h x (inl refl) e b) | inr e ↦ rw e b ],
    All-update P p f xs (λ y m. h y (inr m)) a,
  )

  -- What an update gives, row by row.
  pub All-updated {κ} :
      (P : A → Type κ) (p : A → Bool) (f : A → A) (xs : List A)
      → ((x : A) → p x ≡ true → P (f x))
      → ((x : A) → p x ≡ false → P x)
      → All P (update_where p f xs)
  All-updated P p f [] h k = tt
  All-updated P p f (x ∷ xs) h k = (
    elim (Bool-cases (p x)) [ inl e ↦ rw e (h x e) | inr e ↦ rw e (k x e) ],
    All-updated P p f xs h k,
  )

  -- A row that is there is found by its own key.
  pub first_where_only :
      (p q : A → Bool) (xs : List A) (a : A)
      → ((x : A) → p x ≡ true → q x ≡ true)
      → count_where q xs ≡ 1
      → In a xs
      → p a ≡ true
      → first_where p xs ≡ some a
  first_where_only p q [] a sub c m h = absurd m
  first_where_only p q (x ∷ xs) a sub c m h = elim (Bool-cases (p x)) [
    | inl e ↦
        let same = unique_row q (x ∷ xs) a x c m (sub a h) (inl refl) (sub x e) in
        rw e (ap some same)
    | inr e ↦ rw e (later (λ one n. first_where_only p q xs a sub one n h) (Bool-cases (q x)) m e)
  ]
    where
      later :
          (count_where q xs ≡ 1 → In a xs → first_where p xs ≡ some a)
          → (q x ≡ true) ⊎ (q x ≡ false)
          → In a (x ∷ xs)
          → p x ≡ false
          → first_where p xs ≡ some a
      later rest k (inl same) e = absurd (let f = ap p same in cc)
      later rest (inl k) (inr n) e =
          let more = In-count q xs a n (sub a h) in absurd (ground (arith, k, more))
      later rest (inr k) (inr n) e = rest (rw k at c) n

  -- A deleted row is not found again.
  pub first_where-deleted :
      (p q : A → Bool) (xs ys : List A)
      → ((x : A) → q x ≡ true → p x ≡ true)
      → first_where q (delete_where p xs ++ ys) ≡ first_where q ys
  first_where-deleted p q [] ys sub = refl
  first_where-deleted p q (x ∷ xs) ys sub =
      let rest = first_where-deleted p q xs ys sub in
      elim (Bool-cases (p x)) [
        | inl e ↦ rw e rest
        | inr e ↦
            let no : q x ≡ false = elim (Bool-cases (q x)) [
              | inl k ↦ absurd (let f = sub x k in cc)
              | inr k ↦ k
            ] in
            rw (e, no) rest
      ]

  pub In-any : (p : A → Bool) (xs : List A) (a : A) → In a xs → p a ≡ true → any p xs ≡ true
  In-any p [] a m h = absurd m
  In-any p (x ∷ xs) a (inl e) h = let k = ap p e in ground (arith, k)
  In-any p (x ∷ xs) a (inr m) h = ground (arith, In-any p xs a m h)

  pub none-count : (p : A → Bool) (xs : List A) → any p xs ≡ false → count_where p xs ≡ 0
  none-count p [] h = refl
  none-count p (x ∷ xs) h = ground (arith, none-count p xs)
