-- ===== src/Base/Lists.antt =====
-- Tables as lists of rows: the SQL statements that the program issues, as functions on the rows.
use Prim.Native.Nat.{ℕ, zero, suc, ◌+◌, ◌<◌, ◌≤◌}
use mathlib.Core.Path.{◌≡◌, refl, ap}
use mathlib.Core.Bool.{Bool, true, false, ◌||◌, ◌&&◌}
use mathlib.Core.Option.{Option, none, some}
use mathlib.Core.List.{List, [], ◌∷◌, ◌++◌}
use native.Mathlib.Omega.{arith}
use minimax_proxy.Base.Tests.{if◌then◌else◌}

module _ {ℓ} {A : Type ℓ} where
  abbrev pub length : List A → ℕ
  length [] = 0
  length (x ∷ xs) = suc (length xs)

  -- LIMIT n.
  abbrev pub take : ℕ → List A → List A
  take zero xs = []
  take (suc n) [] = []
  take (suc n) (x ∷ xs) = x ∷ take n xs

  abbrev pub drop : ℕ → List A → List A
  drop zero xs = xs
  drop (suc n) [] = []
  drop (suc n) (x ∷ xs) = drop n xs

  -- SELECT COUNT(*) WHERE p.
  abbrev pub count_where : (A → Bool) → List A → ℕ
  count_where p [] = 0
  count_where p (x ∷ xs) = let rest = count_where p xs in if p x then suc rest else rest

  -- UPDATE SET f WHERE p.
  abbrev pub update_where : (A → Bool) → (A → A) → List A → List A
  update_where p f [] = []
  update_where p f (x ∷ xs) = (if p x then f x else x) ∷ update_where p f xs

  -- SELECT WHERE p, in table order.
  abbrev pub select_where : (A → Bool) → List A → List A
  select_where p [] = []
  select_where p (x ∷ xs) = let rest = select_where p xs in if p x then x ∷ rest else rest

  -- DELETE WHERE p.
  abbrev pub delete_where : (A → Bool) → List A → List A
  delete_where p [] = []
  delete_where p (x ∷ xs) = let rest = delete_where p xs in if p x then rest else x ∷ rest

  -- The first row of SELECT WHERE p.
  abbrev pub first_where : (A → Bool) → List A → Option A
  first_where p [] = none
  first_where p (x ∷ xs) = let rest = first_where p xs in if p x then some x else rest

  -- EXISTS(SELECT 1 WHERE p), and `slices.Contains` with the test written out.
  abbrev pub any : (A → Bool) → List A → Bool
  any p [] = false
  any p (x ∷ xs) = p x || any p xs

  -- SELECT … WHERE p ORDER BY … LIMIT 1, with the order as a Boolean test `before`.
  abbrev pub better : (A → A → Bool) → A → Option A → A
  better before x none = x
  better before x (some y) = if before y x then y else x

  abbrev pub least_where : (A → A → Bool) → (A → Bool) → List A → Option A
  least_where before p [] = none
  least_where before p (x ∷ xs) =
      let rest = least_where before p xs in if p x then some (better before x rest) else rest

  -- ORDER BY, with the order as a Boolean test.
  abbrev pub insert_by : (A → A → Bool) → A → List A → List A
  insert_by before x [] = x ∷ []
  insert_by before x (y ∷ ys) =
      let rest = insert_by before x ys in if before y x then y ∷ rest else x ∷ y ∷ ys

  abbrev pub order_by : (A → A → Bool) → List A → List A
  order_by before [] = []
  order_by before (x ∷ xs) = insert_by before x (order_by before xs)

  abbrev pub All {κ} : (A → Type κ) → List A → Type κ
  All P [] = Unit
  All P (x ∷ xs) = P x × All P xs

module _ {ℓ} {A : Type ℓ} where
  pub length-update_where :
      (p : A → Bool) (f : A → A) (xs : List A) → length (update_where p f xs) ≡ length xs
  length-update_where p f [] = refl
  length-update_where p f (x ∷ xs) = ap suc (length-update_where p f xs)

  pub count_where-append :
      (p : A → Bool) (xs ys : List A)
      → count_where p (xs ++ ys) ≡ count_where p xs + count_where p ys
  count_where-append p [] ys = omega arith
  count_where-append p (x ∷ xs) ys = ground (arith, count_where-append p xs ys)

  -- Where no row matches, an update changes nothing.
  pub update_where_none :
      (p : A → Bool) (f : A → A) (xs : List A) → count_where p xs ≡ 0 → update_where p f xs ≡ xs
  update_where_none p f [] h = refl
  update_where_none p f (x ∷ xs) h = ground (arith, update_where_none p f xs)

  pub any_iff_count : (p : A → Bool) (xs : List A) → any p xs ≡ true → 0 < count_where p xs
  any_iff_count p [] h = ground arith
  any_iff_count p (x ∷ xs) h = ground (arith, any_iff_count p xs)

  pub any-append : (p : A → Bool) (xs ys : List A) → any p (xs ++ ys) ≡ (any p xs || any p ys)
  any-append p [] ys = refl
  any-append p (x ∷ xs) ys = ground (arith, any-append p xs ys)

  pub All-append {κ} : (P : A → Type κ) (xs ys : List A) → All P xs → All P ys → All P (xs ++ ys)
  All-append P [] ys h k = k
  All-append P (x ∷ xs) ys (p, h) k = (p, All-append P xs ys h k)

  pub All-map {κ ι} :
      (P : A → Type κ) (Q : A → Type ι) (xs : List A) → ((a : A) → P a → Q a) → All P xs → All Q xs
  All-map P Q [] f h = tt
  All-map P Q (x ∷ xs) f (p, h) = (f x p, All-map P Q xs f h)

  -- An update of rows that do not count adds those that count afterwards.
  pub count_where-update :
      (counted p : A → Bool) (f : A → A) (xs : List A)
      → ((x : A) → p x ≡ true → counted x ≡ false)
      → ((x : A) → p x ≡ true → counted (f x) ≡ true)
      → count_where counted (update_where p f xs) ≡ count_where counted xs + count_where p xs
  count_where-update counted p f [] h k = refl
  count_where-update counted p f (x ∷ xs) h k =
      let rest = count_where-update counted p f xs h k in ground (arith, rest, h x, k x)

  -- An update that keeps what counts keeps the number.
  pub count_where-still :
      (counted p : A → Bool) (f : A → A) (xs : List A)
      → ((x : A) → p x ≡ true → counted (f x) ≡ counted x)
      → count_where counted (update_where p f xs) ≡ count_where counted xs
  count_where-still counted p f [] h = refl
  count_where-still counted p f (x ∷ xs) h =
      let rest = count_where-still counted p f xs h in ground (arith, rest, h x)

  -- An update adds at most the rows that it touches to those that count.
  pub count_where-update_le :
      (counted p : A → Bool) (f : A → A) (xs : List A)
      → count_where counted (update_where p f xs) ≤ count_where counted xs + count_where p xs
  count_where-update_le counted p f [] = omega arith
  count_where-update_le counted p f (x ∷ xs) = ground (arith, count_where-update_le counted p f xs)

  -- After an update that ends the match of every row that it touches, no row matches.
  pub count_where-none_left :
      (p : A → Bool) (f : A → A) (xs : List A)
      → ((x : A) → p (f x) ≡ false)
      → count_where p (update_where p f xs) ≡ 0
  count_where-none_left p f [] h = refl
  count_where-none_left p f (x ∷ xs) h =
      let rest = count_where-none_left p f xs h in ground (arith, rest, h x)

  -- Where no row matches, none matches with a further test.
  pub any-none :
      (p q : A → Bool) (xs : List A) → count_where p xs ≡ 0 → any (λ x. p x && q x) xs ≡ false
  any-none p q [] h = refl
  any-none p q (x ∷ xs) h = ground (arith, any-none p q xs)
