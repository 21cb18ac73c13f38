-- ===== src/Base/Ops.antt =====
-- A store operation: the database it leaves, and its result or its error.
use mathlib.Core.Path.{◌≡◌, refl, ap, sym}
use mathlib.Core.Bool.{Bool, true, false}

pub data Result {ℓ κ} (E : Type κ) (A : Type ℓ) : Type (ℓ ⊔ κ) where
  ok : A → Result E A
  err : E → Result E A

-- `S` is the state that the operation works on.
abbrev pub Op : Type 0 → Type 0 → Type 0 → Type 0
Op S E A = S → S × Result E A

module _ {S E : Type 0} where
  infixl 5 ◌>>=◌ ◌>>◌
  abbrev pub and_then : {A B : Type 0} → S × Result E A → (A → Op S E B) → S × Result E B
  and_then (s, ok a) f = f a s
  and_then (s, err e) f = (s, err e)

  abbrev pub ◌>>=◌ : {A B : Type 0} → Op S E A → (A → Op S E B) → Op S E B
  ◌>>=◌ m f s = and_then (m s) f

  abbrev pub ◌>>◌ : {B : Type 0} → Op S E (Unit {0}) → Op S E B → Op S E B
  ◌>>◌ m k s = and_then (m s) (λ _. k)

  abbrev pub return : {A : Type 0} → A → Op S E A
  return a s = (s, ok a)

  abbrev pub fail : {A : Type 0} → E → Op S E A
  fail e s = (s, err e)

  abbrev pub get : Op S E S
  get s = (s, ok s)

  abbrev pub guard : Bool → E → Op S E (Unit {0})
  guard true e s = (s, ok tt)
  guard false e s = (s, err e)

  abbrev pub settle : {A : Type 0} → S → S × Result E A → S × Result E A
  settle s (t, ok a) = (t, ok a)
  settle s (t, err e) = (s, err e)

  pub ok_inj :
      {A : Type 0} {s t : S} {a b : A}
      → Path (S × Result E A) (s, ok a) (t, ok b)
      → (s ≡ t) × (a ≡ b)
  ok_inj h = (ap (λ r. r.0) h, cc (ap (λ (r : S × Result E _). r.1) h))

  pub ok≢err :
      {A : Type 0} {s t : S} {a : A} {e : E} → Path (S × Result E A) (s, err e) (t, ok a) → ⊥
  ok≢err h = cc (ap (λ (r : S × Result E _). r.1) h)

  -- What a sequence that ends well went through.
  pub bind_ok :
      {A B : Type 0} (r : S × Result E A) (k : A → Op S E B) (t : S) (b : B)
      → and_then r k ≡ (t, ok b)
      → (s : S) × (a : A) × Path (S × Result E A) r (s, ok a)
        × Path (S × Result E B) (k a s) (t, ok b)
  bind_ok (s, ok a) k t b h = (s, a, refl, h)
  bind_ok (s, err e) k t b h = absurd (ok≢err h)

  pub guard_ok :
      (c : Bool) (e : E) (s t : S) (u : Unit {0})
      → Path (S × Result E (Unit {0})) (guard c e s) (t, ok u)
      → (c ≡ true) × (s ≡ t)
  guard_ok true e s t u h = (refl, (ok_inj h).0)
  guard_ok false e s t u h = absurd (ok≢err h)

  pub settle_ok :
      {A : Type 0} (s t : S) (r : S × Result E A) (a : A) → settle s r ≡ (t, ok a) → r ≡ (t, ok a)
  settle_ok s t (u, ok b) a h = h
  settle_ok s t (u, err e) a h = absurd (ok≢err h)

  pub settle_err :
      {A : Type 0} (s t : S) (r : S × Result E A) (e : E) → settle s r ≡ (t, err e) → t ≡ s
  settle_err s t (u, ok a) e h = absurd (cc (ap (λ (q : S × Result E _). q.1) h))
  settle_err s t (u, err x) e h = ap (λ (q : S × Result E _). q.0) (sym h)

-- A result with no state: `return err` where an error came back, and a step behind it.
module _ {E : Type 0} where
  abbrev pub after : {A B : Type 0} → Result E A → (A → Result E B) → Result E B
  after (ok a) f = f a
  after (err e) f = err e

  abbrev pub map_err : {A : Type 0} → (E → E) → Result E A → Result E A
  map_err f (ok a) = ok a
  map_err f (err e) = err (f e)

  pub after_ok :
      {A B : Type 0} (r : Result E A) (k : A → Result E B) (b : B)
      → after r k ≡ ok b
      → (a : A) × (r ≡ ok a) × (k a ≡ ok b)
  after_ok (ok a) k b h = (a, refl, h)
  after_ok (err e) k b h = absurd (cc)
