-- ===== src/Callback/Backoff.antt =====
-- The delay before the next attempt.
use native.Mathlib.Nat.{le-div_iff_mul-le, le-mul_of_pos_right, pow-le-pow_right}
use minimax_proxy.Base.{
  arith, if◌then◌else◌, leb, ltb, min, ℕ, ◌*◌, ◌-◌, ◌/◌, ◌<◌, ◌^◌, ◌||◌, ◌≡◌, ◌≤◌,
}
use minimax_proxy.Callback.{Worker, backoff, initial_of, maximum_of, power_of}

-- Multiplication by a positive factor.
le-mul_factor : (a f : ℕ) → 0 < f → a ≤ a * f
le-mul_factor a f h = le-mul_of_pos_right a h

factor-pos : (n : ℕ) → 0 < 2 ^ n
factor-pos n =
    let p = pow-le-pow_right {n = 2} (omega arith) {i = 0} {j = n} (omega arith) in omega (arith, p)

capped :
    (initial maximum f : ℕ)
    → 0 < f
    → (if leb maximum initial || ltb (maximum / f) initial then maximum else initial * f)
      ≡ min maximum (initial * f)
capped initial maximum f h =
    let (to, from) = le-div_iff_mul-le {k = f} {x = initial} {y = maximum} h in
    let grows = le-mul_factor initial f h in ground (arith, to, from, grows)

-- The delay is the initial one doubled for each attempt before, thirty times at most, up to the
-- maximum.
pub backoff_lem :
    (w : Worker) (attempt : ℕ)
    → backoff w attempt ≡ min (maximum_of w) (initial_of w * 2 ^ min 30 (attempt - 1))
unfolding backoff
backoff_lem w attempt =
    let power : power_of attempt ≡ min 30 (attempt - 1) = ground arith in
    rw (← power)
      (capped (initial_of w) (maximum_of w) (2 ^ power_of attempt) (factor-pos (power_of attempt)))
