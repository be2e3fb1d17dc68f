-- ===== src/Runtime/Int/PowerLoop.antt =====
-- The loop of `pow` in runtime/cythonpp/int_.h: it computes the power by squaring, and overflows
-- only where the power itself does.
use native.Mathlib.Nat.{pow-succ', pow-zero}
use cythonpp.Prelude.{
  ℕ, zero, suc, ◌+◌, ◌-◌, ◌*◌, ◌/◌, ◌%◌, ◌^◌, ◌≤◌, ◌<◌, ◌≡◌, refl, ap, ◌∙◌, ◌⊎◌, inl, inr, true,
  false, arith, Option, some, ltb, ◌==◌, if◌then◌else◌, Bool-cases, leb,
}
use cythonpp.Prelude.Int.{ℤ, pos, negsuc, ◌*ℤ◌}
use cythonpp.Runtime.Fail.{Result, ok, fail, overflow_error}
use cythonpp.Runtime.Int.{
  PyInt, of_raw, magnitude, in_int64, checked, mul, pow_turn, pow_loop, pow, int64_limit,
}
use cythonpp.Runtime.Int.Power.{
  power, power_even, power_pos, pow-lt, *ℤ_one, *ℤ_zero, *ℤ_assoc_pos, magnitude-*ℤ, magnitude_zero,
  out_grows, out_square, square_magnitude,
}

-- What keeps an overflow of the factor from being a false alarm: the result is not stuck at a unit
-- while the factor grows.
abbrev Steady : ℤ → ℤ → Type 0
Steady r f = (magnitude f ≤ 1) ⊎ ((r ≡ pos 1) ⊎ (2 ≤ magnitude r))

-- The result after one turn, before the check.
abbrev turn_result : ℤ → ℤ → ℕ → ℤ
turn_result r f n = if n % 2 == 1 then r *ℤ f else r

abbrev half_power : ℤ → ℕ → ℕ
half_power f n = (magnitude f * magnitude f) ^ (n / 2)

turn_result-power : (r f : ℤ) (n : ℕ) → r *ℤ power f n ≡ turn_result r f n *ℤ pos (half_power f n)
unfolding power
turn_result-power r f n = elim (Bool-cases (n % 2 == 1)) [
  | inl odd ↦
      let e : n ≡ suc (n / 2 + n / 2) = ground arith in
      rw (odd, *ℤ_assoc_pos, ← power_even) (ap (λ m. r *ℤ power f m) e)
  | inr even ↦
      let e : n ≡ n / 2 + n / 2 = ground arith in
      rw (even, ← power_even) (ap (λ m. r *ℤ power f m) e)
]

product-Steady : (r f : ℤ) → Steady r f → Steady (r *ℤ f) f
product-Steady r f (inl small) = inl small
product-Steady r f (inr (inl unit)) = grind (arith, magnitude-*ℤ r f)
product-Steady r f (inr (inr big)) = grind (arith, magnitude-*ℤ r f)

turn_result-Steady : (r f : ℤ) (n : ℕ) → Steady r f → Steady (turn_result r f n) f
turn_result-Steady r f n s = elim (Bool-cases (n % 2 == 1)) [
  | inl odd ↦ rw odd (product-Steady r f s)
  | inr even ↦ rw even s
]

mul-checked :
    (r : ℤ) (f : PyInt) (n : ℕ)
    → in_int64 r ≡ true
    → (if n % 2 == 1 then mul (of_raw r) f else ok (of_raw r)) ≡ checked (turn_result r f.raw n)
unfolding mul checked
mul-checked r f n h = ground arith

out-magnitude :
    (r f : ℤ) (n : ℕ) → in_int64 r ≡ true → in_int64 (turn_result r f n) ≡ false → 0 < magnitude f
out-magnitude r f n h o = elim (Bool-cases (leb 1 (magnitude f))) [
  | inl some_size ↦ ground arith
  | inr none_left ↦
      let e : f ≡ pos 0 = magnitude_zero f (ground arith) in ground (arith, e, *ℤ_zero r)
]

-- What the loop has to return for a result and a factor.
abbrev Outcome : ℤ → Option (Result PyInt) → Type 0
Outcome v o = o ≡ some (checked v)

checked_in : (v : ℤ) → in_int64 v ≡ true → checked v ≡ ok (of_raw v)
unfolding checked
checked_in v h = rw h

checked_out : (v : ℤ) → in_int64 v ≡ false → checked v ≡ fail overflow_error
unfolding checked
checked_out v h = rw h

-- One turn fails only where the product that the loop stands for is out of range.
turn_fails :
    (r f : ℤ) (n : ℕ)
    → in_int64 r ≡ true
    → Steady r f
    → in_int64 (turn_result r f n) ≡ false
    → in_int64 (r *ℤ power f n) ≡ false
turn_fails r f n hr s out =
    let m = out-magnitude r f n hr out in
    rw (turn_result-power r f n)
      (out_grows (turn_result r f n) (half_power f n) out (pow-lt _ (n / 2) (grind arith)))

square_small : (m : ℕ) → m ≤ 1 → m * m ≤ 1
square_small zero h = omega arith
square_small (suc zero) h = omega arith
square_small (suc (suc m)) h = absurd (omega arith)

unstuck :
    (x f : ℤ)
    → in_int64 (pos (magnitude f * magnitude f)) ≡ false
    → Steady x f
    → (x ≡ pos 1) ⊎ (2 ≤ magnitude x)
unstuck x f far (inl small) = ground (arith, square_small (magnitude f) small)
unstuck x f far (inr h) = h

square_fails :
    (r f : ℤ) (n : ℕ)
    → Steady r f
    → in_int64 (f *ℤ f) ≡ false
    → 0 < n / 2
    → in_int64 (r *ℤ power f n) ≡ false
square_fails r f n s out h =
    let x = turn_result r f n in
    let size = magnitude f * magnitude f in
    let j = n / 2 - 1 in
    let e : n / 2 ≡ suc j = omega arith in
    let far : in_int64 (pos size) ≡ false = rw square_magnitude at out in
    let split : size ^ (n / 2) ≡ size * size ^ j = ap (λ t. size ^ t) e ∙ pow-succ' size j in
    let grown : (x ≡ pos 1) ⊎ (2 ≤ magnitude x) = unstuck x f far (turn_result-Steady r f n s) in
    rw (turn_result-power r f n, split)
      (out_square x size (size ^ j) far (pow-lt size j (ground arith)) grown)

-- The four ways a turn ends.
module _ (r : ℤ) (f : PyInt) (n : ℕ) (hr : in_int64 r ≡ true) where
  turn_out :
      in_int64 (turn_result r f.raw n) ≡ false → pow_turn (of_raw r) f n ≡ fail overflow_error
  unfolding pow_turn
  turn_out out = rw (pow_turn, mul-checked r f n hr, checked_out _ out)

  turn_last :
      in_int64 (turn_result r f.raw n) ≡ true
      → ltb 0 (n / 2) ≡ false
      → pow_turn (of_raw r) f n ≡ ok (of_raw (turn_result r f.raw n), f)
  unfolding pow_turn
  turn_last fits last = rw (pow_turn, mul-checked r f n hr, checked_in _ fits, last)

  turn_square_out :
      in_int64 (turn_result r f.raw n) ≡ true
      → ltb 0 (n / 2) ≡ true
      → in_int64 (f.raw *ℤ f.raw) ≡ false
      → pow_turn (of_raw r) f n ≡ fail overflow_error
  unfolding pow_turn mul
  turn_square_out fits more out =
      rw (pow_turn, mul-checked r f n hr, checked_in _ fits, more, checked_out _ out)

  turn_square :
      in_int64 (turn_result r f.raw n) ≡ true
      → ltb 0 (n / 2) ≡ true
      → in_int64 (f.raw *ℤ f.raw) ≡ true
      → pow_turn (of_raw r) f n ≡ ok (of_raw (turn_result r f.raw n), of_raw (f.raw *ℤ f.raw))
  unfolding pow_turn mul
  turn_square fits more ok_square =
      rw (pow_turn, mul-checked r f n hr, checked_in _ fits, more, checked_in _ ok_square)

square-Steady : (x f : ℤ) → Steady x f → Steady x (f *ℤ f)
square-Steady x f (inl small) =
    inl (ground (arith, magnitude-*ℤ f f, square_small (magnitude f) small))
square-Steady x f (inr h) = inr h

-- The loop has ended.
loop_done :
    (k : ℕ) (r : ℤ) (f : PyInt) (n : ℕ)
    → in_int64 r ≡ true
    → ltb 0 n ≡ false
    → pow_loop (suc k) (of_raw r) f n ≡ some (checked (r *ℤ power f.raw n))
unfolding pow_loop power
loop_done k r f zero hr done = rw (*ℤ_one r, checked_in r hr)
loop_done k r f (suc n) hr done = absurd (ground arith)

-- The loop goes on after a turn.
loop_step :
    (k : ℕ) (r : ℤ) (f g : PyInt) (x : ℤ) (n : ℕ)
    → ltb 0 n ≡ true
    → pow_turn (of_raw r) f n ≡ ok (of_raw x, g)
    → pow_loop (suc k) (of_raw r) f n ≡ pow_loop k (of_raw x) g (n / 2)
unfolding pow_loop
loop_step k r f g x n going turn = rw (going, pow_loop, turn)

loop_fails :
    (k : ℕ) (r : ℤ) (f : PyInt) (n : ℕ)
    → ltb 0 n ≡ true
    → in_int64 (r *ℤ power f.raw n) ≡ false
    → pow_turn (of_raw r) f n ≡ fail overflow_error
    → pow_loop (suc k) (of_raw r) f n ≡ some (checked (r *ℤ power f.raw n))
unfolding pow_loop
loop_fails k r f n going out turn = rw (going, pow_loop, turn, checked_out _ out)

one-*ℤ : (a : ℤ) → pos 1 *ℤ a ≡ a
unfolding ◌*ℤ◌
one-*ℤ (pos a) = ground arith
one-*ℤ (negsuc a) = ground arith

-- What is left after a turn, as a power.
last_power : (r f : ℤ) (n : ℕ) → n / 2 ≡ 0 → turn_result r f n *ℤ power f (n / 2) ≡ r *ℤ power f n
unfolding power
last_power r f n e = rw (turn_result-power r f n, e, pow-zero)

more_power : (r f : ℤ) (n : ℕ) → turn_result r f n *ℤ power (f *ℤ f) (n / 2) ≡ r *ℤ power f n
more_power r f n = rw (turn_result-power r f n, square_magnitude, power_pos)

-- With `k` turns for an exponent below 2^k the loop returns, and it returns the result times the
-- power of the factor exactly when 64 bits hold it.
pub pow_loop-eq-checked :
    (k : ℕ) (r : ℤ) (f : PyInt) (n : ℕ)
    → in_int64 r ≡ true
    → Steady r f.raw
    → n < 2 ^ k
    → pow_loop (suc k) (of_raw r) f n ≡ some (checked (r *ℤ power f.raw n))
pow_loop-eq-checked zero r f n hr s h = loop_done zero r f n hr (ground (arith, pow-zero 2))
pow_loop-eq-checked (suc k) r f n hr s h = elim (Bool-cases (ltb 0 n)) [
  | inr done ↦ loop_done (suc k) r f n hr done
  | inl going ↦ elim (Bool-cases (in_int64 x)) [
    | inr out ↦
        loop_fails (suc k) r f n going (turn_fails r f.raw n hr s out) (turn_out r f n hr out)
    | inl fits ↦ elim (Bool-cases (ltb 0 (n / 2))) [
      | inr last ↦
          loop_step (suc k) r f f x n going (turn_last r f n hr fits last)
          ∙ loop_done k x f (n / 2) fits last
          ∙ ap (λ t. some (checked t)) (last_power r f.raw n (ground arith))
      | inl more ↦ elim (Bool-cases (in_int64 (f.raw *ℤ f.raw))) [
        | inr out ↦
            loop_fails (suc k) r f n going (square_fails r f.raw n s out (ground arith))
              (turn_square_out r f n hr fits more out)
        | inl in_range ↦
            loop_step (suc k) r f (of_raw (f.raw *ℤ f.raw)) x n going
              (turn_square r f n hr fits more in_range)
            ∙ pow_loop-eq-checked k x (of_raw (f.raw *ℤ f.raw)) (n / 2) fits
                (square-Steady x f.raw (turn_result-Steady r f.raw n s))
                (omega (arith, pow-succ' 2 k))
            ∙ ap (λ t. some (checked t)) (more_power r f.raw n)
      ]
    ]
  ]
]
  where
    x : ℤ
    x = turn_result r f.raw n

-- For every 64-bit exponent that is not negative `pow` returns: the mathematical power as a plain int
-- when 64 bits hold it, and an overflow error when they do not, never because a square on the way was
-- too large.
pub pow-eq-checked :
    (base exponent : PyInt) (n : ℕ)
    → exponent.raw ≡ pos n
    → n < int64_limit
    → pow base exponent ≡ some (checked (power base.raw n))
unfolding pow
pow-eq-checked base exponent n e h =
    rw (e, pow)
      (pow_loop-eq-checked 63 (pos 1) base n refl (inr (inl refl)) h
        ∙ ap (λ t. some (checked t)) (one-*ℤ (power base.raw n)))
