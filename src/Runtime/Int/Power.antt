-- ===== src/Runtime/Int/Power.antt =====
-- `pow` of runtime/cythonpp/int_.h against the power that it stands for.
use native.Mathlib.Nat.{mul_assoc, pow-zero, pow-succ'}
use cythonpp.Prelude.{
  ℕ, zero, suc, ◌+◌, ◌*◌, ◌^◌, ◌≤◌, ◌<◌, ◌≡◌, refl, sym, ap, ◌⊎◌, inl, inr, false, arith, ltb,
}
use cythonpp.Prelude.Int.{ℤ, pos, negsuc, ◌*ℤ◌, sub_ℕ}
use cythonpp.Runtime.Int.{magnitude, minus, in_int64, int64_limit}

-- The mathematical power.
unfoldable pub power : ℤ → ℕ → ℤ
power b zero = pos 1
power b (suc n) = b *ℤ power b n

-- Products by sign and size.
sub_ℕ-minus : (n : ℕ) → sub_ℕ 0 n ≡ minus n
sub_ℕ-minus zero = refl
sub_ℕ-minus (suc n) = ground arith

pub pos-pos : (a b : ℕ) → pos a *ℤ pos b ≡ pos (a * b)
unfolding ◌*ℤ◌
pos-pos a b = ground arith

negsuc-negsuc : (a b : ℕ) → negsuc a *ℤ negsuc b ≡ pos (suc a * suc b)
unfolding ◌*ℤ◌
negsuc-negsuc a b = ground arith

negsuc-pos : (a b : ℕ) → negsuc a *ℤ pos b ≡ minus (suc a * b)
unfolding ◌*ℤ◌
negsuc-pos a b = ground (arith, sub_ℕ-minus (suc a * b))

pos-negsuc : (a b : ℕ) → pos a *ℤ negsuc b ≡ minus (a * suc b)
unfolding ◌*ℤ◌
pos-negsuc a b = ground (arith, sub_ℕ-minus (a * suc b))

minus-pos : (m p : ℕ) → minus m *ℤ pos p ≡ minus (m * p)
minus-pos zero p = ground (arith, pos-pos 0 p)
minus-pos (suc m) p = negsuc-pos m p

pos-minus : (a m : ℕ) → pos a *ℤ minus m ≡ minus (a * m)
pos-minus a zero = ground (arith, pos-pos a 0)
pos-minus a (suc m) = pos-negsuc a m

negsuc-minus : (a m : ℕ) → negsuc a *ℤ minus m ≡ pos (suc a * m)
negsuc-minus a zero = ground (arith, negsuc-pos a 0)
negsuc-minus a (suc m) = negsuc-negsuc a m

pub square_magnitude : (a : ℤ) → a *ℤ a ≡ pos (magnitude a * magnitude a)
square_magnitude (pos a) = pos-pos a a
square_magnitude (negsuc a) = negsuc-negsuc a a

ruleset products =
    (pos-pos, negsuc-negsuc, negsuc-pos, pos-negsuc, minus-pos, pos-minus, negsuc-minus)

pub *ℤ_assoc_pos : (a b : ℤ) (p : ℕ) → a *ℤ b *ℤ pos p ≡ a *ℤ (b *ℤ pos p)
*ℤ_assoc_pos (pos a) (pos b) p = simp (products, mul_assoc)
*ℤ_assoc_pos (pos a) (negsuc b) p = simp (products, mul_assoc)
*ℤ_assoc_pos (negsuc a) (pos b) p = simp (products, mul_assoc)
*ℤ_assoc_pos (negsuc a) (negsuc b) p = simp (products, mul_assoc)

minus-out : (n : ℕ) → in_int64 (minus n) ≡ ltb n (suc int64_limit)
minus-out zero = ground arith
minus-out (suc n) = ground arith

-- A value out of range stays out when it grows.
pub out_grows : (x : ℤ) (p : ℕ) → in_int64 x ≡ false → 0 < p → in_int64 (x *ℤ pos p) ≡ false
out_grows (pos a) p h lt = rw pos-pos (grind arith)
out_grows (negsuc a) p h lt = rw (negsuc-pos, minus-out) (grind arith)

pub out_square :
    (x : ℤ) (q p : ℕ)
    → in_int64 (pos q) ≡ false
    → 0 < p
    → (x ≡ pos 1) ⊎ (2 ≤ magnitude x)
    → in_int64 (x *ℤ pos (q * p)) ≡ false
out_square (pos a) q p h lt (inl e) = rw pos-pos (grind arith)
out_square (pos a) q p h lt (inr big) = rw pos-pos (grind arith)
out_square (negsuc a) q p h lt (inl e) = cc
out_square (negsuc a) q p h lt (inr big) = rw (negsuc-pos, minus-out) (grind arith)

-- The squares that the loop builds.
pub power_even : (a : ℤ) (k : ℕ) → power a (k + k) ≡ pos ((magnitude a * magnitude a) ^ k)
unfolding power
power_even a zero = ap pos (sym (pow-zero _))
power_even a (suc k) =
    let e : suc k + suc k ≡ suc (suc (k + k)) = omega arith in
    let p : power a (k + k) ≡ pos ((magnitude a * magnitude a) ^ k) = power_even a k in
    rw (e, p, ← *ℤ_assoc_pos, square_magnitude, pos-pos, pow-succ')

pub power_pos : (q k : ℕ) → power (pos q) k ≡ pos (q ^ k)
unfolding power
power_pos q zero = ap pos (sym (pow-zero _))
power_pos q (suc k) = rw (power_pos q k, pos-pos, pow-succ')

pub pow-lt : (q k : ℕ) → 0 < q → 0 < q ^ k
pow-lt q zero h = rw pow-zero (omega arith)
pow-lt q (suc k) h = let p = pow-lt q k h in rw pow-succ' (grind arith)

pub *ℤ_one : (a : ℤ) → a *ℤ pos 1 ≡ a
unfolding ◌*ℤ◌
*ℤ_one (pos a) = ground arith
*ℤ_one (negsuc a) = ground arith

magnitude-minus : (n : ℕ) → magnitude (minus n) ≡ n
magnitude-minus zero = refl
magnitude-minus (suc n) = refl

pub magnitude-*ℤ : (a b : ℤ) → magnitude (a *ℤ b) ≡ magnitude a * magnitude b
magnitude-*ℤ (pos a) (pos b) = rw pos-pos
magnitude-*ℤ (pos a) (negsuc b) = rw (pos-negsuc, magnitude-minus)
magnitude-*ℤ (negsuc a) (pos b) = rw (negsuc-pos, magnitude-minus)
magnitude-*ℤ (negsuc a) (negsuc b) = rw negsuc-negsuc

pub magnitude_zero : (a : ℤ) → magnitude a ≡ 0 → a ≡ pos 0
magnitude_zero (pos a) h = ap pos h
magnitude_zero (negsuc a) h = absurd (omega arith)

pub *ℤ_zero : (a : ℤ) → a *ℤ pos 0 ≡ pos 0
unfolding ◌*ℤ◌
*ℤ_zero a = ground arith
