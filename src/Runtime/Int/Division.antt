-- ===== src/Runtime/Int/Division.antt =====
-- `//` and `%` of runtime/cythonpp/int_.h against Python's floor division.
use native.Mathlib.Nat.{div-add-mod, mod-lt, div-le_self}
use cythonpp.Prelude.{
  ℕ, zero, suc, ◌+◌, ◌*◌, ◌<◌, ◌≡◌, refl, ◌≢◌, true, false, arith, if◌then◌else◌,
}
use cythonpp.Prelude.Int.{ℤ, pos, negsuc, ◌+ℤ◌, ◌-ℤ◌, ◌*ℤ◌}
use cythonpp.Runtime.Fail.{ok, fail, zero_division_error}
use cythonpp.Runtime.Int.{
  PyInt, of_raw, minus, in_int64, is_min_by_minus_one, is_zero, checked, floor_quotient,
  floor_remainder, adjust_quotient, adjust_remainder, floordiv, mod_,
}

-- What Python asks of a remainder: between zero and the divisor, the divisor excluded.
abbrev pub IsFloorRemainder : ℤ → ℤ → Type 0
IsFloorRemainder (pos r) (pos b) = r < b
IsFloorRemainder (negsuc r) (pos b) = ⊥
IsFloorRemainder (pos r) (negsuc b) = r ≡ 0
IsFloorRemainder (negsuc r) (negsuc b) = suc r < suc b

one_less : (q : ℕ) → negsuc q -ℤ pos 1 ≡ negsuc (suc q)
unfolding ◌-ℤ◌
one_less q = ground arith

-- The two divisions whose operands differ in sign, over the quotient and remainder of the sizes.
adjusted_neg_divisor :
    (q r a b : ℕ)
    → suc b * q + r ≡ a
    → r < suc b
    → (adjust_quotient (minus q) (pos r) (negsuc b) *ℤ negsuc b
          +ℤ adjust_remainder (pos r) (negsuc b)
        ≡ pos a)
      × IsFloorRemainder (adjust_remainder (pos r) (negsuc b)) (negsuc b)
unfolding ◌+ℤ◌ ◌-ℤ◌ ◌*ℤ◌
adjusted_neg_divisor zero zero a b e h = ground arith
adjusted_neg_divisor (suc q) zero a b e h = ground arith
adjusted_neg_divisor zero (suc r) a b e h = ground arith
adjusted_neg_divisor (suc q) (suc r) a b e h = rw (one_less q) (ground arith)

adjusted_neg_dividend :
    (q r a b : ℕ)
    → suc b * q + r ≡ suc a
    → r < suc b
    → (adjust_quotient (minus q) (minus r) (pos (suc b)) *ℤ pos (suc b)
          +ℤ adjust_remainder (minus r) (pos (suc b))
        ≡ negsuc a)
      × IsFloorRemainder (adjust_remainder (minus r) (pos (suc b))) (pos (suc b))
unfolding ◌+ℤ◌ ◌-ℤ◌ ◌*ℤ◌
adjusted_neg_dividend zero zero a b e h = ground arith
adjusted_neg_dividend (suc q) zero a b e h = ground arith
adjusted_neg_dividend zero (suc r) a b e h = ground arith
adjusted_neg_dividend (suc q) (suc r) a b e h = rw (one_less q) (ground arith)

adjusted_neg_both :
    (q r a b : ℕ)
    → suc b * q + r ≡ suc a
    → r < suc b
    → (adjust_quotient (pos q) (minus r) (negsuc b) *ℤ negsuc b
          +ℤ adjust_remainder (minus r) (negsuc b)
        ≡ negsuc a)
      × IsFloorRemainder (adjust_remainder (minus r) (negsuc b)) (negsuc b)
unfolding ◌+ℤ◌ ◌-ℤ◌ ◌*ℤ◌
adjusted_neg_both q zero a b e h = ground arith
adjusted_neg_both q (suc r) a b e h = ground arith

-- Truncation and the adjustment give the division that rounds down.
floor_division :
    (a b : ℤ)
    → b ≢ pos 0
    → (floor_quotient a b *ℤ b +ℤ floor_remainder a b ≡ a)
      × IsFloorRemainder (floor_remainder a b) b
unfolding ◌+ℤ◌ ◌-ℤ◌ ◌*ℤ◌
floor_division (pos a) (pos zero) h = absurd (h refl)
floor_division (pos a) (pos (suc b)) h = ground (arith, div-add-mod a (suc b))
floor_division (pos a) (negsuc b) h =
    adjusted_neg_divisor _ _ a b (div-add-mod a (suc b)) (mod-lt a (omega arith))
floor_division (negsuc a) (pos zero) h = absurd (h refl)
floor_division (negsuc a) (pos (suc b)) h =
    adjusted_neg_dividend _ _ a b (div-add-mod (suc a) (suc b)) (mod-lt (suc a) (omega arith))
floor_division (negsuc a) (negsuc b) h =
    adjusted_neg_both _ _ a b (div-add-mod (suc a) (suc b)) (mod-lt (suc a) (omega arith))

is_zero_of_ne : (b : ℤ) → b ≢ pos 0 → is_zero b ≡ false
is_zero_of_ne (pos zero) h = absurd (h refl)
is_zero_of_ne (pos (suc b)) h = refl
is_zero_of_ne (negsuc b) h = refl

-- Except by zero and for the one quotient that 64 bits do not hold, `//` and `%` both return a plain
-- int, and the two results are Python's: they make up the dividend, and the remainder lies between
-- zero and the divisor.
pub floordiv-mod :
    (a b : PyInt)
    → b.raw ≢ pos 0
    → is_min_by_minus_one a.raw b.raw ≡ false
    → (q : ℤ) × (r : ℤ) × (floordiv a b ≡ ok (of_raw q))
      × (mod_ a b ≡ ok (of_raw r))
      × (q *ℤ b.raw +ℤ r ≡ a.raw)
      × IsFloorRemainder r b.raw
unfolding floordiv mod_
floordiv-mod a b nonzero fits =
    let law = floor_division a.raw b.raw nonzero in
    let nz = is_zero_of_ne b.raw nonzero in
    (
      floor_quotient a.raw b.raw,
      floor_remainder a.raw b.raw,
      rw (nz, fits),
      rw (nz, fits),
      law.0,
      law.1,
    )

-- The quotient leaves the 64-bit range for INT64_MIN by -1 only.
quotient-in_int64 :
    (a b : ℤ)
    → in_int64 a ≡ true
    → is_min_by_minus_one a b ≡ false
    → in_int64 (floor_quotient a b) ≡ true
unfolding ◌-ℤ◌
quotient-in_int64 (pos a) (pos b) ha hm = ground (arith, div-le_self a b)
quotient-in_int64 (pos a) (negsuc b) ha hm = ground (arith, div-le_self a (suc b))
quotient-in_int64 (negsuc a) (pos b) ha hm = ground (arith, div-le_self (suc a) b)
quotient-in_int64 (negsuc a) (negsuc zero) ha hm = ground (arith, div-le_self (suc a) (suc zero))
quotient-in_int64 (negsuc a) (negsuc (suc b)) ha hm =
    ground (arith, div-le_self (suc a) (suc (suc b)))

min_by_minus_one-quotient :
    (a b : ℤ) → is_min_by_minus_one a b ≡ true → in_int64 (floor_quotient a b) ≡ false
unfolding ◌-ℤ◌
min_by_minus_one-quotient (negsuc a) (negsuc b) h = ground arith
min_by_minus_one-quotient (pos a) b h = cc
min_by_minus_one-quotient (negsuc a) (pos b) h = cc

remainder-in_int64 :
    (a b : ℤ)
    → in_int64 a ≡ true
    → in_int64 b ≡ true
    → b ≢ pos 0
    → in_int64 (floor_remainder a b) ≡ true
remainder-in_int64 a b ha hb hz = ground (arith, (floor_division a b hz).1)

-- On 64-bit operands the guards of `//` are an exact overflow check: it fails on a zero divisor, and
-- otherwise returns the rounded-down quotient exactly when 64 bits hold it.
pub floordiv-eq-checked :
    (a b : PyInt)
    → in_int64 a.raw ≡ true
    → floordiv a b
      ≡ (if is_zero b.raw then fail zero_division_error else checked (floor_quotient a.raw b.raw))
unfolding floordiv checked
floordiv-eq-checked a b ha =
    ground (arith, quotient-in_int64 a.raw b.raw ha, min_by_minus_one-quotient a.raw b.raw)

minus-min_by_minus_one : (a b : ℤ) → is_min_by_minus_one a b ≡ true → floor_remainder a b ≡ pos 0
unfolding ◌+ℤ◌
minus-min_by_minus_one (negsuc a) (negsuc b) h = ground arith
minus-min_by_minus_one (pos a) b h = cc
minus-min_by_minus_one (negsuc a) (pos b) h = cc

-- On 64-bit operands `%` by a divisor that is not zero always returns, also where `//` overflows and
-- C++ leaves its own `%` undefined. What it returns fits 64 bits and is Python's remainder: some
-- multiple of the divisor away from the dividend, and between zero and the divisor.
pub mod_-IsFloorRemainder :
    (a b : PyInt)
    → in_int64 a.raw ≡ true
    → in_int64 b.raw ≡ true
    → b.raw ≢ pos 0
    → (q : ℤ) × (r : ℤ) × (mod_ a b ≡ ok (of_raw r))
      × (in_int64 r ≡ true)
      × (q *ℤ b.raw +ℤ r ≡ a.raw)
      × IsFloorRemainder r b.raw
unfolding mod_
mod_-IsFloorRemainder a b ha hb hz =
    let law = floor_division a.raw b.raw hz in
    (
      floor_quotient a.raw b.raw,
      floor_remainder a.raw b.raw,
      ground (arith, minus-min_by_minus_one a.raw b.raw, is_zero_of_ne b.raw hz),
      remainder-in_int64 a.raw b.raw ha hb hz,
      law.0,
      law.1,
    )
