-- ===== src/Runtime/Int/Tests.antt =====
-- The arithmetic of runtime/cythonpp/int_.h at concrete values.
use cythonpp.Prelude.{◌≡◌, refl, ◌-◌, true, some, arith}
use cythonpp.Prelude.Int.{ℤ, pos, negsuc, ◌*ℤ◌, ◌+ℤ◌, ◌-ℤ◌}
use cythonpp.Runtime.Fail.{ok, fail, overflow_error}
use cythonpp.Runtime.Int.{
  of_raw, checked, floordiv, mod_, pow, pow_loop, pow_turn, mul, floor_quotient, in_int64,
  int64_limit,
}
use cythonpp.Runtime.Int.Division.{
  floordiv-mod, floordiv-eq-checked, mod_-IsFloorRemainder, IsFloorRemainder,
}
use cythonpp.Runtime.Int.Power.{power}
use cythonpp.Runtime.Int.PowerLoop.{pow-eq-checked}

-- -7 // 2 and -7 % 2
seven_by_two : floordiv (of_raw (negsuc 6)) (of_raw (pos 2)) ≡ ok (of_raw (negsuc 3))
unfolding floordiv ◌-ℤ◌
seven_by_two = refl

seven_mod_two : mod_ (of_raw (negsuc 6)) (of_raw (pos 2)) ≡ ok (of_raw (pos 1))
unfolding mod_ ◌+ℤ◌
seven_mod_two = refl

two_to_ten : pow (of_raw (pos 2)) (of_raw (pos 10)) ≡ some (ok (of_raw (pos 1024)))
unfolding pow pow_loop pow_turn mul checked ◌*ℤ◌
two_to_ten = refl

two_to_63 : pow (of_raw (pos 2)) (of_raw (pos 63)) ≡ some (fail overflow_error)
unfolding pow pow_loop pow_turn mul checked ◌*ℤ◌
two_to_63 = refl

floordiv-mod_example :
    (q : ℤ) × (r : ℤ) × (floordiv (of_raw (negsuc 6)) (of_raw (pos 2)) ≡ ok (of_raw q))
    × (mod_ (of_raw (negsuc 6)) (of_raw (pos 2)) ≡ ok (of_raw r))
    × (q *ℤ pos 2 +ℤ r ≡ negsuc 6)
    × IsFloorRemainder r (pos 2)
floordiv-mod_example = floordiv-mod (of_raw (negsuc 6)) (of_raw (pos 2)) (λ e. cc) refl

floordiv-eq-checked_example :
    floordiv (of_raw (negsuc (int64_limit - 1))) (of_raw (negsuc 0))
    ≡ checked (floor_quotient (negsuc (int64_limit - 1)) (negsuc 0))
floordiv-eq-checked_example =
    floordiv-eq-checked (of_raw (negsuc (int64_limit - 1))) (of_raw (negsuc 0)) refl

mod_-IsFloorRemainder_example :
    (q : ℤ) × (r : ℤ) × (mod_ (of_raw (negsuc (int64_limit - 1))) (of_raw (negsuc 0))
      ≡ ok (of_raw r))
    × (in_int64 r ≡ true)
    × (q *ℤ negsuc 0 +ℤ r ≡ negsuc (int64_limit - 1))
    × IsFloorRemainder r (negsuc 0)
mod_-IsFloorRemainder_example =
    mod_-IsFloorRemainder (of_raw (negsuc (int64_limit - 1))) (of_raw (negsuc 0)) refl refl
      (λ e. cc)

pow-eq-checked_example :
    pow (of_raw (negsuc 1)) (of_raw (pos 63)) ≡ some (checked (power (negsuc 1) 63))
pow-eq-checked_example = pow-eq-checked (of_raw (negsuc 1)) (of_raw (pos 63)) 63 refl (omega arith)
