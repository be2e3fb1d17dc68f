-- ===== src/Runtime/Int.antt =====
-- runtime/cythonpp/int_.h: Python's int as a 64-bit value with a tag, and its arithmetic. A value
-- is an integer of unbounded size; `in_int64` is the range that std::int64_t holds.
pub mod Division
pub mod Power
pub mod PowerLoop
pub mod Tests
use cythonpp.Prelude.{
  ℕ, zero, suc, ◌-◌, ◌/◌, ◌%◌, ◌^◌, Bool, true, false, ◌&&◌, ◌||◌, not, Option, none, some, ltb,
  ◌==◌, if◌then◌else◌,
}
use cythonpp.Prelude.Int.{ℤ, pos, negsuc, ◌+ℤ◌, ◌-ℤ◌, ◌*ℤ◌}
use cythonpp.Runtime.Fail.{
  Result, ok, fail, overflow_error, zero_division_error, not_implemented_error, undefined_operation,
  ◌>>=◌,
}

-- Which rank the value really has: an int-typed name may hold a bool.
pub data NumericTag : Type 0 where
  bool int float : NumericTag

pub record PyInt : Type 0 where
  pub raw : ℤ
  pub tag : NumericTag

-- The one-argument constructor, whose tag is Int.
abbrev pub of_raw : ℤ → PyInt
of_raw v = record { raw = v; tag = int }

abbrev pub int64_limit : ℕ
int64_limit = 2 ^ 63

-- INT64_MIN ≤ v ≤ INT64_MAX
abbrev pub in_int64 : ℤ → Bool
in_int64 (pos n) = ltb n int64_limit
in_int64 (negsuc n) = ltb n int64_limit

-- What `__builtin_add_overflow` and its kin report: the exact result, if 64 bits hold it.
unfoldable pub checked : ℤ → Result PyInt
checked v = if in_int64 v then ok (of_raw v) else fail overflow_error

abbrev pub is_zero : ℤ → Bool
is_zero (pos zero) = true
is_zero _ = false

abbrev pub is_negative : ℤ → Bool
is_negative (pos n) = false
is_negative (negsuc n) = true

unfoldable is_bool : PyInt → Bool
is_bool v = elim v.tag [ bool ↦ true | _ ↦ false ]

unfoldable truthy : PyInt → Bool
truthy v = not (is_zero v.raw)

-- `to_int(bool_)`
unfoldable to_int : Bool → PyInt
to_int b = record { raw = pos (if b then 1 else 0); tag = bool }

unfoldable pub add : PyInt → PyInt → Result PyInt
add a b = checked (a.raw +ℤ b.raw)

unfoldable pub sub : PyInt → PyInt → Result PyInt
sub a b = checked (a.raw -ℤ b.raw)

unfoldable pub mul : PyInt → PyInt → Result PyInt
mul a b = checked (a.raw *ℤ b.raw)

unfoldable pub neg : PyInt → Result PyInt
neg a = checked (pos 0 -ℤ a.raw)

-- Unary plus, `pos` in the source: the value without the bool tag.
unfoldable plus : PyInt → PyInt
plus a = of_raw a.raw

abbrev magnitude : ℤ → ℕ
magnitude v = elim v [ pos n ↦ n | negsuc n ↦ suc n ]

abbrev pub minus : ℕ → ℤ
minus zero = pos 0
minus (suc n) = negsuc n

-- C++ division on 64-bit integers truncates toward zero.
abbrev pub c_quotient : ℤ → ℤ → ℤ
c_quotient (pos a) (pos b) = pos (a / b)
c_quotient (pos a) (negsuc b) = minus (a / suc b)
c_quotient (negsuc a) (pos b) = minus (suc a / b)
c_quotient (negsuc a) (negsuc b) = pos (suc a / suc b)

-- C++ remainder has the sign of the dividend.
abbrev pub c_remainder : ℤ → ℤ → ℤ
c_remainder (pos a) b = pos (a % magnitude b)
c_remainder (negsuc a) b = minus (suc a % magnitude b)

-- a == INT64_MIN && b == -1
abbrev pub is_min_by_minus_one : ℤ → ℤ → Bool
is_min_by_minus_one (negsuc a) (negsuc b) = (a == int64_limit - 1) && (b == 0)
is_min_by_minus_one _ _ = false

-- The two signs differ.
abbrev signs_differ : ℤ → ℤ → Bool
signs_differ (pos _) (pos _) = false
signs_differ (negsuc _) (negsuc _) = false
signs_differ _ _ = true

-- remainder != 0 && ((remainder < 0) != (b < 0))
abbrev pub needs_adjusting : ℤ → ℤ → Bool
needs_adjusting r b = not (is_zero r) && signs_differ r b

-- `quotient -= 1` and `remainder += b`, where the signs ask for it.
abbrev pub adjust_quotient : ℤ → ℤ → ℤ → ℤ
adjust_quotient q r b = if needs_adjusting r b then q -ℤ pos 1 else q

abbrev pub adjust_remainder : ℤ → ℤ → ℤ
adjust_remainder r b = if needs_adjusting r b then r +ℤ b else r

abbrev pub floor_quotient : ℤ → ℤ → ℤ
floor_quotient a b = adjust_quotient (c_quotient a b) (c_remainder a b) b

abbrev pub floor_remainder : ℤ → ℤ → ℤ
floor_remainder a b = adjust_remainder (c_remainder a b) b

-- A value computed with C++ `/` and `%`, which are undefined by zero and for INT64_MIN by -1: the
-- quotient does not fit there, and `%` is defined only where the quotient is.
abbrev pub where_defined : ℤ → ℤ → ℤ → Result PyInt
where_defined a b value =
    if is_zero b || is_min_by_minus_one a b then fail undefined_operation else ok (of_raw value)

pub floordiv : PyInt → PyInt → Result PyInt
floordiv a b =
    if is_zero b.raw
    then fail zero_division_error
    else if is_min_by_minus_one a.raw b.raw
    then fail overflow_error
    else where_defined a.raw b.raw (floor_quotient a.raw b.raw)

pub mod_ : PyInt → PyInt → Result PyInt
mod_ a b =
    if is_zero b.raw
    then fail zero_division_error
    else if is_min_by_minus_one a.raw b.raw
    then ok (of_raw (pos 0))
    else where_defined a.raw b.raw (floor_remainder a.raw b.raw)

-- The body of the loop of `pow`: the new result and factor. The factor is squared only where the
-- halved exponent still asks for it.
unfoldable pub pow_turn : PyInt → PyInt → ℕ → Result (PyInt × PyInt)
pow_turn result factor remaining = do
  r ← if remaining % 2 == 1 then mul result factor else ok result
  f ← if ltb 0 (remaining / 2) then mul factor factor else ok factor
  ok (r, f)

-- `while (remaining > 0)`. `none`: the fuel ran out.
unfoldable pub pow_loop : ℕ → PyInt → PyInt → ℕ → Option (Result PyInt)
pow_loop zero result factor remaining = none
pow_loop (suc fuel) result factor remaining = elim (ltb 0 remaining) [
  | false ↦ some (ok result)
  | true ↦ elim (pow_turn result factor remaining) [
    | fail e ↦ some (fail e)
    | ok (r, f) ↦ pow_loop fuel r f (remaining / 2)
  ]
]

-- Sixty-four turns are enough for an exponent below 2^63.
abbrev pub pow_fuel : ℕ
pow_fuel = 64

pub pow : PyInt → PyInt → Option (Result PyInt)
pow base exponent = elim exponent.raw [
  | negsuc _ ↦ some (fail not_implemented_error)
  | pos e ↦ pow_loop pow_fuel (of_raw (pos 1)) base e
]
