-- ===== src/Semantic/Literal/Bound.antt =====
-- The 64-bit check of integer literals against the literal's value.
use cythonpp.Prelude.{
  ℕ, zero, suc, ◌+◌, ◌*◌, ◌/◌, ◌%◌, ◌^◌, ◌≤◌, ◌<◌, ◌≡◌, refl, Bool, true, false, ◌&&◌, none, some,
  [], ◌∷◌, arith, ltb, leb, ◌==◌, if◌then◌else◌, Option-cases, inl, inr, ◌⊎◌, sym, ap, ◌∙◌,
}
use native.Mathlib.Nat.{div-add-mod, mod-lt}
use cythonpp.Prelude.Text.{Text}
use cythonpp.Semantic.Literal.{
  digit_of, digits_of, base_of, after_prefix, fits_from, limit_of, integer_literal_fits_64_bits,
}

-- Every character is a digit of the base.
abbrev pub IsNumeral : ℕ → Text → Type 0
IsNumeral base [] = Unit
IsNumeral base (c ∷ cs) = ((d : ℕ) × (digit_of c ≡ some d) × (d < base)) × IsNumeral base cs

-- The number that the digits stand for, after those read.
pub value_from : ℕ → ℕ → Text → ℕ
value_from base value [] = value
value_from base value (c ∷ cs) = elim (digit_of c) [
  | none ↦ value
  | some digit ↦ value_from base (value * base + digit) cs
]

below_limit :
    (base r value k digit : ℕ) → digit < base → value * base + digit ≤ base * (value + suc k) + r
below_limit base r value k digit h = grind arith

above_limit : (base r q k digit : ℕ) → r < base → base * q + r < (q + suc k) * base + digit
above_limit base r q k digit h = grind arith

larger_step : (base value digit : ℕ) → 1 ≤ base → value ≤ value * base + digit
larger_step zero value digit h = absurd (omega arith)
larger_step (suc base) value digit h = grind arith

bool_of_lt : (a b : ℕ) → a < b → ltb a b ≡ true
bool_of_lt a b h = ground arith

bool_of_ge : (a b : ℕ) → b ≤ a → ltb a b ≡ false
bool_of_ge a b h = ground arith

-- The test before the product is exact, in terms of the quotient and the remainder of the limit.
exact_same :
    (base q r digit : ℕ)
    → ltb (base * q + r) (q * base + digit) ≡ (if ltb q q then true else q == q && ltb r digit)
exact_same base q r digit = let e : base * q ≡ q * base = grind arith in ground arith

exact_less :
    (base value k r digit : ℕ)
    → digit < base
    → ltb (base * (value + suc k) + r) (value * base + digit)
      ≡ (if ltb (value + suc k) value then true else value == value + suc k && ltb r digit)
exact_less base value k r digit h =
    let e = below_limit base r value k digit h in
    rw (bool_of_ge (base * (value + suc k) + r) (value * base + digit) e) (ground arith)

exact_more :
    (base q k r digit : ℕ)
    → r < base
    → ltb (base * q + r) ((q + suc k) * base + digit)
      ≡ (if ltb q (q + suc k) then true else q + suc k == q && ltb r digit)
exact_more base q k r digit h =
    let e = above_limit base r q k digit h in
    rw (bool_of_lt (base * q + r) ((q + suc k) * base + digit) e) (ground arith)

order_cases : (a b : ℕ) → (a ≡ b) ⊎ ((k : ℕ) × (b ≡ a + suc k)) ⊎ ((k : ℕ) × (a ≡ b + suc k))
order_cases zero zero = inl refl
order_cases zero (suc b) = inr (inl (b, omega arith))
order_cases (suc a) zero = inr (inr (a, omega arith))
order_cases (suc a) (suc b) = elim (order_cases a b) [
  | inl e ↦ inl (omega arith)
  | inr rest ↦ elim rest [
    | inl below ↦ inr (inl (below.0, omega (arith, below.1)))
    | inr above ↦ inr (inr (above.0, omega (arith, above.1)))
  ]
]

exact_parts :
    (base q r value digit : ℕ)
    → r < base
    → digit < base
    → ltb (base * q + r) (value * base + digit)
      ≡ (if ltb q value then true else value == q && ltb r digit)
exact_parts base q r value digit hr hd = elim (order_cases value q) [
  | inl e ↦ rw e (exact_same base q r digit)
  | inr rest ↦ elim rest [
    | inl below ↦ rw below.1 (exact_less base value below.0 r digit hd)
    | inr above ↦ rw above.1 (exact_more base q above.0 r digit hr)
  ]
]

value_grows : (base value : ℕ) (cs : Text) → 1 ≤ base → value ≤ value_from base value cs
unfolding value_from
value_grows base value [] h = omega arith
value_grows base value (c ∷ cs) h = elim (Option-cases (digit_of c)) [
  | inl bad ↦ rw (value_from, bad) (omega arith)
  | inr (d, good) ↦
      rw (value_from, good)
        (omega (arith, larger_step base value d h, value_grows base (value * base + d) cs h))
]

exact_test :
    (base limit value digit : ℕ)
    → digit < base
    → ltb limit (value * base + digit) ≡ (
        if ltb (limit / base) value
        then true
        else value == limit / base && ltb (limit % base) digit)
exact_test base limit value digit h =
    ap (λ n. ltb n (value * base + digit)) (sym (div-add-mod limit base))
    ∙ exact_parts base (limit / base) (limit % base) value digit (mod-lt limit (omega arith)) h

-- A value within the limit does not wrap.
no_wrap : (n limit : ℕ) → n ≤ limit → limit < 2 ^ 64 → n % 2 ^ 64 ≡ n
no_wrap n limit h lt = omega arith

above_false : (n total limit : ℕ) → ltb limit n ≡ true → n ≤ total → false ≡ leb total limit
above_false n total limit h le = ground arith

not_above : (n limit : ℕ) → ltb limit n ≡ false → n ≤ limit
not_above n limit h = ground arith

-- One turn: the two tests reject exactly a value above the limit.
turn_exact :
    (a b rest : Bool) (n total limit : ℕ)
    → ltb limit n ≡ (if a then true else b)
    → n ≤ total
    → (n ≤ limit → rest ≡ leb total limit)
    → (if a then false else if b then false else rest) ≡ leb total limit
turn_exact true b rest n total limit h le k = above_false n total limit h le
turn_exact false true rest n total limit h le k = above_false n total limit h le
turn_exact false false rest n total limit h le k = k (not_above n limit h)

fits_from-value :
    (base limit value : ℕ) (cs : Text)
    → IsNumeral base cs
    → value ≤ limit
    → limit < 2 ^ 64
    → fits_from base limit value cs ≡ leb (value_from base value cs) limit
unfolding fits_from value_from
fits_from-value base limit value [] h le lt = ground arith
fits_from-value base limit value (c ∷ cs) h le lt =
    rw (fits_from, value_from, h.0.1)
      (turn_exact (ltb (limit / base) value) (value == limit / base && ltb (limit % base) digit) _
        next total limit (exact_test base limit value digit h.0.2)
        (value_grows base next cs (omega (arith, h.0.2)))
        (λ within.
          ap (λ n. fits_from base limit n cs) (no_wrap next limit within lt)
          ∙ fits_from-value base limit next cs h.1 within lt))
  where
    digit : ℕ
    digit = h.0.0

    next : ℕ
    next = value * base + digit

    total : ℕ
    total = value_from base next cs

limit-lt : (allow : Bool) → limit_of allow < 2 ^ 64
limit-lt true = omega arith
limit-lt false = omega arith

-- For an integer literal whose characters, without underscores and the prefix, are digits of its
-- base, the check accepts exactly a value of at most 2^63, or one less where the caller says so; the
-- 64-bit accumulator never wraps before the answer.
pub integer_literal_fits_64_bits-value :
    (lexeme : Text) (allow : Bool)
    → IsNumeral (base_of (digits_of lexeme)) (after_prefix (digits_of lexeme))
    → integer_literal_fits_64_bits lexeme allow
      ≡ leb
          (value_from (base_of (digits_of lexeme)) 0 (after_prefix (digits_of lexeme)))
          (limit_of allow)
unfolding integer_literal_fits_64_bits
integer_literal_fits_64_bits-value lexeme allow h =
    fits_from-value (base_of (digits_of lexeme)) (limit_of allow) 0
      (after_prefix (digits_of lexeme)) h (omega arith) (limit-lt allow)
