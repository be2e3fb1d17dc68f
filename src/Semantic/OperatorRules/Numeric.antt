-- ===== src/Semantic/OperatorRules/Numeric.antt =====
-- The arithmetic of the numeric tower.
use cythonpp.Prelude.{
  ℕ, max, ◌<◌, ◌≤◌, ◌≡◌, refl, ap, ◌∙◌, Bool, true, false, ◌||◌, ◌&&◌, some, [], ◌==◌, leb,
  Bool-cases, inl, inr, arith,
}
use cythonpp.Lexer.TokenType.{
  TokenType, op_plus, op_minus, op_star, op_slash, op_double_slash, op_double_star, op_percent,
}
use cythonpp.Semantic.Kind.{
  TypeKind, same_kind, kind_index, unknown, none_type, bool, int, float, complex, str, bytes,
  bytearray, ellipsis, list, dict, set, frozenset, tuple, range, union, callable, class, object,
}
use cythonpp.Semantic.PyType.{PyType, make, nil, kind_of}
use cythonpp.Semantic.Subtype.{numeric_rank}
use cythonpp.Semantic.Subtype.Rules.{Sub, wider}
use cythonpp.Semantic.OperatorRules.Result.{ok}
use cythonpp.Semantic.OperatorRules.Binary.{
  is_integral, numeric_of_rank, numeric_join, plus_result, star_result, true_divide_result,
  modulo_result, quotient, binary_table, binary_result,
}

rank_bound : (k : TypeKind) → numeric_rank k ≤ 4
unfolding numeric_rank
rank_bound unknown = omega arith
rank_bound none_type = omega arith
rank_bound bool = omega arith
rank_bound int = omega arith
rank_bound float = omega arith
rank_bound complex = omega arith
rank_bound str = omega arith
rank_bound bytes = omega arith
rank_bound bytearray = omega arith
rank_bound ellipsis = omega arith
rank_bound list = omega arith
rank_bound dict = omega arith
rank_bound set = omega arith
rank_bound frozenset = omega arith
rank_bound tuple = omega arith
rank_bound range = omega arith
rank_bound union = omega arith
rank_bound callable = omega arith
rank_bound class = omega arith
rank_bound object = omega arith

-- A number is none of the kinds that the guards ask for.
unguarded :
    (k : TypeKind)
    → 0 < numeric_rank k
    → (same_kind k unknown ≡ false)
      × (same_kind k union ≡ false)
      × (same_kind k class ≡ false)
      × (same_kind k tuple ≡ false)
unfolding numeric_rank same_kind kind_index
unguarded unknown h = absurd (omega arith)
unguarded none_type h = absurd (omega arith)
unguarded bool h = (refl, refl, refl, refl)
unguarded int h = (refl, refl, refl, refl)
unguarded float h = (refl, refl, refl, refl)
unguarded complex h = (refl, refl, refl, refl)
unguarded str h = absurd (omega arith)
unguarded bytes h = absurd (omega arith)
unguarded bytearray h = absurd (omega arith)
unguarded ellipsis h = absurd (omega arith)
unguarded list h = absurd (omega arith)
unguarded dict h = absurd (omega arith)
unguarded set h = absurd (omega arith)
unguarded frozenset h = absurd (omega arith)
unguarded tuple h = absurd (omega arith)
unguarded range h = absurd (omega arith)
unguarded union h = absurd (omega arith)
unguarded callable h = absurd (omega arith)
unguarded class h = absurd (omega arith)
unguarded object h = absurd (omega arith)

numeric_of_rank-Sub :
    (r : ℕ) (s : PyType)
    → 2 ≤ r
    → r ≤ 4
    → 0 < numeric_rank (kind_of s)
    → numeric_rank (kind_of s) ≤ r
    → Sub s (numeric_of_rank r)
unfolding numeric_rank
numeric_of_rank-Sub r (make k n ts d) two four number below = elim (Bool-cases (leb 4 r)) [
  | inl e ↦ rw e (wider k complex n [] ts nil d 0 number (omega (arith, rank_bound k)))
  | inr e ↦ elim (Bool-cases (r == 3)) [
    | inl f ↦ rw (e, f) (wider k float n [] ts nil d 0 number (ground (arith, below, f)))
    | inr f ↦
        rw (e, f) (wider k int n [] ts nil d 0 number (ground (arith, below, two, four, e, f)))
  ]
]

-- The operators that take two numbers of any rank.
pub data Arithmetic : TokenType → Type 0 where
  adds : Arithmetic op_plus
  subtracts : Arithmetic op_minus
  multiplies : Arithmetic op_star
  divides : Arithmetic op_slash
  floors : Arithmetic op_double_slash
  reduces : Arithmetic op_percent
  raises : Arithmetic op_double_star

abbrev joined_rank : PyType → PyType → ℕ
joined_rank left right = max 2 (max (numeric_rank (kind_of left)) (numeric_rank (kind_of right)))

numeric_join-some :
    (left right : PyType)
    → 0 < numeric_rank (kind_of left)
    → 0 < numeric_rank (kind_of right)
    → numeric_join left right ≡ some (numeric_of_rank (joined_rank left right))
unfolding numeric_join
numeric_join-some left right l r =
    elim (Bool-cases (numeric_rank (kind_of left) == 0 || numeric_rank (kind_of right) == 0)) [
      | inl clash ↦ absurd (ground (arith, clash, l, r))
      | inr plain ↦ rw plain refl
    ]

-- The least rank of an operator's result: `/` leaves the integers.
abbrev least_rank : {op : TokenType} → Arithmetic op → ℕ
least_rank divides = 3
least_rank _ = 2

quotient-numeric_of_rank : (r : ℕ) → quotient (numeric_of_rank r) ≡ numeric_of_rank (max 3 r)
unfolding same_kind kind_index
quotient-numeric_of_rank r = ground arith

at_rank : (r n : ℕ) → r ≡ n → some (ok (numeric_of_rank r)) ≡ some (ok (numeric_of_rank n))
at_rank r n e = ap (λ m. some (ok (numeric_of_rank m))) e

table_sum :
    (fuel : ℕ) (op : TokenType) (left right : PyType) (r : ℕ) (a : Arithmetic op)
    → 2 ≤ r
    → numeric_join left right ≡ some (numeric_of_rank r)
    → binary_table fuel op left right ≡ some (ok (numeric_of_rank (max (least_rank a) r)))
unfolding binary_table plus_result star_result true_divide_result modulo_result
table_sum fuel op left right r adds two h =
    let plain : binary_table fuel op_plus left right ≡ some (ok (numeric_of_rank r)) = rw h refl in
    plain ∙ at_rank r (max 2 r) (omega arith)
table_sum fuel op left right r subtracts two h =
    let plain : binary_table fuel op_minus left right ≡ some (ok (numeric_of_rank r)) = rw h refl in
    plain ∙ at_rank r (max 2 r) (omega arith)
table_sum fuel op left right r multiplies two h =
    let plain : binary_table fuel op_star left right ≡ some (ok (numeric_of_rank r)) = rw h refl in
    plain ∙ at_rank r (max 2 r) (omega arith)
table_sum fuel op left right r floors two h =
    let plain : binary_table fuel op_double_slash left right ≡ some (ok (numeric_of_rank r)) =
      rw h refl in
    plain ∙ at_rank r (max 2 r) (omega arith)
table_sum fuel op left right r reduces two h =
    let plain : binary_table fuel op_percent left right ≡ some (ok (numeric_of_rank r)) =
      rw h refl in
    plain ∙ at_rank r (max 2 r) (omega arith)
table_sum fuel op left right r raises two h =
    let plain : binary_table fuel op_double_star left right ≡ some (ok (numeric_of_rank r)) =
      rw h refl in
    plain ∙ at_rank r (max 2 r) (omega arith)
table_sum fuel op left right r divides two h =
    let plain : binary_table fuel op_slash left right ≡ some (ok (quotient (numeric_of_rank r))) =
      rw (binary_table, true_divide_result, h) refl in
    plain ∙ ap (λ t. some (ok t)) (quotient-numeric_of_rank r)

least_bound : {op : TokenType} (a : Arithmetic op) → least_rank a ≤ 3
least_bound adds = omega arith
least_bound subtracts = omega arith
least_bound multiplies = omega arith
least_bound divides = omega arith
least_bound floors = omega arith
least_bound reduces = omega arith
least_bound raises = omega arith

and_false : (b : Bool) → (b && false) ≡ false
and_false true = refl
and_false false = refl

binary_result-table :
    (fuel : ℕ) (op : TokenType) (left right : PyType)
    → 0 < numeric_rank (kind_of left)
    → 0 < numeric_rank (kind_of right)
    → binary_result fuel op left right ≡ binary_table fuel op left right
unfolding binary_result
binary_result-table fuel op left right l r =
    let a = unguarded (kind_of left) l in
    let b = unguarded (kind_of right) r in
    rw (a.0, b.0, a.1, b.1, a.2, b.2, a.3, b.3, and_false (is_integral (kind_of left))) refl

-- Sums, differences, products, quotients, floor quotients, remainders and powers of two numbers are
-- typed by a type where both operands' types are usable, and by the same one in the other order.
pub binary_result-Sub :
    (fuel : ℕ) (op : TokenType) (left right : PyType)
    → Arithmetic op
    → 0 < numeric_rank (kind_of left)
    → 0 < numeric_rank (kind_of right)
    → (t : PyType) × (binary_result fuel op left right ≡ some (ok t))
      × (binary_result fuel op right left ≡ some (ok t))
      × Sub left t
      × Sub right t
binary_result-Sub fuel op left right a l r =
    let joined = joined_rank left right in
    let top = max (least_rank a) joined in
    let swapped : joined_rank right left ≡ joined = omega arith in
    let lb = rank_bound (kind_of left) in
    let rb = rank_bound (kind_of right) in
    let least = least_bound a in
    (
      numeric_of_rank top,
      binary_result-table fuel op left right l r
          ∙ table_sum fuel op left right joined a (omega arith) (numeric_join-some left right l r),
      binary_result-table fuel op right left r l
          ∙ table_sum fuel op right left joined a (omega arith)
              (numeric_join-some right left r l ∙ ap (λ n. some (numeric_of_rank n)) swapped),
      numeric_of_rank-Sub top left (omega arith) (omega (arith, lb, rb, least)) l (omega arith),
      numeric_of_rank-Sub top right (omega arith) (omega (arith, lb, rb, least)) r (omega arith),
    )
