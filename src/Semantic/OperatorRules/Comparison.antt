-- ===== src/Semantic/OperatorRules/Comparison.antt =====
-- What comparisons answer, against a relation on the operands' types.
use cythonpp.Prelude.{◌<◌, ◌≡◌, true, false, Option, some, [], ◌∷◌, ◌⊎◌, arith}
use cythonpp.Lexer.TokenType.{
  TokenType, op_equal, op_not_equal, op_is, op_is_not, op_in, op_not_in, op_less, op_less_equal,
  op_greater, op_greater_equal,
}
use cythonpp.Semantic.Kind.{TypeKind, same_kind, unknown, bool, str, list, tuple, union, class}
use cythonpp.Semantic.PyType.{PyType, kind_of, has_kind, of_kind}
use cythonpp.Semantic.Subtype.{numeric_rank}
use cythonpp.Semantic.Subtype.Rules.{Sub}
use cythonpp.Semantic.OperatorRules.Result.{RuleResult, ok, not_applicable}
use cythonpp.Semantic.OperatorRules.Binary.{is_byte_string}
use cythonpp.Semantic.OperatorRules.Elements.{iterated}
use cythonpp.Semantic.OperatorRules.Unary.{is_set_kind}

-- The comparisons, by what they ask.
pub data Comparison : TokenType → Type 0 where
  equal : Comparison op_equal
  not_equal : Comparison op_not_equal
  same : Comparison op_is
  not_same : Comparison op_is_not
  member : Comparison op_in
  no_member : Comparison op_not_in
  less : Comparison op_less
  less_equal : Comparison op_less_equal
  greater : Comparison op_greater
  greater_equal : Comparison op_greater_equal

-- The types whose values Python orders.
pub data Ordered : PyType → PyType → Type 0 where
  numbers :
      (s t : PyType) → 0 < numeric_rank (kind_of s) → 0 < numeric_rank (kind_of t) → Ordered s t
  byte_strings :
      (s t : PyType)
      → is_byte_string (kind_of s) ≡ true
      → is_byte_string (kind_of t) ≡ true
      → Ordered s t
  sets :
      (s t : PyType) → is_set_kind (kind_of s) ≡ true → is_set_kind (kind_of t) ≡ true → Ordered s t
  strings : (s t : PyType) → has_kind str s ≡ true → has_kind str t ≡ true → Ordered s t
  lists :
      (s t : PyType)
      → has_kind list s ≡ true
      → has_kind list t ≡ true
      → Sub s t
      → Sub t s
      → Ordered s t
  tuples : (s t : PyType) → has_kind tuple s ≡ true → has_kind tuple t ≡ true → Ordered s t

-- Iterating a value of the kind gives something, whatever its type's arguments are.
abbrev pub IsIterable : TypeKind → Type 0
IsIterable k = (t : PyType) → (u : PyType) × (iterated k (t ∷ []) ≡ ok u)

-- When a comparison applies.
abbrev pub Relates : {op : TokenType} → Comparison op → PyType → PyType → Type 0
Relates equal s t = Unit
Relates not_equal s t = Unit
Relates same s t = Unit
Relates not_same s t = Unit
Relates member s t = IsIterable (kind_of t)
Relates no_member s t = IsIterable (kind_of t)
Relates less s t = Ordered s t
Relates less_equal s t = Ordered s t
Relates greater s t = Ordered s t
Relates greater_equal s t = Ordered s t

-- None of the kinds for which the rules defer or absorb.
abbrev pub IsPlain : TypeKind → Type 0
IsPlain k =
    (same_kind k unknown ≡ false) × (same_kind k class ≡ false) × (same_kind k union ≡ false)

-- The answer is a bool where the relation holds, and not applicable where it does not.
abbrev pub Decides : Type 0 → Option RuleResult → Type 0
Decides relation answer =
    ((answer ≡ some (ok (of_kind bool))) × relation)
    ⊎ ((answer ≡ some not_applicable) × (relation → ⊥))

pub unordered :
    (s t : PyType)
    → numeric_rank (kind_of s) ≡ 0
    → is_byte_string (kind_of s) ≡ false
    → is_set_kind (kind_of s) ≡ false
    → has_kind str s ≡ false
    → has_kind list s ≡ false
    → has_kind tuple s ≡ false
    → Ordered s t
    → ⊥
unordered s t r b st c l u (numbers _ _ x y) = omega arith
unordered s t r b st c l u (byte_strings _ _ x y) = cc
unordered s t r b st c l u (sets _ _ x y) = cc
unordered s t r b st c l u (strings _ _ x y) = cc
unordered s t r b st c l u (lists _ _ x y p q) = cc
unordered s t r b st c l u (tuples _ _ x y) = cc
