-- ===== src/Semantic/OperatorRules/Unary.antt =====
-- src/domain/semantic/operator_rules.cpp: comparisons, the operators of one operand, and `and` and
-- `or`.
use cythonpp.Prelude.{
  ℕ, max, Bool, true, false, ◌&&◌, ◌||◌, not, Option, none, some, List, [], ◌∷◌, ◌==◌,
  if◌then◌else◌,
}
use cythonpp.Lexer.TokenType.{
  TokenType, op_plus, op_minus, op_tilde, op_not, op_and, op_or, op_equal, op_not_equal, op_is,
  op_is_not, op_in, op_not_in, op_less, op_less_equal, op_greater, op_greater_equal,
}
use cythonpp.Semantic.Kind.{
  TypeKind, same_kind, unknown, bool, int, str, bytes, bytearray, list, dict, set, frozenset, tuple,
  range, union, class,
}
use cythonpp.Semantic.PyType.{PyType, kind_of, has_kind, of_kind, union_of, any_type}
use cythonpp.Semantic.Subtype.{numeric_rank, is_equivalent}
use cythonpp.Semantic.Subtype.Chain.{◌>>=◌}
use cythonpp.Semantic.OperatorRules.Result.{
  RuleResult, ok, not_applicable, unsupported, union_operand, user_class_operator,
}
use cythonpp.Semantic.OperatorRules.Binary.{
  is_integral, is_byte_string, numeric_of_rank, either_kind, lifted,
}

unfoldable pub is_container : TypeKind → Bool
is_container list = true
is_container dict = true
is_container set = true
is_container frozenset = true
is_container tuple = true
is_container str = true
is_container bytes = true
is_container bytearray = true
is_container range = true
is_container _ = false

abbrev pub is_set_kind : TypeKind → Bool
is_set_kind set = true
is_set_kind frozenset = true
is_set_kind _ = false

abbrev pub is_string_kind : TypeKind → Bool
is_string_kind str = true
is_string_kind k = is_byte_string k

-- The outer option is none where `is_equivalent` ran out of fuel.
unfoldable pub ordered_result : ℕ → PyType → PyType → Option (Option PyType)
unfolding is_equivalent
ordered_result fuel left right =
    if not (numeric_rank (kind_of left) == 0) && not (numeric_rank (kind_of right) == 0)
    then some (some (of_kind bool))
    else if is_byte_string (kind_of left) && is_byte_string (kind_of right)
    then some (some (of_kind bool))
    else if is_set_kind (kind_of left) && is_set_kind (kind_of right)
    then some (some (of_kind bool))
    else if not (same_kind (kind_of left) (kind_of right))
    then some none
    else if is_string_kind (kind_of left)
    then some (some (of_kind bool))
    else (if has_kind list left then is_equivalent fuel none left right else some false)
      >>= (λ equivalent.
          if equivalent
          then some (some (of_kind bool))
          else some (if has_kind tuple left then some (of_kind bool) else none))

-- The labels of the switch over the operator.
pub data ComparisonArm : Type 0 where
  by_identity by_membership by_order no_comparison : ComparisonArm

unfoldable pub comparison_arm : TokenType → ComparisonArm
comparison_arm op_equal = by_identity
comparison_arm op_not_equal = by_identity
comparison_arm op_is = by_identity
comparison_arm op_is_not = by_identity
comparison_arm op_in = by_membership
comparison_arm op_not_in = by_membership
comparison_arm op_less = by_order
comparison_arm op_less_equal = by_order
comparison_arm op_greater = by_order
comparison_arm op_greater_equal = by_order
comparison_arm _ = no_comparison

unfoldable pub comparison_result : ℕ → TokenType → PyType → PyType → Option RuleResult
unfolding ordered_result is_container comparison_arm
comparison_result fuel op left right = elim (comparison_arm op) [
  | by_identity ↦ some (ok (of_kind bool))
  | by_membership ↦ some (
      if has_kind unknown right
      then ok (of_kind bool)
      else if has_kind class right
      then unsupported user_class_operator
      else if has_kind union right
      then unsupported union_operand
      else if is_container (kind_of right)
      then ok (of_kind bool)
      else not_applicable)
  | by_order ↦
      if either_kind unknown left right
      then some (ok (of_kind bool))
      else if either_kind class left right
      then some (unsupported user_class_operator)
      else if either_kind union left right
      then some (unsupported union_operand)
      else lifted (ordered_result fuel left right)
  | no_comparison ↦ some not_applicable
]

abbrev signed : PyType → RuleResult
signed operand =
    let rank = numeric_rank (kind_of operand) in
    if rank == 0 then not_applicable else ok (numeric_of_rank (max 2 rank))

-- The switch over the operator.
unfoldable pub unary_table : TokenType → PyType → RuleResult
unfolding is_integral
unary_table op_plus operand = signed operand
unary_table op_minus operand = signed operand
unary_table op_tilde operand =
    if is_integral (kind_of operand) then ok (of_kind int) else not_applicable
unary_table _ operand = not_applicable

abbrev is_not : TokenType → Bool
is_not op_not = true
is_not _ = false

unfoldable pub unary_result : TokenType → PyType → RuleResult
unfolding unary_table
unary_result op operand =
    if is_not op
    then ok (of_kind bool)
    else if has_kind unknown operand
    then ok (of_kind unknown)
    else if has_kind class operand
    then unsupported user_class_operator
    else if has_kind union operand
    then unsupported union_operand
    else unary_table op operand

abbrev is_boolop : TokenType → Bool
is_boolop op_and = true
is_boolop op_or = true
is_boolop _ = false

abbrev no_types : List PyType → Bool
no_types [] = true
no_types (t ∷ ts) = false

unfoldable pub boolop_result : TokenType → List PyType → RuleResult
unfolding any_type union_of
boolop_result op operands =
    if not (is_boolop op) || no_types operands
    then not_applicable
    else if any_type (has_kind unknown) operands
    then ok (of_kind unknown)
    else if any_type (has_kind union) operands
    then unsupported union_operand
    else ok (union_of operands)
