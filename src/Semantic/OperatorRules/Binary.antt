-- ===== src/Semantic/OperatorRules/Binary.antt =====
-- src/domain/semantic/operator_rules.cpp: the operators of two operands.
use cythonpp.Prelude.{
  ℕ, max, Bool, true, false, ◌&&◌, ◌||◌, not, Option, none, some, List, [], ◌∷◌, ◌++◌, leb, ◌==◌,
  length, if◌then◌else◌,
}
use cythonpp.Lexer.TokenType.{
  TokenType, op_plus, op_minus, op_star, op_slash, op_double_slash, op_double_star, op_percent,
  op_ampersand, op_pipe, op_caret, op_left_shift, op_right_shift,
}
use cythonpp.Semantic.Kind.{
  TypeKind, unknown, bool, int, float, complex, str, bytes, bytearray, list, dict, set, frozenset,
  tuple, union, class,
}
use cythonpp.Semantic.PyType.{
  PyType, kind_of, args_of, to_list, has_kind, of_kind, list_of, dict_of, tuple_of, union_of,
}
use cythonpp.Semantic.Subtype.{numeric_rank, is_equivalent}
use cythonpp.Semantic.Subtype.Chain.{◌>>=◌}
use cythonpp.Semantic.OperatorRules.Result.{
  RuleResult, ok, not_applicable, unsupported, union_operand, user_class_operator, tuple_repeat,
  lift,
}

unfoldable pub is_integral : TypeKind → Bool
is_integral bool = true
is_integral int = true
is_integral _ = false

abbrev pub is_byte_string : TypeKind → Bool
is_byte_string bytes = true
is_byte_string bytearray = true
is_byte_string _ = false

abbrev pub numeric_of_rank : ℕ → PyType
numeric_of_rank rank =
    if leb 4 rank then of_kind complex else if rank == 3 then of_kind float else of_kind int

-- The tower's join, no lower than int.
unfoldable pub numeric_join : PyType → PyType → Option PyType
numeric_join left right =
    let left_rank = numeric_rank (kind_of left) in
    let right_rank = numeric_rank (kind_of right) in
    if left_rank == 0 || right_rank == 0
    then none
    else some (numeric_of_rank (max 2 (max left_rank right_rank)))

-- An answer where there is one, or another.
abbrev pub or_answer : Option PyType → Option PyType → Option PyType
or_answer none other = other
or_answer (some type) other = some type

-- Two lists of one element type each.
unfoldable pub list_sum : List PyType → List PyType → Option PyType
list_sum (a ∷ []) (b ∷ []) = some (list_of (union_of (a ∷ b ∷ [])))
list_sum as' bs = none

abbrev concatenation : PyType → PyType → Option PyType
concatenation left right =
    if has_kind str left && has_kind str right
    then some (of_kind str)
    else if is_byte_string (kind_of left) && is_byte_string (kind_of right)
    then some (if has_kind bytes left then of_kind bytes else of_kind bytearray)
    else if has_kind list left
        && has_kind list right
        && length (to_list (args_of left)) == 1
        && length (to_list (args_of right)) == 1
    then list_sum (to_list (args_of left)) (to_list (args_of right))
    else if has_kind tuple left && has_kind tuple right
    then some (tuple_of (to_list (args_of left) ++ to_list (args_of right)))
    else none

unfoldable pub plus_result : PyType → PyType → Option PyType
unfolding numeric_join list_sum
plus_result left right = or_answer (numeric_join left right) (concatenation left right)

abbrev is_repeatable : TypeKind → Bool
is_repeatable str = true
is_repeatable bytes = true
is_repeatable bytearray = true
is_repeatable list = true
is_repeatable _ = false

abbrev repetition : PyType → PyType → Option PyType
repetition left right =
    let sequence = if is_integral (kind_of left) then right else left in
    let count = if is_integral (kind_of left) then left else right in
    if not (is_integral (kind_of count))
    then none
    else if is_repeatable (kind_of sequence)
    then some sequence
    else none

unfoldable pub star_result : PyType → PyType → Option PyType
unfolding numeric_join is_integral
star_result left right = or_answer (numeric_join left right) (repetition left right)

abbrev pub quotient : PyType → PyType
quotient numeric = if has_kind complex numeric then of_kind complex else of_kind float

unfoldable pub true_divide_result : PyType → PyType → Option PyType
unfolding numeric_join
true_divide_result left right = elim (numeric_join left right) [
  | none ↦ none
  | some numeric ↦ some (quotient numeric)
]

abbrev format_result : PyType → Option PyType
format_result left =
    if has_kind str left
    then some (of_kind str)
    else if is_byte_string (kind_of left)
    then some (of_kind bytes)
    else none

unfoldable pub modulo_result : PyType → PyType → Option PyType
unfolding numeric_join
modulo_result left right = or_answer (numeric_join left right) (format_result left)

unfoldable pub integer_only_result : PyType → PyType → Option PyType
unfolding is_integral
integer_only_result left right =
    if is_integral (kind_of left) && is_integral (kind_of right) then some (of_kind int) else none

abbrev same_set_kind : PyType → PyType → Bool
same_set_kind left right =
    (has_kind set left && has_kind set right)
    || (has_kind frozenset left && has_kind frozenset right)

-- The outer option is none where `is_equivalent` ran out of fuel.
unfoldable pub intersection_or_union_result : ℕ → PyType → PyType → Option (Option PyType)
unfolding is_integral is_equivalent
intersection_or_union_result fuel left right =
    if is_integral (kind_of left) && is_integral (kind_of right)
    then some (some (of_kind int))
    else if same_set_kind left right
    then is_equivalent fuel none left right >>= (λ same. some (if same then some left else none))
    else some none

-- Keys and values, each the union of both sides'.
unfoldable pub dict_sum : List PyType → List PyType → Option PyType
dict_sum (k ∷ v ∷ []) (l ∷ w ∷ []) = some (dict_of (union_of (k ∷ l ∷ [])) (union_of (v ∷ w ∷ [])))
dict_sum as' bs = none

unfoldable pub dict_union_result : PyType → PyType → Option PyType
unfolding dict_sum
dict_union_result left right =
    if has_kind dict left && has_kind dict right
    then dict_sum (to_list (args_of left)) (to_list (args_of right))
    else none

-- A rule's answer, where the fuel was enough.
abbrev pub lifted : Option (Option PyType) → Option RuleResult
lifted none = none
lifted (some answer) = some (lift answer)

-- The switch over the operator.
unfoldable pub binary_table : ℕ → TokenType → PyType → PyType → Option RuleResult
unfolding plus_result star_result true_divide_result modulo_result intersection_or_union_result
    dict_union_result integer_only_result numeric_join
binary_table fuel op_plus left right = some (lift (plus_result left right))
binary_table fuel op_minus left right = some (lift (numeric_join left right))
binary_table fuel op_star left right = some (lift (star_result left right))
binary_table fuel op_slash left right = some (lift (true_divide_result left right))
binary_table fuel op_double_slash left right = some (lift (numeric_join left right))
binary_table fuel op_double_star left right = some (lift (numeric_join left right))
binary_table fuel op_percent left right = some (lift (modulo_result left right))
binary_table fuel op_ampersand left right = lifted (intersection_or_union_result fuel left right)
binary_table fuel op_pipe left right = elim (dict_union_result left right) [
  | some dicts ↦ some (ok dicts)
  | none ↦ lifted (intersection_or_union_result fuel left right)
]
binary_table fuel op_caret left right = some (lift (integer_only_result left right))
binary_table fuel op_left_shift left right = some (lift (integer_only_result left right))
binary_table fuel op_right_shift left right = some (lift (integer_only_result left right))
binary_table fuel _ left right = some not_applicable

abbrev pub either_kind : TypeKind → PyType → PyType → Bool
either_kind k left right = has_kind k left || has_kind k right

abbrev is_star : TokenType → Bool
is_star op_star = true
is_star _ = false

abbrev pub is_tuple_repeat : PyType → PyType → Bool
is_tuple_repeat left right =
    (has_kind tuple left && is_integral (kind_of right))
    || (is_integral (kind_of left) && has_kind tuple right)

-- The guards before the switch, in their order.
unfoldable pub binary_result : ℕ → TokenType → PyType → PyType → Option RuleResult
unfolding binary_table is_integral
binary_result fuel op left right =
    if either_kind unknown left right
    then some (ok (of_kind unknown))
    else if either_kind union left right
    then some (unsupported union_operand)
    else if either_kind class left right
    then some (unsupported user_class_operator)
    else if is_tuple_repeat left right && is_star op
    then some (unsupported tuple_repeat)
    else binary_table fuel op left right
