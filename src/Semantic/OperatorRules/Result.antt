-- ===== src/Semantic/OperatorRules/Result.antt =====
-- src/domain/semantic/rule_result.h and rule_result.cpp: what a rule answers.
use cythonpp.Prelude.{Option, none, some}
use cythonpp.Prelude.Text.{Text, text}
use cythonpp.Semantic.PyType.{PyType}

pub data UnsupportedReason : Type 0 where
  union_operand user_class_operator user_class_iteration tuple_repeat : UnsupportedReason

-- A status with the field that it needs, by the three factories.
pub data RuleResult : Type 0 where
  ok : PyType → RuleResult
  not_applicable : RuleResult
  unsupported : UnsupportedReason → RuleResult

unfoldable pub unsupported_message : UnsupportedReason → Text
unsupported_message union_operand =
    text "operations on a union-typed value require narrowing, which is not supported"
unsupported_message user_class_operator =
    text "operators on user-defined class instances are not supported"
unsupported_message user_class_iteration =
    text "iterating an instance of a user-defined class is not supported"
unsupported_message tuple_repeat = text "repeating a tuple by an integer is not supported"

abbrev pub lift : Option PyType → RuleResult
lift none = not_applicable
lift (some type) = ok type
