-- ===== src/Semantic/OperatorRules/Elements.antt =====
-- src/domain/semantic/operator_rules.cpp: what a subscript and what an iteration gives.
use cythonpp.Prelude.{
  ℕ, zero, suc, Bool, ◌||◌, not, Option, none, some, List, [], ◌∷◌, length, get_elem?,
  if◌then◌else◌,
}
use cythonpp.Prelude.Int.{ℤ, pos, pos_part, ◌+ℤ◌, ◌-ℤ◌, ltb_ℤ}
use cythonpp.Semantic.Kind.{
  TypeKind, unknown, int, str, bytes, bytearray, list, dict, set, frozenset, tuple, range, union,
  class,
}
use cythonpp.Semantic.PyType.{
  PyType, kind_of, name_of, args_of, to_list, has_kind, of_kind, union_of,
}
use cythonpp.Semantic.Subtype.{is_subtype}
use cythonpp.Semantic.Subtype.Chain.{ClassLookup, ◌>>=◌}
use cythonpp.Semantic.Subtype.Base.{builtin_base_of_class}
use cythonpp.Semantic.OperatorRules.Result.{
  RuleResult, ok, not_applicable, unsupported, UnsupportedReason, union_operand,
  user_class_operator, user_class_iteration, lift,
}
use cythonpp.Semantic.OperatorRules.Binary.{is_integral, either_kind}

-- What the builtin base of a class answers, where that is a type; otherwise a modelling limit.
unfoldable pub or_unsupported : UnsupportedReason → RuleResult → RuleResult
or_unsupported reason (ok type) = ok type
or_unsupported reason _ = unsupported reason

unfoldable pub inherited :
    UnsupportedReason → (PyType → Option RuleResult) → Option PyType → Option RuleResult
unfolding or_unsupported
inherited reason rule none = some (unsupported reason)
inherited reason rule (some base) = rule base >>= (λ answer. some (or_unsupported reason answer))

unfoldable pub class_rule :
    ℕ
    → Option ClassLookup
    → UnsupportedReason
    → (PyType → Option RuleResult)
    → PyType
    → Option RuleResult
unfolding builtin_base_of_class inherited
class_rule fuel none reason rule type = some (unsupported reason)
class_rule fuel (some classes) reason rule type =
    builtin_base_of_class fuel classes (name_of type) >>= (λ base. inherited reason rule base)

abbrev pub first_argument : List PyType → RuleResult
first_argument [] = not_applicable
first_argument (t ∷ ts) = ok t

abbrev pub any_element : List PyType → RuleResult
any_element [] = not_applicable
any_element (t ∷ ts) = ok (union_of (t ∷ ts))

-- A tuple at a literal index: within -size .. size - 1, a negative one counts from the back.
unfoldable pub tuple_at : List PyType → ℤ → RuleResult
unfolding ◌+ℤ◌ ◌-ℤ◌
tuple_at args index =
    let size = pos (length args) in
    let normalised = if ltb_ℤ index (pos 0) then index +ℤ size else index in
    if ltb_ℤ index (pos 0 -ℤ size) || not (ltb_ℤ index size)
    then not_applicable
    else lift (get_elem? args (pos_part normalised))

unfoldable pub tuple_element : List PyType → Option ℤ → RuleResult
unfolding tuple_at
tuple_element [] literal_index = not_applicable
tuple_element (t ∷ ts) none = any_element (t ∷ ts)
tuple_element (t ∷ ts) (some index) = tuple_at (t ∷ ts) index

-- A dict of two arguments takes a key of the first.
unfoldable pub dict_value : (PyType → Option Bool) → List PyType → Option RuleResult
dict_value is_key (k ∷ v ∷ []) = is_key k >>= (λ fits. some (if fits then ok v else not_applicable))
dict_value is_key args = some not_applicable

-- The containers that an integer subscripts, by kind.
unfoldable pub sequence_element : Option ℤ → TypeKind → List PyType → RuleResult
unfolding tuple_element
sequence_element literal_index list args = first_argument args
sequence_element literal_index str args = ok (of_kind str)
sequence_element literal_index bytes args = ok (of_kind int)
sequence_element literal_index bytearray args = ok (of_kind int)
sequence_element literal_index range args = ok (of_kind int)
sequence_element literal_index tuple args = tuple_element args literal_index
sequence_element literal_index _ args = not_applicable

-- none: the fuel ran out.
unfoldable pub subscript_result :
    ℕ → Option ClassLookup → Option ℤ → PyType → PyType → Option RuleResult
unfolding class_rule dict_value sequence_element is_subtype is_integral
subscript_result zero classes literal_index container index = none
subscript_result (suc fuel) classes literal_index container index =
    if either_kind unknown container index
    then some (ok (of_kind unknown))
    else if has_kind class container
    then class_rule fuel classes user_class_operator
        (λ base. subscript_result fuel classes literal_index base index) container
    else if has_kind union container
    then some (unsupported union_operand)
    else if has_kind dict container
    then dict_value (is_subtype fuel classes index) (to_list (args_of container))
    else if not (is_integral (kind_of index))
    then some not_applicable
    else some (sequence_element literal_index (kind_of container) (to_list (args_of container)))

-- What iterating a builtin gives, by kind.
unfoldable pub iterated : TypeKind → List PyType → RuleResult
iterated list args = first_argument args
iterated set args = first_argument args
iterated frozenset args = first_argument args
iterated dict args = first_argument args
iterated str args = ok (of_kind str)
iterated bytes args = ok (of_kind int)
iterated bytearray args = ok (of_kind int)
iterated range args = ok (of_kind int)
iterated tuple args = any_element args
iterated _ args = not_applicable

unfoldable pub element_type : ℕ → Option ClassLookup → PyType → Option RuleResult
unfolding class_rule iterated
element_type zero classes iterable = none
element_type (suc fuel) classes iterable =
    if has_kind unknown iterable
    then some (ok (of_kind unknown))
    else if has_kind union iterable
    then some (unsupported union_operand)
    else if has_kind class iterable
    then class_rule fuel classes user_class_iteration (λ base. element_type fuel classes base)
        iterable
    else some (iterated (kind_of iterable) (to_list (args_of iterable)))
