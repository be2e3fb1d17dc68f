-- ===== src/Semantic/Subtype/Tests.antt =====
-- `is_subtype` on concrete types.
use cythonpp.Prelude.{
  ◌+◌, ◌≤◌, ◌≡◌, refl, ◌↔◌, true, false, none, some, [], ◌∷◌, arith, if◌then◌else◌,
}
use cythonpp.Prelude.Text.{text, text_eq}
use cythonpp.Semantic.Kind.{same_kind, kind_index, int, str, float, union}
use cythonpp.Semantic.PyType.{PyType, of_kind, parametric, list_of, callable_of, class_of, type_eq}
use cythonpp.Semantic.Builtin.{builtin_type_spelling, of_builtin_kind}
use cythonpp.Semantic.Subtype.{
  is_subtype, answer, rule_of, all_of, any_of, all_pairs, all_parameters, equivalent_by,
  numeric_rank, is_invariant_container, class_source, class_reaches, reaches,
}
use cythonpp.Semantic.Subtype.Chain.{
  ClassLookup, and_also, or_else, class_ancestor_chain, walk, chain_key, has_key,
}
use cythonpp.Semantic.Subtype.Rules.{Sub}
use cythonpp.Semantic.Subtype.Decided.{size, IsDecided}
use cythonpp.Semantic.Subtype.Complete.{is_subtype_iff-Sub}

abbrev int_or_str : PyType
int_or_str = parametric union (of_kind int ∷ of_kind str ∷ [])

abbrev str_or_int : PyType
str_or_int = parametric union (of_kind str ∷ of_kind int ∷ [])

fuel_is_enough : size (list_of int_or_str) + size (list_of str_or_int) ≤ 8
unfolding size
fuel_is_enough = omega arith

is_subtype_iff-Sub_example :
    ((is_subtype 8 none (list_of int_or_str) (list_of str_or_int) ≡ some true)
      ↔ Sub (list_of int_or_str) (list_of str_or_int))
    × IsDecided (is_subtype 8 none (list_of int_or_str) (list_of str_or_int))
is_subtype_iff-Sub_example =
    is_subtype_iff-Sub 8 (list_of int_or_str) (list_of str_or_int) fuel_is_enough

-- Lists of one union in two spellings are one type.
union_order : is_subtype 8 none (list_of int_or_str) (list_of str_or_int) ≡ some true
unfolding is_subtype answer rule_of all_of any_of all_pairs equivalent_by numeric_rank
    is_invariant_container same_kind kind_index type_eq text_eq and_also or_else
union_order = refl

-- Lists are invariant.
list_invariant : is_subtype 8 none (list_of (of_kind int)) (list_of (of_kind float)) ≡ some false
unfolding is_subtype answer rule_of all_of any_of all_pairs equivalent_by numeric_rank
    is_invariant_container same_kind kind_index type_eq text_eq and_also or_else
list_invariant = refl

-- A function of a float is a function of an int.
contravariant :
    is_subtype 8 none
      (callable_of (of_kind float ∷ []) (of_kind int) 0)
      (callable_of (of_kind int ∷ []) (of_kind float) 0)
    ≡ some true
unfolding is_subtype answer rule_of all_of any_of all_parameters equivalent_by numeric_rank
    is_invariant_container same_kind kind_index type_eq text_eq and_also or_else
contravariant = refl

-- `class IntList(list[int])` under an alias.
abbrev a_table : ClassLookup
a_table = record {
  is_class = λ name. text_eq name (text "IntList");
  bases_of = λ name. if text_eq name (text "IntList") then list_of (of_kind int) ∷ [] else [];
  canonical_name = λ name. if text_eq name (text "Ints") then text "IntList" else name;
}

through_base :
    is_subtype 8 (some a_table) (class_of (text "Ints")) (list_of (of_kind int)) ≡ some true
unfolding is_subtype answer rule_of all_of any_of all_pairs equivalent_by numeric_rank
    is_invariant_container same_kind kind_index type_eq text_eq and_also or_else class_source
    class_reaches reaches class_ancestor_chain walk chain_key has_key builtin_type_spelling
    of_builtin_kind
through_base = refl
