-- ===== src/Semantic/PyType/Tests.antt =====
-- Types at concrete values.
use cythonpp.Prelude.{◌≡◌, refl, inl, inr, ◌↔◌, true, false, [], ◌∷◌, ◌++◌, arith}
use cythonpp.Prelude.Text.{text_eq}
use cythonpp.Semantic.Kind.{same_kind, kind_index, int, str, none_type, union, unknown}
use cythonpp.Semantic.PyType.{
  PyType, of_kind, parametric, union_of, type_eq, has_kind, any_type, flatten, list_of, distinct,
  keep, set_of, frozenset_of, dict_of, tuple_of, callable_of,
}
use cythonpp.Semantic.PyType.Equality.{type_eq_iff}
use cythonpp.Semantic.PyType.Union.{IsProper, IsMemberList, union_of-IsProper, union_of-nested}

abbrev int_type : PyType
int_type = of_kind int

abbrev str_type : PyType
str_type = of_kind str

abbrev int_or_str : PyType
int_or_str = parametric union (int_type ∷ str_type ∷ [])

int_or_str_members : IsMemberList (int_type ∷ str_type ∷ [])
unfolding same_kind kind_index any_type type_eq
int_or_str_members = (omega arith, (refl, (refl, tt)), ((refl, refl), ((refl, refl), tt)))

int_or_str-IsProper : IsProper int_or_str
int_or_str-IsProper = inr int_or_str_members

int-IsProper : IsProper int_type
unfolding same_kind kind_index
int-IsProper = inl refl

none-IsProper : IsProper (of_kind none_type)
unfolding same_kind kind_index
none-IsProper = inl refl

type_eq_iff_example :
    (type_eq (list_of int_type) (list_of int_or_str) ≡ true)
    ↔ (list_of int_type ≡ list_of int_or_str)
type_eq_iff_example = type_eq_iff (list_of int_type) (list_of int_or_str)

union_of-IsProper_example : IsProper (union_of (int_or_str ∷ int_type ∷ []))
union_of-IsProper_example =
    union_of-IsProper (int_or_str ∷ int_type ∷ []) (int_or_str-IsProper, (int-IsProper, tt))

union_of-nested_example :
    union_of (union_of (int_or_str ∷ int_type ∷ []) ∷ of_kind none_type ∷ [])
    ≡ union_of ((int_or_str ∷ int_type ∷ []) ++ of_kind none_type ∷ [])
union_of-nested_example =
    union_of-nested int_or_str (int_type ∷ []) (of_kind none_type ∷ [])
      (int_or_str-IsProper, (int-IsProper, tt))

none_unknown : any_type (has_kind unknown) (flatten (int_or_str ∷ int_type ∷ [])) ≡ false
unfolding any_type flatten same_kind kind_index
none_unknown = refl

-- `(int | str) | int` is `int | str`, and `int | int` is `int`.
flattened : union_of (int_or_str ∷ int_type ∷ []) ≡ int_or_str
unfolding union_of flatten any_type distinct keep same_kind kind_index type_eq text_eq
flattened = refl

collapsed : union_of (int_type ∷ int_type ∷ []) ≡ int_type
unfolding union_of flatten any_type distinct keep same_kind kind_index type_eq text_eq
collapsed = refl

-- Containers and callables by their factories.
shapes_differ :
    type_eq (dict_of int_type str_type) (tuple_of (int_type ∷ str_type ∷ []))
    ≡ type_eq (set_of int_type) (frozenset_of int_type)
unfolding type_eq same_kind kind_index
shapes_differ = refl

defaults_differ :
    type_eq (callable_of (int_type ∷ []) str_type 0) (callable_of (int_type ∷ []) str_type 1)
    ≡ false
unfolding type_eq same_kind kind_index text_eq
defaults_differ = refl
