-- ===== src/Semantic/Builtin.antt =====
-- src/domain/semantic/builtin_type_names.cpp: the table of builtin type names, and its readings.
pub mod Laws
pub mod Tests
use cythonpp.Prelude.{Bool, true, false, Option, none, some, List, [], ◌∷◌, ℕ, if◌then◌else◌}
use cythonpp.Prelude.Text.{Text, text, text_eq}
use cythonpp.Semantic.Kind.{
  TypeKind, same_kind, unknown, none_type, bool, int, float, complex, str, bytes, bytearray,
  ellipsis, list, dict, set, frozenset, tuple, range, union, callable, class, object,
}
use cythonpp.Semantic.PyType.{PyType, of_kind, class_of}

-- How many type arguments a name takes; `variadic` is kVariadicArity.
pub data Arity : Type 0 where
  fixed : ℕ → Arity
  variadic : Arity

pub record BuiltinTypeName : Type 0 where
  pub spelling : Text
  pub kind : TypeKind
  pub arity : Arity

abbrev row : Text → TypeKind → Arity → BuiltinTypeName
row spelling kind arity = record { spelling = spelling; kind = kind; arity = arity }

abbrev pub builtin_type_names : List BuiltinTypeName
builtin_type_names =
    row (text "bool") bool (fixed 0)
    ∷ row (text "bytearray") bytearray (fixed 0)
    ∷ row (text "bytes") bytes (fixed 0)
    ∷ row (text "complex") complex (fixed 0)
    ∷ row (text "dict") dict (fixed 2)
    ∷ row (text "float") float (fixed 0)
    ∷ row (text "frozenset") frozenset (fixed 1)
    ∷ row (text "int") int (fixed 0)
    ∷ row (text "list") list (fixed 1)
    ∷ row (text "object") object (fixed 0)
    ∷ row (text "range") range (fixed 0)
    ∷ row (text "set") set (fixed 1)
    ∷ row (text "str") str (fixed 0)
    ∷ row (text "tuple") tuple variadic
    ∷ []

unfoldable pub named : List BuiltinTypeName → Text → Option BuiltinTypeName
named [] spelling = none
named (entry ∷ rest) spelling =
    let later = named rest spelling in if text_eq spelling entry.spelling then some entry else later

unfoldable pub of_builtin_kind : List BuiltinTypeName → TypeKind → Option BuiltinTypeName
of_builtin_kind [] kind = none
of_builtin_kind (entry ∷ rest) kind =
    let later = of_builtin_kind rest kind in if same_kind entry.kind kind then some entry else later

unfoldable pub builtin_type_named : Text → Option BuiltinTypeName
unfolding named
builtin_type_named spelling = named builtin_type_names spelling

abbrev pub mapped {ℓ κ} : {A : Type ℓ} {B : Type κ} → (A → B) → Option A → Option B
mapped f none = none
mapped f (some a) = some (f a)

unfoldable pub builtin_type_kind : Text → Option TypeKind
unfolding builtin_type_named
builtin_type_kind name = mapped (λ e. e.kind) (builtin_type_named name)

unfoldable pub builtin_type_arity : Text → Arity
unfolding builtin_type_named
builtin_type_arity name = elim (builtin_type_named name) [ none ↦ fixed 0 | some e ↦ e.arity ]

unfoldable pub builtin_type_spelling : TypeKind → Option Text
unfolding of_builtin_kind
builtin_type_spelling kind = mapped (λ e. e.spelling) (of_builtin_kind builtin_type_names kind)

-- Every arm of the switch builds the type of the kind with no name and no arguments.
unfoldable pub builtin_base_type : TypeKind → PyType
builtin_base_type kind = of_kind kind

unfoldable pub base_type_for_name : Text → PyType
unfolding builtin_type_kind builtin_base_type
base_type_for_name name = elim (builtin_type_kind name) [
  | some kind ↦ builtin_base_type kind
  | none ↦ class_of name
]
