-- ===== src/Semantic/Builtin/Tests.antt =====
-- The table of builtin names at concrete names.
use cythonpp.Prelude.{◌≡◌, refl, ◌↔◌, some}
use cythonpp.Prelude.Text.{text, text_eq}
use cythonpp.Semantic.Kind.{dict}
use cythonpp.Semantic.PyType.{class_of}
use cythonpp.Semantic.Builtin.{
  builtin_type_kind, builtin_type_spelling, builtin_type_arity, builtin_type_named, named,
  base_type_for_name, fixed,
}
use cythonpp.Semantic.Builtin.Laws.{builtin_type_kind_iff}

builtin_type_kind_iff_example :
    (builtin_type_kind (text "dict") ≡ some dict)
    ↔ (builtin_type_spelling dict ≡ some (text "dict"))
builtin_type_kind_iff_example = builtin_type_kind_iff (text "dict") dict

dict_takes_two : builtin_type_arity (text "dict") ≡ fixed 2
unfolding builtin_type_arity builtin_type_named named text_eq
dict_takes_two = refl

a_class : base_type_for_name (text "Widget") ≡ class_of (text "Widget")
unfolding base_type_for_name builtin_type_kind builtin_type_named named text_eq
a_class = refl
