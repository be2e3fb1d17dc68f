-- ===== src/Semantic/TypeName/Tests.antt =====
-- Concrete types, written.
use cythonpp.Prelude.{ℕ, ◌≡◌, refl, false, [], ◌∷◌, ◌==◌}
use cythonpp.Prelude.Text.{text}
use cythonpp.Semantic.Kind.{int, str, none_type}
use cythonpp.Semantic.PyType.{of_kind, callable_of, tuple_of}
use cythonpp.Semantic.TypeName.{
  type_name, kind_name, callable_name, after_separator, all_but_last, last_name,
  strip_synthetic_class_prefix,
}
use cythonpp.Semantic.TypeName.Synthetic.{lacks, strip_synthetic_class_prefix-key}

strip_synthetic_class_prefix-key_example :
    (strip_synthetic_class_prefix (text "<a.py>#12#Widget") ≡ text "Widget")
    × ((c : ℕ)
        → (c == b'<') ≡ false
        → strip_synthetic_class_prefix (c ∷ text "Widget") ≡ c ∷ text "Widget")
unfolding lacks
strip_synthetic_class_prefix-key_example =
    strip_synthetic_class_prefix-key (text "a.py") (text "12") (text "Widget") refl refl

function_name :
    type_name (callable_of (of_kind int ∷ of_kind str ∷ []) (of_kind none_type) 0)
    ≡ text "Callable[[int, str], None]"
unfolding type_name kind_name callable_name after_separator all_but_last last_name
function_name = refl

empty_tuple : type_name (tuple_of []) ≡ text "tuple[()]"
unfolding type_name kind_name
empty_tuple = refl
