-- ===== src/Codegen.antt =====
-- src/domain/codegen/name_mangler.cpp and cpp_type_name.cpp: the C++ names of identifiers and types.
pub mod Words
pub mod Tests
use cythonpp.Prelude.{
  ℕ, Bool, true, false, ◌&&◌, ◌||◌, Option, none, some, List, [], ◌∷◌, ◌++◌, leb, ◌==◌,
}
use cythonpp.Prelude.Text.{Text, text}
use cythonpp.Semantic.Kind.{TypeKind, int, float, bool, str, none_type}
use cythonpp.Semantic.PyType.{PyType, kind_of}

abbrev pub is_ascii_letter_or_underscore : ℕ → Bool
is_ascii_letter_or_underscore c =
    (leb b'a' c && leb c b'z') || (leb b'A' c && leb c b'Z') || c == b'_'

abbrev pub is_ascii_digit : ℕ → Bool
is_ascii_digit c = leb b'0' c && leb c b'9'

abbrev pub is_name_byte : ℕ → Bool
is_name_byte c = is_ascii_letter_or_underscore c || is_ascii_digit c

unfoldable pub all_bytes : (ℕ → Bool) → Text → Bool
all_bytes test [] = true
all_bytes test (c ∷ cs) = test c && all_bytes test cs

unfoldable pub is_manglable_identifier : Text → Bool
unfolding all_bytes
is_manglable_identifier [] = false
is_manglable_identifier (c ∷ cs) =
    is_ascii_letter_or_underscore c && all_bytes is_name_byte (c ∷ cs)

unfoldable pub mangle : Text → Text
mangle identifier = text "cy_" ++ identifier

unfoldable pub cpp_kind_name : TypeKind → Option Text
cpp_kind_name int = some (text "py::int_")
cpp_kind_name float = some (text "py::float_")
cpp_kind_name bool = some (text "py::bool_")
cpp_kind_name str = some (text "py::str")
cpp_kind_name none_type = some (text "py::none_t")
cpp_kind_name _ = none

unfoldable pub cpp_type_name : PyType → Option Text
unfolding cpp_kind_name
cpp_type_name type = cpp_kind_name (kind_of type)
