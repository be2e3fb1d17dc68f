-- ===== src/Semantic/TypeName.antt =====
-- src/domain/semantic/type_name.cpp: a type as mypy writes it.
pub mod Synthetic
pub mod Tests
use cythonpp.Prelude.{
  ℕ, Bool, true, false, Option, none, some, List, [], ◌∷◌, ◌++◌, ◌==◌, if◌then◌else◌,
}
use cythonpp.Prelude.Text.{Text, text}
use cythonpp.Semantic.Kind.{
  TypeKind, unknown, none_type, bool, int, float, complex, str, bytes, bytearray, ellipsis, list,
  dict, set, frozenset, tuple, range, union, callable, class, object,
}
use cythonpp.Semantic.PyType.{PyType, Types, make, nil, cons}

-- Names, one after another, with a separator between.
unfoldable pub after_separator : Text → List Text → Text
after_separator separator [] = []
after_separator separator (name ∷ names) = separator ++ (name ++ after_separator separator names)

abbrev pub joined_names : Text → List Text → Text
joined_names separator [] = []
joined_names separator (name ∷ names) = name ++ after_separator separator names

abbrev parameterised : Text → List Text → Text
parameterised base [] = base
parameterised base (name ∷ names) =
    base ++ (text "[" ++ (joined_names (text ", ") (name ∷ names) ++ text "]"))

unfoldable pub all_but_last : List Text → List Text
all_but_last [] = []
all_but_last (name ∷ []) = []
all_but_last (name ∷ other ∷ names) = name ∷ all_but_last (other ∷ names)

unfoldable pub last_name : List Text → Text
last_name [] = []
last_name (name ∷ []) = name
last_name (name ∷ other ∷ names) = last_name (other ∷ names)

unfoldable pub callable_name : List Text → Text
unfolding after_separator all_but_last last_name
callable_name [] = text "Callable"
callable_name (name ∷ names) =
    text "Callable[["
    ++ (joined_names (text ", ") (all_but_last (name ∷ names))
        ++ (text "], " ++ (last_name (name ∷ names) ++ text "]")))

abbrev tuple_name : List Text → Text
tuple_name [] = text "tuple[()]"
tuple_name (name ∷ names) = parameterised (text "tuple") (name ∷ names)

-- What stands after the first place of a byte: `find`, and the text past it.
unfoldable pub after_byte : ℕ → Text → Option Text
after_byte wanted [] = none
after_byte wanted (c ∷ cs) =
    let later = after_byte wanted cs in if c == wanted then some cs else later

-- What stands after `#`, some number and `#`; otherwise the name itself.
unfoldable pub after_hashes : Text → Text → Text
unfolding after_byte
after_hashes name [] = name
after_hashes name (c ∷ cs) =
    if c == b'#' then elim (after_byte b'#' cs) [ none ↦ name | some rest ↦ rest ] else name

unfoldable pub strip_synthetic_class_prefix : Text → Text
unfolding after_byte after_hashes
strip_synthetic_class_prefix [] = []
strip_synthetic_class_prefix (c ∷ cs) =
    if c == b'<'
    then elim (after_byte b'>' (c ∷ cs)) [ none ↦ c ∷ cs | some rest ↦ after_hashes (c ∷ cs) rest ]
    else c ∷ cs

-- The switch over the kind, with the names of the arguments.
unfoldable pub kind_name : TypeKind → Text → List Text → Text
unfolding callable_name strip_synthetic_class_prefix after_separator
kind_name unknown name args = text "Unknown"
kind_name none_type name args = text "None"
kind_name bool name args = text "bool"
kind_name int name args = text "int"
kind_name float name args = text "float"
kind_name complex name args = text "complex"
kind_name str name args = text "str"
kind_name bytes name args = text "bytes"
kind_name bytearray name args = text "bytearray"
kind_name ellipsis name args = text "ellipsis"
kind_name list name args = parameterised (text "list") args
kind_name dict name args = parameterised (text "dict") args
kind_name set name args = parameterised (text "set") args
kind_name frozenset name args = parameterised (text "frozenset") args
kind_name tuple name args = tuple_name args
kind_name range name args = text "range"
kind_name union name args = joined_names (text " | ") args
kind_name callable name args = callable_name args
kind_name class name args = strip_synthetic_class_prefix name
kind_name object name args = text "object"

unfoldable mutual
  unfolding kind_name

  pub type_name : PyType → Text
  type_name (make k n ts d) = kind_name k n (type_names_of ts)

  pub type_names_of : Types → List Text
  type_names_of nil = []
  type_names_of (cons t ts) = type_name t ∷ type_names_of ts
