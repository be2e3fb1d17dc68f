-- ===== src/Semantic/PyType.antt =====
-- src/domain/semantic/type.h: a Python type, a constructor applied to arguments, and the factories
-- that build types.
pub mod Equality
pub mod Distinct
pub mod Union
pub mod Tests
use cythonpp.Prelude.{
  ℕ, zero, suc, Bool, true, false, ◌&&◌, ◌||◌, not, List, [], ◌∷◌, ◌++◌, ◌==◌, if◌then◌else◌,
}
use cythonpp.Prelude.Text.{Text, text_eq}
use cythonpp.Semantic.Kind.{
  TypeKind, same_kind, unknown, none_type, list, dict, set, frozenset, tuple, union, callable,
  class, object,
}

-- struct Type: the kind, the name of a class, the arguments, and how many parameters of a callable
-- have a default.
mutual
  pub data PyType : Type 0 where
    make : TypeKind → Text → Types → ℕ → PyType

  pub data Types : Type 0 where
    nil : Types
    cons : PyType → Types → Types

abbrev pub kind_of : PyType → TypeKind
kind_of (make k n as' d) = k

abbrev pub name_of : PyType → Text
name_of (make k n as' d) = n

abbrev pub args_of : PyType → Types
args_of (make k n as' d) = as'

abbrev pub defaulted_of : PyType → ℕ
defaulted_of (make k n as' d) = d

-- The vector of types as a list, and back.
abbrev pub to_list : Types → List PyType
to_list nil = []
to_list (cons t ts) = t ∷ to_list ts

abbrev pub of_list : List PyType → Types
of_list [] = nil
of_list (t ∷ ts) = cons t (of_list ts)

abbrev pub has_kind : TypeKind → PyType → Bool
has_kind k t = same_kind (kind_of t) k

-- `operator==`
unfoldable mutual
  pub type_eq : PyType → PyType → Bool
  type_eq (make k n as' d) (make l m bs e) =
      same_kind k l && text_eq n m && types_eq as' bs && (d == e)

  pub types_eq : Types → Types → Bool
  types_eq nil nil = true
  types_eq nil (cons u us) = false
  types_eq (cons t ts) nil = false
  types_eq (cons t ts) (cons u us) = type_eq t u && types_eq ts us

-- The private factories `of` and `parametric`.
abbrev pub of_kind : TypeKind → PyType
of_kind k = make k [] nil 0

abbrev pub parametric : TypeKind → List PyType → PyType
parametric k ts = make k [] (of_list ts) 0

abbrev pub callable_of : List PyType → PyType → ℕ → PyType
callable_of params result defaulted = make callable [] (of_list (params ++ result ∷ [])) defaulted

abbrev pub class_of : Text → PyType
class_of name = make class name nil 0

abbrev pub list_of : PyType → PyType
list_of element = parametric list (element ∷ [])

abbrev pub set_of : PyType → PyType
set_of element = parametric set (element ∷ [])

abbrev pub frozenset_of : PyType → PyType
frozenset_of element = parametric frozenset (element ∷ [])

abbrev pub dict_of : PyType → PyType → PyType
dict_of key value = parametric dict (key ∷ value ∷ [])

abbrev pub tuple_of : List PyType → PyType
tuple_of elements = parametric tuple elements

-- The first loop of `union_of`: the members of a nested union in its place.
abbrev pub spread : PyType → List PyType
spread member = if has_kind union member then to_list (args_of member) else member ∷ []

unfoldable pub flatten : List PyType → List PyType
flatten [] = []
flatten (member ∷ members) = spread member ++ flatten members

unfoldable pub any_type : (PyType → Bool) → List PyType → Bool
any_type test [] = false
any_type test (t ∷ ts) = test t || any_type test ts

-- The last loop: a candidate is kept where no kept one is equal.
unfoldable pub keep : List PyType → PyType → List PyType
unfolding any_type
keep kept candidate =
    if any_type (λ k. type_eq k candidate) kept then kept else kept ++ candidate ∷ []

unfoldable pub distinct : List PyType → List PyType → List PyType
unfolding keep
distinct kept [] = kept
distinct kept (candidate ∷ rest) = distinct (keep kept candidate) rest

abbrev pub collapse : List PyType → PyType
collapse [] = of_kind unknown
collapse (t ∷ []) = t
collapse (t ∷ u ∷ ts) = parametric union (t ∷ u ∷ ts)

unfoldable pub union_of : List PyType → PyType
unfolding flatten any_type distinct
union_of members =
    let flat = flatten members in
    if any_type (has_kind unknown) flat then of_kind unknown else collapse (distinct [] flat)
