-- ===== src/Semantic/Subtype/Base.antt =====
-- src/domain/semantic/type_compatibility.cpp: the builtin type that a class is or inherits.
use cythonpp.Prelude.{ℕ, ◌||◌, Option, none, some, List, [], ◌∷◌, if◌then◌else◌}
use cythonpp.Prelude.Text.{Text}
use cythonpp.Semantic.Kind.{same_kind, class, object}
use cythonpp.Semantic.PyType.{PyType, has_kind}
use cythonpp.Semantic.Builtin.{builtin_type_kind, builtin_base_type}
use cythonpp.Semantic.Subtype.Chain.{ClassLookup, class_ancestor_chain, ◌>>=◌}

-- The builtin that a name itself denotes, unless it is `object`.
unfoldable pub own_builtin : Text → Option PyType
unfolding builtin_type_kind builtin_base_type
own_builtin root = elim (builtin_type_kind root) [
  | none ↦ none
  | some kind ↦ if same_kind kind object then none else some (builtin_base_type kind)
]

-- The first step of a chain that is neither a class nor `object`.
unfoldable pub first_builtin : List PyType → Option PyType
first_builtin [] = none
first_builtin (step ∷ rest) =
    let later = first_builtin rest in
    if has_kind class step || has_kind object step then later else some step

-- The outer option is none where the ancestor walk ran out of fuel.
unfoldable pub builtin_base_of_class : ℕ → ClassLookup → Text → Option (Option PyType)
unfolding own_builtin first_builtin
builtin_base_of_class fuel classes name = elim (own_builtin (classes.canonical_name name)) [
  | some builtin ↦ some (some builtin)
  | none ↦ class_ancestor_chain fuel classes name >>= (λ chain. some (first_builtin chain))
]
