-- ===== src/Semantic/Narrowing/Merged.antt =====
-- What the join of narrowings gives a path, in terms of the types that the path has on the edges.
use cythonpp.Prelude.{ℕ, ◌≡◌, true, false, Option, none, some, List, [], ◌∷◌, ◌+◌, ◌≤◌, ◌⊎◌, ◌&&◌}
use cythonpp.Semantic.Kind.{union, object}
use cythonpp.Semantic.PyType.{PyType, args_of, to_list, has_kind, any_type, union_of}
use cythonpp.Semantic.Subtype.Rules.{Sub}
use cythonpp.Semantic.Subtype.Decided.{size}
use cythonpp.Semantic.Narrowing.LeastUpper.{IsJoin}
use cythonpp.Semantic.Narrowing.{NarrowedPath, NarrowingState, get, collapse_object_union}
use cythonpp.Semantic.Narrowing.Merge.{some_narrowed}

-- What a path has at the end of an edge: what the edge narrows it to, or its declared type.
unfoldable pub arrivals : List NarrowingState → NarrowedPath → PyType → List PyType
arrivals [] path declared = []
arrivals (edge ∷ edges) path declared =
    let later = arrivals edges path declared in
    elim (get edge path) [ none ↦ declared ∷ later | some narrowed ↦ narrowed ∷ later ]

-- Fuel for comparing what the edges make of a path that they narrow with its declared type.
abbrev pub IsEnough : ℕ → List NarrowingState → (NarrowedPath → Option PyType) → Type 0
IsEnough fuel edges declared_type_of =
    (q : NarrowedPath) (d : PyType)
    → declared_type_of q ≡ some d
    → some_narrowed q edges ≡ true
    → size (collapse_object_union (union_of (arrivals edges q d))) + size d ≤ fuel

-- The path has an entry with the type, which the declared one does not cover, or none, and the
-- declared type does as well.
abbrev pub IsKept : Option PyType → PyType → PyType → Type 0
IsKept entry v d =
    ((entry ≡ some v) × (Sub v d → Sub d v → ⊥)) ⊎ ((entry ≡ none) × Sub v d × Sub d v)

-- The least upper bound of the types, with no `object` inside a union.
abbrev pub IsMerged : List PyType → PyType → Type 0
IsMerged ts v =
    IsJoin ts v × ((has_kind union v && any_type (has_kind object) (to_list (args_of v))) ≡ false)
