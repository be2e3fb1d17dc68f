-- ===== src/Semantic/Narrowing.antt =====
-- src/domain/semantic/narrowing_map.h and narrowing_map.cpp: the types that paths are narrowed to, and
-- their join where edges of control flow meet. A std::map is an association list.
pub mod Bounds
pub mod LeastUpper
pub mod Kill
pub mod Merge
pub mod Merged
pub mod Tests
use cythonpp.Prelude.{
  ℕ, Bool, true, false, ◌&&◌, ◌||◌, not, Option, none, some, List, [], ◌∷◌, ◌++◌, ◌==◌, map,
  if◌then◌else◌,
}
use cythonpp.Prelude.Text.{Text, text_eq}
use cythonpp.Semantic.Kind.{union, object}
use cythonpp.Semantic.PyType.{PyType, args_of, to_list, has_kind, of_kind, union_of, any_type}
use cythonpp.Semantic.Subtype.{is_equivalent}
use cythonpp.Semantic.Subtype.Chain.{ClassLookup, has_key, ◌>>=◌}

-- The text of a name or of a chain of attributes.
abbrev pub NarrowedPath : Type 0
NarrowedPath = Text

pub record Narrowed : Type 0 where
  pub path : NarrowedPath
  pub narrowed_type : PyType

abbrev pub NarrowingState : Type 0
NarrowingState = List Narrowed

-- The path with a dot starts the candidate.
unfoldable pub is_proper_prefix : NarrowedPath → NarrowedPath → Bool
is_proper_prefix [] [] = false
is_proper_prefix [] (c ∷ candidate) = c == b'.'
is_proper_prefix (a ∷ path) [] = false
is_proper_prefix (a ∷ path) (c ∷ candidate) = a == c && is_proper_prefix path candidate

unfoldable pub collapse_object_union : PyType → PyType
unfolding any_type
collapse_object_union joined =
    if has_kind union joined && any_type (has_kind object) (to_list (args_of joined))
    then of_kind object
    else joined

unfoldable pub get : NarrowingState → NarrowedPath → Option PyType
get [] path = none
get (entry ∷ rest) path =
    let later = get rest path in if text_eq entry.path path then some entry.narrowed_type else later

-- `entries_[path] = type`
unfoldable pub set : NarrowingState → NarrowedPath → PyType → NarrowingState
set [] path type = record { path = path; narrowed_type = type } ∷ []
set (entry ∷ rest) path type =
    let later = set rest path type in
    if text_eq entry.path path
    then record { path = path; narrowed_type = type } ∷ rest
    else entry ∷ later

unfoldable pub kill : NarrowingState → NarrowedPath → NarrowingState
unfolding is_proper_prefix
kill [] path = []
kill (entry ∷ rest) path =
    let kept = kill rest path in
    if text_eq entry.path path || is_proper_prefix path entry.path then kept else entry ∷ kept

-- The paths of every edge, each once.
unfoldable pub insert_path : List NarrowedPath → NarrowedPath → List NarrowedPath
unfolding has_key
insert_path paths path = if has_key path paths then paths else paths ++ path ∷ []

unfoldable pub insert_edge : List NarrowedPath → NarrowingState → List NarrowedPath
unfolding insert_path
insert_edge paths [] = paths
insert_edge paths (entry ∷ rest) = insert_edge (insert_path paths entry.path) rest

unfoldable pub insert_edges : List NarrowedPath → List NarrowingState → List NarrowedPath
unfolding insert_edge
insert_edges paths [] = paths
insert_edges paths (edge ∷ edges) = insert_edges (insert_edge paths edge) edges

abbrev pub or_declared : PyType → Option PyType → PyType
or_declared declared none = declared
or_declared declared (some type) = type

-- What each edge contributes to a path, joined.
unfoldable pub joined_value : List NarrowingState → NarrowedPath → PyType → PyType
unfolding get collapse_object_union union_of
joined_value edges path declared =
    collapse_object_union (union_of (map (λ edge. or_declared declared (get edge path)) edges))

-- The body of the loop over the paths: the entry for a path, if it gets one. The outer option is none
-- where the fuel ran out.
unfoldable pub joined_entry :
    ℕ
    → Option ClassLookup
    → List NarrowingState
    → (NarrowedPath → Option PyType)
    → NarrowedPath
    → Option (Option PyType)
unfolding joined_value is_equivalent
joined_entry fuel classes edges declared_type_of path = elim (declared_type_of path) [
  | none ↦ some none
  | some declared ↦
      let value = joined_value edges path declared in
      is_equivalent fuel classes value declared
      >>= (λ equivalent. some (if equivalent then none else some value))
]

abbrev pub with_entry : NarrowedPath → Option PyType → NarrowingState → NarrowingState
with_entry path none joined = joined
with_entry path (some type) joined = record { path = path; narrowed_type = type } ∷ joined

unfoldable pub join_paths :
    (NarrowedPath → Option (Option PyType)) → List NarrowedPath → Option NarrowingState
join_paths entry_of [] = some []
join_paths entry_of (path ∷ paths) = do
  entry ← entry_of path
  joined ← join_paths entry_of paths
  some (with_entry path entry joined)

unfoldable pub join_narrowings :
    ℕ
    → Option ClassLookup
    → List NarrowingState
    → (NarrowedPath → Option PyType)
    → Option NarrowingState
unfolding insert_edges joined_entry join_paths
join_narrowings fuel classes edges declared_type_of =
    join_paths (joined_entry fuel classes edges declared_type_of) (insert_edges [] edges)
