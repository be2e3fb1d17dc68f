-- ===== src/Semantic/Join.antt =====
-- src/domain/semantic/type_compatibility.cpp: the least upper bound `join`, and the structural order
-- that makes its choice between two spellings of one type.
pub mod Order
pub mod UpperBound
pub mod Symmetry
pub mod Tests
use cythonpp.Prelude.{
  ℕ, zero, suc, Bool, true, false, ◌&&◌, ◌||◌, not, Option, none, some, List, [], ◌∷◌, ltb, leb,
  ◌==◌, length, if◌then◌else◌,
}
use cythonpp.Prelude.Text.{Text, text_eq, text_less}
use cythonpp.Semantic.Kind.{TypeKind, same_kind, kind_index, unknown, none_type, class, object}
use cythonpp.Semantic.PyType.{
  PyType, Types, make, nil, cons, kind_of, name_of, args_of, to_list, has_kind, of_kind, union_of,
}
use cythonpp.Semantic.Subtype.{numeric_rank, is_subtype, is_equivalent, class_reaches}
use cythonpp.Semantic.Subtype.Chain.{ClassLookup, class_ancestor_chain, ◌>>=◌}

-- `type_less` of a pair and of the pair swapped, which the source calls one after the other on
-- every pair of arguments.
unfoldable mutual
  pub type_orders : PyType → PyType → Bool × Bool
  type_orders (make k n ts d) (make l m us e) =
      if not (same_kind k l)
      then (ltb (kind_index k) (kind_index l), ltb (kind_index l) (kind_index k))
      else if not (text_eq n m)
      then (text_less n m, text_less m n)
      else if not (length (to_list ts) == length (to_list us))
      then (
        ltb (length (to_list ts)) (length (to_list us)),
        ltb (length (to_list us)) (length (to_list ts)),
      )
      else types_orders ts us (ltb d e, ltb e d)

  -- The loop over the arguments, and what follows it.
  pub types_orders : Types → Types → Bool × Bool → Bool × Bool
  types_orders (cons t ts) (cons u us) after =
      let first = type_orders t u in
      let rest = types_orders ts us after in
      (
        if first.0 then true else if first.1 then false else rest.0,
        if first.1 then true else if first.0 then false else rest.1,
      )
  types_orders ts us after = after

unfoldable pub type_less : PyType → PyType → Bool
unfolding type_orders
type_less left right = (type_orders left right).0

-- Every class name in a type by its canonical spelling.
unfoldable mutual
  pub canonicalised_by : ClassLookup → PyType → PyType
  canonicalised_by classes (make k n ts d) =
      make k (if same_kind k class then classes.canonical_name n else n)
        (canonicalised_all classes ts) d

  pub canonicalised_all : ClassLookup → Types → Types
  canonicalised_all classes nil = nil
  canonicalised_all classes (cons t ts) =
      cons (canonicalised_by classes t) (canonicalised_all classes ts)

unfoldable pub canonicalised : PyType → Option ClassLookup → PyType
unfolding canonicalised_by
canonicalised type none = type
canonicalised type (some classes) = canonicalised_by classes type

-- The first candidate that a test accepts.
unfoldable pub first_of : (PyType → Option Bool) → List PyType → Option (Option PyType)
first_of test [] = some none
first_of test (candidate ∷ rest) = do
  found ← test candidate
  if found then some (some candidate) else first_of test rest

unfoldable pub nearest_common_base : ℕ → ClassLookup → PyType → PyType → Option PyType
unfolding first_of
nearest_common_base fuel classes left right = do
  left_chain ← class_ancestor_chain fuel classes (name_of left)
  found ← first_of (λ c. is_subtype fuel (some classes) right c) left_chain
  elim found [
    | some base ↦ some base
    | none ↦ do
      right_chain ← class_ancestor_chain fuel classes (name_of right)
      other ← first_of (λ c. is_subtype fuel (some classes) left c) right_chain
      elim other [ some base ↦ some base | none ↦ some (of_kind object) ]
  ]

-- Whether a class's base chain reaches the other side; no class, no.
unfoldable pub reaches_other : ℕ → ClassLookup → PyType → PyType → Option Bool
reaches_other fuel classes left right =
    if has_kind class left
    then class_reaches (is_subtype fuel (some classes)) fuel classes
        (classes.canonical_name (name_of left)) right
    else some false

-- The arms that read the class table, and the answer where none applies.
unfoldable pub join_classes : ℕ → Option ClassLookup → PyType → PyType → Option PyType
unfolding nearest_common_base reaches_other
join_classes fuel none left right = some (of_kind object)
join_classes fuel (some classes) left right =
    if has_kind class left && has_kind class right
    then nearest_common_base fuel classes left right
    else (do
      left_reaches ← reaches_other fuel classes left right
      elim left_reaches [
        | true ↦ some right
        | false ↦ do
          right_reaches ← reaches_other fuel classes right left
          some (if right_reaches then left else of_kind object)
      ])

-- Two spellings of one type: the lesser canonical one.
unfoldable pub choose_spelling : Option ClassLookup → PyType → PyType → PyType
unfolding canonicalised type_less
choose_spelling classes left right =
    let canonical_left = canonicalised left classes in
    let canonical_right = canonicalised right classes in
    if type_less canonical_right canonical_left then canonical_right else canonical_left

-- The arms after the equivalence test.
unfoldable pub join_different : ℕ → Option ClassLookup → PyType → PyType → Option PyType
unfolding join_classes
join_different fuel classes left right =
    if has_kind none_type left || has_kind none_type right
    then some
        (union_of ((if has_kind none_type left then right else left) ∷ of_kind none_type ∷ []))
    else if not (numeric_rank (kind_of left) == 0) && not (numeric_rank (kind_of right) == 0)
    then some
        (if leb (numeric_rank (kind_of right)) (numeric_rank (kind_of left)) then left else right)
    else join_classes fuel classes left right

-- none: the fuel ran out.
unfoldable pub join : ℕ → Option ClassLookup → PyType → PyType → Option PyType
unfolding choose_spelling join_different
join fuel classes left right =
    if has_kind unknown left || has_kind unknown right then some (of_kind unknown) else (do
      equivalent ← is_equivalent fuel classes left right
      elim equivalent [
        | true ↦ some (choose_spelling classes left right)
        | false ↦ join_different fuel classes left right
      ])
