-- ===== src/Semantic/Subtype.antt =====
-- src/domain/semantic/type_compatibility.cpp: when a value of one type may be used where another is
-- expected. A class table is a parameter, and optional as the source's pointer is.
pub mod Chain
pub mod Walk
pub mod Base
pub mod Rules
pub mod Decided
pub mod Sound
pub mod Complete
pub mod Equivalent
pub mod Tests
use cythonpp.Prelude.{
  ℕ, zero, suc, Bool, true, false, ◌&&◌, ◌||◌, not, Option, none, some, List, [], ◌∷◌, ◌++◌, leb,
  ◌==◌, length, if◌then◌else◌,
}
use cythonpp.Prelude.Text.{Text, text, text_eq}
use cythonpp.Semantic.Kind.{
  TypeKind, same_kind, unknown, none_type, bool, int, float, complex, str, bytes, bytearray,
  ellipsis, list, dict, set, frozenset, tuple, range, union, callable, class, object,
}
use cythonpp.Semantic.PyType.{
  PyType, make, kind_of, name_of, args_of, to_list, has_kind, type_eq, class_of,
}
use cythonpp.Semantic.Subtype.Chain.{ClassLookup, class_ancestor_chain, or_else, and_also, ◌>>=◌}

unfoldable pub is_invariant_container : TypeKind → Bool
unfolding same_kind
is_invariant_container kind =
    same_kind kind list || same_kind kind dict || same_kind kind set || same_kind kind frozenset

unfoldable pub numeric_rank : TypeKind → ℕ
numeric_rank bool = 1
numeric_rank int = 2
numeric_rank float = 3
numeric_rank complex = 4
numeric_rank _ = 0

-- The early returns of `is_subtype`, in their order.
pub data Rule : Type 0 where
  absorbed identical to_object each_member some_member functions class_object class_chain : Rule
  tower kinds_differ invariant covariant unrelated : Rule

pub rule_of : PyType → PyType → Rule
unfolding is_invariant_container numeric_rank
rule_of source target =
    if has_kind unknown source || has_kind unknown target
    then absorbed
    else if type_eq source target
    then identical
    else if has_kind object target
    then to_object
    else if has_kind union source
    then each_member
    else if has_kind union target
    then some_member
    else if has_kind callable source && has_kind callable target
    then functions
    else if has_kind callable source
        && has_kind class target
        && text_eq (name_of target) (text "type")
    then class_object
    else if has_kind class source
    then class_chain
    else if not (numeric_rank (kind_of source) == 0) && not (numeric_rank (kind_of target) == 0)
    then tower
    else if not (same_kind (kind_of source) (kind_of target))
    then kinds_differ
    else if is_invariant_container (kind_of source)
    then invariant
    else if has_kind tuple source
    then covariant
    else unrelated

-- The loops. A test returns none where the recursion that makes it ran out of fuel.
unfoldable pub all_of : (PyType → Option Bool) → List PyType → Option Bool
all_of test [] = some true
all_of test (t ∷ ts) = and_also (test t) (all_of test ts)

unfoldable pub any_of : (PyType → Option Bool) → List PyType → Option Bool
any_of test [] = some false
any_of test (t ∷ ts) = or_else (test t) (any_of test ts)

-- Elementwise over two lists of one length.
unfoldable pub all_pairs : (PyType → PyType → Option Bool) → List PyType → List PyType → Option Bool
all_pairs test (s ∷ ss) (t ∷ ts) = and_also (test s t) (all_pairs test ss ts)
all_pairs test ss ts = some true

-- Parameters backwards, the last pair, which is the results, forwards.
unfoldable pub all_parameters :
    (PyType → PyType → Option Bool) → List PyType → List PyType → Option Bool
all_parameters test (s ∷ []) (t ∷ []) = test s t
all_parameters test (s ∷ s' ∷ ss) (t ∷ t' ∷ ts) =
    and_also (test t s) (all_parameters test (s' ∷ ss) (t' ∷ ts))
all_parameters test ss ts = some false

abbrev pub is_empty : List PyType → Bool
is_empty [] = true
is_empty (t ∷ ts) = false

abbrev pub same_length : List PyType → List PyType → Bool
same_length ss ts = length ss == length ts

unfoldable pub equivalent_by : (PyType → PyType → Option Bool) → PyType → PyType → Option Bool
equivalent_by test left right = and_also (test left right) (test right left)

-- The loop of `class_reaches` over the proper ancestors.
unfoldable pub reaches : (PyType → PyType → Option Bool) → PyType → Text → List PyType → Option Bool
reaches test target canonical [] = some false
reaches test target canonical (current ∷ rest) =
    or_else
      (if has_kind class current
        then some (has_kind class target && text_eq (name_of current) canonical)
        else test current target)
      (reaches test target canonical rest)

abbrev canonical_target : ClassLookup → PyType → Text
canonical_target classes target =
    if has_kind class target then classes.canonical_name (name_of target) else []

abbrev proper_ancestors : List PyType → List PyType
proper_ancestors [] = []
proper_ancestors (start ∷ rest) = rest

unfoldable pub class_reaches :
    (PyType → PyType → Option Bool) → ℕ → ClassLookup → Text → PyType → Option Bool
unfolding reaches
class_reaches test fuel classes derived target = do
  chain ← class_ancestor_chain fuel classes derived
  reaches test target (canonical_target classes target) (proper_ancestors chain)

unfoldable pub class_source :
    (PyType → PyType → Option Bool) → ℕ → Option ClassLookup → PyType → PyType → Option Bool
unfolding class_reaches
class_source test fuel none source target = some false
class_source test fuel (some classes) source target =
    let canonical_source = classes.canonical_name (name_of source) in
    if has_kind class target && text_eq canonical_source (classes.canonical_name (name_of target))
    then some true
    else class_reaches test fuel classes canonical_source target

-- What each early return answers, from the answers for smaller types.
pub answer :
    (PyType → PyType → Option Bool) → ℕ → Option ClassLookup → Rule → PyType → PyType → Option Bool
unfolding numeric_rank class_source all_of any_of all_parameters all_pairs equivalent_by
answer test fuel classes absorbed source target = some true
answer test fuel classes identical source target = some true
answer test fuel classes to_object source target = some true
answer test fuel classes each_member source target =
    all_of (λ member. test member target) (to_list (args_of source))
answer test fuel classes some_member source target =
    any_of (λ member. test source member) (to_list (args_of target))
answer test fuel classes functions source target =
    if is_empty (to_list (args_of source))
      || is_empty (to_list (args_of target))
      || not (same_length (to_list (args_of source)) (to_list (args_of target)))
    then some false
    else all_parameters test (to_list (args_of source)) (to_list (args_of target))
answer test fuel classes class_object source target = some true
answer test fuel classes class_chain source target = class_source test fuel classes source target
answer test fuel classes tower source target =
    some (leb (numeric_rank (kind_of source)) (numeric_rank (kind_of target)))
answer test fuel classes kinds_differ source target = some false
answer test fuel classes invariant source target =
    if not (same_length (to_list (args_of source)) (to_list (args_of target)))
    then some false
    else all_pairs (equivalent_by test) (to_list (args_of source)) (to_list (args_of target))
answer test fuel classes covariant source target =
    if not (same_length (to_list (args_of source)) (to_list (args_of target)))
    then some false
    else all_pairs test (to_list (args_of source)) (to_list (args_of target))
answer test fuel classes unrelated source target = some false

-- none: the fuel ran out.
unfoldable pub is_subtype : ℕ → Option ClassLookup → PyType → PyType → Option Bool
unfolding answer rule_of
is_subtype zero classes source target = none
is_subtype (suc fuel) classes source target =
    answer (is_subtype fuel classes) fuel classes (rule_of source target) source target

unfoldable pub is_equivalent : ℕ → Option ClassLookup → PyType → PyType → Option Bool
unfolding is_subtype equivalent_by
is_equivalent fuel classes left right = equivalent_by (is_subtype fuel classes) left right
