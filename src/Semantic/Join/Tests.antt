-- ===== src/Semantic/Join/Tests.antt =====
-- `join` on concrete types.
use cythonpp.Prelude.{◌+◌, ◌≤◌, ◌≡◌, refl, inl, inr, false, none, some, ◌&&◌, ◌||◌, not, arith}
use cythonpp.Semantic.Kind.{same_kind, kind_index, int, float, none_type}
use cythonpp.Semantic.PyType.{PyType, of_kind, type_eq}
use cythonpp.Semantic.PyType.Union.{IsProper}
use cythonpp.Semantic.Subtype.Rules.{Sub}
use cythonpp.Semantic.Subtype.Decided.{size}
use cythonpp.Semantic.Join.{join, type_less}
use cythonpp.Semantic.Join.Order.{type_less_total}
use cythonpp.Semantic.Join.UpperBound.{IsPlainNone, join-Sub}
use cythonpp.Semantic.Join.Symmetry.{join_comm}

type_less_total_example :
    ((type_less (of_kind int) (of_kind float) && type_less (of_kind float) (of_kind int)) ≡ false)
    × ((type_less (of_kind int) (of_kind float) || type_less (of_kind float) (of_kind int))
        ≡ not (type_eq (of_kind int) (of_kind float)))
type_less_total_example = type_less_total (of_kind int) (of_kind float)

fuel_is_enough : size (of_kind int) + size (of_kind none_type) ≤ 2
unfolding size
fuel_is_enough = omega arith

int-IsPlainNone : IsPlainNone (of_kind int)
unfolding same_kind kind_index
int-IsPlainNone = inl refl

int-IsProper : IsProper (of_kind int)
unfolding same_kind kind_index
int-IsProper = inl refl

none-IsProper : IsProper (of_kind none_type)
unfolding same_kind kind_index
none-IsProper = inl refl

join-Sub_example :
    (u : PyType) × (join 2 none (of_kind int) (of_kind none_type) ≡ some u)
    × Sub (of_kind int) u
    × Sub (of_kind none_type) u
join-Sub_example =
    join-Sub 2 (of_kind int) (of_kind none_type) fuel_is_enough int-IsPlainNone (inr refl)
      int-IsProper none-IsProper

join_comm_example :
    join 2 none (of_kind int) (of_kind none_type) ≡ join 2 none (of_kind none_type) (of_kind int)
join_comm_example =
    join_comm 2 (of_kind int) (of_kind none_type) fuel_is_enough int-IsPlainNone (inr refl)
