-- ===== src/Semantic/OperatorRules/Agreement.antt =====
-- Iterating a container and subscripting it by an integer.
use cythonpp.Prelude.{
  ℕ, suc, ◌≡◌, refl, ap, Bool, true, false, Option, none, some, List, [], ◌∷◌, if◌then◌else◌,
}
use cythonpp.Semantic.Kind.{
  TypeKind, same_kind, kind_index, unknown, none_type, bool, int, float, complex, str, bytes,
  bytearray, ellipsis, list, dict, set, frozenset, tuple, range, union, callable, class, object,
}
use cythonpp.Semantic.PyType.{PyType, make, kind_of, to_list}
use cythonpp.Semantic.Subtype.Chain.{ClassLookup}
use cythonpp.Prelude.Int.{ℤ}
use cythonpp.Semantic.OperatorRules.Result.{not_applicable}
use cythonpp.Semantic.OperatorRules.Binary.{is_integral}
use cythonpp.Semantic.OperatorRules.Elements.{
  tuple_element, any_element, sequence_element, subscript_result, iterated, element_type,
}

integral_known : (k : TypeKind) → is_integral k ≡ true → same_kind k unknown ≡ false
unfolding is_integral same_kind kind_index
integral_known unknown h = cc
integral_known none_type h = cc
integral_known bool h = refl
integral_known int h = refl
integral_known float h = cc
integral_known complex h = cc
integral_known str h = cc
integral_known bytes h = cc
integral_known bytearray h = cc
integral_known ellipsis h = cc
integral_known list h = cc
integral_known dict h = cc
integral_known set h = cc
integral_known frozenset h = cc
integral_known tuple h = cc
integral_known range h = cc
integral_known union h = cc
integral_known callable h = cc
integral_known class h = cc
integral_known object h = cc

tuple_element-any_element : (args : List PyType) → tuple_element args none ≡ any_element args
unfolding tuple_element
tuple_element-any_element [] = refl
tuple_element-any_element (t ∷ ts) = refl

-- Subscripted by a key of the container's own, or through a builtin base.
abbrev pub takes_any_key : TypeKind → Bool
takes_any_key dict = true
takes_any_key class = true
takes_any_key _ = false

-- Iterated, but in no order for an index to count in.
abbrev pub is_unordered : TypeKind → Bool
is_unordered set = true
is_unordered frozenset = true
is_unordered _ = false

-- A tuple at a literal index, which picks one of the element types.
abbrev pub is_picked : TypeKind → Option ℤ → Bool
is_picked tuple (some literal) = true
is_picked _ _ = false

-- Subscripting by an int or a bool, literal or not, is not applicable to a set and a frozenset. For
-- every other container but a dict, a class and a tuple at a literal it answers what iterating
-- answers: the same type, not applicable, or the same limit.
pub subscript_result-element_type :
    (fuel : ℕ) (classes : Option ClassLookup) (literal : Option ℤ) (container index : PyType)
    → is_integral (kind_of index) ≡ true
    → takes_any_key (kind_of container) ≡ false
    → is_picked (kind_of container) literal ≡ false
    → subscript_result (suc fuel) classes literal container index ≡ (
        if is_unordered (kind_of container)
        then some not_applicable
        else element_type (suc fuel) classes container)
unfolding subscript_result element_type sequence_element iterated same_kind kind_index
subscript_result-element_type fuel classes literal (make unknown n ts d) index i h p = refl
subscript_result-element_type fuel classes literal (make none_type n ts d) index i h p =
    rw (integral_known (kind_of index) i, i) refl
subscript_result-element_type fuel classes literal (make bool n ts d) index i h p =
    rw (integral_known (kind_of index) i, i) refl
subscript_result-element_type fuel classes literal (make int n ts d) index i h p =
    rw (integral_known (kind_of index) i, i) refl
subscript_result-element_type fuel classes literal (make float n ts d) index i h p =
    rw (integral_known (kind_of index) i, i) refl
subscript_result-element_type fuel classes literal (make complex n ts d) index i h p =
    rw (integral_known (kind_of index) i, i) refl
subscript_result-element_type fuel classes literal (make str n ts d) index i h p =
    rw (integral_known (kind_of index) i, i) refl
subscript_result-element_type fuel classes literal (make bytes n ts d) index i h p =
    rw (integral_known (kind_of index) i, i) refl
subscript_result-element_type fuel classes literal (make bytearray n ts d) index i h p =
    rw (integral_known (kind_of index) i, i) refl
subscript_result-element_type fuel classes literal (make ellipsis n ts d) index i h p =
    rw (integral_known (kind_of index) i, i) refl
subscript_result-element_type fuel classes literal (make list n ts d) index i h p =
    rw (integral_known (kind_of index) i, i) refl
subscript_result-element_type fuel classes literal (make dict n ts d) index i h p = cc
subscript_result-element_type fuel classes literal (make set n ts d) index i h p =
    rw (integral_known (kind_of index) i, i) refl
subscript_result-element_type fuel classes literal (make frozenset n ts d) index i h p =
    rw (integral_known (kind_of index) i, i) refl
subscript_result-element_type fuel classes none (make tuple n ts d) index i h p =
    rw (integral_known (kind_of index) i, i) (ap some (tuple_element-any_element (to_list ts)))
subscript_result-element_type fuel classes (some literal) (make tuple n ts d) index i h p = cc
subscript_result-element_type fuel classes literal (make range n ts d) index i h p =
    rw (integral_known (kind_of index) i, i) refl
subscript_result-element_type fuel classes literal (make union n ts d) index i h p =
    rw (integral_known (kind_of index) i) refl
subscript_result-element_type fuel classes literal (make callable n ts d) index i h p =
    rw (integral_known (kind_of index) i, i) refl
subscript_result-element_type fuel classes literal (make class n ts d) index i h p = cc
subscript_result-element_type fuel classes literal (make object n ts d) index i h p =
    rw (integral_known (kind_of index) i, i) refl
