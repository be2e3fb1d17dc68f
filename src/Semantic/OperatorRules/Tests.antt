-- ===== src/Semantic/OperatorRules/Tests.antt =====
-- The operator rules at concrete types.
use cythonpp.Prelude.{
  ℕ, suc, ◌+◌, ◌≤◌, ◌≡◌, refl, Bool, false, true, if◌then◌else◌, none, some, List, [], ◌∷◌, length,
  get_elem?, arith, sym, ap, ◌∙◌, ◌||◌, Bool-cases, inl, inr,
}
use cythonpp.Prelude.Int.{pos, negsuc}
use cythonpp.Prelude.Text.{Text, text, text_eq, text_eq_iff}
use cythonpp.Lexer.TokenType.{op_slash, op_less}
use cythonpp.Semantic.Kind.{bool, int, float, str, same_kind, kind_index}
use cythonpp.Semantic.PyType.{PyType, of_kind, class_of, list_of}
use cythonpp.Semantic.Subtype.{numeric_rank}
use cythonpp.Semantic.Subtype.Decided.{size}
use cythonpp.Semantic.Subtype.Rules.{Sub}
use cythonpp.Semantic.Subtype.Chain.{ClassLookup, has_key, class_ancestor_chain}
use cythonpp.Semantic.Subtype.Walk.{IsListed, bases_left, class_ancestor_chain-Walked}
use cythonpp.Semantic.OperatorRules.Result.{RuleResult, ok, not_applicable}
use cythonpp.Semantic.OperatorRules.Binary.{is_integral, binary_result}
use cythonpp.Semantic.OperatorRules.Unary.{comparison_result}
use cythonpp.Semantic.OperatorRules.Elements.{tuple_at, subscript_result, element_type}
use cythonpp.Semantic.OperatorRules.TupleIndex.{tuple_at-get_elem?}
use cythonpp.Semantic.OperatorRules.Agreement.{subscript_result-element_type}
use cythonpp.Semantic.OperatorRules.Numeric.{divides, binary_result-Sub}
use cythonpp.Semantic.OperatorRules.Comparison.{Decides, Relates, less}
use cythonpp.Semantic.OperatorRules.Ordering.{comparison_result-Relates}
use cythonpp.Semantic.OperatorRules.Bases.{element_type-Returned}

abbrev pair : List PyType
pair = of_kind int ∷ of_kind str ∷ []

tuple_at-get_elem?_example :
    ((n m : ℕ)
      → suc (n + m) ≡ length pair
      → (t : PyType) × (get_elem? pair n ≡ some t)
        × (tuple_at pair (pos n) ≡ ok t)
        × (tuple_at pair (negsuc m) ≡ ok t))
    × ((n : ℕ)
        → length pair ≤ n
        → (tuple_at pair (pos n) ≡ not_applicable) × (tuple_at pair (negsuc n) ≡ not_applicable))
tuple_at-get_elem?_example = tuple_at-get_elem? pair

subscript_result-element_type_example :
    subscript_result 2 none (some (negsuc 0)) (list_of (of_kind str)) (of_kind bool)
    ≡ element_type 2 none (list_of (of_kind str))
unfolding is_integral
subscript_result-element_type_example =
    subscript_result-element_type 1 none (some (negsuc 0)) (list_of (of_kind str)) (of_kind bool)
      refl refl refl

binary_result-Sub_example :
    (t : PyType) × (binary_result 0 op_slash (of_kind bool) (of_kind float) ≡ some (ok t))
    × (binary_result 0 op_slash (of_kind float) (of_kind bool) ≡ some (ok t))
    × Sub (of_kind bool) t
    × Sub (of_kind float) t
unfolding numeric_rank
binary_result-Sub_example =
    binary_result-Sub 0 op_slash (of_kind bool) (of_kind float) divides (omega arith) (omega arith)

comparison_result-Relates_example :
    Decides
      (Relates less (list_of (of_kind int)) (list_of (of_kind int)))
      (comparison_result 9 op_less (list_of (of_kind int)) (list_of (of_kind int)))
unfolding size same_kind kind_index
comparison_result-Relates_example =
    comparison_result-Relates 9 op_less (list_of (of_kind int)) (list_of (of_kind int)) less
      (omega arith) (refl, refl, refl) (refl, refl, refl)

-- class Row(Row, list[int]), which is its own base too.
abbrev row_bases : Bool → List PyType
row_bases is_row = if is_row then class_of (text "Row") ∷ list_of (of_kind int) ∷ [] else []

abbrev bases : Text → List PyType
bases name = row_bases (text_eq name (text "Row"))

abbrev table : ClassLookup
table = record {
  is_class = λ name. text_eq name (text "Row");
  bases_of = bases;
  canonical_name = λ name. name;
}

row-IsListed : IsListed table (text "Row" ∷ [])
unfolding has_key
row-IsListed name h = elim (Bool-cases (text_eq name (text "Row"))) [
  | inr other ↦ ap row_bases other
  | inl here ↦
      let is = (text_eq_iff name (text "Row")).0 here in
      let clash : true ≡ false =
        ap (λ b. b || false) (sym ((text_eq_iff (text "Row") name).1 (sym is))) ∙ h in
      cc
]

element_type-Returned_example :
    (answer : RuleResult) × (element_type 4 (some table) (class_of (text "Row")) ≡ some answer)
unfolding bases_left has_key text_eq
element_type-Returned_example =
    element_type-Returned 2 table (text "Row" ∷ []) (class_of (text "Row")) row-IsListed
      (omega arith)

class_ancestor_chain-Walked_example :
    (chain : List PyType) × (class_ancestor_chain 3 table (text "Row") ≡ some chain)
unfolding bases_left has_key text_eq
class_ancestor_chain-Walked_example =
    class_ancestor_chain-Walked table (text "Row" ∷ []) 3 (text "Row") row-IsListed (omega arith)
