-- ===== src/Semantic/OperatorRules/Ordering.antt =====
-- What comparisons answer: the proof, by the kinds of the operands.
use cythonpp.Prelude.{
  ℕ, ◌+◌, ◌≤◌, ◌≡◌, refl, sym, ◌∙◌, Bool, true, false, ◌&&◌, not, ◌==◌, ◌⊎◌, inl, inr, Bool-cases,
  arith,
}
use cythonpp.Prelude.Text.{Text}
use cythonpp.Lexer.TokenType.{
  TokenType, op_in, op_not_in, op_less, op_less_equal, op_greater, op_greater_equal,
}
use cythonpp.Semantic.Kind.{
  TypeKind, same_kind, kind_index, unknown, none_type, bool, int, float, complex, str, bytes,
  bytearray, ellipsis, list, dict, set, frozenset, tuple, range, union, callable, class, object,
}
use cythonpp.Semantic.Kind.Laws.{same_kind_iff}
use cythonpp.Semantic.PyType.{PyType, Types, make, kind_of, of_kind}
use cythonpp.Semantic.Subtype.{numeric_rank}
use cythonpp.Semantic.Subtype.Rules.{Sub}
use cythonpp.Semantic.Subtype.Sound.{ranked}
use cythonpp.Semantic.Subtype.Equivalent.{equivalent-Sub}
use cythonpp.Semantic.Subtype.Decided.{size}
use cythonpp.Semantic.OperatorRules.Result.{ok, not_applicable}
use cythonpp.Semantic.OperatorRules.Binary.{lifted, is_byte_string}
use cythonpp.Semantic.OperatorRules.Elements.{iterated}
use cythonpp.Semantic.OperatorRules.Unary.{
  by_order, by_membership, comparison_arm, is_set_kind, is_container, ordered_result,
  comparison_result,
}
use cythonpp.Semantic.OperatorRules.Comparison.{
  Comparison, equal, not_equal, same, not_same, member, no_member, less, less_equal, greater,
  greater_equal, Ordered, numbers, byte_strings, sets, strings, lists, tuples, IsIterable, Relates,
  IsPlain, Decides, unordered,
}

both : (a b : Bool) → (a && b) ≡ true → (a ≡ true) × (b ≡ true)
both true true h = (refl, refl)
both true false h = cc
both false b h = cc

lists_decided :
    (fuel : ℕ) (n m : Text) (ss ts : Types) (d e : ℕ)
    → size (make list n ss d) + size (make list m ts e) ≤ fuel
    → Decides
        (Ordered (make list n ss d) (make list m ts e))
        (lifted (ordered_result fuel (make list n ss d) (make list m ts e)))
unfolding ordered_result numeric_rank same_kind kind_index
lists_decided fuel n m ss ts d e le =
    elim (equivalent-Sub fuel (make list n ss d) (make list m ts e) le) [
      | inl (is, p, q) ↦ inl (rw (ordered_result, is) refl, lists _ _ refl refl p q)
      | inr (is, never) ↦ inr (rw (ordered_result, is) refl, wrong never)
    ]
  where
    wrong :
        (Sub (make list n ss d) (make list m ts e) → Sub (make list m ts e) (make list n ss d) → ⊥)
        → Ordered (make list n ss d) (make list m ts e)
        → ⊥
    wrong never (numbers _ _ x y) = omega arith
    wrong never (byte_strings _ _ x y) = cc
    wrong never (sets _ _ x y) = cc
    wrong never (strings _ _ x y) = cc
    wrong never (lists _ _ x y p q) = never p q
    wrong never (tuples _ _ x y) = cc

same_kinds-Decides :
    (fuel : ℕ) (k : TypeKind) (n m : Text) (ss ts : Types) (d e : ℕ)
    → size (make k n ss d) + size (make k m ts e) ≤ fuel
    → Decides
        (Ordered (make k n ss d) (make k m ts e))
        (lifted (ordered_result fuel (make k n ss d) (make k m ts e)))
unfolding ordered_result numeric_rank same_kind kind_index
same_kinds-Decides fuel unknown n m ss ts d e p =
    inr (refl, unordered _ _ refl refl refl refl refl refl)
same_kinds-Decides fuel none_type n m ss ts d e p =
    inr (refl, unordered _ _ refl refl refl refl refl refl)
same_kinds-Decides fuel bool n m ss ts d e p = inl (refl, numbers _ _ (omega arith) (omega arith))
same_kinds-Decides fuel int n m ss ts d e p = inl (refl, numbers _ _ (omega arith) (omega arith))
same_kinds-Decides fuel float n m ss ts d e p = inl (refl, numbers _ _ (omega arith) (omega arith))
same_kinds-Decides fuel complex n m ss ts d e p =
    inl (refl, numbers _ _ (omega arith) (omega arith))
same_kinds-Decides fuel str n m ss ts d e p = inl (refl, strings _ _ refl refl)
same_kinds-Decides fuel bytes n m ss ts d e p = inl (refl, byte_strings _ _ refl refl)
same_kinds-Decides fuel bytearray n m ss ts d e p = inl (refl, byte_strings _ _ refl refl)
same_kinds-Decides fuel ellipsis n m ss ts d e p =
    inr (refl, unordered _ _ refl refl refl refl refl refl)
same_kinds-Decides fuel list n m ss ts d e p = lists_decided fuel n m ss ts d e p
same_kinds-Decides fuel dict n m ss ts d e p =
    inr (refl, unordered _ _ refl refl refl refl refl refl)
same_kinds-Decides fuel set n m ss ts d e p = inl (refl, sets _ _ refl refl)
same_kinds-Decides fuel frozenset n m ss ts d e p = inl (refl, sets _ _ refl refl)
same_kinds-Decides fuel tuple n m ss ts d e p = inl (refl, tuples _ _ refl refl)
same_kinds-Decides fuel range n m ss ts d e p =
    inr (refl, unordered _ _ refl refl refl refl refl refl)
same_kinds-Decides fuel union n m ss ts d e p =
    inr (refl, unordered _ _ refl refl refl refl refl refl)
same_kinds-Decides fuel callable n m ss ts d e p =
    inr (refl, unordered _ _ refl refl refl refl refl refl)
same_kinds-Decides fuel class n m ss ts d e p =
    inr (refl, unordered _ _ refl refl refl refl refl refl)
same_kinds-Decides fuel object n m ss ts d e p =
    inr (refl, unordered _ _ refl refl refl refl refl refl)

kinds_clash :
    (k l j : TypeKind) → same_kind k l ≡ false → same_kind k j ≡ true → same_kind l j ≡ true → ⊥
kinds_clash k l j h a b =
    let same_as : k ≡ l = (same_kind_iff k j).0 a ∙ sym ((same_kind_iff l j).0 b) in
    let clash : true ≡ false = sym ((same_kind_iff k l).1 same_as) ∙ h in cc

different_kinds :
    (s t : PyType)
    → same_kind (kind_of s) (kind_of t) ≡ false
    → (not (numeric_rank (kind_of s) == 0) && not (numeric_rank (kind_of t) == 0)) ≡ false
    → (is_byte_string (kind_of s) && is_byte_string (kind_of t)) ≡ false
    → (is_set_kind (kind_of s) && is_set_kind (kind_of t)) ≡ false
    → Ordered s t
    → ⊥
different_kinds s t h r b c (numbers _ _ x y) = absurd (ground (arith, r, x, y))
different_kinds s t h r b c (byte_strings _ _ x y) =
    let clash : true ≡ false = (rw (x, y) at b) in cc
different_kinds s t h r b c (sets _ _ x y) = let clash : true ≡ false = (rw (x, y) at c) in cc
different_kinds s t h r b c (strings _ _ x y) = kinds_clash _ _ str h x y
different_kinds s t h r b c (lists _ _ x y p q) = kinds_clash _ _ list h x y
different_kinds s t h r b c (tuples _ _ x y) = kinds_clash _ _ tuple h x y

ordered_result-Decides :
    (fuel : ℕ) (s t : PyType)
    → size s + size t ≤ fuel
    → Decides (Ordered s t) (lifted (ordered_result fuel s t))
unfolding ordered_result
ordered_result-Decides fuel (make k n ss d) (make l m ts e) le = elim (Bool-cases (same_kind k l)) [
  | inl alike ↦
      let p = (same_kind_iff k l).0 alike in
      rw (← p) (same_kinds-Decides fuel k n m ss ts d e (rw (← p) at le))
  | inr unlike ↦ elim (Bool-cases (not (numeric_rank k == 0) && not (numeric_rank l == 0))) [
    | inl h ↦
        let each = both _ _ h in
        inl (rw (ordered_result, h) refl, numbers _ _ (ranked _ each.0) (ranked _ each.1))
    | inr r ↦ elim (Bool-cases (is_byte_string k && is_byte_string l)) [
      | inl h ↦
          let each = both _ _ h in
          inl (rw (ordered_result, r, h) refl, byte_strings _ _ each.0 each.1)
      | inr b ↦ elim (Bool-cases (is_set_kind k && is_set_kind l)) [
        | inl h ↦
            let each = both _ _ h in inl (rw (ordered_result, r, b, h) refl, sets _ _ each.0 each.1)
        | inr c ↦ inr (
          rw (ordered_result, r, b, c, unlike) refl,
          different_kinds (make k n ss d) (make l m ts e) unlike r b c,
        )
      ]
    ]
  ]
]

answerless : (u : PyType) × (not_applicable ≡ ok u) → ⊥
answerless (u, h) = cc

membership-Decides :
    (k : TypeKind)
    → ((is_container k ≡ true) × IsIterable k) ⊎ ((is_container k ≡ false) × (IsIterable k → ⊥))
unfolding is_container iterated
membership-Decides unknown = inr (refl, λ h. answerless (h (of_kind int)))
membership-Decides none_type = inr (refl, λ h. answerless (h (of_kind int)))
membership-Decides bool = inr (refl, λ h. answerless (h (of_kind int)))
membership-Decides int = inr (refl, λ h. answerless (h (of_kind int)))
membership-Decides float = inr (refl, λ h. answerless (h (of_kind int)))
membership-Decides complex = inr (refl, λ h. answerless (h (of_kind int)))
membership-Decides str = inl (refl, λ t. (of_kind str, refl))
membership-Decides bytes = inl (refl, λ t. (of_kind int, refl))
membership-Decides bytearray = inl (refl, λ t. (of_kind int, refl))
membership-Decides ellipsis = inr (refl, λ h. answerless (h (of_kind int)))
membership-Decides list = inl (refl, λ t. (t, refl))
membership-Decides dict = inl (refl, λ t. (t, refl))
membership-Decides set = inl (refl, λ t. (t, refl))
membership-Decides frozenset = inl (refl, λ t. (t, refl))
membership-Decides tuple = inl (refl, λ t. (_, refl))
membership-Decides range = inl (refl, λ t. (of_kind int, refl))
membership-Decides union = inr (refl, λ h. answerless (h (of_kind int)))
membership-Decides callable = inr (refl, λ h. answerless (h (of_kind int)))
membership-Decides class = inr (refl, λ h. answerless (h (of_kind int)))
membership-Decides object = inr (refl, λ h. answerless (h (of_kind int)))

orders :
    (fuel : ℕ) (op : TokenType) (s t : PyType)
    → size s + size t ≤ fuel
    → IsPlain (kind_of s)
    → IsPlain (kind_of t)
    → comparison_arm op ≡ by_order
    → Decides (Ordered s t) (comparison_result fuel op s t)
unfolding comparison_result
orders fuel op s t le (a, b, c) (a', b', c') arm =
    rw (comparison_result, arm, a, a', b, b', c, c') (ordered_result-Decides fuel s t le)

contains :
    (fuel : ℕ) (op : TokenType) (s t : PyType)
    → IsPlain (kind_of t)
    → comparison_arm op ≡ by_membership
    → Decides (IsIterable (kind_of t)) (comparison_result fuel op s t)
unfolding comparison_result
contains fuel op s t (a, b, c) arm = elim (membership-Decides (kind_of t)) [
  | inl (is, each) ↦ inl (rw (comparison_result, arm, a, b, c, is) refl, each)
  | inr (is, none_is) ↦ inr (rw (comparison_result, arm, a, b, c, is) refl, none_is)
]

-- For operands that are neither Unknown nor classes nor unions, and with fuel for their sizes, each of
-- the ten comparisons is answered by bool exactly where its relation holds, and is not applicable
-- elsewhere: `==`, `!=`, `is` and `is not` always, `in` and `not in` where iterating the right operand
-- gives elements, the four orders between numbers, byte strings, sets, strings, tuples, and lists that
-- are subtypes of each other.
pub comparison_result-Relates :
    (fuel : ℕ) (op : TokenType) (s t : PyType) (c : Comparison op)
    → size s + size t ≤ fuel
    → IsPlain (kind_of s)
    → IsPlain (kind_of t)
    → Decides (Relates c s t) (comparison_result fuel op s t)
unfolding comparison_result comparison_arm
comparison_result-Relates fuel op s t equal le ps pt = inl (refl, tt)
comparison_result-Relates fuel op s t not_equal le ps pt = inl (refl, tt)
comparison_result-Relates fuel op s t same le ps pt = inl (refl, tt)
comparison_result-Relates fuel op s t not_same le ps pt = inl (refl, tt)
comparison_result-Relates fuel op s t member le ps pt = contains fuel op_in s t pt refl
comparison_result-Relates fuel op s t no_member le ps pt = contains fuel op_not_in s t pt refl
comparison_result-Relates fuel op s t less le ps pt = orders fuel op_less s t le ps pt refl
comparison_result-Relates fuel op s t less_equal le ps pt =
    orders fuel op_less_equal s t le ps pt refl
comparison_result-Relates fuel op s t greater le ps pt = orders fuel op_greater s t le ps pt refl
comparison_result-Relates fuel op s t greater_equal le ps pt =
    orders fuel op_greater_equal s t le ps pt refl
