-- ===== src/Semantic/Subtype/Sound.antt =====
-- What `is_subtype` accepts without a class table, the declarative relation allows.
use cythonpp.Prelude.{
  ℕ, zero, suc, ◌<◌, ◌≡◌, refl, sym, ◌∙◌, ◌⊎◌, Bool, true, false, ◌&&◌, ◌||◌, not, ◌==◌, Option,
  none, some, arith, if◌then◌else◌, Bool-cases, inl, inr,
}
use cythonpp.Prelude.Text.{text, text_eq, text_eq_iff}
use cythonpp.Semantic.Kind.{same_kind, unknown, union, callable, class, object, tuple}
use cythonpp.Semantic.Kind.Laws.{same_kind_iff}
use cythonpp.Semantic.PyType.{
  PyType, Types, make, nil, cons, to_list, has_kind, type_eq, kind_of, name_of,
}
use cythonpp.Semantic.PyType.Equality.{type_eq_iff, and_true}
use cythonpp.Semantic.Subtype.Chain.{and_also, or_else}
use cythonpp.Semantic.Subtype.{
  Rule, absorbed, identical, to_object, each_member, some_member, functions, class_object,
  class_chain, tower, kinds_differ, invariant, covariant, unrelated, rule_of, all_of, any_of,
  all_pairs, all_parameters, equivalent_by, answer, class_source, is_subtype, numeric_rank,
  is_invariant_container, same_length,
}
use cythonpp.Semantic.Subtype.Rules.{
  Sub, from_unknown, into_unknown, reflexive, into_object, from_union, into_union, class_objects,
  wider, same_elements, tuples, EachSub, each_nil, each_cons, SomeSub, some_here, some_there,
  FunctionSub, result, parameter, BothSub, both_nil, both_cons, PairSub, pair_nil, pair_cons,
}
use cythonpp.Semantic.Subtype.Rules

-- What the tests say that lead to a rule.
abbrev Facts : Rule → PyType → PyType → Type 0
Facts absorbed s t = (has_kind unknown s || has_kind unknown t) ≡ true
Facts identical s t = type_eq s t ≡ true
Facts to_object s t = has_kind object t ≡ true
Facts each_member s t = has_kind union s ≡ true
Facts some_member s t = (has_kind union s ≡ false) × (has_kind union t ≡ true)
Facts functions s t = (has_kind callable s && has_kind callable t) ≡ true
Facts class_object s t =
    (has_kind callable s && has_kind class t && text_eq (name_of t) (text "type")) ≡ true
Facts tower s t =
    (not (numeric_rank (kind_of s) == 0) && not (numeric_rank (kind_of t) == 0)) ≡ true
Facts invariant s t =
    (not (same_kind (kind_of s) (kind_of t)) ≡ false) × (is_invariant_container (kind_of s) ≡ true)
Facts covariant s t = (not (same_kind (kind_of s) (kind_of t)) ≡ false) × (has_kind tuple s ≡ true)
Facts class_chain s t = Unit
Facts kinds_differ s t = Unit
Facts unrelated s t = Unit

-- A test with what it says.
choose :
    (P : Rule → Type 0) (b : Bool) (r r' : Rule)
    → (b ≡ true → P r)
    → (b ≡ false → P r')
    → P (if b then r else r')
choose P true r r' h k = h refl
choose P false r r' h k = k refl

rule_of-Facts : (s t : PyType) → Facts (rule_of s t) s t
unfolding rule_of
rule_of-Facts s t =
    choose F _ absorbed _ (λ h. h)
      (λ _.
        choose F _ identical _ (λ h. h)
          (λ _.
            choose F _ to_object _ (λ h. h)
              (λ _.
                choose F _ each_member _ (λ h. h)
                  (λ no_union.
                    choose F _ some_member _ (λ h. (no_union, h))
                      (λ _.
                        choose F _ functions _ (λ h. h)
                          (λ _.
                            choose F _ class_object _ (λ h. h)
                              (λ _.
                                choose F (has_kind class s) class_chain _ (λ _. tt)
                                  (λ _.
                                    choose F _ tower _ (λ h. h)
                                      (λ _.
                                        choose F (not (same_kind (kind_of s) (kind_of t)))
                                          kinds_differ _ (λ _. tt)
                                          (λ same.
                                            choose F _ invariant _ (λ h. (same, h))
                                              (λ _.
                                                choose F _ covariant unrelated (λ h. (same, h))
                                                  (λ _. tt))))))))))))
  where
    F : Rule → Type 0
    F r = Facts r s t

pub and_also-true :
    (a b : Option Bool) → and_also a b ≡ some true → (a ≡ some true) × (b ≡ some true)
unfolding and_also
and_also-true none b h = cc
and_also-true (some true) b h = (refl, h)
and_also-true (some false) b h = cc

or_else-true : (a b : Option Bool) → or_else a b ≡ some true → (a ≡ some true) ⊎ (b ≡ some true)
unfolding or_else
or_else-true none b h = cc
or_else-true (some true) b h = inl refl
or_else-true (some false) b h = inr h

if_true :
    (c : Bool) (a : Option Bool)
    → (if c then some false else a) ≡ some true
    → (c ≡ false) × (a ≡ some true)
if_true true a h = cc
if_true false a h = (refl, h)

not-false : (b : Bool) → not b ≡ false → b ≡ true
not-false true h = refl
not-false false h = cc

some-true : (b : Bool) → some b ≡ some true → b ≡ true
some-true true h = refl
some-true false h = cc

pub ranked : (n : ℕ) → not (n == 0) ≡ true → 0 < n
ranked n h = ground arith

module _ (test : PyType → PyType → Option Bool)
    (h : (s t : PyType) → test s t ≡ some true → Sub s t) where
  each_sound :
      (ms : Types) (t : PyType) → all_of (λ m. test m t) (to_list ms) ≡ some true → EachSub ms t
  unfolding all_of
  each_sound nil t e = each_nil t
  each_sound (cons m ms) t e =
      let both = and_also-true (test m t) _ e in
      each_cons m ms t (h m t both.0) (each_sound ms t both.1)

  some_sound :
      (s : PyType) (ms : Types) → any_of (λ m. test s m) (to_list ms) ≡ some true → SomeSub s ms
  unfolding any_of
  some_sound s nil e = cc
  some_sound s (cons m ms) e = elim (or_else-true (test s m) _ e) [
    | inl first ↦ some_here s m ms (h s m first)
    | inr later ↦ some_there s m ms (some_sound s ms later)
  ]

  parameters_sound :
      (ss ts : Types)
      → all_parameters test (to_list ss) (to_list ts) ≡ some true
      → FunctionSub ss ts
  unfolding all_parameters
  parameters_sound nil ts e = cc
  parameters_sound (cons s nil) nil e = cc
  parameters_sound (cons s nil) (cons t nil) e = result s t (h s t e)
  parameters_sound (cons s nil) (cons t (cons t' ts)) e = cc
  parameters_sound (cons s (cons s' ss)) nil e = cc
  parameters_sound (cons s (cons s' ss)) (cons t nil) e = cc
  parameters_sound (cons s (cons s' ss)) (cons t (cons t' ts)) e =
      let both = and_also-true (test t s) _ e in
      parameter s s' t t' ss ts (h t s both.0) (parameters_sound (cons s' ss) (cons t' ts) both.1)

  both_sound :
      (ss ts : Types)
      → same_length (to_list ss) (to_list ts) ≡ true
      → all_pairs (equivalent_by test) (to_list ss) (to_list ts) ≡ some true
      → BothSub ss ts
  unfolding all_pairs equivalent_by
  both_sound nil nil l e = both_nil
  both_sound nil (cons t ts) l e = absurd (ground arith)
  both_sound (cons s ss) nil l e = absurd (ground arith)
  both_sound (cons s ss) (cons t ts) l e =
      let both = and_also-true (equivalent_by test s t) _ e in
      let ways = and_also-true (test s t) (test t s) both.0 in
      both_cons s t ss ts (h s t ways.0) (h t s ways.1) (both_sound ss ts (ground arith) both.1)

  pairs_sound :
      (ss ts : Types)
      → same_length (to_list ss) (to_list ts) ≡ true
      → all_pairs test (to_list ss) (to_list ts) ≡ some true
      → PairSub ss ts
  unfolding all_pairs
  pairs_sound nil nil l e = pair_nil
  pairs_sound nil (cons t ts) l e = absurd (ground arith)
  pairs_sound (cons s ss) nil l e = absurd (ground arith)
  pairs_sound (cons s ss) (cons t ts) l e =
      let both = and_also-true (test s t) _ e in
      pair_cons s t ss ts (h s t both.0) (pairs_sound ss ts (ground arith) both.1)

  absorbed_sound : (s t : PyType) → Facts absorbed s t → Sub s t
  absorbed_sound s t f = elim (Bool-cases (has_kind unknown s)) [
    | inl source ↦ from_unknown s t source
    | inr known ↦ into_unknown s t (rw known at f)
  ]

  answer_sound :
      (fuel : ℕ) (r : Rule) (s t : PyType)
      → Facts r s t
      → answer test fuel none r s t ≡ some true
      → Sub s t
  unfolding answer class_source
  answer_sound fuel absorbed s t f e = absorbed_sound s t f
  answer_sound fuel identical s t f e = reflexive s t ((type_eq_iff s t).0 f)
  answer_sound fuel to_object s t f e = into_object s t f
  answer_sound fuel each_member (make k n ms d) t f e =
      let is = (same_kind_iff k union).0 f in rw is (from_union n ms d t (each_sound ms t e))
  answer_sound fuel some_member s (make k n ms d) f e =
      let is = (same_kind_iff k union).0 f.1 in rw is (into_union s n ms d f.0 (some_sound s ms e))
  answer_sound fuel functions (make k n ss d) (make l m ts c) f e =
      let both = and_true (same_kind k callable) (same_kind l callable) f in
      let left = (same_kind_iff k callable).0 both.0 in
      let right = (same_kind_iff l callable).0 both.1 in
      rw (left, right) (Rules.functions n m ss ts d c (parameters_sound ss ts (if_true _ _ e).1))
  answer_sound fuel class_object (make k n ss d) (make l m ts c) f e =
      let both = and_true (same_kind k callable && same_kind l class) (text_eq m (text "type")) f in
      let kinds = and_true (same_kind k callable) (same_kind l class) both.0 in
      let left = (same_kind_iff k callable).0 kinds.0 in
      let right = (same_kind_iff l class).0 kinds.1 in
      let name = (text_eq_iff m (text "type")).0 both.1 in
      rw (left, right, name) (class_objects n ss ts d c)
  answer_sound fuel class_chain s t f e = cc
  answer_sound fuel tower (make k n ss d) (make l m ts c) f e =
      let both = and_true (not (numeric_rank k == 0)) (not (numeric_rank l == 0)) f in
      wider k l n m ss ts d c (ranked (numeric_rank k) both.0) (ground (arith, some-true _ e))
  answer_sound fuel kinds_differ s t f e = cc
  answer_sound fuel invariant (make k n ss d) (make l m ts c) f e =
      let same = (same_kind_iff k l).0 (not-false (same_kind k l) f.0) in
      let pairs = if_true _ _ e in
      rw (sym same)
        (same_elements k n m ss ts d c f.1 (both_sound ss ts (not-false _ pairs.0) pairs.1))
  answer_sound fuel covariant (make k n ss d) (make l m ts c) f e =
      let left = (same_kind_iff k tuple).0 f.1 in
      let right = sym ((same_kind_iff k l).0 (not-false (same_kind k l) f.0)) ∙ left in
      let pairs = if_true _ _ e in
      rw (left, right) (tuples n m ss ts d c (pairs_sound ss ts (not-false _ pairs.0) pairs.1))
  answer_sound fuel unrelated s t f e = cc

-- Whatever the fuel, an accepted pair is in the relation.
pub is_subtype-Sub : (fuel : ℕ) (s t : PyType) → is_subtype fuel none s t ≡ some true → Sub s t
unfolding is_subtype
is_subtype-Sub zero s t e = cc
is_subtype-Sub (suc fuel) s t e =
    answer_sound (is_subtype fuel none) (is_subtype-Sub fuel) fuel (rule_of s t) s t
      (rule_of-Facts s t) e
