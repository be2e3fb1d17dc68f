-- ===== src/Semantic/Subtype/Decided.antt =====
-- Without a class table `is_subtype` ends: fuel for the size of the two types is enough.
use cythonpp.Prelude.{
  ℕ, zero, suc, ◌+◌, ◌≤◌, ◌≡◌, refl, Bool, true, false, Option, none, some, arith, if◌then◌else◌,
}
use cythonpp.Semantic.PyType.{PyType, Types, make, nil, cons, to_list}
use cythonpp.Semantic.Subtype.Chain.{and_also, or_else}
use cythonpp.Semantic.Subtype.{
  Rule, absorbed, identical, to_object, each_member, some_member, functions, class_object,
  class_chain, tower, kinds_differ, invariant, covariant, unrelated, rule_of, all_of, any_of,
  all_pairs, all_parameters, equivalent_by, answer, class_source, is_subtype, is_equivalent,
}

-- The number of constructors of a type.
unfoldable mutual
  pub size : PyType → ℕ
  size (make k n ts d) = suc (sizes ts)

  pub sizes : Types → ℕ
  sizes nil = 0
  sizes (cons t ts) = size t + sizes ts

abbrev pub IsDecided : Option Bool → Type 0
IsDecided o = (b : Bool) × (o ≡ some b)

and_also-IsDecided : (a b : Option Bool) → IsDecided a → IsDecided b → IsDecided (and_also a b)
unfolding and_also
and_also-IsDecided a b (true, h) k = rw h k
and_also-IsDecided a b (false, h) k = rw h (false, refl)

or_else-IsDecided : (a b : Option Bool) → IsDecided a → IsDecided b → IsDecided (or_else a b)
unfolding or_else
or_else-IsDecided a b (true, h) k = rw h (true, refl)
or_else-IsDecided a b (false, h) k = rw h k

if-IsDecided :
    (c : Bool) (a b : Option Bool) → IsDecided a → IsDecided b → IsDecided (if c then a else b)
if-IsDecided true a b h k = h
if-IsDecided false a b h k = k

module _ (test : PyType → PyType → Option Bool) (n : ℕ)
    (h : (s t : PyType) → size s + size t ≤ n → IsDecided (test s t)) where
  each-IsDecided :
      (ms : Types) (t : PyType)
      → sizes ms + size t ≤ n
      → IsDecided (all_of (λ m. test m t) (to_list ms))
  unfolding all_of size
  each-IsDecided nil t le = (true, refl)
  each-IsDecided (cons m ms) t le =
      and_also-IsDecided _ _ (h m t (omega arith)) (each-IsDecided ms t (omega arith))

  some-IsDecided :
      (s : PyType) (ms : Types)
      → size s + sizes ms ≤ n
      → IsDecided (any_of (λ m. test s m) (to_list ms))
  unfolding any_of size
  some-IsDecided s nil le = (false, refl)
  some-IsDecided s (cons m ms) le =
      or_else-IsDecided _ _ (h s m (omega arith)) (some-IsDecided s ms (omega arith))

  equivalent-IsDecided : (s t : PyType) → size s + size t ≤ n → IsDecided (equivalent_by test s t)
  unfolding equivalent_by
  equivalent-IsDecided s t le = and_also-IsDecided _ _ (h s t le) (h t s (omega arith))

  parameters-IsDecided :
      (ss ts : Types)
      → sizes ss + sizes ts ≤ n
      → IsDecided (all_parameters test (to_list ss) (to_list ts))
  unfolding all_parameters size
  parameters-IsDecided nil ts le = (false, refl)
  parameters-IsDecided (cons s nil) nil le = (false, refl)
  parameters-IsDecided (cons s nil) (cons t nil) le = h s t (omega arith)
  parameters-IsDecided (cons s nil) (cons t (cons t' ts)) le = (false, refl)
  parameters-IsDecided (cons s (cons s' ss)) nil le = (false, refl)
  parameters-IsDecided (cons s (cons s' ss)) (cons t nil) le = (false, refl)
  parameters-IsDecided (cons s (cons s' ss)) (cons t (cons t' ts)) le =
      and_also-IsDecided _ _ (h t s (omega arith))
        (parameters-IsDecided (cons s' ss) (cons t' ts) (omega arith))

pairs-IsDecided :
    (test : PyType → PyType → Option Bool) (n : ℕ)
    (h : (s t : PyType) → size s + size t ≤ n → IsDecided (test s t)) (ss ts : Types)
    → sizes ss + sizes ts ≤ n
    → IsDecided (all_pairs test (to_list ss) (to_list ts))
unfolding all_pairs size
pairs-IsDecided test n h nil ts le = (true, refl)
pairs-IsDecided test n h (cons s ss) nil le = (true, refl)
pairs-IsDecided test n h (cons s ss) (cons t ts) le =
    and_also-IsDecided _ _ (h s t (omega arith)) (pairs-IsDecided test n h ss ts (omega arith))

answer-IsDecided :
    (test : PyType → PyType → Option Bool) (n fuel : ℕ)
    (h : (s t : PyType) → size s + size t ≤ n → IsDecided (test s t)) (r : Rule) (s t : PyType)
    → size s + size t ≤ suc n
    → IsDecided (answer test fuel none r s t)
unfolding answer class_source size
answer-IsDecided test n f h absorbed s t le = (true, refl)
answer-IsDecided test n f h identical s t le = (true, refl)
answer-IsDecided test n f h to_object s t le = (true, refl)
answer-IsDecided test n f h each_member (make k m as' d) t le =
    each-IsDecided test n h as' t (omega arith)
answer-IsDecided test n f h some_member s (make k m as' d) le =
    some-IsDecided test n h s as' (omega arith)
answer-IsDecided test n f h functions (make k m as' d) (make l m' bs e) le =
    if-IsDecided _ _ _ (false, refl) (parameters-IsDecided test n h as' bs (omega arith))
answer-IsDecided test n f h class_object s t le = (true, refl)
answer-IsDecided test n f h class_chain s t le = (false, refl)
answer-IsDecided test n f h tower s t le = (_, refl)
answer-IsDecided test n f h kinds_differ s t le = (false, refl)
answer-IsDecided test n f h invariant (make k m as' d) (make l m' bs e) le =
    if-IsDecided _ _ _ (false, refl)
      (pairs-IsDecided (equivalent_by test) n (equivalent-IsDecided test n h) as' bs (omega arith))
answer-IsDecided test n f h covariant (make k m as' d) (make l m' bs e) le =
    if-IsDecided _ _ _ (false, refl) (pairs-IsDecided test n h as' bs (omega arith))
answer-IsDecided test n f h unrelated s t le = (false, refl)

pub size_pos : (t : PyType) → 1 ≤ size t
unfolding size
size_pos (make k n ts d) = omega arith

-- Without a class table, fuel for the two sizes gives an answer: the recursion ends, through the
-- swaps of parameters and of invariant elements too.
pub is_subtype-IsDecided :
    (fuel : ℕ) (s t : PyType) → size s + size t ≤ fuel → IsDecided (is_subtype fuel none s t)
unfolding is_subtype
is_subtype-IsDecided zero s t le = absurd (omega (arith, size_pos s))
is_subtype-IsDecided (suc fuel) s t le =
    answer-IsDecided (is_subtype fuel none) fuel fuel (is_subtype-IsDecided fuel) (rule_of s t) s t
      le

pub is_equivalent-IsDecided :
    (fuel : ℕ) (s t : PyType) → size s + size t ≤ fuel → IsDecided (is_equivalent fuel none s t)
unfolding is_equivalent
is_equivalent-IsDecided fuel s t le =
    equivalent-IsDecided (is_subtype fuel none) fuel (is_subtype-IsDecided fuel) s t le
