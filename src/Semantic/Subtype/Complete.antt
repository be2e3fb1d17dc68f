-- ===== src/Semantic/Subtype/Complete.antt =====
-- What the declarative relation allows, `is_subtype` accepts: with the sound direction, the early
-- returns in their order decide the relation.
use cythonpp.Prelude.{
  ℕ, zero, suc, ◌+◌, ◌≤◌, ◌<◌, ◌≡◌, refl, sym, ◌↔◌, Bool, true, false, ◌&&◌, ◌||◌, not, ◌==◌,
  Option, none, some, arith, if◌then◌else◌,
}
use cythonpp.Prelude.Text.{text, text_eq}
use cythonpp.Semantic.Kind.{
  TypeKind, same_kind, kind_index, unknown, bool, int, float, complex, list, dict, set, frozenset,
  tuple, union, callable, class, object,
}
use cythonpp.Semantic.Kind.Laws.{same_kind_iff}
use cythonpp.Semantic.PyType.{PyType, Types, make, to_list, has_kind, type_eq, kind_of, name_of}
use cythonpp.Semantic.PyType.Equality.{type_eq_iff}
use cythonpp.Semantic.Subtype.Chain.{and_also, or_else}
use cythonpp.Semantic.Subtype.{
  Rule, absorbed, identical, to_object, each_member, some_member, functions, class_object,
  class_chain, tower, kinds_differ, invariant, covariant, unrelated, rule_of, all_of, any_of,
  all_pairs, all_parameters, equivalent_by, answer, is_subtype, numeric_rank,
  is_invariant_container, same_length, is_empty,
}
use cythonpp.Semantic.Subtype.Rules.{
  Sub, from_unknown, into_unknown, reflexive, into_object, from_union, into_union, class_objects,
  wider, same_elements, tuples, EachSub, each_nil, each_cons, SomeSub, some_here, some_there,
  FunctionSub, result, parameter, BothSub, both_nil, both_cons, PairSub, pair_nil, pair_cons,
}
use cythonpp.Semantic.Subtype.Rules
use cythonpp.Semantic.Subtype.Decided.{size, sizes, IsDecided, is_subtype-IsDecided, size_pos}
use cythonpp.Semantic.Subtype.Sound.{is_subtype-Sub}

-- The rules after the first three.
abbrev later_rule : PyType → PyType → Rule
later_rule source target =
    if has_kind union source
    then each_member
    else if has_kind union target
    then some_member
    else if has_kind callable source && has_kind callable target
    then functions
    else if has_kind callable source
        && has_kind class target
        && text_eq (name_of target) (text "type")
    then class_object
    else if has_kind class source
    then class_chain
    else if not (numeric_rank (kind_of source) == 0) && not (numeric_rank (kind_of target) == 0)
    then tower
    else if not (same_kind (kind_of source) (kind_of target))
    then kinds_differ
    else if is_invariant_container (kind_of source)
    then invariant
    else if has_kind tuple source
    then covariant
    else unrelated

-- `is_subtype` accepts by a rule.
abbrev AcceptsBy : ℕ → PyType → PyType → Rule → Type 0
AcceptsBy f s t r = answer (is_subtype f none) f none r s t ≡ some true

accepts_early :
    (f : ℕ) (s t : PyType) (a b c : Bool) (r : Rule)
    → AcceptsBy f s t r
    → AcceptsBy f s t (if a then absorbed else if b then identical else if c then to_object else r)
unfolding answer
accepts_early f s t true b c r h = refl
accepts_early f s t false true c r h = refl
accepts_early f s t false false true r h = refl
accepts_early f s t false false false r h = h

-- The first three rules all accept, so only the later ones matter.
accepts_later :
    (f : ℕ) (s t : PyType)
    → AcceptsBy f s t (later_rule s t)
    → is_subtype (suc f) none s t ≡ some true
unfolding is_subtype rule_of
accepts_later f s t h =
    accepts_early f s t (has_kind unknown s || has_kind unknown t) (type_eq s t) (has_kind object t)
      (later_rule s t) h

accepts_by :
    (f : ℕ) (s t : PyType) (r : Rule)
    → later_rule s t ≡ r
    → AcceptsBy f s t r
    → is_subtype (suc f) none s t ≡ some true
accepts_by f s t r e h = accepts_later f s t (rw e h)

accepts_unknown :
    (f : ℕ) (s t : PyType)
    → (has_kind unknown s || has_kind unknown t) ≡ true
    → is_subtype (suc f) none s t ≡ some true
unfolding is_subtype rule_of answer
accepts_unknown f s t h = rw h refl

accepts_same : (f : ℕ) (s t : PyType) → type_eq s t ≡ true → is_subtype (suc f) none s t ≡ some true
unfolding is_subtype rule_of answer
accepts_same f s t h = ground (arith, h)

accepts_object :
    (f : ℕ) (s t : PyType) → has_kind object t ≡ true → is_subtype (suc f) none s t ≡ some true
unfolding is_subtype rule_of answer
accepts_object f s t h = ground (arith, h)

or_right : (a b : Bool) → b ≡ true → (a || b) ≡ true
or_right true b h = refl
or_right false b h = h

-- A kind that no rule before the tower reads.
abbrev IsPlain : TypeKind → Type 0
IsPlain k =
    (same_kind k union ≡ false) × (same_kind k callable ≡ false) × (same_kind k class ≡ false)

numeric-IsPlain :
    (k : TypeKind) → 0 < numeric_rank k → IsPlain k × (not (numeric_rank k == 0) ≡ true)
unfolding same_kind kind_index numeric_rank
numeric-IsPlain bool h = ((refl, refl, refl), refl)
numeric-IsPlain int h = ((refl, refl, refl), refl)
numeric-IsPlain float h = ((refl, refl, refl), refl)
numeric-IsPlain complex h = ((refl, refl, refl), refl)
numeric-IsPlain _ h = absurd (omega arith)

container-IsPlain :
    (k : TypeKind) → is_invariant_container k ≡ true → IsPlain k × (numeric_rank k ≡ 0)
unfolding same_kind kind_index numeric_rank is_invariant_container
container-IsPlain list h = ((refl, refl, refl), refl)
container-IsPlain dict h = ((refl, refl, refl), refl)
container-IsPlain set h = ((refl, refl, refl), refl)
container-IsPlain frozenset h = ((refl, refl, refl), refl)
container-IsPlain _ h = cc

accepts_if :
    (c : Bool) (a : Option Bool)
    → c ≡ false
    → a ≡ some true
    → (if c then some false else a) ≡ some true
accepts_if c a h k = rw (h, k)

unequal_false : (b : Bool) → b ≡ true → not b ≡ false
unequal_false b h = rw h

length-BothSub : {ss ts : Types} → BothSub ss ts → same_length (to_list ss) (to_list ts) ≡ true
length-BothSub both_nil = refl
length-BothSub (both_cons s t ss ts h k rest) = let shorter = length-BothSub rest in ground arith

length-PairSub : {ss ts : Types} → PairSub ss ts → same_length (to_list ss) (to_list ts) ≡ true
length-PairSub pair_nil = refl
length-PairSub (pair_cons s t ss ts h rest) = let shorter = length-PairSub rest in ground arith

length-FunctionSub :
    {ss ts : Types} → FunctionSub ss ts → same_length (to_list ss) (to_list ts) ≡ true
length-FunctionSub (result s t h) = refl
length-FunctionSub (parameter s s' t t' ss ts h rest) =
    let shorter = length-FunctionSub rest in ground arith

functions_indexed :
    {ss ts : Types}
    → FunctionSub ss ts
    → (is_empty (to_list ss)
        || is_empty (to_list ts)
        || not (same_length (to_list ss) (to_list ts)))
      ≡ false
functions_indexed (result s t h) = refl
functions_indexed (parameter s s' t t' ss ts h rest) =
    unequal_false _ (length-FunctionSub (parameter s s' t t' ss ts h rest))

tower_rule :
    (s t : PyType)
    → IsPlain (kind_of s) × (not (numeric_rank (kind_of s) == 0) ≡ true)
    → IsPlain (kind_of t) × (not (numeric_rank (kind_of t) == 0) ≡ true)
    → later_rule s t ≡ tower
tower_rule s t p q = rw (p.0.0, q.0.0, p.0.1, p.0.2, p.1, q.1)

invariant_rule :
    (s t : PyType)
    → kind_of s ≡ kind_of t
    → IsPlain (kind_of s) × (numeric_rank (kind_of s) ≡ 0)
    → is_invariant_container (kind_of s) ≡ true
    → later_rule s t ≡ invariant
invariant_rule s t e p h =
    rw (sym e, p.0.0, p.0.1, p.0.2, p.1, (same_kind_iff (kind_of s) (kind_of s)).1 refl, h)

and_also-some : (a b : Option Bool) → a ≡ some true → b ≡ some true → and_also a b ≡ some true
unfolding and_also
and_also-some a b h k = rw (h, k)

or_else_first : (a b : Option Bool) → a ≡ some true → or_else a b ≡ some true
unfolding or_else
or_else_first a b h = rw h

or_else_second : (a b : Option Bool) → IsDecided a → b ≡ some true → or_else a b ≡ some true
unfolding or_else
or_else_second a b (true, h) k = rw h
or_else_second a b (false, h) k = rw (h, k)

mutual
  unfolding answer size all_of any_of all_pairs all_parameters equivalent_by same_kind kind_index
      text_eq numeric_rank is_invariant_container

  -- With fuel for the two sizes.
  complete :
      (f : ℕ) {s t : PyType} → Sub s t → size s + size t ≤ f → is_subtype f none s t ≡ some true
  complete zero {s} d le = absurd (omega (arith, size_pos s))
  complete (suc f) (from_unknown s t h) le = accepts_unknown f s t (rw h)
  complete (suc f) (into_unknown s t h) le = accepts_unknown f s t (or_right _ _ h)
  complete (suc f) (reflexive s t h) le = accepts_same f s t ((type_eq_iff s t).1 h)
  complete (suc f) (into_object s t h) le = accepts_object f s t h
  complete (suc f) (from_union n ms d t h) le =
      accepts_by f (make union n ms d) t each_member refl (complete_each f h (omega arith))
  complete (suc f) (into_union s n ms d plain h) le =
      accepts_by f s (make union n ms d) some_member (rw plain) (complete_some f h (omega arith))
  complete (suc f) (Rules.functions n m ss ts d e h) le =
      accepts_by f (make callable n ss d) (make callable m ts e) functions refl
        (accepts_if _ _ (functions_indexed h) (complete_parameters f h (omega arith)))
  complete (suc f) (class_objects n ss ts d e) le =
      accepts_by f (make callable n ss d) (make class (text "type") ts e) class_object refl refl
  complete (suc f) (wider k l n m ss ts d e pos le') le =
      let p = numeric-IsPlain k pos in
      let q = numeric-IsPlain l (omega arith) in
      accepts_by f (make k n ss d) (make l m ts e) tower
        (tower_rule (make k n ss d) (make l m ts e) p q) (ground arith)
  complete (suc f) (same_elements k n m ss ts d e is h) le =
      let p = container-IsPlain k is in
      accepts_by f (make k n ss d) (make k m ts e) invariant
        (invariant_rule (make k n ss d) (make k m ts e) refl p is)
        (accepts_if _ _ (unequal_false _ (length-BothSub h)) (complete_both f h (omega arith)))
  complete (suc f) (tuples n m ss ts d e h) le =
      accepts_by f (make tuple n ss d) (make tuple m ts e) covariant refl
        (accepts_if _ _ (unequal_false _ (length-PairSub h)) (complete_pairs f h (omega arith)))

  complete_each :
      (f : ℕ) {ms : Types} {t : PyType}
      → EachSub ms t
      → sizes ms + size t ≤ f
      → all_of (λ m. is_subtype f none m t) (to_list ms) ≡ some true
  complete_each f (each_nil t) le = refl
  complete_each f (each_cons m ms t h rest) le =
      and_also-some _ _ (complete f h (omega arith)) (complete_each f rest (omega arith))

  complete_some :
      (f : ℕ) {s : PyType} {ms : Types}
      → SomeSub s ms
      → size s + sizes ms ≤ f
      → any_of (λ m. is_subtype f none s m) (to_list ms) ≡ some true
  complete_some f (some_here s m ms h) le = or_else_first _ _ (complete f h (omega arith))
  complete_some f (some_there s m ms rest) le =
      or_else_second _ _ (is_subtype-IsDecided f s m (omega arith))
        (complete_some f rest (omega arith))

  complete_parameters :
      (f : ℕ) {ss ts : Types}
      → FunctionSub ss ts
      → sizes ss + sizes ts ≤ f
      → all_parameters (is_subtype f none) (to_list ss) (to_list ts) ≡ some true
  complete_parameters f (result s t h) le = complete f h (omega arith)
  complete_parameters f (parameter s s' t t' ss ts h rest) le =
      and_also-some _ _ (complete f h (omega arith)) (complete_parameters f rest (omega arith))

  complete_both :
      (f : ℕ) {ss ts : Types}
      → BothSub ss ts
      → sizes ss + sizes ts ≤ f
      → all_pairs (equivalent_by (is_subtype f none)) (to_list ss) (to_list ts) ≡ some true
  complete_both f both_nil le = refl
  complete_both f (both_cons s t ss ts h k rest) le =
      and_also-some _ _
        (and_also-some _ _ (complete f h (omega arith)) (complete f k (omega arith)))
        (complete_both f rest (omega arith))

  complete_pairs :
      (f : ℕ) {ss ts : Types}
      → PairSub ss ts
      → sizes ss + sizes ts ≤ f
      → all_pairs (is_subtype f none) (to_list ss) (to_list ts) ≡ some true
  complete_pairs f pair_nil le = refl
  complete_pairs f (pair_cons s t ss ts h rest) le =
      and_also-some _ _ (complete f h (omega arith)) (complete_pairs f rest (omega arith))

-- Without a class table and with fuel for the two sizes, `is_subtype` accepts exactly the pairs of
-- the declarative relation, and rejects the others.
pub is_subtype_iff-Sub :
    (f : ℕ) (s t : PyType)
    → size s + size t ≤ f
    → ((is_subtype f none s t ≡ some true) ↔ Sub s t) × IsDecided (is_subtype f none s t)
is_subtype_iff-Sub f s t le =
    ((is_subtype-Sub f s t, λ d. complete f d le), is_subtype-IsDecided f s t le)
