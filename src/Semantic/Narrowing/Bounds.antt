-- ===== src/Semantic/Narrowing/Bounds.antt =====
-- What is above the parts of a union, and what is above a union or an object.
use cythonpp.Prelude.{
  ℕ, ◌<◌, ◌≡◌, refl, sym, ap, ◌∙◌, inl, inr, true, false, List, [], ◌∷◌, ◌++◌, arith, All,
  Bool-cases,
}
use cythonpp.Prelude.Text.{Text}
use cythonpp.Semantic.Kind.{TypeKind, unknown, union, object, same_kind, kind_index}
use cythonpp.Semantic.Kind.Laws.{same_kind_iff}
use cythonpp.Semantic.PyType.{
  PyType, Types, make, nil, cons, kind_of, to_list, has_kind, of_kind, spread, flatten, any_type,
  union_of, type_eq,
}
use cythonpp.Semantic.PyType.Equality.{type_eq_iff}
use cythonpp.Semantic.PyType.Distinct.{occurs, any_type-append}
use cythonpp.Semantic.PyType.Union.{IsProper}
use cythonpp.Semantic.Subtype.{numeric_rank, is_invariant_container}
use cythonpp.Semantic.Subtype.Rules.{
  Sub, from_unknown, into_unknown, reflexive, into_object, from_union, into_union, functions,
  class_objects, wider, same_elements, tuples, EachSub, each_cons, SomeSub, some_here, some_there,
}
use cythonpp.Semantic.Join.UpperBound.{
  union_of-Sub, each-Sub, flat_of, occurs_here, occurs_front, or_right,
}

-- A part is below a union among whose flat members its own stand.
part-Sub :
    (t : PyType) (us : List PyType)
    → IsProper t
    → ((m : PyType) → occurs m (spread t) ≡ true → occurs m (flatten us) ≡ true)
    → Sub t (union_of us)
part-Sub (make k n ms d) us proper within = elim (Bool-cases (same_kind k union)) [
  | inr plain ↦
      union_of-Sub (make k n ms d) us plain
        (within (make k n ms d) (rw plain (occurs_here (make k n ms d) [])))
  | inl nested ↦ nested_part proper ((same_kind_iff k union).0 nested)
]
  where
    nested_part : IsProper (make k n ms d) → k ≡ union → Sub (make k n ms d) (union_of us)
    nested_part (inl plain) e =
        let nest = (same_kind_iff k union).1 e in let clash : true ≡ false = sym nest ∙ plain in cc
    nested_part (inr members) e =
        let nest = (same_kind_iff k union).1 e in
        let inside : (m : PyType) → occurs m (to_list ms) ≡ true → occurs m (flatten us) ≡ true =
          λ m h. within m (rw nest h) in
        rw e
          (from_union n ms d (union_of us) (each-Sub ms us (flat_of (to_list ms) members.2) inside))

occurs_back : (t : PyType) (ts us : List PyType) → occurs t us ≡ true → occurs t (ts ++ us) ≡ true
occurs_back t ts us h = rw (any_type-append (λ k. type_eq k t) ts) (or_right _ _ h)

pub parts-Sub :
    (ts us : List PyType)
    → All IsProper ts
    → ((m : PyType) → occurs m (flatten ts) ≡ true → occurs m (flatten us) ≡ true)
    → All (λ t. Sub t (union_of us)) ts
unfolding flatten
parts-Sub [] us h within = tt
parts-Sub (t ∷ ts) us h within = (
  part-Sub t us h.0 (λ m o. within m (occurs_front m (spread t) (flatten ts) o)),
  parts-Sub ts us h.1 (λ m o. within m (occurs_back m (spread t) (flatten ts) o)),
)

-- A union is above no more than its members are.
each-nth : (ms : Types) (u m : PyType) → EachSub ms u → occurs m (to_list ms) ≡ true → Sub m u
unfolding any_type
each-nth nil u m e h = cc
each-nth (cons k ms) u m (each_cons _ _ _ first rest) h = elim (Bool-cases (type_eq k m)) [
  | inl same ↦ rw (← (type_eq_iff k m).0 same) first
  | inr other ↦ each-nth ms u m rest (rw other at h)
]

to_list-SomeSub : (ms : Types) (m : PyType) → occurs m (to_list ms) ≡ true → SomeSub m ms
unfolding any_type
to_list-SomeSub nil m h = cc
to_list-SomeSub (cons k ms) m h = elim (Bool-cases (type_eq k m)) [
  | inl same ↦ some_here m k ms (reflexive m k (sym ((type_eq_iff k m).0 same)))
  | inr other ↦ some_there m k ms (to_list-SomeSub ms m (rw other at h))
]

pub two_kinds :
    (k l j : TypeKind) → same_kind l j ≡ false → same_kind k l ≡ true → same_kind k j ≡ true → ⊥
two_kinds k l j h a b =
    let is : l ≡ j = sym ((same_kind_iff k l).0 a) ∙ (same_kind_iff k j).0 b in
    let clash : true ≡ false = sym ((same_kind_iff l j).1 is) ∙ h in cc

unranked : (k : TypeKind) → same_kind k object ≡ true → 0 < numeric_rank k → ⊥
unfolding numeric_rank
unranked k h x =
    let rank : numeric_rank k ≡ 0 = ap numeric_rank ((same_kind_iff k object).0 h) in
    omega (arith, rank, x)

variant : (k : TypeKind) → same_kind k object ≡ true → is_invariant_container k ≡ true → ⊥
unfolding is_invariant_container kind_index
variant k h x =
    let clash : true ≡ false = sym x ∙ ap is_invariant_container ((same_kind_iff k object).0 h) in
    cc

module _ (n : Text) (ms : Types) (d : ℕ) where
  pub member-Sub :
      (u m : PyType)
      → has_kind union m ≡ false
      → occurs m (to_list ms) ≡ true
      → Sub (make union n ms d) u
      → Sub m u
  unfolding same_kind kind_index numeric_rank is_invariant_container
  member-Sub u m plain h (from_unknown _ _ e) = cc
  member-Sub u m plain h (into_unknown _ _ e) = into_unknown m u e
  member-Sub u m plain h (reflexive _ _ e) =
      rw (← e) (into_union m n ms d plain (to_list-SomeSub ms m h))
  member-Sub u m plain h (into_object _ _ e) = into_object m u e
  member-Sub u m plain h (from_union _ _ _ _ e) = each-nth ms u m e h
  member-Sub u m plain h (into_union _ _ _ _ e x) = cc
  member-Sub u m plain h (wider _ _ _ _ _ _ _ _ x y) = absurd (omega arith)
  member-Sub u m plain h (same_elements _ _ _ _ _ _ _ e x) = cc

-- What lies above an object type lies above `object` itself.
mutual
  unfolding same_kind kind_index numeric_rank is_invariant_container

  pub object-Sub : (o u : PyType) → has_kind object o ≡ true → Sub o u → Sub (of_kind object) u
  object-Sub o u h (from_unknown _ _ e) = absurd (two_kinds (kind_of o) object unknown refl h e)
  object-Sub o u h (into_unknown _ _ e) = into_unknown (of_kind object) u e
  object-Sub o u h (reflexive _ _ e) = into_object (of_kind object) u (rw (← e) h)
  object-Sub o u h (into_object _ _ e) = into_object (of_kind object) u e
  object-Sub o u h (from_union _ _ _ _ e) = cc
  object-Sub o u h (into_union _ n ms d e x) =
      into_union (of_kind object) n ms d refl (object-SomeSub o ms h x)
  object-Sub o u h (functions _ _ _ _ _ _ x) = cc
  object-Sub o u h (class_objects _ _ _ _ _) = cc
  object-Sub o u h (wider k _ _ _ _ _ _ _ x y) = absurd (unranked k h x)
  object-Sub o u h (same_elements k _ _ _ _ _ _ e x) = absurd (variant k h e)
  object-Sub o u h (tuples _ _ _ _ _ _ x) = cc

  object-SomeSub :
      (o : PyType) (ms : Types)
      → has_kind object o ≡ true
      → SomeSub o ms
      → SomeSub (of_kind object) ms
  object-SomeSub o _ h (some_here _ m ms x) = some_here (of_kind object) m ms (object-Sub o m h x)
  object-SomeSub o _ h (some_there _ m ms x) =
      some_there (of_kind object) m ms (object-SomeSub o ms h x)
