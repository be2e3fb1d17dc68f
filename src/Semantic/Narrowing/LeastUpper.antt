-- ===== src/Semantic/Narrowing/LeastUpper.antt =====
-- A union as a least upper bound of its parts, after the collapse to `object` too.
use cythonpp.Prelude.{
  ◌≡◌, refl, sym, ap, ◌∙◌, inl, inr, Bool, true, false, ◌&&◌, ◌||◌, List, [], ◌∷◌, ◌++◌, All,
  Bool-cases,
}
use cythonpp.Semantic.Kind.{unknown, union, object, same_kind, kind_index}
use cythonpp.Semantic.Kind.Laws.{same_kind_iff}
use cythonpp.Semantic.PyType.{
  PyType, Types, make, nil, cons, kind_of, args_of, to_list, of_list, has_kind, of_kind, spread,
  flatten, any_type, distinct, collapse, union_of, type_eq,
}
use cythonpp.Semantic.PyType.Equality.{type_eq_iff}
use cythonpp.Semantic.PyType.Distinct.{occurs, any_type-append, occurs-distinct}
use cythonpp.Semantic.PyType.Union.{IsProper, IsMember, to_list-of_list}
use cythonpp.Semantic.Subtype.Rules.{
  Sub, from_unknown, into_object, from_union, EachSub, each_nil, each_cons,
}
use cythonpp.Semantic.Join.UpperBound.{occurs_here, occurs_later, or_left}
use cythonpp.Semantic.Narrowing.{collapse_object_union}
use cythonpp.Semantic.Narrowing.Bounds.{parts-Sub, two_kinds, member-Sub, object-Sub}

-- `v` is above every part, and below whatever is above every part.
abbrev pub IsJoin : List PyType → PyType → Type 0
IsJoin ts v = All (λ t. Sub t v) ts × ((u : PyType) → All (λ t. Sub t u) ts → Sub v u)

both : (a b : Bool) → (a && b) ≡ true → (a ≡ true) × (b ≡ true)
both true true h = (refl, refl)
both true false h = cc
both false b h = cc

not_union : (o : PyType) → has_kind object o ≡ true → has_kind union o ≡ false
unfolding same_kind kind_index
not_union o h = elim (Bool-cases (has_kind union o)) [
  | inl both_kinds ↦ absurd (two_kinds (kind_of o) object union refl h both_kinds)
  | inr e ↦ e
]

All-occurs {ℓ} :
    (P : PyType → Type ℓ) (m : PyType) (ts : List PyType) → All P ts → occurs m ts ≡ true → P m
unfolding any_type
All-occurs P m [] h o = cc
All-occurs P m (t ∷ ts) h o = elim (Bool-cases (type_eq t m)) [
  | inl same ↦ rw (← (type_eq_iff t m).0 same) h.0
  | inr other ↦ All-occurs P m ts h.1 (rw other at o)
]

EachSub-occurs :
    (ms : Types) (u : PyType)
    → ((m : PyType) → occurs m (to_list ms) ≡ true → Sub m u)
    → EachSub ms u
EachSub-occurs nil u h = each_nil u
EachSub-occurs (cons m ms) u h =
    each_cons m ms u (h m (occurs_here m (to_list ms)))
      (EachSub-occurs ms u (λ k o. h k (occurs_later k m (to_list ms) o)))

-- What is above a part is above its flat members.
spread-Sub : (t u m : PyType) → IsProper t → Sub t u → occurs m (spread t) ≡ true → Sub m u
unfolding any_type
spread-Sub (make k n ms d) u m proper above h = elim (Bool-cases (same_kind k union)) [
  | inr plain ↦
      let alone : (type_eq (make k n ms d) m || false) ≡ true = (rw plain at h) in
      rw
        (← (type_eq_iff (make k n ms d) m).0 (or_left (type_eq (make k n ms d) m) false alone refl))
        above
  | inl nested ↦ member_of proper nested
]
  where
    member_of : IsProper (make k n ms d) → same_kind k union ≡ true → Sub m u
    member_of (inl plain) nested = let clash : true ≡ false = sym nested ∙ plain in cc
    member_of (inr members) nested =
        let inside : occurs m (to_list ms) ≡ true = (rw nested at h) in
        let whole : Sub (make union n ms d) u = (rw ((same_kind_iff k union).0 nested) at above) in
        member-Sub n ms d u m (All-occurs IsMember m (to_list ms) members.2 inside).0 inside whole

flatten-Sub :
    (ts : List PyType) (u m : PyType)
    → All IsProper ts
    → All (λ t. Sub t u) ts
    → occurs m (flatten ts) ≡ true
    → Sub m u
unfolding flatten any_type
flatten-Sub [] u m h above o = cc
flatten-Sub (t ∷ ts) u m h above o = elim (Bool-cases (occurs m (spread t))) [
  | inl here ↦ spread-Sub t u m h.0 above.0 here
  | inr there ↦
      let split : occurs m (spread t ++ flatten ts)
          ≡ (occurs m (spread t) || occurs m (flatten ts)) =
        any_type-append (λ k. type_eq k m) (spread t) (flatten ts) in
      let later : occurs m (flatten ts) ≡ true =
        ap (λ b. b || occurs m (flatten ts)) (sym there) ∙ sym split ∙ o in
      flatten-Sub ts u m h.1 above.1 later
]

collapse-least :
    (ts : List PyType) (u : PyType)
    → ((m : PyType) → occurs m ts ≡ true → Sub m u)
    → Sub (collapse ts) u
unfolding same_kind kind_index
collapse-least [] u h = from_unknown (of_kind unknown) u refl
collapse-least (t ∷ []) u h = h t (occurs_here t [])
collapse-least (t ∷ k ∷ ts) u h = from_union [] (of_list (t ∷ k ∷ ts)) 0 u (
    EachSub-occurs (of_list (t ∷ k ∷ ts)) u
      (λ m o. h m (ap (occurs m) (sym (to_list-of_list (t ∷ k ∷ ts))) ∙ o)))

union_of-IsJoin : (ts : List PyType) → All IsProper ts → IsJoin ts (union_of ts)
unfolding union_of any_type same_kind kind_index
union_of-IsJoin ts h = (parts-Sub ts ts h (λ m o. o), least)
  where
    least : (u : PyType) → All (λ t. Sub t u) ts → Sub (union_of ts) u
    least u above = elim (Bool-cases (any_type (has_kind unknown) (flatten ts))) [
      | inl lost ↦ rw (union_of, lost) (from_unknown (of_kind unknown) u refl)
      | inr known ↦
          rw (union_of, known)
            (collapse-least (distinct [] (flatten ts)) u
              (λ m o. flatten-Sub ts u m h above (sym (occurs-distinct m (flatten ts) []) ∙ o)))
    ]

object-above :
    (ts : List PyType) (v : PyType) → All (λ t. Sub t v) ts → All (λ t. Sub t (of_kind object)) ts
unfolding same_kind kind_index
object-above [] v h = tt
object-above (t ∷ ts) v h = (into_object t (of_kind object) refl, object-above ts v h.1)

object_member :
    (ts : List PyType)
    → any_type (has_kind object) ts ≡ true
    → (o : PyType) × (has_kind object o ≡ true) × (occurs o ts ≡ true)
unfolding any_type
object_member [] h = cc
object_member (t ∷ ts) h = elim (Bool-cases (has_kind object t)) [
  | inl is ↦ (t, is, occurs_here t ts)
  | inr other ↦
      let rest = object_member ts (rw other at h) in
      (rest.0, rest.1, occurs_later rest.0 t ts rest.2)
]

-- The union of proper parts, collapsed to `object` where that is a member, is their least upper bound.
pub collapse_object_union-IsJoin :
    (ts : List PyType) → All IsProper ts → IsJoin ts (collapse_object_union (union_of ts))
unfolding collapse_object_union
collapse_object_union-IsJoin ts h = collapsed (union_of ts) (union_of-IsJoin ts h)
  where
    collapsed : (v : PyType) → IsJoin ts v → IsJoin ts (collapse_object_union v)
    collapsed (make k n ms d) join =
        elim (Bool-cases (same_kind k union && any_type (has_kind object) (to_list ms))) [
          | inr kept ↦ rw (collapse_object_union, kept) join
          | inl wide ↦
              let parts = both _ _ wide in
              let o = object_member (to_list ms) parts.1 in
              rw (collapse_object_union, wide)
                (
                  object-above ts (make k n ms d) join.0,
                  λ u above. object-Sub o.0 u o.1 (
                      member-Sub n ms d u o.0 (not_union o.0 o.1) o.2
                        (rw ((same_kind_iff k union).0 parts.0) at (join.1 u above))),
                )
        ]

-- No union of the result has `object` among its members.
pub collapse_object_union-plain :
    (t : PyType)
    → let v = collapse_object_union t in
      (has_kind union v && any_type (has_kind object) (to_list (args_of v))) ≡ false
unfolding collapse_object_union same_kind kind_index
collapse_object_union-plain t =
    elim (Bool-cases (has_kind union t && any_type (has_kind object) (to_list (args_of t)))) [
      | inl wide ↦ rw (collapse_object_union, wide) refl
      | inr kept ↦ rw (collapse_object_union, kept) kept
    ]
