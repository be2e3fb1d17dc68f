-- ===== src/Semantic/Join/UpperBound.antt =====
-- Without a class table `join` answers, and what it answers is above both types.
use cythonpp.Prelude.{
  ℕ, ◌+◌, ◌≤◌, ◌≡◌, refl, sym, ◌∙◌, ◌⊎◌, inl, inr, Bool, true, false, ◌&&◌, ◌||◌, not, ◌==◌, Option,
  none, some, List, [], ◌∷◌, ◌++◌, arith, leb, All, if◌then◌else◌, Bool-cases,
}
use cythonpp.Semantic.Kind.{TypeKind, unknown, none_type, union, object, same_kind, kind_index}
use cythonpp.Semantic.Kind.Laws.{same_kind_iff}
use cythonpp.Semantic.PyType.{
  PyType, Types, make, nil, cons, kind_of, to_list, of_list, has_kind, of_kind, spread, flatten,
  any_type, distinct, collapse, union_of, type_eq,
}
use cythonpp.Semantic.PyType.Equality.{type_eq_iff, and_true}
use cythonpp.Semantic.PyType.Distinct.{occurs, any_type-append, occurs-distinct}
use cythonpp.Semantic.PyType.Union.{IsProper, IsMember}
use cythonpp.Semantic.Subtype.{is_subtype, is_equivalent, equivalent_by, numeric_rank}
use cythonpp.Semantic.Subtype.Rules.{
  Sub, into_unknown, reflexive, into_object, from_union, into_union, wider, EachSub, each_nil,
  each_cons, SomeSub, some_here, some_there,
}
use cythonpp.Semantic.Subtype.Decided.{size, is_equivalent-IsDecided}
use cythonpp.Semantic.Subtype.Sound.{is_subtype-Sub, and_also-true, ranked}
use cythonpp.Semantic.Join.{join, join_different, join_classes, choose_spelling, canonicalised}

-- None is written with no name and no arguments, as its factory writes it.
abbrev pub IsPlainNone : PyType → Type 0
IsPlainNone t = (has_kind none_type t ≡ false) ⊎ (t ≡ of_kind none_type)

abbrev IsUpper : PyType → PyType → PyType → Type 0
IsUpper s t u = Sub s u × Sub t u

pub occurs-SomeSub : (t : PyType) (ts : List PyType) → occurs t ts ≡ true → SomeSub t (of_list ts)
unfolding any_type
occurs-SomeSub t [] h = cc
occurs-SomeSub t (u ∷ ts) h = elim (Bool-cases (type_eq u t)) [
  | inl same ↦ some_here t u (of_list ts) (reflexive t u (sym ((type_eq_iff u t).0 same)))
  | inr other ↦ some_there t u (of_list ts) (occurs-SomeSub t ts (rw other at h))
]

pub or_left : (a b : Bool) → (a || b) ≡ true → b ≡ false → a ≡ true
or_left true b h k = refl
or_left false b h k = sym k ∙ h

collapse-Sub :
    (t : PyType) (ts : List PyType)
    → has_kind union t ≡ false
    → occurs t ts ≡ true
    → Sub t (collapse ts)
unfolding any_type
collapse-Sub t [] plain h = cc
collapse-Sub t (u ∷ []) plain h =
    reflexive t u (sym ((type_eq_iff u t).0 (or_left (type_eq u t) false h refl)))
collapse-Sub t (u ∷ v ∷ ts) plain h =
    into_union t [] (of_list (u ∷ v ∷ ts)) 0 plain (occurs-SomeSub t (u ∷ v ∷ ts) h)

-- A type that is no union is below a union among whose members it stands.
pub union_of-Sub :
    (t : PyType) (ts : List PyType)
    → has_kind union t ≡ false
    → occurs t (flatten ts) ≡ true
    → Sub t (union_of ts)
unfolding union_of any_type same_kind kind_index
union_of-Sub t ts plain h = elim (Bool-cases (any_type (has_kind unknown) (flatten ts))) [
  | inl bad ↦ rw bad (into_unknown t (of_kind unknown) refl)
  | inr fine ↦
      rw fine
        (collapse-Sub t (distinct [] (flatten ts)) plain (occurs-distinct t (flatten ts) [] ∙ h))
]

pub occurs_here : (t : PyType) (ts : List PyType) → occurs t (t ∷ ts) ≡ true
unfolding any_type
occurs_here t ts = rw (type_eq_iff t t).1 refl

pub occurs_later : (t u : PyType) (ts : List PyType) → occurs t ts ≡ true → occurs t (u ∷ ts) ≡ true
unfolding any_type
occurs_later t u ts h = elim (Bool-cases (type_eq u t)) [
  | inl same ↦ rw same
  | inr other ↦ rw (other, h)
]

-- Every member of a list that occurs among the flat members is below the union.
pub each-Sub :
    (ms : Types) (ts : List PyType)
    → All (λ m. has_kind union m ≡ false) (to_list ms)
    → ((m : PyType) → occurs m (to_list ms) ≡ true → occurs m (flatten ts) ≡ true)
    → EachSub ms (union_of ts)
each-Sub nil ts flat within = each_nil (union_of ts)
each-Sub (cons m ms) ts flat within =
    each_cons m ms (union_of ts) (union_of-Sub m ts flat.0 (within m (occurs_here m (to_list ms))))
      (each-Sub ms ts flat.1 (λ n h. within n (occurs_later n m (to_list ms) h)))

pub or_right : (a b : Bool) → b ≡ true → (a || b) ≡ true
or_right true b h = refl
or_right false b h = h

pub occurs_front :
    (t : PyType) (ts us : List PyType) → occurs t ts ≡ true → occurs t (ts ++ us) ≡ true
occurs_front t ts us h = rw (any_type-append, h)

pub flat_of : (ts : List PyType) → All IsMember ts → All (λ m. has_kind union m ≡ false) ts
flat_of [] h = tt
flat_of (t ∷ ts) h = (h.0.0, flat_of ts h.1)

-- A proper type is below every union that begins with it.
first-Sub : (t : PyType) (ts : List PyType) → IsProper t → Sub t (union_of (t ∷ ts))
unfolding flatten
first-Sub t ts (inl plain) = union_of-Sub t (t ∷ ts) plain (rw plain (occurs_here t (flatten ts)))
first-Sub (make k n ms d) ts (inr members) = elim (Bool-cases (same_kind k union)) [
  | inl nested ↦ let is = (same_kind_iff k union).0 nested in below k is
  | inr plain ↦
      union_of-Sub (make k n ms d) (make k n ms d ∷ ts) plain
        (rw plain (occurs_here (make k n ms d) (flatten ts)))
]
  where
    flat_first :
        (l : TypeKind)
        → same_kind l union ≡ true
        → flatten (make l n ms d ∷ ts) ≡ to_list ms ++ flatten ts
    flat_first l h = rw h

    below : (l : TypeKind) → l ≡ union → Sub (make l n ms d) (union_of (make l n ms d ∷ ts))
    below l e = rw e (
        from_union n ms d (union_of (make union n ms d ∷ ts)) (
          each-Sub ms (make union n ms d ∷ ts) (flat_of (to_list ms) members.2) (λ m h.
            rw (flat_first union ((same_kind_iff union union).1 refl))
              (occurs_front m (to_list ms) (flatten ts) h))))

none-Sub : (t : PyType) → Sub (of_kind none_type) (union_of (t ∷ of_kind none_type ∷ []))
unfolding flatten same_kind kind_index
none-Sub t = union_of-Sub (of_kind none_type) (t ∷ of_kind none_type ∷ []) refl (
    rw (any_type-append (λ k. type_eq k (of_kind none_type)) (spread t))
      (or_right _ _ (occurs_here (of_kind none_type) [])))

-- The None arm: the union of the other type and None.
none_arm :
    (s t : PyType)
    → (has_kind none_type s || has_kind none_type t) ≡ true
    → IsPlainNone s
    → IsPlainNone t
    → IsProper s
    → IsProper t
    → IsUpper s t (union_of ((if has_kind none_type s then t else s) ∷ of_kind none_type ∷ []))
none_arm s t h ps pt s_proper t_proper = elim (Bool-cases (has_kind none_type s)) [
  | inl left ↦ rw left (elim ps [
    | inl other ↦ let clash = sym left ∙ other in cc
    | inr e ↦ (rw e (none-Sub t), first-Sub t (of_kind none_type ∷ []) t_proper)
  ])
  | inr not_left ↦ rw not_left (elim pt [
    | inl other ↦
        let clash : (has_kind none_type s || has_kind none_type t) ≡ false =
          (rw (not_left, other)) in
        let clash' = sym h ∙ clash in cc
    | inr e ↦ (first-Sub s (of_kind none_type ∷ []) s_proper, rw e (none-Sub s))
  ])
]

-- The tower: the wider of two numbers.
tower_arm :
    (s t : PyType)
    → (not (numeric_rank (kind_of s) == 0) && not (numeric_rank (kind_of t) == 0)) ≡ true
    → IsUpper s t (if leb (numeric_rank (kind_of t)) (numeric_rank (kind_of s)) then s else t)
tower_arm (make k n ss d) (make l m ts e) h =
    let both = and_true (not (numeric_rank k == 0)) (not (numeric_rank l == 0)) h in
    elim (Bool-cases (leb (numeric_rank l) (numeric_rank k))) [
      | inl left ↦ rw left (
        reflexive _ _ refl,
        wider l k m n ts ss e d (ranked (numeric_rank l) both.1) (ground arith),
      )
      | inr right ↦ rw right (
        wider k l n m ss ts d e (ranked (numeric_rank k) both.0) (ground arith),
        reflexive _ _ refl,
      )
    ]

abbrev HasUpper : Option PyType → PyType → PyType → Type 0
HasUpper o s t = (u : PyType) × (o ≡ some u) × Sub s u × Sub t u

different_arm :
    (f : ℕ) (s t : PyType)
    → IsPlainNone s
    → IsPlainNone t
    → IsProper s
    → IsProper t
    → HasUpper (join_different f none s t) s t
unfolding join_different join_classes same_kind kind_index
different_arm f s t ps pt s_proper t_proper =
    elim (Bool-cases (has_kind none_type s || has_kind none_type t)) [
      | inl none_there ↦
          let upper = none_arm s t none_there ps pt s_proper t_proper in
          rw none_there (_, refl, upper.0, upper.1)
      | inr no_none ↦
          elim (Bool-cases
            (not (numeric_rank (kind_of s) == 0) && not (numeric_rank (kind_of t) == 0))) [
              | inl numbers ↦
                  let upper = tower_arm s t numbers in
                  rw (no_none, numbers) (_, refl, upper.0, upper.1)
              | inr others ↦
                  rw (no_none, others)
                    (
                      of_kind object,
                      refl,
                      into_object s (of_kind object) refl,
                      into_object t (of_kind object) refl,
                    )
            ]
    ]

chosen_arm : (c : Bool) (s t : PyType) → Sub s t → Sub t s → IsUpper s t (if c then t else s)
chosen_arm true s t h k = (h, reflexive t t refl)
chosen_arm false s t h k = (reflexive s s refl, k)

equivalent_arm :
    (f : ℕ) (s t : PyType)
    → is_equivalent f none s t ≡ some true
    → IsUpper s t (choose_spelling none s t)
unfolding is_equivalent equivalent_by choose_spelling canonicalised
equivalent_arm f s t h =
    let both = and_also-true (is_subtype f none s t) (is_subtype f none t s) h in
    chosen_arm _ s t (is_subtype-Sub f s t both.0) (is_subtype-Sub f t s both.1)

known_arm :
    (f : ℕ) (s t : PyType) (b : Bool)
    → is_equivalent f none s t ≡ some b
    → (has_kind unknown s || has_kind unknown t) ≡ false
    → IsPlainNone s
    → IsPlainNone t
    → IsProper s
    → IsProper t
    → HasUpper (join f none s t) s t
unfolding join
known_arm f s t true e known ps pt s_proper t_proper =
    let upper = equivalent_arm f s t e in rw (known, e) (_, refl, upper.0, upper.1)
known_arm f s t false e known ps pt s_proper t_proper =
    rw (known, e) (different_arm f s t ps pt s_proper t_proper)

-- Without a class table and with fuel for the two sizes `join` answers with a type above both, where
-- unions are proper and None is written plainly.
pub join-Sub :
    (f : ℕ) (s t : PyType)
    → size s + size t ≤ f
    → IsPlainNone s
    → IsPlainNone t
    → IsProper s
    → IsProper t
    → (u : PyType) × (join f none s t ≡ some u) × Sub s u × Sub t u
unfolding join same_kind kind_index
join-Sub f s t le ps pt s_proper t_proper =
    elim (Bool-cases (has_kind unknown s || has_kind unknown t)) [
      | inl bad ↦ rw bad (
        of_kind unknown,
        refl,
        into_unknown s (of_kind unknown) refl,
        into_unknown t (of_kind unknown) refl,
      )
      | inr known ↦
          let decided = is_equivalent-IsDecided f s t le in
          known_arm f s t decided.0 decided.1 known ps pt s_proper t_proper
    ]
