-- ===== src/Semantic/OperatorRules/Bases.antt =====
-- The builtin base of a class is no class, so that the rules read it in one step.
use cythonpp.Prelude.{
  ℕ, suc, ◌≡◌, refl, sym, ap, ◌∙◌, Bool, true, false, ◌||◌, Option, none, some, List, [], ◌∷◌, All,
  ◌≤◌, arith, if◌then◌else◌, Bool-cases, Option-cases, inl, inr,
}
use cythonpp.Prelude.Text.{Text}
use cythonpp.Semantic.Kind.{TypeKind, same_kind, kind_index, unknown, union, class, object}
use cythonpp.Semantic.PyType.{PyType, kind_of, name_of, args_of, to_list, has_kind, of_kind}
use cythonpp.Semantic.Builtin.{
  BuiltinTypeName, builtin_type_names, builtin_type_named, named, builtin_type_kind,
  builtin_base_type,
}
use cythonpp.Semantic.Builtin.Laws.{named-All}
use cythonpp.Semantic.Subtype.Chain.{ClassLookup, class_ancestor_chain}
use cythonpp.Semantic.Subtype.Walk.{IsListed, bases_left, class_ancestor_chain-Walked}
use cythonpp.Semantic.Subtype.Base.{own_builtin, first_builtin, builtin_base_of_class}
use cythonpp.Semantic.OperatorRules.Result.{
  RuleResult, ok, unsupported, union_operand, user_class_iteration,
}
use cythonpp.Semantic.OperatorRules.Elements.{
  or_unsupported, inherited, class_rule, iterated, element_type,
}

-- Neither a class nor `object`.
abbrev pub IsBuiltinKind : TypeKind → Type 0
IsBuiltinKind k = (same_kind k class ≡ false) × (same_kind k object ≡ false)

abbrev NotClass : BuiltinTypeName → Type 0
NotClass e = same_kind e.kind class ≡ false

table-NotClass : All NotClass builtin_type_names
unfolding same_kind kind_index
table-NotClass = (
  refl,
  (
    refl,
    (
      refl,
      (refl, (refl, (refl, (refl, (refl, (refl, (refl, (refl, (refl, (refl, (refl, tt))))))))))),
    ),
  ),
)

or_false : (a b : Bool) → (a || b) ≡ false → (a ≡ false) × (b ≡ false)
or_false true b h = cc
or_false false b h = (refl, h)

first_builtin-IsBuiltinKind :
    (chain : List PyType) (t : PyType) → first_builtin chain ≡ some t → IsBuiltinKind (kind_of t)
unfolding first_builtin
first_builtin-IsBuiltinKind [] t h = cc
first_builtin-IsBuiltinKind (step ∷ rest) t h =
    elim (Bool-cases (has_kind class step || has_kind object step)) [
      | inl skipped ↦ first_builtin-IsBuiltinKind rest t (rw skipped at h)
      | inr found ↦
          let is : step ≡ t = type_inj (rw found at h) in
          rw (sym is) (or_false (has_kind class step) (has_kind object step) found)
    ]
  where
    type_inj : {a b : PyType} → some a ≡ some b → a ≡ b
    type_inj e = cc

builtin_type_kind-NotClass :
    (name : Text) (k : TypeKind) → builtin_type_kind name ≡ some k → same_kind k class ≡ false
unfolding builtin_type_kind builtin_type_named
builtin_type_kind-NotClass name k h = elim (Option-cases (named builtin_type_names name)) [
  | inl missing ↦ let clash : none ≡ some k = (rw missing at h) in cc
  | inr (e, found) ↦
      let is : e.kind ≡ k = kind_inj (rw found at h) in
      rw (sym is) (named-All NotClass builtin_type_names name e table-NotClass found).0
]
  where
    kind_inj : {a b : TypeKind} → some a ≡ some b → a ≡ b
    kind_inj e = cc

own_builtin-IsBuiltinKind :
    (root : Text) (t : PyType) → own_builtin root ≡ some t → IsBuiltinKind (kind_of t)
unfolding own_builtin builtin_base_type
own_builtin-IsBuiltinKind root t h = elim (Option-cases (builtin_type_kind root)) [
  | inl missing ↦ let clash : none ≡ some t = (rw (own_builtin, missing) at h) in cc
  | inr (k, found) ↦ elim (Bool-cases (same_kind k object)) [
    | inl top ↦ let clash : none ≡ some t = (rw (own_builtin, found, top) at h) in cc
    | inr below ↦
        let is : of_kind k ≡ t = type_inj (rw (own_builtin, found, below) at h) in
        rw (sym is) (builtin_type_kind-NotClass root k found, below)
  ]
]
  where
    type_inj : {a b : PyType} → some a ≡ some b → a ≡ b
    type_inj e = cc

-- The builtin that a class is or inherits is itself neither a class nor `object`.
pub builtin_base_of_class-IsBuiltinKind :
    (fuel : ℕ) (classes : ClassLookup) (name : Text) (t : PyType)
    → builtin_base_of_class fuel classes name ≡ some (some t)
    → IsBuiltinKind (kind_of t)
unfolding builtin_base_of_class
builtin_base_of_class-IsBuiltinKind fuel classes name t h =
    elim (Option-cases (own_builtin (classes.canonical_name name))) [
      | inr (b, own) ↦
          let is : b ≡ t = type_inj (rw (builtin_base_of_class, own) at h) in
          rw (sym is) (own_builtin-IsBuiltinKind (classes.canonical_name name) b own)
      | inl foreign ↦ elim (Option-cases (class_ancestor_chain fuel classes name)) [
        | inl lost ↦
            let clash : none ≡ some (some t) = (rw (builtin_base_of_class, foreign, lost) at h) in
            cc
        | inr (chain, walked) ↦
            first_builtin-IsBuiltinKind chain t
              (option_inj (rw (builtin_base_of_class, foreign, walked) at h))
      ]
    ]
  where
    option_inj : {a b : Option PyType} → some a ≡ some b → a ≡ b
    option_inj e = cc

    type_inj : {a b : PyType} → some (some a) ≡ some (some b) → a ≡ b
    type_inj e = cc

abbrev Returned : Option RuleResult → Type 0
Returned r = (answer : RuleResult) × (r ≡ some answer)

if-Returned :
    (b : Bool) (x y : Option RuleResult)
    → (b ≡ true → Returned x)
    → (b ≡ false → Returned y)
    → Returned (if b then x else y)
if-Returned true x y h g = h refl
if-Returned false x y h g = g refl

-- No class: one step answers.
builtin_element-Returned :
    (fuel : ℕ) (classes : Option ClassLookup) (t : PyType)
    → has_kind class t ≡ false
    → Returned (element_type (suc fuel) classes t)
unfolding element_type
builtin_element-Returned fuel classes t h =
    if-Returned (has_kind unknown t) _ _ (λ e. (ok (of_kind unknown), refl))
      (λ e.
        if-Returned (has_kind union t) _ _ (λ e2. (unsupported union_operand, refl))
          (λ e2.
            if-Returned (has_kind class t) _ _ (λ clash. absurd (true_not_false (sym clash ∙ h)))
              (λ e3. (iterated (kind_of t) (to_list (args_of t)), refl))))
  where
    true_not_false : true ≡ false → ⊥
    true_not_false e = cc

inherited-Returned :
    (fuel : ℕ) (classes : ClassLookup) (base : Option PyType)
    → ((t : PyType) → base ≡ some t → has_kind class t ≡ false)
    → Returned (inherited user_class_iteration (λ b. element_type (suc fuel) (some classes) b) base)
unfolding inherited
inherited-Returned fuel classes none h = (unsupported user_class_iteration, refl)
inherited-Returned fuel classes (some b) h =
    let one = builtin_element-Returned fuel (some classes) b (h b refl) in
    rw one.1 (or_unsupported user_class_iteration one.0, refl)

builtin_base_of_class-some :
    (fuel : ℕ) (classes : ClassLookup) (name : Text) (chain : List PyType)
    → class_ancestor_chain fuel classes name ≡ some chain
    → (base : Option PyType) × (builtin_base_of_class fuel classes name ≡ some base)
unfolding builtin_base_of_class
builtin_base_of_class-some fuel classes name chain walked =
    elim (Option-cases (own_builtin (classes.canonical_name name))) [
      | inr (b, own) ↦ rw (builtin_base_of_class, own) (some b, refl)
      | inl foreign ↦ rw (builtin_base_of_class, foreign, walked) (first_builtin chain, refl)
    ]

-- With a class table that lists finitely many names, whatever cycles their bases form, iterating any
-- type is answered: the ancestor walk ends, and so does the step to a builtin base, on fuel of two more
-- than the number of all bases.
pub element_type-Returned :
    (fuel : ℕ) (classes : ClassLookup) (names : List Text) (t : PyType)
    → IsListed classes names
    → bases_left classes names [] ≤ fuel
    → (answer : RuleResult) × (element_type (suc (suc fuel)) (some classes) t ≡ some answer)
unfolding element_type class_rule
element_type-Returned fuel classes names t listed enough =
    if-Returned (has_kind unknown t) _ _ (λ e. (ok (of_kind unknown), refl))
      (λ e.
        if-Returned (has_kind union t) _ _ (λ e2. (unsupported union_operand, refl))
          (λ e2.
            if-Returned (has_kind class t) _ _ (λ e3. classes_answer)
              (λ e3. (iterated (kind_of t) (to_list (args_of t)), refl))))
  where
    classes_answer : Returned (
        class_rule
          (suc fuel)
          (some classes)
          user_class_iteration
          (λ b. element_type (suc fuel) (some classes) b)
          t)
    classes_answer =
        let walked =
          class_ancestor_chain-Walked classes names (suc fuel) (name_of t) listed (omega arith) in
        let based = builtin_base_of_class-some (suc fuel) classes (name_of t) walked.0 walked.1 in
        rw (class_rule, based.1)
          (inherited-Returned fuel classes based.0 (λ b e.
            (builtin_base_of_class-IsBuiltinKind (suc fuel) classes (name_of t) b
              (based.1 ∙ ap some e)).0))
