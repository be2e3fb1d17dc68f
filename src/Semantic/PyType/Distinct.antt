-- ===== src/Semantic/PyType/Distinct.antt =====
-- The loop of `union_of` that drops duplicates.
use mathlib.Core.List.{append-nil, append_assoc}
use cythonpp.Prelude.{
  ◌≡◌, refl, sym, ap, ◌∙◌, Bool, true, false, ◌||◌, List, [], ◌∷◌, ◌++◌, All, Bool-cases, inl, inr,
}
use cythonpp.Semantic.PyType.{PyType, type_eq, any_type, keep, distinct}
use cythonpp.Semantic.PyType.Equality.{type_eq_iff}

abbrev pub occurs : PyType → List PyType → Bool
occurs t ts = any_type (λ k. type_eq k t) ts

-- No type stands twice in the list.
abbrev pub IsDistinct : List PyType → Type 0
IsDistinct [] = Unit
IsDistinct (t ∷ ts) = (occurs t ts ≡ false) × IsDistinct ts

or_assoc : (a b c : Bool) → (a || b || c) ≡ (a || (b || c))
or_assoc true b c = refl
or_assoc false b c = refl

or_false_right : (a : Bool) → (a || false) ≡ a
or_false_right true = refl
or_false_right false = refl

-- What is already there adds nothing.
or_absorb : (a b c : Bool) → (b ≡ true → a ≡ true) → (a || c) ≡ (a || (b || c))
or_absorb true b c h = refl
or_absorb false true c h = let absurd_eq = h refl in cc
or_absorb false false c h = refl

pub any_type-append :
    (test : PyType → Bool) (ts us : List PyType)
    → any_type test (ts ++ us) ≡ any_type test ts || any_type test us
unfolding any_type
any_type-append test [] us = refl
any_type-append test (t ∷ ts) us =
    ap (λ b. test t || b) (any_type-append test ts us) ∙ sym (or_assoc (test t) _ _)

type_eq_comm : (t u : PyType) → type_eq t u ≡ type_eq u t
type_eq_comm t u = elim (Bool-cases (type_eq t u)) [
  | inl same ↦ let e = (type_eq_iff t u).0 same in same ∙ sym ((type_eq_iff u t).1 (sym e))
  | inr other ↦ elim (Bool-cases (type_eq u t)) [
    | inl same ↦ let e = (type_eq_iff u t).0 same in (type_eq_iff t u).1 (sym e) ∙ sym same
    | inr neither ↦ other ∙ sym neither
  ]
]

or_false : (a b : Bool) → (a || b) ≡ false → (a ≡ false) × (b ≡ false)
or_false true b h = cc
or_false false b h = (refl, h)

IsDistinct-snoc :
    (ts : List PyType) (c : PyType)
    → occurs c ts ≡ false
    → IsDistinct ts
    → IsDistinct (ts ++ c ∷ [])
unfolding any_type
IsDistinct-snoc [] c h d = (refl, tt)
IsDistinct-snoc (t ∷ ts) c h d =
    let parts = or_false (type_eq t c) (occurs c ts) h in
    (rw (any_type-append, d.0, type_eq_comm c t, parts.0) refl, IsDistinct-snoc ts c parts.1 d.1)

pub distinct-IsDistinct : (cs kept : List PyType) → IsDistinct kept → IsDistinct (distinct kept cs)
unfolding distinct keep
distinct-IsDistinct [] kept d = d
distinct-IsDistinct (c ∷ cs) kept d = elim (Bool-cases (occurs c kept)) [
  | inl seen ↦ rw seen (distinct-IsDistinct cs kept d)
  | inr new ↦ rw new (distinct-IsDistinct cs (kept ++ c ∷ []) (IsDistinct-snoc kept c new d))
]

pub All-append :
    (P : PyType → Type 0) (ts us : List PyType) → All P ts → All P us → All P (ts ++ us)
All-append P [] us h k = k
All-append P (t ∷ ts) us h k = (h.0, All-append P ts us h.1 k)

pub All-distinct :
    (P : PyType → Type 0) (cs kept : List PyType) → All P kept → All P cs → All P (distinct kept cs)
unfolding distinct keep
All-distinct P [] kept h k = h
All-distinct P (c ∷ cs) kept h k = elim (Bool-cases (occurs c kept)) [
  | inl seen ↦ rw seen (All-distinct P cs kept h k.1)
  | inr new ↦
      rw new (All-distinct P cs (kept ++ c ∷ []) (All-append P kept (c ∷ []) h (k.0, tt)) k.1)
]

pub distinct-append :
    (cs ds kept : List PyType) → distinct kept (cs ++ ds) ≡ distinct (distinct kept cs) ds
unfolding distinct
distinct-append [] ds kept = refl
distinct-append (c ∷ cs) ds kept = distinct-append cs ds (keep kept c)

-- A candidate that the list holds later does not occur before.
occurs_before :
    (kept : List PyType) (c : PyType) (cs : List PyType)
    → IsDistinct (kept ++ c ∷ cs)
    → occurs c kept ≡ false
unfolding any_type
occurs_before [] c cs d = refl
occurs_before (k ∷ kept) c cs d =
    let later =
      or_false (occurs k kept) (occurs k (c ∷ cs)) (sym (any_type-append _ kept (c ∷ cs)) ∙ d.0) in
    let here = or_false (type_eq c k) (occurs k cs) later.1 in
    rw (type_eq_comm k c, here.0) (occurs_before kept c cs d.1)

pub distinct_id : (cs kept : List PyType) → IsDistinct (kept ++ cs) → distinct kept cs ≡ kept ++ cs
unfolding distinct keep
distinct_id [] kept d = sym (append-nil kept)
distinct_id (c ∷ cs) kept d =
    rw (occurs_before kept c cs d)
      (distinct_id cs (kept ++ c ∷ []) (rw append_assoc d) ∙ append_assoc kept (c ∷ []) cs)

-- The first type that is kept stays the first.
pub distinct-head :
    (cs : List PyType) (k : PyType) (kept : List PyType)
    → (rest : List PyType) × (distinct (k ∷ kept) cs ≡ k ∷ rest)
unfolding distinct keep
distinct-head [] k kept = (kept, refl)
distinct-head (c ∷ cs) k kept = elim (Bool-cases (occurs c (k ∷ kept))) [
  | inl seen ↦ rw seen (distinct-head cs k kept)
  | inr new ↦ rw new (distinct-head cs k (kept ++ c ∷ []))
]

occurs_same :
    (t c : PyType) (kept : List PyType)
    → occurs c kept ≡ true
    → type_eq c t ≡ true
    → occurs t kept ≡ true
occurs_same t c kept h e = rw (sym ((type_eq_iff c t).0 e)) h

-- The duplicates that are dropped are no members lost.
pub occurs-distinct :
    (t : PyType) (cs kept : List PyType)
    → occurs t (distinct kept cs) ≡ (occurs t kept || occurs t cs)
unfolding distinct keep any_type
occurs-distinct t [] kept = sym (or_false_right (occurs t kept))
occurs-distinct t (c ∷ cs) kept = elim (Bool-cases (occurs c kept)) [
  | inl seen ↦
      rw seen (occurs-distinct t cs kept ∙ or_absorb _ (type_eq c t) _ (occurs_same t c kept seen))
  | inr new ↦ rw new (
      occurs-distinct t cs (kept ++ c ∷ [])
      ∙ ap (λ b. b || occurs t cs)
          (any_type-append (λ k. type_eq k t) kept (c ∷ [])
            ∙ ap (λ b. occurs t kept || b) (or_false_right (type_eq c t)))
      ∙ or_assoc (occurs t kept) (type_eq c t) (occurs t cs))
]
