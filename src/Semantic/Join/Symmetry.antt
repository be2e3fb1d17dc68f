-- ===== src/Semantic/Join/Symmetry.antt =====
-- Without a class table `join` does not depend on the order of its two types.
use cythonpp.Prelude.{
  ℕ, ◌+◌, ◌≤◌, ◌<◌, ◌≡◌, refl, sym, ap, ◌∙◌, inl, inr, Bool, true, false, ◌&&◌, ◌||◌, not, ◌==◌,
  ==_iff, Option, none, some, [], ◌∷◌, arith, leb, if◌then◌else◌, Bool-cases,
}
use cythonpp.Semantic.Kind.{none_type, unknown, same_kind, kind_index}
use cythonpp.Semantic.PyType.{PyType, make, kind_of, has_kind, of_kind, type_eq, union_of}
use cythonpp.Semantic.PyType.Equality.{type_eq_iff, and_true}
use cythonpp.Semantic.Subtype.Chain.{and_also}
use cythonpp.Semantic.Subtype.{is_equivalent, equivalent_by, numeric_rank}
use cythonpp.Semantic.Subtype.Rules.{wider}
use cythonpp.Semantic.Subtype.Decided.{size, is_subtype-IsDecided, is_equivalent-IsDecided}
use cythonpp.Semantic.Subtype.Sound.{ranked}
use cythonpp.Semantic.Subtype.Complete.{is_subtype_iff-Sub}
use cythonpp.Semantic.Join.{
  join, join_different, join_classes, choose_spelling, canonicalised, type_less,
}
use cythonpp.Semantic.Join.Order.{type_less_total}
use cythonpp.Semantic.Join.UpperBound.{IsPlainNone}

or_comm : (a b : Bool) → (a || b) ≡ (b || a)
or_comm true true = refl
or_comm true false = refl
or_comm false true = refl
or_comm false false = refl

and_comm : (a b : Bool) → (a && b) ≡ (b && a)
and_comm true true = refl
and_comm true false = refl
and_comm false true = refl
and_comm false false = refl

and_also_comm :
    (a b : Option Bool) (p q : Bool) → a ≡ some p → b ≡ some q → and_also a b ≡ and_also b a
unfolding and_also
and_also_comm a b true true h k = rw (h, k)
and_also_comm a b true false h k = rw (h, k)
and_also_comm a b false true h k = rw (h, k)
and_also_comm a b false false h k = rw (h, k)

is_equivalent_comm :
    (f : ℕ) (s t : PyType)
    → size s + size t ≤ f
    → is_equivalent f none s t ≡ is_equivalent f none t s
unfolding is_equivalent equivalent_by
is_equivalent_comm f s t le =
    let forth = is_subtype-IsDecided f s t le in
    let back = is_subtype-IsDecided f t s (omega arith) in
    and_also_comm _ _ forth.0 back.0 forth.1 back.1

-- The choice between two types by an order that is asymmetric and total.
chosen_comm :
    (a b : Bool) (s t : PyType)
    → (a && b) ≡ false
    → (a || b) ≡ not (type_eq s t)
    → (if b then t else s) ≡ (if a then s else t)
chosen_comm true true s t h k = cc
chosen_comm true false s t h k = refl
chosen_comm false true s t h k = refl
chosen_comm false false s t h k = elim (Bool-cases (type_eq s t)) [
  | inl same ↦ (type_eq_iff s t).0 same
  | inr differ ↦ let clash = k ∙ ap not differ in cc
]

choose_spelling_comm : (s t : PyType) → choose_spelling none s t ≡ choose_spelling none t s
unfolding choose_spelling canonicalised
choose_spelling_comm s t =
    let order = type_less_total s t in
    chosen_comm (type_less s t) (type_less t s) s t order.0 order.1

-- Two numbers of one rank are usable for each other, whatever else they hold.
same_rank-equivalent :
    (f : ℕ) (s t : PyType)
    → size s + size t ≤ f
    → 0 < numeric_rank (kind_of s)
    → numeric_rank (kind_of s) ≡ numeric_rank (kind_of t)
    → is_equivalent f none s t ≡ some true
unfolding is_equivalent equivalent_by and_also
same_rank-equivalent f (make k n ss d) (make l m ts e) le pos same =
    let forth =
      (is_subtype_iff-Sub f (make k n ss d) (make l m ts e) le).0.1
        (wider k l n m ss ts d e pos (omega arith)) in
    let back =
      (is_subtype_iff-Sub f (make l m ts e) (make k n ss d) (omega arith)).0.1
        (wider l k m n ts ss e d (omega arith) (omega arith)) in
    rw (forth, back)

none_arm_comm :
    (s t : PyType)
    → IsPlainNone s
    → IsPlainNone t
    → (has_kind none_type s || has_kind none_type t) ≡ true
    → (if has_kind none_type s then t else s) ≡ (if has_kind none_type t then s else t)
unfolding same_kind kind_index
none_arm_comm s t (inl ps) (inl pt) h =
    let no_none : (has_kind none_type s || has_kind none_type t) ≡ false = rw (ps, pt) in
    let clash = sym h ∙ no_none in cc
none_arm_comm s t (inl ps) (inr pt) h = rw (pt, ps)
none_arm_comm s t (inr ps) (inl pt) h = rw (ps, pt)
none_arm_comm s t (inr ps) (inr pt) h = rw (ps, pt)

tower_comm :
    (a b : ℕ) (s t : PyType)
    → (a == b) ≡ false
    → (if leb b a then s else t) ≡ (if leb a b then t else s)
tower_comm a b s t h = ground arith

not_equivalent :
    (f : ℕ) (s t : PyType)
    → size s + size t ≤ f
    → is_equivalent f none s t ≡ some false
    → (not (numeric_rank (kind_of s) == 0) && not (numeric_rank (kind_of t) == 0)) ≡ true
    → (numeric_rank (kind_of s) == numeric_rank (kind_of t)) ≡ false
not_equivalent f s t le differ numbers =
    elim (Bool-cases (numeric_rank (kind_of s) == numeric_rank (kind_of t))) [
      | inl same ↦
          let pos = ranked (numeric_rank (kind_of s)) (and_true _ _ numbers).0 in
          let clash = sym differ ∙ same_rank-equivalent f s t le pos ((==_iff _ _).0 same) in cc
      | inr other ↦ other
    ]

join_different_comm :
    (f : ℕ) (s t : PyType)
    → size s + size t ≤ f
    → is_equivalent f none s t ≡ some false
    → IsPlainNone s
    → IsPlainNone t
    → join_different f none s t ≡ join_different f none t s
unfolding join_different join_classes
join_different_comm f s t le differ ps pt =
    elim (Bool-cases (has_kind none_type s || has_kind none_type t)) [
      | inl none_there ↦
          rw (or_comm (has_kind none_type t) (has_kind none_type s), none_there)
            (ap (λ u. some (union_of (u ∷ of_kind none_type ∷ [])))
              (none_arm_comm s t ps pt none_there))
      | inr no_none ↦
          elim (Bool-cases
            (not (numeric_rank (kind_of s) == 0) && not (numeric_rank (kind_of t) == 0))) [
              | inl numbers ↦
                  rw
                    (
                      or_comm (has_kind none_type t) (has_kind none_type s),
                      no_none,
                      and_comm (not (numeric_rank (kind_of t) == 0)),
                      numbers,
                    )
                    (ap some (
                      tower_comm (numeric_rank (kind_of s)) (numeric_rank (kind_of t)) s t
                        (not_equivalent f s t le differ numbers)))
              | inr others ↦ rw (
                or_comm (has_kind none_type t) (has_kind none_type s),
                no_none,
                and_comm (not (numeric_rank (kind_of t) == 0)),
                others,
              )
            ]
    ]

known_comm :
    (f : ℕ) (s t : PyType) (b : Bool)
    → size s + size t ≤ f
    → is_equivalent f none s t ≡ some b
    → is_equivalent f none t s ≡ some b
    → IsPlainNone s
    → IsPlainNone t
    → (has_kind unknown s || has_kind unknown t) ≡ false
    → join f none s t ≡ join f none t s
unfolding join
known_comm f s t true le e e' ps pt known =
    rw (or_comm (has_kind unknown t) (has_kind unknown s), known, e, e')
      (ap some (choose_spelling_comm s t))
known_comm f s t false le e e' ps pt known =
    rw (or_comm (has_kind unknown t) (has_kind unknown s), known, e, e')
      (join_different_comm f s t le e ps pt)

-- Without a class table and with fuel for the two sizes `join` is commutative, where None is written
-- plainly: also for two spellings of one type.
pub join_comm :
    (f : ℕ) (s t : PyType)
    → size s + size t ≤ f
    → IsPlainNone s
    → IsPlainNone t
    → join f none s t ≡ join f none t s
unfolding join
join_comm f s t le ps pt = elim (Bool-cases (has_kind unknown s || has_kind unknown t)) [
  | inl bad ↦ rw (or_comm (has_kind unknown t) (has_kind unknown s), bad)
  | inr known ↦
      let decided = is_equivalent-IsDecided f s t le in
      known_comm f s t decided.0 le decided.1 (sym (is_equivalent_comm f s t le) ∙ decided.1) ps pt
        known
]
