-- ===== src/Semantic/PyType/Equality.antt =====
-- `operator==` on types decides their equality.
use cythonpp.Prelude.{◌≡◌, refl, ◌↔◌, Bool, true, false, ◌&&◌, ◌==◌, ==_iff}
use cythonpp.Prelude.Text.{text_eq, text_eq_iff}
use cythonpp.Semantic.Kind.{same_kind}
use cythonpp.Semantic.Kind.Laws.{same_kind_iff}
use cythonpp.Semantic.PyType.{PyType, Types, make, nil, cons, type_eq, types_eq}

pub and_true : (a b : Bool) → (a && b) ≡ true → (a ≡ true) × (b ≡ true)
and_true true true h = (refl, refl)
and_true true false h = cc
and_true false b h = cc

and4 :
    (a b c d : Bool) → (a && b && c && d) ≡ true → (a ≡ true) × (b ≡ true) × (c ≡ true) × (d ≡ true)
and4 true true true true h = (refl, refl, refl, refl)
and4 true true true false h = cc
and4 true true false d h = cc
and4 true false c d h = cc
and4 false b c d h = cc

pub true_and : (a b : Bool) → a ≡ true → b ≡ true → (a && b) ≡ true
true_and a b h k = rw (h, k)

mutual
  unfolding type_eq

  type_eq_sound : (t u : PyType) → type_eq t u ≡ true → t ≡ u
  type_eq_sound (make k n as' d) (make l m bs e) h =
      let same = and4 (same_kind k l) (text_eq n m) (types_eq as' bs) (d == e) h in
      λ i.
        make ((same_kind_iff k l).0 same.0 i) ((text_eq_iff n m).0 same.1 i)
          (types_eq_sound as' bs same.2 i) ((==_iff d e).0 same.3 i)

  types_eq_sound : (ts us : Types) → types_eq ts us ≡ true → ts ≡ us
  types_eq_sound nil nil h = refl
  types_eq_sound nil (cons u us) h = cc
  types_eq_sound (cons t ts) nil h = cc
  types_eq_sound (cons t ts) (cons u us) h =
      let both = and_true (type_eq t u) (types_eq ts us) h in
      rw (type_eq_sound t u both.0, types_eq_sound ts us both.1)

mutual
  unfolding type_eq

  type_eq_refl : (t : PyType) → type_eq t t ≡ true
  type_eq_refl (make k n as' d) =
      rw (
        (same_kind_iff k k).1 refl,
        (text_eq_iff n n).1 refl,
        types_eq_refl as',
        (==_iff d d).1 refl,
      )

  types_eq_refl : (ts : Types) → types_eq ts ts ≡ true
  types_eq_refl nil = refl
  types_eq_refl (cons t ts) = true_and _ _ (type_eq_refl t) (types_eq_refl ts)

-- `==` on types is true exactly for one type: it compares every field, and every argument in order.
pub type_eq_iff : (t u : PyType) → (type_eq t u ≡ true) ↔ (t ≡ u)
type_eq_iff t u = (type_eq_sound t u, λ e. rw e (type_eq_refl u))
