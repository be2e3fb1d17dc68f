-- ===== src/Semantic/Join/Order.antt =====
-- The structural order that `join` breaks ties by.
use cythonpp.Prelude.{
  ℕ, ◌≡◌, refl, sym, ap, ◌∙◌, Bool, true, false, ◌&&◌, ◌||◌, not, ◌==◌, ==_iff, arith, ltb, length,
  if◌then◌else◌, Bool-cases, inl, inr, [], ◌∷◌,
}
use cythonpp.Prelude.Text.{Text, text_eq, text_less, text_eq_iff, text_less_asymm, text_less_total}
use cythonpp.Semantic.Kind.{TypeKind, same_kind, kind_index}
use cythonpp.Semantic.Kind.Laws.{same_kind_iff}
use cythonpp.Semantic.PyType.{PyType, Types, make, nil, cons, to_list, type_eq}
use cythonpp.Semantic.PyType.Equality.{type_eq_iff}
use cythonpp.Semantic.Join.{type_orders, types_orders, type_less}

-- The pair swapped.
abbrev swapped : Bool × Bool → Bool × Bool
swapped p = (p.1, p.0)

same_kind_comm : (k l : TypeKind) → same_kind k l ≡ same_kind l k
unfolding same_kind
same_kind_comm k l = ground arith

text_eq_comm : (s t : Text) → text_eq s t ≡ text_eq t s
unfolding text_eq
text_eq_comm [] [] = refl
text_eq_comm [] (b ∷ t) = refl
text_eq_comm (a ∷ s) [] = refl
text_eq_comm (a ∷ s) (b ∷ t) = ground (arith, text_eq_comm s t)

eqb_comm : (a b : ℕ) → (a == b) ≡ (b == a)
eqb_comm a b = ground arith

three_way :
    (a b c : Bool) (p q r s : Bool × Bool)
    → (if a then swapped p else if b then swapped q else if c then swapped r else swapped s)
      ≡ swapped (if a then p else if b then q else if c then r else s)
three_way true b c p q r s = refl
three_way false true c p q r s = refl
three_way false false true p q r s = refl
three_way false false false p q r s = refl

-- The two components answer for the pair and for the pair swapped, as two calls of `type_less`.
mutual
  unfolding type_orders

  type_orders_swap : (t u : PyType) → type_orders u t ≡ swapped (type_orders t u)
  type_orders_swap (make k n ts d) (make l m us e) =
      let lengths = eqb_comm (length (to_list us)) (length (to_list ts)) in
      rw
        (
          same_kind_comm l k,
          text_eq_comm m n,
          lengths,
          types_orders_swap ts us (ltb d e, ltb e d) (ltb e d, ltb d e) refl,
        )
        (three_way (not (same_kind k l)) (not (text_eq n m))
          (not (length (to_list ts) == length (to_list us))) _ _ _ _)

  types_orders_swap :
      (ts us : Types) (a b : Bool × Bool)
      → b ≡ swapped a
      → types_orders us ts b ≡ swapped (types_orders ts us a)
  types_orders_swap nil nil a b h = h
  types_orders_swap nil (cons u us) a b h = h
  types_orders_swap (cons t ts) nil a b h = h
  types_orders_swap (cons t ts) (cons u us) a b h =
      rw (type_orders_swap t u, types_orders_swap ts us a b h)

-- Not both, and neither only for equal things.
abbrev IsAsymmetric : Bool × Bool → Type 0
IsAsymmetric p = (p.0 && p.1) ≡ false

IsAsymmetric-if :
    (p q : Bool × Bool) (c : Bool)
    → IsAsymmetric p
    → IsAsymmetric q
    → IsAsymmetric (if c then p else q)
IsAsymmetric-if p q true h k = h
IsAsymmetric-if p q false h k = k

text_orders-IsAsymmetric : (n m : Text) → IsAsymmetric (text_less n m, text_less m n)
text_orders-IsAsymmetric n m = elim (Bool-cases (text_less n m)) [
  | inl less ↦ rw (less, text_less_asymm n m less)
  | inr not_less ↦ rw not_less
]

ltb-IsAsymmetric : (a b : ℕ) → IsAsymmetric (ltb a b, ltb b a)
ltb-IsAsymmetric a b = ground arith

first_decides :
    (f r : Bool × Bool)
    → IsAsymmetric f
    → IsAsymmetric r
    → IsAsymmetric (
      if f.0 then true else if f.1 then false else r.0,
      if f.1 then true else if f.0 then false else r.1,
    )
first_decides (true, true) r h k = cc
first_decides (true, false) r h k = refl
first_decides (false, true) r h k = refl
first_decides (false, false) r h k = k

mutual
  unfolding type_orders

  type_orders-IsAsymmetric : (t u : PyType) → IsAsymmetric (type_orders t u)
  type_orders-IsAsymmetric (make k n ts d) (make l m us e) =
      IsAsymmetric-if _ _ (not (same_kind k l)) (ltb-IsAsymmetric (kind_index k) (kind_index l)) (
        IsAsymmetric-if _ _ (not (text_eq n m)) (text_orders-IsAsymmetric n m) (
          IsAsymmetric-if _ _ (not (length (to_list ts) == length (to_list us)))
            (ltb-IsAsymmetric (length (to_list ts)) (length (to_list us)))
            (types_orders-IsAsymmetric ts us (ltb d e, ltb e d) (ltb-IsAsymmetric d e))))

  types_orders-IsAsymmetric :
      (ts us : Types) (a : Bool × Bool) → IsAsymmetric a → IsAsymmetric (types_orders ts us a)
  types_orders-IsAsymmetric nil nil a h = h
  types_orders-IsAsymmetric nil (cons u us) a h = h
  types_orders-IsAsymmetric (cons t ts) nil a h = h
  types_orders-IsAsymmetric (cons t ts) (cons u us) a h =
      first_decides (type_orders t u) (types_orders ts us a) (type_orders-IsAsymmetric t u)
        (types_orders-IsAsymmetric ts us a h)

abbrev IsTie : Bool × Bool → Type 0
IsTie p = (p.0 ≡ false) × (p.1 ≡ false)

kind_tie :
    (k l : TypeKind)
    → IsTie (ltb (kind_index k) (kind_index l), ltb (kind_index l) (kind_index k))
    → same_kind k l ≡ true
unfolding same_kind
kind_tie k l h = ground arith

length_tie : (a b : ℕ) → IsTie (ltb a b, ltb b a) → a ≡ b
length_tie a b h = ground arith

-- A tie below a test is a tie on both sides of it.
IsTie-if :
    (c : Bool) (p q : Bool × Bool)
    → IsTie (if not c then p else q)
    → (IsTie p → c ≡ true)
    → (c ≡ true) × IsTie q
IsTie-if true p q h k = (refl, h)
IsTie-if false p q h k = let clash = k h in cc

first-IsTie :
    (f r : Bool × Bool)
    → IsTie (
      if f.0 then true else if f.1 then false else r.0,
      if f.1 then true else if f.0 then false else r.1,
    )
    → IsTie f × IsTie r
first-IsTie (true, b) r h = let clash = h.0 in cc
first-IsTie (false, true) r h = let clash = h.1 in cc
first-IsTie (false, false) r h = ((refl, refl), h)

mutual
  unfolding type_orders

  type_orders-IsTie : (t u : PyType) → IsTie (type_orders t u) → t ≡ u
  type_orders-IsTie (make k n ts d) (make l m us e) h =
      let kinds = IsTie-if (same_kind k l) _ _ h (kind_tie k l) in
      let names =
        IsTie-if (text_eq n m) _ _ kinds.1
          (λ tie. (text_eq_iff n m).1 (text_less_total n m tie.0 tie.1)) in
      let lengths =
        IsTie-if (length (to_list ts) == length (to_list us)) _ _ names.1
          (λ tie. (==_iff _ _).1 (length_tie _ _ tie)) in
      let rest = types_orders-IsTie ts us (ltb d e, ltb e d) ((==_iff _ _).0 lengths.0) lengths.1 in
      λ i.
        make ((same_kind_iff k l).0 kinds.0 i) ((text_eq_iff n m).0 names.0 i) (rest.0 i)
          (length_tie d e rest.1 i)

  types_orders-IsTie :
      (ts us : Types) (a : Bool × Bool)
      → length (to_list ts) ≡ length (to_list us)
      → IsTie (types_orders ts us a)
      → (ts ≡ us) × IsTie a
  types_orders-IsTie nil nil a l h = (refl, h)
  types_orders-IsTie nil (cons u us) a l h = absurd (omega arith)
  types_orders-IsTie (cons t ts) nil a l h = absurd (omega arith)
  types_orders-IsTie (cons t ts) (cons u us) a l h =
      let parts = first-IsTie (type_orders t u) (types_orders ts us a) h in
      let rest = types_orders-IsTie ts us a (omega arith) parts.1 in
      let first = type_orders-IsTie t u parts.0 in (λ i. cons (first i) (rest.0 i), rest.1)

irreflexive : (b : Bool) → (b && b) ≡ false → b ≡ false
irreflexive true h = cc
irreflexive false h = refl

neither : (a b : Bool) → (a || b) ≡ false → (a ≡ false) × (b ≡ false)
neither true b h = cc
neither false b h = (refl, h)

-- The order on types is asymmetric and total: of two types at most one is less than the other, and
-- one is exactly where they differ. So the lesser of two types depends on no order between them.
pub type_less_total :
    (t u : PyType)
    → ((type_less t u && type_less u t) ≡ false)
      × ((type_less t u || type_less u t) ≡ not (type_eq t u))
unfolding type_less
type_less_total t u = (
  asymmetric t u,
  elim (Bool-cases (type_eq t u)) [
    | inl same ↦ equal ((type_eq_iff t u).0 same) ∙ sym (ap not same)
    | inr differ ↦ elim (Bool-cases (type_less t u || type_less u t)) [
      | inl some_less ↦ some_less ∙ sym (ap not differ)
      | inr tie ↦
          let parts = neither (type_less t u) (type_less u t) tie in
          let e = type_orders-IsTie t u (parts.0, second t u ∙ parts.1) in
          let clash = sym ((type_eq_iff t u).1 e) ∙ differ in cc
    ]
  ],
)
  where
    second : (t u : PyType) → (type_orders t u).1 ≡ type_less u t
    second t u = sym (ap (λ p. p.0) (type_orders_swap t u))

    asymmetric : (t u : PyType) → (type_less t u && type_less u t) ≡ false
    asymmetric t u = ap (λ b. type_less t u && b) (sym (second t u)) ∙ type_orders-IsAsymmetric t u

    equal : t ≡ u → (type_less t u || type_less u t) ≡ false
    equal e = let no = irreflexive (type_less t t) (asymmetric t t) in rw (sym e, no) refl
