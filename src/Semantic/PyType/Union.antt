-- ===== src/Semantic/PyType/Union.antt =====
-- What `union_of` builds.
use cythonpp.Prelude.{
  ◌≤◌, ◌≡◌, refl, sym, ap, ◌∙◌, ◌⊎◌, inl, inr, true, false, ◌||◌, List, [], ◌∷◌, ◌++◌, arith,
  length, All, Bool-cases, if◌then◌else◌,
}
use mathlib.Core.List.{append_assoc}
use cythonpp.Semantic.Kind.{unknown, union, same_kind, kind_index}
use cythonpp.Semantic.PyType.{
  PyType, make, to_list, of_list, args_of, has_kind, of_kind, spread, flatten, any_type, keep,
  distinct, collapse, union_of,
}
use cythonpp.Semantic.PyType.Distinct.{
  occurs, IsDistinct, any_type-append, distinct-IsDistinct, All-append, All-distinct,
  distinct-append, distinct_id, distinct-head, occurs-distinct,
}

-- No union and not Unknown.
abbrev pub IsMember : PyType → Type 0
IsMember t = (has_kind union t ≡ false) × (has_kind unknown t ≡ false)

abbrev pub IsMemberList : List PyType → Type 0
IsMemberList ts = (2 ≤ length ts) × IsDistinct ts × All IsMember ts

-- Where a type is a union, it has at least two distinct members, none a union and none Unknown.
abbrev pub IsProper : PyType → Type 0
IsProper t = (has_kind union t ≡ false) ⊎ IsMemberList (to_list (args_of t))

pub to_list-of_list : (ts : List PyType) → to_list (of_list ts) ≡ ts
to_list-of_list [] = refl
to_list-of_list (t ∷ ts) = ap (λ us. t ∷ us) (to_list-of_list ts)

abbrev IsFlat : PyType → Type 0
IsFlat t = has_kind union t ≡ false

members_flat : (ts : List PyType) → All IsMember ts → All IsFlat ts
members_flat [] h = tt
members_flat (t ∷ ts) h = (h.0.0, members_flat ts h.1)

spread-IsFlat : (t : PyType) → IsProper t → All IsFlat (spread t)
spread-IsFlat t (inl plain) = rw plain (plain, tt)
spread-IsFlat t (inr ms) = elim (Bool-cases (has_kind union t)) [
  | inl nested ↦ rw nested (members_flat _ ms.2)
  | inr plain ↦ rw plain (plain, tt)
]

flatten-IsFlat : (ts : List PyType) → All IsProper ts → All IsFlat (flatten ts)
unfolding flatten
flatten-IsFlat [] h = tt
flatten-IsFlat (t ∷ ts) h =
    All-append IsFlat (spread t) (flatten ts) (spread-IsFlat t h.0) (flatten-IsFlat ts h.1)

flat_members :
    (ts : List PyType) → any_type (has_kind unknown) ts ≡ false → All IsFlat ts → All IsMember ts
unfolding any_type
flat_members [] h f = tt
flat_members (t ∷ ts) h f = elim (Bool-cases (has_kind unknown t)) [
  | inl bad ↦ let clash : (true || any_type (has_kind unknown) ts) ≡ false = (rw bad at h) in cc
  | inr fine ↦ ((f.0, fine), flat_members ts (rw fine at h) f.1)
]

collapse-IsProper : (ts : List PyType) → IsDistinct ts → All IsMember ts → IsProper (collapse ts)
unfolding same_kind kind_index
collapse-IsProper [] d m = inl refl
collapse-IsProper (t ∷ []) d m = inl m.0.0
collapse-IsProper (t ∷ u ∷ ts) d m = inr (rw to_list-of_list (omega arith, d, m))

-- From members that are proper themselves `union_of` makes a proper type: a Union that it builds has
-- at least two distinct members, none of them a Union and none Unknown.
pub union_of-IsProper : (ts : List PyType) → All IsProper ts → IsProper (union_of ts)
unfolding union_of same_kind kind_index
union_of-IsProper ts h = elim (Bool-cases (any_type (has_kind unknown) (flatten ts))) [
  | inl bad ↦ rw bad (inl refl)
  | inr fine ↦ rw fine (
      collapse-IsProper (distinct [] (flatten ts)) (distinct-IsDistinct (flatten ts) [] tt) (
        All-distinct IsMember (flatten ts) [] tt
          (flat_members (flatten ts) fine (flatten-IsFlat ts h))))
]

flatten-append : (ts us : List PyType) → flatten (ts ++ us) ≡ flatten ts ++ flatten us
unfolding flatten
flatten-append [] us = refl
flatten-append (t ∷ ts) us =
    ap (λ vs. spread t ++ vs) (flatten-append ts us)
    ∙ sym (append_assoc (spread t) (flatten ts) (flatten us))

members_known : (ts : List PyType) → All IsMember ts → any_type (has_kind unknown) ts ≡ false
unfolding any_type
members_known [] h = refl
members_known (t ∷ ts) h = rw h.0.1 (members_known ts h.1)

-- A list that is not empty, by its first type.
abbrev IsHeaded : List PyType → Type 0
IsHeaded ts = (t : PyType) × (us : List PyType) × (ts ≡ t ∷ us)

spread-IsHeaded : (t : PyType) → IsProper t → IsHeaded (spread t)
spread-IsHeaded t (inl plain) = rw plain (t, [], refl)
spread-IsHeaded (make k n as' d) (inr ms) = elim (Bool-cases (same_kind k union)) [
  | inl nested ↦ rw nested (headed (to_list as') ms.0)
  | inr plain ↦ rw plain (make k n as' d, [], refl)
]
  where
    headed : (ts : List PyType) → 2 ≤ length ts → IsHeaded ts
    headed [] h = absurd (omega arith)
    headed (t ∷ ts) h = (t, ts, refl)

flatten-IsHeaded : (t : PyType) (ts : List PyType) → IsProper t → IsHeaded (flatten (t ∷ ts))
unfolding flatten
flatten-IsHeaded t ts p =
    let s = spread-IsHeaded t p in (s.0, s.1 ++ flatten ts, ap (λ us. us ++ flatten ts) s.2)

distinct-IsHeaded : (ts : List PyType) → IsHeaded ts → IsHeaded (distinct [] ts)
unfolding distinct keep any_type
distinct-IsHeaded ts h = let d = distinct-head h.1 h.0 [] in rw h.2 (h.0, d.0, d.1)

spread-collapse : (ts : List PyType) → IsHeaded ts → All IsMember ts → spread (collapse ts) ≡ ts
unfolding same_kind kind_index
spread-collapse [] h m = absurd (let e = h.2 in cc)
spread-collapse (t ∷ []) h m = rw m.0.0
spread-collapse (t ∷ u ∷ ts) h m = to_list-of_list (t ∷ u ∷ ts)

-- The members that a union of known types spreads to are the distinct ones of its parts.
spread-union_of :
    (t : PyType) (ts : List PyType)
    → All IsProper (t ∷ ts)
    → any_type (has_kind unknown) (flatten (t ∷ ts)) ≡ false
    → spread (union_of (t ∷ ts)) ≡ distinct [] (flatten (t ∷ ts))
unfolding union_of
spread-union_of t ts h fine = rw fine (
    spread-collapse _ (distinct-IsHeaded _ (flatten-IsHeaded t ts h.0))
      (All-distinct IsMember _ [] tt (flat_members _ fine (flatten-IsFlat (t ∷ ts) h))))

-- `union_of` sees its members through the flat list alone.
abbrev of_flat : List PyType → PyType
of_flat flat =
    if any_type (has_kind unknown) flat then of_kind unknown else collapse (distinct [] flat)

of_flat_same :
    (ts us : List PyType)
    → any_type (has_kind unknown) ts ≡ any_type (has_kind unknown) us
    → distinct [] ts ≡ distinct [] us
    → of_flat ts ≡ of_flat us
of_flat_same ts us h k = rw (h, k)

union_of_unknown :
    (ts us : List PyType)
    → any_type (has_kind unknown) (flatten ts) ≡ true
    → union_of (ts ++ us) ≡ of_kind unknown
unfolding union_of
union_of_unknown ts us h = rw (flatten-append ts us, any_type-append, h)

append_unknown :
    (ts us : List PyType)
    → any_type (has_kind unknown) ts ≡ false
    → any_type (has_kind unknown) (ts ++ us) ≡ any_type (has_kind unknown) us
append_unknown ts us h = rw (any_type-append, h)

distinct_prefix :
    (ts us : List PyType) → distinct [] (distinct [] ts ++ us) ≡ distinct [] (ts ++ us)
distinct_prefix ts us =
    distinct-append (distinct [] ts) us []
    ∙ ap (λ d. distinct d us) (distinct_id (distinct [] ts) [] (distinct-IsDistinct ts [] tt))
    ∙ sym (distinct-append ts us [])

unknown_flat : any_type (has_kind unknown) (flatten (of_kind unknown ∷ [])) ≡ true
unfolding any_type flatten same_kind kind_index
unknown_flat = refl

-- A union inside a union is the one union of all members in their order, so `(int | str) | None` is
-- `int | str | None`; also where a member is Unknown.
pub union_of-nested :
    (t : PyType) (ts us : List PyType)
    → All IsProper (t ∷ ts)
    → union_of (union_of (t ∷ ts) ∷ us) ≡ union_of ((t ∷ ts) ++ us)
unfolding union_of
union_of-nested t ts us h = elim (Bool-cases (any_type (has_kind unknown) flat)) [
  | inl bad ↦
      ap (λ u. union_of (u ∷ us)) (no_union bad)
      ∙ union_of_unknown (of_kind unknown ∷ []) us unknown_flat
      ∙ sym (union_of_unknown (t ∷ ts) us bad)
  | inr fine ↦
      ap of_flat (ap (λ ms. ms ++ flatten us) (spread-union_of t ts h fine))
      ∙ of_flat_same (distinct [] flat ++ flatten us) (flat ++ flatten us)
          (append_unknown _ (flatten us) (members_known _ (kept_members fine))
            ∙ sym (append_unknown flat (flatten us) fine))
          (distinct_prefix flat (flatten us))
      ∙ ap of_flat (sym (flatten-append (t ∷ ts) us))
]
  where
    flat : List PyType
    flat = flatten (t ∷ ts)

    no_union : any_type (has_kind unknown) flat ≡ true → union_of (t ∷ ts) ≡ of_kind unknown
    no_union bad = rw bad

    kept_members : any_type (has_kind unknown) flat ≡ false → All IsMember (distinct [] flat)
    kept_members fine =
        All-distinct IsMember flat [] tt (flat_members flat fine (flatten-IsFlat (t ∷ ts) h))

-- A union of proper types with no Unknown among its members has exactly their members.
pub occurs-union_of :
    (u t : PyType) (ts : List PyType)
    → All IsProper (t ∷ ts)
    → any_type (has_kind unknown) (flatten (t ∷ ts)) ≡ false
    → occurs u (spread (union_of (t ∷ ts))) ≡ occurs u (flatten (t ∷ ts))
unfolding any_type
occurs-union_of u t ts h fine =
    ap (occurs u) (spread-union_of t ts h fine) ∙ occurs-distinct u (flatten (t ∷ ts)) []
