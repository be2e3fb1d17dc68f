-- ===== src/Semantic/Kind/Laws.antt =====
-- Kinds are told apart by their positions.
use cythonpp.Prelude.{
  ℕ, ◌≡◌, refl, sym, ap, ◌∙◌, ◌↔◌, true, ◌==◌, ==_iff, Option, none, some, List, [], ◌∷◌,
  if◌then◌else◌,
}
use cythonpp.Semantic.Kind.{
  TypeKind, kind_index, same_kind, unknown, none_type, bool, int, float, complex, str, bytes,
  bytearray, ellipsis, list, dict, set, frozenset, tuple, range, union, callable, class, object,
}

abbrev kinds : List TypeKind
kinds =
    unknown ∷ none_type ∷ bool ∷ int ∷ float ∷ complex ∷ str ∷ bytes ∷ bytearray ∷ ellipsis ∷ list
    ∷ dict ∷ set ∷ frozenset ∷ tuple ∷ range ∷ union ∷ callable ∷ class ∷ object ∷ []

at_index : ℕ → List TypeKind → Option TypeKind
at_index i [] = none
at_index i (k ∷ ks) = if kind_index k == i then some k else at_index i ks

at_index-kind_index : (k : TypeKind) → at_index (kind_index k) kinds ≡ some k
unfolding at_index kind_index
at_index-kind_index unknown = refl
at_index-kind_index none_type = refl
at_index-kind_index bool = refl
at_index-kind_index int = refl
at_index-kind_index float = refl
at_index-kind_index complex = refl
at_index-kind_index str = refl
at_index-kind_index bytes = refl
at_index-kind_index bytearray = refl
at_index-kind_index ellipsis = refl
at_index-kind_index list = refl
at_index-kind_index dict = refl
at_index-kind_index set = refl
at_index-kind_index frozenset = refl
at_index-kind_index tuple = refl
at_index-kind_index range = refl
at_index-kind_index union = refl
at_index-kind_index callable = refl
at_index-kind_index class = refl
at_index-kind_index object = refl

some_inj : {a b : TypeKind} → some a ≡ some b → a ≡ b
some_inj e = cc

pub kind_index_injective : (a b : TypeKind) → kind_index a ≡ kind_index b → a ≡ b
kind_index_injective a b e =
    some_inj (sym (at_index-kind_index a) ∙ ap (λ i. at_index i kinds) e ∙ at_index-kind_index b)

pub same_kind_iff : (a b : TypeKind) → (same_kind a b ≡ true) ↔ (a ≡ b)
unfolding same_kind
same_kind_iff a b =
    (λ h. kind_index_injective a b ((==_iff _ _).0 h), λ e. (==_iff _ _).1 (ap kind_index e))
