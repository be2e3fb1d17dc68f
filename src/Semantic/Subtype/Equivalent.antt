-- ===== src/Semantic/Subtype/Equivalent.antt =====
-- Equivalence of types, in terms of the declarative relation.
use cythonpp.Prelude.{ℕ, ◌+◌, ◌≤◌, ◌≡◌, Bool, true, false, none, some, ◌⊎◌, inl, inr, arith}
use cythonpp.Semantic.PyType.{PyType}
use cythonpp.Semantic.Subtype.{is_equivalent, is_subtype, equivalent_by}
use cythonpp.Semantic.Subtype.Chain.{and_also}
use cythonpp.Semantic.Subtype.Rules.{Sub}
use cythonpp.Semantic.Subtype.Sound.{and_also-true}
use cythonpp.Semantic.Subtype.Complete.{is_subtype_iff-Sub}
use cythonpp.Semantic.Subtype.Decided.{size, is_equivalent-IsDecided}

true_is_false : some true ≡ some false → ⊥
true_is_false e = cc

-- `is_equivalent` decides the declarative relation in both directions.
pub equivalent-Sub :
    (fuel : ℕ) (s t : PyType)
    → size s + size t ≤ fuel
    → ((is_equivalent fuel none s t ≡ some true) × Sub s t × Sub t s)
      ⊎ ((is_equivalent fuel none s t ≡ some false) × (Sub s t → Sub t s → ⊥))
unfolding is_equivalent equivalent_by and_also
equivalent-Sub fuel s t le = split (is_equivalent-IsDecided fuel s t le)
  where
    forth :
        (is_subtype fuel none s t ≡ some true → Sub s t)
        × (Sub s t → is_subtype fuel none s t ≡ some true)
    forth = (is_subtype_iff-Sub fuel s t le).0

    back :
        (is_subtype fuel none t s ≡ some true → Sub t s)
        × (Sub t s → is_subtype fuel none t s ≡ some true)
    back = (is_subtype_iff-Sub fuel t s (omega arith)).0

    split :
        (b : Bool) × (is_equivalent fuel none s t ≡ some b)
        → ((is_equivalent fuel none s t ≡ some true) × Sub s t × Sub t s)
          ⊎ ((is_equivalent fuel none s t ≡ some false) × (Sub s t → Sub t s → ⊥))
    split (true, e) = let parts = and_also-true _ _ e in inl (e, forth.0 parts.0, back.0 parts.1)
    split (false, e) = inr (e, λ p q. true_is_false (rw (and_also, forth.1 p, back.1 q) at e))
