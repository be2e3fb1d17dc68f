-- ===== src/Semantic/OperatorRules/TupleIndex.antt =====
-- A tuple at a literal index.
use cythonpp.Prelude.{
  ℕ, zero, suc, ◌+◌, ◌<◌, ◌≤◌, ◌≡◌, refl, ap, ◌∙◌, Bool, true, false, ◌||◌, not, some, List, [],
  ◌∷◌, length, get_elem?, if◌then◌else◌, arith,
}
use cythonpp.Prelude.Int.{ℤ, pos, negsuc, pos_part, ◌+ℤ◌, ◌-ℤ◌, ltb_ℤ}
use cythonpp.Semantic.PyType.{PyType}
use cythonpp.Semantic.OperatorRules.Result.{ok, not_applicable, lift}
use cythonpp.Semantic.OperatorRules.Elements.{tuple_at}

get_elem?-some :
    (args : List PyType) (n : ℕ) → n < length args → (t : PyType) × (get_elem? args n ≡ some t)
get_elem?-some [] n h = absurd (omega arith)
get_elem?-some (t ∷ ts) zero h = (t, refl)
get_elem?-some (t ∷ ts) (suc n) h = get_elem?-some ts n (omega arith)

-- The guard and the index, over the length alone.
abbrev outside : ℕ → ℤ → Bool
outside size index = ltb_ℤ index (pos 0 -ℤ pos size) || not (ltb_ℤ index (pos size))

abbrev normalised : ℕ → ℤ → ℤ
normalised size index = if ltb_ℤ index (pos 0) then index +ℤ pos size else index

front_inside : (n m size : ℕ) → suc (n + m) ≡ size → outside size (pos n) ≡ false
unfolding ◌-ℤ◌
front_inside n m size e = ground arith

back_inside : (n m size : ℕ) → suc (n + m) ≡ size → outside size (negsuc m) ≡ false
unfolding ◌-ℤ◌
back_inside n m size e = ground arith

front_index : (n size : ℕ) → pos_part (normalised size (pos n)) ≡ n
unfolding ◌+ℤ◌
front_index n size = ground arith

back_index : (n m size : ℕ) → suc (n + m) ≡ size → pos_part (normalised size (negsuc m)) ≡ n
unfolding ◌+ℤ◌
back_index n m size e = ground arith

front_outside : (n size : ℕ) → size ≤ n → outside size (pos n) ≡ true
unfolding ◌-ℤ◌
front_outside n size h = ground arith

back_outside : (n size : ℕ) → size ≤ n → outside size (negsuc n) ≡ true
unfolding ◌-ℤ◌
back_outside n size h = ground arith

tuple_at_inside :
    (args : List PyType) (index : ℤ) (n : ℕ)
    → outside (length args) index ≡ false
    → pos_part (normalised (length args) index) ≡ n
    → tuple_at args index ≡ lift (get_elem? args n)
unfolding tuple_at
tuple_at_inside args index n inside at = rw (inside, at) refl

-- A tuple of n + m + 1 types has at index n the same type as at index -(m + 1), the one that stands
-- there; and no type at an index that is not below its size, nor at one before -size.
pub tuple_at-get_elem? :
    (args : List PyType)
    → ((n m : ℕ)
        → suc (n + m) ≡ length args
        → (t : PyType) × (get_elem? args n ≡ some t)
          × (tuple_at args (pos n) ≡ ok t)
          × (tuple_at args (negsuc m) ≡ ok t))
      × ((n : ℕ)
          → length args ≤ n
          → (tuple_at args (pos n) ≡ not_applicable) × (tuple_at args (negsuc n) ≡ not_applicable))
unfolding tuple_at
tuple_at-get_elem? args = (
  λ n m e.
      let found = get_elem?-some args n (omega (arith, e)) in
      (
        found.0,
        found.1,
        tuple_at_inside args (pos n) n (front_inside n m (length args) e)
              (front_index n (length args))
            ∙ ap lift found.1,
        tuple_at_inside args (negsuc m) n (back_inside n m (length args) e)
              (back_index n m (length args) e)
            ∙ ap lift found.1,
      ),
  λ n h. (rw (front_outside n (length args) h) refl, rw (back_outside n (length args) h) refl),
)
