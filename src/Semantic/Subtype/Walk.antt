-- ===== src/Semantic/Subtype/Walk.antt =====
-- The ancestor walk of type_compatibility.cpp ends, cycles among the classes included.
use cythonpp.Prelude.{
  ℕ, zero, suc, ◌+◌, ◌≤◌, ◌<◌, ◌≡◌, refl, sym, ap, ◌∙◌, Bool, true, false, ◌||◌, Option, some, List,
  [], ◌∷◌, ◌++◌, length, if◌then◌else◌, Bool-cases, Option-cases, inl, inr, arith,
}
use cythonpp.Prelude.{length-append}
use cythonpp.Prelude.Text.{Text, text_eq, text_eq_iff}
use cythonpp.Semantic.PyType.{PyType}
use cythonpp.Semantic.Subtype.Chain.{
  ClassLookup, has_key, chain_key, canonical_step, walk, class_ancestor_chain,
}

or_assoc : (a b c : Bool) → ((a || b) || c) ≡ (a || (b || c))
or_assoc true b c = refl
or_assoc false b c = refl

pub has_key-append :
    (key : Text) (ps qs : List Text) → has_key key (ps ++ qs) ≡ (has_key key ps || has_key key qs)
unfolding has_key
has_key-append key [] qs = refl
has_key-append key (p ∷ ps) qs =
    ap (λ b. text_eq p key || b) (has_key-append key ps qs)
    ∙ sym (or_assoc (text_eq p key) (has_key key ps) (has_key key qs))

or_true : (a : Bool) → (a || true) ≡ true
or_true true = refl
or_true false = refl

module _ (classes : ClassLookup) where
  -- The bases of the names that are not among the keys.
  unfoldable pub bases_left : List Text → List Text → ℕ
  bases_left [] keys = 0
  bases_left (n ∷ ns) keys =
      (if has_key n keys then 0 else length (classes.bases_of n)) + bases_left ns keys

  name_left-bound : (n : ℕ) (a b : Bool) → (if a || b then 0 else n) ≤ (if a then 0 else n)
  name_left-bound n true b = omega arith
  name_left-bound n false true = omega arith
  name_left-bound n false false = omega arith

  bases_left-append :
      (ns keys : List Text) (key : Text) → bases_left ns (keys ++ key ∷ []) ≤ bases_left ns keys
  unfolding bases_left
  bases_left-append [] keys key = omega arith
  bases_left-append (n ∷ ns) keys key =
      let one =
        name_left-bound (length (classes.bases_of n)) (has_key n keys) (has_key n (key ∷ [])) in
      rw (has_key-append n keys (key ∷ [])) (omega (arith, one, bases_left-append ns keys key))

  -- A new key takes its bases off what is left.
  bases_left-new :
      (ns keys : List Text) (key : Text)
      → has_key key ns ≡ true
      → has_key key keys ≡ false
      → length (classes.bases_of key) + bases_left ns (keys ++ key ∷ []) ≤ bases_left ns keys
  unfolding bases_left has_key
  bases_left-new [] keys key h new = cc
  bases_left-new (n ∷ ns) keys key h new = elim (Bool-cases (text_eq n key)) [
    | inl here ↦
        let is : n ≡ key = (text_eq_iff n key).0 here in
        let fresh : has_key n keys ≡ false = ap (λ k. has_key k keys) is ∙ new in
        let told : has_key n (keys ++ key ∷ []) ≡ true =
          has_key-append n keys (key ∷ [])
          ∙ ap (λ b. has_key n keys || (b || false)) ((text_eq_iff key n).1 (sym is))
          ∙ or_true (has_key n keys) in
        let same : length (classes.bases_of n) ≡ length (classes.bases_of key) =
          ap (λ k. length (classes.bases_of k)) is in
        rw (fresh, told) (omega (arith, same, bases_left-append ns keys key))
    | inr other ↦
        let one =
          name_left-bound (length (classes.bases_of n)) (has_key n keys) (has_key n (key ∷ [])) in
        let rest = bases_left-new ns keys key (rw other at h) new in
        rw (has_key-append n keys (key ∷ [])) (omega (arith, one, rest))
  ]

  -- Only the names listed have bases, as in a table of them.
  abbrev pub IsListed : List Text → Type 0
  IsListed names = (name : Text) → has_key name names ≡ false → classes.bases_of name ≡ []

  bases_left-push :
      (names keys : List Text) (key : Text)
      → IsListed names
      → has_key key keys ≡ false
      → length (classes.bases_of key) + bases_left names (keys ++ key ∷ []) ≤ bases_left names keys
  bases_left-push names keys key listed new = elim (Bool-cases (has_key key names)) [
    | inl there ↦ bases_left-new names keys key there new
    | inr gone ↦
        let none_left : length (classes.bases_of key) ≡ 0 = ap length (listed key gone) in
        omega (arith, none_left, bases_left-append names keys key)
  ]

  abbrev Walked : Option (List PyType) → Type 0
  Walked r = (chain : List PyType) × (r ≡ some chain)

  walk-Walked :
      (names : List Text)
      → IsListed names
      → (fuel : ℕ) (pending chain : List PyType) (keys : List Text)
      → length pending + bases_left names keys < fuel
      → Walked (walk fuel classes pending chain keys)
  unfolding walk
  walk-Walked names listed zero pending chain keys h = absurd (omega arith)
  walk-Walked names listed (suc fuel) [] chain keys h = (chain, refl)
  walk-Walked names listed (suc fuel) (next ∷ pending) chain keys h =
      elim (Option-cases (chain_key classes (canonical_step classes next))) [
        | inl none_known ↦
            rw (walk, none_known)
              (walk-Walked names listed fuel pending chain keys (omega (arith, h)))
        | inr (key, known) ↦ elim (Bool-cases (has_key key keys)) [
          | inl seen ↦
              rw (walk, known, seen)
                (walk-Walked names listed fuel pending chain keys (omega (arith, h)))
          | inr new ↦
              let bases = classes.bases_of key in
              rw (walk, known, new)
                (walk-Walked names listed fuel (bases ++ pending) _ (keys ++ key ∷ []) (
                  omega (
                    arith,
                    h,
                    length-append bases pending,
                    bases_left-push names keys key listed new,
                  )))
        ]
      ]

-- With a table that lists finitely many names the walk from any name ends, whatever cycles their
-- bases form, and one more than the number of all bases is enough fuel.
pub class_ancestor_chain-Walked :
    (classes : ClassLookup) (names : List Text) (fuel : ℕ) (start : Text)
    → IsListed classes names
    → bases_left classes names [] < fuel
    → (chain : List PyType) × (class_ancestor_chain fuel classes start ≡ some chain)
unfolding class_ancestor_chain has_key
class_ancestor_chain-Walked classes names fuel start listed enough =
    let root = classes.canonical_name start in
    walk-Walked classes names listed fuel _ _ _
      (omega (arith, enough, bases_left-push classes names [] root listed refl))
