-- ===== src/Semantic/Subtype/Chain.antt =====
-- src/domain/semantic/class_lookup.h and the ancestor walk of type_compatibility.cpp.
use cythonpp.Prelude.{
  ℕ, zero, suc, Bool, true, false, Option, none, some, List, [], ◌∷◌, ◌++◌, ◌||◌, if◌then◌else◌,
}
use cythonpp.Prelude.Text.{Text, text_eq}
use cythonpp.Semantic.Kind.{class}
use cythonpp.Semantic.PyType.{PyType, make, kind_of, name_of, has_kind, class_of}
use cythonpp.Semantic.Builtin.{builtin_type_spelling}

-- The interface that a class table implements.
pub record ClassLookup : Type 0 where
  pub is_class : Text → Bool
  pub bases_of : Text → List PyType
  pub canonical_name : Text → Text

-- `&&` and `||` on answers that may be missing: the right one is asked only where it decides.
unfoldable pub and_also : Option Bool → Option Bool → Option Bool
and_also none second = none
and_also (some false) second = some false
and_also (some true) second = second

unfoldable pub or_else : Option Bool → Option Bool → Option Bool
or_else none second = none
or_else (some true) second = some true
or_else (some false) second = second

infixl 15 ◌>>=◌
abbrev pub ◌>>=◌ {ℓ κ} : {A : Type ℓ} {B : Type κ} → Option A → (A → Option B) → Option B
none >>= f = none
some a >>= f = f a

unfoldable pub chain_key : ClassLookup → PyType → Option Text
chain_key classes step =
    if has_kind class step
    then some (classes.canonical_name (name_of step))
    else builtin_type_spelling (kind_of step)

unfoldable pub has_key : Text → List Text → Bool
has_key key [] = false
has_key key (k ∷ ks) = text_eq k key || has_key key ks

-- A class step under its canonical name.
abbrev pub canonical_step : ClassLookup → PyType → PyType
canonical_step classes (make k n as' d) =
    make k (if has_kind class (make k n as' d) then classes.canonical_name n else n) as' d

-- The worklist, its back at the head of the list: bases are pushed in reverse, so the leftmost is
-- popped first. none: the fuel ran out.
unfoldable pub walk : ℕ → ClassLookup → List PyType → List PyType → List Text → Option (List PyType)
unfolding chain_key has_key
walk zero classes pending chain keys = none
walk (suc fuel) classes [] chain keys = some chain
walk (suc fuel) classes (next ∷ pending) chain keys =
    elim (chain_key classes (canonical_step classes next)) [
      | none ↦ walk fuel classes pending chain keys
      | some key ↦ elim (has_key key keys) [
        | true ↦ walk fuel classes pending chain keys
        | false ↦
            walk fuel classes (classes.bases_of key ++ pending)
              (chain ++ canonical_step classes next ∷ []) (keys ++ key ∷ [])
      ]
    ]

unfoldable pub class_ancestor_chain : ℕ → ClassLookup → Text → Option (List PyType)
unfolding walk
class_ancestor_chain fuel classes start =
    let root = classes.canonical_name start in
    walk fuel classes (classes.bases_of root) (class_of root ∷ []) (root ∷ [])
