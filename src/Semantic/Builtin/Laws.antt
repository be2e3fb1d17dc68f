-- ===== src/Semantic/Builtin/Laws.antt =====
-- The table of builtin names maps spellings and kinds to each other.
use cythonpp.Prelude.{
  ◌≡◌, refl, sym, ◌↔◌, Option, none, some, List, [], ◌∷◌, All, Bool-cases, inl, inr,
}
use cythonpp.Prelude.Text.{Text, text_eq, text_eq_iff}
use cythonpp.Semantic.Kind.{TypeKind, same_kind, kind_index}
use cythonpp.Semantic.Kind.Laws.{same_kind_iff}
use cythonpp.Semantic.Builtin.{
  BuiltinTypeName, builtin_type_names, named, of_builtin_kind, mapped, builtin_type_named,
  builtin_type_kind, builtin_type_spelling,
}

some_inj : {A : Type 0} {a b : A} → some a ≡ some b → a ≡ b
some_inj e = cc

-- Each row is the one that either reading finds.
abbrev IsFound : BuiltinTypeName → Type 0
IsFound e =
    (named builtin_type_names e.spelling ≡ some e)
    × (of_builtin_kind builtin_type_names e.kind ≡ some e)

table-IsFound : All IsFound builtin_type_names
unfolding named of_builtin_kind text_eq same_kind kind_index
table-IsFound = (
  (refl, refl),
  (
    (refl, refl),
    (
      (refl, refl),
      (
        (refl, refl),
        (
          (refl, refl),
          (
            (refl, refl),
            (
              (refl, refl),
              (
                (refl, refl),
                (
                  (refl, refl),
                  (
                    (refl, refl),
                    ((refl, refl), ((refl, refl), ((refl, refl), ((refl, refl), tt)))),
                  ),
                ),
              ),
            ),
          ),
        ),
      ),
    ),
  ),
)

module _ (P : BuiltinTypeName → Type 0) where
  pub named-All :
      (es : List BuiltinTypeName) (s : Text) (e : BuiltinTypeName)
      → All P es
      → named es s ≡ some e
      → P e × (s ≡ e.spelling)
  unfolding named
  named-All [] s e h f = cc
  named-All (x ∷ es) s e h f = elim (Bool-cases (text_eq s x.spelling)) [
    | inl same ↦
        let is : x ≡ e = some_inj (rw same at f) in
        rw (sym is) (h.0, (text_eq_iff s x.spelling).0 same)
    | inr other ↦ named-All es s e h.1 (rw other at f)
  ]

  kind-All :
      (es : List BuiltinTypeName) (k : TypeKind) (e : BuiltinTypeName)
      → All P es
      → of_builtin_kind es k ≡ some e
      → P e × (e.kind ≡ k)
  unfolding of_builtin_kind
  kind-All [] k e h f = cc
  kind-All (x ∷ es) k e h f = elim (Bool-cases (same_kind x.kind k)) [
    | inl same ↦
        let is : x ≡ e = some_inj (rw same at f) in
        rw (sym is) (h.0, (same_kind_iff x.kind k).0 same)
    | inr other ↦ kind-All es k e h.1 (rw other at f)
  ]

-- What an optional value was made from.
mapped-some :
    {A B : Type 0} (f : A → B) (o : Option A) (b : B)
    → mapped f o ≡ some b
    → (a : A) × (o ≡ some a) × (f a ≡ b)
mapped-some f none b h = cc
mapped-some f (some a) b h = (a, refl, some_inj h)

-- A name denotes a builtin kind exactly when it is that kind's spelling, so the two readings of the
-- table are inverse to each other.
pub builtin_type_kind_iff :
    (name : Text) (kind : TypeKind)
    → (builtin_type_kind name ≡ some kind) ↔ (builtin_type_spelling kind ≡ some name)
unfolding builtin_type_kind builtin_type_spelling builtin_type_named
builtin_type_kind_iff name kind = (forward, backward)
  where
    forward : builtin_type_kind name ≡ some kind → builtin_type_spelling kind ≡ some name
    forward h =
        let found = mapped-some (λ e. e.kind) (named builtin_type_names name) kind h in
        let row = named-All IsFound builtin_type_names name found.0 table-IsFound found.1 in
        rw (sym found.2, row.0.1, row.1)

    backward : builtin_type_spelling kind ≡ some name → builtin_type_kind name ≡ some kind
    backward h =
        let found =
          mapped-some (λ e. e.spelling) (of_builtin_kind builtin_type_names kind) name h in
        let row = kind-All IsFound builtin_type_names kind found.0 table-IsFound found.1 in
        rw (sym found.2, row.0.0, row.1)
