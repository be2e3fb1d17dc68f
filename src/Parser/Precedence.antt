-- ===== src/Parser/Precedence.antt =====
-- The category test never hides an operator of the table.
use cythonpp.Prelude.{
  ℕ, ◌≡◌, refl, sym, ap, ◌∙◌, true, some, List, [], ◌∷◌, All, Bool-cases, Option-cases, inl, inr,
}
use cythonpp.Lexer.TokenType.{
  TokenType, operator, has_category, same_type, category_of, token_value,
}
use cythonpp.Lexer.TokenType.Codes.{same_type_iff}
use cythonpp.Parser.{PrecedenceEntry, binary_operators, find_level, binary_precedence_of}

abbrev IsOperator : PrecedenceEntry → Type 0
IsOperator e = has_category e.type operator ≡ true

table-IsOperator : All IsOperator binary_operators
unfolding has_category category_of token_value
table-IsOperator = (
  refl,
  (refl, (refl, (refl, (refl, (refl, (refl, (refl, (refl, (refl, (refl, (refl, tt))))))))))),
)

find_level-IsOperator :
    (es : List PrecedenceEntry) (type : TokenType) (level : ℕ)
    → All IsOperator es
    → find_level es type ≡ some level
    → has_category type operator ≡ true
unfolding find_level
find_level-IsOperator [] type level h f = cc
find_level-IsOperator (e ∷ es) type level h f = elim (Bool-cases (same_type e.type type)) [
  | inl same ↦ ap (λ t. has_category t operator) (sym ((same_type_iff e.type type).0 same)) ∙ h.0
  | inr other ↦ find_level-IsOperator es type level h.1 (rw other at f)
]

-- The answer is the table's, with the category test or without.
pub binary_precedence_of-find_level :
    (type : TokenType) → binary_precedence_of type ≡ find_level binary_operators type
unfolding binary_precedence_of
binary_precedence_of-find_level type = elim (Option-cases (find_level binary_operators type)) [
  | inr (level, found) ↦
      rw
        (
          binary_precedence_of,
          find_level-IsOperator binary_operators type level table-IsOperator found,
        )
        refl
  | inl missing ↦ elim (Bool-cases (has_category type operator)) [
    | inl op ↦ rw (binary_precedence_of, op) refl
    | inr other ↦ rw (binary_precedence_of, other, missing) refl
  ]
]
