-- ===== src/Parser.antt =====
-- src/domain/parser/precedence_table.cpp: the levels of the left-associative binary operators.
pub mod Precedence
use cythonpp.Prelude.{ℕ, Bool, true, false, Option, none, some, List, [], ◌∷◌, if◌then◌else◌}
use cythonpp.Lexer.TokenType.{
  TokenType, operator, has_category, same_type, op_pipe, op_caret, op_ampersand, op_left_shift,
  op_right_shift, op_plus, op_minus, op_star, op_at, op_slash, op_double_slash, op_percent,
}

pub record PrecedenceEntry : Type 0 where
  pub type : TokenType
  pub level : ℕ

abbrev level_of : TokenType → ℕ → PrecedenceEntry
level_of type level = record { type = type; level = level }

abbrev pub binary_operators : List PrecedenceEntry
binary_operators =
    level_of op_pipe 1
    ∷ level_of op_caret 2
    ∷ level_of op_ampersand 3
    ∷ level_of op_left_shift 4
    ∷ level_of op_right_shift 4
    ∷ level_of op_plus 5
    ∷ level_of op_minus 5
    ∷ level_of op_star 6
    ∷ level_of op_at 6
    ∷ level_of op_slash 6
    ∷ level_of op_double_slash 6
    ∷ level_of op_percent 6
    ∷ []

unfoldable pub find_level : List PrecedenceEntry → TokenType → Option ℕ
find_level [] type = none
find_level (entry ∷ rest) type =
    let later = find_level rest type in
    if same_type entry.type type then some entry.level else later

-- The category is asked first, which is cheaper than the table.
unfoldable pub binary_precedence_of : TokenType → Option ℕ
unfolding find_level
binary_precedence_of type =
    if has_category type operator then find_level binary_operators type else none
