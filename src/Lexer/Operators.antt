-- ===== src/Lexer/Operators.antt =====
-- src/domain/lexer/operator_table.cpp: the sorted table of operators, and the longest one at the
-- start of a text.
pub mod Rows
pub mod Longest
pub mod Tests
use cythonpp.Prelude.{
  ℕ, zero, suc, Bool, true, false, ◌||◌, not, Option, none, some, List, [], ◌∷◌, ◌==◌, length,
  if◌then◌else◌,
}
use cythonpp.Prelude.Text.{Text, text}
use cythonpp.Lexer.TokenType.{
  TokenType, token_error, close_brace, close_bracket, close_paren, colon, comma, dot, ellipsis,
  op_ampersand, op_ampersand_assign, op_arrow, op_assign, op_at, op_at_assign, op_caret,
  op_caret_assign, op_double_slash, op_double_slash_assign, op_double_star, op_double_star_assign,
  op_equal, op_greater, op_greater_equal, op_left_shift, op_left_shift_assign, op_less,
  op_less_equal, op_minus, op_minus_assign, op_not_equal, op_percent, op_percent_assign, op_pipe,
  op_pipe_assign, op_plus, op_plus_assign, op_right_shift, op_right_shift_assign, op_slash,
  op_slash_assign, op_star, op_star_assign, op_tilde, op_walrus, open_brace, open_bracket,
  open_paren, semicolon,
}
use cythonpp.Lexer.Keywords.{KeywordEntry, find_word, find_lexeme}

abbrev entry : Text → TokenType → KeywordEntry
entry spelling type = record { spelling = spelling; type = type }

abbrev pub max_operator_length : ℕ
max_operator_length = 3

abbrev pub operator_table : List KeywordEntry
operator_table =
    entry (text "!=") op_not_equal
    ∷ entry (text "%") op_percent
    ∷ entry (text "%=") op_percent_assign
    ∷ entry (text "&") op_ampersand
    ∷ entry (text "&=") op_ampersand_assign
    ∷ entry (text "(") open_paren
    ∷ entry (text ")") close_paren
    ∷ entry (text "*") op_star
    ∷ entry (text "**") op_double_star
    ∷ entry (text "**=") op_double_star_assign
    ∷ entry (text "*=") op_star_assign
    ∷ entry (text "+") op_plus
    ∷ entry (text "+=") op_plus_assign
    ∷ entry (text ",") comma
    ∷ entry (text "-") op_minus
    ∷ entry (text "-=") op_minus_assign
    ∷ entry (text "->") op_arrow
    ∷ entry (text ".") dot
    ∷ entry (text "...") ellipsis
    ∷ entry (text "/") op_slash
    ∷ entry (text "//") op_double_slash
    ∷ entry (text "//=") op_double_slash_assign
    ∷ entry (text "/=") op_slash_assign
    ∷ entry (text ":") colon
    ∷ entry (text ":=") op_walrus
    ∷ entry (text ";") semicolon
    ∷ entry (text "<") op_less
    ∷ entry (text "<<") op_left_shift
    ∷ entry (text "<<=") op_left_shift_assign
    ∷ entry (text "<=") op_less_equal
    ∷ entry (text "=") op_assign
    ∷ entry (text "==") op_equal
    ∷ entry (text ">") op_greater
    ∷ entry (text ">=") op_greater_equal
    ∷ entry (text ">>") op_right_shift
    ∷ entry (text ">>=") op_right_shift_assign
    ∷ entry (text "@") op_at
    ∷ entry (text "@=") op_at_assign
    ∷ entry (text "[") open_bracket
    ∷ entry (text "]") close_bracket
    ∷ entry (text "^") op_caret
    ∷ entry (text "^=") op_caret_assign
    ∷ entry (text "{") open_brace
    ∷ entry (text "|") op_pipe
    ∷ entry (text "|=") op_pipe_assign
    ∷ entry (text "}") close_brace
    ∷ entry (text "~") op_tilde
    ∷ []

unfoldable pub find_operator : Text → Option TokenType
unfolding find_word
find_operator word = find_word operator_table word

-- The first bytes of a text.
abbrev pub take : ℕ → Text → Text
take zero cs = []
take (suc n) [] = []
take (suc n) (c ∷ cs) = c ∷ take n cs

pub record OperatorMatch : Type 0 where
  pub type : TokenType
  pub length : ℕ

abbrev pub no_match : OperatorMatch
no_match = record { type = token_error; length = 0 }

-- The loop from a length down to one.
unfoldable pub longest_from : ℕ → Text → OperatorMatch
unfolding find_operator
longest_from zero word = no_match
longest_from (suc n) word =
    let shorter = longest_from n word in
    elim (find_operator (take (suc n) word)) [
      | some type ↦ record { type = type; length = suc n }
      | none ↦ shorter
    ]

-- `std::min(MAX_OPERATOR_LENGTH, text.size())`
abbrev pub start_length : Text → ℕ
start_length word = length (take max_operator_length word)

unfoldable pub longest_operator_at : Text → OperatorMatch
unfolding longest_from
longest_operator_at word = longest_from (start_length word) word

abbrev starts_with : ℕ → Text → Bool
starts_with c [] = false
starts_with c (d ∷ ds) = c == d

starts_any : ℕ → List KeywordEntry → Bool
starts_any c [] = false
starts_any c (e ∷ es) = starts_with c e.spelling || starts_any c es

-- OPERATOR_START_TABLE at a byte.
unfoldable pub is_operator_start : ℕ → Bool
unfolding starts_any
is_operator_start c = starts_any c operator_table

unfoldable pub operator_lexeme_of : TokenType → Text
unfolding find_lexeme
operator_lexeme_of type = find_lexeme operator_table type
