-- ===== src/Lexer/Token.antt =====
-- src/domain/lexer/token.h and token.cpp: a token with its place in the source.
use cythonpp.Prelude.Text.{Text}
use cythonpp.Prelude.{ℕ}
use cythonpp.Lexer.TokenType.{TokenType}

pub record Token : Type 0 where
  pub type : TokenType
  pub lexeme : Text
  pub line_number : ℕ
  pub column_number : ℕ
  pub end_line : ℕ
  pub end_column : ℕ
