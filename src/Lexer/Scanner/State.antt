-- ===== src/Lexer/Scanner/State.antt =====
-- src/domain/lexer/lexer.h and lexer.cpp: the scanner's state, and the emission of a token.
use cythonpp.Prelude.{Bool, true, false, ◌||◌, List, [], ◌∷◌, ◌++◌, if◌then◌else◌}
use cythonpp.Prelude.Text.{Text}
use cythonpp.Lexer.TokenType.{TokenType, space, tab, comment_single, token_eof}
use cythonpp.Lexer.Token.{Token}
use cythonpp.Lexer.Context.{ScanContext, fresh, observe}
use cythonpp.Lexer.Scanner.Cursor.{Cursor, start_of, slice}

pub record Scanner : Type 0 where
  pub cursor : Cursor
  pub tokens : List Token
  pub context : ScanContext
  pub at_line_start : Bool
  pub line_has_content : Bool

-- `reset`
abbrev pub reset : Text → Scanner
reset source = record {
  cursor = start_of source;
  tokens = [];
  context = fresh;
  at_line_start = true;
  line_has_content = false;
}

abbrev pub move : Cursor → Scanner → Scanner
move k s = record s { cursor = k }

unfoldable pub significant : TokenType → Bool
significant space = false
significant tab = false
significant comment_single = false
significant token_eof = false
significant _ = true

abbrev pub token_at : TokenType → Text → Cursor → Cursor → Token
token_at type lexeme start end = record {
  type = type;
  lexeme = lexeme;
  line_number = start.line;
  column_number = start.column;
  end_line = end.line;
  end_column = end.column;
}

-- The line and the column of a token are those of its start.
unfoldable pub emit : TokenType → Text → Cursor → Scanner → Scanner
unfolding significant observe
emit type lexeme start s = record s {
  tokens = s.tokens ++ (token_at type lexeme start s.cursor ∷ []);
  context = if significant type then observe s.context type else s.context;
  line_has_content = significant type || s.line_has_content;
}

unfoldable pub emit_from : TokenType → Cursor → Scanner → Scanner
unfolding emit
emit_from type start s = emit type (slice start s.cursor) start s
