-- ===== src/Lexer/Scanner/Tests.antt =====
-- The scanner at concrete sources.
use cythonpp.Prelude.{
  ℕ, zero, suc, ◌<◌, ◌≤◌, ◌≡◌, refl, some, none, Option, List, [], ◌∷◌, ◌++◌, map, All, length,
  arith,
}
use cythonpp.Prelude.Text.{Text, text, text_eq, text_less}
use cythonpp.Lexer.Token.{Token}
use cythonpp.Lexer.Context.{bracket_depth, arm_of, in_annotation}
use cythonpp.Lexer.TokenType.{
  TokenType, identifier, op_assign, fstring_start, fstring_middle, fstring_end, open_brace,
  close_brace, colon, newline, space, token_error, token_eof,
}
use cythonpp.Lexer.Operators.{find_operator, take}
use cythonpp.Lexer.Keywords.{find_word, lower_bound, classify_word}
use cythonpp.Lexer.Scanner.Cursor.{Cursor, advance, advance_over}
use cythonpp.Lexer.Scanner.State.{Scanner, reset, token_at}
use cythonpp.Lexer.Scanner.Pieces.{scan_operator, is_blank_line, emit_indentation}
use cythonpp.Lexer.Scanner.Tokenize.{tokenize}
use cythonpp.Lexer.Scanner.Weave.{Woven}
use cythonpp.Lexer.Scanner.Strings.{scan_operator-token_error}
use cythonpp.Lexer.Scanner.Whole.{tokenize-Woven, tokenize-token_eof}
use cythonpp.Lexer.Scanner.Slices.{IsSlice, tokenize-IsSlice, solid, lexemes, solid-tokenize}

abbrev shape : Option (List Token) → List (TokenType × Text)
shape none = []
shape (some ts) = map (λ t. (t.type, t.lexeme)) ts

abbrev formatted : Text
formatted = text " y = f\"a{b:>{w}}\"\n"

abbrev formatted_tokens : List Token
formatted_tokens = elim (tokenize formatted) [ none ↦ [] | some ts ↦ ts ]

tokenize-Woven_example :
    (ts : List Token) × (end : Cursor) × (tokenize formatted ≡ some ts)
    × Woven formatted ts end
    × (end.ahead ≡ [])
tokenize-Woven_example = tokenize-Woven formatted

tokenize-token_eof_example :
    (ts : List Token) × (end : Cursor) × (tokenize formatted
      ≡ some (ts ++ (token_at token_eof [] end end ∷ [])))
    × Woven formatted ts end
    × (end.ahead ≡ [])
tokenize-token_eof_example = tokenize-token_eof formatted

formatted_run : shape (tokenize formatted) ≡ (
    (space, text " ")
    ∷ (identifier, text "y")
    ∷ (op_assign, text "=")
    ∷ (fstring_start, text "f\"")
    ∷ (fstring_middle, text "a")
    ∷ (open_brace, text "{")
    ∷ (identifier, text "b")
    ∷ (colon, text ":")
    ∷ (fstring_middle, text ">")
    ∷ (open_brace, text "{")
    ∷ (identifier, text "w")
    ∷ (close_brace, text "}")
    ∷ (close_brace, text "}")
    ∷ (fstring_end, text "\"")
    ∷ (newline, text "\n")
    ∷ (token_eof, [])
    ∷ [])
unfolding tokenize advance_over is_blank_line emit_indentation text_less text_eq bracket_depth
    arm_of classify_word in_annotation
formatted_run = refl

abbrev token_of : TokenType → Text → ℕ → ℕ → Token
token_of type lexeme start end = record {
  type = type;
  lexeme = lexeme;
  line_number = 1;
  column_number = start;
  end_line = 1;
  end_column = end;
}

abbrev small : Text
small = text "x =$"

abbrev small_tokens : List Token
small_tokens =
    token_of identifier (text "x") 1 2
    ∷ token_of op_assign (text "=") 3 4
    ∷ token_of token_error (text "$") 4 5
    ∷ token_of newline [] 5 5
    ∷ token_of token_eof [] 5 5
    ∷ []

small_run : tokenize small ≡ some small_tokens
unfolding tokenize cythonpp.Lexer.Scanner.Cursor.advance_over
    cythonpp.Lexer.Scanner.Pieces.is_blank_line cythonpp.Lexer.Scanner.Pieces.emit_indentation
    text_less text_eq bracket_depth arm_of classify_word in_annotation
small_run = refl

tokenize-IsSlice_example : All (IsSlice small) small_tokens
tokenize-IsSlice_example = tokenize-IsSlice small small_tokens small_run

solid-tokenize_example : solid (lexemes small_tokens) ≡ solid small
solid-tokenize_example = solid-tokenize small small_tokens small_run

abbrev dollar : Scanner
dollar = reset (text "$x")

no_operator : (k : ℕ) → 0 < k → k ≤ length (text "$x") → find_operator (take k (text "$x")) ≡ none
unfolding find_operator find_word lower_bound text_less text_eq
no_operator zero h l = absurd (omega arith)
no_operator (suc zero) h l = refl
no_operator (suc (suc zero)) h l = refl
no_operator (suc (suc (suc k))) h l = absurd (omega arith)

scan_operator-token_error_example :
    ((scan_operator dollar).tokens
      ≡ dollar.tokens
        ++ (token_at token_error (text "$") dollar.cursor (advance dollar.cursor) ∷ []))
    × ((scan_operator dollar).cursor.ahead ≡ text "x")
scan_operator-token_error_example =
    scan_operator-token_error dollar b'$' (text "x") refl no_operator
