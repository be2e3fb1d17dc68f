-- ===== src/Lexer/Stream/Tests.antt =====
-- The token stream on a concrete token list.
use cythonpp.Prelude.{◌+◌, ◌-◌, ◌≤◌, ◌≡◌, refl, List, [], ◌∷◌, true, false, length, arith}
use cythonpp.Lexer.TokenType.{
  TokenType, identifier, comment_single, token_eof, same_type, token_value,
}
use cythonpp.Lexer.Token.{Token}
use cythonpp.Lexer.Stream.{make, at_end, size}
use cythonpp.Lexer.Stream.Cursor.{
  IsAligned, advances, matches, seeks, moves, moves-IsAligned, make-IsAligned, on_comment,
}
use cythonpp.Lexer.Stream.Progress.{advance_times, advance_times-at_end}

abbrev a_token : TokenType → Token
a_token type = record {
  type = type;
  lexeme = [];
  line_number = 1;
  column_number = 1;
  end_line = 1;
  end_column = 1;
}

abbrev some_tokens : List Token
some_tokens =
    a_token comment_single ∷ a_token identifier ∷ a_token comment_single ∷ a_token token_eof ∷ []

moves-IsAligned_example :
    IsAligned (moves (advances ∷ matches identifier ∷ seeks 2 ∷ []) (make some_tokens))
moves-IsAligned_example = moves-IsAligned (advances ∷ matches identifier ∷ seeks 2 ∷ []) some_tokens

tokens_within : length (make some_tokens).tokens ≤ 4 + (make some_tokens).position
unfolding make
tokens_within = omega arith

advance_times-at_end_example : at_end (advance_times 4 (make some_tokens)) ≡ true
advance_times-at_end_example =
    advance_times-at_end 4 (make some_tokens) (make-IsAligned some_tokens) tokens_within

ends_in_no_comment :
    on_comment (make some_tokens).tokens (length (make some_tokens).tokens - 1) ≡ false
unfolding make same_type token_value
ends_in_no_comment = refl

four_tokens : size (make some_tokens) ≡ 4
unfolding size make
four_tokens = refl
