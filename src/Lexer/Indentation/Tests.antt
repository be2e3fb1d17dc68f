-- ===== src/Lexer/Indentation/Tests.antt =====
-- The indentation pass on concrete token lists.
use cythonpp.Prelude.{◌≡◌, refl, List, [], ◌∷◌, some, map}
use cythonpp.Diagnostics.{empty_sink}
use cythonpp.Lexer.TokenType.{TokenType, space, newline, identifier, token_eof, indent, dedent}
use cythonpp.Lexer.Token.{Token}
use cythonpp.Lexer.Indentation.{
  Builder, initial, run_builder, run_tokens, close_line, back, step, label_of, flush, flush_levels,
  push_out, emit, same_level, deeper,
}
use cythonpp.Lexer.Indentation.Balance.{IsPlain, nesting, run_builder-balanced, bracket_of}
use cythonpp.Lexer.Indentation.Levels.{IsOrdered, run_tokens-IsOrdered}
use cythonpp.Lexer.Indentation.Exact.{reports, close_line-exact}
use cythonpp.Lexer.Indentation.Content.{erase_blocks, erase_blanks, run_builder-content}

abbrev a_token : TokenType → Token
a_token type = record {
  type = type;
  lexeme = [];
  line_number = 1;
  column_number = 1;
  end_line = 1;
  end_column = 1;
}

-- `a`, a line indented by two spaces, and the end of the file.
abbrev a_block : List Token
a_block =
    a_token identifier
    ∷ a_token newline
    ∷ a_token space
    ∷ a_token space
    ∷ a_token identifier
    ∷ a_token newline
    ∷ a_token token_eof
    ∷ []

abbrev types : List Token → List TokenType
types ts = map (λ t. t.type) ts

block-IsPlain : IsPlain a_block
unfolding bracket_of
block-IsPlain = (refl, (refl, (refl, (refl, (refl, (refl, (refl, tt)))))))

a_block_out :
    types (run_builder a_block empty_sink).out
    ≡ identifier ∷ newline ∷ indent ∷ identifier ∷ newline ∷ dedent ∷ token_eof ∷ []
unfolding run_builder run_tokens step label_of close_line flush flush_levels push_out emit
    same_level deeper
a_block_out = refl

run_builder-balanced_example : nesting 0 (run_builder a_block empty_sink).out ≡ some 0
run_builder-balanced_example = run_builder-balanced a_block empty_sink block-IsPlain

run_builder-content_example :
    erase_blocks (run_builder a_block empty_sink).out ≡ erase_blanks a_block
run_builder-content_example = run_builder-content a_block empty_sink block-IsPlain

run_tokens-IsOrdered_example : IsOrdered (run_tokens a_block (initial empty_sink)).levels
run_tokens-IsOrdered_example = run_tokens-IsOrdered a_block (initial empty_sink) refl

-- Two spaces measured at the start of a line, over the sentinel.
abbrev measured : Builder
measured = record (initial empty_sink) { pending = record { col = 2; alt_col = 2 } }

nothing_reported : reports (close_line measured (a_token identifier)) ≡ reports measured
unfolding close_line deeper emit push_out
nothing_reported = refl

close_line-exact_example : back (close_line measured (a_token identifier)).levels ≡ measured.pending
close_line-exact_example = close_line-exact measured (a_token identifier) nothing_reported
